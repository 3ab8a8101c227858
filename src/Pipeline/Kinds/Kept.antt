-- ===== src/Pipeline/Kinds/Kept.antt =====
-- What a stage's record keeps, for each kind of stage (holonbridge/pipeline.py).
use holon_bridge_python.Prelude.{
  String, ℕ, zero, suc, Bool, true, false, Option, none, some, List, ◌≡◌, not, if◌then◌else◌, given,
  Result, err, ok, Bool-cases, In, find-eq-some, eq_iff, ◌==◌, ap, ◌∙◌, some-injective, refl, inl,
  inr,
}
use holon_bridge_python.Prelude.Text.{strip}
use holon_bridge_python.Pipeline.Model.{PipelineNode}
use holon_bridge_python.Pipeline.Stages.{
  StageError, unknown_rule, StageRecord, Context, NamedRule, RuleRun, Delivery, Ran, is_failed,
  done, failing,
}
use holon_bridge_python.Pipeline.Kinds.{
  Job, run_rule_stage, run_context_stage, run_llm_stage, run_agent_stage, run_shacl_stage,
  run_projection_stage, rule_at, retarget, rule_result, context_result, call_result, call_for,
  place_call, query_checked, endpoint_checked, validation_result, turtle_read, delivery_result,
  hook_checked,
}

-- Nothing was read.
abbrev pub Unread : String → Type 0
Unread text = ⊥

-- The text is what a rule of the stage's name constructed, with the run's parameters.
abbrev pub WasRead : {W : Type 0} → Job W → PipelineNode → String → Type 0
WasRead {W} job node text =
    (w : W) × (rule : NamedRule) × (v : W) × In rule job.rules
    × (rule.id ≡ node.rule)
    × (job.services.construct w rule job.params ≡ (v, ok text))

-- The record is still that of the stage, it is failed only if the stage raised, and what was read is
-- kept only if it is as allowed.
pub record Keeps {W : Type 0} (allowed : String → Type 0) (r : StageRecord) (ran : Ran W)
    : Type 0 where
  pub name : ran.filled.name ≡ r.name
  pub order : ran.filled.order ≡ r.order
  pub honest : ran.failure ≡ none → is_failed ran.filled.status ≡ false
  pub reads : (text : String) → ran.context ≡ some text → allowed text

module _ {W : Type 0} (job : Job W) (node : PipelineNode) (contexts : List Context)
    (r : StageRecord) where
  failing-Keeps : (b : String → Type 0) (w : W) (e : StageError) → Keeps b r (failing w r e)
  failing-Keeps b w e = record { name = refl; order = refl; honest = λ h. cc; reads = λ t h. cc }

  pub done-Keeps :
      (w : W) (x : StageRecord)
      → x.name ≡ r.name
      → x.order ≡ r.order
      → is_failed x.status ≡ false
      → Keeps Unread r (done w x)
  done-Keeps w x n o h = record { name = n; order = o; honest = λ _. h; reads = λ t q. cc }

  pub if-Keeps :
      (allowed : String → Type 0) (test : Bool) (x y : Ran W)
      → Keeps allowed r x
      → Keeps allowed r y
      → Keeps allowed r (if test then x else y)
  if-Keeps allowed true x y p q = p
  if-Keeps allowed false x y p q = q

  rule_result-Keeps : (x : W × Result String RuleRun) → Keeps Unread r (rule_result job r x)
  unfolding rule_result
  rule_result-Keeps (w, err e) = failing-Keeps Unread w _
  rule_result-Keeps (w, ok run) = done-Keeps w _ refl refl refl

  rule_found-Keeps :
      (w : W) (found : Option NamedRule)
      → Keeps Unread r (elim found [
        | none ↦ failing w r (unknown_rule node.rule)
        | some rule ↦
            rule_result job r (job.services.execute_rule w (retarget job node rule) job.params)
      ])
  rule_found-Keeps w none = failing-Keeps Unread w _
  rule_found-Keeps w (some rule) =
      rule_result-Keeps (job.services.execute_rule w (retarget job node rule) job.params)

  pub run_rule_stage-Keeps : (w : W) → Keeps Unread r (run_rule_stage job w node r)
  unfolding run_rule_stage
  run_rule_stage-Keeps w =
      if-Keeps Unread (given node.rule) _ _ (rule_found-Keeps w (rule_at job node.rule))
        (failing-Keeps Unread w _)

  context_result-Keeps :
      (w : W) (rule : NamedRule)
      → In rule job.rules
      → rule.id ≡ node.rule
      → (x : W × Result String String) → job.services.construct w rule job.params ≡ x
      → Keeps (WasRead job node) r (context_result job r x)
  unfolding context_result
  context_result-Keeps w rule there named (v, err e) is = failing-Keeps (WasRead job node) v _
  context_result-Keeps w rule there named (v, ok turtle) is = record {
    name = refl;
    order = refl;
    honest = λ h. refl;
    reads =
        λ t h. (w, rule, v, there, named, is ∙ ap (λ (x : String). (v, ok x)) (some-injective h));
  }

  context_found-Keeps :
      (w : W) (found : Option NamedRule)
      → rule_at job node.rule ≡ found
      → Keeps (WasRead job node) r (elim found [
        | none ↦ failing w r (unknown_rule node.rule)
        | some rule ↦ context_result job r (job.services.construct w rule job.params)
      ])
  unfolding rule_at
  context_found-Keeps w none h = failing-Keeps (WasRead job node) w _
  context_found-Keeps w (some rule) h =
      let (there, same) = find-eq-some (λ (x : NamedRule). x.id == node.rule) rule job.rules h in
      context_result-Keeps w rule there ((eq_iff rule.id node.rule).0 same)
        (job.services.construct w rule job.params) refl

  pub run_context_stage-Keeps :
      (w : W) → Keeps (WasRead job node) r (run_context_stage job w node r)
  unfolding run_context_stage
  run_context_stage-Keeps w =
      if-Keeps (WasRead job node) (given node.rule) _ _
        (context_found-Keeps w (rule_at job node.rule) refl) (failing-Keeps (WasRead job node) w _)

  pub run_llm_stage-Keeps : (w : W) → Keeps Unread r (run_llm_stage job w node contexts r)
  unfolding run_llm_stage
  run_llm_stage-Keeps w =
      if-Keeps Unread (given node.prompt_text) _ _ (done-Keeps w _ refl refl refl)
        (done-Keeps w _ refl refl refl)

  call_result-Keeps :
      (agent : String) (x : W × Result String String) → Keeps Unread r (call_result job agent r x)
  unfolding call_result
  call_result-Keeps agent (w, err e) = failing-Keeps Unread w _
  call_result-Keeps agent (w, ok t) = done-Keeps w _ refl refl refl

  place_call-Keeps :
      (w : W) (q : Option String) → Keeps Unread r (place_call job node contexts r w q)
  unfolding place_call
  place_call-Keeps w q =
      call_result-Keeps node.agent (job.services.request_call w (call_for job node contexts q))

  query_checked-Keeps :
      (x : W × Result String Bool) → Keeps Unread r (query_checked job node contexts r x)
  unfolding query_checked
  query_checked-Keeps (w, err e) = failing-Keeps Unread w _
  query_checked-Keeps (w, ok false) = failing-Keeps Unread w _
  query_checked-Keeps (w, ok true) = place_call-Keeps w _

  endpoint_checked-Keeps :
      (x : W × Result String Bool) → Keeps Unread r (endpoint_checked job node contexts r x)
  unfolding endpoint_checked
  endpoint_checked-Keeps (w, err e) = failing-Keeps Unread w _
  endpoint_checked-Keeps (w, ok false) = failing-Keeps Unread w _
  endpoint_checked-Keeps (w, ok true) =
      if-Keeps Unread (given node.agent_context) _ _
        (query_checked-Keeps (job.services.has_query w node.agent_context))
        (place_call-Keeps w none)

  pub run_agent_stage-Keeps : (w : W) → Keeps Unread r (run_agent_stage job w node contexts r)
  unfolding run_agent_stage
  run_agent_stage-Keeps w =
      if-Keeps Unread (not (given node.agent)) _ _ (failing-Keeps Unread w _) (
        if-Keeps Unread (not (given (strip node.prompt_text))) _ _ (failing-Keeps Unread w _) (
          if-Keeps Unread (not (given job.requested_by)) _ _ (failing-Keeps Unread w _)
            (endpoint_checked-Keeps (job.services.has_endpoint w node.agent))))

  validation_result-Keeps : (x : W × Result String ℕ) → Keeps Unread r (validation_result job r x)
  unfolding validation_result
  validation_result-Keeps (w, err e) = failing-Keeps Unread w _
  validation_result-Keeps (w, ok zero) = done-Keeps w _ refl refl refl
  validation_result-Keeps (w, ok (suc n)) = record {
    name = refl;
    order = refl;
    honest = λ h. cc;
    reads = λ t h. cc;
  }

  turtle_read-Keeps : (x : W × Result String String) → Keeps Unread r (turtle_read job node r x)
  unfolding turtle_read
  turtle_read-Keeps (w, err e) = failing-Keeps Unread w _
  turtle_read-Keeps (w, ok turtle) =
      if-Keeps Unread (not (given (strip turtle))) _ _ (done-Keeps w _ refl refl refl) (
        validation_result-Keeps (
          job.services.validate w turtle
            (if given node.shapes then node.shapes else job.shapes_graph)))

  pub run_shacl_stage-Keeps : (w : W) → Keeps Unread r (run_shacl_stage job w node r)
  unfolding run_shacl_stage
  run_shacl_stage-Keeps w =
      if-Keeps Unread (given node.target_graph) _ _
        (turtle_read-Keeps (job.services.get_graph w node.target_graph)) (failing-Keeps Unread w _)

  delivery_result-Keeps :
      (x : W × Result String Delivery) → Keeps Unread r (delivery_result job r x)
  unfolding delivery_result
  delivery_result-Keeps (w, err e) = failing-Keeps Unread w _
  delivery_result-Keeps (w, ok d) = elim (Bool-cases d.failed) [
    | inl e ↦ rw e (record { name = refl; order = refl; honest = λ h. cc; reads = λ t h. cc })
    | inr e ↦ rw e (done-Keeps w _ refl refl refl)
  ]

  hook_checked-Keeps : (x : W × Result String Bool) → Keeps Unread r (hook_checked job node r x)
  unfolding hook_checked
  hook_checked-Keeps (w, err e) = failing-Keeps Unread w _
  hook_checked-Keeps (w, ok false) = failing-Keeps Unread w _
  hook_checked-Keeps (w, ok true) = delivery_result-Keeps (job.services.deliver w node.projection)

  pub run_projection_stage-Keeps : (w : W) → Keeps Unread r (run_projection_stage job w node r)
  unfolding run_projection_stage
  run_projection_stage-Keeps w = hook_checked-Keeps (job.services.has_hook w node.projection)
