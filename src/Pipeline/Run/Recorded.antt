-- ===== src/Pipeline/Run/Recorded.antt =====
-- What a round of the loop records (`run_pipeline`, holonbridge/pipeline.py).
use holon_bridge_python.Prelude.{
  String, ℕ, Bool, true, false, Option, none, some, List, [], ◌∷◌, ◌++◌, ◌≡◌, ◌==◌, ◌&&◌, ◌||◌, not,
  if◌then◌else◌, given, contains, refl, inl, inr, ◌⊎◌, In, ap, sym,
}
use mathlib.Core.Path.{subst}
use holon_bridge_python.Pipeline.Model.{PipelineNode, executable}
use holon_bridge_python.Pipeline.Stages.{
  failed, StageError, StageRecord, Context, Ran, is_failed, failure,
}
use holon_bridge_python.Pipeline.Kinds.{Job}
use holon_bridge_python.Pipeline.Kinds.Kept.{
  Keeps, Unread, WasRead, if-Keeps, done-Keeps, run_rule_stage-Keeps, run_context_stage-Keeps,
  run_llm_stage-Keeps, run_agent_stage-Keeps, run_shacl_stage-Keeps, run_projection_stage-Keeps,
}
use holon_bridge_python.Pipeline.Run.{
  tried, run_stage, fresh_record, record_failure, keep_context, after_stage, RunState, is_source,
  runs_rule,
}

-- What a stage may keep: what it read, if it is context-only.
abbrev pub Kept : {W : Type 0} → Job W → PipelineNode → String → Type 0
Kept job node text = (node.context_only ≡ true) × WasRead job node text

module _ {W : Type 0} (job : Job W) (node : PipelineNode) (contexts : List Context)
    (r : StageRecord) where
  allow : {ran : Ran W} → Keeps Unread r ran → Keeps (Kept job node) r ran
  allow k = record {
    name = k.name;
    order = k.order;
    honest = k.honest;
    reads = λ t h. absurd (k.reads t h);
  }

  context_branch :
      (only rule : Bool) (x y : Ran W)
      → node.context_only ≡ only
      → Keeps (WasRead job node) r x
      → Keeps (Kept job node) r y
      → Keeps (Kept job node) r (if only && rule then x else y)
  context_branch true true x y e k l = record {
    name = k.name;
    order = k.order;
    honest = k.honest;
    reads = λ t h. (e, k.reads t h);
  }
  context_branch true false x y e k l = l
  context_branch false rule x y e k l = l

  tried-Keeps : (w : W) → Keeps (Kept job node) r (tried job w node contexts r)
  unfolding tried
  tried-Keeps w =
      if-Keeps job node contexts r _ (node.transformer == "agent") _ _
        (allow (run_agent_stage-Keeps job node contexts r w))
        (if-Keeps job node contexts r _
          (given node.projection
            || node.transformer == "projection"
            || node.transformer == "external")
          _ _ (allow (run_projection_stage-Keeps job node contexts r w))
          (context_branch node.context_only (runs_rule node) _ _ refl
            (run_context_stage-Keeps job node contexts r w)
            (if-Keeps job node contexts r _ (runs_rule node) _ _
              (allow (run_rule_stage-Keeps job node contexts r w))
              (if-Keeps job node contexts r _
                (node.transformer == "shacl" || node.transformer == "validate") _ _
                (allow (run_shacl_stage-Keeps job node contexts r w))
                (allow (done-Keeps job node contexts r w _ refl refl refl))))))

  run_stage-Keeps : (w : W) → Keeps (Kept job node) r (run_stage job w node contexts r)
  unfolding run_stage
  run_stage-Keeps w =
      if-Keeps job node contexts r _ (is_source node.kind) _ _
        (allow (done-Keeps job node contexts r w _ refl refl refl))
        (if-Keeps job node contexts r _
          ((node.transformer == "external" || node.transformer == "xslt")
            && not (given node.projection))
          _ _ (allow (done-Keeps job node contexts r w _ refl refl refl))
          (if-Keeps job node contexts r _ (node.transformer == "llm") _ _
            (allow (run_llm_stage-Keeps job node contexts r w))
            (if-Keeps job node contexts r _
              (given node.transformer && not (contains node.transformer executable)) _ _
              (allow (done-Keeps job node contexts r w _ refl refl refl)) (tried-Keeps w))))

-- What one round adds to the message.
pub record Round {W : Type 0} (job : Job W) (node : PipelineNode) (index : ℕ) (s s' : RunState W)
    : Type 0 where
  pub entry : StageRecord
  pub stages : s'.stages ≡ s.stages ++ entry ∷ []
  pub name : entry.name ≡ node.id
  pub order : entry.order ≡ index
  -- a failure stops the run exactly if the caller asked for that
  pub error :
      ((is_failed entry.status ≡ false) × (s'.error ≡ s.error))
      ⊎ ((is_failed entry.status ≡ true)
          × ((e : StageError) × (entry.detail ≡ failure e)
              × (s'.error ≡ (if job.stop_on_error then some (node.id, e) else s.error))))
  pub contexts :
      (c : Context)
      → In c s'.contexts
      → In c s.contexts ⊎ ((c.iri ≡ node.iri) × Kept job node c.text)

keep_context-In :
    (P : String → Type 0) (node : PipelineNode) (contexts : List Context) (c : Context)
    (o : Option String)
    → ((t : String) → o ≡ some t → P t)
    → In c (keep_context node o contexts)
    → In c contexts ⊎ ((c.iri ≡ node.iri) × P c.text)
unfolding keep_context
keep_context-In P node contexts c none only m = inl m
keep_context-In P node contexts c (some t) only (inl e) =
    inr
      (ap (λ (x : Context). x.iri) e, subst P (sym (ap (λ (x : Context). x.text) e)) (only t refl))
keep_context-In P node contexts c (some t) only (inr m) = inl m

module _ {W : Type 0} (job : Job W) (node : PipelineNode) where
  record_failure-Round :
      (s : RunState W) (index : ℕ) (ran : Ran W) (f : Option StageError)
      → ran.failure ≡ f
      → Keeps (Kept job node) (fresh_record node index) ran
      → Round job node index s (record_failure job node s ran f)
  unfolding record_failure fresh_record
  record_failure-Round s index ran none h k = record {
    entry = ran.filled;
    stages = refl;
    name = k.name;
    order = k.order;
    error = inl (k.honest h, refl);
    contexts =
        λ c m. keep_context-In (Kept job node) node s.contexts c ran.context (λ t e. k.reads t e) m;
  }
  record_failure-Round s index ran (some e) h k = record {
    entry = let r = ran.filled in record r { status = failed; detail = failure e };
    stages = refl;
    name = k.name;
    order = k.order;
    error = inr (refl, (e, refl, refl));
    contexts = λ c m. inl m;
  }

  pub after_stage-Round :
      (s : RunState W) (index : ℕ) → Round job node index s (after_stage job s index node)
  unfolding after_stage
  after_stage-Round s index =
      record_failure-Round s index _ _ refl
        (run_stage-Keeps job node s.contexts (fresh_record node index) s.world)
