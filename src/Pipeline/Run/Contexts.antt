-- ===== src/Pipeline/Run/Contexts.antt =====
-- What a prompt may quote, and what a context-only stage may call (`run_pipeline`, `_context_slot`,
-- holonbridge/pipeline.py).
use holon_bridge_python.Prelude.{
  String, ℕ, suc, Bool, true, false, List, [], ◌∷◌, ◌≡◌, ◌==◌, ◌&&◌, ◌||◌, not, if◌then◌else◌,
  given, contains, Result, Option-cases, refl, inl, inr, ◌⊎◌, In, ap, sym,
}
use mathlib.Core.Path.{subst}
use holon_bridge_python.Pipeline.Kinds.Kept.{WasRead}
use holon_bridge_python.Pipeline.Model.{PipelineNode, executable, deferred}
use holon_bridge_python.Pipeline.Stages.{
  done, StageStatus, skipped, source_node, no_hook, not_executed, unknown_transformer,
  no_transformer, Context, Params, NamedRule, RuleRun, StageRecord, context_slot,
}
use holon_bridge_python.Pipeline.Stages.Slots.{context_slot-declared}
use holon_bridge_python.Pipeline.Kinds.{
  Job, run_rule_stage, run_context_stage, run_agent_stage, run_projection_stage, run_shacl_stage,
  run_llm_stage,
}
use holon_bridge_python.Pipeline.Run.{
  after_stage, RunState, run_from, fresh_state, run_stage, tried, runs_rule, is_source,
}
use holon_bridge_python.Pipeline.Run.Recorded.{Round, after_stage-Round}

-- A context that some stage of the list read, which the manifest marks as read-only.
abbrev pub IsRead : {W : Type 0} → Job W → List PipelineNode → Context → Type 0
IsRead job nodes c =
    (k : PipelineNode) × In k nodes
    × (c.iri ≡ k.iri)
    × (k.context_only ≡ true)
    × WasRead job k c.text

later-IsRead :
    {W : Type 0} (job : Job W) (n : PipelineNode) (nodes : List PipelineNode) (c : Context)
    → IsRead job nodes c
    → IsRead job (n ∷ nodes) c
later-IsRead job n nodes c (k, there, same, only, read) = (k, inr there, same, only, read)

now-IsRead :
    {W : Type 0} (job : Job W) {index : ℕ} {s s' : RunState W} (n : PipelineNode)
    (nodes : List PipelineNode)
    → Round job n index s s'
    → (c : Context) → In c s'.contexts
    → In c s.contexts ⊎ IsRead job (n ∷ nodes) c
now-IsRead job n nodes round c m = elim (round.contexts c m) [
  | inl old ↦ inl old
  | inr (e, kept) ↦ inr (n, inl refl, e, kept.0, kept.1)
]

run_from-IsRead :
    {W : Type 0} (job : Job W) (nodes : List PipelineNode) (index : ℕ) (s : RunState W)
    (c : Context)
    → In c (run_from job nodes index s).contexts
    → In c s.contexts ⊎ IsRead job nodes c
unfolding run_from
run_from-IsRead job [] index s c = λ m. inl m
run_from-IsRead job (n ∷ nodes) index s c =
    let s' = after_stage job s index n in
    let round = after_stage-Round job n s index in
    let first = λ (m : In c s'.contexts). now-IsRead job n nodes round c m in
    elim (Option-cases s'.error) [
      | inr (e, stopped) ↦ rw (stopped, run_from) first
      | inl more ↦
          rw (more, run_from)
            (λ m. elim (run_from-IsRead job nodes (suc index) s' c m) [
              | inl h ↦ first h
              | inr h ↦ inr (later-IsRead job n nodes c h)
            ])
    ]

other_branch :
    {A : Type 0} (only rule : Bool) (x y y' z : A)
    → only ≡ true
    → (if only && rule then x else if rule then y else z)
      ≡ (if only && rule then x else if rule then y' else z)
other_branch true true x y y' z h = refl
other_branch true false x y y' z h = refl
other_branch false rule x y y' z h = cc

-- At every point of a run, the context slot of a stage is empty, or it is the text that a rule of the
-- manifest constructed with the run's parameters: the rule that a context-only stage names which is among
-- those that ran and on which the stage declares that it depends.
pub context_slot-IsRead :
    {W : Type 0} (job : Job W) (ran : List PipelineNode) (w : W) (node : PipelineNode)
    → let contexts = (run_from job ran 0 (fresh_state w)).contexts in
      (context_slot node contexts ≡ "")
      ⊎ ((k : PipelineNode) × In k ran
          × (k.context_only ≡ true)
          × In k.iri node.depends_on
          × WasRead job k (context_slot node contexts))
unfolding fresh_state
context_slot-IsRead job ran w node =
    let contexts = (run_from job ran 0 (fresh_state w)).contexts in
    elim (context_slot-declared node contexts) [
      | inl e ↦ inl e
      | inr (c, there, needed, e) ↦ elim (run_from-IsRead job ran 0 (fresh_state w) c there) [
        | inl h ↦ absurd h
        | inr (k, k_there, same, only, read) ↦
            inr (k, k_there, only, rw (← same) needed, subst (WasRead job k) (sym e) read)
      ]
    ]

-- A stage that is context-only has no other effect whatever `execute_named_rule` does.
pub run_stage-executes_no_rule :
    {W : Type 0} (job : Job W) (execute : W → NamedRule → Params → W × Result String RuleRun)
    (w : W) (node : PipelineNode) (contexts : List Context) (r : StageRecord)
    → node.context_only ≡ true
    → run_stage
        (let s = job.services in record job { services = record s { execute_rule = execute } })
        w
        node
        contexts
        r
      ≡ run_stage job w node contexts r
unfolding run_stage tried run_agent_stage run_projection_stage run_shacl_stage run_llm_stage
    run_context_stage
run_stage-executes_no_rule job execute w node contexts r only =
    let other =
      let s = job.services in record job { services = record s { execute_rule = execute } } in
    let last =
      if node.transformer == "shacl" || node.transformer == "validate"
      then run_shacl_stage job w node r
      else done w record r { status = StageStatus.deferred; detail = no_transformer } in
    ap
      (λ t.
        if is_source node.kind
        then done w record r { status = skipped; detail = source_node }
        else if (node.transformer == "external" || node.transformer == "xslt")
            && not (given node.projection)
        then done w record r { status = StageStatus.deferred; detail = no_hook }
        else if node.transformer == "llm"
        then run_llm_stage job w node contexts r
        else if given node.transformer && not (contains node.transformer executable)
        then done w record r {
          status = StageStatus.deferred;
          detail =
              if contains node.transformer deferred
              then not_executed
              else unknown_transformer node.transformer;
        }
        else if node.transformer == "agent"
        then run_agent_stage job w node contexts r
        else if given node.projection
            || node.transformer == "projection"
            || node.transformer == "external"
        then run_projection_stage job w node r
        else t)
      (other_branch node.context_only (runs_rule node) (run_context_stage job w node r)
        (run_rule_stage other w node r) (run_rule_stage job w node r) last only)
