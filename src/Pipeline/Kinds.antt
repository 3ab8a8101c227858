-- ===== src/Pipeline/Kinds.antt =====
-- The kinds of stage (`_run_rule_stage` and its neighbours, holonbridge/pipeline.py).
pub mod Kept
use holon_bridge_python.Prelude.{
  String, ℕ, zero, suc, ◌+◌, Bool, true, false, Option, none, some, List, [], ◌∷◌, ◌++◌, map, ◌==◌,
  ◌&&◌, ◌||◌, not, if◌then◌else◌, given, eqb, find, contains, Result, err, ok,
}
use holon_bridge_python.Prelude.Text.{strip}
use holon_bridge_python.Pipeline.Model.{
  NodeKind, target, stage, source, PipelineNode, Manifest, executable, deferred,
}
use holon_bridge_python.Pipeline.Order.{topological_order, PipelineError}
use holon_bridge_python.Pipeline.Stages.{
  StageStatus, pending, completed, failed, skipped, StageError, no_rule, no_rule_to_read, no_agent,
  no_task, no_person, no_target, unknown_rule, unknown_agent, unknown_query, unknown_hook,
  violations, delivery_failed, raised, Detail, no_detail, source_node, no_hook, not_executed,
  no_transformer, prompt_rendered, graph_empty, conforms, unknown_transformer, call_placed,
  context_read, rule_ran, violation_count, delivered, failure, StageRecord, Param, Params,
  prompt_slots, Context, context_slot, NamedRule, RuleRun, Delivery, CallRequest, Services, Ran,
  done, failing,
}

-- What stays the same through a run: the services, the loaded rules, the dataset's shapes graph,
-- and the caller's arguments. A run that no person asked for has an empty `requested_by`.
pub record Job (W : Type 0) : Type 0 where
  pub services : Services W
  pub rules : List NamedRule
  pub shapes_graph : String
  pub manifest_id : String
  pub params : Params
  pub stop_on_error : Bool
  pub requested_by : String

module _ {W : Type 0} (job : Job W) where
  rule_at : String → Option NamedRule
  rule_at id = find (λ (r : NamedRule). r.id == id) job.rules

  -- The manifest's target wins over the rule's own.
  retarget : PipelineNode → NamedRule → NamedRule
  retarget node rule =
      if given node.target_graph && not (node.target_graph == rule.target_graph)
      then record rule { target_graph = node.target_graph }
      else rule

  rule_result : StageRecord → W × Result String RuleRun → Ran W
  rule_result r (w, err e) = failing w r (raised e)
  rule_result r (w, ok run) = done w record r {
    status = completed;
    triples_written = run.constructed;
    detail = rule_ran run.target_graph run.added run.removed;
  }

  unfoldable pub run_rule_stage : W → PipelineNode → StageRecord → Ran W
  unfolding rule_at retarget rule_result
  run_rule_stage w node r =
      if given node.rule
      then elim (rule_at node.rule) [
        | none ↦ failing w r (unknown_rule node.rule)
        | some rule ↦ rule_result r (job.services.execute_rule w (retarget node rule) job.params)
      ]
      else failing w r no_rule

  context_result : StageRecord → W × Result String String → Ran W
  context_result r (w, err e) = failing w r (raised e)
  context_result r (w, ok turtle) = record {
    world = w;
    filled = record r { status = completed; detail = context_read turtle };
    failure = none;
    context = some turtle;
  }

  unfoldable pub run_context_stage : W → PipelineNode → StageRecord → Ran W
  unfolding rule_at context_result
  run_context_stage w node r =
      if given node.rule
      then elim (rule_at node.rule) [
        | none ↦ failing w r (unknown_rule node.rule)
        | some rule ↦ context_result r (job.services.construct w rule job.params)
      ]
      else failing w r no_rule_to_read

  unfoldable pub render_task : PipelineNode → List Context → String
  render_task node contexts =
      job.services.render node.prompt_text (prompt_slots job.params (context_slot node contexts))

  unfoldable pub run_llm_stage : W → PipelineNode → List Context → StageRecord → Ran W
  unfolding render_task
  run_llm_stage w node contexts r =
      if given node.prompt_text
      then done w record r {
        status = StageStatus.deferred;
        result = render_task node contexts;
        detail = prompt_rendered;
      }
      else done w record r { status = StageStatus.deferred; detail = not_executed }

  call_result : String → StageRecord → W × Result String String → Ran W
  call_result agent r (w, err e) = failing w r (raised e)
  call_result agent r (w, ok id) =
      done w record r { status = StageStatus.deferred; result = id; detail = call_placed agent }

  call_for : PipelineNode → List Context → Option String → CallRequest
  unfolding render_task
  call_for node contexts query = record {
    requested_by = job.requested_by;
    endpoint = node.agent;
    task = render_task node contexts;
    context_query = query;
    target_graph = if given node.target_graph then some node.target_graph else none;
    via_pipeline = job.manifest_id;
    via_stage = node.id;
  }

  place_call : PipelineNode → List Context → StageRecord → W → Option String → Ran W
  unfolding call_result call_for
  place_call node contexts r w query =
      call_result node.agent r (job.services.request_call w (call_for node contexts query))

  query_checked : PipelineNode → List Context → StageRecord → W × Result String Bool → Ran W
  unfolding place_call
  query_checked node contexts r (w, err e) = failing w r (raised e)
  query_checked node contexts r (w, ok false) = failing w r (unknown_query node.agent_context)
  query_checked node contexts r (w, ok true) =
      place_call node contexts r w (some node.agent_context)

  endpoint_checked : PipelineNode → List Context → StageRecord → W × Result String Bool → Ran W
  unfolding place_call query_checked
  endpoint_checked node contexts r (w, err e) = failing w r (raised e)
  endpoint_checked node contexts r (w, ok false) = failing w r (unknown_agent node.agent)
  endpoint_checked node contexts r (w, ok true) =
      if given node.agent_context
      then query_checked node contexts r (job.services.has_query w node.agent_context)
      else place_call node contexts r w none

  unfoldable pub run_agent_stage : W → PipelineNode → List Context → StageRecord → Ran W
  unfolding endpoint_checked
  run_agent_stage w node contexts r =
      if not (given node.agent)
      then failing w r no_agent
      else if not (given (strip node.prompt_text))
      then failing w r no_task
      else if not (given job.requested_by)
      then failing w r no_person
      else endpoint_checked node contexts r (job.services.has_endpoint w node.agent)

  validation_result : StageRecord → W × Result String ℕ → Ran W
  validation_result r (w, err e) = failing w r (raised e)
  validation_result r (w, ok zero) = done w record r { status = completed; detail = conforms }
  validation_result r (w, ok (suc n)) =
      failing w record r { status = failed; detail = violation_count (suc n) } (violations (suc n))

  turtle_read : PipelineNode → StageRecord → W × Result String String → Ran W
  unfolding validation_result
  turtle_read node r (w, err e) = failing w r (raised e)
  turtle_read node r (w, ok turtle) =
      if not (given (strip turtle))
      then done w record r { status = completed; detail = graph_empty }
      else validation_result r (
          job.services.validate w turtle
            (if given node.shapes then node.shapes else job.shapes_graph))

  unfoldable pub run_shacl_stage : W → PipelineNode → StageRecord → Ran W
  unfolding turtle_read
  run_shacl_stage w node r =
      if given node.target_graph
      then turtle_read node r (job.services.get_graph w node.target_graph)
      else failing w r no_target

  delivery_result : StageRecord → W × Result String Delivery → Ran W
  delivery_result r (w, err e) = failing w r (raised e)
  delivery_result r (w, ok d) =
      let filled = record r {
        status = if d.failed then failed else completed;
        triples_written = d.additions;
        detail = delivered d.target d.additions d.retractions;
      } in
      if d.failed then failing w filled (delivery_failed d.target) else done w filled

  hook_checked : PipelineNode → StageRecord → W × Result String Bool → Ran W
  unfolding delivery_result
  hook_checked node r (w, err e) = failing w r (raised e)
  hook_checked node r (w, ok false) = failing w r (unknown_hook node.projection)
  hook_checked node r (w, ok true) = delivery_result r (job.services.deliver w node.projection)

  unfoldable pub run_projection_stage : W → PipelineNode → StageRecord → Ran W
  unfolding hook_checked
  run_projection_stage w node r = hook_checked node r (job.services.has_hook w node.projection)
