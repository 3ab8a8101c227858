-- ===== src/Pipeline/Run.antt =====
-- A run of a pipeline (`run_pipeline`, holonbridge/pipeline.py).
pub mod Recorded
pub mod Ended
pub mod Waits
pub mod Contexts
use holon_bridge_python.Prelude.{
  String, ℕ, zero, suc, ◌+◌, Bool, true, false, Option, none, some, List, [], ◌∷◌, ◌++◌, map, ◌==◌,
  ◌&&◌, ◌||◌, not, if◌then◌else◌, given, any, contains, Result, err, ok, ◌>>=◌,
}
use holon_bridge_python.Pipeline.Model.{
  NodeKind, target, stage, source, PipelineNode, Manifest, executable, deferred,
}
use holon_bridge_python.Pipeline.Order.{topological_order, PipelineError}
use holon_bridge_python.Pipeline.Stages.{
  StageStatus, pending, completed, failed, running, skipped, StageError, Detail, no_detail,
  source_node, no_hook, not_executed, no_transformer, unknown_transformer, failure, StageRecord,
  Context, Services, Ran, done, is_failed,
}
use holon_bridge_python.Pipeline.Kinds.{
  Job, run_rule_stage, run_context_stage, run_llm_stage, run_agent_stage, run_shacl_stage,
  run_projection_stage,
}

kind_name : NodeKind → String
kind_name target = "target"
kind_name stage = "stage"
kind_name source = "source"

is_source : NodeKind → Bool
is_source source = true
is_source _ = false

-- A transformer is in lower case since the manifest was loaded.
unfoldable pub fresh_record : PipelineNode → ℕ → StageRecord
unfolding kind_name
fresh_record node index = record {
  name = node.id;
  transformer = if given node.transformer then node.transformer else kind_name node.kind;
  status = pending;
  detail = no_detail;
  triples_written = 0;
  order = index;
  result = "";
}

abbrev runs_rule : PipelineNode → Bool
runs_rule node = node.transformer == "sparql" || node.transformer == "rule" || given node.rule

-- What `message` and the loop's variables hold between two stages. The message's error names the
-- stage that failed.
pub record RunState (W : Type 0) : Type 0 where
  pub world : W
  pub stages : List StageRecord
  pub contexts : List Context
  pub error : Option (String × StageError)

-- `context_results[node.iri] = result`
unfoldable pub keep_context : PipelineNode → Option String → List Context → List Context
keep_context node none contexts = contexts
keep_context node (some text) contexts = (record { iri = node.iri; text = text }) ∷ contexts

unfoldable pub fresh_state : {W : Type 0} → W → RunState W
fresh_state w = record { world = w; stages = []; contexts = []; error = none }

module _ {W : Type 0} (job : Job W) where
  -- The stages that are tried; what they raise is caught.
  unfoldable pub tried : W → PipelineNode → List Context → StageRecord → Ran W
  tried w node contexts r =
      if node.transformer == "agent"
      then run_agent_stage job w node contexts r
      else if given node.projection
          || node.transformer == "projection"
          || node.transformer == "external"
      then run_projection_stage job w node r
      else if node.context_only && runs_rule node
      then run_context_stage job w node r
      else if runs_rule node
      then run_rule_stage job w node r
      else if node.transformer == "shacl" || node.transformer == "validate"
      then run_shacl_stage job w node r
      else done w record r { status = StageStatus.deferred; detail = no_transformer }

  unfoldable pub run_stage : W → PipelineNode → List Context → StageRecord → Ran W
  unfolding is_source tried
  run_stage w node contexts r =
      if is_source node.kind
      then done w record r { status = skipped; detail = source_node }
      else if (node.transformer == "external" || node.transformer == "xslt")
          && not (given node.projection)
      then done w record r { status = StageStatus.deferred; detail = no_hook }
      else if node.transformer == "llm"
      then run_llm_stage job w node contexts r
      else if given node.transformer && not (contains node.transformer executable)
      then done w record r {
        status = StageStatus.deferred;
        detail =
            if contains node.transformer deferred
            then not_executed
            else unknown_transformer node.transformer;
      }
      else tried w node contexts r

  record_failure : PipelineNode → RunState W → Ran W → Option StageError → RunState W
  unfolding keep_context
  record_failure node s ran none = record {
    world = ran.world;
    stages = s.stages ++ ran.filled ∷ [];
    contexts = keep_context node ran.context s.contexts;
    error = s.error;
  }
  record_failure node s ran (some e) = record {
    world = ran.world;
    stages =
        s.stages ++ (let r = ran.filled in record r { status = failed; detail = failure e }) ∷ [];
    contexts = s.contexts;
    error = if job.stop_on_error then some (node.id, e) else s.error;
  }

  -- One round of the loop.
  unfoldable pub after_stage : RunState W → ℕ → PipelineNode → RunState W
  unfolding record_failure
  after_stage s index node =
      let ran = run_stage s.world node s.contexts (fresh_record node index) in
      record_failure node s ran ran.failure

  unfoldable pub run_from : List PipelineNode → ℕ → RunState W → RunState W
  unfolding after_stage
  run_from [] index s = s
  run_from (node ∷ nodes) index s = elim (after_stage s index node).error [
    | some e ↦ after_stage s index node
    | none ↦ run_from nodes (suc index) (after_stage s index node)
  ]

  -- The message's stages are empty when a run begins.
  unfoldable pub run_pipeline : W → Manifest → Result PipelineError (RunState W)
  unfolding run_from fresh_state
  run_pipeline w m = topological_order m >>= λ order. ok (run_from order 0 (fresh_state w))
