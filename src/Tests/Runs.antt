-- ===== src/Tests/Runs.antt =====
-- Runs of a small pipeline, over a world that counts the calls.
use holon_bridge_python.Prelude.{
  String, ℕ, ◌+◌, true, false, none, some, List, [], ◌∷◌, ◌++◌, ◌≡◌, ◌≢◌, ◌⊎◌, refl, In, length,
  err, ok,
}
use holon_bridge_python.Prelude.Sorting.{sort_by}
use holon_bridge_python.Pipeline.Model.{PipelineNode, Manifest}
use holon_bridge_python.Pipeline.Order.{topological_order}
use holon_bridge_python.Pipeline.Stages.{
  StageStatus, completed, failed, deferred, StageError, no_target, StageRecord, Detail, failure,
  context_read, prompt_rendered, Param, Params, prompt_slots, stringify_input, param_at, Context,
  context_slot, Services, is_failed,
}
use holon_bridge_python.Pipeline.Stages.Slots.{prompt_slots-reserved, IsInput}
use holon_bridge_python.Pipeline.Kinds.{Job, run_context_stage, run_llm_stage, run_shacl_stage}
use holon_bridge_python.Pipeline.Run.{
  RunState, run_from, run_pipeline, fresh_state, run_stage, fresh_record,
}
use holon_bridge_python.Pipeline.Run.Ended.{Records, NoneFailed}
use holon_bridge_python.Pipeline.Run.Waits.{run_pipeline-ends}
use holon_bridge_python.Pipeline.Run.Contexts.{context_slot-IsRead, run_stage-executes_no_rule}
use holon_bridge_python.Pipeline.Message.{
  Message, MessageStatus, no_error, execute, saved, fuseki_error,
}
use holon_bridge_python.Pipeline.Kinds.Kept.{WasRead}
use holon_bridge_python.Tests.Pipelines.{node, manifest}

abbrev services : Services ℕ
services = record {
  execute_rule = λ w rule ps. (
    w + 1,
    ok (record { target_graph = rule.target_graph; constructed = 2; added = 2; removed = 0 }),
  );
  construct = λ w rule ps. (w, ok "<a> <b> <c> .");
  get_graph = λ w graph. (w, ok "<a> <b> <c> .");
  validate = λ w turtle shapes. (w, ok 0);
  has_hook = λ w id. (w, ok false);
  deliver = λ w id. (w, err "no such hook");
  has_endpoint = λ w id. (w, ok true);
  has_query = λ w id. (w, ok true);
  request_call = λ w call. (w + 1, ok "call-1");
  render = λ template slots. template;
}

abbrev params : Params
params = record {
  items = (record { key = "input"; text = "x" }) ∷ (record { key = "context"; text = "y" }) ∷ [];
  dumped = "";
}

abbrev job : Job ℕ
job = record {
  services = services;
  rules = (record { id = "r"; target_graph = "out" }) ∷ [];
  shapes_graph = "shapes";
  manifest_id = "m";
  params = params;
  stop_on_error = true;
  requested_by = "";
}

abbrev reader : PipelineNode
reader = let n = node "read" [] in record n { context_only = true }

abbrev asker : PipelineNode
asker =
    let n = node "ask" ("read" ∷ []) in
    record n { transformer = "llm"; prompt_text = "{{context}}" }

-- A validation stage that names no target.
abbrev checker : PipelineNode
checker = let n = node "check" ("ask" ∷ []) in record n { transformer = "shacl"; rule = "" }

abbrev writer : PipelineNode
writer = node "write" ("check" ∷ [])

abbrev flow : Manifest
flow = manifest (writer ∷ checker ∷ asker ∷ reader ∷ [])

flow_order : topological_order flow ≡ ok (reader ∷ asker ∷ checker ∷ writer ∷ [])
unfolding topological_order sort_by
flow_order = refl

abbrev entry : String → String → ℕ → StageStatus → Detail → String → StageRecord
entry name transformer index status detail result = record {
  name = name;
  transformer = transformer;
  status = status;
  detail = detail;
  triples_written = 0;
  order = index;
  result = result;
}

abbrev read_entry : StageRecord
read_entry = entry "read" "sparql" 0 completed (context_read "<a> <b> <c> .") ""

abbrev ask_entry : StageRecord
ask_entry = entry "ask" "llm" 1 deferred prompt_rendered "{{context}}"

abbrev check_entry : StageRecord
check_entry = entry "check" "shacl" 2 failed (failure no_target) ""

-- The writer does not run.
abbrev end : RunState ℕ
end = record {
  world = 0;
  stages = read_entry ∷ ask_entry ∷ check_entry ∷ [];
  contexts = (record { iri = "read"; text = "<a> <b> <c> ." }) ∷ [];
  error = some ("check", no_target);
}

flow_ran : run_pipeline job 0 flow ≡ ok end
unfolding run_pipeline topological_order sort_by run_stage run_from fresh_state fresh_record
    run_context_stage run_llm_stage run_shacl_stage
flow_ran = refl

run_pipeline-ends_example :
    (sorted : List PipelineNode) × (topological_order flow ≡ ok sorted)
    × Records sorted 0 end.stages
    × (((end.error ≡ none)
          × (length end.stages ≡ length sorted)
          × (job.stop_on_error ≡ true → NoneFailed end.stages))
        ⊎ ((job.stop_on_error ≡ true)
            × ((earlier : List StageRecord) × (last : StageRecord) × (e : StageError) × (end.stages
                  ≡ earlier ++ last ∷ [])
                × NoneFailed earlier
                × (is_failed last.status ≡ true)
                × (last.detail ≡ failure e)
                × (end.error ≡ some (last.name, e)))))
run_pipeline-ends_example = run_pipeline-ends job 0 flow end flow_ran

abbrev read_so_far : List Context
read_so_far = (run_from job (reader ∷ []) 0 (fresh_state 0)).contexts

context_slot-IsRead_example :
    (context_slot asker read_so_far ≡ "")
    ⊎ ((k : PipelineNode) × In k (reader ∷ [])
        × (k.context_only ≡ true)
        × In k.iri asker.depends_on
        × WasRead job k (context_slot asker read_so_far))
context_slot-IsRead_example = context_slot-IsRead job (reader ∷ []) 0 asker

context_quoted : context_slot asker read_so_far ≡ "<a> <b> <c> ."
unfolding context_slot run_stage run_from fresh_state run_context_stage
context_quoted = refl

abbrev message : Message
message = record {
  status = MessageStatus.received;
  started_at = "";
  completed_at = "";
  error = no_error;
  stages = [];
}

-- The store is down when the run has ended: the message stays running.
left_running :
    (execute job "1" "2" saved fuseki_error 0 flow message).stored.status ≡ MessageStatus.running
unfolding execute
left_running = refl

flow_failed : (execute job "1" "2" saved saved 0 flow message).stored.status ≡ MessageStatus.failed
unfolding execute topological_order sort_by run_stage run_from fresh_state run_context_stage
    run_llm_stage run_shacl_stage
flow_failed = refl

run_stage-executes_no_rule_example :
    run_stage
      (record job { services = record services { execute_rule = λ w rule ps. (0, err "never") } })
      5
      reader
      []
      (fresh_record reader 0)
    ≡ run_stage job 5 reader [] (fresh_record reader 0)
run_stage-executes_no_rule_example =
    run_stage-executes_no_rule job (λ w rule ps. (0, err "never")) 5 reader []
      (fresh_record reader 0) refl

-- A parameter named context stands in for what was read.
prompt_slots-reserved_example :
    (param_at (prompt_slots params "z") "input"
      ≡ some (record { key = "input"; text = stringify_input params }))
    × IsInput params (stringify_input params)
    × (((p : Param) → In p params.items → p.key ≢ "context")
        → param_at (prompt_slots params "z") "context"
          ≡ some (record { key = "context"; text = "z" }))
    × ((p : Param)
        → In p params.items
        → p.key ≡ "context"
        → ((q : Param) → In q params.items → q.key ≡ p.key → q ≡ p)
        → param_at (prompt_slots params "z") "context" ≡ some p)
prompt_slots-reserved_example = prompt_slots-reserved params "z"

input_taken :
    param_at (prompt_slots params "z") "input" ≡ some (record { key = "input"; text = "x" })
unfolding prompt_slots
input_taken = refl
