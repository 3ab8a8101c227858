-- ===== src/Pipeline/Message.antt =====
-- The message that records a pipeline run (`_execute`, holonbridge/routes/pipeline.py;
-- holonbridge/messages.py).
pub mod Settled
use holon_bridge_python.Prelude.{
  String, Bool, true, false, Option, none, some, List, if◌then◌else◌, any, Result, err, ok,
}
use holon_bridge_python.Pipeline.Model.{Manifest}
use holon_bridge_python.Pipeline.Order.{PipelineError}
use holon_bridge_python.Pipeline.Stages.{StageError, StageRecord, is_failed}
use holon_bridge_python.Pipeline.Kinds.{Job}
use holon_bridge_python.Pipeline.Run.{RunState, run_pipeline}

pub data MessageError : Type 0 where
  no_error : MessageError
  stage_failed : String → StageError → MessageError
  run_failed : PipelineError → MessageError

pub data MessageStatus : Type 0 where
  received running completed failed : MessageStatus

pub record Message : Type 0 where
  pub status : MessageStatus
  pub started_at : String
  pub completed_at : String
  pub error : MessageError
  pub stages : List StageRecord

-- `mark_running`, at a time
unfoldable pub mark_running : String → Message → Message
mark_running now message = record message { status = running; started_at = now }

-- `mark_completed`, at a time; an empty error leaves the message's
unfoldable pub mark_completed : String → Bool → MessageError → Message → Message
mark_completed now fail no_error message = record message {
  status = if fail then failed else completed;
  completed_at = now;
}
mark_completed now fail error message = record message {
  status = if fail then failed else completed;
  completed_at = now;
  error = error;
}

-- What `store.save` comes to.
pub data Save : Type 0 where
  saved fuseki_error other_error : Save

-- The message in the store in the end, and whether an exception left `_execute`.
pub record Execution : Type 0 where
  pub stored : Message
  pub escaped : Bool

error_of : Option (String × StageError) → MessageError
error_of none = no_error
error_of (some (id, e)) = stage_failed id e

module _ {W : Type 0} (job : Job W) (started ended : String) where
  finished : Message → Result PipelineError (RunState W) → Message
  unfolding mark_completed error_of
  finished message (err e) = mark_completed ended true (run_failed e) message
  finished message (ok s) =
      mark_completed ended (any (λ (r : StageRecord). is_failed r.status) s.stages)
        (error_of s.error) record message { stages = s.stages }

  -- `_execute`, on the message that the store holds. A first save that raises ends it, before the `try`
  -- and before anything ran. A last save that raises leaves the message as the first one saved it: a
  -- FusekiError is logged, and anything else escapes.
  unfoldable pub execute : (first last : Save) → W → Manifest → (stored : Message) → Execution
  unfolding finished mark_running run_pipeline
  execute first last w m stored =
      let started = mark_running started stored in
      let ended = finished started (run_pipeline job w m) in
      elim first [
        | saved ↦ elim last [
          | saved ↦ record { stored = ended; escaped = false }
          | fuseki_error ↦ record { stored = started; escaped = false }
          | other_error ↦ record { stored = started; escaped = true }
        ]
        | fuseki_error ↦ record { stored = stored; escaped = true }
        | other_error ↦ record { stored = stored; escaped = true }
      ]
