-- ===== src/Pipeline/Message/Settled.antt =====
-- How a run's message ends (`_execute`, holonbridge/routes/pipeline.py).
use holon_bridge_python.Prelude.{Bool, ◌≡◌, ◌↔◌, ◌⊎◌, if◌then◌else◌, ok}
use holon_bridge_python.Pipeline.Model.{Manifest}
use holon_bridge_python.Pipeline.Kinds.{Job}
use holon_bridge_python.Pipeline.Run.{RunState, run_pipeline}
use holon_bridge_python.Pipeline.Run.Ended.{NoneFailed}
use holon_bridge_python.Pipeline.Message.{Message, MessageStatus}

abbrev pick : Bool → MessageStatus
pick fail = if fail then MessageStatus.failed else MessageStatus.completed

-- The message as it is stored, if both saves succeed; the run happened or not, as they do.
abbrev pub SettlesAs : {W : Type 0} → Job W → W → Manifest → Message → Type 0
SettlesAs {W} job w m message =
    ((message.status ≡ MessageStatus.completed) ⊎ (message.status ≡ MessageStatus.failed))
    × ((message.status ≡ MessageStatus.completed)
        ↔ ((s : RunState W) × (run_pipeline job w m ≡ ok s) × NoneFailed s.stages))
