-- ===== src/Agents/Service.antt =====
-- holonbridge/agents/service.py: the transitions of a call, and one sending of it.
--
-- An operation takes the world to a result and the world after it, also when it raises. A transition
-- runs under the dataset write lock, so it is one step; sending runs with the lock released.
use holon_bridge_python.Prelude.{
  ℕ, ◌+◌, suc, String, List, [], ◌∷◌, Bool, false, ◌&&◌, ◌||◌, Option, none, some, Result, ok, err,
  if◌then◌else◌, given, ltb,
}
use holon_bridge_python.Audit.Policy.{allowed, denied}
use holon_bridge_python.Agents.Model.{
  Call, CallStatus, pending, approved, sending, failed, rejected, status_eq, is_one_of, human,
  Failure, Endpoint, stale_sending_grace_seconds,
}
use holon_bridge_python.Agents.Ledger.{World, Env, Event, Action, get, replace, record_entry, emit}

pub data CallError : Type 0 where
  not_found : CallError
  wrong_state : CallStatus → CallError

abbrev pub Op : Type 0 → Type 0
Op A = World → Result CallError A × World

-- A `Sending` call that outlived its endpoint's timeout by the grace period, where a retry is asked.
abbrev pub outlived : Env → ℕ → Option (ℕ × Bool) → Bool
outlived env timeout none = false
outlived env timeout (some (started, aware)) =
    aware && ltb (started + timeout + stale_sending_grace_seconds) env.instant

abbrev pub timeout_of : Option Endpoint → ℕ
timeout_of none = 0
timeout_of (some e) = e.timeout_seconds

unfoldable pub stale_sending : Env → Call → Option Endpoint → List CallStatus → Bool
stale_sending env call endpoint permitted =
    status_eq call.status sending
    && (is_one_of failed permitted
        && (given call.started_at
            && outlived env (timeout_of endpoint) (env.fromisoformat call.started_at)))

abbrev pub move :
    Env
    → Option Endpoint
    → List CallStatus
    → (Call → Call)
    → World
    → Option Call
    → Result CallError Call × World
move env endpoint permitted changes w none = (err not_found, w)
move env endpoint permitted changes w (some call) =
    if is_one_of call.status permitted || stale_sending env call endpoint permitted
    then (ok (changes call), replace call.id changes w)
    else (err (wrong_state call.status), w)

-- `_transition`
unfoldable pub transition :
    Env → (call_id : String) → Option Endpoint → List CallStatus → (Call → Call) → Op Call
transition env call_id endpoint permitted changes w =
    move env endpoint permitted changes w (get call_id w)

abbrev pub approve_changes : Env → (approver : String) → Call → Call
approve_changes env approver c = record c {
  status = approved;
  approved_by = approver;
  approved_at = env.now;
  approval_mode = human;
}

abbrev pub reject_changes : Env → (rejecter reason : String) → Call → Call
reject_changes env rejecter reason c = record c {
  status = rejected;
  rejected_reason = reason;
  rejected_by = rejecter;
  completed_at = env.now;
}

abbrev pub retry_changes : Env → (approver : String) → Call → Call
retry_changes env approver c = record c {
  status = approved;
  approved_by = approver;
  approved_at = env.now;
  approval_mode = human;
  error = none;
  completed_at = "";
}

abbrev pub claim_changes : Env → Call → Call
claim_changes env c = record c { status = sending; started_at = env.now; attempts = suc c.attempts }

abbrev pub fail_changes : Env → Failure → Call → Call
fail_changes env why c = record c { status = failed; error = some why; completed_at = env.now }

-- The result of a transition, with what the caller does when it went through.
abbrev pub after :
    (Call → World → World) → Result CallError Call × World → Result CallError Call × World
after then' (ok call, w) = (ok call, then' call w)
after then' (err e, w) = (err e, w)

-- `approve_call` up to the sending; the approval is recorded, and its answer is ignored.
unfoldable pub approve_call : Env → (call_id approver : String) → Op Call
approve_call env call_id approver w =
    after
      (λ call v.
        (record_entry env Action.approved allowed call approver
          (emit (Event.approval call.id) v)).1)
      (transition env call_id none (pending ∷ []) (approve_changes env approver) w)

unfoldable pub reject_call : Env → (call_id rejecter reason : String) → Op Call
reject_call env call_id rejecter reason w =
    after (λ call v. (record_entry env Action.rejected allowed call rejecter v).1)
      (transition env call_id none (pending ∷ approved ∷ []) (reject_changes env rejecter reason) w)

-- `retry_call` up to the sending.
unfoldable pub retry_call : Env → Endpoint → (call_id approver : String) → Op Call
retry_call env endpoint call_id approver w =
    after (λ call v. emit (Event.approval call.id) v)
      (transition env call_id (some endpoint) (failed ∷ []) (retry_changes env approver) w)

-- The claim of `send_call`.
unfoldable pub claim_call : Env → (call_id : String) → Op Call
claim_call env call_id w = transition env call_id none (approved ∷ []) (claim_changes env) w

-- `_claim_and_fail`: a refused claim is passed over in silence.
unfoldable pub claim_and_fail : Env → Failure → (call_id : String) → Op Call
claim_and_fail env why call_id w =
    after (λ call v. (record_entry env Action.dispatch_refused denied call call.requested_by v).1)
      (transition env call_id none (approved ∷ []) (fail_changes env why) w)
