-- ===== src/Agents/Dispatch.antt =====
-- holonbridge/agents/service.py: `send_call` as a whole, and `dispatch_approved`.
--
-- One dispatch runs with no other mover between its steps here; Agents/System has the interleavings.
-- A failed backend query during authorisation is an answer of the outside world.
pub mod Counting
use holon_bridge_python.Prelude.Sorting.{sort_by}
use holon_bridge_python.Prelude.Text.{text_lt}
use holon_bridge_python.Prelude.{
  ℕ, suc, ◌+◌, String, List, [], ◌∷◌, Bool, true, false, not, Option, none, some, ◌==◌, Result, ok,
  err, if◌then◌else◌, given, length, take,
}
use holon_bridge_python.TriggerAuthz.{Access, Allowed}
use holon_bridge_python.Agents.Model.{
  Call, CallStatus, approved, status_eq, Endpoint, active, by_id, Failure, audit_unavailable,
  endpoint_unusable, no_longer_allowed,
}
use holon_bridge_python.Agents.Ledger.{World, Env, list_calls}
use holon_bridge_python.Agents.Service.{
  CallError, not_found, wrong_state, Op, claim_call, claim_and_fail,
}
use holon_bridge_python.Agents.Sending.{Outside, finish_send}
use holon_bridge_python.Agents.Request.{authorize_request}

abbrev pub sent_after_claim :
    Outside → Endpoint → Result CallError Call × World → Result CallError Call × World
sent_after_claim out endpoint (ok call, w) =
    let (done, v) = finish_send out endpoint call w in (ok done, v)
sent_after_claim out endpoint (err e, w) = (err e, w)

unfoldable pub send_call : Outside → Endpoint → (call_id : String) → Op Call
send_call out endpoint call_id w = sent_after_claim out endpoint (claim_call out.env call_id w)

pub record Tally : Type 0 where
  pub sent : ℕ
  pub responded : ℕ
  pub failed : ℕ

abbrev pub is_audit_failure : Option Failure → Bool
is_audit_failure (some audit_unavailable) = true
is_audit_failure _ = false

-- How a finished send is counted.
unfoldable pub tally_done : Call → Tally → Tally
tally_done done t =
    if is_audit_failure done.error
    then record t { failed = suc t.failed }
    else if status_eq done.status CallStatus.responded
    then record t { sent = suc t.sent; responded = suc t.responded }
    else record t { sent = suc t.sent; failed = suc t.failed }

abbrev pub tally_sent : Tally → Result CallError Call × World → Result CallError Tally × World
tally_sent t (ok done, w) = (ok (tally_done done t), w)
tally_sent t (err (wrong_state s), w) = (ok t, w)
tally_sent t (err not_found, w) = (err not_found, w)

-- `_claim_and_fail`: a call in another state was taken by someone else.
abbrev pub tally_refused : Tally → Result CallError Call × World → Result CallError Tally × World
tally_refused t (ok _, w) = (ok (record t { failed = suc t.failed }), w)
tally_refused t (err (wrong_state s), w) = (ok (record t { failed = suc t.failed }), w)
tally_refused t (err not_found, w) = (err not_found, w)

pub record Dispatcher : Type 0 where
  pub out : Outside
  pub access : Access
  pub endpoints : List Endpoint
  -- whether the backend answers while this call's requester is checked
  pub answers : Call → Bool

abbrev pub target_of : Call → Option String
target_of call = if given call.target_graph then some call.target_graph else none

abbrev pub dispatch_to :
    Dispatcher → Call → Tally → World → Endpoint → Allowed → Result CallError Tally × World
dispatch_to d call t w endpoint (ok _) = tally_sent t (send_call d.out endpoint call.id w)
dispatch_to d call t w endpoint (err _) =
    tally_refused t (claim_and_fail d.out.env no_longer_allowed call.id w)

abbrev pub dispatch_at :
    Dispatcher → Call → Tally → World → Option Endpoint → Result CallError Tally × World
dispatch_at d call t w none = tally_refused t (claim_and_fail d.out.env endpoint_unusable call.id w)
dispatch_at d call t w (some endpoint) =
    if not (active endpoint)
    then tally_refused t (claim_and_fail d.out.env endpoint_unusable call.id w)
    else if not (d.answers call)
    then (ok t, w)
    else dispatch_to d call t w endpoint
        (authorize_request d.access (some call.requested_by) none (target_of call))

-- The body of the loop.
unfoldable pub dispatch_one : Dispatcher → Call → Tally → World → Result CallError Tally × World
dispatch_one d call t w = dispatch_at d call t w (by_id d.endpoints call.endpoint_id)

-- The loop, which an exception ends.
unfoldable pub dispatch_all :
    Dispatcher → List Call → Result CallError Tally × World → Result CallError Tally × World
dispatch_all d [] r = r
dispatch_all d (call ∷ rest) (ok t, w) = dispatch_all d rest (dispatch_one d call t w)
dispatch_all d (call ∷ rest) (err e, w) = (err e, w)

abbrev pub older : Call → Call → Bool
older a b = text_lt a.requested_at b.requested_at

unfoldable pub queue : (limit : ℕ) → World → List Call
queue limit w = take limit (sort_by older (list_calls (some approved) none 10000 w))

-- The tally beside the length of the queue.
unfoldable pub dispatch_approved :
    Dispatcher → (limit : ℕ) → World → ℕ × (Result CallError Tally × World)
dispatch_approved d limit w =
    let queued = queue limit w in
    (length queued, dispatch_all d queued (ok (record { sent = 0; responded = 0; failed = 0 }), w))
