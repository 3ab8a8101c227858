-- ===== src/Agents/Request/Queue.antt =====
-- What a placed call starts as, and the cap on open calls.
use holon_bridge_python.Prelude.{
  suc, ◌+◌, ◌≤◌, String, Bool, true, false, ◌&&◌, ◌||◌, ◌≡◌, ◌≢◌, ◌⊎◌, refl, ap, ◌∙◌, arith, ◌==◌,
  eq_iff, count, Result, ok, err, eqb, ltb, inl, inr, Bool-cases,
}
use holon_bridge_python.Audit.Policy.{Outcome}
use holon_bridge_python.Agents.Model.{Call, pending, approved, policy, is_open, Endpoint, active}
use holon_bridge_python.Agents.Ledger.{World, Action, put, open_count, record_entry}
use holon_bridge_python.Agents.Ledger.Entries.{record_entry_keeps}
use holon_bridge_python.Agents.Request.{
  RequestError, Desk, Order, is_queued, new_call, usable, check_request, announce, if_checked,
  request_call,
}

check_request_room :
    (desk : Desk) (order : Order) (endpoint : Endpoint) (w : World)
    → check_request desk order endpoint w ≡ ok tt
    → (active endpoint ≡ true)
      × (usable desk endpoint ≡ true)
      × ((eqb desk.max_open_calls 0 || ltb (open_count endpoint.id w) desk.max_open_calls) ≡ true)
unfolding check_request
check_request_room desk order endpoint w h = ground arith

open_count_calls :
    (id : String) (w v : World) → w.calls ≡ v.calls → open_count id w ≡ open_count id v
unfolding open_count
open_count_calls id w v e = ap (count (λ c. c.endpoint_id == id && is_open c)) e

announce_calls :
    (queued : Bool) (call : Call) (w : World) → (announce queued call w).calls ≡ w.calls
announce_calls true call w = refl
announce_calls false call w = refl

new_call_open :
    (desk : Desk) (order : Order) (endpoint : Endpoint) (w : World)
    → open_count endpoint.id (put (new_call desk order endpoint) w) ≡ suc (open_count endpoint.id w)
unfolding open_count put new_call
new_call_open desk order endpoint w = ground (arith, eq_iff endpoint.id endpoint.id)

placed_count :
    (desk : Desk) (order : Order) (endpoint : Endpoint) (w : World)
    → open_count endpoint.id
        (record_entry desk.env Action.placed Outcome.allowed
          (new_call desk order endpoint)
          order.requested_by
          (announce
            (is_queued order endpoint)
            (new_call desk order endpoint)
            (put (new_call desk order endpoint) w))).1
      ≡ suc (open_count endpoint.id w)
placed_count desk order endpoint w =
    let call = new_call desk order endpoint in
    let v = announce (is_queued order endpoint) call (put call w) in
    let e = record_entry_keeps desk.env Action.placed Outcome.allowed call order.requested_by v in
    open_count_calls endpoint.id _ _
      (e.0 ∙ announce_calls (is_queued order endpoint) call (put call w))
    ∙ new_call_open desk order endpoint w

-- A request that succeeds went to an active endpoint that may be sent to, and the endpoint then has one
-- more open call. Where there is a cap (`max_open_calls` is not 0), the open calls exceed it by no more
-- than the calls that others opened since this request counted them; so they are within it if none did.
pub request_call_capped :
    (desk : Desk) (order : Order) (endpoint : Endpoint) (seen w : World) (call : Call)
    → (request_call desk order endpoint seen w).0 ≡ ok call
    → (active endpoint ≡ true)
      × (usable desk endpoint ≡ true)
      × (open_count endpoint.id (request_call desk order endpoint seen w).1
          ≡ suc (open_count endpoint.id w))
      × ((desk.max_open_calls ≡ 0)
          ⊎ (open_count endpoint.id (request_call desk order endpoint seen w).1
                + open_count endpoint.id seen
              ≤ desk.max_open_calls + open_count endpoint.id w))
unfolding request_call
request_call_capped desk order endpoint seen w call h =
    go (check_request desk order endpoint seen) refl h
  where
    go :
        (r : Result RequestError (Unit {0}))
        → check_request desk order endpoint seen ≡ r
        → (if_checked desk order endpoint w r).0 ≡ ok call
        → (active endpoint ≡ true)
          × (usable desk endpoint ≡ true)
          × (open_count endpoint.id (if_checked desk order endpoint w r).1
              ≡ suc (open_count endpoint.id w))
          × ((desk.max_open_calls ≡ 0)
              ⊎ (open_count endpoint.id (if_checked desk order endpoint w r).1
                    + open_count endpoint.id seen
                  ≤ desk.max_open_calls + open_count endpoint.id w))
    go (err e) checked k = cc
    go (ok _) checked k =
        let (live, fit, room) = check_request_room desk order endpoint seen checked in
        let grown = placed_count desk order endpoint w in
        elim (Bool-cases (eqb desk.max_open_calls 0)) [
          | inl uncapped ↦ (live, fit, grown, inl (ground arith))
          | inr capped ↦ (live, fit, grown, inr (ground arith))
        ]

-- A request that succeeds starts the call as Approved, by policy, exactly when policy approval was asked
-- for and the endpoint does not require review; otherwise it waits for a person.
pub request_call_status :
    (desk : Desk) (order : Order) (endpoint : Endpoint) (seen w : World) (call : Call)
    → (request_call desk order endpoint seen w).0 ≡ ok call
    → (call.id ≡ desk.call_id)
      × (call.body ≡ desk.body)
      × (call.digest ≡ desk.sha256 desk.body)
      × ((order.approval ≡ policy)
            × (endpoint.call_review ≡ false)
            × (call.status ≡ approved)
            × (call.approved_by ≡ order.requested_by)
          ⊎ ((order.approval ≢ policy) ⊎ (endpoint.call_review ≡ true))
            × (call.status ≡ pending)
            × (call.approved_by ≡ ""))
unfolding request_call new_call is_queued
request_call_status desk order endpoint seen w call h = ground arith
