-- ===== src/Agents/System/Logged.antt =====
-- Each sending has its entry in the audit log (`send_call`, holonbridge/agents/service.py).
use holon_bridge_python.Prelude.{
  ℕ, ◌≤◌, String, List, [], ◌∷◌, Bool, true, false, ◌&&◌, none, some, ◌≡◌, inl, inr, refl, arith,
  ◌==◌, Bool-cases, Option-cases, &&-true, Result, ok, err, count, count-append, all,
}
use holon_bridge_python.Audit.Policy.{Outcome, should_record}
use holon_bridge_python.Agents.Model.{Call, pending, approved, failed, Endpoint, audit_unavailable}
use holon_bridge_python.Agents.Ledger.{
  World, Env, Event, sent, Entry, Action, put, replace, record_entry, emit,
}
use holon_bridge_python.Agents.Ledger.Entries.{
  record_entry_keeps, record_entry_grows, record_entry_written,
}
use holon_bridge_python.Agents.Service.{
  approve_changes, approve_call, reject_changes, reject_call, retry_changes, retry_call,
  claim_changes, claim_call, fail_changes, claim_and_fail,
}
use holon_bridge_python.Agents.Sending.{
  Outside, fail, settle_sent, or_else, result_outcome, deliver, finish_send,
}
use holon_bridge_python.Agents.Request.{
  RequestError, Desk, Order, check_request, is_queued, new_call, announce, if_checked, request_call,
}
use holon_bridge_python.Agents.System.{
  System, Step, place, approve, reject, retry, claim, finish, refuse, nth, run_step, run, empty,
}
use holon_bridge_python.Agents.System.Settling.{fail-Ended, settle_sent-Ended}
use holon_bridge_python.Agents.System.Moves.{transition-cases, sends, is_sent}

abbrev is_send : Action → Bool
is_send Action.send = true
is_send _ = false

abbrev pub is_send_entry : String → Entry → Bool
is_send_entry id e = is_send e.event && e.call == id

-- How many `send` entries the log has for a call.
abbrev pub send_entries : String → World → ℕ
send_entries id w = count (is_send_entry id) w.entries

abbrev send_entry : Call → String → Entry
send_entry call actor = record {
  event = Action.send;
  outcome = Outcome.allowed;
  call = call.id;
  digest = call.digest;
  actor = actor;
}

-- The sender goes on at a level that asks for the `send` entry.
abbrev pub asks : Step → Bool
asks (finish n out endpoint) = should_record out.env.level Outcome.allowed true false
asks _ = true

module _ (id : String) where
  -- Nothing more was sent, and no entry is gone.
  record Grew (w v : World) : Type 0 where
    sent_same : sends id v.trace ≤ sends id w.trace
    entries_kept : send_entries id w ≤ send_entries id v

  Grew-same : (w v : World) → v.trace ≡ w.trace → v.entries ≡ w.entries → Grew w v
  Grew-same w v t e = record { sent_same = rw t (omega arith); entries_kept = rw e (omega arith) }

  Grew-trans : {u v w : World} → Grew u v → Grew v w → Grew u w
  Grew-trans f g = record {
    sent_same = omega (arith, f.sent_same, g.sent_same);
    entries_kept = omega (arith, f.entries_kept, g.entries_kept);
  }

  record-Grew :
      (env : Env) (event : Action) (outcome : Outcome) (call : Call) (actor : String) (w : World)
      → Grew w (record_entry env event outcome call actor w).1
  record-Grew env event outcome call actor w = record {
    sent_same = rw (record_entry_keeps env event outcome call actor w).1 (omega arith);
    entries_kept = record_entry_grows (is_send_entry id) env event outcome call actor w;
  }

  emit-Grew : (e : Event) (w : World) → is_sent id e ≡ false → Grew w (emit e w)
  emit-Grew e w h = record {
    sent_same = rw (count-append (is_sent id) w.trace (e ∷ [])) (ground arith);
    entries_kept = omega arith;
  }

  put-Grew : (call : Call) (w : World) → Grew w (put call w)
  unfolding put
  put-Grew call w = Grew-same w (put call w) refl refl

  request-Grew :
      (desk : Desk) (order : Order) (endpoint : Endpoint) (seen w : World)
      → Grew w (request_call desk order endpoint seen w).1
  unfolding request_call
  request-Grew desk order endpoint seen w = go (check_request desk order endpoint seen)
    where
      call : Call
      call = new_call desk order endpoint

      placed_as : (c : Call) → Grew w (emit (Event.placed c.id c.body) (put c w))
      placed_as c = Grew-trans (put-Grew c w) (emit-Grew (Event.placed c.id c.body) (put c w) refl)

      announced : (queued : Bool) → Grew w (announce queued call (put call w))
      announced true =
          let v = emit (Event.placed call.id call.body) (put call w) in
          Grew-trans (placed_as call) (emit-Grew (Event.approval call.id) v refl)
      announced false = placed_as call

      go : (r : Result RequestError (Unit {0})) → Grew w (if_checked desk order endpoint w r).1
      go (err e) = Grew-same w w refl refl
      go (ok _) =
          let v = announce (is_queued order endpoint) call (put call w) in
          Grew-trans (announced (is_queued order endpoint))
            (record-Grew desk.env Action.placed Outcome.allowed call order.requested_by v)

  -- Each send has its entry.
  record IsLogged (w : World) : Type 0 where
    each : sends id w.trace ≤ send_entries id w

  IsLogged-Grew : {w v : World} → Grew w v → IsLogged w → IsLogged v
  IsLogged-Grew g h = record { each = omega (arith, g.sent_same, g.entries_kept, h.each) }

  deliver-IsLogged :
      (out : Outside) (endpoint : Endpoint) (call : Call) (w : World)
      → IsLogged (emit (sent call.id call.body) w)
      → IsLogged (deliver out endpoint call w).1
  unfolding deliver
  deliver-IsLogged out endpoint call w h =
      let left = emit (sent call.id call.body) w in
      let s = out.sender endpoint call call.body in
      let r = settle_sent out call left s in
      let settled = settle_sent-Ended out call left s in
      IsLogged-Grew
        (Grew-trans (Grew-same left r.1 settled.trace_same settled.entries_same) (
          record-Grew out.env Action.result (result_outcome r.0) r.0
            (or_else call.approved_by call.requested_by) r.1))
        h

  -- The entry comes before the send that it is for.
  sent-IsLogged :
      (env : Env) (call : Call) (actor : String) (w : World)
      → should_record env.level Outcome.allowed true false ≡ true
      → (record_entry env Action.send Outcome.allowed call actor w).0 ≡ true
      → IsLogged w
      → IsLogged (
          emit
            (sent call.id call.body)
            (record_entry env Action.send Outcome.allowed call actor w).1)
  sent-IsLogged env call actor w owed went h =
      let same = (record_entry_keeps env Action.send Outcome.allowed call actor w).1 in
      let written = record_entry_written env Action.send Outcome.allowed call actor w owed went in
      record {
        each =
            rw
              (
                same,
                written,
                count-append (is_sent id) w.trace (sent call.id call.body ∷ []),
                count-append (is_send_entry id) w.entries (send_entry call actor ∷ []),
              )
              (ground (arith, h.each));
      }

  finish-IsLogged :
      (out : Outside) (endpoint : Endpoint) (call : Call) (w : World)
      → should_record out.env.level Outcome.allowed true false ≡ true
      → IsLogged w
      → IsLogged (finish_send out endpoint call w).1
  unfolding finish_send
  finish-IsLogged out endpoint call w owed h =
      let actor = or_else call.approved_by call.requested_by in
      let r = record_entry out.env Action.send Outcome.allowed call actor w in
      elim (Bool-cases r.0) [
        | inl went ↦ rw went (
            deliver-IsLogged out endpoint call r.1 (sent-IsLogged out.env call actor w owed went h))
        | inr unwritten ↦
            let ended = fail-Ended out.env audit_unavailable none call r.1 in
            let failed_unsent =
              Grew-same r.1 (fail out.env audit_unavailable none call r.1).1 ended.trace_same
                ended.entries_same in
            rw unwritten (
              IsLogged-Grew
                (Grew-trans (record-Grew out.env Action.send Outcome.allowed call actor w)
                  failed_unsent)
                h)
      ]

  replace-Grew :
      (call : String) (changes : Call → Call) (w : World) → Grew w (replace call changes w)
  unfolding replace
  replace-Grew call changes w = Grew-same w (replace call changes w) refl refl

  step-IsLogged :
      (step : Step) (s : System)
      → asks step ≡ true
      → IsLogged s.world
      → IsLogged (run_step step s).world
  unfolding run_step approve_call reject_call retry_call claim_call claim_and_fail
  step-IsLogged (place desk order endpoint seen) s owed h =
      IsLogged-Grew (request-Grew desk order endpoint seen s.world) h
  step-IsLogged (approve env call who) s owed h =
      let changes = approve_changes env who in
      let v = replace call changes s.world in
      elim (transition-cases env call none (pending ∷ []) changes s.world) [
        | inl m ↦
            let asked = Event.approval m.stored.id in
            rw m.result (
              IsLogged-Grew
                (Grew-trans (replace-Grew call changes s.world) (
                  Grew-trans (emit-Grew asked v refl) (
                    record-Grew env Action.approved Outcome.allowed (changes m.stored) who
                      (emit asked v))))
                h)
        | inr r ↦ rw r.result h
      ]
  step-IsLogged (reject env call who reason) s owed h =
      let changes = reject_changes env who reason in
      elim (transition-cases env call none (pending ∷ approved ∷ []) changes s.world) [
        | inl m ↦ rw m.result (
            IsLogged-Grew
              (Grew-trans (replace-Grew call changes s.world) (
                record-Grew env Action.rejected Outcome.allowed (changes m.stored) who
                  (replace call changes s.world)))
              h)
        | inr r ↦ rw r.result h
      ]
  step-IsLogged (retry env endpoint call who) s owed h =
      let changes = retry_changes env who in
      elim (transition-cases env call (some endpoint) (failed ∷ []) changes s.world) [
        | inl m ↦ rw m.result (
            IsLogged-Grew
              (Grew-trans (replace-Grew call changes s.world)
                (emit-Grew (Event.approval m.stored.id) (replace call changes s.world) refl))
              h)
        | inr r ↦ rw r.result h
      ]
  step-IsLogged (claim env call) s owed h =
      let changes = claim_changes env in
      elim (transition-cases env call none (approved ∷ []) changes s.world) [
        | inl m ↦ rw m.result (IsLogged-Grew (replace-Grew call changes s.world) h)
        | inr r ↦ rw r.result h
      ]
  step-IsLogged (finish n out endpoint) s owed h = elim (Option-cases (nth n s.in_flight)) [
    | inl e ↦ rw e h
    | inr (call, e) ↦ rw e (finish-IsLogged out endpoint call s.world owed h)
  ]
  step-IsLogged (refuse env why call) s owed h =
      let changes = fail_changes env why in
      elim (transition-cases env call none (approved ∷ []) changes s.world) [
        | inl m ↦
            let c = changes m.stored in
            rw m.result (
              IsLogged-Grew
                (Grew-trans (replace-Grew call changes s.world) (
                  record-Grew env Action.dispatch_refused Outcome.denied c c.requested_by
                    (replace call changes s.world)))
                h)
        | inr r ↦ rw r.result h
      ]

  run-IsLogged :
      (steps : List Step) (s : System)
      → all asks steps ≡ true
      → IsLogged s.world
      → IsLogged (run steps s).world
  unfolding run
  run-IsLogged [] s owed h = h
  run-IsLogged (step ∷ rest) s owed h =
      let (first, others) = &&-true (asks step) (all asks rest) owed in
      run-IsLogged rest (run_step step s) others (step-IsLogged step s first h)

-- Under any interleaving in which each sender goes on at a level that asks for `send` entries, the log has
-- at least as many of them for a call as times it was handed to the sender: one that cannot be written
-- keeps its call from being sent.
pub sends-le-entries :
    (id : String) (steps : List Step)
    → all asks steps ≡ true
    → sends id (run steps empty).world.trace ≤ send_entries id (run steps empty).world
sends-le-entries id steps owed =
    (run-IsLogged id steps empty owed (record { each = omega arith })).each
