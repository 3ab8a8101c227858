-- ===== src/Agents/Dispatch/Counting/Results.antt =====
-- The tally of a dispatch against the audit log (`dispatch_approved`, holonbridge/agents/service.py).
use holon_bridge_python.Prelude.{
  ℕ, suc, ◌+◌, ◌≤◌, String, List, [], ◌∷◌, ◌++◌, Bool, true, false, ◌&&◌, not, Option, none, some,
  ◌≡◌, inl, inr, refl, ap, ◌∙◌, arith, Bool-cases, Result, ok, err, count, count-append, length,
  length-take-le,
}
use mathlib.Core.Path.{subst}
use holon_bridge_python.Audit.Policy.{AuditLevel, Outcome, should_record}
use holon_bridge_python.TriggerAuthz.{Allowed}
use holon_bridge_python.Agents.Model.{
  Call, CallStatus, approved, status_eq, Endpoint, active, by_id, Failure, no_longer_allowed,
  endpoint_unusable,
}
use holon_bridge_python.Agents.Ledger.{World, Env, Entry, Action, sent, replace, record_entry, emit}
use holon_bridge_python.Agents.Service.{
  CallError, not_found, wrong_state, claim_changes, claim_call, fail_changes, claim_and_fail,
}
use holon_bridge_python.Agents.Sending.{
  Outside, settle_sent, or_else, result_outcome, deliver, finish_send,
}
use holon_bridge_python.Agents.System.Settling.{settle_sent-Ended}
use holon_bridge_python.Agents.System.Moves.{transition-cases}
use holon_bridge_python.Agents.Request.{authorize_request}
use holon_bridge_python.Agents.Dispatch.{
  Tally, send_call, is_audit_failure, tally_done, tally_sent, tally_refused, Dispatcher, target_of,
  dispatch_to, dispatch_at, dispatch_one, dispatch_all, queue, dispatch_approved,
}
use holon_bridge_python.Agents.Dispatch.Counting.{settle_sent_error}

abbrev is_result : Action → Bool
is_result Action.result = true
is_result _ = false

abbrev is_refused : Action → Bool
is_refused Action.dispatch_refused = true
is_refused _ = false

abbrev went_well : Outcome → Bool
went_well Outcome.allowed = true
went_well _ = false

abbrev is_responded : Entry → Bool
is_responded e = is_result e.event && went_well e.outcome

abbrev is_failed_result : Entry → Bool
is_failed_result e = is_result e.event && not (went_well e.outcome)

-- How many `result` entries the log has, of sends that were responded to and of those that were not.
abbrev pub responses : World → ℕ
responses w = count is_responded w.entries

abbrev pub failures : World → ℕ
failures w = count is_failed_result w.entries

abbrev is_refusal : Entry → Bool
is_refusal e = is_refused e.event

-- How many refusals by a dispatch the log has.
abbrev pub refusals : World → ℕ
refusals w = count is_refusal w.entries

-- The log is asked for the entries of calls, and takes each.
abbrev pub IsLogging : Env → Type 0
IsLogging env =
    (should_record env.level Outcome.allowed true false ≡ true)
    × ((e : Entry) → env.writable e ≡ true)

asked_for_all :
    (level : AuditLevel) (outcome : Outcome)
    → should_record level Outcome.allowed true false ≡ true
    → should_record level outcome true false ≡ true
unfolding should_record
asked_for_all level outcome h = ground arith

abbrev entry_of : Action → Outcome → Call → String → Entry
entry_of event outcome call actor = record {
  event = event;
  outcome = outcome;
  call = call.id;
  digest = call.digest;
  actor = actor;
}

logged :
    (env : Env) (event : Action) (outcome : Outcome) (call : Call) (actor : String) (w : World)
    → IsLogging env
    → record_entry env event outcome call actor w
      ≡ (true, record w { entries = w.entries ++ entry_of event outcome call actor ∷ [] })
unfolding record_entry
logged env event outcome call actor w (owed, writable) =
    rw (asked_for_all env.level outcome owed, writable (entry_of event outcome call actor)) refl

-- What a finished send leaves in the log.
finish_entries :
    (out : Outside) (endpoint : Endpoint) (call : Call) (w : World)
    → IsLogging out.env
    → (is_audit_failure (finish_send out endpoint call w).0.error ≡ false)
      × ((finish_send out endpoint call w).1.entries
          ≡ (w.entries
              ++ entry_of Action.send Outcome.allowed call
                  (or_else call.approved_by call.requested_by)
                ∷ [])
            ++ entry_of Action.result
                (result_outcome (finish_send out endpoint call w).0)
                (finish_send out endpoint call w).0
                (or_else call.approved_by call.requested_by)
              ∷ [])
unfolding finish_send deliver
finish_entries out endpoint call w log =
    let actor = or_else call.approved_by call.requested_by in
    let send = entry_of Action.send Outcome.allowed call actor in
    let v = emit (sent call.id call.body) (record w { entries = w.entries ++ send ∷ [] }) in
    let s = out.sender endpoint call call.body in
    let r = settle_sent out call v s in
    rw (logged out.env Action.send Outcome.allowed call actor w log) (
      settle_sent_error out call v s,
      rw (logged out.env Action.result (result_outcome r.0) r.0 actor r.1 log) (
          ap (λ es. es ++ entry_of Action.result (result_outcome r.0) r.0 actor ∷ [])
            (settle_sent-Ended out call v s).entries_same),
    )

-- The tally against the log, since the dispatch began with the first of the two ledgers and of `n` calls.
abbrev Agrees : World → ℕ → World → Tally → Type 0
Agrees start n w t =
    (responses w ≡ responses start + t.responded)
    × (failures w + t.responded ≡ failures start + t.sent)
    × (t.sent + refusals w ≤ t.responded + t.failed + refusals start)
    × (t.responded + t.failed ≤ n)

abbrev AgreesResult : World → ℕ → Result CallError Tally × World → Type 0
AgreesResult start n (ok t, w) = Agrees start n w t
AgreesResult start n (err e, w) = Unit {0}

module _ (start : World) (n : ℕ) (t : Tally) where
  later-Agrees : (w : World) → Agrees start n w t → Agrees start (suc n) w t
  later-Agrees w (a, b, c, e) = (a, b, c, omega arith)

  not_sent :
      (w : World) (why : CallError)
      → Agrees start n w t
      → AgreesResult start (suc n) (tally_sent t (err why, w))
  not_sent w (wrong_state s) h = later-Agrees w h
  not_sent w not_found h = tt

  not_refused :
      (w : World) (why : CallError)
      → Agrees start n w t
      → AgreesResult start (suc n) (tally_refused t (err why, w))
  not_refused w (wrong_state s) h = omega arith
  not_refused w not_found h = tt

  refused-Agrees :
      (w v : World) (c : Call)
      → Agrees start n w t
      → v.entries ≡ w.entries
      → Agrees start
          (suc n)
          (record v {
            entries =
                v.entries ++ entry_of Action.dispatch_refused Outcome.denied c c.requested_by ∷ [];
          })
          (record t { failed = suc t.failed })
  refused-Agrees w v c (a, b, e, g) same =
      let entry = entry_of Action.dispatch_refused Outcome.denied c c.requested_by in
      rw
        (
          same,
          count-append is_responded w.entries (entry ∷ []),
          count-append is_failed_result w.entries (entry ∷ []),
          count-append is_refusal w.entries (entry ∷ []),
        )
        (omega arith)

  done-Agrees :
      (w v : World) (done : Call) (send result : Entry)
      → Agrees start n w t
      → is_audit_failure done.error ≡ false
      → send.event ≡ Action.send
      → result.event ≡ Action.result
      → result.outcome ≡ result_outcome done
      → v.entries ≡ (w.entries ++ send ∷ []) ++ result ∷ []
      → Agrees start (suc n) v (tally_done done t)
  unfolding tally_done
  done-Agrees w v done send result (a, b, c, e) clean sends results ended same =
      let counted = λ (test : Entry → Bool).
        count-append test (w.entries ++ send ∷ []) (result ∷ [])
        ∙ ap (λ k. k + count test (result ∷ [])) (count-append test w.entries (send ∷ [])) in
      let one = counted is_responded in
      let two = counted is_failed_result in
      let three = counted is_refusal in
      elim (Bool-cases (status_eq done.status CallStatus.responded)) [
        | inl replied_well ↦
            let well : result.outcome ≡ Outcome.allowed = rw ended (ground (arith, replied_well)) in
            rw (same, one, two, three, clean, replied_well, sends, results, well) (omega arith)
        | inr replied_badly ↦
            let badly : result.outcome ≡ Outcome.error = rw ended (ground (arith, replied_badly)) in
            rw (same, one, two, three, clean, replied_badly, sends, results, badly) (omega arith)
      ]

  send-Agrees :
      (out : Outside) (endpoint : Endpoint) (id : String) (w : World)
      → IsLogging out.env
      → Agrees start n w t
      → AgreesResult start (suc n) (tally_sent t (send_call out endpoint id w))
  unfolding send_call claim_call
  send-Agrees out endpoint id w log h =
      elim (transition-cases out.env id none (approved ∷ []) (claim_changes out.env) w) [
        | inl m ↦
            let c = claim_changes out.env m.stored in
            let v = replace id (claim_changes out.env) w in
            let (clean, entries) = finish_entries out endpoint c v log in
            rw m.result (
              done-Agrees v (finish_send out endpoint c v).1 (finish_send out endpoint c v).0 _ _
                (unfold replace in h) clean refl refl refl entries)
        | inr r ↦ rw r.result (not_sent w r.why h)
      ]

  refuse-Agrees :
      (env : Env) (why : Failure) (id : String) (w : World)
      → IsLogging env
      → Agrees start n w t
      → AgreesResult start (suc n) (tally_refused t (claim_and_fail env why id w))
  unfolding claim_and_fail
  refuse-Agrees env why id w log h =
      elim (transition-cases env id none (approved ∷ []) (fail_changes env why) w) [
        | inl m ↦
            let c = fail_changes env why m.stored in
            let v = replace id (fail_changes env why) w in
            rw (m.result, logged env Action.dispatch_refused Outcome.denied c c.requested_by v log)
              (refused-Agrees w v c h (unfold replace in refl))
        | inr r ↦ rw r.result (not_refused w r.why h)
      ]

  one-Agrees :
      (d : Dispatcher) (call : Call) (w : World)
      → IsLogging d.out.env
      → Agrees start n w t
      → AgreesResult start (suc n) (dispatch_one d call t w)
  unfolding dispatch_one
  one-Agrees d call w log h = go (by_id d.endpoints call.endpoint_id)
    where
      to :
          (endpoint : Endpoint) (a : Allowed)
          → AgreesResult start (suc n) (dispatch_to d call t w endpoint a)
      to endpoint (ok _) = send-Agrees d.out endpoint call.id w log h
      to endpoint (err _) = refuse-Agrees d.out.env no_longer_allowed call.id w log h

      go : (e : Option Endpoint) → AgreesResult start (suc n) (dispatch_at d call t w e)
      go none = refuse-Agrees d.out.env endpoint_unusable call.id w log h
      go (some endpoint) = elim (Bool-cases (active endpoint)) [
        | inr e ↦ rw e (refuse-Agrees d.out.env endpoint_unusable call.id w log h)
        | inl e ↦ rw e (elim (Bool-cases (d.answers call)) [
          | inr a ↦ rw a (later-Agrees w h)
          | inl a ↦ rw a (
              to endpoint
                (authorize_request d.access (some call.requested_by) none (target_of call)))
        ])
      ]

all-Agrees :
    (start : World) (n : ℕ) (d : Dispatcher) (calls : List Call)
    (r : Result CallError Tally × World)
    → IsLogging d.out.env
    → AgreesResult start n r
    → AgreesResult start (n + length calls) (dispatch_all d calls r)
unfolding dispatch_all
all-Agrees start n d [] (ok t, w) log h = omega arith
all-Agrees start n d [] (err e, w) log h = h
all-Agrees start n d (call ∷ rest) (ok t, w) log h =
    let same : suc n + length rest ≡ n + suc (length rest) = omega arith in
    subst (λ k. AgreesResult start k (dispatch_all d rest (dispatch_one d call t w))) same
      (all-Agrees start (suc n) d rest (dispatch_one d call t w) log
        (one-Agrees start n t d call w log h))
all-Agrees start n d (call ∷ rest) (err e, w) log h = h

-- Where the log is asked for the entries of calls and takes each, the tally of a dispatch that ends well is
-- true of the log: `responded` is the number of new `result` entries of calls that were responded to, and
-- `sent` counts those and the new ones of calls that were not. Each send that was not responded to and each
-- refusal that was recorded is counted as failed, and `responded` and `failed` count no call twice.
pub dispatch_approved_logged :
    (d : Dispatcher) (limit : ℕ) (w v : World) (t : Tally)
    → IsLogging d.out.env
    → (dispatch_approved d limit w).1 ≡ (ok t, v)
    → (responses v ≡ responses w + t.responded)
      × (failures v + t.responded ≡ failures w + t.sent)
      × (t.sent + refusals v ≤ t.responded + t.failed + refusals w)
      × (t.responded + t.failed ≤ (dispatch_approved d limit w).0)
      × ((dispatch_approved d limit w).0 ≤ limit)
unfolding dispatch_approved queue
dispatch_approved_logged d limit w v t log h =
    let fresh : Tally = record { sent = 0; responded = 0; failed = 0 } in
    let (a, b, c, e) =
      subst (AgreesResult w (0 + length (queue limit w))) h
        (all-Agrees w 0 d (queue limit w) (ok fresh, w) log (omega arith)) in
    (a, b, c, omega (arith, e), length-take-le limit _)
