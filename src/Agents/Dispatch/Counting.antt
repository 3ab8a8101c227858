-- ===== src/Agents/Dispatch/Counting.antt =====
-- What the tally of a dispatch counts.
pub mod Results
use holon_bridge_python.Prelude.{
  ℕ, suc, ◌+◌, ◌≤◌, String, List, [], ◌∷◌, Bool, true, false, Option, none, some, ◌≡◌, ◌⊎◌, inl,
  inr, refl, ap, ◌∙◌, arith, Bool-cases, Result, ok, err, count, count-append, length-take-le,
}
use mathlib.Core.Path.{subst}
use holon_bridge_python.Audit.Policy.{Outcome}
use holon_bridge_python.TriggerAuthz.{Allowed}
use holon_bridge_python.Agents.Model.{
  Call, CallStatus, approved, Endpoint, active, by_id, Failure, audit_unavailable,
  no_longer_allowed, endpoint_unusable,
}
use holon_bridge_python.Agents.Ledger.Entries.{record_entry_keeps}
use holon_bridge_python.Agents.Ledger.{World, Env, Event, Action, sent, replace, record_entry, emit}
use holon_bridge_python.Agents.Service.{
  CallError, not_found, wrong_state, transition, claim_changes, claim_call, fail_changes,
  claim_and_fail,
}
use holon_bridge_python.Agents.Sending.{
  Outside, Reply, Document, malformed, scalar, object, fail, respond, stage_proposal, settle_object,
  settle_document, settle, settle_sent, Sent, replied, refused, raised, or_else, result_outcome,
  deliver, finish_send,
}
use holon_bridge_python.Agents.System.Settling.{fail-Ended, settle_sent-Ended}
use holon_bridge_python.Agents.System.Moves.{transition-cases}
use holon_bridge_python.Agents.Request.{authorize_request}
use holon_bridge_python.Agents.Dispatch.{
  Tally, send_call, is_audit_failure, tally_done, tally_sent, tally_refused, Dispatcher, target_of,
  dispatch_to, dispatch_at, dispatch_one, dispatch_all, queue, dispatch_approved,
}

abbrev left_bridge : Event → Bool
left_bridge (sent _ _) = true
left_bridge _ = false

-- How many requests have left.
abbrev pub requests : World → ℕ
requests w = count left_bridge w.trace

-- One more request left, and the call does not carry the audit failure; or none did, and it does.
abbrev Counts : ℕ → Call → World → Type 0
Counts before done v =
    (is_audit_failure done.error ≡ false) × (requests v ≡ suc before)
    ⊎ (is_audit_failure done.error ≡ true) × (requests v ≡ before)

settle_error :
    (out : Outside) (reply : Reply) (call : Call) (w : World) (d : Document)
    → is_audit_failure (settle_document out reply call w d).0.error ≡ false
unfolding settle_object stage_proposal fail respond
settle_error out reply call w malformed = refl
settle_error out reply call w scalar = refl
settle_error out reply call w (object status summary turtle) = ground arith

settle_sent_error :
    (out : Outside) (call : Call) (w : World) (s : Sent)
    → is_audit_failure (settle_sent out call w s).0.error ≡ false
unfolding settle fail
settle_sent_error out call w (replied reply) =
    ground (arith, settle_error out reply call w (out.loads reply.content))
settle_sent_error out call w (refused message) = refl
settle_sent_error out call w (raised name) = refl

deliver_counts :
    (out : Outside) (endpoint : Endpoint) (call : Call) (w : World)
    → (is_audit_failure (deliver out endpoint call w).0.error ≡ false)
      × (requests (deliver out endpoint call w).1 ≡ suc (requests w))
unfolding deliver
deliver_counts out endpoint call w =
    let v = emit (sent call.id call.body) w in
    let s = out.sender endpoint call call.body in
    let r = settle_sent out call v s in
    (
      settle_sent_error out call v s,
      rw
          (
            (record_entry_keeps out.env Action.result (result_outcome r.0) r.0
                (or_else call.approved_by call.requested_by) r.1).1,
            (settle_sent-Ended out call v s).trace_same,
            count-append left_bridge w.trace (sent call.id call.body ∷ []),
          )
          (omega arith),
    )

finish_send-Counts :
    (out : Outside) (endpoint : Endpoint) (call : Call) (w : World)
    → Counts (requests w) (finish_send out endpoint call w).0 (finish_send out endpoint call w).1
unfolding finish_send
finish_send-Counts out endpoint call w =
    let actor = or_else call.approved_by call.requested_by in
    let recorded = record_entry out.env Action.send Outcome.allowed call actor w in
    let trace = (record_entry_keeps out.env Action.send Outcome.allowed call actor w).1 in
    let same : requests recorded.1 ≡ requests w = ap (count left_bridge) trace in
    elim (Bool-cases recorded.0) [
      | inl e ↦
          let (clean, one) = deliver_counts out endpoint call recorded.1 in
          rw e (inl (clean, one ∙ ap suc same))
      | inr e ↦ rw e (
          inr (
            unfold fail in refl,
            ap (count left_bridge)
                  (fail-Ended out.env audit_unavailable none call recorded.1).trace_same
                ∙ same,
          ))
    ]

-- A transition that is neither a request nor its sending leaves the count.
transition_counts :
    (env : Env) (id : String) (endpoint : Option Endpoint) (permitted : List CallStatus)
    (changes : Call → Call) (w : World)
    → (transition env id endpoint permitted changes w).1.trace ≡ w.trace
transition_counts env id endpoint permitted changes w =
    elim (transition-cases env id endpoint permitted changes w) [
      | inl m ↦ rw m.result (unfold replace in refl)
      | inr r ↦ rw r.result refl
    ]

-- The tally counts the requests that left, and splits them by how they ended.
abbrev Tallied : ℕ → World → Tally → Type 0
Tallied start w t =
    (requests w ≡ start + t.sent) × (t.sent ≤ t.responded + t.failed) × (t.responded ≤ t.sent)

abbrev TalliedResult : ℕ → Result CallError Tally × World → Type 0
TalliedResult start (ok t, w) = Tallied start w t
TalliedResult start (err e, w) = Unit

module _ (start : ℕ) (t : Tally) where
  not_sent :
      (w : World) (why : CallError)
      → Tallied start w t
      → TalliedResult start (tally_sent t (err why, w))
  not_sent w (wrong_state s) h = h
  not_sent w not_found h = tt

  not_refused :
      (w : World) (why : CallError)
      → Tallied start w t
      → TalliedResult start (tally_refused t (err why, w))
  not_refused w (wrong_state s) h = omega arith
  not_refused w not_found h = tt

  still :
      (env : Env) (c : Call) (w : World)
      → Tallied start w t
      → TalliedResult start (
          tally_refused t
            (ok c, (record_entry env Action.dispatch_refused Outcome.denied c c.requested_by w).1))
  still env c w h =
      rw (record_entry_keeps env Action.dispatch_refused Outcome.denied c c.requested_by w).1
        (omega arith)

  done_Tallied :
      (before : ℕ) (done : Call) (v : World)
      → before ≡ start + t.sent
      → t.sent ≤ t.responded + t.failed
      → t.responded ≤ t.sent
      → Counts before done v
      → Tallied start v (tally_done done t)
  unfolding tally_done
  done_Tallied before done v e h k (inl (clean, one)) = ground arith
  done_Tallied before done v e h k (inr (audit, same)) = ground arith

  send_Tallied :
      (out : Outside) (endpoint : Endpoint) (id : String) (w : World)
      → Tallied start w t
      → TalliedResult start (tally_sent t (send_call out endpoint id w))
  unfolding send_call claim_call
  send_Tallied out endpoint id w h =
      elim (transition-cases out.env id none (approved ∷ []) (claim_changes out.env) w) [
        | inl m ↦
            let c = claim_changes out.env m.stored in
            let v = replace id (claim_changes out.env) w in
            rw m.result (
              done_Tallied (requests v) (finish_send out endpoint c v).0
                (finish_send out endpoint c v).1 (unfold replace in h.0) h.1 h.2
                (finish_send-Counts out endpoint c v))
        | inr r ↦ rw r.result (not_sent w r.why h)
      ]

  refuse_Tallied :
      (env : Env) (why : Failure) (id : String) (w : World)
      → Tallied start w t
      → TalliedResult start (tally_refused t (claim_and_fail env why id w))
  unfolding claim_and_fail
  refuse_Tallied env why id w h =
      elim (transition-cases env id none (approved ∷ []) (fail_changes env why) w) [
        | inl m ↦ rw m.result (
            still env (fail_changes env why m.stored) (replace id (fail_changes env why) w)
              (unfold replace in h))
        | inr r ↦ rw r.result (not_refused w r.why h)
      ]

  one_Tallied :
      (d : Dispatcher) (call : Call) (w : World)
      → Tallied start w t
      → TalliedResult start (dispatch_one d call t w)
  unfolding dispatch_one
  one_Tallied d call w h = go (by_id d.endpoints call.endpoint_id)
    where
      to :
          (endpoint : Endpoint) (a : Allowed)
          → TalliedResult start (dispatch_to d call t w endpoint a)
      to endpoint (ok _) = send_Tallied d.out endpoint call.id w h
      to endpoint (err _) = refuse_Tallied d.out.env no_longer_allowed call.id w h

      go : (e : Option Endpoint) → TalliedResult start (dispatch_at d call t w e)
      go none = refuse_Tallied d.out.env endpoint_unusable call.id w h
      go (some endpoint) = elim (Bool-cases (active endpoint)) [
        | inr e ↦ rw e (refuse_Tallied d.out.env endpoint_unusable call.id w h)
        | inl e ↦ rw e (elim (Bool-cases (d.answers call)) [
          | inr a ↦ rw a h
          | inl a ↦ rw a (
              to endpoint
                (authorize_request d.access (some call.requested_by) none (target_of call)))
        ])
      ]

all_Tallied :
    (start : ℕ) (d : Dispatcher) (calls : List Call) (r : Result CallError Tally × World)
    → TalliedResult start r
    → TalliedResult start (dispatch_all d calls r)
unfolding dispatch_all
all_Tallied start d [] r h = h
all_Tallied start d (call ∷ rest) (ok t, w) h =
    all_Tallied start d rest (dispatch_one d call t w) (one_Tallied start t d call w h)
all_Tallied start d (call ∷ rest) (err e, w) h = h

-- A dispatch that ends well takes at most `limit` calls from the queue, and its tally is true: exactly
-- `sent` requests left the bridge, each of them is counted as responded or as failed, and the responded
-- ones were sent. A call that the audit log kept from being sent is counted as failed only.
pub dispatch_approved_tally :
    (d : Dispatcher) (limit : ℕ) (w v : World) (t : Tally)
    → (dispatch_approved d limit w).1 ≡ (ok t, v)
    → ((dispatch_approved d limit w).0 ≤ limit)
      × (requests v ≡ requests w + t.sent)
      × (t.sent ≤ t.responded + t.failed)
      × (t.responded ≤ t.sent)
unfolding dispatch_approved queue
dispatch_approved_tally d limit w v t h =
    let fresh : Tally = record { sent = 0; responded = 0; failed = 0 } in
    let (a, b, c) =
      subst (TalliedResult (requests w)) h
        (all_Tallied (requests w) d (queue limit w) (ok fresh, w) (omega arith)) in
    (length-take-le limit _, a, b, c)
