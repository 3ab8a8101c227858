-- ===== src/Agents/System/Provenance.antt =====
-- What leaves the bridge is, byte for byte, what was placed.
use holon_bridge_python.Prelude.{
  String, List, [], ◌∷◌, Bool, true, false, none, some, inl, inr, refl, Option-cases, In, Result,
  ok, err,
}
use holon_bridge_python.Agents.Model.{Call, pending, approved, failed, Endpoint}
use holon_bridge_python.Agents.Ledger.{World, Env, placed, sent, put, replace}
use holon_bridge_python.Agents.Service.{
  approve_changes, approve_call, reject_changes, reject_call, retry_changes, retry_call,
  claim_changes, claim_call, fail_changes, claim_and_fail,
}
use holon_bridge_python.Agents.Request.{
  RequestError, Desk, Order, check_request, is_queued, new_call, announce, if_checked, request_call,
}
use holon_bridge_python.Agents.System.{System, Step, nth, claimed, run_step, run, empty}
use holon_bridge_python.Agents.System.Moves.{transition-cases}
use holon_bridge_python.Agents.System.Tracing.{
  IsTraced, replace-IsTraced, record-IsTraced, approval-IsTraced, In-without, In-nth, fewer_flying,
  finish-IsTraced, one_more, placed-IsTraced,
}

module _ (fly : List Call) (w : World) (h : IsTraced fly w) where
  request-IsTraced :
      (desk : Desk) (order : Order) (endpoint : Endpoint) (seen : World)
      → IsTraced fly (request_call desk order endpoint seen w).1
  unfolding request_call
  request-IsTraced desk order endpoint seen = go (check_request desk order endpoint seen)
    where
      announced : (queued : Bool) (call : Call) → IsTraced fly (announce queued call (put call w))
      announced true call = approval-IsTraced (placed-IsTraced fly w call h) call.id
      announced false call = placed-IsTraced fly w call h

      go :
          (r : Result RequestError (Unit {0})) → IsTraced fly (if_checked desk order endpoint w r).1
      go (err e) = h
      go (ok _) =
          record-IsTraced (announced (is_queued order endpoint) (new_call desk order endpoint))
            desk.env _ _ _ _

  claim-IsTraced :
      (env : Env) (call : String)
      → IsTraced
          (claimed fly (claim_call env call w)).in_flight
          (claimed fly (claim_call env call w)).world
  unfolding claim_call replace
  claim-IsTraced env call =
      elim (transition-cases env call none (approved ∷ []) (claim_changes env) w) [
        | inl m ↦
            let known = h.stored m.stored m.here in
            let base =
              replace-IsTraced h call (claim_changes env)
                (record { id = λ c. refl; body = λ c. refl }) in
            rw m.result (one_more base (claim_changes env m.stored) known)
        | inr r ↦ rw r.result h
      ]

step-IsTraced :
    (step : Step) (s : System)
    → IsTraced s.in_flight s.world
    → IsTraced (run_step step s).in_flight (run_step step s).world
unfolding run_step approve_call reject_call retry_call claim_and_fail
step-IsTraced (Step.place desk order endpoint seen) s h =
    request-IsTraced s.in_flight s.world h desk order endpoint seen
step-IsTraced (Step.approve env call who) s h =
    elim (transition-cases env call none (pending ∷ []) (approve_changes env who) s.world) [
      | inl m ↦ rw m.result (
          record-IsTraced
            (approval-IsTraced
              (replace-IsTraced h call (approve_changes env who)
                (record { id = λ c. refl; body = λ c. refl }))
              m.stored.id)
            env _ _ _ _)
      | inr r ↦ rw r.result h
    ]
step-IsTraced (Step.reject env call who reason) s h =
    elim (transition-cases env call none (pending ∷ approved ∷ []) (reject_changes env who reason)
      s.world) [
        | inl m ↦ rw m.result (
            record-IsTraced
              (replace-IsTraced h call (reject_changes env who reason)
                (record { id = λ c. refl; body = λ c. refl }))
              env _ _ _ _)
        | inr r ↦ rw r.result h
      ]
step-IsTraced (Step.retry env endpoint call who) s h =
    elim (transition-cases env call (some endpoint) (failed ∷ []) (retry_changes env who) s.world) [
      | inl m ↦ rw m.result (
          approval-IsTraced
            (replace-IsTraced h call (retry_changes env who)
              (record { id = λ c. refl; body = λ c. refl }))
            m.stored.id)
      | inr r ↦ rw r.result h
    ]
step-IsTraced (Step.claim env call) s h = claim-IsTraced s.in_flight s.world h env call
step-IsTraced (Step.finish n out endpoint) s h = elim (Option-cases (nth n s.in_flight)) [
  | inl e ↦ rw e h
  | inr (call, e) ↦ rw e (
      fewer_flying (In-without n s.in_flight) (
        finish-IsTraced s.in_flight out endpoint call s.world
          (h.flying call (In-nth n s.in_flight call e)) h))
]
step-IsTraced (Step.refuse env why call) s h =
    elim (transition-cases env call none (approved ∷ []) (fail_changes env why) s.world) [
      | inl m ↦ rw m.result (
          record-IsTraced
            (replace-IsTraced h call (fail_changes env why)
              (record { id = λ c. refl; body = λ c. refl }))
            env _ _ _ _)
      | inr r ↦ rw r.result h
    ]

run-IsTraced :
    (steps : List Step) (s : System)
    → IsTraced s.in_flight s.world
    → IsTraced (run steps s).in_flight (run steps s).world
unfolding run
run-IsTraced [] s h = h
run-IsTraced (step ∷ rest) s h = run-IsTraced rest (run_step step s) (step-IsTraced step s h)

-- Whatever the steps and their interleaving, each request that left carries the body with which the
-- call of that id was placed: approvals, retries and late settlements never change what is sent.
pub sent-placed :
    (id body : String) (steps : List Step)
    → In (sent id body) (run steps empty).world.trace
    → In (placed id body) (run steps empty).world.trace
sent-placed id body steps =
    (run-IsTraced steps empty (record {
      stored = λ c m. absurd m;
      flying = λ c m. absurd m;
      sent_placed = λ i b m. absurd m;
    })).sent_placed
      id body
