-- ===== src/Agents/System/AtMostOnce.antt =====
-- A call leaves the bridge at most once per approval, whatever the interleaving.
use holon_bridge_python.Prelude.{
  ◌≤◌, String, List, [], ◌∷◌, none, some, inl, inr, refl, Option-cases, arith, Result, ok, err,
}
use holon_bridge_python.Agents.Model.{Call, pending, approved, failed, Endpoint, Failure}
use holon_bridge_python.Agents.Ledger.{World, Env}
use holon_bridge_python.Agents.Service.{
  approve_changes, approve_call, reject_changes, reject_call, retry_changes, retry_call,
  claim_changes, claim_call, fail_changes, claim_and_fail,
}
use holon_bridge_python.Agents.Request.{
  RequestError, Desk, Order, check_request, is_queued, new_call, if_checked, request_call,
}
use holon_bridge_python.Agents.System.{System, Step, nth, claimed, run_step, run, empty}
use holon_bridge_python.Agents.System.Moves.{sends, approvals, transition-cases}
use holon_bridge_python.Agents.System.Coverage.{
  Covered, Covered-record, Covered-approved, Covered-ended, Covered-claimed, Covered-placed,
  new_call_pending, only_approved, Covered-finished,
}

module _ (id : String) (fly : List Call) (w : World) (h : Covered id fly w) where
  approve-Covered : (env : Env) (call who : String) → Covered id fly (approve_call env call who w).1
  unfolding approve_call
  approve-Covered env call who =
      elim (transition-cases env call none (pending ∷ []) (approve_changes env who) w) [
        | inl m ↦ rw m.result (
            Covered-record id fly env _ _ _ _ _ (
              Covered-approved id fly w h call m.stored.id (approve_changes env who) m.named
                (λ c. refl)))
        | inr r ↦ rw r.result h
      ]

  reject-Covered :
      (env : Env) (call who reason : String) → Covered id fly (reject_call env call who reason w).1
  unfolding reject_call
  reject-Covered env call who reason =
      elim (transition-cases env call none (pending ∷ approved ∷ []) (reject_changes env who reason)
        w) [
          | inl m ↦ rw m.result (
              Covered-record id fly env _ _ _ _ _ (
                Covered-ended id fly w h call (reject_changes env who reason) (λ c. refl)
                  (λ c. refl)))
          | inr r ↦ rw r.result h
        ]

  retry-Covered :
      (env : Env) (endpoint : Endpoint) (call who : String)
      → Covered id fly (retry_call env endpoint call who w).1
  unfolding retry_call
  retry-Covered env endpoint call who =
      elim (transition-cases env call (some endpoint) (failed ∷ []) (retry_changes env who) w) [
        | inl m ↦ rw m.result (
            Covered-approved id fly w h call m.stored.id (retry_changes env who) m.named
              (λ c. refl))
        | inr r ↦ rw r.result h
      ]

  refuse-Covered :
      (env : Env) (why : Failure) (call : String) → Covered id fly (claim_and_fail env why call w).1
  unfolding claim_and_fail
  refuse-Covered env why call =
      elim (transition-cases env call none (approved ∷ []) (fail_changes env why) w) [
        | inl m ↦ rw m.result (
            Covered-record id fly env _ _ _ _ _
              (Covered-ended id fly w h call (fail_changes env why) (λ c. refl) (λ c. refl)))
        | inr r ↦ rw r.result h
      ]

  request-Covered :
      (desk : Desk) (order : Order) (endpoint : Endpoint) (seen : World)
      → Covered id fly (request_call desk order endpoint seen w).1
  unfolding request_call
  request-Covered desk order endpoint seen = go (check_request desk order endpoint seen)
    where
      go :
          (r : Result RequestError (Unit {0}))
          → Covered id fly (if_checked desk order endpoint w r).1
      go (err e) = h
      go (ok _) = Covered-record id fly desk.env _ _ _ _ _ (
          Covered-placed id fly w (is_queued order endpoint) (new_call desk order endpoint) h
            (new_call_pending desk order endpoint))

  claim-Covered :
      (env : Env) (call : String)
      → Covered id
          (claimed fly (claim_call env call w)).in_flight
          (claimed fly (claim_call env call w)).world
  unfolding claim_call
  claim-Covered env call =
      elim (transition-cases env call none (approved ∷ []) (claim_changes env) w) [
        | inl m ↦ rw m.result (
            Covered-claimed id fly w h env m.stored call m.here m.named
              (only_approved env m.stored m.permits))
        | inr r ↦ rw r.result h
      ]

step-Covered :
    (id : String) (step : Step) (s : System)
    → Covered id s.in_flight s.world
    → Covered id (run_step step s).in_flight (run_step step s).world
unfolding run_step
step-Covered id (Step.place desk order endpoint seen) s h =
    request-Covered id s.in_flight s.world h desk order endpoint seen
step-Covered id (Step.approve env call who) s h =
    approve-Covered id s.in_flight s.world h env call who
step-Covered id (Step.reject env call who reason) s h =
    reject-Covered id s.in_flight s.world h env call who reason
step-Covered id (Step.retry env endpoint call who) s h =
    retry-Covered id s.in_flight s.world h env endpoint call who
step-Covered id (Step.claim env call) s h = claim-Covered id s.in_flight s.world h env call
step-Covered id (Step.finish n out endpoint) s h = elim (Option-cases (nth n s.in_flight)) [
  | inl e ↦ rw e h
  | inr (call, e) ↦ rw e (Covered-finished id n s.in_flight call e out endpoint s.world h)
]
step-Covered id (Step.refuse env why call) s h =
    refuse-Covered id s.in_flight s.world h env why call

run-Covered :
    (id : String) (steps : List Step) (s : System)
    → Covered id s.in_flight s.world
    → Covered id (run steps s).in_flight (run steps s).world
unfolding run
run-Covered id [] s h = h
run-Covered id (step ∷ rest) s h = run-Covered id rest (run_step step s) (step-Covered id step s h)

-- Whatever the steps and however they interleave, and whatever agents, the audit log and the clock
-- answer, a call is sent at most as often as it was approved (by a person, by a retry or by policy).
pub sends-le-approvals :
    (id : String) (steps : List Step)
    → sends id (run steps empty).world.trace ≤ approvals id (run steps empty).world.trace
sends-le-approvals id steps = let h = run-Covered id steps empty (omega arith) in omega arith
