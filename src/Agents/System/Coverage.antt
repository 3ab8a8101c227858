-- ===== src/Agents/System/Coverage.antt =====
-- Approvals cover what was sent, what is under way and what waits.
use holon_bridge_python.Prelude.{
  ℕ, ◌+◌, ◌≤◌, String, List, [], ◌∷◌, Bool, true, false, ◌||◌, none, some, ◌≡◌, inl, inr, refl,
  Bool-cases, arith, ◌==◌, eq_iff, count-append, In,
}
use holon_bridge_python.Audit.Policy.{Outcome}
use holon_bridge_python.Agents.Model.{
  Call, approved, status_eq, is_one_of, Endpoint, audit_unavailable,
}
use holon_bridge_python.Agents.Ledger.{
  World, Env, Event, Action, approval, update_all, put, replace, record_entry, emit,
}
use holon_bridge_python.Agents.Service.{stale_sending, claim_changes}
use holon_bridge_python.Agents.Sending.{Outside, or_else, deliver, finish_send}
use holon_bridge_python.Agents.Request.{Desk, Order, is_queued, new_call, announce}
use holon_bridge_python.Agents.System.{nth, without}
use holon_bridge_python.Agents.Ledger.Entries.{record_entry_keeps}
use holon_bridge_python.Agents.System.Settling.{Ended, fail-Ended, settle_sent-Ended}
use holon_bridge_python.Agents.System.Moves.{
  waiting, flying, is_sent, is_approval, sends, approvals, holds-update_all_other,
  holds-update_all_ended, waiting-Ended, nth-split, holds_of_In,
}

-- The sends so far, the sends under way and a pending approval are covered by approvals.
abbrev pub Covered : String → List Call → World → Type 0
Covered id fly w = sends id w.trace + flying id fly + waiting id w.calls ≤ approvals id w.trace

waiting-le-one : (id : String) (cs : List Call) → waiting id cs ≤ 1
waiting-le-one id cs = ground arith

-- An audit entry changes nothing that is counted.
pub Covered-record :
    (id : String) (fly : List Call) (env : Env) (event : Action) (outcome : Outcome) (call : Call)
    (actor : String) (w : World)
    → Covered id fly w
    → Covered id fly (record_entry env event outcome call actor w).1
Covered-record id fly env event outcome call actor w h =
    let (calls, trace) = record_entry_keeps env event outcome call actor w in rw (calls, trace) h

module _ (id : String) (fly : List Call) (w : World) (covered : Covered id fly w) where
  -- A new approval covers one waiting call of that id.
  pub Covered-approved :
      (other shown : String) (changes : Call → Call)
      → shown ≡ other
      → ((c : Call) → (changes c).id ≡ c.id)
      → Covered id fly (emit (approval shown) (replace other changes w))
  unfolding replace
  Covered-approved other shown changes same keeps =
      rw
        (
          same,
          count-append (is_sent id) w.trace (approval other ∷ []),
          count-append (is_approval id) w.trace (approval other ∷ []),
        )
        (elim (Bool-cases (other == id)) [
          | inl e ↦ ground (arith, waiting-le-one id (update_all other changes w.calls))
          | inr e ↦ ground (arith, holds-update_all_other other changes keeps id w.calls e)
        ])

  pub Covered-ended :
      (other : String) (changes : Call → Call)
      → ((c : Call) → (changes c).id ≡ c.id)
      → ((c : Call) → status_eq (changes c).status approved ≡ false)
      → Covered id fly (replace other changes w)
  unfolding replace
  Covered-ended other changes keeps ends = elim (Bool-cases (other == id)) [
    | inl e ↦
        let same = (eq_iff other id).0 e in
        ground (arith, same, holds-update_all_ended other changes keeps ends w.calls)
    | inr e ↦ ground (arith, holds-update_all_other other changes keeps id w.calls e)
  ]

  -- A claim turns the waiting call into one in flight.
  pub Covered-claimed :
      (env : Env) (stored : Call) (call : String)
      → In stored w.calls
      → stored.id ≡ call
      → status_eq stored.status approved ≡ true
      → Covered id (claim_changes env stored ∷ fly) (replace call (claim_changes env) w)
  unfolding replace
  Covered-claimed env stored call here named is_approved = elim (Bool-cases (call == id)) [
    | inl e ↦
        let same = (eq_iff call id).0 e in
        ground (
          arith,
          same,
          named,
          eq_iff stored.id id,
          holds-update_all_ended call (claim_changes env) (λ c. refl) (λ c. refl) w.calls,
          holds_of_In call w.calls stored here ((eq_iff stored.id call).1 named) is_approved,
        )
    | inr e ↦ ground (
      arith,
      named,
      eq_iff stored.id id,
      eq_iff call id,
      holds-update_all_other call (claim_changes env) (λ c. refl) id w.calls e,
    )
  ]

-- A request that goes through, and is queued by policy, comes with its approval.
pub Covered-placed :
    (id : String) (fly : List Call) (w : World) (queued : Bool) (call : Call)
    → Covered id fly w
    → (queued ≡ false → status_eq call.status approved ≡ false)
    → Covered id fly (announce queued call (put call w))
unfolding put
Covered-placed id fly w true call h fresh =
    simp count-append (ground (arith, waiting-le-one id (call ∷ w.calls)))
Covered-placed id fly w false call h fresh = simp count-append (ground (arith, fresh refl))

pub new_call_pending :
    (desk : Desk) (order : Order) (endpoint : Endpoint)
    → is_queued order endpoint ≡ false
    → status_eq (new_call desk order endpoint).status approved ≡ false
unfolding new_call
new_call_pending desk order endpoint h = rw h refl

pub only_approved :
    (env : Env) (c : Call)
    → (is_one_of c.status (approved ∷ []) || stale_sending env c none (approved ∷ [])) ≡ true
    → status_eq c.status approved ≡ true
unfolding stale_sending
only_approved env c h = ground arith

-- The sending of a claimed call uses up its place in flight.
module _ (id : String) (n : ℕ) (fly : List Call) (call : Call) (found : nth n fly ≡ some call) where
  -- The place in flight pays for one request that leaves.
  Paid : World → Type 0
  Paid w = sends id w.trace + flying id (without n fly) + waiting id w.calls ≤ approvals id w.trace

  Covered-Paid : (w : World) → Covered id fly w → Paid w
  unfolding Paid
  Covered-Paid w h = omega (arith, nth-split id n fly call found)

  emit-Paid :
      (w : World) (body : String) → Covered id fly w → Paid (emit (Event.sent call.id body) w)
  unfolding Paid
  emit-Paid w body h =
      rw
        (
          count-append (is_sent id) w.trace (Event.sent call.id body ∷ []),
          count-append (is_approval id) w.trace (Event.sent call.id body ∷ []),
        )
        (ground (arith, nth-split id n fly call found))

  Ended-Paid : {w w' : World} → Ended call.id w w' → Paid w → Paid w'
  unfolding Paid
  Ended-Paid e h = rw e.trace_same (omega (arith, waiting-Ended id e))

  record-Paid :
      (env : Env) (event : Action) (outcome : Outcome) (c : Call) (actor : String) (w : World)
      → Paid w
      → Paid (record_entry env event outcome c actor w).1
  unfolding Paid
  record-Paid env event outcome c actor w h =
      let (calls, trace) = record_entry_keeps env event outcome c actor w in rw (calls, trace) h

  deliver-Paid :
      (out : Outside) (endpoint : Endpoint) (w : World)
      → Covered id fly w
      → Paid (deliver out endpoint call w).1
  unfolding deliver
  deliver-Paid out endpoint w h = record-Paid out.env _ _ _ _ _ (
      Ended-Paid (settle_sent-Ended out call _ (out.sender endpoint call call.body))
        (emit-Paid w call.body h))

  pub Covered-finished :
      (out : Outside) (endpoint : Endpoint) (w : World)
      → Covered id fly w
      → Covered id (without n fly) (finish_send out endpoint call w).1
  unfolding finish_send Paid
  Covered-finished out endpoint w h =
      let actor = or_else call.approved_by call.requested_by in
      let recorded = record_entry out.env Action.send Outcome.allowed call actor w in
      let still = Covered-record id fly out.env Action.send Outcome.allowed call actor w h in
      elim (Bool-cases recorded.0) [
        | inl e ↦ rw e (deliver-Paid out endpoint recorded.1 still)
        | inr e ↦ rw e (
            Ended-Paid (fail-Ended out.env audit_unavailable none call recorded.1)
              (Covered-Paid recorded.1 still))
      ]
