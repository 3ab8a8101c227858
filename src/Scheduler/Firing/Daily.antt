-- ===== src/Scheduler/Firing/Daily.antt =====
-- A scheduled firing stays within the day's limits.
use holon_bridge_python.Prelude.{
  ℕ, ◌+◌, ◌≤◌, true, false, Option, none, some, ◌≡◌, inl, inr, refl, sym, ◌∙◌, ap, ok, In, arith,
  Bool-cases, leb, ltb, contains, ◌&&◌,
}
use holon_bridge_python.Scheduler.Model.{
  Persona, Task, active, Outcome, billable, scheduled, policy, units_for, firings_today,
}
use holon_bridge_python.Scheduler.Gates.{
  State, Desk, Gate, proceed, rejected, raised, Check, checks_of, check_limits, persona_can, gate,
}
use holon_bridge_python.Scheduler.Firing.{
  Done, Action, persona_for, after_action, attempt, firing_of, refuse, run_firing, fire, enter,
}
use holon_bridge_python.Scheduler.Firing.Limits.{
  used, IsModest, IsLimit, limit_allows, check_limits_rejects,
}

done_fits :
    (k n u : ℕ) (r : Option Done)
    → billable (after_action r).outcome ≡ true
    → ((d : Done) → r ≡ some d → billable d.outcome ≡ true → d.units ≤ k)
    → u + k ≤ n
    → u + (after_action r).units ≤ n
unfolding billable
done_fits k n u none b small le = cc
done_fits k n u (some d) b small le = let bound = small d refl b in omega arith

module _ (desk : Desk) (act : Action) (s : State) (t : Task) where
  -- A gate's three answers, for a scheduled firing.
  gate_proceeds :
      (p : Option Persona) (a : Option ℕ)
      → gate desk s t p scheduled ≡ proceed a
      → check_limits desk s (checks_of t p) none ≡ proceed a
  unfolding gate
  gate_proceeds p a h = elim (Bool-cases (active t)) [
    | inr e ↦ ground (arith, e)
    | inl e ↦ elim (Bool-cases (persona_can desk t p)) [
      | inr d ↦ ground (arith, e, d)
      | inl d ↦ ground (arith, e, d)
    ]
  ]

  gate_rejects :
      (p : Option Persona) (o : Outcome)
      → gate desk s t p scheduled ≡ rejected o
      → billable o ≡ false
  unfolding gate billable
  gate_rejects p o h = elim (Bool-cases (active t)) [
    | inr e ↦ ground (arith, e)
    | inl e ↦ elim (Bool-cases (persona_can desk t p)) [
      | inr d ↦ ground (arith, e, d)
      | inl d ↦ check_limits_rejects desk s (checks_of t p) none o (ground (arith, e, d))
    ]
  ]

  -- The firing's units, when billable, fit beside what was used.
  attempt_fits :
      (p : Option Persona) (c : Check) (n : ℕ) (g : Gate)
      → gate desk s t p scheduled ≡ g
      → In c (checks_of t p)
      → policy desk.policies c.policy_iri ≡ ok (some n)
      → IsModest act
      → billable (attempt act t p g).outcome ≡ true
      → used desk c.subject s + (attempt act t p g).units ≤ n
  unfolding attempt billable
  attempt_fits p c n (proceed a) e m q modest b =
      let (k, k_is, more, le) =
        limit_allows desk s (checks_of t p) c n none a tt m q (gate_proceeds p a e) in
      let at = ap (act t p) k_is in
      done_fits k n (used desk c.subject s) (act t p a) b
        (λ d done. modest t p k d more (sym at ∙ done)) le
  attempt_fits p c n (rejected o) e m q modest b = let no = gate_rejects p o e in cc
  attempt_fits p c n raised e m q modest b = cc

  firing_fits :
      (c : Check) (n : ℕ)
      → IsModest act
      → IsLimit desk t c n
      → used desk c.subject s ≤ n
      → units_for c.subject desk.env.stamp.day (firing_of desk act s t scheduled)
          + used desk c.subject s
        ≤ n
  unfolding firing_of
  firing_fits c n modest (m, q) before =
      let p = persona_for desk.personas t in
      let g = gate desk s t p scheduled in
      elim (Bool-cases (billable (attempt act t p g).outcome)) [
        | inr free ↦ ground (arith, free)
        | inl bills ↦ let fits = attempt_fits p c n g refl m q modest bills in ground (arith, fits)
      ]

  run_firing_fits :
      (c : Check) (n : ℕ)
      → units_for c.subject desk.env.stamp.day (firing_of desk act (enter t s) t scheduled)
          + used desk c.subject s
        ≤ n
      → used desk c.subject s ≤ n
      → used desk c.subject (run_firing desk act t scheduled s).1 ≤ n
  unfolding run_firing firings_today
  run_firing_fits c n within before = elim (Bool-cases desk.provenance_written) [
    | inl e ↦ ground (arith, e)
    | inr e ↦ ground (arith, e)
  ]

  refuse_fits :
      (c : Check) (n : ℕ)
      → used desk c.subject s ≤ n
      → used desk c.subject (refuse desk t scheduled s).1 ≤ n
  unfolding refuse firings_today billable
  refuse_fits c n before = elim (Bool-cases desk.provenance_written) [
    | inl e ↦ ground (arith, e)
    | inr e ↦ ground (arith, e)
  ]

-- When what a task or its persona used today is within its daily limit, it still is after a scheduled
-- firing of the task, for an action that uses no more than a
-- positive allowance, as one that always counts as one unit, and on every outcome: skipped,
-- refused, rejected by a gate, raised or run, and whether or not the record could be written.
pub fire_within_limit :
    (desk : Desk) (act : Action) (s : State) (t : Task) (depth : ℕ) (c : Check) (n : ℕ)
    → IsModest act
    → IsLimit desk t c n
    → used desk c.subject s ≤ n
    → used desk c.subject (fire desk act t scheduled depth s).1 ≤ n
unfolding fire
fire_within_limit desk act s t depth c n modest limit before =
    let ran =
      run_firing_fits desk act s t c n (firing_fits desk act (enter t s) t c n modest limit before)
        before in
    let refused = refuse_fits desk act s t c n before in
    elim (Bool-cases (contains t.iri s.in_flight)) [
      | inl e ↦ ground (arith, e)
      | inr e ↦ elim (Bool-cases (leb desk.max_depth depth)) [
        | inl d ↦ ground (arith, e, d, refused)
        | inr d ↦ elim (Bool-cases (ltb 0 depth && contains t.iri s.fired_this_pass)) [
          | inl f ↦ ground (arith, e, d, f, refused)
          | inr f ↦ ground (arith, e, d, f, ran)
        ]
      ]
    ]
