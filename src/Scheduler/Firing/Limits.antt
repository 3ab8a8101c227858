-- ===== src/Scheduler/Firing/Limits.antt =====
-- What a scheduled firing may use of the day's limits.
use holon_bridge_python.Prelude.{
  ℕ, suc, ◌+◌, ◌-◌, ◌≤◌, List, [], ◌∷◌, true, false, Option, none, some, ◌≡◌, ◌⊎◌, inl, inr, refl,
  ap, Result, ok, err, In, arith, Bool-cases, leb,
}
use holon_bridge_python.Scheduler.Model.{
  Persona, Task, Outcome, billable, PolicyUnresolvable, policy, Subject, firings_today,
}
use holon_bridge_python.Scheduler.Gates.{
  State, Desk, Gate, proceed, rejected, Check, checks_of, tightest, check_limits,
}
use holon_bridge_python.Scheduler.Firing.{Done, Action, persona_for}

-- What the subject used today.
abbrev pub used : Desk → Subject → State → ℕ
used desk subject s = firings_today subject desk.env.stamp.day s.provenance

-- An action given a positive allowance uses no more of it, as the dispatch of agent calls does, and every
-- action that leaves the record's one unit.
abbrev pub IsModest : Action → Type 0
IsModest act =
    (t : Task) (p : Option Persona) (a : ℕ) (d : Done)
    → 1 ≤ a
    → act t p (some a) ≡ some d
    → billable d.outcome ≡ true
    → d.units ≤ a

-- The task's limit, or its persona's.
abbrev pub IsLimit : Desk → Task → Check → ℕ → Type 0
IsLimit desk t c n =
    In c (checks_of t (persona_for desk.personas t))
    × (policy desk.policies c.policy_iri ≡ ok (some n))

policy_cases :
    (q : Result PolicyUnresolvable (Option ℕ))
    → ((q ≡ ok none) ⊎ ((n : ℕ) × (q ≡ ok (some n)))) ⊎ ((e : PolicyUnresolvable) × (q ≡ err e))
policy_cases (ok none) = inl (inl refl)
policy_cases (ok (some n)) = inl (inr (n, refl))
policy_cases (err e) = inr (e, refl)

fits :
    {k n n' u u' : ℕ} (a : Option ℕ)
    → k ≤ tightest (n' - u') a
    → u ≡ u'
    → n ≡ n'
    → suc u' ≤ n'
    → u + k ≤ n
fits none le at same left = omega arith
fits (some b) le at same left = omega arith

-- Nothing limits the allowance yet, or some of it is left.
abbrev pub IsPositive : Option ℕ → Type 0
IsPositive none = Unit {0}
IsPositive (some a) = 1 ≤ a

tightest_positive : {n u : ℕ} (a : Option ℕ) → IsPositive a → suc u ≤ n → 1 ≤ tightest (n - u) a
tightest_positive none some_left below = omega arith
tightest_positive (some b) some_left below = omega arith

module _ (desk : Desk) (s : State) where
  abbrev after_check : List Check → Option ℕ → ℕ → Check → Gate
  after_check cs a n c = check_limits desk s cs (some (tightest (n - used desk c.subject s) a))

  check_limits_proceeds :
      (c : Check) (cs : List Check) (a0 a : Option ℕ)
      → check_limits desk s (c ∷ cs) a0 ≡ proceed a
      → ((policy desk.policies c.policy_iri ≡ ok none) × (check_limits desk s cs a0 ≡ proceed a))
        ⊎ ((n : ℕ) × (policy desk.policies c.policy_iri ≡ ok (some n))
            × (suc (used desk c.subject s) ≤ n)
            × (after_check cs a0 n c ≡ proceed a))
  unfolding check_limits
  check_limits_proceeds c cs a0 a h = elim (policy_cases (policy desk.policies c.policy_iri)) [
    | inr (e, q) ↦ ground (arith, q)
    | inl (inl q) ↦ inl (q, ground (arith, q))
    | inl (inr (n, q)) ↦ elim (Bool-cases (desk.counts_answered c.subject)) [
      | inr mute ↦ ground (arith, q, mute)
      | inl told ↦ elim (Bool-cases (leb n (used desk c.subject s))) [
        | inl full ↦ ground (arith, q, told, full)
        | inr left ↦ inr (n, q, ground (arith, left), ground (arith, q, told, left))
      ]
    ]
  ]

  allowance_shrinks :
      (cs : List Check) (b : ℕ) (a : Option ℕ)
      → 1 ≤ b
      → check_limits desk s cs (some b) ≡ proceed a
      → (k : ℕ) × (a ≡ some k) × (1 ≤ k) × (k ≤ b)
  unfolding check_limits
  allowance_shrinks [] b a some_left h = (b, ground arith, some_left, omega arith)
  allowance_shrinks (c ∷ cs) b a some_left h = elim (check_limits_proceeds c cs (some b) a h) [
    | inl (q, rest) ↦ allowance_shrinks cs b a some_left rest
    | inr (n, q, left, rest) ↦
        let (k, e, more, le) =
          allowance_shrinks cs (tightest (n - used desk c.subject s) (some b)) a (omega arith)
            rest in
        (k, e, more, omega arith)
  ]

  limit_same :
      (x c : Check) (n n' : ℕ)
      → c ≡ x
      → policy desk.policies c.policy_iri ≡ ok (some n)
      → policy desk.policies x.policy_iri ≡ ok (some n')
      → n ≡ n'
  limit_same x c n n' e p q =
      let same = ap (λ (k : Check). policy desk.policies k.policy_iri) e in cc

  pub limit_allows :
      (cs : List Check) (c : Check) (n : ℕ) (a0 a : Option ℕ)
      → IsPositive a0
      → In c cs
      → policy desk.policies c.policy_iri ≡ ok (some n)
      → check_limits desk s cs a0 ≡ proceed a
      → (k : ℕ) × (a ≡ some k) × (1 ≤ k) × (used desk c.subject s + k ≤ n)
  limit_allows (x ∷ cs) c n a0 a some_left m p h = elim (check_limits_proceeds x cs a0 a h) [
    | inl (q, rest) ↦ elim m [
      | inl e ↦ let same = ap (λ (k : Check). policy desk.policies k.policy_iri) e in cc
      | inr e ↦ limit_allows cs c n a0 a some_left e p rest
    ]
    | inr (n', q, left, rest) ↦ elim m [
      | inl e ↦
          let same : n ≡ n' = limit_same x c n n' e p q in
          let (k, k_is, more, le) =
            allowance_shrinks cs (tightest (n' - used desk x.subject s) a0) a
              (tightest_positive a0 some_left left) rest in
          let at : used desk c.subject s ≡ used desk x.subject s =
            ap (λ (k : Check). used desk k.subject s) e in
          (k, k_is, more, fits a0 le at same left)
      | inr e ↦
          limit_allows cs c n (some (tightest (n' - used desk x.subject s) a0)) a
            (tightest_positive a0 some_left left) e p rest
    ]
  ]
  limit_allows [] c n a0 a some_left m p h = absurd m

  pub check_limits_rejects :
      (cs : List Check) (a : Option ℕ) (o : Outcome)
      → check_limits desk s cs a ≡ rejected o
      → billable o ≡ false
  unfolding check_limits billable
  check_limits_rejects [] a o h = cc
  check_limits_rejects (c ∷ cs) a o h = elim (policy_cases (policy desk.policies c.policy_iri)) [
    | inr (e, q) ↦ ground (arith, q)
    | inl (inl q) ↦ check_limits_rejects cs a o (ground (arith, q))
    | inl (inr (n, q)) ↦ elim (Bool-cases (desk.counts_answered c.subject)) [
      | inr mute ↦ ground (arith, q, mute)
      | inl told ↦ elim (Bool-cases (leb n (used desk c.subject s))) [
        | inl full ↦ ground (arith, q, told, full)
        | inr left ↦
            check_limits_rejects cs (some (tightest (n - used desk c.subject s) a)) o
              (ground (arith, q, told, left))
      ]
    ]
  ]
