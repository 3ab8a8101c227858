-- ===== src/Scheduler/Firing/Gated.antt =====
-- What a firing that counts has passed.
use holon_bridge_python.Prelude.{
  ℕ, ◌<◌, true, false, Option, none, some, some-injective, ◌≡◌, ◌⊎◌, refl, inl, inr, sym, ◌∙◌, ap,
  arith, Bool-cases, leb, ltb, contains, ◌&&◌,
}
use holon_bridge_python.Scheduler.Model.{
  Persona, Task, active, can, required_class, billable, Source, FiringRecord,
}
use holon_bridge_python.Scheduler.Gates.{State, Desk, persona_can, gate}
use holon_bridge_python.Scheduler.Firing.{
  Action, persona_for, attempt, firing_of, refuse, run_firing, fire, enter,
}

module _ (desk : Desk) (act : Action) (s : State) (t : Task) (source : Source) where
  gate_passes :
      (p : Option Persona)
      → billable (attempt act t p (gate desk s t p source)).outcome ≡ true
      → (active t ≡ true) × (persona_can desk t p ≡ true)
  unfolding gate attempt billable
  gate_passes p h = elim (Bool-cases (active t)) [
    | inr d ↦ ground (arith, d)
    | inl d ↦ elim (Bool-cases (persona_can desk t p)) [
      | inr f ↦ ground (arith, d, f)
      | inl f ↦ (d, f)
    ]
  ]

run_passes :
    (desk : Desk) (act : Action) (s : State) (t : Task) (source : Source) (r : FiringRecord)
    → (run_firing desk act t source s).0 ≡ some r
    → billable r.outcome ≡ true
    → (active t ≡ true) × (persona_can desk t (persona_for desk.personas t) ≡ true)
unfolding run_firing firing_of
run_passes desk act s t source r h b =
    let same : firing_of desk act (enter t s) t source ≡ r = some-injective h in
    gate_passes desk act (enter t s) t source (persona_for desk.personas t)
      (ap (λ (x : FiringRecord). billable x.outcome) same ∙ b)

refused_free :
    (desk : Desk) (t : Task) (source : Source) (s : State) (r : FiringRecord)
    → (refuse desk t source s).0 ≡ some r
    → billable r.outcome ≡ false
unfolding refuse billable
refused_free desk t source s r h =
    let same = some-injective h in sym (ap (λ (x : FiringRecord). billable x.outcome) same)

-- No persona was found, or the one that was has the class among its capabilities.
abbrev pub Permits : Desk → Task → Option Persona → Type 0
Permits desk t found =
    (found ≡ none)
    ⊎ ((p : Persona) × (found ≡ some p)
        × (contains (required_class desk.env t) p.capabilities ≡ true))

permits :
    (desk : Desk) (t : Task) (found : Option Persona)
    → persona_can desk t found ≡ true
    → Permits desk t found
unfolding can
permits desk t none h = inl refl
permits desk t (some p) h = inr (p, refl, h)

-- A firing of any source and depth whose record counts against the limits (its outcome is committed or
-- read-only) was of an active task that was not in flight, below the depth limit, and either no persona
-- was found for the task, because it names none or one that is not loaded, or the persona that was found
-- has the class that the task requires among its capabilities.
pub fire_gated :
    (desk : Desk) (act : Action) (s : State) (t : Task) (source : Source) (depth : ℕ)
    (r : FiringRecord)
    → (fire desk act t source depth s).0 ≡ some r
    → billable r.outcome ≡ true
    → (active t ≡ true)
      × (contains t.iri s.in_flight ≡ false)
      × (depth < desk.max_depth)
      × Permits desk t (persona_for desk.personas t)
unfolding fire
fire_gated desk act s t source depth r h b = elim (Bool-cases (contains t.iri s.in_flight)) [
  | inl e ↦ ground (arith, e)
  | inr e ↦ elim (Bool-cases (leb desk.max_depth depth)) [
    | inl d ↦ let no_bill = refused_free desk t source s r in ground (arith, e, d, no_bill)
    | inr d ↦ elim (Bool-cases (ltb 0 depth && contains t.iri s.fired_this_pass)) [
      | inl f ↦ let no_bill = refused_free desk t source s r in ground (arith, e, d, f, no_bill)
      | inr f ↦
          let ran : (run_firing desk act t source s).0 ≡ some r = ground (arith, e, d, f) in
          let (live, can) = run_passes desk act s t source r ran b in
          (live, e, ground (arith, d), permits desk t (persona_for desk.personas t) can)
    ]
  ]
]
