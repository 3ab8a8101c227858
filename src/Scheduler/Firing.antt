-- ===== src/Scheduler/Firing.antt =====
-- holonbridge/scheduler/runner.py: `fire`, `_refuse` and `tick`.
pub mod Limits
pub mod Daily
pub mod Gated
use holon_bridge_python.Prelude.{
  ℕ, suc, String, List, [], ◌∷◌, Bool, true, false, ◌&&◌, not, Option, none, some, ◌==◌,
  if◌then◌else◌, leb, ltb, contains, find, select, map,
}
use holon_bridge_python.Scheduler.Model.{
  Stamp, Env, Persona, Task, due, Outcome, committed, read_only, deferred, quarantined, failed,
  rejected_policy, rejected_capability, Source, scheduled, FiringRecord,
}
use holon_bridge_python.Scheduler.Gates.{State, Desk, Gate, proceed, rejected, raised, gate}

-- What an action leaves in the record.
pub record Done : Type 0 where
  pub outcome : Outcome
  pub units : ℕ

-- `_execute`, given the record's allowance; `none` when it raises.
abbrev pub Action : Type 0
Action = Task → Option Persona → (allowance : Option ℕ) → Option Done

unfoldable pub persona_for : List Persona → Task → Option Persona
persona_for personas t =
    if t.persona_iri == "" then none else find (λ p. p.iri == t.persona_iri) personas

abbrev pub iri_of : Option Persona → String
iri_of none = ""
iri_of (some p) = p.iri

abbrev pub after_action : Option Done → Done
after_action none = record { outcome = failed; units = 1 }
after_action (some d) = d

-- The gates, and the action when they let it proceed.
unfoldable pub attempt : Action → Task → Option Persona → Gate → Done
attempt act t persona (proceed allowance) = after_action (act t persona allowance)
attempt act t persona (rejected outcome) = record { outcome = outcome; units = 1 }
attempt act t persona raised = record { outcome = failed; units = 1 }

abbrev pub touches : Outcome → Bool
touches committed = true
touches read_only = true
touches deferred = true
touches _ = false

-- `touch_last_fired`
abbrev pub touched : Task → String → Task → Task
touched t when other = if other.iri == t.iri then record other { last_fired = when } else other

abbrev pub recorded : Desk → FiringRecord → State → State
recorded desk r s =
    if desk.provenance_written then record s { provenance = r ∷ s.provenance } else s

abbrev pub settled : Desk → Task → FiringRecord → State → State
settled desk t r s =
    if desk.provenance_written && (desk.last_fired_written && touches r.outcome)
    then record s { tasks = map (touched t r.fired_at.text) s.tasks }
    else s

-- `_refuse`
unfoldable pub refuse : Desk → Task → Source → State → Option FiringRecord × State
refuse desk t source s =
    let r : FiringRecord = record {
      task_iri = t.iri;
      outcome = rejected_policy;
      fired_at = desk.env.stamp;
      persona_iri = "";
      source = source;
      units = 1;
    } in
    (some r, recorded desk r s)

unfoldable pub firing_of : Desk → Action → State → Task → Source → FiringRecord
firing_of desk act s t source =
    let persona = persona_for desk.personas t in
    let done = attempt act t persona (gate desk s t persona source) in
    record {
      task_iri = t.iri;
      outcome = done.outcome;
      fired_at = desk.env.stamp;
      persona_iri = iri_of persona;
      source = source;
      units = done.units;
    }

abbrev pub enter : Task → State → State
enter t s = record s {
  fired_this_pass = t.iri ∷ s.fired_this_pass;
  in_flight = t.iri ∷ s.in_flight;
}

abbrev pub leave : Task → State → State
leave t s = record s { in_flight = select (λ i. not (i == t.iri)) s.in_flight }

abbrev pub counted : State → State
counted s = record s { firings = suc s.firings }

unfoldable pub run_firing : Desk → Action → Task → Source → State → Option FiringRecord × State
run_firing desk act t source s =
    let r = firing_of desk act (enter t s) t source in
    (some r, counted (settled desk t r (recorded desk r (leave t (enter t s)))))

unfoldable pub fire :
    Desk → Action → Task → Source → (depth : ℕ) → State → Option FiringRecord × State
fire desk act t source depth s =
    let skipped : Option FiringRecord × State = (none, s) in
    if contains t.iri s.in_flight
    then skipped
    else if leb desk.max_depth depth
    then refuse desk t source s
    else if ltb 0 depth && contains t.iri s.fired_this_pass
    then refuse desk t source s
    else run_firing desk act t source s

-- The loop of `tick` over a copy of the tasks.
unfoldable pub fire_due : Desk → Action → List Task → State → State
fire_due desk act [] s = s
fire_due desk act (t ∷ rest) s =
    let fired = fire_due desk act rest (fire desk act t scheduled 0 s).1 in
    let passed = fire_due desk act rest s in if due desk.env t then fired else passed

unfoldable pub tick : Desk → Action → State → State
tick desk act s = fire_due desk act s.tasks (record s { fired_this_pass = [] })
