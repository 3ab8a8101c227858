-- ===== src/Scheduler/Gates.antt =====
-- holonbridge/scheduler/runner.py: the state, and the gates of `_gate`.
use holon_bridge_python.Prelude.{
  ℕ, ◌-◌, min, String, List, [], ◌∷◌, Bool, true, false, Option, none, some, ok, err, if◌then◌else◌,
  leb,
}
use holon_bridge_python.Scheduler.Model.{
  Env, Persona, can, Task, active, required_class, Outcome, rejected_policy, rejected_capability,
  Source, scheduled, manual, FiringRecord, PolicyAnswer, policy, Subject, task_of, persona_of,
  firings_today,
}

-- The ledger of firings and the tasks, with what the scheduler keeps in memory.
pub record State : Type 0 where
  pub provenance : List FiringRecord
  pub tasks : List Task
  pub in_flight : List String
  pub fired_this_pass : List String
  pub firings : ℕ

-- What a firing meets: the clock, the personas, the policies' rows, and which queries answer.
pub record Desk : Type 0 where
  pub env : Env
  pub personas : List Persona
  pub policies : String → PolicyAnswer
  pub counts_answered : Subject → Bool
  -- whether the record, and then the task's last firing, can be written
  pub provenance_written : Bool
  pub last_fired_written : Bool
  pub max_depth : ℕ

pub data Gate : Type 0 where
  proceed : (allowance : Option ℕ) → Gate
  rejected : Outcome → Gate
  raised : Gate

pub record Check : Type 0 where
  pub subject : Subject
  pub policy_iri : String

abbrev pub checks_of : Task → Option Persona → List Check
checks_of t none = record { subject = task_of t.iri; policy_iri = t.policy_iri } ∷ []
checks_of t (some p) =
    record { subject = task_of t.iri; policy_iri = t.policy_iri }
    ∷ record { subject = persona_of p.iri; policy_iri = p.policy_iri }
    ∷ []

abbrev pub tightest : ℕ → Option ℕ → ℕ
tightest remaining none = remaining
tightest remaining (some a) = min a remaining

-- The loop over the task's policy and the persona's.
unfoldable pub check_limits : (desk : Desk) (s : State) → List Check → (allowance : Option ℕ) → Gate
check_limits desk s [] allowance = proceed allowance
check_limits desk s (c ∷ rest) allowance =
    let unlimited = check_limits desk s rest allowance in
    let count = firings_today c.subject desk.env.stamp.day s.provenance in
    let limited : ℕ → Gate =
      λ n. check_limits desk s rest (some (tightest (n - count) allowance)) in
    elim (policy desk.policies c.policy_iri) [
      | err _ ↦ rejected rejected_policy
      | ok none ↦ unlimited
      | ok (some n) ↦
          if desk.counts_answered c.subject
          then (if leb n count then rejected rejected_policy else limited n)
          else raised
    ]

abbrev pub persona_can : Desk → Task → Option Persona → Bool
persona_can desk t none = true
persona_can desk t (some p) = can p (required_class desk.env t)

abbrev pub is_scheduled : Source → Bool
is_scheduled scheduled = true
is_scheduled manual = false

unfoldable pub gate : Desk → State → Task → Option Persona → Source → Gate
gate desk s t persona source =
    if active t
    then (if persona_can desk t persona
        then (if is_scheduled source
            then check_limits desk s (checks_of t persona) none
            else proceed none)
        else rejected rejected_capability)
    else rejected rejected_policy
