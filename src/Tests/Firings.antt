-- ===== src/Tests/Firings.antt =====
-- Runs of the scheduler.
use holon_bridge_python.Prelude.{
  ◌≤◌, ◌<◌, [], ◌∷◌, true, false, some, ◌≡◌, inl, refl, ap, some-injective, arith, contains,
}
use holon_bridge_python.Prelude.Text.{strip}
use holon_bridge_python.Scheduler.Model.{
  unqualified, Task, active, can, required_class, sends_agent_calls, committed, billable, scheduled,
  FiringRecord, first_row, policy, task_of, firings_today,
}
use holon_bridge_python.Scheduler.Gates.{State, Desk, Check, gate, check_limits}
use holon_bridge_python.Scheduler.Firing.{
  Done, Action, persona_for, attempt, firing_of, run_firing, fire,
}
use holon_bridge_python.Scheduler.Firing.Limits.{used, IsModest, IsLimit}
use holon_bridge_python.Scheduler.Firing.Daily.{fire_within_limit}
use holon_bridge_python.Scheduler.Firing.Gated.{fire_gated, Permits}

abbrev task : Task
task = record {
  iri = "urn:task:1";
  action_class = "AgentCall";
  status = "Active";
  trigger_type = "TemporalTrigger";
  interval_seconds = 60;
  persona_iri = "urn:p";
  policy_iri = "urn:policy";
  maintenance = "agent-dispatch";
  last_fired = "";
}

-- One unit of three is used.
abbrev earlier : FiringRecord
earlier = record {
  task_iri = "urn:task:1";
  outcome = committed;
  fired_at = record { day = "2026-01-01"; text = "t0" };
  persona_iri = "urn:p";
  source = scheduled;
  units = 1;
}

abbrev state : State
state = record {
  provenance = earlier ∷ [];
  tasks = task ∷ [];
  in_flight = [];
  fired_this_pass = [];
  firings = 1;
}

abbrev desk : Desk
desk = record {
  env = record {
    stamp = record { day = "2026-01-01"; text = "t1" };
    reference = 100;
    parse = λ s. unqualified;
    lower = λ s. s;
  };
  personas = record { iri = "urn:p"; policy_iri = ""; capabilities = "AgentCall" ∷ [] } ∷ [];
  policies = λ s. first_row (some 3);
  counts_answered = λ s. true;
  provenance_written = true;
  last_fired_written = true;
  max_depth = 3;
}

-- An action that leaves the record's one unit, whatever its allowance.
abbrev housekeeping : Action
housekeeping t p a = some (record { outcome = committed; units = 1 })

housekeeping-IsModest : IsModest housekeeping
housekeeping-IsModest t p a d some_left done billed =
    let same = ap (λ (x : Done). x.units) (some-injective done) in omega arith

abbrev limit : Check
limit = record { subject = task_of "urn:task:1"; policy_iri = "urn:policy" }

task_limit : IsLimit desk task limit 3
unfolding policy persona_for
task_limit = (inl refl, refl)

used_before : used desk limit.subject state ≤ 3
unfolding firings_today billable
used_before = omega arith

fire_within_limit_example :
    used desk limit.subject (fire desk housekeeping task scheduled 0 state).1 ≤ 3
fire_within_limit_example =
    fire_within_limit desk housekeeping state task 0 limit 3 housekeeping-IsModest task_limit
      used_before

abbrev fired : FiringRecord
fired = record earlier { fired_at = record { day = "2026-01-01"; text = "t1" } }

task_fired : (fire desk housekeeping task scheduled 0 state).0 ≡ some fired
unfolding fire run_firing firing_of attempt gate check_limits policy firings_today billable active
    can required_class persona_for sends_agent_calls strip
task_fired = refl

fired_bills : billable fired.outcome ≡ true
unfolding billable
fired_bills = refl

fire_gated_example :
    (active task ≡ true)
    × (contains task.iri state.in_flight ≡ false)
    × (0 < desk.max_depth)
    × Permits desk task (persona_for desk.personas task)
fire_gated_example =
    fire_gated desk housekeeping state task scheduled 0 fired task_fired fired_bills
