-- ===== src/Scheduler/Model.antt =====
-- holonbridge/scheduler/model.py and holonbridge/scheduler/store.py: tasks, policies, and the ledger of
-- firings.
use holon_bridge_python.Prelude.{
  ℕ, ◌+◌, max, String, List, [], ◌∷◌, Bool, true, false, ◌&&◌, ◌||◌, not, Option, none, some, ◌==◌,
  Result, ok, err, require, ◌>>◌, if◌then◌else◌, leb, contains,
}
use holon_bridge_python.Prelude.Text.{strip}

pub record Stamp : Type 0 where
  pub day : String
  pub text : String

-- What `datetime.fromisoformat` makes of a text.
pub data Parsed : Type 0 where
  unreadable unqualified : Parsed
  at : (seconds : ℕ) → Parsed

pub record Env : Type 0 where
  pub stamp : Stamp
  pub reference : ℕ
  pub parse : String → Parsed
  pub lower : String → String

abbrev pub agent_dispatch_jobs : List String
agent_dispatch_jobs = "agent-dispatch" ∷ "dispatch-agent-calls" ∷ []

abbrev pub agent_call : String
agent_call = "AgentCall"

abbrev pub action_classes : List String
action_classes = "ReadOnlyQuery" ∷ "GraphWrite" ∷ "LLMInvocation" ∷ agent_call ∷ []

abbrev pub task_statuses : List String
task_statuses = "Active" ∷ "Suspended" ∷ "Deprecated" ∷ []

abbrev pub trigger_temporal : String
trigger_temporal = "TemporalTrigger"

pub record Persona : Type 0 where
  pub iri : String
  pub policy_iri : String
  pub capabilities : List String

unfoldable pub can : Persona → String → Bool
can p action_class = contains action_class p.capabilities

pub record Task : Type 0 where
  pub iri : String
  pub action_class : String
  pub status : String
  pub trigger_type : String
  pub interval_seconds : ℕ
  pub persona_iri : String
  pub policy_iri : String
  pub maintenance : String
  pub last_fired : String

unfoldable pub active : Task → Bool
active t = t.status == "Active"

unfoldable pub sends_agent_calls : Env → Task → Bool
sends_agent_calls env t =
    not (t.maintenance == "") && contains (env.lower (strip t.maintenance)) agent_dispatch_jobs

unfoldable pub required_class : Env → Task → String
required_class env t = if sends_agent_calls env t then agent_call else t.action_class

abbrev pub elapsed : Env → Task → Parsed → Bool
elapsed env t unreadable = true
elapsed env t unqualified = true
elapsed env t (at last) = leb (last + max t.interval_seconds 1) env.reference

unfoldable pub due : Env → Task → Bool
due env t =
    (active t && t.trigger_type == trigger_temporal)
    && (t.last_fired == "" || elapsed env t (env.parse t.last_fired))

pub data FieldError : Type 0 where
  bad_action_class bad_status bad_interval : FieldError

unfoldable pub validate_task_fields :
    (action_class status : String) (interval_seconds : ℕ) → Result FieldError (Unit {0})
validate_task_fields action_class status interval_seconds = do
  require (contains action_class action_classes) bad_action_class
  require (contains status task_statuses) bad_status
  require (leb 1 interval_seconds) bad_interval

pub data Outcome : Type 0 where
  committed read_only deferred quarantined failed rejected_policy rejected_capability : Outcome

pub data Source : Type 0 where
  scheduled manual : Source

pub record FiringRecord : Type 0 where
  pub task_iri : String
  pub outcome : Outcome
  pub fired_at : Stamp
  pub persona_iri : String
  pub source : Source
  pub units : ℕ

-- A policy's rows: the first row's count, `none` when it is no integer. A negative count, which no use
-- is below, stands as 0.
pub data PolicyAnswer : Type 0 where
  query_failed no_rows : PolicyAnswer
  first_row : (count : Option ℕ) → PolicyAnswer

pub data PolicyUnresolvable : Type 0 where
  policy_unresolvable : PolicyUnresolvable

abbrev pub policy_of : PolicyAnswer → Result PolicyUnresolvable (Option ℕ)
policy_of query_failed = err policy_unresolvable
policy_of no_rows = err policy_unresolvable
policy_of (first_row none) = err policy_unresolvable
policy_of (first_row (some n)) = ok (some n)

-- `policy`: no IRI is no limit.
unfoldable pub policy : (String → PolicyAnswer) → String → Result PolicyUnresolvable (Option ℕ)
policy answers iri = if iri == "" then ok none else policy_of (answers iri)

pub data Subject : Type 0 where
  task_of persona_of : (iri : String) → Subject

abbrev pub is_of : Subject → FiringRecord → Bool
is_of (task_of iri) r = r.task_iri == iri
is_of (persona_of iri) r = not (r.persona_iri == "") && r.persona_iri == iri

unfoldable pub billable : Outcome → Bool
billable committed = true
billable read_only = true
billable _ = false

abbrev pub units_for : Subject → String → FiringRecord → ℕ
units_for subject day r =
    if is_of subject r && (r.fired_at.day == day && billable r.outcome) then r.units else 0

-- `firings_today`
unfoldable pub firings_today : Subject → (day : String) → List FiringRecord → ℕ
firings_today subject day [] = 0
firings_today subject day (r ∷ rest) = units_for subject day r + firings_today subject day rest
