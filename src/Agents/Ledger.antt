-- ===== src/Agents/Ledger.antt =====
-- holonbridge/agents/ledger.py, agents/audit.py and what else a call touches: the state of one dataset.
--
-- The ledger graph holds one node per call and is a list of calls. `replace` names the attributes that
-- an update sets by a function on the call. `trace` is what an observer sees, in order: calls placed
-- with their body, approvals given, and requests that leave.
pub mod Entries
use holon_bridge_python.Prelude.{
  ℕ, suc, String, List, [], ◌∷◌, ◌++◌, map, Bool, true, false, ◌&&◌, ◌||◌, not, Option, none, some,
  ◌==◌, Result, ok, err, if◌then◌else◌, given, find, select, count, take,
}
use holon_bridge_python.Prelude.Sorting.{sort_by}
use holon_bridge_python.Prelude.Text.{text_lt}
use holon_bridge_python.Audit.Policy.{AuditLevel, Outcome, should_record}
use holon_bridge_python.Agents.Model.{Call, CallStatus, status_eq, is_open}

pub data Event : Type 0 where
  placed sent : (call body : String) → Event
  approval : (call : String) → Event

pub data Action : Type 0 where
  placed approved rejected send result dispatch_refused : Action

-- The fields of an audit entry that differ between the entries of one call.
pub record Entry : Type 0 where
  pub event : Action
  pub outcome : Outcome
  pub call : String
  pub digest : String
  pub actor : String

pub record Candidate : Type 0 where
  pub iri : String
  pub call : String
  pub target_graph : String
  pub turtle : String

pub record World : Type 0 where
  pub calls : List Call
  pub candidates : List Candidate
  pub entries : List Entry
  pub trace : List Event

abbrev pub has_id : String → Call → Bool
has_id id c = c.id == id

-- `CallStore.put`
unfoldable pub put : Call → World → World
put call w = record w { calls = call ∷ w.calls }

abbrev pub update_all : String → (Call → Call) → List Call → List Call
update_all id changes [] = []
update_all id changes (c ∷ cs) = (if c.id == id then changes c else c) ∷ update_all id changes cs

-- `CallStore.replace`: the stored call takes the changes.
unfoldable pub replace : String → (Call → Call) → World → World
replace id changes w = record w { calls = update_all id changes w.calls }

-- `CallStore.get`
unfoldable pub get : String → World → Option Call
get id w = find (has_id id) w.calls

abbrev status_fits : Option CallStatus → Call → Bool
status_fits none c = true
status_fits (some s) c = status_eq c.status s

abbrev endpoint_fits : Option String → Call → Bool
endpoint_fits none c = true
endpoint_fits (some e) c = c.endpoint_id == e

-- `sort(key=(requested_at, id), reverse=True)`
abbrev newer : Call → Call → Bool
newer a b =
    text_lt b.requested_at a.requested_at || (a.requested_at == b.requested_at && text_lt b.id a.id)

-- `CallStore.list_calls`
unfoldable pub list_calls : Option CallStatus → Option String → ℕ → World → List Call
list_calls status endpoint limit w =
    take limit
      (sort_by newer (select (λ c. status_fits status c && endpoint_fits endpoint c) w.calls))

-- `CallStore.open_count`
unfoldable pub open_count : String → World → ℕ
unfolding is_open
open_count endpoint_id w = count (λ c. c.endpoint_id == endpoint_id && is_open c) w.calls

-- `CallStore.open_call_exists`
unfoldable pub open_call_exists : (trigger focus : String) → World → Bool
open_call_exists trigger focus w =
    elim (find (λ c. c.via_trigger == trigger && (c.focus == focus && is_open c)) w.calls) [
      | none ↦ false
      | some _ ↦ true
    ]

-- What the outside world answers in one run of an operation: the audit level in force, whether an
-- entry can be written, the clock, `datetime.fromisoformat` (seconds, and whether there is a time zone).
pub record Env : Type 0 where
  pub level : AuditLevel
  pub writable : Entry → Bool
  pub now : String
  pub instant : ℕ
  pub fromisoformat : String → Option (ℕ × Bool)

-- `agents.audit.record`: an entry that the level does not ask for is not owed.
unfoldable pub record_entry :
    Env → Action → Outcome → Call → (actor : String) → World → Bool × World
record_entry env event outcome call actor w =
    let entry : Entry = record {
      event = event;
      outcome = outcome;
      call = call.id;
      digest = call.digest;
      actor = actor;
    } in
    if not (should_record env.level outcome true false)
    then (true, w)
    else if env.writable entry
    then (true, record w { entries = w.entries ++ entry ∷ [] })
    else (false, w)

abbrev pub emit : Event → World → World
emit e w = record w { trace = w.trace ++ e ∷ [] }
