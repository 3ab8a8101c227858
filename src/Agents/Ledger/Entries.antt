-- ===== src/Agents/Ledger/Entries.antt =====
-- What writing an audit entry leaves alone.
use holon_bridge_python.Prelude.{
  String, ◌≡◌, ◌≤◌, ◌++◌, [], ◌∷◌, Bool, true, false, count, count-append, arith,
}
use holon_bridge_python.Audit.Policy.{Outcome, should_record}
use holon_bridge_python.Agents.Model.{Call}
use holon_bridge_python.Agents.Ledger.{World, Env, Entry, Action, record_entry}

-- An audit entry changes neither calls nor the trace.
pub record_entry_keeps :
    (env : Env) (event : Action) (outcome : Outcome) (call : Call) (actor : String) (w : World)
    → ((record_entry env event outcome call actor w).1.calls ≡ w.calls)
      × ((record_entry env event outcome call actor w).1.trace ≡ w.trace)
unfolding record_entry
record_entry_keeps env event outcome call actor w = ground arith

-- Nor does it take any entry away.
pub record_entry_grows :
    (test : Entry → Bool) (env : Env) (event : Action) (outcome : Outcome) (call : Call)
    (actor : String) (w : World)
    → count test w.entries ≤ count test (record_entry env event outcome call actor w).1.entries
unfolding record_entry
record_entry_grows test env event outcome call actor w =
    let entry : Entry = record {
      event = event;
      outcome = outcome;
      call = call.id;
      digest = call.digest;
      actor = actor;
    } in
    ground (arith, count-append test w.entries (entry ∷ []))

-- An entry that is owed and went through is the last of the log.
pub record_entry_written :
    (env : Env) (event : Action) (outcome : Outcome) (call : Call) (actor : String) (w : World)
    → should_record env.level outcome true false ≡ true
    → (record_entry env event outcome call actor w).0 ≡ true
    → (record_entry env event outcome call actor w).1.entries
      ≡ w.entries
        ++ record {
          event = event;
          outcome = outcome;
          call = call.id;
          digest = call.digest;
          actor = actor;
        }
          ∷ []
unfolding record_entry
record_entry_written env event outcome call actor w owed went = ground (arith, owed, went)
