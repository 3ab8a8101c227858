-- ===== src/Fluent/Race.antt =====
-- Transitions of one fluent, interleaved. `pending` lists the attempts that have read and not yet ended.
use holon_bridge_python.Prelude.{
  String, List, [], ◌∷◌, Option, none, some, Result, ok, err, find, ◌==◌,
}
use holon_bridge_python.Fluent.{
  OperationMode, Operation, FluentError, Input, Arithmetic, Store, Attempt, read_and_plan, commit,
}

-- The attempts that have read and not yet committed.
pub record System : Type 0 where
  pub store : Store
  pub pending : List Attempt

pub data Step : Type 0 where
  reads : Operation → Input → (iri : String) → Step
  commits : (iri : String) → Step

abbrev pub admitted : System → Result FluentError Attempt → System
admitted s (ok t) = record s { pending = t ∷ s.pending }
admitted s (err e) = s

abbrev pub committed : Arithmetic → System → Option Attempt → System
committed a s none = s
committed a s (some t) = record s { store = commit a t s.store }

unfoldable pub step : Arithmetic → OperationMode → Step → System → System
step a mode (reads operation v iri) s = admitted s (read_and_plan a mode operation v iri s.store)
step a mode (commits iri) s = committed a s (find (λ t. t.iri == iri) s.pending)

unfoldable pub run : Arithmetic → OperationMode → List Step → System → System
run a mode [] s = s
run a mode (x ∷ rest) s = run a mode rest (step a mode x s)

abbrev pub fresh : System
fresh = record {
  store = record { scene = record { value = none; assertion = none; items = [] }; ledger = [] };
  pending = [];
}
