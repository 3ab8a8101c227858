-- ===== src/Agents/System.antt =====
-- Calls of one dataset under any interleaving: requests, decisions, claims and settlements by any number
-- of concurrent senders. `in_flight` holds the claimed call of each `send_call` that has not settled.
pub mod Settling
pub mod Moves
pub mod Coverage
pub mod AtMostOnce
pub mod Tracing
pub mod Provenance
pub mod Logged
use holon_bridge_python.Prelude.{
  ℕ, zero, suc, String, List, [], ◌∷◌, Option, none, some, Result, ok, err,
}
use holon_bridge_python.Agents.Model.{Call, Endpoint, Failure}
use holon_bridge_python.Agents.Ledger.{World, Env}
use holon_bridge_python.Agents.Service.{
  CallError, approve_call, reject_call, retry_call, claim_call, claim_and_fail,
}
use holon_bridge_python.Agents.Sending.{Outside, finish_send}
use holon_bridge_python.Agents.Request.{Desk, Order, request_call}

pub record System : Type 0 where
  pub world : World
  pub in_flight : List Call

pub data Step : Type 0 where
  -- with the ledger in which the request counted the open calls
  place : Desk → Order → Endpoint → (seen : World) → Step
  approve : Env → (call approver : String) → Step
  reject : Env → (call rejecter reason : String) → Step
  retry : Env → Endpoint → (call approver : String) → Step
  claim : Env → (call : String) → Step
  -- the n-th sender in flight goes on to its end
  finish : ℕ → Outside → Endpoint → Step
  refuse : Env → Failure → (call : String) → Step

abbrev pub nth : {A : Type 0} → ℕ → List A → Option A
nth n [] = none
nth zero (x ∷ xs) = some x
nth (suc n) (x ∷ xs) = nth n xs

abbrev pub without : {A : Type 0} → ℕ → List A → List A
without n [] = []
without zero (x ∷ xs) = xs
without (suc n) (x ∷ xs) = x ∷ without n xs

abbrev pub claimed : List Call → Result CallError Call × World → System
claimed flying (ok call, w) = record { world = w; in_flight = call ∷ flying }
claimed flying (err e, w) = record { world = w; in_flight = flying }

abbrev pub finished : ℕ → Outside → Endpoint → System → Option Call → System
finished n out endpoint s none = s
finished n out endpoint s (some call) = record {
  world = (finish_send out endpoint call s.world).1;
  in_flight = without n s.in_flight;
}

unfoldable pub run_step : Step → System → System
run_step (place desk order endpoint seen) s = record s {
  world = (request_call desk order endpoint seen s.world).1;
}
run_step (approve env call approver) s = record s {
  world = (approve_call env call approver s.world).1;
}
run_step (reject env call rejecter reason) s = record s {
  world = (reject_call env call rejecter reason s.world).1;
}
run_step (retry env endpoint call approver) s = record s {
  world = (retry_call env endpoint call approver s.world).1;
}
run_step (claim env call) s = claimed s.in_flight (claim_call env call s.world)
run_step (finish n out endpoint) s = finished n out endpoint s (nth n s.in_flight)
run_step (refuse env why call) s = record s { world = (claim_and_fail env why call s.world).1 }

unfoldable pub run : List Step → System → System
run [] s = s
run (step ∷ rest) s = run rest (run_step step s)

abbrev pub empty : System
empty = record {
  world = record { calls = []; candidates = []; entries = []; trace = [] };
  in_flight = [];
}
