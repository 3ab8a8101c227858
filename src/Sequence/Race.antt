-- ===== src/Sequence/Race.antt =====
-- Any number of minters on one counter, their operations interleaved in any order. An attempt is named
-- by its token; `fired` lists the updates that took effect, the latest first.
use holon_bridge_python.Prelude.{
  ℕ, suc, String, List, [], ◌∷◌, Bool, Option, none, some, ◌==◌, if◌then◌else◌, find,
}
use holon_bridge_python.Sequence.{Counter, read, guard_holds, compare_and_set, confirmed}

pub record Claim : Type 0 where
  pub token : String
  pub number : ℕ

pub record Race : Type 0 where
  pub counter : Counter
  -- attempts that have read, with the value read
  pub readers : List Claim
  -- attempts whose update was run, with the value they want
  pub updated : List Claim
  pub minted : List Claim
  pub fired : List Claim

abbrev pub by_token : String → Claim → Bool
by_token t c = c.token == t

-- Drops the first claim of the token.
abbrev pub drop_token : String → List Claim → List Claim
drop_token t [] = []
drop_token t (c ∷ cs) = let rest = drop_token t cs in if c.token == t then cs else c ∷ rest

pub data Step : Type 0 where
  reads updates confirms : (token : String) → Step

abbrev pub updated_by : Claim → Race → Race
updated_by c r = record r {
  counter = compare_and_set c.number c.token r.counter;
  readers = drop_token c.token r.readers;
  updated = record { token = c.token; number = suc c.number } ∷ r.updated;
  fired =
      if guard_holds c.number r.counter
      then record { token = c.token; number = suc c.number } ∷ r.fired
      else r.fired;
}

abbrev pub confirmed_by : Claim → Race → Race
confirmed_by c r = record r {
  updated = drop_token c.token r.updated;
  minted = if confirmed c.number c.token r.counter then c ∷ r.minted else r.minted;
}

abbrev pub updated_if : Option Claim → Race → Race
updated_if none r = r
updated_if (some c) r = updated_by c r

abbrev pub confirmed_if : Option Claim → Race → Race
confirmed_if none r = r
confirmed_if (some c) r = confirmed_by c r

unfoldable pub step : Step → Race → Race
step (reads t) r = record r { readers = record { token = t; number = read r.counter } ∷ r.readers }
step (updates t) r = updated_if (find (by_token t) r.readers) r
step (confirms t) r = confirmed_if (find (by_token t) r.updated) r

unfoldable pub run : List Step → Race → Race
run [] r = r
run (s ∷ rest) r = run rest (step s r)

abbrev pub start : Race
start = record {
  counter = record { value = none; token = none };
  readers = [];
  updated = [];
  minted = [];
  fired = [];
}
