-- ===== src/Agents/System/Moves.antt =====
-- Counts over calls and the trace, and how one change of the ledger moves them.
use holon_bridge_python.Prelude.{
  ℕ, zero, suc, ◌+◌, ◌≤◌, String, List, [], ◌∷◌, Bool, true, false, ◌&&◌, ◌||◌, Option, some, ◌≡◌,
  ◌⊎◌, inl, inr, refl, sym, ap, Bool-cases, Option-cases, arith, ◌==◌, eq_iff, if◌then◌else◌, any,
  count, find, In, Result, ok, err,
}
use holon_bridge_python.Agents.Model.{Call, CallStatus, approved, status_eq, is_one_of, Endpoint}
use holon_bridge_python.Agents.Ledger.{
  World, Env, Event, sent, approval, has_id, update_all, get, replace,
}
use holon_bridge_python.Agents.Service.{
  CallError, not_found, wrong_state, stale_sending, transition,
}
use holon_bridge_python.Agents.System.{nth, without}
use holon_bridge_python.Agents.System.Settling.{Ended}

abbrev pub is_waiting : String → Call → Bool
is_waiting id c = c.id == id && status_eq c.status approved

abbrev pub holds : String → List Call → Bool
holds id = any (is_waiting id)

-- 1 if a stored call of that id is approved.
abbrev pub waiting : String → List Call → ℕ
waiting id calls = if holds id calls then 1 else 0

abbrev pub flying : String → List Call → ℕ
flying id = count (has_id id)

abbrev pub is_sent : String → Event → Bool
is_sent id (sent call body) = call == id
is_sent id _ = false

abbrev pub is_approval : String → Event → Bool
is_approval id (approval call) = call == id
is_approval id _ = false

abbrev pub sends : String → List Event → ℕ
sends id = count (is_sent id)

abbrev pub approvals : String → List Event → ℕ
approvals id = count (is_approval id)

abbrev pub one_if : Bool → ℕ
one_if b = if b then 1 else 0

module _ (id : String) (changes : Call → Call) (keeps : (c : Call) → (changes c).id ≡ c.id) where
  pub holds-update_all_other :
      (other : String) (cs : List Call)
      → (id == other) ≡ false
      → holds other (update_all id changes cs) ≡ holds other cs
  holds-update_all_other other [] h = refl
  holds-update_all_other other (c ∷ cs) h = elim (Bool-cases (c.id == id)) [
    | inl e ↦ ground (
      arith,
      eq_iff c.id id,
      eq_iff id other,
      eq_iff c.id other,
      keeps c,
      eq_iff (changes c).id other,
      holds-update_all_other other cs h,
    )
    | inr e ↦ ground (arith, holds-update_all_other other cs h)
  ]

  pub holds-update_all_ended :
      ((c : Call) → status_eq (changes c).status approved ≡ false)
      → (cs : List Call) → holds id (update_all id changes cs) ≡ false
  holds-update_all_ended ends [] = refl
  holds-update_all_ended ends (c ∷ cs) = ground (arith, ends c, holds-update_all_ended ends cs)

-- A settled call waits no longer, and no other call's waiting changes.
pub waiting-Ended :
    {id : String} {w w' : World} (other : String)
    → Ended id w w'
    → waiting other w'.calls ≤ waiting other w.calls
waiting-Ended {id} {w} other e = rw e.calls_eq (elim (Bool-cases (id == other)) [
  | inl p ↦
      rw (← (eq_iff id other).0 p, holds-update_all_ended id e.changes e.keeps_id e.ends w.calls)
        (omega arith)
  | inr p ↦ rw (holds-update_all_other id e.changes e.keeps_id other w.calls p) (omega arith)
])

pub nth-split :
    (id : String) (n : ℕ) (l : List Call) (c : Call)
    → nth n l ≡ some c
    → flying id l ≡ flying id (without n l) + one_if (c.id == id)
nth-split id zero (x ∷ l) c h = ground arith
nth-split id (suc n) (x ∷ l) c h = ground (arith, nth-split id n l c h)
nth-split id zero [] c h = cc
nth-split id (suc n) [] c h = cc

pub find-In :
    (id : String) (cs : List Call) (c : Call)
    → find (has_id id) cs ≡ some c
    → In c cs × ((c.id == id) ≡ true)
find-In id [] c h = cc
find-In id (x ∷ cs) c h = elim (Bool-cases (x.id == id)) [
  | inl e ↦ let s : x ≡ c = ground arith in (inl (sym s), rw (← s) e)
  | inr e ↦
      let rest : find (has_id id) cs ≡ some c = ground arith in
      let r = find-In id cs c rest in (inr r.0, r.1)
]

pub holds_of_In :
    (id : String) (cs : List Call) (c : Call)
    → In c cs
    → (c.id == id) ≡ true
    → status_eq c.status approved ≡ true
    → holds id cs ≡ true
holds_of_In id (x ∷ cs) c (inl e) named is_approved = rw (← e) (ground arith)
holds_of_In id (x ∷ cs) c (inr m) named is_approved =
    ground (arith, holds_of_In id cs c m named is_approved)
holds_of_In id [] c m named is_approved = absurd m

-- A transition that raises leaves the world; one that goes through changes the stored call, which was
-- in a permitted status or a send that outlived its time.
pub record Moved (env : Env) (id : String) (endpoint : Option Endpoint)
    (permitted : List CallStatus) (changes : Call → Call) (w : World)
    (r : Result CallError Call × World) : Type 0 where
  pub stored : Call
  pub here : In stored w.calls
  pub named : stored.id ≡ id
  pub permits :
      (is_one_of stored.status permitted || stale_sending env stored endpoint permitted) ≡ true
  pub result : r ≡ (ok (changes stored), replace id changes w)

pub record Refused (w : World) (r : Result CallError Call × World) : Type 0 where
  pub why : CallError
  pub result : r ≡ (err why, w)

module _ (env : Env) (id : String) (endpoint : Option Endpoint) (permitted : List CallStatus)
    (changes : Call → Call) (w : World) where
  pub transition-cases :
      Moved env id endpoint permitted changes w (transition env id endpoint permitted changes w)
      ⊎ Refused w (transition env id endpoint permitted changes w)
  unfolding transition get
  transition-cases = elim (Option-cases (find (has_id id) w.calls)) [
    | inl none_found ↦ inr (record { why = not_found; result = rw none_found refl })
    | inr (c, found) ↦
        let (here, named) = find-In id w.calls c found in
        let same = (eq_iff c.id id).0 named in
        elim (Bool-cases (is_one_of c.status permitted || stale_sending env c endpoint permitted)) [
          | inl free ↦ inl (record {
            stored = c;
            here = here;
            named = same;
            permits = free;
            result = rw (found, free) (ap (λ i. (ok (changes c), replace i changes w)) same);
          })
          | inr shut ↦ inr (record { why = wrong_state c.status; result = rw (found, shut) refl })
        ]
  ]
