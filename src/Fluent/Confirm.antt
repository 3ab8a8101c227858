-- ===== src/Fluent/Confirm.antt =====
-- The confirmation of a transition by its own ledger entry.
use holon_bridge_python.Prelude.{
  String, List, [], ◌∷◌, none, some, ◌≡◌, ◌≢◌, inl, inr, refl, ◌∙◌, arith, Bool-cases, In, ◌==◌,
  eq_iff, eq_refl, if◌then◌else◌,
}
use holon_bridge_python.Fluent.{Arithmetic, Store, guard_holds, Attempt, commit, confirm}

-- Later commits, one after another.
abbrev pub commit_all : Arithmetic → List Attempt → Store → Store
commit_all a [] store = store
commit_all a (u ∷ later) store = commit_all a later (commit a u store)

confirm-commit :
    (a : Arithmetic) (t : Attempt) (store : Store)
    → confirm t.iri store ≡ none
    → confirm t.iri (commit a t store)
      ≡ (if guard_holds a t.planned.guard store.scene then some t.planned.new_value else none)
unfolding confirm commit
confirm-commit a t store fresh = elim (Bool-cases (guard_holds a t.planned.guard store.scene)) [
  | inl e ↦ ground (arith, e, eq_refl t.iri)
  | inr e ↦ rw e fresh
]

-- Another's commit does not touch the entry.
confirm_kept :
    (a : Arithmetic) (iri : String) (u : Attempt) (store : Store)
    → u.iri ≢ iri
    → confirm iri (commit a u store) ≡ confirm iri store
unfolding confirm commit
confirm_kept a iri u store other = elim (Bool-cases (guard_holds a u.planned.guard store.scene)) [
  | inr e ↦ rw e refl
  | inl e ↦ elim (Bool-cases (u.iri == iri)) [
    | inl same ↦ absurd (other ((eq_iff u.iri iri).0 same))
    | inr d ↦ ground (arith, e, d)
  ]
]

all_kept :
    (a : Arithmetic) (iri : String) (later : List Attempt) (store : Store)
    → ((u : Attempt) → In u later → u.iri ≢ iri)
    → confirm iri (commit_all a later store) ≡ confirm iri store
all_kept a iri [] store other = refl
all_kept a iri (u ∷ later) store other =
    all_kept a iri later (commit a u store) (λ x m. other x (inr m))
    ∙ confirm_kept a iri u store (other u (inl refl))

-- An attempt under a fresh IRI is confirmed exactly when its guard held at its commit, and then with
-- its own new value, whatever attempts under other IRIs commit before the confirmation is read.
pub confirm_own :
    (a : Arithmetic) (t : Attempt) (later : List Attempt) (store : Store)
    → confirm t.iri store ≡ none
    → ((u : Attempt) → In u later → u.iri ≢ t.iri)
    → confirm t.iri (commit_all a later (commit a t store))
      ≡ (if guard_holds a t.planned.guard store.scene then some t.planned.new_value else none)
confirm_own a t later store fresh other =
    all_kept a t.iri later (commit a t store) other ∙ confirm-commit a t store fresh
