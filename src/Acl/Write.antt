-- ===== src/Acl/Write.antt =====
-- When the write check allows a write.
use holon_bridge_python.Prelude.{
  ℕ, String, List, [], ◌∷◌, Bool, true, false, none, some, ◌≡◌, ◌↔◌, ◌⊎◌, inl, inr, sym, ◌∙◌, ok,
  In, refl, arith, ap, eq_iff, ◌==◌,
}
use mathlib.Core.Path.{subst}
use holon_bridge_python.Rdf.{Graph, iri, ask}
use holon_bridge_python.Audit.Naming.{is_audit_graph}
use holon_bridge_python.Delegation.Request.{Checked}
use holon_bridge_python.Delegation.Lookup.{
  Clock, DelegationMatch, Row, holon, find_delegation, to_match, candidates,
}
use holon_bridge_python.Delegation.Lookup.Active.{IsActive, Fits, find_delegation_iff}
use holon_bridge_python.Acl.{
  AclDecision, is_admin, grant_target, check_write, by_delegation, delegated_write,
}

-- An active delegation to the person that carries "write" and names the target graph.
pub record IsDelegated (clock : Clock) (now : ℕ) (g : Graph) (person target : String) : Type 0 where
  pub row : Row
  pub candidate : In row (candidates g person "write")
  pub active : IsActive clock now g row
  pub names_target : ask g row.d (holon "delegatedGraph") (iri target) ≡ true

first_match :
    (person : String) (ms : List DelegationMatch)
    → (by_delegation person ms).allowed ≡ true
    → (m : DelegationMatch) × In m ms
first_match person [] h = cc
first_match person (m ∷ ms) h = (m, inl refl)

some_match :
    (person : String) (ms : List DelegationMatch) (m : DelegationMatch)
    → In m ms
    → (by_delegation person ms).allowed ≡ true
some_match person [] m h = absurd h
some_match person (m ∷ ms) n h = refl

abbrev yes_answer : Checked Bool
yes_answer = ok true

abbrev no_answer : Checked Bool
no_answer = ok false

clash : yes_answer ≡ no_answer → ⊥
clash h = cc

tf : true ≡ false → ⊥
tf h = cc

same_target : {a b : String} → ◌≡◌ {A = Checked String} (ok a) (ok b) → a ≡ b
same_target h = cc

same_some : {a b : String} → some a ≡ some b → a ≡ b
same_some h = cc

module _ (clock : Clock) (now : ℕ) (g : Graph) (holons_graph person target : String) where
  delegated_write_iff :
      (dec : AclDecision)
      → delegated_write clock now g holons_graph person target ≡ ok dec
      → (dec.allowed ≡ true) ↔ IsDelegated clock now g person target
  delegated_write_iff dec h =
      let (ms, found, e) = delegated_write-eq-ok dec h in
      let inside =
        find_delegation_iff clock now g holons_graph person "write" (some target) none ms found in
      (
        λ allowed.
            let (m, here) =
              first_match person ms (ap (λ (d : AclDecision). d.allowed) e ∙ allowed) in
            let (row, candidate, active, fits, _) = (inside m).0 here in
            record {
              row = row;
              candidate = candidate;
              active = active;
              names_target = fits.covers target refl;
            },
        λ d.
            let fits : Fits g (some target) none d.row = record {
              covers = λ t k.
                  subst (λ x. ask g d.row.d (holon "delegatedGraph") (iri x) ≡ true) (same_some k)
                    d.names_target;
              from_delegator = λ p k. cc;
            } in
            let here = (inside (to_match d.row)).1 (d.row, d.candidate, d.active, fits, refl) in
            sym (ap (λ (d : AclDecision). d.allowed) e) ∙ some_match person ms _ here,
      )
    where
      delegated_write-eq-ok :
          (dec : AclDecision)
          → delegated_write clock now g holons_graph person target ≡ ok dec
          → (ms : List DelegationMatch) × (find_delegation clock now g holons_graph person "write"
                (some target)
                none
              ≡ ok ms)
            × (by_delegation person ms ≡ dec)
      delegated_write-eq-ok dec h = ground arith

  -- What a write that is not to an audit graph needs.
  pub data MayWrite : Type 0 where
    as_admin : is_admin g holons_graph person ≡ ok true → MayWrite
    by_grant :
        (graph : String)
        → grant_target holons_graph target ≡ ok graph
        → ask g graph (holon "grantsWrite") (iri person) ≡ true
        → MayWrite
    by_delegate :
        grant_target holons_graph target ≡ ok target
        → IsDelegated clock now g person target
        → MayWrite

  -- Where the person is no admin and holds no grant, only a delegation is left.
  only_delegation :
      (graph : String)
      → is_admin g holons_graph person ≡ ok false
      → grant_target holons_graph target ≡ ok graph
      → ask g graph (holon "grantsWrite") (iri person) ≡ false
      → MayWrite
      → IsDelegated clock now g person target
  only_delegation graph plain at ungranted (as_admin admin) = absurd (clash (sym admin ∙ plain))
  only_delegation graph plain at ungranted (by_grant other at' granted) = absurd (
      tf (
        sym granted
        ∙ ap (λ x. ask g x (holon "grantsWrite") (iri person)) (same_target (sym at' ∙ at))
        ∙ ungranted))
  only_delegation graph plain at ungranted (by_delegate _ d) = d

  no_way :
      (graph : String) {P : Type 0}
      → is_admin g holons_graph person ≡ ok false
      → grant_target holons_graph target ≡ ok graph
      → ask g graph (holon "grantsWrite") (iri person) ≡ false
      → (graph == target) ≡ false
      → MayWrite
      → P
  no_way graph plain at ungranted apart (as_admin admin) = absurd (clash (sym admin ∙ plain))
  no_way graph plain at ungranted apart (by_grant other at' granted) = absurd (
      tf (
        sym granted
        ∙ ap (λ x. ask g x (holon "grantsWrite") (iri person)) (same_target (sym at' ∙ at))
        ∙ ungranted))
  no_way graph plain at ungranted apart (by_delegate at' _) =
      absurd (tf (sym ((eq_iff _ _).1 (same_target (sym at ∙ at'))) ∙ apart))

  check_write-cases :
      (dec : AclDecision)
      → check_write clock now g holons_graph person target ≡ ok dec
      → (is_audit_graph target holons_graph ≡ some true) × (dec.allowed ≡ false)
        ⊎ (is_audit_graph target holons_graph ≡ some false)
          × (is_admin g holons_graph person ≡ ok true)
          × (dec.allowed ≡ true)
        ⊎ ((graph : String) × (is_audit_graph target holons_graph ≡ some false)
            × (is_admin g holons_graph person ≡ ok false)
            × (grant_target holons_graph target ≡ ok graph)
            × ((ask g graph (holon "grantsWrite") (iri person) ≡ true) × (dec.allowed ≡ true)
                ⊎ (ask g graph (holon "grantsWrite") (iri person) ≡ false)
                  × ((graph == target) ≡ false)
                  × (dec.allowed ≡ false)
                ⊎ (ask g graph (holon "grantsWrite") (iri person) ≡ false)
                  × ((graph == target) ≡ true)
                  × (delegated_write clock now g holons_graph person target ≡ ok dec)))
  unfolding check_write
  check_write-cases dec h = ground arith

  -- A write check that answers allows the write exactly when the graph is not an audit graph and the
  -- person is an admin, holds grantsWrite on the graph (on the scratch area, for a scratch graph), or
  -- is the delegate of an active write delegation that names the graph, which is no scratch graph.
  pub check_write_iff :
      (dec : AclDecision)
      → check_write clock now g holons_graph person target ≡ ok dec
      → (dec.allowed ≡ true) ↔ ((is_audit_graph target holons_graph ≡ some false) × MayWrite)
  check_write_iff dec h = elim (check_write-cases dec h) [
    | inl (audited, no_write) ↦ (λ yes_write. cc, λ (free, may). cc)
    | inr (inl (free, admin, allowed)) ↦ (λ _. (free, as_admin admin), λ _. allowed)
    | inr (inr (graph, free, plain, at, inl (granted, allowed))) ↦
        (λ _. (free, by_grant graph at granted), λ _. allowed)
    | inr (inr (graph, free, plain, at, inr (inl (ungranted, apart, refused)))) ↦
        (λ allowed. cc, λ (_, may). no_way graph plain at ungranted apart may)
    | inr (inr (graph, free, plain, at, inr (inr (ungranted, same, delegated)))) ↦
        let e = (eq_iff graph target).0 same in
        let inside = delegated_write_iff dec delegated in
        (
          λ allowed. (free, by_delegate (rw e at at) (inside.0 allowed)),
          λ (_, may). inside.1 (only_delegation graph plain at ungranted may),
        )
  ]
