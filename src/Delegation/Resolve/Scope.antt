-- ===== src/Delegation/Resolve/Scope.antt =====
-- What an `on_behalf_of` read may see.
use holon_bridge_python.Prelude.{
  ℕ, String, List, [], ◌∷◌, map, true, Option, none, some, ◌≡◌, ◌≢◌, ◌⊎◌, inr, ok, In, arith,
  eq_iff, &&-true, not-true, In-select, In-flat_map, contains, ◌==◌, not,
}
use holon_bridge_python.Rdf.{Graph, iri, ask, ask_any, value, objects}
use holon_bridge_python.Delegation.Request.{safe_iri}
use holon_bridge_python.Delegation.Lookup.{
  Clock, DelegationMatch, Row, holon, rdf_type, find_delegation, candidates, in_window,
}
use holon_bridge_python.Delegation.Lookup.Active.{IsActive, in_window-Window}
use holon_bridge_python.Delegation.Resolve.{
  ReadDelegation, covering, covered_rows, covered_graphs, only_name, choose, persona_names,
  resolve_read_delegation,
}

-- A graph that an active read delegation of the delegator under the Persona names.
pub record IsCovered (clock : Clock) (now : ℕ) (g : Graph)
    (delegate delegator persona graph : String) : Type 0 where
  pub row : Row
  pub candidate : In row (candidates g delegate "read")
  pub active : IsActive clock now g row
  pub by_delegator : value row.row_delegator ≡ delegator
  pub under_persona : value row.row_persona ≡ persona
  pub names_graph : In graph (map value (objects g row.d (holon "delegatedGraph")))

module _ (clock : Clock) (now : ℕ) (g : Graph) (delegate delegator persona : String) where
  covering-IsActive :
      (row : Row)
      → covering clock now g delegator persona row ≡ true
      → IsActive clock now g row
        × (value row.row_delegator ≡ delegator)
        × (value row.row_persona ≡ persona)
  unfolding covering
  covering-IsActive row h =
      let (whose, h1) = &&-true (value row.row_delegator == delegator) _ h in
      let (under, h2) = &&-true (value row.row_persona == persona) _ h1 in
      let (person, h3) = &&-true (ask g delegator rdf_type (iri (holon "Person"))) _ h2 in
      let (w, h4) = &&-true (in_window clock now row) _ h3 in
      let (unrevoked, standing) = &&-true (not (ask_any g row.d (holon "revokedAt"))) _ h4 in
      let (s, e, p, q, b, u) = in_window-Window clock now row w in
      let same = (eq_iff (value row.row_delegator) delegator).0 whose in
      (
        record {
          start = s;
          end = e;
          starts = p;
          ends = q;
          begun = b;
          unexpired = u;
          unrevoked = not-true _ unrevoked;
          person = rw same person;
          not_inactive = rw same (not-true _ standing);
        },
        same,
        (eq_iff _ _).0 under,
      )

  covered_rows-IsCovered :
      (graph : String)
      → In graph (covered_rows clock now g delegate delegator persona "read")
      → IsCovered clock now g delegate delegator persona graph
  unfolding covered_rows
  covered_rows-IsCovered graph h =
      let (row, chosen, named) = In-flat_map _ _ graph h in
      let (candidate, passes) = (In-select _ row _).0 chosen in
      let (active, whose, under) = covering-IsActive row passes in
      record {
        row = row;
        candidate = candidate;
        active = active;
        by_delegator = whose;
        under_persona = under;
        names_graph = named;
      }

  covered_graphs-eq-ok :
      (holons_graph : String) (graphs : List String)
      → covered_graphs clock now g holons_graph delegate delegator persona "read" ≡ ok graphs
      → graphs ≡ covered_rows clock now g delegate delegator persona "read"
  unfolding covered_graphs safe_iri
  covered_graphs-eq-ok holons_graph graphs h = ground arith

module _ (clock : Clock) (now : ℕ) (g : Graph) (holons_graph delegate delegator : String)
    (current : Option String) (persona_iri_of : String → String) where
  resolve-eq-ok :
      (r : ReadDelegation)
      → resolve_read_delegation clock now g holons_graph delegate delegator current persona_iri_of
        ≡ ok r
      → (ms : List DelegationMatch) × (find_delegation clock now g holons_graph delegate "read" none
            (some delegator)
          ≡ ok ms)
        × (choose current (persona_names ms) ≡ ok r.persona)
        × (covered_graphs clock now g holons_graph delegate delegator
              (persona_iri_of r.persona)
              "read"
            ≡ ok r.graphs)
        × (r.delegator ≡ delegator)
        × (r.graphs ≢ [])
  unfolding resolve_read_delegation
  resolve-eq-ok r h = ground arith

-- The delegate's own Persona if it is one of the names, or the only name.
abbrev pub IsChosen : Option String → List String → String → Type 0
IsChosen current names p = (current ≡ some p) × (contains p names ≡ true) ⊎ (names ≡ p ∷ [])

only_name-eq-ok : (names : List String) (p : String) → only_name names ≡ ok p → names ≡ p ∷ []
only_name-eq-ok [] p h = cc
only_name-eq-ok (n ∷ []) p h = cc
only_name-eq-ok (n ∷ m ∷ rest) p h = cc

choose-IsChosen :
    (current : Option String) (names : List String) (p : String)
    → choose current names ≡ ok p
    → IsChosen current names p
unfolding choose
choose-IsChosen none names p h = inr (only_name-eq-ok names p h)
choose-IsChosen (some c) names p h = ground (arith, only_name-eq-ok names p)

-- A read on behalf of another that is not refused reads as that delegator, under the caller's current
-- Persona if it was granted or the only one granted, and every graph that it may read is named by a
-- delegation that is active, comes from the delegator, is addressed to the caller and stands under
-- that Persona. There is at least one such graph.
pub resolve_read_delegation_scope :
    (clock : Clock) (now : ℕ) (g : Graph) (holons_graph delegate delegator : String)
    (current : Option String) (persona_iri_of : String → String) (r : ReadDelegation)
    → resolve_read_delegation clock now g holons_graph delegate delegator current persona_iri_of
      ≡ ok r
    → (r.delegator ≡ delegator)
      × (r.graphs ≢ [])
      × ((ms : List DelegationMatch) × (find_delegation clock now g holons_graph delegate "read"
              none
              (some delegator)
            ≡ ok ms)
          × IsChosen current (persona_names ms) r.persona)
      × ((graph : String)
          → In graph r.graphs
          → IsCovered clock now g delegate delegator (persona_iri_of r.persona) graph)
resolve_read_delegation_scope clock now g holons_graph delegate delegator current persona_iri_of r
      h =
    let (ms, found, chosen, covered, own, some_graph) =
      resolve-eq-ok clock now g holons_graph delegate delegator current persona_iri_of r h in
    let persona = persona_iri_of r.persona in
    let graphs =
      covered_graphs-eq-ok clock now g delegate delegator persona holons_graph r.graphs covered in
    (
      own,
      some_graph,
      (ms, found, choose-IsChosen current (persona_names ms) r.persona chosen),
      λ graph m.
          covered_rows-IsCovered clock now g delegate delegator persona graph (rw graphs at m),
    )
