-- ===== src/Delegation/Resolve.antt =====
-- `covered_graphs`, `resolve_read_delegation`, `revoke_update` and `revoke_all_update` of
-- holonbridge/delegation.py. A SPARQL Update is the function on the graph that it performs.
pub mod Scope
pub mod Revoked
use holon_bridge_python.Prelude.Text.{last_part}
use holon_bridge_python.Prelude.Sorting.{sort_on}
use holon_bridge_python.Prelude.{
  ℕ, String, List, [], ◌∷◌, ◌++◌, map, Bool, true, false, ◌&&◌, ◌||◌, not, Option, none, some, ◌==◌,
  ok, err, ◌>>=◌, if◌then◌else◌, select, flat_map, contains,
}
use holon_bridge_python.Rdf.{Term, iri, lit, Triple, Graph, value, ask, ask_any, objects, subjects}
use holon_bridge_python.Delegation.Request.{DelegationError, refused, ambiguous, Checked, safe_iri}
use holon_bridge_python.Delegation.Lookup.{
  Clock, holon, rdf_type, DelegationMatch, Row, rows_of, candidates, in_window, find_delegation,
}

-- The rows of the query that pass its three filters and name this delegator and Persona.
unfoldable pub covering : Clock → ℕ → Graph → (delegator persona : String) → Row → Bool
covering clock now g delegator persona row =
    value row.row_delegator == delegator
    && (value row.row_persona == persona
        && (ask g delegator rdf_type (iri (holon "Person"))
            && (in_window clock now row
                && (not (ask_any g row.d (holon "revokedAt"))
                    && not (ask g delegator (holon "status") (lit "inactive"))))))

unfoldable pub covered_rows :
    Clock → ℕ → Graph → (delegate delegator persona permission : String) → List String
covered_rows clock now g delegate delegator persona permission =
    flat_map (λ row. map value (objects g row.d (holon "delegatedGraph")))
      (select (covering clock now g delegator persona) (candidates g delegate permission))

unfoldable pub covered_graphs :
    Clock
    → ℕ
    → Graph
    → (holons_graph delegate delegator persona permission : String) → Checked (List String)
covered_graphs clock now g holons_graph delegate delegator persona permission = do
  graph_iri ← safe_iri holons_graph
  who ← safe_iri delegate
  whose ← safe_iri delegator
  persona_iri ← safe_iri persona
  ok (covered_rows clock now g who whose persona_iri permission)

pub record ReadDelegation : Type 0 where
  pub delegator : String
  pub persona : String
  pub graphs : List String

-- `{... for m in matches}`: each name once.
abbrev dedupe : List String → List String
dedupe [] = []
dedupe (x ∷ xs) = let rest = dedupe xs in if contains x rest then rest else x ∷ rest

-- `m.persona.rsplit(":", 1)[-1]`
unfoldable pub short_name : DelegationMatch → String
short_name m = last_part b':' m.persona

unfoldable pub persona_names : List DelegationMatch → List String
persona_names matches = sort_on (λ s. s) (dedupe (map short_name matches))

-- Which of the names the read uses.
abbrev only_name : List String → Checked String
only_name [] = err (ambiguous [])
only_name (n ∷ []) = ok n
only_name (n ∷ m ∷ rest) = err (ambiguous (n ∷ m ∷ rest))

unfoldable pub choose : Option String → List String → Checked String
choose current names = elim current [
  | some c ↦ if contains c names then ok c else only_name names
  | none ↦ only_name names
]

abbrev non_empty : {A : Type 0} → List A → DelegationError → Checked (List A)
non_empty [] e = err e
non_empty (x ∷ xs) e = ok (x ∷ xs)

unfoldable pub resolve_read_delegation :
    Clock
    → ℕ
    → Graph
    → (holons_graph delegate delegator : String) → (current_persona : Option String)
    → (persona_iri_of : String → String) → Checked ReadDelegation
resolve_read_delegation clock now g holons_graph delegate delegator current_persona persona_iri_of =
    do
      found ← find_delegation clock now g holons_graph delegate "read" none (some delegator)
      matches ← non_empty found refused
      chosen ← choose current_persona (persona_names matches)
      covered ←
          covered_graphs clock now g holons_graph delegate delegator (persona_iri_of chosen) "read"
      graphs ← non_empty covered refused
      ok (record { delegator = delegator; persona = chosen; graphs = graphs })

-- Stamps `revokedAt` once on a Delegation; a second revocation inserts nothing.
unfoldable pub stamp : Graph → (d when : String) → Graph
stamp g d when =
    if ask g d rdf_type (iri (holon "Delegation")) && not (ask_any g d (holon "revokedAt"))
    then record { subject = d; predicate = holon "revokedAt"; object = lit when } ∷ g
    else g

unfoldable pub revoke_update : Graph → (holons_graph d when : String) → Checked Graph
revoke_update g holons_graph d when = do
  graph_iri ← safe_iri holons_graph
  node ← safe_iri d
  ok (stamp g node when)

-- The solutions of the WHERE clause: live delegations that the person gave or received.
abbrev given_or_received : Graph → String → String → Bool
given_or_received g person d =
    (ask g d (holon "delegator") (iri person) || ask g d (holon "delegate") (iri person))
    && not (ask_any g d (holon "revokedAt"))

unfoldable pub revoke_all_update : Graph → (holons_graph person when : String) → Checked Graph
revoke_all_update g holons_graph person when = do
  graph_iri ← safe_iri holons_graph
  who ← safe_iri person
  ok (
      map (λ d. record { subject = d; predicate = holon "revokedAt"; object = lit when })
        (select (given_or_received g who) (subjects g rdf_type (iri (holon "Delegation"))))
      ++ g)
