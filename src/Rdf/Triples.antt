-- ===== src/Rdf/Triples.antt =====
-- Triples of one named graph. Subjects and predicates are IRIs; an object is an IRI or a literal.
use holon_bridge_python.Prelude.{
  String, List, [], ◌∷◌, Bool, false, ◌&&◌, ◌==◌, any, if◌then◌else◌, flat_map,
}

pub data Term : Type 0 where
  iri : String → Term
  lit : String → Term

pub record Triple : Type 0 where
  pub subject : String
  pub predicate : String
  pub object : Term

abbrev pub Graph : Type 0
Graph = List Triple

abbrev pub term_eq : Term → Term → Bool
term_eq (iri a) (iri b) = a == b
term_eq (lit a) (lit b) = a == b
term_eq _ _ = false

-- `binding["value"]`
abbrev pub value : Term → String
value (iri s) = s
value (lit s) = s

abbrev pub matches_triple : String → String → Term → Triple → Bool
matches_triple s p o t = t.subject == s && (t.predicate == p && term_eq t.object o)

-- `ASK { <s> <p> o }`
abbrev pub ask : Graph → String → String → Term → Bool
ask g s p o = any (matches_triple s p o) g

-- `ASK { <s> <p> ?any }`
abbrev pub ask_any : Graph → String → String → Bool
ask_any g s p = any (λ t. t.subject == s && t.predicate == p) g

-- The bindings of `?o` in `<s> <p> ?o`.
abbrev pub objects : Graph → String → String → List Term
objects g s p = flat_map (λ t. if t.subject == s && t.predicate == p then t.object ∷ [] else []) g

-- The bindings of `?s` in `?s <p> o`.
abbrev pub subjects : Graph → String → Term → List String
subjects g p o =
    flat_map (λ t. if t.predicate == p && term_eq t.object o then t.subject ∷ [] else []) g
