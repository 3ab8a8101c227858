-- ===== src/Tests/Built.antt =====
-- A run of a delegation from its building to its lookup.
use holon_bridge_python.Prelude.{
  String, List, [], ◌∷◌, ◌++◌, none, some, ◌≡◌, inl, refl, ok, In, arith,
}
use holon_bridge_python.Prelude.Sorting.{sort_by}
use holon_bridge_python.Rdf.{iri, Graph, lit}
use holon_bridge_python.Delegation.Request.{safe_iri}
use holon_bridge_python.Delegation.Lookup.{
  holon, rdf_type, parse_dt, DelegationMatch, find_delegation, live_matches, candidates, is_live,
  in_window,
}
use holon_bridge_python.Delegation.Build.{statements, build_delegation, safe_all}
use holon_bridge_python.Delegation.Build.Found.{build_delegation_found}
use holon_bridge_python.Tests.Samples.{clock, holons}

abbrev people : Graph
people = record { subject = "ann"; predicate = rdf_type; object = iri (holon "Person") } ∷ []

abbrev scene : List String
scene = "urn:d:scene" ∷ []

abbrev reading : List String
reading = "read" ∷ []

abbrev built : Graph
built =
    record { subject = "d9"; predicate = rdf_type; object = iri (holon "Delegation") }
    ∷ record { subject = "d9"; predicate = holon "delegator"; object = iri "ann" }
    ∷ record { subject = "d9"; predicate = holon "delegate"; object = iri "bob" }
    ∷ record { subject = "d9"; predicate = holon "delegatedPersona"; object = iri "urn:p" }
    ∷ record { subject = "d9"; predicate = holon "validFrom"; object = lit "0" }
    ∷ record { subject = "d9"; predicate = holon "validUntil"; object = lit "100" }
    ∷ record { subject = "d9"; predicate = holon "delegatedGraph"; object = iri "urn:d:scene" }
    ∷ record { subject = "d9"; predicate = holon "delegatedPermission"; object = lit "read" }
    ∷ []

made : build_delegation "d9" "ann" "bob" "urn:p" scene reading "0" "100" none ≡ ok built
unfolding build_delegation safe_iri safe_all statements
made = refl

abbrev by_d9 : DelegationMatch
by_d9 = record { delegation = "d9"; delegator = "ann"; persona = "urn:p" }

found :
    find_delegation clock 50 (built ++ people) holons "bob" "read" (some "urn:d:scene") (some "ann")
    ≡ ok (by_d9 ∷ [])
unfolding sort_by find_delegation safe_iri live_matches candidates is_live in_window parse_dt
found = refl

starts : parse_dt clock "0" ≡ some 0
unfolding parse_dt
starts = refl

ends : parse_dt clock "100" ≡ some 100
unfolding parse_dt
ends = refl

build_delegation_found_example : In by_d9 (by_d9 ∷ [])
build_delegation_found_example =
    build_delegation_found clock 50 "d9" "ann" "bob" "urn:p" "0" "100" scene reading none people
      built holons "read" "urn:d:scene" 0 100 (by_d9 ∷ []) made (inl refl) (inl refl) starts ends
      (omega arith) (omega arith) refl refl refl found
