-- ===== src/Delegation/Build.antt =====
-- `build_delegation` of holonbridge/delegation.py, as the triples of its Turtle. Two texts of instants
-- are what `_iso` makes. The order and repetition of graphs and permissions do not matter to a graph.
pub mod Membership
pub mod Statements
pub mod Found
use Prim.Native.String
use holon_bridge_python.Prelude.{
  ℕ, ◌+◌, String, List, [], ◌∷◌, ◌++◌, map, Bool, true, false, ◌==◌, Option, none, some, ok, err,
  ◌>>=◌, ◌>>◌, require, all, contains, leb, if◌then◌else◌,
}
use holon_bridge_python.Rdf.{iri, lit, Triple, Graph}
use holon_bridge_python.Delegation.Request.{
  Checked, permissions_allowed, safe_iri, unsupported_permission, note_too_long,
}
use holon_bridge_python.Delegation.Lookup.{holon, rdf_type}

abbrev text_length : String → ℕ
text_length String.[] = 0
text_length (String.◌∷◌ c s) = text_length s + 1

abbrev note_fits : Option String → Bool
note_fits none = true
note_fits (some s) = leb (text_length s) 500

abbrev pub comments : String → Option String → Graph
comments d none = []
comments d (some s) =
    if s == ""
    then []
    else record {
      subject = d;
      predicate = "http://www.w3.org/2000/01/rdf-schema#comment";
      object = lit s;
    }
      ∷ []

unfoldable pub safe_all : List String → Checked (List String)
safe_all [] = ok []
safe_all (g ∷ rest) = do first ← safe_iri g; others ← safe_all rest; ok (first ∷ others)

abbrev pub of_graph : (d graph : String) → Triple
of_graph d graph = record { subject = d; predicate = holon "delegatedGraph"; object = iri graph }

abbrev pub of_permission : (d permission : String) → Triple
of_permission d permission = record {
  subject = d;
  predicate = holon "delegatedPermission";
  object = lit permission;
}

-- The triples of one Delegation.
unfoldable pub statements :
    (d delegator delegate persona : String) (graphs permissions : List String) (from until : String)
    (remark : Option String)
    → Graph
statements d delegator delegate persona graphs permissions from until remark =
    record { subject = d; predicate = rdf_type; object = iri (holon "Delegation") }
      ∷ record { subject = d; predicate = holon "delegator"; object = iri delegator }
      ∷ record { subject = d; predicate = holon "delegate"; object = iri delegate }
      ∷ record { subject = d; predicate = holon "delegatedPersona"; object = iri persona }
      ∷ record { subject = d; predicate = holon "validFrom"; object = lit from }
      ∷ record { subject = d; predicate = holon "validUntil"; object = lit until }
      ∷ map (of_graph d) graphs
    ++ (map (of_permission d) permissions ++ comments d remark)

unfoldable pub build_delegation :
    (d delegator delegate persona : String) (graphs permissions : List String) (from until : String)
    (remark : Option String)
    → Checked Graph
build_delegation d delegator delegate persona graphs permissions from until remark = do
  node ← safe_iri d
  whose ← safe_iri delegator
  who ← safe_iri delegate
  role ← safe_iri persona
  covered ← safe_all graphs
  require (all (λ p. contains p permissions_allowed) permissions) unsupported_permission
  require (note_fits remark) note_too_long
  ok (statements node whose who role covered permissions from until remark)
