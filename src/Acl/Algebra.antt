-- ===== src/Acl/Algebra.antt =====
-- How a SPARQL query or update can reach a graph (`_collect`, `analyse_graph_refs`,
-- holonbridge/acl.py), on the algebra that rdflib makes of its text.
pub mod Reach
pub mod Growing
pub mod Covered
use holon_bridge_python.Prelude.{
  String, ℕ, Bool, true, false, Option, none, some, List, [], ◌∷◌, ◌++◌, map, ◌==◌, ◌&&◌, ◌||◌, not,
  if◌then◌else◌,
}

-- A value in rdflib's algebra. `nothing` is `None`, `default_graph` the text "DEFAULT", `leaf` any other
-- value that is neither a list, a tuple nor a dictionary, such as a variable. A dictionary has a name or
-- the empty text. The tree is unrolled where Python shares a value, which `seen` visits once.
mutual
  pub data Node : Type 0 where
    uri : String → Node
    default_graph nothing leaf : Node
    many : Nodes → Node
    comp : String → Fields → Node

  pub data Nodes : Type 0 where
    no_nodes : Nodes
    node : Node → Nodes → Nodes

  -- `quads` is the entry of that key where its value is a dictionary: the dictionary's keys.
  pub data Fields : Type 0 where
    no_fields : Fields
    field : String → Node → Fields → Fields
    quads : Nodes → Fields → Fields

-- `_Collector`, with its sets as lists
pub record Collector : Type 0 where
  pub refs : List String
  pub replace_refs : List String
  pub dynamic : Bool
  pub default_write : Bool
  pub admin_ops : List String

unfoldable pub term : Bool → Node → Collector → Collector
term true (uri g) acc = record acc { replace_refs = g ∷ acc.replace_refs }
term false (uri g) acc = record acc { refs = g ∷ acc.refs }
term wholesale default_graph acc = record acc { default_write = true }
term wholesale nothing acc = record acc { dynamic = true }
term wholesale leaf acc = record acc { dynamic = true }
term wholesale (many ns) acc = record acc { dynamic = true }
term wholesale (comp name fs) acc = record acc { dynamic = true }

-- `_field`
unfoldable pub field_of : Fields → String → Node
field_of no_fields key = nothing
field_of (field k value fs) key = let rest = field_of fs key in if k == key then value else rest
field_of (quads graphs fs) key =
    let rest = field_of fs key in if "quads" == key then comp "" no_fields else rest

unfoldable pub term_if : Node → Collector → Collector
unfolding term
term_if nothing acc = acc
term_if value acc = term false value acc

unfoldable pub term_each : Nodes → Collector → Collector
unfolding term
term_each no_nodes acc = acc
term_each (node n ns) acc = term_each ns (term true n acc)

-- `for graph in _field(node, "graph") or []`
unfoldable pub terms_of : Node → Collector → Collector
unfolding term_each
terms_of nothing acc = acc
terms_of (many ns) acc = term_each ns acc
terms_of _ acc = record acc { dynamic = true }

unfoldable pub truthy : Node → Bool
truthy nothing = false
truthy (many no_nodes) = false
truthy (comp name no_fields) = false
truthy _ = true

is_nothing : Node → Bool
is_nothing nothing = true
is_nothing _ = false

clause_triples : Node → Bool
unfolding field_of truthy
clause_triples (comp name fs) = truthy (field_of fs "triples")
clause_triples _ = false

-- The nodes that name graphs, by what `_collect` does with them.
pub data Kind : Type 0 where
  graph_pattern dataset wholesale_single wholesale_pair load modify quad_data other : Kind

abbrev is_one_of_three : String → String → String → String → Bool
is_one_of_three s a b c = s == a || s == b || s == c

unfoldable pub kind_of : String → Kind
kind_of name =
    if is_one_of_three name "Graph" "GraphGraphPattern" "ServiceGraphPattern"
    then graph_pattern
    else if name == "DatasetClause" || name == "UsingClause"
    then dataset
    else if is_one_of_three name "Drop" "Clear" "Create"
    then wholesale_single
    else if is_one_of_three name "Copy" "Move" "Add"
    then wholesale_pair
    else if name == "Load"
    then load
    else if name == "Modify"
    then modify
    else if is_one_of_three name "InsertData" "DeleteData" "DeleteWhere"
    then quad_data
    else other

visit_load : Fields → Collector → Collector
unfolding term field_of is_nothing
visit_load fs acc =
    let acc' = record acc { admin_ops = "LOAD" ∷ acc.admin_ops } in
    let target = field_of fs "graphiri" in
    if is_nothing target then record acc' { default_write = true } else term false target acc'

writes_default : Fields → Bool
unfolding clause_triples field_of is_nothing
writes_default fs =
    is_nothing (field_of fs "withClause")
    && (clause_triples (field_of fs "delete") || clause_triples (field_of fs "insert"))

visit_modify : Fields → Collector → Collector
unfolding term_if field_of writes_default
visit_modify fs acc =
    let acc' = term_if (field_of fs "withClause") acc in
    if writes_default fs then record acc' { default_write = true } else acc'

update_data : Fields → Collector → Collector
unfolding field_of truthy
update_data fs acc =
    if truthy (field_of fs "triples") then record acc { default_write = true } else acc

-- What a node itself reaches.
unfoldable pub visit : Kind → Fields → Collector → Collector
unfolding term term_if terms_of field_of visit_load visit_modify update_data
visit graph_pattern fs acc = term false (field_of fs "term") acc
visit dataset fs acc = term_if (field_of fs "named") (term_if (field_of fs "default") acc)
visit wholesale_single fs acc = term true (field_of fs "graphiri") acc
visit wholesale_pair fs acc = terms_of (field_of fs "graph") acc
visit load fs acc = visit_load fs acc
visit modify fs acc = visit_modify fs acc
visit quad_data fs acc = update_data fs acc
visit other fs acc = acc

unfoldable pub quad_terms : Nodes → Collector → Collector
unfolding term
quad_terms no_nodes acc = acc
quad_terms (node n ns) acc = quad_terms ns (term false n acc)

-- `_collect`
unfoldable mutual
  unfolding visit kind_of quad_terms

  pub collect : Node → Collector → Collector
  collect (comp name fs) acc = collect_fields fs (visit (kind_of name) fs acc)
  collect (many ns) acc = collect_nodes ns acc
  collect (uri g) acc = acc
  collect default_graph acc = acc
  collect nothing acc = acc
  collect leaf acc = acc

  pub collect_nodes : Nodes → Collector → Collector
  collect_nodes no_nodes acc = acc
  collect_nodes (node n ns) acc = collect_nodes ns (collect n acc)

  pub collect_fields : Fields → Collector → Collector
  collect_fields no_fields acc = acc
  collect_fields (field key value fs) acc = collect_fields fs (collect value acc)
  collect_fields (quads graphs fs) acc = collect_fields fs (quad_terms graphs acc)

unfoldable pub fresh_collector : Collector
fresh_collector = record {
  refs = [];
  replace_refs = [];
  dynamic = false;
  default_write = false;
  admin_ops = [];
}
