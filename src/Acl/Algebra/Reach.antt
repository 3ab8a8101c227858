-- ===== src/Acl/Algebra/Reach.antt =====
-- The graph positions of rdflib's algebra, which `_collect` of holonbridge/acl.py looks for.
use holon_bridge_python.Prelude.{String, Bool, true, false, ◌≡◌, ◌≢◌, ◌⊎◌, In}
use holon_bridge_python.Acl.Algebra.{
  Node, uri, default_graph, nothing, leaf, many, comp, Nodes, no_nodes, node, Fields, no_fields,
  field, quads, Collector, field_of, Kind, graph_pattern, dataset, wholesale_single, wholesale_pair,
  load, modify, quad_data, other, kind_of,
}

-- The collector knows of a graph position: which graph it is, that it is the default graph, or that it
-- cannot be known.
abbrev pub Knows : Collector → Bool → Node → Type 0
Knows acc true (uri g) = In g acc.replace_refs
Knows acc false (uri g) = In g acc.refs
Knows acc w default_graph = acc.default_write ≡ true
Knows acc w nothing = acc.dynamic ≡ true
Knows acc w leaf = acc.dynamic ≡ true
Knows acc w (many ns) = acc.dynamic ≡ true
Knows acc w (comp name fs) = acc.dynamic ≡ true

abbrev pub Among : Node → Nodes → Type 0
Among t no_nodes = ⊥
Among t (node n ns) = (t ≡ n) ⊎ Among t ns

-- A value that is there: neither None nor empty.
abbrev pub IsGiven : Node → Type 0
IsGiven nothing = ⊥
IsGiven (many no_nodes) = ⊥
IsGiven (comp name no_fields) = ⊥
IsGiven _ = Unit {0}

-- A clause with triples outside any GRAPH, which are the default graph's.
abbrev pub HasTriples : Node → Type 0
HasTriples (comp name fs) = IsGiven (field_of fs "triples")
HasTriples _ = ⊥

-- The graph positions that a node has itself, wholesale or not; the default graph is one where triples or
-- a loaded document go there.
abbrev pub Own : Kind → Fields → Bool → Node → Type 0
Own graph_pattern fs w t = (w ≡ false) × (t ≡ field_of fs "term")
Own dataset fs w t =
    (w ≡ false) × (t ≢ nothing) × ((t ≡ field_of fs "default") ⊎ (t ≡ field_of fs "named"))
Own wholesale_single fs w t = (w ≡ true) × (t ≡ field_of fs "graphiri")
Own wholesale_pair fs w t =
    (w ≡ true) × ((ns : Nodes) × (field_of fs "graph" ≡ many ns) × Among t ns)
Own load fs w t =
    (w ≡ false) × (t ≢ nothing) × (t ≡ field_of fs "graphiri")
    ⊎ (w ≡ false) × (t ≡ default_graph) × (field_of fs "graphiri" ≡ nothing)
Own modify fs w t =
    (w ≡ false) × (t ≢ nothing) × (t ≡ field_of fs "withClause")
    ⊎ (w ≡ false)
      × (t ≡ default_graph)
      × (field_of fs "withClause" ≡ nothing)
      × (HasTriples (field_of fs "delete") ⊎ HasTriples (field_of fs "insert"))
Own quad_data fs w t = (w ≡ false) × (t ≡ default_graph) × (IsGiven (field_of fs "triples"))
Own other fs w t = ⊥

-- A graph position anywhere in the tree.
mutual
  pub data Reaches : Node → Bool → Node → Type 0 where
    own :
        (name : String) (fs : Fields) (w : Bool) (t : Node)
        → Own (kind_of name) fs w t
        → Reaches (comp name fs) w t
    below :
        (name : String) (fs : Fields) (w : Bool) (t : Node)
        → ReachesField fs w t
        → Reaches (comp name fs) w t
    listed : (ns : Nodes) (w : Bool) (t : Node) → ReachesItem ns w t → Reaches (many ns) w t

  pub data ReachesItem : Nodes → Bool → Node → Type 0 where
    first :
        (n : Node) (ns : Nodes) (w : Bool) (t : Node) → Reaches n w t → ReachesItem (node n ns) w t
    later :
        (n : Node) (ns : Nodes) (w : Bool) (t : Node)
        → ReachesItem ns w t
        → ReachesItem (node n ns) w t

  pub data ReachesField : Fields → Bool → Node → Type 0 where
    in_value :
        (k : String) (n : Node) (fs : Fields) (w : Bool) (t : Node)
        → Reaches n w t
        → ReachesField (field k n fs) w t
    in_quads :
        (gs : Nodes) (fs : Fields) (t : Node) → Among t gs → ReachesField (quads gs fs) false t
    after_value :
        (k : String) (n : Node) (fs : Fields) (w : Bool) (t : Node)
        → ReachesField fs w t
        → ReachesField (field k n fs) w t
    after_quads :
        (gs : Nodes) (fs : Fields) (w : Bool) (t : Node)
        → ReachesField fs w t
        → ReachesField (quads gs fs) w t

-- A LOAD anywhere in the tree.
mutual
  pub data Loads : Node → Type 0 where
    here : (name : String) (fs : Fields) → kind_of name ≡ load → Loads (comp name fs)
    within : (name : String) (fs : Fields) → LoadsField fs → Loads (comp name fs)
    among : (ns : Nodes) → LoadsItem ns → Loads (many ns)

  pub data LoadsItem : Nodes → Type 0 where
    at_first : (n : Node) (ns : Nodes) → Loads n → LoadsItem (node n ns)
    at_later : (n : Node) (ns : Nodes) → LoadsItem ns → LoadsItem (node n ns)

  pub data LoadsField : Fields → Type 0 where
    at_value : (k : String) (n : Node) (fs : Fields) → Loads n → LoadsField (field k n fs)
    past_value : (k : String) (n : Node) (fs : Fields) → LoadsField fs → LoadsField (field k n fs)
    past_quads : (gs : Nodes) (fs : Fields) → LoadsField fs → LoadsField (quads gs fs)
