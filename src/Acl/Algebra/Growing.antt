-- ===== src/Acl/Algebra/Growing.antt =====
-- What `_collect` of holonbridge/acl.py has seen, it keeps.
use holon_bridge_python.Prelude.{
  String, Bool, true, false, ◌∷◌, ◌≡◌, inl, inr, refl, if◌then◌else◌, In,
}
use holon_bridge_python.Acl.Algebra.{
  Node, uri, default_graph, nothing, leaf, many, comp, Nodes, no_nodes, node, Fields, no_fields,
  field, quads, Collector, term, field_of, term_if, term_each, terms_of, Kind, graph_pattern,
  dataset, wholesale_single, wholesale_pair, load, modify, quad_data, other, kind_of, visit,
  writes_default, is_nothing, quad_terms, collect, collect_nodes, collect_fields, truthy,
}
use holon_bridge_python.Acl.Algebra.Reach.{Knows}

-- What is known stays known.
pub record Grows (a b : Collector) : Type 0 where
  pub refs : (g : String) → In g a.refs → In g b.refs
  pub replace_refs : (g : String) → In g a.replace_refs → In g b.replace_refs
  pub dynamic : a.dynamic ≡ true → b.dynamic ≡ true
  pub default_write : a.default_write ≡ true → b.default_write ≡ true
  pub admin_ops : (op : String) → In op a.admin_ops → In op b.admin_ops

pub Grows-refl : (a : Collector) → Grows a a
Grows-refl a = record {
  refs = λ g h. h;
  replace_refs = λ g h. h;
  dynamic = λ h. h;
  default_write = λ h. h;
  admin_ops = λ op h. h;
}

pub Grows-trans : {a b c : Collector} → Grows a b → Grows b c → Grows a c
Grows-trans f g = record {
  refs = λ x h. g.refs x (f.refs x h);
  replace_refs = λ x h. g.replace_refs x (f.replace_refs x h);
  dynamic = λ h. g.dynamic (f.dynamic h);
  default_write = λ h. g.default_write (f.default_write h);
  admin_ops = λ op h. g.admin_ops op (f.admin_ops op h);
}

pub Knows-Grows : (a b : Collector) (w : Bool) (t : Node) → Grows a b → Knows a w t → Knows b w t
Knows-Grows a b true (uri g) f k = f.replace_refs g k
Knows-Grows a b false (uri g) f k = f.refs g k
Knows-Grows a b w default_graph f k = f.default_write k
Knows-Grows a b w nothing f k = f.dynamic k
Knows-Grows a b w leaf f k = f.dynamic k
Knows-Grows a b w (many ns) f k = f.dynamic k
Knows-Grows a b w (comp name fs) f k = f.dynamic k

pub term-Knows : (w : Bool) (t : Node) (a : Collector) → Knows (term w t a) w t
unfolding term
term-Knows true (uri g) a = inl refl
term-Knows false (uri g) a = inl refl
term-Knows w default_graph a = refl
term-Knows w nothing a = refl
term-Knows w leaf a = refl
term-Knows w (many ns) a = refl
term-Knows w (comp name fs) a = refl

pub term-Grows : (w : Bool) (t : Node) (a : Collector) → Grows a (term w t a)
unfolding term
term-Grows true (uri g) a = record {
  refs = λ x h. h;
  replace_refs = λ x h. inr h;
  dynamic = λ h. h;
  default_write = λ h. h;
  admin_ops = λ op h. h;
}
term-Grows false (uri g) a = record {
  refs = λ x h. inr h;
  replace_refs = λ x h. h;
  dynamic = λ h. h;
  default_write = λ h. h;
  admin_ops = λ op h. h;
}
term-Grows w default_graph a = record {
  refs = λ x h. h;
  replace_refs = λ x h. h;
  dynamic = λ h. h;
  default_write = λ h. refl;
  admin_ops = λ op h. h;
}
term-Grows w nothing a = record {
  refs = λ x h. h;
  replace_refs = λ x h. h;
  dynamic = λ h. refl;
  default_write = λ h. h;
  admin_ops = λ op h. h;
}
term-Grows w leaf a = record {
  refs = λ x h. h;
  replace_refs = λ x h. h;
  dynamic = λ h. refl;
  default_write = λ h. h;
  admin_ops = λ op h. h;
}
term-Grows w (many ns) a = record {
  refs = λ x h. h;
  replace_refs = λ x h. h;
  dynamic = λ h. refl;
  default_write = λ h. h;
  admin_ops = λ op h. h;
}
term-Grows w (comp name fs) a = record {
  refs = λ x h. h;
  replace_refs = λ x h. h;
  dynamic = λ h. refl;
  default_write = λ h. h;
  admin_ops = λ op h. h;
}

pub term_if-Grows : (t : Node) (a : Collector) → Grows a (term_if t a)
unfolding term_if
term_if-Grows nothing a = Grows-refl a
term_if-Grows (uri g) a = term-Grows false (uri g) a
term_if-Grows default_graph a = term-Grows false default_graph a
term_if-Grows leaf a = term-Grows false leaf a
term_if-Grows (many ns) a = term-Grows false (many ns) a
term_if-Grows (comp name fs) a = term-Grows false (comp name fs) a

pub term_each-Grows : (ns : Nodes) (a : Collector) → Grows a (term_each ns a)
unfolding term_each
term_each-Grows no_nodes a = Grows-refl a
term_each-Grows (node n ns) a =
    Grows-trans (term-Grows true n a) (term_each-Grows ns (term true n a))

pub quad_terms-Grows : (ns : Nodes) (a : Collector) → Grows a (quad_terms ns a)
unfolding quad_terms
quad_terms-Grows no_nodes a = Grows-refl a
quad_terms-Grows (node n ns) a =
    Grows-trans (term-Grows false n a) (quad_terms-Grows ns (term false n a))

blind : (a : Collector) → Grows a (record a { dynamic = true })
blind a = record {
  refs = λ x h. h;
  replace_refs = λ x h. h;
  dynamic = λ h. refl;
  default_write = λ h. h;
  admin_ops = λ op h. h;
}

pub marks : (a : Collector) → Grows a (record a { default_write = true })
marks a = record {
  refs = λ x h. h;
  replace_refs = λ x h. h;
  dynamic = λ h. h;
  default_write = λ h. refl;
  admin_ops = λ op h. h;
}

terms_of-Grows : (t : Node) (a : Collector) → Grows a (terms_of t a)
unfolding terms_of
terms_of-Grows nothing a = Grows-refl a
terms_of-Grows (many ns) a = term_each-Grows ns a
terms_of-Grows (uri g) a = blind a
terms_of-Grows default_graph a = blind a
terms_of-Grows leaf a = blind a
terms_of-Grows (comp name fs) a = blind a

pub if-Grows :
    (a b c : Collector) (test : Bool) → Grows a b → Grows a c → Grows a (if test then b else c)
if-Grows a b c true f g = f
if-Grows a b c false f g = g

pub loads : (a : Collector) → Grows a (record a { admin_ops = "LOAD" ∷ a.admin_ops })
loads a = record {
  refs = λ x h. h;
  replace_refs = λ x h. h;
  dynamic = λ h. h;
  default_write = λ h. h;
  admin_ops = λ op h. inr h;
}

pub visit-Grows : (k : Kind) (fs : Fields) (a : Collector) → Grows a (visit k fs a)
unfolding visit
visit-Grows graph_pattern fs a = term-Grows false (field_of fs "term") a
visit-Grows dataset fs a =
    Grows-trans (term_if-Grows (field_of fs "default") a)
      (term_if-Grows (field_of fs "named") (term_if (field_of fs "default") a))
visit-Grows wholesale_single fs a = term-Grows true (field_of fs "graphiri") a
visit-Grows wholesale_pair fs a = terms_of-Grows (field_of fs "graph") a
visit-Grows load fs a =
    let a' = record a { admin_ops = "LOAD" ∷ a.admin_ops } in
    Grows-trans (loads a) (
      if-Grows a' _ _ (is_nothing (field_of fs "graphiri")) (marks a')
        (term-Grows false (field_of fs "graphiri") a'))
visit-Grows modify fs a =
    let a' = term_if (field_of fs "withClause") a in
    Grows-trans (term_if-Grows (field_of fs "withClause") a)
      (if-Grows a' _ _ (writes_default fs) (marks a') (Grows-refl a'))
visit-Grows quad_data fs a =
    if-Grows a _ _ (truthy (field_of fs "triples")) (marks a) (Grows-refl a)
visit-Grows other fs a = Grows-refl a

mutual
  unfolding collect

  pub collect-Grows : (n : Node) (a : Collector) → Grows a (collect n a)
  collect-Grows (comp name fs) a =
      Grows-trans (visit-Grows (kind_of name) fs a)
        (collect_fields-Grows fs (visit (kind_of name) fs a))
  collect-Grows (many ns) a = collect_nodes-Grows ns a
  collect-Grows (uri g) a = Grows-refl a
  collect-Grows default_graph a = Grows-refl a
  collect-Grows nothing a = Grows-refl a
  collect-Grows leaf a = Grows-refl a

  pub collect_nodes-Grows : (ns : Nodes) (a : Collector) → Grows a (collect_nodes ns a)
  collect_nodes-Grows no_nodes a = Grows-refl a
  collect_nodes-Grows (node n ns) a =
      Grows-trans (collect-Grows n a) (collect_nodes-Grows ns (collect n a))

  pub collect_fields-Grows : (fs : Fields) (a : Collector) → Grows a (collect_fields fs a)
  collect_fields-Grows no_fields a = Grows-refl a
  collect_fields-Grows (field k n fs) a =
      Grows-trans (collect-Grows n a) (collect_fields-Grows fs (collect n a))
  collect_fields-Grows (quads gs fs) a =
      Grows-trans (quad_terms-Grows gs a) (collect_fields-Grows fs (quad_terms gs a))
