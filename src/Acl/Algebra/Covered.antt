-- ===== src/Acl/Algebra/Covered.antt =====
-- Nothing that reaches a graph escapes the walk (`_collect`, holonbridge/acl.py).
use holon_bridge_python.Prelude.{
  Bool, true, false, ◌∷◌, In, ◌⊎◌, arith, ◌≡◌, ◌≢◌, inl, inr, refl, sym, ◌∙◌, if◌then◌else◌,
}
use mathlib.Core.Path.{subst}
use holon_bridge_python.Acl.Algebra.{
  Node, uri, default_graph, nothing, leaf, many, comp, Nodes, no_nodes, node, Fields, no_fields,
  field, quads, truthy, clause_triples, visit_load, Collector, term, field_of, term_if, term_each,
  terms_of, Kind, graph_pattern, dataset, wholesale_single, wholesale_pair, load, modify, quad_data,
  other, kind_of, visit, writes_default, is_nothing, quad_terms, collect, collect_nodes,
  collect_fields,
}
use holon_bridge_python.Acl.Algebra.Reach.{
  Knows, Among, Own, Reaches, own, below, listed, ReachesItem, first, later, ReachesField, in_value,
  IsGiven, HasTriples, Loads, here, within, among, LoadsItem, at_first, at_later, LoadsField,
  at_value, past_value, past_quads, in_quads, after_value, after_quads,
}
use holon_bridge_python.Acl.Algebra.Growing.{
  Knows-Grows, term-Knows, term_if-Grows, term-Grows, if-Grows, term_each-Grows, quad_terms-Grows,
  marks, collect_nodes-Grows, collect_fields-Grows,
}

term_if-Knows : (t : Node) (a : Collector) → t ≢ nothing → Knows (term_if t a) false t
unfolding term_if
term_if-Knows nothing a h = absurd (h refl)
term_if-Knows (uri g) a h = term-Knows false (uri g) a
term_if-Knows default_graph a h = term-Knows false default_graph a
term_if-Knows leaf a h = term-Knows false leaf a
term_if-Knows (many ns) a h = term-Knows false (many ns) a
term_if-Knows (comp name fs) a h = term-Knows false (comp name fs) a

term_each-Knows :
    (t : Node) (ns : Nodes) (a : Collector) → Among t ns → Knows (term_each ns a) true t
unfolding term_each
term_each-Knows t no_nodes a m = absurd m
term_each-Knows t (node n ns) a (inl e) =
    Knows-Grows (term true n a) _ true t (term_each-Grows ns (term true n a))
      (subst (Knows (term true n a) true) (sym e) (term-Knows true n a))
term_each-Knows t (node n ns) a (inr m) = term_each-Knows t ns (term true n a) m

quad_terms-Knows :
    (t : Node) (ns : Nodes) (a : Collector) → Among t ns → Knows (quad_terms ns a) false t
unfolding quad_terms
quad_terms-Knows t no_nodes a m = absurd m
quad_terms-Knows t (node n ns) a (inl e) =
    Knows-Grows (term false n a) _ false t (quad_terms-Grows ns (term false n a))
      (subst (Knows (term false n a) false) (sym e) (term-Knows false n a))
quad_terms-Knows t (node n ns) a (inr m) = quad_terms-Knows t ns (term false n a) m

pub same-Knows :
    (a : Collector) {w w' : Bool} {t t' : Node} → w ≡ w' → t ≡ t' → Knows a w' t' → Knows a w t
same-Knows a {w' = w'} {t = t} whole e k =
    subst (λ x. Knows a x t) (sym whole) (subst (Knows a w') (sym e) k)

not_nothing : (t : Node) → t ≢ nothing → is_nothing t ≡ false
unfolding is_nothing
not_nothing nothing h = absurd (h refl)
not_nothing (uri g) h = refl
not_nothing default_graph h = refl
not_nothing leaf h = refl
not_nothing (many ns) h = refl
not_nothing (comp name fs) h = refl

otherwise-Knows :
    (a b : Collector) (test w : Bool) (t : Node)
    → test ≡ false
    → Knows b w t
    → Knows (if test then a else b) w t
otherwise-Knows a b false w t h k = k
otherwise-Knows a b true w t h k = cc

marked-Knows :
    (a : Collector) (test w : Bool) (t : Node)
    → Knows a w t
    → Knows (if test then record a { default_write = true } else a) w t
marked-Knows a true w t k = Knows-Grows a _ w t (marks a) k
marked-Knows a false w t k = k

marked-default :
    (a : Collector) (test : Bool)
    → test ≡ true
    → Knows (if test then record a { default_write = true } else a) false default_graph
marked-default a true h = refl
marked-default a false h = cc

truthy-IsGiven : (n : Node) → IsGiven n → truthy n ≡ true
unfolding truthy
truthy-IsGiven (uri g) h = refl
truthy-IsGiven default_graph h = refl
truthy-IsGiven nothing h = absurd h
truthy-IsGiven leaf h = refl
truthy-IsGiven (many no_nodes) h = absurd h
truthy-IsGiven (many (node n ns)) h = refl
truthy-IsGiven (comp name no_fields) h = absurd h
truthy-IsGiven (comp name (field k n fs)) h = refl
truthy-IsGiven (comp name (quads gs fs)) h = refl

clause_triples-HasTriples : (n : Node) → HasTriples n → clause_triples n ≡ true
unfolding clause_triples
clause_triples-HasTriples (comp name fs) h = truthy-IsGiven (field_of fs "triples") h
clause_triples-HasTriples (uri g) h = absurd h
clause_triples-HasTriples default_graph h = absurd h
clause_triples-HasTriples nothing h = absurd h
clause_triples-HasTriples leaf h = absurd h
clause_triples-HasTriples (many ns) h = absurd h

writes_default-HasTriples :
    (fs : Fields)
    → field_of fs "withClause" ≡ nothing
    → HasTriples (field_of fs "delete") ⊎ HasTriples (field_of fs "insert")
    → writes_default fs ≡ true
unfolding writes_default is_nothing
writes_default-HasTriples fs unnamed (inl h) =
    rw (unnamed, clause_triples-HasTriples (field_of fs "delete") h) refl
writes_default-HasTriples fs unnamed (inr h) =
    let inserts = clause_triples-HasTriples (field_of fs "insert") h in
    ground (arith, unnamed, inserts)

-- What a node has itself is known once it was visited.
visit-Knows :
    (k : Kind) (fs : Fields) (w : Bool) (t : Node) (a : Collector)
    → Own k fs w t
    → Knows (visit k fs a) w t
unfolding visit
visit-Knows graph_pattern fs w t a (plain, e) =
    same-Knows (visit graph_pattern fs a) plain e (term-Knows false (field_of fs "term") a)
visit-Knows dataset fs w t a (plain, some_graph, which) =
    let named = field_of fs "named" in
    let a' = term_if (field_of fs "default") a in
    elim which [
      | inl e ↦ same-Knows (visit dataset fs a) plain e (
          Knows-Grows a' _ false (field_of fs "default") (term_if-Grows named a')
            (term_if-Knows (field_of fs "default") a (λ z. some_graph (e ∙ z))))
      | inr e ↦
          same-Knows (visit dataset fs a) plain e (term_if-Knows named a' (λ z. some_graph (e ∙ z)))
    ]
visit-Knows wholesale_single fs w t a (whole, e) =
    same-Knows (visit wholesale_single fs a) whole e (term-Knows true (field_of fs "graphiri") a)
visit-Knows wholesale_pair fs w t a (whole, (ns, listed_as, m)) =
    same-Knows (visit wholesale_pair fs a) whole refl
      (subst (λ x. Knows (terms_of x a) true t) (sym listed_as) (term_each-Knows t ns a m))
visit-Knows load fs w t a (inl (plain, some_graph, e)) =
    let target = field_of fs "graphiri" in
    let a' = record a { admin_ops = "LOAD" ∷ a.admin_ops } in
    otherwise-Knows _ _ (is_nothing target) w t (not_nothing target (λ z. some_graph (e ∙ z)))
      (same-Knows (term false target a') plain e (term-Knows false target a'))
visit-Knows load fs w t a (inr (plain, e, unnamed)) =
    same-Knows (visit load fs a) plain e (rw (unnamed, visit_load, is_nothing) refl)
visit-Knows modify fs w t a (inr (plain, e, unnamed, triples)) =
    same-Knows (visit modify fs a) plain e (
      marked-default (term_if (field_of fs "withClause") a) (writes_default fs)
        (writes_default-HasTriples fs unnamed triples))
visit-Knows modify fs w t a (inl (plain, some_graph, e)) =
    marked-Knows (term_if (field_of fs "withClause") a) (writes_default fs) w t (
      same-Knows (term_if (field_of fs "withClause") a) plain e
        (term_if-Knows (field_of fs "withClause") a (λ z. some_graph (e ∙ z))))
visit-Knows quad_data fs w t a (plain, e, given_triples) =
    same-Knows (visit quad_data fs a) plain e (
      marked-default a (truthy (field_of fs "triples"))
        (truthy-IsGiven (field_of fs "triples") given_triples))
visit-Knows other fs w t a h = absurd h

mutual
  unfolding collect

  -- Every graph position of a tree, at any depth, is known once the tree was walked.
  pub collect-Knows :
      (n : Node) (w : Bool) (t : Node) (a : Collector) → Reaches n w t → Knows (collect n a) w t
  collect-Knows n w t a (own name fs _ _ h) =
      let k = kind_of name in
      Knows-Grows (visit k fs a) _ w t (collect_fields-Grows fs (visit k fs a))
        (visit-Knows k fs w t a h)
  collect-Knows n w t a (below name fs _ _ h) =
      collect_fields-Knows fs w t (visit (kind_of name) fs a) h
  collect-Knows n w t a (listed ns _ _ h) = collect_nodes-Knows ns w t a h

  pub collect_nodes-Knows :
      (ns : Nodes) (w : Bool) (t : Node) (a : Collector)
      → ReachesItem ns w t
      → Knows (collect_nodes ns a) w t
  collect_nodes-Knows ns' w t a (first n ns _ _ h) =
      Knows-Grows (collect n a) _ w t (collect_nodes-Grows ns (collect n a))
        (collect-Knows n w t a h)
  collect_nodes-Knows ns' w t a (later n ns _ _ h) = collect_nodes-Knows ns w t (collect n a) h

  collect_fields-Knows :
      (fs : Fields) (w : Bool) (t : Node) (a : Collector)
      → ReachesField fs w t
      → Knows (collect_fields fs a) w t
  collect_fields-Knows fs' w t a (in_value k n fs _ _ h) =
      Knows-Grows (collect n a) _ w t (collect_fields-Grows fs (collect n a))
        (collect-Knows n w t a h)
  collect_fields-Knows fs' w t a (in_quads gs fs _ m) =
      Knows-Grows (quad_terms gs a) _ false t (collect_fields-Grows fs (quad_terms gs a))
        (quad_terms-Knows t gs a m)
  collect_fields-Knows fs' w t a (after_value k n fs _ _ h) =
      collect_fields-Knows fs w t (collect n a) h
  collect_fields-Knows fs' w t a (after_quads gs fs _ _ h) =
      collect_fields-Knows fs w t (quad_terms gs a) h

-- A visited LOAD is noted.
visit-Loads :
    (k : Kind) (fs : Fields) (a : Collector) → k ≡ load → In "LOAD" (visit k fs a).admin_ops
unfolding visit
visit-Loads k fs a e =
    subst (λ x. In "LOAD" (visit x fs a).admin_ops) (sym e)
      (let a' = record a { admin_ops = "LOAD" ∷ a.admin_ops } in
        let target = field_of fs "graphiri" in
        (if-Grows a' _ _ (is_nothing target) (marks a') (term-Grows false target a')).admin_ops
          "LOAD" (inl refl))

mutual
  unfolding collect

  -- Every LOAD of a tree is noted once the tree was walked.
  pub collect-Loads : (n : Node) (a : Collector) → Loads n → In "LOAD" (collect n a).admin_ops
  collect-Loads n a (here name fs e) =
      (collect_fields-Grows fs (visit (kind_of name) fs a)).admin_ops "LOAD"
        (visit-Loads (kind_of name) fs a e)
  collect-Loads n a (within name fs h) = collect_fields-Loads fs (visit (kind_of name) fs a) h
  collect-Loads n a (among ns h) = collect_nodes-Loads ns a h

  pub collect_nodes-Loads :
      (ns : Nodes) (a : Collector) → LoadsItem ns → In "LOAD" (collect_nodes ns a).admin_ops
  collect_nodes-Loads ns' a (at_first n ns h) =
      (collect_nodes-Grows ns (collect n a)).admin_ops "LOAD" (collect-Loads n a h)
  collect_nodes-Loads ns' a (at_later n ns h) = collect_nodes-Loads ns (collect n a) h

  collect_fields-Loads :
      (fs : Fields) (a : Collector) → LoadsField fs → In "LOAD" (collect_fields fs a).admin_ops
  collect_fields-Loads fs' a (at_value k n fs h) =
      (collect_fields-Grows fs (collect n a)).admin_ops "LOAD" (collect-Loads n a h)
  collect_fields-Loads fs' a (past_value k n fs h) = collect_fields-Loads fs (collect n a) h
  collect_fields-Loads fs' a (past_quads gs fs h) = collect_fields-Loads fs (quad_terms gs a) h
