-- ===== src/Acl/Authorize/Update.antt =====
-- What a cleared update may touch (`authorize_update`, holonbridge/acl.py).
use holon_bridge_python.Prelude.{
  String, ℕ, Bool, true, false, none, some, List, [], ◌∷◌, ◌≡◌, ◌⊎◌, inl, inr, some-injective, refl,
  sym, ap, ◌∙◌, not, ◌||◌, if◌then◌else◌, In, Option-cases, Bool-cases, Option, arith, ok,
  ok-injective, >>=-eq-ok,
}
use mathlib.Core.Path.{subst}
use holon_bridge_python.Prelude.Sorting.{sort_by, In-sort_by}
use holon_bridge_python.Prelude.Text.{text_lt}
use holon_bridge_python.Rdf.{Graph}
use holon_bridge_python.Delegation.Request.{Checked}
use holon_bridge_python.Delegation.Lookup.{Clock}
use holon_bridge_python.Acl.{AclDecision, is_admin, check_write, check_replace}
use holon_bridge_python.Acl.Algebra.{
  Node, uri, default_graph, nothing, leaf, many, comp, Nodes, Collector, collect, collect_nodes,
  fresh_collector,
}
use holon_bridge_python.Acl.Algebra.Reach.{Knows, Reaches, ReachesItem, Loads, LoadsItem}
use holon_bridge_python.Acl.Algebra.Covered.{
  same-Knows, collect-Knows, collect_nodes-Knows, collect-Loads, collect_nodes-Loads,
}
use holon_bridge_python.Acl.Authorize.{
  Parser, analyse_graph_refs, GateDecision, GateReason, unnamed_graphs, cleared, refused,
  each_graph, sorted_graphs, graphs_cleared, update_cleared, analysed_update, analysis_of,
  fallback_graph_refs, all_given, of_refs, is_empty, authorize_update,
}

pub true-false : true ≡ false → ⊥
true-false h = cc

-- A graph position, wholesale or not, in what the parser makes of a text: as a query if it is one, else as
-- an update, and else what follows the graph keywords in it.
abbrev pub Names : Parser → String → Bool → Node → Type 0
Names parser text w t =
    ((n : Node) × (parser.parse_query text ≡ some n) × Reaches n w t)
    ⊎ (parser.parse_query text ≡ none)
      × ((ns : Nodes) × (parser.parse_update text ≡ some ns) × ReachesItem ns w t)
    ⊎ (parser.parse_query text ≡ none)
      × (parser.parse_update text ≡ none)
      × (w ≡ false)
      × ((graph : String) × (t ≡ uri graph) × In (some graph) (parser.keyword_graphs text))

-- The text parses as a query or an update, or it holds RDF 1.2 and each graph keyword is followed by an IRI.
abbrev pub IsUnderstood : Parser → String → Type 0
IsUnderstood parser text =
    ((n : Node) × (parser.parse_query text ≡ some n))
    ⊎ ((ns : Nodes) × (parser.parse_update text ≡ some ns))
    ⊎ (parser.has_embedded text ≡ true)
      × ((k : Option String)
          → In k (parser.keyword_graphs text)
          → (graph : String) × (k ≡ some graph))

-- A LOAD in what the parser makes of a text.
abbrev pub LoadsIn : Parser → String → Type 0
LoadsIn parser text =
    ((n : Node) × (parser.parse_query text ≡ some n) × Loads n)
    ⊎ (parser.parse_query text ≡ none)
      × ((ns : Nodes) × (parser.parse_update text ≡ some ns) × LoadsItem ns)

all_given-some :
    (found : List (Option String)) (gs : List String)
    → all_given found ≡ some gs
    → ((k : Option String) → In k found → (graph : String) × (k ≡ some graph))
      × ((graph : String) → In (some graph) found → In graph gs)
unfolding all_given
all_given-some [] gs h = (λ k m. absurd m, λ graph m. absurd m)
all_given-some (none ∷ found) gs h = cc
all_given-some (some x ∷ found) gs h = elim (Option-cases (all_given found)) [
  | inl e ↦ ground (arith, e)
  | inr (rest, e) ↦
      let (each, there) = all_given-some found rest e in
      let same : x ∷ rest ≡ gs = ground (arith, e) in
      (
        λ k m. elim m [ inl p ↦ (x, p) | inr m' ↦ each k m' ],
        λ graph m.
            subst (In graph) same
              (elim m [ inl p ↦ inl (some-injective p) | inr m' ↦ inr (there graph m') ]),
      )
]

-- What the analysis of a text without an algebra is.
fallback-some :
    (parser : Parser) (text : String) (a : Collector)
    → parser.parse_query text ≡ none
    → parser.parse_update text ≡ none
    → analyse_graph_refs parser text ≡ some a
    → (parser.has_embedded text ≡ true)
      × (gs : List String) × (all_given (parser.keyword_graphs text) ≡ some gs)
      × (a.refs ≡ gs)
unfolding analyse_graph_refs analysis_of fallback_graph_refs of_refs
fallback-some parser text a no_query no_update h = elim (Bool-cases (parser.has_embedded text)) [
  | inr e ↦ ground (arith, no_query, no_update, e)
  | inl e ↦ elim (Option-cases (all_given (parser.keyword_graphs text))) [
    | inl missing ↦ ground (arith, no_query, no_update, e, missing)
    | inr (gs, found) ↦ (e, gs, found, ground (arith, no_query, no_update, e, found))
  ]
]

-- Only a text that is understood is analysed.
pub analysed-IsUnderstood :
    (parser : Parser) (text : String) (a : Collector)
    → analyse_graph_refs parser text ≡ some a
    → IsUnderstood parser text
analysed-IsUnderstood parser text a h = elim (Option-cases (parser.parse_query text)) [
  | inr (n, e) ↦ inl (n, e)
  | inl no_query ↦ elim (Option-cases (parser.parse_update text)) [
    | inr (ns, e) ↦ inr (inl (ns, e))
    | inl no_update ↦
        let (embedded, gs, found, is) = fallback-some parser text a no_query no_update h in
        inr (inr (embedded, (all_given-some (parser.keyword_graphs text) gs found).0))
  ]
]

module _ (parser : Parser) (text : String) (a : Collector)
    (h : analyse_graph_refs parser text ≡ some a) where
  query_analysed : (n : Node) → parser.parse_query text ≡ some n → collect n fresh_collector ≡ a
  unfolding analyse_graph_refs analysis_of
  query_analysed n e = some-injective (
      ap (λ o. analysis_of o (parser.parse_update text) (fallback_graph_refs parser text)) (sym e)
      ∙ h)

  update_analysed :
      (ns : Nodes)
      → parser.parse_query text ≡ none
      → parser.parse_update text ≡ some ns
      → collect_nodes ns fresh_collector ≡ a
  unfolding analyse_graph_refs analysis_of
  update_analysed ns no_query e =
      let refs = fallback_graph_refs parser text in
      some-injective (
        ap (λ o. analysis_of none o refs) (sym e)
        ∙ ap (λ o. analysis_of o (parser.parse_update text) refs) (sym no_query)
        ∙ h)

  -- What was analysed knows of the position.
  pub analysed-Knows : (w : Bool) (t : Node) → Names parser text w t → Knows a w t
  analysed-Knows w t (inl (n, e, r)) =
      subst (λ x. Knows x w t) (query_analysed n e) (collect-Knows n w t fresh_collector r)
  analysed-Knows w t (inr (inl (no_query, (ns, e, r)))) =
      subst (λ x. Knows x w t) (update_analysed ns no_query e)
        (collect_nodes-Knows ns w t fresh_collector r)
  analysed-Knows w t (inr (inr (no_query, no_update, plain, (graph, e, m)))) =
      let (embedded, gs, found, is) = fallback-some parser text a no_query no_update h in
      same-Knows a plain e (
        subst (In graph) (sym is)
          ((all_given-some (parser.keyword_graphs text) gs found).1 graph m))

  -- And of each LOAD.
  pub analysed-Loads : LoadsIn parser text → In "LOAD" a.admin_ops
  analysed-Loads (inl (n, e, l)) =
      subst (λ x. In "LOAD" x.admin_ops) (query_analysed n e) (collect-Loads n fresh_collector l)
  analysed-Loads (inr (no_query, (ns, e, l))) =
      subst (λ x. In "LOAD" x.admin_ops) (update_analysed ns no_query e)
        (collect_nodes-Loads ns fresh_collector l)

pub if-allowed :
    (test : Bool) (next : Checked GateDecision) (reason : GateReason) (d : GateDecision)
    → (if test then next else refused reason) ≡ ok d
    → d.allowed ≡ true
    → (test ≡ true) × (next ≡ ok d)
if-allowed true next reason d h allowed = (refl, h)
if-allowed false next reason d h allowed =
    let same = ap (λ (x : GateDecision). x.allowed) (ok-injective h) in
    absurd (true-false (sym allowed ∙ sym same))

if-refused :
    (test : Bool) (next : Checked GateDecision) (reason : GateReason) (d : GateDecision)
    → (if test then refused reason else next) ≡ ok d
    → d.allowed ≡ true
    → (test ≡ false) × (next ≡ ok d)
if-refused false next reason d h allowed = (refl, h)
if-refused true next reason d h allowed =
    let same = ap (λ (x : GateDecision). x.allowed) (ok-injective h) in
    absurd (true-false (sym allowed ∙ sym same))

pub either :
    {A : Type 0} {x y z : A} (test : Bool)
    → (if test then x else y) ≡ z
    → ((test ≡ true) × (x ≡ z)) ⊎ ((test ≡ false) × (y ≡ z))
either true h = inl (refl, h)
either false h = inr (refl, h)

each_graph-allowed :
    (check : String → Checked AclDecision) (next : Checked GateDecision) (gs : List String)
    (d : GateDecision)
    → each_graph check next gs ≡ ok d
    → d.allowed ≡ true
    → ((graph : String)
        → In graph gs
        → (c : AclDecision) × (check graph ≡ ok c) × (c.allowed ≡ true))
      × (next ≡ ok d)
unfolding each_graph
each_graph-allowed check next [] d h allowed = (λ graph m. absurd m, h)
each_graph-allowed check next (x ∷ gs) d h allowed =
    let (c, checked, rest) = >>=-eq-ok (check x) _ h in
    let (granted, more) = if-allowed c.allowed (each_graph check next gs) _ d rest allowed in
    let (others, end) = each_graph-allowed check next gs d more allowed in
    (
      λ graph m. elim m [ inl e ↦ (c, ap check e ∙ checked, granted) | inr m' ↦ others graph m' ],
      end,
    )

In-is_empty : (x : String) (xs : List String) → In x xs → is_empty xs ≡ false
unfolding is_empty
In-is_empty x [] m = absurd m
In-is_empty x (y ∷ ys) m = refl

module _ (clock : Clock) (now : ℕ) (g : Graph) (holons_graph person : String) where
  -- The check that a graph passes: wholesale operations need the stricter one.
  abbrev pub checked : Bool → String → Checked AclDecision
  checked true graph = check_replace g holons_graph person graph
  checked false graph = check_write clock now g holons_graph person graph

  -- What a position may be in an update that is cleared.
  abbrev pub IsCleared : Bool → Node → Type 0
  IsCleared w (uri graph) = (c : AclDecision) × (checked w graph ≡ ok c) × (c.allowed ≡ true)
  IsCleared w default_graph = is_admin g holons_graph person ≡ ok true
  IsCleared w nothing = ⊥
  IsCleared w leaf = ⊥
  IsCleared w (many ns) = ⊥
  IsCleared w (comp name fs) = ⊥

  graphs-IsCleared :
      (a : Collector) (d : GateDecision)
      → graphs_cleared clock now g holons_graph person a ≡ ok d
      → d.allowed ≡ true
      → (w : Bool) (graph : String) → Knows a w (uri graph)
      → IsCleared w (uri graph)
  unfolding graphs_cleared sorted_graphs
  graphs-IsCleared a d h allowed w graph =
      let (replaced, rest) =
        each_graph-allowed (check_replace g holons_graph person) _ (sort_by text_lt a.replace_refs)
          d h allowed in
      let (written, end) =
        each_graph-allowed (check_write clock now g holons_graph person) cleared
          (sort_by text_lt a.refs) d rest allowed in
      elim w as (λ b. Knows a b (uri graph) → IsCleared b (uri graph)) [
        | true ↦ λ m. replaced graph ((In-sort_by text_lt graph a.replace_refs).1 m)
        | false ↦ λ m. written graph ((In-sort_by text_lt graph a.refs).1 m)
      ]

  update-allowed :
      (a : Collector) (d : GateDecision)
      → update_cleared clock now g holons_graph person a ≡ ok d
      → d.allowed ≡ true
      → (a.dynamic ≡ false)
        × (a.default_write ≡ true → is_admin g holons_graph person ≡ ok true)
        × (In "LOAD" a.admin_ops → is_admin g holons_graph person ≡ ok true)
        × (graphs_cleared clock now g holons_graph person a ≡ ok d)
  unfolding update_cleared
  update-allowed a d h allowed =
      let (named, rest) = if-refused a.dynamic _ unnamed_graphs d h allowed in
      elim (either (a.default_write || not (is_empty a.admin_ops)) rest) [
        | inl (asked, gated) ↦
            let (admin, is, more) = >>=-eq-ok (is_admin g holons_graph person) _ gated in
            let (yes_admin, end) = if-allowed admin _ _ d more allowed in
            (named, λ written. is ∙ ap ok yes_admin, λ loaded. is ∙ ap ok yes_admin, end)
        | inr (unasked, end) ↦ (
          named,
          λ written. absurd (ground (arith, unasked)),
          λ loaded.
              let some_op = In-is_empty "LOAD" a.admin_ops loaded in
              absurd (ground (arith, unasked, some_op)),
          end,
        )
      ]

  known-IsCleared :
      (a : Collector) (w : Bool) (t : Node)
      → a.dynamic ≡ false
      → (a.default_write ≡ true → is_admin g holons_graph person ≡ ok true)
      → ((graph : String) → Knows a w (uri graph) → IsCleared w (uri graph))
      → Knows a w t
      → IsCleared w t
  known-IsCleared a w (uri graph) named default graphs k = graphs graph k
  known-IsCleared a w default_graph named default graphs k = default k
  known-IsCleared a w nothing named default graphs k = true-false (sym k ∙ named)
  known-IsCleared a w leaf named default graphs k = true-false (sym k ∙ named)
  known-IsCleared a w (many ns) named default graphs k = true-false (sym k ∙ named)
  known-IsCleared a w (comp name fs) named default graphs k = true-false (sym k ∙ named)

  update_cleared-IsCleared :
      (a : Collector) (d : GateDecision) (w : Bool) (t : Node)
      → update_cleared clock now g holons_graph person a ≡ ok d
      → d.allowed ≡ true
      → Knows a w t
      → IsCleared w t
  update_cleared-IsCleared a d w t h allowed =
      let (named, default, loads, graphs) = update-allowed a d h allowed in
      known-IsCleared a w t named default (graphs-IsCleared a d graphs allowed w)

pub authorize_update-IsCleared :
    (clock : Clock) (now : ℕ) (g : Graph) (holons_graph : String) (parser : Parser)
    (person text : String) (d : GateDecision)
    → authorize_update clock now g holons_graph parser (some person) text ≡ ok d
    → d.allowed ≡ true
    → IsUnderstood parser text
      × ((w : Bool) (t : Node)
          → Names parser text w t
          → IsCleared clock now g holons_graph person w t)
      × (LoadsIn parser text → is_admin g holons_graph person ≡ ok true)
unfolding authorize_update
authorize_update-IsCleared clock now g holons_graph parser person text d h allowed =
    elim (Option-cases (analyse_graph_refs parser text)) [
      | inl e ↦
          let same = sym (ap (analysed_update clock now g holons_graph person) e) ∙ h in
          let refusal = ap (λ (x : GateDecision). x.allowed) (ok-injective same) in
          absurd (true-false (sym allowed ∙ sym refusal))
      | inr (a, e) ↦
          let went = sym (ap (analysed_update clock now g holons_graph person) e) ∙ h in
          let (named, default, loads, graphs) =
            update-allowed clock now g holons_graph person a d went allowed in
          (
            analysed-IsUnderstood parser text a e,
            λ w t names.
                update_cleared-IsCleared clock now g holons_graph person a d w t went allowed
                  (analysed-Knows parser text a e w t names),
            λ l. loads (analysed-Loads parser text a e l),
          )
    ]
