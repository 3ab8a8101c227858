-- ===== src/Pipeline/Order/Graph.antt =====
-- What the dictionaries of the sort hold once every dependency was read
-- (`topological_order`, holonbridge/pipeline.py).
use holon_bridge_python.Prelude.{
  String, ◌+◌, Bool, true, false, List, [], ◌∷◌, ◌++◌, ◌≡◌, refl, sym, ap, ◌∙◌, inl, inr, ◌==◌,
  if◌then◌else◌, contains, count, arith, eq_iff, Bool-cases, count-append,
}
use holon_bridge_python.Prelude.Counts.{times, times-append}
use holon_bridge_python.Pipeline.Model.{PipelineNode, iris}
use holon_bridge_python.Pipeline.Order.{
  Edges, add_dependency, add_dependencies, add_nodes, edges, no_edges,
}

-- What the nodes of that IRI depend on; a manifest has one such node at most.
abbrev pub needs : List PipelineNode → String → List String
needs [] x = []
needs (n ∷ ns) x = (if x == n.iri then n.depends_on else []) ++ needs ns x

module _ (nodes : List PipelineNode) where
  abbrev pub known : String → Bool
  known d = contains d (iris nodes)

  one_indegree :
      (n : PipelineNode) (ds : List String) (g : Edges) (x : String)
      → (add_dependencies nodes n g ds).indegree x
        ≡ g.indegree x + count known (if x == n.iri then ds else [])
  unfolding add_dependencies add_dependency
  one_indegree n [] g x = ground arith
  one_indegree n (d ∷ ds) g x =
      ground (arith, eq_iff x n.iri, one_indegree n ds (add_dependency nodes n g d) x)

  edge_dependents :
      (n : PipelineNode) (g : Edges) (e d x : String)
      → known d ≡ true
      → times x ((add_dependency nodes n g e).dependents d)
        ≡ times x (g.dependents d) + (if x == n.iri then times d (e ∷ []) else 0)
  unfolding add_dependency
  edge_dependents n g e d x k = elim (Bool-cases (d == e)) [
    | inr other ↦ ground (arith, other)
    | inl same ↦
        let at = (eq_iff d e).0 same in
        let there = sym (ap known at) ∙ k in
        let queued = times-append x (g.dependents e) (n.iri ∷ []) in
        let moved = ap (λ y. times x (g.dependents y)) at in
        ground (arith, same, there, queued, moved)
  ]

  one_dependents :
      (n : PipelineNode) (ds : List String) (g : Edges) (d x : String)
      → known d ≡ true
      → times x ((add_dependencies nodes n g ds).dependents d)
        ≡ times x (g.dependents d) + times d (if x == n.iri then ds else [])
  unfolding add_dependencies
  one_dependents n [] g d x k = ground arith
  one_dependents n (e ∷ ds) g d x k =
      ground
        (arith, edge_dependents n g e d x k, one_dependents n ds (add_dependency nodes n g e) d x k)

  all_indegree :
      (ns : List PipelineNode) (g : Edges) (x : String)
      → (add_nodes nodes g ns).indegree x ≡ g.indegree x + count known (needs ns x)
  unfolding add_nodes
  all_indegree [] g x = ground arith
  all_indegree (n ∷ ns) g x =
      let own = one_indegree n n.depends_on g x in
      let others = all_indegree ns (add_dependencies nodes n g n.depends_on) x in
      let split = count-append known (if x == n.iri then n.depends_on else []) (needs ns x) in
      omega (arith, own, others, split)

  all_dependents :
      (ns : List PipelineNode) (g : Edges) (d x : String)
      → known d ≡ true
      → times x ((add_nodes nodes g ns).dependents d)
        ≡ times x (g.dependents d) + times d (needs ns x)
  unfolding add_nodes
  all_dependents [] g d x k = ground arith
  all_dependents (n ∷ ns) g d x k =
      let own = one_dependents n n.depends_on g d x k in
      let others = all_dependents ns (add_dependencies nodes n g n.depends_on) d x k in
      let split = times-append d (if x == n.iri then n.depends_on else []) (needs ns x) in
      omega (arith, own, others, split)

  -- A node's degree counts its dependencies within the manifest.
  pub edges_indegree : (x : String) → (edges nodes).indegree x ≡ count known (needs nodes x)
  unfolding edges no_edges
  edges_indegree x = omega (arith, all_indegree nodes no_edges x)

  -- It stands among those that wait for a node as often as it depends on it.
  pub edges_dependents :
      (d x : String)
      → known d ≡ true
      → times x ((edges nodes).dependents d) ≡ times d (needs nodes x)
  unfolding edges no_edges
  edges_dependents d x k = omega (arith, all_dependents nodes no_edges d x k)

  -- What is no node depends on nothing.
  pub needs-unknown :
      (ns : List PipelineNode) (x : String) → contains x (iris ns) ≡ false → needs ns x ≡ []
  needs-unknown [] x h = refl
  needs-unknown (n ∷ ns) x h = ground (arith, needs-unknown ns x)
