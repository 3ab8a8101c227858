-- ===== src/Tests/Pipelines.antt =====
-- Orders and runs of small manifests.
use holon_bridge_python.Prelude.{
  String, ℕ, ◌<◌, false, none, List, [], ◌∷◌, ◌≡◌, ◌≢◌, inl, inr, refl, map, In, ◌==◌,
  if◌then◌else◌, arith, length, err, ok, ◌↔◌, ◌++◌, sym,
}
use mathlib.Core.Path.{subst}
use holon_bridge_python.Prelude.Sorting.{sort_by}
use holon_bridge_python.Prelude.Text.{text_lt}
use holon_bridge_python.Prelude.Counts.{times-le-one}
use holon_bridge_python.Pipeline.Model.{stage, PipelineNode, Manifest, iris}
use holon_bridge_python.Pipeline.Order.{topological_order, dependency_cycle, finish}
use holon_bridge_python.Pipeline.Order.Flow.{HasDistinct}
use holon_bridge_python.Pipeline.Order.Reached.{queue_empties}
use holon_bridge_python.Pipeline.Order.Sorted.{topological_order-sorts}
use holon_bridge_python.Pipeline.Order.Cycles.{
  topological_order-of_rank, topological_order-reports_cycle,
}

abbrev pub node : String → List String → PipelineNode
node name needed = record {
  iri = name;
  id = name;
  kind = stage;
  label = "";
  transformer = "sparql";
  input_type = "";
  output_type = "";
  order = none;
  rule = "r";
  shapes = "";
  projection = "";
  target_graph = "";
  depends_on = needed;
  prompt_text = "";
  context_only = false;
  agent = "";
  agent_context = "";
}

abbrev pub manifest : List PipelineNode → Manifest
manifest nodes = record { id = "m"; graph = "g"; nodes = nodes; warnings = [] }

-- c waits for b, and b for a; d is not defined.
abbrev chain : Manifest
chain = manifest (node "c" ("b" ∷ []) ∷ node "b" ("a" ∷ "d" ∷ []) ∷ node "a" [] ∷ [])

-- a and b wait for each other, and c for b.
abbrev knot : Manifest
knot = manifest (node "c" ("b" ∷ []) ∷ node "b" ("a" ∷ []) ∷ node "a" ("b" ∷ []) ∷ [])

chain_distinct : HasDistinct chain.nodes
chain_distinct = times-le-one (iris chain.nodes) refl

knot_distinct : HasDistinct knot.nodes
knot_distinct = times-le-one (iris knot.nodes) refl

chain_sorted :
    topological_order chain
    ≡ ok (node "a" [] ∷ node "b" ("a" ∷ "d" ∷ []) ∷ node "c" ("b" ∷ []) ∷ [])
unfolding topological_order sort_by
chain_sorted = refl

knot_reported : topological_order knot ≡ err (dependency_cycle ("a" ∷ "b" ∷ "c" ∷ []))
unfolding topological_order sort_by
knot_reported = refl

topological_order-sorts_example :
    let sorted = node "a" [] ∷ node "b" ("a" ∷ "d" ∷ []) ∷ node "c" ("b" ∷ []) ∷ [] in
    ((n : PipelineNode) → In n sorted ↔ In n chain.nodes)
    × (length sorted ≡ length chain.nodes)
    × ((earlier later : List PipelineNode) (n : PipelineNode) (d : String)
        → sorted ≡ earlier ++ n ∷ later
        → In d n.depends_on
        → In d (iris chain.nodes)
        → In d (iris earlier))
topological_order-sorts_example = topological_order-sorts chain _ chain_distinct chain_sorted

topological_order-reports_cycle_example :
    (stuck : List PipelineNode) × (stuck ≢ [])
    × ("a" ∷ "b" ∷ "c" ∷ [] ≡ sort_by text_lt (map (λ n. n.id) stuck))
    × ((n : PipelineNode)
        → In n stuck
        → In n knot.nodes × ((k : PipelineNode) × In k stuck × In k.iri n.depends_on))
topological_order-reports_cycle_example =
    topological_order-reports_cycle knot _ knot_distinct knot_reported

queue_empties_example : (finish knot.nodes).ready ≡ []
queue_empties_example = queue_empties knot.nodes knot_distinct

rank : String → ℕ
rank x = if x == "c" then 2 else if x == "b" then 1 else 0

abbrev Falls : String → PipelineNode → Type 0
Falls d n = In d n.depends_on → In d (iris chain.nodes) → rank d < rank n.iri

rank_falls :
    (n : PipelineNode) (d : String)
    → In n chain.nodes
    → In d n.depends_on
    → In d (iris chain.nodes)
    → rank d < rank n.iri
unfolding rank
rank_falls n d (inl e) =
    subst (Falls d) (sym e)
      (λ needed there. elim needed [ inl p ↦ rw p (omega arith) | inr more ↦ absurd more ])
rank_falls n d (inr (inl e)) = subst (Falls d) (sym e) (λ needed there. elim needed [
  | inl p ↦ rw p (omega arith)
  | inr (inl p) ↦ rw p (omega arith)
  | inr (inr more) ↦ absurd more
])
rank_falls n d (inr (inr (inl e))) = subst (Falls d) (sym e) (λ needed there. absurd needed)
rank_falls n d (inr (inr (inr more))) = absurd more

topological_order-of_rank_example :
    (sorted : List PipelineNode) × (topological_order chain ≡ ok sorted)
topological_order-of_rank_example = topological_order-of_rank chain rank chain_distinct rank_falls
