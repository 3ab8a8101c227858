-- ===== src/Pipeline/Order/Cycles.antt =====
-- When a manifest has no order (`topological_order`, holonbridge/pipeline.py).
use holon_bridge_python.Prelude.{
  String, ℕ, zero, suc, ◌<◌, Bool, true, false, List, [], ◌∷◌, map, ◌≡◌, ◌≢◌, refl, ap, ◌∙◌, inl,
  inr, ◌==◌, ◌&&◌, not, if◌then◌else◌, eqb, ltb, contains, count, length, arith, eq_iff, Bool-cases,
  In, In-of-append, In-select, select, err, ok,
}
use mathlib.Core.Path.{subst}
use holon_bridge_python.Prelude.Sorting.{sort_by}
use holon_bridge_python.Prelude.Text.{text_lt}
use holon_bridge_python.Prelude.Counts.{times-contains, contains-In}
use holon_bridge_python.Pipeline.Model.{PipelineNode, Manifest, iris}
use holon_bridge_python.Pipeline.Order.{finish, topological_order, cycle, dependency_cycle}
use holon_bridge_python.Pipeline.Order.Graph.{needs, known}
use holon_bridge_python.Pipeline.Order.Flow.{HasDistinct, pending}
use holon_bridge_python.Pipeline.Order.Reached.{finish-Flow, finish_done, all_done}
use holon_bridge_python.Pipeline.Order.Sorted.{In-iris, same_node}

count-none :
    {A : Type 0} (test : A → Bool) (l : List A)
    → ((x : A) → In x l → test x ≡ false)
    → count test l ≡ 0
count-none test [] h = refl
count-none test (x ∷ l) h =
    let first = h x (inl refl) in let rest = count-none test l (λ y m. h y (inr m)) in ground arith

count-some :
    {A : Type 0} (test : A → Bool) (l : List A)
    → count test l ≢ 0
    → (x : A) × In x l × (test x ≡ true)
count-some test [] h = absurd (h refl)
count-some test (x ∷ l) h = elim (Bool-cases (test x)) [
  | inl e ↦ (x, inl refl, e)
  | inr e ↦ let (y, m, t) = count-some test l (λ z. h (ground arith)) in (y, inr m, t)
]

In-needs :
    (ns : List PipelineNode) (x d : String)
    → In d (needs ns x)
    → (n : PipelineNode) × In n ns × (x ≡ n.iri) × In d n.depends_on
In-needs [] x d m = absurd m
In-needs (k ∷ ns) x d m =
    elim (In-of-append d (if x == k.iri then k.depends_on else []) (needs ns x) m) [
      | inl own ↦ named own
      | inr more ↦ let (n, h, e, q) = In-needs ns x d more in (n, inr h, e, q)
    ]
  where
    named :
        In d (if x == k.iri then k.depends_on else [])
        → (n : PipelineNode) × In n (k ∷ ns) × (x ≡ n.iri) × In d n.depends_on
    named = elim (Bool-cases (x == k.iri)) [
      | inl e ↦ rw e (λ h. (k, inl refl, (eq_iff x k.iri).0 e, h))
      | inr e ↦ rw e (λ h. absurd h)
    ]

module _ (nodes : List PipelineNode) (distinct : HasDistinct nodes) where
  -- A node's final degree counts the dependencies that were not done.
  final_degree :
      (x : String) → (finish nodes).indegree x ≡ pending nodes (iris (finish nodes).ordered) x
  final_degree x = let d = (finish-Flow nodes distinct).degree x in omega arith

  degree_zero-of_rank :
      (rank : String → ℕ)
      → ((n : PipelineNode) (d : String)
          → In n nodes
          → In d n.depends_on
          → In d (iris nodes)
          → rank d < rank n.iri)
      → (bound : ℕ) (x : String) → rank x < bound
      → (finish nodes).indegree x ≡ 0
  degree_zero-of_rank rank falls zero x h = elim h [ ]
  degree_zero-of_rank rank falls (suc bound) x h =
      final_degree x
      ∙ count-none (λ d. known nodes d && not (contains d (iris (finish nodes).ordered)))
          (needs nodes x)
          (λ d m. elim (Bool-cases (known nodes d)) [
            | inr e ↦ ground (arith, e)
            | inl e ↦
                let (n, h', at, q) = In-needs nodes x d m in
                let less = falls n d h' q (contains-In d (iris nodes) e) in
                let same = ap rank at in
                let free = degree_zero-of_rank rank falls bound d (omega arith) in
                let there = finish_done nodes distinct d in
                let done =
                  times-contains d (iris (finish nodes).ordered) (ground (arith, e, free)) in
                ground (arith, e, done)
          ])

  -- What is left waits for something that is left.
  stuck_waits :
      (n : PipelineNode)
      → In n nodes
      → (finish nodes).indegree n.iri ≢ 0
      → (k : PipelineNode) × In k nodes
        × ((finish nodes).indegree k.iri ≢ 0)
        × In k.iri n.depends_on
  stuck_waits n m more =
      let test = λ (d : String). known nodes d && not (contains d (iris (finish nodes).ordered)) in
      let (d, h, passed) =
        count-some test (needs nodes n.iri) (λ z. more (final_degree n.iri ∙ z)) in
      let is_known : known nodes d ≡ true = ground arith in
      let (k, there, at) = In-iris nodes d (contains-In d (iris nodes) is_known) in
      let (n', m', same, needed) = In-needs nodes n.iri d h in
      let one = same_node nodes n n' distinct m m' same in
      let left : (finish nodes).indegree d ≢ 0 = λ z.
        let once = finish_done nodes distinct d in
        let done = times-contains d (iris (finish nodes).ordered) (ground (arith, is_known, z)) in
        ground (arith, done, passed) in
      (k, there, rw (← at) left, rw (← at, one) needed)

  -- The nodes with a degree above 0 when the loop ends.
  abbrev stuck : List PipelineNode
  stuck = select (λ n. ltb 0 ((finish nodes).indegree n.iri)) nodes

  In-stuck : (n : PipelineNode) → In n nodes → (finish nodes).indegree n.iri ≢ 0 → In n stuck
  In-stuck n m more =
      (In-select (λ n. ltb 0 ((finish nodes).indegree n.iri)) n nodes).1 (m, ground arith)

  stuck-In : (n : PipelineNode) → In n stuck → In n nodes × ((finish nodes).indegree n.iri ≢ 0)
  stuck-In n h =
      let (m, more) = (In-select (λ n. ltb 0 ((finish nodes).indegree n.iri)) n nodes).0 h in
      (m, ground arith)

  stuck-ne-nil : length (finish nodes).ordered ≢ length nodes → stuck ≢ []
  stuck-ne-nil short empty = short (
      all_done nodes distinct (λ x k.
        let (n, m, at) = In-iris nodes x (contains-In x (iris nodes) k) in
        elim (Bool-cases (eqb ((finish nodes).indegree n.iri) 0)) [
          | inl e ↦ ap (finish nodes).indegree at ∙ ground (arith, e)
          | inr e ↦ absurd (subst (In n) empty (In-stuck n m (λ z. ground (arith, e))))
        ]))

topological_order-err :
    (m : Manifest) (ids : List String)
    → topological_order m ≡ err (dependency_cycle ids)
    → (length (finish m.nodes).ordered ≢ length m.nodes)
      × (ids ≡ cycle m.nodes (finish m.nodes).indegree)
unfolding topological_order
topological_order-err m ids =
    elim (Bool-cases (eqb (length (finish m.nodes).ordered) (length m.nodes))) [
      | inl e ↦ rw e (λ went. absurd (cc))
      | inr e ↦ rw e (λ went. (λ same. ground (arith, e), cc))
    ]

-- If some rank falls along every dependency within the manifest, then the sort returns an order.
pub topological_order-of_rank :
    (m : Manifest) (rank : String → ℕ)
    → HasDistinct m.nodes
    → ((n : PipelineNode) (d : String)
        → In n m.nodes
        → In d n.depends_on
        → In d (iris m.nodes)
        → rank d < rank n.iri)
    → (sorted : List PipelineNode) × (topological_order m ≡ ok sorted)
unfolding topological_order
topological_order-of_rank m rank distinct falls =
    let long =
      all_done m.nodes distinct
        (λ x k. degree_zero-of_rank m.nodes distinct rank falls (suc (rank x)) x (omega arith)) in
    let equal : eqb (length (finish m.nodes).ordered) (length m.nodes) ≡ true = ground arith in
    ((finish m.nodes).ordered, rw equal)

-- A sort that reports a cycle names the nodes of a set that is not empty, in which each node is the
-- manifest's and depends on one of the set.
pub topological_order-reports_cycle :
    (m : Manifest) (ids : List String)
    → HasDistinct m.nodes
    → topological_order m ≡ err (dependency_cycle ids)
    → (stuck : List PipelineNode) × (stuck ≢ [])
      × (ids ≡ sort_by text_lt (map (λ n. n.id) stuck))
      × ((n : PipelineNode)
          → In n stuck
          → In n m.nodes × ((k : PipelineNode) × In k stuck × In k.iri n.depends_on))
unfolding cycle
topological_order-reports_cycle m ids distinct went =
    let (short, named) = topological_order-err m ids went in
    (
      stuck m.nodes distinct,
      stuck-ne-nil m.nodes distinct short,
      named,
      λ n h.
          let (there, more) = stuck-In m.nodes distinct n h in
          let (k, k_there, left, needed) = stuck_waits m.nodes distinct n there more in
          (there, (k, In-stuck m.nodes distinct k k_there left, needed)),
    )
