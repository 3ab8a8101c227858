-- ===== src/Pipeline/Order/Flow.antt =====
-- The invariant of the sort's loop (`topological_order`, holonbridge/pipeline.py).
use holon_bridge_python.Prelude.{
  String, ℕ, ◌+◌, ◌≤◌, true, false, some, List, [], ◌∷◌, ◌++◌, ◌≡◌, refl, sym, ap, ◌∙◌, inl, inr,
  ◌==◌, ◌&&◌, ◌||◌, not, if◌then◌else◌, eqb, contains, count, arith, eq_iff, Bool-cases, In,
  In-of-append,
}
use mathlib.Core.List.{append-nil, append_assoc}
use holon_bridge_python.Prelude.Counts.{
  times, times-append, times-sort_by, contains-times, times-cons,
}
use holon_bridge_python.Pipeline.Model.{PipelineNode, iris, node_at}
use holon_bridge_python.Pipeline.Order.{edges, Queue, release, release_all, turn, as_list, before}
use holon_bridge_python.Pipeline.Order.Graph.{needs, known, edges_dependents, needs-unknown}

-- No IRI names two nodes: the manifest's nodes are a dictionary's values.
abbrev pub HasDistinct : List PipelineNode → Type 0
HasDistinct nodes = (x : String) → times x (iris nodes) ≤ 1

module _ (nodes : List PipelineNode) where
  -- How many of a node's dependencies in the manifest are not done.
  abbrev pub pending : List String → String → ℕ
  pending done x = count (λ d. known nodes d && not (contains d done)) (needs nodes x)

  -- Each item's dependencies in the manifest stand before it.
  abbrev pub InOrder : List String → List String → Type 0
  InOrder done [] = Unit {0}
  InOrder done (x ∷ xs) = (pending done x ≡ 0) × InOrder (done ++ x ∷ []) xs

  -- `waiting` are the dependents whose degrees the round has still to lower.
  pub record Flow (q : Queue) (waiting : List String) : Type 0 where
    pub degree : (x : String) → q.indegree x ≡ pending (iris q.ordered) x + times x waiting
    pub once :
        (x : String)
        → times x q.ready + times x (iris q.ordered)
          ≡ (if known nodes x && eqb (q.indegree x) 0 then 1 else 0)
    pub inside : (x : String) → 1 ≤ times x waiting → known nodes x ≡ true
    pub placed : InOrder [] (iris q.ordered)
    pub held : (n : PipelineNode) → In n q.ordered → In n nodes

  release-Flow :
      (q : Queue) (y : String) (waiting : List String)
      → Flow q (y ∷ waiting)
      → Flow (release q y) waiting
  unfolding release
  release-Flow q y waiting f = record {
    degree = λ x. elim (Bool-cases (x == y)) [
      | inl e ↦
          let at = (eq_iff x y).0 e in let d = f.degree x in ground (arith, e, ap q.indegree at)
      | inr e ↦ let d = f.degree x in ground (arith, e)
    ];
    once = λ x. elim (Bool-cases (x == y)) [
      | inl e ↦
          let at = (eq_iff x y).0 e in
          let o = f.once x in
          let d = f.degree x in
          let here = f.inside x (ground (arith, e)) in
          let same = ap q.indegree at in ground (arith, e, here, times-append x q.ready (y ∷ []))
      | inr e ↦ let o = f.once x in ground (arith, e, times-append x q.ready (y ∷ []))
    ];
    inside = λ x m. f.inside x (ground arith);
    placed = f.placed;
    held = f.held;
  }

  release_all-Flow :
      (waiting : List String) (q : Queue) → Flow q waiting → Flow (release_all q waiting) []
  unfolding release_all
  release_all-Flow [] q f = f
  release_all-Flow (y ∷ ys) q f = release_all-Flow ys (release q y) (release-Flow q y ys f)

  -- What the head of the queue waits for is done.
  ready_pending :
      (q : Queue) (c : String)
      → Flow q []
      → 1 ≤ times c q.ready
      → (known nodes c ≡ true)
        × (pending (iris q.ordered) c ≡ 0)
        × (contains c (iris q.ordered) ≡ false)
  ready_pending q c f r =
      let o = f.once c in
      let d = f.degree c in
      elim (Bool-cases (contains c (iris q.ordered))) [
        | inl e ↦ let again = contains-times c (iris q.ordered) e in ground arith
        | inr e ↦ ground (arith, e)
      ]

  named_by :
      (c : String) (ns : List PipelineNode)
      → contains c (iris ns) ≡ true
      → iris (as_list (node_at ns c)) ≡ c ∷ []
  named_by c [] k = cc
  named_by c (n ∷ ns) k = ground (arith, eq_iff c n.iri, named_by c ns)

  In-node_at :
      (c : String) (ns : List PipelineNode) (n : PipelineNode)
      → In n (as_list (node_at ns c))
      → In n ns
  In-node_at c [] n = λ m. absurd m
  In-node_at c (x ∷ ns) n =
      elim (c == x.iri)
        as (λ b. In n (as_list (if b then some x else node_at ns c)) → In n (x ∷ ns)) [
          | true ↦ λ m. elim m [ inl p ↦ inl p | inr more ↦ absurd more ]
          | false ↦ λ m. inr (In-node_at c ns n m)
        ]

  iris-append : (ms ns : List PipelineNode) → iris (ms ++ ns) ≡ iris ms ++ iris ns
  iris-append [] ns = refl
  iris-append (m ∷ ms) ns = ap (λ l. m.iri ∷ l) (iris-append ms ns)

  contains-snoc :
      (d c : String) (done : List String)
      → contains d (done ++ c ∷ []) ≡ (contains d done || d == c)
  contains-snoc d c [] = ground arith
  contains-snoc d c (x ∷ done) = ground (arith, contains-snoc d c done)

  -- Once `c` is done, what depended on it waits for that much less.
  pending-snoc :
      (c : String) (done ds : List String)
      → known nodes c ≡ true
      → contains c done ≡ false
      → count (λ d. known nodes d && not (contains d done)) ds
        ≡ count (λ d. known nodes d && not (contains d (done ++ c ∷ []))) ds + times c ds
  pending-snoc c done [] k out = omega arith
  pending-snoc c done (d ∷ ds) k out = elim (Bool-cases (c == d)) [
    | inl e ↦
        let at = (eq_iff c d).0 e in
        let k' = sym (ap (known nodes) at) ∙ k in
        let out' = sym (ap (λ y. contains y done) at) ∙ out in
        ground (
          arith,
          e,
          k',
          out',
          contains-snoc d c done,
          eq_iff c d,
          eq_iff d c,
          pending-snoc c done ds k out,
        )
    | inr e ↦
        ground
          (arith, e, contains-snoc d c done, eq_iff c d, eq_iff d c, pending-snoc c done ds k out)
  ]

  InOrder-snoc :
      (before done : List String) (c : String)
      → InOrder before done
      → pending (before ++ done) c ≡ 0
      → InOrder before (done ++ c ∷ [])
  InOrder-snoc before [] c o p = (sym (ap (λ l. pending l c) (append-nil before)) ∙ p, tt)
  InOrder-snoc before (x ∷ done) c (p', o) p = (
    p',
    InOrder-snoc (before ++ x ∷ []) done c o
        (ap (λ l. pending l c) (append_assoc before (x ∷ []) done) ∙ p),
  )

  release_all-ordered : (ds : List String) (q : Queue) → (release_all q ds).ordered ≡ q.ordered
  unfolding release_all release
  release_all-ordered [] q = refl
  release_all-ordered (d ∷ ds) q = release_all-ordered ds (release q d)

  pub turn-ordered :
      (q : Queue) (c : String) (rest : List String)
      → q.ready ≡ c ∷ rest
      → Flow q []
      → iris (turn nodes (edges nodes).dependents q c rest).ordered ≡ iris q.ordered ++ c ∷ []
  unfolding turn
  turn-ordered q c rest r f =
      let first : 1 ≤ times c q.ready = rw r (omega (arith, times-cons c rest)) in
      let (k, p, out) = ready_pending q c f first in
      let popped = record q { ready = rest; ordered = q.ordered ++ as_list (node_at nodes c) } in
      ap iris (release_all-ordered ((edges nodes).dependents c) popped)
      ∙ iris-append q.ordered (as_list (node_at nodes c))
      ∙ ap (λ l. iris q.ordered ++ l) (named_by c nodes k)

  pub turn-Flow :
      (q : Queue) (c : String) (rest : List String)
      → q.ready ≡ c ∷ rest
      → Flow q []
      → Flow (turn nodes (edges nodes).dependents q c rest) []
  unfolding turn
  turn-Flow q c rest r f =
      let first : 1 ≤ times c q.ready = rw r (omega (arith, times-cons c rest)) in
      let (k, p, out) = ready_pending q c f first in
      let at =
        iris-append q.ordered (as_list (node_at nodes c))
        ∙ ap (λ l. iris q.ordered ++ l) (named_by c nodes k) in
      let popped = record q { ready = rest; ordered = q.ordered ++ as_list (node_at nodes c) } in
      let g = release_all-Flow ((edges nodes).dependents c) popped (record {
        degree = λ x.
            let d = f.degree x in
            let less = pending-snoc c (iris q.ordered) (needs nodes x) k out in
            let now = ap (λ l. pending l x) at in
            let own = edges_dependents nodes c x k in omega (arith);
        once = λ x.
            let o = f.once x in
            let queued = ap (times x) r in
            let now = ap (times x) at ∙ times-append x (iris q.ordered) (c ∷ []) in ground arith;
        inside = λ x m. elim (Bool-cases (known nodes x)) [
          | inl e ↦ e
          | inr e ↦
              let none_needed = ap (times c) (needs-unknown nodes nodes x e) in
              let own = edges_dependents nodes c x k in absurd (omega arith)
        ];
        placed = rw at (InOrder-snoc [] (iris q.ordered) c f.placed p);
        held = λ n m. elim (In-of-append n q.ordered (as_list (node_at nodes c)) m) [
          | inl old ↦ f.held n old
          | inr new ↦ In-node_at c nodes n new
        ];
      }) in
      record {
        degree = g.degree;
        once = λ x.
            let o = g.once x in
            omega (
              arith,
              times-sort_by (before nodes) x
                  (release_all popped ((edges nodes).dependents c)).ready,
            );
        inside = g.inside;
        placed = g.placed;
        held = g.held;
      }
