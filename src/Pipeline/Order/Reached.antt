-- ===== src/Pipeline/Order/Reached.antt =====
-- How the sort ends (`topological_order`, holonbridge/pipeline.py).
use holon_bridge_python.Prelude.{
  String, ℕ, zero, suc, ◌+◌, ◌≤◌, Bool, true, List, [], ◌∷◌, ◌++◌, ◌≡◌, refl, ap, inl, inr, ◌==◌,
  ◌&&◌, not, if◌then◌else◌, eqb, contains, count, length, arith, eq_iff, Bool-cases, List-cases,
  length-append, select,
}
use holon_bridge_python.Prelude.Counts.{
  times, times-append, times-sort_by, contains-times, times-contains, length-le_of_times,
}
use holon_bridge_python.Pipeline.Model.{PipelineNode, iris}
use holon_bridge_python.Pipeline.Order.{edges, Queue, turn, loop, start, finish, before}
use holon_bridge_python.Pipeline.Order.Graph.{needs, known, edges_indegree}
use holon_bridge_python.Pipeline.Order.Flow.{HasDistinct, Flow, turn-Flow, turn-ordered}

module _ (nodes : List PipelineNode) where
  times-select :
      (test : String → Bool) (x : String) (l : List String)
      → times x (select test l) ≡ (if test x then times x l else 0)
  times-select test x [] = ground arith
  times-select test x (y ∷ l) = elim (Bool-cases (x == y)) [
    | inl e ↦ let at = ap test ((eq_iff x y).0 e) in ground (arith, e, times-select test x l)
    | inr e ↦ ground (arith, e, times-select test x l)
  ]

  none_done :
      (ds : List String)
      → count (λ d. known nodes d && not (contains d [])) ds ≡ count (known nodes) ds
  none_done [] = refl
  none_done (d ∷ ds) = ground (arith, none_done ds)

  start-Flow : HasDistinct nodes → Flow nodes (start nodes) []
  unfolding start
  start-Flow distinct = record {
    degree = λ x. omega (arith, edges_indegree nodes x, none_done (needs nodes x));
    once = λ x.
        let free = λ (iri : String). eqb ((edges nodes).indegree iri) 0 in
        let sorted = times-sort_by (before nodes) x (select free (iris nodes)) in
        let chosen = times-select free x (iris nodes) in
        let one = distinct x in
        ground (arith, contains-times x (iris nodes), times-contains x (iris nodes));
    inside = λ x m. absurd (omega arith);
    placed = tt;
    held = λ n m. absurd m;
  }

  -- Nothing is done twice, so no more is done than there are nodes.
  done_le :
      (q : Queue) → Flow nodes q [] → length (iris q.ordered) + length q.ready ≤ length (iris nodes)
  done_le q f =
      let each = length-le_of_times (iris q.ordered ++ q.ready) (iris nodes) (λ x.
        let o = f.once x in
        let both = times-append x (iris q.ordered) q.ready in
        ground (arith, contains-times x (iris nodes))) in
      omega (arith, length-append (iris q.ordered) q.ready)

  loop-Flow :
      (fuel : ℕ) (q : Queue)
      → Flow nodes q []
      → Flow nodes (loop nodes (edges nodes).dependents fuel q) []
  unfolding loop
  loop-Flow zero q f = f
  loop-Flow (suc fuel) q f = elim (List-cases q.ready) [
    | inl none_left ↦ rw (none_left, loop) f
    | inr (c, rest, e) ↦
        rw (e, loop)
          (loop-Flow fuel (turn nodes (edges nodes).dependents q c rest)
            (turn-Flow nodes q c rest e f))
  ]

  loop_empties :
      (fuel : ℕ) (q : Queue)
      → Flow nodes q []
      → length (iris nodes) ≤ fuel + length (iris q.ordered)
      → (loop nodes (edges nodes).dependents fuel q).ready ≡ []
  unfolding loop
  loop_empties zero q f enough = elim (List-cases q.ready) [
    | inl none_left ↦ none_left
    | inr (c, rest, e) ↦ let le = done_le q f in let one = ap length e in absurd (omega arith)
  ]
  loop_empties (suc fuel) q f enough = elim (List-cases q.ready) [
    | inl none_left ↦ rw (none_left, loop) none_left
    | inr (c, rest, e) ↦
        let next = turn nodes (edges nodes).dependents q c rest in
        let more = ap length (turn-ordered nodes q c rest e f) in
        let sum = length-append (iris q.ordered) (c ∷ []) in
        rw (e, loop) (loop_empties fuel next (turn-Flow nodes q c rest e f) (omega arith))
  ]

  pub finish-Flow : HasDistinct nodes → Flow nodes (finish nodes) []
  unfolding finish
  finish-Flow distinct = loop-Flow (length nodes) (start nodes) (start-Flow distinct)

  pub length-iris : (ns : List PipelineNode) → length (iris ns) ≡ length ns
  length-iris [] = refl
  length-iris (n ∷ ns) = ap suc (length-iris ns)

  -- The rounds that the model allows, one for each node, empty the queue, whether or not the
  -- dependencies form a cycle: the loop ends by its own test.
  pub queue_empties : HasDistinct nodes → (finish nodes).ready ≡ []
  unfolding finish
  queue_empties distinct =
      loop_empties (length nodes) (start nodes) (start-Flow distinct)
        (omega (arith, length-iris nodes))

  -- A node is done when its degree fell to 0.
  pub finish_done :
      HasDistinct nodes
      → (x : String)
      → times x (iris (finish nodes).ordered)
        ≡ (if known nodes x && eqb ((finish nodes).indegree x) 0 then 1 else 0)
  finish_done distinct x =
      let o = (finish-Flow distinct).once x in
      let none_left = ap (times x) (queue_empties distinct) in ground arith

  pub finish-le :
      HasDistinct nodes
      → (x : String) → times x (iris (finish nodes).ordered) ≤ times x (iris nodes)
  finish-le distinct x = ground (arith, finish_done distinct x, contains-times x (iris nodes))

  -- The sort succeeds when every node is done.
  pub all_done :
      HasDistinct nodes
      → ((x : String) → known nodes x ≡ true → (finish nodes).indegree x ≡ 0)
      → length (finish nodes).ordered ≡ length nodes
  all_done distinct free =
      let done = iris (finish nodes).ordered in
      let least = length-le_of_times (iris nodes) done (λ x.
        let one = distinct x in
        elim (Bool-cases (known nodes x)) [
          | inl e ↦ let none_left = free x e in ground (arith, e, none_left, finish_done distinct x)
          | inr e ↦ ground (arith, e, times-contains x (iris nodes))
        ]) in
      let most = length-le_of_times done (iris nodes) (finish-le distinct) in
      omega (arith, length-iris (finish nodes).ordered, length-iris nodes)
