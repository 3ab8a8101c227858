-- ===== src/Pipeline/Order/Sorted.antt =====
-- A manifest's order is a sort of its nodes by dependency (`topological_order`,
-- holonbridge/pipeline.py).
use holon_bridge_python.Prelude.{
  String, Bool, false, List, [], ◌∷◌, ◌++◌, ◌≡◌, ◌↔◌, refl, sym, ap, ◌∙◌, inl, inr, ◌==◌, ◌&&◌, not,
  if◌then◌else◌, eqb, contains, count, length, arith, eq_iff, Bool-cases, In, In-append_left,
  In-append_right, ok, ok-injective,
}
use mathlib.Core.Path.{subst}
use mathlib.Core.List.{append-nil, append_assoc}
use holon_bridge_python.Prelude.Counts.{
  times, times-cons, contains-times, times-contains, times-eq_of_length, In-contains, contains-In,
}
use holon_bridge_python.Pipeline.Model.{PipelineNode, Manifest, iris}
use holon_bridge_python.Pipeline.Order.{finish, topological_order}
use holon_bridge_python.Pipeline.Order.Graph.{needs, known}
use holon_bridge_python.Pipeline.Order.Flow.{HasDistinct, pending, InOrder}
use holon_bridge_python.Pipeline.Order.Reached.{finish-Flow, finish-le, length-iris}

pub count-zero :
    {A : Type 0} (test : A → Bool) (x : A) (l : List A) → count test l ≡ 0 → In x l → test x ≡ false
count-zero test x [] z m = absurd m
count-zero test x (y ∷ l) z (inl e) = ap test e ∙ (ground arith)
count-zero test x (y ∷ l) z (inr m) = count-zero test x l (ground arith) m

pub needs-own :
    (ns : List PipelineNode) (n : PipelineNode) (d : String)
    → In n ns
    → In d n.depends_on
    → In d (needs ns n.iri)
needs-own [] n d m h = absurd m
needs-own (k ∷ ns) n d (inl e) h =
    let same = (eq_iff n.iri k.iri).1 (ap (λ (x : PipelineNode). x.iri) e) in
    let own = ap (λ (x : PipelineNode). x.depends_on) e in
    rw same (In-append_left d k.depends_on (needs ns n.iri) (rw (← own) h))
needs-own (k ∷ ns) n d (inr m) h =
    In-append_right d (if n.iri == k.iri then k.depends_on else []) (needs ns n.iri)
      (needs-own ns n d m h)

module _ (nodes : List PipelineNode) where
  InOrder-at :
      (done xs ys : List String) (c : String)
      → InOrder nodes done (xs ++ c ∷ ys)
      → pending nodes (done ++ xs) c ≡ 0
  InOrder-at done [] ys c (p, o) = ap (λ l. pending nodes l c) (append-nil done) ∙ p
  InOrder-at done (x ∷ xs) ys c (p, o) =
      ap (λ l. pending nodes l c) (sym (append_assoc done (x ∷ []) xs))
      ∙ InOrder-at (done ++ x ∷ []) xs ys c o

pub iris-In : (ns : List PipelineNode) (n : PipelineNode) → In n ns → In n.iri (iris ns)
iris-In [] n m = absurd m
iris-In (k ∷ ns) n (inl e) = inl (ap (λ (x : PipelineNode). x.iri) e)
iris-In (k ∷ ns) n (inr m) = inr (iris-In ns n m)

pub In-iris :
    (ns : List PipelineNode) (x : String)
    → In x (iris ns)
    → (n : PipelineNode) × In n ns × (x ≡ n.iri)
In-iris [] x m = absurd m
In-iris (k ∷ ns) x (inl e) = (k, inl refl, e)
In-iris (k ∷ ns) x (inr m) = let (n, h, e) = In-iris ns x m in (n, inr h, e)

named_twice :
    (n : PipelineNode) (ns : List PipelineNode) (b : PipelineNode)
    → HasDistinct (n ∷ ns)
    → In b ns
    → n.iri ≡ b.iri
    → ⊥
named_twice n ns b distinct m e =
    let at = ap (λ x. times x (iris ns)) e in
    let there = contains-times b.iri (iris ns) (In-contains b.iri (iris ns) (iris-In ns b m)) in
    let one = distinct n.iri in absurd (omega (arith, times-cons n.iri (iris ns)))

-- An IRI names one node.
pub same_node :
    (ns : List PipelineNode) (a b : PipelineNode)
    → HasDistinct ns
    → In a ns
    → In b ns
    → a.iri ≡ b.iri
    → a ≡ b
same_node [] a b distinct p q e = absurd p
same_node (n ∷ ns) a b distinct (inl p) (inl q) e = p ∙ sym q
same_node (n ∷ ns) a b distinct (inr p) (inr q) e =
    same_node ns a b (λ x. let d = distinct x in ground arith) p q e
same_node (n ∷ ns) a b distinct (inl p) (inr q) e =
    absurd (named_twice n ns b distinct q (sym (ap (λ (x : PipelineNode). x.iri) p) ∙ e))
same_node (n ∷ ns) a b distinct (inr p) (inl q) e =
    absurd (named_twice n ns a distinct p (sym (ap (λ (x : PipelineNode). x.iri) q) ∙ sym e))

pub topological_order-ok :
    (m : Manifest) (sorted : List PipelineNode)
    → topological_order m ≡ ok sorted
    → (sorted ≡ (finish m.nodes).ordered) × (length (finish m.nodes).ordered ≡ length m.nodes)
unfolding topological_order
topological_order-ok m sorted =
    elim (Bool-cases (eqb (length (finish m.nodes).ordered) (length m.nodes))) [
      | inl e ↦ rw e (λ went. (sym (ok-injective went), ground (arith, e)))
      | inr e ↦ λ went. ground (arith, e)
    ]

module _ (nodes : List PipelineNode) (distinct : HasDistinct nodes) where
  abbrev done : List PipelineNode
  done = (finish nodes).ordered

  all_In : length done ≡ length nodes → (n : PipelineNode) → In n nodes → In n done
  all_In long n m =
      let own =
        contains-times n.iri (iris nodes) (In-contains n.iri (iris nodes) (iris-In nodes n m)) in
      let equal =
        times-eq_of_length (iris done) (iris nodes) (finish-le nodes distinct)
          (omega (arith, length-iris nodes, length-iris done)) n.iri in
      let (k, h, e) =
        In-iris done n.iri
          (contains-In n.iri (iris done) (times-contains n.iri (iris done) (omega arith))) in
      rw (same_node nodes n k distinct m ((finish-Flow nodes distinct).held k h) e) h

  iris-append_cons :
      (xs ys : List PipelineNode) (n : PipelineNode)
      → iris (xs ++ n ∷ ys) ≡ iris xs ++ n.iri ∷ iris ys
  iris-append_cons [] ys n = refl
  iris-append_cons (x ∷ xs) ys n = ap (λ l. x.iri ∷ l) (iris-append_cons xs ys n)

  -- A node that is done stands behind its dependencies.
  needed_before :
      (xs ys : List PipelineNode) (n : PipelineNode) (d : String)
      → done ≡ xs ++ n ∷ ys
      → In d n.depends_on
      → In d (iris nodes)
      → In d (iris xs)
  needed_before xs ys n d e m k =
      let f = finish-Flow nodes distinct in
      let split = ap iris e ∙ iris-append_cons xs ys n in
      let there : In n nodes = f.held n (rw e (In-append_right n xs (n ∷ ys) (inl refl))) in
      let nothing =
        InOrder-at nodes [] (iris xs) (iris ys) n.iri (subst (InOrder nodes []) split f.placed) in
      let passed =
        count-zero (λ y. known nodes y && not (contains y (iris xs))) d (needs nodes n.iri) nothing
          (needs-own nodes n d there m) in
      let is_known = In-contains d (iris nodes) k in contains-In d (iris xs) (ground arith)

-- An order that is returned holds the manifest's nodes, each of them once, and a node stands behind
-- every dependency of it that the manifest defines.
pub topological_order-sorts :
    (m : Manifest) (sorted : List PipelineNode)
    → HasDistinct m.nodes
    → topological_order m ≡ ok sorted
    → ((n : PipelineNode) → In n sorted ↔ In n m.nodes)
      × (length sorted ≡ length m.nodes)
      × ((earlier later : List PipelineNode) (n : PipelineNode) (d : String)
          → sorted ≡ earlier ++ n ∷ later
          → In d n.depends_on
          → In d (iris m.nodes)
          → In d (iris earlier))
unfolding topological_order
topological_order-sorts m sorted distinct went =
    let (e, long) = topological_order-ok m sorted went in
    rw e (
      λ n. ((finish-Flow m.nodes distinct).held n, all_In m.nodes distinct long n),
      long,
      λ earlier later n d split. needed_before m.nodes distinct earlier later n d split,
    )
