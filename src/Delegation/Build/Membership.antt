-- ===== src/Delegation/Build/Membership.antt =====
-- Membership in the answers of the patterns that a lookup uses.
use holon_bridge_python.Prelude.{
  String, List, [], ◌∷◌, ◌++◌, map, Bool, true, false, ◌&&◌, ◌≡◌, inl, inr, refl, sym, ap, ◌==◌,
  eq_refl, arith, In, In-append_left, In-append_right, flat_map, any, if◌then◌else◌, contains,
}
use holon_bridge_python.Rdf.{
  Term, iri, lit, Triple, Graph, term_eq, matches_triple, ask, objects, subjects,
}
use holon_bridge_python.Delegation.Lookup.{holon, rdf_type, Row, rows_of}

abbrev pub the_row : (d delegator persona from until : String) → Row
the_row d delegator persona from until = record {
  d = d;
  row_delegator = iri delegator;
  row_persona = iri persona;
  from = lit from;
  until = lit until;
}

-- The predicates of a Delegation as it is built.
abbrev pub says : String → Bool
says p = contains p (
    rdf_type
    ∷ holon "delegator"
    ∷ holon "delegate"
    ∷ holon "delegatedPersona"
    ∷ holon "validFrom"
    ∷ holon "validUntil"
    ∷ holon "delegatedGraph"
    ∷ holon "delegatedPermission"
    ∷ "http://www.w3.org/2000/01/rdf-schema#comment"
    ∷ [])

term_eq_refl : (o : Term) → term_eq o o ≡ true
term_eq_refl (iri s) = eq_refl s
term_eq_refl (lit s) = eq_refl s

abbrev pub triple : String → String → Term → Triple
triple s p o = record { subject = s; predicate = p; object = o }

matches_self : (s p : String) (o : Term) → matches_triple s p o (triple s p o) ≡ true
matches_self s p o = ground (arith, eq_refl s, eq_refl p, term_eq_refl o)

any-In : {A : Type 0} (f : A → Bool) (x : A) (xs : List A) → In x xs → f x ≡ true → any f xs ≡ true
any-In f x (y ∷ ys) (inl e) h = let at = ap f e in ground (arith, at, h)
any-In f x (y ∷ ys) (inr m) h = let rest = any-In f x ys m h in ground (arith, rest)
any-In f x [] m h = absurd m

pub any-append_false :
    {A : Type 0} (f : A → Bool) (xs ys : List A)
    → any f xs ≡ false
    → any f ys ≡ false
    → any f (xs ++ ys) ≡ false
any-append_false f [] ys h k = k
any-append_false f (x ∷ xs) ys h k =
    let rest : any f xs ≡ false = ground (arith, h) in
    let both = any-append_false f xs ys rest k in ground (arith, h, both)

pub any-map-false :
    {A B : Type 0} (f : B → Bool) (g : A → B) (xs : List A)
    → ((x : A) → f (g x) ≡ false)
    → any f (map g xs) ≡ false
any-map-false f g [] h = refl
any-map-false f g (x ∷ xs) h = let rest = any-map-false f g xs h in ground (arith, h x, rest)

pub In-flat_map_intro :
    {A B : Type 0} (f : A → List B) (x : A) (xs : List A) (y : B)
    → In x xs
    → In y (f x)
    → In y (flat_map f xs)
In-flat_map_intro f x (z ∷ zs) y (inl e) m = In-append_left y (f z) (flat_map f zs) (rw (sym e) m)
In-flat_map_intro f x (z ∷ zs) y (inr n) m =
    In-append_right y (f z) (flat_map f zs) (In-flat_map_intro f x zs y n m)
In-flat_map_intro f x [] y n m = absurd n

pub In-map_intro : {A B : Type 0} (f : A → B) (x : A) (xs : List A) → In x xs → In (f x) (map f xs)
In-map_intro f x (y ∷ ys) (inl e) = inl (ap f e)
In-map_intro f x (y ∷ ys) (inr m) = inr (In-map_intro f x ys m)
In-map_intro f x [] m = absurd m

module _ (g : Graph) (s p : String) (o : Term) (stated : In (triple s p o) g) where
  pub ask-In : ask g s p o ≡ true
  ask-In = any-In (matches_triple s p o) (triple s p o) g stated (matches_self s p o)

  objects-In : In o (objects g s p)
  objects-In =
      In-flat_map_intro
        (λ (t : Triple). if t.subject == s && t.predicate == p then t.object ∷ [] else [])
        (triple s p o) g o stated (rw (eq_refl s, eq_refl p) (inl refl))

  pub subjects-In : In s (subjects g p o)
  subjects-In =
      In-flat_map_intro
        (λ (t : Triple). if t.predicate == p && term_eq t.object o then t.subject ∷ [] else [])
        (triple s p o) g s stated (rw (eq_refl p, term_eq_refl o) (inl refl))

pub row_In :
    (g : Graph) (d delegator persona from until : String)
    → In (triple d (holon "delegator") (iri delegator)) g
    → In (triple d (holon "delegatedPersona") (iri persona)) g
    → In (triple d (holon "validFrom") (lit from)) g
    → In (triple d (holon "validUntil") (lit until)) g
    → In (the_row d delegator persona from until) (rows_of g d)
row_In g d delegator persona from until a b c e =
    In-flat_map_intro _ (iri delegator) (objects g d (holon "delegator"))
      (the_row d delegator persona from until)
      (objects-In g d (holon "delegator") (iri delegator) a)
      (In-flat_map_intro _ (iri persona) (objects g d (holon "delegatedPersona"))
        (the_row d delegator persona from until)
        (objects-In g d (holon "delegatedPersona") (iri persona) b)
        (In-flat_map_intro _ (lit from) (objects g d (holon "validFrom"))
          (the_row d delegator persona from until) (objects-In g d (holon "validFrom") (lit from) c)
          (In-map_intro _ (lit until) (objects g d (holon "validUntil"))
            (objects-In g d (holon "validUntil") (lit until) e))))

any-cons_false :
    {A : Type 0} (f : A → Bool) (x : A) (xs : List A)
    → f x ≡ false
    → any f xs ≡ false
    → any f (x ∷ xs) ≡ false
any-cons_false f x xs h k = ground (arith, h, k)
