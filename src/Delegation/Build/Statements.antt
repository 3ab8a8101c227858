-- ===== src/Delegation/Build/Statements.antt =====
-- What the triples of a Delegation say, and that a lookup finds them.
use holon_bridge_python.Prelude.{
  ℕ, ◌≤◌, ◌<◌, String, List, [], ◌∷◌, ◌++◌, map, Bool, true, false, ◌&&◌, Option, none, some, ◌≡◌,
  inl, inr, refl, sym, ◌∙◌, ap, ok, ◌==◌, eq_iff, some-injective, arith, In, In-append_left,
  In-append_right, In-select, any, Bool-cases, select,
}
use holon_bridge_python.Rdf.{Term, iri, lit, Triple, Graph, matches_triple, ask, ask_any, subjects}
use holon_bridge_python.Delegation.Lookup.{
  Clock, parse_dt, holon, rdf_type, DelegationMatch, rows_of, grants_to, candidates,
  find_delegation,
}
use holon_bridge_python.Delegation.Lookup.Active.{find_delegation_iff}
use holon_bridge_python.Delegation.Build.{statements, comments, of_graph, of_permission}
use holon_bridge_python.Delegation.Build.Membership.{
  the_row, says, triple, any-append_false, any-map-false, In-flat_map_intro, In-map_intro, ask-In,
  subjects-In, row_In,
}

module _ (d delegator delegate persona from until : String) (graphs permissions : List String)
    (remark : Option String) where
  abbrev built : Graph
  built = statements d delegator delegate persona graphs permissions from until remark

  silent_comment :
      (f : Triple → Bool)
      → ((t : Triple) → says t.predicate ≡ true → f t ≡ false)
      → (o : Option String) → any f (comments d o) ≡ false
  silent_comment f h none = refl
  silent_comment f h (some s) = elim (Bool-cases (s == "")) [
    | inl e ↦ rw e refl
    | inr e ↦
        let quiet = h (triple d "http://www.w3.org/2000/01/rdf-schema#comment" (lit s)) refl in
        ground (arith, e, quiet)
  ]

  -- What is built says nothing with a predicate of another kind.
  silent :
      (f : Triple → Bool)
      → ((t : Triple) → says t.predicate ≡ true → f t ≡ false)
      → any f built ≡ false
  unfolding statements
  silent f h =
      let at : (p : String) (o : Term) → says p ≡ true → f (triple d p o) ≡ false =
        λ p o k. h (triple d p o) k in
      let tail =
        any-append_false f (map (of_graph d) graphs)
          (map (of_permission d) permissions ++ comments d remark)
          (any-map-false f (of_graph d) graphs (λ x. h (of_graph d x) refl))
          (any-append_false f (map (of_permission d) permissions) (comments d remark)
            (any-map-false f (of_permission d) permissions (λ x. h (of_permission d x) refl))
            (silent_comment f h remark)) in
      rw
        (
          at rdf_type (iri (holon "Delegation")) refl,
          at (holon "delegator") (iri delegator) refl,
          at (holon "delegate") (iri delegate) refl,
          at (holon "delegatedPersona") (iri persona) refl,
          at (holon "validFrom") (lit from) refl,
          at (holon "validUntil") (lit until) refl,
        )
        tail

  module _ (g : Graph) where
    states : (t : Triple) → In t built → In t (built ++ g)
    states t m = In-append_left t built g m

    states_graph : (target : String) → In target graphs → In (of_graph d target) built
    unfolding statements
    states_graph target m =
        let here =
          In-append_left (of_graph d target) (map (of_graph d) graphs)
            (map (of_permission d) permissions ++ comments d remark)
            (In-map_intro (of_graph d) target graphs m) in
        inr (inr (inr (inr (inr (inr here)))))

    states_permission :
        (permission : String) → In permission permissions → In (of_permission d permission) built
    unfolding statements
    states_permission permission m =
        let stated = In-map_intro (of_permission d) permission permissions m in
        let first =
          In-append_left (of_permission d permission) (map (of_permission d) permissions)
            (comments d remark) stated in
        let here =
          In-append_right (of_permission d permission) (map (of_graph d) graphs)
            (map (of_permission d) permissions ++ comments d remark) first in
        inr (inr (inr (inr (inr (inr here)))))

    built_row : In (the_row d delegator persona from until) (rows_of (built ++ g) d)
    unfolding statements
    built_row =
        row_In (built ++ g) d delegator persona from until (inr (inl refl))
          (inr (inr (inr (inl refl)))) (inr (inr (inr (inr (inl refl)))))
          (inr (inr (inr (inr (inr (inl refl))))))

    built_grants :
        (permission : String)
        → In permission permissions
        → grants_to (built ++ g) delegate permission d ≡ true
    unfolding statements
    built_grants permission m =
        let a = ask-In (built ++ g) d (holon "delegate") (iri delegate) (inr (inr (inl refl))) in
        let b =
          ask-In (built ++ g) d (holon "delegatedPermission") (lit permission)
            (states (of_permission d permission) (states_permission permission m)) in
        rw (a, b) refl

    built_subject : In d (subjects (built ++ g) rdf_type (iri (holon "Delegation")))
    unfolding statements
    built_subject = subjects-In (built ++ g) d rdf_type (iri (holon "Delegation")) (inl refl)

    is_candidate :
        (permission : String)
        → In permission permissions
        → In (the_row d delegator persona from until) (candidates (built ++ g) delegate permission)
    unfolding candidates
    is_candidate permission m =
        let chosen =
          (In-select (grants_to (built ++ g) delegate permission) d
              (subjects (built ++ g) rdf_type (iri (holon "Delegation")))).1
            (built_subject, built_grants permission m) in
        In-flat_map_intro (rows_of (built ++ g)) d
          (select (grants_to (built ++ g) delegate permission)
            (subjects (built ++ g) rdf_type (iri (holon "Delegation"))))
          (the_row d delegator persona from until) chosen built_row

unsaid_any :
    (s : String) (t : Triple)
    → says t.predicate ≡ true
    → (t.subject == s && t.predicate == holon "revokedAt") ≡ false
unsaid_any s t h = elim (Bool-cases (t.predicate == holon "revokedAt")) [
  | inr e ↦ ground (arith, e)
  | inl e ↦
      let same = (eq_iff t.predicate (holon "revokedAt")).0 e in
      let no = ap says (sym same) ∙ h in cc
]

unsaid :
    (s : String) (t : Triple)
    → says t.predicate ≡ true
    → matches_triple s (holon "status") (lit "inactive") t ≡ false
unsaid s t h = elim (Bool-cases (t.predicate == holon "status")) [
  | inr e ↦ ground (arith, e)
  | inl e ↦
      let same = (eq_iff t.predicate (holon "status")).0 e in let no = ap says (sym same) ∙ h in cc
]

any-append_self :
    {A : Type 0} (f : A → Bool) (xs ys : List A) → any f ys ≡ true → any f (xs ++ ys) ≡ true
any-append_self f [] ys h = h
any-append_self f (x ∷ xs) ys h = let rest = any-append_self f xs ys h in ground (arith, rest)

pub statements_found :
    (clock : Clock) (now : ℕ) (d delegator delegate persona from until : String)
    (graphs permissions : List String) (remark : Option String) (g : Graph)
    (holons_graph permission target : String) (start end : ℕ) (ms : List DelegationMatch)
    → In permission permissions
    → In target graphs
    → parse_dt clock from ≡ some start
    → parse_dt clock until ≡ some end
    → start ≤ now
    → now < end
    → ask_any g d (holon "revokedAt") ≡ false
    → ask g delegator rdf_type (iri (holon "Person")) ≡ true
    → ask g delegator (holon "status") (lit "inactive") ≡ false
    → find_delegation clock now
        (statements d delegator delegate persona graphs permissions from until remark ++ g)
        holons_graph
        delegate
        permission
        (some target)
        (some delegator)
      ≡ ok ms
    → In (record { delegation = d; delegator = delegator; persona = persona }) ms
statements_found clock now d delegator delegate persona from until graphs permissions remark g
      holons_graph permission target start end ms allowed covered starts ends begun unexpired
      unrevoked person active found =
    let b = statements d delegator delegate persona graphs permissions from until remark in
    let row = the_row d delegator persona from until in
    let quiet : (f : Triple → Bool)
        → ((t : Triple) → says t.predicate ≡ true → f t ≡ false)
        → any f b ≡ false =
      silent d delegator delegate persona from until graphs permissions remark in
    let m : DelegationMatch = record { delegation = d; delegator = delegator; persona = persona } in
    (find_delegation_iff clock now (b ++ g) holons_graph delegate permission (some target)
        (some delegator) ms found m).1
      (
        row,
        is_candidate d delegator delegate persona from until graphs permissions remark g permission
            allowed,
        record {
          start = start;
          end = end;
          starts = starts;
          ends = ends;
          begun = begun;
          unexpired = unexpired;
          unrevoked = any-append_false _ b g (quiet _ (unsaid_any d)) unrevoked;
          person = any-append_self _ b g person;
          not_inactive = any-append_false _ b g (quiet _ (unsaid delegator)) active;
        },
        record {
          covers = λ t e. rw (sym (some-injective e)) (
              ask-In (b ++ g) d (holon "delegatedGraph") (iri target) (
                states d delegator delegate persona from until graphs permissions remark g
                  (of_graph d target)
                  (states_graph d delegator delegate persona from until graphs permissions remark g
                    target covered)));
          from_delegator = λ p e. some-injective e;
        },
        refl,
      )
