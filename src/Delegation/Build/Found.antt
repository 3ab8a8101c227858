-- ===== src/Delegation/Build/Found.antt =====
-- A delegation that was built is found.
use holon_bridge_python.Prelude.{
  ℕ, ◌≤◌, ◌<◌, String, List, [], ◌∷◌, ◌++◌, true, false, ◌||◌, Option, some, ◌≡◌, ◌⊎◌, inl, inr,
  refl, sym, ◌∙◌, ok, err, ok-injective, ◌==◌, arith, In, Bool-cases, contains, all,
}
use holon_bridge_python.Prelude.Text.{any_char}
use holon_bridge_python.Rdf.{iri, lit, Graph, ask, ask_any}
use holon_bridge_python.Delegation.Lookup.{
  Clock, parse_dt, holon, rdf_type, DelegationMatch, find_delegation,
}
use holon_bridge_python.Delegation.Request.{
  safe_iri, unusable_iri, unsafe_char, permissions_allowed,
}
use holon_bridge_python.Delegation.Build.{note_fits, safe_all, build_delegation, statements}
use holon_bridge_python.Delegation.Build.Statements.{statements_found}

safe_iri-cases : (v : String) → (safe_iri v ≡ ok v) ⊎ (safe_iri v ≡ err unusable_iri)
unfolding safe_iri
safe_iri-cases v = elim (Bool-cases (v == "" || any_char unsafe_char v)) [
  | inl e ↦ inr (rw e refl)
  | inr e ↦ inl (rw e refl)
]

safe_all-cases : (vs : List String) → (safe_all vs ≡ ok vs) ⊎ (safe_all vs ≡ err unusable_iri)
unfolding safe_all
safe_all-cases [] = inl refl
safe_all-cases (v ∷ vs) = elim (safe_iri-cases v) [
  | inr e ↦ inr (rw e refl)
  | inl e ↦ elim (safe_all-cases vs) [ inr d ↦ inr (rw (e, d) refl) | inl d ↦ inl (rw (e, d) refl) ]
]

built_statements :
    (d delegator delegate persona from until : String) (graphs permissions : List String)
    (remark : Option String) (b : Graph)
    → build_delegation d delegator delegate persona graphs permissions from until remark ≡ ok b
    → statements d delegator delegate persona graphs permissions from until remark ≡ b
unfolding build_delegation
built_statements d delegator delegate persona from until graphs permissions remark b h =
    elim (safe_iri-cases d) [
      | inr e ↦ ground (arith, e)
      | inl e1 ↦ elim (safe_iri-cases delegator) [
        | inr e ↦ ground (arith, e1, e)
        | inl e2 ↦ elim (safe_iri-cases delegate) [
          | inr e ↦ ground (arith, e1, e2, e)
          | inl e3 ↦ elim (safe_iri-cases persona) [
            | inr e ↦ ground (arith, e1, e2, e3, e)
            | inl e4 ↦ elim (safe_all-cases graphs) [
              | inr e ↦ ground (arith, e1, e2, e3, e4, e)
              | inl e5 ↦ elim (Bool-cases (all (λ p. contains p permissions_allowed) permissions)) [
                | inr e ↦ ground (arith, e1, e2, e3, e4, e5, e)
                | inl e6 ↦ elim (Bool-cases (note_fits remark)) [
                  | inr e ↦ ground (arith, e1, e2, e3, e4, e5, e6, e)
                  | inl e7 ↦ ok-injective (sym (rw (e1, e2, e3, e4, e5, e6, e7) refl) ∙ h)
                ]
              ]
            ]
          ]
        ]
      ]
    ]

-- A delegation that build_delegation makes, added to a graph where the delegator is an active Person and
-- nothing revokes it, is among the matches of each lookup within its window that is not refused, for
-- its delegate, one of its permissions, one of its graphs and its delegator.
pub build_delegation_found :
    (clock : Clock) (now : ℕ) (d delegator delegate persona from until : String)
    (graphs permissions : List String) (remark : Option String) (g b : Graph)
    (holons_graph permission target : String) (start end : ℕ) (ms : List DelegationMatch)
    → build_delegation d delegator delegate persona graphs permissions from until remark ≡ ok b
    → In permission permissions
    → In target graphs
    → parse_dt clock from ≡ some start
    → parse_dt clock until ≡ some end
    → start ≤ now
    → now < end
    → ask_any g d (holon "revokedAt") ≡ false
    → ask g delegator rdf_type (iri (holon "Person")) ≡ true
    → ask g delegator (holon "status") (lit "inactive") ≡ false
    → find_delegation clock now
        (b ++ g)
        holons_graph
        delegate
        permission
        (some target)
        (some delegator)
      ≡ ok ms
    → In (record { delegation = d; delegator = delegator; persona = persona }) ms
build_delegation_found clock now d delegator delegate persona from until graphs permissions remark g
      b holons_graph permission target start end ms made allowed covered starts ends begun unexpired
      unrevoked person active found =
    let same =
      built_statements d delegator delegate persona from until graphs permissions remark b made in
    statements_found clock now d delegator delegate persona from until graphs permissions remark g
      holons_graph permission target start end ms allowed covered starts ends begun unexpired
      unrevoked person active (rw same found)
