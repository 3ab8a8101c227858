-- ===== src/Acl/Independence.antt =====
-- The audit graphs, the replace check, the owner tier and the read check.
use holon_bridge_python.Prelude.{
  ℕ, String, List, [], ◌∷◌, In, In-select, In-map, map-In, In-flat_map, flat_map-In, flat_map, map,
  List-cases, &&-true, &&-intro, ◌&&◌, ap, ◌∙◌, true, false, some, ◌≡◌, ◌≢◌, ◌↔◌, ◌⊎◌, inl, inr, ok,
  err, ◌>>=◌, refl, arith, ◌||◌,
}
use holon_bridge_python.Rdf.{Graph, Term, iri, value, objects, ask}
use holon_bridge_python.Audit.Naming.{swap, is_audit_graph}
use holon_bridge_python.Delegation.Request.{DelegationError, Checked}
use holon_bridge_python.Delegation.Lookup.{Clock, holon, rdf_type}
use holon_bridge_python.Acl.{
  AclDecision, admin_role, owner_role, is_admin, is_owner, grant_target, check_read, check_write,
  check_replace, denied_by_override, role_grants, decide_without_grant, admin_bypass, audit_only,
}

-- Neither check ever allows a write to the audit log or its configuration, whatever the graph holds:
-- an admin and an owner are refused too.
pub audit_graphs_closed :
    (clock : Clock) (now : ℕ) (g : Graph) (holons_graph person target : String)
    → is_audit_graph target holons_graph ≡ some true
    → (check_write clock now g holons_graph person target
        ≡ ok (decide_without_grant false audit_only person))
      × (check_replace g holons_graph person target
          ≡ ok (decide_without_grant false audit_only person))
unfolding check_write check_replace
audit_graphs_closed clock now g holons_graph person target h = ground arith

Checked-cases :
    (r : Checked String) → ((a : String) × (r ≡ ok a)) ⊎ ((e : DelegationError) × (r ≡ err e))
Checked-cases (ok a) = inl (a, refl)
Checked-cases (err e) = inr (e, refl)

owner_admin :
    (g : Graph) (holons_graph person : String)
    → is_owner g holons_graph person ≡ ok true
    → is_admin g holons_graph person ≡ ok true
unfolding is_owner is_admin admin_role owner_role swap
owner_admin g holons_graph person h = ground arith

module _ (g g' : Graph) (holons_graph person : String)
    (roles : (o : Term)
      → ask g person (holon "hasRole") o ≡ ask g' person (holon "hasRole") o) where
  same_admin : is_admin g holons_graph person ≡ is_admin g' holons_graph person
  unfolding is_admin
  same_admin = go (admin_role holons_graph) (owner_role holons_graph)
    where
      go :
          (a b : Checked String)
          → (do
            admin ← a
            owner ← b
            ok (
                ask g person (holon "hasRole") (iri admin)
                || ask g person (holon "hasRole") (iri owner)))
            ≡ (do
              admin ← a
              owner ← b
              ok (
                  ask g' person (holon "hasRole") (iri admin)
                  || ask g' person (holon "hasRole") (iri owner)))
      go (ok a) (ok b) = rw (roles (iri a), roles (iri b))
      go (err e) b = refl
      go (ok a) (err e) = refl

  replace_at :
      (target : String)
      → ((graph : String)
          → ask g graph (holon "grantsReplace") (iri person)
            ≡ ask g' graph (holon "grantsReplace") (iri person))
      → check_replace g holons_graph person target ≡ check_replace g' holons_graph person target
  unfolding check_replace
  replace_at target grants = elim (Checked-cases (grant_target holons_graph target)) [
    | inl (graph, e) ↦ rw (e, same_admin, grants graph)
    | inr (x, e) ↦ rw (e, same_admin)
  ]

-- The replace check reads only the person's roles and the grantsReplace triples: two graphs that agree
-- on those give the same decision, whatever delegations and grantsWrite triples they hold.
pub check_replace_reads :
    (g g' : Graph) (holons_graph person target : String)
    → ((o : Term) → ask g person (holon "hasRole") o ≡ ask g' person (holon "hasRole") o)
    → ((graph : String)
        → ask g graph (holon "grantsReplace") (iri person)
          ≡ ask g' graph (holon "grantsReplace") (iri person))
    → check_replace g holons_graph person target ≡ check_replace g' holons_graph person target
check_replace_reads g g' holons_graph person target roles grants =
    replace_at g g' holons_graph person roles target grants

-- An owner passes every admin check: the owner role implies admin standing, so an owner may write and
-- replace every graph that is not an audit graph.
pub owner_is_admin :
    (clock : Clock) (now : ℕ) (g : Graph) (holons_graph person target : String)
    → is_owner g holons_graph person ≡ ok true
    → is_audit_graph target holons_graph ≡ some false
    → (is_admin g holons_graph person ≡ ok true)
      × ((w : AclDecision) × (check_write clock now g holons_graph person target ≡ ok w)
          × (w.allowed ≡ true)
          × (check_replace g holons_graph person target ≡ ok w))
owner_is_admin clock now g holons_graph person target h free =
    let admin = owner_admin g holons_graph person h in
    (
      admin,
      (
        decide_without_grant true admin_bypass person,
        unfold check_write in rw (free, admin),
        refl,
        unfold check_replace in rw (free, admin),
      ),
    )

-- A role of the person carries a grant of the class on what it is for.
abbrev pub HasGrant : Graph → (person class scope : String) → Type 0
HasGrant g person class scope =
    (role : Term) × (grant : Term) × In role (objects g person (holon "hasRole"))
    × In grant (objects g (value role) (holon "grants"))
    × (ask g (value grant) rdf_type (iri (holon class)) ≡ true)
    × (ask g (value grant) (holon "scope") (iri scope) ≡ true)

In-ne-nil : {A : Type 0} (x : A) (xs : List A) → In x xs → xs ≢ []
In-ne-nil x [] m h = m
In-ne-nil x (y ∷ ys) m h = cc

role_grants-HasGrant :
    (g : Graph) (person class scope : String)
    → (role_grants g person class scope ≢ []) ↔ HasGrant g person class scope
unfolding role_grants
role_grants-HasGrant g person class scope =
    let test = λ (grant : String).
      ask g grant rdf_type (iri (holon class)) && ask g grant (holon "scope") (iri scope) in
    let of_role = λ (role : Term). map value (objects g (value role) (holon "grants")) in
    let roles = objects g person (holon "hasRole") in
    (
      λ some_grant. elim (List-cases (role_grants g person class scope)) [
        | inl e ↦ absurd (some_grant e)
        | inr (x, rest, e) ↦
            let (m, passes) = (In-select test x (flat_map of_role roles)).0 (rw e (inl refl)) in
            let (role, held, of_it) = In-flat_map of_role roles x m in
            let (grant, there, same) =
              In-map value x (objects g (value role) (holon "grants")) of_it in
            let (typed, scoped) = &&-true _ _ (ap test same ∙ passes) in
            (role, grant, held, there, typed, scoped)
      ],
      λ (role, grant, held, there, typed, scoped). In-ne-nil (value grant) _ (
          (In-select test (value grant) (flat_map of_role roles)).1 (
            flat_map-In of_role roles (value grant) role held
                (map-In value grant (objects g (value role) (holon "grants")) there),
            &&-intro _ _ typed scoped,
          )),
    )

check_read_grants :
    (g : Graph) (holons_graph person persona : String) (dec : AclDecision)
    → check_read g holons_graph person persona ≡ ok dec
    → (dec.allowed ≡ true) ↔ (
        (is_admin g holons_graph person ≡ ok true)
        ⊎ (denied_by_override g persona person ≡ false)
          × (role_grants g person "ReadGrant" persona ≢ []))
unfolding check_read
check_read_grants g holons_graph person persona dec h = (ground arith, λ may. ground arith)

-- A read check that answers allows the read exactly when the person is an admin, or no deniedTo
-- override names the person and one of the person's roles carries a ReadGrant on the Persona: the
-- override wins over every role grant and yields to admin standing only.
pub check_read_iff :
    (g : Graph) (holons_graph person persona : String) (dec : AclDecision)
    → check_read g holons_graph person persona ≡ ok dec
    → (dec.allowed ≡ true) ↔ (
        (is_admin g holons_graph person ≡ ok true)
        ⊎ (ask g persona (holon "deniedTo") (iri person) ≡ false)
          × HasGrant g person "ReadGrant" persona)
check_read_iff g holons_graph person persona dec h =
    let roles = role_grants-HasGrant g person "ReadGrant" persona in
    let iff = check_read_grants g holons_graph person persona dec h in
    (
      λ allowed. elim (iff.0 allowed) [
        | inl admin ↦ inl admin
        | inr (open_to, grants) ↦ inr (unfold denied_by_override in open_to, roles.0 grants)
      ],
      λ may. iff.1 (elim may [
        | inl admin ↦ inl admin
        | inr (open_to, grant) ↦ inr (unfold denied_by_override in open_to, roles.1 grant)
      ]),
    )
