-- ===== src/Acl/Authorize/Query.antt =====
-- What a cleared query may read (`authorize_query`, holonbridge/acl.py).
use holon_bridge_python.Prelude.{
  String, ℕ, Bool, true, false, Option, none, some, List, [], ◌∷◌, ◌++◌, ◌≡◌, ◌≢◌, inl, inr, sym,
  ap, ◌∙◌, In, In-append_left, In-append_right, Option-cases, ok, ok-injective, >>=-eq-ok,
}
use mathlib.Core.Path.{subst}
use holon_bridge_python.Prelude.Sorting.{sort_by, In-sort_by}
use holon_bridge_python.Prelude.Text.{text_lt, last_part}
use holon_bridge_python.Rdf.{Graph}
use holon_bridge_python.Audit.Naming.{is_audit_graph}
use holon_bridge_python.Delegation.Lookup.{Clock, DelegationMatch, find_delegation}
use holon_bridge_python.Acl.{AclDecision, or_value_error, is_admin, check_read}
use holon_bridge_python.Acl.Algebra.{Node, uri, default_graph, nothing, leaf, many, comp, Collector}
use holon_bridge_python.Acl.Algebra.Reach.{Knows}
use holon_bridge_python.Acl.Authorize.{
  Parser, analyse_graph_refs, GateDecision, unnamed_graphs, sorted_graphs, private_space_owner,
  is_other, any_match, read_delegated, another_space, persona_space, in_persona, graph_cleared,
  all_cleared_of, query_cleared, analysed_query, authorize_query, admins_only,
}
use holon_bridge_python.Acl.Authorize.Update.{
  Names, IsUnderstood, analysed-IsUnderstood, analysed-Knows, if-allowed, either, true-false,
}

any_match-ne-nil : (ms : List DelegationMatch) → any_match ms ≡ true → ms ≢ []
unfolding any_match
any_match-ne-nil [] h e = cc
any_match-ne-nil (m ∷ ms) h e = cc

or_value_error-ok : {A : Type 0} (o : Option A) (a : A) → or_value_error o ≡ ok a → o ≡ some a
or_value_error-ok none a h = cc
or_value_error-ok (some b) a h = ap some (ok-injective h)

module _ (clock : Clock) (now : ℕ) (g : Graph) (holons_graph : String)
    (persona_of_graph private_slug : String → Option String) (person : String) where
  -- Why a person may read a graph that a query names.
  pub data MayRead (graph : String) : Type 0 where
    as_admin : is_admin g holons_graph person ≡ ok true → MayRead graph
    ground_truth :
        is_audit_graph graph holons_graph ≡ some false
        → persona_of_graph graph ≡ none
        → MayRead graph
    lent :
        is_audit_graph graph holons_graph ≡ some false
        → (ms : List DelegationMatch)
        → find_delegation clock now g holons_graph person "read" (some graph) none ≡ ok ms
        → ms ≢ []
        → MayRead graph
    granted :
        is_audit_graph graph holons_graph ≡ some false
        → (persona : String) → persona_of_graph graph ≡ some persona
        → is_other (private_space_owner private_slug graph) (last_part b':' person) ≡ false
        → (c : AclDecision) → check_read g holons_graph person persona ≡ ok c
        → c.allowed ≡ true
        → MayRead graph

  -- What a position may be in a query that is cleared.
  abbrev pub IsReadable : Node → Type 0
  IsReadable (uri graph) = MayRead graph
  IsReadable default_graph = Unit {0}
  IsReadable nothing = is_admin g holons_graph person ≡ ok true
  IsReadable leaf = is_admin g holons_graph person ≡ ok true
  IsReadable (many ns) = is_admin g holons_graph person ≡ ok true
  IsReadable (comp name fs) = is_admin g holons_graph person ≡ ok true

  delegated-MayRead :
      (graph : String)
      → is_audit_graph graph holons_graph ≡ some false
      → read_delegated clock now g holons_graph persona_of_graph private_slug person graph ≡ ok true
      → MayRead graph
  unfolding read_delegated
  delegated-MayRead graph plain h =
      let (ms, found, r) =
        >>=-eq-ok (find_delegation clock now g holons_graph person "read" (some graph) none) _ h in
      lent plain ms found (any_match-ne-nil ms (ok-injective r))

  gated-MayRead :
      (graph : String) (admin : Bool)
      → is_admin g holons_graph person ≡ ok admin
      → admin ≡ true
      → MayRead graph
  gated-MayRead graph admin is h = as_admin (is ∙ ap ok h)

  -- The two ways to clear a graph of a persona.
  persona_graph-MayRead :
      (graph persona : String)
      → is_audit_graph graph holons_graph ≡ some false
      → persona_of_graph graph ≡ some persona
      → in_persona clock now g holons_graph persona_of_graph private_slug person graph
          (some persona)
        ≡ ok true
      → MayRead graph
  unfolding in_persona another_space persona_space
  persona_graph-MayRead graph persona plain owned h =
      elim (either (is_other (private_space_owner private_slug graph) (last_part b':' person)) h) [
        | inl (others, space) ↦
            let (admin, is, r) = >>=-eq-ok (is_admin g holons_graph person) _ space in
            elim (either admin r) [
              | inl (yes_admin, done) ↦ gated-MayRead graph admin is yes_admin
              | inr (plain_user, lent_out) ↦ delegated-MayRead graph plain lent_out
            ]
        | inr (own, space) ↦
            let (c, checked, r) = >>=-eq-ok (check_read g holons_graph person persona) _ space in
            elim (either c.allowed r) [
              | inl (allowed, done) ↦ granted plain persona owned own c checked allowed
              | inr (denied, lent_out) ↦ delegated-MayRead graph plain lent_out
            ]
      ]

  graph_cleared-MayRead :
      (graph : String)
      → graph_cleared clock now g holons_graph persona_of_graph private_slug person graph ≡ ok true
      → MayRead graph
  unfolding graph_cleared
  graph_cleared-MayRead graph h =
      let (audited, named, r) =
        >>=-eq-ok (or_value_error (is_audit_graph graph holons_graph)) _ h in
      let known = or_value_error-ok (is_audit_graph graph holons_graph) audited named in
      elim (either audited r) [
        | inl (is_audit, is) ↦ as_admin is
        | inr (plain, space) ↦
            let not_audit = known ∙ ap some plain in
            elim (Option-cases (persona_of_graph graph)) [
              | inl e ↦ ground_truth not_audit e
              | inr (persona, e) ↦ persona_graph-MayRead graph persona not_audit e (
                  sym (
                    ap
                      (in_persona clock now g holons_graph persona_of_graph private_slug person
                        graph)
                      e)
                  ∙ space)
            ]
      ]

  all_cleared-MayRead :
      (gs : List String) (d : GateDecision)
      → all_cleared_of clock now g holons_graph persona_of_graph private_slug person gs ≡ ok d
      → d.allowed ≡ true
      → (graph : String) → In graph gs
      → MayRead graph
  unfolding all_cleared_of
  all_cleared-MayRead [] d h allowed graph m = absurd m
  all_cleared-MayRead (x ∷ xs) d h allowed graph m =
      let (fine, is, r) =
        >>=-eq-ok (graph_cleared clock now g holons_graph persona_of_graph private_slug person x) _
          h in
      let (yes_fine, rest) = if-allowed fine _ _ d r allowed in
      elim m [
        | inl e ↦ subst MayRead (sym e) (graph_cleared-MayRead x (is ∙ ap ok yes_fine))
        | inr m' ↦ all_cleared-MayRead xs d rest allowed graph m'
      ]

  known-IsReadable :
      (a : Collector) (d : GateDecision) (w : Bool) (t : Node)
      → (a.dynamic ≡ true → is_admin g holons_graph person ≡ ok true)
      → ((graph : String) → In graph (a.refs ++ a.replace_refs) → MayRead graph)
      → Knows a w t
      → IsReadable t
  known-IsReadable a d true (uri graph) dynamic graphs k =
      graphs graph (In-append_right graph a.refs a.replace_refs k)
  known-IsReadable a d false (uri graph) dynamic graphs k =
      graphs graph (In-append_left graph a.refs a.replace_refs k)
  known-IsReadable a d w default_graph dynamic graphs k = tt
  known-IsReadable a d w nothing dynamic graphs k = dynamic k
  known-IsReadable a d w leaf dynamic graphs k = dynamic k
  known-IsReadable a d w (many ns) dynamic graphs k = dynamic k
  known-IsReadable a d w (comp name fs) dynamic graphs k = dynamic k

  query_cleared-IsReadable :
      (a : Collector) (d : GateDecision) (w : Bool) (t : Node)
      → query_cleared clock now g holons_graph persona_of_graph private_slug person a ≡ ok d
      → d.allowed ≡ true
      → Knows a w t
      → IsReadable t
  unfolding query_cleared admins_only sorted_graphs
  query_cleared-IsReadable a d w t h allowed =
      let gs = a.refs ++ a.replace_refs in
      let each =
        λ (r : all_cleared_of clock now g holons_graph persona_of_graph private_slug person
              (sort_by text_lt gs)
            ≡ ok d).
          λ (graph : String) (m : In graph gs).
            all_cleared-MayRead (sort_by text_lt gs) d r allowed graph
              ((In-sort_by text_lt graph gs).1 m) in
      elim (either a.dynamic h) [
        | inl (dynamic, gated) ↦
            let (admin, is, r) = >>=-eq-ok (is_admin g holons_graph person) _ gated in
            let (yes_admin, rest) = if-allowed admin _ unnamed_graphs d r allowed in
            known-IsReadable a d w t (λ k. is ∙ ap ok yes_admin) (each rest)
        | inr (named, rest) ↦
            known-IsReadable a d w t (λ k. absurd (true-false (sym k ∙ named))) (each rest)
      ]

  -- A query that the gate allows is understood and reads nothing unchecked. It parses, or it holds RDF 1.2
  -- and each graph keyword in it is followed by an IRI. Each graph position of it, at any depth, is the
  -- default graph or a graph that is named; a position that cannot be known is an admin's. To a person who is
  -- no admin, a named graph is no audit graph, and it is ground truth, or an active delegation to read names
  -- it, or it is not another person's private space and the read check of its persona allows it.
  pub authorize_query-IsReadable :
      (parser : Parser) (text : String) (d : GateDecision)
      → authorize_query clock now g holons_graph persona_of_graph private_slug parser
          (some person)
          text
        ≡ ok d
      → d.allowed ≡ true
      → IsUnderstood parser text × ((w : Bool) (t : Node) → Names parser text w t → IsReadable t)
  unfolding authorize_query
  authorize_query-IsReadable parser text d h allowed =
      let analysed = analysed_query clock now g holons_graph persona_of_graph private_slug person in
      elim (Option-cases (analyse_graph_refs parser text)) [
        | inl e ↦
            let refusal =
              ap (λ (x : GateDecision). x.allowed) (ok-injective (sym (ap analysed e) ∙ h)) in
            absurd (true-false (sym allowed ∙ sym refusal))
        | inr (a, e) ↦ (
          analysed-IsUnderstood parser text a e,
          λ w t names.
              query_cleared-IsReadable a d w t (sym (ap analysed e) ∙ h) allowed
                (analysed-Knows parser text a e w t names),
        )
      ]
