-- ===== src/Tests/Grants.antt =====
-- Runs of the grant checks, delegations and trigger firings.
use holon_bridge_python.Prelude.{
  String, List, [], ◌∷◌, Bool, true, false, ◌&&◌, ◌||◌, ◌==◌, none, some, ◌≡◌, ◌≢◌, ◌↔◌, ◌⊎◌, inl,
  refl, ok, In, contains,
}
use holon_bridge_python.Prelude.Sorting.{sort_by}
use holon_bridge_python.Prelude.Text.{last_part, drop_suffix}
use holon_bridge_python.Rdf.{Term, iri, lit, Graph, ask}
use holon_bridge_python.Audit.Naming.{is_audit_graph, audit_graph, config_graph, swap}
use holon_bridge_python.Delegation.Request.{safe_iri}
use holon_bridge_python.Delegation.Lookup.{
  holon, rdf_type, DelegationMatch, Row, candidates, to_match, find_delegation, live_matches,
  is_live, in_window, parse_dt,
}
use holon_bridge_python.Delegation.Lookup.Active.{find_delegation_iff, IsActive, Fits}
use holon_bridge_python.Delegation.Resolve.{
  ReadDelegation, persona_names, resolve_read_delegation, revoke_update, stamp, covered_graphs,
  covered_rows, covering, choose, short_name,
}
use holon_bridge_python.Delegation.Resolve.Scope.{
  resolve_read_delegation_scope, IsChosen, IsCovered,
}
use holon_bridge_python.Delegation.Resolve.Revoked.{revoke_update_final, revoke_update_idem}
use holon_bridge_python.Acl.{
  AclDecision, check_write, check_replace, check_read, is_admin, is_owner, admin_role, owner_role,
  is_scratch_graph, scratch_area, denied_by_override, role_grants, audit_only, no_read_grant,
  delegated_from, grant_target,
}
use holon_bridge_python.Acl.Write.{check_write_iff, MayWrite}
use holon_bridge_python.Acl.Independence.{
  audit_graphs_closed, check_replace_reads, owner_is_admin, check_read_iff, HasGrant,
}
use holon_bridge_python.TriggerAuthz.{Rule, authorize_firing, require_grant, wholesale_modes}
use holon_bridge_python.TriggerAuthz.Firing.{authorize_firing_unreviewed, Writes, Replaces}
use holon_bridge_python.Tests.Samples.{holons, graph, clock, access}

-- bob's delegation lets him write the scene.
abbrev by_d1 : DelegationMatch
by_d1 = record { delegation = "d1"; delegator = "ann"; persona = "urn:d:persona:ops" }

bob_found :
    find_delegation clock 50 graph holons "bob" "write" (some "urn:d:scene") none ≡ ok (by_d1 ∷ [])
unfolding sort_by find_delegation safe_iri live_matches candidates is_live in_window parse_dt
bob_found = refl

find_delegation_iff_example : In by_d1 (by_d1 ∷ []) ↔ (
    (row : Row) × In row (candidates graph "bob" "write")
    × IsActive clock 50 graph row
    × Fits graph (some "urn:d:scene") none row
    × (by_d1 ≡ to_match row))
find_delegation_iff_example =
    find_delegation_iff clock 50 graph holons "bob" "write" (some "urn:d:scene") none (by_d1 ∷ [])
      bob_found by_d1

abbrev bob_reads : ReadDelegation
bob_reads = record { delegator = "ann"; persona = "ops"; graphs = "urn:d:scene" ∷ [] }

abbrev persona_iri_of : String → String
persona_iri_of name = "urn:d:persona:ops"

bob_resolved :
    resolve_read_delegation clock 50 graph holons "bob" "ann" none persona_iri_of ≡ ok bob_reads
unfolding sort_by resolve_read_delegation find_delegation safe_iri live_matches candidates is_live
    in_window parse_dt choose persona_names covered_graphs covered_rows covering short_name
    last_part
bob_resolved = refl

resolve_read_delegation_scope_example :
    (bob_reads.delegator ≡ "ann")
    × (bob_reads.graphs ≢ [])
    × ((ms : List DelegationMatch) × (find_delegation clock 50 graph holons "bob" "read" none
            (some "ann")
          ≡ ok ms)
        × IsChosen none (persona_names ms) "ops")
    × ((g : String)
        → In g bob_reads.graphs
        → IsCovered clock 50 graph "bob" "ann" (persona_iri_of "ops") g)
resolve_read_delegation_scope_example =
    resolve_read_delegation_scope clock 50 graph holons "bob" "ann" none persona_iri_of bob_reads
      bob_resolved

abbrev revoked_graph : Graph
revoked_graph = record { subject = "d1"; predicate = holon "revokedAt"; object = lit "60" } ∷ graph

d1_revoked : revoke_update graph holons "d1" "60" ≡ ok revoked_graph
unfolding revoke_update stamp safe_iri
d1_revoked = refl

revoked_twice : revoke_update revoked_graph holons "d1" "70" ≡ ok revoked_graph
revoked_twice = revoke_update_idem graph revoked_graph holons "d1" "60" "70" d1_revoked

-- A second delegation of ann's to bob.
abbrev two_delegations : Graph
two_delegations =
    record { subject = "d2"; predicate = rdf_type; object = iri (holon "Delegation") }
    ∷ record { subject = "d2"; predicate = holon "delegate"; object = iri "bob" }
    ∷ record { subject = "d2"; predicate = holon "delegator"; object = iri "ann" }
    ∷ record {
      subject = "d2";
      predicate = holon "delegatedPersona";
      object = iri "urn:d:persona:ops";
    }
    ∷ record { subject = "d2"; predicate = holon "delegatedPermission"; object = lit "write" }
    ∷ record { subject = "d2"; predicate = holon "validFrom"; object = lit "0" }
    ∷ record { subject = "d2"; predicate = holon "validUntil"; object = lit "100" }
    ∷ graph

abbrev d1_revoked_twice : Graph
d1_revoked_twice =
    record { subject = "d1"; predicate = holon "revokedAt"; object = lit "60" } ∷ two_delegations

d1_of_two : revoke_update two_delegations holons "d1" "60" ≡ ok d1_revoked_twice
unfolding revoke_update stamp safe_iri
d1_of_two = refl

abbrev by_d2 : DelegationMatch
by_d2 = record { delegation = "d2"; delegator = "ann"; persona = "urn:d:persona:ops" }

d2_found :
    find_delegation clock 70 d1_revoked_twice holons "bob" "write" none none ≡ ok (by_d2 ∷ [])
unfolding sort_by find_delegation safe_iri live_matches candidates is_live in_window parse_dt
d2_found = refl

revoke_update_final_example : by_d2.delegation ≢ "d1"
revoke_update_final_example =
    revoke_update_final two_delegations d1_revoked_twice holons "d1" "60" d1_of_two refl clock 70
      "bob" "write" none none (by_d2 ∷ []) d2_found by_d2 (inl refl)

-- bob may write the scene as ann's delegate.
abbrev bob_writes : AclDecision
bob_writes = record {
  allowed = true;
  reason = delegated_from "ann";
  person = "bob";
  matched_grant = some "d1";
}

bob_checked : check_write clock 50 graph holons "bob" "urn:d:scene" ≡ ok bob_writes
unfolding sort_by check_write is_audit_graph audit_graph config_graph swap is_admin admin_role
    owner_role is_scratch_graph scratch_area grant_target find_delegation safe_iri live_matches
    candidates is_live in_window parse_dt drop_suffix
bob_checked = refl

check_write_iff_example : (bob_writes.allowed ≡ true) ↔ (
    (is_audit_graph "urn:d:scene" holons ≡ some false)
    × MayWrite clock 50 graph holons "bob" "urn:d:scene")
check_write_iff_example =
    check_write_iff clock 50 graph holons "bob" "urn:d:scene" bob_writes bob_checked

audit_named : is_audit_graph "urn:d:audit" holons ≡ some true
unfolding is_audit_graph audit_graph config_graph swap drop_suffix
audit_named = refl

scene_named : is_audit_graph "urn:d:scene" holons ≡ some false
unfolding is_audit_graph audit_graph config_graph swap drop_suffix
scene_named = refl

abbrev refusal : AclDecision
refusal = record { allowed = false; reason = audit_only; person = "ann"; matched_grant = none }

audit_closed :
    (check_write clock 50 graph holons "ann" "urn:d:audit" ≡ ok refusal)
    × (check_replace graph holons "ann" "urn:d:audit" ≡ ok refusal)
audit_closed = audit_graphs_closed clock 50 graph holons "ann" "urn:d:audit" audit_named

-- The second graph lets bob append to the scene.
abbrev appending : Graph
appending =
    record { subject = "urn:d:scene"; predicate = holon "grantsWrite"; object = iri "bob" } ∷ graph

same_roles :
    (o : Term) → ask graph "bob" (holon "hasRole") o ≡ ask appending "bob" (holon "hasRole") o
same_roles o = refl

skip : (b y : Bool) → y ≡ ((b && false) || y)
skip true y = refl
skip false y = refl

same_grants :
    (target : String)
    → ask graph target (holon "grantsReplace") (iri "bob")
      ≡ ask appending target (holon "grantsReplace") (iri "bob")
same_grants target =
    skip ("urn:d:scene" == target) (ask graph target (holon "grantsReplace") (iri "bob"))

check_replace_reads_example :
    check_replace graph holons "bob" "urn:d:scene"
    ≡ check_replace appending holons "bob" "urn:d:scene"
check_replace_reads_example =
    check_replace_reads graph appending holons "bob" "urn:d:scene" same_roles same_grants

ann_owns : is_owner graph holons "ann" ≡ ok true
unfolding is_owner owner_role swap drop_suffix
ann_owns = refl

owner_is_admin_example :
    (is_admin graph holons "ann" ≡ ok true)
    × ((w : AclDecision) × (check_write clock 50 graph holons "ann" "urn:d:scene" ≡ ok w)
        × (w.allowed ≡ true)
        × (check_replace graph holons "ann" "urn:d:scene" ≡ ok w))
owner_is_admin_example =
    owner_is_admin clock 50 graph holons "ann" "urn:d:scene" ann_owns scene_named

abbrev bob_unread : AclDecision
bob_unread = record {
  allowed = false;
  reason = no_read_grant;
  person = "bob";
  matched_grant = none;
}

bob_refused : check_read graph holons "bob" "urn:d:persona:ops" ≡ ok bob_unread
unfolding check_read is_admin admin_role owner_role swap drop_suffix denied_by_override role_grants
bob_refused = refl

check_read_iff_example : (bob_unread.allowed ≡ true) ↔ (
    (is_admin graph holons "bob" ≡ ok true)
    ⊎ (ask graph "urn:d:persona:ops" (holon "deniedTo") (iri "bob") ≡ false)
      × HasGrant graph "bob" "ReadGrant" "urn:d:persona:ops")
check_read_iff_example =
    check_read_iff graph holons "bob" "urn:d:persona:ops" bob_unread bob_refused

abbrev rule : Rule
rule = record { target_graph = "urn:d:scene"; write_mode = "replace" }

ann_fires : authorize_firing access (some "ann") rule false ≡ ok tt
unfolding authorize_firing require_grant check_write check_replace is_audit_graph audit_graph
    config_graph swap is_admin admin_role owner_role drop_suffix
ann_fires = refl

ann_may_fire :
    (person : String) × (some "ann" ≡ some person)
    × (rule.target_graph ≢ "")
    × Writes access person rule.target_graph
    × ((contains (access.lower rule.write_mode) wholesale_modes ≡ true)
        → Replaces access person rule.target_graph)
ann_may_fire = authorize_firing_unreviewed access (some "ann") rule ann_fires
