-- ===== src/Acl.antt =====
-- holonbridge/acl.py: the grant checks on the triples of the `holons` graph.
-- An error is the `ValueError` of a `holons_graph` that does not end in ":holons", or of a text that
-- cannot be an IRI (raised by `find_delegation`).
pub mod Write
pub mod Algebra
pub mod Authorize
pub mod Independence
use Prim.Native.String.{◌++◌ as str_append}
use text.Mathlib.Text.{starts_with}
use holon_bridge_python.Prelude.{
  ℕ, String, List, [], ◌∷◌, map, Bool, true, false, ◌&&◌, ◌||◌, not, Option, none, some, ◌==◌,
  Result, ok, err, ◌>>=◌, if◌then◌else◌, select, flat_map,
}
use holon_bridge_python.Rdf.{Term, iri, Graph, value, ask, objects}
use holon_bridge_python.Audit.Naming.{swap, is_audit_graph}
use holon_bridge_python.Delegation.Request.{DelegationError, value_error, Checked}
use holon_bridge_python.Delegation.Lookup.{Clock, holon, rdf_type, DelegationMatch, find_delegation}

pub data Reason : Type 0 where
  admin_bypass denied_override role_grant no_read_grant no_invoke_grant audit_only : Reason
  scratch_grant explicit_grant no_scratch_grant no_explicit_grant : Reason
  delegated_from : String → Reason

pub record AclDecision : Type 0 where
  pub allowed : Bool
  pub reason : Reason
  pub person : String
  pub matched_grant : Option String

abbrev decide_without_grant : Bool → Reason → String → AclDecision
decide_without_grant allowed reason person = record {
  allowed = allowed;
  reason = reason;
  person = person;
  matched_grant = none;
}

abbrev decide_by_grant : Reason → String → String → AclDecision
decide_by_grant reason person grant = record {
  allowed = true;
  reason = reason;
  person = person;
  matched_grant = some grant;
}

abbrev or_value_error : {A : Type 0} → Option A → Checked A
or_value_error none = err value_error
or_value_error (some a) = ok a

unfoldable pub admin_role : String → Checked String
admin_role holons_graph = or_value_error (swap holons_graph ":role:admin")

unfoldable pub owner_role : String → Checked String
owner_role holons_graph = or_value_error (swap holons_graph ":role:owner")

unfoldable pub scratch_area : String → Checked String
scratch_area holons_graph = or_value_error (swap holons_graph ":scratch")

unfoldable pub is_scratch_graph : String → String → Checked Bool
is_scratch_graph target holons_graph = do
  area ← scratch_area holons_graph
  ok (starts_with target (str_append area ":"))

-- `?role IN (admin, owner)`
unfoldable pub is_admin : Graph → (holons_graph person : String) → Checked Bool
is_admin g holons_graph person = do
  admin ← admin_role holons_graph
  owner ← owner_role holons_graph
  ok (ask g person (holon "hasRole") (iri admin) || ask g person (holon "hasRole") (iri owner))

unfoldable pub is_owner : Graph → (holons_graph person : String) → Checked Bool
is_owner g holons_graph person = do
  owner ← owner_role holons_graph
  ok (ask g person (holon "hasRole") (iri owner))

unfoldable pub denied_by_override : Graph → (target person : String) → Bool
denied_by_override g target person = ask g target (holon "deniedTo") (iri person)

-- The grants of the given class and scope on the roles that the person holds.
unfoldable pub role_grants : Graph → (person class scope : String) → List String
role_grants g person class scope =
    select
      (λ grant. ask g grant rdf_type (iri (holon class)) && ask g grant (holon "scope") (iri scope))
      (flat_map (λ role. map value (objects g (value role) (holon "grants")))
        (objects g person (holon "hasRole")))

abbrev first_grant : Reason → String → List String → AclDecision
first_grant reason person [] = decide_without_grant false reason person
first_grant reason person (grant ∷ rest) = decide_by_grant role_grant person grant

abbrev role_check : Graph → Reason → (person class scope : String) → AclDecision
role_check g reason person class scope =
    if denied_by_override g scope person
    then decide_without_grant false denied_override person
    else first_grant reason person (role_grants g person class scope)

unfoldable pub check_read : Graph → (holons_graph person persona : String) → Checked AclDecision
check_read g holons_graph person persona = do
  admin ← is_admin g holons_graph person
  ok (
      if admin
      then decide_without_grant true admin_bypass person
      else role_check g no_read_grant person "ReadGrant" persona)

unfoldable pub check_invoke :
    Graph → (holons_graph person named_query : String) → Checked AclDecision
check_invoke g holons_graph person named_query = do
  admin ← is_admin g holons_graph person
  ok (
      if admin
      then decide_without_grant true admin_bypass person
      else role_check g no_invoke_grant person "InvokeGrant" named_query)

-- The branch for a target with no grant on itself: a delegation that names it.
abbrev by_delegation : String → List DelegationMatch → AclDecision
by_delegation person [] = decide_without_grant false no_explicit_grant person
by_delegation person (m ∷ rest) = decide_by_grant (delegated_from m.delegator) person m.delegation

abbrev delegated_write :
    Clock → ℕ → Graph → (holons_graph person target : String) → Checked AclDecision
delegated_write clock now g holons_graph person target = do
  found ← find_delegation clock now g holons_graph person "write" (some target) none
  ok (by_delegation person found)

-- The scratch area for a scratch graph, else the graph itself.
unfoldable pub grant_target : (holons_graph target : String) → Checked String
grant_target holons_graph target = do
  scratch ← is_scratch_graph target holons_graph
  area ← scratch_area holons_graph
  ok (if scratch then area else target)

unfoldable pub check_write :
    Clock → ℕ → Graph → (holons_graph person target : String) → Checked AclDecision
check_write clock now g holons_graph person target = do
  audited ← or_value_error (is_audit_graph target holons_graph)
  if audited then ok (decide_without_grant false audit_only person) else do
    admin ← is_admin g holons_graph person
    if admin then ok (decide_without_grant true admin_bypass person) else do
      graph ← grant_target holons_graph target
      let elsewhere = not (graph == target)
      let granted = ask g graph (holon "grantsWrite") (iri person)
      if granted
          then ok
              (decide_by_grant (if elsewhere then scratch_grant else explicit_grant) person graph)
          else if elsewhere
          then ok (decide_without_grant false no_scratch_grant person)
          else delegated_write clock now g holons_graph person target

unfoldable pub check_replace : Graph → (holons_graph person target : String) → Checked AclDecision
check_replace g holons_graph person target = do
  audited ← or_value_error (is_audit_graph target holons_graph)
  if audited then ok (decide_without_grant false audit_only person) else do
    admin ← is_admin g holons_graph person
    if admin then ok (decide_without_grant true admin_bypass person) else do
      graph ← grant_target holons_graph target
      let elsewhere = not (graph == target)
      if ask g graph (holon "grantsReplace") (iri person)
          then ok
              (decide_by_grant (if elsewhere then scratch_grant else explicit_grant) person graph)
          else ok (
              decide_without_grant false (if elsewhere then no_scratch_grant else no_explicit_grant)
                person)
