-- ===== src/TriggerAuthz.antt =====
-- holonbridge/trigger_authz.py: what a person must be able to do for a trigger or a call to be theirs.
--
-- `parser` is rdflib's; `lower` is `str.lower`.
pub mod Definition
pub mod Firing
use holon_bridge_python.Prelude.{
  ℕ, String, List, [], ◌∷◌, Bool, true, false, not, Option, none, some, ◌==◌, Result, ok, err,
  ◌>>=◌, ◌>>◌, require, if◌then◌else◌, contains, given,
}
use holon_bridge_python.Rdf.{Graph}
use holon_bridge_python.Delegation.Lookup.{Clock}
use holon_bridge_python.Delegation.Request.{Checked}
use holon_bridge_python.Acl.{AclDecision, is_admin, check_write, check_replace}
use holon_bridge_python.Acl.Authorize.{Parser, GateDecision, authorize_query}

pub data TriggerDenied : Type 0 where
  unresolved_identity no_grant not_readable rule_has_no_target : TriggerDenied
  condition_needs_parameters condition_not_select rule_not_bindable rule_not_construct :
      TriggerDenied
  -- a ValueError from the grant checks
  check_failed : TriggerDenied

pub record Access : Type 0 where
  pub clock : Clock
  pub now : ℕ
  pub g : Graph
  pub holons_graph : String
  -- `conn.graph(role)`
  pub graph_of : String → String
  -- `conn.persona_for_graph`
  pub persona_of_graph : String → Option String
  pub private_slug : String → Option String
  pub parser : Parser
  pub lower : String → String

abbrev pub wholesale_modes : List String
wholesale_modes = "replace" ∷ "sync" ∷ "supersede" ∷ []

abbrev pub Allowed : Type 0
Allowed = Result TriggerDenied (Unit {0})

abbrev granted : Checked AclDecision → Allowed
granted (ok decision) = require decision.allowed no_grant
granted (err e) = err check_failed

unfoldable pub require_grant :
    Access → (person : Option String) → (graph : String) → (replace : Bool) → Allowed
require_grant a none graph replace = err unresolved_identity
require_grant a (some person) graph replace =
    if replace
    then granted (check_replace a.g a.holons_graph person graph)
    else granted (check_write a.clock a.now a.g a.holons_graph person graph)

pub record Rule : Type 0 where
  pub target_graph : String
  pub write_mode : String

unfoldable pub authorize_firing : Access → Option String → Rule → (review_required : Bool) → Allowed
authorize_firing a person rule review_required =
    if review_required then require_grant a person (a.graph_of "candidates") false else do
      require (given rule.target_graph) rule_has_no_target
      require_grant a person rule.target_graph false
      if contains (a.lower rule.write_mode) wholesale_modes
          then require_grant a person rule.target_graph true
          else ok tt

abbrev cleared : Checked GateDecision → Allowed
cleared (ok decision) = require decision.allowed not_readable
cleared (err e) = err check_failed

-- The verdict of `authorize_query` on a text.
abbrev pub query_verdict : Access → (person sparql : String) → Checked GateDecision
query_verdict a person sparql =
    authorize_query a.clock a.now a.g a.holons_graph a.persona_of_graph a.private_slug a.parser
      (some person) sparql

abbrev readable : Access → (person sparql : String) → Checked Bool → Allowed
readable a person sparql (err e) = err check_failed
readable a person sparql (ok admin) =
    if admin then ok tt else cleared (query_verdict a person sparql)

unfoldable pub authorize_reads : Access → Option String → (sparql : String) → Allowed
authorize_reads a none sparql = err unresolved_identity
authorize_reads a (some person) sparql =
    readable a person sparql (is_admin a.g a.holons_graph person)
