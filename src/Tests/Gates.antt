-- ===== src/Tests/Gates.antt =====
-- Runs of the gate in front of SPARQL.
use holon_bridge_python.Prelude.{
  String, [], ◌∷◌, Bool, true, false, ◌==◌, Option, none, some, ◌≡◌, inl, inr, refl, ok,
  if◌then◌else◌,
}
use holon_bridge_python.Prelude.Sorting.{sort_by}
use holon_bridge_python.Prelude.Text.{drop_suffix}
use holon_bridge_python.Acl.Algebra.{
  Node, uri, leaf, comp, Nodes, no_nodes, node, no_fields, field, quads, collect, kind_of, field_of,
}
use holon_bridge_python.Acl.Algebra.Reach.{own, below, first, in_quads, in_value}
use holon_bridge_python.Acl.Authorize.{
  Parser, GateDecision, all_cleared, unparsed, fallback_graph_refs, unnamed_graphs,
  authorize_update, authorize_query, analyse_graph_refs, private_space_owner,
}
use holon_bridge_python.Audit.Naming.{is_audit_graph, audit_graph, config_graph, swap}
use holon_bridge_python.Delegation.Request.{safe_iri}
use holon_bridge_python.Delegation.Lookup.{
  candidates, find_delegation, live_matches, is_live, in_window, parse_dt,
}
use holon_bridge_python.Acl.{
  check_write, check_replace, check_read, is_admin, admin_role, owner_role, is_scratch_graph,
  scratch_area, denied_by_override, role_grants, grant_target,
}
use holon_bridge_python.Acl.Authorize.Update.{
  IsCleared, Names, IsUnderstood, authorize_update-IsCleared,
}
use holon_bridge_python.Acl.Authorize.Query.{IsReadable, authorize_query-IsReadable}
use holon_bridge_python.TriggerAuthz.{authorize_reads, authorize_firing, require_grant}
use holon_bridge_python.TriggerAuthz.Definition.{
  Language, Definition, never_mentions_focus, bound, warnings_of, is_within, authorize_definition,
}
use holon_bridge_python.TriggerAuthz.Definition.Sound.{Reads, MayFire, authorize_definition-MayFire}
use holon_bridge_python.Tests.Samples.{holons, graph, clock, access}

-- INSERT DATA { GRAPH <urn:d:scene> { … } }
abbrev insertion : Nodes
insertion = node (comp "InsertData" (quads (node (uri "urn:d:scene") no_nodes) no_fields)) no_nodes

-- SELECT … { GRAPH <urn:d:scene> { … } }
abbrev selection : Node
selection =
    comp "SelectQuery"
      (field "p" (comp "Graph" (field "term" (uri "urn:d:scene") no_fields)) no_fields)

-- SELECT … { GRAPH ?g { … } }
abbrev roaming : Node
roaming = comp "SelectQuery" (field "p" (comp "Graph" (field "term" leaf no_fields)) no_fields)

abbrev parser : Parser
parser = record {
  parse_query = λ text.
      if text == "select" then some selection else if text == "roam" then some roaming else none;
  parse_update = λ text. if text == "insert" then some insertion else none;
  has_embedded = λ text. false;
  keyword_graphs = λ text. [];
}

-- Every graph is of the persona ops, whose ReadGrant bob lacks; he has a delegation to read.
abbrev ops_only : String → Option String
ops_only place = some "urn:d:persona:ops"

abbrev passed : GateDecision
passed = record { allowed = true; reason = all_cleared }

scene_named : Names parser "insert" false (uri "urn:d:scene")
scene_named =
    inr (inl (refl, (insertion, refl, first _ _ _ _ (below _ _ _ _ (in_quads _ _ _ (inl refl))))))

bob_inserts : authorize_update clock 50 graph holons parser (some "bob") "insert" ≡ ok passed
unfolding authorize_update collect analyse_graph_refs sort_by is_audit_graph audit_graph
    config_graph swap drop_suffix is_admin admin_role owner_role check_write grant_target
    is_scratch_graph scratch_area find_delegation safe_iri live_matches candidates is_live in_window
    parse_dt
bob_inserts = refl

scene-IsCleared : IsCleared clock 50 graph holons "bob" false (uri "urn:d:scene")
scene-IsCleared =
    (authorize_update-IsCleared clock 50 graph holons parser "bob" "insert" passed bob_inserts
        refl).1
      false (uri "urn:d:scene") scene_named

scene_read : Names parser "select" false (uri "urn:d:scene")
unfolding kind_of field_of
scene_read =
    inl (selection, refl, below _ _ _ _ (in_value _ _ _ _ _ (own "Graph" _ false _ (refl, refl))))

bob_selects :
    authorize_query clock 50 graph holons ops_only (λ x. none) parser (some "bob") "select"
    ≡ ok passed
unfolding authorize_query collect analyse_graph_refs sort_by is_audit_graph audit_graph config_graph
    swap drop_suffix is_admin admin_role owner_role check_read denied_by_override role_grants
    find_delegation safe_iri live_matches candidates is_live in_window parse_dt private_space_owner
bob_selects = refl

authorize_query-IsReadable_example :
    IsUnderstood parser "select"
    × ((w : Bool) (t : Node)
        → Names parser "select" w t
        → IsReadable clock 50 graph holons ops_only (λ x. none) "bob" t)
authorize_query-IsReadable_example =
    authorize_query-IsReadable clock 50 graph holons ops_only (λ x. none) "bob" parser "select"
      passed bob_selects refl

scene-IsReadable : IsReadable clock 50 graph holons ops_only (λ x. none) "bob" (uri "urn:d:scene")
scene-IsReadable =
    (authorize_query-IsReadable clock 50 graph holons ops_only (λ x. none) "bob" parser "select"
        passed bob_selects refl).1
      false (uri "urn:d:scene") scene_read

-- A text that is neither a query nor RDF 1.2 is refused to all.
unparsed_refused :
    authorize_query clock 50 graph holons ops_only (λ x. none) parser (some "ann") "?"
    ≡ ok (record { allowed = false; reason = unparsed })
unfolding authorize_query analyse_graph_refs fallback_graph_refs
unparsed_refused = refl

bob_roams :
    authorize_query clock 50 graph holons ops_only (λ x. none) parser (some "bob") "roam"
    ≡ ok (record { allowed = false; reason = unnamed_graphs })
unfolding authorize_query collect analyse_graph_refs is_admin admin_role swap drop_suffix owner_role
bob_roams = refl

abbrev language : Language
language = record {
  form = λ text. if text == "select" then "SELECT" else "CONSTRUCT";
  has_limit = λ text. false;
}

-- A trigger that ann defines, whose condition does not mention ?focus.
abbrev trigger : Definition
trigger = record {
  condition_text = some "select";
  rule_text = some "construct";
  rule = record { target_graph = "urn:d:scene"; write_mode = "replace" };
  runnable = true;
}

ann_defines :
    authorize_definition access language (some "ann") trigger false ≡ ok (never_mentions_focus ∷ [])
unfolding authorize_definition bound warnings_of is_within authorize_reads authorize_firing
    require_grant check_write check_replace is_audit_graph audit_graph config_graph swap is_admin
    admin_role owner_role drop_suffix
ann_defines = refl

authorize_definition-MayFire_example :
    (person : String) × (condition : String) × (rule : String) × (some "ann" ≡ some person)
    × (trigger.condition_text ≡ some condition)
    × (trigger.rule_text ≡ some rule)
    × (language.form condition ≡ "SELECT")
    × Reads access person condition
    × Reads access person rule
    × MayFire access person trigger.rule false
authorize_definition-MayFire_example =
    authorize_definition-MayFire access language (some "ann") trigger false
      (never_mentions_focus ∷ []) ann_defines
