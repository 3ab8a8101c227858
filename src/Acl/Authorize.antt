-- ===== src/Acl/Authorize.antt =====
-- The gate in front of SPARQL (`analyse_graph_refs`, `authorize_query`, `authorize_update`, `enforce`,
-- holonbridge/acl.py).
pub mod Update
pub mod Query
use holon_bridge_python.Prelude.{
  String, ℕ, Bool, true, false, Option, none, some, List, [], ◌∷◌, ◌++◌, map, ◌==◌, ◌&&◌, ◌||◌, not,
  if◌then◌else◌, Result, err, ok, ◌>>=◌,
}
use holon_bridge_python.Prelude.Sorting.{sort_by}
use holon_bridge_python.Prelude.Text.{text_lt, last_part}
use holon_bridge_python.Rdf.{Graph}
use holon_bridge_python.Audit.Naming.{is_audit_graph}
use holon_bridge_python.Delegation.Request.{Checked}
use holon_bridge_python.Delegation.Lookup.{Clock, DelegationMatch, find_delegation}
use holon_bridge_python.Acl.{
  Reason, AclDecision, or_value_error, is_admin, check_read, check_write, check_replace,
}
use holon_bridge_python.Acl.Algebra.{
  Node, Nodes, no_nodes, node, Collector, collect, collect_nodes, fresh_collector,
}

-- What rdflib and `re` make of a text: the algebra of a query, the algebras of an update's requests,
-- whether it holds RDF 1.2's "<<" or "{|", and what follows each graph keyword, `none` if it is no IRI.
pub record Parser : Type 0 where
  pub parse_query : String → Option Node
  pub parse_update : String → Option Nodes
  pub has_embedded : String → Bool
  pub keyword_graphs : String → List (Option String)

all_given : List (Option String) → Option (List String)
all_given [] = some []
all_given (none ∷ found) = none
all_given (some g ∷ found) = elim (all_given found) [ none ↦ none | some gs ↦ some (g ∷ gs) ]

unfoldable pub fallback_graph_refs : Parser → String → Option (List String)
unfolding all_given
fallback_graph_refs parser text =
    if parser.has_embedded text then all_given (parser.keyword_graphs text) else none

of_refs : Option (List String) → Option Collector
unfolding fresh_collector
of_refs none = none
of_refs (some gs) = some (let acc = fresh_collector in record acc { refs = gs })

analysis_of : Option Node → Option Nodes → Option (List String) → Option Collector
unfolding of_refs fresh_collector
analysis_of (some algebra) requests refs = some (collect algebra fresh_collector)
analysis_of none (some requests) refs = some (collect_nodes requests fresh_collector)
analysis_of none none refs = of_refs refs

-- The collector's sets are the analysis.
unfoldable pub analyse_graph_refs : Parser → String → Option Collector
unfolding fallback_graph_refs analysis_of
analyse_graph_refs parser text =
    analysis_of (parser.parse_query text) (parser.parse_update text)
      (fallback_graph_refs parser text)

-- The reasons that the gate gives.
pub data GateReason : Type 0 where
  unresolved unparsed unnamed_graphs admin_only_load admin_only_default all_cleared : GateReason
  audit_admins_only : GateReason
  not_granted : String → Reason → GateReason
  private_space no_grant : String → GateReason

pub record GateDecision : Type 0 where
  pub allowed : Bool
  pub reason : GateReason

abbrev pub refused : GateReason → Checked GateDecision
refused reason = ok (record { allowed = false; reason = reason })

abbrev pub cleared : Checked GateDecision
cleared = ok (record { allowed = true; reason = all_cleared })

sorted_graphs : List String → List String
sorted_graphs = sort_by text_lt

-- Each graph in turn; the first that is refused ends the check.
unfoldable pub each_graph :
    (String → Checked AclDecision) → Checked GateDecision → List String → Checked GateDecision
each_graph check next [] = next
each_graph check next (g ∷ gs) =
    let rest = each_graph check next gs in
    do
      decision ← check g
      if decision.allowed then rest else refused (not_granted g decision.reason)

is_empty : List String → Bool
is_empty [] = true
is_empty (x ∷ xs) = false

module _ (clock : Clock) (now : ℕ) (g : Graph) (holons_graph : String) where
  graphs_cleared : String → Collector → Checked GateDecision
  unfolding each_graph sorted_graphs
  graphs_cleared person a =
      each_graph (check_replace g holons_graph person)
        (each_graph (check_write clock now g holons_graph person) cleared (sorted_graphs a.refs))
        (sorted_graphs a.replace_refs)

  -- `refused` for all but admins.
  admins_only : String → Checked GateDecision → GateReason → Checked GateDecision
  admins_only person next reason =
      is_admin g holons_graph person >>= λ admin. if admin then next else refused reason

  update_cleared : String → Collector → Checked GateDecision
  unfolding graphs_cleared is_empty admins_only
  update_cleared person a =
      if a.dynamic
      then refused unnamed_graphs
      else if a.default_write || not (is_empty a.admin_ops)
      then admins_only person (graphs_cleared person a)
          (if is_empty a.admin_ops then admin_only_default else admin_only_load)
      else graphs_cleared person a

  analysed_update : String → Option Collector → Checked GateDecision
  unfolding update_cleared
  analysed_update person none = refused unparsed
  analysed_update person (some a) = update_cleared person a

  -- A person who was not resolved is `none`.
  unfoldable pub authorize_update : Parser → Option String → String → Checked GateDecision
  unfolding analysed_update
  authorize_update parser none text = refused unresolved
  authorize_update parser (some person) text =
      analysed_update person (analyse_graph_refs parser text)

-- `_PRIVATE_SPACE` finds the slug in a graph's IRI.
unfoldable pub private_space_owner : (String → Option String) → String → Option String
private_space_owner private_slug graph = elim (private_slug graph) [
  | none ↦ none
  | some slug ↦ if slug == "public" then none else some slug
]

unfoldable pub is_other : Option String → String → Bool
is_other none caller = false
is_other (some owner) caller = not (owner == caller)

any_match : List DelegationMatch → Bool
any_match [] = false
any_match (m ∷ ms) = true

module _ (clock : Clock) (now : ℕ) (g : Graph) (holons_graph : String)
    (persona_of_graph private_slug : String → Option String) (person : String) where
  -- Whether an active delegation to read names the graph.
  read_delegated : String → Checked Bool
  unfolding any_match
  read_delegated graph =
      find_delegation clock now g holons_graph person "read" (some graph) none >>= λ found.
      ok (any_match found)

  another_space : String → Checked Bool
  unfolding read_delegated
  another_space graph =
      is_admin g holons_graph person >>= λ admin. if admin then ok true else read_delegated graph

  persona_space : String → String → Checked Bool
  unfolding read_delegated
  persona_space persona graph = check_read g holons_graph person persona >>= λ decision.
      if decision.allowed then ok true else read_delegated graph

  -- A graph outside the personas' scheme is ground truth, which everyone may read.
  in_persona : String → Option String → Checked Bool
  unfolding another_space persona_space is_other
  in_persona graph none = ok true
  in_persona graph (some persona) =
      if is_other (private_space_owner private_slug graph) (last_part b':' person)
      then another_space graph
      else persona_space persona graph

  -- Whether one graph is cleared.
  unfoldable pub graph_cleared : String → Checked Bool
  unfolding in_persona
  graph_cleared graph = or_value_error (is_audit_graph graph holons_graph) >>= λ audited.
      if audited then is_admin g holons_graph person else in_persona graph (persona_of_graph graph)

  refusal : String → GateReason
  refusal graph = elim (is_audit_graph graph holons_graph) [
    | some true ↦ audit_admins_only
    | _ ↦
        if is_other (private_space_owner private_slug graph) (last_part b':' person)
        then private_space graph
        else no_grant graph
  ]

  unfoldable pub all_cleared_of : List String → Checked GateDecision
  unfolding graph_cleared refusal
  all_cleared_of [] = cleared
  all_cleared_of (x ∷ xs) =
      let rest = all_cleared_of xs in
      graph_cleared x >>= λ fine. if fine then rest else refused (refusal x)

  query_cleared : Collector → Checked GateDecision
  unfolding all_cleared_of sorted_graphs admins_only
  query_cleared a =
      let graphs = all_cleared_of (sorted_graphs (a.refs ++ a.replace_refs)) in
      if a.dynamic
      then admins_only clock now g holons_graph person graphs unnamed_graphs
      else graphs

  analysed_query : Option Collector → Checked GateDecision
  unfolding query_cleared
  analysed_query none = refused unparsed
  analysed_query (some a) = query_cleared a

-- A person who was not resolved is `none`.
unfoldable pub authorize_query :
    Clock
    → ℕ
    → Graph
    → String
    → (persona_of_graph private_slug : String → Option String) → Parser
    → Option String
    → String
    → Checked GateDecision
unfolding analysed_query
authorize_query clock now g holons_graph persona_of_graph private_slug parser none text =
    refused unresolved
authorize_query clock now g holons_graph persona_of_graph private_slug parser (some person) text =
    analysed_query clock now g holons_graph persona_of_graph private_slug person
      (analyse_graph_refs parser text)

-- `Denied`, with its reason
unfoldable pub enforce : GateDecision → Result GateReason GateDecision
enforce decision = if decision.allowed then ok decision else err decision.reason
