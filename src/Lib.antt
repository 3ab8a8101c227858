-- ===== src/Lib.antt =====
-- HolonBridge: a bridge from agents and people to an RDF store with access control, delegation, audit,
-- calls to external agents, sequences and a scheduler. Paths are from the root of the repository.
--
-- Parts and files
--   Prelude: Boolean tests, lists, results, texts and sorting that the parts share.
--   Rdf/Triples: the triples of one named graph, and the ASK and SELECT patterns that the source uses.
--   Delegation: holonbridge/delegation.py. Request has validate_request, safe_iri and delegation_iri;
--     Lookup has find_delegation and _parse_dt; Resolve has covered_graphs, resolve_read_delegation,
--     revoke_update and revoke_all_update; Build has build_delegation.
--   Audit: holonbridge/audit.py. Naming has the names of the audit graphs; Policy has the levels,
--     suspension, and what is recorded; Settings has set_level, suspend, resume and describe. The entry
--     that marks the end of a suspension goes to the audit log, which is no part of the configuration.
--     The cache of the configuration is left out.
--   Acl: holonbridge/acl.py, from is_admin to check_replace. Algebra has _collect on the algebra of SPARQL,
--     Authorize has analyse_graph_refs, authorize_query and authorize_update.
--   TriggerAuthz: holonbridge/trigger_authz.py, require_grant, authorize_firing and authorize_reads;
--     Definition has authorize_definition.
--   Egress: holonbridge/egress.py, from _split_host_port to check_endpoint.
--   Agents: holonbridge/agents. Model (model.py), Policy (policy.py), Ledger (ledger.py and audit.py),
--     Service, Sending, Request and Dispatch (service.py). System runs the operations of one dataset
--     interleaved.
--   Sequence: holonbridge/sequence.py. Race runs any number of minters interleaved.
--   Fluent: holonbridge/fluent.py, _plan, the guarded request of update_fluent, and its confirmation. Race
--     interleaves the reads and commits of any number of transitions.
--   Scheduler: holonbridge/scheduler. Model (model.py, vocab.py and the policies and counts of store.py),
--     Gates and Firing (runner.py).
--   Pipeline: holonbridge/pipeline.py. Model has the nodes of a manifest and _type_mismatches; Order is
--     topological_order; Stages and Kinds are the functions _run_*_stage; Run is run_pipeline; Message is
--     _execute of holonbridge/routes/pipeline.py with holonbridge/messages.py.
--   Params: holonbridge/params.py, from escape_literal to _render_term_core.
--   Tests: runs at concrete inputs.
--
-- How the parts interact
--   check_write asks find_delegation for write delegations and audit for the names of its graphs. A firing
--   and a request for a call ask check_write and check_replace through require_grant. A call asks
--   check_endpoint through check_agent_endpoint, and should_record through record_entry. The scheduler's
--   dispatch job bounds dispatch_approved by the allowance of the gates.
--
-- Correspondence of state
--   The algebra of a text is a tree; Python visits a shared value once, which changes no set. The gate's
--   sets of graphs are lists. A manifest's dictionary of nodes is the list of its values in insertion order; that no IRI names two of
--   them is a hypothesis, HasDistinct. A run's world is any type that the services of the stages change.
--   A graph is its list of triples, and a SPARQL Update is the function on it that the text describes. The
--   ledger of calls is a list of calls; CallStore.replace is a change of the stored call, and what a sender
--   holds in the meantime is its own copy. World adds the staged candidates, the audit entries, and a trace
--   of the calls placed, approvals given and bodies handed to the sender, which the source does not store;
--   the sender may still refuse one before a request leaves. A counter
--   has at most one value and one token, as its guarded update leaves it. Each operation under the dataset
--   write lock is one step; a request for a call, which takes no lock, counts the open calls in any earlier
--   ledger; a send is a claim step and, later, a step that ends it.
--
-- Choices and bounds
--   Instants are seconds in UTC, lifetimes are microseconds, timeouts and intervals are whole seconds.
--   Numbers are natural; a policy's negative count stands as 0, since no use is below either. Messages of
--   errors are data, and their truncation is left out. Loops run over lists, and the
--   attempts of a mint are a list of any length; only the queue of topological_order takes fuel, one round
--   for each node, which queue_empties shows to be enough. NOW() of the store is the caller's clock, and an
--   xsd:dateTime reads there as in _parse_dt. Decimal digits of a port are ASCII. Params reads a rendered
--   text as a literal in double quotes, not as a long one.
--
-- Parameters, for code that is not in the repository
--   datetime.fromisoformat and re.sub (Clock, Env), str.lower and str.upper, urllib.parse.urlsplit,
--   ipaddress and the resolver (Net), Decimal and date arithmetic and SPARQL's = (Arithmetic), json.loads, the Turtle parser and the HTTP sender (Outside), SHA-256
--   and the size in UTF-8 (Desk), environment variables (a function),
--   re.fullmatch, rdflib's parsers and re.finditer (Parser).
--
-- Not modelled
--   The binding of a trigger's condition and rule (bound_condition, bound_rule) and form of sparql_kind.py
--   are fields of Definition and Language. bind_context, build_body and the staging of a candidate are answers of Desk and Outside. The
--   actions of a scheduled task are an argument of fire. The services that a pipeline's stages call (execute_named_rule, request_call,
--   ProjectionRunner.run, validate_full, render_template) are the fields of Services, and loading a manifest
--   is left out. The pre-commit check of a fluent, triggers, named queries, rules and projections, the
--   substitution of placeholders, personas, the life cycle of a dataset, the routes and the MCP server are left out, as
--   are the clients of the store and of HTTP.
pub mod Prelude
pub mod Rdf
pub mod Audit
pub mod Delegation
pub mod Acl
pub mod TriggerAuthz
pub mod Sequence
pub mod Egress
pub mod Agents
pub mod Fluent
pub mod Scheduler
pub mod Pipeline
pub mod Params
pub mod Tests
