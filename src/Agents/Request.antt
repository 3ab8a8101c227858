-- ===== src/Agents/Request.antt =====
-- holonbridge/agents/service.py: `authorize_request` and `request_call`.
--
-- `bind_context` (a named query with its parameters), the context's rows, `json.dumps`, the size in
-- UTF-8 and the digest are answers of the outside world.
pub mod Queue
use holon_bridge_python.Prelude.Text.{strip}
use holon_bridge_python.Prelude.{
  ℕ, String, List, [], ◌∷◌, Bool, true, false, ◌&&◌, ◌||◌, not, Option, none, some, ◌==◌, Result,
  ok, err, ◌>>=◌, ◌>>◌, require, if◌then◌else◌, given, eqb, ltb, leb,
}
use holon_bridge_python.Audit.Policy.{Outcome}
use holon_bridge_python.Egress.{Net}
use holon_bridge_python.TriggerAuthz.{
  TriggerDenied, Access, Allowed, require_grant, authorize_reads,
}
use holon_bridge_python.Agents.Model.{
  Call, CallStatus, pending, approved, ApprovalMode, unset, policy, Endpoint, active,
  has_credentials,
}
use holon_bridge_python.Agents.Policy.{check_agent_endpoint}
use holon_bridge_python.Agents.Ledger.{
  World, Env, Event, Action, put, open_count, record_entry, emit,
}

pub data RequestError : Type 0 where
  endpoint_inactive no_task endpoint_refused unbound_context too_large_request : RequestError
  queue_full : ℕ → RequestError
  denied : TriggerDenied → RequestError

abbrev reads_of : Access → Option String → Option String → Allowed
reads_of a person none = ok tt
reads_of a person (some sparql) = authorize_reads a person sparql

abbrev target_grants : Access → Option String → Option String → Allowed
target_grants a person none = ok tt
target_grants a person (some target) = do
  require_grant a person (a.graph_of "candidates") false
  require_grant a person target false

unfoldable pub authorize_request :
    Access → (person context_sparql target_graph : Option String) → Allowed
authorize_request a person context_sparql target_graph = do
  require_grant a person (a.graph_of "agent-calls") false
  reads_of a person context_sparql
  target_grants a person target_graph

-- The arguments of one request.
pub record Order : Type 0 where
  pub requested_by : String
  pub task : String
  pub focus : String
  pub target_graph : Option String
  pub approval : ApprovalMode
  pub via_trigger : String
  pub via_pipeline : String
  pub via_stage : String

pub record Desk : Type 0 where
  pub env : Env
  pub net : Net
  pub allowlist : List String
  pub access : Access
  -- AGENT_MAX_OPEN_CALLS; 0 is no cap
  pub max_open_calls : ℕ
  -- `bind_context`: CallInvalid, or the SPARQL of the context query if there is one
  pub context : Result (Unit {0}) (Option String)
  pub call_id : String
  pub node : String → String
  pub body : String
  pub size : String → ℕ
  pub sha256 : String → String

abbrev pub is_policy : ApprovalMode → Bool
is_policy policy = true
is_policy _ = false

-- Queued without a person: asked for by policy, and the endpoint does not require review.
unfoldable pub is_queued : Order → Endpoint → Bool
is_queued order endpoint = is_policy order.approval && not endpoint.call_review

abbrev or_empty : Option String → String
or_empty none = ""
or_empty (some s) = s

unfoldable pub new_call : Desk → Order → Endpoint → Call
new_call desk order endpoint =
    let queued = is_queued order endpoint in
    record {
      id = desk.call_id;
      iri = desk.node desk.call_id;
      endpoint_id = endpoint.id;
      status = if queued then approved else pending;
      requested_by = order.requested_by;
      requested_at = desk.env.now;
      task = order.task;
      body = desk.body;
      digest = desk.sha256 desk.body;
      target_graph = or_empty order.target_graph;
      focus = order.focus;
      via_trigger = order.via_trigger;
      via_pipeline = order.via_pipeline;
      via_stage = order.via_stage;
      approval_mode = if queued then policy else unset;
      approved_by = if queued then order.requested_by else "";
      approved_at = if queued then desk.env.now else "";
      started_at = "";
      completed_at = "";
      attempts = 0;
      http_status = none;
      response_summary = "";
      response_bytes = none;
      error = none;
      candidate = "";
      rejected_reason = "";
      rejected_by = "";
    }

abbrev as_request_error : {A : Type 0} → Result (Unit {0}) A → Result RequestError A
as_request_error (ok a) = ok a
as_request_error (err e) = err unbound_context

abbrev as_denied : Allowed → Result RequestError (Unit {0})
as_denied (ok a) = ok tt
as_denied (err e) = err (denied e)

abbrev pub usable : Desk → Endpoint → Bool
usable desk endpoint =
    elim (check_agent_endpoint desk.net desk.allowlist endpoint.url (has_credentials endpoint)) [
      | ok _ ↦ true
      | err _ ↦ false
    ]

-- The checks of `request_call`, in order.
unfoldable pub check_request : Desk → Order → Endpoint → World → Result RequestError (Unit {0})
check_request desk order endpoint w = do
  require (active endpoint) endpoint_inactive
  require (not (strip order.task == "")) no_task
  require (usable desk endpoint) endpoint_refused
  let open_now = open_count endpoint.id w
  require (eqb desk.max_open_calls 0 || ltb open_now desk.max_open_calls) (queue_full open_now)
  context_sparql ← as_request_error desk.context
  as_denied
      (authorize_request desk.access (some order.requested_by) context_sparql order.target_graph)
  require (leb (desk.size desk.body) endpoint.max_request_bytes) too_large_request

abbrev pub announce : Bool → Call → World → World
announce queued call w =
    let v = emit (Event.placed call.id call.body) w in
    if queued then emit (Event.approval call.id) v else v

abbrev pub place : Desk → Order → Endpoint → World → Result RequestError Call × World
place desk order endpoint w =
    let call = new_call desk order endpoint in
    (
      ok call,
      (record_entry desk.env Action.placed Outcome.allowed call order.requested_by
          (announce (is_queued order endpoint) call (put call w))).1,
    )

abbrev pub if_checked :
    Desk
    → Order
    → Endpoint
    → World
    → Result RequestError (Unit {0})
    → Result RequestError Call × World
if_checked desk order endpoint w (ok _) = place desk order endpoint w
if_checked desk order endpoint w (err e) = (err e, w)

-- The open calls are counted in the ledger as it was then (`seen`). Until the call is put, others may
-- change the ledger: no lock is held between the two.
unfoldable pub request_call :
    Desk → Order → Endpoint → (seen w : World) → Result RequestError Call × World
request_call desk order endpoint seen w =
    if_checked desk order endpoint w (check_request desk order endpoint seen)
