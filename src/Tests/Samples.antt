-- ===== src/Tests/Samples.antt =====
-- The data of the runs.
use Prim.Native.String.{◌++◌ as str_append}
use holon_bridge_python.Prelude.{
  String, List, [], ◌∷◌, true, false, none, some, ◌==◌, ok, if◌then◌else◌,
}
use holon_bridge_python.Rdf.{iri, lit, Graph}
use holon_bridge_python.Egress.{Net}
use holon_bridge_python.TriggerAuthz.{Access}
use holon_bridge_python.Acl.Algebra.{comp, no_fields}
use holon_bridge_python.Acl.Authorize.{Parser}
use holon_bridge_python.Delegation.Lookup.{Clock, holon, rdf_type}
use holon_bridge_python.Audit.Policy.{mutations}
use holon_bridge_python.Agents.Model.{Call, CallStatus, ApprovalMode, Endpoint}
use holon_bridge_python.Agents.Ledger.{World, Env}
use holon_bridge_python.Agents.Sending.{Outside, Reply, replied, object, text}
use holon_bridge_python.Agents.Request.{Desk, Order}
use holon_bridge_python.Agents.System.{Step, place, approve, claim, finish}

abbrev pub holons : String
holons = "urn:d:holons"

-- ann is an admin and owner; bob may act for ann on one graph until 100.
abbrev pub graph : Graph
graph =
    record { subject = "ann"; predicate = holon "hasRole"; object = iri "urn:d:role:owner" }
    ∷ record { subject = "ann"; predicate = rdf_type; object = iri (holon "Person") }
    ∷ record { subject = "d1"; predicate = rdf_type; object = iri (holon "Delegation") }
    ∷ record { subject = "d1"; predicate = holon "delegate"; object = iri "bob" }
    ∷ record { subject = "d1"; predicate = holon "delegator"; object = iri "ann" }
    ∷ record {
      subject = "d1";
      predicate = holon "delegatedPersona";
      object = iri "urn:d:persona:ops";
    }
    ∷ record { subject = "d1"; predicate = holon "delegatedPermission"; object = lit "write" }
    ∷ record { subject = "d1"; predicate = holon "delegatedPermission"; object = lit "read" }
    ∷ record { subject = "d1"; predicate = holon "delegatedGraph"; object = iri "urn:d:scene" }
    ∷ record { subject = "d1"; predicate = holon "validFrom"; object = lit "0" }
    ∷ record { subject = "d1"; predicate = holon "validUntil"; object = lit "100" }
    ∷ []

abbrev pub clock : Clock
clock = record {
  fromisoformat = λ s. if s == "0" then some 0 else if s == "100" then some 100 else none;
  drop_fraction = λ s. s;
}

-- Queries that name no graph.
abbrev parser : Parser
parser = record {
  parse_query = λ text. some (comp "SelectQuery" no_fields);
  parse_update = λ text. none;
  has_embedded = λ text. false;
  keyword_graphs = λ text. [];
}

abbrev pub access : Access
access = record {
  clock = clock;
  now = 50;
  g = graph;
  holons_graph = holons;
  graph_of = λ role. str_append "urn:d:" role;
  persona_of_graph = λ place. none;
  private_slug = λ place. none;
  parser = parser;
  lower = λ s. s;
}

abbrev pub net : Net
net = record {
  urlsplit = λ s. some (record {
    scheme = "https";
    username = "";
    password = "";
    hostname = "agent.example";
    port = none;
  });
  lower = λ s. s;
  ip_address = λ s.
      if s == "192.0.2.7"
      then some (record {
        is_global = true;
        is_loopback = false;
        is_link_local = false;
        is_private = false;
      })
      else none;
  resolve = λ host port. some ("192.0.2.7" ∷ []);
}

abbrev pub env : Env
env = record {
  level = mutations;
  writable = λ e. true;
  now = "t1";
  instant = 10;
  fromisoformat = λ s. none;
}

abbrev pub endpoint : Endpoint
endpoint = record {
  id = "e1";
  iri = "urn:e1";
  url = "https://agent.example/run";
  status = "Active";
  auth_scheme = "none";
  auth_header = "";
  credential_ref = "";
  signing_ref = "";
  timeout_seconds = 30;
  max_response_bytes = 1000;
  max_request_bytes = 1000;
  call_review = true;
}

abbrev pub desk : Desk
desk = record {
  env = env;
  net = net;
  allowlist = [];
  access = access;
  max_open_calls = 2;
  context = ok none;
  call_id = "c1";
  node = λ s. str_append "urn:call:" s;
  body = "hello";
  size = λ s. 5;
  sha256 = λ s. "digest";
}

abbrev pub order : Order
order = record {
  requested_by = "ann";
  task = "summarise";
  focus = "";
  target_graph = none;
  approval = ApprovalMode.human;
  via_trigger = "";
  via_pipeline = "";
  via_stage = "";
}

abbrev pub reply : Reply
reply = record { status_code = 200; content = "{}"; size = 2; truncated = false }

abbrev pub outside : Outside
outside = record {
  env = env;
  sender = λ e c body. replied reply;
  loads = λ s. object (some (text "ok")) (some (text "done")) none;
  parses = λ s. true;
  looks_like_rdf12 = λ s. false;
  stage = λ c s. some "urn:candidate:1";
}

abbrev pub no_calls : World
no_calls = record { calls = []; candidates = []; entries = []; trace = [] }

abbrev pub call : Call
call = record {
  id = "c1";
  iri = "urn:call:c1";
  endpoint_id = "e1";
  status = CallStatus.approved;
  requested_by = "ann";
  requested_at = "t0";
  task = "summarise";
  body = "hello";
  digest = "digest";
  target_graph = "";
  focus = "";
  via_trigger = "";
  via_pipeline = "";
  via_stage = "";
  approval_mode = ApprovalMode.human;
  approved_by = "ann";
  approved_at = "t0";
  started_at = "";
  completed_at = "";
  attempts = 0;
  http_status = none;
  response_summary = "";
  response_bytes = none;
  error = none;
  candidate = "";
  rejected_reason = "";
  rejected_by = "";
}

abbrev pub one_call : World
one_call = record { calls = call ∷ []; candidates = []; entries = []; trace = [] }

abbrev nothing_yet : World
nothing_yet = record { calls = []; candidates = []; entries = []; trace = [] }

-- Placed, approved, claimed and sent.
abbrev pub steps : List Step
steps =
    place desk order endpoint nothing_yet
    ∷ approve env "c1" "ann"
    ∷ claim env "c1"
    ∷ finish 0 outside endpoint
    ∷ []
