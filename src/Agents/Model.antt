-- ===== src/Agents/Model.antt =====
-- holonbridge/agents/model.py: endpoints and calls. Byte counts and seconds are whole numbers.
use holon_bridge_python.Prelude.{
  ℕ, String, List, [], ◌∷◌, Bool, true, false, ◌||◌, Option, ◌==◌, given, find, min, max,
}

pub data CallStatus : Type 0 where
  pending approved sending responded failed rejected : CallStatus

abbrev pub status_eq : CallStatus → CallStatus → Bool
status_eq pending pending = true
status_eq approved approved = true
status_eq sending sending = true
status_eq responded responded = true
status_eq failed failed = true
status_eq rejected rejected = true
status_eq _ _ = false

abbrev pub is_one_of : CallStatus → List CallStatus → Bool
is_one_of s [] = false
is_one_of s (x ∷ xs) = status_eq s x || is_one_of s xs

abbrev pub open_statuses : List CallStatus
open_statuses = pending ∷ approved ∷ sending ∷ []

pub data ApprovalMode : Type 0 where
  unset human policy : ApprovalMode

-- What the text of a call's error says.
pub data Failure : Type 0 where
  audit_unavailable too_large not_json not_object bad_turtle not_staged : Failure
  send_failed sender_error reported : String → Failure
  redirect returned : ℕ → Failure
  endpoint_unusable no_longer_allowed : Failure

abbrev pub max_context_rows : ℕ
max_context_rows = 500

abbrev pub stale_sending_grace_seconds : ℕ
stale_sending_grace_seconds = 60

unfoldable pub clamp : ℕ → ℕ → ℕ → ℕ
clamp value low high = max low (min high value)

pub record Endpoint : Type 0 where
  pub id : String
  pub iri : String
  pub url : String
  pub status : String
  pub auth_scheme : String
  pub auth_header : String
  pub credential_ref : String
  pub signing_ref : String
  pub timeout_seconds : ℕ
  pub max_response_bytes : ℕ
  pub max_request_bytes : ℕ
  pub call_review : Bool

unfoldable pub active : Endpoint → Bool
active e = e.status == "Active"

unfoldable pub has_credentials : Endpoint → Bool
has_credentials e = given e.credential_ref || given e.signing_ref

unfoldable pub by_id : List Endpoint → String → Option Endpoint
by_id endpoints endpoint_id = find (λ e. e.id == endpoint_id) endpoints

pub record Call : Type 0 where
  pub id : String
  pub iri : String
  pub endpoint_id : String
  pub status : CallStatus
  pub requested_by : String
  pub requested_at : String
  pub task : String
  pub body : String
  pub digest : String
  pub target_graph : String
  pub focus : String
  pub via_trigger : String
  pub via_pipeline : String
  pub via_stage : String
  pub approval_mode : ApprovalMode
  pub approved_by : String
  pub approved_at : String
  pub started_at : String
  pub completed_at : String
  pub attempts : ℕ
  pub http_status : Option ℕ
  pub response_summary : String
  pub response_bytes : Option ℕ
  pub error : Option Failure
  pub candidate : String
  pub rejected_reason : String
  pub rejected_by : String

unfoldable pub is_open : Call → Bool
is_open c = is_one_of c.status open_statuses
