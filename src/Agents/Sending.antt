-- ===== src/Agents/Sending.antt =====
-- holonbridge/agents/service.py: `_fail`, `_settle` and the rest of `send_call` after its claim.
--
-- The sender, `json.loads`, the Turtle parser and the staging of a candidate are what the outside
-- world answers. `str.strip` of the reply is not modelled where it only shapes a message.
pub mod Outcomes
use holon_bridge_python.Prelude.Text.{strip}
use holon_bridge_python.Prelude.{
  ℕ, String, List, [], ◌∷◌, ◌++◌, Bool, true, false, ◌&&◌, ◌||◌, not, Option, none, some, ◌==◌,
  if◌then◌else◌, given, eqb, leb, ltb,
}
use holon_bridge_python.Audit.Policy.{Outcome}
use holon_bridge_python.Agents.Model.{
  Call, CallStatus, status_eq, Endpoint, Failure, audit_unavailable, too_large, not_json,
  not_object, bad_turtle, not_staged, send_failed, sender_error, reported, redirect, returned,
}
use holon_bridge_python.Agents.Ledger.{
  World, Env, Event, Action, Candidate, replace, record_entry, emit,
}
use holon_bridge_python.Agents.Service.{fail_changes}

-- A value in a reply: a text, or another value with its `str()` and its truth value.
pub data Json : Type 0 where
  text : String → Json
  other : String → Bool → Json

-- `json.loads`: a ValueError, a value that is not an object, or an object's fields.
pub data Document : Type 0 where
  malformed scalar : Document
  object : (status summary turtle : Option Json) → Document

pub record Reply : Type 0 where
  pub status_code : ℕ
  pub content : String
  pub size : ℕ
  pub truncated : Bool

pub data Sent : Type 0 where
  replied : Reply → Sent
  -- SendFailed, or any other exception
  refused raised : String → Sent

pub record Outside : Type 0 where
  pub env : Env
  pub sender : Endpoint → Call → String → Sent
  pub loads : String → Document
  -- rdflib parses the text, or it looks like RDF 1.2
  pub parses : String → Bool
  pub looks_like_rdf12 : String → Bool
  -- the new candidate's IRI; `none` is a FusekiError
  pub stage : Call → String → Option String

-- `_fail`: the stored call and the caller's own copy take the same changes.
unfoldable pub fail : Env → Failure → Option Reply → Call → World → Call × World
fail env why reply call w =
    let changes : Call → Call = λ c. elim reply [
      | none ↦ fail_changes env why c
      | some r ↦ record (fail_changes env why c) {
        http_status = some r.status_code;
        response_bytes = some r.size;
      }
    ] in
    (changes call, replace call.id changes w)

-- `str(document.get("summary") or "")`
abbrev pub as_text : Option Json → String
as_text none = ""
as_text (some (text s)) = s
as_text (some (other s truth)) = if truth then s else ""

-- `document.get("status") != "ok"`
abbrev pub is_ok : Option Json → Bool
is_ok (some (text s)) = s == "ok"
is_ok (some (other _ _)) = false
is_ok none = false

-- The Turtle to stage: a text that is not blank, for a call with a target graph.
abbrev pub proposal : Option Json → Call → Option String
proposal (some (text t)) call =
    if not (strip t == "") && given call.target_graph then some t else none
proposal (some (other _ _)) call = none
proposal none call = none

abbrev pub respond_changes : Env → Reply → (summary candidate : String) → Call → Call
respond_changes env reply summary candidate c = record c {
  status = CallStatus.responded;
  completed_at = env.now;
  http_status = some reply.status_code;
  response_bytes = some reply.size;
  response_summary = summary;
  error = none;
  candidate = candidate;
}

unfoldable pub respond : Env → Reply → (summary candidate : String) → Call → World → Call × World
respond env reply summary candidate call w = (
  respond_changes env reply summary candidate call,
  replace call.id (respond_changes env reply summary candidate) w,
)

-- `propose_agent_candidate` and what follows it.
unfoldable pub stage_proposal :
    Outside → Reply → (summary turtle : String) → Call → World → Call × World
stage_proposal out reply summary turtle call w =
    if not (out.parses turtle) && not (out.looks_like_rdf12 turtle)
    then fail out.env bad_turtle (some reply) call w
    else elim (out.stage call turtle) [
      | none ↦ fail out.env not_staged (some reply) call w
      | some iri ↦ respond out.env reply summary iri call (record w {
        candidates =
            record { iri = iri; call = call.iri; target_graph = call.target_graph; turtle = turtle }
            ∷ w.candidates;
      })
    ]

unfoldable pub settle_object :
    Outside → Reply → (status summary turtle : Option Json) → Call → World → Call × World
settle_object out reply status summary turtle call w =
    if not (is_ok status)
    then fail out.env (reported (as_text status)) (some reply) call w
    else elim (proposal turtle call) [
      | none ↦ respond out.env reply (as_text summary) "" call w
      | some t ↦ stage_proposal out reply (as_text summary) t call w
    ]

abbrev pub settle_document : Outside → Reply → Call → World → Document → Call × World
settle_document out reply call w malformed = fail out.env not_json (some reply) call w
settle_document out reply call w scalar = fail out.env not_object (some reply) call w
settle_document out reply call w (object status summary turtle) =
    settle_object out reply status summary turtle call w

-- `_settle`
unfoldable pub settle : Outside → Reply → Call → World → Call × World
settle out reply call w =
    if reply.truncated
    then fail out.env too_large (some reply) call w
    else if leb 300 reply.status_code && ltb reply.status_code 400
    then fail out.env (redirect reply.status_code) (some reply) call w
    else if not (eqb reply.status_code 200)
    then fail out.env (returned reply.status_code) (some reply) call w
    else settle_document out reply call w (out.loads reply.content)

abbrev pub settle_sent : Outside → Call → World → Sent → Call × World
settle_sent out call w (replied reply) = settle out reply call w
settle_sent out call w (refused message) = fail out.env (send_failed message) none call w
settle_sent out call w (raised name) = fail out.env (sender_error name) none call w

abbrev pub or_else : String → String → String
or_else s t = if given s then s else t

abbrev pub result_outcome : Call → Outcome
result_outcome done =
    if status_eq done.status CallStatus.responded then Outcome.allowed else Outcome.error

-- `sender.send`, its settlement and the `result` entry. The body is handed to the
-- sender here (`sent`); the sender's own checks may still refuse it before a request leaves.
unfoldable pub deliver : Outside → Endpoint → Call → World → Call × World
deliver out endpoint call w =
    let (done, v) =
      settle_sent out call (emit (Event.sent call.id call.body) w)
        (out.sender endpoint call call.body) in
    (
      done,
      (record_entry out.env Action.result (result_outcome done) done
          (or_else call.approved_by call.requested_by) v).1,
    )

-- The `send` entry comes before the request: if it is owed and cannot be written, the call fails unsent.
unfoldable pub finish_send : Outside → Endpoint → Call → World → Call × World
finish_send out endpoint call w =
    let (recorded, v) =
      record_entry out.env Action.send Outcome.allowed call
        (or_else call.approved_by call.requested_by) w in
    if recorded then deliver out endpoint call v else fail out.env audit_unavailable none call v
