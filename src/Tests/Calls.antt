-- ===== src/Tests/Calls.antt =====
-- Runs of calls to agents.
use holon_bridge_python.Prelude.{
  ◌+◌, ◌≤◌, suc, [], ◌∷◌, true, false, Option, some, ◌≡◌, ◌≢◌, ◌↔◌, ◌⊎◌, inl, inr, refl, ok, In,
  all,
}
use holon_bridge_python.Prelude.Sorting.{sort_by}
use holon_bridge_python.Prelude.Text.{strip, drop_suffix}
use holon_bridge_python.Audit.Naming.{is_audit_graph, audit_graph, config_graph, swap}
use holon_bridge_python.Audit.Policy.{Outcome, should_record}
use holon_bridge_python.Acl.{check_write, is_admin, admin_role, owner_role}
use holon_bridge_python.Egress.{
  check_endpoint, parse_endpoint, target_of, addresses_of, all_public, non_public_reason,
}
use holon_bridge_python.TriggerAuthz.{require_grant}
use holon_bridge_python.Agents.Policy.{check_agent_endpoint}
use holon_bridge_python.Agents.Service.{approve_call, transition, claim_call}
use holon_bridge_python.Agents.Model.{
  CallStatus, policy, active, has_credentials, by_id, is_open, audit_unavailable,
}
use holon_bridge_python.Agents.Ledger.{
  World, placed, sent, record_entry, put, get, list_calls, replace, open_count,
}
use holon_bridge_python.Agents.Sending.{
  Outside, finish_send, deliver, respond, settle, settle_object, Json, object, is_ok,
}
use holon_bridge_python.Agents.Sending.Outcomes.{unaudited_unsent, settle_responded_iff, Stages}
use holon_bridge_python.Agents.Request.{
  new_call, request_call, check_request, authorize_request, is_queued, usable,
}
use holon_bridge_python.Agents.Request.Queue.{request_call_capped, request_call_status}
use holon_bridge_python.Agents.Dispatch.{
  Dispatcher, dispatch_approved, queue, dispatch_all, dispatch_one, send_call, tally_done,
}
use holon_bridge_python.Agents.Dispatch.Counting.{requests, dispatch_approved_tally}
use holon_bridge_python.Agents.Dispatch.Counting.Results.{
  responses, failures, refusals, IsLogging, dispatch_approved_logged,
}
use holon_bridge_python.Agents.System.{run, run_step, empty}
use holon_bridge_python.Agents.System.Moves.{sends, approvals}
use holon_bridge_python.Agents.System.Logged.{asks, send_entries, sends-le-entries}
use holon_bridge_python.Agents.System.AtMostOnce.{sends-le-approvals}
use holon_bridge_python.Agents.System.Provenance.{sent-placed}
use holon_bridge_python.Tests.Samples.{
  access, env, endpoint, desk, order, reply, outside, no_calls, call, one_call, steps,
}

sends-le-approvals_example :
    sends "c1" (run steps empty).world.trace ≤ approvals "c1" (run steps empty).world.trace
sends-le-approvals_example = sends-le-approvals "c1" steps

was_sent : In (sent "c1" "hello") (run steps empty).world.trace
unfolding run run_step request_call check_request new_call is_queued put record_entry should_record
    approve_call transition claim_call finish_send deliver settle settle_object respond get replace
    active has_credentials check_agent_endpoint check_endpoint parse_endpoint target_of addresses_of
    all_public non_public_reason open_count authorize_request require_grant check_write
    is_audit_graph audit_graph config_graph swap is_admin admin_role owner_role is_open strip
    drop_suffix
was_sent = inr (inr (inl refl))

all_asked : all asks steps ≡ true
unfolding should_record
all_asked = refl

sends-le-entries_example :
    sends "c1" (run steps empty).world.trace ≤ send_entries "c1" (run steps empty).world
sends-le-entries_example = sends-le-entries "c1" steps all_asked

sent-placed_example : In (placed "c1" "hello") (run steps empty).world.trace
sent-placed_example = sent-placed "c1" "hello" steps was_sent

settle_responded_iff_example :
    ((settle outside reply call one_call).0.status ≡ CallStatus.responded) ↔ (
      (reply.truncated ≡ false)
      × (reply.status_code ≡ 200)
      × ((status : Option Json) × (summary : Option Json) × (turtle : Option Json) × (outside.loads
              reply.content
            ≡ object status summary turtle)
          × (is_ok status ≡ true)
          × Stages outside call turtle))
settle_responded_iff_example = settle_responded_iff outside reply call one_call

-- The log cannot be written.
abbrev mute : Outside
mute = record outside { env = record env { writable = λ e. false } }

owed : should_record mute.env.level Outcome.allowed true false ≡ true
unfolding should_record
owed = refl

muted :
    ((finish_send mute endpoint call one_call).1.trace ≡ [])
    × ((finish_send mute endpoint call one_call).0.status ≡ CallStatus.failed)
    × ((finish_send mute endpoint call one_call).0.error ≡ some audit_unavailable)
muted = unaudited_unsent mute endpoint call one_call owed refl

placed_call :
    (request_call desk order endpoint no_calls no_calls).0 ≡ ok (new_call desk order endpoint)
unfolding run run_step request_call check_request new_call is_queued put record_entry should_record
    approve_call transition claim_call finish_send deliver settle settle_object respond get replace
    active has_credentials check_agent_endpoint check_endpoint parse_endpoint target_of addresses_of
    all_public non_public_reason open_count authorize_request require_grant check_write
    is_audit_graph audit_graph config_graph swap is_admin admin_role owner_role is_open strip
    drop_suffix
placed_call = refl

request_call_capped_example :
    (active endpoint ≡ true)
    × (usable desk endpoint ≡ true)
    × (open_count "e1" (request_call desk order endpoint no_calls no_calls).1
        ≡ suc (open_count "e1" no_calls))
    × ((desk.max_open_calls ≡ 0)
        ⊎ (open_count "e1" (request_call desk order endpoint no_calls no_calls).1
              + open_count "e1" no_calls
            ≤ desk.max_open_calls + open_count "e1" no_calls))
request_call_capped_example =
    request_call_capped desk order endpoint no_calls no_calls (new_call desk order endpoint)
      placed_call

-- The cap is 2 and one call is open. Two requests that both count it then make three.
abbrev first_of_two : World
first_of_two = (request_call desk order endpoint one_call one_call).1

cap_exceeded : open_count "e1" (request_call desk order endpoint one_call first_of_two).1 ≡ 3
unfolding request_call check_request new_call is_queued put record_entry should_record active
    has_credentials check_agent_endpoint check_endpoint parse_endpoint target_of addresses_of
    all_public non_public_reason open_count authorize_request require_grant check_write
    is_audit_graph audit_graph config_graph swap is_admin admin_role owner_role is_open strip
    drop_suffix
cap_exceeded = refl

request_call_status_example :
    ((new_call desk order endpoint).id ≡ "c1")
    × ((new_call desk order endpoint).body ≡ "hello")
    × ((new_call desk order endpoint).digest ≡ "digest")
    × ((order.approval ≡ policy)
          × (endpoint.call_review ≡ false)
          × ((new_call desk order endpoint).status ≡ CallStatus.approved)
          × ((new_call desk order endpoint).approved_by ≡ "ann")
        ⊎ ((order.approval ≢ policy) ⊎ (endpoint.call_review ≡ true))
          × ((new_call desk order endpoint).status ≡ CallStatus.pending)
          × ((new_call desk order endpoint).approved_by ≡ ""))
request_call_status_example =
    request_call_status desk order endpoint no_calls no_calls (new_call desk order endpoint)
      placed_call

abbrev dispatcher : Dispatcher
dispatcher = record {
  out = outside;
  access = access;
  endpoints = endpoint ∷ [];
  answers = λ c. true;
}

abbrev after_dispatch : World
after_dispatch = (dispatch_approved dispatcher 5 one_call).1.1

one_sent :
    (dispatch_approved dispatcher 5 one_call).1
    ≡ (ok (record { sent = 1; responded = 1; failed = 0 }), after_dispatch)
unfolding sort_by dispatch_approved queue list_calls dispatch_all dispatch_one by_id send_call
    tally_done put record_entry should_record transition claim_call finish_send deliver settle
    settle_object respond get replace active has_credentials check_agent_endpoint check_endpoint
    parse_endpoint target_of addresses_of all_public non_public_reason open_count authorize_request
    require_grant check_write is_audit_graph audit_graph config_graph swap is_admin admin_role
    owner_role is_open strip drop_suffix
one_sent = refl

dispatch_tallied :
    ((dispatch_approved dispatcher 5 one_call).0 ≤ 5)
    × (requests after_dispatch ≡ requests one_call + 1)
    × (1 ≤ 1 + 0)
    × (1 ≤ 1)
dispatch_tallied =
    dispatch_approved_tally dispatcher 5 one_call after_dispatch
      (record { sent = 1; responded = 1; failed = 0 }) one_sent

dispatcher-IsLogging : IsLogging dispatcher.out.env
unfolding should_record
dispatcher-IsLogging = (refl, λ _. refl)

dispatch_approved_logged_example :
    (responses after_dispatch ≡ responses one_call + 1)
    × (failures after_dispatch + 1 ≡ failures one_call + 1)
    × (1 + refusals after_dispatch ≤ 1 + 0 + refusals one_call)
    × (1 + 0 ≤ (dispatch_approved dispatcher 5 one_call).0)
    × ((dispatch_approved dispatcher 5 one_call).0 ≤ 5)
dispatch_approved_logged_example =
    dispatch_approved_logged dispatcher 5 one_call after_dispatch
      (record { sent = 1; responded = 1; failed = 0 }) dispatcher-IsLogging one_sent
