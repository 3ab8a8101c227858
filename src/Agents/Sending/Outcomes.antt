-- ===== src/Agents/Sending/Outcomes.antt =====
-- When a sending ends well, and when nothing is sent.
use holon_bridge_python.Prelude.{
  String, true, false, ◌||◌, Option, none, some, ◌≡◌, ◌↔◌, ◌⊎◌, inl, inr, refl, arith, Bool-cases,
  Option-cases,
}
use holon_bridge_python.Audit.Policy.{Outcome, should_record}
use holon_bridge_python.Agents.Model.{Call, CallStatus, Endpoint, audit_unavailable}
use holon_bridge_python.Agents.Ledger.{World, Entry, Action, replace, record_entry}
use holon_bridge_python.Agents.Sending.{
  Reply, Json, Document, malformed, scalar, object, Outside, is_ok, as_text, proposal, fail,
  respond, stage_proposal, settle_object, settle_document, settle, or_else, finish_send,
}

-- The entry that is written before a call leaves.
abbrev pub send_entry : Call → Entry
send_entry call = record {
  event = Action.send;
  outcome = Outcome.allowed;
  call = call.id;
  digest = call.digest;
  actor = or_else call.approved_by call.requested_by;
}

-- Where the level asks for the `send` entry and it cannot be written, nothing is sent: the trace of
-- what left is as before, and the call is failed with that reason.
pub unaudited_unsent :
    (out : Outside) (endpoint : Endpoint) (call : Call) (w : World)
    → should_record out.env.level Outcome.allowed true false ≡ true
    → out.env.writable (send_entry call) ≡ false
    → ((finish_send out endpoint call w).1.trace ≡ w.trace)
      × ((finish_send out endpoint call w).0.status ≡ CallStatus.failed)
      × ((finish_send out endpoint call w).0.error ≡ some audit_unavailable)
unfolding finish_send record_entry fail replace
unaudited_unsent out endpoint call w owed unwritable = rw (owed, unwritable) (refl, refl, refl)

-- What has to be staged, if anything, parses (or looks like RDF 1.2) and is staged.
abbrev pub Stages : Outside → Call → Option Json → Type 0
Stages out call turtle =
    (proposal turtle call ≡ none)
    ⊎ ((t : String) × (iri : String) × (proposal turtle call ≡ some t)
        × ((out.parses t || out.looks_like_rdf12 t) ≡ true)
        × (out.stage call t ≡ some iri))

module _ (out : Outside) (reply : Reply) (call : Call) (w : World) where
  stage_responded_iff :
      (summary t : String)
      → ((stage_proposal out reply summary t call w).0.status ≡ CallStatus.responded) ↔ (
          ((out.parses t || out.looks_like_rdf12 t) ≡ true)
          × ((iri : String) × (out.stage call t ≡ some iri)))
  unfolding stage_proposal fail respond
  stage_responded_iff summary t = (λ h. ground arith, λ (p, q). ground arith)

  object_responded_iff :
      (status summary turtle : Option Json)
      → ((settle_object out reply status summary turtle call w).0.status ≡ CallStatus.responded)
        ↔ ((is_ok status ≡ true) × Stages out call turtle)
  unfolding settle_object fail respond
  object_responded_iff status summary turtle = elim (Bool-cases (is_ok status)) [
    | inr e ↦ (λ h. ground arith, λ (o, _). cc)
    | inl e ↦ elim (Option-cases (proposal turtle call)) [
      | inl n ↦ (λ h. (e, inl n), λ _. rw (e, n) refl)
      | inr (t, n) ↦
          let staged = stage_responded_iff (as_text summary) t in
          (
            λ h. let (p, (iri, q)) = staged.0 (rw (e, n) at h) in (e, inr (t, iri, n, p, q)),
            λ (_, s). elim s [
              | inl none_to_stage ↦ cc
              | inr (u, iri, m, p, q) ↦
                  let same : t ≡ u = cc in rw (e, n) (staged.1 (rw same p, (iri, rw same q)))
            ],
          )
    ]
  ]

  settle_whole :
      reply.truncated ≡ false
      → reply.status_code ≡ 200
      → settle out reply call w ≡ settle_document out reply call w (out.loads reply.content)
  unfolding settle
  settle_whole whole code = ground arith

  settle_complete :
      (settle out reply call w).0.status ≡ CallStatus.responded
      → (reply.truncated ≡ false) × (reply.status_code ≡ 200)
  unfolding settle fail
  settle_complete h = (ground arith, ground arith)

  document_responded :
      (d : Document)
      → (settle_document out reply call w d).0.status ≡ CallStatus.responded
      → (status : Option Json) × (summary : Option Json) × (turtle : Option Json) × (d
          ≡ object status summary turtle)
        × (is_ok status ≡ true)
        × Stages out call turtle
  unfolding fail
  document_responded malformed h = cc
  document_responded scalar h = cc
  document_responded (object status summary turtle) h =
      let (fine, staged) = (object_responded_iff status summary turtle).0 h in
      (status, summary, turtle, refl, fine, staged)

  -- A settled call is Responded exactly when the reply is complete, has status 200 and is a JSON
  -- object with status "ok", and its Turtle, if it has any to stage, parses and could be staged. In
  -- every other case the call is not Responded.
  pub settle_responded_iff : ((settle out reply call w).0.status ≡ CallStatus.responded) ↔ (
      (reply.truncated ≡ false)
      × (reply.status_code ≡ 200)
      × ((status : Option Json) × (summary : Option Json) × (turtle : Option Json) × (out.loads
              reply.content
            ≡ object status summary turtle)
          × (is_ok status ≡ true)
          × Stages out call turtle))
  settle_responded_iff = (
    λ h.
        let (whole, code) = settle_complete h in
        let (status, summary, turtle, loaded, fine, staged) =
          document_responded (out.loads reply.content) (rw (settle_whole whole code) at h) in
        (whole, code, (status, summary, turtle, loaded, fine, staged)),
    λ (whole, code, (status, summary, turtle, loaded, fine, staged)).
        rw (settle_whole whole code, loaded)
          ((object_responded_iff status summary turtle).1 (fine, staged)),
  )
