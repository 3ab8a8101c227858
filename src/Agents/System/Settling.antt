-- ===== src/Agents/System/Settling.antt =====
-- What a settlement does to the ledger: the settled call takes changes that end it, and nothing else
-- about calls or the trace changes.
use holon_bridge_python.Prelude.{
  String, false, Option, none, some, ◌≡◌, refl, Bool-cases, Option-cases, inl, inr, not, ◌&&◌, ap,
  ◌∙◌, eqb, leb, ltb,
}
use holon_bridge_python.Agents.Model.{Call, CallStatus, status_eq, Failure, too_large}
use holon_bridge_python.Agents.Ledger.{World, Env, update_all, replace}
use holon_bridge_python.Agents.Sending.{
  Reply, Sent, replied, refused, raised, Json, Document, malformed, scalar, object, Outside, fail,
  respond, stage_proposal, settle_object, settle_document, settle, settle_sent, is_ok, proposal,
}

pub record Ended (id : String) (w w' : World) : Type 0 where
  pub changes : Call → Call
  pub trace_same : w'.trace ≡ w.trace
  pub entries_same : w'.entries ≡ w.entries
  pub calls_eq : w'.calls ≡ update_all id changes w.calls
  pub keeps_id : (c : Call) → (changes c).id ≡ c.id
  pub keeps_body : (c : Call) → (changes c).body ≡ c.body
  pub ends : (c : Call) → status_eq (changes c).status CallStatus.approved ≡ false

pub fail-Ended :
    (env : Env) (why : Failure) (reply : Option Reply) (call : Call) (w : World)
    → Ended call.id w (fail env why reply call w).1
unfolding fail replace
fail-Ended env why none call w = record {
  changes = _;
  trace_same = refl;
  entries_same = refl;
  calls_eq = refl;
  keeps_id = λ c. refl;
  keeps_body = λ c. refl;
  ends = λ c. refl;
}
fail-Ended env why (some r) call w = record {
  changes = _;
  trace_same = refl;
  entries_same = refl;
  calls_eq = refl;
  keeps_id = λ c. refl;
  keeps_body = λ c. refl;
  ends = λ c. refl;
}

respond-Ended :
    (env : Env) (reply : Reply) (summary candidate : String) (call : Call) (w : World)
    → Ended call.id w (respond env reply summary candidate call w).1
unfolding respond replace
respond-Ended env reply summary candidate call w = record {
  changes = _;
  trace_same = refl;
  entries_same = refl;
  calls_eq = refl;
  keeps_id = λ c. refl;
  keeps_body = λ c. refl;
  ends = λ c. refl;
}

-- New candidates are no change to calls.
staged-Ended :
    (env : Env) (reply : Reply) (summary candidate : String) (call : Call) (w : World) {v : World}
    → v.calls ≡ w.calls
    → v.trace ≡ w.trace
    → v.entries ≡ w.entries
    → Ended call.id v (respond env reply summary candidate call v).1
    → Ended call.id w (respond env reply summary candidate call v).1
staged-Ended env reply summary candidate call w same_calls same_trace same_entries e = record {
  changes = e.changes;
  trace_same = e.trace_same ∙ same_trace;
  entries_same = e.entries_same ∙ same_entries;
  calls_eq = e.calls_eq ∙ ap (update_all call.id e.changes) same_calls;
  keeps_id = e.keeps_id;
  keeps_body = e.keeps_body;
  ends = e.ends;
}

module _ (out : Outside) (reply : Reply) (call : Call) (w : World) where
  stage_proposal-Ended :
      (summary turtle : String) → Ended call.id w (stage_proposal out reply summary turtle call w).1
  unfolding stage_proposal
  stage_proposal-Ended summary turtle =
      elim (Bool-cases (not (out.parses turtle) && not (out.looks_like_rdf12 turtle))) [
        | inl e ↦ rw e (fail-Ended out.env _ (some reply) call w)
        | inr e ↦ rw e (elim (Option-cases (out.stage call turtle)) [
          | inl n ↦ rw n (fail-Ended out.env _ (some reply) call w)
          | inr (iri, n) ↦ rw n (
              staged-Ended out.env reply summary iri call w refl refl refl
                (respond-Ended out.env reply summary iri call _))
        ])
      ]

  settle_object-Ended :
      (status summary turtle : Option Json)
      → Ended call.id w (settle_object out reply status summary turtle call w).1
  unfolding settle_object
  settle_object-Ended status summary turtle = elim (Bool-cases (is_ok status)) [
    | inl e ↦ rw e (elim (Option-cases (proposal turtle call)) [
      | inl n ↦ rw n (respond-Ended out.env reply _ "" call w)
      | inr (t, n) ↦ rw n (stage_proposal-Ended _ t)
    ])
    | inr e ↦ rw e (fail-Ended out.env _ (some reply) call w)
  ]

  settle_document-Ended : (d : Document) → Ended call.id w (settle_document out reply call w d).1
  settle_document-Ended malformed = fail-Ended out.env _ (some reply) call w
  settle_document-Ended scalar = fail-Ended out.env _ (some reply) call w
  settle_document-Ended (object status summary turtle) = settle_object-Ended status summary turtle

  pub settle-Ended : Ended call.id w (settle out reply call w).1
  unfolding settle
  settle-Ended = elim (Bool-cases reply.truncated) [
    | inl e ↦ simp e (fail-Ended out.env too_large (some reply) call w)
    | inr e ↦ simp e (elim (Bool-cases (leb 300 reply.status_code && ltb reply.status_code 400)) [
      | inl f ↦ rw f (fail-Ended out.env _ (some reply) call w)
      | inr f ↦ rw f (elim (Bool-cases (eqb reply.status_code 200)) [
        | inl k ↦ rw k (settle_document-Ended (out.loads reply.content))
        | inr k ↦ rw k (fail-Ended out.env _ (some reply) call w)
      ])
    ])
  ]

pub settle_sent-Ended :
    (out : Outside) (call : Call) (w : World) (s : Sent)
    → Ended call.id w (settle_sent out call w s).1
settle_sent-Ended out call w (replied reply) = settle-Ended out reply call w
settle_sent-Ended out call w (refused message) = fail-Ended out.env _ none call w
settle_sent-Ended out call w (raised name) = fail-Ended out.env _ none call w
