-- ===== src/Agents/System/Tracing.antt =====
-- Each call carries the body with which it was placed.
use holon_bridge_python.Prelude.{
  ℕ, zero, suc, String, List, [], ◌∷◌, ◌++◌, none, some, ◌≡◌, inl, inr, refl, sym, ap, ◌∙◌,
  Bool-cases, if◌then◌else◌, ◌==◌, In, In-append_left, In-append_right, In-of-append,
}
use mathlib.Core.Path.{subst}
use holon_bridge_python.Audit.Policy.{Outcome}
use holon_bridge_python.Agents.Model.{Call, Endpoint, audit_unavailable}
use holon_bridge_python.Agents.Ledger.{
  World, Env, Event, Action, placed, sent, approval, update_all, put, replace, record_entry, emit,
}
use holon_bridge_python.Agents.Sending.{Outside, or_else, deliver, finish_send}
use holon_bridge_python.Agents.System.{nth, without}
use holon_bridge_python.Agents.Ledger.Entries.{record_entry_keeps}
use holon_bridge_python.Agents.System.Settling.{Ended, fail-Ended, settle_sent-Ended}

-- The call was placed with the body that it has now.
abbrev IsKnown : List Event → Call → Type 0
IsKnown trace c = In (placed c.id c.body) trace

pub record IsTraced (fly : List Call) (w : World) : Type 0 where
  pub stored : (c : Call) → In c w.calls → IsKnown w.trace c
  pub flying : (c : Call) → In c fly → IsKnown w.trace c
  pub sent_placed : (id body : String) → In (sent id body) w.trace → In (placed id body) w.trace

pub record KeepsText (changes : Call → Call) : Type 0 where
  pub id : (c : Call) → (changes c).id ≡ c.id
  pub body : (c : Call) → (changes c).body ≡ c.body

changed_known :
    (trace : List Event) (changes : Call → Call)
    → KeepsText changes
    → (c : Call) → IsKnown trace c
    → IsKnown trace (changes c)
changed_known trace changes k c h = rw (k.id c, k.body c) h

update_all_known :
    (trace : List Event) (id : String) (changes : Call → Call) (k : KeepsText changes)
    (cs : List Call)
    → ((c : Call) → In c cs → IsKnown trace c)
    → (c : Call) → In c (update_all id changes cs)
    → IsKnown trace c
update_all_known trace id changes k [] known c m = absurd m
update_all_known trace id changes k (x ∷ cs) known c (inr m) =
    update_all_known trace id changes k cs (λ d n. known d (inr n)) c m
update_all_known trace id changes k (x ∷ cs) known c (inl e) = elim (Bool-cases (x.id == id)) [
  | inl p ↦
      let s : c ≡ changes x = e ∙ ap (λ b. if b then changes x else x) p in
      rw s (changed_known trace changes k x (known x (inl refl)))
  | inr p ↦ let s : c ≡ x = e ∙ ap (λ b. if b then changes x else x) p in rw s (known x (inl refl))
]

module _ {fly : List Call} {w : World} (h : IsTraced fly w) where
  pub replace-IsTraced :
      (id : String) (changes : Call → Call)
      → KeepsText changes
      → IsTraced fly (replace id changes w)
  unfolding replace
  replace-IsTraced id changes k = record {
    stored = update_all_known w.trace id changes k w.calls h.stored;
    flying = h.flying;
    sent_placed = h.sent_placed;
  }

  -- An event that is no request leaving.
  emit-IsTraced :
      (e : Event)
      → ((id body : String) → sent id body ≡ e → In (placed id body) w.trace)
      → IsTraced fly (emit e w)
  emit-IsTraced e from = record {
    stored = λ c m. In-append_left _ w.trace (e ∷ []) (h.stored c m);
    flying = λ c m. In-append_left _ w.trace (e ∷ []) (h.flying c m);
    sent_placed = λ id body m.
        In-append_left _ w.trace (e ∷ []) (elim (In-of-append _ w.trace (e ∷ []) m) [
          | inl old ↦ h.sent_placed id body old
          | inr (inl now) ↦ from id body now
          | inr (inr never) ↦ elim never [ ]
        ]);
  }

  pub record-IsTraced :
      (env : Env) (event : Action) (outcome : Outcome) (c : Call) (actor : String)
      → IsTraced fly (record_entry env event outcome c actor w).1
  record-IsTraced env event outcome c actor =
      let (calls, trace) = record_entry_keeps env event outcome c actor w in
      record {
        stored = λ d m. rw trace (h.stored d (rw calls at m));
        flying = λ d m. rw trace (h.flying d m);
        sent_placed = λ id body m. rw trace (h.sent_placed id body (rw trace at m));
      }

  Ended-IsTraced : {id : String} {w' : World} → Ended id w w' → IsTraced fly w'
  Ended-IsTraced {id} e = record {
    stored = λ c m. rw e.trace_same (
        update_all_known w.trace id e.changes (record { id = e.keeps_id; body = e.keeps_body })
          w.calls h.stored c (rw e.calls_eq at m));
    flying = λ c m. rw e.trace_same (h.flying c m);
    sent_placed = λ id body m. rw e.trace_same (h.sent_placed id body (rw e.trace_same at m));
  }

  -- A decision emits an approval or nothing.
  pub approval-IsTraced : (id : String) → IsTraced fly (emit (approval id) w)
  approval-IsTraced id = emit-IsTraced (approval id) (λ i b e. cc)

pub In-without : (n : ℕ) (l : List Call) (c : Call) → In c (without n l) → In c l
In-without zero (x ∷ l) c m = inr m
In-without (suc n) (x ∷ l) c (inl e) = inl e
In-without (suc n) (x ∷ l) c (inr m) = inr (In-without n l c m)
In-without zero [] c m = m
In-without (suc n) [] c m = m

pub In-nth : (n : ℕ) (l : List Call) (c : Call) → nth n l ≡ some c → In c l
In-nth zero (x ∷ l) c e = let s : x ≡ c = cc in inl (sym s)
In-nth (suc n) (x ∷ l) c e = inr (In-nth n l c e)
In-nth zero [] c e = cc
In-nth (suc n) [] c e = cc

pub fewer_flying :
    {fly fly' : List Call} {w : World}
    → ((c : Call) → In c fly' → In c fly)
    → IsTraced fly w
    → IsTraced fly' w
fewer_flying part h = record {
  stored = h.stored;
  flying = λ c m. h.flying c (part c m);
  sent_placed = h.sent_placed;
}

pub finish-IsTraced :
    (fly : List Call) (out : Outside) (endpoint : Endpoint) (call : Call) (w : World)
    → IsKnown w.trace call
    → IsTraced fly w
    → IsTraced fly (finish_send out endpoint call w).1
unfolding finish_send deliver
finish-IsTraced fly out endpoint call w known h =
    let actor = or_else call.approved_by call.requested_by in
    let recorded = record_entry out.env Action.send Outcome.allowed call actor w in
    let still = record-IsTraced h out.env Action.send Outcome.allowed call actor in
    let known' : IsKnown recorded.1.trace call =
      rw (record_entry_keeps out.env Action.send Outcome.allowed call actor w).1 known in
    elim (Bool-cases recorded.0) [
      | inl e ↦ rw e (
          record-IsTraced
            (Ended-IsTraced
              (emit-IsTraced still (sent call.id call.body)
                (λ i b s. text_known recorded.1.trace call known' i b s))
              (settle_sent-Ended out call _ (out.sender endpoint call call.body)))
            out.env _ _ _ _)
      | inr e ↦
          rw e (Ended-IsTraced still (fail-Ended out.env audit_unavailable none call recorded.1))
    ]
  where
    text_known :
        (trace : List Event) (c : Call)
        → IsKnown trace c
        → (i b : String) → sent i b ≡ sent c.id c.body
        → In (placed i b) trace
    text_known trace c k i b s = let ei : i ≡ c.id = cc in let eb : b ≡ c.body = cc in rw (ei, eb) k

pub one_more :
    {fly : List Call} {w : World}
    → IsTraced fly w
    → (call : Call) → IsKnown w.trace call
    → IsTraced (call ∷ fly) w
one_more {w = w} h call known = record {
  stored = h.stored;
  flying = λ c m. elim m [ inl e ↦ subst (IsKnown w.trace) (sym e) known | inr n ↦ h.flying c n ];
  sent_placed = h.sent_placed;
}

pub placed-IsTraced :
    (fly : List Call) (w : World) (call : Call)
    → IsTraced fly w
    → IsTraced fly (emit (placed call.id call.body) (put call w))
unfolding put
placed-IsTraced fly w call h = record {
  stored = λ c m. elim m [
    | inl e ↦
        subst (IsKnown (w.trace ++ placed call.id call.body ∷ [])) (sym e)
          (In-append_right _ w.trace _ (inl refl))
    | inr n ↦ In-append_left _ w.trace _ (h.stored c n)
  ];
  flying = λ c m. In-append_left _ w.trace _ (h.flying c m);
  sent_placed = λ id body m.
      In-append_left _ w.trace _ (elim (In-of-append _ w.trace (placed call.id call.body ∷ []) m) [
        | inl old ↦ h.sent_placed id body old
        | inr now ↦ elim now [ inl e ↦ cc | inr never ↦ elim never [ ] ]
      ]);
}
