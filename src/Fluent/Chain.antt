-- ===== src/Fluent/Chain.antt =====
-- Transitions of one fluent, interleaved: no update is lost.
use holon_bridge_python.Prelude.{
  String, List, [], ◌∷◌, true, false, Option, none, some, ◌≡◌, ◌≢◌, inl, inr, refl, sym, ap, ◌∙◌,
  some-injective, ◌>>=◌, Result, ok, err, ok-injective, >>=-eq-ok, arith, Bool-cases, In, find,
  ◌==◌,
}
use holon_bridge_python.Fluent.{
  OperationMode, numeric, date, set_value, list, Operation, set, insert, remove, list_insert,
  list_remove, may_apply, set_to, FluentError, TypedValue, Input, Arithmetic, Plan, guard_of,
  assigning, plan, delta, valid_ops, Scene, Entry, Store, guard_holds, apply_change, Attempt,
  read_and_plan, commit,
}
use holon_bridge_python.Fluent.Race.{
  System, Step, reads, commits, admitted, committed, step, run, fresh,
}

-- The entry started from that value.
abbrev pub StartsFrom : Arithmetic → Option TypedValue → List Entry → Type 0
StartsFrom a old [] = old ≡ none
StartsFrom a old (e ∷ rest) = (v : TypedValue) × (old ≡ some v) × (a.same e.has_value v ≡ true)

abbrev the_plan : Option TypedValue → TypedValue → Result FluentError Plan
the_plan current new = ok (assigning current new)

abbrev the_attempt : Operation → String → Store → Plan → Result FluentError Attempt
the_attempt operation iri store p = ok (record {
  iri = iri;
  operation = operation;
  current = store.scene.value;
  current_assertion = store.scene.assertion;
  planned = p;
})

-- Each entry started from the value that the one before left, the first from none.
abbrev pub Chained : Arithmetic → List Entry → Type 0
Chained a [] = Unit
Chained a (e ∷ rest) = StartsFrom a e.old_value rest × Chained a rest

-- The scene shows the latest entry's value.
abbrev pub Shows : List Entry → Option TypedValue → Type 0
Shows [] v = v ≡ none
Shows (e ∷ rest) v = v ≡ some e.has_value

abbrev IsScalar : Attempt → Type 0
IsScalar t = t.planned ≡ assigning t.current t.planned.new_value

record IsSound (a : Arithmetic) (s : System) : Type 0 where
  shows : Shows s.store.ledger s.store.scene.value
  chained : Chained a s.store.ledger
  scalar : (t : Attempt) → In t s.pending → IsScalar t

starts_from :
    (a : Arithmetic) (ledger : List Entry) (current : Option TypedValue) (s : Scene)
    → Shows ledger s.value
    → guard_holds a (guard_of current) s ≡ true
    → StartsFrom a current ledger
unfolding guard_holds
starts_from a [] none s h g = refl
starts_from a [] (some v) s h g = ground (arith, h, g)
starts_from a (e ∷ rest) none s h g = ground (arith, h, g)
starts_from a (e ∷ rest) (some v) s h g = (v, refl, ground (arith, h, g))

commit-IsSound :
    (a : Arithmetic) (s : System) (t : Attempt) (new : TypedValue)
    → IsSound a s
    → t.planned ≡ assigning t.current new
    → IsSound a (committed a s (some t))
unfolding commit apply_change
commit-IsSound a s t new h scalar =
    let value = ap (λ (p : Plan). p.new_value) scalar in
    let guard = ap (λ (p : Plan). p.guard) scalar in
    let change = ap (λ (p : Plan). p.change) scalar in
    elim (Bool-cases (guard_holds a (guard_of t.current) s.store.scene)) [
      | inr e ↦ record {
        shows = ground (arith, e, guard, h.shows);
        chained = rw (guard, e) h.chained;
        scalar = h.scalar;
      }
      | inl e ↦ record {
        shows = rw (guard, e, change, value) refl;
        chained =
            rw (guard, e)
              (starts_from a s.store.ledger t.current s.store.scene h.shows e, h.chained);
        scalar = h.scalar;
      }
    ]

assigned :
    (current : Option TypedValue) (new : TypedValue) (p : Plan)
    → the_plan current new ≡ ok p
    → p ≡ assigning current p.new_value
assigned current new p h =
    let e = ok-injective h in sym e ∙ ap (λ (q : Plan). assigning current q.new_value) e

inserts_list :
    (mode : OperationMode) → valid_ops mode list_insert ≡ true → mode ≡ OperationMode.list
unfolding valid_ops
inserts_list list h = refl
inserts_list numeric h = cc
inserts_list date h = cc
inserts_list set_value h = cc

removes_list :
    (mode : OperationMode) → valid_ops mode list_remove ≡ true → mode ≡ OperationMode.list
unfolding valid_ops
removes_list list h = refl
removes_list numeric h = cc
removes_list date h = cc
removes_list set_value h = cc

plan-IsScalar :
    (a : Arithmetic) (mode : OperationMode) (operation : Operation) (current : Option TypedValue)
    (v : Input) (p : Plan)
    → mode ≢ OperationMode.list
    → valid_ops mode operation ≡ true
    → plan a mode operation current v ≡ ok p
    → p ≡ assigning current p.new_value
unfolding plan
plan-IsScalar a mode set current v p m valid h = assigned current (set_to v) p h
plan-IsScalar a mode insert current v p m valid h =
    let (new, made, rest) = >>=-eq-ok (delta a mode true current v) (λ x. the_plan current x) h in
    assigned current new p rest
plan-IsScalar a mode remove current v p m valid h =
    let (new, made, rest) = >>=-eq-ok (delta a mode false current v) (λ x. the_plan current x) h in
    assigned current new p rest
plan-IsScalar a mode list_insert current v p m valid h = absurd (m (inserts_list mode valid))
plan-IsScalar a mode list_remove current v p m valid h = absurd (m (removes_list mode valid))

read-IsScalar :
    (a : Arithmetic) (mode : OperationMode) (operation : Operation) (v : Input) (iri : String)
    (store : Store) (t : Attempt)
    → mode ≢ OperationMode.list
    → read_and_plan a mode operation v iri store ≡ ok t
    → IsScalar t
unfolding read_and_plan
read-IsScalar a mode operation v iri store t m h = elim (Bool-cases (valid_ops mode operation)) [
  | inr e ↦ ground (arith, e)
  | inl valid ↦ elim (Bool-cases (may_apply a operation v store.scene)) [
    | inr e ↦ ground (arith, valid, e)
    | inl may ↦
        let went : (plan a mode operation store.scene.value v >>= λ x.
        the_attempt operation iri store x)
            ≡ ok t =
          simp (valid, may) at h in
        let (p, planned, rest) =
          >>=-eq-ok (plan a mode operation store.scene.value v)
            (λ x. the_attempt operation iri store x) went in
        rw (sym (ok-injective rest))
          (plan-IsScalar a mode operation store.scene.value v p m valid planned)
  ]
]

admitted-IsSound :
    (a : Arithmetic) (s : System) (r : Result FluentError Attempt)
    → IsSound a s
    → ((t : Attempt) → r ≡ ok t → IsScalar t)
    → IsSound a (admitted s r)
admitted-IsSound a s (err e) h new = h
admitted-IsSound a s (ok t) h new = record {
  shows = h.shows;
  chained = h.chained;
  scalar = λ x m. elim m [ inl e ↦ rw e (new t refl) | inr rest ↦ h.scalar x rest ];
}

find_pending :
    (iri : String) (l : List Attempt) (t : Attempt)
    → find (λ (x : Attempt). x.iri == iri) l ≡ some t
    → In t l
find_pending iri [] t h = cc
find_pending iri (x ∷ rest) t h = elim (Bool-cases (x.iri == iri)) [
  | inl e ↦ inl (some-injective (sym h ∙ rw e refl))
  | inr e ↦ inr (find_pending iri rest t (ground (arith, e)))
]

committed-IsSound :
    (a : Arithmetic) (s : System) (o : Option Attempt)
    → IsSound a s
    → ((t : Attempt) → o ≡ some t → In t s.pending)
    → IsSound a (committed a s o)
committed-IsSound a s none h found = h
committed-IsSound a s (some t) h found =
    commit-IsSound a s t t.planned.new_value h (h.scalar t (found t refl))

run-IsSound :
    (a : Arithmetic) (mode : OperationMode) (steps : List Step) (s : System)
    → mode ≢ OperationMode.list
    → IsSound a s
    → IsSound a (run a mode steps s)
unfolding run step
run-IsSound a mode [] s m h = h
run-IsSound a mode (reads operation v iri ∷ rest) s m h =
    let r = read_and_plan a mode operation v iri s.store in
    run-IsSound a mode rest (admitted s r) m
      (admitted-IsSound a s r h (λ t e. read-IsScalar a mode operation v iri s.store t m e))
run-IsSound a mode (commits iri ∷ rest) s m h =
    let o = find (λ (t : Attempt). t.iri == iri) s.pending in
    run-IsSound a mode rest (committed a s o) m
      (committed-IsSound a s o h (λ t e. find_pending iri s.pending t e))

-- However the reads and commits of any number of transitions of one scalar fluent interleave, no
-- update is lost: each ledger entry started from the value that the entry before it left (equal by
-- SPARQL's `=`), the first from no value, and the scene shows the value of the latest entry.
pub transitions-Chained :
    (a : Arithmetic) (mode : OperationMode) (steps : List Step)
    → mode ≢ OperationMode.list
    → Chained a (run a mode steps fresh).store.ledger
      × Shows (run a mode steps fresh).store.ledger (run a mode steps fresh).store.scene.value
transitions-Chained a mode steps m =
    let sound =
      run-IsSound a mode steps fresh m
        (record { shows = refl; chained = tt; scalar = λ t m. absurd m }) in
    (sound.chained, sound.shows)
