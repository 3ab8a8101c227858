-- ===== src/Sequence/Unique.antt =====
-- Concurrent minters never get the same number.
use holon_bridge_python.Prelude.{
  ◌≤◌, ◌<◌, String, List, [], ◌∷◌, true, Option, none, some, ◌≡◌, ◌≢◌, ◌⊎◌, inl, inr, refl, sym, ap,
  ◌∙◌, eq_iff, eq_refl, find, count, In, arith, Bool-cases,
}
use holon_bridge_python.Sequence.{Counter, guard_holds, compare_and_set, confirmed}
use holon_bridge_python.Sequence.Race.{
  Claim, Race, by_token, Step, reads, updates, confirms, updated_by, updated_if, confirmed_if, step,
  run, start,
}
use holon_bridge_python.Sequence.Soundness.{
  Distinct, starts, Falling, Latest, IsSound, drop_count, absent, fired_below,
}

module _ (left : List Step) (r : Race) where
  read-IsSound : (t : String) → IsSound (reads t ∷ left) r → IsSound left (step (reads t) r)
  unfolding step
  read-IsSound t h = record {
    latest = h.latest;
    falling = h.falling;
    minted_fired = h.minted_fired;
    distinct = h.distinct;
    budget = λ u. ground (arith, h.budget u);
  }

  -- An update that finds its guard true becomes the latest; another leaves the counter.
  update-Latest :
      (c : Claim)
      → Latest r.fired r.counter
      → Latest (updated_by c r).fired (updated_by c r).counter
  unfolding compare_and_set
  update-Latest c l = elim (Bool-cases (guard_holds c.number r.counter)) [
    | inl e ↦ rw e (refl, refl)
    | inr e ↦ rw e l
  ]

  update-Falling :
      (c : Claim) → Latest r.fired r.counter → Falling r.fired → Falling (updated_by c r).fired
  update-Falling c l f = elim (Bool-cases (guard_holds c.number r.counter)) [
    | inl e ↦ rw e (fired_below r.fired r.counter c.number l f e, f)
    | inr e ↦ rw e f
  ]

  update_keeps : (c x : Claim) → In x r.fired → In x (updated_by c r).fired
  update_keeps c x m = elim (Bool-cases (guard_holds c.number r.counter)) [
    | inl e ↦ rw e (inr m)
    | inr e ↦ rw e m
  ]

  updated_if-IsSound :
      (t : String) (o : Option Claim)
      → find (by_token t) r.readers ≡ o
      → IsSound (updates t ∷ left) r
      → IsSound left (updated_if o r)
  updated_if-IsSound t none e h = record {
    latest = h.latest;
    falling = h.falling;
    minted_fired = h.minted_fired;
    distinct = h.distinct;
    budget = λ u. ground (arith, h.budget u);
  }
  updated_if-IsSound t (some c) e h = record {
    latest = update-Latest c h.latest;
    falling = update-Falling c h.latest h.falling;
    minted_fired = λ x m. update_keeps c x (h.minted_fired x m);
    distinct = h.distinct;
    budget = λ u.
        let (same, split) = drop_count t u r.readers c e in ground (arith, h.budget u, same, split);
  }

  update-IsSound : (t : String) → IsSound (updates t ∷ left) r → IsSound left (step (updates t) r)
  unfolding step
  update-IsSound t h = updated_if-IsSound t (find (by_token t) r.readers) refl h

-- A confirmed claim is the latest update, and every other has a smaller number.
confirmed_same :
    (f c : Claim) (k : Counter)
    → k.value ≡ some f.number
    → k.token ≡ some f.token
    → confirmed c.number c.token k ≡ true
    → c ≡ f
unfolding confirmed
confirmed_same f c k v t won =
    let number : c.number ≡ f.number = ground (arith, v, won) in
    let token : f.token ≡ c.token = (eq_iff f.token c.token).0 ground (arith, t, won, v) in
    λ i. record { token = sym token i; number = number i }

unconfirmed : (c : Claim) (k : Counter) → k.token ≡ none → confirmed c.number c.token k ≢ true
unfolding confirmed
unconfirmed c k t won = ground (arith, t, won)

confirmed-Latest :
    (fired : List Claim) (k : Counter) (c : Claim)
    → Latest fired k
    → confirmed c.number c.token k ≡ true
    → In c fired × (Falling fired → (x : Claim) → In x fired → (x ≡ c) ⊎ (x.number < c.number))
confirmed-Latest [] k c l won = absurd (unconfirmed c k l.1 won)
confirmed-Latest (f ∷ fs) k c l won =
    let same = confirmed_same f c k l.0 l.1 won in
    (
      inl same,
      λ fall x m. elim m [
        | inl e ↦ inl (e ∙ sym same)
        | inr e ↦
            inr (let s = fall.0 x e in let n = ap (λ (k : Claim). k.number) same in omega arith)
      ],
    )

module _ (left : List Step) (r : Race) where
  minted-Distinct :
      (t : String) (c : Claim)
      → IsSound (confirms t ∷ left) r
      → find (by_token t) r.updated ≡ some c
      → confirmed c.number c.token r.counter ≡ true
      → Distinct (c ∷ r.minted)
  minted-Distinct t c h e won =
      let (same, split) = drop_count t t r.updated c e in
      let none_minted : count (by_token t) r.minted ≡ 0 =
        ground (arith, h.budget t, split, eq_refl t) in
      (
        λ x m n.
            elim ((confirmed-Latest r.fired r.counter c h.latest won).1 h.falling x
              (h.minted_fired x m)) [
                | inl x_is ↦
                    absent t r.minted x none_minted m (ap (λ (k : Claim). k.token) x_is ∙ same)
                | inr below ↦ omega arith
              ],
        h.distinct,
      )

  confirmed_if-IsSound :
      (t : String) (o : Option Claim)
      → find (by_token t) r.updated ≡ o
      → IsSound (confirms t ∷ left) r
      → IsSound left (confirmed_if o r)
  confirmed_if-IsSound t none e h = record {
    latest = h.latest;
    falling = h.falling;
    minted_fired = h.minted_fired;
    distinct = h.distinct;
    budget = λ u. ground (arith, h.budget u);
  }
  confirmed_if-IsSound t (some c) e h = elim (Bool-cases (confirmed c.number c.token r.counter)) [
    | inl won ↦ rw won (record {
      latest = h.latest;
      falling = h.falling;
      minted_fired = λ x m. elim m [
        | inl s ↦ rw s (confirmed-Latest r.fired r.counter c h.latest won).0
        | inr s ↦ h.minted_fired x s
      ];
      distinct = minted-Distinct t c h e won;
      budget = λ u.
          let (same, split) = drop_count t u r.updated c e in
          ground (arith, h.budget u, same, split);
    })
    | inr lost ↦ rw lost (record {
      latest = h.latest;
      falling = h.falling;
      minted_fired = h.minted_fired;
      distinct = h.distinct;
      budget = λ u.
          let (same, split) = drop_count t u r.updated c e in
          ground (arith, h.budget u, same, split);
    })
  ]

run-Distinct : (steps : List Step) (r : Race) → IsSound steps r → Distinct (run steps r).minted
unfolding run step
run-Distinct [] r h = h.distinct
run-Distinct (reads t ∷ rest) r h = run-Distinct rest (step (reads t) r) (read-IsSound rest r t h)
run-Distinct (updates t ∷ rest) r h =
    run-Distinct rest (step (updates t) r) (update-IsSound rest r t h)
run-Distinct (confirms t ∷ rest) r h =
    run-Distinct rest (step (confirms t) r)
      (confirmed_if-IsSound rest r t (find (by_token t) r.updated) refl h)

-- However the operations of any number of attempts interleave on one counter, each attempt with its
-- own token (it starts once at most), no two of the numbers minted are equal.
pub minted_unique :
    (steps : List Step) → ((t : String) → starts t steps ≤ 1) → Distinct (run steps start).minted
minted_unique steps once = run-Distinct steps start (record {
  latest = (refl, refl);
  falling = tt;
  minted_fired = λ x m. absurd m;
  distinct = tt;
  budget = λ t. let o = once t in omega arith;
})
