-- ===== src/Delegation/Lookup/Active.antt =====
-- What `find_delegation` returns is exactly the active delegations.
use holon_bridge_python.Prelude.Sorting.{In-sort_by}
use holon_bridge_python.Prelude.{
  ℕ, String, List, [], ◌∷◌, map, true, false, Option, none, some, ◌≡◌, ◌↔◌, inl, inr, ap, ◌∙◌,
  &&-true, not-true, &&-intro, eq_iff, ok, In, select, In-select, ◌≤◌, ◌<◌, arith, refl,
}
use holon_bridge_python.Rdf.{iri, lit, Graph, value, ask, ask_any}
use holon_bridge_python.Delegation.Request.{safe_iri}
use holon_bridge_python.Delegation.Lookup.{
  Clock, parse_dt, holon, rdf_type, DelegationMatch, Row, candidates, covers, is_or_unset, within,
  in_window, is_live, to_match, live_matches, find_delegation,
}

In-map :
    {A B : Type 0} (f : A → B) (xs : List A) (y : B)
    → In y (map f xs) ↔ ((x : A) × In x xs × (y ≡ f x))
In-map f [] y = (λ h. absurd h, λ h. h.1)
In-map f (x ∷ xs) y = (
  λ h. elim h [
    | inl e ↦ (x, inl refl, e)
    | inr r ↦ let (z, m, e) = (In-map f xs y).0 r in (z, inr m, e)
  ],
  λ (z, m, e). elim m [ inl p ↦ inl (e ∙ ap f p) | inr q ↦ inr ((In-map f xs y).1 (z, q, e)) ],
)

-- An active delegation that stands behind a match: its validity window holds `now`, nothing revokes
-- it, and its delegator is a Person that is not inactive.
pub record IsActive (clock : Clock) (now : ℕ) (g : Graph) (row : Row) : Type 0 where
  pub start : ℕ
  pub end : ℕ
  pub starts : parse_dt clock (value row.from) ≡ some start
  pub ends : parse_dt clock (value row.until) ≡ some end
  pub begun : start ≤ now
  pub unexpired : now < end
  pub unrevoked : ask_any g row.d (holon "revokedAt") ≡ false
  pub person : ask g (value row.row_delegator) rdf_type (iri (holon "Person")) ≡ true
  pub not_inactive : ask g (value row.row_delegator) (holon "status") (lit "inactive") ≡ false

-- The narrowing that the caller asked for.
pub record Fits (g : Graph) (target delegator : Option String) (row : Row) : Type 0 where
  pub covers : (t : String) → target ≡ some t → ask g row.d (holon "delegatedGraph") (iri t) ≡ true
  pub from_delegator : (p : String) → delegator ≡ some p → value row.row_delegator ≡ p

-- The times between which a row is valid.
abbrev pub Window : Clock → ℕ → Row → Type 0
Window clock now row =
    (start : ℕ) × (end : ℕ) × (parse_dt clock (value row.from) ≡ some start)
    × (parse_dt clock (value row.until) ≡ some end)
    × (start ≤ now)
    × (now < end)

within_bounds :
    (now : ℕ) (a b : Option ℕ)
    → within now a b ≡ true
    → (start : ℕ) × (end : ℕ) × (a ≡ some start) × (b ≡ some end) × (start ≤ now) × (now < end)
within_bounds now (some s) (some e) h = (s, e, refl, refl, ground arith, ground arith)
within_bounds now none b h = cc
within_bounds now (some s) none h = cc

pub in_window-Window :
    (clock : Clock) (now : ℕ) (row : Row) → in_window clock now row ≡ true → Window clock now row
unfolding in_window
in_window-Window clock now row h = within_bounds now _ _ h

Window-in_window :
    (clock : Clock) (now : ℕ) (row : Row) → Window clock now row → in_window clock now row ≡ true
unfolding in_window
Window-in_window clock now row (s, e, p, q, b, u) = rw (p, q) (ground arith)

module _ (clock : Clock) (now : ℕ) (g : Graph) (target delegator : Option String) (row : Row) where
  is_live-IsActive :
      is_live clock now g target delegator row ≡ true
      → IsActive clock now g row × Fits g target delegator row
  unfolding is_live
  is_live-IsActive h =
      let (w, h1) = &&-true _ _ h in
      let (own, h2) = &&-true (is_or_unset delegator (value row.row_delegator)) _ h1 in
      let (unrevoked, h3) = &&-true _ _ h2 in
      let (person, h4) = &&-true _ _ h3 in
      let (standing, cover) = &&-true _ (covers g row.d target) h4 in
      let (s, e, p, q, b, u) = in_window-Window clock now row w in
      (
        record {
          start = s;
          end = e;
          starts = p;
          ends = q;
          begun = b;
          unexpired = u;
          unrevoked = not-true _ unrevoked;
          person = person;
          not_inactive = not-true _ standing;
        },
        record {
          covers = λ t k. rw k at cover;
          from_delegator = λ p k. (eq_iff _ _).0 (rw k at own);
        },
      )

  covers_intro :
      (o : Option String)
      → ((t : String) → o ≡ some t → ask g row.d (holon "delegatedGraph") (iri t) ≡ true)
      → covers g row.d o ≡ true
  covers_intro none h = refl
  covers_intro (some t) h = h t refl

  delegator_intro :
      (o : Option String)
      → ((p : String) → o ≡ some p → value row.row_delegator ≡ p)
      → is_or_unset o (value row.row_delegator) ≡ true
  delegator_intro none h = refl
  delegator_intro (some p) h = (eq_iff _ _).1 (h p refl)

  IsActive-is_live :
      IsActive clock now g row
      → Fits g target delegator row
      → is_live clock now g target delegator row ≡ true
  unfolding is_live
  IsActive-is_live a f =
      &&-intro _ _
        (Window-in_window clock now row (a.start, a.end, a.starts, a.ends, a.begun, a.unexpired))
        (&&-intro _ _ (delegator_intro delegator f.from_delegator) (
          &&-intro _ _ (rw a.unrevoked) (
            &&-intro _ _ a.person
              (&&-intro _ _ (rw a.not_inactive) (covers_intro target f.covers)))))

find_delegation-eq-ok :
    (clock : Clock) (now : ℕ) (g : Graph) (holons_graph delegate permission : String)
    (target delegator : Option String) (ms : List DelegationMatch)
    → find_delegation clock now g holons_graph delegate permission target delegator ≡ ok ms
    → ms ≡ live_matches clock now g delegate permission target delegator
unfolding find_delegation safe_iri
find_delegation-eq-ok clock now g holons_graph delegate permission none none ms h = ground arith
find_delegation-eq-ok clock now g holons_graph delegate permission (some t) none ms h = ground arith
find_delegation-eq-ok clock now g holons_graph delegate permission none (some p) ms h = ground arith
find_delegation-eq-ok clock now g holons_graph delegate permission (some t) (some p) ms h =
    ground arith

-- A match is in the result of a lookup that was not refused exactly when it shows a candidate row
-- (a Delegation to `delegate` that carries `permission`) that is active and that fits the wanted
-- target graph and delegator.
pub find_delegation_iff :
    (clock : Clock) (now : ℕ) (g : Graph) (holons_graph delegate permission : String)
    (target delegator : Option String) (ms : List DelegationMatch)
    → find_delegation clock now g holons_graph delegate permission target delegator ≡ ok ms
    → (m : DelegationMatch)
    → In m ms ↔ (
        (row : Row) × In row (candidates g delegate permission)
        × IsActive clock now g row
        × Fits g target delegator row
        × (m ≡ to_match row))
unfolding live_matches
find_delegation_iff clock now g holons_graph delegate permission target delegator ms h m =
    let e =
      find_delegation-eq-ok clock now g holons_graph delegate permission target delegator ms h in
    let rows = candidates g delegate permission in
    let test = is_live clock now g target delegator in
    (
      λ found.
          let sorted = (In-sort_by _ m (map to_match (select test rows))).0 (rw e at found) in
          let (row, here, shown) = (In-map to_match (select test rows) m).0 sorted in
          let (candidate, live) = (In-select test row rows).0 here in
          let (active, fits) = is_live-IsActive clock now g target delegator row live in
          (row, candidate, active, fits, shown),
      λ (row, candidate, active, fits, shown).
          let live = IsActive-is_live clock now g target delegator row active fits in
          let here = (In-select test row rows).1 (candidate, live) in
          rw e (
            (In-sort_by _ m (map to_match (select test rows))).1
              ((In-map to_match (select test rows) m).1 (row, here, shown))),
    )
