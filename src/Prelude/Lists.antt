-- ===== src/Prelude/Lists.antt =====
-- Lists with native lengths, and Boolean searches that run in a test.
use Prim.Native.Nat.{ℕ, zero, suc, ◌+◌, ◌≤◌}
use Prim.Native.String.{String}
use mathlib.Core.Path.{◌≡◌, refl, sym, ap, ◌∙◌}
use mathlib.Core.Logic.{◌⊎◌, ◌↔◌, inl, inr}
use mathlib.Core.Bool.{Bool, true, false, ◌||◌, ◌&&◌}
use mathlib.Core.Option.{Option, none, some}
use mathlib.Core.List.{map, List, [], ◌∷◌, ◌++◌}
use native.Mathlib.Omega.{arith}
use text.Mathlib.Text.{◌==◌}
use holon_bridge_python.Prelude.Tests.{if◌then◌else◌, Bool-cases}

true-false : true ≡ false → ⊥
true-false h = cc

module _ {ℓ} {A : Type ℓ} where
  abbrev pub length : List A → ℕ
  length [] = 0
  length (x ∷ xs) = suc (length xs)

  abbrev pub take : ℕ → List A → List A
  take zero xs = []
  take (suc n) [] = []
  take (suc n) (x ∷ xs) = x ∷ take n xs

  -- `[x for x in xs if test(x)]`
  abbrev pub select : (A → Bool) → List A → List A
  select test [] = []
  select test (x ∷ xs) = let rest = select test xs in if test x then x ∷ rest else rest

  -- `any(test(x) for x in xs)`
  abbrev pub any : (A → Bool) → List A → Bool
  any test [] = false
  any test (x ∷ xs) = test x || any test xs

  -- `all(test(x) for x in xs)`
  abbrev pub all : (A → Bool) → List A → Bool
  all test [] = true
  all test (x ∷ xs) = test x && all test xs

  -- The first item that passes.
  abbrev pub find : (A → Bool) → List A → Option A
  find test [] = none
  find test (x ∷ xs) = let rest = find test xs in if test x then some x else rest

  -- How many items pass.
  abbrev pub count : (A → Bool) → List A → ℕ
  count test [] = 0
  count test (x ∷ xs) = let rest = count test xs in if test x then suc rest else rest

  pub count-append :
      (test : A → Bool) (xs ys : List A) → count test (xs ++ ys) ≡ count test xs + count test ys
  count-append test [] ys = omega arith
  count-append test (x ∷ xs) ys = ground (arith, count-append test xs ys)

  pub List-cases : (xs : List A) → (xs ≡ []) ⊎ ((x : A) × (rest : List A) × (xs ≡ x ∷ rest))
  List-cases [] = inl refl
  List-cases (x ∷ xs) = inr (x, xs, refl)

  pub length-append : (xs ys : List A) → length (xs ++ ys) ≡ length xs + length ys
  length-append [] ys = omega arith
  length-append (x ∷ xs) ys = omega (arith, length-append xs ys)

  pub length-take-le : (n : ℕ) (xs : List A) → length (take n xs) ≤ n
  length-take-le (suc n) (x ∷ xs) = omega (arith, length-take-le n xs)
  length-take-le zero xs = omega arith
  length-take-le (suc n) [] = omega arith

-- Membership, by recursion.
abbrev pub In : {A : Type 0} → A → List A → Type 0
In x [] = ⊥
In x (y ∷ ys) = (x ≡ y) ⊎ In x ys

pub In-append_left : {A : Type 0} (x : A) (xs ys : List A) → In x xs → In x (xs ++ ys)
In-append_left x (z ∷ xs) ys (inl e) = inl e
In-append_left x (z ∷ xs) ys (inr h) = inr (In-append_left x xs ys h)
In-append_left x [] ys h = absurd h

pub In-append_right : {A : Type 0} (x : A) (xs ys : List A) → In x ys → In x (xs ++ ys)
In-append_right x [] ys h = h
In-append_right x (z ∷ xs) ys h = inr (In-append_right x xs ys h)

pub In-of-append : {A : Type 0} (x : A) (xs ys : List A) → In x (xs ++ ys) → In x xs ⊎ In x ys
In-of-append x [] ys h = inr h
In-of-append x (z ∷ xs) ys (inl e) = inl (inl e)
In-of-append x (z ∷ xs) ys (inr h) = elim (In-of-append x xs ys h) [
  | inl l ↦ inl (inr l)
  | inr r ↦ inr r
]

-- An item of a selection is an item of the list that passes, and the other way round.
pub In-select :
    {A : Type 0} (test : A → Bool) (x : A) (xs : List A)
    → In x (select test xs) ↔ (In x xs × (test x ≡ true))
In-select test x [] = (λ h. absurd h, λ h. h.0)
In-select {A} test x (y ∷ ys) = elim (Bool-cases (test y)) [
  | inl e ↦ rw e (
    λ h. elim h [
      | inl p ↦ (inl p, ap test p ∙ e)
      | inr r ↦ let q = (In-select test x ys).0 r in (inr q.0, q.1)
    ],
    λ h. elim h.0 [ inl p ↦ inl p | inr r ↦ inr ((In-select test x ys).1 (r, h.1)) ],
  )
  | inr e ↦ rw e (
    λ r. let q = (In-select test x ys).0 r in (inr q.0, q.1),
    λ h. elim h.0 [
      | inl p ↦ absurd (true-false (sym h.1 ∙ ap test p ∙ e))
      | inr r ↦ (In-select test x ys).1 (r, h.1)
    ],
  )
]

-- What a search finds is an item that passes.
pub find-eq-some :
    {A : Type 0} (test : A → Bool) (x : A) (xs : List A)
    → find test xs ≡ some x
    → In x xs × (test x ≡ true)
find-eq-some test x [] = λ h. cc
find-eq-some {A} test x (y ∷ ys) = elim (Bool-cases (test y)) [
  | inl e ↦ rw e (λ h.
      let same = ap (λ (o : Option A). elim o [ none ↦ y | some z ↦ z ]) h in
      (inl (sym same), ap test (sym same) ∙ e))
  | inr e ↦ rw e (λ h. let (m, t) = find-eq-some test x ys h in (inr m, t))
]

-- `[y for x in xs for y in f(x)]`
abbrev pub flat_map : {A B : Type 0} → (A → List B) → List A → List B
flat_map f [] = []
flat_map f (x ∷ xs) = f x ++ flat_map f xs

pub In-flat_map :
    {A B : Type 0} (f : A → List B) (xs : List A) (y : B)
    → In y (flat_map f xs)
    → (x : A) × In x xs × In y (f x)
In-flat_map f (x ∷ xs) y h = elim (In-of-append y (f x) (flat_map f xs) h) [
  | inl l ↦ (x, inl refl, l)
  | inr r ↦ let (z, m, q) = In-flat_map f xs y r in (z, inr m, q)
]
In-flat_map f [] y h = absurd h

pub flat_map-In :
    {A B : Type 0} (f : A → List B) (xs : List A) (y : B) (x : A)
    → In x xs
    → In y (f x)
    → In y (flat_map f xs)
flat_map-In f (z ∷ xs) y x (inl e) q = In-append_left y (f z) (flat_map f xs) (rw (← e) q)
flat_map-In f (z ∷ xs) y x (inr m) q =
    In-append_right y (f z) (flat_map f xs) (flat_map-In f xs y x m q)
flat_map-In f [] y x m q = absurd m

-- `x in xs` for texts
abbrev pub contains : String → List String → Bool
contains s [] = false
contains s (x ∷ xs) = s == x || contains s xs

pub In-map :
    {A B : Type 0} (f : A → B) (y : B) (xs : List A)
    → In y (map f xs)
    → (x : A) × In x xs × (f x ≡ y)
In-map f y [] m = absurd m
In-map f y (x ∷ xs) (inl e) = (x, inl refl, sym e)
In-map f y (x ∷ xs) (inr m) = let (z, there, e) = In-map f y xs m in (z, inr there, e)

pub map-In : {A B : Type 0} (f : A → B) (x : A) (xs : List A) → In x xs → In (f x) (map f xs)
map-In f x [] m = absurd m
map-In f x (y ∷ ys) (inl e) = inl (ap f e)
map-In f x (y ∷ ys) (inr m) = inr (map-In f x ys m)
