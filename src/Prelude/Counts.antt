-- ===== src/Prelude/Counts.antt =====
-- How often a text stands in a list, and what counts say of lengths.
use Prim.Native.Nat.{ℕ, suc, ◌+◌, ◌-◌, ◌≤◌}
use Prim.Native.String.{String}
use mathlib.Core.Path.{◌≡◌, refl, ap}
use mathlib.Core.Logic.{inl, inr}
use mathlib.Core.Bool.{Bool, true, false, ◌&&◌, not}
use mathlib.Core.List.{List, [], ◌∷◌, ◌++◌}
use native.Mathlib.Omega.{arith}
use text.Mathlib.Text.{◌==◌}
use text.Mathlib.TextEquality.{eq_iff}
use text.Mathlib.TextPositions.{eq_refl}
use holon_bridge_python.Prelude.Tests.{if◌then◌else◌, Bool-cases, leb, &&-true, not-true}
use holon_bridge_python.Prelude.Lists.{length, count, count-append, contains, In}
use holon_bridge_python.Prelude.Sorting.{sort_by, count-sort_by}

abbrev pub times : String → List String → ℕ
times x = count (λ y. x == y)

pub times-append : (x : String) (l k : List String) → times x (l ++ k) ≡ times x l + times x k
times-append x l k = count-append (λ y. x == y) l k

pub times-cons : (x : String) (l : List String) → times x (x ∷ l) ≡ suc (times x l)
times-cons x l = rw (eq_refl x)

pub contains-times : (x : String) (l : List String) → contains x l ≡ true → 1 ≤ times x l
contains-times x [] h = cc
contains-times x (y ∷ l) h = ground (arith, contains-times x l)

pub times-contains : (x : String) (l : List String) → 1 ≤ times x l → contains x l ≡ true
times-contains x [] h = elim h [ ]
times-contains x (y ∷ l) h = ground (arith, times-contains x l)

pub In-contains : (x : String) (l : List String) → In x l → contains x l ≡ true
In-contains x (y ∷ l) (inl e) = let same = (eq_iff x y).1 e in rw same
In-contains x (y ∷ l) (inr m) = ground (arith, In-contains x l m)
In-contains x [] m = absurd m

pub contains-In : (x : String) (l : List String) → contains x l ≡ true → In x l
contains-In x [] h = cc
contains-In x (y ∷ l) h = elim (Bool-cases (x == y)) [
  | inl e ↦ inl ((eq_iff x y).0 e)
  | inr e ↦ inr (contains-In x l (ground (arith, e)))
]

pub times-sort_by :
    (before : String → String → Bool) (x : String) (l : List String)
    → times x (sort_by before l) ≡ times x l
times-sort_by before x l = count-sort_by before (λ y. x == y) l

-- The list without the first occurrence.
remove : String → List String → List String
remove x [] = []
remove x (y ∷ l) = let rest = remove x l in if x == y then l else y ∷ rest

length-remove :
    (x : String) (l : List String) → 1 ≤ times x l → suc (length (remove x l)) ≡ length l
unfolding remove
length-remove x [] h = elim h [ ]
length-remove x (y ∷ l) h = ground (arith, length-remove x l)

times-remove_self : (x : String) (l : List String) → times x (remove x l) ≡ times x l - 1
unfolding remove
times-remove_self x [] = omega arith
times-remove_self x (y ∷ l) = ground (arith, times-remove_self x l)

times-remove_other :
    (x z : String) (l : List String) → z == x ≡ false → times z (remove x l) ≡ times z l
unfolding remove
times-remove_other x z [] h = refl
times-remove_other x z (y ∷ l) h =
    ground (arith, times-remove_other x z l h, eq_iff x y, eq_iff z y, eq_iff z x)

-- A list in which nothing stands more often than in another is no longer than that one.
pub length-le_of_times :
    (l k : List String) → ((x : String) → times x l ≤ times x k) → length l ≤ length k
length-le_of_times [] k h = omega arith
length-le_of_times (y ∷ l) k h =
    let first = h y in
    let there : 1 ≤ times y k = omega (arith, times-cons y l) in
    let rest = length-le_of_times l (remove y k) (λ x. elim (Bool-cases (x == y)) [
      | inl e ↦
          let same = (eq_iff x y).0 e in
          rw same (omega (arith, times-cons y l, times-remove_self y k))
      | inr e ↦ let other = h x in ground (arith, e, times-remove_other y x k e)
    ]) in
    omega (arith, length-remove y k there)

-- If it is as long, then everything stands in both equally often.
pub times-eq_of_length :
    (l k : List String)
    → ((x : String) → times x l ≤ times x k)
    → length k ≤ length l
    → (x : String) → times x l ≡ times x k
times-eq_of_length l k h long x = elim (Bool-cases (leb (times x k) (times x l))) [
  | inl e ↦ let le = h x in ground (arith, e)
  | inr e ↦
      let longer = length-le_of_times (x ∷ l) k (λ z. elim (Bool-cases (z == x)) [
        | inl same ↦
            let at = (eq_iff z x).0 same in
            let here = ap (λ t. times t (x ∷ l)) at in
            let there = ap (λ t. times t k) at in
            let gap : suc (times x l) ≤ times x k = ground (arith, e) in
            omega (arith, here, there, gap, times-cons x l)
        | inr other ↦ let le = h z in ground (arith, other)
      ]) in
      absurd (omega arith)
]

abbrev pub all_distinct : List String → Bool
all_distinct [] = true
all_distinct (x ∷ l) = not (contains x l) && all_distinct l

pub times-le-one : (l : List String) → all_distinct l ≡ true → (x : String) → times x l ≤ 1
times-le-one [] h x = omega arith
times-le-one (y ∷ l) h x =
    let (new, rest) = &&-true (not (contains y l)) (all_distinct l) h in
    let alone = not-true (contains y l) new in
    elim (Bool-cases (x == y)) [
      | inr e ↦ ground (arith, e, times-le-one l rest x)
      | inl e ↦
          let same = ap (λ z. contains z l) ((eq_iff x y).0 e) in
          ground (arith, e, same, alone, times-contains x l)
    ]
