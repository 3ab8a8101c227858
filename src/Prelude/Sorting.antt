-- ===== src/Prelude/Sorting.antt =====
-- `list.sort(key=...)` on texts: a stable insertion sort.
use Prim.Native.String.{String}
use mathlib.Core.Path.{◌≡◌, refl}
use mathlib.Core.Logic.{◌⊎◌, ◌↔◌, inl, inr}
use mathlib.Core.Bool.{Bool}
use mathlib.Core.List.{List, [], ◌∷◌}
use native.Mathlib.Omega.{arith}
use holon_bridge_python.Prelude.Tests.{if◌then◌else◌, Bool-cases}
use holon_bridge_python.Prelude.Lists.{In, count}
use holon_bridge_python.Prelude.Text.{text_lt}

module _ {A : Type 0} (before : A → A → Bool) where
  insert_by : A → List A → List A
  insert_by x [] = x ∷ []
  insert_by x (y ∷ ys) = let rest = insert_by x ys in if before y x then y ∷ rest else x ∷ y ∷ ys

  -- A list is sorted from its end, so that equal keys keep their order.
  unfoldable pub sort_by : List A → List A
  unfolding insert_by
  sort_by [] = []
  sort_by (x ∷ xs) = insert_by x (sort_by xs)

  In-insert_by : (z x : A) (ys : List A) → In z (insert_by x ys) ↔ ((z ≡ x) ⊎ In z ys)
  unfolding insert_by
  In-insert_by z x [] = (λ h. h, λ h. h)
  In-insert_by z x (y ∷ ys) = elim (Bool-cases (before y x)) [
    | inl e ↦ rw e (
      λ h. elim h [
        | inl p ↦ inr (inl p)
        | inr r ↦ elim ((In-insert_by z x ys).0 r) [ inl p ↦ inl p | inr q ↦ inr (inr q) ]
      ],
      λ h. elim h [
        | inl p ↦ inr ((In-insert_by z x ys).1 (inl p))
        | inr r ↦ elim r [ inl p ↦ inl p | inr q ↦ inr ((In-insert_by z x ys).1 (inr q)) ]
      ],
    )
    | inr e ↦ rw e (λ h. h, λ h. h)
  ]

  -- Sorting keeps the items.
  pub In-sort_by : (z : A) (xs : List A) → In z (sort_by xs) ↔ In z xs
  unfolding sort_by
  In-sort_by z [] = (λ h. h, λ h. h)
  In-sort_by z (x ∷ xs) = (
    λ h. elim ((In-insert_by z x (sort_by xs)).0 h) [
      | inl p ↦ inl p
      | inr r ↦ inr ((In-sort_by z xs).0 r)
    ],
    λ h. elim h [
      | inl p ↦ (In-insert_by z x (sort_by xs)).1 (inl p)
      | inr r ↦ (In-insert_by z x (sort_by xs)).1 (inr ((In-sort_by z xs).1 r))
    ],
  )

  count-insert_by :
      (test : A → Bool) (x : A) (l : List A) → count test (insert_by x l) ≡ count test (x ∷ l)
  unfolding insert_by
  count-insert_by test x [] = refl
  count-insert_by test x (y ∷ l) = ground (arith, count-insert_by test x l)

  pub count-sort_by : (test : A → Bool) (l : List A) → count test (sort_by l) ≡ count test l
  unfolding sort_by
  count-sort_by test [] = refl
  count-sort_by test (x ∷ l) =
      ground (arith, count-insert_by test x (sort_by l), count-sort_by test l)

-- `xs.sort(key=...)`
abbrev pub sort_on : {A : Type 0} → (A → String) → List A → List A
sort_on key = sort_by (λ a b. text_lt (key a) (key b))
