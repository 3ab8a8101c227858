-- ===== src/Prelude/Results.antt =====
-- Results of code that may raise, over the component's own type of exceptions.
use mathlib.Core.Path.{◌≡◌, refl, ap}
use mathlib.Core.Bool.{Bool, true, false}
use mathlib.Core.Logic.{◌⊎◌, inl, inr}

pub data Result {ℓ} (E : Type 0) (A : Type ℓ) : Type ℓ where
  -- the exception that was raised
  err : E → Result E A
  ok : A → Result E A

-- `if not passed: raise exception`
abbrev pub require : {E : Type 0} → (passed : Bool) → (exception : E) → Result E (Unit {0})
require false exception = err exception
require true exception = ok tt

infixl 5 ◌>>=◌
abbrev pub ◌>>=◌ {ℓ κ} :
    {E : Type 0} {A : Type ℓ} {B : Type κ} (first : Result E A) (next : A → Result E B) → Result E B
err exception >>= next = err exception
ok value >>= next = next value

-- A step and what follows it went well: so did each.
pub >>=-eq-ok {ℓ κ} :
    {E : Type 0} {A : Type ℓ} {B : Type κ} (first : Result E A) (next : A → Result E B) {end : B}
    → (first >>= next) ≡ ok end
    → (value : A) × (first ≡ ok value) × (next value ≡ ok end)
>>=-eq-ok (ok value) next went = (value, refl, went)
>>=-eq-ok (err exception) next went = cc

infixl 5 ◌>>◌
abbrev pub ◌>>◌ {ℓ} :
    {E : Type 0} {B : Type ℓ} (first : Result E (Unit {0})) (next : Result E B) → Result E B
first >> next = first >>= λ unit. next

pub ok-injective {ℓ} :
    {E : Type 0} {A : Type ℓ} {a b : A} → ◌≡◌ {A = Result E A} (ok a) (ok b) → a ≡ b
ok-injective {E = E} {A = A} {a = a} p = ap (λ (r : Result E A). elim r [ err _ ↦ a | ok x ↦ x ]) p

pub Result-cases {ℓ} :
    {E : Type 0} {A : Type ℓ} (r : Result E A) → ((e : E) × (r ≡ err e)) ⊎ ((a : A) × (r ≡ ok a))
Result-cases (err e) = inl (e, refl)
Result-cases (ok a) = inr (a, refl)
