-- ===== src/Sequence.antt =====
-- holonbridge/sequence.py: minting from a named counter by compare-and-set.
--
-- A counter's node has at most one value and one token. An update is the function on the counter that
-- its DELETE, INSERT and WHERE describe; the store runs one update at a time. Between two operations of
-- a minter the others may do anything (`between`, and the steps of Sequence/Race).
pub mod Race
pub mod Soundness
pub mod Unique
use holon_bridge_python.Prelude.{
  ℕ, zero, suc, ◌+◌, String, List, [], ◌∷◌, Bool, true, false, ◌&&◌, ◌||◌, Option, none, some, ◌==◌,
  Result, ok, err, if◌then◌else◌, eqb, ◌≡◌, refl, arith, eq_refl,
}

pub record Counter : Type 0 where
  pub value : Option ℕ
  pub token : Option String

-- `_read`: 0 for a counter that is not there.
unfoldable pub read : Counter → ℕ
read c = elim c.value [ none ↦ 0 | some v ↦ v ]

-- `!BOUND(?old) || ?old = current`
abbrev pub guard_holds : ℕ → Counter → Bool
guard_holds current c = elim c.value [ none ↦ true | some v ↦ eqb v current ]

-- The guarded update, which replaces value and token together.
unfoldable pub compare_and_set : (current : ℕ) → (token : String) → Counter → Counter
compare_and_set current token c =
    if guard_holds current c then record { value = some (suc current); token = some token } else c

abbrev pub token_is : String → Option String → Bool
token_is t none = false
token_is t (some u) = u == t

abbrev pub value_is : ℕ → Option ℕ → Bool
value_is n none = eqb 0 n
value_is n (some v) = eqb v n

-- `confirmed_value == nxt and confirmed_token == attempt_token`
unfoldable pub confirmed : (nxt : ℕ) → (token : String) → Counter → Bool
confirmed nxt token c = value_is nxt c.value && token_is token c.token

pub data SequenceError : Type 0 where
  contention : SequenceError

-- One attempt: its token, and what others do to the counter before and after its update.
pub record Attempt : Type 0 where
  pub token : String
  pub before : Counter → Counter
  pub after : Counter → Counter

-- The loop of `mint`, one item for each attempt: the minted value and the counter.
unfoldable pub mint : List Attempt → Counter → Result SequenceError ℕ × Counter
mint [] c = (err contention, c)
mint (a ∷ rest) c =
    let current = read c in
    let seen = a.after (compare_and_set current a.token (a.before c)) in
    let retry = mint rest seen in
    if confirmed (suc current) a.token seen then (ok (suc current), seen) else retry

-- `peek`
unfoldable pub peek : Counter → ℕ
unfolding read
peek c = read c

-- With no other writer the first attempt mints the next value, and the counter holds it.
pub mint_alone :
    (token : String) (rest : List Attempt) (c : Counter)
    → mint (record { token = token; before = λ x. x; after = λ x. x } ∷ rest) c
      ≡ (ok (suc (read c)), record { value = some (suc (read c)); token = some token })
unfolding mint read compare_and_set confirmed
mint_alone token rest c = ground (arith, eq_refl token)
