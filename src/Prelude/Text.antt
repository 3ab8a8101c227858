-- ===== src/Prelude/Text.antt =====
-- What the program does with texts: prefixes and suffixes, trimming, and their order.
use Prim.Native.Nat.{ℕ, Ordering}
use Prim.Native.Char.{code}
use Prim.Native.String.{String, compare}
use mathlib.Core.Bool.{Bool, true, false, ◌||◌, ◌&&◌}
use mathlib.Core.Option
use mathlib.Core.Option.{Option, none, some}
use text.Mathlib.Text.{◌==◌}
use holon_bridge_python.Prelude.Tests.{if◌then◌else◌, leb, eqb}

-- `s[:-len(suffix)]` if `s.endswith(suffix)`, else nothing.
unfoldable pub drop_suffix : String → String → Option String
drop_suffix suffix String.[] = if String.[] == suffix then some "" else none
drop_suffix suffix (String.◌∷◌ c s) =
    let rest = drop_suffix suffix s in
    if String.◌∷◌ c s == suffix then some "" else Option.map (String.◌∷◌ c) rest

-- `ch.isspace()`
abbrev pub is_space : ℕ → Bool
is_space c =
    leb 9 c && leb c 13
    || leb 28 c && leb c 32
    || eqb c 0x85
    || eqb c 0xa0
    || eqb c 0x1680
    || leb 0x2000 c && leb c 0x200a
    || eqb c 0x2028
    || eqb c 0x2029
    || eqb c 0x202f
    || eqb c 0x205f
    || eqb c 0x3000

-- `any(test(ch) for ch in s)`
abbrev pub any_char : (ℕ → Bool) → String → Bool
any_char test String.[] = false
any_char test (String.◌∷◌ c s) = test (code c) || any_char test s

abbrev pub all_char : (ℕ → Bool) → String → Bool
all_char test String.[] = true
all_char test (String.◌∷◌ c s) = test (code c) && all_char test s

lstrip : String → String
lstrip String.[] = String.[]
lstrip (String.◌∷◌ c s) = let rest = lstrip s in if is_space (code c) then rest else String.◌∷◌ c s

rstrip : String → String
rstrip String.[] = String.[]
rstrip (String.◌∷◌ c s) =
    let rest = rstrip s in if is_space (code c) && rest == "" then String.[] else String.◌∷◌ c rest

-- `s.strip()`
unfoldable pub strip : String → String
unfolding lstrip rstrip
strip s = lstrip (rstrip s)

-- What stands behind the last occurrence of the character, `s.rsplit(c, 1)[-1]`.
last_part_from : ℕ → String → Option String
last_part_from c String.[] = none
last_part_from c (String.◌∷◌ d s) = elim (last_part_from c s) [
  | some t ↦ some t
  | none ↦ if eqb (code d) c then some s else none
]

unfoldable pub last_part : ℕ → String → String
unfolding last_part_from
last_part c s = elim (last_part_from c s) [ some t ↦ t | none ↦ s ]

-- What stands behind the last `/` or `#`, or the whole text.
local_from : String → Option String
local_from String.[] = none
local_from (String.◌∷◌ d s) = elim (local_from s) [
  | some t ↦ some t
  | none ↦ if eqb (code d) b'/' || eqb (code d) b'#' then some s else none
]

unfoldable pub local_name : String → String
unfolding local_from
local_name s = elim (local_from s) [ some t ↦ t | none ↦ s ]

-- Python orders texts by their code points.
abbrev pub text_lt : String → String → Bool
text_lt a b = elim (compare a b) [ Ordering.lt ↦ true | _ ↦ false ]
