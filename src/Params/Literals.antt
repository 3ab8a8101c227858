-- ===== src/Params/Literals.antt =====
-- Reading back what the escapes of a literal write (holonbridge/params.py).
use Prim.Native.Char.{Char, code}
use Prim.Native.String.{[], ◌∷◌, ◌++◌}
use text.Mathlib.TextLemmas.{cons-append, nil-append}
use text.Mathlib.TextEquality.{Char-path}
use holon_bridge_python.Prelude.{
  String, ℕ, Bool, true, false, Option, none, some, ◌≡◌, if◌then◌else◌, eqb, arith, Bool-cases,
  Option-cases, inl, inr, some-injective, refl, sym, ap, ◌∙◌,
}
use holon_bridge_python.Params.{escape_literal, escaped_before, escape_of}

-- SPARQL's ECHAR, as far as params.py writes it.
echar : ℕ → Option Char
echar c =
    if eqb c 0x5c
    then some "\\"
    else if eqb c 0x22
    then some "\""
    else if eqb c b'n'
    then some "\n"
    else if eqb c b'r'
    then some "\r"
    else if eqb c b't'
    then some "\t"
    else none

prepend : Char → Option (String × String) → Option (String × String)
prepend c none = none
prepend c (some (text, rest)) = some (c ∷ text, rest)

escape_sequence : Option Char → Option (String × String) → Option (String × String)
unfolding prepend
escape_sequence none read = none
escape_sequence (some c) read = prepend c read

-- SPARQL's STRING_LITERAL2 behind its opening quote: the text that it denotes, and what follows.
unfoldable pub read_literal : Bool → String → Option (String × String)
unfolding escape_sequence echar
read_literal escaped [] = none
read_literal true (c ∷ s) = escape_sequence (echar (code c)) (read_literal false s)
read_literal false (c ∷ s) =
    let backslash = read_literal true s in
    let plain = prepend c (read_literal false s) in
    if eqb (code c) 0x22
    then some ([], s)
    else if eqb (code c) 0x5c
    then backslash
    else if eqb (code c) 10
    then none
    else if eqb (code c) 13
    then none
    else plain

escaped-append : (c : Char) (s t : String) → escaped_before c s ++ t ≡ escaped_before c (s ++ t)
unfolding escaped_before
escaped-append c s t = elim (Option-cases (escape_of (code c))) [
  | inl e ↦ rw (e, escaped_before) (cons-append c s t)
  | inr (d, e) ↦
      rw (e, escaped_before)
        (cons-append "\\" (d ∷ s) t ∙ ap (λ (r : String). "\\" ∷ r) (cons-append d s t))
]

-- The escapes are undone by SPARQL's.
decoded :
    (c d x y : Char)
    → eqb (code c) (code y) ≡ true
    → some x ≡ some d
    → echar (code x) ≡ some y
    → echar (code d) ≡ some c
decoded c d x y e h k =
    let same = Char-path c y (ground (arith, e)) in
    ap (λ (z : Char). echar (code z)) (sym (some-injective h)) ∙ k ∙ ap some (sym same)

echar-escape_of : (c d : Char) → escape_of (code c) ≡ some d → echar (code d) ≡ some c
unfolding escape_of echar
echar-escape_of c d = elim (Bool-cases (eqb (code c) 0x5c)) [
  | inl e ↦ rw e (λ h. decoded c d "\\" "\\" e h refl)
  | inr e ↦ rw e (elim (Bool-cases (eqb (code c) 0x22)) [
    | inl e ↦ rw e (λ h. decoded c d "\"" "\"" e h refl)
    | inr e ↦ rw e (elim (Bool-cases (eqb (code c) 10)) [
      | inl e ↦ rw e (λ h. decoded c d "n" "\n" e h refl)
      | inr e ↦ rw e (elim (Bool-cases (eqb (code c) 13)) [
        | inl e ↦ rw e (λ h. decoded c d "r" "\r" e h refl)
        | inr e ↦ rw e (elim (Bool-cases (eqb (code c) 9)) [
          | inl e ↦ rw e (λ h. decoded c d "t" "\t" e h refl)
          | inr e ↦ rw e (λ h. cc)
        ])
      ])
    ])
  ])
]

plain_char :
    (c : Char)
    → escape_of (code c) ≡ none
    → (eqb (code c) 0x22 ≡ false)
      × (eqb (code c) 0x5c ≡ false)
      × (eqb (code c) 10 ≡ false)
      × (eqb (code c) 13 ≡ false)
unfolding escape_of
plain_char c h = ground arith

read-escaped :
    (c : Char) (s text rest : String)
    → read_literal false s ≡ some (text, rest)
    → read_literal false (escaped_before c s) ≡ some (c ∷ text, rest)
unfolding read_literal escaped_before
read-escaped c s text rest h = elim (Option-cases (escape_of (code c))) [
  | inl e ↦
      let (a, b, n, r) = plain_char c e in
      rw (e, escaped_before) (rw (a, b, n, r) (ap (prepend c) h))
  | inr (d, e) ↦ rw (e, escaped_before) (rw (echar-escape_of c d e) (ap (prepend c) h))
]

-- An escaped text in double quotes is a literal that denotes the text and ends at the closing quote,
-- whatever the text holds and whatever follows.
pub read_literal-escape_literal :
    (s rest : String) → read_literal false (escape_literal s ++ ("\"" ++ rest)) ≡ some (s, rest)
unfolding read_literal escape_literal
read_literal-escape_literal [] rest =
    rw (nil-append ("\"" ++ rest))
      (rw (cons-append "\"" [] rest) (ap (λ (r : String). some ([], r)) (nil-append rest)))
read_literal-escape_literal (c ∷ s) rest = rw (escaped-append c (escape_literal s) ("\"" ++ rest)) (
    read-escaped c (escape_literal s ++ ("\"" ++ rest)) s rest (read_literal-escape_literal s rest))
