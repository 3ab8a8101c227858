-- ===== src/Params/Rendered.antt =====
-- What a rendered term means to SPARQL (`_render_term_core`, holonbridge/params.py).
use Prim.Native.Char.{Char, code}
use Prim.Native.String.{[], ◌∷◌, ◌++◌}
use text.Mathlib.TextLemmas.{cons-append, nil-append, append_assoc}
use holon_bridge_python.Prelude.{
  String, ℕ, Bool, true, false, Option, none, some, ◌≡◌, ◌||◌, not, if◌then◌else◌, eqb, leb, arith,
  Bool-cases, inl, inr, refl, sym, ap, ◌∙◌, given, ok, ok-injective, require, >>=-eq-ok, not-true,
}
use mathlib.Core.Path.{subst}
use holon_bridge_python.Prelude.Text.{any_char, local_name}
use holon_bridge_python.Params.{
  Value, null, boolean, integer, finite, not_finite, other, str, ParameterError, no_scheme,
  unsafe_iri, bad_lexical_form, has_scheme, iri_unsafe, is_iri_datatype, escape_literal, quoted,
  iri_term, typed_term, literal_term, render_term_core, expand_datatype, lexical_form,
}
use holon_bridge_python.Params.Literals.{read_literal, read_literal-escape_literal}

-- What SPARQL's IRIREF leaves out.
abbrev pub iri_excluded : ℕ → Bool
iri_excluded c =
    leb c 0x20
    || eqb c b'<'
    || eqb c 0x22
    || eqb c b'{'
    || eqb c b'}'
    || eqb c b'|'
    || eqb c 0x5c
    || eqb c b'^'
    || eqb c b'`'

first_of : Char → Option (String × String) → Option (String × String)
first_of c none = none
first_of c (some (text, rest)) = some (c ∷ text, rest)

-- SPARQL's IRIREF behind its opening bracket: the IRI, and what follows.
unfoldable pub read_iri : String → Option (String × String)
unfolding first_of
read_iri [] = none
read_iri (c ∷ s) =
    let more = first_of c (read_iri s) in
    if eqb (code c) b'>' then some ([], s) else if iri_excluded (code c) then none else more

abbrev pub is_control : ℕ → Bool
is_control c = leb c 0x1f

iri_char :
    (c : ℕ)
    → iri_unsafe c ≡ false
    → is_control c ≡ false
    → (eqb c b'>' ≡ false) × (iri_excluded c ≡ false)
iri_char c h k = ground arith

left_false : (a b : Bool) → (a || b) ≡ false → a ≡ false
left_false a b h = ground arith

right_false : (a b : Bool) → (a || b) ≡ false → b ≡ false
right_false a b h = ground arith

required : (b : Bool) (e : ParameterError) {u : Unit {0}} → require b e ≡ ok u → b ≡ true
required true e h = refl
required false e h = cc

read_iri-safe :
    (s rest : String)
    → any_char iri_unsafe s ≡ false
    → any_char is_control s ≡ false
    → read_iri (s ++ (">" ++ rest)) ≡ some (s, rest)
unfolding read_iri
read_iri-safe [] rest h k =
    rw (nil-append (">" ++ rest))
      (rw (cons-append ">" [] rest) (ap (λ (r : String). some ([], r)) (nil-append rest)))
read_iri-safe (c ∷ s) rest h k =
    let (a, b) =
      iri_char (code c) (left_false (iri_unsafe (code c)) (any_char iri_unsafe s) h)
        (left_false (is_control (code c)) (any_char is_control s) k) in
    let ih =
      read_iri-safe s rest (right_false (iri_unsafe (code c)) (any_char iri_unsafe s) h)
        (right_false (is_control (code c)) (any_char is_control s) k) in
    rw (cons-append c s (">" ++ rest)) (rw (a, b) (ap (first_of c) ih))

chosen :
    {A : Type 0} (x y : A) {z : A} (test : Bool) → test ≡ true → (if test then x else y) ≡ z → x ≡ z
chosen x y true h e = e
chosen x y false h e = cc

passed_over :
    {A : Type 0} (x y : A) {z : A} (test : Bool)
    → test ≡ false
    → (if test then x else y) ≡ z
    → y ≡ z
passed_over x y false h e = e
passed_over x y true h e = cc

-- What follows a literal's closing quote.
abbrev pub type_suffix : String → String
type_suffix datatype = if given datatype then "^^<" ++ (expand_datatype datatype ++ ">") else []

module _ (fullmatch : String → String → Bool) where
  IriTerm : Value → String → String → Type 0
  IriTerm v t rest =
      any_char is_control (str v) ≡ false
      → (body : String) × (t ++ rest ≡ "<" ++ body) × (read_iri body ≡ some (str v, rest))

  iri_term-reads :
      (v : Value) (t rest : String) → iri_term fullmatch (str v) ≡ ok t → IriTerm v t rest
  unfolding IriTerm iri_term
  iri_term-reads v t rest went calm =
      let text = str v in
      let (u, scheme, later) = >>=-eq-ok (require (has_scheme text) no_scheme) _ went in
      let (u', safe, end) =
        >>=-eq-ok (require (not (any_char iri_unsafe text)) unsafe_iri) _ later in
      let clean = not-true (any_char iri_unsafe text) (required _ _ safe) in
      (
        text ++ (">" ++ rest),
        ap (λ (x : String). x ++ rest) (sym (ok-injective end))
            ∙ append_assoc "<" (text ++ ">") rest
            ∙ ap (λ (x : String). "<" ++ x) (append_assoc text ">" rest),
        read_iri-safe text rest clean calm,
      )

  LiteralTerm : String → String → String → String → Type 0
  LiteralTerm s datatype t rest =
      (body : String) × (t ++ rest ≡ "\"" ++ body)
      × (read_literal false body ≡ some (s, type_suffix datatype ++ rest))

  quoted-append :
      (s t : String) → quoted fullmatch s ++ t ≡ "\"" ++ (escape_literal s ++ ("\"" ++ t))
  quoted-append s t =
      append_assoc "\"" (escape_literal s ++ "\"") t
      ∙ ap (λ (x : String). "\"" ++ x) (append_assoc (escape_literal s) "\"" t)

  literal_term-reads :
      (s datatype t rest : String)
      → literal_term fullmatch s datatype ≡ ok t
      → LiteralTerm s datatype t rest
  unfolding LiteralTerm literal_term typed_term
  literal_term-reads s datatype t rest = elim (Bool-cases (given datatype)) [
    | inl e ↦
        let suffix = "^^<" ++ (expand_datatype datatype ++ ">") in
        rw e (λ went.
          let (u, fine, end) =
            >>=-eq-ok
              (require (lexical_form fullmatch (local_name (expand_datatype datatype)) s)
                (bad_lexical_form s))
              _ went in
          (
            escape_literal s ++ ("\"" ++ (suffix ++ rest)),
            ap (λ (x : String). x ++ rest) (sym (ok-injective end))
                ∙ append_assoc (quoted fullmatch s) suffix rest
                ∙ quoted-append s (suffix ++ rest),
            read_literal-escape_literal s (suffix ++ rest),
          ))
    | inr e ↦ rw e (λ went. (
      escape_literal s ++ ("\"" ++ rest),
      ap (λ (x : String). x ++ rest) (sym (ok-injective went)) ∙ quoted-append s rest,
      read_literal-escape_literal s rest ∙ ap (λ (x : String). some (s, x)) (sym (nil-append rest)),
    ))
  ]

  as_iri :
      (v : Value) (datatype t : String)
      → is_iri_datatype datatype ≡ true
      → render_term_core fullmatch v datatype ≡ ok t
      → iri_term fullmatch (str v) ≡ ok t
  unfolding render_term_core
  as_iri null datatype t iri went = cc
  as_iri (boolean b) datatype t iri went = chosen _ _ (is_iri_datatype datatype) iri went
  as_iri (integer n) datatype t iri went = chosen _ _ (is_iri_datatype datatype) iri went
  as_iri (finite n) datatype t iri went = chosen _ _ (is_iri_datatype datatype) iri went
  as_iri (not_finite n) datatype t iri went = chosen _ _ (is_iri_datatype datatype) iri went
  as_iri (other n) datatype t iri went = chosen _ _ (is_iri_datatype datatype) iri went

  as_literal :
      (v : Value) (s datatype t : String)
      → v ≡ other s
      → is_iri_datatype datatype ≡ false
      → render_term_core fullmatch v datatype ≡ ok t
      → literal_term fullmatch s datatype ≡ ok t
  unfolding render_term_core
  as_literal v s datatype t same plain went =
      passed_over _ _ (is_iri_datatype datatype) plain
        (subst (λ (x : Value). render_term_core fullmatch x datatype ≡ ok t) same went)

  -- Before any text, a term that was rendered reads as SPARQL as the value that was given, and ends where
  -- it was meant to. For a datatype of IRIs it is an IRI reference to the value's text, if that holds no
  -- control character below U+0020; and for a text under another datatype or none it is a literal that
  -- denotes the text, followed by the declared datatype.
  pub render_term_core-reads :
      (v : Value) (datatype t rest : String)
      → render_term_core fullmatch v datatype ≡ ok t
      → (is_iri_datatype datatype ≡ true
          → any_char is_control (str v) ≡ false
          → (body : String) × (t ++ rest ≡ "<" ++ body) × (read_iri body ≡ some (str v, rest)))
        × ((s : String)
            → v ≡ other s
            → is_iri_datatype datatype ≡ false
            → (body : String) × (t ++ rest ≡ "\"" ++ body)
              × (read_literal false body ≡ some (s, type_suffix datatype ++ rest)))
  unfolding render_term_core IriTerm LiteralTerm
  render_term_core-reads v datatype t rest went = (
    λ iri. iri_term-reads v t rest (as_iri v datatype t iri went),
    λ s same plain.
        literal_term-reads s datatype t rest (as_literal v s datatype t same plain went),
  )
