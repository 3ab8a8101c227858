-- ===== src/Params.antt =====
-- Values as SPARQL terms (holonbridge/params.py).
pub mod Literals
pub mod Rendered
use Prim.Native.Char.{Char, code}
use Prim.Native.String.{[], ◌∷◌, ◌++◌}
use holon_bridge_python.Prelude.{
  String, ℕ, Bool, true, false, Option, none, some, ◌==◌, ◌&&◌, ◌||◌, not, if◌then◌else◌, given,
  leb, eqb, ◌≢◌, Result, err, ok, ◌>>=◌, ◌>>◌, require,
}
use holon_bridge_python.Prelude.Text.{is_space, any_char, local_name}

-- A supplied value with its `str`: a `float` that is not finite is told apart, and a number's text is
-- how Python prints it.
pub data Value : Type 0 where
  null : Value
  boolean : Bool → Value
  integer : String → Value
  finite : String → Value
  not_finite : String → Value
  other : String → Value

pub data ParameterError : Type 0 where
  null_value no_scheme unsafe_iri infinite : ParameterError
  bad_lexical_form : String → ParameterError
  not_allowed no_match not_numeric below_minimum above_maximum : ParameterError
  bad_variable : String → ParameterError

-- `str(value)`
unfoldable pub str : Value → String
str null = "None"
str (boolean true) = "True"
str (boolean false) = "False"
str (integer s) = s
str (finite s) = s
str (not_finite s) = s
str (other s) = s

abbrev pub xsd : String
xsd = "http://www.w3.org/2001/XMLSchema#"

is_letter : ℕ → Bool
is_letter c = leb b'A' c && leb c b'Z' || leb b'a' c && leb c b'z'

is_digit : ℕ → Bool
is_digit c = leb b'0' c && leb c b'9'

-- What `_SCHEME` admits before the colon, and the colon.
scheme_ends : String → Bool
unfolding is_letter is_digit
scheme_ends [] = false
scheme_ends (c ∷ s) =
    eqb (code c) b':'
    || (is_letter (code c)
        || is_digit (code c)
        || eqb (code c) b'+'
        || eqb (code c) b'.'
        || eqb (code c) b'-')
      && scheme_ends s

unfoldable pub has_scheme : String → Bool
unfolding scheme_ends is_letter
has_scheme [] = false
has_scheme (c ∷ s) = is_letter (code c) && scheme_ends s

-- `_IRI_UNSAFE`
abbrev pub iri_unsafe : ℕ → Bool
iri_unsafe c =
    eqb c b'<'
    || eqb c b'>'
    || eqb c 0x22
    || eqb c b'{'
    || eqb c b'}'
    || eqb c b'|'
    || eqb c 0x5c
    || eqb c b'^'
    || eqb c b'`'
    || is_space c

-- `_expand_datatype`: what follows `xsd:` gets the namespace.
unfoldable pub expand_datatype : String → String
expand_datatype (a ∷ b ∷ c ∷ d ∷ rest) =
    if (a ∷ b ∷ c ∷ d ∷ []) == "xsd:" then xsd ++ rest else a ∷ b ∷ c ∷ d ∷ rest
expand_datatype datatype = datatype

-- `IRI_DATATYPES`
abbrev is_iri_name : String → Bool
is_iri_name s =
    s == "anyURI" || s == "IRI" || s == "iri" || s == "uri" || s == "URI" || s == "Resource"

-- A missing datatype is the empty text.
unfoldable pub is_iri_datatype : String → Bool
unfolding expand_datatype local_name
is_iri_datatype datatype = given datatype && is_iri_name (local_name (expand_datatype datatype))

-- `_LITERAL_ESCAPES`: what follows the backslash.
unfoldable pub escape_of : ℕ → Option Char
escape_of c =
    if eqb c 0x5c
    then some "\\"
    else if eqb c 0x22
    then some "\""
    else if eqb c 10
    then some "n"
    else if eqb c 13
    then some "r"
    else if eqb c 9
    then some "t"
    else none

escaped_before : Char → String → String
unfolding escape_of
escaped_before c rest = elim (escape_of (code c)) [ none ↦ c ∷ rest | some d ↦ "\\" ∷ (d ∷ rest) ]

unfoldable pub escape_literal : String → String
unfolding escaped_before
escape_literal [] = []
escape_literal (c ∷ s) = escaped_before c (escape_literal s)

abbrev integer_names : String → Bool
integer_names s =
    s == "integer"
    || s == "int"
    || s == "long"
    || s == "short"
    || s == "nonNegativeInteger"
    || s == "positiveInteger"

-- `fullmatch` is Python's `re.fullmatch`, for a pattern and a text.
module _ (fullmatch : String → String → Bool) where
  -- `_check_lexical_form`, for the local name of the datatype
  unfoldable pub lexical_form : String → String → Bool
  lexical_form local text =
      if integer_names local
      then fullmatch "[+-]?\\d+" text
      else if local == "decimal" || local == "double" || local == "float"
      then fullmatch "[+-]?(\\d+\\.?\\d*|\\.\\d+)([eE][+-]?\\d+)?" text
      else if local == "boolean"
      then text == "true" || text == "false" || text == "0" || text == "1"
      else if local == "dateTime"
      then fullmatch "-?\\d{4}-\\d{2}-\\d{2}T\\d{2}:\\d{2}:\\d{2}(\\.\\d+)?(Z|[+-]\\d{2}:\\d{2})"
          text
      else if local == "date"
      then fullmatch "-?\\d{4}-\\d{2}-\\d{2}(Z|[+-]\\d{2}:\\d{2})?" text
      else true

  abbrev quoted : String → String
  quoted text = "\"" ++ (escape_literal text ++ "\"")

  iri_term : String → Result ParameterError String
  iri_term text = do
    require (has_scheme text) no_scheme
    require (not (any_char iri_unsafe text)) unsafe_iri
    ok ("<" ++ (text ++ ">"))

  typed_term : String → String → Result ParameterError String
  unfolding lexical_form local_name
  typed_term text expanded = do
    require (lexical_form (local_name expanded) text) (bad_lexical_form text)
    ok (quoted text ++ ("^^<" ++ (expanded ++ ">")))

  literal_term : String → String → Result ParameterError String
  unfolding typed_term expand_datatype
  literal_term text datatype =
      if given datatype then typed_term text (expand_datatype datatype) else ok (quoted text)

  by_type : Value → String → Result ParameterError String
  unfolding literal_term
  by_type null datatype = err null_value
  by_type (boolean true) datatype = ok "true"
  by_type (boolean false) datatype = ok "false"
  by_type (integer s) datatype = ok s
  by_type (finite s) datatype = ok s
  by_type (not_finite s) datatype = err infinite
  by_type (other s) datatype = literal_term s datatype

  is_null : Value → Bool
  is_null null = true
  is_null _ = false

  -- `_render_term_core`
  unfoldable pub render_term_core : Value → String → Result ParameterError String
  unfolding is_null iri_term by_type str is_iri_datatype
  render_term_core value datatype =
      if is_null value
      then err null_value
      else if is_iri_datatype datatype
      then iri_term (str value)
      else by_type value datatype
