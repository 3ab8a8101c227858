-- ===== src/Delegation/Request.antt =====
-- `validate_request`, `safe_iri` and `delegation_iri` of holonbridge/delegation.py
use holon_bridge_python.Prelude.Text.{any_char, is_space, drop_suffix}
use Prim.Native.String.{◌++◌ as str_append}
use holon_bridge_python.Prelude.{
  ℕ, ◌*◌, String, List, [], ◌∷◌, Bool, true, false, ◌||◌, not, none, some, ◌==◌, Result, ok, err,
  require, ◌>>◌, if◌then◌else◌, all, contains, eqb, ltb,
}

pub data DelegationError : Type 0 where
  self_delegation no_permission unsupported_permission no_role bad_role : DelegationError
  note_too_long lifetime_not_positive lifetime_too_long unusable_iri unknown_permission :
      DelegationError
  refused : DelegationError
  ambiguous : List String → DelegationError
  -- a `ValueError` raised for a `holons_graph` of another form
  value_error : DelegationError

abbrev pub Checked : Type 0 → Type 0
Checked = Result DelegationError

abbrev pub permissions_allowed : List String
permissions_allowed = "read" ∷ "write" ∷ []

abbrev pub delegable_roles : List String
delegable_roles = "holons" ∷ "scene" ∷ []

-- Microseconds, as `timedelta` counts them; `negsuc n` is -(n + 1).
pub data Lifetime : Type 0 where
  pos negsuc : ℕ → Lifetime

abbrev pub max_lifetime : ℕ
max_lifetime = 90 * 86400 * 1000000

abbrev is_empty : List String → Bool
is_empty [] = true
is_empty _ = false

check_lifetime : Lifetime → Checked (Unit {0})
check_lifetime (negsuc n) = err lifetime_not_positive
check_lifetime (pos n) =
    if eqb n 0
    then err lifetime_not_positive
    else if ltb max_lifetime n
    then err lifetime_too_long
    else ok tt

unfoldable pub validate_request :
    String → String → List String → List String → Lifetime → Checked (Unit {0})
unfolding check_lifetime
validate_request delegator delegate permissions roles lifetime = do
  require (not (delegator == delegate)) self_delegation
  require (not (is_empty permissions)) no_permission
  require (all (λ p. contains p permissions_allowed) permissions) unsupported_permission
  require (not (is_empty roles)) no_role
  require (all (λ r. contains r delegable_roles) roles) bad_role
  check_lifetime lifetime

-- `_IRI_UNSAFE`, whitespace and control characters
abbrev pub unsafe_char : ℕ → Bool
unsafe_char c =
    eqb c b'<'
    || eqb c b'>'
    || eqb c 0x22
    || eqb c b'{'
    || eqb c b'}'
    || eqb c b'|'
    || eqb c b'^'
    || eqb c 0x60
    || eqb c 0x5c
    || is_space c
    || ltb c 0x20

unfoldable pub safe_iri : String → Checked String
safe_iri value = if value == "" || any_char unsafe_char value then err unusable_iri else ok value

-- `<> "{}|^`:` of `delegation_iri`
abbrev unsafe_slug_char : ℕ → Bool
unsafe_slug_char c =
    eqb c b'<'
    || eqb c b'>'
    || eqb c 0x20
    || eqb c 0x22
    || eqb c b'{'
    || eqb c b'}'
    || eqb c b'|'
    || eqb c b'^'
    || eqb c 0x60
    || eqb c b':'

unfoldable pub delegation_iri : String → String → Checked String
delegation_iri holons_graph slug = elim (drop_suffix ":holons" holons_graph) [
  | none ↦ err value_error
  | some base ↦
      if slug == "" || any_char unsafe_slug_char slug
      then err value_error
      else ok (str_append base (str_append ":delegation:" slug))
]
