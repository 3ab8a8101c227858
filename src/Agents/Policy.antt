-- ===== src/Agents/Policy.antt =====
-- holonbridge/agents/policy.py: credential references, and where a call may go.
pub mod Secrets
use holon_bridge_python.Prelude.Text.{strip, all_char, any_char}
use Prim.Native.Char.{code}
use Prim.Native.String
use text.Mathlib.Text.{starts_with}
use holon_bridge_python.Prelude.{
  ℕ, ◌+◌, String, List, [], ◌∷◌, Bool, true, false, ◌&&◌, ◌||◌, not, Option, none, some, ◌==◌, ◌≡◌,
  Result, ok, err, ◌>>=◌, ◌>>◌, require, if◌then◌else◌, eqb, leb,
}
use holon_bridge_python.Egress.{Net, Refused, no_allowlist, parse_endpoint, check_endpoint}

pub data CredentialRefused : Type 0 where
  not_env bad_name outside_namespace not_set : CredentialRefused

-- `text.partition(":")`: whether the separator is there, and the two sides.
abbrev scheme_of : String → String
scheme_of String.[] = String.[]
scheme_of (String.◌∷◌ c s) =
    let rest = scheme_of s in if eqb (code c) b':' then String.[] else String.◌∷◌ c rest

abbrev name_of : String → String
name_of String.[] = String.[]
name_of (String.◌∷◌ c s) = let rest = name_of s in if eqb (code c) b':' then s else rest

abbrev has_colon : String → Bool
has_colon = any_char (λ c. eqb c b':')

abbrev upper : ℕ → Bool
upper c = leb b'A' c && leb c b'Z'

abbrev char_count : String → ℕ
char_count String.[] = 0
char_count (String.◌∷◌ c s) = char_count s + 1

-- `^[A-Z][A-Z0-9_]{0,127}$`; the `$` also stands before a final newline.
abbrev is_env_body : String → Bool
is_env_body = all_char (λ c. upper c || (leb 48 c && leb c 57) || eqb c b'_')

abbrev without_newline : String → String
without_newline String.[] = String.[]
without_newline (String.◌∷◌ c s) =
    let rest = without_newline s in
    if eqb (code c) 10 && s == "" then String.[] else String.◌∷◌ c rest

unfoldable pub is_env_name : String → Bool
is_env_name name =
    let body = without_newline name in
    elim body [
      | String.[] ↦ false
      | String.◌∷◌ c s ↦ upper (code c) && is_env_body s && leb (char_count s) 127
    ]

unfoldable pub parse_credential_ref : (prefix ref : String) → Result CredentialRefused String
unfolding strip
parse_credential_ref prefix ref = do
  let text = strip ref
  require (has_colon text && scheme_of text == "env") not_env
  let name = name_of text
  require (is_env_name name) bad_name
  require (starts_with name prefix) outside_namespace
  ok name

-- `env` is `os.environ.get(name, "")`.
unfoldable pub resolve_secret :
    (env : String → String) → (prefix ref : String) → Result CredentialRefused String
resolve_secret env prefix ref = do
  name ← parse_credential_ref prefix ref
  require (not (env name == "")) not_set
  ok (env name)

abbrev is_nil : List String → Bool
is_nil [] = true
is_nil _ = false

unfoldable pub check_agent_endpoint :
    Net
    → (allowlist : List String) → (url : String) → (has_credentials : Bool)
    → Result Refused (Unit {0})
check_agent_endpoint net allowlist url has_credentials =
    if has_credentials
    then (do
      require (not (is_nil allowlist)) no_allowlist
      t ← parse_endpoint net url
      check_endpoint net allowlist url)
    else check_endpoint net allowlist url
