-- ===== src/Agents/Policy/Secrets.antt =====
-- Which secrets are reachable, and where a call with a credential may go.
use text.Mathlib.Text.{starts_with}
use holon_bridge_python.Prelude.{
  String, List, [], ◌∷◌, true, ◌≡◌, ◌≢◌, inl, inr, ok, arith, any, eq_iff,
}
use holon_bridge_python.Egress.{Net, Target, parse_endpoint, entry_matches}
use holon_bridge_python.Egress.Public.{check_endpoint_sound}
use holon_bridge_python.Agents.Policy.{
  parse_credential_ref, resolve_secret, is_env_name, check_agent_endpoint,
}

parse_credential_ref-eq-ok :
    (prefix ref name : String)
    → parse_credential_ref prefix ref ≡ ok name
    → (is_env_name name ≡ true) × (starts_with name prefix ≡ true)
unfolding parse_credential_ref
parse_credential_ref-eq-ok prefix ref name h = ground arith

resolve_secret-eq-ok :
    (env : String → String) (prefix ref secret : String)
    → resolve_secret env prefix ref ≡ ok secret
    → (name : String) × (parse_credential_ref prefix ref ≡ ok name)
      × (secret ≡ env name)
      × (secret ≢ "")
unfolding resolve_secret
resolve_secret-eq-ok env prefix ref secret h = ground (arith, eq_iff secret "")

-- A secret that is read is the value, not empty, of an environment variable whose name is an
-- upper-case name that starts with the operator's prefix: nothing outside that namespace is reachable.
pub resolve_secret_confined :
    (env : String → String) (prefix ref secret : String)
    → resolve_secret env prefix ref ≡ ok secret
    → (name : String) × (parse_credential_ref prefix ref ≡ ok name)
      × (is_env_name name ≡ true)
      × (starts_with name prefix ≡ true)
      × (secret ≡ env name)
      × (secret ≢ "")
resolve_secret_confined env prefix ref secret h =
    let (name, parsed, same, set) = resolve_secret-eq-ok env prefix ref secret h in
    let (upper_name, inside) = parse_credential_ref-eq-ok prefix ref name parsed in
    (name, parsed, upper_name, inside, same, set)

-- A call that carries credentials is only let through to a host and port that an allowlist entry
-- matches; with no allowlist it is refused whatever the address.
pub credentials_need_allowlist :
    (net : Net) (allowlist : List String) (url : String)
    → check_agent_endpoint net allowlist url true ≡ ok tt
    → (t : Target) × (parse_endpoint net url ≡ ok t)
      × (any (λ entry. entry_matches entry t.host t.port) allowlist ≡ true)
unfolding check_agent_endpoint
credentials_need_allowlist net [] url h = cc
credentials_need_allowlist net (e ∷ rest) url h =
    let (t, parsed, _, way) = check_endpoint_sound net (e ∷ rest) url (ground arith) in
    elim way [ inl (_, listed) ↦ (t, parsed, listed) | inr (empty, _, _) ↦ cc ]
