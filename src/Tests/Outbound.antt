-- ===== src/Tests/Outbound.antt =====
-- Runs of the endpoint checks, credentials, audit levels and sequence minting.
use holon_bridge_python.Prelude.{
  ◌≤◌, suc, String, List, [], ◌∷◌, true, false, none, some, ◌≡◌, ◌≢◌, ◌⊎◌, inl, inr, refl, ok, any,
  arith, if◌then◌else◌, ltb, eq_iff, ◌==◌, ◌∙◌, sym, Bool-cases,
}
use holon_bridge_python.Prelude.Text.{strip}
use text.Mathlib.Text.{starts_with}
use holon_bridge_python.Egress.{
  Target, parse_endpoint, target_of, check_endpoint, addresses_of, all_public, non_public_reason,
  entry_matches, split_host_port,
}
use holon_bridge_python.Egress.Public.{check_endpoint_sound, AllGlobal, IsPlain}
use holon_bridge_python.Agents.Policy.{
  parse_credential_ref, resolve_secret, is_env_name, check_agent_endpoint,
}
use holon_bridge_python.Agents.Policy.Secrets.{resolve_secret_confined, credentials_need_allowlist}
use holon_bridge_python.Audit.Policy.{
  mutations, standard, denials, allowed, should_record, should_record_mono, level_for, or_operator,
  level_for_suspension,
}
use holon_bridge_python.Sequence.{Counter, read, mint, mint_alone}
use holon_bridge_python.Sequence.Race.{Step, reads, updates, confirms, run, start}
use holon_bridge_python.Sequence.Soundness.{Distinct, starts}
use holon_bridge_python.Sequence.Unique.{minted_unique}
use holon_bridge_python.Tests.Samples.{net}

abbrev no_hosts : List String
no_hosts = []

abbrev secret : String
secret = "s3cret"

abbrev url : String
url = "https://agent.example/run"

url_passes : check_endpoint net no_hosts url ≡ ok tt
unfolding check_endpoint parse_endpoint target_of addresses_of all_public non_public_reason strip
url_passes = refl

check_endpoint_sound_example :
    (t : Target) × (parse_endpoint net url ≡ ok t)
    × IsPlain net url t
    × ((no_hosts ≢ []) × (any (λ entry. entry_matches entry t.host t.port) no_hosts ≡ true)
        ⊎ (no_hosts ≡ [])
          × (t.scheme ≡ "https")
          × ((addresses : List String) × (addresses_of net t ≡ ok addresses)
              × (addresses ≢ [])
              × AllGlobal net addresses))
check_endpoint_sound_example = check_endpoint_sound net no_hosts url url_passes

abbrev allowlist : List String
allowlist = "*.example:443" ∷ []

listed : check_agent_endpoint net allowlist url true ≡ ok tt
unfolding check_agent_endpoint check_endpoint parse_endpoint target_of strip entry_matches
    split_host_port
listed = refl

credentials_need_allowlist_example :
    (t : Target) × (parse_endpoint net url ≡ ok t)
    × (any (λ entry. entry_matches entry t.host t.port) allowlist ≡ true)
credentials_need_allowlist_example = credentials_need_allowlist net allowlist url listed

abbrev variables : String → String
variables name = if name == "HB_AGENT_KEY" then "s3cret" else ""

key_read : resolve_secret variables "HB_AGENT_" "env:HB_AGENT_KEY" ≡ ok secret
unfolding resolve_secret parse_credential_ref is_env_name strip
key_read = refl

resolve_secret_confined_example :
    (name : String) × (parse_credential_ref "HB_AGENT_" "env:HB_AGENT_KEY" ≡ ok name)
    × (is_env_name name ≡ true)
    × (starts_with name "HB_AGENT_" ≡ true)
    × (secret ≡ variables name)
    × (secret ≢ "")
resolve_secret_confined_example =
    resolve_secret_confined variables "HB_AGENT_" "env:HB_AGENT_KEY" secret key_read

recorded : should_record mutations allowed true false ≡ true
unfolding should_record
recorded = refl

verbose_records : should_record standard allowed true false ≡ true
verbose_records = should_record_mono mutations standard allowed true false (omega arith) recorded

suspension_ends :
    level_for standard
      (record {
        api_level = none;
        suspended_to = some denials;
        suspended_until = some 20;
        suspended_reason = none;
        suspended_by = none;
      })
      30
    ≡ (if ltb 30 20
        then (
          record {
            api_level = none;
            suspended_to = some denials;
            suspended_until = some 20;
            suspended_reason = none;
            suspended_by = none;
          },
          denials,
        )
        else (
          record {
            api_level = none;
            suspended_to = none;
            suspended_until = none;
            suspended_reason = none;
            suspended_by = none;
          },
          or_operator none standard,
        ))
suspension_ends = level_for_suspension standard denials none none none 20 30 refl

-- Two attempts that read the same value.
abbrev racing : List Step
racing = reads "a" ∷ reads "b" ∷ updates "a" ∷ updates "b" ∷ confirms "b" ∷ confirms "a" ∷ []

differ : ◌≢◌ {A = String} "a" "b"
differ e = let same = (eq_iff "a" "b").1 e in cc

own_tokens : (t : String) → starts t racing ≤ 1
own_tokens t = elim (Bool-cases ("a" == t)) [
  | inr e ↦ ground (arith, e)
  | inl e ↦ elim (Bool-cases ("b" == t)) [
    | inr d ↦ ground (arith, e, d)
    | inl d ↦ absurd (differ ((eq_iff "a" t).0 e ∙ sym ((eq_iff "b" t).0 d)))
  ]
]

minted_unique_example : Distinct (run racing start).minted
minted_unique_example = minted_unique racing own_tokens

abbrev at_four : Counter
at_four = record { value = some 4; token = some "old" }

minted_alone :
    mint (record { token = "a"; before = λ x. x; after = λ x. x } ∷ []) at_four
    ≡ (ok (suc (read at_four)), record { value = some (suc (read at_four)); token = some "a" })
minted_alone = mint_alone "a" [] at_four
