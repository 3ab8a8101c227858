-- ===== src/Egress/Public.antt =====
-- Where a check that passes lets the bridge send.
use holon_bridge_python.Prelude.{
  String, List, [], ◌∷◌, true, false, ◌||◌, ||-true, Option-cases, inl, Option, none, some, ◌≡◌,
  ◌≢◌, ◌⊎◌, inr, ok, refl, arith, any, ◌==◌, eq_iff,
}
use holon_bridge_python.Prelude.Text.{strip}
use holon_bridge_python.Egress.{
  Net, Address, Parts, Target, target_of, parse_endpoint, entry_matches, non_public_reason,
  all_public, addresses_of, check_endpoint,
}

-- Every address is one that `ipaddress` calls global.
abbrev pub AllGlobal : Net → List String → Type 0
AllGlobal net [] = Unit
AllGlobal net (a ∷ rest) =
    ((ip : Address) × (net.ip_address a ≡ some ip) × (ip.is_global ≡ true)) × AllGlobal net rest

reason-none :
    (o : Option Address)
    → non_public_reason o ≡ none
    → (ip : Address) × (o ≡ some ip) × (ip.is_global ≡ true)
unfolding non_public_reason
reason-none none h = cc
reason-none (some ip) h = (ip, refl, ground arith)

all_public-AllGlobal : (net : Net) (l : List String) → all_public net l ≡ ok tt → AllGlobal net l
unfolding all_public
all_public-AllGlobal net [] h = tt
all_public-AllGlobal net (a ∷ rest) h =
    (reason-none (net.ip_address a) (ground arith), all_public-AllGlobal net rest (ground arith))

open_check :
    (net : Net) (url : String)
    → check_endpoint net [] url ≡ ok tt
    → (t : Target) × (parse_endpoint net url ≡ ok t)
      × ((t.scheme == "https") ≡ true)
      × (addresses : List String) × (addresses_of net t ≡ ok addresses)
      × (addresses ≢ [])
      × (all_public net addresses ≡ ok tt)
unfolding check_endpoint
open_check net url h = ground arith

-- The target that a URL names, as urlsplit reads it: http or https, with a host and without credentials.
abbrev pub IsPlain : Net → String → Target → Type 0
IsPlain net url t =
    (parts : Parts) × (net.urlsplit (strip url) ≡ some parts)
    × (t.scheme ≡ net.lower parts.scheme)
    × ((t.scheme ≡ "http") ⊎ (t.scheme ≡ "https"))
    × (parts.username ≡ "")
    × (parts.password ≡ "")
    × (t.host ≢ "")

target_of-plain :
    (net : Net) (parts : Parts) (t : Target)
    → target_of net parts ≡ ok t
    → (t.scheme ≡ net.lower parts.scheme)
      × ((t.scheme == "http" || t.scheme == "https") ≡ true)
      × ((parts.username == "") ≡ true)
      × ((parts.password == "") ≡ true)
      × ((t.host == "") ≡ false)
unfolding target_of
target_of-plain net parts t h = ground arith

parse_endpoint-split :
    (net : Net) (url : String) (t : Target)
    → parse_endpoint net url ≡ ok t
    → (parts : Parts) × (net.urlsplit (strip url) ≡ some parts) × (target_of net parts ≡ ok t)
unfolding parse_endpoint
parse_endpoint-split net url t h = elim (Option-cases (net.urlsplit (strip url))) [
  | inl e ↦ ground (arith, e)
  | inr (parts, e) ↦ (parts, e, ground (arith, e))
]

parse_endpoint-IsPlain :
    (net : Net) (url : String) (t : Target) → parse_endpoint net url ≡ ok t → IsPlain net url t
parse_endpoint-IsPlain net url t h =
    let (parts, split, parsed) = parse_endpoint-split net url t h in
    let (scheme, either, user, pass, host) = target_of-plain net parts t parsed in
    (
      parts,
      split,
      scheme,
      elim (||-true (t.scheme == "http") (t.scheme == "https") either) [
        | inl e ↦ inl ((eq_iff t.scheme "http").0 e)
        | inr e ↦ inr ((eq_iff t.scheme "https").0 e)
      ],
      (eq_iff parts.username "").0 user,
      (eq_iff parts.password "").0 pass,
      λ blank. let same = (eq_iff t.host "").1 blank in cc,
    )

listed_check :
    (net : Net) (entry : String) (rest : List String) (url : String)
    → check_endpoint net (entry ∷ rest) url ≡ ok tt
    → (t : Target) × (parse_endpoint net url ≡ ok t)
      × (any (λ e. entry_matches e t.host t.port) (entry ∷ rest) ≡ true)
unfolding check_endpoint
listed_check net entry rest url h = ground arith

-- A check that passes accepts the host of a URL that urlsplit reads as http or https, without a user name
-- or a password. With an
-- allowlist one of its entries matches host and port. Without one the scheme is https, and the host,
-- or each address that it resolves to, of which there is at least one, is a global address.
pub check_endpoint_sound :
    (net : Net) (allowlist : List String) (url : String)
    → check_endpoint net allowlist url ≡ ok tt
    → (t : Target) × (parse_endpoint net url ≡ ok t)
      × IsPlain net url t
      × ((allowlist ≢ []) × (any (λ entry. entry_matches entry t.host t.port) allowlist ≡ true)
          ⊎ (allowlist ≡ [])
            × (t.scheme ≡ "https")
            × ((addresses : List String) × (addresses_of net t ≡ ok addresses)
                × (addresses ≢ [])
                × AllGlobal net addresses))
check_endpoint_sound net [] url h =
    let (t, parsed, secure, addresses, found, some_address, global) = open_check net url h in
    (
      t,
      parsed,
      parse_endpoint-IsPlain net url t parsed,
      inr (
        refl,
        (eq_iff t.scheme "https").0 secure,
        (addresses, found, some_address, all_public-AllGlobal net addresses global),
      ),
    )
check_endpoint_sound net (e ∷ rest) url h =
    let (t, parsed, matched) = listed_check net e rest url h in
    (t, parsed, parse_endpoint-IsPlain net url t parsed, inl (λ z. cc, matched))
