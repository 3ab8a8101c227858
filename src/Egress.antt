-- ===== src/Egress.antt =====
-- holonbridge/egress.py: where the bridge may send. `urlsplit`, `str.lower`, `ipaddress.ip_address` and
-- the resolver are parameters.
pub mod Public
use holon_bridge_python.Prelude.Text.{strip, any_char, is_space, all_char, drop_suffix}
use Prim.Native.Nat.{◌-◌}
use Prim.Native.Char.{code}
use Prim.Native.String
use holon_bridge_python.Prelude.{
  ℕ, ◌+◌, ◌*◌, String, List, [], ◌∷◌, Bool, true, false, ◌&&◌, ◌||◌, not, Option, none, some, ◌==◌,
  Result, ok, err, ◌>>=◌, ◌>>◌, require, if◌then◌else◌, any, eqb, leb, ltb,
}

-- The fields of `urlsplit(text)` that are read; an absent one is the empty text.
pub record Parts : Type 0 where
  pub scheme : String
  pub username : String
  pub password : String
  pub hostname : String
  pub port : Option ℕ

-- What `ipaddress` says of an address (of the IPv4 address, where one is mapped into IPv6).
pub record Address : Type 0 where
  pub is_global : Bool
  pub is_loopback : Bool
  pub is_link_local : Bool
  pub is_private : Bool

pub record Net : Type 0 where
  -- `none`: a ValueError
  pub urlsplit : String → Option Parts
  pub lower : String → String
  -- `ipaddress.ip_address`, after the zone is cut off; `none`: a ValueError
  pub ip_address : String → Option Address
  -- `none`: the name does not resolve
  pub resolve : String → ℕ → Option (List String)

pub data Refused : Type 0 where
  no_endpoint whitespace bad_url bad_scheme url_credentials no_host not_listed not_https : Refused
  unresolved no_allowlist : Refused
  non_public : String → Refused

pub data NonPublic : Type 0 where
  not_an_address loopback link_local private_address not_public : NonPublic

-- The text up to the first `c` and the text behind it, as `partition` splits it.
before_char : ℕ → String → String
before_char c String.[] = String.[]
before_char c (String.◌∷◌ d s) =
    let rest = before_char c s in if eqb (code d) c then String.[] else String.◌∷◌ d rest

after_char : ℕ → String → String
after_char c String.[] = String.[]
after_char c (String.◌∷◌ d s) = let rest = after_char c s in if eqb (code d) c then s else rest

count_char : ℕ → String → ℕ
count_char c String.[] = 0
count_char c (String.◌∷◌ d s) = (if eqb (code d) c then 1 else 0) + count_char c s

-- `.lstrip(":")`
strip_colons : String → String
strip_colons String.[] = String.[]
strip_colons (String.◌∷◌ d s) =
    let rest = strip_colons s in if eqb (code d) b':' then rest else String.◌∷◌ d s

-- `.rstrip(".")`
rstrip_dots : String → String
rstrip_dots String.[] = String.[]
rstrip_dots (String.◌∷◌ d s) =
    let rest = rstrip_dots s in
    if eqb (code d) b'.' && rest == "" then String.[] else String.◌∷◌ d rest

abbrev is_digit : ℕ → Bool
is_digit c = leb 48 c && leb c 57

digits_from : ℕ → String → ℕ
digits_from n String.[] = n
digits_from n (String.◌∷◌ d s) = digits_from (n * 10 + (code d - 48)) s

-- `int(port) if port.isdigit() else None`, for ASCII digits
port_of : String → Option ℕ
unfolding digits_from
port_of s = if s == "" then none else if all_char is_digit s then some (digits_from 0 s) else none

drop_char : String → String
drop_char String.[] = String.[]
drop_char (String.◌∷◌ c s) = s

abbrev starts_with_char : ℕ → String → Bool
starts_with_char c String.[] = false
starts_with_char c (String.◌∷◌ d s) = eqb (code d) c

unfoldable pub split_host_port : String → String × Option ℕ
unfolding before_char after_char count_char strip_colons port_of drop_char
split_host_port entry =
    if starts_with_char b'[' entry
    then (
      before_char b']' (drop_char entry),
      port_of (strip_colons (after_char b']' (drop_char entry))),
    )
    else if eqb (count_char b':' entry) 1
    then (before_char b':' entry, port_of (after_char b':' entry))
    else (entry, none)

abbrev ends_with : String → String → Bool
ends_with s suffix = elim (drop_suffix suffix s) [ none ↦ false | some _ ↦ true ]

abbrev port_fits : Option ℕ → ℕ → Bool
port_fits none port = true
port_fits (some p) port = eqb p port

host_fits : String → String → Bool
unfolding drop_char drop_suffix
host_fits pattern host =
    if starts_with_char b'*' pattern && starts_with_char b'.' (drop_char pattern)
    then ends_with host (drop_char pattern) && not (host == drop_char (drop_char pattern))
    else host == pattern

unfoldable pub entry_matches : String → String → ℕ → Bool
unfolding split_host_port host_fits
entry_matches entry host port =
    let (entry_host, entry_port) = split_host_port entry in
    port_fits entry_port port && host_fits entry_host host

pub record Target : Type 0 where
  pub scheme : String
  pub host : String
  pub port : ℕ

-- `port or (443 if scheme == "https" else 80)`
abbrev default_port : String → Option ℕ → ℕ
default_port scheme none = if scheme == "https" then 443 else 80
default_port scheme (some p) = if eqb p 0 then (if scheme == "https" then 443 else 80) else p

unfoldable pub target_of : Net → Parts → Result Refused Target
unfolding rstrip_dots
target_of net parts = do
  let scheme = net.lower parts.scheme
  require (scheme == "http" || scheme == "https") bad_scheme
  require (parts.username == "" && parts.password == "") url_credentials
  let host = rstrip_dots (net.lower parts.hostname)
  require (not (host == "")) no_host
  ok (record { scheme = scheme; host = host; port = default_port scheme parts.port })

unfoldable pub parse_endpoint : Net → String → Result Refused Target
parse_endpoint net url = do
  let text = strip url
  require (not (text == "")) no_endpoint
  require (not (any_char (λ c. is_space c || ltb c 32) text)) whitespace
  elim (net.urlsplit text) [ none ↦ err bad_url | some parts ↦ target_of net parts ]

-- Why an address is not a public one.
unfoldable pub non_public_reason : Option Address → Option NonPublic
non_public_reason none = some not_an_address
non_public_reason (some ip) =
    if ip.is_global
    then none
    else if ip.is_loopback
    then some loopback
    else if ip.is_link_local
    then some link_local
    else if ip.is_private
    then some private_address
    else some not_public

unfoldable pub all_public : Net → List String → Result Refused (Unit {0})
all_public net [] = ok tt
all_public net (address ∷ rest) =
    let later = all_public net rest in
    elim (non_public_reason (net.ip_address address)) [
      | some reason ↦ err (non_public address)
      | none ↦ later
    ]

abbrev is_nil : List String → Bool
is_nil [] = true
is_nil _ = false

-- The addresses to judge: the host itself if it is one, else what it resolves to.
unfoldable pub addresses_of : Net → Target → Result Refused (List String)
addresses_of net t = elim (net.ip_address t.host) [
  | some _ ↦ ok (t.host ∷ [])
  | none ↦ elim (net.resolve t.host t.port) [ none ↦ err unresolved | some found ↦ ok found ]
]

unfoldable pub check_endpoint : Net → (allowlist : List String) → String → Result Refused (Unit {0})
check_endpoint net allowlist url = do
  t ← parse_endpoint net url
  if not (is_nil allowlist)
      then require (any (λ entry. entry_matches entry t.host t.port) allowlist) not_listed
      else do
        require (t.scheme == "https") not_https
        addresses ← addresses_of net t
        require (not (is_nil addresses)) unresolved
        all_public net addresses
