-- ===== src/Delegation/Lookup.antt =====
-- `_parse_dt` and `find_delegation` of holonbridge/delegation.py
pub mod Active
use holon_bridge_python.Prelude.Text.{strip}
use holon_bridge_python.Prelude.Sorting.{sort_on}
use Prim.Native.Char.{code}
use Prim.Native.String.{◌++◌ as str_append}
use Prim.Native.String
use holon_bridge_python.Prelude.{
  ℕ, String, List, [], ◌∷◌, map, Bool, true, false, ◌&&◌, ◌||◌, not, Option, none, some, ◌==◌, ok,
  err, ◌>>=◌, ◌>>◌, require, if◌then◌else◌, select, flat_map, contains, eqb, ltb, leb,
}
use holon_bridge_python.Rdf.{Term, iri, lit, Graph, value, ask, ask_any, objects, subjects}
use holon_bridge_python.Delegation.Request.{
  DelegationError, unknown_permission, Checked, safe_iri, permissions_allowed,
}

-- What `datetime.fromisoformat` yields: the instant (a naive one read as UTC), or a `ValueError`.
-- `drop_fraction` is `re.sub(r"\.\d+", "", text)`.
pub record Clock : Type 0 where
  pub fromisoformat : String → Option ℕ
  pub drop_fraction : String → String

-- `text.replace("Z", "+00:00")`
replace_z : String → String
replace_z String.[] = String.[]
replace_z (String.◌∷◌ c s) =
    let rest = replace_z s in
    if eqb (code c) b'Z' then str_append "+00:00" rest else String.◌∷◌ c rest

unfoldable pub parse_dt : Clock → String → Option ℕ
unfolding replace_z strip
parse_dt clock value =
    let text = replace_z (strip value) in
    elim (clock.fromisoformat text) [
      | some t ↦ some t
      | none ↦ clock.fromisoformat (clock.drop_fraction text)
    ]

abbrev pub holon : String → String
holon name = str_append "https://w3id.org/holon/" name

abbrev pub rdf_type : String
rdf_type = "http://www.w3.org/1999/02/22-rdf-syntax-ns#type"

pub record DelegationMatch : Type 0 where
  pub delegation : String
  pub delegator : String
  pub persona : String

-- A solution of `candidates_query`.
pub record Row : Type 0 where
  pub d : String
  pub row_delegator : Term
  pub row_persona : Term
  pub from : Term
  pub until : Term

abbrev pub rows_of : Graph → String → List Row
rows_of g d =
    flat_map
      (λ delegator.
        flat_map
          (λ persona.
            flat_map
              (λ from.
                map
                  (λ until. record {
                    d = d;
                    row_delegator = delegator;
                    row_persona = persona;
                    from = from;
                    until = until;
                  })
                  (objects g d (holon "validUntil")))
              (objects g d (holon "validFrom")))
          (objects g d (holon "delegatedPersona")))
      (objects g d (holon "delegator"))

-- `?d a holon:Delegation ; holon:delegate <delegate> ; holon:delegatedPermission "permission"`
abbrev pub grants_to : Graph → String → String → String → Bool
grants_to g delegate permission d =
    ask g d (holon "delegate") (iri delegate)
    && ask g d (holon "delegatedPermission") (lit permission)

unfoldable pub candidates : Graph → String → String → List Row
candidates g delegate permission =
    flat_map (rows_of g)
      (select (grants_to g delegate permission) (subjects g rdf_type (iri (holon "Delegation"))))

-- `valid_from <= now < valid_until`, where both parse
abbrev within : ℕ → Option ℕ → Option ℕ → Bool
within now (some start) (some end) = leb start now && ltb now end
within now none _ = false
within now (some start) none = false

unfoldable pub in_window : Clock → ℕ → Row → Bool
in_window clock now row =
    within now (parse_dt clock (value row.from)) (parse_dt clock (value row.until))

abbrev is_or_unset : Option String → String → Bool
is_or_unset none s = true
is_or_unset (some wanted) s = s == wanted

abbrev covers : Graph → String → Option String → Bool
covers g d none = true
covers g d (some target) = ask g d (holon "delegatedGraph") (iri target)

-- The tests of the loop body, each of which may `continue`.
unfoldable pub is_live : Clock → ℕ → Graph → Option String → Option String → Row → Bool
is_live clock now g target delegator row =
    let row_delegator = value row.row_delegator in
    in_window clock now row
    && (is_or_unset delegator row_delegator
        && (not (ask_any g row.d (holon "revokedAt"))
            && (ask g row_delegator rdf_type (iri (holon "Person"))
                && (not (ask g row_delegator (holon "status") (lit "inactive"))
                    && covers g row.d target))))

abbrev pub to_match : Row → DelegationMatch
to_match row = record {
  delegation = row.d;
  delegator = value row.row_delegator;
  persona = value row.row_persona;
}

abbrev safe_option : Option String → Checked (Option String)
safe_option none = ok none
safe_option (some s) = do t ← safe_iri s; ok (some t)

-- The matches of all candidate rows, sorted by delegation.
unfoldable pub live_matches :
    Clock → ℕ → Graph → String → String → Option String → Option String → List DelegationMatch
live_matches clock now g delegate permission target delegator =
    sort_on (λ m. m.delegation)
      (map to_match
        (select (is_live clock now g target delegator) (candidates g delegate permission)))

unfoldable pub find_delegation :
    Clock
    → ℕ
    → Graph
    → (holons_graph delegate permission : String) → (target delegator : Option String)
    → Checked (List DelegationMatch)
find_delegation clock now g holons_graph delegate permission target delegator = do
  require (contains permission permissions_allowed) unknown_permission
  graph_iri ← safe_iri holons_graph
  who ← safe_iri delegate
  target_iri ← safe_option target
  delegator_iri ← safe_option delegator
  ok (live_matches clock now g who permission target_iri delegator_iri)
