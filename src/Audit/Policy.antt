-- ===== src/Audit/Policy.antt =====
-- `outcome_for`, `is_mutation`, `should_record`, `suspension_active` and `level_for` of
-- holonbridge/audit.py. `other` is a stored text that is none of the four levels.
use holon_bridge_python.Prelude.{
  ℕ, ◌≤◌, String, [], ◌∷◌, Bool, true, false, ◌&&◌, ◌||◌, not, Option, none, some, ◌==◌, ◌≡◌,
  if◌then◌else◌, contains, leb, ltb, eqb, arith,
}

pub data AuditLevel : Type 0 where
  off denials mutations standard other : AuditLevel

pub data Outcome : Type 0 where
  allowed denied error : Outcome

abbrev is_denied : Outcome → Bool
is_denied denied = true
is_denied _ = false

abbrev is_allowed : Outcome → Bool
is_allowed allowed = true
is_allowed _ = false

unfoldable pub outcome_for : ℕ → Option String → Outcome
outcome_for status_code route_path =
    if eqb status_code 401 || eqb status_code 403
    then denied
    else if elim route_path [
      | none ↦ false
      | some p ↦ p == "/admin/dataset/initialise" && eqb status_code 409
    ]
    then denied
    else if leb 500 status_code
    then error
    else allowed

-- `upper` is `str.upper`.
unfoldable pub is_mutation : (upper : String → String) → (method route_path : String) → Bool
is_mutation upper method route_path =
    contains (upper method) ("POST" ∷ "PUT" ∷ "PATCH" ∷ "DELETE" ∷ [])
    && not (contains route_path ("/sparql/select" ∷ "/sparql/construct" ∷ "/validate" ∷ []))

unfoldable pub should_record : AuditLevel → Outcome → (mutation security_read : Bool) → Bool
should_record off outcome mutation security_read = false
should_record other outcome mutation security_read = false
should_record denials outcome mutation security_read = is_denied outcome
should_record mutations outcome mutation security_read =
    if is_denied outcome then true else mutation
should_record standard outcome mutation security_read =
    if is_denied outcome
    then true
    else if mutation
    then true
    else security_read && is_allowed outcome

pub record Config : Type 0 where
  pub api_level : Option AuditLevel
  pub suspended_to : Option AuditLevel
  pub suspended_until : Option ℕ
  pub suspended_reason : Option String
  pub suspended_by : Option String

abbrev pub is_level : AuditLevel → Bool
is_level other = false
is_level _ = true

abbrev level_within : Option AuditLevel → Option ℕ → ℕ → Bool
level_within (some level) (some until) now = is_level level && ltb now until
level_within none _ now = false
level_within (some level) none now = false

unfoldable pub suspension_active : Config → ℕ → Bool
suspension_active c now = level_within c.suspended_to c.suspended_until now

abbrev pub or_operator : Option AuditLevel → AuditLevel → AuditLevel
or_operator none operator = operator
or_operator (some level) operator = level

abbrev suspended_level : Option AuditLevel → AuditLevel → AuditLevel
suspended_level none fallback = fallback
suspended_level (some level) fallback = level

-- `cfg.suspended_to and cfg.suspended_until and now >= cfg.suspended_until`
abbrev expired : Config → ℕ → Bool
expired c now = elim c.suspended_to [
  | none ↦ false
  | some _ ↦ elim c.suspended_until [ none ↦ false | some until ↦ leb until now ]
]

-- `_clear_suspension`
abbrev pub clear_suspension : Config → Config
clear_suspension c = record c {
  suspended_to = none;
  suspended_until = none;
  suspended_reason = none;
  suspended_by = none;
}

-- The stored configuration after the look, and the effective level. `operator` is the operator's.
unfoldable pub level_for : AuditLevel → Config → ℕ → Config × AuditLevel
unfolding suspension_active
level_for operator stored now =
    let cfg = if expired stored now then clear_suspension stored else stored in
    (
      cfg,
      if suspension_active cfg now
          then suspended_level cfg.suspended_to (or_operator cfg.api_level operator)
          else or_operator cfg.api_level operator,
    )

-- Least to most verbose.
abbrev pub rank : AuditLevel → ℕ
rank off = 0
rank other = 0
rank denials = 1
rank mutations = 2
rank standard = 3

-- A more verbose level records all that a less verbose one records.
pub should_record_mono :
    (quiet loud : AuditLevel) (outcome : Outcome) (mutation security_read : Bool)
    → rank quiet ≤ rank loud
    → should_record quiet outcome mutation security_read ≡ true
    → should_record loud outcome mutation security_read ≡ true
unfolding should_record
should_record_mono quiet loud outcome mutation security_read h k = ground arith

-- A suspension holds exactly until its end: before that its level is in force and the stored
-- configuration is kept, from then on the level set through the API or the operator's level is in
-- force and the suspension is cleared.
pub level_for_suspension :
    (operator level : AuditLevel) (api_level : Option AuditLevel) (reason by : Option String)
    (until now : ℕ)
    → is_level level ≡ true
    → level_for operator
        (record {
          api_level = api_level;
          suspended_to = some level;
          suspended_until = some until;
          suspended_reason = reason;
          suspended_by = by;
        })
        now
      ≡ (if ltb now until
          then (
            record {
              api_level = api_level;
              suspended_to = some level;
              suspended_until = some until;
              suspended_reason = reason;
              suspended_by = by;
            },
            level,
          )
          else (
            record {
              api_level = api_level;
              suspended_to = none;
              suspended_until = none;
              suspended_reason = none;
              suspended_by = none;
            },
            or_operator api_level operator,
          ))
unfolding level_for
level_for_suspension operator level api_level reason by until now h = ground arith
