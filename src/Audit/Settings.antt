-- ===== src/Audit/Settings.antt =====
-- `set_level`, `suspend`, `resume` and `describe` of holonbridge/audit.py, on the stored configuration as
-- each update leaves it. Times are in seconds. A negative number of minutes is refused as 0 is.
pub mod Bounded
pub mod Interval
use holon_bridge_python.Prelude.{
  ℕ, zero, suc, ◌+◌, ◌*◌, String, List, [], ◌∷◌, Bool, true, false, ◌&&◌, not, Option, none, some,
  ◌==◌, Result, ok, err, ◌>>◌, if◌then◌else◌, leb, contains, require,
}
use holon_bridge_python.Prelude.Text.{strip}
use holon_bridge_python.Delegation.Request.{safe_iri}
use holon_bridge_python.Audit.Policy.{
  AuditLevel, off, denials, mutations, standard, other, Config, suspension_active, clear_suspension,
  level_for,
}

pub data SettingError : Type 0 where
  only_api_levels only_lower minutes_out_of_range no_reason : SettingError

unfoldable pub level_named : String → AuditLevel
level_named s =
    if s == "off"
    then off
    else if s == "denials"
    then denials
    else if s == "mutations"
    then mutations
    else if s == "standard"
    then standard
    else other

unfoldable pub api_levels : List String
api_levels = "mutations" ∷ "standard" ∷ []

unfoldable pub suspendable : List String
suspendable = "denials" ∷ "off" ∷ []

-- `MAX_SUSPEND_MINUTES`
unfoldable pub max_suspend_minutes : ℕ
max_suspend_minutes = 240

unfoldable pub set_level : String → Config → Result SettingError Config
unfolding api_levels
set_level level c =
    if level == "default"
    then ok (record c { api_level = none })
    else if contains level api_levels
    then ok (record c { api_level = some (level_named level) })
    else err only_api_levels

-- `(reason or "").strip()`
unfoldable pub reason_text : Option String → String
reason_text none = ""
reason_text (some s) = strip s

-- `s[:n]`
unfoldable pub first_chars : ℕ → String → String
first_chars zero s = ""
first_chars (suc n) String.[] = ""
first_chars (suc n) (String.◌∷◌ c s) = String.◌∷◌ c (first_chars n s)

-- `_iri`
unfoldable pub actor_iri : Option String → Option String
actor_iri none = none
actor_iri (some value) =
    if value == "" then none else elim (safe_iri value) [ ok i ↦ some i | err _ ↦ none ]

-- The stored configuration and the moment the suspension lapses.
unfoldable pub suspend :
    (now : ℕ) (level : String) (minutes : ℕ) (reason by : Option String)
    → Config
    → Result SettingError (Config × ℕ)
unfolding suspendable max_suspend_minutes
suspend now level minutes reason by c = do
  require (contains level suspendable) only_lower
  require (leb 1 minutes && leb minutes max_suspend_minutes) minutes_out_of_range
  require (not (reason_text reason == "")) no_reason
  ok (
    record c {
      suspended_to = some (level_named level);
      suspended_until = some (now + 60 * minutes);
      suspended_reason = some (first_chars 200 (reason_text reason));
      suspended_by = actor_iri by;
    },
    now + 60 * minutes,
  )

-- What was running, if anything was.
unfoldable pub resume : Config → Config × Option Config
resume c = elim c.suspended_to [ none ↦ (c, none) | some _ ↦ (clear_suspension c, some c) ]

pub record Suspension : Type 0 where
  pub level : Option AuditLevel
  pub until : Option ℕ
  pub reason : Option String
  pub by : Option String

pub record Description : Type 0 where
  pub effective : AuditLevel
  pub api_level : Option AuditLevel
  pub operator_level : AuditLevel
  pub suspension : Option Suspension

unfoldable pub running : Config → ℕ → Option Suspension
running c now =
    if suspension_active c now
    then some (record {
      level = c.suspended_to;
      until = c.suspended_until;
      reason = c.suspended_reason;
      by = c.suspended_by;
    })
    else none

unfoldable pub describe : AuditLevel → Config → ℕ → Config × Description
describe operator stored now =
    let looked = level_for operator stored now in
    (
      looked.0,
      record {
        effective = looked.1;
        api_level = (looked.0).api_level;
        operator_level = operator;
        suspension = running (looked.0) now;
      },
    )

-- A request that changes the settings or looks at them.
pub data Command : Type 0 where
  set_to : String → Command
  suspend_to : (now : ℕ) → (level : String) → (minutes : ℕ) → (reason by : Option String) → Command
  resume_early : Command
  look : (operator : AuditLevel) → (now : ℕ) → Command

-- A request that is refused changes nothing.
abbrev or_kept : Config → Result SettingError Config → Config
or_kept c (err _) = c
or_kept c (ok c') = c'

abbrev or_unsuspended : Config → Result SettingError (Config × ℕ) → Config
or_unsuspended c (err _) = c
or_unsuspended c (ok suspended) = suspended.0

unfoldable pub perform : Command → Config → Config
perform (set_to level) c = or_kept c (set_level level c)
perform (suspend_to now level minutes reason by) c =
    or_unsuspended c (suspend now level minutes reason by c)
perform resume_early c = (resume c).0
perform (look operator now) c = (level_for operator c now).0

unfoldable pub perform_all : List Command → Config → Config
perform_all [] c = c
perform_all (cmd ∷ rest) c = perform_all rest (perform cmd c)
