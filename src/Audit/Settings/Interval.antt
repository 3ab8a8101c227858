-- ===== src/Audit/Settings/Interval.antt =====
-- The audit settings as an administrator means them: a suspension is an interval of time.
use holon_bridge_python.Prelude.{
  ℕ, ◌+◌, ◌*◌, String, List, [], ◌∷◌, Bool, true, false, ◌&&◌, ◌||◌, not, Option, none, some, ◌==◌,
  ◌≡◌, ◌⊎◌, inl, refl, if◌then◌else◌, leb, ltb, all, arith, ap, eq_iff, &&-true,
}
use holon_bridge_python.Audit.Policy.{
  AuditLevel, off, denials, mutations, standard, Config, suspension_active, level_for, or_operator,
  is_level,
}
use holon_bridge_python.Audit.Settings.{
  Command, set_to, suspend_to, resume_early, look, perform, perform_all, set_level, suspend, resume,
  level_named, reason_text, api_levels, suspendable, max_suspend_minutes,
}

-- The level set through the API, and the last accepted suspension that nobody has ended, running or not.
pub record Setting : Type 0 where
  pub level_set : Option AuditLevel
  pub window : Option (AuditLevel × ℕ)

-- The level in force at a time.
unfoldable pub in_force : AuditLevel → Setting → ℕ → AuditLevel
in_force operator s now = elim s.window [
  | none ↦ or_operator s.level_set operator
  | some w ↦ if ltb now w.1 then w.0 else or_operator s.level_set operator
]

unfoldable pub acceptable : String → ℕ → Option String → Bool
acceptable level minutes reason =
    (level == "denials" || level == "off")
    && (leb 1 minutes && leb minutes 240)
    && not (reason_text reason == "")

-- Looking changes nothing.
unfoldable pub intend : Command → Setting → Setting
intend (set_to level) s =
    if level == "default"
    then record s { level_set = none }
    else if level == "mutations"
    then record s { level_set = some mutations }
    else if level == "standard"
    then record s { level_set = some standard }
    else s
intend (suspend_to now level minutes reason by) s =
    if acceptable level minutes reason
    then record s { window = some (if level == "off" then off else denials, now + 60 * minutes) }
    else s
intend resume_early s = record s { window = none }
intend (look operator now) s = s

unfoldable pub intend_all : List Command → Setting → Setting
intend_all [] s = s
intend_all (cmd ∷ rest) s = intend_all rest (intend cmd s)

abbrev pub unset : Setting
unset = record { level_set = none; window = none }

abbrev pub unconfigured : Config
unconfigured = record {
  api_level = none;
  suspended_to = none;
  suspended_until = none;
  suspended_reason = none;
  suspended_by = none;
}

-- No look is later than the time.
abbrev pub looks_by : ℕ → Command → Bool
looks_by now (look operator t) = leb t now
looks_by now _ = true

abbrev level_part : Option (AuditLevel × ℕ) → Option AuditLevel
level_part none = none
level_part (some w) = some w.0

abbrev end_part : Option (AuditLevel × ℕ) → Option ℕ
end_part none = none
end_part (some w) = some w.1

abbrev has_level : Option (AuditLevel × ℕ) → Bool
has_level none = true
has_level (some w) = is_level w.0

abbrev is_over : ℕ → Option (AuditLevel × ℕ) → Bool
is_over now none = false
is_over now (some w) = leb w.1 now

-- The store has the suspension, or it was cleared after its end.
abbrev Agrees : ℕ → Config → Setting → Type 0
Agrees now c s =
    (c.api_level ≡ s.level_set)
    × ((c.suspended_to ≡ level_part s.window)
          × (c.suspended_until ≡ end_part s.window)
          × (has_level s.window ≡ true)
        ⊎ (c.suspended_to ≡ none) × (c.suspended_until ≡ none) × (is_over now s.window ≡ true))

in_force-Agrees :
    (operator : AuditLevel) (now : ℕ) (c : Config) (s : Setting)
    → Agrees now c s
    → (level_for operator c now).1 ≡ in_force operator s now
unfolding level_for suspension_active in_force
in_force-Agrees operator now c s h = ground arith

named : (s t : String) → (s == t) ≡ true → level_named s ≡ level_named t
named s t h = ap level_named ((eq_iff s t).0 h)

set_level-Agrees :
    (now : ℕ) (level : String) (c : Config) (s : Setting)
    → Agrees now c s
    → Agrees now (perform (set_to level) c) (intend (set_to level) s)
unfolding perform intend set_level api_levels level_named
set_level-Agrees now level c s h =
    let as_mutations = named level "mutations" in
    let as_standard = named level "standard" in ground arith

suspend-Agrees :
    (now begin : ℕ) (level : String) (minutes : ℕ) (reason by : Option String) (c : Config)
    (s : Setting)
    → Agrees now c s
    → Agrees now
        (perform (suspend_to begin level minutes reason by) c)
        (intend (suspend_to begin level minutes reason by) s)
unfolding perform intend suspend acceptable suspendable max_suspend_minutes level_named
suspend-Agrees now begin level minutes reason by c s h =
    let as_denials = named level "denials" in let as_off = named level "off" in ground arith

perform-Agrees :
    (now : ℕ) (cmd : Command) (c : Config) (s : Setting)
    → looks_by now cmd ≡ true
    → Agrees now c s
    → Agrees now (perform cmd c) (intend cmd s)
unfolding perform intend resume level_for
perform-Agrees now (set_to level) c s early h = set_level-Agrees now level c s h
perform-Agrees now (suspend_to begin level minutes reason by) c s early h =
    suspend-Agrees now begin level minutes reason by c s h
perform-Agrees now resume_early c s early h = ground arith
perform-Agrees now (look operator t) c s early h = ground arith

perform_all-Agrees :
    (now : ℕ) (cmds : List Command) (c : Config) (s : Setting)
    → all (looks_by now) cmds ≡ true
    → Agrees now c s
    → Agrees now (perform_all cmds c) (intend_all cmds s)
unfolding perform_all intend_all
perform_all-Agrees now [] c s early h = h
perform_all-Agrees now (cmd ∷ rest) c s early h =
    let (first, others) = &&-true (looks_by now cmd) (all (looks_by now) rest) early in
    perform_all-Agrees now rest (perform cmd c) (intend cmd s) others
      (perform-Agrees now cmd c s first h)

-- The stored settings, with their lazy end of suspensions, are the intended ones: after any requests the
-- level found at a time is the one the suspension's interval gives, if none looked later than that.
pub settings-intended :
    (operator : AuditLevel) (now : ℕ) (cmds : List Command)
    → all (looks_by now) cmds ≡ true
    → (level_for operator (perform_all cmds unconfigured) now).1
      ≡ in_force operator (intend_all cmds unset) now
settings-intended operator now cmds early =
    in_force-Agrees operator now (perform_all cmds unconfigured) (intend_all cmds unset)
      (perform_all-Agrees now cmds unconfigured unset early (refl, inl (refl, refl, refl)))
