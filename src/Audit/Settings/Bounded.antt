-- ===== src/Audit/Settings/Bounded.antt =====
-- What can lower the audit level below the operator's: an accepted suspension, for its minutes.
use holon_bridge_python.Prelude.{
  ℕ, ◌+◌, ◌*◌, ◌≤◌, ◌<◌, String, List, [], ◌∷◌, Bool, true, false, Option, none, some, ◌==◌, ◌≡◌,
  ◌≢◌, ◌⊎◌, inl, inr, refl, if◌then◌else◌, leb, all, arith, In, eq_iff, Option-cases,
}
use holon_bridge_python.Audit.Policy.{AuditLevel, off, denials, mutations, level_for, rank}
use holon_bridge_python.Audit.Settings.{
  Command, set_to, suspend_to, resume_early, look, perform_all, reason_text,
}
use holon_bridge_python.Audit.Settings.Interval.{
  Setting, in_force, acceptable, intend, intend_all, unset, unconfigured, looks_by,
  settings-intended,
}

-- An accepted request to suspend among the commands, with that level and end.
abbrev Requested : AuditLevel → ℕ → List Command → Type 0
Requested found until cmds =
    (begin : ℕ) × (level : String) × (minutes : ℕ) × (reason : Option String) × (by : Option String)
    × In (suspend_to begin level minutes reason by) cmds
    × (acceptable level minutes reason ≡ true)
    × (found ≡ (if level == "off" then off else denials))
    × (until ≡ begin + 60 * minutes)

Requested-later :
    (found : AuditLevel) (until : ℕ) (cmd : Command) (cmds : List Command)
    → Requested found until cmds
    → Requested found until (cmd ∷ cmds)
Requested-later found until cmd cmds
      (begin, level, minutes, reason, by, there, took, lowered, ended) =
    (begin, level, minutes, reason, by, inr there, took, lowered, ended)

-- A request to suspend that gave the window was accepted.
suspend-window :
    (begin : ℕ) (level : String) (minutes : ℕ) (reason by : Option String) (s : Setting)
    (found : AuditLevel) (until : ℕ)
    → (intend (suspend_to begin level minutes reason by) s).window ≡ some (found, until)
    → (s.window ≡ some (found, until))
      ⊎ (acceptable level minutes reason ≡ true)
        × (found ≡ (if level == "off" then off else denials))
        × (until ≡ begin + 60 * minutes)
unfolding intend
suspend-window begin level minutes reason by s found until h = ground arith

-- Where the window of a setting comes from.
intend-window :
    (cmd : Command) (s : Setting) (found : AuditLevel) (until : ℕ)
    → (intend cmd s).window ≡ some (found, until)
    → (s.window ≡ some (found, until)) ⊎ Requested found until (cmd ∷ [])
unfolding intend
intend-window (set_to level) s found until h = inl (ground arith)
intend-window (suspend_to begin level minutes reason by) s found until h =
    elim (suspend-window begin level minutes reason by s found until h) [
      | inl kept ↦ inl kept
      | inr (took, lowered, ended) ↦
          inr (begin, level, minutes, reason, by, inl refl, took, lowered, ended)
    ]
intend-window resume_early s found until h = ground arith
intend-window (look operator t) s found until h = inl h

Requested-first :
    (found : AuditLevel) (until : ℕ) (cmd : Command) (cmds : List Command)
    → Requested found until (cmd ∷ [])
    → Requested found until (cmd ∷ cmds)
Requested-first found until cmd cmds
      (begin, level, minutes, reason, by, inl here, took, lowered, ended) =
    (begin, level, minutes, reason, by, inl here, took, lowered, ended)
Requested-first found until cmd cmds
      (begin, level, minutes, reason, by, inr none_there, took, lowered, ended) =
    absurd none_there

intend_all-window :
    (cmds : List Command) (s : Setting) (found : AuditLevel) (until : ℕ)
    → (intend_all cmds s).window ≡ some (found, until)
    → (s.window ≡ some (found, until)) ⊎ Requested found until cmds
unfolding intend_all
intend_all-window [] s found until h = inl h
intend_all-window (cmd ∷ rest) s found until h =
    elim (intend_all-window rest (intend cmd s) found until h) [
      | inr later ↦ inr (Requested-later found until cmd rest later)
      | inl now ↦ elim (intend-window cmd s found until now) [
        | inl kept ↦ inl kept
        | inr first ↦ inr (Requested-first found until cmd rest first)
      ]
    ]

-- The level set through the API is none, or one that records every change.
abbrev is_loud : Option AuditLevel → Bool
is_loud none = true
is_loud (some level) = leb (rank mutations) (rank level)

intend-loud :
    (cmd : Command) (s : Setting)
    → is_loud s.level_set ≡ true
    → is_loud (intend cmd s).level_set ≡ true
unfolding intend
intend-loud cmd s h = ground arith

intend_all-loud :
    (cmds : List Command) (s : Setting)
    → is_loud s.level_set ≡ true
    → is_loud (intend_all cmds s).level_set ≡ true
unfolding intend_all
intend_all-loud [] s h = h
intend_all-loud (cmd ∷ rest) s h = intend_all-loud rest (intend cmd s) (intend-loud cmd s h)

-- A level in force that is lower than those is the operator's or the window's.
in_force-windowed :
    (operator : AuditLevel) (now : ℕ) (s : Setting)
    → is_loud s.level_set ≡ true
    → in_force operator s now ≢ operator
    → rank (in_force operator s now) < rank mutations
    → (until : ℕ) × (s.window ≡ some (in_force operator s now, until)) × (now < until)
unfolding in_force
in_force-windowed operator now s loud differs quiet = elim (Option-cases s.window) [
  | inl unsuspended ↦ ground arith
  | inr ((level, until), suspended) ↦ (until, ground arith, ground arith)
]

-- An accepted suspension whose minutes are not over.
abbrev pub Suspended : AuditLevel → ℕ → List Command → Type 0
Suspended found now cmds =
    (begin : ℕ) × (level : String) × (minutes : ℕ) × (reason : Option String) × (by : Option String)
    × In (suspend_to begin level minutes reason by) cmds
    × (found ≡ (if level == "off" then off else denials))
    × (1 ≤ minutes)
    × (minutes ≤ 240)
    × (reason_text reason ≢ "")
    × (now < begin + 60 * minutes)

acceptable-bounds :
    (level : String) (minutes : ℕ) (reason : Option String)
    → acceptable level minutes reason ≡ true
    → (1 ≤ minutes) × (minutes ≤ 240) × ((reason_text reason == "") ≡ false)
unfolding acceptable
acceptable-bounds level minutes reason h = ground arith

Requested-Suspended :
    (found : AuditLevel) (until now : ℕ) (cmds : List Command)
    → Requested found until cmds
    → now < until
    → Suspended found now cmds
Requested-Suspended found until now cmds
      (begin, level, minutes, reason, by, there, took, lowered, ended) before =
    let (least, most, filled) = acceptable-bounds level minutes reason took in
    (
      begin,
      level,
      minutes,
      reason,
      by,
      there,
      lowered,
      least,
      most,
      λ blank. let same = (eq_iff (reason_text reason) "").1 blank in cc,
      omega arith,
    )

intended-Suspended :
    (operator : AuditLevel) (now : ℕ) (cmds : List Command)
    → in_force operator (intend_all cmds unset) now ≢ operator
    → rank (in_force operator (intend_all cmds unset) now) < rank mutations
    → Suspended (in_force operator (intend_all cmds unset) now) now cmds
intended-Suspended operator now cmds differs quiet =
    let found = in_force operator (intend_all cmds unset) now in
    let loud = intend_all-loud cmds unset refl in
    let (until, window, before) =
      in_force-windowed operator now (intend_all cmds unset) loud differs quiet in
    elim (intend_all-window cmds unset found until window) [
      | inl never ↦ cc
      | inr requested ↦ Requested-Suspended found until now cmds requested before
    ]

-- After any requests, a level in force that is neither the operator's nor one that records every change
-- is that of an accepted request to suspend, made for 1 to 240 minutes with a reason that is not blank,
-- and those minutes are not over. It asks that no look is later than the time.
pub level_for-Suspended :
    (operator : AuditLevel) (now : ℕ) (cmds : List Command)
    → all (looks_by now) cmds ≡ true
    → (level_for operator (perform_all cmds unconfigured) now).1 ≢ operator
    → rank ((level_for operator (perform_all cmds unconfigured) now).1) < rank mutations
    → Suspended ((level_for operator (perform_all cmds unconfigured) now).1) now cmds
level_for-Suspended operator now cmds early =
    rw (settings-intended operator now cmds early) (intended-Suspended operator now cmds)
