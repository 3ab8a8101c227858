-- ===== src/Tests/Settings.antt =====
-- Runs of the audit settings.
use holon_bridge_python.Prelude.{◌<◌, List, [], ◌∷◌, none, some, ◌≡◌, ◌≢◌, refl, arith}
use holon_bridge_python.Prelude.Text.{strip}
use holon_bridge_python.Audit.Policy.{
  denials, mutations, standard, level_for, suspension_active, rank,
}
use holon_bridge_python.Audit.Settings.{
  Command, set_to, suspend_to, look, perform, perform_all, set_level, suspend, level_named,
  reason_text, api_levels, suspendable, max_suspend_minutes,
}
use holon_bridge_python.Audit.Settings.Interval.{
  in_force, intend_all, unset, unconfigured, settings-intended,
}
use holon_bridge_python.Audit.Settings.Bounded.{level_for-Suspended, Suspended}

-- Ten minutes of quiet while an import runs, with a level set meanwhile and looks at both sides of its end.
abbrev import_night : List Command
import_night =
    suspend_to 0 "denials" 10 (some " bulk import ") none
    ∷ look standard 5
    ∷ set_to "mutations"
    ∷ []

abbrev next_day : List Command
next_day =
    suspend_to 0 "denials" 10 (some " bulk import ") none
    ∷ set_to "mutations"
    ∷ look standard 700
    ∷ []

quiet_found : (level_for standard (perform_all import_night unconfigured) 100).1 ≡ denials
unfolding level_for suspension_active perform_all perform set_level suspend level_named reason_text
    api_levels suspendable max_suspend_minutes strip
quiet_found = refl

ended_found : (level_for standard (perform_all next_day unconfigured) 900).1 ≡ mutations
unfolding level_for suspension_active perform_all perform set_level suspend level_named reason_text
    api_levels suspendable max_suspend_minutes strip
ended_found = refl

settings-intended_example :
    (level_for standard (perform_all next_day unconfigured) 900).1
    ≡ in_force standard (intend_all next_day unset) 900
settings-intended_example = settings-intended standard 900 next_day refl

differs : denials ≢ standard
differs e = cc

lowered :
    ((level_for standard (perform_all import_night unconfigured) 100).1 ≢ standard)
    × (rank ((level_for standard (perform_all import_night unconfigured) 100).1) < rank mutations)
lowered = rw quiet_found (differs, omega arith)

level_for-Suspended_example :
    Suspended ((level_for standard (perform_all import_night unconfigured) 100).1) 100 import_night
level_for-Suspended_example = level_for-Suspended standard 100 import_night refl lowered.0 lowered.1
