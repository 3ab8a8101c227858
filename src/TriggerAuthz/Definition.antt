-- ===== src/TriggerAuthz/Definition.antt =====
-- `authorize_definition` of holonbridge/trigger_authz.py: all that a trigger would do as the bridge,
-- checked against the person who defines it.
pub mod Sound
use holon_bridge_python.Prelude.{
  String, List, [], ◌∷◌, ◌++◌, Bool, true, false, ◌||◌, not, Option, none, some, ◌==◌, Result, ok,
  err, ◌>>=◌, ◌>>◌, require, if◌then◌else◌, contains,
}
use text.Mathlib.Text.{starts_with}
use holon_bridge_python.TriggerAuthz.{
  Access, Rule, TriggerDenied, unresolved_identity, condition_needs_parameters,
  condition_not_select, rule_not_bindable, rule_not_construct, authorize_reads, authorize_firing,
}

-- `form` of holonbridge/sparql_kind.py, and whether the pattern for LIMIT is found in a text
pub record Language : Type 0 where
  pub form : String → String
  pub has_limit : String → Bool

-- The condition and the rule with their parameters bound, `none` where that raises an error
-- (apply_query_params of holonbridge/params.py, bind_rule of holonbridge/named_rules.py).
pub record Definition : Type 0 where
  pub condition_text : Option String
  pub rule_text : Option String
  pub rule : Rule
  pub runnable : Bool

pub data Warning : Type 0 where
  never_mentions_focus carries_limit not_active : Warning

-- `needle in s`
unfoldable pub is_within : (needle s : String) → Bool
is_within needle String.[] = needle == ""
is_within needle (String.◌∷◌ c s) = starts_with (String.◌∷◌ c s) needle || is_within needle s

abbrev warn_if : Bool → Warning → List Warning
warn_if true warning = warning ∷ []
warn_if false warning = []

unfoldable pub warnings_of : Language → (condition : String) → (runnable : Bool) → List Warning
unfolding is_within
warnings_of l condition runnable =
    warn_if (not (is_within "?focus" condition || is_within "$focus" condition))
      never_mentions_focus
    ++ warn_if (l.has_limit condition) carries_limit
    ++ warn_if (not runnable) not_active

-- `bound_condition`, `bound_rule`
unfoldable pub bound : Option String → TriggerDenied → Result TriggerDenied String
bound none exception = err exception
bound (some text) exception = ok text

unfoldable pub authorize_definition :
    Access
    → Language
    → (person : Option String) → Definition
    → (review_required : Bool) → Result TriggerDenied (List Warning)
unfolding bound
authorize_definition a l none d review_required = err unresolved_identity
authorize_definition a l (some person) d review_required = do
  condition ← bound d.condition_text condition_needs_parameters
  require (l.form condition == "SELECT") condition_not_select
  rule ← bound d.rule_text rule_not_bindable
  require (contains (l.form rule) ("CONSTRUCT" ∷ "DESCRIBE" ∷ [])) rule_not_construct
  authorize_reads a (some person) condition
  authorize_reads a (some person) rule
  authorize_firing a (some person) d.rule review_required
  ok (warnings_of l condition d.runnable)
