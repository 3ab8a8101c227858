-- ===== src/TriggerAuthz/Firing.antt =====
-- What a permitted firing may write.
use holon_bridge_python.Prelude.{
  String, Bool, true, false, Option, none, some, ◌≡◌, ◌≢◌, ok, refl, arith, contains, eq_iff,
}
use holon_bridge_python.Acl.{AclDecision, check_write, check_replace}
use holon_bridge_python.TriggerAuthz.{
  Access, Rule, wholesale_modes, require_grant, authorize_firing,
}

-- The check of the person's grant on the graph passes.
abbrev pub Writes : Access → (person graph : String) → Type 0
Writes a person graph =
    (d : AclDecision) × (check_write a.clock a.now a.g a.holons_graph person graph ≡ ok d)
    × (d.allowed ≡ true)

abbrev pub Replaces : Access → (person graph : String) → Type 0
Replaces a person graph =
    (d : AclDecision) × (check_replace a.g a.holons_graph person graph ≡ ok d) × (d.allowed ≡ true)

pub require_grant_write :
    (a : Access) (person graph : String)
    → require_grant a (some person) graph false ≡ ok tt
    → Writes a person graph
unfolding require_grant
require_grant_write a person graph h = ground arith

pub require_grant_replace :
    (a : Access) (person graph : String)
    → require_grant a (some person) graph true ≡ ok tt
    → Replaces a person graph
unfolding require_grant
require_grant_replace a person graph h = ground arith

pub firing_checks :
    (a : Access) (p : Option String) (rule : Rule)
    → authorize_firing a p rule false ≡ ok tt
    → (rule.target_graph ≢ "")
      × (require_grant a p rule.target_graph false ≡ ok tt)
      × ((contains (a.lower rule.write_mode) wholesale_modes ≡ true)
          → (require_grant a p rule.target_graph true ≡ ok tt))
unfolding authorize_firing
firing_checks a p rule h =
    (ground (arith, eq_iff rule.target_graph ""), ground arith, λ wholesale. ground arith)

nobody_refused :
    (a : Access) (graph : String) (replace : Bool) → require_grant a none graph replace ≡ ok tt → ⊥
unfolding require_grant
nobody_refused a graph replace h = cc

-- A firing that runs unreviewed and is permitted belongs to a resolved person who may write the rule's
-- target graph, which is named; where the rule's mode reconciles the whole graph (replace, sync or
-- supersede) that person holds the stricter replace grant too.
pub authorize_firing_unreviewed :
    (a : Access) (p : Option String) (rule : Rule)
    → authorize_firing a p rule false ≡ ok tt
    → (person : String) × (p ≡ some person)
      × (rule.target_graph ≢ "")
      × Writes a person rule.target_graph
      × ((contains (a.lower rule.write_mode) wholesale_modes ≡ true)
          → Replaces a person rule.target_graph)
authorize_firing_unreviewed a none rule h =
    let (_, writes, _) = firing_checks a none rule h in
    absurd (nobody_refused a rule.target_graph false writes)
authorize_firing_unreviewed a (some person) rule h =
    let (named, writes, replaces) = firing_checks a (some person) rule h in
    (
      person,
      refl,
      named,
      require_grant_write a person rule.target_graph writes,
      λ wholesale. require_grant_replace a person rule.target_graph (replaces wholesale),
    )
