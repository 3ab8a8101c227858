-- ===== src/TriggerAuthz/Definition/Sound.antt =====
-- What a person can do whose definition of a trigger is accepted.
use holon_bridge_python.Prelude.{
  String, List, Bool, true, false, Option, none, some, ◌≡◌, ◌≢◌, ◌⊎◌, inl, inr, refl, ok, arith,
  contains, eq_iff, Option-cases, Bool-cases, Result-cases,
}
use holon_bridge_python.Acl.{is_admin}
use holon_bridge_python.Acl.Algebra.{Node}
use holon_bridge_python.Acl.Authorize.{GateDecision}
use holon_bridge_python.Acl.Authorize.Update.{Names, IsUnderstood}
use holon_bridge_python.Acl.Authorize.Query.{IsReadable, authorize_query-IsReadable}
use holon_bridge_python.TriggerAuthz.{
  Access, Rule, wholesale_modes, authorize_reads, authorize_firing, query_verdict, require_grant,
}
use holon_bridge_python.TriggerAuthz.Firing.{
  Writes, Replaces, require_grant_write, require_grant_replace, firing_checks,
}
use holon_bridge_python.TriggerAuthz.Definition.{
  Language, Definition, Warning, bound, authorize_definition,
}

-- An admin reads a text, or a person to whom each position for a graph in it is readable, if the gate
-- understands it.
abbrev pub Reads : Access → (person text : String) → Type 0
Reads a person text =
    (is_admin a.g a.holons_graph person ≡ ok true)
    ⊎ IsUnderstood a.parser text
      × ((wholesale : Bool) (place : Node)
          → Names a.parser text wholesale place
          → IsReadable a.clock a.now a.g a.holons_graph a.persona_of_graph a.private_slug person
              place)

reads_cases :
    (a : Access) (person text : String)
    → authorize_reads a (some person) text ≡ ok tt
    → (is_admin a.g a.holons_graph person ≡ ok true)
      ⊎ ((d : GateDecision) × (query_verdict a person text ≡ ok d) × (d.allowed ≡ true))
unfolding authorize_reads
reads_cases a person text h = elim (Result-cases (is_admin a.g a.holons_graph person)) [
  | inl (e, failed) ↦ cc
  | inr (admin, known) ↦ elim (Result-cases (query_verdict a person text)) [
    | inl (e, failed) ↦ inl (ground arith)
    | inr (d, verdict) ↦ elim (Bool-cases d.allowed) [
      | inl allowed ↦ inr (d, verdict, allowed)
      | inr refused ↦ inl (ground arith)
    ]
  ]
]

authorize_reads-Reads :
    (a : Access) (person text : String)
    → authorize_reads a (some person) text ≡ ok tt
    → Reads a person text
authorize_reads-Reads a person text h = elim (reads_cases a person text h) [
  | inl admin ↦ inl admin
  | inr (d, verdict, allowed) ↦ inr (
      authorize_query-IsReadable a.clock a.now a.g a.holons_graph a.persona_of_graph a.private_slug
        person a.parser text d verdict allowed)
]

definition_checks :
    (a : Access) (l : Language) (p : Option String) (d : Definition) (review : Bool)
    (ws : List Warning)
    → authorize_definition a l p d review ≡ ok ws
    → (person : String) × (condition : String) × (rule : String) × (p ≡ some person)
      × (d.condition_text ≡ some condition)
      × (d.rule_text ≡ some rule)
      × (l.form condition ≡ "SELECT")
      × (authorize_reads a (some person) condition ≡ ok tt)
      × (authorize_reads a (some person) rule ≡ ok tt)
      × (authorize_firing a (some person) d.rule review ≡ ok tt)
unfolding authorize_definition bound
definition_checks a l none d review ws h = cc
definition_checks a l (some person) d review ws h = elim (Option-cases d.condition_text) [
  | inl unbound ↦ ground arith
  | inr (condition, bound_condition) ↦ elim (Option-cases d.rule_text) [
    | inl unbound ↦ ground arith
    | inr (rule, bound_rule) ↦ (
      person,
      condition,
      rule,
      refl,
      bound_condition,
      bound_rule,
      (eq_iff (l.form condition) "SELECT").0 (ground arith),
      ground arith,
      ground arith,
      ground arith,
    )
  ]
]

-- The person may write where a firing writes: the candidates if it is reviewed, else the rule's named
-- target graph, with the replace grant if its mode reconciles the whole graph.
abbrev pub MayFire : Access → (person : String) → Rule → (review_required : Bool) → Type 0
MayFire a person rule review_required =
    (review_required ≡ true) × Writes a person (a.graph_of "candidates")
    ⊎ (review_required ≡ false)
      × (rule.target_graph ≢ "")
      × Writes a person rule.target_graph
      × ((contains (a.lower rule.write_mode) wholesale_modes ≡ false)
          ⊎ Replaces a person rule.target_graph)

reviewed_grant :
    (a : Access) (p : Option String) (rule : Rule)
    → authorize_firing a p rule true ≡ ok tt
    → require_grant a p (a.graph_of "candidates") false ≡ ok tt
unfolding authorize_firing
reviewed_grant a p rule h = h

authorize_firing-MayFire :
    (a : Access) (person : String) (rule : Rule) (review_required : Bool)
    → authorize_firing a (some person) rule review_required ≡ ok tt
    → MayFire a person rule review_required
authorize_firing-MayFire a person rule true h =
    let grant = reviewed_grant a (some person) rule h in
    inl (refl, require_grant_write a person (a.graph_of "candidates") grant)
authorize_firing-MayFire a person rule false h =
    let (named, writes, replaces) = firing_checks a (some person) rule h in
    let write = require_grant_write a person rule.target_graph writes in
    elim (Bool-cases (contains (a.lower rule.write_mode) wholesale_modes)) [
      | inl wholesale ↦
          let replace = require_grant_replace a person rule.target_graph (replaces wholesale) in
          inr (refl, named, write, inr replace)
      | inr partial ↦ inr (refl, named, write, inl partial)
    ]

-- An accepted definition gives a trigger no more than its definer has: the definer is resolved, the bound
-- condition is a SELECT, the definer is an admin or the bound texts of the condition and of the rule are
-- understood by the gate and each position for a graph in them is readable to the definer, and the definer may write where a firing writes.
pub authorize_definition-MayFire :
    (a : Access) (l : Language) (p : Option String) (d : Definition) (review_required : Bool)
    (ws : List Warning)
    → authorize_definition a l p d review_required ≡ ok ws
    → (person : String) × (condition : String) × (rule : String) × (p ≡ some person)
      × (d.condition_text ≡ some condition)
      × (d.rule_text ≡ some rule)
      × (l.form condition ≡ "SELECT")
      × Reads a person condition
      × Reads a person rule
      × MayFire a person d.rule review_required
authorize_definition-MayFire a l p d review_required ws h =
    let (person, condition, rule, who, c, r, select, reads, reads', fires) =
      definition_checks a l p d review_required ws h in
    (
      person,
      condition,
      rule,
      who,
      c,
      r,
      select,
      authorize_reads-Reads a person condition reads,
      authorize_reads-Reads a person rule reads',
      authorize_firing-MayFire a person d.rule review_required fires,
    )
