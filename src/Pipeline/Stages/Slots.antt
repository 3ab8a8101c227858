-- ===== src/Pipeline/Stages/Slots.antt =====
-- The slots of a prompt (`_context_slot`, `_stringify_input`, `_extra_param_slots`,
-- holonbridge/pipeline.py).
use holon_bridge_python.Prelude.{
  String, true, false, Option, none, some, List, [], ◌∷◌, ◌≡◌, ◌≢◌, ◌==◌, not, if◌then◌else◌,
  select, find-eq-some, arith, Bool-cases, Option-cases, List-cases, refl, inl, inr, not-true, ◌⊎◌,
  ◌∙◌, In, In-select, sym, ap, eq_iff,
}
use mathlib.Core.Path.{subst}
use holon_bridge_python.Pipeline.Model.{PipelineNode}
use holon_bridge_python.Pipeline.Stages.{
  Context, Param, Params, context_slot, context_at, has_context, context_text, one_context,
  param_at, set_slot, set_slots, prompt_slots, stringify_input, extra_param_slots,
}

context_at-In :
    (contexts : List Context) (iri : String)
    → has_context contexts iri ≡ true
    → (c : Context) × In c contexts × (c.iri ≡ iri) × (context_at contexts iri ≡ some c)
unfolding has_context
context_at-In contexts iri h = elim (Option-cases (context_at contexts iri)) [
  | inl e ↦ ground (arith, e)
  | inr (c, e) ↦
      let (m, at) = find-eq-some (λ (x : Context). x.iri == iri) c contexts e in
      (c, m, (eq_iff c.iri iri).0 at, e)
]

slot-declared :
    (contexts : List Context) (chosen : List String)
    → ((d : String) → In d chosen → has_context contexts d ≡ true)
    → (one_context contexts chosen ≡ "")
      ⊎ ((c : Context) × In c contexts × In c.iri chosen × (one_context contexts chosen ≡ c.text))
unfolding one_context
slot-declared contexts [] h = inl refl
slot-declared contexts (d ∷ []) h =
    let (c, m, at, is) = context_at-In contexts d (h d (inl refl)) in
    inr (c, m, inl at, ap context_text is)
slot-declared contexts (d ∷ e ∷ more) h = inl refl

pub context_slot-declared :
    (node : PipelineNode) (contexts : List Context)
    → (context_slot node contexts ≡ "")
      ⊎ ((c : Context) × In c contexts
          × In c.iri node.depends_on
          × (context_slot node contexts ≡ c.text))
unfolding context_slot
context_slot-declared node contexts =
    let test = has_context contexts in
    elim (slot-declared contexts (select test node.depends_on)
      (λ d m. ((In-select test d node.depends_on).0 m).1)) [
        | inl e ↦ inl e
        | inr (c, m, chosen, e) ↦ inr (c, m, ((In-select test c.iri node.depends_on).0 chosen).0, e)
      ]

-- `dictionary[key] = value`, read back.
param_at-set_slot :
    (slots : List Param) (p : Param) (key : String)
    → param_at (set_slot slots p) key ≡ (if p.key == key then some p else param_at slots key)
unfolding set_slot
param_at-set_slot [] p key = refl
param_at-set_slot (s ∷ slots) p key =
    ground
      (arith, eq_iff s.key p.key, eq_iff s.key key, eq_iff p.key key, param_at-set_slot slots p key)

-- The value that the last of the entries of a key gives it.
last_at : List Param → String → Option Param → Option Param
last_at [] key found = found
last_at (p ∷ ps) key found = last_at ps key (if p.key == key then some p else found)

param_at-set_slots :
    (slots ps : List Param) (key : String)
    → param_at (set_slots slots ps) key ≡ last_at ps key (param_at slots key)
unfolding set_slots last_at
param_at-set_slots slots [] key = refl
param_at-set_slots slots (p ∷ ps) key =
    param_at-set_slots (set_slot slots p) ps key
    ∙ ap (last_at ps key) (param_at-set_slot slots p key)

last_at-none :
    (items : List Param) (key : String) (found : Option Param)
    → ((p : Param) → In p items → (p.key == key) ≡ false)
    → last_at items key found ≡ found
unfolding last_at
last_at-none [] key found h = refl
last_at-none (p ∷ ps) key found h =
    rw (h p (inl refl)) (last_at-none ps key found (λ q m. h q (inr m)))

-- Every entry of a list with the key is the one that was found.
last_at-same :
    (items : List Param) (p : Param)
    → ((q : Param) → In q items → q.key ≡ p.key → q ≡ p)
    → last_at items p.key (some p) ≡ some p
unfolding last_at
last_at-same [] p only = refl
last_at-same (q ∷ items) p only = elim (Bool-cases (q.key == p.key)) [
  | inr e ↦ rw e (last_at-same items p (λ k m. only k (inr m)))
  | inl e ↦ rw e (
      ap (λ k. last_at items p.key (some k)) (only q (inl refl) ((eq_iff q.key p.key).0 e))
      ∙ last_at-same items p (λ k m. only k (inr m)))
]

last_at-some :
    (items : List Param) (p : Param) (found : Option Param)
    → In p items
    → ((q : Param) → In q items → q.key ≡ p.key → q ≡ p)
    → last_at items p.key found ≡ some p
unfolding last_at
last_at-some [] p found m only = absurd m
last_at-some (q ∷ items) p found (inl e) only =
    let same = (eq_iff q.key p.key).1 (ap (λ (x : Param). x.key) (sym e)) in
    rw same (
      ap (λ k. last_at items p.key (some k)) (sym e) ∙ last_at-same items p (λ k m. only k (inr m)))
last_at-some (q ∷ items) p found (inr m) only =
    last_at-some items p (if q.key == p.key then some q else found) m (λ k n. only k (inr n))

-- What stands for the input: nothing without parameters, else the parameter of that name, else all.
abbrev pub IsInput : Params → String → Type 0
IsInput ps text =
    (ps.items ≡ []) × (text ≡ "")
    ⊎ ((p : Param) × (param_at ps.items "input" ≡ some p) × (text ≡ p.text))
    ⊎ (ps.items ≢ []) × (param_at ps.items "input" ≡ none) × (text ≡ ps.dumped)

stringify_input-IsInput : (ps : Params) → IsInput ps (stringify_input ps)
unfolding stringify_input
stringify_input-IsInput ps = elim (List-cases ps.items) [
  | inl e ↦ inl (e, rw e refl)
  | inr (first, rest, e) ↦ elim (Option-cases (param_at ps.items "input")) [
    | inr (p, found) ↦ inr (inl (p, found, ground (arith, e, found)))
    | inl missing ↦ inr (inr (λ z. cc, missing, ground (arith, e, missing)))
  ]
]

-- `input` is empty if there are no parameters, else the parameter of that name as a text, else all of the
-- parameters as JSON, whatever the other keys are; and `context` is what was read, if no parameter has that name, and otherwise that parameter.
pub prompt_slots-reserved :
    (ps : Params) (context : String)
    → (param_at (prompt_slots ps context) "input"
        ≡ some (record { key = "input"; text = stringify_input ps }))
      × IsInput ps (stringify_input ps)
      × (((p : Param) → In p ps.items → p.key ≢ "context")
          → param_at (prompt_slots ps context) "context"
            ≡ some (record { key = "context"; text = context }))
      × ((p : Param)
          → In p ps.items
          → p.key ≡ "context"
          → ((q : Param) → In q ps.items → q.key ≡ p.key → q ≡ p)
          → param_at (prompt_slots ps context) "context" ≡ some p)
unfolding prompt_slots extra_param_slots
prompt_slots-reserved ps context =
    let test = λ (p : Param). not (p.key == "input") in
    let slots : List Param =
      (record { key = "input"; text = stringify_input ps })
      ∷ (record { key = "context"; text = context })
      ∷ [] in
    let extra = select test ps.items in
    (
      param_at-set_slots slots extra "input"
          ∙ last_at-none extra "input" (param_at slots "input")
              (λ p m. not-true (p.key == "input") (((In-select test p ps.items).0 m).1)),
      stringify_input-IsInput ps,
      λ unused.
          param_at-set_slots slots extra "context"
          ∙ last_at-none extra "context" (param_at slots "context") (λ p m.
            let other = unused p ((In-select test p ps.items).0 m).0 in
            ground (arith, eq_iff p.key "context")),
      λ p m e only.
          let kept : test p ≡ true = rw e refl in
          let last =
            last_at-some extra p (param_at slots p.key) ((In-select test p ps.items).1 (m, kept))
              (λ q n. only q ((In-select test q ps.items).0 n).0) in
          param_at-set_slots slots extra "context"
          ∙ subst (λ k. last_at extra k (param_at slots k) ≡ some p) e last,
    )
