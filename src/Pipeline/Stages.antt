-- ===== src/Pipeline/Stages.antt =====
-- What one stage of a pipeline does (holonbridge/pipeline.py), over the services that it calls.
pub mod Slots
use holon_bridge_python.Prelude.{
  String, ℕ, Bool, true, false, Option, none, some, List, [], ◌∷◌, ◌++◌, map, ◌==◌, ◌&&◌, ◌||◌, not,
  if◌then◌else◌, given, find, contains, select, Result, err, ok, length,
}
use holon_bridge_python.Prelude.Text.{strip}
use holon_bridge_python.Pipeline.Model.{PipelineNode}

-- `STAGE_STATUSES`
pub data StageStatus : Type 0 where
  pending running completed failed deferred skipped : StageStatus

abbrev pub is_failed : StageStatus → Bool
is_failed failed = true
is_failed _ = false

-- What goes wrong within a stage; the services' own exceptions come with their text.
pub data StageError : Type 0 where
  no_rule no_rule_to_read no_agent no_task no_person no_target : StageError
  unknown_rule unknown_agent unknown_query unknown_hook : String → StageError
  violations : ℕ → StageError
  delivery_failed raised : String → StageError

-- A record's `detail`, by what it reports.
pub data Detail : Type 0 where
  no_detail source_node no_hook not_executed no_transformer prompt_rendered graph_empty conforms :
      Detail
  unknown_transformer call_placed context_read : String → Detail
  rule_ran : String → ℕ → ℕ → Detail
  violation_count : ℕ → Detail
  delivered : String → ℕ → ℕ → Detail
  failure : StageError → Detail

pub record StageRecord : Type 0 where
  pub name : String
  pub transformer : String
  pub status : StageStatus
  pub detail : Detail
  pub triples_written : ℕ
  pub order : ℕ
  pub result : String

-- One of a run's `params`: its key, and `str` of its value.
pub record Param : Type 0 where
  pub key : String
  pub text : String

-- `dumped` is `json.dumps(params, default=str)`.
pub record Params : Type 0 where
  pub items : List Param
  pub dumped : String

abbrev pub param_at : List Param → String → Option Param
param_at items key = find (λ p. p.key == key) items

-- `_stringify_input`
unfoldable pub stringify_input : Params → String
stringify_input ps = elim ps.items [
  | [] ↦ ""
  | _ ∷ _ ↦ elim (param_at ps.items "input") [ some p ↦ p.text | none ↦ ps.dumped ]
]

-- `_extra_param_slots`
unfoldable pub extra_param_slots : Params → List Param
extra_param_slots ps = select (λ p. not (p.key == "input")) ps.items

-- `{"input": …, "context": …, **extra}`: a later entry of the same key replaces the value.
set_slot : List Param → Param → List Param
set_slot [] p = p ∷ []
set_slot (s ∷ slots) p =
    let rest = set_slot slots p in if s.key == p.key then p ∷ slots else s ∷ rest

set_slots : List Param → List Param → List Param
unfolding set_slot
set_slots slots [] = slots
set_slots slots (p ∷ ps) = set_slots (set_slot slots p) ps

unfoldable pub prompt_slots : Params → String → List Param
unfolding set_slots stringify_input extra_param_slots
prompt_slots ps context =
    set_slots
      ((record { key = "input"; text = stringify_input ps })
        ∷ (record { key = "context"; text = context })
        ∷ [])
      (extra_param_slots ps)

-- A context-only stage's IRI, and what it read.
pub record Context : Type 0 where
  pub iri : String
  pub text : String

abbrev pub context_at : List Context → String → Option Context
context_at contexts iri = find (λ c. c.iri == iri) contexts

has_context : List Context → String → Bool
has_context contexts iri = elim (context_at contexts iri) [ some _ ↦ true | none ↦ false ]

context_text : Option Context → String
context_text none = ""
context_text (some c) = c.text

one_context : List Context → List String → String
unfolding context_text
one_context contexts [] = ""
one_context contexts (d ∷ []) = context_text (context_at contexts d)
one_context contexts (d ∷ e ∷ more) = ""

-- `_context_slot`: the one context dependency's text.
unfoldable pub context_slot : PipelineNode → List Context → String
unfolding has_context one_context
context_slot node contexts = one_context contexts (select (has_context contexts) node.depends_on)

pub record NamedRule : Type 0 where
  pub id : String
  pub target_graph : String

pub record RuleRun : Type 0 where
  pub target_graph : String
  pub constructed : ℕ
  pub added : ℕ
  pub removed : ℕ

pub record Delivery : Type 0 where
  pub failed : Bool
  pub target : String
  pub additions : ℕ
  pub retractions : ℕ

pub record CallRequest : Type 0 where
  pub requested_by : String
  pub endpoint : String
  pub task : String
  pub context_query : Option String
  pub target_graph : Option String
  pub via_pipeline : String
  pub via_stage : String

-- The other components that a stage calls, over a world `W` that each call may change: an error is
-- the text of what the call raised.
pub record Services (W : Type 0) : Type 0 where
  -- `execute_named_rule`
  pub execute_rule : W → NamedRule → Params → W × Result String RuleRun
  -- `bind_rule` and the client's `construct`
  pub construct : W → NamedRule → Params → W × Result String String
  -- the client's `get_graph`
  pub get_graph : W → String → W × Result String String
  -- `validate_full` against the shapes, and how many violations it reports
  pub validate : W → String → String → W × Result String ℕ
  -- whether a projection hook has the id, and `ProjectionRunner.run` for it
  pub has_hook : W → String → W × Result String Bool
  pub deliver : W → String → W × Result String Delivery
  -- whether an agent endpoint or a named query has the id, and `request_call`
  pub has_endpoint : W → String → W × Result String Bool
  pub has_query : W → String → W × Result String Bool
  pub request_call : W → CallRequest → W × Result String String
  -- `render_template`
  pub render : String → List Param → String

-- What a stage leaves: the record as far as it was filled in, the exception, and what it read.
pub record Ran (W : Type 0) : Type 0 where
  pub world : W
  pub filled : StageRecord
  pub failure : Option StageError
  pub context : Option String

abbrev pub done : {W : Type 0} → W → StageRecord → Ran W
done w r = record { world = w; filled = r; failure = none; context = none }

abbrev pub failing : {W : Type 0} → W → StageRecord → StageError → Ran W
failing w r e = record { world = w; filled = r; failure = some e; context = none }
