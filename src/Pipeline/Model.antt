-- ===== src/Pipeline/Model.antt =====
-- The stages of a pipeline manifest, and what is said of a manifest when it is loaded
-- (holonbridge/pipeline.py).
use holon_bridge_python.Prelude.{
  String, ℕ, Bool, Option, none, some, List, [], ◌∷◌, map, ◌==◌, ◌&&◌, not, if◌then◌else◌, given,
  find, flat_map,
}

-- Python's `int`; `negsuc n` is -(n + 1).
pub data ℤ : Type 0 where
  pos : ℕ → ℤ
  negsuc : ℕ → ℤ

-- `NODE_KINDS`; a load falls back on a stage.
pub data NodeKind : Type 0 where
  target stage source : NodeKind

pub record PipelineNode : Type 0 where
  pub iri : String
  pub id : String
  pub kind : NodeKind
  pub label : String
  pub transformer : String
  pub input_type : String
  pub output_type : String
  pub order : Option ℤ
  pub rule : String
  pub shapes : String
  pub projection : String
  pub target_graph : String
  pub depends_on : List String
  pub prompt_text : String
  pub context_only : Bool
  pub agent : String
  pub agent_context : String

-- `nodes` is the dictionary's values in insertion order; each stands under its own `iri`.
pub record Manifest : Type 0 where
  pub id : String
  pub graph : String
  pub nodes : List PipelineNode
  pub warnings : List String

abbrev pub iris : List PipelineNode → List String
iris = map (λ n. n.iri)

-- `nodes.get(iri)`
abbrev pub node_at : List PipelineNode → String → Option PipelineNode
node_at nodes iri = find (λ n. iri == n.iri) nodes

unfoldable pub by_id : Manifest → String → Option PipelineNode
by_id m node_id = find (λ n. n.id == node_id) m.nodes

abbrev pub executable : List String
executable = "sparql" ∷ "rule" ∷ "shacl" ∷ "validate" ∷ "projection" ∷ "external" ∷ "agent" ∷ []

abbrev pub deferred : List String
deferred = "llm" ∷ "human" ∷ "composite" ∷ "xslt" ∷ []

-- The stage, the producer, and what the stage expects and the producer gives.
pub record Mismatch : Type 0 where
  pub node : String
  pub expects : String
  pub producer : String
  pub produces : String

mismatch_with : PipelineNode → Option PipelineNode → List Mismatch
mismatch_with node none = []
mismatch_with node (some producer) =
    if given producer.output_type && not (producer.output_type == node.input_type)
    then record {
      node = node.id;
      expects = node.input_type;
      producer = producer.id;
      produces = producer.output_type;
    }
      ∷ []
    else []

-- The texts of the warnings are these facts in words.
unfoldable pub type_mismatches : Manifest → List Mismatch
unfolding mismatch_with
type_mismatches m =
    flat_map
      (λ node.
        if given node.input_type
        then flat_map (λ dependency. mismatch_with node (node_at m.nodes dependency))
            node.depends_on
        else [])
      m.nodes
