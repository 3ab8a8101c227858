-- ===== src/Pipeline/Order.antt =====
-- The order in which a manifest's stages run (`topological_order`, holonbridge/pipeline.py).
pub mod Graph
pub mod Flow
pub mod Reached
pub mod Sorted
pub mod Cycles
use holon_bridge_python.Prelude.{
  String, ℕ, zero, suc, ◌+◌, ◌-◌, Bool, true, false, Option, none, some, List, [], ◌∷◌, ◌++◌, map,
  ◌==◌, ◌&&◌, ◌||◌, not, if◌then◌else◌, eqb, ltb, contains, select, length, Result, err, ok,
}
use holon_bridge_python.Prelude.Sorting.{sort_by}
use holon_bridge_python.Prelude.Text.{text_lt}
use holon_bridge_python.Pipeline.Model.{ℤ, pos, negsuc, PipelineNode, Manifest, iris, node_at}

-- `dictionary[key] = value`
abbrev pub put {ℓ} : {A : Type ℓ} → String → A → (String → A) → String → A
put key value f other = if other == key then value else f other

-- The warning that a node depends on what the manifest does not define.
pub record Undefined : Type 0 where
  pub node : String
  pub dependency : String

-- The two dictionaries, which have a key for each node. A degree counts edges and is never
-- lowered below 0.
pub record Edges : Type 0 where
  pub indegree : String → ℕ
  pub dependents : String → List String
  pub undefined : List Undefined

no_edges : Edges
no_edges = record { indegree = λ _. 0; dependents = λ _. []; undefined = [] }

-- One dependency of a node.
add_dependency : List PipelineNode → PipelineNode → Edges → String → Edges
add_dependency nodes n g dependency =
    if contains dependency (iris nodes)
    then record g {
      indegree = put n.iri (g.indegree n.iri + 1) g.indegree;
      dependents = put dependency (g.dependents dependency ++ n.iri ∷ []) g.dependents;
    }
    else record g {
      undefined = g.undefined ++ (record { node = n.id; dependency = dependency }) ∷ [];
    }

add_dependencies : List PipelineNode → PipelineNode → Edges → List String → Edges
unfolding add_dependency
add_dependencies nodes n g [] = g
add_dependencies nodes n g (d ∷ ds) = add_dependencies nodes n (add_dependency nodes n g d) ds

add_nodes : List PipelineNode → Edges → List PipelineNode → Edges
unfolding add_dependencies
add_nodes nodes g [] = g
add_nodes nodes g (n ∷ ns) = add_nodes nodes (add_dependencies nodes n g n.depends_on) ns

unfoldable pub edges : List PipelineNode → Edges
unfolding add_nodes no_edges
edges nodes = add_nodes nodes no_edges nodes

int_lt : ℤ → ℤ → Bool
int_lt (negsuc a) (negsuc b) = ltb b a
int_lt (negsuc a) (pos b) = true
int_lt (pos a) (negsuc b) = false
int_lt (pos a) (pos b) = ltb a b

int_eq : ℤ → ℤ → Bool
int_eq (negsuc a) (negsuc b) = eqb a b
int_eq (negsuc a) (pos b) = false
int_eq (pos a) (negsuc b) = false
int_eq (pos a) (pos b) = eqb a b

-- `sort_key(a) < sort_key(b)`, the tuples compared from the left.
order_lt : Option ℤ → String → Option ℤ → String → Bool
unfolding int_lt int_eq
order_lt none x none y = text_lt x y
order_lt none x (some b) y = false
order_lt (some a) x none y = true
order_lt (some a) x (some b) y = int_lt a b || int_eq a b && text_lt x y

key_lt : Option PipelineNode → Option PipelineNode → Bool
unfolding order_lt
key_lt (some a) (some b) = order_lt a.order a.id b.order b.id
key_lt _ _ = false

unfoldable pub before : List PipelineNode → String → String → Bool
unfolding key_lt
before nodes a b = key_lt (node_at nodes a) (node_at nodes b)

pub record Queue : Type 0 where
  pub indegree : String → ℕ
  pub ready : List String
  pub ordered : List PipelineNode

unfoldable pub release : Queue → String → Queue
release q dependent =
    let left = q.indegree dependent - 1 in
    record q {
      indegree = put dependent left q.indegree;
      ready = if eqb left 0 then q.ready ++ dependent ∷ [] else q.ready;
    }

unfoldable pub release_all : Queue → List String → Queue
unfolding release
release_all q [] = q
release_all q (d ∷ ds) = release_all (release q d) ds

abbrev pub as_list : Option PipelineNode → List PipelineNode
as_list none = []
as_list (some n) = n ∷ []

-- One round of the loop, after `current` left the head of the queue. Every ready IRI is a node's.
unfoldable pub turn :
    List PipelineNode → (String → List String) → Queue → String → List String → Queue
unfolding release_all before
turn nodes dependents q current rest =
    let q' =
      release_all
        (record q { ready = rest; ordered = q.ordered ++ as_list (node_at nodes current) })
        (dependents current) in
    record q' { ready = sort_by (before nodes) q'.ready }

-- `while ready`, a round for each node at most: see `queue_empties`.
unfoldable pub loop : List PipelineNode → (String → List String) → ℕ → Queue → Queue
unfolding turn
loop nodes dependents zero q = q
loop nodes dependents (suc fuel) q = elim q.ready [
  | [] ↦ q
  | current ∷ rest ↦ loop nodes dependents fuel (turn nodes dependents q current rest)
]

unfoldable pub start : List PipelineNode → Queue
unfolding edges before
start nodes = record {
  indegree = (edges nodes).indegree;
  ready = sort_by (before nodes) (select (λ iri. eqb ((edges nodes).indegree iri) 0) (iris nodes));
  ordered = [];
}

unfoldable pub finish : List PipelineNode → Queue
unfolding loop start edges
finish nodes = loop nodes (edges nodes).dependents (length nodes) (start nodes)

-- The ids that the message about a cycle lists.
unfoldable pub cycle : List PipelineNode → (String → ℕ) → List String
cycle nodes indegree =
    sort_by text_lt (map (λ n. n.id) (select (λ n. ltb 0 (indegree n.iri)) nodes))

-- `PipelineError`
pub data PipelineError : Type 0 where
  dependency_cycle : List String → PipelineError

unfoldable pub topological_order : Manifest → Result PipelineError (List PipelineNode)
unfolding finish cycle
topological_order m =
    let q = finish m.nodes in
    if eqb (length q.ordered) (length m.nodes)
    then ok q.ordered
    else err (dependency_cycle (cycle m.nodes q.indegree))
