-- ===== src/Plan/Graph.antt =====
-- plan/graph.go: the lineage graph of one driver. Its copies of nodes are identities on values.
-- The fields of an error are the arguments of its text.
use sparkcore_go.Plan.{
  partitioner_hash, dependency_shuffle, dependency_narrow, other_dependency, narrow_one_to_one,
  other_mapping, ShuffleDependencySpec, other_partitioner, NarrowDependencySpec, ShuffleId,
  NarrowMapping, RddId, Dependency, PartitionerSpec, PartitionerKind, DependencyKind, RddNode,
}
use sparkcore_go.Common.{
  int_eq, pos, int_leb, ◌==◌, if◌then◌else◌, inr, zero, nat_eq, inl, ◌∷◌, none, some, Option, suc,
  u64_inc, length, ℤ, ◌⊎◌, ℕ, [], List, String,
}
use sparkcore_go.Common.Dict.{lookup, insert, Dict}

pub data PartitionerError : Type 0 where
  unsupported_partitioner : String → PartitionerError
  invalid_count : ℤ → PartitionerError

pub data DependencyError : Type 0 where
  narrow_specification_only shuffle_specification_only : DependencyError
  unsupported_mapping unsupported_dependency : String → DependencyError
  shuffle_partitioner : PartitionerError → DependencyError

pub data ShapeError : Type 0 where
  invalid_partition_count : String → ℤ → ShapeError
  node_partitioner : String → PartitionerError → ShapeError
  partitioner_mismatch : String → ℤ → ℤ → ShapeError
  node_dependency : String → ℕ → DependencyError → ShapeError

pub record RddGraph : Type 0 where
  pub next_rdd_id : RddId
  pub next_shuffle_id : ShuffleId
  pub nodes : Dict RddId RddNode

abbrev pub new_rdd_graph : RddGraph
new_rdd_graph = record { next_rdd_id = 0; next_shuffle_id = 0; nodes = [] }

unfoldable pub new_shuffle_id : RddGraph → ShuffleId × RddGraph
new_shuffle_id g = (g.next_shuffle_id, record g { next_shuffle_id = u64_inc g.next_shuffle_id })

unfoldable pub validate_partitioner_kind : PartitionerKind → ℤ → Option PartitionerError
validate_partitioner_kind (other_partitioner k) n = some (unsupported_partitioner k)
validate_partitioner_kind partitioner_hash n =
    if int_leb n (pos 0) then some (invalid_count n) else none

unfoldable pub validate_partitioner : PartitionerSpec → Option PartitionerError
unfolding validate_partitioner_kind
validate_partitioner p = validate_partitioner_kind p.kind p.num_partitions

unfoldable pub validate_mapping : NarrowMapping → Option DependencyError
validate_mapping narrow_one_to_one = none
validate_mapping (other_mapping m) = some (unsupported_mapping m)

-- The switch on the kind, with the two pointers that it tests for nil.
unfoldable pub validate_dependency_kind :
    DependencyKind
    → Option NarrowDependencySpec
    → Option ShuffleDependencySpec
    → Option DependencyError
unfolding validate_mapping validate_partitioner
validate_dependency_kind dependency_narrow (some n) none = validate_mapping n.mapping
validate_dependency_kind dependency_narrow _ _ = some narrow_specification_only
validate_dependency_kind dependency_shuffle none (some s) =
    elim (validate_partitioner s.partitioner) [
      | none ↦ none
      | some e ↦ some (shuffle_partitioner e)
    ]
validate_dependency_kind dependency_shuffle _ _ = some shuffle_specification_only
validate_dependency_kind (other_dependency k) _ _ = some (unsupported_dependency k)

unfoldable pub validate_dependency_shape : Dependency → Option DependencyError
unfolding validate_dependency_kind
validate_dependency_shape d = validate_dependency_kind d.kind d.narrow d.shuffle

-- The loop over the dependencies, which it numbers from `i`.
unfoldable pub validate_dependencies : String → ℕ → List Dependency → Option ShapeError
validate_dependencies name i [] = none
validate_dependencies name i (d ∷ ds) = elim (validate_dependency_shape d) [
  | some e ↦ some (node_dependency name i e)
  | none ↦ validate_dependencies name (suc i) ds
]

unfoldable pub validate_node_partitioner : String → ℤ → Option PartitionerSpec → Option ShapeError
unfolding validate_partitioner
validate_node_partitioner name n none = none
validate_node_partitioner name n (some p) = elim (validate_partitioner p) [
  | some e ↦ some (node_partitioner name e)
  | none ↦
      if p.num_partitions == n then none else some (partitioner_mismatch name n p.num_partitions)
]

unfoldable pub validate_node_shape : RddNode → Option ShapeError
unfolding validate_node_partitioner validate_dependencies
validate_node_shape n =
    if int_leb n.num_partitions (pos 0)
    then some (invalid_partition_count n.name n.num_partitions)
    else elim (validate_node_partitioner n.name n.num_partitions n.partitioner) [
      | some e ↦ some e
      | none ↦ validate_dependencies n.name 0 n.dependencies
    ]

unfoldable pub store_node : RddNode → RddGraph → RddId × RddGraph
store_node n g = (
  g.next_rdd_id,
  record g {
    next_rdd_id = u64_inc g.next_rdd_id;
    nodes = insert g.next_rdd_id (record n { id = g.next_rdd_id }) g.nodes;
  },
)

-- AddNode. A node of a bad shape leaves the graph as it was.
unfoldable pub add_node : RddNode → RddGraph → ShapeError ⊎ (RddId × RddGraph)
unfolding validate_node_shape store_node
add_node n g = elim (validate_node_shape n) [ some e ↦ inl e | none ↦ inr (store_node n g) ]

unfoldable pub node : RddGraph → RddId → Option RddNode
node g id = lookup id g.nodes

-- The nodes among the `n` ids from `id`.
unfoldable pub nodes_from : RddGraph → ℕ → RddId → List RddNode
nodes_from g zero id = []
nodes_from g (suc n) id = elim (node g id) [
  | none ↦ nodes_from g n (suc id)
  | some x ↦ x ∷ nodes_from g n (suc id)
]

-- Nodes, in the order of their ids.
unfoldable pub nodes_in_order : RddGraph → List RddNode
nodes_in_order g = nodes_from g g.next_rdd_id 0

unfoldable pub len : RddGraph → ℕ
len g = length g.nodes
