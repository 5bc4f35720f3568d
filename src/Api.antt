-- ===== src/Api.antt =====
-- api/context.go, api/rdd.go and HashPartitioner of plan/partitioner.go: the user's lazy RDDs. A
-- handle is the id of its node; the context that it points to is the graph, passed on by every
-- call. A handle without a context is not modelled.
use sparkcore_go.Common.{
  ◌∷◌, none, some, inr, false, [], true, Bool, inl, Option, ◌⊎◌, ℤ, String, if◌then◌else◌, nat_eq,
}
use sparkcore_go.Plan.{
  narrow_one_to_one, dependency_shuffle, op_reduce_by_key, dependency_narrow, partitioner_hash,
  op_map_values, op_source, op_map_to_pair, op_map, ShuffleId, op_filter, PartitionerSpec,
  OperatorKind, RddId, RddNode,
}
use sparkcore_go.Plan.Graph.{node, RddGraph, new_shuffle_id, ShapeError, add_node}

pub data ApiError : Type 0 where
  create_text_file : ShapeError → ApiError
  parent_does_not_exist : String → RddId → ApiError
  transformation_shape : String → RddId → ShapeError → ApiError

abbrev pub hash_partitioner : ℤ → PartitionerSpec
hash_partitioner n = record { kind = partitioner_hash; num_partitions = n }

abbrev pub ApiResult : Type 0
ApiResult = ApiError ⊎ (RddId × RddGraph)

abbrev pub text_file_node : String → ℤ → RddNode
text_file_node path n = record {
  id = 0;
  name = "TextFile";
  operator = record { kind = op_source; function_id = ""; source_path = path };
  dependencies = [];
  num_partitions = n;
  partitioner = none;
}

unfoldable pub text_file : String → ℤ → RddGraph → ApiResult
unfolding add_node
text_file path n g = elim (add_node (text_file_node path n) g) [
  | inl e ↦ inl (create_text_file e)
  | inr r ↦ inr r
]

abbrev pub narrow_node :
    String → OperatorKind → String → RddId → ℤ → Option PartitionerSpec → RddNode
narrow_node name kind f parent n p = record {
  id = 0;
  name = name;
  operator = record { kind = kind; function_id = f; source_path = "" };
  dependencies =
      record {
        kind = dependency_narrow;
        parent_id = parent;
        narrow = some record { mapping = narrow_one_to_one };
        shuffle = none;
      }
      ∷ [];
  num_partitions = n;
  partitioner = p;
}

-- The error of AddNode, with the transformation and the handle.
unfoldable pub added : String → RddId → ShapeError ⊎ (RddId × RddGraph) → ApiResult
added name r (inl e) = inl (transformation_shape name r e)
added name r (inr x) = inr x

-- addNarrowTransformation
unfoldable pub add_narrow_transformation :
    String → OperatorKind → String → Bool → RddId → RddGraph → ApiResult
unfolding added add_node
add_narrow_transformation name kind f keep r g = elim (node g r) [
  | none ↦ inl (parent_does_not_exist name r)
  | some parent ↦ added name r (
      add_node
        (narrow_node name kind f r parent.num_partitions
          (if keep then parent.partitioner else none))
        g)
]

unfoldable pub map_rdd : String → RddId → RddGraph → ApiResult
unfolding add_narrow_transformation
map_rdd f r g = add_narrow_transformation "Map" op_map f false r g

unfoldable pub filter_rdd : String → RddId → RddGraph → ApiResult
unfolding add_narrow_transformation
filter_rdd f r g = add_narrow_transformation "Filter" op_filter f true r g

unfoldable pub map_to_pair : String → RddId → RddGraph → ApiResult
unfolding add_narrow_transformation
map_to_pair f r g = add_narrow_transformation "MapToPair" op_map_to_pair f false r g

unfoldable pub map_values : String → RddId → RddGraph → ApiResult
unfolding add_narrow_transformation
map_values f r g = add_narrow_transformation "MapValues" op_map_values f true r g

abbrev pub reduce_node : String → RddId → ShuffleId → PartitionerSpec → RddNode
reduce_node f parent shuffle p = record {
  id = 0;
  name = "ReduceByKey";
  operator = record { kind = op_reduce_by_key; function_id = f; source_path = "" };
  dependencies =
      record {
        kind = dependency_shuffle;
        parent_id = parent;
        narrow = none;
        shuffle = some record {
          shuffle_id = shuffle;
          partitioner = p;
          aggregator_id = f;
          map_side_combine = true;
        };
      }
      ∷ [];
  num_partitions = p.num_partitions;
  partitioner = some p;
}

-- ReduceByKey. The shuffle id is taken before AddNode checks the node.
unfoldable pub reduce_by_key : String → PartitionerSpec → RddId → RddGraph → ApiResult
unfolding added add_node new_shuffle_id
reduce_by_key f p r g = elim (node g r) [
  | none ↦ inl (parent_does_not_exist "ReduceByKey" r)
  | some parent ↦
      let (shuffle, g') = new_shuffle_id g in
      added "ReduceByKey" r (add_node (reduce_node f r shuffle p) g')
]
