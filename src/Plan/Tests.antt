-- ===== src/Plan/Tests.antt =====
-- A lineage of a text source, a map to pairs and a reduction by key, and the theorems on it.
use sparkcore_go.Plan.Validate.{
  lineage_cycle, fuel_exhausted, count_mismatch, validate_operator, validate,
}
use sparkcore_go.Plan.Fuel.{validate_has_fuel, store_node-Descends, Descends}
use sparkcore_go.Plan.Graph.{
  len, validate_dependency_shape, RddGraph, new_rdd_graph, node, validate_node_shape, store_node,
  add_node,
}
use sparkcore_go.Common.Dict.{insert, lookup}
use sparkcore_go.Plan.Soundness.{validate_sound, self}
use sparkcore_go.Common.{false, All, ◌∷◌, true, ◌≢◌, arith, none, inr, pos, some, [], ◌≡◌, refl}
use sparkcore_go.Plan.Insertion.{add_node-node, store_node-IsGraph, IsGraph}
use sparkcore_go.Plan.{
  narrow_one_to_one, dependency_narrow, dependency_shuffle, op_reduce_by_key, op_map_to_pair, RddId,
  partitioner_hash, op_source, RddNode, PartitionerSpec,
}

abbrev pub hash_two : PartitionerSpec
hash_two = record { kind = partitioner_hash; num_partitions = pos 2 }

abbrev pub source_node : RddNode
source_node = record {
  id = 7;
  name = "lines";
  operator = record { kind = op_source; function_id = ""; source_path = "input.txt" };
  dependencies = [];
  num_partitions = pos 3;
  partitioner = none;
}

abbrev pub pairs_node : RddNode
pairs_node = record {
  id = 0;
  name = "pairs";
  operator = record { kind = op_map_to_pair; function_id = "words"; source_path = "" };
  dependencies =
      record {
        kind = dependency_narrow;
        parent_id = 0;
        narrow = some record { mapping = narrow_one_to_one };
        shuffle = none;
      }
      ∷ [];
  num_partitions = pos 3;
  partitioner = none;
}

abbrev pub counts_node : RddNode
counts_node = record {
  id = 0;
  name = "counts";
  operator = record { kind = op_reduce_by_key; function_id = "sum"; source_path = "" };
  dependencies =
      record {
        kind = dependency_shuffle;
        parent_id = 1;
        narrow = none;
        shuffle = some record {
          shuffle_id = 0;
          partitioner = hash_two;
          aggregator_id = "sum";
          map_side_combine = true;
        };
      }
      ∷ [];
  num_partitions = pos 2;
  partitioner = some hash_two;
}

unfoldable pub word_count : RddGraph
unfolding store_node
word_count =
    (store_node counts_node (store_node pairs_node (store_node source_node new_rdd_graph).1).1).1

pub word_count-valid : validate word_count 2 ≡ none
unfolding store_node word_count validate node lookup insert validate_dependency_shape
    validate_operator len validate_node_shape
word_count-valid = refl

pub new_rdd_graph-IsGraph : IsGraph new_rdd_graph
unfolding node lookup
new_rdd_graph-IsGraph id n e = absurd cc

pub word_count-IsGraph : IsGraph word_count
unfolding word_count validate_node_shape validate_dependency_shape
word_count-IsGraph =
    store_node-IsGraph counts_node
      (store_node pairs_node (store_node source_node new_rdd_graph).1).1
      (store_node-IsGraph pairs_node (store_node source_node new_rdd_graph).1
        (store_node-IsGraph source_node new_rdd_graph new_rdd_graph-IsGraph (omega arith) refl)
        (omega arith) refl)
      (omega arith) refl

add_node-node_example :
    (id : RddId) × (g : RddGraph) × (add_node counts_node word_count ≡ inr (id, g))
    × (node word_count id ≡ none)
    × (node g id ≡ some (record counts_node { id = id }))
    × ((j : RddId) → j ≢ id → node g j ≡ node word_count j)
    × IsGraph g
unfolding validate_node_shape word_count store_node validate_dependency_shape
add_node-node_example = add_node-node counts_node word_count word_count-IsGraph (omega arith) refl

validate_sound_example :
    (n : RddNode) × (node word_count 2 ≡ some n)
    × (validate_node_shape n ≡ none)
    × (validate_operator n ≡ none)
    × All
        (λ d.
          ((p : RddNode) × (node word_count d.parent_id ≡ some p))
          × (count_mismatch d.kind d.shuffle n.num_partitions ≡ false))
        n.dependencies
validate_sound_example = validate_sound word_count 2 2 word_count-IsGraph word_count-valid self

new_rdd_graph-Descends : Descends new_rdd_graph
unfolding node lookup
new_rdd_graph-Descends id n e = absurd cc

pub word_count-Descends : Descends word_count
unfolding word_count store_node
word_count-Descends =
    store_node-Descends counts_node
      (store_node pairs_node (store_node source_node new_rdd_graph).1).1
      (store_node-Descends pairs_node (store_node source_node new_rdd_graph).1
        (store_node-Descends source_node new_rdd_graph new_rdd_graph-Descends tt) (omega arith, tt))
      (omega arith, tt)

abbrev cycle_node : RddId → RddId → RddNode
cycle_node id parent = record pairs_node {
  id = id;
  dependencies =
      record {
        kind = dependency_narrow;
        parent_id = parent;
        narrow = some record { mapping = narrow_one_to_one };
        shuffle = none;
      }
      ∷ [];
}

-- Two nodes that refer to each other.
abbrev cycle : RddGraph
cycle = record word_count { nodes = (0, cycle_node 0 1) ∷ (1, cycle_node 1 0) ∷ [] }

cycle_found : validate cycle 0 ≡ some (lineage_cycle 0)
unfolding validate node lookup insert validate_dependency_shape validate_operator len
    validate_node_shape
cycle_found = refl

validate_has_fuel_example : validate cycle 0 ≢ some fuel_exhausted
validate_has_fuel_example = validate_has_fuel cycle 0
