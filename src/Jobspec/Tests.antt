-- ===== src/Jobspec/Tests.antt =====
-- The word count as a description of a job.
use sparkcore_go.Common.{arith, some, [], inr, ◌∷◌, none, ◌≡◌, pos, refl, nat_eq}
use sparkcore_go.Jobspec.Building.{build_valid, IsBuilt}
use sparkcore_go.Plan.Validate.{validate}
use sparkcore_go.Jobspec.{
  partitions_not_accepted, build, validate_transformation, Spec, validate_spec,
}
use sparkcore_go.Scheduler.{action_collect}
use sparkcore_go.Plan.{op_reduce_by_key, op_map_to_pair, op_map, RddId}
use sparkcore_go.Plan.Graph.{new_rdd_graph, RddGraph}

abbrev word_spec : Spec
word_spec = record {
  source = record { path = "input.txt"; num_partitions = pos 4 };
  transformations =
      record { kind = op_map_to_pair; function_id = "words"; num_partitions = pos 0 }
      ∷ record { kind = op_reduce_by_key; function_id = "sum"; num_partitions = pos 2 }
      ∷ [];
  action = action_collect;
}

word_spec-valid : validate_spec word_spec ≡ none
unfolding validate_spec validate_transformation
word_spec-valid = refl

width_on_map :
    validate_spec (record word_spec {
      transformations = record { kind = op_map; function_id = "f"; num_partitions = pos 2 } ∷ [];
    })
    ≡ some (partitions_not_accepted 0 op_map)
unfolding validate_spec validate_transformation
width_on_map = refl

build_valid_example :
    (id : RddId) × (g : RddGraph) × (build word_spec new_rdd_graph ≡ inr (id, g))
    × IsBuilt id g
    × (validate g id ≡ none)
build_valid_example = build_valid word_spec word_spec-valid (omega arith)
