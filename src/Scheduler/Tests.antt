-- ===== src/Scheduler/Tests.antt =====
-- The plan of the word count and its tasks.
use sparkcore_go.Plan.Tests.{
  word_count-Descends, counts_node, pairs_node, hash_two, source_node, word_count,
  word_count-IsGraph, word_count-valid,
}
use sparkcore_go.Common.{
  arith, ◌+◌, true, to_ℕ, ◌<◌, none, All, length, ◌++◌, pos, string_eq, inr, ◌==◌, ◌≡◌, some, [],
  get_elem?, ◌∷◌, false, List, ℕ, refl, suc, zero,
}
use sparkcore_go.Scheduler.Planner.Success.{plan_stages_complete, AllRegistered}
use sparkcore_go.Scheduler.Planner.{validate_action_kind, plan_stages}
use sparkcore_go.Scheduler.Functions.{function_exists, validate_functions, FunctionLookup}
use sparkcore_go.Plan.Graph.{store_node, len, validate_dependency_shape, validate_node_shape, node}
use sparkcore_go.Plan.Validate.{validate_operator, validate}
use sparkcore_go.Common.Dict.{insert, lookup}
use sparkcore_go.Scheduler.Generator.Numbering.{generate_tasks_complete, partitions}
use sparkcore_go.Scheduler.Generator.{generate_tasks}
use sparkcore_go.Scheduler.Planner.Ordering.{plan_stages-ordered, IsMapStage, IsPlaced}
use sparkcore_go.Scheduler.{
  stage_operation_rdd, stage_operation_shuffle_read, stage_shuffle_map, Task, stage_result,
  action_collect, ActionSpec, StagePlan, Stage,
}

abbrev functions : FunctionLookup
functions = record {
  has_map = λ f. false;
  has_filter = λ f. false;
  has_pair_map = λ f. f == "words";
  has_value_map = λ f. false;
  has_reduce = λ f. f == "sum";
}

abbrev collect : ActionSpec
collect = record { kind = action_collect; target_rdd = 2 }

-- The map stage of three partitions.
abbrev map_stage : Stage
map_stage = record {
  id = 0;
  kind = stage_shuffle_map;
  parent_ids = [];
  num_partitions = pos 3;
  operations =
      record {
        kind = stage_operation_rdd;
        rdd = some record { rdd_id = 0; operator = source_node.operator };
        shuffle_read = none;
      }
      ∷ record {
        kind = stage_operation_rdd;
        rdd = some record { rdd_id = 1; operator = pairs_node.operator };
        shuffle_read = none;
      }
      ∷ [];
  shuffle_write = some record {
    shuffle_id = 0;
    partitioner = hash_two;
    aggregator_id = "sum";
    map_side_combine = true;
  };
  final_action = none;
}

-- The result stage of two partitions.
abbrev result_stage : Stage
result_stage = record {
  id = 1;
  kind = stage_result;
  parent_ids = 0 ∷ [];
  num_partitions = pos 2;
  operations =
      record {
        kind = stage_operation_shuffle_read;
        rdd = none;
        shuffle_read = some record { shuffle_id = 0; partitioner = hash_two };
      }
      ∷ record {
        kind = stage_operation_rdd;
        rdd = some record { rdd_id = 2; operator = counts_node.operator };
        shuffle_read = none;
      }
      ∷ [];
  shuffle_write = none;
  final_action = some collect;
}

abbrev word_plan : StagePlan
word_plan = record { target_rdd = 2; stages = map_stage ∷ result_stage ∷ [] }

plan_stages-word_count : plan_stages (some functions) word_count collect ≡ inr word_plan
unfolding plan_stages word_count validate_functions validate node lookup insert validate_node_shape
    validate_dependency_shape validate_operator len
plan_stages-word_count = refl

plan_stages-ordered_example :
    ((i : ℕ) (s : Stage) → get_elem? word_plan.stages i ≡ some s → IsPlaced i s)
    × ((ms : List Stage) × (r : Stage) × (word_plan.stages ≡ ms ++ (r ∷ []))
        × All IsMapStage ms
        × (r.kind ≡ stage_result)
        × (r.shuffle_write ≡ none)
        × (r.final_action ≡ some collect))
plan_stages-ordered_example =
    plan_stages-ordered (some functions) word_count collect word_plan plan_stages-word_count

generate_tasks_complete_example :
    (ts : List Task) × (generate_tasks word_plan ≡ inr ts)
    × (length ts ≡ 5)
    × ((before after : List Stage) (s : Stage) (k : ℕ)
        → word_plan.stages ≡ before ++ (s ∷ after)
        → k < to_ℕ s.num_partitions
        → get_elem? ts (partitions before + k)
          ≡ some record {
            id = partitions before + k;
            stage_id = s.id;
            stage_kind = s.kind;
            partition_id = pos k;
            num_partitions = s.num_partitions;
            operations = s.operations;
            shuffle_write = s.shuffle_write;
            final_action = s.final_action;
          })
generate_tasks_complete_example =
    generate_tasks_complete word_plan (omega arith, (omega arith, tt)) (omega arith)

functions-AllRegistered : AllRegistered functions word_count 2
unfolding word_count store_node node lookup insert function_exists
functions-AllRegistered zero n needs at = cc at
functions-AllRegistered (suc zero) n needs at = cc at
functions-AllRegistered (suc (suc zero)) n needs at = cc at
functions-AllRegistered (suc (suc (suc id))) n needs at = absurd (grind (arith, at))

plan_stages_complete_example :
    (p : StagePlan) × (plan_stages (some functions) word_count collect ≡ inr p)
unfolding word_count len store_node insert validate_action_kind
plan_stages_complete_example =
    plan_stages_complete functions word_count collect word_count-IsGraph word_count-Descends
      word_count-valid functions-AllRegistered refl (omega arith)
