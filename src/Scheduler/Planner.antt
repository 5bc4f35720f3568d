-- ===== src/Scheduler/Planner.antt =====
-- scheduler/planner.go: the cut of a lineage into stages at its shuffles. The recursion over the
-- lineage is on fuel, one unit for each edge.
pub mod Ordering
pub mod Shape
pub mod Success
use sparkcore_go.Scheduler.{
  stage_result, action_count, action_collect, stage_shuffle_map, StagePlan, other_action,
  ActionSpec, stage_operation_rdd, stage_operation_shuffle_read, Stage, ShuffleWriteSpec, StageKind,
  StageOperation, ActionKind,
}
use sparkcore_go.Plan.{
  dependency_shuffle, dependency_narrow, other_dependency, ShuffleId, Dependency, DependencyKind,
  StageId, RddId, RddNode, ShuffleDependencySpec,
}
use sparkcore_go.Common.{
  nat_eq, zero, ◌++◌, length, ◌∷◌, some, inr, suc, inl, none, ℕ, ◌⊎◌, Option, [], List, String,
}
use sparkcore_go.Plan.Graph.{len, node, RddGraph}
use sparkcore_go.Scheduler.Functions.{validate_functions, FunctionError, FunctionLookup}
use sparkcore_go.Common.Dict.{insert, Dict, lookup}

pub data PlanError : Type 0 where
  unsupported_plan_action : String → RddId → PlanError
  invalid_functions : FunctionError → PlanError
  pipeline_missing : RddId → PlanError
  pipeline_dependency : RddId → String → PlanError
  nil_shuffle : RddId → PlanError
  out_of_fuel : PlanError

-- stageBuilder, less its graph, which does not change.
pub record StageBuilder : Type 0 where
  pub stages : List Stage
  pub shuffle_stages : Dict ShuffleId StageId

unfoldable pub validate_action_kind : ActionKind → RddId → Option PlanError
validate_action_kind action_collect t = none
validate_action_kind action_count t = none
validate_action_kind (other_action a) t = some (unsupported_plan_action a t)

abbrev pub rdd_operation : RddNode → StageOperation
rdd_operation n = record {
  kind = stage_operation_rdd;
  rdd = some record { rdd_id = n.id; operator = n.operator };
  shuffle_read = none;
}

abbrev pub read_operation : ShuffleDependencySpec → StageOperation
read_operation d = record {
  kind = stage_operation_shuffle_read;
  rdd = none;
  shuffle_read = some record { shuffle_id = d.shuffle_id; partitioner = d.partitioner };
}

abbrev pub write_of : ShuffleDependencySpec → ShuffleWriteSpec
write_of d = record {
  shuffle_id = d.shuffle_id;
  partitioner = d.partitioner;
  aggregator_id = d.aggregator_id;
  map_side_combine = d.map_side_combine;
}

-- A stage's operations and the ids of its parents.
pub record Pipeline : Type 0 where
  pub operations : List StageOperation
  pub parent_ids : List StageId

-- The end of buildStage: the new stage takes the next position.
unfoldable pub append_stage :
    RddNode
    → StageKind
    → Option ShuffleWriteSpec
    → Option ActionSpec
    → Pipeline
    → StageBuilder
    → StageId × StageBuilder
append_stage n kind w a p b = (
  length b.stages,
  record b {
    stages =
        b.stages
        ++ (record {
          id = length b.stages;
          kind = kind;
          parent_ids = p.parent_ids;
          num_partitions = n.num_partitions;
          operations = p.operations;
          shuffle_write = w;
          final_action = a;
        }
            ∷ []);
  },
)

abbrev pub PipelineResult : Type 0
PipelineResult = PlanError ⊎ (Pipeline × StageBuilder)

-- buildPipeline on an RDD, the recursive call.
abbrev pub BuildPipeline : Type 0
BuildPipeline = RddId → StageBuilder → PipelineResult

-- The rest of buildStage, after buildPipeline. A pipeline is built for nodes of the graph only.
unfoldable pub finish_stage :
    RddGraph
    → RddId
    → StageKind
    → Option ShuffleWriteSpec
    → Option ActionSpec
    → PipelineResult
    → PlanError ⊎ (StageId × StageBuilder)
unfolding append_stage
finish_stage g target kind w a (inl e) = inl e
finish_stage g target kind w a (inr (p, b)) = elim (node g target) [
  | none ↦ inl (pipeline_missing target)
  | some n ↦ inr (append_stage n kind w a p b)
]

-- The end of buildShuffleStage.
unfoldable pub record_stage :
    ShuffleId → PlanError ⊎ (StageId × StageBuilder) → PlanError ⊎ (StageId × StageBuilder)
record_stage k (inl e) = inl e
record_stage k (inr (id, b)) = inr (id, record b { shuffle_stages = insert k id b.shuffle_stages })

-- buildShuffleStage: a shuffle that has its stage keeps it.
unfoldable pub build_shuffle_stage :
    BuildPipeline
    → RddGraph
    → RddId
    → ShuffleDependencySpec
    → StageBuilder
    → PlanError ⊎ (StageId × StageBuilder)
unfolding finish_stage record_stage
build_shuffle_stage build g parent d b = elim (lookup d.shuffle_id b.shuffle_stages) [
  | some id ↦ inr (id, b)
  | none ↦
      record_stage d.shuffle_id
        (finish_stage g parent stage_shuffle_map (some (write_of d)) none (build parent b))
]

-- The narrow branch, after the recursive call.
unfoldable pub extend_pipeline : RddNode → PipelineResult → PipelineResult
extend_pipeline n (inl e) = inl e
extend_pipeline n (inr (p, b)) =
    inr (record p { operations = p.operations ++ (rdd_operation n ∷ []) }, b)

-- The shuffle branch, after buildShuffleStage.
unfoldable pub read_pipeline :
    RddNode → ShuffleDependencySpec → PlanError ⊎ (StageId × StageBuilder) → PipelineResult
read_pipeline n d (inl e) = inl e
read_pipeline n d (inr (id, b)) =
    inr (record { operations = read_operation d ∷ rdd_operation n ∷ []; parent_ids = id ∷ [] }, b)

-- The switch on the kind of the first dependency. A shuffle dependency without its specification,
-- on which the source would panic, does not pass the lineage's validation.
unfoldable pub build_dependency :
    BuildPipeline
    → RddGraph
    → RddNode
    → RddId
    → DependencyKind
    → Option ShuffleDependencySpec
    → StageBuilder
    → PipelineResult
unfolding extend_pipeline read_pipeline build_shuffle_stage
build_dependency build g n parent dependency_narrow s b = extend_pipeline n (build parent b)
build_dependency build g n parent dependency_shuffle (some d) b =
    read_pipeline n d (build_shuffle_stage build g parent d b)
build_dependency build g n parent dependency_shuffle none b = inl (nil_shuffle n.id)
build_dependency build g n parent (other_dependency k) s b = inl (pipeline_dependency n.id k)

unfoldable pub build_node :
    BuildPipeline → RddGraph → RddNode → List Dependency → StageBuilder → PipelineResult
unfolding build_dependency
build_node build g n [] b = inr (record { operations = rdd_operation n ∷ []; parent_ids = [] }, b)
build_node build g n (d ∷ ds) b = build_dependency build g n d.parent_id d.kind d.shuffle b

unfoldable pub build_pipeline : ℕ → RddGraph → BuildPipeline
unfolding build_node
build_pipeline zero g id b = inl out_of_fuel
build_pipeline (suc fuel) g id b = elim (node g id) [
  | none ↦ inl (pipeline_missing id)
  | some n ↦ build_node (build_pipeline fuel g) g n n.dependencies b
]

-- buildStage
unfoldable pub build_stage :
    ℕ
    → RddGraph
    → RddId
    → StageKind
    → Option ShuffleWriteSpec
    → Option ActionSpec
    → StageBuilder
    → PlanError ⊎ (StageId × StageBuilder)
unfolding finish_stage build_pipeline
build_stage fuel g target kind w a b =
    finish_stage g target kind w a (build_pipeline fuel g target b)

abbrev pub new_builder : StageBuilder
new_builder = record { stages = []; shuffle_stages = [] }

unfoldable pub plan_of : RddId → PlanError ⊎ (StageId × StageBuilder) → PlanError ⊎ StagePlan
plan_of target (inl e) = inl e
plan_of target (inr (id, b)) = inr (record { target_rdd = target; stages = b.stages })

-- The method Plan of the planner.
unfoldable pub plan_stages : Option FunctionLookup → RddGraph → ActionSpec → PlanError ⊎ StagePlan
unfolding validate_action_kind build_stage plan_of
plan_stages functions g a = elim (validate_action_kind a.kind a.target_rdd) [
  | some e ↦ inl e
  | none ↦ elim (validate_functions functions g a.target_rdd) [
    | some e ↦ inl (invalid_functions e)
    | none ↦
        plan_of a.target_rdd
          (build_stage (suc (len g)) g a.target_rdd stage_result none (some a) new_builder)
  ]
]
