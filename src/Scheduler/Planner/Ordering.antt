-- ===== src/Scheduler/Planner/Ordering.antt =====
-- The stages of a plan: their ids and the order of parents and children.
use sparkcore_go.Common.{
  refl, true, All-append, All-map, is_some, length-append, none, option-elim, zero, arith, ◌++◌,
  ◌<◌, subst, Option, [], length, All, suc, some, inr, get_elem?, ◌+◌, inl, ◌≡◌, ◌⊎◌, ◌∷◌, List, ℕ,
  nat_eq,
}
use sparkcore_go.Scheduler.Planner.{
  new_builder, validate_action_kind, plan_of, plan_stages, write_of, build_node,
  build_shuffle_stage, build_pipeline, build_stage, build_dependency, Pipeline, read_pipeline,
  extend_pipeline, append_stage, PipelineResult, PlanError, record_stage, BuildPipeline,
  finish_stage, StageBuilder,
}
use sparkcore_go.Plan.Graph.{len, node, RddGraph}
use sparkcore_go.Scheduler.Functions.{validate_functions, FunctionLookup}
use sparkcore_go.Scheduler.{
  StagePlan, stage_result, stage_shuffle_map, ActionSpec, ShuffleWriteSpec, StageKind, Stage,
}
use sparkcore_go.Common.Dict.{lookup-insert, lookup}
use sparkcore_go.Plan.{
  dependency_shuffle, dependency_narrow, other_dependency, Dependency, DependencyKind,
  ShuffleDependencySpec, StageId, RddNode, ShuffleId, RddId,
}

-- A stage at position `i`: its id is the position and its parents stand before it.
abbrev pub IsPlaced : ℕ → Stage → Type 0
IsPlaced i s = (s.id ≡ i) × All (λ q. q < i) s.parent_ids

abbrev pub AllPlaced : ℕ → List Stage → Type 0
AllPlaced i [] = Unit
AllPlaced i (s ∷ ss) = IsPlaced i s × AllPlaced (suc i) ss

AllPlaced-append_one :
    (i : ℕ) (ss : List Stage) (s : Stage)
    → AllPlaced i ss
    → IsPlaced (i + length ss) s
    → AllPlaced i (ss ++ (s ∷ []))
AllPlaced-append_one i [] s h p = (subst (λ n. IsPlaced n s) (omega arith) p, tt)
AllPlaced-append_one i (x ∷ ss) s h p =
    (h.0, AllPlaced-append_one (suc i) ss s h.1 (subst (λ n. IsPlaced n s) (omega arith) p))

AllPlaced-get_elem? :
    (i : ℕ) (ss : List Stage) (k : ℕ) (s : Stage)
    → AllPlaced i ss
    → get_elem? ss k ≡ some s
    → IsPlaced (i + k) s
AllPlaced-get_elem? i [] k s h e = cc
AllPlaced-get_elem? i (x ∷ ss) zero s h e = ground (arith, h.0)
AllPlaced-get_elem? i (x ∷ ss) (suc k) s h e =
    subst (λ n. IsPlaced n s) (omega arith) (AllPlaced-get_elem? (suc i) ss k s h.1 e)

-- A stage that writes a shuffle and runs no action.
abbrev pub IsMapStage : Stage → Type 0
IsMapStage s =
    (s.kind ≡ stage_shuffle_map) × (is_some s.shuffle_write ≡ true) × (s.final_action ≡ none)

abbrev pub IsOrdered : StageBuilder → Type 0
IsOrdered b =
    AllPlaced 0 b.stages
    × All IsMapStage b.stages
    × ((k : ShuffleId) (id : StageId) → lookup k b.shuffle_stages ≡ some id → id < length b.stages)

abbrev StageOk : PlanError ⊎ (StageId × StageBuilder) → Type 0
StageOk (inl e) = Unit
StageOk (inr (id, b)) = IsOrdered b × (id < length b.stages)

abbrev PipelineOk : PipelineResult → Type 0
PipelineOk (inl e) = Unit
PipelineOk (inr (p, b)) = IsOrdered b × All (λ q. q < length b.stages) p.parent_ids

abbrev appended :
    RddNode
    → StageKind
    → Option ShuffleWriteSpec
    → Option ActionSpec
    → Pipeline
    → StageBuilder
    → Stage
appended n kind w a p b = record {
  id = length b.stages;
  kind = kind;
  parent_ids = p.parent_ids;
  num_partitions = n.num_partitions;
  operations = p.operations;
  shuffle_write = w;
  final_action = a;
}

appended-AllPlaced :
    (n : RddNode) (kind : StageKind) (w : Option ShuffleWriteSpec) (a : Option ActionSpec)
    (p : Pipeline) (b : StageBuilder)
    → PipelineOk (inr (p, b))
    → AllPlaced 0 (b.stages ++ (appended n kind w a p b ∷ []))
appended-AllPlaced n kind w a p b h =
    AllPlaced-append_one 0 b.stages (appended n kind w a p b) h.0.0 (
      omega arith,
      All-map (λ q. q < length b.stages) (λ q. q < 0 + length b.stages) p.parent_ids
          (λ q l. omega (arith, l)) h.1,
    )

append_stage-Ok :
    (n : RddNode) (w : ShuffleWriteSpec) (p : Pipeline) (b : StageBuilder)
    → PipelineOk (inr (p, b))
    → StageOk (inr (append_stage n stage_shuffle_map (some w) none p b))
unfolding append_stage
append_stage-Ok n w p b h =
    let s = appended n stage_shuffle_map (some w) none p b in
    let longer = length-append b.stages (s ∷ []) in
    (
      (
        appended-AllPlaced n stage_shuffle_map (some w) none p b h,
        All-append IsMapStage b.stages (s ∷ []) h.0.1 ((refl, refl, refl), tt),
        λ k id e. omega (arith, longer, h.0.2 k id e),
      ),
      omega (arith, longer),
    )

finish_stage-Ok :
    (g : RddGraph) (target : RddId) (w : ShuffleWriteSpec) (r : PipelineResult)
    → PipelineOk r
    → StageOk (finish_stage g target stage_shuffle_map (some w) none r)
unfolding finish_stage
finish_stage-Ok g target w (inl e) h = tt
finish_stage-Ok g target w (inr (p, b)) h =
    option-elim StageOk (node g target) (λ _. tt) (λ n _. append_stage-Ok n w p b h)

-- The recursive call keeps the order.
abbrev KeepsOrder : BuildPipeline → Type 0
KeepsOrder build = (id : RddId) (b : StageBuilder) → IsOrdered b → PipelineOk (build id b)

record_stage-Ok :
    (k : ShuffleId) (r : PlanError ⊎ (StageId × StageBuilder))
    → StageOk r
    → StageOk (record_stage k r)
unfolding record_stage
record_stage-Ok k (inl e) h = tt
record_stage-Ok k (inr (id, b)) (h, l) =
    ((h.0, h.1, λ j i e. ground (arith, lookup-insert k j id b.shuffle_stages, h.2 j i)), l)

extend_pipeline-Ok :
    (n : RddNode) (r : PipelineResult) → PipelineOk r → PipelineOk (extend_pipeline n r)
unfolding extend_pipeline
extend_pipeline-Ok n (inl e) h = tt
extend_pipeline-Ok n (inr (p, b)) h = h

read_pipeline-Ok :
    (n : RddNode) (d : ShuffleDependencySpec) (r : PlanError ⊎ (StageId × StageBuilder))
    → StageOk r
    → PipelineOk (read_pipeline n d r)
unfolding read_pipeline
read_pipeline-Ok n d (inl e) h = tt
read_pipeline-Ok n d (inr (id, b)) h = (h.0, (h.1, tt))

build_shuffle_stage-Ok :
    (build : BuildPipeline) (g : RddGraph) (parent : RddId) (d : ShuffleDependencySpec)
    (b : StageBuilder)
    → KeepsOrder build
    → IsOrdered b
    → StageOk (build_shuffle_stage build g parent d b)
unfolding build_shuffle_stage
build_shuffle_stage-Ok build g parent d b keeps h =
    option-elim StageOk (lookup d.shuffle_id b.shuffle_stages)
      (λ _.
        record_stage-Ok d.shuffle_id
          (finish_stage g parent stage_shuffle_map (some (write_of d)) none (build parent b))
          (finish_stage-Ok g parent (write_of d) (build parent b) (keeps parent b h)))
      (λ id e. (h, h.2 d.shuffle_id id e))

build_dependency-Ok :
    (build : BuildPipeline) (g : RddGraph) (n : RddNode) (parent : RddId) (k : DependencyKind)
    (s : Option ShuffleDependencySpec) (b : StageBuilder)
    → KeepsOrder build
    → IsOrdered b
    → PipelineOk (build_dependency build g n parent k s b)
unfolding build_dependency
build_dependency-Ok build g n parent dependency_narrow s b keeps h =
    extend_pipeline-Ok n (build parent b) (keeps parent b h)
build_dependency-Ok build g n parent dependency_shuffle (some d) b keeps h =
    read_pipeline-Ok n d (build_shuffle_stage build g parent d b)
      (build_shuffle_stage-Ok build g parent d b keeps h)
build_dependency-Ok build g n parent dependency_shuffle none b keeps h = tt
build_dependency-Ok build g n parent (other_dependency k) s b keeps h = tt

build_node-Ok :
    (build : BuildPipeline) (g : RddGraph) (n : RddNode) (ds : List Dependency) (b : StageBuilder)
    → KeepsOrder build
    → IsOrdered b
    → PipelineOk (build_node build g n ds b)
unfolding build_node
build_node-Ok build g n [] b keeps h = (h, tt)
build_node-Ok build g n (d ∷ ds) b keeps h =
    build_dependency-Ok build g n d.parent_id d.kind d.shuffle b keeps h

build_pipeline-Ok : (fuel : ℕ) (g : RddGraph) → KeepsOrder (build_pipeline fuel g)
unfolding build_pipeline
build_pipeline-Ok zero g id b h = tt
build_pipeline-Ok (suc fuel) g id b h =
    option-elim PipelineOk (node g id) (λ _. tt)
      (λ n _.
        build_node-Ok (build_pipeline fuel g) g n n.dependencies b (build_pipeline-Ok fuel g) h)

-- The stages of a plan for an action: map stages, then the result stage.
abbrev pub IsPlanOf : ActionSpec → List Stage → Type 0
IsPlanOf a ss =
    AllPlaced 0 ss
    × ((ms : List Stage) × (r : Stage) × (ss ≡ ms ++ (r ∷ []))
        × All IsMapStage ms
        × (r.kind ≡ stage_result)
        × (r.shuffle_write ≡ none)
        × (r.final_action ≡ some a))

abbrev PlanOk : ActionSpec → PlanError ⊎ StagePlan → Type 0
PlanOk a (inl e) = Unit
PlanOk a (inr p) = IsPlanOf a p.stages

result-Ok :
    (g : RddGraph) (target : RddId) (a : ActionSpec) (r : PipelineResult)
    → PipelineOk r
    → PlanOk a (plan_of target (finish_stage g target stage_result none (some a) r))
unfolding finish_stage plan_of append_stage
result-Ok g target a (inl e) h = tt
result-Ok g target a (inr (p, b)) h =
    option-elim (λ r. PlanOk a (plan_of target r)) (node g target) (λ _. tt)
      (λ n _. (
        appended-AllPlaced n stage_result none (some a) p b h,
        (b.stages, appended n stage_result none (some a) p b, refl, h.0.1, refl, refl, refl),
      ))

plan_stages-Ok :
    (functions : Option FunctionLookup) (g : RddGraph) (a : ActionSpec)
    → PlanOk a (plan_stages functions g a)
unfolding plan_stages build_stage lookup
plan_stages-Ok functions g a =
    option-elim (PlanOk a) (validate_action_kind a.kind a.target_rdd)
      (λ _.
        option-elim (PlanOk a) (validate_functions functions g a.target_rdd)
          (λ _.
            result-Ok g a.target_rdd a (build_pipeline (suc (len g)) g a.target_rdd new_builder) (
              build_pipeline-Ok (suc (len g)) g a.target_rdd new_builder
                (tt, tt, λ k id e. absurd cc)))
          (λ e _. tt))
      (λ e _. tt)

-- In a plan that the planner returns, the id of a stage is its position, its parents stand before
-- it, the last stage is the result stage with the action, and every other stage is a map stage that
-- writes a shuffle and runs no action.
pub plan_stages-ordered :
    (functions : Option FunctionLookup) (g : RddGraph) (a : ActionSpec) (p : StagePlan)
    → plan_stages functions g a ≡ inr p
    → ((i : ℕ) (s : Stage) → get_elem? p.stages i ≡ some s → IsPlaced i s)
      × ((ms : List Stage) × (r : Stage) × (p.stages ≡ ms ++ (r ∷ []))
          × All IsMapStage ms
          × (r.kind ≡ stage_result)
          × (r.shuffle_write ≡ none)
          × (r.final_action ≡ some a))
plan_stages-ordered functions g a p e =
    let ok = subst (PlanOk a) e (plan_stages-Ok functions g a) in
    (
      λ i s at.
          subst (λ n. IsPlaced n s) (omega arith) (AllPlaced-get_elem? 0 p.stages i s ok.0 at),
      ok.1,
    )
