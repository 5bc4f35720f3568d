-- ===== src/Scheduler/Planner/Success.antt =====
-- The plan of a lineage that its validation accepts and whose functions are registered.
use sparkcore_go.Scheduler.{
  stage_result, StagePlan, stage_shuffle_map, ActionSpec, ShuffleWriteSpec, StageKind,
}
use sparkcore_go.Scheduler.Planner.{
  new_builder, rdd_operation, build_stage, plan_stages, validate_action_kind, build_pipeline,
  plan_of, build_node, write_of, append_stage, StageBuilder, BuildPipeline, PipelineResult,
  record_stage, read_pipeline, PlanError, finish_stage, extend_pipeline, build_shuffle_stage,
  build_dependency,
}
use sparkcore_go.Plan.Graph.{len, node, RddGraph}
use sparkcore_go.Common.{
  ◌≤◌, contains, Bool-cases, ◌⊎◌, true, ◌<◌, [], inr, inl, Option-cases, ◌∷◌, List, All, ℕ, ◌≡◌,
  Option, nat_eq, refl, arith, none, some, zero, suc,
}
use sparkcore_go.Scheduler.Functions.{
  validate_functions, validate_node_function, check_from, function_exists, FunctionVisit,
  check_parents, FunctionLookup,
}
use sparkcore_go.Common.Dict.{lookup}
use sparkcore_go.Plan.{
  StageId, ShuffleId, RddId, Dependency, ShuffleDependencySpec, RddNode, DependencyKind,
}
use sparkcore_go.Plan.Soundness.{parent, Needs, validate_sound, self}
use sparkcore_go.Plan.Validate.{validate}
use sparkcore_go.Plan.Fuel.{Descends}
use sparkcore_go.Plan.Insertion.{IsGraph}
use sparkcore_go.Scheduler.Planner.Shape.{
  IsShaped, shaped_narrow, shaped_shuffle, node-shape, All-index, All-and, All-weaken,
}

check_parents-none :
    (visit : FunctionVisit) (ds : List Dependency) (visited : List RddId)
    → All (λ d. (v : List RddId) → (visit d.parent_id v).0 ≡ none) ds
    → (check_parents visit ds visited).0 ≡ none
unfolding check_parents
check_parents-none visit [] visited h = refl
check_parents-none visit (d ∷ ds) visited h =
    rw (h.0 visited, check_parents) (check_parents-none visit ds (visit d.parent_id visited).1 h.1)

-- Every function that the lineage of a target names is registered.
abbrev pub AllRegistered : FunctionLookup → RddGraph → RddId → Type 0
AllRegistered f g target =
    (id : RddId) (n : RddNode)
    → Needs g target id
    → node g id ≡ some n
    → function_exists f n.operator.kind n.operator.function_id ≡ true

module _ (g : RddGraph) (target : RddId) (graph : IsGraph g) (down : Descends g)
    (ok : validate g target ≡ none) where
  -- What a dependency of a needed node is.
  Sound : RddId → Dependency → Type 0
  Sound id d = IsShaped d.kind d.shuffle × (Needs g target d.parent_id × (d.parent_id < id))

  needed-Sound :
      (id : RddId)
      → Needs g target id
      → (n : RddNode) × (node g id ≡ some n) × All (Sound id) n.dependencies
  unfolding Sound
  needed-Sound id needs =
      let (n, at, shape, op, ps) = validate_sound g target id graph ok needs in
      (
        n,
        at,
        All-and (λ d. IsShaped d.kind d.shuffle)
            (λ d. Needs g target d.parent_id × (d.parent_id < id)) n.dependencies
            (node-shape n shape)
            (All-and (λ d. Needs g target d.parent_id) (λ d. d.parent_id < id) n.dependencies
              (All-index (λ d. Needs g target d.parent_id) n.dependencies
                (λ i d e. parent id n i d needs at e))
              (down id n at)),
      )

  check_from-none :
      (f : FunctionLookup)
      → AllRegistered f g target
      → (fuel : ℕ) (id : RddId) (visited : List RddId) → Needs g target id
      → id < fuel
      → (check_from f fuel g id visited).0 ≡ none
  unfolding check_from validate_node_function Sound
  check_from-none f reg zero id visited needs l = absurd (omega (arith, l))
  check_from-none f reg (suc fuel) id visited needs l =
      let (n, at, ds) = needed-Sound id needs in
      elim (Bool-cases (contains visited id)) [
        | inl seen ↦ rw (seen, check_from) refl
        | inr new ↦
            rw (new, at, reg id n needs at, check_from)
              (check_parents-none (check_from f fuel g) n.dependencies (id ∷ visited) (
                All-weaken (Sound id)
                  (λ d. (v : List RddId) → (check_from f fuel g d.parent_id v).0 ≡ none)
                  n.dependencies
                  (λ d s v.
                    check_from-none f reg fuel d.parent_id v s.1.0 (omega (arith, l, s.1.1)))
                  ds))
      ]

  -- A result that is no error.
  Succeeds {ℓ} : {B : Type ℓ} → PlanError ⊎ B → Type ℓ
  Succeeds {B = B} r = (b : B) × (r ≡ inr b)

  Succeeds-inr {ℓ} : {B : Type ℓ} (b : B) → Succeeds (inr b)
  unfolding Succeeds
  Succeeds-inr b = (b, refl)

  finish_stage-Succeeds :
      (id : RddId) (n : RddNode) (kind : StageKind) (w : Option ShuffleWriteSpec)
      (a : Option ActionSpec) (r : PipelineResult)
      → node g id ≡ some n
      → Succeeds r
      → Succeeds (finish_stage g id kind w a r)
  unfolding finish_stage Succeeds
  finish_stage-Succeeds id n kind w a (inl e) at h = absurd (cc h.1)
  finish_stage-Succeeds id n kind w a (inr (p, b)) at h =
      (append_stage n kind w a p b, rw (at, finish_stage) refl)

  record_stage-Succeeds :
      (k : ShuffleId) (r : PlanError ⊎ (StageId × StageBuilder))
      → Succeeds r
      → Succeeds (record_stage k r)
  unfolding record_stage Succeeds
  record_stage-Succeeds k (inl e) h = absurd (cc h.1)
  record_stage-Succeeds k (inr (id, b)) h = (_, refl)

  extend_pipeline-Succeeds :
      (n : RddNode) (r : PipelineResult) → Succeeds r → Succeeds (extend_pipeline n r)
  unfolding extend_pipeline Succeeds
  extend_pipeline-Succeeds n (inl e) h = absurd (cc h.1)
  extend_pipeline-Succeeds n (inr (p, b)) h = (_, refl)

  read_pipeline-Succeeds :
      (n : RddNode) (d : ShuffleDependencySpec) (r : PlanError ⊎ (StageId × StageBuilder))
      → Succeeds r
      → Succeeds (read_pipeline n d r)
  unfolding read_pipeline Succeeds
  read_pipeline-Succeeds n d (inl e) h = absurd (cc h.1)
  read_pipeline-Succeeds n d (inr (id, b)) h = (_, refl)

  build_shuffle_stage-Succeeds :
      (build : BuildPipeline) (id : RddId) (n : RddNode) (s : ShuffleDependencySpec)
      (b : StageBuilder)
      → node g id ≡ some n
      → Succeeds (build id b)
      → Succeeds (build_shuffle_stage build g id s b)
  unfolding build_shuffle_stage Succeeds
  build_shuffle_stage-Succeeds build id n s b at h =
      elim (Option-cases (lookup s.shuffle_id b.shuffle_stages)) [
        | inl new ↦
            rw (new, build_shuffle_stage)
              (record_stage-Succeeds s.shuffle_id
                (finish_stage g id stage_shuffle_map (some (write_of s)) none (build id b))
                (finish_stage-Succeeds id n stage_shuffle_map (some (write_of s)) none (build id b)
                  at h))
        | inr (k, known) ↦ ((k, b), rw (known, build_shuffle_stage) refl)
      ]

  build_dependency-Succeeds :
      (build : BuildPipeline) (n p : RddNode) (above : RddId) (k : DependencyKind)
      (s : Option ShuffleDependencySpec) (b : StageBuilder)
      → node g above ≡ some p
      → IsShaped k s
      → Succeeds (build above b)
      → Succeeds (build_dependency build g n above k s b)
  unfolding build_dependency
  build_dependency-Succeeds build n p above k s b at (shaped_narrow t) h =
      extend_pipeline-Succeeds n (build above b) h
  build_dependency-Succeeds build n p above k s b at (shaped_shuffle d) h =
      read_pipeline-Succeeds n d (build_shuffle_stage build g above d b)
        (build_shuffle_stage-Succeeds build above p d b at h)

  build_node-Succeeds :
      (build : BuildPipeline) (id : RddId) (n : RddNode) (ds : List Dependency) (b : StageBuilder)
      → All (Sound id) ds
      → ((j : RddId) → Needs g target j → j < id → Succeeds (build j b))
      → Succeeds (build_node build g n ds b)
  unfolding build_node Sound
  build_node-Succeeds build id n [] b h k =
      Succeeds-inr (record { operations = rdd_operation n ∷ []; parent_ids = [] }, b)
  build_node-Succeeds build id n (d ∷ ds) b h k =
      let (shaped, below) = h.0 in
      let (p, at, sound) = needed-Sound d.parent_id below.0 in
      build_dependency-Succeeds build n p d.parent_id d.kind d.shuffle b at shaped
        (k d.parent_id below.0 below.1)

  build_pipeline-Succeeds :
      (fuel : ℕ) (id : RddId) (b : StageBuilder)
      → Needs g target id
      → id < fuel
      → Succeeds (build_pipeline fuel g id b)
  unfolding build_pipeline
  build_pipeline-Succeeds zero id b needs l = absurd (omega (arith, l))
  build_pipeline-Succeeds (suc fuel) id b needs l =
      let (n, at, ds) = needed-Sound id needs in
      rw (at, build_pipeline)
        (build_node-Succeeds (build_pipeline fuel g) id n n.dependencies b ds
          (λ j s m. build_pipeline-Succeeds fuel j b s (omega (arith, l, m))))

  plan_of-Succeeds :
      (id : RddId) (r : PlanError ⊎ (StageId × StageBuilder)) → Succeeds r → Succeeds (plan_of id r)
  unfolding plan_of Succeeds
  plan_of-Succeeds id (inl e) h = absurd (cc h.1)
  plan_of-Succeeds id (inr (s, b)) h = (_, refl)

  validate_functions-none :
      (f : FunctionLookup)
      → AllRegistered f g target
      → target ≤ len g
      → validate_functions (some f) g target ≡ none
  unfolding validate_functions
  validate_functions-none f reg l =
      rw
        (
          ok,
          check_from-none f reg (suc (len g)) target [] self (omega (arith, l)),
          validate_functions,
        )
        refl

  build_stage-Succeeds :
      (a : ActionSpec)
      → target ≤ len g
      → Succeeds (build_stage (suc (len g)) g target stage_result none (some a) new_builder)
  unfolding build_stage
  build_stage-Succeeds a l =
      let (n, at, ds) = needed-Sound target self in
      finish_stage-Succeeds target n stage_result none (some a)
        (build_pipeline (suc (len g)) g target new_builder) at
        (build_pipeline-Succeeds (suc (len g)) target new_builder self (omega (arith, l)))

-- On a graph that stores every node under its own id, below the next id, with a valid shape, and in
-- which the parents of every node have smaller ids than the node, when the validation of a target
-- whose id is at most the number of nodes finds no error, every function that its lineage names is
-- registered and the action is supported, the planner returns a plan.
pub plan_stages_complete :
    (f : FunctionLookup) (g : RddGraph) (a : ActionSpec)
    → IsGraph g
    → Descends g
    → validate g a.target_rdd ≡ none
    → AllRegistered f g a.target_rdd
    → validate_action_kind a.kind a.target_rdd ≡ none
    → a.target_rdd ≤ len g
    → (p : StagePlan) × (plan_stages (some f) g a ≡ inr p)
unfolding Succeeds plan_stages
plan_stages_complete f g a graph down ok reg kind l =
    rw (kind, validate_functions-none g a.target_rdd graph down ok f reg l, plan_stages)
      (plan_of-Succeeds g a.target_rdd graph down ok a.target_rdd _
        (build_stage-Succeeds g a.target_rdd graph down ok a l))
