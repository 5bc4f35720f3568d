-- ===== src/Scheduler/Dag/Stages.antt =====
-- scheduler/dag_stage_execution.go: the plans that can be executed and the start of ready stages.
use sparkcore_go.Common.{
  ◌+◌, ◌++◌, int_eq, length, u64_inc, leb, suc, is_some, inr, nat_eq, inl, ◌||◌, is_empty, [], pos,
  ◌&&◌, false, ◌==◌, ℤ, ◌∷◌, some, ◌⊎◌, not, true, none, Bool, String, Option, ℕ, List,
  if◌then◌else◌,
}
use sparkcore_go.Scheduler.Dag.{
  stage_running, attempts_exhausted, stage_inputs_invalid, is_stage_succeeded, job_context,
  unsupported_execution, nil_dereference, is_stage_pending, is_map_kind, is_result_kind, DagError,
  StageState, JobState,
}
use sparkcore_go.Common.Dict.{insert, lookup, Dict}
use sparkcore_go.Shuffle.Input.{validate_input}
use sparkcore_go.Shuffle.{MapOutput, InputSnapshot}
use sparkcore_go.Scheduler.{Task, TaskOutput, TaskSet, StageOperation, ShuffleWriteSpec, Stage}
use sparkcore_go.Plan.{StageAttemptId, PartitionId, StageId, JobId}

-- The two shapes of validateExecutionPlan. A nil pointer is `none`.
unfoldable pub is_narrow_plan : Stage → Bool
is_narrow_plan s = is_result_kind s.kind && is_empty s.parent_ids && not (is_some s.shuffle_write)

-- The child's first operation reads the shuffle that the parent writes.
unfoldable pub reads_shuffle : Option ShuffleWriteSpec → List StageOperation → Bool
reads_shuffle (some w) (o ∷ os) = elim o.shuffle_read [
  | none ↦ false
  | some r ↦ r.shuffle_id == w.shuffle_id
]
reads_shuffle _ _ = false

unfoldable pub has_one_parent : List StageId → StageId → Bool
has_one_parent (p ∷ []) id = p == id
has_one_parent _ id = false

unfoldable pub is_shuffle_plan : Stage → Stage → Bool
unfolding reads_shuffle has_one_parent
is_shuffle_plan parent child =
    is_map_kind parent.kind
    && is_empty parent.parent_ids
    && is_result_kind child.kind
    && has_one_parent child.parent_ids parent.id
    && reads_shuffle parent.shuffle_write child.operations

unfoldable pub validate_execution_plan : List Stage → Option DagError
unfolding is_narrow_plan is_shuffle_plan
validate_execution_plan (s ∷ []) = if is_narrow_plan s then none else some unsupported_execution
validate_execution_plan (parent ∷ child ∷ []) =
    if is_shuffle_plan parent child then none else some unsupported_execution
validate_execution_plan _ = some unsupported_execution

-- What the loop over the stages of a job changes.
pub record StartState (V : Type 0) : Type 0 where
  pub job : JobState V
  pub next : StageAttemptId
  pub submitted : List TaskSet

module _ {V : Type 0} where
  unfoldable pub parents_succeeded : Dict StageId (StageState V) → List StageId → Bool
  parents_succeeded stages [] = true
  parents_succeeded stages (p ∷ ps) =
      elim (lookup p stages) [ none ↦ false | some s ↦ is_stage_succeeded s.status ]
      && parents_succeeded stages ps

  -- The map outputs of the parent's partitions from `i`; `none` where the source would panic.
  unfoldable pub map_outputs :
      Dict PartitionId (TaskOutput V) → ℕ → List Task → Option (List MapOutput)
  map_outputs outputs i [] = some []
  map_outputs outputs i (t ∷ ts) = elim (lookup (pos i) outputs) [
    | none ↦ none
    | some o ↦ elim o.shuffle_output [
      | none ↦ none
      | some m ↦ elim (map_outputs outputs (suc i) ts) [ none ↦ none | some ms ↦ some (m ∷ ms) ]
    ]
  ]

  unfoldable pub snapshot_of :
      JobId → JobState V → StageState V → ShuffleWriteSpec → ℤ → List MapOutput → InputSnapshot
  snapshot_of id job parent w reduces outputs = record {
    run_id = job.run_id;
    job_id = id;
    shuffle_id = w.shuffle_id;
    stage_id = parent.stage.id;
    stage_attempt_id = parent.attempt_id;
    num_map_partitions = pos (length parent.tasks);
    num_reduce_partitions = reduces;
    outputs = outputs;
  }

  -- The inputs of a stage, from its first parent.
  unfoldable pub stage_inputs :
      String → JobId → JobState V → StageState V → List StageId → DagError ⊎ Option InputSnapshot
  unfolding map_outputs snapshot_of
  stage_inputs empty_digest id job s [] = inr none
  stage_inputs empty_digest id job s (p ∷ ps) = elim (lookup p job.stages) [
    | none ↦ inl nil_dereference
    | some parent ↦ elim parent.stage.shuffle_write [
      | none ↦ inl nil_dereference
      | some w ↦ elim (map_outputs parent.outputs 0 parent.tasks) [
        | none ↦ inl nil_dereference
        | some outputs ↦
            let inputs = snapshot_of id job parent w s.stage.num_partitions outputs in
            elim (validate_input empty_digest inputs) [
              | some e ↦ inl (stage_inputs_invalid s.stage.id e)
              | none ↦ inr (some inputs)
            ]
      ]
    ]
  ]

  -- The end of the loop's body: the stage takes the next attempt id and its task set is submitted.
  unfoldable pub launch :
      JobId
      → StageId
      → StageState V
      → StartState V
      → DagError ⊎ Option InputSnapshot
      → Option DagError × StartState V
  launch job_id id s o (inl e) = (some e, o)
  launch job_id id s o (inr inputs) = (
    none,
    record o {
      next = u64_inc o.next;
      submitted =
          o.submitted
          ++ (record {
            shuffle_inputs = inputs;
            job_id = job_id;
            stage_id = id;
            stage_attempt_id = o.next;
            tasks = s.tasks;
          }
              ∷ []);
      job = record o.job {
        stages =
            insert id
              (record s { attempt_id = o.next; status = stage_running; attempts = s.attempts + 1 })
              o.job.stages;
      };
    },
  )

  module _ (max : ℕ) (empty_digest : String) where
    -- The body of the loop for a stage that the job has.
    unfoldable pub start_found :
        JobId → StageId → StageState V → StartState V → Option DagError × StartState V
    unfolding launch parents_succeeded stage_inputs
    start_found job_id id s o =
        if not (is_stage_pending s.status)
          || not (parents_succeeded o.job.stages s.stage.parent_ids)
        then (none, o)
        else if leb max s.attempts
        then (some (attempts_exhausted id max), o)
        else launch job_id id s o (stage_inputs empty_digest job_id o.job s s.stage.parent_ids)

    unfoldable pub start_stage : JobId → StageId → StartState V → Option DagError × StartState V
    unfolding start_found
    start_stage job_id id o = elim (lookup id o.job.stages) [
      | none ↦ (some nil_dereference, o)
      | some s ↦ start_found job_id id s o
    ]

    unfoldable pub start_stages :
        JobId → List StageId → StartState V → Option DagError × StartState V
    start_stages job_id [] o = (none, o)
    start_stages job_id (id ∷ ids) o =
        let (e, o') = start_stage job_id id o in
        elim e [ some x ↦ (some x, o') | none ↦ start_stages job_id ids o' ]

    unfoldable pub start_ready_stages : JobId → StartState V → Option DagError × StartState V
    unfolding start_stages
    start_ready_stages job_id o = elim o.job.ctx [
      | some e ↦ (some (job_context e), o)
      | none ↦ start_stages job_id o.job.order o
    ]
