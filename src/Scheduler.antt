-- ===== src/Scheduler.antt =====
-- scheduler/stage.go, operation.go, task.go, task_set.go, failure.go: the data of the scheduler.
-- `V` is the type of a record payload (`any` in the source), which the scheduler never inspects.
pub mod Output
pub mod Kinds
pub mod Generator
pub mod Functions
pub mod Planner
pub mod Dag
pub mod Tests
pub mod Fifo
use sparkcore_go.Common.{
  Bool, Eq, List, Option, String, arith, nat_eq, true, ℤ, ◌&&◌, ◌==◌, ◌↔◌, ◌≡◌,
}
use sparkcore_go.Plan.{
  RddId, JobId, StageId, ShuffleId, TaskId, PartitionId, StageAttemptId, TaskAttemptId, WorkerId,
  PartitionerSpec, OperatorSpec,
}
use sparkcore_go.Shuffle.{InvalidShuffle, MapOutput, InputReference, InputSnapshot}

pub data StageKind : Type 0 where
  stage_shuffle_map stage_result : StageKind
  other_stage : String → StageKind

pub data ActionKind : Type 0 where
  action_collect action_count : ActionKind
  other_action : String → ActionKind

pub record ActionSpec : Type 0 where
  pub kind : ActionKind
  pub target_rdd : RddId

pub record ShuffleWriteSpec : Type 0 where
  pub shuffle_id : ShuffleId
  pub partitioner : PartitionerSpec
  pub aggregator_id : String
  pub map_side_combine : Bool

pub data StageOperationKind : Type 0 where
  stage_operation_rdd stage_operation_shuffle_read : StageOperationKind
  other_operation : String → StageOperationKind

pub record RddOperationSpec : Type 0 where
  pub rdd_id : RddId
  pub operator : OperatorSpec

pub record ShuffleReadSpec : Type 0 where
  pub shuffle_id : ShuffleId
  pub partitioner : PartitionerSpec

pub record StageOperation : Type 0 where
  pub kind : StageOperationKind
  pub rdd : Option RddOperationSpec
  pub shuffle_read : Option ShuffleReadSpec

pub record Stage : Type 0 where
  pub id : StageId
  pub kind : StageKind
  pub parent_ids : List StageId
  pub num_partitions : ℤ
  pub operations : List StageOperation
  pub shuffle_write : Option ShuffleWriteSpec
  pub final_action : Option ActionSpec

pub record StagePlan : Type 0 where
  pub target_rdd : RddId
  pub stages : List Stage

-- The stable logical work for one stage partition.
pub record Task : Type 0 where
  pub id : TaskId
  pub stage_id : StageId
  pub stage_kind : StageKind
  pub partition_id : PartitionId
  pub num_partitions : ℤ
  pub operations : List StageOperation
  pub shuffle_write : Option ShuffleWriteSpec
  pub final_action : Option ActionSpec

pub record TaskAttemptIdentity : Type 0 where
  pub id : TaskAttemptId
  pub task_id : TaskId
  pub stage_attempt_id : StageAttemptId

abbrev pub task_attempt_identity_beq : TaskAttemptIdentity → TaskAttemptIdentity → Bool
task_attempt_identity_beq a b =
    a.id == b.id && a.task_id == b.task_id && a.stage_attempt_id == b.stage_attempt_id

pub task_attempt_identity_beq_iff :
    (a b : TaskAttemptIdentity) → (task_attempt_identity_beq a b ≡ true) ↔ (a ≡ b)
task_attempt_identity_beq_iff a b = ground arith

instance abbrev pub task_attempt_identity_eq : Eq TaskAttemptIdentity
task_attempt_identity_eq = record {
  beq = task_attempt_identity_beq;
  beq_iff = task_attempt_identity_beq_iff;
}

pub data TaskState : Type 0 where
  pending running succeeded failed : TaskState

pub record TaskAttempt : Type 0 where
  pub identity : TaskAttemptIdentity
  pub task : Task
  pub worker_id : WorkerId
  pub state : TaskState

-- `records` is `none` for a nil slice.
pub record TaskOutput (V : Type 0) : Type 0 where
  pub records : Option (List V)
  pub count : ℤ
  pub shuffle_output : Option MapOutput

pub data FailureKind : Type 0 where
  failure_execution failure_permanent failure_shuffle_input failure_canceled : FailureKind
  failure_worker_lost : FailureKind
  other_failure : String → FailureKind

pub record TaskAttemptSuccess (V : Type 0) : Type 0 where
  pub job_id : JobId
  pub stage_id : StageId
  pub attempt : TaskAttemptIdentity
  pub partition_id : PartitionId
  pub worker_id : WorkerId
  pub output : TaskOutput V

pub record TaskAttemptFailure : Type 0 where
  pub kind : FailureKind
  pub shuffle_input : Option InputReference
  pub job_id : JobId
  pub stage_id : StageId
  pub attempt : TaskAttemptIdentity
  pub partition_id : PartitionId
  pub worker_id : WorkerId
  pub error : String

pub record TaskExecution : Type 0 where
  pub run_id : String
  pub job_id : JobId
  pub task : Task
  pub attempt : TaskAttemptIdentity
  pub worker_id : WorkerId
  pub shuffle_inputs : Option InputSnapshot

pub record TaskSet : Type 0 where
  pub shuffle_inputs : Option InputSnapshot
  pub job_id : JobId
  pub stage_id : StageId
  pub stage_attempt_id : StageAttemptId
  pub tasks : List Task

-- `ctx.Err()` of a finished context.
pub data ContextError : Type 0 where
  context_canceled deadline_exceeded : ContextError

-- Why an output or a failure report is refused.
pub data InvalidReport : Type 0 where
  map_requires_shuffle_output output_mismatch result_requires_action_output : InvalidReport
  count_with_records collect_without_records unsupported_action : InvalidReport
  missing_input_identity unexpected_input_identity unknown_failure_kind : InvalidReport
  empty_failure_message unassigned_input : InvalidReport
  invalid_shuffle : InvalidShuffle → InvalidReport
