-- ===== src/Scheduler/Dag.antt =====
-- scheduler/dag_scheduler.go, dag_stage_execution.go, event.go: the state of the DAG scheduler and
-- its events. What its goroutines do is seen from here as the task sets that were submitted, the
-- scopes that were canceled and the responses that were sent, in their order.
pub mod Stages
pub mod Recovery
pub mod Handlers
pub mod Attempts
pub mod Limit
pub mod History
pub mod Tests
use sparkcore_go.Scheduler.{
  TaskOutput, TaskAttemptFailure, TaskAttemptSuccess, InvalidReport, Task, stage_shuffle_map,
  stage_result, ContextError, TaskSet, ActionSpec, StageKind, Stage,
}
use sparkcore_go.Plan.{TaskId, PartitionId, StageAttemptId, StageId, JobId}
use sparkcore_go.Plan.Graph.{RddGraph}
use sparkcore_go.Shuffle.{InvalidShuffle}
use sparkcore_go.Common.{false, ℕ, Option, String, true, Bool, ℤ, List}
use sparkcore_go.Scheduler.Generator.{GenerateError}
use sparkcore_go.Common.Dict.{Dict}
use sparkcore_go.Scheduler.Planner.{PlanError}

pub data StageStatus : Type 0 where
  stage_pending stage_running stage_succeeded : StageStatus

-- `attempt_id` is 0 before the first start, as in the source.
pub record StageState (V : Type 0) : Type 0 where
  pub stage : Stage
  pub attempt_id : StageAttemptId
  pub status : StageStatus
  pub attempts : ℕ
  pub tasks : List Task
  pub remaining : ℤ
  pub outputs : Dict PartitionId (TaskOutput V)

-- `ctx` is the error of the job's context, if it is done.
pub record JobState (V : Type 0) : Type 0 where
  pub action : ActionSpec
  pub run_id : String
  pub stages : Dict StageId (StageState V)
  pub order : List StageId
  pub result_stage_id : StageId
  pub ctx : Option ContextError

pub record JobResult (V : Type 0) : Type 0 where
  pub records : List V
  pub count : ℤ

pub data DagError : Type 0 where
  scheduler_closed unsupported_execution : DagError
  planning : PlanError → DagError
  generating : GenerateError → DagError
  job_context : ContextError → DagError
  attempts_exhausted : StageId → ℕ → DagError
  exhausted_after_failure : StageId → ℕ → String → DagError
  stage_inputs_invalid : StageId → InvalidShuffle → DagError
  stage_output_invalid : InvalidReport → DagError
  shuffle_failure_invalid : InvalidReport → DagError
  no_recoverable_parent no_completed_parent no_current_input : StageId → DagError
  task_failure : StageId → TaskId → PartitionId → String → DagError
  unfinished_partitions : ℤ → DagError
  task_set_error : String → DagError
  nil_dereference : DagError

pub data JobCompletion (V : Type 0) : Type 0 where
  completed : JobResult V → JobCompletion V
  job_failed : DagError → JobCompletion V

pub data Canceled : Type 0 where
  job_scope : JobId → Canceled
  stage_scope : JobId → StageId → StageAttemptId → Canceled

pub record DagScheduler (V : Type 0) : Type 0 where
  pub jobs : Dict JobId (JobState V)
  pub next_stage_attempt_id : StageAttemptId
  pub stopping : Bool
  pub submitted : List TaskSet
  pub canceled : List Canceled
  pub responses : List (JobId × JobCompletion V)

-- The events of the loop. `context_done` is not one of them: it is the environment, which ends the
-- context of a job's caller.
pub data DagEvent (V : Type 0) : Type 0 where
  job_submitted : JobId → Option ContextError → RddGraph → ActionSpec → DagEvent V
  task_succeeded : TaskAttemptSuccess V → DagEvent V
  task_failed : TaskAttemptFailure → DagEvent V
  task_set_finished : JobId → StageId → StageAttemptId → Option String → DagEvent V
  job_canceled : JobId → ContextError → DagEvent V
  scheduler_stopping : DagEvent V
  context_done : JobId → ContextError → DagEvent V

abbrev pub is_stage_pending : StageStatus → Bool
is_stage_pending stage_pending = true
is_stage_pending _ = false

abbrev pub is_stage_running : StageStatus → Bool
is_stage_running stage_running = true
is_stage_running _ = false

abbrev pub is_stage_succeeded : StageStatus → Bool
is_stage_succeeded stage_succeeded = true
is_stage_succeeded _ = false

abbrev pub is_map_kind : StageKind → Bool
is_map_kind stage_shuffle_map = true
is_map_kind _ = false

abbrev pub is_result_kind : StageKind → Bool
is_result_kind stage_result = true
is_result_kind _ = false
