-- ===== src/Scheduler/Fifo.antt =====
-- scheduler/fifo_task_scheduler.go, worker_registry.go, worker_expiry.go: the state of the FIFO
-- scheduler. Go's pointers to a task set and to a logical task are its key and its position. A
-- context is its `Err()`, which the environment sets. Clones are the values themselves.
pub mod Registry
pub mod Prepare
pub mod Offer
pub mod Report
pub mod Expiry
pub mod Lifecycle
pub mod Run
pub mod Capacity
pub mod Fencing
pub mod Order
pub mod Sets
pub mod Budget
pub mod Sorted
pub mod Queue
pub mod Tests
use sparkcore_go.Common.{
  Bool, Eq, List, Option, String, [], arith, false, if◌then◌else◌, nat_eq, true, ℕ, ◌&&◌, ◌==◌, ◌↔◌,
  ◌≡◌,
}
use sparkcore_go.Common.Dict.{Dict}
use sparkcore_go.Plan.{JobId, StageId, TaskId, PartitionId, StageAttemptId, TaskAttemptId, WorkerId}
use sparkcore_go.Shuffle.{InputSnapshot, InvalidShuffle}
use sparkcore_go.Scheduler.{
  Task, TaskState, TaskOutput, TaskAttempt, TaskAttemptSuccess, TaskAttemptFailure, ContextError,
  InvalidReport,
}

pub data FifoError : Type 0 where
  task_scheduler_closed unknown_attempt mismatched_report : FifoError
  unknown_worker worker_is_lost worker_conflict invalid_worker invalid_resource_offer : FifoError
  nil_observer no_tasks already_submitted bad_timeout : FifoError
  invalid_inputs : InvalidShuffle → FifoError
  invalid_task : TaskId → PartitionId → StageId → FifoError
  invalid_task_report : InvalidReport → FifoError
  context_error : ContextError → FifoError
  task_error : StageId → TaskId → PartitionId → String → FifoError

pub data WorkerStatus : Type 0 where
  alive lost : WorkerStatus

-- `total_slots` is positive by `register`; times are nanoseconds; `reserved` is a set.
pub record WorkerState : Type 0 where
  pub id : WorkerId
  pub status : WorkerStatus
  pub total_slots : ℕ
  pub reported_free_slots : ℕ
  pub running_attempt_ids : List TaskAttemptId
  pub last_heartbeat : ℕ
  pub reserved : List TaskAttemptId

pub record TaskAssignment : Type 0 where
  pub shuffle_inputs : Option InputSnapshot
  pub run_id : String
  pub job_id : JobId
  pub stage_id : StageId
  pub attempt : TaskAttempt

pub record TaskSetKey : Type 0 where
  pub job : JobId
  pub stage : StageId
  pub attempt : StageAttemptId

abbrev pub task_set_key_beq : TaskSetKey → TaskSetKey → Bool
task_set_key_beq a b = a.job == b.job && a.stage == b.stage && a.attempt == b.attempt

pub task_set_key_beq_iff : (a b : TaskSetKey) → (task_set_key_beq a b ≡ true) ↔ (a ≡ b)
task_set_key_beq_iff a b = ground arith

instance abbrev pub task_set_key_eq : Eq TaskSetKey
task_set_key_eq = record { beq = task_set_key_beq; beq_iff = task_set_key_beq_iff }

pub record LogicalTask (V : Type 0) : Type 0 where
  pub task : Task
  pub state : TaskState
  pub active : TaskAttemptId
  pub output : TaskOutput V
  pub attempts : ℕ

-- A terminal report waiting for the observer.
pub data TerminalReport (V : Type 0) : Type 0 where
  success : TaskAttemptSuccess V → TerminalReport V
  failure : TaskAttemptFailure → (requeued exhausted : Bool) → (attempts : ℕ) → TerminalReport V

-- `wake` is the channel with room for one signal.
pub record FifoTaskSet (V : Type 0) : Type 0 where
  pub inputs : Option InputSnapshot
  pub key : TaskSetKey
  pub sequence : ℕ
  pub ctx : Option ContextError
  pub tasks : List (LogicalTask V)
  pub remaining : ℕ
  pub reports : List (TerminalReport V)
  pub wake : Bool
  pub terminal : Bool
  pub err : Option FifoError

pub record AssignedAttempt : Type 0 where
  pub assignment : TaskAssignment
  pub set : TaskSetKey
  pub task : ℕ
  pub terminal : Bool

pub record FifoTaskScheduler (V : Type 0) : Type 0 where
  pub max_task_attempts : ℕ
  pub run_id : String
  pub workers : Dict WorkerId WorkerState
  pub sets : Dict TaskSetKey (FifoTaskSet V)
  pub queue : List TaskSetKey
  pub attempts : Dict TaskAttemptId AssignedAttempt
  pub next_sequence : ℕ
  pub next_attempt : ℕ
  pub closed : Bool

module _ {V : Type 0} where
  -- NewFIFOTaskScheduler, with the limit of `resolveSchedulerOptions` and a fresh run id.
  abbrev pub new_fifo_task_scheduler : ℕ → String → FifoTaskScheduler V
  new_fifo_task_scheduler max run = record {
    max_task_attempts = max;
    run_id = run;
    workers = [];
    sets = [];
    queue = [];
    attempts = [];
    next_sequence = 0;
    next_attempt = 0;
    closed = false;
  }

  unfoldable pub finish : Option FifoError → FifoTaskSet V → FifoTaskSet V
  finish e set = if set.terminal then set else record set { terminal = true; err = e; wake = true }

  unfoldable pub notify : FifoTaskSet V → FifoTaskSet V
  notify set = record set { wake = true }
