-- ===== src/Scheduler/Fifo/Report.antt =====
-- ReportSuccess, ReportFailure and what they share: `validateReport`, `release`, `failAttempt`.
use sparkcore_go.Common.{
  Bool, List, Option, String, [], erase, false, get_elem?, if◌then◌else◌, int_eq, is_some, ltb,
  nat_eq, none, not, set, some, string_eq, suc, to_ℕ, true, zero, ℕ, ◌&&◌, ◌++◌, ◌-◌, ◌==◌, ◌||◌,
  ◌∷◌,
}
use sparkcore_go.Common.Dict.{Dict, lookup, insert}
use sparkcore_go.Plan.{JobId, StageId, PartitionId, WorkerId, TaskAttemptId}
use sparkcore_go.Shuffle.{InputReference, InputSnapshot, attempt_identity_eq}
use sparkcore_go.Scheduler.{
  TaskState, pending, succeeded, failed, TaskAttemptIdentity, task_attempt_identity_eq,
  TaskAttemptSuccess, TaskAttemptFailure, TaskExecution, TaskOutput, FailureKind, failure_execution,
  failure_worker_lost, failure_permanent, failure_shuffle_input, failure_canceled, other_failure,
  unassigned_input, empty_failure_message,
}
use sparkcore_go.Scheduler.Output.{validate_for, validate_failure}
use sparkcore_go.Scheduler.Fifo.{
  FifoTaskScheduler, WorkerState, FifoError, task_scheduler_closed, unknown_worker, unknown_attempt,
  mismatched_report, invalid_task_report, context_error, task_error, LogicalTask, FifoTaskSet,
  TaskSetKey, task_set_key_eq, TaskAssignment, AssignedAttempt, finish, notify, success, failure,
}

-- What `validateReport` returns: an error, a nil attempt, or the attempt.
pub data ReportCheck : Type 0 where
  refused : FifoError → ReportCheck
  obsolete : ReportCheck
  current : AssignedAttempt → ReportCheck

unfoldable pub same_assignment :
    TaskAssignment → JobId → StageId → TaskAttemptIdentity → PartitionId → WorkerId → Bool
same_assignment a job stage identity partition worker =
    a.job_id == job
    && a.stage_id == stage
    && a.attempt.identity == identity
    && a.attempt.task.partition_id == partition
    && a.attempt.worker_id == worker

unfoldable pub retire : TaskState → AssignedAttempt → AssignedAttempt
retire st a = record a {
  terminal = true;
  assignment = record a.assignment { attempt = record a.assignment.attempt { state = st } };
}

unfoldable pub unreserve :
    WorkerId → TaskAttemptId → Dict WorkerId WorkerState → Dict WorkerId WorkerState
unreserve w id workers = elim (lookup w workers) [
  | none ↦ workers
  | some worker ↦ insert w (record worker { reserved = erase id worker.reserved }) workers
]

unfoldable pub is_retryable : FailureKind → Bool
is_retryable failure_execution = true
is_retryable failure_worker_lost = true
is_retryable failure_permanent = false
is_retryable failure_shuffle_input = false
is_retryable failure_canceled = false
is_retryable (other_failure k) = false

module _ {V : Type 0} where
  -- `attempt.task`, through the set that it points into.
  unfoldable pub task_of : FifoTaskScheduler V → AssignedAttempt → Option (LogicalTask V)
  task_of s a = elim (lookup a.set s.sets) [ none ↦ none | some set ↦ get_elem? set.tasks a.task ]

  -- `attempt.task.active == id`
  unfoldable pub is_active : FifoTaskScheduler V → AssignedAttempt → TaskAttemptId → Bool
  unfolding task_of
  is_active s a id = elim (task_of s a) [ none ↦ false | some t ↦ t.active == id ]

  unfoldable pub validate_report :
      FifoTaskScheduler V
      → JobId
      → StageId
      → TaskAttemptIdentity
      → PartitionId
      → WorkerId
      → ReportCheck
  unfolding same_assignment
  validate_report s job stage identity partition worker =
      if s.closed
      then refused task_scheduler_closed
      else if not (is_some (lookup worker s.workers))
      then refused unknown_worker
      else elim (lookup identity.id s.attempts) [
        | none ↦ refused unknown_attempt
        | some a ↦
            if not (same_assignment a.assignment job stage identity partition worker)
            then refused mismatched_report
            else if a.terminal || not (is_active s a identity.id)
            then obsolete
            else current a
      ]

  abbrev pub set_task_state : TaskState → LogicalTask V → LogicalTask V
  set_task_state st t = record t { state = st }

  -- A change of the task at a position.
  unfoldable pub update_task :
      ℕ → (LogicalTask V → LogicalTask V) → List (LogicalTask V) → List (LogicalTask V)
  update_task i f [] = []
  update_task zero f (t ∷ ts) = f t ∷ ts
  update_task (suc i) f (t ∷ ts) = t ∷ update_task i f ts

  unfoldable pub release_task : ℕ → TaskState → FifoTaskSet V → FifoTaskSet V
  unfolding update_task
  release_task i st set = record set { tasks = update_task i (set_task_state st) set.tasks }

  -- A change of the object that a key points to.
  unfoldable pub update_set :
      TaskSetKey
      → (FifoTaskSet V → FifoTaskSet V)
      → Dict TaskSetKey (FifoTaskSet V)
      → Dict TaskSetKey (FifoTaskSet V)
  update_set k f sets = elim (lookup k sets) [ none ↦ sets | some set ↦ insert k (f set) sets ]

  -- `release`, and then `f` on the attempt's set.
  unfoldable pub settle :
      FifoTaskScheduler V
      → AssignedAttempt
      → TaskState
      → (FifoTaskSet V → FifoTaskSet V)
      → FifoTaskScheduler V
  unfolding retire unreserve update_set release_task
  settle s a st f = record s {
    attempts = insert a.assignment.attempt.identity.id (retire st a) s.attempts;
    workers = unreserve a.assignment.attempt.worker_id a.assignment.attempt.identity.id s.workers;
    sets = update_set a.set (λ set. f (release_task a.task st set)) s.sets;
  }

  abbrev pub set_output : TaskOutput V → LogicalTask V → LogicalTask V
  set_output o t = record t { output = o }

  -- ReportSuccess after the release. A live set has tasks remaining.
  unfoldable pub accept_success : TaskAttemptSuccess V → ℕ → FifoTaskSet V → FifoTaskSet V
  unfolding finish notify update_task
  accept_success r i set = if set.terminal then set else elim set.ctx [
    | some e ↦ finish (some (context_error e)) set
    | none ↦
        let set' = record set {
          tasks = update_task i (set_output r.output) set.tasks;
          remaining = set.remaining - 1;
          reports = set.reports ++ (success r ∷ []);
        } in
        if set'.remaining == 0 then finish none set' else notify set'
  ]

  -- The end of failAttempt, on the attempt's task, whose state is already `failed`.
  unfoldable pub fail_task :
      ℕ → TaskAttemptFailure → ℕ → LogicalTask V → FifoTaskSet V → FifoTaskSet V
  unfolding finish notify update_task is_retryable
  fail_task max r i t set =
      let retryable = is_retryable r.kind in
      let requeued = retryable && ltb t.attempts max in
      let set' = record set {
        reports = set.reports ++ (failure r requeued (retryable && not requeued) t.attempts ∷ []);
      } in
      if requeued
      then notify (record set' { tasks = update_task i (set_task_state pending) set.tasks })
      else finish (some (task_error r.stage_id r.attempt.task_id r.partition_id r.error)) set'

  -- failAttempt after the release.
  unfoldable pub fail_attempt : ℕ → TaskAttemptFailure → ℕ → FifoTaskSet V → FifoTaskSet V
  unfolding finish fail_task
  fail_attempt max r i set = if set.terminal then set else elim set.ctx [
    | some e ↦ finish (some (context_error e)) set
    | none ↦ elim (get_elem? set.tasks i) [ none ↦ set | some t ↦ fail_task max r i t set ]
  ]

abbrev pub execution_of : TaskAssignment → TaskExecution
execution_of a = record {
  run_id = a.run_id;
  job_id = a.job_id;
  task = a.attempt.task;
  attempt = a.attempt.identity;
  worker_id = "";
  shuffle_inputs = none;
}

-- A failure's input reference names an input that the attempt was given.
unfoldable pub assigned_input : Option InputSnapshot → PartitionId → InputReference → Bool
assigned_input none partition ref = false
assigned_input (some inputs) partition ref =
    (ref.partition_id == partition)
    && elim (get_elem? inputs.outputs (to_ℕ ref.attempt.map_partition_id)) [
      | none ↦ false
      | some o ↦ o.attempt == ref.attempt
    ]

unfoldable pub input_allowed : TaskAssignment → Option InputReference → Bool
unfolding assigned_input
input_allowed a none = true
input_allowed a (some ref) = assigned_input a.shuffle_inputs a.attempt.task.partition_id ref

module _ (empty_digest : String) {V : Type 0} where
  unfoldable pub report_checked :
      ReportCheck
      → TaskAttemptSuccess V
      → FifoTaskScheduler V
      → FifoTaskScheduler V × Option FifoError
  report_checked (refused e) r s = (s, some e)
  report_checked obsolete r s = (s, none)
  report_checked (current a) r s =
      elim (validate_for empty_digest r.output (execution_of a.assignment)) [
        | some x ↦ (s, some (invalid_task_report x))
        | none ↦ (settle s a succeeded (accept_success r a.task), none)
      ]

  unfoldable pub report_success :
      TaskAttemptSuccess V → FifoTaskScheduler V → FifoTaskScheduler V × Option FifoError
  unfolding report_checked
  report_success r s =
      report_checked (validate_report s r.job_id r.stage_id r.attempt r.partition_id r.worker_id) r
        s

module _ {V : Type 0} where
  unfoldable pub failure_checked :
      ReportCheck
      → TaskAttemptFailure
      → FifoTaskScheduler V
      → FifoTaskScheduler V × Option FifoError
  failure_checked (refused e) r s = (s, some e)
  failure_checked obsolete r s = (s, none)
  failure_checked (current a) r s = elim (validate_failure r.kind r.shuffle_input) [
    | some x ↦ (s, some (invalid_task_report x))
    | none ↦
        if input_allowed a.assignment r.shuffle_input
        then (settle s a failed (fail_attempt s.max_task_attempts r a.task), none)
        else (s, some (invalid_task_report unassigned_input))
  ]

  unfoldable pub report_failure :
      TaskAttemptFailure → FifoTaskScheduler V → FifoTaskScheduler V × Option FifoError
  unfolding failure_checked
  report_failure r s =
      if r.error == ""
      then (s, some (invalid_task_report empty_failure_message))
      else failure_checked
          (validate_report s r.job_id r.stage_id r.attempt r.partition_id r.worker_id) r s
