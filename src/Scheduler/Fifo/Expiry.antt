-- ===== src/Scheduler/Fifo/Expiry.antt =====
-- scheduler/worker_expiry.go: silent workers are fenced and their assignments retired.
-- `text_ltb` is Go's `<` on strings, and `lost_message` formats the failure's text.
use sparkcore_go.Common.{
  sort, Bool, List, Option, String, [], false, if◌then◌else◌, int_leb, leb, ltb, nat_eq, none, pos,
  some, string_eq, to_ℕ, true, ℕ, ℤ, ◌&&◌, ◌+◌, ◌∷◌,
}
use sparkcore_go.Common.Dict.{Dict, lookup, insert}
use sparkcore_go.Plan.{TaskAttemptId, WorkerId}
use sparkcore_go.Scheduler.{TaskAttemptFailure, failure_worker_lost, failed}
use sparkcore_go.Scheduler.Fifo.{
  FifoTaskScheduler, WorkerState, WorkerStatus, alive, lost, FifoError, task_scheduler_closed,
  bad_timeout, TaskAssignment,
}
use sparkcore_go.Scheduler.Fifo.Offer.{compact_queue}
use sparkcore_go.Scheduler.Fifo.Report.{settle, fail_attempt}

abbrev pub is_alive : WorkerStatus → Bool
is_alive alive = true
is_alive lost = false

-- `now.Sub(w.LastHeartbeat) >= timeout`, for a positive timeout.
unfoldable pub is_silent : ℕ → ℕ → WorkerState → Bool
is_silent now timeout w = is_alive w.status && leb (w.last_heartbeat + timeout) now

unfoldable pub silent_workers : ℕ → ℕ → Dict WorkerId WorkerState → List WorkerId
unfolding is_silent
silent_workers now timeout [] = []
silent_workers now timeout ((id, w) ∷ ws) =
    if is_silent now timeout w
    then id ∷ silent_workers now timeout ws
    else silent_workers now timeout ws

module _ (lost_message : WorkerId → String) where
  abbrev pub loss_report : WorkerId → TaskAssignment → TaskAttemptFailure
  loss_report id a = record {
    kind = failure_worker_lost;
    shuffle_input = none;
    job_id = a.job_id;
    stage_id = a.stage_id;
    attempt = a.attempt.identity;
    partition_id = a.attempt.task.partition_id;
    worker_id = id;
    error = lost_message id;
  }

module _ (lost_message : WorkerId → String) {V : Type 0} where
  unfoldable pub lose_attempt : WorkerId → TaskAttemptId → FifoTaskScheduler V → FifoTaskScheduler V
  lose_attempt id attempt_id s = elim (lookup attempt_id s.attempts) [
    | none ↦ s
    | some a ↦
        settle s a failed
          (fail_attempt s.max_task_attempts (loss_report lost_message id a.assignment) a.task)
  ]

  unfoldable pub lose_attempts :
      WorkerId → List TaskAttemptId → FifoTaskScheduler V → FifoTaskScheduler V
  lose_attempts id [] s = s
  lose_attempts id (a ∷ rest) s = lose_attempts id rest (lose_attempt id a s)

  unfoldable pub lose_worker : WorkerId → FifoTaskScheduler V → FifoTaskScheduler V
  lose_worker id s = elim (lookup id s.workers) [
    | none ↦ s
    | some w ↦
        lose_attempts id (sort ltb w.reserved)
          (record s { workers = insert id (record w { status = lost }) s.workers })
  ]

  unfoldable pub lose_workers : List WorkerId → FifoTaskScheduler V → FifoTaskScheduler V
  lose_workers [] s = s
  lose_workers (id ∷ rest) s = lose_workers rest (lose_worker id s)

module _ (text_ltb : String → String → Bool) (lost_message : WorkerId → String) {V : Type 0} where
  unfoldable pub expire_workers :
      ℕ → ℤ → FifoTaskScheduler V → FifoTaskScheduler V × List WorkerId × Option FifoError
  expire_workers now timeout s =
      if int_leb timeout (pos 0)
      then (s, [], some bad_timeout)
      else if s.closed
      then (s, [], some task_scheduler_closed)
      else let silent = sort text_ltb (silent_workers now (to_ℕ timeout) s.workers) in
        (compact_queue (lose_workers lost_message silent s), silent, none)
