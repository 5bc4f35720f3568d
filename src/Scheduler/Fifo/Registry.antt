-- ===== src/Scheduler/Fifo/Registry.antt =====
-- scheduler/worker_registry.go and RegisterWorker: registration of workers.
use sparkcore_go.Common.{
  Option, [], if◌then◌else◌, int_eq, int_leb, nat_eq, none, not, pos, some, string_eq, to_ℕ, ℕ, ℤ,
  ◌==◌, ◌||◌,
}
use sparkcore_go.Common.Dict.{Dict, lookup, insert}
use sparkcore_go.Plan.{WorkerId}
use sparkcore_go.Scheduler.Fifo.{
  FifoTaskScheduler, WorkerState, WorkerStatus, alive, lost, FifoError, task_scheduler_closed,
  worker_is_lost, worker_conflict, invalid_worker,
}

abbrev pub new_worker : WorkerId → ℕ → ℕ → WorkerState
new_worker id slots now = record {
  id = id;
  status = alive;
  total_slots = slots;
  reported_free_slots = 0;
  running_attempt_ids = [];
  last_heartbeat = now;
  reserved = [];
}

-- A worker that is already known, by its status and capacity.
readmit : WorkerStatus → ℤ → WorkerState → Option FifoError
readmit lost slots w = some worker_is_lost
readmit alive slots w = if not (pos w.total_slots == slots) then some worker_conflict else none

unfoldable pub register :
    WorkerId → ℤ → ℕ → Dict WorkerId WorkerState → Dict WorkerId WorkerState × Option FifoError
unfolding readmit
register id slots now workers =
    if id == "" || int_leb slots (pos 0)
    then (workers, some invalid_worker)
    else elim (lookup id workers) [
      | some w ↦ (workers, readmit w.status slots w)
      | none ↦ (insert id (new_worker id (to_ℕ slots) now) workers, none)
    ]

module _ {V : Type 0} where
  unfoldable pub register_worker :
      WorkerId → ℤ → ℕ → FifoTaskScheduler V → FifoTaskScheduler V × Option FifoError
  unfolding register
  register_worker id slots now s =
      if s.closed
      then (s, some task_scheduler_closed)
      else let (workers, e) = register id slots now s.workers in (record s { workers = workers }, e)
