-- ===== src/Scheduler/Fifo/Offer.antt =====
-- OfferResources: a heartbeat is recorded, and the oldest pending partitions are assigned.
use sparkcore_go.Common.{
  u64_inc, Bool, List, Option, String, [], add_elem, contains, count_if, false, if◌then◌else◌,
  int_ltb, keep_if, length, ltb, min, nat_beq, nat_eq, none, not, pos, set, some, string_eq, suc,
  to_ℕ, true, ℕ, ℤ, ◌&&◌, ◌++◌, ◌+◌, ◌-◌, ◌==◌, ◌||◌, ◌∷◌,
}
use sparkcore_go.Scheduler.{ContextError, TaskState, pending, running, succeeded, failed}
use sparkcore_go.Common.Dict.{Dict, lookup, insert}
use sparkcore_go.Plan.{TaskAttemptId, WorkerId}
use sparkcore_go.Scheduler.Fifo.{
  FifoTaskScheduler, WorkerState, WorkerStatus, alive, lost, FifoError, task_scheduler_closed,
  unknown_worker, worker_is_lost, invalid_resource_offer, context_error, LogicalTask, FifoTaskSet,
  TaskSetKey, task_set_key_eq, TaskAssignment, AssignedAttempt, finish,
}

abbrev pub is_pending : TaskState → Bool
is_pending pending = true
is_pending running = false
is_pending succeeded = false
is_pending failed = false

-- The loop's variables, and the parts of the state that it writes.
pub record OfferState : Type 0 where
  pub next_attempt : ℕ
  pub attempts : Dict TaskAttemptId AssignedAttempt
  pub reserved : List TaskAttemptId
  pub available : ℕ
  pub assignments : List TaskAssignment

-- The running ids of a heartbeat: known attempts of this worker, each once.
unfoldable pub check_running :
    WorkerId → Dict TaskAttemptId AssignedAttempt → List TaskAttemptId → List TaskAttemptId → Bool
check_running w attempts seen [] = true
check_running w attempts seen (a ∷ rest) =
    let later = check_running w attempts (a ∷ seen) rest in
    if contains seen a then false else elim (lookup a attempts) [
      | none ↦ false
      | some x ↦ if x.assignment.attempt.worker_id == w then later else false
    ]

-- `available` is only tested against 0, so it may stop there. A reservation that the heartbeat does
-- not list takes a free slot.
unfoldable pub free_slots : WorkerState → ℕ → List TaskAttemptId → ℕ
free_slots w free seen =
    min (free - count_if (λ a. not (contains seen a)) w.reserved)
      (w.total_slots - length w.reserved)

module _ (run_id : String) (worker : WorkerId) {V : Type 0} where
  unfoldable pub make_assignment : FifoTaskSet V → LogicalTask V → TaskAttemptId → TaskAssignment
  make_assignment set t id = record {
    shuffle_inputs = set.inputs;
    run_id = run_id;
    job_id = set.key.job;
    stage_id = set.key.stage;
    attempt = record {
      identity = record { id = id; task_id = t.task.id; stage_attempt_id = set.key.attempt };
      task = t.task;
      worker_id = worker;
      state = running;
    };
  }

  -- The body of the loop over a set's tasks, on the task at position `i`.
  unfoldable pub assign_task :
      FifoTaskSet V → ℕ → LogicalTask V → OfferState → LogicalTask V × OfferState
  unfolding make_assignment
  assign_task set i t o =
      if nat_beq o.available 0 || not (is_pending t.state)
      then (t, o)
      else let assignment = make_assignment set t o.next_attempt in
        (
          record t { state = running; attempts = t.attempts + 1; active = o.next_attempt },
          record {
            next_attempt = u64_inc o.next_attempt;
            attempts =
                insert o.next_attempt
                  (record { assignment = assignment; set = set.key; task = i; terminal = false })
                  o.attempts;
            reserved = add_elem o.next_attempt o.reserved;
            available = o.available - 1;
            assignments = o.assignments ++ (assignment ∷ []);
          },
        )

  unfoldable pub assign_tasks :
      FifoTaskSet V → ℕ → List (LogicalTask V) → OfferState → List (LogicalTask V) × OfferState
  assign_tasks set i [] o = ([], o)
  assign_tasks set i (t ∷ ts) o =
      let (t', o') = assign_task set i t o in
      let (ts', o'') = assign_tasks set (suc i) ts o' in (t' ∷ ts', o'')

  -- A set of the queue, by its `terminal` and its `ctx.Err()`.
  unfoldable pub offer_found :
      Bool
      → Option ContextError
      → TaskSetKey
      → FifoTaskSet V
      → Dict TaskSetKey (FifoTaskSet V)
      → OfferState
      → Dict TaskSetKey (FifoTaskSet V) × OfferState
  offer_found true ctx k x sets o = (sets, o)
  offer_found false (some e) k x sets o = (insert k (finish (some (context_error e)) x) sets, o)
  offer_found false none k x sets o =
      let (ts, o') = assign_tasks x 0 x.tasks o in (insert k (record x { tasks = ts }) sets, o')

  -- The body of the loop over the queue.
  unfoldable pub offer_set :
      TaskSetKey
      → Dict TaskSetKey (FifoTaskSet V)
      → OfferState
      → Dict TaskSetKey (FifoTaskSet V) × OfferState
  unfolding offer_found
  offer_set k sets o = elim (lookup k sets) [
    | none ↦ (sets, o)
    | some x ↦ offer_found x.terminal x.ctx k x sets o
  ]

  unfoldable pub offer_sets :
      List TaskSetKey
      → Dict TaskSetKey (FifoTaskSet V)
      → OfferState
      → Dict TaskSetKey (FifoTaskSet V) × OfferState
  offer_sets [] sets o = (sets, o)
  offer_sets (k ∷ ks) sets o = let (sets', o') = offer_set k sets o in offer_sets ks sets' o'

module _ {V : Type 0} where
  abbrev pub is_live : Dict TaskSetKey (FifoTaskSet V) → TaskSetKey → Bool
  is_live sets k = elim (lookup k sets) [ none ↦ false | some set ↦ not set.terminal ]

  unfoldable pub compact_queue : FifoTaskScheduler V → FifoTaskScheduler V
  compact_queue s = record s { queue = keep_if (is_live s.sets) s.queue }

  -- The placement, once the heartbeat is accepted.
  unfoldable pub place :
      WorkerId
      → WorkerState
      → ℕ
      → List TaskAttemptId
      → ℕ
      → FifoTaskScheduler V
      → FifoTaskScheduler V × List TaskAssignment
  unfolding compact_queue
  place id w free seen now s =
      let (sets, o) = offer_sets s.run_id id s.queue s.sets (record {
        next_attempt = s.next_attempt;
        attempts = s.attempts;
        reserved = w.reserved;
        available = free_slots w free seen;
        assignments = [];
      }) in
      let worker = record w {
        reported_free_slots = free;
        running_attempt_ids = seen;
        last_heartbeat = now;
        reserved = o.reserved;
      } in
      (
        compact_queue (record s {
          sets = sets;
          attempts = o.attempts;
          next_attempt = o.next_attempt;
          workers = insert id worker s.workers;
        }),
        o.assignments,
      )

  -- The guard on a heartbeat's numbers and running ids.
  unfoldable pub valid_offer :
      WorkerId → WorkerState → ℤ → List TaskAttemptId → FifoTaskScheduler V → Bool
  valid_offer id w free seen s =
      not (
        int_ltb free (pos 0)
        || int_ltb (pos w.total_slots) free
        || ltb (w.total_slots - to_ℕ free) (length seen))
      && check_running id s.attempts [] seen

  unfoldable pub offer_to :
      WorkerStatus
      → WorkerId
      → WorkerState
      → ℤ
      → List TaskAttemptId
      → ℕ
      → FifoTaskScheduler V
      → FifoTaskScheduler V × List TaskAssignment × Option FifoError
  offer_to lost id w free seen now s = (s, [], some worker_is_lost)
  offer_to alive id w free seen now s =
      if valid_offer id w free seen s
      then (let (s', assignments) = place id w (to_ℕ free) seen now s in (s', assignments, none))
      else (s, [], some invalid_resource_offer)

  unfoldable pub offer_resources :
      WorkerId
      → ℤ
      → List TaskAttemptId
      → ℕ
      → FifoTaskScheduler V
      → FifoTaskScheduler V × List TaskAssignment × Option FifoError
  unfolding offer_to
  offer_resources id free seen now s =
      if s.closed then (s, [], some task_scheduler_closed) else elim (lookup id s.workers) [
        | none ↦ (s, [], some unknown_worker)
        | some w ↦ offer_to w.status id w free seen now s
      ]
