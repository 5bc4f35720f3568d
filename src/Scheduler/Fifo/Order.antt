-- ===== src/Scheduler/Fifo/Order.antt =====
-- What an offer assigns: the oldest pending partitions.
use sparkcore_go.Common.{
  to_ℕ, length-append, ℤ, take-append, inr, inl, Option-cases, Distinct, take-nil, ◌≢◌, All,
  take-cons, arith, none, some, if◌then◌else◌, [], ◌∷◌, length, ◌-◌, take, suc, ◌++◌, ◌≡◌, map, ℕ,
  String, List, refl, nat_eq, string_eq,
}
use sparkcore_go.Scheduler.Fifo.Offer.{
  free_slots, place, offer_resources, is_pending, make_assignment, OfferState, assign_task,
  assign_tasks, offer_set, offer_sets,
}
use sparkcore_go.Scheduler.Fifo.{
  task_set_key_beq_iff, Dict, FifoTaskScheduler, TaskSetKey, task_set_key_eq, FifoTaskSet,
  LogicalTask, WorkerState, TaskAssignment,
}
use sparkcore_go.Common.Dict.{lookup-insert, lookup, Dict}
use mathlib.Core.List.{map-append, append_assoc, append-nil}
use sparkcore_go.Plan.{TaskAttemptId, WorkerId}
use sparkcore_go.Scheduler.{Task}

-- A unit of work: the set that it is in, and its task.
abbrev pub Work : Type 0
Work = TaskSetKey × Task

abbrev pub work_of : TaskAssignment → Work
work_of a = (
  record { job = a.job_id; stage = a.stage_id; attempt = a.attempt.identity.stage_attempt_id },
  a.attempt.task,
)

-- The loop's result extends the assignments by as much work as there are slots.
abbrev Serves : List Work → OfferState → OfferState → Type 0
Serves work o o' =
    (map work_of o'.assignments ≡ map work_of o.assignments ++ take o.available work)
    × (o'.available ≡ o.available - length work)

module _ {V : Type 0} where
  -- The pending tasks of a set, in the order of its list.
  unfoldable pub pending_tasks : TaskSetKey → List (LogicalTask V) → List Work
  pending_tasks k [] = []
  pending_tasks k (t ∷ ts) =
      if is_pending t.state then (k, t.task) ∷ pending_tasks k ts else pending_tasks k ts

  -- A set that can be served: neither terminal nor with an ended context.
  unfoldable pub set_work : Dict TaskSetKey (FifoTaskSet V) → TaskSetKey → List Work
  unfolding pending_tasks
  set_work sets k = elim (lookup k sets) [
    | none ↦ []
    | some x ↦
        if x.terminal then [] else elim x.ctx [ some e ↦ [] | none ↦ pending_tasks x.key x.tasks ]
  ]

  -- The pending work of the queue: sets from the front, each in partition order.
  unfoldable pub pending_work : Dict TaskSetKey (FifoTaskSet V) → List TaskSetKey → List Work
  pending_work sets [] = []
  pending_work sets (k ∷ ks) = set_work sets k ++ pending_work sets ks

  module _ (run_id : String) (worker : WorkerId) where
    assign_task-Serves :
        (x : FifoTaskSet V) (i : ℕ) (t : LogicalTask V) (ts : List (LogicalTask V))
        (o o' : OfferState)
        → Serves (pending_tasks x.key ts) (assign_task run_id worker x i t o).1 o'
        → Serves (pending_tasks x.key (t ∷ ts)) o o'
    unfolding pending_tasks assign_task make_assignment
    assign_task-Serves x i t ts o o' h = ground (
      arith,
      h,
      take-cons o.available (x.key, t.task) (pending_tasks x.key ts),
      map-append work_of o.assignments (make_assignment run_id worker x t o.next_attempt ∷ []),
      append_assoc (map work_of o.assignments) ((x.key, t.task) ∷ [])
          (take (o.available - 1) (pending_tasks x.key ts)),
    )

    assign_tasks-Serves :
        (x : FifoTaskSet V) (i : ℕ) (ts : List (LogicalTask V)) (o : OfferState)
        → Serves (pending_tasks x.key ts) o (assign_tasks run_id worker x i ts o).1
    unfolding pending_tasks assign_tasks
    assign_tasks-Serves x i [] o = (rw (take-nil o.available, append-nil), omega arith)
    assign_tasks-Serves x i (t ∷ ts) o =
        assign_task-Serves x i t ts o
          (assign_tasks run_id worker x (suc i) ts (assign_task run_id worker x i t o).1).1
          (assign_tasks-Serves x (suc i) ts (assign_task run_id worker x i t o).1)

    offer_set-Serves :
        (k : TaskSetKey) (sets : Dict TaskSetKey (FifoTaskSet V)) (o : OfferState)
        → Serves (set_work sets k) o (offer_set run_id worker k sets o).1
    unfolding set_work offer_set
    offer_set-Serves k sets o = elim (Option-cases (lookup k sets)) [
      | inl e ↦
          rw (e, set_work, offer_set)
            (rw (take-nil {A = Work} o.available, append-nil), omega arith)
      | inr (x, e) ↦
          rw (e, set_work, offer_set)
            (ground (
              arith,
              assign_tasks-Serves x 0 x.tasks o,
              take-nil {A = Work} o.available,
              append-nil (map work_of o.assignments),
            ))
    ]

    lookup-offer_set :
        (j k : TaskSetKey) (sets : Dict TaskSetKey (FifoTaskSet V)) (o : OfferState)
        → j ≢ k
        → lookup k (offer_set run_id worker j sets o).0 ≡ lookup k sets
    unfolding offer_set
    lookup-offer_set j k sets o h = elim (Option-cases (lookup j sets)) [
      | inl e ↦ rw (e, offer_set)
      | inr (x, e) ↦
          rw (e, offer_set)
            (grind (arith, lookup-insert {V = FifoTaskSet V} j k, task_set_key_beq_iff j k))
    ]

    -- Serving one set leaves the work of another as it was.
    set_work-offer_set :
        (j k : TaskSetKey) (sets : Dict TaskSetKey (FifoTaskSet V)) (o : OfferState)
        → j ≢ k
        → set_work (offer_set run_id worker j sets o).0 k ≡ set_work sets k
    unfolding set_work
    set_work-offer_set j k sets o h = rw (lookup-offer_set j k sets o h, set_work)

    pending_work-offer_set :
        (j : TaskSetKey) (ks : List TaskSetKey) (sets : Dict TaskSetKey (FifoTaskSet V))
        (o : OfferState)
        → All (λ k. j ≢ k) ks
        → pending_work (offer_set run_id worker j sets o).0 ks ≡ pending_work sets ks
    unfolding pending_work
    pending_work-offer_set j [] sets o h = refl
    pending_work-offer_set j (k ∷ ks) sets o h =
        rw (set_work-offer_set j k sets o h.0, pending_work-offer_set j ks sets o h.1)

    offer_sets-Serves :
        (ks : List TaskSetKey) (sets : Dict TaskSetKey (FifoTaskSet V)) (o : OfferState)
        → Distinct ks
        → Serves (pending_work sets ks) o (offer_sets run_id worker ks sets o).1
    unfolding pending_work offer_sets
    offer_sets-Serves [] sets o d = (rw (take-nil o.available, append-nil), omega arith)
    offer_sets-Serves (k ∷ ks) sets o d =
        let first = offer_set-Serves k sets o in
        let o1 = (offer_set run_id worker k sets o).1 in
        let sets1 = (offer_set run_id worker k sets o).0 in
        let rest = offer_sets-Serves ks sets1 o1 d.1 in
        ground (
          arith,
          first,
          rest,
          pending_work-offer_set k ks sets o d.0,
          take-append o.available (set_work sets k) (pending_work sets ks),
          append_assoc (map work_of o.assignments) (take o.available (set_work sets k))
              (take (o.available - length (set_work sets k)) (pending_work sets ks)),
          length-append (set_work sets k) (pending_work sets ks),
        )

  place-oldest_first :
      (s : FifoTaskScheduler V) (id : WorkerId) (free : ℕ) (seen : List TaskAttemptId) (now : ℕ)
      (w : WorkerState)
      → Distinct s.queue
      → map work_of (place id w free seen now s).1
        ≡ take (free_slots w free seen) (pending_work s.sets s.queue)
  unfolding place
  place-oldest_first s id free seen now w d = (offer_sets-Serves s.run_id id s.queue s.sets _ d).0

  -- An accepted offer assigns the first pending partitions of the queue, the oldest set first and
  -- each set in the order of its tasks, as many as the worker's free slots allow; the queue's keys
  -- are distinct.
  pub offer-oldest_first :
      (s : FifoTaskScheduler V) (id : WorkerId) (free : ℤ) (seen : List TaskAttemptId) (now : ℕ)
      (w : WorkerState)
      → Distinct s.queue
      → lookup id s.workers ≡ some w
      → (offer_resources id free seen now s).2 ≡ none
      → map work_of (offer_resources id free seen now s).1
        ≡ take (free_slots w (to_ℕ free) seen) (pending_work s.sets s.queue)
  unfolding offer_resources
  offer-oldest_first s id free seen now w d e h =
      ground (arith, place-oldest_first s id (to_ℕ free) seen now w d)
