-- ===== src/Scheduler/Fifo/Lifecycle.antt =====
-- ScheduleTaskSet in its atomic sections, Close, and a context that ends.
use sparkcore_go.Common.{
  u64_inc, Bool, List, Option, String, [], false, if◌then◌else◌, is_some, none, not, set, some,
  true, ◌++◌, ◌∷◌,
}
use sparkcore_go.Common.Dict.{Dict, lookup, insert}
use sparkcore_go.Scheduler.{TaskSet, TaskAttemptSuccess, TaskAttemptFailure, ContextError}
use sparkcore_go.Scheduler.Fifo.{
  FifoTaskScheduler, FifoError, task_scheduler_closed, nil_observer, already_submitted,
  context_error, FifoTaskSet, TaskSetKey, task_set_key_eq, TerminalReport, success, failure, finish,
}
use sparkcore_go.Scheduler.Fifo.Prepare.{check_task_set, new_task_set}
use sparkcore_go.Scheduler.Fifo.Report.{update_set}

-- A call of the observer.
pub data Delivery (V : Type 0) : Type 0 where
  task_succeeded : TaskAttemptSuccess V → Delivery V
  task_failed : TaskAttemptFailure → Delivery V

module _ {V : Type 0} where
  unfoldable pub enqueue : FifoTaskSet V → FifoTaskScheduler V → FifoTaskScheduler V
  enqueue set s = record s {
    sets = insert set.key (record set { sequence = s.next_sequence }) s.sets;
    queue = s.queue ++ (set.key ∷ []);
    next_sequence = u64_inc s.next_sequence;
  }

  -- The first locked section, on the prepared set.
  unfoldable pub admit :
      FifoTaskSet V → FifoTaskScheduler V → FifoTaskScheduler V × Option FifoError
  unfolding enqueue
  admit set s = if s.closed then (s, some task_scheduler_closed) else elim set.ctx [
    | some e ↦ (s, some (context_error e))
    | none ↦
        if is_some (lookup set.key s.sets)
        then (s, some already_submitted)
        else (enqueue set s, none)
  ]

  -- ScheduleTaskSet up to its loop; `observed` is `observer != nil`.
  unfoldable pub submit :
      String
      → Bool
      → Option ContextError
      → TaskSet
      → FifoTaskScheduler V
      → FifoTaskScheduler V × Option FifoError
  unfolding admit
  submit empty_digest observed ctx input s =
      if not observed then (s, some nil_observer) else elim (check_task_set empty_digest input) [
        | some e ↦ (s, some e)
        | none ↦ admit (new_task_set ctx input) s
      ]

  -- The observer's calls for the reports of a round; a requeued failure is only logged.
  unfoldable pub deliveries : List (TerminalReport V) → List (Delivery V)
  deliveries [] = []
  deliveries (success r ∷ rs) = task_succeeded r ∷ deliveries rs
  deliveries (failure r true exhausted n ∷ rs) = deliveries rs
  deliveries (failure r false exhausted n ∷ rs) = task_failed r ∷ deliveries rs

  unfoldable pub check_context : FifoTaskSet V → FifoTaskSet V
  unfolding finish
  check_context set = elim set.ctx [ none ↦ set | some e ↦ finish (some (context_error e)) set ]

  -- A round of the loop: what it delivers, and the returned error once the set is terminal.
  unfoldable pub drain :
      TaskSetKey
      → FifoTaskScheduler V
      → FifoTaskScheduler V × List (Delivery V) × Option (Option FifoError)
  unfolding check_context deliveries
  drain k s = elim (lookup k s.sets) [
    | none ↦ (s, [], none)
    | some set ↦
        let set' = check_context set in
        (
          record s { sets = insert k (record set' { reports = [] }) s.sets },
          deliveries set'.reports,
          if set'.terminal then some set'.err else none,
        )
  ]

  -- The end of a round: `<-set.wake` takes the signal, if there is one.
  unfoldable pub take_signal : TaskSetKey → FifoTaskScheduler V → FifoTaskScheduler V
  unfolding update_set
  take_signal k s = record s { sets = update_set k (λ set. record set { wake = false }) s.sets }

  -- The first error of a context is its only one.
  abbrev pub end_context : ContextError → FifoTaskSet V → FifoTaskSet V
  end_context e set = elim set.ctx [ none ↦ record set { ctx = some e } | some first ↦ set ]

  -- The environment ends the context of a submission.
  unfoldable pub cancel_context :
      TaskSetKey → ContextError → FifoTaskScheduler V → FifoTaskScheduler V
  unfolding update_set
  cancel_context k e s = record s { sets = update_set k (end_context e) s.sets }

  unfoldable pub finish_all : Dict TaskSetKey (FifoTaskSet V) → Dict TaskSetKey (FifoTaskSet V)
  unfolding finish
  finish_all [] = []
  finish_all ((k, set) ∷ sets) = (k, finish (some task_scheduler_closed) set) ∷ finish_all sets

  -- Close, up to its wait for the submissions.
  unfoldable pub close : FifoTaskScheduler V → FifoTaskScheduler V
  unfolding finish_all
  close s = record s { closed = true; sets = finish_all s.sets }
