-- ===== src/Scheduler/Fifo/Budget.antt =====
-- The retry budget of a task, and the count of tasks that a live set waits for.
use sparkcore_go.Scheduler.Fifo.Report.{
  set_task_state, is_retryable, set_output, fail_task, release_task, accept_success, fail_attempt,
  update_task,
}
use sparkcore_go.Scheduler.Fifo.{
  success, context_error, FifoError, finish, FifoTaskScheduler, FifoTaskSet, LogicalTask,
}
use sparkcore_go.Common.{
  ltb, ◌++◌, ◌&&◌, ◌==◌, ◌-◌, option-elim, zero, [], suc, if-elim, arith, map, true, false, ◌∷◌,
  Option, ◌≡◌, get_elem?, All, String, ◌<◌, List, ◌≤◌, ℕ, nat_eq, refl, none, some,
}
use sparkcore_go.Scheduler.Fifo.Prepare.{sort_tasks, new_task_set, logical_task}
use sparkcore_go.Scheduler.{
  TaskAttemptSuccess, TaskAttemptFailure, Task, TaskState, pending, succeeded, failed,
}
use sparkcore_go.Plan.{WorkerId}
use sparkcore_go.Scheduler.Fifo.Offer.{OfferState, is_pending, assign_task, assign_tasks}
use sparkcore_go.Scheduler.Fifo.Run.{Call, Externals, run}
use sparkcore_go.Scheduler.Fifo.Sets.{IsKept, run-Keeps, AllSets}

module _ {V : Type 0} where
  -- A change at one position keeps a predicate on all tasks.
  pub All-update_task :
      (P : LogicalTask V → Type 0) (i : ℕ) (f : LogicalTask V → LogicalTask V)
      (ts : List (LogicalTask V))
      → ((t : LogicalTask V) → get_elem? ts i ≡ some t → P t → P (f t))
      → All P ts
      → All P (update_task i f ts)
  unfolding update_task
  All-update_task P i f [] g h = h
  All-update_task P zero f (t ∷ ts) g h = (g t refl h.0, h.1)
  All-update_task P (suc i) f (t ∷ ts) g h = (h.0, All-update_task P i f ts g h.1)

  -- At most `max` attempts, and fewer while the task waits for another.
  abbrev pub WithinBudget : ℕ → LogicalTask V → Type 0
  WithinBudget max t = (t.attempts ≤ max) × (is_pending t.state ≡ true → t.attempts < max)

  abbrev pub IsBudgeted : ℕ → FifoTaskSet V → Type 0
  IsBudgeted max set = All (WithinBudget max) set.tasks

  module _ (max : ℕ) where
    assign_task-WithinBudget :
        (run_id : String) (worker : WorkerId) (x : FifoTaskSet V) (i : ℕ) (t : LogicalTask V)
        (o : OfferState)
        → WithinBudget max t
        → WithinBudget max (assign_task run_id worker x i t o).0
    unfolding assign_task
    assign_task-WithinBudget r w x i t o h = ground (arith, h)

    assign_tasks-WithinBudget :
        (run_id : String) (worker : WorkerId) (x : FifoTaskSet V) (i : ℕ)
        (ts : List (LogicalTask V)) (o : OfferState)
        → All (WithinBudget max) ts
        → All (WithinBudget max) (assign_tasks run_id worker x i ts o).0
    unfolding assign_tasks assign_task
    assign_tasks-WithinBudget r w x i [] o h = tt
    assign_tasks-WithinBudget r w x i (t ∷ ts) o h = (
      assign_task-WithinBudget r w x i t o h.0,
      assign_tasks-WithinBudget r w x (suc i) ts (assign_task r w x i t o).1 h.1,
    )

    finish-IsBudgeted :
        (e : Option FifoError) (x : FifoTaskSet V) → IsBudgeted max x → IsBudgeted max (finish e x)
    unfolding finish
    finish-IsBudgeted e x h = if-elim (IsBudgeted max) x.terminal (λ _. h) (λ _. h)

    release-IsBudgeted :
        (i : ℕ) (st : TaskState) (x : FifoTaskSet V)
        → is_pending st ≡ false
        → IsBudgeted max x
        → IsBudgeted max (release_task i st x)
    unfolding release_task
    release-IsBudgeted i st x n h =
        All-update_task (WithinBudget max) i _ x.tasks (λ t _ p. (p.0, λ q. cc)) h

    accept-IsBudgeted :
        (r : TaskAttemptSuccess V) (i : ℕ) (x : FifoTaskSet V)
        → IsBudgeted max x
        → IsBudgeted max (accept_success r i x)
    unfolding accept_success
    accept-IsBudgeted r i x h =
        let updated =
          All-update_task (WithinBudget max) i (set_output r.output) x.tasks (λ t _ p. p) h in
        if-elim (IsBudgeted max) x.terminal (λ _. h)
          λ _.
            option-elim (IsBudgeted max) x.ctx
              (λ _.
                if-elim (IsBudgeted max) (x.remaining - 1 == 0)
                  (λ _.
                    finish-IsBudgeted none
                      (record x {
                        tasks = update_task i (set_output r.output) x.tasks;
                        remaining = x.remaining - 1;
                        reports = x.reports ++ (success r ∷ []);
                      })
                      updated)
                  (λ _. updated))
              (λ e _. finish-IsBudgeted (some (context_error e)) x h)

    fail_task-IsBudgeted :
        (r : TaskAttemptFailure) (i : ℕ) (t : LogicalTask V) (x : FifoTaskSet V)
        → get_elem? x.tasks i ≡ some t
        → IsBudgeted max x
        → IsBudgeted max (fail_task max r i t x)
    unfolding fail_task
    fail_task-IsBudgeted r i t x e h =
        if-elim (IsBudgeted max) (is_retryable r.kind && ltb t.attempts max)
          (λ q.
            All-update_task (WithinBudget max) i (set_task_state pending) x.tasks
              (λ u v p. (p.0, λ _. ground arith)) h)
          (λ _. finish-IsBudgeted _ _ h)

    fail-IsBudgeted :
        (r : TaskAttemptFailure) (i : ℕ) (x : FifoTaskSet V)
        → IsBudgeted max x
        → IsBudgeted max (fail_attempt max r i x)
    unfolding fail_attempt
    fail-IsBudgeted r i x h =
        if-elim (IsBudgeted max) x.terminal (λ _. h)
          λ _.
            option-elim (IsBudgeted max) x.ctx
              (λ _.
                option-elim (IsBudgeted max) (get_elem? x.tasks i) (λ _. h)
                  (λ t e. fail_task-IsBudgeted r i t x e h))
              (λ e _. finish-IsBudgeted (some (context_error e)) x h)

fresh-WithinBudget :
    (V : Type 0) (max : ℕ) (ts : List Task)
    → 0 < max
    → All (WithinBudget max) (map (logical_task {V = V}) ts)
unfolding logical_task
fresh-WithinBudget V max [] h = tt
fresh-WithinBudget V max (t ∷ ts) h = ((omega arith, λ _. h), fresh-WithinBudget V max ts h)

module _ {V : Type 0} where
  IsBudgeted-kept : (max : ℕ) → 0 < max → IsKept {V = V} max (IsBudgeted max)
  IsBudgeted-kept max h = record {
    fresh = λ d ctx input n e.
        unfold new_task_set in fresh-WithinBudget V max (sort_tasks input.tasks) h;
    finished = finish-IsBudgeted max;
    assigned = λ r w o x p. assign_tasks-WithinBudget max r w x 0 x.tasks o p;
    accepted = λ r i x p. accept-IsBudgeted max r i _ (release-IsBudgeted max i succeeded x refl p);
    retired = λ r i x p. fail-IsBudgeted max r i _ (release-IsBudgeted max i failed x refl p);
    drained = λ x p. p;
    signalled = λ x p. p;
    ended = λ e x p. option-elim (IsBudgeted max) x.ctx (λ _. p) (λ _ _. p);
  }

-- After any history of calls on a scheduler whose tasks are within the limit on attempts, no task of
-- any set has had more attempts than the limit, and a task that waits to be assigned has had fewer.
pub run-IsBudgeted :
    {V : Type 0} (x : Externals) (cs : List (Call V)) (s : FifoTaskScheduler V)
    → 0 < s.max_task_attempts
    → AllSets (IsBudgeted s.max_task_attempts) s.sets
    → AllSets (IsBudgeted s.max_task_attempts) (run x cs s).sets
run-IsBudgeted x cs s h all =
    (run-Keeps s.max_task_attempts (IsBudgeted s.max_task_attempts)
      (IsBudgeted-kept s.max_task_attempts h) x cs s (refl, all)).1
