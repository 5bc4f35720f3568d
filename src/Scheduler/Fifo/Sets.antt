-- ===== src/Scheduler/Fifo/Sets.antt =====
-- Invariants of a single task set: what every transition of a set keeps holds of all sets after any
-- history of calls.
use sparkcore_go.Common.{
  sort, to_ℕ, ℤ, pos, int_leb, ◌==◌, is_some, not, if-elim, option-elim, ltb, true, Bool, subst,
  inr, inl, false, [], arith, ◌∷◌, List, String, Option-cases, Option, ℕ, ◌≡◌, Bool-cases, nat_eq,
  string_eq, refl, none, some,
}
use sparkcore_go.Scheduler.Fifo.{
  bad_timeout, WorkerState, WorkerStatus, alive, lost, context_error, task_scheduler_closed,
  task_set_key_beq, FifoTaskScheduler, FifoError, TaskSetKey, task_set_key_eq, FifoTaskSet,
  AssignedAttempt, finish,
}
use sparkcore_go.Scheduler.Fifo.Run.{
  closes, ends_context, expires, reports_failure, reports_success, offers, takes_signal, drains,
  submits, registers, Call, Externals, step, run,
}
use sparkcore_go.Scheduler.Fifo.Offer.{
  valid_offer, compact_queue, place, offer_to, offer_resources, offer_found, offer_set, offer_sets,
  OfferState, assign_tasks,
}
use sparkcore_go.Scheduler.Fifo.Expiry.{
  silent_workers, expire_workers, loss_report, lose_attempt, lose_worker, lose_workers,
  lose_attempts,
}
use sparkcore_go.Scheduler.Fifo.Lifecycle.{
  enqueue, close, cancel_context, take_signal, submit, check_context, drain, admit, end_context,
  finish_all,
}
use sparkcore_go.Scheduler.Fifo.Report.{
  obsolete, input_allowed, execution_of, report_failure, current, report_success, refused,
  ReportCheck, report_checked, failure_checked, fail_attempt, accept_success, release_task, settle,
  update_set,
}
use sparkcore_go.Scheduler.Output.{validate_for, validate_failure}
use sparkcore_go.Scheduler.Fifo.Registry.{register_worker}
use sparkcore_go.Scheduler.Fifo.Prepare.{new_task_set, check_task_set}
use sparkcore_go.Scheduler.{
  TaskState, TaskSet, TaskAttemptSuccess, TaskAttemptFailure, ContextError, succeeded, failed,
}
use sparkcore_go.Common.Dict.{Dict, lookup, insert, lookup-insert}
use sparkcore_go.Plan.{TaskAttemptId, WorkerId}

module _ {V : Type 0} where
  abbrev pub AllSets : (FifoTaskSet V → Type 0) → Dict TaskSetKey (FifoTaskSet V) → Type 0
  AllSets P sets = (k : TaskSetKey) (set : FifoTaskSet V) → lookup k sets ≡ some set → P set

  -- The transitions of a set, under a limit on task attempts.
  pub record IsKept (max : ℕ) (P : FifoTaskSet V → Type 0) : Type 0 where
    pub fresh :
        (empty_digest : String) (ctx : Option ContextError) (input : TaskSet) (n : ℕ)
        → check_task_set empty_digest input ≡ none
        → P (record (new_task_set ctx input) { sequence = n })
    pub finished : (e : Option FifoError) (set : FifoTaskSet V) → P set → P (finish e set)
    pub assigned :
        (run_id : String) (worker : WorkerId) (o : OfferState) (set : FifoTaskSet V)
        → P set
        → P (record set { tasks = (assign_tasks run_id worker set 0 set.tasks o).0 })
    pub accepted :
        (r : TaskAttemptSuccess V) (i : ℕ) (set : FifoTaskSet V)
        → P set
        → P (accept_success r i (release_task i succeeded set))
    pub retired :
        (r : TaskAttemptFailure) (i : ℕ) (set : FifoTaskSet V)
        → P set
        → P (fail_attempt max r i (release_task i failed set))
    pub drained : (set : FifoTaskSet V) → P set → P (record set { reports = [] })
    pub signalled : (set : FifoTaskSet V) → P set → P (record set { wake = false })
    pub ended : (e : ContextError) (set : FifoTaskSet V) → P set → P (end_context e set)

  AllSets-insert :
      (P : FifoTaskSet V → Type 0) (sets : Dict TaskSetKey (FifoTaskSet V)) (k : TaskSetKey)
      (set : FifoTaskSet V)
      → P set
      → AllSets P sets
      → AllSets P (insert k set sets)
  AllSets-insert P sets k set p all j v e = elim (Bool-cases (task_set_key_beq k j)) [
    | inl q ↦ subst P (ground (arith, lookup-insert k j set sets)) p
    | inr q ↦ all j v (ground (arith, lookup-insert k j set sets))
  ]

  AllSets-update :
      (P : FifoTaskSet V → Type 0) (sets : Dict TaskSetKey (FifoTaskSet V)) (k : TaskSetKey)
      (f : FifoTaskSet V → FifoTaskSet V)
      → ((set : FifoTaskSet V) → P set → P (f set))
      → AllSets P sets
      → AllSets P (update_set k f sets)
  unfolding update_set
  AllSets-update P sets k f g all = elim (Option-cases (lookup k sets)) [
    | inl e ↦ rw (e, update_set) all
    | inr (x, e) ↦ rw (e, update_set) (AllSets-insert P sets k (f x) (g x (all k x e)) all)
  ]

  lookup-finish_all :
      (k : TaskSetKey) (sets : Dict TaskSetKey (FifoTaskSet V))
      → lookup k (finish_all sets) ≡ (elim (lookup k sets) [
        | none ↦ none
        | some x ↦ some (finish (some task_scheduler_closed) x)
      ])
  unfolding finish_all lookup
  lookup-finish_all k [] = refl
  lookup-finish_all k ((j, x) ∷ sets) = ground (arith, lookup-finish_all k sets)

  AllSets-finish_all :
      (P : FifoTaskSet V → Type 0) (sets : Dict TaskSetKey (FifoTaskSet V))
      → ((e : Option FifoError) (x : FifoTaskSet V) → P x → P (finish e x))
      → AllSets P sets
      → AllSets P (finish_all sets)
  AllSets-finish_all P sets g all k y e = elim (Option-cases (lookup k sets)) [
    | inl q ↦ ground (arith, lookup-finish_all k sets)
    | inr (x, q) ↦
        subst P (ground (arith, lookup-finish_all k sets))
          (g (some task_scheduler_closed) x (all k x q))
  ]

module _ {V : Type 0} (max : ℕ) (P : FifoTaskSet V → Type 0) (kept : IsKept max P) where
  -- The limit is the one that the scheduler was made with, and the invariant holds of its sets.
  abbrev pub Keeps : FifoTaskScheduler V → Type 0
  Keeps s = (s.max_task_attempts ≡ max) × AllSets P s.sets

  -- The same of what a call returns.
  abbrev Returns : FifoTaskScheduler V × Option FifoError → Type 0
  Returns r = Keeps r.0

  abbrev ReturnsWith : {R E : Type 0} → FifoTaskScheduler V × R × E → Type 0
  ReturnsWith r = Keeps r.0

  offer_found-AllSets :
      (run_id : String) (worker : WorkerId) (terminal : Bool) (ctx : Option ContextError)
      (k : TaskSetKey) (x : FifoTaskSet V) (sets : Dict TaskSetKey (FifoTaskSet V)) (o : OfferState)
      → P x
      → AllSets P sets
      → AllSets P (offer_found run_id worker terminal ctx k x sets o).0
  unfolding offer_found
  offer_found-AllSets r w true ctx k x sets o p all = all
  offer_found-AllSets r w false (some e) k x sets o p all =
      AllSets-insert P sets k _ (kept.finished (some (context_error e)) x p) all
  offer_found-AllSets r w false none k x sets o p all =
      AllSets-insert P sets k _ (kept.assigned r w o x p) all

  offer_set-AllSets :
      (run_id : String) (worker : WorkerId) (k : TaskSetKey)
      (sets : Dict TaskSetKey (FifoTaskSet V)) (o : OfferState)
      → AllSets P sets
      → AllSets P (offer_set run_id worker k sets o).0
  unfolding offer_set
  offer_set-AllSets r w k sets o all = elim (Option-cases (lookup k sets)) [
    | inl e ↦ rw (e, offer_set) all
    | inr (x, e) ↦
        rw (e, offer_set) (offer_found-AllSets r w x.terminal x.ctx k x sets o (all k x e) all)
  ]

  offer_sets-AllSets :
      (run_id : String) (worker : WorkerId) (ks : List TaskSetKey)
      (sets : Dict TaskSetKey (FifoTaskSet V)) (o : OfferState)
      → AllSets P sets
      → AllSets P (offer_sets run_id worker ks sets o).0
  unfolding offer_sets
  offer_sets-AllSets r w [] sets o all = all
  offer_sets-AllSets r w (k ∷ ks) sets o all =
      offer_sets-AllSets r w ks (offer_set r w k sets o).0 (offer_set r w k sets o).1
        (offer_set-AllSets r w k sets o all)

  settle-Keeps :
      (s : FifoTaskScheduler V) (a : AssignedAttempt) (st : TaskState)
      (f : FifoTaskSet V → FifoTaskSet V)
      → ((x : FifoTaskSet V) → P x → P (f (release_task a.task st x)))
      → Keeps s
      → Keeps (settle s a st f)
  unfolding settle
  settle-Keeps s a st f g h =
      (h.0, AllSets-update P s.sets a.set (λ x. f (release_task a.task st x)) g h.1)

  report_success-Keeps :
      (d : String) (r : TaskAttemptSuccess V) (c : ReportCheck) (s : FifoTaskScheduler V)
      → Keeps s
      → Keeps (report_checked d c r s).0
  unfolding report_checked
  report_success-Keeps d r (refused e) s h = h
  report_success-Keeps d r obsolete s h = h
  report_success-Keeps d r (current a) s h =
      elim (Option-cases (validate_for d r.output (execution_of a.assignment))) [
        | inl e ↦
            rw (e, report_checked)
              (settle-Keeps s a succeeded (accept_success r a.task) (kept.accepted r a.task) h)
        | inr (x, e) ↦ rw (e, report_checked) h
      ]

  fail-Keeps :
      (s : FifoTaskScheduler V) (a : AssignedAttempt) (r : TaskAttemptFailure)
      → Keeps s
      → Keeps (settle s a failed (fail_attempt s.max_task_attempts r a.task))
  fail-Keeps s a r h =
      settle-Keeps s a failed (fail_attempt s.max_task_attempts r a.task)
        (λ x p. rw h.0 (kept.retired r a.task x p)) h

  report_failure-Keeps :
      (r : TaskAttemptFailure) (c : ReportCheck) (s : FifoTaskScheduler V)
      → Keeps s
      → Keeps (failure_checked c r s).0
  unfolding failure_checked
  report_failure-Keeps r (refused e) s h = h
  report_failure-Keeps r obsolete s h = h
  report_failure-Keeps r (current a) s h =
      elim (Option-cases (validate_failure r.kind r.shuffle_input)) [
        | inr (x, e) ↦ rw (e, failure_checked) h
        | inl e ↦ elim (Bool-cases (input_allowed a.assignment r.shuffle_input)) [
          | inr v ↦ rw (e, v, failure_checked) h
          | inl v ↦ rw (e, v, failure_checked) (fail-Keeps s a r h)
        ]
      ]

  lose_attempts-Keeps :
      (m : WorkerId → String) (id : WorkerId) (l : List TaskAttemptId) (s : FifoTaskScheduler V)
      → Keeps s
      → Keeps (lose_attempts m id l s)
  unfolding lose_attempts lose_attempt
  lose_attempts-Keeps m id [] s h = h
  lose_attempts-Keeps m id (a ∷ l) s h =
      lose_attempts-Keeps m id l (lose_attempt m id a s)
        (elim (Option-cases (lookup a s.attempts)) [
          | inl e ↦ rw (e, lose_attempt) h
          | inr (x, e) ↦ rw (e, lose_attempt) (fail-Keeps s x (loss_report m id x.assignment) h)
        ])

  lose_workers-Keeps :
      (m : WorkerId → String) (ids : List WorkerId) (s : FifoTaskScheduler V)
      → Keeps s
      → Keeps (lose_workers m ids s)
  unfolding lose_workers lose_worker
  lose_workers-Keeps m [] s h = h
  lose_workers-Keeps m (id ∷ ids) s h =
      lose_workers-Keeps m ids (lose_worker m id s) (elim (Option-cases (lookup id s.workers)) [
        | inl e ↦ rw (e, lose_worker) h
        | inr (w, e) ↦ rw (e, lose_worker) (lose_attempts-Keeps m id (sort ltb w.reserved) _ h)
      ])

  admit-Keeps :
      (set : FifoTaskSet V) (s : FifoTaskScheduler V)
      → ((n : ℕ) → P (record set { sequence = n }))
      → Keeps s
      → Keeps (admit set s).0
  unfolding admit enqueue
  admit-Keeps set s p h =
      if-elim Returns s.closed (λ _. h)
        λ _.
          option-elim Returns set.ctx
            (λ _.
              if-elim Returns (is_some (lookup set.key s.sets)) (λ _. h)
                (λ _. (h.0, AllSets-insert P s.sets set.key _ (p s.next_sequence) h.1)))
            (λ _ _. h)

  expire-Keeps :
      (x : Externals) (now : ℕ) (timeout : ℤ) (s : FifoTaskScheduler V)
      → Keeps s
      → Keeps (expire_workers x.text_ltb x.lost_message now timeout s).0
  unfolding expire_workers compact_queue
  expire-Keeps x now timeout s h =
      let silent = sort x.text_ltb (silent_workers now (to_ℕ timeout) s.workers) in
      if-elim ReturnsWith (int_leb timeout (pos 0)) {x = (s, [], some bad_timeout)} (λ _. h)
        λ _.
          if-elim ReturnsWith s.closed {x = (s, [], some task_scheduler_closed)}
            {y = (compact_queue (lose_workers x.lost_message silent s), silent, none)} (λ _. h)
            (λ _. lose_workers-Keeps x.lost_message silent s h)

  offer_to-Keeps :
      (st : WorkerStatus) (id : WorkerId) (w : WorkerState) (free : ℤ) (seen : List TaskAttemptId)
      (now : ℕ) (s : FifoTaskScheduler V)
      → Keeps s
      → Keeps (offer_to st id w free seen now s).0
  unfolding offer_to place compact_queue
  offer_to-Keeps lost id w free seen now s h = h
  offer_to-Keeps alive id w free seen now s h =
      if-elim ReturnsWith (valid_offer id w free seen s)
        (λ _. (h.0, offer_sets-AllSets s.run_id id s.queue s.sets _ h.1)) (λ _. h)

  drain-Keeps : (k : TaskSetKey) (s : FifoTaskScheduler V) → Keeps s → Keeps (drain k s).0
  unfolding drain check_context
  drain-Keeps k s h =
      option-elim ReturnsWith (lookup k s.sets) (λ _. h)
        (λ y e. (
          h.0,
          AllSets-insert P s.sets k _
              (kept.drained (check_context y) (
                option-elim P y.ctx (λ _. h.1 k y e)
                  (λ c _. kept.finished (some (context_error c)) y (h.1 k y e))))
              h.1,
        ))

  module _ (x : Externals) where
    step-Keeps : (c : Call V) (s : FifoTaskScheduler V) → Keeps s → Keeps (step x c s).0
    unfolding step register_worker submit offer_resources report_success report_failure
        expire_workers take_signal cancel_context close
    step-Keeps (registers id slots now) s h = if-elim Returns s.closed (λ _. h) (λ _. h)
    step-Keeps (submits observed ctx input) s h =
        if-elim Returns (not observed) (λ _. h)
          (λ _.
            option-elim Returns (check_task_set x.empty_digest input)
              (λ e.
                admit-Keeps (new_task_set ctx input) s
                  (λ n. kept.fresh x.empty_digest ctx input n e) h)
              (λ _ _. h))
    step-Keeps (drains k) s h = drain-Keeps k s h
    step-Keeps (takes_signal k) s h =
        (h.0, AllSets-update P s.sets k (λ y. record y { wake = false }) kept.signalled h.1)
    step-Keeps (offers id free seen now) s h =
        if-elim ReturnsWith s.closed (λ _. h)
          (λ _.
            option-elim ReturnsWith (lookup id s.workers) (λ _. h)
              (λ w _. offer_to-Keeps w.status id w free seen now s h))
    step-Keeps (reports_success r) s h = report_success-Keeps x.empty_digest r _ s h
    step-Keeps (reports_failure r) s h =
        if-elim Returns (r.error == "") (λ _. h) (λ _. report_failure-Keeps r _ s h)
    step-Keeps (expires now timeout) s h = expire-Keeps x now timeout s h
    step-Keeps (ends_context k e) s h =
        (h.0, AllSets-update P s.sets k (end_context e) (kept.ended e) h.1)
    step-Keeps closes s h = (h.0, AllSets-finish_all P s.sets kept.finished h.1)

    pub run-Keeps : (cs : List (Call V)) (s : FifoTaskScheduler V) → Keeps s → Keeps (run x cs s)
    unfolding run
    run-Keeps [] s h = h
    run-Keeps (c ∷ cs) s h = run-Keeps cs (step x c s).0 (step-Keeps c s h)
