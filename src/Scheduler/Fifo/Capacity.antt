-- ===== src/Scheduler/Fifo/Capacity.antt =====
-- Reservations never exceed a worker's slots.
use sparkcore_go.Common.{
  sort, ◌==◌, ltb, Bool-cases, List, Option-cases, String, [], arith, inl, inr, length,
  length-add_elem-le, length-erase-le, nat_eq, some, string_eq, suc, to_ℕ, ℕ, ℤ, ◌+◌, ◌∷◌, ◌≡◌, ◌≤◌,
}
use sparkcore_go.Scheduler.Fifo.Run.{
  closes, ends_context, expires, reports_failure, reports_success, offers, takes_signal, drains,
  submits, registers, Call, run, step, Externals,
}
use sparkcore_go.Scheduler.Fifo.Expiry.{
  silent_workers, loss_report, expire_workers, lose_worker, lose_attempts, lose_attempt,
  lose_workers,
}
use sparkcore_go.Scheduler.Fifo.Report.{
  obsolete, validate_report, accept_success, input_allowed, execution_of, current, refused,
  fail_attempt, failure_checked, report_checked, ReportCheck, report_failure, report_success,
  unreserve, settle,
}
use sparkcore_go.Scheduler.{succeeded, failed, TaskAttemptFailure, TaskAttemptSuccess, TaskState}
use sparkcore_go.Scheduler.Output.{validate_for, validate_failure}
use sparkcore_go.Scheduler.Fifo.Offer.{
  compact_queue, valid_offer, offer_to, offer_resources, place, free_slots, OfferState, assign_task,
  assign_tasks, offer_set, offer_sets,
}
use sparkcore_go.Scheduler.Fifo.{
  alive, lost, WorkerStatus, task_set_key_eq, FifoTaskScheduler, TaskSetKey, FifoTaskSet,
  WorkerState, AssignedAttempt, LogicalTask,
}
use sparkcore_go.Scheduler.Fifo.Lifecycle.{close, cancel_context, take_signal, drain, submit}
use sparkcore_go.Common.Dict.{Dict, lookup, insert, lookup-insert}
use sparkcore_go.Plan.{TaskAttemptId, WorkerId}
use sparkcore_go.Scheduler.Fifo.Registry.{register_worker, new_worker}

-- Every known worker has at most as many reservations as slots.
abbrev pub Capped : Dict WorkerId WorkerState → Type 0
Capped workers =
    (id : WorkerId) (w : WorkerState)
    → lookup id workers ≡ some w
    → length w.reserved ≤ w.total_slots

Capped-insert :
    (workers : Dict WorkerId WorkerState) (id : WorkerId) (w : WorkerState)
    → length w.reserved ≤ w.total_slots
    → Capped workers
    → Capped (insert id w workers)
Capped-insert workers id w h all j v e = ground (arith, lookup-insert id j w workers, all j v)

register-Capped :
    {V : Type 0} (id : WorkerId) (slots : ℤ) (now : ℕ) (s : FifoTaskScheduler V)
    → Capped s.workers
    → Capped (register_worker id slots now s).0.workers
unfolding register_worker
register-Capped id slots now s h j v e =
    ground (
      arith,
      h j v,
      Capped-insert s.workers id (new_worker id (to_ℕ slots) now) (omega arith) h j v,
    )

unreserve-Capped :
    (w : WorkerId) (a : TaskAttemptId) (workers : Dict WorkerId WorkerState)
    → Capped workers
    → Capped (unreserve w a workers)
unfolding unreserve
unreserve-Capped w a workers h = elim (Option-cases (lookup w workers)) [
  | inl e ↦ rw (e, unreserve) h
  | inr (x, e) ↦
      rw (e, unreserve)
        (Capped-insert workers w _ (omega (arith, length-erase-le a x.reserved, h w x e)) h)
]

-- What a loop over tasks or sets keeps of its state: the sum of used and available slots.
abbrev Within : ℕ → OfferState → Type 0
Within total o = length o.reserved + o.available ≤ total

free_slots-Within :
    (w : WorkerState) (free : ℕ) (seen : List TaskAttemptId)
    → length w.reserved ≤ w.total_slots
    → length w.reserved + free_slots w free seen ≤ w.total_slots
unfolding free_slots
free_slots-Within w free seen h = omega arith

module _ {V : Type 0} where
  abbrev pub IsCapped : FifoTaskScheduler V → Type 0
  IsCapped s = Capped s.workers

  settle-Capped :
      (s : FifoTaskScheduler V) (a : AssignedAttempt) (st : TaskState)
      (f : FifoTaskSet V → FifoTaskSet V)
      → IsCapped s
      → IsCapped (settle s a st f)
  unfolding settle
  settle-Capped s a st f h =
      unfold unreserve in
      unreserve-Capped a.assignment.attempt.worker_id a.assignment.attempt.identity.id s.workers h

  module _ (run_id : String) (worker : WorkerId) (total : ℕ) where
    assign_task-Within :
        (x : FifoTaskSet V) (i : ℕ) (t : LogicalTask V) (o : OfferState)
        → Within total o
        → Within total (assign_task run_id worker x i t o).1
    unfolding assign_task
    assign_task-Within x i t o h = ground (arith, length-add_elem-le o.next_attempt o.reserved)

    assign_tasks-Within :
        (x : FifoTaskSet V) (i : ℕ) (ts : List (LogicalTask V)) (o : OfferState)
        → Within total o
        → Within total (assign_tasks run_id worker x i ts o).1
    unfolding assign_tasks
    assign_tasks-Within x i [] o h = h
    assign_tasks-Within x i (t ∷ ts) o h =
        assign_tasks-Within x (suc i) ts (assign_task run_id worker x i t o).1
          (assign_task-Within x i t o h)

    offer_set-Within :
        (k : TaskSetKey) (sets : Dict TaskSetKey (FifoTaskSet V)) (o : OfferState)
        → Within total o
        → Within total (offer_set run_id worker k sets o).1
    unfolding offer_set
    offer_set-Within k sets o h = elim (Option-cases (lookup k sets)) [
      | inl e ↦ rw (e, offer_set) h
      | inr (x, e) ↦ rw (e, offer_set) (ground (arith, assign_tasks-Within x 0 x.tasks o h))
    ]

    offer_sets-Within :
        (ks : List TaskSetKey) (sets : Dict TaskSetKey (FifoTaskSet V)) (o : OfferState)
        → Within total o
        → Within total (offer_sets run_id worker ks sets o).1
    unfolding offer_sets
    offer_sets-Within [] sets o h = h
    offer_sets-Within (k ∷ ks) sets o h =
        offer_sets-Within ks (offer_set run_id worker k sets o).0
          (offer_set run_id worker k sets o).1 (offer_set-Within k sets o h)

  place-Capped :
      (id : WorkerId) (w : WorkerState) (free : ℕ) (seen : List TaskAttemptId) (now : ℕ)
      (s : FifoTaskScheduler V)
      → lookup id s.workers ≡ some w
      → IsCapped s
      → IsCapped (place id w free seen now s).0
  unfolding place
  place-Capped id w free seen now s e h =
      Capped-insert s.workers id _
        (omega (
          arith,
          offer_sets-Within s.run_id id w.total_slots s.queue s.sets _
              (free_slots-Within w free seen (h id w e)),
        ))
        h

  offer_to-Capped :
      (st : WorkerStatus) (id : WorkerId) (w : WorkerState) (free : ℤ) (seen : List TaskAttemptId)
      (now : ℕ) (s : FifoTaskScheduler V)
      → lookup id s.workers ≡ some w
      → IsCapped s
      → IsCapped (offer_to st id w free seen now s).0
  unfolding offer_to
  offer_to-Capped lost id w free seen now s e h = h
  offer_to-Capped alive id w free seen now s e h =
      elim (Bool-cases (valid_offer id w free seen s)) [
        | inl v ↦ rw (v, offer_to) (place-Capped id w (to_ℕ free) seen now s e h)
        | inr v ↦ rw (v, offer_to) h
      ]

  offer-Capped :
      (id : WorkerId) (free : ℤ) (seen : List TaskAttemptId) (now : ℕ) (s : FifoTaskScheduler V)
      → IsCapped s
      → IsCapped (offer_resources id free seen now s).0
  unfolding offer_resources
  offer-Capped id free seen now s h = elim (Bool-cases s.closed) [
    | inl c ↦ rw (c, offer_resources) h
    | inr c ↦ elim (Option-cases (lookup id s.workers)) [
      | inl e ↦ rw (c, e, offer_resources) h
      | inr (w, e) ↦
          rw (c, e, offer_resources)
            (unfold offer_to in offer_to-Capped w.status id w free seen now s e h)
    ]
  ]

  report_success-Capped :
      (empty_digest : String) (r : TaskAttemptSuccess V) (s : FifoTaskScheduler V)
      → IsCapped s
      → IsCapped (report_success empty_digest r s).0
  unfolding report_success
  report_success-Capped d r s h =
      checked (validate_report s r.job_id r.stage_id r.attempt r.partition_id r.worker_id)
    where
      checked : (c : ReportCheck) → IsCapped (report_checked d c r s).0
      checked (refused e) = h
      checked obsolete = h
      checked (current a) =
          elim (Option-cases (validate_for d r.output (execution_of a.assignment))) [
            | inl e ↦
                rw (e, report_checked) (settle-Capped s a succeeded (accept_success r a.task) h)
            | inr (x, e) ↦ rw (e, report_checked) h
          ]

  report_failure-Capped :
      (r : TaskAttemptFailure) (s : FifoTaskScheduler V)
      → IsCapped s
      → IsCapped (report_failure r s).0
  unfolding report_failure
  report_failure-Capped r s h = elim (Bool-cases (r.error == "")) [
    | inl e ↦ rw (e, report_failure) h
    | inr e ↦
        rw (e, report_failure)
          (checked (validate_report s r.job_id r.stage_id r.attempt r.partition_id r.worker_id))
  ]
    where
      checked : (c : ReportCheck) → IsCapped (failure_checked c r s).0
      checked (refused e) = h
      checked obsolete = h
      checked (current a) = elim (Option-cases (validate_failure r.kind r.shuffle_input)) [
        | inr (x, e) ↦ rw (e, failure_checked) h
        | inl e ↦ elim (Bool-cases (input_allowed a.assignment r.shuffle_input)) [
          | inr v ↦ rw (e, v, failure_checked) h
          | inl v ↦
              rw (e, v, failure_checked)
                (settle-Capped s a failed (fail_attempt s.max_task_attempts r a.task) h)
        ]
      ]

  lose_attempt-Capped :
      (m : WorkerId → String) (id : WorkerId) (a : TaskAttemptId) (s : FifoTaskScheduler V)
      → IsCapped s
      → IsCapped (lose_attempt m id a s)
  unfolding lose_attempt
  lose_attempt-Capped m id a s h = elim (Option-cases (lookup a s.attempts)) [
    | inl e ↦ rw (e, lose_attempt) h
    | inr (x, e) ↦
        rw (e, lose_attempt)
          (settle-Capped s x failed
            (fail_attempt s.max_task_attempts (loss_report m id x.assignment) x.task) h)
  ]

  lose_attempts-Capped :
      (m : WorkerId → String) (id : WorkerId) (l : List TaskAttemptId) (s : FifoTaskScheduler V)
      → IsCapped s
      → IsCapped (lose_attempts m id l s)
  unfolding lose_attempts
  lose_attempts-Capped m id [] s h = h
  lose_attempts-Capped m id (a ∷ l) s h =
      lose_attempts-Capped m id l (lose_attempt m id a s) (lose_attempt-Capped m id a s h)

  lose_workers-Capped :
      (m : WorkerId → String) (ids : List WorkerId) (s : FifoTaskScheduler V)
      → IsCapped s
      → IsCapped (lose_workers m ids s)
  unfolding lose_workers lose_worker
  lose_workers-Capped m [] s h = h
  lose_workers-Capped m (id ∷ ids) s h =
      lose_workers-Capped m ids (lose_worker m id s) (elim (Option-cases (lookup id s.workers)) [
        | inl e ↦ rw (e, lose_worker) h
        | inr (w, e) ↦
            rw (e, lose_worker)
              (lose_attempts-Capped m id (sort ltb w.reserved) _
                (Capped-insert s.workers id _ (h id w e) h))
      ])

module _ (x : Externals) {V : Type 0} where
  step-Capped : (c : Call V) (s : FifoTaskScheduler V) → IsCapped s → IsCapped (step x c s).0
  unfolding step submit drain take_signal expire_workers cancel_context close compact_queue
  step-Capped (registers id slots now) s h = register-Capped id slots now s h
  step-Capped (submits observed ctx input) s h = ground arith
  step-Capped (drains k) s h = elim (Option-cases (lookup k s.sets)) [
    | inl e ↦ rw (e, drain) h
    | inr (set, e) ↦ rw (e, drain) h
  ]
  step-Capped (takes_signal k) s h = h
  step-Capped (offers id free seen now) s h = offer-Capped id free seen now s h
  step-Capped (reports_success r) s h = report_success-Capped x.empty_digest r s h
  step-Capped (reports_failure r) s h = report_failure-Capped r s h
  step-Capped (expires now timeout) s h =
      let silent = sort x.text_ltb (silent_workers now (to_ℕ timeout) s.workers) in
      λ id w e. ground (arith, h id w, lose_workers-Capped x.lost_message silent s h id w)
  step-Capped (ends_context k e) s h = h
  step-Capped closes s h = h

  -- Whatever the history of calls, a scheduler whose workers had no more reservations than slots
  -- still has none that does.
  pub run-Capped :
      (cs : List (Call V)) (s : FifoTaskScheduler V) → IsCapped s → IsCapped (run x cs s)
  unfolding run
  run-Capped [] s h = h
  run-Capped (c ∷ cs) s h = run-Capped cs (step x c s).0 (step-Capped c s h)
