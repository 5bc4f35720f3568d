-- ===== src/Scheduler/Fifo/Fencing.antt =====
-- Refused calls, and reports that come again.
use sparkcore_go.Common.Dict.{lookup-insert_self, lookup-insert, lookup, Dict}
use sparkcore_go.Scheduler.Fifo.Lifecycle.{check_context, drain, submit}
use sparkcore_go.Scheduler.Fifo.{
  task_set_key_eq, TaskSetKey, WorkerState, Dict, FifoTaskScheduler, FifoError, AssignedAttempt,
  FifoTaskSet,
}
use sparkcore_go.Common.{
  Bool-cases, ◌==◌, [], refl, erase, inr, eq_iff, none, inl, String, Option-cases, some, true,
  arith, false, is_some, ◌≡◌, string_eq, nat_eq, int_eq,
}
use sparkcore_go.Scheduler.Fifo.Run.{
  returned, closes, ends_context, expires, reports_failure, reports_success, offers, takes_signal,
  drains, submits, registers, Call, Externals, step,
}
use sparkcore_go.Scheduler.Fifo.Report.{
  accept_success, fail_attempt, refused, failure_checked, report_checked, ReportCheck, retire,
  same_assignment, unreserve, report_failure, report_success, obsolete, current, validate_report,
  settle,
}
use sparkcore_go.Scheduler.{
  failed, succeeded, TaskAttemptSuccess, TaskAttemptFailure, TaskState, TaskAttemptIdentity,
}
use sparkcore_go.Scheduler.Fifo.Expiry.{expire_workers}
use sparkcore_go.Scheduler.Fifo.Offer.{offer_resources}
use sparkcore_go.Scheduler.Fifo.Registry.{register_worker}
use sparkcore_go.Plan.{JobId, StageId, PartitionId, WorkerId, TaskAttemptId}

-- What a round of ScheduleTaskSet's loop for `k` that returns `e` leaves: the set terminal with that
-- error and without reports, all else as it was.
pub record Finished {V : Type 0} (k : TaskSetKey) (e : FifoError) (s s' : FifoTaskScheduler V)
    : Type 0 where
  pub set : FifoTaskSet V
  pub there : lookup k s'.sets ≡ some set
  pub terminal : set.terminal ≡ true
  pub err : set.err ≡ some e
  pub reports : set.reports ≡ []
  pub others : (j : TaskSetKey) → (k == j) ≡ false → lookup j s'.sets ≡ lookup j s.sets
  pub rest : s' ≡ record s { sets = s'.sets }

-- The scheduler after a call that returned an error.
abbrev pub Refused :
    {V : Type 0} → Call V → FifoError → FifoTaskScheduler V → FifoTaskScheduler V → Type 0
Refused (drains k) e s s' = Finished k e s s'
Refused _ e s s' = s' ≡ s

drain-Finished :
    {V : Type 0} (k : TaskSetKey) (s : FifoTaskScheduler V) (e : FifoError)
    → returned (drain k s).2 ≡ some e
    → Finished k e s (drain k s).0
unfolding drain
drain-Finished k s e h = elim (Option-cases (lookup k s.sets)) [
  | inl new ↦ absurd (ground (arith, h, new))
  | inr (set, known) ↦ elim (Bool-cases (check_context set).terminal) [
    | inl over ↦
        rw (known, drain)
          record {
            set = record (check_context set) { reports = [] };
            there = lookup-insert_self k (record (check_context set) { reports = [] }) s.sets;
            terminal = over;
            err = ground (arith, h, known, over);
            reports = refl;
            others = λ j other. ground (
              arith,
              other,
              lookup-insert k j (record (check_context set) { reports = [] }) s.sets,
            );
            rest = refl;
          }
    | inr live ↦ absurd (ground (arith, h, known, live))
  ]
]

module _ (x : Externals) {V : Type 0} where
  -- A call that returns an error leaves the scheduler as it was, but for a round of ScheduleTaskSet's
  -- loop: that leaves its set terminal with the returned error and without reports, and all else as
  -- it was.
  pub step-error :
      (c : Call V) (s : FifoTaskScheduler V) (e : FifoError)
      → (step x c s).1 ≡ some e
      → Refused c e s (step x c s).0
  unfolding step register_worker submit offer_resources report_success report_failure expire_workers
  step-error (registers id slots now) s e h = ground arith
  step-error (submits observed ctx input) s e h = ground arith
  step-error (drains k) s e h = drain-Finished k s e h
  step-error (takes_signal k) s e h = ground arith
  step-error (offers id free seen now) s e h = ground arith
  step-error (reports_success q) s e h = ground arith
  step-error (reports_failure q) s e h = ground arith
  step-error (expires now timeout) s e h = ground arith
  step-error (ends_context k c) s e h = ground arith
  step-error closes s e h = ground arith

-- What a report that passes the checks is known to be.
record Current {V : Type 0} (s : FifoTaskScheduler V) (job : JobId) (stage : StageId)
    (identity : TaskAttemptIdentity) (partition : PartitionId) (worker : WorkerId)
    (a : AssignedAttempt) : Type 0 where
  open_still : s.closed ≡ false
  known : is_some (lookup worker s.workers) ≡ true
  found : lookup identity.id s.attempts ≡ some a
  same : same_assignment a.assignment job stage identity partition worker ≡ true
  live : a.terminal ≡ false

known-unreserve :
    (workers : Dict WorkerId WorkerState) (v w : WorkerId) (a : TaskAttemptId)
    → is_some (lookup w workers) ≡ true
    → is_some (lookup w (unreserve v a workers)) ≡ true
unfolding unreserve
known-unreserve workers v w a h = elim (Option-cases (lookup v workers)) [
  | inl e ↦ rw (e, unreserve) h
  | inr (x, e) ↦
      rw (e, unreserve)
        (ground (arith, lookup-insert v w (record x { reserved = erase a x.reserved }) workers))
]

module _ {V : Type 0} where
  validate-Current :
      (s : FifoTaskScheduler V) (job : JobId) (stage : StageId) (identity : TaskAttemptIdentity)
      (partition : PartitionId) (worker : WorkerId) (a : AssignedAttempt)
      → validate_report s job stage identity partition worker ≡ current a
      → Current s job stage identity partition worker a
  unfolding validate_report
  validate-Current s job stage identity partition worker a h = ground arith

  -- A settled attempt is obsolete for every later report of its identity.
  settle-obsolete :
      (s : FifoTaskScheduler V) (job : JobId) (stage : StageId) (identity : TaskAttemptIdentity)
      (partition : PartitionId) (worker : WorkerId) (a : AssignedAttempt) (st : TaskState)
      (f : FifoTaskSet V → FifoTaskSet V)
      → validate_report s job stage identity partition worker ≡ current a
      → validate_report (settle s a st f) job stage identity partition worker ≡ obsolete
  unfolding settle validate_report
  settle-obsolete s job stage identity partition worker a st f h =
      let c = validate-Current s job stage identity partition worker a h in
      let id = a.assignment.attempt.identity.id in
      ground (
        arith,
        c.open_still,
        c.found,
        c.same,
        known-unreserve s.workers a.assignment.attempt.worker_id worker id c.known,
        lookup-insert id identity.id (retire st a) s.attempts,
        eq_iff a.assignment.attempt.worker_id worker,
      )

  abbrev recheck : TaskAttemptSuccess V → FifoTaskScheduler V → ReportCheck
  recheck r s = validate_report s r.job_id r.stage_id r.attempt r.partition_id r.worker_id

  success-obsolete :
      (d : String) (r : TaskAttemptSuccess V) (s : FifoTaskScheduler V) (c : ReportCheck)
      → recheck r s ≡ c
      → (report_checked d c r s).1 ≡ none
      → recheck r (report_checked d c r s).0 ≡ obsolete
  unfolding report_checked
  success-obsolete d r s (refused e) p h = cc
  success-obsolete d r s obsolete p h = p
  success-obsolete d r s (current a) p h = ground (
    arith,
    settle-obsolete s r.job_id r.stage_id r.attempt r.partition_id r.worker_id a succeeded
        (accept_success r a.task) p,
  )

  -- A success report that was taken, or found obsolete, is obsolete when it comes again: the second
  -- call returns no error and changes nothing.
  pub report_success_twice :
      (empty_digest : String) (r : TaskAttemptSuccess V) (s : FifoTaskScheduler V)
      → (report_success empty_digest r s).1 ≡ none
      → report_success empty_digest r (report_success empty_digest r s).0
        ≡ ((report_success empty_digest r s).0, none)
  unfolding report_success
  report_success_twice d r s h = rw (success-obsolete d r s (recheck r s) refl h, report_checked)

  abbrev recheck_failure : TaskAttemptFailure → FifoTaskScheduler V → ReportCheck
  recheck_failure r s = validate_report s r.job_id r.stage_id r.attempt r.partition_id r.worker_id

  failure_checked_twice :
      (r : TaskAttemptFailure) (s : FifoTaskScheduler V) (c : ReportCheck)
      → recheck_failure r s ≡ c
      → (failure_checked c r s).1 ≡ none
      → failure_checked (recheck_failure r (failure_checked c r s).0) r (failure_checked c r s).0
        ≡ ((failure_checked c r s).0, none)
  unfolding failure_checked
  failure_checked_twice r s (refused e) p h = cc
  failure_checked_twice r s obsolete p h = rw p
  failure_checked_twice r s (current a) p h = ground (
    arith,
    settle-obsolete s r.job_id r.stage_id r.attempt r.partition_id r.worker_id a failed
        (fail_attempt s.max_task_attempts r a.task) p,
  )

  -- A failure report that was taken, or found obsolete, is obsolete when it comes again.
  pub report_failure_twice :
      (r : TaskAttemptFailure) (s : FifoTaskScheduler V)
      → (report_failure r s).1 ≡ none
      → report_failure r (report_failure r s).0 ≡ ((report_failure r s).0, none)
  unfolding report_failure
  report_failure_twice r s h = ground (arith, failure_checked_twice r s (recheck_failure r s) refl)

  -- After an accepted success no failure report of the same attempt can change the scheduler: it is
  -- refused as malformed or ignored.
  pub failure_after_success :
      (empty_digest : String) (r : TaskAttemptSuccess V) (q : TaskAttemptFailure)
      (s : FifoTaskScheduler V)
      → (report_success empty_digest r s).1 ≡ none
      → q.job_id ≡ r.job_id
      → q.stage_id ≡ r.stage_id
      → q.attempt ≡ r.attempt
      → q.partition_id ≡ r.partition_id
      → q.worker_id ≡ r.worker_id
      → (report_failure q (report_success empty_digest r s).0).0
        ≡ (report_success empty_digest r s).0
  unfolding report_success report_failure
  failure_after_success d r q s h j st at p w =
      let again : recheck_failure q (report_checked d (recheck r s) r s).0 ≡ obsolete =
        rw (j, st, at, p, w) (success-obsolete d r s (recheck r s) refl h) in
      ground (arith, again)
