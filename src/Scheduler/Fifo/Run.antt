-- ===== src/Scheduler/Fifo/Run.antt =====
-- The scheduler's methods as calls, and a history of them in the order in which they lock the mutex.
use sparkcore_go.Common.{Bool, some, List, Option, String, [], none, ℕ, ℤ, ◌∷◌}
use sparkcore_go.Plan.{TaskAttemptId, WorkerId}
use sparkcore_go.Scheduler.{TaskSet, TaskAttemptSuccess, TaskAttemptFailure, ContextError}
use sparkcore_go.Scheduler.Fifo.{FifoTaskScheduler, FifoError, TaskSetKey}
use sparkcore_go.Scheduler.Fifo.Registry.{register_worker}
use sparkcore_go.Scheduler.Fifo.Offer.{offer_resources}
use sparkcore_go.Scheduler.Fifo.Report.{report_success, report_failure}
use sparkcore_go.Scheduler.Fifo.Expiry.{expire_workers}
use sparkcore_go.Scheduler.Fifo.Lifecycle.{submit, drain, take_signal, cancel_context, close}

pub data Call (V : Type 0) : Type 0 where
  registers : WorkerId → ℤ → ℕ → Call V
  submits : Bool → Option ContextError → TaskSet → Call V
  drains takes_signal : TaskSetKey → Call V
  offers : WorkerId → ℤ → List TaskAttemptId → ℕ → Call V
  reports_success : TaskAttemptSuccess V → Call V
  reports_failure : TaskAttemptFailure → Call V
  expires : ℕ → ℤ → Call V
  ends_context : TaskSetKey → ContextError → Call V
  closes : Call V

-- What the source takes from elsewhere: the digest of no bytes, the order of texts and the text of
-- a lost worker's failure.
pub record Externals : Type 0 where
  pub empty_digest : String
  pub text_ltb : String → String → Bool
  pub lost_message : WorkerId → String

-- What a round of ScheduleTaskSet's loop returns: once the set is terminal, its error.
abbrev pub returned : Option (Option FifoError) → Option FifoError
returned none = none
returned (some e) = e

module _ (x : Externals) {V : Type 0} where
  unfoldable pub step : Call V → FifoTaskScheduler V → FifoTaskScheduler V × Option FifoError
  step (registers id slots now) s = register_worker id slots now s
  step (submits observed ctx input) s = submit x.empty_digest observed ctx input s
  step (drains k) s = let r = drain k s in (r.0, returned r.2)
  step (takes_signal k) s = (take_signal k s, none)
  step (offers id free seen now) s = let r = offer_resources id free seen now s in (r.0, r.2)
  step (reports_success r) s = report_success x.empty_digest r s
  step (reports_failure r) s = report_failure r s
  step (expires now timeout) s =
      let r = expire_workers x.text_ltb x.lost_message now timeout s in (r.0, r.2)
  step (ends_context k e) s = (cancel_context k e s, none)
  step closes s = (close s, none)

  unfoldable pub run : List (Call V) → FifoTaskScheduler V → FifoTaskScheduler V
  run [] s = s
  run (c ∷ cs) s = run cs (step c s).0
