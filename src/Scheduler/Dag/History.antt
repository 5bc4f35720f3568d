-- ===== src/Scheduler/Dag/History.antt =====
-- The limit on the executions of a stage, over a history of events.
use sparkcore_go.Scheduler.Dag.{
  scheduler_stopping, context_done, job_context, job_canceled, task_set_finished, generating,
  task_failed, planning, task_succeeded, job_submitted, DagScheduler, DagEvent,
}
use sparkcore_go.Scheduler.Dag.Limit.{
  end_context-AllBounded, fail_all-AllBounded, new_job-IsBounded, handle_finished-AllBounded,
  handle_task_failed-AllBounded, handle_task_succeeded-AllBounded,
}
use sparkcore_go.Common.{true, inr, inl, [], if-elim, ◌∷◌, option-elim, List, Option, String, ℕ}
use sparkcore_go.Scheduler.Dag.Attempts.{fail_job-AllBounded, advance-AllBounded, AllBounded}
use sparkcore_go.Scheduler.Dag.Handlers.{
  new_job, handle_stopping, reject_job, handle_event, handle_job_submitted, submit_planned,
  handle_events,
}
use sparkcore_go.Scheduler.Dag.Recovery.{advance}
use sparkcore_go.Scheduler.Generator.{generate_tasks}
use sparkcore_go.Scheduler.Planner.{plan_stages}
use sparkcore_go.Scheduler.Dag.Stages.{validate_execution_plan}
use sparkcore_go.Scheduler.{StagePlan, ActionSpec, ContextError}
use sparkcore_go.Plan.Graph.{RddGraph}
use sparkcore_go.Scheduler.Functions.{FunctionLookup}
use sparkcore_go.Plan.{JobId}

module _ {V : Type 0} (max : ℕ) (empty_digest : String) where
  submit_planned-AllBounded :
      (id : JobId) (ctx : Option ContextError) (a : ActionSpec) (p : StagePlan) (s : DagScheduler V)
      → AllBounded max s
      → AllBounded max (submit_planned max empty_digest id ctx a p s)
  unfolding submit_planned reject_job
  submit_planned-AllBounded id ctx a p s h =
      option-elim (AllBounded max) (validate_execution_plan p.stages)
        (λ _.
          elim (generate_tasks p)
            as (λ r. AllBounded max (elim r [
              | inl e ↦ reject_job id (generating e) s
              | inr tasks ↦ advance max empty_digest id (new_job ctx a p.stages tasks) s
            ])) [
              | inl e ↦ h
              | inr ts ↦
                  advance-AllBounded max empty_digest id (new_job ctx a p.stages ts) s
                    (new_job-IsBounded max ctx a p.stages ts) h
            ])
        (λ e _. h)

  handle_job_submitted-AllBounded :
      (f : Option FunctionLookup) (id : JobId) (ctx : Option ContextError) (g : RddGraph)
      (a : ActionSpec) (s : DagScheduler V)
      → AllBounded max s
      → AllBounded max (handle_job_submitted max empty_digest f id ctx g a s)
  unfolding handle_job_submitted reject_job
  handle_job_submitted-AllBounded f id ctx g a s h =
      if-elim (AllBounded max) s.stopping (λ _. h)
        (λ _.
          elim (plan_stages f g a)
            as (λ r. AllBounded max (elim r [
              | inl e ↦ reject_job id (planning e) s
              | inr p ↦ submit_planned max empty_digest id ctx a p s
            ])) [ inl e ↦ h | inr p ↦ submit_planned-AllBounded id ctx a p s h ])

  handle_event-AllBounded :
      (f : Option FunctionLookup) (e : DagEvent V) (s : DagScheduler V)
      → AllBounded max s
      → AllBounded max (handle_event max empty_digest f e s)
  unfolding handle_event handle_stopping
  handle_event-AllBounded f (job_submitted id ctx g a) s h =
      handle_job_submitted-AllBounded f id ctx g a s h
  handle_event-AllBounded f (task_succeeded r) s h =
      handle_task_succeeded-AllBounded max empty_digest r s h
  handle_event-AllBounded f (task_failed r) s h =
      handle_task_failed-AllBounded max empty_digest r s h
  handle_event-AllBounded f (task_set_finished id stage attempt e) s h =
      handle_finished-AllBounded max id stage attempt e s h
  handle_event-AllBounded f (job_canceled id e) s h = fail_job-AllBounded max id (job_context e) s h
  handle_event-AllBounded f scheduler_stopping s h =
      fail_all-AllBounded max s.jobs (record s { stopping = true }) h
  handle_event-AllBounded f (context_done id e) s h = end_context-AllBounded max id e s h

  -- After any history of events on a DAG scheduler none of whose stages was started more often than
  -- the limit on stage attempts, still no stage of any job was, restarts after a lost shuffle input
  -- included.
  pub handle_events-AllBounded :
      (f : Option FunctionLookup) (es : List (DagEvent V)) (s : DagScheduler V)
      → AllBounded max s
      → AllBounded max (handle_events max empty_digest f es s)
  unfolding handle_events
  handle_events-AllBounded f [] s h = h
  handle_events-AllBounded f (e ∷ es) s h =
      handle_events-AllBounded f es (handle_event max empty_digest f e s)
        (handle_event-AllBounded f e s h)
