-- ===== src/Scheduler/Dag/Limit.antt =====
-- The limit on the executions of a stage: the handlers and a history of events.
use sparkcore_go.Scheduler.Dag.Attempts.{
  recover_shuffle-AllBounded, advance-AllBounded, IsWithin, fail_job-AllBounded, AllBounded,
  IsBounded,
}
use sparkcore_go.Scheduler.{
  failure_shuffle_input, failure_execution, failure_permanent, failure_canceled,
  failure_worker_lost, other_failure, ActionSpec, FailureKind, Stage, TaskAttemptFailure,
  ContextError, TaskAttemptIdentity, Task, TaskAttemptSuccess,
}
use sparkcore_go.Common.{
  int_eq, arith, pos, ◌||◌, ◌++◌, ◌==◌, [], not, ◌∷◌, if-elim, List, subst, if◌then◌else◌, nat_eq,
  none, option-elim, some, ◌≤◌, Option, String, ℕ,
}
use sparkcore_go.Scheduler.Dag.{
  is_result_kind, scheduler_closed, is_stage_running, task_failure, is_map_kind, job_context,
  stage_output_invalid, StageState, DagScheduler, JobState,
}
use sparkcore_go.Scheduler.Dag.Handlers.{
  finished_error, new_stage, add_task, check_failure, end_context, handle_finished, add_tasks,
  new_job, handle_task_failed, add_stages, handle_task_succeeded, fail_all, output_run_id,
  pending_in_stage, complete_job, accept_output, take_output, pending_task, check_output,
}
use sparkcore_go.Common.Dict.{AllValues-remove, AllValues, AllValues-insert, Dict, insert, lookup}
use sparkcore_go.Scheduler.Dag.Recovery.{fail_job}
use sparkcore_go.Plan.{StageAttemptId, PartitionId, StageId, JobId}
use sparkcore_go.Scheduler.Output.{validate_for}

module _ {V : Type 0} (max : ℕ) where
  module _ (empty_digest : String) where
    take_output-AllBounded :
        (r : TaskAttemptSuccess V) (run : String) (job : JobState V) (st : StageState V)
        (s : DagScheduler V)
        → IsBounded max job
        → st.attempts ≤ max
        → AllBounded max s
        → AllBounded max (take_output max empty_digest r run job st s)
    unfolding take_output accept_output complete_job
    take_output-AllBounded r run job st s hj hs h =
        let st' = accept_output r st in
        let job' : JobState V = record job {
          run_id = if is_map_kind st.stage.kind then run else job.run_id;
          stages = insert r.stage_id st' job.stages;
        } in
        let hj' : IsBounded max job' =
          AllValues-insert (IsWithin max) r.stage_id st' job.stages hs hj in
        if-elim (AllBounded max) (not (st'.remaining == pos 0))
          (λ _. AllValues-insert (IsBounded max) r.job_id job' s.jobs hj' h)
          (λ _.
            if-elim (AllBounded max) (r.stage_id == job.result_stage_id)
              (λ _. AllValues-remove (IsBounded max) r.job_id s.jobs h)
              (λ _. advance-AllBounded max empty_digest r.job_id job' s hj' h))

    check_output-AllBounded :
        (r : TaskAttemptSuccess V) (job : JobState V) (st : StageState V) (t : Task)
        (s : DagScheduler V)
        → IsBounded max job
        → st.attempts ≤ max
        → AllBounded max s
        → AllBounded max (check_output max empty_digest r job st t s)
    unfolding check_output
    check_output-AllBounded r job st t s hj hs h =
        option-elim (AllBounded max) job.ctx
          (λ _.
            option-elim (AllBounded max)
              (validate_for empty_digest r.output record {
                run_id = output_run_id job.run_id r.output;
                job_id = r.job_id;
                task = t;
                attempt = r.attempt;
                worker_id = "";
                shuffle_inputs = none;
              })
              (λ _. take_output-AllBounded r (output_run_id job.run_id r.output) job st s hj hs h)
              (λ e _. fail_job-AllBounded max r.job_id (stage_output_invalid e) s h))
          (λ e _. fail_job-AllBounded max r.job_id (job_context e) s h)

    -- A pending task's job and stage are those of the scheduler.
    abbrev PendingBounded : Option (JobState V × StageState V × Task) → Type 0
    PendingBounded none = Unit
    PendingBounded (some (job, st, t)) = IsBounded max job × (st.attempts ≤ max)

    pending_task-Bounded :
        (s : DagScheduler V) (job : JobId) (stage : StageId) (a : TaskAttemptIdentity)
        (p : PartitionId)
        → AllBounded max s
        → PendingBounded (pending_task s job stage a p)
    unfolding pending_task
    pending_task-Bounded s job stage a p h =
        option-elim PendingBounded (lookup job s.jobs) (λ _. tt)
          (λ j at.
            option-elim PendingBounded (lookup stage j.stages) (λ _. tt)
              (λ st at'.
                option-elim PendingBounded (pending_in_stage st a p) (λ _. tt)
                  (λ t _. (h job j at, h job j at stage st at'))))

    pub handle_task_succeeded-AllBounded :
        (r : TaskAttemptSuccess V) (s : DagScheduler V)
        → AllBounded max s
        → AllBounded max (handle_task_succeeded max empty_digest r s)
    unfolding handle_task_succeeded
    handle_task_succeeded-AllBounded r s h =
        option-elim (AllBounded max) (pending_task s r.job_id r.stage_id r.attempt r.partition_id)
          (λ _. h)
          (λ x e.
            let ok =
              subst PendingBounded e
                (pending_task-Bounded s r.job_id r.stage_id r.attempt r.partition_id h) in
            check_output-AllBounded r x.0 x.1 x.2 s ok.0 ok.1 h)

    check_failure-AllBounded :
        (r : TaskAttemptFailure) (k : FailureKind) (job : JobState V) (st : StageState V)
        (s : DagScheduler V)
        → IsBounded max job
        → st.attempts ≤ max
        → AllBounded max s
        → AllBounded max (check_failure max empty_digest r k job st s)
    unfolding check_failure
    check_failure-AllBounded r k job st s hj hs h =
        let fails =
          fail_job-AllBounded max r.job_id
            (task_failure r.stage_id r.attempt.task_id r.partition_id r.error) s h in
        elim k as (λ x. AllBounded max (check_failure max empty_digest r x job st s)) [
          | failure_shuffle_input ↦ recover_shuffle-AllBounded max empty_digest job st r s hj hs h
          | failure_execution ↦ fails
          | failure_permanent ↦ fails
          | failure_canceled ↦ fails
          | failure_worker_lost ↦ fails
          | other_failure t ↦ fails
        ]

    pub handle_task_failed-AllBounded :
        (r : TaskAttemptFailure) (s : DagScheduler V)
        → AllBounded max s
        → AllBounded max (handle_task_failed max empty_digest r s)
    unfolding handle_task_failed
    handle_task_failed-AllBounded r s h =
        option-elim (AllBounded max) (pending_task s r.job_id r.stage_id r.attempt r.partition_id)
          (λ _. h)
          (λ x e.
            let ok =
              subst PendingBounded e
                (pending_task-Bounded s r.job_id r.stage_id r.attempt r.partition_id h) in
            option-elim (AllBounded max) x.0.ctx
              (λ _. check_failure-AllBounded r r.kind x.0 x.1 s ok.0 ok.1 h)
              (λ c _. fail_job-AllBounded max r.job_id (job_context c) s h))

  pub handle_finished-AllBounded :
      (id : JobId) (stage : StageId) (attempt : StageAttemptId) (err : Option String)
      (s : DagScheduler V)
      → AllBounded max s
      → AllBounded max (handle_finished id stage attempt err s)
  unfolding handle_finished
  handle_finished-AllBounded id stage attempt err s h =
      option-elim (AllBounded max) (lookup id s.jobs) (λ _. h)
        (λ job _.
          option-elim (AllBounded max) (lookup stage job.stages) (λ _. h)
            (λ st _.
              if-elim (AllBounded max)
                (not (is_stage_running st.status) || not (st.attempt_id == attempt)) (λ _. h)
                (λ _. fail_job-AllBounded max id (finished_error job st err) s h)))

  pub fail_all-AllBounded :
      (jobs : List (JobId × JobState V)) (s : DagScheduler V)
      → AllBounded max s
      → AllBounded max (fail_all jobs s)
  unfolding fail_all
  fail_all-AllBounded [] s h = h
  fail_all-AllBounded ((id, job) ∷ jobs) s h =
      fail_all-AllBounded jobs (fail_job id scheduler_closed s)
        (fail_job-AllBounded max id scheduler_closed s h)

  add_stages-IsBounded :
      (stages : List Stage) (job : JobState V)
      → IsBounded max job
      → IsBounded max (add_stages stages job)
  unfolding add_stages
  add_stages-IsBounded [] job h = h
  add_stages-IsBounded (st ∷ sts) job h =
      add_stages-IsBounded sts
        (record job {
          order = job.order ++ (st.id ∷ []);
          stages = insert st.id (new_stage st) job.stages;
          result_stage_id = if is_result_kind st.kind then st.id else job.result_stage_id;
        })
        (AllValues-insert (IsWithin max) st.id (new_stage st) job.stages (omega arith) h)

  add_tasks-IsWithin :
      (ts : List Task) (stages : Dict StageId (StageState V))
      → AllValues (IsWithin max) stages
      → AllValues (IsWithin max) (add_tasks ts stages)
  unfolding add_tasks add_task
  add_tasks-IsWithin [] stages h = h
  add_tasks-IsWithin (t ∷ ts) stages h = add_tasks-IsWithin ts (add_task t stages) (
      option-elim (AllValues (IsWithin max)) (lookup t.stage_id stages) (λ _. h)
        (λ st at.
          AllValues-insert (IsWithin max) t.stage_id (record st { tasks = st.tasks ++ (t ∷ []) })
            stages (h t.stage_id st at) h))

  pub new_job-IsBounded :
      (ctx : Option ContextError) (a : ActionSpec) (stages : List Stage) (ts : List Task)
      → IsBounded max (new_job {V = V} ctx a stages ts)
  unfolding new_job lookup
  new_job-IsBounded ctx a stages ts =
      let job : JobState V = record {
        action = a;
        run_id = "";
        stages = [];
        order = [];
        result_stage_id = 0;
        ctx = ctx;
      } in
      add_tasks-IsWithin ts (add_stages stages job).stages
        (add_stages-IsBounded stages job (λ k st e. absurd cc))

  pub end_context-AllBounded :
      (id : JobId) (e : ContextError) (s : DagScheduler V)
      → AllBounded max s
      → AllBounded max (end_context id e s)
  unfolding end_context
  end_context-AllBounded id e s h =
      option-elim (AllBounded max) (lookup id s.jobs) (λ _. h)
        (λ job at.
          AllValues-insert (IsBounded max) id (record job { ctx = some e }) s.jobs (h id job at) h)
