-- ===== src/Scheduler/Dag/Handlers.antt =====
-- scheduler/dag_scheduler.go: the handlers of the event loop, and a history of events. The
-- scheduler has a task scheduler; a nil one, on which every job is refused, is not modelled.
use sparkcore_go.Common.{
  int_add, int64_wrap, inr, is_some, zero, string_eq, inl, ◌||◌, int_eq, none, nat_eq, length, suc,
  [], get_elem?, not, ◌==◌, negsuc, ◌∷◌, true, some, ◌++◌, pos, Option, List, ℕ, String,
  if◌then◌else◌,
}
use sparkcore_go.Scheduler.Dag.{
  scheduler_stopping, context_done, job_canceled, task_set_finished, generating, task_failed,
  planning, stage_output_invalid, unfinished_partitions, task_succeeded, job_submitted,
  task_failure, stage_succeeded, is_result_kind, task_set_error, completed, is_stage_running,
  scheduler_closed, job_failed, is_map_kind, JobResult, DagEvent, job_context, job_scope, DagError,
  stage_pending, DagScheduler, JobState, StageState,
}
use sparkcore_go.Scheduler.{
  action_count, action_collect, other_action, failure_shuffle_input, StagePlan, FailureKind,
  ActionSpec, TaskOutput, TaskAttemptFailure, ContextError, TaskAttemptIdentity, Task, ActionKind,
  Stage, TaskAttemptSuccess,
}
use sparkcore_go.Scheduler.Generator.{generate_tasks}
use sparkcore_go.Scheduler.Dag.Stages.{validate_execution_plan}
use sparkcore_go.Common.Dict.{remove, lookup, insert, Dict}
use sparkcore_go.Scheduler.Output.{validate_for}
use sparkcore_go.Scheduler.Planner.{plan_stages}
use sparkcore_go.Plan.Graph.{RddGraph}
use sparkcore_go.Plan.{StageAttemptId, StageId, PartitionId, JobId}
use sparkcore_go.Scheduler.Dag.Recovery.{recover_shuffle, advance, fail_job}
use sparkcore_go.Scheduler.Functions.{FunctionLookup}

-- stage.tasks[partition], if that is in range.
unfoldable pub task_at : List Task → PartitionId → Option Task
task_at ts (pos i) = get_elem? ts i
task_at ts (negsuc i) = none

module _ {V : Type 0} where
  unfoldable pub merge_output : ActionKind → TaskOutput V → JobResult V → JobResult V
  unfolding int64_wrap
  merge_output action_collect o r = record r {
    records = r.records ++ elim o.records [ none ↦ [] | some vs ↦ vs ];
  }
  merge_output action_count o r = record r { count = int64_wrap (int_add r.count o.count) }
  merge_output (other_action a) o r = r

  -- The `n` partitions from `i`; a partition without an output adds nothing.
  unfoldable pub merge_from :
      ActionKind → Dict PartitionId (TaskOutput V) → ℕ → ℕ → JobResult V → JobResult V
  unfolding merge_output
  merge_from k outputs zero i r = r
  merge_from k outputs (suc n) i r =
      merge_from k outputs n (suc i)
        (elim (lookup (pos i) outputs) [ none ↦ r | some o ↦ merge_output k o r ])

  unfoldable pub merge_task_outputs : ActionKind → Dict PartitionId (TaskOutput V) → JobResult V
  unfolding merge_from
  merge_task_outputs k outputs =
      merge_from k outputs (length outputs) 0 (record { records = []; count = pos 0 })

  unfoldable pub pending_in_stage : StageState V → TaskAttemptIdentity → PartitionId → Option Task
  unfolding task_at
  pending_in_stage st attempt p =
      if not (is_stage_running st.status) || not (attempt.stage_attempt_id == st.attempt_id)
      then none
      else elim (task_at st.tasks p) [
        | none ↦ none
        | some t ↦
            if not (t.id == attempt.task_id) || is_some (lookup p st.outputs) then none else some t
      ]

  -- pendingTask, with the stage and the task that it looked up.
  unfoldable pub pending_task :
      DagScheduler V
      → JobId
      → StageId
      → TaskAttemptIdentity
      → PartitionId
      → Option (JobState V × StageState V × Task)
  unfolding pending_in_stage
  pending_task s job stage attempt p = elim (lookup job s.jobs) [
    | none ↦ none
    | some j ↦ elim (lookup stage j.stages) [
      | none ↦ none
      | some st ↦ elim (pending_in_stage st attempt p) [ none ↦ none | some t ↦ some (j, st, t) ]
    ]
  ]

  unfoldable pub output_run_id : String → TaskOutput V → String
  output_run_id run o =
      if run == "" then elim o.shuffle_output [ none ↦ run | some m ↦ m.attempt.run_id ] else run

  -- The result of a job whose result stage has all its outputs.
  unfoldable pub complete_job : JobId → JobState V → StageState V → DagScheduler V → DagScheduler V
  unfolding merge_task_outputs
  complete_job id job st s = record s {
    canceled = s.canceled ++ (job_scope id ∷ []);
    responses =
        s.responses ++ ((id, completed (merge_task_outputs job.action.kind st.outputs)) ∷ []);
    jobs = remove id s.jobs;
  }

  unfoldable pub accept_output : TaskAttemptSuccess V → StageState V → StageState V
  accept_output r st = record st {
    outputs = insert r.partition_id r.output st.outputs;
    remaining = int_add st.remaining (negsuc 0);
    status = if st.remaining == pos 1 then stage_succeeded else st.status;
  }

  module _ (max : ℕ) (empty_digest : String) where
    -- A valid output of a pending task.
    unfoldable pub take_output :
        TaskAttemptSuccess V → String → JobState V → StageState V → DagScheduler V → DagScheduler V
    unfolding accept_output complete_job advance
    take_output r run job st s =
        let st' = accept_output r st in
        let job' = record job {
          run_id = if is_map_kind st.stage.kind then run else job.run_id;
          stages = insert r.stage_id st' job.stages;
        } in
        if not (st'.remaining == pos 0)
        then record s { jobs = insert r.job_id job' s.jobs }
        else if r.stage_id == job.result_stage_id
        then complete_job r.job_id job' st' s
        else advance max empty_digest r.job_id job' s

    unfoldable pub check_output :
        TaskAttemptSuccess V → JobState V → StageState V → Task → DagScheduler V → DagScheduler V
    unfolding take_output output_run_id
    check_output r job st t s = elim job.ctx [
      | some e ↦ fail_job r.job_id (job_context e) s
      | none ↦
          let run = output_run_id job.run_id r.output in
          elim (validate_for empty_digest r.output record {
            run_id = run;
            job_id = r.job_id;
            task = t;
            attempt = r.attempt;
            worker_id = "";
            shuffle_inputs = none;
          }) [
            | some e ↦ fail_job r.job_id (stage_output_invalid e) s
            | none ↦ take_output r run job st s
          ]
    ]

    unfoldable pub handle_task_succeeded : TaskAttemptSuccess V → DagScheduler V → DagScheduler V
    unfolding check_output pending_task
    handle_task_succeeded r s = elim (pending_task s r.job_id r.stage_id r.attempt r.partition_id) [
      | none ↦ s
      | some (job, st, t) ↦ check_output r job st t s
    ]

    unfoldable pub check_failure :
        TaskAttemptFailure
        → FailureKind
        → JobState V
        → StageState V
        → DagScheduler V
        → DagScheduler V
    unfolding recover_shuffle fail_job
    check_failure r failure_shuffle_input job st s = recover_shuffle max empty_digest job st r s
    check_failure r _ job st s =
        fail_job r.job_id (task_failure r.stage_id r.attempt.task_id r.partition_id r.error) s

    unfoldable pub handle_task_failed : TaskAttemptFailure → DagScheduler V → DagScheduler V
    unfolding check_failure pending_task
    handle_task_failed r s = elim (pending_task s r.job_id r.stage_id r.attempt r.partition_id) [
      | none ↦ s
      | some (job, st, t) ↦ elim job.ctx [
        | some e ↦ fail_job r.job_id (job_context e) s
        | none ↦ check_failure r r.kind job st s
      ]
    ]

  -- The end of a task set's submission, for a stage that still runs.
  unfoldable pub finished_error : JobState V → StageState V → Option String → DagError
  finished_error job st err = elim job.ctx [
    | some e ↦ job_context e
    | none ↦ elim err [ some e ↦ task_set_error e | none ↦ unfinished_partitions st.remaining ]
  ]

  unfoldable pub handle_finished :
      JobId → StageId → StageAttemptId → Option String → DagScheduler V → DagScheduler V
  unfolding finished_error fail_job
  handle_finished id stage attempt err s = elim (lookup id s.jobs) [
    | none ↦ s
    | some job ↦ elim (lookup stage job.stages) [
      | none ↦ s
      | some st ↦
          if not (is_stage_running st.status) || not (st.attempt_id == attempt)
          then s
          else fail_job id (finished_error job st err) s
    ]
  ]

  unfoldable pub fail_all : List (JobId × JobState V) → DagScheduler V → DagScheduler V
  unfolding fail_job
  fail_all [] s = s
  fail_all ((id, job) ∷ jobs) s = fail_all jobs (fail_job id scheduler_closed s)

  -- Go visits the jobs in an unspecified order, here in the order of the map's entries.
  unfoldable pub handle_stopping : DagScheduler V → DagScheduler V
  unfolding fail_all
  handle_stopping s = fail_all s.jobs (record s { stopping = true })

  unfoldable pub reject_job : JobId → DagError → DagScheduler V → DagScheduler V
  reject_job id e s = record s { responses = s.responses ++ ((id, job_failed e) ∷ []) }

  abbrev pub new_stage : Stage → StageState V
  new_stage st = record {
    stage = st;
    attempt_id = 0;
    status = stage_pending;
    attempts = 0;
    tasks = [];
    remaining = st.num_partitions;
    outputs = [];
  }

  -- The loop over the stages of the plan.
  unfoldable pub add_stages : List Stage → JobState V → JobState V
  add_stages [] job = job
  add_stages (st ∷ sts) job = add_stages sts (record job {
    order = job.order ++ (st.id ∷ []);
    stages = insert st.id (new_stage st) job.stages;
    result_stage_id = if is_result_kind st.kind then st.id else job.result_stage_id;
  })

  -- The loop over the tasks. Every task's stage is one of the plan's.
  unfoldable pub add_task : Task → Dict StageId (StageState V) → Dict StageId (StageState V)
  add_task t stages = elim (lookup t.stage_id stages) [
    | none ↦ stages
    | some st ↦ insert t.stage_id (record st { tasks = st.tasks ++ (t ∷ []) }) stages
  ]

  unfoldable pub add_tasks : List Task → Dict StageId (StageState V) → Dict StageId (StageState V)
  unfolding add_task
  add_tasks [] stages = stages
  add_tasks (t ∷ ts) stages = add_tasks ts (add_task t stages)

  unfoldable pub new_job : Option ContextError → ActionSpec → List Stage → List Task → JobState V
  unfolding add_stages add_tasks
  new_job ctx a stages tasks =
      let job = add_stages stages (record {
        action = a;
        run_id = "";
        stages = [];
        order = [];
        result_stage_id = 0;
        ctx = ctx;
      }) in
      record job { stages = add_tasks tasks job.stages }

  -- The end of the context of a job's caller.
  unfoldable pub end_context : JobId → ContextError → DagScheduler V → DagScheduler V
  end_context id e s = elim (lookup id s.jobs) [
    | none ↦ s
    | some job ↦ record s { jobs = insert id (record job { ctx = some e }) s.jobs }
  ]

  module _ (max : ℕ) (empty_digest : String) where
    -- A planned job.
    unfoldable pub submit_planned :
        JobId → Option ContextError → ActionSpec → StagePlan → DagScheduler V → DagScheduler V
    unfolding reject_job new_job advance
    submit_planned id ctx a p s = elim (validate_execution_plan p.stages) [
      | some e ↦ reject_job id e s
      | none ↦ elim (generate_tasks p) [
        | inl e ↦ reject_job id (generating e) s
        | inr tasks ↦ advance max empty_digest id (new_job ctx a p.stages tasks) s
      ]
    ]

    unfoldable pub handle_job_submitted :
        Option FunctionLookup
        → JobId
        → Option ContextError
        → RddGraph
        → ActionSpec
        → DagScheduler V
        → DagScheduler V
    unfolding submit_planned
    handle_job_submitted functions id ctx g a s =
        if s.stopping then reject_job id scheduler_closed s else elim (plan_stages functions g a) [
          | inl e ↦ reject_job id (planning e) s
          | inr p ↦ submit_planned id ctx a p s
        ]

    unfoldable pub handle_event :
        Option FunctionLookup → DagEvent V → DagScheduler V → DagScheduler V
    unfolding handle_job_submitted handle_task_succeeded handle_task_failed handle_finished
        handle_stopping end_context
    handle_event f (job_submitted id ctx g a) s = handle_job_submitted f id ctx g a s
    handle_event f (task_succeeded r) s = handle_task_succeeded max empty_digest r s
    handle_event f (task_failed r) s = handle_task_failed max empty_digest r s
    handle_event f (task_set_finished id stage attempt e) s = handle_finished id stage attempt e s
    handle_event f (job_canceled id e) s = fail_job id (job_context e) s
    handle_event f scheduler_stopping s = handle_stopping s
    handle_event f (context_done id e) s = end_context id e s

    unfoldable pub handle_events :
        Option FunctionLookup → List (DagEvent V) → DagScheduler V → DagScheduler V
    unfolding handle_event
    handle_events f [] s = s
    handle_events f (e ∷ es) s = handle_events f es (handle_event f e s)
