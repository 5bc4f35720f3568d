-- ===== src/Scheduler/Dag/Attempts.antt =====
-- The limit on the executions of a stage, over a history of events.
use sparkcore_go.Scheduler.Dag.{
  shuffle_failure_invalid, exhausted_after_failure, no_current_input, stage_running,
  is_stage_succeeded, stage_scope, no_completed_parent, is_map_kind, is_stage_pending,
  is_result_kind, no_recoverable_parent, DagError, DagScheduler, StageState, JobState,
}
use sparkcore_go.Common.{
  arith, ◌+◌, leb, inr, inl, ◌||◌, ◌<◌, none, not, ◌++◌, [], some, ◌∷◌, option-elim, if-elim, ◌⊎◌,
  List, nat_eq, Option, ◌≤◌, String, ℕ,
}
use sparkcore_go.Scheduler.Dag.Recovery.{
  is_current_input, reset_stage, recover_parent, restart, recover_from, advance, recover_shuffle,
  store_started, fail_job,
}
use sparkcore_go.Scheduler.Dag.Stages.{
  stage_inputs, parents_succeeded, StartState, start_found, start_stage, start_stages,
  start_ready_stages, launch,
}
use sparkcore_go.Scheduler.Output.{validate_failure}
use sparkcore_go.Common.Dict.{AllValues-remove, lookup, AllValues-insert, insert, AllValues}
use sparkcore_go.Shuffle.{InputSnapshot}
use sparkcore_go.Plan.{StageId, JobId}
use sparkcore_go.Scheduler.{TaskAttemptFailure}

module _ {V : Type 0} (max : ℕ) where
  abbrev pub IsWithin : StageState V → Type 0
  IsWithin st = st.attempts ≤ max

  abbrev pub IsBounded : JobState V → Type 0
  IsBounded job = AllValues (λ st. st.attempts ≤ max) job.stages

  abbrev pub AllBounded : DagScheduler V → Type 0
  AllBounded s = AllValues IsBounded s.jobs

  abbrev StartBounded : Option DagError × StartState V → Type 0
  StartBounded r = IsBounded r.1.job

  launch-IsBounded :
      (job_id : JobId) (id : StageId) (s : StageState V) (o : StartState V)
      (inputs : DagError ⊎ Option InputSnapshot)
      → s.attempts < max
      → IsBounded o.job
      → IsBounded (launch job_id id s o inputs).1.job
  unfolding launch
  launch-IsBounded job_id id s o (inl e) l h = h
  launch-IsBounded job_id id s o (inr inputs) l h =
      AllValues-insert IsWithin id
        (record s { attempt_id = o.next; status = stage_running; attempts = s.attempts + 1 })
        o.job.stages (omega (arith, l)) h

  module _ (empty_digest : String) where
    start_found-IsBounded :
        (job_id : JobId) (id : StageId) (s : StageState V) (o : StartState V)
        → IsBounded o.job
        → IsBounded (start_found max empty_digest job_id id s o).1.job
    unfolding start_found
    start_found-IsBounded job_id id s o h =
        if-elim StartBounded
          (not (is_stage_pending s.status)
            || not (parents_succeeded o.job.stages s.stage.parent_ids))
          (λ _. h)
          (λ _.
            if-elim StartBounded (leb max s.attempts) (λ _. h)
              (λ l.
                launch-IsBounded job_id id s o
                  (stage_inputs empty_digest job_id o.job s s.stage.parent_ids) (ground (arith, l))
                  h))

    start_stage-IsBounded :
        (job_id : JobId) (id : StageId) (o : StartState V)
        → IsBounded o.job
        → IsBounded (start_stage max empty_digest job_id id o).1.job
    unfolding start_stage
    start_stage-IsBounded job_id id o h =
        option-elim StartBounded (lookup id o.job.stages) (λ _. h)
          (λ s _. start_found-IsBounded job_id id s o h)

    start_stages-IsBounded :
        (job_id : JobId) (ids : List StageId) (o : StartState V)
        → IsBounded o.job
        → IsBounded (start_stages max empty_digest job_id ids o).1.job
    unfolding start_stages
    start_stages-IsBounded job_id [] o h = h
    start_stages-IsBounded job_id (id ∷ ids) o h =
        let o' = (start_stage max empty_digest job_id id o).1 in
        option-elim StartBounded (start_stage max empty_digest job_id id o).0
          (λ _. start_stages-IsBounded job_id ids o' (start_stage-IsBounded job_id id o h))
          (λ e _. start_stage-IsBounded job_id id o h)

    start_ready_stages-IsBounded :
        (job_id : JobId) (o : StartState V)
        → IsBounded o.job
        → IsBounded (start_ready_stages max empty_digest job_id o).1.job
    unfolding start_ready_stages
    start_ready_stages-IsBounded job_id o h =
        option-elim StartBounded o.job.ctx (λ _. start_stages-IsBounded job_id o.job.order o h)
          (λ e _. h)

  pub fail_job-AllBounded :
      (id : JobId) (e : DagError) (s : DagScheduler V) → AllBounded s → AllBounded (fail_job id e s)
  unfolding fail_job
  fail_job-AllBounded id e s h =
      option-elim AllBounded (lookup id s.jobs) (λ _. h)
        (λ job _. AllValues-remove IsBounded id s.jobs h)

  store_started-AllBounded :
      (id : JobId) (s : DagScheduler V) (e : Option DagError) (o : StartState V)
      → IsBounded o.job
      → AllBounded s
      → AllBounded (store_started id s (e, o))
  unfolding store_started
  store_started-AllBounded id s none o hj h = AllValues-insert IsBounded id o.job s.jobs hj h
  store_started-AllBounded id s (some x) o hj h =
      fail_job-AllBounded id x
        (record s {
          jobs = insert id o.job s.jobs;
          next_stage_attempt_id = o.next;
          submitted = o.submitted;
        })
        (AllValues-insert IsBounded id o.job s.jobs hj h)

  module _ (empty_digest : String) where
    pub advance-AllBounded :
        (id : JobId) (job : JobState V) (s : DagScheduler V)
        → IsBounded job
        → AllBounded s
        → AllBounded (advance max empty_digest id job s)
    unfolding advance
    advance-AllBounded id job s hj h =
        let o : StartState V = record {
          job = job;
          next = s.next_stage_attempt_id;
          submitted = s.submitted;
        } in
        let r = start_ready_stages max empty_digest id o in
        store_started-AllBounded id s r.0 r.1 (start_ready_stages-IsBounded empty_digest id o hj) h

    restart-AllBounded :
        (job : JobState V) (pid : StageId) (parent child : StageState V) (r : TaskAttemptFailure)
        (s : DagScheduler V)
        → IsBounded job
        → parent.attempts ≤ max
        → child.attempts ≤ max
        → AllBounded s
        → AllBounded (restart max empty_digest job pid parent child r s)
    unfolding restart reset_stage
    restart-AllBounded job pid parent child r s hj hp hc h =
        advance-AllBounded r.job_id
          (record job {
            stages =
                insert r.stage_id (reset_stage child) (insert pid (reset_stage parent) job.stages);
          })
          (record s {
            canceled =
                s.canceled
                ++ (stage_scope r.job_id pid parent.attempt_id
                    ∷ stage_scope r.job_id r.stage_id child.attempt_id
                    ∷ []);
          })
          (AllValues-insert IsWithin r.stage_id (reset_stage child)
            (insert pid (reset_stage parent) job.stages) hc
            (AllValues-insert IsWithin pid (reset_stage parent) job.stages hp hj))
          h

    recover_parent-AllBounded :
        (job : JobState V) (pid : StageId) (parent child : StageState V) (r : TaskAttemptFailure)
        (s : DagScheduler V)
        → IsBounded job
        → parent.attempts ≤ max
        → child.attempts ≤ max
        → AllBounded s
        → AllBounded (recover_parent max empty_digest job pid parent child r s)
    unfolding recover_parent
    recover_parent-AllBounded job pid parent child r s hj hp hc h =
        let fails = λ (e : DagError). fail_job-AllBounded r.job_id e s h in
        if-elim AllBounded
          (not (is_map_kind parent.stage.kind) || not (is_stage_succeeded parent.status))
          (λ _. fails (no_completed_parent r.stage_id))
          (λ _.
            option-elim AllBounded (validate_failure r.kind r.shuffle_input)
              (λ _.
                if-elim AllBounded (not (is_current_input parent r))
                  (λ _. fails (no_current_input r.stage_id))
                  (λ _.
                    if-elim AllBounded (leb max parent.attempts)
                      (λ _. fails (exhausted_after_failure parent.stage.id max r.error))
                      (λ _.
                        if-elim AllBounded (leb max child.attempts)
                          (λ _. fails (exhausted_after_failure child.stage.id max r.error))
                          (λ _. restart-AllBounded job pid parent child r s hj hp hc h))))
              (λ e _. fails (shuffle_failure_invalid e)))

    recover_from-AllBounded :
        (job : JobState V) (child : StageState V) (ids : List StageId) (r : TaskAttemptFailure)
        (s : DagScheduler V)
        → IsBounded job
        → child.attempts ≤ max
        → AllBounded s
        → AllBounded (recover_from max empty_digest job child ids r s)
    unfolding recover_from
    recover_from-AllBounded job child [] r s hj hc h =
        fail_job-AllBounded r.job_id (no_recoverable_parent r.stage_id) s h
    recover_from-AllBounded job child (pid ∷ []) r s hj hc h =
        option-elim AllBounded (lookup pid job.stages)
          (λ _. fail_job-AllBounded r.job_id (no_completed_parent r.stage_id) s h)
          (λ parent at.
            recover_parent-AllBounded job pid parent child r s hj (hj pid parent at) hc h)
    recover_from-AllBounded job child (pid ∷ q ∷ qs) r s hj hc h =
        fail_job-AllBounded r.job_id (no_recoverable_parent r.stage_id) s h

    pub recover_shuffle-AllBounded :
        (job : JobState V) (child : StageState V) (r : TaskAttemptFailure) (s : DagScheduler V)
        → IsBounded job
        → child.attempts ≤ max
        → AllBounded s
        → AllBounded (recover_shuffle max empty_digest job child r s)
    unfolding recover_shuffle
    recover_shuffle-AllBounded job child r s hj hc h =
        if-elim AllBounded (is_result_kind child.stage.kind)
          (λ _. recover_from-AllBounded job child child.stage.parent_ids r s hj hc h)
          (λ _. fail_job-AllBounded r.job_id (no_recoverable_parent r.stage_id) s h)
