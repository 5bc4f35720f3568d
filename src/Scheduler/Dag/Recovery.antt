-- ===== src/Scheduler/Dag/Recovery.antt =====
-- scheduler/dag_recovery.go and `failJob`, `startReadyStages` as the handlers call them.
use sparkcore_go.Shuffle.{attempt_identity_eq}
use sparkcore_go.Common.{
  nat_eq, int_eq, ◌&&◌, ◌==◌, false, none, leb, some, [], ◌||◌, length, ◌++◌, ◌∷◌, Bool, not, pos,
  List, Option, String, ℕ, if◌then◌else◌,
}
use sparkcore_go.Common.Dict.{remove, insert, lookup}
use sparkcore_go.Scheduler.Dag.{
  job_failed, job_scope, exhausted_after_failure, no_current_input, shuffle_failure_invalid,
  no_completed_parent, is_stage_succeeded, stage_scope, no_recoverable_parent, is_map_kind,
  is_result_kind, stage_pending, StageState, JobState, DagError, DagScheduler,
}
use sparkcore_go.Scheduler.Output.{validate_failure}
use sparkcore_go.Scheduler.Dag.Stages.{StartState, start_ready_stages}
use sparkcore_go.Scheduler.{TaskAttemptFailure}
use sparkcore_go.Plan.{StageId, JobId}

module _ {V : Type 0} where
  unfoldable pub fail_job : JobId → DagError → DagScheduler V → DagScheduler V
  fail_job id e s = elim (lookup id s.jobs) [
    | none ↦ s
    | some job ↦ record s {
      canceled = s.canceled ++ (job_scope id ∷ []);
      responses = s.responses ++ ((id, job_failed e) ∷ []);
      jobs = remove id s.jobs;
    }
  ]

  -- The state after startReadyStages on a job, which the map of jobs holds by pointer.
  unfoldable pub store_started :
      JobId → DagScheduler V → Option DagError × StartState V → DagScheduler V
  unfolding fail_job
  store_started id s (e, o) =
      let s' = record s {
        jobs = insert id o.job s.jobs;
        next_stage_attempt_id = o.next;
        submitted = o.submitted;
      } in
      elim e [ none ↦ s' | some x ↦ fail_job id x s' ]

  -- The stage goes back to pending and forgets its outputs.
  unfoldable pub reset_stage : StageState V → StageState V
  reset_stage st = record st {
    status = stage_pending;
    remaining = pos (length st.tasks);
    outputs = [];
  }

  -- The parent's output that the report names is the accepted one.
  unfoldable pub is_current_input : StageState V → TaskAttemptFailure → Bool
  is_current_input parent r = elim r.shuffle_input [
    | none ↦ false
    | some ref ↦
        ref.partition_id == r.partition_id
        && elim (lookup ref.attempt.map_partition_id parent.outputs) [
          | none ↦ false
          | some o ↦ elim o.shuffle_output [ none ↦ false | some m ↦ m.attempt == ref.attempt ]
        ]
  ]

  module _ (max : ℕ) (empty_digest : String) where
    -- startReadyStages on a changed job, and failJob on its error.
    unfoldable pub advance : JobId → JobState V → DagScheduler V → DagScheduler V
    unfolding store_started start_ready_stages
    advance id job s = store_started id s (
        start_ready_stages max empty_digest id
          record { job = job; next = s.next_stage_attempt_id; submitted = s.submitted })

    -- The restart of parent and child.
    unfoldable pub restart :
        JobState V
        → StageId
        → StageState V
        → StageState V
        → TaskAttemptFailure
        → DagScheduler V
        → DagScheduler V
    unfolding advance reset_stage
    restart job pid parent child r s =
        advance r.job_id
          (record job {
            stages =
                insert r.stage_id (reset_stage child) (insert pid (reset_stage parent) job.stages);
          })
          (record s {
            canceled =
                s.canceled
                ++ (stage_scope r.job_id pid parent.attempt_id
                    ∷ stage_scope r.job_id r.stage_id child.attempt_id
                    ∷ []);
          })

    unfoldable pub recover_parent :
        JobState V
        → StageId
        → StageState V
        → StageState V
        → TaskAttemptFailure
        → DagScheduler V
        → DagScheduler V
    unfolding restart is_current_input fail_job
    recover_parent job pid parent child r s =
        if not (is_map_kind parent.stage.kind) || not (is_stage_succeeded parent.status)
        then fail_job r.job_id (no_completed_parent r.stage_id) s
        else elim (validate_failure r.kind r.shuffle_input) [
          | some e ↦ fail_job r.job_id (shuffle_failure_invalid e) s
          | none ↦
              if not (is_current_input parent r)
              then fail_job r.job_id (no_current_input r.stage_id) s
              else if leb max parent.attempts
              then fail_job r.job_id (exhausted_after_failure parent.stage.id max r.error) s
              else if leb max child.attempts
              then fail_job r.job_id (exhausted_after_failure child.stage.id max r.error) s
              else restart job pid parent child r s
        ]

    -- recoverShuffle, and failJob on its error.
    unfoldable pub recover_from :
        JobState V
        → StageState V
        → List StageId
        → TaskAttemptFailure
        → DagScheduler V
        → DagScheduler V
    unfolding recover_parent
    recover_from job child (pid ∷ []) r s = elim (lookup pid job.stages) [
      | none ↦ fail_job r.job_id (no_completed_parent r.stage_id) s
      | some parent ↦ recover_parent job pid parent child r s
    ]
    recover_from job child _ r s = fail_job r.job_id (no_recoverable_parent r.stage_id) s

    unfoldable pub recover_shuffle :
        JobState V → StageState V → TaskAttemptFailure → DagScheduler V → DagScheduler V
    unfolding recover_from
    recover_shuffle job child r s =
        if is_result_kind child.stage.kind
        then recover_from job child child.stage.parent_ids r s
        else fail_job r.job_id (no_recoverable_parent r.stage_id) s
