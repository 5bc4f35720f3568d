-- ===== src/Protocol/Dispatch.antt =====
-- What a worker may rely on in a heartbeat's response that is accepted.
use sparkcore_go.Common.{
  string_eq, nat_eq, ◌||◌, ◌==◌, not, true, false, contains, [], ◌∷◌, ◌≡◌, Option, List, ℕ, arith,
  refl, Distinct, All, suc, none, some, map,
}
use sparkcore_go.Protocol.Responses.{
  logical_key_eq, assignments_of_other_workers, duplicate_assignment, logical_key, attempt_id,
  LogicalKey, bad_assignment_at, validate_heartbeat_response, ProtocolAssignment, check_assignments,
}
use sparkcore_go.Protocol.Admission.{validate_assignment-validate_shuffle_execution}
use sparkcore_go.Protocol.Heartbeats.{NotIn-cons}
use sparkcore_go.Protocol.{refuse, or_else, Library}
use sparkcore_go.Executor.ShuffleRead.{validate_shuffle_execution}
use sparkcore_go.Protocol.Assignment.{validate_assignment, InvalidAssignment}
use sparkcore_go.Plan.{TaskAttemptId, WorkerId}
use sparkcore_go.Protocol.Pipelines.{or_else-parts, refuse-part}

-- An assignment that the executor takes, for the given worker.
pub record IsRunnable (lib : Library) (worker : WorkerId) (a : ProtocolAssignment) : Type 0 where
  pub same_worker : a.execution.worker_id ≡ worker
  pub accepted : validate_assignment lib a.stage_id a.execution ≡ none
  pub reads : validate_shuffle_execution lib.empty_digest true a.execution ≡ none

abbrev pub attempts_of : List ProtocolAssignment → List TaskAttemptId
attempts_of = map attempt_id

module _ (lib : Library) where
  bad_assignment_at-none :
      (i : ℕ) (q : Option InvalidAssignment) → bad_assignment_at lib i q ≡ none → q ≡ none
  bad_assignment_at-none i none h = refl
  bad_assignment_at-none i (some e) h = absurd cc

  check_assignments-parts :
      (worker : WorkerId) (i : ℕ) (attempts : List TaskAttemptId) (tasks : List LogicalKey)
      (work : List ProtocolAssignment)
      → check_assignments lib worker i attempts tasks work ≡ none
      → All (IsRunnable lib worker) work
        × Distinct (attempts_of work)
        × All (λ id. contains attempts id ≡ false) (attempts_of work)
  unfolding check_assignments
  check_assignments-parts worker i attempts tasks [] h = (tt, tt, tt)
  check_assignments-parts worker i attempts tasks (a ∷ rest) h =
      let valid = bad_assignment_at lib i (validate_assignment lib a.stage_id a.execution) in
      let other = not (a.execution.worker_id == worker) in
      let twice = contains attempts (attempt_id a) || contains tasks (logical_key a) in
      let repeated = duplicate_assignment a.execution.attempt.task_id (attempt_id a) in
      let more =
        check_assignments lib worker (suc i) (attempt_id a ∷ attempts) (logical_key a ∷ tasks)
          rest in
      let (ok, h1) =
        or_else-parts valid
          (or_else (refuse other assignments_of_other_workers)
            (or_else (refuse twice repeated) more))
          h in
      let (same, h2) =
        or_else-parts (refuse other assignments_of_other_workers)
          (or_else (refuse twice repeated) more) h1 in
      let (once, h3) = or_else-parts (refuse twice repeated) more h2 in
      let (runnable, distinct, unseen) =
        check_assignments-parts worker (suc i) (attempt_id a ∷ attempts) (logical_key a ∷ tasks)
          rest h3 in
      let (differs, fresh) = NotIn-cons (attempt_id a) attempts (attempts_of rest) unseen in
      let accepted = bad_assignment_at-none i (validate_assignment lib a.stage_id a.execution) ok in
      (
        (
          record {
            same_worker = ground (
              arith,
              refuse-part other assignments_of_other_workers same,
              string_eq.beq_iff a.execution.worker_id worker,
            );
            accepted = accepted;
            reads =
                validate_assignment-validate_shuffle_execution lib a.stage_id a.execution accepted;
          },
          runnable,
        ),
        (differs, distinct),
        (ground (arith, refuse-part twice repeated once), fresh),
      )

  -- In a heartbeat's response that is accepted, every assignment is for the worker of the first, is
  -- itself accepted and passes the executor's validation of its shuffle read, and no two have the
  -- same attempt.
  pub validate_heartbeat_response-IsRunnable :
      (a : ProtocolAssignment) (work : List ProtocolAssignment)
      → validate_heartbeat_response lib (some (a ∷ work)) ≡ none
      → All (IsRunnable lib a.execution.worker_id) (a ∷ work) × Distinct (attempts_of (a ∷ work))
  unfolding validate_heartbeat_response
  validate_heartbeat_response-IsRunnable a work h =
      let (runnable, distinct, unseen) =
        check_assignments-parts a.execution.worker_id 0 [] [] (a ∷ work) h in
      (runnable, distinct)
