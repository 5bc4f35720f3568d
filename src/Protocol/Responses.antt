-- ===== src/Protocol/Responses.antt =====
-- The responses of protocol/worker.go, task_report.go and error.go, and their validation in
-- protocol/validate.go.
use sparkcore_go.Common.{
  ◌||◌, contains, [], ◌&&◌, ◌∷◌, List, not, ◌↔◌, ◌==◌, ◌≡◌, Option, Bool, String, Eq, ℕ, string_eq,
  nat_eq, arith, none, some, suc, true,
}
use sparkcore_go.Plan.{WorkerId, StageAttemptId, TaskId, StageId, TaskAttemptId, JobId}
use sparkcore_go.Protocol.Assignment.{validate_assignment, InvalidAssignment}
use sparkcore_go.Scheduler.{TaskExecution}
use sparkcore_go.Protocol.{or_else, refuse, Library}

-- TaskAssignment: the fields of an execution, and its own stage id.
pub record ProtocolAssignment : Type 0 where
  pub stage_id : StageId
  pub execution : TaskExecution

pub record LogicalKey : Type 0 where
  pub job : JobId
  pub stage : StageId
  pub stage_attempt : StageAttemptId
  pub task : TaskId

abbrev pub logical_key_beq : LogicalKey → LogicalKey → Bool
logical_key_beq a b =
    a.job == b.job && a.stage == b.stage && a.stage_attempt == b.stage_attempt && a.task == b.task

pub logical_key_beq_iff : (a b : LogicalKey) → (logical_key_beq a b ≡ true) ↔ (a ≡ b)
logical_key_beq_iff a b = ground arith

instance abbrev pub logical_key_eq : Eq LogicalKey
logical_key_eq = record { beq = logical_key_beq; beq_iff = logical_key_beq_iff }

pub data ErrorCode : Type 0 where
  code_invalid_request code_request_too_large code_not_found code_method_not_allowed : ErrorCode
  code_conflict code_unavailable code_job_failed code_internal : ErrorCode
  other_code : String → ErrorCode

pub record ErrorResponse : Type 0 where
  pub code : ErrorCode
  pub message : String

pub data InvalidResponse : Type 0 where
  assignments_missing assignments_of_other_workers not_acknowledged message_empty : InvalidResponse
  bad_assignment : ℕ → InvalidAssignment → InvalidResponse
  duplicate_assignment : TaskId → TaskAttemptId → InvalidResponse
  unknown_error_code : String → InvalidResponse

abbrev pub logical_key : ProtocolAssignment → LogicalKey
logical_key a = record {
  job = a.execution.job_id;
  stage = a.stage_id;
  stage_attempt = a.execution.attempt.stage_attempt_id;
  task = a.execution.attempt.task_id;
}

abbrev pub attempt_id : ProtocolAssignment → TaskAttemptId
attempt_id a = a.execution.attempt.id

-- TaskReportResponse.Validate
unfoldable pub validate_report_response : Bool → Option InvalidResponse
unfolding refuse
validate_report_response acknowledged = refuse (not acknowledged) not_acknowledged

unfoldable pub check_code : ErrorCode → Option InvalidResponse
check_code (other_code c) = some (unknown_error_code c)
check_code c = none

module _ (lib : Library) where
  -- ErrorResponse.Validate
  unfoldable pub validate_error_response : ErrorResponse → Option InvalidResponse
  unfolding or_else refuse check_code
  validate_error_response r =
      or_else (refuse (lib.is_blank r.message) message_empty) (check_code r.code)

  abbrev pub bad_assignment_at : ℕ → Option InvalidAssignment → Option InvalidResponse
  bad_assignment_at i none = none
  bad_assignment_at i (some e) = some (bad_assignment i e)

  -- The loop over the assignments; `worker` is the first one's.
  unfoldable pub check_assignments :
      WorkerId
      → ℕ
      → List TaskAttemptId
      → List LogicalKey
      → List ProtocolAssignment
      → Option InvalidResponse
  unfolding validate_assignment or_else refuse
  check_assignments worker i attempts tasks [] = none
  check_assignments worker i attempts tasks (a ∷ rest) =
      or_else (bad_assignment_at i (validate_assignment lib a.stage_id a.execution)) (
        or_else (refuse (not (a.execution.worker_id == worker)) assignments_of_other_workers) (
          or_else
            (refuse (contains attempts (attempt_id a) || contains tasks (logical_key a))
              (duplicate_assignment a.execution.attempt.task_id (attempt_id a)))
            (check_assignments worker (suc i) (attempt_id a ∷ attempts) (logical_key a ∷ tasks)
              rest)))

  -- HeartbeatResponse.Validate
  unfoldable pub validate_heartbeat_response :
      Option (List ProtocolAssignment) → Option InvalidResponse
  unfolding check_assignments
  validate_heartbeat_response none = some assignments_missing
  validate_heartbeat_response (some []) = none
  validate_heartbeat_response (some (a ∷ rest)) =
      check_assignments a.execution.worker_id 0 [] [] (a ∷ rest)
