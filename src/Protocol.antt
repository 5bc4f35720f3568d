-- ===== src/Protocol.antt =====
-- protocol/worker.go, task_report.go, job.go, error.go and the validation of these messages in
-- protocol/validate.go. A nil slice is `none`. The functions of Go's library that it calls are
-- parameters.
pub mod Assignment
pub mod Pipelines
pub mod Admission
pub mod Responses
pub mod Dispatch
pub mod Heartbeats
pub mod Tests
use sparkcore_go.Common.{
  contains, suc, ◌&&◌, int_add, ◌==◌, ◌||◌, false, ◌∷◌, not, length, none, true, [], pos, int_leb,
  int_ltb, some, is_some, Option, String, Bool, List, ℤ, ℕ, string_eq, nat_eq, int_eq,
  if◌then◌else◌,
}
use sparkcore_go.Scheduler.{
  TaskAttemptIdentity, InvalidReport, ActionKind, FailureKind, action_count, action_collect,
  other_action,
}
use sparkcore_go.Shuffle.{InvalidShuffle, InputReference, MapOutput}
use sparkcore_go.Plan.{StageId, PartitionId, TaskAttemptId, WorkerId, JobId}
use sparkcore_go.Shuffle.Metadata.{validate_map_output}
use sparkcore_go.Scheduler.Output.{validate_failure}

pub record Url : Type 0 where
  pub scheme : String
  pub hostname : String
  pub has_user : Bool
  pub raw_query : String
  pub force_query : Bool
  pub fragment : String

-- strings.TrimSpace(s) == "", strings.ToLower, hex.DecodeString without an error, json.Valid,
-- url.Parse, the length of a string in bytes and the digest of no bytes.
pub record Library : Type 0 where
  pub is_blank : String → Bool
  pub to_lower : String → String
  pub decodes_hex : String → Bool
  pub json_valid : String → Bool
  pub parse_url : String → Option Url
  pub byte_length : String → ℕ
  pub empty_digest : String

pub record RegisterWorkerRequest : Type 0 where
  pub worker_id : WorkerId
  pub total_slots : ℤ
  pub base_url : String

pub record RegisterWorkerResponse : Type 0 where
  pub worker_id : WorkerId
  pub total_slots : ℤ

pub record HeartbeatRequest : Type 0 where
  pub worker_id : WorkerId
  pub free_slots : ℤ
  pub running_attempt_ids : Option (List TaskAttemptId)

-- protocol.TaskOutput: a record is a JSON text.
pub record ProtocolOutput : Type 0 where
  pub shuffle_output : Option MapOutput
  pub records : Option (List String)
  pub count : ℤ

pub record TaskSuccessRequest : Type 0 where
  pub job_id : JobId
  pub stage_id : StageId
  pub attempt : TaskAttemptIdentity
  pub partition_id : PartitionId
  pub worker_id : WorkerId
  pub output : ProtocolOutput

pub record TaskFailureRequest : Type 0 where
  pub kind : FailureKind
  pub shuffle_input : Option InputReference
  pub job_id : JobId
  pub stage_id : StageId
  pub attempt : TaskAttemptIdentity
  pub partition_id : PartitionId
  pub worker_id : WorkerId
  pub error : String

pub record JobResultResponse : Type 0 where
  pub action : ActionKind
  pub records : Option (List String)
  pub count : ℤ

pub data InvalidMessage : Type 0 where
  worker_id_empty total_slots_not_positive bad_base_url : InvalidMessage
  free_slots_negative running_attempts_missing : InvalidMessage
  duplicate_running_attempt : TaskAttemptId → InvalidMessage
  capacity_exceeded : ℤ → InvalidMessage
  shuffle_output_with_results negative_count records_with_count : InvalidMessage
  bad_shuffle_output : InvalidShuffle → InvalidMessage
  bad_record : ℕ → InvalidMessage
  partition_negative output_identity failure_identity error_empty : InvalidMessage
  bad_failure : InvalidReport → InvalidMessage
  count_result_with_records collect_result_shape : InvalidMessage
  unsupported_result_action : String → InvalidMessage

-- The first error of two checks.
unfoldable pub or_else {ℓ} : {E : Type ℓ} → Option E → Option E → Option E
or_else (some e) next = some e
or_else none next = next

unfoldable pub refuse {ℓ} : {E : Type ℓ} → Bool → E → Option E
refuse true e = some e
refuse false e = none

abbrev pub running_count : Option (List TaskAttemptId) → ℤ
running_count none = pos 0
running_count (some ids) = pos (length ids)

abbrev pub record_list : Option (List String) → List String
record_list none = []
record_list (some rs) = rs

abbrev pub bad_output : Option InvalidShuffle → Option InvalidMessage
bad_output none = none
bad_output (some e) = some (bad_shuffle_output e)

abbrev pub bad_failure_of : Option InvalidReport → Option InvalidMessage
bad_failure_of none = none
bad_failure_of (some e) = some (bad_failure e)

module _ (lib : Library) where
  unfoldable pub validate_worker : WorkerId → Option InvalidMessage
  unfolding refuse
  validate_worker id = refuse (lib.is_blank id) worker_id_empty

  unfoldable pub bad_url : Option Url → Bool
  bad_url none = true
  bad_url (some u) =
      (not (u.scheme == "http") && not (u.scheme == "https"))
      || u.hostname == ""
      || u.has_user
      || not (u.raw_query == "")
      || u.force_query
      || not (u.fragment == "")

  -- RegisterWorkerRequest.Validate
  unfoldable pub validate_registration : RegisterWorkerRequest → Option InvalidMessage
  unfolding validate_worker or_else refuse bad_url
  validate_registration r = or_else (validate_worker r.worker_id) (
      or_else (refuse (int_leb r.total_slots (pos 0)) total_slots_not_positive)
        (refuse (not (r.base_url == "") && bad_url (lib.parse_url r.base_url)) bad_base_url))

  -- RegisterWorkerResponse.Validate
  unfoldable pub validate_registered : RegisterWorkerResponse → Option InvalidMessage
  unfolding validate_registration
  validate_registered r =
      validate_registration
        record { worker_id = r.worker_id; total_slots = r.total_slots; base_url = "" }

  -- The loop over the running attempts.
  unfoldable pub check_running : List TaskAttemptId → List TaskAttemptId → Option InvalidMessage
  check_running seen [] = none
  check_running seen (id ∷ ids) =
      if contains seen id
      then some (duplicate_running_attempt id)
      else check_running (id ∷ seen) ids

  unfoldable pub check_running_list : Option (List TaskAttemptId) → Option InvalidMessage
  unfolding check_running
  check_running_list none = some running_attempts_missing
  check_running_list (some ids) = check_running [] ids

  -- HeartbeatRequest.Validate
  unfoldable pub validate_heartbeat : HeartbeatRequest → Option InvalidMessage
  unfolding validate_worker or_else refuse check_running_list
  validate_heartbeat r = or_else (validate_worker r.worker_id) (
      or_else (refuse (int_ltb r.free_slots (pos 0)) free_slots_negative)
        (check_running_list r.running_attempt_ids))

  -- HeartbeatRequest.ValidateCapacity; `len(ids) > total - free` with `free` on the other side, which
  -- is the same where it is reached: there `total - free` is from 0 to `total`.
  unfoldable pub validate_capacity : HeartbeatRequest → ℤ → Option InvalidMessage
  unfolding validate_heartbeat or_else refuse
  validate_capacity r total = or_else (validate_heartbeat r) (
      refuse
        (int_leb total (pos 0)
          || int_ltb total r.free_slots
          || int_ltb total (int_add (running_count r.running_attempt_ids) r.free_slots))
        (capacity_exceeded total))

  unfoldable pub check_records : ℕ → List String → Option InvalidMessage
  check_records i [] = none
  check_records i (r ∷ rs) =
      if lib.json_valid r then check_records (suc i) rs else some (bad_record i)

  -- TaskOutput.Validate
  unfoldable pub validate_output : ProtocolOutput → Option InvalidMessage
  unfolding or_else refuse check_records validate_map_output
  validate_output o = elim o.shuffle_output [
    | some m ↦
        or_else (refuse (is_some o.records || not (o.count == pos 0)) shuffle_output_with_results)
          (bad_output (validate_map_output lib.empty_digest m))
    | none ↦ or_else (refuse (int_ltb o.count (pos 0)) negative_count) (
        or_else (refuse (is_some o.records && not (o.count == pos 0)) records_with_count)
          (check_records 0 (record_list o.records)))
  ]

  unfoldable pub validate_report : WorkerId → PartitionId → Option InvalidMessage
  unfolding validate_worker or_else refuse
  validate_report w p = or_else (validate_worker w) (refuse (int_ltb p (pos 0)) partition_negative)

  unfoldable pub check_output_identity :
      TaskSuccessRequest → Option MapOutput → Option InvalidMessage
  unfolding refuse
  check_output_identity r none = none
  check_output_identity r (some m) =
      let a = m.attempt in
      refuse
        (not (a.job_id == r.job_id)
          || not (a.stage_id == r.stage_id)
          || not (a.stage_attempt_id == r.attempt.stage_attempt_id)
          || not (a.task_id == r.attempt.task_id)
          || not (a.task_attempt_id == r.attempt.id)
          || not (a.map_partition_id == r.partition_id))
        output_identity

  -- TaskSuccessRequest.Validate
  unfoldable pub validate_success : TaskSuccessRequest → Option InvalidMessage
  unfolding validate_report validate_output check_output_identity or_else
  validate_success r =
      or_else (validate_report r.worker_id r.partition_id)
        (or_else (validate_output r.output) (check_output_identity r r.output.shuffle_output))

  unfoldable pub check_input_identity :
      TaskFailureRequest → Option InputReference → Option InvalidMessage
  unfolding refuse
  check_input_identity r none = none
  check_input_identity r (some x) =
      refuse (not (x.attempt.job_id == r.job_id) || not (x.partition_id == r.partition_id))
        failure_identity

  -- TaskFailureRequest.Validate
  unfoldable pub validate_task_failure : TaskFailureRequest → Option InvalidMessage
  unfolding validate_failure check_input_identity validate_report or_else refuse
  validate_task_failure r = or_else (bad_failure_of (validate_failure r.kind r.shuffle_input)) (
      or_else (check_input_identity r r.shuffle_input) (
        or_else (validate_report r.worker_id r.partition_id)
          (refuse (lib.is_blank r.error) error_empty)))

  unfoldable pub check_result_action : JobResultResponse → ActionKind → Option InvalidMessage
  unfolding refuse
  check_result_action r action_count = refuse (is_some r.records) count_result_with_records
  check_result_action r action_collect =
      refuse (not (is_some r.records) || not (r.count == pos 0)) collect_result_shape
  check_result_action r (other_action a) = some (unsupported_result_action a)

  -- JobResultResponse.Validate
  unfoldable pub validate_job_result : JobResultResponse → Option InvalidMessage
  unfolding validate_output or_else check_result_action
  validate_job_result r =
      or_else
        (validate_output record { shuffle_output = none; records = r.records; count = r.count })
        (check_result_action r r.action)
