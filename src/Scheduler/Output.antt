-- ===== src/Scheduler/Output.antt =====
-- scheduler/task_output.go and `ValidateFailure` of failure.go.
use sparkcore_go.Common.{
  Bool, Option, String, if◌then◌else◌, int_eq, int_ltb, is_some, nat_eq, none, not, pos, some,
  string_eq, ◌&&◌, ◌==◌, ◌||◌,
}
use sparkcore_go.Shuffle.{InputReference, MapOutput}
use sparkcore_go.Shuffle.Metadata.{validate_map_output, validate_reference}
use sparkcore_go.Scheduler.{
  ShuffleWriteSpec, StageKind, stage_shuffle_map, stage_result, other_stage, ActionSpec, ActionKind,
  action_collect, action_count, other_action, TaskOutput, TaskExecution, FailureKind,
  failure_execution, failure_permanent, failure_shuffle_input, failure_canceled,
  failure_worker_lost, other_failure, InvalidReport, map_requires_shuffle_output, output_mismatch,
  result_requires_action_output, count_with_records, collect_without_records, unsupported_action,
  missing_input_identity, unexpected_input_identity, unknown_failure_kind, invalid_shuffle,
}

-- The comparison of a map output with the attempt that it was assigned to.
unfoldable pub matches_assignment : MapOutput → ShuffleWriteSpec → TaskExecution → Bool
matches_assignment m w e =
    m.attempt.run_id == e.run_id
    && m.attempt.job_id == e.job_id
    && m.attempt.shuffle_id == w.shuffle_id
    && m.attempt.stage_id == e.task.stage_id
    && m.attempt.stage_attempt_id == e.attempt.stage_attempt_id
    && m.attempt.task_id == e.task.id
    && m.attempt.task_attempt_id == e.attempt.id
    && m.attempt.map_partition_id == e.task.partition_id
    && m.num_map_partitions == e.task.num_partitions
    && m.num_reduce_partitions == w.partitioner.num_partitions

module _ (empty_digest : String) {V : Type 0} where
  -- The branch for a map stage, on the pointers that it tests for nil.
  unfoldable pub validate_map :
      TaskExecution
      → Option ShuffleWriteSpec
      → Option ActionSpec
      → TaskOutput V
      → Option MapOutput
      → Option InvalidReport
  validate_map e (some w) none o (some m) =
      if is_some o.records || not (o.count == pos 0)
      then some map_requires_shuffle_output
      else elim (validate_map_output empty_digest m) [
        | some x ↦ some (invalid_shuffle x)
        | none ↦ if matches_assignment m w e then none else some output_mismatch
      ]
  validate_map e _ _ o _ = some map_requires_shuffle_output

  unfoldable pub validate_action : ActionKind → TaskOutput V → Option InvalidReport
  validate_action action_count o = if is_some o.records then some count_with_records else none
  validate_action action_collect o =
      if not (o.count == pos 0) || not (is_some o.records)
      then some collect_without_records
      else none
  validate_action (other_action a) o = some unsupported_action

  unfoldable pub validate_result : Option ActionSpec → TaskOutput V → Option InvalidReport
  unfolding validate_action
  validate_result none o = some result_requires_action_output
  validate_result (some a) o =
      if is_some o.shuffle_output || int_ltb o.count (pos 0)
      then some result_requires_action_output
      else validate_action a.kind o

  unfoldable pub validate_kind : StageKind → TaskExecution → TaskOutput V → Option InvalidReport
  unfolding validate_map validate_result
  validate_kind stage_shuffle_map e o =
      validate_map e e.task.shuffle_write e.task.final_action o o.shuffle_output
  validate_kind stage_result e o = validate_result e.task.final_action o
  validate_kind (other_stage k) e o = some result_requires_action_output

  -- TaskOutput.ValidateFor
  unfoldable pub validate_for : TaskOutput V → TaskExecution → Option InvalidReport
  unfolding validate_kind
  validate_for o e = validate_kind e.task.stage_kind e o

unfoldable pub validate_failure : FailureKind → Option InputReference → Option InvalidReport
validate_failure failure_shuffle_input none = some missing_input_identity
validate_failure failure_shuffle_input (some r) = elim (validate_reference r) [
  | none ↦ none
  | some x ↦ some (invalid_shuffle x)
]
validate_failure failure_execution r = if is_some r then some unexpected_input_identity else none
validate_failure failure_permanent r = if is_some r then some unexpected_input_identity else none
validate_failure failure_canceled r = if is_some r then some unexpected_input_identity else none
validate_failure failure_worker_lost r = some unknown_failure_kind
validate_failure (other_failure k) r = some unknown_failure_kind
