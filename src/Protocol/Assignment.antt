-- ===== src/Protocol/Assignment.antt =====
-- TaskExecution.Validate of scheduler/task.go and TaskAssignment.Validate of protocol/validate.go.
use sparkcore_go.Scheduler.Kinds.{reduces, is_hash, is_shuffle_read, is_reduce}
use sparkcore_go.Common.{
  nat_eq, int_ltb, zero, pos, suc, contains, int_leb, ◌&&◌, is_some, ◌==◌, not, ◌||◌, [], some,
  none, ◌∷◌, Option, true, false, Bool, List, String, ℕ, string_eq, int_eq, if◌then◌else◌,
}
use sparkcore_go.Shuffle.{InputSnapshot, InvalidShuffle}
use sparkcore_go.Scheduler.{
  action_collect, action_count, ActionSpec, ShuffleReadSpec, other_action, Task, ShuffleWriteSpec,
  RddOperationSpec, TaskExecution, StageKind, ActionKind, StageOperation, StageOperationKind,
  stage_shuffle_map, stage_result, other_stage, stage_operation_rdd,
}
use sparkcore_go.Plan.{OperatorSpec, StageId, OperatorKind, RddId, op_source, other_operator}
use sparkcore_go.Protocol.{or_else, refuse, Library}
use sparkcore_go.Shuffle.Input.{validate_input}

pub data InvalidAssignment : Type 0 where
  run_id_not_hex execution_without_worker attempt_of_another_task : InvalidAssignment
  identity_mismatch partition_out_of_range map_assignment_shape : InvalidAssignment
  shuffle_write_shape result_assignment_shape : InvalidAssignment
  unsupported_stage_kind : String → InvalidAssignment
  pipeline_missing shuffle_read_shape shuffle_inputs_mismatch : InvalidAssignment
  bad_shuffle_inputs : InvalidShuffle → InvalidAssignment
  reduce_by_key_missing unexpected_shuffle_inputs : InvalidAssignment
  operation_not_rdd : ℕ → InvalidAssignment
  duplicate_rdd : RddId → InvalidAssignment
  source_missing reduce_by_key_misplaced action_target_mismatch : InvalidAssignment
  function_missing : ℕ → InvalidAssignment
  unsupported_narrow_operator : OperatorKind → InvalidAssignment

-- task.Operations[1], which both packages ask to be a reduction.
abbrev pub second_reduces : List StageOperation → Bool
second_reduces [] = false
second_reduces (a ∷ []) = false
second_reduces (a ∷ b ∷ os) = reduces b

abbrev pub differ : Bool → Bool → Bool
differ true b = not b
differ false b = b

abbrev pub is_other : Option RddId → RddId → Bool
is_other none id = true
is_other (some i) id = not (i == id)

-- The RDD of an operation of the right shape.
unfoldable pub operation_rdd :
    StageOperationKind → Option RddOperationSpec → Option ShuffleReadSpec → Option RddOperationSpec
operation_rdd stage_operation_rdd rdd none = rdd
operation_rdd k rdd read = none

abbrev pub is_result_action : ActionKind → Bool
is_result_action action_count = true
is_result_action action_collect = true
is_result_action (other_action a) = false

abbrev pub is_map_stage : StageKind → Bool
is_map_stage stage_shuffle_map = true
is_map_stage stage_result = false
is_map_stage (other_stage k) = false

abbrev pub last_rdd : List StageOperation → Option RddId
last_rdd [] = none
last_rdd (o ∷ []) = elim o.rdd [ none ↦ none | some rdd ↦ some rdd.rdd_id ]
last_rdd (o ∷ p ∷ os) = last_rdd (p ∷ os)

unfoldable pub check_target : Task → Option InvalidAssignment
unfolding refuse
check_target t = elim t.final_action [
  | none ↦ none
  | some a ↦
      refuse (not (is_map_stage t.stage_kind) && is_other (last_rdd t.operations) a.target_rdd)
        action_target_mismatch
]

module _ (lib : Library) where
  -- TaskExecution.Validate
  unfoldable pub validate_execution : TaskExecution → Option InvalidAssignment
  unfolding or_else refuse
  validate_execution e =
      or_else
        (refuse
          (not (lib.byte_length e.run_id == 32)
            || not (lib.to_lower e.run_id == e.run_id)
            || not (lib.decodes_hex e.run_id))
          run_id_not_hex)
        (or_else (refuse (lib.is_blank e.worker_id) execution_without_worker)
          (refuse (not (e.attempt.task_id == e.task.id)) attempt_of_another_task))

  unfoldable pub check_write : ShuffleWriteSpec → Option InvalidAssignment
  unfolding refuse
  check_write w =
      refuse
        (not (is_hash w.partitioner.kind)
          || int_leb w.partitioner.num_partitions (pos 0)
          || lib.is_blank w.aggregator_id)
        shuffle_write_shape

  -- The switch on the kind of the stage.
  unfoldable pub check_stage_kind :
      StageKind
      → Option ShuffleWriteSpec
      → Option ActionSpec
      → Option InputSnapshot
      → Option InvalidAssignment
  unfolding check_write refuse
  check_stage_kind stage_shuffle_map (some w) none none = check_write w
  check_stage_kind stage_shuffle_map w a s = some map_assignment_shape
  check_stage_kind stage_result none (some a) s =
      refuse (not (is_result_action a.kind)) result_assignment_shape
  check_stage_kind stage_result w a s = some result_assignment_shape
  check_stage_kind (other_stage k) w a s = some (unsupported_stage_kind k)

  unfoldable pub check_inputs :
      TaskExecution → ShuffleReadSpec → InputSnapshot → Option InvalidAssignment
  unfolding validate_input refuse
  check_inputs e read s = elim (validate_input lib.empty_digest s) [
    | some x ↦ some (bad_shuffle_inputs x)
    | none ↦
        refuse
          (not (s.run_id == e.run_id)
            || not (s.job_id == e.job_id)
            || not (s.shuffle_id == read.shuffle_id)
            || not (is_hash read.partitioner.kind)
            || not (read.partitioner.num_partitions == s.num_reduce_partitions)
            || not (e.task.num_partitions == s.num_reduce_partitions))
          shuffle_inputs_mismatch
  ]

  -- The checks on a pipeline whose first operation is a shuffle read.
  unfoldable pub check_shuffle_read :
      TaskExecution
      → StageOperation
      → Option ShuffleReadSpec
      → Option InputSnapshot
      → Option InvalidAssignment
  unfolding check_inputs or_else refuse
  check_shuffle_read e o (some read) (some s) =
      or_else (refuse (is_map_stage e.task.stage_kind || is_some o.rdd) shuffle_read_shape) (
        or_else (check_inputs e read s)
          (refuse (not (second_reduces e.task.operations)) reduce_by_key_missing))
  check_shuffle_read e o read s = some shuffle_read_shape

  -- The check of the first operator.
  unfoldable pub check_first : OperatorKind → OperatorSpec → Option InvalidAssignment
  unfolding refuse
  check_first op_source op =
      refuse (lib.is_blank op.source_path || not (op.function_id == "")) source_missing
  check_first k op = some source_missing

  -- The switch on the kind of the operator at `suc i`.
  unfoldable pub check_later : Bool → ℕ → OperatorKind → OperatorSpec → Option InvalidAssignment
  unfolding or_else refuse
  check_later reads i op_source op = some (unsupported_narrow_operator op_source)
  check_later reads i (other_operator k) op = some (unsupported_narrow_operator (other_operator k))
  check_later reads i k op =
      or_else (refuse (differ (is_reduce k) (reads && i == 0)) reduce_by_key_misplaced) (
        refuse (lib.is_blank op.function_id || not (op.source_path == ""))
          (function_missing (suc i)))

  unfoldable pub check_operator : Bool → ℕ → OperatorSpec → Option InvalidAssignment
  unfolding check_first check_later
  check_operator reads zero op = check_first op.kind op
  check_operator reads (suc i) op = check_later reads i op.kind op

  -- The loop over the operations from index `i` on; a shuffle read at the front is passed over.
  unfoldable pub check_operations :
      Bool → ℕ → List RddId → List StageOperation → Option InvalidAssignment
  unfolding operation_rdd check_operator or_else refuse
  check_operations reads i seen [] = none
  check_operations reads i seen (o ∷ os) = elim (operation_rdd o.kind o.rdd o.shuffle_read) [
    | none ↦ some (operation_not_rdd i)
    | some rdd ↦ or_else (refuse (contains seen rdd.rdd_id) (duplicate_rdd rdd.rdd_id)) (
        or_else (check_operator reads i rdd.operator)
          (check_operations reads (suc i) (rdd.rdd_id ∷ seen) os))
  ]

  -- The checks on the pipeline.
  unfoldable pub check_pipeline : TaskExecution → List StageOperation → Option InvalidAssignment
  unfolding check_shuffle_read check_operations or_else refuse
  check_pipeline e [] = some pipeline_missing
  check_pipeline e (o ∷ os) =
      if is_shuffle_read o.kind
      then or_else (check_shuffle_read e o o.shuffle_read e.shuffle_inputs)
          (check_operations true 1 [] os)
      else or_else (refuse (is_some e.shuffle_inputs) unexpected_shuffle_inputs)
          (check_operations false 0 [] (o ∷ os))

  -- TaskAssignment.Validate; an assignment has the fields of an execution, and its own stage id.
  unfoldable pub validate_assignment : StageId → TaskExecution → Option InvalidAssignment
  unfolding validate_execution check_stage_kind check_pipeline check_target or_else refuse
  validate_assignment stage e =
      let t = e.task in
      or_else (validate_execution e) (
        or_else
          (refuse (not (e.attempt.task_id == t.id) || not (stage == t.stage_id)) identity_mismatch)
          (or_else
            (refuse
              (int_leb t.num_partitions (pos 0)
                || int_ltb t.partition_id (pos 0)
                || int_leb t.num_partitions t.partition_id)
              partition_out_of_range)
            (or_else (check_stage_kind t.stage_kind t.shuffle_write t.final_action e.shuffle_inputs)
              (or_else (check_pipeline e t.operations) (check_target t)))))
