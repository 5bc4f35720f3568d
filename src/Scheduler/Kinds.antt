-- ===== src/Scheduler/Kinds.antt =====
-- The tests on kinds and operations that the protocol and the executor share. A kind is a string in
-- the source, compared with `==`.
use sparkcore_go.Scheduler.{
  RddOperationSpec, StageOperationKind, StageOperation, stage_operation_rdd,
  stage_operation_shuffle_read, other_operation,
}
use sparkcore_go.Common.{Option, false, true, Bool, none, some}
use sparkcore_go.Plan.{
  other_partitioner, PartitionerKind, OperatorKind, op_source, op_map, op_filter, op_map_to_pair,
  op_map_values, op_reduce_by_key, other_operator, partitioner_hash,
}

abbrev pub is_operation_rdd : StageOperationKind → Bool
is_operation_rdd stage_operation_rdd = true
is_operation_rdd stage_operation_shuffle_read = false
is_operation_rdd (other_operation k) = false

abbrev pub is_shuffle_read : StageOperationKind → Bool
is_shuffle_read stage_operation_rdd = false
is_shuffle_read stage_operation_shuffle_read = true
is_shuffle_read (other_operation k) = false

abbrev pub is_reduce : OperatorKind → Bool
is_reduce op_reduce_by_key = true
is_reduce op_source = false
is_reduce op_map = false
is_reduce op_filter = false
is_reduce op_map_to_pair = false
is_reduce op_map_values = false
is_reduce (other_operator k) = false

abbrev pub is_hash : PartitionerKind → Bool
is_hash partitioner_hash = true
is_hash (other_partitioner k) = false

-- A reduction by key.
abbrev pub rdd_reduces : Option RddOperationSpec → Bool
rdd_reduces none = false
rdd_reduces (some rdd) = is_reduce rdd.operator.kind

abbrev pub reduces : StageOperation → Bool
reduces o = rdd_reduces o.rdd
