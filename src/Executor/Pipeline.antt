-- ===== src/Executor/Pipeline.antt =====
-- executor/pipeline.go: the iterator of a task's operations. The registry's tables, the source
-- reader and the iterator of a shuffle read are interfaces, taken as parameters.
use sparkcore_go.Shuffle.{InputSnapshot}
use sparkcore_go.Common.{
  ℤ, [], ◌∷◌, inl, none, Bool, inr, some, Option, ◌⊎◌, String, List, string_eq,
}
use sparkcore_go.Scheduler.{
  TaskExecution, ContextError, StageOperation, StageOperationKind, stage_operation_rdd,
  stage_operation_shuffle_read, other_operation,
}
use sparkcore_go.Plan.{
  PartitionId, op_reduce_by_key, op_map_values, op_map_to_pair, op_filter, op_map, op_source,
  other_operator, OperatorSpec, OperatorKind,
}
use sparkcore_go.Executor.Reduce.{reduce_iterator}
use sparkcore_go.Executor.Iterator.{
  ReduceFunc, value_map_iterator, ValueMapFunc, pair_map_iterator, PairMapFunc, FilterFunc,
  Iterator, filter_iterator, map_iterator, MapFunc, ExecError,
}
use sparkcore_go.Common.Dict.{lookup, Dict}

pub data PipelineError : Type 0 where
  invalid_operation : StageOperationKind → PipelineError
  source_not_first nil_iterator no_operations : PipelineError
  no_input unsupported_operator : OperatorKind → PipelineError
  unknown_function : OperatorKind → String → PipelineError
  source_failed : ExecError → PipelineError

-- FunctionRegistry: one table for each kind of function.
pub record FunctionRegistry (A : Type 0) : Type 0 where
  pub maps : Dict String (MapFunc A)
  pub filters : Dict String (FilterFunc A)
  pub pair_maps : Dict String (PairMapFunc A)
  pub value_maps : Dict String (ValueMapFunc A)
  pub reducers : Dict String (ReduceFunc A)

-- What a task reads from: SourceReader.Open on a path for a partition of a number of them, whose
-- iterator may be nil, and the iterator over the bucket of a partition in its shuffle inputs.
pub record Sources (A : Type 0) : Type 1 where
  pub open_source : Option ContextError → String → PartitionId → ℤ → ExecError ⊎ Option (Iterator A)
  pub shuffle_input : Option InputSnapshot → PartitionId → Iterator A
  pub text_ltb : String → String → Bool

module _ {A : Type 0} where
  -- A function that is registered, on the input that a case of the switch requires.
  unfoldable pub with_function :
      {F : Type 0}
      → OperatorKind
      → String
      → Option F
      → (F → Iterator A → Iterator A)
      → Option (Iterator A)
      → PipelineError ⊎ Option (Iterator A)
  with_function kind id f make none = inl (no_input kind)
  with_function kind id none make (some it) = inl (unknown_function kind id)
  with_function kind id (some f) make (some it) = inr (some (make f it))

  unfoldable pub open_first :
      ExecError ⊎ Option (Iterator A) → Option (Iterator A) → PipelineError ⊎ Option (Iterator A)
  open_first opened (some it) = inl source_not_first
  open_first (inl e) none = inl (source_failed e)
  open_first (inr none) none = inl nil_iterator
  open_first (inr (some it)) none = inr (some it)

  -- The switch on the kind of the operator.
  unfoldable pub apply_operator :
      FunctionRegistry A
      → Sources A
      → Option ContextError
      → TaskExecution
      → OperatorKind
      → OperatorSpec
      → Option (Iterator A)
      → PipelineError ⊎ Option (Iterator A)
  unfolding with_function open_first lookup
  apply_operator reg src ctx x op_source op it =
      open_first (src.open_source ctx op.source_path x.task.partition_id x.task.num_partitions) it
  apply_operator reg src ctx x op_map op it =
      with_function op_map op.function_id (lookup op.function_id reg.maps) map_iterator it
  apply_operator reg src ctx x op_filter op it =
      with_function op_filter op.function_id (lookup op.function_id reg.filters) filter_iterator it
  apply_operator reg src ctx x op_map_to_pair op it =
      with_function op_map_to_pair op.function_id (lookup op.function_id reg.pair_maps)
        pair_map_iterator it
  apply_operator reg src ctx x op_map_values op it =
      with_function op_map_values op.function_id (lookup op.function_id reg.value_maps)
        value_map_iterator it
  apply_operator reg src ctx x op_reduce_by_key op it =
      with_function op_reduce_by_key op.function_id (lookup op.function_id reg.reducers)
        (reduce_iterator src.text_ltb) it
  apply_operator reg src ctx x (other_operator k) op it =
      inl (unsupported_operator (other_operator k))

  -- The body of the loop over the operations.
  unfoldable pub apply_operation :
      FunctionRegistry A
      → Sources A
      → Option ContextError
      → TaskExecution
      → StageOperation
      → Option (Iterator A)
      → PipelineError ⊎ Option (Iterator A)
  unfolding apply_operator
  apply_operation reg src ctx x o it = elim o.kind [
    | stage_operation_shuffle_read ↦
        inr (some (src.shuffle_input x.shuffle_inputs x.task.partition_id))
    | other_operation k ↦ inl (invalid_operation (other_operation k))
    | stage_operation_rdd ↦ elim o.rdd [
      | none ↦ inl (invalid_operation stage_operation_rdd)
      | some rdd ↦ apply_operator reg src ctx x rdd.operator.kind rdd.operator it
    ]
  ]

  unfoldable pub apply_operations :
      FunctionRegistry A
      → Sources A
      → Option ContextError
      → TaskExecution
      → List StageOperation
      → Option (Iterator A)
      → PipelineError ⊎ Option (Iterator A)
  unfolding apply_operation
  apply_operations reg src ctx x [] it = inr it
  apply_operations reg src ctx x (o ∷ os) it = elim (apply_operation reg src ctx x o it) [
    | inl e ↦ inl e
    | inr it' ↦ apply_operations reg src ctx x os it'
  ]

  -- buildTaskIterator
  unfoldable pub build_task_iterator :
      FunctionRegistry A
      → Sources A
      → Option ContextError
      → TaskExecution
      → PipelineError ⊎ Iterator A
  unfolding apply_operations
  build_task_iterator reg src ctx x = elim (apply_operations reg src ctx x x.task.operations none) [
    | inl e ↦ inl e
    | inr none ↦ inl no_operations
    | inr (some it) ↦ inr it
  ]
