-- ===== src/Executor/ShuffleRead.antt =====
-- executor/shuffle_read.go: validateShuffleExecution. The store is only tested for being there.
use sparkcore_go.Scheduler.Kinds.{reduces, is_shuffle_read, is_hash, is_operation_rdd}
use sparkcore_go.Common.{
  int_leb, pos, int_ltb, suc, [], ◌||◌, ◌==◌, ◌&&◌, not, is_some, some, none, inr, inl, ◌∷◌, false,
  true, ◌⊎◌, Bool, List, String, Option, ℕ, string_eq, nat_eq, int_eq, if◌then◌else◌,
}
use sparkcore_go.Shuffle.{InputSnapshot, InvalidShuffle}
use sparkcore_go.Scheduler.{
  TaskExecution, StageOperation, ShuffleReadSpec, StageKind, stage_shuffle_map, stage_result,
  other_stage,
}
use sparkcore_go.Shuffle.Input.{validate_input}

pub data ShuffleReadError : Type 0 where
  read_not_first reduce_without_read unexpected_inputs not_a_result_task : ShuffleReadError
  read_without_reduce store_or_inputs_missing wrong_shuffle wrong_partitioning : ShuffleReadError
  bad_inputs : InvalidShuffle → ShuffleReadError

-- The loop over the operations; `read` is the specification that it has found.
unfoldable pub find_read :
    ℕ → Option ShuffleReadSpec → List StageOperation → ShuffleReadError ⊎ Option ShuffleReadSpec
find_read i read [] = inr read
find_read i read (o ∷ os) =
    if is_shuffle_read o.kind && (not (i == 0) || not (is_some o.shuffle_read) || is_some o.rdd)
    then inl read_not_first
    else let read' = if is_shuffle_read o.kind then o.shuffle_read else read in
      if reduces o && (not (is_some read') || not (i == 1))
      then inl reduce_without_read
      else find_read (suc i) read' os

abbrev pub is_result_stage : StageKind → Bool
is_result_stage stage_result = true
is_result_stage stage_shuffle_map = false
is_result_stage (other_stage k) = false

abbrev pub second_is_reduce : List StageOperation → Bool
second_is_reduce [] = false
second_is_reduce (a ∷ []) = false
second_is_reduce (a ∷ b ∷ os) = is_operation_rdd b.kind && reduces b

module _ (empty_digest : String) where
  -- The checks on a task that reads a shuffle.
  unfoldable pub check_read :
      Bool → TaskExecution → ShuffleReadSpec → Option InputSnapshot → Option ShuffleReadError
  unfolding validate_input
  check_read store e read none = some store_or_inputs_missing
  check_read store e read (some s) =
      if not store then some store_or_inputs_missing else elim (validate_input empty_digest s) [
        | some x ↦ some (bad_inputs x)
        | none ↦
            if not (s.run_id == e.run_id)
              || not (s.job_id == e.job_id)
              || not (s.shuffle_id == read.shuffle_id)
            then some wrong_shuffle
            else if not (is_hash read.partitioner.kind)
                || not (read.partitioner.num_partitions == s.num_reduce_partitions)
                || not (e.task.num_partitions == s.num_reduce_partitions)
                || int_ltb e.task.partition_id (pos 0)
                || int_leb e.task.num_partitions e.task.partition_id
            then some wrong_partitioning
            else none
      ]

  unfoldable pub check_found :
      Bool → TaskExecution → ShuffleReadError ⊎ Option ShuffleReadSpec → Option ShuffleReadError
  unfolding check_read
  check_found store e (inl x) = some x
  check_found store e (inr none) = if is_some e.shuffle_inputs then some unexpected_inputs else none
  check_found store e (inr (some read)) =
      if not (is_result_stage e.task.stage_kind)
        || is_some e.task.shuffle_write
        || not (is_some e.task.final_action)
      then some not_a_result_task
      else if not (second_is_reduce e.task.operations)
      then some read_without_reduce
      else check_read store e read e.shuffle_inputs

  -- validateShuffleExecution
  unfoldable pub validate_shuffle_execution : Bool → TaskExecution → Option ShuffleReadError
  unfolding check_found find_read
  validate_shuffle_execution store e = check_found store e (find_read 0 none e.task.operations)
