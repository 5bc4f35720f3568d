-- ===== src/Scheduler/Generator.antt =====
-- scheduler/task_generator.go: one task for each partition of a stage, with ids from 0 on. The
-- clones of a stage's parts are identities on values. The partition counts are summed as an int, which
-- wraps; `make` panics on a capacity that is negative, and no limit on memory is modelled.
pub mod Numbering
use sparkcore_go.Common.{
  int64_wrap, int_add, int_ltb, int_leb, if◌then◌else◌, ◌+◌, zero, inr, ◌++◌, suc, to_ℕ, inl, pos,
  ◌∷◌, [], ℤ, ℕ, ◌⊎◌, List,
}
use sparkcore_go.Scheduler.{Task, Stage, StagePlan}
use sparkcore_go.Plan.{StageId}

pub data GenerateError : Type 0 where
  invalid_partitions : StageId → ℤ → GenerateError
  capacity_panic : ℤ → GenerateError

-- The first loop, from the count `total` on.
unfoldable pub check_stages : ℤ → List Stage → GenerateError ⊎ ℤ
unfolding int64_wrap
check_stages total [] = inr total
check_stages total (s ∷ ss) =
    if int_leb s.num_partitions (pos 0)
    then inl (invalid_partitions s.id s.num_partitions)
    else check_stages (int64_wrap (int_add total s.num_partitions)) ss

abbrev pub stage_task : Stage → ℕ → ℕ → Task
stage_task s p id = record {
  id = id;
  stage_id = s.id;
  stage_kind = s.kind;
  partition_id = pos p;
  num_partitions = s.num_partitions;
  operations = s.operations;
  shuffle_write = s.shuffle_write;
  final_action = s.final_action;
}

-- The tasks of the `n` partitions from `p`, the first with the id `id`.
unfoldable pub partition_tasks : Stage → ℕ → ℕ → ℕ → List Task
partition_tasks s zero p id = []
partition_tasks s (suc n) p id = stage_task s p id ∷ partition_tasks s n (suc p) (suc id)

-- The tasks of the stages, after `id` tasks.
unfoldable pub stage_tasks : List Stage → ℕ → List Task
unfolding partition_tasks
stage_tasks [] id = []
stage_tasks (s ∷ ss) id =
    partition_tasks s (to_ℕ s.num_partitions) 0 id ++ stage_tasks ss (id + to_ℕ s.num_partitions)

unfoldable pub generate_tasks : StagePlan → GenerateError ⊎ List Task
unfolding check_stages stage_tasks
generate_tasks p = elim (check_stages (pos 0) p.stages) [
  | inl e ↦ inl e
  | inr total ↦
      if int_ltb total (pos 0) then inl (capacity_panic total) else inr (stage_tasks p.stages 0)
]
