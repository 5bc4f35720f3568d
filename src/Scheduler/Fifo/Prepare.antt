-- ===== src/Scheduler/Fifo/Prepare.antt =====
-- `prepareTaskSet`: the guards on a submitted task set, and its tasks in partition order.
use sparkcore_go.Common.{
  List, Option, String, [], contains, false, if◌then◌else◌, int_eq, int_ltb, is_empty, length, map,
  nat_eq, none, not, pos, some, ◌==◌, ◌||◌, ◌∷◌,
}
use sparkcore_go.Plan.{TaskId, PartitionId, StageId}
use sparkcore_go.Shuffle.{InputSnapshot}
use sparkcore_go.Shuffle.Input.{validate_input}
use sparkcore_go.Scheduler.{Task, TaskOutput, TaskSet, pending, ContextError}
use sparkcore_go.Scheduler.Fifo.{
  FifoError, no_tasks, invalid_inputs, invalid_task, LogicalTask, FifoTaskSet,
}

-- The loop over the tasks: `ids` and `partitions` are those seen so far.
unfoldable pub check_tasks : StageId → List TaskId → List PartitionId → List Task → Option FifoError
check_tasks stage ids partitions [] = none
check_tasks stage ids partitions (t ∷ ts) =
    let rest = check_tasks stage (t.id ∷ ids) (t.partition_id ∷ partitions) ts in
    if not (t.stage_id == stage)
      || int_ltb t.partition_id (pos 0)
      || contains ids t.id
      || contains partitions t.partition_id
    then some (invalid_task t.id t.partition_id stage)
    else rest

unfoldable pub check_inputs : String → Option InputSnapshot → Option FifoError
check_inputs empty_digest none = none
check_inputs empty_digest (some i) = elim (validate_input empty_digest i) [
  | none ↦ none
  | some x ↦ some (invalid_inputs x)
]

-- sort.Slice by the partition: no two tasks compare as equal, so the sort is the only one.
unfoldable pub insert_task : Task → List Task → List Task
insert_task t [] = t ∷ []
insert_task t (u ∷ us) =
    if int_ltb t.partition_id u.partition_id then t ∷ u ∷ us else u ∷ insert_task t us

unfoldable pub sort_tasks : List Task → List Task
unfolding insert_task
sort_tasks [] = []
sort_tasks (t ∷ ts) = insert_task t (sort_tasks ts)

module _ {V : Type 0} where
  abbrev pub empty_output : TaskOutput V
  empty_output = record { records = none; count = pos 0; shuffle_output = none }

  unfoldable pub logical_task : Task → LogicalTask V
  logical_task t = record {
    task = t;
    state = pending;
    active = 0;
    output = empty_output;
    attempts = 0;
  }

  unfoldable pub new_task_set : Option ContextError → TaskSet → FifoTaskSet V
  unfolding logical_task
  new_task_set ctx input = record {
    inputs = input.shuffle_inputs;
    key = record { job = input.job_id; stage = input.stage_id; attempt = input.stage_attempt_id };
    sequence = 0;
    ctx = ctx;
    tasks = map logical_task (sort_tasks input.tasks);
    remaining = length input.tasks;
    reports = [];
    wake = false;
    terminal = false;
    err = none;
  }

-- The refusal of a task set, in the order of the source's guards.
unfoldable pub check_task_set : String → TaskSet → Option FifoError
unfolding check_inputs
check_task_set empty_digest input =
    if is_empty input.tasks
    then some no_tasks
    else elim (check_inputs empty_digest input.shuffle_inputs) [
      | some e ↦ some e
      | none ↦ check_tasks input.stage_id [] [] input.tasks
    ]
