-- ===== src/Executor/Tests.antt =====
-- A pipeline that keeps the pairs with a plain value and adds up the values of each key.
use sparkcore_go.Executor.TextSource.Boundaries.{split_lines}
use sparkcore_go.Scheduler.{
  TaskExecution, action_count, action_collect, stage_result, RddOperationSpec, StageOperation,
}
use sparkcore_go.Executor.TextSource.{strip_line, Bytes}
use sparkcore_go.Executor.Iterator.{
  text_open, function_failed, plain, slice_iterator, Iterator, key_value, Record, slice_next,
  ReduceFunc, FilterFunc,
}
use sparkcore_go.Executor.Lines.{run_partitions-lines, run_partitions}
use sparkcore_go.Executor.TextSource.Tests.{file}
use sparkcore_go.Executor.Registry.{
  registers_reduce, registers_filter, registers_map, register_functions, Registration,
}
use sparkcore_go.Common.{
  some, pos, not, ◌&&◌, ◌==◌, none, zero, inl, true, ◌≡◌, map, ◌+◌, false, ◌∷◌, [], inr, Bool, ℕ,
  List, String, refl, string_eq, arith,
}
use sparkcore_go.Executor.Registry.Permanence.{Keeps, register_functions-Keeps}
use sparkcore_go.Executor.LocalRunner.{run_task}
use sparkcore_go.Executor.Runs.{slice_run, filter_run, reduce_run, run_ended, run_record, Run, run}
use sparkcore_go.Plan.{op_reduce_by_key, op_filter, op_source}
use sparkcore_go.Executor.Pipeline.{build_task_iterator, apply_operation, Sources, FunctionRegistry}
use sparkcore_go.Executor.Actions.{with_action, run_task-actions}
use sparkcore_go.Executor.Execution.{
  build_task_iterator-run, rdd_operation, pipeline_run, Ends, slice-IsSized,
}

abbrev add : ReduceFunc ℕ
add (plain a) (plain b) = inr (plain (a + b))
add a b = inl (function_failed "not a number")

abbrev not_zero : FilterFunc ℕ
not_zero (key_value k (plain zero)) = inr false
not_zero r = inr true

abbrev functions : FunctionRegistry ℕ
functions = record {
  maps = [];
  filters = ("not_zero", not_zero) ∷ [];
  pair_maps = [];
  value_maps = [];
  reducers = ("add", add) ∷ [];
}

abbrev pairs : List (Record ℕ)
pairs =
    key_value "b" (plain 1)
    ∷ key_value "a" (plain 0)
    ∷ key_value "a" (plain 2)
    ∷ key_value "b" (plain 3)
    ∷ []

abbrev text_before : String → String → Bool
text_before s t = s == "a" && not (t == "a")

abbrev sources : Sources ℕ
sources = record {
  open_source = λ ctx path p n. inr (some (slice_iterator pairs));
  shuffle_input = λ s p. slice_iterator [];
  text_ltb = text_before;
}

abbrev source_operation : StageOperation
source_operation = rdd_operation record {
  rdd_id = 0;
  operator = record { kind = op_source; function_id = ""; source_path = "input.txt" };
}

abbrev operators : List RddOperationSpec
operators =
    record {
      rdd_id = 1;
      operator = record { kind = op_filter; function_id = "not_zero"; source_path = "" };
    }
    ∷ record {
      rdd_id = 2;
      operator = record { kind = op_reduce_by_key; function_id = "add"; source_path = "" };
    }
    ∷ []

abbrev sums : Run ℕ
sums = run_record (key_value "a" (plain 2)) (run_record (key_value "b" (plain 4)) run_ended)

abbrev sum_execution : TaskExecution
sum_execution = record {
  run_id = "run";
  job_id = 1;
  task = record {
    id = 0;
    stage_id = 1;
    stage_kind = stage_result;
    partition_id = pos 0;
    num_partitions = pos 1;
    operations = source_operation ∷ map rdd_operation operators;
    shuffle_write = none;
    final_action = none;
  };
  attempt = record { id = 0; task_id = 0; stage_attempt_id = 0 };
  worker_id = "worker";
  shuffle_inputs = none;
}

build_task_iterator-run_example :
    (it' : Iterator ℕ) × (build_task_iterator functions sources none sum_execution ≡ inr it')
    × (run none it' ≡ sums)
    × Ends sums
unfolding apply_operation pipeline_run run slice_next reduce_run filter_run
build_task_iterator-run_example =
    build_task_iterator-run functions sources sum_execution source_operation operators
      (slice_iterator pairs) sums refl refl (slice-IsSized pairs) refl

abbrev sum_records : List (Record ℕ)
sum_records = key_value "a" (plain 2) ∷ key_value "b" (plain 4) ∷ []

run_task-actions_example :
    (run_task functions sources none (with_action action_collect 2 sum_execution)
      ≡ inr record { records = sum_records; count = pos 0 })
    × (run_task functions sources none (with_action action_count 2 sum_execution)
        ≡ inr record { records = []; count = pos 2 })
unfolding apply_operation pipeline_run run slice_next reduce_run filter_run slice_run
run_task-actions_example =
    run_task-actions functions sources sum_execution source_operation operators
      (slice_iterator pairs) sum_records 2 refl refl (slice-IsSized pairs) refl (omega arith)

abbrev later_calls : List (Registration ℕ)
later_calls =
    registers_map "same" (some (λ r. inr r))
    ∷ registers_filter "not_zero" none
    ∷ registers_reduce "add" (some (λ a b. inr a))
    ∷ []

register_functions-Keeps_example : Keeps functions (register_functions later_calls functions)
register_functions-Keeps_example = register_functions-Keeps later_calls functions

abbrev no_functions : FunctionRegistry Bytes
no_functions = record { maps = []; filters = []; pair_maps = []; value_maps = []; reducers = [] }

abbrev text_sources : Sources Bytes
text_sources = record {
  open_source = λ ctx path p n. text_open file ctx path p n;
  shuffle_input = λ s p. slice_iterator [];
  text_ltb = text_before;
}

abbrev read_operation : RddOperationSpec
read_operation = record {
  rdd_id = 0;
  operator = record { kind = op_source; function_id = ""; source_path = "input.txt" };
}

abbrev lines_execution : TaskExecution
lines_execution = record sum_execution {
  task = record sum_execution.task { operations = rdd_operation read_operation ∷ [] };
}

run_partitions-lines_example :
    run_partitions no_functions text_sources (with_action action_collect 0 lines_execution) 3 3 0
    ≡ inr (map plain (map strip_line (split_lines file)))
run_partitions-lines_example =
    run_partitions-lines no_functions text_sources file read_operation lines_execution 0 3 refl refl
      (λ p k. refl) (omega arith) (omega arith)
