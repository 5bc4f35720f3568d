-- ===== src/Scheduler/Fifo/Tests.antt =====
-- Small schedulers on which the theorems are applied, and runs of the model.
use sparkcore_go.Scheduler.Fifo.{
  context_error, TaskSetKey, FifoTaskSet, FifoTaskScheduler, new_fifo_task_scheduler,
}
use sparkcore_go.Scheduler.Fifo.Fencing.{
  Refused, report_success_twice, failure_after_success, report_failure_twice, step-error,
}
use sparkcore_go.Scheduler.Fifo.Report.{
  update_set, input_allowed, fail_attempt, accept_success, settle, is_active, validate_report,
  report_failure, report_success,
}
use sparkcore_go.Scheduler.{
  context_canceled, Task, TaskSet, stage_result, action_count, TaskOutput, TaskAttemptSuccess,
  TaskAttemptFailure, failure_execution,
}
use sparkcore_go.Scheduler.Fifo.Lifecycle.{cancel_context, close, drain, enqueue, admit, submit}
use sparkcore_go.Scheduler.Fifo.Run.{
  ends_context, Call, Externals, step, run, registers, submits, drains, offers, reports_success,
  expires, closes,
}
use sparkcore_go.Common.{
  sort, add_elem, keep_if, count_if, erase, map, arith, true, ◌≡◌, false, pos, ℕ, List, nat_eq,
  string_eq, refl, none, some, [], ◌∷◌,
}
use sparkcore_go.Scheduler.Output.{validate_failure, validate_for}
use sparkcore_go.Scheduler.Fifo.Expiry.{
  lose_attempt, lose_attempts, lose_worker, lose_workers, silent_workers, expire_workers,
}
use sparkcore_go.Scheduler.Fifo.Registry.{new_worker, register_worker}
use sparkcore_go.Scheduler.Fifo.Order.{offer-oldest_first, work_of, set_work, pending_work}
use sparkcore_go.Scheduler.Fifo.Offer.{
  free_slots, assign_task, assign_tasks, offer_set, offer_sets, place, check_running, valid_offer,
  offer_resources,
}
use sparkcore_go.Scheduler.Fifo.Prepare.{sort_tasks, new_task_set, check_tasks, check_task_set}
use sparkcore_go.Scheduler.Fifo.Sorted.{run-IsSorted, IsSorted}
use sparkcore_go.Scheduler.Fifo.Budget.{run-IsBudgeted, IsBudgeted}
use sparkcore_go.Scheduler.Fifo.Queue.{run-IsQueued, IsQueued}
use sparkcore_go.Scheduler.Fifo.Capacity.{run-Capped, IsCapped, Capped}
use sparkcore_go.Scheduler.Fifo.Sets.{AllSets}
use sparkcore_go.Common.Dict.{lookup, insert}

abbrev externals : Externals
externals = record {
  empty_digest = "e3b0";
  text_ltb = λ a b. false;
  lost_message = λ id. "heartbeat expired";
}

abbrev count_task : ℕ → ℕ → Task
count_task id partition = record {
  id = id;
  stage_id = 0;
  stage_kind = stage_result;
  partition_id = pos partition;
  num_partitions = pos 2;
  operations = [];
  shuffle_write = none;
  final_action = some (record { kind = action_count; target_rdd = 0 });
}

-- Two partitions, given in the wrong order.
abbrev two_tasks : TaskSet
two_tasks = record {
  shuffle_inputs = none;
  job_id = 0;
  stage_id = 0;
  stage_attempt_id = 0;
  tasks = count_task 1 1 ∷ count_task 0 0 ∷ [];
}

abbrev empty_scheduler : FifoTaskScheduler ℕ
empty_scheduler = new_fifo_task_scheduler 2 "run"

abbrev setup : List (Call ℕ)
setup = registers "w" (pos 2) 0 ∷ submits true none two_tasks ∷ []

abbrev submitted : FifoTaskScheduler ℕ
submitted = run externals setup empty_scheduler

abbrev offered : FifoTaskScheduler ℕ
offered = run externals (offers "w" (pos 1) [] 5 ∷ []) submitted

abbrev count_output : TaskOutput ℕ
count_output = record { records = none; count = pos 3; shuffle_output = none }

abbrev first_success : TaskAttemptSuccess ℕ
first_success = record {
  job_id = 0;
  stage_id = 0;
  attempt = record { id = 0; task_id = 0; stage_attempt_id = 0 };
  partition_id = pos 0;
  worker_id = "w";
  output = count_output;
}

abbrev first_failure : TaskAttemptFailure
first_failure = record {
  kind = failure_execution;
  shuffle_input = none;
  job_id = 0;
  stage_id = 0;
  attempt = record { id = 0; task_id = 0; stage_attempt_id = 0 };
  partition_id = pos 0;
  worker_id = "w";
  error = "boom";
}

-- Every kind of call.
abbrev history : List (Call ℕ)
history =
    registers "w" (pos 2) 0
    ∷ submits true none two_tasks
    ∷ offers "w" (pos 1) [] 5
    ∷ reports_success first_success
    ∷ drains (record { job = 0; stage = 0; attempt = 0 })
    ∷ offers "w" (pos 2) [] 6
    ∷ expires 100 (pos 10)
    ∷ closes
    ∷ []

-- All that a run of the model computes with.
machine : Unit {0}
unfolding run step offer_resources submit admit enqueue check_task_set check_tasks register_worker
    new_task_set lookup insert valid_offer check_running place offer_sets offer_set assign_tasks
    assign_task sort_tasks free_slots report_success report_failure validate_report is_active settle
    validate_for accept_success fail_attempt erase count_if keep_if add_elem drain expire_workers
    silent_workers validate_failure input_allowed lose_workers lose_worker lose_attempts
    lose_attempt sort close
machine = tt

attempts_after_offer : offered.next_attempt ≡ 1
unfolding machine
attempts_after_offer = refl

accepted_first : (report_success "e3b0" first_success offered).1 ≡ none
unfolding machine
accepted_first = refl

failed_first : (report_failure first_failure offered).1 ≡ none
unfolding machine
failed_first = refl

no_workers : Capped []
unfolding lookup
no_workers id w e = cc

no_sets : (P : FifoTaskSet ℕ → Type 0) → AllSets P []
unfolding lookup
no_sets P k x e = cc

run-Capped_example : IsCapped (run externals history empty_scheduler)
run-Capped_example = run-Capped externals history empty_scheduler no_workers

run-IsBudgeted_example : AllSets (IsBudgeted 2) (run externals history empty_scheduler).sets
run-IsBudgeted_example =
    run-IsBudgeted externals history empty_scheduler (omega arith) (no_sets (IsBudgeted 2))

run-IsSorted_example : AllSets IsSorted (run externals history empty_scheduler).sets
run-IsSorted_example = run-IsSorted externals history empty_scheduler (no_sets IsSorted)

run-IsQueued_example : IsQueued (run externals history empty_scheduler)
run-IsQueued_example = run-IsQueued externals history empty_scheduler (tt, tt)

abbrev first_key : TaskSetKey
first_key = record { job = 0; stage = 0; attempt = 0 }

abbrev canceled : FifoTaskScheduler ℕ
canceled = run externals (ends_context first_key context_canceled ∷ []) submitted

step-error_example :
    Refused
      (drains first_key)
      (context_error context_canceled)
      canceled
      (step externals (drains first_key) canceled).0
unfolding machine cancel_context update_set
step-error_example =
    step-error externals (drains first_key) canceled (context_error context_canceled) refl

report_success_twice_example :
    report_success "e3b0" first_success (report_success "e3b0" first_success offered).0
    ≡ ((report_success "e3b0" first_success offered).0, none)
report_success_twice_example = report_success_twice "e3b0" first_success offered accepted_first

report_failure_twice_example :
    report_failure first_failure (report_failure first_failure offered).0
    ≡ ((report_failure first_failure offered).0, none)
report_failure_twice_example = report_failure_twice first_failure offered failed_first

failure_after_success_example :
    (report_failure first_failure (report_success "e3b0" first_success offered).0).0
    ≡ (report_success "e3b0" first_success offered).0
failure_after_success_example =
    failure_after_success "e3b0" first_success first_failure offered accepted_first refl refl refl
      refl refl

-- The task of partition 0 goes first, although it was given last.
offer-oldest_first_example :
    map work_of (offer_resources "w" (pos 1) [] 5 submitted).1
    ≡ (record { job = 0; stage = 0; attempt = 0 }, count_task 0 0) ∷ []
unfolding machine pending_work set_work
offer-oldest_first_example =
    offer-oldest_first submitted "w" (pos 1) [] 5 (new_worker "w" 2 0) (tt, tt) refl refl
