-- ===== src/Scheduler/Dag/Tests.antt =====
-- A job that counts the lines of a source of three partitions.
use sparkcore_go.Scheduler.Output.{validate_for}
use sparkcore_go.Scheduler.Dag.Stages.{start_stage, validate_execution_plan}
use sparkcore_go.Scheduler.Generator.{generate_tasks}
use sparkcore_go.Plan.Validate.{validate_operator, validate}
use sparkcore_go.Plan.Graph.{validate_node_shape, node, new_rdd_graph, store_node}
use sparkcore_go.Common.Dict.{insert, lookup}
use sparkcore_go.Scheduler.Functions.{validate_functions, FunctionLookup}
use sparkcore_go.Scheduler.Planner.{plan_stages}
use sparkcore_go.Plan.Tests.{source_node}
use sparkcore_go.Common.{◌∷◌, pos, none, [], String, some, ◌≡◌, false, List, ℕ, refl}
use sparkcore_go.Scheduler.Dag.History.{handle_events-AllBounded}
use sparkcore_go.Scheduler.Dag.{job_submitted, task_succeeded, completed, DagEvent, DagScheduler}
use sparkcore_go.Scheduler.{action_count, ActionSpec}
use sparkcore_go.Scheduler.Dag.Handlers.{handle_events}
use sparkcore_go.Scheduler.Dag.Attempts.{AllBounded}

abbrev empty_scheduler : DagScheduler String
empty_scheduler = record {
  jobs = [];
  next_stage_attempt_id = 0;
  stopping = false;
  submitted = [];
  canceled = [];
  responses = [];
}

abbrev no_functions : FunctionLookup
no_functions = record {
  has_map = λ f. false;
  has_filter = λ f. false;
  has_pair_map = λ f. false;
  has_value_map = λ f. false;
  has_reduce = λ f. false;
}

abbrev count_lines : ActionSpec
count_lines = record { kind = action_count; target_rdd = 0 }

-- The report of the partition `p` with `n` lines.
abbrev counted : ℕ → ℕ → DagEvent String
counted p n = task_succeeded record {
  job_id = 5;
  stage_id = 0;
  attempt = record { id = p; task_id = p; stage_attempt_id = 0 };
  partition_id = pos p;
  worker_id = "w";
  output = record { records = none; count = pos n; shuffle_output = none };
}

-- The reports come in another order than the partitions, and one of them twice.
abbrev events : List (DagEvent String)
events =
    job_submitted 5 none (store_node source_node new_rdd_graph).1 count_lines
    ∷ counted 2 10
    ∷ counted 0 1
    ∷ counted 2 10
    ∷ counted 1 100
    ∷ []

after : DagScheduler String
unfolding store_node
after = handle_events 2 "" (some no_functions) events empty_scheduler

after-responses : after.responses ≡ (5, completed (record { records = []; count = pos 111 })) ∷ []
unfolding after handle_events lookup plan_stages validate_functions validate node insert
    validate_node_shape validate_operator validate_execution_plan generate_tasks start_stage
    validate_for
after-responses = refl

empty_scheduler-AllBounded : AllBounded 2 empty_scheduler
unfolding lookup
empty_scheduler-AllBounded k job e = absurd cc

handle_events-AllBounded_example :
    AllBounded 2 (handle_events 2 "" (some no_functions) events empty_scheduler)
handle_events-AllBounded_example =
    handle_events-AllBounded 2 "" (some no_functions) events empty_scheduler
      empty_scheduler-AllBounded
