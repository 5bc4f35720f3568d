-- ===== src/Protocol/Tests.antt =====
-- An assignment of a reduction over the snapshot of Shuffle/Tests, and a heartbeat.
use sparkcore_go.Protocol.Dispatch.{validate_heartbeat_response-IsRunnable, attempts_of, IsRunnable}
use sparkcore_go.Protocol.Responses.{
  duplicate_assignment, validate_heartbeat_response, ProtocolAssignment,
}
use sparkcore_go.Common.{
  All, not, ◌≤◌, ◌+◌, length, Distinct, ℕ, [], ◌∷◌, List, none, some, pos, true, ◌==◌, false, ◌≡◌,
  refl, string_eq,
}
use sparkcore_go.Protocol.Heartbeats.{validate_capacity-fits}
use sparkcore_go.Shuffle.Metadata.{
  validate_buckets, validate_bucket, lower_hex, validate_attempt, validate_map_output,
}
use sparkcore_go.Shuffle.Input.{validate_outputs, validate_input_output, validate_input}
use sparkcore_go.Scheduler.{
  action_collect, stage_operation_rdd, stage_operation_shuffle_read, stage_result, TaskExecution,
}
use sparkcore_go.Protocol.Admission.{validate_assignment-validate_shuffle_execution}
use sparkcore_go.Plan.{TaskAttemptId, op_reduce_by_key, partitioner_hash}
use sparkcore_go.Protocol.{Library, validate_capacity, HeartbeatRequest}
use sparkcore_go.Executor.ShuffleRead.{validate_shuffle_execution}
use sparkcore_go.Protocol.Assignment.{validate_assignment}
use sparkcore_go.Shuffle.Tests.{run, snapshot, empty_digest}
use Prim.Native.String.{len}

abbrev library : Library
library = record {
  is_blank = λ s. s == "";
  to_lower = λ s. s;
  decodes_hex = λ s. lower_hex s (len s);
  json_valid = λ s. not (s == "");
  parse_url = λ s. none;
  byte_length = len;
  empty_digest = empty_digest;
}

abbrev reduction : TaskExecution
reduction = record {
  run_id = run;
  job_id = 1;
  task = record {
    id = 1;
    stage_id = 1;
    stage_kind = stage_result;
    partition_id = pos 0;
    num_partitions = pos 1;
    operations =
        record {
          kind = stage_operation_shuffle_read;
          rdd = none;
          shuffle_read = some record {
            shuffle_id = 2;
            partitioner = record { kind = partitioner_hash; num_partitions = pos 1 };
          };
        }
        ∷ record {
          kind = stage_operation_rdd;
          rdd = some record {
            rdd_id = 5;
            operator = record { kind = op_reduce_by_key; function_id = "add"; source_path = "" };
          };
          shuffle_read = none;
        }
        ∷ [];
    shuffle_write = none;
    final_action = some record { kind = action_collect; target_rdd = 5 };
  };
  attempt = record { id = 7; task_id = 1; stage_attempt_id = 3 };
  worker_id = "worker";
  shuffle_inputs = some snapshot;
}

reduction-accepted : validate_assignment library 1 reduction ≡ none
unfolding validate_assignment validate_input validate_input_output validate_map_output
    validate_attempt lower_hex validate_bucket validate_outputs validate_buckets
reduction-accepted = refl

validate_assignment-validate_shuffle_execution_example :
    validate_shuffle_execution library.empty_digest true reduction ≡ none
validate_assignment-validate_shuffle_execution_example =
    validate_assignment-validate_shuffle_execution library 1 reduction reduction-accepted

abbrev beat : HeartbeatRequest
beat = record { worker_id = "worker"; free_slots = pos 2; running_attempt_ids = some (7 ∷ 9 ∷ []) }

beat-accepted : validate_capacity library beat (pos 4) ≡ none
unfolding validate_capacity
beat-accepted = refl

validate_capacity-fits_example :
    (library.is_blank beat.worker_id ≡ false)
    × ((ids : List TaskAttemptId) × (f : ℕ) × (t : ℕ) × (beat.running_attempt_ids ≡ some ids)
        × (beat.free_slots ≡ pos f)
        × (pos 4 ≡ pos t)
        × Distinct ids
        × (length ids + f ≤ t))
validate_capacity-fits_example = validate_capacity-fits library beat (pos 4) beat-accepted

abbrev work : List ProtocolAssignment
work =
    record { stage_id = 1; execution = reduction }
    ∷ record {
      stage_id = 1;
      execution = record reduction {
        attempt = record { id = 8; task_id = 1; stage_attempt_id = 4 };
      };
    }
    ∷ []

work-accepted : validate_heartbeat_response library (some work) ≡ none
unfolding validate_heartbeat_response validate_assignment validate_input validate_input_output
    validate_map_output validate_attempt lower_hex validate_bucket validate_outputs validate_buckets
work-accepted = refl

twice_refused :
    validate_heartbeat_response library (
      some (
        record { stage_id = 1; execution = reduction }
        ∷ record { stage_id = 1; execution = reduction }
        ∷ []))
    ≡ some (duplicate_assignment 1 7)
unfolding validate_heartbeat_response validate_assignment validate_input validate_input_output
    validate_map_output validate_attempt lower_hex validate_bucket validate_outputs validate_buckets
twice_refused = refl

validate_heartbeat_response-IsRunnable_example :
    All (IsRunnable library reduction.worker_id) work × Distinct (attempts_of work)
validate_heartbeat_response-IsRunnable_example =
    validate_heartbeat_response-IsRunnable library record { stage_id = 1; execution = reduction }
      (record {
        stage_id = 1;
        execution = record reduction {
          attempt = record { id = 8; task_id = 1; stage_attempt_id = 4 };
        };
      }
        ∷ [])
      work-accepted
