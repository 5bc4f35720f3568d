-- ===== src/Shuffle/Tests.antt =====
-- A snapshot of one map output with one empty bucket.
use sparkcore_go.Shuffle.Metadata.{
  validate_buckets, validate_bucket, lower_hex, validate_attempt, validate_map_output,
}
use sparkcore_go.Shuffle.Input.{validate_outputs, validate_input_output, validate_input}
use sparkcore_go.Shuffle.Soundness.{validate_input_sound, IsOutputOf}
use sparkcore_go.Common.{none, some, get_elem?, ℕ, [], ◌≡◌, ◌∷◌, length, String, pos, refl}
use sparkcore_go.Shuffle.{InputSnapshot, MapOutput}

abbrev pub run : String
run = "0123456789abcdef0123456789abcdef"

abbrev pub empty_digest : String
empty_digest = "e3b0c44298fc1c149afbf4c8996fb92427ae41e4649b934ca495991b7852b855"

abbrev map_output : MapOutput
map_output = record {
  version = pos 1;
  attempt = record {
    run_id = run;
    job_id = 1;
    shuffle_id = 2;
    stage_id = 0;
    stage_attempt_id = 3;
    task_id = 0;
    task_attempt_id = 4;
    map_partition_id = pos 0;
  };
  num_map_partitions = pos 1;
  num_reduce_partitions = pos 1;
  buckets =
      record {
        partition_id = pos 0;
        record_count = pos 0;
        byte_count = pos 0;
        sha256 = empty_digest;
      }
      ∷ [];
}

abbrev pub snapshot : InputSnapshot
snapshot = record {
  run_id = run;
  job_id = 1;
  shuffle_id = 2;
  stage_id = 0;
  stage_attempt_id = 3;
  num_map_partitions = pos 1;
  num_reduce_partitions = pos 1;
  outputs = map_output ∷ [];
}

snapshot-valid : validate_input empty_digest snapshot ≡ none
unfolding validate_input validate_input_output validate_map_output validate_attempt lower_hex
    validate_bucket validate_outputs validate_buckets
snapshot-valid = refl

validate_input_sound_example :
    (pos (length snapshot.outputs) ≡ snapshot.num_map_partitions)
    × ((i : ℕ) (o : MapOutput)
        → get_elem? snapshot.outputs i ≡ some o
        → IsOutputOf empty_digest snapshot i o)
validate_input_sound_example = validate_input_sound empty_digest snapshot snapshot-valid
