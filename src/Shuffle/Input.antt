-- ===== src/Shuffle/Input.antt =====
-- shuffle/input.go: validation of an input snapshot.
use sparkcore_go.Common.{
  List, Option, String, [], if◌then◌else◌, int_eq, int_leb, length, nat_eq, none, not, pos, some,
  string_eq, suc, ℕ, ◌==◌, ◌||◌, ◌∷◌,
}
use sparkcore_go.Shuffle.{
  MapOutput, InputSnapshot, InvalidShuffle, input_header, incomplete_input, invalid_output,
  input_identity, input_partitions,
}
use sparkcore_go.Shuffle.Metadata.{lower_hex, validate_map_output}

module _ (empty_digest : String) where
  unfoldable pub validate_input_output : InputSnapshot → ℕ → MapOutput → Option InvalidShuffle
  validate_input_output s i o = elim (validate_map_output empty_digest o) [
    | some e ↦ some (invalid_output i e)
    | none ↦
        let a = o.attempt in
        if not (a.run_id == s.run_id)
          || not (a.job_id == s.job_id)
          || not (a.shuffle_id == s.shuffle_id)
          || not (a.stage_id == s.stage_id)
          || not (a.stage_attempt_id == s.stage_attempt_id)
        then some (input_identity i)
        else if not (a.map_partition_id == pos i)
            || not (o.num_map_partitions == s.num_map_partitions)
            || not (o.num_reduce_partitions == s.num_reduce_partitions)
        then some (input_partitions i)
        else none
  ]

  unfoldable pub validate_outputs : InputSnapshot → ℕ → List MapOutput → Option InvalidShuffle
  validate_outputs s i [] = none
  validate_outputs s i (o ∷ os) = elim (validate_input_output s i o) [
    | some e ↦ some e
    | none ↦ validate_outputs s (suc i) os
  ]

  unfoldable pub validate_input : InputSnapshot → Option InvalidShuffle
  validate_input s =
      if not (lower_hex s.run_id 32)
        || int_leb s.num_map_partitions (pos 0)
        || int_leb s.num_reduce_partitions (pos 0)
      then some input_header
      else if not (pos (length s.outputs) == s.num_map_partitions)
      then some incomplete_input
      else validate_outputs s 0 s.outputs
