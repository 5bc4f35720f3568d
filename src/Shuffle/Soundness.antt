-- ===== src/Shuffle/Soundness.antt =====
-- What the validation of an input snapshot shows of its outputs.
use sparkcore_go.Common.{
  int_eq, ◌==◌, int_leb, ◌||◌, not, zero, if-elim, [], subst, int_beq_iff, length, suc, ◌∷◌, eq_iff,
  ◌+◌, arith, some, pos, get_elem?, option-elim, none, ◌≡◌, List, ℕ, String,
}
use sparkcore_go.Shuffle.Metadata.{lower_hex, validate_map_output}
use sparkcore_go.Shuffle.Input.{validate_input, validate_input_output, validate_outputs}
use sparkcore_go.Shuffle.{MapOutput, InputSnapshot}

some_value : (x y : MapOutput) → some x ≡ some y → x ≡ y
some_value x y e = cc

module _ (empty_digest : String) where
  -- A valid output of map partition `i` of the snapshot's stage attempt.
  abbrev pub IsOutputOf : InputSnapshot → ℕ → MapOutput → Type 0
  IsOutputOf s i o =
      (validate_map_output empty_digest o ≡ none)
      × (o.attempt.run_id ≡ s.run_id)
      × (o.attempt.job_id ≡ s.job_id)
      × (o.attempt.shuffle_id ≡ s.shuffle_id)
      × (o.attempt.stage_id ≡ s.stage_id)
      × (o.attempt.stage_attempt_id ≡ s.stage_attempt_id)
      × (o.attempt.map_partition_id ≡ pos i)
      × (o.num_map_partitions ≡ s.num_map_partitions)
      × (o.num_reduce_partitions ≡ s.num_reduce_partitions)

  validate_input_output_sound :
      (s : InputSnapshot) (i : ℕ) (o : MapOutput)
      → validate_input_output empty_digest s i o ≡ none
      → IsOutputOf s i o
  unfolding validate_input_output
  validate_input_output_sound s i o =
      option-elim (λ r. r ≡ none → IsOutputOf s i o) (validate_map_output empty_digest o)
        (λ valid e. (
          valid,
          ground (arith, e, eq_iff o.attempt.run_id s.run_id),
          ground (arith, e),
          ground (arith, e),
          ground (arith, e),
          ground (arith, e),
          ground (arith, e, int_beq_iff o.attempt.map_partition_id (pos i)),
          ground (arith, e, int_beq_iff o.num_map_partitions s.num_map_partitions),
          ground (arith, e, int_beq_iff o.num_reduce_partitions s.num_reduce_partitions),
        ))
        (λ x _ e. absurd cc)

  output_at :
      (s : InputSnapshot) (i k : ℕ) (x : MapOutput) (os : List MapOutput) (o : MapOutput)
      → IsOutputOf s i x
      → ((j : ℕ) → get_elem? os j ≡ some o → IsOutputOf s (suc i + j) o)
      → get_elem? (x ∷ os) k ≡ some o
      → IsOutputOf s (i + k) o
  output_at s i zero x os o h rest at =
      subst (λ n. IsOutputOf s n o) (omega arith) (subst (IsOutputOf s i) (some_value x o at) h)
  output_at s i (suc k) x os o h rest at = subst (λ n. IsOutputOf s n o) (omega arith) (rest k at)

  abbrev InputOk : InputSnapshot → Type 0
  InputOk s =
      (pos (length s.outputs) ≡ s.num_map_partitions)
      × ((i : ℕ) (o : MapOutput) → get_elem? s.outputs i ≡ some o → IsOutputOf s i o)

  validate_outputs_sound :
      (s : InputSnapshot) (i k : ℕ) (os : List MapOutput) (o : MapOutput)
      → validate_outputs empty_digest s i os ≡ none
      → get_elem? os k ≡ some o
      → IsOutputOf s (i + k) o
  unfolding validate_outputs
  validate_outputs_sound s i k [] o = λ e at. absurd cc
  validate_outputs_sound s i k (x ∷ os) o =
      option-elim (λ r. r ≡ none → get_elem? (x ∷ os) k ≡ some o → IsOutputOf s (i + k) o)
        (validate_input_output empty_digest s i x)
        (λ ok e at.
          output_at s i k x os o (validate_input_output_sound s i x ok)
            (λ j at'. validate_outputs_sound s (suc i) j os o e at') at)
        (λ y _ e at. absurd cc)

  -- A snapshot that its validation accepts has one output for each map partition, and the output at
  -- each position is a valid output of that partition, written by the snapshot's run, job, shuffle,
  -- stage and stage attempt, with the snapshot's partition counts.
  pub validate_input_sound :
      (s : InputSnapshot)
      → validate_input empty_digest s ≡ none
      → (pos (length s.outputs) ≡ s.num_map_partitions)
        × ((i : ℕ) (o : MapOutput) → get_elem? s.outputs i ≡ some o → IsOutputOf s i o)
  unfolding validate_input
  validate_input_sound s =
      if-elim (λ r. r ≡ none → InputOk s)
        (not (lower_hex s.run_id 32)
          || int_leb s.num_map_partitions (pos 0)
          || int_leb s.num_reduce_partitions (pos 0))
        (λ _ e. absurd cc)
        (λ _.
          if-elim (λ r. r ≡ none → InputOk s) (not (pos (length s.outputs) == s.num_map_partitions))
            (λ _ e. absurd cc)
            (λ all e. (
              ground (arith, all, int_beq_iff (pos (length s.outputs)) s.num_map_partitions),
              λ i o at.
                  subst (λ n. IsOutputOf s n o) (omega arith)
                    (validate_outputs_sound s 0 i s.outputs o e at),
            )))
