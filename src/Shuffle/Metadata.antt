-- ===== src/Shuffle/Metadata.antt =====
-- shuffle/metadata.go, reference.go: the `Validate` methods.
-- `fmt.Sprintf("%x", sha256.Sum256(nil))` is the parameter `empty_digest`.
use Prim.Native.Char.{code}
use Prim.Native.String.{[] as empty_text, ◌∷◌ as text_cons, len}
use sparkcore_go.Common.{
  Bool, List, Option, String, [], false, if◌then◌else◌, int_eq, int_leb, int_ltb, leb, length,
  nat_beq, nat_eq, none, not, pos, some, string_eq, suc, true, ℕ, ℤ, ◌&&◌, ◌==◌, ◌||◌, ◌∷◌,
}
use sparkcore_go.Shuffle.{
  AttemptIdentity, BucketMetadata, MapOutput, InputReference, InvalidShuffle, bad_run_id,
  negative_map_partition, map_partition_range, incomplete_buckets, unsupported_version,
  bucket_position, bucket_values, bucket_empty, bucket_bytes, negative_input_partition,
}

abbrev pub format_version : ℤ
format_version = pos 1

hex_digits : String → Bool
hex_digits empty_text = true
hex_digits (text_cons ch rest) =
    let c = code ch in ((leb b'0' c && leb c b'9') || (leb b'a' c && leb c b'f')) && hex_digits rest

-- `len` counts bytes, and the loop runs over characters.
unfoldable pub lower_hex : String → ℕ → Bool
unfolding hex_digits
lower_hex s n = if not (nat_beq (len s) n) then false else hex_digits s

unfoldable pub validate_attempt : AttemptIdentity → Option InvalidShuffle
validate_attempt a =
    if not (lower_hex a.run_id 32)
    then some bad_run_id
    else if int_ltb a.map_partition_id (pos 0)
    then some negative_map_partition
    else none

unfoldable pub validate_reference : InputReference → Option InvalidShuffle
validate_reference r = elim (validate_attempt r.attempt) [
  | some e ↦ some e
  | none ↦ if int_ltb r.partition_id (pos 0) then some negative_input_partition else none
]

module _ (empty_digest : String) where
  -- The body of the loop over buckets.
  unfoldable pub validate_bucket : ℕ → BucketMetadata → Option InvalidShuffle
  validate_bucket i b =
      if not (b.partition_id == pos i)
      then some (bucket_position i)
      else if int_ltb b.record_count (pos 0)
          || int_ltb b.byte_count (pos 0)
          || not (lower_hex b.sha256 64)
      then some (bucket_values i)
      else if b.record_count == pos 0
      then if not (b.byte_count == pos 0) || not (b.sha256 == empty_digest)
        then some (bucket_empty i)
        else none
      else if int_ltb b.byte_count b.record_count
      then some (bucket_bytes i)
      else none

  unfoldable pub validate_buckets : ℕ → List BucketMetadata → Option InvalidShuffle
  validate_buckets i [] = none
  validate_buckets i (b ∷ bs) = elim (validate_bucket i b) [
    | some e ↦ some e
    | none ↦ validate_buckets (suc i) bs
  ]

  unfoldable pub validate_map_output : MapOutput → Option InvalidShuffle
  validate_map_output o =
      if not (o.version == format_version)
      then some (unsupported_version o.version)
      else elim (validate_attempt o.attempt) [
        | some e ↦ some e
        | none ↦
            if int_leb o.num_map_partitions (pos 0)
              || int_leb o.num_map_partitions o.attempt.map_partition_id
            then some map_partition_range
            else if int_leb o.num_reduce_partitions (pos 0)
                || not (pos (length o.buckets) == o.num_reduce_partitions)
            then some incomplete_buckets
            else validate_buckets 0 o.buckets
      ]
