-- ===== src/Shuffle.antt =====
-- shuffle/metadata.go, reference.go, input.go: identities, map outputs and input snapshots.
pub mod Metadata
pub mod Input
pub mod Soundness
pub mod Tests
use sparkcore_go.Common.{
  Bool, Eq, List, String, arith, eq_iff, int_beq_iff, int_eq, nat_eq, string_eq, true, ℕ, ℤ, ◌&&◌,
  ◌==◌, ◌↔◌, ◌≡◌,
}
use sparkcore_go.Plan.{
  JobId, StageId, ShuffleId, TaskId, PartitionId, StageAttemptId, TaskAttemptId,
}

-- Scopes a map output to one execution within a coordinator run.
pub record AttemptIdentity : Type 0 where
  pub run_id : String
  pub job_id : JobId
  pub shuffle_id : ShuffleId
  pub stage_id : StageId
  pub stage_attempt_id : StageAttemptId
  pub task_id : TaskId
  pub task_attempt_id : TaskAttemptId
  pub map_partition_id : PartitionId

abbrev pub attempt_identity_beq : AttemptIdentity → AttemptIdentity → Bool
attempt_identity_beq a b =
    a.run_id == b.run_id
    && a.job_id == b.job_id
    && a.shuffle_id == b.shuffle_id
    && a.stage_id == b.stage_id
    && a.stage_attempt_id == b.stage_attempt_id
    && a.task_id == b.task_id
    && a.task_attempt_id == b.task_attempt_id
    && a.map_partition_id == b.map_partition_id

pub attempt_identity_beq_iff : (a b : AttemptIdentity) → (attempt_identity_beq a b ≡ true) ↔ (a ≡ b)
attempt_identity_beq_iff a b =
    ground (arith, eq_iff a.run_id b.run_id, int_beq_iff a.map_partition_id b.map_partition_id)

instance abbrev pub attempt_identity_eq : Eq AttemptIdentity
attempt_identity_eq = record { beq = attempt_identity_beq; beq_iff = attempt_identity_beq_iff }

pub record BucketMetadata : Type 0 where
  pub partition_id : PartitionId
  pub record_count : ℤ
  pub byte_count : ℤ
  pub sha256 : String

-- Every bucket that one map attempt produced.
pub record MapOutput : Type 0 where
  pub version : ℤ
  pub attempt : AttemptIdentity
  pub num_map_partitions : ℤ
  pub num_reduce_partitions : ℤ
  pub buckets : List BucketMetadata

pub record InputReference : Type 0 where
  pub attempt : AttemptIdentity
  pub partition_id : PartitionId

-- Exactly one accepted output for each parent map partition.
pub record InputSnapshot : Type 0 where
  pub run_id : String
  pub job_id : JobId
  pub shuffle_id : ShuffleId
  pub stage_id : StageId
  pub stage_attempt_id : StageAttemptId
  pub num_map_partitions : ℤ
  pub num_reduce_partitions : ℤ
  pub outputs : List MapOutput

-- The refusals of the `Validate` methods, one for each message.
pub data InvalidShuffle : Type 0 where
  bad_run_id negative_map_partition map_partition_range incomplete_buckets : InvalidShuffle
  unsupported_version : ℤ → InvalidShuffle
  bucket_position bucket_values bucket_empty bucket_bytes : ℕ → InvalidShuffle
  negative_input_partition input_header incomplete_input : InvalidShuffle
  invalid_output : ℕ → InvalidShuffle → InvalidShuffle
  input_identity input_partitions : ℕ → InvalidShuffle
