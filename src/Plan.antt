-- ===== src/Plan.antt =====
-- plan/ids.go, partitioner.go, operator.go, dependency.go, rdd_node.go: the lineage's data.
-- A kind is a string in the source; a string that is no known kind is an `other_…`.
pub mod Graph
pub mod Validate
pub mod Soundness
pub mod Completeness
pub mod Lineage
pub mod Insertion
pub mod Fuel
pub mod Tests
use sparkcore_go.Common.{Bool, List, Option, String, ℕ, ℤ}

abbrev pub RddId : Type 0
RddId = ℕ

abbrev pub JobId : Type 0
JobId = ℕ

abbrev pub StageId : Type 0
StageId = ℕ

abbrev pub ShuffleId : Type 0
ShuffleId = ℕ

abbrev pub TaskId : Type 0
TaskId = ℕ

-- A Go `int`, which may be negative on the wire.
abbrev pub PartitionId : Type 0
PartitionId = ℤ

abbrev pub StageAttemptId : Type 0
StageAttemptId = ℕ

abbrev pub TaskAttemptId : Type 0
TaskAttemptId = ℕ

abbrev pub WorkerId : Type 0
WorkerId = String

pub data PartitionerKind : Type 0 where
  partitioner_hash : PartitionerKind
  other_partitioner : String → PartitionerKind

pub record PartitionerSpec : Type 0 where
  pub kind : PartitionerKind
  pub num_partitions : ℤ

pub data OperatorKind : Type 0 where
  op_source op_map op_filter op_map_to_pair op_map_values op_reduce_by_key : OperatorKind
  other_operator : String → OperatorKind

pub record OperatorSpec : Type 0 where
  pub kind : OperatorKind
  pub function_id : String
  pub source_path : String

pub data DependencyKind : Type 0 where
  dependency_narrow dependency_shuffle : DependencyKind
  other_dependency : String → DependencyKind

pub data NarrowMapping : Type 0 where
  narrow_one_to_one : NarrowMapping
  other_mapping : String → NarrowMapping

pub record NarrowDependencySpec : Type 0 where
  pub mapping : NarrowMapping

pub record ShuffleDependencySpec : Type 0 where
  pub shuffle_id : ShuffleId
  pub partitioner : PartitionerSpec
  pub aggregator_id : String
  pub map_side_combine : Bool

pub record Dependency : Type 0 where
  pub kind : DependencyKind
  pub parent_id : RddId
  pub narrow : Option NarrowDependencySpec
  pub shuffle : Option ShuffleDependencySpec

pub record RddNode : Type 0 where
  pub id : RddId
  pub name : String
  pub operator : OperatorSpec
  pub dependencies : List Dependency
  pub num_partitions : ℤ
  pub partitioner : Option PartitionerSpec
