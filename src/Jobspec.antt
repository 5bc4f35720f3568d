-- ===== src/Jobspec.antt =====
-- jobspec/spec.go and build.go: the description of a job, its validation and its lineage. The
-- decoding of its JSON text is not modelled.
pub mod Building
pub mod Tests
use sparkcore_go.Common.{
  int_eq, [], inr, inl, pos, suc, ◌∷◌, ◌⊎◌, int_leb, string_eq, ◌==◌, some, none, ℤ, ℕ, List,
  Option, String, if◌then◌else◌, nat_eq,
}
use sparkcore_go.Plan.{
  op_source, op_map_values, op_map_to_pair, op_filter, op_map, op_reduce_by_key, other_operator,
  RddId, OperatorKind,
}
use sparkcore_go.Api.{
  hash_partitioner, ApiResult, reduce_by_key, map_values, map_to_pair, filter_rdd, text_file,
  ApiError, map_rdd,
}
use sparkcore_go.Scheduler.{action_count, action_collect, other_action, ActionKind}
use sparkcore_go.Plan.Graph.{RddGraph}

pub record SourceSpec : Type 0 where
  pub path : String
  pub num_partitions : ℤ

pub record TransformationSpec : Type 0 where
  pub kind : OperatorKind
  pub function_id : String
  pub num_partitions : ℤ

pub record Spec : Type 0 where
  pub source : SourceSpec
  pub transformations : List TransformationSpec
  pub action : ActionKind

pub data SpecError : Type 0 where
  source_path_required source_partitions_required : SpecError
  partitions_not_accepted partitions_required function_required : ℕ → OperatorKind → SpecError
  unsupported_transformation : ℕ → String → SpecError
  unsupported_spec_action : String → SpecError

-- The switch on the kind; `i` is the index of the transformation.
unfoldable pub validate_width : ℕ → OperatorKind → ℤ → Option SpecError
validate_width i op_reduce_by_key n =
    if int_leb n (pos 0) then some (partitions_required i op_reduce_by_key) else none
validate_width i op_map n = if n == pos 0 then none else some (partitions_not_accepted i op_map)
validate_width i op_filter n =
    if n == pos 0 then none else some (partitions_not_accepted i op_filter)
validate_width i op_map_to_pair n =
    if n == pos 0 then none else some (partitions_not_accepted i op_map_to_pair)
validate_width i op_map_values n =
    if n == pos 0 then none else some (partitions_not_accepted i op_map_values)
validate_width i op_source n = some (unsupported_transformation i "source")
validate_width i (other_operator k) n = some (unsupported_transformation i k)

unfoldable pub validate_transformation : ℕ → TransformationSpec → Option SpecError
unfolding validate_width
validate_transformation i t = elim (validate_width i t.kind t.num_partitions) [
  | some e ↦ some e
  | none ↦ if t.function_id == "" then some (function_required i t.kind) else none
]

unfoldable pub validate_transformations : ℕ → List TransformationSpec → Option SpecError
unfolding validate_transformation
validate_transformations i [] = none
validate_transformations i (t ∷ ts) = elim (validate_transformation i t) [
  | some e ↦ some e
  | none ↦ validate_transformations (suc i) ts
]

unfoldable pub validate_spec_action : ActionKind → Option SpecError
validate_spec_action action_collect = none
validate_spec_action action_count = none
validate_spec_action (other_action a) = some (unsupported_spec_action a)

-- Spec.Validate
unfoldable pub validate_spec : Spec → Option SpecError
unfolding validate_transformations validate_spec_action
validate_spec s =
    if s.source.path == ""
    then some source_path_required
    else if int_leb s.source.num_partitions (pos 0)
    then some source_partitions_required
    else elim (validate_transformations 0 s.transformations) [
      | some e ↦ some e
      | none ↦ validate_spec_action s.action
    ]

pub data BuildError : Type 0 where
  invalid_spec : SpecError → BuildError
  build_source : ApiError → BuildError
  build_transformation : ℕ → ApiError → BuildError
  build_unsupported : ℕ → BuildError

-- applyTransformation; `none` is its own error.
unfoldable pub apply_transformation :
    OperatorKind → String → ℤ → RddId → RddGraph → Option ApiResult
unfolding map_rdd filter_rdd map_to_pair map_values reduce_by_key
apply_transformation op_map f n r g = some (map_rdd f r g)
apply_transformation op_filter f n r g = some (filter_rdd f r g)
apply_transformation op_map_to_pair f n r g = some (map_to_pair f r g)
apply_transformation op_map_values f n r g = some (map_values f r g)
apply_transformation op_reduce_by_key f n r g = some (reduce_by_key f (hash_partitioner n) r g)
apply_transformation op_source f n r g = none
apply_transformation (other_operator k) f n r g = none

-- The loop of Build.
unfoldable pub apply_transformations :
    ℕ → List TransformationSpec → RddId → RddGraph → BuildError ⊎ (RddId × RddGraph)
unfolding apply_transformation
apply_transformations i [] r g = inr (r, g)
apply_transformations i (t ∷ ts) r g =
    elim (apply_transformation t.kind t.function_id t.num_partitions r g) [
      | none ↦ inl (build_unsupported i)
      | some (inl e) ↦ inl (build_transformation i e)
      | some (inr (r', g')) ↦ apply_transformations (suc i) ts r' g'
    ]

-- Build
unfoldable pub build : Spec → RddGraph → BuildError ⊎ (RddId × RddGraph)
unfolding validate_spec text_file apply_transformations
build s g = elim (validate_spec s) [
  | some e ↦ inl (invalid_spec e)
  | none ↦ elim (text_file s.source.path s.source.num_partitions g) [
    | inl e ↦ inl (build_source e)
    | inr (r, g') ↦ apply_transformations 0 s.transformations r g'
  ]
]
