-- ===== src/Plan/Validate.antt =====
-- plan/validate.go: the depth-first validation of the lineage of a target. A node that has no
-- visit state is unseen. The recursion is on fuel, one unit for each edge on the way.
use sparkcore_go.Plan.{
  op_reduce_by_key, op_map_values, op_map_to_pair, op_filter, op_map, op_source, other_operator,
  dependency_narrow, dependency_shuffle, ShuffleDependencySpec, Dependency, RddId, DependencyKind,
  OperatorKind, RddNode,
}
use sparkcore_go.Common.{
  string_eq, is_empty, if◌then◌else◌, true, int_eq, false, ◌==◌, [], zero, nat_eq, not, ◌∷◌, none,
  ℤ, suc, Bool, Option, some, String, ℕ, List,
}
use sparkcore_go.Common.Dict.{lookup, insert, Dict}
use sparkcore_go.Plan.Graph.{len, node, validate_node_shape, ShapeError, RddGraph}

pub data VisitState : Type 0 where
  visit_active visit_done : VisitState

pub data OperatorError : Type 0 where
  source_path_empty source_with_dependencies : OperatorError
  function_id_empty : OperatorKind → OperatorError
  one_narrow_dependency one_shuffle_dependency : OperatorKind → OperatorError
  unsupported_operator : String → OperatorError

pub data LineageError : Type 0 where
  target_missing : RddId → LineageError
  lineage_cycle : RddId → LineageError
  node_shape : RddId → ShapeError → LineageError
  node_operator : RddId → OperatorError → LineageError
  parent_missing : RddId → ℕ → RddId → LineageError
  reduce_count_mismatch : RddId → ℤ → LineageError
  fuel_exhausted : LineageError

abbrev pub has_one_narrow : List Dependency → Bool
has_one_narrow (d ∷ []) = elim d.kind [ dependency_narrow ↦ true | _ ↦ false ]
has_one_narrow _ = false

abbrev pub has_one_shuffle : List Dependency → Bool
has_one_shuffle (d ∷ []) = elim d.kind [ dependency_shuffle ↦ true | _ ↦ false ]
has_one_shuffle _ = false

unfoldable pub validate_narrow_operator : OperatorKind → RddNode → Option OperatorError
validate_narrow_operator k n =
    if n.operator.function_id == ""
    then some (function_id_empty k)
    else if has_one_narrow n.dependencies
    then none
    else some (one_narrow_dependency k)

unfoldable pub validate_shuffle_operator : OperatorKind → RddNode → Option OperatorError
validate_shuffle_operator k n =
    if n.operator.function_id == ""
    then some (function_id_empty k)
    else if has_one_shuffle n.dependencies
    then none
    else some (one_shuffle_dependency k)

unfoldable pub validate_operator_kind : OperatorKind → RddNode → Option OperatorError
unfolding validate_narrow_operator validate_shuffle_operator
validate_operator_kind op_source n =
    if n.operator.source_path == ""
    then some source_path_empty
    else if is_empty n.dependencies
    then none
    else some source_with_dependencies
validate_operator_kind op_map n = validate_narrow_operator op_map n
validate_operator_kind op_filter n = validate_narrow_operator op_filter n
validate_operator_kind op_map_to_pair n = validate_narrow_operator op_map_to_pair n
validate_operator_kind op_map_values n = validate_narrow_operator op_map_values n
validate_operator_kind op_reduce_by_key n = validate_shuffle_operator op_reduce_by_key n
validate_operator_kind (other_operator k) n = some (unsupported_operator k)

unfoldable pub validate_operator : RddNode → Option OperatorError
unfolding validate_operator_kind
validate_operator n = validate_operator_kind n.operator.kind n

-- The test of a shuffle's partition count. A shuffle dependency has its specification, since the
-- shape was validated before.
unfoldable pub count_mismatch : DependencyKind → Option ShuffleDependencySpec → ℤ → Bool
count_mismatch dependency_shuffle (some s) n = not (s.partitioner.num_partitions == n)
count_mismatch _ _ n = false

abbrev pub Visits : Type 0
Visits = Dict RddId VisitState

abbrev pub Visit : Type 0
Visit = RddId → Visits → Option LineageError × Visits

-- The loop over the dependencies of a node, which it numbers from `i`; `visit` is the recursive
-- call.
unfoldable pub visit_parents : RddGraph → Visit → RddNode → ℕ → List Dependency → Visit
unfolding count_mismatch
visit_parents g visit n i [] id states = (none, insert id visit_done states)
visit_parents g visit n i (d ∷ ds) id states = elim (node g d.parent_id) [
  | none ↦ (some (parent_missing id i d.parent_id), states)
  | some p ↦
      if count_mismatch d.kind d.shuffle n.num_partitions
      then (some (reduce_count_mismatch id n.num_partitions), states)
      else let (e, states') = visit p.id states in
        elim e [ some x ↦ (some x, states') | none ↦ visit_parents g visit n (suc i) ds id states' ]
]

-- A node without a visit state.
unfoldable pub visit_node : RddGraph → Visit → RddNode → Visit
unfolding visit_parents
visit_node g visit n id states = elim (validate_node_shape n) [
  | some e ↦ (some (node_shape id e), insert id visit_active states)
  | none ↦ elim (validate_operator n) [
    | some e ↦ (some (node_operator id e), insert id visit_active states)
    | none ↦ visit_parents g visit n 0 n.dependencies id (insert id visit_active states)
  ]
]

-- validateFrom. It is called on ids of nodes of the graph only.
unfoldable pub validate_from : ℕ → RddGraph → Visit
unfolding visit_node
validate_from zero g id states = (some fuel_exhausted, states)
validate_from (suc fuel) g id states = elim (lookup id states) [
  | some visit_active ↦ (some (lineage_cycle id), states)
  | some visit_done ↦ (none, states)
  | none ↦ elim (node g id) [
    | none ↦ (some (target_missing id), states)
    | some n ↦ visit_node g (validate_from fuel g) n id states
  ]
]

-- Validate: an id that is visited is one of the graph's nodes, and a path that repeats none has at
-- most as many edges.
unfoldable pub validate : RddGraph → RddId → Option LineageError
unfolding validate_from
validate g target = elim (node g target) [
  | none ↦ some (target_missing target)
  | some n ↦ (validate_from (suc (len g)) g target []).0
]
