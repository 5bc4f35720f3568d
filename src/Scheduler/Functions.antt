-- ===== src/Scheduler/Functions.antt =====
-- scheduler/function_validation.go: the check that a job's functions are registered. The lookup is
-- an interface of the source. The recursion over the lineage is on fuel, as in Plan/Validate.
use sparkcore_go.Common.{
  nat_eq, zero, contains, if◌then◌else◌, false, [], ◌∷◌, suc, true, none, some, Bool, ℕ, Option,
  List, String,
}
use sparkcore_go.Plan.Validate.{target_missing, fuel_exhausted, validate, LineageError}
use sparkcore_go.Plan.Graph.{node, len, RddGraph}
use sparkcore_go.Plan.{
  op_reduce_by_key, op_map_values, op_map_to_pair, op_filter, op_map, op_source, other_operator,
  Dependency, RddId, OperatorKind, RddNode,
}

pub record FunctionLookup : Type 0 where
  pub has_map : String → Bool
  pub has_filter : String → Bool
  pub has_pair_map : String → Bool
  pub has_value_map : String → Bool
  pub has_reduce : String → Bool

pub data FunctionError : Type 0 where
  invalid_lineage : LineageError → FunctionError
  lookup_is_nil : FunctionError
  not_registered : RddId → OperatorKind → String → FunctionError

-- Whether the function that an operator names exists.
unfoldable pub function_exists : FunctionLookup → OperatorKind → String → Bool
function_exists f op_source id = true
function_exists f op_map id = f.has_map id
function_exists f op_filter id = f.has_filter id
function_exists f op_map_to_pair id = f.has_pair_map id
function_exists f op_map_values id = f.has_value_map id
function_exists f op_reduce_by_key id = f.has_reduce id
function_exists f (other_operator k) id = false

unfoldable pub validate_node_function : FunctionLookup → RddNode → Option FunctionError
unfolding function_exists
validate_node_function f n =
    if function_exists f n.operator.kind n.operator.function_id
    then none
    else some (not_registered n.id n.operator.kind n.operator.function_id)

abbrev pub FunctionVisit : Type 0
FunctionVisit = RddId → List RddId → Option FunctionError × List RddId

-- The loop over the dependencies; `visit` is the recursive call.
unfoldable pub check_parents :
    FunctionVisit → List Dependency → List RddId → Option FunctionError × List RddId
check_parents visit [] visited = (none, visited)
check_parents visit (d ∷ ds) visited =
    let (e, visited') = visit d.parent_id visited in
    elim e [ some x ↦ (some x, visited') | none ↦ check_parents visit ds visited' ]

unfoldable pub check_from : FunctionLookup → ℕ → RddGraph → FunctionVisit
unfolding check_parents validate_node_function
check_from f zero g id visited = (some (invalid_lineage fuel_exhausted), visited)
check_from f (suc fuel) g id visited =
    if contains visited id then (none, visited) else elim (node g id) [
      | none ↦ (some (invalid_lineage (target_missing id)), visited)
      | some n ↦ elim (validate_node_function f n) [
        | some e ↦ (some e, id ∷ visited)
        | none ↦ check_parents (check_from f fuel g) n.dependencies (id ∷ visited)
      ]
    ]

-- validateFunctions; a lookup may be nil.
unfoldable pub validate_functions : Option FunctionLookup → RddGraph → RddId → Option FunctionError
unfolding check_from
validate_functions lookup g target = elim (validate g target) [
  | some e ↦ some (invalid_lineage e)
  | none ↦ elim lookup [
    | none ↦ some lookup_is_nil
    | some f ↦ (check_from f (suc (len g)) g target []).0
  ]
]
