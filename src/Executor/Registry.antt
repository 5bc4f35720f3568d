-- ===== src/Executor/Registry.antt =====
-- executor/function_registry.go: registering and finding functions. Every method holds the
-- registry's mutex for its whole body. A nil function is `none`.
pub mod Permanence
use sparkcore_go.Common.{
  [], is_some, inr, ◌==◌, Bool, Option, inl, ◌∷◌, ◌⊎◌, String, List, string_eq, if◌then◌else◌, none,
  some,
}
use sparkcore_go.Common.Dict.{Dict, insert, lookup}
use sparkcore_go.Executor.Iterator.{ValueMapFunc, MapFunc, PairMapFunc, FilterFunc, ReduceFunc}
use sparkcore_go.Executor.Pipeline.{FunctionRegistry}

pub data RegistryError : Type 0 where
  function_id_empty function_nil : String → RegistryError
  function_duplicate function_unknown : String → String → RegistryError

-- The methods of one table; `kind` is its name in the errors.
module _ {F : Type 0} (kind : String) where
  -- A Register method: its validation, its test for a duplicate and its insertion.
  unfoldable pub register_in : String → Option F → Dict String F → RegistryError ⊎ Dict String F
  unfolding lookup insert
  register_in id f table = if id == "" then inl (function_id_empty kind) else elim f [
    | none ↦ inl (function_nil kind)
    | some g ↦
        if is_some (lookup id table)
        then inl (function_duplicate kind id)
        else inr (insert id g table)
  ]

  unfoldable pub find_in : String → Dict String F → RegistryError ⊎ F
  unfolding lookup
  find_in id table = elim (lookup id table) [
    | none ↦ inl (function_unknown kind id)
    | some f ↦ inr f
  ]

unfoldable pub has_in : {F : Type 0} → String → Dict String F → Bool
unfolding lookup
has_in id table = is_some (lookup id table)

abbrev pub map_right : {E S T : Type 0} → (S → T) → E ⊎ S → E ⊎ T
map_right h (inl e) = inl e
map_right h (inr s) = inr (h s)

-- The registry after a call, and its error.
abbrev pub Registered : Type 0 → Type 0
Registered A = RegistryError ⊎ FunctionRegistry A

module _ {A : Type 0} (reg : FunctionRegistry A) where
  unfoldable pub register_map : String → Option (MapFunc A) → Registered A
  unfolding register_in
  register_map id f = map_right (λ t. record reg { maps = t }) (register_in "map" id f reg.maps)

  unfoldable pub register_filter : String → Option (FilterFunc A) → Registered A
  unfolding register_in
  register_filter id f =
      map_right (λ t. record reg { filters = t }) (register_in "filter" id f reg.filters)

  unfoldable pub register_pair_map : String → Option (PairMapFunc A) → Registered A
  unfolding register_in
  register_pair_map id f =
      map_right (λ t. record reg { pair_maps = t }) (register_in "pair-map" id f reg.pair_maps)

  unfoldable pub register_value_map : String → Option (ValueMapFunc A) → Registered A
  unfolding register_in
  register_value_map id f =
      map_right (λ t. record reg { value_maps = t }) (register_in "value-map" id f reg.value_maps)

  unfoldable pub register_reduce : String → Option (ReduceFunc A) → Registered A
  unfolding register_in
  register_reduce id f =
      map_right (λ t. record reg { reducers = t }) (register_in "reduce" id f reg.reducers)

  unfoldable pub find_map : String → RegistryError ⊎ MapFunc A
  unfolding find_in
  find_map id = find_in "map" id reg.maps

  unfoldable pub find_filter : String → RegistryError ⊎ FilterFunc A
  unfolding find_in
  find_filter id = find_in "filter" id reg.filters

  unfoldable pub find_pair_map : String → RegistryError ⊎ PairMapFunc A
  unfolding find_in
  find_pair_map id = find_in "pair-map" id reg.pair_maps

  unfoldable pub find_value_map : String → RegistryError ⊎ ValueMapFunc A
  unfolding find_in
  find_value_map id = find_in "value-map" id reg.value_maps

  unfoldable pub find_reduce : String → RegistryError ⊎ ReduceFunc A
  unfolding find_in
  find_reduce id = find_in "reduce" id reg.reducers

  unfoldable pub has_map : String → Bool
  unfolding has_in
  has_map id = has_in id reg.maps

  unfoldable pub has_filter : String → Bool
  unfolding has_in
  has_filter id = has_in id reg.filters

  unfoldable pub has_pair_map : String → Bool
  unfolding has_in
  has_pair_map id = has_in id reg.pair_maps

  unfoldable pub has_value_map : String → Bool
  unfolding has_in
  has_value_map id = has_in id reg.value_maps

  unfoldable pub has_reduce : String → Bool
  unfolding has_in
  has_reduce id = has_in id reg.reducers

-- One call of a Register method.
pub data Registration (A : Type 0) : Type 0 where
  registers_map : String → Option (MapFunc A) → Registration A
  registers_filter : String → Option (FilterFunc A) → Registration A
  registers_pair_map : String → Option (PairMapFunc A) → Registration A
  registers_value_map : String → Option (ValueMapFunc A) → Registration A
  registers_reduce : String → Option (ReduceFunc A) → Registration A

module _ {A : Type 0} where
  unfoldable pub register_function : Registration A → FunctionRegistry A → Registered A
  unfolding register_map register_filter register_pair_map register_value_map register_reduce
  register_function (registers_map id f) reg = register_map reg id f
  register_function (registers_filter id f) reg = register_filter reg id f
  register_function (registers_pair_map id f) reg = register_pair_map reg id f
  register_function (registers_value_map id f) reg = register_value_map reg id f
  register_function (registers_reduce id f) reg = register_reduce reg id f

  -- A history of calls; one that returns an error leaves the registry as it was.
  unfoldable pub register_functions :
      List (Registration A) → FunctionRegistry A → FunctionRegistry A
  unfolding register_function
  register_functions [] reg = reg
  register_functions (c ∷ cs) reg = elim (register_function c reg) [
    | inl e ↦ register_functions cs reg
    | inr reg' ↦ register_functions cs reg'
  ]
