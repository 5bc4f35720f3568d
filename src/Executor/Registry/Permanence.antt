-- ===== src/Executor/Registry/Permanence.antt =====
-- A function that is registered stays.
use sparkcore_go.Executor.Registry.{
  registers_reduce, registers_value_map, registers_pair_map, registers_filter, registers_map,
  register_reduce, register_value_map, register_pair_map, register_filter, Registration,
  register_map, map_right, register_functions, register_function, register_in,
}
use sparkcore_go.Common.Dict.{lookup-insert, insert, lookup, Dict}
use sparkcore_go.Common.{
  ap, [], ◌==◌, ◌∷◌, Bool-cases, inl, List, false, is_some, ◌⊎◌, subst, inr, ◌≡◌, Option, String,
  string_eq, refl, arith, none, some,
}
use sparkcore_go.Executor.Pipeline.{FunctionRegistry}

abbrev Extends : {F : Type 0} → Dict String F → Dict String F → Type 0
Extends {F = F} t t' = (id : String) (f : F) → lookup id t ≡ some f → lookup id t' ≡ some f

-- Every function of a registry is in the other under the same id.
pub record Keeps {A : Type 0} (reg reg' : FunctionRegistry A) : Type 0 where
  pub maps : Extends reg.maps reg'.maps
  pub filters : Extends reg.filters reg'.filters
  pub pair_maps : Extends reg.pair_maps reg'.pair_maps
  pub value_maps : Extends reg.value_maps reg'.value_maps
  pub reducers : Extends reg.reducers reg'.reducers

register_in-parts :
    {F : Type 0} (kind id : String) (f : Option F) (t t' : Dict String F)
    → register_in kind id f t ≡ inr t'
    → (g : F) × (is_some (lookup id t) ≡ false) × (insert id g t ≡ t')
unfolding register_in
register_in-parts kind id none t t' h = elim (Bool-cases (id == "")) [
  | inl e ↦ absurd (ground (arith, h, e))
  | inr e ↦ absurd (ground (arith, h, e))
]
register_in-parts kind id (some g) t t' h = elim (Bool-cases (id == "")) [
  | inl e ↦ absurd (ground (arith, h, e))
  | inr e ↦ elim (Bool-cases (is_some (lookup id t))) [
    | inl known ↦ absurd (ground (arith, h, e, known))
    | inr new ↦ (g, new, ground (arith, h, e, new))
  ]
]

insert-Extends :
    {F : Type 0} (id : String) (g : F) (t : Dict String F)
    → is_some (lookup id t) ≡ false
    → Extends t (insert id g t)
insert-Extends id g t new j f at = elim (Bool-cases (string_eq.beq id j)) [
  | inl e ↦ absurd (
      ground (
        arith,
        ap {A = String} (λ k. is_some (lookup k t)) ((string_eq.beq_iff id j).0 e),
        at,
        new,
      ))
  | inr e ↦ ground (arith, lookup-insert id j g t, e, at)
]

register_in-Extends :
    {F : Type 0} (kind id : String) (f : Option F) (t t' : Dict String F)
    → register_in kind id f t ≡ inr t'
    → Extends t t'
register_in-Extends kind id f t t' h =
    let (g, new, same) = register_in-parts kind id f t t' h in
    subst (Extends t) same (insert-Extends id g t new)

Keeps-self : {A : Type 0} (reg : FunctionRegistry A) → Keeps reg reg
Keeps-self reg = record {
  maps = λ id f e. e;
  filters = λ id f e. e;
  pair_maps = λ id f e. e;
  value_maps = λ id f e. e;
  reducers = λ id f e. e;
}

Registered-cases : {E S : Type 0} (q : E ⊎ S) → ((e : E) × (q ≡ inl e)) ⊎ ((s : S) × (q ≡ inr s))
Registered-cases (inl e) = inl (e, refl)
Registered-cases (inr s) = inr (s, refl)

map_right-parts :
    {E S T : Type 0} (h : S → T) (q : E ⊎ S) (t : T)
    → map_right h q ≡ inr t
    → (s : S) × (q ≡ inr s) × (h s ≡ t)
map_right-parts h (inl e) t same = absurd cc
map_right-parts h (inr s) t same = (s, refl, cc same)

module _ {A : Type 0} where
  Keeps-then : (a b c : FunctionRegistry A) → Keeps a b → Keeps b c → Keeps a c
  Keeps-then a b c h k = record {
    maps = λ id f e. k.maps id f (h.maps id f e);
    filters = λ id f e. k.filters id f (h.filters id f e);
    pair_maps = λ id f e. k.pair_maps id f (h.pair_maps id f e);
    value_maps = λ id f e. k.value_maps id f (h.value_maps id f e);
    reducers = λ id f e. k.reducers id f (h.reducers id f e);
  }

  register_function-Keeps :
      (c : Registration A) (reg reg' : FunctionRegistry A)
      → register_function c reg ≡ inr reg'
      → Keeps reg reg'
  unfolding register_function register_map register_filter register_pair_map register_value_map
      register_reduce
  register_function-Keeps (registers_map id f) reg reg' h =
      let (t, e, same) =
        map_right-parts (λ t. record reg { maps = t }) (register_in "map" id f reg.maps) reg' h in
      subst (Keeps reg) same (record {
        maps = register_in-Extends "map" id f reg.maps t e;
        filters = λ j g at. at;
        pair_maps = λ j g at. at;
        value_maps = λ j g at. at;
        reducers = λ j g at. at;
      })
  register_function-Keeps (registers_filter id f) reg reg' h =
      let (t, e, same) =
        map_right-parts (λ t. record reg { filters = t }) (register_in "filter" id f reg.filters)
          reg' h in
      subst (Keeps reg) same (record {
        maps = λ j g at. at;
        filters = register_in-Extends "filter" id f reg.filters t e;
        pair_maps = λ j g at. at;
        value_maps = λ j g at. at;
        reducers = λ j g at. at;
      })
  register_function-Keeps (registers_pair_map id f) reg reg' h =
      let (t, e, same) =
        map_right-parts (λ t. record reg { pair_maps = t })
          (register_in "pair-map" id f reg.pair_maps) reg' h in
      subst (Keeps reg) same (record {
        maps = λ j g at. at;
        filters = λ j g at. at;
        pair_maps = register_in-Extends "pair-map" id f reg.pair_maps t e;
        value_maps = λ j g at. at;
        reducers = λ j g at. at;
      })
  register_function-Keeps (registers_value_map id f) reg reg' h =
      let (t, e, same) =
        map_right-parts (λ t. record reg { value_maps = t })
          (register_in "value-map" id f reg.value_maps) reg' h in
      subst (Keeps reg) same (record {
        maps = λ j g at. at;
        filters = λ j g at. at;
        pair_maps = λ j g at. at;
        value_maps = register_in-Extends "value-map" id f reg.value_maps t e;
        reducers = λ j g at. at;
      })
  register_function-Keeps (registers_reduce id f) reg reg' h =
      let (t, e, same) =
        map_right-parts (λ t. record reg { reducers = t }) (register_in "reduce" id f reg.reducers)
          reg' h in
      subst (Keeps reg) same (record {
        maps = λ j g at. at;
        filters = λ j g at. at;
        pair_maps = λ j g at. at;
        value_maps = λ j g at. at;
        reducers = register_in-Extends "reduce" id f reg.reducers t e;
      })

  -- After any history of registrations, those that return an error included, every function that
  -- was registered is still under its id, in each of the five tables.
  pub register_functions-Keeps :
      (cs : List (Registration A)) (reg : FunctionRegistry A)
      → Keeps reg (register_functions cs reg)
  unfolding register_functions
  register_functions-Keeps [] reg = Keeps-self reg
  register_functions-Keeps (c ∷ cs) reg = elim (Registered-cases (register_function c reg)) [
    | inl (e, same) ↦ rw (same, register_functions) (register_functions-Keeps cs reg)
    | inr (reg', same) ↦
        rw (same, register_functions)
          (Keeps-then reg reg' (register_functions cs reg')
            (register_function-Keeps c reg reg' same) (register_functions-Keeps cs reg'))
  ]
