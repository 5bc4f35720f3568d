-- ===== src/Jobspec/Building.antt =====
-- The lineage that is built for a valid description of a job.
use sparkcore_go.Plan.Lineage.{
  IsLineage-validate, new_rdd_graph-IsLineage, add_node-valid, store_node-IsGrown, IsLineage,
  IsGrown,
}
use sparkcore_go.Plan.Validate.{
  validate, validate_narrow_operator, validate_operator, count_mismatch,
}
use sparkcore_go.Plan.Graph.{
  new_rdd_graph, store_node, len, node, new_shuffle_id, RddGraph, validate_partitioner,
  validate_dependency_shape, validate_node_shape, validate_node_partitioner,
}
use sparkcore_go.Jobspec.{
  Spec, build, validate_spec, validate_width, TransformationSpec, validate_transformations,
  apply_transformation, apply_transformations, validate_transformation,
}
use sparkcore_go.Api.{
  text_file, text_file_node, map_values, map_to_pair, filter_rdd, map_rdd, ApiResult, added,
  reduce_by_key, add_narrow_transformation, hash_partitioner, reduce_node, narrow_node,
}
use sparkcore_go.Plan.{
  op_source, op_reduce_by_key, op_map_values, op_map_to_pair, op_filter, op_map, other_operator,
  PartitionerSpec, ShuffleId, RddId, OperatorKind, RddNode,
}
use sparkcore_go.Common.{
  [], suc, ◌∷◌, length, List, ℕ, string_eq, ◌^◌, ◌<◌, ◌+◌, int_eq, arith, ◌==◌, Bool-cases,
  int_beq_iff, inl, option-elim, if-elim, inr, false, Option-cases, true, some, pos, int_leb, Bool,
  none, Option, ℤ, ◌≡◌, String, refl, if◌then◌else◌,
}

-- What the validation of a shape shows of the count and the partitioner.
shape_parts :
    (n : RddNode)
    → validate_node_shape n ≡ none
    → (int_leb n.num_partitions (pos 0) ≡ false)
      × (validate_node_partitioner n.name n.num_partitions n.partitioner ≡ none)
unfolding validate_node_shape
shape_parts n =
    if-elim
      (λ r.
        r ≡ none
        → (int_leb n.num_partitions (pos 0) ≡ false)
          × (validate_node_partitioner n.name n.num_partitions n.partitioner ≡ none))
      (int_leb n.num_partitions (pos 0)) (λ _ e. absurd cc)
      (λ positive.
        option-elim
          (λ r.
            r ≡ none
            → (int_leb n.num_partitions (pos 0) ≡ false)
              × (validate_node_partitioner n.name n.num_partitions n.partitioner ≡ none))
          (validate_node_partitioner n.name n.num_partitions n.partitioner) (λ ok e. (positive, ok))
          (λ x _ e. absurd cc))

-- The name of the node is only part of the error.
partitioner_of_any_name :
    (a b : String) (n : ℤ) (p : Option PartitionerSpec)
    → validate_node_partitioner a n p ≡ none
    → validate_node_partitioner b n p ≡ none
unfolding validate_node_partitioner
partitioner_of_any_name a b n none = λ h. refl
partitioner_of_any_name a b n (some p) = elim (Option-cases (validate_partitioner p)) [
  | inr (x, e) ↦ rw (e, validate_node_partitioner) (λ h. absurd cc)
  | inl ok ↦ elim (Bool-cases (p.num_partitions == n)) [
    | inl same ↦ rw (ok, same, validate_node_partitioner) (λ h. refl)
    | inr other ↦ rw (ok, other, validate_node_partitioner) (λ h. absurd cc)
  ]
]

narrow_node-shape :
    (name f : String) (k : OperatorKind) (r : RddId) (keep : Bool) (p : RddNode)
    → validate_node_shape p ≡ none
    → validate_node_shape
        (narrow_node name k f r p.num_partitions (if keep then p.partitioner else none))
      ≡ none
unfolding validate_node_shape validate_dependency_shape
narrow_node-shape name f k r true p h =
    let (positive, ok) = shape_parts p h in
    rw (positive, partitioner_of_any_name p.name name p.num_partitions p.partitioner ok) refl
narrow_node-shape name f k r false p h = let (positive, ok) = shape_parts p h in rw positive refl

reduce_node-shape :
    (f : String) (r : RddId) (shuffle : ShuffleId) (n : ℤ)
    → int_leb n (pos 0) ≡ false
    → validate_node_shape (reduce_node f r shuffle (hash_partitioner n)) ≡ none
unfolding validate_node_shape validate_dependency_shape validate_partitioner
reduce_node-shape f r shuffle n h = ground (arith, h, int_beq_iff n n)

-- A call that adds a node to the lineage.
abbrev Adds : RddGraph → ApiResult → Type 0
Adds g r = (n : RddNode) × (id : RddId) × (g' : RddGraph) × (r ≡ inr (id, g')) × IsGrown g n id g'

add_narrow_transformation-Adds :
    (name f : String) (k : OperatorKind) (keep : Bool) (r : RddId) (g : RddGraph) (p : RddNode)
    → IsLineage g
    → g.next_rdd_id + 1 < 2 ^ 64
    → node g r ≡ some p
    → ((n : ℤ) (c : Option PartitionerSpec) → validate_operator (narrow_node name k f r n c) ≡ none)
    → Adds g (add_narrow_transformation name k f keep r g)
unfolding add_narrow_transformation added count_mismatch
add_narrow_transformation-Adds name f k keep r g p h l at op =
    let n = narrow_node name k f r p.num_partitions (if keep then p.partitioner else none) in
    let shape = narrow_node-shape name f k r keep p (h.graph r p at).2 in
    (
      n,
      (store_node n g).0,
      (store_node n g).1,
      rw (at, add_node-valid n g shape, add_narrow_transformation) refl,
      store_node-IsGrown n g h l shape
          (op p.num_partitions (if keep then p.partitioner else none), (((p, at), refl), tt)),
    )

reduce_by_key-Adds :
    (f : String) (m : ℤ) (r : RddId) (g : RddGraph) (p : RddNode)
    → IsLineage g
    → g.next_rdd_id + 1 < 2 ^ 64
    → node g r ≡ some p
    → int_leb m (pos 0) ≡ false
    → f == "" ≡ false
    → Adds g (reduce_by_key f (hash_partitioner m) r g)
unfolding reduce_by_key new_shuffle_id added count_mismatch node len validate_operator
reduce_by_key-Adds f m r g p h l at positive named =
    let g1 = (new_shuffle_id g).1 in
    let n = reduce_node f r g.next_shuffle_id (hash_partitioner m) in
    let shape = reduce_node-shape f r g.next_shuffle_id m positive in
    let h1 : IsLineage g1 = record {
      graph = h.graph;
      down = h.down;
      sound = h.sound;
      counted = h.counted;
    } in
    let grown =
      store_node-IsGrown n g1 h1 l shape
        (rw named refl, (((p, at), ground (arith, int_beq_iff m m)), tt)) in
    (
      n,
      (store_node n g1).0,
      (store_node n g1).1,
      rw (at, add_node-valid n g1 shape, reduce_by_key) refl,
      record { lineage = grown.lineage; found = grown.found; next = grown.next },
    )

narrow_operator :
    (name f : String) (k : OperatorKind) (r : RddId) (n : ℤ) (c : Option PartitionerSpec)
    → f == "" ≡ false
    → validate_narrow_operator k (narrow_node name k f r n c) ≡ none
unfolding validate_narrow_operator
narrow_operator name f k r n c h = rw h refl

-- A valid transformation of a lineage adds its node.
apply_kind-Adds :
    (i : ℕ) (k : OperatorKind) (f : String) (m : ℤ) (r : RddId) (g : RddGraph) (p : RddNode)
    → IsLineage g
    → g.next_rdd_id + 1 < 2 ^ 64
    → node g r ≡ some p
    → validate_width i k m ≡ none
    → f == "" ≡ false
    → (a : ApiResult) × (apply_transformation k f m r g ≡ some a) × Adds g a
unfolding apply_transformation map_rdd filter_rdd map_to_pair map_values validate_width
    validate_operator
apply_kind-Adds i op_map f m r g p h l at w named = (
  map_rdd f r g,
  refl,
  add_narrow_transformation-Adds "Map" f op_map false r g p h l at
      (λ n c. narrow_operator "Map" f op_map r n c named),
)
apply_kind-Adds i op_filter f m r g p h l at w named = (
  filter_rdd f r g,
  refl,
  add_narrow_transformation-Adds "Filter" f op_filter true r g p h l at
      (λ n c. narrow_operator "Filter" f op_filter r n c named),
)
apply_kind-Adds i op_map_to_pair f m r g p h l at w named = (
  map_to_pair f r g,
  refl,
  add_narrow_transformation-Adds "MapToPair" f op_map_to_pair false r g p h l at
      (λ n c. narrow_operator "MapToPair" f op_map_to_pair r n c named),
)
apply_kind-Adds i op_map_values f m r g p h l at w named = (
  map_values f r g,
  refl,
  add_narrow_transformation-Adds "MapValues" f op_map_values true r g p h l at
      (λ n c. narrow_operator "MapValues" f op_map_values r n c named),
)
apply_kind-Adds i op_reduce_by_key f m r g p h l at w named = (
  reduce_by_key f (hash_partitioner m) r g,
  refl,
  reduce_by_key-Adds f m r g p h l at (ground (arith, w)) named,
)
apply_kind-Adds i op_source f m r g p h l at w named = absurd cc
apply_kind-Adds i (other_operator k) f m r g p h l at w named = absurd cc

transformation_parts :
    (i : ℕ) (t : TransformationSpec)
    → validate_transformation i t ≡ none
    → (validate_width i t.kind t.num_partitions ≡ none) × (t.function_id == "" ≡ false)
unfolding validate_transformation
transformation_parts i t = elim (Option-cases (validate_width i t.kind t.num_partitions)) [
  | inr (x, e) ↦ rw (e, validate_transformation) (λ h. absurd cc)
  | inl ok ↦ elim (Bool-cases (t.function_id == "")) [
    | inl empty ↦ rw (ok, empty, validate_transformation) (λ h. absurd cc)
    | inr named ↦ rw (ok, named, validate_transformation) (λ h. (refl, refl))
  ]
]

transformations_parts :
    (i : ℕ) (t : TransformationSpec) (ts : List TransformationSpec)
    → validate_transformations i (t ∷ ts) ≡ none
    → (validate_transformation i t ≡ none) × (validate_transformations (suc i) ts ≡ none)
unfolding validate_transformations
transformations_parts i t ts = elim (Option-cases (validate_transformation i t)) [
  | inr (x, e) ↦ rw (e, validate_transformations) (λ h. absurd cc)
  | inl ok ↦ rw (ok, validate_transformations) (λ h. (refl, h))
]

-- A lineage with the node of its target.
pub record IsBuilt (id : RddId) (g : RddGraph) : Type 0 where
  pub lineage : IsLineage g
  pub target : RddNode
  pub found : node g id ≡ some target

apply_transformations-IsBuilt :
    (i : ℕ) (ts : List TransformationSpec) (r : RddId) (g : RddGraph)
    → IsBuilt r g
    → g.next_rdd_id + length ts < 2 ^ 64
    → validate_transformations i ts ≡ none
    → (id : RddId) × (g' : RddGraph) × (apply_transformations i ts r g ≡ inr (id, g'))
      × IsBuilt id g'
unfolding apply_transformations
apply_transformations-IsBuilt i [] r g h l v = (r, g, refl, h)
apply_transformations-IsBuilt i (t ∷ ts) r g h l v =
    let (v1, v2) = transformations_parts i t ts v in
    let (w, named) = transformation_parts i t v1 in
    let (a, applied, (n, id, g', same, grown)) =
      apply_kind-Adds i t.kind t.function_id t.num_partitions r g h.target h.lineage
        (omega (arith, l)) h.found w named in
    let (id', g'', rest, built) =
      apply_transformations-IsBuilt (suc i) ts id g'
        (record { lineage = grown.lineage; target = record n { id = id }; found = grown.found })
        (omega (arith, l, grown.next)) v2 in
    (id', g'', rw (applied, same, apply_transformations) rest, built)

-- A valid description has a path, a positive width and valid transformations.
spec_parts :
    (s : Spec)
    → validate_spec s ≡ none
    → (s.source.path == "" ≡ false)
      × (int_leb s.source.num_partitions (pos 0) ≡ false)
      × (validate_transformations 0 s.transformations ≡ none)
unfolding validate_spec
spec_parts s = elim (Bool-cases (s.source.path == "")) [
  | inl empty ↦ rw (empty, validate_spec) (λ h. absurd cc)
  | inr named ↦ elim (Bool-cases (int_leb s.source.num_partitions (pos 0))) [
    | inl none_left ↦ rw (named, none_left, validate_spec) (λ h. absurd cc)
    | inr wide ↦ elim (Option-cases (validate_transformations 0 s.transformations)) [
      | inr (x, e) ↦ rw (named, wide, e, validate_spec) (λ h. absurd cc)
      | inl ok ↦ rw (named, wide, ok, validate_spec) (λ h. (refl, refl, refl))
    ]
  ]
]

text_file_node-shape :
    (path : String) (n : ℤ)
    → int_leb n (pos 0) ≡ false
    → validate_node_shape (text_file_node path n) ≡ none
unfolding validate_node_shape
text_file_node-shape path n h = rw h refl

text_file-Adds :
    (path : String) (n : ℤ) (g : RddGraph)
    → IsLineage g
    → g.next_rdd_id + 1 < 2 ^ 64
    → path == "" ≡ false
    → int_leb n (pos 0) ≡ false
    → Adds g (text_file path n g)
unfolding text_file validate_operator
text_file-Adds path n g h l named wide =
    let x = text_file_node path n in
    let shape = text_file_node-shape path n wide in
    (
      x,
      (store_node x g).0,
      (store_node x g).1,
      rw (add_node-valid x g shape, text_file) refl,
      store_node-IsGrown x g h l shape (rw named refl, tt),
    )

-- For a description of a job that its validation accepts, with fewer than 2 ^ 64 - 1
-- transformations, Build on a new graph succeeds: it returns the id of a node of a graph in which
-- the parents of every node have smaller ids and every node is valid, and the validation of that
-- node's lineage finds no error.
pub build_valid :
    (s : Spec)
    → validate_spec s ≡ none
    → length s.transformations + 1 < 2 ^ 64
    → (id : RddId) × (g : RddGraph) × (build s new_rdd_graph ≡ inr (id, g))
      × IsBuilt id g
      × (validate g id ≡ none)
unfolding build
build_valid s v l =
    let (named, wide, ts) = spec_parts s v in
    let (n, id, g, same, grown) =
      text_file-Adds s.source.path s.source.num_partitions new_rdd_graph new_rdd_graph-IsLineage
        (omega arith) named wide in
    let (id', g', rest, built) =
      apply_transformations-IsBuilt 0 s.transformations id g
        (record { lineage = grown.lineage; target = record n { id = id }; found = grown.found })
        (omega (arith, l, grown.next)) ts in
    (
      id',
      g',
      rw (v, same, build) rest,
      built,
      IsLineage-validate g' id' built.target built.lineage built.found,
    )
