-- ===== src/Plan/Lineage.antt =====
-- The graphs that are built by adding valid nodes after their parents.
use sparkcore_go.Plan.Graph.{
  add_node, validate_node_shape, new_rdd_graph, len, node, store_node, RddGraph,
}
use sparkcore_go.Plan.Validate.{validate_operator_kind, validate, validate_operator}
use sparkcore_go.Plan.{
  op_source, op_map, op_filter, op_map_to_pair, op_map_values, op_reduce_by_key, other_operator,
  OperatorKind, Dependency, RddId, RddNode,
}
use sparkcore_go.Common.{
  ◌∙◌, ◌∷◌, [], nat_eq, inr, subst, nat_beq_iff, inl, ◌==◌, All-map, suc, arith, ◌^◌, Option-cases,
  length, Bool-cases, some, ◌<◌, All, none, ◌+◌, ◌≡◌, List, refl,
}
use sparkcore_go.Common.Dict.{lookup-insert_self, lookup-insert, Dict, insert, lookup}
use sparkcore_go.Plan.Insertion.{stored, store_node-IsGraph, IsGraph}
use sparkcore_go.Plan.Fuel.{store_node-Descends, Descends}
use sparkcore_go.Plan.Completeness.{validate_complete, HasParent, IsSoundNode, AllSound}

pub record IsLineage (g : RddGraph) : Type 0 where
  pub graph : IsGraph g
  pub down : Descends g
  pub sound : AllSound g
  pub counted : len g ≡ g.next_rdd_id

length-insert_new :
    (k : RddId) (v : RddNode) (m : Dict RddId RddNode)
    → lookup k m ≡ none
    → length (insert k v m) ≡ suc (length m)
unfolding lookup insert
length-insert_new k v [] h = refl
length-insert_new k v ((j, w) ∷ m) h = ground (arith, h, length-insert_new k v m)

pub next_id-absent : (g : RddGraph) → IsGraph g → node g g.next_rdd_id ≡ none
next_id-absent g h = elim (Option-cases (node g g.next_rdd_id)) [
  | inl unseen ↦ unseen
  | inr (x, at) ↦ absurd (omega (arith, (h g.next_rdd_id x at).1))
]

-- A node of the graph is still there after another is added.
node-store_node :
    (n : RddNode) (g : RddGraph) (id : RddId) (p : RddNode)
    → IsGraph g
    → node g id ≡ some p
    → node (store_node n g).1 id ≡ some p
unfolding node store_node
node-store_node n g id p h at = ground (
  arith,
  lookup-insert g.next_rdd_id id (record n { id = g.next_rdd_id }) g.nodes,
  nat_beq_iff g.next_rdd_id id,
  at,
  (h id p at).1,
)

HasParent-store_node :
    (n x : RddNode) (g : RddGraph) (ds : List Dependency)
    → IsGraph g
    → All (HasParent g x) ds
    → All (HasParent (store_node n g).1 x) ds
HasParent-store_node n x g ds h ps =
    All-map (HasParent g x) (HasParent (store_node n g).1 x) ds
      (λ d y. ((y.0.0, node-store_node n g d.parent_id y.0.0 h y.0.1), y.1)) ps

validate_operator_kind-id :
    (k : OperatorKind) (n : RddNode) (i : RddId)
    → validate_operator_kind k (record n { id = i }) ≡ validate_operator_kind k n
unfolding validate_operator_kind
validate_operator_kind-id op_source n i = refl
validate_operator_kind-id op_map n i = refl
validate_operator_kind-id op_filter n i = refl
validate_operator_kind-id op_map_to_pair n i = refl
validate_operator_kind-id op_map_values n i = refl
validate_operator_kind-id op_reduce_by_key n i = refl
validate_operator_kind-id (other_operator k) n i = refl

store_node-AllSound :
    (n : RddNode) (g : RddGraph)
    → IsGraph g
    → AllSound g
    → IsSoundNode g n
    → AllSound (store_node n g).1
unfolding store_node node validate_operator
store_node-AllSound n g h sound s id x at = elim (Bool-cases (g.next_rdd_id == id)) [
  | inl same ↦
      subst (IsSoundNode (store_node n g).1)
        (stored g.next_rdd_id id (record n { id = g.next_rdd_id }) x g.nodes same at)
        (
          validate_operator_kind-id n.operator.kind n g.next_rdd_id ∙ s.0,
          HasParent-store_node n (record n { id = g.next_rdd_id }) g n.dependencies h s.1,
        )
  | inr other ↦
      let old = sound id x (
        ground (
          arith,
          lookup-insert g.next_rdd_id id (record n { id = g.next_rdd_id }) g.nodes,
          other,
          at,
        )) in
      (old.0, HasParent-store_node n x g x.dependencies h old.1)
]

-- A parent in the graph has a smaller id than the next node.
parents_below :
    (n : RddNode) (g : RddGraph) (ds : List Dependency)
    → IsGraph g
    → All (HasParent g n) ds
    → All (λ d. d.parent_id < g.next_rdd_id) ds
parents_below n g ds h ps =
    All-map (HasParent g n) (λ d. d.parent_id < g.next_rdd_id) ds
      (λ d y. (h d.parent_id y.0.0 y.0.1).1) ps

-- A graph with a node more.
pub record IsGrown (g : RddGraph) (n : RddNode) (id : RddId) (g' : RddGraph) : Type 0 where
  pub lineage : IsLineage g'
  pub found : node g' id ≡ some (record n { id = id })
  pub next : g'.next_rdd_id ≡ g.next_rdd_id + 1

pub store_node-IsGrown :
    (n : RddNode) (g : RddGraph)
    → IsLineage g
    → g.next_rdd_id + 1 < 2 ^ 64
    → validate_node_shape n ≡ none
    → IsSoundNode g n
    → IsGrown g n (store_node n g).0 (store_node n g).1
unfolding store_node node len
store_node-IsGrown n g h l shape sound = record {
  lineage = record {
    graph = store_node-IsGraph n g h.graph l shape;
    down = store_node-Descends n g h.down (parents_below n g n.dependencies h.graph sound.1);
    sound = store_node-AllSound n g h.graph h.sound sound;
    counted = omega (
      arith,
      h.counted,
      l,
      length-insert_new g.next_rdd_id (record n { id = g.next_rdd_id }) g.nodes
          (next_id-absent g h.graph),
    );
  };
  found = lookup-insert_self g.next_rdd_id (record n { id = g.next_rdd_id }) g.nodes;
  next = omega (arith, l);
}

pub new_rdd_graph-IsLineage : IsLineage new_rdd_graph
unfolding node lookup len
new_rdd_graph-IsLineage = record {
  graph = λ id n e. absurd cc;
  down = λ id n e. absurd cc;
  sound = λ id n e. absurd cc;
  counted = refl;
}

-- In such a graph the validation of any of its nodes finds no error.
pub IsLineage-validate :
    (g : RddGraph) (id : RddId) (n : RddNode)
    → IsLineage g
    → node g id ≡ some n
    → validate g id ≡ none
IsLineage-validate g id n h at =
    validate_complete g id n h.graph h.down h.sound (omega (arith, h.counted, (h.graph id n at).1))
      at

pub add_node-valid :
    (n : RddNode) (g : RddGraph)
    → validate_node_shape n ≡ none
    → add_node n g ≡ inr (store_node n g)
unfolding add_node
add_node-valid n g h = rw (h, add_node) refl
