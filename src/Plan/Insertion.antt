-- ===== src/Plan/Insertion.antt =====
-- What AddNode does to a graph: the invariant of graphs and the lookup of nodes.
use sparkcore_go.Common.Dict.{insert, Dict, lookup, lookup-insert, lookup-insert_self}
use sparkcore_go.Common.{
  true, nat_beq_iff, u64_inc, ℕ, subst, inl, ◌==◌, Bool-cases, Option-cases, nat_eq, arith, ◌≢◌,
  inr, none, ◌^◌, some, ◌<◌, ◌+◌, ◌≡◌, refl,
}
use sparkcore_go.Plan.Graph.{validate_node_shape, node, store_node, RddGraph, add_node}
use sparkcore_go.Plan.{RddNode, RddId}

abbrev pub IsGraphNode : RddId → RddId → RddNode → Type 0
IsGraphNode next id n = (n.id ≡ id) × (id < next) × (validate_node_shape n ≡ none)

-- Every node is stored under its own id, below the next id, with a valid shape.
abbrev pub IsGraph : RddGraph → Type 0
IsGraph g = (id : RddId) (n : RddNode) → node g id ≡ some n → IsGraphNode g.next_rdd_id id n

u64_inc_below : (n : ℕ) → n + 1 < 2 ^ 64 → u64_inc n ≡ n + 1
u64_inc_below n h = omega (arith, h)

pub stored :
    (k id : RddId) (v x : RddNode) (m : Dict RddId RddNode)
    → k == id ≡ true
    → lookup id (insert k v m) ≡ some x
    → v ≡ x
stored k id v x m same at = ground (arith, lookup-insert k id v m, same, at)

pub store_node-IsGraph :
    (n : RddNode) (g : RddGraph)
    → IsGraph g
    → g.next_rdd_id + 1 < 2 ^ 64
    → validate_node_shape n ≡ none
    → IsGraph (store_node n g).1
unfolding store_node node validate_node_shape
store_node-IsGraph n g h l e id x at =
    let next = u64_inc_below g.next_rdd_id l in
    elim (Bool-cases (g.next_rdd_id == id)) [
      | inl same ↦
          subst (λ x. IsGraphNode (u64_inc g.next_rdd_id) id x)
            (stored g.next_rdd_id id (record n { id = g.next_rdd_id }) x g.nodes same at)
            (ground (arith, same), omega (arith, l, next, (nat_beq_iff g.next_rdd_id id).0 same), e)
      | inr other ↦
          let (own, below, shape) = h id x (
            ground (
              arith,
              lookup-insert g.next_rdd_id id (record n { id = g.next_rdd_id }) g.nodes,
              other,
              at,
            )) in
          (own, omega (arith, below, next), shape)
    ]

-- On a graph that stores every node under its own id, below the next id, with a valid shape, and
-- that has an id left, AddNode of a node of a valid shape returns an id that no node had, under
-- which Node then finds the given node with that id; all other lookups are as before, and every
-- node is still stored under its own id, below the next id, with a valid shape.
pub add_node-node :
    (n : RddNode) (g : RddGraph)
    → IsGraph g
    → g.next_rdd_id + 1 < 2 ^ 64
    → validate_node_shape n ≡ none
    → (id : RddId) × (g' : RddGraph) × (add_node n g ≡ inr (id, g'))
      × (node g id ≡ none)
      × (node g' id ≡ some (record n { id = id }))
      × ((j : RddId) → j ≢ id → node g' j ≡ node g j)
      × IsGraph g'
unfolding add_node store_node node
add_node-node n g h l e = (
  g.next_rdd_id,
  (store_node n g).1,
  rw (e, add_node) refl,
  elim (Option-cases (lookup g.next_rdd_id g.nodes)) [
    | inl unseen ↦ unseen
    | inr (x, at) ↦ absurd (omega (arith, (h g.next_rdd_id x at).1))
  ],
  lookup-insert_self g.next_rdd_id (record n { id = g.next_rdd_id }) g.nodes,
  λ j d. ground (arith, lookup-insert g.next_rdd_id j (record n { id = g.next_rdd_id }) g.nodes, d),
  store_node-IsGraph n g h l e,
)
