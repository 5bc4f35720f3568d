-- ===== src/Plan/Completeness.antt =====
-- Lineages whose nodes refer to earlier nodes and are valid each: their validation finds no error.
use sparkcore_go.Common.{
  ◌==◌, nat_beq_iff, Bool-cases, zero, inr, inl, Option-cases, [], sym, subst, arith, suc, ◌∷◌, ◌<◌,
  nat_eq, false, ◌≢◌, ◌≤◌, All, none, some, List, ℕ, ◌≡◌, Option, refl,
}
use sparkcore_go.Plan.Graph.{len, validate_node_shape, node, RddGraph}
use sparkcore_go.Common.Dict.{insert, lookup-insert, lookup}
use sparkcore_go.Plan.Validate.{
  visit_done, validate_from, validate, visit_node, count_mismatch, visit_active, LineageError,
  validate_operator, Visit, visit_parents, Visits,
}
use sparkcore_go.Plan.Fuel.{Descends}
use sparkcore_go.Plan.Insertion.{IsGraph}
use sparkcore_go.Plan.{Dependency, RddNode, RddId}

-- The parent of a dependency is in the graph, and a shuffle has the node's partitions.
abbrev pub HasParent : RddGraph → RddNode → Dependency → Type 0
HasParent g n d =
    ((p : RddNode) × (node g d.parent_id ≡ some p))
    × (count_mismatch d.kind d.shuffle n.num_partitions ≡ false)

abbrev pub IsSoundNode : RddGraph → RddNode → Type 0
IsSoundNode g n = (validate_operator n ≡ none) × All (HasParent g n) n.dependencies

abbrev pub AllSound : RddGraph → Type 0
AllSound g = (id : RddId) (n : RddNode) → node g id ≡ some n → IsSoundNode g n

-- The nodes that are visited now, from `id` on.
abbrev ActiveFrom : RddId → Visits → Type 0
ActiveFrom id states = (j : RddId) → lookup j states ≡ some visit_active → id ≤ j

-- A visit without an error leaves no further node active.
abbrev IsQuiet : Visits → Option LineageError × Visits → Type 0
IsQuiet states r =
    (r.0 ≡ none)
    × ((j : RddId) → lookup j r.1 ≡ some visit_active → lookup j states ≡ some visit_active)

-- The same for the node `id` itself, which is active in `states`.
abbrev IsQuietAt : RddId → Visits → Option LineageError × Visits → Type 0
IsQuietAt id states r =
    (r.0 ≡ none)
    × ((j : RddId)
        → lookup j r.1 ≡ some visit_active
        → (lookup j states ≡ some visit_active) × (id ≢ j))

visit_parents-step :
    (g : RddGraph) (visit : Visit) (n : RddNode) (i : ℕ) (d : Dependency) (ds : List Dependency)
    (id : RddId) (states : Visits) (p : RddNode)
    → node g d.parent_id ≡ some p
    → count_mismatch d.kind d.shuffle n.num_partitions ≡ false
    → (visit p.id states).0 ≡ none
    → visit_parents g visit n i (d ∷ ds) id states
      ≡ visit_parents g visit n (suc i) ds id (visit p.id states).1
unfolding visit_parents
visit_parents-step g visit n i d ds id states p at same ok = rw (at, same, ok, visit_parents) refl

visit_parents-IsQuietAt :
    (g : RddGraph) (visit : Visit) (n : RddNode) (i : ℕ) (ds : List Dependency) (id : RddId)
    (states : Visits)
    → IsGraph g
    → All (HasParent g n) ds
    → All (λ d. d.parent_id < id) ds
    → ((j : RddId) (s : Visits) (p : RddNode)
        → j < id
        → node g j ≡ some p
        → ActiveFrom (suc j) s
        → IsQuiet s (visit j s))
    → ActiveFrom id states
    → IsQuietAt id states (visit_parents g visit n i ds id states)
unfolding visit_parents
visit_parents-IsQuietAt g visit n i [] id states graph parents below quiet above = (
  refl,
  λ j a. (
    ground (arith, lookup-insert id j visit_done states, a),
    λ e. ground (arith, lookup-insert id j visit_done states, nat_beq_iff id j, a, e),
  ),
)
visit_parents-IsQuietAt g visit n i (d ∷ ds) id states graph parents below quiet above =
    let ((p, at), same) = parents.0 in
    let own = sym (graph d.parent_id p at).0 in
    let less = subst (λ k. k < id) own below.0 in
    let q =
      quiet p.id states p less (subst (λ k. node g k ≡ some p) own at)
        (λ j a. omega (arith, less, above j a)) in
    let rest =
      visit_parents-IsQuietAt g visit n (suc i) ds id (visit p.id states).1 graph parents.1 below.1
        quiet (λ j a. above j (q.1 j a)) in
    subst (IsQuietAt id states) (sym (visit_parents-step g visit n i d ds id states p at same q.0))
      (rest.0, λ j a. let (before, other) = rest.1 j a in (q.1 j before, other))

visit_node-IsQuiet :
    (g : RddGraph) (visit : Visit) (n : RddNode) (id : RddId) (states : Visits)
    → IsGraph g
    → validate_node_shape n ≡ none
    → IsSoundNode g n
    → All (λ d. d.parent_id < id) n.dependencies
    → ((j : RddId) (s : Visits) (p : RddNode)
        → j < id
        → node g j ≡ some p
        → ActiveFrom (suc j) s
        → IsQuiet s (visit j s))
    → ActiveFrom (suc id) states
    → IsQuiet states (visit_node g visit n id states)
unfolding visit_node
visit_node-IsQuiet g visit n id states graph shape sound below quiet above =
    let inner =
      visit_parents-IsQuietAt g visit n 0 n.dependencies id (insert id visit_active states) graph
        sound.1 below quiet
        (λ j a. elim (Bool-cases (id == j)) [
          | inl same ↦ omega (arith, (nat_beq_iff id j).0 same)
          | inr other ↦
              let later : suc id ≤ j =
                above j (ground (arith, lookup-insert id j visit_active states, other, a)) in
              omega (arith, later)
        ]) in
    rw (shape, sound.0, visit_node)
      (
        inner.0,
        λ j a.
            let (before, other) = inner.1 j a in
            ground (arith, lookup-insert id j visit_active states, nat_beq_iff id j, before, other),
      )

validate_from-IsQuiet :
    (fuel : ℕ) (g : RddGraph) (id : RddId) (states : Visits) (n : RddNode)
    → IsGraph g
    → Descends g
    → AllSound g
    → id < fuel
    → node g id ≡ some n
    → ActiveFrom (suc id) states
    → IsQuiet states (validate_from fuel g id states)
unfolding validate_from
validate_from-IsQuiet zero g id states n graph down sound l at above = absurd (omega arith)
validate_from-IsQuiet (suc fuel) g id states n graph down sound l at above =
    elim (Option-cases (lookup id states)) [
      | inl unseen ↦
          rw (unseen, at, validate_from)
            (visit_node-IsQuiet g (validate_from fuel g) n id states graph (graph id n at).2
              (sound id n at) (down id n at)
              (λ j s p m at' above'.
                validate_from-IsQuiet fuel g j s p graph down sound (omega arith) at' above')
              above)
      | inr (visit_done, seen) ↦ rw (seen, validate_from) (refl, λ j a. a)
      | inr (visit_active, seen) ↦ absurd (omega (arith, above id seen))
    ]

-- On a graph that stores every node under its own id, below the next id, with a valid shape, in
-- which the parents of every node have smaller ids and every node has a valid operator, parents in
-- the graph and, at a shuffle, as many partitions as the partitioner, validation of a target in the
-- graph whose id is at most the number of nodes finds no error.
pub validate_complete :
    (g : RddGraph) (target : RddId) (n : RddNode)
    → IsGraph g
    → Descends g
    → AllSound g
    → target ≤ len g
    → node g target ≡ some n
    → validate g target ≡ none
unfolding validate lookup
validate_complete g target n graph down sound l at =
    rw (at, validate)
      (validate_from-IsQuiet (suc (len g)) g target [] n graph down sound (omega arith) at
        (λ j a. absurd cc)).0
