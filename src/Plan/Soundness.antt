-- ===== src/Plan/Soundness.antt =====
-- What a validation that finds no error shows of the nodes that the target needs.
use sparkcore_go.Plan.Graph.{len, validate_node_shape, node, RddGraph}
use sparkcore_go.Common.{
  sym, All-get_elem?, inr, [], inl, zero, ◌==◌, subst, suc, Bool-cases, if-elim, option-elim,
  get_elem?, some, All-map, none, arith, nat_eq, false, ◌∷◌, ◌≡◌, All, ℕ, Option, List, refl,
}
use sparkcore_go.Plan.Validate.{
  validate, lineage_cycle, VisitState, validate_from, visit_node, validate_operator, visit_active,
  visit_done, LineageError, count_mismatch, Visit, Visits, visit_parents,
}
use sparkcore_go.Common.Dict.{lookup-insert_self, lookup-insert, lookup, insert}
use sparkcore_go.Plan.Insertion.{IsGraph}
use sparkcore_go.Plan.{Dependency, RddId, RddNode}

-- The nodes that a target needs: itself and the parents of what it needs.
pub data Needs (g : RddGraph) (target : RddId) : RddId → Type 0 where
  self : Needs g target target
  parent :
      (id : RddId) (n : RddNode) (i : ℕ) (d : Dependency)
      → Needs g target id
      → node g id ≡ some n
      → get_elem? n.dependencies i ≡ some d
      → Needs g target d.parent_id

abbrev IsDone : Visits → RddId → Type 0
IsDone states id = lookup id states ≡ some visit_done

abbrev IsDoneParent : Visits → RddNode → Dependency → Type 0
IsDoneParent states n d =
    IsDone states d.parent_id × (count_mismatch d.kind d.shuffle n.num_partitions ≡ false)

-- The node of `id` is valid, and its parents are done.
abbrev IsValidNode : RddGraph → Visits → RddId → Type 0
IsValidNode g states id =
    (n : RddNode) × (node g id ≡ some n)
    × (validate_node_shape n ≡ none)
    × (validate_operator n ≡ none)
    × All (IsDoneParent states n) n.dependencies

abbrev IsClosed : RddGraph → Visits → Type 0
IsClosed g states = (id : RddId) → IsDone states id → IsValidNode g states id

-- What is done stays done.
abbrev Grows : Visits → Visits → Type 0
Grows states states' = (id : RddId) → IsDone states id → IsDone states' id

All-IsDoneParent-Grows :
    (states states' : Visits) (n : RddNode) (ds : List Dependency)
    → Grows states states'
    → All (IsDoneParent states n) ds
    → All (IsDoneParent states' n) ds
All-IsDoneParent-Grows states states' n ds grows h =
    All-map (IsDoneParent states n) (IsDoneParent states' n) ds
      (λ d x. (grows d.parent_id x.0, x.1)) h

IsValidNode-Grows :
    (g : RddGraph) (states states' : Visits) (id : RddId)
    → Grows states states'
    → IsValidNode g states id
    → IsValidNode g states' id
IsValidNode-Grows g states states' id grows (n, at, shape, op, ps) =
    (n, at, shape, op, All-IsDoneParent-Grows states states' n n.dependencies grows ps)

insert_active-Grows :
    (states : Visits) (id : RddId)
    → lookup id states ≡ none
    → Grows states (insert id visit_active states)
insert_active-Grows states id unseen j h =
    ground (arith, lookup-insert id j visit_active states, unseen, h)

insert_active-IsClosed :
    (g : RddGraph) (states : Visits) (id : RddId)
    → lookup id states ≡ none
    → IsClosed g states
    → IsClosed g (insert id visit_active states)
insert_active-IsClosed g states id unseen closed j h =
    IsValidNode-Grows g states (insert id visit_active states) j
      (insert_active-Grows states id unseen)
      (closed j (ground (arith, lookup-insert id j visit_active states, h)))

insert_done-Grows : (states : Visits) (id : RddId) → Grows states (insert id visit_done states)
insert_done-Grows states id j h = ground (arith, lookup-insert id j visit_done states, h)

insert_done-IsClosed :
    (g : RddGraph) (states : Visits) (id : RddId)
    → IsValidNode g states id
    → IsClosed g states
    → IsClosed g (insert id visit_done states)
insert_done-IsClosed g states id valid closed j h =
    IsValidNode-Grows g states (insert id visit_done states) j (insert_done-Grows states id)
      (elim (Bool-cases (id == j)) [
        | inl same ↦ subst (IsValidNode g states) (ground (arith, same)) valid
        | inr other ↦ closed j (ground (arith, lookup-insert id j visit_done states, h, other))
      ])

-- A visit without an error leaves a closed set that contains the visited node.
abbrev IsSoundAt : RddGraph → RddId → Visits → Option LineageError × Visits → Type 0
IsSoundAt g id states r = r.0 ≡ none → IsClosed g r.1 × Grows states r.1 × IsDone r.1 id

abbrev IsSound : RddGraph → Visit → Type 0
IsSound g visit =
    (id : RddId) (states : Visits) → IsClosed g states → IsSoundAt g id states (visit id states)

-- The end of the loop over the parents.
abbrev EndsDone :
    RddGraph → RddNode → List Dependency → RddId → Visits → Option LineageError × Visits → Type 0
EndsDone g n ds id states r =
    r.0 ≡ none
    → (last : Visits) × (r.1 ≡ insert id visit_done last)
      × IsClosed g last
      × Grows states last
      × All (IsDoneParent last n) ds

EndsDone-cons :
    (g : RddGraph) (n : RddNode) (d : Dependency) (ds : List Dependency) (id : RddId)
    (states states' : Visits) (r : Option LineageError × Visits)
    → Grows states states'
    → IsDoneParent states' n d
    → EndsDone g n ds id states' r
    → EndsDone g n (d ∷ ds) id states r
EndsDone-cons g n d ds id states states' r grows done h e =
    let (last, eq, closed, grows', ps) = h e in
    (last, eq, closed, λ j x. grows' j (grows j x), ((grows' d.parent_id done.0, done.1), ps))

visit_parents-EndsDone :
    (g : RddGraph) (visit : Visit) (n : RddNode) (i : ℕ) (ds : List Dependency) (id : RddId)
    (states : Visits)
    → IsGraph g
    → IsSound g visit
    → IsClosed g states
    → EndsDone g n ds id states (visit_parents g visit n i ds id states)
unfolding visit_parents
visit_parents-EndsDone g visit n i [] id states graph sound closed =
    λ e. (states, refl, closed, λ j x. x, tt)
visit_parents-EndsDone g visit n i (d ∷ ds) id states graph sound closed =
    option-elim (EndsDone g n (d ∷ ds) id states) (node g d.parent_id) (λ _ e. absurd cc)
      (λ p at.
        if-elim (EndsDone g n (d ∷ ds) id states) (count_mismatch d.kind d.shuffle n.num_partitions)
          (λ _ e. absurd cc)
          (λ same.
            option-elim (EndsDone g n (d ∷ ds) id states) (visit p.id states).0
              (λ ok.
                let (closed', grows, done) = sound p.id states closed ok in
                EndsDone-cons g n d ds id states (visit p.id states).1
                  (visit_parents g visit n (suc i) ds id (visit p.id states).1) grows
                  (subst (IsDone (visit p.id states).1) (graph d.parent_id p at).0 done, same)
                  (visit_parents-EndsDone g visit n (suc i) ds id (visit p.id states).1 graph sound
                    closed'))
              (λ x _ e. absurd cc)))

EndsDone-IsSoundAt :
    (g : RddGraph) (n : RddNode) (id : RddId) (states states' : Visits)
    (r : Option LineageError × Visits)
    → node g id ≡ some n
    → validate_node_shape n ≡ none
    → validate_operator n ≡ none
    → Grows states states'
    → EndsDone g n n.dependencies id states' r
    → IsSoundAt g id states r
EndsDone-IsSoundAt g n id states states' r at shape op grows h e =
    let (last, eq, closed, grows', ps) = h e in
    rw eq (
      insert_done-IsClosed g last id (n, at, shape, op, ps) closed,
      λ j x. insert_done-Grows last id j (grows' j (grows j x)),
      lookup-insert_self id visit_done last,
    )

visit_node-IsSoundAt :
    (g : RddGraph) (visit : Visit) (n : RddNode) (id : RddId) (states : Visits)
    → IsGraph g
    → IsSound g visit
    → IsClosed g states
    → lookup id states ≡ none
    → node g id ≡ some n
    → IsSoundAt g id states (visit_node g visit n id states)
unfolding visit_node
visit_node-IsSoundAt g visit n id states graph sound closed unseen at =
    option-elim (IsSoundAt g id states) (validate_node_shape n)
      (λ shape.
        option-elim (IsSoundAt g id states) (validate_operator n)
          (λ op.
            EndsDone-IsSoundAt g n id states (insert id visit_active states)
              (visit_parents g visit n 0 n.dependencies id (insert id visit_active states)) at shape
              op (insert_active-Grows states id unseen)
              (visit_parents-EndsDone g visit n 0 n.dependencies id (insert id visit_active states)
                graph sound (insert_active-IsClosed g states id unseen closed)))
          (λ x _ e. absurd cc))
      (λ x _ e. absurd cc)

state-IsSoundAt :
    (g : RddGraph) (id : RddId) (states : Visits) (s : VisitState)
    → IsClosed g states
    → lookup id states ≡ some s
    → IsSoundAt g id states
        (elim s [ visit_active ↦ (some (lineage_cycle id), states) | visit_done ↦ (none, states) ])
state-IsSoundAt g id states visit_active closed at = λ e. absurd cc
state-IsSoundAt g id states visit_done closed at = λ e. (closed, λ j x. x, at)

validate_from-IsSound : (fuel : ℕ) (g : RddGraph) → IsGraph g → IsSound g (validate_from fuel g)
unfolding validate_from
validate_from-IsSound zero g graph id states closed = λ e. absurd cc
validate_from-IsSound (suc fuel) g graph id states closed =
    option-elim (IsSoundAt g id states) (lookup id states)
      (λ unseen.
        option-elim (IsSoundAt g id states) (node g id) (λ _ e. absurd cc)
          (λ n at.
            visit_node-IsSoundAt g (validate_from fuel g) n id states graph
              (validate_from-IsSound fuel g graph) closed unseen at))
      (λ s at. state-IsSoundAt g id states s closed at)

same_node :
    (g : RddGraph) (id : RddId) (n m : RddNode) → node g id ≡ some n → node g id ≡ some m → n ≡ m
same_node g id n m e f = cc

Needs-IsDone :
    (g : RddGraph) (target : RddId) (states : Visits) (id : RddId)
    → IsClosed g states
    → IsDone states target
    → Needs g target id
    → IsDone states id
Needs-IsDone g target states _ closed done self = done
Needs-IsDone g target states id closed done (parent j n i d needs at pos) =
    let (n', at', shape, op, ps) = closed j (Needs-IsDone g target states j closed done needs) in
    (All-get_elem? (IsDoneParent states n') n'.dependencies i d ps
      (subst (λ x. get_elem? x.dependencies i ≡ some d) (same_node g j n n' at at') pos)).0

IsValidNode-parent :
    (g : RddGraph) (states : Visits) (id : RddId) (n : RddNode)
    → IsClosed g states
    → IsValidNode g states id
    → node g id ≡ some n
    → (validate_node_shape n ≡ none)
      × (validate_operator n ≡ none)
      × All
          (λ d.
            ((p : RddNode) × (node g d.parent_id ≡ some p))
            × (count_mismatch d.kind d.shuffle n.num_partitions ≡ false))
          n.dependencies
IsValidNode-parent g states id n closed (n', at', shape, op, ps) at =
    let same = same_node g id n' n at' at in
    rw (sym same) (
      shape,
      op,
      All-map (IsDoneParent states n')
          (λ d.
            ((p : RddNode) × (node g d.parent_id ≡ some p))
            × (count_mismatch d.kind d.shuffle n'.num_partitions ≡ false))
          n'.dependencies
          (λ d x. let (p, found, _, _, _) = closed d.parent_id x.0 in ((p, found), x.1)) ps,
    )

validate-visit :
    (g : RddGraph) (target : RddId)
    → validate g target ≡ none
    → (validate_from (suc (len g)) g target []).0 ≡ none
unfolding validate
validate-visit g target =
    option-elim (λ r. r ≡ none → (validate_from (suc (len g)) g target []).0 ≡ none) (node g target)
      (λ _ e. absurd cc) (λ n _ e. e)

-- On a graph that stores every node under its own id, below the next id, with a valid shape, when
-- validation of a target finds no error, every node that the target needs is in the graph, has a
-- valid shape and a valid operator, and each of its dependencies has its parent in the graph and,
-- at a shuffle, as many partitions as the partitioner.
pub validate_sound :
    (g : RddGraph) (target id : RddId)
    → IsGraph g
    → validate g target ≡ none
    → Needs g target id
    → (n : RddNode) × (node g id ≡ some n)
      × (validate_node_shape n ≡ none)
      × (validate_operator n ≡ none)
      × All
          (λ d.
            ((p : RddNode) × (node g d.parent_id ≡ some p))
            × (count_mismatch d.kind d.shuffle n.num_partitions ≡ false))
          n.dependencies
unfolding validate lookup
validate_sound g target id graph ok needs =
    let fuel = suc (len g) in
    let ok' = validate-visit g target ok in
    let (closed, grows, done) =
      validate_from-IsSound fuel g graph target [] (λ j e. absurd cc) ok' in
    let states = (validate_from fuel g target []).1 in
    let (n, at, shape, op, ps) = closed id (Needs-IsDone g target states id closed done needs) in
    let (a, b, c) = IsValidNode-parent g states id n closed (n, at, shape, op, ps) at in
    (n, at, a, b, c)
