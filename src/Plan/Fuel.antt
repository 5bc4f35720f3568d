-- ===== src/Plan/Fuel.antt =====
-- The fuel of the validation is enough on every graph: each call on the way visits a node that had no
-- visit state. Also the graphs whose nodes refer to earlier nodes.
use sparkcore_go.Common.{
  ◌+◌, if◌then◌else◌, ◌∙◌, ap, length, is_some, inr, nat_beq_iff, inl, ◌==◌, Bool-cases, nat_eq,
  zero, if-elim, [], subst, ◌≢◌, ◌∷◌, option-elim, suc, All, none, arith, ◌<◌, ◌≤◌, List, false,
  true, ◌≡◌, ℕ, Bool, some, Option, refl,
}
use sparkcore_go.Common.Dict.{Dict, lookup-insert, insert, lookup}
use sparkcore_go.Plan.Validate.{
  VisitState, visit_done, lineage_cycle, visit_active, count_mismatch, validate_operator,
  fuel_exhausted, visit_node, Visit, Visits, validate, LineageError, visit_parents, validate_from,
}
use sparkcore_go.Plan.Insertion.{stored}
use sparkcore_go.Plan.Graph.{store_node, validate_node_shape, len, node, RddGraph}
use sparkcore_go.Plan.{Dependency, RddNode, RddId}

-- The parents of a node have smaller ids, as when each node is added after its parents.
abbrev pub Descends : RddGraph → Type 0
Descends g =
    (id : RddId) (n : RddNode) → node g id ≡ some n → All (λ d. d.parent_id < id) n.dependencies

pub store_node-Descends :
    (n : RddNode) (g : RddGraph)
    → Descends g
    → All (λ d. d.parent_id < g.next_rdd_id) n.dependencies
    → Descends (store_node n g).1
unfolding store_node node
store_node-Descends n g down below id x at = elim (Bool-cases (g.next_rdd_id == id)) [
  | inl same ↦
      subst (λ y. All (λ d. d.parent_id < id) y.dependencies)
        (stored g.next_rdd_id id (record n { id = g.next_rdd_id }) x g.nodes same at)
        (subst (λ k. All (λ d. d.parent_id < k) n.dependencies)
          ((nat_beq_iff g.next_rdd_id id).0 same) below)
  | inr other ↦ down id x (
      ground (
        arith,
        lookup-insert g.next_rdd_id id (record n { id = g.next_rdd_id }) g.nodes,
        other,
        at,
      ))
]

abbrev is_fuel_error : LineageError → Bool
is_fuel_error fuel_exhausted = true
is_fuel_error _ = false

abbrev HasFuel : Option LineageError → Type 0
HasFuel none = Unit
HasFuel (some e) = is_fuel_error e ≡ false

-- How many of these nodes have no visit state.
abbrev unseen : Visits → Dict RddId RddNode → ℕ
unseen states [] = 0
unseen states ((j, n) ∷ ns) = (if is_some (lookup j states) then 0 else 1) + unseen states ns

abbrev Grows : Visits → Visits → Type 0
Grows s s' = (j : RddId) → is_some (lookup j s) ≡ true → is_some (lookup j s') ≡ true

insert-Grows : (id : RddId) (v : VisitState) (s : Visits) → Grows s (insert id v s)
insert-Grows id v s j h = ground (arith, lookup-insert id j v s, h)

unseen-le : (s s' : Visits) (ns : Dict RddId RddNode) → Grows s s' → unseen s' ns ≤ unseen s ns
unseen-le s s' [] h = omega arith
unseen-le s s' ((j, n) ∷ ns) h = ground (arith, h j, unseen-le s s' ns h)

-- A node that gets its visit state is one fewer.
unseen-insert :
    (id : RddId) (v : VisitState) (n : RddNode) (s : Visits) (ns : Dict RddId RddNode)
    → lookup id s ≡ none
    → lookup id ns ≡ some n
    → unseen (insert id v s) ns < unseen s ns
unfolding lookup
unseen-insert id v n s [] h at = absurd cc
unseen-insert id v n s ((j, m) ∷ ns) h at = elim (Bool-cases (j == id)) [
  | inl e ↦
      let same : j ≡ id = (nat_beq_iff j id).0 e in
      let now : is_some (lookup j (insert id v s)) ≡ true =
        ground (arith, lookup-insert id j v s, nat_beq_iff id j, same) in
      let before : is_some (lookup j s) ≡ false =
        ap {A = RddId} (λ k. is_some (lookup k s)) same ∙ ap (λ q. is_some q) h in
      rw (now, before) (omega (arith, unseen-le s (insert id v s) ns (insert-Grows id v s)))
  | inr e ↦
      let later = unseen-insert id v n s ns h (ground (arith, at, e)) in
      ground (
        arith,
        insert-Grows id v s j,
        later,
        lookup-insert id j v s,
        e,
        nat_beq_iff id j,
        nat_beq_iff j id,
      )
]

unseen-none : (ns : Dict RddId RddNode) → unseen [] ns ≡ length ns
unfolding lookup
unseen-none [] = refl
unseen-none ((j, n) ∷ ns) = omega (arith, unseen-none ns)

-- A visit forgets no visit state, and has its fuel.
abbrev IsVisited : Visits → Option LineageError × Visits → Type 0
IsVisited s r = Grows s r.1 × HasFuel r.0

visit_parents-IsVisited :
    (g : RddGraph) (visit : Visit) (n : RddNode) (i : ℕ) (ds : List Dependency) (id : RddId)
    (states : Visits) (bound : ℕ)
    → unseen states g.nodes ≤ bound
    → ((j : RddId) (s : Visits) → unseen s g.nodes ≤ bound → IsVisited s (visit j s))
    → IsVisited states (visit_parents g visit n i ds id states)
unfolding visit_parents
visit_parents-IsVisited g visit n i [] id states bound l h = (insert-Grows id visit_done states, tt)
visit_parents-IsVisited g visit n i (d ∷ ds) id states bound l h =
    option-elim (IsVisited states) (node g d.parent_id) (λ _. ((λ j e. e), refl))
      (λ p at.
        let (grown, fuel) = h p.id states l in
        if-elim (IsVisited states) (count_mismatch d.kind d.shuffle n.num_partitions)
          (λ _. ((λ j e. e), refl))
          (λ _.
            option-elim (IsVisited states) (visit p.id states).0
              (λ _.
                let (later, fuel') =
                  visit_parents-IsVisited g visit n (suc i) ds id (visit p.id states).1 bound
                    (omega (arith, l, unseen-le states (visit p.id states).1 g.nodes grown)) h in
                ((λ j e. later j (grown j e)), fuel'))
              (λ e at'. (grown, subst HasFuel at' fuel))))

validate_from-IsVisited :
    (fuel : ℕ) (g : RddGraph) (id : RddId) (states : Visits)
    → unseen states g.nodes < fuel
    → IsVisited states (validate_from fuel g id states)
unfolding validate_from visit_node node
validate_from-IsVisited zero g id states l = absurd (omega (arith, l))
validate_from-IsVisited (suc fuel) g id states l =
    option-elim (IsVisited states) (lookup id states)
      (λ new.
        option-elim (IsVisited states) (node g id) (λ _. ((λ j e. e), refl))
          (λ n at.
            let active = insert id visit_active states in
            let grown = insert-Grows id visit_active states in
            let fewer = unseen-insert id visit_active n states g.nodes new at in
            option-elim (IsVisited states) (validate_node_shape n)
              (λ _.
                option-elim (IsVisited states) (validate_operator n)
                  (λ _.
                    let (later, has_fuel) =
                      visit_parents-IsVisited g (validate_from fuel g) n 0 n.dependencies id active
                        (unseen active g.nodes) (omega arith)
                        (λ j s m.
                          validate_from-IsVisited fuel g j s (omega (arith, l, fewer, m))) in
                    ((λ j e. later j (grown j e)), has_fuel))
                  (λ e _. (grown, refl)))
              (λ e _. (grown, refl))))
      (λ s _.
        elim s
          as (λ x. IsVisited states (elim x [
            | visit_active ↦ (some (lineage_cycle id), states)
            | visit_done ↦ (none, states)
          ])) [ visit_active ↦ ((λ j e. e), refl) | visit_done ↦ ((λ j e. e), tt) ])

validate-HasFuel : (g : RddGraph) (target : RddId) → HasFuel (validate g target)
unfolding validate len
validate-HasFuel g target =
    option-elim HasFuel (node g target) (λ _. refl)
      (λ n _.
        (validate_from-IsVisited (suc (len g)) g target [] (omega (arith, unseen-none g.nodes))).1)

-- Validation terminates within its fuel on every graph and for every target, whether or not the
-- lineage has a cycle: it returns another error or none.
pub validate_has_fuel : (g : RddGraph) (target : RddId) → validate g target ≢ some fuel_exhausted
validate_has_fuel g target e =
    let fuel : true ≡ false = subst HasFuel e (validate-HasFuel g target) in absurd cc
