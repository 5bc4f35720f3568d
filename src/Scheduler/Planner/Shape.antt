-- ===== src/Scheduler/Planner/Shape.antt =====
-- The shape of the dependencies that the planner follows (plan/graph.go, planner.go).
use sparkcore_go.Plan.Graph.{
  validate_dependency_shape, validate_node_shape, validate_dependencies, validate_dependency_kind,
}
use sparkcore_go.Common.{
  get_elem?, [], inr, inl, Option-cases, ◌∷◌, List, All, ℕ, ◌≡◌, String, Option, nat_eq, refl,
  arith, none, some, suc,
}
use sparkcore_go.Plan.{
  Dependency, ShuffleDependencySpec, NarrowDependencySpec, RddNode, DependencyKind,
  dependency_narrow, dependency_shuffle, other_dependency,
}

-- A shape that is valid gives a narrow dependency, or a shuffle with its specification.
pub data IsShaped : DependencyKind → Option ShuffleDependencySpec → Type 0 where
  shaped_narrow : (s : Option ShuffleDependencySpec) → IsShaped dependency_narrow s
  shaped_shuffle : (s : ShuffleDependencySpec) → IsShaped dependency_shuffle (some s)

kind-IsShaped :
    (k : DependencyKind) (n : Option NarrowDependencySpec) (s : Option ShuffleDependencySpec)
    → validate_dependency_kind k n s ≡ none
    → IsShaped k s
unfolding validate_dependency_kind
kind-IsShaped dependency_narrow n s h = shaped_narrow s
kind-IsShaped dependency_shuffle none none h = absurd cc
kind-IsShaped dependency_shuffle none (some s) h = shaped_shuffle s
kind-IsShaped dependency_shuffle (some n) s h = absurd cc
kind-IsShaped (other_dependency k) n s h = absurd cc

dependencies-shape :
    (name : String) (i : ℕ) (ds : List Dependency)
    → validate_dependencies name i ds ≡ none
    → All (λ d. IsShaped d.kind d.shuffle) ds
unfolding validate_dependencies validate_dependency_shape
dependencies-shape name i [] h = tt
dependencies-shape name i (d ∷ ds) h = elim (Option-cases (validate_dependency_shape d)) [
  | inl e ↦
      (kind-IsShaped d.kind d.narrow d.shuffle e, dependencies-shape name (suc i) ds (cc (h, e)))
  | inr (x, e) ↦ absurd (cc (h, e))
]

pub node-shape :
    (n : RddNode)
    → validate_node_shape n ≡ none
    → All (λ d. IsShaped d.kind d.shuffle) n.dependencies
unfolding validate_node_shape
node-shape n h = dependencies-shape n.name 0 n.dependencies (ground (arith, h))

pub All-index {ℓ κ} :
    {A : Type ℓ} (P : A → Type κ) (xs : List A)
    → ((i : ℕ) (x : A) → get_elem? xs i ≡ some x → P x)
    → All P xs
All-index P [] h = tt
All-index P (x ∷ xs) h = (h 0 x refl, All-index P xs (λ i y e. h (suc i) y e))

pub All-and {ℓ κ μ} :
    {A : Type ℓ} (P : A → Type κ) (Q : A → Type μ) (xs : List A)
    → All P xs
    → All Q xs
    → All (λ x. P x × Q x) xs
All-and P Q [] h k = tt
All-and P Q (x ∷ xs) h k = ((h.0, k.0), All-and P Q xs h.1 k.1)

pub All-weaken {ℓ κ μ} :
    {A : Type ℓ} (P : A → Type κ) (Q : A → Type μ) (xs : List A)
    → ((x : A) → P x → Q x)
    → All P xs
    → All Q xs
All-weaken P Q [] h k = tt
All-weaken P Q (x ∷ xs) h k = (h x k.0, All-weaken P Q xs h k.1)
