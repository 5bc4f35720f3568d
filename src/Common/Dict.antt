-- ===== src/Common/Dict.antt =====
-- Go's maps as association lists, under the laws of `lookup`.
use mathlib.Core.Path.{◌≡◌, subst}
use mathlib.Core.Option.{Option, none, some}
use mathlib.Core.List.{List, [], ◌∷◌}
use native.Mathlib.Omega.{arith}
use sparkcore_go.Common.Tests.{Bool-cases, Eq, if◌then◌else◌}
use mathlib.Core.Logic.{inl, inr}
use mathlib.Core.Bool.{true}

abbrev pub Dict {ℓ κ} : Type ℓ → Type κ → Type (ℓ ⊔ κ)
Dict K V = List (K × V)

module _ {ℓ κ} {K : Type ℓ} {V : Type κ} ⦃e : Eq K⦄ where
  -- v, ok := m[k]
  unfoldable pub lookup : K → Dict K V → Option V
  lookup k [] = none
  lookup k ((j, v) ∷ m) = if e.beq j k then some v else lookup k m

  -- m[k] = v
  unfoldable pub insert : K → V → Dict K V → Dict K V
  insert k v [] = (k, v) ∷ []
  insert k v ((j, w) ∷ m) = if e.beq j k then (k, v) ∷ m else (j, w) ∷ insert k v m

  -- delete(m, k)
  unfoldable pub remove : K → Dict K V → Dict K V
  remove k [] = []
  remove k ((j, w) ∷ m) = if e.beq j k then remove k m else (j, w) ∷ remove k m

  pub lookup-insert :
      (k j : K) (v : V) (m : Dict K V)
      → lookup j (insert k v m) ≡ (if e.beq k j then some v else lookup j m)
  unfolding lookup insert
  lookup-insert k j v [] = ground arith
  lookup-insert k j v ((i, w) ∷ m) =
      ground (arith, e.beq_iff k j, e.beq_iff i k, e.beq_iff i j, lookup-insert k j v m)

  pub lookup-remove :
      (k j : K) (m : Dict K V) → lookup j (remove k m) ≡ (if e.beq k j then none else lookup j m)
  unfolding lookup remove
  lookup-remove k j [] = ground arith
  lookup-remove k j ((i, w) ∷ m) =
      ground (arith, e.beq_iff k j, e.beq_iff i k, e.beq_iff i j, lookup-remove k j m)

  pub lookup-insert_self : (k : K) (v : V) (m : Dict K V) → lookup k (insert k v m) ≡ some v
  lookup-insert_self k v m = ground (arith, e.beq_iff k k, lookup-insert k k v m)

-- A predicate on every value that can be looked up.
abbrev pub AllValues {ℓ κ} :
    {K : Type ℓ} {V : Type κ} → ⦃e : Eq K⦄ → (V → Type κ) → Dict K V → Type (ℓ ⊔ κ)
AllValues {K = K} {V = V} P m = (k : K) (v : V) → lookup k m ≡ some v → P v

module _ {ℓ κ} {K : Type ℓ} {V : Type κ} ⦃e : Eq K⦄ (P : V → Type κ) where
  value_of_insert :
      (k : K) (v : V) (m : Dict K V) (j : K) (w : V)
      → e.beq k j ≡ true
      → lookup j (insert k v m) ≡ some w
      → v ≡ w
  value_of_insert k v m j w same at = ground (arith, lookup-insert k j v m, same, at)

  pub AllValues-insert :
      (k : K) (v : V) (m : Dict K V) → P v → AllValues P m → AllValues P (insert k v m)
  AllValues-insert k v m p h j w at = elim (Bool-cases (e.beq k j)) [
    | inl same ↦ subst P (value_of_insert k v m j w same at) p
    | inr other ↦ h j w (ground (arith, lookup-insert k j v m, other, at))
  ]

  pub AllValues-remove : (k : K) (m : Dict K V) → AllValues P m → AllValues P (remove k m)
  AllValues-remove k m h j w at = h j w (ground (arith, lookup-remove k j m, at))
