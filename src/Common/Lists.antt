-- ===== src/Common/Lists.antt =====
-- Lists measured and indexed by native numbers, and predicates on all elements.
use Prim.Native.Nat.{ℕ, zero, suc, ◌+◌, ◌-◌, ◌≤◌, ◌<◌}
use mathlib.Core.Path.{◌≡◌, refl, ap}
use mathlib.Core.Logic.{◌≢◌}
use mathlib.Core.Bool.{Bool, true, false, ◌||◌}
use mathlib.Core.List.{List, [], ◌∷◌, ◌++◌, map}
use mathlib.Core.Option.{Option, none, some}
use native.Mathlib.Omega.{arith}
use sparkcore_go.Common.Tests.{Eq, if◌then◌else◌}

zero_minus : (n : ℕ) → 0 - n ≡ 0
zero_minus n = omega arith

minus_zero : (n : ℕ) → suc n - 0 ≡ suc n
minus_zero n = omega arith

suc_minus : (n m : ℕ) → suc n - suc m ≡ n - m
suc_minus n m = omega arith

suc_minus_one : (n : ℕ) → suc n - 1 ≡ n
suc_minus_one n = omega arith

module _ {ℓ} {A : Type ℓ} where
  abbrev pub length : List A → ℕ
  length [] = 0
  length (x ∷ xs) = suc (length xs)

  abbrev pub get_elem? : List A → ℕ → Option A
  get_elem? [] i = none
  get_elem? (x ∷ xs) zero = some x
  get_elem? (x ∷ xs) (suc i) = get_elem? xs i

  -- A write out of bounds changes nothing.
  abbrev pub set : List A → ℕ → A → List A
  set [] i v = []
  set (x ∷ xs) zero v = v ∷ xs
  set (x ∷ xs) (suc i) v = x ∷ set xs i v

  abbrev pub take : ℕ → List A → List A
  take zero xs = []
  take (suc n) [] = []
  take (suc n) (x ∷ xs) = x ∷ take n xs

  abbrev pub drop : ℕ → List A → List A
  drop zero xs = xs
  drop (suc n) [] = []
  drop (suc n) (x ∷ xs) = drop n xs

  abbrev pub is_empty : List A → Bool
  is_empty [] = true
  is_empty (x ∷ xs) = false

  pub length-append : (xs ys : List A) → length (xs ++ ys) ≡ length xs + length ys
  length-append [] ys = omega arith
  length-append (x ∷ xs) ys = omega (arith, length-append xs ys)

  pub take-nil : (n : ℕ) → ◌≡◌ {A = List A} (take n []) []
  take-nil zero = refl
  take-nil (suc n) = refl

  pub take-cons : (n : ℕ) (x : A) (xs : List A) → 0 < n → take n (x ∷ xs) ≡ x ∷ take (n - 1) xs
  take-cons zero x xs h = absurd (omega arith)
  take-cons (suc n) x xs h = rw (suc_minus_one n)

  pub take-append :
      (n : ℕ) (xs ys : List A) → take n (xs ++ ys) ≡ take n xs ++ take (n - length xs) ys
  take-append zero xs ys = rw (zero_minus (length xs))
  take-append (suc n) [] ys = rw (minus_zero n)
  take-append (suc n) (x ∷ xs) ys = rw (take-append n xs ys, suc_minus n (length xs))

  pub length-take-le : (n : ℕ) (xs : List A) → length (take n xs) ≤ n
  length-take-le zero xs = omega arith
  length-take-le (suc n) [] = omega arith
  length-take-le (suc n) (x ∷ xs) = omega (arith, length-take-le n xs)

  -- The elements that pass a test, in order.
  unfoldable pub keep_if : (A → Bool) → List A → List A
  keep_if p [] = []
  keep_if p (x ∷ xs) = if p x then x ∷ keep_if p xs else keep_if p xs

  unfoldable pub count_if : (A → Bool) → List A → ℕ
  count_if p [] = 0
  count_if p (x ∷ xs) = if p x then suc (count_if p xs) else count_if p xs

  pub count_if-le : (p : A → Bool) (xs : List A) → count_if p xs ≤ length xs
  unfolding count_if
  count_if-le p [] = omega arith
  count_if-le p (x ∷ xs) = ground (arith, count_if-le p xs)

pub length-map {ℓ κ} :
    {A : Type ℓ} {B : Type κ} (f : A → B) (xs : List A) → length (map f xs) ≡ length xs
length-map f [] = refl
length-map f (x ∷ xs) = ap suc (length-map f xs)

module _ {ℓ} {A : Type ℓ} ⦃e : Eq A⦄ where
  abbrev pub contains : List A → A → Bool
  contains [] a = false
  contains (x ∷ xs) a = e.beq x a || contains xs a

  -- `delete(m, a)` on a set kept as a list.
  unfoldable pub erase : A → List A → List A
  erase a [] = []
  erase a (x ∷ xs) = if e.beq x a then erase a xs else x ∷ erase a xs

  -- `m[a] = struct{}{}`
  unfoldable pub add_elem : A → List A → List A
  add_elem a xs = if contains xs a then xs else xs ++ (a ∷ [])

  pub length-erase-le : (a : A) (xs : List A) → length (erase a xs) ≤ length xs
  unfolding erase
  length-erase-le a [] = omega arith
  length-erase-le a (x ∷ xs) = ground (arith, length-erase-le a xs)

  pub length-add_elem-le : (a : A) (xs : List A) → length (add_elem a xs) ≤ length xs + 1
  unfolding add_elem
  length-add_elem-le a xs = ground (arith, length-append xs (a ∷ []))

-- A predicate on every element computes to tuples.
abbrev pub All {ℓ κ} : {A : Type ℓ} → (A → Type κ) → List A → Type κ
All P [] = Unit
All P (x ∷ xs) = P x × All P xs

-- No element stands twice.
abbrev pub Distinct {ℓ} : {A : Type ℓ} → List A → Type ℓ
Distinct [] = Unit
Distinct (x ∷ xs) = All (λ y. x ≢ y) xs × Distinct xs

module _ {ℓ κ} {A : Type ℓ} (P : A → Type κ) where
  pub All-append : (xs ys : List A) → All P xs → All P ys → All P (xs ++ ys)
  All-append [] ys hx hy = hy
  All-append (x ∷ xs) ys hx hy = (hx.0, All-append xs ys hx.1 hy)

  pub All-keep_if : (p : A → Bool) (xs : List A) → All P xs → All P (keep_if p xs)
  unfolding keep_if
  All-keep_if p [] h = h
  All-keep_if p (x ∷ xs) h = ground (arith, All-keep_if p xs h.1)

  pub All-set : (xs : List A) (i : ℕ) (v : A) → All P xs → P v → All P (set xs i v)
  All-set [] i v h p = h
  All-set (x ∷ xs) zero v h p = (p, h.1)
  All-set (x ∷ xs) (suc i) v h p = (h.0, All-set xs i v h.1 p)

  pub All-get_elem? : (xs : List A) (i : ℕ) (v : A) → All P xs → get_elem? xs i ≡ some v → P v
  All-get_elem? [] i v h e = cc
  All-get_elem? (x ∷ xs) zero v h e = ground (arith, h.0)
  All-get_elem? (x ∷ xs) (suc i) v h e = All-get_elem? xs i v h.1 e

pub All-map {ℓ κ μ} :
    {A : Type ℓ} (P : A → Type κ) (Q : A → Type μ) (xs : List A)
    → ((a : A) → P a → Q a)
    → All P xs
    → All Q xs
All-map P Q [] f h = tt
All-map P Q (x ∷ xs) f h = (f x h.0, All-map P Q xs f h.1)

pub Distinct-keep_if {ℓ} :
    {A : Type ℓ} (p : A → Bool) (xs : List A) → Distinct xs → Distinct (keep_if p xs)
unfolding keep_if
Distinct-keep_if p [] h = h
Distinct-keep_if p (x ∷ xs) h =
    ground (arith, Distinct-keep_if p xs h.1, All-keep_if (λ y. x ≢ y) p xs h.0)

pub Distinct-append_one {ℓ} :
    {A : Type ℓ} (xs : List A) (a : A)
    → Distinct xs
    → All (λ x. x ≢ a) xs
    → Distinct (xs ++ (a ∷ []))
Distinct-append_one [] a d h = (tt, tt)
Distinct-append_one (x ∷ xs) a d h =
    (All-append (λ y. x ≢ y) xs (a ∷ []) d.0 (h.0, tt), Distinct-append_one xs a d.1 h.1)

-- sort.Slice over distinct values.
unfoldable pub insert_sorted {ℓ} : {A : Type ℓ} → (A → A → Bool) → A → List A → List A
insert_sorted less a [] = a ∷ []
insert_sorted less a (x ∷ xs) = if less a x then a ∷ x ∷ xs else x ∷ insert_sorted less a xs

unfoldable pub sort {ℓ} : {A : Type ℓ} → (A → A → Bool) → List A → List A
unfolding insert_sorted
sort less [] = []
sort less (x ∷ xs) = insert_sorted less x (sort less xs)
