-- ===== src/Protocol/Pipelines.antt =====
-- What the checks on the operations of an assignment establish, one operation after the other.
use sparkcore_go.Protocol.Assignment.{
  function_missing, reduce_by_key_misplaced, differ, duplicate_rdd, check_operations, check_later,
  check_first, check_operator, operation_rdd,
}
use sparkcore_go.Common.{
  [], is_some, contains, zero, ◌∷◌, suc, ◌==◌, ◌||◌, inr, List, inl, not, ◌&&◌, ◌⊎◌, true, some,
  false, none, ◌≡◌, Bool, Option, ℕ, string_eq, nat_eq, int_eq, arith, refl,
}
use sparkcore_go.Executor.ShuffleRead.{find_read}
use sparkcore_go.Plan.{
  op_reduce_by_key, op_map_values, op_map_to_pair, op_filter, op_map, op_source, other_operator,
  RddId, OperatorKind, OperatorSpec,
}
use sparkcore_go.Scheduler.{
  stage_operation_rdd, stage_operation_shuffle_read, other_operation, ShuffleReadSpec,
  StageOperationKind, RddOperationSpec, StageOperation,
}
use sparkcore_go.Scheduler.Kinds.{reduces, is_operation_rdd, is_reduce, is_shuffle_read}
use sparkcore_go.Protocol.{Library, refuse, or_else}

-- The checks in a row that find no error find none each.
pub or_else-parts {ℓ} : {E : Type ℓ} (a b : Option E) → or_else a b ≡ none → (a ≡ none) × (b ≡ none)
unfolding or_else
or_else-parts (some e) b h = absurd cc
or_else-parts none b h = (refl, h)

pub refuse-part {ℓ} : {E : Type ℓ} (b : Bool) (e : E) → refuse b e ≡ none → b ≡ false
unfolding refuse
refuse-part true e h = absurd cc
refuse-part false e h = refl

operation_rdd-parts :
    (k : StageOperationKind) (r : Option RddOperationSpec) (s : Option ShuffleReadSpec)
    (rdd : RddOperationSpec)
    → operation_rdd k r s ≡ some rdd
    → (is_shuffle_read k ≡ false) × (is_operation_rdd k ≡ true) × (r ≡ some rdd)
unfolding operation_rdd
operation_rdd-parts stage_operation_rdd r none rdd h = (refl, refl, h)
operation_rdd-parts stage_operation_rdd r (some s) rdd h = absurd cc
operation_rdd-parts stage_operation_shuffle_read r s rdd h = absurd cc
operation_rdd-parts (other_operation k) r s rdd h = absurd cc

module _ (lib : Library) where
  check_first-reduce :
      (k : OperatorKind) (op : OperatorSpec) → check_first lib k op ≡ none → is_reduce k ≡ false
  unfolding check_first
  check_first-reduce op_source op h = refl
  check_first-reduce op_map op h = refl
  check_first-reduce op_filter op h = refl
  check_first-reduce op_map_to_pair op h = refl
  check_first-reduce op_map_values op h = refl
  check_first-reduce op_reduce_by_key op h = absurd cc
  check_first-reduce (other_operator k) op h = refl

  -- A reduction stands where a shuffle read has just been.
  check_later-reduce :
      (reads : Bool) (i : ℕ) (k : OperatorKind) (op : OperatorSpec)
      → check_later lib reads i k op ≡ none
      → is_reduce k && (not reads || not (suc i == 1)) ≡ false
  unfolding check_later
  check_later-reduce reads i op_source op h = refl
  check_later-reduce reads i op_map op h = refl
  check_later-reduce reads i op_filter op h = refl
  check_later-reduce reads i op_map_to_pair op h = refl
  check_later-reduce reads i op_map_values op h = refl
  check_later-reduce reads i op_reduce_by_key op h =
      let at =
        refuse-part (differ true (reads && i == 0)) reduce_by_key_misplaced
          (or_else-parts (refuse (differ true (reads && i == 0)) reduce_by_key_misplaced)
            (refuse (lib.is_blank op.function_id || not (op.source_path == ""))
              (function_missing (suc i)))
            h).0 in
      ground (arith, at)
  check_later-reduce reads i (other_operator k) op h = refl

  check_operator-reduce :
      (reads : Bool) (i : ℕ) (op : OperatorSpec)
      → check_operator lib reads i op ≡ none
      → is_reduce op.kind && (not reads || not (i == 1)) ≡ false
  unfolding check_operator
  check_operator-reduce reads zero op h = rw (check_first-reduce op.kind op h) refl
  check_operator-reduce reads (suc i) op h = check_later-reduce reads i op.kind op h

  Rdd-cases :
      (q : Option RddOperationSpec) → (q ≡ none) ⊎ ((rdd : RddOperationSpec) × (q ≡ some rdd))
  Rdd-cases none = inl refl
  Rdd-cases (some rdd) = inr (rdd, refl)

  -- What the loop over the operations has checked of the first.
  pub check_operations-parts :
      (reads : Bool) (i : ℕ) (seen : List RddId) (o : StageOperation) (os : List StageOperation)
      → check_operations lib reads i seen (o ∷ os) ≡ none
      → (is_shuffle_read o.kind ≡ false)
        × (is_operation_rdd o.kind ≡ true)
        × (reduces o && (not reads || not (i == 1)) ≡ false)
        × ((later : List RddId) × (check_operations lib reads (suc i) later os ≡ none))
  unfolding check_operations
  check_operations-parts reads i seen o os h =
      elim (Rdd-cases (operation_rdd o.kind o.rdd o.shuffle_read)) [
        | inl e ↦ absurd (cc (h, e))
        | inr (rdd, e) ↦
            let (read, is_rdd, same) = operation_rdd-parts o.kind o.rdd o.shuffle_read rdd e in
            let parts =
              or_else-parts (refuse (contains seen rdd.rdd_id) (duplicate_rdd rdd.rdd_id))
                (or_else (check_operator lib reads i rdd.operator)
                  (check_operations lib reads (suc i) (rdd.rdd_id ∷ seen) os))
                (cc (h, e)) in
            let (op, rest) =
              or_else-parts (check_operator lib reads i rdd.operator)
                (check_operations lib reads (suc i) (rdd.rdd_id ∷ seen) os) parts.1 in
            (
              read,
              is_rdd,
              rw same (check_operator-reduce reads i rdd.operator op),
              (rdd.rdd_id ∷ seen, rest),
            )
      ]

  pub find_read-found :
      (read : Option ShuffleReadSpec) (i : ℕ) (seen : List RddId) (os : List StageOperation)
      → check_operations lib (is_some read) i seen os ≡ none
      → find_read i read os ≡ inr read
  unfolding find_read
  find_read-found read i seen [] h = refl
  find_read-found read i seen (o ∷ os) h =
      let (sh, is_rdd, red, (later, rest)) = check_operations-parts (is_some read) i seen o os h in
      rw (sh, red) (find_read-found read (suc i) later os rest)
