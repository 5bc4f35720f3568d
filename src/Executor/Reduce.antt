-- ===== src/Executor/Reduce.antt =====
-- executor/reduce.go: the reduction by key of one partition in memory. The order on keys is a
-- parameter (sort.Strings). A Go map is an association list; its keys are sorted before use.
use sparkcore_go.Common.{
  none, some, inr, [], inl, ◌⊎◌, length, Option, map, sort, Bool, String, List, ℕ, zero, suc,
  string_eq,
}
use sparkcore_go.Executor.Iterator.{
  next_record, next_end, reduce_key_failed, canceled, reduce_expected, loop_exhausted, next_error,
  plain, Next, key_value, Iterator, ExecError, slice_next, ReduceFunc, Record,
}
use sparkcore_go.Scheduler.{ContextError}
use sparkcore_go.Common.Dict.{insert, lookup, Dict}

abbrev pub Values : Type 0 → Type 0
Values A = Dict String (Record A)

-- The states of a reduceIterator: nothing read yet, `result` set, `err` set, `closed` set.
pub data ReduceState (A S : Type 0) : Type 0 where
  reduce_unread : S → ReduceState A S
  reduce_result : List (Record A) → ReduceState A S
  reduce_failed : ExecError → ReduceState A S
  reduce_closed : ReduceState A S

module _ {A : Type 0} where
  -- The value of a key after one more pair.
  unfoldable pub combine :
      ReduceFunc A → String → Record A → Option (Record A) → ExecError ⊎ Record A
  combine f k v none = inr v
  combine f k v (some previous) = elim (f previous v) [
    | inl e ↦ inl (reduce_key_failed k e)
    | inr w ↦ inr w
  ]

  -- The body of the first loop of reduceRecords for a record.
  unfoldable pub add_value : ReduceFunc A → Record A → Values A → ExecError ⊎ Values A
  unfolding combine lookup insert
  add_value f (plain a) values = inl reduce_expected
  add_value f (key_value k v) values = elim (combine f k v (lookup k values)) [
    | inl e ↦ inl e
    | inr w ↦ inr (insert k w values)
  ]

  -- The body of the first loop of reduceRecords after the input's Next; `rest` is the next turn.
  unfoldable pub values_step :
      ReduceFunc A → Next A → Values A → (Values A → ExecError ⊎ Values A) → ExecError ⊎ Values A
  unfolding add_value
  values_step f (next_record x) values rest = elim (add_value f x values) [
    | inl e ↦ inl e
    | inr values' ↦ rest values'
  ]
  values_step f next_end values rest = inr values
  values_step f (next_error e) values rest = inl e

  -- The first loop of reduceRecords.
  unfoldable pub reduce_values :
      ReduceFunc A
      → (it : Iterator A) → Option ContextError
      → ℕ
      → it.State
      → Values A
      → ExecError ⊎ Values A
  unfolding values_step
  reduce_values f it ctx zero s values = inl loop_exhausted
  reduce_values f it (some e) (suc fuel) s values = inl (canceled e)
  reduce_values f it none (suc fuel) s values =
      let (r, s') = it.next none s in values_step f r values (reduce_values f it none fuel s')

  unfoldable pub next_result :
      {S : Type 0} → Option ContextError → List (Record A) → Next A × ReduceState A S
  unfolding slice_next
  next_result ctx rs = let (r, rs') = slice_next ctx rs in (r, reduce_result rs')

  -- Next after the reading.
  unfoldable pub first_result :
      {S : Type 0} → Option ContextError → ExecError ⊎ List (Record A) → Next A × ReduceState A S
  unfolding next_result
  first_result ctx (inl e) = (next_error e, reduce_failed e)
  first_result ctx (inr rs) = next_result ctx rs

module _ {A : Type 0} (text_ltb : String → String → Bool) where
  abbrev pub key_before : String × Record A → String × Record A → Bool
  key_before a b = text_ltb a.0 b.0

  -- The second loop, over the sorted keys; it reads the value of each.
  unfoldable pub sorted_records : Values A → List (Record A)
  unfolding sort
  sorted_records values = map (λ p. key_value p.0 p.1) (sort key_before values)

  unfoldable pub sort_values : ExecError ⊎ Values A → ExecError ⊎ List (Record A)
  unfolding sorted_records
  sort_values (inl e) = inl e
  sort_values (inr values) = inr (sorted_records values)

  unfoldable pub reduce_records :
      ReduceFunc A
      → (it : Iterator A) → Option ContextError
      → it.State
      → ExecError ⊎ List (Record A)
  unfolding reduce_values sort_values
  reduce_records f it ctx s = sort_values (reduce_values f it ctx (suc (it.remaining s)) s [])

  unfoldable pub reduce_next :
      ReduceFunc A
      → (it : Iterator A) → Option ContextError
      → ReduceState A it.State
      → Next A × ReduceState A it.State
  unfolding reduce_records next_result first_result
  reduce_next f it ctx (reduce_failed e) = (next_error e, reduce_failed e)
  reduce_next f it ctx reduce_closed = (next_end, reduce_closed)
  reduce_next f it ctx (reduce_result rs) = next_result ctx rs
  reduce_next f it ctx (reduce_unread s) = first_result ctx (reduce_records f it ctx s)

  unfoldable pub reduce_remaining : (it : Iterator A) → ReduceState A it.State → ℕ
  reduce_remaining it (reduce_unread s) = it.remaining s
  reduce_remaining it (reduce_result rs) = length rs
  reduce_remaining it (reduce_failed e) = 0
  reduce_remaining it reduce_closed = 0

  abbrev pub reduce_iterator : ReduceFunc A → Iterator A → Iterator A
  reduce_iterator f it = record {
    State = ReduceState A it.State;
    state = reduce_unread it.state;
    next = reduce_next f it;
    remaining = reduce_remaining it;
  }
