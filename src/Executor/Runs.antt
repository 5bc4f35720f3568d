-- ===== src/Executor/Runs.antt =====
-- What an iterator produces, as a value: its records in their order and how it ends. The functions
-- on runs describe the operators independently of the iterators.
use sparkcore_go.Executor.Iterator.{
  reduce_key_failed, reduce_expected, map_values_expected, plain, key_value, MapFunc, PairMapFunc,
  ValueMapFunc, loop_exhausted, next_end, next_error, next_record, Record, ReduceFunc, FilterFunc,
  ExecError, Iterator, Next,
}
use sparkcore_go.Common.{
  none, some, map, sort, false, true, ◌⊎◌, ◌<◌, [], Bool, ◌≡◌, ◌∷◌, ℕ, inr, inl, String, List,
  Option, zero, suc, string_eq,
}
use sparkcore_go.Common.Dict.{Dict, insert, lookup}
use sparkcore_go.Scheduler.{ContextError}

pub data Run (A : Type 0) : Type 0 where
  run_ended : Run A
  run_failed : ExecError → Run A
  run_record : Record A → Run A → Run A
  run_exhausted : Run A

module _ {A : Type 0} where
  -- A call of Next that returned `r`, in front of the calls after it.
  unfoldable pub run_step : Next A → Run A → Run A
  run_step (next_record x) rest = run_record x rest
  run_step next_end rest = run_ended
  run_step (next_error e) rest = run_failed e

  unfoldable pub run_from : (it : Iterator A) → Option ContextError → ℕ → it.State → Run A
  unfolding run_step
  run_from it ctx zero s = run_exhausted
  run_from it ctx (suc fuel) s = let (r, s') = it.next ctx s in run_step r (run_from it ctx fuel s')

  -- All calls of Next up to the end.
  unfoldable pub run : Option ContextError → Iterator A → Run A
  unfolding run_from
  run ctx it = run_from it ctx (suc (it.remaining it.state)) it.state

  -- A record takes `remaining` down, whatever state Next is called on.
  abbrev pub IsSized : Option ContextError → Iterator A → Type 0
  IsSized ctx it =
      (s : it.State) (x : Record A)
      → (it.next ctx s).0 ≡ next_record x
      → it.remaining (it.next ctx s).1 < it.remaining s

  unfoldable pub map_run : MapFunc A → Run A → Run A
  map_run f (run_record x rest) = elim (f x) [
    | inl e ↦ run_failed e
    | inr y ↦ run_record y (map_run f rest)
  ]
  map_run f run_ended = run_ended
  map_run f (run_failed e) = run_failed e
  map_run f run_exhausted = run_exhausted

  unfoldable pub pair_run : PairMapFunc A → Run A → Run A
  pair_run f (run_record x rest) = elim (f x) [
    | inl e ↦ run_failed e
    | inr (k, v) ↦ run_record (key_value k v) (pair_run f rest)
  ]
  pair_run f run_ended = run_ended
  pair_run f (run_failed e) = run_failed e
  pair_run f run_exhausted = run_exhausted

  unfoldable pub value_run : ValueMapFunc A → Run A → Run A
  value_run f (run_record (plain a) rest) = run_failed map_values_expected
  value_run f (run_record (key_value k v) rest) = elim (f v) [
    | inl e ↦ run_failed e
    | inr w ↦ run_record (key_value k w) (value_run f rest)
  ]
  value_run f run_ended = run_ended
  value_run f (run_failed e) = run_failed e
  value_run f run_exhausted = run_exhausted

  unfoldable pub filter_run : FilterFunc A → Run A → Run A
  filter_run f (run_record x rest) = elim (f x) [
    | inl e ↦ run_failed e
    | inr true ↦ run_record x (filter_run f rest)
    | inr false ↦ filter_run f rest
  ]
  filter_run f run_ended = run_ended
  filter_run f (run_failed e) = run_failed e
  filter_run f run_exhausted = run_exhausted

  unfoldable pub slice_run : List (Record A) → Run A
  slice_run [] = run_ended
  slice_run (r ∷ rs) = run_record r (slice_run rs)

  -- The value of each key: the first that comes with it, and each later one combined with it, on
  -- the right.
  unfoldable pub reduce_pairs :
      ReduceFunc A → Run A → Dict String (Record A) → ExecError ⊎ Dict String (Record A)
  unfolding lookup insert
  reduce_pairs f (run_record (plain a) rest) values = inl reduce_expected
  reduce_pairs f (run_record (key_value k v) rest) values = elim (lookup k values) [
    | none ↦ reduce_pairs f rest (insert k v values)
    | some w ↦ elim (f w v) [
      | inl e ↦ inl (reduce_key_failed k e)
      | inr u ↦ reduce_pairs f rest (insert k u values)
    ]
  ]
  reduce_pairs f run_ended values = inr values
  reduce_pairs f (run_failed e) values = inl e
  reduce_pairs f run_exhausted values = inl loop_exhausted

  -- These, by ascending key.
  unfoldable pub reduce_run : (String → String → Bool) → ReduceFunc A → Run A → Run A
  unfolding reduce_pairs slice_run sort
  reduce_run text_ltb f r = elim (reduce_pairs f r []) [
    | inl e ↦ run_failed e
    | inr values ↦ slice_run (map (λ p. key_value p.0 p.1) (sort (λ a b. text_ltb a.0 b.0) values))
  ]
