-- ===== src/Executor/Reduction.antt =====
-- A reduction's iterator runs as the reduction of its input's run.
use sparkcore_go.Executor.Runs.{
  run_exhausted, run_ended, reduce_pairs, run_failed, run_record, reduce_run, run, Run, IsSized,
  run_step, slice_run, run_from,
}
use sparkcore_go.Common.{
  Option-cases, ap, ◌∙◌, length-map, sort, insert_sorted, [], ◌∷◌, ◌<◌, ◌+◌, List, Bool, ◌≤◌, none,
  inr, length, inl, ◌≡◌, ◌⊎◌, String, ℕ, zero, suc, arith, string_eq, refl,
}
use sparkcore_go.Executor.Iterator.{
  loop_exhausted, key_value, next_end, next_error, plain, next_record, slice_next, Record, Next,
  Iterator, ReduceFunc, ExecError,
}
use sparkcore_go.Executor.Operators.{Result-cases}
use sparkcore_go.Executor.Reduce.{
  reduce_unread, sort_values, first_result, reduce_failed, reduce_remaining, reduce_records,
  key_before, sorted_records, combine, reduce_result, reduce_iterator, next_result, Values,
  reduce_next, add_value, values_step, reduce_values, reduce_closed,
}
use sparkcore_go.Common.Dict.{lookup, insert}

module _ {A : Type 0} where
  -- The pairs of a run, added one by one.
  unfoldable reduce_run_values : ReduceFunc A → Run A → Values A → ExecError ⊎ Values A
  unfolding values_step
  reduce_run_values f (run_record x rest) values =
      values_step f (next_record x) values (reduce_run_values f rest)
  reduce_run_values f run_ended values = inr values
  reduce_run_values f (run_failed e) values = inl e
  reduce_run_values f run_exhausted values = inl loop_exhausted

  unfoldable reduced_run : ExecError ⊎ List (Record A) → Run A
  unfolding slice_run
  reduced_run (inl e) = run_failed e
  reduced_run (inr rs) = slice_run rs

  values_step-run :
      (f : ReduceFunc A) (r : Next A) (values : Values A) (rest : Values A → ExecError ⊎ Values A)
      (after : Run A)
      → ((v : Values A) → rest v ≡ reduce_run_values f after v)
      → values_step f r values rest ≡ reduce_run_values f (run_step r after) values
  unfolding values_step reduce_run_values run_step
  values_step-run f (next_record x) values rest after h =
      elim (Result-cases (add_value f x values)) [
        | inl (e, same) ↦ rw (same, values_step) refl
        | inr (v, same) ↦ rw (same, values_step) (h v)
      ]
  values_step-run f next_end values rest after h = refl
  values_step-run f (next_error e) values rest after h = refl

  reduce_values-run :
      (f : ReduceFunc A) (it : Iterator A) (fuel : ℕ) (s : it.State) (values : Values A)
      → reduce_values f it none fuel s values ≡ reduce_run_values f (run_from it none fuel s) values
  unfolding reduce_values run_from reduce_run_values
  reduce_values-run f it zero s values = refl
  reduce_values-run f it (suc fuel) s values =
      let s' = (it.next none s).1 in
      values_step-run f (it.next none s).0 values (reduce_values f it none fuel s')
        (run_from it none fuel s') (reduce_values-run f it fuel s')

  length-insert :
      (k : String) (v : Record A) (m : Values A) → length (insert k v m) ≤ suc (length m)
  unfolding insert
  length-insert k v [] = omega arith
  length-insert k v ((j, w) ∷ m) = ground (arith, length-insert k v m)

  add_value-length :
      (f : ReduceFunc A) (x : Record A) (values v : Values A)
      → add_value f x values ≡ inr v
      → length v ≤ suc (length values)
  unfolding add_value
  add_value-length f (plain a) values v e = absurd cc
  add_value-length f (key_value k w) values v e =
      elim (Result-cases (combine f k w (lookup k values))) [
        | inl (er, same) ↦ absurd (cc (e, same))
        | inr (u, same) ↦ ground (arith, e, same, length-insert k u values)
      ]

  -- A record adds one key at most.
  values_step-length :
      (f : ReduceFunc A) (r : Next A) (values v : Values A) (rest : Values A → ExecError ⊎ Values A)
      (more : ℕ)
      → values_step f r values rest ≡ inr v
      → ((x : Record A) (u : Values A)
          → r ≡ next_record x
          → rest u ≡ inr v
          → length v < length u + more)
      → length v ≤ length values + more
  unfolding values_step
  values_step-length f (next_record x) values v rest more e h =
      elim (Result-cases (add_value f x values)) [
        | inl (er, same) ↦ absurd (cc (e, same))
        | inr (u, same) ↦
            omega (arith, add_value-length f x values u same, h x u refl (cc (e, same)))
      ]
  values_step-length f next_end values v rest more e h = ground (arith, e)
  values_step-length f (next_error er) values v rest more e h = absurd cc

  reduce_values-length :
      (f : ReduceFunc A) (it : Iterator A)
      → IsSized none it
      → (fuel : ℕ) (s : it.State) (values v : Values A)
      → reduce_values f it none fuel s values ≡ inr v
      → length v ≤ length values + it.remaining s
  unfolding reduce_values
  reduce_values-length f it sized zero s values v e = absurd cc
  reduce_values-length f it sized (suc fuel) s values v e =
      let s' = (it.next none s).1 in
      values_step-length f (it.next none s).0 values v (reduce_values f it none fuel s')
        (it.remaining s) e
        (λ x u rec e'. omega (arith, sized s x rec, reduce_values-length f it sized fuel s' u v e'))

  -- What is left of a result.
  run_from-result :
      (text_ltb : String → String → Bool) (f : ReduceFunc A) (it : Iterator A) (fuel : ℕ)
      (rs : List (Record A))
      → length rs < fuel
      → run_from (reduce_iterator text_ltb f it) none fuel (reduce_result rs) ≡ slice_run rs
  unfolding run_from slice_run reduce_next next_result slice_next run_step
  run_from-result text_ltb f it zero rs l = absurd (omega (arith, l))
  run_from-result text_ltb f it (suc fuel) [] l = refl
  run_from-result text_ltb f it (suc fuel) (r ∷ rs) l =
      rw (run_from-result text_ltb f it fuel rs (omega (arith, l))) refl

  length-insert_sorted :
      (text_ltb : String → String → Bool) (p : String × Record A) (ps : Values A)
      → length (insert_sorted (key_before text_ltb) p ps) ≡ suc (length ps)
  unfolding insert_sorted
  length-insert_sorted text_ltb p [] = refl
  length-insert_sorted text_ltb p (q ∷ ps) = ground (arith, length-insert_sorted text_ltb p ps)

  length-sort :
      (text_ltb : String → String → Bool) (ps : Values A)
      → length (sort (key_before text_ltb) ps) ≡ length ps
  unfolding sort
  length-sort text_ltb [] = refl
  length-sort text_ltb (p ∷ ps) = ground (
    arith,
    length-sort text_ltb ps,
    length-insert_sorted text_ltb p (sort (key_before text_ltb) ps),
  )

  sorted_records-length :
      (text_ltb : String → String → Bool) (values : Values A)
      → length (sorted_records text_ltb values) ≡ length values
  unfolding sorted_records
  sorted_records-length text_ltb values =
      length-map (λ p. key_value p.0 p.1) (sort (key_before text_ltb) values)
      ∙ length-sort text_ltb values

  -- The first Next of a reduction, on the records that it found.
  run_step-result :
      (text_ltb : String → String → Bool) (f : ReduceFunc A) (it : Iterator A) (fuel : ℕ)
      (rs : List (Record A))
      → length rs ≤ fuel
      → (let p = next_result {S = it.State} none rs in
          run_step p.0 (run_from (reduce_iterator text_ltb f it) none fuel p.1))
        ≡ slice_run rs
  unfolding next_result slice_next run_step slice_run
  run_step-result text_ltb f it fuel [] l = refl
  run_step-result text_ltb f it fuel (r ∷ rs) l =
      rw (run_from-result text_ltb f it fuel rs (omega (arith, l))) refl

  run_step-first_result :
      (text_ltb : String → String → Bool) (f : ReduceFunc A) (it : Iterator A) (fuel : ℕ)
      (q : ExecError ⊎ List (Record A))
      → ((rs : List (Record A)) → q ≡ inr rs → length rs ≤ fuel)
      → (let p = first_result none q in
          run_step p.0 (run_from (reduce_iterator text_ltb f it) none fuel p.1))
        ≡ reduced_run q
  unfolding first_result run_step reduced_run
  run_step-first_result text_ltb f it fuel (inl e) l = refl
  run_step-first_result text_ltb f it fuel (inr rs) l =
      run_step-result text_ltb f it fuel rs (l rs refl)

  sort_values-length :
      (text_ltb : String → String → Bool) (q : ExecError ⊎ Values A) (fuel : ℕ)
      → ((v : Values A) → q ≡ inr v → length v ≤ fuel)
      → (rs : List (Record A)) → sort_values text_ltb q ≡ inr rs
      → length rs ≤ fuel
  unfolding sort_values
  sort_values-length text_ltb (inl e) fuel l rs at = absurd cc
  sort_values-length text_ltb (inr v) fuel l rs at =
      ground (arith, at, l v refl, sorted_records-length text_ltb v)

  reduce_records-length :
      (text_ltb : String → String → Bool) (f : ReduceFunc A) (it : Iterator A) (s : it.State)
      → IsSized none it
      → (rs : List (Record A)) → reduce_records text_ltb f it none s ≡ inr rs
      → length rs ≤ it.remaining s
  unfolding reduce_records
  reduce_records-length text_ltb f it s sized =
      sort_values-length text_ltb (reduce_values f it none (suc (it.remaining s)) s [])
        (it.remaining s)
        (λ v e. omega (arith, reduce_values-length f it sized (suc (it.remaining s)) s [] v e))

  reduce_run_values-pairs :
      (f : ReduceFunc A) (r : Run A) (values : Values A)
      → reduce_run_values f r values ≡ reduce_pairs f r values
  unfolding reduce_run_values reduce_pairs values_step add_value combine
  reduce_run_values-pairs f (run_record (plain a) rest) values = refl
  reduce_run_values-pairs f (run_record (key_value k v) rest) values =
      elim (Option-cases (lookup k values)) [
        | inl new ↦
            rw (new, reduce_pairs, values_step, add_value, combine)
              (reduce_run_values-pairs f rest (insert k v values))
        | inr (w, old) ↦ elim (Result-cases (f w v)) [
          | inl (e, same) ↦ ground (arith, old, same)
          | inr (u, same) ↦
              ground (arith, old, same, reduce_run_values-pairs f rest (insert k u values))
        ]
      ]
  reduce_run_values-pairs f run_ended values = refl
  reduce_run_values-pairs f (run_failed e) values = refl
  reduce_run_values-pairs f run_exhausted values = refl

  reduced-run :
      (text_ltb : String → String → Bool) (f : ReduceFunc A) (r : Run A)
      → reduced_run (sort_values text_ltb (reduce_run_values f r [])) ≡ reduce_run text_ltb f r
  unfolding reduce_run sort_values reduced_run
  reduced-run text_ltb f r = elim (Result-cases (reduce_pairs f r [])) [
    | inl (e, same) ↦
        rw (reduce_run_values-pairs f r [], same, reduce_run, sort_values, reduced_run) refl
    | inr (values, same) ↦
        rw
          (
            reduce_run_values-pairs f r [],
            same,
            reduce_run,
            sort_values,
            sorted_records,
            reduced_run,
          )
          refl
  ]

  pub run-reduce :
      (text_ltb : String → String → Bool) (f : ReduceFunc A) (it : Iterator A)
      → IsSized none it
      → run none (reduce_iterator text_ltb f it) ≡ reduce_run text_ltb f (run none it)
  unfolding run run_from reduce_next reduce_records reduce_remaining
  run-reduce text_ltb f it sized =
      run_step-first_result text_ltb f it (it.remaining it.state)
        (reduce_records text_ltb f it none it.state)
        (reduce_records-length text_ltb f it it.state sized)
      ∙ ap (λ v. reduced_run (sort_values text_ltb v))
          (reduce_values-run f it (suc (it.remaining it.state)) it.state [])
      ∙ reduced-run text_ltb f (run none it)

  next_result-sized :
      (text_ltb : String → String → Bool) (it : Iterator A) (rs : List (Record A)) (x : Record A)
      (bound : ℕ)
      → (next_result {S = it.State} none rs).0 ≡ next_record x
      → length rs ≤ bound
      → reduce_remaining text_ltb it (next_result {S = it.State} none rs).1 < bound
  unfolding next_result slice_next reduce_remaining
  next_result-sized text_ltb it [] x bound e l = absurd cc
  next_result-sized text_ltb it (r ∷ rs) x bound e l = omega (arith, l)

  first_result-sized :
      (text_ltb : String → String → Bool) (it : Iterator A) (q : ExecError ⊎ List (Record A))
      (x : Record A) (bound : ℕ)
      → (first_result {S = it.State} none q).0 ≡ next_record x
      → ((rs : List (Record A)) → q ≡ inr rs → length rs ≤ bound)
      → reduce_remaining text_ltb it (first_result {S = it.State} none q).1 < bound
  unfolding first_result
  first_result-sized text_ltb it (inl er) x bound e l = absurd cc
  first_result-sized text_ltb it (inr rs) x bound e l =
      next_result-sized text_ltb it rs x bound e (l rs refl)

  pub IsSized-reduce :
      (text_ltb : String → String → Bool) (f : ReduceFunc A) (it : Iterator A)
      → IsSized none it
      → IsSized none (reduce_iterator text_ltb f it)
  unfolding reduce_next reduce_remaining
  IsSized-reduce text_ltb f it sized (reduce_failed er) x e = absurd cc
  IsSized-reduce text_ltb f it sized reduce_closed x e = absurd cc
  IsSized-reduce text_ltb f it sized (reduce_result rs) x e =
      next_result-sized text_ltb it rs x (length rs) e (omega arith)
  IsSized-reduce text_ltb f it sized (reduce_unread s) x e =
      first_result-sized text_ltb it (reduce_records text_ltb f it none s) x (it.remaining s) e
        (reduce_records-length text_ltb f it s sized)
