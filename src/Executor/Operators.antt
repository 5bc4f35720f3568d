-- ===== src/Executor/Operators.antt =====
-- The iterators of the operators run as the functions on runs say.
use sparkcore_go.Executor.Iterator.{
  key_value, plain, PairMapFunc, ValueMapFunc, MapFunc, value_result, map_result, pair_result,
  filter_iterator, filter_result, FilterFunc, filter_next, after_next, next_error, ExecError,
  next_record, Iterator, next_end, Record, Next,
}
use sparkcore_go.Executor.Runs.{
  run_exhausted, run_ended, map_run, run_failed, value_run, pair_run, run_record, filter_run,
  IsSized, Run, run_step, run_from,
}
use sparkcore_go.Common.{
  Bool, false, true, ◌<◌, inr, inl, ◌⊎◌, Option, ◌≡◌, refl, ℕ, zero, suc, arith,
}
use sparkcore_go.Scheduler.{ContextError}

Keep-cases :
    (r : ExecError ⊎ Bool) → ((e : ExecError) × (r ≡ inl e)) ⊎ (r ≡ inr true) ⊎ (r ≡ inr false)
Keep-cases (inl e) = inl (e, refl)
Keep-cases (inr true) = inr (inl refl)
Keep-cases (inr false) = inr (inr refl)

pub Result-cases :
    {B : Type 0} (r : ExecError ⊎ B) → ((e : ExecError) × (r ≡ inl e)) ⊎ ((b : B) × (r ≡ inr b))
Result-cases (inl e) = inl (e, refl)
Result-cases (inr b) = inr (b, refl)

module _ {A : Type 0} where
  -- A function on the results of Next that passes an end and an error on.
  abbrev pub IsStrict : (Next A → Next A) → Type 0
  IsStrict h = (h next_end ≡ next_end) × ((e : ExecError) → h (next_error e) ≡ next_error e)

  -- Each record goes through `h`, which also says when to stop.
  unfoldable pub after_run : (Next A → Next A) → Run A → Run A
  unfolding run_step
  after_run h (run_record x rest) = run_step (h (next_record x)) (after_run h rest)
  after_run h run_ended = run_ended
  after_run h (run_failed e) = run_failed e
  after_run h run_exhausted = run_exhausted

  after_run-step :
      (h : Next A → Next A) (r : Next A) (rest : Run A)
      → IsStrict h
      → after_run h (run_step r rest) ≡ run_step (h r) (after_run h rest)
  unfolding run_step after_run
  after_run-step h (next_record x) rest strict = refl
  after_run-step h next_end rest strict = rw (strict.0) refl
  after_run-step h (next_error e) rest strict = rw (strict.1 e) refl

  pub run_from-after :
      (h : Next A → Next A) (it : Iterator A) (ctx : Option ContextError) (fuel : ℕ) (s : it.State)
      → IsStrict h
      → run_from (after_next h it) ctx fuel s ≡ after_run h (run_from it ctx fuel s)
  unfolding run_from after_run
  run_from-after h it ctx zero s strict = refl
  run_from-after h it ctx (suc fuel) s strict =
      let (r, s') = it.next ctx s in
      rw
        (
          after_run-step h r (run_from it ctx fuel s') strict,
          run_from-after h it ctx fuel s' strict,
        )
        refl

  -- A record after `h` comes from a record before it.
  strict_record :
      (h : Next A → Next A) (r : Next A) (y : Record A)
      → IsStrict h
      → h r ≡ next_record y
      → (x : Record A) × (r ≡ next_record x)
  strict_record h (next_record x) y strict e = (x, refl)
  strict_record h next_end y strict e = absurd cc
  strict_record h (next_error er) y strict e = absurd (cc (strict.1 er))

  pub IsSized-after :
      (h : Next A → Next A) (it : Iterator A) (ctx : Option ContextError)
      → IsStrict h
      → IsSized ctx it
      → IsSized ctx (after_next h it)
  IsSized-after h it ctx strict sized s y e =
      let (x, e') = strict_record h (it.next ctx s).0 y strict e in sized s x e'

  filter_result-cong :
      {S : Type 0} (f : FilterFunc A) (r : Next A) (s : S) (rest rest' : Next A × S)
      → ((x : Record A) → r ≡ next_record x → rest ≡ rest')
      → filter_result f r s rest ≡ filter_result f r s rest'
  unfolding filter_result
  filter_result-cong f (next_record x) s rest rest' h = rw (h x refl) refl
  filter_result-cong f next_end s rest rest' h = refl
  filter_result-cong f (next_error e) s rest rest' h = refl

  -- The loop of a filter does not depend on its fuel, once that is enough.
  filter_next-fuel :
      (f : FilterFunc A) (it : Iterator A) (ctx : Option ContextError)
      → IsSized ctx it
      → (fuel more : ℕ) (s : it.State) → it.remaining s < fuel
      → it.remaining s < more
      → filter_next f it ctx fuel s ≡ filter_next f it ctx more s
  unfolding filter_next
  filter_next-fuel f it ctx sized zero more s l m = absurd (omega (arith, l))
  filter_next-fuel f it ctx sized (suc fuel) zero s l m = absurd (omega (arith, m))
  filter_next-fuel f it ctx sized (suc fuel) (suc more) s l m =
      filter_result-cong f (it.next ctx s).0 (it.next ctx s).1
        (filter_next f it ctx fuel (it.next ctx s).1) (filter_next f it ctx more (it.next ctx s).1)
        (λ x e.
          filter_next-fuel f it ctx sized fuel more (it.next ctx s).1
            (omega (arith, l, sized s x e)) (omega (arith, m, sized s x e)))

  -- One step of a filter's run: `rest` is what follows a record that is kept, `skip` the run that
  -- goes on after a record that is not.
  filter_step :
      {S : Type 0} (f : FilterFunc A) (r : Next A) (s : S) (again : Next A × S) (go : S → Run A)
      (rest : Run A)
      → ((x : Record A) → r ≡ next_record x → go s ≡ filter_run f rest)
      → ((x : Record A) → r ≡ next_record x → run_step again.0 (go again.1) ≡ filter_run f rest)
      → (let p = filter_result f r s again in run_step p.0 (go p.1))
        ≡ filter_run f (run_step r rest)
  unfolding filter_result run_step filter_run
  filter_step f (next_record x) s again go rest h k = elim (Keep-cases (f x)) [
    | inl (e, same) ↦ rw (same, filter_result, filter_run) refl
    | inr (inl same) ↦ rw (same, filter_result, filter_run, h x refl) refl
    | inr (inr same) ↦ rw (same, filter_result, filter_run) (k x refl)
  ]
  filter_step f next_end s again go rest h k = refl
  filter_step f (next_error e) s again go rest h k = refl

  pub run_from-filter :
      (f : FilterFunc A) (it : Iterator A) (ctx : Option ContextError)
      → IsSized ctx it
      → (fuel more : ℕ) (s : it.State) → it.remaining s < fuel
      → it.remaining s < more
      → run_from (filter_iterator f it) ctx more s ≡ filter_run f (run_from it ctx fuel s)
  unfolding run_from filter_next
  run_from-filter f it ctx sized zero more s l m = absurd (omega (arith, l))
  run_from-filter f it ctx sized (suc fuel) zero s l m = absurd (omega (arith, m))
  run_from-filter f it ctx sized (suc fuel) (suc more) s l m =
      let s' = (it.next ctx s).1 in
      filter_step f (it.next ctx s).0 s' (filter_next f it ctx (it.remaining s) s')
        (run_from (filter_iterator f it) ctx more) (run_from it ctx fuel s')
        (λ x e.
          run_from-filter f it ctx sized fuel more s' (omega (arith, l, sized s x e))
            (omega (arith, m, sized s x e)))
        (λ x e.
          rw
            (filter_next-fuel f it ctx sized (it.remaining s) (suc (it.remaining s')) s'
              (sized s x e) (omega arith))
            (run_from-filter f it ctx sized fuel (suc more) s' (omega (arith, l, sized s x e))
              (omega (arith, m, sized s x e))))

  filter_result-remaining :
      {S : Type 0} (f : FilterFunc A) (r : Next A) (s : S) (rest : Next A × S) (y : Record A)
      (size : S → ℕ) (bound : ℕ)
      → (filter_result f r s rest).0 ≡ next_record y
      → ((x : Record A) → r ≡ next_record x → size s < bound)
      → ((x : Record A) → r ≡ next_record x → rest.0 ≡ next_record y → size rest.1 < bound)
      → size (filter_result f r s rest).1 < bound
  unfolding filter_result
  filter_result-remaining f (next_record x) s rest y size bound e h k = elim (Keep-cases (f x)) [
    | inl (er, same) ↦ absurd (cc e)
    | inr (inl same) ↦ rw (same, filter_result) (h x refl)
    | inr (inr same) ↦ rw (same, filter_result) (k x refl (cc e))
  ]
  filter_result-remaining f next_end s rest y size bound e h k = absurd cc
  filter_result-remaining f (next_error er) s rest y size bound e h k = absurd cc

  filter_next-remaining :
      (f : FilterFunc A) (it : Iterator A) (ctx : Option ContextError)
      → IsSized ctx it
      → (fuel : ℕ) (s : it.State) (y : Record A) → (filter_next f it ctx fuel s).0 ≡ next_record y
      → it.remaining (filter_next f it ctx fuel s).1 < it.remaining s
  unfolding filter_next
  filter_next-remaining f it ctx sized zero s y e = absurd cc
  filter_next-remaining f it ctx sized (suc fuel) s y e =
      let s' = (it.next ctx s).1 in
      filter_result-remaining f (it.next ctx s).0 s' (filter_next f it ctx fuel s') y it.remaining
        (it.remaining s) e (sized s)
        (λ x e' k. omega (arith, sized s x e', filter_next-remaining f it ctx sized fuel s' y k))

  pub IsSized-filter :
      (f : FilterFunc A) (it : Iterator A) (ctx : Option ContextError)
      → IsSized ctx it
      → IsSized ctx (filter_iterator f it)
  IsSized-filter f it ctx sized s x e =
      filter_next-remaining f it ctx sized (suc (it.remaining s)) s x e

  pub after_run-map_run : (f : MapFunc A) (r : Run A) → after_run (map_result f) r ≡ map_run f r
  unfolding after_run map_result map_run run_step
  after_run-map_run f (run_record x rest) = elim (Result-cases (f x)) [
    | inl (e, same) ↦ rw (same, map_result, map_run) refl
    | inr (y, same) ↦ rw (same, map_result, map_run, after_run-map_run f rest) refl
  ]
  after_run-map_run f run_ended = refl
  after_run-map_run f (run_failed e) = refl
  after_run-map_run f run_exhausted = refl

  pub after_run-pair_run :
      (f : PairMapFunc A) (r : Run A) → after_run (pair_result f) r ≡ pair_run f r
  unfolding after_run pair_result pair_run run_step
  after_run-pair_run f (run_record x rest) = elim (Result-cases (f x)) [
    | inl (e, same) ↦ rw (same, pair_result, pair_run) refl
    | inr (y, same) ↦ rw (same, pair_result, pair_run, after_run-pair_run f rest) refl
  ]
  after_run-pair_run f run_ended = refl
  after_run-pair_run f (run_failed e) = refl
  after_run-pair_run f run_exhausted = refl

  pub after_run-value_run :
      (f : ValueMapFunc A) (r : Run A) → after_run (value_result f) r ≡ value_run f r
  unfolding after_run value_result value_run run_step
  after_run-value_run f (run_record (plain a) rest) = refl
  after_run-value_run f (run_record (key_value k v) rest) = elim (Result-cases (f v)) [
    | inl (e, same) ↦ rw (same, value_result, value_run) refl
    | inr (w, same) ↦ rw (same, value_result, value_run, after_run-value_run f rest) refl
  ]
  after_run-value_run f run_ended = refl
  after_run-value_run f (run_failed e) = refl
  after_run-value_run f run_exhausted = refl
