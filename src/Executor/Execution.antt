-- ===== src/Executor/Execution.antt =====
-- The iterator of a task's operations runs as its operators, one after the other, say.
use sparkcore_go.Executor.Operators.{
  after_run, after_run-map_run, after_run-pair_run, after_run-value_run, IsStrict, run_from-after,
  run_from-filter, IsSized-after, IsSized-filter,
}
use sparkcore_go.Executor.Runs.{
  value_run, pair_run, map_run, run_step, run_from, run_exhausted, run_ended, IsSized, run_record,
  run, run_failed, reduce_run, filter_run, Run,
}
use sparkcore_go.Common.{
  ◌∙◌, ap, ◌<◌, subst, inl, ◌⊎◌, inr, ◌≡◌, [], ◌∷◌, Option, none, List, some, Bool, String, ℕ, zero,
  suc, arith, string_eq, refl, map,
}
use sparkcore_go.Scheduler.{TaskExecution, stage_operation_rdd, StageOperation, RddOperationSpec}
use sparkcore_go.Executor.Iterator.{
  next_end, next_error, next_record, slice_iterator, Record, slice_next, value_map_iterator,
  pair_map_iterator, map_iterator, after_next, filter_iterator, Next, FilterFunc, Iterator,
  value_result, pair_result, map_result,
}
use sparkcore_go.Executor.Pipeline.{
  build_task_iterator, Sources, apply_operation, with_function, apply_operations, apply_operator,
  FunctionRegistry,
}
use sparkcore_go.Executor.Reduction.{IsSized-reduce, run-reduce}
use sparkcore_go.Plan.{
  op_source, op_reduce_by_key, op_map_values, op_map_to_pair, OperatorSpec, op_filter, op_map,
  other_operator, OperatorKind,
}
use sparkcore_go.Executor.Reduce.{reduce_iterator}
use sparkcore_go.Common.Dict.{lookup}

-- The operations of a pipeline after its first.
abbrev pub rdd_operation : RddOperationSpec → StageOperation
rdd_operation o = record { kind = stage_operation_rdd; rdd = some o; shuffle_read = none }

module _ {A : Type 0} where
  -- The run stops before its fuel does.
  unfoldable pub Ends : Run A → Type 0
  Ends run_ended = Unit
  Ends (run_failed e) = Unit
  Ends run_exhausted = ⊥
  Ends (run_record x rest) = Ends rest

  unfoldable pub transform : {F : Type 0} → (F → Run A → Run A) → Option F → Run A → Option (Run A)
  transform h none r = none
  transform h (some f) r = some (h f r)

  -- What an operator makes of a run, when its function is registered.
  unfoldable pub operator_run :
      FunctionRegistry A → (String → String → Bool) → OperatorKind → String → Run A → Option (Run A)
  unfolding transform
  operator_run reg ltb op_map id r = transform map_run (lookup id reg.maps) r
  operator_run reg ltb op_filter id r = transform (λ f. filter_run f) (lookup id reg.filters) r
  operator_run reg ltb op_map_to_pair id r = transform pair_run (lookup id reg.pair_maps) r
  operator_run reg ltb op_map_values id r = transform value_run (lookup id reg.value_maps) r
  operator_run reg ltb op_reduce_by_key id r =
      transform (λ f. reduce_run ltb f) (lookup id reg.reducers) r
  operator_run reg ltb op_source id r = none
  operator_run reg ltb (other_operator k) id r = none

  unfoldable pub pipeline_run :
      FunctionRegistry A → (String → String → Bool) → List RddOperationSpec → Run A → Option (Run A)
  unfolding operator_run
  pipeline_run reg ltb [] r = some r
  pipeline_run reg ltb (o ∷ os) r =
      elim (operator_run reg ltb o.operator.kind o.operator.function_id r) [
        | none ↦ none
        | some r' ↦ pipeline_run reg ltb os r'
      ]

  -- An iterator that runs as `r`, and whose loops have the fuel they need.
  pub record RunsAs (r : Run A) (it : Iterator A) : Type 1 where
    pub same : run none it ≡ r
    pub sized : IsSized none it

  with_function-run :
      {F : Type 0} (kind : OperatorKind) (id : String) (q : Option F)
      (make : F → Iterator A → Iterator A) (h : F → Run A → Run A) (it : Iterator A)
      → ((f : F) → RunsAs (h f (run none it)) (make f it))
      → (r : Run A) → transform h q (run none it) ≡ some r
      → (it' : Iterator A) × (with_function kind id q make (some it) ≡ inr (some it'))
        × RunsAs r it'
  unfolding transform with_function
  with_function-run kind id none make h it made r e = absurd cc
  with_function-run kind id (some f) make h it made r e =
      (make f it, refl, subst (λ r. RunsAs r (make f it)) (cc e) (made f))

  after-RunsAs :
      (h : Next A → Next A) (it : Iterator A)
      → IsStrict h
      → IsSized none it
      → RunsAs (after_run h (run none it)) (after_next h it)
  unfolding run
  after-RunsAs h it strict sized = record {
    same = run_from-after h it none (suc (it.remaining it.state)) it.state strict;
    sized = IsSized-after h it none strict sized;
  }

  filter-RunsAs :
      (f : FilterFunc A) (it : Iterator A)
      → IsSized none it
      → RunsAs (filter_run f (run none it)) (filter_iterator f it)
  unfolding run
  filter-RunsAs f it sized = record {
    same =
        run_from-filter f it none sized (suc (it.remaining it.state)) (suc (it.remaining it.state))
          it.state (omega arith) (omega arith);
    sized = IsSized-filter f it none sized;
  }

  apply_operator-run :
      (reg : FunctionRegistry A) (src : Sources A) (x : TaskExecution) (kind : OperatorKind)
      (op : OperatorSpec) (it : Iterator A) (r : Run A)
      → IsSized none it
      → operator_run reg src.text_ltb kind op.function_id (run none it) ≡ some r
      → (it' : Iterator A) × (apply_operator reg src none x kind op (some it) ≡ inr (some it'))
        × RunsAs r it'
  unfolding operator_run apply_operator map_result pair_result value_result
  apply_operator-run reg src x op_map op it r sized e =
      with_function-run op_map op.function_id (lookup op.function_id reg.maps) map_iterator map_run
        it
        (λ f.
          subst (λ r. RunsAs r (after_next (map_result f) it)) (after_run-map_run f (run none it))
            (after-RunsAs (map_result f) it (refl, λ e. refl) sized))
        r e
  apply_operator-run reg src x op_filter op it r sized e =
      with_function-run op_filter op.function_id (lookup op.function_id reg.filters) filter_iterator
        filter_run it (λ f. filter-RunsAs f it sized) r e
  apply_operator-run reg src x op_map_to_pair op it r sized e =
      with_function-run op_map_to_pair op.function_id (lookup op.function_id reg.pair_maps)
        pair_map_iterator pair_run it
        (λ f.
          subst (λ r. RunsAs r (after_next (pair_result f) it)) (after_run-pair_run f (run none it))
            (after-RunsAs (pair_result f) it (refl, λ e. refl) sized))
        r e
  apply_operator-run reg src x op_map_values op it r sized e =
      with_function-run op_map_values op.function_id (lookup op.function_id reg.value_maps)
        value_map_iterator value_run it
        (λ f.
          subst (λ r. RunsAs r (after_next (value_result f) it))
            (after_run-value_run f (run none it))
            (after-RunsAs (value_result f) it (refl, λ e. refl) sized))
        r e
  apply_operator-run reg src x op_reduce_by_key op it r sized e =
      with_function-run op_reduce_by_key op.function_id (lookup op.function_id reg.reducers)
        (reduce_iterator src.text_ltb) (reduce_run src.text_ltb) it
        (λ f. record {
          same = run-reduce src.text_ltb f it sized;
          sized = IsSized-reduce src.text_ltb f it sized;
        })
        r e
  apply_operator-run reg src x op_source op it r sized e = absurd cc
  apply_operator-run reg src x (other_operator k) op it r sized e = absurd cc

  Option-run : (q : Option (Run A)) → (q ≡ none) ⊎ ((r : Run A) × (q ≡ some r))
  Option-run none = inl refl
  Option-run (some r) = inr (r, refl)

  apply_operations-run :
      (reg : FunctionRegistry A) (src : Sources A) (x : TaskExecution) (os : List RddOperationSpec)
      (it : Iterator A) (start r : Run A)
      → RunsAs start it
      → pipeline_run reg src.text_ltb os start ≡ some r
      → (it' : Iterator A) × (apply_operations reg src none x (map rdd_operation os) (some it)
          ≡ inr (some it'))
        × RunsAs r it'
  unfolding pipeline_run apply_operations apply_operation
  apply_operations-run reg src x [] it start r h e = (it, refl, subst (λ r. RunsAs r it) (cc e) h)
  apply_operations-run reg src x (o ∷ os) it start r h e =
      elim (Option-run
        (operator_run reg src.text_ltb o.operator.kind o.operator.function_id start)) [
          | inl same ↦ absurd (cc (e, same))
          | inr (r', same) ↦
              let (it', applied, h') =
                apply_operator-run reg src x o.operator.kind o.operator it r' h.sized
                  (rw (h.same) same) in
              let (it'', rest, h'') =
                apply_operations-run reg src x os it' r' r h' (cc (e, same)) in
              (it'', rw (apply_operations, applied) rest, h'')
        ]

  run_step-Ends :
      (r : Next A) (rest : Run A)
      → ((x : Record A) → r ≡ next_record x → Ends rest)
      → Ends (run_step r rest)
  unfolding run_step Ends
  run_step-Ends (next_record x) rest h = h x refl
  run_step-Ends next_end rest h = tt
  run_step-Ends (next_error e) rest h = tt

  run_from-Ends :
      (it : Iterator A) (fuel : ℕ) (s : it.State)
      → IsSized none it
      → it.remaining s < fuel
      → Ends (run_from it none fuel s)
  unfolding run_from
  run_from-Ends it zero s sized l = absurd (omega (arith, l))
  run_from-Ends it (suc fuel) s sized l =
      run_step-Ends (it.next none s).0 (run_from it none fuel (it.next none s).1)
        (λ x e. run_from-Ends it fuel (it.next none s).1 sized (omega (arith, l, sized s x e)))

  run-Ends : (it : Iterator A) → IsSized none it → Ends (run none it)
  unfolding run
  run-Ends it sized = run_from-Ends it (suc (it.remaining it.state)) it.state sized (omega arith)

  built-operations :
      (reg : FunctionRegistry A) (src : Sources A) (x : TaskExecution) (os : List StageOperation)
      (it : Iterator A)
      → x.task.operations ≡ os
      → apply_operations reg src none x os none ≡ inr (some it)
      → build_task_iterator reg src none x ≡ inr it
  unfolding build_task_iterator
  built-operations reg src x os it same h =
      let all =
        ap {A = List StageOperation} (λ l. apply_operations reg src none x l none) same ∙ h in
      rw (all, build_task_iterator) refl

  -- When the first operation of a task opens an iterator each of whose records takes its count down,
  -- the operations after it are RDD operations with registered functions, and the context does not
  -- end, the pipeline is built, reading it comes to an end, and it produces what its operators say:
  -- the records of the input mapped, filtered and reduced in order, up to the first error.
  pub build_task_iterator-run :
      (reg : FunctionRegistry A) (src : Sources A) (x : TaskExecution) (first : StageOperation)
      (os : List RddOperationSpec) (it : Iterator A) (r : Run A)
      → x.task.operations ≡ first ∷ map rdd_operation os
      → apply_operation reg src none x first none ≡ inr (some it)
      → IsSized none it
      → pipeline_run reg src.text_ltb os (run none it) ≡ some r
      → (it' : Iterator A) × (build_task_iterator reg src none x ≡ inr it')
        × (run none it' ≡ r)
        × Ends r
  unfolding build_task_iterator apply_operations
  build_task_iterator-run reg src x first os it r ops opened sized e =
      let (it', applied, h) =
        apply_operations-run reg src x os it (run none it) r record { same = refl; sized = sized }
          e in
      (
        it',
        built-operations reg src x (first ∷ map rdd_operation os) it' ops
            (rw (apply_operations, opened, applied) refl),
        h.same,
        subst Ends h.same (run-Ends it' h.sized),
      )

  pub slice-IsSized : (rs : List (Record A)) → IsSized none (slice_iterator rs)
  unfolding slice_next
  slice-IsSized rs [] x e = absurd cc
  slice-IsSized rs (r ∷ rest) x e = omega arith
