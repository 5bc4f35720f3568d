-- ===== src/Executor/Actions.antt =====
-- What a result task returns, from what its operators say.
use sparkcore_go.Executor.Pipeline.{
  apply_operator, apply_operation, build_task_iterator, Sources, FunctionRegistry,
}
use sparkcore_go.Scheduler.{
  TaskExecution, RddOperationSpec, StageOperation, stage_result, other_action, ContextError,
  ActionKind, action_collect, action_count,
}
use sparkcore_go.Executor.Execution.{build_task_iterator-run, pipeline_run, rdd_operation}
use sparkcore_go.Executor.Runs.{
  IsSized, run, run_exhausted, run_ended, run_failed, run_record, Run, run_step, run_from,
  slice_run,
}
use sparkcore_go.Executor.LocalRunner.{
  empty_result, gather_built, run_task, pipeline_failed, TaskError, PartitionResult, add_record,
  gather, gather_step,
}
use sparkcore_go.Common.{
  none, some, ◌∙◌, ap, arith, pos, inl, ◌^◌, ◌∷◌, ◌<◌, ◌++◌, ◌⊎◌, inr, length, ◌+◌, [], ◌≡◌, Option,
  List, int64_wrap, ℕ, zero, suc, refl, map, ℤ, sym,
}
use sparkcore_go.Plan.{RddId}
use sparkcore_go.Executor.Iterator.{
  loop_exhausted, next_end, next_error, next_record, Record, Next, Iterator,
}
use mathlib.Core.List.{append-nil, append_assoc}

int64_wrap-small : (n : ℕ) → n < 2 ^ 63 → int64_wrap (pos n) ≡ pos n
unfolding int64_wrap
int64_wrap-small n l = ground (arith, l)

-- An execution of a result task for an action.
abbrev pub with_action : ActionKind → RddId → TaskExecution → TaskExecution
with_action a target x = record x {
  task = record x.task {
    stage_kind = stage_result;
    final_action = some record { kind = a; target_rdd = target };
    shuffle_write = none;
  };
}

module _ {A : Type 0} where
  -- The records of a run without an error.
  unfoldable pub gather_run : ActionKind → Run A → PartitionResult A → TaskError ⊎ PartitionResult A
  unfolding gather_step
  gather_run a (run_record x rest) r = gather_step a (next_record x) r (gather_run a rest)
  gather_run a run_ended r = inr r
  gather_run a (run_failed e) r = inl (pipeline_failed e)
  gather_run a run_exhausted r = inl (pipeline_failed loop_exhausted)

  gather_step-run :
      (a : ActionKind) (x : Next A) (r : PartitionResult A)
      (rest : PartitionResult A → TaskError ⊎ PartitionResult A) (after : Run A)
      → ((q : PartitionResult A) → rest q ≡ gather_run a after q)
      → gather_step a x r rest ≡ gather_run a (run_step x after) r
  unfolding gather_step gather_run run_step add_record
  gather_step-run action_collect (next_record x) r rest after h = h _
  gather_step-run action_count (next_record x) r rest after h = h _
  gather_step-run (other_action k) (next_record x) r rest after h = refl
  gather_step-run a next_end r rest after h = refl
  gather_step-run a (next_error e) r rest after h = refl

  gather-run :
      (a : ActionKind) (it : Iterator A) (ctx : Option ContextError) (fuel : ℕ) (s : it.State)
      (r : PartitionResult A)
      → gather a it ctx fuel s r ≡ gather_run a (run_from it ctx fuel s) r
  unfolding gather run_from gather_run
  gather-run a it ctx zero s r = refl
  gather-run a it ctx (suc fuel) s r =
      let s' = (it.next ctx s).1 in
      gather_step-run a (it.next ctx s).0 r (gather a it ctx fuel s') (run_from it ctx fuel s')
        (gather-run a it ctx fuel s')

  gather_run-collect :
      (rs : List (Record A)) (seen : List (Record A)) (n : ℤ)
      → gather_run action_collect (slice_run rs) record { records = seen; count = n }
        ≡ inr record { records = seen ++ rs; count = n }
  unfolding gather_run slice_run gather_step add_record
  gather_run-collect [] seen n =
      ap {A = List (Record A)} (λ l. inr record { records = l; count = n }) (sym (append-nil seen))
  gather_run-collect (x ∷ rs) seen n =
      gather_run-collect rs (seen ++ x ∷ []) n
      ∙ ap {A = List (Record A)} (λ l. inr record { records = l; count = n })
          (append_assoc seen (x ∷ []) rs)

  gather_run-count :
      (rs : List (Record A)) (n : ℕ)
      → n + length rs < 2 ^ 63
      → gather_run action_count (slice_run rs) record { records = []; count = pos n }
        ≡ inr record { records = []; count = pos (n + length rs) }
  unfolding gather_run slice_run gather_step add_record
  gather_run-count [] n l =
      ap {A = ℕ} (λ k. inr record { records = []; count = pos k }) (omega arith)
  gather_run-count (x ∷ rs) n l = rw (int64_wrap-small (n + 1) (omega (arith, l))) (
      gather_run-count rs (n + 1) (omega (arith, l))
      ∙ ap {A = ℕ} (λ k. inr record { records = []; count = pos k }) (omega arith))

  gather_built-run :
      (a : ActionKind) (it : Iterator A)
      → gather_built a none (inr it) ≡ gather_run a (run none it) empty_result
  unfolding gather_built run
  gather_built-run a it = gather-run a it none (suc (it.remaining it.state)) it.state empty_result

  run_task-run :
      (reg : FunctionRegistry A) (src : Sources A) (x : TaskExecution) (a : ActionKind)
      (target : RddId) (it : Iterator A) (r : Run A)
      → build_task_iterator reg src none (with_action a target x) ≡ inr it
      → run none it ≡ r
      → run_task reg src none (with_action a target x) ≡ gather_run a r empty_result
  unfolding run_task
  run_task-run reg src x a target it r built same =
      rw (built, run_task, gather_built-run a it, same) refl

  -- The operations of an execution do not read its action.
  action-operation :
      (reg : FunctionRegistry A) (src : Sources A) (x : TaskExecution) (a : ActionKind)
      (target : RddId) (o : StageOperation) (it : Option (Iterator A))
      → apply_operation reg src none (with_action a target x) o it
        ≡ apply_operation reg src none x o it
  unfolding apply_operation apply_operator
  action-operation reg src x a target o it = refl

  run_task-gathers :
      (reg : FunctionRegistry A) (src : Sources A) (x : TaskExecution) (first : StageOperation)
      (os : List RddOperationSpec) (it : Iterator A) (rs : List (Record A)) (a : ActionKind)
      (target : RddId)
      → x.task.operations ≡ first ∷ map rdd_operation os
      → apply_operation reg src none x first none ≡ inr (some it)
      → IsSized none it
      → pipeline_run reg src.text_ltb os (run none it) ≡ some (slice_run rs)
      → run_task reg src none (with_action a target x) ≡ gather_run a (slice_run rs) empty_result
  run_task-gathers reg src x first os it rs a target ops opened sized e =
      let (it', built, same, ends) =
        build_task_iterator-run reg src (with_action a target x) first os it (slice_run rs) ops
          (action-operation reg src x a target first none ∙ opened) sized e in
      run_task-run reg src x a target it' (slice_run rs) built same

  pub run_task-collect :
      (reg : FunctionRegistry A) (src : Sources A) (x : TaskExecution) (first : StageOperation)
      (os : List RddOperationSpec) (it : Iterator A) (rs : List (Record A)) (target : RddId)
      → x.task.operations ≡ first ∷ map rdd_operation os
      → apply_operation reg src none x first none ≡ inr (some it)
      → IsSized none it
      → pipeline_run reg src.text_ltb os (run none it) ≡ some (slice_run rs)
      → run_task reg src none (with_action action_collect target x)
        ≡ inr record { records = rs; count = pos 0 }
  run_task-collect reg src x first os it rs target ops opened sized e =
      run_task-gathers reg src x first os it rs action_collect target ops opened sized e
      ∙ gather_run-collect rs [] (pos 0)

  -- For a result task whose first operation opens an iterator each of whose records takes its count
  -- down, whose other operations are RDD operations with registered functions, and of whose input
  -- its operators make fewer than 2 ^ 63 records without an error, when the context does not end:
  -- the action collect returns these records in their order, and the action count their number.
  pub run_task-actions :
      (reg : FunctionRegistry A) (src : Sources A) (x : TaskExecution) (first : StageOperation)
      (os : List RddOperationSpec) (it : Iterator A) (rs : List (Record A)) (target : RddId)
      → x.task.operations ≡ first ∷ map rdd_operation os
      → apply_operation reg src none x first none ≡ inr (some it)
      → IsSized none it
      → pipeline_run reg src.text_ltb os (run none it) ≡ some (slice_run rs)
      → length rs < 2 ^ 63
      → (run_task reg src none (with_action action_collect target x)
          ≡ inr record { records = rs; count = pos 0 })
        × (run_task reg src none (with_action action_count target x)
            ≡ inr record { records = []; count = pos (length rs) })
  run_task-actions reg src x first os it rs target ops opened sized e l = (
    run_task-collect reg src x first os it rs target ops opened sized e,
    run_task-gathers reg src x first os it rs action_count target ops opened sized e
        ∙ gather_run-count rs 0 (omega (arith, l))
        ∙ ap {A = ℕ} (λ k. inr record { records = []; count = pos k }) (omega arith),
  )
