-- ===== src/Executor/LocalRunner.antt =====
-- executor/local_runner.go: runTask, which runs the pipeline of a result task for its action. The
-- permits and the context of RunTask are not modelled.
use sparkcore_go.Common.{
  int_add, ◌∷◌, ◌++◌, inr, inl, ◌⊎◌, Option, pos, [], List, int64_wrap, String, ℕ, zero, suc, ℤ,
  none, some,
}
use sparkcore_go.Executor.Iterator.{
  next_end, next_error, loop_exhausted, next_record, ExecError, Record, Iterator, Next,
}
use sparkcore_go.Scheduler.{
  TaskExecution, ContextError, ActionKind, stage_result, action_collect, action_count, other_action,
  stage_shuffle_map, other_stage,
}
use sparkcore_go.Executor.Pipeline.{Sources, PipelineError, FunctionRegistry, build_task_iterator}

pub record PartitionResult (A : Type 0) : Type 0 where
  pub records : List (Record A)
  pub count : ℤ

pub data TaskError : Type 0 where
  not_result_task result_with_shuffle_write : TaskError
  unsupported_task_action : String → TaskError
  pipeline_refused : PipelineError → TaskError
  pipeline_failed : ExecError → TaskError

module _ {A : Type 0} where
  -- The switch on the action.
  unfoldable pub add_record :
      ActionKind → Record A → PartitionResult A → TaskError ⊎ PartitionResult A
  unfolding int64_wrap
  add_record action_collect x r = inr (record r { records = r.records ++ x ∷ [] })
  add_record action_count x r = inr (record r { count = int64_wrap (int_add r.count (pos 1)) })
  add_record (other_action a) x r = inl (unsupported_task_action a)

  -- The loop's body after Next; `rest` is the next turn.
  unfoldable pub gather_step :
      ActionKind
      → Next A
      → PartitionResult A
      → (PartitionResult A → TaskError ⊎ PartitionResult A)
      → TaskError ⊎ PartitionResult A
  unfolding add_record
  gather_step a (next_record x) r rest = elim (add_record a x r) [
    | inl e ↦ inl e
    | inr r' ↦ rest r'
  ]
  gather_step a next_end r rest = inr r
  gather_step a (next_error e) r rest = inl (pipeline_failed e)

  unfoldable pub gather :
      ActionKind
      → (it : Iterator A) → Option ContextError
      → ℕ
      → it.State
      → PartitionResult A
      → TaskError ⊎ PartitionResult A
  unfolding gather_step
  gather a it ctx zero s r = inl (pipeline_failed loop_exhausted)
  gather a it ctx (suc fuel) s r =
      let (x, s') = it.next ctx s in gather_step a x r (gather a it ctx fuel s')

  abbrev pub empty_result : PartitionResult A
  empty_result = record { records = []; count = pos 0 }

  unfoldable pub gather_built :
      ActionKind → Option ContextError → PipelineError ⊎ Iterator A → TaskError ⊎ PartitionResult A
  unfolding gather
  gather_built a ctx (inl e) = inl (pipeline_refused e)
  gather_built a ctx (inr it) = gather a it ctx (suc (it.remaining it.state)) it.state empty_result

  -- runTask
  unfoldable pub run_task :
      FunctionRegistry A
      → Sources A
      → Option ContextError
      → TaskExecution
      → TaskError ⊎ PartitionResult A
  unfolding gather_built build_task_iterator
  run_task reg src ctx x = elim x.task.stage_kind [
    | stage_shuffle_map ↦ inl not_result_task
    | other_stage k ↦ inl not_result_task
    | stage_result ↦ elim x.task.final_action [
      | none ↦ inl not_result_task
      | some a ↦ elim x.task.shuffle_write [
        | some w ↦ inl result_with_shuffle_write
        | none ↦ gather_built a.kind ctx (build_task_iterator reg src ctx x)
      ]
    ]
  ]
