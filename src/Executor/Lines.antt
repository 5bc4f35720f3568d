-- ===== src/Executor/Lines.antt =====
-- The lines of a text partition as an iterator: each takes bytes from the file, so that the loops
-- over it have the fuel they need.
use mathlib.Core.List.{map-append}
use sparkcore_go.Executor.TextSource.Partitions.{read_from-lines, read_from, append_read}
use sparkcore_go.Executor.TextSource.Boundaries.{split_lines}
use sparkcore_go.Common.{
  ap, ◌∙◌, ◌++◌, ◌*◌, sym, ◌^◌, ◌+◌, some, subst, ℤ, ℕ, map, List, ◌⊎◌, pos, int_leb, ◌&&◌, [], not,
  inr, inl, ◌==◌, Bool-cases, ◌∷◌, ◌<◌, true, ◌≤◌, false, ◌≡◌, is_empty, length, Bool, nat_eq,
  arith, refl, none, zero, suc,
}
use sparkcore_go.Executor.TextSource.{
  strip_line, open_text, read_opened, read_partition, read_lines, add_line, TextError, newline,
  text_end, text_error, text_line, TextIterator, Bytes, next_within, next_line, read_string,
  TextNext, read_line,
}
use sparkcore_go.Executor.LocalRunner.{PartitionResult, TaskError, run_task}
use sparkcore_go.Executor.Actions.{run_task-collect, with_action}
use sparkcore_go.Executor.Iterator.{
  text_open, Iterator, plain, text_iterator, next_record, record_of, Record, text_next,
}
use sparkcore_go.Scheduler.{TaskExecution, RddOperationSpec, action_collect}
use sparkcore_go.Plan.{PartitionId, op_source, RddId}
use sparkcore_go.Executor.Execution.{pipeline_run, rdd_operation}
use sparkcore_go.Executor.Pipeline.{
  open_first, Sources, apply_operator, apply_operation, FunctionRegistry,
}
use sparkcore_go.Executor.Runs.{run_from, run_step, run, slice_run, Run, IsSized}

read_string-rest : (bs : Bytes) → length (read_string bs).1 ≤ length bs
unfolding read_string
read_string-rest [] = omega arith
read_string-rest (b ∷ bs) = elim (Bool-cases (b == newline)) [
  | inl e ↦ rw e (omega arith)
  | inr e ↦ rw e (omega (arith, read_string-rest bs))
]

read_string-shorter :
    (bs : Bytes) → is_empty (read_string bs).0 ≡ false → length (read_string bs).1 < length bs
unfolding read_string
read_string-shorter [] h = absurd cc
read_string-shorter (b ∷ bs) h = elim (Bool-cases (b == newline)) [
  | inl e ↦ rw e (omega arith)
  | inr e ↦ rw e (omega (arith, read_string-rest bs))
]

-- A result that is a line.
abbrev is_line : TextNext → Bool
is_line (text_line l) = true
is_line text_end = false
is_line (text_error e) = false

read_line-shorter :
    (it : TextIterator)
    → is_line (read_line it).0 ≡ true
    → length (read_line it).1.rest < length it.rest
unfolding read_line
read_line-shorter it h = elim (Bool-cases (is_empty (read_string it.rest).0)) [
  | inl e ↦ absurd (cc (h, e))
  | inr e ↦ rw e (read_string-shorter it.rest e)
]

next_within-shorter :
    (b : Bool) (it : TextIterator)
    → is_line (next_within b it).0 ≡ true
    → length (next_within b it).1.rest < length it.rest
unfolding next_within
next_within-shorter true it h = absurd cc
next_within-shorter false it h = read_line-shorter it h

next_line-shorter :
    (it : TextIterator)
    → is_line (next_line none it).0 ≡ true
    → length (next_line none it).1.rest < length it.rest
unfolding next_line
next_line-shorter it h = elim (Bool-cases it.is_done) [
  | inl e ↦ absurd (cc (h, e))
  | inr e ↦
      simp e
        (next_within-shorter (not it.last && int_leb it.limit (pos it.position)) it (cc (h, e)))
]

record_of-is_line :
    (r : TextNext) (x : Record Bytes) → record_of r ≡ next_record x → is_line r ≡ true
record_of-is_line (text_line l) x h = refl
record_of-is_line text_end x h = absurd cc
record_of-is_line (text_error e) x h = absurd cc

pub text-IsSized : (it : TextIterator) → IsSized none (text_iterator it)
unfolding text_next
text-IsSized it s x h = next_line-shorter s (record_of-is_line (next_line none s).0 x h)

Lines-cases :
    (q : TextError ⊎ List Bytes)
    → ((e : TextError) × (q ≡ inl e)) ⊎ ((ls : List Bytes) × (q ≡ inr ls))
Lines-cases (inl e) = inl (e, refl)
Lines-cases (inr ls) = inr (ls, refl)

run_step-line :
    (r : TextNext) (q : TextError ⊎ List Bytes) (after : Run Bytes) (ls : List Bytes)
    → add_line r q ≡ inr ls
    → (is_line r ≡ true → (rest : List Bytes) → q ≡ inr rest → after ≡ slice_run (map plain rest))
    → run_step (record_of r) after ≡ slice_run (map plain ls)
unfolding add_line run_step slice_run
run_step-line (text_line l) (inl e) after ls h k = absurd cc
run_step-line (text_line l) (inr rest) after ls h k = rw (k refl rest refl) (cc h)
run_step-line text_end q after ls h k = cc h
run_step-line (text_error e) q after ls h k = absurd cc

run_from-read_lines :
    (it : TextIterator) (fuel : ℕ) (s : TextIterator) (ls : List Bytes)
    → length s.rest < fuel
    → read_lines fuel s ≡ inr ls
    → run_from (text_iterator it) none fuel s ≡ slice_run (map plain ls)
unfolding read_lines run_from text_next
run_from-read_lines it zero s ls l h = absurd (omega (arith, l))
run_from-read_lines it (suc fuel) s ls l h =
    let s' = (next_line none s).1 in
    run_step-line (next_line none s).0 (read_lines fuel s')
      (run_from (text_iterator it) none fuel s') ls h
      (λ line rest e.
        run_from-read_lines it fuel s' rest (omega (arith, l, next_line-shorter s line)) e)

run-read_partition :
    (file : Bytes) (p n : ℤ) (it : TextIterator) (ls : List Bytes)
    → open_text none file p n ≡ inr it
    → read_partition file p n ≡ inr ls
    → run none (text_iterator it) ≡ slice_run (map plain ls)
unfolding read_partition run read_opened
run-read_partition file p n it ls opened h =
    let same : length it.rest + 1 ≡ suc (length it.rest) = omega arith in
    run_from-read_lines it (suc (length it.rest)) it ls (omega arith)
      (subst (λ k. read_lines k it ≡ inr ls) same (subst (λ q. read_opened q ≡ inr ls) opened h))

-- The execution of the task of a partition.
abbrev pub on_partition : PartitionId → ℤ → TaskExecution → TaskExecution
on_partition p n x = record x { task = record x.task { partition_id = p; num_partitions = n } }

abbrev append_results :
    {A : Type 0}
    → TaskError ⊎ PartitionResult A
    → TaskError ⊎ List (Record A)
    → TaskError ⊎ List (Record A)
append_results (inl e) rest = inl e
append_results (inr r) (inl e) = inl e
append_results (inr r) (inr rs) = inr (r.records ++ rs)

-- The records of the tasks of the `k` partitions from `p` on, of `n` in all, in their order.
abbrev pub run_partitions :
    {A : Type 0}
    → FunctionRegistry A
    → Sources A
    → TaskExecution
    → ℕ
    → ℕ
    → ℕ
    → TaskError ⊎ List (Record A)
run_partitions reg src x n zero p = inr []
run_partitions reg src x n (suc k) p =
    append_results (run_task reg src none (on_partition (pos p) (pos n) x))
      (run_partitions reg src x n k (suc p))

Opened-cases :
    (q : TextError ⊎ TextIterator)
    → ((e : TextError) × (q ≡ inl e)) ⊎ ((it : TextIterator) × (q ≡ inr it))
Opened-cases (inl e) = inl (e, refl)
Opened-cases (inr it) = inr (it, refl)

read_partition-opens :
    (file : Bytes) (p n : ℤ) (ls : List Bytes)
    → read_partition file p n ≡ inr ls
    → (it : TextIterator) × (open_text none file p n ≡ inr it)
unfolding read_partition read_opened
read_partition-opens file p n ls h = elim (Opened-cases (open_text none file p n)) [
  | inl (e, same) ↦ absurd (cc (h, same))
  | inr opened ↦ opened
]

source-opens :
    (reg : FunctionRegistry Bytes) (src : Sources Bytes) (x : TaskExecution) (op : RddOperationSpec)
    (it : Iterator Bytes)
    → op.operator.kind ≡ op_source
    → src.open_source none op.operator.source_path x.task.partition_id x.task.num_partitions
      ≡ inr (some it)
    → apply_operation reg src none x (rdd_operation op) none ≡ inr (some it)
unfolding apply_operation apply_operator open_first
source-opens reg src x op it kind opened = rw (kind, apply_operator, opened) refl

append_read-parts :
    (q r : TextError ⊎ List Bytes) (ls : List Bytes)
    → append_read q r ≡ inr ls
    → (as_read : List Bytes) × (rest : List Bytes) × (q ≡ inr as_read)
      × (r ≡ inr rest)
      × (as_read ++ rest ≡ ls)
append_read-parts (inl e) r ls h = absurd cc
append_read-parts (inr xs) (inl e) ls h = absurd cc
append_read-parts (inr xs) (inr ys) ls h = (xs, ys, refl, refl, cc h)

module _ (reg : FunctionRegistry Bytes) (src : Sources Bytes) (file : Bytes)
    (op : RddOperationSpec) where
  -- A task that only reads its source collects the lines of its partition.
  run_task-partition :
      (x : TaskExecution) (target : RddId) (ls : List Bytes)
      → x.task.operations ≡ rdd_operation op ∷ []
      → op.operator.kind ≡ op_source
      → ((p n : ℤ)
          → src.open_source none op.operator.source_path p n
            ≡ text_open file none op.operator.source_path p n)
      → read_partition file x.task.partition_id x.task.num_partitions ≡ inr ls
      → run_task reg src none (with_action action_collect target x)
        ≡ inr record { records = map plain ls; count = pos 0 }
  unfolding text_open pipeline_run
  run_task-partition x target ls ops kind source lines =
      let p = x.task.partition_id in
      let n = x.task.num_partitions in
      let (it, opened) = read_partition-opens file p n ls lines in
      run_task-collect reg src x (rdd_operation op) [] (text_iterator it) (map plain ls) target ops
        (source-opens reg src x op (text_iterator it) kind
          (source p n ∙ rw (opened, text_open) refl))
        (text-IsSized it)
        (ap {A = Run Bytes} (λ r. some r) (run-read_partition file p n it ls opened lines))

  run_partitions-read_from :
      (x : TaskExecution) (target : RddId)
      → x.task.operations ≡ rdd_operation op ∷ []
      → op.operator.kind ≡ op_source
      → ((p n : ℤ)
          → src.open_source none op.operator.source_path p n
            ≡ text_open file none op.operator.source_path p n)
      → (n k p : ℕ) (ls : List Bytes) → read_from file n k p ≡ inr ls
      → run_partitions reg src (with_action action_collect target x) n k p ≡ inr (map plain ls)
  run_partitions-read_from x target ops kind source n zero p ls h =
      let same : [] ≡ ls = cc h in ap {A = List Bytes} (λ l. inr (map plain l)) same
  run_partitions-read_from x target ops kind source n (suc k) p ls h =
      let (now, rest, read, more, same) =
        append_read-parts (read_partition file (pos p) (pos n)) (read_from file n k (suc p)) ls h in
      rw
        (
          run_task-partition (on_partition (pos p) (pos n) x) target now ops kind source read,
          run_partitions-read_from x target ops kind source n k (suc p) rest more,
        )
        (ap {A = List (Record Bytes)} (λ l. inr l) (sym (map-append plain now rest))
          ∙ ap {A = List Bytes} (λ l. inr (map plain l)) same)

-- When the source of a result task is a text file, the number of partitions is positive and the
-- size of the file times that number is below 2 ^ 63, the tasks that read one partition each and
-- collect it return, in the order of their partitions, every line of the file exactly once and in
-- order, each without its line ending, when the context does not end.
pub run_partitions-lines :
    (reg : FunctionRegistry Bytes) (src : Sources Bytes) (file : Bytes) (op : RddOperationSpec)
    (x : TaskExecution) (target : RddId) (n : ℕ)
    → x.task.operations ≡ rdd_operation op ∷ []
    → op.operator.kind ≡ op_source
    → ((p k : ℤ)
        → src.open_source none op.operator.source_path p k
          ≡ text_open file none op.operator.source_path p k)
    → 0 < n
    → length file * n < 2 ^ 63
    → run_partitions reg src (with_action action_collect target x) n n 0
      ≡ inr (map plain (map strip_line (split_lines file)))
run_partitions-lines reg src file op x target n ops kind source h l =
    run_partitions-read_from reg src file op x target ops kind source n n 0
      (map strip_line (split_lines file)) (read_from-lines file n h l)
