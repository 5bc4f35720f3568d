-- ===== src/Scheduler/Generator/Numbering.antt =====
-- The position of every task among the tasks that generate_tasks returns.
use sparkcore_go.Common.{
  int_ltb, negsuc, false, pos, int_leb, int_add, int64_wrap, ℤ, ◌^◌, ◌∙◌, zero, ap, [],
  length-append, inr, suc, ◌+◌, arith, some, ◌∷◌, length, All, ◌≡◌, ◌++◌, to_ℕ, get_elem?, ◌<◌,
  List, ℕ, refl,
}
use sparkcore_go.Scheduler.Generator.{
  stage_task, stage_tasks, generate_tasks, check_stages, partition_tasks,
}
use sparkcore_go.Scheduler.{Task, StagePlan, Stage}

-- The partitions of the stages together.
abbrev pub partitions : List Stage → ℕ
partitions [] = 0
partitions (s ∷ ss) = to_ℕ s.num_partitions + partitions ss

length-partition_tasks : (s : Stage) (n p id : ℕ) → length (partition_tasks s n p id) ≡ n
unfolding partition_tasks
length-partition_tasks s zero p id = refl
length-partition_tasks s (suc n) p id = ap suc (length-partition_tasks s n (suc p) (suc id))

length-stage_tasks : (ss : List Stage) (id : ℕ) → length (stage_tasks ss id) ≡ partitions ss
unfolding stage_tasks
length-stage_tasks [] id = refl
length-stage_tasks (s ∷ ss) id = omega (
  arith,
  length-append (partition_tasks s (to_ℕ s.num_partitions) 0 id)
      (stage_tasks ss (id + to_ℕ s.num_partitions)),
  length-partition_tasks s (to_ℕ s.num_partitions) 0 id,
  length-stage_tasks ss (id + to_ℕ s.num_partitions),
)

stage_task_at :
    (s : Stage) (p q i j : ℕ) → p ≡ q → i ≡ j → some (stage_task s p i) ≡ some (stage_task s q j)
stage_task_at s p q i j e f = rw (e, f) refl

get_elem?-partition_tasks :
    (s : Stage) (n p id k : ℕ)
    → k < n
    → get_elem? (partition_tasks s n p id) k ≡ some (stage_task s (p + k) (id + k))
unfolding partition_tasks
get_elem?-partition_tasks s zero p id k h = absurd (omega arith)
get_elem?-partition_tasks s (suc n) p id zero h =
    stage_task_at s p (p + 0) id (id + 0) (omega arith) (omega arith)
get_elem?-partition_tasks s (suc n) p id (suc k) h =
    get_elem?-partition_tasks s n (suc p) (suc id) k (omega arith)
    ∙ stage_task_at s (suc p + k) (p + suc k) (suc id + k) (id + suc k) (omega arith) (omega arith)

get_elem?-append_left {ℓ} :
    {A : Type ℓ} (xs ys : List A) (k : ℕ) → k < length xs → get_elem? (xs ++ ys) k ≡ get_elem? xs k
get_elem?-append_left [] ys k h = absurd (omega arith)
get_elem?-append_left (x ∷ xs) ys zero h = refl
get_elem?-append_left (x ∷ xs) ys (suc k) h = get_elem?-append_left xs ys k (omega arith)

get_elem?-append_right {ℓ} :
    {A : Type ℓ} (xs ys : List A) (n k : ℕ)
    → n ≡ length xs + k
    → get_elem? (xs ++ ys) n ≡ get_elem? ys k
get_elem?-append_right [] ys n k e = ap (get_elem? ys) (omega (arith, e))
get_elem?-append_right (x ∷ xs) ys zero k e = absurd (omega (arith, e))
get_elem?-append_right (x ∷ xs) ys (suc n) k e = get_elem?-append_right xs ys n k (omega (arith, e))

get_elem?-stage_tasks :
    (before after : List Stage) (s : Stage) (id k n : ℕ)
    → k < to_ℕ s.num_partitions
    → n ≡ partitions before + k
    → get_elem? (stage_tasks (before ++ (s ∷ after)) id) n ≡ some (stage_task s k (id + n))
unfolding stage_tasks
get_elem?-stage_tasks [] after s id k n h e =
    get_elem?-append_left (partition_tasks s (to_ℕ s.num_partitions) 0 id)
      (stage_tasks after (id + to_ℕ s.num_partitions)) n
      (omega (arith, e, h, length-partition_tasks s (to_ℕ s.num_partitions) 0 id))
    ∙ get_elem?-partition_tasks s (to_ℕ s.num_partitions) 0 id n (omega (arith, e, h))
    ∙ stage_task_at s (0 + n) k (id + n) (id + n) (omega (arith, e)) refl
get_elem?-stage_tasks (b ∷ before) after s id k n h e =
    get_elem?-append_right (partition_tasks b (to_ℕ b.num_partitions) 0 id)
      (stage_tasks (before ++ (s ∷ after)) (id + to_ℕ b.num_partitions)) n (partitions before + k)
      (omega (arith, e, length-partition_tasks b (to_ℕ b.num_partitions) 0 id))
    ∙ get_elem?-stage_tasks before after s (id + to_ℕ b.num_partitions) k (partitions before + k) h
        refl
    ∙ stage_task_at s k k (id + to_ℕ b.num_partitions + (partitions before + k)) (id + n) refl
        (omega (arith, e))

not_negative : (n : ℕ) → int_ltb (pos n) (pos 0) ≡ false
not_negative n = ground arith

positive : (n : ℤ) → 0 < to_ℕ n → int_leb n (pos 0) ≡ false
positive (pos n) h = ground (arith, h)
positive (negsuc n) h = absurd (omega (arith, h))

added :
    (n : ℕ) (k : ℤ)
    → 0 < to_ℕ k
    → n + to_ℕ k < 2 ^ 63
    → int64_wrap (int_add (pos n) k) ≡ pos (n + to_ℕ k)
unfolding int64_wrap
added n (pos k) h l = ground (arith, l)
added n (negsuc k) h l = absurd (omega (arith, h))

-- Below 2 ^ 63 partitions the count does not wrap.
check_stages-total :
    (ss : List Stage) (n : ℕ)
    → All (λ s. 0 < to_ℕ s.num_partitions) ss
    → n + partitions ss < 2 ^ 63
    → check_stages (pos n) ss ≡ inr (pos (n + partitions ss))
unfolding check_stages
check_stages-total [] n h l = ap {A = ℕ} (λ k. inr (pos k)) (omega arith)
check_stages-total (s ∷ ss) n h l =
    rw
      (positive s.num_partitions h.0, added n s.num_partitions h.0 (omega (arith, l)), check_stages)
      (check_stages-total ss (n + to_ℕ s.num_partitions) h.1 (omega (arith, l))
        ∙ ap {A = ℕ} (λ k. inr (pos k)) (omega arith))

-- When every stage has a partition and there are fewer than 2 ^ 63 in all, generate_tasks succeeds,
-- with one task for each partition of each stage: the task of partition k of a stage stands after
-- the tasks of the earlier stages, its id is its position, its partition is k, and the stage's id,
-- kind, partition count, operations, shuffle write and final action are its own.
pub generate_tasks_complete :
    (p : StagePlan)
    → All (λ s. 0 < to_ℕ s.num_partitions) p.stages
    → partitions p.stages < 2 ^ 63
    → (ts : List Task) × (generate_tasks p ≡ inr ts)
      × (length ts ≡ partitions p.stages)
      × ((before after : List Stage) (s : Stage) (k : ℕ)
          → p.stages ≡ before ++ (s ∷ after)
          → k < to_ℕ s.num_partitions
          → get_elem? ts (partitions before + k)
            ≡ some record {
              id = partitions before + k;
              stage_id = s.id;
              stage_kind = s.kind;
              partition_id = pos k;
              num_partitions = s.num_partitions;
              operations = s.operations;
              shuffle_write = s.shuffle_write;
              final_action = s.final_action;
            })
unfolding generate_tasks
generate_tasks_complete p h l = (
  stage_tasks p.stages 0,
  rw
      (
        check_stages-total p.stages 0 h (omega (arith, l)),
        generate_tasks,
        not_negative (0 + partitions p.stages),
      )
      refl,
  length-stage_tasks p.stages 0,
  λ before after s k e l.
      rw e (get_elem?-stage_tasks before after s 0 k (partitions before + k) l refl)
      ∙ stage_task_at s k k (0 + (partitions before + k)) (partitions before + k) refl
          (omega arith),
)
