-- ===== src/Scheduler/Fifo/Sorted.antt =====
-- Tasks stay in partition order: `prepareTaskSet` sorts them, and no call reorders them.
use sparkcore_go.Scheduler.Fifo.Prepare.{
  check_task_set, logical_task, new_task_set, insert_task, check_tasks, sort_tasks,
}
use sparkcore_go.Common.{
  option-elim, pos, negsuc, int_beq_iff, true, false, zero, All-map, arith, if-elim, ◌≢◌, [],
  contains, suc, ◌≡◌, All, ℕ, ◌∷◌, map, String, int_ltb, ℤ, List, nat_eq, int_eq, refl, none,
}
use sparkcore_go.Scheduler.Fifo.Report.{
  set_output, set_task_state, release_task, accept_success, update_task, fail_attempt,
}
use sparkcore_go.Scheduler.Fifo.{finish, FifoTaskScheduler, FifoTaskSet, LogicalTask}
use sparkcore_go.Scheduler.{
  pending, failed, succeeded, TaskAttemptFailure, TaskAttemptSuccess, Task, TaskSet,
}
use sparkcore_go.Plan.{WorkerId, PartitionId, StageId, TaskId}
use sparkcore_go.Scheduler.Fifo.Offer.{assign_task, OfferState, assign_tasks}
use sparkcore_go.Scheduler.Fifo.Run.{Call, Externals, run}
use sparkcore_go.Scheduler.Fifo.Sets.{IsKept, run-Keeps, AllSets}

abbrev Before : Task → Task → Type 0
Before t u = int_ltb t.partition_id u.partition_id ≡ true

-- Each partition below all that follow.
abbrev pub Ascending : List Task → Type 0
Ascending [] = Unit
Ascending (t ∷ ts) = All (Before t) ts × Ascending ts

-- The same of the partitions, in no order.
abbrev Apart : List Task → Type 0
Apart [] = Unit
Apart (t ∷ ts) = All (λ u. t.partition_id ≢ u.partition_id) ts × Apart ts

int_ltb_trans : (a b c : ℤ) → int_ltb a b ≡ true → int_ltb b c ≡ true → int_ltb a c ≡ true
int_ltb_trans (pos a) (pos b) (pos c) h k = ground arith
int_ltb_trans (negsuc a) (pos b) (pos c) h k = refl
int_ltb_trans (negsuc a) (negsuc b) (pos c) h k = refl
int_ltb_trans (negsuc a) (negsuc b) (negsuc c) h k = ground arith
int_ltb_trans (pos a) (negsuc b) c h k = cc
int_ltb_trans (pos a) (pos b) (negsuc c) h k = cc
int_ltb_trans (negsuc a) (pos b) (negsuc c) h k = cc

int_ltb-connex : (a b : ℤ) → int_ltb a b ≡ false → a ≢ b → int_ltb b a ≡ true
int_ltb-connex (pos a) (pos b) h n = ground arith
int_ltb-connex (negsuc a) (negsuc b) h n = ground arith
int_ltb-connex (pos a) (negsuc b) h n = refl
int_ltb-connex (negsuc a) (pos b) h n = cc

All-insert_task :
    (P : Task → Type 0) (t : Task) (us : List Task) → P t → All P us → All P (insert_task t us)
unfolding insert_task
All-insert_task P t [] p h = (p, tt)
All-insert_task P t (u ∷ us) p h =
    if-elim (All P) (int_ltb t.partition_id u.partition_id) (λ _. (p, h))
      (λ _. (h.0, All-insert_task P t us p h.1))

insert_task-Ascending :
    (t : Task) (us : List Task)
    → All (λ u. t.partition_id ≢ u.partition_id) us
    → Ascending us
    → Ascending (insert_task t us)
unfolding insert_task
insert_task-Ascending t [] n h = (tt, tt)
insert_task-Ascending t (u ∷ us) n h =
    if-elim Ascending (int_ltb t.partition_id u.partition_id)
      (λ b. (
        (
          b,
          All-map (Before u) (Before t) us
              (λ v q. int_ltb_trans t.partition_id u.partition_id v.partition_id b q) h.0,
        ),
        h,
      ))
      (λ b. (
        All-insert_task (Before u) t us (int_ltb-connex t.partition_id u.partition_id b n.0) h.0,
        insert_task-Ascending t us n.1 h.1,
      ))

All-sort_tasks : (P : Task → Type 0) (ts : List Task) → All P ts → All P (sort_tasks ts)
unfolding sort_tasks
All-sort_tasks P [] h = tt
All-sort_tasks P (t ∷ ts) h = All-insert_task P t (sort_tasks ts) h.0 (All-sort_tasks P ts h.1)

sort_tasks-Ascending : (ts : List Task) → Apart ts → Ascending (sort_tasks ts)
unfolding sort_tasks
sort_tasks-Ascending [] h = tt
sort_tasks-Ascending (t ∷ ts) h =
    insert_task-Ascending t (sort_tasks ts) (All-sort_tasks _ ts h.0) (sort_tasks-Ascending ts h.1)

unseen_head : (p q : ℤ) (ps : List ℤ) → contains (p ∷ ps) q ≡ false → p ≢ q
unseen_head p q ps h e = ground (arith, int_beq_iff p q)

unseen_tail : (p q : ℤ) (ps : List ℤ) → contains (p ∷ ps) q ≡ false → contains ps q ≡ false
unseen_tail p q ps h = ground arith

-- What the loop over the tasks accepts has partitions apart from each other and from those seen.
check_tasks-Apart :
    (stage : StageId) (ids : List TaskId) (partitions : List PartitionId) (ts : List Task)
    → check_tasks stage ids partitions ts ≡ none
    → Apart ts × All (λ u. contains partitions u.partition_id ≡ false) ts
unfolding check_tasks
check_tasks-Apart stage ids partitions [] h = (tt, tt)
check_tasks-Apart stage ids partitions (t ∷ ts) h =
    let rest =
      check_tasks-Apart stage (t.id ∷ ids) (t.partition_id ∷ partitions) ts (ground arith) in
    (
      (
        All-map _ (λ (u : Task). t.partition_id ≢ u.partition_id) ts
            (λ u q. unseen_head t.partition_id u.partition_id partitions q) rest.1,
        rest.0,
      ),
      (
        ground arith,
        All-map _ (λ (u : Task). contains partitions u.partition_id ≡ false) ts
            (λ u q. unseen_tail t.partition_id u.partition_id partitions q) rest.1,
      ),
    )

checked-Apart : (d : String) (input : TaskSet) → check_task_set d input ≡ none → Apart input.tasks
unfolding check_task_set
checked-Apart d input h = (check_tasks-Apart input.stage_id [] [] input.tasks (ground arith)).0

module _ {V : Type 0} where
  abbrev task_list : List (LogicalTask V) → List Task
  task_list = map (λ t. t.task)

  abbrev pub IsSorted : FifoTaskSet V → Type 0
  IsSorted set = Ascending (task_list set.tasks)

  task_list-assign :
      (run_id : String) (worker : WorkerId) (x : FifoTaskSet V) (i : ℕ) (ts : List (LogicalTask V))
      (o : OfferState)
      → task_list (assign_tasks run_id worker x i ts o).0 ≡ task_list ts
  unfolding assign_tasks assign_task
  task_list-assign r w x i [] o = refl
  task_list-assign r w x i (t ∷ ts) o =
      ground (arith, task_list-assign r w x (suc i) ts (assign_task r w x i t o).1)

  task_list-update :
      (i : ℕ) (f : LogicalTask V → LogicalTask V) (ts : List (LogicalTask V))
      → ((t : LogicalTask V) → (f t).task ≡ t.task)
      → task_list (update_task i f ts) ≡ task_list ts
  unfolding update_task
  task_list-update i f [] h = refl
  task_list-update zero f (t ∷ ts) h = rw h
  task_list-update (suc i) f (t ∷ ts) h = rw (task_list-update i f ts h)

  task_list-accept :
      (r : TaskAttemptSuccess V) (i : ℕ) (x : FifoTaskSet V)
      → task_list (accept_success r i (release_task i succeeded x)).tasks ≡ task_list x.tasks
  unfolding accept_success release_task
  task_list-accept r i x =
      let released = task_list-update i (set_task_state succeeded) x.tasks (λ t. refl) in
      let ts = update_task i (set_task_state succeeded) x.tasks in
      ground (arith, released, task_list-update i (set_output r.output) ts (λ t. refl))

  task_list-fail :
      (max : ℕ) (r : TaskAttemptFailure) (i : ℕ) (x : FifoTaskSet V)
      → task_list (fail_attempt max r i (release_task i failed x)).tasks ≡ task_list x.tasks
  unfolding fail_attempt release_task
  task_list-fail max r i x =
      let released = task_list-update i (set_task_state failed) x.tasks (λ t. refl) in
      let ts = update_task i (set_task_state failed) x.tasks in
      ground (arith, released, task_list-update i (set_task_state pending) ts (λ t. refl))

task_list-fresh : (V : Type 0) (ts : List Task) → task_list (map (logical_task {V = V}) ts) ≡ ts
unfolding logical_task
task_list-fresh V [] = refl
task_list-fresh V (t ∷ ts) = rw (task_list-fresh V ts)

module _ {V : Type 0} where
  IsSorted-kept : (max : ℕ) → IsKept {V = V} max IsSorted
  IsSorted-kept max = record {
    fresh = λ d ctx input n e.
        unfold new_task_set in
        rw (task_list-fresh V (sort_tasks input.tasks))
          (sort_tasks-Ascending input.tasks (checked-Apart d input e));
    finished = λ e x p. unfold finish in if-elim IsSorted x.terminal (λ _. p) (λ _. p);
    assigned = λ r w o x p. rw (task_list-assign r w x 0 x.tasks o) p;
    accepted = λ r i x p. rw (task_list-accept r i x) p;
    retired = λ r i x p. rw (task_list-fail max r i x) p;
    drained = λ x p. p;
    signalled = λ x p. p;
    ended = λ e x p. option-elim IsSorted x.ctx (λ _. p) (λ _ _. p);
  }

-- After any history of calls on a scheduler whose sets list their tasks by ascending partition, every
-- set still does, the sets that were submitted on the way included.
pub run-IsSorted :
    {V : Type 0} (x : Externals) (cs : List (Call V)) (s : FifoTaskScheduler V)
    → AllSets IsSorted s.sets
    → AllSets IsSorted (run x cs s).sets
run-IsSorted x cs s all =
    (run-Keeps s.max_task_attempts IsSorted (IsSorted-kept s.max_task_attempts) x cs s
      (refl, all)).1
