-- ===== src/Scheduler/Fifo/Queue.antt =====
-- The queue never holds a set twice, and each of its keys is the key of a known set.
use sparkcore_go.Common.{
  sort, ◌==◌, keep_if, not, pos, int_leb, to_ℕ, ltb, inr, inl, ℤ, Option-cases, Distinct-append_one,
  ℕ, if-elim, ap, ◌≢◌, [], false, ◌∷◌, Option, All-keep_if, Bool, List, Distinct-keep_if,
  option-elim, true, String, is_some, ◌≡◌, arith, nat_eq, string_eq, none, some, All, Distinct,
  All-map, All-append,
}
use sparkcore_go.Scheduler.Fifo.Run.{
  closes, ends_context, expires, reports_failure, reports_success, offers, takes_signal, drains,
  submits, registers, Call, Externals, step, run,
}
use sparkcore_go.Scheduler.Fifo.Lifecycle.{
  end_context, close, cancel_context, take_signal, drain, submit, enqueue, admit, finish_all,
}
use sparkcore_go.Scheduler.Fifo.Prepare.{new_task_set, check_task_set}
use sparkcore_go.Scheduler.Fifo.{
  task_scheduler_closed, bad_timeout, WorkerState, WorkerStatus, FifoError, alive, lost,
  FifoTaskScheduler, TaskSetKey, task_set_key_eq, FifoTaskSet, AssignedAttempt,
}
use sparkcore_go.Scheduler.Fifo.Report.{
  obsolete, accept_success, fail_attempt, input_allowed, execution_of, report_failure,
  report_success, current, refused, ReportCheck, report_checked, failure_checked, settle,
  update_set,
}
use sparkcore_go.Scheduler.{
  succeeded, failed, TaskAttemptSuccess, TaskAttemptFailure, ContextError, TaskState,
}
use sparkcore_go.Scheduler.Output.{validate_failure, validate_for}
use sparkcore_go.Scheduler.Fifo.Expiry.{
  silent_workers, lose_attempt, lose_worker, lose_attempts, lose_workers, expire_workers,
}
use sparkcore_go.Scheduler.Fifo.Offer.{
  valid_offer, offer_resources, place, offer_to, OfferState, is_live, offer_set, offer_sets,
  offer_found, compact_queue,
}
use sparkcore_go.Plan.{TaskAttemptId, WorkerId}
use sparkcore_go.Common.Dict.{lookup-insert_self, Dict, lookup, insert, lookup-insert}
use sparkcore_go.Scheduler.Fifo.Registry.{register_worker}

module _ {V : Type 0} where
  abbrev Known : Dict TaskSetKey (FifoTaskSet V) → TaskSetKey → Type 0
  Known sets k = is_some (lookup k sets) ≡ true

  abbrev pub IsQueued : FifoTaskScheduler V → Type 0
  IsQueued s = Distinct s.queue × All (Known s.sets) s.queue

  -- No set that is known is forgotten.
  abbrev Grows : (before after : Dict TaskSetKey (FifoTaskSet V)) → Type 0
  Grows before after = (k : TaskSetKey) → Known before k → Known after k

  insert-Grows :
      (k : TaskSetKey) (x : FifoTaskSet V) (sets : Dict TaskSetKey (FifoTaskSet V))
      → Grows sets (insert k x sets)
  insert-Grows k x sets j h = ground (arith, lookup-insert k j x sets, h)

  update-Grows :
      (k : TaskSetKey) (f : FifoTaskSet V → FifoTaskSet V) (sets : Dict TaskSetKey (FifoTaskSet V))
      → Grows sets (update_set k f sets)
  unfolding update_set
  update-Grows k f sets =
      option-elim (Grows sets) (lookup k sets) (λ _ j h. h) (λ x e. insert-Grows k (f x) sets)

  offer_found-Grows :
      (run_id : String) (worker : WorkerId) (terminal : Bool) (ctx : Option ContextError)
      (k : TaskSetKey) (x : FifoTaskSet V) (sets : Dict TaskSetKey (FifoTaskSet V)) (o : OfferState)
      → Grows sets (offer_found run_id worker terminal ctx k x sets o).0
  unfolding offer_found
  offer_found-Grows r w true ctx k x sets o = λ j h. h
  offer_found-Grows r w false (some e) k x sets o = insert-Grows k _ sets
  offer_found-Grows r w false none k x sets o = insert-Grows k _ sets

  offer_sets-Grows :
      (run_id : String) (worker : WorkerId) (ks : List TaskSetKey)
      (sets : Dict TaskSetKey (FifoTaskSet V)) (o : OfferState)
      → Grows sets (offer_sets run_id worker ks sets o).0
  unfolding offer_sets offer_set
  offer_sets-Grows r w [] sets o = λ j h. h
  offer_sets-Grows r w (k ∷ ks) sets o = λ j h.
      offer_sets-Grows r w ks (offer_set r w k sets o).0 (offer_set r w k sets o).1 j (
        option-elim (λ (p : Dict TaskSetKey (FifoTaskSet V) × OfferState). Known p.0 j)
          (lookup k sets) (λ _. h) (λ x _. offer_found-Grows r w x.terminal x.ctx k x sets o j h))

  finish_all-Grows : (sets : Dict TaskSetKey (FifoTaskSet V)) → Grows sets (finish_all sets)
  unfolding finish_all lookup
  finish_all-Grows [] k h = h
  finish_all-Grows ((j, x) ∷ sets) k h = ground (arith, finish_all-Grows sets k)

  -- With the queue kept, known sets are enough.
  grown :
      (sets : Dict TaskSetKey (FifoTaskSet V)) (s : FifoTaskScheduler V)
      → Grows s.sets sets
      → IsQueued s
      → Distinct s.queue × All (Known sets) s.queue
  grown sets s g h = (h.0, All-map (Known s.sets) (Known sets) s.queue g h.1)

  settle-IsQueued :
      (s : FifoTaskScheduler V) (a : AssignedAttempt) (st : TaskState)
      (f : FifoTaskSet V → FifoTaskSet V)
      → IsQueued s
      → IsQueued (settle s a st f)
  unfolding settle
  settle-IsQueued s a st f h =
      (h.0, All-map (Known s.sets) _ s.queue (update-Grows a.set _ s.sets) h.1)

  compacted :
      (sets : Dict TaskSetKey (FifoTaskSet V)) (s : FifoTaskScheduler V)
      → Grows s.sets sets
      → IsQueued s
      → Distinct (keep_if (is_live sets) s.queue)
        × All (Known sets) (keep_if (is_live sets) s.queue)
  compacted sets s g h = (
    Distinct-keep_if (is_live sets) s.queue h.0,
    All-keep_if (Known sets) (is_live sets) s.queue
        (All-map (Known s.sets) (Known sets) s.queue g h.1),
  )

  compact-IsQueued : (s : FifoTaskScheduler V) → IsQueued s → IsQueued (compact_queue s)
  unfolding compact_queue
  compact-IsQueued s h = (
    Distinct-keep_if (is_live s.sets) s.queue h.0,
    All-keep_if (Known s.sets) (is_live s.sets) s.queue h.1,
  )

  lose_attempts-IsQueued :
      (m : WorkerId → String) (id : WorkerId) (l : List TaskAttemptId) (s : FifoTaskScheduler V)
      → IsQueued s
      → IsQueued (lose_attempts m id l s)
  unfolding lose_attempts lose_attempt
  lose_attempts-IsQueued m id [] s h = h
  lose_attempts-IsQueued m id (a ∷ l) s h =
      lose_attempts-IsQueued m id l (lose_attempt m id a s) (
        option-elim IsQueued (lookup a s.attempts) (λ _. h) (λ x _. settle-IsQueued s x failed _ h))

  lose_workers-IsQueued :
      (m : WorkerId → String) (ids : List WorkerId) (s : FifoTaskScheduler V)
      → IsQueued s
      → IsQueued (lose_workers m ids s)
  unfolding lose_workers lose_worker
  lose_workers-IsQueued m [] s h = h
  lose_workers-IsQueued m (id ∷ ids) s h =
      lose_workers-IsQueued m ids (lose_worker m id s) (elim (Option-cases (lookup id s.workers)) [
        | inl e ↦ rw (e, lose_worker) h
        | inr (w, e) ↦ rw (e, lose_worker) (lose_attempts-IsQueued m id (sort ltb w.reserved) _ h)
      ])

  -- A key that no known set has differs from every known key.
  unknown-Apart :
      (sets : Dict TaskSetKey (FifoTaskSet V)) (k : TaskSetKey) (ks : List TaskSetKey)
      → is_some (lookup k sets) ≡ false
      → All (Known sets) ks
      → All (λ j. j ≢ k) ks
  unknown-Apart sets k ks u h =
      All-map (Known sets) (λ j. j ≢ k) ks (λ j p e. cc (u, p, ap (λ i. is_some (lookup i sets)) e))
        h

  enqueue-IsQueued :
      (set : FifoTaskSet V) (s : FifoTaskScheduler V)
      → is_some (lookup set.key s.sets) ≡ false
      → IsQueued s
      → IsQueued (enqueue set s)
  unfolding enqueue
  enqueue-IsQueued set s u h =
      let new = record set { sequence = s.next_sequence } in
      (
        Distinct-append_one s.queue set.key h.0 (unknown-Apart s.sets set.key s.queue u h.1),
        All-append (Known (insert set.key new s.sets)) s.queue (set.key ∷ [])
            (All-map (Known s.sets) _ s.queue (insert-Grows set.key new s.sets) h.1)
            (ground (arith, lookup-insert_self set.key new s.sets), tt),
      )

  abbrev Returns : FifoTaskScheduler V × Option FifoError → Type 0
  Returns r = IsQueued r.0

  abbrev ReturnsWith : {R E : Type 0} → FifoTaskScheduler V × R × E → Type 0
  ReturnsWith r = IsQueued r.0

  admit-IsQueued :
      (set : FifoTaskSet V) (s : FifoTaskScheduler V) → IsQueued s → IsQueued (admit set s).0
  unfolding admit
  admit-IsQueued set s h =
      if-elim Returns s.closed (λ _. h)
        λ _.
          option-elim Returns set.ctx
            (λ _.
              if-elim Returns (is_some (lookup set.key s.sets)) (λ _. h)
                (λ u. enqueue-IsQueued set s u h))
            (λ _ _. h)

  offer_to-IsQueued :
      (st : WorkerStatus) (id : WorkerId) (w : WorkerState) (free : ℤ) (seen : List TaskAttemptId)
      (now : ℕ) (s : FifoTaskScheduler V)
      → IsQueued s
      → IsQueued (offer_to st id w free seen now s).0
  unfolding offer_to place compact_queue
  offer_to-IsQueued lost id w free seen now s h = h
  offer_to-IsQueued alive id w free seen now s h =
      if-elim ReturnsWith (valid_offer id w free seen s)
        (λ _. compacted _ s (offer_sets-Grows s.run_id id s.queue s.sets _) h) (λ _. h)

  success-IsQueued :
      (d : String) (r : TaskAttemptSuccess V) (c : ReportCheck) (s : FifoTaskScheduler V)
      → IsQueued s
      → IsQueued (report_checked d c r s).0
  unfolding report_checked
  success-IsQueued d r (refused e) s h = h
  success-IsQueued d r obsolete s h = h
  success-IsQueued d r (current a) s h =
      option-elim Returns (validate_for d r.output (execution_of a.assignment))
        (λ _. settle-IsQueued s a succeeded (accept_success r a.task) h) (λ _ _. h)

  failure-IsQueued :
      (r : TaskAttemptFailure) (c : ReportCheck) (s : FifoTaskScheduler V)
      → IsQueued s
      → IsQueued (failure_checked c r s).0
  unfolding failure_checked
  failure-IsQueued r (refused e) s h = h
  failure-IsQueued r obsolete s h = h
  failure-IsQueued r (current a) s h =
      option-elim Returns (validate_failure r.kind r.shuffle_input)
        (λ _.
          if-elim Returns (input_allowed a.assignment r.shuffle_input)
            (λ _. settle-IsQueued s a failed (fail_attempt s.max_task_attempts r a.task) h)
            (λ _. h))
        (λ _ _. h)

  expire-IsQueued :
      (x : Externals) (now : ℕ) (timeout : ℤ) (s : FifoTaskScheduler V)
      → IsQueued s
      → IsQueued (expire_workers x.text_ltb x.lost_message now timeout s).0
  unfolding expire_workers
  expire-IsQueued x now timeout s h =
      let silent = sort x.text_ltb (silent_workers now (to_ℕ timeout) s.workers) in
      if-elim ReturnsWith (int_leb timeout (pos 0)) {x = (s, [], some bad_timeout)} (λ _. h)
        λ _.
          if-elim ReturnsWith s.closed {x = (s, [], some task_scheduler_closed)}
            {y = (compact_queue (lose_workers x.lost_message silent s), silent, none)} (λ _. h)
            (λ _. compact-IsQueued _ (lose_workers-IsQueued x.lost_message silent s h))

  module _ (x : Externals) where
    step-IsQueued : (c : Call V) (s : FifoTaskScheduler V) → IsQueued s → IsQueued (step x c s).0
    unfolding step register_worker submit drain offer_resources report_success report_failure
        take_signal cancel_context close
    step-IsQueued (registers id slots now) s h = if-elim Returns s.closed (λ _. h) (λ _. h)
    step-IsQueued (submits observed ctx input) s h =
        if-elim Returns (not observed) (λ _. h)
          (λ _.
            option-elim Returns (check_task_set x.empty_digest input)
              (λ _. admit-IsQueued (new_task_set ctx input) s h) (λ _ _. h))
    step-IsQueued (drains k) s h =
        option-elim ReturnsWith (lookup k s.sets) (λ _. h)
          (λ y _. (h.0, All-map (Known s.sets) _ s.queue (insert-Grows k _ s.sets) h.1))
    step-IsQueued (takes_signal k) s h =
        grown _ s (update-Grows k (λ y. record y { wake = false }) s.sets) h
    step-IsQueued (offers id free seen now) s h =
        if-elim ReturnsWith s.closed (λ _. h)
          (λ _.
            option-elim ReturnsWith (lookup id s.workers) (λ _. h)
              (λ w _. offer_to-IsQueued w.status id w free seen now s h))
    step-IsQueued (reports_success r) s h = success-IsQueued x.empty_digest r _ s h
    step-IsQueued (reports_failure r) s h =
        if-elim Returns (r.error == "") (λ _. h) (λ _. failure-IsQueued r _ s h)
    step-IsQueued (expires now timeout) s h = expire-IsQueued x now timeout s h
    step-IsQueued (ends_context k e) s h = grown _ s (update-Grows k (end_context e) s.sets) h
    step-IsQueued closes s h = grown _ s (finish_all-Grows s.sets) h

    -- Whatever the history of calls, the queue of a scheduler holds no key twice and only keys of
    -- known sets, if it did before.
    pub run-IsQueued :
        (cs : List (Call V)) (s : FifoTaskScheduler V) → IsQueued s → IsQueued (run x cs s)
    unfolding run
    run-IsQueued [] s h = h
    run-IsQueued (c ∷ cs) s h = run-IsQueued cs (step x c s).0 (step-IsQueued c s h)
