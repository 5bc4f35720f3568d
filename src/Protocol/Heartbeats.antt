-- ===== src/Protocol/Heartbeats.antt =====
-- What a heartbeat that is accepted promises to the scheduler.
use sparkcore_go.Common.{
  subst, negsuc, ◌≤◌, ◌+◌, int_add, inr, ◌||◌, length, int_leb, inl, some, Bool-cases, pos, Option,
  int_ltb, none, ℤ, nat_beq_iff, false, [], ◌≡◌, ◌≢◌, ◌∷◌, contains, List, ℕ, nat_eq, arith, refl,
  Distinct, All,
}
use sparkcore_go.Protocol.{
  or_else, free_slots_negative, worker_id_empty, capacity_exceeded, refuse, running_count,
  HeartbeatRequest, validate_worker, validate_heartbeat, check_running_list, check_running,
  validate_capacity, Library,
}
use sparkcore_go.Plan.{TaskAttemptId}
use sparkcore_go.Protocol.Pipelines.{or_else-parts, refuse-part}

abbrev pub NotIn : List TaskAttemptId → List TaskAttemptId → Type 0
NotIn seen = All (λ id. contains seen id ≡ false)

pub NotIn-cons :
    (id : TaskAttemptId) (seen ids : List TaskAttemptId)
    → NotIn (id ∷ seen) ids
    → All (λ j. id ≢ j) ids × NotIn seen ids
NotIn-cons id seen [] h = (tt, tt)
NotIn-cons id seen (j ∷ ids) h =
    let (other, fresh) = NotIn-cons id seen ids h.1 in
    ((ground (arith, h.0, nat_beq_iff id j), other), (ground (arith, h.0), fresh))

module _ (lib : Library) where
  check_running-Distinct :
      (seen ids : List TaskAttemptId)
      → check_running lib seen ids ≡ none
      → Distinct ids × NotIn seen ids
  unfolding check_running
  check_running-Distinct seen [] h = (tt, tt)
  check_running-Distinct seen (id ∷ ids) h = elim (Bool-cases (contains seen id)) [
    | inl e ↦ absurd (cc (h, e))
    | inr e ↦
        let (distinct, fresh) = check_running-Distinct (id ∷ seen) ids (ground (arith, h, e)) in
        let (other, unseen) = NotIn-cons id seen ids fresh in ((other, distinct), (e, unseen))
  ]

  check_running_list-Distinct :
      (q : Option (List TaskAttemptId))
      → check_running_list lib q ≡ none
      → (ids : List TaskAttemptId) × (q ≡ some ids) × Distinct ids
  unfolding check_running_list
  check_running_list-Distinct none h = absurd cc
  check_running_list-Distinct (some ids) h = (ids, refl, (check_running-Distinct [] ids h).0)

  -- For integers: neither is negative, and what runs and what is free fits into the total.
  capacity-cases :
      (free total : ℤ) (n : ℕ)
      → int_ltb free (pos 0) ≡ false
      → int_leb total (pos 0) || int_ltb total free || int_ltb total (int_add (pos n) free) ≡ false
      → (f : ℕ) × (t : ℕ) × (free ≡ pos f) × (total ≡ pos t) × (n + f ≤ t)
  capacity-cases (pos f) (pos t) n h k = (f, t, refl, refl, ground (arith, k))
  capacity-cases (pos f) (negsuc t) n h k = absurd (ground (arith, k))
  capacity-cases (negsuc f) total n h k = absurd (ground (arith, h))

  -- A heartbeat that is accepted for a worker of a given capacity names a worker and lists running
  -- attempts that are pairwise different; these and the free slots, of which there are no less than
  -- zero, are together no more than the capacity.
  pub validate_capacity-fits :
      (r : HeartbeatRequest) (total : ℤ)
      → validate_capacity lib r total ≡ none
      → (lib.is_blank r.worker_id ≡ false)
        × ((ids : List TaskAttemptId) × (f : ℕ) × (t : ℕ) × (r.running_attempt_ids ≡ some ids)
            × (r.free_slots ≡ pos f)
            × (total ≡ pos t)
            × Distinct ids
            × (length ids + f ≤ t))
  unfolding validate_capacity validate_heartbeat validate_worker
  validate_capacity-fits r total h =
      let over =
        int_leb total (pos 0)
        || int_ltb total r.free_slots
        || int_ltb total (int_add (running_count r.running_attempt_ids) r.free_slots) in
      let (beat, fits) =
        or_else-parts (validate_heartbeat lib r) (refuse over (capacity_exceeded total)) h in
      let named = refuse (lib.is_blank r.worker_id) worker_id_empty in
      let free = refuse (int_ltb r.free_slots (pos 0)) free_slots_negative in
      let list = check_running_list lib r.running_attempt_ids in
      let (worker, rest) = or_else-parts named (or_else free list) beat in
      let (positive, listed) = or_else-parts free list rest in
      let (ids, same, distinct) = check_running_list-Distinct r.running_attempt_ids listed in
      let (f, t, ef, et, l) =
        capacity-cases r.free_slots total (length ids)
          (refuse-part (int_ltb r.free_slots (pos 0)) free_slots_negative positive)
          (subst
            (λ q.
              (int_leb total (pos 0)
                || int_ltb total r.free_slots
                || int_ltb total (int_add (running_count q) r.free_slots))
              ≡ false)
            same (refuse-part over (capacity_exceeded total) fits)) in
      (
        refuse-part (lib.is_blank r.worker_id) worker_id_empty worker,
        (ids, f, t, same, ef, et, distinct, l),
      )
