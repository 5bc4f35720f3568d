-- ===== src/Protocol/Admission.antt =====
-- An assignment that the protocol accepts passes the executor's own check of its shuffle read.
use sparkcore_go.Protocol.Pipelines.{
  refuse-part, find_read-found, check_operations-parts, or_else-parts,
}
use sparkcore_go.Protocol.Assignment.{
  unexpected_shuffle_inputs, validate_execution, check_target, partition_out_of_range,
  identity_mismatch, check_pipeline, validate_assignment, reduce_by_key_missing, shuffle_read_shape,
  is_map_stage, second_reduces, check_stage_kind, check_shuffle_read, check_inputs,
  check_operations,
}
use sparkcore_go.Common.{
  Bool-cases, subst, int_leb, pos, int_ltb, [], is_some, ◌∷◌, ◌==◌, ◌||◌, inr, List, inl, not, ◌⊎◌,
  true, some, false, none, ◌≡◌, Option, string_eq, nat_eq, int_eq, arith, refl,
}
use sparkcore_go.Executor.ShuffleRead.{
  validate_shuffle_execution, check_found, second_is_reduce, is_result_stage, check_read, find_read,
}
use sparkcore_go.Plan.{StageId, RddId}
use sparkcore_go.Scheduler.{
  stage_result, stage_shuffle_map, other_stage, ActionSpec, ShuffleWriteSpec, StageKind,
  TaskExecution, ShuffleReadSpec, StageOperation,
}
use sparkcore_go.Shuffle.Input.{validate_input}
use sparkcore_go.Shuffle.{InputSnapshot, InvalidShuffle}
use sparkcore_go.Scheduler.Kinds.{is_shuffle_read}
use sparkcore_go.Protocol.{Library, refuse, or_else}

module _ (lib : Library) where
  -- A task with shuffle inputs runs a result stage.
  check_stage_kind-inputs :
      (k : StageKind) (w : Option ShuffleWriteSpec) (a : Option ActionSpec) (s : InputSnapshot)
      → check_stage_kind lib k w a (some s) ≡ none
      → (is_result_stage k ≡ true) × (is_some w ≡ false) × (is_some a ≡ true)
  unfolding check_stage_kind
  check_stage_kind-inputs stage_shuffle_map none a s h = absurd cc
  check_stage_kind-inputs stage_shuffle_map (some w) none s h = absurd cc
  check_stage_kind-inputs stage_shuffle_map (some w) (some a) s h = absurd cc
  check_stage_kind-inputs stage_result none none s h = absurd cc
  check_stage_kind-inputs stage_result none (some a) s h = (refl, refl, refl)
  check_stage_kind-inputs stage_result (some w) a s h = absurd cc
  check_stage_kind-inputs (other_stage k) w a s h = absurd cc

  Invalid-cases : (q : Option InvalidShuffle) → (q ≡ none) ⊎ ((x : InvalidShuffle) × (q ≡ some x))
  Invalid-cases none = inl refl
  Invalid-cases (some x) = inr (x, refl)

  check_inputs-read :
      (e : TaskExecution) (read : ShuffleReadSpec) (s : InputSnapshot)
      → check_inputs lib e read s ≡ none
      → int_ltb e.task.partition_id (pos 0) || int_leb e.task.num_partitions e.task.partition_id
        ≡ false
      → check_read lib.empty_digest true e read (some s) ≡ none
  unfolding check_inputs check_read refuse
  check_inputs-read e read s h range = elim (Invalid-cases (validate_input lib.empty_digest s)) [
    | inl v ↦ ground (arith, h, v, range)
    | inr (x, v) ↦ absurd (cc (h, v))
  ]

  -- A shuffle read at the front of a pipeline that was accepted.
  check_shuffle_read-parts :
      (e : TaskExecution) (o : StageOperation) (q : Option ShuffleReadSpec)
      (inputs : Option InputSnapshot)
      → check_shuffle_read lib e o q inputs ≡ none
      → (read : ShuffleReadSpec) × (s : InputSnapshot) × (q ≡ some read)
        × (inputs ≡ some s)
        × (is_some o.rdd ≡ false)
        × (check_inputs lib e read s ≡ none)
        × (second_reduces e.task.operations ≡ true)
  unfolding check_shuffle_read
  check_shuffle_read-parts e o none inputs h = absurd cc
  check_shuffle_read-parts e o (some read) none h = absurd cc
  check_shuffle_read-parts e o (some read) (some s) h =
      let shape = refuse (is_map_stage e.task.stage_kind || is_some o.rdd) shuffle_read_shape in
      let second = refuse (not (second_reduces e.task.operations)) reduce_by_key_missing in
      let (ok, rest) = or_else-parts shape (or_else (check_inputs lib e read s) second) h in
      let (inputs, reduced) = or_else-parts (check_inputs lib e read s) second rest in
      let no_rdd =
        refuse-part (is_map_stage e.task.stage_kind || is_some o.rdd) shuffle_read_shape ok in
      let found =
        refuse-part (not (second_reduces e.task.operations)) reduce_by_key_missing reduced in
      (read, s, refl, refl, ground (arith, no_rdd), inputs, ground (arith, found))

  assignment-parts :
      (stage : StageId) (e : TaskExecution)
      → validate_assignment lib stage e ≡ none
      → (int_ltb e.task.partition_id (pos 0) || int_leb e.task.num_partitions e.task.partition_id
          ≡ false)
        × (check_stage_kind lib e.task.stage_kind e.task.shuffle_write e.task.final_action
              e.shuffle_inputs
            ≡ none)
        × (check_pipeline lib e e.task.operations ≡ none)
  unfolding validate_assignment
  assignment-parts stage e h =
      let t = e.task in
      let identity =
        refuse (not (e.attempt.task_id == t.id) || not (stage == t.stage_id)) identity_mismatch in
      let out =
        int_leb t.num_partitions (pos 0)
        || int_ltb t.partition_id (pos 0)
        || int_leb t.num_partitions t.partition_id in
      let range = refuse out partition_out_of_range in
      let kind =
        check_stage_kind lib t.stage_kind t.shuffle_write t.final_action e.shuffle_inputs in
      let pipeline = check_pipeline lib e t.operations in
      let rest = or_else pipeline (check_target t) in
      let h1 =
        (or_else-parts (validate_execution lib e)
          (or_else identity (or_else range (or_else kind rest))) h).1 in
      let h2 = (or_else-parts identity (or_else range (or_else kind rest)) h1).1 in
      let (r, h3) = or_else-parts range (or_else kind rest) h2 in
      let (k, h4) = or_else-parts kind rest h3 in
      (
        ground (arith, refuse-part out partition_out_of_range r),
        k,
        (or_else-parts pipeline (check_target t) h4).0,
      )

  second-reduce :
      (o : StageOperation) (seen : List RddId) (os : List StageOperation)
      → check_operations lib true 1 seen os ≡ none
      → second_reduces (o ∷ os) ≡ true
      → second_is_reduce (o ∷ os) ≡ true
  second-reduce o seen [] h r = absurd cc
  second-reduce o seen (b ∷ bs) h r = rw ((check_operations-parts lib true 1 seen b bs h).1) r

  is_some-false : {T : Type 0} (q : Option T) → is_some q ≡ false → q ≡ none
  is_some-false none h = refl
  is_some-false (some x) h = absurd cc

  -- A pipeline that reads a shuffle.
  reading-accepted :
      (e : TaskExecution) (o : StageOperation) (os : List StageOperation)
      → e.task.operations ≡ o ∷ os
      → int_ltb e.task.partition_id (pos 0) || int_leb e.task.num_partitions e.task.partition_id
        ≡ false
      → check_stage_kind lib e.task.stage_kind e.task.shuffle_write e.task.final_action
          e.shuffle_inputs
        ≡ none
      → is_shuffle_read o.kind ≡ true
      → check_shuffle_read lib e o o.shuffle_read e.shuffle_inputs ≡ none
      → check_operations lib true 1 [] os ≡ none
      → check_found lib.empty_digest true e (find_read 0 none (o ∷ os)) ≡ none
  unfolding check_found find_read
  reading-accepted e o os ops range kind sh read_ok rest =
      let (read, s, at, inputs, no_rdd, checked, second) =
        check_shuffle_read-parts e o o.shuffle_read e.shuffle_inputs read_ok in
      let (result, no_write, has_action) =
        check_stage_kind-inputs e.task.stage_kind e.task.shuffle_write e.task.final_action s (
          subst
            (λ i.
              check_stage_kind lib e.task.stage_kind e.task.shuffle_write e.task.final_action i
              ≡ none)
            inputs kind) in
      let reduced = second-reduce o [] os rest (subst (λ l. second_reduces l ≡ true) ops second) in
      rw
        (
          sh,
          at,
          is_some-false o.rdd no_rdd,
          find_read-found lib (some read) 1 [] os rest,
          result,
          no_write,
          has_action,
          ops,
          reduced,
          inputs,
        )
        (check_inputs-read e read s checked range)

  pipeline-accepted :
      (e : TaskExecution) (os : List StageOperation)
      → e.task.operations ≡ os
      → int_ltb e.task.partition_id (pos 0) || int_leb e.task.num_partitions e.task.partition_id
        ≡ false
      → check_stage_kind lib e.task.stage_kind e.task.shuffle_write e.task.final_action
          e.shuffle_inputs
        ≡ none
      → check_pipeline lib e os ≡ none
      → check_found lib.empty_digest true e (find_read 0 none os) ≡ none
  unfolding check_pipeline check_found
  pipeline-accepted e [] ops range kind h = absurd cc
  pipeline-accepted e (o ∷ os) ops range kind h = elim (Bool-cases (is_shuffle_read o.kind)) [
    | inl sh ↦
        let (read_ok, rest) =
          or_else-parts (check_shuffle_read lib e o o.shuffle_read e.shuffle_inputs)
            (check_operations lib true 1 [] os) (ground (arith, h, sh)) in
        reading-accepted e o os ops range kind sh read_ok rest
    | inr sh ↦
        let (inputs, rest) =
          or_else-parts (refuse (is_some e.shuffle_inputs) unexpected_shuffle_inputs)
            (check_operations lib false 0 [] (o ∷ os)) (ground (arith, h, sh)) in
        rw
          (
            find_read-found lib none 0 [] (o ∷ os) rest,
            refuse-part (is_some e.shuffle_inputs) unexpected_shuffle_inputs inputs,
          )
          refl
  ]

  -- An assignment that the protocol's validation accepts passes the executor's own validation of
  -- the shuffle read, on a worker with a shuffle store, whether or not it reads a shuffle.
  pub validate_assignment-validate_shuffle_execution :
      (stage : StageId) (e : TaskExecution)
      → validate_assignment lib stage e ≡ none
      → validate_shuffle_execution lib.empty_digest true e ≡ none
  unfolding validate_shuffle_execution
  validate_assignment-validate_shuffle_execution stage e h =
      let (range, kind, pipeline) = assignment-parts stage e h in
      pipeline-accepted e e.task.operations refl range kind pipeline
