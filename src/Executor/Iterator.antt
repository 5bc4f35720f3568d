-- ===== src/Executor/Iterator.antt =====
-- executor/iterator.go, record.go and the function types of function_registry.go: records and the
-- iterators that produce them. `A` is the type of the values that are no KeyValue. The context is
-- `none`, or the error that it has ended with, for a whole call of Next.
use sparkcore_go.Common.{
  ℤ, false, [], none, true, ◌∷◌, zero, inr, Bool, some, length, inl, ◌⊎◌, String, List, suc, Option,
  ℕ,
}
use sparkcore_go.Plan.{PartitionId}
use sparkcore_go.Executor.TextSource.{
  open_text, text_end, text_error, text_line, TextNext, Bytes, TextError, next_line, TextIterator,
}
use sparkcore_go.Scheduler.{ContextError}

pub data Record (A : Type 0) : Type 0 where
  plain : A → Record A
  key_value : String → Record A → Record A

pub data ExecError : Type 0 where
  canceled : ContextError → ExecError
  function_failed : String → ExecError
  text_failed : TextError → ExecError
  reduce_key_failed : String → ExecError → ExecError
  map_values_expected reduce_expected loop_exhausted : ExecError

-- The three results of Next.
pub data Next (A : Type 0) : Type 0 where
  next_record : Record A → Next A
  next_end : Next A
  next_error : ExecError → Next A

abbrev pub MapFunc : Type 0 → Type 0
MapFunc A = Record A → ExecError ⊎ Record A

abbrev pub FilterFunc : Type 0 → Type 0
FilterFunc A = Record A → ExecError ⊎ Bool

abbrev pub PairMapFunc : Type 0 → Type 0
PairMapFunc A = Record A → ExecError ⊎ (String × Record A)

abbrev pub ValueMapFunc : Type 0 → Type 0
ValueMapFunc A = Record A → ExecError ⊎ Record A

abbrev pub ReduceFunc : Type 0 → Type 0
ReduceFunc A = Record A → Record A → ExecError ⊎ Record A

-- The interface Iterator: a value of its own type and Next on it. `remaining` bounds the records
-- that are still to come; only the fuel of the loops over Next reads it.
pub record Iterator (A : Type 0) : Type 1 where
  pub State : Type 0
  pub state : State
  pub next : Option ContextError → State → Next A × State
  pub remaining : State → ℕ

module _ {A : Type 0} where
  -- The records that are left, from the field `next` on.
  unfoldable pub slice_next : Option ContextError → List (Record A) → Next A × List (Record A)
  slice_next (some e) rs = (next_error (canceled e), rs)
  slice_next none [] = (next_end, [])
  slice_next none (r ∷ rs) = (next_record r, rs)

  abbrev pub slice_iterator : List (Record A) → Iterator A
  slice_iterator rs = record {
    State = List (Record A);
    state = rs;
    next = slice_next;
    remaining = length;
  }

  abbrev pub next_of : ExecError ⊎ Record A → Next A
  next_of (inl e) = next_error e
  next_of (inr r) = next_record r

  -- The body of mapIterator.Next after the input's.
  unfoldable pub map_result : MapFunc A → Next A → Next A
  map_result f (next_record r) = next_of (f r)
  map_result f next_end = next_end
  map_result f (next_error e) = next_error e

  unfoldable pub pair_result : PairMapFunc A → Next A → Next A
  pair_result f (next_record r) = elim (f r) [
    | inl e ↦ next_error e
    | inr (k, v) ↦ next_record (key_value k v)
  ]
  pair_result f next_end = next_end
  pair_result f (next_error e) = next_error e

  unfoldable pub value_result : ValueMapFunc A → Next A → Next A
  value_result f (next_record (key_value k v)) = elim (f v) [
    | inl e ↦ next_error e
    | inr w ↦ next_record (key_value k w)
  ]
  value_result f (next_record (plain a)) = next_error map_values_expected
  value_result f next_end = next_end
  value_result f (next_error e) = next_error e

  -- An iterator whose Next is one call of the input's and a function of what it returns.
  abbrev pub after_next : (Next A → Next A) → Iterator A → Iterator A
  after_next h it = record it { next = λ ctx s. let (r, s') = it.next ctx s in (h r, s') }

  abbrev pub map_iterator : MapFunc A → Iterator A → Iterator A
  map_iterator f it = after_next (map_result f) it

  abbrev pub pair_map_iterator : PairMapFunc A → Iterator A → Iterator A
  pair_map_iterator f it = after_next (pair_result f) it

  abbrev pub value_map_iterator : ValueMapFunc A → Iterator A → Iterator A
  value_map_iterator f it = after_next (value_result f) it

  -- The body of the loop of filterIterator.Next after the input's; `rest` is the next turn.
  unfoldable pub filter_result : {S : Type 0} → FilterFunc A → Next A → S → Next A × S → Next A × S
  filter_result f (next_record x) s rest = elim (f x) [
    | inl e ↦ (next_error e, s)
    | inr true ↦ (next_record x, s)
    | inr false ↦ rest
  ]
  filter_result f next_end s rest = (next_end, s)
  filter_result f (next_error e) s rest = (next_error e, s)

  -- The loop of filterIterator.Next.
  unfoldable pub filter_next :
      FilterFunc A → (it : Iterator A) → Option ContextError → ℕ → it.State → Next A × it.State
  unfolding filter_result
  filter_next f it ctx zero s = (next_error loop_exhausted, s)
  filter_next f it ctx (suc fuel) s =
      let (r, s') = it.next ctx s in filter_result f r s' (filter_next f it ctx fuel s')

  abbrev pub filter_iterator : FilterFunc A → Iterator A → Iterator A
  filter_iterator f it = record it { next = λ ctx s. filter_next f it ctx (suc (it.remaining s)) s }

abbrev pub record_of : TextNext → Next Bytes
record_of (text_line l) = next_record (plain l)
record_of text_end = next_end
record_of (text_error e) = next_error (text_failed e)

-- The lines of a partition as records.
unfoldable pub text_next : Option ContextError → TextIterator → Next Bytes × TextIterator
unfolding next_line
text_next ctx it = let (r, it') = next_line ctx it in (record_of r, it')

abbrev pub text_iterator : TextIterator → Iterator Bytes
text_iterator it = record {
  State = TextIterator;
  state = it;
  next = text_next;
  remaining = λ s. length s.rest;
}

-- TextSourceReader.Open on a path that names a file with these bytes.
unfoldable pub text_open :
    Bytes → Option ContextError → String → PartitionId → ℤ → ExecError ⊎ Option (Iterator Bytes)
unfolding open_text
text_open file ctx path p n = elim (open_text ctx file p n) [
  | inl e ↦ inl (text_failed e)
  | inr it ↦ inr (some (text_iterator it))
]
