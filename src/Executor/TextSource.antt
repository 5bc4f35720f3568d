-- ===== src/Executor/TextSource.antt =====
-- executor/text_source.go: the lines of one partition of a text file. A file is the list of its
-- bytes; its size and reads do not fail here, and a path that cannot be opened is not modelled.
pub mod Boundaries
pub mod Reading
pub mod Partitions
pub mod Tests
use sparkcore_go.Common.{
  int_leb, ◌-◌, is_empty, negsuc, ltb, zero, ◌&&◌, drop, [], some, ◌/◌, ◌*◌, suc, not, inl, false,
  inr, none, length, get_elem?, pos, ◌==◌, true, ℤ, Bool, int64_wrap, ◌⊎◌, Option, List, ◌+◌, ℕ,
  ◌∷◌, if◌then◌else◌, nat_eq,
}
use sparkcore_go.Scheduler.{ContextError}

abbrev pub Bytes : Type 0
Bytes = List ℕ

abbrev pub newline : ℕ
newline = b'\n'

abbrev pub carriage_return : ℕ
carriage_return = b'\r'

-- bufio.Reader.ReadString('\n'): the line with its newline, and what follows it.
unfoldable pub read_string : Bytes → Bytes × Bytes
read_string [] = ([], [])
read_string (b ∷ bs) =
    let (line, rest) = read_string bs in if b == newline then (b ∷ [], bs) else (b ∷ line, rest)

-- strings.TrimSuffix with a suffix of one byte.
unfoldable pub trim_suffix : ℕ → Bytes → Bytes
trim_suffix s [] = []
trim_suffix s (b ∷ []) = if b == s then [] else b ∷ []
trim_suffix s (b ∷ c ∷ bs) = b ∷ trim_suffix s (c ∷ bs)

unfoldable pub strip_line : Bytes → Bytes
unfolding trim_suffix
strip_line line = trim_suffix carriage_return (trim_suffix newline line)

pub data TextError : Type 0 where
  invalid_text_partition : ℤ → ℤ → TextError
  text_canceled : ContextError → TextError
  negative_offset unexpected_end : TextError

-- textPartitionIterator; `rest` is what the reader has not returned yet.
pub record TextIterator : Type 0 where
  pub rest : Bytes
  pub position : ℕ
  pub limit : ℤ
  pub last : Bool
  pub is_done : Bool

-- Go's quotient of an int64 by a positive number, which goes towards 0.
abbrev pub int_quot : ℤ → ℕ → ℤ
int_quot (pos a) n = pos (a / n)
int_quot (negsuc a) n = if ltb (a + 1) n then pos 0 else negsuc ((a + 1) / n - 1)

-- size * int64(partition) / int64(numPartitions)
unfoldable pub partition_offset : ℕ → ℕ → ℕ → ℤ
unfolding int64_wrap
partition_offset size p n = int_quot (int64_wrap (pos (size * p))) n

-- `position` after the read of the byte before `start`: unless that ends a line, the rest of its
-- line is discarded.
unfoldable pub position_of : Option ℕ → ℕ → Bytes → TextError ⊎ (ℕ × Bytes)
unfolding read_string
position_of none start rest = inl unexpected_end
position_of (some b) start rest =
    if b == newline
    then inr (start, rest)
    else inr (start + length (read_string rest).0, (read_string rest).1)

-- The branch of `position` for the start `suc start`.
unfoldable pub position_after : Bytes → ℕ → TextError ⊎ (ℕ × Bytes)
unfolding position_of
position_after file start = position_of (get_elem? file start) (suc start) (drop (suc start) file)

-- position: the first line that starts at `start` or later. A negative offset cannot be sought.
unfoldable pub position_at : Bytes → ℤ → TextError ⊎ (ℕ × Bytes)
unfolding position_after
position_at file (pos zero) = inr (0, file)
position_at file (pos (suc start)) = position_after file start
position_at file (negsuc start) = inl negative_offset

unfoldable pub iterator_of : ℤ → Bool → TextError ⊎ (ℕ × Bytes) → TextError ⊎ TextIterator
iterator_of limit last (inl e) = inl e
iterator_of limit last (inr (p, rest)) =
    inr (record { rest = rest; position = p; limit = limit; last = last; is_done = false })

-- Open, after the test of the partition.
unfoldable pub open_valid : Bytes → ℕ → ℕ → TextError ⊎ TextIterator
unfolding partition_offset iterator_of position_at
open_valid file p n =
    iterator_of (partition_offset (length file) (suc p) n) (suc p == n)
      (position_at file (partition_offset (length file) p n))

-- Open
unfoldable pub open_text : Option ContextError → Bytes → ℤ → ℤ → TextError ⊎ TextIterator
unfolding open_valid
open_text (some e) file p n = inl (text_canceled e)
open_text none file (pos p) (pos n) =
    if ltb p n then open_valid file p n else inl (invalid_text_partition (pos p) (pos n))
open_text none file p n = inl (invalid_text_partition p n)

-- The three results of Next.
pub data TextNext : Type 0 where
  text_line : Bytes → TextNext
  text_end : TextNext
  text_error : TextError → TextNext

abbrev pub close_text : TextIterator → TextIterator
close_text it = record it { is_done = true }

-- A read without a newline at its end has met the end of the file.
unfoldable pub ends_line : Bytes → Bool
ends_line [] = false
ends_line (b ∷ []) = b == newline
ends_line (b ∷ c ∷ bs) = ends_line (c ∷ bs)

-- The read of Next.
unfoldable pub read_line : TextIterator → TextNext × TextIterator
unfolding read_string ends_line strip_line
read_line it =
    let (line, rest) = read_string it.rest in
    let it' = record it {
      rest = rest;
      position = it.position + length line;
      is_done = not (ends_line line);
    } in
    if is_empty line then (text_end, it') else (text_line (strip_line line), it')

unfoldable pub next_within : Bool → TextIterator → TextNext × TextIterator
unfolding read_line
next_within true it = (text_end, close_text it)
next_within false it = read_line it

-- Next
unfoldable pub next_line : Option ContextError → TextIterator → TextNext × TextIterator
unfolding next_within
next_line ctx it = if it.is_done then (text_end, it) else elim ctx [
  | some e ↦ (text_error (text_canceled e), close_text it)
  | none ↦ next_within (not it.last && int_leb it.limit (pos it.position)) it
]

unfoldable pub add_line : TextNext → TextError ⊎ List Bytes → TextError ⊎ List Bytes
add_line (text_line l) (inl e) = inl e
add_line (text_line l) (inr ls) = inr (l ∷ ls)
add_line text_end rest = inr []
add_line (text_error e) rest = inl e

-- The calls of Next up to the end, at most `fuel` of them.
unfoldable pub read_lines : ℕ → TextIterator → TextError ⊎ List Bytes
unfolding next_line add_line
read_lines zero it = inr []
read_lines (suc fuel) it = let (r, it') = next_line none it in add_line r (read_lines fuel it')

unfoldable pub read_opened : TextError ⊎ TextIterator → TextError ⊎ List Bytes
unfolding read_lines
read_opened (inl e) = inl e
read_opened (inr it) = read_lines (length it.rest + 1) it

-- All lines of a partition: each call of Next but the last takes a byte from the file.
unfoldable pub read_partition : Bytes → ℤ → ℤ → TextError ⊎ List Bytes
unfolding read_opened open_text
read_partition file p n = read_opened (open_text none file p n)
