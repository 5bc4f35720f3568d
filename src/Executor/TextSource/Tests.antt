-- ===== src/Executor/TextSource/Tests.antt =====
-- A file of four lines in three partitions.
use sparkcore_go.Common.{arith, map, [], inr, pos, ◌∷◌, ◌≡◌, refl}
use sparkcore_go.Executor.TextSource.Partitions.{read_from-lines, read_from}
use sparkcore_go.Executor.TextSource.Boundaries.{split_lines}
use sparkcore_go.Executor.TextSource.{strip_line, newline, carriage_return, Bytes, read_partition}

abbrev pub file : Bytes
file = b'a' ∷ b'b' ∷ carriage_return ∷ newline ∷ b'c' ∷ newline ∷ newline ∷ b'd' ∷ b'e' ∷ []

first_partition : read_partition file (pos 0) (pos 3) ≡ inr ((b'a' ∷ b'b' ∷ []) ∷ [])
unfolding read_partition
first_partition = refl

second_partition : read_partition file (pos 1) (pos 3) ≡ inr ((b'c' ∷ []) ∷ [])
unfolding read_partition
second_partition = refl

last_partition : read_partition file (pos 2) (pos 3) ≡ inr ([] ∷ (b'd' ∷ b'e' ∷ []) ∷ [])
unfolding read_partition
last_partition = refl

read_from-lines_example : read_from file 3 3 0 ≡ inr (map strip_line (split_lines file))
read_from-lines_example = read_from-lines file 3 (omega arith) (omega arith)
