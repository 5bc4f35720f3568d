-- ===== src/Executor/TextSource/Partitions.antt =====
-- All partitions of a file together.
use sparkcore_go.Common.{
  inl, nat_beq_iff, ◌⊎◌, nat_eq, ltb, false, map, ◌∙◌, zero, sym, ap, ◌==◌, true, inr, Bool, suc,
  ◌+◌, arith, [], pos, ◌∷◌, ◌≡◌, ◌/◌, ◌++◌, ◌^◌, ◌*◌, ◌<◌, length, ◌≤◌, ℕ, int64_wrap, List, refl,
}
use sparkcore_go.Executor.TextSource.{
  TextError, strip_line, read_opened, iterator_of, newline, open_valid, read_string, open_text,
  read_partition, position_at, Bytes, partition_offset,
}
use sparkcore_go.Executor.TextSource.Reading.{
  read_lines-owned, between_start, read_string-head, length-read_string, owned, between_beyond,
}
use sparkcore_go.Executor.TextSource.Boundaries.{
  between_file, position_after-boundary, split-read_string, boundary-fresh, boundary, split_lines,
  between,
}
use native.Mathlib.Nat.{
  le_of_mul-le-mul_right, mul-le-mul_left, mul-div_cancel, le-div_iff_mul-le, div-mul-le_self,
}

between-append :
    (ls : List Bytes) (q s m e : ℕ)
    → s ≤ m
    → m ≤ e
    → between ls q s m ++ between ls q m e ≡ between ls q s e
between-append [] q s m e h i = refl
between-append (l ∷ ls) q s m e h i =
    ground (arith, between-append ls (q + length l) s m e h i, between_beyond ls (q + length l) s m)

length-boundary :
    (k : ℕ) (fresh : Bool) (bs : Bytes)
    → (boundary k fresh bs).0 + length (boundary k fresh bs).1 ≡ length bs
length-boundary k fresh [] = omega arith
length-boundary zero true (b ∷ bs) = omega arith
length-boundary zero false (b ∷ bs) = omega (arith, length-boundary zero (b == newline) bs)
length-boundary (suc k) fresh (b ∷ bs) = omega (arith, length-boundary k (b == newline) bs)

boundary-le : (k : ℕ) (fresh : Bool) (bs : Bytes) → k ≤ length bs → k ≤ (boundary k fresh bs).0
boundary-le k fresh [] h = h
boundary-le zero fresh (b ∷ bs) h = omega arith
boundary-le (suc k) fresh (b ∷ bs) h =
    omega (arith, boundary-le k (b == newline) bs (omega (arith, h)))

-- Every line starts before the end of the file.
between_all :
    (fuel : ℕ) (bs : Bytes) (q s e : ℕ)
    → length bs < fuel
    → s ≤ q
    → q + length bs ≤ e
    → between (split_lines bs) q s e ≡ split_lines bs
between_all zero bs q s e f h i = absurd (omega arith)
between_all (suc fuel) [] q s e f h i = refl
between_all (suc fuel) (b ∷ bs) q s e f h i =
    let line = (read_string (b ∷ bs)).0 in
    let after = (read_string (b ∷ bs)).1 in
    let sizes = length-read_string (b ∷ bs) in
    let head = ap (λ (l : Bytes). length l) (read_string-head b bs).1 in
    rw (split-read_string b bs) (
      ground (
        arith,
        h,
        i,
        between_all fuel after (q + length line) s e (omega (arith, sizes, head, f))
            (omega (arith, h)) (omega (arith, sizes, i)),
      ))

-- What the partition `p` of `n` begins at.
abbrev offset : Bytes → ℕ → ℕ → ℕ
offset file p n = length file * p / n

offset-le : (file : Bytes) (p n : ℕ) → 0 < n → offset file p n ≤ offset file (suc p) n
offset-le file p n h =
    let next : p ≤ suc p = omega arith in
    (le-div_iff_mul-le h).1
      (omega (arith, div-mul-le_self (length file * p) n, mul-le-mul_left (length file) next))

offset_within : (file : Bytes) (p n : ℕ) → 0 < n → p ≤ n → offset file p n ≤ length file
offset_within file p n h i =
    le_of_mul-le-mul_right
      (omega (arith, div-mul-le_self (length file * p) n, mul-le-mul_left (length file) i)) h

offset-zero : (file : Bytes) (n : ℕ) → 0 < n → offset file 0 n ≡ 0
offset-zero file n h = ground (arith, h)

offset-all : (file : Bytes) (n : ℕ) → 0 < n → offset file n n ≡ length file
offset-all file n h = mul-div_cancel (length file) h

partition_offset-offset :
    (file : Bytes) (p n : ℕ)
    → p ≤ n
    → length file * n < 2 ^ 63
    → partition_offset (length file) p n ≡ pos (offset file p n)
unfolding partition_offset int64_wrap
partition_offset-offset file p n i l =
    let small : length file * p < 2 ^ 63 = omega (arith, l, mul-le-mul_left (length file) i) in
    ground (arith, small)

position_at-boundary :
    (file : Bytes) (s : ℕ) → s ≤ length file → position_at file (pos s) ≡ inr (boundary s true file)
unfolding position_at
position_at-boundary file zero h = ap inr (sym (boundary-fresh file))
position_at-boundary file (suc s) h = position_after-boundary true file s (omega (arith, h))

-- The lines that start from the boundary on, up to the limit or in the last partition to the end.
owned-boundary :
    (file : Bytes) (s e : ℕ) (last : Bool)
    → s ≤ length file
    → (last ≡ true → e ≡ length file)
    → owned last (split_lines (boundary s true file).1) (boundary s true file).0 e
      ≡ between (split_lines file) 0 s e
owned-boundary file s e false h f =
    sym (
      between_start (split_lines (boundary s true file).1) (boundary s true file).0 s e
        (boundary-le s true file h))
    ∙ sym (between_file file s e)
owned-boundary file s e true h f =
    let rest = (boundary s true file).1 in
    sym (
      between_all (length rest + 1) rest (boundary s true file).0 s e (omega arith)
        (boundary-le s true file h) (omega (arith, length-boundary s true file, f refl)))
    ∙ sym (between_file file s e)

-- The lines of one partition.
read_partition-between :
    (file : Bytes) (p n : ℕ)
    → p < n
    → length file * n < 2 ^ 63
    → read_partition file (pos p) (pos n)
      ≡ inr
          (map strip_line (between (split_lines file) 0 (offset file p n) (offset file (suc p) n)))
unfolding read_partition open_text open_valid iterator_of read_opened
read_partition-between file p n h l =
    let positive : 0 < n = omega (arith, h) in
    let s = offset file p n in
    let e = offset file (suc p) n in
    let inside : s ≤ length file = offset_within file p n positive (omega (arith, h)) in
    let test : ltb p n ≡ true = ground (arith, h) in
    let start = boundary s true file in
    let last = suc p == n in
    rw
      (
        partition_offset-offset file p n (omega (arith, h)) l,
        partition_offset-offset file (suc p) n (omega (arith, h)) l,
        position_at-boundary file s inside,
        test,
      )
      (read_lines-owned (length start.1 + 1) start.1 start.0 e last (omega arith)
        ∙ ap {A = List Bytes} (λ ls. inr (map strip_line ls))
            (owned-boundary file s e last inside (λ is_last.
              ap (λ k. offset file k n) ((nat_beq_iff (suc p) n).0 is_last)
              ∙ offset-all file n positive)))

abbrev pub append_read : TextError ⊎ List Bytes → TextError ⊎ List Bytes → TextError ⊎ List Bytes
append_read (inl e) r = inl e
append_read (inr ls) (inl e) = inl e
append_read (inr ls) (inr ms) = inr (ls ++ ms)

-- The lines of the `k` partitions from `p` on, in their order.
abbrev pub read_from : Bytes → ℕ → ℕ → ℕ → TextError ⊎ List Bytes
read_from file n zero p = inr []
read_from file n (suc k) p =
    append_read (read_partition file (pos p) (pos n)) (read_from file n k (suc p))

map-append_lines :
    (ls ms : List Bytes) → map strip_line ls ++ map strip_line ms ≡ map strip_line (ls ++ ms)
map-append_lines [] ms = refl
map-append_lines (l ∷ ls) ms = ap (λ xs. strip_line l ∷ xs) (map-append_lines ls ms)

between_none : (ls : List Bytes) (q s e : ℕ) → e ≤ s → between ls q s e ≡ []
between_none [] q s e h = refl
between_none (l ∷ ls) q s e h = ground (arith, between_none ls (q + length l) s e h)

read_from-between :
    (file : Bytes) (n k p : ℕ)
    → p + k ≡ n
    → length file * n < 2 ^ 63
    → read_from file n k p
      ≡ inr (map strip_line (between (split_lines file) 0 (offset file p n) (offset file n n)))
read_from-between file n zero p h l =
    ap {A = List Bytes} (λ ls. inr (map strip_line ls))
      (sym (
        between_none (split_lines file) 0 (offset file p n) (offset file n n) (
          let same : p ≡ n = omega (arith, h) in
          omega (arith, ap {A = ℕ} (λ j. offset file j n) same))))
read_from-between file n (suc k) p h l =
    let positive : 0 < n = omega (arith, h) in
    rw
      (
        read_partition-between file p n (omega (arith, h)) l,
        read_from-between file n k (suc p) (omega (arith, h)) l,
      )
      (ap inr (
          map-append_lines (between (split_lines file) 0 (offset file p n) (offset file (suc p) n))
            (between (split_lines file) 0 (offset file (suc p) n) (offset file n n)))
        ∙ ap {A = List Bytes} (λ ls. inr (map strip_line ls))
            (between-append (split_lines file) 0 (offset file p n) (offset file (suc p) n)
              (offset file n n) (offset-le file p n positive)
              (omega (
                arith,
                offset-all file n positive,
                offset_within file (suc p) n positive (omega (arith, h)),
              ))))

-- When the number of partitions is positive and the size of a text file times that number is below
-- 2 ^ 63, the partitions read in their order return every line of the file exactly once and in
-- order, each without its line ending, wherever the bounds between the partitions fall.
pub read_from-lines :
    (file : Bytes) (n : ℕ)
    → 0 < n
    → length file * n < 2 ^ 63
    → read_from file n n 0 ≡ inr (map strip_line (split_lines file))
read_from-lines file n h l =
    read_from-between file n n 0 (omega arith) l
    ∙ ap {A = List Bytes} (λ ls. inr (map strip_line ls))
        (rw (offset-zero file n h, offset-all file n h)
          (between_all (length file + 1) file 0 0 (length file) (omega arith) (omega arith)
            (omega arith)))
