-- ===== src/Executor/TextSource/Reading.antt =====
-- The lines that an opened partition reads up to its end.
use sparkcore_go.Executor.TextSource.Boundaries.{split-read_string, split_lines, between}
use sparkcore_go.Common.{
  sym, ap, ◌∙◌, map, ◌<◌, ◌&&◌, not, zero, nat_eq, inl, int_leb, suc, ◌==◌, inr, arith, false, ◌≡◌,
  pos, [], true, ◌+◌, ◌≤◌, ◌∷◌, length, ℕ, Bool, List, refl, Bool-cases,
}
use sparkcore_go.Executor.TextSource.{
  strip_line, text_line, text_end, next_within, add_line, newline, TextIterator, read_line,
  ends_line, next_line, Bytes, read_string, read_lines,
}

pub length-read_string :
    (bs : Bytes) → length (read_string bs).0 + length (read_string bs).1 ≡ length bs
unfolding read_string
length-read_string [] = refl
length-read_string (b ∷ bs) = elim (Bool-cases (b == newline)) [
  | inl h ↦ rw h (omega arith)
  | inr h ↦ rw h (omega (arith, length-read_string bs))
]

pub read_string-head : (b : ℕ) (bs : Bytes) → (l : Bytes) × ((read_string (b ∷ bs)).0 ≡ b ∷ l)
unfolding read_string
read_string-head b bs = elim (Bool-cases (b == newline)) [
  | inl h ↦ rw h ([], refl)
  | inr h ↦ rw h ((read_string bs).0, refl)
]

-- A line without a newline is the last.
last_line :
    (b : ℕ) (bs : Bytes)
    → ends_line (read_string (b ∷ bs)).0 ≡ false
    → (read_string (b ∷ bs)).1 ≡ []
unfolding read_string ends_line
last_line b [] h = ground (arith, h)
last_line b (c ∷ bs) h = elim (Bool-cases (b == newline)) [
  | inl n ↦ ground (arith, n, h)
  | inr n ↦ let (l, e) = read_string-head c bs in rw n (last_line c bs (rw e (rw (n, e) at h)))
]

-- Only the first bound has to be tested of the lines after it.
pub between_start : (ls : List Bytes) (q s e : ℕ) → s ≤ q → between ls q s e ≡ between ls q 0 e
between_start [] q s e h = refl
between_start (l ∷ ls) q s e h = ground (arith, between_start ls (q + length l) s e (omega arith))

pub between_beyond : (ls : List Bytes) (q s e : ℕ) → e ≤ q → between ls q s e ≡ []
between_beyond [] q s e h = refl
between_beyond (l ∷ ls) q s e h = ground (arith, between_beyond ls (q + length l) s e (omega arith))

-- What a partition reads from position `q` on: up to its limit, or all in the last one.
abbrev pub owned : Bool → List Bytes → ℕ → ℕ → List Bytes
owned true ls q e = ls
owned false ls q e = between ls q 0 e

-- An iterator that has met the end of the file has nothing left.
abbrev pub text_iterator : Bytes → ℕ → ℕ → Bool → Bool → TextIterator
text_iterator rest q e last is_done = record {
  rest = rest;
  position = q;
  limit = pos e;
  last = last;
  is_done = is_done;
}

next_within-end :
    (past : Bool) (q e : ℕ) (last : Bool)
    → (next_within past (text_iterator [] q e last false)).0 ≡ text_end
unfolding next_within read_line read_string
next_within-end true q e last = refl
next_within-end false q e last = refl

read_lines-end :
    (fuel q e : ℕ) (last is_done : Bool)
    → read_lines fuel (text_iterator [] q e last is_done) ≡ inr []
unfolding read_lines next_line add_line
read_lines-end zero q e last d = refl
read_lines-end (suc fuel) q e last true = refl
read_lines-end (suc fuel) q e last false =
    rw (next_within-end (not last && int_leb (pos e) (pos q)) q e last) refl

-- The next line of a partition that has not passed its limit.
read_lines-next :
    (fuel : ℕ) (b : ℕ) (bs : Bytes) (q e : ℕ) (last : Bool)
    → not last && int_leb (pos e) (pos q) ≡ false
    → read_lines (suc fuel) (text_iterator (b ∷ bs) q e last false)
      ≡ add_line (text_line (strip_line (read_string (b ∷ bs)).0)) (
          read_lines fuel (
            text_iterator
              (read_string (b ∷ bs)).1
              (q + length (read_string (b ∷ bs)).0)
              e
              last
              (not (ends_line (read_string (b ∷ bs)).0))))
unfolding read_lines next_line next_within read_line
read_lines-next fuel b bs q e last h = let (l, at) = read_string-head b bs in rw (h, at) refl

read_lines-past :
    (fuel : ℕ) (rest : Bytes) (q e : ℕ) (last : Bool)
    → not last && int_leb (pos e) (pos q) ≡ true
    → read_lines (suc fuel) (text_iterator rest q e last false) ≡ inr []
unfolding read_lines next_line next_within add_line
read_lines-past fuel rest q e last h = rw h refl

owned-end : (q e : ℕ) (last : Bool) → owned last [] q e ≡ []
owned-end q e true = refl
owned-end q e false = refl

owned-past :
    (ls : List Bytes) (q e : ℕ) (last : Bool)
    → not last && int_leb (pos e) (pos q) ≡ true
    → owned last ls q e ≡ []
owned-past ls q e true h = absurd cc
owned-past ls q e false h = between_beyond ls q 0 e (ground (arith, h))

owned-next :
    (l : Bytes) (ls : List Bytes) (q e : ℕ) (last : Bool)
    → not last && int_leb (pos e) (pos q) ≡ false
    → owned last (l ∷ ls) q e ≡ l ∷ owned last ls (q + length l) e
owned-next l ls q e true h = refl
owned-next l ls q e false h = ground (arith, h)

owned-split :
    (b : ℕ) (bs : Bytes) (q e : ℕ) (last : Bool)
    → not last && int_leb (pos e) (pos q) ≡ false
    → owned last (split_lines (b ∷ bs)) q e
      ≡ (read_string (b ∷ bs)).0
        ∷ owned last (split_lines (read_string (b ∷ bs)).1) (q + length (read_string (b ∷ bs)).0) e
owned-split b bs q e last h =
    ap (λ ls. owned last ls q e) (split-read_string b bs)
    ∙ owned-next (read_string (b ∷ bs)).0 (split_lines (read_string (b ∷ bs)).1) q e last h

-- With fuel for every byte, the iterator returns the lines that it owns.
pub read_lines-owned :
    (fuel : ℕ) (rest : Bytes) (q e : ℕ) (last : Bool)
    → length rest < fuel
    → read_lines fuel (text_iterator rest q e last false)
      ≡ inr (map strip_line (owned last (split_lines rest) q e))
unfolding add_line
read_lines-owned zero rest q e last h = absurd (omega arith)
read_lines-owned (suc fuel) [] q e last h =
    read_lines-end (suc fuel) q e last false ∙ rw (owned-end q e last) refl
read_lines-owned (suc fuel) (b ∷ bs) q e last h =
    elim (Bool-cases (not last && int_leb (pos e) (pos q))) [
      | inl past ↦
          read_lines-past fuel (b ∷ bs) q e last past
          ∙ rw (owned-past (split_lines (b ∷ bs)) q e last past) refl
      | inr within ↦
          let line = (read_string (b ∷ bs)).0 in
          let after = (read_string (b ∷ bs)).1 in
          let tail : read_lines fuel
                (text_iterator after (q + length line) e last (not (ends_line line)))
              ≡ inr (map strip_line (owned last (split_lines after) (q + length line) e)) =
            elim (Bool-cases (ends_line line)) [
              | inl ends ↦ rw ends (
                  read_lines-owned fuel after (q + length line) e last (
                    omega (
                      arith,
                      h,
                      length-read_string (b ∷ bs),
                      ap (λ (l : Bytes). length l) (read_string-head b bs).1,
                    )))
              | inr open_end ↦ rw (last_line b bs open_end) (
                  read_lines-end fuel (q + length line) e last (not (ends_line line))
                  ∙ rw (owned-end (q + length line) e last) refl)
            ] in
          read_lines-next fuel b bs q e last within
          ∙ ap (add_line (text_line (strip_line line))) tail
          ∙ ap {A = List Bytes} (λ ls. inr (map strip_line ls))
              (sym (owned-split b bs q e last within))
    ]
