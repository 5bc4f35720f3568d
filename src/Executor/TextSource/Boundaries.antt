-- ===== src/Executor/TextSource/Boundaries.antt =====
-- The lines of a file with their positions, and the first line at or after an offset.
use sparkcore_go.Common.{
  none, Option, some, drop, get_elem?, ◌⊎◌, ◌∙◌, ap, ◌<◌, ◌-◌, false, length, true, zero, ◌+◌, ltb,
  suc, ◌&&◌, arith, leb, [], ◌==◌, ◌≡◌, ◌∷◌, Bool, List, ℕ, if◌then◌else◌, nat_eq, refl, Bool-cases,
  inl, inr,
}
use sparkcore_go.Executor.TextSource.{
  position_of, position_after, TextError, newline, read_string, Bytes,
}

abbrev cons_line : ℕ → List Bytes → List Bytes
cons_line b [] = (b ∷ []) ∷ []
cons_line b (l ∷ ls) = (b ∷ l) ∷ ls

-- The lines of a file, each with its newline; only the last may lack it.
abbrev pub split_lines : Bytes → List Bytes
split_lines [] = []
split_lines (b ∷ bs) =
    if b == newline then (b ∷ []) ∷ split_lines bs else cons_line b (split_lines bs)

-- The lines whose first byte is at an offset from `s` to below `e`, where `q` is that of the first.
abbrev pub between : List Bytes → ℕ → ℕ → ℕ → List Bytes
between [] q s e = []
between (l ∷ ls) q s e =
    if leb s q && ltb q e then l ∷ between ls (q + length l) s e else between ls (q + length l) s e

-- What follows the line that the bytes begin with is split on its own.
pub split-read_string :
    (b : ℕ) (bs : Bytes)
    → split_lines (b ∷ bs) ≡ (read_string (b ∷ bs)).0 ∷ split_lines (read_string (b ∷ bs)).1
unfolding read_string
split-read_string b [] = ground arith
split-read_string b (c ∷ bs) = elim (Bool-cases (b == newline)) [
  | inl h ↦ rw h refl
  | inr h ↦ rw (h, split-read_string c bs) refl
]

-- The bytes before the first line at or after `k`, and the bytes from there; `fresh` says whether
-- the bytes begin a line.
abbrev pub boundary : ℕ → Bool → Bytes → ℕ × Bytes
boundary k fresh [] = (0, [])
boundary zero true (b ∷ bs) = (0, b ∷ bs)
boundary zero false (b ∷ bs) = let (n, rest) = boundary zero (b == newline) bs in (suc n, rest)
boundary (suc k) fresh (b ∷ bs) = let (n, rest) = boundary k (b == newline) bs in (suc n, rest)

-- What follows the first newline, and the bytes up to it.
abbrev pub rest_of : Bool → Bytes → Bytes
rest_of true bs = bs
rest_of false bs = (read_string bs).1

abbrev pub skipped : Bool → Bytes → ℕ
skipped true bs = 0
skipped false bs = length (read_string bs).0

read_string-cons :
    (b : ℕ) (bs : Bytes)
    → ((read_string (b ∷ bs)).1 ≡ rest_of (b == newline) bs)
      × (length (read_string (b ∷ bs)).0 ≡ suc (skipped (b == newline) bs))
unfolding read_string
read_string-cons b bs = elim (Bool-cases (b == newline)) [
  | inl h ↦ rw h (refl, refl)
  | inr h ↦ rw h (refl, refl)
]

pub between_at : (ls : List Bytes) (i j s e : ℕ) → i ≡ j → between ls i s e ≡ between ls j s e
between_at ls i j s e h = ap (λ n. between ls n s e) h

between_skips :
    (l : Bytes) (ls : List Bytes) (q s e : ℕ)
    → q < s
    → between (l ∷ ls) q s e ≡ between ls (q + length l) s e
between_skips l ls q s e h = ground arith

-- The lines from `s` on are those from the boundary on.
abbrev pub SkipsTo : Bool → Bytes → ℕ → ℕ → ℕ → ℕ → Type 0
SkipsTo fresh bs q s k e =
    between (split_lines (rest_of fresh bs)) (q + skipped fresh bs) s e
    ≡ between (split_lines (boundary k fresh bs).1) (q + (boundary k fresh bs).0) s e

-- One byte further.
between_further :
    (b : ℕ) (bs : Bytes) (q s k e : ℕ)
    → SkipsTo (b == newline) bs (suc q) s k e
    → between (split_lines (rest_of (b == newline) bs)) (q + suc (skipped (b == newline) bs)) s e
      ≡ between
          (split_lines (boundary k (b == newline) bs).1)
          (q + suc (boundary k (b == newline) bs).0)
          s
          e
between_further b bs q s k e h =
    between_at (split_lines (rest_of (b == newline) bs)) (q + suc (skipped (b == newline) bs))
      (suc q + skipped (b == newline) bs) s e (omega arith)
    ∙ h
    ∙ between_at (split_lines (boundary k (b == newline) bs).1)
        (suc q + (boundary k (b == newline) bs).0) (q + suc (boundary k (b == newline) bs).0) s e
        (omega arith)

pub between-boundary :
    (fresh : Bool) (bs : Bytes) (q s k e : ℕ) → k ≡ s - q → SkipsTo fresh bs q s k e
unfolding read_string
between-boundary true [] q s k e h = refl
between-boundary false [] q s k e h = refl
between-boundary true (b ∷ bs) q s zero e h = refl
between-boundary false (b ∷ bs) q s zero e h =
    rw ((read_string-cons b bs).0, (read_string-cons b bs).1)
      (between_further b bs q s zero e
        (between-boundary (b == newline) bs (suc q) s zero e (omega (arith, h))))
between-boundary false (b ∷ bs) q s (suc k) e h =
    rw ((read_string-cons b bs).0, (read_string-cons b bs).1)
      (between_further b bs q s k e
        (between-boundary (b == newline) bs (suc q) s k e (omega (arith, h))))
between-boundary true (b ∷ bs) q s (suc k) e h =
    ap (λ ls. between ls (q + 0) s e) (split-read_string b bs)
    ∙ between_skips (read_string (b ∷ bs)).0 (split_lines (read_string (b ∷ bs)).1) (q + 0) s e
        (omega (arith, h))
    ∙ rw ((read_string-cons b bs).0, (read_string-cons b bs).1)
        (between_at (split_lines (rest_of (b == newline) bs))
            (q + 0 + suc (skipped (b == newline) bs)) (q + suc (skipped (b == newline) bs)) s e
            (omega arith)
          ∙ between_further b bs q s k e
              (between-boundary (b == newline) bs (suc q) s k e (omega (arith, h))))

pub boundary-fresh : (bs : Bytes) → boundary 0 true bs ≡ (0, bs)
boundary-fresh [] = refl
boundary-fresh (b ∷ bs) = refl

boundary-read_string :
    (bs : Bytes) → boundary 0 false bs ≡ (length (read_string bs).0, (read_string bs).1)
unfolding read_string
boundary-read_string [] = refl
boundary-read_string (b ∷ bs) = elim (Bool-cases (b == newline)) [
  | inl h ↦ rw (h, boundary-fresh bs) refl
  | inr h ↦ rw (h, boundary-read_string bs) refl
]

abbrev further : TextError ⊎ (ℕ × Bytes) → TextError ⊎ (ℕ × Bytes)
further (inl e) = inl e
further (inr (n, rest)) = inr (suc n, rest)

position_of-suc :
    (o : Option ℕ) (start : ℕ) (rest : Bytes)
    → position_of o (suc start) rest ≡ further (position_of o start rest)
unfolding position_of
position_of-suc none start rest = refl
position_of-suc (some b) start rest = elim (Bool-cases (b == newline)) [
  | inl h ↦ rw h refl
  | inr h ↦ rw h (ap (λ n. inr (n, (read_string rest).1)) (omega arith))
]

position_of-boundary :
    (b : ℕ) (bs : Bytes)
    → position_of (some b) 1 bs
      ≡ inr (suc (boundary 0 (b == newline) bs).0, (boundary 0 (b == newline) bs).1)
unfolding position_of
position_of-boundary b bs = elim (Bool-cases (b == newline)) [
  | inl h ↦ rw (h, boundary-fresh bs) refl
  | inr h ↦ rw (h, boundary-read_string bs) (ap (λ n. inr (n, (read_string bs).1)) (omega arith))
]

pub position_after-boundary :
    (fresh : Bool) (bs : Bytes) (start : ℕ)
    → start < length bs
    → position_after bs start ≡ inr (boundary (suc start) fresh bs)
unfolding position_after
position_after-boundary fresh [] start h = absurd (omega (arith, h))
position_after-boundary fresh (b ∷ bs) zero h = position_of-boundary b bs
position_after-boundary fresh (b ∷ bs) (suc start) h =
    position_of-suc (get_elem? bs start) (suc start) (drop (suc start) bs)
    ∙ ap further (position_after-boundary (b == newline) bs start (omega (arith, h)))

-- The lines of a file from `s` on are those from the boundary on.
pub between_file :
    (file : Bytes) (s e : ℕ)
    → between (split_lines file) 0 s e
      ≡ between (split_lines (boundary s true file).1) (boundary s true file).0 s e
between_file file s e =
    between_at (split_lines file) 0 (0 + 0) s e (omega arith)
    ∙ between-boundary true file 0 s s e (omega arith)
    ∙ between_at (split_lines (boundary s true file).1) (0 + (boundary s true file).0)
        (boundary s true file).0 s e (omega arith)
