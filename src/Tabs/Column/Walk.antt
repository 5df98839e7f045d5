-- ===== src/Tabs/Column/Walk.antt =====
-- The loops of `ColOfFreeIdx` and `FreeIdxOfCol` (fbuf_edit.cpp) against the column of an index,
-- defined on the text alone.
use k_edit.Prelude.{ℕ, zero, suc, ◌+◌, ◌-◌, ◌≤◌, ◌<◌, [], ◌∷◌, length, ◌≡◌, refl, arith}
use k_edit.Tabs.{Text, next_col}
use k_edit.Tabs.Stops.{lt-next_col}
use k_edit.Tabs.Column.{col_walk, col_of_free_idx, idx_walk, col_of_idx}
use native.Mathlib.Decide.{dec_lt}

-- The column at which the character number `i` of a text starts, if the text starts at `col`. Behind
-- the end of the text every character is one column wide.
abbrev pub col_from : ℕ → ℕ → Text → ℕ → ℕ
col_from tw col [] i = col + i
col_from tw col (c ∷ s) zero = col
col_from tw col (c ∷ s) (suc i) = col_from tw (next_col tw c col) s i

pub col_from_zero : (tw col : ℕ) (s : Text) → col_from tw col s 0 ≡ col
col_from_zero tw col [] = omega arith
col_from_zero tw col (c ∷ s) = refl

pub col_walk_lem :
    (tw len : ℕ) (s : Text) (ix i col : ℕ)
    → ix + length s ≡ len
    → col_walk tw len s ix (ix + i) col ≡ col_from tw col s i
unfolding col_walk
col_walk_lem tw len [] ix i col h = omega arith
col_walk_lem tw len (c ∷ s) ix zero col h = ground arith
col_walk_lem tw len (c ∷ s) ix (suc i) col h =
    let e : ix + suc i ≡ ix + 1 + i = omega arith in
    rw e (ground (arith, col_walk_lem tw len s (ix + 1) i (next_col tw c col)))

pub col_of_idx_lem : (tw : ℕ) (s : Text) (i : ℕ) → col_of_idx tw s i ≡ col_from tw 0 s i
unfolding col_of_free_idx
col_of_idx_lem tw s i = ground (arith, col_walk_lem tw (length s) s 0 i 0)

pub le-col_from : (tw col : ℕ) (s : Text) (i : ℕ) → 0 < tw → col ≤ col_from tw col s i
le-col_from tw col [] i p = omega arith
le-col_from tw col (c ∷ s) zero p = omega arith
le-col_from tw col (c ∷ s) (suc i) p =
    omega (arith, le-col_from tw (next_col tw c col) s i p, lt-next_col tw c col p)

-- Columns grow with the index.
pub col_from_mono :
    (tw col : ℕ) (s : Text) (i j : ℕ) → 0 < tw → i < j → col_from tw col s i < col_from tw col s j
col_from_mono tw col [] i j p h = omega arith
col_from_mono tw col (c ∷ s) i zero p h = absurd (omega arith)
col_from_mono tw col (c ∷ s) zero (suc j) p h =
    omega (arith, le-col_from tw (next_col tw c col) s j p, lt-next_col tw c col p)
col_from_mono tw col (c ∷ s) (suc i) (suc j) p h =
    col_from_mono tw (next_col tw c col) s i j p (omega arith)

pub lt_of_lt-col_from :
    (tw col : ℕ) (s : Text) (i j : ℕ) → 0 < tw → col_from tw col s i < col_from tw col s j → i < j
lt_of_lt-col_from tw col [] i j p h = omega arith
lt_of_lt-col_from tw col (c ∷ s) i zero p h = absurd (omega (arith, le-col_from tw col (c ∷ s) i p))
lt_of_lt-col_from tw col (c ∷ s) zero (suc j) p h = omega arith
lt_of_lt-col_from tw col (c ∷ s) (suc i) (suc j) p h =
    omega (arith, lt_of_lt-col_from tw (next_col tw c col) s i j p h)

-- The walk to a column stops at the character that covers it.
pub idx_walk_covers :
    (tw : ℕ) (s : Text) (ix col tgt : ℕ)
    → 0 < tw
    → col ≤ tgt
    → (i : ℕ) × (idx_walk tw s ix col tgt ≡ ix + i)
      × (col_from tw col s i ≤ tgt)
      × (tgt < col_from tw col s (suc i))
unfolding idx_walk
idx_walk_covers tw [] ix col tgt p h = (tgt - col, refl, omega arith, omega arith)
idx_walk_covers tw (c ∷ s) ix col tgt p h = elim (dec_lt tgt (next_col tw c col)) [
  | yes q ↦ (0, ground arith, h, rw (col_from_zero tw (next_col tw c col) s) q)
  | no q ↦
      let (i, e, lo, hi) = idx_walk_covers tw s (ix + 1) (next_col tw c col) tgt p (omega arith) in
      (suc i, ground arith, lo, hi)
]
