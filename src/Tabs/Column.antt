-- ===== src/Tabs/Column.antt =====
-- Columns and indices of a line: `ColOfFreeIdx`, both `FreeIdxOfCol` (fbuf_edit.cpp), and what
-- ed_core.h builds on them. A text is read from the front, so an iterator or an index into the
-- content is the rest of the text together with the position that it stands at.
pub mod Walk
pub mod RoundTrip
pub mod Cache
pub mod Tabless
use k_edit.Prelude.{
  ℕ, zero, suc, ◌+◌, ◌-◌, min, ltb, ◌==◌, if◌then◌else◌, List, [], ◌∷◌, length, drop, Option, none,
  some, ◌≡◌, refl,
}
use k_edit.Tabs.{Text, htab, col_of_next_tab_stop, next_col}

-- The `for` of `ColOfFreeIdx`, and its last `return`: `len` is the length of the whole content.
pub col_walk : ℕ → ℕ → Text → ℕ → ℕ → ℕ → ℕ
col_walk tw len [] ix offset col = col + (offset - len)
col_walk tw len (c ∷ rest) ix offset col =
    if ix == offset then col else col_walk tw len rest (ix + 1) offset (next_col tw c col)

pub col_of_free_idx : ℕ → Text → ℕ → ℕ → ℕ → ℕ
unfolding col_walk
col_of_free_idx tw content offset start_ix col_of_start_ix =
    if ltb offset start_ix
    then col_walk tw (length content) content 0 offset 0
    else col_walk tw (length content) (drop start_ix content) start_ix offset col_of_start_ix

-- The `for` of the `FreeIdxOfCol` with three parameters.
pub idx_walk : ℕ → Text → ℕ → ℕ → ℕ → ℕ
idx_walk tw [] ix col col_tgt = ix + (col_tgt - col)
idx_walk tw (c ∷ rest) ix col col_tgt =
    if ltb col_tgt (next_col tw c col)
    then ix
    else idx_walk tw rest (ix + 1) (next_col tw c col) col_tgt

pub free_idx_of_col : ℕ → Text → ℕ → ℕ
unfolding idx_walk
free_idx_of_col tw content col_tgt = if col_tgt == 0 then 0 else idx_walk tw content 0 0 col_tgt

-- The two reference parameters of the other `FreeIdxOfCol`, `startCol` and `ixOfStartCol`.
pub record Mark : Type 0 where
  pub col : ℕ
  pub ix : ℕ

abbrev pub origin : Mark
origin = record { col = 0; ix = 0 }

-- Its `for`: the index found, and the new values of the reference parameters.
pub cached_walk : ℕ → Text → ℕ → ℕ → ℕ → ℕ × Mark
cached_walk tw [] ix col col_tgt = (ix + (col_tgt - col), record { col = col; ix = ix })
cached_walk tw (c ∷ rest) ix col col_tgt =
    if ltb col_tgt (next_col tw c col)
    then (ix, record { col = col; ix = ix })
    else cached_walk tw rest (ix + 1) (next_col tw c col) col_tgt

pub free_idx_of_col_cached : ℕ → Text → ℕ → Mark → ℕ × Mark
unfolding cached_walk
free_idx_of_col_cached tw content col_tgt m =
    if col_tgt == 0
    then (0, m)
    else if ltb col_tgt m.col
    then cached_walk tw content 0 0 col_tgt
    else cached_walk tw (drop m.ix content) m.ix m.col col_tgt

-- `ColOfFreeIdx` with its default arguments.
abbrev pub col_of_idx : ℕ → Text → ℕ → ℕ
col_of_idx tw content offset = col_of_free_idx tw content offset 0 0

pub col_of_next_char : ℕ → Text → ℕ → ℕ
col_of_next_char tw rl col = col_of_idx tw rl (free_idx_of_col tw rl col + 1)

-- -1 at the first character
pub col_of_prev_char : ℕ → Text → ℕ → Option ℕ
col_of_prev_char tw rl col =
    let ix = free_idx_of_col tw rl col in if ix == 0 then none else some (col_of_idx tw rl (ix - 1))

pub str_cols : ℕ → Text → ℕ
str_cols tw src = col_of_idx tw src (length src)

-- `none` is `eosr`: the content has no index.
pub captive_idx_of_col : ℕ → Text → ℕ → Option ℕ
captive_idx_of_col tw [] col_tgt = none
captive_idx_of_col tw (c ∷ rest) col_tgt =
    some (min (free_idx_of_col tw (c ∷ rest) col_tgt) (length (c ∷ rest) - 1))

pub tab_aligned_col : ℕ → Text → ℕ → ℕ
tab_aligned_col tw rl col = col_of_idx tw rl (free_idx_of_col tw rl col)
