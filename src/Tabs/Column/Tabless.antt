-- ===== src/Tabs/Column/Tabless.antt =====
-- Columns and indices (fbuf_edit.cpp) of a text that has no tab.
use k_edit.Prelude.{
  ℕ, zero, suc, ◌+◌, ◌-◌, ◌≤◌, ◌==◌, false, Bool-cases, [], none, ◌∷◌, ◌++◌, length, replicate, ◌≡◌,
  refl, inl, inr, arith,
}
use k_edit.Tabs.{Text, htab, space, next_col, col_of_next_tab_stop}
use k_edit.Tabs.Column.{captive_idx_of_col, idx_walk, free_idx_of_col, str_cols}
use k_edit.Tabs.Column.Walk.{col_from, col_of_idx_lem}
use native.Mathlib.Decide.{dec_lt}
use k_edit.Tabs.Expand.Segment.{cell, detab}

abbrev pub IsTabless : Text → Type 0
IsTabless [] = Unit
IsTabless (c ∷ s) = ((c == htab) ≡ false) × IsTabless s

pub IsTabless-append : (s t : Text) → IsTabless s → IsTabless t → IsTabless (s ++ t)
IsTabless-append [] t a b = b
IsTabless-append (c ∷ s) t (plain, a) b = (plain, IsTabless-append s t a b)

pub IsTabless-replicate : (n : ℕ) → IsTabless (replicate n space)
IsTabless-replicate zero = tt
IsTabless-replicate (suc n) = (refl, IsTabless-replicate n)

IsTabless-cell : (tw c col : ℕ) → IsTabless (cell tw c col)
IsTabless-cell tw c col = elim (Bool-cases (c == htab)) [
  | inl tab ↦ rw tab (IsTabless-replicate (col_of_next_tab_stop tw col - col))
  | inr plain ↦ rw plain (plain, tt)
]

pub IsTabless-detab : (tw col : ℕ) (s : Text) → IsTabless (detab tw col s)
IsTabless-detab tw col [] = tt
IsTabless-detab tw col (c ∷ s) =
    IsTabless-append (cell tw c col) (detab tw (next_col tw c col) s) (IsTabless-cell tw c col)
      (IsTabless-detab tw (next_col tw c col) s)

idx_walk-IsTabless :
    (tw : ℕ) (s : Text) (ix col tgt : ℕ)
    → IsTabless s
    → col ≤ tgt
    → idx_walk tw s ix col tgt ≡ ix + (tgt - col)
unfolding idx_walk
idx_walk-IsTabless tw [] ix col tgt t le = refl
idx_walk-IsTabless tw (c ∷ s) ix col tgt (plain, t) le = elim (dec_lt tgt (col + 1)) [
  | yes here ↦ rw plain (ground (arith, here, le))
  | no on ↦
      let ih = idx_walk-IsTabless tw s (ix + 1) (col + 1) tgt t (omega (arith, on)) in
      rw plain (ground (arith, on, ih))
]

pub free_idx_of_col-IsTabless :
    (tw : ℕ) (s : Text) (col : ℕ) → IsTabless s → free_idx_of_col tw s col ≡ col
unfolding free_idx_of_col
free_idx_of_col-IsTabless tw s col t =
    let w = idx_walk-IsTabless tw s 0 0 col t (omega arith) in ground (arith, w)

col_from-IsTabless :
    (tw col : ℕ) (s : Text) → IsTabless s → col_from tw col s (length s) ≡ col + length s
col_from-IsTabless tw col [] t = refl
col_from-IsTabless tw col (c ∷ s) (plain, t) =
    rw plain (omega (arith, col_from-IsTabless tw (col + 1) s t))

pub str_cols-IsTabless : (tw : ℕ) (s : Text) → IsTabless s → str_cols tw s ≡ length s
unfolding str_cols
str_cols-IsTabless tw s t =
    omega (arith, col_of_idx_lem tw s (length s), col_from-IsTabless tw 0 s t)

pub captive_idx_of_col_empty : (tw col : ℕ) → captive_idx_of_col tw [] col ≡ none
unfolding captive_idx_of_col
captive_idx_of_col_empty tw col = refl
