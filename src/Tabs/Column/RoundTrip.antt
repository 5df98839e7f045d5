-- ===== src/Tabs/Column/RoundTrip.antt =====
-- Index to column and back: `ColOfFreeIdx` and `FreeIdxOfCol` (fbuf_edit.cpp), and ed_core.h's
-- functions on them.
use k_edit.Prelude.{
  ℕ, zero, suc, ◌+◌, ◌-◌, ◌≤◌, ◌<◌, [], ◌∷◌, length, ◌≡◌, refl, arith, min, some, sym, ap, subst,
  ◌⊎◌, inl, inr,
}
use k_edit.Tabs.{Text, next_col}
use k_edit.Tabs.Column.{
  free_idx_of_col, col_of_idx, tab_aligned_col, col_of_next_char, str_cols, captive_idx_of_col,
}
use k_edit.Tabs.Column.Walk.{
  lt_of_lt-col_from, col_from, col_from_zero, col_of_idx_lem, col_from_mono, idx_walk_covers,
  le-col_from,
}
use native.Mathlib.Decide.{dec_lt}
use native.Mathlib.Numerals.{add-one}

-- The index that `FreeIdxOfCol` finds is that of the character that covers the column.
free_idx_of_col_walk :
    (tw : ℕ) (s : Text) (tgt : ℕ)
    → 0 < tw
    → (col_from tw 0 s (free_idx_of_col tw s tgt) ≤ tgt)
      × (tgt < col_from tw 0 s (suc (free_idx_of_col tw s tgt)))
unfolding free_idx_of_col
free_idx_of_col_walk tw s zero p = (
  omega (arith, col_from_zero tw 0 s),
  omega (arith, col_from_zero tw 0 s, col_from_mono tw 0 s 0 1 p (omega arith)),
)
free_idx_of_col_walk tw s (suc t) p =
    let (i, e, lo, hi) = idx_walk_covers tw s 0 0 (suc t) p (omega arith) in
    let e' : free_idx_of_col tw s (suc t) ≡ i = ground (arith, e) in
    (
      subst (λ k. col_from tw 0 s k ≤ suc t) (sym e') lo,
      subst (λ k. suc t < col_from tw 0 s (suc k)) (sym e') hi,
    )

-- For a positive tab width: for every column, the character at the index that `FreeIdxOfCol`
-- finds starts at or before the column, and the next character starts behind it.
pub free_idx_of_col_covers :
    (tw : ℕ) (s : Text) (tgt : ℕ)
    → 0 < tw
    → (tab_aligned_col tw s tgt ≤ tgt) × (tgt < col_of_next_char tw s tgt)
unfolding tab_aligned_col col_of_next_char
free_idx_of_col_covers tw s tgt p =
    rw
      (
        col_of_idx_lem tw s (free_idx_of_col tw s tgt),
        col_of_idx_lem tw s (free_idx_of_col tw s tgt + 1),
        add-one,
      )
      (free_idx_of_col_walk tw s tgt p)

-- One character alone covers a column.
pub col_from-index_unique :
    (tw col : ℕ) (s : Text) (i j tgt : ℕ)
    → 0 < tw
    → col_from tw col s i ≤ tgt
    → tgt < col_from tw col s (suc i)
    → col_from tw col s j ≤ tgt
    → tgt < col_from tw col s (suc j)
    → i ≡ j
col_from-index_unique tw col [] i j tgt p a b c d = omega arith
col_from-index_unique tw col (x ∷ s) zero zero tgt p a b c d = refl
col_from-index_unique tw col (x ∷ s) zero (suc j) tgt p a b c d = absurd (
    omega (arith, col_from_zero tw (next_col tw x col) s, le-col_from tw (next_col tw x col) s j p))
col_from-index_unique tw col (x ∷ s) (suc i) zero tgt p a b c d = absurd (
    omega (arith, col_from_zero tw (next_col tw x col) s, le-col_from tw (next_col tw x col) s i p))
col_from-index_unique tw col (x ∷ s) (suc i) (suc j) tgt p a b c d =
    ap suc (col_from-index_unique tw (next_col tw x col) s i j tgt p a b c d)

-- For a positive tab width: the index of the column at which a character starts is that
-- character's, for every index, also behind the end of the text.
pub free_idx_of_col-col_of_idx :
    (tw : ℕ) (s : Text) (i : ℕ) → 0 < tw → free_idx_of_col tw s (col_of_idx tw s i) ≡ i
free_idx_of_col-col_of_idx tw s i p = rw (col_of_idx_lem tw s i) (
    let t = col_from tw 0 s i in
    let (lo, hi) = free_idx_of_col_walk tw s t p in
    col_from-index_unique tw 0 s (free_idx_of_col tw s t) i t p lo hi (omega arith)
      (col_from_mono tw 0 s i (suc i) p (omega arith)))

-- For a positive tab width: aligning a column twice is aligning it once.
pub tab_aligned_col-tab_aligned_col :
    (tw : ℕ) (s : Text) (tgt : ℕ)
    → 0 < tw
    → tab_aligned_col tw s (tab_aligned_col tw s tgt) ≡ tab_aligned_col tw s tgt
unfolding tab_aligned_col
tab_aligned_col-tab_aligned_col tw s tgt p =
    rw (free_idx_of_col-col_of_idx tw s (free_idx_of_col tw s tgt) p)

-- For a positive tab width and a text that is not empty: the captive index is an index of the
-- text, the free one for a column of the text, and the last one for a column behind it.
pub captive_idx_of_col_bounds :
    (tw : ℕ) (c : ℕ) (s : Text) (tgt : ℕ)
    → 0 < tw
    → (i : ℕ) × (captive_idx_of_col tw (c ∷ s) tgt ≡ some i)
      × (i < length (c ∷ s))
      × (((tgt < str_cols tw (c ∷ s)) × (i ≡ free_idx_of_col tw (c ∷ s) tgt))
          ⊎ ((str_cols tw (c ∷ s) ≤ tgt) × (i ≡ length (c ∷ s) - 1)))
unfolding captive_idx_of_col str_cols
captive_idx_of_col_bounds tw c s tgt p = (
  min f last,
  refl,
  omega arith,
  elim (dec_lt tgt (str_cols tw (c ∷ s))) [
    | yes h ↦ inl (h, omega (arith, within h))
    | no h ↦ inr (omega arith, omega (arith, beyond (omega arith)))
  ],
)
  where
    f : ℕ
    f = free_idx_of_col tw (c ∷ s) tgt

    last : ℕ
    last = length (c ∷ s) - 1

    end : str_cols tw (c ∷ s) ≡ col_from tw 0 (c ∷ s) (length (c ∷ s))
    end = col_of_idx_lem tw (c ∷ s) (length (c ∷ s))

    covers : (col_from tw 0 (c ∷ s) f ≤ tgt) × (tgt < col_from tw 0 (c ∷ s) (suc f))
    covers = free_idx_of_col_walk tw (c ∷ s) tgt p

    within : tgt < str_cols tw (c ∷ s) → f < length (c ∷ s)
    within h = lt_of_lt-col_from tw 0 (c ∷ s) f (length (c ∷ s)) p (omega (arith, end, covers))

    beyond : str_cols tw (c ∷ s) ≤ tgt → length (c ∷ s) < suc f
    beyond h =
        lt_of_lt-col_from tw 0 (c ∷ s) (length (c ∷ s)) (suc f) p (omega (arith, end, covers))
