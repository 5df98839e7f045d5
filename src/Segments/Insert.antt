-- ===== src/Segments/Insert.antt =====
-- DupLineForInsert (fbuf_edit.cpp) against the columns that the line shows.
use k_edit.Prelude.{
  ℕ, zero, suc, ◌-◌, ◌≤◌, ◌<◌, lt→ltb, ◌++◌, length, take, drop, replicate, ◌≡◌, refl, sym, ap, ◌∙◌,
  inr, arith, take-append-drop,
}
use k_edit.Tabs.{Text, space}
use k_edit.Tabs.Column.Tabless.{
  IsTabless, IsTabless-append, IsTabless-replicate, IsTabless-detab, free_idx_of_col-IsTabless,
  str_cols-IsTabless,
}
use k_edit.Tabs.Expand.Segment.{detab, format_expanded_seg-spaces, take_all}
use k_edit.Buffer.{Fbuf}
use k_edit.Lines.{peek_raw_line}
use k_edit.Segments.{dup_line_tabs2spcs, opened_for_insert, dup_line_for_insert}

-- A line with `n` spaces in front of the column `x`, and spaces up to that column
abbrev pub padded : ℕ → Text → Text
padded x e = e ++ replicate (x - length e) space

abbrev pub opened : ℕ → ℕ → Text → Text
opened x n e = take x (padded x e) ++ (replicate n space ++ drop x (padded x e))

pub dup_line_tabs2spcs-detab :
    (col_max tw y : ℕ) (f : Fbuf)
    → 0 < tw
    → length (detab tw 0 (peek_raw_line f y)) ≤ col_max
    → dup_line_tabs2spcs col_max tw y f ≡ detab tw 0 (peek_raw_line f y)
dup_line_tabs2spcs-detab col_max tw y f p fits =
    format_expanded_seg-spaces col_max (peek_raw_line f y) 0 tw space p (inr refl)
    ∙ take_all col_max (detab tw 0 (peek_raw_line f y)) fits

opened_for_insert-IsTabless :
    (tw x n : ℕ) (e : Text) (col_max : ℕ)
    → IsTabless e
    → opened_for_insert col_max tw e x n ≡ opened x n e
opened_for_insert-IsTabless tw x zero e col_max t =
    rw (str_cols-IsTabless tw e t) (sym (take-append-drop x (padded x e)))
opened_for_insert-IsTabless tw x (suc k) e col_max t =
    let tabless =
      IsTabless-append e (replicate (x - length e) space) t (IsTabless-replicate (x - length e)) in
    let at = free_idx_of_col-IsTabless tw (padded x e) x tabless in
    rw (lt→ltb 0 (suc k) (omega arith), str_cols-IsTabless tw e t, at)

-- For a positive tab width, where the line with its tabs expanded is not longer than COL_MAX:
-- DupLineForInsert gives that line, padded with spaces up to the column `x` if it ends before, with
-- `n` spaces in front of that column.
pub dup_line_for_insert-opened :
    (col_max tw y x n : ℕ) (f : Fbuf)
    → 0 < tw
    → length (detab tw 0 (peek_raw_line f y)) ≤ col_max
    → dup_line_for_insert col_max tw y x n f ≡ opened x n (detab tw 0 (peek_raw_line f y))
unfolding dup_line_for_insert
dup_line_for_insert-opened col_max tw y x n f p fits =
    ap (λ e. opened_for_insert col_max tw e x n) (dup_line_tabs2spcs-detab col_max tw y f p fits)
    ∙ opened_for_insert-IsTabless tw x n (detab tw 0 (peek_raw_line f y)) col_max
        (IsTabless-detab tw 0 (peek_raw_line f y))
