-- ===== src/Views/Windows.antt =====
-- Where the window and the cursor are after ScrollOriginAndCursor_ (display.cpp).
use k_edit.Prelude.{ℕ, ◌≤◌, ◌<◌, Bool, Bool-cases, ◌≡◌, sym, subst, ◌⊎◌, inl, inr, arith}
use k_edit.Prelude.Int.{ℤ, pos, ◌+ℤ◌, ◌-ℤ◌, ◌≤ℤ◌, +ℤ_parts, -ℤ_parts, eq_of_parts}
use k_edit.Buffer.{Fbuf}
use k_edit.Views.{
  constrain, col_max, Window, UlcCursor, View, y_origin_max, cursor_at, placed, propagated,
  scroll_origin_and_cursor_,
}
use k_edit.Views.Places.{constrain_cases, Shows}

-- A window of the least size, or larger, and switches and a tab width in their range
pub record IsUsable (w : Window) : Type 0 where
  pub lines : 3 ≤ w.size_lin
  pub columns : 1 ≤ w.size_col
  pub narrow : w.size_col < col_max
  pub some_columns : 1 ≤ w.screen_cols
  pub hscroll_fits : w.hscroll ≤ w.screen_cols
  pub vscroll_moves : 1 ≤ w.vscroll
  pub vscroll_fits : w.vscroll ≤ w.screen_lines
  pub tabs : 0 < w.tab_width

-- The window lies in the range of columns, and starts neither in front of the buffer nor below the
-- bottom limit; the cursor is in it.
pub record InWindow (f : Fbuf) (w : Window) (c : UlcCursor) : Type 0 where
  pub starts_lin : pos 0 ≤ℤ c.origin_lin
  pub starts_col : pos 0 ≤ℤ c.origin_col
  pub ends_lin : (c.origin_lin ≤ℤ y_origin_max f w) ⊎ (c.origin_lin ≤ℤ pos 0)
  pub ends_col : c.origin_col +ℤ pos w.size_col ≤ℤ pos col_max
  pub shows_lin : Shows w.size_lin c.origin_lin c.cursor_lin
  pub shows_col : Shows w.size_col c.origin_col c.cursor_col

pub cursor_at-Shows : (o : ℤ) (size : ℕ) (y : ℤ) → 1 ≤ size → Shows size o (cursor_at o size y)
cursor_at-Shows o size y h =
    let (low, high, near) = constrain_cases o (o +ℤ pos size -ℤ pos 1) y in
    (low, omega (arith, +ℤ_parts, -ℤ_parts))

pub cursor_at_lem : (o : ℤ) (size : ℕ) (y : ℤ) → Shows size o y → cursor_at o size y ≡ y
cursor_at_lem o size y (above, below) =
    let (low, high, near) = constrain_cases o (o +ℤ pos size -ℤ pos 1) y in
    eq_of_parts (cursor_at o size y) y (omega (arith, +ℤ_parts, -ℤ_parts))

pub placed-InWindow :
    (f : Fbuf) (w : Window) (yo xo y x : ℤ) → IsUsable w → InWindow f w (placed f w yo xo y x)
unfolding placed
placed-InWindow f w yo xo y x ok =
    let o_col = constrain (pos 0) xo (pos col_max -ℤ pos w.size_col) in
    let o_lin = constrain (pos 0) yo (y_origin_max f w) in
    let (col_low, col_high, _) = constrain_cases (pos 0) xo (pos col_max -ℤ pos w.size_col) in
    let narrow = ok.narrow in
    let few = ok.lines in
    let (lin_low, lin_high, _) = constrain_cases (pos 0) yo (y_origin_max f w) in
    record {
      starts_lin = lin_low;
      starts_col = col_low;
      ends_lin = elim lin_high [ inl low ↦ inr low | inr (within, last) ↦ inl last ];
      ends_col = omega (arith, +ℤ_parts, -ℤ_parts);
      shows_lin = cursor_at-Shows o_lin w.size_lin y (omega arith);
      shows_col = cursor_at-Shows o_col w.size_col (constrain (pos 0) x (pos col_max)) ok.columns;
    }

pub propagated_current :
    (old : UlcCursor) (updt : Bool) (v : View) → (propagated old updt v).current ≡ v.current
unfolding propagated
propagated_current old updt v = elim (Bool-cases v.active_in_win) [
  | inl on ↦ rw on
  | inr off ↦ rw off
]

pub propagated_window :
    (old : UlcCursor) (updt : Bool) (v : View) → (propagated old updt v).window ≡ v.window
unfolding propagated
propagated_window old updt v = elim (Bool-cases v.active_in_win) [
  | inl on ↦ rw on
  | inr off ↦ rw off
]

pub scroll_current :
    (f : Fbuf) (yo xo y x : ℤ) (updt : Bool) (v : View)
    → (scroll_origin_and_cursor_ f yo xo y x updt v).current ≡ placed f v.window yo xo y x
unfolding scroll_origin_and_cursor_
scroll_current f yo xo y x updt v =
    propagated_current v.current updt (record v { current = placed f v.window yo xo y x })

-- For a usable window, wherever the view was and whatever is asked for: after ScrollOriginAndCursor_ the
-- window starts at or behind line and column 0, its first line is 0 or at or above the bottom limit, it
-- ends at or before COL_MAX, and the cursor is in it.
pub scroll_origin_and_cursor_-InWindow :
    (f : Fbuf) (yo xo y x : ℤ) (updt : Bool) (v : View)
    → IsUsable v.window
    → InWindow f v.window (scroll_origin_and_cursor_ f yo xo y x updt v).current
unfolding scroll_origin_and_cursor_
scroll_origin_and_cursor_-InWindow f yo xo y x updt v ok =
    let c = placed f v.window yo xo y x in
    subst (InWindow f v.window) (sym (propagated_current v.current updt (record v { current = c })))
      (placed-InWindow f v.window yo xo y x ok)
