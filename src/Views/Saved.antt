-- ===== src/Views/Saved.antt =====
-- The saved place of a view (cursor.cpp).
use k_edit.Prelude.{Bool, true, List, ◌≡◌, refl, ap, ◌∙◌, arith, if◌then◌else◌}
use k_edit.Prelude.Int.{pos, ◌-ℤ◌, +ℤ_parts, -ℤ_parts, eq_of_parts}
use k_edit.Buffer.{Fbuf}
use k_edit.Views.{Window, UlcCursor, View, constrain, col_max, y_origin_max, placed}
use k_edit.Views.Places.{constrain_cases}
use k_edit.Views.Windows.{IsUsable, InWindow, cursor_at_lem, scroll_current}
use k_edit.Views.Commands.{save_cur, rest_cur, scroll_to}
use k_edit.Views.Motions.{Motion, perform_all, perform_all-Kept}

-- Wherever the window and the cursor may be, they are placed where they are.
placed_same :
    (f : Fbuf) (w : Window) (c : UlcCursor)
    → IsUsable w
    → InWindow f w c
    → placed f w c.origin_lin c.origin_col c.cursor_lin c.cursor_col ≡ c
unfolding placed
placed_same f w c ok h =
    let (cl, ch, cn) = constrain_cases (pos 0) c.origin_col (pos col_max -ℤ pos w.size_col) in
    let (ll, lh, ln) = constrain_cases (pos 0) c.origin_lin (y_origin_max f w) in
    let (xl, xh, xn) = constrain_cases (pos 0) c.cursor_col (pos col_max) in
    let starts = h.starts_col in
    let starts_lin = h.starts_lin in
    let ends = h.ends_col in
    let ends_lin = h.ends_lin in
    let (col_from, col_to) = h.shows_col in
    let col : constrain (pos 0) c.origin_col (pos col_max -ℤ pos w.size_col) ≡ c.origin_col =
      eq_of_parts (constrain (pos 0) c.origin_col (pos col_max -ℤ pos w.size_col)) c.origin_col
        (omega (arith, +ℤ_parts, -ℤ_parts)) in
    let lin : constrain (pos 0) c.origin_lin (y_origin_max f w) ≡ c.origin_lin =
      eq_of_parts (constrain (pos 0) c.origin_lin (y_origin_max f w)) c.origin_lin (omega arith) in
    let x : constrain (pos 0) c.cursor_col (pos col_max) ≡ c.cursor_col =
      eq_of_parts (constrain (pos 0) c.cursor_col (pos col_max)) c.cursor_col
        (omega (arith, +ℤ_parts, -ℤ_parts)) in
    rw
      (
        col,
        lin,
        x,
        cursor_at_lem c.origin_lin w.size_lin c.cursor_lin h.shows_lin,
        cursor_at_lem c.origin_col w.size_col c.cursor_col h.shows_col,
      )
      refl

-- For a usable window with the cursor in it: after SaveCur and any sequence of commands that move the
-- cursor or the window, RestCur succeeds and brings window and cursor back to where they were.
pub rest_cur-save_cur :
    (f : Fbuf) (ms : List Motion) (v : View)
    → IsUsable v.window
    → InWindow f v.window v.current
    → ((rest_cur f (perform_all f ms (save_cur v))).0 ≡ true)
      × ((rest_cur f (perform_all f ms (save_cur v))).1.current ≡ v.current)
unfolding rest_cur save_cur
rest_cur-save_cur f ms v ok h =
    let u = perform_all f ms (save_cur v) in
    let (window, saved, valid, within) = perform_all-Kept f ms (save_cur v) ok h in
    let back : placed f u.window u.saved.origin_lin u.saved.origin_col u.saved.cursor_lin
          u.saved.cursor_col
        ≡ v.current =
      rw (window, saved) (placed_same f v.window v.current ok h) in
    let placed_back : (scroll_to f u.saved u).current ≡ v.current =
      scroll_current f u.saved.origin_lin u.saved.origin_col u.saved.cursor_lin u.saved.cursor_col
        true u
      ∙ back in
    (valid, ap (λ (b : Bool). (if b then scroll_to f u.saved u else u).current) valid ∙ placed_back)
