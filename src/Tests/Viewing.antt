-- ===== src/Tests/Viewing.antt =====
-- The window and the cursor of a view at concrete places (cursor.cpp, display.cpp).
use k_edit.Prelude.{
  List, ℕ, ◌≤◌, ◌<◌, ◌==◌, ◌⊎◌, if◌then◌else◌, true, false, [], ◌∷◌, ◌≡◌, refl, arith, inr, text_of,
}
use k_edit.Prelude.Int.{pos, negsuc, ◌+ℤ◌, ◌-ℤ◌, ◌≤ℤ◌}
use k_edit.Buffer.{Fbuf, put_content}
use k_edit.Views.{Window, UlcCursor, View, col_max, x_scrolled, y_scrolled, move_cursor_}
use k_edit.Views.Windows.{IsUsable, InWindow}
use k_edit.Views.Moves.{wanted_lin, wanted_col, shown_cols, one_column_fits, move_cursor_-at}
use k_edit.Views.Commands.{save_cur, rest_cur}
use k_edit.Views.Paragraphs.{
  ppara, mpara, flipped, ppara_stops, mpara_stops, ppara-first_stop, mpara-last_stop,
}
use k_edit.Views.Motions.{
  Motion, go_right, go_down, go_endfile, go_tab, page, next_para, perform_all, perform_all-InWindow,
}
use k_edit.Views.Saved.{rest_cur-save_cur}
use k_edit.Tests.Undoing.{two_lines}

-- Four lines, the second of them empty
abbrev with_blank : Fbuf
with_blank = record two_lines {
  line_count = 4;
  lines = λ i. if i == 1 then put_content [] else put_content (text_of "abc");
}

abbrev window : Window
window = record {
  size_lin = 20;
  size_col = 80;
  screen_lines = 25;
  screen_cols = 80;
  hscroll = 10;
  vscroll = 1;
  realtabs = true;
  tab_align = true;
  tab_width = 8;
}

abbrev at_top : UlcCursor
at_top = record { origin_lin = pos 0; origin_col = pos 0; cursor_lin = pos 0; cursor_col = pos 2 }

abbrev view : View
view = record {
  window = window;
  current = at_top;
  prev = at_top;
  saved = at_top;
  saved_valid = false;
  active_in_win = true;
  updt_wuc_pending = false;
  redraws = [];
  hike = pos 25;
}

abbrev below_blank : View
below_blank = record view {
  current = record {
    origin_lin = pos 0;
    origin_col = pos 0;
    cursor_lin = pos 3;
    cursor_col = pos 1;
  };
}

window-IsUsable : IsUsable window
unfolding col_max
window-IsUsable = record {
  lines = omega arith;
  columns = omega arith;
  narrow = omega arith;
  some_columns = omega arith;
  hscroll_fits = omega arith;
  vscroll_moves = omega arith;
  vscroll_fits = omega arith;
  tabs = omega arith;
}

at_top-InWindow : InWindow with_blank window at_top
unfolding col_max ◌+ℤ◌
at_top-InWindow = record {
  starts_lin = omega arith;
  starts_col = omega arith;
  ends_lin = inr (omega arith);
  ends_col = omega arith;
  shows_lin = (omega arith, omega arith);
  shows_col = (omega arith, omega arith);
}

reaches : (n : ℕ) → n ≤ 1000 → pos n +ℤ pos 1 ≤ℤ pos col_max
unfolding col_max ◌+ℤ◌
reaches n h = ground arith

far_right : x_scrolled 10 80 (pos 0) (pos 100) (pos 1) ≡ pos 30
unfolding x_scrolled ◌+ℤ◌ ◌-ℤ◌
far_right = refl

above : y_scrolled 1 20 (pos 50) (pos 49) (pos 25) ≡ pos 49
unfolding y_scrolled ◌+ℤ◌ ◌-ℤ◌
above = refl

far_above : y_scrolled 1 20 (pos 50) (pos 9) (pos 25) ≡ pos 4
unfolding y_scrolled ◌+ℤ◌ ◌-ℤ◌
far_above = refl

move_cursor_-at_example :
    ((move_cursor_ with_blank (pos 2) (pos 100) (pos 1) true view).current.cursor_lin
      ≡ wanted_lin (pos 2))
    × ((move_cursor_ with_blank (pos 2) (pos 100) (pos 1) true view).current.cursor_col
        ≡ wanted_col with_blank window (pos 2) (pos 100))
    × (wanted_col with_blank window (pos 2) (pos 100) +ℤ shown_cols window (pos 1)
        ≤ℤ (move_cursor_ with_blank (pos 2) (pos 100) (pos 1) true view).current.origin_col
          +ℤ pos 80)
    × InWindow with_blank window
        (move_cursor_ with_blank (pos 2) (pos 100) (pos 1) true view).current
move_cursor_-at_example =
    move_cursor_-at with_blank (pos 2) (pos 100) (pos 1) true view window-IsUsable (omega arith) (
      one_column_fits with_blank window (pos 2) (pos 100) window-IsUsable
        (reaches 100 (omega arith)))

ppara-first_stop_example :
    ((ppara with_blank false 0 view).0 ≡ true)
    × InWindow with_blank window (ppara with_blank false 0 view).1.current
    × ((z : ℕ) × ((ppara with_blank false 0 view).1.current.cursor_lin ≡ pos z)
        × (0 < z)
        × (z ≤ 4)
        × ((z ≡ 4) ⊎ (ppara_stops with_blank (flipped false 0) z ≡ true))
        × ((k : ℕ) → 0 < k → k < z → ppara_stops with_blank (flipped false 0) k ≡ false))
ppara-first_stop_example =
    ppara-first_stop with_blank false 0 0 view window-IsUsable refl (omega arith)
      (reaches 2 (omega arith))

mpara-last_stop_example :
    ((mpara with_blank false below_blank).0 ≡ true)
    × InWindow with_blank window (mpara with_blank false below_blank).1.current
    × ((z : ℕ) × ((mpara with_blank false below_blank).1.current.cursor_lin ≡ pos z)
        × (z ≤ 2)
        × ((z ≡ 0) ⊎ (mpara_stops with_blank false z ≡ true))
        × ((k : ℕ) → z < k → k ≤ 2 → mpara_stops with_blank false k ≡ false))
mpara-last_stop_example =
    mpara-last_stop with_blank false 2 below_blank window-IsUsable refl (omega arith)
      (reaches 1 (omega arith))

abbrev walk : List Motion
walk =
    go_endfile ∷ go_right true ∷ go_tab ∷ page (negsuc 0) ∷ next_para false 0 ∷ go_down false ∷ []

rest_cur-save_cur_example :
    ((rest_cur with_blank (perform_all with_blank walk (save_cur view))).0 ≡ true)
    × ((rest_cur with_blank (perform_all with_blank walk (save_cur view))).1.current ≡ at_top)
rest_cur-save_cur_example = rest_cur-save_cur with_blank walk view window-IsUsable at_top-InWindow

perform_all-InWindow_example : InWindow with_blank window (perform_all with_blank walk view).current
perform_all-InWindow_example =
    perform_all-InWindow with_blank walk view window-IsUsable at_top-InWindow
