-- ===== src/Views/Moves.antt =====
-- Where the cursor and the window are after MoveCursor_ (cursor.cpp).
use k_edit.Prelude.{
  ℕ, ◌+◌, ◌/◌, ◌≤◌, ◌<◌, Bool, false, Bool-cases, ◌&&◌, ◌≡◌, sym, ap, subst, ◌∙◌, ◌⊎◌, inl, inr,
  arith,
}
use k_edit.Prelude.Int.{ℤ, pos, negsuc, pos_part, ◌+ℤ◌, ◌-ℤ◌, ◌≤ℤ◌, +ℤ_parts, -ℤ_parts, eq_of_parts}
use k_edit.Buffer.{Fbuf}
use k_edit.Lines.{peek_raw_line}
use k_edit.Tabs.Column.{tab_aligned_col}
use k_edit.Tabs.Column.RoundTrip.{free_idx_of_col_covers}
use k_edit.Views.{
  max_ℤ, constrain, col_max, Window, View, y_origin_max, cursor_at, placed,
  scroll_origin_and_cursor_, scroll_step, x_scrolled, hike_lines, is_near, hike_limited, y_scrolled,
  tab_align_cursor_policy, move_cursor_,
}
use k_edit.Views.Places.{
  constrain_cases, Shows, x_scrolled_lem, y_scrolled-Shows, scroll_step_le, hike_lines_le,
}
use k_edit.Views.Windows.{IsUsable, InWindow, cursor_at_lem, placed-InWindow, propagated_current}

-- The line, the column and the number of columns that MoveCursor_ makes of its arguments
abbrev pub wanted_lin : ℤ → ℤ
wanted_lin y = max_ℤ (pos 0) y

abbrev pub wanted_col : Fbuf → Window → ℤ → ℤ → ℤ
wanted_col f w y x = tab_align_cursor_policy f w (wanted_lin y) (max_ℤ (pos 0) x)

abbrev pub shown_cols : Window → ℤ → ℤ
shown_cols w n = constrain (pos 1) n (pos w.size_col)

wanted_lin_bounds : (y : ℤ) (m : ℕ) → y ≤ℤ pos m → (pos 0 ≤ℤ wanted_lin y) × (wanted_lin y ≤ℤ pos m)
wanted_lin_bounds y m h = (ground arith, ground (arith, h))

wanted_col_low : (f : Fbuf) (w : Window) (y x : ℤ) → pos 0 ≤ℤ wanted_col f w y x
unfolding tab_align_cursor_policy
wanted_col_low f w y x = elim (Bool-cases (w.realtabs && w.tab_align)) [
  | inl on ↦ rw on (omega arith)
  | inr off ↦ rw off (ground arith)
]

shown_cols_bounds :
    (w : Window) (n : ℤ)
    → 1 ≤ w.size_col
    → (pos 1 ≤ℤ shown_cols w n) × (shown_cols w n ≤ℤ pos w.size_col)
shown_cols_bounds w n h =
    let (low, high, near) = constrain_cases (pos 1) n (pos w.size_col) in (low, omega arith)

below_part : (z : ℤ) (t : ℕ) → pos 0 ≤ℤ z → t ≤ pos_part z → pos t ≤ℤ z
below_part (pos n) t h1 h2 = omega arith
below_part (negsuc n) t h1 h2 = absurd (omega (arith, h1))

wanted_col_high :
    (f : Fbuf) (w : Window) (y x : ℤ) → 0 < w.tab_width → wanted_col f w y x ≤ℤ max_ℤ (pos 0) x
unfolding tab_align_cursor_policy
wanted_col_high f w y x tabs = elim (Bool-cases (w.realtabs && w.tab_align)) [
  | inl on ↦
      let rl = peek_raw_line f (pos_part (wanted_lin y)) in
      let low : pos 0 ≤ℤ max_ℤ (pos 0) x = ground arith in
      let covers = (free_idx_of_col_covers w.tab_width rl (pos_part (max_ℤ (pos 0) x)) tabs).0 in
      let least : pos (tab_aligned_col w.tab_width rl (pos_part (max_ℤ (pos 0) x)))
          ≤ℤ max_ℤ (pos 0) x =
        below_part (max_ℤ (pos 0) x) (tab_aligned_col w.tab_width rl (pos_part (max_ℤ (pos 0) x)))
          low covers in
      rw on least
  | inr off ↦ rw off (omega arith)
]

-- One column in front of COL_MAX can be shown, also where tabs move it.
pub one_column_fits :
    (f : Fbuf) (w : Window) (y x : ℤ)
    → IsUsable w
    → x +ℤ pos 1 ≤ℤ pos col_max
    → wanted_col f w y x +ℤ shown_cols w (pos 1) ≤ℤ pos col_max
one_column_fits f w y x ok h =
    let high = wanted_col_high f w y x ok.tabs in
    let (low, at, near) = constrain_cases (pos 1) (pos 1) (pos w.size_col) in
    let some = ok.columns in
    let narrow = ok.narrow in
    let h' : (x ≤ℤ pos 0) ⊎ (max_ℤ (pos 0) x ≤ℤ x) = ground arith in
    let z : (x ≤ℤ pos 0) → max_ℤ (pos 0) x ≤ℤ pos 0 = λ n. ground (arith, n) in
    elim h' [
      | inl negative ↦ let zero_col = z negative in omega (arith, +ℤ_parts)
      | inr same ↦ omega (arith, +ℤ_parts)
    ]

-- The hike is limited where it is used.
hike_fits :
    (step size : ℕ) (d hike : ℤ)
    → 3 ≤ size
    → is_near step size d ≡ false
    → hike_lines size (hike_limited step size d hike) + 1 ≤ size
unfolding hike_limited
hike_fits step size d hike h far =
    let (low, high, near) = constrain_cases (pos 1) hike (pos 99) in
    rw far (hike_lines_le size (constrain (pos 1) hike (pos 99)) (omega arith) (omega arith))

-- A limited first column still shows what the first column shows, if that ends at or before COL_MAX.
kept_col :
    (size : ℕ) (o x n : ℤ)
    → pos 0 ≤ℤ x
    → o ≤ℤ x
    → x +ℤ n ≤ℤ o +ℤ pos size
    → x +ℤ n ≤ℤ pos col_max
    → (constrain (pos 0) o (pos col_max -ℤ pos size) ≤ℤ x)
      × (x +ℤ n ≤ℤ constrain (pos 0) o (pos col_max -ℤ pos size) +ℤ pos size)
kept_col size o x n h1 h2 h3 h4 =
    let (low, high, near) = constrain_cases (pos 0) o (pos col_max -ℤ pos size) in
    (omega (arith, +ℤ_parts, -ℤ_parts), omega (arith, +ℤ_parts, -ℤ_parts))

kept_lin :
    (f : Fbuf) (w : Window) (o y : ℤ)
    → IsUsable w
    → pos 0 ≤ℤ y
    → y ≤ℤ pos f.line_count
    → Shows w.size_lin o y
    → Shows w.size_lin (constrain (pos 0) o (y_origin_max f w)) y
unfolding y_origin_max
kept_lin f w o y ok h1 h2 (above, below) =
    let (low, high, near) = constrain_cases (pos 0) o (y_origin_max f w) in
    let few = ok.lines in
    let moves = ok.vscroll_moves in
    let third : 1 ≤ w.size_lin / 3 = grind arith in
    let top = pos f.line_count -ℤ pos 1 in
    (omega (arith, +ℤ_parts, -ℤ_parts), omega (arith, +ℤ_parts, -ℤ_parts))

-- What is placed for an origin that shows the cursor
placed_at :
    (f : Fbuf) (w : Window) (yo xo y x n : ℤ)
    → IsUsable w
    → (pos 0 ≤ℤ y) × (y ≤ℤ pos f.line_count)
    → Shows w.size_lin yo y
    → pos 0 ≤ℤ x
    → pos 1 ≤ℤ n
    → (xo ≤ℤ x) × (x +ℤ n ≤ℤ xo +ℤ pos w.size_col)
    → x +ℤ n ≤ℤ pos col_max
    → ((placed f w yo xo y x).cursor_lin ≡ y)
      × ((placed f w yo xo y x).cursor_col ≡ x)
      × (x +ℤ n ≤ℤ (placed f w yo xo y x).origin_col +ℤ pos w.size_col)
unfolding placed
placed_at f w yo xo y x n ok (y_low, y_high) y_shown x_low n_low (x_from, x_to) fits =
    let o_lin = constrain (pos 0) yo (y_origin_max f w) in
    let o_col = constrain (pos 0) xo (pos col_max -ℤ pos w.size_col) in
    let (col_from, col_to) = kept_col w.size_col xo x n x_low x_from x_to fits in
    let (c_low, c_high, c_near) = constrain_cases (pos 0) x (pos col_max) in
    let same : constrain (pos 0) x (pos col_max) ≡ x =
      eq_of_parts (constrain (pos 0) x (pos col_max)) x (omega (arith, +ℤ_parts, -ℤ_parts)) in
    let to : x +ℤ pos 1 ≤ℤ o_col +ℤ pos w.size_col = omega (arith, +ℤ_parts, -ℤ_parts) in
    (
      cursor_at_lem o_lin w.size_lin y (kept_lin f w yo y ok y_low y_high y_shown),
      ap (cursor_at o_col w.size_col) same ∙ cursor_at_lem o_col w.size_col x (col_from, to),
      col_to,
    )

-- For a usable window, a line up to the one behind the last of the buffer (a negative one counts as 0),
-- and columns to be shown that end at or before COL_MAX: wherever the view was, after MoveCursor_ the
-- cursor is in that line and in the column asked for (0 for a negative one, aligned where tabs are
-- real and aligned to), and the window shows it and the columns asked for behind it.
pub move_cursor_-at :
    (f : Fbuf) (y x n : ℤ) (updt : Bool) (v : View)
    → IsUsable v.window
    → y ≤ℤ pos f.line_count
    → wanted_col f v.window y x +ℤ shown_cols v.window n ≤ℤ pos col_max
    → ((move_cursor_ f y x n updt v).current.cursor_lin ≡ wanted_lin y)
      × ((move_cursor_ f y x n updt v).current.cursor_col ≡ wanted_col f v.window y x)
      × (wanted_col f v.window y x +ℤ shown_cols v.window n
          ≤ℤ (move_cursor_ f y x n updt v).current.origin_col +ℤ pos v.window.size_col)
      × InWindow f v.window (move_cursor_ f y x n updt v).current
unfolding move_cursor_ scroll_origin_and_cursor_
move_cursor_-at f y x n updt v ok in_buffer fits =
    let w = v.window in
    let y' = wanted_lin y in
    let x' = wanted_col f w y x in
    let n' = shown_cols w n in
    let few = ok.lines in
    let some_lines : 1 ≤ w.size_lin = omega arith in
    let moves = ok.vscroll_moves in
    let vscroll_fits = ok.vscroll_fits in
    let y_step = scroll_step w.vscroll w.size_lin w.screen_lines in
    let x_step = scroll_step w.hscroll w.size_col w.screen_cols in
    let hike = hike_limited y_step w.size_lin (y' -ℤ v.current.origin_lin) v.hike in
    let yo = y_scrolled y_step w.size_lin v.current.origin_lin y' hike in
    let xo = x_scrolled x_step w.size_col v.current.origin_col x' n' in
    let (n_low, n_high) = shown_cols_bounds w n ok.columns in
    let x_shown =
      x_scrolled_lem x_step w.size_col v.current.origin_col x' n' (omega arith)
        (scroll_step_le w.hscroll w.size_col w.screen_cols ok.columns ok.some_columns
          ok.hscroll_fits)
        n_low n_high in
    let y_shown =
      y_scrolled-Shows y_step w.size_lin v.current.origin_lin y' hike (omega arith)
        (scroll_step_le w.vscroll w.size_lin w.screen_lines some_lines (omega arith) vscroll_fits)
        (hike_fits y_step w.size_lin (y' -ℤ v.current.origin_lin) v.hike few) in
    let c = placed f w yo xo y' x' in
    let (lin, col, shown) =
      placed_at f w yo xo y' x' n' ok (wanted_lin_bounds y f.line_count in_buffer) y_shown
        (wanted_col_low f w y x) n_low x_shown fits in
    let same = sym (propagated_current v.current updt (record v { hike = hike; current = c })) in
    subst
      (λ u.
        (u.cursor_lin ≡ y')
        × (u.cursor_col ≡ x')
        × (x' +ℤ n' ≤ℤ u.origin_col +ℤ pos w.size_col)
        × InWindow f w u)
      same (lin, col, shown, placed-InWindow f w yo xo y' x' ok)
