-- ===== src/Views/Commands.antt =====
-- Commands that move the cursor or the window (cursor.cpp, display.cpp). Each gives what the command
-- returns, and the view. The numbers of the cursor are not negative where they are read as numbers.
use k_edit.Prelude.{ℕ, ◌+◌, ◌==◌, Bool, true, false, not, ◌&&◌, ◌||◌, if◌then◌else◌, [], ◌∷◌}
use k_edit.Prelude.Int.{ℤ, pos, negsuc, pos_part, ◌+ℤ◌, ◌-ℤ◌, ◌*ℤ◌, ltb_ℤ}
use k_edit.Buffer.{Fbuf}
use k_edit.Lines.{peek_raw_line}
use k_edit.Tabs.{Text, htab, space, col_of_next_tab_stop, col_of_prev_tab_stop}
use k_edit.Tabs.Column.{col_of_idx, col_of_next_char, str_cols}
use k_edit.Views.{
  Window, UlcCursor, View, differ, scroll_step, move_cursor_, scroll_origin_and_cursor_,
}

abbrev pub is_blank_ch : ℕ → Bool
is_blank_ch c = c == space || c == htab

pub is_string_blank : Text → Bool
is_string_blank [] = true
is_string_blank (c ∷ s) = is_blank_ch c && is_string_blank s

pub first_non_blank_or_end : Text → ℕ
first_non_blank_or_end [] = 0
first_non_blank_or_end (c ∷ s) =
    let rest = first_non_blank_or_end s in if is_blank_ch c then rest + 1 else 0

pub is_line_blank : Fbuf → ℕ → Bool
unfolding is_string_blank
is_line_blank f y = is_string_blank (peek_raw_line f y)

pub col_of_first_non_blank_char : Fbuf → ℕ → ℕ → ℤ
unfolding is_string_blank first_non_blank_or_end
col_of_first_non_blank_char f tw y =
    let rl = peek_raw_line f y in
    if is_string_blank rl then negsuc 0 else pos (col_of_idx tw rl (first_non_blank_or_end rl))

abbrev pub cur_line_cols : Fbuf → View → ℕ
cur_line_cols f v = str_cols v.window.tab_width (peek_raw_line f (pos_part v.current.cursor_lin))

-- FBufLocn::Moved, for a view that stays the current one
abbrev pub moved : View → View → Bool
moved old v =
    differ old.current.cursor_lin v.current.cursor_lin
    || differ old.current.cursor_col v.current.cursor_col

-- CurView_MoveCursor_fMoved
abbrev pub move_cursor_moved : Fbuf → ℤ → ℤ → View → Bool × View
move_cursor_moved f y x v = let u = move_cursor_ f y x (pos 1) true v in (moved v u, u)

abbrev pub win_lines : View → ℤ
win_lines v = pos v.window.size_lin

abbrev pub win_cols : View → ℤ
win_cols v = pos v.window.size_col

pub constrain_cursor_x_1 : Fbuf → Window → ℤ → ℤ → ℤ
constrain_cursor_x_1 f w y x =
    if w.realtabs && w.tab_align
    then pos (col_of_next_char w.tab_width (peek_raw_line f (pos_part y)) (pos_part x))
    else x +ℤ pos 1

unfoldable pub right : Fbuf → Bool → View → Bool × View
unfolding constrain_cursor_x_1
right f meta v =
    let c = v.current in
    let x =
      if meta
      then win_cols v +ℤ c.origin_col -ℤ pos 1
      else constrain_cursor_x_1 f v.window c.cursor_lin c.cursor_col in
    let u = move_cursor_ f c.cursor_lin x (pos 1) true v in
    (not (differ u.current.cursor_col (pos (cur_line_cols f u))), u)

unfoldable pub left : Fbuf → Bool → View → Bool × View
left f meta v =
    let c = v.current in
    move_cursor_moved f c.cursor_lin (if meta then c.origin_col else c.cursor_col -ℤ pos 1) v

unfoldable pub up : Fbuf → Bool → View → Bool × View
up f meta v =
    let c = v.current in
    move_cursor_moved f (if meta then c.origin_lin else c.cursor_lin -ℤ pos 1) c.cursor_col v

unfoldable pub down : Fbuf → Bool → View → Bool × View
down f meta v =
    let c = v.current in
    move_cursor_moved f
      (if meta then win_lines v +ℤ c.origin_lin -ℤ pos 1 else c.cursor_lin +ℤ pos 1) c.cursor_col v

unfoldable pub begline : Fbuf → Bool → View → Bool × View
unfolding col_of_first_non_blank_char
begline f meta v =
    let c = v.current in
    let first = col_of_first_non_blank_char f v.window.tab_width (pos_part c.cursor_lin) in
    let x = if meta then pos 0 else (if differ c.cursor_col first then first else pos 0) in
    move_cursor_moved f c.cursor_lin x v

unfoldable pub endline : Fbuf → Bool → View → Bool × View
endline f meta v =
    let c = v.current in
    let eoln = pos (cur_line_cols f v) in
    let x =
      if meta || not (differ c.cursor_col eoln)
      then c.origin_col +ℤ win_cols v -ℤ pos 1
      else eoln in
    move_cursor_moved f c.cursor_lin x v

unfoldable pub home : Fbuf → Bool → View → Bool × View
home f meta v =
    let c = v.current in
    if meta
    then move_cursor_moved f (c.origin_lin +ℤ win_lines v -ℤ pos 1)
        (c.origin_col +ℤ win_cols v -ℤ pos 1) v
    else move_cursor_moved f c.origin_lin c.origin_col v

unfoldable pub begfile : Fbuf → View → Bool × View
begfile f v = move_cursor_moved f (pos 0) v.current.cursor_col v

unfoldable pub endfile : Fbuf → View → Bool × View
endfile f v = move_cursor_moved f (pos f.line_count) v.current.cursor_col v

unfoldable pub backtab : Fbuf → View → Bool × View
backtab f v =
    move_cursor_moved f v.current.cursor_lin
      (col_of_prev_tab_stop v.window.tab_width (pos_part v.current.cursor_col)) v

unfoldable pub tab : Fbuf → View → Bool × View
tab f v =
    move_cursor_moved f v.current.cursor_lin
      (pos (col_of_next_tab_stop v.window.tab_width (pos_part v.current.cursor_col))) v

unfoldable pub scroll_by_pages : Fbuf → ℤ → View → View
scroll_by_pages f pages v =
    let c = v.current in
    let d = win_lines v *ℤ pages in
    scroll_origin_and_cursor_ f (c.origin_lin +ℤ d) c.origin_col (c.cursor_lin +ℤ d) c.cursor_col
      false v

-- mpage and ppage, for the directions -1 and 1
unfoldable pub pmpage : Fbuf → ℤ → View → Bool × View
unfolding scroll_by_pages
pmpage f dir v = let u = scroll_by_pages f dir v in (moved v u, u)

unfoldable pub scroll_origin_yx : Fbuf → ℤ → ℤ → View → View
scroll_origin_yx f y x v =
    scroll_origin_and_cursor_ f y x v.current.cursor_lin v.current.cursor_col true v

-- The branch NULLARG of setwindow, with the number of times that arg was given
unfoldable pub setwindow_null : Fbuf → ℕ → View → Bool × View
unfolding scroll_origin_yx
setwindow_null f args v =
    let c = v.current in
    (true, scroll_origin_yx f c.cursor_lin (if args == 1 then c.cursor_col else c.origin_col) v)

-- The branches NULLARG and NOARG of pmlines; plines and mlines for the directions 1 and -1
unfoldable pub pmlines : Fbuf → Bool → ℤ → View → Bool × View
unfolding scroll_origin_yx
pmlines f null_arg direction v =
    let c = v.current in
    let w = v.window in
    if null_arg
    then (
      true,
      scroll_origin_yx f
          (if ltb_ℤ (pos 0) direction then c.cursor_lin else c.cursor_lin -ℤ win_lines v +ℤ pos 1)
          c.origin_col v,
    )
    else (
      true,
      scroll_origin_yx f
          (c.origin_lin +ℤ direction *ℤ pos (scroll_step w.vscroll w.size_lin w.screen_lines))
          c.origin_col v,
    )

abbrev pub scroll_to : Fbuf → UlcCursor → View → View
scroll_to f c v =
    scroll_origin_and_cursor_ f c.origin_lin c.origin_col c.cursor_lin c.cursor_col true v

unfoldable pub save_cur : View → View
save_cur v = record v { saved = v.current; saved_valid = true }

unfoldable pub rest_cur : Fbuf → View → Bool × View
rest_cur f v = (v.saved_valid, if v.saved_valid then scroll_to f v.saved v else v)

-- The validity flag of d_prev is not read.
unfoldable pub scroll_to_prev : Fbuf → View → View
scroll_to_prev f v = record (scroll_to f v.prev v) { prev = v.current }
