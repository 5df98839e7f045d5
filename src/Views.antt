-- ===== src/Views.antt =====
-- The place of a view's window and cursor in the buffer: View::MoveCursor_ and the commands that move
-- the cursor (cursor.cpp), View::ScrollOriginAndCursor_ and paging (display.cpp).
pub mod Places
pub mod Windows
pub mod Moves
pub mod Commands
pub mod Paragraphs
pub mod Motions
pub mod Saved
use k_edit.Prelude.{
  ℕ, ◌+◌, ◌*◌, ◌/◌, max, Bool, true, false, not, ◌&&◌, ◌||◌, leb, if◌then◌else◌, List, [], ◌∷◌,
}
use k_edit.Prelude.Int.{ℤ, pos, negsuc, pos_part, neg_part, ◌+ℤ◌, ◌-ℤ◌, ◌*ℤ◌, ltb_ℤ}
use k_edit.Buffer.{Fbuf}
use k_edit.Lines.{peek_raw_line}
use k_edit.Tabs.Column.{tab_aligned_col}

abbrev pub leb_ℤ : ℤ → ℤ → Bool
leb_ℤ a b = leb (pos_part a + neg_part b) (pos_part b + neg_part a)

-- std::max
abbrev pub max_ℤ : ℤ → ℤ → ℤ
max_ℤ a b = if ltb_ℤ a b then b else a

pub constrain : ℤ → ℤ → ℤ → ℤ
constrain lo v hi = let w = if leb_ℤ hi v then hi else v in if leb_ℤ w lo then lo else w

-- COL_MAX
unfoldable pub col_max : ℕ
col_max = 2147483646

-- The size of the window and of the screen, and the switches that MoveCursor_ reads
pub record Window : Type 0 where
  pub size_lin : ℕ
  pub size_col : ℕ
  pub screen_lines : ℕ
  pub screen_cols : ℕ
  pub hscroll : ℕ
  pub vscroll : ℕ
  pub realtabs : Bool
  pub tab_align : Bool
  pub tab_width : ℕ

-- ULC_Cursor
pub record UlcCursor : Type 0 where
  pub origin_lin : ℤ
  pub origin_col : ℤ
  pub cursor_lin : ℤ
  pub cursor_col : ℤ

-- What the display is told to redraw
pub data Redraw : Type 0 where
  line : ℤ → Redraw
  status_line all_lines : Redraw

-- The view, with the window that shows it and g_iHike, which MoveCursor_ limits
pub record View : Type 0 where
  pub window : Window
  pub current : UlcCursor
  pub prev : UlcCursor
  pub saved : UlcCursor
  pub saved_valid : Bool
  pub active_in_win : Bool
  pub updt_wuc_pending : Bool
  pub redraws : List Redraw
  pub hike : ℤ

abbrev pub last_line : Fbuf → ℤ
last_line f = pos f.line_count -ℤ pos 1

-- The bottom limit of the window's first line
pub y_origin_max : Fbuf → Window → ℤ
y_origin_max f w = last_line f -ℤ pos w.size_lin +ℤ pos w.vscroll +ℤ pos (w.size_lin / 3)

-- The cursor goes to the last line or column of the window, and back to the place asked for.
abbrev pub cursor_at : ℤ → ℕ → ℤ → ℤ
cursor_at origin size wanted = constrain origin (origin +ℤ pos size -ℤ pos 1) wanted

pub placed : Fbuf → Window → ℤ → ℤ → ℤ → ℤ → UlcCursor
unfolding constrain y_origin_max col_max
placed f w y_origin x_origin y_cursor x_cursor =
    let o_col = constrain (pos 0) x_origin (pos col_max -ℤ pos w.size_col) in
    let o_lin = constrain (pos 0) y_origin (y_origin_max f w) in
    record {
      origin_lin = o_lin;
      origin_col = o_col;
      cursor_lin = cursor_at o_lin w.size_lin y_cursor;
      cursor_col = cursor_at o_col w.size_col (constrain (pos 0) x_cursor (pos col_max));
    }

abbrev pub differ : ℤ → ℤ → Bool
differ a b = ltb_ℤ a b || ltb_ℤ b a

-- What the display hears of a move from `old`
pub propagated : UlcCursor → Bool → View → View
propagated old updt v =
    let c = v.current in
    let y_scroll = differ old.origin_lin c.origin_lin in
    let x_scroll = differ old.origin_col c.origin_col in
    let vert = y_scroll || differ old.cursor_lin c.cursor_lin in
    let horz = x_scroll || differ old.cursor_col c.cursor_col in
    let lines = if vert then line c.cursor_lin ∷ line old.cursor_lin ∷ v.redraws else v.redraws in
    if v.active_in_win
    then record v {
      redraws = if x_scroll || y_scroll then all_lines ∷ status_line ∷ lines else lines;
      updt_wuc_pending = updt && (vert || horz) || v.updt_wuc_pending;
    }
    else v

pub scroll_origin_and_cursor_ : Fbuf → ℤ → ℤ → ℤ → ℤ → Bool → View → View
unfolding placed propagated
scroll_origin_and_cursor_ f y_origin x_origin y_cursor x_cursor updt v =
    propagated v.current updt
      (record v { current = placed f v.window y_origin x_origin y_cursor x_cursor })

-- The share of `size` that a switch for the whole screen stands for
abbrev pub scroll_step : ℕ → ℕ → ℕ → ℕ
scroll_step switch size screen = max 1 ((switch * size) / screen)

-- The window's first column for a cursor in column `x` with `n` columns to be shown
unfoldable pub x_scrolled : ℕ → ℕ → ℤ → ℤ → ℤ → ℤ
x_scrolled step size origin x n =
    let d = x -ℤ origin in
    let o =
      if ltb_ℤ d (pos 0)
      then (if ltb_ℤ d (pos 0 -ℤ pos step)
          then origin -ℤ pos step +ℤ (d +ℤ pos 1)
          else origin -ℤ pos step)
      else (if leb_ℤ (pos size) d
          then (if leb_ℤ (pos step +ℤ pos size) d
              then origin +ℤ pos step +ℤ (d -ℤ pos size)
              else origin +ℤ pos step)
          else origin) in
    let x_right = x +ℤ n -ℤ pos 1 in
    let x_max = o +ℤ pos size -ℤ pos 1 in if ltb_ℤ x_max x_right then o +ℤ (x_right -ℤ x_max) else o

abbrev pub hike_lines : ℕ → ℤ → ℕ
hike_lines size hike = max 1 ((size * pos_part hike) / 100)

-- within one step of the window?
abbrev pub is_near : ℕ → ℕ → ℤ → Bool
is_near step size d = leb_ℤ (pos 0 -ℤ pos step) d && ltb_ℤ d (pos size +ℤ pos step)

pub hike_limited : ℕ → ℕ → ℤ → ℤ → ℤ
unfolding constrain
hike_limited step size d hike =
    if is_near step size d then hike else constrain (pos 1) hike (pos 99)

unfoldable pub y_scrolled : ℕ → ℕ → ℤ → ℤ → ℤ → ℤ
y_scrolled step size origin y hike =
    let d = y -ℤ origin in
    if is_near step size d
    then (if ltb_ℤ d (pos 0)
        then origin -ℤ pos step
        else (if leb_ℤ (pos size) d then origin +ℤ pos step else origin))
    else y -ℤ pos (hike_lines size hike)

pub tab_align_cursor_policy : Fbuf → Window → ℤ → ℤ → ℤ
tab_align_cursor_policy f w y x =
    if w.realtabs && w.tab_align
    then pos (tab_aligned_col w.tab_width (peek_raw_line f (pos_part y)) (pos_part x))
    else x

pub move_cursor_ : Fbuf → ℤ → ℤ → ℤ → Bool → View → View
unfolding constrain tab_align_cursor_policy x_scrolled y_scrolled hike_limited
    scroll_origin_and_cursor_
move_cursor_ f y_cursor x_cursor visible updt v =
    let w = v.window in
    let y = max_ℤ (pos 0) y_cursor in
    let x = tab_align_cursor_policy f w y (max_ℤ (pos 0) x_cursor) in
    let n = constrain (pos 1) visible (pos w.size_col) in
    let x_origin =
      x_scrolled (scroll_step w.hscroll w.size_col w.screen_cols) w.size_col v.current.origin_col x
        n in
    let step = scroll_step w.vscroll w.size_lin w.screen_lines in
    let hike = hike_limited step w.size_lin (y -ℤ v.current.origin_lin) v.hike in
    let y_origin = y_scrolled step w.size_lin v.current.origin_lin y hike in
    scroll_origin_and_cursor_ f y_origin x_origin y x updt (record v { hike = hike })
