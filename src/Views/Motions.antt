-- ===== src/Views/Motions.antt =====
-- Sequences of the commands that move the cursor or the window (cursor.cpp).
use k_edit.Prelude.{
  ℕ, Bool, true, false, Bool-cases, List, [], ◌∷◌, ◌≡◌, refl, sym, ◌∙◌, subst, inl, inr,
  if◌then◌else◌,
}
use k_edit.Prelude.Int.{ℤ, pos, ◌-ℤ◌}
use k_edit.Buffer.{Fbuf}
use k_edit.Views.{
  UlcCursor, View, constrain, leb_ℤ, differ, placed, propagated, scroll_origin_and_cursor_,
  move_cursor_, max_ℤ, tab_align_cursor_policy, scroll_step, hike_limited, y_scrolled, x_scrolled,
}
use k_edit.Views.Windows.{IsUsable, InWindow, placed-InWindow}
use k_edit.Views.Commands.{
  right, left, up, down, begline, endline, home, begfile, endfile, backtab, tab, pmpage,
  setwindow_null, pmlines, scroll_to_prev, scroll_by_pages, scroll_origin_yx,
}
use k_edit.Views.Paragraphs.{ppara, mpara}

pub data Motion : Type 0 where
  go_right go_left go_up go_down go_begline go_endline go_home : Bool → Motion
  go_begfile go_endfile go_backtab go_tab back : Motion
  page : ℤ → Motion
  window_here : ℕ → Motion
  lines : Bool → ℤ → Motion
  next_para : Bool → ℕ → Motion
  prev_para : Bool → Motion

pub perform : Fbuf → Motion → View → View
unfolding right left up down begline endline home begfile endfile backtab tab pmpage setwindow_null
    pmlines ppara mpara scroll_to_prev
perform f (go_right meta) v = (right f meta v).1
perform f (go_left meta) v = (left f meta v).1
perform f (go_up meta) v = (up f meta v).1
perform f (go_down meta) v = (down f meta v).1
perform f (go_begline meta) v = (begline f meta v).1
perform f (go_endline meta) v = (endline f meta v).1
perform f (go_home meta) v = (home f meta v).1
perform f go_begfile v = (begfile f v).1
perform f go_endfile v = (endfile f v).1
perform f go_backtab v = (backtab f v).1
perform f go_tab v = (tab f v).1
perform f back v = scroll_to_prev f v
perform f (page dir) v = (pmpage f dir v).1
perform f (window_here args) v = (setwindow_null f args v).1
perform f (lines null_arg dir) v = (pmlines f null_arg dir v).1
perform f (next_para meta args) v = (ppara f meta args v).1
perform f (prev_para meta) v = (mpara f meta v).1

pub perform_all : Fbuf → List Motion → View → View
unfolding perform
perform_all f [] v = v
perform_all f (m ∷ ms) v = perform_all f ms (perform f m v)

-- What a command leaves of the view `v`
abbrev pub Kept : Fbuf → View → View → Type 0
Kept f v u =
    (u.window ≡ v.window)
    × (u.saved ≡ v.saved)
    × (u.saved_valid ≡ v.saved_valid)
    × InWindow f v.window u.current

propagated-Kept :
    (f : Fbuf) (old : UlcCursor) (updt : Bool) (v : View)
    → InWindow f v.window v.current
    → Kept f v (propagated old updt v)
unfolding propagated
propagated-Kept f old updt v h = elim (Bool-cases v.active_in_win) [
  | inl on ↦ rw on (refl, refl, refl, h)
  | inr off ↦ rw off (refl, refl, refl, h)
]

scroll-Kept :
    (f : Fbuf) (yo xo y x : ℤ) (updt : Bool) (v : View)
    → IsUsable v.window
    → Kept f v (scroll_origin_and_cursor_ f yo xo y x updt v)
unfolding scroll_origin_and_cursor_
scroll-Kept f yo xo y x updt v ok =
    propagated-Kept f v.current updt (record v { current = placed f v.window yo xo y x })
      (placed-InWindow f v.window yo xo y x ok)

move-Kept :
    (f : Fbuf) (y x n : ℤ) (updt : Bool) (v : View)
    → IsUsable v.window
    → Kept f v (move_cursor_ f y x n updt v)
unfolding move_cursor_
move-Kept f y x n updt v ok =
    let w = v.window in
    let c = v.current in
    let y' = max_ℤ (pos 0) y in
    let x' = tab_align_cursor_policy f w y' (max_ℤ (pos 0) x) in
    let step = scroll_step w.vscroll w.size_lin w.screen_lines in
    let hike = hike_limited step w.size_lin (y' -ℤ c.origin_lin) v.hike in
    scroll-Kept f (y_scrolled step w.size_lin c.origin_lin y' hike)
      (x_scrolled (scroll_step w.hscroll w.size_col w.screen_cols) w.size_col c.origin_col x'
        (constrain (pos 1) n (pos w.size_col)))
      y' x' updt (record v { hike = hike }) ok

if-Kept :
    (f : Fbuf) (b : Bool) (r s : Bool × View) (v : View)
    → Kept f v r.1
    → Kept f v s.1
    → Kept f v (if b then r else s).1
if-Kept f true r s v h k = h
if-Kept f false r s v h k = k

perform-Kept :
    (f : Fbuf) (m : Motion) (v : View)
    → IsUsable v.window
    → InWindow f v.window v.current
    → Kept f v (perform f m v)
unfolding perform right left up down begline endline home begfile endfile backtab tab pmpage
    scroll_by_pages setwindow_null pmlines scroll_origin_yx ppara mpara scroll_to_prev
perform-Kept f (go_right meta) v ok h = move-Kept f _ _ _ _ v ok
perform-Kept f (go_left meta) v ok h = move-Kept f _ _ _ _ v ok
perform-Kept f (go_up meta) v ok h = move-Kept f _ _ _ _ v ok
perform-Kept f (go_down meta) v ok h = move-Kept f _ _ _ _ v ok
perform-Kept f (go_begline meta) v ok h = move-Kept f _ _ _ _ v ok
perform-Kept f (go_endline meta) v ok h = move-Kept f _ _ _ _ v ok
perform-Kept f (go_home true) v ok h = move-Kept f _ _ _ _ v ok
perform-Kept f (go_home false) v ok h = move-Kept f _ _ _ _ v ok
perform-Kept f go_begfile v ok h = move-Kept f _ _ _ _ v ok
perform-Kept f go_endfile v ok h = move-Kept f _ _ _ _ v ok
perform-Kept f go_backtab v ok h = move-Kept f _ _ _ _ v ok
perform-Kept f go_tab v ok h = move-Kept f _ _ _ _ v ok
perform-Kept f back v ok h = scroll-Kept f _ _ _ _ _ v ok
perform-Kept f (page dir) v ok h = scroll-Kept f _ _ _ _ _ v ok
perform-Kept f (window_here args) v ok h = scroll-Kept f _ _ _ _ _ v ok
perform-Kept f (lines true dir) v ok h = scroll-Kept f _ _ _ _ _ v ok
perform-Kept f (lines false dir) v ok h = scroll-Kept f _ _ _ _ _ v ok
perform-Kept f (next_para meta args) v ok h =
    if-Kept f (leb_ℤ (pos f.line_count) v.current.cursor_lin) (false, v) _ v (refl, refl, refl, h)
      (move-Kept f _ _ _ _ v ok)
perform-Kept f (prev_para meta) v ok h =
    if-Kept f (differ v.current.cursor_lin (pos 0)) _ (false, v) v (move-Kept f _ _ _ _ v ok)
      (refl, refl, refl, h)

pub perform_all-Kept :
    (f : Fbuf) (ms : List Motion) (v : View)
    → IsUsable v.window
    → InWindow f v.window v.current
    → Kept f v (perform_all f ms v)
unfolding perform_all
perform_all-Kept f [] v ok h = (refl, refl, refl, h)
perform_all-Kept f (m ∷ ms) v ok h =
    let u = perform f m v in
    let (window, saved, valid, within) = perform-Kept f m v ok h in
    let (window', saved', valid', within') =
      perform_all-Kept f ms u (subst IsUsable (sym window) ok)
        (subst (λ w. InWindow f w u.current) (sym window) within) in
    (
      window' ∙ window,
      saved' ∙ saved,
      valid' ∙ valid,
      subst (λ w. InWindow f w (perform_all f ms u).current) window within',
    )

-- For a usable window with the cursor in it: after any sequence of commands that move the cursor or the
-- window, the window is where it may be, and the cursor in it.
pub perform_all-InWindow :
    (f : Fbuf) (ms : List Motion) (v : View)
    → IsUsable v.window
    → InWindow f v.window v.current
    → InWindow f v.window (perform_all f ms v).current
perform_all-InWindow f ms v ok h = (perform_all-Kept f ms v ok h).3
