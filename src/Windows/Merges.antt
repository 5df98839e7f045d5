-- ===== src/Windows/Merges.antt =====
-- A window that is split and closed again (wnd.cpp).
use k_edit.Prelude.{
  ℕ, ◌+◌, ◌-◌, ◌*◌, ◌/◌, ◌≤◌, ◌==◌, min, Bool, true, false, ◌||◌, if◌then◌else◌, List, none, some,
  ◌≡◌, refl, subst, arith,
}
use k_edit.Windows.{
  Span, Win, split_span, split_win, too_small, split_cur_wnd, touches, windows_can_be_merged,
  merge_span, merged,
}

pct_le : (p s n : ℕ) → s ≤ n → 1 ≤ n → (p * s) / n ≤ p
pct_le p s n h k = grind arith

-- The two parts and the border between them make up the span, the second behind the first, and share its
-- percentage; both have a least size.
abbrev pub Tiles : Span → Span → Span → Type 0
Tiles s a b =
    (a.size + 1 + b.size ≡ s.size)
    × (a.up_left ≡ s.up_left)
    × (b.up_left ≡ s.up_left + a.size + 1)
    × (a.size_pct + b.size_pct ≡ s.size_pct)
    × (11 ≤ a.size)
    × (8 ≤ b.size)

module _ (at : ℕ) (s : Span) (room : too_small 10 at s.size ≡ false) where
  bounds : (10 ≤ at) × (at + 10 ≤ s.size)
  bounds = (ground (arith, room), ground (arith, room))

  parts : Tiles s (split_span at s).0 (split_span at s).1
  unfolding split_span
  parts =
      let (low, high) = bounds in
      let share : (s.size_pct * (s.size - at - 2)) / (s.size - 1) ≤ s.size_pct =
        pct_le s.size_pct (s.size - at - 2) (s.size - 1) (omega arith) (omega arith) in
      (omega arith, refl, omega arith, omega arith, omega arith, omega arith)

  back : merge_span (split_span at s).1 (split_span at s).0 ≡ s
  unfolding merge_span
  back =
      let (whole, first, second, share, _, _) = parts in
      let a : min (split_span at s).0.up_left (split_span at s).1.up_left ≡ s.up_left =
        omega arith in
      let b : (split_span at s).0.size + ((split_span at s).1.size + 1) ≡ s.size = omega arith in
      rw (a, b, share) refl

  meet : touches (split_span at s).0 (split_span at s).1 ≡ true
  meet = let (whole, first, second, _, _, _) = parts in ground (arith, first, second)

  meet_back : touches (split_span at s).1 (split_span at s).0 ≡ true
  meet_back = let (whole, first, second, _, _, _) = parts in ground (arith, first, second)

  apart : ((split_span at s).0.up_left == (split_span at s).1.up_left) ≡ false
  apart = let (whole, first, second, _, _, _) = parts in ground (arith, first, second)

not_refused :
    (b c : Bool) (x y : Win × Win)
    → (if b then none else (if c then none else some x)) ≡ some y
    → (c ≡ false) × (x ≡ y)
not_refused true c x y h = absurd (cc)
not_refused false true x y h = absurd (cc)
not_refused false false x y h = (refl, cc)

or_false : (a : Bool) → (a || false) ≡ false → a ≡ false
or_false true h = h
or_false false h = h

-- What a split gives, for both directions
abbrev pub Rejoins : Win → Win × Win → Type 0
Rejoins w (parent, new) =
    (windows_can_be_merged new parent ≡ true)
    × (windows_can_be_merged parent new ≡ true)
    × (merged new parent ≡ w)

vertical_lem :
    (at : ℕ) (w : Win) → too_small 10 at w.col.size ≡ false → Rejoins w (split_win true at w)
unfolding split_win windows_can_be_merged merged
vertical_lem at w room =
    let same : (w.lin.size == w.lin.size) ≡ true = ground arith in
    let level : (w.lin.up_left == w.lin.up_left) ≡ true = ground arith in
    (
      rw (same, level, meet_back at w.col room) refl,
      rw (same, level, meet at w.col room) refl,
      rw (level, back at w.col room) refl,
    )

horizontal_lem :
    (at : ℕ) (w : Win) → too_small 10 at w.lin.size ≡ false → Rejoins w (split_win false at w)
unfolding split_win windows_can_be_merged merged
horizontal_lem at w room =
    let same : (w.col.size == w.col.size) ≡ true = ground arith in
    let level : (w.col.up_left == w.col.up_left) ≡ true = ground arith in
    (
      ground (arith, same, level, meet_back at w.lin room),
      ground (arith, same, level, meet at w.lin room),
      rw (apart at w.lin room, back at w.lin room) refl,
    )

-- If SplitCurWnd does not refuse: the parent and the new window can be merged, in both orders, and
-- CloseWindow_ of the new one makes the parent what the window was, its share of the screen included.
pub split_cur_wnd-merged :
    (vertical : Bool) (at : ℕ) (ws : List Win) (w : Win) (two : Win × Win)
    → split_cur_wnd vertical at ws w ≡ some two
    → Rejoins w two
unfolding split_cur_wnd
split_cur_wnd-merged true at ws w two h =
    let (room, same) = not_refused _ _ _ two h in
    subst (Rejoins w) same (vertical_lem at w (or_false (too_small 10 at w.col.size) room))
split_cur_wnd-merged false at ws w two h =
    let (room, same) = not_refused _ _ _ two h in subst (Rejoins w) same (horizontal_lem at w room)

-- The place and the size of a span, with a percentage of 100
abbrev pub Alongside : Span → Span → Type 0
Alongside s b = (b.up_left ≡ s.up_left) × (b.size ≡ s.size) × (b.size_pct ≡ 100)

abbrev pub AlongSplit : Bool → Win → Win × Win → Type 0
AlongSplit true w (parent, new) =
    Tiles w.col parent.col new.col × (parent.lin ≡ w.lin) × Alongside w.lin new.lin
AlongSplit false w (parent, new) =
    Tiles w.lin parent.lin new.lin × (parent.col ≡ w.col) × Alongside w.col new.col

-- If SplitCurWnd does not refuse: in the direction that is divided, the parent, a border of 1 and the new
-- window behind it make up the window that was there, and share its percentage; the parent has 11 lines
-- or columns or more, and the new window 8 or more. In the other direction the parent is as the window
-- was, and the new window has its place and its size, and a percentage of 100.
pub split_cur_wnd-AlongSplit :
    (vertical : Bool) (at : ℕ) (ws : List Win) (w : Win) (two : Win × Win)
    → split_cur_wnd vertical at ws w ≡ some two
    → AlongSplit vertical w two
unfolding split_cur_wnd split_win
split_cur_wnd-AlongSplit true at ws w two h =
    let (room, same) = not_refused _ _ _ two h in
    subst (AlongSplit true w) same
      (parts at w.col (or_false (too_small 10 at w.col.size) room), refl, (refl, refl, refl))
split_cur_wnd-AlongSplit false at ws w two h =
    let (room, same) = not_refused _ _ _ two h in
    subst (AlongSplit false w) same (parts at w.lin room, refl, (refl, refl, refl))
