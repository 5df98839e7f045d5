-- ===== src/Windows.antt =====
-- Splitting a window in two and merging two windows into one (wnd.cpp), as far as their places, sizes
-- and shares of the screen go. Both directions are the same code with the fields of lines and columns
-- exchanged.
pub mod Merges
use k_edit.Prelude.{
  ℕ, ◌+◌, ◌-◌, ◌*◌, ◌/◌, ◌==◌, min, Bool, true, false, not, ◌&&◌, ◌||◌, leb, ltb, if◌then◌else◌,
  List, [], ◌∷◌, length, Option, none, some,
}

-- The fields of a window in one direction: d_UpLeft, d_Size and d_size_pct
pub record Span : Type 0 where
  pub up_left : ℕ
  pub size : ℕ
  pub size_pct : ℕ

pub record Win : Type 0 where
  pub lin : Span
  pub col : Span

abbrev pub border_width : ℕ
border_width = 1

abbrev pub max_windows : ℕ
max_windows = 10

abbrev pub min_win_width : ℕ
min_win_width = 10

abbrev pub min_win_height : ℕ
min_win_height = 10

-- SPLIT_IT in the direction that is divided: what is left to the parent, and the new window
pub split_span : ℕ → Span → Span × Span
split_span at parent =
    let size = parent.size - at - 2 in
    let parent_size = parent.size - (size + border_width) in
    let pct = (parent.size_pct * size) / (parent.size - border_width) in
    (
      record parent { size = parent_size; size_pct = parent.size_pct - pct },
      record {
        up_left = parent.up_left + (parent_size + border_width);
        size = size;
        size_pct = pct;
      },
    )

-- SPLIT_IT in the other direction, for the new window
abbrev pub beside : Span → Span
beside parent = record parent { size_pct = 100 }

-- The constructor of a window from its parent
pub split_win : Bool → ℕ → Win → Win × Win
unfolding split_span
split_win vertical at parent =
    if vertical
    then (
      record parent { col = (split_span at parent.col).0 },
      record { lin = beside parent.lin; col = (split_span at parent.col).1 },
    )
    else (
      record parent { lin = (split_span at parent.lin).0 },
      record { lin = (split_span at parent.lin).1; col = beside parent.col },
    )

-- Window too small to split
abbrev pub too_small : ℕ → ℕ → ℕ → Bool
too_small least at size = ltb at least || ltb (size - at) least

-- Whether the first two windows stand side by side
abbrev pub split_vertical : Win → Win → Bool
split_vertical w w' = w.lin.up_left == w'.lin.up_left

-- The other direction than that of the windows there are
abbrev pub other_direction : Bool → List Win → Bool
other_direction vertical [] = false
other_direction vertical (w ∷ []) = false
other_direction vertical (w ∷ w' ∷ ws) = if split_vertical w w' then not vertical else vertical

-- SplitCurWnd for the windows `ws` and the current one; `none` is a refusal.
unfoldable pub split_cur_wnd : Bool → ℕ → List Win → Win → Option (Win × Win)
unfolding split_win
split_cur_wnd vertical at ws cur =
    if not (ltb (length ws) max_windows) || other_direction vertical ws
    then none
    else (if (vertical && too_small min_win_width at cur.col.size)
          || (not vertical && too_small min_win_height at cur.lin.size)
        then none
        else some (split_win vertical at cur))

abbrev pub touches : Span → Span → Bool
touches a b =
    (a.up_left + a.size + border_width == b.up_left)
    || (b.up_left + b.size + border_width == a.up_left)

abbrev pub mergeable : Span → Span → Span → Span → Bool
mergeable a a' b b' = (a.size == a'.size) && ((a.up_left == a'.up_left) && touches b b')

pub windows_can_be_merged : Win → Win → Bool
windows_can_be_merged w w' =
    mergeable w.lin w'.lin w.col w'.col || mergeable w.col w'.col w.lin w'.lin

-- WIN_SIZE_MERGE, where the size grows: a window that is resized also gets its new share.
pub merge_span : Span → Span → Span
merge_span closed into = record {
  up_left = min into.up_left closed.up_left;
  size = into.size + (closed.size + border_width);
  size_pct = into.size_pct + closed.size_pct;
}

-- What CloseWindow_ makes of the window merged to
pub merged : Win → Win → Win
unfolding merge_span
merged closed into =
    if split_vertical into closed
    then record into { col = merge_span closed.col into.col }
    else record into { lin = merge_span closed.lin into.lin }
