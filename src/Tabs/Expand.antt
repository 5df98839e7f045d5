-- ===== src/Tabs/Expand.antt =====
-- `PrettifyWriter` (fbuf_edit.cpp), with the two functions that write to an empty string through it,
-- `PrettifyInsert` and `FormatExpandedSeg`. `dix` is the length of what is written.
pub mod Segment
use k_edit.Prelude.{
  ℕ, zero, suc, ◌+◌, ◌-◌, ltb, leb, ◌==◌, ◌&&◌, ◌||◌, not, if◌then◌else◌, Bool, true, false, List,
  [], ◌∷◌, ◌++◌, length, reverse, get_or,
}
use k_edit.Tabs.{Text, htab, space, col_of_next_tab_stop}

-- What the walk over the source has done: the column, and the characters written.
pub record Writer : Type 0 where
  pub x_col : ℕ
  pub out : Text

-- The lambda `wr_char`: characters left of `src_xMin` are counted and not written.
pub wr_char : ℕ → ℕ → Writer → Writer
wr_char x_min ch w = record {
  x_col = w.x_col + 1;
  out = if leb x_min w.x_col then w.out ++ ch ∷ [] else w.out;
}

-- The glyphs that stand for a tab; 0xF9 and 0xFA are BIG_BULLET and SMALL_BULLET.
pub tab_expand : ℕ → Text
tab_expand ch =
    if ch == 0xF9
    then 0xF9 ∷ 0xFA ∷ []
    else if ch == b'>'
    then b'>' ∷ b'-' ∷ []
    else if ch == b'*'
    then b'*' ∷ b'.' ∷ []
    else if ch == b'-'
    then b'-' ∷ b'-' ∷ b'>' ∷ []
    else if ch == b'<'
    then b'<' ∷ b'-' ∷ b'>' ∷ []
    else if ch == b'^'
    then b'^' ∷ b'`' ∷ []
    else ch ∷ []

-- `srTabExpand[0]`, `chFill` and `chLast`
pub record Glyphs : Type 0 where
  pub first : ℕ
  pub fill : ℕ
  pub last : ℕ

pub glyphs_of : Text → Glyphs
glyphs_of sr = record {
  first = get_or sr 0 0;
  fill = get_or sr (if ltb 1 (length sr) then 1 else 0) 0;
  last = get_or sr (length sr - 1) 0;
}

-- `while( xCol < tgt && dix < maxCharsToWrite )`: each round advances the column by one, so the
-- rounds are counted by what is left to the target.
pub fill_tab : Glyphs → ℕ → ℕ → ℕ → ℕ → Writer → Writer
fill_tab g max x_min tgt zero w = w
fill_tab g max x_min tgt (suc rounds) w =
    let more =
      fill_tab g max x_min tgt rounds
        (wr_char x_min (if w.x_col == tgt - 1 then g.last else g.fill) w) in
    if ltb w.x_col tgt && ltb (length w.out) max then more else w

-- One character of the source.
pub write_char : Glyphs → ℕ → ℕ → ℕ → ℕ → ℕ → Writer → Writer
unfolding fill_tab wr_char
write_char g tw ch_tab max x_min ch w =
    if not (ch == htab) || ch_tab == 0
    then wr_char x_min ch w
    else let tgt = col_of_next_tab_stop tw w.x_col in
      let w' = wr_char x_min (if w.x_col == tgt - 1 then g.last else g.first) w in
      fill_tab g max x_min tgt (tgt - w'.x_col) w'

-- The loop over the source: what is written, and the source that is left.
pub walk : Glyphs → ℕ → ℕ → ℕ → ℕ → Text → Writer → Writer × Text
unfolding write_char
walk g tw ch_tab max x_min [] w = (w, [])
walk g tw ch_tab max x_min (ch ∷ src) w =
    let more = walk g tw ch_tab max x_min src (write_char g tw ch_tab max x_min ch w) in
    if ltb (length w.out) max then more else (w, ch ∷ src)

pub spaces_only : Text → Bool
spaces_only [] = true
spaces_only (c ∷ s) = c == space && spaces_only s

-- The spaces among the trailing blanks are replaced: over the reversed text, up to the first
-- character that is no blank.
pub subst_trailing : ℕ → Text → Text
subst_trailing ch [] = []
subst_trailing ch (c ∷ s) =
    if c == space
    then ch ∷ subst_trailing ch s
    else if c == htab
    then c ∷ subst_trailing ch s
    else c ∷ s

pub finish : ℕ → Writer × Text → Text
unfolding spaces_only subst_trailing
finish ch_trail (w, left) =
    if not (ch_trail == 0) && spaces_only left
    then reverse (subst_trailing ch_trail (reverse w.out))
    else w.out

-- The parameters in the source's order: `maxCharsToWrite`, `src`, `src_xMin`, `tabWidth`,
-- `chTabExpand`, `chTrailSpcs`.
pub format_expanded_seg : ℕ → Text → ℕ → ℕ → ℕ → ℕ → Text
unfolding walk finish tab_expand glyphs_of
format_expanded_seg max src x_min tw ch_tab ch_trail =
    finish ch_trail (
      walk (glyphs_of (tab_expand ch_tab)) tw ch_tab max x_min src (record { x_col = 0; out = [] }))
