-- ===== src/Segments.antt =====
-- Parts of lines, and their copies between buffers (fbuf_edit.cpp): PeekRawLineSeg, DupLineForInsert,
-- PutLineSeg, CopyLines, CopyBox, CopyStream. A column is not negative; COL_MAX is a parameter.
-- std::string's functions on a position behind the end throw, which is `none`. The adjustment of the
-- marks (AdjMarksForInsertion) is left out.
pub mod Insert
pub mod Put
pub mod Removed
pub mod Copied
pub mod Streams
use k_edit.Prelude.{
  ℕ, zero, suc, ◌+◌, ◌-◌, min, ltb, leb, ◌==◌, ◌&&◌, ◌||◌, if◌then◌else◌, Bool, true, false, List,
  [], ◌∷◌, ◌++◌, length, take, drop, replicate, Option, none, some,
}
use k_edit.Tabs.{Text, space}
use k_edit.Tabs.Column.{free_idx_of_col, captive_idx_of_col, str_cols}
use k_edit.Tabs.Column.Cache.{new, c2fi, c2ci}
use k_edit.Tabs.Expand.{format_expanded_seg}
use k_edit.Buffer.{Fbuf}
use k_edit.Lines.{peek_raw_line, EntabMode, put_line_entab, insert_lines, line_info_reserve}

-- PeekRawLineSeg
abbrev pub peek_raw_line_seg : ℕ → ℕ → ℕ → ℕ → Fbuf → Text
peek_raw_line_seg tw y x_min x_max f =
    let rl = peek_raw_line f y in
    let (ix_min, conv) = c2fi (new tw rl) x_min in
    let (ix_max, conv') = c2ci conv x_max in
    if ltb x_max x_min
    then []
    else if leb (length rl) ix_min
    then []
    else drop ix_min (take (ix_max + 1) rl)

module _ (col_max tw : ℕ) where
  -- DupLineTabs2Spcs
  abbrev pub dup_line_tabs2spcs : ℕ → Fbuf → Text
  dup_line_tabs2spcs y f = format_expanded_seg col_max (peek_raw_line f y) 0 tw space space

  -- DupLineSeg, where `x_max` is not less than the column before `x_min`
  abbrev pub dup_line_seg : ℕ → ℕ → ℕ → Fbuf → Text
  dup_line_seg y x_min x_max f =
      if ltb y f.line_count
      then format_expanded_seg (x_max + 1 - x_min) (peek_raw_line f y) x_min tw space 0
      else []

  -- DupLineForInsert of the line `dest` with its tabs expanded
  abbrev pub opened_for_insert : Text → ℕ → ℕ → Text
  opened_for_insert dest x_ins insert_cols =
      let padded = dest ++ replicate (x_ins - str_cols tw dest) space in
      let ix_ins = free_idx_of_col tw padded x_ins in
      if ltb 0 insert_cols
      then take ix_ins padded ++ (replicate insert_cols space ++ drop ix_ins padded)
      else padded

  pub dup_line_for_insert : ℕ → ℕ → ℕ → Fbuf → Text
  dup_line_for_insert y x_ins insert_cols f =
      opened_for_insert (dup_line_tabs2spcs y f) x_ins insert_cols

-- replace( pos, n, s ) at a position that is there
abbrev pub replace_at : ℕ → ℕ → Text → Text → Text
replace_at pos n s dest = take pos dest ++ (s ++ drop (pos + n) dest)

module _ (keep_trail : Bool) (mode : EntabMode) (col_max tw : ℕ) where
  -- The line that PutLineSeg puts in its second case, from what DupLineForInsert gives
  abbrev pub merged_line : Text → Text → ℕ → ℕ → Text
  merged_line dest ins x_left x_right =
      let holewidth = x_right + 1 - x_left in
      let inslen = min (length ins) holewidth in
      let lcols = str_cols tw dest in
      let ix_left = free_idx_of_col tw dest x_left in
      let replaced = replace_at ix_left inslen (take inslen ins) dest in
      if ltb lcols x_right
      then take (ix_left + inslen) replaced
      else if ltb inslen holewidth
      then replace_at (ix_left + inslen) (holewidth - inslen) (replicate (holewidth - inslen) space)
          replaced
      else replaced

  -- PutLineSeg, where `x_right` is not less than the column before `x_left`
  pub put_line_seg : ℕ → Text → ℕ → ℕ → Bool → Fbuf → Option Fbuf
  unfolding dup_line_for_insert
  put_line_seg y ins x_left x_right insert f =
      let whole = if insert then 0 else x_right + 1 in
      let hole = if insert then x_right + 1 - x_left else 0 in
      if x_left == 0 && leb (str_cols tw (peek_raw_line f y)) whole
      then put_line_entab keep_trail mode tw y ins f
      else put_line_entab keep_trail mode tw y
          (merged_line (dup_line_for_insert col_max tw y x_left hole f) ins x_left x_right) f

  -- The loop of CopyLines over `n` lines
  pub put_lines : ℕ → ℕ → ℕ → Fbuf → Fbuf → Option Fbuf
  put_lines zero y_dst y_src src dst = some dst
  put_lines (suc n) y_dst y_src src dst =
      elim (put_line_entab keep_trail mode tw y_dst (peek_raw_line src y_src) dst) [
        | none ↦ none
        | some g ↦ put_lines n (y_dst + 1) (y_src + 1) src g
      ]

-- A source of text: no buffer, which stands for blanks, the destination itself, or another buffer with
-- its tab width
pub data Source : Type 0 where
  blanks : Source
  itself : Source
  other : ℕ → Fbuf → Source

module _ (keep_trail : Bool) (mode : EntabMode) (col_max twd : ℕ) where
  -- CopyLines
  unfoldable pub copy_lines : ℕ → Source → ℕ → ℕ → Fbuf → Option Fbuf
  unfolding put_lines
  copy_lines y_dst itself y_start y_end dst = some dst
  copy_lines y_dst blanks y_start y_end dst =
      if ltb y_end y_start then some dst else insert_lines y_dst (y_end - y_start + 1) true dst
  copy_lines y_dst (other tws src) y_start y_end dst =
      if ltb y_end y_start
      then some dst
      else elim (insert_lines y_dst (y_end - y_start + 1) true dst) [
        | none ↦ none
        | some g ↦ put_lines keep_trail mode col_max twd (y_end - y_start + 1) y_dst y_start src g
      ]

  -- A line of the box in CopyBox: `stDst`, and what of the source replaces the blanks in it
  abbrev pub box_part : ℕ → Text → ℕ → ℕ → Text
  box_part tws st_src x_left x_right =
      let (ix_left, conv) = c2fi (new tws st_src) x_left in
      let (ix_right, conv') = c2fi conv x_right in
      take (ix_right + 1 - ix_left) (drop ix_left st_src)

  abbrev pub box_line : ℕ → Source → ℕ → ℕ → ℕ → ℕ → Fbuf → Option Text
  box_line y_dst src x_dst y_src x_left x_right dst =
      let width = x_right + 1 - x_left in
      let st_dst = dup_line_for_insert col_max twd y_dst x_dst width dst in
      let put : Text → Option Text = λ part. elim (captive_idx_of_col twd st_dst x_dst) [
        | none ↦ none
        | some ix ↦ some (replace_at ix width part st_dst)
      ] in
      elim src [
        | blanks ↦ some st_dst
        | itself ↦ put (
            box_part twd (dup_line_for_insert col_max twd y_src (x_right + 1) 0 dst) x_left x_right)
        | other tws s ↦
            put (
              box_part tws (dup_line_for_insert col_max tws y_src (x_right + 1) 0 s) x_left x_right)
      ]

  pub box_lines : ℕ → ℕ → Source → ℕ → ℕ → ℕ → ℕ → Fbuf → Option Fbuf
  box_lines zero y_dst src x_dst y_src x_left x_right dst = some dst
  box_lines (suc n) y_dst src x_dst y_src x_left x_right dst =
      elim (box_line y_dst src x_dst y_src x_left x_right dst) [
        | none ↦ none
        | some line ↦ elim (put_line_entab keep_trail mode twd y_dst line dst) [
          | none ↦ none
          | some g ↦ box_lines n (y_dst + 1) src x_dst (y_src + 1) x_left x_right g
        ]
      ]

  abbrev pub within_range_inclusive : ℕ → ℕ → ℕ → Bool
  within_range_inclusive lower x upper = leb lower x && leb x upper

  -- The test of CopyBox on a source that is the destination
  abbrev pub overlaps : Source → ℕ → ℕ → ℕ → ℕ → ℕ → ℕ → Bool
  overlaps src x_dst y_dst x_left y_top x_right y_bottom =
      let within =
        within_range_inclusive x_left x_dst x_right && within_range_inclusive y_top y_dst y_bottom
        || within_range_inclusive x_left (x_right - x_left + x_dst) x_right
          && within_range_inclusive y_top (y_dst + y_bottom - y_top) y_bottom in
      elim src [ itself ↦ within | _ ↦ false ]

  -- CopyBox of the columns `x_left` to `x_right` of the lines `y_top` to `y_bottom`
  unfoldable pub copy_box : ℕ → ℕ → Source → ℕ → ℕ → ℕ → ℕ → Fbuf → Option Fbuf
  unfolding box_lines dup_line_for_insert line_info_reserve
  copy_box x_dst y_dst src x_left y_top x_right y_bottom dst =
      if ltb x_right x_left
      then some dst
      else if overlaps src x_dst y_dst x_left y_top x_right y_bottom
      then some dst
      else box_lines (y_bottom + 1 - y_top) y_dst src x_dst y_top x_left x_right
          (line_info_reserve (y_dst + y_bottom - y_top + 1) dst)

  -- The part of a stream's last line in front of `x_end`, and the index at which it ends
  abbrev pub stream_tail : Source → ℕ → ℕ → Text × ℕ
  stream_tail src x_end y_end = elim src [
    | other tws s ↦
        let srcbuf = dup_line_for_insert col_max tws y_end x_end 0 s in
        (srcbuf, free_idx_of_col tws srcbuf x_end)
    | _ ↦ let srcbuf = replicate x_end space in (srcbuf, free_idx_of_col 1 srcbuf x_end)
  ]

  -- The new first line: `head` is the destination's line up to the point.
  abbrev pub stream_head : Source → ℕ → ℕ → Text → Option Text
  stream_head src x_start y_start head = elim src [
    | other tws s ↦
        let srcbuf = dup_line_for_insert col_max tws y_start x_start 0 s in
        elim (captive_idx_of_col tws srcbuf x_start) [
          | none ↦ none
          | some ix ↦ some (head ++ drop ix srcbuf)
        ]
    | _ ↦ some head
  ]

  -- The two lines that CopyStream merges, the last one first
  abbrev pub finish_stream : Text → ℕ → Option Text → ℕ → Fbuf → Option Fbuf
  finish_stream last y_last first y_dst g =
      elim (put_line_entab keep_trail mode twd y_last last g) [
        | none ↦ none
        | some h ↦ elim first [
          | none ↦ none
          | some line ↦ put_line_entab keep_trail mode twd y_dst line h
        ]
      ]

  -- CopyStream of the text from `x_start` in the line `y_start` up to `x_end` in `y_end`
  unfoldable pub copy_stream : ℕ → ℕ → Source → ℕ → ℕ → ℕ → ℕ → Fbuf → Option Fbuf
  unfolding copy_lines copy_box dup_line_for_insert
  copy_stream x_dst y_dst itself x_start y_start x_end y_end dst = some dst
  copy_stream x_dst y_dst src x_start y_start x_end y_end dst =
      if ltb y_end y_start
      then some dst
      else if y_start == y_end && leb x_end x_start
      then some dst
      else if y_start == y_end
      then copy_box x_dst y_dst src x_start y_start (x_end - 1) y_end dst
      else elim (copy_lines (y_dst + 1) src (y_start + 1) y_end dst) [
        | none ↦ none
        | some g ↦
            let destbuf = dup_line_for_insert col_max twd y_dst x_dst 0 g in
            let ix_dst = free_idx_of_col twd destbuf x_dst in
            let (srcbuf, ix_end) = stream_tail src x_end y_end in
            let last = take ix_end srcbuf ++ drop ix_dst destbuf in
            let first = stream_head src x_start y_start (take ix_dst destbuf) in
            finish_stream last (y_dst + (y_end - y_start)) first y_dst g
      ]
