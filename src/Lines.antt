-- ===== src/Lines.antt =====
-- Inserting, deleting and replacing lines (fbuf_edit.cpp): LineInfoReserve, InsertLines__,
-- DeleteLines__, PutLineRaw and PutLineEntab. The memory that an allocation gives is modelled as empty lines; each
-- function writes every slot of it below the new capacity before it returns. The display is left out.
pub mod Doc
use k_edit.Prelude.{
  ℕ, zero, suc, ◌+◌, ◌-◌, ltb, leb, ◌==◌, ◌&&◌, ◌||◌, not, if◌then◌else◌, Bool, true, false, List,
  [], ◌∷◌, ◌++◌, min, length, reverse, Option, none, some,
}
use k_edit.Tabs.Entab.{spcs2tabs_leading, spcs2tabs_all, spcs2tabs_outside_quotes}
use k_edit.Tabs.{Text, space, htab}
use k_edit.Buffer.{
  LineInfo, empty_line, Fbuf, move_array, clear_range, fbuf_event, dirty_fbuf_and_display, inserted,
  deleted,
}
use k_edit.EditList.{undo_ins_line_range_ins_hole, undo_ins_line_range_del, undo_ins_edit_line}

abbrev pub line_head_space : ℕ
line_head_space = 50

unfoldable pub line_info_reserve : ℕ → Fbuf → Fbuf
unfolding move_array clear_range
line_info_reserve lines_needed f =
    let lines_to_alloc = lines_needed + line_head_space in
    let fresh = λ (i : ℕ). empty_line in
    let moved = λ (i : ℕ). if ltb i f.line_count then f.lines i else fresh i in
    if ltb f.capacity lines_needed
    then record f {
      capacity = lines_to_alloc;
      lines = clear_range f.line_count (lines_to_alloc - f.line_count) moved;
    }
    else f

-- Both ways to open the hole: within the array, and by a new array with the three parts copied.
unfoldable pub open_hole : ℕ → ℕ → Fbuf → Fbuf
unfolding move_array clear_range
open_hole y n f =
    let trailing = f.line_count - y in
    let lines_needed = f.line_count + n in
    let lines_to_alloc = lines_needed + line_head_space in
    let fresh = λ (i : ℕ). empty_line in
    let head = λ (i : ℕ). if ltb i y then f.lines i else fresh i in
    let body = λ (i : ℕ).
      if leb (y + n) i && ltb i (y + n + trailing) then f.lines (i - (y + n) + y) else head i in
    if leb lines_needed f.capacity
    then record f { lines = move_array (y + n) y trailing f.lines }
    else record f {
      capacity = lines_to_alloc;
      lines = clear_range (lines_to_alloc - line_head_space) line_head_space body;
    }

-- InsertLines__ behind its undo record
unfoldable pub insert_lines_body : ℕ → ℕ → Fbuf → Fbuf
unfolding open_hole clear_range fbuf_event
insert_lines_body y n f =
    let g = open_hole y n f in
    fbuf_event (inserted y n)
      (record g { lines = clear_range y n g.lines; line_count = g.line_count + n })

-- InsertLines__( yInsBefore, lineInsertCount, fSaveUndoInfo )
unfoldable pub insert_lines : ℕ → ℕ → Bool → Fbuf → Option Fbuf
unfolding insert_lines_body line_info_reserve dirty_fbuf_and_display
insert_lines y n save f =
    let d = dirty_fbuf_and_display f in
    let saved : Option Fbuf = if save then undo_ins_line_range_ins_hole y n d else some d in
    if n == 0
    then some f
    else if leb f.line_count y
    then some (line_info_reserve (y + n) f)
    else elim saved [ none ↦ none | some g ↦ some (insert_lines_body y n g) ]

-- DeleteLines__ behind its undo record
unfoldable pub delete_lines_body : ℕ → ℕ → Fbuf → Fbuf
unfolding move_array clear_range fbuf_event
delete_lines_body first last f =
    let y_delta = last - first + 1 in
    let moved = move_array first (last + 1) (f.line_count - 1 - last) f.lines in
    let count = f.line_count - y_delta in
    fbuf_event (deleted first y_delta)
      (record f { lines = clear_range count y_delta moved; line_count = count })

-- DeleteLines__( firstLine, lastLine, fSaveUndoInfo )
unfoldable pub delete_lines : ℕ → ℕ → Bool → Fbuf → Option Fbuf
unfolding delete_lines_body dirty_fbuf_and_display
delete_lines first last save f =
    let d = dirty_fbuf_and_display f in
    let last' = min last (f.line_count - 1) in
    let saved : Option Fbuf = if save then undo_ins_line_range_del first last' d else some d in
    if leb f.line_count first
    then some f
    else if ltb last first
    then some f
    else elim saved [ none ↦ none | some g ↦ some (delete_lines_body first last' g) ]

-- the loop that counts trailing blanks, over the reversed line
abbrev pub drop_blanks : Text → Text
drop_blanks [] = []
drop_blanks (c ∷ s) = if c == space || c == htab then drop_blanks s else c ∷ s

abbrev pub text_eq : Text → Text → Bool
text_eq [] [] = true
text_eq [] (d ∷ t) = false
text_eq (c ∷ s) [] = false
text_eq (c ∷ s) (d ∷ t) = c == d && text_eq s t

-- PeekRawLine
abbrev pub peek_raw_line : Fbuf → ℕ → Text
peek_raw_line f y = if ltb y f.line_count then (f.lines y).text else []

-- PutLineRaw; `keep_trail` is TrailSpcsKept().
unfoldable pub put_line_raw : Bool → ℕ → Text → Fbuf → Option Fbuf
unfolding line_info_reserve dirty_fbuf_and_display undo_ins_edit_line
put_line_raw keep_trail y src f =
    let text = if keep_trail then src else reverse (drop_blanks (reverse src)) in
    let d = dirty_fbuf_and_display f in
    let r = line_info_reserve (y + 1) d in
    let grown = if ltb f.line_count (y + 1) then record r { line_count = y + 1 } else d in
    if f.no_edit
    then some f
    else if leb f.line_count y || not (text_eq text (peek_raw_line f y))
    then undo_ins_edit_line y text grown
    else some f

-- What `Entab()` says: ENTAB_0_NO_CONV, ENTAB_1_LEADING_SPCS_TO_TABS,
-- ENTAB_2_SPCS_NOTIN_QUOTES_TO_TABS, ENTAB_3_ALL_SPC_TO_TABS
pub data EntabMode : Type 0 where
  no_conv leading_spcs spcs_not_in_quotes all_spcs : EntabMode

abbrev pub entabbed : EntabMode → ℕ → Text → Text
entabbed no_conv tw src = src
entabbed leading_spcs tw src = spcs2tabs_leading tw src
entabbed spcs_not_in_quotes tw src = spcs2tabs_outside_quotes tw src
entabbed all_spcs tw src = spcs2tabs_all tw src

-- PutLineEntab
unfoldable pub put_line_entab : Bool → EntabMode → ℕ → ℕ → Text → Fbuf → Option Fbuf
unfolding put_line_raw
put_line_entab keep_trail mode tw y src f =
    if f.no_edit then some f else put_line_raw keep_trail y (entabbed mode tw src) f
