-- ===== src/Marks.antt =====
-- The marks of a buffer (mark.cpp): the list d_MarkHead of named points, in the order of the points.
-- A name is the bytes before its zero byte. The list is linked both ways in the source; here it is
-- the sequence of its elements.
pub mod Named
pub mod Shift
use k_edit.Prelude.{
  ℕ, ◌+◌, ltb, ◌==◌, ◌&&◌, ◌||◌, not, if◌then◌else◌, Bool, true, false, List, [], ◌∷◌, map, Option,
  none, some,
}
use k_edit.Tabs.{Text}
use k_edit.Buffer.{Point}
use k_edit.Lines.{text_eq}

pub record NamedPoint : Type 0 where
  pub pt : Point
  pub name : Text

-- `operator<` and `operator==` of class Point
abbrev pub point_lt : Point → Point → Bool
point_lt a b = ltb a.lin b.lin || (a.lin == b.lin && ltb a.col b.col)

abbrev pub point_eq : Point → Point → Bool
point_eq a b = a.lin == b.lin && a.col == b.col

-- NamedPointListInsert
abbrev pub list_insert : NamedPoint → List NamedPoint → List NamedPoint
list_insert new [] = new ∷ []
list_insert new (m ∷ ms) = if point_lt new.pt m.pt then new ∷ m ∷ ms else m ∷ list_insert new ms

-- NamedPointFind
abbrev pub find : Text → List NamedPoint → Option NamedPoint
find name [] = none
find name (m ∷ ms) = if text_eq m.name name then some m else find name ms

-- NamedPointListDeleteAllMatches: the list, and the number deleted. A mark at the point `pt`, if that
-- is given, is kept.
abbrev pub delete_all_matches : Text → Option Point → List NamedPoint → List NamedPoint × ℕ
delete_all_matches name pt [] = ([], 0)
delete_all_matches name pt (m ∷ ms) =
    let (rest, count) = delete_all_matches name pt ms in
    let elsewhere : Bool = elim pt [ none ↦ true | some p ↦ not (point_eq p m.pt) ] in
    if text_eq m.name name && elsewhere then (rest, count + 1) else (m ∷ rest, count)

-- NamedPointListAddLineOfsPast. The flag is the source's `fPastThld`, which the second operand of the
-- `&&` assigns; AdjustMarksForLineInsertion passes the line and the number of lines.
abbrev pub add_line_ofs_past_from : Bool → ℕ → ℕ → List NamedPoint → List NamedPoint
add_line_ofs_past_from past y delta [] = []
add_line_ofs_past_from past y delta (m ∷ ms) =
    let past' = past || ltb y m.pt.lin in
    let moved : NamedPoint = record {
      pt = record { lin = m.pt.lin + delta; col = m.pt.col };
      name = m.name;
    } in
    (if past' then m else moved) ∷ add_line_ofs_past_from past' y delta ms

abbrev pub adjust_marks_for_line_insertion : ℕ → ℕ → List NamedPoint → List NamedPoint
adjust_marks_for_line_insertion y delta ms = add_line_ofs_past_from false y delta ms

-- MarkDefineAtCurPos, on the marks of the current file and those of the others: MarkDelete takes the
-- name out of every file.
abbrev pub mark_define :
    Text
    → Point
    → List NamedPoint
    → List (List NamedPoint)
    → List NamedPoint × List (List NamedPoint)
mark_define name cursor ms others = (
  list_insert (record { pt = cursor; name = name }) (delete_all_matches name none ms).0,
  map (λ other. (delete_all_matches name none other).0) others,
)
