-- ===== src/Tests/Marking.antt =====
-- Marks (mark.cpp) at concrete points.
use k_edit.Prelude.{List, [], ◌∷◌, map, ◌≡◌, refl}
use k_edit.Marks.{NamedPoint, adjust_marks_for_line_insertion}
use k_edit.Marks.Named.{IsSorted}
use k_edit.Marks.Shift.{moved_up_to, adjust_marks_for_line_insertion_lem}

abbrev two_marks : List NamedPoint
two_marks =
    record { pt = record { lin = 2; col = 1 }; name = b'a' ∷ [] }
    ∷ record { pt = record { lin = 7; col = 0 }; name = b'b' ∷ [] }
    ∷ []

two_marks-IsSorted : IsSorted two_marks
two_marks-IsSorted = (refl, (tt, tt))

adjust_marks_for_line_insertion_lem_example :
    adjust_marks_for_line_insertion 4 3 two_marks ≡ map (moved_up_to 4 3) two_marks
adjust_marks_for_line_insertion_lem_example =
    adjust_marks_for_line_insertion_lem 4 3 two_marks two_marks-IsSorted
