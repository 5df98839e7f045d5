-- ===== src/Marks/Shift.antt =====
-- NamedPointListAddLineOfsPast (mark.cpp): what inserting lines does to the marks.
use k_edit.Prelude.{
  ℕ, ◌+◌, ltb, leb, if◌then◌else◌, true, false, Bool-cases, List, [], ◌∷◌, map, ◌≡◌, refl, sym, ap,
  ◌∙◌, inl, inr, arith,
}
use k_edit.Marks.{NamedPoint, add_line_ofs_past_from, adjust_marks_for_line_insertion}
use k_edit.Marks.Named.{IsSorted}

abbrev pub moved_up_to : ℕ → ℕ → NamedPoint → NamedPoint
moved_up_to y delta m =
    if leb m.pt.lin y
    then record { pt = record { lin = m.pt.lin + delta; col = m.pt.col }; name = m.name }
    else m

past_stay : (y delta : ℕ) (ms : List NamedPoint) → add_line_ofs_past_from true y delta ms ≡ ms
past_stay y delta [] = refl
past_stay y delta (m ∷ ms) = ap (m ∷◌) (past_stay y delta ms)

behind_stay :
    (y delta : ℕ) (m : NamedPoint) (ms : List NamedPoint)
    → IsSorted (m ∷ ms)
    → ltb y m.pt.lin ≡ true
    → map (moved_up_to y delta) (m ∷ ms) ≡ m ∷ ms
behind_stay y delta m [] s h = let e : leb m.pt.lin y ≡ false = ground arith in rw e refl
behind_stay y delta m (n ∷ ms) (a, s) h =
    let e : leb m.pt.lin y ≡ false = ground arith in
    rw e (ap (m ∷◌) (behind_stay y delta n ms s (ground arith)))

-- On marks in order, inserting `delta` lines in front of the line `y` moves the marks on the lines up
-- to `y` by `delta` lines, and no other: those behind the insertion stay.
pub adjust_marks_for_line_insertion_lem :
    (y delta : ℕ) (ms : List NamedPoint)
    → IsSorted ms
    → adjust_marks_for_line_insertion y delta ms ≡ map (moved_up_to y delta) ms
adjust_marks_for_line_insertion_lem y delta [] s = refl
adjust_marks_for_line_insertion_lem y delta (m ∷ ms) (a, s) = elim (Bool-cases (ltb y m.pt.lin)) [
  | inl q ↦ rw q (ap (m ∷◌) (past_stay y delta ms)) ∙ sym (behind_stay y delta m ms (a, s) q)
  | inr q ↦
      let e : leb m.pt.lin y ≡ true = ground arith in
      rw q (
        rw e (
          ap (record { pt = record { lin = m.pt.lin + delta; col = m.pt.col }; name = m.name } ∷◌)
            (adjust_marks_for_line_insertion_lem y delta ms s)))
]
