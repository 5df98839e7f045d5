-- ===== src/Undo/Ranges.antt =====
-- InsertLines__ and DeleteLines__ (fbuf_edit.cpp) in a buffer that is being edited.
use k_edit.Prelude.{
  ℕ, ◌+◌, ◌-◌, ◌≤◌, ◌<◌, min, true, false, List, [], ◌∷◌, ◌++◌, Option, some, ◌≡◌, refl, sym, ap,
  ◌∙◌, subst, arith, ◌⊎◌, inl,
}
use k_edit.Buffer.{
  Fbuf, EditRec, insert, delete, Boundary, is_boundary, dirty_fbuf_and_display, LineInsert,
  LineDelete,
}
use k_edit.EditList.{undo_ins_line_range_ins_hole, undo_ins_line_range_del}
use k_edit.Lines.{insert_lines, insert_lines_body, delete_lines, delete_lines_body}
use k_edit.Lines.Doc.{
  Doc, doc, SameDoc, SameDoc-sym, inserted_at, deleted_at, insert_lines_body-doc,
  delete_lines_body-doc, doc-dirty, SameLists, dirty-SameLists, insert_lines_body-SameLists,
  delete_lines_body-SameLists,
}
use k_edit.EditList.Trim.{IsCounted-recorded, IsCounted-lists}
use k_edit.Undo.Record.{Fits, undone}
use k_edit.Undo.Step.{Restores, Restores-SameDoc}
use k_edit.Undo.Edits.{IsRecording, Edited, recorded, recorded_lem, record_in_front}

-- The buffer behind a change that leaves the lists alone.
pub IsRecording-same :
    (s : Doc) (f g : Fbuf) → doc g ≡ doc f → SameLists f g → IsRecording s f → IsRecording s g
IsRecording-same s f g e l r = record {
  may_edit = l.no_edit ∙ r.may_edit;
  current = r.current;
  older = r.older;
  past_lem = l.past ∙ r.past_lem;
  settled =
      subst
        (λ (t : List EditRec).
          (t ≡ []) ⊎ ((i : List EditRec) × (b : Boundary) × (t ≡ i ++ EditRec.boundary b ∷ [])))
        (sym l.future) r.settled;
  counted = IsCounted-lists l.past l.future l.undo_count r.counted;
  restores =
      subst (λ d. Restores g.past d s) (sym e)
        (subst (λ p. Restores p (doc f) s) (sym l.past) r.restores);
}

-- The buffer `g` is the one with the new record, its document changed.
recorded-Edited :
    (s d : Doc) (e : EditRec) (f g : Fbuf) (r : Option Fbuf)
    → IsRecording s f
    → is_boundary e ≡ false
    → Fits e d
    → SameDoc (doc f) (undone e d)
    → SameLists (recorded e f) g
    → SameDoc (doc g) d
    → r ≡ some g
    → Edited s d r
recorded-Edited s d e f g r rec n fits back l same res = record {
  buffer = g;
  result = res;
  recording = record {
    may_edit = l.no_edit ∙ rec.may_edit;
    current = e;
    older = f.past;
    past_lem = l.past;
    settled = inl l.future;
    counted =
        IsCounted-lists l.past l.future l.undo_count
          (IsCounted-recorded e rec.current rec.older f n rec.past_lem rec.counted);
    restores =
        subst (λ p. Restores p (doc g) s) (sym l.past)
          (Restores-SameDoc (e ∷ f.past) s (SameDoc-sym same)
            (record_in_front e f.past (doc f) d s n fits back rec.restores));
  };
  document = same;
}

abbrev insert_of : ℕ → ℕ → Fbuf → LineInsert
insert_of y n f = record { count = f.line_count; first = y; n = n }

insert-SameDoc :
    (y n : ℕ) (f : Fbuf)
    → SameDoc (doc f) (undone (insert (insert_of y n f)) (inserted_at y n (doc f)))
insert-SameDoc y n f = record {
  counts = refl;
  agree = λ i h. ground (arith, ap f.lines {x = i} {y = i + n - n} (omega arith));
}

abbrev delete_of : ℕ → ℕ → Fbuf → LineDelete
delete_of first n f = record {
  count = f.line_count;
  first = first;
  n = n;
  saved = λ i. f.lines (first + i);
  applied = true;
}

delete-SameDoc :
    (first n : ℕ) (f : Fbuf)
    → first + n ≤ f.line_count
    → SameDoc (doc f) (undone (delete (delete_of first n f)) (deleted_at first n (doc f)))
delete-SameDoc first n f h = record {
  counts = refl;
  agree = λ i lt.
      ground
        (arith, ap f.lines {x = i} {y = first + (i - first)}, ap f.lines {x = i} {y = i - n + n});
}

insert_record :
    (y n : ℕ) (f : Fbuf) (c : EditRec) (cs : List EditRec)
    → f.no_edit ≡ false
    → f.past ≡ c ∷ cs
    → undo_ins_line_range_ins_hole y n f ≡ some (recorded (insert (insert_of y n f)) f)
unfolding undo_ins_line_range_ins_hole
insert_record y n f c cs w p =
    let r = recorded_lem (insert (insert_of y n f)) f c cs p in ground (arith, w, r)

delete_record :
    (first last : ℕ) (f : Fbuf) (c : EditRec) (cs : List EditRec)
    → f.no_edit ≡ false
    → f.past ≡ c ∷ cs
    → undo_ins_line_range_del first last f
      ≡ some (recorded (delete (delete_of first (last - first + 1) f)) f)
unfolding undo_ins_line_range_del
delete_record first last f c cs w p =
    let r = recorded_lem (delete (delete_of first (last - first + 1) f)) f c cs p in
    ground (arith, w, r)

insert_lines-saved :
    (y n : ℕ) (f g : Fbuf)
    → 0 < n
    → y < f.line_count
    → undo_ins_line_range_ins_hole y n (dirty_fbuf_and_display f) ≡ some g
    → insert_lines y n true f ≡ some (insert_lines_body y n g)
unfolding insert_lines
insert_lines-saved y n f g p h e = ground arith

delete_lines-saved :
    (first last : ℕ) (f g : Fbuf)
    → first ≤ last
    → last < f.line_count
    → undo_ins_line_range_del first last (dirty_fbuf_and_display f) ≡ some g
    → delete_lines first last true f ≡ some (delete_lines_body first last g)
unfolding delete_lines
delete_lines-saved first last f g h lt e =
    let m : min last (f.line_count - 1) ≡ last = omega arith in ground (arith, m)

-- In a buffer whose records lead back to the document `s`, inserting lines in front of a line that is
-- there succeeds, with or without room in the array: the new lines are empty, the ones behind them
-- move, and the records are in order and lead back to `s`.
pub insert_lines-Edited :
    (s : Doc) (y n : ℕ) (f : Fbuf)
    → IsRecording s f
    → 0 < n
    → y < f.line_count
    → Edited s (inserted_at y n (doc f)) (insert_lines y n true f)
insert_lines-Edited s y n f r p h =
    let d = dirty_fbuf_and_display f in
    let e = insert (insert_of y n d) in
    let g = insert_lines_body y n (recorded e d) in
    let rd = IsRecording-same s f d (doc-dirty f) (dirty-SameLists f) r in
    let c : d.line_count ≡ f.line_count = ap Doc.count (doc-dirty f) in
    let done =
      insert_lines-saved y n f (recorded e d) p h
        (insert_record y n d rd.current rd.older rd.may_edit rd.past_lem) in
    subst (λ t. Edited s (inserted_at y n t) (insert_lines y n true f)) (doc-dirty f)
      (recorded-Edited s (inserted_at y n (doc d)) e d g (insert_lines y n true f) rd refl
        (p, omega arith, refl, λ i lo hi. ground arith) (insert-SameDoc y n d)
        (insert_lines_body-SameLists y n (recorded e d))
        (insert_lines_body-doc y n (recorded e d) (omega arith)) done)

-- In a buffer whose records lead back to the document `s`, deleting a range of lines that are there
-- succeeds: the lines behind it move up, and the records are in order and lead back to `s`.
pub delete_lines-Edited :
    (s : Doc) (first last : ℕ) (f : Fbuf)
    → IsRecording s f
    → first ≤ last
    → last < f.line_count
    → Edited s (deleted_at first (last - first + 1) (doc f)) (delete_lines first last true f)
delete_lines-Edited s first last f r h lt =
    let n = last - first + 1 in
    let d = dirty_fbuf_and_display f in
    let e = delete (delete_of first n d) in
    let g = delete_lines_body first last (recorded e d) in
    let rd = IsRecording-same s f d (doc-dirty f) (dirty-SameLists f) r in
    let c : d.line_count ≡ f.line_count = ap Doc.count (doc-dirty f) in
    let done =
      delete_lines-saved first last f (recorded e d) h lt
        (delete_record first last d rd.current rd.older rd.may_edit rd.past_lem) in
    subst (λ t. Edited s (deleted_at first n t) (delete_lines first last true f)) (doc-dirty f)
      (recorded-Edited s (deleted_at first n (doc d)) e d g (delete_lines first last true f) rd refl
        (omega arith, omega arith, omega arith, refl) (delete-SameDoc first n d (omega arith))
        (delete_lines_body-SameLists first last (recorded e d))
        (delete_lines_body-doc first last (recorded e d) h (omega arith)) done)
