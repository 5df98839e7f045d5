-- ===== src/Undo/Edits.antt =====
-- UndoIns_EditLine (fbuf_undo.cpp) and the invariant of a buffer that is being edited.
use k_edit.Prelude.{
  ℕ, ◌<◌, true, false, List, [], ◌∷◌, ◌++◌, Option, some, ◌≡◌, refl, sym, ap, ◌∙◌, subst, arith,
  Bool-cases, ◌⊎◌, inl, inr,
}
use k_edit.Tabs.{Text}
use k_edit.Buffer.{
  empty_line, put_content, set_line, set_y_changed_min, Fbuf, EditRec, AltLine, alt, insert, delete,
  boundary, Boundary, is_boundary,
}
use k_edit.EditList.{
  split_last, newest, is_alt_content_of_line, new_alt, record_and_put, undo_ins_edit_line,
  undo_ins_line_range_ins_hole, undo_ins_line_range_del,
}
use k_edit.EditList.Count.{undone_dropped, add_new_edit_op_lem, split_last-snoc}
use k_edit.Lines.Doc.{Doc, doc, SameDoc, SameDoc-refl, SameDoc-sym}
use k_edit.EditList.Trim.{IsCounted, IsCounted-recorded, IsCounted-lists}
use k_edit.Undo.Record.{Fits, undone}
use k_edit.Undo.Step.{Restores, Restores-SameDoc}

-- The newest record is the current one, or a boundary.
abbrev pub IsSettled : Fbuf → Type 0
IsSettled f =
    (f.future ≡ []) ⊎ ((i : List EditRec) × (b : Boundary) × (f.future ≡ i ++ boundary b ∷ []))

-- The buffer may be edited, it has a list of records, and undoing those since the last boundary
-- gives the document `s`.
pub record IsRecording (s : Doc) (f : Fbuf) : Type 0 where
  pub may_edit : f.no_edit ≡ false
  pub current : EditRec
  pub older : List EditRec
  pub past_lem : f.past ≡ current ∷ older
  pub settled : IsSettled f
  pub counted : IsCounted f
  pub restores : Restores f.past (doc f) s

abbrev pub put_line : ℕ → Text → Doc → Doc
put_line y t d = record { count = d.count; line = set_line y (put_content t) d.line }

-- Replacing the line again gives what replacing it once gives.
put_line-SameDoc :
    (a : AltLine) (y : ℕ) (t : Text) (d : Doc)
    → a.line ≡ y
    → SameDoc (undone (alt a) d) (undone (alt a) (put_line y t d))
unfolding set_line
put_line-SameDoc a y t d e = record { counts = refl; agree = λ i h. ground arith }

new_alt-SameDoc :
    (y : ℕ) (t : Text) (d : Doc)
    → SameDoc d
        (undone (alt (record { count = d.count; line = y; li = d.line y })) (put_line y t d))
unfolding set_line
new_alt-SameDoc y t d = record {
  counts = refl;
  agree = λ i h. ground (arith, λ (e : i ≡ y). ap d.line e);
}

-- What the line held in between does not matter.
put_twice-SameDoc :
    (y : ℕ) (t : Text) (d : Doc)
    → SameDoc (put_line y t d) (put_line y t (record d { line = set_line y empty_line d.line }))
unfolding set_line
put_twice-SameDoc y t d = record { counts = refl; agree = λ i h. ground arith }

-- The buffer behind UndoIns_EditLine, where a record is made.
abbrev edited : ℕ → Text → Fbuf → Fbuf
edited y t f = set_y_changed_min y (record f { lines = set_line y (put_content t) f.lines })

abbrev alt_of : ℕ → Fbuf → EditRec
alt_of y f = alt (record { count = f.line_count; line = y; li = f.lines y })

abbrev moved_out : ℕ → Fbuf → Fbuf
moved_out y f = record f { lines = set_line y empty_line f.lines }

abbrev pub recorded : EditRec → Fbuf → Fbuf
recorded e f = record (undone_dropped f) { past = e ∷ f.past }

pub recorded_lem :
    (e : EditRec) (f : Fbuf) (c : EditRec) (cs : List EditRec)
    → f.past ≡ c ∷ cs
    → k_edit.EditList.add_new_edit_op e f ≡ some (recorded e f)
recorded_lem e f c cs p =
    add_new_edit_op_lem e f c cs p
    ∙ ap (λ t. some (record (undone_dropped f) { past = e ∷ t })) (sym p)

edit_line_new :
    (y : ℕ) (t : Text) (f : Fbuf) (c n : EditRec) (cs : List EditRec)
    → f.past ≡ c ∷ cs
    → newest f ≡ some n
    → is_alt_content_of_line y n ≡ false
    → record_and_put y t f ≡ some (edited y t (recorded (alt_of y f) (moved_out y f)))
unfolding record_and_put new_alt
edit_line_new y t f c n cs p e k =
    let r = recorded_lem (alt_of y f) (moved_out y f) c cs p in ground (arith, r)

edit_line_again :
    (y : ℕ) (t : Text) (f : Fbuf) (n : EditRec)
    → newest f ≡ some n
    → is_alt_content_of_line y n ≡ true
    → record_and_put y t f ≡ some (edited y t f)
unfolding record_and_put
edit_line_again y t f n e k = ground arith

edit_line_recorded :
    (y : ℕ) (t : Text) (f : Fbuf) (n : EditRec)
    → f.no_edit ≡ false
    → newest f ≡ some n
    → undo_ins_edit_line y t f ≡ record_and_put y t f
unfolding undo_ins_edit_line
edit_line_recorded y t f n w e = ground arith

-- A record that fits, in front, restores the same document from what the edit made.
pub record_in_front :
    (e : EditRec) (es : List EditRec) (d d' s : Doc)
    → is_boundary e ≡ false
    → Fits e d'
    → SameDoc d (undone e d')
    → Restores es d s
    → Restores (e ∷ es) d' s
record_in_front (alt a) es d d' s n fits same r = (fits, Restores-SameDoc es s same r)
record_in_front (insert a) es d d' s n fits same r = (fits, Restores-SameDoc es s same r)
record_in_front (delete a) es d d' s n fits same r = (fits, Restores-SameDoc es s same r)
record_in_front (boundary b) es d d' s n fits same r = absurd (ground arith)

-- `d_pNewestEdit` is the current record or a boundary.
newest-settled :
    (f : Fbuf) (c : EditRec) (cs : List EditRec)
    → f.past ≡ c ∷ cs
    → IsSettled f
    → ((newest f ≡ some c) × (f.future ≡ [])) ⊎ ((b : Boundary) × (newest f ≡ some (boundary b)))
newest-settled f c cs p (inl nil) = inl (ground arith, nil)
newest-settled f c cs p (inr (i, b, e)) =
    inr (b, let r = split_last-snoc i (boundary b) in ground arith)

again-Restores :
    (c : EditRec) (cs : List EditRec) (y : ℕ) (t : Text) (d s : Doc)
    → is_alt_content_of_line y c ≡ true
    → Restores (c ∷ cs) d s
    → Restores (c ∷ cs) (put_line y t d) s
again-Restores (alt a) cs y t d s k (fits, r) =
    (fits, Restores-SameDoc cs s (put_line-SameDoc a y t d (ground arith)) r)
again-Restores (insert a) cs y t d s k r = absurd (ground arith)
again-Restores (delete a) cs y t d s k r = absurd (ground arith)
again-Restores (boundary b) cs y t d s k r = absurd (ground arith)

-- What an edit leaves: the document `d`, with the records.
pub record Edited (s d : Doc) (r : Option Fbuf) : Type 0 where
  pub buffer : Fbuf
  pub result : r ≡ some buffer
  pub recording : IsRecording s buffer
  pub document : SameDoc (doc buffer) d

Edited-new :
    (s : Doc) (y : ℕ) (t : Text) (f : Fbuf) (n : EditRec)
    → IsRecording s f
    → y < f.line_count
    → newest f ≡ some n
    → is_alt_content_of_line y n ≡ false
    → Edited s (put_line y t (doc f)) (undo_ins_edit_line y t f)
unfolding set_y_changed_min
Edited-new s y t f n r h e k = record {
  buffer = edited y t (recorded (alt_of y f) (moved_out y f));
  result =
      edit_line_recorded y t f n r.may_edit e
      ∙ edit_line_new y t f r.current n r.older r.past_lem e k;
  recording = record {
    may_edit = r.may_edit;
    current = alt_of y f;
    older = f.past;
    past_lem = refl;
    settled = inl refl;
    counted =
        IsCounted-lists refl refl refl
          (IsCounted-recorded (alt_of y f) r.current r.older f refl r.past_lem r.counted);
    restores = Restores-SameDoc (alt_of y f ∷ f.past) s (put_twice-SameDoc y t (doc f)) (
        record_in_front (alt_of y f) f.past (doc f) (put_line y t (doc f)) s refl (h, refl)
          (new_alt-SameDoc y t (doc f)) r.restores);
  };
  document = SameDoc-sym (put_twice-SameDoc y t (doc f));
}

Edited-again :
    (s : Doc) (y : ℕ) (t : Text) (f : Fbuf)
    → (r : IsRecording s f) → newest f ≡ some r.current
    → f.future ≡ []
    → is_alt_content_of_line y r.current ≡ true
    → Edited s (put_line y t (doc f)) (undo_ins_edit_line y t f)
unfolding set_y_changed_min
Edited-again s y t f r e nil k = record {
  buffer = edited y t f;
  result = edit_line_recorded y t f r.current r.may_edit e ∙ edit_line_again y t f r.current e k;
  recording = record {
    may_edit = r.may_edit;
    current = r.current;
    older = r.older;
    past_lem = r.past_lem;
    settled = inl nil;
    counted = IsCounted-lists refl refl refl r.counted;
    restores =
        subst (λ p. Restores p (put_line y t (doc f)) s) (sym r.past_lem)
          (again-Restores r.current r.older y t (doc f) s k
            (subst (λ p. Restores p (doc f) s) r.past_lem r.restores));
  };
  document = SameDoc-refl (put_line y t (doc f));
}

-- In a buffer whose records lead back to the document `s`, `UndoIns_EditLine` on a line that is there
-- succeeds, replaces that line, and leaves records, in order, that lead back to `s`; also where it
-- makes no new record since the newest one has the line already.
pub undo_ins_edit_line-Edited :
    (s : Doc) (y : ℕ) (t : Text) (f : Fbuf)
    → IsRecording s f
    → y < f.line_count
    → Edited s (put_line y t (doc f)) (undo_ins_edit_line y t f)
undo_ins_edit_line-Edited s y t f r h =
    elim (newest-settled f r.current r.older r.past_lem r.settled) [
      | inr (b, e) ↦ Edited-new s y t f (boundary b) r h e refl
      | inl (e, nil) ↦ elim (Bool-cases (is_alt_content_of_line y r.current)) [
        | inl k ↦ Edited-again s y t f r e nil k
        | inr k ↦ Edited-new s y t f r.current r h e k
      ]
    ]
