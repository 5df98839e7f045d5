-- ===== src/Undo/Redo.antt =====
-- VRedo of one edit record (fbuf_undo.cpp), on the document.
use k_edit.Prelude.{ℕ, ◌+◌, ◌-◌, ◌≤◌, ◌<◌, true, false, some, ◌≡◌, refl, sym, ap, arith, subst}
use k_edit.Buffer.{
  Fbuf, set_line, AltLine, LineInsert, LineDelete, EditRec, alt, insert, delete, boundary,
  dirty_fbuf_and_display,
}
use k_edit.Lines.{insert_lines, insert_lines_body}
use k_edit.Lines.Doc.{
  Doc, doc, SameDoc, SameDoc-refl, SameDoc-sym, SameDoc-trans, inserted_at, deleted_at,
  delete_lines_unsaved, doc-dirty, insert_lines_body-doc,
}
use k_edit.Undo.{swap_content, swap_into, swap_out, v_redo}
use k_edit.Undo.Record.{Fits, Left, undone}

-- The document that redoing a record gives.
abbrev pub redone : EditRec → Doc → Doc
redone (alt a) d = record { count = a.count; line = set_line a.line a.li d.line }
redone (insert r) d = record { count = r.count + r.n; line = (inserted_at r.first r.n d).line }
redone (delete r) d = record { count = r.count - r.n; line = (deleted_at r.first r.n d).line }
redone (boundary b) d = d

-- The record was undone, and this document is what that gave.
abbrev pub FitsAgain : EditRec → Doc → Type 0
FitsAgain (alt a) d = (a.line < d.count) × (a.count ≡ d.count)
FitsAgain (insert r) d = (0 < r.n) × (r.first < r.count) × (d.count ≡ r.count)
FitsAgain (delete r) d =
    (0 < r.n) × (r.first + r.n ≤ r.count) × (d.count ≡ r.count) × (r.applied ≡ false)
FitsAgain (boundary b) d = Unit

pub FitsAgain-SameDoc : (e : EditRec) {d d' : Doc} → SameDoc d d' → FitsAgain e d → FitsAgain e d'
FitsAgain-SameDoc (alt a) s f = omega (arith, s.counts)
FitsAgain-SameDoc (insert r) s f = omega (arith, s.counts)
FitsAgain-SameDoc (delete r) s (a, b, c, ap) = (a, b, omega (arith, s.counts), ap)
FitsAgain-SameDoc (boundary b) s f = tt

pub redone-SameDoc :
    (e : EditRec) {d d' : Doc} → FitsAgain e d → SameDoc d d' → SameDoc (redone e d) (redone e d')
unfolding set_line
redone-SameDoc (alt a) f s = record { counts = refl; agree = λ i h. ground (arith, s.agree i) }
redone-SameDoc (insert r) f s = record {
  counts = refl;
  agree = λ i h. ground (arith, s.agree i, s.agree (i - r.n));
}
redone-SameDoc (delete r) f s = record {
  counts = refl;
  agree = λ i h. ground (arith, s.agree i, s.agree (i + r.n));
}
redone-SameDoc (boundary b) f s = s

-- The lines that a deletion takes out do not matter.
deleted_swapped :
    (r : LineDelete) (d : Doc)
    → SameDoc
        (deleted_at r.first r.n (record d { line = swap_into r d.line }))
        (deleted_at r.first r.n d)
unfolding swap_into
deleted_swapped r d = record { counts = refl; agree = λ i h. ground arith }

with_count :
    (k : ℕ) (d e : Doc)
    → SameDoc d e
    → k ≡ e.count
    → SameDoc (record d { count = k }) (record e { count = k })
with_count k d e s h = record { counts = refl; agree = λ i lt. s.agree i (omega (arith, s.counts)) }

-- InsertLines__ for redo, where the insertion was in front of a line that is there.
insert_lines_within :
    (r : LineInsert) (f : Fbuf)
    → FitsAgain (insert r) (doc f)
    → (g : Fbuf) × (insert_lines r.first r.n false f ≡ some g)
      × SameDoc (record { count = r.count + r.n; line = g.lines }) (redone (insert r) (doc f))
unfolding insert_lines
insert_lines_within r f (pos, within, count) =
    let d = dirty_fbuf_and_display f in
    let same =
      subst (λ x. SameDoc (doc (insert_lines_body r.first r.n d)) (inserted_at r.first r.n x))
        (doc-dirty f) (insert_lines_body-doc r.first r.n d (ground (arith, doc-dirty f))) in
    (
      insert_lines_body r.first r.n d,
      ground arith,
      record { counts = refl; agree = λ i lt. same.agree i (omega (arith, same.counts)) },
    )

-- VRedo succeeds on an undone record that fits the document, and gives the document from behind the
-- edit: the line in the record, the empty lines inserted, or the range deleted again.
pub v_redo-redone :
    (e : EditRec) (f : Fbuf)
    → FitsAgain e (doc f)
    → (e' : EditRec) × (g : Fbuf) × (v_redo e f ≡ some (e', g)) × SameDoc (doc g) (redone e (doc f))
unfolding v_redo
v_redo-redone (alt a) f fits =
    let (a', g) = swap_content a f in
    (alt a', g, refl, record { counts = refl; agree = λ i h. refl })
v_redo-redone (insert r) f fits =
    let (g, e, s) = insert_lines_within r f fits in
    (insert r, record g { line_count = r.count + r.n }, ground (arith, e), s)
v_redo-redone (delete r) f (pos, within, count, applied) =
    let last = r.first + r.n - 1 in
    let swapped = record f { lines = swap_into r f.lines } in
    let (g, e, s) = delete_lines_unsaved r.first last swapped (omega arith) (omega arith) in
    let n : last - r.first + 1 ≡ r.n = omega arith in
    let s' : SameDoc (doc g) (deleted_at r.first r.n (doc swapped)) =
      subst (λ k. SameDoc (doc g) (deleted_at r.first k (doc swapped))) n s in
    (
      delete (record r { saved = swap_out r f.lines; applied = true }),
      record g { line_count = r.count - r.n },
      ground (arith, e),
      with_count (r.count - r.n) (doc g) (deleted_at r.first r.n (doc f))
          (SameDoc-trans s' (deleted_swapped r (doc f))) (omega arith),
    )
v_redo-redone (boundary b) f fits = (boundary b, f, refl, SameDoc-refl (doc f))

-- Redoing a record that was undone on the document `d` gives `d` again.
redone-undone :
    (e e' : EditRec) (d : Doc)
    → Fits e d
    → Left e d e'
    → FitsAgain e' (undone e d) × SameDoc (redone e' (undone e d)) d
unfolding set_line
redone-undone (alt a) e' d (h, c) left =
    let m : AltLine = record { count = d.count; line = a.line; li = d.line a.line } in
    subst (λ x. FitsAgain x (undone (alt a) d) × SameDoc (redone x (undone (alt a) d)) d) (sym left)
      (
        omega arith,
        record { counts = refl; agree = λ i lt. ground (arith, λ (q : i ≡ a.line). ap d.line q) },
      )
redone-undone (insert r) e' d (pos, within, count, blank) left =
    subst (λ x. FitsAgain x (undone (insert r) d) × SameDoc (redone x (undone (insert r) d)) d)
      (sym left)
      (
        (pos, within, refl),
        record {
          counts = sym count;
          agree = λ i lt. ground (arith, blank i, ap d.line {x = i} {y = i - r.n + r.n});
        },
      )
redone-undone (delete r) e' d (pos, within, count, applied) (saved, left) =
    subst (λ x. FitsAgain x (undone (delete r) d) × SameDoc (redone x (undone (delete r) d)) d)
      (sym left)
      (
        (pos, within, refl, refl),
        record {
          counts = omega arith;
          agree = λ i lt. ground (arith, ap d.line {x = i} {y = i + r.n - r.n});
        },
      )
redone-undone (boundary b) e' d fits left =
    subst (λ x. FitsAgain x d × SameDoc (redone x d) d) (sym left) (tt, SameDoc-refl d)

pub undone_back :
    (e e' : EditRec) (d g : Doc)
    → Fits e d
    → Left e d e'
    → SameDoc g (undone e d)
    → FitsAgain e' g × SameDoc (redone e' g) d
undone_back e e' d g fits left s =
    let (again, same) = redone-undone e e' d fits left in
    let there = FitsAgain-SameDoc e' (SameDoc-sym s) again in
    (there, SameDoc-trans (redone-SameDoc e' there s) same)
