-- ===== src/Undo/Record.antt =====
-- VUndo of one edit record (fbuf_undo.cpp), on the document.
use k_edit.Prelude.{
  ℕ, ◌+◌, ◌-◌, ◌≤◌, ◌<◌, ltb, if◌then◌else◌, true, false, some, ◌≡◌, refl, sym, ◌∙◌, ap, arith, ◌⊎◌,
  inl, inr,
}
use k_edit.Buffer.{
  empty_line, LineInfo, Fbuf, set_line, LineInsert, LineDelete, EditRec, alt, insert, delete,
  boundary,
}
use k_edit.Lines.Doc.{
  Doc, doc, SameDoc, SameDoc-refl, inserted_at, deleted_at, insert_lines_unsaved,
  delete_lines_unsaved,
}
use k_edit.Undo.{swap_content, swap_into, swap_out, v_undo}
use native.Mathlib.Decide.{dec_lt}

-- The document that undoing a record gives.
abbrev pub undone : EditRec → Doc → Doc
undone (alt a) d = record { count = a.count; line = set_line a.line a.li d.line }
undone (insert r) d = record { count = r.count; line = (deleted_at r.first r.n d).line }
undone (delete r) d = record {
  count = r.count;
  line = λ i.
      if ltb i r.first
      then d.line i
      else if ltb i (r.first + r.n)
      then r.saved (i - r.first)
      else d.line (i - r.n);
}
undone (boundary b) d = d

-- The record was made on a document that the edit turned into this one.
abbrev pub Fits : EditRec → Doc → Type 0
Fits (alt a) d = (a.line < d.count) × (a.count ≡ d.count)
Fits (insert r) d =
    (0 < r.n)
    × (r.first < r.count)
    × (d.count ≡ r.count + r.n)
    × ((i : ℕ) → r.first ≤ i → i < r.first + r.n → d.line i ≡ empty_line)
Fits (delete r) d =
    (0 < r.n) × (r.first + r.n ≤ r.count) × (d.count + r.n ≡ r.count) × (r.applied ≡ true)
Fits (boundary b) d = Unit

-- Both see only the lines of the document.
pub Fits-SameDoc : (e : EditRec) {d d' : Doc} → SameDoc d d' → Fits e d → Fits e d'
Fits-SameDoc (alt a) s f = omega (arith, s.counts)
Fits-SameDoc (insert r) s (a, b, c, blank) =
    (a, b, omega (arith, s.counts), λ i lo hi. sym (s.agree i (omega arith)) ∙ blank i lo hi)
Fits-SameDoc (delete r) s (a, b, c, ap) = (a, b, omega (arith, s.counts), ap)
Fits-SameDoc (boundary b) s f = tt

pub undone-SameDoc :
    (e : EditRec) {d d' : Doc} → Fits e d → SameDoc d d' → SameDoc (undone e d) (undone e d')
unfolding set_line
undone-SameDoc (alt a) f s = record { counts = refl; agree = λ i h. ground (arith, s.agree i) }
undone-SameDoc (insert r) f s = record {
  counts = refl;
  agree = λ i h. ground (arith, s.agree i, s.agree (i + r.n));
}
undone-SameDoc (delete r) f s = record {
  counts = refl;
  agree = λ i h. ground (arith, s.agree i, s.agree (i - r.n));
}
undone-SameDoc (boundary b) f s = s

undo_insert-SameDoc :
    (r : LineInsert) (k : ℕ) (d g : Doc)
    → k ≡ r.n
    → d.count ≡ r.count + r.n
    → SameDoc g (deleted_at r.first k d)
    → SameDoc (record { count = r.count; line = g.line }) (undone (insert r) d)
undo_insert-SameDoc r k d g e h s = record {
  counts = refl;
  agree = λ i lt. ground (arith, s.agree i (omega (arith, s.counts)), ap (λ t. d.line (i + t)) e);
}

undo_delete-SameDoc :
    (r : LineDelete) (d : Doc) (line : ℕ → LineInfo)
    → d.count + r.n ≡ r.count
    → ((i : ℕ)
        → i < d.count + r.n
        → (i < r.first) ⊎ (r.first + r.n ≤ i)
        → line i ≡ (inserted_at r.first r.n d).line i)
    → SameDoc (record { count = r.count; line = swap_into r line }) (undone (delete r) d)
unfolding swap_into
undo_delete-SameDoc r d line c h = record {
  counts = refl;
  agree = λ i lt. elim (dec_lt i r.first) [
    | yes q ↦ ground (arith, h i (omega arith) (inl q))
    | no q ↦ elim (dec_lt i (r.first + r.n)) [
      | yes q' ↦ ground arith
      | no q' ↦ ground (arith, h i (omega arith) (inr (omega arith)))
    ]
  ];
}

-- What the record holds once it is undone.
abbrev pub Left : EditRec → Doc → EditRec → Type 0
Left (alt a) d e = e ≡ alt (record { count = d.count; line = a.line; li = d.line a.line })
Left (insert r) d e = e ≡ insert r
Left (delete r) d e =
    (saved : ℕ → LineInfo) × (e ≡ delete (record r { saved = saved; applied = false }))
Left (boundary b) d e = e ≡ boundary b

-- VUndo succeeds on a record that fits the document, and gives the document from before the edit. A
-- replaced line changes places with the one in the record, and a deletion is marked as undone.
pub v_undo-undone :
    (e : EditRec) (f : Fbuf)
    → Fits e (doc f)
    → (e' : EditRec) × (g : Fbuf) × (v_undo e f ≡ some (e', g))
      × SameDoc (doc g) (undone e (doc f))
      × Left e (doc f) e'
unfolding v_undo
v_undo-undone (alt a) f fits =
    let (a', g) = swap_content a f in
    (alt a', g, refl, record { counts = refl; agree = λ i h. refl }, refl)
v_undo-undone (insert r) f (pos, within, count, blank) =
    let last = r.first + r.n - 1 in
    let (g, e, s) = delete_lines_unsaved r.first last f (omega arith) (omega arith) in
    (
      insert r,
      record g { line_count = r.count },
      ground (arith, e),
      undo_insert-SameDoc r (last - r.first + 1) (doc f) (doc g) (omega arith) count s,
      refl,
    )
v_undo-undone (delete r) f (pos, within, count, applied) =
    let (g, e, s) = insert_lines_unsaved r.first r.n f pos (omega arith) in
    (
      delete (record r { saved = swap_out r g.lines; applied = false }),
      record g { lines = swap_into r g.lines; line_count = r.count },
      ground (arith, e),
      undo_delete-SameDoc r (doc f) g.lines count s,
      (swap_out r g.lines, refl),
    )
v_undo-undone (boundary b) f fits = (boundary b, f, refl, SameDoc-refl (doc f), refl)
