-- ===== src/Undo/Session.antt =====
-- A sequence of edits between two user's undo steps: PutLineRaw, InsertLines__ and DeleteLines__
-- (fbuf_edit.cpp).
use k_edit.Prelude.{
  ℕ, ◌<◌, ltb, leb, ◌&&◌, if◌then◌else◌, Bool, true, false, List, [], ◌∷◌, reverse, Option, none,
  some, ◌≡◌, refl, sym, ap, subst, arith, Bool-cases, inl, inr,
}
use k_edit.Tabs.{Text}
use k_edit.Buffer.{Fbuf, dirty_fbuf_and_display}
use k_edit.EditList.{undo_ins_edit_line}
use k_edit.Lines.{put_line_raw, insert_lines, delete_lines, drop_blanks, text_eq, peek_raw_line}
use k_edit.Lines.Doc.{Doc, doc, SameDoc-refl, doc-dirty, dirty-SameLists}
use k_edit.Undo.Edits.{IsRecording, Edited, undo_ins_edit_line-Edited}
use k_edit.Undo.Ranges.{IsRecording-same, insert_lines-Edited, delete_lines-Edited}

-- `put y src`, `ins y n` and `del first last`
pub data Edit : Type 0 where
  put : ℕ → Text → Edit
  ins : ℕ → ℕ → Edit
  del : ℕ → ℕ → Edit

abbrev pub apply_edit : Bool → Edit → Fbuf → Option Fbuf
apply_edit keep_trail (put y src) f = put_line_raw keep_trail y src f
apply_edit keep_trail (ins y n) f = insert_lines y n true f
apply_edit keep_trail (del first last) f = delete_lines first last true f

-- The edit concerns lines that are there.
abbrev pub in_range : Edit → Fbuf → Bool
in_range (put y src) f = ltb y f.line_count
in_range (ins y n) f = ltb 0 n && ltb y f.line_count
in_range (del first last) f = leb first last && ltb last f.line_count

abbrev pub run : Bool → List Edit → Fbuf → Option Fbuf
run keep_trail [] f = some f
run keep_trail (e ∷ es) f = elim (apply_edit keep_trail e f) [
  | none ↦ none
  | some g ↦ run keep_trail es g
]

-- Each edit is in range where it is applied, if the ones before it succeed.
abbrev pub all_in_range : Bool → List Edit → Fbuf → Bool
all_in_range keep_trail [] f = true
all_in_range keep_trail (e ∷ es) f =
    in_range e f
    && elim (apply_edit keep_trail e f) [ none ↦ true | some g ↦ all_in_range keep_trail es g ]

abbrev trimmed : Bool → Text → Text
trimmed keep_trail src = if keep_trail then src else reverse (drop_blanks (reverse src))

abbrev same_text : Bool → ℕ → Text → Fbuf → Bool
same_text keep_trail y src f = text_eq (trimmed keep_trail src) (peek_raw_line f y)

pub put_line_raw_same :
    (keep_trail : Bool) (y : ℕ) (src : Text) (f : Fbuf)
    → f.no_edit ≡ false
    → y < f.line_count
    → same_text keep_trail y src f ≡ true
    → put_line_raw keep_trail y src f ≡ some f
unfolding put_line_raw
put_line_raw_same keep_trail y src f w h e = ground arith

pub put_line_raw_new :
    (keep_trail : Bool) (y : ℕ) (src : Text) (f : Fbuf)
    → f.no_edit ≡ false
    → y < f.line_count
    → same_text keep_trail y src f ≡ false
    → put_line_raw keep_trail y src f
      ≡ undo_ins_edit_line y (trimmed keep_trail src) (dirty_fbuf_and_display f)
unfolding put_line_raw
put_line_raw_new keep_trail y src f w h e = ground arith

put_line_raw-Edited :
    (s : Doc) (keep_trail : Bool) (y : ℕ) (src : Text) (f : Fbuf)
    → IsRecording s f
    → y < f.line_count
    → (d : Doc) × Edited s d (put_line_raw keep_trail y src f)
put_line_raw-Edited s keep_trail y src f r h = elim (Bool-cases (same_text keep_trail y src f)) [
  | inl e ↦ (
    doc f,
    record {
      buffer = f;
      result = put_line_raw_same keep_trail y src f r.may_edit h e;
      recording = r;
      document = SameDoc-refl (doc f);
    },
  )
  | inr e ↦
      let d = dirty_fbuf_and_display f in
      let c : d.line_count ≡ f.line_count = ap Doc.count (doc-dirty f) in
      (
        _,
        subst (Edited s _) (sym (put_line_raw_new keep_trail y src f r.may_edit h e)) (
            undo_ins_edit_line-Edited s y (trimmed keep_trail src) d
              (IsRecording-same s f d (doc-dirty f) (dirty-SameLists f) r) (omega arith)),
      )
]

apply_edit-Edited :
    (s : Doc) (keep_trail : Bool) (e : Edit) (f : Fbuf)
    → IsRecording s f
    → in_range e f ≡ true
    → (d : Doc) × Edited s d (apply_edit keep_trail e f)
apply_edit-Edited s keep_trail (put y src) f r h =
    put_line_raw-Edited s keep_trail y src f r (ground arith)
apply_edit-Edited s keep_trail (ins y n) f r h =
    (_, insert_lines-Edited s y n f r (ground arith) (ground arith))
apply_edit-Edited s keep_trail (del first last) f r h =
    (_, delete_lines-Edited s first last f r (ground arith) (ground arith))

-- Edits in range succeed, and the records still lead back to the same document.
pub run-IsRecording :
    (s : Doc) (keep_trail : Bool) (es : List Edit) (f : Fbuf)
    → IsRecording s f
    → all_in_range keep_trail es f ≡ true
    → (g : Fbuf) × (run keep_trail es f ≡ some g) × IsRecording s g
run-IsRecording s keep_trail [] f r h = (f, refl, r)
run-IsRecording s keep_trail (e ∷ es) f r h =
    let (d, a) = apply_edit-Edited s keep_trail e f r (ground arith) in
    let res = a.result in
    let (g, ran, rec) = run-IsRecording s keep_trail es a.buffer a.recording (ground arith) in
    (g, ground arith, rec)
