-- ===== src/Undo/Entabbed.antt =====
-- PutLineEntab (fbuf_edit.cpp): what the line shows that it puts into the buffer.
use k_edit.Prelude.{
  ℕ, ◌<◌, true, false, Bool-cases, some, ◌≡◌, refl, sym, ap, ◌∙◌, inl, inr, arith, [], ◌∷◌, ltb,
}
use k_edit.Tabs.{Text}
use k_edit.Tabs.Expand.Segment.{detab}
use k_edit.Tabs.Entab.{plain}
use k_edit.Tabs.Entab.SameColumns.{detab-spcs2tabs}
use k_edit.Tabs.Entab.Quotes.{TabsOutside, detab-spcs2tabs_outside_quotes}
use k_edit.Buffer.{Fbuf, put_content, set_line, dirty_fbuf_and_display}
use k_edit.Lines.{
  EntabMode, no_conv, leading_spcs, spcs_not_in_quotes, all_spcs, entabbed, put_line_raw,
  put_line_entab, peek_raw_line, text_eq,
}
use k_edit.Lines.Doc.{Doc, doc, SameDoc, doc-dirty, dirty-SameLists}
use k_edit.Marks.Named.{text_eq_sound}
use k_edit.Undo.Edits.{IsRecording, put_line, undo_ins_edit_line-Edited}
use k_edit.Undo.Ranges.{IsRecording-same}
use k_edit.Undo.Session.{put_line_raw_same, put_line_raw_new}

-- In the mode that spares quoted text, the line has no tab there or behind an escape character.
abbrev pub IsSpared : EntabMode → Text → Type 0
IsSpared no_conv src = Unit
IsSpared leading_spcs src = Unit
IsSpared spcs_not_in_quotes src = TabsOutside plain src
IsSpared all_spcs src = Unit

detab-entabbed :
    (mode : EntabMode) (tw : ℕ) (src : Text)
    → 0 < tw
    → IsSpared mode src
    → detab tw 0 (entabbed mode tw src) ≡ detab tw 0 src
detab-entabbed no_conv tw src p s = refl
detab-entabbed leading_spcs tw src p s = (detab-spcs2tabs tw src p).0
detab-entabbed spcs_not_in_quotes tw src p s = detab-spcs2tabs_outside_quotes tw src p s
detab-entabbed all_spcs tw src p s = (detab-spcs2tabs tw src p).1

pub text-put_content : (t : Text) → (put_content t).text ≡ t
unfolding put_content
text-put_content [] = refl
text-put_content (c ∷ t) = refl

-- The text that a replaced line has.
pub peek-put_line :
    (y : ℕ) (t : Text) (d : Doc) (g : Fbuf)
    → y < d.count
    → SameDoc (doc g) (put_line y t d)
    → peek_raw_line g y ≡ t
unfolding set_line
peek-put_line y t d g h s =
    let c : g.line_count ≡ d.count = s.counts in
    let at : g.lines y ≡ put_content t = s.agree y (omega arith) ∙ ground arith in
    let in_range : ltb y g.line_count ≡ true = ground arith in
    rw in_range (rw at (text-put_content t))

put_line_raw-peek :
    (s : Doc) (y : ℕ) (src : Text) (f : Fbuf)
    → IsRecording s f
    → y < f.line_count
    → (g : Fbuf) × (put_line_raw true y src f ≡ some g)
      × IsRecording s g
      × (peek_raw_line g y ≡ src)
put_line_raw-peek s y src f r h = elim (Bool-cases (text_eq src (peek_raw_line f y))) [
  | inl e ↦ (
    f,
    put_line_raw_same true y src f r.may_edit h e,
    r,
    sym (text_eq_sound src (peek_raw_line f y) e),
  )
  | inr e ↦
      let d = dirty_fbuf_and_display f in
      let c : d.line_count ≡ f.line_count = ap Doc.count (doc-dirty f) in
      let a =
        undo_ins_edit_line-Edited s y src d
          (IsRecording-same s f d (doc-dirty f) (dirty-SameLists f) r) (omega arith) in
      (
        a.buffer,
        put_line_raw_new true y src f r.may_edit h e ∙ a.result,
        a.recording,
        peek-put_line y src (doc d) a.buffer (omega arith) a.document,
      )
]

pub put_line_entab_raw :
    (mode : EntabMode) (tw y : ℕ) (src : Text) (f : Fbuf)
    → f.no_edit ≡ false
    → put_line_entab true mode tw y src f ≡ put_line_raw true y (entabbed mode tw src) f
unfolding put_line_entab
put_line_entab_raw mode tw y src f w = ground arith

-- In a buffer that may be edited, whose records lead back to the document `s`, PutLineEntab on a line
-- that is there succeeds, for a positive tab width and with trailing blanks kept. The line then shows
-- the same columns as the text given, in each of the four modes, if in the one that spares quoted
-- text no tab stands in quotes or behind an escape character. The records still lead back to `s`.
pub put_line_entab-detab :
    (s : Doc) (mode : EntabMode) (tw y : ℕ) (src : Text) (f : Fbuf)
    → IsRecording s f
    → y < f.line_count
    → 0 < tw
    → IsSpared mode src
    → (g : Fbuf) × (put_line_entab true mode tw y src f ≡ some g)
      × IsRecording s g
      × (detab tw 0 (peek_raw_line g y) ≡ detab tw 0 src)
put_line_entab-detab s mode tw y src f r h p spared =
    let (g, e, rec, peek) = put_line_raw-peek s y (entabbed mode tw src) f r h in
    (
      g,
      put_line_entab_raw mode tw y src f r.may_edit ∙ e,
      rec,
      ap (detab tw 0) peek ∙ detab-entabbed mode tw src p spared,
    )
