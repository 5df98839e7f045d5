-- ===== src/Segments/Copied.antt =====
-- CopyLines (fbuf_edit.cpp): the destination's lines afterwards, and its undo records.
use k_edit.Prelude.{
  ℕ, zero, suc, ◌+◌, ◌-◌, ◌≤◌, ◌<◌, ltb, if◌then◌else◌, true, false, Bool-cases, [], some, ◌≡◌, ◌≢◌,
  ◌⊎◌, refl, sym, ap, ◌∙◌, inl, inr, arith, ltb→lt,
}
use k_edit.Tabs.{Text}
use k_edit.Buffer.{Fbuf, set_line, dirty_fbuf_and_display}
use k_edit.Lines.{peek_raw_line, EntabMode, entabbed, put_line_entab, text_eq}
use k_edit.Lines.Doc.{Doc, doc, SameDoc, inserted_at, doc-dirty, dirty-SameLists}
use k_edit.Marks.Named.{text_eq_sound}
use k_edit.Undo.Edits.{IsRecording, put_line, undo_ins_edit_line-Edited}
use k_edit.Undo.Ranges.{IsRecording-same, insert_lines-Edited}
use k_edit.Undo.Session.{put_line_raw_same, put_line_raw_new}
use k_edit.Undo.Entabbed.{peek-put_line, put_line_entab_raw}
use k_edit.Segments.{other, put_lines, copy_lines}

-- The text of a document's line
abbrev text_at : Doc → ℕ → Text
text_at d i = if ltb i d.count then (d.line i).text else []

text_at-SameDoc : (d e : Doc) (i : ℕ) → SameDoc d e → text_at d i ≡ text_at e i
text_at-SameDoc d e i same = elim (Bool-cases (ltb i d.count)) [
  | inl there ↦
      rw (sym same.counts, there) (ap (λ l. l.text) (same.agree i (ltb→lt i d.count there)))
  | inr behind ↦ rw (sym same.counts, behind)
]

text_at-put_line :
    (y : ℕ) (t : Text) (d : Doc) (i : ℕ) → i ≢ y → text_at (put_line y t d) i ≡ text_at d i
unfolding set_line
text_at-put_line y t d i apart = ground (arith, apart)

-- One line put into the buffer
put_entabbed :
    (s : Doc) (mode : EntabMode) (tw y : ℕ) (src : Text) (f : Fbuf)
    → IsRecording s f
    → y < f.line_count
    → (g : Fbuf) × (put_line_entab true mode tw y src f ≡ some g)
      × IsRecording s g
      × (g.line_count ≡ f.line_count)
      × (peek_raw_line g y ≡ entabbed mode tw src)
      × ((i : ℕ) → i ≢ y → peek_raw_line g i ≡ peek_raw_line f i)
put_entabbed s mode tw y src f r h =
    let t = entabbed mode tw src in
    elim (Bool-cases (text_eq t (peek_raw_line f y))) [
      | inl e ↦ (
        f,
        put_line_entab_raw mode tw y src f r.may_edit ∙ put_line_raw_same true y t f r.may_edit h e,
        r,
        refl,
        sym (text_eq_sound t (peek_raw_line f y) e),
        λ i apart. refl,
      )
      | inr e ↦
          let d = dirty_fbuf_and_display f in
          let c : d.line_count ≡ f.line_count = ap Doc.count (doc-dirty f) in
          let a =
            undo_ins_edit_line-Edited s y t d
              (IsRecording-same s f d (doc-dirty f) (dirty-SameLists f) r) (omega arith) in
          (
            a.buffer,
            put_line_entab_raw mode tw y src f r.may_edit
                ∙ (put_line_raw_new true y t f r.may_edit h e ∙ a.result),
            a.recording,
            a.document.counts ∙ c,
            peek-put_line y t (doc d) a.buffer (omega arith) a.document,
            λ i apart.
                text_at-SameDoc (doc a.buffer) (put_line y t (doc d)) i a.document
                ∙ (text_at-put_line y t (doc d) i apart
                    ∙ ap (λ (k : Doc). text_at k i) (doc-dirty f)),
          )
    ]

text_at-inserted_before :
    (y n : ℕ) (d : Doc) (i : ℕ) → y < d.count → i < y → text_at (inserted_at y n d) i ≡ text_at d i
text_at-inserted_before y n d i h lt = ground (arith, h, lt)

text_at-inserted_behind :
    (y n : ℕ) (d : Doc) (i : ℕ) → y ≤ i → text_at (inserted_at y n d) (i + n) ≡ text_at d i
text_at-inserted_behind y n d i le =
    let back : d.line (i + n - n) ≡ d.line i = ap d.line (omega arith) in ground (arith, le, back)

put_each :
    (mode : EntabMode) (tw n y y_src : ℕ) (src g g' : Fbuf)
    → peek_raw_line g y ≡ entabbed mode tw (peek_raw_line src y_src)
    → ((i : ℕ)
        → i < n
        → peek_raw_line g' (y + 1 + i) ≡ entabbed mode tw (peek_raw_line src (y_src + 1 + i)))
    → peek_raw_line g' y ≡ peek_raw_line g y
    → (i : ℕ) → i < suc n
    → peek_raw_line g' (y + i) ≡ entabbed mode tw (peek_raw_line src (y_src + i))
put_each mode tw n y y_src src g g' here heres same zero lt =
    let z : y + 0 ≡ y = omega arith in
    let z' : y_src + 0 ≡ y_src = omega arith in rw (z, z') (same ∙ here)
put_each mode tw n y y_src src g g' here heres same (suc i) lt =
    let z : y + suc i ≡ y + 1 + i = omega arith in
    let z' : y_src + suc i ≡ y_src + 1 + i = omega arith in rw (z, z') (heres i (omega (arith, lt)))

-- The loop of CopyLines on lines that are there
put_lines-entabbed :
    (s : Doc) (mode : EntabMode) (col_max tw n y y_src : ℕ) (src dst : Fbuf)
    → IsRecording s dst
    → y + n ≤ dst.line_count
    → (g : Fbuf) × (put_lines true mode col_max tw n y y_src src dst ≡ some g)
      × IsRecording s g
      × (g.line_count ≡ dst.line_count)
      × ((i : ℕ)
          → i < n
          → peek_raw_line g (y + i) ≡ entabbed mode tw (peek_raw_line src (y_src + i)))
      × ((i : ℕ) → (i < y) ⊎ (y + n ≤ i) → peek_raw_line g i ≡ peek_raw_line dst i)
unfolding put_lines
put_lines-entabbed s mode col_max tw zero y y_src src dst r h =
    (dst, refl, r, refl, λ i lt. absurd (omega (arith, lt)), λ i out. refl)
put_lines-entabbed s mode col_max tw (suc n) y y_src src dst r h =
    let (g, put, rec, count, here, others) =
      put_entabbed s mode tw y (peek_raw_line src y_src) dst r (omega (arith, h)) in
    let (g', more, rec', count', heres, others') =
      put_lines-entabbed s mode col_max tw n (y + 1) (y_src + 1) src g rec
        (omega (arith, h, count)) in
    (
      g',
      rw (put_lines, put) more,
      rec',
      count' ∙ count,
      put_each mode tw n y y_src src g g' here heres (others' y (inl (omega arith))),
      λ i out. others' i (omega (arith, out)) ∙ others i (omega (arith, out)),
    )

-- In a buffer whose records lead back to the document `s`, CopyLines of a range of another buffer's
-- lines in front of a line that is there succeeds, with trailing blanks kept. The lines from there on
-- are the source's, their blanks compressed as the mode says; the lines in front stay, and those
-- behind move by the number of lines copied. The records lead back to `s`.
pub copy_lines-entabbed :
    (s : Doc) (mode : EntabMode) (col_max twd tws y y_start y_end : ℕ) (src dst : Fbuf)
    → IsRecording s dst
    → y < dst.line_count
    → y_start ≤ y_end
    → (g : Fbuf) × (copy_lines true mode col_max twd y (other tws src) y_start y_end dst ≡ some g)
      × IsRecording s g
      × (g.line_count ≡ dst.line_count + (y_end - y_start + 1))
      × ((i : ℕ)
          → i < y_end - y_start + 1
          → peek_raw_line g (y + i) ≡ entabbed mode twd (peek_raw_line src (y_start + i)))
      × ((i : ℕ) → i < y → peek_raw_line g i ≡ peek_raw_line dst i)
      × ((i : ℕ) → y ≤ i → peek_raw_line g (i + (y_end - y_start + 1)) ≡ peek_raw_line dst i)
unfolding copy_lines
copy_lines-entabbed s mode col_max twd tws y y_start y_end src dst r h le =
    let n = y_end - y_start + 1 in
    let hole = insert_lines-Edited s y n dst r (omega arith) h in
    let same =
      λ (i : ℕ). text_at-SameDoc (doc hole.buffer) (inserted_at y n (doc dst)) i hole.document in
    let count : hole.buffer.line_count ≡ dst.line_count + n = hole.document.counts in
    let (g, put, rec, count', heres, others) =
      put_lines-entabbed s mode col_max twd n y y_start src hole.buffer hole.recording
        (omega (arith, h, count)) in
    let in_order : ltb y_end y_start ≡ false = ground (arith, le) in
    (
      g,
      rw (in_order, hole.result) put,
      rec,
      count' ∙ count,
      heres,
      λ i lt. others i (inl lt) ∙ (same i ∙ text_at-inserted_before y n (doc dst) i h lt),
      λ i behind.
          others (i + n) (inr (omega (arith, behind)))
          ∙ (same (i + n) ∙ text_at-inserted_behind y n (doc dst) i behind),
    )
