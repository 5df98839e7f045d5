-- ===== src/Lines/Doc.antt =====
-- The document that the array of lines stands for, and `InsertLines__`, `DeleteLines__` and
-- `LineInfoReserve` (fbuf_edit.cpp) on it.
use k_edit.Prelude.{
  ℕ, ◌+◌, ◌-◌, ◌≤◌, ◌<◌, min, ltb, if◌then◌else◌, false, some, ◌≡◌, refl, sym, ap, ◌∙◌, subst,
  arith, ◌⊎◌, inl, inr,
}
use k_edit.Buffer.{LineInfo, empty_line, Fbuf, dirty_fbuf_and_display}
use native.Mathlib.Decide.{dec_lt}
use k_edit.Lines.{
  line_info_reserve, open_hole, insert_lines_body, insert_lines, delete_lines_body, delete_lines,
}

-- Its lines are those below the count.
pub record Doc : Type 0 where
  pub count : ℕ
  pub line : ℕ → LineInfo

abbrev pub doc : Fbuf → Doc
doc f = record { count = f.line_count; line = f.lines }

pub record SameDoc (d e : Doc) : Type 0 where
  pub counts : d.count ≡ e.count
  pub agree : (i : ℕ) → i < d.count → d.line i ≡ e.line i

pub SameDoc-refl : (d : Doc) → SameDoc d d
SameDoc-refl d = record { counts = refl; agree = λ i h. refl }

pub SameDoc-sym : {d e : Doc} → SameDoc d e → SameDoc e d
SameDoc-sym s = record {
  counts = sym s.counts;
  agree = λ i h. sym (s.agree i (omega (arith, s.counts)));
}

pub SameDoc-trans : {d e g : Doc} → SameDoc d e → SameDoc e g → SameDoc d g
SameDoc-trans s t = record {
  counts = s.counts ∙ t.counts;
  agree = λ i h. s.agree i h ∙ t.agree i (omega (arith, s.counts));
}

-- `n` empty lines in front of the line `y`
abbrev pub inserted_at : ℕ → ℕ → Doc → Doc
inserted_at y n d = record {
  count = d.count + n;
  line = λ i. if ltb i y then d.line i else if ltb i (y + n) then empty_line else d.line (i - n);
}

-- the `n` lines from the line `y` on taken out
abbrev pub deleted_at : ℕ → ℕ → Doc → Doc
deleted_at y n d = record {
  count = d.count - n;
  line = λ i. if ltb i y then d.line i else d.line (i + n);
}

open_hole-line :
    (y n : ℕ) (f : Fbuf) (i : ℕ)
    → y ≤ f.line_count
    → i < f.line_count + n
    → (i < y) ⊎ (y + n ≤ i)
    → (open_hole y n f).lines i ≡ (if ltb i y then f.lines i else f.lines (i - n))
unfolding open_hole
open_hole-line y n f i h lt o = elim (dec_lt i y) [
  | yes q ↦ ground arith
  | no q ↦ let e : i - (y + n) + y ≡ i - n = ground arith in ground (arith, ap f.lines e)
]

line_count-open_hole : (y n : ℕ) (f : Fbuf) → (open_hole y n f).line_count ≡ f.line_count
unfolding open_hole
line_count-open_hole y n f = ground arith

pub insert_lines_body-doc :
    (y n : ℕ) (f : Fbuf)
    → y ≤ f.line_count
    → SameDoc (doc (insert_lines_body y n f)) (inserted_at y n (doc f))
unfolding insert_lines_body
insert_lines_body-doc y n f h = record {
  counts = ap (λ k. k + n) (line_count-open_hole y n f);
  agree = λ i lt. ground (arith, open_hole-line y n f i h, line_count-open_hole y n f);
}

pub delete_lines_body-doc :
    (first last : ℕ) (f : Fbuf)
    → first ≤ last
    → last < f.line_count
    → SameDoc (doc (delete_lines_body first last f)) (deleted_at first (last - first + 1) (doc f))
unfolding delete_lines_body
delete_lines_body-doc first last f h lt = record {
  counts = refl;
  agree = λ i inside. elim (dec_lt i first) [
    | yes q ↦ ground arith
    | no q ↦
        let e : i - first + (last + 1) ≡ i + (last - first + 1) = omega arith in
        ground (arith, ap f.lines e)
  ];
}

-- The undo lists are not touched by the display, the array and the events.
pub record SameLists (f g : Fbuf) : Type 0 where
  pub past : g.past ≡ f.past
  pub future : g.future ≡ f.future
  pub undo_count : g.undo_count ≡ f.undo_count
  pub no_edit : g.no_edit ≡ f.no_edit

pub doc-dirty : (f : Fbuf) → doc (dirty_fbuf_and_display f) ≡ doc f
unfolding dirty_fbuf_and_display
doc-dirty f = ground arith

pub dirty-SameLists : (f : Fbuf) → SameLists f (dirty_fbuf_and_display f)
unfolding dirty_fbuf_and_display
dirty-SameLists f = ground arith

pub insert_lines_body-SameLists : (y n : ℕ) (f : Fbuf) → SameLists f (insert_lines_body y n f)
unfolding insert_lines_body
insert_lines_body-SameLists y n f = ground arith

pub delete_lines_body-SameLists :
    (first last : ℕ) (f : Fbuf) → SameLists f (delete_lines_body first last f)
unfolding delete_lines_body
delete_lines_body-SameLists first last f = ground arith

-- Reserving room changes neither the document nor the lists.
pub line_info_reserve-doc : (k : ℕ) (f : Fbuf) → SameDoc (doc (line_info_reserve k f)) (doc f)
unfolding line_info_reserve
line_info_reserve-doc k f = record { counts = ground arith; agree = λ i h. ground arith }

-- InsertLines__ for undo and redo: an insertion behind the last line only reserves room.
pub insert_lines_unsaved :
    (y n : ℕ) (f : Fbuf)
    → 0 < n
    → y ≤ f.line_count
    → (g : Fbuf) × (insert_lines y n false f ≡ some g)
      × ((i : ℕ)
          → i < f.line_count + n
          → (i < y) ⊎ (y + n ≤ i)
          → g.lines i ≡ (inserted_at y n (doc f)).line i)
unfolding insert_lines
insert_lines_unsaved y n f p h = elim (dec_lt y f.line_count) [
  | yes q ↦
      let d = dirty_fbuf_and_display f in
      let same =
        subst (λ x. SameDoc (doc (insert_lines_body y n d)) (inserted_at y n x)) (doc-dirty f)
          (insert_lines_body-doc y n d (ground (arith, doc-dirty f))) in
      (insert_lines_body y n d, ground arith, λ i lt o. same.agree i (omega (arith, same.counts)))
  | no q ↦ (
    line_info_reserve (y + n) f,
    ground arith,
    λ i lt o.
        let same = line_info_reserve-doc (y + n) f in
        let below : i < y = elim o [ inl a ↦ a | inr b ↦ absurd (omega arith) ] in
        ground (arith, same.agree i (omega (arith, same.counts))),
  )
]

pub delete_lines_unsaved :
    (first last : ℕ) (f : Fbuf)
    → first ≤ last
    → last < f.line_count
    → (g : Fbuf) × (delete_lines first last false f ≡ some g)
      × SameDoc (doc g) (deleted_at first (last - first + 1) (doc f))
unfolding delete_lines
delete_lines_unsaved first last f h lt =
    let d = dirty_fbuf_and_display f in
    let m : min last (f.line_count - 1) ≡ last = omega arith in
    (
      delete_lines_body first last d,
      ground (arith, m),
      subst
          (λ x.
            SameDoc (doc (delete_lines_body first last d)) (deleted_at first (last - first + 1) x))
          (doc-dirty f) (delete_lines_body-doc first last d h (ground (arith, doc-dirty f))),
    )
