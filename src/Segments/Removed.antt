-- ===== src/Segments/Removed.antt =====
-- DelBox and DelStream (fbuf_edit.cpp). The adjustment of the marks is left out.
use k_edit.Prelude.{
  drop_past, ℕ, zero, suc, ◌+◌, ◌-◌, ◌≤◌, ◌<◌, ltb, leb, lt→ltb, ◌==◌, if◌then◌else◌, Bool, true,
  false, Bool-cases, Option-cases, [], ◌++◌, length, take, drop, replicate, Option, none, some, ◌≡◌,
  sym, ap, subst, append-nil, ◌∙◌, inl, inr, arith,
}
use native.Mathlib.Decide.{dec_lt}
use k_edit.Tabs.{Text, space}
use k_edit.Tabs.Column.{str_cols}
use k_edit.Tabs.Column.Cache.{IdxColCached, IsValid, new, c2ci, c2ci_lem, new-IsValid}
use k_edit.Tabs.Column.Tabless.{
  IsTabless, IsTabless-detab, free_idx_of_col-IsTabless, str_cols-IsTabless,
}
use k_edit.Tabs.Expand.{format_expanded_seg}
use k_edit.Tabs.Expand.Segment.{detab, take_all}
use k_edit.Buffer.{Fbuf}
use k_edit.Lines.{peek_raw_line, EntabMode, put_line_entab, delete_lines}
use k_edit.Segments.{dup_line_tabs2spcs, dup_line_seg, replace_at}
use k_edit.Segments.Insert.{dup_line_tabs2spcs-detab}

-- GetLineWithSegRemoved of the line `dest` with its tabs expanded
abbrev pub seg_removed : ℕ → Text → ℕ → ℕ → Bool → Text
seg_removed tw dest x_left box_width collapse =
    let x_eol_nul = str_cols tw dest in
    let (ix_left, conv) = c2ci (new tw dest) x_left in
    let x_right = x_left + box_width in
    let (ix_right, conv') = c2ci conv x_right in
    if leb x_eol_nul x_left
    then dest
    else if leb x_eol_nul x_right
    then take ix_left dest
    else if ltb ix_left ix_right
    then (if collapse
        then take ix_left dest ++ drop ix_right dest
        else replace_at ix_left (ix_right - ix_left) (replicate (ix_right - ix_left) space) dest)
    else dest

module _ (keep_trail : Bool) (mode : EntabMode) (col_max tw : ℕ) where
  abbrev pub line_with_seg_removed : ℕ → ℕ → ℕ → Bool → Fbuf → Text
  line_with_seg_removed y x_left box_width collapse f =
      seg_removed tw (dup_line_tabs2spcs col_max tw y f) x_left box_width collapse

  -- The loop of DelBox over `n` lines
  pub remove_lines : ℕ → ℕ → ℕ → ℕ → Bool → Fbuf → Option Fbuf
  remove_lines zero y x_left box_width collapse f = some f
  remove_lines (suc n) y x_left box_width collapse f =
      elim (put_line_entab keep_trail mode tw y
        (line_with_seg_removed y x_left box_width collapse f) f) [
          | none ↦ none
          | some g ↦ remove_lines n (y + 1) x_left box_width collapse g
        ]

  -- DelBox of the columns `x_left` to `x_right` of the lines `y_top` to `y_bottom`
  pub del_box : ℕ → ℕ → ℕ → ℕ → Bool → Fbuf → Option Fbuf
  unfolding remove_lines
  del_box x_left y_top x_right y_bottom collapse f =
      if ltb x_right x_left
      then some f
      else remove_lines (y_bottom + 1 - y_top) y_top x_left (x_right + 1 - x_left) collapse f

  -- The first `x` columns of a line
  abbrev line_front : ℕ → ℕ → Fbuf → Text
  line_front y x f =
      if ltb y f.line_count then format_expanded_seg x (peek_raw_line f y) 0 tw space 0 else []

  -- DelStream of the text from `x_start` in the line `y_start` up to `x_end` in `y_end`
  pub del_stream : ℕ → ℕ → ℕ → ℕ → Fbuf → Option Fbuf
  unfolding del_box
  del_stream x_start y_start x_end y_end f =
      if y_start == y_end
      then (if leb x_end x_start
          then some f
          else del_box x_start y_start (x_end - 1) y_start true f)
      else elim (delete_lines y_start (y_end - 1) true f) [
        | none ↦ none
        | some g ↦
            put_line_entab keep_trail mode tw y_start
              (line_front y_start x_start f ++ dup_line_seg col_max tw y_start x_end col_max g) g
      ]

-- A line without the columns from `x` on, `w` of them, or with spaces in their place if there is more
-- behind them
abbrev pub without : ℕ → ℕ → Bool → Text → Text
without x w collapse e =
    take x e
    ++ ((if collapse then [] else if ltb (x + w) (length e) then replicate w space else [])
        ++ drop (x + w) e)

without_past :
    (x w : ℕ) (collapse : Bool) (e : Text) → length e ≤ x + w → without x w collapse e ≡ take x e
without_past x w collapse e h =
    let ends : ltb (x + w) (length e) ≡ false = ground (arith, h) in
    elim (Bool-cases collapse) [
      | inl c ↦ rw (c, drop_past (x + w) e h) (append-nil (take x e))
      | inr c ↦ rw (c, ends, drop_past (x + w) e h) (append-nil (take x e))
    ]

-- The captive index in a text that has no tab, whatever was asked before
c2ci-IsTabless :
    (c : IdxColCached) (col : ℕ)
    → 0 < c.tw
    → IsValid c
    → IsTabless c.sr
    → col < length c.sr
    → (c2ci c col).0 ≡ col
c2ci-IsTabless c col p v t lt =
    let e = (c2ci_lem c col p v (omega (arith, lt))).0 in
    omega (arith, e, free_idx_of_col-IsTabless c.tw c.sr col t, lt)

seg_removed-without :
    (tw x w : ℕ) (collapse : Bool) (e : Text)
    → 0 < tw
    → 0 < w
    → IsTabless e
    → seg_removed tw e x w collapse ≡ without x w collapse e
seg_removed-without tw x w collapse e p wide t =
    let cols = str_cols-IsTabless tw e t in
    elim (dec_lt x (length e)) [
      | no ends ↦
          let over : leb (length e) x ≡ true = ground (arith, ends) in
          rw (cols, over)
            (sym (
              without_past x w collapse e (omega (arith, ends))
              ∙ take_all x e (omega (arith, ends))))
      | yes inside ↦
          let start = new tw e in
          let valid = new-IsValid tw e in
          let left = c2ci-IsTabless start x p valid t inside in
          let (e', v', sr, width) = c2ci_lem start x p valid (omega (arith, inside)) in
          let within : leb (length e) x ≡ false = ground (arith, inside) in
          elim (dec_lt (x + w) (length e)) [
            | no all ↦
                let over : leb (length e) (x + w) ≡ true = ground (arith, all) in
                rw (cols, within, over, left)
                  (sym (without_past x w collapse e (omega (arith, all))))
            | yes part ↦
                let right : (c2ci (c2ci start x).1 (x + w)).0 ≡ x + w =
                  c2ci-IsTabless (c2ci start x).1 (x + w) (omega (arith, width, p)) v'
                    (subst IsTabless (sym sr) t) (omega (arith, ap length sr, part)) in
                let more : leb (length e) (x + w) ≡ false = ground (arith, part) in
                let some_gap : ltb x (x + w) ≡ true = ground (arith, wide) in
                let behind = lt→ltb (x + w) (length e) part in
                let gap : x + w - x ≡ w = omega arith in
                elim (Bool-cases collapse) [
                  | inl c ↦ rw (cols, within, more, left, right, some_gap, c)
                  | inr c ↦ rw (cols, within, more, left, right, some_gap, c, behind, gap)
                ]
          ]
    ]

-- For a positive tab width, where the line `y` with its tabs expanded is not longer than COL_MAX: DelBox
-- of columns of this one line, from `x_left` to `x_right`, which is not less, puts the expanded line
-- without these columns, or, where it does not collapse, with spaces in their place if the line goes on
-- behind them.
pub del_box-without :
    (keep_trail : Bool) (mode : EntabMode) (col_max tw y x_left x_right : ℕ) (collapse : Bool)
    (f : Fbuf)
    → 0 < tw
    → x_left ≤ x_right
    → length (detab tw 0 (peek_raw_line f y)) ≤ col_max
    → del_box keep_trail mode col_max tw x_left y x_right y collapse f
      ≡ put_line_entab keep_trail mode tw y
          (without x_left (x_right + 1 - x_left) collapse (detab tw 0 (peek_raw_line f y)))
          f
unfolding del_box remove_lines
del_box-without keep_trail mode col_max tw y x_left x_right collapse f p le fits =
    let e = detab tw 0 (peek_raw_line f y) in
    let w = x_right + 1 - x_left in
    let forward : ltb x_right x_left ≡ false = ground (arith, le) in
    let once : y + 1 - y ≡ 1 = omega arith in
    let line = dup_line_tabs2spcs-detab col_max tw y f p fits in
    let removed =
      seg_removed-without tw x_left w collapse e p (omega (arith, le))
        (IsTabless-detab tw 0 (peek_raw_line f y)) in
    let result = put_line_entab keep_trail mode tw y (without x_left w collapse e) f in
    elim (Option-cases result) [
      | inl failed ↦ rw (forward, once, remove_lines, line, removed, failed)
      | inr (g, put) ↦ rw (forward, once, remove_lines, line, removed, put)
    ]
