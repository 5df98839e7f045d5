-- ===== src/Tabs/Expand/Segment.antt =====
-- `FormatExpandedSeg` (fbuf_edit.cpp) with a space for the tab glyph, against the whole line
-- with its tabs expanded.
use k_edit.Prelude.{
  ℕ, zero, suc, ◌+◌, ◌-◌, ◌≤◌, ◌<◌, ◌==◌, if◌then◌else◌, Bool, true, false, [], ◌∷◌, ◌++◌, length,
  take, drop, replicate, ◌≡◌, refl, sym, ap, ◌∙◌, subst, arith, length-append, append_assoc,
  append-nil, ◌⊎◌, inl, inr, Bool-cases,
}
use k_edit.Tabs.{Text, htab, space, col_of_next_tab_stop, next_col}
use k_edit.Tabs.Stops.{lt-next_tab_stop}
use k_edit.Tabs.Expand.{
  Writer, wr_char, Glyphs, fill_tab, write_char, walk, spaces_only, subst_trailing, finish,
  format_expanded_seg,
}
use native.Mathlib.Decide.{dec_lt}
use mathlib.Core.List.{reverse-reverse}

-- What a character that stands at column `col` shows.
abbrev pub cell : ℕ → ℕ → ℕ → Text
cell tw c col = if c == htab then replicate (col_of_next_tab_stop tw col - col) space else c ∷ []

-- The line with its tabs expanded: the character number `i` stands at column `i`.
abbrev pub detab : ℕ → ℕ → Text → Text
detab tw col [] = []
detab tw col (c ∷ s) = cell tw c col ++ detab tw (next_col tw c col) s

take-append_full : (max : ℕ) (xs ys : Text) → length xs ≡ max → take max (xs ++ ys) ≡ xs
take-append_full zero [] ys h = refl
take-append_full zero (x ∷ xs) ys h = absurd (omega arith)
take-append_full (suc m) [] ys h = absurd (omega arith)
take-append_full (suc m) (x ∷ xs) ys h = ap (x ∷◌) (take-append_full m xs ys (omega arith))

pub take_all : (max : ℕ) (xs : Text) → length xs ≤ max → take max xs ≡ xs
take_all zero [] h = refl
take_all zero (x ∷ xs) h = absurd (omega arith)
take_all (suc m) [] h = refl
take_all (suc m) (x ∷ xs) h = ap (x ∷◌) (take_all m xs (omega arith))

drop-nil : (k : ℕ) → drop k (let e : Text = [] in e) ≡ []
drop-nil zero = refl
drop-nil (suc k) = refl

module _ (max x_min : ℕ) where
  -- What the writer holds in the end, if `rest` is still to be written.
  abbrev final : Writer → Text → Text
  final w rest = take max (w.out ++ drop (x_min - w.x_col) rest)

  -- Between `w` and `w'` the text `s` is written, as far as there is room.
  record Wrote (w : Writer) (s : Text) (w' : Writer) : Type 0 where
    same : (rest : Text) → final w' rest ≡ final w (s ++ rest)
    room : length w'.out ≤ max

  Wrote-full : (w : Writer) (s : Text) → length w.out ≡ max → Wrote w s w
  Wrote-full w s h = record {
    same = λ rest. take-append_full max w.out _ h ∙ sym (take-append_full max w.out _ h);
    room = omega arith;
  }

  Wrote-trans :
      {w w' w'' : Writer} (s t : Text) → Wrote w s w' → Wrote w' t w'' → Wrote w (s ++ t) w''
  Wrote-trans {w} s t a b = record {
    same = λ rest. b.same rest ∙ a.same (t ++ rest) ∙ ap (final w) (sym (append_assoc s t rest));
    room = b.room;
  }

  wr_char_left :
      (w : Writer) (ch : ℕ)
      → w.x_col < x_min
      → wr_char x_min ch w ≡ record { x_col = w.x_col + 1; out = w.out }
  unfolding wr_char
  wr_char_left w ch h = ground arith

  wr_char_right :
      (w : Writer) (ch : ℕ)
      → x_min ≤ w.x_col
      → wr_char x_min ch w ≡ record { x_col = w.x_col + 1; out = w.out ++ ch ∷ [] }
  unfolding wr_char
  wr_char_right w ch h = ground arith

  Wrote-wr_char :
      (w : Writer) (ch : ℕ) → length w.out < max → Wrote w (ch ∷ []) (wr_char x_min ch w)
  Wrote-wr_char w ch h = elim (dec_lt w.x_col x_min) [
    | yes q ↦
        let e : x_min - w.x_col ≡ suc (x_min - (w.x_col + 1)) = omega arith in
        subst (Wrote w (ch ∷ [])) (sym (wr_char_left w ch q))
          (record { same = λ rest. rw e; room = omega arith })
    | no q ↦
        let z : x_min - w.x_col ≡ 0 = omega arith in
        let z' : x_min - (w.x_col + 1) ≡ 0 = omega arith in
        subst (Wrote w (ch ∷ [])) (sym (wr_char_right w ch (omega arith))) (record {
          same = λ rest. rw (z, z', append_assoc);
          room = omega (arith, length-append w.out (ch ∷ []));
        })
  ]

  x_col-wr_char : (ch : ℕ) (w : Writer) → (wr_char x_min ch w).x_col ≡ w.x_col + 1
  unfolding wr_char
  x_col-wr_char ch w = refl

abbrev spaces : Glyphs
spaces = record { first = space; fill = space; last = space }

if_same : (b : Bool) → (if b then space else space) ≡ space
if_same true = refl
if_same false = refl

-- The writer has reached the column, unless it is full.
abbrev Reached : ℕ → ℕ → Writer → Type 0
Reached max col w = (w.x_col ≡ col) ⊎ (length w.out ≡ max)

module _ (max x_min : ℕ) where
  abbrev WroteTo : Writer → Text → ℕ → Writer → Type 0
  WroteTo w s col w' = Wrote max x_min w s w' × Reached max col w'

  fill_tab-WroteTo :
      (tgt rounds : ℕ) (w : Writer)
      → length w.out ≤ max
      → w.x_col + rounds ≡ tgt
      → WroteTo w (replicate rounds space) tgt (fill_tab spaces max x_min tgt rounds w)
  unfolding fill_tab
  fill_tab-WroteTo tgt zero w h e = (record { same = λ rest. refl; room = h }, inl (omega arith))
  fill_tab-WroteTo tgt (suc n) w h e = elim (dec_lt (length w.out) max) [
    | yes q ↦
        let w' = wr_char x_min space w in
        let first = Wrote-wr_char max x_min w space q in
        let (rest, at) =
          fill_tab-WroteTo tgt n w' first.room (omega (arith, x_col-wr_char max x_min space w)) in
        let r : fill_tab spaces max x_min tgt (suc n) w ≡ fill_tab spaces max x_min tgt n w' =
          rw if_same (ground arith) in
        subst (WroteTo w (space ∷ replicate n space) tgt) (sym r)
          (Wrote-trans max x_min (space ∷ []) (replicate n space) first rest, at)
    | no q ↦
        let r : fill_tab spaces max x_min tgt (suc n) w ≡ w = ground arith in
        subst (WroteTo w (space ∷ replicate n space) tgt) (sym r)
          (Wrote-full max x_min w _ (omega arith), inr (omega arith))
  ]

  tab_cell :
      (tw col : ℕ)
      → 0 < tw
      → cell tw htab col ≡ space ∷ replicate (col_of_next_tab_stop tw col - (col + 1)) space
  tab_cell tw col p =
      let e : col_of_next_tab_stop tw col - col ≡ suc (col_of_next_tab_stop tw col - (col + 1)) =
        omega (arith, lt-next_tab_stop tw col p) in
      rw e refl

  write_char-WroteTo :
      (tw ch : ℕ) (w : Writer)
      → 0 < tw
      → length w.out < max
      → WroteTo w
          (cell tw ch w.x_col)
          (next_col tw ch w.x_col)
          (write_char spaces tw space max x_min ch w)
  unfolding write_char
  write_char-WroteTo tw ch w p h = elim (Bool-cases (ch == htab)) [
    | inl tab ↦
        let col = w.x_col in
        let tgt = col_of_next_tab_stop tw col in
        let n = tgt - (col + 1) in
        let w' = wr_char x_min space w in
        let first = Wrote-wr_char max x_min w space h in
        let at = x_col-wr_char max x_min space w in
        let (rest, end) =
          fill_tab-WroteTo tgt n w' first.room (omega (arith, at, lt-next_tab_stop tw col p)) in
        let r : write_char spaces tw space max x_min ch w ≡ fill_tab spaces max x_min tgt n w' =
          rw (tab, if_same) (ap (λ k. fill_tab spaces max x_min tgt (tgt - k) w') at) in
        let c : cell tw ch col ≡ space ∷ replicate n space = rw tab (tab_cell tw col p) in
        let t : next_col tw ch col ≡ tgt = rw tab in
        rw (r, c, t) (Wrote-trans max x_min (space ∷ []) (replicate n space) first rest, end)
    | inr plain ↦
        let r : write_char spaces tw space max x_min ch w ≡ wr_char x_min ch w = ground arith in
        rw (r, plain) (Wrote-wr_char max x_min w ch h, inl (x_col-wr_char max x_min ch w))
  ]

  out-walk :
      (tw : ℕ) (src : Text) (w : Writer)
      → 0 < tw
      → length w.out ≤ max
      → (walk spaces tw space max x_min src w).0.out ≡ final max x_min w (detab tw w.x_col src)
  unfolding walk
  out-walk tw [] w p h = sym (rw (drop-nil, append-nil) (take_all max w.out h))
  out-walk tw (c ∷ src) w p h = elim (dec_lt (length w.out) max) [
    | yes q ↦
        let w' = write_char spaces tw space max x_min c w in
        let (wrote, at) = write_char-WroteTo tw c w p q in
        let s = cell tw c w.x_col in
        let next = next_col tw c w.x_col in
        let r : (walk spaces tw space max x_min (c ∷ src) w).0.out
            ≡ (walk spaces tw space max x_min src w').0.out =
          ground arith in
        let same : final max x_min w' (detab tw w'.x_col src)
            ≡ final max x_min w' (detab tw next src) =
          elim at [
            | inl e ↦ rw e
            | inr full ↦
                take-append_full max w'.out _ full ∙ sym (take-append_full max w'.out _ full)
          ] in
        r ∙ out-walk tw src w' p wrote.room ∙ same ∙ wrote.same (detab tw next src)
    | no q ↦
        let r : (walk spaces tw space max x_min (c ∷ src) w).0.out ≡ w.out = ground arith in
        r ∙ sym (take-append_full max w.out _ (omega arith))
  ]

subst_trailing-space : (s : Text) → subst_trailing space s ≡ s
unfolding subst_trailing
subst_trailing-space [] = refl
subst_trailing-space (c ∷ s) = ground (arith, subst_trailing-space s)

finish-spaces : (ch : ℕ) (r : Writer × Text) → (ch ≡ 0) ⊎ (ch ≡ space) → finish ch r ≡ r.0.out
unfolding finish
finish-spaces ch (w, left) (inl z) = rw z
finish-spaces ch (w, left) (inr e) = elim (Bool-cases (spaces_only left)) [
  | inl b ↦ rw (e, b, subst_trailing-space) (reverse-reverse w.out)
  | inr b ↦ rw (e, b)
]

-- For a positive tab width, with spaces for tabs and trailing spaces left alone or marked by
-- spaces: the segment is that of the expanded line from the column `x_min` on, at most `max`
-- characters of it.
pub format_expanded_seg-spaces :
    (max : ℕ) (src : Text) (x_min tw ch_trail : ℕ)
    → 0 < tw
    → (ch_trail ≡ 0) ⊎ (ch_trail ≡ space)
    → format_expanded_seg max src x_min tw space ch_trail ≡ take max (drop x_min (detab tw 0 src))
unfolding format_expanded_seg
format_expanded_seg-spaces max src x_min tw ch_trail p t =
    let start : Writer = record { x_col = 0; out = [] } in
    let z : x_min - 0 ≡ x_min = omega arith in
    finish-spaces ch_trail (walk spaces tw space max x_min src start) t
    ∙ out-walk max x_min tw src start p (omega arith)
    ∙ rw z
