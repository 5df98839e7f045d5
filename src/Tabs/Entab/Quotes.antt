-- ===== src/Tabs/Entab/Quotes.antt =====
-- The columns of what `spcs2tabs_outside_quotes` (fbuf_edit.cpp) writes.
use k_edit.Prelude.{
  ℕ, ◌+◌, ◌-◌, ◌%◌, ◌<◌, ◌==◌, ◌&&◌, ◌||◌, not, true, false, [], ◌∷◌, ◌++◌, replicate, ◌≡◌, refl,
  subst, arith, inl, inr, Bool-cases,
}
use k_edit.Tabs.{Text, htab, space}
use k_edit.Tabs.Expand.Segment.{detab}
use k_edit.Tabs.Entab.{
  is_blank, blank_step, Mode, plain, next_mode, skips_blanks, outside, spcs2tabs_outside_quotes,
}
use k_edit.Tabs.Entab.SameColumns.{detab-end, detab-blank, detab-other, none_pending}

-- No tab stands in quotes or behind an escape character.
abbrev pub TabsOutside : Mode → Text → Type 0
TabsOutside m [] = Unit
TabsOutside m (c ∷ s) = ((skips_blanks m || not (c == htab)) ≡ true) × TabsOutside (next_mode m c) s

next_mode-blank : (m : Mode) (c : ℕ) → skips_blanks m && is_blank c ≡ true → next_mode m c ≡ m
unfolding next_mode skips_blanks is_blank
next_mode-blank plain c h = ground arith
next_mode-blank Mode.plain_escaped c h = cc
next_mode-blank (Mode.quoted q) c h = cc
next_mode-blank (Mode.quoted_escaped q) c h = cc

spared_not-htab :
    (m : Mode) (c : ℕ)
    → (skips_blanks m || not (c == htab)) ≡ true
    → skips_blanks m && is_blank c ≡ false
    → c ≡ htab
    → ⊥
unfolding is_blank
spared_not-htab m c k h e = elim (Bool-cases (skips_blanks m)) [
  | inl skips ↦ ground arith
  | inr spares ↦ ground arith
]

blank_of_skipped : (m : Mode) (c : ℕ) → skips_blanks m && is_blank c ≡ true → is_blank c ≡ true
blank_of_skipped m c h = ground arith

detab-outside :
    (tw : ℕ) (src : Text) (m : Mode) (b col n : ℕ)
    → 0 < tw
    → TabsOutside m src
    → col ≡ b + n
    → n < tw - b % tw
    → detab tw b (outside tw src m col n) ≡ replicate n space ++ detab tw col src
unfolding outside
detab-outside tw [] m b col n p t e short = detab-end tw b col n e
detab-outside tw (c ∷ src) m b col n p (here, t) e short =
    elim (Bool-cases (skips_blanks m && is_blank c)) [
      | inl blank ↦
          let q = blank_step tw c col n in
          let t' : TabsOutside m src =
            subst (λ k. TabsOutside k src) (next_mode-blank m c blank) t in
          rw blank (
            detab-blank tw b col n c (outside tw src m q.col q.n) src p e short
              (blank_of_skipped m c blank)
              (λ b' w. detab-outside tw src m b' q.col q.n p t' w.at w.short))
      | inr other ↦
          let m' = next_mode m c in
          let rest : detab tw (col + 1) (outside tw src m' (col + 1) 0) ≡ detab tw (col + 1) src =
            detab-outside tw src m' (col + 1) (col + 1) 0 p t (omega arith)
              (none_pending tw (col + 1) p) in
          rw other (
            detab-other tw b col n c (outside tw src m' (col + 1) 0) src e
              (spared_not-htab m c here other) rest)
    ]

-- For a positive tab width: if no tab of the line stands in quotes or behind an escape
-- character, compressing the blanks outside quotes shows the same columns.
pub detab-spcs2tabs_outside_quotes :
    (tw : ℕ) (src : Text)
    → 0 < tw
    → TabsOutside plain src
    → detab tw 0 (spcs2tabs_outside_quotes tw src) ≡ detab tw 0 src
unfolding spcs2tabs_outside_quotes
detab-spcs2tabs_outside_quotes tw src p t =
    detab-outside tw src plain 0 0 0 p t refl (none_pending tw 0 p)
