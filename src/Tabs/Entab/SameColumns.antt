-- ===== src/Tabs/Entab/SameColumns.antt =====
-- The columns of what `spcs2tabs_leading` and `spcs2tabs_all` (fbuf_edit.cpp) write.
use k_edit.Prelude.{
  ℕ, zero, suc, ◌+◌, ◌-◌, ◌%◌, ◌<◌, ◌==◌, true, false, [], ◌∷◌, ◌++◌, replicate, ◌≡◌, refl, sym, ap,
  ◌∙◌, arith, append-nil, inl, inr, Bool-cases,
}
use k_edit.Tabs.{Text, htab, space, next_col}
use k_edit.Tabs.Expand.Segment.{detab}
use k_edit.Tabs.Entab.{is_blank, blank_step, leading, all, spcs2tabs_leading, spcs2tabs_all}
use k_edit.Tabs.Entab.Blanks.{IsPending, Shows, blank_step-Shows}
use native.Mathlib.Nat.{mod-lt}

pub detab-replicate :
    (tw b n : ℕ) (s : Text)
    → detab tw b (replicate n space ++ s) ≡ replicate n space ++ detab tw (b + n) s
detab-replicate tw b zero s = ap (λ k. detab tw k s) (omega arith)
detab-replicate tw b (suc n) s =
    let e : b + suc n ≡ b + 1 + n = omega arith in
    rw e (ap (space ∷◌) (detab-replicate tw (b + 1) n s))

-- The end of a loop: what is pending is written.
pub detab-pending :
    (tw b col n : ℕ) (s : Text)
    → col ≡ b + n
    → detab tw b (replicate n space ++ s) ≡ replicate n space ++ detab tw col s
detab-pending tw b col n s e = rw e (detab-replicate tw b n s)

pub detab-end :
    (tw b col n : ℕ)
    → col ≡ b + n
    → detab tw b (replicate n space) ≡ replicate n space ++ detab tw col []
detab-end tw b col n e =
    ap (detab tw b) (sym (append-nil (replicate n space))) ∙ detab-pending tw b col n [] e

-- A column with nothing pending.
pub none_pending : (tw col : ℕ) → 0 < tw → 0 < tw - col % tw
none_pending tw col p = omega (arith, mod-lt col p)

-- One blank in front of a text `r` that shows what follows.
pub detab-blank :
    (tw b col n c : ℕ) (r s : Text)
    → 0 < tw
    → col ≡ b + n
    → n < tw - b % tw
    → is_blank c ≡ true
    → ((b' : ℕ)
        → IsPending tw b' (blank_step tw c col n)
        → detab tw b' r
          ≡ replicate (blank_step tw c col n).n space ++ detab tw (blank_step tw c col n).col s)
    → detab tw b ((blank_step tw c col n).out ++ r) ≡ replicate n space ++ detab tw col (c ∷ s)
detab-blank tw b col n c r s p e short h k =
    let shows : Shows tw b n c (blank_step tw c col n) =
      rw e (blank_step-Shows tw b n c p short h) in
    let next : (blank_step tw c col n).col ≡ next_col tw c col = rw (← e) at shows.next in
    shows.same r (detab tw (blank_step tw c col n).col s) (k shows.base shows.pending)
    ∙ rw (next, e)

detab-leading :
    (tw : ℕ) (src : Text) (b col n : ℕ)
    → 0 < tw
    → col ≡ b + n
    → n < tw - b % tw
    → detab tw b (leading tw src col n) ≡ replicate n space ++ detab tw col src
unfolding leading
detab-leading tw [] b col n p e short = detab-end tw b col n e
detab-leading tw (c ∷ src) b col n p e short = elim (Bool-cases (is_blank c)) [
  | inl blank ↦
      let q = blank_step tw c col n in
      rw blank (
        detab-blank tw b col n c (leading tw src q.col q.n) src p e short blank
          (λ b' w. detab-leading tw src b' q.col q.n p w.at w.short))
  | inr other ↦ rw other (detab-pending tw b col n (c ∷ src) e)
]

-- A character that is no blank is copied behind what is pending.
pub detab-other :
    (tw b col n c : ℕ) (r s : Text)
    → col ≡ b + n
    → (c ≡ htab → ⊥)
    → detab tw (col + 1) r ≡ detab tw (col + 1) s
    → detab tw b (replicate n space ++ c ∷ r) ≡ replicate n space ++ detab tw col (c ∷ s)
detab-other tw b col n c r s e h k =
    let t : (c == htab) ≡ false = ground arith in detab-pending tw b col n (c ∷ r) e ∙ rw (t, k)

not_htab : (c : ℕ) → is_blank c ≡ false → c ≡ htab → ⊥
unfolding is_blank
not_htab c h e = ground arith

detab-all :
    (tw : ℕ) (src : Text) (b col n : ℕ)
    → 0 < tw
    → col ≡ b + n
    → n < tw - b % tw
    → detab tw b (all tw src col n) ≡ replicate n space ++ detab tw col src
unfolding all
detab-all tw [] b col n p e short = detab-end tw b col n e
detab-all tw (c ∷ src) b col n p e short = elim (Bool-cases (is_blank c)) [
  | inl blank ↦
      let q = blank_step tw c col n in
      rw blank (
        detab-blank tw b col n c (all tw src q.col q.n) src p e short blank
          (λ b' w. detab-all tw src b' q.col q.n p w.at w.short))
  | inr other ↦
      let rest : detab tw (col + 1) (all tw src (col + 1) 0) ≡ detab tw (col + 1) src =
        detab-all tw src (col + 1) (col + 1) 0 p (omega arith) (none_pending tw (col + 1) p) in
      rw other (detab-other tw b col n c (all tw src (col + 1) 0) src e (not_htab c other) rest)
]

-- For a positive tab width and every line: compressing the leading blanks, or all blanks, into
-- tabs shows the same columns.
pub detab-spcs2tabs :
    (tw : ℕ) (src : Text)
    → 0 < tw
    → (detab tw 0 (spcs2tabs_leading tw src) ≡ detab tw 0 src)
      × (detab tw 0 (spcs2tabs_all tw src) ≡ detab tw 0 src)
unfolding spcs2tabs_leading spcs2tabs_all
detab-spcs2tabs tw src p = (
  detab-leading tw src 0 0 0 p refl (none_pending tw 0 p),
  detab-all tw src 0 0 0 p refl (none_pending tw 0 p),
)
