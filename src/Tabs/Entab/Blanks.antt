-- ===== src/Tabs/Entab/Blanks.antt =====
-- One blank in the loops of the `spcs2tabs` functions (fbuf_edit.cpp): what is written and what
-- is pending.
use k_edit.Prelude.{
  ℕ, zero, suc, ◌+◌, ◌-◌, ◌%◌, ◌<◌, ◌==◌, if◌then◌else◌, true, [], ◌∷◌, ◌++◌, replicate, ◌≡◌, refl,
  ap, ◌∙◌, arith, append_assoc, inl, inr, Bool-cases,
}
use k_edit.Tabs.{Text, htab, space, col_of_next_tab_stop, next_col}
use k_edit.Tabs.Stops.{lt-next_tab_stop, next_tab_stop_between, col_at_tab_stop_iff}
use k_edit.Tabs.Expand.Segment.{cell, detab}
use k_edit.Tabs.Entab.{is_blank, Pending, blank_step}
use native.Mathlib.Nat.{mod-lt}

replicate-add : (m n : ℕ) → replicate (m + n) space ≡ replicate m space ++ replicate n space
replicate-add zero n = ap (λ k. replicate k space) (omega arith)
replicate-add (suc m) n =
    let e : suc m + n ≡ suc (m + n) = omega arith in rw e (ap (space ∷◌) (replicate-add m n))

-- What is written ends at the column `b`, and the `n` spaces pending behind it reach no stop.
pub record IsPending (tw b : ℕ) (p : Pending) : Type 0 where
  pub at : p.col ≡ b + p.n
  pub short : p.n < tw - b % tw

-- What `p` writes and leaves pending shows, from the column `b`, `n` spaces and the character `c`.
pub record Shows (tw b n c : ℕ) (p : Pending) : Type 0 where
  pub base : ℕ
  pub pending : IsPending tw base p
  pub next : p.col ≡ next_col tw c (b + n)
  pub same :
      (r d : Text)
      → detab tw base r ≡ replicate p.n space ++ d
      → detab tw b (p.out ++ r) ≡ replicate n space ++ (cell tw c (b + n) ++ d)

module _ (tw b n : ℕ) (p : 0 < tw) (short : n < tw - b % tw) where
  -- The width of a tab at `b` is what is pending and the width of a tab behind it.
  width : col_of_next_tab_stop tw b - b ≡ n + (col_of_next_tab_stop tw (b + n) - (b + n))
  width = omega (arith, next_tab_stop_between tw b n p short, lt-next_tab_stop tw (b + n) p)

  tab-Shows :
      Shows tw b n htab (record { out = htab ∷ []; col = col_of_next_tab_stop tw (b + n); n = 0 })
  tab-Shows = record {
    base = col_of_next_tab_stop tw (b + n);
    pending = record {
      at = omega arith;
      short = omega (arith, mod-lt (col_of_next_tab_stop tw (b + n)) p);
    };
    next = refl;
    same = λ r d e.
        rw (width, replicate-add, append_assoc, ← next_tab_stop_between tw b n p short)
          (ap
            (λ t.
              replicate n space
              ++ (replicate (col_of_next_tab_stop tw (b + n) - (b + n)) space ++ t))
            e);
  }

  next_tab_stop_at : n + 1 ≡ tw - b % tw → col_of_next_tab_stop tw b ≡ b + n + 1
  unfolding col_of_next_tab_stop
  next_tab_stop_at e = omega arith

  -- A single space that reaches a stop stays a space; several become a tab.
  stop_same :
      (r d : Text)
      → n + 1 ≡ tw - b % tw
      → detab tw (b + n + 1) r ≡ d
      → detab tw b ((if n + 1 == 1 then space else htab) ∷ r) ≡ replicate n space ++ space ∷ d
  stop_same r d e h = elim (Bool-cases (n + 1 == 1)) [
    | inl one ↦
        let z : n ≡ 0 = ground arith in
        let z' : b + n + 1 ≡ b + 1 = omega arith in rw (one, z) (ap (space ∷◌) (rw (← z') h))
    | inr more ↦
        let t = next_tab_stop_at e in
        let w : col_of_next_tab_stop tw b - b ≡ n + 1 = omega arith in
        rw (more, w, t, h, replicate-add n 1, append_assoc)
  ]

  stop-Shows :
      n + 1 ≡ tw - b % tw
      → Shows tw b n space
          (record { out = (if n + 1 == 1 then space else htab) ∷ []; col = b + n + 1; n = 0 })
  stop-Shows e = record {
    base = b + n + 1;
    pending = record { at = omega arith; short = omega (arith, mod-lt (b + n + 1) p) };
    next = refl;
    same = λ r d h. stop_same r d e h;
  }

  wait-Shows :
      n + 1 < tw - b % tw → Shows tw b n space (record { out = []; col = b + n + 1; n = n + 1 })
  wait-Shows h = record {
    base = b;
    pending = record { at = omega arith; short = h };
    next = refl;
    same = λ r d e. e ∙ rw (replicate-add n 1, append_assoc);
  }

-- Every blank keeps the columns.
pub blank_step-Shows :
    (tw b n c : ℕ)
    → 0 < tw
    → n < tw - b % tw
    → is_blank c ≡ true
    → Shows tw b n c (blank_step tw c (b + n) n)
unfolding blank_step is_blank
blank_step-Shows tw b n c p short h = elim (Bool-cases (c == htab)) [
  | inl tab ↦ let e : c ≡ htab = ground arith in rw e (tab-Shows tw b n p short)
  | inr other ↦
      let e : c ≡ space = ground arith in
      rw (e, col_at_tab_stop_iff tw b n p short)
        (elim (Bool-cases (n + 1 == tw - b % tw)) [
          | inl stop ↦ rw stop (stop-Shows tw b n p short (ground arith))
          | inr no_stop ↦ rw no_stop (wait-Shows tw b n p short (ground arith))
        ])
]
