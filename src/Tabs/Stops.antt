-- ===== src/Tabs/Stops.antt =====
-- Where the tab stops lie: class `Tabber` (fbuf_edit.cpp).
use k_edit.Prelude.{
  ℕ, zero, suc, ◌+◌, ◌-◌, ◌*◌, ◌/◌, ◌%◌, ◌≤◌, ◌<◌, ◌≡◌, sym, ap, ◌∙◌, true, arith, ◌==◌, ◌⊎◌, inl,
  inr, false,
}
use k_edit.Prelude.Int.{pos}
use k_edit.Tabs.{col_of_next_tab_stop, col_of_prev_tab_stop, col_at_tab_stop, next_col}
use native.Mathlib.Nat.{mod-lt, div-add-mod, mod-add-mod, mod-eq_of_lt, mod_self, mul-mod_right}
use native.Mathlib.Decide.{dec_lt}

pub lt-next_tab_stop : (tw col : ℕ) → 0 < tw → col < col_of_next_tab_stop tw col
unfolding col_of_next_tab_stop
lt-next_tab_stop tw col h = grind arith

pub next_tab_stop_le : (tw col : ℕ) → col_of_next_tab_stop tw col ≤ col + tw
unfolding col_of_next_tab_stop
next_tab_stop_le tw col = omega arith

pub lt-next_col : (tw c col : ℕ) → 0 < tw → col < next_col tw c col
lt-next_col tw c col h = ground (arith, lt-next_tab_stop tw col h)

-- The remainder of a column `d` past `col`, as long as no stop lies between.
add-mod-short : (tw col d : ℕ) → 0 < tw → d < tw - col % tw → (col + d) % tw ≡ col % tw + d
add-mod-short tw col d p h = sym (mod-add-mod col tw d) ∙ mod-eq_of_lt (omega (arith, mod-lt col p))

mod-next_tab_stop : (tw col : ℕ) → 0 < tw → (col + (tw - col % tw)) % tw ≡ 0
mod-next_tab_stop tw col p =
    let e : col % tw + (tw - col % tw) ≡ tw = omega (arith, mod-lt col p) in
    sym (mod-add-mod col tw (tw - col % tw)) ∙ ap (λ t. t % tw) e ∙ mod_self tw

-- A column between `col` and the next stop has the same next stop.
pub next_tab_stop_between :
    (tw col d : ℕ)
    → 0 < tw
    → d < tw - col % tw
    → col_of_next_tab_stop tw (col + d) ≡ col_of_next_tab_stop tw col
unfolding col_of_next_tab_stop
next_tab_stop_between tw col d p h = omega (arith, add-mod-short tw col d p h)

-- Among the columns behind `col`, up to the next stop, only that one is a stop.
pub col_at_tab_stop_iff :
    (tw col d : ℕ)
    → 0 < tw
    → d < tw - col % tw
    → col_at_tab_stop tw (col + d + 1) ≡ (d + 1 == tw - col % tw)
unfolding col_at_tab_stop
col_at_tab_stop_iff tw col d p h = elim (dec_lt (d + 1) (tw - col % tw)) [
  | yes q ↦ ground (arith, add-mod-short tw col (d + 1) p q)
  | no q ↦
      let e : col + d + 1 ≡ col + (tw - col % tw) = omega arith in
      rw e (ground (arith, mod-next_tab_stop tw col p))
]

-- For a positive tab width: the next stop is a stop behind the column, at most a tab's width
-- away, and no other stop `c` stands between the two.
pub next_tab_stop_least :
    (tw col c : ℕ)
    → 0 < tw
    → (col_at_tab_stop tw (col_of_next_tab_stop tw col) ≡ true)
      × (col < col_of_next_tab_stop tw col)
      × (col_of_next_tab_stop tw col ≤ col + tw)
      × ((c ≤ col) ⊎ (col_at_tab_stop tw c ≡ false) ⊎ (col_of_next_tab_stop tw col ≤ c))
unfolding col_at_tab_stop col_of_next_tab_stop
next_tab_stop_least tw col c p = (
  ground (arith, mod-next_tab_stop tw col p),
  omega (arith, mod-lt col p),
  omega arith,
  elim (dec_lt col c) [
    | no q ↦ inl (omega arith)
    | yes q ↦ elim (dec_lt (c - col) (tw - col % tw)) [
      | no q' ↦ inr (inr (omega arith))
      | yes q' ↦
          let e : col + (c - col) ≡ c = omega arith in
          inr (inl (ground (arith, add-mod-short tw col (c - col) p q', ap (λ t. t % tw) e)))
    ]
  ],
)

-- For a positive tab width: the previous stop of a column other than 0 is a stop before it, and
-- the next stop behind that is not before the column.
prev_tab_stop_greatest :
    (tw col : ℕ)
    → 0 < tw
    → 0 < col
    → (p : ℕ) × (col_of_prev_tab_stop tw col ≡ pos p)
      × (col_at_tab_stop tw p ≡ true)
      × (p < col)
      × (col ≤ col_of_next_tab_stop tw p)
unfolding col_at_tab_stop col_of_next_tab_stop col_of_prev_tab_stop
prev_tab_stop_greatest tw zero p h = absurd (omega arith)
prev_tab_stop_greatest tw (suc c) p h =
    let q = tw * (c / tw) in
    let e : q + c % tw ≡ c = div-add-mod c tw in
    let z : q % tw ≡ 0 = mul-mod_right tw (c / tw) in
    (q, ap pos (omega arith), ground arith, omega arith, omega (arith, mod-lt c p))
