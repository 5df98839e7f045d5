-- ===== src/Views/Places.antt =====
-- The columns and lines that MoveCursor_ and ScrollOriginAndCursor_ choose (cursor.cpp, display.cpp).
use k_edit.Prelude.{
  ℕ, ◌+◌, ◌*◌, ◌/◌, ◌≤◌, ◌<◌, max, true, false, Bool-cases, if◌then◌else◌, ◌≡◌, ◌⊎◌, inl, inr,
  arith,
}
use k_edit.Prelude.Int.{ℤ, pos, pos_part, neg_part, ◌+ℤ◌, ◌-ℤ◌, ◌≤ℤ◌, ltb_ℤ, +ℤ_parts, -ℤ_parts}
use k_edit.Views.{leb_ℤ, constrain, x_scrolled, is_near, hike_lines, y_scrolled, scroll_step}

pub constrain_cases :
    (lo v hi : ℤ)
    → (lo ≤ℤ constrain lo v hi)
      × ((constrain lo v hi ≤ℤ lo) ⊎ ((constrain lo v hi ≤ℤ v) × (constrain lo v hi ≤ℤ hi)))
      × ((v ≤ℤ constrain lo v hi) ⊎ (hi ≤ℤ constrain lo v hi))
unfolding constrain
constrain_cases lo v hi = ground arith

abbrev pub Below : ℤ → ℤ → Type 0
Below a b = pos_part a + neg_part b < pos_part b + neg_part a

pub ltb_ℤ-cases : (a b : ℤ) → ((ltb_ℤ a b ≡ true) × Below a b) ⊎ ((ltb_ℤ a b ≡ false) × (b ≤ℤ a))
ltb_ℤ-cases a b = elim (Bool-cases (ltb_ℤ a b)) [
  | inl h ↦ inl (h, ground (arith, h))
  | inr h ↦ inr (h, ground (arith, h))
]

pub leb_ℤ-cases : (a b : ℤ) → ((leb_ℤ a b ≡ true) × (a ≤ℤ b)) ⊎ ((leb_ℤ a b ≡ false) × Below b a)
leb_ℤ-cases a b = elim (Bool-cases (leb_ℤ a b)) [
  | inl h ↦ inl (h, ground (arith, h))
  | inr h ↦ inr (h, ground (arith, h))
]

-- The first column before it is moved to the left to show more than the cursor's column
abbrev first_column : ℕ → ℕ → ℤ → ℤ → ℤ
first_column step size origin x =
    let d = x -ℤ origin in
    if ltb_ℤ d (pos 0)
    then (if ltb_ℤ d (pos 0 -ℤ pos step)
        then origin -ℤ pos step +ℤ (d +ℤ pos 1)
        else origin -ℤ pos step)
    else (if leb_ℤ (pos size) d
        then (if leb_ℤ (pos step +ℤ pos size) d
            then origin +ℤ pos step +ℤ (d -ℤ pos size)
            else origin +ℤ pos step)
        else origin)

-- `x` is one of the `size` columns or lines from `o` on.
abbrev pub Shows : ℕ → ℤ → ℤ → Type 0
Shows size o x = (o ≤ℤ x) × (x +ℤ pos 1 ≤ℤ o +ℤ pos size)

first_column-Shows :
    (step size : ℕ) (origin x : ℤ)
    → 1 ≤ step
    → step ≤ size
    → Shows size (first_column step size origin x) x
first_column-Shows step size origin x h1 h2 =
    let d = x -ℤ origin in
    elim (ltb_ℤ-cases d (pos 0)) [
      | inl (left, left_fact) ↦ elim (ltb_ℤ-cases d (pos 0 -ℤ pos step)) [
        | inl (far, far_fact) ↦
            rw (left, far) (omega (arith, +ℤ_parts, -ℤ_parts), omega (arith, +ℤ_parts, -ℤ_parts))
        | inr (near, near_fact) ↦
            let shows : Shows size (origin -ℤ pos step) x =
              (omega (arith, +ℤ_parts, -ℤ_parts), omega (arith, +ℤ_parts, -ℤ_parts)) in
            rw (left, near) shows
      ]
      | inr (not_left, not_left_fact) ↦ elim (leb_ℤ-cases (pos size) d) [
        | inl (right, right_fact) ↦ elim (leb_ℤ-cases (pos step +ℤ pos size) d) [
          | inl (far, far_fact) ↦
              rw (not_left, right, far)
                (omega (arith, +ℤ_parts, -ℤ_parts), omega (arith, +ℤ_parts, -ℤ_parts))
          | inr (near, near_fact) ↦
              rw (not_left, right, near)
                (omega (arith, +ℤ_parts, -ℤ_parts), omega (arith, +ℤ_parts, -ℤ_parts))
        ]
        | inr (inside, inside_fact) ↦
            rw (not_left, inside)
              (omega (arith, +ℤ_parts, -ℤ_parts), omega (arith, +ℤ_parts, -ℤ_parts))
      ]
    ]

-- With `n` columns from `x` on to be shown
pub x_scrolled_lem :
    (step size : ℕ) (origin x n : ℤ)
    → 1 ≤ step
    → step ≤ size
    → pos 1 ≤ℤ n
    → n ≤ℤ pos size
    → (x_scrolled step size origin x n ≤ℤ x)
      × (x +ℤ n ≤ℤ x_scrolled step size origin x n +ℤ pos size)
unfolding x_scrolled
x_scrolled_lem step size origin x n h1 h2 h3 h4 =
    let o = first_column step size origin x in
    let (low, high) = first_column-Shows step size origin x h1 h2 in
    elim (ltb_ℤ-cases (o +ℤ pos size -ℤ pos 1) (x +ℤ n -ℤ pos 1)) [
      | inl (more, more_fact) ↦
          let shows : (o +ℤ (x +ℤ n -ℤ pos 1 -ℤ (o +ℤ pos size -ℤ pos 1)) ≤ℤ x)
              × (x +ℤ n ≤ℤ o +ℤ (x +ℤ n -ℤ pos 1 -ℤ (o +ℤ pos size -ℤ pos 1)) +ℤ pos size) =
            (omega (arith, +ℤ_parts, -ℤ_parts), omega (arith, +ℤ_parts, -ℤ_parts)) in
          rw more shows
      | inr (fits, fits_fact) ↦
          let shows : (o ≤ℤ x) × (x +ℤ n ≤ℤ o +ℤ pos size) =
            (omega (arith, +ℤ_parts, -ℤ_parts), omega (arith, +ℤ_parts, -ℤ_parts)) in
          rw fits shows
    ]

near_bounds :
    (step size : ℕ) (d : ℤ)
    → is_near step size d ≡ true
    → (pos 0 -ℤ pos step ≤ℤ d) × Below d (pos size +ℤ pos step)
near_bounds step size d h = (ground (arith, h), ground (arith, h))

-- A cursor that is within a step of the window, or is brought into it by `hike_lines`
pub y_scrolled-Shows :
    (step size : ℕ) (origin y hike : ℤ)
    → 1 ≤ step
    → step ≤ size
    → (is_near step size (y -ℤ origin) ≡ false → hike_lines size hike + 1 ≤ size)
    → Shows size (y_scrolled step size origin y hike) y
unfolding y_scrolled
y_scrolled-Shows step size origin y hike h1 h2 h3 =
    let d = y -ℤ origin in
    elim (Bool-cases (is_near step size d)) [
      | inl near ↦
          let (not_far_up, not_far_down) = near_bounds step size d near in
          elim (ltb_ℤ-cases d (pos 0)) [
            | inl (above, above_fact) ↦
                let shows : Shows size (origin -ℤ pos step) y =
                  (omega (arith, +ℤ_parts, -ℤ_parts), omega (arith, +ℤ_parts, -ℤ_parts)) in
                rw (near, above) shows
            | inr (not_above, not_above_fact) ↦ elim (leb_ℤ-cases (pos size) d) [
              | inl (below, below_fact) ↦
                  let shows : Shows size (origin +ℤ pos step) y =
                    (omega (arith, +ℤ_parts, -ℤ_parts), omega (arith, +ℤ_parts, -ℤ_parts)) in
                  rw (near, not_above, below) shows
              | inr (inside, inside_fact) ↦
                  let shows : Shows size origin y =
                    (omega (arith, +ℤ_parts, -ℤ_parts), omega (arith, +ℤ_parts, -ℤ_parts)) in
                  rw (near, not_above, inside) shows
            ]
          ]
      | inr far ↦
          let few = h3 far in
          let shows : Shows size (y -ℤ pos (hike_lines size hike)) y =
            (omega (arith, +ℤ_parts, -ℤ_parts), omega (arith, +ℤ_parts, -ℤ_parts)) in
          rw far shows
    ]

pub scroll_step_le :
    (switch size screen : ℕ)
    → 1 ≤ size
    → 1 ≤ screen
    → switch ≤ screen
    → scroll_step switch size screen ≤ size
scroll_step_le switch size screen h1 h2 h3 =
    let part : (switch * size) / screen ≤ size = grind arith in omega arith

pub hike_lines_le :
    (size : ℕ) (hike : ℤ) → 2 ≤ size → hike ≤ℤ pos 99 → hike_lines size hike + 1 ≤ size
hike_lines_le size hike h1 h2 = below size (pos_part hike) h1 (ground (arith, h2))
  where
    below : (s h : ℕ) → 2 ≤ s → h ≤ 99 → max 1 ((s * h) / 100) + 1 ≤ s
    below s h two few = grind arith
