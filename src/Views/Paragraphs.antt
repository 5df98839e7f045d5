-- ===== src/Views/Paragraphs.antt =====
-- The commands ppara and mpara, which move the cursor by paragraphs (cursor.cpp).
use k_edit.Prelude.{
  ℕ, zero, suc, ◌+◌, ◌-◌, ◌≤◌, ◌<◌, Bool, true, false, Bool-cases, not, ◌&&◌, ltb, if◌then◌else◌,
  ◌≡◌, ◌⊎◌, refl, sym, ap, ◌∙◌, subst, inl, inr, arith,
}
use k_edit.Prelude.Int.{pos, pos_part, ◌+ℤ◌, ◌≤ℤ◌}
use k_edit.Buffer.{Fbuf}
use k_edit.Views.{leb_ℤ, max_ℤ, View, col_max, differ, move_cursor_}
use k_edit.Views.Windows.{IsUsable, InWindow}
use k_edit.Views.Moves.{one_column_fits, move_cursor_-at}
use k_edit.Views.Commands.{is_line_blank}

-- LineFollowsPara, FirstLineOfPara and LastLineOfPara, of a line that is not the first
abbrev pub line_follows_para : Fbuf → ℕ → Bool
line_follows_para f y = not (is_line_blank f (y - 1)) && is_line_blank f y

abbrev pub first_line_of_para : Fbuf → ℕ → Bool
first_line_of_para f y = is_line_blank f (y - 1) && not (is_line_blank f y)

abbrev pub last_line_of_para : Fbuf → ℕ → Bool
last_line_of_para f y = is_line_blank f (y + 1) && not (is_line_blank f y)

-- The tests of the two loops
abbrev pub ppara_stops : Fbuf → Bool → ℕ → Bool
ppara_stops f meta y = if meta then last_line_of_para f y else first_line_of_para f y

abbrev pub mpara_stops : Fbuf → Bool → ℕ → Bool
mpara_stops f meta y = if meta then line_follows_para f y else first_line_of_para f y

-- The loop of ppara over the `n` lines from `y` on
pub next_stop : (ℕ → Bool) → ℕ → ℕ → ℕ
next_stop stops zero y = y
next_stop stops (suc n) y = let rest = next_stop stops n (y + 1) in if stops y then y else rest

-- The loop of mpara from `y` down
pub prev_stop : (ℕ → Bool) → ℕ → ℕ
prev_stop stops zero = 0
prev_stop stops (suc y) = let rest = prev_stop stops y in if stops (suc y) then suc y else rest

abbrev to_line : Fbuf → ℕ → View → Bool × View
to_line f y v =
    let u = move_cursor_ f (pos y) v.current.cursor_col (pos 1) false v in
    (differ u.current.cursor_lin v.current.cursor_lin, u)

-- `args` is Get_g_ArgCount.
unfoldable pub ppara : Fbuf → Bool → ℕ → View → Bool × View
unfolding next_stop
ppara f meta args v =
    let y = v.current.cursor_lin in
    let from = pos_part y + 1 in
    let m = if ltb 0 args then not meta else meta in
    if leb_ℤ (pos f.line_count) y
    then (false, v)
    else to_line f (next_stop (ppara_stops f m) (f.line_count - from) from) v

unfoldable pub mpara : Fbuf → Bool → View → Bool × View
unfolding prev_stop
mpara f meta v =
    let y = v.current.cursor_lin in
    if differ y (pos 0)
    then to_line f (prev_stop (mpara_stops f meta) (pos_part y - 1)) v
    else (false, v)

-- The first line from `y` on, of `n`, that passes the test, or else the line behind them
next_stop-first :
    (stops : ℕ → Bool) (n y : ℕ)
    → (y ≤ next_stop stops n y)
      × (next_stop stops n y ≤ y + n)
      × ((next_stop stops n y ≡ y + n) ⊎ (stops (next_stop stops n y) ≡ true))
      × ((k : ℕ) → y ≤ k → k < next_stop stops n y → stops k ≡ false)
unfolding next_stop
next_stop-first stops zero y =
    (omega arith, omega arith, inl (omega arith), λ k h1 h2. absurd (omega arith))
next_stop-first stops (suc n) y =
    let (low, high, at, before) = next_stop-first stops n (y + 1) in
    elim (Bool-cases (stops y)) [
      | inl here ↦ rw here (omega arith, omega arith, inr here, λ k h1 h2. absurd (omega arith))
      | inr not_here ↦ rw not_here (
        omega arith,
        omega arith,
        elim at [ inl end ↦ inl (omega arith) | inr stop ↦ inr stop ],
        λ k h1 h2.
            let split : (k ≡ y) ⊎ (y + 1 ≤ k) = omega arith in
            elim split [ inl same ↦ ap stops same ∙ not_here | inr later ↦ before k later h2 ],
      )
    ]

-- The last line from `y` up to line 1 that passes the test, or else line 0
prev_stop-last :
    (stops : ℕ → Bool) (y : ℕ)
    → (prev_stop stops y ≤ y)
      × ((prev_stop stops y ≡ 0) ⊎ (stops (prev_stop stops y) ≡ true))
      × ((k : ℕ) → prev_stop stops y < k → k ≤ y → stops k ≡ false)
unfolding prev_stop
prev_stop-last stops zero = (omega arith, inl refl, λ k h1 h2. absurd (omega arith))
prev_stop-last stops (suc y) =
    let (high, at, behind) = prev_stop-last stops y in
    elim (Bool-cases (stops (suc y))) [
      | inl here ↦ rw here (omega arith, inr here, λ k h1 h2. absurd (omega arith))
      | inr not_here ↦ rw not_here (
        omega arith,
        at,
        λ k h1 h2.
            let split : (k ≡ suc y) ⊎ (k ≤ y) = omega arith in
            elim split [ inl same ↦ ap stops same ∙ not_here | inr earlier ↦ behind k h1 earlier ],
      )
    ]

to_line_lem :
    (f : Fbuf) (y : ℕ) (v : View)
    → IsUsable v.window
    → v.current.cursor_col +ℤ pos 1 ≤ℤ pos col_max
    → y ≤ f.line_count
    → ((to_line f y v).1.current.cursor_lin ≡ pos y) × InWindow f v.window (to_line f y v).1.current
to_line_lem f y v ok fits h =
    let same : max_ℤ (pos 0) (pos y) ≡ pos y = ground arith in
    let reach : pos y ≤ℤ pos f.line_count = omega arith in
    let fit = one_column_fits f v.window (pos y) v.current.cursor_col ok fits in
    let (lin, col, shown, within) =
      move_cursor_-at f (pos y) v.current.cursor_col (pos 1) false v ok reach fit in
    (lin ∙ same, within)

-- The flag of ppara that is left when arg was given `args` times
abbrev pub flipped : Bool → ℕ → Bool
flipped meta args = if ltb 0 args then not meta else meta

-- For a usable window and a cursor in a line of the buffer and a column in front of COL_MAX: ppara
-- returns true and puts the cursor in the first line behind it that starts a paragraph (that ends one,
-- if exactly one of meta and arg is given), or behind the last line of the buffer if there is none; the
-- window shows it.
pub ppara-first_stop :
    (f : Fbuf) (meta : Bool) (args y : ℕ) (v : View)
    → IsUsable v.window
    → v.current.cursor_lin ≡ pos y
    → y < f.line_count
    → v.current.cursor_col +ℤ pos 1 ≤ℤ pos col_max
    → ((ppara f meta args v).0 ≡ true)
      × InWindow f v.window (ppara f meta args v).1.current
      × ((z : ℕ) × ((ppara f meta args v).1.current.cursor_lin ≡ pos z)
          × (y < z)
          × (z ≤ f.line_count)
          × ((z ≡ f.line_count) ⊎ (ppara_stops f (flipped meta args) z ≡ true))
          × ((k : ℕ) → y < k → k < z → ppara_stops f (flipped meta args) k ≡ false))
unfolding ppara
ppara-first_stop f meta args y v ok at inside fits =
    let stops = ppara_stops f (flipped meta args) in
    let n = f.line_count - (y + 1) in
    let z = next_stop stops n (y + 1) in
    let (low, high, end, before) = next_stop-first stops n (y + 1) in
    let guard : leb_ℤ (pos f.line_count) (pos y) ≡ false = ground arith in
    let reach : z ≤ f.line_count = omega arith in
    let (lin, within) = to_line_lem f z v ok fits reach in
    let run : ppara f meta args v ≡ to_line f z v = rw (at, guard) refl in
    let went : differ (to_line f z v).1.current.cursor_lin v.current.cursor_lin ≡ true =
      rw (lin, at) (ground arith) in
    let stopped : (z ≡ f.line_count) ⊎ (stops z ≡ true) = elim end [
      | inl behind ↦ inl (omega arith)
      | inr stop ↦ inr stop
    ] in
    (
      ap (λ r. r.0) run ∙ went,
      subst (λ r. InWindow f v.window r.1.current) (sym run) within,
      (
        z,
        ap (λ r. r.1.current.cursor_lin) run ∙ lin,
        omega arith,
        reach,
        stopped,
        λ k h1 h2. before k (omega arith) h2,
      ),
    )

-- For a usable window and a cursor in a line of the buffer that is not the first and a column in front
-- of COL_MAX: mpara returns true and puts the cursor in the last line above it, behind line 0, that
-- starts a paragraph (with meta, that is the first blank one behind a paragraph), or in line 0 if
-- there is none; the window shows it.
pub mpara-last_stop :
    (f : Fbuf) (meta : Bool) (y : ℕ) (v : View)
    → IsUsable v.window
    → v.current.cursor_lin ≡ pos (suc y)
    → y < f.line_count
    → v.current.cursor_col +ℤ pos 1 ≤ℤ pos col_max
    → ((mpara f meta v).0 ≡ true)
      × InWindow f v.window (mpara f meta v).1.current
      × ((z : ℕ) × ((mpara f meta v).1.current.cursor_lin ≡ pos z)
          × (z ≤ y)
          × ((z ≡ 0) ⊎ (mpara_stops f meta z ≡ true))
          × ((k : ℕ) → z < k → k ≤ y → mpara_stops f meta k ≡ false))
unfolding mpara
mpara-last_stop f meta y v ok at inside fits =
    let stops = mpara_stops f meta in
    let e : suc y - 1 ≡ y = omega arith in
    let z = prev_stop stops y in
    let (high, end, behind) = prev_stop-last stops y in
    let guard : differ (pos (suc y)) (pos 0) ≡ true = ground arith in
    let reach : z ≤ f.line_count = omega arith in
    let (lin, within) = to_line_lem f z v ok fits reach in
    let run : mpara f meta v ≡ to_line f z v = rw (at, guard, e) refl in
    let went : differ (to_line f z v).1.current.cursor_lin v.current.cursor_lin ≡ true =
      rw (lin, at) (ground arith) in
    (
      ap (λ r. r.0) run ∙ went,
      subst (λ r. InWindow f v.window r.1.current) (sym run) within,
      (z, ap (λ r. r.1.current.cursor_lin) run ∙ lin, high, end, behind),
    )
