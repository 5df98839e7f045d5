-- ===== src/Tabs/Entab.antt =====
-- `spcs2tabs_leading`, `spcs2tabs_all` and `spcs2tabs_outside_quotes` (fbuf_edit.cpp). Each returns what
-- it sends to the back inserter. The inner loops are part of the state: `x` is the column and `n` the
-- number of spaces that are read and not written yet.
pub mod Blanks
pub mod SameColumns
pub mod Quotes
use k_edit.Prelude.{
  ℕ, zero, suc, ◌+◌, ◌-◌, ◌==◌, ◌&&◌, ◌||◌, not, if◌then◌else◌, Bool, true, false, List, [], ◌∷◌,
  ◌++◌, replicate,
}
use k_edit.Tabs.{Text, htab, space, col_of_next_tab_stop, col_at_tab_stop}

unfoldable pub is_blank : ℕ → Bool
is_blank c = c == space || c == htab

-- The body of the loops over blanks: what is written, the new column, the new pending count.
pub record Pending : Type 0 where
  pub out : Text
  pub col : ℕ
  pub n : ℕ

unfoldable pub blank_step : ℕ → ℕ → ℕ → ℕ → Pending
blank_step tw c col n =
    if c == htab
    then record { out = htab ∷ []; col = col_of_next_tab_stop tw col; n = 0 }
    else if col_at_tab_stop tw (col + 1)
    then record { out = (if n + 1 == 1 then space else htab) ∷ []; col = col + 1; n = 0 }
    else record { out = []; col = col + 1; n = n + 1 }

-- After the leading blanks everything is copied.
pub leading : ℕ → Text → ℕ → ℕ → Text
unfolding is_blank blank_step
leading tw [] col n = replicate n space
leading tw (c ∷ src) col n =
    let p = blank_step tw c col n in
    let rest = leading tw src p.col p.n in
    if is_blank c then p.out ++ rest else replicate n space ++ c ∷ src

pub spcs2tabs_leading : ℕ → Text → Text
unfolding leading
spcs2tabs_leading tw src = leading tw src 0 0

pub all : ℕ → Text → ℕ → ℕ → Text
unfolding is_blank blank_step
all tw [] col n = replicate n space
all tw (c ∷ src) col n =
    let p = blank_step tw c col n in
    let blank = p.out ++ all tw src p.col p.n in
    let other = replicate n space ++ c ∷ all tw src (col + 1) 0 in
    if is_blank c then blank else other

pub spcs2tabs_all : ℕ → Text → Text
unfolding all
spcs2tabs_all tw src = all tw src 0 0

-- The switches of `spcs2tabs_outside_quotes`: outside quotes, outside quotes behind an escape, in a
-- region quoted by a character, and there behind an escape.
pub data Mode : Type 0 where
  plain : Mode
  plain_escaped : Mode
  quoted : ℕ → Mode
  quoted_escaped : ℕ → Mode

-- The switches after a character that is copied. The label `chQuot1` stands before a `break`, so a
-- single quote opens no region.
unfoldable pub next_mode : Mode → ℕ → Mode
next_mode plain c = if c == b'"' then quoted c else if c == b'\\' then plain_escaped else plain
next_mode plain_escaped c = plain
next_mode (quoted q) c = if c == q then plain else if c == b'\\' then quoted_escaped q else quoted q
next_mode (quoted_escaped q) c = quoted q

unfoldable pub skips_blanks : Mode → Bool
skips_blanks plain = true
skips_blanks _ = false

unfoldable pub outside : ℕ → Text → Mode → ℕ → ℕ → Text
unfolding is_blank blank_step next_mode skips_blanks
outside tw [] m col n = replicate n space
outside tw (c ∷ src) m col n =
    let p = blank_step tw c col n in
    let blank = p.out ++ outside tw src m p.col p.n in
    let other = replicate n space ++ c ∷ outside tw src (next_mode m c) (col + 1) 0 in
    if skips_blanks m && is_blank c then blank else other

unfoldable pub spcs2tabs_outside_quotes : ℕ → Text → Text
unfolding outside
spcs2tabs_outside_quotes tw src = outside tw src plain 0 0
