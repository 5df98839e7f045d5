-- ===== src/Tabs.antt =====
-- Class `Tabber` (fbuf_edit.cpp) and the two characters that its clients treat apart. Columns and
-- widths that the source keeps in an `int` and never makes negative are natural numbers; the one
-- result that can be negative, `ColOfPrevTabStop`, is an integer.
pub mod Column
pub mod Stops
pub mod Expand
pub mod Entab
use k_edit.Prelude.{ℕ, zero, suc, ◌+◌, ◌-◌, ◌%◌, ◌==◌, Bool, if◌then◌else◌, List, [], ◌∷◌}
use k_edit.Prelude.Int.{ℤ, pos, negsuc}

-- A line of text, byte by byte.
abbrev pub Text : Type 0
Text = List ℕ

abbrev pub htab : ℕ
htab = 9

abbrev pub space : ℕ
space = 32

unfoldable pub fill_count_to_next_tab_stop : ℕ → ℕ → ℕ
fill_count_to_next_tab_stop tw col = tw - col % tw

unfoldable pub col_of_next_tab_stop : ℕ → ℕ → ℕ
unfolding fill_count_to_next_tab_stop
col_of_next_tab_stop tw col = col + fill_count_to_next_tab_stop tw col

-- `col - (1 + ((col - 1) % d_tabWidth))`. At column 0 the dividend is -1, whose remainder in C++ is
-- 0 for the width 1 and -1 for any other.
unfoldable pub col_of_prev_tab_stop : ℕ → ℕ → ℤ
col_of_prev_tab_stop tw zero = if tw == 1 then negsuc 0 else pos 0
col_of_prev_tab_stop tw (suc c) = pos (suc c - (1 + c % tw))

unfoldable pub col_at_tab_stop : ℕ → ℕ → Bool
col_at_tab_stop tw col = col % tw == 0

-- The column behind a character that stands at column `col`.
abbrev pub next_col : ℕ → ℕ → ℕ → ℕ
next_col tw c col = if c == htab then col_of_next_tab_stop tw col else col + 1
