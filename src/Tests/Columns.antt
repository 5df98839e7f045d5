-- ===== src/Tests/Columns.antt =====
-- Tabs and columns (fbuf_edit.cpp, ed_core.h) at concrete inputs.
use k_edit.Prelude.{[], ◌∷◌, length, ◌≡◌, refl, inl, take, drop, arith}
use k_edit.Tabs.{
  Text, htab, space, col_of_next_tab_stop, fill_count_to_next_tab_stop, col_at_tab_stop,
}
use k_edit.Tabs.Column.{free_idx_of_col, col_of_idx}
use k_edit.Tabs.Column.RoundTrip.{free_idx_of_col-col_of_idx}
use k_edit.Tabs.Column.Cache.{IdxColCached, new, IsValid}
use k_edit.Tabs.Expand.{format_expanded_seg}
use k_edit.Tabs.Expand.Segment.{detab, format_expanded_seg-spaces}
use k_edit.Tabs.Entab.{
  spcs2tabs_leading, spcs2tabs_all, spcs2tabs_outside_quotes, plain, outside, blank_step, is_blank,
  next_mode, skips_blanks,
}
use k_edit.Tabs.Entab.SameColumns.{detab-spcs2tabs}
use k_edit.Tabs.Entab.Quotes.{TabsOutside}

-- `a`, a tab, `b`
abbrev a_tab_b : Text
a_tab_b = b'a' ∷ htab ∷ b'b' ∷ []

-- Eight spaces and `x`
abbrev indented : Text
indented = space ∷ space ∷ space ∷ space ∷ space ∷ space ∷ space ∷ space ∷ b'x' ∷ []

-- A quoted text with two spaces, and blanks behind it
abbrev quoted_text : Text
quoted_text =
    b'"' ∷ space ∷ space ∷ b'"' ∷ space ∷ space ∷ space ∷ space ∷ space ∷ b'y' ∷ htab ∷ b'z' ∷ []

free_idx_of_col-col_of_idx_example : free_idx_of_col 8 a_tab_b (col_of_idx 8 a_tab_b 2) ≡ 2
free_idx_of_col-col_of_idx_example = free_idx_of_col-col_of_idx 8 a_tab_b 2 (omega arith)

abbrev cache : IdxColCached
cache = new 8 a_tab_b

cache-IsValid : IsValid cache
cache-IsValid = ((omega arith, refl), (omega arith, refl))

format_expanded_seg-spaces_example :
    format_expanded_seg 4 a_tab_b 6 8 space 0 ≡ take 4 (drop 6 (detab 8 0 a_tab_b))
format_expanded_seg-spaces_example =
    format_expanded_seg-spaces 4 a_tab_b 6 8 0 (omega arith) (inl refl)

detab-spcs2tabs_example :
    (detab 4 0 (spcs2tabs_leading 4 indented) ≡ detab 4 0 indented)
    × (detab 4 0 (spcs2tabs_all 4 indented) ≡ detab 4 0 indented)
detab-spcs2tabs_example = detab-spcs2tabs 4 indented (omega arith)

quoted_text-TabsOutside : TabsOutside plain quoted_text
unfolding next_mode skips_blanks
quoted_text-TabsOutside = (
  refl,
  (refl, (refl, (refl, (refl, (refl, (refl, (refl, (refl, (refl, (refl, (refl, tt))))))))))),
)

-- A tab in quotes counts as one column, so the five spaces behind it are compressed to a space and a
-- tab that ends two columns too early.
abbrev quoted_tab : Text
quoted_tab = b'"' ∷ htab ∷ b'"' ∷ space ∷ space ∷ space ∷ space ∷ space ∷ b'x' ∷ []

quoted_tab_run :
    spcs2tabs_outside_quotes 4 quoted_tab ≡ b'"' ∷ htab ∷ b'"' ∷ space ∷ htab ∷ b'x' ∷ []
unfolding spcs2tabs_outside_quotes outside blank_step is_blank next_mode skips_blanks
    col_at_tab_stop
quoted_tab_run = refl

quoted_tab_columns :
    (length (detab 4 0 quoted_tab) ≡ 11)
    × (length (detab 4 0 (b'"' ∷ htab ∷ b'"' ∷ space ∷ htab ∷ b'x' ∷ [])) ≡ 9)
unfolding col_of_next_tab_stop fill_count_to_next_tab_stop
quoted_tab_columns = (refl, refl)
