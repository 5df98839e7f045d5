-- ===== src/Tests/Splitting.antt =====
-- A window that is split, on concrete sizes (wnd.cpp).
use k_edit.Prelude.{true, false, [], ◌∷◌, some, none, ◌≡◌, refl}
use k_edit.Windows.{Win, split_cur_wnd}
use k_edit.Windows.Merges.{Rejoins, AlongSplit, split_cur_wnd-merged, split_cur_wnd-AlongSplit}

abbrev whole : Win
whole = record {
  lin = record { up_left = 0; size = 40; size_pct = 100 };
  col = record { up_left = 0; size = 120; size_pct = 100 };
}

abbrev upper : Win
upper = record whole { lin = record { up_left = 0; size = 31; size_pct = 80 } }

abbrev lower : Win
lower = record whole { lin = record { up_left = 32; size = 8; size_pct = 20 } }

-- A new window of less than the least height
split_low : split_cur_wnd false 30 (whole ∷ []) whole ≡ some (upper, lower)
unfolding split_cur_wnd
split_low = refl

split_too_low : split_cur_wnd false 31 (whole ∷ []) whole ≡ none
unfolding split_cur_wnd
split_too_low = refl

split_otherwise : split_cur_wnd true 60 (upper ∷ lower ∷ []) upper ≡ none
unfolding split_cur_wnd
split_otherwise = refl

split_cur_wnd-merged_example : Rejoins whole (upper, lower)
split_cur_wnd-merged_example =
    split_cur_wnd-merged false 30 (whole ∷ []) whole (upper, lower) split_low

split_cur_wnd-AlongSplit_example : AlongSplit false whole (upper, lower)
split_cur_wnd-AlongSplit_example =
    split_cur_wnd-AlongSplit false 30 (whole ∷ []) whole (upper, lower) split_low
