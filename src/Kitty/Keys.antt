-- ===== src/Kitty/Keys.antt =====
-- The keys of the three forms of a control sequence, and their codes (kitty_conin.cpp).
use k_edit.Prelude.{
  ℕ, leb, ◌==◌, ◌&&◌, ◌||◌, if◌then◌else◌, Bool, List, [], ◌∷◌, Option, none, some,
}
use k_edit.Kitty.Variants.{
  KittyVariants, apply_variants, arrow_down_variants, arrow_left_variants, arrow_right_variants,
  arrow_up_variants, bksp_variants, center_variants, delete_variants, end_variants, enter_variants,
  esc_variants, fkey_variants, home_variants, insert_variants, kp_enter_variants, kp_minus_variants,
  kp_plus_variants, kp_slash_variants, kp_star_variants, num_variants, pgdn_variants, pgup_variants,
  space_variants, tab_variants,
}
use k_edit.Kitty.Ascii.{map_ascii_from_csi}

-- What a case of a `switch` on the key gives, at the modifiers
pub data Case : Type 0 where
  by_variants : KittyVariants → Case
  by_ascii : ℕ → Case

abbrev pub Cases : Type 0
Cases = List (ℕ × Case)

abbrev pub case_code : ℕ → Case → ℕ
case_code modbits (by_variants v) = apply_variants v modbits
case_code modbits (by_ascii ch) = map_ascii_from_csi ch modbits

-- The `switch`, with what stands behind it
unfoldable pub switch_code : ℕ → ℕ → Cases → ℕ → ℕ
switch_code key modbits [] behind = behind
switch_code key modbits ((k, c) ∷ rest) behind =
    if key == k then case_code modbits c else switch_code key modbits rest behind

abbrev pub csiu_cases : Cases
csiu_cases =
    (27, by_variants esc_variants)
    ∷ (13, by_variants enter_variants)
    ∷ (9, by_variants tab_variants)
    ∷ (127, by_variants bksp_variants)
    ∷ (32, by_variants space_variants)
    ∷ (57399, by_variants (num_variants 0))
    ∷ (57400, by_variants (num_variants 1))
    ∷ (57401, by_variants (num_variants 2))
    ∷ (57402, by_variants (num_variants 3))
    ∷ (57403, by_variants (num_variants 4))
    ∷ (57404, by_variants (num_variants 5))
    ∷ (57405, by_variants (num_variants 6))
    ∷ (57406, by_variants (num_variants 7))
    ∷ (57407, by_variants (num_variants 8))
    ∷ (57408, by_variants (num_variants 9))
    ∷ (57409, by_ascii b'.')
    ∷ (57410, by_variants kp_slash_variants)
    ∷ (57411, by_variants kp_star_variants)
    ∷ (57412, by_variants kp_minus_variants)
    ∷ (57413, by_variants kp_plus_variants)
    ∷ (57414, by_variants kp_enter_variants)
    ∷ (57415, by_ascii b'=')
    ∷ (57416, by_ascii b',')
    ∷ (57417, by_variants arrow_left_variants)
    ∷ (57418, by_variants arrow_right_variants)
    ∷ (57419, by_variants arrow_up_variants)
    ∷ (57420, by_variants arrow_down_variants)
    ∷ (57425, by_variants insert_variants)
    ∷ (57426, by_variants delete_variants)
    ∷ (57421, by_variants pgup_variants)
    ∷ (57422, by_variants pgdn_variants)
    ∷ (57423, by_variants home_variants)
    ∷ (57424, by_variants end_variants)
    ∷ (57427, by_variants center_variants)
    ∷ []

abbrev pub csitilde_cases : Cases
csitilde_cases =
    (2, by_variants insert_variants)
    ∷ (3, by_variants delete_variants)
    ∷ (5, by_variants pgup_variants)
    ∷ (6, by_variants pgdn_variants)
    ∷ (7, by_variants home_variants)
    ∷ (8, by_variants end_variants)
    ∷ (11, by_variants (fkey_variants 1))
    ∷ (12, by_variants (fkey_variants 2))
    ∷ (13, by_variants (fkey_variants 3))
    ∷ (14, by_variants (fkey_variants 4))
    ∷ (15, by_variants (fkey_variants 5))
    ∷ (17, by_variants (fkey_variants 6))
    ∷ (18, by_variants (fkey_variants 7))
    ∷ (19, by_variants (fkey_variants 8))
    ∷ (20, by_variants (fkey_variants 9))
    ∷ (21, by_variants (fkey_variants 10))
    ∷ (23, by_variants (fkey_variants 11))
    ∷ (24, by_variants (fkey_variants 12))
    ∷ (57427, by_variants center_variants)
    ∷ []

abbrev pub letter_cases : Cases
letter_cases =
    (b'A', by_variants arrow_up_variants)
    ∷ (b'B', by_variants arrow_down_variants)
    ∷ (b'C', by_variants arrow_right_variants)
    ∷ (b'D', by_variants arrow_left_variants)
    ∷ (b'F', by_variants end_variants)
    ∷ (b'H', by_variants home_variants)
    ∷ (b'M', by_variants enter_variants)
    ∷ (b'P', by_variants (fkey_variants 1))
    ∷ (b'Q', by_variants (fkey_variants 2))
    ∷ (b'R', by_variants (fkey_variants 3))
    ∷ (b'S', by_variants (fkey_variants 4))
    ∷ (b'E', by_variants center_variants)
    ∷ []

-- The keys of the modifiers and the locks
abbrev pub is_modifier_key : ℕ → Bool
is_modifier_key key =
    leb 57441 key && leb key 57446
    || leb 57447 key && leb key 57452
    || leb 57358 key && leb key 57360

-- `none` is -1, no event.
unfoldable pub map_csiu_key : ℕ → ℕ → Option ℕ
unfolding switch_code apply_variants map_ascii_from_csi
map_csiu_key key modbits =
    if is_modifier_key key
    then none
    else some (
        switch_code key modbits csiu_cases
          (if leb 32 key && leb key 126 then map_ascii_from_csi key modbits else 0))

unfoldable pub map_csitilde_key : ℕ → ℕ → ℕ
unfolding switch_code apply_variants map_ascii_from_csi
map_csitilde_key key modbits = switch_code key modbits csitilde_cases 0

-- map_csi_letter, which does not read the parameter
unfoldable pub map_csi_letter : ℕ → ℕ → ℕ
unfolding switch_code apply_variants map_ascii_from_csi
map_csi_letter final modbits = switch_code final modbits letter_cases 0
