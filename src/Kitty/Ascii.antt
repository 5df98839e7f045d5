-- ===== src/Kitty/Ascii.antt =====
-- The maps from an ASCII character with modifiers to a code (kitty_conin.cpp).
use k_edit.Prelude.{
  ℕ, ◌+◌, ◌-◌, leb, ◌==◌, ◌&&◌, if◌then◌else◌, Bool, List, [], ◌∷◌, Option, none, some,
}
use k_edit.Kitty.Codes.{
  edkc_a_0, edkc_a_a, edkc_a_backslash, edkc_a_backtick, edkc_a_bksp, edkc_a_comma, edkc_a_dot,
  edkc_a_enter, edkc_a_equal, edkc_a_left_sq, edkc_a_minus, edkc_a_right_sq, edkc_a_semicolon,
  edkc_a_slash, edkc_a_space, edkc_a_tab, edkc_a_tick, edkc_c_0, edkc_c_a, edkc_c_backslash,
  edkc_c_dot, edkc_c_enter, edkc_c_equal, edkc_c_left_sq, edkc_c_minus, edkc_c_right_sq,
  edkc_c_semicolon, edkc_c_slash, edkc_c_space, edkc_c_tab, edkc_cs_0, edkc_cs_a, edkc_cs_backslash,
  edkc_cs_backtick, edkc_cs_comma, edkc_cs_dot, edkc_cs_enter, edkc_cs_equal, edkc_cs_left_sq,
  edkc_cs_minus, edkc_cs_right_sq, edkc_cs_semicolon, edkc_cs_slash, edkc_cs_space, edkc_cs_tab,
  edkc_cs_tick,
}
use k_edit.Kitty.Variants.{has_shift, has_alt, has_ctrl}

abbrev pub Table : Type 0
Table = List (ℕ × ℕ)

-- A `switch` on the cases of a table
unfoldable pub find_code : ℕ → Table → Option ℕ
find_code ch [] = none
find_code ch ((c, code) ∷ rest) = if ch == c then some code else find_code ch rest

abbrev pub in_range : ℕ → ℕ → ℕ → Bool
in_range lo ch hi = leb lo ch && leb ch hi

-- The three `if`s on digits and letters
abbrev pub digits_and_letters : ℕ → ℕ → ℕ → ℕ → ℕ
digits_and_letters zero_code a_code ch otherwise =
    if in_range b'0' ch b'9'
    then zero_code + (ch - b'0')
    else if in_range b'a' ch b'z'
    then a_code + (ch - b'a')
    else if in_range b'A' ch b'Z'
    then a_code + (ch - b'A')
    else otherwise

abbrev pub or_else : Option ℕ → ℕ → ℕ
or_else none d = d
or_else (some x) d = x

abbrev pub alt_table : Table
alt_table =
    (127, edkc_a_bksp)
    ∷ (13, edkc_a_enter)
    ∷ (10, edkc_a_enter)
    ∷ (9, edkc_a_tab)
    ∷ (b'\\', edkc_a_backslash)
    ∷ (b',', edkc_a_comma)
    ∷ (b'-', edkc_a_minus)
    ∷ (b'.', edkc_a_dot)
    ∷ (b'/', edkc_a_slash)
    ∷ (b';', edkc_a_semicolon)
    ∷ (b'=', edkc_a_equal)
    ∷ (b'[', edkc_a_left_sq)
    ∷ (b']', edkc_a_right_sq)
    ∷ (b'`', edkc_a_backtick)
    ∷ (39, edkc_a_tick)
    ∷ (b' ', edkc_a_space)
    ∷ []

abbrev pub ctrl_table : Table
ctrl_table =
    (b' ', edkc_c_space)
    ∷ (9, edkc_c_tab)
    ∷ (13, edkc_c_enter)
    ∷ (10, edkc_c_enter)
    ∷ (b'[', edkc_c_left_sq)
    ∷ (b']', edkc_c_right_sq)
    ∷ (b'\\', edkc_c_backslash)
    ∷ (b';', edkc_c_semicolon)
    ∷ (b'=', edkc_c_equal)
    ∷ (b'-', edkc_c_minus)
    ∷ (b'.', edkc_c_dot)
    ∷ (b'/', edkc_c_slash)
    ∷ []

abbrev pub ctrl_shift_table : Table
ctrl_shift_table =
    (b' ', edkc_cs_space)
    ∷ (9, edkc_cs_tab)
    ∷ (13, edkc_cs_enter)
    ∷ (10, edkc_cs_enter)
    ∷ (b'-', edkc_cs_minus)
    ∷ (b'=', edkc_cs_equal)
    ∷ (b'[', edkc_cs_left_sq)
    ∷ (b']', edkc_cs_right_sq)
    ∷ (b'\\', edkc_cs_backslash)
    ∷ (b';', edkc_cs_semicolon)
    ∷ (b',', edkc_cs_comma)
    ∷ (b'.', edkc_cs_dot)
    ∷ (b'/', edkc_cs_slash)
    ∷ (b'`', edkc_cs_backtick)
    ∷ (39, edkc_cs_tick)
    ∷ []

abbrev pub alt_7bit_table : Table
alt_7bit_table =
    (127, edkc_a_bksp)
    ∷ (10, edkc_a_enter)
    ∷ (9, edkc_a_tab)
    ∷ (39, edkc_a_tick)
    ∷ (b'\\', edkc_a_backslash)
    ∷ (b',', edkc_a_comma)
    ∷ (b'-', edkc_a_minus)
    ∷ (b'.', edkc_a_dot)
    ∷ (b'/', edkc_a_slash)
    ∷ (b';', edkc_a_semicolon)
    ∷ (b'=', edkc_a_equal)
    ∷ (b'[', edkc_a_left_sq)
    ∷ (b']', edkc_a_right_sq)
    ∷ (b'`', edkc_a_backtick)
    ∷ []

unfoldable pub map_ascii_alt : ℕ → ℕ
unfolding find_code
map_ascii_alt ch = or_else (find_code ch alt_table) (digits_and_letters edkc_a_0 edkc_a_a ch 0)

unfoldable pub map_ascii_ctrl : ℕ → ℕ
unfolding find_code
map_ascii_ctrl ch = digits_and_letters edkc_c_0 edkc_c_a ch (or_else (find_code ch ctrl_table) 0)

unfoldable pub map_ascii_ctrl_shift : ℕ → ℕ
unfolding find_code
map_ascii_ctrl_shift ch =
    digits_and_letters edkc_cs_0 edkc_cs_a ch (or_else (find_code ch ctrl_shift_table) 0)

-- The case '\r' of the source ends in a `break`, so 13 is not in the table.
unfoldable pub map_7bit_alt_sequence : ℕ → ℕ
unfolding find_code
map_7bit_alt_sequence ch =
    or_else (find_code ch alt_7bit_table) (digits_and_letters edkc_a_0 edkc_a_a ch 0)

-- `v`, unless it is 0
abbrev pub nonzero_or : Bool → ℕ → ℕ → ℕ
nonzero_or test v otherwise = if test then (if v == 0 then otherwise else v) else otherwise

unfoldable pub map_ascii_from_csi : ℕ → ℕ → ℕ
unfolding map_ascii_ctrl_shift map_ascii_ctrl map_ascii_alt
map_ascii_from_csi ch modbits =
    let shift = has_shift modbits in
    let ctrl = has_ctrl modbits in
    nonzero_or (ctrl && shift) (map_ascii_ctrl_shift ch) (
      nonzero_or ctrl (map_ascii_ctrl ch) (
        nonzero_or (has_alt modbits) (map_ascii_alt ch)
          (if shift && in_range b'a' ch b'z' then ch - 32 else ch)))
