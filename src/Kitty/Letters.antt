-- ===== src/Kitty/Letters.antt =====
-- The codes of the letter and the digit keys with modifiers (kitty_conin.cpp).
use k_edit.Prelude.{
  ℕ, ◌+◌, ◌-◌, ◌≤◌, ◌<◌, ltb, leb, ◌==◌, ◌&&◌, ◌||◌, if◌then◌else◌, Bool, true, false, [], ◌∷◌,
  none, some, ◌≡◌, ◌⊎◌, refl, ap, ◌∙◌, inl, inr, arith,
}
use k_edit.Kitty.Codes.{edkc_a_0, edkc_a_a, edkc_c_0, edkc_c_a, edkc_cs_0, edkc_cs_a}
use k_edit.Kitty.Variants.{has_shift, has_alt, has_ctrl}
use k_edit.Kitty.Ascii.{
  Table, find_code, alt_table, in_range, map_ascii_alt, map_ascii_ctrl, map_ascii_ctrl_shift,
  map_ascii_from_csi,
}
use k_edit.Kitty.Keys.{Cases, csiu_cases, switch_code, is_modifier_key, map_csiu_key}

-- No key of the cases lies between the bounds.
abbrev apart_cases : ℕ → ℕ → Cases → Bool
apart_cases lo hi [] = true
apart_cases lo hi ((k, c) ∷ rest) = (ltb k lo || ltb hi k) && apart_cases lo hi rest

switch_code-apart :
    (lo hi key modbits : ℕ) (cs : Cases) (behind : ℕ)
    → apart_cases lo hi cs ≡ true
    → lo ≤ key
    → key ≤ hi
    → switch_code key modbits cs behind ≡ behind
unfolding switch_code
switch_code-apart lo hi key modbits [] behind apart ge le = refl
switch_code-apart lo hi key modbits ((k, c) ∷ rest) behind apart ge le =
    let other : (key == k) ≡ false = ground (arith, apart) in
    rw other (switch_code-apart lo hi key modbits rest behind (ground (arith, apart)) ge le)

abbrev apart_codes : ℕ → ℕ → Table → Bool
apart_codes lo hi [] = true
apart_codes lo hi ((k, c) ∷ rest) = (ltb k lo || ltb hi k) && apart_codes lo hi rest

find_code-apart :
    (lo hi ch : ℕ) (t : Table)
    → apart_codes lo hi t ≡ true
    → lo ≤ ch
    → ch ≤ hi
    → find_code ch t ≡ none
unfolding find_code
find_code-apart lo hi ch [] apart ge le = refl
find_code-apart lo hi ch ((k, c) ∷ rest) apart ge le =
    let other : (ch == k) ≡ false = ground (arith, apart) in
    rw other (find_code-apart lo hi ch rest (ground (arith, apart)) ge le)

-- The code by the modifiers that count: ctrl with shift, ctrl, alt, shift
abbrev pub by_modifiers : ℕ → ℕ → ℕ → ℕ → ℕ → ℕ → ℕ
by_modifiers modbits ctrl_shift ctrl alt shift plain =
    if has_ctrl modbits && has_shift modbits
    then ctrl_shift
    else if has_ctrl modbits
    then ctrl
    else if has_alt modbits
    then alt
    else if has_shift modbits
    then shift
    else plain

plain_key :
    (key modbits : ℕ)
    → 33 ≤ key
    → key ≤ 126
    → map_csiu_key key modbits ≡ some (map_ascii_from_csi key modbits)
unfolding map_csiu_key
plain_key key modbits ge le =
    let normal : is_modifier_key key ≡ false = ground (arith, ge, le) in
    let printable : (leb 32 key && leb key 126) ≡ true = ground (arith, ge, le) in
    rw (
      normal,
      switch_code-apart 33 126 key modbits csiu_cases
          (if leb 32 key && leb key 126 then map_ascii_from_csi key modbits else 0) refl ge le,
      printable,
    )

letter_codes :
    (c : ℕ)
    → b'a' ≤ c
    → c ≤ b'z'
    → (map_ascii_ctrl_shift c ≡ edkc_cs_a + (c - b'a'))
      × (map_ascii_ctrl c ≡ edkc_c_a + (c - b'a'))
      × (map_ascii_alt c ≡ edkc_a_a + (c - b'a'))
unfolding map_ascii_ctrl_shift map_ascii_ctrl map_ascii_alt
letter_codes c ge le =
    let no_digit : in_range b'0' c b'9' ≡ false = ground (arith, ge) in
    let letter : in_range b'a' c b'z' ≡ true = ground (arith, ge, le) in
    let none_found = find_code-apart b'a' b'z' c alt_table refl ge le in
    (rw (no_digit, letter), rw (no_digit, letter), rw (none_found, no_digit, letter))

digit_codes :
    (c : ℕ)
    → b'0' ≤ c
    → c ≤ b'9'
    → (map_ascii_ctrl_shift c ≡ edkc_cs_0 + (c - b'0'))
      × (map_ascii_ctrl c ≡ edkc_c_0 + (c - b'0'))
      × (map_ascii_alt c ≡ edkc_a_0 + (c - b'0'))
unfolding map_ascii_ctrl_shift map_ascii_ctrl map_ascii_alt
digit_codes c ge le =
    let digit : in_range b'0' c b'9' ≡ true = ground (arith, ge, le) in
    let none_found = find_code-apart b'0' b'9' c alt_table refl ge le in
    (rw digit, rw digit, rw (none_found, digit))

-- The code of a digit counted from `zero_code`, or of a letter counted from `a_code`
abbrev pub counted_from : ℕ → ℕ → ℕ → ℕ
counted_from zero_code a_code c = if leb c b'9' then zero_code + (c - b'0') else a_code + (c - b'a')

abbrev pub upper : ℕ → ℕ
upper c = if leb b'a' c then c - 32 else c

ascii_by_modifiers :
    (c modbits ctrl_shift ctrl alt : ℕ)
    → map_ascii_ctrl_shift c ≡ ctrl_shift
    → map_ascii_ctrl c ≡ ctrl
    → map_ascii_alt c ≡ alt
    → 0 < ctrl_shift
    → 0 < ctrl
    → 0 < alt
    → c ≤ b'z'
    → map_ascii_from_csi c modbits ≡ by_modifiers modbits ctrl_shift ctrl alt (upper c) c
unfolding map_ascii_from_csi
ascii_by_modifiers c modbits ctrl_shift ctrl alt cs ct al cs_pos ct_pos al_pos le =
    let not_cs : (ctrl_shift == 0) ≡ false = ground (arith, cs_pos) in
    let not_ct : (ctrl == 0) ≡ false = ground (arith, ct_pos) in
    let not_al : (alt == 0) ≡ false = ground (arith, al_pos) in
    rw (cs, ct, al, not_cs, not_ct, not_al)
      (split (has_shift modbits) (has_ctrl modbits) (has_alt modbits) c ctrl_shift ctrl alt le)
  where
    split :
        (s t a : Bool) (k x y z : ℕ)
        → k ≤ b'z'
        → (if t && s
            then x
            else if t
            then y
            else if a
            then z
            else if s && in_range b'a' k b'z'
            then k - 32
            else k)
          ≡ (if t && s then x else if t then y else if a then z else if s then upper k else k)
    split true true a k x y z h = refl
    split false true a k x y z h = refl
    split s false true k x y z h = ground (arith, h)
    split true false false k x y z h = ground (arith, h)
    split false false false k x y z h = refl

-- For the key of a lower-case letter or a digit, and any modifiers: the code is the one with ctrl and
-- shift, else with ctrl, else with alt, counted from that of the first letter or digit; else it is the
-- character, in upper case with shift.
pub map_csiu_key-by_modifiers :
    (c modbits : ℕ)
    → ((b'a' ≤ c) × (c ≤ b'z')) ⊎ ((b'0' ≤ c) × (c ≤ b'9'))
    → map_csiu_key c modbits
      ≡ some (
          by_modifiers modbits
            (counted_from edkc_cs_0 edkc_cs_a c)
            (counted_from edkc_c_0 edkc_c_a c)
            (counted_from edkc_a_0 edkc_a_a c)
            (upper c)
            c)
map_csiu_key-by_modifiers c modbits (inl (ge, le)) =
    let (cs, ct, al) = letter_codes c ge le in
    let letter : leb c b'9' ≡ false = ground (arith, ge) in
    plain_key c modbits (omega (arith, ge)) (omega (arith, le))
    ∙ ap some (
        rw letter (
          ascii_by_modifiers c modbits (edkc_cs_a + (c - b'a')) (edkc_c_a + (c - b'a'))
            (edkc_a_a + (c - b'a')) cs ct al (omega arith) (omega arith) (omega arith) le))
map_csiu_key-by_modifiers c modbits (inr (ge, le)) =
    let (cs, ct, al) = digit_codes c ge le in
    let digit : leb c b'9' ≡ true = ground (arith, le) in
    plain_key c modbits (omega (arith, ge)) (omega (arith, le))
    ∙ ap some (
        rw digit (
          ascii_by_modifiers c modbits (edkc_cs_0 + (c - b'0')) (edkc_c_0 + (c - b'0'))
            (edkc_a_0 + (c - b'0')) cs ct al (omega arith) (omega arith) (omega arith)
            (omega (arith, le))))
