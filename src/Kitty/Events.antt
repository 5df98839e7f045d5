-- ===== src/Kitty/Events.antt =====
-- Control sequences and events (kitty_conin.cpp). The input is what getch() gives, a list of bytes and
-- of numbers above them for keys of the library; where it ends, getch() gives ERR. An `int` of 32 bits
-- wraps around, as two's complement. The count of decoding errors is passed along.
use k_edit.Prelude.{
  ℕ, zero, suc, ◌+◌, ◌-◌, ◌*◌, ◌%◌, ◌^◌, ltb, leb, ◌==◌, ◌&&◌, ◌||◌, not, if◌then◌else◌, Bool, List,
  [], ◌∷◌, ◌++◌, Option, none, some,
}
use k_edit.Prelude.Int.{ℤ, pos, negsuc}
use k_edit.Tabs.{Text}
use k_edit.Kitty.Codes.{edkc_enter, edkc_tab, edkc_esc, edkc_c_4, edkc_c_a}
use k_edit.Kitty.Ascii.{map_7bit_alt_sequence}
use k_edit.Kitty.Keys.{map_csiu_key, map_csitilde_key, map_csi_letter}

abbrev pub is_digit : ℕ → Bool
is_digit c = leb b'0' c && leb c b'9'

-- The loop of split_params over the rest of the parameters; `piece` is the text from `start` on.
unfoldable pub split_from : Text → Text → List Text
split_from piece [] = piece ∷ []
split_from piece (c ∷ s) =
    let next = split_from [] s in
    let on = split_from (piece ++ c ∷ []) s in if c == b';' then piece ∷ next else on

unfoldable pub split_params : Text → List Text
unfolding split_from
split_params params = split_from [] params

abbrev pub get_token : ℕ → List Text → Text
get_token i [] = []
get_token zero (t ∷ ts) = t
get_token (suc i) (t ∷ ts) = get_token i ts

-- The loop of parse_int; the `int` is kept as its bits.
unfoldable pub int_loop : ℕ → Text → ℕ
int_loop value [] = value
int_loop value (c ∷ s) =
    let on = int_loop ((value * 10 + (c - b'0')) % 2 ^ 32) s in if is_digit c then on else value

-- The `int` with these bits
abbrev pub of_bits : ℕ → ℤ
of_bits v = if ltb v (2 ^ 31) then pos v else negsuc (2 ^ 32 - 1 - v)

abbrev minus : ℕ → ℤ
minus v = of_bits ((2 ^ 32 - v) % 2 ^ 32)

unfoldable pub parse_int : Text → ℤ → ℤ
unfolding int_loop
parse_int [] dflt = dflt
parse_int (c ∷ s) dflt =
    if c == b'-'
    then minus (int_loop 0 s)
    else if c == b'+'
    then of_bits (int_loop 0 s)
    else of_bits (int_loop 0 (c ∷ s))

-- The text in front of the first colon, if there is one
unfoldable pub before_colon : Text → Text
before_colon [] = []
before_colon (c ∷ s) = if c == b':' then [] else c ∷ before_colon s

-- The finals for which a missing parameter is 1
abbrev pub is_letter_final : ℕ → Bool
is_letter_final c = leb b'A' c && leb c b'F' || leb b'P' c && leb c b'S' || c == b'M' || c == b'H'

-- The modifiers less one, from the second parameter
abbrev pub modbits_of : List Text → ℕ
modbits_of [] = 0
modbits_of (t ∷ []) = 0
modbits_of (t ∷ t' ∷ ts) = elim (parse_int (before_colon t') (pos 1)) [
  | pos n ↦ n - 1
  | negsuc n ↦ 0
]

-- No form has a key with a negative number.
abbrev pub map_key : ℤ → ℕ → ℕ → Option ℕ
map_key code final modbits =
    if final == b'u'
    then elim code [ pos k ↦ map_csiu_key k modbits | negsuc _ ↦ some 0 ]
    else if final == b'~'
    then elim code [ pos k ↦ some (map_csitilde_key k modbits) | negsuc _ ↦ some 0 ]
    else some (map_csi_letter final modbits)

-- 0 is a decoding error.
abbrev pub checked : Option ℕ → ℕ → Option ℕ × ℕ
checked none errs = (none, errs)
checked (some rv) errs = if rv == 0 then (none, errs + 1) else (some rv, errs)

unfoldable pub map_csi_sequence : Text → ℕ → ℕ → Option ℕ × ℕ
unfolding split_params parse_int before_colon
map_csi_sequence params final errs =
    let tokens = split_params params in
    let dflt = if is_letter_final final then 1 else 0 in
    let code = parse_int (get_token 0 tokens) (pos dflt) in
    checked (map_key code final (modbits_of tokens)) errs

-- The bytes that KittyDecodeCSI collects, the final byte and the input behind it; `none` where the
-- input ends.
unfoldable pub collect : Text → Text → Option (Text × ℕ × Text)
collect collected [] = none
collect collected (ch ∷ s) =
    let on = collect (collected ++ (ch % 256) ∷ []) s in
    if leb 0x40 ch && leb ch 0x7e then some (collected, ch, s) else on

-- KittyDecodeCSI, with the input that is left and the count of errors
unfoldable pub kitty_decode_csi : Text → ℕ → Option ℕ × ℕ × Text
unfolding collect map_csi_sequence
kitty_decode_csi input errs = elim (collect [] input) [
  | none ↦ (none, errs, [])
  | some (params, final, rest) ↦
      let (rv, errs') = map_csi_sequence params final errs in (rv, errs', rest)
]

abbrev pub kitty_map_plain_char : ℕ → Option ℕ
kitty_map_plain_char ch =
    if ch == 13 || ch == 10
    then some edkc_enter
    else if ch == 9
    then some edkc_tab
    else if ch == 0
    then none
    else if leb 28 ch && leb ch 31
    then some (edkc_c_4 + (ch - 28))
    else if ltb ch 27
    then some (edkc_c_a + (ch - 1))
    else some ch

-- What KittyGetEvent returns: -1, kKittyEventResize, or a code
pub data Event : Type 0 where
  nothing resize : Event
  code : ℕ → Event

abbrev pub event_of : Option ℕ → Event
event_of none = nothing
event_of (some c) = code c

abbrev pub decoded : Option ℕ × ℕ × Text → Event × ℕ × Text
decoded (rv, errs, rest) = (event_of rv, errs, rest)

-- The byte behind an escape character
abbrev pub escaped : Text → ℕ → Event × ℕ × Text
escaped [] errs = (code edkc_esc, errs, [])
escaped (next ∷ s) errs =
    let alt = map_7bit_alt_sequence next in
    if next == b'['
    then decoded (kitty_decode_csi s errs)
    else if next == 0x1b
    then (code edkc_esc, errs, s)
    else if not (alt == 0)
    then (code alt, errs, s)
    else (event_of (kitty_map_plain_char next), errs, s)

-- KittyGetEvent; `key_resize` is the library's KEY_RESIZE.
unfoldable pub kitty_get_event : ℕ → Text → ℕ → Event × ℕ × Text
unfolding kitty_decode_csi map_7bit_alt_sequence
kitty_get_event key_resize [] errs = (nothing, errs, [])
kitty_get_event key_resize (ch ∷ s) errs =
    if ch == key_resize
    then (resize, errs, s)
    else if ch == 0x9b
    then decoded (kitty_decode_csi s errs)
    else if ch == 0x1b
    then escaped s errs
    else (event_of (kitty_map_plain_char ch), errs, s)
