-- ===== src/Kitty/Bounds.antt =====
-- The range of the codes that kitty_conin.cpp gives.
use k_edit.Prelude.{
  ℕ, ◌+◌, ◌-◌, ◌<◌, ltb, leb, ◌==◌, ◌&&◌, ◌||◌, not, if◌then◌else◌, Bool, true, false, Bool-cases,
  Option-cases, [], ◌∷◌, Option, none, some, ◌≡◌, refl, inl, inr, arith,
}
use k_edit.Prelude.Int.{ℤ, pos, negsuc}
use k_edit.Tabs.{Text}
use k_edit.Kitty.Codes.{edkc_count, edkc_enter, edkc_tab, edkc_c_4, edkc_c_a}
use k_edit.Kitty.Ascii.{map_ascii_from_csi, map_7bit_alt_sequence}
use k_edit.Kitty.Keys.{
  csiu_cases, csitilde_cases, letter_cases, is_modifier_key, map_csiu_key, map_csitilde_key,
  map_csi_letter,
}
use k_edit.Kitty.Events.{
  parse_int, modbits_of, get_token, is_letter_final, split_params, map_key, checked,
  map_csi_sequence, collect, kitty_decode_csi, kitty_map_plain_char, Event, nothing, resize, code,
  event_of, decoded, escaped, kitty_get_event,
}
use k_edit.Kitty.Ranges.{map_ascii_from_csi-lt, map_7bit_alt_sequence-lt, switch_code-lt}

-- No event, or a code in range
abbrev OptionLt : Option ℕ → Type 0
OptionLt none = Unit
OptionLt (some c) = c < edkc_count

map_csiu_key-lt : (key m : ℕ) → OptionLt (map_csiu_key key m)
unfolding map_csiu_key
map_csiu_key-lt key m = elim (Bool-cases (is_modifier_key key)) [
  | inl modifier ↦ rw modifier tt
  | inr normal ↦
      let behind : (if leb 32 key && leb key 126 then map_ascii_from_csi key m else 0)
          < edkc_count =
        elim (Bool-cases (leb 32 key && leb key 126)) [
          | inl printable ↦ rw printable (map_ascii_from_csi-lt key m (ground (arith, printable)))
          | inr other ↦ rw other (omega arith)
        ] in
      rw normal (switch_code-lt key m csiu_cases _ (omega arith) behind)
]

map_csitilde_key-lt : (key m : ℕ) → map_csitilde_key key m < edkc_count
unfolding map_csitilde_key
map_csitilde_key-lt key m = switch_code-lt key m csitilde_cases 0 (omega arith) (omega arith)

map_csi_letter-lt : (final m : ℕ) → map_csi_letter final m < edkc_count
unfolding map_csi_letter
map_csi_letter-lt final m = switch_code-lt final m letter_cases 0 (omega arith) (omega arith)

map_key-lt : (key : ℤ) (final m : ℕ) → OptionLt (map_key key final m)
map_key-lt (pos k) final m = elim (Bool-cases (final == b'u')) [
  | inl u ↦ rw u (map_csiu_key-lt k m)
  | inr v ↦ elim (Bool-cases (final == b'~')) [
    | inl t ↦ rw (v, t) (map_csitilde_key-lt k m)
    | inr l ↦ rw (v, l) (map_csi_letter-lt final m)
  ]
]
map_key-lt (negsuc k) final m = elim (Bool-cases (final == b'u')) [
  | inl u ↦ rw u (omega arith)
  | inr v ↦ elim (Bool-cases (final == b'~')) [
    | inl t ↦ rw (v, t) (omega arith)
    | inr l ↦ rw (v, l) (map_csi_letter-lt final m)
  ]
]

checked-lt : (r : Option ℕ) (errs : ℕ) → OptionLt r → OptionLt (checked r errs).0
checked-lt none errs lt = tt
checked-lt (some c) errs lt = elim (Bool-cases (c == 0)) [ inl z ↦ rw z tt | inr z ↦ rw z lt ]

map_csi_sequence-lt :
    (params : Text) (final errs : ℕ) → OptionLt (map_csi_sequence params final errs).0
unfolding map_csi_sequence
map_csi_sequence-lt params final errs =
    let tokens = split_params params in
    let key = parse_int (get_token 0 tokens) (pos (if is_letter_final final then 1 else 0)) in
    checked-lt (map_key key final (modbits_of tokens)) errs
      (map_key-lt key final (modbits_of tokens))

-- An event with a code has one in range.
abbrev pub InRange : Event → Type 0
InRange nothing = Unit
InRange resize = Unit
InRange (code c) = c < edkc_count

event_of-lt : (r : Option ℕ) → OptionLt r → InRange (event_of r)
event_of-lt none lt = tt
event_of-lt (some c) lt = lt

kitty_decode_csi-lt : (input : Text) (errs : ℕ) → InRange (decoded (kitty_decode_csi input errs)).0
unfolding kitty_decode_csi
kitty_decode_csi-lt input errs = elim (Option-cases (collect [] input)) [
  | inl ends ↦ rw (kitty_decode_csi, ends) tt
  | inr ((params, final, rest), got) ↦
      rw (kitty_decode_csi, got)
        (event_of-lt (map_csi_sequence params final errs).0 (map_csi_sequence-lt params final errs))
]

if-lt :
    (b : Bool) (x y : Option ℕ)
    → (b ≡ true → OptionLt x)
    → (b ≡ false → OptionLt y)
    → OptionLt (if b then x else y)
if-lt true x y hx hy = hx refl
if-lt false x y hx hy = hy refl

plain_code-lt : (ch : ℕ) → ch < 256 → OptionLt (kitty_map_plain_char ch)
plain_code-lt ch byte =
    if-lt (ch == 13 || ch == 10) (some edkc_enter) _ (λ h. omega arith)
      (λ h.
        if-lt (ch == 9) (some edkc_tab) _ (λ h. omega arith)
          (λ h.
            if-lt (ch == 0) none _ (λ h. tt)
              (λ h.
                if-lt (leb 28 ch && leb ch 31) (some (edkc_c_4 + (ch - 28))) _
                  (λ h. ground (arith, h))
                  (λ h.
                    if-lt (ltb ch 27) (some (edkc_c_a + (ch - 1))) (some ch)
                      (λ h. ground (arith, h)) (λ h. omega (arith, byte))))))

kitty_map_plain_char-lt : (ch : ℕ) → ch < 256 → InRange (event_of (kitty_map_plain_char ch))
kitty_map_plain_char-lt ch byte = event_of-lt (kitty_map_plain_char ch) (plain_code-lt ch byte)

abbrev pub IsBytes : Text → Type 0
IsBytes [] = Unit
IsBytes (c ∷ s) = (c < 256) × IsBytes s

if-InRange :
    (b : Bool) (x y : Event × ℕ × Text)
    → (b ≡ true → InRange x.0)
    → (b ≡ false → InRange y.0)
    → InRange ((if b then x else y).0)
if-InRange true x y hx hy = hx refl
if-InRange false x y hx hy = hy refl

escaped-lt : (s : Text) (errs : ℕ) → IsBytes s → InRange (escaped s errs).0
escaped-lt [] errs bytes = omega arith
escaped-lt (next ∷ s) errs (byte, bytes) =
    if-InRange (next == b'[') _ _ (λ h. kitty_decode_csi-lt s errs)
      (λ h.
        if-InRange (next == 0x1b) _ _ (λ h. omega arith)
          (λ h.
            if-InRange (not (map_7bit_alt_sequence next == 0)) _ _
              (λ h. map_7bit_alt_sequence-lt next) (λ h. kitty_map_plain_char-lt next byte)))

-- On an input of bytes: the code that KittyGetEvent gives, if it gives one, is below EdKC_COUNT, so that
-- GetEdKC_Ascii does not drop it.
pub kitty_get_event-InRange :
    (key_resize : ℕ) (input : Text) (errs : ℕ)
    → IsBytes input
    → InRange (kitty_get_event key_resize input errs).0
unfolding kitty_get_event
kitty_get_event-InRange key_resize [] errs bytes = tt
kitty_get_event-InRange key_resize (ch ∷ s) errs (byte, bytes) =
    if-InRange (ch == key_resize) _ _ (λ h. tt)
      (λ h.
        if-InRange (ch == 0x9b) _ _ (λ h. kitty_decode_csi-lt s errs)
          (λ h.
            if-InRange (ch == 0x1b) _ _ (λ h. escaped-lt s errs bytes)
              (λ h. kitty_map_plain_char-lt ch byte)))
