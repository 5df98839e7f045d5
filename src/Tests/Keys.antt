-- ===== src/Tests/Keys.antt =====
-- Key events of a terminal with the kitty keyboard protocol.
use k_edit.Prelude.{◌-◌, [], ◌∷◌, ◌++◌, some, ◌≡◌, refl, inl, arith, text_of}
use k_edit.Kitty.Codes.{
  edkc_enter, edkc_c_0, edkc_c_a, edkc_cs_0, edkc_cs_a, edkc_a_0, edkc_a_a, edkc_c_left,
}
use k_edit.Kitty.Keys.{map_csiu_key, map_csi_letter, map_csitilde_key}
use k_edit.Kitty.Events.{code, nothing, checked, event_of, kitty_get_event}
use k_edit.Kitty.Reads.{csi_u, dec_value, kitty_get_event-csi_u}
use k_edit.Kitty.Letters.{by_modifiers, counted_from, upper, map_csiu_key-by_modifiers}
use k_edit.Kitty.Bounds.{InRange, kitty_get_event-InRange}

-- ESC and a carriage return, alt with enter, is taken for enter alone.
alt_enter : kitty_get_event 410 (0x1b ∷ 13 ∷ []) 0 ≡ (code edkc_enter, 0, [])
unfolding kitty_get_event
alt_enter = refl

-- The arrow to the left with ctrl, and the key of 1 with shift
ctrl_left : kitty_get_event 410 (0x1b ∷ b'[' ∷ text_of "1;5D") 3 ≡ (code edkc_c_left, 3, [])
unfolding kitty_get_event map_csi_letter
ctrl_left = refl

shift_one : kitty_get_event 410 (0x1b ∷ b'[' ∷ text_of "49;2;33u") 0 ≡ (code b'1', 0, [])
unfolding kitty_get_event map_csiu_key
shift_one = refl

unknown_key : kitty_get_event 410 (0x1b ∷ b'[' ∷ text_of "4~x") 0 ≡ (nothing, 1, text_of "x")
unfolding kitty_get_event map_csitilde_key
unknown_key = refl

-- A number above an `int` wraps around.
wrapped : kitty_get_event 410 (0x1b ∷ b'[' ∷ text_of "4294967393u") 0 ≡ (code b'a', 0, [])
unfolding kitty_get_event map_csiu_key
wrapped = refl

kitty_get_event-csi_u_example :
    kitty_get_event 410
      (0x1b
        ∷ b'['
        ∷ (csi_u (text_of "97") (text_of "5") (text_of ":1") (text_of ";1") ++ b'u' ∷ text_of "x"))
      0
    ≡ (let r =
          checked (map_csiu_key (dec_value 0 (text_of "97")) (dec_value 0 (text_of "5") - 1)) 0 in
        (event_of r.0, r.1, text_of "x"))
kitty_get_event-csi_u_example =
    kitty_get_event-csi_u 410 (text_of "97") (text_of "5") (text_of ":1") (text_of ";1")
      (text_of "x") 0 (omega arith) (refl, (refl, tt)) (refl, tt) (omega arith) (omega arith)
      (omega arith, refl, (omega arith, refl, tt)) refl refl (omega arith, (omega arith, tt))

map_csiu_key-by_modifiers_example :
    map_csiu_key b'q' 4
    ≡ some (
        by_modifiers 4
          (counted_from edkc_cs_0 edkc_cs_a b'q')
          (counted_from edkc_c_0 edkc_c_a b'q')
          (counted_from edkc_a_0 edkc_a_a b'q')
          (upper b'q')
          b'q')
map_csiu_key-by_modifiers_example =
    map_csiu_key-by_modifiers b'q' 4 (inl (omega arith, omega arith))

kitty_get_event-InRange_example : InRange (kitty_get_event 410 (0x1b ∷ b'x' ∷ []) 0).0
kitty_get_event-InRange_example =
    kitty_get_event-InRange 410 (0x1b ∷ b'x' ∷ []) 0 (omega arith, (omega arith, tt))
