-- ===== src/Kitty/Reads.antt =====
-- The event that a control sequence of the form CSI key ; modifiers u gives (kitty_conin.cpp).
use k_edit.Prelude.{
  ℕ, ◌+◌, ◌-◌, ◌*◌, ◌%◌, ◌^◌, ◌≤◌, ◌<◌, leb, ◌==◌, ◌&&◌, true, false, List, [], ◌∷◌, ◌++◌,
  append_assoc, append-nil, Option, some, ◌≡◌, refl, sym, ap, ◌∙◌, arith,
}
use native.Mathlib.Nat.{mod-eq_of_lt}
use k_edit.Prelude.Int.{ℤ, pos}
use k_edit.Tabs.{Text}
use k_edit.Kitty.Keys.{map_csiu_key}
use k_edit.Kitty.Events.{
  is_digit, split_from, split_params, get_token, int_loop, of_bits, parse_int, before_colon,
  modbits_of, map_key, checked, map_csi_sequence, collect, kitty_decode_csi, event_of, decoded,
  kitty_get_event,
}

-- The number that digits stand for, from `acc` on
abbrev pub dec_value : ℕ → Text → ℕ
dec_value acc [] = acc
dec_value acc (c ∷ s) = dec_value (acc * 10 + (c - b'0')) s

abbrev pub IsDec : Text → Type 0
IsDec [] = Unit
IsDec (c ∷ s) = (is_digit c ≡ true) × IsDec s

-- No byte is final, and none is `sep`.
abbrev pub IsClear : ℕ → Text → Type 0
IsClear sep [] = Unit
IsClear sep (c ∷ s) = (c < 0x40) × ((c == sep) ≡ false) × IsClear sep s

abbrev pub IsParams : Text → Type 0
IsParams [] = Unit
IsParams (c ∷ s) = (c < 0x40) × IsParams s

-- A text that is empty or starts with `sep`
abbrev pub Opens : ℕ → Text → Type 0
Opens sep [] = Unit
Opens sep (c ∷ s) = c ≡ sep

split_from-sep :
    (piece a b : Text)
    → IsClear b';' a
    → split_from piece (a ++ b';' ∷ b) ≡ (piece ++ a) ∷ split_from [] b
unfolding split_from
split_from-sep piece [] b clear = ap (◌∷ split_from [] b) (sym (append-nil piece))
split_from-sep piece (c ∷ a) b (low, other, clear) = rw other (
    split_from-sep (piece ++ c ∷ []) a b clear
    ∙ ap (◌∷ split_from [] b) (append_assoc piece (c ∷ []) a))

-- The rest of the parameters behind a field
abbrev pieces_behind : Text → List Text
pieces_behind [] = []
pieces_behind (c ∷ s) = split_from [] s

split_from-field :
    (piece a more : Text)
    → IsClear b';' a
    → Opens b';' more
    → split_from piece (a ++ more) ≡ (piece ++ a) ∷ pieces_behind more
unfolding split_from
split_from-field piece [] [] clear opens = ap (◌∷ []) (sym (append-nil piece))
split_from-field piece (c ∷ a) [] (low, other, clear) opens =
    rw other (
      split_from-field (piece ++ c ∷ []) a [] clear tt ∙ ap (◌∷ []) (append_assoc piece (c ∷ []) a))
split_from-field piece a (c ∷ s) clear opens = rw opens (split_from-sep piece a s clear)

le-dec_value : (acc : ℕ) (ds : Text) → acc ≤ dec_value acc ds
le-dec_value acc [] = omega arith
le-dec_value acc (c ∷ s) = let rest = le-dec_value (acc * 10 + (c - b'0')) s in omega (arith, rest)

int_loop-digits :
    (acc : ℕ) (ds : Text)
    → IsDec ds
    → dec_value acc ds < 2 ^ 31
    → int_loop acc ds ≡ dec_value acc ds
unfolding int_loop
int_loop-digits acc [] dec small = refl
int_loop-digits acc (c ∷ s) (digit, dec) small =
    let value = acc * 10 + (c - b'0') in
    let exact : value % 2 ^ 32 ≡ value =
      mod-eq_of_lt (omega (arith, le-dec_value value s, small)) in
    rw (digit, exact) (int_loop-digits value s dec small)

parse_int-digits :
    (c : ℕ) (s : Text) (dflt : ℤ)
    → IsDec (c ∷ s)
    → dec_value 0 (c ∷ s) < 2 ^ 31
    → parse_int (c ∷ s) dflt ≡ pos (dec_value 0 (c ∷ s))
unfolding parse_int
parse_int-digits c s dflt (digit, dec) small =
    let minus : (c == b'-') ≡ false = ground (arith, digit) in
    let plus : (c == b'+') ≡ false = ground (arith, digit) in
    let read = int_loop-digits 0 (c ∷ s) (digit, dec) small in
    let positive : of_bits (dec_value 0 (c ∷ s)) ≡ pos (dec_value 0 (c ∷ s)) =
      ground (arith, small) in
    rw (minus, plus) (ap of_bits read ∙ positive)

before_colon-append : (m sub : Text) → IsDec m → Opens b':' sub → before_colon (m ++ sub) ≡ m
unfolding before_colon
before_colon-append [] [] dec opens = refl
before_colon-append [] (c ∷ s) dec opens = rw opens
before_colon-append (c ∷ m) sub (digit, dec) opens =
    let other : (c == b':') ≡ false = ground (arith, digit) in
    rw other (ap (c ∷◌) (before_colon-append m sub dec opens))

collect-params :
    (got ps : Text) (final : ℕ) (rest : Text)
    → IsParams ps
    → (leb 0x40 final && leb final 0x7e) ≡ true
    → collect got (ps ++ final ∷ rest) ≡ some (got ++ ps, final, rest)
unfolding collect
collect-params got [] final rest params ends = rw (ends, append-nil got)
collect-params got (c ∷ ps) final rest (low, params) ends =
    let goes_on : (leb 0x40 c && leb c 0x7e) ≡ false = ground (arith, low) in
    let byte : c % 256 ≡ c = mod-eq_of_lt (omega (arith, low)) in
    rw (goes_on, byte)
      (collect-params (got ++ c ∷ []) ps final rest params ends
        ∙ ap (λ t. some (t, final, rest)) (append_assoc got (c ∷ []) ps))

-- The parameters `k;m` with what may follow `m`
abbrev pub csi_u : Text → Text → Text → Text → Text
csi_u k m sub more = k ++ b';' ∷ ((m ++ sub) ++ more)

IsClear-digits : (ds : Text) → IsDec ds → IsClear b';' ds
IsClear-digits [] dec = tt
IsClear-digits (c ∷ s) (digit, dec) =
    (ground (arith, digit), ground (arith, digit), IsClear-digits s dec)

IsClear-append : (a b : Text) → IsClear b';' a → IsClear b';' b → IsClear b';' (a ++ b)
IsClear-append [] b ca cb = cb
IsClear-append (c ∷ a) b (low, other, ca) cb = (low, other, IsClear-append a b ca cb)

IsParams-clear : (a : Text) → IsClear b';' a → IsParams a
IsParams-clear [] clear = tt
IsParams-clear (c ∷ a) (low, other, clear) = (low, IsParams-clear a clear)

IsParams-append : (a b : Text) → IsParams a → IsParams b → IsParams (a ++ b)
IsParams-append [] b pa pb = pb
IsParams-append (c ∷ a) b (low, pa) pb = (low, IsParams-append a b pa pb)

key_number :
    (k : Text) → IsDec k → dec_value 0 k < 2 ^ 31 → parse_int k (pos 0) ≡ pos (dec_value 0 k)
unfolding parse_int
key_number [] dec small = refl
key_number (c ∷ s) dec small = parse_int-digits c s (pos 0) dec small

modbits_of-digits :
    (k m sub : Text) (ts : List Text)
    → IsDec m
    → dec_value 0 m < 2 ^ 31
    → Opens b':' sub
    → modbits_of (k ∷ (m ++ sub) ∷ ts) ≡ dec_value 0 m - 1
unfolding parse_int
modbits_of-digits k [] sub ts dec small colon =
    rw (modbits_of, before_colon-append [] sub dec colon)
modbits_of-digits k (c ∷ s) sub ts dec small colon =
    rw (
      modbits_of,
      before_colon-append (c ∷ s) sub dec colon,
      parse_int-digits c s (pos 1) dec small,
    )

module _ (k m sub more : Text) (dk : IsDec k) (dm : IsDec m) (sk : dec_value 0 k < 2 ^ 31)
    (sm : dec_value 0 m < 2 ^ 31) (clear : IsClear b';' sub) (colon : Opens b':' sub)
    (opens : Opens b';' more) where
  tokens : split_params (csi_u k m sub more) ≡ k ∷ (m ++ sub) ∷ pieces_behind more
  unfolding split_params
  tokens =
      split_from-sep [] k ((m ++ sub) ++ more) (IsClear-digits k dk)
      ∙ ap (k ∷◌) (
          split_from-field [] (m ++ sub) more (IsClear-append m sub (IsClear-digits m dm) clear)
            opens)

  map_csi_sequence-u :
      (errs : ℕ)
      → map_csi_sequence (csi_u k m sub more) b'u' errs
        ≡ checked (map_csiu_key (dec_value 0 k) (dec_value 0 m - 1)) errs
  unfolding map_csi_sequence
  map_csi_sequence-u errs =
      ap (λ ts. checked (map_key (parse_int (get_token 0 ts) (pos 0)) b'u' (modbits_of ts)) errs)
        tokens
      ∙ rw (key_number k dk sk, modbits_of-digits k m sub (pieces_behind more) dm sm colon)

  csi_u-IsParams : IsParams more → IsParams (csi_u k m sub more)
  csi_u-IsParams params =
      let field = IsParams-clear (m ++ sub) (IsClear-append m sub (IsClear-digits m dm) clear) in
      IsParams-append k (b';' ∷ ((m ++ sub) ++ more)) (IsParams-clear k (IsClear-digits k dk))
        (omega arith, IsParams-append (m ++ sub) more field params)

  kitty_decode_csi-u :
      (rest : Text) (errs : ℕ)
      → IsParams more
      → kitty_decode_csi (csi_u k m sub more ++ b'u' ∷ rest) errs ≡ (
          let r = checked (map_csiu_key (dec_value 0 k) (dec_value 0 m - 1)) errs in
          (r.0, r.1, rest))
  unfolding kitty_decode_csi
  kitty_decode_csi-u rest errs params =
      rw
        (
          kitty_decode_csi,
          collect-params [] (csi_u k m sub more) b'u' rest (csi_u-IsParams params) refl,
        )
        (ap (λ (r : Option ℕ × ℕ). let t : Option ℕ × ℕ × Text = (r.0, r.1, rest) in t)
          (map_csi_sequence-u errs))

-- From `ESC [`, the digits `k`, `;`, the digits `m` and `u`, of numbers below 2^31, where behind `m` there may be text that
-- starts with a colon, and then text that starts with `;`, all of it below 0x40: KittyGetEvent reads up
-- to the `u`, and gives the code of the key `k` with the modifiers `m - 1`. It is no event for a key of a
-- modifier, and one decoding error more if the key has no code.
pub kitty_get_event-csi_u :
    (key_resize : ℕ) (k m sub more rest : Text) (errs : ℕ)
    → 255 < key_resize
    → IsDec k
    → IsDec m
    → dec_value 0 k < 2 ^ 31
    → dec_value 0 m < 2 ^ 31
    → IsClear b';' sub
    → Opens b':' sub
    → Opens b';' more
    → IsParams more
    → kitty_get_event key_resize (0x1b ∷ b'[' ∷ (csi_u k m sub more ++ b'u' ∷ rest)) errs ≡ (
        let r = checked (map_csiu_key (dec_value 0 k) (dec_value 0 m - 1)) errs in
        (event_of r.0, r.1, rest))
unfolding kitty_get_event
kitty_get_event-csi_u key_resize k m sub more rest errs big dk dm sk sm clear colon opens params =
    let other : (0x1b == key_resize) ≡ false = ground (arith, big) in
    rw other
      (ap decoded (kitty_decode_csi-u k m sub more dk dm sk sm clear colon opens rest errs params))
