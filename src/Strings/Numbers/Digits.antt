-- ===== src/Strings/Numbers/Digits.antt =====
-- conv_u (my_strutils.cpp) on blanks and digits.
use k_edit.Prelude.{
  drop-append_left, ℕ, ◌+◌, ◌-◌, ◌*◌, ◌%◌, ◌^◌, ◌≤◌, ◌<◌, ltb, ◌||◌, true, false, [], ◌∷◌, ◌++◌,
  length, take, drop, Option, none, some, ◌≡◌, refl, sym, ap, ◌∙◌, arith,
}
use native.Mathlib.Nat.{mod-eq_of_lt, mul-le-mul_left}
use k_edit.Tabs.{Text}
use k_edit.Tabs.Expand.Segment.{take_all}
use k_edit.Strings.{is_blank_ch}
use k_edit.Strings.Numbers.{
  no_error, Conv, goes_on, digit_value, is_base_prefix, digit_step, conv_step, conv_loop,
  ConvUResult, conv_u,
}

-- The digits' value, from `acc` on
abbrev pub digits_value : ℕ → ℕ → Text → ℕ
digits_value base acc [] = acc
digits_value base acc (c ∷ s) = elim (digit_value c) [
  | none ↦ acc
  | some v ↦ digits_value base (acc * base + v) s
]

abbrev pub IsDigits : ℕ → Text → Type 0
IsDigits base [] = Unit
IsDigits base (c ∷ s) = (v : ℕ) × (digit_value c ≡ some v) × (v < base) × IsDigits base s

abbrev pub IsBlank : Text → Type 0
IsBlank [] = Unit
IsBlank (c ∷ s) = (is_blank_ch c ≡ true) × IsBlank s

-- A number does not shrink when a digit is read.
le-read : (acc base v : ℕ) → 2 ≤ base → acc ≤ acc * base + v
le-read acc base v two =
    let times : acc * 1 ≤ acc * base = mul-le-mul_left acc (omega (arith, two)) in
    omega (arith, times)

le-digits_value :
    (base acc : ℕ) (s : Text) → 2 ≤ base → IsDigits base s → acc ≤ digits_value base acc s
le-digits_value base acc [] two ds = omega arith
le-digits_value base acc (c ∷ s) two (v, found, lt, ds) =
    let first = le-read acc base v two in
    let rest = le-digits_value base (acc * base + v) s two ds in
    rw (digits_value, found) (omega (arith, first, rest))

-- A digit is no blank, and no prefix starts where digits stand.
blank_is_no_digit : (c v : ℕ) → digit_value c ≡ some v → is_blank_ch c ≡ false
blank_is_no_digit c v found = ground (arith, found)

no_hex_prefix : (base c : ℕ) (s : Text) → IsDigits base s → is_base_prefix 16 b'x' base c s ≡ false
no_hex_prefix base c [] ds = refl
no_hex_prefix base c (d ∷ s) (v, found, lt, ds) = ground (arith, found, lt)

no_binary_prefix :
    (base c : ℕ) (s : Text) → IsDigits base s → is_base_prefix 2 b'b' base c s ≡ false
no_binary_prefix base c [] ds = refl
no_binary_prefix base c (d ∷ s) (v, found, lt, ds) = ground (arith, found, lt)

-- A digit in the number
digit_read :
    (ix c v : ℕ) (s : Text) (st : Conv) (first : ℕ)
    → st.skip ≡ false
    → st.o_first ≡ some first
    → digit_value c ≡ some v
    → v < st.base
    → 2 ≤ st.base
    → st.rv * st.base + v < 2 ^ 64
    → conv_step ix c s st ≡ goes_on (record st { rv = st.rv * st.base + v; o_last = some ix })
digit_read ix c v s st first unskipped leading found lt two small =
    let exact : (st.rv * st.base + v) % 2 ^ 64 ≡ st.rv * st.base + v = mod-eq_of_lt small in
    let in_base : ltb (st.base - 1) v ≡ false = ground (arith, lt) in
    let grows : ltb (st.rv * st.base + v) st.rv ≡ false =
      ground (arith, le-read st.rv st.base v two) in
    rw (conv_step, unskipped, leading, digit_step, found, exact, in_base, grows)

-- The index of the last byte of a text that starts at `ix`, or the one before
abbrev ends_at : ℕ → Text → Option ℕ → Option ℕ
ends_at ix [] before = before
ends_at ix (c ∷ s) before = some (ix + length s)

ends_at-cons : (ix : ℕ) (s : Text) → ends_at (ix + 1) s (some ix) ≡ some (ix + length s)
ends_at-cons ix [] = ap some (omega arith)
ends_at-cons ix (c ∷ s) = ap some (omega arith)

digits_loop :
    (ix : ℕ) (s : Text) (st : Conv) (first : ℕ)
    → st.skip ≡ false
    → st.o_first ≡ some first
    → IsDigits st.base s
    → 2 ≤ st.base
    → digits_value st.base st.rv s < 2 ^ 64
    → conv_loop ix s st
      ≡ some (record st { rv = digits_value st.base st.rv s; o_last = ends_at ix s st.o_last })
unfolding conv_loop
digits_loop ix [] st first unskipped leading ds two small = refl
digits_loop ix (c ∷ s) st first unskipped leading (v, found, lt, ds) two small =
    let same : digits_value st.base st.rv (c ∷ s) ≡ digits_value st.base (st.rv * st.base + v) s =
      rw (digits_value, found) in
    let le = le-digits_value st.base (st.rv * st.base + v) s two ds in
    let step =
      digit_read ix c v s st first unskipped leading found lt two
        (omega (arith, le, same, small)) in
    let st' : Conv = record st { rv = st.rv * st.base + v; o_last = some ix } in
    let rest =
      digits_loop (ix + 1) s st' first unskipped leading ds two (omega (arith, same, small)) in
    rw (conv_loop, step) (rest ∙ rw (same, ends_at-cons ix s))

blanks_loop :
    (ix : ℕ) (blanks s : Text) (st : Conv)
    → st.skip ≡ false
    → st.o_first ≡ none
    → IsBlank blanks
    → conv_loop ix (blanks ++ s) st ≡ conv_loop (ix + length blanks) s st
unfolding conv_loop
blanks_loop ix [] s st unskipped leading bl = ap (λ i. conv_loop i s st) (omega arith)
blanks_loop ix (c ∷ blanks) s st unskipped leading (blank, bl) =
    let rest = blanks_loop (ix + 1) blanks s st unskipped leading bl in
    let step : conv_step ix c (blanks ++ s) st ≡ goes_on st =
      rw (conv_step, unskipped, leading, blank) in
    rw (conv_loop, step) (rest ∙ ap (λ i. conv_loop i s st) (omega arith))

first_digit :
    (ix base c v : ℕ) (s : Text)
    → digit_value c ≡ some v
    → v < base
    → base ≤ 36
    → IsDigits base s
    → conv_step ix c s (record {
      errno = no_error;
      rv = 0;
      base = base;
      o_first = none;
      o_last = none;
      skip = false;
    })
      ≡ goes_on (record {
        errno = no_error;
        rv = v;
        base = base;
        o_first = some ix;
        o_last = some ix;
        skip = false;
      })
first_digit ix base c v s found lt le ds =
    let exact : (0 * base + v) % 2 ^ 64 ≡ v =
      mod-eq_of_lt {n = 0 * base + v} (omega (arith, lt, le)) ∙ omega arith in
    let in_base : ltb (base - 1) v ≡ false = ground (arith, lt) in
    let ge_zero : ltb v 0 ≡ false = ground arith in
    rw (
      conv_step,
      blank_is_no_digit c v found,
      no_hex_prefix base c s ds,
      no_binary_prefix base c s ds,
      digit_step,
      found,
      exact,
      in_base,
      ge_zero,
    )

-- The bytes that a view with the first and the last index has
view_of_digits :
    (blanks s : Text) (c : ℕ)
    → take (length blanks + length s + 1 - length blanks) (drop (length blanks) (blanks ++ c ∷ s))
      ≡ c ∷ s
view_of_digits blanks s c =
    let n : length blanks + length s + 1 - length blanks ≡ length (c ∷ s) = omega arith in
    rw n (
      ap (take (length (c ∷ s))) (drop-append_left (length blanks) blanks (c ∷ s) refl)
      ∙ take_all (length (c ∷ s)) (c ∷ s) (omega arith))

-- From blanks and then digits, as `digit_value` reads them
pub conv_u-digits_value :
    (base : ℕ) (blanks : Text) (c : ℕ) (s : Text)
    → 2 ≤ base
    → base ≤ 36
    → IsBlank blanks
    → IsDigits base (c ∷ s)
    → digits_value base 0 (c ∷ s) < 2 ^ 64
    → conv_u (blanks ++ c ∷ s) base ≡ record {
      error_number = no_error;
      value = digits_value base 0 (c ∷ s);
      converted = some (c ∷ s);
      base = base;
    }
unfolding conv_u conv_loop
conv_u-digits_value base blanks c s two le bl (v, found, lt, ds) small =
    let start : Conv = record {
      errno = no_error;
      rv = 0;
      base = base;
      o_first = none;
      o_last = none;
      skip = false;
    } in
    let n = length blanks in
    let read : Conv = record start { rv = v; o_first = some n; o_last = some n } in
    let in_range : (ltb base 2 || ltb 36 base) ≡ false = ground (arith, two, le) in
    let same : digits_value base 0 (c ∷ s) ≡ digits_value base v s =
      rw (digits_value, found) (ap (λ k. digits_value base k s) (omega arith)) in
    let over = blanks_loop 0 blanks (c ∷ s) start refl refl bl in
    let first : conv_loop (0 + n) (c ∷ s) start ≡ conv_loop (n + 1) s read =
      ap (λ i. conv_loop i (c ∷ s) start) {x = 0 + n} {y = n} (omega arith)
      ∙ rw (conv_loop, first_digit n base c v s found lt le ds) in
    let rest = digits_loop (n + 1) s read n refl refl ds two (omega (arith, same, small)) in
    let all =
      over
      ∙ (first
          ∙ (rest
              ∙ ap (λ (l : Option ℕ). some (record read { rv = digits_value base v s; o_last = l }))
                  (ends_at-cons n s))) in
    let result : ℕ → Text → ConvUResult =
      λ x t. record { error_number = no_error; value = x; converted = some t; base = base } in
    rw (in_range, all)
      (ap (λ (x : ℕ). result x (take (n + length s + 1 - n) (drop n (blanks ++ c ∷ s)))) (sym same)
        ∙ ap (result (digits_value base 0 (c ∷ s))) (view_of_digits blanks s c))
