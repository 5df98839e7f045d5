-- ===== src/Strings/Numbers/Spelled.antt =====
-- conv_u (my_strutils.cpp) on the digits of a number.
use k_edit.Prelude.{
  ℕ, ◌+◌, ◌-◌, ◌*◌, ◌^◌, ◌≤◌, ◌<◌, ltb, if◌then◌else◌, Bool, true, false, List, [], ◌∷◌, ◌++◌, some,
  ◌≡◌, refl, ◌∙◌, ap, subst, sym, arith,
}
use k_edit.Tabs.{Text}
use k_edit.Strings.Numbers.{no_error, digit_value, ConvUResult, conv_u}
use k_edit.Strings.Numbers.Digits.{digits_value, IsDigits, IsBlank, conv_u-digits_value}

-- 0 to 9, and then the letters, in upper case or in lower case
abbrev pub digit_ch : ℕ × Bool → ℕ
digit_ch (v, true) = if ltb v 10 then b'0' + v else b'A' + (v - 10)
digit_ch (v, false) = if ltb v 10 then b'0' + v else b'a' + (v - 10)

abbrev pub spelled : List (ℕ × Bool) → Text
spelled [] = []
spelled (d ∷ ds) = digit_ch d ∷ spelled ds

-- The number with these digits behind `acc`, the first digit the highest
abbrev pub number : ℕ → ℕ → List (ℕ × Bool) → ℕ
number base acc [] = acc
number base acc (d ∷ ds) = number base (acc * base + d.0) ds

abbrev pub AreBelow : ℕ → List (ℕ × Bool) → Type 0
AreBelow base [] = Unit
AreBelow base (d ∷ ds) = (d.0 < base) × AreBelow base ds

digit_value-digit_ch : (v : ℕ) (upper : Bool) → v < 36 → digit_value (digit_ch (v, upper)) ≡ some v
digit_value-digit_ch v true h = ground arith
digit_value-digit_ch v false h = ground arith

spelled-IsDigits :
    (base : ℕ) (ds : List (ℕ × Bool)) → base ≤ 36 → AreBelow base ds → IsDigits base (spelled ds)
spelled-IsDigits base [] le below = tt
spelled-IsDigits base ((v, upper) ∷ ds) le (lt, below) =
    (v, digit_value-digit_ch v upper (omega arith), lt, spelled-IsDigits base ds le below)

digits_value-spelled :
    (base acc : ℕ) (ds : List (ℕ × Bool))
    → base ≤ 36
    → AreBelow base ds
    → digits_value base acc (spelled ds) ≡ number base acc ds
digits_value-spelled base acc [] le below = refl
digits_value-spelled base acc ((v, upper) ∷ ds) le (lt, below) =
    rw (digits_value, digit_value-digit_ch v upper (omega arith))
      (digits_value-spelled base (acc * base + v) ds le below)

-- In a base from 2 to 36: from blanks and then the digits of a number below 2^64, at least one, the
-- letters in either case, conv_u gives this number without an error, the digits as the text that it has
-- used, and the same base.
pub conv_u-spelled :
    (base : ℕ) (blanks : Text) (d : ℕ × Bool) (ds : List (ℕ × Bool))
    → 2 ≤ base
    → base ≤ 36
    → IsBlank blanks
    → AreBelow base (d ∷ ds)
    → number base 0 (d ∷ ds) < 2 ^ 64
    → conv_u (blanks ++ spelled (d ∷ ds)) base ≡ record {
      error_number = no_error;
      value = number base 0 (d ∷ ds);
      converted = some (spelled (d ∷ ds));
      base = base;
    }
conv_u-spelled base blanks d ds two le bl below small =
    let same = digits_value-spelled base 0 (d ∷ ds) le below in
    let result : ℕ → ConvUResult = λ x. record {
      error_number = no_error;
      value = x;
      converted = some (spelled (d ∷ ds));
      base = base;
    } in
    conv_u-digits_value base blanks (digit_ch d) (spelled ds) two le bl
      (spelled-IsDigits base (d ∷ ds) le below) (subst (λ x. x < 2 ^ 64) (sym same) small)
    ∙ ap result same
