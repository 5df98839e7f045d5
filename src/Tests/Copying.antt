-- ===== src/Tests/Copying.antt =====
-- The bounded copies and the numbers (my_strutils.cpp) at concrete texts.
use k_edit.Prelude.{[], ◌∷◌, ◌≡◌, refl, arith}
use k_edit.Tabs.{Text}
use k_edit.Strings.{scpy, scpy_chars}
use k_edit.Prelude.{text_of, none, some, true, false, ◌++◌}
use k_edit.Strings.Numbers.{no_error, conv_u}
use k_edit.Strings.Numbers.Spelled.{conv_u-spelled}

abbrev four_bytes : Text
four_bytes = 1 ∷ 2 ∷ 3 ∷ 4 ∷ []

-- A path with a backslash
abbrev path : Text
path = b'a' ∷ b'\\' ∷ b'b' ∷ b'c' ∷ []

scpy_truncates : scpy four_bytes path ≡ (b'a' ∷ b'\\' ∷ b'b' ∷ 0 ∷ [], 3)
unfolding scpy scpy_chars
scpy_truncates = refl

-- A number with letters in both cases
conv_u-spelled_example :
    conv_u (text_of " " ++ text_of "1fA") 16
    ≡ record { error_number = no_error; value = 506; converted = some (text_of "1fA"); base = 16 }
conv_u-spelled_example =
    conv_u-spelled 16 (text_of " ") (1, false) ((15, false) ∷ (10, true) ∷ []) (omega arith)
      (omega arith) (refl, tt) (omega arith, (omega arith, (omega arith, tt))) (omega arith)

-- A prefix with no digit behind it: no error is reported, and the view's length wraps around.
bare_prefix :
    conv_u (text_of "0x") 10
    ≡ record { error_number = no_error; value = 0; converted = none; base = 16 }
unfolding conv_u
bare_prefix = refl

-- A value that wraps around to one above the value before the last digit is no error.
silent_overflow : conv_u (text_of "30000000000000000000") 10 ≡ record {
  error_number = no_error;
  value = 11553255926290448384;
  converted = some (text_of "30000000000000000000");
  base = 10;
}
unfolding conv_u
silent_overflow = refl
