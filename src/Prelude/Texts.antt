-- ===== src/Prelude/Texts.antt =====
-- The bytes of an ASCII text that is written in quotes.
use Prim.Native.Nat.{ℕ}
use Prim.Native.Char.{code}
use Prim.Native.String.{String}
use mathlib.Core.List.{List, [], ◌∷◌}

abbrev pub text_of : String → List ℕ
text_of String.[] = []
text_of (String.◌∷◌ c s) = code c ∷ text_of s
