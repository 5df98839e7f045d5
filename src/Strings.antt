-- ===== src/Strings.antt =====
-- Searches in a text, and copies into a buffer of fixed size (my_strutils.h, my_strutils.cpp). A buffer (`stbuf`) is the list of all its
-- bytes; an overrun would make the list longer. The log of a truncation is left out.
pub mod Copies
pub mod Searches
pub mod Numbers
use k_edit.Prelude.{
  ℕ, ◌+◌, ◌-◌, min, ltb, leb, ◌==◌, ◌&&◌, ◌||◌, not, if◌then◌else◌, Bool, true, false, List, [],
  ◌∷◌, ◌++◌, length, take, drop, Option, none, some,
}
use k_edit.Tabs.{Text}

-- ToNextOrEnd, strcspn, strchr: the text before the first byte that passes the test, and the text
-- from it on
abbrev pub span_to : (ℕ → Bool) → Text → Text × Text
span_to p [] = ([], [])
span_to p (c ∷ s) = let (a, b) = span_to p s in if p c then ([], c ∷ s) else (c ∷ a, b)

-- A byte in front of the first text
abbrev pub cons_first : ℕ → List Text → List Text
cons_first c [] = (c ∷ []) ∷ []
cons_first c (v ∷ vs) = (c ∷ v) ∷ vs

-- isblank in the C locale
abbrev pub is_blank_ch : ℕ → Bool
is_blank_ch c = c == b' ' || c == b'\t'

-- The text from FirstNonBlankOrEnd on
abbrev pub skip_blanks : Text → Text
skip_blanks [] = []
skip_blanks (c ∷ s) = let rest = skip_blanks s in if is_blank_ch c then rest else c ∷ s

abbrev pub rmv_trail_blanks : Text → Text
rmv_trail_blanks [] = []
rmv_trail_blanks (c ∷ s) = elim (rmv_trail_blanks s) [
  | [] ↦ if is_blank_ch c then [] else c ∷ []
  | d ∷ kept ↦ c ∷ d ∷ kept
]

-- Both ends of a text; of a blank one nothing is left.
abbrev pub trimmed : Text → Text
trimmed s = rmv_trail_blanks (skip_blanks s)

-- std::tolower in the C locale, and eqi
abbrev pub to_lower : ℕ → ℕ
to_lower c = if leb b'A' c && leb c b'Z' then c + 32 else c

abbrev pub eqi : Text → Text → Bool
eqi [] [] = true
eqi [] (d ∷ t) = false
eqi (c ∷ s) [] = false
eqi (c ∷ s) (d ∷ t) = let rest = eqi s t in to_lower c == to_lower d && rest

-- memcpy( dest + ofs, xs, length )
abbrev pub write_at : ℕ → Text → Text → Text
write_at ofs xs dest = take ofs dest ++ (xs ++ drop (ofs + length xs) dest)

-- scpy, once `destCharsToWr` is known
unfoldable pub scpy_chars : Text → Text → ℕ → Text × ℕ
scpy_chars dest src n =
    let copied = if ltb 1 n then write_at 0 (take (n - 1) src) dest else dest in
    (if ltb 0 n then write_at (n - 1) (0 ∷ []) copied else copied, if ltb 0 n then n - 1 else 0)

unfoldable pub scpy : Text → Text → Text × ℕ
unfolding scpy_chars
scpy dest src = scpy_chars dest src (min (length dest) (length src + 1))

-- The loop of DoubleBackslashes: `room` is the distance from `out` to `last`.
abbrev pub double_from : ℕ → Text → Text
double_from room [] = []
double_from room (ch ∷ src) =
    let one = double_from (room - 1) src in
    let two = double_from (room - 2) src in
    if room == 0 then [] else if ch == b'\\' && ltb 1 room then ch ∷ b'\\' ∷ two else ch ∷ one

-- DoubleBackslashes
unfoldable pub double_backslashes : Text → Text → Text × ℕ
double_backslashes dest src =
    let out = double_from (length dest - 1) src in
    if length dest == 0 then (dest, 0) else (write_at 0 (out ++ 0 ∷ []) dest, length out)
