-- ===== src/Paths.antt =====
-- Names of files (filename.cpp, filename.h), as compiled for POSIX: the separator is a slash, and
-- PathChEq compares bytes.
pub mod Parts
pub mod Unions
pub mod Prefixes
use k_edit.Prelude.{
  ℕ, zero, suc, ◌+◌, ◌-◌, ltb, leb, ◌==◌, ◌&&◌, ◌||◌, if◌then◌else◌, Bool, true, false, List, [],
  ◌∷◌, ◌++◌, length, take, drop, reverse, Option, none, some,
}
use k_edit.Tabs.{Text}

-- find_last_of, with the set as a test
pub find_last_of : (ℕ → Bool) → Text → Option ℕ
find_last_of p [] = none
find_last_of p (c ∷ s) = elim (find_last_of p s) [
  | some i ↦ some (i + 1)
  | none ↦ if p c then some 0 else none
]

-- IsDirSepCh
abbrev pub is_dir_sep_ch : ℕ → Bool
is_dir_sep_ch c = c == b'/'

-- The set DIRSEP_SRCH_STR ":"
abbrev pub ends_dir : ℕ → Bool
ends_dir c = c == b'/' || c == b':'

abbrev pub is_dot_ch : ℕ → Bool
is_dot_ch c = c == b'.'

pub dirnm_len : Text → ℕ
unfolding find_last_of
dirnm_len s = elim (find_last_of ends_dir s) [ none ↦ 0 | some i ↦ i + 1 ]

pub ref_dirnm : Text → Text
unfolding dirnm_len
ref_dirnm s = take (dirnm_len s) s

pub ref_fname_ext : Text → Text
unfolding dirnm_len
ref_fname_ext s = drop (dirnm_len s) s

-- The parts of a name without a directory, at the last dot if it is not the first byte
abbrev pub fnm_of : Text → Text
fnm_of fx = elim (find_last_of is_dot_ch fx) [
  | none ↦ fx
  | some i ↦ if i == 0 then fx else take i fx
]

abbrev pub ext_of : Text → Text
ext_of fx = elim (find_last_of is_dot_ch fx) [
  | none ↦ []
  | some i ↦ if i == 0 then [] else drop i fx
]

pub ref_fnm : Text → Text
unfolding ref_fname_ext
ref_fnm s = fnm_of (ref_fname_ext s)

pub ref_ext : Text → Text
unfolding ref_fname_ext
ref_ext s = ext_of (ref_fname_ext s)

-- Path::eq, also the `==` on texts
pub eq : Text → Text → Bool
eq [] [] = true
eq [] (d ∷ t) = false
eq (c ∷ s) [] = false
eq (c ∷ s) (d ∷ t) = c == d && eq s t

pub starts_with : Text → Text → Bool
starts_with s [] = true
starts_with [] (n ∷ needle) = false
starts_with (c ∷ s) (n ∷ needle) = n == c && starts_with s needle

pub ends_with : Text → Text → Bool
unfolding starts_with
ends_with haystack needle = starts_with (reverse haystack) (reverse needle)

-- IsDot, IsDotDot, IsDotOrDotDot
pub is_dot : Text → Bool
unfolding eq ends_with
is_dot s =
    eq s (b'.' ∷ []) || ends_with s (b'/' ∷ b'.' ∷ []) || ends_with s (b'/' ∷ b'.' ∷ b'/' ∷ [])

unfoldable pub is_dot_dot : Text → Bool
unfolding eq ends_with
is_dot_dot s =
    eq s (b'.' ∷ b'.' ∷ [])
    || ends_with s (b'/' ∷ b'.' ∷ b'.' ∷ [])
    || ends_with s (b'/' ∷ b'.' ∷ b'.' ∷ b'/' ∷ [])

pub is_dot_or_dot_dot : Text → Bool
unfolding is_dot is_dot_dot
is_dot_or_dot_dot s = is_dot s || is_dot_dot s

abbrev pub or_if_empty : Text → Text → Text
or_if_empty [] t = t
or_if_empty (c ∷ s) t = c ∷ s

-- The last byte goes if it is a dot; `none` is back() of an empty string.
pub without_last_dot : Text → Option Text
without_last_dot [] = none
without_last_dot (c ∷ []) = some (if c == b'.' then [] else c ∷ [])
without_last_dot (c ∷ d ∷ s) = elim (without_last_dot (d ∷ s)) [
  | none ↦ none
  | some t ↦ some (c ∷ t)
]

unfoldable pub union : Text → Text → Option Text
unfolding ref_dirnm ref_fnm ref_ext is_dot_or_dot_dot without_last_dot
union s1 s2 =
    let dir = or_if_empty (ref_dirnm s1) (ref_dirnm s2) in
    let fnm = or_if_empty (ref_fnm s1) (ref_fnm s2) in
    let ext = if is_dot_or_dot_dot fnm then [] else or_if_empty (ref_ext s1) (ref_ext s2) in
    without_last_dot (dir ++ (fnm ++ ext))

-- The loop of CommonPrefixLen from the index `ix` on
pub prefix_loop : ℕ → ℕ → Text → Text → ℕ
prefix_loop ix sep [] t = sep
prefix_loop ix sep (c ∷ s) [] = sep
prefix_loop ix sep (c ∷ s) (d ∷ t) =
    let on = prefix_loop (ix + 1) (if is_dir_sep_ch c then ix + 1 else sep) s t in
    if c == d then on else sep

unfoldable pub common_prefix_len : Text → Text → ℕ
unfolding prefix_loop
common_prefix_len s1 s2 = prefix_loop 0 0 s1 s2

-- IsAbsolute; `isalpha` of the C locale
abbrev pub is_alpha : ℕ → Bool
is_alpha c = leb b'a' c && leb c b'z' || leb b'A' c && leb c b'Z'

unfoldable pub is_absolute : Text → Bool
is_absolute [] = false
is_absolute (a ∷ []) = is_dir_sep_ch a
is_absolute (a ∷ b ∷ []) = false
is_absolute (a ∷ b ∷ c ∷ s) = is_alpha a && b == b':' && is_dir_sep_ch c
