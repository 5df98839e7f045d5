-- ===== src/Cfx.antt =====
-- Expanding a file specification (fname_gen.cpp): CFX_to_SSG finds the environment references of a
-- text, StrSubstituterGenerator goes through the combinations of their values, and
-- CfxFilenameGenerator through the files that match each. A C string is the list of its bytes before
-- the zero byte, a pointer into it the offset with the rest of the list. The environment and the
-- matching of wildcards are parameters.
pub mod Combinations
pub mod References
pub mod Spelled
pub mod Values
pub mod Names
pub mod Entries
use k_edit.Prelude.{
  ℕ, zero, suc, ◌+◌, ◌-◌, ltb, ◌==◌, ◌&&◌, ◌||◌, not, if◌then◌else◌, Bool, true, false, List, [],
  ◌∷◌, ◌++◌, length, take, drop, get_or, map, Option, none, some,
}
use k_edit.Tabs.{Text}
use k_edit.Strings.{span_to, cons_first}

-- struct SubStrSubstituter; `values` is d_values.
pub record SubStr : Type 0 where
  pub x_repl_start : ℕ
  pub repl_len : ℕ
  pub value_idx : ℕ
  pub n_values : ℕ
  pub values : List Text

-- The two loops of its constructor: the number of values, and the values.
abbrev pub count_values : ℕ → Text → ℕ
count_values delim [] = 1
count_values delim (c ∷ s) = (if c == delim then 1 else 0) + count_values delim s

abbrev pub split_values : ℕ → Text → List Text
split_values delim [] = [] ∷ []
split_values delim (c ∷ s) =
    let rest = split_values delim s in if c == delim then [] ∷ rest else cons_first c rest

abbrev pub new_sub_str : Text → ℕ → ℕ → ℕ → SubStr
new_sub_str value delim start len = record {
  x_repl_start = start;
  repl_len = len;
  value_idx = 0;
  n_values = count_values delim value;
  values = split_values delim value;
}

-- class StrSubstituterGenerator
pub record Ssg : Type 0 where
  pub combinations_exhausted : Bool
  pub base : Text
  pub segs : List SubStr

-- NextCombination, from the last segment to the first; true when no segment could be counted up.
pub next_combination : List SubStr → List SubStr × Bool
next_combination [] = ([], true)
next_combination (s ∷ ss) =
    let (ss', carry) = next_combination ss in
    let up = suc s.value_idx in
    if not carry
    then (s ∷ ss', false)
    else if ltb up s.n_values
    then (record s { value_idx = up } ∷ ss', false)
    else (record s { value_idx = 0 } ∷ ss', true)

-- The loop of GetNextString from the offset `pos` on. The segments stand in order, so that no length
-- is negative.
pub substituted : Text → ℕ → List SubStr → Text
substituted base pos [] = drop pos base
substituted base pos (s ∷ ss) =
    let prev_lit_len = s.x_repl_start - pos in
    take prev_lit_len (drop pos base)
    ++ (get_or s.values s.value_idx [] ++ substituted base (pos + (prev_lit_len + s.repl_len)) ss)

-- GetNextString: the result, the string `st`, and the generator
unfoldable pub get_next_string : Ssg → Text → Bool × Text × Ssg
unfolding next_combination substituted
get_next_string g st =
    let (segs, carry) = next_combination g.segs in
    if g.combinations_exhausted then (false, [], g) else (
      true,
      st ++ substituted g.base 0 g.segs,
      record g { segs = segs; combinations_exhausted = carry },
    )

pub data EnvRefs : Type 0 where
  refs_none parse_err unambig mid_list leading_list : EnvRefs

-- The byte that ends the name, and the number of bytes between `$` or `%` and the name.
abbrev pub term_of : ℕ → Text → ℕ × ℕ
term_of c [] = (if c == b'%' then b'%' else b':', 0)
term_of c (d ∷ s) =
    if c == b'%'
    then (b'%', 0)
    else if d == b'('
    then (b')', 1)
    else if d == b'{'
    then (b'}', 1)
    else (b':', 0)

abbrev pub has_byte : ℕ → Text → Bool
has_byte b [] = false
has_byte b (c ∷ s) = c == b || has_byte b s

-- `xlatCh`
abbrev pub xlat_ch : ℕ → ℕ → Text → Text
xlat_ch a b [] = []
xlat_ch a b (c ∷ s) = (if c == a then b else c) ∷ xlat_ch a b s

module _ (env_sep path_max : ℕ) (getenv : Text → Option Text) where
  -- The value of the name in `pbuf`, or none if the reference stays as it is.
  abbrev pub value_of : Bool → Text → Option Text
  value_of leading pbuf = elim (getenv pbuf) [
    | none ↦
        if has_byte b'|' pbuf
        then some (xlat_ch b'|' env_sep pbuf)
        else if leading
        then some (b'.' ∷ [])
        else none
    | some [] ↦ if leading then some (b'.' ∷ []) else none
    | some (c ∷ v) ↦ some (c ∷ v)
  ]

  abbrev pub refs_after : Bool → Bool → EnvRefs → EnvRefs
  refs_after leading is_list rv =
      if leading
      then (if is_list then leading_list else unambig)
      else if is_list
      then mid_list
      else elim rv [ refs_none ↦ unambig | other ↦ other ]

  -- A reference at `start` whose bytes are `len` many: what its value adds, and the result so far.
  abbrev pub with_value : ℕ → ℕ → EnvRefs → Option Text → List SubStr × EnvRefs
  with_value start len rv none = ([], rv)
  with_value start len rv (some v) =
      (new_sub_str v env_sep start len ∷ [], refs_after (start == 0) (has_byte env_sep v) rv)

  abbrev pub one_reference : ℕ → ℕ → Text → EnvRefs → List SubStr × EnvRefs
  one_reference start len [] rv = ([], rv)
  one_reference start len (c ∷ name) rv =
      with_value start len rv (value_of (start == 0) (take path_max (c ∷ name)))

  -- The loop of CFX_to_SSG at the offset `pos`: the result and the segments added from there on. It
  -- runs at most once for each byte.
  pub cfx_loop : ℕ → ℕ → Text → EnvRefs → Option (EnvRefs × List SubStr)
  cfx_loop zero pos rest rv = none
  cfx_loop (suc fuel) pos rest rv =
      let (lit, at) = span_to (λ c. c == b'$' || c == b'%') rest in
      let start = pos + length lit in
      elim at [
        | [] ↦ some (rv, [])
        | c ∷ after ↦
            let (term, skip) = term_of c after in
            let (name, at_term) = span_to (λ d. d == term) (drop skip after) in
            let len = 1 + skip + length name + 1 in
            elim at_term [
              | [] ↦ some (parse_err, [])
              | _ ∷ rest' ↦
                  let (added, rv') = one_reference start len name rv in
                  elim (cfx_loop fuel (start + len) rest' rv') [
                    | none ↦ none
                    | some (rv'', more) ↦ some (rv'', added ++ more)
                  ]
            ]
      ]

  unfoldable pub cfx_to_ssg : Text → Option (EnvRefs × Ssg)
  unfolding cfx_loop
  cfx_to_ssg inbuf = elim (cfx_loop (length inbuf + 1) 0 inbuf refs_none) [
    | none ↦ none
    | some (rv, segs) ↦
        some (rv, record { combinations_exhausted = false; base = inbuf; segs = segs })
  ]
