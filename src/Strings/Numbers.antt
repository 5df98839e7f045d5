-- ===== src/Strings/Numbers.antt =====
-- conv_u (my_strutils.cpp), which reads an unsigned number in a base from 2 to 36. uintmax_t has 64
-- bits. A view whose length wraps around is `none`.
pub mod Digits
pub mod Spelled
use k_edit.Prelude.{
  ℕ, ◌+◌, ◌-◌, ◌*◌, ◌%◌, ◌^◌, ◌≤◌, ◌<◌, ltb, leb, ◌==◌, ◌&&◌, ◌||◌, if◌then◌else◌, Bool, true,
  false, [], ◌∷◌, ◌++◌, length, take, drop, Option, none, some, ◌≡◌, refl, sym, ap, ◌∙◌, arith,
}
use native.Mathlib.Nat.{mod-eq_of_lt, mul-le-mul_left}
use k_edit.Tabs.{Text}
use k_edit.Tabs.Expand.Segment.{take_all}
use k_edit.Strings.{is_blank_ch, to_lower}

pub data Errno : Type 0 where
  no_error edom erange : Errno

-- The variables of conv_u_; `skip` holds at the second byte of a prefix, which the loop's `it` is
-- moved past.
pub record Conv : Type 0 where
  pub errno : Errno
  pub rv : ℕ
  pub base : ℕ
  pub o_first : Option ℕ
  pub o_last : Option ℕ
  pub skip : Bool

pub data Step : Type 0 where
  goes_on : Conv → Step
  stops_at : Conv → Step
  err_nothing : Step

-- The index of a byte in `v2v`
abbrev pub digit_value : ℕ → Option ℕ
digit_value c =
    let l = to_lower c in
    if leb b'0' c && leb c b'9'
    then some (c - b'0')
    else if leb b'a' l && leb l b'z'
    then some (l - b'a' + 10)
    else none

abbrev pub is_leading : Conv → Bool
is_leading st = elim st.o_first [ none ↦ true | some i ↦ false ]

-- isBasePrefix at the byte `c`, behind which `s` stands; `xfix` is in lower case
abbrev pub is_base_prefix : ℕ → ℕ → ℕ → ℕ → Text → Bool
is_base_prefix bs xfix base c [] = false
is_base_prefix bs xfix base c (d ∷ s) =
    (base == 10 || bs == base) && c == b'0' && (d == xfix || d == xfix - 32)

abbrev pub digit_step : ℕ → Option ℕ → Conv → Step
digit_step ix none st = if is_leading st then err_nothing else stops_at st
digit_step ix (some v) st =
    let rv' = (st.rv * st.base + v) % 2 ^ 64 in
    let st' : Conv = record st {
      rv = rv';
      o_last = some ix;
      o_first = if is_leading st then some ix else st.o_first;
    } in
    if ltb (st.base - 1) v
    then (if is_leading st then err_nothing else stops_at st)
    else if ltb rv' st.rv
    then stops_at (record st' { errno = erange })
    else goes_on st'

-- The body of the loop at the index `ix`
abbrev pub conv_step : ℕ → ℕ → Text → Conv → Step
conv_step ix c s st =
    if st.skip
    then goes_on (record st { skip = false })
    else if is_leading st && is_blank_ch c
    then goes_on st
    else if is_leading st && is_base_prefix 16 b'x' st.base c s
    then goes_on (record st { o_first = some (ix + 2); base = 16; skip = true })
    else if is_leading st && is_base_prefix 2 b'b' st.base c s
    then goes_on (record st { o_first = some (ix + 2); base = 2; skip = true })
    else digit_step ix (digit_value c) st

-- `none` is the jump to ERR_NOTHING.
pub conv_loop : ℕ → Text → Conv → Option Conv
conv_loop ix [] st = some st
conv_loop ix (c ∷ s) st = elim (conv_step ix c s st) [
  | goes_on st' ↦ conv_loop (ix + 1) s st'
  | stops_at st' ↦ some st'
  | err_nothing ↦ none
]

pub record ConvUResult : Type 0 where
  pub error_number : Errno
  pub value : ℕ
  pub converted : Option Text
  pub base : ℕ

abbrev pub conv_result : Text → ℕ → Option Conv → ConvUResult
conv_result sr base none = record {
  error_number = edom;
  value = 0;
  converted = some [];
  base = base;
}
conv_result sr base (some st) = elim st.o_first [
  | none ↦ record { error_number = edom; value = 0; converted = some []; base = base }
  | some first ↦ record {
    error_number = st.errno;
    value = st.rv;
    converted = elim st.o_last [
      | none ↦ none
      | some last ↦ some (take (last + 1 - first) (drop first sr))
    ];
    base = st.base;
  }
]

-- conv_u by conv_u_
unfoldable pub conv_u : Text → ℕ → ConvUResult
unfolding conv_loop
conv_u sr base =
    if ltb base 2 || ltb 36 base
    then record { error_number = edom; value = 0; converted = some []; base = base }
    else conv_result sr base (
        conv_loop 0 sr (record {
          errno = no_error;
          rv = 0;
          base = base;
          o_first = none;
          o_last = none;
          skip = false;
        }))
