-- ===== src/Kitty/Ranges.antt =====
-- The range of the codes in the tables of kitty_conin.cpp.
use k_edit.Prelude.{
  ℕ, ◌+◌, ◌-◌, ◌<◌, ◌==◌, ◌&&◌, if◌then◌else◌, Bool, true, false, Bool-cases, List, [], ◌∷◌, inl,
  inr, arith,
}
use k_edit.Kitty.Codes.{edkc_count}
use k_edit.Kitty.Variants.{KittyVariants, has_shift, has_alt, has_ctrl, or_code, apply_variants}
use k_edit.Kitty.Ascii.{
  Table, find_code, or_else, digits_and_letters, nonzero_or, alt_table, ctrl_table,
  ctrl_shift_table, alt_7bit_table, in_range, map_ascii_alt, map_ascii_ctrl, map_ascii_ctrl_shift,
  map_ascii_from_csi, map_7bit_alt_sequence,
}
use k_edit.Kitty.Keys.{Case, by_variants, by_ascii, Cases, case_code, switch_code}

abbrev pub AllLt : ℕ → List ℕ → Type 0
AllLt n [] = Unit
AllLt n (c ∷ cs) = (c < n) × AllLt n cs

or_code-lt :
    (n : ℕ) (test : Bool) (cs : List ℕ) (otherwise : ℕ)
    → AllLt n cs
    → otherwise < n
    → or_code test cs otherwise < n
or_code-lt n false cs otherwise all lt = lt
or_code-lt n true [] otherwise all lt = lt
or_code-lt n true (c ∷ cs) otherwise (first, all) lt = elim (Bool-cases (c == 0)) [
  | inl z ↦ rw z (or_code-lt n true cs otherwise all lt)
  | inr z ↦ rw z first
]

abbrev pub fields : KittyVariants → List ℕ
fields v = v.base ∷ v.shift ∷ v.alt ∷ v.ctrl ∷ v.ctrl_shift ∷ v.ctrl_alt ∷ []

apply_variants-lt :
    (n : ℕ) (v : KittyVariants) (m : ℕ) → AllLt n (fields v) → apply_variants v m < n
unfolding apply_variants
apply_variants-lt n v m (b, (s, (a, (c, (cs, (ca, end)))))) =
    or_code-lt n (has_ctrl m && has_alt m) (v.ctrl_alt ∷ v.ctrl ∷ v.alt ∷ []) _ (ca, (c, (a, tt)))
      (or_code-lt n (has_ctrl m && has_shift m) (v.ctrl_shift ∷ v.ctrl ∷ []) _ (cs, (c, tt))
        (or_code-lt n (has_ctrl m) (v.ctrl ∷ []) _ (c, tt)
          (or_code-lt n (has_alt m && has_shift m) (v.alt ∷ v.shift ∷ []) _ (a, (s, tt))
            (or_code-lt n (has_alt m) (v.alt ∷ []) _ (a, tt)
              (or_code-lt n (has_shift m) (v.shift ∷ []) v.base (s, tt) b)))))

abbrev TableLt : ℕ → Table → Type 0
TableLt n [] = Unit
TableLt n ((k, c) ∷ rest) = (c < n) × TableLt n rest

find_code-lt :
    (n ch : ℕ) (t : Table) (otherwise : ℕ)
    → TableLt n t
    → otherwise < n
    → or_else (find_code ch t) otherwise < n
unfolding find_code
find_code-lt n ch [] otherwise all lt = lt
find_code-lt n ch ((k, c) ∷ rest) otherwise (first, all) lt = elim (Bool-cases (ch == k)) [
  | inl here ↦ rw here first
  | inr on ↦ rw on (find_code-lt n ch rest otherwise all lt)
]

digits_and_letters-lt :
    (n z a ch otherwise : ℕ)
    → z + 9 < n
    → a + 25 < n
    → otherwise < n
    → digits_and_letters z a ch otherwise < n
digits_and_letters-lt n z a ch otherwise hz ha lt = ground (arith, hz, ha, lt)

map_ascii_alt-lt : (ch : ℕ) → map_ascii_alt ch < edkc_count
unfolding map_ascii_alt
map_ascii_alt-lt ch =
    find_code-lt edkc_count ch alt_table _ (omega arith)
      (digits_and_letters-lt edkc_count _ _ ch 0 (omega arith) (omega arith) (omega arith))

map_ascii_ctrl-lt : (ch : ℕ) → map_ascii_ctrl ch < edkc_count
unfolding map_ascii_ctrl
map_ascii_ctrl-lt ch =
    digits_and_letters-lt edkc_count _ _ ch _ (omega arith) (omega arith)
      (find_code-lt edkc_count ch ctrl_table 0 (omega arith) (omega arith))

map_ascii_ctrl_shift-lt : (ch : ℕ) → map_ascii_ctrl_shift ch < edkc_count
unfolding map_ascii_ctrl_shift
map_ascii_ctrl_shift-lt ch =
    digits_and_letters-lt edkc_count _ _ ch _ (omega arith) (omega arith)
      (find_code-lt edkc_count ch ctrl_shift_table 0 (omega arith) (omega arith))

pub map_7bit_alt_sequence-lt : (ch : ℕ) → map_7bit_alt_sequence ch < edkc_count
unfolding map_7bit_alt_sequence
map_7bit_alt_sequence-lt ch =
    find_code-lt edkc_count ch alt_7bit_table _ (omega arith)
      (digits_and_letters-lt edkc_count _ _ ch 0 (omega arith) (omega arith) (omega arith))

nonzero_or-lt :
    (n : ℕ) (test : Bool) (v otherwise : ℕ)
    → v < n
    → otherwise < n
    → nonzero_or test v otherwise < n
nonzero_or-lt n test v otherwise hv lt = ground (arith, hv, lt)

pub map_ascii_from_csi-lt : (ch m : ℕ) → ch < edkc_count → map_ascii_from_csi ch m < edkc_count
unfolding map_ascii_from_csi
map_ascii_from_csi-lt ch m lt =
    let plain : (if has_shift m && in_range b'a' ch b'z' then ch - 32 else ch) < edkc_count =
      ground (arith, lt) in
    nonzero_or-lt edkc_count (has_ctrl m && has_shift m) _ _ (map_ascii_ctrl_shift-lt ch) (
      nonzero_or-lt edkc_count (has_ctrl m) _ _ (map_ascii_ctrl-lt ch)
        (nonzero_or-lt edkc_count (has_alt m) _ _ (map_ascii_alt-lt ch) plain))

abbrev pub CaseLt : ℕ → Case → Type 0
CaseLt n (by_variants v) = AllLt n (fields v)
CaseLt n (by_ascii ch) = ch < n

abbrev pub CasesLt : ℕ → Cases → Type 0
CasesLt n [] = Unit
CasesLt n ((k, c) ∷ rest) = CaseLt n c × CasesLt n rest

case_code-lt : (m : ℕ) (c : Case) → CaseLt edkc_count c → case_code m c < edkc_count
case_code-lt m (by_variants v) lt = apply_variants-lt edkc_count v m lt
case_code-lt m (by_ascii ch) lt = map_ascii_from_csi-lt ch m lt

pub switch_code-lt :
    (key m : ℕ) (cs : Cases) (behind : ℕ)
    → CasesLt edkc_count cs
    → behind < edkc_count
    → switch_code key m cs behind < edkc_count
unfolding switch_code
switch_code-lt key m [] behind all lt = lt
switch_code-lt key m ((k, c) ∷ rest) behind (first, all) lt = elim (Bool-cases (key == k)) [
  | inl here ↦ rw here (case_code-lt m c first)
  | inr on ↦ rw on (switch_code-lt key m rest behind all lt)
]
