-- ===== src/Strings/Searches.antt =====
-- The searches in a text (my_strutils.h).
use k_edit.Prelude.{
  ℕ, ◌+◌, ◌≤◌, not, if◌then◌else◌, Bool, false, Bool-cases, List, [], ◌∷◌, length, ◌≡◌, ◌⊎◌, refl,
  inl, inr, arith, true, ◌++◌, ap,
}
use k_edit.Tabs.{Text}
use k_edit.Strings.{span_to, cons_first, is_blank_ch, skip_blanks}

pub List-cases : (s : Text) → (s ≡ []) ⊎ ((c : ℕ) × (t : Text) × (s ≡ c ∷ t))
List-cases [] = inl refl
List-cases (c ∷ t) = inr (c, t, refl)

pub length-span_to :
    (p : ℕ → Bool) (s : Text) → length (span_to p s).0 + length (span_to p s).1 ≡ length s
length-span_to p [] = omega arith
length-span_to p (c ∷ s) = let ih = length-span_to p s in ground (arith, ih)

pub append-span_to : (p : ℕ → Bool) (s : Text) → (span_to p s).0 ++ (span_to p s).1 ≡ s
append-span_to p [] = refl
append-span_to p (c ∷ s) = elim (Bool-cases (p c)) [
  | inl here ↦ rw here
  | inr on ↦ rw on (ap (c ∷◌) (append-span_to p s))
]

-- The search stops at the end or at a byte that passes the test.
abbrev pub stops : (ℕ → Bool) → Text → Bool
stops p [] = true
stops p (c ∷ s) = p c

pub span_to-stops : (p : ℕ → Bool) (s : Text) → stops p (span_to p s).1 ≡ true
span_to-stops p [] = refl
span_to-stops p (c ∷ s) = elim (Bool-cases (p c)) [
  | inl here ↦ rw here here
  | inr on ↦ rw on (span_to-stops p s)
]

pub length-skip_blanks : (s : Text) → length (skip_blanks s) ≤ length s
length-skip_blanks [] = omega arith
length-skip_blanks (c ∷ s) = let ih = length-skip_blanks s in ground (arith, ih)

-- The longest parts of a text in which no byte passes the test
abbrev starts_field : (ℕ → Bool) → Text → Bool
starts_field p [] = false
starts_field p (c ∷ s) = not (p c)

abbrev pub fields : (ℕ → Bool) → Text → List Text
fields p [] = []
fields p (c ∷ s) =
    let rest = fields p s in
    if p c then rest else if starts_field p s then cons_first c rest else (c ∷ []) ∷ rest

pub fields-span_to :
    (p : ℕ → Bool) (c : ℕ) (s : Text)
    → p c ≡ false
    → fields p (c ∷ s) ≡ (c ∷ (span_to p s).0) ∷ fields p (span_to p s).1
fields-span_to p c [] inner = rw inner
fields-span_to p c (d ∷ s) inner = elim (Bool-cases (p d)) [
  | inl delim ↦ rw (inner, delim) (rw delim)
  | inr inner' ↦ let ih = fields-span_to p d s inner' in rw (inner, ih, inner')
]

pub fields-skip_blanks : (s : Text) → fields is_blank_ch (skip_blanks s) ≡ fields is_blank_ch s
fields-skip_blanks [] = refl
fields-skip_blanks (c ∷ s) = elim (Bool-cases (is_blank_ch c)) [
  | inl blank ↦ rw blank (fields-skip_blanks s)
  | inr other ↦ rw other (rw other)
]
