-- ===== src/Macro/Branches.antt =====
-- GetNextToken and BranchToLabel (macro.cpp) on a macro that has no literal and no prompt directive,
-- against the list of its words.
use k_edit.Prelude.{
  ℕ, zero, suc, ◌+◌, ◌<◌, ◌==◌, ◌&&◌, ◌||◌, not, if◌then◌else◌, Bool, true, false, Bool-cases, List,
  [], ◌∷◌, length, drop, Option, none, some, ◌≡◌, ◌⊎◌, refl, sym, ap, ◌∙◌, inl, inr, arith,
}
use k_edit.Tabs.{Text}
use k_edit.Strings.{span_to, is_blank_ch, skip_blanks}
use k_edit.Strings.Searches.{
  fields, fields-span_to, fields-skip_blanks, length-span_to, length-skip_blanks,
}
use k_edit.Macro.Tokens.{starts_blank, skip_blanks-starts_blank}
use k_edit.Macro.{
  Entry, starts_with, exhausted, got_token, get_next_token, is_label, find_label, branch_to_label,
}

-- No byte opens a literal or a prompt directive.
abbrev pub is_plain : Text → Bool
is_plain [] = true
is_plain (c ∷ s) = not (c == b'"' || c == b'<') && is_plain s

abbrev pub words : Text → List Text
words s = fields is_blank_ch s

-- Outside a literal, with a plain rest that does not start with a blank
abbrev pub IsPlain : Entry → Type 0
IsPlain e = (e.inside_quot2 ≡ false) × (is_plain e.remain ≡ true) × (starts_blank e.remain ≡ false)

is_plain-skip_blanks : (s : Text) → is_plain s ≡ true → is_plain (skip_blanks s) ≡ true
is_plain-skip_blanks [] plain = refl
is_plain-skip_blanks (c ∷ s) plain = let ih = is_plain-skip_blanks s in ground (arith, plain, ih)

is_plain-span_to : (s : Text) → is_plain s ≡ true → is_plain (span_to is_blank_ch s).1 ≡ true
is_plain-span_to [] plain = refl
is_plain-span_to (c ∷ s) plain = let ih = is_plain-span_to s in ground (arith, plain, ih)

is_plain-starts_with : (s : Text) → is_plain s ≡ true → starts_with b'"' s ≡ false
is_plain-starts_with [] plain = refl
is_plain-starts_with (c ∷ s) plain = ground (arith, plain)

is_plain-tail : (c : ℕ) (s : Text) → is_plain (c ∷ s) ≡ true → is_plain s ≡ true
is_plain-tail c s plain = ground (arith, plain)

-- A call gives the first word, or finds the macro exhausted.
abbrev pub TakesWord : Entry → Type 0
TakesWord e =
    ((words e.remain ≡ []) × (get_next_token e ≡ (exhausted, record e { remain = [] })))
    ⊎ ((word : Text) × (rem : Text) × (words e.remain ≡ word ∷ words rem)
        × (get_next_token e ≡ (got_token word, record e { remain = rem }))
        × (is_plain rem ≡ true)
        × (starts_blank rem ≡ false)
        × (length rem < length e.remain))

plain_token :
    (e : Entry) (rem : Text)
    → e.inside_quot2 ≡ false
    → is_plain rem ≡ true
    → starts_blank rem ≡ false
    → TakesWord (record e { remain = rem })
unfolding get_next_token
plain_token e [] outside plain at = inl (refl, rw outside)
plain_token e (c ∷ s) outside plain at =
    let behind = (span_to is_blank_ch s).1 in
    let quote =
      is_plain-starts_with (skip_blanks behind)
        (is_plain-skip_blanks behind (is_plain-span_to s (is_plain-tail c s plain))) in
    let prompt : (c == b'<') ≡ false = ground (arith, plain) in
    inr (
      c ∷ (span_to is_blank_ch s).0,
      skip_blanks behind,
      fields-span_to is_blank_ch c s at
          ∙ ap (λ fs. (c ∷ (span_to is_blank_ch s).0) ∷ fs) (sym (fields-skip_blanks behind)),
      rw (outside, prompt, at) (rw quote),
      is_plain-skip_blanks behind (is_plain-span_to s (is_plain-tail c s plain)),
      skip_blanks-starts_blank behind,
      omega (arith, length-skip_blanks behind, length-span_to is_blank_ch s),
    )

pub takes_word : (e : Entry) → IsPlain e → TakesWord e
takes_word e (outside, plain, at) = plain_token e e.remain outside plain at

-- The words behind the first one that is the label
abbrev pub after_label : Text → List Text → Option (List Text)
after_label label [] = none
after_label label (w ∷ ws) =
    let later = after_label label ws in if is_label label (got_token w) then some ws else later

-- On fuel above the length of the remainder the search stops behind the first such word, if there is
-- one, and otherwise at the end.
find_label-after_label :
    (fuel : ℕ) (label : Text) (e : Entry)
    → IsPlain e
    → length e.remain < fuel
    → (found : Bool) × (rem : Text) × (find_label fuel label e
        ≡ some (found, record e { remain = rem }))
      × (after_label label (words e.remain) ≡ (if found then some (words rem) else none))
      × IsPlain (record e { remain = rem })
unfolding find_label
find_label-after_label zero label e plain lt = absurd (omega (arith, lt))
find_label-after_label (suc fuel) label e (outside, plain, at) lt =
    elim (takes_word e (outside, plain, at)) [
      | inl (ended, got) ↦ (
        false,
        [],
        rw (find_label, got) (ap (λ r. some (false, r.1)) got),
        rw ended,
        (outside, refl, refl),
      )
      | inr (word, rem, first, got, plain', at', fewer) ↦
          elim (Bool-cases (is_label label (got_token word))) [
            | inl hit ↦ (
              true,
              rem,
              rw (find_label, got, hit) (ap (λ r. some (true, r.1)) got),
              rw (first, hit),
              (outside, plain', at'),
            )
            | inr miss ↦
                let (found, rem', later, after, plain'') =
                  find_label-after_label fuel label (record e { remain = rem })
                    (outside, plain', at') (omega (arith, lt, fewer)) in
                (
                  found,
                  rem',
                  rw (find_label, got, miss) (ap (λ r. find_label fuel label r.1) got ∙ later),
                  rw (first, miss) after,
                  plain'',
                )
          ]
    ]

-- Outside a literal, on a macro text that is plain and starts with no blank: BranchToLabel ends. It
-- finds the label if a word of the text is it, and the remainder is then the words behind the first
-- such word.
pub branch_to_label-after_label :
    (br_tok : Text) (e : Entry)
    → e.inside_quot2 ≡ false
    → is_plain e.macro_text ≡ true
    → starts_blank e.macro_text ≡ false
    → (found : Bool) × (rem : Text) × (branch_to_label br_tok e
        ≡ some (found, record e { remain = rem }))
      × (after_label (drop 1 br_tok) (words e.macro_text)
          ≡ (if found then some (words rem) else none))
      × IsPlain (record e { remain = rem })
unfolding branch_to_label
branch_to_label-after_label br_tok e outside plain at =
    find_label-after_label (length e.macro_text + 1) (drop 1 br_tok)
      (record e { remain = e.macro_text }) (outside, plain, at) (omega arith)
