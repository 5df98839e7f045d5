-- ===== src/Macro/Tokens.antt =====
-- The state between two calls of GetNextToken (macro.cpp), and what a call takes off the remainder.
use k_edit.Prelude.{
  ℕ, zero, suc, ◌≤◌, ◌<◌, ◌==◌, ◌&&◌, if◌then◌else◌, Bool, true, false, Bool-cases, [], ◌∷◌, ◌++◌,
  length, drop, length-drop, ◌≡◌, refl, subst, inl, inr, arith,
}
use k_edit.Tabs.{Text}
use k_edit.Strings.{span_to, is_blank_ch, skip_blanks, trimmed}
use k_edit.Strings.Searches.{length-span_to, length-skip_blanks}
use k_edit.Macro.{
  Entry, starts_with, non_escaped_quot2, to_nxt_tok, advance, new_entry, skip_prompts, Got,
  exhausted, got_lit_ch, got_token, literal_ch, token_of, get_next_token,
}

abbrev pub starts_blank : Text → Bool
starts_blank [] = false
starts_blank (c ∷ s) = is_blank_ch c

-- Outside a literal the remainder stands at a token.
abbrev pub IsAtToken : Bool × Text → Type 0
IsAtToken (true, rem) = Unit
IsAtToken (false, rem) = starts_blank rem ≡ false

abbrev pub IsAdvanced : Entry → Type 0
IsAdvanced e = IsAtToken (e.inside_quot2, e.remain)

pub skip_blanks-starts_blank : (s : Text) → starts_blank (skip_blanks s) ≡ false
skip_blanks-starts_blank [] = refl
skip_blanks-starts_blank (c ∷ s) = let ih = skip_blanks-starts_blank s in ground (arith, ih)

to_nxt_tok_lem :
    (rem : Text) → IsAtToken (to_nxt_tok rem) × (length (to_nxt_tok rem).1 ≤ length rem)
to_nxt_tok_lem rem =
    let at = skip_blanks-starts_blank rem in
    let le = length-skip_blanks rem in
    elim (Bool-cases (starts_with b'"' (skip_blanks rem))) [
      | inl quote ↦ rw quote (tt, omega (arith, length-drop 1 (skip_blanks rem), le))
      | inr other ↦ rw other (at, le)
    ]

advance_lem :
    (inside : Bool) (rem : Text)
    → IsAtToken (advance inside rem) × (length (advance inside rem).1 ≤ length rem)
advance_lem false rem = to_nxt_tok_lem rem
advance_lem true rem = elim (Bool-cases (non_escaped_quot2 rem)) [
  | inl closed ↦
      let (at, le) = to_nxt_tok_lem (drop 1 rem) in
      rw closed (at, omega (arith, length-drop 1 rem, le))
  | inr inner ↦ rw inner (tt, omega arith)
]

skip_prompts_lem :
    (fuel : ℕ) (rem : Text)
    → starts_blank rem ≡ false
    → (starts_blank (skip_prompts fuel rem) ≡ false) × (length (skip_prompts fuel rem) ≤ length rem)
skip_prompts_lem zero rem at = (at, omega arith)
skip_prompts_lem (suc fuel) rem at =
    let behind = (span_to is_blank_ch rem).1 in
    let (ih, le) = skip_prompts_lem fuel (skip_blanks behind) (skip_blanks-starts_blank behind) in
    let le' = length-skip_blanks behind in
    let le'' = length-span_to is_blank_ch rem in ground (arith, ih, le, le', le'', at)

-- No directive is left, as there are rounds enough.
pub skip_prompts-starts_with :
    (fuel : ℕ) (rem : Text)
    → length rem ≤ fuel
    → starts_blank rem ≡ false
    → starts_with b'<' (skip_prompts fuel rem) ≡ false
skip_prompts-starts_with zero [] le at = refl
skip_prompts-starts_with zero (c ∷ rem) le at = absurd (omega (arith, le))
skip_prompts-starts_with (suc fuel) [] le at = refl
skip_prompts-starts_with (suc fuel) (c ∷ rem) le at =
    let behind = (span_to is_blank_ch rem).1 in
    let ih =
      skip_prompts-starts_with fuel (skip_blanks behind)
        (omega (arith, le, length-skip_blanks behind, length-span_to is_blank_ch rem))
        (skip_blanks-starts_blank behind) in
    ground (arith, at, ih)

-- What a call gives, and that it takes bytes off
abbrev pub Shrinks : Entry → Got → Entry → Type 0
Shrinks e exhausted e' = e'.remain ≡ []
Shrinks e (got_lit_ch c) e' = length e'.remain < length e.remain
Shrinks e (got_token t) e' = (length e'.remain < length e.remain) × (0 < length t)

literal_ch_lem :
    (e : Entry) (rem : Text)
    → e.inside_quot2 ≡ true
    → e.remain ≡ rem
    → IsAdvanced (literal_ch e rem).1 × Shrinks e (literal_ch e rem).0 (literal_ch e rem).1
literal_ch_lem e [] inside same = rw inside (tt, refl)
literal_ch_lem e (c ∷ []) inside same =
    let (at, le) = advance_lem e.inside_quot2 [] in (at, rw same (omega (arith, le)))
literal_ch_lem e (c ∷ d ∷ s) inside same =
    let (at, le) = advance_lem e.inside_quot2 s in
    let (at', le') = advance_lem e.inside_quot2 (d ∷ s) in
    elim (Bool-cases (c == b'"' && d == b'"')) [
      | inl both ↦ rw (both, same) (at, omega (arith, le))
      | inr one ↦ rw (one, same) (at', omega (arith, le'))
    ]

token_of_lem :
    (e : Entry) (rem : Text)
    → e.inside_quot2 ≡ false
    → starts_blank rem ≡ false
    → length rem ≤ length e.remain
    → IsAdvanced (token_of e rem).1 × Shrinks e (token_of e rem).0 (token_of e rem).1
token_of_lem e [] inside at le = (rw inside refl, refl)
token_of_lem e (c ∷ s) inside at le =
    let behind = (span_to is_blank_ch s).1 in
    let (at', le') = advance_lem e.inside_quot2 behind in
    let total = length-span_to is_blank_ch s in
    rw at (at', (omega (arith, le, le', total), omega arith))

got_lem :
    (e : Entry) (inside : Bool)
    → e.inside_quot2 ≡ inside
    → IsAdvanced e
    → let r =
        if inside
        then literal_ch e e.remain
        else token_of e (skip_prompts (length e.remain) e.remain) in
      IsAdvanced r.1 × Shrinks e r.0 r.1
got_lem e true inside at = literal_ch_lem e e.remain inside refl
got_lem e false outside at =
    let here : starts_blank e.remain ≡ false = subst (λ b. IsAtToken (b, e.remain)) outside at in
    let (behind, le) = skip_prompts_lem (length e.remain) e.remain here in
    token_of_lem e (skip_prompts (length e.remain) e.remain) outside behind le

-- A call leaves the remainder at a token or in a literal. Either the macro is exhausted, or the
-- remainder has got shorter, and a token is not empty.
pub get_next_token_lem :
    (e : Entry)
    → IsAdvanced e
    → IsAdvanced (get_next_token e).1 × Shrinks e (get_next_token e).0 (get_next_token e).1
unfolding get_next_token
get_next_token_lem e at = got_lem e e.inside_quot2 refl at

pub new_entry-IsAdvanced :
    (src : Text) (breaks variable wrap : Bool) → IsAdvanced (new_entry src breaks variable wrap)
new_entry-IsAdvanced src breaks variable wrap =
    (advance_lem false (if wrap then b'"' ∷ (src ++ b'"' ∷ []) else trimmed src)).0
