-- ===== src/Macro/Literals.antt =====
-- Literals in a macro (macro.cpp): what GetNextToken makes of a text in double quotes.
use k_edit.Prelude.{
  ℕ, zero, suc, ◌+◌, ◌==◌, ==_iff, if◌then◌else◌, Bool, true, false, Bool-cases, List, [], ◌∷◌,
  ◌++◌, length, map, Option, none, some, Option-cases, ◌≡◌, refl, sym, ap, ◌∙◌, inl, inr, arith,
  append-nil,
}
use k_edit.Tabs.{Text}
use k_edit.Macro.{
  Entry, starts_with, non_escaped_quot2, advanced, new_entry, Got, exhausted, got_lit_ch, got_token,
  get_next_token,
}

-- What calls of GetNextToken give, until one finds the macro exhausted
unfoldable pub all_tokens : ℕ → Entry → Option (List Got)
unfolding get_next_token
all_tokens zero e = none
all_tokens (suc fuel) e =
    let (got, e') = get_next_token e in
    let rest = all_tokens fuel e' in
    elim got [
      | exhausted ↦ some []
      | got_lit_ch c ↦ elim rest [ none ↦ none | some gots ↦ some (got_lit_ch c ∷ gots) ]
      | got_token t ↦ elim rest [ none ↦ none | some gots ↦ some (got_token t ∷ gots) ]
    ]

abbrev pub then_all : List Got → Option (List Got) → Option (List Got)
then_all gots none = none
then_all gots (some more) = some (gots ++ more)

-- A text as it stands in a literal
abbrev pub double_quotes : Text → Text
double_quotes [] = []
double_quotes (c ∷ s) = let rest = double_quotes s in if c == b'"' then c ∷ c ∷ rest else c ∷ rest

-- In a literal at the byte `c`, which another follows
abbrev in_literal : Entry → Text → Text → Entry
in_literal e src rest = record e { inside_quot2 = true; remain = double_quotes src ++ b'"' ∷ rest }

abbrev behind_literal : Entry → Text → Entry
behind_literal e rest = advanced (record e { inside_quot2 = false; remain = rest })

non_escaped_quot2-other :
    (d : ℕ) (s : Text) → (d == b'"') ≡ false → non_escaped_quot2 (d ∷ s) ≡ false
non_escaped_quot2-other d [] other = other
non_escaped_quot2-other d (c ∷ s) other = rw other

next_in_literal :
    (e : Entry) (c d : ℕ) (src rest : Text)
    → get_next_token (in_literal e (c ∷ d ∷ src) rest) ≡ (got_lit_ch c, in_literal e (d ∷ src) rest)
unfolding get_next_token
next_in_literal e c d src rest = elim (Bool-cases (c == b'"')) [
  | inl quote ↦ elim (Bool-cases (d == b'"')) [
    | inl quote' ↦ rw ((==_iff c b'"').0 quote, (==_iff d b'"').0 quote')
    | inr other' ↦ rw (
      (==_iff c b'"').0 quote,
      other',
      non_escaped_quot2-other d (double_quotes src ++ b'"' ∷ rest) other',
    )
  ]
  | inr other ↦ elim (Bool-cases (d == b'"')) [
    | inl quote' ↦ rw (other, (==_iff d b'"').0 quote') (rw other)
    | inr other' ↦
        rw (other, other')
          (rw (other, non_escaped_quot2-other d (double_quotes src ++ b'"' ∷ rest) other'))
  ]
]

last_in_literal :
    (e : Entry) (c : ℕ) (rest : Text)
    → starts_with b'"' rest ≡ false
    → get_next_token (in_literal e (c ∷ []) rest) ≡ (got_lit_ch c, behind_literal e rest)
unfolding get_next_token
last_in_literal e c [] other = elim (Bool-cases (c == b'"')) [
  | inl quote ↦ rw ((==_iff c b'"').0 quote)
  | inr plain ↦ rw plain (rw plain)
]
last_in_literal e c (d ∷ rest) other = elim (Bool-cases (c == b'"')) [
  | inl quote ↦ rw ((==_iff c b'"').0 quote, other)
  | inr plain ↦ rw plain (rw (plain, other))
]

all_tokens-literal :
    (fuel : ℕ) (e e' : Entry) (c : ℕ)
    → get_next_token e ≡ (got_lit_ch c, e')
    → all_tokens (suc fuel) e ≡ then_all (got_lit_ch c ∷ []) (all_tokens fuel e')
unfolding all_tokens
all_tokens-literal fuel e e' c got = elim (Option-cases (all_tokens fuel e')) [
  | inl out ↦ rw (all_tokens, got, ap (λ r. all_tokens fuel r.1) got, out)
  | inr (gots, ok) ↦ rw (all_tokens, got, ap (λ r. all_tokens fuel r.1) got, ok)
]

then_all-then_all :
    (got : Got) (gots : List Got) (more : Option (List Got))
    → then_all (got ∷ []) (then_all gots more) ≡ then_all (got ∷ gots) more
then_all-then_all got gots none = refl
then_all-then_all got gots (some more) = refl

literal_tokens :
    (e : Entry) (c : ℕ) (src rest : Text) (fuel : ℕ)
    → starts_with b'"' rest ≡ false
    → all_tokens (length (c ∷ src) + fuel) (in_literal e (c ∷ src) rest)
      ≡ then_all (map got_lit_ch (c ∷ src)) (all_tokens fuel (behind_literal e rest))
literal_tokens e c [] rest fuel other =
    let one : suc fuel ≡ 1 + fuel = omega arith in
    rw⁻¹ one (
      all_tokens-literal fuel (in_literal e (c ∷ []) rest) (behind_literal e rest) c
        (last_in_literal e c rest other))
literal_tokens e c (d ∷ src) rest fuel other =
    let one : suc (length (d ∷ src) + fuel) ≡ length (c ∷ d ∷ src) + fuel = omega arith in
    let first =
      all_tokens-literal (length (d ∷ src) + fuel) (in_literal e (c ∷ d ∷ src) rest)
        (in_literal e (d ∷ src) rest) c (next_in_literal e c d src rest) in
    let others = literal_tokens e d src rest fuel other in
    ap (λ n. all_tokens n (in_literal e (c ∷ d ∷ src) rest)) (sym one)
    ∙ (first
        ∙ (ap (then_all (got_lit_ch c ∷ [])) others
            ∙ then_all-then_all (got_lit_ch c) (map got_lit_ch (d ∷ src))
                (all_tokens fuel (behind_literal e rest))))

-- In a macro that goes on with a literal, behind whose closing quote no quote stands: if the text of
-- the literal, its quotes doubled, is not empty, the calls of GetNextToken give its bytes one by one,
-- and then what they give behind the literal.
pub all_tokens-double_quotes :
    (e : Entry) (c : ℕ) (src rest : Text) (fuel : ℕ)
    → starts_with b'"' rest ≡ false
    → all_tokens (length (c ∷ src) + fuel) (
        advanced (record e {
          inside_quot2 = false;
          remain = b'"' ∷ (double_quotes (c ∷ src) ++ b'"' ∷ rest);
        }))
      ≡ then_all
          (map got_lit_ch (c ∷ src))
          (all_tokens fuel (advanced (record e { inside_quot2 = false; remain = rest })))
all_tokens-double_quotes e c src rest fuel other = literal_tokens e c src rest fuel other

-- A text that is not empty, its quotes doubled, that is pushed as a wrapped literal: the calls of
-- GetNextToken give its bytes one by one, and then find the macro exhausted.
pub all_tokens-new_entry :
    (c : ℕ) (src : Text) (breaks variable : Bool)
    → all_tokens (length (c ∷ src) + 1) (new_entry (double_quotes (c ∷ src)) breaks variable true)
      ≡ some (map got_lit_ch (c ∷ src))
unfolding all_tokens
all_tokens-new_entry c src breaks variable =
    let text = b'"' ∷ (double_quotes (c ∷ src) ++ b'"' ∷ []) in
    let e : Entry = record {
      macro_text = text;
      remain = text;
      breaks = breaks;
      variable_macro = variable;
      inside_quot2 = false;
    } in
    all_tokens-double_quotes e c src [] 1 refl ∙ ap some (append-nil (map got_lit_ch (c ∷ src)))
