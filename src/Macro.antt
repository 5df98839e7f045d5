-- ===== src/Macro.antt =====
-- The interpreter of macros (macro.cpp, namespace Interpreter). A macro is a text of tokens between
-- blanks and of literals in double quotes; a quote in a literal is doubled, as
-- MACRO_BACKSLASH_ESCAPES is 0. Commands, the user's requests to halt, and the result of the command
-- before are parameters.
pub mod Tokens
pub mod Literals
pub mod Branches
pub mod Run
use k_edit.Prelude.{
  ℕ, zero, suc, ◌+◌, ◌-◌, ltb, ◌==◌, ◌&&◌, ◌||◌, not, if◌then◌else◌, Bool, true, false, List, [],
  ◌∷◌, ◌++◌, length, drop, Option, none, some,
}
use k_edit.Tabs.{Text}
use k_edit.Strings.{span_to, is_blank_ch, skip_blanks, trimmed, eqi}

-- class MacroRuntimeStkEntry; d_runFlags is two Booleans.
pub record Entry : Type 0 where
  pub macro_text : Text
  pub remain : Text
  pub breaks : Bool
  pub variable_macro : Bool
  pub inside_quot2 : Bool

abbrev pub starts_with : ℕ → Text → Bool
starts_with b [] = false
starts_with b (c ∷ s) = c == b

-- NON_ESCAPED_QUOT2
abbrev pub non_escaped_quot2 : Text → Bool
non_escaped_quot2 [] = false
non_escaped_quot2 (c ∷ []) = c == b'"'
non_escaped_quot2 (c ∷ d ∷ s) = c == b'"' && not (d == b'"')

-- Advance from its label TO_NXT_TOK on, and the whole: whether it is in a literal, and the remainder
abbrev pub to_nxt_tok : Text → Bool × Text
to_nxt_tok rem =
    let next = skip_blanks rem in
    if starts_with b'"' next then (true, drop 1 next) else (false, next)

abbrev pub advance : Bool → Text → Bool × Text
advance inside rem =
    if inside
    then (if non_escaped_quot2 rem then to_nxt_tok (drop 1 rem) else (true, rem))
    else to_nxt_tok rem

abbrev pub advanced : Entry → Entry
advanced e =
    let (inside, rem) = advance e.inside_quot2 e.remain in
    record e { inside_quot2 = inside; remain = rem }

-- Ctor: the text, whether it breaks, whether it is a variable macro, whether it is wrapped
abbrev pub new_entry : Text → Bool → Bool → Bool → Entry
new_entry src breaks variable wrap =
    let text = if wrap then b'"' ∷ (src ++ b'"' ∷ []) else trimmed src in
    advanced (record {
      macro_text = text;
      remain = text;
      breaks = breaks;
      variable_macro = variable;
      inside_quot2 = false;
    })

-- The loop that skips prompt directives, each of which takes a byte at least, so that it ends within
-- as many rounds as there are bytes.
abbrev pub skip_prompts : ℕ → Text → Text
skip_prompts zero rem = rem
skip_prompts (suc fuel) rem =
    let behind = skip_prompts fuel (skip_blanks (span_to is_blank_ch rem).1) in
    if starts_with b'<' rem then behind else rem

pub data Got : Type 0 where
  exhausted : Got
  got_lit_ch : ℕ → Got
  got_token : Text → Got

-- GetNextToken with eGot and `dest` as one value
abbrev pub literal_ch : Entry → Text → Got × Entry
literal_ch e [] = (exhausted, record e { remain = [] })
literal_ch e (c ∷ []) = (got_lit_ch c, advanced (record e { remain = [] }))
literal_ch e (c ∷ d ∷ s) =
    if c == b'"' && d == b'"'
    then (got_lit_ch d, advanced (record e { remain = s }))
    else (got_lit_ch c, advanced (record e { remain = d ∷ s }))

abbrev pub token_of : Entry → Text → Got × Entry
token_of e [] = (exhausted, record e { remain = [] })
token_of e (c ∷ s) =
    let (token, behind) = span_to is_blank_ch (c ∷ s) in
    (got_token token, advanced (record e { remain = behind }))

unfoldable pub get_next_token : Entry → Got × Entry
get_next_token e =
    if e.inside_quot2
    then literal_ch e e.remain
    else token_of e (skip_prompts (length e.remain) e.remain)

-- The loop of BranchToLabel for `>label`. Each round takes a byte at least.
abbrev pub is_label : Text → Got → Bool
is_label label exhausted = false
is_label label (got_lit_ch c) = false
is_label label (got_token []) = false
is_label label (got_token (c ∷ t)) = c == b':' && ltb 0 (length t) && eqi label t

pub find_label : ℕ → Text → Entry → Option (Bool × Entry)
unfolding get_next_token
find_label zero label e = none
find_label (suc fuel) label e =
    let (got, e') = get_next_token e in
    elim got [
      | exhausted ↦ some (false, e')
      | got_lit_ch c ↦ find_label fuel label e'
      | got_token t ↦
          if is_label label (got_token t) then some (true, e') else find_label fuel label e'
    ]

-- BranchToLabel. Whether it stands in a literal is left as it is.
unfoldable pub branch_to_label : Text → Entry → Option (Bool × Entry)
unfolding find_label
branch_to_label br_tok e =
    find_label (length e.macro_text + 1) (drop 1 br_tok) (record e { remain = e.macro_text })

-- chGetAnyMacroPromptResponse of an entry, whose values AskUser and UseDflt are below 0
pub data PromptResponse : Type 0 where
  ask_user use_dflt : PromptResponse
  answer : ℕ → PromptResponse

abbrev pub prompt_of : Entry → Text → PromptResponse × Entry
prompt_of e [] = (use_dflt, e)
prompt_of e (c ∷ []) = (if c == b'<' then ask_user else use_dflt, e)
prompt_of e (c ∷ d ∷ s) =
    if c == b'<'
    then (if is_blank_ch d
        then (ask_user, e)
        else (answer d, record e { remain = skip_blanks (span_to is_blank_ch (c ∷ d ∷ s)).1 }))
    else (use_dflt, e)

unfoldable pub ch_get_any_macro_prompt_response : Entry → PromptResponse × Entry
ch_get_any_macro_prompt_response e = if e.inside_quot2 then (ask_user, e) else prompt_of e e.remain
