-- ===== src/Tests/Macros.antt =====
-- Runs of macros and of their interpreter at concrete inputs.
use k_edit.Prelude.{
  ℕ, ◌+◌, if◌then◌else◌, Bool, true, false, [], ◌∷◌, ◌++◌, ◌<◌, ◌⊎◌, length, map, Option, none,
  some, ◌≡◌, refl, arith,
}
use k_edit.Prelude.{text_of}
use k_edit.Tabs.{Text}
use k_edit.Strings.{eqi}
use k_edit.Macro.{
  Entry, new_entry, advanced, got_lit_ch, got_token, get_next_token, branch_to_label, answer,
  ch_get_any_macro_prompt_response,
}
use k_edit.Macro.Literals.{all_tokens, double_quotes, then_all, all_tokens-double_quotes}
use k_edit.Macro.Branches.{words, IsPlain, after_label, branch_to_label-after_label}
use k_edit.Macro.Run.{Interpreter, push_macro_string_ok, MacroCmd, named, cmd_from_cur_macro}
use k_edit.Macro.Run.Stack.{Fits, ResultFits, interpreter-Fits}
use k_edit.Macro.Run.Program.{command, run, cmd_from_cur_macro-run, cmd_from_cur_macro_returns}

-- The commands `up` and `down`
abbrev commands : Text → Option ℕ
commands name =
    if eqi name (text_of "up") then some 1 else if eqi name (text_of "down") then some 2 else none

abbrev looping : Entry
looping = new_entry (text_of " :>top up +>top down ") false false false

abbrev breaking : Entry
breaking = new_entry (text_of "down") true false false

plain_tokens :
    all_tokens 5 looping
    ≡ some (
        map got_token
          ((text_of ":>top") ∷ (text_of "up") ∷ (text_of "+>top") ∷ (text_of "down") ∷ []))
unfolding all_tokens
plain_tokens = refl

literal_and_token :
    all_tokens 6 (new_entry (text_of "up \"a\"\"b\" down") false false false)
    ≡ some (
        got_token (text_of "up")
        ∷ got_lit_ch b'a'
        ∷ got_lit_ch b'"'
        ∷ got_lit_ch b'b'
        ∷ got_token (text_of "down")
        ∷ [])
unfolding all_tokens
literal_and_token = refl

-- An empty literal gives its closing quote, and does not end.
empty_literal : all_tokens 4 (new_entry [] false true true) ≡ some (got_lit_ch b'"' ∷ [])
unfolding all_tokens
empty_literal = refl

-- A quote in a text that is wrapped as it is ends the literal.
wrapped_quote :
    all_tokens 4 (new_entry (text_of "a\"b") false true true)
    ≡ some (got_lit_ch b'a' ∷ got_token (text_of "b\"") ∷ [])
unfolding all_tokens
wrapped_quote = refl

-- Behind a prompt directive a literal is taken for a token.
literal_behind_prompt :
    all_tokens 4 (new_entry (text_of "up <y \"a\"") false false false)
    ≡ some (got_token (text_of "up") ∷ got_token (text_of "\"a\"") ∷ [])
unfolding all_tokens
literal_behind_prompt = refl

-- Where a literal follows the branch, the search starts within a literal, and may miss the label.
missed_label :
    (branch_to_label
      (text_of "=>a")
      (get_next_token (new_entry (text_of "=>a \" \" :>a up") false false false)).1)
    ≡ some (
      false,
      record {
        macro_text = (text_of "=>a \" \" :>a up");
        remain = [];
        breaks = false;
        variable_macro = false;
        inside_quot2 = true;
      },
    )
unfolding branch_to_label get_next_token
missed_label = refl

prompt :
    (ch_get_any_macro_prompt_response (new_entry (text_of "<yes up") false false false)).0
    ≡ answer b'y'
unfolding ch_get_any_macro_prompt_response
prompt = refl

branch_taken :
    run commands false true 3 (words (text_of ":>top up +>top down")) (words (text_of "+>top down"))
    ≡ some (command 1 (words (text_of "+>top down")))
unfolding run
branch_taken = refl

all_tokens-double_quotes_example :
    all_tokens (length (text_of "a\"b") + 2) (
      advanced (record looping {
        inside_quot2 = false;
        remain = b'"' ∷ (double_quotes (text_of "a\"b") ++ b'"' ∷ text_of " up");
      }))
    ≡ then_all
        (map got_lit_ch (text_of "a\"b"))
        (all_tokens 2 (advanced (record looping { inside_quot2 = false; remain = text_of " up" })))
all_tokens-double_quotes_example =
    all_tokens-double_quotes looping b'a' (text_of "\"b") (text_of " up") 2 refl

branch_to_label-after_label_example :
    (found : Bool) × (rem : Text) × (branch_to_label (text_of "=>top") looping
      ≡ some (found, record looping { remain = rem }))
    × (after_label (text_of ">top") (words looping.macro_text)
        ≡ (if found then some (words rem) else none))
    × IsPlain (record looping { remain = rem })
branch_to_label-after_label_example =
    branch_to_label-after_label (text_of "=>top") looping refl refl refl

-- The stack with the two macros
abbrev two_macros : Interpreter
two_macros = record { stack = looping ∷ breaking ∷ []; rtnd = false }

cmd_from_cur_macro-run_example :
    (rem : Text) × (cmd_from_cur_macro commands false true 3 two_macros
      ≡ some (
        some (named 1),
        record { stack = record looping { remain = rem } ∷ breaking ∷ []; rtnd = false },
      ))
    × (words rem ≡ words (text_of "+>top down"))
    × IsPlain (record looping { remain = rem })
unfolding run
cmd_from_cur_macro-run_example =
    cmd_from_cur_macro-run commands false true 3 false looping (breaking ∷ []) refl refl
      (refl, refl, refl)

cmd_from_cur_macro_returns_example :
    (r : Option (MacroCmd ℕ) × Interpreter) × (cmd_from_cur_macro commands false false 5 two_macros
      ≡ some r)
cmd_from_cur_macro_returns_example =
    cmd_from_cur_macro_returns commands false false 5 false looping (breaking ∷ []) refl refl
      (refl, refl, refl) (refl, (refl, (refl, (refl, tt)))) (omega arith)

interpreter-Fits_example :
    (((length two_macros.stack ≡ 32)
        × (push_macro_string_ok (text_of "up") false false false two_macros ≡ (false, two_macros)))
      ⊎ ((length two_macros.stack < 32)
          × ((push_macro_string_ok (text_of "up") false false false two_macros).0 ≡ true)
          × ((push_macro_string_ok (text_of "up") false false false two_macros).1.rtnd
              ≡ two_macros.rtnd)
          × ((push_macro_string_ok (text_of "up") false false false two_macros).1.stack
              ≡ new_entry (text_of "up") false false false ∷ two_macros.stack)))
    × Fits (push_macro_string_ok (text_of "up") false false false two_macros).1
    × ResultFits commands false false (cmd_from_cur_macro commands false false 5 two_macros)
interpreter-Fits_example =
    interpreter-Fits commands false false two_macros (text_of "up") false false false 5
      (omega arith)
