-- ===== src/Macro/Run.antt =====
-- The stack of macros, and the next command of the innermost one (macro.cpp). Error messages and
-- dialogs are left out.
pub mod Stack
pub mod Program
use k_edit.Prelude.{
  ℕ, zero, suc, ◌+◌, ◌-◌, ltb, ◌==◌, ◌&&◌, ◌||◌, not, if◌then◌else◌, Bool, true, false, List, [],
  ◌∷◌, ◌++◌, length, drop, Option, none, some,
}
use k_edit.Tabs.{Text}
use k_edit.Macro.{
  Entry, new_entry, Got, exhausted, got_lit_ch, got_token, get_next_token, branch_to_label,
}

abbrev pub max_macro_nesting : ℕ
max_macro_nesting = 32

-- s_MacroRuntimeStack up to s_ixPastTOS, the innermost entry first, and s_fRtndFrom_fExecuted_macro
pub record Interpreter : Type 0 where
  pub stack : List Entry
  pub rtnd : Bool

-- PushMacroStringOk
unfoldable pub push_macro_string_ok : Text → Bool → Bool → Bool → Interpreter → Bool × Interpreter
push_macro_string_ok src breaks variable wrap st =
    if length st.stack == max_macro_nesting
    then (false, st)
    else (true, record st { stack = new_entry src breaks variable wrap ∷ st.stack })

-- PopUntilBreak by PopIsBreak
abbrev pub pop_until_break : List Entry → Bool × List Entry
pop_until_break [] = (false, [])
pop_until_break (e ∷ es) = let rest = pop_until_break es in if e.breaks then (true, es) else rest

-- CleanupPendingMacroStream, and AbortUntilBreak as far as it is about the stack
abbrev pub cleanup_pending_macro_stream : Interpreter → Interpreter
cleanup_pending_macro_stream st =
    let (rtnd, es) = pop_until_break st.stack in record { stack = es; rtnd = rtnd }

-- What a token that is no command asks for, when the command before returned `ret_val`
pub data Branch : Type 0 where
  no_branch not_taken returns taken : Branch

abbrev pub branch_of : Bool → Text → Branch
branch_of ret_val [] = no_branch
branch_of ret_val (c ∷ []) = no_branch
branch_of ret_val (c ∷ d ∷ label) =
    if (c == b':' || c == b'=' || c == b'+' || c == b'-') && d == b'>'
    then (if c == b'=' || c == b'+' && ret_val || c == b'-' && not ret_val
        then elim label [ [] ↦ returns | _ ∷ _ ↦ taken ]
        else not_taken)
    else no_branch

-- A literal's byte for the command `graphic`, or a command by its name
pub data MacroCmd (Cmd : Type 0) : Type 0 where
  macro_graphic : ℕ → MacroCmd Cmd
  named : Cmd → MacroCmd Cmd

module _ {Cmd : Type 0} (cmd_from_name : Text → Option Cmd) (ret_val : Bool) where
  -- The body of the loop of CmdFromCurMacro for a token, which is no literal's byte, where `again`
  -- goes on with an entry.
  abbrev pub on_token :
      (Entry → Option (Option (MacroCmd Cmd) × Interpreter))
      → Bool
      → List Entry
      → Text
      → Entry
      → Option (Option (MacroCmd Cmd) × Interpreter)
  on_token again rtnd es token e' =
      let st : Interpreter = record { stack = e' ∷ es; rtnd = rtnd } in
      elim (cmd_from_name token) [
        | some cmd ↦ some (some (named cmd), st)
        | none ↦ elim (branch_of ret_val token) [
          | no_branch ↦ some (none, cleanup_pending_macro_stream st)
          | not_taken ↦ again e'
          | returns ↦ some (none, record { stack = es; rtnd = e'.breaks })
          | taken ↦ elim (branch_to_label token e') [
            | some (true, e'') ↦ again e''
            | some (false, e'') ↦
                some (none, cleanup_pending_macro_stream (record st { stack = e'' ∷ es }))
            | none ↦ none
          ]
        ]
      ]

module _ {Cmd : Type 0} (cmd_from_name : Text → Option Cmd) (halted ret_val : Bool) where
  abbrev pub on_got :
      (Entry → Option (Option (MacroCmd Cmd) × Interpreter))
      → Bool
      → List Entry
      → Got × Entry
      → Option (Option (MacroCmd Cmd) × Interpreter)
  on_got again rtnd es (exhausted, e') = some (none, record { stack = es; rtnd = e'.breaks })
  on_got again rtnd es (got_lit_ch c, e') =
      let st : Interpreter = record { stack = e' ∷ es; rtnd = rtnd } in
      if halted
      then some (none, cleanup_pending_macro_stream st)
      else some (some (macro_graphic c), st)
  on_got again rtnd es (got_token token, e') =
      if halted
      then some (none, cleanup_pending_macro_stream (record { stack = e' ∷ es; rtnd = rtnd }))
      else on_token cmd_from_name ret_val again rtnd es token e'

  -- The loop for the entry `e` on the stack `es`. It may go on for ever: then no fuel is enough.
  pub cmd_loop : ℕ → Bool → Entry → List Entry → Option (Option (MacroCmd Cmd) × Interpreter)
  cmd_loop zero rtnd e es = none
  cmd_loop (suc fuel) rtnd e es = on_got (λ e'. cmd_loop fuel rtnd e' es) rtnd es (get_next_token e)

  -- CmdFromCurMacro, from an interpreter that runs a macro
  unfoldable pub cmd_from_cur_macro : ℕ → Interpreter → Option (Option (MacroCmd Cmd) × Interpreter)
  unfolding cmd_loop
  cmd_from_cur_macro fuel st = elim st.stack [ [] ↦ none | e ∷ es ↦ cmd_loop fuel st.rtnd e es ]
