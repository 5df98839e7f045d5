-- ===== src/Macro/Run/Stack.antt =====
-- The depth of the stack of macros (macro.cpp), and what an abort takes off it.
use k_edit.Prelude.{
  ℕ, zero, suc, ◌≤◌, ◌<◌, ◌==◌, Bool, true, false, Bool-cases, List, [], ◌∷◌, ◌++◌, length, Option,
  none, some, Option-cases, ◌≡◌, ◌⊎◌, refl, ap, inl, inr, arith,
}
use k_edit.Tabs.{Text}
use k_edit.Macro.{
  Entry, new_entry, Got, exhausted, got_lit_ch, got_token, get_next_token, branch_to_label,
}
use k_edit.Macro.Run.{
  max_macro_nesting, Interpreter, push_macro_string_ok, pop_until_break, Branch, no_branch,
  not_taken, returns, taken, branch_of, MacroCmd, on_token, on_got, cmd_loop, cmd_from_cur_macro,
}

pub Branch-cases :
    (b : Branch) → (b ≡ no_branch) ⊎ ((b ≡ not_taken) ⊎ ((b ≡ returns) ⊎ (b ≡ taken)))
Branch-cases no_branch = inl refl
Branch-cases not_taken = inr (inl refl)
Branch-cases returns = inr (inr (inl refl))
Branch-cases taken = inr (inr (inr refl))

-- None of the macros breaks.
abbrev pub NoBreak : List Entry → Type 0
NoBreak [] = Unit
NoBreak (e ∷ es) = (e.breaks ≡ false) × NoBreak es

-- What is above a macro that breaks, that macro, and what is below; or no macro breaks.
pub pop_until_break_lem :
    (es : List Entry)
    → ((above : List Entry) × (e : Entry) × (below : List Entry) × (es ≡ above ++ e ∷ below)
        × NoBreak above
        × (e.breaks ≡ true)
        × (pop_until_break es ≡ (true, below)))
      ⊎ (NoBreak es × (pop_until_break es ≡ (false, [])))
pop_until_break_lem [] = inr (tt, refl)
pop_until_break_lem (e ∷ es) = elim (Bool-cases e.breaks) [
  | inl breaks ↦ inl ([], e, es, refl, tt, breaks, rw breaks)
  | inr passes ↦ elim (pop_until_break_lem es) [
    | inl (above, e', below, split, none_above, breaks, popped) ↦ inl (
      e ∷ above,
      e',
      below,
      ap (λ l. e ∷ l) split,
      (passes, none_above),
      breaks,
      rw passes popped,
    )
    | inr (none_there, popped) ↦ inr ((passes, none_there), rw passes popped)
  ]
]

length-pop_until_break : (es : List Entry) → length (pop_until_break es).1 ≤ length es
length-pop_until_break [] = omega arith
length-pop_until_break (e ∷ es) = let ih = length-pop_until_break es in ground (arith, ih)

-- Not deeper than the array has room for
abbrev pub Fits : Interpreter → Type 0
Fits st = length st.stack ≤ max_macro_nesting

-- The result of a loop, if there is one, is at most as deep as it was.
abbrev NoDeeper :
    {Cmd : Type 0} → List Entry → Option (Option (MacroCmd Cmd) × Interpreter) → Type 0
NoDeeper es none = Unit
NoDeeper es (some (cmd, st)) = length st.stack ≤ suc (length es)

module _ {Cmd : Type 0} (cmd_from_name : Text → Option Cmd) (halted ret_val : Bool) where
  on_token-NoDeeper :
      (again : Entry → Option (Option (MacroCmd Cmd) × Interpreter)) (rtnd : Bool) (es : List Entry)
      (token : Text) (e : Entry)
      → ((e' : Entry) → NoDeeper es (again e'))
      → NoDeeper es (on_token cmd_from_name ret_val again rtnd es token e)
  on_token-NoDeeper again rtnd es token e goes_on = elim (Option-cases (cmd_from_name token)) [
    | inr (cmd, known) ↦ rw (on_token, known) (omega arith)
    | inl unknown ↦ elim (Branch-cases (branch_of ret_val token)) [
      | inl none_such ↦ rw (on_token, unknown, none_such) (length-pop_until_break (e ∷ es))
      | inr (inl passed) ↦ rw (on_token, unknown, passed) (goes_on e)
      | inr (inr (inl leaves)) ↦ rw (on_token, unknown, leaves) (omega arith)
      | inr (inr (inr goes)) ↦ elim (Option-cases (branch_to_label token e)) [
        | inl lost ↦ rw (on_token, unknown, goes, lost) tt
        | inr ((true, e'), found) ↦ rw (on_token, unknown, goes, found) (goes_on e')
        | inr ((false, e'), missing) ↦
            rw (on_token, unknown, goes, missing) (length-pop_until_break (e' ∷ es))
      ]
    ]
  ]

  on_got-NoDeeper :
      (again : Entry → Option (Option (MacroCmd Cmd) × Interpreter)) (rtnd : Bool) (es : List Entry)
      (got : Got) (e : Entry)
      → ((e' : Entry) → NoDeeper es (again e'))
      → NoDeeper es (on_got cmd_from_name halted ret_val again rtnd es (got, e))
  on_got-NoDeeper again rtnd es exhausted e goes_on = omega arith
  on_got-NoDeeper again rtnd es (got_lit_ch c) e goes_on = elim (Bool-cases halted) [
    | inl halt ↦ rw halt (length-pop_until_break (e ∷ es))
    | inr going ↦ rw going (omega arith)
  ]
  on_got-NoDeeper again rtnd es (got_token token) e goes_on = elim (Bool-cases halted) [
    | inl halt ↦ rw halt (length-pop_until_break (e ∷ es))
    | inr going ↦ rw going (on_token-NoDeeper again rtnd es token e goes_on)
  ]

  cmd_loop-NoDeeper :
      (fuel : ℕ) (rtnd : Bool) (e : Entry) (es : List Entry)
      → NoDeeper es (cmd_loop cmd_from_name halted ret_val fuel rtnd e es)
  unfolding cmd_loop
  cmd_loop-NoDeeper zero rtnd e es = tt
  cmd_loop-NoDeeper (suc fuel) rtnd e es =
      on_got-NoDeeper (λ e'. cmd_loop cmd_from_name halted ret_val fuel rtnd e' es) rtnd es
        (get_next_token e).0 (get_next_token e).1 (λ e'. cmd_loop-NoDeeper fuel rtnd e' es)

  -- The stack of a result, if there is one, fits.
  abbrev pub ResultFits : Option (Option (MacroCmd Cmd) × Interpreter) → Type 0
  ResultFits none = Unit
  ResultFits (some (cmd, st)) = Fits st

  NoDeeper-ResultFits :
      (es : List Entry) (result : Option (Option (MacroCmd Cmd) × Interpreter))
      → suc (length es) ≤ max_macro_nesting
      → NoDeeper es result
      → ResultFits result
  NoDeeper-ResultFits es none fits no_deeper = tt
  NoDeeper-ResultFits es (some (cmd, st)) fits no_deeper = omega (arith, fits, no_deeper)

  cmd_from_cur_macro-Fits :
      (fuel : ℕ) (rtnd : Bool) (es : List Entry)
      → length es ≤ max_macro_nesting
      → ResultFits (
          cmd_from_cur_macro cmd_from_name halted ret_val fuel (record { stack = es; rtnd = rtnd }))
  unfolding cmd_from_cur_macro
  cmd_from_cur_macro-Fits fuel rtnd [] fits = tt
  cmd_from_cur_macro-Fits fuel rtnd (e ∷ es) fits =
      NoDeeper-ResultFits es (cmd_loop cmd_from_name halted ret_val fuel rtnd e es) fits
        (cmd_loop-NoDeeper fuel rtnd e es)

  -- PushMacroStringOk, on a stack that fits the array: where the array is full, it returns false and
  -- changes nothing; otherwise it returns true and puts the new macro on top. The stack fits the array
  -- afterwards, and also after CmdFromCurMacro, where that returns.
  pub interpreter-Fits :
      (st : Interpreter) (src : Text) (breaks variable wrap : Bool) (fuel : ℕ)
      → Fits st
      → (((length st.stack ≡ 32) × (push_macro_string_ok src breaks variable wrap st ≡ (false, st)))
          ⊎ ((length st.stack < 32)
              × ((push_macro_string_ok src breaks variable wrap st).0 ≡ true)
              × ((push_macro_string_ok src breaks variable wrap st).1.rtnd ≡ st.rtnd)
              × ((push_macro_string_ok src breaks variable wrap st).1.stack
                  ≡ new_entry src breaks variable wrap ∷ st.stack)))
        × Fits (push_macro_string_ok src breaks variable wrap st).1
        × ResultFits (cmd_from_cur_macro cmd_from_name halted ret_val fuel st)
  unfolding push_macro_string_ok cmd_from_cur_macro
  interpreter-Fits st src breaks variable wrap fuel fits =
      let kept = cmd_from_cur_macro-Fits fuel st.rtnd st.stack fits in
      elim (Bool-cases (length st.stack == 32)) [
        | inl full ↦
            let e : length st.stack ≡ 32 = ground (arith, full) in
            rw full (inl (e, refl), fits, kept)
        | inr room ↦
            let lt : length st.stack < 32 = ground (arith, room, fits) in
            rw room (inr (lt, refl, refl, refl), omega (arith, lt), kept)
      ]
