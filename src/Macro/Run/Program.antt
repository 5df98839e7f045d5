-- ===== src/Macro/Run/Program.antt =====
-- CmdFromCurMacro (macro.cpp) on a macro that has no literal and no prompt directive, as a program
-- whose instructions are the words of the macro.
use k_edit.Prelude.{
  ℕ, zero, suc, ◌<◌, if◌then◌else◌, Bool, true, false, Bool-cases, List, [], ◌∷◌, length, drop,
  Option, none, some, Option-cases, ◌≡◌, refl, ap, ◌∙◌, subst, inl, inr, arith,
}
use k_edit.Tabs.{Text}
use k_edit.Macro.{Entry, branch_to_label}
use k_edit.Macro.Tokens.{starts_blank}
use k_edit.Macro.Branches.{
  is_plain, words, IsPlain, takes_word, after_label, branch_to_label-after_label,
}
use k_edit.Macro.Run.Stack.{Branch-cases}
use k_edit.Macro.Run.{
  Interpreter, cleanup_pending_macro_stream, Branch, no_branch, not_taken, returns, taken,
  branch_of, MacroCmd, named, on_token, cmd_loop, cmd_from_cur_macro,
}

-- What a run of the program ends with: a command, with the words behind it, the end of the macro, or
-- an error or a halt.
pub data Outcome (Cmd : Type 0) : Type 0 where
  command : Cmd → List Text → Outcome Cmd
  ends : Outcome Cmd
  aborts : Outcome Cmd

-- The interpreter's result is that of the program.
abbrev pub Agrees :
    {Cmd : Type 0}
    → Bool
    → Entry
    → List Entry
    → Option (Option (MacroCmd Cmd) × Interpreter)
    → Option (Outcome Cmd)
    → Type 0
Agrees rtnd e es result none = result ≡ none
Agrees rtnd e es result (some (command cmd rest)) =
    (rem : Text) × (result
      ≡ some (some (named cmd), record { stack = record e { remain = rem } ∷ es; rtnd = rtnd }))
    × (words rem ≡ rest)
    × IsPlain (record e { remain = rem })
Agrees rtnd e es result (some ends) = result ≡ some (none, record { stack = es; rtnd = e.breaks })
Agrees rtnd e es result (some aborts) =
    result ≡ some (none, cleanup_pending_macro_stream (record { stack = e ∷ es; rtnd = rtnd }))

module _ {Cmd : Type 0} (cmd_from_name : Text → Option Cmd) (ret_val : Bool) where
  -- A word is a command, a label that is passed, or a branch; `again` goes on with other words.
  abbrev pub on_word :
      (List Text → Option (Outcome Cmd)) → List Text → Text → List Text → Option (Outcome Cmd)
  on_word again all w rest = elim (cmd_from_name w) [
    | some cmd ↦ some (command cmd rest)
    | none ↦ elim (branch_of ret_val w) [
      | no_branch ↦ some aborts
      | not_taken ↦ again rest
      | returns ↦ some ends
      | taken ↦ elim (after_label (drop 1 w) all) [ none ↦ some aborts | some rest' ↦ again rest' ]
    ]
  ]

  branch_to_label-Agrees :
      (again : Entry → Option (Option (MacroCmd Cmd) × Interpreter))
      (run_again : List Text → Option (Outcome Cmd)) (rtnd : Bool) (e : Entry) (rem : Text)
      (es : List Entry) (word : Text)
      → is_plain e.macro_text ≡ true
      → starts_blank e.macro_text ≡ false
      → IsPlain (record e { remain = rem })
      → ((rem' : Text)
          → IsPlain (record e { remain = rem' })
          → Agrees rtnd e es (again (record e { remain = rem' })) (run_again (words rem')))
      → Agrees rtnd e es
          (elim (branch_to_label word (record e { remain = rem })) [
            | some (true, e'') ↦ again e''
            | some (false, e'') ↦
                some (none, cleanup_pending_macro_stream (record { stack = e'' ∷ es; rtnd = rtnd }))
            | none ↦ none
          ])
          (elim (after_label (drop 1 word) (words e.macro_text)) [
            | none ↦ some aborts
            | some rest' ↦ run_again rest'
          ])
  branch_to_label-Agrees again run_again rtnd e rem es word plain at plain' goes_on =
      let (found, rem', f, after, plain'') =
        branch_to_label-after_label word (record e { remain = rem }) plain'.0 plain at in
      elim (Bool-cases found) [
        | inl hit ↦
            rw
              (
                f ∙ ap (λ b. some (b, record e { remain = rem' })) hit,
                after ∙ ap (λ b. if b then some (words rem') else none) hit,
              )
              (goes_on rem' plain'')
        | inr missing ↦ rw (
          f ∙ ap (λ b. some (b, record e { remain = rem' })) missing,
          after ∙ ap (λ b. if b then some (words rem') else none) missing,
        )
      ]

  on_token-Agrees :
      (again : Entry → Option (Option (MacroCmd Cmd) × Interpreter))
      (run_again : List Text → Option (Outcome Cmd)) (rtnd : Bool) (e : Entry) (rem : Text)
      (es : List Entry) (word : Text)
      → is_plain e.macro_text ≡ true
      → starts_blank e.macro_text ≡ false
      → IsPlain (record e { remain = rem })
      → ((rem' : Text)
          → IsPlain (record e { remain = rem' })
          → Agrees rtnd e es (again (record e { remain = rem' })) (run_again (words rem')))
      → Agrees rtnd e es
          (on_token cmd_from_name ret_val again rtnd es word (record e { remain = rem }))
          (on_word run_again (words e.macro_text) word (words rem))
  on_token-Agrees again run_again rtnd e rem es word plain at plain' goes_on =
      elim (Option-cases (cmd_from_name word)) [
        | inr (cmd, known) ↦ rw (on_token, on_word, known) (rem, refl, refl, plain')
        | inl unknown ↦ elim (Branch-cases (branch_of ret_val word)) [
          | inl none_such ↦ rw (on_token, on_word, unknown, none_such)
          | inr (inl passed) ↦ rw (on_token, on_word, unknown, passed) (goes_on rem plain')
          | inr (inr (inl leaves)) ↦ rw (on_token, on_word, unknown, leaves)
          | inr (inr (inr goes)) ↦
              rw (on_token, on_word, unknown, goes)
                (branch_to_label-Agrees again run_again rtnd e rem es word plain at plain' goes_on)
        ]
      ]

module _ {Cmd : Type 0} (cmd_from_name : Text → Option Cmd) (halted ret_val : Bool) where
  -- The program `all` from the words `rest` on
  unfoldable pub run : ℕ → List Text → List Text → Option (Outcome Cmd)
  run zero all rest = none
  run (suc fuel) all [] = some ends
  run (suc fuel) all (w ∷ rest) =
      if halted then some aborts else on_word cmd_from_name ret_val (run fuel all) all w rest

  cmd_loop-run :
      (fuel : ℕ) (rtnd : Bool) (e : Entry) (rem : Text) (es : List Entry)
      → is_plain e.macro_text ≡ true
      → starts_blank e.macro_text ≡ false
      → IsPlain (record e { remain = rem })
      → Agrees rtnd e es
          (cmd_loop cmd_from_name halted ret_val fuel rtnd (record e { remain = rem }) es)
          (run fuel (words e.macro_text) (words rem))
  unfolding cmd_loop run
  cmd_loop-run zero rtnd e rem es plain at plain' = refl
  cmd_loop-run (suc fuel) rtnd e rem es plain at plain' =
      elim (takes_word (record e { remain = rem }) plain') [
        | inl (ended, got) ↦ rw (cmd_loop, got, run, ended)
        | inr (word, rem', first, got, plain'', at'', fewer) ↦
            let token =
              on_token-Agrees cmd_from_name ret_val
                (λ e'. cmd_loop cmd_from_name halted ret_val fuel rtnd e' es)
                (run fuel (words e.macro_text)) rtnd e rem' es word plain at
                (plain'.0, plain'', at'') (λ r p. cmd_loop-run fuel rtnd e r es plain at p) in
            elim (Bool-cases halted) [
              | inl halt ↦ rw (cmd_loop, got, run, first, halt)
              | inr going ↦ rw (cmd_loop, got, run, first, going) token
            ]
      ]

  -- Outside a literal, in a plain macro: on any fuel CmdFromCurMacro does what the program does that
  -- the words of the macro are. Where that gives a command, the macro goes on behind its word; where
  -- it ends, the macro is taken off the stack; where it aborts, the macros up to the innermost one
  -- that breaks are. Neither returns on too little fuel.
  pub cmd_from_cur_macro-run :
      (fuel : ℕ) (rtnd : Bool) (e : Entry) (es : List Entry)
      → is_plain e.macro_text ≡ true
      → starts_blank e.macro_text ≡ false
      → IsPlain e
      → Agrees rtnd e es
          (cmd_from_cur_macro cmd_from_name halted ret_val fuel
            (record { stack = e ∷ es; rtnd = rtnd }))
          (run fuel (words e.macro_text) (words e.remain))
  unfolding cmd_from_cur_macro
  cmd_from_cur_macro-run fuel rtnd e es plain at plain' =
      cmd_loop-run fuel rtnd e e.remain es plain at plain'

  -- No word is a branch that is taken.
  abbrev is_taken : Branch → Bool
  is_taken taken = true
  is_taken _ = false

  abbrev pub IsStraight : List Text → Type 0
  IsStraight [] = Unit
  IsStraight (w ∷ ws) = (is_taken (branch_of ret_val w) ≡ false) × IsStraight ws

  run_ends :
      (fuel : ℕ) (all rest : List Text)
      → IsStraight rest
      → length rest < fuel
      → (out : Outcome Cmd) × (run fuel all rest ≡ some out)
  unfolding run
  run_ends zero all rest straight lt = absurd (omega (arith, lt))
  run_ends (suc fuel) all [] straight lt = (ends, refl)
  run_ends (suc fuel) all (w ∷ rest) (straight, straight') lt = elim (Bool-cases halted) [
    | inl halt ↦ (aborts, rw (run, halt))
    | inr going ↦ elim (Option-cases (cmd_from_name w)) [
      | inr (cmd, known) ↦ (command cmd rest, rw (run, going, on_word, known))
      | inl unknown ↦ elim (Branch-cases (branch_of ret_val w)) [
        | inl none_such ↦ (aborts, rw (run, going, on_word, unknown, none_such))
        | inr (inl passed) ↦
            let (out, later) = run_ends fuel all rest straight' (omega (arith, lt)) in
            (out, rw (run, going, on_word, unknown, passed) later)
        | inr (inr (inl leaves)) ↦ (ends, rw (run, going, on_word, unknown, leaves))
        | inr (inr (inr goes)) ↦ absurd (cc (straight, ap is_taken goes))
      ]
    ]
  ]

  Agrees-some :
      (rtnd : Bool) (e : Entry) (es : List Entry)
      (result : Option (Option (MacroCmd Cmd) × Interpreter)) (out : Outcome Cmd)
      → Agrees rtnd e es result (some out)
      → (r : Option (MacroCmd Cmd) × Interpreter) × (result ≡ some r)
  Agrees-some rtnd e es result (command cmd rest) (rem, same, behind, plain) =
      ((some (named cmd), record { stack = record e { remain = rem } ∷ es; rtnd = rtnd }), same)
  Agrees-some rtnd e es result ends same = ((none, record { stack = es; rtnd = e.breaks }), same)
  Agrees-some rtnd e es result aborts same =
      ((none, cleanup_pending_macro_stream (record { stack = e ∷ es; rtnd = rtnd })), same)

  -- Outside a literal, in a plain macro in whose remaining words no branch is taken: CmdFromCurMacro
  -- returns on fuel above the number of these words.
  pub cmd_from_cur_macro_returns :
      (fuel : ℕ) (rtnd : Bool) (e : Entry) (es : List Entry)
      → is_plain e.macro_text ≡ true
      → starts_blank e.macro_text ≡ false
      → IsPlain e
      → IsStraight (words e.remain)
      → length (words e.remain) < fuel
      → (r : Option (MacroCmd Cmd) × Interpreter) × (cmd_from_cur_macro cmd_from_name halted ret_val
            fuel
            (record { stack = e ∷ es; rtnd = rtnd })
          ≡ some r)
  cmd_from_cur_macro_returns fuel rtnd e es plain at plain' straight lt =
      let (out, ended) = run_ends fuel (words e.macro_text) (words e.remain) straight lt in
      let result =
        cmd_from_cur_macro cmd_from_name halted ret_val fuel
          (record { stack = e ∷ es; rtnd = rtnd }) in
      Agrees-some rtnd e es result out (
        subst (Agrees rtnd e es result) ended
          (cmd_from_cur_macro-run fuel rtnd e es plain at plain'))
