-- ===== src/Tests/Starting.antt =====
-- Command lines (getopt.cpp, main.cpp).
use k_edit.Prelude.{true, false, suc, ◌+◌, List, length, [], ◌∷◌, some, none, ◌≡◌, refl, text_of}
use k_edit.Options.{Program, ncurses, kitty, file, option, opt_kind, main_loop}
use k_edit.Options.Items.{Item, name, letters, joined, separate, AreItems}
use k_edit.Options.Events.{elements_of, events_of, main_loop-events_of}

-- The letters of main, and a build with the backend ncurses alone
abbrev program : Program
program = record {
  letters = text_of "acde:h?nt:vx:I:";
  registered = λ b. elim b [ ncurses ↦ true | kitty ↦ false ];
}

abbrev command_line : List Item
command_line =
    letters b'c' (b'v' ∷ [])
    ∷ name (text_of "f.c")
    ∷ joined (b'd' ∷ []) b't' b'x' []
    ∷ separate [] b'e' (text_of "A=1")
    ∷ []

spelled :
    elements_of command_line
    ≡ text_of "-cv" ∷ text_of "f.c" ∷ text_of "-dtx" ∷ text_of "-e" ∷ text_of "A=1" ∷ []
unfolding elements_of
spelled = refl

-- Two dashes keep one element from being an option, and not the others.
two_dashes :
    main_loop 3 program
      (record { args = text_of "--" ∷ text_of "-c" ∷ text_of "-v" ∷ []; addl_opt = none })
    ≡ some (file (some (text_of "-c")) ∷ option b'v' none ∷ [])
unfolding main_loop
two_dashes = refl

unknown : main_loop 9 program (record { args = text_of "-cz" ∷ []; addl_opt = none }) ≡ none
unfolding main_loop
unknown = refl

no_argument : main_loop 9 program (record { args = text_of "-ce" ∷ []; addl_opt = none }) ≡ none
unfolding main_loop
no_argument = refl

-- The text about the options ends the program, and so does a backend that is not there.
usage :
    main_loop 9 program (record { args = text_of "-h" ∷ text_of "f" ∷ []; addl_opt = none }) ≡ none
unfolding main_loop
usage = refl

no_backend : main_loop 9 program (record { args = text_of "-Ikitty" ∷ []; addl_opt = none }) ≡ none
unfolding main_loop
no_backend = refl

backend :
    main_loop 9 program (record { args = text_of "-INcurses" ∷ []; addl_opt = none })
    ≡ some (option b'I' (some (text_of "Ncurses")) ∷ [])
unfolding main_loop
backend = refl

command_line-AreItems : AreItems program command_line
unfolding opt_kind
command_line-AreItems = (
  ((refl, refl, refl), ((refl, refl, refl), tt)),
  (refl, ((((refl, refl, refl), tt), (refl, refl, refl)), ((tt, (refl, refl, refl)), tt))),
)

main_loop-events_of_example :
    main_loop
      (length (events_of command_line) + suc 0)
      program
      (record { args = elements_of command_line; addl_opt = none })
    ≡ some (events_of command_line)
main_loop-events_of_example = main_loop-events_of program command_line 0 command_line-AreItems
