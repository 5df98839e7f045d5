-- ===== src/Options.antt =====
-- The options of the command line: class Getopt (getopt.cpp, getopt.h), and the loop of main (main.cpp)
-- that takes them.
pub mod Items
pub mod Events
use k_edit.Prelude.{
  ℕ, zero, suc, ◌==◌, ◌||◌, Bool, true, false, if◌then◌else◌, List, [], ◌∷◌, Option, none, some,
  text_of,
}
use k_edit.Tabs.{Text}
use k_edit.Strings.{eqi}
use k_edit.Cfx.{has_byte}

-- d_argv from d_argi on, and d_pAddlOpt
pub record Getopt : Type 0 where
  pub args : List Text
  pub addl_opt : Option Text

-- What NextOptCh returns, with d_pOptarg: an option; a blank, where an argument is left that is no option;
-- 0 at the end; or an error, which VErrorOut ends the program with
pub data Got : Type 0 where
  opt : ℕ → Option Text → Got
  blank at_end invalid missing : Got

abbrev pub tail_of : List Text → List Text
tail_of [] = []
tail_of (a ∷ more) = more

-- NOT_AN_OPTION
abbrev pub not_an_option : List Text → Got × Getopt
not_an_option [] = (at_end, record { args = []; addl_opt = none })
not_an_option (a ∷ more) = (blank, record { args = a ∷ more; addl_opt = none })

abbrev starts_colon : Text → Bool
starts_colon [] = false
starts_colon (c ∷ s) = c == b':'

-- strchr( d_pOptSet, ch ), and whether the letter takes an argument
unfoldable pub opt_match : Text → ℕ → Option Bool
opt_match [] ch = none
opt_match (c ∷ s) ch = let rest = opt_match s ch in if c == ch then some (starts_colon s) else rest

unfoldable pub opt_kind : Text → ℕ → Option Bool
unfolding opt_match
opt_kind optset ch = if ch == b':' then none else opt_match optset ch

-- The option letter `ch` takes an argument: the rest of the element, or else the next element.
abbrev pub with_arg : ℕ → Text → List Text → Got × Getopt
with_arg ch (c ∷ s) args = (opt ch (some (c ∷ s)), record { args = tail_of args; addl_opt = none })
with_arg ch [] [] = (missing, record { args = []; addl_opt = none })
with_arg ch [] (a ∷ []) = (missing, record { args = []; addl_opt = none })
with_arg ch [] (a ∷ b ∷ more) = (opt ch (some b), record { args = more; addl_opt = none })

abbrev pub without_arg : ℕ → Text → List Text → Got × Getopt
without_arg ch [] args = (opt ch none, record { args = tail_of args; addl_opt = none })
without_arg ch (c ∷ s) args = (opt ch none, record { args = args; addl_opt = some (c ∷ s) })

-- The part of NextOptCh behind the switch character
pub in_group : Text → Text → List Text → Got × Getopt
unfolding opt_kind
in_group optset [] args = not_an_option (tail_of args)
in_group optset (ch ∷ more) args = elim (opt_kind optset ch) [
  | none ↦ (invalid, record { args = args; addl_opt = some more })
  | some takes_arg ↦ if takes_arg then with_arg ch more args else without_arg ch more args
]

-- An element where no group is begun
pub new_element : Text → Text → List Text → Got × Getopt
unfolding in_group
new_element optset [] args = not_an_option args
new_element optset (c ∷ []) args = if c == b'-' then in_group optset [] args else not_an_option args
new_element optset (c ∷ d ∷ s) args =
    if c == b'-'
    then (if d == b'-' then not_an_option (tail_of args) else in_group optset (d ∷ s) args)
    else not_an_option args

pub next_opt_ch : Text → Getopt → Got × Getopt
unfolding in_group new_element
next_opt_ch optset g = elim g.args [
  | [] ↦ not_an_option []
  | a ∷ more ↦ elim g.addl_opt [
    | some o ↦ in_group optset o (a ∷ more)
    | none ↦ new_element optset a (a ∷ more)
  ]
]

-- nextarg
abbrev pub nextarg : Getopt → Option Text × Getopt
nextarg g = elim g.args [ [] ↦ (none, g) | a ∷ more ↦ (some a, record g { args = more }) ]

-- What the loop of main is given
pub data Event : Type 0 where
  file : Option Text → Event
  option : ℕ → Option Text → Event

abbrev pub then_event : Event → Option (List Event) → Option (List Event)
then_event e r = elim r [ none ↦ none | some es ↦ some (e ∷ es) ]

pub data BackendId : Type 0 where
  ncurses kitty : BackendId

-- The letters of the options, and the backends for input that the build has
pub record Program : Type 0 where
  pub letters : Text
  pub registered : BackendId → Bool

abbrev pub select_backend : (BackendId → Bool) → Option Text → Bool
select_backend registered none = false
select_backend registered (some arg) =
    if eqi arg (text_of "ncurses")
    then registered ncurses
    else if eqi arg (text_of "kitty")
    then registered kitty
    else false

-- The cases of the switch of main that do not end the program; those for `?`, `h` and any other letter do.
abbrev pub is_taken : (BackendId → Bool) → ℕ → Option Text → Bool
is_taken registered ch arg =
    if ch == b'I' then select_backend registered arg else has_byte ch (text_of "acdentvx")

-- A round of the loop of main, and then the others; `none` is an error, which ends the program, or the
-- lack of fuel.
abbrev pub after :
    (BackendId → Bool) → (Getopt → Option (List Event)) → Got × Getopt → Option (List Event)
after registered loop (opt ch arg, g) =
    if is_taken registered ch arg then then_event (option ch arg) (loop g) else none
after registered loop (blank, g) = then_event (file (nextarg g).0) (loop (nextarg g).1)
after registered loop (at_end, g) = some []
after registered loop (invalid, g) = none
after registered loop (missing, g) = none

unfoldable pub main_loop : ℕ → Program → Getopt → Option (List Event)
unfolding next_opt_ch
main_loop zero p g = none
main_loop (suc n) p g = after p.registered (main_loop n p) (next_opt_ch p.letters g)
