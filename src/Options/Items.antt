-- ===== src/Options/Items.antt =====
-- The elements of a command line of names and options, and what the loop of main gets from a group of
-- letters (getopt.cpp, main.cpp).
use k_edit.Prelude.{
  ℕ, zero, suc, ◌==◌, Bool, if◌then◌else◌, true, false, List, [], ◌∷◌, ◌++◌, Option, none, some,
  ◌≡◌, refl, ap, ◌∙◌,
}
use k_edit.Tabs.{Text}
use k_edit.Options.{
  Program, is_taken, Getopt, opt, blank, opt_kind, in_group, new_element, next_opt_ch, Event, file,
  option, then_event, after, main_loop,
}

-- A name, a group of option letters, and a group whose last letter takes an argument, which stands
-- behind it or in the next element
pub data Item : Type 0 where
  name : Text → Item
  letters : ℕ → Text → Item
  joined : Text → ℕ → ℕ → Text → Item
  separate : Text → ℕ → Text → Item

unfoldable pub elements : Item → List Text
elements (name s) = s ∷ []
elements (letters c s) = (b'-' ∷ c ∷ s) ∷ []
elements (joined s c a text) = (b'-' ∷ (s ++ c ∷ a ∷ text)) ∷ []
elements (separate s c text) = (b'-' ∷ (s ++ c ∷ [])) ∷ text ∷ []

abbrev pub flag : ℕ → Event
flag c = option c none

-- The events of letters, and then others
abbrev pub flags : Text → List Event → List Event
flags [] es = es
flags (c ∷ s) es = flag c ∷ flags s es

unfoldable pub events : Item → List Event
events (name s) = file (some s) ∷ []
events (letters c s) = flags (c ∷ s) []
events (joined s c a text) = flags s (option c (some (a ∷ text)) ∷ [])
events (separate s c text) = flags s (option c (some text) ∷ [])

-- A letter without an argument, other than the dash, which does not end the program
abbrev pub IsFlag : Program → ℕ → Type 0
IsFlag p c =
    (opt_kind p.letters c ≡ some false)
    × ((c == b'-') ≡ false)
    × (is_taken p.registered c none ≡ true)

abbrev pub AllFlags : Program → Text → Type 0
AllFlags p [] = Unit
AllFlags p (c ∷ s) = IsFlag p c × AllFlags p s

abbrev pub TakesArg : Program → ℕ → Text → Type 0
TakesArg p c arg =
    (opt_kind p.letters c ≡ some true)
    × ((c == b'-') ≡ false)
    × (is_taken p.registered c (some arg) ≡ true)

-- A name does not start with a dash.
abbrev pub IsName : Text → Type 0
IsName [] = Unit
IsName (c ∷ s) = (c == b'-') ≡ false

abbrev pub IsItem : Program → Item → Type 0
IsItem p (name s) = IsName s
IsItem p (letters c s) = AllFlags p (c ∷ s)
IsItem p (joined s c a text) = AllFlags p s × TakesArg p c (a ∷ text)
IsItem p (separate s c text) = AllFlags p s × TakesArg p c text

abbrev pub AreItems : Program → List Item → Type 0
AreItems p [] = Unit
AreItems p (i ∷ is) = IsItem p i × AreItems p is

abbrev pub more_fuel : List Event → ℕ → ℕ
more_fuel [] n = n
more_fuel (e ∷ es) n = suc (more_fuel es n)

abbrev pub then_events : List Event → Option (List Event) → Option (List Event)
then_events [] r = r
then_events (e ∷ es) r = then_event e (then_events es r)

-- From `g` the loop gets the events `es` and is then at `h`.
abbrev pub Gets : Program → Getopt → List Event → Getopt → Type 0
Gets p g es h = (n : ℕ) → main_loop (more_fuel es n) p g ≡ then_events es (main_loop n p h)

abbrev pub group : Text → List Text → Getopt
group s args = record { args = args; addl_opt = some s }

abbrev pub fresh : List Text → Getopt
fresh args = record { args = args; addl_opt = none }

module _ (p : Program) (rest : List Text) where
  pub one_option :
      (g h : Getopt) (c : ℕ) (arg : Option Text)
      → is_taken p.registered c arg ≡ true
      → next_opt_ch p.letters g ≡ (opt c arg, h)
      → Gets p g (option c arg ∷ []) h
  unfolding main_loop
  one_option g h c arg taken step n =
      ap (after p.registered (main_loop n p)) step
      ∙ ap (λ (b : Bool). if b then then_event (option c arg) (main_loop n p h) else none) taken

  pub one_flag :
      (e : Text) (c d : ℕ) (s : Text)
      → IsFlag p c
      → next_opt_ch p.letters (group (c ∷ d ∷ s) (e ∷ rest))
        ≡ (opt c none, group (d ∷ s) (e ∷ rest))
  unfolding in_group next_opt_ch
  one_flag e c d s (kind, _, _) = rw (next_opt_ch, in_group, kind) refl

  pub last_flag :
      (e : Text) (c : ℕ)
      → IsFlag p c
      → next_opt_ch p.letters (group (c ∷ []) (e ∷ rest)) ≡ (opt c none, fresh rest)
  unfolding in_group next_opt_ch
  last_flag e c (kind, _, _) = rw (next_opt_ch, in_group, kind) refl

  pub arg_joined :
      (e : Text) (c a : ℕ) (text : Text)
      → TakesArg p c (a ∷ text)
      → next_opt_ch p.letters (group (c ∷ a ∷ text) (e ∷ rest))
        ≡ (opt c (some (a ∷ text)), fresh rest)
  unfolding in_group next_opt_ch
  arg_joined e c a text (kind, _, _) = rw (next_opt_ch, in_group, kind) refl

  pub arg_separate :
      (e text : Text) (c : ℕ)
      → TakesArg p c text
      → next_opt_ch p.letters (group (c ∷ []) (e ∷ text ∷ rest)) ≡ (opt c (some text), fresh rest)
  unfolding in_group next_opt_ch
  arg_separate e text c (kind, _, _) = rw (next_opt_ch, in_group, kind) refl

  blank_step :
      (s : Text) → IsName s → next_opt_ch p.letters (fresh (s ∷ rest)) ≡ (blank, fresh (s ∷ rest))
  unfolding next_opt_ch new_element
  blank_step [] h = refl
  blank_step (c ∷ []) h = rw (next_opt_ch, new_element, h) refl
  blank_step (c ∷ d ∷ s) h = rw (next_opt_ch, new_element, h) refl

  pub a_name : (s : Text) → IsName s → Gets p (fresh (s ∷ rest)) (file (some s) ∷ []) (fresh rest)
  unfolding main_loop
  a_name s h n = ap (after p.registered (main_loop n p)) (blank_step s h)

-- A dash begins a group.
dashed_step :
    (p : Program) (c : ℕ) (s : Text) (rest : List Text)
    → (c == b'-') ≡ false
    → next_opt_ch p.letters (fresh ((b'-' ∷ c ∷ s) ∷ rest))
      ≡ next_opt_ch p.letters (group (c ∷ s) ((b'-' ∷ c ∷ s) ∷ rest))
unfolding next_opt_ch new_element
dashed_step p c s rest h = rw (next_opt_ch, new_element, h) refl

pub dashed :
    (p : Program) (c : ℕ) (s : Text) (rest : List Text) (n : ℕ)
    → (c == b'-') ≡ false
    → main_loop n p (fresh ((b'-' ∷ c ∷ s) ∷ rest))
      ≡ main_loop n p (group (c ∷ s) ((b'-' ∷ c ∷ s) ∷ rest))
unfolding main_loop
dashed p c s rest zero h = refl
dashed p c s rest (suc n) h = ap (after p.registered (main_loop n p)) (dashed_step p c s rest h)

-- A group of letters, and what is behind them in the element, if that gets the events `es`
pub letters_Gets :
    (p : Program) (rest : List Text) (e s : Text) (d : ℕ) (t : Text) (es : List Event) (h : Getopt)
    → AllFlags p s
    → Gets p (group (d ∷ t) (e ∷ rest)) es h
    → Gets p (group (s ++ d ∷ t) (e ∷ rest)) (flags s es) h
letters_Gets p rest e [] d t es h all last n = last n
letters_Gets p rest e (c ∷ []) d t es h (f, all) last n =
    one_option p rest (group (c ∷ d ∷ t) (e ∷ rest)) (group (d ∷ t) (e ∷ rest)) c none f.2
      (one_flag p rest e c d t f) (more_fuel es n)
    ∙ ap (then_event (flag c)) (last n)
letters_Gets p rest e (c ∷ c' ∷ s) d t es h (f, all) last n =
    one_option p rest (group (c ∷ c' ∷ (s ++ d ∷ t)) (e ∷ rest))
      (group (c' ∷ (s ++ d ∷ t)) (e ∷ rest)) c none f.2 (one_flag p rest e c c' (s ++ d ∷ t) f)
      (more_fuel (flags (c' ∷ s) es) n)
    ∙ ap (then_event (flag c)) (letters_Gets p rest e (c' ∷ s) d t es h all last n)
