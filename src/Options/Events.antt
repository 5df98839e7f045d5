-- ===== src/Options/Events.antt =====
-- The events that the loop of main gets from a command line of names and options (getopt.cpp, main.cpp).
use k_edit.Prelude.{
  ℕ, suc, ◌+◌, length, ◌==◌, false, List, [], ◌∷◌, ◌++◌, Option, none, some, ◌≡◌, refl, sym, ap,
  ◌∙◌, arith,
}
use k_edit.Tabs.{Text}
use k_edit.Options.{Program, Getopt, next_opt_ch, Event, option, then_event, main_loop}
use k_edit.Options.Items.{
  Item, name, letters, joined, separate, elements, events, IsItem, AreItems, AllFlags, flag, flags,
  more_fuel, then_events, Gets, group, fresh, one_option, one_flag, last_flag, arg_joined,
  arg_separate, a_name, dashed, letters_Gets,
}

all_letters_Gets :
    (p : Program) (rest : List Text) (e : Text) (c : ℕ) (s : Text)
    → AllFlags p (c ∷ s)
    → Gets p (group (c ∷ s) (e ∷ rest)) (flags (c ∷ s) []) (fresh rest)
all_letters_Gets p rest e c [] (f, all) n =
    one_option p rest (group (c ∷ []) (e ∷ rest)) (fresh rest) c none f.2 (last_flag p rest e c f) n
all_letters_Gets p rest e c (d ∷ s) (f, all) n =
    one_option p rest (group (c ∷ d ∷ s) (e ∷ rest)) (group (d ∷ s) (e ∷ rest)) c none f.2
      (one_flag p rest e c d s f) (more_fuel (flags (d ∷ s) []) n)
    ∙ ap (then_event (flag c)) (all_letters_Gets p rest e d s all n)

-- The first letter behind the dash is no dash.
dashed_group :
    (p : Program) (s : Text) (c : ℕ) (t : Text) (rest : List Text) (es : List Event) (h : Getopt)
    → AllFlags p s
    → (c == b'-') ≡ false
    → Gets p (group (s ++ c ∷ t) ((b'-' ∷ (s ++ c ∷ t)) ∷ rest)) es h
    → Gets p (fresh ((b'-' ∷ (s ++ c ∷ t)) ∷ rest)) es h
dashed_group p [] c t rest es h all no_dash gets n =
    dashed p c t rest (more_fuel es n) no_dash ∙ gets n
dashed_group p (d ∷ s) c t rest es h ((_, no_dash, _), all) _ gets n =
    dashed p d (s ++ c ∷ t) rest (more_fuel es n) no_dash ∙ gets n

item_Gets :
    (p : Program) (rest : List Text) (i : Item)
    → IsItem p i
    → Gets p (fresh (elements i ++ rest)) (events i) (fresh rest)
unfolding elements events
item_Gets p rest (name s) ok = a_name p rest s ok
item_Gets p rest (letters c s) ok = λ n.
    dashed p c s rest (more_fuel (flags (c ∷ s) []) n) ok.0.1
    ∙ all_letters_Gets p rest (b'-' ∷ c ∷ s) c s ok n
item_Gets p rest (joined s c a text) (all, arg) =
    let e = b'-' ∷ (s ++ c ∷ a ∷ text) in
    let es = option c (some (a ∷ text)) ∷ [] in
    dashed_group p s c (a ∷ text) rest (flags s es) (fresh rest) all arg.1 (
      letters_Gets p rest e s c (a ∷ text) es (fresh rest) all (
        one_option p rest (group (c ∷ a ∷ text) (e ∷ rest)) (fresh rest) c (some (a ∷ text)) arg.2
          (arg_joined p rest e c a text arg)))
item_Gets p rest (separate s c text) (all, arg) =
    let e = b'-' ∷ (s ++ c ∷ []) in
    let es = option c (some text) ∷ [] in
    dashed_group p s c [] (text ∷ rest) (flags s es) (fresh rest) all arg.1 (
      letters_Gets p (text ∷ rest) e s c [] es (fresh rest) all (
        one_option p rest (group (c ∷ []) (e ∷ text ∷ rest)) (fresh rest) c (some text) arg.2
          (arg_separate p rest e text c arg)))

unfoldable pub elements_of : List Item → List Text
unfolding elements
elements_of [] = []
elements_of (i ∷ is) = elements i ++ elements_of is

unfoldable pub events_of : List Item → List Event
unfolding events
events_of [] = []
events_of (i ∷ is) = events i ++ events_of is

Gets-append :
    (p : Program) (g h k : Getopt) (es es' : List Event)
    → Gets p g es h
    → Gets p h es' k
    → Gets p g (es ++ es') k
Gets-append p g h k es es' first second n =
    ap (λ m. main_loop m p g) (fuel es n)
    ∙ first (more_fuel es' n)
    ∙ ap (then_events es) (second n)
    ∙ sym (joint es (main_loop n p k))
  where
    fuel : (xs : List Event) (m : ℕ) → more_fuel (xs ++ es') m ≡ more_fuel xs (more_fuel es' m)
    fuel [] m = refl
    fuel (x ∷ xs) m = ap suc (fuel xs m)

    joint :
        (xs : List Event) (r : Option (List Event))
        → then_events (xs ++ es') r ≡ then_events xs (then_events es' r)
    joint [] r = refl
    joint (x ∷ xs) r = ap (then_event x) (joint xs r)

items_Gets :
    (p : Program) (is : List Item)
    → AreItems p is
    → Gets p (fresh (elements_of is)) (events_of is) (fresh [])
unfolding elements_of events_of
items_Gets p [] ok = λ n. refl
items_Gets p (i ∷ is) (ok, oks) =
    Gets-append p (fresh (elements i ++ elements_of is)) (fresh (elements_of is)) (fresh [])
      (events i) (events_of is) (item_Gets p (elements_of is) i ok) (items_Gets p is oks)

more_fuel-length : (es : List Event) (n : ℕ) → more_fuel es n ≡ length es + n
more_fuel-length [] n = omega arith
more_fuel-length (e ∷ es) n = let rest = more_fuel-length es n in omega arith

all_events : (es : List Event) → then_events es (some []) ≡ some es
all_events [] = refl
all_events (e ∷ es) = ap (then_event e) (all_events es)

at_end_stops : (p : Program) (n : ℕ) → main_loop (suc n) p (fresh []) ≡ some []
unfolding main_loop next_opt_ch
at_end_stops p n = refl

-- For a command line of names that do not start with a dash, groups of known letters without an
-- argument, and such groups with one more letter and its argument behind it or in the next element, in
-- any order, where the loop of main ends the program for none of the letters, as it does for `h`, for
-- `?` and for an `I` with a backend that the build does not have: with more fuel than there are
-- events, the loop gets each name, letter and argument in its place, and nothing else.
pub main_loop-events_of :
    (p : Program) (is : List Item) (n : ℕ)
    → AreItems p is
    → main_loop
        (length (events_of is) + suc n)
        p
        (record { args = elements_of is; addl_opt = none })
      ≡ some (events_of is)
main_loop-events_of p is n ok =
    ap (λ m. main_loop m p (fresh (elements_of is))) (sym (more_fuel-length (events_of is) (suc n)))
    ∙ items_Gets p is ok (suc n)
    ∙ ap (then_events (events_of is)) (at_end_stops p n)
    ∙ all_events (events_of is)
