-- ===== src/Cfx/Names.antt =====
-- The file names that CfxFilenameGenerator (fname_gen.cpp) gives: those that match each string that
-- each entry of a list expands to.
use k_edit.Prelude.{
  ℕ, zero, suc, ◌+◌, ◌*◌, ◌≤◌, ◌<◌, if◌then◌else◌, Bool, true, false, Bool-cases, List, [], ◌∷◌,
  ◌++◌, length, Option, none, some, ◌⊎◌, ◌≡◌, refl, sym, ap, ◌∙◌, subst, inl, inr, arith,
  append_assoc,
}
use k_edit.Tabs.{Text}
use k_edit.Cfx.{Ssg, get_next_string, cfx_to_ssg}
use k_edit.Cfx.Combinations.{
  expansions, IsCounting, strings_left, get_next_string-strings_left, get_next_string-exhausted,
}
use k_edit.Cfx.References.{cfx_to_ssg-strings_left}

-- class CfxFilenameGenerator: what is left of the matches of d_pWcGen, d_pSSG, and the entries of
-- d_splitLine behind d_pszEntrySuffix, if that is not null. The entries of d_splitLine, none of them
-- empty, are a parameter.
pub record CfxGen : Type 0 where
  pub wc_gen : Option (List Text)
  pub ssg : Option Ssg
  pub suffix : Option (List Text)

-- WildcardFilenameGenerator::VGetNextName: the result, the name, and the matches behind it
abbrev pub next_match : List Text → Bool × Text × List Text
next_match [] = (false, [], [])
next_match ([] ∷ ms) = (false, [], ms)
next_match ((c ∷ m) ∷ ms) = (true, c ∷ m, ms)

-- How a run of VGetNextName goes on: it returns, goes on in another state, or finds a null pointer.
pub data Next : Type 0 where
  returned : Bool → Text → CfxGen → Next
  goes_on : Text → CfxGen → Next
  failed : Next

Next-cases :
    (nx : Next)
    → ((found : Bool) × (name : Text) × (g : CfxGen) × (nx ≡ returned found name g))
      ⊎ (((dest : Text) × (g : CfxGen) × (nx ≡ goes_on dest g)) ⊎ (nx ≡ failed))
Next-cases (returned found name g) = inl (found, name, g, refl)
Next-cases (goes_on dest g) = inr (inl (dest, g, refl))
Next-cases failed = inr (inr refl)

-- The generator as it is made
abbrev pub new_gen : CfxGen
new_gen = record { wc_gen = none; ssg = none; suffix = none }

-- What DiceableString::GetNext finds: behind the entry, or from the first on for a null pointer
abbrev pub get_next : List Text → Option (List Text) → List Text
get_next split_line suffix = elim suffix [ none ↦ split_line | some es ↦ es ]

module _ (env_sep path_max : ℕ) (getenv : Text → Option Text) (matches : Text → List Text)
    (split_line : List Text) where
  -- A round of VGetNextName, whose two labels are reached with the pointers that make the next round
  -- come there; no user break is requested. The string is `dest`.
  abbrev pub one_round : CfxGen → Text → Next
  one_round g dest = elim g.wc_gen [
    | some ms ↦
        let (found, name, ms') = next_match ms in
        if found
        then returned true name (record g { wc_gen = some ms' })
        else goes_on name (record g { wc_gen = none })
    | none ↦ elim g.ssg [
      | some s ↦
          let (found, st, s') = get_next_string s dest in
          if found
          then goes_on st (record g { wc_gen = some (matches st); ssg = some s' })
          else goes_on st (record g { ssg = none })
      | none ↦ elim (get_next split_line g.suffix) [
        | [] ↦ returned false dest (record g { suffix = none })
        | entry ∷ es ↦ elim (cfx_to_ssg env_sep path_max getenv entry) [
          | none ↦ failed
          | some (rv, s) ↦ goes_on dest (record g { ssg = some s; suffix = some es })
        ]
      ]
    ]
  ]

  pub rounds : ℕ → CfxGen → Text → Option (Bool × Text × CfxGen)
  rounds zero g dest = none
  rounds (suc fuel) g dest = elim (one_round g dest) [
    | returned found name g' ↦ some (found, name, g')
    | goes_on dest' g' ↦ rounds fuel g' dest'
    | failed ↦ none
  ]

  -- CfxFilenameGenerator::VGetNextName
  unfoldable pub get_next_name : ℕ → CfxGen → Option (Bool × Text × CfxGen)
  unfolding rounds
  get_next_name fuel g = rounds fuel g []

  -- What each of `k` calls gives: a name, or none for false
  unfoldable pub names : ℕ → ℕ → CfxGen → Option (List (Option Text))
  names fuel zero g = some []
  names fuel (suc k) g = elim (get_next_name fuel g) [
    | none ↦ none
    | some (found, name, g') ↦ elim (names fuel k g') [
      | none ↦ none
      | some ns ↦ some ((if found then some name else none) ∷ ns)
    ]
  ]

  -- The names of a list of matches: an empty one would end it.
  abbrev pub names_of : List Text → List Text
  names_of [] = []
  names_of ([] ∷ ms) = []
  names_of ((c ∷ m) ∷ ms) = (c ∷ m) ∷ names_of ms

  abbrev pub names_of_all : List Text → List Text
  names_of_all [] = []
  names_of_all (st ∷ sts) = names_of (matches st) ++ names_of_all sts

  abbrev pub strings_of : Text → List Text
  strings_of entry = elim (cfx_to_ssg env_sep path_max getenv entry) [
    | none ↦ []
    | some (rv, s) ↦ expansions entry 0 s.segs
  ]

  abbrev pub names_of_entries : List Text → List Text
  names_of_entries [] = []
  names_of_entries (e ∷ es) = names_of_all (strings_of e) ++ names_of_entries es

  -- What a generator has left to give, and a bound on the rounds that it takes
  abbrev pub names_left : CfxGen → List Text
  names_left g =
      elim g.wc_gen [ none ↦ [] | some ms ↦ names_of ms ]
      ++ (elim g.ssg [ none ↦ [] | some s ↦ names_of_all (strings_left s) ]
          ++ names_of_entries (get_next split_line g.suffix))

  abbrev pub rounds_of_entries : List Text → ℕ
  rounds_of_entries [] = 0
  rounds_of_entries (e ∷ es) = 2 * length (strings_of e) + 2 + rounds_of_entries es

  abbrev pub rounds_left : CfxGen → ℕ
  rounds_left g =
      elim g.wc_gen [ none ↦ 0 | some ms ↦ 1 ]
      + (elim g.ssg [ none ↦ 0 | some s ↦ 2 * length (strings_left s) + 1 ]
          + rounds_of_entries (get_next split_line g.suffix))

  abbrev pub IsReady : CfxGen → Type 0
  IsReady g = elim g.ssg [ none ↦ Unit | some s ↦ IsCounting s.segs ]

  -- Between rounds the string is empty but where a match is asked for next.
  abbrev IsClear : CfxGen → Text → Type 0
  IsClear g dest = elim g.wc_gen [ none ↦ dest ≡ [] | some ms ↦ Unit ]

  -- A round gives the first name that is left, or it leaves the same names and fewer rounds.
  abbrev Explains : CfxGen → Next → Type 0
  Explains g (returned true name g') =
      (names_left g ≡ name ∷ names_left g') × IsReady g' × (rounds_left g' ≤ rounds_left g)
  Explains g (returned false name g') = (names_left g ≡ []) × (g' ≡ new_gen)
  Explains g (goes_on dest g') =
      (names_left g ≡ names_left g')
      × IsReady g'
      × (rounds_left g' < rounds_left g)
      × IsClear g' dest
  Explains g failed = ⊥

  abbrev gen : Option (List Text) → Option Ssg → Option (List Text) → CfxGen
  gen ms s es = record { wc_gen = ms; ssg = s; suffix = es }

  one_round_match :
      (ms : List Text) (s : Option Ssg) (es : Option (List Text)) (dest : Text)
      → IsReady (gen (some ms) s es)
      → Explains (gen (some ms) s es) (one_round (gen (some ms) s es) dest)
  one_round_match [] s es dest ready = (refl, ready, omega arith, refl)
  one_round_match ([] ∷ ms) s es dest ready = (refl, ready, omega arith, refl)
  one_round_match ((c ∷ m) ∷ ms) s es dest ready = (refl, ready, omega arith)

  one_round_string :
      (s : Ssg) (es : Option (List Text))
      → IsCounting s.segs
      → Explains (gen none (some s) es) (one_round (gen none (some s) es) [])
  one_round_string s es counting = elim (Bool-cases s.combinations_exhausted) [
    | inl over ↦ rw (get_next_string-exhausted s [] over) (rw over refl, tt, omega arith, refl)
    | inr more ↦
        let (gives, left, counting') = get_next_string-strings_left s more counting in
        rw gives (
          ap (λ sts. names_of_all sts ++ names_of_entries (get_next split_line es)) left
              ∙ append_assoc (names_of (matches (get_next_string s []).1))
                  (names_of_all (strings_left (get_next_string s []).2))
                  (names_of_entries (get_next split_line es)),
          counting',
          omega (arith, ap length left),
          tt,
        )
  ]

  one_round_entry :
      (suffix : Option (List Text)) (es : List Text)
      → get_next split_line suffix ≡ es
      → Explains (gen none none suffix) (one_round (gen none none suffix) [])
  one_round_entry suffix [] here = rw here (ap names_of_entries here, refl)
  one_round_entry suffix (e ∷ es) here =
      let ((rv, s), parsed, fresh, counting) = cfx_to_ssg-strings_left env_sep path_max getenv e in
      let same : strings_of e ≡ strings_left s = rw (strings_of, parsed) fresh in
      rw (Explains, here, parsed)
        (
          ap names_of_entries here ∙ ap (λ sts. names_of_all sts ++ names_of_entries es) same,
          counting,
          omega (arith, ap length same, ap rounds_of_entries here),
          refl,
        )

  one_round_lem :
      (w : Option (List Text)) (s : Option Ssg) (es : Option (List Text)) (dest : Text)
      → IsReady (gen w s es)
      → IsClear (gen w s es) dest
      → Explains (gen w s es) (one_round (gen w s es) dest)
  one_round_lem (some ms) s es dest ready clear = one_round_match ms s es dest ready
  one_round_lem none (some s) es dest ready clear =
      subst (λ d. Explains (gen none (some s) es) (one_round (gen none (some s) es) d)) (sym clear)
        (one_round_string s es ready)
  one_round_lem none none es dest ready clear =
      subst (λ d. Explains (gen none none es) (one_round (gen none none es) d)) (sym clear)
        (one_round_entry es (get_next split_line es) refl)

  -- What VGetNextName returns: the first name left, or false when there is none.
  abbrev IsFirstName : List Text → Bool × Text × CfxGen → ℕ → Type 0
  IsFirstName ns (true, name, g') bound =
      (ns ≡ name ∷ names_left g') × IsReady g' × (rounds_left g' ≤ bound)
  IsFirstName ns (false, name, g') bound = (ns ≡ []) × (g' ≡ new_gen)

  IsFirstName-le :
      (ns ns' : List Text) (r : Bool × Text × CfxGen) (bound bound' : ℕ)
      → ns ≡ ns'
      → bound' ≤ bound
      → IsFirstName ns' r bound'
      → IsFirstName ns r bound
  IsFirstName-le ns ns' (true, name, g') bound bound' e le (first, ready, few) =
      (e ∙ first, ready, omega (arith, le, few))
  IsFirstName-le ns ns' (false, name, g') bound bound' e le (none_left, reset) =
      (e ∙ none_left, reset)

  returned_first :
      (g : CfxGen) (found : Bool) (name : Text) (g' : CfxGen)
      → Explains g (returned found name g')
      → IsFirstName (names_left g) (found, name, g') (rounds_left g)
  returned_first g true name g' explained = explained
  returned_first g false name g' explained = explained

  -- Fuel above the rounds left is enough.
  rounds_lem :
      (fuel : ℕ) (g : CfxGen) (dest : Text)
      → rounds_left g < fuel
      → IsReady g
      → IsClear g dest
      → (r : Bool × Text × CfxGen) × (rounds fuel g dest ≡ some r)
        × IsFirstName (names_left g) r (rounds_left g)
  unfolding rounds
  rounds_lem zero g dest lt ready clear = absurd (omega (arith, lt))
  rounds_lem (suc fuel) g dest lt ready clear =
      let explained = one_round_lem g.wc_gen g.ssg g.suffix dest ready clear in
      elim (Next-cases (one_round g dest)) [
        | inl (found, name, g', e) ↦ (
          (found, name, g'),
          rw (rounds, e),
          returned_first g found name g' (subst (Explains g) e explained),
        )
        | inr (inl (dest', g', e)) ↦
            let (same, ready', fewer, clear') = subst (Explains g) e explained in
            let (r, goes, first) =
              rounds_lem fuel g' dest' (omega (arith, lt, fewer)) ready' clear' in
            (
              r,
              rw (rounds, e) goes,
              IsFirstName-le (names_left g) (names_left g') r (rounds_left g) (rounds_left g') same
                  (omega (arith, fewer)) first,
            )
        | inr (inr e) ↦ absurd (subst (Explains g) e explained)
      ]

  IsClear-empty :
      (w : Option (List Text)) (s : Option Ssg) (es : Option (List Text)) → IsClear (gen w s es) []
  IsClear-empty none s es = refl
  IsClear-empty (some ms) s es = tt

  -- `k` results of calls: the names `ns`, false, all the names, false, and so on
  abbrev pub in_turn : ℕ → List Text → List (Option Text)
  in_turn zero ns = []
  in_turn (suc k) [] = none ∷ in_turn k (names_of_entries split_line)
  in_turn (suc k) (n ∷ ns) = some n ∷ in_turn k ns

  -- A call, where the others give what is left after it
  names_step :
      (k fuel : ℕ) (g : CfxGen) (r : Bool × Text × CfxGen)
      → get_next_name fuel g ≡ some r
      → IsFirstName (names_left g) r (rounds_left g)
      → rounds_of_entries split_line < fuel
      → ((g' : CfxGen)
          → rounds_left g' < fuel
          → IsReady g'
          → names fuel k g' ≡ some (in_turn k (names_left g')))
      → rounds_left g < fuel
      → names fuel (suc k) g ≡ some (in_turn (suc k) (names_left g))
  unfolding names
  names_step k fuel g (false, name, g') goes (none_left, reset) enough others lt =
      let again = others new_gen (omega (arith, enough)) tt in
      rw (names, goes, reset, again, none_left)
  names_step k fuel g (true, name, g') goes (first, ready, few) enough others lt =
      rw (names, goes, others g' (omega (arith, few, lt)) ready, first)

  names_lem :
      (k fuel : ℕ) (g : CfxGen)
      → rounds_of_entries split_line < fuel
      → rounds_left g < fuel
      → IsReady g
      → names fuel k g ≡ some (in_turn k (names_left g))
  unfolding names get_next_name
  names_lem zero fuel g enough lt ready = refl
  names_lem (suc k) fuel g enough lt ready =
      let (r, goes, first) =
        rounds_lem fuel g [] lt ready (IsClear-empty g.wc_gen g.ssg g.suffix) in
      names_step k fuel g r goes first enough
        (λ g' few ready'. names_lem k fuel g' enough few ready') lt

  -- `k` calls of VGetNextName on a new generator, on fuel above the bound, give the names that match the
  -- expansions of the entries of d_splitLine, in order; then false; and then all of them again from the
  -- first entry on, and so on.
  pub names-names_of_entries :
      (k fuel : ℕ)
      → rounds_of_entries split_line < fuel
      → names fuel k new_gen ≡ some (in_turn k (names_of_entries split_line))
  names-names_of_entries k fuel lt = names_lem k fuel new_gen lt (omega (arith, lt)) tt
