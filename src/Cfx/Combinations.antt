-- ===== src/Cfx/Combinations.antt =====
-- The strings that StrSubstituterGenerator (fname_gen.cpp) gives, against all combinations of the
-- values in their order.
use k_edit.Prelude.{
  ℕ, zero, suc, ◌+◌, ◌-◌, ◌≤◌, ◌<◌, ltb, if◌then◌else◌, true, false, Bool-cases, List, [], ◌∷◌,
  ◌++◌, length, take, drop, get_or, map, ◌≡◌, refl, sym, ap, ◌∙◌, inl, inr, arith, tests,
}
use k_edit.Tabs.{Text}
use k_edit.Cfx.{SubStr, Ssg, next_combination, substituted, get_next_string}

-- The segment's text before it, and behind the offset `pos` the offset behind it
abbrev pub lit_before : Text → ℕ → SubStr → Text
lit_before base pos s = take (s.x_repl_start - pos) (drop pos base)

abbrev pub pos_behind : ℕ → SubStr → ℕ
pos_behind pos s = pos + ((s.x_repl_start - pos) + s.repl_len)

-- Each value in turn in front of each of the texts
abbrev pub each_value : Text → List Text → List Text → List Text
each_value lit [] ts = []
each_value lit (v ∷ vs) ts = map (λ t. lit ++ (v ++ t)) ts ++ each_value lit vs ts

-- All combinations, the last segment changing fastest
abbrev pub expansions : Text → ℕ → List SubStr → List Text
expansions base pos [] = drop pos base ∷ []
expansions base pos (s ∷ ss) =
    each_value (lit_before base pos s) s.values (expansions base (pos_behind pos s) ss)

-- Those from the present combination on
abbrev rest_of : Text → ℕ → List SubStr → List Text
rest_of base pos [] = drop pos base ∷ []
rest_of base pos (s ∷ ss) =
    map (λ t. lit_before base pos s ++ (get_or s.values s.value_idx [] ++ t))
      (rest_of base (pos_behind pos s) ss)
    ++ each_value (lit_before base pos s) (drop (suc s.value_idx) s.values)
        (expansions base (pos_behind pos s) ss)

-- The value at the index is there.
abbrev pub IsCounting : List SubStr → Type 0
IsCounting [] = Unit
IsCounting (s ∷ ss) =
    (s.value_idx < length s.values) × (s.n_values ≡ length s.values) × IsCounting ss

abbrev pub IsFirst : List SubStr → Type 0
IsFirst [] = Unit
IsFirst (s ∷ ss) = (s.value_idx ≡ 0) × IsFirst ss

value_first :
    (lit : Text) (vs : List Text) (i : ℕ) (ts : List Text)
    → i < length vs
    → i ≡ 0
    → map (λ t. lit ++ (get_or vs i [] ++ t)) ts ++ each_value lit (drop (suc i) vs) ts
      ≡ each_value lit vs ts
value_first lit [] i ts lt z = elim lt [ ]
value_first lit (v ∷ vs) zero ts lt z = refl
value_first lit (v ∷ vs) (suc i) ts lt z = absurd (omega (arith, z))

value_next :
    (lit : Text) (vs : List Text) (i : ℕ) (ts : List Text)
    → suc i < length vs
    → each_value lit (drop (suc i) vs) ts
      ≡ map (λ t. lit ++ (get_or vs (suc i) [] ++ t)) ts
        ++ each_value lit (drop (suc (suc i)) vs) ts
value_next lit [] i ts lt = elim lt [ ]
value_next lit (v ∷ []) i ts lt = absurd (omega (arith, lt))
value_next lit (v ∷ w ∷ vs) zero ts lt = refl
value_next lit (v ∷ w ∷ vs) (suc i) ts lt = value_next lit (w ∷ vs) i ts (omega (arith, lt))

value_last : (vs : List Text) (i : ℕ) → length vs ≤ suc i → drop (suc i) vs ≡ []
value_last [] i le = refl
value_last (v ∷ []) zero le = refl
value_last (v ∷ w ∷ vs) zero le = absurd (omega (arith, le))
value_last (v ∷ vs) (suc i) le = value_last vs i (omega (arith, le))

pub rest_of_first :
    (base : Text) (pos : ℕ) (ss : List SubStr)
    → IsCounting ss
    → IsFirst ss
    → rest_of base pos ss ≡ expansions base pos ss
rest_of_first base pos [] c f = refl
rest_of_first base pos (s ∷ ss) (lt, n, c) (z, f) =
    let ih = rest_of_first base (pos_behind pos s) ss c f in
    let first =
      value_first (lit_before base pos s) s.values s.value_idx
        (expansions base (pos_behind pos s) ss) lt z in
    rw (ih, first)

next_combination-expansions :
    (base : Text) (pos : ℕ) (ss : List SubStr)
    → expansions base pos (next_combination ss).0 ≡ expansions base pos ss
unfolding next_combination
next_combination-expansions base pos [] = refl
next_combination-expansions base pos (s ∷ ss) =
    let ih = next_combination-expansions base (pos_behind pos s) ss in ground (arith, ih)

next_combination-IsCounting :
    (ss : List SubStr) → IsCounting ss → IsCounting (next_combination ss).0
unfolding next_combination
next_combination-IsCounting [] c = tt
next_combination-IsCounting (s ∷ ss) (lt, n, c) =
    let ih = next_combination-IsCounting ss c in ground (arith, ih)

next_combination-IsFirst :
    (ss : List SubStr) → (next_combination ss).1 ≡ true → IsFirst (next_combination ss).0
unfolding next_combination
next_combination-IsFirst [] c = tt
next_combination-IsFirst (s ∷ ss) c = let ih = next_combination-IsFirst ss in ground (arith, ih)

-- The strings from here on are this one, and those from the next combination on.
rest_of_next :
    (base : Text) (pos : ℕ) (ss : List SubStr)
    → IsCounting ss
    → rest_of base pos ss
      ≡ substituted base pos ss
        ∷ (if (next_combination ss).1 then [] else rest_of base pos (next_combination ss).0)
unfolding next_combination substituted
rest_of_next base pos [] c = refl
rest_of_next base pos (s ∷ ss) (lt, n, c) =
    let ih = rest_of_next base (pos_behind pos s) ss c in
    let same = next_combination-expansions base (pos_behind pos s) ss in
    let behind = pos_behind pos s in
    let first =
      rest_of_first base behind (next_combination ss).0 (next_combination-IsCounting ss c) in
    elim (Bool-cases (next_combination ss).1) [
      | inl carry ↦
          let last =
            ih
            ∙ ap
                (λ b.
                  substituted base behind ss
                  ∷ (if b then [] else rest_of base behind (next_combination ss).0))
                carry in
          let firsts = first (next_combination-IsFirst ss carry) ∙ same in
          let rebuilt = λ (vs : List Text) (e : List Text).
            substituted base pos (s ∷ ss)
            ∷ (vs
                ++ each_value (lit_before base pos s) (drop (suc (suc s.value_idx)) s.values) e) in
          let again =
            map (λ t. lit_before base pos s ++ (get_or s.values (suc s.value_idx) [] ++ t))
              (expansions base behind ss) in
          elim (Bool-cases (ltb (suc s.value_idx) s.n_values)) [
            | inl up ↦
                rw
                  (
                    last,
                    carry,
                    up,
                    firsts,
                    value_next (lit_before base pos s) s.values s.value_idx
                        (expansions base behind ss) (omega (tests, up, n)),
                  )
                  (ap (rebuilt again) (sym same))
            | inr out ↦
                rw (last, carry, out, value_last s.values s.value_idx (ground (arith, out, n)))
          ]
      | inr none_left ↦
          let more =
            ih
            ∙ ap
                (λ b.
                  substituted base behind ss
                  ∷ (if b then [] else rest_of base behind (next_combination ss).0))
                none_left in
          rw (more, none_left, same)
    ]

-- What each of `k` calls in a row gives, and the generator then
pub strings : ℕ → Ssg → List Text × Ssg
strings zero g = ([], g)
strings (suc k) g =
    let (found, st, g') = get_next_string g [] in
    let (sts, g'') = strings k g' in if found then (st ∷ sts, g'') else ([], g')

strings-exhausted : (k : ℕ) (g : Ssg) → g.combinations_exhausted ≡ true → (strings k g).0 ≡ []
unfolding strings get_next_string
strings-exhausted zero g h = refl
strings-exhausted (suc k) g h = rw h

take_nil : (k : ℕ) → take {A = Text} k [] ≡ []
take_nil zero = refl
take_nil (suc k) = refl

strings-rest_of :
    (k : ℕ) (g : Ssg)
    → g.combinations_exhausted ≡ false
    → IsCounting g.segs
    → (strings k g).0 ≡ take k (rest_of g.base 0 g.segs)
unfolding strings get_next_string
strings-rest_of zero g h c = refl
strings-rest_of (suc k) g h c = elim (Bool-cases (next_combination g.segs).1) [
  | inl carry ↦
      rw (h, rest_of_next g.base 0 g.segs c, carry)
        (ap (λ sts. substituted g.base 0 g.segs ∷ sts)
          (strings-exhausted k
              (record g { segs = (next_combination g.segs).0; combinations_exhausted = true }) refl
            ∙ sym (take_nil k)))
  | inr counted ↦
      rw (h, rest_of_next g.base 0 g.segs c, counted)
        (ap (λ sts. substituted g.base 0 g.segs ∷ sts)
          (strings-rest_of k
            (record g { segs = (next_combination g.segs).0; combinations_exhausted = false }) refl
            (next_combination-IsCounting g.segs c)))
]

-- `k` calls on a generator whose segments have values, all at the first, give the first `k` of all
-- combinations, or all of them.
pub strings-expansions :
    (k : ℕ) (g : Ssg)
    → g.combinations_exhausted ≡ false
    → IsCounting g.segs
    → IsFirst g.segs
    → (strings k g).0 ≡ take k (expansions g.base 0 g.segs)
strings-expansions k g h c f =
    strings-rest_of k g h c ∙ ap (take k) (rest_of_first g.base 0 g.segs c f)

-- The strings that are still to come
abbrev pub strings_left : Ssg → List Text
strings_left g = if g.combinations_exhausted then [] else rest_of g.base 0 g.segs

pub get_next_string-exhausted :
    (g : Ssg) (st : Text) → g.combinations_exhausted ≡ true → get_next_string g st ≡ (false, [], g)
unfolding get_next_string
get_next_string-exhausted g st h = rw h

-- A call gives the first of them.
pub get_next_string-strings_left :
    (g : Ssg)
    → g.combinations_exhausted ≡ false
    → IsCounting g.segs
    → (get_next_string g [] ≡ (true, (get_next_string g []).1, (get_next_string g []).2))
      × (strings_left g ≡ (get_next_string g []).1 ∷ strings_left (get_next_string g []).2)
      × IsCounting (get_next_string g []).2.segs
unfolding get_next_string
get_next_string-strings_left g h c =
    (rw h, rw (h, rest_of_next g.base 0 g.segs c), rw h (next_combination-IsCounting g.segs c))
