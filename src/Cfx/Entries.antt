-- ===== src/Cfx/Entries.antt =====
-- The entries of a list (fname_gen.cpp): ChopAscizzOnDelim, which writes zero bytes into a string, and
-- DiceableString::GetNext (my_strutils.h), which goes through the parts between them. A buffer is the
-- list of its bytes from a pointer on.
use k_edit.Prelude.{
  ℕ, zero, suc, ◌+◌, ◌≤◌, ◌<◌, ◌==◌, ◌||◌, if◌then◌else◌, Bool, true, false, Bool-cases, List, [],
  ◌∷◌, ◌++◌, length, drop, Option, none, some, ◌≡◌, refl, sym, ap, ◌∙◌, subst, inl, inr, arith,
  append_assoc, append-nil,
}
use k_edit.Tabs.{Text}
use k_edit.Strings.{span_to}
use k_edit.Strings.Searches.{
  fields, fields-span_to, length-span_to, append-span_to, stops, span_to-stops, List-cases,
}

-- StrPastAny: no byte of `delims` is zero.
abbrev pub past_any : (ℕ → Bool) → Text → Text
past_any delim [] = []
past_any delim (c ∷ s) = let rest = past_any delim s in if delim c then rest else c ∷ s

-- Whether the pointer is at a zero byte; every buffer here has one.
abbrev pub starts_nul : Text → Bool
starts_nul [] = true
starts_nul (c ∷ s) = c == 0

-- The loop of ChopAscizzOnDelim at `c0`: `live` are the bytes from there up to `eos`, `junk` those
-- behind. The move leaves the last bytes of `live` behind the new `eos`.
pub chop_loop : ℕ → (ℕ → Bool) → Text → Text → Option Text
chop_loop zero delim live junk = none
chop_loop (suc fuel) delim live junk =
    let live' = past_any delim live in
    let junk' = drop (length live') live ++ junk in
    let (part, at) = span_to (λ c. delim c || c == 0) live' in
    let chopped = chop_loop fuel delim (drop 1 at) junk' in
    if starts_nul live' || starts_nul at
    then some (live' ++ junk')
    else elim chopped [ none ↦ none | some out ↦ some (part ++ 0 ∷ out) ]

-- ChopAscizzOnDelim of the text, behind which two zero bytes stand
unfoldable pub chop_ascizz_on_delim : (ℕ → Bool) → Text → Option Text
unfolding chop_loop
chop_ascizz_on_delim delim text = chop_loop (length text + 1) delim (text ++ 0 ∷ 0 ∷ []) []

-- The parts that calls of GetNext give, one behind the other; each is the test for a zero byte at the
-- pointer, and the pointer behind the next zero byte.
pub parts : ℕ → Text → Option (List Text)
parts zero buf = none
parts (suc fuel) [] = none
parts (suc fuel) (c ∷ buf) =
    let (part, at) = span_to (λ d. d == 0) (c ∷ buf) in
    if c == 0
    then some []
    else elim (parts fuel (drop 1 at)) [ none ↦ none | some more ↦ some (part ∷ more) ]

-- A text without a zero byte
abbrev pub IsText : Text → Type 0
IsText [] = Unit
IsText (c ∷ s) = ((c == 0) ≡ false) × IsText s

module _ (delim : ℕ → Bool) (nul : delim 0 ≡ false) where
  abbrev stop : ℕ → Bool
  stop c = delim c || c == 0

  fields-past_any : (s : Text) → fields delim (past_any delim s) ≡ fields delim s
  fields-past_any [] = refl
  fields-past_any (c ∷ s) = elim (Bool-cases (delim c)) [
    | inl skip ↦ rw skip (fields-past_any s)
    | inr here ↦ rw here (rw here)
  ]

  past_any-append : (s : Text) → past_any delim (s ++ 0 ∷ 0 ∷ []) ≡ past_any delim s ++ 0 ∷ 0 ∷ []
  past_any-append [] = rw nul
  past_any-append (c ∷ s) = elim (Bool-cases (delim c)) [
    | inl skip ↦ rw skip (past_any-append s)
    | inr here ↦ rw here
  ]

  -- A text behind the delimiters starts with none.
  abbrev IsAtField : Text → Type 0
  IsAtField [] = Unit
  IsAtField (c ∷ s) = (delim c ≡ false) × ((c == 0) ≡ false) × IsText s

  past_any-IsAtField : (s : Text) → IsText s → IsAtField (past_any delim s)
  past_any-IsAtField [] t = tt
  past_any-IsAtField (c ∷ s) (plain, t) = elim (Bool-cases (delim c)) [
    | inl skip ↦ rw skip (past_any-IsAtField s t)
    | inr here ↦ rw here (here, plain, t)
  ]

  length-past_any : (s : Text) → length (past_any delim s) ≤ length s
  length-past_any [] = omega arith
  length-past_any (c ∷ s) = let ih = length-past_any s in ground (arith, ih)

  -- The search stops in the text where the one for a delimiter does, or behind it.
  span_to-append :
      (s : Text)
      → IsText s
      → ((span_to stop (s ++ 0 ∷ 0 ∷ [])).0 ≡ (span_to delim s).0)
        × ((span_to stop (s ++ 0 ∷ 0 ∷ [])).1 ≡ (span_to delim s).1 ++ 0 ∷ 0 ∷ [])
  span_to-append [] t = rw nul (refl, refl)
  span_to-append (c ∷ s) (plain, t) =
      let (part, at) = span_to-append s t in
      elim (Bool-cases (delim c)) [
        | inl here ↦ rw here (refl, refl)
        | inr on ↦ rw (on, plain, part, at) (refl, refl)
      ]

  IsText-span_to : (s : Text) → IsText s → IsText (span_to delim s).0 × IsText (span_to delim s).1
  IsText-span_to [] t = (tt, tt)
  IsText-span_to (c ∷ s) (plain, t) =
      let (part, at) = IsText-span_to s t in
      elim (Bool-cases (delim c)) [
        | inl here ↦ rw here (tt, (plain, t))
        | inr on ↦ rw on ((plain, part), at)
      ]

-- The part in front of a zero byte
span_to-nul : (s more : Text) → IsText s → span_to (λ d. d == 0) (s ++ 0 ∷ more) ≡ (s, 0 ∷ more)
span_to-nul [] more t = refl
span_to-nul (c ∷ s) more (plain, t) = rw plain (ap (λ r. (c ∷ r.0, r.1)) (span_to-nul s more t))

parts_none : (k : ℕ) (buf : Text) → 0 < k → parts k (0 ∷ buf) ≡ some []
unfolding parts
parts_none zero buf lt = absurd (omega (arith, lt))
parts_none (suc k) buf lt = refl

-- A part in front of a zero byte, and the parts behind it
parts_field :
    (k c : ℕ) (p more : Text) (rest : List Text)
    → (c == 0) ≡ false
    → IsText p
    → 0 < k
    → ((j : ℕ) → k ≡ suc j → parts j more ≡ some rest)
    → parts k ((c ∷ p) ++ 0 ∷ more) ≡ some ((c ∷ p) ∷ rest)
unfolding parts
parts_field zero c p more rest plain t lt behind = absurd (omega (arith, lt))
parts_field (suc k) c p more rest plain t lt behind =
    let spanned = span_to-nul (c ∷ p) more (plain, t) in
    rw (parts, plain, span_to-nul p more t, behind k refl)
      (ap (λ (r : Text × Text). some (r.0 ∷ rest)) spanned)

fields-delim : (p : ℕ → Bool) (d : ℕ) (s : Text) → p d ≡ true → fields p (d ∷ s) ≡ fields p s
fields-delim p d s here = rw here

module _ (delim : ℕ → Bool) (nul : delim 0 ≡ false) where
  -- What the loop leaves in the buffer is the parts of the text between the delimiters.
  Chops : ℕ → Text → Text → Type 0
  Chops fuel text junk =
      (out : Text) × (chop_loop fuel delim (text ++ 0 ∷ 0 ∷ []) junk ≡ some out)
      × ((k : ℕ) → length text < k → parts k out ≡ some (fields delim text))

  -- The two ways in which a round goes on
  chop_ends :
      (fuel : ℕ) (buf junk x y : Text)
      → past_any delim buf ≡ x
      → (span_to (λ c. delim c || c == 0) x).1 ≡ y
      → starts_nul x || starts_nul y ≡ true
      → chop_loop (suc fuel) delim buf junk ≡ some (x ++ (drop (length x) buf ++ junk))
  unfolding chop_loop
  chop_ends fuel buf junk x y live at ends = rw (chop_loop, live, at, ends)

  chop_goes_on :
      (fuel : ℕ) (buf junk x w y out : Text)
      → past_any delim buf ≡ x
      → (span_to (λ c. delim c || c == 0) x).0 ≡ w
      → (span_to (λ c. delim c || c == 0) x).1 ≡ y
      → starts_nul x || starts_nul y ≡ false
      → chop_loop fuel delim (drop 1 y) (drop (length x) buf ++ junk) ≡ some out
      → chop_loop (suc fuel) delim buf junk ≡ some (w ++ 0 ∷ out)
  unfolding chop_loop
  chop_goes_on fuel buf junk x w y out live part at on chopped =
      rw (chop_loop, live, at, on, chopped)
        (ap (λ (u : Text). some (u ++ 0 ∷ out))
          (ap (λ v. (span_to (λ c. delim c || c == 0) v).0) live ∙ part))

  chop_field :
      (fuel : ℕ) (text junk : Text) (c : ℕ) (s : Text)
      → IsText text
      → past_any delim text ≡ c ∷ s
      → ((t more : Text) → IsText t → length t < fuel → Chops fuel t more)
      → length text < suc fuel
      → Chops (suc fuel) text junk
  unfolding Chops chop_loop parts
  chop_field fuel text junk c s t here again lt =
      let nuls : Text = 0 ∷ 0 ∷ [] in
      let live = past_any-append delim nul text ∙ ap (λ u. u ++ nuls) here in
      let (nd, plain, ts) =
        subst (IsAtField delim nul) here (past_any-IsAtField delim nul text t) in
      let (part, at) = span_to-append delim nul (c ∷ s) (plain, ts) in
      let (tp, tq) = IsText-span_to delim nul s ts in
      let p = (span_to delim s).0 in
      let small : length (c ∷ s) ≤ length text =
        omega (arith, length-past_any delim nul text, ap length here) in
      let all : fields delim text ≡ (c ∷ p) ∷ fields delim (span_to delim s).1 =
        sym (fields-past_any delim nul text)
        ∙ (ap (fields delim) here ∙ fields-span_to delim c s nd) in
      let pq : (span_to delim (c ∷ s)).0 ≡ c ∷ (span_to delim s).0 = rw nd in
      let junk' = drop (length ((c ∷ s) ++ nuls)) (text ++ nuls) ++ junk in
      let q : (span_to delim (c ∷ s)).1 ≡ (span_to delim s).1 = rw nd in
      let whole : (k : ℕ) (more : Text)
          → 1 < k
          → (span_to delim s).1 ≡ []
          → parts k (((c ∷ s) ++ nuls) ++ more) ≡ some (fields delim text) =
        λ k more lt' ended.
          let only : (span_to delim s).0 ≡ s =
            sym (append-nil p) ∙ (ap (λ u. p ++ u) (sym ended) ∙ append-span_to delim s) in
          ap (parts k) (append_assoc (c ∷ s) nuls more)
          ∙ (parts_field k c s (0 ∷ more) [] plain ts (omega (arith, lt'))
                (λ j e. parts_none j more (omega (arith, e, lt')))
              ∙ ap some (
                  sym (
                    all
                    ∙ (ap (λ u. (c ∷ p) ∷ fields delim u) ended ∙ ap (λ u. (c ∷ u) ∷ []) only)))) in
      elim (List-cases (span_to delim s).1) [
        | inl ended ↦
            let at' = at ∙ ap (λ u. u ++ nuls) (q ∙ ended) in
            (
              ((c ∷ s) ++ nuls) ++ junk',
              chop_ends fuel (text ++ nuls) junk ((c ∷ s) ++ nuls) nuls live at' (rw plain),
              λ k lt'. whole k junk' (omega (arith, lt', small)) ended,
            )
        | inr (d, after, found) ↦
            let at' = at ∙ ap (λ u. u ++ nuls) (q ∙ found) in
            let left = length-span_to delim s in
            let stopped = span_to-stops delim s in
            let (d0, ta) = subst IsText found tq in
            let here' : delim d ≡ true = subst (λ u. stops delim u ≡ true) found stopped in
            let fewer : length after < length s = omega (arith, left, ap length found) in
            let (out, chopped, found_parts) =
              again after junk' ta (omega (arith, lt, small, fewer)) in
            let part' : (span_to (stop delim nul) ((c ∷ s) ++ nuls)).0 ≡ c ∷ (span_to delim s).0 =
              part ∙ pq in
            (
              (c ∷ (span_to delim s).0) ++ 0 ∷ out,
              chop_goes_on fuel (text ++ nuls) junk ((c ∷ s) ++ nuls) (c ∷ (span_to delim s).0)
                  ((d ∷ after) ++ nuls) out live part' at' (rw (plain, d0)) chopped,
              λ k lt'.
                  parts_field k c p out (fields delim after) plain tp (omega (arith, lt'))
                    (λ j e. found_parts j (omega (arith, e, lt', small, fewer)))
                  ∙ ap some (
                      sym (
                        all
                        ∙ (ap (λ u. (c ∷ p) ∷ fields delim u) found
                            ∙ ap (λ fs. (c ∷ p) ∷ fs) (fields-delim delim d after here')))),
            )
      ]

  chop_loop-Chops :
      (fuel : ℕ) (text junk : Text) → IsText text → length text < fuel → Chops fuel text junk
  unfolding Chops chop_loop parts
  chop_loop-Chops zero text junk t lt = absurd (omega (arith, lt))
  chop_loop-Chops (suc fuel) text junk t lt = elim (List-cases (past_any delim text)) [
    | inl ended ↦
        let nuls : Text = 0 ∷ 0 ∷ [] in
        let live = past_any-append delim nul text ∙ ap (λ u. u ++ nuls) ended in
        let none_there : fields delim text ≡ [] =
          sym (fields-past_any delim nul text) ∙ ap (fields delim) ended in
        (
          nuls ++ (drop 2 (text ++ nuls) ++ junk),
          rw (chop_loop, live),
          λ k lt'.
              parts_none k (drop 1 nuls ++ (drop 2 (text ++ nuls) ++ junk)) (omega (arith, lt'))
              ∙ ap some (sym none_there),
        )
    | inr (c, s, here) ↦
        chop_field fuel text junk c s t here
          (λ u more tu fewer. chop_loop-Chops fuel u more tu fewer) lt
  ]

  -- For delimiters that are not zero and a text without a zero byte: ChopAscizzOnDelim ends, and the
  -- calls of GetNext on what it leaves give the longest parts of the text without a delimiter.
  pub chop_ascizz_on_delim-fields :
      (text : Text)
      → IsText text
      → (out : Text) × (chop_ascizz_on_delim delim text ≡ some out)
        × (parts (length text + 1) out ≡ some (fields delim text))
  unfolding Chops chop_ascizz_on_delim
  chop_ascizz_on_delim-fields text t =
      let (out, chopped, found) = chop_loop-Chops (length text + 1) text [] t (omega arith) in
      (out, chopped, found (length text + 1) (omega arith))
