-- ===== src/Cfx/References.antt =====
-- What CFX_to_SSG (fname_gen.cpp) makes of a text: the segments, and the strings that follow from them.
use k_edit.Prelude.{
  ℕ, zero, suc, ◌+◌, ◌≤◌, ◌<◌, ◌==◌, ◌||◌, false, List, [], ◌∷◌, ◌++◌, length, take, drop, Option,
  none, some, ◌≡◌, refl, sym, ap, subst, inl, inr, arith, length-drop,
}
use k_edit.Tabs.{Text}
use k_edit.Strings.{span_to, cons_first}
use k_edit.Strings.Searches.{length-span_to, List-cases}
use k_edit.Cfx.{
  SubStr, Ssg, count_values, split_values, EnvRefs, refs_none, parse_err, term_of, value_of,
  with_value, one_reference, cfx_loop, cfx_to_ssg,
}
use k_edit.Cfx.Combinations.{
  expansions, rest_of_first, strings_left, strings, strings-expansions, IsCounting, IsFirst,
}

-- The segments from the offset `pos` to `end`, one behind the other
abbrev pub InOrder : ℕ → ℕ → List SubStr → Type 0
InOrder end pos [] = pos ≤ end
InOrder end pos (s ∷ ss) = (pos ≤ s.x_repl_start) × InOrder end (s.x_repl_start + s.repl_len) ss

InOrder-le :
    (end pos pos' : ℕ) (ss : List SubStr) → pos' ≤ pos → InOrder end pos ss → InOrder end pos' ss
InOrder-le end pos pos' [] le o = omega (arith, le, o)
InOrder-le end pos pos' (s ∷ ss) le (here, o) = (omega (arith, le, here), o)

length-cons_first : (c : ℕ) (vs : List Text) → 0 < length vs → length (cons_first c vs) ≡ length vs
length-cons_first c [] lt = absurd (omega (arith, lt))
length-cons_first c (v ∷ vs) lt = refl

length-split_values :
    (delim : ℕ) (s : Text)
    → (count_values delim s ≡ length (split_values delim s)) × (0 < length (split_values delim s))
length-split_values delim [] = (refl, omega arith)
length-split_values delim (c ∷ s) =
    let (same, some_value) = length-split_values delim s in
    let cons = length-cons_first c (split_values delim s) some_value in
    ground (arith, same, some_value, cons)

term_of_skip : (c : ℕ) (s : Text) → (term_of c s).1 ≤ length s
term_of_skip c [] = omega arith
term_of_skip c (d ∷ s) = ground arith

module _ (env_sep path_max : ℕ) (getenv : Text → Option Text) where
  -- A reference adds no segment, or one at its place that counts from the first value.
  with_value_adds :
      (end start len : ℕ) (rv : EnvRefs) (v : Option Text) (pos : ℕ) (more : List SubStr)
      → pos ≤ start
      → InOrder end (start + len) more × IsCounting more × IsFirst more
      → let segs = (with_value env_sep path_max getenv start len rv v).0 ++ more in
        InOrder end pos segs × IsCounting segs × IsFirst segs
  with_value_adds end start len rv none pos more le (o, c, f) =
      (InOrder-le end (start + len) pos more (omega (arith, le)) o, c, f)
  with_value_adds end start len rv (some v) pos more le (o, c, f) =
      let (same, some_value) = length-split_values env_sep v in
      ((le, o), (some_value, same, c), (refl, f))

  one_reference_adds :
      (end start len : ℕ) (name : Text) (rv : EnvRefs) (pos : ℕ) (more : List SubStr)
      → pos ≤ start
      → InOrder end (start + len) more × IsCounting more × IsFirst more
      → let segs = (one_reference env_sep path_max getenv start len name rv).0 ++ more in
        InOrder end pos segs × IsCounting segs × IsFirst segs
  one_reference_adds end start len [] rv pos more =
      λ le (o, c, f). (InOrder-le end (start + len) pos more (omega (arith, le)) o, c, f)
  one_reference_adds end start len (n ∷ name) rv pos more =
      with_value_adds end start len rv
        (value_of env_sep path_max getenv (start == 0) (take path_max (n ∷ name))) pos more

  -- One round of the loop
  pub cfx_loop-found :
      (fuel pos : ℕ) (rest : Text) (rv : EnvRefs) (c : ℕ) (after : Text) (t : ℕ) (rest' : Text)
      (r : EnvRefs × List SubStr)
      → (span_to (λ d. d == b'$' || d == b'%') rest).1 ≡ c ∷ after
      → (span_to (λ d. d == (term_of c after).0) (drop (term_of c after).1 after)).1 ≡ t ∷ rest'
      → let start = pos + length (span_to (λ d. d == b'$' || d == b'%') rest).0 in
        let name = (span_to (λ d. d == (term_of c after).0) (drop (term_of c after).1 after)).0 in
        let len = 1 + (term_of c after).1 + length name + 1 in
        let one = one_reference env_sep path_max getenv start len name rv in
        cfx_loop env_sep path_max getenv fuel (start + len) rest' one.1 ≡ some r
        → cfx_loop env_sep path_max getenv (suc fuel) pos rest rv ≡ some (r.0, one.0 ++ r.1)
  unfolding cfx_loop
  cfx_loop-found fuel pos rest rv c after t rest' r found ended looped =
      rw (cfx_loop, found, ended, looped)

  -- The loop succeeds on fuel above the length of the rest.
  cfx_loop-InOrder :
      (fuel pos : ℕ) (rest : Text) (rv : EnvRefs)
      → length rest < fuel
      → (r : EnvRefs × List SubStr) × (cfx_loop env_sep path_max getenv fuel pos rest rv ≡ some r)
        × InOrder (pos + length rest) pos r.1
        × IsCounting r.1
        × IsFirst r.1
  unfolding cfx_loop
  cfx_loop-InOrder zero pos rest rv lt = absurd (omega (arith, lt))
  cfx_loop-InOrder (suc fuel) pos rest rv lt =
      let p = λ (c : ℕ). c == b'$' || c == b'%' in
      let total = length-span_to p rest in
      elim (List-cases (span_to p rest).1) [
        | inl ended ↦ ((rv, []), rw (cfx_loop, ended), omega arith, tt, tt)
        | inr (c, after, found) ↦
            let (term, skip) = term_of c after in
            let within = term_of_skip c after in
            let name = (span_to (λ d. d == term) (drop skip after)).0 in
            let total' = length-span_to (λ d. d == term) (drop skip after) in
            let lit = length (span_to p rest).0 in
            let len = 1 + skip + length name + 1 in
            elim (List-cases (span_to (λ d. d == term) (drop skip after)).1) [
              | inl unended ↦ ((parse_err, []), rw (cfx_loop, found, unended), omega arith, tt, tt)
              | inr (t, rest', ended) ↦
                  let start = pos + lit in
                  let (added, rv') = one_reference env_sep path_max getenv start len name rv in
                  let shrinks : lit + (len + length rest') ≡ length rest = omega (
                    arith,
                    total,
                    total',
                    within,
                    ap length found,
                    ap length ended,
                    length-drop skip after,
                  ) in
                  let ((rv'', more), looped, o, counting, first) =
                    cfx_loop-InOrder fuel (start + len) rest' rv' (omega (arith, lt, shrinks)) in
                  let end' : start + len + length rest' ≡ pos + length rest =
                    omega (arith, shrinks) in
                  let (o', c', f') =
                    one_reference_adds (pos + length rest) start len name rv pos more (omega arith)
                      (subst (λ e. InOrder e (start + len) more) end' o, counting, first) in
                  (
                    (rv'', added ++ more),
                    cfx_loop-found fuel pos rest rv c after t rest' (rv'', more) found ended looped,
                    o',
                    c',
                    f',
                  )
            ]
      ]

  -- CFX_to_SSG gives a result for every text, which may be that it found no end of a reference. Its
  -- segments are in order within the text. From then on, `k` calls of GetNextString give the first
  -- `k` of the combinations of these segments, or all of them.
  pub cfx_to_ssg-strings :
      (inbuf : Text) (k : ℕ)
      → (r : EnvRefs × Ssg) × (cfx_to_ssg env_sep path_max getenv inbuf ≡ some r)
        × (r.1.base ≡ inbuf)
        × InOrder (length inbuf) 0 r.1.segs
        × ((strings k r.1).0 ≡ take k (expansions inbuf 0 r.1.segs))
  unfolding cfx_to_ssg
  cfx_to_ssg-strings inbuf k =
      let ((rv, segs), looped, o, c, f) =
        cfx_loop-InOrder (length inbuf + 1) 0 inbuf refs_none (omega arith) in
      let g : Ssg = record { combinations_exhausted = false; base = inbuf; segs = segs } in
      (
        (rv, g),
        rw (cfx_to_ssg, looped),
        refl,
        subst (λ e. InOrder e 0 segs) (omega arith) o,
        strings-expansions k g refl c f,
      )

  -- The segments it gives have their values, and all combinations are still to come.
  pub cfx_to_ssg-strings_left :
      (inbuf : Text)
      → (r : EnvRefs × Ssg) × (cfx_to_ssg env_sep path_max getenv inbuf ≡ some r)
        × (expansions inbuf 0 r.1.segs ≡ strings_left r.1)
        × IsCounting r.1.segs
  unfolding cfx_to_ssg
  cfx_to_ssg-strings_left inbuf =
      let ((rv, segs), looped, o, c, f) =
        cfx_loop-InOrder (length inbuf + 1) 0 inbuf refs_none (omega arith) in
      (
        (rv, record { combinations_exhausted = false; base = inbuf; segs = segs }),
        rw (cfx_to_ssg, looped),
        sym (rest_of_first inbuf 0 segs c f),
        c,
      )
