-- ===== src/Cfx/Values.antt =====
-- The strings that follow from a file specification of literal text and references to the environment
-- (CFX_to_SSG and StrSubstituterGenerator of fname_gen.cpp).
use k_edit.Prelude.{
  ℕ, zero, suc, ◌+◌, ◌-◌, ◌≤◌, ◌<◌, ◌==◌, Bool, true, false, List, [], ◌∷◌, ◌++◌, length, take,
  drop, Option, none, some, ◌≡◌, ◌≢◌, refl, sym, ap, ◌∙◌, subst, arith, length-append,
}
use k_edit.Tabs.{Text}
use k_edit.Strings.{span_to}
use k_edit.Strings.Copies.{take-append_all, drop-append_past, drop-drop}
use k_edit.Cfx.{
  SubStr, Ssg, has_byte, EnvRefs, refs_none, parse_err, unambig, mid_list, leading_list, term_of,
  value_of, refs_after, new_sub_str, one_reference, cfx_loop, cfx_to_ssg,
}
use k_edit.Cfx.Combinations.{expansions, strings}
use k_edit.Cfx.References.{cfx_loop-found, cfx_to_ssg-strings}
use k_edit.Cfx.Spelled.{
  Form, sign, bracketed, close, reference, Ref, spelled, combinations, joined, Free, AllFree,
  starts, IsNamed, skip, fails, span_to-Free, span_to-all, split_values-spelled, term_of-bracketed,
  drop-bracketed, length-bracketed, starts-sign, IsNamed-Free, fails_not, take-within, same,
}

module _ (env_sep path_max : ℕ) (getenv : Text → Option Text) where
  fails-refs_after :
      (leading is_list : Bool) (rv : EnvRefs)
      → fails rv ≡ false
      → fails (refs_after env_sep path_max getenv leading is_list rv) ≡ false
  fails-refs_after true true rv ok = refl
  fails-refs_after true false rv ok = refl
  fails-refs_after false true rv ok = refl
  fails-refs_after false false refs_none ok = refl
  fails-refs_after false false parse_err ok = ok
  fails-refs_after false false unambig ok = refl
  fails-refs_after false false mid_list ok = refl
  fails-refs_after false false leading_list ok = refl

  value_of-found :
      (leading : Bool) (name v : Text)
      → getenv name ≡ some v
      → 0 < length v
      → value_of env_sep path_max getenv leading name ≡ some v
  value_of-found leading name [] found some_byte = absurd (omega (arith, some_byte))
  value_of-found leading name (c ∷ v) found some_byte = rw (value_of, found) refl

  -- A reference that is written so, and whose variable holds its values
  abbrev pub IsSpelled : Ref → Type 0
  IsSpelled r =
      Free starts r.before
      × IsNamed r.form r.name
      × (length r.name ≤ path_max)
      × (getenv r.name ≡ some (joined env_sep r.values))
      × AllFree (λ d. d == env_sep) r.values
      × (0 < length (joined env_sep r.values))

  abbrev pub AreSpelled : List Ref → Type 0
  AreSpelled [] = Unit
  AreSpelled (r ∷ rs) = IsSpelled r × AreSpelled rs

  one_reference-found :
      (start len : ℕ) (name v : Text) (rv : EnvRefs) (form : Form)
      → IsNamed form name
      → length name ≤ path_max
      → getenv name ≡ some v
      → 0 < length v
      → one_reference env_sep path_max getenv start len name rv ≡ (
        new_sub_str v env_sep start len ∷ [],
        refs_after env_sep path_max getenv (start == 0) (has_byte env_sep v) rv,
      )
  one_reference-found start len [] v rv form named le found some_byte = elim named [ ]
  one_reference-found start len (c ∷ s) v rv form named le found some_byte =
      let whole = take-within path_max (c ∷ s) le in
      let value = value_of-found (start == 0) (c ∷ s) v found some_byte in
      rw (one_reference, whole, value) refl

  -- One round of the loop
  cfx_loop_round :
      (fuel pos : ℕ) (rest before after name t : Text) (c x : ℕ) (rv rv' : EnvRefs)
      (added : List SubStr) (r : EnvRefs × List SubStr)
      → span_to starts rest ≡ (before, c ∷ after)
      → let form = term_of c after in
        span_to (λ d. d == form.0) (drop form.1 after) ≡ (name, x ∷ t)
        → let start = pos + length before in
          let len = 1 + form.1 + length name + 1 in
          one_reference env_sep path_max getenv start len name rv ≡ (added, rv')
          → cfx_loop env_sep path_max getenv fuel (start + len) t rv' ≡ some r
          → cfx_loop env_sep path_max getenv (suc fuel) pos rest rv ≡ some (r.0, added ++ r.1)
  cfx_loop_round fuel pos rest before after name t c x rv rv' added r lit ended one looped =
      let form = term_of c after in
      let one_of = λ (b n : Text).
        one_reference env_sep path_max getenv (pos + length b) (1 + form.1 + length n + 1) n rv in
      let goes_on = λ (b n : Text) (o : List SubStr × EnvRefs).
        cfx_loop env_sep path_max getenv fuel (pos + length b + (1 + form.1 + length n + 1)) t o.1
          ≡ some r
        → cfx_loop env_sep path_max getenv (suc fuel) pos rest rv ≡ some (r.0, o.0 ++ r.1) in
      let name' = (span_to (λ d. d == form.0) (drop form.1 after)).0 in
      let found =
        cfx_loop-found env_sep path_max getenv fuel pos rest rv c after x t r (ap (λ q. q.1) lit)
          (ap (λ q. q.1) ended) in
      let at_lit = subst (λ b. goes_on b name' (one_of b name')) (ap (λ q. q.0) lit) found in
      let at_name = subst (λ n. goes_on before n (one_of before n)) (ap (λ q. q.0) ended) at_lit in
      subst (goes_on before name) one at_name looped

  abbrev len_of : Form → Text → ℕ
  len_of form name = 1 + skip form + length name + 1

  abbrev segment : ℕ → Ref → SubStr
  segment pos r =
      new_sub_str (joined env_sep r.values) env_sep (pos + length r.before) (len_of r.form r.name)

  -- The loop at a reference
  cfx_loop-IsSpelled :
      (fuel pos : ℕ) (f : Ref) (t : Text) (rv : EnvRefs) (r : EnvRefs × List SubStr)
      → IsSpelled f
      → cfx_loop env_sep path_max getenv fuel (pos + length f.before + len_of f.form f.name) t (
          refs_after env_sep path_max getenv
            (pos + length f.before == 0)
            (has_byte env_sep (joined env_sep f.values))
            rv)
        ≡ some r
      → cfx_loop env_sep path_max getenv (suc fuel) pos (f.before ++ reference f.form f.name t) rv
        ≡ some (r.0, segment pos f ∷ r.1)
  cfx_loop-IsSpelled fuel pos f t rv r (free, named, le, found, frees, some_byte) looped =
      let form = f.form in
      let after = bracketed form (f.name ++ close form ∷ t) in
      let start = pos + length f.before in
      let v = joined env_sep f.values in
      let rv' = refs_after env_sep path_max getenv (start == 0) (has_byte env_sep v) rv in
      let whole = f.before ++ reference form f.name t in
      subst
        (λ (q : ℕ × ℕ).
          span_to (λ d. d == q.0) (drop q.1 after) ≡ (f.name, close form ∷ t)
          → one_reference env_sep path_max getenv start (1 + q.1 + length f.name + 1) f.name rv
            ≡ (segment pos f ∷ [], rv')
          → cfx_loop env_sep path_max getenv fuel (start + (1 + q.1 + length f.name + 1)) t rv'
            ≡ some r
          → cfx_loop env_sep path_max getenv (suc fuel) pos whole rv
            ≡ some (r.0, segment pos f ∷ r.1))
        (term_of-bracketed form f.name (close form ∷ t) named)
        (cfx_loop_round fuel pos whole f.before after f.name t (sign form) (close form) rv rv'
          (segment pos f ∷ []) r
          (span_to-Free starts f.before (sign form) after free (starts-sign form)))
        (ap (span_to (λ d. d == close form)) (drop-bracketed form (f.name ++ close form ∷ t))
          ∙ span_to-Free (λ d. d == close form) f.name (close form) t
              (IsNamed-Free form f.name named) (same form))
        (one_reference-found start (len_of form f.name) f.name v rv form named le found some_byte)
        looped

  length-reference :
      (f : Ref) (t : Text) → length (reference f.form f.name t) ≡ len_of f.form f.name + length t
  length-reference f t = omega (
    arith,
    length-bracketed f.form (f.name ++ close f.form ∷ t),
    length-append f.name (close f.form ∷ t),
  )

  -- Behind the literal text and the reference
  drop-reference :
      (f : Ref) (t : Text)
      → drop (length f.before + len_of f.form f.name) (f.before ++ reference f.form f.name t) ≡ t
  drop-reference f t =
      let inside = bracketed f.form (f.name ++ close f.form ∷ t) in
      drop-append_past f.before (reference f.form f.name t) (len_of f.form f.name)
      ∙ ap (λ k. drop k (reference f.form f.name t))
          (let e : len_of f.form f.name ≡ suc (skip f.form + (length f.name + 1)) = omega arith in
            e)
      ∙ sym (drop-drop (skip f.form) (length f.name + 1) inside)
      ∙ ap (drop (length f.name + 1)) (drop-bracketed f.form (f.name ++ close f.form ∷ t))
      ∙ drop-append_past f.name (close f.form ∷ t) 1

  cfx_loop-end :
      (fuel pos : ℕ) (last : Text) (rv : EnvRefs)
      → Free starts last
      → cfx_loop env_sep path_max getenv (suc fuel) pos last rv ≡ some (rv, [])
  unfolding cfx_loop
  cfx_loop-end fuel pos last rv free =
      let all = span_to-all starts last free in rw (cfx_loop, all) refl

  cfx_loop-combinations :
      (base : Text) (rs : List Ref) (last : Text) (fuel pos : ℕ) (rv : EnvRefs)
      → AreSpelled rs
      → Free starts last
      → drop pos base ≡ spelled rs last
      → length (spelled rs last) < fuel
      → fails rv ≡ false
      → (r : EnvRefs × List SubStr) × (cfx_loop env_sep path_max getenv fuel pos
            (spelled rs last)
            rv
          ≡ some r)
        × (fails r.0 ≡ false)
        × (expansions base pos r.1 ≡ combinations rs last)
  cfx_loop-combinations base rs last zero pos rv written free at lt ok = absurd (omega (arith, lt))
  cfx_loop-combinations base [] last (suc fuel) pos rv written free at lt ok =
      ((rv, []), cfx_loop-end fuel pos last rv free, ok, ap (λ s. s ∷ []) at)
  cfx_loop-combinations base (f ∷ rs) last (suc fuel) pos rv (here, written) free at lt ok =
      let len = len_of f.form f.name in
      let rest = spelled rs last in
      let at' : drop (pos + length f.before + len) base ≡ rest =
        ap (λ k. drop k base) (omega arith)
        ∙ sym (drop-drop pos (length f.before + len) base)
        ∙ ap (drop (length f.before + len)) at
        ∙ drop-reference f rest in
      let (r, looped, ok', same_ones) =
        cfx_loop-combinations base rs last fuel (pos + length f.before + len)
          (refs_after env_sep path_max getenv (pos + length f.before == 0)
            (has_byte env_sep (joined env_sep f.values)) rv)
          written free at'
          (omega (
            arith,
            lt,
            length-append f.before (reference f.form f.name rest),
            length-reference f rest,
          ))
          (fails-refs_after (pos + length f.before == 0)
            (has_byte env_sep (joined env_sep f.values)) rv ok) in
      let lit : take (pos + length f.before - pos) (drop pos base) ≡ f.before =
        ap (take (pos + length f.before - pos)) at
        ∙ ap (λ k. take k (f.before ++ reference f.form f.name rest)) (omega arith)
        ∙ take-append_all f.before (reference f.form f.name rest) in
      let behind : pos + ((pos + length f.before - pos) + len) ≡ pos + length f.before + len =
        omega arith in
      let (_, _, _, _, frees, some_byte) = here in
      let values = split_values-spelled env_sep f.values frees some_byte in
      (
        (r.0, segment pos f ∷ r.1),
        cfx_loop-IsSpelled fuel pos f rest rv r here looped,
        ok',
        rw (lit, values, behind, same_ones) refl,
      )

  -- CFX_to_SSG of literal text and references to variables that hold lists, in any of the four forms,
  -- ends without an error, and the first `k` strings that GetNextString gives are the first `k` of all
  -- combinations of the values in their order, with the literal text between them, or all of these where
  -- they are fewer. The literal text has no `$` or `%`; a name is not empty, does not hold the byte that ends it, does not start with a
  -- bracket, and is at most `path_max` bytes long; the variable's text is not empty and is the values
  -- with the separator between them, and no value holds the separator.
  pub cfx_to_ssg-combinations :
      (rs : List Ref) (last : Text) (k : ℕ)
      → AreSpelled rs
      → Free starts last
      → (r : EnvRefs × Ssg) × (cfx_to_ssg env_sep path_max getenv (spelled rs last) ≡ some r)
        × (r.0 ≢ parse_err)
        × ((strings k r.1).0 ≡ take k (combinations rs last))
  unfolding cfx_to_ssg
  cfx_to_ssg-combinations rs last k written free =
      let inbuf = spelled rs last in
      let (r, looped, ok, same_ones) =
        cfx_loop-combinations inbuf rs last (length inbuf + 1) 0 refs_none written free refl
          (omega arith) refl in
      let (r', expanded, _, _, shown) = cfx_to_ssg-strings env_sep path_max getenv inbuf k in
      let here : EnvRefs × Ssg =
        (r.0, record { combinations_exhausted = false; base = inbuf; segs = r.1 }) in
      let computed : cfx_to_ssg env_sep path_max getenv inbuf ≡ some here =
        rw (cfx_to_ssg, looped) refl in
      let one_result : here ≡ r' =
        ap (λ (o : Option (EnvRefs × Ssg)). elim o [ none ↦ here | some x ↦ x ])
          (sym computed ∙ expanded) in
      (
        r',
        expanded,
        subst (λ x. x.0 ≢ parse_err) one_result (fails_not r.0 ok),
        shown
            ∙ ap (take k) (
                subst (λ x. expansions inbuf 0 x.1.segs ≡ combinations rs last) one_result
                  same_ones),
      )
