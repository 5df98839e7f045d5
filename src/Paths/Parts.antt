-- ===== src/Paths/Parts.antt =====
-- The parts of a name (filename.cpp): directory, name and extension.
use k_edit.Prelude.{
  ℕ, zero, suc, ◌+◌, ◌<◌, ◌==◌, if◌then◌else◌, Bool, true, false, Bool-cases, [], ◌∷◌, ◌++◌, length,
  take, drop, take-append-drop, append-nil, Option, none, some, ◌≡◌, refl, sym, ap, ◌∙◌, subst, inl,
  inr, arith,
}
use k_edit.Tabs.{Text}
use k_edit.Paths.{
  find_last_of, ends_dir, is_dot_ch, dirnm_len, ref_dirnm, ref_fname_ext, ref_fnm, ref_ext,
}

-- No byte of the text passes the test.
abbrev pub Without : (ℕ → Bool) → Text → Type 0
Without p [] = Unit
Without p (c ∷ s) = (p c ≡ false) × Without p s

-- The text is empty, or its last byte passes the test.
abbrev pub Closed : (ℕ → Bool) → Text → Type 0
Closed p [] = Unit
Closed p (c ∷ []) = p c ≡ true
Closed p (c ∷ d ∷ s) = Closed p (d ∷ s)

-- What find_last_of gives
abbrev Last : (ℕ → Bool) → Text → Option ℕ → Type 0
Last p s none = Without p s
Last p s (some i) =
    (c : ℕ) × (t : Text) × (drop i s ≡ c ∷ t)
    × (p c ≡ true)
    × Without p t
    × Closed p (take (suc i) s)
    × (i < length s)

Last-cons :
    (p : ℕ → Bool) (c : ℕ) (s : Text) (o : Option ℕ)
    → Last p s o
    → Last p
        (c ∷ s)
        (elim o as (λ _. Option ℕ) [ some i ↦ some (i + 1) | none ↦ if p c then some 0 else none ])
Last-cons p c s none without = elim (Bool-cases (p c)) [
  | inl here ↦ rw here (c, s, refl, here, without, here, omega arith)
  | inr not_here ↦ rw not_here (not_here, without)
]
Last-cons p c [] (some i) (d, t, at, here, without, closed, lt) = absurd (omega (arith, lt))
Last-cons p c (x ∷ s) (some i) (d, t, at, here, without, closed, lt) =
    let e : suc i ≡ i + 1 = omega arith in
    subst (λ k. Last p (c ∷ x ∷ s) (some k)) e (d, t, at, here, without, closed, omega (arith, lt))

find_last_of-Last : (p : ℕ → Bool) (s : Text) → Last p s (find_last_of p s)
unfolding find_last_of
find_last_of-Last p [] = tt
find_last_of-Last p (c ∷ s) = Last-cons p c s (find_last_of p s) (find_last_of-Last p s)

-- A text is empty, or a byte that passes the test and then none that does.
abbrev pub Headed : (ℕ → Bool) → Text → Type 0
Headed p [] = Unit
Headed p (c ∷ s) = (p c ≡ true) × Without p s

drop-suc : (i c : ℕ) (s t : Text) → drop i s ≡ c ∷ t → drop (i + 1) s ≡ t
drop-suc zero c [] t h = absurd (cc)
drop-suc zero c (x ∷ s) t h = cc
drop-suc (suc i) c [] t h = absurd (cc)
drop-suc (suc i) c (x ∷ s) t h =
    let e : suc i + 1 ≡ suc (i + 1) = omega arith in rw e (drop-suc i c s t h)

abbrev behind : Option ℕ → ℕ
behind o = elim o as (λ _. ℕ) [ none ↦ 0 | some i ↦ i + 1 ]

cut_behind :
    (p : ℕ → Bool) (s : Text) (o : Option ℕ)
    → Last p s o
    → Without p (drop (behind o) s) × Closed p (take (behind o) s)
cut_behind p s none without = (without, tt)
cut_behind p s (some i) (c, t, at, here, without, closed, lt) =
    let e : suc i ≡ i + 1 = omega arith in
    (
      subst (Without p) (sym (drop-suc i c s t at)) without,
      subst (λ k. Closed p (take k s)) e closed,
    )

dir_parts : (s : Text) → Without ends_dir (ref_fname_ext s) × Closed ends_dir (ref_dirnm s)
unfolding ref_fname_ext ref_dirnm
dir_parts s = cut_behind ends_dir s (find_last_of ends_dir s) (find_last_of-Last ends_dir s)

Without-tail : (p : ℕ → Bool) (s : Text) → Without p s → Without p (drop 1 s)
Without-tail p [] w = tt
Without-tail p (c ∷ s) (first, w) = w

abbrev name_part : Text → Option ℕ → Text
name_part fx o = elim o as (λ _. Text) [ none ↦ fx | some i ↦ if i == 0 then fx else take i fx ]

abbrev ext_part : Text → Option ℕ → Text
ext_part fx o = elim o as (λ _. Text) [ none ↦ [] | some i ↦ if i == 0 then [] else drop i fx ]

at_dot :
    (fx : Text) (o : Option ℕ)
    → Last is_dot_ch fx o
    → (name_part fx o ++ ext_part fx o ≡ fx)
      × Headed is_dot_ch (ext_part fx o)
      × (ext_part fx o ≡ [] → Without is_dot_ch (drop 1 fx))
at_dot fx none without = (append-nil fx, tt, λ e. Without-tail is_dot_ch fx without)
at_dot fx (some zero) (c, t, at, here, without, closed, lt) =
    (append-nil fx, tt, λ e. subst (λ z. Without is_dot_ch (drop 1 z)) (sym at) without)
at_dot fx (some (suc i)) (c, t, at, here, without, closed, lt) =
    let inside : (suc i == 0) ≡ false = ground arith in
    (
      rw inside (take-append-drop (suc i) fx),
      rw (inside, at) (here, without),
      λ e. absurd (cc (sym at ∙ rw inside at e)),
    )

-- The directory, the name and the extension of a name make it up. The directory is empty or ends in a
-- slash or a colon, and neither is behind it. The extension is empty or starts with the last dot; if it
-- is empty, there is no dot behind the first byte of the part behind the directory.
pub parts_lem :
    (s : Text)
    → (ref_dirnm s ++ (ref_fnm s ++ ref_ext s) ≡ s)
      × Closed ends_dir (ref_dirnm s)
      × Without ends_dir (ref_fnm s ++ ref_ext s)
      × Headed is_dot_ch (ref_ext s)
      × (ref_ext s ≡ [] → Without is_dot_ch (drop 1 (ref_fname_ext s)))
unfolding ref_fnm ref_ext ref_dirnm
parts_lem s =
    let (without, closed) = dir_parts s in
    let fx = ref_fname_ext s in
    let (whole, headed, none_left) =
      at_dot fx (find_last_of is_dot_ch fx) (find_last_of-Last is_dot_ch fx) in
    (
      ap (take (dirnm_len s) s ++◌) whole ∙ take-append-drop (dirnm_len s) s,
      closed,
      subst (Without ends_dir) (sym whole) without,
      headed,
      none_left,
    )
