-- ===== src/Paths/Unions.antt =====
-- Path::Union (filename.cpp) with a first name that starts with a dot and has no other, such as `.bak`.
use k_edit.Prelude.{
  ℕ, ◌+◌, ◌==◌, ◌||◌, Bool, true, false, [], ◌∷◌, ◌++◌, append-nil, take, drop, reverse, Option,
  none, some, ◌≡◌, ◌≢◌, ◌⊎◌, inl, inr, refl, ap, ◌∙◌, arith,
}
use mathlib.Core.List.{reverse-cons}
use k_edit.Tabs.{Text}
use k_edit.Paths.{
  find_last_of, ends_dir, is_dot_ch, ref_dirnm, ref_fname_ext, fnm_of, ext_of, ref_fnm, ref_ext, eq,
  starts_with, is_dot_or_dot_dot, without_last_dot, union,
}
use k_edit.Paths.Parts.{Without, Headed, parts_lem}

find_last_of-none : (p : ℕ → Bool) (s : Text) → Without p s → find_last_of p s ≡ none
unfolding find_last_of
find_last_of-none p [] w = refl
find_last_of-none p (c ∷ s) (first, w) = rw (find_last_of-none p s w, first)

-- A slash, a colon or a dot
abbrev pub is_special : ℕ → Bool
is_special c = ends_dir c || is_dot_ch c

Without-special : (s : Text) → Without is_special s → Without ends_dir s × Without is_dot_ch s
Without-special [] w = (tt, tt)
Without-special (c ∷ s) (first, w) =
    let (a, b) = Without-special s w in ((ground (arith, first), a), (ground (arith, first), b))

-- The last byte of a text that is not empty
last_byte :
    (q : ℕ → Bool) (c : ℕ) (w : Text)
    → Without q (c ∷ w)
    → (h : ℕ) × (t : Text) × (reverse (c ∷ w) ≡ h ∷ t) × (q h ≡ false)
last_byte q c [] (first, w) = (c, [], refl, first)
last_byte q c (d ∷ s) (first, w) =
    let (h, t, e, low) = last_byte q d s w in
    (h, t ++ c ∷ [], reverse-cons c (d ∷ s) ∙ ap (◌++ c ∷ []) e, low)

no_start : (h n : ℕ) (t needle : Text) → (n == h) ≡ false → starts_with (h ∷ t) (n ∷ needle) ≡ false
unfolding starts_with
no_start h n t needle ne = rw ne

without_last_dot-append :
    (a : Text) (b : ℕ) (t r : Text)
    → without_last_dot (b ∷ t) ≡ some r
    → without_last_dot (a ++ b ∷ t) ≡ some (a ++ r)
unfolding without_last_dot
without_last_dot-append [] b t r h = h
without_last_dot-append (x ∷ []) b t r h = rw h refl
without_last_dot-append (x ∷ y ∷ a) b t r h = rw (without_last_dot-append (y ∷ a) b t r h) refl

no_dot_kept :
    (b : ℕ) (t : Text) → Without is_dot_ch (b ∷ t) → without_last_dot (b ∷ t) ≡ some (b ∷ t)
unfolding without_last_dot
no_dot_kept b [] (plain, w) = rw plain refl
no_dot_kept b (c ∷ t) (plain, w) = rw (no_dot_kept c t w) refl

dot_alone : (y : ℕ) → is_dot_ch y ≡ true → without_last_dot (y ∷ []) ≡ some []
unfolding without_last_dot
dot_alone y h = rw h refl

abbrev one_dot : Text
one_dot = b'.' ∷ []

-- A dot alone goes, another extension stays.
last_dot :
    (dir : Text) (c : ℕ) (w e : Text)
    → Without is_dot_ch (c ∷ w)
    → Headed is_dot_ch e
    → ((e ≡ one_dot)
        × (without_last_dot (dir ++ ((b'.' ∷ c ∷ w) ++ e)) ≡ some (dir ++ b'.' ∷ c ∷ w)))
      ⊎ ((e ≢ one_dot)
          × (without_last_dot (dir ++ ((b'.' ∷ c ∷ w) ++ e)) ≡ some (dir ++ ((b'.' ∷ c ∷ w) ++ e))))
last_dot dir c w [] plain h = inr (
  λ e. absurd (cc),
  rw (append-nil w) (
      without_last_dot-append dir b'.' (c ∷ w) (b'.' ∷ c ∷ w)
        (without_last_dot-append (b'.' ∷ []) c w (c ∷ w) (no_dot_kept c w plain))),
)
last_dot dir c w (x ∷ []) plain (dot, none_left) =
    let e : x ≡ b'.' = ground (arith, dot) in
    let gone = without_last_dot-append (b'.' ∷ c ∷ w) x [] [] (dot_alone x dot) in
    inl (
      ap (◌∷ []) e,
      without_last_dot-append dir b'.' (c ∷ (w ++ x ∷ [])) (b'.' ∷ c ∷ (w ++ [])) gone
          ∙ ap (λ t. some (dir ++ b'.' ∷ c ∷ t)) (append-nil w),
    )
last_dot dir c w (x ∷ y ∷ t) plain (dot, none_left) = inr (
  λ e. absurd (cc),
  without_last_dot-append dir b'.' (c ∷ (w ++ x ∷ y ∷ t)) (b'.' ∷ c ∷ (w ++ x ∷ y ∷ t)) (
      without_last_dot-append (b'.' ∷ c ∷ w) x (y ∷ t) (x ∷ y ∷ t)
        (without_last_dot-append (x ∷ []) y t (y ∷ t) (no_dot_kept y t none_left))),
)

module _ (c : ℕ) (w : Text) (plain : Without is_special (c ∷ w)) where
  not_dots : is_dot_or_dot_dot (b'.' ∷ c ∷ w) ≡ false
  unfolding is_dot_or_dot_dot
  not_dots =
      let (h, t, e, low) = last_byte is_special c w plain in
      let back : reverse (b'.' ∷ c ∷ w) ≡ h ∷ (t ++ b'.' ∷ []) =
        reverse-cons b'.' (c ∷ w) ∙ ap (◌++ b'.' ∷ []) e in
      let no_dot : (b'.' == h) ≡ false = ground (arith, low) in
      let no_sep : (b'/' == h) ≡ false = ground (arith, low) in
      let other : (c == b'.') ≡ false = ground (arith, plain.0) in
      rw (eq, back, no_dot, no_sep, other)

  no_dir : find_last_of ends_dir (b'.' ∷ c ∷ w) ≡ none
  no_dir = find_last_of-none ends_dir (b'.' ∷ c ∷ w) (refl, (Without-special (c ∷ w) plain).0)

  fname_ext_whole : ref_fname_ext (b'.' ∷ c ∷ w) ≡ b'.' ∷ c ∷ w
  unfolding ref_fname_ext
  fname_ext_whole =
      ap (λ (o : Option ℕ). drop (elim o as (λ _. ℕ) [ none ↦ 0 | some i ↦ i + 1 ]) (b'.' ∷ c ∷ w))
        no_dir

  dirnm_nothing : ref_dirnm (b'.' ∷ c ∷ w) ≡ []
  unfolding ref_dirnm
  dirnm_nothing =
      ap (λ (o : Option ℕ). take (elim o as (λ _. ℕ) [ none ↦ 0 | some i ↦ i + 1 ]) (b'.' ∷ c ∷ w))
        no_dir

  first_dot : find_last_of is_dot_ch (b'.' ∷ c ∷ w) ≡ some 0
  unfolding find_last_of
  first_dot = rw (find_last_of-none is_dot_ch (c ∷ w) (Without-special (c ∷ w) plain).1)

  fnm_whole : ref_fnm (b'.' ∷ c ∷ w) ≡ b'.' ∷ c ∷ w
  unfolding ref_fnm
  fnm_whole = ap fnm_of fname_ext_whole ∙ rw (fnm_of, first_dot)

  ext_nothing : ref_ext (b'.' ∷ c ∷ w) ≡ []
  unfolding ref_ext
  ext_nothing = ap ext_of fname_ext_whole ∙ rw (ext_of, first_dot)

  union_lem :
      (s : Text)
      → union (b'.' ∷ c ∷ w) s ≡ without_last_dot (ref_dirnm s ++ ((b'.' ∷ c ∷ w) ++ ref_ext s))
  unfolding union
  union_lem s = rw (dirnm_nothing, fnm_whole, not_dots, ext_nothing)

  -- For a first name of a dot and then text, not empty, without a slash, a colon and a dot: Path::Union
  -- gives the directory of the second name, the first name, and the extension of the second name, which
  -- is left out where it is a dot alone.
  pub union-dot_name :
      (s : Text)
      → ((ref_ext s ≡ b'.' ∷ []) × (union (b'.' ∷ c ∷ w) s ≡ some (ref_dirnm s ++ b'.' ∷ c ∷ w)))
        ⊎ ((ref_ext s ≢ b'.' ∷ [])
            × (union (b'.' ∷ c ∷ w) s ≡ some (ref_dirnm s ++ ((b'.' ∷ c ∷ w) ++ ref_ext s))))
  union-dot_name s =
      let (whole, closed, clear, headed, _) = parts_lem s in
      elim (last_dot (ref_dirnm s) c w (ref_ext s) (Without-special (c ∷ w) plain).1 headed) [
        | inl (dot, gone) ↦ inl (dot, union_lem s ∙ gone)
        | inr (other, kept) ↦ inr (other, union_lem s ∙ kept)
      ]
