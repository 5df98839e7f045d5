-- ===== src/Paths/Prefixes.antt =====
-- CommonPrefixLen (filename.cpp).
use k_edit.Prelude.{
  ℕ, zero, suc, ◌+◌, ◌≤◌, ◌==◌, if◌then◌else◌, true, false, Bool-cases, [], ◌∷◌, length, take, ◌≡◌,
  refl, ap, ◌∙◌, subst, inl, inr, arith,
}
use k_edit.Tabs.{Text}
use k_edit.Paths.{is_dir_sep_ch, prefix_loop, common_prefix_len}
use k_edit.Paths.Parts.{Closed}

-- `n` bytes that the texts share, none or ending in a slash
abbrev pub IsDirPrefix : ℕ → Text → Text → Type 0
IsDirPrefix n s t =
    (n ≤ length s) × (n ≤ length t) × (take n s ≡ take n t) × Closed is_dir_sep_ch (take n s)

prefix_tail : (j c d : ℕ) (s t : Text) → IsDirPrefix (suc j) (c ∷ s) (d ∷ t) → IsDirPrefix j s t
prefix_tail zero c d s t (ls, lt, same, closed) = (omega arith, omega arith, refl, tt)
prefix_tail (suc j) c d [] t (ls, lt, same, closed) = absurd (omega (arith, ls))
prefix_tail (suc j) c d (x ∷ s) t (ls, lt, same, closed) =
    (omega (arith, ls), omega (arith, lt), cc, closed)

prefix_head : (j c d : ℕ) (s t : Text) → IsDirPrefix (suc j) (c ∷ s) (d ∷ t) → c ≡ d
prefix_head j c d s t (ls, lt, same, closed) = cc

prefix_cons :
    (j c : ℕ) (s t : Text) → IsDirPrefix (suc j) s t → IsDirPrefix (suc (suc j)) (c ∷ s) (c ∷ t)
prefix_cons j c [] t (ls, lt, same, closed) = absurd (omega (arith, ls))
prefix_cons j c (x ∷ s) t (ls, lt, same, closed) =
    (omega (arith, ls), omega (arith, lt), ap (c ∷◌) same, closed)

-- The longest prefix of the rest of two texts, and what the loop makes of it
abbrev Longest : ℕ → ℕ → Text → Text → Type 0
Longest ix sep s t =
    (m : ℕ) × IsDirPrefix m s t
    × ((k : ℕ) → IsDirPrefix k s t → k ≤ m)
    × (prefix_loop ix sep s t ≡ (if m == 0 then sep else ix + m))

nothing_shared : (ix sep c d : ℕ) (s t : Text) → (c == d) ≡ false → Longest ix sep (c ∷ s) (d ∷ t)
unfolding prefix_loop
nothing_shared ix sep c d s t differ = (
  0,
  (omega arith, omega arith, refl, tt),
  λ k. elim k as (λ n. IsDirPrefix n (c ∷ s) (d ∷ t) → n ≤ 0) [
    | zero ↦ λ h. omega arith
    | suc j ↦ λ h. absurd (ground (arith, differ, prefix_head j c d s t h))
  ],
  rw differ,
)

-- A byte in front that both texts share, from what the rest of them shares
shared :
    (ix sep c : ℕ) (s t : Text) (m : ℕ)
    → IsDirPrefix m s t
    → ((k : ℕ) → IsDirPrefix k s t → k ≤ m)
    → prefix_loop (ix + 1) (if is_dir_sep_ch c then ix + 1 else sep) s t
      ≡ (if m == 0 then (if is_dir_sep_ch c then ix + 1 else sep) else ix + 1 + m)
    → Longest ix sep (c ∷ s) (c ∷ t)
unfolding prefix_loop
shared ix sep c s t (suc m) p longest loop =
    let same : (c == c) ≡ true = ground arith in
    let n : ix + 1 + suc m ≡ ix + suc (suc m) = omega arith in
    (
      suc (suc m),
      prefix_cons m c s t p,
      λ k. elim k as (λ n. IsDirPrefix n (c ∷ s) (c ∷ t) → n ≤ suc (suc m)) [
        | zero ↦ λ h. omega arith
        | suc j ↦ λ h. omega (arith, longest j (prefix_tail j c c s t h))
      ],
      rw same (loop ∙ ground (arith, n)),
    )
shared ix sep c s t zero p longest loop = elim (Bool-cases (is_dir_sep_ch c)) [
  | inl slash ↦ (
    1,
    (omega arith, omega arith, refl, slash),
    λ k. elim k as (λ n. IsDirPrefix n (c ∷ s) (c ∷ t) → n ≤ 1) [
      | zero ↦ λ h. omega arith
      | suc j ↦ λ h. omega (arith, longest j (prefix_tail j c c s t h))
    ],
    ground (arith, slash, loop),
  )
  | inr other ↦ (
    0,
    (omega arith, omega arith, refl, tt),
    λ k. elim k as (λ n. IsDirPrefix n (c ∷ s) (c ∷ t) → n ≤ 0) [
      | zero ↦ λ h. omega arith
      | suc j ↦ λ h. absurd (no_slash c j s t other h (longest j (prefix_tail j c c s t h)))
    ],
    ground (arith, other, loop),
  )
]
  where
    no_slash :
        (a j : ℕ) (u v : Text)
        → is_dir_sep_ch a ≡ false
        → IsDirPrefix (suc j) (a ∷ u) (a ∷ v)
        → j ≤ 0
        → ⊥
    no_slash a zero u v ne (lu, lv, same, closed) le = cc
    no_slash a (suc j) u v ne h le = omega (arith, le)

prefix_loop-Longest : (ix sep : ℕ) (s t : Text) → Longest ix sep s t
unfolding prefix_loop
prefix_loop-Longest ix sep [] t = (0, (omega arith, omega arith, refl, tt), λ k h. h.0, refl)
prefix_loop-Longest ix sep (c ∷ s) [] = (0, (omega arith, omega arith, refl, tt), λ k h. h.1, refl)
prefix_loop-Longest ix sep (c ∷ s) (d ∷ t) = elim (Bool-cases (c == d)) [
  | inl same ↦
      let e : c ≡ d = ground (arith, same) in
      let (m, p, longest, loop) =
        prefix_loop-Longest (ix + 1) (if is_dir_sep_ch c then ix + 1 else sep) s t in
      subst (λ x. Longest ix sep (c ∷ s) (x ∷ t)) e (shared ix sep c s t m p longest loop)
  | inr differ ↦ nothing_shared ix sep c d s t differ
]

-- CommonPrefixLen gives the length of the longest text, empty or ending in a slash, with which both
-- names start.
pub common_prefix_len-IsDirPrefix :
    (s t : Text)
    → IsDirPrefix (common_prefix_len s t) s t
      × ((k : ℕ) → IsDirPrefix k s t → k ≤ common_prefix_len s t)
unfolding common_prefix_len
common_prefix_len-IsDirPrefix s t =
    let (m, p, longest, loop) = prefix_loop-Longest 0 0 s t in
    let e : m ≡ common_prefix_len s t = ground (arith, loop) in
    (subst (λ n. IsDirPrefix n s t) e p, λ k h. subst (k ≤◌) e (longest k h))
