-- ===== src/Tabs/Column/Cache.antt =====
-- The cached conversions of class `IdxCol_cached` (ed_core.h) against those without a cache.
use k_edit.Prelude.{
  drop_past, false, ℕ, zero, suc, ◌+◌, ◌-◌, ◌≤◌, ◌<◌, ◌==◌, if◌then◌else◌, [], ◌∷◌, length, drop,
  ◌≡◌, refl, arith, min, ◌∙◌, sym, ap, subst,
}
use k_edit.Tabs.{Text, next_col}
use k_edit.Tabs.Column.{
  Mark, origin, col_of_free_idx, idx_walk, free_idx_of_col, free_idx_of_col_cached, cached_walk,
  col_of_idx, col_walk,
}
use native.Mathlib.Nat.{add-zero, zero-add}
use k_edit.Tabs.Column.Walk.{le-col_from, col_from, col_from_zero, col_of_idx_lem, col_walk_lem}
use native.Mathlib.Decide.{dec_lt}

-- class `IdxCol_cached`
pub record IdxColCached : Type 0 where
  pub tw : ℕ
  pub sr : Text
  pub last_cofi : Mark
  pub last_fioc : Mark

abbrev pub new : ℕ → Text → IdxColCached
new tw sr = record { tw = tw; sr = sr; last_cofi = origin; last_fioc = origin }

abbrev pub reset : IdxColCached → Text → IdxColCached
reset c sr = record c { sr = sr; last_cofi = origin; last_fioc = origin }

pub i2c : IdxColCached → ℕ → ℕ × IdxColCached
i2c c ic =
    let rv = col_of_free_idx c.tw c.sr ic c.last_cofi.ix c.last_cofi.col in
    (rv, record c { last_cofi = record { col = rv; ix = ic } })

pub c2fi : IdxColCached → ℕ → ℕ × IdxColCached
c2fi c col =
    let (ix, m) = free_idx_of_col_cached c.tw c.sr col c.last_fioc in
    (ix, record c { last_fioc = m })

-- `none` is `eosr`: on an empty content `length() - 1` wraps around, and the free index is given.
pub c2ci : IdxColCached → ℕ → ℕ × IdxColCached
c2ci c col =
    let (ix, c') = c2fi c col in (if length c.sr == 0 then ix else min ix (length c.sr - 1), c')

-- A mark that stands on a character of the text or at its end, at that character's column.
abbrev IsMark : ℕ → Text → Mark → Type 0
IsMark tw s m = (m.ix ≤ length s) × (m.col ≡ col_from tw 0 s m.ix)

abbrev pub IsValid : IdxColCached → Type 0
IsValid c = IsMark c.tw c.sr c.last_cofi × IsMark c.tw c.sr c.last_fioc

pub new-IsValid : (tw : ℕ) (s : Text) → IsValid (new tw s)
new-IsValid tw s =
    let start = sym (col_from_zero tw 0 s) in ((omega arith, start), (omega arith, start))

-- Walking on from inside the text is walking on from its start.
col_from-drop :
    (tw col : ℕ) (s : Text) (k i : ℕ)
    → k ≤ length s
    → col_from tw (col_from tw col s k) (drop k s) i ≡ col_from tw col s (k + i)
col_from-drop tw col [] zero i h = omega arith
col_from-drop tw col [] (suc k) i h = absurd (omega arith)
col_from-drop tw col (c ∷ s) zero i h = ap (col_from tw col (c ∷ s)) (omega arith)
col_from-drop tw col (c ∷ s) (suc k) i h =
    let e : suc k + i ≡ suc (k + i) = omega arith in
    rw e (col_from-drop tw (next_col tw c col) s k i (omega arith))

length-drop_add : (k : ℕ) (s : Text) → k ≤ length s → k + length (drop k s) ≡ length s
length-drop_add zero s h = omega arith
length-drop_add (suc k) [] h = absurd (omega arith)
length-drop_add (suc k) (c ∷ s) h = omega (arith, length-drop_add k s)

col_of_free_idx-cached :
    (tw : ℕ) (s : Text) (m : Mark) (i : ℕ)
    → IsMark tw s m
    → col_of_free_idx tw s i m.ix m.col ≡ col_from tw 0 s i
unfolding col_of_free_idx
col_of_free_idx-cached tw s m i (within, at) = elim (dec_lt i m.ix) [
  | yes q ↦ ground (arith, col_walk_lem tw (length s) s 0 i 0)
  | no q ↦
      let k = i - m.ix in
      let e : m.ix + k ≡ i = omega arith in
      let w =
        col_walk_lem tw (length s) (drop m.ix s) m.ix k m.col (length-drop_add m.ix s within) in
      let d = col_from-drop tw 0 s m.ix k within in
      let r : col_walk tw (length s) (drop m.ix s) m.ix i m.col ≡ col_from tw 0 s i =
        cc (w, d, e, at) in
      ground (arith, r)
]

-- Beginning the walk at a mark that is not behind the column does not change where it ends.
idx_walk-drop :
    (tw : ℕ) (s : Text) (k ix col tgt : ℕ)
    → 0 < tw
    → k ≤ length s
    → col_from tw col s k ≤ tgt
    → idx_walk tw (drop k s) (ix + k) (col_from tw col s k) tgt ≡ idx_walk tw s ix col tgt
unfolding idx_walk
idx_walk-drop tw [] zero ix col tgt p h q = omega arith
idx_walk-drop tw [] (suc k) ix col tgt p h q = absurd (omega arith)
idx_walk-drop tw (c ∷ s) zero ix col tgt p h q = rw add-zero
idx_walk-drop tw (c ∷ s) (suc k) ix col tgt p h q =
    let e : ix + suc k ≡ ix + 1 + k = omega arith in
    rw e (
      ground (
        arith,
        idx_walk-drop tw s k (ix + 1) (next_col tw c col) tgt p,
        le-col_from tw (next_col tw c col) s k p,
      ))

-- The loop with the reference parameters finds the same index, and leaves a mark in the text.
cached_walk_lem :
    (tw : ℕ) (s : Text) (ix col tgt : ℕ)
    → (k : ℕ) × ((cached_walk tw s ix col tgt).0 ≡ idx_walk tw s ix col tgt)
      × (k ≤ length s)
      × ((cached_walk tw s ix col tgt).1 ≡ record { col = col_from tw col s k; ix = ix + k })
unfolding cached_walk idx_walk
cached_walk_lem tw [] ix col tgt = (0, refl, omega arith, ground arith)
cached_walk_lem tw (c ∷ s) ix col tgt = elim (dec_lt tgt (next_col tw c col)) [
  | yes q ↦ (0, ground arith, omega arith, ground arith)
  | no q ↦
      let (k, e, le, m) = cached_walk_lem tw s (ix + 1) (next_col tw c col) tgt in
      (suc k, ground arith, omega arith, ground arith)
]

cached_from_IsMark :
    (tw : ℕ) (s : Text) (k tgt : ℕ)
    → 0 < tw
    → k ≤ length s
    → col_from tw 0 s k ≤ tgt
    → ((cached_walk tw (drop k s) k (col_from tw 0 s k) tgt).0 ≡ idx_walk tw s 0 0 tgt)
      × IsMark tw s (cached_walk tw (drop k s) k (col_from tw 0 s k) tgt).1
cached_from_IsMark tw s k tgt p h q =
    let (j, e, le, m) = cached_walk_lem tw (drop k s) k (col_from tw 0 s k) tgt in
    let d : idx_walk tw (drop k s) k (col_from tw 0 s k) tgt ≡ idx_walk tw s 0 0 tgt =
      rw zero-add at (idx_walk-drop tw s k 0 0 tgt p h q) in
    (
      e ∙ d,
      subst (IsMark tw s) (sym m)
          (omega (arith, length-drop_add k s h), col_from-drop tw 0 s k j h),
    )

-- What the cached walk must give.
abbrev Agrees : ℕ → Text → ℕ → ℕ × Mark → Type 0
Agrees tw s tgt r = (r.0 ≡ free_idx_of_col tw s tgt) × IsMark tw s r.1

free_idx_of_col_cached_lem :
    (tw : ℕ) (s : Text) (tgt : ℕ) (m : Mark)
    → 0 < tw
    → IsMark tw s m
    → Agrees tw s tgt (free_idx_of_col_cached tw s tgt m)
unfolding free_idx_of_col_cached free_idx_of_col
free_idx_of_col_cached_lem tw s zero m p v = (refl, v)
free_idx_of_col_cached_lem tw s (suc t) m p (within, at) = elim (dec_lt (suc t) m.col) [
  | yes q ↦
      let (e, v) =
        cached_from_IsMark tw s 0 (suc t) p (omega arith) (omega (arith, col_from_zero tw 0 s)) in
      let r : free_idx_of_col_cached tw s (suc t) m
          ≡ cached_walk tw s 0 (col_from tw 0 s 0) (suc t) =
        ground (arith, col_from_zero tw 0 s) in
      subst (Agrees tw s (suc t)) (sym r) (ground (arith, e), v)
  | no q ↦
      let (e, v) = cached_from_IsMark tw s m.ix (suc t) p within (omega arith) in
      let r : free_idx_of_col_cached tw s (suc t) m
          ≡ cached_walk tw (drop m.ix s) m.ix (col_from tw 0 s m.ix) (suc t) =
        ground arith in
      subst (Agrees tw s (suc t)) (sym r) (ground (arith, e), v)
]

-- On a valid cache with a positive tab width `c2fi` gives the index that `FreeIdxOfCol` finds
-- without a cache, for every column, and leaves a valid cache.
pub c2fi_lem :
    (c : IdxColCached) (tgt : ℕ)
    → 0 < c.tw
    → IsValid c
    → ((c2fi c tgt).0 ≡ free_idx_of_col c.tw c.sr tgt) × IsValid (c2fi c tgt).1
unfolding c2fi
c2fi_lem c tgt p (cofi, fioc) =
    let (e, v) = free_idx_of_col_cached_lem c.tw c.sr tgt c.last_fioc p fioc in (e, (cofi, v))

pub c2ci_lem :
    (c : IdxColCached) (tgt : ℕ)
    → 0 < c.tw
    → IsValid c
    → 0 < length c.sr
    → ((c2ci c tgt).0 ≡ min (free_idx_of_col c.tw c.sr tgt) (length c.sr - 1))
      × IsValid (c2ci c tgt).1
      × ((c2ci c tgt).1.sr ≡ c.sr)
      × ((c2ci c tgt).1.tw ≡ c.tw)
unfolding c2ci c2fi
c2ci_lem c tgt p v some_text =
    let (e, v') = c2fi_lem c tgt p v in
    let full : (length c.sr == 0) ≡ false = ground (arith, some_text) in
    (rw full (ap (λ i. min i (length c.sr - 1)) e), v', refl, refl)

-- On a valid cache `i2c` gives the column that `ColOfFreeIdx` finds without a cache, for an
-- index in the text or at its end, and leaves a valid cache.
pub i2c_lem :
    (c : IdxColCached) (i : ℕ)
    → IsValid c
    → i ≤ length c.sr
    → ((i2c c i).0 ≡ col_of_idx c.tw c.sr i) × IsValid (i2c c i).1
unfolding i2c
i2c_lem c i (cofi, fioc) h =
    let e = col_of_free_idx-cached c.tw c.sr c.last_cofi i cofi in
    (e ∙ sym (col_of_idx_lem c.tw c.sr i), ((h, e), fioc))

-- The first call past the end is still right.
i2c_first : (c : IdxColCached) (i : ℕ) → IsValid c → (i2c c i).0 ≡ col_of_idx c.tw c.sr i
unfolding i2c
i2c_first c i (cofi, fioc) =
    col_of_free_idx-cached c.tw c.sr c.last_cofi i cofi ∙ sym (col_of_idx_lem c.tw c.sr i)

col_from_past :
    (tw col : ℕ) (s : Text) (i : ℕ)
    → length s ≤ i
    → col_from tw col s i ≡ col_from tw col s (length s) + (i - length s)
col_from_past tw col [] i h = omega arith
col_from_past tw col (c ∷ s) zero h = absurd (omega arith)
col_from_past tw col (c ∷ s) (suc i) h =
    omega (arith, col_from_past tw (next_col tw c col) s i (omega arith))

col_of_free_idx_past :
    (tw : ℕ) (s : Text) (i j col : ℕ)
    → length s < i
    → i ≤ j
    → col_of_free_idx tw s j i col ≡ col + (j - length s)
unfolding col_of_free_idx
col_of_free_idx_past tw s i j col h k = rw (drop_past i s (omega arith)) (ground arith)

-- On a cache that was valid before, a second `i2c` at or behind an index `i` past the end of the
-- text gives a column that is too large, by the distance of `i` from the end.
pub i2c_past_end :
    (c : IdxColCached) (i j : ℕ)
    → IsValid c
    → length c.sr < i
    → i ≤ j
    → (i2c (i2c c i).1 j).0 ≡ col_of_idx c.tw c.sr j + (i - length c.sr)
unfolding i2c
i2c_past_end c i j v h k = omega (
  arith,
  col_of_free_idx_past c.tw c.sr i j (i2c c i).0 h k,
  i2c_first c i v,
  col_of_idx_lem c.tw c.sr i,
  col_of_idx_lem c.tw c.sr j,
  col_from_past c.tw 0 c.sr i (omega arith),
  col_from_past c.tw 0 c.sr j (omega arith),
)
