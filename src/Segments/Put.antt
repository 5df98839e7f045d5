-- ===== src/Segments/Put.antt =====
-- PutLineSeg (fbuf_edit.cpp) where it inserts.
use k_edit.Prelude.{
  take-append_left, drop-append_left, append_assoc, ℕ, zero, suc, ◌+◌, ◌-◌, ◌≤◌, ◌<◌, min, ltb,
  lt→ltb, ◌==◌, true, false, [], ◌∷◌, ◌++◌, length, length-append, length-take, length-replicate,
  take, drop, replicate, Bool, ◌≡◌, refl, sym, ap, ◌∙◌, arith,
}
use native.Mathlib.Decide.{dec_lt, dec_le}
use k_edit.Tabs.{Text, space}
use k_edit.Tabs.Column.{str_cols}
use k_edit.Tabs.Column.Tabless.{
  IsTabless, IsTabless-append, IsTabless-replicate, IsTabless-detab, free_idx_of_col-IsTabless,
  str_cols-IsTabless,
}
use k_edit.Tabs.Expand.Segment.{detab, take_all}
use k_edit.Buffer.{Fbuf}
use k_edit.Lines.{peek_raw_line, EntabMode, put_line_entab}
use k_edit.Segments.{replace_at, merged_line, put_line_seg}
use k_edit.Segments.Insert.{padded, opened, dup_line_for_insert-opened}

-- The first `w` bytes of a text, padded with spaces to `w`
abbrev pub fitted : ℕ → Text → Text
fitted w ins = take w ins ++ replicate (w - length ins) space

replicate_add : (j k w : ℕ) → w ≡ j + k → replicate w space ≡ replicate j space ++ replicate k space
replicate_add zero k w h = ap (λ n. replicate n space) (omega (arith, h))
replicate_add (suc j) k zero h = absurd (omega (arith, h))
replicate_add (suc j) k (suc w) h = ap (space ∷◌) (replicate_add j k w (omega (arith, h)))

-- A text in place of the one in the middle
replace_middle :
    (at n : ℕ) (a m t b : Text)
    → at ≡ length a
    → n ≡ length m
    → replace_at at n t (a ++ (m ++ b)) ≡ a ++ (t ++ b)
replace_middle at n a m t b here long =
    let front : take at (a ++ (m ++ b)) ≡ a =
      ap (λ k. take k (a ++ (m ++ b))) here ∙ take-append_left a (m ++ b) in
    let rest : drop (at + n) (a ++ (m ++ b)) ≡ b =
      ap (drop (at + n)) (sym (append_assoc a m b))
      ∙ drop-append_left (at + n) (a ++ m) b (omega (arith, here, long, length-append a m)) in
    rw (front, rest)

take-min : (w : ℕ) (ins : Text) → take (min (length ins) w) ins ≡ take w ins
take-min w ins = elim (dec_le (length ins) w) [
  | yes short ↦
      let all : min (length ins) w ≡ length ins = omega (arith, short) in
      rw all (take_all (length ins) ins (omega arith) ∙ sym (take_all w ins short))
  | no long ↦ let same : min (length ins) w ≡ w = omega (arith, long) in rw same
]

-- What is put over the hole `w` wide behind `a`
filled_hole :
    (col_max tw w x_right : ℕ) (keep_trail : Bool) (mode : EntabMode) (a b ins : Text)
    → IsTabless (a ++ (replicate w space ++ b))
    → x_right + 1 ≡ length a + w
    → merged_line keep_trail mode col_max tw (a ++ (replicate w space ++ b)) ins (length a) x_right
      ≡ a ++ (fitted w ins ++ b)
filled_hole col_max tw w x_right keep_trail mode a b ins tabless wide =
    let dest = a ++ (replicate w space ++ b) in
    let t = take w ins in
    let n = min (length ins) w in
    let k = w - n in
    let hole : x_right + 1 - length a ≡ w = omega (arith, wide) in
    let count : n ≡ length t = omega (arith, length-take w ins) in
    let cols : str_cols tw dest ≡ length a + (w + length b) =
      str_cols-IsTabless tw dest tabless
      ∙ omega (
        arith,
        length-append a (replicate w space ++ b),
        length-append (replicate w space) b,
        length-replicate w space,
      ) in
    let at = free_idx_of_col-IsTabless tw dest (length a) tabless in
    let behind : ltb (length a + (w + length b)) x_right ≡ false = ground (arith, wide) in
    let split : dest ≡ a ++ (replicate n space ++ (replicate k space ++ b)) =
      ap (λ m. a ++ (m ++ b)) (replicate_add n k w (omega arith))
      ∙ ap (a ++◌) (append_assoc (replicate n space) (replicate k space) b) in
    let once : replace_at (length a) n t dest ≡ a ++ (t ++ (replicate k space ++ b)) =
      ap (replace_at (length a) n t) split
      ∙ replace_middle (length a) n a (replicate n space) t (replicate k space ++ b) refl
          (sym (length-replicate n space)) in
    let flat : a ++ (t ++ (replicate k space ++ b)) ≡ (a ++ t) ++ (replicate k space ++ b) =
      sym (append_assoc a t (replicate k space ++ b)) in
    let twice : replace_at (length a + n) k (replicate k space)
          (a ++ (t ++ (replicate k space ++ b)))
        ≡ (a ++ t) ++ (replicate k space ++ b) =
      ap (replace_at (length a + n) k (replicate k space)) flat
      ∙ replace_middle (length a + n) k (a ++ t) (replicate k space) (replicate k space) b
          (omega (arith, count, length-append a t)) (sym (length-replicate k space)) in
    let pad : w - length ins ≡ k = omega arith in
    let result : a ++ (t ++ (replicate k space ++ b)) ≡ a ++ (fitted w ins ++ b) =
      ap (a ++◌) (sym (append_assoc t (replicate k space) b))
      ∙ ap (λ j. a ++ ((t ++ replicate j space) ++ b)) (sym pad) in
    elim (dec_lt n w) [
      | yes room ↦
          rw (hole, cols, behind, at, take-min w ins, once, lt→ltb n w room)
            (twice ∙ (sym flat ∙ result))
      | no full ↦
          let over : ltb n w ≡ false = ground (arith, full) in
          rw (hole, cols, behind, at, take-min w ins, once, over) result
    ]

IsTabless-take : (n : ℕ) (s : Text) → IsTabless s → IsTabless (take n s)
IsTabless-take zero s t = tt
IsTabless-take (suc n) [] t = tt
IsTabless-take (suc n) (c ∷ s) (plain, t) = (plain, IsTabless-take n s t)

IsTabless-drop : (n : ℕ) (s : Text) → IsTabless s → IsTabless (drop n s)
IsTabless-drop zero s t = t
IsTabless-drop (suc n) [] t = tt
IsTabless-drop (suc n) (c ∷ s) (plain, t) = IsTabless-drop n s t

IsTabless-padded : (x : ℕ) (e : Text) → IsTabless e → IsTabless (padded x e)
IsTabless-padded x e t =
    IsTabless-append e (replicate (x - length e) space) t (IsTabless-replicate (x - length e))

IsTabless-opened : (x n : ℕ) (e : Text) → IsTabless e → IsTabless (opened x n e)
IsTabless-opened x n e t =
    let p = IsTabless-padded x e t in
    IsTabless-append (take x (padded x e)) (replicate n space ++ drop x (padded x e))
      (IsTabless-take x (padded x e) p)
      (IsTabless-append (replicate n space) (drop x (padded x e)) (IsTabless-replicate n)
        (IsTabless-drop x (padded x e) p))

length-take-padded : (x : ℕ) (e : Text) → length (take x (padded x e)) ≡ x
length-take-padded x e = omega (
  arith,
  length-take x (padded x e),
  length-append e (replicate (x - length e) space),
  length-replicate (x - length e) space,
)

-- For a positive tab width, where the line with its tabs expanded is not longer than COL_MAX: inserting
-- `ins` at the columns from `x_left` on, which is not 0, to `x_right`, which is not less, PutLineSeg puts
-- the expanded line, padded with spaces up to `x_left` if it ends before, with as much of `ins` as the
-- columns hold in front of `x_left`, and spaces behind it up to `x_right`, also where nothing follows.
pub put_line_seg-fitted :
    (keep_trail : Bool) (mode : EntabMode) (col_max tw y x_left x_right : ℕ) (ins : Text) (f : Fbuf)
    → 0 < tw
    → 0 < x_left
    → x_left ≤ x_right
    → length (detab tw 0 (peek_raw_line f y)) ≤ col_max
    → put_line_seg keep_trail mode col_max tw y ins x_left x_right true f
      ≡ put_line_entab keep_trail mode tw y
          (take x_left (padded x_left (detab tw 0 (peek_raw_line f y)))
            ++ (fitted (x_right + 1 - x_left) ins
                ++ drop x_left (padded x_left (detab tw 0 (peek_raw_line f y)))))
          f
unfolding put_line_seg
put_line_seg-fitted keep_trail mode col_max tw y x_left x_right ins f p inside le fits =
    let e = detab tw 0 (peek_raw_line f y) in
    let w = x_right + 1 - x_left in
    let a = take x_left (padded x_left e) in
    let b = drop x_left (padded x_left e) in
    let tabless = IsTabless-opened x_left w e (IsTabless-detab tw 0 (peek_raw_line f y)) in
    let size = length-take-padded x_left e in
    let elsewhere : (x_left == 0) ≡ false = ground (arith, inside) in
    let dest = dup_line_for_insert-opened col_max tw y x_left w f p fits in
    let filled =
      filled_hole col_max tw w x_right keep_trail mode a b ins tabless (omega (arith, size, le)) in
    let line : merged_line keep_trail mode col_max tw (a ++ (replicate w space ++ b)) ins x_left
          x_right
        ≡ a ++ (fitted w ins ++ b) =
      ap (λ x. merged_line keep_trail mode col_max tw (a ++ (replicate w space ++ b)) ins x x_right)
        (sym size)
      ∙ filled in
    rw (elsewhere, dest, line)
