-- ===== src/Links/Changes.antt =====
-- What one macro of dlink.h does to the list that the links stand for.
use k_edit.Prelude.{
  ℕ, ◌%◌, ◌^◌, ◌==◌, true, false, Bool-cases, List, [], ◌∷◌, ◌++◌, length, ◌≡◌, inl, inr, arith,
}
use k_edit.Links.{Links}
use k_edit.Links.Rings.{
  mem, Distinct, first_of, last_of, nx, pv, Seg, mem-append, Apart, ne-first_of, ne-last_of,
  Distinct-append, Seg-append, append-Seg, redirected, reached,
}

-- The links are those of the list `xs`.
pub record IsList (l : Links) (xs : List ℕ) : Type 0 where
  pub ring : Seg (nx l) (pv l) 0 xs 0
  pub distinct : Distinct (0 ∷ xs)
  pub counted : l.count ≡ length xs % 2 ^ 32

Apart-tail : (e : ℕ) (xs ys : List ℕ) → Apart xs (e ∷ ys) → Apart xs ys
Apart-tail e [] ys apart = tt
Apart-tail e (x ∷ xs) ys (out, apart) = (ground (arith, out), Apart-tail e xs ys apart)

-- An element put between two parts of a list
module _ (f g f' g' : ℕ → ℕ) (e : ℕ) (xs ys : List ℕ) where
  pub inserted :
      Seg f g 0 (xs ++ ys) 0
      → Distinct (0 ∷ xs ++ ys)
      → mem e (0 ∷ xs ++ ys) ≡ false
      → f' (last_of 0 xs) ≡ e
      → g' e ≡ last_of 0 xs
      → f' e ≡ first_of ys 0
      → g' (first_of ys 0) ≡ e
      → ((k : ℕ) → (k == last_of 0 xs) ≡ false → (k == e) ≡ false → f' k ≡ f k)
      → ((k : ℕ) → (k == first_of ys 0) ≡ false → (k == e) ≡ false → g' k ≡ g k)
      → Seg f' g' 0 (xs ++ e ∷ ys) 0
  inserted s (out, d) fresh to from on back same same' =
      let (front, behind) = append-Seg f g 0 xs ys 0 s in
      let (dx, dy, apart) = Distinct-append xs ys d in
      let outx : mem 0 xs ≡ false = ground (arith, out, mem-append 0 xs ys) in
      let outy : mem 0 ys ≡ false = ground (arith, out, mem-append 0 xs ys) in
      let newx : (k : ℕ) → mem k (0 ∷ xs) ≡ true → (k == e) ≡ false =
        λ k i. ground (arith, i, fresh, mem-append k xs ys, mem-append e xs ys) in
      let newy : (k : ℕ) → mem k (0 ∷ ys) ≡ true → (k == e) ≡ false =
        λ k i. ground (arith, i, fresh, mem-append k xs ys, mem-append e xs ys) in
      let first : Seg f' g' 0 xs e =
        redirected f g f' g' 0 xs (first_of ys 0) e (outx, dx) (λ k i ne. same k ne (newx k i))
          (λ k i. same' k (ne-first_of k xs ys outx apart i) (newx k (ground (arith, i)))) to from
          front in
      let last : Seg f' g' e ys 0 =
        reached f g f' g' (last_of 0 xs) e ys 0 (outy, dy)
          (λ k i. same k (ne-last_of k xs ys outy apart i) (newy k (ground (arith, i))))
          (λ k i ne. same' k ne (newy k i)) on back behind in
      Seg-append f' g' 0 xs (e ∷ ys) 0 first (to, from, last)

  -- An element taken out between them
  pub removed :
      Seg f g 0 (xs ++ e ∷ ys) 0
      → Distinct (0 ∷ xs ++ e ∷ ys)
      → f' (last_of 0 xs) ≡ first_of ys 0
      → g' (first_of ys 0) ≡ last_of 0 xs
      → ((k : ℕ) → (k == last_of 0 xs) ≡ false → (k == e) ≡ false → f' k ≡ f k)
      → ((k : ℕ) → (k == first_of ys 0) ≡ false → (k == e) ≡ false → g' k ≡ g k)
      → Seg f' g' 0 (xs ++ ys) 0
  removed s (out, d) to from same same' =
      let (front, (on, back, behind)) = append-Seg f g 0 xs (e ∷ ys) 0 s in
      let (dx, (oute, dy), apart) = Distinct-append xs (e ∷ ys) d in
      let outx : mem 0 xs ≡ false = ground (arith, out, mem-append 0 xs (e ∷ ys)) in
      let outy : mem 0 (e ∷ ys) ≡ false = ground (arith, out, mem-append 0 xs (e ∷ ys)) in
      let newx : (k : ℕ) → mem k (0 ∷ xs) ≡ true → (k == e) ≡ false = λ k i.
        elim (Bool-cases (k == 0)) [
          | inl z ↦ ground (arith, z, outy)
          | inr z ↦ ne-first_of k xs (e ∷ ys) outx apart (ground (arith, i, z))
        ] in
      let newy : (k : ℕ) → mem k (0 ∷ ys) ≡ true → (k == e) ≡ false =
        λ k i. ground (arith, i, oute, outy) in
      let first : Seg f' g' 0 xs (first_of ys 0) =
        redirected f g f' g' 0 xs e (first_of ys 0) (outx, dx) (λ k i ne. same k ne (newx k i))
          (λ k i.
            same' k (ne-first_of k xs ys outx (Apart-tail e xs ys apart) i)
              (newx k (ground (arith, i))))
          to from front in
      let last : Seg f' g' (last_of 0 xs) ys 0 =
        reached f g f' g' e (last_of 0 xs) ys 0 (ground (arith, outy), dy)
          (λ k i.
            same k (ne-last_of k xs (e ∷ ys) outy apart (ground (arith, i)))
              (newy k (ground (arith, i))))
          (λ k i ne. same' k ne (newy k i)) to from behind in
      Seg-append f' g' 0 xs ys 0 first last
