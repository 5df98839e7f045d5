-- ===== src/Links/Inserts.antt =====
-- The insertions of dlink.h on the list that the links stand for.
use k_edit.Prelude.{
  ℕ, ◌+◌, ◌%◌, ◌^◌, ◌==◌, false, List, [], ◌∷◌, ◌++◌, length, length-append, append-nil,
  append_assoc, ◌≡◌, refl, sym, ◌∙◌, subst, arith,
}
use k_edit.Links.{Links, insert_first, insert_last, insert_after, insert_before}
use k_edit.Links.Rings.{
  mem, Distinct, first_of, last_of, nx, pv, mem-append, append-Seg, fresh-last_of, fresh-first_of,
  first_edge,
}
use k_edit.Links.Changes.{IsList, inserted}

-- A new element keeps the elements distinct.
Distinct-insert :
    (e : ℕ) (xs ys : List ℕ)
    → Distinct (0 ∷ xs ++ ys)
    → mem e (0 ∷ xs ++ ys) ≡ false
    → Distinct (0 ∷ xs ++ e ∷ ys)
Distinct-insert e [] ys (out, d) fresh = (ground (arith, out, fresh), (ground (arith, fresh), d))
Distinct-insert e (x ∷ xs) ys (out, (outx, d)) fresh =
    let (out', d') = Distinct-insert e xs ys (ground (arith, out), d) (ground (arith, fresh)) in
    (
      ground (arith, out, out'),
      (ground (arith, outx, fresh, mem-append x xs ys, mem-append x xs (e ∷ ys)), d'),
    )

counted-insert :
    (c e : ℕ) (xs ys : List ℕ)
    → c ≡ length (xs ++ ys) % 2 ^ 32
    → (c + 1) % 2 ^ 32 ≡ length (xs ++ e ∷ ys) % 2 ^ 32
counted-insert c e xs ys h = omega (arith, h, length-append xs ys, length-append xs (e ∷ ys))

-- Links that differ by an element between two parts of a list
IsList-insert :
    (l l' : Links) (e : ℕ) (xs ys : List ℕ)
    → IsList l (xs ++ ys)
    → mem e (0 ∷ xs ++ ys) ≡ false
    → nx l' (last_of 0 xs) ≡ e
    → pv l' e ≡ last_of 0 xs
    → nx l' e ≡ first_of ys 0
    → pv l' (first_of ys 0) ≡ e
    → ((k : ℕ) → (k == last_of 0 xs) ≡ false → (k == e) ≡ false → nx l' k ≡ nx l k)
    → ((k : ℕ) → (k == first_of ys 0) ≡ false → (k == e) ≡ false → pv l' k ≡ pv l k)
    → l'.count ≡ (l.count + 1) % 2 ^ 32
    → IsList l' (xs ++ e ∷ ys)
IsList-insert l l' e xs ys v fresh to from on back same same' count = record {
  ring =
      inserted (nx l) (pv l) (nx l') (pv l') e xs ys v.ring v.distinct fresh to from on back same
        same';
  distinct = Distinct-insert e xs ys v.distinct fresh;
  counted = count ∙ counted-insert l.count e xs ys v.counted;
}

pub insert_first-IsList :
    (e : ℕ) (l : Links) (xs : List ℕ)
    → IsList l xs
    → mem e (0 ∷ xs) ≡ false
    → IsList (insert_first e l) (e ∷ xs)
unfolding insert_first
insert_first-IsList e l xs v fresh =
    let first = first_edge (nx l) (pv l) 0 xs 0 v.ring in
    let ne = fresh-first_of e 0 xs fresh in
    IsList-insert l (insert_first e l) e [] xs v fresh (ground (arith, first, fresh))
      (ground (arith, first, fresh)) (ground (arith, first, fresh)) (ground (arith, first, fresh))
      (λ k nl nf. ground (arith, first, fresh)) (λ k nl nf. ground (arith, first, fresh)) refl

last_of-append : (p r : ℕ) (xs : List ℕ) → last_of p (xs ++ r ∷ []) ≡ r
last_of-append p r [] = refl
last_of-append p r (x ∷ xs) = last_of-append x r xs

-- An element put behind `r`, or at the end of the list, where the edges in front are those of `p`
module _ (e : ℕ) (l : Links) (xs ys : List ℕ) (v : IsList l (xs ++ ys))
    (fresh : mem e (0 ∷ xs ++ ys) ≡ false) where
  edges : (nx l (last_of 0 xs) ≡ first_of ys 0) × (pv l (first_of ys 0) ≡ last_of 0 xs)
  edges =
      first_edge (nx l) (pv l) (last_of 0 xs) ys 0 ((append-Seg (nx l) (pv l) 0 xs ys 0 v.ring).1)

  ne_first : (e == first_of ys 0) ≡ false
  ne_first = fresh-first_of e 0 ys (ground (arith, fresh, mem-append e xs ys))

  ne_last : (e == last_of 0 xs) ≡ false
  ne_last = fresh-last_of e 0 xs (ground (arith, fresh, mem-append e xs ys))

  insert_last_between : ys ≡ [] → IsList (insert_last e l) (xs ++ e ∷ ys)
  unfolding insert_last
  insert_last_between nothing =
      let z : first_of ys 0 ≡ 0 = rw nothing in
      IsList-insert l (insert_last e l) e xs ys v fresh (ground (arith, edges, z, ne_last, fresh))
        (ground (arith, edges, z, ne_last, fresh)) (ground (arith, edges, z, ne_last, fresh))
        (ground (arith, edges, z, ne_last, fresh))
        (λ k nl nf. ground (arith, edges, z, ne_last, fresh))
        (λ k nl nf. ground (arith, edges, z, ne_last, fresh)) refl

  insert_after_between :
      (r : ℕ) → last_of 0 xs ≡ r → (r == 0) ≡ false → IsList (insert_after r e l) (xs ++ e ∷ ys)
  unfolding insert_after
  insert_after_between r last there =
      IsList-insert l (insert_after r e l) e xs ys v fresh
        (ground (arith, edges, last, there, ne_last, ne_first, fresh))
        (ground (arith, edges, last, there, ne_last, ne_first, fresh))
        (ground (arith, edges, last, there, ne_last, ne_first, fresh))
        (ground (arith, edges, last, there, ne_last, ne_first, fresh))
        (λ k nl nf. ground (arith, edges, last, there, ne_last, ne_first, fresh))
        (λ k nl nf. ground (arith, edges, last, there, ne_last, ne_first, fresh)) refl

  insert_before_between :
      (r : ℕ) → first_of ys 0 ≡ r → (r == 0) ≡ false → IsList (insert_before r e l) (xs ++ e ∷ ys)
  unfolding insert_before
  insert_before_between r first there =
      IsList-insert l (insert_before r e l) e xs ys v fresh
        (ground (arith, edges, first, there, ne_last, ne_first, fresh))
        (ground (arith, edges, first, there, ne_last, ne_first, fresh))
        (ground (arith, edges, first, there, ne_last, ne_first, fresh))
        (ground (arith, edges, first, there, ne_last, ne_first, fresh))
        (λ k nl nf. ground (arith, edges, first, there, ne_last, ne_first, fresh))
        (λ k nl nf. ground (arith, edges, first, there, ne_last, ne_first, fresh)) refl

pub insert_last-IsList :
    (e : ℕ) (l : Links) (xs : List ℕ)
    → IsList l xs
    → mem e (0 ∷ xs) ≡ false
    → IsList (insert_last e l) (xs ++ e ∷ [])
insert_last-IsList e l xs v fresh =
    let same = sym (append-nil xs) in
    insert_last_between e l xs [] (subst (IsList l) same v)
      (subst (λ zs. mem e (0 ∷ zs) ≡ false) same fresh) refl

pub insert_after-IsList :
    (r e : ℕ) (l : Links) (xs ys : List ℕ)
    → IsList l (xs ++ r ∷ ys)
    → mem e (0 ∷ xs ++ r ∷ ys) ≡ false
    → IsList (insert_after r e l) (xs ++ r ∷ e ∷ ys)
insert_after-IsList r e l xs ys v fresh =
    let same = sym (append_assoc xs (r ∷ []) ys) in
    let there : (r == 0) ≡ false = ground (arith, v.distinct.0, mem-append 0 xs (r ∷ ys)) in
    subst (IsList (insert_after r e l)) (append_assoc xs (r ∷ []) (e ∷ ys)) (
      insert_after_between e l (xs ++ r ∷ []) ys (subst (IsList l) same v)
        (subst (λ zs. mem e (0 ∷ zs) ≡ false) same fresh) r (last_of-append 0 r xs) there)

pub insert_before-IsList :
    (r e : ℕ) (l : Links) (xs ys : List ℕ)
    → IsList l (xs ++ r ∷ ys)
    → mem e (0 ∷ xs ++ r ∷ ys) ≡ false
    → IsList (insert_before r e l) (xs ++ e ∷ r ∷ ys)
insert_before-IsList r e l xs ys v fresh =
    insert_before_between e l xs (r ∷ ys) v fresh r refl
      (ground (arith, v.distinct.0, mem-append 0 xs (r ∷ ys)))
