-- ===== src/Links/Removals.antt =====
-- DLINK_REMOVE, DLINK_REMOVE_FIRST and DLINK_JOIN on the lists that the links stand for.
use k_edit.Prelude.{ℕ, ◌==◌, false, List, [], ◌∷◌, ◌++◌, length-append, ◌≡◌, arith}
use k_edit.Links.{Links, remove, remove_first, without_first}
use k_edit.Links.Rings.{
  Distinct, first_of, last_of, nx, pv, mem-append, Apart, Distinct-append, append-Seg,
  fresh-first_of, ne-last_of, first_edge,
}
use k_edit.Links.Changes.{IsList, removed}

Distinct-remove : (e : ℕ) (xs ys : List ℕ) → Distinct (xs ++ e ∷ ys) → Distinct (xs ++ ys)
Distinct-remove e [] ys (out, d) = d
Distinct-remove e (x ∷ xs) ys (out, d) =
    (ground (arith, out, mem-append x xs ys, mem-append x xs (e ∷ ys)), Distinct-remove e xs ys d)

-- What follows from the distinctness for the neighbours of an element
module _ (e : ℕ) (xs ys : List ℕ) (d : Distinct (0 ∷ xs ++ e ∷ ys)) where
  parts : Distinct xs × Distinct (e ∷ ys) × Apart xs (e ∷ ys)
  parts = Distinct-append xs (e ∷ ys) d.1

  not_null : (e == 0) ≡ false
  not_null = ground (arith, d.0, mem-append 0 xs (e ∷ ys))

  ne_next : (e == first_of ys 0) ≡ false
  ne_next = fresh-first_of e 0 ys (ground (arith, parts.1.0, not_null))

  ne_prev : (e == last_of 0 xs) ≡ false
  ne_prev =
      ne-last_of e xs (e ∷ ys) (ground (arith, d.0, mem-append 0 xs (e ∷ ys))) parts.2
        (ground arith)

pub remove-IsList :
    (e : ℕ) (l : Links) (xs ys : List ℕ) → IsList l (xs ++ e ∷ ys) → IsList (remove e l) (xs ++ ys)
unfolding remove
remove-IsList e l xs ys v =
    let l' = remove e l in
    let z = not_null e xs ys v.distinct in
    let n = ne_next e xs ys v.distinct in
    let p = ne_prev e xs ys v.distinct in
    let (front, (on, back, behind)) = append-Seg (nx l) (pv l) 0 xs (e ∷ ys) 0 v.ring in
    let edge = first_edge (nx l) (pv l) e ys 0 behind in
    record {
      ring =
          removed (nx l) (pv l) (nx l') (pv l') e xs ys v.ring v.distinct
            (ground (arith, z, n, p, edge)) (ground (arith, z, n, p, edge))
            (λ k nl nf. ground (arith, z, n, p, edge)) (λ k nl nf. ground (arith, z, n, p, edge));
      distinct = Distinct-remove e (0 ∷ xs) ys v.distinct;
      counted = omega (arith, v.counted, length-append xs ys, length-append xs (e ∷ ys));
    }

pub remove_first-IsList :
    (e : ℕ) (l : Links) (xs : List ℕ)
    → IsList l (e ∷ xs)
    → ((remove_first l).0 ≡ e) × IsList (remove_first l).1 xs
unfolding remove_first
remove_first-IsList e l xs v =
    let z = not_null e [] xs v.distinct in
    let n = ne_next e [] xs v.distinct in
    let (on, back, behind) = v.ring in
    let edge = first_edge (nx l) (pv l) e xs 0 behind in
    let there : (l.first == 0) ≡ false = ground (arith, z, on) in
    let l' = without_first l in
    let left : IsList l' xs = record {
      ring =
          removed (nx l) (pv l) (nx l') (pv l') e [] xs v.ring v.distinct
            (ground (arith, z, n, edge, on)) (ground (arith, z, n, edge, on))
            (λ k nl nf. ground (arith, z, n, edge, on)) (λ k nl nf. ground (arith, z, n, edge, on));
      distinct = Distinct-remove e (0 ∷ []) xs v.distinct;
      counted = omega (arith, v.counted);
    } in
    rw there (on, left)

pub remove_first-nothing : (l : Links) → IsList l [] → remove_first l ≡ (0, l)
unfolding remove_first
remove_first-nothing l v = ground (arith, v.ring)
