-- ===== src/Links/Joined.antt =====
-- DLINK_JOIN (dlink.h) of two lists with entries in the same link field.
use k_edit.Prelude.{
  ℕ, ◌+◌, ◌%◌, ◌^◌, ◌==◌, if◌then◌else◌, true, false, Bool-cases, List, [], ◌∷◌, ◌++◌,
  length-append, none, some, ◌≡◌, inl, inr, arith,
}
use k_edit.Links.{Head, Links, join, no_elements}
use k_edit.Links.Rings.{
  mem, Distinct, last_of, nx, pv, Seg, mem-append, Distinct-append, Seg-append, ne-first_of,
  ne-last_of, mem-last_of, redirected, reached, last_edge, first_edge,
}
use k_edit.Links.Changes.{IsList}

-- Another list with its entries among those of `l`
abbrev pub with_head : Head → Links → Links
with_head h l = record l { first = h.first; last = h.last; count = h.count }

-- The list that DLINK_JOIN leaves where both lists have elements
abbrev joined : Links → Head → Links
joined dest src = record dest {
  last = src.last;
  count = (dest.count + src.count) % 2 ^ 32;
  next = λ q. if dest.last == q then src.first else dest.next q;
  prev = λ q. if src.first == q then dest.last else dest.prev q;
}

joined-IsList :
    (dest : Links) (src : Head) (x : ℕ) (xs : List ℕ) (y : ℕ) (ys : List ℕ)
    → IsList dest (x ∷ xs)
    → IsList (with_head src dest) (y ∷ ys)
    → Distinct (0 ∷ (x ∷ xs) ++ y ∷ ys)
    → IsList (joined dest src) ((x ∷ xs) ++ y ∷ ys)
joined-IsList dest src x xs y ys v w (out, d) =
    let (dx, dy, apart) = Distinct-append (x ∷ xs) (y ∷ ys) d in
    let outx : mem 0 (x ∷ xs) ≡ false = ground (arith, out, mem-append 0 (x ∷ xs) (y ∷ ys)) in
    let outy : mem 0 (y ∷ ys) ≡ false = ground (arith, out, mem-append 0 (x ∷ xs) (y ∷ ys)) in
    let end = last_edge (nx dest) (pv dest) 0 (x ∷ xs) 0 v.ring in
    let start =
      first_edge (nx (with_head src dest)) (pv (with_head src dest)) 0 (y ∷ ys) 0 w.ring in
    let inside : (last_of x xs == 0) ≡ false = elim (Bool-cases (last_of x xs == 0)) [
      | inl z ↦ ground (arith, z, outx, mem-last_of x xs)
      | inr z ↦ z
    ] in
    let front : Seg (nx (joined dest src)) (pv (joined dest src)) 0 (x ∷ xs) y =
      redirected (nx dest) (pv dest) (nx (joined dest src)) (pv (joined dest src)) 0 (x ∷ xs) 0 y
        (outx, dx) (λ k i ne. ground (arith, end, ne, inside))
        (λ k i. ground (arith, start, i, outx, ne-first_of k (x ∷ xs) (y ∷ ys) outx apart i))
        (ground (arith, end, start, inside)) (ground (arith, end, start, outy)) v.ring in
    let behind : Seg (nx (joined dest src)) (pv (joined dest src)) (last_of x xs) (y ∷ ys) 0 =
      reached (nx (with_head src dest)) (pv (with_head src dest)) (nx (joined dest src))
        (pv (joined dest src)) 0 (last_of x xs) (y ∷ ys) 0 (outy, dy)
        (λ k i. ground (arith, end, i, outy, ne-last_of k (x ∷ xs) (y ∷ ys) outy apart i))
        (λ k i ne. ground (arith, start, ne)) (ground (arith, end, start, inside))
        (ground (arith, end, start, outy)) w.ring in
    record {
      ring =
          Seg-append (nx (joined dest src)) (pv (joined dest src)) 0 (x ∷ xs) (y ∷ ys) 0 front
            behind;
      distinct = (out, d);
      counted = omega (arith, v.counted, w.counted, length-append (x ∷ xs) (y ∷ ys));
    }

-- What DLINK_JOIN does: the null pointer that it uses is the front of an empty second list.
abbrev pub Joins : Links → Head → List ℕ → List ℕ → Type 0
Joins dest src [] ys = (l : Links) × (join dest src ≡ some (l, no_elements)) × IsList l ys
Joins dest src (x ∷ xs) [] = join dest src ≡ none
Joins dest src (x ∷ xs) (y ∷ ys) =
    (l : Links) × (join dest src ≡ some (l, no_elements)) × IsList l ((x ∷ xs) ++ y ∷ ys)

-- For two lists without an element in common: where the first has elements and the second none,
-- DLINK_JOIN uses a null pointer. In all other cases it leaves the list of the elements of the first and
-- then the second, and the second head empty.
pub join-Joins :
    (dest : Links) (src : Head) (xs ys : List ℕ)
    → IsList dest xs
    → IsList (with_head src dest) ys
    → Distinct (0 ∷ xs ++ ys)
    → Joins dest src xs ys
unfolding join
join-Joins dest src [] ys v w d =
    let nothing : (dest.first == 0) ≡ true = ground (arith, v.ring) in
    (
      record dest { first = src.first; last = src.last; count = (dest.count + src.count) % 2 ^ 32 },
      rw nothing,
      record {
        ring = w.ring;
        distinct = w.distinct;
        counted = omega (arith, v.counted, w.counted);
      },
    )
join-Joins dest src (x ∷ xs) [] v w d = ground (arith, v.ring, v.distinct.0, w.ring)
join-Joins dest src (x ∷ xs) (y ∷ ys) v w d =
    let end = last_edge (nx dest) (pv dest) 0 (x ∷ xs) 0 v.ring in
    let outx : mem 0 (x ∷ xs) ≡ false = v.distinct.0 in
    let first : (dest.first == 0) ≡ false = ground (arith, v.ring, outx) in
    let last : (dest.last == 0) ≡ false = elim (Bool-cases (dest.last == 0)) [
      | inl z ↦ ground (arith, z, outx, end, mem-last_of x xs)
      | inr z ↦ z
    ] in
    let other : (src.first == 0) ≡ false = ground (arith, w.ring, w.distinct.0) in
    (joined dest src, rw (first, last, other), joined-IsList dest src x xs y ys v w d)
