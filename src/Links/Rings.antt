-- ===== src/Links/Rings.antt =====
-- The two directions of a list of dlink.h as a ring through the head: 0 stands for the head, whose
-- successor is dl_first and whose predecessor is dl_last.
use k_edit.Prelude.{
  ℕ, ◌==◌, ◌||◌, if◌then◌else◌, Bool, true, false, Bool-cases, List, [], ◌∷◌, ◌++◌, ◌≡◌, refl, ◌∙◌,
  inl, inr, arith,
}
use k_edit.Links.{Links}

abbrev pub mem : ℕ → List ℕ → Bool
mem a [] = false
mem a (x ∷ xs) = a == x || mem a xs

abbrev pub Distinct : List ℕ → Type 0
Distinct [] = Unit
Distinct (x ∷ xs) = (mem x xs ≡ false) × Distinct xs

abbrev pub first_of : List ℕ → ℕ → ℕ
first_of [] n = n
first_of (x ∷ xs) n = x

abbrev pub last_of : ℕ → List ℕ → ℕ
last_of p [] = p
last_of p (x ∷ xs) = last_of x xs

abbrev pub nx : Links → ℕ → ℕ
nx l k = if k == 0 then l.first else l.next k

abbrev pub pv : Links → ℕ → ℕ
pv l k = if k == 0 then l.last else l.prev k

-- From `p` the links lead through `xs` to `n`, and back.
abbrev pub Seg : (ℕ → ℕ) → (ℕ → ℕ) → ℕ → List ℕ → ℕ → Type 0
Seg f g p [] n = (f p ≡ n) × (g n ≡ p)
Seg f g p (x ∷ xs) n = (f p ≡ x) × (g x ≡ p) × Seg f g x xs n

pub mem-append : (a : ℕ) (xs ys : List ℕ) → mem a (xs ++ ys) ≡ (mem a xs || mem a ys)
mem-append a [] ys = refl
mem-append a (x ∷ xs) ys = ground (arith, mem-append a xs ys)

-- No element of the first list is in the second.
abbrev pub Apart : List ℕ → List ℕ → Type 0
Apart [] ys = Unit
Apart (x ∷ xs) ys = (mem x ys ≡ false) × Apart xs ys

pub Distinct-append :
    (xs ys : List ℕ) → Distinct (xs ++ ys) → Distinct xs × Distinct ys × Apart xs ys
Distinct-append [] ys d = (tt, d, tt)
Distinct-append (x ∷ xs) ys (out, d) =
    let (dx, dy, apart) = Distinct-append xs ys d in
    (
      (ground (arith, mem-append x xs ys, out), dx),
      dy,
      (ground (arith, mem-append x xs ys, out), apart),
    )

pub append-Distinct :
    (xs ys : List ℕ) → Distinct xs → Distinct ys → Apart xs ys → Distinct (xs ++ ys)
append-Distinct [] ys dx dy apart = dy
append-Distinct (x ∷ xs) ys (out, dx) dy (outy, apart) =
    (ground (arith, mem-append x xs ys, out, outy), append-Distinct xs ys dx dy apart)

pub not-mem-Apart : (a : ℕ) (xs ys : List ℕ) → Apart xs ys → mem a ys ≡ true → mem a xs ≡ false
not-mem-Apart a [] ys apart there = refl
not-mem-Apart a (x ∷ xs) ys (out, apart) there = elim (Bool-cases (a == x)) [
  | inl same ↦ ground (arith, out, there, same)
  | inr other ↦ rw other (not-mem-Apart a xs ys apart there)
]

pub mem-last_of : (p : ℕ) (xs : List ℕ) → mem (last_of p xs) (p ∷ xs) ≡ true
mem-last_of p [] = ground arith
mem-last_of p (x ∷ xs) = ground (arith, mem-last_of x xs)

pub mem-first_of : (n : ℕ) (xs : List ℕ) → mem (first_of xs n) (n ∷ xs) ≡ true
mem-first_of n [] = ground arith
mem-first_of n (x ∷ xs) = ground arith

pub fresh-last_of : (e p : ℕ) (xs : List ℕ) → mem e (p ∷ xs) ≡ false → (e == last_of p xs) ≡ false
fresh-last_of e p [] fresh = ground (arith, fresh)
fresh-last_of e p (x ∷ xs) fresh = fresh-last_of e x xs (ground (arith, fresh))

pub fresh-first_of : (e n : ℕ) (xs : List ℕ) → mem e (n ∷ xs) ≡ false → (e == first_of xs n) ≡ false
fresh-first_of e n [] fresh = ground (arith, fresh)
fresh-first_of e n (x ∷ xs) fresh = ground (arith, fresh)

-- The elements of one part are not at the border of the other.
pub ne-first_of :
    (k : ℕ) (xs ys : List ℕ)
    → mem 0 xs ≡ false
    → Apart xs ys
    → mem k xs ≡ true
    → (k == first_of ys 0) ≡ false
ne-first_of k xs [] out apart there = ground (arith, out, there)
ne-first_of k xs (y ∷ ys) out apart there = elim (Bool-cases (k == y)) [
  | inl same ↦ ground (arith, same, there, not-mem-Apart k xs (y ∷ ys) apart (ground (arith, same)))
  | inr other ↦ other
]

pub ne-last_of :
    (k : ℕ) (xs ys : List ℕ)
    → mem 0 ys ≡ false
    → Apart xs ys
    → mem k ys ≡ true
    → (k == last_of 0 xs) ≡ false
ne-last_of k [] ys out apart there = ground (arith, out, there)
ne-last_of k (x ∷ xs) ys out apart there = elim (Bool-cases (k == last_of x xs)) [
  | inl same ↦
      ground (arith, same, there, mem-last_of x xs, not-mem-Apart k (x ∷ xs) ys apart there)
  | inr other ↦ other
]

module _ (f g : ℕ → ℕ) where
  pub Seg-append :
      (p : ℕ) (xs ys : List ℕ) (n : ℕ)
      → Seg f g p xs (first_of ys n)
      → Seg f g (last_of p xs) ys n
      → Seg f g p (xs ++ ys) n
  Seg-append p [] ys n s t = t
  Seg-append p (x ∷ xs) ys n (on, back, s) t = (on, back, Seg-append x xs ys n s t)

  pub append-Seg :
      (p : ℕ) (xs ys : List ℕ) (n : ℕ)
      → Seg f g p (xs ++ ys) n
      → Seg f g p xs (first_of ys n) × Seg f g (last_of p xs) ys n
  append-Seg p [] [] n s = (s, s)
  append-Seg p [] (y ∷ ys) n (on, back, s) = ((on, back), (on, back, s))
  append-Seg p (x ∷ xs) ys n (on, back, s) =
      let (front, behind) = append-Seg x xs ys n s in ((on, back, front), behind)

  pub last_edge :
      (p : ℕ) (xs : List ℕ) (n : ℕ) → Seg f g p xs n → (f (last_of p xs) ≡ n) × (g n ≡ last_of p xs)
  last_edge p [] n s = s
  last_edge p (x ∷ xs) n (on, back, s) = last_edge x xs n s

  pub first_edge :
      (p : ℕ) (xs : List ℕ) (n : ℕ)
      → Seg f g p xs n
      → (f p ≡ first_of xs n) × (g (first_of xs n) ≡ p)
  first_edge p [] n s = s
  first_edge p (x ∷ xs) n (on, back, s) = (on, back)

module _ (f g f' g' : ℕ → ℕ) where
  pub frame :
      (p : ℕ) (xs : List ℕ) (n : ℕ)
      → ((k : ℕ) → mem k (p ∷ xs) ≡ true → f' k ≡ f k)
      → ((k : ℕ) → mem k (n ∷ xs) ≡ true → g' k ≡ g k)
      → Seg f g p xs n
      → Seg f' g' p xs n
  frame p [] n same back (on, from) = (same p (ground arith) ∙ on, back n (ground arith) ∙ from)
  frame p (x ∷ xs) n same back (on, from, s) = (
    same p (ground arith) ∙ on,
    back x (ground arith) ∙ from,
    frame x xs n (λ k i. same k (ground (arith, i))) (λ k i. back k (ground (arith, i))) s,
  )

  -- A segment that is led to another end
  pub redirected :
      (p : ℕ) (xs : List ℕ) (n m : ℕ)
      → Distinct (p ∷ xs)
      → ((k : ℕ) → mem k (p ∷ xs) ≡ true → (k == last_of p xs) ≡ false → f' k ≡ f k)
      → ((k : ℕ) → mem k xs ≡ true → g' k ≡ g k)
      → f' (last_of p xs) ≡ m
      → g' m ≡ last_of p xs
      → Seg f g p xs n
      → Seg f' g' p xs m
  redirected p [] n m d same back to from s = (to, from)
  redirected p (x ∷ xs) n m (out, d) same back to from (on, at, s) =
      let inner : (p == last_of x xs) ≡ false = elim (Bool-cases (p == last_of x xs)) [
        | inl e ↦ ground (arith, e, out, mem-last_of x xs)
        | inr e ↦ e
      ] in
      (
        same p (ground arith) inner ∙ on,
        back x (ground arith) ∙ at,
        redirected x xs n m d (λ k i ne. same k (ground (arith, i)) ne)
            (λ k i. back k (ground (arith, i))) to from s,
      )

  -- A segment that is reached from another start
  pub reached :
      (p q : ℕ) (xs : List ℕ) (n : ℕ)
      → Distinct (n ∷ xs)
      → ((k : ℕ) → mem k xs ≡ true → f' k ≡ f k)
      → ((k : ℕ) → mem k (n ∷ xs) ≡ true → (k == first_of xs n) ≡ false → g' k ≡ g k)
      → f' q ≡ first_of xs n
      → g' (first_of xs n) ≡ q
      → Seg f g p xs n
      → Seg f' g' q xs n
  reached p q [] n d same back to from s = (to, from)
  reached p q (x ∷ xs) n (out, (first, d)) same back to from (on, at, s) = (
    to,
    from,
    frame x xs n same
        (λ k i.
          back k (ground (arith, i))
            (elim (Bool-cases (k == x)) [ inl e ↦ ground (arith, e, i, first, out) | inr e ↦ e ]))
        s,
  )
