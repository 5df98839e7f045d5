-- ===== src/Links/Runs.antt =====
-- A sequence of the macros of dlink.h against the same sequence on a list, and the loops over it.
use k_edit.Prelude.{
  ℕ, suc, ◌+◌, ◌%◌, ◌^◌, ◌==◌, ◌&&◌, not, if◌then◌else◌, Bool, true, false, Bool-cases,
  Option-cases, List, [], ◌∷◌, ◌++◌, length, reverse, append-nil, append_assoc, Option, none, some,
  ◌≡◌, refl, sym, ap, ◌∙◌, subst, inl, inr, arith,
}
use mathlib.Core.List.{reverse-cons}
use k_edit.Links.{
  Links, insert_first, insert_last, insert_after, insert_before, remove, remove_first,
  first_to_last, last_to_first,
}
use k_edit.Links.Rings.{mem, last_of, nx, pv, Seg, Distinct, last_edge}
use k_edit.Links.Changes.{IsList}
use k_edit.Links.Inserts.{
  insert_first-IsList, insert_last-IsList, insert_after-IsList, insert_before-IsList,
}
use k_edit.Links.Removals.{remove-IsList, remove_first-IsList, remove_first-nothing}

-- `put_after r e` and `put_before r e` put `e` beside `r`.
pub data Op : Type 0 where
  push_first push_last take_out : ℕ → Op
  put_after put_before : ℕ → ℕ → Op
  take_first : Op

abbrev pub apply : Op → Links → Links
apply (push_first e) l = insert_first e l
apply (push_last e) l = insert_last e l
apply (take_out e) l = remove e l
apply (put_after r e) l = insert_after r e l
apply (put_before r e) l = insert_before r e l
apply take_first l = (remove_first l).1

-- A list with `es` in place of the first `r`
abbrev pub replaced : ℕ → List ℕ → List ℕ → List ℕ
replaced r es [] = []
replaced r es (x ∷ xs) = if r == x then es ++ xs else x ∷ replaced r es xs

abbrev pub tail : List ℕ → List ℕ
tail [] = []
tail (x ∷ xs) = xs

abbrev pub when : Bool → List ℕ → Option (List ℕ)
when ok xs = if ok then some xs else none

-- The operation on the list: a new element is not null and not in the list, an old one is.
abbrev pub list_op : Op → List ℕ → Option (List ℕ)
list_op (push_first e) xs = when (not (mem e (0 ∷ xs))) (e ∷ xs)
list_op (push_last e) xs = when (not (mem e (0 ∷ xs))) (xs ++ e ∷ [])
list_op (take_out e) xs = when (mem e xs) (replaced e [] xs)
list_op (put_after r e) xs = when (mem r xs && not (mem e (0 ∷ xs))) (replaced r (r ∷ e ∷ []) xs)
list_op (put_before r e) xs = when (mem r xs && not (mem e (0 ∷ xs))) (replaced r (e ∷ r ∷ []) xs)
list_op take_first xs = some (tail xs)

abbrev pub run : List Op → Links → Links
run [] l = l
run (o ∷ os) l = run os (apply o l)

abbrev pub list_ops : List Op → List ℕ → Option (List ℕ)
list_ops [] xs = some xs
list_ops (o ∷ os) xs = elim (list_op o xs) [ none ↦ none | some ys ↦ list_ops os ys ]

-- The place of an element in a list
split_at :
    (r : ℕ) (es xs : List ℕ)
    → mem r xs ≡ true
    → (a : List ℕ) × (b : List ℕ) × (xs ≡ a ++ r ∷ b) × (replaced r es xs ≡ a ++ (es ++ b))
split_at r es [] there = absurd (ground (arith, there))
split_at r es (x ∷ xs) there = elim (Bool-cases (r == x)) [
  | inl here ↦ ([], xs, ap (◌∷ xs) (ground (arith, here)), rw here)
  | inr on ↦
      let (a, b, e, e') = split_at r es xs (ground (arith, on, there)) in
      (x ∷ a, b, ap (x ∷◌) e, rw on (ap (x ∷◌) e'))
]

true_of_when : (ok : Bool) (xs ys : List ℕ) → when ok xs ≡ some ys → (ok ≡ true) × (xs ≡ ys)
true_of_when true xs ys h = (refl, cc)
true_of_when false xs ys h = absurd (cc)

-- An operation at the place of `r`, from what it does to a list with its parts named
at_place :
    (l' : Links) (r : ℕ) (es xs ys : List ℕ)
    → mem r xs ≡ true
    → replaced r es xs ≡ ys
    → ((a b : List ℕ) → xs ≡ a ++ r ∷ b → IsList l' (a ++ (es ++ b)))
    → IsList l' ys
at_place l' r es xs ys there result each =
    let (a, b, e, e') = split_at r es xs there in subst (IsList l') (sym e' ∙ result) (each a b e)

fresh_of : (e : ℕ) (xs : List ℕ) → not (mem e (0 ∷ xs)) ≡ true → mem e (0 ∷ xs) ≡ false
fresh_of e xs h = ground (arith, h)

apply-IsList :
    (o : Op) (l : Links) (xs ys : List ℕ)
    → IsList l xs
    → list_op o xs ≡ some ys
    → IsList (apply o l) ys
apply-IsList (push_first e) l xs ys v h =
    let (ok, same) = true_of_when (not (mem e (0 ∷ xs))) (e ∷ xs) ys h in
    subst (IsList (insert_first e l)) same (insert_first-IsList e l xs v (fresh_of e xs ok))
apply-IsList (push_last e) l xs ys v h =
    let (ok, same) = true_of_when (not (mem e (0 ∷ xs))) (xs ++ e ∷ []) ys h in
    subst (IsList (insert_last e l)) same (insert_last-IsList e l xs v (fresh_of e xs ok))
apply-IsList (take_out e) l xs ys v h =
    let (ok, same) = true_of_when (mem e xs) (replaced e [] xs) ys h in
    at_place (remove e l) e [] xs ys ok same
      (λ a b eq. remove-IsList e l a b (subst (IsList l) eq v))
apply-IsList (put_after r e) l xs ys v h =
    let (ok, same) =
      true_of_when (mem r xs && not (mem e (0 ∷ xs))) (replaced r (r ∷ e ∷ []) xs) ys h in
    let fresh : mem e (0 ∷ xs) ≡ false = ground (arith, ok) in
    at_place (insert_after r e l) r (r ∷ e ∷ []) xs ys (ground (arith, ok)) same (λ a b eq.
      insert_after-IsList r e l a b (subst (IsList l) eq v)
        (subst (λ zs. mem e (0 ∷ zs) ≡ false) eq fresh))
apply-IsList (put_before r e) l xs ys v h =
    let (ok, same) =
      true_of_when (mem r xs && not (mem e (0 ∷ xs))) (replaced r (e ∷ r ∷ []) xs) ys h in
    let fresh : mem e (0 ∷ xs) ≡ false = ground (arith, ok) in
    at_place (insert_before r e l) r (e ∷ r ∷ []) xs ys (ground (arith, ok)) same (λ a b eq.
      insert_before-IsList r e l a b (subst (IsList l) eq v)
        (subst (λ zs. mem e (0 ∷ zs) ≡ false) eq fresh))
apply-IsList take_first l [] ys v h =
    let same : [] ≡ ys = cc in
    subst (IsList (remove_first l).1) same
      (subst (λ (p : ℕ × Links). IsList p.1 []) (sym (remove_first-nothing l v)) v)
apply-IsList take_first l (x ∷ xs) ys v h =
    let same : xs ≡ ys = cc in
    subst (IsList (remove_first l).1) same (remove_first-IsList x l xs v).1

run-IsList :
    (os : List Op) (l : Links) (xs ys : List ℕ)
    → IsList l xs
    → list_ops os xs ≡ some ys
    → IsList (run os l) ys
run-IsList [] l xs ys v h = subst (IsList l) {x = xs} {y = ys} (cc) v
run-IsList (o ∷ os) l xs ys v h = elim (Option-cases (list_op o xs)) [
  | inl bad ↦ absurd (ground (arith, h, bad))
  | inr (zs, good) ↦
      run-IsList os (apply o l) zs ys (apply-IsList o l xs zs v good) (rw (good, list_ops) at h)
]

visit_next :
    (k e : ℕ) (l : Links) (rest : List ℕ)
    → (e == 0) ≡ false
    → first_to_last k (l.next e) l ≡ some rest
    → first_to_last (suc k) e l ≡ some (e ∷ rest)
unfolding first_to_last
visit_next k e l rest there h = rw (there, h)

visit_nothing : (k : ℕ) (l : Links) → first_to_last (suc k) 0 l ≡ some []
unfolding first_to_last
visit_nothing k l = refl

-- The walk from behind `p`
first_to_last_from :
    (p : ℕ) (l : Links) (xs : List ℕ)
    → Seg (nx l) (pv l) p xs 0
    → Distinct (0 ∷ xs)
    → first_to_last (suc (length xs)) (nx l p) l ≡ some xs
first_to_last_from p l [] s d = ap (λ k. first_to_last 1 k l) s.0 ∙ visit_nothing 0 l
first_to_last_from p l (x ∷ xs) (on, back, s) (out, (outx, d)) =
    let there : (x == 0) ≡ false = ground (arith, out) in
    let next : l.next x ≡ nx l x = rw there in
    let rest = first_to_last_from x l xs s (ground (arith, out), d) in
    ap (λ k. first_to_last (suc (length (x ∷ xs))) k l) on
    ∙ visit_next (suc (length xs)) x l xs there
        (ap (λ k. first_to_last (suc (length xs)) k l) next ∙ rest)

visit_nothing_back : (l : Links) → last_to_first 1 0 l ≡ some []
unfolding last_to_first
visit_nothing_back l = refl

last_to_first_from :
    (k p : ℕ) (l : Links) (xs before : List ℕ)
    → Seg (nx l) (pv l) p xs 0
    → Distinct (0 ∷ xs)
    → last_to_first k p l ≡ some before
    → last_to_first (k + length xs) (last_of p xs) l ≡ some (reverse xs ++ before)
unfolding last_to_first
last_to_first_from k p l [] before s d h = let n : k + 0 ≡ k = omega arith in rw n h
last_to_first_from k p l (x ∷ xs) before (on, back, s) (out, (outx, d)) h =
    let n : k + suc (length xs) ≡ suc k + length xs = omega arith in
    let there : (x == 0) ≡ false = ground (arith, out) in
    let prev : l.prev x ≡ p = rw there at back in
    let one : last_to_first (suc k) x l ≡ some (x ∷ before) = rw (there, prev, h) in
    let rest = last_to_first_from (suc k) x l xs (x ∷ before) s (ground (arith, out), d) one in
    rw n (
      rest
      ∙ ap some (
          sym (append_assoc (reverse xs) (x ∷ []) before)
          ∙ ap (◌++ before) (sym (reverse-cons x xs))))

-- From links of a list, after any sequence of the insertions and removals whose elements are new or in
-- the list as each macro asks for: the links are those of the list after the same operations on it. The
-- loop from the first element visits it, the loop from the last one visits it in reverse, and the
-- count is its length, reduced to 32 bits.
pub run_visits :
    (os : List Op) (l : Links) (xs ys : List ℕ)
    → IsList l xs
    → list_ops os xs ≡ some ys
    → IsList (run os l) ys
      × (first_to_last (suc (length ys)) (run os l).first (run os l) ≡ some ys)
      × (last_to_first (suc (length ys)) (run os l).last (run os l) ≡ some (reverse ys))
      × ((run os l).count ≡ length ys % 2 ^ 32)
run_visits os l xs ys v h =
    let l' = run os l in
    let w = run-IsList os l xs ys v h in
    let last = (last_edge (nx l') (pv l') 0 ys 0 w.ring).1 in
    let back = last_to_first_from 1 0 l' ys [] w.ring w.distinct (visit_nothing_back l') in
    let n : suc (length ys) ≡ 1 + length ys = omega arith in
    (
      w,
      first_to_last_from 0 l' ys w.ring w.distinct,
      rw (n, last) (back ∙ ap some (append-nil (reverse ys))),
      w.counted,
    )
