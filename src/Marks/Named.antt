-- ===== src/Marks/Named.antt =====
-- Defining a mark and finding it again (mark.cpp).
use k_edit.Prelude.{
  true, false, Bool-cases, List, [], ◌∷◌, map, none, some, ◌≡◌, refl, sym, ap, ◌∙◌, subst, inl, inr,
  arith,
}
use k_edit.Tabs.{Text}
use k_edit.Buffer.{Point}
use k_edit.Lines.{text_eq}
use k_edit.Marks.{NamedPoint, point_lt, list_insert, find, delete_all_matches, mark_define}

abbrev AtLeast : NamedPoint → List NamedPoint → Type 0
AtLeast m [] = Unit
AtLeast m (n ∷ ms) = point_lt n.pt m.pt ≡ false

-- No mark stands before the one in front of it.
abbrev pub IsSorted : List NamedPoint → Type 0
IsSorted [] = Unit
IsSorted (m ∷ ms) = AtLeast m ms × IsSorted ms

list_insert-AtLeast :
    (m new : NamedPoint) (ms : List NamedPoint)
    → point_lt new.pt m.pt ≡ false
    → AtLeast m ms
    → AtLeast m (list_insert new ms)
list_insert-AtLeast m new [] h a = h
list_insert-AtLeast m new (n ∷ ms) h a = elim (Bool-cases (point_lt new.pt n.pt)) [
  | inl q ↦ rw q h
  | inr q ↦ rw q a
]

list_insert-IsSorted :
    (new : NamedPoint) (ms : List NamedPoint) → IsSorted ms → IsSorted (list_insert new ms)
list_insert-IsSorted new [] s = (tt, tt)
list_insert-IsSorted new (m ∷ ms) (a, s) = elim (Bool-cases (point_lt new.pt m.pt)) [
  | inl q ↦ let after : point_lt m.pt new.pt ≡ false = ground arith in rw q (after, (a, s))
  | inr q ↦ rw q (list_insert-AtLeast m new ms q a, list_insert-IsSorted new ms s)
]

AtLeast-rest :
    (m n : NamedPoint) (ms : List NamedPoint)
    → point_lt n.pt m.pt ≡ false
    → AtLeast n ms
    → AtLeast m ms
AtLeast-rest m n [] h a = tt
AtLeast-rest m n (k ∷ ms) h a = ground arith

abbrev without : Text → List NamedPoint → List NamedPoint
without name ms = (delete_all_matches name none ms).0

without-match :
    (name : Text) (n : NamedPoint) (ms : List NamedPoint)
    → text_eq n.name name ≡ true
    → without name (n ∷ ms) ≡ without name ms
without-match name n ms q = ground arith

without-other :
    (name : Text) (n : NamedPoint) (ms : List NamedPoint)
    → text_eq n.name name ≡ false
    → without name (n ∷ ms) ≡ n ∷ without name ms
without-other name n ms q = ground arith

without-AtLeast :
    (name : Text) (m : NamedPoint) (ms : List NamedPoint)
    → AtLeast m ms
    → IsSorted ms
    → AtLeast m (without name ms)
without-AtLeast name m [] a s = tt
without-AtLeast name m (n ∷ ms) a (b, s) = elim (Bool-cases (text_eq n.name name)) [
  | inl q ↦
      subst (AtLeast m) (sym (without-match name n ms q))
        (without-AtLeast name m ms (AtLeast-rest m n ms a b) s)
  | inr q ↦ subst (AtLeast m) (sym (without-other name n ms q)) a
]

without-IsSorted : (name : Text) (ms : List NamedPoint) → IsSorted ms → IsSorted (without name ms)
without-IsSorted name [] s = tt
without-IsSorted name (n ∷ ms) (a, s) = elim (Bool-cases (text_eq n.name name)) [
  | inl q ↦ subst IsSorted (sym (without-match name n ms q)) (without-IsSorted name ms s)
  | inr q ↦
      subst IsSorted (sym (without-other name n ms q))
        (without-AtLeast name n ms a s, without-IsSorted name ms s)
]

text_eq_refl : (a : Text) → text_eq a a ≡ true
text_eq_refl [] = refl
text_eq_refl (c ∷ a) = ground (arith, text_eq_refl a)

pub text_eq_sound : (a b : Text) → text_eq a b ≡ true → a ≡ b
text_eq_sound [] [] h = refl
text_eq_sound [] (d ∷ b) h = absurd (ground arith)
text_eq_sound (c ∷ a) [] h = absurd (ground arith)
text_eq_sound (c ∷ a) (d ∷ b) h =
    let e : c ≡ d = ground arith in let s : a ≡ b = text_eq_sound a b (ground arith) in cc

find-without : (name : Text) (ms : List NamedPoint) → find name (without name ms) ≡ none
find-without name [] = refl
find-without name (n ∷ ms) = elim (Bool-cases (text_eq n.name name)) [
  | inl q ↦ ap (find name) (without-match name n ms q) ∙ find-without name ms
  | inr q ↦ ap (find name) (without-other name n ms q) ∙ rw q (find-without name ms)
]

find-without_other :
    (name other : Text) (ms : List NamedPoint)
    → text_eq name other ≡ false
    → find other (without name ms) ≡ find other ms
find-without_other name other [] h = refl
find-without_other name other (n ∷ ms) h = elim (Bool-cases (text_eq n.name name)) [
  | inl q ↦
      let e : text_eq n.name other ≡ false =
        subst (λ t. text_eq t other ≡ false) (sym (text_eq_sound n.name name q)) h in
      ap (find other) (without-match name n ms q) ∙ find-without_other name other ms h ∙ rw e refl
  | inr q ↦
      let ih = find-without_other name other ms h in
      ap (find other) (without-other name n ms q) ∙ ground (arith, ih)
]

find-list_insert :
    (new : NamedPoint) (ms : List NamedPoint)
    → find new.name ms ≡ none
    → find new.name (list_insert new ms) ≡ some new
find-list_insert new [] h = rw (text_eq_refl new.name) refl
find-list_insert new (m ∷ ms) h = elim (Bool-cases (point_lt new.pt m.pt)) [
  | inl q ↦ rw q (rw (text_eq_refl new.name) refl)
  | inr q ↦
      let e : text_eq m.name new.name ≡ false = ground arith in
      rw q (rw e (find-list_insert new ms (ground arith)))
]

find-list_insert_other :
    (new : NamedPoint) (other : Text) (ms : List NamedPoint)
    → text_eq new.name other ≡ false
    → find other (list_insert new ms) ≡ find other ms
find-list_insert_other new other [] h = rw h refl
find-list_insert_other new other (m ∷ ms) h =
    let ih = find-list_insert_other new other ms h in
    elim (Bool-cases (point_lt new.pt m.pt)) [
      | inl q ↦ rw q (rw h refl)
      | inr q ↦ rw q (ground (arith, ih))
    ]

find-others :
    (name : Text) (others : List (List NamedPoint))
    → map (find name) (map (without name) others) ≡ map (λ ms. none) others
find-others name [] = refl
find-others name (ms ∷ others) = rw (find-without name ms) (ap (none ∷◌) (find-others name others))

-- Where the marks of the current file are in order, a mark that is defined is found there by its
-- name, at the point given; any other name finds what it found before; the marks stay in order; and
-- no other file has a mark of that name.
pub mark_define_lem :
    (name other_name : Text) (cursor : Point) (ms : List NamedPoint)
    (others : List (List NamedPoint))
    → IsSorted ms
    → text_eq name other_name ≡ false
    → (find name (mark_define name cursor ms others).0 ≡ some (record { pt = cursor; name = name }))
      × (find other_name (mark_define name cursor ms others).0 ≡ find other_name ms)
      × IsSorted (mark_define name cursor ms others).0
      × (map (find name) (mark_define name cursor ms others).1 ≡ map (λ ms. none) others)
mark_define_lem name other_name cursor ms others s h =
    let new : NamedPoint = record { pt = cursor; name = name } in
    (
      find-list_insert new (without name ms) (find-without name ms),
      find-list_insert_other new other_name (without name ms) h
          ∙ find-without_other name other_name ms h,
      list_insert-IsSorted new (without name ms) (without-IsSorted name ms s),
      find-others name others,
    )
