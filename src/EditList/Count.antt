-- ===== src/EditList/Count.antt =====
-- What `Undo_AddNewEditOpToListHead` (fbuf_undo.cpp) leaves: the shape of the list and the
-- count.
use k_edit.Prelude.{
  ℕ, zero, suc, ◌+◌, ◌-◌, ◌≤◌, if◌then◌else◌, Bool, List, [], ◌∷◌, ◌++◌, length, length-append,
  some, ◌≡◌, refl, sym, ap, subst, arith, ◌⊎◌, inl, inr,
}
use k_edit.Buffer.{EditRec, is_boundary, Fbuf}
use k_edit.EditList.{split_last, rmv_newest, drop_count, discard_undone, add_new_edit_op}

abbrev pub boundaries : List EditRec → ℕ
boundaries [] = 0
boundaries (e ∷ es) = (if is_boundary e then 1 else 0) + boundaries es

pub boundaries-append :
    (xs ys : List EditRec) → boundaries (xs ++ ys) ≡ boundaries xs + boundaries ys
boundaries-append [] ys = omega arith
boundaries-append (e ∷ xs) ys = omega (arith, boundaries-append xs ys)

-- The last element is there, and the rest comes before it.
pub split_last-snoc {ℓ} :
    {A : Type ℓ} (xs : List A) (x : A) → split_last (xs ++ x ∷ []) ≡ some (xs, x)
split_last-snoc [] x = refl
split_last-snoc (y ∷ xs) x = rw (split_last-snoc xs x)

pub Snoc-cases {ℓ} :
    {A : Type ℓ} (xs : List A) → (xs ≡ []) ⊎ ((i : List A) × (l : A) × (xs ≡ i ++ l ∷ []))
Snoc-cases [] = inl refl
Snoc-cases (x ∷ xs) = elim (Snoc-cases xs) [
  | inl e ↦ inr ([], x, ap (x ∷◌) e)
  | inr (i, l, e) ↦ inr (x ∷ i, l, ap (x ∷◌) e)
]

-- With the undone records dropped.
abbrev pub undone_dropped : Fbuf → Fbuf
undone_dropped f = record f { undo_count = f.undo_count - boundaries f.future; future = [] }

abbrev one_if_boundary : EditRec → ℕ
one_if_boundary e = if is_boundary e then 1 else 0

drop_count-snoc :
    (f : Fbuf) (i : List EditRec) (l : EditRec)
    → drop_count (record f { future = i ++ l ∷ [] })
      ≡ record f { undo_count = f.undo_count - one_if_boundary l; future = i ++ l ∷ [] }
unfolding drop_count
drop_count-snoc f i l = ground (arith, split_last-snoc i l)

rmv_newest-snoc :
    (f : Fbuf) (c : EditRec) (cs i : List EditRec) (l : EditRec)
    → (b : Bool) × (rmv_newest (record f { past = c ∷ cs; future = i ++ l ∷ [] })
        ≡ some (record f { past = c ∷ cs; future = i }, b))
unfolding rmv_newest
rmv_newest-snoc f c cs i l = elim (Snoc-cases i) [
  | inl nil ↦ (is_boundary c, rw nil (ground arith))
  | inr (i', l', s) ↦ (
    is_boundary l',
    rw s (ground (arith, split_last-snoc (i' ++ l' ∷ []) l, split_last-snoc i' l')),
  )
]

discard_undone_at :
    (k : ℕ) (f : Fbuf) (c : EditRec) (cs fu : List EditRec)
    → length fu ≤ k
    → discard_undone k (record f { past = c ∷ cs; future = fu })
      ≡ some (record f { past = c ∷ cs; undo_count = f.undo_count - boundaries fu; future = [] })
unfolding discard_undone
discard_undone_at zero f c cs [] h =
    ap (λ k. some (record f { past = c ∷ cs; undo_count = k; future = [] })) (omega arith)
discard_undone_at zero f c cs (x ∷ fu) h = absurd (omega arith)
discard_undone_at (suc k) f c cs fu h = elim (Snoc-cases fu) [
  | inl nil ↦
      rw nil
        (ap (λ k. some (record f { past = c ∷ cs; undo_count = k; future = [] })) (omega arith))
  | inr (i, l, s) ↦
      let n = f.undo_count - one_if_boundary l in
      let (b, r) = rmv_newest-snoc (record f { undo_count = n }) c cs i l in
      let ih =
        discard_undone_at k (record f { undo_count = n }) c cs i
          (omega (arith, ap length s, length-append i (l ∷ []))) in
      let d = drop_count-snoc (record f { past = c ∷ cs }) i l in
      let m : n - boundaries i ≡ f.undo_count - boundaries (i ++ l ∷ []) =
        omega (arith, boundaries-append i (l ∷ [])) in
      rw s (ground (arith, split_last-snoc i l, d, r, ih, m))
]

-- Where there is a current record, Undo_AddNewEditOpToListHead succeeds: the new record goes in
-- front of the current one, the undone records are gone, and the boundaries among them are taken
-- off the count.
pub add_new_edit_op_lem :
    (e : EditRec) (f : Fbuf) (c : EditRec) (cs : List EditRec)
    → f.past ≡ c ∷ cs
    → add_new_edit_op e f ≡ some (record (undone_dropped f) { past = e ∷ c ∷ cs })
unfolding add_new_edit_op
add_new_edit_op_lem e f c cs h =
    let d : discard_undone (length f.future) f
        ≡ some (record (undone_dropped f) { past = c ∷ cs }) =
      subst
        (λ p.
          discard_undone (length f.future) (record f { past = p })
          ≡ some (record (undone_dropped f) { past = c ∷ cs }))
        (sym h) (discard_undone_at (length f.future) f c cs f.future (omega arith)) in
    ground (arith, d)
