-- ===== src/EditList/Trim.antt =====
-- The bound on the number of boundaries: the loop of `UndoInsBoundary` (fbuf_undo.cpp).
use k_edit.Prelude.{
  ℕ, zero, suc, ◌+◌, ◌-◌, ◌≤◌, ◌<◌, min, if◌then◌else◌, Bool, true, false, List, [], ◌∷◌, ◌++◌,
  length, length-append, Option, none, some, ◌≡◌, refl, sym, ap, ◌∙◌, subst, arith, Bool-cases, ◌⊎◌,
  inl, inr, append-nil, append_assoc,
}
use k_edit.Buffer.{EditRec, is_boundary, boundary, Fbuf}
use k_edit.EditList.{split_last, rmv_oldest, trim, View, undo_ins_boundary, updt_boundary}
use k_edit.EditList.Count.{
  boundaries, boundaries-append, split_last-snoc, Snoc-cases, undone_dropped, add_new_edit_op_lem,
}
use native.Mathlib.Decide.{dec_lt}

abbrev pub oldest_is_boundary : List EditRec → Bool
oldest_is_boundary p = elim (split_last p) [ none ↦ false | some (_, l) ↦ is_boundary l ]

abbrev bit : Bool → ℕ
bit b = if b then 1 else 0

oldest-snoc : (i : List EditRec) (l : EditRec) → oldest_is_boundary (i ++ l ∷ []) ≡ is_boundary l
oldest-snoc i l = ground (arith, split_last-snoc i l)

rmv_oldest-snoc :
    (f : Fbuf) (i : List EditRec) (l' l : EditRec)
    → rmv_oldest (record f { past = (i ++ l' ∷ []) ++ l ∷ [] })
      ≡ some (record f { past = i ++ l' ∷ [] }, is_boundary l')
unfolding rmv_oldest
rmv_oldest-snoc f i l' l = ground (arith, split_last-snoc (i ++ l' ∷ []) l, split_last-snoc i l')

-- What trimming makes of the count `n` and the records `p`.
pub record Trimmed (max_undo n : ℕ) (p : List EditRec) (f : Fbuf) (r : Option Fbuf) : Type 0 where
  pub kept : List EditRec
  pub dropped : List EditRec
  pub result : r ≡ some (record f { undo_count = min n max_undo; past = kept })
  pub split : p ≡ kept ++ dropped
  pub counted : boundaries kept ≡ min n max_undo + 1
  pub oldest : oldest_is_boundary kept ≡ true

-- Where the count is positive there are two records.
two_records :
    (n : ℕ) (p : List EditRec)
    → 0 < n
    → boundaries p ≡ n + bit (oldest_is_boundary p)
    → (i : List EditRec) × (l' : EditRec) × (l : EditRec) × (p ≡ (i ++ l' ∷ []) ++ l ∷ [])
two_records n p h e = elim (Snoc-cases p) [
  | inl nil ↦ let z : boundaries p ≡ 0 = ap boundaries nil in absurd (omega arith)
  | inr (i, l, s) ↦ elim (Snoc-cases i) [
    | inl nil ↦
        let one : p ≡ l ∷ [] = s ∙ ap (λ t. t ++ l ∷ []) nil in
        let b : boundaries p ≡ bit (is_boundary l) + 0 = ap boundaries one in
        let o : bit (oldest_is_boundary p) ≡ bit (is_boundary l) =
          ap (λ t. bit (oldest_is_boundary t)) one in
        absurd (omega arith)
    | inr (i', l', s') ↦ (i', l', l, s ∙ ap (λ t. t ++ l ∷ []) s')
  ]
]

counted-rest :
    (n : ℕ) (i : List EditRec) (l' l : EditRec)
    → 0 < n
    → boundaries ((i ++ l' ∷ []) ++ l ∷ []) ≡ n + bit (is_boundary l)
    → boundaries (i ++ l' ∷ []) ≡ (if is_boundary l' then n - 1 else n) + bit (is_boundary l')
counted-rest n i l' l h e = ground (arith, boundaries-append (i ++ l' ∷ []) (l ∷ []))

abbrev count_after : ℕ → EditRec → ℕ
count_after n next = if is_boundary next then n - 1 else n

trim-round :
    (k max_undo n : ℕ) (f : Fbuf) (i : List EditRec) (l' l : EditRec)
    → max_undo < n
    → trim (suc k) max_undo (record f { undo_count = n; past = (i ++ l' ∷ []) ++ l ∷ [] })
      ≡ trim k max_undo (record f { undo_count = count_after n l'; past = i ++ l' ∷ [] })
unfolding trim
trim-round k max_undo n f i l' l h =
    ground (arith, rmv_oldest-snoc (record f { undo_count = n }) i l' l)

Trimmed-round :
    (max_undo n : ℕ) (f : Fbuf) (i : List EditRec) (l' l : EditRec) {r r' : Option Fbuf}
    → max_undo < n
    → r ≡ r'
    → Trimmed max_undo (count_after n l') (i ++ l' ∷ []) f r'
    → Trimmed max_undo n ((i ++ l' ∷ []) ++ l ∷ []) f r
Trimmed-round max_undo n f i l' l h e t =
    let m : min (count_after n l') max_undo ≡ min n max_undo = ground arith in
    record {
      kept = t.kept;
      dropped = t.dropped ++ l ∷ [];
      result = e ∙ t.result ∙ ap (λ c. some (record f { undo_count = c; past = t.kept })) m;
      split = ap (λ x. x ++ l ∷ []) t.split ∙ append_assoc t.kept t.dropped (l ∷ []);
      counted = t.counted ∙ ap (λ c. c + 1) m;
      oldest = t.oldest;
    }

oldest_or_over :
    (max_undo n : ℕ) (i : List EditRec) (l' : EditRec)
    → max_undo < n
    → (oldest_is_boundary (i ++ l' ∷ []) ≡ true) ⊎ (max_undo < count_after n l')
oldest_or_over max_undo n i l' h = elim (Bool-cases (is_boundary l')) [
  | inl b ↦ inl (oldest-snoc i l' ∙ b)
  | inr b ↦ inr (rw b h)
]

-- One record goes in a round; the oldest record is a boundary at the end, since the count falls only
-- then.
trim-Trimmed :
    (k max_undo n : ℕ) (f : Fbuf) (p : List EditRec)
    → length p ≤ k
    → boundaries p ≡ n + bit (oldest_is_boundary p)
    → (oldest_is_boundary p ≡ true) ⊎ (max_undo < n)
    → Trimmed max_undo n p f (trim k max_undo (record f { undo_count = n; past = p }))
trim-Trimmed zero max_undo n f [] h e o = absurd (ground arith)
trim-Trimmed zero max_undo n f (x ∷ p) h e o = absurd (omega arith)
trim-Trimmed (suc k) max_undo n f p h e o = elim (dec_lt max_undo n) [
  | no q ↦
      let t : oldest_is_boundary p ≡ true = ground arith in
      record {
        kept = p;
        dropped = [];
        result = unfold trim in ground arith;
        split = sym (append-nil p);
        counted = ground arith;
        oldest = t;
      }
  | yes q ↦
      let (i, l', l, s) = two_records n p (omega arith) e in
      let rest = i ++ l' ∷ [] in
      let e' : boundaries (rest ++ l ∷ []) ≡ n + bit (is_boundary l) =
        subst (λ t. boundaries t ≡ n + bit (oldest_is_boundary t)) s e
        ∙ ap (λ b. n + bit b) (oldest-snoc rest l) in
      let ih =
        trim-Trimmed k max_undo (count_after n l') f rest
          (omega (arith, ap length s, length-append rest (l ∷ [])))
          (rw (oldest-snoc i l') (counted-rest n i l' l (omega arith) e'))
          (oldest_or_over max_undo n i l' q) in
      subst
        (λ t.
          Trimmed max_undo n t f (trim (suc k) max_undo (record f { undo_count = n; past = t })))
        (sym s) (Trimmed-round max_undo n f i l' l q (trim-round k max_undo n f i l' l q) ih)
]

-- A list of edit records in order: the current record is there, the oldest one is a boundary, and
-- `d_UndoCount` is the number of boundaries but the oldest.
pub record IsCounted (f : Fbuf) : Type 0 where
  pub counted : f.undo_count + 1 ≡ boundaries f.past + boundaries f.future
  pub oldest : oldest_is_boundary f.past ≡ true

-- What `UndoInsBoundary` leaves where it adds a boundary.
pub record BoundaryAdded (max_undo : ℕ) (v : View) (f : Fbuf) (g : Fbuf) : Type 0 where
  pub bounded : g.undo_count ≡ min (f.undo_count - boundaries f.future + 1) max_undo
  pub in_order : IsCounted g
  pub no_undone : g.future ≡ []
  pub kept : List EditRec
  pub dropped : List EditRec
  pub split : boundary (updt_boundary v f) ∷ f.past ≡ kept ++ dropped
  pub past_kept : g.past ≡ kept
  pub lines_kept : g.lines ≡ f.lines
  pub count_kept : g.line_count ≡ f.line_count

oldest-cons :
    (e c : EditRec) (cs : List EditRec)
    → oldest_is_boundary (e ∷ c ∷ cs) ≡ oldest_is_boundary (c ∷ cs)
oldest-cons e c cs = elim (Snoc-cases (c ∷ cs)) [
  | inl nil ↦ cc
  | inr (i, l, s) ↦ rw s (oldest-snoc (e ∷ i) l ∙ sym (oldest-snoc i l))
]

pub one_boundary : (p : List EditRec) → oldest_is_boundary p ≡ true → 1 ≤ boundaries p
one_boundary p h = elim (Snoc-cases p) [
  | inl nil ↦ absurd (let e : false ≡ true = subst (λ t. oldest_is_boundary t ≡ true) nil h in cc)
  | inr (i, l, s) ↦
      let e : is_boundary l ≡ true =
        sym (oldest-snoc i l) ∙ subst (λ t. oldest_is_boundary t ≡ true) s h in
      rw s (ground (arith, boundaries-append i (l ∷ [])))
]

undo_ins_boundary-trim :
    (max_undo : ℕ) (v : View) (f : Fbuf) (c : EditRec) (cs : List EditRec)
    → f.no_edit ≡ false
    → f.past ≡ c ∷ cs
    → is_boundary c ≡ false
    → undo_ins_boundary max_undo v f
      ≡ trim (length (boundary (updt_boundary v f) ∷ c ∷ cs)) max_undo (record (undone_dropped f) {
        undo_count = (undone_dropped f).undo_count + 1;
        past = boundary (updt_boundary v f) ∷ c ∷ cs;
      })
unfolding undo_ins_boundary
undo_ins_boundary-trim max_undo v f c cs w e h =
    ground (arith, add_new_edit_op_lem (boundary (updt_boundary v f)) f c cs e)

-- In a buffer that may be edited, with its list in order and an edit as the current record,
-- `UndoInsBoundary` succeeds. The undone records go, and the new boundary, with the file's
-- state, is in front. The list stays in order, what is dropped is dropped at the old end, the
-- lines stay, and the count of boundaries is the one from before, less the undone ones and one
-- more, but at most `max_undo`.
pub undo_ins_boundary_adds :
    (max_undo : ℕ) (v : View) (f : Fbuf) (c : EditRec) (cs : List EditRec)
    → f.no_edit ≡ false
    → IsCounted f
    → f.past ≡ c ∷ cs
    → is_boundary c ≡ false
    → (g : Fbuf) × (undo_ins_boundary max_undo v f ≡ some g) × BoundaryAdded max_undo v f g
undo_ins_boundary_adds max_undo v f c cs w o e h =
    let b = boundary (updt_boundary v f) in
    let n = f.undo_count - boundaries f.future + 1 in
    let p = b ∷ c ∷ cs in
    let old : oldest_is_boundary p ≡ true =
      oldest-cons b c cs ∙ subst (λ t. oldest_is_boundary t ≡ true) e o.oldest in
    let some_boundary = one_boundary f.past o.oldest in
    let total : boundaries p ≡ n + bit (oldest_is_boundary p) =
      rw old (omega (arith, o.counted, some_boundary, ap boundaries e)) in
    let t = trim-Trimmed (length p) max_undo n (undone_dropped f) p (omega arith) total (inl old) in
    (
      record (undone_dropped f) { undo_count = min n max_undo; past = t.kept },
      undo_ins_boundary-trim max_undo v f c cs w e h ∙ t.result,
      record {
        bounded = refl;
        in_order = record { counted = omega (arith, t.counted); oldest = t.oldest };
        no_undone = refl;
        kept = t.kept;
        dropped = t.dropped;
        split = ap (b ∷◌) e ∙ t.split;
        past_kept = refl;
        lines_kept = refl;
        count_kept = refl;
      },
    )

-- A record in front of the current one, with the undone ones dropped.
pub IsCounted-recorded :
    (e c : EditRec) (cs : List EditRec) (f : Fbuf)
    → is_boundary e ≡ false
    → f.past ≡ c ∷ cs
    → IsCounted f
    → IsCounted (record (undone_dropped f) { past = e ∷ f.past })
IsCounted-recorded e c cs f n p o =
    let total : boundaries (e ∷ f.past) ≡ boundaries f.past = ground (arith, n) in
    let some_boundary = one_boundary f.past o.oldest in
    record {
      counted = omega (arith, o.counted);
      oldest =
          ap (λ t. oldest_is_boundary (e ∷ t)) p
          ∙ oldest-cons e c cs
          ∙ ap oldest_is_boundary (sym p)
          ∙ o.oldest;
    }

pub IsCounted-lists :
    {f g : Fbuf}
    → g.past ≡ f.past
    → g.future ≡ f.future
    → g.undo_count ≡ f.undo_count
    → IsCounted f
    → IsCounted g
IsCounted-lists p fu u o = record {
  counted = ground (arith, ap boundaries p, ap boundaries fu, o.counted);
  oldest = ap oldest_is_boundary p ∙ o.oldest;
}
