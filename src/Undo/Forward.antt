-- ===== src/Undo/Forward.antt =====
-- The loop of Undo_UserStep_UndoOrRedo (fbuf_undo.cpp) for redo, and the user's redo.
use k_edit.Prelude.{
  ℕ, zero, suc, ◌+◌, ◌≤◌, not, if◌then◌else◌, true, false, Bool, Bool-cases, List, [], ◌∷◌, length,
  Option, some, ◌≡◌, refl, sym, ◌∙◌, inl, inr, subst, arith,
}
use k_edit.Buffer.{Fbuf, Point, EditRec, alt, insert, delete, boundary, Boundary, is_boundary}
use k_edit.EditList.{View, undo_ins_boundary, updt_boundary}
use k_edit.Lines.Doc.{Doc, doc, SameDoc, SameDoc-sym, SameDoc-trans}
use k_edit.Undo.{
  v_redo, undo_ed_op_redo, step_loop, anything_to_undo_redo, set_undo_state_to_boundrec,
  updt_from_boundary, undo_user_step,
}
use k_edit.Undo.Redo.{FitsAgain, redone, FitsAgain-SameDoc, redone-SameDoc, v_redo-redone}
use k_edit.Undo.Step.{Remakes, Remakes-SameDoc}

record Remade (t : Doc) (r : Option Fbuf) : Type 0 where
  buffer : Fbuf
  result : r ≡ some buffer
  document : SameDoc (doc buffer) t
  at : Boundary
  older : List EditRec
  current : buffer.past ≡ boundary at ∷ older

-- One round: the record `x` is redone and `e` is current.
redo_round :
    (k : ℕ) (f : Fbuf) (x e : EditRec) (cs es : List EditRec) (x' : EditRec) (g : Fbuf)
    → f.past ≡ x ∷ cs
    → f.future ≡ e ∷ es
    → v_redo x f ≡ some (x', g)
    → step_loop (suc k) true f ≡ (
        if not (is_boundary e)
        then step_loop k true (record g { past = e ∷ x' ∷ cs; future = es })
        else some (record g { past = e ∷ x' ∷ cs; future = es }))
unfolding step_loop undo_ed_op_redo
redo_round k f x e cs es x' g p q v = ground (arith, p, q, v)

-- After a round the loop goes on with the record `e`, if that is no boundary.
next_round :
    (k : ℕ) (f : Fbuf) (x e : EditRec) (cs es : List EditRec) (t : Doc)
    → f.past ≡ x ∷ cs
    → f.future ≡ e ∷ es
    → FitsAgain x (doc f)
    → is_boundary e ≡ false
    → FitsAgain e (redone x (doc f))
    → Remakes es (redone e (redone x (doc f))) t
    → ((f' : Fbuf) (cs' : List EditRec)
        → f'.past ≡ e ∷ cs'
        → f'.future ≡ es
        → FitsAgain e (doc f')
        → Remakes es (redone e (doc f')) t
        → Remade t (step_loop k true f'))
    → Remade t (step_loop (suc k) true f)
next_round k f x e cs es t p q fits open_end fits' r rest =
    let (x', g, v, same) = v_redo-redone x f fits in
    let f' = record g { past = e ∷ x' ∷ cs; future = es } in
    let back = SameDoc-sym same in
    let go = redo_round k f x e cs es x' g p q v ∙ rw open_end in
    subst (Remade t) (sym go) (
      rest f' (x' ∷ cs) refl refl (FitsAgain-SameDoc e back fits')
        (Remakes-SameDoc es t (redone-SameDoc e fits' back) r))

step_loop-Remade :
    (k : ℕ) (rest cs : List EditRec) (f : Fbuf) (x : EditRec) (t : Doc)
    → length rest ≤ k
    → f.past ≡ x ∷ cs
    → f.future ≡ rest
    → FitsAgain x (doc f)
    → Remakes rest (redone x (doc f)) t
    → Remade t (step_loop k true f)
step_loop-Remade k [] cs f x t h p q fits r = absurd r
step_loop-Remade zero (e ∷ es) cs f x t h p q fits r = absurd (omega arith)
step_loop-Remade (suc k) (boundary b ∷ es) cs f x t h p q fits r =
    let (x', g, v, same) = v_redo-redone x f fits in
    record {
      buffer = record g { past = boundary b ∷ x' ∷ cs; future = es };
      result = redo_round k f x (boundary b) cs es x' g p q v;
      document = SameDoc-trans same r;
      at = b;
      older = x' ∷ cs;
      current = refl;
    }
step_loop-Remade (suc k) (alt a ∷ es) cs f x t h p q fits (fits', r) =
    next_round k f x (alt a) cs es t p q fits refl fits' r
      (λ f' cs'. step_loop-Remade k es cs' f' (alt a) t (omega arith))
step_loop-Remade (suc k) (insert a ∷ es) cs f x t h p q fits (fits', r) =
    next_round k f x (insert a) cs es t p q fits refl fits' r
      (λ f' cs'. step_loop-Remade k es cs' f' (insert a) t (omega arith))
step_loop-Remade (suc k) (delete a ∷ es) cs f x t h p q fits (fits', r) =
    next_round k f x (delete a) cs es t p q fits refl fits' r
      (λ f' cs'. step_loop-Remade k es cs' f' (delete a) t (omega arith))

-- A user's redo that succeeds, says so, and gives the document `t`.
pub record Redone (t : Doc) (r : Option (Fbuf × Bool × Option (Point × Point))) : Type 0 where
  pub buffer : Fbuf
  pub scroll : Option (Point × Point)
  pub result : r ≡ some (buffer, true, scroll)
  pub document : SameDoc (doc buffer) t

finish_redo :
    (max_undo : ℕ) (v : View) (t : Doc) (f g : Fbuf)
    → anything_to_undo_redo true f ≡ true
    → undo_ins_boundary max_undo v f ≡ some g
    → Remade t (step_loop (length g.past + length g.future) true g)
    → Redone t (undo_user_step max_undo v true f)
unfolding undo_user_step set_undo_state_to_boundrec updt_from_boundary
finish_redo max_undo v t f g a b r =
    let res = r.result in
    let cur = r.current in
    record {
      buffer = (updt_from_boundary r.at v r.buffer).0;
      scroll = (updt_from_boundary r.at v r.buffer).1;
      result = ground (arith, cur);
      document = r.document;
    }

some_future :
    (fu : List EditRec) (d t : Doc)
    → Remakes fu d t
    → (n : EditRec) × (ns : List EditRec) × (fu ≡ n ∷ ns)
some_future [] d t r = absurd r
some_future (n ∷ ns) d t r = (n, ns, refl)

something_to_redo :
    (f : Fbuf) (b : Boundary) (cs : List EditRec) (t : Doc)
    → f.past ≡ boundary b ∷ cs
    → Remakes f.future (doc f) t
    → anything_to_undo_redo true f ≡ true
unfolding anything_to_undo_redo
something_to_redo f b cs t p r = let (n, ns, e) = some_future f.future (doc f) t r in ground arith

-- `UndoInsBoundary` on a current boundary updates that.
boundary_updated :
    (max_undo : ℕ) (v : View) (f : Fbuf) (b : Boundary) (cs : List EditRec)
    → f.past ≡ boundary b ∷ cs
    → (g : Fbuf) × (b' : Boundary) × (undo_ins_boundary max_undo v f ≡ some g)
      × (g.past ≡ boundary b' ∷ cs)
      × (g.future ≡ f.future)
      × (doc g ≡ doc f)
unfolding undo_ins_boundary
boundary_updated max_undo v f b cs p = elim (Bool-cases f.no_edit) [
  | inl w ↦ (f, b, ground arith, p, refl, refl)
  | inr w ↦ (
    record f { past = boundary (updt_boundary v f) ∷ cs },
    updt_boundary v f,
    ground arith,
    refl,
    refl,
    refl,
  )
]

pub undo_user_step-Redone :
    (max_undo : ℕ) (v : View) (f : Fbuf) (b : Boundary) (cs : List EditRec) (t : Doc)
    → f.past ≡ boundary b ∷ cs
    → Remakes f.future (doc f) t
    → Redone t (undo_user_step max_undo v true f)
undo_user_step-Redone max_undo v f b cs t p r =
    let (g, b', e, past, future, same) = boundary_updated max_undo v f b cs p in
    finish_redo max_undo v t f g (something_to_redo f b cs t p r) e (
      step_loop-Remade (length g.past + length g.future) g.future cs g (boundary b') t (omega arith)
        past refl tt
        (subst (λ d. Remakes g.future d t) (sym same)
          (subst (λ fu. Remakes fu (doc f) t) (sym future) r)))
