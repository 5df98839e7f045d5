-- ===== src/Undo/Step.antt =====
-- The loop of Undo_UserStep_UndoOrRedo (fbuf_undo.cpp) for undo.
use k_edit.Prelude.{
  ℕ, zero, suc, ◌≤◌, not, if◌then◌else◌, false, List, [], ◌∷◌, length, Option, some, ◌≡◌, refl, sym,
  ◌∙◌, subst, arith,
}
use k_edit.Buffer.{Fbuf, EditRec, alt, insert, delete, boundary, Boundary, is_boundary}
use k_edit.Lines.Doc.{Doc, doc, SameDoc, SameDoc-sym, SameDoc-trans}
use k_edit.Undo.{v_undo, undo_ed_op_undo, step_loop}
use k_edit.Undo.Record.{Fits, undone, Fits-SameDoc, undone-SameDoc, Left, v_undo-undone}
use k_edit.Undo.Redo.{FitsAgain, redone, FitsAgain-SameDoc, redone-SameDoc, undone_back}

-- Undoing the records, up to the first boundary among them, turns the document `d` into `s`.
abbrev pub Restores : List EditRec → Doc → Doc → Type 0
Restores [] d s = ⊥
Restores (boundary b ∷ es) d s = SameDoc d s
Restores (alt a ∷ es) d s = Fits (alt a) d × Restores es (undone (alt a) d) s
Restores (insert r ∷ es) d s = Fits (insert r) d × Restores es (undone (insert r) d) s
Restores (delete r ∷ es) d s = Fits (delete r) d × Restores es (undone (delete r) d) s

pub Restores-SameDoc :
    (es : List EditRec) (s : Doc) {d d' : Doc} → SameDoc d d' → Restores es d s → Restores es d' s
Restores-SameDoc [] s same r = r
Restores-SameDoc (boundary b ∷ es) s same r = SameDoc-trans (SameDoc-sym same) r
Restores-SameDoc (alt a ∷ es) s same (f, r) =
    (Fits-SameDoc (alt a) same f, Restores-SameDoc es s (undone-SameDoc (alt a) f same) r)
Restores-SameDoc (insert a ∷ es) s same (f, r) =
    (Fits-SameDoc (insert a) same f, Restores-SameDoc es s (undone-SameDoc (insert a) f same) r)
Restores-SameDoc (delete a ∷ es) s same (f, r) =
    (Fits-SameDoc (delete a) same f, Restores-SameDoc es s (undone-SameDoc (delete a) f same) r)

-- Redoing the records, up to the first boundary among them, turns the document `d` into `t`.
abbrev pub Remakes : List EditRec → Doc → Doc → Type 0
Remakes [] d t = ⊥
Remakes (boundary b ∷ es) d t = SameDoc d t
Remakes (alt a ∷ es) d t = FitsAgain (alt a) d × Remakes es (redone (alt a) d) t
Remakes (insert r ∷ es) d t = FitsAgain (insert r) d × Remakes es (redone (insert r) d) t
Remakes (delete r ∷ es) d t = FitsAgain (delete r) d × Remakes es (redone (delete r) d) t

pub Remakes-SameDoc :
    (es : List EditRec) (t : Doc) {d d' : Doc} → SameDoc d d' → Remakes es d t → Remakes es d' t
Remakes-SameDoc [] t same r = r
Remakes-SameDoc (boundary b ∷ es) t same r = SameDoc-trans (SameDoc-sym same) r
Remakes-SameDoc (alt a ∷ es) t same (f, r) =
    (FitsAgain-SameDoc (alt a) same f, Remakes-SameDoc es t (redone-SameDoc (alt a) f same) r)
Remakes-SameDoc (insert a ∷ es) t same (f, r) =
    (FitsAgain-SameDoc (insert a) same f, Remakes-SameDoc es t (redone-SameDoc (insert a) f same) r)
Remakes-SameDoc (delete a ∷ es) t same (f, r) =
    (FitsAgain-SameDoc (delete a) same f, Remakes-SameDoc es t (redone-SameDoc (delete a) f same) r)

-- Before the record `x` is undone: the undone records lead to `t`, or `x` is the boundary at `t`.
abbrev pub IsAhead : EditRec → List EditRec → Doc → Doc → Type 0
IsAhead (boundary b) future d t = SameDoc d t
IsAhead (alt a) future d t = Remakes future d t
IsAhead (insert r) future d t = Remakes future d t
IsAhead (delete r) future d t = Remakes future d t

undone-Remakes :
    (x x' : EditRec) (future : List EditRec) (d g t : Doc)
    → Fits x d
    → Left x d x'
    → SameDoc g (undone x d)
    → IsAhead x future d t
    → Remakes (x' ∷ future) g t
undone-Remakes (alt a) x' future d g t fits left s ahead =
    let m = alt (record { count = d.count; line = a.line; li = d.line a.line }) in
    let (again, same) = undone_back (alt a) m d g fits refl s in
    subst (λ y. Remakes (y ∷ future) g t) (sym left)
      (again, Remakes-SameDoc future t (SameDoc-sym same) ahead)
undone-Remakes (insert r) x' future d g t fits left s ahead =
    let (again, same) = undone_back (insert r) (insert r) d g fits refl s in
    subst (λ y. Remakes (y ∷ future) g t) (sym left)
      (again, Remakes-SameDoc future t (SameDoc-sym same) ahead)
undone-Remakes (delete r) x' future d g t fits (saved, left) s ahead =
    let m = delete (record r { saved = saved; applied = false }) in
    let (again, same) = undone_back (delete r) m d g fits (saved, refl) s in
    subst (λ y. Remakes (y ∷ future) g t) (sym left)
      (again, Remakes-SameDoc future t (SameDoc-sym same) ahead)
undone-Remakes (boundary b) x' future d g t fits left s ahead =
    subst (λ y. Remakes (y ∷ future) g t) (sym left) (SameDoc-trans s ahead)

-- What the loop leaves: the document `s`, a boundary as the current record, and undone records that
-- lead to `t`.
pub record Restored (s t : Doc) (r : Option Fbuf) : Type 0 where
  pub buffer : Fbuf
  pub result : r ≡ some buffer
  pub document : SameDoc (doc buffer) s
  pub at : Boundary
  pub older : List EditRec
  pub current : buffer.past ≡ boundary at ∷ older
  pub ahead : Remakes buffer.future (doc buffer) t

-- One round: the record `x` is undone and `e` is current.
step_round :
    (k : ℕ) (f : Fbuf) (x e : EditRec) (es : List EditRec) (x' : EditRec) (g : Fbuf)
    → f.past ≡ x ∷ e ∷ es
    → v_undo x f ≡ some (x', g)
    → step_loop (suc k) false f ≡ (
        if not (is_boundary e)
        then step_loop k false (record g { past = e ∷ es; future = x' ∷ f.future })
        else some (record g { past = e ∷ es; future = x' ∷ f.future }))
unfolding step_loop undo_ed_op_undo
step_round k f x e es x' g p v = ground (arith, p, v)

-- After a round the loop goes on with the record `e`, if that is no boundary.
next_round :
    (k : ℕ) (f : Fbuf) (x e : EditRec) (es : List EditRec) (s t : Doc)
    → f.past ≡ x ∷ e ∷ es
    → Fits x (doc f)
    → IsAhead x f.future (doc f) t
    → is_boundary e ≡ false
    → Fits e (undone x (doc f))
    → Restores es (undone e (undone x (doc f))) s
    → ((f' : Fbuf)
        → f'.past ≡ e ∷ es
        → Fits e (doc f')
        → Remakes f'.future (doc f') t
        → Restores es (undone e (doc f')) s
        → Restored s t (step_loop k false f'))
    → Restored s t (step_loop (suc k) false f)
next_round k f x e es s t p fits ahead open_end fits' r rest =
    let (x', g, v, same, left) = v_undo-undone x f fits in
    let f' = record g { past = e ∷ es; future = x' ∷ f.future } in
    let back = SameDoc-sym same in
    let go = step_round k f x e es x' g p v ∙ rw open_end in
    subst (Restored s t) (sym go) (
      rest f' refl (Fits-SameDoc e back fits')
        (undone-Remakes x x' f.future (doc f) (doc g) t fits left same ahead)
        (Restores-SameDoc es s (undone-SameDoc e fits' back) r))

pub step_loop-Restored :
    (k : ℕ) (rest : List EditRec) (f : Fbuf) (x : EditRec) (s t : Doc)
    → length rest ≤ k
    → f.past ≡ x ∷ rest
    → Fits x (doc f)
    → IsAhead x f.future (doc f) t
    → Restores rest (undone x (doc f)) s
    → Restored s t (step_loop k false f)
step_loop-Restored k [] f x s t h p fits ahead r = absurd r
step_loop-Restored zero (e ∷ es) f x s t h p fits ahead r = absurd (omega arith)
step_loop-Restored (suc k) (boundary b ∷ es) f x s t h p fits ahead r =
    let (x', g, v, same, left) = v_undo-undone x f fits in
    record {
      buffer = record g { past = boundary b ∷ es; future = x' ∷ f.future };
      result = step_round k f x (boundary b) es x' g p v;
      document = SameDoc-trans same r;
      at = b;
      older = es;
      current = refl;
      ahead = undone-Remakes x x' f.future (doc f) (doc g) t fits left same ahead;
    }
step_loop-Restored (suc k) (alt a ∷ es) f x s t h p fits ahead (fits', r) =
    next_round k f x (alt a) es s t p fits ahead refl fits' r
      (λ f'. step_loop-Restored k es f' (alt a) s t (omega arith))
step_loop-Restored (suc k) (insert a ∷ es) f x s t h p fits ahead (fits', r) =
    next_round k f x (insert a) es s t p fits ahead refl fits' r
      (λ f'. step_loop-Restored k es f' (insert a) s t (omega arith))
step_loop-Restored (suc k) (delete a ∷ es) f x s t h p fits ahead (fits', r) =
    next_round k f x (delete a) es s t p fits ahead refl fits' r
      (λ f'. step_loop-Restored k es f' (delete a) s t (omega arith))
