-- ===== src/Undo/Whole.antt =====
-- The user's undo (Undo_UserStep_UndoOrRedo, fbuf_undo.cpp) after a sequence of edits.
use k_edit.Prelude.{
  ℕ, ◌+◌, ◌≤◌, Bool, true, false, List, [], ◌∷◌, ◌++◌, length, Option, some, ◌≡◌, sym, ap, ◌∙◌,
  subst, arith, Bool-cases, ◌⊎◌, inl, inr,
}
use k_edit.Buffer.{Fbuf, Point, EditRec, alt, insert, delete, Boundary, boundary, is_boundary}
use k_edit.EditList.{View, undo_ins_boundary, updt_boundary}
use k_edit.EditList.Count.{boundaries}
use k_edit.EditList.Trim.{IsCounted, undo_ins_boundary_adds}
use k_edit.Lines.Doc.{Doc, doc, SameDoc, SameDoc-refl, SameDoc-sym}
use k_edit.Undo.{
  anything_to_undo_redo, step_loop, set_undo_state_to_boundrec, updt_from_boundary, undo_user_step,
}
use k_edit.Undo.Step.{Remakes, Restores, Restores-SameDoc, Restored, step_loop-Restored}
use k_edit.Undo.Edits.{IsSettled, IsRecording}
use k_edit.Undo.Session.{Edit, run, all_in_range, run-IsRecording}

-- Where the records are trimmed behind a boundary, undoing them gives the same document.
Restores-kept :
    (kept dropped : List EditRec) (d s : Doc)
    → 1 ≤ boundaries kept
    → Restores (kept ++ dropped) d s
    → Restores kept d s
Restores-kept [] dropped d s h r = absurd (omega arith)
Restores-kept (boundary b ∷ es) dropped d s h r = r
Restores-kept (alt a ∷ es) dropped d s h (fits, r) =
    (fits, Restores-kept es dropped _ s (omega arith) r)
Restores-kept (insert a ∷ es) dropped d s h (fits, r) =
    (fits, Restores-kept es dropped _ s (omega arith) r)
Restores-kept (delete a ∷ es) dropped d s h (fits, r) =
    (fits, Restores-kept es dropped _ s (omega arith) r)

-- The records that are kept start with the new boundary, and lead back to the same document.
kept-cons :
    (b : Boundary) (p kept dropped : List EditRec) (d s : Doc)
    → boundary b ∷ p ≡ kept ++ dropped
    → 2 ≤ boundaries kept
    → Restores p d s
    → (rest : List EditRec) × (kept ≡ boundary b ∷ rest) × Restores rest d s
kept-cons b p [] dropped d s e h r = absurd (omega arith)
kept-cons b p (k ∷ rest) dropped d s e h r =
    let heads : boundary b ≡ k = cc in
    let tails : p ≡ rest ++ dropped = cc in
    let one : boundaries (k ∷ rest) ≡ 1 + boundaries rest =
      ap (λ x. boundaries (x ∷ rest)) (sym heads) in
    (
      rest,
      ap (λ x. x ∷ rest) (sym heads),
      Restores-kept rest dropped d s (omega arith) (subst (λ x. Restores x d s) tails r),
    )

-- A user's undo that succeeds, says so, and gives the document `s`, from where the undone records lead
-- back to `t`.
pub record Undone (s t : Doc) (r : Option (Fbuf × Bool × Option (Point × Point))) : Type 0 where
  pub buffer : Fbuf
  pub scroll : Option (Point × Point)
  pub result : r ≡ some (buffer, true, scroll)
  pub document : SameDoc (doc buffer) s
  pub at : Boundary
  pub older : List EditRec
  pub current : buffer.past ≡ boundary at ∷ older
  pub ahead : Remakes buffer.future (doc buffer) t

finish_step :
    (max_undo : ℕ) (v : View) (s t : Doc) (f g : Fbuf)
    → anything_to_undo_redo false f ≡ true
    → undo_ins_boundary max_undo v f ≡ some g
    → Restored s t (step_loop (length g.past + length g.future) false g)
    → Undone s t (undo_user_step max_undo v false f)
unfolding undo_user_step set_undo_state_to_boundrec updt_from_boundary
finish_step max_undo v s t f g a b r =
    let res = r.result in
    let cur = r.current in
    record {
      buffer = (updt_from_boundary r.at v r.buffer).0;
      scroll = (updt_from_boundary r.at v r.buffer).1;
      result = ground (arith, cur);
      document = r.document;
      at = r.at;
      older = r.older;
      current = r.current;
      ahead = r.ahead;
    }

something_to_undo :
    (f : Fbuf) (c : EditRec) (cs : List EditRec) (s : Doc)
    → f.past ≡ c ∷ cs
    → is_boundary c ≡ false
    → Restores (c ∷ cs) (doc f) s
    → anything_to_undo_redo false f ≡ true
unfolding anything_to_undo_redo
something_to_undo f (alt a) [] s p n (fits, r) = absurd r
something_to_undo f (insert a) [] s p n (fits, r) = absurd r
something_to_undo f (delete a) [] s p n (fits, r) = absurd r
something_to_undo f (boundary b) [] s p n r = absurd (ground arith)
something_to_undo f c (e ∷ es) s p n r = ground arith

boundary-Restores :
    (c : EditRec) (cs : List EditRec) (d s : Doc)
    → is_boundary c ≡ true
    → Restores (c ∷ cs) d s
    → SameDoc d s
boundary-Restores (boundary b) cs d s y r = r
boundary-Restores (alt a) cs d s y r = absurd (ground arith)
boundary-Restores (insert a) cs d s y r = absurd (ground arith)
boundary-Restores (delete a) cs d s y r = absurd (ground arith)

-- Where the current record is an edit, one user's undo gives the document at the last boundary.
undo_user_step-Undone :
    (max_undo : ℕ) (v : View) (s : Doc) (f : Fbuf)
    → 1 ≤ max_undo
    → (r : IsRecording s f) → is_boundary r.current ≡ false
    → Undone s (doc f) (undo_user_step max_undo v false f)
undo_user_step-Undone max_undo v s f m r n =
    let (g, b, added) =
      undo_ins_boundary_adds max_undo v f r.current r.older r.may_edit r.counted r.past_lem n in
    let restores = subst (λ p. Restores p (doc f) s) r.past_lem r.restores in
    let enough : 2 ≤ boundaries added.kept = omega (
      arith,
      added.bounded,
      added.in_order.counted,
      ap boundaries added.past_kept,
      ap boundaries added.no_undone,
    ) in
    let same : SameDoc (doc f) (doc g) = record {
      counts = sym added.count_kept;
      agree = λ i h. sym (ap (λ l. l i) added.lines_kept);
    } in
    let (rest, k, back) =
      kept-cons (updt_boundary v f) f.past added.kept added.dropped (doc f) s added.split enough
        r.restores in
    let p : g.past ≡ boundary (updt_boundary v f) ∷ rest = added.past_kept ∙ k in
    finish_step max_undo v s (doc f) f g
      (something_to_undo f r.current r.older s r.past_lem n restores) b
      (step_loop-Restored (length g.past + length g.future) rest g (boundary (updt_boundary v f)) s
        (doc f) (omega (arith, ap length p)) p tt (SameDoc-sym same)
        (Restores-SameDoc rest s same back))

-- In a buffer that may be edited, with its list of records in order and a boundary as the current
-- one (the undone records, if there are any, ending in a boundary), a sequence of edits on lines that
-- are there succeeds. Either it made no record, and the lines are as before; or one user's undo
-- afterwards succeeds, reports that it undid something, and gives back the lines from before the
-- edits, for any bound `maxundo` but 0; and the undone records lead from these to the lines the edits
-- gave.
pub undo_user_step-run :
    (max_undo : ℕ) (v : View) (keep_trail : Bool) (es : List Edit) (f : Fbuf) (b : Boundary)
    (bs : List EditRec)
    → 1 ≤ max_undo
    → f.no_edit ≡ false
    → f.past ≡ boundary b ∷ bs
    → IsSettled f
    → IsCounted f
    → all_in_range keep_trail es f ≡ true
    → (g : Fbuf) × (c : EditRec) × (cs : List EditRec) × (run keep_trail es f ≡ some g)
      × (g.past ≡ c ∷ cs)
      × (((is_boundary c ≡ true) × SameDoc (doc g) (doc f))
          ⊎ Undone (doc f) (doc g) (undo_user_step max_undo v false g))
undo_user_step-run max_undo v keep_trail es f b bs m w p settled o h =
    let start : IsRecording (doc f) f = record {
      may_edit = w;
      current = boundary b;
      older = bs;
      past_lem = p;
      settled = settled;
      counted = o;
      restores = subst (λ t. Restores t (doc f) (doc f)) (sym p) (SameDoc-refl (doc f));
    } in
    let (g, ran, r) = run-IsRecording (doc f) keep_trail es f start h in
    (
      g,
      r.current,
      r.older,
      ran,
      r.past_lem,
      elim (Bool-cases (is_boundary r.current)) [
        | inl y ↦ inl (
          y,
          boundary-Restores r.current r.older (doc g) (doc f) y
              (subst (λ p. Restores p (doc g) (doc f)) r.past_lem r.restores),
        )
        | inr n ↦ inr (undo_user_step-Undone max_undo v (doc f) g m r n)
      ],
    )
