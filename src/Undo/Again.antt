-- ===== src/Undo/Again.antt =====
-- The user's redo (Undo_UserStep_UndoOrRedo, fbuf_undo.cpp) after the user's undo.
use k_edit.Prelude.{ℕ, ◌≤◌, true, false, Bool, List, ◌∷◌, ◌≡◌, some, ◌⊎◌, inl, inr}
use k_edit.Buffer.{Fbuf, EditRec, Boundary, boundary}
use k_edit.EditList.{View}
use k_edit.EditList.Trim.{IsCounted}
use k_edit.Lines.Doc.{doc, SameDoc}
use k_edit.Undo.{undo_user_step}
use k_edit.Undo.Edits.{IsSettled}
use k_edit.Undo.Session.{Edit, run, all_in_range}
use k_edit.Undo.Forward.{Redone, undo_user_step-Redone}
use k_edit.Undo.Whole.{Undone, undo_user_step-run}

-- In a buffer that may be edited, with its list of records in order and a boundary as the current
-- one (the undone records, if there are any, ending in a boundary), run a sequence of edits on lines
-- that are there. Either it made no record, and the lines are as before; or one user's undo and one
-- user's redo after it both succeed, for any bound `maxundo` but 0 and from any views: the undo gives
-- back the lines from before the edits, and the redo those that the edits gave.
pub undo_user_step-redo :
    (max_undo : ℕ) (v w : View) (keep_trail : Bool) (es : List Edit) (f : Fbuf) (b : Boundary)
    (bs : List EditRec)
    → 1 ≤ max_undo
    → f.no_edit ≡ false
    → f.past ≡ boundary b ∷ bs
    → IsSettled f
    → IsCounted f
    → all_in_range keep_trail es f ≡ true
    → (g : Fbuf) × (run keep_trail es f ≡ some g)
      × (SameDoc (doc g) (doc f)
          ⊎ ((u : Undone (doc f) (doc g) (undo_user_step max_undo v false g)) × Redone
                (doc g)
                (undo_user_step max_undo w true u.buffer)))
undo_user_step-redo max_undo v w keep_trail es f b bs m e p settled o h =
    let (g, c, cs, ran, past, r) =
      undo_user_step-run max_undo v keep_trail es f b bs m e p settled o h in
    (
      g,
      ran,
      elim r [
        | inl (y, same) ↦ inl same
        | inr u ↦
            inr
              (u, undo_user_step-Redone max_undo w u.buffer u.at u.older (doc g) u.current u.ahead)
      ],
    )
