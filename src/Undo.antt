-- ===== src/Undo.antt =====
-- Undoing and redoing edit records (fbuf_undo.cpp): VUndo and VRedo of the subclasses of EditRec, the
-- steps along the list, and the user's step. `none` is a failed assertion or a null dereference.
pub mod Record
pub mod Redo
pub mod Step
pub mod Session
pub mod Edits
pub mod Ranges
pub mod Entabbed
pub mod Forward
pub mod Whole
pub mod Again
use k_edit.Prelude.{
  ℕ, zero, suc, ◌+◌, ◌-◌, ltb, leb, ◌==◌, ◌&&◌, ◌||◌, not, if◌then◌else◌, Bool, true, false, List,
  [], ◌∷◌, ◌++◌, min, length, Option, none, some,
}
use k_edit.Buffer.{
  LineInfo, empty_line, Fbuf, fbuf_event, changed, set_line, Point, EditRec, alt, insert, delete,
  boundary, is_boundary, Boundary, AltLine, LineInsert, LineDelete, stat_eq,
}
use k_edit.Lines.{insert_lines, delete_lines}
use k_edit.EditList.{View, updt_boundary, undo_ins_boundary}

-- EdOpAltLineContent::swapContent
unfoldable pub swap_content : AltLine → Fbuf → AltLine × Fbuf
unfolding fbuf_event set_line
swap_content a f =
    let g = fbuf_event (changed a.line) f in
    (
      record { count = g.line_count; line = a.line; li = g.lines a.line },
      record g { lines = set_line a.line a.li g.lines; line_count = a.count },
    )

-- EdOpLineRangeDelete::swapLineContentOwnership, as two arrays: what the buffer gets, and the record
unfoldable pub swap_into : LineDelete → (ℕ → LineInfo) → ℕ → LineInfo
swap_into d a i = if leb d.first i && ltb i (d.first + d.n) then d.saved (i - d.first) else a i

unfoldable pub swap_out : LineDelete → (ℕ → LineInfo) → ℕ → LineInfo
swap_out d a j = if ltb j d.n then a (d.first + j) else d.saved j

-- EdOpLineRangeInsert::VUndo and VRedo
abbrev pub line_insert_undo : LineInsert → Fbuf → Option (EditRec × Fbuf)
line_insert_undo r f = elim (delete_lines r.first (r.first + r.n - 1) false f) [
  | none ↦ none
  | some g ↦ some (insert r, record g { line_count = r.count })
]

abbrev pub line_insert_redo : LineInsert → Fbuf → Option (EditRec × Fbuf)
line_insert_redo r f = elim (insert_lines r.first r.n false f) [
  | none ↦ none
  | some g ↦ some (insert r, record g { line_count = r.count + r.n })
]

-- EdOpLineRangeDelete::VUndo and VRedo
abbrev pub line_delete_undo : LineDelete → Fbuf → Option (EditRec × Fbuf)
line_delete_undo d f = elim (insert_lines d.first d.n false f) [
  | none ↦ none
  | some g ↦
      if d.applied
      then some (
        delete (record d { saved = swap_out d g.lines; applied = false }),
        record g { lines = swap_into d g.lines; line_count = d.count },
      )
      else none
]

abbrev pub line_delete_redo : LineDelete → Fbuf → Option (EditRec × Fbuf)
line_delete_redo d f =
    let swapped = record f { lines = swap_into d f.lines } in
    elim (delete_lines d.first (d.first + d.n - 1) false swapped) [
      | none ↦ none
      | some g ↦
          if d.applied
          then none
          else some (
            delete (record d { saved = swap_out d f.lines; applied = true }),
            record g { line_count = d.count - d.n },
          )
    ]

-- VUndo: the record and the buffer afterwards
unfoldable pub v_undo : EditRec → Fbuf → Option (EditRec × Fbuf)
unfolding swap_content swap_into swap_out
v_undo (alt a) f = let (a', g) = swap_content a f in some (alt a', g)
v_undo (insert r) f = line_insert_undo r f
v_undo (delete d) f = line_delete_undo d f
v_undo (boundary b) f = some (boundary b, f)

-- VRedo
unfoldable pub v_redo : EditRec → Fbuf → Option (EditRec × Fbuf)
unfolding swap_content swap_into swap_out
v_redo (alt a) f = let (a', g) = swap_content a f in some (alt a', g)
v_redo (insert r) f = line_insert_redo r f
v_redo (delete d) f = line_delete_redo d f
v_redo (boundary b) f = some (boundary b, f)

-- Undo_EdOpUndo: the current record is undone, and the one before it is current. The result says
-- whether that is no boundary.
unfoldable pub undo_ed_op_undo : Fbuf → Option (Fbuf × Bool)
unfolding v_undo
undo_ed_op_undo f = elim f.past [
  | [] ↦ none
  | c ∷ [] ↦ none
  | c ∷ e ∷ es ↦ elim (v_undo c f) [
    | none ↦ none
    | some (c', g) ↦ some (record g { past = e ∷ es; future = c' ∷ f.future }, not (is_boundary e))
  ]
]

-- Undo_EdOpRedo: the current record is redone, and the one behind it is current.
unfoldable pub undo_ed_op_redo : Fbuf → Option (Fbuf × Bool)
unfolding v_redo
undo_ed_op_redo f = elim f.past [
  | [] ↦ none
  | c ∷ cs ↦ elim f.future [
    | [] ↦ none
    | n ∷ ns ↦ elim (v_redo c f) [
      | none ↦ none
      | some (c', g) ↦ some (record g { past = n ∷ c' ∷ cs; future = ns }, not (is_boundary n))
    ]
  ]
]

-- AnythingToUndoRedo
unfoldable pub anything_to_undo_redo : Bool → Fbuf → Bool
anything_to_undo_redo redo f = elim f.past [
  | [] ↦ false
  | c ∷ cs ↦
      let undoable : Bool = elim cs [ [] ↦ false | _ ∷ _ ↦ true ] in
      let redoable : Bool = elim f.future [ [] ↦ false | _ ∷ _ ↦ true ] in
      if redo then redoable else undoable
]

-- The loop of Undo_UserStep_UndoOrRedo, at most once for each record in the direction.
unfoldable pub step_loop : ℕ → Bool → Fbuf → Option Fbuf
unfolding undo_ed_op_undo undo_ed_op_redo
step_loop zero redo f = none
step_loop (suc k) redo f = elim (if redo then undo_ed_op_redo f else undo_ed_op_undo f) [
  | none ↦ none
  | some (g, more) ↦ let rest = step_loop k redo g in if more then rest else some g
]

-- EdOpBoundary::VUpdtFromBoundary: the file's status, and the position to which the current view is
-- scrolled, if it shows this buffer
unfoldable pub updt_from_boundary : Boundary → View → Fbuf → Fbuf × Option (Point × Point)
updt_from_boundary b v f = (
  record f { dirty = b.dirty || not (stat_eq f.last_stat b.stat) },
  if v.shows_fbuf then some (b.origin, b.cursor) else none,
)

-- SetUndoStateToBoundrec
unfoldable pub set_undo_state_to_boundrec : View → Fbuf → Option (Fbuf × Option (Point × Point))
unfolding updt_from_boundary
set_undo_state_to_boundrec v f = elim f.past [
  | [] ↦ none
  | c ∷ cs ↦ elim c [ boundary b ↦ some (updt_from_boundary b v f) | _ ↦ some (f, none) ]
]

-- Undo_UserStep_UndoOrRedo: the buffer, whether something was undone or redone, and the scrolling
unfoldable pub undo_user_step :
    ℕ → View → Bool → Fbuf → Option (Fbuf × Bool × Option (Point × Point))
unfolding anything_to_undo_redo step_loop set_undo_state_to_boundrec
undo_user_step max_undo v redo f =
    if anything_to_undo_redo redo f
    then elim (undo_ins_boundary max_undo v f) [
      | none ↦ none
      | some g ↦ elim (step_loop (length g.past + length g.future) redo g) [
        | none ↦ none
        | some h ↦ elim (set_undo_state_to_boundrec v h) [
          | none ↦ none
          | some (r, scroll) ↦ some (r, true, scroll)
        ]
      ]
    ]
    else some (f, false, none)
