-- ===== src/EditList.antt =====
-- The list of edit records of an FBUF (fbuf_undo.cpp): adding records, dropping the undone ones,
-- boundaries, and the bound on their number. `none` is a null dereference or a use of a freed record.
pub mod Count
pub mod Trim
use k_edit.Prelude.{
  ℕ, zero, suc, ◌+◌, ◌-◌, ltb, leb, ◌==◌, ◌&&◌, ◌||◌, not, if◌then◌else◌, Bool, true, false, List,
  [], ◌∷◌, length, Option, none, some,
}
use k_edit.Tabs.{Text}
use k_edit.Buffer.{
  LineInfo, empty_line, put_content, Point, AltLine, LineInsert, LineDelete, Boundary, EditRec, alt,
  insert, delete, boundary, is_boundary, Fbuf, set_line, set_y_changed_min,
}

-- The current view, as `g_CurView()` shows it to the buffer.
pub record View : Type 0 where
  pub origin : Point
  pub cursor : Point
  pub shows_fbuf : Bool

-- A list without its last element, and that element.
abbrev pub split_last {ℓ} : {A : Type ℓ} → List A → Option (List A × A)
split_last [] = none
split_last (x ∷ xs) = elim (split_last xs) [ none ↦ some ([], x) | some (i, l) ↦ some (x ∷ i, l) ]

-- Undo_RmvOneEdOp_fNextIsBoundary( true ): the newest record goes. It is never the current one.
unfoldable pub rmv_newest : Fbuf → Option (Fbuf × Bool)
rmv_newest f = elim (split_last f.future) [
  | none ↦ none
  | some (rest, e) ↦ elim (split_last rest) [
    | some (_, next) ↦ some (record f { future = rest }, is_boundary next)
    | none ↦ elim f.past [
      | [] ↦ none
      | current ∷ _ ↦ some (record f { future = rest }, is_boundary current)
    ]
  ]
]

-- Undo_RmvOneEdOp_fNextIsBoundary( false ): the oldest record goes. If it is the only one up to the
-- current record, the next is missing or the current record is freed.
unfoldable pub rmv_oldest : Fbuf → Option (Fbuf × Bool)
rmv_oldest f = elim (split_last f.past) [
  | none ↦ none
  | some (rest, e) ↦ elim (split_last rest) [
    | none ↦ none
    | some (_, next) ↦ some (record f { past = rest }, is_boundary next)
  ]
]

-- `--d_UndoCount` if the newest record is a boundary
drop_count : Fbuf → Fbuf
drop_count f = elim (split_last f.future) [
  | none ↦ f
  | some (_, e) ↦ if is_boundary e then record f { undo_count = f.undo_count - 1 } else f
]

-- The loop of Undo_AddNewEditOpToListHead, once for each undone record.
unfoldable pub discard_undone : ℕ → Fbuf → Option Fbuf
unfolding drop_count rmv_newest
discard_undone zero f = some f
discard_undone (suc k) f = elim (split_last f.future) [
  | none ↦ some f
  | some _ ↦ elim (rmv_newest (drop_count f)) [ none ↦ none | some (g, _) ↦ discard_undone k g ]
]

-- Undo_AddNewEditOpToListHead; with no list yet `d_pNewestEdit` is null.
unfoldable pub add_new_edit_op : EditRec → Fbuf → Option Fbuf
unfolding discard_undone
add_new_edit_op e f = elim (discard_undone (length f.future) f) [
  | none ↦ none
  | some g ↦ elim g.past [ [] ↦ none | c ∷ cs ↦ some (record g { past = e ∷ c ∷ cs }) ]
]

-- Undo_Init, by the constructor of the first EditRec. The origin and the cursor are (0,0), and the
-- file's status is the default one.
unfoldable pub undo_init : Fbuf → Fbuf
undo_init f = record f {
  undo_count = 0;
  past =
      boundary (record {
        dirty = f.dirty;
        stat = record { modify_time = 0; filesize = 0 };
        origin = record { lin = 0; col = 0 };
        cursor = record { lin = 0; col = 0 };
      })
      ∷ [];
  future = [];
}

-- Undo_DeleteAll
unfoldable pub undo_delete_all : Fbuf → Fbuf
undo_delete_all f = record f { undo_count = 0; past = []; future = [] }

-- Undo_Reinit
unfoldable pub undo_reinit : Fbuf → Fbuf
unfolding undo_init undo_delete_all
undo_reinit f = undo_init (undo_delete_all f)

-- EdOpBoundary::VUpdtBoundary
unfoldable pub updt_boundary : View → Fbuf → Boundary
updt_boundary v f = record {
  dirty = f.dirty;
  stat = f.last_stat;
  origin = v.origin;
  cursor = v.cursor;
}

-- The loop that bounds the number of boundaries. It runs as often as there are records, at most.
pub trim : ℕ → ℕ → Fbuf → Option Fbuf
unfolding rmv_oldest
trim zero max_undo f = if ltb max_undo f.undo_count then none else some f
trim (suc k) max_undo f =
    let more : Option Fbuf = elim (rmv_oldest f) [
      | none ↦ none
      | some (g, next_is_boundary) ↦
          trim k max_undo
            (if next_is_boundary then record g { undo_count = g.undo_count - 1 } else g)
    ] in
    if ltb max_undo f.undo_count then more else some f

-- UndoInsBoundary, with the switch `maxundo` (a number that is not negative)
unfoldable pub undo_ins_boundary : ℕ → View → Fbuf → Option Fbuf
unfolding add_new_edit_op trim updt_boundary
undo_ins_boundary max_undo v f = if f.no_edit then some f else elim f.past [
  | [] ↦ none
  | c ∷ cs ↦
      if is_boundary c
      then some (record f { past = boundary (updt_boundary v f) ∷ cs })
      else elim (add_new_edit_op (boundary (updt_boundary v f)) f) [
        | none ↦ none
        | some g ↦ trim (length g.past) max_undo (record g { undo_count = g.undo_count + 1 })
      ]
]

-- The record that `VIsAltContentOfLine` is asked of: `d_pNewestEdit`.
abbrev pub newest : Fbuf → Option EditRec
newest f = elim (split_last f.future) [
  | some (_, e) ↦ some e
  | none ↦ elim f.past [ [] ↦ none | c ∷ _ ↦ some c ]
]

abbrev pub is_alt_content_of_line : ℕ → EditRec → Bool
is_alt_content_of_line y (alt a) = a.line == y
is_alt_content_of_line y _ = false

-- The constructor of EdOpAltLineContent, which moves the line's content into the record.
unfoldable pub new_alt : ℕ → Fbuf → Option Fbuf
unfolding add_new_edit_op set_line
new_alt y f =
    add_new_edit_op (alt (record { count = f.line_count; line = y; li = f.lines y }))
      (record f { lines = set_line y empty_line f.lines })

-- UndoIns_EditLine where the list is there: a record of the line, unless the newest one has it, and
-- the new content
unfoldable pub record_and_put : ℕ → Text → Fbuf → Option Fbuf
unfolding new_alt set_y_changed_min
record_and_put y content g =
    let coalesce : Bool = elim (newest g) [ none ↦ false | some e ↦ is_alt_content_of_line y e ] in
    let made : Option Fbuf = if coalesce then some g else new_alt y g in
    elim made [
      | none ↦ none
      | some h ↦
          some (set_y_changed_min y (record h { lines = set_line y (put_content content) h.lines }))
    ]

-- UndoIns_EditLine
unfoldable pub undo_ins_edit_line : ℕ → Text → Fbuf → Option Fbuf
unfolding record_and_put undo_init
undo_ins_edit_line y content f =
    if f.no_edit
    then some f
    else record_and_put y content (elim (newest f) [ none ↦ undo_init f | some _ ↦ f ])

-- UndoIns_LineRangeInsHole
unfoldable pub undo_ins_line_range_ins_hole : ℕ → ℕ → Fbuf → Option Fbuf
unfolding add_new_edit_op
undo_ins_line_range_ins_hole first n f =
    if f.no_edit
    then some f
    else add_new_edit_op (insert (record { count = f.line_count; first = first; n = n })) f

-- UndoIns_LineRangeDel; the constructor copies the lines with `DupArray`.
unfoldable pub undo_ins_line_range_del : ℕ → ℕ → Fbuf → Option Fbuf
unfolding add_new_edit_op
undo_ins_line_range_del first last f =
    if f.no_edit
    then some f
    else add_new_edit_op
        (delete (record {
          count = f.line_count;
          first = first;
          n = last - first + 1;
          saved = λ i. f.lines (first + i);
          applied = true;
        }))
        f
