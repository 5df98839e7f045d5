-- ===== src/Tests/Undoing.antt =====
-- Edits and undo (fbuf_edit.cpp, fbuf_undo.cpp) at a concrete buffer.
use k_edit.Prelude.{
  ℕ, ◌==◌, if◌then◌else◌, zero, suc, ◌+◌, ◌-◌, List, [], ◌∷◌, some, ◌≡◌, refl, true, false, ◌⊎◌,
  inl, arith,
}
use k_edit.Prelude.Int.{negsuc}
use k_edit.Tabs.{Text}
use k_edit.Buffer.{
  Fbuf, LineInfo, empty_line, put_content, Boundary, EditRec, alt, insert, boundary, is_boundary,
  Storage, move_array, clear_range, set_line, set_y_changed_min, fbuf_event, dirty_fbuf_and_display,
}
use k_edit.EditList.{
  View, add_new_edit_op, new_alt, record_and_put, undo_ins_edit_line, undo_ins_line_range_ins_hole,
  undo_ins_line_range_del, undo_ins_boundary, discard_undone,
}
use k_edit.EditList.Trim.{IsCounted, BoundaryAdded, undo_ins_boundary_adds}
use k_edit.Lines.{
  spcs_not_in_quotes, put_line_entab, peek_raw_line, insert_lines, insert_lines_body, delete_lines,
  delete_lines_body, open_hole, put_line_raw, line_info_reserve,
}
use k_edit.Lines.Doc.{doc, SameDoc, SameDoc-refl, inserted_at, deleted_at}
use k_edit.Undo.{undo_user_step}
use k_edit.Undo.Record.{Fits}
use k_edit.Undo.Entabbed.{IsSpared, put_line_entab-detab}
use k_edit.Tabs.Expand.Segment.{detab}
use k_edit.Tabs.Entab.{next_mode, skips_blanks}
use k_edit.Undo.Edits.{IsRecording, Edited, put_line, undo_ins_edit_line-Edited}
use k_edit.Undo.Ranges.{insert_lines-Edited, delete_lines-Edited}
use k_edit.Undo.Session.{Edit, put, ins, del, run, all_in_range}
use k_edit.Undo.Forward.{Redone}
use k_edit.Undo.Again.{undo_user_step-redo}
use k_edit.Undo.Whole.{Undone, undo_user_step-run}

abbrev start : Boundary
start = record {
  dirty = false;
  stat = record { modify_time = 0; filesize = 0 };
  origin = record { lin = 0; col = 0 };
  cursor = record { lin = 0; col = 0 };
}

abbrev line_of : ℕ → LineInfo
line_of zero = record { storage = Storage.borrowed; text = b'a' ∷ [] }
line_of (suc zero) = record { storage = Storage.borrowed; text = b'b' ∷ [] }
line_of (suc (suc i)) = empty_line

-- Two lines, room for a third, and nothing done yet
abbrev pub two_lines : Fbuf
two_lines = record {
  lines = line_of;
  capacity = 3;
  line_count = 2;
  dirty = false;
  no_edit = false;
  last_stat = record { modify_time = 0; filesize = 0 };
  y_changed_min = negsuc 0;
  revision = 0;
  events = [];
  undo_count = 0;
  past = boundary start ∷ [];
  future = [];
}

abbrev view : View
view = record {
  origin = record { lin = 0; col = 0 };
  cursor = record { lin = 1; col = 0 };
  shows_fbuf = true;
}

two_lines-IsCounted : IsCounted two_lines
two_lines-IsCounted = record { counted = refl; oldest = refl }

pub two_lines-IsRecording : IsRecording (doc two_lines) two_lines
two_lines-IsRecording = record {
  may_edit = refl;
  current = boundary start;
  older = [];
  past_lem = refl;
  settled = inl refl;
  counted = two_lines-IsCounted;
  restores = SameDoc-refl (doc two_lines);
}

-- Every kind of edit, with one line replaced twice and an insertion that needs a new array
abbrev edits : List Edit
edits = put 0 (b'x' ∷ []) ∷ put 0 (b'y' ∷ []) ∷ ins 1 4 ∷ put 2 (b'z' ∷ []) ∷ del 0 2 ∷ []

edits-in_range : all_in_range true edits two_lines ≡ true
unfolding put_line_raw line_info_reserve dirty_fbuf_and_display undo_ins_edit_line record_and_put
    new_alt add_new_edit_op discard_undone insert_lines insert_lines_body open_hole delete_lines
    delete_lines_body undo_ins_line_range_ins_hole undo_ins_line_range_del fbuf_event
    set_y_changed_min set_line put_content move_array clear_range
edits-in_range = refl

undo_user_step-run_example :
    (g : Fbuf) × (c : EditRec) × (cs : List EditRec) × (run true edits two_lines ≡ some g)
    × (g.past ≡ c ∷ cs)
    × (((is_boundary c ≡ true) × SameDoc (doc g) (doc two_lines))
        ⊎ Undone (doc two_lines) (doc g) (undo_user_step 5 view false g))
undo_user_step-run_example =
    undo_user_step-run 5 view true edits two_lines start [] (omega arith) refl refl (inl refl)
      two_lines-IsCounted edits-in_range

-- The buffer behind one replaced line
abbrev one_edit : Fbuf
one_edit = record two_lines {
  lines = set_line 0 (put_content (b'x' ∷ [])) line_of;
  past = alt (record { count = 2; line = 0; li = line_of 0 }) ∷ boundary start ∷ [];
}

one_edit-IsCounted : IsCounted one_edit
one_edit-IsCounted = record { counted = refl; oldest = refl }

undo_ins_boundary_adds_example :
    (g : Fbuf) × (undo_ins_boundary 5 view one_edit ≡ some g) × BoundaryAdded 5 view one_edit g
undo_ins_boundary_adds_example =
    undo_ins_boundary_adds 5 view one_edit (alt (record { count = 2; line = 0; li = line_of 0 }))
      (boundary start ∷ []) refl one_edit-IsCounted refl refl

-- Two lines behind an empty one was inserted between them
abbrev three_lines : Fbuf
three_lines = record two_lines {
  lines = λ i. if i == 0 then line_of 0 else if i == 1 then empty_line else line_of (i - 1);
  line_count = 3;
}

three_lines-Fits : Fits (insert (record { count = 2; first = 1; n = 1 })) (doc three_lines)
three_lines-Fits = (omega arith, omega arith, refl, λ i lo hi. ground arith)

undo_ins_edit_line-Edited_example :
    Edited
      (doc two_lines)
      (put_line 1 (b'c' ∷ []) (doc two_lines))
      (undo_ins_edit_line 1 (b'c' ∷ []) two_lines)
undo_ins_edit_line-Edited_example =
    undo_ins_edit_line-Edited (doc two_lines) 1 (b'c' ∷ []) two_lines two_lines-IsRecording
      (omega arith)

insert_lines-Edited_example :
    Edited (doc two_lines) (inserted_at 1 4 (doc two_lines)) (insert_lines 1 4 true two_lines)
insert_lines-Edited_example =
    insert_lines-Edited (doc two_lines) 1 4 two_lines two_lines-IsRecording (omega arith)
      (omega arith)

delete_lines-Edited_example :
    Edited
      (doc two_lines)
      (deleted_at 0 (0 - 0 + 1) (doc two_lines))
      (delete_lines 0 0 true two_lines)
delete_lines-Edited_example =
    delete_lines-Edited (doc two_lines) 0 0 two_lines two_lines-IsRecording (omega arith)
      (omega arith)

undo_user_step-redo_example :
    (g : Fbuf) × (run true edits two_lines ≡ some g)
    × (SameDoc (doc g) (doc two_lines)
        ⊎ ((u : Undone (doc two_lines) (doc g) (undo_user_step 5 view false g)) × Redone
              (doc g)
              (undo_user_step 5 view true u.buffer)))
undo_user_step-redo_example =
    undo_user_step-redo 5 view view true edits two_lines start [] (omega arith) refl refl (inl refl)
      two_lines-IsCounted edits-in_range

-- The insertion from before, undone
abbrev undone_insert : EditRec
undone_insert = insert (record { count = 2; first = 1; n = 1 })

-- A quoted blank, and blanks up to the next stop
abbrev quoted_blank : Text
quoted_blank = b'"' ∷ b' ' ∷ b'"' ∷ b' ' ∷ b' ' ∷ b'x' ∷ []

quoted_blank-IsSpared : IsSpared spcs_not_in_quotes quoted_blank
unfolding next_mode skips_blanks
quoted_blank-IsSpared = (refl, (refl, (refl, (refl, (refl, (refl, tt))))))

put_line_entab-detab_example :
    (g : Fbuf) × (put_line_entab true spcs_not_in_quotes 4 1 quoted_blank two_lines ≡ some g)
    × IsRecording (doc two_lines) g
    × (detab 4 0 (peek_raw_line g 1) ≡ detab 4 0 quoted_blank)
put_line_entab-detab_example =
    put_line_entab-detab (doc two_lines) spcs_not_in_quotes 4 1 quoted_blank two_lines
      two_lines-IsRecording (omega arith) (omega arith) quoted_blank-IsSpared
