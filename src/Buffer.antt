-- ===== src/Buffer.antt =====
-- The state of class FBUF that edits and their undo touch (ed_core.h), and its low-level operations on
-- the array of lines. The array `d_paLineInfo` is a function from the line number; only the numbers
-- below the capacity mean anything. Marks and views hear of an insertion or a deletion by an event.
use k_edit.Prelude.{
  ℕ, ◌+◌, ◌-◌, ltb, leb, ◌==◌, ◌&&◌, if◌then◌else◌, Bool, true, false, List, [], ◌∷◌,
}
use k_edit.Prelude.Int.{ℤ, pos, ltb_ℤ}
use k_edit.Tabs.{Text}

pub data Storage : Type 0 where
  empty borrowed owned : Storage

-- class LineInfo: where the text lives, and the text
pub record LineInfo : Type 0 where
  pub storage : Storage
  pub text : Text

abbrev pub empty_line : LineInfo
empty_line = record { storage = Storage.empty; text = [] }

-- `LineInfo::PutContent`
unfoldable pub put_content : Text → LineInfo
put_content [] = empty_line
put_content (c ∷ s) = record { storage = Storage.owned; text = c ∷ s }

pub record Point : Type 0 where
  pub lin : ℕ
  pub col : ℕ

-- The two fields that `operator==` compares.
pub record FileStat : Type 0 where
  pub modify_time : ℕ
  pub filesize : ℕ

abbrev pub stat_eq : FileStat → FileStat → Bool
stat_eq a b = a.modify_time == b.modify_time && a.filesize == b.filesize

-- The subclasses of EditRec, with their fields. The saved lines of a deletion are an array.
pub record AltLine : Type 0 where
  pub count : ℕ
  pub line : ℕ
  pub li : LineInfo

pub record LineInsert : Type 0 where
  pub count : ℕ
  pub first : ℕ
  pub n : ℕ

pub record LineDelete : Type 0 where
  pub count : ℕ
  pub first : ℕ
  pub n : ℕ
  pub saved : ℕ → LineInfo
  pub applied : Bool

pub record Boundary : Type 0 where
  pub dirty : Bool
  pub stat : FileStat
  pub origin : Point
  pub cursor : Point

pub data EditRec : Type 0 where
  alt : AltLine → EditRec
  insert : LineInsert → EditRec
  delete : LineDelete → EditRec
  boundary : Boundary → EditRec

-- `VIsBoundary`
abbrev pub is_boundary : EditRec → Bool
is_boundary (boundary b) = true
is_boundary _ = false

-- What `FBufEvent_LineInsDel` tells the views and the marks.
pub data LineEvent : Type 0 where
  changed : ℕ → LineEvent
  inserted : ℕ → ℕ → LineEvent
  deleted : ℕ → ℕ → LineEvent

-- The list of edit records is cut at `d_pCurrentEdit`: `past` goes from there along `d_pUndo` to
-- `d_pOldestEdit`, and `future` from the record behind it along `d_pRedo` to `d_pNewestEdit`.
pub record Fbuf : Type 0 where
  pub lines : ℕ → LineInfo
  pub capacity : ℕ
  pub line_count : ℕ
  pub dirty : Bool
  pub no_edit : Bool
  pub last_stat : FileStat
  pub y_changed_min : ℤ
  pub revision : ℕ
  pub events : List LineEvent
  pub undo_count : ℕ
  pub past : List EditRec
  pub future : List EditRec

-- MoveArray( lines + dst, lines + src, n )
unfoldable pub move_array : ℕ → ℕ → ℕ → (ℕ → LineInfo) → ℕ → LineInfo
move_array dst src n a i = if leb dst i && ltb i (dst + n) then a (i - dst + src) else a i

-- LineInfoClearRange
unfoldable pub clear_range : ℕ → ℕ → (ℕ → LineInfo) → ℕ → LineInfo
clear_range y n a i = if leb y i && ltb i (y + n) then empty_line else a i

-- one element of the array
unfoldable pub set_line : ℕ → LineInfo → (ℕ → LineInfo) → ℕ → LineInfo
set_line y li a i = if i == y then li else a i

-- Set_yChangedMin
unfoldable pub set_y_changed_min : ℕ → Fbuf → Fbuf
set_y_changed_min y f = record f {
  y_changed_min = if ltb_ℤ f.y_changed_min (pos y) then f.y_changed_min else pos y;
  revision = f.revision + 1;
}

abbrev pub event_line : LineEvent → ℕ
event_line (changed y) = y
event_line (inserted y n) = y
event_line (deleted y n) = y

-- FBufEvent_LineInsDel
unfoldable pub fbuf_event : LineEvent → Fbuf → Fbuf
unfolding set_y_changed_min
fbuf_event e f = let g = set_y_changed_min (event_line e) f in record g { events = e ∷ g.events }

-- DirtyFBufAndDisplay
unfoldable pub dirty_fbuf_and_display : Fbuf → Fbuf
dirty_fbuf_and_display f = if f.dirty then f else record f { dirty = true }
