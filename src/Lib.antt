-- ===== src/Lib.antt =====
-- A model of parts of the text editor K (k_edit), and the theorems about it.
--
-- The program. A buffer (class FBUF, ed_core.h) holds a file as an array of lines, each a string of
-- bytes in which tabs stand as they are. Editing commands replace, insert and delete lines through
-- PutLineRaw, InsertLines__ and DeleteLines__ (fbuf_edit.cpp). Each of them leaves an edit record in
-- the buffer's list (fbuf_undo.cpp); between two commands a boundary record is put there. Undo goes
-- back along the list to the boundary before, and redo goes forward. Views show a line by columns,
-- so the conversions between columns and indices, the expansion of tabs and the compression of
-- blanks into tabs (fbuf_edit.cpp, ed_core.h) stand between the text and every command.
--
-- A macro is a text of command names and quoted literals; the interpreter (macro.cpp) keeps a stack of
-- them and gives one command at a time. A file specification (fname_gen.cpp) is a list of entries with
-- references to the environment; a generator expands them and gives the files that match. Keys come from
-- the terminal as control sequences (kitty_conin.cpp). Intrusive lists (dlink.h) hold views and windows.
--
-- The files.
--   Prelude: names passed on, Boolean tests, lists and integers.
--   Tabs: class Tabber. Tabs/Column: ColOfFreeIdx, FreeIdxOfCol, and ed_core.h's functions and the
--     class IdxCol_cached (in Column/Cache) on them. Tabs/Expand: PrettifyWriter and
--     FormatExpandedSeg. Tabs/Entab: spcs2tabs_leading, spcs2tabs_all, spcs2tabs_outside_quotes. A
--     line is a list of bytes; an iterator is the rest of the line with the position it stands at.
--   Buffer: the record Fbuf for class FBUF, LineInfo, the edit records, FBufEvent_LineInsDel. The
--     array d_paLineInfo is a function from line numbers. The list of edit records, whose nodes the
--     source links both ways, is two lists: `past` from d_pCurrentEdit to d_pOldestEdit, and `future`
--     from behind d_pCurrentEdit to d_pNewestEdit.
--   EditList: Undo_AddNewEditOpToListHead, UndoInsBoundary, UndoIns_EditLine and the other writers
--     of the list. EditList/Count, EditList/Trim: their effect on the list and on d_UndoCount.
--   Lines: LineInfoReserve, InsertLines__, DeleteLines__, PutLineRaw, PutLineEntab. Lines/Doc: the
--     document that the array stands for.
--   Segments: PeekRawLineSeg, DupLineForInsert, PutLineSeg, CopyLines, CopyBox, CopyStream. A string
--     that is changed in place is a text in a new one. Segments/Insert, Put, Copied and Streams are
--     about DupLineForInsert, PutLineSeg, CopyLines and CopyStream. Segments/Removed: DelBox, DelStream.
--   Undo: VUndo and VRedo of each record, Undo_UserStep_UndoOrRedo. Undo/Record and Redo are about one
--     record, Step and Forward about the loops, Edits, Entabbed, Ranges and Session about edits, Whole
--     and Again about the undo and the redo of a whole session.
--   Marks: the lists of named points (mark.cpp). Marks/Named: defining and finding them. Marks/Shift:
--     their adjustment for inserted lines.
--   Strings: copies into buffers of fixed size (my_strutils.cpp). Strings/Copies: what they leave.
--   Strings/Searches: ToNextOrEnd, and the parts of a text between delimiters. Strings/Numbers: conv_u;
--     Strings/Numbers/Digits and Spelled: its value of digits, and of a number as it is written.
--   Cfx: file specifications (fname_gen.cpp): CFX_to_SSG and StrSubstituterGenerator.
--     Cfx/Combinations: the order in which GetNextString gives all combinations. Cfx/References: the
--     references that CFX_to_SSG finds. Cfx/Spelled and Values: what a text of references stands for.
--     Cfx/Entries: ChopAscizzOnDelim. Cfx/Names: CfxFilenameGenerator, whose `goto`s are rounds of one
--     loop.
--   Macro: the class MacroRuntimeStkEntry of the interpreter (macro.cpp). Macro/Tokens, Literals and
--     Branches are about GetNextToken, quoted text, and BranchToLabel. Macro/Run: the stack of macros
--     and CmdFromCurMacro, as a list with the innermost macro first. Macro/Run/Stack and Program are
--     about its depth, and about a macro as a program of words.
--   Links: the macros of dlink.h on a store of entries. Links/Rings: lists as rings through the head.
--     Links/Changes, Inserts, Removals, Joined: what one macro does. Links/Runs: sequences of them.
--   Kitty: the decoder of key events (kitty_conin.cpp). Kitty/Codes: the codes of keys (ed_edkc.h).
--     Kitty/Variants, Ascii, Keys: the tables. Kitty/Events: control sequences and KittyGetEvent.
--     Kitty/Reads, Letters, Ranges, Bounds: what is decoded, and the range of the codes.
--   Paths: names of files (filename.cpp), as compiled for POSIX. Paths/Parts: directory, name and
--     extension. Paths/Unions: Path::Union. Paths/Prefixes: the directories that two names share.
--   Views: the place of a window and its cursor in the buffer (cursor.cpp; ScrollOriginAndCursor_ of
--     display.cpp), over signed integers. Views/Places, Windows and Moves are about MoveCursor_.
--     Views/Commands: the commands that move the cursor; Views/Paragraphs: ppara and mpara.
--     Views/Motions: sequences of commands. Views/Saved: SaveCur and RestCur.
--   Windows: splitting and merging of windows (wnd.cpp). Windows/Merges: that they fit together.
--   Options: class Getopt (getopt.cpp) and the loop of main over the command line. Options/Items: the
--     elements of a command line. Options/Events: what the loop gets from them.
--   Tests: runs at concrete inputs.
--
-- Bounds and fuel. Numbers that the source keeps in an `int` and never makes negative are natural
-- numbers; overflow of a line or column number past 2^31 is not modelled. The numbers in a control
-- sequence wrap around at 2^32. Three loops run on fuel: `discard_undone` and `trim` get the length of
-- the list that they shorten in each round, and `step_loop` the length of both lists, one of which gets
-- shorter in each round. The loops of CFX_to_SSG, of BranchToLabel and over prompt directives take a byte
-- in each round, and get the length of the text. VGetNextName, CmdFromCurMacro and the loop of main take
-- their fuel as an argument, as the second may go on for ever: the theorems name the fuel that is enough.
-- `fill_tab` counts the columns that are left to its target. `none` as a result is a null dereference or
-- a failed assertion of the source, an error that ends the program (main), or the lack of fuel.
--
-- Not modelled: redrawing; what an insertion or a deletion tells views and marks (the event is only
-- logged in the buffer), and the marks in copies; who owns the bytes of a line; the mode of a file in
-- FileStat; messages and dialogs; a user break in VGetNextName; files, search, the Lua interface and all
-- consoles, which are input and output or bindings. Parameters are the environment (getenv), the files
-- that match a wildcard (glob), the entries of a list of file specifications, the backends of the build,
-- the table of commands, and a request to halt a macro.
pub mod Paths
pub mod Prelude
pub mod Tabs
pub mod Buffer
pub mod EditList
pub mod Lines
pub mod Kitty
pub mod Links
pub mod Undo
pub mod Views
pub mod Windows
pub mod Marks
pub mod Options
pub mod Strings
pub mod Cfx
pub mod Macro
pub mod Segments
pub mod Tests
