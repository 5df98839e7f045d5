-- ===== src/Tests/Parts.antt =====
-- Copies between buffers, and changes of parts of lines, at concrete lines.
use k_edit.Prelude.{
  false, ℕ, ◌+◌, ◌-◌, ◌≤◌, ◌<◌, ◌==◌, if◌then◌else◌, true, [], none, some, ◌≡◌, refl, arith,
  text_of, take, drop, ◌++◌,
}
use k_edit.Tabs.Expand.Segment.{detab}
use k_edit.Buffer.{Fbuf, put_content}
use k_edit.Lines.{peek_raw_line, no_conv, entabbed, put_line_entab}
use k_edit.Lines.Doc.{doc}
use k_edit.Undo.Edits.{IsRecording}
use k_edit.Segments.{other, put_line_seg, copy_lines, copy_stream}
use k_edit.Segments.Insert.{padded}
use k_edit.Segments.Put.{fitted, put_line_seg-fitted}
use k_edit.Segments.Removed.{del_box, without, del_box-without}
use k_edit.Segments.Copied.{copy_lines-entabbed}
use k_edit.Segments.Streams.{copy_stream_fails}
use k_edit.Tests.Undoing.{two_lines, two_lines-IsRecording}

-- Three lines, the second of them empty
abbrev three_lines : Fbuf
three_lines = record two_lines {
  line_count = 3;
  lines = λ i. if i == 1 then put_content [] else put_content (text_of "abc");
}

put_line_seg-fitted_example :
    put_line_seg true no_conv 80 8 1 (text_of "xy") 5 7 true two_lines
    ≡ put_line_entab true no_conv 8 1
        (take 5 (padded 5 (detab 8 0 (peek_raw_line two_lines 1)))
          ++ (fitted 3 (text_of "xy") ++ drop 5 (padded 5 (detab 8 0 (peek_raw_line two_lines 1)))))
        two_lines
put_line_seg-fitted_example =
    put_line_seg-fitted true no_conv 80 8 1 5 7 (text_of "xy") two_lines (omega arith) (omega arith)
      (omega arith) (omega arith)

copy_lines-entabbed_example :
    (g : Fbuf) × (copy_lines true no_conv 80 8 1 (other 8 three_lines) 0 2 two_lines ≡ some g)
    × IsRecording (doc two_lines) g
    × (g.line_count ≡ two_lines.line_count + (2 - 0 + 1))
    × ((i : ℕ)
        → i < 2 - 0 + 1
        → peek_raw_line g (1 + i) ≡ entabbed no_conv 8 (peek_raw_line three_lines (0 + i)))
    × ((i : ℕ) → i < 1 → peek_raw_line g i ≡ peek_raw_line two_lines i)
    × ((i : ℕ) → 1 ≤ i → peek_raw_line g (i + (2 - 0 + 1)) ≡ peek_raw_line two_lines i)
copy_lines-entabbed_example =
    copy_lines-entabbed (doc two_lines) no_conv 80 8 8 1 0 2 three_lines two_lines
      two_lines-IsRecording (omega arith) (omega arith)

copy_stream_fails_example :
    copy_stream true no_conv 80 8 0 0 (other 8 three_lines) 0 1 1 2 two_lines ≡ none
unfolding put_content
copy_stream_fails_example =
    copy_stream_fails true no_conv 80 8 0 0 8 1 1 2 three_lines two_lines (omega arith) refl
      (omega arith)

-- The columns 1 to 2 of a line
del_box-without_example :
    del_box true no_conv 80 8 1 0 2 0 false three_lines
    ≡ put_line_entab true no_conv 8 0
        (without 1 2 false (detab 8 0 (peek_raw_line three_lines 0)))
        three_lines
unfolding put_content
del_box-without_example =
    del_box-without true no_conv 80 8 0 1 2 false three_lines (omega arith) (omega arith)
      (omega arith)
