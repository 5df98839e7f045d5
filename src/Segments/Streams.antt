-- ===== src/Segments/Streams.antt =====
-- CopyStream (fbuf_edit.cpp) of a stream whose first line is empty.
use k_edit.Prelude.{
  ℕ, ◌+◌, ◌-◌, ◌<◌, ltb, ◌==◌, Bool, false, [], ◌++◌, take, drop, Option, none, Option-cases, ◌≡◌,
  ap, ◌∙◌, inl, inr, arith,
}
use k_edit.Tabs.{Text}
use k_edit.Tabs.Expand.Segment.{detab}
use k_edit.Tabs.Column.{free_idx_of_col}
use k_edit.Tabs.Column.Tabless.{captive_idx_of_col_empty}
use k_edit.Buffer.{Fbuf}
use k_edit.Lines.{peek_raw_line, EntabMode, put_line_entab}
use k_edit.Segments.{
  other, copy_stream, copy_lines, stream_head, stream_tail, finish_stream, dup_line_for_insert,
}
use k_edit.Segments.Insert.{dup_line_for_insert-opened, opened}

module _ (keep_trail : Bool) (mode : EntabMode) (col_max twd : ℕ) where
  stream_head_empty :
      (tws y : ℕ) (src : Fbuf) (head : Text)
      → 0 < tws
      → peek_raw_line src y ≡ []
      → stream_head keep_trail mode col_max twd (other tws src) 0 y head ≡ none
  stream_head_empty tws y src head p empty =
      let nothing : dup_line_for_insert col_max tws y 0 0 src ≡ [] =
        dup_line_for_insert-opened col_max tws y 0 0 src p (rw empty (omega arith))
        ∙ ap (λ l. opened 0 0 (detab tws 0 l)) empty in
      rw (stream_head, nothing, captive_idx_of_col_empty)

  finish_stream-none :
      (last : Text) (y_last y_dst : ℕ) (g : Fbuf)
      → finish_stream keep_trail mode col_max twd last y_last none y_dst g ≡ none
  finish_stream-none last y_last y_dst g =
      elim (Option-cases (put_line_entab keep_trail mode twd y_last last g)) [
        | inl failed ↦ rw (finish_stream, failed)
        | inr (h, put) ↦ rw (finish_stream, put)
      ]

  -- From column 0 of an empty line of another buffer with a positive tab width, CopyStream of text
  -- that goes on behind that line always fails: it reads the line from an index that is not there.
  pub copy_stream_fails :
      (x_dst y_dst tws y_start x_end y_end : ℕ) (src dst : Fbuf)
      → 0 < tws
      → peek_raw_line src y_start ≡ []
      → y_start < y_end
      → copy_stream keep_trail mode col_max twd x_dst y_dst
          (other tws src)
          0
          y_start
          x_end
          y_end
          dst
        ≡ none
  unfolding copy_stream
  copy_stream_fails x_dst y_dst tws y_start x_end y_end src dst p empty lt =
      let in_order : ltb y_end y_start ≡ false = ground (arith, lt) in
      let apart : (y_start == y_end) ≡ false = ground (arith, lt) in
      elim (Option-cases (
        copy_lines keep_trail mode col_max twd (y_dst + 1) (other tws src) (y_start + 1) y_end
          dst)) [
            | inl failed ↦ rw (in_order, apart, failed)
            | inr (g, copied) ↦
                let destbuf = dup_line_for_insert col_max twd y_dst x_dst 0 g in
                let ix_dst = free_idx_of_col twd destbuf x_dst in
                let (srcbuf, ix_end) =
                  stream_tail keep_trail mode col_max twd (other tws src) x_end y_end in
                let last = take ix_end srcbuf ++ drop ix_dst destbuf in
                let first = stream_head_empty tws y_start src (take ix_dst destbuf) p empty in
                rw (in_order, apart, copied)
                  (ap
                      (λ (h : Option Text).
                        finish_stream keep_trail mode col_max twd last (y_dst + (y_end - y_start)) h
                          y_dst g)
                      first
                    ∙ finish_stream-none last (y_dst + (y_end - y_start)) y_dst g)
          ]
