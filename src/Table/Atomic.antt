-- ===== src/Table/Atomic.antt =====
-- A load takes effect as a whole or not at all.
use mathlib.Core.Path.{subst}
use postgres_vectorization_t.Compression.External.{Libraries}
use postgres_vectorization_t.Metadata.Messages.{Protobuf}
use postgres_vectorization_t.Prelude.{
  Bool, Bytes, List, Option, [], ap, arith, inl, inr, length, length-take, none, refl, some, take,
  uint32, ℕ, ◌∙◌, ◌≡◌, ◌≤◌, ◌⊎◌,
}
use postgres_vectorization_t.Report.{Error, Result, err, ok}
use postgres_vectorization_t.Table.Begin.{CanStat, begin_write-Ends}
use postgres_vectorization_t.Table.Ends.{After-cases, Ends, bind-Ends, error-Ends, weaken-Ends}
use postgres_vectorization_t.Table.Finish.{footer_bytes, rename_footer-Ends, write_footer-Ends}
use postgres_vectorization_t.Table.Growing.{IsUntouched-old}
use postgres_vectorization_t.Table.Guarded.{IsGuarded, IsGuarded-stable, IsUntouched}
use postgres_vectorization_t.Table.Io.{
  World, call_succeeds, next_outcome, sync_and_close_file, ◌>>◌,
}
use postgres_vectorization_t.Table.Keeps.{sync_and_close_file-Keeps}
use postgres_vectorization_t.Table.Listed.{HasFlushed, HasFlushed-end}
use postgres_vectorization_t.Table.ReadFooter.{cstore_read_footer}
use postgres_vectorization_t.Table.Steps.{
  SafeState, Spoilt, flush_and_append-Ends, kept_call, write_rows-Ends,
}
use postgres_vectorization_t.Table.Write.{
  TableWriteState, cstore_begin_write, cstore_end_write, end_of_stripes, flush_rest, rename_footer,
  write_rows, write_table,
}
use postgres_vectorization_t.Table.WriteFooter.{cstore_write_footer}
use postgres_vectorization_t.Tupmacs.{Tupmacs}
use postgres_vectorization_t.Types.{Attribute, CompressionType, StripeData, TableFooter}

module _ (T : Tupmacs) (protobuf : Protobuf) (L : Libraries) (compression_type : CompressionType)
    (stripe_max_row_count : ℕ) (attrs : List Attribute) where
  open T use {Datum}

  -- The footer file has the new footer, which lists behind the old stripes exactly those of the
  -- rows, and the table file starts with the old bytes and the buffers of the new stripes.
  pub record IsCommitted (start : TableFooter) (old : Bytes) (rows : List (List Datum × List Bool))
      (w : World) : Type 0 where
    pub now : TableFooter
    pub bytes : Bytes
    pub listed :
        HasFlushed T protobuf L compression_type stripe_max_row_count attrs start old rows bytes now
    pub footer_file : w.footer_file ≡ some (footer_bytes protobuf now)
    pub table_starts : take (length bytes) w.table_file ≡ bytes
    pub old_kept : take (length old) w.table_file ≡ old

  module _ (n : ℕ) (old : Bytes) (footer : Option Bytes) (start : TableFooter)
      (total : length old ≡ n) (rows : List (List Datum × List Bool)) where
    abbrev Flushed : TableWriteState T → World → Type 0
    Flushed state w =
        SafeState n old footer T protobuf L compression_type stripe_max_row_count attrs start total
          rows state w
        × (state.stripe_data ≡ none)

    abbrev Done : World → Type 0
    Done w = IsCommitted start old rows w

    flush_rest-Ends :
        (state : TableWriteState T) (stripe_data : Option (StripeData Datum))
        → state.stripe_data ≡ stripe_data
        → Ends
            (SafeState n old footer T protobuf L compression_type stripe_max_row_count attrs start
              total rows state)
            Flushed
            (Spoilt n old footer)
            (flush_rest T protobuf L state stripe_data)
    flush_rest-Ends state none same = record { after = λ w h. (h, same) }
    flush_rest-Ends state (some stripe_data) same =
        flush_and_append-Ends n old footer T protobuf L compression_type stripe_max_row_count attrs
          start total rows state

    -- The footer file that is put in place lists the rows, and the table file stays.
    put_in_place :
        (bytes : Bytes) (f : TableFooter)
        → ((w : World)
            → IsUntouched (length bytes) bytes (some (footer_bytes protobuf f)) w
            → Done w)
        → Ends
            (IsGuarded (length bytes) bytes footer)
            (λ _. Done)
            (IsUntouched (length bytes) bytes footer)
            (sync_and_close_file >> (cstore_write_footer protobuf f >> rename_footer))
    put_in_place bytes f done =
        let size = length bytes in
        bind-Ends sync_and_close_file _
          (kept_call size bytes footer _
            (sync_and_close_file-Keeps (IsGuarded-stable size bytes footer)))
          (λ _.
            bind-Ends (cstore_write_footer protobuf f) _
              (write_footer-Ends size bytes footer protobuf f)
              (λ _.
                weaken-Ends rename_footer
                  (rename_footer-Ends size bytes footer (footer_bytes protobuf f)) (λ _. done)))

    pub end_write-Ends :
        (state : TableWriteState T)
        → Ends
            (SafeState n old footer T protobuf L compression_type stripe_max_row_count attrs start
              total rows state)
            (λ _. Done)
            (Spoilt n old footer)
            (cstore_end_write T protobuf L state)
    unfolding cstore_end_write
    end_write-Ends state =
        bind-Ends (flush_rest T protobuf L state state.stripe_data) _
          (flush_rest-Ends state state.stripe_data refl)
          (λ flushed. record {
            after = λ w ((bytes, h, k), empty).
                let listed =
                  HasFlushed-end T protobuf L compression_type stripe_max_row_count attrs start old
                    rows bytes flushed h empty in
                (error-Ends
                    (sync_and_close_file
                      >> (cstore_write_footer protobuf flushed.table_footer >> rename_footer))
                    (put_in_place bytes flushed.table_footer (λ w' j. record {
                      now = flushed.table_footer;
                      bytes = bytes;
                      listed = listed;
                      footer_file = j.same_footer;
                      table_starts = j.same_bytes;
                      old_kept =
                          ap (λ m. take m w'.table_file) total
                          ∙ (IsUntouched-old n old k.rest bytes _ w' total k.extends j).same_bytes;
                    }))
                    (λ w'. IsUntouched-old n old k.rest bytes footer w' total k.extends)).after
                  w (record { behind = omega (arith, k.at); untouched = k.untouched });
          })

module _ (T : Tupmacs) (protobuf : Protobuf) (L : Libraries) (compression_type : CompressionType)
    (stripe_max_row_count block_row_count : ℕ) (attrs : List Attribute)
    (rows : List (List T.Datum × List Bool)) where
  write_table-Ends :
      (n : ℕ) (old b : Bytes) (start : TableFooter)
      → length old ≡ n
      → cstore_read_footer protobuf b ≡ ok start
      → n ≡ end_of_stripes start.stripe_metadata_list
      → Ends
          (λ w. IsUntouched n old (some b) w × CanStat n old b w)
          (λ _.
            IsCommitted T protobuf L compression_type
              (uint32 stripe_max_row_count)
              attrs
              start
              old
              rows)
          (Spoilt n old (some b))
          (write_table T protobuf L compression_type stripe_max_row_count block_row_count attrs
            rows)
  unfolding write_table
  write_table-Ends n old b start total read e =
      let maximum = uint32 stripe_max_row_count in
      bind-Ends
        (cstore_begin_write T protobuf compression_type stripe_max_row_count block_row_count attrs)
        _
        (begin_write-Ends n old b protobuf start T L compression_type stripe_max_row_count
          block_row_count attrs total read e)
        (λ state.
          bind-Ends (write_rows T protobuf L state rows) (cstore_end_write T protobuf L)
            (write_rows-Ends n old (some b) T protobuf L compression_type maximum attrs start total
              [] state rows)
            (end_write-Ends T protobuf L compression_type maximum attrs n old (some b) start total
              rows))

  -- For a table with a footer file that can be read, a table file that is at least as long as the
  -- footer's stripes, and a call of `stat` that does not fail: however the other calls of the
  -- operating system end, after the whole load the bytes of the old stripes are the same, and it
  -- ended in one of two ways. Either it ended with a value; then the rows, in their order, are
  -- those of a sequence of stripes, each of at least one row, whose buffers follow one another in
  -- the table file behind the old stripes, and the footer file is that of the old footer with the
  -- metadata of exactly these stripes behind, at the offsets that follow from one another. Or it
  -- ended by a report, and the footer file is the old one.
  pub write_table_atomic :
      (w : World) (b : Bytes) (start : TableFooter)
      → w.footer_file ≡ some b
      → cstore_read_footer protobuf b ≡ ok start
      → end_of_stripes start.stripe_metadata_list ≤ length w.table_file
      → (next_outcome w).0 ≡ ok call_succeeds
      → (outcome : Result (Unit {0})) × (after : World) × (write_table T protobuf L compression_type
            stripe_max_row_count block_row_count attrs rows w
          ≡ (outcome, after))
        × (take (end_of_stripes start.stripe_metadata_list) after.table_file
            ≡ take (end_of_stripes start.stripe_metadata_list) w.table_file)
        × (((outcome ≡ ok tt)
              × IsCommitted T protobuf L compression_type
                  (uint32 stripe_max_row_count)
                  attrs
                  start
                  (take (end_of_stripes start.stripe_metadata_list) w.table_file)
                  rows
                  after)
            ⊎ ((e : Error) × (outcome ≡ err e) × (after.footer_file ≡ some b)))
  write_table_atomic w b start same read enough found =
      let n = end_of_stripes start.stripe_metadata_list in
      let old = take n w.table_file in
      let total : length old ≡ n = length-take n w.table_file enough in
      let load =
        write_table T protobuf L compression_type stripe_max_row_count block_row_count attrs rows in
      let untouched : IsUntouched n old (some b) w = record {
        enough = enough;
        same_bytes = refl;
        same_footer = same;
      } in
      let ends = (write_table-Ends n old b start total read refl).after w (untouched, found) in
      elim (After-cases
        (λ _.
          IsCommitted T protobuf L compression_type (uint32 stripe_max_row_count) attrs start old
            rows)
        (Spoilt n old (some b)) (load w) ends) [
          | inl (t, ended, committed) ↦ (
            (load w).0,
            (load w).1,
            refl,
            subst (λ k. take k (load w).1.table_file ≡ old) total committed.old_kept,
            inl (ended, committed),
          )
          | inr (e, ended, kept_there) ↦ (
            (load w).0,
            (load w).1,
            refl,
            kept_there.same_bytes,
            inr (e, ended, kept_there.same_footer),
          )
        ]
