-- ===== src/Table/Write.antt =====
-- Writing a table (cstore_writer.c): `CStoreBeginWrite`, `CStoreWriteRow` with its flush,
-- `FlushStripe`, `AppendStripeMetadata` and `CStoreEndWrite`. The comparison functions of the
-- columns are left out: only the call of `UpdateBlockSkipNodeMinMax`, which is commented out, uses
-- them.
use postgres_vectorization_t.Compression.External.{Libraries}
use postgres_vectorization_t.Metadata.Messages.{Protobuf}
use postgres_vectorization_t.Prelude.{
  Bool, Bytes, List, Option, [], if◌then◌else◌, leb, length, ltb, none, some, uint32, uint64, ℕ,
  ◌++◌, ◌+◌, ◌^◌, ◌∷◌,
}
use postgres_vectorization_t.Report.{
  could_not_close, could_not_open, could_not_rename, could_not_seek, err, guard, of_option, ok,
  out_of_bounds,
}
use postgres_vectorization_t.Rows.{fill_row}
use postgres_vectorization_t.Stripe.Sections.{stripe_buffers, stripe_metadata, stripe_writes}
use postgres_vectorization_t.Table.Io.{
  File, Io, Outcome, call, call_fails, call_succeeds, lift, next_outcome, pure, sync_and_close_file,
  table_handle, write_to_file, ◌>>=◌, ◌>>◌,
}
use postgres_vectorization_t.Table.ReadFooter.{cstore_read_footer}
use postgres_vectorization_t.Table.WriteFooter.{cstore_write_footer}
use postgres_vectorization_t.Tupmacs.{Tupmacs}
use postgres_vectorization_t.Types.{
  Attribute, CompressionType, StripeData, StripeMetadata, StripeSkipList, TableFooter,
}

-- `stat` of the footer file: its content, unless the call fails.
abbrev pub stat_result : Outcome → Io (Option Bytes)
stat_result call_succeeds w = (ok w.footer_file, w)
stat_result (call_fails n) w = (ok none, w)

abbrev pub stat_footer : Io (Option Bytes)
stat_footer = do outcome ← next_outcome; stat_result outcome

-- The table file opened with "w" is empty; the position of a file that is opened is its start.
abbrev pub truncate_table : Io (Unit {0})
truncate_table w = (ok tt, record w { table_file = []; position = 0 })

abbrev pub seek_table : ℕ → Io (Unit {0})
seek_table position w = (ok tt, record w { position = position })

-- `rename` of the temporary footer file to the footer file, which is atomic.
abbrev pub rename_result : Outcome → Io (Unit {0})
rename_result call_succeeds w =
    (ok tt, record w { footer_file = some w.temp_footer_file; temp_footer_file = [] })
rename_result (call_fails n) w = (err could_not_rename, w)

abbrev pub rename_footer : Io (Unit {0})
rename_footer = do outcome ← next_outcome; rename_result outcome

-- The end of the last stripe, where the next stripe goes; 0 if there is none.
abbrev pub stripe_end : StripeMetadata → ℕ
stripe_end m =
    uint64 (m.file_offset + uint64 (m.skip_list_length + m.data_length + m.footer_length))

unfoldable pub end_of_stripes : List StripeMetadata → ℕ
end_of_stripes [] = 0
end_of_stripes (m ∷ []) = stripe_end m
end_of_stripes (m ∷ n ∷ stripes) = end_of_stripes (n ∷ stripes)

-- `AppendStripeMetadata`
abbrev pub append_stripe_metadata : TableFooter → StripeMetadata → TableFooter
append_stripe_metadata footer m = record footer {
  stripe_metadata_list = footer.stripe_metadata_list ++ (m ∷ []);
}

-- The buffers in their order.
unfoldable pub write_all : File → List Bytes → Io (Unit {0})
write_all file [] = pure tt
write_all file (b ∷ buffers) = write_to_file file b >> write_all file buffers

-- The footer to start from, and the table file opened: anew if there is no footer file.
abbrev pub open_table : Protobuf → ℕ → Option Bytes → Io TableFooter
open_table protobuf block_row_count none = do
  call could_not_open
  truncate_table
  pure (record { stripe_metadata_list = []; block_row_count = block_row_count })
open_table protobuf block_row_count (some footer_file) = do
  call could_not_open
  seek_table 0
  call could_not_open
  table_footer ← lift (cstore_read_footer protobuf footer_file)
  call could_not_close
  pure table_footer

-- The jump behind the last stripe; an `off_t` is signed.
abbrev pub seek_behind : List StripeMetadata → Io ℕ
seek_behind [] = pure 0
seek_behind (m ∷ stripes) = do
  let current_file_offset = end_of_stripes (m ∷ stripes)
  call could_not_seek
  lift (guard (ltb current_file_offset (2 ^ 63)) could_not_seek)
  seek_table current_file_offset
  pure current_file_offset

module _ (T : Tupmacs) where
  open T use {Datum}

  pub record TableWriteState : Type 0 where
    pub table_footer : TableFooter
    pub compression_type : CompressionType
    pub stripe_max_row_count : ℕ
    pub tuple_descriptor : List Attribute
    pub current_file_offset : ℕ
    pub stripe_data : Option (StripeData Datum)
    pub stripe_skip_list : Option (StripeSkipList Datum)

  module _ (protobuf : Protobuf) where
    unfoldable pub cstore_begin_write :
        CompressionType → ℕ → ℕ → List Attribute → Io TableWriteState
    cstore_begin_write compression_type stripe_max_row_count block_row_count attrs = do
      footer_file ← stat_footer
      table_footer ← open_table protobuf block_row_count footer_file
      current_file_offset ← seek_behind table_footer.stripe_metadata_list
      pure (record {
        table_footer = table_footer;
        compression_type = compression_type;
        stripe_max_row_count = uint32 stripe_max_row_count;
        tuple_descriptor = attrs;
        current_file_offset = current_file_offset;
        stripe_data = none;
        stripe_skip_list = none;
      })

    module _ (L : Libraries) where
      -- `FlushStripe` of the stripe in memory, and the state with the advanced offset.
      unfoldable pub flush_stripe : TableWriteState → Io (StripeMetadata × TableWriteState)
      flush_stripe state = do
        stripe_data ← lift (of_option state.stripe_data out_of_bounds)
        skips ← lift (of_option state.stripe_skip_list out_of_bounds)
        buffers ← lift (
            stripe_buffers T protobuf L state.compression_type state.tuple_descriptor stripe_data
              skips)
        write_all table_handle (stripe_writes T buffers)
        m ←
            lift
              (stripe_metadata T (length state.tuple_descriptor) state.current_file_offset buffers)
        pure (
          m,
          record state {
            current_file_offset =
                uint64 (
                  state.current_file_offset + m.skip_list_length + m.data_length + m.footer_length);
          },
        )

      -- The flush with what follows it: no stripe in memory, its metadata in the footer.
      unfoldable pub flush_and_append : TableWriteState → Io TableWriteState
      flush_and_append state = do
        (m, flushed) ← flush_stripe state
        pure (record flushed {
          stripe_data = none;
          stripe_skip_list = none;
          table_footer = append_stripe_metadata flushed.table_footer m;
        })

      unfoldable pub cstore_write_row :
          TableWriteState → List Datum → List Bool → Io TableWriteState
      cstore_write_row state values nulls = do
        (stripe_data, skips) ← lift (
            fill_row T state.stripe_max_row_count state.table_footer.block_row_count
              state.tuple_descriptor state.stripe_data state.stripe_skip_list values nulls)
        let filled = record state { stripe_data = some stripe_data; stripe_skip_list = some skips }
        if leb state.stripe_max_row_count stripe_data.row_count
            then flush_and_append filled
            else pure filled

      -- The stripe that is left is flushed.
      abbrev pub flush_rest : TableWriteState → Option (StripeData Datum) → Io TableWriteState
      flush_rest state none = pure state
      flush_rest state (some stripe_data) = flush_and_append state

      unfoldable pub cstore_end_write : TableWriteState → Io (Unit {0})
      cstore_end_write state = do
        flushed ← flush_rest state state.stripe_data
        sync_and_close_file
        cstore_write_footer protobuf flushed.table_footer
        rename_footer

      -- The rows of a load, one `CStoreWriteRow` after another.
      unfoldable pub write_rows :
          TableWriteState → List (List Datum × List Bool) → Io TableWriteState
      write_rows state [] = pure state
      write_rows state ((values, nulls) ∷ rows) = do
        next ← cstore_write_row state values nulls
        write_rows next rows

      -- A whole load, as `CopyIntoCStoreTable` runs it.
      unfoldable pub write_table :
          CompressionType → ℕ → ℕ → List Attribute → List (List Datum × List Bool) → Io (Unit {0})
      write_table compression_type stripe_max_row_count block_row_count attrs rows = do
        state ← cstore_begin_write compression_type stripe_max_row_count block_row_count attrs
        written ← write_rows state rows
        cstore_end_write written
