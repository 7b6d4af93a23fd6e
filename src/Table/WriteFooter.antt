-- ===== src/Table/WriteFooter.antt =====
-- Writing the footer file: `CStoreWriteFooter` of cstore_writer.c.
use postgres_vectorization_t.Metadata.Footers.{serialize_post_script, serialize_table_footer}
use postgres_vectorization_t.Metadata.Messages.{Protobuf}
use postgres_vectorization_t.Prelude.{[], length, ◌%◌, ◌∷◌}
use postgres_vectorization_t.Report.{could_not_open, ok}
use postgres_vectorization_t.Table.Io.{
  Io, call, sync_and_close_file, temp_footer_handle, write_to_file, ◌>>◌,
}
use postgres_vectorization_t.Types.{TableFooter}

-- A file that is opened with "w" is empty.
abbrev pub empty_temp_footer : Io (Unit {0})
empty_temp_footer w = (ok tt, record w { temp_footer_file = [] })

module _ (protobuf : Protobuf) where
  -- `CStoreWriteFooter` to the temporary file; the size of the postscript is narrowed to a byte.
  unfoldable pub cstore_write_footer : TableFooter → Io (Unit {0})
  cstore_write_footer table_footer = do
    call could_not_open
    empty_temp_footer
    let table_footer_buffer = serialize_table_footer protobuf table_footer
    write_to_file temp_footer_handle table_footer_buffer
    let postscript_buffer = serialize_post_script protobuf (length table_footer_buffer)
    write_to_file temp_footer_handle postscript_buffer
    write_to_file temp_footer_handle (length postscript_buffer % 256 ∷ [])
    sync_and_close_file
