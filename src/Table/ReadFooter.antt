-- ===== src/Table/ReadFooter.antt =====
-- Reading a footer file: `CStoreReadFooter` of cstore_reader.c.
use postgres_vectorization_t.Metadata.Footers.{deserialize_post_script, deserialize_table_footer}
use postgres_vectorization_t.Metadata.Messages.{Protobuf}
use postgres_vectorization_t.Prelude.{Bytes, leb, length, uint64, ℕ, ◌+◌, ◌-◌, ◌^◌}
use postgres_vectorization_t.Report.{
  Result, guard, invalid_cstore_file, invalid_footer_size, invalid_postscript_size, nth, ◌>>=◌,
  ◌>>◌,
}
use postgres_vectorization_t.Stripe.Load.{read_from_file}
use postgres_vectorization_t.Types.{TableFooter}

-- CSTORE_POSTSCRIPT_SIZE_LENGTH
abbrev pub cstore_postscript_size_length : ℕ
cstore_postscript_size_length = 1

module _ (protobuf : Protobuf) where
  -- The content of a footer file.
  unfoldable pub cstore_read_footer : Bytes → Result TableFooter
  cstore_read_footer file = do
    let footer_file_size = length file
    guard (leb cstore_postscript_size_length footer_file_size) invalid_cstore_file
    size_buffer ←
        read_from_file file (footer_file_size - cstore_postscript_size_length)
          cstore_postscript_size_length
    postscript_size ← nth size_buffer 0
    guard (leb (postscript_size + cstore_postscript_size_length) footer_file_size)
        invalid_postscript_size
    let postscript_offset = footer_file_size - (cstore_postscript_size_length + postscript_size)
    postscript_buffer ← read_from_file file postscript_offset postscript_size
    footer_length ← deserialize_post_script protobuf postscript_buffer
    guard
        (leb (uint64 (footer_length + postscript_size + cstore_postscript_size_length))
          footer_file_size)
        invalid_footer_size
    footer_buffer ←
        read_from_file file (uint64 (postscript_offset + 2 ^ 64 - footer_length)) footer_length
    deserialize_table_footer protobuf footer_buffer
