-- ===== src/Metadata/Footers.antt =====
-- The postscript, the table footer and the stripe footer (cstore_metadata_serialization.c).
pub mod RoundTrip
use postgres_vectorization_t.Metadata.Messages.{
  PostScriptMessage, Protobuf, StripeFooterMessage, StripeMetadataMessage, TableFooterMessage,
}
use postgres_vectorization_t.Prelude.{
  Bool, Bytes, List, Option, [], false, leb, length, map, none, some, suc, true, uint32, zero, ℕ,
  ◌&&◌, ◌==◌, ◌∷◌,
}
use postgres_vectorization_t.Report.{
  Result, first, guard, invalid_block_row_count, invalid_magic, invalid_postscript_buffer,
  invalid_stripe_footer_buffer, invalid_table_footer_buffer, invalid_version, missing_footer_fields,
  missing_stripe_fields, of_option, ok, out_of_bounds, size_array_mismatch, ◌>>=◌, ◌>>◌,
}
use postgres_vectorization_t.Types.{StripeFooter, StripeMetadata, TableFooter}

-- "citus_cstore"
abbrev pub cstore_magic_number : Bytes
cstore_magic_number =
    b'c' ∷ b'i' ∷ b't' ∷ b'u' ∷ b's' ∷ b'_' ∷ b'c' ∷ b's' ∷ b't' ∷ b'o' ∷ b'r' ∷ b'e' ∷ []

abbrev pub cstore_version_major : ℕ
cstore_version_major = 1

abbrev pub cstore_version_minor : ℕ
cstore_version_minor = 1

abbrev pub namedatalen : ℕ
namedatalen = 64

abbrev pub block_row_count_minimum : ℕ
block_row_count_minimum = 1000

abbrev pub block_row_count_maximum : ℕ
block_row_count_maximum = 100000

-- `strncmp(s, t, n) == 0`
unfoldable pub strncmp_equal : Bytes → Bytes → ℕ → Bool
strncmp_equal s t zero = true
strncmp_equal [] [] (suc n) = true
strncmp_equal [] (y ∷ t) (suc n) = false
strncmp_equal (x ∷ s) [] (suc n) = false
strncmp_equal (x ∷ s) (y ∷ t) (suc n) = x == y && strncmp_equal s t n

-- The value of an optional number: protobuf-c leaves 0 where the field is absent.
abbrev pub value_or_zero : Option ℕ → ℕ
value_or_zero none = 0
value_or_zero (some n) = n

-- The four required fields of a stripe's metadata.
abbrev stripe_metadata_of : StripeMetadataMessage → Result StripeMetadata
stripe_metadata_of m = do
  file_offset ← of_option m.file_offset missing_stripe_fields
  skip_list_length ← of_option m.skip_list_length missing_stripe_fields
  data_length ← of_option m.data_length missing_stripe_fields
  footer_length ← of_option m.footer_length missing_stripe_fields
  ok (record {
    file_offset = file_offset;
    skip_list_length = skip_list_length;
    data_length = data_length;
    footer_length = footer_length;
  })

abbrev pub stripe_metadata_message : StripeMetadata → StripeMetadataMessage
stripe_metadata_message s = record {
  file_offset = some s.file_offset;
  skip_list_length = some s.skip_list_length;
  data_length = some s.data_length;
  footer_length = some s.footer_length;
}

abbrev pub post_script_message : ℕ → PostScriptMessage
post_script_message table_footer_length = record {
  table_footer_length = some table_footer_length;
  version_major = some cstore_version_major;
  version_minor = some cstore_version_minor;
  magic_number = some cstore_magic_number;
}

-- The block row count is a `uint64` in the struct, and a `uint32` in the message.
abbrev pub table_footer_message : TableFooter → TableFooterMessage
table_footer_message f = record {
  stripe_metadata_array = map stripe_metadata_message f.stripe_metadata_list;
  block_row_count = some (uint32 f.block_row_count);
}

abbrev pub stripe_footer_message : List ℕ → List ℕ → List ℕ → StripeFooterMessage
stripe_footer_message skip_list_sizes exists_sizes value_sizes = record {
  skip_list_size_array = skip_list_sizes;
  exists_size_array = exists_sizes;
  value_size_array = value_sizes;
}

module _ (protobuf : Protobuf) where
  unfoldable pub serialize_post_script : ℕ → Bytes
  serialize_post_script table_footer_length =
      protobuf.post_script.pack (post_script_message table_footer_length)

  unfoldable pub deserialize_post_script : Bytes → Result ℕ
  deserialize_post_script buffer = do
    m ← of_option (protobuf.post_script.unpack buffer) invalid_postscript_buffer
    guard
        (value_or_zero m.version_major == cstore_version_major
          && leb (value_or_zero m.version_minor) cstore_version_minor)
        invalid_version
    magic ← of_option m.magic_number out_of_bounds
    guard (strncmp_equal magic cstore_magic_number namedatalen) invalid_magic
    ok (value_or_zero m.table_footer_length)

  unfoldable pub serialize_table_footer : TableFooter → Bytes
  serialize_table_footer f = protobuf.table_footer.pack (table_footer_message f)

  pub stripe_metadata_loop : List StripeMetadataMessage → Result (List StripeMetadata)
  stripe_metadata_loop [] = ok []
  stripe_metadata_loop (m ∷ ms) = do
    let rest = stripe_metadata_loop ms
    s ← stripe_metadata_of m
    ss ← rest
    ok (s ∷ ss)

  unfoldable pub deserialize_table_footer : Bytes → Result TableFooter
  unfolding stripe_metadata_loop
  deserialize_table_footer buffer = do
    m ← of_option (protobuf.table_footer.unpack buffer) invalid_table_footer_buffer
    block_row_count ← of_option m.block_row_count missing_footer_fields
    guard
        (leb block_row_count_minimum block_row_count && leb block_row_count block_row_count_maximum)
        invalid_block_row_count
    stripes ← stripe_metadata_loop m.stripe_metadata_array
    ok (record { stripe_metadata_list = stripes; block_row_count = block_row_count })

  unfoldable pub serialize_stripe_footer : StripeFooter → Result Bytes
  serialize_stripe_footer f = do
    skip_list_sizes ← first f.column_count f.skip_list_size_array
    exists_sizes ← first f.column_count f.exists_size_array
    value_sizes ← first f.column_count f.value_size_array
    ok (
        protobuf.stripe_footer.pack
          (stripe_footer_message skip_list_sizes exists_sizes value_sizes))

  unfoldable pub deserialize_stripe_footer : Bytes → Result StripeFooter
  deserialize_stripe_footer buffer = do
    m ← of_option (protobuf.stripe_footer.unpack buffer) invalid_stripe_footer_buffer
    let column_count = uint32 (length m.skip_list_size_array)
    guard (length m.exists_size_array == column_count && length m.value_size_array == column_count)
        size_array_mismatch
    skip_list_sizes ← first column_count m.skip_list_size_array
    exists_sizes ← first column_count m.exists_size_array
    value_sizes ← first column_count m.value_size_array
    ok (record {
      column_count = column_count;
      skip_list_size_array = skip_list_sizes;
      exists_size_array = exists_sizes;
      value_size_array = value_sizes;
    })
