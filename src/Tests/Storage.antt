-- ===== src/Tests/Storage.antt =====
-- The theorems on buffers, footers and compression at concrete inputs.
use mathlib.Core.Path.{subst}
use postgres_vectorization_t.Bools.{deserialize_bool_array, serialize_bool_array}
use postgres_vectorization_t.Bools.Bits.{IsByteList}
use postgres_vectorization_t.Bools.RoundTrip.{deserialize-serialize_bool_array}
use postgres_vectorization_t.Compression.{compress_block}
use postgres_vectorization_t.Compression.RoundTrip.{Restores, decompress_buffer-compress_block}
use postgres_vectorization_t.Datums.{deserialize_datum_array, serialize_datum_array, serialize_loop}
use postgres_vectorization_t.Datums.RoundTrip.{
  ArePresent, deserialize-serialize_datum_array, present_values,
}
use postgres_vectorization_t.Metadata.Footers.{
  block_row_count_maximum, block_row_count_minimum, cstore_magic_number, cstore_version_major,
  cstore_version_minor, deserialize_post_script, deserialize_stripe_footer,
  deserialize_table_footer, serialize_post_script, serialize_stripe_footer, serialize_table_footer,
  strncmp_equal, value_or_zero,
}
use postgres_vectorization_t.Metadata.Footers.RoundTrip.{
  IsStripeFooter, IsTableFooter, deserialize-serialize_post_script,
  deserialize-serialize_stripe_footer, deserialize-serialize_table_footer,
  deserialize_post_script_sound,
}
use postgres_vectorization_t.Metadata.Messages.{PostScriptMessage}
use postgres_vectorization_t.Metadata.SkipList.{
  deserialize_block_count, deserialize_column_skip_list, serialize_column_skip_list,
}
use postgres_vectorization_t.Metadata.SkipList.RoundTrip.{
  IsNode, deserialize-serialize_column_skip_list,
}
use postgres_vectorization_t.Options.{
  compression_string_lz4, parse_compression_type, stripe_row_count_maximum,
  stripe_row_count_minimum, validate_foreign_table_options,
}
use postgres_vectorization_t.Options.Sound.{
  IsCompression, IsCount, validate_foreign_table_options_sound,
}
use postgres_vectorization_t.Prelude.{
  Bool, Bytes, List, [], arith, false, length, none, refl, some, take, true, ◌*◌, ◌++◌, ◌+◌, ◌/◌,
  ◌<◌, ◌^◌, ◌∷◌, ◌≡◌, ◌≤◌,
}
use postgres_vectorization_t.Prelude.Int.{pos, ℤ}
use postgres_vectorization_t.Report.{Result, err, invalid_option, ok}
use postgres_vectorization_t.Tests.Codecs.{codecs}
use postgres_vectorization_t.Tests.Instances.{
  copiers, copiers-AreLossless, int4_column, macros, nine, nine-IsSized, seven, seven-IsSized,
  text_column, word, word-IsSized,
}
use postgres_vectorization_t.Types.{
  ColumnBlockSkipNode, CompressionType, StripeFooter, TableFooter, compression_lz4,
}

abbrev flags : List Bool
flags = true ∷ false ∷ true ∷ []

deserialize-serialize_bool_array_example :
    (out : Bytes) × (serialize_bool_array flags 3 ≡ ok out)
    × (length out ≡ (3 + 7) / 8)
    × IsByteList out
    × (deserialize_bool_array out 3 ≡ ok (take 3 flags))
deserialize-serialize_bool_array_example =
    deserialize-serialize_bool_array flags 3 (omega arith) (omega arith)

abbrev words : List Bytes
words = word ∷ [] ∷ word ∷ []

words-ArePresent : ArePresent macros text_column words flags
words-ArePresent = (word-IsSized, (word-IsSized, tt))

words_short :
    (out : Bytes)
    → serialize_datum_array macros words flags 3 text_column ≡ ok out
    → length out < 2 ^ 32
unfolding serialize_datum_array serialize_loop
words_short out e =
    let same : word ++ word ≡ out = cc in subst (λ b. length b < 2 ^ 32) same (omega arith)

deserialize-serialize_datum_array_example :
    (out : Bytes) × (serialize_datum_array macros words flags 3 text_column ≡ ok out)
    × (deserialize_datum_array macros out flags 3 text_column
        ≡ ok (present_values macros 3 words flags))
deserialize-serialize_datum_array_example =
    deserialize-serialize_datum_array macros text_column words flags 3 (omega arith) (omega arith)
      words-ArePresent words_short

abbrev node : ColumnBlockSkipNode Bytes
node = record {
  has_min_max = true;
  minimum_value = seven;
  maximum_value = nine;
  row_count = 2;
  value_block_offset = 0;
  value_length = 8;
  exists_block_offset = 0;
  exists_length = 1;
  value_compression_type = compression_lz4;
}

node-IsNode : IsNode macros int4_column node
node-IsNode = record {
  row_count_small = omega arith;
  value_block_offset_small = omega arith;
  value_length_small = omega arith;
  exists_block_offset_small = omega arith;
  exists_length_small = omega arith;
  enum_small = omega arith;
  named = refl;
  limits = (seven-IsSized, nine-IsSized);
}

deserialize-serialize_column_skip_list_example :
    (out : Bytes) × (serialize_column_skip_list macros codecs (node ∷ []) 1 int4_column ≡ ok out)
    × (deserialize_block_count macros codecs out ≡ ok 1)
    × (deserialize_column_skip_list macros codecs out int4_column 1 ≡ ok (take 1 (node ∷ [])))
deserialize-serialize_column_skip_list_example =
    deserialize-serialize_column_skip_list macros codecs int4_column (node ∷ []) 1 (omega arith)
      (omega arith) (node-IsNode, tt)

deserialize-serialize_post_script_example :
    deserialize_post_script codecs (serialize_post_script codecs 40) ≡ ok 40
deserialize-serialize_post_script_example =
    deserialize-serialize_post_script codecs 40 (omega arith)

deserialize_post_script_sound_example :
    (m : PostScriptMessage) × (codecs.post_script.unpack (serialize_post_script codecs 40) ≡ some m)
    × (m.version_major ≡ some cstore_version_major)
    × (value_or_zero m.version_minor ≤ cstore_version_minor)
    × (m.magic_number ≡ some cstore_magic_number)
    × (value_or_zero m.table_footer_length ≡ 40)
deserialize_post_script_sound_example =
    deserialize_post_script_sound codecs (serialize_post_script codecs 40)
      deserialize-serialize_post_script_example

abbrev pub small_footer : TableFooter
small_footer = record {
  stripe_metadata_list =
      record { file_offset = 0; skip_list_length = 12; data_length = 90; footer_length = 7 } ∷ [];
  block_row_count = 10000;
}

pub small_footer-IsTableFooter : IsTableFooter small_footer
small_footer-IsTableFooter = record {
  stripes = (
    record {
      file_offset_small = omega arith;
      skip_list_length_small = omega arith;
      data_length_small = omega arith;
      footer_length_small = omega arith;
    },
    tt,
  );
  at_least = omega arith;
  at_most = omega arith;
}

deserialize-serialize_table_footer_example :
    deserialize_table_footer codecs (serialize_table_footer codecs small_footer) ≡ ok small_footer
deserialize-serialize_table_footer_example =
    deserialize-serialize_table_footer codecs small_footer small_footer-IsTableFooter

abbrev stripe_footer : StripeFooter
stripe_footer = record {
  column_count = 2;
  skip_list_size_array = 10 ∷ 11 ∷ [];
  exists_size_array = 1 ∷ 1 ∷ [];
  value_size_array = 8 ∷ 30 ∷ [];
}

stripe_footer-IsStripeFooter : IsStripeFooter stripe_footer
stripe_footer-IsStripeFooter = record {
  column_count_small = omega arith;
  skip_list_length = refl;
  exists_length = refl;
  value_length = refl;
  skip_list_fit = (omega arith, (omega arith, tt));
  exists_fit = (omega arith, (omega arith, tt));
  value_fit = (omega arith, (omega arith, tt));
}

deserialize-serialize_stripe_footer_example :
    (out : Bytes) × (serialize_stripe_footer codecs stripe_footer ≡ ok out)
    × (deserialize_stripe_footer codecs out ≡ ok stripe_footer)
deserialize-serialize_stripe_footer_example =
    deserialize-serialize_stripe_footer codecs stripe_footer stripe_footer-IsStripeFooter

abbrev plain : Bytes
plain = 1 ∷ 2 ∷ 3 ∷ 4 ∷ []

decompress_buffer-compress_block_example :
    (r : Bytes × CompressionType) × (compress_block copiers compression_lz4 plain ≡ ok r)
    × Restores copiers plain r
decompress_buffer-compress_block_example =
    decompress_buffer-compress_block copiers copiers-AreLossless compression_lz4 plain tt
      (omega arith)

-- An integer of one digit.
abbrev one_digit : Bytes → Result ℤ
one_digit (x ∷ []) = ok (pos (1000 * x))
one_digit _ = err invalid_option

accepted :
    validate_foreign_table_options one_digit none (some compression_string_lz4) none (some (7 ∷ []))
    ≡ ok tt
unfolding validate_foreign_table_options parse_compression_type strncmp_equal
accepted = refl

validate_foreign_table_options_sound_example :
    IsCompression (some compression_string_lz4)
    × IsCount one_digit stripe_row_count_minimum stripe_row_count_maximum none
    × IsCount one_digit block_row_count_minimum block_row_count_maximum (some (7 ∷ []))
validate_foreign_table_options_sound_example =
    validate_foreign_table_options_sound one_digit none (some compression_string_lz4) none
      (some (7 ∷ [])) accepted
