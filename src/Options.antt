-- ===== src/Options.antt =====
-- The options of a foreign table (cstore_fdw.c): the names of the compression types, and the
-- validation of the option values. A C string is the list of its bytes before the terminating
-- zero; a null pointer is `none`. `pg_atoi` is PostgreSQL's, and a parameter: it returns the 32-bit
-- integer or raises its error.
pub mod Sound
pub mod Get
pub mod Used
pub mod Names
use postgres_vectorization_t.Metadata.Footers.{
  block_row_count_maximum, block_row_count_minimum, namedatalen, strncmp_equal,
}
use postgres_vectorization_t.Prelude.{
  Bool, Bytes, Option, [], false, if◌then◌else◌, none, not, some, true, ℕ, ◌||◌, ◌∷◌,
}
use postgres_vectorization_t.Prelude.Int.{ltb_ℤ, pos, ℤ}
use postgres_vectorization_t.Report.{
  Error, Result, guard, invalid_block_row_count, invalid_compression, invalid_stripe_row_count, ok,
  ◌>>=◌, ◌>>◌,
}
use postgres_vectorization_t.Types.{
  CompressionType, compression_enc_lz4, compression_lz4, compression_none, compression_pg_lz,
  compression_type_invalid,
}

-- "none", "pglz", "lz4" and "enc_lz4"
abbrev pub compression_string_none : Bytes
compression_string_none = b'n' ∷ b'o' ∷ b'n' ∷ b'e' ∷ []

abbrev pub compression_string_pg_lz : Bytes
compression_string_pg_lz = b'p' ∷ b'g' ∷ b'l' ∷ b'z' ∷ []

abbrev pub compression_string_lz4 : Bytes
compression_string_lz4 = b'l' ∷ b'z' ∷ b'4' ∷ []

abbrev pub compression_string_enc_lz4 : Bytes
compression_string_enc_lz4 = b'e' ∷ b'n' ∷ b'c' ∷ b'_' ∷ b'l' ∷ b'z' ∷ b'4' ∷ []

abbrev pub stripe_row_count_minimum : ℕ
stripe_row_count_minimum = 1000

abbrev pub stripe_row_count_maximum : ℕ
stripe_row_count_maximum = 10000000

unfoldable pub parse_compression_type : Bytes → CompressionType
parse_compression_type s =
    if strncmp_equal s compression_string_none namedatalen
    then compression_none
    else if strncmp_equal s compression_string_pg_lz namedatalen
    then compression_pg_lz
    else if strncmp_equal s compression_string_lz4 namedatalen
    then compression_lz4
    else if strncmp_equal s compression_string_enc_lz4 namedatalen
    then compression_enc_lz4
    else compression_type_invalid

abbrev pub is_invalid : CompressionType → Bool
is_invalid compression_type_invalid = true
is_invalid _ = false

abbrev pub validate_compression : Option Bytes → Result (Unit {0})
validate_compression none = ok tt
validate_compression (some s) =
    guard (not (is_invalid (parse_compression_type s))) invalid_compression

module _ (pg_atoi : Bytes → Result ℤ) where
  -- The checks of the two row counts.
  abbrev pub validate_count : ℕ → ℕ → Error → Option Bytes → Result (Unit {0})
  validate_count low high e none = ok tt
  validate_count low high e (some s) = do
    count ← pg_atoi s
    guard (not (ltb_ℤ count (pos low) || ltb_ℤ (pos high) count)) e

  unfoldable pub validate_foreign_table_options :
      Option Bytes → Option Bytes → Option Bytes → Option Bytes → Result (Unit {0})
  validate_foreign_table_options filename compression stripe_row_count block_row_count =
      validate_compression compression
      >> (validate_count stripe_row_count_minimum stripe_row_count_maximum invalid_stripe_row_count
            stripe_row_count
          >> validate_count block_row_count_minimum block_row_count_maximum invalid_block_row_count
              block_row_count)
