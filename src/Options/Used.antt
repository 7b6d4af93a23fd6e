-- ===== src/Options/Used.antt =====
-- The options that are used are within their limits.
use mathlib.Core.Path.{subst}
use postgres_vectorization_t.Metadata.Footers.{block_row_count_maximum, block_row_count_minimum}
use postgres_vectorization_t.Options.{
  is_invalid, stripe_row_count_maximum, stripe_row_count_minimum, validate_foreign_table_options,
}
use postgres_vectorization_t.Options.Get.{
  CstoreFdwOptions, DefElem, compression_or_default, count_or_default, cstore_get_option_value,
  cstore_get_options, default_block_row_count, default_stripe_row_count,
  option_name_block_row_count, option_name_compression_type, option_name_filename,
  option_name_stripe_row_count,
}
use postgres_vectorization_t.Options.Sound.{
  IsCompression, IsCount, validate_foreign_table_options_sound,
}
use postgres_vectorization_t.Prelude.{
  Bytes, List, Option, ap, arith, false, none, refl, some, sym, ℕ, ◌∙◌, ◌≡◌, ◌≤◌,
}
use postgres_vectorization_t.Prelude.Int.{pos, ℤ}
use postgres_vectorization_t.Report.{>>=-eq-ok, Result, ok, ok_injective}
use postgres_vectorization_t.Types.{
  compression_enc_lz4, compression_enc_none, compression_lz4, compression_none, compression_pg_lz,
  compression_type_invalid, unnamed,
}

-- A number of rows within limits.
pub record IsWithin (low high : ℕ) (count : ℤ) : Type 0 where
  pub number : ℕ
  pub same : count ≡ pos number
  pub at_least : low ≤ number
  pub at_most : number ≤ high

module _ (pg_atoi : Bytes → Result ℤ) where
  used_count :
      (low high default_count : ℕ) (o : Option Bytes) {count : ℤ}
      → IsCount pg_atoi low high o
      → low ≤ default_count
      → default_count ≤ high
      → count_or_default pg_atoi o default_count ≡ ok count
      → IsWithin low high count
  used_count low high default_count none h p q e = record {
    number = default_count;
    same = sym (ok_injective e);
    at_least = p;
    at_most = q;
  }
  used_count low high default_count (some s) (n, atoi, least, most) p q e = record {
    number = n;
    same = ok_injective (sym e ∙ atoi);
    at_least = least;
    at_most = most;
  }

  used_compression :
      (o : Option Bytes) → IsCompression o → is_invalid (compression_or_default o) ≡ false
  used_compression none h = refl
  used_compression (some s) (compression_none, e, named) = ap is_invalid e
  used_compression (some s) (compression_pg_lz, e, named) = ap is_invalid e
  used_compression (some s) (compression_lz4, e, named) = ap is_invalid e
  used_compression (some s) (compression_enc_lz4, e, named) = ap is_invalid e
  used_compression (some s) (compression_type_invalid, e, named) = elim named [ ]
  used_compression (some s) (compression_enc_none, e, named) = elim named [ ]
  used_compression (some s) (unnamed n, e, named) = elim named [ ]

  -- Whenever the options of a table and of its server are accepted for use: the compression type is
  -- a valid one, the stripe row count lies between 1,000 and 10,000,000 and the block row count
  -- between 1,000 and 100,000, whether they are given or default.
  pub cstore_get_options_bounds :
      (default_file_path : Bytes) (table_options server_options : List DefElem)
      (o : CstoreFdwOptions)
      → cstore_get_options pg_atoi default_file_path table_options server_options ≡ ok o
      → (is_invalid o.compression_type ≡ false)
        × IsWithin stripe_row_count_minimum stripe_row_count_maximum o.stripe_row_count
        × IsWithin block_row_count_minimum block_row_count_maximum o.block_row_count
  unfolding cstore_get_options
  cstore_get_options_bounds default_file_path table_options server_options o e =
      let option = cstore_get_option_value table_options server_options in
      let compression = option option_name_compression_type in
      let stripes = option option_name_stripe_row_count in
      let blocks = option option_name_block_row_count in
      let (u, valid, e1) =
        >>=-eq-ok
          (validate_foreign_table_options pg_atoi (option option_name_filename) compression stripes
            blocks)
          _ e in
      let (stripe_count, e2, e3) =
        >>=-eq-ok (count_or_default pg_atoi stripes default_stripe_row_count) _ e1 in
      let (block_count, e4, made) =
        >>=-eq-ok (count_or_default pg_atoi blocks default_block_row_count) _ e3 in
      let sound =
        validate_foreign_table_options_sound pg_atoi (option option_name_filename) compression
          stripes blocks valid in
      subst
        (λ (o : CstoreFdwOptions).
          (is_invalid o.compression_type ≡ false)
          × IsWithin stripe_row_count_minimum stripe_row_count_maximum o.stripe_row_count
          × IsWithin block_row_count_minimum block_row_count_maximum o.block_row_count)
        (ok_injective made)
        (
          used_compression compression sound.0,
          used_count _ _ default_stripe_row_count stripes sound.1 (omega arith) (omega arith) e2,
          used_count _ _ default_block_row_count blocks sound.2 (omega arith) (omega arith) e4,
        )
