-- ===== src/Types.antt =====
-- The data that cstore_fdw.h declares: options, footers, skip nodes, blocks and stripes. A C array
-- is a list, and a two dimensional array is a list of its rows.
use postgres_vectorization_t.Prelude.{
  ℕ, zero, suc, ◌-◌, ◌^◌, Bool, List, Option, ◌==◌, if◌then◌else◌,
}
use postgres_vectorization_t.Prelude.Int.{ℤ}

-- `CompressionType`. `unnamed n` is an integer that no enumerator names, which a cast can make.
pub data CompressionType : Type 0 where
  compression_type_invalid : CompressionType
  compression_none compression_pg_lz compression_lz4 : CompressionType
  compression_enc_lz4 compression_enc_none : CompressionType
  unnamed : ℕ → CompressionType

-- The enumerator as the bit pattern of a 32-bit integer.
abbrev pub to_enum : CompressionType → ℕ
to_enum compression_type_invalid = 2 ^ 32 - 1
to_enum compression_none = 0
to_enum compression_pg_lz = 1
to_enum compression_lz4 = 2
to_enum compression_enc_lz4 = 3
to_enum compression_enc_none = 4
to_enum (unnamed n) = n

-- The cast of an integer back to the enumeration.
abbrev pub of_enum : ℕ → CompressionType
of_enum zero = compression_none
of_enum (suc zero) = compression_pg_lz
of_enum (suc (suc zero)) = compression_lz4
of_enum (suc (suc (suc zero))) = compression_enc_lz4
of_enum (suc (suc (suc (suc zero)))) = compression_enc_none
of_enum n = if n == 2 ^ 32 - 1 then compression_type_invalid else unnamed n

-- The fields of `Form_pg_attribute` that the code reads.
pub record Attribute : Type 0 where
  pub attbyval : Bool
  pub attlen : ℤ
  pub attalign : ℕ

pub record StripeMetadata : Type 0 where
  pub file_offset : ℕ
  pub skip_list_length : ℕ
  pub data_length : ℕ
  pub footer_length : ℕ

pub record TableFooter : Type 0 where
  pub stripe_metadata_list : List StripeMetadata
  pub block_row_count : ℕ

pub record StripeFooter : Type 0 where
  pub column_count : ℕ
  pub skip_list_size_array : List ℕ
  pub exists_size_array : List ℕ
  pub value_size_array : List ℕ

module _ (Datum : Type 0) where
  pub record ColumnBlockSkipNode : Type 0 where
    pub has_min_max : Bool
    pub minimum_value : Datum
    pub maximum_value : Datum
    pub row_count : ℕ
    pub value_block_offset : ℕ
    pub value_length : ℕ
    pub exists_block_offset : ℕ
    pub exists_length : ℕ
    pub value_compression_type : CompressionType

  pub record StripeSkipList : Type 0 where
    pub block_skip_node_array : List (List ColumnBlockSkipNode)
    pub column_count : ℕ
    pub block_count : ℕ

  pub record ColumnBlockData : Type 0 where
    pub exists_array : List Bool
    pub value_array : List Datum

  pub record ColumnData : Type 0 where
    pub block_data_array : List ColumnBlockData

  pub record StripeData : Type 0 where
    pub column_count : ℕ
    pub row_count : ℕ
    -- a null pointer for a column that the reader does not load
    pub column_data_array : List (Option ColumnData)
