-- ===== src/Stripe/Load.antt =====
-- Reading a column's data back (cstore_reader.c). A file is its bytes; that the operating system
-- fails to seek or to read is not modelled.
use postgres_vectorization_t.Bools.{deserialize_bool_array}
use postgres_vectorization_t.Compression.{decompress_buffer}
use postgres_vectorization_t.Compression.External.{Libraries}
use postgres_vectorization_t.Datums.{deserialize_datum_array}
use postgres_vectorization_t.Prelude.{
  Bool, Bytes, List, Option, [], drop, false, if◌then◌else◌, leb, length, none, some, suc, take,
  true, uint32, zero, ℕ, ◌+◌, ◌==◌, ◌∷◌,
}
use postgres_vectorization_t.Report.{
  Result, could_not_read, err, guard, null_buffer, ok, out_of_bounds, ◌>>=◌, ◌>>◌,
}
use postgres_vectorization_t.Tupmacs.{Tupmacs}
use postgres_vectorization_t.Types.{Attribute, ColumnBlockData, ColumnBlockSkipNode, ColumnData}

-- `ReadFromFile`; the size is narrowed to a `uint32`.
unfoldable pub read_from_file : Bytes → ℕ → ℕ → Result Bytes
read_from_file file offset size =
    let n = uint32 size in
    if n == 0
    then ok []
    else guard (leb (offset + n) (length file)) could_not_read >> ok (take n (drop offset file))

module _ (T : Tupmacs) where
  open T use {Datum, zero_datum}

  -- `DeserializeDatumArray` of a null buffer, which faults at the first value that exists.
  pub deserialize_null_array : ℕ → List Bool → Result (List Datum)
  deserialize_null_array zero es = ok []
  deserialize_null_array (suc n) [] = err out_of_bounds
  deserialize_null_array (suc n) (true ∷ es) = err null_buffer
  deserialize_null_array (suc n) (false ∷ es) = do
    ds ← deserialize_null_array n es
    ok (zero_datum ∷ ds)

  unfoldable pub deserialize_buffer : Option Bytes → List Bool → ℕ → Attribute → Result (List Datum)
  deserialize_buffer none es n a = deserialize_null_array n es
  deserialize_buffer (some buffer) es n a = deserialize_datum_array T buffer es n a

  -- The first loop of `LoadColumnData`.
  unfoldable pub load_exists :
      Bytes → ℕ → List (ColumnBlockSkipNode Datum) → ℕ → Result (List (List Bool))
  load_exists file zero nodes exists_file_offset = ok []
  load_exists file (suc n) [] exists_file_offset = err out_of_bounds
  load_exists file (suc n) (node ∷ nodes) exists_file_offset = do
    let rest = load_exists file n nodes exists_file_offset
    buffer ← read_from_file file (exists_file_offset + node.exists_block_offset) node.exists_length
    exists ← deserialize_bool_array buffer (uint32 node.row_count)
    others ← rest
    ok (exists ∷ others)

  -- The second loop, which completes the blocks.
  unfoldable pub load_values :
      Libraries
      → Bytes
      → Attribute
      → ℕ
      → List (ColumnBlockSkipNode Datum)
      → List (List Bool)
      → ℕ
      → Result (List (ColumnBlockData Datum))
  unfolding deserialize_buffer
  load_values L file a zero nodes es value_file_offset = ok []
  load_values L file a (suc n) (node ∷ nodes) (exists ∷ es) value_file_offset = do
    let rest = load_values L file a n nodes es value_file_offset
    raw ← read_from_file file (value_file_offset + node.value_block_offset) node.value_length
    buffer ← decompress_buffer L raw node.value_compression_type
    values ← deserialize_buffer buffer exists (uint32 node.row_count) a
    blocks ← rest
    ok (record { exists_array = exists; value_array = values } ∷ blocks)
  load_values L file a (suc n) _ _ value_file_offset = err out_of_bounds

  unfoldable pub load_column_data :
      Libraries
      → Bytes
      → List (ColumnBlockSkipNode Datum)
      → ℕ
      → ℕ
      → ℕ
      → Attribute
      → Result (ColumnData Datum)
  unfolding load_exists load_values
  load_column_data L file nodes block_count exists_file_offset value_file_offset a = do
    es ← load_exists file block_count nodes exists_file_offset
    blocks ← load_values L file a block_count nodes es value_file_offset
    ok (record { block_data_array = blocks })
