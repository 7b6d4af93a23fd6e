-- ===== src/Stripe/Flush.antt =====
-- The data buffers of one column (cstore_writer.c).
use postgres_vectorization_t.Bools.{serialize_bool_array}
use postgres_vectorization_t.Compression.{compress_block}
use postgres_vectorization_t.Compression.External.{Libraries}
use postgres_vectorization_t.Datums.{serialize_datum_array}
use postgres_vectorization_t.Prelude.{
  Bytes, List, [], concat, length, suc, uint32, zero, ℕ, ◌++◌, ◌+◌, ◌∷◌,
}
use postgres_vectorization_t.Report.{Result, err, ok, out_of_bounds, ◌>>=◌}
use postgres_vectorization_t.Tupmacs.{Tupmacs}
use postgres_vectorization_t.Types.{
  Attribute, ColumnBlockData, ColumnBlockSkipNode, ColumnData, CompressionType,
}

module _ (T : Tupmacs) where
  open T use {Datum}

  -- The inner loop of `CreateExistsBufferArray`, with `n` blocks left.
  unfoldable pub create_exists_buffers :
      ℕ → List (ColumnBlockData Datum) → List (ColumnBlockSkipNode Datum) → Result (List Bytes)
  create_exists_buffers zero blocks nodes = ok []
  create_exists_buffers (suc n) (block ∷ blocks) (node ∷ nodes) = do
    let rest = create_exists_buffers n blocks nodes
    buffer ← serialize_bool_array block.exists_array (uint32 node.row_count)
    buffers ← rest
    ok (buffer ∷ buffers)
  create_exists_buffers (suc n) _ _ = err out_of_bounds

  -- The inner loop of `CreateValueBufferArray`.
  unfoldable pub create_value_buffers :
      Attribute
      → ℕ
      → List (ColumnBlockData Datum)
      → List (ColumnBlockSkipNode Datum)
      → Result (List Bytes)
  create_value_buffers a zero blocks nodes = ok []
  create_value_buffers a (suc n) (block ∷ blocks) (node ∷ nodes) = do
    let rest = create_value_buffers a n blocks nodes
    buffer ← serialize_datum_array T block.value_array block.exists_array (uint32 node.row_count) a
    buffers ← rest
    ok (buffer ∷ buffers)
  create_value_buffers a (suc n) _ _ = err out_of_bounds

  -- The loop over the blocks that compresses the value buffers.
  unfoldable pub compress_buffers :
      Libraries → CompressionType → List Bytes → Result (List (Bytes × CompressionType))
  compress_buffers L t [] = ok []
  compress_buffers L t (buffer ∷ buffers) = do
    let rest = compress_buffers L t buffers
    compressed ← compress_block L t buffer
    others ← rest
    ok (compressed ∷ others)

  -- One node's sizes and positions.
  abbrev pub placed_node :
      ColumnBlockSkipNode Datum
      → ℕ
      → ℕ
      → Bytes
      → Bytes × CompressionType
      → ColumnBlockSkipNode Datum
  placed_node node exists_offset value_offset exists (value, t) = record node {
    exists_block_offset = exists_offset;
    exists_length = length exists;
    value_block_offset = value_offset;
    value_length = length value;
    value_compression_type = t;
  }

  -- The loop that updates the sizes and positions of a column's nodes; those behind the blocks in
  -- use stay as they are.
  unfoldable pub place_nodes :
      ℕ
      → ℕ
      → List (ColumnBlockSkipNode Datum)
      → List Bytes
      → List (Bytes × CompressionType)
      → List (ColumnBlockSkipNode Datum)
  place_nodes exists_offset value_offset (node ∷ nodes) (exists ∷ es) (value ∷ vs) =
      placed_node node exists_offset value_offset exists value
      ∷ place_nodes (exists_offset + length exists) (value_offset + length value.0) nodes es vs
  place_nodes exists_offset value_offset nodes _ _ = nodes

  -- What `FlushStripe` makes of one column: the exists buffers, the value buffers with their
  -- types, and the updated skip nodes.
  unfoldable pub flush_column :
      Libraries
      → CompressionType
      → Attribute
      → ℕ
      → ColumnData Datum
      → List (ColumnBlockSkipNode Datum)
      → Result (List Bytes × List (Bytes × CompressionType) × List (ColumnBlockSkipNode Datum))
  unfolding create_exists_buffers create_value_buffers compress_buffers place_nodes
  flush_column L t a block_count column nodes = do
    exists ← create_exists_buffers block_count column.block_data_array nodes
    raw ← create_value_buffers a block_count column.block_data_array nodes
    values ← compress_buffers L t raw
    ok (exists, values, place_nodes 0 0 nodes exists values)

  -- The data that is written for the column: all exists buffers, then all value buffers.
  abbrev pub value_bytes : List (Bytes × CompressionType) → Bytes
  value_bytes [] = []
  value_bytes ((value, t) ∷ values) = value ++ value_bytes values

  abbrev pub column_bytes : List Bytes → List (Bytes × CompressionType) → Bytes
  column_bytes exists values = concat exists ++ value_bytes values
