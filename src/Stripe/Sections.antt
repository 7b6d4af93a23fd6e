-- ===== src/Stripe/Sections.antt =====
-- The whole of `FlushStripe` but its writes (cstore_writer.c): the buffers of every column, the
-- skip lists and the stripe footer, the order in which they are written, and the metadata.
use postgres_vectorization_t.Compression.External.{Libraries}
use postgres_vectorization_t.Metadata.Footers.{serialize_stripe_footer}
use postgres_vectorization_t.Metadata.Messages.{Protobuf}
use postgres_vectorization_t.Metadata.SkipList.{serialize_column_skip_list}
use postgres_vectorization_t.Prelude.{
  Bytes, List, Option, [], length, map, some, suc, zero, ℕ, ◌++◌, ◌+◌, ◌∷◌,
}
use postgres_vectorization_t.Report.{Result, err, first, ok, out_of_bounds, ◌>>=◌}
use postgres_vectorization_t.Stripe.Flush.{
  compress_buffers, create_exists_buffers, create_value_buffers, place_nodes,
}
use postgres_vectorization_t.Tupmacs.{Tupmacs}
use postgres_vectorization_t.Types.{
  Attribute, ColumnBlockSkipNode, ColumnData, CompressionType, StripeData, StripeFooter,
  StripeMetadata, StripeSkipList,
}

module _ (T : Tupmacs) where
  open T use {Datum}

  -- `CreateExistsBufferArray`, over the columns that are left.
  unfoldable pub create_exists_buffer_array :
      ℕ
      → ℕ
      → List (Option (ColumnData Datum))
      → List (List (ColumnBlockSkipNode Datum))
      → Result (List (List Bytes))
  create_exists_buffer_array zero block_count columns nodes = ok []
  create_exists_buffer_array (suc n) block_count (some column ∷ columns) (ns ∷ nodes) = do
    let rest = create_exists_buffer_array n block_count columns nodes
    buffers ← create_exists_buffers T block_count column.block_data_array ns
    others ← rest
    ok (buffers ∷ others)
  create_exists_buffer_array (suc n) block_count _ _ = err out_of_bounds

  -- `CreateValueBufferArray`
  unfoldable pub create_value_buffer_array :
      ℕ
      → ℕ
      → List Attribute
      → List (Option (ColumnData Datum))
      → List (List (ColumnBlockSkipNode Datum))
      → Result (List (List Bytes))
  create_value_buffer_array zero block_count attrs columns nodes = ok []
  create_value_buffer_array (suc n) block_count (a ∷ attrs) (some column ∷ columns) (ns ∷ nodes) =
      do
        let rest = create_value_buffer_array n block_count attrs columns nodes
        buffers ← create_value_buffers T a block_count column.block_data_array ns
        others ← rest
        ok (buffers ∷ others)
  create_value_buffer_array (suc n) block_count _ _ _ = err out_of_bounds

  -- The loop over the columns that compresses the value buffers.
  unfoldable pub compress_buffer_array :
      Libraries
      → CompressionType
      → List (List Bytes)
      → Result (List (List (Bytes × CompressionType)))
  compress_buffer_array L t [] = ok []
  compress_buffer_array L t (buffers ∷ columns) = do
    let rest = compress_buffer_array L t columns
    compressed ← compress_buffers T L t buffers
    others ← rest
    ok (compressed ∷ others)

  -- The loop over the columns that updates the sizes and positions in the skip list.
  unfoldable pub place_columns :
      List (List (ColumnBlockSkipNode Datum))
      → List (List Bytes)
      → List (List (Bytes × CompressionType))
      → List (List (ColumnBlockSkipNode Datum))
  place_columns (ns ∷ nodes) (es ∷ exists) (vs ∷ values) =
      place_nodes T 0 0 ns es vs ∷ place_columns nodes exists values
  place_columns nodes _ _ = nodes

  -- The sums over a column's nodes in `CreateStripeFooter`, with `n` blocks left.
  unfoldable pub add_sizes : ℕ → List (ColumnBlockSkipNode Datum) → ℕ × ℕ → Result (ℕ × ℕ)
  add_sizes zero nodes sizes = ok sizes
  add_sizes (suc n) [] sizes = err out_of_bounds
  add_sizes (suc n) (node ∷ nodes) (exists_size, value_size) =
      add_sizes n nodes (exists_size + node.exists_length, value_size + node.value_length)

  -- The loop over the columns.
  unfoldable pub add_columns :
      ℕ → ℕ → List (List (ColumnBlockSkipNode Datum)) → Result (List (ℕ × ℕ))
  unfolding add_sizes
  add_columns zero block_count nodes = ok []
  add_columns (suc n) block_count [] = err out_of_bounds
  add_columns (suc n) block_count (ns ∷ nodes) = do
    let rest = add_columns n block_count nodes
    sizes ← add_sizes block_count ns (0, 0)
    others ← rest
    ok (sizes ∷ others)

  unfoldable pub create_stripe_footer : StripeSkipList Datum → List Bytes → Result StripeFooter
  create_stripe_footer skips skip_list_buffers = do
    sizes ← add_columns skips.column_count skips.block_count skips.block_skip_node_array
    buffers ← first skips.column_count skip_list_buffers
    ok (record {
      column_count = skips.column_count;
      skip_list_size_array = map (λ b. length b) buffers;
      exists_size_array = map (λ s. s.0) sizes;
      value_size_array = map (λ s. s.1) sizes;
    })

  -- Everything that `FlushStripe` makes before its first write.
  pub record StripeBuffers : Type 0 where
    pub exists_buffer_array : List (List Bytes)
    pub value_buffer_array : List (List (Bytes × CompressionType))
    pub skip_list : StripeSkipList Datum
    pub skip_list_buffer_array : List Bytes
    pub stripe_footer : StripeFooter
    pub stripe_footer_buffer : Bytes

  -- The data buffers in the order in which they are written.
  unfoldable pub data_writes :
      List (List Bytes) → List (List (Bytes × CompressionType)) → List Bytes
  data_writes (es ∷ exists) (vs ∷ values) = es ++ (map (λ v. v.0) vs ++ data_writes exists values)
  data_writes _ _ = []

  -- The buffers in the order of the calls of `WriteToFile`.
  unfoldable pub stripe_writes : StripeBuffers → List Bytes
  unfolding data_writes
  stripe_writes b =
      b.skip_list_buffer_array
      ++ (data_writes b.exists_buffer_array b.value_buffer_array ++ (b.stripe_footer_buffer ∷ []))

  -- The sum of the first `n` sizes.
  unfoldable pub add_array : ℕ → List ℕ → Result ℕ
  add_array zero sizes = ok 0
  add_array (suc n) [] = err out_of_bounds
  add_array (suc n) (size ∷ sizes) = do rest ← add_array n sizes; ok (size + rest)

  -- The metadata of the stripe at the current file offset.
  unfoldable pub stripe_metadata : ℕ → ℕ → StripeBuffers → Result StripeMetadata
  unfolding add_array
  stripe_metadata column_count current_file_offset b = do
    skip_list_length ← add_array column_count b.stripe_footer.skip_list_size_array
    exists_length ← add_array column_count b.stripe_footer.exists_size_array
    value_length ← add_array column_count b.stripe_footer.value_size_array
    ok (record {
      file_offset = current_file_offset;
      skip_list_length = skip_list_length;
      data_length = exists_length + value_length;
      footer_length = length b.stripe_footer_buffer;
    })

  module _ (protobuf : Protobuf) where
    -- `CreateSkipListBufferArray`
    unfoldable pub create_skip_list_buffer_array :
        ℕ → ℕ → List Attribute → List (List (ColumnBlockSkipNode Datum)) → Result (List Bytes)
    create_skip_list_buffer_array zero block_count attrs nodes = ok []
    create_skip_list_buffer_array (suc n) block_count (a ∷ attrs) (ns ∷ nodes) = do
      let rest = create_skip_list_buffer_array n block_count attrs nodes
      buffer ← serialize_column_skip_list T protobuf ns block_count a
      others ← rest
      ok (buffer ∷ others)
    create_skip_list_buffer_array (suc n) block_count _ _ = err out_of_bounds

    unfoldable pub stripe_buffers :
        Libraries
        → CompressionType
        → List Attribute
        → StripeData Datum
        → StripeSkipList Datum
        → Result StripeBuffers
    unfolding create_exists_buffer_array create_value_buffer_array compress_buffer_array
        place_columns create_skip_list_buffer_array create_stripe_footer
    stripe_buffers L t attrs stripe_data skips = do
      exists ←
          create_exists_buffer_array skips.column_count skips.block_count
            stripe_data.column_data_array skips.block_skip_node_array
      raw ←
          create_value_buffer_array skips.column_count skips.block_count attrs
            stripe_data.column_data_array skips.block_skip_node_array
      values ← compress_buffer_array L t raw
      let placed = record skips {
        block_skip_node_array = place_columns skips.block_skip_node_array exists values;
      }
      skip_lists ←
          create_skip_list_buffer_array placed.column_count placed.block_count attrs
            placed.block_skip_node_array
      footer ← create_stripe_footer placed skip_lists
      footer_buffer ← serialize_stripe_footer protobuf footer
      ok (record {
        exists_buffer_array = exists;
        value_buffer_array = values;
        skip_list = placed;
        skip_list_buffer_array = skip_lists;
        stripe_footer = footer;
        stripe_footer_buffer = footer_buffer;
      })
