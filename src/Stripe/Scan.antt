-- ===== src/Stripe/Scan.antt =====
-- Loading a stripe (cstore_reader.c): its footer, its skip list, and the projected columns of the
-- blocks that are selected.
use postgres_vectorization_t.Compression.External.{Libraries}
use postgres_vectorization_t.Metadata.Footers.{deserialize_stripe_footer}
use postgres_vectorization_t.Metadata.Messages.{Protobuf}
use postgres_vectorization_t.Metadata.SkipList.{
  deserialize_block_count, deserialize_column_skip_list,
}
use postgres_vectorization_t.Prelude.{
  Bool, Bytes, List, Option, [], false, length, none, some, suc, true, zero, ℕ, ◌+◌, ◌==◌, ◌∷◌,
}
use postgres_vectorization_t.Report.{
  Result, column_count_mismatch, err, guard, nth, ok, out_of_bounds, ◌>>=◌, ◌>>◌,
}
use postgres_vectorization_t.Selection.{
  Planner, projected_column_mask, selected_block_mask, selected_block_skip_list,
  stripe_skip_list_row_count,
}
use postgres_vectorization_t.Stripe.Load.{load_column_data, read_from_file}
use postgres_vectorization_t.Tupmacs.{Tupmacs}
use postgres_vectorization_t.Types.{
  Attribute, ColumnBlockSkipNode, ColumnData, StripeData, StripeFooter, StripeMetadata,
  StripeSkipList,
}

-- `LoadStripeFooter`
unfoldable pub load_stripe_footer : Protobuf → Bytes → StripeMetadata → ℕ → Result StripeFooter
load_stripe_footer protobuf file m column_count = do
  buffer ← read_from_file file (m.file_offset + m.skip_list_length + m.data_length) m.footer_length
  footer ← deserialize_stripe_footer protobuf buffer
  guard (footer.column_count == column_count) column_count_mismatch
  ok footer

module _ (T : Tupmacs) where
  open T use {Datum}

  -- The loop over the columns in `LoadStripeSkipList`, with the rests of the arrays.
  unfoldable pub load_skip_lists :
      Protobuf
      → Bytes
      → ℕ
      → ℕ
      → List ℕ
      → List Attribute
      → ℕ
      → Result (List (List (ColumnBlockSkipNode Datum)))
  load_skip_lists protobuf file block_count zero sizes attrs offset = ok []
  load_skip_lists protobuf file block_count (suc n) (size ∷ sizes) (a ∷ attrs) offset = do
    let rest = load_skip_lists protobuf file block_count n sizes attrs (offset + size)
    buffer ← read_from_file file offset size
    nodes ← deserialize_column_skip_list T protobuf buffer a block_count
    others ← rest
    ok (nodes ∷ others)
  load_skip_lists protobuf file block_count (suc n) _ _ offset = err out_of_bounds

  unfoldable pub load_stripe_skip_list :
      Protobuf
      → Bytes
      → StripeMetadata
      → StripeFooter
      → List Attribute
      → Result (StripeSkipList Datum)
  load_stripe_skip_list protobuf file m footer attrs = do
    first_size ← nth footer.skip_list_size_array 0
    first_buffer ← read_from_file file m.file_offset first_size
    block_count ← deserialize_block_count T protobuf first_buffer
    nodes ←
        load_skip_lists protobuf file block_count (length attrs) footer.skip_list_size_array attrs
          m.file_offset
    ok (record {
      block_skip_node_array = nodes;
      column_count = length attrs;
      block_count = block_count;
    })

  -- The column of one round of the loop in `LoadFilteredStripeData`: null if it is not projected.
  abbrev pub load_projected :
      Libraries
      → Bytes
      → List (ColumnBlockSkipNode Datum)
      → ℕ
      → ℕ
      → ℕ
      → Attribute
      → Bool
      → Result (Option (ColumnData Datum))
  load_projected L file nodes block_count exists_offset value_offset a false = ok none
  load_projected L file nodes block_count exists_offset value_offset a true = do
    column ← load_column_data T L file nodes block_count exists_offset value_offset a
    ok (some column)

  -- The loop over the columns, with the rests of the arrays.
  unfoldable pub load_columns :
      Libraries
      → Bytes
      → ℕ
      → List Bool
      → List (List (ColumnBlockSkipNode Datum))
      → List ℕ
      → List ℕ
      → List Attribute
      → ℕ
      → Result (List (Option (ColumnData Datum)))
  load_columns L file block_count mask nodes exists_sizes value_sizes [] offset = ok []
  load_columns L file block_count (projected ∷ mask) (ns ∷ nodes) (exists_size ∷ exists_sizes)
        (value_size ∷ value_sizes) (a ∷ attrs) offset =
      do
        let rest =
            load_columns L file block_count mask nodes exists_sizes value_sizes attrs
              (offset + exists_size + value_size)
        column ← load_projected L file ns block_count offset (offset + exists_size) a projected
        others ← rest
        ok (column ∷ others)
  load_columns L file block_count _ _ _ _ (a ∷ attrs) offset = err out_of_bounds

  -- `LoadFilteredStripeData`
  unfoldable pub load_filtered_stripe_data :
      Libraries
      → Protobuf
      → Planner Datum
      → Bytes
      → StripeMetadata
      → List Attribute
      → List ℕ
      → Result (StripeData Datum)
  load_filtered_stripe_data L protobuf planner file m attrs projected = do
    footer ← load_stripe_footer protobuf file m (length attrs)
    skips ← load_stripe_skip_list protobuf file m footer attrs
    column_mask ← projected_column_mask (length attrs) projected
    block_mask ← selected_block_mask planner skips projected
    selected ← selected_block_skip_list skips block_mask
    columns ←
        load_columns L file selected.block_count column_mask selected.block_skip_node_array
          footer.exists_size_array footer.value_size_array attrs
          (m.file_offset + m.skip_list_length)
    row_count ← stripe_skip_list_row_count selected
    ok (record { column_count = length attrs; row_count = row_count; column_data_array = columns })
