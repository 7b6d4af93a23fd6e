-- ===== src/Stripe/Whole.antt =====
-- A whole stripe: what `FlushStripe` writes of it, `LoadFilteredStripeData` finds again.
use mathlib.Core.Path.{subst}
use postgres_vectorization_t.Compression.External.{AreLossless, Libraries}
use postgres_vectorization_t.Compression.RoundTrip.{IsPlainType}
use postgres_vectorization_t.Metadata.Footers.{deserialize_stripe_footer}
use postgres_vectorization_t.Metadata.Messages.{Protobuf}
use postgres_vectorization_t.Prelude.{
  All, Bool, Bytes, List, Option, [], ap, arith, false, kept, length, map, refl, suc, sym, take,
  true, uint32, ℕ, ◌+◌, ◌-◌, ◌<◌, ◌^◌, ◌∙◌, ◌∷◌, ◌≡◌,
}
use postgres_vectorization_t.Report.{ok}
use postgres_vectorization_t.Rows.Read.{projects}
use postgres_vectorization_t.Selection.{
  Planner, add_row_counts, selected_block_mask, selected_block_skip_list,
  stripe_skip_list_row_count,
}
use postgres_vectorization_t.Selection.Kept.{
  add_row_counts_lem, length-kept, marked, row_total, selected_block_skip_list_lem,
}
use postgres_vectorization_t.Selection.Total.{selected_block_mask_total}
use postgres_vectorization_t.Stripe.Columns.{
  AreStorableColumns, AreStoredColumns, none_stored_columns, one_stored_columns, store_columns,
}
use postgres_vectorization_t.Stripe.Flush.{place_nodes}
use postgres_vectorization_t.Stripe.Made.{
  made_buffers, stored_footer, stripe_buffers_lem, write_footer,
}
use postgres_vectorization_t.Stripe.Sections.{StripeBuffers, place_columns, stripe_buffers}
use postgres_vectorization_t.Stripe.SkipLists.{
  AreSkipLists, length-skip_lists, no_list, one_list, write_skip_lists,
}
use postgres_vectorization_t.Stripe.Stored.{AreStored, length-placed, none_stored, one_stored}
use postgres_vectorization_t.Tupmacs.{Tupmacs}
use postgres_vectorization_t.Types.{
  Attribute, ColumnBlockData, ColumnBlockSkipNode, ColumnData, CompressionType, StripeData,
  StripeSkipList,
}

module _ (T : Tupmacs) (L : Libraries) (t : CompressionType) where
  open T use {Datum}

  -- The nodes that a selection keeps have the row counts that they had in memory.
  kept-place_nodes :
      (a : Attribute) (exists_offset value_offset count : ℕ) {k : ℕ} (mask : List Bool)
      {blocks : List (ColumnBlockData Datum)} {nodes : List (ColumnBlockSkipNode Datum)}
      {es raws : List Bytes} {vs : List (Bytes × CompressionType)}
      → AreStored T L t a k blocks nodes es raws vs
      → row_total (kept mask (take k (place_nodes T exists_offset value_offset nodes es vs))) count
        ≡ row_total (kept mask (take k nodes)) count
  unfolding place_nodes
  kept-place_nodes a exists_offset value_offset count [] stored = refl
  kept-place_nodes a exists_offset value_offset count (b ∷ mask) none_stored = refl
  kept-place_nodes a exists_offset value_offset count (true ∷ mask)
        (one_stored {node = node} {exists = exists} {value = value} stored small counted rest) =
      kept-place_nodes a (exists_offset + length exists) (value_offset + length value.0)
        (uint32 (count + uint32 node.row_count)) mask rest
  kept-place_nodes a exists_offset value_offset count (false ∷ mask)
        (one_stored {exists = exists} {value = value} stored small counted rest) =
      kept-place_nodes a (exists_offset + length exists) (value_offset + length value.0) count mask
        rest

  -- The buffers whose sizes the footer keeps fit the `uint32` that `ReadFromFile` narrows to.
  pub record IsShort (b : StripeBuffers T) : Type 0 where
    pub skip_lists_short : All (λ (buffer : Bytes). length buffer < 2 ^ 32) b.skip_list_buffer_array
    pub footer_short : length b.stripe_footer_buffer < 2 ^ 32

  module _ (protobuf : Protobuf) where
    -- What is made of a stripe whose columns can be stored, and how.
    pub record IsMade (attrs : List Attribute) (stripe_data : StripeData Datum)
        (skips : StripeSkipList Datum) : Type 0 where
      pub exists : List (List Bytes)
      pub raw : List (List Bytes)
      pub values : List (List (Bytes × CompressionType))
      pub buffers : List Bytes
      pub footer_buffer : Bytes
      pub stored :
          AreStoredColumns T L t skips.block_count attrs stripe_data.column_data_array
            skips.block_skip_node_array exists raw values
      pub lists :
          AreSkipLists T L t protobuf skips.block_count attrs
            (place_columns T skips.block_skip_node_array exists values)
            buffers
      pub runs :
          stripe_buffers T protobuf L t attrs stripe_data skips
          ≡ ok (made_buffers T L t protobuf skips exists values buffers footer_buffer)
      pub footer_read :
          All (λ (b : Bytes). length b < 2 ^ 32) buffers
          → deserialize_stripe_footer protobuf footer_buffer
            ≡ ok (stored_footer T L t (length attrs) buffers exists values)

    pub stripe_buffers_total :
        (size : ℕ) (attrs : List Attribute) (stripe_data : StripeData Datum)
        (skips : StripeSkipList Datum)
        → AreLossless L
        → IsPlainType t
        → size < 2 ^ 32 - 8
        → length attrs < 2 ^ 32
        → skips.column_count ≡ length attrs
        → skips.block_count < 2 ^ 31
        → AreStorableColumns T L t size skips.block_count attrs stripe_data.column_data_array
            skips.block_skip_node_array
        → IsMade attrs stripe_data skips
    stripe_buffers_total size attrs stripe_data skips lossless plain small width count few
          storable =
        let (exists, raw, values, stored) =
          store_columns T L t size lossless plain small storable in
        let (buffers, lists) = write_skip_lists T L t protobuf lossless plain few stored in
        let total = length-skip_lists T L t protobuf lists in
        let (footer_buffer, written, read) =
          write_footer T L t protobuf buffers stored few width total in
        record {
          exists = exists;
          raw = raw;
          values = values;
          buffers = buffers;
          footer_buffer = footer_buffer;
          stored = stored;
          lists = lists;
          runs =
              stripe_buffers_lem T L t protobuf attrs stripe_data skips count stored lists written;
          footer_read = read;
        }

    pub selected_total :
        (planner : Planner Datum) (projected : List ℕ) {k : ℕ} (column_count : ℕ)
        (nodes : List (List (ColumnBlockSkipNode Datum)))
        → ((j : ℕ) → projects projected j ≡ true → j < column_count)
        → length nodes ≡ column_count
        → All (λ (ns : List (ColumnBlockSkipNode Datum)). length ns ≡ k) nodes
        → k < 2 ^ 31
        → (mask : List Bool) × (selected_block_mask planner
              (record {
                block_skip_node_array = nodes;
                column_count = column_count;
                block_count = k;
              })
              projected
            ≡ ok mask)
          × (length mask ≡ k)
          × (selected_block_skip_list
                (record {
                  block_skip_node_array = nodes;
                  column_count = column_count;
                  block_count = k;
                })
                mask
              ≡ ok (record {
                block_skip_node_array = map (kept mask) nodes;
                column_count = column_count;
                block_count = marked mask;
              }))
    selected_total planner projected {k} column_count nodes known total sizes few =
        let skips : StripeSkipList Datum = record {
          block_skip_node_array = nodes;
          column_count = column_count;
          block_count = k;
        } in
        let (mask, runs, size) =
          selected_block_mask_total planner skips projected (λ j e. omega (arith, known j e, total))
            sizes in
        (
          mask,
          runs,
          size,
          selected_block_skip_list_lem skips mask (sym size) (omega (arith, size, few)) (sym total)
              (subst (λ n. All (λ (ns : List (ColumnBlockSkipNode Datum)). length ns ≡ n) nodes)
                (sym size) sizes),
        )

    pub taken_sizes :
        {k : ℕ} {attrs : List Attribute} {nodes : List (List (ColumnBlockSkipNode Datum))}
        {buffers : List Bytes}
        → AreSkipLists T L t protobuf k attrs nodes buffers
        → All (λ (ns : List (ColumnBlockSkipNode Datum)). length ns ≡ k) (map (take k) nodes)
    taken_sizes no_list = tt
    taken_sizes (one_list written counted read total others) = (total, taken_sizes others)

    pub taken_count :
        {k : ℕ} {attrs : List Attribute} {nodes : List (List (ColumnBlockSkipNode Datum))}
        {buffers : List Bytes}
        → AreSkipLists T L t protobuf k attrs nodes buffers
        → length (map (take k) nodes) ≡ length attrs
    taken_count no_list = refl
    taken_count (one_list written counted read total others) = ap suc (taken_count others)

    -- The number of rows in the blocks that a mask keeps, by the first column's nodes.
    abbrev pub kept_rows : ℕ → List Bool → List (List (ColumnBlockSkipNode Datum)) → ℕ
    kept_rows k mask [] = 0
    kept_rows k mask (ns ∷ nodes) = row_total (kept mask (take k ns)) 0

    pub kept_rows_lem :
        {k : ℕ} {attrs : List Attribute} {columns : List (Option (ColumnData Datum))}
        {nodes : List (List (ColumnBlockSkipNode Datum))} {exists raw : List (List Bytes)}
        {values : List (List (Bytes × CompressionType))} (mask : List Bool)
        → AreStoredColumns T L t k attrs columns nodes exists raw values
        → 0 < length attrs
        → length mask ≡ k
        → stripe_skip_list_row_count (record {
          block_skip_node_array =
              map (kept mask) (map (take k) (place_columns T nodes exists values));
          column_count = length attrs;
          block_count = marked mask;
        })
          ≡ ok (kept_rows k mask nodes)
    unfolding stripe_skip_list_row_count place_columns
    kept_rows_lem mask none_stored_columns some_column size = absurd (omega (arith, some_column))
    kept_rows_lem {k} mask
          (one_stored_columns {a = a} {ns = ns} {es = es} {vs = vs} stored limits others)
          some_column size =
        let placed = take k (place_nodes T 0 0 ns es vs) in
        let total : length placed ≡ length mask = length-placed T L t a 0 0 stored ∙ sym size in
        subst (λ n. add_row_counts n (kept mask placed) 0 ≡ ok (row_total (kept mask placed) 0))
          (length-kept mask placed total) (add_row_counts_lem (kept mask placed) 0)
        ∙ ap ok (kept-place_nodes a 0 0 0 mask stored)
