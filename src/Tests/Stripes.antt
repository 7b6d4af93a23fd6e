-- ===== src/Tests/Stripes.antt =====
-- The theorems on the storage of a stripe at concrete inputs.
use mathlib.Core.Path.{subst}
use postgres_vectorization_t.Bools.{serialize_bool_array}
use postgres_vectorization_t.Compression.{compress_block}
use postgres_vectorization_t.Datums.{serialize_datum_array, serialize_loop}
use postgres_vectorization_t.Metadata.Footers.{serialize_stripe_footer}
use postgres_vectorization_t.Metadata.SkipList.{serialize_column_skip_list, skip_node_message}
use postgres_vectorization_t.Prelude.{
  Bytes, List, [], arith, concat, false, length, none, refl, some, true, uint32, ℕ, ◌++◌, ◌+◌, ◌<◌,
  ◌^◌, ◌∷◌, ◌≡◌,
}
use postgres_vectorization_t.Report.{WhenOk, ok, ok_injective}
use postgres_vectorization_t.Rows.Read.{projects}
use postgres_vectorization_t.Selection.{Planner}
use postgres_vectorization_t.Stripe.Blocks.{IsStoredBlock, read_blocks, store_block}
use postgres_vectorization_t.Stripe.Columns.{AreStorableColumns, none_storable, one_storable}
use postgres_vectorization_t.Stripe.Flush.{
  column_bytes, compress_buffers, create_exists_buffers, create_value_buffers, flush_column,
  place_nodes,
}
use postgres_vectorization_t.Stripe.Load.{load_column_data}
use postgres_vectorization_t.Stripe.Reload.{IsReloaded, load_filtered_stripe_data-stripe_buffers}
use postgres_vectorization_t.Stripe.RoundTrip.{load_column_data-flush_column}
use postgres_vectorization_t.Stripe.Sections.{
  StripeBuffers, add_columns, create_stripe_footer, stripe_buffers, stripe_metadata, stripe_writes,
}
use postgres_vectorization_t.Stripe.Stored.{AreStorable, no_block, one_block}
use postgres_vectorization_t.Stripe.Whole.{IsShort}
use postgres_vectorization_t.Table.Flushed.{advanced, load_filtered_stripe_data-flush_stripe}
use postgres_vectorization_t.Table.Io.{World}
use postgres_vectorization_t.Table.Write.{TableWriteState, flush_stripe}
use postgres_vectorization_t.Tests.Codecs.{codecs}
use postgres_vectorization_t.Tests.Instances.{
  copiers, copiers-AreLossless, int4_column, macros, seven,
}
use postgres_vectorization_t.Tests.Pair.{pair_IsBlock, pair_block, pair_column, pair_node}
use postgres_vectorization_t.Types.{
  ColumnBlockSkipNode, CompressionType, StripeData, StripeMetadata, StripeSkipList,
  compression_none, compression_pg_lz,
}

pair_raw_short :
    (raw : Bytes)
    → serialize_datum_array macros (seven ∷ [] ∷ []) (true ∷ false ∷ []) 2 int4_column ≡ ok raw
    → length raw < 2 ^ 31
unfolding serialize_datum_array serialize_loop
pair_raw_short raw e =
    let same : seven ≡ raw = cc in subst (λ b. length b < 2 ^ 31) same (omega arith)

store_block_example :
    (exists : Bytes) × (raw : Bytes) × (value : Bytes × CompressionType) × IsStoredBlock macros
      copiers compression_pg_lz int4_column 2 pair_block exists raw value
store_block_example =
    store_block macros copiers compression_pg_lz int4_column 2 2 pair_block copiers-AreLossless tt
      pair_IsBlock (omega arith) (omega arith) pair_raw_short

pair_short :
    (raw : Bytes)
    → serialize_datum_array macros (seven ∷ [] ∷ []) (true ∷ false ∷ []) (uint32 2) int4_column
      ≡ ok raw
    → (length raw < 2 ^ 31)
      × ((value : Bytes × CompressionType)
          → compress_block copiers compression_none raw ≡ ok value
          → length value.0 < 2 ^ 32)
unfolding compress_block
pair_short raw e =
    let short = pair_raw_short raw e in
    (
      short,
      λ value c.
          let same : (raw, compression_none) ≡ value = ok_injective c in
          subst (λ (v : Bytes × CompressionType). length v.0 < 2 ^ 32) same (omega (arith, short)),
    )

pair_storable :
    AreStorable macros copiers compression_none int4_column 2 1 (pair_block ∷ []) (pair_node ∷ [])
pair_storable = one_block pair_IsBlock (omega arith) pair_short no_block

load_column_data-flush_column_example :
    (es : List Bytes) × (vs : List (Bytes × CompressionType)) × (placed : List
      (ColumnBlockSkipNode Bytes))
    × (flush_column macros copiers compression_none int4_column 1 pair_column (pair_node ∷ [])
        ≡ ok (es, vs, placed))
    × (load_column_data macros copiers
          ((1 ∷ 2 ∷ []) ++ (column_bytes macros es vs ++ (9 ∷ [])))
          placed
          1
          2
          (2 + length (concat es))
          int4_column
        ≡ ok
            (record { block_data_array = read_blocks macros 1 (pair_block ∷ []) (pair_node ∷ []) }))
load_column_data-flush_column_example =
    load_column_data-flush_column macros copiers compression_none int4_column 2 1 pair_column
      (pair_node ∷ []) (1 ∷ 2 ∷ []) (9 ∷ []) copiers-AreLossless tt (omega arith) pair_storable

abbrev pair_stripe : StripeData Bytes
pair_stripe = record { column_count = 1; row_count = 2; column_data_array = some pair_column ∷ [] }

abbrev one_block_skips : StripeSkipList Bytes
one_block_skips = record {
  block_skip_node_array = (pair_node ∷ []) ∷ [];
  column_count = 1;
  block_count = 1;
}

pair_columns_storable :
    AreStorableColumns macros copiers compression_none 2 1
      (int4_column ∷ [])
      (some pair_column ∷ [])
      ((pair_node ∷ []) ∷ [])
pair_columns_storable = one_storable pair_storable ((refl, refl), tt) none_storable

only_first_column : (j : ℕ) → projects (1 ∷ []) j ≡ true → j < 1
only_first_column j e = ground arith

-- A planner that never refutes.
abbrev pub no_planner : Planner Bytes
no_planner = record {
  has_comparison_function = λ varattno. true;
  predicate_refuted_by = λ varattno low high. false;
}

pair_stripe_made : WhenOk (IsShort macros copiers compression_none) (
    stripe_buffers macros codecs copiers compression_none
      (int4_column ∷ [])
      pair_stripe
      one_block_skips)
unfolding stripe_buffers create_stripe_footer add_columns serialize_column_skip_list
    skip_node_message serialize_datum_array serialize_loop serialize_bool_array
    serialize_stripe_footer create_exists_buffers create_value_buffers compress_buffers
    compress_block place_nodes
pair_stripe_made = record { skip_lists_short = (omega arith, tt); footer_short = omega arith }

pair_stripe-IsShort :
    (b : StripeBuffers macros)
    → stripe_buffers macros codecs copiers compression_none
        (int4_column ∷ [])
        pair_stripe
        one_block_skips
      ≡ ok b
    → IsShort macros copiers compression_none b
pair_stripe-IsShort b e =
    subst (WhenOk (IsShort macros copiers compression_none)) e pair_stripe_made

load_filtered_stripe_data-stripe_buffers_example :
    (b : StripeBuffers macros) × (m : StripeMetadata) × (stripe_buffers macros codecs copiers
        compression_none
        (int4_column ∷ [])
        pair_stripe
        one_block_skips
      ≡ ok b)
    × (stripe_metadata macros 1 2 b ≡ ok m)
    × (m.skip_list_length + m.data_length + m.footer_length
        ≡ length (concat (stripe_writes macros b)))
    × IsReloaded macros copiers compression_none codecs no_planner
        (int4_column ∷ [])
        (1 ∷ [])
        pair_stripe
        one_block_skips
        b
        ((1 ∷ 2 ∷ []) ++ (concat (stripe_writes macros b) ++ (9 ∷ [])))
        m
load_filtered_stripe_data-stripe_buffers_example =
    load_filtered_stripe_data-stripe_buffers macros copiers compression_none codecs no_planner
      (int4_column ∷ []) (1 ∷ []) 2 pair_stripe one_block_skips (1 ∷ 2 ∷ []) (9 ∷ [])
      copiers-AreLossless tt (omega arith) (omega arith) (omega arith) refl (omega arith)
      pair_columns_storable only_first_column pair_stripe-IsShort

-- The stripe in a writer at the end of a table file of two bytes.
abbrev full_state : TableWriteState macros
full_state = record {
  table_footer = record { stripe_metadata_list = []; block_row_count = 1000 };
  compression_type = compression_none;
  stripe_max_row_count = 2;
  tuple_descriptor = int4_column ∷ [];
  current_file_offset = 2;
  stripe_data = some pair_stripe;
  stripe_skip_list = some one_block_skips;
}

abbrev two_bytes_world : World
two_bytes_world = record {
  table_file = 1 ∷ 2 ∷ [];
  position = 2;
  footer_file = none;
  temp_footer_file = [];
  outcomes = [];
}

load_filtered_stripe_data-flush_stripe_example :
    (m : StripeMetadata) × (after : World) × (b : StripeBuffers macros) × (flush_stripe macros
        codecs copiers full_state two_bytes_world
      ≡ (ok (m, advanced macros copiers codecs full_state m), after))
    × (after.table_file ≡ (1 ∷ 2 ∷ []) ++ concat (stripe_writes macros b))
    × (m.skip_list_length + m.data_length + m.footer_length
        ≡ length (concat (stripe_writes macros b)))
    × IsReloaded macros copiers compression_none codecs no_planner
        (int4_column ∷ [])
        (1 ∷ [])
        pair_stripe
        one_block_skips
        b
        after.table_file
        m
load_filtered_stripe_data-flush_stripe_example =
    load_filtered_stripe_data-flush_stripe macros copiers codecs no_planner (1 ∷ []) 2 full_state
      two_bytes_world pair_stripe one_block_skips refl refl refl refl refl copiers-AreLossless tt
      (omega arith) (omega arith) (omega arith) refl (omega arith) pair_columns_storable
      only_first_column pair_stripe-IsShort
