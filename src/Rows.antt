-- ===== src/Rows.antt =====
-- Rows in memory: the stripe buffers that cstore_writer.c fills (`CreateEmptyStripeData`,
-- `CreateEmptyStripeSkipList` and the first part of `CStoreWriteRow`), and `ReadStripeNextRow` of
-- cstore_reader.c.
pub mod Counts
pub mod Holds
pub mod Write
pub mod Read
pub mod RoundTrip
pub mod Fill
pub mod Table
pub mod Shown
pub mod Limits
pub mod Limited
use postgres_vectorization_t.Datums.{datum_copy}
use postgres_vectorization_t.Prelude.{
  Bool, List, Option, [], false, length, ltb, none, replicate, set, some, true, uint32, ℕ, ◌%◌,
  ◌&&◌, ◌+◌, ◌-◌, ◌/◌, ◌^◌, ◌∷◌,
}
use postgres_vectorization_t.Report.{
  Result, err, guard, nth, of_option, ok, out_of_bounds, ◌>>=◌, ◌>>◌,
}
use postgres_vectorization_t.Tupmacs.{Tupmacs}
use postgres_vectorization_t.Types.{
  Attribute, ColumnBlockData, ColumnBlockSkipNode, ColumnData, StripeData, StripeSkipList,
  compression_none,
}

module _ (T : Tupmacs) where
  open T use {Datum, zero_datum}

  abbrev pub empty_node : ColumnBlockSkipNode Datum
  empty_node = record {
    has_min_max = false;
    minimum_value = zero_datum;
    maximum_value = zero_datum;
    row_count = 0;
    value_block_offset = 0;
    value_length = 0;
    exists_block_offset = 0;
    exists_length = 0;
    value_compression_type = compression_none;
  }

  abbrev pub empty_block : ℕ → ColumnBlockData Datum
  empty_block block_row_count = record {
    exists_array = replicate block_row_count false;
    value_array = replicate block_row_count zero_datum;
  }

  abbrev pub max_block_count : ℕ → ℕ → ℕ
  max_block_count stripe_max_row_count block_row_count = stripe_max_row_count / block_row_count + 1

  -- `CreateEmptyStripeData`
  unfoldable pub create_empty_stripe_data : ℕ → ℕ → ℕ → StripeData Datum
  create_empty_stripe_data stripe_max_row_count block_row_count column_count = record {
    column_count = column_count;
    row_count = 0;
    column_data_array = replicate column_count (
        some (record {
          block_data_array =
              replicate (max_block_count stripe_max_row_count block_row_count)
                (empty_block block_row_count);
        }));
  }

  -- `CreateEmptyStripeSkipList`
  unfoldable pub create_empty_stripe_skip_list : ℕ → ℕ → ℕ → StripeSkipList Datum
  create_empty_stripe_skip_list stripe_max_row_count block_row_count column_count = record {
    block_skip_node_array =
        replicate column_count
          (replicate (max_block_count stripe_max_row_count block_row_count) empty_node);
    column_count = column_count;
    block_count = 0;
  }

  -- The entry of one block: the exists flag, and the value unless the column is null.
  unfoldable pub write_cell :
      Attribute → Datum → Bool → ℕ → ColumnBlockData Datum → Result (ColumnBlockData Datum)
  write_cell a value true r block = do
    guard (ltb r (length block.exists_array)) out_of_bounds
    ok (record block { exists_array = set block.exists_array r false })
  write_cell a value false r block = do
    guard (ltb r (length block.exists_array) && ltb r (length block.value_array)) out_of_bounds
    ok (record block {
      exists_array = set block.exists_array r true;
      value_array = set block.value_array r (datum_copy T a value);
    })

  -- One round of the loop over the columns in `CStoreWriteRow`; `UpdateBlockSkipNodeMinMax` is
  -- commented out there, so the node's minimum and maximum stay as they are.
  unfoldable pub write_column :
      Attribute
      → Datum
      → Bool
      → ℕ
      → ℕ
      → ColumnData Datum
      → List (ColumnBlockSkipNode Datum)
      → Result (ColumnData Datum × List (ColumnBlockSkipNode Datum))
  unfolding write_cell
  write_column a value is_null b r column nodes = do
    block ← nth column.block_data_array b
    node ← nth nodes b
    written ← write_cell a value is_null r block
    ok (
      record { block_data_array = set column.block_data_array b written },
      set nodes b (record node { row_count = node.row_count + 1 }),
    )

  -- The loop over the columns, from the tuple descriptor and the rests of the arrays.
  unfoldable pub write_columns :
      ℕ
      → ℕ
      → List Attribute
      → List Datum
      → List Bool
      → List (Option (ColumnData Datum))
      → List (List (ColumnBlockSkipNode Datum))
      → Result (List (Option (ColumnData Datum)) × List (List (ColumnBlockSkipNode Datum)))
  unfolding write_column
  write_columns b r [] values nulls columns nodes = ok (columns, nodes)
  write_columns b r (a ∷ attrs) (v ∷ values) (is_null ∷ nulls) (some column ∷ columns)
        (ns ∷ nodes) =
      do
        let rest = write_columns b r attrs values nulls columns nodes
        written ← write_column a v is_null b r column ns
        others ← rest
        ok (some written.0 ∷ others.0, written.1 ∷ others.1)
  write_columns b r (a ∷ attrs) _ _ _ _ = err out_of_bounds

  -- The buffers of the stripe, created if `stripeData` is null.
  abbrev pub existing_or_new :
      ℕ
      → ℕ
      → ℕ
      → Option (StripeData Datum)
      → Option (StripeSkipList Datum)
      → Result (StripeData Datum × StripeSkipList Datum)
  existing_or_new stripe_max_row_count brc column_count none skip_list = ok (
    create_empty_stripe_data stripe_max_row_count brc column_count,
    create_empty_stripe_skip_list stripe_max_row_count brc column_count,
  )
  existing_or_new stripe_max_row_count brc column_count (some stripe) none = err out_of_bounds
  existing_or_new stripe_max_row_count brc column_count (some stripe) (some skips) =
      ok (stripe, skips)

  -- The first part of `CStoreWriteRow`: create the buffers if there are none, write the row to
  -- block row count / block size, and count it. The block row count is narrowed to a `uint32`.
  unfoldable pub fill_row :
      ℕ
      → ℕ
      → List Attribute
      → Option (StripeData Datum)
      → Option (StripeSkipList Datum)
      → List Datum
      → List Bool
      → Result (StripeData Datum × StripeSkipList Datum)
  unfolding write_columns
  fill_row stripe_max_row_count block_row_count attrs stripe_data stripe_skip_list values nulls = do
    let brc = uint32 block_row_count
    guard (ltb 0 brc) out_of_bounds
    buffers ← existing_or_new stripe_max_row_count brc (length attrs) stripe_data stripe_skip_list
    let b = buffers.0.row_count / brc
    let r = buffers.0.row_count % brc
    written ←
        write_columns b r attrs values nulls buffers.0.column_data_array
          buffers.1.block_skip_node_array
    ok (
      record (buffers.0) {
        column_data_array = written.0;
        row_count = uint32 (buffers.0.row_count + 1);
      },
      record (buffers.1) { block_skip_node_array = written.1; block_count = b + 1 },
    )

  -- The assignments to `columnValues` and `columnNulls` where a value exists.
  unfoldable pub read_value :
      Bool
      → ℕ
      → ℕ
      → ColumnBlockData Datum
      → List Datum × List Bool
      → Result (List Datum × List Bool)
  read_value false index r block row = ok row
  read_value true index r block (values, nulls) = do
    value ← nth block.value_array r
    guard (ltb index (length values) && ltb index (length nulls)) out_of_bounds
    ok (set values index value, set nulls index false)

  -- One round of the loop over the projected columns.
  unfoldable pub read_column :
      ℕ
      → ℕ
      → ℕ
      → List (Option (ColumnData Datum))
      → List Datum × List Bool
      → Result (List Datum × List Bool)
  unfolding read_value
  read_column index b r columns row = do
    pointer ← nth columns index
    column ← of_option pointer out_of_bounds
    block ← nth column.block_data_array b
    exists ← nth block.exists_array r
    read_value exists index r block row

  -- The loop over the projected columns, each a `varattno`.
  unfoldable pub read_columns :
      List ℕ
      → ℕ
      → ℕ
      → List (Option (ColumnData Datum))
      → List Datum × List Bool
      → Result (List Datum × List Bool)
  unfolding read_column
  read_columns [] b r columns row = ok row
  read_columns (varattno ∷ projected) b r columns row = do
    row' ← read_column (uint32 (varattno + 2 ^ 32 - 1)) b r columns row
    read_columns projected b r columns row'

  -- `ReadStripeNextRow`: all columns null, then the projected ones that exist. The value array
  -- keeps what the caller had in it elsewhere.
  unfoldable pub read_stripe_next_row :
      StripeData Datum → List ℕ → ℕ → ℕ → List Datum → Result (List Datum × List Bool)
  unfolding read_columns
  read_stripe_next_row stripe_data projected b r values =
      read_columns projected b r stripe_data.column_data_array
        (values, replicate stripe_data.column_count true)
