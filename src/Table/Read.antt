-- ===== src/Table/Read.antt =====
-- Reading a table (cstore_reader.c): `CStoreBeginRead` and `CStoreReadNextRow`. The file is what
-- the reader has open.
use postgres_vectorization_t.Compression.External.{Libraries}
use postgres_vectorization_t.Metadata.Messages.{Protobuf}
use postgres_vectorization_t.Prelude.{
  Bool, Bytes, List, Option, [], drop, if◌then◌else◌, ltb, none, some, ℕ, ◌%◌, ◌+◌, ◌/◌, ◌==◌, ◌∷◌,
}
use postgres_vectorization_t.Report.{
  Result, could_not_open, guard, of_option, ok, out_of_bounds, ◌>>=◌, ◌>>◌,
}
use postgres_vectorization_t.Rows.{read_stripe_next_row}
use postgres_vectorization_t.Selection.{Planner}
use postgres_vectorization_t.Stripe.Scan.{load_filtered_stripe_data}
use postgres_vectorization_t.Table.ReadFooter.{cstore_read_footer}
use postgres_vectorization_t.Tupmacs.{Tupmacs}
use postgres_vectorization_t.Types.{Attribute, StripeData, StripeMetadata, TableFooter}

module _ (T : Tupmacs) where
  open T use {Datum}

  pub record TableReadState : Type 0 where
    pub table_file : Bytes
    pub table_footer : TableFooter
    pub projected_column_list : List ℕ
    pub tuple_descriptor : List Attribute
    pub stripe_data : Option (StripeData Datum)
    pub read_stripe_count : ℕ
    pub stripe_read_row_count : ℕ

  -- A row, with the values that the caller's array has for the columns that are null.
  abbrev pub Row : Type 0
  Row = List Datum × List Bool

  module _ (L : Libraries) (protobuf : Protobuf) (planner : Planner Datum) where
    -- `CStoreBeginRead` of the content of the two files; there is none of a missing footer file.
    unfoldable pub cstore_begin_read :
        Bytes → Option Bytes → List Attribute → List ℕ → Result TableReadState
    cstore_begin_read table_file footer_file attrs projected = do
      footer_content ← of_option footer_file could_not_open
      table_footer ← cstore_read_footer protobuf footer_content
      ok (record {
        table_file = table_file;
        table_footer = table_footer;
        projected_column_list = projected;
        tuple_descriptor = attrs;
        stripe_data = none;
        read_stripe_count = 0;
        stripe_read_row_count = 0;
      })

    -- The loop that loads the next stripe with rows, over the metadata of the stripes that are
    -- left: the stripe, and the count of stripes read by then.
    unfoldable pub load_next_stripe :
        Bytes
        → List Attribute
        → List ℕ
        → List StripeMetadata
        → ℕ
        → Result (Option (StripeData Datum) × ℕ)
    load_next_stripe file attrs projected [] count = ok (none, count)
    load_next_stripe file attrs projected (m ∷ stripes) count = do
      let rest = load_next_stripe file attrs projected stripes (count + 1)
      stripe_data ← load_filtered_stripe_data T L protobuf planner file m attrs projected
      if stripe_data.row_count == 0 then rest else ok (some stripe_data, count + 1)

    -- The state after the loop: the count of rows read starts again with a new stripe.
    abbrev pub with_stripe : TableReadState → Option (StripeData Datum) × ℕ → TableReadState
    with_stripe state (none, count) = record state { stripe_data = none; read_stripe_count = count }
    with_stripe state (some stripe_data, count) = record state {
      stripe_data = some stripe_data;
      read_stripe_count = count;
      stripe_read_row_count = 0;
    }

    -- The state with a stripe in memory, or with all stripes read.
    abbrev pub next_stripe : TableReadState → Option (StripeData Datum) → Result TableReadState
    next_stripe state (some stripe_data) = ok state
    next_stripe state none = do
      loaded ←
          load_next_stripe state.table_file state.tuple_descriptor state.projected_column_list
            (drop state.read_stripe_count state.table_footer.stripe_metadata_list)
            state.read_stripe_count
      ok (with_stripe state loaded)

    -- The stripe that is kept after a row: none if that was its last one.
    abbrev pub unfinished : StripeData Datum → ℕ → Option (StripeData Datum)
    unfinished stripe_data read_count =
        if read_count == stripe_data.row_count then none else some stripe_data

    -- The row at the place of the state in the stripe in memory. Block and index are below the
    -- stripe's row count, a `uint32`, so that the narrowing of the two to a `uint32` is left out.
    abbrev pub row_of_stripe :
        TableReadState
        → List Datum
        → Option (StripeData Datum)
        → Result (Option Row × TableReadState)
    row_of_stripe state values none = ok (none, state)
    row_of_stripe state values (some stripe_data) = do
      let size = state.table_footer.block_row_count
      guard (ltb 0 size) out_of_bounds
      row ←
          read_stripe_next_row T stripe_data state.projected_column_list
            (state.stripe_read_row_count / size) (state.stripe_read_row_count % size) values
      let read_count = state.stripe_read_row_count + 1
      ok (
        some row,
        record state {
          stripe_data = unfinished stripe_data read_count;
          stripe_read_row_count = read_count;
        },
      )

    -- `CStoreReadNextRow`: `none` when there are no more rows, which the code returns as false.
    unfoldable pub cstore_read_next_row :
        TableReadState → List Datum → Result (Option Row × TableReadState)
    cstore_read_next_row state values = do
      loaded ← next_stripe state state.stripe_data
      row_of_stripe loaded values loaded.stripe_data
