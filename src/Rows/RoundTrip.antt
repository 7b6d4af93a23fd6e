-- ===== src/Rows/RoundTrip.antt =====
-- Rows written to the buffers of a stripe are the rows read from them.
use mathlib.Core.Path.{subst}
use postgres_vectorization_t.Datums.RoundTrip.{ArePresent}
use postgres_vectorization_t.Prelude.{
  Bool, List, Option, [], arith, false, get_elem?, length, length-append, length-replicate, none,
  refl, replicate, some, suc, sym, zero, ℕ, ◌%◌, ◌++◌, ◌+◌, ◌-◌, ◌/◌, ◌<◌, ◌∙◌, ◌∷◌, ◌≡◌,
}
use postgres_vectorization_t.Report.{first, ok}
use postgres_vectorization_t.Rows.{
  empty_block, empty_node, max_block_count, write_column, write_columns,
}
use postgres_vectorization_t.Rows.Counts.{block_rows-zero}
use postgres_vectorization_t.Rows.Holds.{Cell, ColumnHolds, IsBlock, IsCellOf, IsCounted, cell_of}
use postgres_vectorization_t.Rows.Write.{write_column_lem}
use postgres_vectorization_t.Tupmacs.{Tupmacs}
use postgres_vectorization_t.Types.{
  Attribute, ColumnBlockSkipNode, ColumnData, StripeData, StripeSkipList,
}

module _ (T : Tupmacs) where
  open T use {Datum, zero_datum, IsValueOf}

  -- A row to write: a value and a null flag for each column, the value of the column's type
  -- unless it is null.
  pub data IsRow : List Attribute → List Datum → List Bool → Type 0 where
    no_cell : IsRow [] [] []
    one_cell :
        {a : Attribute} {v : Datum} {is_null : Bool} {attrs : List Attribute} {values : List Datum}
        {nulls : List Bool}
        → IsCellOf T a (cell_of T v is_null)
        → IsRow attrs values nulls
        → IsRow (a ∷ attrs) (v ∷ values) (is_null ∷ nulls)

  -- The cells of each column after one more row.
  abbrev pub append_row : List (List (Cell T)) → List Datum → List Bool → List (List (Cell T))
  append_row (cells ∷ table) (v ∷ values) (is_null ∷ nulls) =
      (cells ++ cell_of T v is_null ∷ []) ∷ append_row table values nulls
  append_row table _ _ = table

  -- Each column's buffers hold `n` cells, those of the table.
  pub data ColumnsHold (size count n : ℕ)
      : List Attribute
        → List (List (Cell T))
        → List (Option (ColumnData Datum))
        → List (List (ColumnBlockSkipNode Datum))
        → Type 0 where
    no_column : ColumnsHold size count n [] [] [] []
    one_column :
        {a : Attribute} {cells : List (Cell T)} {column : ColumnData Datum}
        {ns : List (ColumnBlockSkipNode Datum)} {attrs : List Attribute}
        {table : List (List (Cell T))} {columns : List (Option (ColumnData Datum))}
        {nodes : List (List (ColumnBlockSkipNode Datum))}
        → length cells ≡ n
        → ColumnHolds T a size count cells column ns
        → ColumnsHold size count n attrs table columns nodes
        → ColumnsHold size count n (a ∷ attrs) (cells ∷ table) (some column ∷ columns) (ns ∷ nodes)

  pub write_columns_lem :
      (size count n : ℕ) {attrs : List Attribute} {table : List (List (Cell T))}
      {columns : List (Option (ColumnData Datum))} {nodes : List (List (ColumnBlockSkipNode Datum))}
      {values : List Datum} {nulls : List Bool}
      → 0 < size
      → n / size < count
      → ColumnsHold size count n attrs table columns nodes
      → IsRow attrs values nulls
      → (r : List (Option (ColumnData Datum)) × List (List (ColumnBlockSkipNode Datum)))
        × (write_columns T (n / size) (n % size) attrs values nulls columns nodes ≡ ok r)
        × ColumnsHold size count (n + 1) attrs (append_row table values nulls) r.0 r.1
  unfolding write_columns
  write_columns_lem size count n positive room no_column no_cell = (([], []), refl, no_column)
  write_columns_lem size count n positive room
        (one_column {a = a} {cells = cells} {column = column} {ns = ns} total h others)
        (one_cell {v = v} {is_null = is_null} fits row) =
      let (first, runs, holds) =
        write_column_lem T a size count positive v is_null cells column ns
          (subst (λ k. k / size < count) (sym total) room) h fits in
      let (rest, go, more) = write_columns_lem size count n positive room others row in
      let runs_here : write_column T a v is_null (n / size) (n % size) column ns ≡ ok first =
        subst (λ k. write_column T a v is_null (k / size) (k % size) column ns ≡ ok first) total
          runs in
      let longer : length (cells ++ cell_of T v is_null ∷ []) ≡ n + 1 =
        length-append cells (cell_of T v is_null ∷ []) ∙ omega (arith, total) in
      ((some first.0 ∷ rest.0, first.1 ∷ rest.1), rw (runs_here, go), one_column longer holds more)

  -- The buffers of the stripe hold a table: `n` rows, and the blocks that these use.
  pub record StripeHolds (stripe_max size : ℕ) (attrs : List Attribute)
      (table : List (List (Cell T))) (stripe : StripeData Datum) (skips : StripeSkipList Datum)
      : Type 0 where
    pub columns :
        ColumnsHold size
          (max_block_count T stripe_max size)
          stripe.row_count
          attrs
          table
          stripe.column_data_array
          skips.block_skip_node_array
    pub column_total : stripe.column_count ≡ length attrs
    pub skip_total : skips.column_count ≡ length attrs
    pub blocks_used : skips.block_count ≡ (stripe.row_count + size - 1) / size

  -- The same of the two pointers of the write state, null before the stripe's first row.
  abbrev pub BuffersHold :
      ℕ
      → ℕ
      → List Attribute
      → List (List (Cell T))
      → Option (StripeData Datum)
      → Option (StripeSkipList Datum)
      → Type 0
  BuffersHold stripe_max size attrs table none skips = table ≡ replicate (length attrs) []
  BuffersHold stripe_max size attrs table (some stripe) none = ⊥
  BuffersHold stripe_max size attrs table (some stripe) (some skips) =
      StripeHolds stripe_max size attrs table stripe skips

  replicate_elem :
      {A : Type 0} (n i : ℕ) (x : A) {y : A} → get_elem? (replicate n x) i ≡ some y → y ≡ x
  replicate_elem zero i x e = cc
  replicate_elem (suc n) zero x e = cc
  replicate_elem (suc n) (suc i) x e = replicate_elem n i x e

  replicate-ArePresent :
      (a : Attribute) (n : ℕ) → ArePresent T a (replicate n zero_datum) (replicate n false)
  replicate-ArePresent a zero = tt
  replicate-ArePresent a (suc n) = replicate-ArePresent a n

  empty-ColumnHolds :
      (a : Attribute) (size count : ℕ)
      → ColumnHolds T a size count []
          (record { block_data_array = replicate count (empty_block T size) })
          (replicate count (empty_node T))
  empty-ColumnHolds a size count = record {
    block_total = length-replicate count (empty_block T size);
    node_total = length-replicate count (empty_node T);
    blocks = λ b block e.
        subst (IsBlock T a size) (sym (replicate_elem count b (empty_block T size) e)) (record {
          exists_size = length-replicate size false;
          value_size = length-replicate size zero_datum;
          present = replicate-ArePresent a size;
        });
    held = λ i cell e. absurd (ground arith);
    nodes_counted = λ b node e.
        subst (IsCounted T 0 size b) (sym (replicate_elem count b (empty_node T) e)) (record {
          counted = sym (block_rows-zero size b);
          no_limits = refl;
          no_minimum = refl;
          no_maximum = refl;
        });
  }

  pub empty-ColumnsHold :
      (size count : ℕ) (attrs : List Attribute)
      → ColumnsHold size count 0 attrs
          (replicate (length attrs) [])
          (replicate
            (length attrs)
            (some (record { block_data_array = replicate count (empty_block T size) })))
          (replicate (length attrs) (replicate count (empty_node T)))
  empty-ColumnsHold size count [] = no_column
  empty-ColumnsHold size count (a ∷ attrs) =
      one_column refl (empty-ColumnHolds a size count) (empty-ColumnsHold size count attrs)
