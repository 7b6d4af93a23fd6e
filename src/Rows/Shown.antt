-- ===== src/Rows/Shown.antt =====
-- The rows that were written to a stripe are the rows that are read from it.
use mathlib.Core.Path.{subst}
use postgres_vectorization_t.Prelude.{
  Bool, Bool-cases, List, Option, [], ap, arith, get_elem?, get_elem?-some, get_elem?_lt,
  if◌then◌else◌, inl, inr, length, none, refl, replicate, some, suc, sym, true, zero, ℕ, ◌%◌, ◌/◌,
  ◌<◌, ◌^◌, ◌∙◌, ◌≡◌, ◌≤◌,
}
use postgres_vectorization_t.Report.{ok}
use postgres_vectorization_t.Rows.{read_stripe_next_row}
use postgres_vectorization_t.Rows.Holds.{Cell}
use postgres_vectorization_t.Rows.Read.{Shows, projects, read_stripe_next_row-Shows, row_cell}
use postgres_vectorization_t.Rows.RoundTrip.{ColumnsHold, no_column, one_column}
use postgres_vectorization_t.Rows.Table.{AreRows, Filled, fill_rows, fill_rows_lem, table_cell}
use postgres_vectorization_t.Tupmacs.{Tupmacs}
use postgres_vectorization_t.Types.{
  Attribute, ColumnBlockSkipNode, ColumnData, StripeData, StripeSkipList,
}

module _ (T : Tupmacs) where
  open T use {Datum, zero_datum, IsValueOf}

  cells_shown :
      (size count n : ℕ) {attrs : List Attribute} {table : List (List (Cell T))}
      {columns : List (Option (ColumnData Datum))} {nodes : List (List (ColumnBlockSkipNode Datum))}
      (k i : ℕ)
      → ColumnsHold T size count n attrs table columns nodes
      → i < n
      → k < length attrs
      → (cell : Cell T) × (table_cell T table k i ≡ some cell)
        × Shows T columns (i / size) (i % size) k cell
  cells_shown size count n k i no_column h p = absurd (omega arith)
  cells_shown size count n zero i (one_column {cells = cells} {column = column} total c others) h
        p =
      let (cell, at) = get_elem?-some cells i (omega (arith, total)) in
      (cell, at, (column, refl, c.held i cell at))
  cells_shown size count n (suc k) i (one_column total c others) h p =
      cells_shown size count n k i others h (omega arith)

  abbrev or_null : Option (Cell T) → Cell T
  or_null none = none
  or_null (some cell) = cell

  -- The cell of column `k` in a row that is written; null past the row.
  abbrev cell_or_null : List Datum × List Bool → ℕ → Cell T
  cell_or_null row k = or_null (row_cell T row k)

  shown_row :
      (stripe_max size : ℕ) (attrs : List Attribute) (rows : List (List Datum × List Bool))
      (table after : List (List (Cell T))) (stripe : StripeData Datum)
      (skips : StripeSkipList Datum) (i k : ℕ) (row : List Datum × List Bool)
      → Filled T stripe_max size attrs 0 table rows (some stripe) (some skips) after
      → get_elem? rows i ≡ some row
      → k < length attrs
      → Shows T stripe.column_data_array (i / size) (i % size) k (cell_or_null row k)
        × (row_cell T row k ≡ some (cell_or_null row k))
  shown_row stripe_max size attrs rows table after stripe skips i k row filled at lt =
      let (cell, in_table, shows) =
        cells_shown size _ stripe.row_count k i (filled.holds.columns)
          (omega (arith, filled.total, get_elem?_lt rows i at)) lt in
      let written : row_cell T row k ≡ some cell =
        sym (filled.new_rows k i row at) ∙ ap (table_cell T after k) (omega arith) ∙ in_table in
      let same : cell ≡ cell_or_null row k = ap or_null (sym written) in
      (
        subst (λ c. Shows T stripe.column_data_array (i / size) (i % size) k c) same shows,
        written ∙ ap some same,
      )

  -- Once a row is written, both pointers are set.
  some_buffers :
      (stripe_max size : ℕ) (attrs : List Attribute) (rows : List (List Datum × List Bool))
      (table after : List (List (Cell T)))
      (r : Option (StripeData Datum) × Option (StripeSkipList Datum))
      → 0 < length rows
      → Filled T stripe_max size attrs 0 table rows r.0 r.1 after
      → (stripe : StripeData Datum) × (skips : StripeSkipList Datum) × (r
          ≡ (some stripe, some skips))
  some_buffers stripe_max size attrs rows table after (none, skips) h filled =
      absurd (omega (arith, filled.total))
  some_buffers stripe_max size attrs rows table after (some stripe, none) h filled =
      absurd (filled.holds)
  some_buffers stripe_max size attrs rows table after (some stripe, some skips) h filled =
      (stripe, skips, refl)

  -- Reading row `i` of a filled stripe.
  read-Filled :
      (stripe_max size : ℕ) (attrs : List Attribute) (rows : List (List Datum × List Bool))
      (table after : List (List (Cell T))) (stripe : StripeData Datum)
      (skips : StripeSkipList Datum) (projected : List ℕ) (i : ℕ) (row : List Datum × List Bool)
      (values : List Datum)
      → Filled T stripe_max size attrs 0 table rows (some stripe) (some skips) after
      → get_elem? rows i ≡ some row
      → ((k : ℕ) → projects projected k ≡ true → k < length attrs)
      → length values ≡ length attrs
      → (new : List Datum × List Bool) × (read_stripe_next_row T stripe projected
            (i / size)
            (i % size)
            values
          ≡ ok new)
        × ((k : ℕ)
            → k < length attrs
            → row_cell T new k ≡ (if projects projected k then row_cell T row k else some none))
  read-Filled stripe_max size attrs rows table after stripe skips projected i row values filled at
        known total =
      let columns = filled.holds.column_total in
      let shown = λ (k : ℕ).
        shown_row stripe_max size attrs rows table after stripe skips i k row filled at in
      let (new, reads, read) =
        read_stripe_next_row-Shows T stripe projected (i / size) (i % size) (cell_or_null row)
          values (λ k pk. (rw columns (known k pk), (shown k (known k pk)).0))
          (total ∙ sym columns) in
      (
        new,
        reads,
        λ k lt. read k (rw columns lt) ∙ (elim (Bool-cases (projects projected k)) [
          | inl e ↦ rw e (sym ((shown k lt).1))
          | inr e ↦ rw e
        ]),
      )

  -- For any number of well formed rows, at least one and at most the stripe's maximum (a `uint32`,
  -- as is the block row count, which is not zero): writing them to a new stripe touches no
  -- array out of bounds, and gives a stripe and a skip list, from which every row `i` is read at
  -- block `i / block_row_count` and index `i % block_row_count` without a fault, with
  -- every projected column `k` of the table showing exactly the cell that was written, and every
  -- other column null.
  pub read_stripe_next_row-fill_rows :
      (stripe_max size : ℕ) (attrs : List Attribute) (rows : List (List Datum × List Bool))
      (projected : List ℕ) (i k : ℕ) (row : List Datum × List Bool) (values : List Datum)
      → 0 < size
      → size < 2 ^ 32
      → stripe_max < 2 ^ 32
      → length rows ≤ stripe_max
      → AreRows T attrs rows
      → get_elem? rows i ≡ some row
      → ((j : ℕ) → projects projected j ≡ true → j < length attrs)
      → length values ≡ length attrs
      → k < length attrs
      → (stripe : StripeData Datum) × (skips : StripeSkipList Datum) × (fill_rows T stripe_max size
            attrs none none rows
          ≡ ok (some stripe, some skips))
        × (new : List Datum × List Bool) × (read_stripe_next_row T stripe projected
              (i / size)
              (i % size)
              values
            ≡ ok new)
        × (row_cell T new k ≡ (if projects projected k then row_cell T row k else some none))
  read_stripe_next_row-fill_rows stripe_max size attrs rows projected i k row values p q few fit are
        at known total column =
      let start = replicate (length attrs) [] in
      let (r, runs, table, filled) =
        fill_rows_lem T stripe_max size attrs start none none rows p q few (omega (arith, fit)) refl
          are in
      let (stripe, skips, same) =
        some_buffers stripe_max size attrs rows start table r
          (omega (arith, get_elem?_lt rows i at)) filled in
      let (new, reads, shows) =
        read-Filled stripe_max size attrs rows start table stripe skips projected i row values
          (subst
            (λ (b : Option (StripeData Datum) × Option (StripeSkipList Datum)).
              Filled T stripe_max size attrs 0 start rows b.0 b.1 table)
            same filled)
          at known total in
      (stripe, skips, runs ∙ ap ok same, new, reads, shows k column)
