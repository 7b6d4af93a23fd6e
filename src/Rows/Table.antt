-- ===== src/Rows/Table.antt =====
-- Rows written one after another to one stripe are appended to the table that it holds.
use postgres_vectorization_t.Prelude.{
  All, Bool, List, Option, [], ap, arith, false, get_elem?, length, none, refl, some, suc, sym,
  true, zero, ℕ, ◌++◌, ◌+◌, ◌<◌, ◌^◌, ◌∙◌, ◌∷◌, ◌≡◌, ◌≤◌,
}
use postgres_vectorization_t.Report.{Result, first, ok, ◌>>=◌}
use postgres_vectorization_t.Rows.{fill_row}
use postgres_vectorization_t.Rows.Fill.{existing_columns, fill_row_holds, rows_in}
use postgres_vectorization_t.Rows.Holds.{Cell, cell_of}
use postgres_vectorization_t.Rows.Read.{row_cell}
use postgres_vectorization_t.Rows.RoundTrip.{
  BuffersHold, ColumnsHold, IsRow, append_row, no_cell, no_column, one_cell, one_column,
}
use postgres_vectorization_t.Tupmacs.{Tupmacs}
use postgres_vectorization_t.Types.{
  Attribute, ColumnBlockSkipNode, ColumnData, StripeData, StripeSkipList,
}

module _ (T : Tupmacs) where
  open T use {Datum, zero_datum, IsValueOf}

  -- The cell of column `k` in row `i` of a table.
  abbrev pub table_cell : List (List (Cell T)) → ℕ → ℕ → Option (Cell T)
  table_cell [] k i = none
  table_cell (cells ∷ table) zero i = get_elem? cells i
  table_cell (cells ∷ table) (suc k) i = table_cell table k i

  -- `CStoreWriteRow`'s first part for one row after another, in one stripe.
  unfoldable pub fill_rows :
      ℕ
      → ℕ
      → List Attribute
      → Option (StripeData Datum)
      → Option (StripeSkipList Datum)
      → List (List Datum × List Bool)
      → Result (Option (StripeData Datum) × Option (StripeSkipList Datum))
  fill_rows stripe_max size attrs stripe skips [] = ok (stripe, skips)
  fill_rows stripe_max size attrs stripe skips ((values, nulls) ∷ rows) = do
    r ← fill_row T stripe_max size attrs stripe skips values nulls
    fill_rows stripe_max size attrs (some r.0) (some r.1) rows

  append_old :
      (cells : List (Cell T)) (c : Cell T) (i : ℕ)
      → i < length cells
      → get_elem? (cells ++ c ∷ []) i ≡ get_elem? cells i
  append_old [] c i h = elim h [ ]
  append_old (x ∷ cells) c zero h = refl
  append_old (x ∷ cells) c (suc i) h = append_old cells c i (omega arith)

  append_new :
      (cells : List (Cell T)) (c : Cell T) → get_elem? (cells ++ c ∷ []) (length cells) ≡ some c
  append_new [] c = refl
  append_new (x ∷ cells) c = append_new cells c

  append_row_old :
      (size count n : ℕ) {attrs : List Attribute} {table : List (List (Cell T))}
      {columns : List (Option (ColumnData Datum))} {nodes : List (List (ColumnBlockSkipNode Datum))}
      {values : List Datum} {nulls : List Bool} (k i : ℕ)
      → ColumnsHold T size count n attrs table columns nodes
      → IsRow T attrs values nulls
      → i < n
      → table_cell (append_row T table values nulls) k i ≡ table_cell table k i
  append_row_old size count n k i no_column no_cell h = refl
  append_row_old size count n zero i (one_column {cells = cells} total c others)
        (one_cell {v = v} {is_null = is_null} fits row) h =
      append_old cells (cell_of T v is_null) i (omega (arith, total))
  append_row_old size count n (suc k) i (one_column total c others) (one_cell fits row) h =
      append_row_old size count n k i others row h

  append_row_new :
      (size count n : ℕ) {attrs : List Attribute} {table : List (List (Cell T))}
      {columns : List (Option (ColumnData Datum))} {nodes : List (List (ColumnBlockSkipNode Datum))}
      {values : List Datum} {nulls : List Bool} (k : ℕ)
      → ColumnsHold T size count n attrs table columns nodes
      → IsRow T attrs values nulls
      → table_cell (append_row T table values nulls) k n ≡ row_cell T (values, nulls) k
  unfolding row_cell
  append_row_new size count n k no_column no_cell = refl
  append_row_new size count n zero (one_column {cells = cells} total c others)
        (one_cell {v = v} {is_null = is_null} fits row) =
      ap (get_elem? (cells ++ cell_of T v is_null ∷ [])) (sym total)
      ∙ append_new cells (cell_of T v is_null)
      ∙ shown v is_null
    where
      shown :
          (v : Datum) (is_null : Bool)
          → some (cell_of T v is_null) ≡ row_cell T (v ∷ [], is_null ∷ []) 0
      shown v true = refl
      shown v false = refl
  append_row_new size count n (suc k) (one_column total c others) (one_cell fits row) =
      append_row_new size count n k others row

  abbrev pub AreRows : List Attribute → List (List Datum × List Bool) → Type 0
  AreRows attrs rows = All (λ (row : List Datum × List Bool). IsRow T attrs row.0 row.1) rows

  -- The buffers after the rows: what was there, and the rows behind it.
  pub record Filled (stripe_max size : ℕ) (attrs : List Attribute) (n : ℕ)
      (table : List (List (Cell T))) (rows : List (List Datum × List Bool))
      (stripe : Option (StripeData Datum)) (skips : Option (StripeSkipList Datum))
      (after : List (List (Cell T))) : Type 0 where
    pub holds : BuffersHold T stripe_max size attrs after stripe skips
    pub total : rows_in T stripe ≡ n + length rows
    pub old_rows : (k i : ℕ) → i < n → table_cell after k i ≡ table_cell table k i
    pub new_rows :
        (k i : ℕ) (row : List Datum × List Bool)
        → get_elem? rows i ≡ some row
        → table_cell after k (n + i) ≡ row_cell T row k

  new_rows_cons :
      (n : ℕ) (after : List (List (Cell T))) (values : List Datum) (nulls : List Bool)
      (rows : List (List Datum × List Bool))
      → ((k : ℕ) → table_cell after k n ≡ row_cell T (values, nulls) k)
      → ((k i : ℕ) (row : List Datum × List Bool)
          → get_elem? rows i ≡ some row
          → table_cell after k (n + 1 + i) ≡ row_cell T row k)
      → (k i : ℕ) (row : List Datum × List Bool) → get_elem? ((values, nulls) ∷ rows) i ≡ some row
      → table_cell after k (n + i) ≡ row_cell T row k
  new_rows_cons n after values nulls rows first rest k zero row e =
      let same : (values, nulls) ≡ row = cc in
      ap (table_cell after k) (omega arith) ∙ first k ∙ ap (λ r. row_cell T r k) same
  new_rows_cons n after values nulls rows first rest k (suc i) row e =
      ap (table_cell after k) (omega arith) ∙ rest k i row e

  pub fill_rows_lem :
      (stripe_max size : ℕ) (attrs : List Attribute) (table : List (List (Cell T)))
      (stripe : Option (StripeData Datum)) (skips : Option (StripeSkipList Datum))
      (rows : List (List Datum × List Bool))
      → 0 < size
      → size < 2 ^ 32
      → stripe_max < 2 ^ 32
      → rows_in T stripe + length rows ≤ stripe_max
      → BuffersHold T stripe_max size attrs table stripe skips
      → AreRows attrs rows
      → (r : Option (StripeData Datum) × Option (StripeSkipList Datum)) × (fill_rows stripe_max size
            attrs stripe skips rows
          ≡ ok r)
        × (after : List (List (Cell T))) × Filled stripe_max size attrs
            (rows_in T stripe)
            table
            rows
            r.0
            r.1
            after
  unfolding fill_rows
  fill_rows_lem stripe_max size attrs table stripe skips [] p q few room h are = (
    (stripe, skips),
    refl,
    table,
    record {
      holds = h;
      total = omega arith;
      old_rows = λ k i lt. refl;
      new_rows = λ k i row e. absurd (ground arith);
    },
  )
  fill_rows_lem stripe_max size attrs table stripe skips ((values, nulls) ∷ rows) p q few room h
        are =
      let n = rows_in T stripe in
      let (r, runs, holds, one_more) =
        fill_row_holds T stripe_max size attrs table stripe skips p q few (omega (arith, room)) h
          are.0 in
      let more = append_row T table values nulls in
      let (end, go, after, filled) =
        fill_rows_lem stripe_max size attrs more (some r.0) (some r.1) rows p q few
          (omega (arith, room, one_more)) holds are.1 in
      let before = existing_columns T stripe_max size attrs table stripe skips p h in
      (
        end,
        rw runs go,
        after,
        record {
          holds = filled.holds;
          total = filled.total ∙ omega (arith, one_more);
          old_rows = λ k i lt.
              filled.old_rows k i (omega (arith, one_more))
              ∙ append_row_old size _ n k i before.1 are.0 lt;
          new_rows =
              new_rows_cons n after values nulls rows
                (λ k.
                  filled.old_rows k n (omega (arith, one_more))
                  ∙ append_row_new size _ n k before.1 are.0)
                (λ k i row e.
                  ap (table_cell after k) (omega (arith, one_more)) ∙ filled.new_rows k i row e);
        },
      )
