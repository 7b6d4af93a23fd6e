-- ===== src/Rows/Fill.antt =====
-- One row is written to the stripe's buffers, created if there are none.
use mathlib.Core.Path.{subst}
use native.Mathlib.Nat.{add-div_right}
use postgres_vectorization_t.Prelude.{
  Bool, List, Option, [], ap, arith, length, ltb, lt→ltb, none, refl, replicate, some, sym, true,
  uint32, ℕ, ◌+◌, ◌/◌, ◌<◌, ◌^◌, ◌∙◌, ◌≡◌,
}
use postgres_vectorization_t.Report.{ok}
use postgres_vectorization_t.Rows.{
  create_empty_stripe_data, create_empty_stripe_skip_list, existing_or_new, fill_row,
  max_block_count,
}
use postgres_vectorization_t.Rows.Counts.{block_of_mono}
use postgres_vectorization_t.Rows.Holds.{Cell}
use postgres_vectorization_t.Rows.RoundTrip.{
  BuffersHold, ColumnsHold, IsRow, StripeHolds, append_row, empty-ColumnsHold, write_columns_lem,
}
use postgres_vectorization_t.Tupmacs.{Tupmacs}
use postgres_vectorization_t.Types.{Attribute, StripeData, StripeSkipList}

module _ (T : Tupmacs) where
  open T use {Datum, zero_datum, IsValueOf}

  abbrev pub rows_in : Option (StripeData Datum) → ℕ
  rows_in none = 0
  rows_in (some stripe) = stripe.row_count

  new-StripeHolds :
      (stripe_max size : ℕ) (attrs : List Attribute)
      → 0 < size
      → StripeHolds T stripe_max size attrs
          (replicate (length attrs) [])
          (create_empty_stripe_data T stripe_max size (length attrs))
          (create_empty_stripe_skip_list T stripe_max size (length attrs))
  unfolding create_empty_stripe_data create_empty_stripe_skip_list
  new-StripeHolds stripe_max size attrs h = record {
    columns = empty-ColumnsHold T size (max_block_count T stripe_max size) attrs;
    column_total = refl;
    skip_total = refl;
    blocks_used = grind arith;
  }

  existing_holds :
      (stripe_max size : ℕ) (attrs : List Attribute) (table : List (List (Cell T)))
      (stripe : Option (StripeData Datum)) (skips : Option (StripeSkipList Datum))
      → 0 < size
      → BuffersHold T stripe_max size attrs table stripe skips
      → (r : StripeData Datum × StripeSkipList Datum) × (existing_or_new T stripe_max size
            (length attrs)
            stripe
            skips
          ≡ ok r)
        × StripeHolds T stripe_max size attrs table r.0 r.1
        × (r.0.row_count ≡ rows_in stripe)
  unfolding create_empty_stripe_data
  existing_holds stripe_max size attrs table none skips p h = (
    (
      create_empty_stripe_data T stripe_max size (length attrs),
      create_empty_stripe_skip_list T stripe_max size (length attrs),
    ),
    refl,
    rw h (new-StripeHolds stripe_max size attrs p),
    refl,
  )
  existing_holds stripe_max size attrs table (some stripe) none p h = absurd h
  existing_holds stripe_max size attrs table (some stripe) (some skips) p h =
      ((stripe, skips), refl, h, refl)

  -- For a block row count and a stripe maximum that are `uint32`s, the former not zero, buffers
  -- that hold a table of fewer rows than the maximum (null pointers hold the empty table), and a
  -- row whose values are of the columns' types: writing the row touches no array out of bounds,
  -- counts one more row, and the buffers then hold the table with this row behind the others.
  pub fill_row_holds :
      (stripe_max size : ℕ) (attrs : List Attribute) (table : List (List (Cell T)))
      (stripe : Option (StripeData Datum)) (skips : Option (StripeSkipList Datum))
      {values : List Datum} {nulls : List Bool}
      → 0 < size
      → size < 2 ^ 32
      → stripe_max < 2 ^ 32
      → rows_in stripe < stripe_max
      → BuffersHold T stripe_max size attrs table stripe skips
      → IsRow T attrs values nulls
      → (r : StripeData Datum × StripeSkipList Datum) × (fill_row T stripe_max size attrs stripe
            skips values nulls
          ≡ ok r)
        × StripeHolds T stripe_max size attrs (append_row T table values nulls) r.0 r.1
        × (r.0.row_count ≡ rows_in stripe + 1)
  unfolding fill_row
  fill_row_holds stripe_max size attrs table stripe skips {values} {nulls} positive small few room h
        row =
      let (b, existing, holds, rows) =
        existing_holds stripe_max size attrs table stripe skips positive h in
      let n = b.0.row_count in
      let blocks : n / size < stripe_max / size + 1 =
        omega (arith, block_of_mono n stripe_max size positive (omega (arith, rows, room))) in
      let (written, runs, more) =
        write_columns_lem T size (max_block_count T stripe_max size) n positive blocks holds.columns
          row in
      let narrow : uint32 size ≡ size = omega arith in
      let nonzero : ltb 0 size ≡ true = lt→ltb _ _ positive in
      let count : uint32 (n + 1) ≡ n + 1 = omega (arith, rows, room) in
      (
        (
          record (b.0) { column_data_array = written.0; row_count = uint32 (n + 1) },
          record (b.1) { block_skip_node_array = written.1; block_count = n / size + 1 },
        ),
        simp (narrow, nonzero) (simp existing (simp runs)),
        record {
          columns =
              subst
                (λ k.
                  ColumnsHold T size (max_block_count T stripe_max size) k attrs
                    (append_row T table values nulls) written.0 written.1)
                (sym count) more;
          column_total = holds.column_total;
          skip_total = holds.skip_total;
          blocks_used =
              sym (add-div_right n positive)
              ∙ ap (λ (k : ℕ). k / size) (omega (arith, count, positive));
        },
        count ∙ ap (λ (k : ℕ). k + 1) rows,
      )

  pub existing_columns :
      (stripe_max size : ℕ) (attrs : List Attribute) (table : List (List (Cell T)))
      (stripe : Option (StripeData Datum)) (skips : Option (StripeSkipList Datum))
      → 0 < size
      → BuffersHold T stripe_max size attrs table stripe skips
      → (r : StripeData Datum × StripeSkipList Datum) × ColumnsHold T size
          (max_block_count T stripe_max size)
          (rows_in stripe)
          attrs
          table
          (r.0.column_data_array)
          (r.1.block_skip_node_array)
  existing_columns stripe_max size attrs table stripe skips p h =
      let (r, e, holds, rows) = existing_holds stripe_max size attrs table stripe skips p h in
      (
        r,
        subst
            (λ n.
              ColumnsHold T size (max_block_count T stripe_max size) n attrs table
                (r.0.column_data_array) (r.1.block_skip_node_array))
            rows holds.columns,
      )
