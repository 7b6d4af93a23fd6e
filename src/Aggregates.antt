-- ===== src/Aggregates.antt =====
-- vectorized_transition_functions.c: the transition functions of the vectorized aggregates. Each
-- takes the state so far, a column's blocks and the number of rows in them, where the executor
-- passes the rows of one stripe at a time. Signed arithmetic wraps, as PostgreSQL builds with
-- -fwrapv.
pub mod Int64
pub mod Types
pub mod Scan
pub mod Sums
pub mod Counts
use postgres_vectorization_t.Aggregates.Int64.{add64}
use postgres_vectorization_t.Aggregates.Types.{Numbers, TransArray}
use postgres_vectorization_t.Prelude.{
  Option, if◌then◌else◌, ltb, none, some, suc, uint32, zero, ℕ, ◌%◌, ◌+◌, ◌/◌, ◌==◌, ◌^◌, ◌||◌,
}
use postgres_vectorization_t.Prelude.Int.{ltb_ℤ, pos, ℤ}
use postgres_vectorization_t.Report.{
  Result, bigint_out_of_range, err, expected_float8_array, expected_int8_array,
  expected_numeric_array, guard, nth, ok, out_of_bounds, ◌>>=◌, ◌>>◌,
}
use postgres_vectorization_t.Tupmacs.{Tupmacs}
use postgres_vectorization_t.Types.{ColumnData}

-- The two branches of `PG_ARGISNULL(0)`.
abbrev pub or_else {ℓ} : {A : Type ℓ} → Option A → A → A
or_else none a = a
or_else (some b) a = b

-- The C type in which a function keeps its block and row indices, and a number narrowed to it: from
-- 2 ^ 31 on an `int` is negative, and no index of an array.
pub data IndexType : Type 0 where
  int_index uint32_index : IndexType

unfoldable pub narrowed : IndexType → ℕ → Result ℕ
narrowed int_index i = if ltb (uint32 i) (2 ^ 31) then ok (uint32 i) else err out_of_bounds
narrowed uint32_index i = ok (uint32 i)

module _ (T : Tupmacs) where
  open T use {Datum}

  -- The loop that the functions share: row `i` with `n` rounds left, calling `step` on each value
  -- that exists.
  unfoldable pub scan_rows {ℓ} :
      {S : Type ℓ}
      → IndexType
      → (S → Datum → Result S)
      → ColumnData Datum
      → ℕ
      → ℕ
      → ℕ
      → S
      → Result S
  unfolding narrowed
  scan_rows index step column block_row_count zero i s = ok s
  scan_rows index step column block_row_count (suc n) i s = do
    block_index ← narrowed index (i / block_row_count)
    row_index ← narrowed index (i % block_row_count)
    block ← nth column.block_data_array block_index
    value ← nth block.value_array row_index
    exists ← nth block.exists_array row_index
    s' ← (if exists then step s value else ok s)
    scan_rows index step column block_row_count n (i + 1) s'

  -- The loop over a whole column; a block row count of zero is a division by zero.
  unfoldable pub for_each_value {ℓ} :
      {S : Type ℓ} → IndexType → (S → Datum → Result S) → ColumnData Datum → ℕ → ℕ → S → Result S
  unfolding scan_rows
  for_each_value index step column row_count block_row_count s = do
    guard (ltb 0 block_row_count || row_count == 0) out_of_bounds
    scan_rows index step column block_row_count row_count 0 s

  -- The same loop in `int8inc_any_vec`, which does not read the values, and whose indices are
  -- `uint32`s, as the row is.
  unfoldable pub scan_exists {ℓ} :
      {S : Type ℓ} → (S → Result S) → ColumnData Datum → ℕ → ℕ → ℕ → S → Result S
  scan_exists step column block_row_count zero i s = ok s
  scan_exists step column block_row_count (suc n) i s = do
    block ← nth column.block_data_array (i / block_row_count)
    exists ← nth block.exists_array (i % block_row_count)
    s' ← (if exists then step s else ok s)
    scan_exists step column block_row_count n (i + 1) s'

  module _ (N : Numbers Datum) where
    open N use {
      Numeric, Float4, Float8, datum_get_int32, datum_get_int64, datum_get_float4, datum_get_float8,
      int8_numeric, numeric_add, numeric_inc, float4_zero, float8_zero, add_float4, add_float8,
      float8_one, float4_to_float8,
    }

    unfoldable pub int4_sum_vec : Option ℤ → ColumnData Datum → ℕ → ℕ → Result ℤ
    unfolding for_each_value
    int4_sum_vec argument column row_count block_row_count =
        for_each_value int_index (λ new_value value. ok (add64 new_value (datum_get_int32 value)))
          column row_count block_row_count (or_else argument (pos 0))

    unfoldable pub int8_sum_vec : Option Numeric → ColumnData Datum → ℕ → ℕ → Result Numeric
    unfolding for_each_value
    int8_sum_vec argument column row_count block_row_count =
        for_each_value int_index
          (λ new_value value. ok (numeric_add new_value (int8_numeric (datum_get_int64 value))))
          column row_count block_row_count (or_else argument (int8_numeric (pos 0)))

    -- `transarray` is updated in place: `Int8TransTypeData`.
    unfoldable pub int4_avg_accum_vec :
        TransArray (ℤ × ℤ) → ColumnData Datum → ℕ → ℕ → Result (TransArray (ℤ × ℤ))
    unfolding for_each_value
    int4_avg_accum_vec transarray column row_count block_row_count = do
      guard (transarray.is_well_formed) expected_int8_array
      sums ←
          for_each_value int_index
            (λ (sums : ℤ × ℕ) value.
              ok (add64 (sums.0) (datum_get_int32 value), uint32 (sums.1 + 1)))
            column row_count block_row_count (pos 0, 0)
      ok (record transarray {
        elements =
            (add64 (transarray.elements.0) (pos sums.1), add64 (transarray.elements.1) sums.0);
      })

    -- `do_numeric_avg_accum`
    unfoldable pub do_numeric_avg_accum :
        TransArray (Numeric × Numeric) → Numeric → Result (TransArray (Numeric × Numeric))
    do_numeric_avg_accum transarray newval = do
      guard (transarray.is_well_formed) expected_numeric_array
      ok (record transarray {
        elements =
            (numeric_inc (transarray.elements.0), numeric_add (transarray.elements.1) newval);
      })

    unfoldable pub int8_avg_accum_vec :
        TransArray (Numeric × Numeric)
        → ColumnData Datum
        → ℕ
        → ℕ
        → Result (TransArray (Numeric × Numeric))
    unfolding for_each_value do_numeric_avg_accum
    int8_avg_accum_vec transarray column row_count block_row_count =
        for_each_value int_index
          (λ trans value. do_numeric_avg_accum trans (int8_numeric (datum_get_int64 value))) column
          row_count block_row_count transarray

    unfoldable pub float4pl_vec : Option Float4 → ColumnData Datum → ℕ → ℕ → Result Float4
    unfolding for_each_value
    float4pl_vec argument column row_count block_row_count =
        for_each_value uint32_index
          (λ new_value value. ok (add_float4 new_value (datum_get_float4 value))) column row_count
          block_row_count (or_else argument float4_zero)

    unfoldable pub float8pl_vec : Option Float8 → ColumnData Datum → ℕ → ℕ → Result Float8
    unfolding for_each_value
    float8pl_vec argument column row_count block_row_count =
        for_each_value uint32_index
          (λ new_value value. ok (add_float8 new_value (datum_get_float8 value))) column row_count
          block_row_count (or_else argument float8_zero)

    -- `check_float8_array` for three elements, of which the last, the sum of squares, is kept.
    unfoldable pub check_float8_array :
        TransArray (Float8 × Float8 × Float8) → Result (Float8 × Float8 × Float8)
    check_float8_array transarray = do
      guard (transarray.is_well_formed) expected_float8_array
      ok (transarray.elements)

    -- The body that `float8_accum_vec` and `float4_accum_vec` share, at a conversion of the value.
    abbrev accumulate :
        (Datum → Float8)
        → TransArray (Float8 × Float8 × Float8)
        → ColumnData Datum
        → ℕ
        → ℕ
        → Result (TransArray (Float8 × Float8 × Float8))
    accumulate get transarray column row_count block_row_count = do
      transvalues ← check_float8_array transarray
      sums ←
          for_each_value uint32_index
            (λ (sums : Float8 × Float8) value.
              ok (add_float8 (sums.0) float8_one, add_float8 (sums.1) (get value)))
            column row_count block_row_count (transvalues.0, transvalues.1)
      ok (record transarray { elements = (sums.0, sums.1, transvalues.2) })

    unfoldable pub float8_accum_vec :
        TransArray (Float8 × Float8 × Float8)
        → ColumnData Datum
        → ℕ
        → ℕ
        → Result (TransArray (Float8 × Float8 × Float8))
    unfolding for_each_value check_float8_array
    float8_accum_vec = accumulate datum_get_float8

    unfoldable pub float4_accum_vec :
        TransArray (Float8 × Float8 × Float8)
        → ColumnData Datum
        → ℕ
        → ℕ
        → Result (TransArray (Float8 × Float8 × Float8))
    unfolding for_each_value check_float8_array
    float4_accum_vec = accumulate (λ value. float4_to_float8 (datum_get_float4 value))

  -- `int8inc_vec`: count(*), which never looks at the rows.
  unfoldable pub int8inc_vec : ℤ → ℕ → Result ℤ
  int8inc_vec arg row_count =
      let result = add64 arg (pos row_count) in
      if ltb_ℤ result arg then err bigint_out_of_range else ok result

  -- One round of `int8inc_any_vec`.
  abbrev pub count_one : ℤ → ℤ → Result ℤ
  count_one arg result =
      let next = add64 result (pos 1) in if ltb_ℤ next arg then err bigint_out_of_range else ok next

  unfoldable pub int8inc_any_vec : ℤ → ColumnData Datum → ℕ → ℕ → Result ℤ
  unfolding scan_exists
  int8inc_any_vec arg column row_count block_row_count = do
    guard (ltb 0 block_row_count || row_count == 0) out_of_bounds
    scan_exists (count_one arg) column block_row_count row_count 0 arg
