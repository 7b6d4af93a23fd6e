-- ===== src/Aggregates/Sums.antt =====
-- sum(int4) and avg(int4) over a column are the exact sums and counts of its values.
use mathlib.Core.Path.{ap₂}
use postgres_vectorization_t.Aggregates.{int4_avg_accum_vec, int4_sum_vec, int_index, or_else}
use postgres_vectorization_t.Aggregates.Int64.{IsInt64, add64, add64_exact}
use postgres_vectorization_t.Aggregates.Scan.{
  ShowsCells, fold_cells, for_each_value-eq-fold_cells, present_count,
}
use postgres_vectorization_t.Aggregates.Types.{Numbers, TransArray}
use postgres_vectorization_t.Prelude.{
  Bool-cases, List, Option, [], ap, arith, if◌then◌else◌, inl, inr, length, none, some, suc, sym,
  uint32, ℕ, ◌*◌, ◌+◌, ◌<◌, ◌^◌, ◌∙◌, ◌∷◌, ◌≡◌, ◌≤◌,
}
use postgres_vectorization_t.Prelude.Int.{int_laws, neg_part, pos, pos_part, ℤ, ◌+ℤ◌}
use postgres_vectorization_t.Report.{err, expected_int8_array, ok}
use postgres_vectorization_t.Rows.Holds.{Cell}
use postgres_vectorization_t.Tupmacs.{Tupmacs}
use postgres_vectorization_t.Types.{ColumnData}

+ℤ_bounds :
    (a b : ℤ)
    → (pos_part (a +ℤ b) ≤ pos_part a + pos_part b) × (neg_part (a +ℤ b) ≤ neg_part a + neg_part b)
unfolding ◌+ℤ◌
+ℤ_bounds a b = ground arith

+ℤ_assoc : (a b c : ℤ) → a +ℤ b +ℤ c ≡ a +ℤ (b +ℤ c)
+ℤ_assoc a b c = omega int_laws

+ℤ_zero : (a : ℤ) → a +ℤ pos 0 ≡ a
+ℤ_zero a = omega int_laws

module _ (T : Tupmacs) (N : Numbers T.Datum) where
  open T use {Datum}

  -- The sum of the values present, as unbounded integers.
  unfoldable pub int4_total : List (Cell T) → ℤ
  int4_total [] = pos 0
  int4_total (none ∷ cells) = int4_total cells
  int4_total (some value ∷ cells) = N.datum_get_int32 value +ℤ int4_total cells

  -- So far from the ends of the range that so many `int32`s cannot reach them.
  abbrev pub HasRoom : ℤ → ℕ → Type 0
  HasRoom z n = (pos_part z + n * 2 ^ 31 < 2 ^ 63) × (neg_part z + n * 2 ^ 31 ≤ 2 ^ 63)

  HasRoom-step :
      (s : ℤ) (value : Datum) (n : ℕ)
      → HasRoom s (suc n)
      → (add64 s (N.datum_get_int32 value) ≡ s +ℤ N.datum_get_int32 value)
        × HasRoom (s +ℤ N.datum_get_int32 value) n
  HasRoom-step s value n h =
      let v = N.int32_bounds value in
      let b = +ℤ_bounds s (N.datum_get_int32 value) in
      let upper : pos_part (s +ℤ N.datum_get_int32 value) + n * 2 ^ 31 < 2 ^ 63 =
        omega (arith, v.0, b.0, h.0) in
      let lower : neg_part (s +ℤ N.datum_get_int32 value) + n * 2 ^ 31 ≤ 2 ^ 63 =
        omega (arith, v.1, b.1, h.1) in
      (add64_exact s _ (omega (arith, upper), omega (arith, lower)), (upper, lower))

  sum_fold :
      (s : ℤ) (cells : List (Cell T))
      → HasRoom s (length cells)
      → fold_cells T (λ t value. ok (add64 t (N.datum_get_int32 value))) s cells
        ≡ ok (s +ℤ int4_total cells)
  unfolding fold_cells int4_total
  sum_fold s [] h = ap ok (sym (+ℤ_zero s))
  sum_fold s (none ∷ cells) h = sum_fold s cells (omega (arith, h.0), omega (arith, h.1))
  sum_fold s (some value ∷ cells) h =
      let (exact, room) = HasRoom-step s value (length cells) h in
      rw exact (
        sum_fold (s +ℤ N.datum_get_int32 value) cells room
        ∙ ap ok (+ℤ_assoc s (N.datum_get_int32 value) (int4_total cells)))

  avg_fold :
      (s : ℤ) (k : ℕ) (cells : List (Cell T))
      → HasRoom s (length cells)
      → k + length cells < 2 ^ 32
      → fold_cells T
          (λ (sums : ℤ × ℕ) value.
            ok (add64 (sums.0) (N.datum_get_int32 value), uint32 (sums.1 + 1)))
          (s, k)
          cells
        ≡ ok (s +ℤ int4_total cells, k + present_count T cells)
  unfolding fold_cells int4_total
  avg_fold s k [] h few = ap ok (ap₂ (λ x y. (x, y)) (sym (+ℤ_zero s)) (omega arith))
  avg_fold s k (none ∷ cells) h few =
      avg_fold s k cells (omega (arith, h.0), omega (arith, h.1)) (omega arith)
  avg_fold s k (some value ∷ cells) h few =
      let (exact, room) = HasRoom-step s value (length cells) h in
      let small : uint32 (k + 1) ≡ k + 1 = omega arith in
      rw (exact, small)
        (avg_fold (s +ℤ N.datum_get_int32 value) (k + 1) cells room (omega arith)
          ∙ ap ok (
              ap₂ (λ x y. (x, y)) (+ℤ_assoc s (N.datum_get_int32 value) (int4_total cells))
                (omega arith)))

  module _ (size : ℕ) (cells : List (Cell T)) (column : ColumnData Datum) (positive : 0 < size)
      (few : length cells ≤ 2 ^ 31) (h : ShowsCells T size cells column) where
    -- For a column that shows at most 2 ^ 31 cells in blocks of a positive size, where the last
    -- block can be shorter, and no block has fewer values than exists flags, and a sum so far (none
    -- counts as zero) that is further from both ends of the `int64` range than as many `int32`s as
    -- there are cells can reach: `int4_sum_vec` succeeds, and its result is the exact sum of the
    -- sum so far and all values present, no addition having wrapped.
    pub int4_sum_vec_exact :
        (argument : Option ℤ)
        → HasRoom (or_else argument (pos 0)) (length cells)
        → int4_sum_vec T N argument column (length cells) size
          ≡ ok (or_else argument (pos 0) +ℤ int4_total cells)
    unfolding int4_sum_vec
    int4_sum_vec_exact argument room =
        for_each_value-eq-fold_cells T size cells column positive few h int_index _ _
        ∙ sum_fold (or_else argument (pos 0)) cells room

    -- For such a column, and a transition array: `int4_avg_accum_vec`
    -- reports an error exactly if the array is not a well formed one; otherwise, where the new
    -- count and the new sum are in the range of `int64`, it adds the number of values present to
    -- the count, and their exact sum to the sum.
    pub int4_avg_accum_vec_exact :
        (transarray : TransArray (ℤ × ℤ))
        → IsInt64 (transarray.elements.0 +ℤ pos (present_count T cells))
        → IsInt64 (transarray.elements.1 +ℤ int4_total cells)
        → int4_avg_accum_vec T N transarray column (length cells) size ≡ (
            if transarray.is_well_formed
            then ok (record transarray {
              elements = (
                transarray.elements.0 +ℤ pos (present_count T cells),
                transarray.elements.1 +ℤ int4_total cells,
              );
            })
            else err expected_int8_array)
    unfolding int4_avg_accum_vec
    int4_avg_accum_vec_exact transarray counts sums =
        let zero_room : HasRoom (pos 0) (length cells) = (omega arith, omega arith) in
        let scanned =
          for_each_value-eq-fold_cells T size cells column positive few h int_index
            (λ (sums : ℤ × ℕ) value.
              ok (add64 (sums.0) (N.datum_get_int32 value), uint32 (sums.1 + 1)))
            (pos 0, 0)
          ∙ avg_fold (pos 0) 0 cells zero_room (omega arith) in
        let start : pos 0 +ℤ int4_total cells ≡ int4_total cells = omega int_laws in
        let none_yet : 0 + present_count T cells ≡ present_count T cells = omega arith in
        elim (Bool-cases (transarray.is_well_formed)) [
          | inl e ↦
              simp (e, scanned)
                (simp (start, none_yet) (simp (add64_exact _ _ counts, add64_exact _ _ sums)))
          | inr e ↦ simp e
        ]
