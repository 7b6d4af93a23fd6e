-- ===== src/Aggregates/Counts.antt =====
-- count(*) and count(column): the exact count, or the overflow error, and never a wrapped result.
use mathlib.Core.Path.{subst}
use postgres_vectorization_t.Aggregates.{count_one, int8inc_any_vec, int8inc_vec}
use postgres_vectorization_t.Aggregates.Int64.{IsInt64, add64, add64_exact, add64_wraps}
use postgres_vectorization_t.Aggregates.Scan.{
  ShowsCells, fold_cells, int8inc_any_vec-eq-fold_cells, present_count,
}
use postgres_vectorization_t.Prelude.{
  List, [], ap, arith, false, inl, inr, length, none, some, suc, sym, true, ℕ, ◌<◌, ◌^◌, ◌∷◌, ◌≡◌,
  ◌≤◌, ◌⊎◌,
}
use postgres_vectorization_t.Prelude.Int.{int_laws, ltb_ℤ, pos, ℤ, ◌+ℤ◌, ◌≤ℤ◌}
use postgres_vectorization_t.Report.{Result, bigint_out_of_range, err, ok}
use postgres_vectorization_t.Rows.Holds.{Cell}
use postgres_vectorization_t.Tupmacs.{Tupmacs}
use postgres_vectorization_t.Types.{ColumnData}

-- What a count should be: the sum, if it is an `int64`, and else the error.
abbrev pub Counts : ℤ → ℕ → Result ℤ → Type 0
Counts arg n r =
    (IsInt64 (arg +ℤ pos n) × (r ≡ ok (arg +ℤ pos n)))
    ⊎ ((pos (2 ^ 63) ≤ℤ arg +ℤ pos n) × (r ≡ err bigint_out_of_range))

-- The same, for a state that need not be an `int64`.
abbrev CountsIf : ℤ → ℕ → Result ℤ → Type 0
CountsIf arg n r =
    (IsInt64 (arg +ℤ pos n) → r ≡ ok (arg +ℤ pos n))
    × (pos (2 ^ 63) ≤ℤ arg +ℤ pos n → r ≡ err bigint_out_of_range)

sum_cases :
    (arg : ℤ) (n : ℕ) → IsInt64 arg → IsInt64 (arg +ℤ pos n) ⊎ (pos (2 ^ 63) ≤ℤ arg +ℤ pos n)
unfolding ◌+ℤ◌
sum_cases arg n h = ground arith

counts_lem : (arg : ℤ) (n : ℕ) (r : Result ℤ) → IsInt64 arg → CountsIf arg n r → Counts arg n r
counts_lem arg n r h c = elim (sum_cases arg n h) [
  | inl fits ↦ inl (fits, c.0 fits)
  | inr over ↦ inr (over, c.1 over)
]

not_below : (a : ℤ) (n : ℕ) → ltb_ℤ (a +ℤ pos n) a ≡ false
unfolding ◌+ℤ◌
not_below a n = ground arith

-- One more is still in range, or just past it.
range_cases : (r : ℤ) → IsInt64 r → IsInt64 (r +ℤ pos 1) ⊎ (pos (2 ^ 63) ≤ℤ r +ℤ pos 1)
unfolding ◌+ℤ◌
range_cases r h = ground arith

count_step :
    (arg r : ℤ)
    → IsInt64 arg
    → arg ≤ℤ r
    → IsInt64 (r +ℤ pos 1)
    → (add64 r (pos 1) ≡ r +ℤ pos 1) × (ltb_ℤ (r +ℤ pos 1) arg ≡ false)
unfolding ◌+ℤ◌
count_step arg r h above fits = (add64_exact r (pos 1) fits, ground arith)

-- The first count past the range is below every state that it can have started from.
count_over :
    (arg r : ℤ)
    → IsInt64 arg
    → IsInt64 r
    → r ≤ℤ arg +ℤ pos (2 ^ 32)
    → pos (2 ^ 63) ≤ℤ r +ℤ pos 1
    → ltb_ℤ (add64 r (pos 1)) arg ≡ true
unfolding ◌+ℤ◌ add64
count_over arg r h k near over = ground arith

module _ (T : Tupmacs) where
  -- For every `int64` state and every `uint32` row count, `int8inc_vec` returns their exact sum if
  -- it is an `int64`, and reports that the bigint is out of range if it is above.
  pub int8inc_vec-Counts :
      (arg : ℤ) (row_count : ℕ)
      → IsInt64 arg
      → row_count < 2 ^ 32
      → Counts arg row_count (int8inc_vec T arg row_count)
  unfolding int8inc_vec
  int8inc_vec-Counts arg row_count h few = counts_lem arg row_count _ h (
    λ fits. rw (add64_exact arg (pos row_count) fits) (rw (not_below arg row_count)),
    λ over. rw (add64_wraps arg row_count h few over),
  )

  any_fold :
      (arg r : ℤ) (cells : List (Cell T))
      → IsInt64 arg
      → IsInt64 r
      → arg ≤ℤ r
      → r +ℤ pos (length cells) ≤ℤ arg +ℤ pos (2 ^ 32)
      → CountsIf r (present_count T cells) (fold_cells T (λ s v. count_one T arg s) r cells)
  unfolding fold_cells
  any_fold arg r [] h k above near =
      let same : r +ℤ pos 0 ≡ r = omega int_laws in
      (λ fits. ap ok (sym same), λ over. absurd (omega (int_laws, k.0)))
  any_fold arg r (none ∷ cells) h k above near = any_fold arg r cells h k above (omega int_laws)
  any_fold arg r (some value ∷ cells) h k above near = elim (range_cases r k) [
    | inl fits ↦
        let (exact, test) = count_step arg r h above fits in
        let rest = any_fold arg (r +ℤ pos 1) cells h fits (omega int_laws) (omega int_laws) in
        let same : r +ℤ pos 1 +ℤ pos (present_count T cells)
            ≡ r +ℤ pos (suc (present_count T cells)) =
          omega int_laws in
        rw (exact, test)
          (subst
            (λ z.
              (IsInt64 z → fold_cells T (λ s v. count_one T arg s) (r +ℤ pos 1) cells ≡ ok z)
              × (pos (2 ^ 63) ≤ℤ z
                  → fold_cells T (λ s v. count_one T arg s) (r +ℤ pos 1) cells
                    ≡ err bigint_out_of_range))
            same rest)
    | inr over ↦
        let wrapped = count_over arg r h k (omega int_laws) over in
        (λ fits. absurd (omega (int_laws, fits.0)), λ more. rw wrapped)
  ]

  module _ (size : ℕ) (cells : List (Cell T)) (column : ColumnData T.Datum) (positive : 0 < size)
      (few : length cells ≤ 2 ^ 31) (h : ShowsCells T size cells column) where
    -- For a column that shows at most 2 ^ 31 cells in blocks of a positive size, where the last
    -- block can be shorter, and no block has fewer values than exists flags, and every `int64`
    -- state: `int8inc_any_vec` returns the exact sum of the state and the number of values present
    -- if it is an `int64`, and reports that the bigint is out of range if it is above.
    pub int8inc_any_vec-Counts :
        (arg : ℤ)
        → IsInt64 arg
        → Counts arg (present_count T cells) (int8inc_any_vec T arg column (length cells) size)
    int8inc_any_vec-Counts arg fits =
        rw (int8inc_any_vec-eq-fold_cells T size cells column positive few h arg) (
          counts_lem arg _ _ fits
            (any_fold arg arg cells fits fits (omega arith) (omega (int_laws, few))))
