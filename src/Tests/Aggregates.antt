-- ===== src/Tests/Aggregates.antt =====
-- The theorems on the transition functions at a concrete column.
use mathlib.Core.Path.{subst}
use postgres_vectorization_t.Aggregates.{
  for_each_value, int4_avg_accum_vec, int4_sum_vec, int8inc_any_vec, int8inc_vec, int_index,
}
use postgres_vectorization_t.Aggregates.Counts.{Counts, int8inc_any_vec-Counts, int8inc_vec-Counts}
use postgres_vectorization_t.Aggregates.Int64.{IsInt64}
use postgres_vectorization_t.Aggregates.Scan.{
  ShowsCells, fold_cells, for_each_value-eq-fold_cells, present_count,
}
use postgres_vectorization_t.Aggregates.Sums.{
  int4_avg_accum_vec_exact, int4_sum_vec_exact, int4_total,
}
use postgres_vectorization_t.Aggregates.Types.{TransArray}
use postgres_vectorization_t.Prelude.{
  Bytes, List, Option, [], arith, get_elem?, length, none, some, suc, true, zero, ℕ, ◌%◌, ◌+◌, ◌/◌,
  ◌∷◌, ◌≡◌, ◌≤◌,
}
use postgres_vectorization_t.Prelude.Int.{pos, ℤ, ◌+ℤ◌}
use postgres_vectorization_t.Report.{Result, ok}
use postgres_vectorization_t.Rows.Holds.{cell_at, cell_in}
use postgres_vectorization_t.Tests.Instances.{macros, nine, numbers, seven}
use postgres_vectorization_t.Tests.Pair.{pair_block}
use postgres_vectorization_t.Types.{ColumnBlockData, ColumnData}

-- A column of three rows, of which the second block has one.
abbrev partial_block : ColumnBlockData Bytes
partial_block = record { exists_array = true ∷ []; value_array = nine ∷ [] }

abbrev partial_column : ColumnData Bytes
partial_column = record { block_data_array = pair_block ∷ partial_block ∷ [] }

abbrev partial_cells : List (Option Bytes)
partial_cells = some seven ∷ none ∷ some nine ∷ []

partial_cells_shown :
    (i : ℕ) (cell : Option Bytes)
    → get_elem? partial_cells i ≡ some cell
    → cell_at macros partial_column (i / 2) (i % 2) ≡ some cell
unfolding cell_at cell_in
partial_cells_shown zero cell e = e
partial_cells_shown (suc zero) cell e = e
partial_cells_shown (suc (suc zero)) cell e = e
partial_cells_shown (suc (suc (suc i))) cell e = cc

partial_blocks :
    (b : ℕ) (block : ColumnBlockData Bytes)
    → get_elem? (pair_block ∷ partial_block ∷ []) b ≡ some block
    → length block.exists_array ≤ length block.value_array
partial_blocks zero block e =
    let same : pair_block ≡ block = cc in
    subst (λ (b : ColumnBlockData Bytes). length b.exists_array ≤ length b.value_array) same
      (omega arith)
partial_blocks (suc zero) block e =
    let same : partial_block ≡ block = cc in
    subst (λ (b : ColumnBlockData Bytes). length b.exists_array ≤ length b.value_array) same
      (omega arith)
partial_blocks (suc (suc b)) block e = cc

partial_column_shows : ShowsCells macros 2 partial_cells partial_column
partial_column_shows = record { shown = partial_cells_shown; with_values = partial_blocks }

-- A transition that adds up lengths.
abbrev add_length : ℕ → Bytes → Result ℕ
add_length n value = ok (n + length value)

for_each_value-eq-fold_cells_example :
    for_each_value macros int_index add_length partial_column 3 2 0
    ≡ fold_cells macros add_length 0 partial_cells
for_each_value-eq-fold_cells_example =
    for_each_value-eq-fold_cells macros 2 partial_cells partial_column (omega arith) (omega arith)
      partial_column_shows int_index add_length 0

int4_sum_vec_exact_example :
    int4_sum_vec macros numbers (some (pos 5)) partial_column 3 2
    ≡ ok (pos 5 +ℤ int4_total macros numbers partial_cells)
int4_sum_vec_exact_example =
    int4_sum_vec_exact macros numbers 2 partial_cells partial_column (omega arith) (omega arith)
      partial_column_shows (some (pos 5)) (omega arith, omega arith)

abbrev average_state : TransArray (ℤ × ℤ)
average_state = record { is_well_formed = true; elements = (pos 3, pos 30) }

count_fits : IsInt64 (pos 3 +ℤ pos (present_count macros partial_cells))
unfolding ◌+ℤ◌
count_fits = (omega arith, omega arith)

sum_fits : IsInt64 (pos 30 +ℤ int4_total macros numbers partial_cells)
unfolding ◌+ℤ◌ int4_total
sum_fits = (omega arith, omega arith)

int4_avg_accum_vec_exact_example :
    int4_avg_accum_vec macros numbers average_state partial_column 3 2
    ≡ ok (record {
      is_well_formed = true;
      elements = (pos 3 +ℤ pos 2, pos 30 +ℤ int4_total macros numbers partial_cells);
    })
int4_avg_accum_vec_exact_example =
    int4_avg_accum_vec_exact macros numbers 2 partial_cells partial_column (omega arith)
      (omega arith) partial_column_shows average_state count_fits sum_fits

int8inc_vec-Counts_example : Counts (pos 5) 7 (int8inc_vec macros (pos 5) 7)
int8inc_vec-Counts_example =
    int8inc_vec-Counts macros (pos 5) 7 (omega arith, omega arith) (omega arith)

int8inc_any_vec-Counts_example :
    Counts (pos 5) 2 (int8inc_any_vec macros (pos 5) partial_column 3 2)
int8inc_any_vec-Counts_example =
    int8inc_any_vec-Counts macros 2 partial_cells partial_column (omega arith) (omega arith)
      partial_column_shows (pos 5) (omega arith, omega arith)
