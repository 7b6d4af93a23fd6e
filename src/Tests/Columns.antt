-- ===== src/Tests/Columns.antt =====
-- The theorems on rows and on the selection of columns and blocks at concrete inputs.
use postgres_vectorization_t.Prelude.{
  All, Bool, Bytes, List, [], arith, false, get_elem?, get_or, if◌then◌else◌, length, ltb, none,
  refl, some, true, ℕ, ◌%◌, ◌/◌, ◌<◌, ◌==◌, ◌∷◌, ◌≡◌, ◌≤◌,
}
use postgres_vectorization_t.Report.{ok}
use postgres_vectorization_t.Rows.{fill_row, read_stripe_next_row}
use postgres_vectorization_t.Rows.Fill.{fill_row_holds}
use postgres_vectorization_t.Rows.Read.{projects, row_cell}
use postgres_vectorization_t.Rows.RoundTrip.{IsRow, StripeHolds, append_row, no_cell, one_cell}
use postgres_vectorization_t.Rows.Shown.{read_stripe_next_row-fill_rows}
use postgres_vectorization_t.Rows.Table.{fill_rows}
use postgres_vectorization_t.Selection.{
  Planner, projected_column_mask, selected_block_mask, selected_block_skip_list,
}
use postgres_vectorization_t.Selection.Blocks.{selected_block_skip_list_total}
use postgres_vectorization_t.Selection.Masks.{projected_column_mask-projects}
use postgres_vectorization_t.Selection.Refuted.{IsRefutedBlock, selected_block_mask_sound}
use postgres_vectorization_t.Tests.Instances.{
  int4_column, macros, nine, nine-IsSized, seven, seven-IsSized, text_column, word, word-IsSized,
}
use postgres_vectorization_t.Tests.Pair.{pair_node}
use postgres_vectorization_t.Types.{Attribute, ColumnBlockSkipNode, StripeData, StripeSkipList}

abbrev row_attributes : List Attribute
row_attributes = int4_column ∷ text_column ∷ []

abbrev opening : List Bytes × List Bool
opening = (seven ∷ word ∷ [], false ∷ false ∷ [])

abbrev closing : List Bytes × List Bool
closing = (nine ∷ [] ∷ [], false ∷ true ∷ [])

abbrev two_rows : List (List Bytes × List Bool)
two_rows = opening ∷ closing ∷ []

opening-IsRow : IsRow macros row_attributes (seven ∷ word ∷ []) (false ∷ false ∷ [])
opening-IsRow = one_cell seven-IsSized (one_cell word-IsSized no_cell)

closing-IsRow : IsRow macros row_attributes (nine ∷ [] ∷ []) (false ∷ true ∷ [])
closing-IsRow = one_cell nine-IsSized (one_cell tt no_cell)

only_second_column : (j : ℕ) → projects (1 ∷ []) j ≡ true → j < 2
only_second_column j e = ground arith

read_stripe_next_row-fill_rows_example :
    (stripe : StripeData Bytes) × (skips : StripeSkipList Bytes) × (fill_rows macros 4 2
        row_attributes none none two_rows
      ≡ ok (some stripe, some skips))
    × (new : List Bytes × List Bool) × (read_stripe_next_row macros stripe
          (1 ∷ [])
          (0 / 2)
          (0 % 2)
          ([] ∷ [] ∷ [])
        ≡ ok new)
    × (row_cell macros new 1
        ≡ (if projects (1 ∷ []) 1 then row_cell macros opening 1 else some none))
read_stripe_next_row-fill_rows_example =
    read_stripe_next_row-fill_rows macros 4 2 row_attributes two_rows (1 ∷ []) 0 1 opening
      ([] ∷ [] ∷ []) (omega arith) (omega arith) (omega arith) (omega arith)
      (opening-IsRow, (closing-IsRow, tt)) refl only_second_column refl (omega arith)

fill_row_holds_example :
    (r : StripeData Bytes × StripeSkipList Bytes) × (fill_row macros 4 2 row_attributes none none
        (seven ∷ word ∷ [])
        (false ∷ false ∷ [])
      ≡ ok r)
    × StripeHolds macros 4 2 row_attributes
        (append_row macros ([] ∷ [] ∷ []) (seven ∷ word ∷ []) (false ∷ false ∷ []))
        r.0
        r.1
    × (r.0.row_count ≡ 1)
fill_row_holds_example =
    fill_row_holds macros 4 2 row_attributes ([] ∷ [] ∷ []) none none (omega arith) (omega arith)
      (omega arith) (omega arith) refl opening-IsRow

projected_column_mask-projects_example :
    (mask : List Bool) × (projected_column_mask 2 (1 ∷ []) ≡ ok mask)
    × (length mask ≡ 2)
    × (get_elem? mask 1 ≡ some (projects (1 ∷ []) 1))
projected_column_mask-projects_example =
    projected_column_mask-projects 2 (1 ∷ []) 1 only_second_column (omega arith)

-- A stripe of one column and two blocks.
abbrev pair_skips : StripeSkipList Bytes
pair_skips = record {
  block_skip_node_array = (pair_node ∷ pair_node ∷ []) ∷ [];
  column_count = 1;
  block_count = 2;
}

selected_block_skip_list_total_example :
    (out : StripeSkipList Bytes) × (selected_block_skip_list pair_skips (false ∷ true ∷ [])
      ≡ ok out)
    × (length out.block_skip_node_array ≡ 1)
    × All
        (λ (nodes : List (ColumnBlockSkipNode Bytes)). length nodes ≡ out.block_count)
        out.block_skip_node_array
    × (out.block_count ≤ 2)
selected_block_skip_list_total_example =
    selected_block_skip_list_total Bytes pair_skips (false ∷ true ∷ []) (omega arith) (omega arith)
      (omega arith) (omega arith, tt)

-- A planner for a restriction that no value up to `nine` satisfies.
abbrev pub above_nine : Planner Bytes
above_nine = record {
  has_comparison_function = λ varattno. varattno == 1;
  predicate_refuted_by = λ varattno low high. ltb (get_or high 0 0) 10;
}

abbrev pub limited_node : ColumnBlockSkipNode Bytes
limited_node = record pair_node { has_min_max = true; minimum_value = seven; maximum_value = nine }

abbrev pub limited_skips : StripeSkipList Bytes
limited_skips = record {
  block_skip_node_array = (pair_node ∷ limited_node ∷ []) ∷ [];
  column_count = 1;
  block_count = 2;
}

pub second_block_refuted :
    selected_block_mask above_nine limited_skips (1 ∷ []) ≡ ok (true ∷ false ∷ [])
unfolding selected_block_mask
second_block_refuted = refl

selected_block_mask_sound_example :
    (i varattno : ℕ) × (get_elem? (1 ∷ []) i ≡ some varattno)
    × IsRefutedBlock above_nine limited_skips 1 varattno
selected_block_mask_sound_example =
    selected_block_mask_sound above_nine limited_skips (1 ∷ []) (true ∷ false ∷ []) 1
      second_block_refuted refl
