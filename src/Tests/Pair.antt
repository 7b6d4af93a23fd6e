-- ===== src/Tests/Pair.antt =====
-- A column of two rows in one block.
use mathlib.Core.Path.{subst}
use postgres_vectorization_t.Prelude.{
  Bytes, List, Option, [], false, get_elem?, none, refl, some, suc, true, zero, ℕ, ◌%◌, ◌/◌, ◌∷◌,
  ◌≡◌,
}
use postgres_vectorization_t.Rows.{empty_node}
use postgres_vectorization_t.Rows.Counts.{block_rows}
use postgres_vectorization_t.Rows.Holds.{ColumnHolds, IsBlock, IsCounted, cell_at, cell_in}
use postgres_vectorization_t.Tests.Instances.{int4_column, macros, seven, seven-IsSized}
use postgres_vectorization_t.Types.{ColumnBlockData, ColumnBlockSkipNode, ColumnData}

abbrev pub pair_block : ColumnBlockData Bytes
pair_block = record { exists_array = true ∷ false ∷ []; value_array = seven ∷ [] ∷ [] }

abbrev pub pair_node : ColumnBlockSkipNode Bytes
pair_node = record (empty_node macros) { row_count = 2 }

abbrev pub pair_column : ColumnData Bytes
pair_column = record { block_data_array = pair_block ∷ [] }

abbrev pub pair_cells : List (Option Bytes)
pair_cells = some seven ∷ none ∷ []

pub pair_IsBlock : IsBlock macros int4_column 2 pair_block
pair_IsBlock = record { exists_size = refl; value_size = refl; present = (seven-IsSized, tt) }

pair_block-IsBlock :
    (b : ℕ) (block : ColumnBlockData Bytes)
    → get_elem? (pair_block ∷ []) b ≡ some block
    → IsBlock macros int4_column 2 block
pair_block-IsBlock zero block e =
    let same : pair_block ≡ block = cc in subst (IsBlock macros int4_column 2) same pair_IsBlock
pair_block-IsBlock (suc b) block e = cc

pair_cells_held :
    (i : ℕ) (cell : Option Bytes)
    → get_elem? pair_cells i ≡ some cell
    → cell_at macros pair_column (i / 2) (i % 2) ≡ some cell
unfolding cell_at cell_in
pair_cells_held zero cell e = e
pair_cells_held (suc zero) cell e = e
pair_cells_held (suc (suc i)) cell e = cc

pair_node-IsCounted :
    (b : ℕ) (one : ColumnBlockSkipNode Bytes)
    → get_elem? (pair_node ∷ []) b ≡ some one
    → IsCounted macros 2 2 b one
unfolding block_rows
pair_node-IsCounted zero one e =
    let same : pair_node ≡ one = cc in
    subst (IsCounted macros 2 2 0) same
      (record { counted = refl; no_limits = refl; no_minimum = refl; no_maximum = refl })
pair_node-IsCounted (suc b) one e = cc

pub pair_column_holds : ColumnHolds macros int4_column 2 1 pair_cells pair_column (pair_node ∷ [])
pair_column_holds = record {
  block_total = refl;
  node_total = refl;
  blocks = pair_block-IsBlock;
  held = pair_cells_held;
  nodes_counted = pair_node-IsCounted;
}
