-- ===== src/Selection/Blocks.antt =====
-- The selected skip list stays in step: every column keeps the same number of nodes.
use postgres_vectorization_t.Prelude.{
  All, Bool, List, [], arith, false, length, refl, suc, true, uint32, zero, ℕ, ◌+◌, ◌<◌, ◌^◌, ◌∷◌,
  ◌≡◌, ◌≤◌,
}
use postgres_vectorization_t.Report.{ok}
use postgres_vectorization_t.Selection.{
  selected_block_skip_list, selected_columns, selected_count, selected_nodes,
}
use postgres_vectorization_t.Types.{ColumnBlockSkipNode, StripeSkipList}

module _ (Datum : Type 0) where
  -- What is selected of one column: as many nodes as blocks are selected.
  Selects : ℕ → List Bool → ℕ → Type 0
  Selects n mask count =
      (nodes : List (ColumnBlockSkipNode Datum))
      → n ≤ length nodes
      → (selected : List (ColumnBlockSkipNode Datum)) × (selected_nodes n mask nodes ≡ ok selected)
        × (length selected ≡ count)

  Selects-true :
      (n : ℕ) (mask : List Bool) (count : ℕ)
      → Selects n mask count
      → Selects (suc n) (true ∷ mask) (count + 1)
  unfolding Selects selected_nodes
  Selects-true n mask count selects [] k = absurd (omega (arith, k))
  Selects-true n mask count selects (node ∷ nodes) k =
      let (selected, runs, total) = selects nodes (omega (arith, k)) in
      (node ∷ selected, simp runs, omega (arith, total))

  Selects-false :
      (n : ℕ) (mask : List Bool) (count : ℕ)
      → Selects n mask count
      → Selects (suc n) (false ∷ mask) count
  unfolding Selects selected_nodes
  Selects-false n mask count selects [] k = absurd (omega (arith, k))
  Selects-false n mask count selects (node ∷ nodes) k = selects nodes (omega (arith, k))

  selected_nodes_lem :
      (n : ℕ) (mask : List Bool)
      → n ≤ length mask
      → (count : ℕ) × (selected_count n mask ≡ ok count) × (count ≤ n) × Selects n mask count
  unfolding selected_count selected_nodes Selects
  selected_nodes_lem zero mask h = (0, refl, omega arith, λ nodes k. ([], refl, refl))
  selected_nodes_lem (suc n) [] h = absurd (omega arith)
  selected_nodes_lem (suc n) (true ∷ mask) h =
      let (count, counted, few, selects) = selected_nodes_lem n mask (omega arith) in
      (count + 1, simp counted, omega arith, Selects-true n mask count selects)
  selected_nodes_lem (suc n) (false ∷ mask) h =
      let (count, counted, few, selects) = selected_nodes_lem n mask (omega arith) in
      (count, counted, omega arith, Selects-false n mask count selects)

  selected_columns_lem :
      (n c count : ℕ) (mask : List Bool) (columns : List (List (ColumnBlockSkipNode Datum)))
      → Selects n mask count
      → c ≤ length columns
      → All (λ (nodes : List (ColumnBlockSkipNode Datum)). n ≤ length nodes) columns
      → (out : List (List (ColumnBlockSkipNode Datum))) × (selected_columns n c mask columns
          ≡ ok out)
        × (length out ≡ c)
        × All (λ (nodes : List (ColumnBlockSkipNode Datum)). length nodes ≡ count) out
  unfolding selected_columns Selects
  selected_columns_lem n zero count mask columns selects h long = ([], refl, refl, tt)
  selected_columns_lem n (suc c) count mask [] selects h long = absurd (omega arith)
  selected_columns_lem n (suc c) count mask (nodes ∷ columns) selects h long =
      let (selected, runs, total) = selects nodes long.0 in
      let (out, others, width, rest) =
        selected_columns_lem n c count mask columns selects (omega arith) long.1 in
      (selected ∷ out, simp (runs, others), omega (arith, width), (total, rest))

  -- For a skip list whose columns each have a node for every block, and a mask with an entry for
  -- every block: the selection reads nothing out of bounds, keeps the number of columns, and gives
  -- every column exactly as many nodes as the block count of the result, which is at most that of
  -- the skip list.
  pub selected_block_skip_list_total :
      (skips : StripeSkipList Datum) (mask : List Bool)
      → skips.block_count ≤ length mask
      → skips.block_count < 2 ^ 32
      → skips.column_count ≤ length skips.block_skip_node_array
      → All
          (λ (nodes : List (ColumnBlockSkipNode Datum)). skips.block_count ≤ length nodes)
          skips.block_skip_node_array
      → (out : StripeSkipList Datum) × (selected_block_skip_list skips mask ≡ ok out)
        × (length out.block_skip_node_array ≡ skips.column_count)
        × All
            (λ (nodes : List (ColumnBlockSkipNode Datum)). length nodes ≡ out.block_count)
            out.block_skip_node_array
        × (out.block_count ≤ skips.block_count)
  unfolding selected_block_skip_list
  selected_block_skip_list_total skips mask covers small wide long =
      let (count, counted, few, selects) = selected_nodes_lem skips.block_count mask covers in
      let whole : uint32 count ≡ count = omega (arith, few) in
      let (out, runs, width, same) =
        selected_columns_lem skips.block_count skips.column_count count mask
          skips.block_skip_node_array selects wide long in
      (
        record skips { block_skip_node_array = out; block_count = count },
        simp (counted, runs) (simp whole),
        width,
        same,
        few,
      )
