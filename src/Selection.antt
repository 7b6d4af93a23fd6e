-- ===== src/Selection.antt =====
-- Which columns and blocks a scan loads (cstore_reader.c): the mask of projected columns, the skip
-- list without the blocks that are not selected, the number of rows that are left, and the mask of
-- the blocks that the planner does not refute.
pub mod Masks
pub mod Blocks
pub mod Kept
pub mod Refuted
pub mod Total
use postgres_vectorization_t.Prelude.{
  Bool, List, [], false, if◌then◌else◌, length, ltb, not, replicate, set, suc, true, uint32, zero,
  ℕ, ◌&&◌, ◌+◌, ◌-◌, ◌^◌, ◌∷◌,
}
use postgres_vectorization_t.Report.{Result, err, guard, nth, ok, out_of_bounds, ◌>>=◌, ◌>>◌}
use postgres_vectorization_t.Types.{ColumnBlockSkipNode, StripeSkipList}

-- The loop of `ProjectedColumnMask` over the projected columns, each a `varattno`.
unfoldable pub mark_columns : List ℕ → List Bool → Result (List Bool)
mark_columns [] mask = ok mask
mark_columns (varattno ∷ projected) mask =
    let k = uint32 (varattno + 2 ^ 32 - 1) in
    guard (ltb k (length mask)) out_of_bounds >> mark_columns projected (set mask k true)

unfoldable pub projected_column_mask : ℕ → List ℕ → Result (List Bool)
projected_column_mask column_count projected = mark_columns projected (replicate column_count false)

-- The loop that counts the selected blocks, with `n` left.
unfoldable pub selected_count : ℕ → List Bool → Result ℕ
selected_count zero mask = ok 0
selected_count (suc n) [] = err out_of_bounds
selected_count (suc n) (true ∷ mask) = do count ← selected_count n mask; ok (count + 1)
selected_count (suc n) (false ∷ mask) = selected_count n mask

-- What `SelectedBlockMask` asks of PostgreSQL about a projected column, given by its
-- `varattno`: whether its type has a comparison function, and whether `predicate_refuted_by`
-- refutes the restrictions of the query by the constraint that the column lies between a minimum
-- and a maximum.
pub record Planner (Datum : Type 0) : Type 0 where
  pub has_comparison_function : ℕ → Bool
  pub predicate_refuted_by : ℕ → Datum → Datum → Bool

module _ {Datum : Type 0} where
  -- The loop that copies the selected nodes of one column.
  unfoldable pub selected_nodes :
      ℕ → List Bool → List (ColumnBlockSkipNode Datum) → Result (List (ColumnBlockSkipNode Datum))
  selected_nodes zero mask nodes = ok []
  selected_nodes (suc n) (true ∷ mask) (node ∷ nodes) = do
    selected ← selected_nodes n mask nodes
    ok (node ∷ selected)
  selected_nodes (suc n) (false ∷ mask) (node ∷ nodes) = selected_nodes n mask nodes
  selected_nodes (suc n) (false ∷ mask) [] = selected_nodes n mask []
  selected_nodes (suc n) _ _ = err out_of_bounds

  -- The loop over the columns.
  unfoldable pub selected_columns :
      ℕ
      → ℕ
      → List Bool
      → List (List (ColumnBlockSkipNode Datum))
      → Result (List (List (ColumnBlockSkipNode Datum)))
  selected_columns n zero mask columns = ok []
  selected_columns n (suc c) mask [] = err out_of_bounds
  selected_columns n (suc c) mask (nodes ∷ columns) = do
    let rest = selected_columns n c mask columns
    selected ← selected_nodes n mask nodes
    others ← rest
    ok (selected ∷ others)

  unfoldable pub selected_block_skip_list :
      StripeSkipList Datum → List Bool → Result (StripeSkipList Datum)
  selected_block_skip_list skips mask = do
    count ← selected_count skips.block_count mask
    nodes ← selected_columns skips.block_count skips.column_count mask skips.block_skip_node_array
    ok (record skips { block_skip_node_array = nodes; block_count = uint32 count })

  -- The sum over the first column's nodes, each count narrowed to a `uint32`, as is the sum.
  unfoldable pub add_row_counts : ℕ → List (ColumnBlockSkipNode Datum) → ℕ → Result ℕ
  add_row_counts zero nodes count = ok count
  add_row_counts (suc n) [] count = err out_of_bounds
  add_row_counts (suc n) (node ∷ nodes) count =
      add_row_counts n nodes (uint32 (count + uint32 node.row_count))

  unfoldable pub stripe_skip_list_row_count : StripeSkipList Datum → Result ℕ
  stripe_skip_list_row_count skips = do
    nodes ← nth skips.block_skip_node_array 0
    add_row_counts skips.block_count nodes 0

  -- The loop over one column's blocks, with `n` left, from the rests of its nodes and the mask.
  unfoldable pub refute_blocks :
      Planner Datum → ℕ → ℕ → List (ColumnBlockSkipNode Datum) → List Bool → Result (List Bool)
  refute_blocks planner varattno zero nodes mask = ok mask
  refute_blocks planner varattno (suc n) (node ∷ nodes) (selected ∷ mask) = do
    let refuted =
        node.has_min_max
        && planner.predicate_refuted_by varattno node.minimum_value node.maximum_value
    rest ← refute_blocks planner varattno n nodes mask
    ok ((selected && not refuted) ∷ rest)
  refute_blocks planner varattno (suc n) _ _ = err out_of_bounds

  -- One round of the loop over the projected columns.
  unfoldable pub refute_column :
      Planner Datum → StripeSkipList Datum → ℕ → List Bool → Result (List Bool)
  unfolding refute_blocks
  refute_column planner skips varattno mask =
      if planner.has_comparison_function varattno
      then (do
        nodes ← nth skips.block_skip_node_array (uint32 (varattno + 2 ^ 32 - 1))
        refute_blocks planner varattno skips.block_count nodes mask)
      else ok mask

  -- The loop over the projected columns; the mask starts with every block selected.
  unfoldable pub refute_columns :
      Planner Datum → StripeSkipList Datum → List ℕ → List Bool → Result (List Bool)
  unfolding refute_column
  refute_columns planner skips [] mask = ok mask
  refute_columns planner skips (varattno ∷ projected) mask = do
    refuted ← refute_column planner skips varattno mask
    refute_columns planner skips projected refuted

  unfoldable pub selected_block_mask :
      Planner Datum → StripeSkipList Datum → List ℕ → Result (List Bool)
  unfolding refute_columns
  selected_block_mask planner skips projected =
      refute_columns planner skips projected (replicate skips.block_count true)
