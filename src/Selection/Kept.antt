-- ===== src/Selection/Kept.antt =====
-- A selection keeps exactly the selected blocks of every column.
use postgres_vectorization_t.Prelude.{
  All, Bool, List, [], ap, arith, false, kept, length, map, refl, replicate, true, uint32, ℕ, ◌+◌,
  ◌<◌, ◌^◌, ◌∷◌, ◌≡◌, ◌≤◌,
}
use postgres_vectorization_t.Report.{ok}
use postgres_vectorization_t.Selection.{
  add_row_counts, selected_block_skip_list, selected_columns, selected_count, selected_nodes,
}
use postgres_vectorization_t.Types.{ColumnBlockSkipNode, StripeSkipList}

abbrev pub marked : List Bool → ℕ
marked [] = 0
marked (true ∷ mask) = marked mask + 1
marked (false ∷ mask) = marked mask

pub length-kept {ℓ} :
    {A : Type ℓ} (mask : List Bool) (xs : List A)
    → length xs ≡ length mask
    → length (kept mask xs) ≡ marked mask
length-kept [] xs h = refl
length-kept (selected ∷ mask) [] h = absurd (omega (arith, h))
length-kept (true ∷ mask) (x ∷ xs) h = omega (arith, length-kept mask xs (omega (arith, h)))
length-kept (false ∷ mask) (x ∷ xs) h = length-kept mask xs (omega (arith, h))

pub length-kept_le {ℓ} :
    {A : Type ℓ} (mask : List Bool) (xs : List A) → length (kept mask xs) ≤ length xs
length-kept_le [] xs = omega arith
length-kept_le (selected ∷ mask) [] = omega arith
length-kept_le (true ∷ mask) (x ∷ xs) = omega (arith, length-kept_le mask xs)
length-kept_le (false ∷ mask) (x ∷ xs) = omega (arith, length-kept_le mask xs)

marked_le : (mask : List Bool) → marked mask ≤ length mask
marked_le [] = omega arith
marked_le (true ∷ mask) = omega (arith, marked_le mask)
marked_le (false ∷ mask) = omega (arith, marked_le mask)

-- With every block selected all are kept.
pub kept-replicate {ℓ} : {A : Type ℓ} (xs : List A) → kept (replicate (length xs) true) xs ≡ xs
kept-replicate [] = refl
kept-replicate (x ∷ xs) = ap (λ t. x ∷ t) (kept-replicate xs)

selected_count_lem : (mask : List Bool) → selected_count (length mask) mask ≡ ok (marked mask)
unfolding selected_count
selected_count_lem [] = refl
selected_count_lem (true ∷ mask) = rw (selected_count_lem mask)
selected_count_lem (false ∷ mask) = selected_count_lem mask

module _ {Datum : Type 0} where
  selected_nodes_lem :
      (mask : List Bool) (nodes : List (ColumnBlockSkipNode Datum))
      → length nodes ≡ length mask
      → selected_nodes (length mask) mask nodes ≡ ok (kept mask nodes)
  unfolding selected_nodes
  selected_nodes_lem [] nodes h = refl
  selected_nodes_lem (selected ∷ mask) [] h = absurd (omega (arith, h))
  selected_nodes_lem (true ∷ mask) (node ∷ nodes) h =
      rw (selected_nodes_lem mask nodes (omega (arith, h)))
  selected_nodes_lem (false ∷ mask) (node ∷ nodes) h =
      selected_nodes_lem mask nodes (omega (arith, h))

  selected_columns_lem :
      (mask : List Bool) (columns : List (List (ColumnBlockSkipNode Datum)))
      → All (λ (nodes : List (ColumnBlockSkipNode Datum)). length nodes ≡ length mask) columns
      → selected_columns (length mask) (length columns) mask columns ≡ ok (map (kept mask) columns)
  unfolding selected_columns
  selected_columns_lem mask [] h = refl
  selected_columns_lem mask (nodes ∷ columns) h =
      simp (selected_nodes_lem mask nodes h.0, selected_columns_lem mask columns h.1)

  -- For a skip list with as many nodes in every column as the mask has entries.
  pub selected_block_skip_list_lem :
      (skips : StripeSkipList Datum) (mask : List Bool)
      → skips.block_count ≡ length mask
      → length mask < 2 ^ 32
      → skips.column_count ≡ length skips.block_skip_node_array
      → All
          (λ (nodes : List (ColumnBlockSkipNode Datum)). length nodes ≡ length mask)
          skips.block_skip_node_array
      → selected_block_skip_list skips mask
        ≡ ok (record skips {
          block_skip_node_array = map (kept mask) skips.block_skip_node_array;
          block_count = marked mask;
        })
  unfolding selected_block_skip_list
  selected_block_skip_list_lem skips mask count small width total =
      let whole : uint32 (marked mask) ≡ marked mask = omega (arith, marked_le mask) in
      simp (count, width)
        (simp (selected_count_lem mask, selected_columns_lem mask skips.block_skip_node_array total)
          (simp whole))

  -- The sum of the row counts, as the code adds them.
  abbrev pub row_total : List (ColumnBlockSkipNode Datum) → ℕ → ℕ
  row_total [] count = count
  row_total (node ∷ nodes) count = row_total nodes (uint32 (count + uint32 node.row_count))

  pub add_row_counts_lem :
      (nodes : List (ColumnBlockSkipNode Datum)) (count : ℕ)
      → add_row_counts (length nodes) nodes count ≡ ok (row_total nodes count)
  unfolding add_row_counts
  add_row_counts_lem [] count = refl
  add_row_counts_lem (node ∷ nodes) count =
      add_row_counts_lem nodes (uint32 (count + uint32 node.row_count))
