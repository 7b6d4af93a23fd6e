-- ===== src/Selection/Total.antt =====
-- The mask of selected blocks is made without a read past an array.
use postgres_vectorization_t.Prelude.{
  All, All-get_elem?, Bool, Bool-cases, List, [], ap, arith, get_elem?-some, inl, inr, length,
  length-replicate, not, refl, replicate, suc, true, uint32, zero, ℕ, ◌&&◌, ◌+◌, ◌-◌, ◌<◌, ◌^◌, ◌∷◌,
  ◌≡◌,
}
use postgres_vectorization_t.Report.{ok}
use postgres_vectorization_t.Rows.Read.{projects}
use postgres_vectorization_t.Selection.{
  Planner, refute_blocks, refute_column, refute_columns, selected_block_mask,
}
use postgres_vectorization_t.Types.{ColumnBlockSkipNode, StripeSkipList}

module _ {Datum : Type 0} (planner : Planner Datum) where
  refute_blocks_total :
      (varattno n : ℕ) (nodes : List (ColumnBlockSkipNode Datum)) (mask : List Bool)
      → length nodes ≡ n
      → length mask ≡ n
      → (out : List Bool) × (refute_blocks planner varattno n nodes mask ≡ ok out)
        × (length out ≡ n)
  unfolding refute_blocks
  refute_blocks_total varattno zero nodes mask p q = (mask, refl, q)
  refute_blocks_total varattno (suc n) [] mask p q = absurd (omega (arith, p))
  refute_blocks_total varattno (suc n) (node ∷ nodes) [] p q = absurd (omega (arith, q))
  refute_blocks_total varattno (suc n) (node ∷ nodes) (selected ∷ mask) p q =
      let (rest, runs, total) =
        refute_blocks_total varattno n nodes mask (omega (arith, p)) (omega (arith, q)) in
      (
        (selected
              && not (
                  node.has_min_max
                  && planner.predicate_refuted_by varattno node.minimum_value node.maximum_value))
            ∷ rest,
        simp runs,
        ap suc total,
      )

  refute_column_total :
      (skips : StripeSkipList Datum) (varattno : ℕ) (mask : List Bool)
      → uint32 (varattno + 2 ^ 32 - 1) < length skips.block_skip_node_array
      → All
          (λ (nodes : List (ColumnBlockSkipNode Datum)). length nodes ≡ skips.block_count)
          skips.block_skip_node_array
      → length mask ≡ skips.block_count
      → (out : List Bool) × (refute_column planner skips varattno mask ≡ ok out)
        × (length out ≡ skips.block_count)
  unfolding refute_column
  refute_column_total skips varattno mask inside total size =
      let (nodes, found) =
        get_elem?-some skips.block_skip_node_array (uint32 (varattno + 2 ^ 32 - 1)) inside in
      let (out, runs, same) =
        refute_blocks_total varattno skips.block_count nodes mask (All-get_elem? _ _ _ found total)
          size in
      elim (Bool-cases (planner.has_comparison_function varattno)) [
        | inl e ↦ (out, rw e (simp found (simp runs)), same)
        | inr e ↦ (mask, rw e, size)
      ]

  -- The mask is made without a read past an array, with an entry for every block.
  pub refute_columns_total :
      (skips : StripeSkipList Datum) (projected : List ℕ) (mask : List Bool)
      → ((k : ℕ) → projects projected k ≡ true → k < length skips.block_skip_node_array)
      → All
          (λ (nodes : List (ColumnBlockSkipNode Datum)). length nodes ≡ skips.block_count)
          skips.block_skip_node_array
      → length mask ≡ skips.block_count
      → (out : List Bool) × (refute_columns planner skips projected mask ≡ ok out)
        × (length out ≡ skips.block_count)
  unfolding refute_columns
  refute_columns_total skips [] mask known total size = (mask, refl, size)
  refute_columns_total skips (varattno ∷ projected) mask known total size =
      let (mid, first_run, same) =
        refute_column_total skips varattno mask
          (known (uint32 (varattno + 2 ^ 32 - 1)) (ground arith)) total size in
      let (out, then_run, last) =
        refute_columns_total skips projected mid (λ k e. known k (ground (arith, e))) total same in
      (out, simp first_run then_run, last)

  pub selected_block_mask_total :
      (skips : StripeSkipList Datum) (projected : List ℕ)
      → ((k : ℕ) → projects projected k ≡ true → k < length skips.block_skip_node_array)
      → All
          (λ (nodes : List (ColumnBlockSkipNode Datum)). length nodes ≡ skips.block_count)
          skips.block_skip_node_array
      → (mask : List Bool) × (selected_block_mask planner skips projected ≡ ok mask)
        × (length mask ≡ skips.block_count)
  unfolding selected_block_mask
  selected_block_mask_total skips projected known total =
      refute_columns_total skips projected (replicate skips.block_count true) known total
        (length-replicate skips.block_count true)
