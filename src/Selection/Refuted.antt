-- ===== src/Selection/Refuted.antt =====
-- Which blocks the mask leaves out.
use mathlib.Core.Bool.{false≢true}
use mathlib.Core.Path.{subst}
use postgres_vectorization_t.Prelude.{
  Bool, Bool-cases, List, [], ap, arith, false, get_elem?, if◌then◌else◌, inl, inr, not, refl,
  replicate, some, suc, sym, true, uint32, zero, ℕ, ◌&&◌, ◌+◌, ◌-◌, ◌^◌, ◌∙◌, ◌∷◌, ◌≡◌, ◌⊎◌,
}
use postgres_vectorization_t.Report.{>>=-eq-ok, nth, nth-eq-ok, ok, ok_injective, ◌>>=◌}
use postgres_vectorization_t.Selection.{
  Planner, refute_blocks, refute_column, refute_columns, selected_block_mask,
}
use postgres_vectorization_t.Types.{ColumnBlockSkipNode, StripeSkipList}

module _ {Datum : Type 0} (planner : Planner Datum) where
  -- The node of a block has limits by which the planner refutes the query.
  pub record IsRefuted (varattno : ℕ) (node : ColumnBlockSkipNode Datum) : Type 0 where
    pub has_limits : node.has_min_max ≡ true
    pub refuted : planner.predicate_refuted_by varattno node.minimum_value node.maximum_value ≡ true

  same_bool : {x y : Bool} → some x ≡ some y → x ≡ y
  same_bool {x} {y} e = cc

  unselected :
      (varattno : ℕ) (selected : Bool) (node : ColumnBlockSkipNode Datum)
      → (selected
          && not (
              node.has_min_max
              && planner.predicate_refuted_by varattno node.minimum_value node.maximum_value))
        ≡ false
      → (selected ≡ false) ⊎ IsRefuted varattno node
  unselected varattno false node h = inl refl
  unselected varattno true node h = elim (Bool-cases node.has_min_max) [
    | inl limits ↦
        elim (Bool-cases
          (planner.predicate_refuted_by varattno node.minimum_value node.maximum_value)) [
            | inl refuted ↦ inr (record { has_limits = limits; refuted = refuted })
            | inr other ↦ absurd (ground (arith, limits, other, h))
          ]
    | inr none_there ↦ absurd (ground (arith, none_there, h))
  ]

  refute_blocks_sound :
      (varattno n : ℕ) (nodes : List (ColumnBlockSkipNode Datum)) (mask out : List Bool) (b : ℕ)
      → refute_blocks planner varattno n nodes mask ≡ ok out
      → get_elem? out b ≡ some false
      → (get_elem? mask b ≡ some false)
        ⊎ ((node : ColumnBlockSkipNode Datum) × (get_elem? nodes b ≡ some node)
            × IsRefuted varattno node)
  unfolding refute_blocks
  refute_blocks_sound varattno zero nodes mask out b e h =
      let same : mask ≡ out = cc in inl (ap (λ m. get_elem? m b) same ∙ h)
  refute_blocks_sound varattno (suc n) [] mask out b e h = cc
  refute_blocks_sound varattno (suc n) (node ∷ nodes) [] out b e h = cc
  refute_blocks_sound varattno (suc n) (node ∷ nodes) (selected ∷ mask) out b e h =
      let (rest, runs, made) = >>=-eq-ok (refute_blocks planner varattno n nodes mask) _ e in
      split b (refute_blocks_sound varattno n nodes mask rest) runs made h
    where
      split :
          (b : ℕ) {rest : List Bool}
          → ((b : ℕ)
              → refute_blocks planner varattno n nodes mask ≡ ok rest
              → get_elem? rest b ≡ some false
              → (get_elem? mask b ≡ some false)
                ⊎ ((node : ColumnBlockSkipNode Datum) × (get_elem? nodes b ≡ some node)
                    × IsRefuted varattno node))
          → refute_blocks planner varattno n nodes mask ≡ ok rest
          → ok (
              (selected
                && not (
                    node.has_min_max
                    && planner.predicate_refuted_by varattno node.minimum_value node.maximum_value))
              ∷ rest)
            ≡ ok out
          → get_elem? out b ≡ some false
          → (get_elem? (selected ∷ mask) b ≡ some false)
            ⊎ ((other : ColumnBlockSkipNode Datum) × (get_elem? (node ∷ nodes) b ≡ some other)
                × IsRefuted varattno other)
      split zero {rest} ih runs made h =
          let here : get_elem? out zero
              ≡ some (
                  selected
                  && not (
                      node.has_min_max
                      && planner.predicate_refuted_by varattno node.minimum_value
                          node.maximum_value)) =
            sym (ap (λ (m : List Bool). get_elem? m zero) (ok_injective made)) in
          elim (unselected varattno selected node (same_bool (sym here ∙ h))) [
            | inl e ↦ inl (ap some e)
            | inr r ↦ inr (node, refl, r)
          ]
      split (suc b) {rest} ih runs made h =
          let there : get_elem? out (suc b) ≡ get_elem? rest b =
            sym (ap (λ (m : List Bool). get_elem? m (suc b)) (ok_injective made)) in
          elim (ih b runs (sym there ∙ h)) [ inl e ↦ inl e | inr r ↦ inr r ]

  -- A projected column refutes the block: its type has a comparison function, and the block's node
  -- has limits by which the planner refutes the query.
  pub record IsRefutedBlock (skips : StripeSkipList Datum) (b varattno : ℕ) : Type 0 where
    pub comparable : planner.has_comparison_function varattno ≡ true
    pub nodes : List (ColumnBlockSkipNode Datum)
    pub column_found :
        get_elem? skips.block_skip_node_array (uint32 (varattno + 2 ^ 32 - 1)) ≡ some nodes
    pub node : ColumnBlockSkipNode Datum
    pub node_found : get_elem? nodes b ≡ some node
    pub refutes : IsRefuted varattno node

  refute_column_sound :
      (skips : StripeSkipList Datum) (varattno : ℕ) (mask out : List Bool) (b : ℕ)
      → refute_column planner skips varattno mask ≡ ok out
      → get_elem? out b ≡ some false
      → (get_elem? mask b ≡ some false) ⊎ IsRefutedBlock skips b varattno
  unfolding refute_column
  refute_column_sound skips varattno mask out b e h =
      let column = nth skips.block_skip_node_array (uint32 (varattno + 2 ^ 32 - 1)) in
      let loop = λ (nodes : List (ColumnBlockSkipNode Datum)).
        refute_blocks planner varattno skips.block_count nodes mask in
      elim (Bool-cases (planner.has_comparison_function varattno)) [
        | inr none_there ↦
            let same : mask ≡ out =
              ok_injective
                (subst (λ c. (if c then column >>= loop else ok mask) ≡ ok out) none_there e) in
            inl (ap (λ (m : List Bool). get_elem? m b) same ∙ h)
        | inl comparable ↦
            let run : (column >>= loop) ≡ ok out =
              subst (λ c. (if c then column >>= loop else ok mask) ≡ ok out) comparable e in
            let (nodes, found, runs) = >>=-eq-ok column loop run in
            elim (refute_blocks_sound varattno skips.block_count nodes mask out b runs h) [
              | inl e ↦ inl e
              | inr (node, at, r) ↦ inr (record {
                comparable = comparable;
                nodes = nodes;
                column_found =
                    nth-eq-ok skips.block_skip_node_array (uint32 (varattno + 2 ^ 32 - 1)) found;
                node = node;
                node_found = at;
                refutes = r;
              })
            ]
      ]

  refute_columns_sound :
      (skips : StripeSkipList Datum) (projected : List ℕ) (mask out : List Bool) (b : ℕ)
      → refute_columns planner skips projected mask ≡ ok out
      → get_elem? out b ≡ some false
      → (get_elem? mask b ≡ some false)
        ⊎ ((i varattno : ℕ) × (get_elem? projected i ≡ some varattno)
            × IsRefutedBlock skips b varattno)
  unfolding refute_columns
  refute_columns_sound skips [] mask out b e h =
      inl (ap (λ (m : List Bool). get_elem? m b) (ok_injective e) ∙ h)
  refute_columns_sound skips (varattno ∷ projected) mask out b e h =
      let (mid, first_run, then_run) = >>=-eq-ok (refute_column planner skips varattno mask) _ e in
      elim (refute_columns_sound skips projected mid out b then_run h) [
        | inr (i, later, at, r) ↦ inr (suc i, later, at, r)
        | inl at ↦ elim (refute_column_sound skips varattno mask mid b first_run at) [
          | inl already ↦ inl already
          | inr r ↦ inr (0, varattno, refl, r)
        ]
      ]

  replicate-false : (n b : ℕ) → get_elem? (replicate n true) b ≡ some false → ⊥
  replicate-false zero b e = cc
  replicate-false (suc n) zero e = false≢true (sym (same_bool e))
  replicate-false (suc n) (suc b) e = replicate-false n b e

  -- Whenever the mask is made: a block that it leaves out is one that some projected column
  -- refutes, whose type has a comparison function and whose skip node for the block has a minimum
  -- and a maximum by which the planner refutes the query's restrictions.
  pub selected_block_mask_sound :
      (skips : StripeSkipList Datum) (projected : List ℕ) (mask : List Bool) (b : ℕ)
      → selected_block_mask planner skips projected ≡ ok mask
      → get_elem? mask b ≡ some false
      → (i varattno : ℕ) × (get_elem? projected i ≡ some varattno) × IsRefutedBlock skips b varattno
  unfolding selected_block_mask
  selected_block_mask_sound skips projected mask b e h =
      elim (refute_columns_sound skips projected (replicate skips.block_count true) mask b e h) [
        | inl at ↦ absurd (replicate-false skips.block_count b at)
        | inr r ↦ r
      ]
