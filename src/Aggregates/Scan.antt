-- ===== src/Aggregates/Scan.antt =====
-- The loop over blocks and indices is a fold over the column's cells.
use mathlib.Core.Path.{ap₂, subst}
use postgres_vectorization_t.Aggregates.{
  IndexType, count_one, for_each_value, int8inc_any_vec, int_index, narrowed, scan_exists,
  scan_rows, uint32_index,
}
use postgres_vectorization_t.Prelude.{
  Bool, List, Option, Option-cases, [], ap, arith, false, get_elem?, get_elem?-some, get_elem?_lt,
  if◌then◌else◌, inl, inr, length, ltb, lt→ltb, none, not, refl, some, suc, sym, true, uint32, ℕ,
  ◌%◌, ◌+◌, ◌/◌, ◌<◌, ◌^◌, ◌∙◌, ◌∷◌, ◌≡◌, ◌≤◌,
}
use postgres_vectorization_t.Prelude.Int.{ℤ}
use postgres_vectorization_t.Report.{Result, err, ok, ◌>>=◌}
use postgres_vectorization_t.Rows.Holds.{Cell, cell_at, cell_from, cell_in, cell_of}
use postgres_vectorization_t.Tupmacs.{Tupmacs}
use postgres_vectorization_t.Types.{ColumnBlockData, ColumnData}

module _ (T : Tupmacs) where
  open T use {Datum}

  unfoldable pub fold_cells {ℓ} :
      {S : Type ℓ} → (S → Datum → Result S) → S → List (Cell T) → Result S
  fold_cells step s [] = ok s
  fold_cells step s (none ∷ cells) = fold_cells step s cells
  fold_cells step s (some value ∷ cells) = do s' ← step s value; fold_cells step s' cells

  -- How many values are present.
  abbrev pub present_count : List (Cell T) → ℕ
  present_count [] = 0
  present_count (none ∷ cells) = present_count cells
  present_count (some value ∷ cells) = suc (present_count cells)

  -- The column shows the cells in blocks of `size` rows: row `i` at index `i % size` of block
  -- `i / size`. A block's arrays can be shorter than `size`, as those of a loaded stripe's last
  -- block are, or longer than what the cells need.
  pub record ShowsCells (size : ℕ) (cells : List (Cell T)) (column : ColumnData Datum)
      : Type 0 where
    pub shown :
        (i : ℕ) (cell : Cell T)
        → get_elem? cells i ≡ some cell
        → cell_at T column (i / size) (i % size) ≡ some cell
    pub with_values :
        (b : ℕ) (block : ColumnBlockData Datum)
        → get_elem? column.block_data_array b ≡ some block
        → length block.exists_array ≤ length block.value_array

  -- The arrays at a place, by the cell there.
  record IsAt (column : ColumnData Datum) (b r : ℕ) (cell : Cell T) : Type 0 where
    block : ColumnBlockData Datum
    value : Datum
    exists : Bool
    block_index : (index : IndexType) → narrowed index b ≡ ok b
    row_index : (index : IndexType) → narrowed index r ≡ ok r
    at_block : get_elem? column.block_data_array b ≡ some block
    at_value : get_elem? block.value_array r ≡ some value
    at_exists : get_elem? block.exists_array r ≡ some exists
    same : cell_of T value (not exists) ≡ cell

  narrowed_lem : (index : IndexType) (k : ℕ) → k < 2 ^ 31 → narrowed index k ≡ ok k
  unfolding narrowed
  narrowed_lem int_index k h =
      let same : uint32 k ≡ k = omega (arith, h) in
      let test : ltb k (2 ^ 31) ≡ true = lt→ltb _ _ h in simp (same, test)
  narrowed_lem uint32_index k h = ap ok (omega (arith, h))

  cell_from-cases :
      (found : Option Bool) (value : Option Datum) (cell : Cell T)
      → cell_from T found value ≡ some cell
      → (exists : Bool) × (found ≡ some exists)
  cell_from-cases none value cell e = absurd (ground arith)
  cell_from-cases (some exists) value cell e = (exists, refl)

  cell_in-inv :
      (column : ColumnData Datum) (block : ColumnBlockData Datum) (b r : ℕ) (cell : Cell T)
      → b < 2 ^ 31
      → r < 2 ^ 31
      → get_elem? column.block_data_array b ≡ some block
      → length block.exists_array ≤ length block.value_array
      → cell_in T block r ≡ some cell
      → IsAt column b r cell
  unfolding cell_in
  cell_in-inv column block b r cell hb hr at within e =
      let (exists, at_exists) = cell_from-cases _ (get_elem? block.value_array r) cell e in
      let inside = get_elem?_lt block.exists_array r at_exists in
      let (value, at_value) = get_elem?-some block.value_array r (omega (arith, inside)) in
      record {
        block = block;
        value = value;
        exists = exists;
        block_index = λ index. narrowed_lem index b hb;
        row_index = λ index. narrowed_lem index r hr;
        at_block = at;
        at_value = at_value;
        at_exists = at_exists;
        same = chosen exists value (ap₂ (cell_from T) (sym at_exists) (sym at_value) ∙ e);
      }
    where
      chosen :
          (exists : Bool) (value : Datum)
          → cell_from T (some exists) (some value) ≡ some cell
          → cell_of T value (not exists) ≡ cell
      chosen true value e = cc
      chosen false value e = cc

  quotient_small : (i size : ℕ) → 0 < size → i < 2 ^ 31 → i / size < 2 ^ 31
  quotient_small i size p h = omega (arith, h, p)

  remainder_small : (i size : ℕ) → 0 < size → i < 2 ^ 31 → i % size < 2 ^ 31
  remainder_small i size p h = omega (arith, h, p)

  IsAt-of_shown :
      (size : ℕ) (cells : List (Cell T)) (column : ColumnData Datum) (i : ℕ) (cell : Cell T)
      → 0 < size
      → length cells ≤ 2 ^ 31
      → ShowsCells size cells column
      → get_elem? cells i ≡ some cell
      → IsAt column (i / size) (i % size) cell
  unfolding cell_at
  IsAt-of_shown size cells column i cell p few h e =
      let small : i < 2 ^ 31 = omega (arith, few, get_elem?_lt cells i e) in
      elim (Option-cases (get_elem? column.block_data_array (i / size))) [
        | inl missing ↦ absurd (ground (arith, h.shown i cell e))
        | inr (block, at) ↦
            cell_in-inv column block (i / size) (i % size) cell (quotient_small i size p small)
              (remainder_small i size p small) at (h.with_values (i / size) block at)
              (rw (at, cell_at) at (h.shown i cell e))
      ]

  bind_congr {ℓ} :
      {S : Type ℓ} (r : Result S) (f g : S → Result S)
      → ((s : S) → f s ≡ g s)
      → (r >>= f) ≡ (r >>= g)
  bind_congr (ok s) f g h = h s
  bind_congr (err e) f g h = refl

  -- One round of a loop that goes on as the fold does.
  round_lem {ℓ} :
      {S : Type ℓ} (step : S → Datum → Result S) (rest : S → Result S) (s : S) (exists : Bool)
      (value : Datum) (cell : Cell T) (cells : List (Cell T))
      → cell_of T value (not exists) ≡ cell
      → ((s : S) → rest s ≡ fold_cells step s cells)
      → ((if exists then step s value else ok s) >>= rest) ≡ fold_cells step s (cell ∷ cells)
  unfolding fold_cells
  round_lem step rest s true value none cells e h = absurd (ground arith)
  round_lem step rest s true value (some v) cells e h =
      let same : value ≡ v = cc in ap (λ w. step s w >>= rest) same ∙ bind_congr (step s v) rest _ h
  round_lem step rest s false value none cells e h = h s
  round_lem step rest s false value (some v) cells e h = absurd (ground arith)

  -- The arrays at the places from row `i` on, by the cells.
  abbrev AreAt : ColumnData Datum → ℕ → ℕ → List (Cell T) → Type 0
  AreAt column size i cells =
      (j : ℕ) (cell : Cell T)
      → get_elem? cells j ≡ some cell
      → IsAt column ((i + j) / size) ((i + j) % size) cell

  AreAt-here :
      (column : ColumnData Datum) (size i : ℕ) (cell : Cell T) (cells : List (Cell T))
      → AreAt column size i (cell ∷ cells)
      → IsAt column (i / size) (i % size) cell
  AreAt-here column size i cell cells h =
      subst (λ k. IsAt column (k / size) (k % size) cell) (omega arith) (h 0 cell refl)

  AreAt-rest :
      (column : ColumnData Datum) (size i : ℕ) (cell : Cell T) (cells : List (Cell T))
      → AreAt column size i (cell ∷ cells)
      → AreAt column size (i + 1) cells
  AreAt-rest column size i cell cells h j c e =
      subst (λ k. IsAt column (k / size) (k % size) c) (omega arith) (h (suc j) c e)

  scan_rows_lem {ℓ} :
      {S : Type ℓ} (index : IndexType) (step : S → Datum → Result S) (column : ColumnData Datum)
      (size i : ℕ) (cells : List (Cell T)) (s : S)
      → AreAt column size i cells
      → scan_rows T index step column size (length cells) i s ≡ fold_cells step s cells
  unfolding scan_rows fold_cells
  scan_rows_lem index step column size i [] s h = refl
  scan_rows_lem index step column size i (cell ∷ cells) s h =
      let at = AreAt-here column size i cell cells h in
      let rest = AreAt-rest column size i cell cells h in
      rw (at.block_index index, at.row_index index, at.at_block, at.at_value, at.at_exists)
        (round_lem step _ s at.exists at.value cell cells at.same
          (λ s. scan_rows_lem index step column size (i + 1) cells s rest))

  scan_exists_lem {ℓ} :
      {S : Type ℓ} (step : S → Result S) (column : ColumnData Datum) (size i : ℕ)
      (cells : List (Cell T)) (s : S)
      → AreAt column size i cells
      → scan_exists T step column size (length cells) i s ≡ fold_cells (λ s v. step s) s cells
  unfolding scan_exists fold_cells
  scan_exists_lem step column size i [] s h = refl
  scan_exists_lem step column size i (cell ∷ cells) s h =
      let at = AreAt-here column size i cell cells h in
      let rest = AreAt-rest column size i cell cells h in
      rw (at.at_block, at.at_exists)
        (round_lem (λ s v. step s) _ s at.exists at.value cell cells at.same
          (λ s. scan_exists_lem step column size (i + 1) cells s rest))

  module _ (size : ℕ) (cells : List (Cell T)) (column : ColumnData Datum) (positive : 0 < size)
      (few : length cells ≤ 2 ^ 31) (h : ShowsCells size cells column) where
    all_at : AreAt column size 0 cells
    all_at j cell e =
        subst (λ k. IsAt column (k / size) (k % size) cell) (omega arith)
          (IsAt-of_shown size cells column j cell positive few h e)

    -- For a column that shows at most 2 ^ 31 cells in blocks of a positive `size`, where the last
    -- block can be shorter, and no block has fewer values than exists flags, and for either type of its
    -- indices: the vectorized loop
    -- never reads out of bounds, and does exactly what a loop over the cells one by one does, errors
    -- included.
    pub for_each_value-eq-fold_cells {ℓ} :
        {S : Type ℓ} (index : IndexType) (step : S → Datum → Result S) (s : S)
        → for_each_value T index step column (length cells) size s ≡ fold_cells step s cells
    unfolding for_each_value
    for_each_value-eq-fold_cells index step s =
        let test : ltb 0 size ≡ true = lt→ltb _ _ positive in
        rw test (scan_rows_lem index step column size 0 cells s all_at)

    pub int8inc_any_vec-eq-fold_cells :
        (arg : ℤ)
        → int8inc_any_vec T arg column (length cells) size
          ≡ fold_cells (λ s v. count_one T arg s) arg cells
    unfolding int8inc_any_vec
    int8inc_any_vec-eq-fold_cells arg =
        let test : ltb 0 size ≡ true = lt→ltb _ _ positive in
        rw test (scan_exists_lem (count_one T arg) column size 0 cells arg all_at)
