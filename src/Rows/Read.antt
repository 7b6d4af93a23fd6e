-- ===== src/Rows/Read.antt =====
-- Reading one row of a stripe: the projected columns show their cells, all others are null.
use mathlib.Core.Bool.{false≢true}
use mathlib.Core.Path.{ap₂}
use postgres_vectorization_t.Prelude.{
  ==_iff, Bool, Bool-cases, List, Option, Option-cases, [], ap, arith, false, get_elem?,
  get_elem?-replicate, get_elem?-set_ne, get_elem?-set_self, if◌then◌else◌, inl, inr, length,
  length-replicate, length-set, ltb, lt→ltb, none, refl, replicate, set, some, sym, true, uint32, ℕ,
  ◌+◌, ◌-◌, ◌<◌, ◌==◌, ◌^◌, ◌||◌, ◌∙◌, ◌∷◌, ◌≡◌, ◌≢◌,
}
use postgres_vectorization_t.Report.{ok}
use postgres_vectorization_t.Rows.{read_column, read_columns, read_stripe_next_row, read_value}
use postgres_vectorization_t.Rows.Holds.{Cell, cell_at, cell_in}
use postgres_vectorization_t.Tupmacs.{Tupmacs}
use postgres_vectorization_t.Types.{ColumnBlockData, ColumnData, StripeData}

-- Whether column `k` is one of the projected `varattno`s.
abbrev pub projects : List ℕ → ℕ → Bool
projects [] k = false
projects (varattno ∷ projected) k = uint32 (varattno + 2 ^ 32 - 1) == k || projects projected k

module _ (T : Tupmacs) where
  open T use {Datum, zero_datum}

  abbrev row_cell_from : Option Bool → Option Datum → Option (Cell T)
  row_cell_from none value = none
  row_cell_from (some true) value = some none
  row_cell_from (some false) none = none
  row_cell_from (some false) (some value) = some (some value)

  -- What the value and null arrays say of column `k`.
  unfoldable pub row_cell : List Datum × List Bool → ℕ → Option (Cell T)
  row_cell (values, nulls) k = row_cell_from (get_elem? nulls k) (get_elem? values k)

  -- The column at `k` is loaded, and has the cell at the given place.
  abbrev pub Shows : List (Option (ColumnData Datum)) → ℕ → ℕ → ℕ → Cell T → Type 0
  Shows columns b r k cell =
      (column : ColumnData Datum) × (get_elem? columns k ≡ some (some column))
      × (cell_at T column b r ≡ some cell)

  abbrev overlay : Cell T → Option (Cell T) → Option (Cell T)
  overlay none old = old
  overlay (some v) old = some (some v)

  overlay_twice : (c : Cell T) (o : Option (Cell T)) → overlay c (overlay c o) ≡ overlay c o
  overlay_twice none o = refl
  overlay_twice (some v) o = refl

  -- What one round does to the arrays.
  record IsRead (index : ℕ) (cell : Cell T) (size : ℕ) (old new : List Datum × List Bool)
      : Type 0 where
    values_size : length new.0 ≡ size
    nulls_size : length new.1 ≡ size
    shown :
        (k : ℕ)
        → row_cell new k ≡ (if index == k then overlay cell (row_cell old k) else row_cell old k)

  shown_at :
      (index : ℕ) (values : List Datum) (nulls : List Bool) (v : Datum) (k : ℕ)
      → index < length values
      → index < length nulls
      → row_cell (set values index v, set nulls index false) k
        ≡ (if index == k then some (some v) else row_cell (values, nulls) k)
  unfolding row_cell
  shown_at index values nulls v k p q = elim (Bool-cases (index == k)) [
    | inl e ↦
        let same : index ≡ k = (==_iff _ _).0 e in
        rw e (
          ap₂ row_cell_from
            (ap (get_elem? (set nulls index false)) (sym same)
              ∙ get_elem?-set_self nulls index false q)
            (ap (get_elem? (set values index v)) (sym same) ∙ get_elem?-set_self values index v p))
    | inr e ↦
        let ne : index ≢ k = λ t. false≢true (sym e ∙ (==_iff _ _).1 t) in
        rw e (
          ap₂ row_cell_from (get_elem?-set_ne nulls index k false ne)
            (get_elem?-set_ne values index k v ne))
  ]

  read_value_lem :
      (exists : Bool) (index r size : ℕ) (block : ColumnBlockData Datum) {cell : Cell T}
      (row : List Datum × List Bool)
      → get_elem? block.exists_array r ≡ some exists
      → cell_in T block r ≡ some cell
      → length row.0 ≡ size
      → length row.1 ≡ size
      → index < size
      → (new : List Datum × List Bool) × (read_value T exists index r block row ≡ ok new)
        × IsRead index cell size row new
  unfolding read_value cell_in
  read_value_lem false index r size block {cell} row e c hv hn h =
      let absent : cell ≡ none = ground arith in
      (
        row,
        refl,
        record { values_size = hv; nulls_size = hn; shown = λ k. rw absent (ground arith) },
      )
  read_value_lem true index r size block {cell} (values, nulls) e c hv hn h =
      elim (Option-cases (get_elem? block.value_array r)) [
        | inl missing ↦ absurd (ground arith)
        | inr (v, at) ↦
            let present : cell ≡ some v = ground arith in
            let in_values : ltb index (length values) ≡ true = lt→ltb _ _ (omega (arith, hv)) in
            let in_nulls : ltb index (length nulls) ≡ true = lt→ltb _ _ (omega (arith, hn)) in
            (
              (set values index v, set nulls index false),
              rw (at, in_values, in_nulls),
              record {
                values_size = length-set values index v ∙ hv;
                nulls_size = length-set nulls index false ∙ hn;
                shown = λ k.
                    rw present
                      (shown_at index values nulls v k (omega (arith, hv)) (omega (arith, hn)));
              },
            )
      ]

  exists_of_cell :
      (block : ColumnBlockData Datum) (r : ℕ) {cell : Cell T}
      → cell_in T block r ≡ some cell
      → (exists : Bool) × (get_elem? block.exists_array r ≡ some exists)
  unfolding cell_in
  exists_of_cell block r c = elim (Option-cases (get_elem? block.exists_array r)) [
    | inl missing ↦ absurd (ground arith)
    | inr found ↦ found
  ]

  block_of_cell :
      (column : ColumnData Datum) (b r : ℕ) {cell : Cell T}
      → cell_at T column b r ≡ some cell
      → (block : ColumnBlockData Datum) × (get_elem? column.block_data_array b ≡ some block)
        × (cell_in T block r ≡ some cell)
  unfolding cell_at
  block_of_cell column b r {cell} c = elim (Option-cases (get_elem? column.block_data_array b)) [
    | inl missing ↦ absurd (ground arith)
    | inr (block, at) ↦ (block, at, rw (at, cell_at) at c)
  ]

  read_column_lem :
      (index b r size : ℕ) (columns : List (Option (ColumnData Datum))) {cell : Cell T}
      (row : List Datum × List Bool)
      → Shows columns b r index cell
      → length row.0 ≡ size
      → length row.1 ≡ size
      → index < size
      → (new : List Datum × List Bool) × (read_column T index b r columns row ≡ ok new)
        × IsRead index cell size row new
  unfolding read_column
  read_column_lem index b r size columns row (column, at_column, c) hv hn h =
      let (block, at_block, in_block) = block_of_cell column b r c in
      let (exists, at_exists) = exists_of_cell block r in_block in
      let (new, runs, is_read) =
        read_value_lem exists index r size block row at_exists in_block hv hn h in
      (new, rw (at_column, at_block, at_exists, runs), is_read)

  -- The arrays after the loop: the projected columns overlaid with their cells.
  record AreRead (projected : List ℕ) (cells : ℕ → Cell T) (size : ℕ)
      (old new : List Datum × List Bool) : Type 0 where
    values_size : length new.0 ≡ size
    nulls_size : length new.1 ≡ size
    shown :
        (k : ℕ)
        → row_cell new k
          ≡ (if projects projected k then overlay (cells k) (row_cell old k) else row_cell old k)

  AreRead-cons :
      (varattno : ℕ) (projected : List ℕ) (cells : ℕ → Cell T) (size : ℕ)
      (old mid new : List Datum × List Bool)
      → IsRead
          (uint32 (varattno + 2 ^ 32 - 1))
          (cells (uint32 (varattno + 2 ^ 32 - 1)))
          size
          old
          mid
      → AreRead projected cells size mid new
      → AreRead (varattno ∷ projected) cells size old new
  AreRead-cons varattno projected cells size old mid new one rest =
      let index = uint32 (varattno + 2 ^ 32 - 1) in
      record {
        values_size = rest.values_size;
        nulls_size = rest.nulls_size;
        shown = λ k. rest.shown k ∙ elim (Bool-cases (index == k)) [
          | inl e ↦
              let same : index ≡ k = (==_iff _ _).0 e in
              let first : row_cell mid k ≡ overlay (cells k) (row_cell old k) =
                one.shown k ∙ rw e (ap (λ j. overlay (cells j) (row_cell old k)) same) in
              elim (Bool-cases (projects projected k)) [
                | inl p ↦ rw (e, p, first) (overlay_twice (cells k) (row_cell old k))
                | inr p ↦ rw (e, p) first
              ]
          | inr e ↦
              let first : row_cell mid k ≡ row_cell old k = one.shown k ∙ rw e in rw (e, first)
        ];
      }

  read_columns_lem :
      (projected : List ℕ) (b r size : ℕ) (columns : List (Option (ColumnData Datum)))
      (cells : ℕ → Cell T) (row : List Datum × List Bool)
      → ((k : ℕ) → projects projected k ≡ true → (k < size) × Shows columns b r k (cells k))
      → length row.0 ≡ size
      → length row.1 ≡ size
      → (new : List Datum × List Bool) × (read_columns T projected b r columns row ≡ ok new)
        × AreRead projected cells size row new
  unfolding read_columns
  read_columns_lem [] b r size columns cells row h hv hn =
      (row, refl, record { values_size = hv; nulls_size = hn; shown = λ k. refl })
  read_columns_lem (varattno ∷ projected) b r size columns cells row h hv hn =
      let index = uint32 (varattno + 2 ^ 32 - 1) in
      let here = h index (ground arith) in
      let (mid, runs, one) = read_column_lem index b r size columns row here.1 hv hn here.0 in
      let (new, go, rest) =
        read_columns_lem projected b r size columns cells mid (λ k p. h k (ground arith))
          one.values_size one.nulls_size in
      (new, rw (runs, go), AreRead-cons varattno projected cells size row mid new one rest)

  row_cell-all_null :
      (values : List Datum) (size k : ℕ)
      → k < size
      → row_cell (values, replicate size true) k ≡ some none
  unfolding row_cell
  row_cell-all_null values size k h = rw (get_elem?-replicate size k true h)

  -- For a stripe whose projected columns are loaded and have, at block `b` and row `r`, the cells
  -- `cells k`, and a value array of the stripe's column count: reading the row succeeds, and every
  -- projected column then shows its cell, and every other column of the table is null.
  pub read_stripe_next_row-Shows :
      (stripe : StripeData Datum) (projected : List ℕ) (b r : ℕ) (cells : ℕ → Cell T)
      (values : List Datum)
      → ((k : ℕ)
          → projects projected k ≡ true
          → (k < stripe.column_count) × Shows stripe.column_data_array b r k (cells k))
      → length values ≡ stripe.column_count
      → (new : List Datum × List Bool) × (read_stripe_next_row T stripe projected b r values
          ≡ ok new)
        × ((k : ℕ)
            → k < stripe.column_count
            → row_cell new k ≡ some (if projects projected k then cells k else none))
  unfolding read_stripe_next_row
  read_stripe_next_row-Shows stripe projected b r cells values h hv =
      let count = stripe.column_count in
      let (new, runs, read) =
        read_columns_lem projected b r count stripe.column_data_array cells
          (values, replicate count true) h hv (length-replicate count true) in
      (new, runs, λ k p. read.shown k ∙ rw (row_cell-all_null values count k p) (shown_cell k))
    where
      shown_cell :
          (k : ℕ)
          → (if projects projected k then overlay (cells k) (some none) else some none)
            ≡ some (if projects projected k then cells k else none)
      shown_cell k = ground arith
