-- ===== src/Rows/Holds.antt =====
-- When the buffers of a column hold a given sequence of cells.
use mathlib.Core.Path.{ap₂}
use postgres_vectorization_t.Datums.RoundTrip.{ArePresent, datum_copy_lem}
use postgres_vectorization_t.Prelude.{
  Bool, List, Option, [], ap, arith, false, get_elem?, get_elem?-set_ne, get_elem?-set_self, length,
  length-set, ltb, lt→ltb, none, set, some, suc, true, zero, ℕ, ◌%◌, ◌/◌, ◌<◌, ◌∙◌, ◌∷◌, ◌≡◌, ◌≢◌,
}
use postgres_vectorization_t.Report.{ok}
use postgres_vectorization_t.Rows.{write_cell}
use postgres_vectorization_t.Rows.Counts.{block_rows}
use postgres_vectorization_t.Tupmacs.{Tupmacs}
use postgres_vectorization_t.Types.{Attribute, ColumnBlockData, ColumnBlockSkipNode, ColumnData}

module _ (T : Tupmacs) where
  open T use {Datum, zero_datum, IsValueOf}

  -- The entry of one column in one row: null, or a value.
  abbrev pub Cell : Type 0
  Cell = Option Datum

  abbrev pub cell_of : Datum → Bool → Cell
  cell_of value true = none
  cell_of value false = some value

  -- What a block has at an index; the outer `none` stands for an index past its arrays.
  abbrev pub cell_from : Option Bool → Option Datum → Option Cell
  cell_from none value = none
  cell_from (some false) value = some none
  cell_from (some true) none = none
  cell_from (some true) (some value) = some (some value)

  unfoldable pub cell_in : ColumnBlockData Datum → ℕ → Option Cell
  cell_in block r = cell_from (get_elem? block.exists_array r) (get_elem? block.value_array r)

  unfoldable pub cell_at : ColumnData Datum → ℕ → ℕ → Option Cell
  cell_at column b r = elim (get_elem? column.block_data_array b) [
    | none ↦ none
    | some block ↦ cell_in block r
  ]

  -- A block with room for `size` rows, whose present values are of the attribute's type.
  pub record IsBlock (a : Attribute) (size : ℕ) (block : ColumnBlockData Datum) : Type 0 where
    pub exists_size : length block.exists_array ≡ size
    pub value_size : length block.value_array ≡ size
    pub present : ArePresent T a block.value_array block.exists_array

  -- The node of block `b` after `n` rows: their number in this block, and no minimum or maximum.
  pub record IsCounted (n size b : ℕ) (node : ColumnBlockSkipNode Datum) : Type 0 where
    pub counted : node.row_count ≡ block_rows n size b
    pub no_limits : node.has_min_max ≡ false
    pub no_minimum : node.minimum_value ≡ zero_datum
    pub no_maximum : node.maximum_value ≡ zero_datum

  -- The column holds the cells, row `i` at index `i % size` of block `i / size`, in `count` blocks
  -- of `size` rows, and its nodes count them.
  pub record ColumnHolds (a : Attribute) (size count : ℕ) (cells : List Cell)
      (column : ColumnData Datum) (nodes : List (ColumnBlockSkipNode Datum)) : Type 0 where
    pub block_total : length column.block_data_array ≡ count
    pub node_total : length nodes ≡ count
    pub blocks :
        (b : ℕ) (block : ColumnBlockData Datum)
        → get_elem? column.block_data_array b ≡ some block
        → IsBlock a size block
    pub held :
        (i : ℕ) (cell : Cell)
        → get_elem? cells i ≡ some cell
        → cell_at column (i / size) (i % size) ≡ some cell
    pub nodes_counted :
        (b : ℕ) (node : ColumnBlockSkipNode Datum)
        → get_elem? nodes b ≡ some node
        → IsCounted (length cells) size b node

  -- A value that is to be stored: null, or of the attribute's type.
  abbrev pub IsCellOf : Attribute → Cell → Type 0
  IsCellOf a none = Unit
  IsCellOf a (some value) = IsValueOf a value

  ArePresent-set-false :
      (a : Attribute) (ds : List Datum) (es : List Bool) (r : ℕ)
      → ArePresent T a ds es
      → ArePresent T a ds (set es r false)
  ArePresent-set-false a [] es r h = tt
  ArePresent-set-false a (d ∷ ds) [] r h = tt
  ArePresent-set-false a (d ∷ ds) (true ∷ es) zero h = h.1
  ArePresent-set-false a (d ∷ ds) (false ∷ es) zero h = h
  ArePresent-set-false a (d ∷ ds) (true ∷ es) (suc r) h = (h.0, ArePresent-set-false a ds es r h.1)
  ArePresent-set-false a (d ∷ ds) (false ∷ es) (suc r) h = ArePresent-set-false a ds es r h

  ArePresent-set-true :
      (a : Attribute) (ds : List Datum) (es : List Bool) (r : ℕ) (v : Datum)
      → IsValueOf a v
      → ArePresent T a ds es
      → ArePresent T a (set ds r v) (set es r true)
  ArePresent-set-true a [] es r v hv h = tt
  ArePresent-set-true a (d ∷ ds) [] zero v hv h = tt
  ArePresent-set-true a (d ∷ ds) [] (suc r) v hv h = tt
  ArePresent-set-true a (d ∷ ds) (true ∷ es) zero v hv h = (hv, h.1)
  ArePresent-set-true a (d ∷ ds) (false ∷ es) zero v hv h = (hv, h)
  ArePresent-set-true a (d ∷ ds) (true ∷ es) (suc r) v hv h =
      (h.0, ArePresent-set-true a ds es r v hv h.1)
  ArePresent-set-true a (d ∷ ds) (false ∷ es) (suc r) v hv h = ArePresent-set-true a ds es r v hv h

  -- What one write leaves in a block: the cell at `r`, and every other as it was.
  pub record CellWritten (a : Attribute) (size r : ℕ) (cell : Cell)
      (block written : ColumnBlockData Datum) : Type 0 where
    pub is_block : IsBlock a size written
    pub here : cell_in written r ≡ some cell
    pub elsewhere : (s : ℕ) → r ≢ s → cell_in written s ≡ cell_in block s

  pub write_cell_lem :
      (a : Attribute) (size r : ℕ) (v : Datum) (is_null : Bool) (block : ColumnBlockData Datum)
      → r < size
      → IsBlock a size block
      → IsCellOf a (cell_of v is_null)
      → (written : ColumnBlockData Datum) × (write_cell T a v is_null r block ≡ ok written)
        × CellWritten a size r (cell_of v is_null) block written
  unfolding write_cell cell_in
  write_cell_lem a size r v true block h k hv =
      let inside : ltb r (length block.exists_array) ≡ true =
        lt→ltb _ _ (omega (arith, k.exists_size)) in
      (
        record block { exists_array = set block.exists_array r false },
        rw inside,
        record {
          is_block = record {
            exists_size = length-set block.exists_array r false ∙ k.exists_size;
            value_size = k.value_size;
            present = ArePresent-set-false a block.value_array block.exists_array r k.present;
          };
          here =
              ap (λ e. cell_from e (get_elem? block.value_array r))
                (get_elem?-set_self block.exists_array r false (omega (arith, k.exists_size)));
          elsewhere = λ s ne.
              ap (λ e. cell_from e (get_elem? block.value_array s))
                (get_elem?-set_ne block.exists_array r s false ne);
        },
      )
  write_cell_lem a size r v false block h k hv =
      let inside : ltb r (length block.exists_array) ≡ true =
        lt→ltb _ _ (omega (arith, k.exists_size)) in
      let within : ltb r (length block.value_array) ≡ true =
        lt→ltb _ _ (omega (arith, k.value_size)) in
      let copied = datum_copy_lem T a v hv in
      (
        record block {
          exists_array = set block.exists_array r true;
          value_array = set block.value_array r v;
        },
        rw (inside, within, copied),
        record {
          is_block = record {
            exists_size = length-set block.exists_array r true ∙ k.exists_size;
            value_size = length-set block.value_array r v ∙ k.value_size;
            present = ArePresent-set-true a block.value_array block.exists_array r v hv k.present;
          };
          here =
              ap₂ cell_from
                (get_elem?-set_self block.exists_array r true (omega (arith, k.exists_size)))
                (get_elem?-set_self block.value_array r v (omega (arith, k.value_size)));
          elsewhere = λ s ne.
              ap₂ cell_from (get_elem?-set_ne block.exists_array r s true ne)
                (get_elem?-set_ne block.value_array r s v ne);
        },
      )
