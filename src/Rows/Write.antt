-- ===== src/Rows/Write.antt =====
-- Writing a row keeps the buffers, and appends its cells to what they hold.
use mathlib.Core.Bool.{false≢true}
use mathlib.Core.Path.{subst}
use postgres_vectorization_t.Prelude.{
  ==_iff, Bool, Bool-cases, List, [], ap, arith, false, get_elem?, get_elem?-set_ne,
  get_elem?-set_self, get_elem?-some, get_elem?_lt, inl, inr, length, length-append, length-set,
  refl, set, some, suc, sym, true, zero, ℕ, ◌%◌, ◌++◌, ◌+◌, ◌/◌, ◌<◌, ◌==◌, ◌∙◌, ◌∷◌, ◌≡◌, ◌≢◌, ◌⊎◌,
}
use postgres_vectorization_t.Report.{ok}
use postgres_vectorization_t.Rows.{write_column}
use postgres_vectorization_t.Rows.Counts.{block_rows-suc, same_place}
use postgres_vectorization_t.Rows.Holds.{
  Cell, CellWritten, ColumnHolds, IsBlock, IsCellOf, IsCounted, cell_at, cell_of, write_cell_lem,
}
use postgres_vectorization_t.Tupmacs.{Tupmacs}
use postgres_vectorization_t.Types.{Attribute, ColumnBlockData, ColumnBlockSkipNode, ColumnData}

module _ (T : Tupmacs) where
  open T use {Datum, zero_datum, IsValueOf}

  -- The elements of a list after one is replaced: the new one, or an old one.
  set_cases {ℓ} :
      {A : Type ℓ} (xs : List A) (i j : ℕ) (v : A) {x : A}
      → get_elem? (set xs i v) j ≡ some x
      → ((i ≡ j) × (x ≡ v)) ⊎ ((i ≢ j) × (get_elem? xs j ≡ some x))
  set_cases xs i j v e = elim (Bool-cases (i == j)) [
    | inl same ↦
        let p : i ≡ j = (==_iff _ _).0 same in
        let inside : j < length xs =
          omega (arith, get_elem?_lt (set xs i v) j e, length-set xs i v) in
        let got : get_elem? (set xs i v) j ≡ some v =
          ap (λ k. get_elem? (set xs k v) j) p ∙ get_elem?-set_self xs j v inside in
        inl (p, cc)
    | inr other ↦
        let ne : i ≢ j = λ p. false≢true (sym other ∙ (==_iff _ _).1 p) in
        inr (ne, sym (get_elem?-set_ne xs i j v ne) ∙ e)
  ]

  -- The elements of a list with one more at its end.
  append_cases {ℓ} :
      {A : Type ℓ} (xs : List A) (i : ℕ) (v : A) {x : A}
      → get_elem? (xs ++ v ∷ []) i ≡ some x
      → ((i ≡ length xs) × (v ≡ x)) ⊎ ((i ≢ length xs) × (get_elem? xs i ≡ some x))
  append_cases [] zero v e = inl (refl, cc)
  append_cases [] (suc i) v e = absurd (ground arith)
  append_cases (y ∷ xs) zero v e = inr (omega arith, e)
  append_cases (y ∷ xs) (suc i) v e = elim (append_cases xs i v e) [
    | inl (p, q) ↦ inl (ap suc p, q)
    | inr (ne, q) ↦ inr (omega (arith, ne), q)
  ]

  set_blocks :
      (a : Attribute) (size q r : ℕ) {cell : Cell T} {block written : ColumnBlockData Datum}
      (blocks : List (ColumnBlockData Datum))
      → ((b : ℕ) (x : ColumnBlockData Datum) → get_elem? blocks b ≡ some x → IsBlock T a size x)
      → CellWritten T a size r cell block written
      → (b : ℕ) (x : ColumnBlockData Datum) → get_elem? (set blocks q written) b ≡ some x
      → IsBlock T a size x
  set_blocks a size q r {written = written} blocks h w b x e =
      elim (set_cases blocks q b written e) [
        | inl (same, p) ↦ subst (IsBlock T a size) (sym p) w.is_block
        | inr (ne, p) ↦ h b x p
      ]

  -- The written cell stands at its place, and every other where it was.
  cell_at-set_here :
      (a : Attribute) (size q r : ℕ) {cell : Cell T} {block written : ColumnBlockData Datum}
      (column : ColumnData Datum)
      → get_elem? column.block_data_array q ≡ some block
      → CellWritten T a size r cell block written
      → cell_at T (record { block_data_array = set column.block_data_array q written }) q r
        ≡ some cell
  unfolding cell_at
  cell_at-set_here a size q r {written = written} column e w =
      let inside = get_elem?_lt column.block_data_array q e in
      rw (get_elem?-set_self column.block_data_array q written inside, cell_at) w.here

  cell_at-set_ne :
      (a : Attribute) (size q r q' r' : ℕ) {cell : Cell T} {block written : ColumnBlockData Datum}
      (column : ColumnData Datum)
      → get_elem? column.block_data_array q ≡ some block
      → CellWritten T a size r cell block written
      → ¬ ((q ≡ q') × (r ≡ r'))
      → cell_at T (record { block_data_array = set column.block_data_array q written }) q' r'
        ≡ cell_at T column q' r'
  unfolding cell_at
  cell_at-set_ne a size q r q' r' {written = written} column e w ne = elim (Bool-cases (q == q')) [
    | inl same ↦
        let p : q ≡ q' = (==_iff _ _).0 same in
        let inside = get_elem?_lt column.block_data_array q e in
        let at : get_elem? (set column.block_data_array q written) q' ≡ some written =
          ap (get_elem? (set column.block_data_array q written)) (sym p)
          ∙ get_elem?-set_self column.block_data_array q written inside in
        let before = ap (get_elem? column.block_data_array) (sym p) ∙ e in
        rw (at, cell_at, before) (w.elsewhere r' (λ s. ne (p, s)))
    | inr other ↦
        let differ : q ≢ q' = λ p. false≢true (sym other ∙ (==_iff _ _).1 p) in
        rw (get_elem?-set_ne column.block_data_array q q' written differ, cell_at)
  ]

  set_nodes :
      (n size : ℕ) {node : ColumnBlockSkipNode Datum} (nodes : List (ColumnBlockSkipNode Datum))
      → 0 < size
      → ((b : ℕ) (x : ColumnBlockSkipNode Datum)
          → get_elem? nodes b ≡ some x
          → IsCounted T n size b x)
      → get_elem? nodes (n / size) ≡ some node
      → (b : ℕ) (x : ColumnBlockSkipNode Datum)
      → get_elem? (set nodes (n / size) (record node { row_count = node.row_count + 1 })) b ≡ some x
      → IsCounted T (n + 1) size b x
  set_nodes n size {node} nodes positive h at b x e =
      elim (set_cases nodes (n / size) b (record node { row_count = node.row_count + 1 }) e) [
        | inl (same, p) ↦
            let old = h b node (ap (get_elem? nodes) (sym same) ∙ at) in
            let test : (n / size == b) ≡ true = (==_iff _ _).1 same in
            subst (IsCounted T (n + 1) size b) (sym p) (record {
              counted =
                  ap (λ (k : ℕ). k + 1) old.counted
                  ∙ sym (block_rows-suc n size b positive ∙ (rw test));
              no_limits = old.no_limits;
              no_minimum = old.no_minimum;
              no_maximum = old.no_maximum;
            })
        | inr (ne, p) ↦
            let old = h b x p in
            let test : (n / size == b) ≡ false = ground (arith, ne) in
            record {
              counted = old.counted ∙ sym (block_rows-suc n size b positive ∙ (rw test));
              no_limits = old.no_limits;
              no_minimum = old.no_minimum;
              no_maximum = old.no_maximum;
            }
      ]

  module _ (a : Attribute) (size count : ℕ) (positive : 0 < size) where
    -- The three parts of a write put together.
    holds_written :
        (cell : Cell T) (cells : List (Cell T)) (column : ColumnData Datum)
        (nodes : List (ColumnBlockSkipNode Datum)) {block written : ColumnBlockData Datum}
        {node : ColumnBlockSkipNode Datum}
        → get_elem? column.block_data_array (length cells / size) ≡ some block
        → get_elem? nodes (length cells / size) ≡ some node
        → CellWritten T a size (length cells % size) cell block written
        → ColumnHolds T a size count cells column nodes
        → ColumnHolds T a size count
            (cells ++ cell ∷ [])
            (record {
              block_data_array = set column.block_data_array (length cells / size) written;
            })
            (set nodes (length cells / size) (record node { row_count = node.row_count + 1 }))
    holds_written cell cells column nodes {block} {written} {node} at at_node w h =
        let n = length cells in
        let after : ColumnData Datum = record {
          block_data_array = set column.block_data_array (n / size) written;
        } in
        let longer : length (cells ++ cell ∷ []) ≡ n + 1 = length-append cells (cell ∷ []) in
        record {
          block_total = length-set column.block_data_array (n / size) written ∙ h.block_total;
          node_total = length-set nodes (n / size) _ ∙ h.node_total;
          blocks = set_blocks a size (n / size) (n % size) column.block_data_array h.blocks w;
          held = λ i x e. elim (append_cases cells i cell e) [
            | inl (last, p) ↦
                subst (λ k. cell_at T after (k / size) (k % size) ≡ some x) (sym last)
                  (cell_at-set_here a size (n / size) (n % size) column at w ∙ ap some p)
            | inr (ne, p) ↦
                cell_at-set_ne a size (n / size) (n % size) (i / size) (i % size) column at w
                  (λ both. ne (sym (same_place n i size both.0 both.1)))
                ∙ h.held i x p
          ];
          nodes_counted = λ b x e.
              subst (λ k. IsCounted T k size b x) (sym longer)
                (set_nodes n size nodes positive h.nodes_counted at_node b x e);
        }

    pub write_column_lem :
        (v : Datum) (is_null : Bool) (cells : List (Cell T)) (column : ColumnData Datum)
        (nodes : List (ColumnBlockSkipNode Datum))
        → length cells / size < count
        → ColumnHolds T a size count cells column nodes
        → IsCellOf T a (cell_of T v is_null)
        → (r : ColumnData Datum × List (ColumnBlockSkipNode Datum)) × (write_column T a v is_null
              (length cells / size)
              (length cells % size)
              column
              nodes
            ≡ ok r)
          × ColumnHolds T a size count (cells ++ cell_of T v is_null ∷ []) r.0 r.1
    unfolding write_column
    write_column_lem v is_null cells column nodes room h hv =
        let q = length cells / size in
        let (block, at) = get_elem?-some column.block_data_array q (omega (arith, h.block_total)) in
        let (node, at_node) = get_elem?-some nodes q (omega (arith, h.node_total)) in
        let (written, runs, w) =
          write_cell_lem T a size (length cells % size) v is_null block (omega arith)
            (h.blocks q block at) hv in
        (
          (
            record { block_data_array = set column.block_data_array q written },
            set nodes q (record node { row_count = node.row_count + 1 }),
          ),
          rw (at, at_node, runs),
          holds_written (cell_of T v is_null) cells column nodes at at_node w h,
        )
