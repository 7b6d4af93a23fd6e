-- ===== src/Stripe/Loadable.antt =====
-- Blocks that can be loaded by their skip nodes from a file, one by one, and so in any selection.
use postgres_vectorization_t.Bools.{deserialize_bool_array}
use postgres_vectorization_t.Compression.{decompress_buffer}
use postgres_vectorization_t.Compression.External.{Libraries}
use postgres_vectorization_t.Datums.{deserialize_datum_array}
use postgres_vectorization_t.Prelude.{
  Bool, Bytes, List, [], false, kept, length, map, refl, some, suc, take, true, uint32, zero, ℕ,
  ◌+◌, ◌∷◌, ◌≡◌,
}
use postgres_vectorization_t.Report.{ok}
use postgres_vectorization_t.Stripe.Load.{
  deserialize_buffer, load_column_data, load_exists, load_values, read_from_file,
}
use postgres_vectorization_t.Tupmacs.{Tupmacs}
use postgres_vectorization_t.Types.{Attribute, ColumnBlockData, ColumnBlockSkipNode}

module _ (T : Tupmacs) (L : Libraries) (a : Attribute) where
  open T use {Datum}

  -- By the node, both buffers of the block are found, and they decode as the block.
  pub record IsLoadable (file : Bytes) (exists_base value_base : ℕ)
      (node : ColumnBlockSkipNode Datum) (block : ColumnBlockData Datum) (exists value raw : Bytes)
      : Type 0 where
    pub exists_found :
        read_from_file file (exists_base + node.exists_block_offset) node.exists_length ≡ ok exists
    pub exists_read : deserialize_bool_array exists (uint32 node.row_count) ≡ ok block.exists_array
    pub value_found :
        read_from_file file (value_base + node.value_block_offset) node.value_length ≡ ok value
    pub decompressed : decompress_buffer L value node.value_compression_type ≡ ok (some raw)
    pub values_read :
        deserialize_datum_array T raw block.exists_array (uint32 node.row_count) a
        ≡ ok block.value_array

  pub data AreLoadable (file : Bytes) (exists_base value_base : ℕ)
      : List (ColumnBlockSkipNode Datum) → List (ColumnBlockData Datum) → Type 0 where
    none_loadable : AreLoadable file exists_base value_base [] []
    one_loadable :
        {node : ColumnBlockSkipNode Datum} {block : ColumnBlockData Datum}
        {nodes : List (ColumnBlockSkipNode Datum)} {blocks : List (ColumnBlockData Datum)}
        {exists value raw : Bytes}
        → IsLoadable file exists_base value_base node block exists value raw
        → AreLoadable file exists_base value_base nodes blocks
        → AreLoadable file exists_base value_base (node ∷ nodes) (block ∷ blocks)

  module _ {file : Bytes} {exists_base value_base : ℕ} where
    load_exists_lem :
        {nodes : List (ColumnBlockSkipNode Datum)} {blocks : List (ColumnBlockData Datum)}
        → AreLoadable file exists_base value_base nodes blocks
        → load_exists T file (length nodes) nodes exists_base
          ≡ ok (map (λ (b : ColumnBlockData Datum). b.exists_array) blocks)
    unfolding load_exists
    load_exists_lem none_loadable = refl
    load_exists_lem (one_loadable one others) =
        simp (one.exists_found, one.exists_read, load_exists_lem others)

    load_values_lem :
        {nodes : List (ColumnBlockSkipNode Datum)} {blocks : List (ColumnBlockData Datum)}
        → AreLoadable file exists_base value_base nodes blocks
        → load_values T L file a
            (length nodes)
            nodes
            (map (λ (b : ColumnBlockData Datum). b.exists_array) blocks)
            value_base
          ≡ ok blocks
    unfolding load_values deserialize_buffer
    load_values_lem none_loadable = refl
    load_values_lem (one_loadable one others) =
        simp (one.value_found, one.decompressed, one.values_read, load_values_lem others)

    -- A column whose blocks can be loaded is loaded.
    pub load_column_data_lem :
        {nodes : List (ColumnBlockSkipNode Datum)} {blocks : List (ColumnBlockData Datum)}
        → AreLoadable file exists_base value_base nodes blocks
        → load_column_data T L file nodes (length nodes) exists_base value_base a
          ≡ ok (record { block_data_array = blocks })
    unfolding load_column_data
    load_column_data_lem h = simp (load_exists_lem h) (simp (load_values_lem h))

    pub kept-AreLoadable :
        (mask : List Bool) {nodes : List (ColumnBlockSkipNode Datum)}
        {blocks : List (ColumnBlockData Datum)}
        → AreLoadable file exists_base value_base nodes blocks
        → AreLoadable file exists_base value_base (kept mask nodes) (kept mask blocks)
    kept-AreLoadable [] h = none_loadable
    kept-AreLoadable (selected ∷ mask) none_loadable = none_loadable
    kept-AreLoadable (true ∷ mask) (one_loadable one others) =
        one_loadable one (kept-AreLoadable mask others)
    kept-AreLoadable (false ∷ mask) (one_loadable one others) = kept-AreLoadable mask others

  load_exists-take :
      (file : Bytes) (k : ℕ) (nodes : List (ColumnBlockSkipNode Datum)) (base : ℕ)
      → load_exists T file k (take k nodes) base ≡ load_exists T file k nodes base
  unfolding load_exists
  load_exists-take file zero nodes base = refl
  load_exists-take file (suc k) [] base = refl
  load_exists-take file (suc k) (node ∷ nodes) base = rw (load_exists-take file k nodes base)

  load_values-take :
      (file : Bytes) (k : ℕ) (nodes : List (ColumnBlockSkipNode Datum)) (es : List (List Bool))
      (base : ℕ)
      → load_values T L file a k (take k nodes) es base ≡ load_values T L file a k nodes es base
  unfolding load_values
  load_values-take file zero nodes es base = refl
  load_values-take file (suc k) [] es base = refl
  load_values-take file (suc k) (node ∷ nodes) [] base = refl
  load_values-take file (suc k) (node ∷ nodes) (e ∷ es) base =
      rw (load_values-take file k nodes es base)

  -- Nodes past the block count are not read.
  pub load_column_data-take :
      (file : Bytes) (k : ℕ) (nodes : List (ColumnBlockSkipNode Datum)) (exists_base value_base : ℕ)
      → load_column_data T L file (take k nodes) k exists_base value_base a
        ≡ load_column_data T L file nodes k exists_base value_base a
  unfolding load_column_data
  load_column_data-take file k nodes exists_base value_base =
      simp (load_exists-take file k nodes exists_base, load_values-take file k nodes)
