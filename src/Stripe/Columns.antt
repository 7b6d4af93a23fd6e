-- ===== src/Stripe/Columns.antt =====
-- The buffers that the columns of a stripe are stored as.
use mathlib.Core.Path.{ap₂}
use postgres_vectorization_t.Compression.External.{AreLossless, Libraries}
use postgres_vectorization_t.Compression.RoundTrip.{IsPlainType}
use postgres_vectorization_t.Metadata.SkipList.RoundTrip.{HasLimits}
use postgres_vectorization_t.Prelude.{
  All, Bytes, List, Option, [], arith, concat, length, length-append, refl, some, ℕ, ◌++◌, ◌+◌, ◌-◌,
  ◌<◌, ◌^◌, ◌∙◌, ◌∷◌, ◌≡◌,
}
use postgres_vectorization_t.Report.{ok}
use postgres_vectorization_t.Stripe.Flush.{place_nodes, value_bytes}
use postgres_vectorization_t.Stripe.Sections.{
  add_columns, add_sizes, compress_buffer_array, create_exists_buffer_array,
  create_value_buffer_array, place_columns,
}
use postgres_vectorization_t.Stripe.Stored.{
  AreStorable, AreStored, compress_buffers_lem, create_exists_lem, create_value_lem, none_stored,
  one_stored, store_blocks,
}
use postgres_vectorization_t.Tupmacs.{Tupmacs}
use postgres_vectorization_t.Types.{
  Attribute, ColumnBlockData, ColumnBlockSkipNode, ColumnData, CompressionType,
}

module _ (T : Tupmacs) (L : Libraries) (t : CompressionType) where
  open T use {Datum}

  -- Every column's first `k` blocks can be stored, and what limits its nodes have are values of the
  -- column's type.
  pub data AreStorableColumns (size k : ℕ)
      : List Attribute
        → List (Option (ColumnData Datum))
        → List (List (ColumnBlockSkipNode Datum))
        → Type 0 where
    none_storable : AreStorableColumns size k [] [] []
    one_storable :
        {a : Attribute} {column : ColumnData Datum} {ns : List (ColumnBlockSkipNode Datum)}
        {attrs : List Attribute} {columns : List (Option (ColumnData Datum))}
        {nodes : List (List (ColumnBlockSkipNode Datum))}
        → AreStorable T L t a size k column.block_data_array ns
        → All
            (λ (node : ColumnBlockSkipNode Datum).
              HasLimits T a node.has_min_max node.minimum_value node.maximum_value)
            ns
        → AreStorableColumns size k attrs columns nodes
        → AreStorableColumns size k (a ∷ attrs) (some column ∷ columns) (ns ∷ nodes)

  pub data AreStoredColumns (k : ℕ)
      : List Attribute
        → List (Option (ColumnData Datum))
        → List (List (ColumnBlockSkipNode Datum))
        → List (List Bytes)
        → List (List Bytes)
        → List (List (Bytes × CompressionType))
        → Type 0 where
    none_stored_columns : AreStoredColumns k [] [] [] [] [] []
    one_stored_columns :
        {a : Attribute} {column : ColumnData Datum} {ns : List (ColumnBlockSkipNode Datum)}
        {attrs : List Attribute} {columns : List (Option (ColumnData Datum))}
        {nodes : List (List (ColumnBlockSkipNode Datum))} {es raws : List Bytes}
        {vs : List (Bytes × CompressionType)} {exists raw : List (List Bytes)}
        {values : List (List (Bytes × CompressionType))}
        → AreStored T L t a k column.block_data_array ns es raws vs
        → All
            (λ (node : ColumnBlockSkipNode Datum).
              HasLimits T a node.has_min_max node.minimum_value node.maximum_value)
            ns
        → AreStoredColumns k attrs columns nodes exists raw values
        → AreStoredColumns k
            (a ∷ attrs)
            (some column ∷ columns)
            (ns ∷ nodes)
            (es ∷ exists)
            (raws ∷ raw)
            (vs ∷ values)

  pub store_columns :
      (size : ℕ) {k : ℕ} {attrs : List Attribute} {columns : List (Option (ColumnData Datum))}
      {nodes : List (List (ColumnBlockSkipNode Datum))}
      → AreLossless L
      → IsPlainType t
      → size < 2 ^ 32 - 8
      → AreStorableColumns size k attrs columns nodes
      → (exists : List (List Bytes)) × (raw : List (List Bytes)) × (values : List
          (List (Bytes × CompressionType)))
        × AreStoredColumns k attrs columns nodes exists raw values
  store_columns size lossless plain small none_storable = ([], [], [], none_stored_columns)
  store_columns size lossless plain small (one_storable {a = a} one limits others) =
      let (es, raws, vs, stored) = store_blocks T L t a size lossless plain small one in
      let (exists, raw, values, rest) = store_columns size lossless plain small others in
      (es ∷ exists, raws ∷ raw, vs ∷ values, one_stored_columns stored limits rest)

  module _ {k : ℕ} where
    pub create_exists_buffer_array_lem :
        {attrs : List Attribute} {columns : List (Option (ColumnData Datum))}
        {nodes : List (List (ColumnBlockSkipNode Datum))} {exists raw : List (List Bytes)}
        {values : List (List (Bytes × CompressionType))}
        → AreStoredColumns k attrs columns nodes exists raw values
        → create_exists_buffer_array T (length attrs) k columns nodes ≡ ok exists
    unfolding create_exists_buffer_array
    create_exists_buffer_array_lem none_stored_columns = refl
    create_exists_buffer_array_lem (one_stored_columns {a = a} stored limits others) =
        simp (create_exists_lem T L t a stored, create_exists_buffer_array_lem others)

    pub create_value_buffer_array_lem :
        {attrs : List Attribute} {columns : List (Option (ColumnData Datum))}
        {nodes : List (List (ColumnBlockSkipNode Datum))} {exists raw : List (List Bytes)}
        {values : List (List (Bytes × CompressionType))}
        → AreStoredColumns k attrs columns nodes exists raw values
        → create_value_buffer_array T (length attrs) k attrs columns nodes ≡ ok raw
    unfolding create_value_buffer_array
    create_value_buffer_array_lem none_stored_columns = refl
    create_value_buffer_array_lem (one_stored_columns {a = a} stored limits others) =
        simp (create_value_lem T L t a stored, create_value_buffer_array_lem others)

    pub compress_buffer_array_lem :
        {attrs : List Attribute} {columns : List (Option (ColumnData Datum))}
        {nodes : List (List (ColumnBlockSkipNode Datum))} {exists raw : List (List Bytes)}
        {values : List (List (Bytes × CompressionType))}
        → AreStoredColumns k attrs columns nodes exists raw values
        → compress_buffer_array T L t raw ≡ ok values
    unfolding compress_buffer_array
    compress_buffer_array_lem none_stored_columns = refl
    compress_buffer_array_lem (one_stored_columns {a = a} stored limits others) =
        simp (compress_buffers_lem T L t a stored, compress_buffer_array_lem others)

  -- The sizes in the stripe footer: those of the columns' data.
  abbrev pub column_sizes : List (List Bytes) → List (List (Bytes × CompressionType)) → List (ℕ × ℕ)
  column_sizes (es ∷ exists) (vs ∷ values) =
      (length (concat es), length (value_bytes T vs)) ∷ column_sizes exists values
  column_sizes _ _ = []

  add_sizes_lem :
      (a : Attribute) (exists_offset value_offset x y : ℕ) {k : ℕ}
      {blocks : List (ColumnBlockData Datum)} {nodes : List (ColumnBlockSkipNode Datum)}
      {es raws : List Bytes} {vs : List (Bytes × CompressionType)}
      → AreStored T L t a k blocks nodes es raws vs
      → add_sizes T k (place_nodes T exists_offset value_offset nodes es vs) (x, y)
        ≡ ok (x + length (concat es), y + length (value_bytes T vs))
  unfolding add_sizes place_nodes
  add_sizes_lem a exists_offset value_offset x y none_stored =
      let first_same : x ≡ x + 0 = omega arith in
      let second_same : y ≡ y + 0 = omega arith in ap₂ (λ u v. ok (u, v)) first_same second_same
  add_sizes_lem a exists_offset value_offset x y
        (one_stored {exists = exists} {value = value} {es = es} {vs = vs} stored small counted
          rest) =
      let (bytes, kind) = value in
      let first_same : x + length exists + length (concat es) ≡ x + length (exists ++ concat es) =
        omega (arith, length-append exists (concat es)) in
      let second_same : y + length bytes + length (value_bytes T vs)
          ≡ y + length (bytes ++ value_bytes T vs) =
        omega (arith, length-append bytes (value_bytes T vs)) in
      add_sizes_lem a (exists_offset + length exists) (value_offset + length bytes)
        (x + length exists) (y + length bytes) rest
      ∙ ap₂ (λ u v. ok (u, v)) first_same second_same

  column_sizes_lem :
      (a : Attribute) {k : ℕ} {blocks : List (ColumnBlockData Datum)}
      {nodes : List (ColumnBlockSkipNode Datum)} {es raws : List Bytes}
      {vs : List (Bytes × CompressionType)}
      → AreStored T L t a k blocks nodes es raws vs
      → add_sizes T k (place_nodes T 0 0 nodes es vs) (0, 0)
        ≡ ok (length (concat es), length (value_bytes T vs))
  column_sizes_lem a {es = es} {vs = vs} stored =
      let first_same : 0 + length (concat es) ≡ length (concat es) = omega arith in
      let second_same : 0 + length (value_bytes T vs) ≡ length (value_bytes T vs) = omega arith in
      add_sizes_lem a 0 0 0 0 stored ∙ ap₂ (λ u v. ok (u, v)) first_same second_same

  pub add_columns_lem :
      {k : ℕ} {attrs : List Attribute} {columns : List (Option (ColumnData Datum))}
      {nodes : List (List (ColumnBlockSkipNode Datum))} {exists raw : List (List Bytes)}
      {values : List (List (Bytes × CompressionType))}
      → AreStoredColumns k attrs columns nodes exists raw values
      → add_columns T (length attrs) k (place_columns T nodes exists values)
        ≡ ok (column_sizes exists values)
  unfolding add_columns place_columns
  add_columns_lem none_stored_columns = refl
  add_columns_lem (one_stored_columns {a = a} stored limits others) =
      simp (column_sizes_lem a stored, add_columns_lem others)
