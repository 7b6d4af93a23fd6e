-- ===== src/Stripe/SkipLists.antt =====
-- The skip lists of a stripe are read back as they were written.
use mathlib.Core.Path.{subst}
use postgres_vectorization_t.Compression.External.{AreLossless, Libraries}
use postgres_vectorization_t.Compression.RoundTrip.{IsPlainType, compress_block-IsNamed}
use postgres_vectorization_t.Metadata.Messages.{Protobuf}
use postgres_vectorization_t.Metadata.SkipList.{
  deserialize_block_count, deserialize_column_skip_list, serialize_column_skip_list,
}
use postgres_vectorization_t.Metadata.SkipList.RoundTrip.{
  HasLimits, IsNode, deserialize-serialize_column_skip_list,
}
use postgres_vectorization_t.Prelude.{
  All, Bytes, List, Option, [], ap, append_assoc, arith, concat, length, length-append, map, refl,
  suc, sym, take, take_le, ℕ, ◌*◌, ◌++◌, ◌+◌, ◌<◌, ◌^◌, ◌∙◌, ◌∷◌, ◌≡◌, ◌≤◌,
}
use postgres_vectorization_t.Report.{ok}
use postgres_vectorization_t.Stripe.Blocks.{read_from_file_lem}
use postgres_vectorization_t.Stripe.Columns.{
  AreStoredColumns, none_stored_columns, one_stored_columns,
}
use postgres_vectorization_t.Stripe.Flush.{place_nodes, value_bytes}
use postgres_vectorization_t.Stripe.Load.{read_from_file}
use postgres_vectorization_t.Stripe.Scan.{load_skip_lists}
use postgres_vectorization_t.Stripe.Sections.{create_skip_list_buffer_array, place_columns}
use postgres_vectorization_t.Stripe.Stored.{AreStored, length-placed, none_stored, one_stored}
use postgres_vectorization_t.Tupmacs.{Tupmacs}
use postgres_vectorization_t.Types.{
  Attribute, ColumnBlockData, ColumnBlockSkipNode, ColumnData, CompressionType,
}

module _ (T : Tupmacs) (L : Libraries) (t : CompressionType) where
  open T use {Datum}

  -- The data of `k` blocks is short of 2 ^ 32 bytes for each.
  pub data_bounds :
      (a : Attribute) {k : ℕ} {blocks : List (ColumnBlockData Datum)}
      {nodes : List (ColumnBlockSkipNode Datum)} {es raws : List Bytes}
      {vs : List (Bytes × CompressionType)}
      → AreStored T L t a k blocks nodes es raws vs
      → (length (concat es) ≤ k * 2 ^ 32) × (length (value_bytes T vs) ≤ k * 2 ^ 32)
  data_bounds a none_stored = (omega arith, omega arith)
  data_bounds a
        (one_stored {exists = exists} {value = (bytes, kind)} {es = es} {vs = vs} stored small
          counted rest) =
      let (low, high) = data_bounds a rest in
      (
        omega (arith, length-append exists (concat es), low, stored.exists_short),
        omega (arith, length-append bytes (value_bytes T vs), high, small),
      )

  -- The placed nodes are well formed.
  placed-IsNode :
      (a : Attribute) (exists_offset value_offset : ℕ) {k : ℕ}
      {blocks : List (ColumnBlockData Datum)} {nodes : List (ColumnBlockSkipNode Datum)}
      {es raws : List Bytes} {vs : List (Bytes × CompressionType)}
      → AreLossless L
      → IsPlainType t
      → AreStored T L t a k blocks nodes es raws vs
      → All
          (λ (node : ColumnBlockSkipNode Datum).
            HasLimits T a node.has_min_max node.minimum_value node.maximum_value)
          nodes
      → exists_offset + k * 2 ^ 32 < 2 ^ 64
      → value_offset + k * 2 ^ 32 < 2 ^ 64
      → All (IsNode T a) (take k (place_nodes T exists_offset value_offset nodes es vs))
  unfolding place_nodes
  placed-IsNode a exists_offset value_offset lossless plain none_stored limits p q = tt
  placed-IsNode a exists_offset value_offset lossless plain
        (one_stored {exists = exists} {raw = raw} {value = (bytes, kind)} stored small counted rest)
        limits p q =
      let named = compress_block-IsNamed L lossless t raw plain stored.compressed in
      let short = stored.exists_short in
      (
        record {
          row_count_small = omega (arith, counted);
          value_block_offset_small = omega (arith, q);
          value_length_small = omega (arith, small);
          exists_block_offset_small = omega (arith, p);
          exists_length_small = omega (arith, short);
          enum_small = named.0;
          named = named.1;
          limits = limits.0;
        },
        placed-IsNode a (exists_offset + length exists) (value_offset + length bytes) lossless plain
            rest limits.1 (omega (arith, p, short)) (omega (arith, q, small)),
      )

  module _ (protobuf : Protobuf) where
    -- The buffers of the columns' skip lists, and what is read from them.
    pub data AreSkipLists (k : ℕ)
        : List Attribute → List (List (ColumnBlockSkipNode Datum)) → List Bytes → Type 0 where
      no_list : AreSkipLists k [] [] []
      one_list :
          {a : Attribute} {ns : List (ColumnBlockSkipNode Datum)} {buffer : Bytes}
          {attrs : List Attribute} {nodes : List (List (ColumnBlockSkipNode Datum))}
          {buffers : List Bytes}
          → serialize_column_skip_list T protobuf ns k a ≡ ok buffer
          → deserialize_block_count T protobuf buffer ≡ ok k
          → deserialize_column_skip_list T protobuf buffer a k ≡ ok (take k ns)
          → length (take k ns) ≡ k
          → AreSkipLists k attrs nodes buffers
          → AreSkipLists k (a ∷ attrs) (ns ∷ nodes) (buffer ∷ buffers)

    pub write_skip_lists :
        {k : ℕ} {attrs : List Attribute} {columns : List (Option (ColumnData Datum))}
        {nodes : List (List (ColumnBlockSkipNode Datum))} {exists raw : List (List Bytes)}
        {values : List (List (Bytes × CompressionType))}
        → AreLossless L
        → IsPlainType t
        → k < 2 ^ 31
        → AreStoredColumns T L t k attrs columns nodes exists raw values
        → (buffers : List Bytes) × AreSkipLists k attrs
            (place_columns T nodes exists values)
            buffers
    unfolding place_columns
    write_skip_lists lossless plain few none_stored_columns = ([], no_list)
    write_skip_lists {k} lossless plain few
          (one_stored_columns {a = a} {ns = ns} {es = es} {vs = vs} stored limits others) =
        let (buffers, rest) = write_skip_lists lossless plain few others in
        let placed = place_nodes T 0 0 ns es vs in
        let total = length-placed T L t a 0 0 stored in
        let (buffer, written, counted, read) =
          deserialize-serialize_column_skip_list T protobuf a placed k (take_le k placed total)
            (omega (arith, few))
            (placed-IsNode a 0 0 lossless plain stored limits (omega (arith, few))
              (omega (arith, few))) in
        (buffer ∷ buffers, one_list written counted read total rest)

    pub create_skip_list_buffer_array_lem :
        {k : ℕ} {attrs : List Attribute} {nodes : List (List (ColumnBlockSkipNode Datum))}
        {buffers : List Bytes}
        → AreSkipLists k attrs nodes buffers
        → create_skip_list_buffer_array T protobuf (length attrs) k attrs nodes ≡ ok buffers
    unfolding create_skip_list_buffer_array
    create_skip_list_buffer_array_lem no_list = refl
    create_skip_list_buffer_array_lem (one_list written counted read total others) =
        simp (written, create_skip_list_buffer_array_lem others)

    pub length-skip_lists :
        {k : ℕ} {attrs : List Attribute} {nodes : List (List (ColumnBlockSkipNode Datum))}
        {buffers : List Bytes}
        → AreSkipLists k attrs nodes buffers
        → length buffers ≡ length attrs
    length-skip_lists no_list = refl
    length-skip_lists (one_list written counted read total others) =
        ap suc (length-skip_lists others)

    pub load_skip_lists_lem :
        {k : ℕ} (file pre post : Bytes) (offset : ℕ) {attrs : List Attribute}
        {nodes : List (List (ColumnBlockSkipNode Datum))} {buffers : List Bytes}
        → AreSkipLists k attrs nodes buffers
        → All (λ (b : Bytes). length b < 2 ^ 32) buffers
        → file ≡ pre ++ (concat buffers ++ post)
        → offset ≡ length pre
        → load_skip_lists T protobuf file k
            (length attrs)
            (map (λ (b : Bytes). length b) buffers)
            attrs
            offset
          ≡ ok (map (take k) nodes)
    unfolding load_skip_lists
    load_skip_lists_lem file pre post offset no_list short same at = refl
    load_skip_lists_lem file pre post offset
          (one_list {buffer = buffer} {buffers = buffers} written counted read total others) short
          same at =
        let here : file ≡ pre ++ (buffer ++ (concat buffers ++ post)) =
          same ∙ ap (λ b. pre ++ b) (append_assoc buffer (concat buffers) post) in
        let found : read_from_file file offset (length buffer) ≡ ok buffer =
          subst (λ f. read_from_file f offset (length buffer) ≡ ok buffer) (sym here)
            (read_from_file_lem pre buffer (concat buffers ++ post) offset (length buffer) at refl
              short.0) in
        let next =
          load_skip_lists_lem file (pre ++ buffer) post (offset + length buffer) others short.1
            (here ∙ sym (append_assoc pre buffer (concat buffers ++ post)))
            (omega (arith, at, length-append pre buffer)) in
        simp (found, read, next)
