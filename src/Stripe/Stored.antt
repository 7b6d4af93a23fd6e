-- ===== src/Stripe/Stored.antt =====
-- The buffers that a column's blocks are stored as, and that the blocks can be loaded from them.
use mathlib.Core.Path.{subst}
use postgres_vectorization_t.Compression.{compress_block}
use postgres_vectorization_t.Compression.External.{AreLossless, Libraries}
use postgres_vectorization_t.Compression.RoundTrip.{IsPlainType}
use postgres_vectorization_t.Datums.{serialize_datum_array}
use postgres_vectorization_t.Prelude.{
  Bytes, List, [], ap, append_assoc, arith, concat, length, length-append, refl, suc, sym, take,
  uint32, zero, ℕ, ◌++◌, ◌+◌, ◌-◌, ◌<◌, ◌^◌, ◌∙◌, ◌∷◌, ◌≡◌, ◌≤◌,
}
use postgres_vectorization_t.Report.{ok}
use postgres_vectorization_t.Rows.Holds.{IsBlock}
use postgres_vectorization_t.Stripe.Blocks.{
  IsStoredBlock, read_blocks, read_from_file_lem, store_block,
}
use postgres_vectorization_t.Stripe.Flush.{
  compress_buffers, create_exists_buffers, create_value_buffers, place_nodes, value_bytes,
}
use postgres_vectorization_t.Stripe.Load.{read_from_file}
use postgres_vectorization_t.Stripe.Loadable.{AreLoadable, none_loadable, one_loadable}
use postgres_vectorization_t.Tupmacs.{Tupmacs}
use postgres_vectorization_t.Types.{
  Attribute, ColumnBlockData, ColumnBlockSkipNode, CompressionType,
}

module _ (T : Tupmacs) (L : Libraries) (t : CompressionType) (a : Attribute) where
  open T use {Datum}

  -- The first `k` blocks can be stored: each has room for `size` rows, of which its node counts
  -- some, its raw value buffer is below 2 GiB, and the stored one has a `uint32` length.
  pub data AreStorable (size : ℕ)
      : ℕ → List (ColumnBlockData Datum) → List (ColumnBlockSkipNode Datum) → Type 0 where
    no_block :
        {blocks : List (ColumnBlockData Datum)} {nodes : List (ColumnBlockSkipNode Datum)}
        → AreStorable size zero blocks nodes
    one_block :
        {k : ℕ} {block : ColumnBlockData Datum} {blocks : List (ColumnBlockData Datum)}
        {node : ColumnBlockSkipNode Datum} {nodes : List (ColumnBlockSkipNode Datum)}
        → IsBlock T a size block
        → node.row_count ≤ size
        → ((raw : Bytes)
            → serialize_datum_array T block.value_array block.exists_array (uint32 node.row_count) a
              ≡ ok raw
            → (length raw < 2 ^ 31)
              × ((value : Bytes × CompressionType)
                  → compress_block L t raw ≡ ok value
                  → length value.0 < 2 ^ 32))
        → AreStorable size k blocks nodes
        → AreStorable size (suc k) (block ∷ blocks) (node ∷ nodes)

  -- The buffers that the first `k` blocks are stored as.
  pub data AreStored
      : ℕ
        → List (ColumnBlockData Datum)
        → List (ColumnBlockSkipNode Datum)
        → List Bytes
        → List Bytes
        → List (Bytes × CompressionType)
        → Type 0 where
    none_stored :
        {blocks : List (ColumnBlockData Datum)} {nodes : List (ColumnBlockSkipNode Datum)}
        → AreStored zero blocks nodes [] [] []
    one_stored :
        {k : ℕ} {block : ColumnBlockData Datum} {blocks : List (ColumnBlockData Datum)}
        {node : ColumnBlockSkipNode Datum} {nodes : List (ColumnBlockSkipNode Datum)}
        {exists raw : Bytes} {value : Bytes × CompressionType} {es raws : List Bytes}
        {vs : List (Bytes × CompressionType)}
        → IsStoredBlock T L t a (uint32 node.row_count) block exists raw value
        → length value.0 < 2 ^ 32
        → node.row_count < 2 ^ 32
        → AreStored k blocks nodes es raws vs
        → AreStored (suc k) (block ∷ blocks) (node ∷ nodes) (exists ∷ es) (raw ∷ raws) (value ∷ vs)

  pub store_blocks :
      (size : ℕ) {k : ℕ} {blocks : List (ColumnBlockData Datum)}
      {nodes : List (ColumnBlockSkipNode Datum)}
      → AreLossless L
      → IsPlainType t
      → size < 2 ^ 32 - 8
      → AreStorable size k blocks nodes
      → (es : List Bytes) × (raws : List Bytes) × (vs : List (Bytes × CompressionType)) × AreStored
          k blocks nodes es raws vs
  store_blocks size lossless plain small no_block = ([], [], [], none_stored)
  store_blocks size lossless plain small
        (one_block {block = block} {node = node} is_block few short others) =
      let (exists, raw, value, stored) =
        store_block T L t a size (uint32 node.row_count) block lossless plain is_block
          (omega (arith, few)) small (λ raw e. (short raw e).0) in
      let (es, raws, vs, rest) = store_blocks size lossless plain small others in
      (
        exists ∷ es,
        raw ∷ raws,
        value ∷ vs,
        one_stored stored ((short raw stored.raw_written).1 value stored.compressed)
            (omega (arith, few)) rest,
      )

  pub create_exists_lem :
      {k : ℕ} {blocks : List (ColumnBlockData Datum)} {nodes : List (ColumnBlockSkipNode Datum)}
      {es raws : List Bytes} {vs : List (Bytes × CompressionType)}
      → AreStored k blocks nodes es raws vs
      → create_exists_buffers T k blocks nodes ≡ ok es
  unfolding create_exists_buffers
  create_exists_lem none_stored = refl
  create_exists_lem (one_stored stored small counted rest) =
      simp (stored.exists_written, create_exists_lem rest)

  pub create_value_lem :
      {k : ℕ} {blocks : List (ColumnBlockData Datum)} {nodes : List (ColumnBlockSkipNode Datum)}
      {es raws : List Bytes} {vs : List (Bytes × CompressionType)}
      → AreStored k blocks nodes es raws vs
      → create_value_buffers T a k blocks nodes ≡ ok raws
  unfolding create_value_buffers
  create_value_lem none_stored = refl
  create_value_lem (one_stored stored small counted rest) =
      simp (stored.raw_written, create_value_lem rest)

  pub compress_buffers_lem :
      {k : ℕ} {blocks : List (ColumnBlockData Datum)} {nodes : List (ColumnBlockSkipNode Datum)}
      {es raws : List Bytes} {vs : List (Bytes × CompressionType)}
      → AreStored k blocks nodes es raws vs
      → compress_buffers T L t raws ≡ ok vs
  unfolding compress_buffers
  compress_buffers_lem none_stored = refl
  compress_buffers_lem (one_stored stored small counted rest) =
      simp (stored.compressed, compress_buffers_lem rest)

  -- The number of nodes that are written.
  pub length-placed :
      (exists_offset value_offset : ℕ) {k : ℕ} {blocks : List (ColumnBlockData Datum)}
      {nodes : List (ColumnBlockSkipNode Datum)} {es raws : List Bytes}
      {vs : List (Bytes × CompressionType)}
      → AreStored k blocks nodes es raws vs
      → length (take k (place_nodes T exists_offset value_offset nodes es vs)) ≡ k
  unfolding place_nodes
  length-placed exists_offset value_offset none_stored = refl
  length-placed exists_offset value_offset
        (one_stored {exists = exists} {value = value} stored small counted rest) =
      ap suc (length-placed (exists_offset + length exists) (value_offset + length value.0) rest)

  -- Where the exists buffers and the value buffers of the blocks that are left stand in the file,
  -- the blocks can be loaded by the placed nodes.
  pub stored-AreLoadable :
      (file : Bytes) (exists_base value_base exists_offset value_offset : ℕ)
      (pre post before after : Bytes) {k : ℕ} {blocks : List (ColumnBlockData Datum)}
      {nodes : List (ColumnBlockSkipNode Datum)} {es raws : List Bytes}
      {vs : List (Bytes × CompressionType)}
      → AreStored k blocks nodes es raws vs
      → file ≡ pre ++ (concat es ++ post)
      → exists_base + exists_offset ≡ length pre
      → file ≡ before ++ (value_bytes T vs ++ after)
      → value_base + value_offset ≡ length before
      → AreLoadable T L a file exists_base value_base
          (take k (place_nodes T exists_offset value_offset nodes es vs))
          (read_blocks T k blocks nodes)
  unfolding place_nodes
  stored-AreLoadable file exists_base value_base exists_offset value_offset pre post before after
        none_stored same at same' at' =
      none_loadable
  stored-AreLoadable file exists_base value_base exists_offset value_offset pre post before after
        (one_stored {exists = exists} {raw = raw} {value = value} {es = es} {vs = vs} stored small
          counted rest)
        same at same' at' =
      let (bytes, kind) = value in
      one_loadable {exists = exists} {value = bytes} {raw = raw}
        (record {
          exists_found =
              found exists (concat es) pre post (exists_base + exists_offset) same at
                stored.exists_short;
          exists_read = stored.exists_read;
          value_found =
              found bytes (value_bytes T vs) before after (value_base + value_offset) same' at'
                small;
          decompressed = stored.decompressed;
          values_read = stored.values_read;
        })
        (stored-AreLoadable file exists_base value_base (exists_offset + length exists)
          (value_offset + length bytes) (pre ++ exists) post (before ++ bytes) after rest
          (same ∙ behind exists (concat es) pre post) (omega (arith, at, length-append pre exists))
          (same' ∙ behind bytes (value_bytes T vs) before after)
          (omega (arith, at', length-append before bytes)))
    where
      behind :
          (b more pre post : Bytes) → pre ++ ((b ++ more) ++ post) ≡ (pre ++ b) ++ (more ++ post)
      behind b more pre post =
          ap (λ c. pre ++ c) (append_assoc b more post) ∙ sym (append_assoc pre b (more ++ post))

      found :
          (b more pre post : Bytes) (offset : ℕ)
          → file ≡ pre ++ ((b ++ more) ++ post)
          → offset ≡ length pre
          → length b < 2 ^ 32
          → read_from_file file offset (length b) ≡ ok b
      found b more pre post offset same at small =
          subst (λ f. read_from_file f offset (length b) ≡ ok b)
            (sym (same ∙ ap (λ c. pre ++ c) (append_assoc b more post)))
            (read_from_file_lem pre b (more ++ post) offset (length b) at refl small)
