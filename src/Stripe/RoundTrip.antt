-- ===== src/Stripe/RoundTrip.antt =====
-- A column that was flushed is loaded from where the file holds it.
use mathlib.Core.Path.{subst}
use postgres_vectorization_t.Compression.External.{AreLossless, Libraries}
use postgres_vectorization_t.Compression.RoundTrip.{IsPlainType}
use postgres_vectorization_t.Prelude.{
  Bytes, List, ap, append_assoc, arith, concat, length, length-append, sym, take, ℕ, ◌++◌, ◌+◌, ◌-◌,
  ◌<◌, ◌^◌, ◌∙◌, ◌≡◌,
}
use postgres_vectorization_t.Report.{ok}
use postgres_vectorization_t.Stripe.Blocks.{read_blocks}
use postgres_vectorization_t.Stripe.Flush.{column_bytes, flush_column, place_nodes, value_bytes}
use postgres_vectorization_t.Stripe.Load.{load_column_data}
use postgres_vectorization_t.Stripe.Loadable.{load_column_data-take, load_column_data_lem}
use postgres_vectorization_t.Stripe.Stored.{
  AreStorable, compress_buffers_lem, create_exists_lem, create_value_lem, length-placed,
  store_blocks, stored-AreLoadable,
}
use postgres_vectorization_t.Tupmacs.{Tupmacs}
use postgres_vectorization_t.Types.{Attribute, ColumnBlockSkipNode, ColumnData, CompressionType}

module _ (T : Tupmacs) (L : Libraries) (t : CompressionType) (a : Attribute) where
  open T use {Datum}

  -- For a column of which the first `k` blocks can be stored, in blocks small enough for the
  -- exists buffer's bits to be counted in a `uint32`, with a compression type that calls no
  -- enclave and lossless libraries: flushing the column succeeds; and loading it with the updated
  -- skip nodes, from any file that holds the exists buffers and then the value buffers at the
  -- offsets that are passed, succeeds and gives each block with the rows that its node counts.
  pub load_column_data-flush_column :
      (size k : ℕ) (column : ColumnData Datum) (nodes : List (ColumnBlockSkipNode Datum))
      (pre post : Bytes)
      → AreLossless L
      → IsPlainType t
      → size < 2 ^ 32 - 8
      → AreStorable T L t a size k column.block_data_array nodes
      → (es : List Bytes) × (vs : List (Bytes × CompressionType)) × (placed : List
          (ColumnBlockSkipNode Datum))
        × (flush_column T L t a k column nodes ≡ ok (es, vs, placed))
        × (load_column_data T L
              (pre ++ (column_bytes T es vs ++ post))
              placed
              k
              (length pre)
              (length pre + length (concat es))
              a
            ≡ ok (record { block_data_array = read_blocks T k column.block_data_array nodes }))
  unfolding flush_column
  load_column_data-flush_column size k column nodes pre post lossless plain small can =
      let (es, raws, vs, stored) = store_blocks T L t a size lossless plain small can in
      let file = pre ++ (column_bytes T es vs ++ post) in
      let split : column_bytes T es vs ++ post ≡ concat es ++ (value_bytes T vs ++ post) =
        append_assoc (concat es) (value_bytes T vs) post in
      let exists_here : file ≡ pre ++ (concat es ++ (value_bytes T vs ++ post)) =
        ap (λ b. pre ++ b) split in
      let values_here : file ≡ (pre ++ concat es) ++ (value_bytes T vs ++ post) =
        exists_here ∙ sym (append_assoc pre (concat es) (value_bytes T vs ++ post)) in
      let loadable =
        stored-AreLoadable T L t a file (length pre) (length pre + length (concat es)) 0 0 pre
          (value_bytes T vs ++ post) (pre ++ concat es) post stored exists_here (omega arith)
          values_here (omega (arith, length-append pre (concat es))) in
      let placed = place_nodes T 0 0 nodes es vs in
      let count : length (take k placed) ≡ k = length-placed T L t a 0 0 stored in
      (
        es,
        vs,
        placed,
        simp (
          create_exists_lem T L t a stored,
          create_value_lem T L t a stored,
          compress_buffers_lem T L t a stored,
        ),
        sym (
              load_column_data-take T L a file k placed (length pre)
                (length pre + length (concat es)))
            ∙ subst
                (λ n.
                  load_column_data T L file (take k placed) n (length pre)
                    (length pre + length (concat es)) a
                  ≡ ok
                      (record { block_data_array = read_blocks T k column.block_data_array nodes }))
                count (load_column_data_lem T L a loadable),
      )
