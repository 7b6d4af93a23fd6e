-- ===== src/Stripe/Made.antt =====
-- What `FlushStripe` makes of a stripe whose columns can be stored: its footer, and the sizes in
-- the metadata.
use mathlib.Core.Path.{subst}
use postgres_vectorization_t.Compression.External.{Libraries}
use postgres_vectorization_t.Metadata.Footers.{deserialize_stripe_footer, serialize_stripe_footer}
use postgres_vectorization_t.Metadata.Footers.RoundTrip.{
  IsStripeFooter, deserialize-serialize_stripe_footer, serialize_stripe_footer_lem,
}
use postgres_vectorization_t.Metadata.Messages.{Protobuf, SizesFit}
use postgres_vectorization_t.Prelude.{
  All, Bytes, List, Option, [], ap, arith, concat, length, length-append, length-map, map, refl,
  suc, sum, sum-map-length, sym, ℕ, ◌++◌, ◌+◌, ◌<◌, ◌^◌, ◌∙◌, ◌∷◌, ◌≡◌,
}
use postgres_vectorization_t.Report.{first_lem, ok, ok_injective}
use postgres_vectorization_t.Stripe.Columns.{
  AreStoredColumns, add_columns_lem, column_sizes, compress_buffer_array_lem,
  create_exists_buffer_array_lem, create_value_buffer_array_lem, none_stored_columns,
  one_stored_columns,
}
use postgres_vectorization_t.Stripe.Filtered.{concat-data_writes}
use postgres_vectorization_t.Stripe.Flush.{value_bytes}
use postgres_vectorization_t.Stripe.Sections.{
  StripeBuffers, add_array, create_stripe_footer, data_writes, place_columns, stripe_buffers,
  stripe_metadata,
}
use postgres_vectorization_t.Stripe.SkipLists.{
  AreSkipLists, create_skip_list_buffer_array_lem, data_bounds, length-skip_lists,
}
use postgres_vectorization_t.Tupmacs.{Tupmacs}
use postgres_vectorization_t.Types.{
  Attribute, ColumnBlockSkipNode, ColumnData, CompressionType, StripeData, StripeFooter,
  StripeSkipList,
}

module _ (T : Tupmacs) (L : Libraries) (t : CompressionType) where
  open T use {Datum}

  -- The stripe footer.
  abbrev pub stored_footer :
      ℕ → List Bytes → List (List Bytes) → List (List (Bytes × CompressionType)) → StripeFooter
  stored_footer column_count buffers exists values = record {
    column_count = column_count;
    skip_list_size_array = map (λ (b : Bytes). length b) buffers;
    exists_size_array = map (λ (s : ℕ × ℕ). s.0) (column_sizes T L t exists values);
    value_size_array = map (λ (s : ℕ × ℕ). s.1) (column_sizes T L t exists values);
  }

  length-column_sizes :
      {k : ℕ} {attrs : List Attribute} {columns : List (Option (ColumnData Datum))}
      {nodes : List (List (ColumnBlockSkipNode Datum))} {exists raw : List (List Bytes)}
      {values : List (List (Bytes × CompressionType))}
      → AreStoredColumns T L t k attrs columns nodes exists raw values
      → length (column_sizes T L t exists values) ≡ length attrs
  length-column_sizes none_stored_columns = refl
  length-column_sizes (one_stored_columns stored limits others) =
      ap suc (length-column_sizes others)

  column_sizes-SizesFit :
      {k : ℕ} {attrs : List Attribute} {columns : List (Option (ColumnData Datum))}
      {nodes : List (List (ColumnBlockSkipNode Datum))} {exists raw : List (List Bytes)}
      {values : List (List (Bytes × CompressionType))}
      → AreStoredColumns T L t k attrs columns nodes exists raw values
      → k < 2 ^ 31
      → SizesFit (map (λ (s : ℕ × ℕ). s.0) (column_sizes T L t exists values))
        × SizesFit (map (λ (s : ℕ × ℕ). s.1) (column_sizes T L t exists values))
  column_sizes-SizesFit none_stored_columns few = (tt, tt)
  column_sizes-SizesFit (one_stored_columns {a = a} stored limits others) few =
      let (low, high) = data_bounds T L t a stored in
      let (exists_fit, value_fit) = column_sizes-SizesFit others few in
      ((omega (arith, low, few), exists_fit), (omega (arith, high, few), value_fit))

  short-SizesFit :
      (buffers : List Bytes)
      → All (λ (b : Bytes). length b < 2 ^ 32) buffers
      → SizesFit (map (λ (b : Bytes). length b) buffers)
  short-SizesFit [] short = tt
  short-SizesFit (b ∷ buffers) (now, short) = (omega (arith, now), short-SizesFit buffers short)

  pub stored_footer-IsStripeFooter :
      {k : ℕ} {attrs : List Attribute} {columns : List (Option (ColumnData Datum))}
      {nodes : List (List (ColumnBlockSkipNode Datum))} {exists raw : List (List Bytes)}
      {values : List (List (Bytes × CompressionType))} (column_count : ℕ) (buffers : List Bytes)
      → AreStoredColumns T L t k attrs columns nodes exists raw values
      → k < 2 ^ 31
      → column_count ≡ length attrs
      → length attrs < 2 ^ 32
      → length buffers ≡ length attrs
      → All (λ (b : Bytes). length b < 2 ^ 32) buffers
      → IsStripeFooter (stored_footer column_count buffers exists values)
  stored_footer-IsStripeFooter {exists = exists} {values = values} column_count buffers stored few
        same small total short =
      let sizes = column_sizes T L t exists values in
      let count = length-column_sizes stored in
      let fits = column_sizes-SizesFit stored few in
      record {
        column_count_small = omega (arith, same, small);
        skip_list_length = omega (arith, length-map (λ (b : Bytes). length b) buffers, total, same);
        exists_length = omega (arith, length-map (λ (s : ℕ × ℕ). s.0) sizes, count, same);
        value_length = omega (arith, length-map (λ (s : ℕ × ℕ). s.1) sizes, count, same);
        skip_list_fit = short-SizesFit buffers short;
        exists_fit = fits.0;
        value_fit = fits.1;
      }

  sizes_total :
      (exists : List (List Bytes)) (values : List (List (Bytes × CompressionType)))
      → length (concat (data_writes T exists values))
        ≡ sum (map (λ (s : ℕ × ℕ). s.0) (column_sizes T L t exists values))
          + sum (map (λ (s : ℕ × ℕ). s.1) (column_sizes T L t exists values))
  unfolding data_writes
  sizes_total [] values = refl
  sizes_total (es ∷ exists) [] = refl
  sizes_total (es ∷ exists) (vs ∷ values) =
      ap (λ b. length b) (concat-data_writes T L t es vs exists values)
      ∙ omega (
        arith,
        length-append (concat es) (value_bytes T vs ++ concat (data_writes T exists values)),
        length-append (value_bytes T vs) (concat (data_writes T exists values)),
        sizes_total exists values,
      )

  add_array_lem : (sizes : List ℕ) → add_array T (length sizes) sizes ≡ ok (sum sizes)
  unfolding add_array
  add_array_lem [] = refl
  add_array_lem (size ∷ sizes) = simp (add_array_lem sizes)

  module _ (protobuf : Protobuf) where
    -- All that is made before the first write.
    abbrev pub made_buffers :
        StripeSkipList Datum
        → List (List Bytes)
        → List (List (Bytes × CompressionType))
        → List Bytes
        → Bytes
        → StripeBuffers T
    made_buffers skips exists values buffers footer_buffer = record {
      exists_buffer_array = exists;
      value_buffer_array = values;
      skip_list = record skips {
        block_skip_node_array = place_columns T skips.block_skip_node_array exists values;
      };
      skip_list_buffer_array = buffers;
      stripe_footer = stored_footer skips.column_count buffers exists values;
      stripe_footer_buffer = footer_buffer;
    }

    pub write_footer :
        {k : ℕ} {attrs : List Attribute} {columns : List (Option (ColumnData Datum))}
        {nodes : List (List (ColumnBlockSkipNode Datum))} {exists raw : List (List Bytes)}
        {values : List (List (Bytes × CompressionType))} (buffers : List Bytes)
        → AreStoredColumns T L t k attrs columns nodes exists raw values
        → k < 2 ^ 31
        → length attrs < 2 ^ 32
        → length buffers ≡ length attrs
        → (footer_buffer : Bytes) × (serialize_stripe_footer protobuf
              (stored_footer (length attrs) buffers exists values)
            ≡ ok footer_buffer)
          × (All (λ (b : Bytes). length b < 2 ^ 32) buffers
              → deserialize_stripe_footer protobuf footer_buffer
                ≡ ok (stored_footer (length attrs) buffers exists values))
    write_footer {attrs = attrs} {exists = exists} {values = values} buffers stored few width
          total =
        let sizes = column_sizes T L t exists values in
        let count = length-column_sizes stored in
        let footer = stored_footer (length attrs) buffers exists values in
        let written =
          serialize_stripe_footer_lem protobuf footer
            (length-map (λ (b : Bytes). length b) buffers ∙ total)
            (length-map (λ (s : ℕ × ℕ). s.0) sizes ∙ count)
            (length-map (λ (s : ℕ × ℕ). s.1) sizes ∙ count) in
        (
          _,
          written,
          λ short.
              let (out, packed, unpacked) = deserialize-serialize_stripe_footer protobuf footer (
                stored_footer-IsStripeFooter (length attrs) buffers stored few refl width total
                  short) in
              subst (λ b. deserialize_stripe_footer protobuf b ≡ ok footer)
                (ok_injective (sym packed ∙ written)) unpacked,
        )

    pub stripe_buffers_lem :
        (attrs : List Attribute) (stripe_data : StripeData Datum) (skips : StripeSkipList Datum)
        {exists raw : List (List Bytes)} {values : List (List (Bytes × CompressionType))}
        {buffers : List Bytes} {footer_buffer : Bytes}
        → skips.column_count ≡ length attrs
        → AreStoredColumns T L t skips.block_count attrs stripe_data.column_data_array
            skips.block_skip_node_array exists raw values
        → AreSkipLists T L t protobuf skips.block_count attrs
            (place_columns T skips.block_skip_node_array exists values)
            buffers
        → serialize_stripe_footer protobuf (stored_footer (length attrs) buffers exists values)
          ≡ ok footer_buffer
        → stripe_buffers T protobuf L t attrs stripe_data skips
          ≡ ok (made_buffers skips exists values buffers footer_buffer)
    unfolding stripe_buffers create_stripe_footer
    stripe_buffers_lem attrs stripe_data skips {buffers = buffers} {footer_buffer} count stored
          lists written =
        simp count (
          simp (create_exists_buffer_array_lem T L t stored) (
            simp (create_value_buffer_array_lem T L t stored) (
              simp (compress_buffer_array_lem T L t stored) (
                simp (create_skip_list_buffer_array_lem T L t protobuf lists) (
                  simp
                    (
                      add_columns_lem T L t stored,
                      first_lem (length attrs) buffers (length-skip_lists T L t protobuf lists),
                    )
                    (simp written))))))

    -- The sizes in the metadata are those of the buffers.
    pub stripe_metadata_lem :
        {k : ℕ} {attrs : List Attribute} {columns : List (Option (ColumnData Datum))}
        {nodes : List (List (ColumnBlockSkipNode Datum))} {exists raw : List (List Bytes)}
        {values : List (List (Bytes × CompressionType))} (skips : StripeSkipList Datum) (offset : ℕ)
        (buffers : List Bytes) (footer_buffer : Bytes)
        → AreStoredColumns T L t k attrs columns nodes exists raw values
        → length buffers ≡ length attrs
        → stripe_metadata T
            (length attrs)
            offset
            (made_buffers skips exists values buffers footer_buffer)
          ≡ ok (record {
            file_offset = offset;
            skip_list_length = length (concat buffers);
            data_length = length (concat (data_writes T exists values));
            footer_length = length footer_buffer;
          })
    unfolding stripe_metadata
    stripe_metadata_lem {attrs = attrs} {exists = exists} {values = values} skips offset buffers
          footer_buffer stored total =
        let sizes = column_sizes T L t exists values in
        let count = length-column_sizes stored in
        let runs = λ (ns : List ℕ) (e : length ns ≡ length attrs).
          subst (λ n. add_array T n ns ≡ ok (sum ns)) e (add_array_lem ns) in
        simp
          (
            runs (map (λ (b : Bytes). length b) buffers)
                (length-map (λ (b : Bytes). length b) buffers ∙ total),
            runs (map (λ (s : ℕ × ℕ). s.0) sizes) (length-map (λ (s : ℕ × ℕ). s.0) sizes ∙ count),
            runs (map (λ (s : ℕ × ℕ). s.1) sizes) (length-map (λ (s : ℕ × ℕ). s.1) sizes ∙ count),
          )
          (simp (sum-map-length buffers, sizes_total exists values))
