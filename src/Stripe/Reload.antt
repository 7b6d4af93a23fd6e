-- ===== src/Stripe/Reload.antt =====
-- What `FlushStripe` writes of a stripe, `LoadFilteredStripeData` finds again.
use mathlib.Core.Path.{subst}
use postgres_vectorization_t.Compression.External.{AreLossless, Libraries}
use postgres_vectorization_t.Compression.RoundTrip.{IsPlainType}
use postgres_vectorization_t.Metadata.Messages.{Protobuf}
use postgres_vectorization_t.Prelude.{
  Bool, Bytes, List, ap, append-nil, append_assoc, arith, concat, concat-append, length,
  length-append, map, refl, sym, take, true, ℕ, ◌++◌, ◌+◌, ◌-◌, ◌<◌, ◌^◌, ◌∙◌, ◌≡◌,
}
use postgres_vectorization_t.Report.{ok}
use postgres_vectorization_t.Rows.Read.{projects}
use postgres_vectorization_t.Selection.{Planner, projected_column_mask, selected_block_mask}
use postgres_vectorization_t.Selection.Masks.{projected_column_mask_total}
use postgres_vectorization_t.Stripe.Columns.{AreStorableColumns}
use postgres_vectorization_t.Stripe.Filtered.{load_columns_lem, loaded_columns}
use postgres_vectorization_t.Stripe.Found.{load_stripe_footer_lem, load_stripe_skip_list_lem}
use postgres_vectorization_t.Stripe.Made.{made_buffers, stored_footer, stripe_metadata_lem}
use postgres_vectorization_t.Stripe.Scan.{load_filtered_stripe_data}
use postgres_vectorization_t.Stripe.Sections.{
  StripeBuffers, data_writes, place_columns, stripe_buffers, stripe_metadata, stripe_writes,
}
use postgres_vectorization_t.Stripe.SkipLists.{length-skip_lists}
use postgres_vectorization_t.Stripe.Whole.{
  IsMade, IsShort, kept_rows, kept_rows_lem, selected_total, stripe_buffers_total, taken_count,
  taken_sizes,
}
use postgres_vectorization_t.Tupmacs.{Tupmacs}
use postgres_vectorization_t.Types.{
  Attribute, CompressionType, StripeData, StripeMetadata, StripeSkipList,
}

module _ (T : Tupmacs) (L : Libraries) (t : CompressionType) (protobuf : Protobuf) where
  open T use {Datum}

  -- The stripe that a scan loads from the file: the blocks that the planner does not refute, of
  -- the projected columns.
  pub record IsReloaded (planner : Planner Datum) (attrs : List Attribute) (projected : List ℕ)
      (stripe_data : StripeData Datum) (skips : StripeSkipList Datum) (b : StripeBuffers T)
      (file : Bytes) (m : StripeMetadata) : Type 0 where
    pub mask : List Bool
    pub marks : List Bool
    pub mask_made :
        selected_block_mask planner
          (record b.skip_list {
            block_skip_node_array = map (take skips.block_count) b.skip_list.block_skip_node_array;
          })
          projected
        ≡ ok mask
    pub mask_length : length mask ≡ skips.block_count
    pub marks_made : projected_column_mask (length attrs) projected ≡ ok marks
    pub marks_length : length marks ≡ length attrs
    pub loaded :
        load_filtered_stripe_data T L protobuf planner file m attrs projected
        ≡ ok (record {
          column_count = length attrs;
          row_count = kept_rows T L t protobuf skips.block_count mask skips.block_skip_node_array;
          column_data_array =
              loaded_columns T mask skips.block_count marks stripe_data.column_data_array
                skips.block_skip_node_array;
        })

  concat-stripe_writes :
      (b : StripeBuffers T)
      → concat (stripe_writes T b)
        ≡ concat b.skip_list_buffer_array
          ++ (concat (data_writes T b.exists_buffer_array b.value_buffer_array)
              ++ b.stripe_footer_buffer)
  unfolding stripe_writes
  concat-stripe_writes b =
      let data_section = data_writes T b.exists_buffer_array b.value_buffer_array in
      concat-append b.skip_list_buffer_array _
      ∙ ap (λ x. concat b.skip_list_buffer_array ++ x)
          (concat-append data_section _
            ∙ ap (λ x. concat data_section ++ x) (append-nil b.stripe_footer_buffer))

  -- Where the skip lists, the data and the footer are in a file.
  sections :
      (b : StripeBuffers T) (pre post : Bytes)
      → (pre ++ (concat (stripe_writes T b) ++ post)
          ≡ pre
            ++ (concat b.skip_list_buffer_array
                ++ ((concat (data_writes T b.exists_buffer_array b.value_buffer_array)
                      ++ b.stripe_footer_buffer)
                    ++ post)))
        × (pre ++ (concat (stripe_writes T b) ++ post)
            ≡ (pre ++ concat b.skip_list_buffer_array)
              ++ (concat (data_writes T b.exists_buffer_array b.value_buffer_array)
                  ++ (b.stripe_footer_buffer ++ post)))
        × (pre ++ (concat (stripe_writes T b) ++ post)
            ≡ ((pre ++ concat b.skip_list_buffer_array)
                ++ concat (data_writes T b.exists_buffer_array b.value_buffer_array))
              ++ (b.stripe_footer_buffer ++ post))
  sections b pre post =
      let lists = concat b.skip_list_buffer_array in
      let data_section = concat (data_writes T b.exists_buffer_array b.value_buffer_array) in
      let footer = b.stripe_footer_buffer in
      let whole =
        ap (λ x. pre ++ (x ++ post)) (concat-stripe_writes b)
        ∙ ap (λ x. pre ++ x) (append_assoc lists (data_section ++ footer) post) in
      let behind =
        whole
        ∙ ap (λ x. pre ++ (lists ++ x)) (append_assoc data_section footer post)
        ∙ sym (append_assoc pre lists (data_section ++ (footer ++ post))) in
      (whole, behind, behind ∙ sym (append_assoc (pre ++ lists) data_section (footer ++ post)))

  module _ (planner : Planner Datum) (attrs : List Attribute) (projected : List ℕ) where
    abbrev made_of :
        {stripe_data : StripeData Datum} {skips : StripeSkipList Datum}
        → IsMade T L t protobuf attrs stripe_data skips
        → StripeBuffers T
    made_of {skips = skips} made =
        made_buffers T L t protobuf skips made.exists made.values made.buffers made.footer_buffer

    abbrev metadata_of :
        {stripe_data : StripeData Datum} {skips : StripeSkipList Datum}
        → ℕ
        → IsMade T L t protobuf attrs stripe_data skips
        → StripeMetadata
    metadata_of offset made = record {
      file_offset = offset;
      skip_list_length = length (concat made.buffers);
      data_length = length (concat (data_writes T made.exists made.values));
      footer_length = length made.footer_buffer;
    }

    reload :
        (stripe_data : StripeData Datum) (skips : StripeSkipList Datum) (pre post : Bytes)
        (made : IsMade T L t protobuf attrs stripe_data skips)
        → IsShort T L t (made_of made)
        → skips.column_count ≡ length attrs
        → 0 < length attrs
        → skips.block_count < 2 ^ 31
        → ((j : ℕ) → projects projected j ≡ true → j < length attrs)
        → IsReloaded planner attrs projected stripe_data skips
            (made_of made)
            (pre ++ (concat (stripe_writes T (made_of made)) ++ post))
            (metadata_of (length pre) made)
    unfolding load_filtered_stripe_data
    reload stripe_data skips pre post made short count some_column few known =
        let here = sections (made_of made) pre post in
        let file = pre ++ (concat (stripe_writes T (made_of made)) ++ post) in
        let m = metadata_of (length pre) made in
        let lists = concat made.buffers in
        let data_section = concat (data_writes T made.exists made.values) in
        let k = skips.block_count in
        let footer_there =
          load_stripe_footer_lem protobuf file ((pre ++ lists) ++ data_section) made.footer_buffer
            post m (length attrs) here.2
            (omega (arith, length-append (pre ++ lists) data_section, length-append pre lists)) refl
            short.footer_short (made.footer_read short.skip_lists_short) refl in
        let lists_there =
          load_stripe_skip_list_lem T L t protobuf file pre
            ((data_section ++ made.footer_buffer) ++ post) m
            (stored_footer T L t (length attrs) made.buffers made.exists made.values) made.lists
            some_column short.skip_lists_short here.0 refl refl in
        let (marks, marks_made, marks_length, marks_hold) =
          projected_column_mask_total (length attrs) projected known in
        let (mask, mask_made, mask_length, selected) =
          selected_total T L t protobuf planner projected {k = k} (length attrs)
            (map (take k) (place_columns T skips.block_skip_node_array made.exists made.values))
            known (taken_count T L t protobuf made.lists) (taken_sizes T L t protobuf made.lists)
            few in
        let columns_there =
          load_columns_lem T L t file (pre ++ lists) (made.footer_buffer ++ post)
            (length pre + length lists) mask marks made.stored mask_length marks_length here.1
            (omega (arith, length-append pre lists)) in
        record {
          mask = mask;
          marks = marks;
          mask_made =
              subst
                (λ n.
                  selected_block_mask planner
                    (record {
                      block_skip_node_array =
                          map (take k)
                            (place_columns T skips.block_skip_node_array made.exists made.values);
                      column_count = n;
                      block_count = k;
                    })
                    projected
                  ≡ ok mask)
                (sym count) mask_made;
          mask_length = mask_length;
          marks_made = marks_made;
          marks_length = marks_length;
          loaded = simp footer_there (
              simp lists_there (
                simp marks_made (
                  simp mask_made (
                    simp selected (
                      simp (
                        columns_there,
                        kept_rows_lem T L t protobuf mask made.stored some_column mask_length,
                      ))))));
        }

    -- For lossless libraries, buffers short of 2 ^ 32 - 8 bytes, a block count short of 2 ^ 31 and
    -- at least one column, with the projected columns among them, when every column's blocks can be
    -- stored, and the skip lists and the footer that come out are shorter than 2 ^ 32 bytes: the
    -- buffers and the metadata of the stripe are made, the metadata's sizes add up to what is
    -- written, and from a file that holds the buffers at the metadata's offset, with any bytes
    -- before and after, the scan loads exactly the selected blocks of the projected columns, each
    -- with the rows it had in memory.
    pub load_filtered_stripe_data-stripe_buffers :
        (size : ℕ) (stripe_data : StripeData Datum) (skips : StripeSkipList Datum)
        (pre post : Bytes)
        → AreLossless L
        → IsPlainType t
        → size < 2 ^ 32 - 8
        → 0 < length attrs
        → length attrs < 2 ^ 32
        → skips.column_count ≡ length attrs
        → skips.block_count < 2 ^ 31
        → AreStorableColumns T L t size skips.block_count attrs stripe_data.column_data_array
            skips.block_skip_node_array
        → ((j : ℕ) → projects projected j ≡ true → j < length attrs)
        → ((b : StripeBuffers T)
            → stripe_buffers T protobuf L t attrs stripe_data skips ≡ ok b
            → IsShort T L t b)
        → (b : StripeBuffers T) × (m : StripeMetadata) × (stripe_buffers T protobuf L t attrs
              stripe_data skips
            ≡ ok b)
          × (stripe_metadata T (length attrs) (length pre) b ≡ ok m)
          × (m.skip_list_length + m.data_length + m.footer_length
              ≡ length (concat (stripe_writes T b)))
          × IsReloaded planner attrs projected stripe_data skips b
              (pre ++ (concat (stripe_writes T b) ++ post))
              m
    load_filtered_stripe_data-stripe_buffers size stripe_data skips pre post lossless plain small
          some_column width count few storable known short =
        let made =
          stripe_buffers_total T L t protobuf size attrs stripe_data skips lossless plain small
            width count few storable in
        let total = length-skip_lists T L t protobuf made.lists in
        let b = made_of made in
        (
          b,
          metadata_of (length pre) made,
          made.runs,
          stripe_metadata_lem T L t protobuf skips (length pre) made.buffers made.footer_buffer
              made.stored total,
          written_size b,
          reload stripe_data skips pre post made (short b made.runs) count some_column few known,
        )
      where
        written_size :
            (b : StripeBuffers T)
            → length (concat b.skip_list_buffer_array)
                + length (concat (data_writes T b.exists_buffer_array b.value_buffer_array))
                + length b.stripe_footer_buffer
              ≡ length (concat (stripe_writes T b))
        written_size b =
            let data_section = concat (data_writes T b.exists_buffer_array b.value_buffer_array) in
            omega (
              arith,
              ap (λ (x : Bytes). length x) (concat-stripe_writes b),
              length-append (concat b.skip_list_buffer_array)
                  (data_section ++ b.stripe_footer_buffer),
              length-append data_section b.stripe_footer_buffer,
            )
