-- ===== src/Stripe/Found.antt =====
-- The stripe footer and the skip lists are found where they were written.
use postgres_vectorization_t.Compression.External.{Libraries}
use postgres_vectorization_t.Metadata.Footers.{deserialize_stripe_footer}
use postgres_vectorization_t.Metadata.Messages.{Protobuf}
use postgres_vectorization_t.Prelude.{
  ==_iff, All, Bytes, List, ap, append_assoc, arith, concat, length, map, refl, take, true, ℕ, ◌++◌,
  ◌+◌, ◌<◌, ◌==◌, ◌^◌, ◌∙◌, ◌≡◌,
}
use postgres_vectorization_t.Report.{ok}
use postgres_vectorization_t.Stripe.Blocks.{read_from_file_lem}
use postgres_vectorization_t.Stripe.Load.{read_from_file}
use postgres_vectorization_t.Stripe.Scan.{load_stripe_footer, load_stripe_skip_list}
use postgres_vectorization_t.Stripe.SkipLists.{AreSkipLists, load_skip_lists_lem, no_list, one_list}
use postgres_vectorization_t.Tupmacs.{Tupmacs}
use postgres_vectorization_t.Types.{
  Attribute, ColumnBlockSkipNode, CompressionType, StripeFooter, StripeMetadata,
}

-- A buffer that the file has at the footer's place is read.
pub load_stripe_footer_lem :
    (protobuf : Protobuf) (file pre footer_buffer post : Bytes) (m : StripeMetadata)
    (column_count : ℕ) {footer : StripeFooter}
    → file ≡ pre ++ (footer_buffer ++ post)
    → m.file_offset + m.skip_list_length + m.data_length ≡ length pre
    → m.footer_length ≡ length footer_buffer
    → length footer_buffer < 2 ^ 32
    → deserialize_stripe_footer protobuf footer_buffer ≡ ok footer
    → footer.column_count ≡ column_count
    → load_stripe_footer protobuf file m column_count ≡ ok footer
unfolding load_stripe_footer
load_stripe_footer_lem protobuf file pre footer_buffer post m column_count {footer} same at size
      short read count =
    let found : read_from_file file (m.file_offset + m.skip_list_length + m.data_length)
          m.footer_length
        ≡ ok footer_buffer =
      ap
        (λ f. read_from_file f (m.file_offset + m.skip_list_length + m.data_length) m.footer_length)
        same
      ∙ read_from_file_lem pre footer_buffer post _ m.footer_length at size short in
    let equal : (footer.column_count == column_count) ≡ true = (==_iff _ _).1 count in
    simp found (simp read (simp equal))

module _ (T : Tupmacs) (L : Libraries) (t : CompressionType) (protobuf : Protobuf) where
  open T use {Datum}

  pub load_stripe_skip_list_lem :
      {k : ℕ} (file pre post : Bytes) (m : StripeMetadata) (footer : StripeFooter)
      {attrs : List Attribute} {nodes : List (List (ColumnBlockSkipNode Datum))}
      {buffers : List Bytes}
      → AreSkipLists T L t protobuf k attrs nodes buffers
      → 0 < length attrs
      → All (λ (b : Bytes). length b < 2 ^ 32) buffers
      → file ≡ pre ++ (concat buffers ++ post)
      → m.file_offset ≡ length pre
      → footer.skip_list_size_array ≡ map (λ (b : Bytes). length b) buffers
      → load_stripe_skip_list T protobuf file m footer attrs
        ≡ ok (record {
          block_skip_node_array = map (take k) nodes;
          column_count = length attrs;
          block_count = k;
        })
  unfolding load_stripe_skip_list
  load_stripe_skip_list_lem file pre post m footer no_list some_column short same at sizes =
      absurd (omega (arith, some_column))
  load_stripe_skip_list_lem file pre post m footer
        (one_list {a = a} {buffer = buffer} {buffers = buffers} written counted read total others)
        some_column short same at sizes =
      let here : file ≡ pre ++ (buffer ++ (concat buffers ++ post)) =
        same ∙ ap (λ b. pre ++ b) (append_assoc buffer (concat buffers) post) in
      let found : read_from_file file m.file_offset (length buffer) ≡ ok buffer =
        ap (λ f. read_from_file f m.file_offset (length buffer)) here
        ∙ read_from_file_lem pre buffer (concat buffers ++ post) m.file_offset (length buffer) at
            refl short.0 in
      simp sizes (
        simp found (
          simp counted (
            rw (
              load_skip_lists_lem T L t protobuf file pre post m.file_offset
                (one_list {a = a} written counted read total others) short same at))))
