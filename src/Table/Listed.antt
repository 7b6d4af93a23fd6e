-- ===== src/Table/Listed.antt =====
-- A flush lists the stripe in memory in the footer, and at the end all rows are listed.
use mathlib.Core.Path.{ap₂, subst}
use postgres_vectorization_t.Compression.External.{Libraries}
use postgres_vectorization_t.Metadata.Messages.{Protobuf}
use postgres_vectorization_t.Prelude.{
  Bool, Bytes, List, [], ap, append-nil, append_assoc, concat, length, none, refl, some, sym,
  uint64, ℕ, ◌++◌, ◌+◌, ◌∙◌, ◌∷◌, ◌≡◌,
}
use postgres_vectorization_t.Report.{ok}
use postgres_vectorization_t.Rows.Table.{fill_rows}
use postgres_vectorization_t.Stripe.Sections.{
  StripeBuffers, stripe_buffers, stripe_metadata, stripe_writes,
}
use postgres_vectorization_t.Table.Stripes.{
  AreStripes, HasWritten, IsStripe, none_in_memory, some_in_memory, stripe_behind,
}
use postgres_vectorization_t.Table.Write.{TableWriteState, append_stripe_metadata}
use postgres_vectorization_t.Tupmacs.{Tupmacs}
use postgres_vectorization_t.Types.{
  Attribute, CompressionType, StripeData, StripeMetadata, StripeSkipList, TableFooter,
}

module _ (T : Tupmacs) (protobuf : Protobuf) (L : Libraries) where
  open T use {Datum}

  module _ (compression_type : CompressionType) (stripe_max_row_count : ℕ) (attrs : List Attribute)
      (start : TableFooter) (old : Bytes) where
    -- What `FlushStripe` has made of the state.
    pub record IsFlushOf (state : TableWriteState T) (r : StripeMetadata × TableWriteState T)
        : Type 0 where
      pub stripe_data : StripeData Datum
      pub skips : StripeSkipList Datum
      pub buffers : StripeBuffers T
      pub data_there : state.stripe_data ≡ some stripe_data
      pub skips_there : state.stripe_skip_list ≡ some skips
      pub made :
          stripe_buffers T protobuf L state.compression_type state.tuple_descriptor stripe_data
            skips
          ≡ ok buffers
      pub placed :
          stripe_metadata T (length state.tuple_descriptor) state.current_file_offset buffers
          ≡ ok r.0
      pub moved : r.1 ≡ record state {
        current_file_offset = uint64 (
            state.current_file_offset + r.0.skip_list_length + r.0.data_length + r.0.footer_length);
      }

    -- The stripe in memory becomes the last of the footer.
    unfoldable flush_in_memory :
        (all : List (List Datum × List Bool)) (bytes : Bytes) (state : TableWriteState T)
        (r : StripeMetadata × TableWriteState T)
        (h : HasWritten T protobuf L compression_type stripe_max_row_count attrs start old all bytes
          state)
        → IsFlushOf state r
        → IsStripe T protobuf L compression_type stripe_max_row_count attrs start old
            state.current_file_offset h.pending r.0
    flush_in_memory all bytes state r h f =
        let buffered : fill_rows T stripe_max_row_count start.block_row_count attrs none none
              h.pending
            ≡ ok (some f.stripe_data, some f.skips) =
          h.in_memory ∙ ap ok (ap₂ (λ x y. (x, y)) f.data_there f.skips_there) in
        record {
          stripe_data = f.stripe_data;
          skips = f.skips;
          buffers = f.buffers;
          some_row =
              some_in_memory T protobuf L compression_type stripe_max_row_count attrs start old
                h.pending buffered;
          filled = buffered;
          made = rw (sym h.same_compression, sym h.same_attrs) f.made;
          placed = rw (sym h.same_attrs) f.placed;
        }

    -- The state behind `AppendStripeMetadata`, with no stripe in memory.
    abbrev pub appended_to : StripeMetadata × TableWriteState T → TableWriteState T
    appended_to r = record (r.1) {
      stripe_data = none;
      stripe_skip_list = none;
      table_footer = append_stripe_metadata r.1.table_footer r.0;
    }

    pub HasWritten-flush :
        (all : List (List Datum × List Bool)) (bytes : Bytes) (state : TableWriteState T)
        (r : StripeMetadata × TableWriteState T)
        → HasWritten T protobuf L compression_type stripe_max_row_count attrs start old all bytes
            state
        → (f : IsFlushOf state r)
        → HasWritten T protobuf L compression_type stripe_max_row_count attrs start old all
            (bytes ++ concat (stripe_writes T f.buffers))
            (appended_to r)
    unfolding fill_rows flush_in_memory
    HasWritten-flush all bytes state r h f =
        subst
          (λ next.
            HasWritten T protobuf L compression_type stripe_max_row_count attrs start old all
              (bytes ++ concat (stripe_writes T f.buffers)) (appended_to (r.0, next)))
          (sym f.moved)
          (record {
            flushed = h.flushed ++ h.pending;
            pending = [];
            more = h.more ++ r.0 ∷ [];
            stripes = stripe_behind h.stripes (flush_in_memory all bytes state r h f);
            split = append-nil (h.flushed ++ h.pending) ∙ h.split;
            same_footer =
                ap (λ x. append_stripe_metadata x r.0) h.same_footer
                ∙ ap (λ l. record start { stripe_metadata_list = l })
                    (append_assoc start.stripe_metadata_list h.more (r.0 ∷ []));
            same_compression = h.same_compression;
            same_maximum = h.same_maximum;
            same_attrs = h.same_attrs;
            in_memory = refl;
          })

    -- The footer lists, behind the old stripes, those of all the rows, which make up the bytes.
    pub record HasFlushed (all : List (List Datum × List Bool)) (bytes : Bytes) (f : TableFooter)
        : Type 0 where
      pub more : List StripeMetadata
      pub end : ℕ
      pub stripes :
          AreStripes T protobuf L compression_type stripe_max_row_count attrs start old all end
            bytes more
      pub same_footer :
          f ≡ record start { stripe_metadata_list = start.stripe_metadata_list ++ more }

    pub HasFlushed-end :
        (all : List (List Datum × List Bool)) (bytes : Bytes) (state : TableWriteState T)
        → HasWritten T protobuf L compression_type stripe_max_row_count attrs start old all bytes
            state
        → state.stripe_data ≡ none
        → HasFlushed all bytes state.table_footer
    HasFlushed-end all bytes state h empty =
        let no_pending : h.pending ≡ [] =
          none_in_memory T protobuf L compression_type stripe_max_row_count attrs start old
            h.pending state.stripe_skip_list
            (h.in_memory ∙ ap (λ d. ok (d, state.stripe_skip_list)) empty) in
        let same : h.flushed ≡ all =
          sym (append-nil h.flushed) ∙ ap (λ l. h.flushed ++ l) (sym no_pending) ∙ h.split in
        record {
          more = h.more;
          end = state.current_file_offset;
          stripes =
              subst
                (λ rows.
                  AreStripes T protobuf L compression_type stripe_max_row_count attrs start old rows
                    state.current_file_offset bytes h.more)
                same h.stripes;
          same_footer = h.same_footer;
        }
