-- ===== src/Table/Flushed.antt =====
-- A stripe that was flushed is loaded from the table file.
use mathlib.Core.Path.{subst}
use postgres_vectorization_t.Compression.External.{AreLossless, Libraries}
use postgres_vectorization_t.Compression.RoundTrip.{IsPlainType}
use postgres_vectorization_t.Metadata.Messages.{Protobuf}
use postgres_vectorization_t.Prelude.{
  Bytes, List, [], ap, append-nil, concat, inl, inr, length, refl, some, sym, true, uint64, ℕ, ◌++◌,
  ◌+◌, ◌-◌, ◌<◌, ◌^◌, ◌∙◌, ◌≡◌,
}
use postgres_vectorization_t.Report.{of_option, ok, out_of_bounds}
use postgres_vectorization_t.Rows.Read.{projects}
use postgres_vectorization_t.Selection.{Planner}
use postgres_vectorization_t.Stripe.Columns.{AreStorableColumns}
use postgres_vectorization_t.Stripe.Reload.{IsReloaded, load_filtered_stripe_data-stripe_buffers}
use postgres_vectorization_t.Stripe.Sections.{
  StripeBuffers, stripe_buffers, stripe_metadata, stripe_writes,
}
use postgres_vectorization_t.Stripe.Whole.{IsShort}
use postgres_vectorization_t.Table.Append.{IsAppending, append_all}
use postgres_vectorization_t.Table.Commit.{Never}
use postgres_vectorization_t.Table.Ends.{After-cases, Ends, bind-Ends, known-Ends}
use postgres_vectorization_t.Table.Io.{World, table_handle}
use postgres_vectorization_t.Table.Write.{TableWriteState, flush_stripe, write_all}
use postgres_vectorization_t.Tupmacs.{Tupmacs}
use postgres_vectorization_t.Types.{StripeData, StripeMetadata, StripeSkipList}

module _ (T : Tupmacs) (L : Libraries) (protobuf : Protobuf) where
  open T use {Datum}

  -- The state behind a flush.
  abbrev pub advanced : TableWriteState T → StripeMetadata → TableWriteState T
  advanced state m = record state {
    current_file_offset =
        uint64 (state.current_file_offset + m.skip_list_length + m.data_length + m.footer_length);
  }

  flush_appends :
      (state : TableWriteState T) (table : Bytes) {stripe_data : StripeData Datum}
      {skips : StripeSkipList Datum} {b : StripeBuffers T} {m : StripeMetadata}
      → state.stripe_data ≡ some stripe_data
      → state.stripe_skip_list ≡ some skips
      → stripe_buffers T protobuf L state.compression_type state.tuple_descriptor stripe_data skips
        ≡ ok b
      → stripe_metadata T (length state.tuple_descriptor) state.current_file_offset b ≡ ok m
      → Ends
          (IsAppending table)
          (λ r w. IsAppending (table ++ concat (stripe_writes T b)) w × (r ≡ (m, advanced state m)))
          Never
          (flush_stripe T protobuf L state)
  unfolding flush_stripe
  flush_appends state table {b = b} {m = m} data_there skips_there made placed =
      known-Ends (of_option state.stripe_data out_of_bounds) _
        (ap (λ o. of_option o out_of_bounds) data_there)
        (known-Ends (of_option state.stripe_skip_list out_of_bounds) _
          (ap (λ o. of_option o out_of_bounds) skips_there)
          (known-Ends _ _ made (
            bind-Ends (write_all table_handle (stripe_writes T b)) _
              (append_all table (stripe_writes T b))
              (λ _. known-Ends _ _ placed (record { after = λ w h. (h, refl) })))))

  module _ (planner : Planner Datum) (projected : List ℕ) where
    -- When no call of the operating system fails, and the writer is at the end of the table file,
    -- at its current offset: under the conditions of the stripe's round trip, the flush succeeds
    -- and appends the buffers to the table file, and with the metadata that it returns the scan
    -- loads from the new file exactly the selected blocks of the projected columns, each with
    -- the rows it had in memory.
    pub load_filtered_stripe_data-flush_stripe :
        (size : ℕ) (state : TableWriteState T) (w : World) (stripe_data : StripeData Datum)
        (skips : StripeSkipList Datum)
        → w.outcomes ≡ []
        → w.position ≡ length w.table_file
        → state.current_file_offset ≡ length w.table_file
        → state.stripe_data ≡ some stripe_data
        → state.stripe_skip_list ≡ some skips
        → AreLossless L
        → IsPlainType state.compression_type
        → size < 2 ^ 32 - 8
        → 0 < length state.tuple_descriptor
        → length state.tuple_descriptor < 2 ^ 32
        → skips.column_count ≡ length state.tuple_descriptor
        → skips.block_count < 2 ^ 31
        → AreStorableColumns T L state.compression_type size skips.block_count
            state.tuple_descriptor stripe_data.column_data_array skips.block_skip_node_array
        → ((j : ℕ) → projects projected j ≡ true → j < length state.tuple_descriptor)
        → ((b : StripeBuffers T)
            → stripe_buffers T protobuf L state.compression_type state.tuple_descriptor stripe_data
                skips
              ≡ ok b
            → IsShort T L state.compression_type b)
        → (m : StripeMetadata) × (after : World) × (b : StripeBuffers T) × (flush_stripe T protobuf
              L state w
            ≡ (ok (m, advanced state m), after))
          × (after.table_file ≡ w.table_file ++ concat (stripe_writes T b))
          × (m.skip_list_length + m.data_length + m.footer_length
              ≡ length (concat (stripe_writes T b)))
          × IsReloaded T L state.compression_type protobuf planner state.tuple_descriptor projected
              stripe_data skips b after.table_file m
    load_filtered_stripe_data-flush_stripe size state w stripe_data skips quiet at offset data_there
          skips_there lossless plain small some_column width count few storable known short =
        let table = w.table_file in
        let attrs = state.tuple_descriptor in
        let t = state.compression_type in
        let (b, m, made, placed, total, reloaded) =
          load_filtered_stripe_data-stripe_buffers T L t protobuf planner attrs projected size
            stripe_data skips table [] lossless plain small some_column width count few storable
            known short in
        let placed_here : stripe_metadata T (length attrs) state.current_file_offset b ≡ ok m =
          subst (λ n. stripe_metadata T (length attrs) n b ≡ ok m) (sym offset) placed in
        let run = flush_stripe T protobuf L state in
        let whole = table ++ concat (stripe_writes T b) in
        let ends =
          (flush_appends state table data_there skips_there made placed_here).after w
            (record { no_failure = quiet; table_same = refl; at_end = at }) in
        elim (After-cases (λ r w. IsAppending whole w × (r ≡ (m, advanced state m))) Never (run w)
          ends) [
            | inl (r, ended, (appended, same)) ↦ (
              m,
              (run w).1,
              b,
              ap (λ r. (r, (run w).1)) (ended ∙ ap ok same),
              appended.table_same,
              total,
              subst
                  (λ file.
                    IsReloaded T L t protobuf planner attrs projected stripe_data skips b file m)
                  (ap (λ x. table ++ x) (append-nil (concat (stripe_writes T b)))
                    ∙ sym appended.table_same)
                  reloaded,
            )
            | inr (e, ended, bad) ↦ absurd bad
          ]
