-- ===== src/Table/New.antt =====
-- The first load of a table takes effect as a whole or not at all.
use mathlib.Core.Path.{subst}
use postgres_vectorization_t.Compression.External.{Libraries}
use postgres_vectorization_t.Metadata.Messages.{Protobuf}
use postgres_vectorization_t.Prelude.{
  Bool, List, [], arith, inl, inr, none, refl, sym, uint32, ℕ, ◌≡◌, ◌⊎◌,
}
use postgres_vectorization_t.Report.{Error, Result, could_not_open, err, ok}
use postgres_vectorization_t.Table.Atomic.{IsCommitted, end_write-Ends}
use postgres_vectorization_t.Table.Ends.{
  After, After-cases, Ends, Keeps-Ends, bind-Ends, error-Ends,
}
use postgres_vectorization_t.Table.Growing.{StartsWith}
use postgres_vectorization_t.Table.Guarded.{IsUntouched}
use postgres_vectorization_t.Table.Io.{
  Io, Outcome, World, call, call_fails, call_succeeds, next_outcome, pure, ◌>>=◌,
}
use postgres_vectorization_t.Table.Keeps.{IsStable, call-Keeps, next_outcome-Keeps}
use postgres_vectorization_t.Table.Steps.{SafeState, write_rows-Ends}
use postgres_vectorization_t.Table.Stripes.{HasWritten, HasWritten-start}
use postgres_vectorization_t.Table.Write.{
  TableWriteState, cstore_begin_write, cstore_end_write, end_of_stripes, open_table, seek_behind,
  stat_footer, stat_result, write_rows, write_table,
}
use postgres_vectorization_t.Tupmacs.{Tupmacs}
use postgres_vectorization_t.Types.{Attribute, CompressionType, TableFooter}

-- There is no footer file.
abbrev IsNew : World → Type 0
IsNew w = w.footer_file ≡ none

IsNew-stable : IsStable IsNew
IsNew-stable = record { stable = λ w outcomes h. h }

stat_result_found_none :
    (o : Outcome) (w : World)
    → IsNew w
    → After (λ f w. IsNew w × (f ≡ none)) IsNew (stat_result o w)
stat_result_found_none call_succeeds w h = (h, h)
stat_result_found_none (call_fails k) w h = (h, refl)

-- `stat` finds nothing, whether the call fails or not.
IsNew-stat_footer-Ends : Ends IsNew (λ f w. IsNew w × (f ≡ none)) IsNew stat_footer
IsNew-stat_footer-Ends =
    bind-Ends next_outcome stat_result (Keeps-Ends (λ w h. h) (next_outcome-Keeps IsNew-stable))
      (λ o. record { after = stat_result_found_none o })

-- The footer of a table without stripes.
abbrev pub empty_footer : ℕ → TableFooter
empty_footer block_row_count = record {
  stripe_metadata_list = [];
  block_row_count = block_row_count;
}

-- With no old bytes, a table that is as it was has no footer file.
IsNew-IsUntouched : (w : World) → IsNew w → IsUntouched 0 [] none w
IsNew-IsUntouched w h = record { enough = omega arith; same_bytes = refl; same_footer = h }

module _ (protobuf : Protobuf) (block_row_count : ℕ) where
  IsNew-open_table-Ends :
      Ends IsNew
        (λ f w. StartsWith [] none [] w × (f ≡ empty_footer block_row_count))
        (IsUntouched 0 [] none)
        (open_table protobuf block_row_count none)
  IsNew-open_table-Ends =
      bind-Ends (call could_not_open) _
        (Keeps-Ends IsNew-IsUntouched (call-Keeps IsNew-stable could_not_open))
        (λ _. record {
          after = λ w h. (
            record {
              at = refl;
              untouched = record { enough = omega arith; same_bytes = refl; same_footer = h };
              rest = [];
              extends = refl;
            },
            refl,
          );
        })

module _ (T : Tupmacs) (protobuf : Protobuf) (L : Libraries) (compression_type : CompressionType)
    (stripe_max_row_count block_row_count : ℕ) (attrs : List Attribute)
    (rows : List (List T.Datum × List Bool)) where
  abbrev Opened : TableFooter → World → Type 0
  Opened f w = StartsWith [] none [] w × (f ≡ empty_footer block_row_count)

  abbrev Started : TableWriteState T → World → Type 0
  Started =
      SafeState 0 [] none T protobuf L compression_type (uint32 stripe_max_row_count) attrs
        (empty_footer block_row_count) refl []

  abbrev begin_state : TableFooter → ℕ → TableWriteState T
  begin_state table_footer offset = record {
    table_footer = table_footer;
    compression_type = compression_type;
    stripe_max_row_count = uint32 stripe_max_row_count;
    tuple_descriptor = attrs;
    current_file_offset = offset;
    stripe_data = none;
    stripe_skip_list = none;
  }

  -- The rest of `CStoreBeginWrite`.
  abbrev begin_with : TableFooter → Io (TableWriteState T)
  begin_with table_footer = do
    offset ← seek_behind table_footer.stripe_metadata_list
    pure (begin_state table_footer offset)

  started :
      HasWritten T protobuf L compression_type
        (uint32 stripe_max_row_count)
        attrs
        (empty_footer block_row_count)
        []
        []
        []
        (begin_state (empty_footer block_row_count) 0)
  unfolding end_of_stripes
  started =
      HasWritten-start T protobuf L compression_type (uint32 stripe_max_row_count) attrs
        (empty_footer block_row_count) [] (begin_state (empty_footer block_row_count) 0) refl refl
        refl refl refl refl refl

  IsNew-begin_write-Ends :
      Ends IsNew Started
        (IsUntouched 0 [] none)
        (cstore_begin_write T protobuf compression_type stripe_max_row_count block_row_count attrs)
  unfolding cstore_begin_write
  IsNew-begin_write-Ends =
      bind-Ends stat_footer _ (error-Ends stat_footer IsNew-stat_footer-Ends IsNew-IsUntouched)
        (λ f. record {
          after = λ w h.
              (bind-Ends {R = Started} (open_table protobuf block_row_count f) begin_with
                  (subst
                    (λ f.
                      Ends IsNew Opened (IsUntouched 0 [] none)
                        (open_table protobuf block_row_count f))
                    (sym h.1) (IsNew-open_table-Ends protobuf block_row_count))
                  (λ table_footer. record {
                    after = λ w' k.
                        subst (λ f. After Started (IsUntouched 0 [] none) (begin_with f w'))
                          (sym k.1) ([], started, k.0);
                  })).after
                w h.0;
        })

  -- For a table without a footer file: however the calls of the operating system end, the load ends
  -- in one of two ways. Either it ended with a value; then the rows, in their order, are those of
  -- a sequence of stripes, each of at least one row, whose buffers follow one another from the start
  -- of the table file, and the footer file lists the metadata of exactly these stripes, at the
  -- offsets that follow from one another, with the block row count passed. Or it ended by a report,
  -- and there is no footer file.
  pub write_table_new :
      (w : World)
      → w.footer_file ≡ none
      → (outcome : Result (Unit {0})) × (after : World) × (write_table T protobuf L compression_type
            stripe_max_row_count block_row_count attrs rows w
          ≡ (outcome, after))
        × (((outcome ≡ ok tt)
              × IsCommitted T protobuf L compression_type
                  (uint32 stripe_max_row_count)
                  attrs
                  (empty_footer block_row_count)
                  []
                  rows
                  after)
            ⊎ ((e : Error) × (outcome ≡ err e) × (after.footer_file ≡ none)))
  unfolding write_table
  write_table_new w new =
      let maximum = uint32 stripe_max_row_count in
      let start = empty_footer block_row_count in
      let load =
        write_table T protobuf L compression_type stripe_max_row_count block_row_count attrs rows in
      let ends =
        (bind-Ends
            (cstore_begin_write T protobuf compression_type stripe_max_row_count block_row_count
              attrs)
            _ IsNew-begin_write-Ends
            (λ state.
              bind-Ends (write_rows T protobuf L state rows) (cstore_end_write T protobuf L)
                (write_rows-Ends 0 [] none T protobuf L compression_type maximum attrs start refl []
                  state rows)
                (end_write-Ends T protobuf L compression_type maximum attrs 0 [] none start refl
                  rows))).after
          w new in
      elim (After-cases (λ _. IsCommitted T protobuf L compression_type maximum attrs start [] rows)
        (IsUntouched 0 [] none) (load w) ends) [
          | inl (t, ended, committed) ↦ ((load w).0, (load w).1, refl, inl (ended, committed))
          | inr (e, ended, kept_there) ↦
              ((load w).0, (load w).1, refl, inr (e, ended, kept_there.same_footer))
        ]
