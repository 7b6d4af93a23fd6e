-- ===== src/Table/Begin.antt =====
-- The start of a load of a table that has a footer file.
use mathlib.Core.Path.{subst}
use postgres_vectorization_t.Compression.External.{Libraries}
use postgres_vectorization_t.Metadata.Messages.{Protobuf}
use postgres_vectorization_t.Prelude.{
  Bytes, List, Option, [], ap, append-nil, length, ltb, none, refl, some, sym, uint32, ℕ, ◌^◌, ◌∙◌,
  ◌∷◌, ◌≡◌,
}
use postgres_vectorization_t.Report.{
  Error, could_not_close, could_not_open, could_not_seek, guard, ok, ok_injective,
}
use postgres_vectorization_t.Table.Ends.{After, Ends, Keeps-Ends, bind-Ends, each-Ends}
use postgres_vectorization_t.Table.Growing.{StartsWith}
use postgres_vectorization_t.Table.Guarded.{IsUntouched}
use postgres_vectorization_t.Table.Io.{
  Io, Outcome, World, call, call_fails, call_succeeds, lift, next_outcome, outcome_of, pure,
  then_io,
}
use postgres_vectorization_t.Table.Keeps.{IsStable, Keeps, call-Keeps, lift-Keeps}
use postgres_vectorization_t.Table.ReadFooter.{cstore_read_footer}
use postgres_vectorization_t.Table.Steps.{SafeState}
use postgres_vectorization_t.Table.Stripes.{HasWritten-start}
use postgres_vectorization_t.Table.Write.{
  TableWriteState, cstore_begin_write, end_of_stripes, open_table, seek_behind, seek_table,
  stat_footer, stat_result,
}
use postgres_vectorization_t.Tupmacs.{Tupmacs}
use postgres_vectorization_t.Types.{Attribute, CompressionType, StripeMetadata, TableFooter}

module _ (n : ℕ) (old b : Bytes) where
  abbrev Whole : World → Type 0
  Whole = IsUntouched n old (some b)

  Whole-stable : IsStable Whole
  Whole-stable = record {
    stable = λ w outcomes h. record {
      enough = h.enough;
      same_bytes = h.same_bytes;
      same_footer = h.same_footer;
    };
  }

  Whole-Keeps : {A : Type 0} {m : Io A} → Keeps Whole m → Ends Whole (λ _ w. Whole w) Whole m
  Whole-Keeps keeps = Keeps-Ends (λ w h. h) keeps

  Whole-call : (e : Error) → Ends Whole (λ _ w. Whole w) Whole (call e)
  Whole-call e = Whole-Keeps (call-Keeps Whole-stable e)

  -- The position is this.
  abbrev IsAtPosition : ℕ → World → Type 0
  IsAtPosition position w = Whole w × (w.position ≡ position)

  IsAtPosition-stable : (position : ℕ) → IsStable (IsAtPosition position)
  IsAtPosition-stable position = record {
    stable = λ w outcomes h. (Whole-stable.stable w outcomes h.0, h.1);
  }

  IsAtPosition-Keeps :
      {A : Type 0} {m : Io A} (position : ℕ)
      → Keeps (IsAtPosition position) m
      → Ends (IsAtPosition position) (λ _ w. IsAtPosition position w) Whole m
  IsAtPosition-Keeps position keeps = Keeps-Ends (λ w h. h.0) keeps

  IsAtPosition-call :
      (position : ℕ) (e : Error)
      → Ends (IsAtPosition position) (λ _ w. IsAtPosition position w) Whole (call e)
  IsAtPosition-call position e =
      IsAtPosition-Keeps position (call-Keeps (IsAtPosition-stable position) e)

  Whole-seek :
      (position : ℕ) → Ends Whole (λ _ w. IsAtPosition position w) Whole (seek_table position)
  Whole-seek position = record {
    after = λ w h. (
      record { enough = h.enough; same_bytes = h.same_bytes; same_footer = h.same_footer },
      refl,
    );
  }

  stat_found :
      (os : List Outcome) (w : World)
      → Whole w
      → (outcome_of os w).0 ≡ ok call_succeeds
      → After (λ f w. Whole w × (f ≡ some b)) Whole (then_io (outcome_of os w) stat_result)
  stat_found [] w h e = (h, h.same_footer)
  stat_found (call_succeeds ∷ os) w h e = (Whole-stable.stable w os h, h.same_footer)
  stat_found (call_fails k ∷ os) w h e = cc

  -- The call of `stat` does not fail.
  abbrev pub CanStat : World → Type 0
  CanStat w = (next_outcome w).0 ≡ ok call_succeeds

  stat_footer-Ends :
      Ends (λ w. Whole w × CanStat w) (λ f w. Whole w × (f ≡ some b)) Whole stat_footer
  stat_footer-Ends = record { after = λ w h. stat_found w.outcomes w h.0 h.1 }

  module _ (protobuf : Protobuf) (start : TableFooter) where
    open_table-Ends :
        (block_row_count : ℕ)
        → cstore_read_footer protobuf b ≡ ok start
        → Ends Whole
            (λ f w. IsAtPosition 0 w × (f ≡ start))
            Whole
            (open_table protobuf block_row_count (some b))
    open_table-Ends block_row_count read =
        bind-Ends (call could_not_open) _ (Whole-call could_not_open) (λ _.
          bind-Ends (seek_table 0) _ (Whole-seek 0) (λ _.
            bind-Ends (call could_not_open) _ (IsAtPosition-call 0 could_not_open) (λ _.
              each-Ends (cstore_read_footer protobuf b) _ (λ w h. h.0)
                (λ f found.
                  bind-Ends (call could_not_close) (λ _. pure f)
                    (IsAtPosition-call 0 could_not_close)
                    (λ _. record { after = λ w k. (k, ok_injective (sym found ∙ read)) })))))

    from_position : length old ≡ n → (w : World) → IsAtPosition n w → StartsWith old (some b) old w
    from_position total w h = record {
      at = h.1 ∙ sym total;
      untouched = subst (λ k. IsUntouched k old (some b) w) (sym total) h.0;
      rest = [];
      extends = sym (append-nil old);
    }

    seek_behind-Ends :
        (stripes : List StripeMetadata)
        → length old ≡ n
        → n ≡ end_of_stripes stripes
        → Ends
            (IsAtPosition 0)
            (λ offset w. StartsWith old (some b) old w × (offset ≡ end_of_stripes stripes))
            Whole
            (seek_behind stripes)
    unfolding end_of_stripes
    seek_behind-Ends [] total e = record {
      after = λ w h. (from_position total w (subst (λ k. IsAtPosition k w) (sym e) h), refl);
    }
    seek_behind-Ends (m ∷ stripes) total e =
        bind-Ends (call could_not_seek) _ (IsAtPosition-call 0 could_not_seek) (λ _.
          bind-Ends (lift (guard (ltb (end_of_stripes (m ∷ stripes)) (2 ^ 63)) could_not_seek)) _
            (IsAtPosition-Keeps 0 (lift-Keeps _))
            (λ _.
              bind-Ends {Q = λ _ w. IsAtPosition (end_of_stripes (m ∷ stripes)) w}
                (seek_table (end_of_stripes (m ∷ stripes)))
                (λ _. pure (end_of_stripes (m ∷ stripes)))
                (record { after = λ w h. (Whole-seek (end_of_stripes (m ∷ stripes))).after w h.0 })
                (λ _. record {
                  after = λ w h.
                      (from_position total w (subst (λ k. IsAtPosition k w) (sym e) h), refl);
                })))

    pub begin_write-Ends :
        (T : Tupmacs) (L : Libraries) (compression_type : CompressionType)
        (stripe_max_row_count block_row_count : ℕ) (attrs : List Attribute) (total : length old ≡ n)
        → cstore_read_footer protobuf b ≡ ok start
        → n ≡ end_of_stripes start.stripe_metadata_list
        → Ends
            (λ w. Whole w × CanStat w)
            (SafeState n old
              (some b)
              T
              protobuf
              L
              compression_type
              (uint32 stripe_max_row_count)
              attrs
              start
              total
              [])
            Whole
            (cstore_begin_write T protobuf compression_type stripe_max_row_count block_row_count
              attrs)
    unfolding cstore_begin_write
    begin_write-Ends T L compression_type stripe_max_row_count block_row_count attrs total read e =
        bind-Ends stat_footer _ stat_footer-Ends (λ f. record {
          after = λ w h.
              (bind-Ends {R = Started} (open_table protobuf block_row_count f) _ (opened f h.1)
                  (λ table_footer. record {
                    after = λ w' k.
                        (bind-Ends {R = Started} (seek_behind table_footer.stripe_metadata_list) _
                            (seek_behind-Ends table_footer.stripe_metadata_list total
                              (e ∙ ap (λ g. end_of_stripes g.stripe_metadata_list) (sym k.1)))
                            (λ offset. record {
                              after = λ w'' j. (
                                old,
                                HasWritten-start T protobuf L compression_type
                                    (uint32 stripe_max_row_count) attrs start old
                                    (record {
                                      table_footer = table_footer;
                                      compression_type = compression_type;
                                      stripe_max_row_count = uint32 stripe_max_row_count;
                                      tuple_descriptor = attrs;
                                      current_file_offset = offset;
                                      stripe_data = none;
                                      stripe_skip_list = none;
                                    })
                                    k.1 (j.1 ∙ ap (λ g. end_of_stripes g.stripe_metadata_list) k.1)
                                    refl refl refl refl refl,
                                j.0,
                              );
                            })).after
                          w' k.0;
                  })).after
                w h.0;
        })
      where
        Started : TableWriteState T → World → Type 0
        Started =
            SafeState n old (some b) T protobuf L compression_type (uint32 stripe_max_row_count)
              attrs start total []

        opened :
            (f : Option Bytes)
            → f ≡ some b
            → Ends Whole
                (λ g w. IsAtPosition 0 w × (g ≡ start))
                Whole
                (open_table protobuf block_row_count f)
        opened f same =
            subst
              (λ f.
                Ends Whole (λ g w. IsAtPosition 0 w × (g ≡ start)) Whole
                  (open_table protobuf block_row_count f))
              (sym same) (open_table-Ends block_row_count read)
