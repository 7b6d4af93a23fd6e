-- ===== src/Table/Steps.antt =====
-- The steps of a load keep the old stripes, and list in the footer what they write behind them.
use mathlib.Core.Path.{subst}
use postgres_vectorization_t.Compression.External.{Libraries}
use postgres_vectorization_t.Metadata.Messages.{Protobuf}
use postgres_vectorization_t.Prelude.{
  Bool, Bytes, List, Option, [], append-nil, append_assoc, concat, if◌then◌else◌, leb, length, none,
  refl, some, sym, ℕ, ◌++◌, ◌∷◌, ◌≡◌,
}
use postgres_vectorization_t.Report.{of_option, of_option-eq-ok, out_of_bounds}
use postgres_vectorization_t.Rows.{fill_row}
use postgres_vectorization_t.Stripe.Sections.{stripe_buffers, stripe_metadata, stripe_writes}
use postgres_vectorization_t.Table.Ends.{
  Ends, Keeps-Ends, bind-Ends, each-Ends, if-Ends, weaken-Ends,
}
use postgres_vectorization_t.Table.Growing.{StartsWith, StartsWith-old, write_all_behind-Ends}
use postgres_vectorization_t.Table.Guarded.{IsGuarded, IsUntouched}
use postgres_vectorization_t.Table.Io.{Io, World, pure, table_handle}
use postgres_vectorization_t.Table.Keeps.{Keeps}
use postgres_vectorization_t.Table.Listed.{HasWritten-flush, IsFlushOf}
use postgres_vectorization_t.Table.Stripes.{HasWritten, HasWritten-fill}
use postgres_vectorization_t.Table.Write.{
  TableWriteState, cstore_write_row, flush_and_append, flush_stripe, write_all, write_rows,
}
use postgres_vectorization_t.Tupmacs.{Tupmacs}
use postgres_vectorization_t.Types.{Attribute, CompressionType, TableFooter}

module _ (n : ℕ) (old : Bytes) (footer : Option Bytes) where
  abbrev pub Safe : World → Type 0
  Safe = IsGuarded n old footer

  abbrev pub Spoilt : World → Type 0
  Spoilt = IsUntouched n old footer

  -- Calls that keep the guard.
  pub kept_call : {A : Type 0} (m : Io A) → Keeps Safe m → Ends Safe (λ _ w. Safe w) Spoilt m
  kept_call m keeps = Keeps-Ends (λ w h. h.untouched) keeps

  module _ (T : Tupmacs) (protobuf : Protobuf) (L : Libraries) (compression_type : CompressionType)
      (stripe_max_row_count : ℕ) (attrs : List Attribute) (start : TableFooter)
      (total : length old ≡ n) where
    open T use {Datum}

    flush_stripe-Ends :
        (bytes : Bytes) (state : TableWriteState T)
        → Ends
            (StartsWith old footer bytes)
            (λ r w.
              (f : IsFlushOf T protobuf L compression_type stripe_max_row_count attrs start old
                state r)
              × StartsWith old footer (bytes ++ concat (stripe_writes T f.buffers)) w)
            Spoilt
            (flush_stripe T protobuf L state)
    unfolding flush_stripe
    flush_stripe-Ends bytes state =
        each-Ends (of_option state.stripe_data out_of_bounds) _ (StartsWith-old old footer n total)
          (λ stripe_data data_there.
            each-Ends (of_option state.stripe_skip_list out_of_bounds) _
              (StartsWith-old old footer n total)
              (λ skips skips_there.
                each-Ends
                  (stripe_buffers T protobuf L state.compression_type state.tuple_descriptor
                    stripe_data skips)
                  _ (StartsWith-old old footer n total)
                  (λ buffers made.
                    bind-Ends (write_all table_handle (stripe_writes T buffers)) _
                      (write_all_behind-Ends old footer n total bytes (stripe_writes T buffers))
                      (λ _.
                        each-Ends
                          (stripe_metadata T (length state.tuple_descriptor)
                            state.current_file_offset buffers)
                          _ (StartsWith-old old footer n total)
                          (λ m placed. record {
                            after = λ w h. (
                              record {
                                stripe_data = stripe_data;
                                skips = skips;
                                buffers = buffers;
                                data_there =
                                    of_option-eq-ok state.stripe_data out_of_bounds data_there;
                                skips_there =
                                    of_option-eq-ok state.stripe_skip_list out_of_bounds
                                      skips_there;
                                made = made;
                                placed = placed;
                                moved = refl;
                              },
                              h,
                            );
                          })))))

    -- The state after these rows, and the table file that it has written.
    abbrev pub SafeState : List (List Datum × List Bool) → TableWriteState T → World → Type 0
    SafeState all state w =
        (bytes : Bytes) × HasWritten T protobuf L compression_type stripe_max_row_count attrs start
          old all bytes state
        × StartsWith old footer bytes w

    SafeState-old :
        {all : List (List Datum × List Bool)} {state : TableWriteState T} (w : World)
        → SafeState all state w
        → Spoilt w
    SafeState-old w (bytes, h, k) = StartsWith-old old footer n total w k

    pub flush_and_append-Ends :
        (all : List (List Datum × List Bool)) (state : TableWriteState T)
        → Ends
            (SafeState all state)
            (λ next w. SafeState all next w × (next.stripe_data ≡ none))
            Spoilt
            (flush_and_append T protobuf L state)
    unfolding flush_and_append
    flush_and_append-Ends all state = record {
      after = λ w (bytes, h, k).
          (bind-Ends
              {R = λ (next : TableWriteState T) w. SafeState all next w × (next.stripe_data ≡ none)}
              (flush_stripe T protobuf L state) _ (flush_stripe-Ends bytes state)
              (λ r. record {
                after = λ w' (f, j). (
                  (
                    bytes ++ concat (stripe_writes T f.buffers),
                    HasWritten-flush T protobuf L compression_type stripe_max_row_count attrs start
                        old all bytes state r h f,
                    j,
                  ),
                  refl,
                );
              })).after
            w k;
    }

    write_row-Ends :
        (all : List (List Datum × List Bool)) (state : TableWriteState T) (values : List Datum)
        (nulls : List Bool)
        → Ends
            (SafeState all state)
            (SafeState (all ++ (values, nulls) ∷ []))
            Spoilt
            (cstore_write_row T protobuf L state values nulls)
    unfolding cstore_write_row
    write_row-Ends all state values nulls =
        each-Ends
          (fill_row T state.stripe_max_row_count state.table_footer.block_row_count
            state.tuple_descriptor state.stripe_data state.stripe_skip_list values nulls)
          _ SafeState-old
          (λ r ran.
            let filled : TableWriteState T = record state {
              stripe_data = some r.0;
              stripe_skip_list = some r.1;
            } in
            let more = all ++ (values, nulls) ∷ [] in
            let written : (w : World) → SafeState all state w → SafeState more filled w =
              λ w (bytes, h, k). (
                bytes,
                HasWritten-fill T protobuf L compression_type stripe_max_row_count attrs start old
                    all bytes state values nulls r h ran,
                k,
              ) in
            let ends : Ends (SafeState more filled) (SafeState more) Spoilt (
                if leb state.stripe_max_row_count r.0.row_count
                then flush_and_append T protobuf L filled
                else pure filled) =
              if-Ends (leb state.stripe_max_row_count r.0.row_count)
                (flush_and_append T protobuf L filled) (pure filled)
                (weaken-Ends (flush_and_append T protobuf L filled)
                  (flush_and_append-Ends more filled) (λ next w h. h.0))
                (record { after = λ w h. h }) in
            record { after = λ w h. ends.after w (written w h) })

    pub write_rows-Ends :
        (all : List (List Datum × List Bool)) (state : TableWriteState T)
        (rows : List (List Datum × List Bool))
        → Ends
            (SafeState all state)
            (SafeState (all ++ rows))
            Spoilt
            (write_rows T protobuf L state rows)
    unfolding write_rows
    write_rows-Ends all state [] = record {
      after = λ w h. subst (λ rows. SafeState rows state w) (sym (append-nil all)) h;
    }
    write_rows-Ends all state ((values, nulls) ∷ rows) =
        bind-Ends (cstore_write_row T protobuf L state values nulls) _
          (write_row-Ends all state values nulls)
          (λ next.
            subst
              (λ done.
                Ends (SafeState (all ++ (values, nulls) ∷ []) next) (SafeState done) Spoilt
                  (write_rows T protobuf L next rows))
              (append_assoc all ((values, nulls) ∷ []) rows)
              (write_rows-Ends (all ++ (values, nulls) ∷ []) next rows))
