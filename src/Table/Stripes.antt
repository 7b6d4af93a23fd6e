-- ===== src/Table/Stripes.antt =====
-- The stripes that a load makes of its rows, in their order.
use mathlib.Core.Path.{ap₂, subst}
use postgres_vectorization_t.Compression.External.{Libraries}
use postgres_vectorization_t.Metadata.Messages.{Protobuf}
use postgres_vectorization_t.Prelude.{
  Bool, Bytes, List, Option, [], ap, append-nil, append_assoc, arith, concat, length, none, refl,
  some, sym, uint64, ℕ, ◌++◌, ◌+◌, ◌<◌, ◌∙◌, ◌∷◌, ◌≡◌, ◌≢◌,
}
use postgres_vectorization_t.Report.{>>=-eq-ok, ok, ok_injective}
use postgres_vectorization_t.Rows.{fill_row}
use postgres_vectorization_t.Rows.Table.{fill_rows}
use postgres_vectorization_t.Stripe.Sections.{
  StripeBuffers, stripe_buffers, stripe_metadata, stripe_writes,
}
use postgres_vectorization_t.Table.Write.{TableWriteState, end_of_stripes}
use postgres_vectorization_t.Tupmacs.{Tupmacs}
use postgres_vectorization_t.Types.{
  Attribute, CompressionType, StripeData, StripeMetadata, StripeSkipList, TableFooter,
}

module _ (T : Tupmacs) (protobuf : Protobuf) (L : Libraries) where
  open T use {Datum}

  module _ (compression_type : CompressionType) (stripe_max_row_count : ℕ) (attrs : List Attribute)
      (start : TableFooter) (old : Bytes) where
    -- The metadata is that of a stripe of these rows, at least one, at the offset.
    pub record IsStripe (offset : ℕ) (rows : List (List Datum × List Bool)) (m : StripeMetadata)
        : Type 0 where
      pub stripe_data : StripeData Datum
      pub skips : StripeSkipList Datum
      pub buffers : StripeBuffers T
      pub some_row : 0 < length rows
      pub filled :
          fill_rows T stripe_max_row_count start.block_row_count attrs none none rows
          ≡ ok (some stripe_data, some skips)
      pub made : stripe_buffers T protobuf L compression_type attrs stripe_data skips ≡ ok buffers
      pub placed : stripe_metadata T (length attrs) offset buffers ≡ ok m

    -- The rows are those of stripes with these metadata, one behind the other up to the offset,
    -- whose buffers are the bytes behind the old ones.
    pub data AreStripes
        : List (List Datum × List Bool) → ℕ → Bytes → List StripeMetadata → Type 0 where
      no_stripe : AreStripes [] (end_of_stripes start.stripe_metadata_list) old []
      stripe_behind :
          {before rows : List (List Datum × List Bool)} {offset : ℕ} {bytes : Bytes}
          {more : List StripeMetadata} {m : StripeMetadata}
          → AreStripes before offset bytes more
          → (stripe : IsStripe offset rows m)
          → AreStripes
              (before ++ rows)
              (uint64 (offset + m.skip_list_length + m.data_length + m.footer_length))
              (bytes ++ concat (stripe_writes T stripe.buffers))
              (more ++ m ∷ [])

    -- The state of a load after these rows: those of the stripes in its footer, behind the
    -- old ones, and those in memory; the table file starts with the bytes.
    pub record HasWritten (all : List (List Datum × List Bool)) (bytes : Bytes)
        (state : TableWriteState T) : Type 0 where
      pub flushed : List (List Datum × List Bool)
      pub pending : List (List Datum × List Bool)
      pub more : List StripeMetadata
      pub stripes : AreStripes flushed state.current_file_offset bytes more
      pub split : flushed ++ pending ≡ all
      pub same_footer :
          state.table_footer
          ≡ record start { stripe_metadata_list = start.stripe_metadata_list ++ more }
      pub same_compression : state.compression_type ≡ compression_type
      pub same_maximum : state.stripe_max_row_count ≡ stripe_max_row_count
      pub same_attrs : state.tuple_descriptor ≡ attrs
      pub in_memory :
          fill_rows T stripe_max_row_count start.block_row_count attrs none none pending
          ≡ ok (state.stripe_data, state.stripe_skip_list)

    pub fill_rows-append :
        (d : Option (StripeData Datum)) (s : Option (StripeSkipList Datum))
        (rows : List (List Datum × List Bool)) (values : List Datum) (nulls : List Bool)
        {d' : Option (StripeData Datum)} {s' : Option (StripeSkipList Datum)}
        {r : StripeData Datum × StripeSkipList Datum}
        → fill_rows T stripe_max_row_count start.block_row_count attrs d s rows ≡ ok (d', s')
        → fill_row T stripe_max_row_count start.block_row_count attrs d' s' values nulls ≡ ok r
        → fill_rows T stripe_max_row_count start.block_row_count attrs d s
            (rows ++ (values, nulls) ∷ [])
          ≡ ok (some r.0, some r.1)
    unfolding fill_rows
    fill_rows-append d s [] values nulls {d'} {s'} {r} e f =
        let same : (d, s) ≡ (d', s') = ok_injective e in
        let run : fill_row T stripe_max_row_count start.block_row_count attrs d s values nulls
            ≡ ok r =
          subst
            (λ (p : Option (StripeData Datum) × Option (StripeSkipList Datum)).
              fill_row T stripe_max_row_count start.block_row_count attrs p.0 p.1 values nulls
              ≡ ok r)
            (sym same) f in
        rw run refl
    fill_rows-append d s ((v, n) ∷ rows) values nulls e f =
        let (q, ran, rest) =
          >>=-eq-ok (fill_row T stripe_max_row_count start.block_row_count attrs d s v n)
            (λ r.
              fill_rows T stripe_max_row_count start.block_row_count attrs (some r.0) (some r.1)
                rows)
            e in
        rw ran (fill_rows-append (some q.0) (some q.1) rows values nulls rest f)

    -- From buffers that are there, buffers stay.
    stays_in_memory :
        (d : StripeData Datum) (s s' : Option (StripeSkipList Datum))
        (rows : List (List Datum × List Bool))
        → fill_rows T stripe_max_row_count start.block_row_count attrs (some d) s rows
          ≢ ok (none, s')
    unfolding fill_rows
    stays_in_memory d s s' [] e = cc
    stays_in_memory d s s' ((v, n) ∷ rows) e =
        let (q, ran, rest) =
          >>=-eq-ok (fill_row T stripe_max_row_count start.block_row_count attrs (some d) s v n)
            (λ r.
              fill_rows T stripe_max_row_count start.block_row_count attrs (some r.0) (some r.1)
                rows)
            e in
        stays_in_memory q.0 (some q.1) s' rows rest

    pub none_in_memory :
        (rows : List (List Datum × List Bool)) (s' : Option (StripeSkipList Datum))
        → fill_rows T stripe_max_row_count start.block_row_count attrs none none rows
          ≡ ok (none, s')
        → rows ≡ []
    unfolding fill_rows
    none_in_memory [] s' e = refl
    none_in_memory ((v, n) ∷ rows) s' e =
        let (q, ran, rest) =
          >>=-eq-ok (fill_row T stripe_max_row_count start.block_row_count attrs none none v n)
            (λ r.
              fill_rows T stripe_max_row_count start.block_row_count attrs (some r.0) (some r.1)
                rows)
            e in
        absurd (stays_in_memory q.0 (some q.1) s' rows rest)

    pub some_in_memory :
        (rows : List (List Datum × List Bool)) {d : StripeData Datum}
        {s : Option (StripeSkipList Datum)}
        → fill_rows T stripe_max_row_count start.block_row_count attrs none none rows
          ≡ ok (some d, s)
        → 0 < length rows
    unfolding fill_rows
    some_in_memory [] e = cc
    some_in_memory (row ∷ rows) e = omega arith

    -- The state at the start of a load.
    pub HasWritten-start :
        (state : TableWriteState T)
        → state.table_footer ≡ start
        → state.current_file_offset ≡ end_of_stripes start.stripe_metadata_list
        → state.compression_type ≡ compression_type
        → state.stripe_max_row_count ≡ stripe_max_row_count
        → state.tuple_descriptor ≡ attrs
        → state.stripe_data ≡ none
        → state.stripe_skip_list ≡ none
        → HasWritten [] old state
    unfolding fill_rows
    HasWritten-start state footer offset compression maximum descriptor no_data no_skips = record {
      flushed = [];
      pending = [];
      more = [];
      stripes = subst (λ o. AreStripes [] o old []) (sym offset) no_stripe;
      split = refl;
      same_footer =
          footer
          ∙ ap (λ l. record start { stripe_metadata_list = l })
              (sym (append-nil start.stripe_metadata_list));
      same_compression = compression;
      same_maximum = maximum;
      same_attrs = descriptor;
      in_memory = ap ok (ap₂ (λ x y. (x, y)) (sym no_data) (sym no_skips));
    }

    -- A row that is written to the buffers in memory.
    pub HasWritten-fill :
        (all : List (List Datum × List Bool)) (bytes : Bytes) (state : TableWriteState T)
        (values : List Datum) (nulls : List Bool) (r : StripeData Datum × StripeSkipList Datum)
        → HasWritten all bytes state
        → fill_row T state.stripe_max_row_count state.table_footer.block_row_count
            state.tuple_descriptor state.stripe_data state.stripe_skip_list values nulls
          ≡ ok r
        → HasWritten
            (all ++ (values, nulls) ∷ [])
            bytes
            (record state { stripe_data = some r.0; stripe_skip_list = some r.1 })
    HasWritten-fill all bytes state values nulls r h ran =
        let block_rows_same : state.table_footer.block_row_count ≡ start.block_row_count =
          ap (λ (f : TableFooter). f.block_row_count) h.same_footer in
        let ran_here : fill_row T stripe_max_row_count start.block_row_count attrs state.stripe_data
              state.stripe_skip_list values nulls
            ≡ ok r =
          rw (sym h.same_maximum, sym block_rows_same, sym h.same_attrs) ran in
        record {
          flushed = h.flushed;
          pending = h.pending ++ (values, nulls) ∷ [];
          more = h.more;
          stripes = h.stripes;
          split =
              sym (append_assoc h.flushed h.pending ((values, nulls) ∷ []))
              ∙ ap (λ l. l ++ (values, nulls) ∷ []) h.split;
          same_footer = h.same_footer;
          same_compression = h.same_compression;
          same_maximum = h.same_maximum;
          same_attrs = h.same_attrs;
          in_memory = fill_rows-append none none h.pending values nulls h.in_memory ran_here;
        }
