-- ===== src/Table/Commit.antt =====
-- When no call of the operating system fails, the end of a load commits the footer.
use postgres_vectorization_t.Compression.External.{Libraries}
use postgres_vectorization_t.Metadata.Footers.{serialize_post_script, serialize_table_footer}
use postgres_vectorization_t.Metadata.Footers.RoundTrip.{IsTableFooter}
use postgres_vectorization_t.Metadata.Messages.{Protobuf}
use postgres_vectorization_t.Prelude.{
  Bytes, List, [], ap, append-nil, append_assoc, arith, false, inl, inr, length, none, refl, some,
  suc, sym, ◌%◌, ◌++◌, ◌<◌, ◌==◌, ◌^◌, ◌∙◌, ◌∷◌, ◌≡◌,
}
use postgres_vectorization_t.Report.{
  Error, could_not_close, could_not_flush, could_not_open, could_not_sync, file_error, ok,
}
use postgres_vectorization_t.Table.Ends.{After, After-cases, Ends, bind-Ends}
use postgres_vectorization_t.Table.Finish.{footer_bytes}
use postgres_vectorization_t.Table.FooterFile.{cstore_read_footer-footer_bytes}
use postgres_vectorization_t.Table.Io.{
  Io, Outcome, World, call, call_succeeds, fwrite, outcome_of, put, report_failure,
  sync_and_close_file, temp_footer_handle, then_io, write_to_file, ◌>>◌,
}
use postgres_vectorization_t.Table.ReadFooter.{cstore_read_footer}
use postgres_vectorization_t.Table.Write.{
  TableWriteState, cstore_end_write, rename_footer, rename_result,
}
use postgres_vectorization_t.Table.WriteFooter.{cstore_write_footer, empty_temp_footer}
use postgres_vectorization_t.Tupmacs.{Tupmacs}
use postgres_vectorization_t.Types.{TableFooter}

-- No call to come fails, and the table file and the temporary footer file have these bytes.
pub record IsQuiet (table x : Bytes) (w : World) : Type 0 where
  pub no_failure : w.outcomes ≡ []
  pub table_same : w.table_file ≡ table
  pub temp_same : w.temp_footer_file ≡ x

abbrev pub Never : World → Type 0
Never w = ⊥

pub quiet_outcome :
    {A : Type 0} (Q : A → World → Type 0) (next : Outcome → Io A) (os : List Outcome) (w : World)
    → os ≡ []
    → After Q Never (next call_succeeds w)
    → After Q Never (then_io (outcome_of os w) next)
quiet_outcome Q next [] w e h = h
quiet_outcome Q next (o ∷ os) w e h = cc

module _ (table : Bytes) where
  IsQuiet-call :
      (x : Bytes) (e : Error) → Ends (IsQuiet table x) (λ _. IsQuiet table x) Never (call e)
  IsQuiet-call x e = record {
    after =
        λ w h. quiet_outcome (λ _. IsQuiet table x) (report_failure e) w.outcomes w h.no_failure h;
  }

  IsQuiet-write :
      (x b : Bytes)
      → Ends
          (IsQuiet table x)
          (λ _. IsQuiet table (x ++ b))
          Never
          (write_to_file temp_footer_handle b)
  unfolding write_to_file
  IsQuiet-write x [] = record {
    after = λ w h. record {
      no_failure = h.no_failure;
      table_same = h.table_same;
      temp_same = h.temp_same ∙ sym (append-nil x);
    };
  }
  IsQuiet-write x (c ∷ b) =
      let nonempty : (suc (length b) == 0) ≡ false = ground arith in
      rw nonempty (record {
        after = λ w h.
            quiet_outcome (λ _. IsQuiet table (x ++ (c ∷ b)))
              (λ o. fwrite temp_footer_handle (c ∷ b) o >> call file_error) w.outcomes w
              h.no_failure
              ((IsQuiet-call (x ++ (c ∷ b)) file_error).after (put temp_footer_handle (c ∷ b) w)
                (record {
                  no_failure = h.no_failure;
                  table_same = h.table_same;
                  temp_same = ap (λ y. y ++ (c ∷ b)) h.temp_same;
                }));
      })

  IsQuiet-close :
      (x : Bytes) → Ends (IsQuiet table x) (λ _. IsQuiet table x) Never sync_and_close_file
  unfolding sync_and_close_file
  IsQuiet-close x = bind-Ends (call could_not_flush) _ (IsQuiet-call x could_not_flush) (λ _.
      bind-Ends (call could_not_sync) _ (IsQuiet-call x could_not_sync) (λ _.
        bind-Ends (call file_error) _ (IsQuiet-call x file_error)
          (λ _. IsQuiet-call x could_not_close)))

  module _ (protobuf : Protobuf) where
    IsQuiet-footer :
        (f : TableFooter) (x : Bytes)
        → Ends
            (IsQuiet table x)
            (λ _. IsQuiet table (footer_bytes protobuf f))
            Never
            (cstore_write_footer protobuf f)
    unfolding cstore_write_footer
    IsQuiet-footer f x =
        let packed = serialize_table_footer protobuf f in
        let script = serialize_post_script protobuf (length packed) in
        let size = length script % 256 ∷ [] in
        bind-Ends (call could_not_open) _ (IsQuiet-call x could_not_open) (λ _.
          bind-Ends {Q = λ _. IsQuiet table []} empty_temp_footer _
            (record {
              after = λ w h. record {
                no_failure = h.no_failure;
                table_same = h.table_same;
                temp_same = refl;
              };
            })
            (λ _.
              bind-Ends (write_to_file temp_footer_handle packed) _ (IsQuiet-write [] packed) (λ _.
                bind-Ends (write_to_file temp_footer_handle script) _ (IsQuiet-write packed script)
                  (λ _.
                    bind-Ends (write_to_file temp_footer_handle size) _
                      (IsQuiet-write (packed ++ script) size)
                      (λ _. record {
                        after = λ w h. (IsQuiet-close (footer_bytes protobuf f)).after w (record {
                          no_failure = h.no_failure;
                          table_same = h.table_same;
                          temp_same = h.temp_same ∙ append_assoc packed script size;
                        });
                      })))))

    -- The footer file has these bytes.
    pub record HasFooter (b : Bytes) (w : World) : Type 0 where
      pub table_same : w.table_file ≡ table
      pub footer_same : w.footer_file ≡ some b

    IsQuiet-rename : (x : Bytes) → Ends (IsQuiet table x) (λ _. HasFooter x) Never rename_footer
    IsQuiet-rename x = record {
      after = λ w h.
          quiet_outcome (λ _. HasFooter x) rename_result w.outcomes w h.no_failure
            (record { table_same = h.table_same; footer_same = ap some h.temp_same });
    }

    IsQuiet-end :
        (T : Tupmacs) (L : Libraries) (state : TableWriteState T) (x : Bytes)
        → state.stripe_data ≡ none
        → Ends
            (IsQuiet table x)
            (λ _. HasFooter (footer_bytes protobuf state.table_footer))
            Never
            (cstore_end_write T protobuf L state)
    unfolding cstore_end_write
    IsQuiet-end T L state x flushed = rw flushed (
        bind-Ends sync_and_close_file _ (IsQuiet-close x) (λ _.
          bind-Ends (cstore_write_footer protobuf state.table_footer) _
            (IsQuiet-footer state.table_footer x)
            (λ _. IsQuiet-rename (footer_bytes protobuf state.table_footer))))

    -- When no call of the operating system fails, and no stripe is left in memory: for a footer
    -- that the reader accepts, shorter than 2 ^ 32 bytes with a postscript shorter than 256, the
    -- load ends with a value, the table file is as it was, and `CStoreReadFooter` finds the
    -- footer of the load in the footer file.
    pub cstore_end_write_commits :
        (T : Tupmacs) (L : Libraries) (state : TableWriteState T) (w : World)
        → w.outcomes ≡ []
        → w.table_file ≡ table
        → state.stripe_data ≡ none
        → IsTableFooter state.table_footer
        → length (serialize_table_footer protobuf state.table_footer) < 2 ^ 32
        → length (
            serialize_post_script protobuf
              (length (serialize_table_footer protobuf state.table_footer)))
          < 256
        → (after : World) × (b : Bytes) × (cstore_end_write T protobuf L state w ≡ (ok tt, after))
          × (after.table_file ≡ table)
          × (after.footer_file ≡ some b)
          × (cstore_read_footer protobuf b ≡ ok state.table_footer)
    cstore_end_write_commits T L state w quiet same flushed good short few =
        let b = footer_bytes protobuf state.table_footer in
        let run = cstore_end_write T protobuf L state in
        let ends =
          (IsQuiet-end T L state w.temp_footer_file flushed).after w
            (record { no_failure = quiet; table_same = same; temp_same = refl }) in
        elim (After-cases (λ _. HasFooter b) Never (run w) ends) [
          | inl (t, ended, has) ↦ (
            (run w).1,
            b,
            ap (λ r. (r, (run w).1)) ended,
            has.table_same,
            has.footer_same,
            cstore_read_footer-footer_bytes protobuf state.table_footer good short few,
          )
          | inr (e, ended, bad) ↦ absurd bad
        ]
