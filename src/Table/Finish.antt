-- ===== src/Table/Finish.antt =====
-- The end of a load: the temporary footer file, and its rename.
use postgres_vectorization_t.Metadata.Footers.{serialize_post_script, serialize_table_footer}
use postgres_vectorization_t.Metadata.Messages.{Protobuf}
use postgres_vectorization_t.Prelude.{
  Bytes, Option, [], ap, append-nil, append_assoc, arith, false, length, refl, some, suc, sym, take,
  ℕ, ◌%◌, ◌++◌, ◌==◌, ◌∙◌, ◌∷◌, ◌≡◌,
}
use postgres_vectorization_t.Report.{could_not_open, file_error}
use postgres_vectorization_t.Table.Ends.{Ends, Keeps-Ends, bind-Ends}
use postgres_vectorization_t.Table.Guarded.{IsGuarded, IsGuarded-stable, IsUntouched, put_keeps}
use postgres_vectorization_t.Table.Io.{
  Outcome, World, call, call_fails, call_succeeds, fwrite, next_outcome, temp_footer_handle,
  write_to_file,
}
use postgres_vectorization_t.Table.Keeps.{
  IsStable, call-Keeps, next_outcome-Keeps, sync_and_close_file-Keeps,
}
use postgres_vectorization_t.Table.Steps.{Safe, Spoilt, kept_call}
use postgres_vectorization_t.Table.Write.{rename_footer, rename_result}
use postgres_vectorization_t.Table.WriteFooter.{cstore_write_footer, empty_temp_footer}
use postgres_vectorization_t.Types.{TableFooter}

-- The content of the footer file of a footer.
abbrev pub footer_bytes : Protobuf → TableFooter → Bytes
footer_bytes protobuf f =
    serialize_table_footer protobuf f
    ++ (serialize_post_script protobuf (length (serialize_table_footer protobuf f))
        ++ (length (serialize_post_script protobuf (length (serialize_table_footer protobuf f)))
              % 256
            ∷ []))

module _ (n : ℕ) (old : Bytes) (footer : Option Bytes) where
  -- The temporary file has these bytes.
  abbrev pub Prepared : Bytes → World → Type 0
  Prepared x w = IsGuarded n old footer w × (w.temp_footer_file ≡ x)

  Prepared-stable : (x : Bytes) → IsStable (Prepared x)
  Prepared-stable x = record {
    stable = λ w outcomes h. ((IsGuarded-stable n old footer).stable w outcomes h.0, h.1);
  }

  pub spoilt : {x : Bytes} (w : World) → Prepared x w → IsUntouched n old footer w
  spoilt w h = h.0.untouched

  fwrite_temp-Ends :
      (x b : Bytes) (o : Outcome)
      → Ends
          (Prepared x)
          (λ _. Prepared (x ++ b))
          (Spoilt n old footer)
          (fwrite temp_footer_handle b o)
  fwrite_temp-Ends x b call_succeeds = record {
    after = λ w h. (put_keeps n old footer temp_footer_handle w b h.0, ap (λ y. y ++ b) h.1);
  }
  fwrite_temp-Ends x b (call_fails k) = record {
    after = λ w h. (put_keeps n old footer temp_footer_handle w (take k b) h.0).untouched;
  }

  write_temp-Ends :
      (x b : Bytes)
      → Ends
          (Prepared x)
          (λ _. Prepared (x ++ b))
          (Spoilt n old footer)
          (write_to_file temp_footer_handle b)
  unfolding write_to_file
  write_temp-Ends x [] = record { after = λ w h. (h.0, h.1 ∙ sym (append-nil x)) }
  write_temp-Ends x (c ∷ b) =
      let nonempty : (suc (length b) == 0) ≡ false = ground arith in
      rw nonempty (
        bind-Ends next_outcome _ (Keeps-Ends spoilt (next_outcome-Keeps (Prepared-stable x))) (λ o.
          bind-Ends (fwrite temp_footer_handle (c ∷ b) o) _ (fwrite_temp-Ends x (c ∷ b) o)
            (λ _. Keeps-Ends spoilt (call-Keeps (Prepared-stable (x ++ (c ∷ b))) file_error))))

  module _ (protobuf : Protobuf) where
    pub write_footer-Ends :
        (f : TableFooter)
        → Ends
            (Safe n old footer)
            (λ _. Prepared (footer_bytes protobuf f))
            (Spoilt n old footer)
            (cstore_write_footer protobuf f)
    unfolding cstore_write_footer
    write_footer-Ends f =
        let packed = serialize_table_footer protobuf f in
        let script = serialize_post_script protobuf (length packed) in
        let size = length script % 256 ∷ [] in
        bind-Ends (call could_not_open) _
          (kept_call n old footer _ (call-Keeps (IsGuarded-stable n old footer) could_not_open))
          (λ _.
            bind-Ends {Q = λ _. Prepared []} empty_temp_footer _
              (record { after = λ w h. ((put_keeps_temp w h), refl) })
              (λ _.
                bind-Ends (write_to_file temp_footer_handle packed) _ (write_temp-Ends [] packed)
                  (λ _.
                    bind-Ends (write_to_file temp_footer_handle script) _
                      (write_temp-Ends packed script)
                      (λ _.
                        bind-Ends (write_to_file temp_footer_handle size) _
                          (write_temp-Ends (packed ++ script) size)
                          (λ _. record {
                            after = λ w h.
                                (Keeps-Ends spoilt (
                                    sync_and_close_file-Keeps
                                      (Prepared-stable (footer_bytes protobuf f)))).after
                                  w (h.0, h.1 ∙ append_assoc packed script size);
                          })))))
      where
        put_keeps_temp :
            (w : World)
            → IsGuarded n old footer w
            → IsGuarded n old footer (record w { temp_footer_file = [] })
        put_keeps_temp w h = record {
          behind = h.behind;
          untouched = record {
            enough = h.untouched.enough;
            same_bytes = h.untouched.same_bytes;
            same_footer = h.untouched.same_footer;
          };
        }

  rename_result-Ends :
      (x : Bytes) (o : Outcome)
      → Ends (Prepared x) (λ _. IsUntouched n old (some x)) (Spoilt n old footer) (rename_result o)
  rename_result-Ends x call_succeeds = record {
    after = λ w h. record {
      enough = h.0.untouched.enough;
      same_bytes = h.0.untouched.same_bytes;
      same_footer = ap some h.1;
    };
  }
  rename_result-Ends x (call_fails k) = record { after = λ w h. h.0.untouched }

  pub rename_footer-Ends :
      (x : Bytes)
      → Ends (Prepared x) (λ _. IsUntouched n old (some x)) (Spoilt n old footer) rename_footer
  rename_footer-Ends x =
      bind-Ends next_outcome _ (Keeps-Ends spoilt (next_outcome-Keeps (Prepared-stable x)))
        (rename_result-Ends x)
