-- ===== src/Table/Growing.antt =====
-- The table file grows behind the old stripes.
use mathlib.Core.Path.{subst}
use postgres_vectorization_t.Prelude.{
  Bytes, List, Option, [], ap, append-nil, append_assoc, arith, concat, drop, false, length,
  length-append, suc, sym, take, take-length-append, ℕ, ◌++◌, ◌+◌, ◌-◌, ◌==◌, ◌∙◌, ◌∷◌, ◌≡◌,
}
use postgres_vectorization_t.Report.{file_error}
use postgres_vectorization_t.Table.Ends.{After, Ends, Keeps-Ends, bind-Ends}
use postgres_vectorization_t.Table.Guarded.{IsUntouched, take-take}
use postgres_vectorization_t.Table.Io.{
  Io, Outcome, World, call_fails, call_succeeds, fwrite, next_outcome, put, table_handle, write_at,
  write_to_file,
}
use postgres_vectorization_t.Table.Keeps.{IsStable, Keeps, call-Keeps, next_outcome-Keeps}
use postgres_vectorization_t.Table.Write.{write_all}

-- The table file starts with the bytes, which start with the old ones, and the writer is at their
-- end; the footer file is this.
pub record StartsWith (old : Bytes) (footer : Option Bytes) (bytes : Bytes) (w : World)
    : Type 0 where
  pub at : w.position ≡ length bytes
  pub untouched : IsUntouched (length bytes) bytes footer w
  pub rest : Bytes
  pub extends : bytes ≡ old ++ rest

-- What starts with more bytes starts with the old ones.
pub IsUntouched-old :
    (n : ℕ) (old rest bytes : Bytes) (footer : Option Bytes) (w : World)
    → length old ≡ n
    → bytes ≡ old ++ rest
    → IsUntouched (length bytes) bytes footer w
    → IsUntouched n old footer w
IsUntouched-old n old rest bytes footer w total extends h =
    let sizes : length bytes ≡ length old + length rest =
      ap length extends ∙ length-append old rest in
    record {
      enough = omega (arith, h.enough, sizes, total);
      same_bytes =
          sym (take-take n (length bytes) w.table_file (omega (arith, sizes, total)))
          ∙ ap (take n) (h.same_bytes ∙ extends)
          ∙ ap (λ k. take k (old ++ rest)) (sym total)
          ∙ take-length-append old rest;
      same_footer = h.same_footer;
    }

module _ (old : Bytes) (footer : Option Bytes) where
  StartsWith-stable : (bytes : Bytes) → IsStable (StartsWith old footer bytes)
  StartsWith-stable bytes = record {
    stable = λ w outcomes h. record {
      at = h.at;
      untouched = record {
        enough = h.untouched.enough;
        same_bytes = h.untouched.same_bytes;
        same_footer = h.untouched.same_footer;
      };
      rest = h.rest;
      extends = h.extends;
    };
  }

  put_behind :
      (bytes b : Bytes) (w : World)
      → StartsWith old footer bytes w
      → StartsWith old footer (bytes ++ b) (put table_handle b w)
  put_behind bytes b w h =
      let no_gap : w.position - length w.table_file ≡ 0 = omega (arith, h.at, h.untouched.enough) in
      let before : take w.position w.table_file ≡ bytes =
        ap (λ k. take k w.table_file) h.at ∙ h.untouched.same_bytes in
      let behind = drop (w.position + length b) w.table_file in
      let file : write_at w.position b w.table_file ≡ (bytes ++ b) ++ behind =
        rw (before, no_gap) (sym (append_assoc bytes b behind)) in
      record {
        at = omega (arith, h.at, length-append bytes b);
        untouched = record {
          enough = omega (arith, ap length file, length-append (bytes ++ b) behind);
          same_bytes =
              ap (take (length (bytes ++ b))) file ∙ take-length-append (bytes ++ b) behind;
          same_footer = h.untouched.same_footer;
        };
        rest = h.rest ++ b;
        extends = ap (λ x. x ++ b) h.extends ∙ append_assoc old h.rest b;
      }

  module _ (n : ℕ) (total : length old ≡ n) where
    pub StartsWith-old :
        {bytes : Bytes} (w : World) → StartsWith old footer bytes w → IsUntouched n old footer w
    StartsWith-old {bytes} w h =
        IsUntouched-old n old h.rest bytes footer w total h.extends h.untouched

    fwrite_behind-Ends :
        (bytes b : Bytes) (o : Outcome)
        → Ends
            (StartsWith old footer bytes)
            (λ _. StartsWith old footer (bytes ++ b))
            (IsUntouched n old footer)
            (fwrite table_handle b o)
    fwrite_behind-Ends bytes b call_succeeds = record { after = put_behind bytes b }
    fwrite_behind-Ends bytes b (call_fails k) = record {
      after =
          λ w h. StartsWith-old (put table_handle (take k b) w) (put_behind bytes (take k b) w h);
    }

    pub kept_behind :
        {A : Type 0} {m : Io A} (bytes : Bytes)
        → Keeps (StartsWith old footer bytes) m
        → Ends
            (StartsWith old footer bytes)
            (λ _. StartsWith old footer bytes)
            (IsUntouched n old footer)
            m
    kept_behind bytes keeps = Keeps-Ends StartsWith-old keeps

    write_behind-Ends :
        (bytes b : Bytes)
        → Ends
            (StartsWith old footer bytes)
            (λ _. StartsWith old footer (bytes ++ b))
            (IsUntouched n old footer)
            (write_to_file table_handle b)
    unfolding write_to_file
    write_behind-Ends bytes [] = record {
      after = λ w h. subst (λ x. StartsWith old footer x w) (sym (append-nil bytes)) h;
    }
    write_behind-Ends bytes (c ∷ b) =
        let nonempty : (suc (length b) == 0) ≡ false = ground arith in
        rw nonempty (
          bind-Ends next_outcome _
            (kept_behind bytes (next_outcome-Keeps (StartsWith-stable bytes)))
            (λ o.
              bind-Ends (fwrite table_handle (c ∷ b) o) _ (fwrite_behind-Ends bytes (c ∷ b) o) (λ _.
                kept_behind (bytes ++ (c ∷ b))
                  (call-Keeps (StartsWith-stable (bytes ++ (c ∷ b))) file_error))))

    -- The buffers end up one behind the other.
    pub write_all_behind-Ends :
        (bytes : Bytes) (buffers : List Bytes)
        → Ends
            (StartsWith old footer bytes)
            (λ _. StartsWith old footer (bytes ++ concat buffers))
            (IsUntouched n old footer)
            (write_all table_handle buffers)
    unfolding write_all
    write_all_behind-Ends bytes [] = record {
      after = λ w h. subst (λ x. StartsWith old footer x w) (sym (append-nil bytes)) h;
    }
    write_all_behind-Ends bytes (b ∷ buffers) =
        bind-Ends (write_to_file table_handle b) _ (write_behind-Ends bytes b) (λ _. record {
          after = λ w h.
              subst
                (λ x.
                  After (λ _. StartsWith old footer x) (IsUntouched n old footer)
                    (write_all table_handle buffers w))
                (append_assoc bytes b (concat buffers))
                ((write_all_behind-Ends (bytes ++ b) buffers).after w h);
        })
