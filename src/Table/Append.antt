-- ===== src/Table/Append.antt =====
-- When no call of the operating system fails, what is written is appended to the table file.
use mathlib.Core.Path.{ap₂, subst}
use postgres_vectorization_t.Prelude.{
  Bytes, List, [], ap, append-nil, append_assoc, arith, concat, drop, false, length, length-append,
  refl, suc, sym, take, take-all, zero, ℕ, ◌++◌, ◌+◌, ◌-◌, ◌==◌, ◌∙◌, ◌∷◌, ◌≡◌, ◌≤◌,
}
use postgres_vectorization_t.Report.{Error, file_error}
use postgres_vectorization_t.Table.Commit.{Never, quiet_outcome}
use postgres_vectorization_t.Table.Ends.{After, Ends, bind-Ends}
use postgres_vectorization_t.Table.Io.{
  World, call, fwrite, put, report_failure, table_handle, write_at, write_to_file, ◌>>◌,
}
use postgres_vectorization_t.Table.Write.{write_all}

-- No call to come fails, and the writer is at the end of the table file, which has these bytes.
pub record IsAppending (table : Bytes) (w : World) : Type 0 where
  pub no_failure : w.outcomes ≡ []
  pub table_same : w.table_file ≡ table
  pub at_end : w.position ≡ length table

drop-all : (n : ℕ) (xs : Bytes) → length xs ≤ n → drop n xs ≡ []
drop-all zero [] h = refl
drop-all (suc n) [] h = refl
drop-all zero (x ∷ xs) h = absurd (omega (arith, h))
drop-all (suc n) (x ∷ xs) h = drop-all n xs (omega (arith, h))

write_at_end : (b file : Bytes) → write_at (length file) b file ≡ file ++ b
write_at_end b file =
    let whole : take (length file) file ≡ file = take-all (length file) file refl in
    let no_gap : length file - length file ≡ 0 = omega arith in
    let no_rest : drop (length file + length b) file ≡ [] =
      drop-all (length file + length b) file (omega arith) in
    rw (whole, no_gap, no_rest) (ap (λ x. file ++ x) (append-nil b))

appended :
    (table b : Bytes) (w : World)
    → IsAppending table w
    → IsAppending (table ++ b) (put table_handle b w)
appended table b w h = record {
  no_failure = h.no_failure;
  table_same = ap₂ (λ p f. write_at p b f) h.at_end h.table_same ∙ write_at_end b table;
  at_end = omega (arith, h.at_end, length-append table b);
}

append_call :
    (table : Bytes) (e : Error) → Ends (IsAppending table) (λ _. IsAppending table) Never (call e)
append_call table e = record {
  after =
      λ w h. quiet_outcome (λ _. IsAppending table) (report_failure e) w.outcomes w h.no_failure h;
}

append_write :
    (table b : Bytes)
    → Ends (IsAppending table) (λ _. IsAppending (table ++ b)) Never (write_to_file table_handle b)
unfolding write_to_file
append_write table [] = record {
  after = λ w h. subst (λ t. IsAppending t w) (sym (append-nil table)) h;
}
append_write table (c ∷ b) =
    let nonempty : (suc (length b) == 0) ≡ false = ground arith in
    rw nonempty (record {
      after = λ w h.
          quiet_outcome (λ _. IsAppending (table ++ (c ∷ b)))
            (λ o. fwrite table_handle (c ∷ b) o >> call file_error) w.outcomes w h.no_failure
            ((append_call (table ++ (c ∷ b)) file_error).after (put table_handle (c ∷ b) w)
              (appended table (c ∷ b) w h));
    })

-- The buffers end up one behind the other.
pub append_all :
    (table : Bytes) (buffers : List Bytes)
    → Ends
        (IsAppending table)
        (λ _. IsAppending (table ++ concat buffers))
        Never
        (write_all table_handle buffers)
unfolding write_all
append_all table [] = record {
  after = λ w h. subst (λ t. IsAppending t w) (sym (append-nil table)) h;
}
append_all table (b ∷ buffers) =
    bind-Ends (write_to_file table_handle b) _ (append_write table b) (λ _. record {
      after = λ w h.
          subst (λ t. After (λ _. IsAppending t) Never (write_all table_handle buffers w))
            (append_assoc table b (concat buffers)) ((append_all (table ++ b) buffers).after w h);
    })
