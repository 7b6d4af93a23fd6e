-- ===== src/Table/Keeps.antt =====
-- What a call leaves as it was, however it ends.
use postgres_vectorization_t.Prelude.{
  Bool, Bytes, List, [], false, if◌then◌else◌, length, take, true, ◌==◌, ◌∷◌,
}
use postgres_vectorization_t.Report.{
  Error, Result, could_not_close, could_not_flush, could_not_sync, err, file_error, ok,
}
use postgres_vectorization_t.Table.Io.{
  File, Io, Outcome, World, call, call_fails, call_succeeds, fwrite, lift, next_outcome, outcome_of,
  pure, put, report_failure, sync_and_close_file, then_io, write_to_file, ◌>>=◌, ◌>>◌,
}
use postgres_vectorization_t.Table.Write.{write_all}

-- A call keeps a predicate of the files when it ends with a value and when it ends by a report.
pub record Keeps (P : World → Type 0) {A : Type 0} (m : Io A) : Type 0 where
  pub after : (w : World) → P w → P (m w).1

-- A predicate that does not look at the outcomes to come.
pub record IsStable (P : World → Type 0) : Type 0 where
  pub stable : (w : World) (outcomes : List Outcome) → P w → P (record w { outcomes = outcomes })

module _ {P : World → Type 0} where
  pub pure-Keeps : {A : Type 0} (a : A) → Keeps P (pure a)
  pure-Keeps a = record { after = λ w h. h }

  pub lift-Keeps : {A : Type 0} (r : Result A) → Keeps P (lift r)
  lift-Keeps r = record { after = λ w h. h }

  then_io-Keeps :
      {A B : Type 0} (r : Result A) (w : World) (next : A → Io B)
      → P w
      → ((a : A) → Keeps P (next a))
      → P (then_io (r, w) next).1
  then_io-Keeps (ok a) w next h then_keeps = (then_keeps a).after w h
  then_io-Keeps (err e) w next h then_keeps = h

  -- One call after another.
  pub bind-Keeps :
      {A B : Type 0} (m : Io A) (next : A → Io B)
      → Keeps P m
      → ((a : A) → Keeps P (next a))
      → Keeps P (m >>= next)
  bind-Keeps m next keeps then_keeps = record {
    after = λ w h. then_io-Keeps (m w).0 (m w).1 next (keeps.after w h) then_keeps;
  }

  pub seq-Keeps :
      {B : Type 0} (m : Io (Unit {0})) (next : Io B)
      → Keeps P m
      → Keeps P next
      → Keeps P (m >> next)
  seq-Keeps m next keeps then_keeps = bind-Keeps m (λ _. next) keeps (λ _. then_keeps)

  pub if-Keeps :
      {A : Type 0} (b : Bool) (m n : Io A) → Keeps P m → Keeps P n → Keeps P (if b then m else n)
  if-Keeps true m n keeps others = keeps
  if-Keeps false m n keeps others = others

  module _ (s : IsStable P) where
    outcome_of_keeps : (os : List Outcome) (w : World) → P w → P (outcome_of os w).1
    outcome_of_keeps [] w h = h
    outcome_of_keeps (o ∷ os) w h = s.stable w os h

    pub next_outcome-Keeps : Keeps P next_outcome
    next_outcome-Keeps = record { after = λ w. outcome_of_keeps w.outcomes w }

    report_failure-Keeps : (e : Error) (o : Outcome) → Keeps P (report_failure e o)
    report_failure-Keeps e call_succeeds = record { after = λ w h. h }
    report_failure-Keeps e (call_fails n) = record { after = λ w h. h }

    pub call-Keeps : (e : Error) → Keeps P (call e)
    call-Keeps e = bind-Keeps next_outcome _ next_outcome-Keeps (report_failure-Keeps e)

    pub sync_and_close_file-Keeps : Keeps P sync_and_close_file
    unfolding sync_and_close_file
    sync_and_close_file-Keeps = seq-Keeps (call could_not_flush) _ (call-Keeps could_not_flush) (
        seq-Keeps (call could_not_sync) _ (call-Keeps could_not_sync)
          (seq-Keeps (call file_error) _ (call-Keeps file_error) (call-Keeps could_not_close)))

    -- A predicate that holds also after a write of any bytes is kept by `WriteToFile`.
    module _ (file : File) (written : (w : World) (b : Bytes) → P w → P (put file b w)) where
      fwrite-Keeps : (b : Bytes) (o : Outcome) → Keeps P (fwrite file b o)
      fwrite-Keeps b call_succeeds = record { after = λ w h. written w b h }
      fwrite-Keeps b (call_fails n) = record { after = λ w h. written w (take n b) h }

      pub write_to_file-Keeps : (b : Bytes) → Keeps P (write_to_file file b)
      unfolding write_to_file
      write_to_file-Keeps b = if-Keeps (length b == 0) (pure tt) _ (pure-Keeps tt) (
          bind-Keeps next_outcome _ next_outcome-Keeps (λ o.
            seq-Keeps (fwrite file b o) (call file_error) (fwrite-Keeps b o)
              (call-Keeps file_error)))

      pub write_all-Keeps : (buffers : List Bytes) → Keeps P (write_all file buffers)
      unfolding write_all
      write_all-Keeps [] = pure-Keeps tt
      write_all-Keeps (b ∷ buffers) =
          seq-Keeps (write_to_file file b) (write_all file buffers) (write_to_file-Keeps b)
            (write_all-Keeps buffers)
