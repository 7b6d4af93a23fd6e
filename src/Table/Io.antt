-- ===== src/Table/Io.antt =====
-- What the writer sees of the operating system: the files of one table, and how its calls end.
use postgres_vectorization_t.Prelude.{
  Bytes, List, Option, [], drop, if◌then◌else◌, length, replicate, take, ℕ, ◌++◌, ◌+◌, ◌-◌, ◌==◌,
  ◌∷◌,
}
use postgres_vectorization_t.Report.{
  Error, Result, could_not_close, could_not_flush, could_not_sync, could_not_write, err, file_error,
  ok,
}

-- How a call of the C library or of the operating system ends. A call that fails can have written
-- some of its bytes.
pub data Outcome : Type 0 where
  call_succeeds : Outcome
  call_fails : ℕ → Outcome

-- The table file with the position at which the writer is in it, the footer file, which is there
-- once a footer has been written, its temporary file, and the outcomes of the calls to come. When
-- no outcomes are left the calls succeed.
pub record World : Type 0 where
  pub table_file : Bytes
  pub position : ℕ
  pub footer_file : Option Bytes
  pub temp_footer_file : Bytes
  pub outcomes : List Outcome

-- A call of the writer: what it has done to the files stays when it ends by a report.
abbrev pub Io : Type 0 → Type 0
Io A = World → Result A × World

module _ {A : Type 0} where
  abbrev pub pure : A → Io A
  pure a w = (ok a, w)

  abbrev pub lift : Result A → Io A
  lift r w = (r, w)

  abbrev pub then_io : {B : Type 0} → Result A × World → (A → Io B) → Result B × World
  then_io (ok a, w) next = next a w
  then_io (err e, w) next = (err e, w)

-- One call after another; a report ends both.
infixl 5 ◌>>=◌ ◌>>◌
abbrev pub ◌>>=◌ : {A B : Type 0} → Io A → (A → Io B) → Io B
(m >>= next) w = then_io (m w) next

abbrev pub ◌>>◌ : {B : Type 0} → Io (Unit {0}) → Io B → Io B
m >> next = m >>= λ _. next

-- The outcome of the next call.
abbrev pub outcome_of : List Outcome → Io Outcome
outcome_of [] w = (ok call_succeeds, w)
outcome_of (o ∷ rest) w = (ok o, record w { outcomes = rest })

abbrev pub next_outcome : Io Outcome
next_outcome w = outcome_of w.outcomes w

-- A call that writes nothing, with the report that follows its failure.
abbrev pub report_failure : Error → Outcome → Io (Unit {0})
report_failure e call_succeeds w = (ok tt, w)
report_failure e (call_fails n) w = (err e, w)

abbrev pub call : Error → Io (Unit {0})
call e = do outcome ← next_outcome; report_failure e outcome

-- The file that a call is about.
pub data File : Type 0 where
  table_handle temp_footer_handle : File

-- Bytes written at a position, with zeros in the gap behind the end of a file that is shorter.
abbrev pub write_at : ℕ → Bytes → Bytes → Bytes
write_at position b file =
    take position file
    ++ (replicate (position - length file) 0 ++ (b ++ drop (position + length b) file))

-- The bytes go to the position in the table file, and to the end of the temporary file.
abbrev pub put : File → Bytes → World → World
put table_handle b w = record w {
  table_file = write_at w.position b w.table_file;
  position = w.position + length b;
}
put temp_footer_handle b w = record w { temp_footer_file = w.temp_footer_file ++ b }

-- `fwrite`, and the report that follows its failure.
abbrev pub fwrite : File → Bytes → Outcome → Io (Unit {0})
fwrite file b call_succeeds w = (ok tt, put file b w)
fwrite file b (call_fails n) w = (err could_not_write, put file (take n b) w)

-- `WriteToFile`
unfoldable pub write_to_file : File → Bytes → Io (Unit {0})
write_to_file file b =
    if length b == 0
    then pure tt
    else (do outcome ← next_outcome; fwrite file b outcome; call file_error)

-- `SyncAndCloseFile`
unfoldable pub sync_and_close_file : Io (Unit {0})
sync_and_close_file = do
  call could_not_flush
  call could_not_sync
  call file_error
  call could_not_close
