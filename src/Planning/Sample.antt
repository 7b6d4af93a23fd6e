-- ===== src/Planning/Sample.antt =====
-- A sample of a table's rows for `ANALYZE` (`CStoreAcquireSampleRows` of cstore_fdw.c), from the
-- rows that the scan returns.
use postgres_vectorization_t.Prelude.{
  Bool, List, [], false, if◌then◌else◌, length, ltb, set, suc, true, zero, ℕ, ◌++◌, ◌+◌, ◌∷◌,
}
use postgres_vectorization_t.Prelude.Int.{negsuc, pos, ℤ}
use postgres_vectorization_t.Report.{Result, guard, ok, out_of_bounds, ◌>>=◌, ◌>>◌}

-- Vitter's algorithm in PostgreSQL's commands/analyze.c: the state of its selection and of its
-- random numbers, how many rows
-- to skip behind `row_count` rows, and the index of the row to replace, a random one below the
-- target. A `double` that counts rows is an integer.
pub record Sampler : Type 1 where
  pub Selection : Type 0
  pub anl_get_next_s : ℕ → ℕ → Selection → ℤ × Selection
  pub random_index : ℕ → Selection → ℕ × Selection

-- Whether the number is at most zero, and the number less one.
abbrev pub at_most_zero : ℤ → Bool
at_most_zero (pos zero) = true
at_most_zero (pos (suc n)) = false
at_most_zero (negsuc n) = true

abbrev pub less_one : ℤ → ℤ
less_one (pos zero) = negsuc 0
less_one (pos (suc n)) = pos n
less_one (negsuc n) = negsuc (suc n)

module _ (S : Sampler) (Row : Type 0) where
  -- What the loop keeps.
  pub record SampleState : Type 0 where
    pub sample_rows : List Row
    pub row_count : ℕ
    pub row_count_to_skip : ℤ
    pub selection_state : S.Selection

  -- The number of rows to skip, asked for if it is not set.
  abbrev pub with_skip : ℕ → SampleState → ℤ → SampleState
  with_skip target state (pos n) = state
  with_skip target state (negsuc n) =
      let (skip, selection) = S.anl_get_next_s state.row_count target state.selection_state in
      record state { row_count_to_skip = skip; selection_state = selection }

  -- The replacement of a row of the sample by this one.
  abbrev pub replace : ℕ → Row → SampleState → Bool → Result SampleState
  replace target row state false = ok state
  replace target row state true =
      let (index, selection) = S.random_index target state.selection_state in
      guard (ltb index (length state.sample_rows)) out_of_bounds
      >> ok (record state {
        sample_rows = set state.sample_rows index row;
        selection_state = selection;
      })

  -- One round of the loop.
  unfoldable pub sample_row : ℕ → SampleState → Row → Result SampleState
  sample_row target state row =
      if ltb (length state.sample_rows) target
      then ok (record state {
        sample_rows = state.sample_rows ++ (row ∷ []);
        row_count = state.row_count + 1;
      })
      else (do
        let ready = with_skip target state state.row_count_to_skip
        replaced ← replace target row ready (at_most_zero ready.row_count_to_skip)
        ok (record replaced {
          row_count_to_skip = less_one replaced.row_count_to_skip;
          row_count = replaced.row_count + 1;
        }))

  unfoldable pub sample_loop : ℕ → SampleState → List Row → Result SampleState
  sample_loop target state [] = ok state
  sample_loop target state (row ∷ rows) = do
    next ← sample_row target state row
    sample_loop target next rows

  -- `CStoreAcquireSampleRows`, with the initial selection state: the sample, and the total number
  -- of rows.
  unfoldable pub cstore_acquire_sample_rows : ℕ → S.Selection → List Row → Result (List Row × ℕ)
  cstore_acquire_sample_rows target selection rows = do
    final ←
        sample_loop target
          (record {
            sample_rows = [];
            row_count = 0;
            row_count_to_skip = negsuc 0;
            selection_state = selection;
          })
          rows
    ok (final.sample_rows, final.row_count)
