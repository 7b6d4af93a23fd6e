-- ===== src/Planning/Sampled.antt =====
-- What a sample is.
use Prim.Native.Nat.{min}
use mathlib.Core.Path.{subst}
use postgres_vectorization_t.Planning.Sample.{
  SampleState, Sampler, at_most_zero, cstore_acquire_sample_rows, less_one, replace, sample_loop,
  sample_row, with_skip,
}
use postgres_vectorization_t.Prelude.{
  All, Bool, Bool-cases, List, [], ap, arith, false, inl, inr, length, length-append, length-set,
  ltb, ltb→lt, lt→ltb, refl, set, suc, sym, true, zero, ℕ, ◌++◌, ◌+◌, ◌<◌, ◌∙◌, ◌∷◌, ◌≡◌,
}
use postgres_vectorization_t.Prelude.Int.{negsuc, pos, ℤ}
use postgres_vectorization_t.Report.{ok}

-- A random index lies below the target.
pub record IsSampler (S : Sampler) : Type 0 where
  pub index_below :
      (target : ℕ) (selection : S.Selection)
      → 0 < target
      → (S.random_index target selection).0 < target

module _ (S : Sampler) (Row : Type 0) (P : Row → Type 0) where
  All-append : (xs : List Row) (row : Row) → All P xs → P row → All P (xs ++ (row ∷ []))
  All-append [] row h p = (p, tt)
  All-append (x ∷ xs) row h p = (h.0, All-append xs row h.1 p)

  All-set : (xs : List Row) (i : ℕ) (row : Row) → All P xs → P row → All P (set xs i row)
  All-set [] i row h p = tt
  All-set (x ∷ xs) zero row h p = (p, h.1)
  All-set (x ∷ xs) (suc i) row h p = (h.0, All-set xs i row h.1 p)

  -- The state behind some rows.
  record IsSample (target : ℕ) (state : SampleState S Row) : Type 0 where
    size : length state.sample_rows ≡ min target state.row_count
    sampled : All P state.sample_rows

  with_skip_same :
      (target : ℕ) (state : SampleState S Row) (skip : ℤ)
      → ((with_skip S Row target state skip).sample_rows ≡ state.sample_rows)
        × ((with_skip S Row target state skip).row_count ≡ state.row_count)
  with_skip_same target state (pos n) = (refl, refl)
  with_skip_same target state (negsuc n) = (refl, refl)

  replace_lem :
      (target : ℕ) (row : Row) (state : SampleState S Row) (replaces : Bool)
      → IsSampler S
      → 0 < target
      → length state.sample_rows ≡ target
      → All P state.sample_rows
      → P row
      → (after : SampleState S Row) × (replace S Row target row state replaces ≡ ok after)
        × (length after.sample_rows ≡ target)
        × All P after.sample_rows
        × (after.row_count ≡ state.row_count)
  replace_lem target row state false good positive full sampled p =
      (state, refl, full, sampled, refl)
  replace_lem target row state true good positive full sampled p =
      let index = (S.random_index target state.selection_state).0 in
      let inside : ltb index (length state.sample_rows) ≡ true =
        lt→ltb _ _ (omega (arith, full, good.index_below target state.selection_state positive)) in
      let after : SampleState S Row = record state {
        sample_rows = set state.sample_rows index row;
        selection_state = (S.random_index target state.selection_state).1;
      } in
      (
        after,
        simp inside refl,
        length-set state.sample_rows index row ∙ full,
        All-set state.sample_rows index row sampled p,
        refl,
      )

  sample_row_lem :
      (target : ℕ) (state : SampleState S Row) (row : Row)
      → IsSampler S
      → 0 < target
      → IsSample target state
      → P row
      → (after : SampleState S Row) × (sample_row S Row target state row ≡ ok after)
        × IsSample target after
        × (after.row_count ≡ state.row_count + 1)
  unfolding sample_row
  sample_row_lem target state row good positive h p =
      elim (Bool-cases (ltb (length state.sample_rows) target)) [
        | inl room ↦
            let below = ltb→lt _ _ room in
            let after : SampleState S Row = record state {
              sample_rows = state.sample_rows ++ (row ∷ []);
              row_count = state.row_count + 1;
            } in
            (
              after,
              rw room refl,
              record {
                size = omega (arith, h.size, below, length-append state.sample_rows (row ∷ []));
                sampled = All-append state.sample_rows row h.sampled p;
              },
              refl,
            )
        | inr full ↦
            let ready = with_skip S Row target state state.row_count_to_skip in
            let (same_rows, same_count) = with_skip_same target state state.row_count_to_skip in
            let whole : length state.sample_rows ≡ target = ground (arith, full, h.size) in
            let (replaced, runs, size, sampled, count) =
              replace_lem target row ready (at_most_zero ready.row_count_to_skip) good positive
                (ap (λ (xs : List Row). length xs) same_rows ∙ whole)
                (subst (All P) (sym same_rows) h.sampled) p in
            let after : SampleState S Row = record replaced {
              row_count_to_skip = less_one replaced.row_count_to_skip;
              row_count = replaced.row_count + 1;
            } in
            (
              after,
              rw full (simp runs refl),
              record {
                size = omega (arith, size, whole, h.size, count, same_count);
                sampled = sampled;
              },
              omega (arith, count, same_count),
            )
      ]

  sample_loop_lem :
      (target : ℕ) (state : SampleState S Row) (rows : List Row)
      → IsSampler S
      → 0 < target
      → IsSample target state
      → All P rows
      → (after : SampleState S Row) × (sample_loop S Row target state rows ≡ ok after)
        × IsSample target after
        × (after.row_count ≡ state.row_count + length rows)
  unfolding sample_loop
  sample_loop_lem target state [] good positive h all = (state, refl, h, omega arith)
  sample_loop_lem target state (row ∷ rows) good positive h all =
      let (next, step, still, count) = sample_row_lem target state row good positive h all.0 in
      let (after, runs, last, total) = sample_loop_lem target next rows good positive still all.1 in
      (after, simp step runs, last, omega (arith, count, total))

  -- For a sampler whose indices lie below a target that is not zero, and rows with some property
  -- each: the sample is taken without an access out of bounds, it has as many rows as there are but
  -- at most the target, all of them have the property, and the total is the number of rows.
  pub cstore_acquire_sample_rows-All :
      (target : ℕ) (selection : S.Selection) (rows : List Row)
      → IsSampler S
      → 0 < target
      → All P rows
      → (sample : List Row) × (cstore_acquire_sample_rows S Row target selection rows
          ≡ ok (sample, length rows))
        × (length sample ≡ min target (length rows))
        × All P sample
  unfolding cstore_acquire_sample_rows
  cstore_acquire_sample_rows-All target selection rows good positive all =
      let start : SampleState S Row = record {
        sample_rows = [];
        row_count = 0;
        row_count_to_skip = negsuc 0;
        selection_state = selection;
      } in
      let (final, runs, h, total) =
        sample_loop_lem target start rows good positive
          (record { size = omega arith; sampled = tt }) all in
      let count : final.row_count ≡ length rows = omega (arith, total) in
      (
        final.sample_rows,
        simp runs (ap (λ n. ok (final.sample_rows, n)) count),
        h.size ∙ ap (min target) count,
        h.sampled,
      )
