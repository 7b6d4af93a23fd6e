-- ===== src/Planning.antt =====
-- The planning of a scan (cstore_fdw.c): the columns that a query needs, and the number of pages
-- of a table's file.
pub mod Needed
pub mod Sample
pub mod Sampled
use postgres_vectorization_t.Prelude.{
  Bool, List, Option, [], false, if◌then◌else◌, ltb, none, some, suc, uint32, zero, ℕ, ◌*◌, ◌+◌,
  ◌-◌, ◌/◌, ◌==◌, ◌∷◌,
}
use postgres_vectorization_t.Prelude.Int.{negsuc, pos, ℤ}

-- The number of pages of a file of a size, or of ten pages if `stat` found none; a `BlockNumber`
-- is 32 bits wide, and `blcksz` is PostgreSQL's block size.
unfoldable pub page_count : ℕ → Option ℕ → ℕ
page_count blcksz found =
    let size = size_or_default blcksz found in
    let count = uint32 ((size + (blcksz - 1)) / blcksz) in if ltb count 1 then 1 else count
  where
    size_or_default : ℕ → Option ℕ → ℕ
    size_or_default blcksz none = 10 * blcksz
    size_or_default blcksz (some size) = size

-- Whether a column number is that of a column; a whole row has 0, and a system column a negative
-- number.
abbrev pub is_column : ℕ → ℤ → Bool
is_column k (pos n) = n == k
is_column k (negsuc n) = false

-- A query's columns, each a `Var` of PostgreSQL of which the code reads `varattno`, and
-- PostgreSQL's `list_union` of two lists of them.
module _ {Var : Type 0} (varattno : Var → ℤ) (list_union : List Var → List Var → List Var) where
  -- The first of the needed columns with that number.
  unfoldable pub find_column : ℕ → List Var → Option Var
  find_column k [] = none
  find_column k (v ∷ needed) =
      let rest = find_column k needed in if is_column k (varattno v) then some v else rest

  -- The list behind a column that was found.
  abbrev pub with_column : Option Var → List Var → List Var
  with_column none columns = columns
  with_column (some v) columns = v ∷ columns

  -- The loop over the column numbers, with `n` left from `k`.
  unfoldable pub column_loop : ℕ → ℕ → List Var → List Var
  unfolding find_column
  column_loop zero k needed = []
  column_loop (suc n) k needed = with_column (find_column k needed) (column_loop n (k + 1) needed)

  -- The loop over the restriction clauses, each given by the columns that `pull_var_clause` finds
  -- in it.
  unfoldable pub needed_columns : List Var → List (List Var) → List Var
  needed_columns needed [] = needed
  needed_columns needed (clause ∷ clauses) = needed_columns (list_union needed clause) clauses

  -- `ColumnList`, for a table whose `max_attr` is the column count.
  unfoldable pub column_list : ℕ → List Var → List (List Var) → List Var
  column_list column_count targets clauses =
      column_loop column_count 1 (needed_columns targets clauses)
