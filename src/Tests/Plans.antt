-- ===== src/Tests/Plans.antt =====
-- The theorems on options, planning and sampling at concrete inputs.
use Prim.Native.Nat.{min}
use mathlib.Core.Bool.{false≢true}
use postgres_vectorization_t.Metadata.Footers.{
  block_row_count_maximum, block_row_count_minimum, strncmp_equal,
}
use postgres_vectorization_t.Options.{
  is_invalid, stripe_row_count_maximum, stripe_row_count_minimum, validate_foreign_table_options,
}
use postgres_vectorization_t.Options.Get.{
  CstoreFdwOptions, DefElem, collect, collect_options, cstore_fdw_validator,
  cstore_get_option_value, cstore_get_options, find_option, option_name_block_row_count,
  option_valid,
}
use postgres_vectorization_t.Options.Names.{IsValidOption, cstore_fdw_validator_names}
use postgres_vectorization_t.Options.Used.{IsWithin, cstore_get_options_bounds}
use postgres_vectorization_t.Planning.{column_list, is_column}
use postgres_vectorization_t.Planning.Needed.{
  clause_uses, column_list-projects, needs, numbers_of, uses,
}
use postgres_vectorization_t.Planning.Sample.{Sampler, cstore_acquire_sample_rows}
use postgres_vectorization_t.Planning.Sampled.{IsSampler, cstore_acquire_sample_rows-All}
use postgres_vectorization_t.Prelude.{
  All, Bool, Bytes, List, [], ap, arith, false, get_or, length, ltb, refl, some, suc, sym, true,
  zero, ℕ, ◌&&◌, ◌++◌, ◌+◌, ◌<◌, ◌||◌, ◌∙◌, ◌∷◌, ◌≡◌, ◌≤◌,
}
use postgres_vectorization_t.Prelude.Int.{negsuc, pos, ℤ}
use postgres_vectorization_t.Report.{Result, ok}
use postgres_vectorization_t.Rows.{empty_node}
use postgres_vectorization_t.Rows.Limited.{IsBetween, IsOrder, update_all-IsBetween}
use postgres_vectorization_t.Rows.Limits.{is_negative, is_positive, update_all}
use postgres_vectorization_t.Rows.Read.{projects}
use postgres_vectorization_t.Tests.Instances.{
  int4_column, macros, nine, nine-IsSized, seven, seven-IsSized,
}
use postgres_vectorization_t.Types.{compression_none}

-- A query on columns 1, 3 and 4, of which each `Var` is its number.
abbrev joined : List ℤ → List ℤ → List ℤ
joined = ◌++◌

needs-joined :
    (a b : List ℤ) (k : ℕ)
    → needs (λ z. z) joined (joined a b) k
      ≡ (needs (λ z. z) joined a k || needs (λ z. z) joined b k)
needs-joined [] b k = refl
needs-joined (z ∷ a) b k =
    ap (λ x. is_column k z || x) (needs-joined a b k)
    ∙ or_groups (is_column k z) (needs (λ z. z) joined a k) (needs (λ z. z) joined b k)
  where
    or_groups : (x y z : Bool) → (x || (y || z)) ≡ ((x || y) || z)
    or_groups true y z = refl
    or_groups false y z = refl

column_list-projects_example :
    projects
      (numbers_of
        (λ z. z)
        joined
        (column_list (λ z. z) joined 4 (pos 3 ∷ pos 4 ∷ []) ((pos 1 ∷ []) ∷ [])))
      2
    ≡ (ltb 2 4
        && (uses (λ z. z) joined (pos 3 ∷ pos 4 ∷ []) 3
            || clause_uses (λ z. z) joined ((pos 1 ∷ []) ∷ []) 3))
column_list-projects_example =
    column_list-projects (λ z. z) joined needs-joined 4 (pos 3 ∷ pos 4 ∷ []) ((pos 1 ∷ []) ∷ []) 2
      (omega arith) refl refl

-- A sampler that skips nothing and replaces the first row.
abbrev first_row : Sampler
first_row = record {
  Selection = ℕ;
  anl_get_next_s = λ row_count target selection. (pos 0, selection + 1);
  random_index = λ target selection. (0, selection);
}

first_row-IsSampler : IsSampler first_row
first_row-IsSampler = record { index_below = λ target selection positive. positive }

cstore_acquire_sample_rows-All_example :
    (sample : List ℕ) × (cstore_acquire_sample_rows first_row ℕ 2 0 (5 ∷ 6 ∷ 7 ∷ [])
      ≡ ok (sample, 3))
    × (length sample ≡ min 2 3)
    × All (λ n. n < 8) sample
cstore_acquire_sample_rows-All_example =
    cstore_acquire_sample_rows-All first_row ℕ (λ n. n < 8) 2 0 (5 ∷ 6 ∷ 7 ∷ []) first_row-IsSampler
      (omega arith) (omega arith, (omega arith, (omega arith, tt)))

-- An option with a value that PostgreSQL reads as 2000.
abbrev two_thousand : Bytes → Result ℤ
two_thousand s = ok (pos 2000)

abbrev row_options : List DefElem
row_options = record { defname = option_name_block_row_count; string = b'2' ∷ [] } ∷ []

abbrev used_options : CstoreFdwOptions
used_options = record {
  filename = b'f' ∷ [];
  compression_type = compression_none;
  stripe_row_count = pos 150000;
  block_row_count = pos 2000;
}

row_options_used : cstore_get_options two_thousand (b'f' ∷ []) row_options [] ≡ ok used_options
unfolding cstore_get_options cstore_get_option_value find_option validate_foreign_table_options
    strncmp_equal
row_options_used = refl

cstore_get_options_bounds_example :
    (is_invalid compression_none ≡ false)
    × IsWithin stripe_row_count_minimum stripe_row_count_maximum (pos 150000)
    × IsWithin block_row_count_minimum block_row_count_maximum (pos 2000)
cstore_get_options_bounds_example =
    cstore_get_options_bounds two_thousand (b'f' ∷ []) row_options [] used_options row_options_used

row_options_valid : cstore_fdw_validator two_thousand 3118 row_options 3118 ≡ ok tt
unfolding cstore_fdw_validator collect_options collect option_valid validate_foreign_table_options
    strncmp_equal
row_options_valid = refl

cstore_fdw_validator_names_example : All (IsValidOption 3118 3118) row_options
cstore_fdw_validator_names_example =
    cstore_fdw_validator_names 3118 3118 two_thousand row_options row_options_valid

-- A comparison of values by their first byte.
abbrev difference : ℕ → ℕ → ℤ
difference zero zero = pos 0
difference zero (suc n) = negsuc n
difference (suc m) zero = pos (suc m)
difference (suc m) (suc n) = difference m n

pub difference_le : (m n : ℕ) → is_positive (difference m n) ≡ false → m ≤ n
difference_le zero n e = omega arith
difference_le (suc m) zero e = absurd (false≢true (sym e))
difference_le (suc m) (suc n) e = omega (arith, difference_le m n e)

le_difference : (m n : ℕ) → m ≤ n → is_positive (difference m n) ≡ false
le_difference zero zero h = refl
le_difference zero (suc n) h = refl
le_difference (suc m) zero h = absurd (omega (arith, h))
le_difference (suc m) (suc n) h = le_difference m n (omega (arith, h))

not_negative_le : (m n : ℕ) → is_negative (difference m n) ≡ false → n ≤ m
not_negative_le m zero e = omega arith
not_negative_le zero (suc n) e = absurd (false≢true (sym e))
not_negative_le (suc m) (suc n) e = omega (arith, not_negative_le m n e)

positive_le : (m n : ℕ) → is_positive (difference m n) ≡ true → n ≤ m
positive_le m zero e = omega arith
positive_le zero (suc n) e = absurd (false≢true e)
positive_le (suc m) (suc n) e = omega (arith, positive_le m n e)

abbrev pub first_byte : Bytes → ℕ
first_byte b = get_or b 0 0

abbrev pub by_first_byte : Bytes → Bytes → ℤ
by_first_byte x y = difference (first_byte x) (first_byte y)

by_first_byte-IsOrder : IsOrder macros int4_column by_first_byte
by_first_byte-IsOrder = record {
  same = λ x. le_difference (first_byte x) (first_byte x) (omega arith);
  chain = λ x y z p q. le_difference (first_byte x) (first_byte z) (
      omega (
        arith,
        difference_le (first_byte x) (first_byte y) p,
        difference_le (first_byte y) (first_byte z) q,
      ));
  not_below = λ x y e.
      le_difference (first_byte y) (first_byte x) (not_negative_le (first_byte x) (first_byte y) e);
  above = λ x y e.
      le_difference (first_byte y) (first_byte x) (positive_le (first_byte x) (first_byte y) e);
}

update_all-IsBetween_example :
    All
      (IsBetween macros int4_column by_first_byte (
        update_all macros int4_column (some by_first_byte) (nine ∷ seven ∷ []) (empty_node macros)))
      (nine ∷ seven ∷ [])
update_all-IsBetween_example =
    update_all-IsBetween macros int4_column by_first_byte by_first_byte-IsOrder (nine ∷ seven ∷ [])
      (empty_node macros) (nine-IsSized, (seven-IsSized, tt))
