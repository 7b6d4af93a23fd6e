-- ===== src/Rows/Limits.antt =====
-- The minimum and the maximum of a block (`UpdateBlockSkipNodeMinMax` of cstore_writer.c, whose
-- call in `CStoreWriteRow` is commented out).
use postgres_vectorization_t.Datums.{datum_copy}
use postgres_vectorization_t.Prelude.{
  Bool, List, Option, [], false, if◌then◌else◌, none, some, suc, true, zero, ◌∷◌,
}
use postgres_vectorization_t.Prelude.Int.{negsuc, pos, ℤ}
use postgres_vectorization_t.Tupmacs.{Tupmacs}
use postgres_vectorization_t.Types.{Attribute, ColumnBlockSkipNode}

abbrev pub is_negative : ℤ → Bool
is_negative (pos n) = false
is_negative (negsuc n) = true

abbrev pub is_positive : ℤ → Bool
is_positive (pos zero) = false
is_positive (pos (suc n)) = true
is_positive (negsuc n) = false

module _ (T : Tupmacs) (a : Attribute) where
  open T use {Datum, IsValueOf}

  -- The new limits, by the comparison of the value with the old minimum and with the old maximum.
  abbrev pub lower : Datum → Datum → ℤ → Datum
  lower value previous_minimum comparison =
      if is_negative comparison then datum_copy T a value else previous_minimum

  abbrev pub higher : Datum → Datum → ℤ → Datum
  higher value previous_maximum comparison =
      if is_positive comparison then datum_copy T a value else previous_maximum

  abbrev pub limits_with :
      (Datum → Datum → ℤ) → Datum → ColumnBlockSkipNode Datum → Bool → ColumnBlockSkipNode Datum
  limits_with compare_datums value node false = record node {
    has_min_max = true;
    minimum_value = datum_copy T a value;
    maximum_value = datum_copy T a value;
  }
  limits_with compare_datums value node true = record node {
    has_min_max = true;
    minimum_value = lower value node.minimum_value (compare_datums value node.minimum_value);
    maximum_value = higher value node.maximum_value (compare_datums value node.maximum_value);
  }

  -- `UpdateBlockSkipNodeMinMax`, with the type's comparison function under the column's collation,
  -- if there is one.
  unfoldable pub update_block_skip_node_min_max :
      Option (Datum → Datum → ℤ) → Datum → ColumnBlockSkipNode Datum → ColumnBlockSkipNode Datum
  update_block_skip_node_min_max none value node = node
  update_block_skip_node_min_max (some compare_datums) value node =
      limits_with compare_datums value node node.has_min_max

  -- The values of a block, one after another.
  abbrev pub update_all :
      Option (Datum → Datum → ℤ)
      → List Datum
      → ColumnBlockSkipNode Datum
      → ColumnBlockSkipNode Datum
  update_all comparison [] node = node
  update_all comparison (value ∷ values) node =
      update_all comparison values (update_block_skip_node_min_max comparison value node)
