-- ===== src/Rows/Limited.antt =====
-- All values of a block lie between its limits.
use mathlib.Core.Bool.{false≢true}
use postgres_vectorization_t.Datums.{datum_copy}
use postgres_vectorization_t.Datums.RoundTrip.{datum_copy_lem}
use postgres_vectorization_t.Prelude.{
  All, Bool-cases, List, [], false, inl, inr, refl, some, true, ◌∷◌, ◌≡◌,
}
use postgres_vectorization_t.Prelude.Int.{negsuc, pos, ℤ}
use postgres_vectorization_t.Rows.Limits.{
  higher, is_negative, is_positive, lower, update_all, update_block_skip_node_min_max,
}
use postgres_vectorization_t.Tupmacs.{Tupmacs}
use postgres_vectorization_t.Types.{Attribute, ColumnBlockSkipNode}

module _ (T : Tupmacs) (a : Attribute) (compare_datums : T.Datum → T.Datum → ℤ) where
  open T use {Datum, IsValueOf}

  -- A value is at most another.
  abbrev pub AtMost : Datum → Datum → Type 0
  AtMost x y = is_positive (compare_datums x y) ≡ false

  -- What PostgreSQL asks of a comparison function.
  pub record IsOrder : Type 0 where
    pub same : (x : Datum) → AtMost x x
    pub chain : (x y z : Datum) → AtMost x y → AtMost y z → AtMost x z
    pub not_below : (x y : Datum) → is_negative (compare_datums x y) ≡ false → AtMost y x
    pub above : (x y : Datum) → is_positive (compare_datums x y) ≡ true → AtMost y x

  -- A value lies between the limits of a node.
  pub record IsBetween (node : ColumnBlockSkipNode Datum) (value : Datum) : Type 0 where
    pub limited : node.has_min_max ≡ true
    pub low : AtMost node.minimum_value value
    pub high : AtMost value node.maximum_value

  module _ (order : IsOrder) where
    negative_AtMost : (x y : Datum) → is_negative (compare_datums x y) ≡ true → AtMost x y
    negative_AtMost x y e = by_sign (compare_datums x y) e
      where
        by_sign : (z : ℤ) → is_negative z ≡ true → is_positive z ≡ false
        by_sign (pos n) e = absurd (false≢true e)
        by_sign (negsuc n) e = refl

    lower_lem :
        (value previous : Datum)
        → datum_copy T a value ≡ value
        → AtMost (lower T a value previous (compare_datums value previous)) value
          × AtMost (lower T a value previous (compare_datums value previous)) previous
    lower_lem value previous copied =
        elim (Bool-cases (is_negative (compare_datums value previous))) [
          | inl e ↦
              (rw (e, copied) (order.same value), rw (e, copied) (negative_AtMost value previous e))
          | inr e ↦ (rw e (order.not_below value previous e), rw e (order.same previous))
        ]

    higher_lem :
        (value previous : Datum)
        → datum_copy T a value ≡ value
        → AtMost value (higher T a value previous (compare_datums value previous))
          × AtMost previous (higher T a value previous (compare_datums value previous))
    higher_lem value previous copied =
        elim (Bool-cases (is_positive (compare_datums value previous))) [
          | inl e ↦
              (rw (e, copied) (order.same value), rw (e, copied) (order.above value previous e))
          | inr e ↦ (rw e e, rw e (order.same previous))
        ]

    update_lem :
        (node : ColumnBlockSkipNode Datum) (value : Datum)
        → datum_copy T a value ≡ value
        → IsBetween (update_block_skip_node_min_max T a (some compare_datums) value node) value
    unfolding update_block_skip_node_min_max
    update_lem node value copied = elim (Bool-cases node.has_min_max) [
      | inl e ↦
          let low = (lower_lem value node.minimum_value copied).0 in
          let high = (higher_lem value node.maximum_value copied).0 in
          rw e (record { limited = refl; low = low; high = high })
      | inr e ↦
          rw (e, copied)
            (record { limited = refl; low = order.same value; high = order.same value })
    ]

    update_widens :
        (node : ColumnBlockSkipNode Datum) (value old : Datum)
        → datum_copy T a value ≡ value
        → IsBetween node old
        → IsBetween (update_block_skip_node_min_max T a (some compare_datums) value node) old
    unfolding update_block_skip_node_min_max
    update_widens node value old copied h =
        let low = (lower_lem value node.minimum_value copied).1 in
        let high = (higher_lem value node.maximum_value copied).1 in
        rw (h.limited) (record {
          limited = refl;
          low = order.chain _ _ _ low h.low;
          high = order.chain _ _ _ h.high high;
        })

    update_all_widens :
        (values : List Datum) (node : ColumnBlockSkipNode Datum) (old : Datum)
        → All (IsValueOf a) values
        → IsBetween node old
        → IsBetween (update_all T a (some compare_datums) values node) old
    update_all_widens [] node old valid h = h
    update_all_widens (value ∷ values) node old valid h =
        update_all_widens values _ old valid.1
          (update_widens node value old (datum_copy_lem T a value valid.0) h)

    -- For a comparison function that orders the values of the column's type: after a block's values
    -- have been taken into a skip node one after another, whatever limits the node had, every one of
    -- them lies between the minimum and the maximum of the node.
    pub update_all-IsBetween :
        (values : List Datum) (node : ColumnBlockSkipNode Datum)
        → All (IsValueOf a) values
        → All (IsBetween (update_all T a (some compare_datums) values node)) values
    update_all-IsBetween [] node valid = tt
    update_all-IsBetween (value ∷ values) node valid = (
      update_all_widens values _ value valid.1
          (update_lem node value (datum_copy_lem T a value valid.0)),
      update_all-IsBetween values _ valid.1,
    )
