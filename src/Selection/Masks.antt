-- ===== src/Selection/Masks.antt =====
-- The mask of projected columns marks exactly the projected columns.
use mathlib.Core.Bool.{false≢true}
use mathlib.Core.Path.{subst}
use postgres_vectorization_t.Prelude.{
  ==_iff, Bool, Bool-cases, List, [], ap, arith, false, get_elem?, get_elem?-replicate,
  get_elem?-set_ne, get_elem?-set_self, inl, inr, length, length-replicate, length-set, ltb, lt→ltb,
  refl, replicate, set, some, sym, true, uint32, ℕ, ◌+◌, ◌-◌, ◌<◌, ◌==◌, ◌^◌, ◌||◌, ◌∙◌, ◌∷◌, ◌≡◌,
  ◌≢◌,
}
use postgres_vectorization_t.Report.{ok}
use postgres_vectorization_t.Rows.Read.{projects}
use postgres_vectorization_t.Selection.{mark_columns, projected_column_mask}

or_true : (x : Bool) → (x || true) ≡ true
or_true true = refl
or_true false = refl

mark_columns_lem :
    (projected : List ℕ) (mask : List Bool) (n : ℕ)
    → length mask ≡ n
    → ((j : ℕ) → projects projected j ≡ true → j < n)
    → (out : List Bool) × (mark_columns projected mask ≡ ok out)
      × (length out ≡ n)
      × ((k : ℕ) (b : Bool)
          → get_elem? mask k ≡ some b
          → get_elem? out k ≡ some (projects projected k || b))
unfolding mark_columns
mark_columns_lem [] mask n size known = (mask, refl, size, λ k b e. e)
mark_columns_lem (varattno ∷ projected) mask n size known =
    let c = uint32 (varattno + 2 ^ 32 - 1) in
    let inside : c < n = known c (ground arith) in
    let test : ltb c (length mask) ≡ true = lt→ltb _ _ (omega (arith, size)) in
    let (out, runs, total, marks) =
      mark_columns_lem projected (set mask c true) n (length-set mask c true ∙ size)
        (λ j e. known j (ground (arith, e))) in
    (
      out,
      rw test runs,
      total,
      λ k b e. marked c projected mask out k b (omega (arith, size)) marks e,
    )
  where
    marked :
        (c : ℕ) (projected : List ℕ) (mask out : List Bool) (k : ℕ) (b : Bool)
        → c < length mask
        → ((k : ℕ) (b : Bool)
            → get_elem? (set mask c true) k ≡ some b
            → get_elem? out k ≡ some (projects projected k || b))
        → get_elem? mask k ≡ some b
        → get_elem? out k ≡ some ((c == k || projects projected k) || b)
    marked c projected mask out k b inside marks e = elim (Bool-cases (c == k)) [
      | inl same ↦
          let here : get_elem? (set mask c true) k ≡ some true =
            subst (λ i. get_elem? (set mask c true) i ≡ some true) ((==_iff c k).0 same)
              (get_elem?-set_self mask c true inside) in
          rw same (marks k true here ∙ ap some (or_true (projects projected k)))
      | inr other ↦
          let apart : c ≢ k = λ p. false≢true (sym other ∙ (==_iff c k).1 p) in
          rw other (marks k b (get_elem?-set_ne mask c k true apart ∙ e))
    ]

or_false : (x : Bool) → (x || false) ≡ x
or_false true = refl
or_false false = refl

-- The whole mask.
pub projected_column_mask_total :
    (column_count : ℕ) (projected : List ℕ)
    → ((j : ℕ) → projects projected j ≡ true → j < column_count)
    → (mask : List Bool) × (projected_column_mask column_count projected ≡ ok mask)
      × (length mask ≡ column_count)
      × ((k : ℕ) → k < column_count → get_elem? mask k ≡ some (projects projected k))
unfolding projected_column_mask
projected_column_mask_total column_count projected known =
    let (mask, runs, total, marks) =
      mark_columns_lem projected (replicate column_count false) column_count
        (length-replicate column_count false) known in
    (
      mask,
      runs,
      total,
      λ k h.
          marks k false (get_elem?-replicate column_count k false h)
          ∙ ap some (or_false (projects projected k)),
    )

-- For a column count and projected columns that all lie within it: the mask is built without
-- a write past its end, has one entry for each column, and the entry of column `k` says whether
-- `k` is projected.
pub projected_column_mask-projects :
    (column_count : ℕ) (projected : List ℕ) (k : ℕ)
    → ((j : ℕ) → projects projected j ≡ true → j < column_count)
    → k < column_count
    → (mask : List Bool) × (projected_column_mask column_count projected ≡ ok mask)
      × (length mask ≡ column_count)
      × (get_elem? mask k ≡ some (projects projected k))
projected_column_mask-projects column_count projected k known h =
    let (mask, runs, total, marks) = projected_column_mask_total column_count projected known in
    (mask, runs, total, marks k h)
