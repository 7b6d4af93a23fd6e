-- ===== src/Table/Scan.antt =====
-- A scan returns the rows of the stripes in their order, and then ends.
use mathlib.Core.Bool.{false≢true}
use mathlib.Core.Path.{subst}
use postgres_vectorization_t.Compression.External.{Libraries}
use postgres_vectorization_t.Metadata.Messages.{Protobuf}
use postgres_vectorization_t.Prelude.{
  ==_iff, Bool-cases, Bytes, List, Option, [], ap, arith, drop, false, inl, inr, ltb, lt→ltb, none,
  refl, some, suc, sym, true, zero, ℕ, ◌%◌, ◌++◌, ◌+◌, ◌/◌, ◌<◌, ◌==◌, ◌∙◌, ◌∷◌, ◌≡◌, ◌≢◌,
}
use postgres_vectorization_t.Report.{>>=-eq-ok, Result, ok, ok_injective, ◌>>=◌}
use postgres_vectorization_t.Rows.{read_stripe_next_row}
use postgres_vectorization_t.Selection.{Planner}
use postgres_vectorization_t.Stripe.Scan.{load_filtered_stripe_data}
use postgres_vectorization_t.Table.Read.{
  Row, TableReadState, cstore_begin_read, cstore_read_next_row, load_next_stripe, unfinished,
}
use postgres_vectorization_t.Table.ReadFooter.{cstore_read_footer}
use postgres_vectorization_t.Tupmacs.{Tupmacs}
use postgres_vectorization_t.Types.{Attribute, StripeData, StripeMetadata, TableFooter}

module _ (T : Tupmacs) (L : Libraries) (protobuf : Protobuf) (planner : Planner T.Datum)
    (values : List T.Datum) where
  open T use {Datum}

  -- A scan: `CStoreReadNextRow` is called with the same values in the caller's array, as
  -- `CStoreIterateForeignScan` does, until it finds no row.
  pub data Scans : TableReadState T → List (Row T) → Type 0 where
    scan_ends :
        {state after : TableReadState T}
        → cstore_read_next_row T L protobuf planner state values ≡ ok (none, after)
        → Scans state []
    scan_row :
        {state after : TableReadState T} {row : Row T} {rows : List (Row T)}
        → cstore_read_next_row T L protobuf planner state values ≡ ok (some row, after)
        → Scans after rows
        → Scans state (row ∷ rows)

  -- What a scan should return: rows `i` to `i + n` of a stripe in memory, each by its block and
  -- index, and the rows of all the stripes of a footer.
  unfoldable pub stripe_rows : StripeData Datum → List ℕ → ℕ → ℕ → ℕ → Result (List (Row T))
  stripe_rows stripe_data projected size i zero = ok []
  stripe_rows stripe_data projected size i (suc n) = do
    let rest = stripe_rows stripe_data projected size (i + 1) n
    row ← read_stripe_next_row T stripe_data projected (i / size) (i % size) values
    rows ← rest
    ok (row ∷ rows)

  unfoldable pub table_rows :
      Bytes → List Attribute → List ℕ → ℕ → List StripeMetadata → Result (List (Row T))
  table_rows file attrs projected size [] = ok []
  table_rows file attrs projected size (m ∷ stripes) = do
    let rest = table_rows file attrs projected size stripes
    stripe_data ← load_filtered_stripe_data T L protobuf planner file m attrs projected
    rows ← stripe_rows stripe_data projected size 0 stripe_data.row_count
    others ← rest
    ok (rows ++ others)

  same_step :
      {state other : TableReadState T} {rows : List (Row T)}
      → cstore_read_next_row T L protobuf planner state values
        ≡ cstore_read_next_row T L protobuf planner other values
      → Scans other rows
      → Scans state rows
  same_step e (scan_ends ended) = scan_ends (e ∙ ended)
  same_step e (scan_row read rest) = scan_row (e ∙ read) rest

  module _ (base : TableReadState T) where
    -- The state at a place of the scan.
    abbrev at_place : Option (StripeData Datum) → ℕ → ℕ → TableReadState T
    at_place stripe_data count i = record base {
      stripe_data = stripe_data;
      read_stripe_count = count;
      stripe_read_row_count = i;
    }

    scan_one :
        (stripe_data : StripeData Datum) (count i : ℕ) {row : Row T} {rows : List (Row T)}
        → 0 < base.table_footer.block_row_count
        → read_stripe_next_row T stripe_data base.projected_column_list
            (i / base.table_footer.block_row_count)
            (i % base.table_footer.block_row_count)
            values
          ≡ ok row
        → Scans (at_place (unfinished T L protobuf planner stripe_data (i + 1)) count (i + 1)) rows
        → Scans (at_place (some stripe_data) count i) (row ∷ rows)
    unfolding cstore_read_next_row
    scan_one stripe_data count i positive read rest =
        let divisor : ltb 0 base.table_footer.block_row_count ≡ true = lt→ltb _ _ positive in
        scan_row (simp divisor (simp read refl)) rest

    scan_stripe :
        (stripe_data : StripeData Datum) (count i n : ℕ) {rows others : List (Row T)}
        → 0 < base.table_footer.block_row_count
        → i + suc n ≡ stripe_data.row_count
        → stripe_rows stripe_data base.projected_column_list base.table_footer.block_row_count i
            (suc n)
          ≡ ok rows
        → ((i : ℕ) → Scans (at_place none count i) others)
        → Scans (at_place (some stripe_data) count i) (rows ++ others)
    unfolding stripe_rows
    scan_stripe stripe_data count i zero {rows} {others} positive total e rest =
        let size = base.table_footer.block_row_count in
        let (row, read, made) =
          >>=-eq-ok
            (read_stripe_next_row T stripe_data base.projected_column_list (i / size) (i % size)
              values)
            _ e in
        let last : (i + 1 == stripe_data.row_count) ≡ true =
          (==_iff _ _).1 (omega (arith, total)) in
        subst (λ r. Scans (at_place (some stripe_data) count i) (r ++ others)) (ok_injective made)
          (scan_one stripe_data count i positive read (rw last (rest (i + 1))))
    scan_stripe stripe_data count i (suc n) {rows} {others} positive total e rest =
        let size = base.table_footer.block_row_count in
        let projected = base.projected_column_list in
        let (row, read, then_more) =
          >>=-eq-ok (read_stripe_next_row T stripe_data projected (i / size) (i % size) values) _
            e in
        let (more, continues, made) =
          >>=-eq-ok (stripe_rows stripe_data projected size (i + 1) (suc n)) _ then_more in
        let further : (i + 1 == stripe_data.row_count) ≡ false = ground (arith, total) in
        subst (λ r. Scans (at_place (some stripe_data) count i) (r ++ others)) (ok_injective made)
          (scan_one stripe_data count i positive read (
            rw further (
              scan_stripe stripe_data count (i + 1) n positive (omega (arith, total)) continues
                rest)))

    no_rows :
        (stripe_data : StripeData Datum) (n : ℕ) {rows : List (Row T)}
        → n ≡ 0
        → stripe_rows stripe_data base.projected_column_list base.table_footer.block_row_count 0 n
          ≡ ok rows
        → rows ≡ []
    unfolding stripe_rows
    no_rows stripe_data zero empty e = sym (ok_injective e)
    no_rows stripe_data (suc n) empty e = absurd (omega (arith, empty))

    scan_whole :
        (stripe_data : StripeData Datum) (count n : ℕ) {rows others : List (Row T)}
        → 0 < base.table_footer.block_row_count
        → n ≡ stripe_data.row_count
        → n ≢ 0
        → stripe_rows stripe_data base.projected_column_list base.table_footer.block_row_count 0 n
          ≡ ok rows
        → ((i : ℕ) → Scans (at_place none count i) others)
        → Scans (at_place (some stripe_data) count 0) (rows ++ others)
    scan_whole stripe_data count zero positive total nonempty e rest = absurd (nonempty refl)
    scan_whole stripe_data count (suc n) positive total nonempty e rest =
        scan_stripe stripe_data count 0 n positive (omega (arith, total)) e rest

    drop-suc :
        (c : ℕ) (xs : List StripeMetadata) {x : StripeMetadata} {rest : List StripeMetadata}
        → drop c xs ≡ x ∷ rest
        → drop (suc c) xs ≡ rest
    drop-suc zero [] e = cc
    drop-suc zero (x ∷ xs) e = cc
    drop-suc (suc c) [] e = cc
    drop-suc (suc c) (x ∷ xs) e = drop-suc c xs e

    scan_rest :
        (stripes : List StripeMetadata) (count i : ℕ) {rows : List (Row T)}
        → 0 < base.table_footer.block_row_count
        → drop count base.table_footer.stripe_metadata_list ≡ stripes
        → table_rows base.table_file base.tuple_descriptor base.projected_column_list
            base.table_footer.block_row_count stripes
          ≡ ok rows
        → Scans (at_place none count i) rows
    unfolding table_rows cstore_read_next_row load_next_stripe
    scan_rest [] count i positive left e =
        subst (Scans (at_place none count i)) (ok_injective e)
          (scan_ends {after = at_place none count i} (simp left))
    scan_rest (m ∷ stripes) count i positive left e =
        let size = base.table_footer.block_row_count in
        let projected = base.projected_column_list in
        let file = base.table_file in
        let attrs = base.tuple_descriptor in
        let (stripe_data, loaded, e1) =
          >>=-eq-ok (load_filtered_stripe_data T L protobuf planner file m attrs projected) _ e in
        let (rows, here, e2) =
          >>=-eq-ok (stripe_rows stripe_data projected size 0 stripe_data.row_count) _ e1 in
        let (others, there, made) = >>=-eq-ok (table_rows file attrs projected size stripes) _ e2 in
        let all = base.table_footer.stripe_metadata_list in
        let one_more : count + 1 ≡ suc count = omega arith in
        let next : drop (count + 1) all ≡ stripes =
          ap (λ c. drop c all) one_more ∙ drop-suc count all left in
        let rest = λ (i : ℕ). scan_rest stripes (count + 1) i positive next there in
        subst (Scans (at_place none count i)) (ok_injective made)
          (elim (Bool-cases (stripe_data.row_count == 0)) [
            | inl empty ↦
                let none_there =
                  no_rows stripe_data stripe_data.row_count ((==_iff _ _).0 empty) here in
                subst (λ r. Scans (at_place none count i) (r ++ others)) (sym none_there)
                  (same_step (simp left (simp loaded (simp empty (simp next)))) (rest i))
            | inr some_rows ↦
                same_step {other = at_place (some stripe_data) (count + 1) 0}
                  (simp left (simp loaded (simp some_rows refl)))
                  (scan_whole stripe_data (count + 1) stripe_data.row_count positive refl
                    (λ zero_rows. false≢true (sym some_rows ∙ (==_iff _ _).1 zero_rows)) here rest)
          ])

  -- For a table whose footer file can be read, and rows that can be read from the stripes in their
  -- order: `CStoreBeginRead` succeeds, and calling `CStoreReadNextRow` from its state returns
  -- exactly these rows, one by one, and then ends; stripes that have no rows left after the
  -- selection of blocks are passed over.
  pub cstore_read_next_row-Scans :
      (table_file footer_content : Bytes) (footer : TableFooter) (attrs : List Attribute)
      (projected : List ℕ) (rows : List (Row T))
      → cstore_read_footer protobuf footer_content ≡ ok footer
      → 0 < footer.block_row_count
      → table_rows table_file attrs projected footer.block_row_count footer.stripe_metadata_list
        ≡ ok rows
      → (state : TableReadState T) × (cstore_begin_read T L protobuf planner table_file
            (some footer_content)
            attrs
            projected
          ≡ ok state)
        × Scans state rows
  unfolding cstore_begin_read
  cstore_read_next_row-Scans table_file footer_content footer attrs projected rows read positive
        found =
      let state : TableReadState T = record {
        table_file = table_file;
        table_footer = footer;
        projected_column_list = projected;
        tuple_descriptor = attrs;
        stripe_data = none;
        read_stripe_count = 0;
        stripe_read_row_count = 0;
      } in
      (state, simp read refl, scan_rest state footer.stripe_metadata_list 0 0 positive refl found)
