-- ===== src/Stripe/Filtered.antt =====
-- A stripe's columns are loaded from its data section.
use mathlib.Core.Path.{subst}
use postgres_vectorization_t.Compression.External.{Libraries}
use postgres_vectorization_t.Prelude.{
  Bool, Bool-cases, Bytes, List, Option, [], ap, append_assoc, arith, concat, concat-append, false,
  inl, inr, kept, length, length-append, map, none, refl, some, sym, take, true, ℕ, ◌++◌, ◌+◌, ◌∙◌,
  ◌∷◌, ◌≡◌,
}
use postgres_vectorization_t.Report.{ok}
use postgres_vectorization_t.Selection.Kept.{length-kept, marked}
use postgres_vectorization_t.Stripe.Blocks.{read_blocks}
use postgres_vectorization_t.Stripe.Columns.{
  AreStoredColumns, column_sizes, none_stored_columns, one_stored_columns,
}
use postgres_vectorization_t.Stripe.Flush.{place_nodes, value_bytes}
use postgres_vectorization_t.Stripe.Load.{load_column_data}
use postgres_vectorization_t.Stripe.Loadable.{kept-AreLoadable, load_column_data_lem}
use postgres_vectorization_t.Stripe.Scan.{load_columns}
use postgres_vectorization_t.Stripe.Sections.{data_writes, place_columns}
use postgres_vectorization_t.Stripe.Stored.{length-placed, stored-AreLoadable}
use postgres_vectorization_t.Tupmacs.{Tupmacs}
use postgres_vectorization_t.Types.{Attribute, ColumnBlockSkipNode, ColumnData, CompressionType}

module _ (T : Tupmacs) where
  open T use {Datum}

  -- The columns that are loaded: the selected blocks of those that the column mask marks, the
  -- others null.
  abbrev pub loaded_columns :
      List Bool
      → ℕ
      → List Bool
      → List (Option (ColumnData Datum))
      → List (List (ColumnBlockSkipNode Datum))
      → List (Option (ColumnData Datum))
  loaded_columns mask k (true ∷ marks) (some column ∷ columns) (ns ∷ nodes) =
      some (record { block_data_array = kept mask (read_blocks T k column.block_data_array ns) })
      ∷ loaded_columns mask k marks columns nodes
  loaded_columns mask k (false ∷ marks) (some column ∷ columns) (ns ∷ nodes) =
      none ∷ loaded_columns mask k marks columns nodes
  loaded_columns mask k _ _ _ = []

  module _ (L : Libraries) (t : CompressionType) where
    value_bytes-concat :
        (vs : List (Bytes × CompressionType))
        → concat (map (λ (v : Bytes × CompressionType). v.0) vs) ≡ value_bytes T vs
    value_bytes-concat [] = refl
    value_bytes-concat ((value, kind) ∷ vs) = ap (λ b. value ++ b) (value_bytes-concat vs)

    -- The data section, column by column.
    pub concat-data_writes :
        (es : List Bytes) (vs : List (Bytes × CompressionType)) (exists : List (List Bytes))
        (values : List (List (Bytes × CompressionType)))
        → concat (data_writes T (es ∷ exists) (vs ∷ values))
          ≡ concat es ++ (value_bytes T vs ++ concat (data_writes T exists values))
    unfolding data_writes
    concat-data_writes es vs exists values =
        concat-append es _
        ∙ ap (λ b. concat es ++ b)
            (concat-append (map (λ (v : Bytes × CompressionType). v.0) vs) _
              ∙ ap (λ b. b ++ concat (data_writes T exists values)) (value_bytes-concat vs))

    pub load_columns_lem :
        {k : ℕ} (file pre post : Bytes) (offset : ℕ) (mask marks : List Bool)
        {attrs : List Attribute} {columns : List (Option (ColumnData Datum))}
        {nodes : List (List (ColumnBlockSkipNode Datum))} {exists raw : List (List Bytes)}
        {values : List (List (Bytes × CompressionType))}
        → AreStoredColumns T L t k attrs columns nodes exists raw values
        → length mask ≡ k
        → length marks ≡ length attrs
        → file ≡ pre ++ (concat (data_writes T exists values) ++ post)
        → offset ≡ length pre
        → load_columns T L file
            (marked mask)
            marks
            (map (kept mask) (map (take k) (place_columns T nodes exists values)))
            (map (λ (s : ℕ × ℕ). s.0) (column_sizes T L t exists values))
            (map (λ (s : ℕ × ℕ). s.1) (column_sizes T L t exists values))
            attrs
            offset
          ≡ ok (loaded_columns mask k marks columns nodes)
    unfolding load_columns place_columns
    load_columns_lem file pre post offset mask [] none_stored_columns size width same at = refl
    load_columns_lem file pre post offset mask (mark ∷ marks) none_stored_columns size width same
          at =
        absurd (omega (arith, width))
    load_columns_lem file pre post offset mask [] (one_stored_columns stored limits others) size
          width same at =
        absurd (omega (arith, width))
    load_columns_lem {k} file pre post offset mask (mark ∷ marks)
          (one_stored_columns {a = a} {column = column} {ns = ns} {es = es} {vs = vs}
            {exists = exists} {values = values} stored limits others)
          size width same at =
        let rest = concat (data_writes T exists values) ++ post in
        let split : concat (data_writes T (es ∷ exists) (vs ∷ values)) ++ post
            ≡ concat es ++ (value_bytes T vs ++ rest) =
          ap (λ b. b ++ post) (concat-data_writes es vs exists values)
          ∙ append_assoc (concat es) _ post
          ∙ ap (λ b. concat es ++ b) (append_assoc (value_bytes T vs) _ post) in
        let here : file ≡ pre ++ (concat es ++ (value_bytes T vs ++ rest)) =
          same ∙ ap (λ b. pre ++ b) split in
        let there : file ≡ (pre ++ concat es) ++ (value_bytes T vs ++ rest) =
          here ∙ sym (append_assoc pre (concat es) (value_bytes T vs ++ rest)) in
        let behind : file ≡ ((pre ++ concat es) ++ value_bytes T vs) ++ rest =
          there ∙ sym (append_assoc (pre ++ concat es) (value_bytes T vs) rest) in
        let placed = take k (place_nodes T 0 0 ns es vs) in
        let total : length placed ≡ k = length-placed T L t a 0 0 stored in
        let loadable = kept-AreLoadable T L a mask (
          stored-AreLoadable T L t a file offset (offset + length (concat es)) 0 0 pre
            (value_bytes T vs ++ rest) (pre ++ concat es) rest stored here (omega (arith, at)) there
            (omega (arith, at, length-append pre (concat es)))) in
        let count : length (kept mask placed) ≡ marked mask =
          length-kept mask placed (total ∙ sym size) in
        let loaded : load_column_data T L file (kept mask placed) (marked mask) offset
              (offset + length (concat es)) a
            ≡ ok (record {
              block_data_array = kept mask (read_blocks T k column.block_data_array ns);
            }) =
          subst
            (λ n.
              load_column_data T L file (kept mask placed) n offset (offset + length (concat es)) a
              ≡ ok (record {
                block_data_array = kept mask (read_blocks T k column.block_data_array ns);
              }))
            count (load_column_data_lem T L a loadable) in
        let next =
          load_columns_lem file ((pre ++ concat es) ++ value_bytes T vs) post
            (offset + length (concat es) + length (value_bytes T vs)) mask marks others size
            (omega (arith, width)) behind
            (omega (
              arith,
              at,
              length-append (pre ++ concat es) (value_bytes T vs),
              length-append pre (concat es),
            )) in
        elim (Bool-cases mark) [ inl e ↦ simp e (simp (loaded, next)) | inr e ↦ simp e (simp next) ]
