-- ===== src/Tests/Tables.antt =====
-- The theorems on the files of a table at concrete inputs.
use postgres_vectorization_t.Bools.{deserialize_bool_array}
use postgres_vectorization_t.Compression.{decompress_buffer}
use postgres_vectorization_t.Datums.{deserialize_datum_array}
use postgres_vectorization_t.Metadata.Footers.{
  deserialize_stripe_footer, serialize_post_script, serialize_table_footer,
}
use postgres_vectorization_t.Metadata.Footers.RoundTrip.{IsTableFooter}
use postgres_vectorization_t.Metadata.SkipList.{
  deserialize_block_count, deserialize_column_skip_list, skip_node_of,
}
use postgres_vectorization_t.Prelude.{
  Bool, Bytes, List, [], arith, false, length, none, refl, replicate, some, take, true, ◌<◌, ◌^◌,
  ◌∷◌, ◌≡◌, ◌≤◌, ◌⊎◌,
}
use postgres_vectorization_t.Report.{Error, Result, err, ok}
use postgres_vectorization_t.Rows.{read_stripe_next_row}
use postgres_vectorization_t.Selection.{
  add_row_counts, mark_columns, projected_column_mask, selected_block_mask,
  selected_block_skip_list, selected_columns, selected_count, selected_nodes,
  stripe_skip_list_row_count,
}
use postgres_vectorization_t.Stripe.Load.{load_column_data, read_from_file}
use postgres_vectorization_t.Stripe.Scan.{
  load_columns, load_filtered_stripe_data, load_skip_lists, load_stripe_footer,
  load_stripe_skip_list,
}
use postgres_vectorization_t.Table.Atomic.{IsCommitted, write_table_atomic}
use postgres_vectorization_t.Table.Commit.{cstore_end_write_commits}
use postgres_vectorization_t.Table.Finish.{footer_bytes}
use postgres_vectorization_t.Table.FooterFile.{cstore_read_footer-footer_bytes}
use postgres_vectorization_t.Table.Io.{World, call_fails, call_succeeds}
use postgres_vectorization_t.Table.New.{empty_footer, write_table_new}
use postgres_vectorization_t.Table.Read.{TableReadState, cstore_begin_read}
use postgres_vectorization_t.Table.ReadFooter.{cstore_read_footer}
use postgres_vectorization_t.Table.Scan.{Scans, cstore_read_next_row-Scans, stripe_rows, table_rows}
use postgres_vectorization_t.Table.Write.{
  TableWriteState, cstore_end_write, end_of_stripes, write_table,
}
use postgres_vectorization_t.Tests.Codecs.{codecs, list_of, unpack_nodes}
use postgres_vectorization_t.Tests.Instances.{copiers, int4_column, macros, seven}
use postgres_vectorization_t.Tests.Storage.{small_footer, small_footer-IsTableFooter}
use postgres_vectorization_t.Tests.Stripes.{no_planner}
use postgres_vectorization_t.Types.{TableFooter, compression_none}

packed_short : length (serialize_table_footer codecs small_footer) < 2 ^ 32
unfolding serialize_table_footer
packed_short = omega arith

script_short :
    length (serialize_post_script codecs (length (serialize_table_footer codecs small_footer)))
    < 256
unfolding serialize_table_footer serialize_post_script
script_short = omega arith

old_stripes_there : end_of_stripes small_footer.stripe_metadata_list ≤ 120
unfolding end_of_stripes
old_stripes_there = omega arith

cstore_read_footer-footer_bytes_example :
    cstore_read_footer codecs (footer_bytes codecs small_footer) ≡ ok small_footer
cstore_read_footer-footer_bytes_example =
    cstore_read_footer-footer_bytes codecs small_footer small_footer-IsTableFooter packed_short
      script_short

-- The table that the footer describes, with a load whose second call fails.
abbrev loaded_world : World
loaded_world = record {
  table_file = replicate 120 0;
  position = 0;
  footer_file = some (footer_bytes codecs small_footer);
  temp_footer_file = [];
  outcomes = call_succeeds ∷ call_succeeds ∷ call_fails 0 ∷ [];
}

write_table_atomic_example :
    (outcome : Result (Unit {0})) × (after : World) × (write_table macros codecs copiers
        compression_none 4 1000
        (int4_column ∷ [])
        ((seven ∷ [], false ∷ []) ∷ [])
        loaded_world
      ≡ (outcome, after))
    × (take (end_of_stripes small_footer.stripe_metadata_list) after.table_file
        ≡ take (end_of_stripes small_footer.stripe_metadata_list) (replicate 120 0))
    × (((outcome ≡ ok tt)
          × IsCommitted macros codecs copiers compression_none 4
              (int4_column ∷ [])
              small_footer
              (take (end_of_stripes small_footer.stripe_metadata_list) (replicate 120 0))
              ((seven ∷ [], false ∷ []) ∷ [])
              after)
        ⊎ ((e : Error) × (outcome ≡ err e)
            × (after.footer_file ≡ some (footer_bytes codecs small_footer))))
write_table_atomic_example =
    write_table_atomic macros codecs copiers compression_none 4 1000 (int4_column ∷ [])
      ((seven ∷ [], false ∷ []) ∷ []) loaded_world (footer_bytes codecs small_footer) small_footer
      refl cstore_read_footer-footer_bytes_example old_stripes_there refl

-- Before the first load, with a stray table file, and no call that fails.
abbrev new_world : World
new_world = record {
  table_file = 1 ∷ 2 ∷ [];
  position = 0;
  footer_file = none;
  temp_footer_file = [];
  outcomes = [];
}

write_table_new_example :
    (outcome : Result (Unit {0})) × (after : World) × (write_table macros codecs copiers
        compression_none 4 1000
        (int4_column ∷ [])
        ((seven ∷ [], false ∷ []) ∷ [])
        new_world
      ≡ (outcome, after))
    × (((outcome ≡ ok tt)
          × IsCommitted macros codecs copiers compression_none 4
              (int4_column ∷ [])
              (empty_footer 1000)
              []
              ((seven ∷ [], false ∷ []) ∷ [])
              after)
        ⊎ ((e : Error) × (outcome ≡ err e) × (after.footer_file ≡ none)))
write_table_new_example =
    write_table_new macros codecs copiers compression_none 4 1000 (int4_column ∷ [])
      ((seven ∷ [], false ∷ []) ∷ []) new_world refl

-- A table file of one stripe with one column, and its footer.
abbrev pair_file : Bytes
pair_file = 1 ∷ 3 ∷ 1 ∷ 5 ∷ 1 ∷ 1 ∷ 2 ∷ 0 ∷ 0 ∷ 1 ∷ 7 ∷ 0 ∷ 0 ∷ 0 ∷ 10 ∷ 0 ∷ 2 ∷ 0 ∷ 5 ∷ 0 ∷ []

abbrev pair_footer : TableFooter
pair_footer = record {
  stripe_metadata_list =
      record { file_offset = 0; skip_list_length = 9; data_length = 5; footer_length = 6 } ∷ [];
  block_row_count = 1000;
}

abbrev pair_rows : List (List Bytes × List Bool)
pair_rows = (seven ∷ [], false ∷ []) ∷ ([] ∷ [], true ∷ []) ∷ []

pair_rows_found :
    table_rows macros copiers codecs no_planner
      ([] ∷ [])
      pair_file
      (int4_column ∷ [])
      (1 ∷ [])
      1000
      pair_footer.stripe_metadata_list
    ≡ ok pair_rows
unfolding table_rows stripe_rows load_filtered_stripe_data load_stripe_footer load_stripe_skip_list
    load_skip_lists load_columns read_from_file deserialize_stripe_footer deserialize_block_count
    deserialize_column_skip_list projected_column_mask selected_block_mask selected_block_skip_list
    stripe_skip_list_row_count load_column_data read_stripe_next_row list_of unpack_nodes
    skip_node_of mark_columns selected_count selected_columns selected_nodes deserialize_bool_array
    decompress_buffer deserialize_datum_array add_row_counts
pair_rows_found = refl

pair_footer-IsTableFooter : IsTableFooter pair_footer
pair_footer-IsTableFooter = record {
  stripes = (
    record {
      file_offset_small = omega arith;
      skip_list_length_small = omega arith;
      data_length_small = omega arith;
      footer_length_small = omega arith;
    },
    tt,
  );
  at_least = omega arith;
  at_most = omega arith;
}

pair_packed_short : length (serialize_table_footer codecs pair_footer) < 2 ^ 32
unfolding serialize_table_footer
pair_packed_short = omega arith

pair_script_short :
    length (serialize_post_script codecs (length (serialize_table_footer codecs pair_footer))) < 256
unfolding serialize_table_footer serialize_post_script
pair_script_short = omega arith

cstore_read_next_row-Scans_example :
    (state : TableReadState macros) × (cstore_begin_read macros copiers codecs no_planner pair_file
        (some (footer_bytes codecs pair_footer))
        (int4_column ∷ [])
        (1 ∷ [])
      ≡ ok state)
    × Scans macros copiers codecs no_planner ([] ∷ []) state pair_rows
cstore_read_next_row-Scans_example =
    cstore_read_next_row-Scans macros copiers codecs no_planner ([] ∷ []) pair_file
      (footer_bytes codecs pair_footer) pair_footer (int4_column ∷ []) (1 ∷ []) pair_rows
      (cstore_read_footer-footer_bytes codecs pair_footer pair_footer-IsTableFooter
        pair_packed_short pair_script_short)
      (omega arith) pair_rows_found

abbrev finished_state : TableWriteState macros
finished_state = record {
  table_footer = pair_footer;
  compression_type = compression_none;
  stripe_max_row_count = 2;
  tuple_descriptor = int4_column ∷ [];
  current_file_offset = 20;
  stripe_data = none;
  stripe_skip_list = none;
}

abbrev quiet_world : World
quiet_world = record {
  table_file = pair_file;
  position = 20;
  footer_file = none;
  temp_footer_file = 1 ∷ [];
  outcomes = [];
}

cstore_end_write_commits_example :
    (after : World) × (b : Bytes) × (cstore_end_write macros codecs copiers finished_state
        quiet_world
      ≡ (ok tt, after))
    × (after.table_file ≡ pair_file)
    × (after.footer_file ≡ some b)
    × (cstore_read_footer codecs b ≡ ok pair_footer)
cstore_end_write_commits_example =
    cstore_end_write_commits pair_file codecs macros copiers finished_state quiet_world refl refl
      refl pair_footer-IsTableFooter pair_packed_short pair_script_short
