-- ===== src/Lib.antt =====
-- cstore_fdw with vectorized aggregates: a PostgreSQL foreign data wrapper that stores a table by
-- column, in stripes of blocks of rows, and computes aggregates over whole column blocks.
--
-- The program and the files that model it:
--   * Rows are collected in memory per stripe (cstore_writer.c: `CreateEmptyStripeData`,
--     `CreateEmptyStripeSkipList`, `CStoreWriteRow` up to its flush,
--     `UpdateBlockSkipNodeMinMax`; cstore_reader.c: `ReadStripeNextRow`): Rows. A stripe has one
--     array of blocks and one array of skip nodes per column, and row `i` lies at index
--     `i % blockRowCount` of block `i / blockRowCount`.
--   * A block becomes two buffers: the exists flags, packed to bits (`SerializeBoolArray`,
--     `DeserializeBoolArray`): Bools; and the present values, each aligned (`SerializeDatumArray`,
--     `DeserializeDatumArray`, `DatumCopy`): Datums. The value buffer is compressed or encrypted
--     (the middle of `FlushStripe`; `DecompressBuffer`): Compression.
--   * The buffers of a stripe are placed one behind the other, between its skip lists and its
--     footer, and found again by the metadata and the offsets in the skip nodes (`FlushStripe` and
--     the functions that it calls; `LoadFilteredStripeData` and the functions that it calls):
--     Stripe, with the whole of `FlushStripe` in Stripe/Sections and the loading in Stripe/Scan.
--   * The table file and the footer file are written by `CStoreBeginWrite`, `CStoreWriteRow`,
--     `CStoreEndWrite` and `CStoreWriteFooter`, and read by `CStoreReadFooter`, `CStoreBeginRead`
--     and `CStoreReadNextRow`: Table. A call of the writer is a function of the files and of the
--     outcomes of the calls of the operating system to come (Table/Io), so that a theorem over all
--     of them covers every failure. Table/Stripes says which stripes a load makes of its rows.
--   * Skip lists, stripe footers, the table footer and the postscript are protobuf messages
--     (cstore_metadata_serialization.c, cstore.proto): Metadata, with the messages in
--     Metadata/Messages, the footers in Metadata/Footers and the skip lists in Metadata/SkipList.
--   * A scan projects columns and selects blocks (cstore_reader.c: `ProjectedColumnMask`,
--     `SelectedBlockMask`, `SelectedBlockSkipList`, `StripeSkipListRowCount`): Selection.
--   * The transition functions of the aggregates take a column's blocks
--     (vectorized_transition_functions.c): Aggregates.
--   * The options of a table (cstore_fdw.c: `ParseCompressionType`,
--     `ValidateForeignTableOptions`, `CStoreGetOptions`, `cstore_fdw_validator`): Options.
--   * The columns that a query needs, the pages of a file and the sample for `ANALYZE`
--     (cstore_fdw.c: `ColumnList`, `PageCount`, `CStoreAcquireSampleRows`): Planning.
--   * The structs and enumerations (cstore_fdw.h): Types. Errors as values: Report.
--
-- Conventions. A buffer is the list of its bytes. A C array is a list; an access past its end is
-- the error `out_of_bounds`, so a result `ok` means that there was none. A pointer that may be null
-- is an `Option`. A `uint32` that is computed is reduced by `uint32`; where the code adds `uint64`
-- or `int` lengths of buffers the sum is not reduced, since PostgreSQL limits a buffer to 1 GB.
-- Sums of `int64` wrap (`add64`). Loops are structural recursion over the array or over the
-- number of rounds left, so no fuel is needed.
--
-- Parameters, each a record of functions with their documented laws: the macros of
-- access/tupmacs.h and postgres.h (Tupmacs), protobuf-c (Metadata/Messages), pg_lzcompress, LZ4 and
-- the enclave (Compression/External), numeric and floating point arithmetic (Aggregates/Types), the
-- planner's refutation of a query (Selection), `list_union` (Planning), Vitter's algorithm
-- (Planning/Sample) and `pg_atoi` (Options). Tests has concrete functions for all of them,
-- and the theorems at concrete inputs.
--
-- Not modelled: the executor of vectorized_aggregates.c, and the callbacks, DDL and directories of
-- cstore_fdw.c, which are calls of PostgreSQL and of the operating system; how the planner refutes
-- a query (a parameter of Selection); the comparison functions that `CStoreBeginWrite` looks up,
-- which no code uses; assertions, such as the one at the start of `DecompressBuffer`; what the
-- operating system keeps of a file that was not synced; and the failure of a memory allocation,
-- or of a seek or a read by the operating system in the reader (a file that is too short for a read
-- is an error).
pub mod Prelude
pub mod Report
pub mod Types
pub mod Tupmacs
pub mod Bools
pub mod Datums
pub mod Metadata
pub mod Compression
pub mod Rows
pub mod Aggregates
pub mod Stripe
pub mod Options
pub mod Selection
pub mod Table
pub mod Planning
pub mod Tests
