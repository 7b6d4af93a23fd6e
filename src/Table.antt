-- ===== src/Table.antt =====
-- The files of a table: the writer's and the reader's operations on the table file and on the
-- footer file (cstore_writer.c: `CStoreBeginWrite` to `CStoreWriteFooter`, `WriteToFile`,
-- `SyncAndCloseFile`; cstore_reader.c: `CStoreBeginRead` to `CStoreReadNextRow`).
pub mod Io
pub mod ReadFooter
pub mod WriteFooter
pub mod Write
pub mod Stripes
pub mod Listed
pub mod Growing
pub mod Keeps
pub mod Ends
pub mod Guarded
pub mod Steps
pub mod Finish
pub mod Begin
pub mod Atomic
pub mod New
pub mod FooterFile
pub mod Commit
pub mod Append
pub mod Flushed
pub mod Read
pub mod Scan
