-- ===== src/Stripe.antt =====
-- A stripe on disk: what `FlushStripe` of cstore_writer.c makes of it, column by column and as a
-- whole, with the skip lists, the footer and the metadata; and what `LoadFilteredStripeData` of
-- cstore_reader.c finds again, with `LoadStripeFooter`, `LoadStripeSkipList`, `LoadColumnData` and
-- `ReadFromFile`.
pub mod Flush
pub mod Load
pub mod Blocks
pub mod Stored
pub mod RoundTrip
pub mod Sections
pub mod Columns
pub mod SkipLists
pub mod Scan
pub mod Filtered
pub mod Loadable
pub mod Made
pub mod Whole
pub mod Found
pub mod Reload
