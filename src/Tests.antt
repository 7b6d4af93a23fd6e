-- ===== src/Tests.antt =====
-- Instances of the parameters, and the theorems at concrete inputs.
pub mod Instances
pub mod Codecs
pub mod Storage
pub mod Columns
pub mod Pair
pub mod Aggregates
pub mod Stripes
pub mod Tables
pub mod Plans
