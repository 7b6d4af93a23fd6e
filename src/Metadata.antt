-- ===== src/Metadata.antt =====
-- cstore_metadata_serialization.c: postscripts, footers and skip lists to and from protobuf
-- messages. The messages' own encoding (protobuf-c and the code that it generates from
-- cstore.proto) is the parameter of Metadata/Messages.antt.
pub mod Messages
pub mod Footers
pub mod SkipList
