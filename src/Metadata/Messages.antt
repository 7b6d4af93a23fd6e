-- ===== src/Metadata/Messages.antt =====
-- The messages of cstore.proto, as protobuf-c unpacks them: an optional field is an `Option`, a
-- repeated field a list. How a message becomes bytes is protobuf-c's, and a parameter: for each
-- message a packing and an unpacking, with the documented law that a message whose fields fit
-- their declared widths is unpacked as it was packed.
use postgres_vectorization_t.Prelude.{All, Bytes, List, Option, none, some, ℕ, ◌<◌, ◌^◌, ◌≡◌}

pub record PostScriptMessage : Type 0 where
  pub table_footer_length : Option ℕ
  pub version_major : Option ℕ
  pub version_minor : Option ℕ
  pub magic_number : Option Bytes

pub record StripeMetadataMessage : Type 0 where
  pub file_offset : Option ℕ
  pub skip_list_length : Option ℕ
  pub data_length : Option ℕ
  pub footer_length : Option ℕ

pub record TableFooterMessage : Type 0 where
  pub stripe_metadata_array : List StripeMetadataMessage
  pub block_row_count : Option ℕ

pub record StripeFooterMessage : Type 0 where
  pub skip_list_size_array : List ℕ
  pub exists_size_array : List ℕ
  pub value_size_array : List ℕ

pub record SkipNodeMessage : Type 0 where
  pub row_count : Option ℕ
  pub minimum_value : Option Bytes
  pub maximum_value : Option Bytes
  pub value_block_offset : Option ℕ
  pub value_length : Option ℕ
  pub value_compression_type : Option ℕ
  pub exists_block_offset : Option ℕ
  pub exists_length : Option ℕ

-- A number that fits a field of so many values.
abbrev pub Fits : ℕ → Option ℕ → Type 0
Fits bound none = Unit
Fits bound (some n) = n < bound

pub record PostScriptFits (m : PostScriptMessage) : Type 0 where
  pub table_footer_length_fits : Fits (2 ^ 64) m.table_footer_length
  pub version_major_fits : Fits (2 ^ 64) m.version_major
  pub version_minor_fits : Fits (2 ^ 64) m.version_minor

pub record StripeMetadataFits (m : StripeMetadataMessage) : Type 0 where
  pub file_offset_fits : Fits (2 ^ 64) m.file_offset
  pub skip_list_length_fits : Fits (2 ^ 64) m.skip_list_length
  pub data_length_fits : Fits (2 ^ 64) m.data_length
  pub footer_length_fits : Fits (2 ^ 64) m.footer_length

pub record TableFooterFits (m : TableFooterMessage) : Type 0 where
  pub stripe_metadata_fits : All StripeMetadataFits m.stripe_metadata_array
  pub block_row_count_fits : Fits (2 ^ 32) m.block_row_count

-- Every size is a `uint64`.
abbrev pub SizesFit : List ℕ → Type 0
SizesFit sizes = All (λ (n : ℕ). n < 2 ^ 64) sizes

pub record StripeFooterFits (m : StripeFooterMessage) : Type 0 where
  pub skip_list_sizes_fit : SizesFit m.skip_list_size_array
  pub exists_sizes_fit : SizesFit m.exists_size_array
  pub value_sizes_fit : SizesFit m.value_size_array

pub record SkipNodeFits (m : SkipNodeMessage) : Type 0 where
  pub row_count_fits : Fits (2 ^ 64) m.row_count
  pub value_block_offset_fits : Fits (2 ^ 64) m.value_block_offset
  pub value_length_fits : Fits (2 ^ 64) m.value_length
  pub value_compression_type_fits : Fits (2 ^ 32) m.value_compression_type
  pub exists_block_offset_fits : Fits (2 ^ 64) m.exists_block_offset
  pub exists_length_fits : Fits (2 ^ 64) m.exists_length

-- `pack` and `unpack` of one message; `none` is the null pointer of a failed unpacking.
pub record Codec (Message : Type 0) (IsWire : Message → Type 0) : Type 0 where
  pub pack : Message → Bytes
  pub unpack : Bytes → Option Message
  pub unpack-pack : (m : Message) → IsWire m → unpack (pack m) ≡ some m

pub record Protobuf : Type 0 where
  pub post_script : Codec PostScriptMessage PostScriptFits
  pub table_footer : Codec TableFooterMessage TableFooterFits
  pub stripe_footer : Codec StripeFooterMessage StripeFooterFits
  pub skip_list : Codec (List SkipNodeMessage) (All SkipNodeFits)
