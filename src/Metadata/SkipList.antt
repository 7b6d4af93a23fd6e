-- ===== src/Metadata/SkipList.antt =====
-- A column's skip list to and from its message (cstore_metadata_serialization.c).
pub mod RoundTrip
use postgres_vectorization_t.Datums.{stored_bytes}
use postgres_vectorization_t.Metadata.Messages.{Protobuf, SkipNodeMessage}
use postgres_vectorization_t.Prelude.{
  Bool, Bytes, List, [], false, if◌then◌else◌, length, map, none, some, true, uint32, ℕ, ◌==◌, ◌∷◌,
}
use postgres_vectorization_t.Report.{
  Result, block_count_mismatch, err, first, guard, invalid_skip_list_buffer, min_max_mismatch,
  missing_node_fields, of_option, ok, ◌>>=◌, ◌>>◌,
}
use postgres_vectorization_t.Tupmacs.{Tupmacs}
use postgres_vectorization_t.Types.{Attribute, ColumnBlockSkipNode, of_enum, to_enum}

module _ (T : Tupmacs) where
  open T use {Datum, zero_datum, fetch_att}

  -- `DatumToProtobufBinary`; it stores a datum as `SerializeDatumArray` does, without padding.
  unfoldable pub datum_to_protobuf_binary : Attribute → Datum → Bytes
  datum_to_protobuf_binary a datum = stored_bytes T a datum (T.att_addlength_datum 0 a.attlen datum)

  -- `ProtobufBinaryToDatum`
  unfoldable pub protobuf_binary_to_datum : Attribute → Bytes → Datum
  protobuf_binary_to_datum a binary = fetch_att binary a.attbyval a.attlen

  -- One round of the loop in `SerializeColumnSkipList`.
  unfoldable pub skip_node_message : Attribute → ColumnBlockSkipNode Datum → SkipNodeMessage
  skip_node_message a node = record {
    row_count = some node.row_count;
    minimum_value =
        if node.has_min_max then some (datum_to_protobuf_binary a node.minimum_value) else none;
    maximum_value =
        if node.has_min_max then some (datum_to_protobuf_binary a node.maximum_value) else none;
    value_block_offset = some node.value_block_offset;
    value_length = some node.value_length;
    value_compression_type = some (to_enum node.value_compression_type);
    exists_block_offset = some node.exists_block_offset;
    exists_length = some node.exists_length;
  }

  -- The minimum and the maximum of a message: both there, or neither.
  unfoldable pub min_max_of : Attribute → SkipNodeMessage → Result (Bool × Datum × Datum)
  min_max_of a m = elim m.minimum_value [
    | none ↦ elim m.maximum_value [
      | none ↦ ok (false, zero_datum, zero_datum)
      | some maximum ↦ err min_max_mismatch
    ]
    | some minimum ↦ elim m.maximum_value [
      | none ↦ err min_max_mismatch
      | some maximum ↦
          ok (true, protobuf_binary_to_datum a minimum, protobuf_binary_to_datum a maximum)
    ]
  ]

  -- One round of the loop in `DeserializeColumnSkipList`.
  unfoldable pub skip_node_of : Attribute → SkipNodeMessage → Result (ColumnBlockSkipNode Datum)
  unfolding min_max_of
  skip_node_of a m = do
    row_count ← of_option m.row_count missing_node_fields
    exists_block_offset ← of_option m.exists_block_offset missing_node_fields
    value_block_offset ← of_option m.value_block_offset missing_node_fields
    exists_length ← of_option m.exists_length missing_node_fields
    value_length ← of_option m.value_length missing_node_fields
    code ← of_option m.value_compression_type missing_node_fields
    limits ← min_max_of a m
    ok (record {
      has_min_max = limits.0;
      minimum_value = limits.1;
      maximum_value = limits.2;
      row_count = row_count;
      value_block_offset = value_block_offset;
      value_length = value_length;
      exists_block_offset = exists_block_offset;
      exists_length = exists_length;
      value_compression_type = of_enum code;
    })

  unfoldable pub skip_node_loop :
      Attribute → List SkipNodeMessage → Result (List (ColumnBlockSkipNode Datum))
  skip_node_loop a [] = ok []
  skip_node_loop a (m ∷ ms) = do
    let rest = skip_node_loop a ms
    node ← skip_node_of a m
    nodes ← rest
    ok (node ∷ nodes)

  module _ (protobuf : Protobuf) where
    unfoldable pub serialize_column_skip_list :
        List (ColumnBlockSkipNode Datum) → ℕ → Attribute → Result Bytes
    serialize_column_skip_list block_skip_node_array block_count a = do
      nodes ← first block_count block_skip_node_array
      ok (protobuf.skip_list.pack (map (skip_node_message a) nodes))

    unfoldable pub deserialize_block_count : Bytes → Result ℕ
    deserialize_block_count buffer = do
      ms ← of_option (protobuf.skip_list.unpack buffer) invalid_skip_list_buffer
      ok (uint32 (length ms))

    unfoldable pub deserialize_column_skip_list :
        Bytes → Attribute → ℕ → Result (List (ColumnBlockSkipNode Datum))
    unfolding skip_node_loop
    deserialize_column_skip_list buffer a block_count = do
      ms ← of_option (protobuf.skip_list.unpack buffer) invalid_skip_list_buffer
      guard (length ms == block_count) block_count_mismatch
      skip_node_loop a ms
