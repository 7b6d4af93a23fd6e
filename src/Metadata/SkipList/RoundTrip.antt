-- ===== src/Metadata/SkipList/RoundTrip.antt =====
-- A column's skip list is read back as it was written.
use postgres_vectorization_t.Datums.RoundTrip.{stored_bytes-IsStored}
use postgres_vectorization_t.Metadata.Messages.{Protobuf, SkipNodeFits}
use postgres_vectorization_t.Metadata.SkipList.{
  datum_to_protobuf_binary, deserialize_block_count, deserialize_column_skip_list, min_max_of,
  protobuf_binary_to_datum, serialize_column_skip_list, skip_node_loop, skip_node_message,
  skip_node_of,
}
use postgres_vectorization_t.Prelude.{
  ==_iff, All, Bool, Bytes, List, [], ap, append-nil, arith, false, length, length-map, length-take,
  le→leb, map, refl, sym, take, true, uint32, ℕ, ◌<◌, ◌==◌, ◌^◌, ◌∙◌, ◌∷◌, ◌≡◌, ◌≤◌,
}
use postgres_vectorization_t.Report.{first, ok}
use postgres_vectorization_t.Tupmacs.{Tupmacs}
use postgres_vectorization_t.Types.{Attribute, ColumnBlockSkipNode, of_enum, to_enum}

module _ (T : Tupmacs) where
  open T use {Datum, zero_datum, fetch_att, IsValueOf}

  -- The minimum and maximum that a node holds: values of the column's type, or none.
  abbrev pub HasLimits : Attribute → Bool → Datum → Datum → Type 0
  HasLimits a true low high = IsValueOf a low × IsValueOf a high
  HasLimits a false low high = (low ≡ zero_datum) × (high ≡ zero_datum)

  -- A skip node whose numbers are `uint64`s, whose compression type is a named one, and whose
  -- limits are values of the column's type.
  pub record IsNode (a : Attribute) (node : ColumnBlockSkipNode Datum) : Type 0 where
    pub row_count_small : node.row_count < 2 ^ 64
    pub value_block_offset_small : node.value_block_offset < 2 ^ 64
    pub value_length_small : node.value_length < 2 ^ 64
    pub exists_block_offset_small : node.exists_block_offset < 2 ^ 64
    pub exists_length_small : node.exists_length < 2 ^ 64
    pub enum_small : to_enum node.value_compression_type < 2 ^ 32
    pub named : of_enum (to_enum node.value_compression_type) ≡ node.value_compression_type
    pub limits : HasLimits a node.has_min_max node.minimum_value node.maximum_value

  node_fits :
      (a : Attribute) (node : ColumnBlockSkipNode Datum)
      → IsNode a node
      → SkipNodeFits (skip_node_message T a node)
  unfolding skip_node_message
  node_fits a node h = record {
    row_count_fits = h.row_count_small;
    value_block_offset_fits = h.value_block_offset_small;
    value_length_fits = h.value_length_small;
    value_compression_type_fits = h.enum_small;
    exists_block_offset_fits = h.exists_block_offset_small;
    exists_length_fits = h.exists_length_small;
  }

  nodes_fit :
      (a : Attribute) (nodes : List (ColumnBlockSkipNode Datum))
      → All (IsNode a) nodes
      → All SkipNodeFits (map (skip_node_message T a) nodes)
  nodes_fit a [] h = tt
  nodes_fit a (node ∷ nodes) h = (node_fits a node h.0, nodes_fit a nodes h.1)

  -- The binary form of a value is fetched as the value.
  protobuf_binary_lem :
      (a : Attribute) (d : Datum)
      → IsValueOf a d
      → protobuf_binary_to_datum T a (datum_to_protobuf_binary T a d) ≡ d
  unfolding protobuf_binary_to_datum datum_to_protobuf_binary
  protobuf_binary_lem a d v =
      ap (λ b. fetch_att b a.attbyval a.attlen) (sym (append-nil (datum_to_protobuf_binary T a d)))
      ∙ (stored_bytes-IsStored T a d v).fetched []

  min_max_of_message :
      (a : Attribute) (node : ColumnBlockSkipNode Datum) (b : Bool)
      → b ≡ node.has_min_max
      → HasLimits a b node.minimum_value node.maximum_value
      → min_max_of T a (skip_node_message T a node)
        ≡ ok (node.has_min_max, node.minimum_value, node.maximum_value)
  unfolding min_max_of skip_node_message
  min_max_of_message a node true e v = simp (
    sym e,
    protobuf_binary_lem a node.minimum_value v.0,
    protobuf_binary_lem a node.maximum_value v.1,
  )
  min_max_of_message a node false e v = simp (sym e, v.0, v.1)

  skip_node_of_message :
      (a : Attribute) (node : ColumnBlockSkipNode Datum)
      → IsNode a node
      → skip_node_of T a (skip_node_message T a node) ≡ ok node
  unfolding skip_node_of skip_node_message
  skip_node_of_message a node h =
      simp (min_max_of_message a node node.has_min_max refl h.limits, h.named)

  skip_node_loop_lem :
      (a : Attribute) (nodes : List (ColumnBlockSkipNode Datum))
      → All (IsNode a) nodes
      → skip_node_loop T a (map (skip_node_message T a) nodes) ≡ ok nodes
  unfolding skip_node_loop
  skip_node_loop_lem a [] h = refl
  skip_node_loop_lem a (node ∷ nodes) h =
      simp (skip_node_of_message a node h.0, skip_node_loop_lem a nodes h.1)

  first-take :
      (n : ℕ) (xs : List (ColumnBlockSkipNode Datum)) → n ≤ length xs → first n xs ≡ ok (take n xs)
  first-take n xs h = let inside = le→leb _ _ h in rw inside

  -- For a column's array of skip nodes of which the first `n` are well formed, with `n` a `uint32`
  -- and no more than the array's length: serialising `n` nodes succeeds; the block count read from
  -- the buffer is `n`; and deserialising with that count gives back exactly the first `n` nodes,
  -- with all of their fields.
  pub deserialize-serialize_column_skip_list :
      (protobuf : Protobuf) (a : Attribute) (nodes : List (ColumnBlockSkipNode Datum)) (n : ℕ)
      → n ≤ length nodes
      → n < 2 ^ 32
      → All (IsNode a) (take n nodes)
      → (out : Bytes) × (serialize_column_skip_list T protobuf nodes n a ≡ ok out)
        × (deserialize_block_count T protobuf out ≡ ok n)
        × (deserialize_column_skip_list T protobuf out a n ≡ ok (take n nodes))
  unfolding serialize_column_skip_list deserialize_block_count deserialize_column_skip_list
  deserialize-serialize_column_skip_list protobuf a nodes n h small good =
      let ms = map (skip_node_message T a) (take n nodes) in
      let count : length ms ≡ n =
        length-map (skip_node_message T a) (take n nodes) ∙ length-take n nodes h in
      let unpacked = protobuf.skip_list.unpack-pack ms (nodes_fit a (take n nodes) good) in
      let same : uint32 (length ms) ≡ n = omega (arith, count) in
      let test : (length ms == n) ≡ true = (==_iff _ _).1 count in
      (
        protobuf.skip_list.pack ms,
        rw (first-take n nodes h),
        rw unpacked (ap ok same),
        rw (unpacked, test) (skip_node_loop_lem a (take n nodes) good),
      )
