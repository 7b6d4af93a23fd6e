-- ===== src/Datums.antt =====
-- `SerializeDatumArray` and `DatumCopy` of cstore_writer.c, and `DeserializeDatumArray` of
-- cstore_reader.c: the values present in a block, each padded to its type's alignment.
pub mod RoundTrip
use postgres_vectorization_t.Prelude.{
  Bool, Bytes, List, [], drop, false, if◌then◌else◌, leb, length, replicate, suc, true, uint32,
  zero, ℕ, ◌++◌, ◌-◌, ◌∷◌,
}
use postgres_vectorization_t.Prelude.Int.{ltb_ℤ, pos, pos_part}
use postgres_vectorization_t.Report.{
  Result, err, guard, insufficient_datum_data, ok, out_of_bounds, ◌>>=◌, ◌>>◌,
}
use postgres_vectorization_t.Tupmacs.{Tupmacs}
use postgres_vectorization_t.Types.{Attribute}

module _ (T : Tupmacs) where
  open T use {
    Datum, zero_datum, att_addlength_datum, att_addlength_pointer, att_align_nominal,
    store_att_byval, fetch_att, bytes_at, pointer_to,
  }

  -- `DatumCopy`
  pub datum_copy : Attribute → Datum → Datum
  datum_copy a datum =
      if a.attbyval
      then datum
      else pointer_to (bytes_at datum (uint32 (att_addlength_datum 0 a.attlen datum)))

  -- The bytes that are stored for a datum of the given length, before the padding: the three
  -- branches that `SerializeDatumArray` and `DatumToProtobufBinary` share.
  pub stored_bytes : Attribute → Datum → ℕ → Bytes
  stored_bytes a datum datum_length =
      if ltb_ℤ (pos 0) a.attlen
      then (if a.attbyval
          then store_att_byval datum a.attlen
          else bytes_at datum (pos_part a.attlen))
      else bytes_at datum datum_length

  -- One present datum: zeroed space of the aligned length, with the bytes copied to its front.
  pub stored_datum : Attribute → Datum → Bytes
  unfolding stored_bytes
  stored_datum a datum =
      let datum_length = uint32 (att_addlength_datum 0 a.attlen datum) in
      let datum_length_aligned = uint32 (att_align_nominal datum_length a.attalign) in
      stored_bytes a datum datum_length ++ replicate (datum_length_aligned - datum_length) 0

  -- The writer's loop, with `n` rounds left and the rests of the two arrays.
  unfoldable pub serialize_loop : Attribute → ℕ → List Datum → List Bool → Bytes → Result Bytes
  unfolding stored_datum
  serialize_loop a zero ds es buf = ok buf
  serialize_loop a (suc n) (d ∷ ds) (e ∷ es) buf =
      serialize_loop a n ds es (if e then buf ++ stored_datum a d else buf)
  serialize_loop a (suc n) _ _ buf = err out_of_bounds

  unfoldable pub serialize_datum_array : List Datum → List Bool → ℕ → Attribute → Result Bytes
  unfolding serialize_loop
  serialize_datum_array datum_array exists_array datum_count a =
      serialize_loop a datum_count datum_array exists_array []

  -- The reader's loop, with `n` rounds left, the rest of the exists array, and the offset.
  unfoldable pub deserialize_loop : Attribute → Bytes → ℕ → List Bool → ℕ → Result (List Datum)
  deserialize_loop a buffer zero es offset = ok []
  deserialize_loop a buffer (suc n) [] offset = err out_of_bounds
  deserialize_loop a buffer (suc n) (false ∷ es) offset = do
    rest ← deserialize_loop a buffer n es offset
    ok (zero_datum ∷ rest)
  deserialize_loop a buffer (suc n) (true ∷ es) offset = do
    let pointer = drop offset buffer
    let datum = fetch_att pointer a.attbyval a.attlen
    let behind = uint32 (att_addlength_pointer offset a.attlen pointer)
    let past = uint32 (att_align_nominal behind a.attalign)
    let rest = deserialize_loop a buffer n es past
    guard (leb past (length buffer)) insufficient_datum_data
    ds ← rest
    ok (datum ∷ ds)

  unfoldable pub deserialize_datum_array : Bytes → List Bool → ℕ → Attribute → Result (List Datum)
  unfolding deserialize_loop
  deserialize_datum_array datum_buffer exists_array datum_count a =
      deserialize_loop a datum_buffer datum_count exists_array 0
