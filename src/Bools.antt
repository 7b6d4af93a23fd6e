-- ===== src/Bools.antt =====
-- `SerializeBoolArray` of cstore_writer.c and `DeserializeBoolArray` of cstore_reader.c: eight
-- Booleans to a byte, the first in the lowest bit.
use Prim.Native.Nat.{bit_and, bit_or}
pub mod Bits
pub mod RoundTrip
use postgres_vectorization_t.Prelude.{
  ℕ, zero, suc, ◌+◌, ◌*◌, ◌/◌, ◌%◌, ◌^◌, Bool, true, false, List, [], ◌∷◌, Bytes, ltb, ◌==◌,
  if◌then◌else◌, get_or, set, replicate, length, uint32,
}
use postgres_vectorization_t.Report.{Result, ok, err, out_of_bounds, insufficient_bool_data, ◌>>=◌}

-- `data[i / 8] |= (1 << (i % 8))`
unfoldable pub set_bit : Bytes → ℕ → Bytes
set_bit buf i = set buf (i / 8) (bit_or (get_or buf (i / 8) 0) (2 ^ (i % 8)))

-- `(data[i / 8] & (1 << (i % 8))) != 0`
unfoldable pub get_bit : Bytes → ℕ → Bool
get_bit buf i = if bit_and (get_or buf (i / 8) 0) (2 ^ (i % 8)) == 0 then false else true

-- The writer's loop, at index `i` with `n` rounds left and the array's rest from `i` on.
unfoldable pub pack_loop : ℕ → ℕ → List Bool → Bytes → Result Bytes
unfolding set_bit
pack_loop zero i bs buf = ok buf
pack_loop (suc n) i [] buf = err out_of_bounds
pack_loop (suc n) i (b ∷ bs) buf = pack_loop n (i + 1) bs (if b then set_bit buf i else buf)

unfoldable pub serialize_bool_array : List Bool → ℕ → Result Bytes
unfolding pack_loop
serialize_bool_array bool_array bool_array_length =
    pack_loop bool_array_length 0 bool_array (replicate (uint32 (bool_array_length + 7) / 8) 0)

-- The reader's loop, at index `i` with `n` rounds left.
unfoldable pub unpack_loop : ℕ → ℕ → Bytes → List Bool
unfolding get_bit
unpack_loop zero i buf = []
unpack_loop (suc n) i buf = get_bit buf i ∷ unpack_loop n (i + 1) buf

unfoldable pub deserialize_bool_array : Bytes → ℕ → Result (List Bool)
unfolding unpack_loop
deserialize_bool_array buffer bool_array_length =
    if ltb (uint32 (length buffer * 8)) bool_array_length
    then err insufficient_bool_data
    else ok (unpack_loop bool_array_length 0 buffer)
