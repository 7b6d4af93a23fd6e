-- ===== src/Stripe/Blocks.antt =====
-- One block, written and read back.
use postgres_vectorization_t.Bools.{deserialize_bool_array, serialize_bool_array}
use postgres_vectorization_t.Bools.RoundTrip.{deserialize-serialize_bool_array}
use postgres_vectorization_t.Compression.{compress_block, decompress_buffer}
use postgres_vectorization_t.Compression.External.{AreLossless, Libraries}
use postgres_vectorization_t.Compression.RoundTrip.{IsPlainType, decompress_buffer-compress_block}
use postgres_vectorization_t.Datums.{
  deserialize_datum_array, deserialize_loop, serialize_datum_array,
}
use postgres_vectorization_t.Datums.RoundTrip.{deserialize-serialize_datum_array, present_values}
use postgres_vectorization_t.Prelude.{
  ==_iff, Bool, Bool-cases, Bytes, List, [], ap, arith, drop, drop-length-append, false, get_elem?,
  inl, inr, leb, length, length-append, le→leb, refl, some, suc, sym, take, take-length-append,
  true, uint32, zero, ℕ, ◌++◌, ◌+◌, ◌-◌, ◌<◌, ◌==◌, ◌^◌, ◌∙◌, ◌∷◌, ◌≡◌, ◌≤◌,
}
use postgres_vectorization_t.Report.{ok}
use postgres_vectorization_t.Rows.Holds.{IsBlock, cell_from, cell_in}
use postgres_vectorization_t.Stripe.Load.{read_from_file}
use postgres_vectorization_t.Tupmacs.{Tupmacs}
use postgres_vectorization_t.Types.{
  Attribute, ColumnBlockData, ColumnBlockSkipNode, CompressionType,
}

-- A buffer is read where it was written.
pub read_from_file_lem :
    (pre b post : Bytes) (offset size : ℕ)
    → offset ≡ length pre
    → size ≡ length b
    → length b < 2 ^ 32
    → read_from_file (pre ++ (b ++ post)) offset size ≡ ok b
unfolding read_from_file
read_from_file_lem pre b post offset size at total small =
    let narrow : uint32 size ≡ length b = omega (arith, total) in
    elim (Bool-cases (length b == 0)) [
      | inl empty ↦ rw (narrow, empty) (ap ok (sym (no_bytes b ((==_iff _ _).0 empty))))
      | inr nonempty ↦
          let enough : leb (offset + length b) (length (pre ++ (b ++ post))) ≡ true =
            le→leb _ _ (omega (arith, at, length-append pre (b ++ post), length-append b post)) in
          rw (narrow, nonempty, enough)
            (ap ok (
              ap (λ k. take (length b) (drop k (pre ++ (b ++ post)))) at
              ∙ ap (take (length b)) (drop-length-append pre (b ++ post))
              ∙ take-length-append b post))
    ]
  where
    no_bytes : (b : Bytes) → length b ≡ 0 → b ≡ []
    no_bytes [] h = refl
    no_bytes (x ∷ b) h = absurd (omega arith)

module _ (T : Tupmacs) where
  open T use {Datum, zero_datum}

  deserialize_loop-take :
      (a : Attribute) (buffer : Bytes) (n : ℕ) (es : List Bool) (offset : ℕ)
      → deserialize_loop T a buffer n (take n es) offset ≡ deserialize_loop T a buffer n es offset
  unfolding deserialize_loop
  deserialize_loop-take a buffer zero es offset = refl
  deserialize_loop-take a buffer (suc n) [] offset = refl
  deserialize_loop-take a buffer (suc n) (false ∷ es) offset =
      rw (deserialize_loop-take a buffer n es offset)
  deserialize_loop-take a buffer (suc n) (true ∷ es) offset =
      rw (deserialize_loop-take a buffer n es _)

  -- The block that the reader makes of the first `n` entries of the writer's.
  abbrev pub read_block : ℕ → ColumnBlockData Datum → ColumnBlockData Datum
  read_block n block = record {
    exists_array = take n block.exists_array;
    value_array = present_values T n block.value_array block.exists_array;
  }

  -- What is read of the first `k` blocks.
  abbrev pub read_blocks :
      ℕ
      → List (ColumnBlockData Datum)
      → List (ColumnBlockSkipNode Datum)
      → List (ColumnBlockData Datum)
  read_blocks zero blocks nodes = []
  read_blocks (suc k) (block ∷ blocks) (node ∷ nodes) =
      read_block (uint32 node.row_count) block ∷ read_blocks k blocks nodes
  read_blocks (suc k) _ _ = []

  present_values_cell :
      (n : ℕ) (ds : List Datum) (es : List Bool) (r : ℕ)
      → r < n
      → n ≤ length ds
      → n ≤ length es
      → cell_from T (get_elem? (take n es) r) (get_elem? (present_values T n ds es) r)
        ≡ cell_from T (get_elem? es r) (get_elem? ds r)
  present_values_cell zero ds es r h p q = elim h [ ]
  present_values_cell (suc n) [] es r h p q = absurd (omega arith)
  present_values_cell (suc n) (d ∷ ds) [] r h p q = absurd (omega arith)
  present_values_cell (suc n) (d ∷ ds) (true ∷ es) zero h p q = refl
  present_values_cell (suc n) (d ∷ ds) (false ∷ es) zero h p q = refl
  present_values_cell (suc n) (d ∷ ds) (true ∷ es) (suc r) h p q =
      present_values_cell n ds es r (omega arith) (omega arith) (omega arith)
  present_values_cell (suc n) (d ∷ ds) (false ∷ es) (suc r) h p q =
      present_values_cell n ds es r (omega arith) (omega arith) (omega arith)

  -- The cells of a block that was read are those of the block that was written.
  pub cell_in-read_block :
      (a : Attribute) (size n r : ℕ) (block : ColumnBlockData Datum)
      → IsBlock T a size block
      → n ≤ size
      → r < n
      → cell_in T (read_block n block) r ≡ cell_in T block r
  unfolding cell_in
  cell_in-read_block a size n r block k h p =
      present_values_cell n block.value_array block.exists_array r p (omega (arith, k.value_size))
        (omega (arith, k.exists_size))

  -- The buffers of a block of `n` rows, and how they are read.
  pub record IsStoredBlock (L : Libraries) (t : CompressionType) (a : Attribute) (n : ℕ)
      (block : ColumnBlockData Datum) (exists raw : Bytes) (value : Bytes × CompressionType)
      : Type 0 where
    pub exists_written : serialize_bool_array block.exists_array n ≡ ok exists
    pub raw_written : serialize_datum_array T block.value_array block.exists_array n a ≡ ok raw
    pub compressed : compress_block L t raw ≡ ok value
    pub exists_read : deserialize_bool_array exists n ≡ ok (take n block.exists_array)
    pub decompressed : decompress_buffer L value.0 value.1 ≡ ok (some raw)
    pub values_read :
        deserialize_datum_array T raw (take n block.exists_array) n a
        ≡ ok (present_values T n block.value_array block.exists_array)
    pub exists_short : length exists < 2 ^ 32

  -- For a block of the column with room for `size` rows, a `size` small enough for the exists
  -- buffer's bits to be counted in a `uint32`, a compression type that calls no enclave, lossless
  -- libraries, and a raw value buffer below 2 GiB: the exists buffer, the raw value buffer and the
  -- stored value buffer of the block's first `n` rows are all made, and unpacking, decompressing
  -- and deserialising them give back the first `n` exists flags and the present values.
  pub store_block :
      (L : Libraries) (t : CompressionType) (a : Attribute) (size n : ℕ)
      (block : ColumnBlockData Datum)
      → AreLossless L
      → IsPlainType t
      → IsBlock T a size block
      → n ≤ size
      → size < 2 ^ 32 - 8
      → ((raw : Bytes)
          → serialize_datum_array T block.value_array block.exists_array n a ≡ ok raw
          → length raw < 2 ^ 31)
      → (exists : Bytes) × (raw : Bytes) × (value : Bytes × CompressionType) × IsStoredBlock L t a n
          block exists raw value
  unfolding deserialize_datum_array
  store_block L t a size n block lossless plain k h small short =
      let (exists, e, len, bytes, back) =
        deserialize-serialize_bool_array block.exists_array n (omega (arith, k.exists_size))
          (omega arith) in
      let (raw, r, raw_back) =
        deserialize-serialize_datum_array T a block.value_array block.exists_array n
          (omega (arith, k.value_size)) (omega (arith, k.exists_size)) k.present
          (λ raw e. omega (arith, short raw e)) in
      let (value, c, restores) =
        decompress_buffer-compress_block L lossless t raw plain (short raw r) in
      (
        exists,
        raw,
        value,
        record {
          exists_written = e;
          raw_written = r;
          compressed = c;
          exists_read = back;
          decompressed = restores;
          values_read = deserialize_loop-take a raw n block.exists_array 0 ∙ raw_back;
          exists_short = omega (arith, len);
        },
      )
