-- ===== src/Compression.antt =====
-- The compression of a value buffer in `FlushStripe` (cstore_writer.c) and `DecompressBuffer`
-- (cstore_reader.c).
pub mod External
pub mod Words
pub mod RoundTrip
use postgres_vectorization_t.Compression.External.{Libraries}
use postgres_vectorization_t.Compression.Words.{le_bytes, le_value}
use postgres_vectorization_t.Prelude.{
  Bytes, Option, drop, if◌then◌else◌, leb, length, ltb, none, not, some, uint32, uint64, ℕ, ◌%◌,
  ◌++◌, ◌+◌, ◌-◌, ◌/◌, ◌==◌, ◌^◌,
}
use postgres_vectorization_t.Prelude.Int.{negsuc, pos, ℤ}
use postgres_vectorization_t.Report.{
  Result, cannot_decompress, enclave_error, first, guard, invalid_alloc, malformed_lz4, of_option,
  ok, out_of_bounds, ◌>>=◌, ◌>>◌,
}
use postgres_vectorization_t.Types.{
  CompressionType, compression_enc_lz4, compression_enc_none, compression_lz4, compression_none,
  compression_pg_lz,
}

-- `LZ4CompressHeader`: `src_len` and `comp_len`, each a little-endian `size_t`.
abbrev pub lz4_header_size : ℕ
lz4_header_size = 16

unfoldable pub lz4_header : ℕ → ℕ → Bytes
unfolding le_bytes
lz4_header src_len comp_len = le_bytes 8 src_len ++ le_bytes 8 comp_len

module _ (L : Libraries) where
  -- The branch for COMPRESSION_PG_LZ.
  pub compress_pg_lz : Bytes → Bytes × CompressionType
  compress_pg_lz value_buffer = elim (L.pglz_compress value_buffer) [
    | some compressed ↦ (compressed, compression_pg_lz)
    | none ↦ (value_buffer, compression_none)
  ]

  -- The branch for COMPRESSION_LZ4; the header's 16 bytes are part of the capacity passed.
  pub compress_lz4 : Bytes → Bytes × CompressionType
  compress_lz4 value_buffer =
      let src_len = length value_buffer in
      let compressed =
        L.lz4_compress_default value_buffer (L.lz4_compress_bound src_len + lz4_header_size) in
      if ltb 0 (length compressed)
      then (lz4_header src_len (length compressed) ++ compressed, compression_lz4)
      else (value_buffer, compression_none)

  -- `sgxErrorHandler(resp)`
  abbrev pub sgx_error_handler : ℕ → Result (Unit {0})
  sgx_error_handler resp = guard (not (L.sgx_raises resp)) (enclave_error resp)

  -- The `int` that a call of the enclave returns is the length of its output, shifted by four
  -- bits, with an error code below: `resp - ((resp >> 4) << 4)`, and `resp >> 4`, of which the code
  -- only uses that it is not positive for a negative integer.
  abbrev pub enclave_code : ℤ → ℕ
  enclave_code (pos resp) = resp % 16
  enclave_code (negsuc resp) = 15 - resp % 16

  abbrev pub enclave_length : ℤ → ℕ
  enclave_length (pos resp) = resp / 16
  enclave_length (negsuc resp) = 0

  -- The output of the enclave is written to a new buffer of this capacity, past whose end a longer
  -- one goes.
  abbrev pub enclave_output : ℕ → ℤ × Bytes → Result Bytes
  enclave_output capacity (resp, output) = do
    guard (leb (length output) capacity) out_of_bounds
    sgx_error_handler (enclave_code resp)
    first (enclave_length resp) output

  -- The branch for COMPRESSION_ENC_LZ4. What decodes as base64 is taken for encrypted already, and
  -- kept as it is; the decoder writes to one byte of memory. The output of the enclave gets the
  -- capacity of the value buffer.
  pub compress_enc_lz4 : Bytes → Result (Bytes × CompressionType)
  compress_enc_lz4 value_buffer = elim (L.from_base64 value_buffer) [
    | none ↦ (do
      encrypted ←
          enclave_output (L.maxlen (length value_buffer))
            (L.enc_text_compress_n_encrypt value_buffer)
      ok (
          if ltb 0 (length encrypted)
          then (encrypted, compression_enc_lz4)
          else (value_buffer, compression_none)))
    | some decoded ↦ (do
      guard (leb (length decoded) 1) out_of_bounds
      sgx_error_handler 0
      ok (
          if ltb 0 (length value_buffer)
          then (value_buffer, compression_enc_none)
          else (value_buffer, compression_none)))
  ]

  -- One round of the loop over the blocks. A type that no branch names leaves the buffer, and the
  -- zeroed array entry, which is COMPRESSION_NONE.
  unfoldable pub compress_block : CompressionType → Bytes → Result (Bytes × CompressionType)
  unfolding compress_pg_lz compress_lz4 compress_enc_lz4
  compress_block compression_none value_buffer = ok (value_buffer, compression_none)
  compress_block compression_pg_lz value_buffer = ok (compress_pg_lz value_buffer)
  compress_block compression_lz4 value_buffer = ok (compress_lz4 value_buffer)
  compress_block compression_enc_lz4 value_buffer = compress_enc_lz4 value_buffer
  compress_block _ value_buffer = ok (value_buffer, compression_none)

  pub decompress_pg_lz : Bytes → Result Bytes
  decompress_pg_lz buffer = do
    guard (L.varsize buffer == length buffer) cannot_decompress
    ok (L.pglz_decompress buffer)

  -- A header that is cut short is read past the buffer. A length above the range of `int` becomes
  -- a negative request for memory, which is refused.
  pub decompress_lz4 : Bytes → Result Bytes
  decompress_lz4 buffer = do
    guard (leb lz4_header_size (length buffer)) out_of_bounds
    let src_len = le_value 8 buffer
    let comp_len = le_value 8 (drop 8 buffer)
    guard (uint64 (comp_len + lz4_header_size) == length buffer) cannot_decompress
    guard (ltb (uint32 src_len) (2 ^ 31)) invalid_alloc
    of_option (L.lz4_decompress_safe (drop lz4_header_size buffer) (uint32 src_len)) malformed_lz4

  -- The two branches that call the enclave, whose output gets the capacity of the compressed buffer;
  -- `none` is the null pointer that an empty output leaves.
  abbrev pub decrypted : Bytes → ℤ × Bytes → Result (Option Bytes)
  decrypted buffer answer = do
    plain ← enclave_output (L.maxlen (length buffer)) answer
    ok (if ltb 0 (length plain) then some plain else none)

  -- Without the assertion at the start, which leaves out the two types of the enclave.
  unfoldable pub decompress_buffer : Bytes → CompressionType → Result (Option Bytes)
  unfolding decompress_pg_lz decompress_lz4
  decompress_buffer buffer compression_none = ok (some buffer)
  decompress_buffer buffer compression_pg_lz = do b ← decompress_pg_lz buffer; ok (some b)
  decompress_buffer buffer compression_lz4 = do b ← decompress_lz4 buffer; ok (some b)
  decompress_buffer buffer compression_enc_lz4 =
      decrypted buffer (L.enc_text_decrypt_n_decompress buffer)
  decompress_buffer buffer compression_enc_none =
      decrypted buffer (L.enc_text_decrypt buffer (L.maxlen (length buffer)))
  decompress_buffer buffer _ = ok none
