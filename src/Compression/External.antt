-- ===== src/Compression/External.antt =====
-- What the code calls to compress and to encrypt: pg_lzcompress of PostgreSQL, LZ4, the base64
-- decoder and the enclave's interface. None of it is in the repository. A buffer passed with its
-- length is a list of bytes; what a call writes to its output buffer is its result.
use postgres_vectorization_t.Prelude.{Bool, Bytes, Option, length, some, ℕ, ◌<◌, ◌^◌, ◌≡◌, ◌≤◌}
use postgres_vectorization_t.Prelude.Int.{ℤ}

pub record Libraries : Type 0 where
  -- `none`: the input is not compressed; else the PGLZ object, `VARSIZE` bytes long
  pub pglz_compress : Bytes → Option Bytes
  pub varsize : Bytes → ℕ
  pub pglz_decompress : Bytes → Bytes
  -- empty for a returned 0; the second argument is the capacity of the output
  pub lz4_compress_default : Bytes → ℕ → Bytes
  pub lz4_compress_bound : ℕ → ℕ
  -- `none` for a negative return value
  pub lz4_decompress_safe : Bytes → ℕ → Option Bytes
  -- the capacity of a `StringInfo` that was filled with so many bytes
  pub maxlen : ℕ → ℕ
  -- `none` for a returned error, else what it writes to its output
  pub from_base64 : Bytes → Option Bytes
  -- the returned integer, and the bytes written to the output; the number in the last one is the
  -- capacity passed
  pub enc_text_compress_n_encrypt : Bytes → ℤ × Bytes
  pub enc_text_decrypt_n_decompress : Bytes → ℤ × Bytes
  pub enc_text_decrypt : Bytes → ℕ → ℤ × Bytes
  -- whether `sgxErrorHandler` raises an error for this code
  pub sgx_raises : ℕ → Bool

-- The documented contract of the lossless compressors.
pub record AreLossless (L : Libraries) : Type 0 where
  pub pglz_size : (b c : Bytes) → L.pglz_compress b ≡ some c → L.varsize c ≡ length c
  pub pglz_lossless : (b c : Bytes) → L.pglz_compress b ≡ some c → L.pglz_decompress c ≡ b
  pub lz4_lossless :
      (b : Bytes) (capacity n : ℕ)
      → 0 < length (L.lz4_compress_default b capacity)
      → length b ≤ n
      → L.lz4_decompress_safe (L.lz4_compress_default b capacity) n ≡ some b
  pub lz4_within :
      (b : Bytes) (capacity : ℕ) → length (L.lz4_compress_default b capacity) ≤ capacity
  pub lz4_bound : (n : ℕ) → n < 2 ^ 31 → L.lz4_compress_bound n < 2 ^ 32
