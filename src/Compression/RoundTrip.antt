-- ===== src/Compression/RoundTrip.antt =====
-- Decompressing a block's value buffer gives back what the writer compressed.
use mathlib.Core.Path.{subst}
use postgres_vectorization_t.Compression.{
  compress_block, compress_lz4, compress_pg_lz, decompress_buffer, lz4_header, lz4_header_size,
}
use postgres_vectorization_t.Compression.External.{AreLossless, Libraries}
use postgres_vectorization_t.Compression.Words.{
  le_bytes, le_value, le_value-le_bytes, length-le_bytes,
}
use postgres_vectorization_t.Prelude.{
  ==_iff, Bool-cases, Bytes, Option-cases, ap, append_assoc, arith, drop, drop-length-append, inl,
  inr, leb, length, length-append, ltb, ltb→lt, lt→ltb, none, refl, some, sym, true, uint32, uint64,
  ℕ, ◌++◌, ◌+◌, ◌<◌, ◌==◌, ◌^◌, ◌∙◌, ◌≡◌, ◌⊎◌,
}
use postgres_vectorization_t.Report.{ok, ok_injective}
use postgres_vectorization_t.Types.{
  CompressionType, compression_enc_lz4, compression_lz4, compression_none, compression_pg_lz,
  of_enum, to_enum,
}

-- The types that call no enclave.
abbrev pub IsPlainType : CompressionType → Type 0
IsPlainType compression_enc_lz4 = ⊥
IsPlainType _ = Unit

-- The block is read back as the buffer that was compressed.
abbrev pub Restores : Libraries → Bytes → Bytes × CompressionType → Type 0
Restores L b (out, t) = decompress_buffer L out t ≡ ok (some b)

-- A type that an integer of the metadata stands for.
abbrev pub IsNamed : CompressionType → Type 0
IsNamed t = (to_enum t < 2 ^ 32) × (of_enum (to_enum t) ≡ t)

of_ok :
    (s : Bytes × CompressionType) {r : Bytes × CompressionType}
    → IsNamed s.1
    → ok s ≡ ok r
    → IsNamed r.1
of_ok s h e = subst (λ (r : Bytes × CompressionType). IsNamed r.1) (ok_injective e) h

module _ (L : Libraries) (lossless : AreLossless L) where
  pg_lz_equal :
      (b c : Bytes) → L.pglz_compress b ≡ some c → compress_pg_lz L b ≡ (c, compression_pg_lz)
  unfolding compress_pg_lz
  pg_lz_equal b c e = rw (e, compress_pg_lz)

  pg_lz_none : (b : Bytes) → L.pglz_compress b ≡ none → compress_pg_lz L b ≡ (b, compression_none)
  unfolding compress_pg_lz
  pg_lz_none b e = rw (e, compress_pg_lz)

  pg_lz_lem : (b : Bytes) → Restores L b (compress_pg_lz L b)
  unfolding decompress_buffer
  pg_lz_lem b = elim (Option-cases (L.pglz_compress b)) [
    | inl e ↦ subst (Restores L b) (sym (pg_lz_none b e)) refl
    | inr (c, e) ↦
        let test : (L.varsize c == length c) ≡ true = (==_iff _ _).1 (lossless.pglz_size b c e) in
        subst (Restores L b) (sym (pg_lz_equal b c e)) (rw (test, lossless.pglz_lossless b c e))
  ]

  -- The parts of an LZ4 block as the reader finds them.
  lz4_block_lem :
      (n : ℕ) (c : Bytes)
      → n < 2 ^ 31
      → length c < 2 ^ 63
      → (length (lz4_header n (length c) ++ c) ≡ 16 + length c)
        × (le_value 8 (lz4_header n (length c) ++ c) ≡ n)
        × (le_value 8 (drop 8 (lz4_header n (length c) ++ c)) ≡ length c)
        × (drop 16 (lz4_header n (length c) ++ c) ≡ c)
  unfolding lz4_header
  lz4_block_lem n c h k =
      let low = le_bytes 8 n in
      let high = le_bytes 8 (length c) in
      let same = append_assoc low high c in
      let low_size : length low ≡ 8 = length-le_bytes 8 n in
      let both : length (low ++ high) ≡ 16 =
        length-append low high ∙ omega (arith, low_size, length-le_bytes 8 (length c)) in
      (
        omega (arith, length-append (low ++ high) c, both),
        ap (le_value 8) same ∙ le_value-le_bytes 8 n (high ++ c) (omega arith),
        ap (le_value 8) (
              ap (drop 8) same
              ∙ ap (λ k. drop k (low ++ (high ++ c))) (sym low_size)
              ∙ drop-length-append low (high ++ c))
            ∙ le_value-le_bytes 8 (length c) c (omega arith),
        ap (λ k. drop k ((low ++ high) ++ c)) (sym both) ∙ drop-length-append (low ++ high) c,
      )

  lz4_whole :
      (b c : Bytes)
      → length b < 2 ^ 31
      → length c < 2 ^ 63
      → L.lz4_decompress_safe c (length b) ≡ some b
      → Restores L b (lz4_header (length b) (length c) ++ c, compression_lz4)
  unfolding decompress_buffer
  lz4_whole b c h k decompressed =
      let (size, src, comp, body) = lz4_block_lem (length b) c h k in
      let cut : leb 16 (16 + length c) ≡ true = ground arith in
      let same : (uint64 (length c + 16) == 16 + length c) ≡ true = ground arith in
      let small : uint32 (length b) ≡ length b = omega arith in
      let fine : ltb (length b) (2 ^ 31) ≡ true = lt→ltb _ _ h in
      simp (size, src, comp, body, cut, same) (simp (small, fine, decompressed))

  abbrev lz4_output : Bytes → Bytes
  lz4_output b = L.lz4_compress_default b (L.lz4_compress_bound (length b) + lz4_header_size)

  lz4_cases :
      (b : Bytes)
      → ((0 < length (lz4_output b))
          × (compress_lz4 L b
              ≡ (lz4_header (length b) (length (lz4_output b)) ++ lz4_output b, compression_lz4)))
        ⊎ (compress_lz4 L b ≡ (b, compression_none))
  unfolding compress_lz4
  lz4_cases b = elim (Bool-cases (ltb 0 (length (lz4_output b)))) [
    | inl e ↦ inl (ltb→lt _ _ e, rw e)
    | inr e ↦ inr (rw e)
  ]

  lz4_lem : (b : Bytes) → length b < 2 ^ 31 → Restores L b (compress_lz4 L b)
  unfolding decompress_buffer
  lz4_lem b h = elim (lz4_cases b) [
    | inl (some_bytes, e) ↦
        let capacity = L.lz4_compress_bound (length b) + lz4_header_size in
        let short : length (lz4_output b) < 2 ^ 63 =
          omega (arith, lossless.lz4_within b capacity, lossless.lz4_bound (length b) h) in
        subst (Restores L b) (sym e) (
          lz4_whole b (lz4_output b) h short
            (lossless.lz4_lossless b capacity (length b) some_bytes (omega arith)))
    | inr e ↦ subst (Restores L b) (sym e) refl
  ]

  -- For every value buffer below 2 GiB and every compression type of the table but `enc_lz4`, and
  -- lossless libraries: compressing the block succeeds, and decompressing what was stored, with
  -- the type that was recorded for the block, gives back the buffer. This includes the blocks that
  -- the library declined to compress.
  pub decompress_buffer-compress_block :
      (t : CompressionType) (b : Bytes)
      → IsPlainType t
      → length b < 2 ^ 31
      → (r : Bytes × CompressionType) × (compress_block L t b ≡ ok r) × Restores L b r
  unfolding compress_block decompress_buffer
  decompress_buffer-compress_block compression_none b p h = ((b, compression_none), refl, refl)
  decompress_buffer-compress_block compression_pg_lz b p h = (compress_pg_lz L b, refl, pg_lz_lem b)
  decompress_buffer-compress_block compression_lz4 b p h = (compress_lz4 L b, refl, lz4_lem b h)
  decompress_buffer-compress_block compression_enc_lz4 b p h = absurd p
  decompress_buffer-compress_block _ b p h = ((b, compression_none), refl, refl)

  -- The type recorded for a block of such a table is one of those that the metadata can hold.
  pub compress_block-IsNamed :
      (t : CompressionType) (b : Bytes) {r : Bytes × CompressionType}
      → IsPlainType t
      → compress_block L t b ≡ ok r
      → IsNamed r.1
  unfolding compress_block
  compress_block-IsNamed compression_none b p e = of_ok _ (omega arith, refl) e
  compress_block-IsNamed compression_pg_lz b p e = of_ok _ pg_lz_named e
    where
      pg_lz_named : IsNamed (compress_pg_lz L b).1
      pg_lz_named = elim (Option-cases (L.pglz_compress b)) [
        | inl none_made ↦
            subst (λ (r : Bytes × CompressionType). IsNamed r.1) (sym (pg_lz_none b none_made))
              (omega arith, refl)
        | inr (c, made) ↦
            subst (λ (r : Bytes × CompressionType). IsNamed r.1) (sym (pg_lz_equal b c made))
              (omega arith, refl)
      ]
  compress_block-IsNamed compression_lz4 b p e = of_ok _ lz4_named e
    where
      lz4_named : IsNamed (compress_lz4 L b).1
      lz4_named = elim (lz4_cases b) [
        | inl (_, made) ↦
            subst (λ (r : Bytes × CompressionType). IsNamed r.1) (sym made) (omega arith, refl)
        | inr declined ↦
            subst (λ (r : Bytes × CompressionType). IsNamed r.1) (sym declined) (omega arith, refl)
      ]
  compress_block-IsNamed compression_enc_lz4 b p e = absurd p
  compress_block-IsNamed _ b p e = of_ok _ (omega arith, refl) e
