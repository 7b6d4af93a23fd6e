-- ===== src/Options/Sound.antt =====
-- Which option values are accepted.
use mathlib.Core.Bool.{false≢true}
use postgres_vectorization_t.Metadata.Footers.{
  block_row_count_maximum, block_row_count_minimum, namedatalen, strncmp_equal,
}
use postgres_vectorization_t.Metadata.Footers.RoundTrip.{strncmp_sound}
use postgres_vectorization_t.Options.{
  compression_string_enc_lz4, compression_string_lz4, compression_string_none,
  compression_string_pg_lz, is_invalid, parse_compression_type, stripe_row_count_maximum,
  stripe_row_count_minimum, validate_compression, validate_count, validate_foreign_table_options,
}
use postgres_vectorization_t.Prelude.{
  Bool-cases, Bytes, Option, ap, arith, false, inl, inr, none, not, refl, some, sym, ℕ, ◌||◌, ◌∙◌,
  ◌≡◌, ◌≤◌,
}
use postgres_vectorization_t.Prelude.Int.{ltb_ℤ, negsuc, pos, ℤ}
use postgres_vectorization_t.Report.{>>=-eq-ok, Error, Result, guard, invalid_stripe_row_count, ok}
use postgres_vectorization_t.Types.{
  CompressionType, compression_enc_lz4, compression_lz4, compression_none, compression_pg_lz,
}

-- Which type each name stands for.
abbrev pub Names : Bytes → CompressionType → Type 0
Names s compression_none = s ≡ compression_string_none
Names s compression_pg_lz = s ≡ compression_string_pg_lz
Names s compression_lz4 = s ≡ compression_string_lz4
Names s compression_enc_lz4 = s ≡ compression_string_enc_lz4
Names s _ = ⊥

-- A row count option that is absent, or an integer within the limits.
abbrev pub IsCount : (Bytes → Result ℤ) → ℕ → ℕ → Option Bytes → Type 0
IsCount pg_atoi low high none = Unit
IsCount pg_atoi low high (some s) = (n : ℕ) × (pg_atoi s ≡ ok (pos n)) × (low ≤ n) × (n ≤ high)

-- A compression option that is absent, or the name of a type.
abbrev pub IsCompression : Option Bytes → Type 0
IsCompression none = Unit
IsCompression (some s) = (t : CompressionType) × (parse_compression_type s ≡ t) × Names s t

parsed :
    (s : Bytes) → is_invalid (parse_compression_type s) ≡ false → Names s (parse_compression_type s)
unfolding parse_compression_type
parsed s h = elim (Bool-cases (strncmp_equal s compression_string_none namedatalen)) [
  | inl e ↦ rw e (strncmp_sound s compression_string_none namedatalen (omega arith) e)
  | inr e1 ↦ elim (Bool-cases (strncmp_equal s compression_string_pg_lz namedatalen)) [
    | inl e ↦ rw (e1, e) (strncmp_sound s compression_string_pg_lz namedatalen (omega arith) e)
    | inr e2 ↦ elim (Bool-cases (strncmp_equal s compression_string_lz4 namedatalen)) [
      | inl e ↦ rw (e1, e2, e) (strncmp_sound s compression_string_lz4 namedatalen (omega arith) e)
      | inr e3 ↦ elim (Bool-cases (strncmp_equal s compression_string_enc_lz4 namedatalen)) [
        | inl e ↦
            rw (e1, e2, e3, e)
              (strncmp_sound s compression_string_enc_lz4 namedatalen (omega arith) e)
        | inr e4 ↦ absurd (false≢true (sym h ∙ rw (e1, e2, e3, e4) refl))
      ]
    ]
  ]
]

IsCompression-sound : (o : Option Bytes) → validate_compression o ≡ ok tt → IsCompression o
IsCompression-sound none h = tt
IsCompression-sound (some s) h = elim (Bool-cases (is_invalid (parse_compression_type s))) [
  | inl e ↦ absurd (ground (arith, e))
  | inr e ↦ (parse_compression_type s, refl, parsed s e)
]

module _ (pg_atoi : Bytes → Result ℤ) where
  IsCount-sound :
      (low high : ℕ) (e : Error) (o : Option Bytes)
      → validate_count pg_atoi low high e o ≡ ok tt
      → IsCount pg_atoi low high o
  IsCount-sound low high e none h = tt
  IsCount-sound low high e (some s) h =
      let (count, atoi, checked) = >>=-eq-ok (pg_atoi s) _ h in
      let (n, same, least, most) = natural low high count e checked in
      (n, atoi ∙ ap ok same, least, most)
    where
      natural :
          (low high : ℕ) (count : ℤ) (e : Error)
          → guard (not (ltb_ℤ count (pos low) || ltb_ℤ (pos high) count)) e ≡ ok tt
          → (n : ℕ) × (count ≡ pos n) × (low ≤ n) × (n ≤ high)
      natural low high (pos n) e h = (n, refl, ground arith, ground arith)
      natural low high (negsuc n) e h = absurd (ground arith)

  -- For every combination of the options, given or not: if the validation accepts them, then the
  -- compression type, where it is given, is one of the four names exactly and parses as the type
  -- of that name; and each row count that is given is an integer within its limits, 1,000 to
  -- 10,000,000 for stripes and 1,000 to 100,000 for blocks.
  pub validate_foreign_table_options_sound :
      (filename compression stripe_row_count block_row_count : Option Bytes)
      → validate_foreign_table_options pg_atoi filename compression stripe_row_count block_row_count
        ≡ ok tt
      → IsCompression compression
        × IsCount pg_atoi stripe_row_count_minimum stripe_row_count_maximum stripe_row_count
        × IsCount pg_atoi block_row_count_minimum block_row_count_maximum block_row_count
  unfolding validate_foreign_table_options
  validate_foreign_table_options_sound filename compression stripe_row_count block_row_count h =
      let (u, c, rest) = >>=-eq-ok (validate_compression compression) _ h in
      let (v, s, b) =
        >>=-eq-ok
          (validate_count pg_atoi stripe_row_count_minimum stripe_row_count_maximum
            invalid_stripe_row_count stripe_row_count)
          _ rest in
      (
        IsCompression-sound compression c,
        IsCount-sound _ _ _ stripe_row_count s,
        IsCount-sound _ _ _ block_row_count b,
      )
