-- ===== src/Tupmacs.antt =====
-- What the code uses of PostgreSQL's access/tupmacs.h and postgres.h, which are no part of the
-- repository: the type of datums, the macros that measure, align, store and fetch an attribute's
-- value, and the pointers that a datum passed by reference holds. The laws are the documented
-- contract of these macros for a datum that is a value of the attribute's type.
use postgres_vectorization_t.Prelude.{
  ℕ, suc, ◌+◌, ◌≤◌, ◌<◌, ◌^◌, ◌≡◌, Bool, true, false, ◌++◌, Bytes, length,
}
use postgres_vectorization_t.Prelude.Int.{ℤ, pos, ltb_ℤ}
use postgres_vectorization_t.Types.{Attribute}

pub record Tupmacs : Type 1 where
  pub Datum : Type 0
  -- the datum of eight zero bytes that `palloc0` leaves
  pub zero_datum : Datum
  pub att_addlength_datum : ℕ → ℤ → Datum → ℕ
  -- the same macro at a pointer into a buffer, here the bytes from the pointer on
  pub att_addlength_pointer : ℕ → ℤ → Bytes → ℕ
  pub att_align_nominal : ℕ → ℕ → ℕ
  pub store_att_byval : Datum → ℤ → Bytes
  pub fetch_att : Bytes → Bool → ℤ → Datum
  -- `memcpy` of so many bytes from `DatumGetPointer`, and `PointerGetDatum` of such a copy
  pub bytes_at : Datum → ℕ → Bytes
  pub pointer_to : Bytes → Datum
  pub IsValueOf : Attribute → Datum → Type 0
  -- lengths are added to the offset; a fixed length is the attribute's
  pub addlength_datum_add :
      (n : ℕ) (l : ℤ) (d : Datum) → att_addlength_datum n l d ≡ n + att_addlength_datum 0 l d
  pub addlength_pointer_add :
      (n : ℕ) (l : ℤ) (b : Bytes) → att_addlength_pointer n l b ≡ n + att_addlength_pointer 0 l b
  pub addlength_fixed : (k : ℕ) (d : Datum) → att_addlength_datum 0 (pos (suc k)) d ≡ suc k
  pub byval_fixed :
      (a : Attribute) (d : Datum)
      → IsValueOf a d
      → a.attbyval ≡ true
      → ltb_ℤ (pos 0) a.attlen ≡ true
  -- a value takes at most 1 GB
  pub value_short :
      (a : Attribute) (d : Datum)
      → IsValueOf a d
      → att_align_nominal (att_addlength_datum 0 a.attlen d) a.attalign < 2 ^ 31
  -- rounding up to a multiple of the alignment
  pub align_zero : (c : ℕ) → att_align_nominal 0 c ≡ 0
  pub align_le : (n c : ℕ) → n ≤ att_align_nominal n c
  pub align_again : (n c : ℕ) → att_align_nominal (att_align_nominal n c) c ≡ att_align_nominal n c
  pub align_add :
      (n m c : ℕ)
      → att_align_nominal n c ≡ n
      → att_align_nominal (n + m) c ≡ n + att_align_nominal m c
  -- what was stored is what is fetched and measured
  pub length-bytes_at : (d : Datum) (n : ℕ) → length (bytes_at d n) ≡ n
  pub length-store_att_byval :
      (a : Attribute) (d : Datum)
      → IsValueOf a d
      → a.attbyval ≡ true
      → length (store_att_byval d a.attlen) ≡ att_addlength_datum 0 a.attlen d
  pub fetch-store_att_byval :
      (a : Attribute) (d : Datum) (rest : Bytes)
      → IsValueOf a d
      → a.attbyval ≡ true
      → fetch_att (store_att_byval d a.attlen ++ rest) true a.attlen ≡ d
  pub fetch-bytes_at :
      (a : Attribute) (d : Datum) (rest : Bytes)
      → IsValueOf a d
      → a.attbyval ≡ false
      → fetch_att (bytes_at d (att_addlength_datum 0 a.attlen d) ++ rest) false a.attlen ≡ d
  pub addlength-store_att_byval :
      (a : Attribute) (d : Datum) (rest : Bytes)
      → IsValueOf a d
      → a.attbyval ≡ true
      → att_addlength_pointer 0 a.attlen (store_att_byval d a.attlen ++ rest)
        ≡ att_addlength_datum 0 a.attlen d
  pub addlength-bytes_at :
      (a : Attribute) (d : Datum) (rest : Bytes)
      → IsValueOf a d
      → a.attbyval ≡ false
      → att_addlength_pointer 0 a.attlen (bytes_at d (att_addlength_datum 0 a.attlen d) ++ rest)
        ≡ att_addlength_datum 0 a.attlen d
  pub pointer_to-bytes_at :
      (a : Attribute) (d : Datum)
      → IsValueOf a d
      → a.attbyval ≡ false
      → pointer_to (bytes_at d (att_addlength_datum 0 a.attlen d)) ≡ d
