-- ===== src/Tests/Instances.antt =====
-- Concrete functions for the macros of PostgreSQL, for the compressors and the enclave, and for the
-- numbers that a datum stands for.
use mathlib.Core.Bool.{false≢true}
use mathlib.Core.Path.{subst}
use postgres_vectorization_t.Aggregates.Int64.{IsInt32}
use postgres_vectorization_t.Aggregates.Types.{Numbers}
use postgres_vectorization_t.Compression.External.{AreLossless, Libraries}
use postgres_vectorization_t.Prelude.{
  Bool-cases, Bytes, Option, [], ap, arith, drop, false, if◌then◌else◌, inl, inr, leb, leb→le,
  length, le→leb, ltb, none, refl, some, suc, sym, take, take-length-append, true, zero, ℕ, ◌%◌,
  ◌*◌, ◌++◌, ◌+◌, ◌/◌, ◌<◌, ◌==◌, ◌^◌, ◌∙◌, ◌∷◌, ◌≡◌, ◌≤◌,
}
use postgres_vectorization_t.Prelude.Int.{ltb_ℤ, negsuc, pos, ℤ, ◌+ℤ◌}
use postgres_vectorization_t.Tupmacs.{Tupmacs}
use postgres_vectorization_t.Types.{Attribute}

-- The length of a value: the attribute's, or for a value of varying length its first byte.
abbrev sized : ℤ → Bytes → ℕ
sized (pos (suc k)) b = suc k
sized _ [] = 0
sized _ (x ∷ b) = x

-- The offset behind a value.
abbrev extend : ℕ → ℤ → Bytes → ℕ
extend zero l b = sized l b
extend (suc n) l b = suc n + sized l b

pub extend_add : (n : ℕ) (l : ℤ) (b : Bytes) → extend n l b ≡ n + extend 0 l b
extend_add zero l b = omega arith
extend_add (suc n) l b = refl

-- Alignment `i` is 4 bytes, every other one byte.
abbrev align : ℕ → ℕ → ℕ
align n c = if c == 105 then (n + 3) / 4 * 4 else n

-- The first `n` bytes, with zeros past the end.
abbrev padded : Bytes → ℕ → Bytes
padded b zero = []
padded [] (suc n) = 0 ∷ padded [] n
padded (x ∷ b) (suc n) = x ∷ padded b n

pub length-padded : (b : Bytes) (n : ℕ) → length (padded b n) ≡ n
length-padded b zero = refl
length-padded [] (suc n) = ap suc (length-padded [] n)
length-padded (x ∷ b) (suc n) = ap suc (length-padded b n)

padded_all : (b : Bytes) → padded b (length b) ≡ b
padded_all [] = refl
padded_all (x ∷ b) = ap (λ t. x ∷ t) (padded_all b)

-- A value of a type: as many bytes as its length says, and of a fixed length if it is passed by
-- value.
pub record IsSized (a : Attribute) (b : Bytes) : Type 0 where
  pub size : sized a.attlen b ≡ length b
  pub nonempty : 0 < length b
  pub short : length b < 2 ^ 30
  pub fixed : a.attbyval ≡ true → ltb_ℤ (pos 0) a.attlen ≡ true

sized-append : (l : ℤ) (b rest : Bytes) → 0 < length b → sized l (b ++ rest) ≡ sized l b
sized-append l [] rest h = absurd (omega (arith, h))
sized-append (pos (suc k)) (x ∷ b) rest h = refl
sized-append (pos zero) (x ∷ b) rest h = refl
sized-append (negsuc k) (x ∷ b) rest h = refl

pub padded-sized : (a : Attribute) (b : Bytes) → IsSized a b → padded b (sized a.attlen b) ≡ b
padded-sized a b h = ap (padded b) h.size ∙ padded_all b

pub sized_whole :
    (a : Attribute) (b rest : Bytes) → IsSized a b → sized a.attlen (b ++ rest) ≡ sized a.attlen b
sized_whole a b rest h = sized-append a.attlen b rest h.nonempty

pub fetched :
    (a : Attribute) (b rest : Bytes)
    → IsSized a b
    → take (sized a.attlen (b ++ rest)) (b ++ rest) ≡ b
fetched a b rest h =
    ap (λ n. take n (b ++ rest)) (sized_whole a b rest h ∙ h.size) ∙ take-length-append b rest

pub align_zero_lem : (c : ℕ) → align 0 c ≡ 0
align_zero_lem c = ground arith

pub align_le_lem : (n c : ℕ) → n ≤ align n c
align_le_lem n c = ground arith

pub align_again_lem : (n c : ℕ) → align (align n c) c ≡ align n c
align_again_lem n c = ground arith

pub align_add_lem : (n m c : ℕ) → align n c ≡ n → align (n + m) c ≡ n + align m c
align_add_lem n m c h = ground arith

pub aligned_short :
    (a : Attribute) (b : Bytes) → IsSized a b → align (extend 0 a.attlen b) a.attalign < 2 ^ 31
aligned_short a b h = ground (arith, h.size, h.short)

abbrev pub macros : Tupmacs
macros = record {
  Datum = Bytes;
  zero_datum = [];
  att_addlength_datum = extend;
  att_addlength_pointer = extend;
  att_align_nominal = align;
  store_att_byval = λ d l. d;
  fetch_att = λ b byval l. take (sized l b) b;
  bytes_at = padded;
  pointer_to = λ b. b;
  IsValueOf = IsSized;
  addlength_datum_add = extend_add;
  addlength_pointer_add = extend_add;
  addlength_fixed = λ k d. refl;
  byval_fixed = λ a d h e. h.fixed e;
  value_short = aligned_short;
  align_zero = align_zero_lem;
  align_le = align_le_lem;
  align_again = align_again_lem;
  align_add = align_add_lem;
  length-bytes_at = length-padded;
  length-store_att_byval = λ a d h e. sym h.size;
  fetch-store_att_byval = λ a d rest h e.
      subst (λ v. take (sized a.attlen (d ++ rest)) (d ++ rest) ≡ d) e (fetched a d rest h);
  fetch-bytes_at = λ a d rest h e.
      subst (λ b. take (sized a.attlen (b ++ rest)) (b ++ rest) ≡ d) (sym (padded-sized a d h))
        (fetched a d rest h);
  addlength-store_att_byval = λ a d rest h e. sized_whole a d rest h;
  addlength-bytes_at = λ a d rest h e.
      subst (λ b. sized a.attlen (b ++ rest) ≡ sized a.attlen d) (sym (padded-sized a d h))
        (sized_whole a d rest h);
  pointer_to-bytes_at = λ a d h e. padded-sized a d h;
}

-- Attributes: a four byte integer, and a value of varying length.
abbrev pub int4_column : Attribute
int4_column = record { attbyval = true; attlen = pos 4; attalign = 105 }

abbrev pub text_column : Attribute
text_column = record { attbyval = false; attlen = negsuc 0; attalign = 99 }

abbrev pub seven : Bytes
seven = 7 ∷ 0 ∷ 0 ∷ 0 ∷ []

abbrev pub nine : Bytes
nine = 9 ∷ 0 ∷ 0 ∷ 0 ∷ []

abbrev pub word : Bytes
word = 3 ∷ 104 ∷ 105 ∷ []

pub seven-IsSized : IsSized int4_column seven
seven-IsSized = record {
  size = refl;
  nonempty = omega arith;
  short = omega arith;
  fixed = λ e. refl;
}

pub nine-IsSized : IsSized int4_column nine
nine-IsSized = record {
  size = refl;
  nonempty = omega arith;
  short = omega arith;
  fixed = λ e. refl;
}

pub word-IsSized : IsSized text_column word
word-IsSized = record {
  size = refl;
  nonempty = omega arith;
  short = omega arith;
  fixed = λ e. absurd (false≢true e);
}

-- Compressors: one that puts a byte in front of a long buffer and declines a short one, and one
-- that copies. The enclave copies too.
abbrev copy_within : Bytes → ℕ → Bytes
copy_within b capacity = if leb (length b) capacity then b else []

copy_within_whole :
    (b : Bytes) (capacity n : ℕ)
    → 0 < length (copy_within b capacity)
    → length b ≤ n
    → (if leb (length (copy_within b capacity)) n then some (copy_within b capacity) else none)
      ≡ some b
copy_within_whole b capacity n h k = elim (Bool-cases (leb (length b) capacity)) [
  | inl e ↦ let fits : leb (length b) n ≡ true = le→leb _ _ k in simp (e, fits)
  | inr e ↦
      let none_written : length (copy_within b capacity) ≡ 0 = simp e in
      absurd (omega (arith, h, none_written))
]

abbrev put_mark : Bytes → Option Bytes
put_mark b = if ltb 2 (length b) then some (0 ∷ b) else none

put_mark-some : (b c : Bytes) → put_mark b ≡ some c → c ≡ 0 ∷ b
put_mark-some b c e = elim (Bool-cases (ltb 2 (length b))) [
  | inl long ↦ let marked : put_mark b ≡ some (0 ∷ b) = rw long in cc
  | inr short ↦ let declined : put_mark b ≡ none = rw short in cc
]

abbrev pub copiers : Libraries
copiers = record {
  pglz_compress = put_mark;
  varsize = λ c. length c;
  pglz_decompress = λ c. drop 1 c;
  lz4_compress_default = copy_within;
  lz4_compress_bound = λ n. n;
  lz4_decompress_safe = λ c n. if leb (length c) n then some c else none;
  maxlen = λ n. n + 1024;
  from_base64 = λ b. none;
  enc_text_compress_n_encrypt = λ b. (pos (16 * length b), b);
  enc_text_decrypt_n_decompress = λ b. (pos (16 * length b), b);
  enc_text_decrypt = λ b capacity. (pos (16 * length b), take capacity b);
  sgx_raises = λ n. ltb 0 n;
}

pub copiers-AreLossless : AreLossless copiers
copiers-AreLossless = record {
  pglz_size = λ b c e. refl;
  pglz_lossless = λ b c e. ap (drop 1) (put_mark-some b c e);
  lz4_lossless = copy_within_whole;
  lz4_within = λ b capacity. copy_within_short b capacity;
  lz4_bound = λ n h. omega arith;
}
  where
    copy_within_short : (b : Bytes) (capacity : ℕ) → length (copy_within b capacity) ≤ capacity
    copy_within_short b capacity = elim (Bool-cases (leb (length b) capacity)) [
      | inl e ↦ rw e (leb→le _ _ e)
      | inr e ↦ rw e (omega arith)
    ]

-- A datum's first byte as its number.
abbrev number : Bytes → ℤ
number [] = pos 0
number (x ∷ b) = pos (x % 2 ^ 31)

pub number-IsInt32 : (b : Bytes) → IsInt32 (number b)
number-IsInt32 [] = ground arith
number-IsInt32 (x ∷ b) = ground arith

abbrev pub numbers : Numbers Bytes
numbers = record {
  Numeric = ℤ;
  Float4 = ℕ;
  Float8 = ℕ;
  datum_get_int32 = number;
  datum_get_int64 = number;
  datum_get_float4 = λ b. length b;
  datum_get_float8 = λ b. length b;
  int8_numeric = λ z. z;
  numeric_add = ◌+ℤ◌;
  numeric_inc = λ z. z +ℤ pos 1;
  float4_zero = 0;
  float8_zero = 0;
  float8_one = 1;
  add_float4 = ◌+◌;
  add_float8 = ◌+◌;
  float4_to_float8 = λ x. x;
  int32_bounds = number-IsInt32;
}
