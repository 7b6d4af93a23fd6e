-- ===== src/Bools/Bits.antt =====
-- Setting one bit of a buffer and reading another, by a table over the bytes.
use Prim.Native.Nat.{bit_and, bit_or}
use postgres_vectorization_t.Bools.{get_bit, set_bit}
use postgres_vectorization_t.Prelude.{
  All, Bool, Bool-cases, Bytes, [], arith, false, get_or, if◌then◌else◌, inl, inr, length,
  length-set, ltb, ltb→lt, not, refl, set, suc, true, zero, ℕ, ◌%◌, ◌&&◌, ◌/◌, ◌<◌, ◌==◌, ◌^◌, ◌∷◌,
  ◌≡◌,
}

-- Whether a test succeeds for every number below a bound.
holds_below : (ℕ → Bool) → ℕ → Bool
holds_below test zero = true
holds_below test (suc bound) = holds_below test bound && test bound

holds_below_each :
    (test : ℕ → Bool) (bound : ℕ)
    → holds_below test bound ≡ true
    → (k : ℕ) → k < bound
    → test k ≡ true
unfolding holds_below
holds_below_each test zero h k lt = elim lt [ ]
holds_below_each test (suc bound) h k lt = ground (arith, holds_below_each test bound _ k)

abbrev same : Bool → Bool → Bool
same true b = b
same false b = not b

same→eq : (a b : Bool) → same a b ≡ true → a ≡ b
same→eq true true h = refl
same→eq true false h = cc
same→eq false true h = cc
same→eq false false h = refl

abbrev has_bit : ℕ → ℕ → Bool
has_bit b m = if bit_and b (2 ^ m) == 0 then false else true

&&_parts : (a b : Bool) → (a && b) ≡ true → (a ≡ true) × (b ≡ true)
&&_parts a b h = ground arith

-- Bit `m` of the byte `b` with bit `k` set.
abbrev or_case : ℕ → ℕ → ℕ → Bool
or_case b k m =
    ltb (bit_or b (2 ^ k)) 256
    && same (has_bit (bit_or b (2 ^ k)) m) (if k == m then true else has_bit b m)

or_table : holds_below (λ b. holds_below (λ k. holds_below (λ m. or_case b k m) 8) 8) 256 ≡ true
unfolding holds_below
or_table = refl

or_case_holds : (b k m : ℕ) → b < 256 → k < 8 → m < 8 → or_case b k m ≡ true
or_case_holds b k m hb hk hm =
    let whole =
      holds_below_each (λ b. holds_below (λ k. holds_below (λ m. or_case b k m) 8) 8) 256 or_table b
        hb in
    let row = holds_below_each (λ k. holds_below (λ m. or_case b k m) 8) 8 whole k hk in
    holds_below_each (λ m. or_case b k m) 8 row m hm

pub has_bit-or :
    (b k m : ℕ)
    → b < 256
    → k < 8
    → m < 8
    → (bit_or b (2 ^ k) < 256)
      × (has_bit (bit_or b (2 ^ k)) m ≡ (if k == m then true else has_bit b m))
has_bit-or b k m hb hk hm =
    let h = or_case_holds b k m hb hk hm in
    let both = &&_parts _ _ h in (ltb→lt _ _ both.0, same→eq _ _ both.1)

-- Every element of the buffer is a byte.
abbrev pub IsByteList : Bytes → Type 0
IsByteList buf = All (λ (b : ℕ). b < 256) buf

pub get_or-set :
    (buf : Bytes) (i j v : ℕ)
    → i < length buf
    → get_or (set buf i v) j 0 ≡ (if i == j then v else get_or buf j 0)
get_or-set [] i j v h = elim h [ ]
get_or-set (x ∷ buf) zero zero v h = refl
get_or-set (x ∷ buf) zero (suc j) v h = ground arith
get_or-set (x ∷ buf) (suc i) zero v h = ground arith
get_or-set (x ∷ buf) (suc i) (suc j) v h = ground (arith, get_or-set buf i j v)

get_or_byte : (buf : Bytes) (i : ℕ) → IsByteList buf → get_or buf i 0 < 256
get_or_byte [] i h = omega arith
get_or_byte (x ∷ buf) zero h = h.0
get_or_byte (x ∷ buf) (suc i) h = get_or_byte buf i h.1

set-IsByteList : (buf : Bytes) (i v : ℕ) → IsByteList buf → v < 256 → IsByteList (set buf i v)
set-IsByteList [] i v h hv = tt
set-IsByteList (x ∷ buf) zero v h hv = (hv, h.1)
set-IsByteList (x ∷ buf) (suc i) v h hv = (h.0, set-IsByteList buf i v h.1 hv)

pub set_bit-IsByteList : (buf : Bytes) (i : ℕ) → IsByteList buf → IsByteList (set_bit buf i)
unfolding set_bit
set_bit-IsByteList buf i h =
    set-IsByteList buf (i / 8) _ h
      (has_bit-or (get_or buf (i / 8) 0) (i % 8) 0 (get_or_byte buf (i / 8) h) (omega arith)
        (omega arith)).0

pub length-set_bit : (buf : Bytes) (i : ℕ) → length (set_bit buf i) ≡ length buf
unfolding set_bit
length-set_bit buf i = length-set buf (i / 8) _

-- Setting bit `i` sets that bit and no other.
pub get_bit-set_bit :
    (buf : Bytes) (i j : ℕ)
    → IsByteList buf
    → i / 8 < length buf
    → get_bit (set_bit buf i) j ≡ (if i == j then true else get_bit buf j)
unfolding set_bit get_bit
get_bit-set_bit buf i j h inside =
    let byte = get_or buf (i / 8) 0 in
    let placed = get_or-set buf (i / 8) (j / 8) (bit_or byte (2 ^ (i % 8))) inside in
    let masked =
      (has_bit-or byte (i % 8) (j % 8) (get_or_byte buf (i / 8) h) (omega arith) (omega arith)).1 in
    elim (Bool-cases (i / 8 == j / 8)) [
      | inl e ↦
          let q : i / 8 ≡ j / 8 = ground arith in
          let p : (i % 8 == j % 8) ≡ (i == j) = ground arith in rw (placed, e, masked, p, q)
      | inr e ↦ let p : (i == j) ≡ false = ground arith in rw (placed, e, p)
    ]
