-- ===== src/Bools/RoundTrip.antt =====
-- The reader's unpacking of a Boolean array undoes the writer's packing.
use Prim.Native.Nat.{bit_and, bit_and-bitwise}
use mathlib.Core.Path.{ap₂}
use postgres_vectorization_t.Bools.{
  deserialize_bool_array, get_bit, pack_loop, serialize_bool_array, set_bit, unpack_loop,
}
use postgres_vectorization_t.Bools.Bits.{
  IsByteList, get_bit-set_bit, length-set_bit, set_bit-IsByteList,
}
use postgres_vectorization_t.Prelude.{
  Bool, Bytes, List, [], ap, arith, false, get_or, if◌then◌else◌, length, length-replicate, ltb,
  refl, replicate, suc, take, true, uint32, zero, ℕ, ◌*◌, ◌+◌, ◌-◌, ◌/◌, ◌<◌, ◌==◌, ◌^◌, ◌∙◌, ◌∷◌,
  ◌≡◌, ◌≤◌,
}
use postgres_vectorization_t.Report.{ok}

-- What the writer's loop leaves in the buffer: the bits below `i` as they were, and from there on
-- the Booleans of the array.
record Packed (n i : ℕ) (bs : List Bool) (buf out : Bytes) : Type 0 where
  same_length : length out ≡ length buf
  bytes : IsByteList out
  below : (j : ℕ) → j < i → get_bit out j ≡ get_bit buf j
  above : (j : ℕ) → j < n → get_bit out (i + j) ≡ get_or bs j false

-- One round: the bit at `i`, then the rest of the loop.
Packed-suc :
    (n i : ℕ) (b : Bool) (bs : List Bool) (buf buf' out : Bytes)
    → length buf' ≡ length buf
    → ((j : ℕ) → j < i → get_bit buf' j ≡ get_bit buf j)
    → get_bit buf' i ≡ b
    → Packed n (i + 1) bs buf' out
    → Packed (suc n) i (b ∷ bs) buf out
Packed-suc n i b bs buf buf' out same old here p = record {
  same_length = p.same_length ∙ same;
  bytes = p.bytes;
  below = λ j h. p.below j (omega arith) ∙ old j h;
  above = λ j h. shifted j h;
}
  where
    shifted : (j : ℕ) → j < suc n → get_bit out (i + j) ≡ get_or (b ∷ bs) j false
    shifted zero h = ap (get_bit out) (omega arith) ∙ p.below i (omega arith) ∙ here
    shifted (suc j) h = ap (get_bit out) (omega arith) ∙ p.above j (omega arith)

-- The bits from `i` on are clear.
abbrev IsClear : ℕ → Bytes → Type 0
IsClear i buf = (j : ℕ) → i ≤ j → get_bit buf j ≡ false

pack_loop_lem :
    (n i : ℕ) (bs : List Bool) (buf : Bytes)
    → n ≤ length bs
    → i + n ≤ length buf * 8
    → IsByteList buf
    → IsClear i buf
    → (out : Bytes) × (pack_loop n i bs buf ≡ ok out) × Packed n i bs buf out
unfolding pack_loop
pack_loop_lem zero i bs buf hn hi hb hc = (
  buf,
  refl,
  record { same_length = refl; bytes = hb; below = λ j h. refl; above = λ j h. elim h [ ] },
)
pack_loop_lem (suc n) i [] buf hn hi hb hc = absurd (omega arith)
pack_loop_lem (suc n) i (false ∷ bs) buf hn hi hb hc =
    let (out, e, p) =
      pack_loop_lem n (i + 1) bs buf (omega arith) (omega arith) hb (λ j h. hc j (omega arith)) in
    (out, e, Packed-suc n i false bs buf buf out refl (λ j h. refl) (hc i (omega arith)) p)
pack_loop_lem (suc n) i (true ∷ bs) buf hn hi hb hc =
    let marked : (j : ℕ) → get_bit (set_bit buf i) j ≡ (if i == j then true else get_bit buf j) =
      λ j. get_bit-set_bit buf i j hb (omega arith) in
    let same = length-set_bit buf i in
    let (out, e, p) =
      pack_loop_lem n (i + 1) bs (set_bit buf i) (omega arith) (omega (arith, same))
        (set_bit-IsByteList buf i hb) (λ j h. ground (arith, marked j, hc j (omega arith))) in
    (
      out,
      e,
      Packed-suc n i true bs buf (set_bit buf i) out same (λ j h. ground (arith, marked j))
          (ground (arith, marked i)) p,
    )

unpack_loop_lem :
    (n i : ℕ) (bs : List Bool) (buf : Bytes)
    → n ≤ length bs
    → ((j : ℕ) → j < n → get_bit buf (i + j) ≡ get_or bs j false)
    → unpack_loop n i buf ≡ take n bs
unfolding unpack_loop
unpack_loop_lem zero i bs buf hn h = refl
unpack_loop_lem (suc n) i [] buf hn h = absurd (omega arith)
unpack_loop_lem (suc n) i (b ∷ bs) buf hn h =
    ap₂ (λ x y. x ∷ y) (ap (get_bit buf) (omega arith) ∙ h 0 (omega arith))
      (unpack_loop_lem n (i + 1) bs buf (omega arith)
        (λ j hj. ap (get_bit buf) (omega arith) ∙ h (suc j) (omega arith)))

replicate_zero-IsByteList : (n : ℕ) → IsByteList (replicate n 0)
replicate_zero-IsByteList zero = tt
replicate_zero-IsByteList (suc n) = (omega arith, replicate_zero-IsByteList n)

get_or-replicate_zero : (n i : ℕ) → ◌≡◌ {A = ℕ} (get_or (replicate n 0) i 0) 0
get_or-replicate_zero zero i = refl
get_or-replicate_zero (suc n) zero = refl
get_or-replicate_zero (suc n) (suc i) = get_or-replicate_zero n i

zero-bit_and : (b : ℕ) → bit_and 0 b ≡ 0
zero-bit_and b = bit_and-bitwise 0 b

replicate_zero-IsClear : (n : ℕ) → IsClear 0 (replicate n 0)
unfolding get_bit
replicate_zero-IsClear n j h = rw (get_or-replicate_zero, zero-bit_and)

-- The writer packs the first `n` entries of an array that has as many, into (n + 7) / 8 bytes.
serialize_bool_array_total :
    (bs : List Bool) (n : ℕ)
    → n ≤ length bs
    → n < 2 ^ 32 - 8
    → (out : Bytes) × (serialize_bool_array bs n ≡ ok out)
      × Packed n 0 bs (replicate ((n + 7) / 8) 0) out
unfolding serialize_bool_array
serialize_bool_array_total bs n h small =
    let whole : uint32 (n + 7) ≡ n + 7 = omega arith in
    rw whole (
      pack_loop_lem n 0 bs (replicate ((n + 7) / 8) 0) h
        (omega (arith, length-replicate {A = ℕ} ((n + 7) / 8) 0)) (replicate_zero-IsByteList _)
        (replicate_zero-IsClear _))

-- For every Boolean array with at least `n` entries, and `n` small enough that eight times the
-- number of packed bytes is a `uint32`: packing the first `n` entries succeeds with a buffer of
-- (n + 7) / 8 bytes, each below 256, and unpacking `n` entries from this buffer gives back exactly
-- the first `n` entries of the array.
pub deserialize-serialize_bool_array :
    (bs : List Bool) (n : ℕ)
    → n ≤ length bs
    → n < 2 ^ 32 - 8
    → (out : Bytes) × (serialize_bool_array bs n ≡ ok out)
      × (length out ≡ (n + 7) / 8)
      × IsByteList out
      × (deserialize_bool_array out n ≡ ok (take n bs))
unfolding deserialize_bool_array
deserialize-serialize_bool_array bs n h small =
    let (out, e, p) = serialize_bool_array_total bs n h small in
    let size : length out ≡ (n + 7) / 8 = p.same_length ∙ length-replicate ((n + 7) / 8) _ in
    let enough : ltb (uint32 (length out * 8)) n ≡ false = ground arith in
    (out, e, size, p.bytes, rw enough (ap ok (unpack_loop_lem n 0 bs out h p.above)))
