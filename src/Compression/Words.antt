-- ===== src/Compression/Words.antt =====
-- Little-endian words, as the compiler lays a `size_t` out on the platforms that the extension is
-- built for.
use postgres_vectorization_t.Prelude.{
  Bytes, [], ap, arith, length, refl, suc, zero, ℕ, ◌%◌, ◌*◌, ◌++◌, ◌+◌, ◌/◌, ◌<◌, ◌∷◌, ◌≡◌,
}

unfoldable pub le_bytes : ℕ → ℕ → Bytes
le_bytes zero n = []
le_bytes (suc k) n = n % 256 ∷ le_bytes k (n / 256)

-- The word of the first so many bytes; what is missing counts as zero.
unfoldable pub le_value : ℕ → Bytes → ℕ
le_value zero b = 0
le_value (suc k) [] = 0
le_value (suc k) (x ∷ b) = x + 256 * le_value k b

-- 256 to the k.
abbrev pub le_bound : ℕ → ℕ
le_bound zero = 1
le_bound (suc k) = 256 * le_bound k

pub le_value-le_bytes :
    (k n : ℕ) (rest : Bytes) → n < le_bound k → le_value k (le_bytes k n ++ rest) ≡ n
unfolding le_value le_bytes
le_value-le_bytes zero n rest h = omega arith
le_value-le_bytes (suc k) n rest h = omega (arith, le_value-le_bytes k (n / 256) rest (omega arith))

pub length-le_bytes : (k n : ℕ) → length (le_bytes k n) ≡ k
unfolding le_bytes
length-le_bytes zero n = refl
length-le_bytes (suc k) n = ap suc (length-le_bytes k (n / 256))
