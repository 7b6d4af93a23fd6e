-- ===== src/Aggregates/Int64.antt =====
-- `int64` arithmetic: an integer, wrapped around to 64 bits after each addition.
use postgres_vectorization_t.Prelude.{
  arith, if◌then◌else◌, ltb, true, ℕ, ◌%◌, ◌+◌, ◌-◌, ◌<◌, ◌^◌, ◌≡◌, ◌≤◌,
}
use postgres_vectorization_t.Prelude.Int.{ltb_ℤ, neg_part, negsuc, pos, pos_part, ℤ, ◌+ℤ◌, ◌≤ℤ◌}

-- The integer that a pattern of 64 bits stands for.
abbrev signed64 : ℕ → ℤ
signed64 w = if ltb w (2 ^ 63) then pos w else negsuc (2 ^ 64 - w - 1)

abbrev wrap64 : ℤ → ℤ
wrap64 z = signed64 ((pos_part z + (2 ^ 64 - neg_part z % 2 ^ 64)) % 2 ^ 64)

unfoldable pub add64 : ℤ → ℤ → ℤ
unfolding ◌+ℤ◌
add64 a b = wrap64 (a +ℤ b)

abbrev pub IsInt64 : ℤ → Type 0
IsInt64 z = (pos_part z < 2 ^ 63) × (neg_part z ≤ 2 ^ 63)

abbrev pub IsInt32 : ℤ → Type 0
IsInt32 z = (pos_part z < 2 ^ 31) × (neg_part z ≤ 2 ^ 31)

-- A sum within range is the sum.
pub add64_exact : (a b : ℤ) → IsInt64 (a +ℤ b) → add64 a b ≡ a +ℤ b
unfolding add64 ◌+ℤ◌
add64_exact a b h = ground arith

-- One past the range wraps to the other end.
pub add64_wraps :
    (a : ℤ) (n : ℕ)
    → IsInt64 a
    → n < 2 ^ 32
    → pos (2 ^ 63) ≤ℤ a +ℤ pos n
    → ltb_ℤ (add64 a (pos n)) a ≡ true
unfolding add64 ◌+ℤ◌
add64_wraps a n h k over = ground arith
