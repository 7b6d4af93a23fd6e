-- ===== src/Rows/Counts.antt =====
-- How many of `n` rows stand in block `b`, where the blocks take `size` rows each.
use Prim.Native.Nat.{min}
use mathlib.Core.Bool.{false≢true}
use mathlib.Core.Path.{ap₂}
use native.Mathlib.Nat.{div-add-mod}
use postgres_vectorization_t.Prelude.{
  ==_iff, Bool-cases, ap, arith, if◌then◌else◌, inl, inr, ltb, ltb→lt, suc, sym, ℕ, ◌%◌, ◌*◌, ◌+◌,
  ◌-◌, ◌/◌, ◌<◌, ◌==◌, ◌∙◌, ◌≡◌, ◌≢◌, ◌≤◌, ◌⊎◌,
}

unfoldable pub block_rows : ℕ → ℕ → ℕ → ℕ
block_rows n size b = min (n - b * size) size

pub block_rows-le : (n size b : ℕ) → block_rows n size b ≤ size
unfolding block_rows
block_rows-le n size b = omega arith

pub block_rows-zero : (size b : ℕ) → block_rows 0 size b ≡ 0
unfolding block_rows
block_rows-zero size b = omega arith

quotient_remainder : (n size : ℕ) → n / size * size + n % size ≡ n
quotient_remainder n size = grind (arith, div-add-mod n size)

-- Two rows of one block and one place in it are one row.
pub same_place : (i n size : ℕ) → i / size ≡ n / size → i % size ≡ n % size → i ≡ n
same_place i n size p q =
    sym (quotient_remainder i size) ∙ ap₂ (λ x y. x * size + y) p q ∙ quotient_remainder n size

product_le : (a b size : ℕ) → a ≤ b → a * size ≤ b * size
product_le a b size h = grind arith

suc_product : (a size : ℕ) → suc a * size ≡ a * size + size
suc_product a size = grind arith

-- A lower block ends where the higher one begins, or before.
next_block : (a b size : ℕ) → a < b → a * size + size ≤ b * size
next_block a b size h = omega (arith, product_le (suc a) b size h, suc_product a size)

-- One more row is one more in the block that it falls in, and none in any other.
pub block_rows-suc :
    (n size b : ℕ)
    → 0 < size
    → block_rows (n + 1) size b
      ≡ (if n / size == b then block_rows n size b + 1 else block_rows n size b)
unfolding block_rows
block_rows-suc n size b h =
    let whole = quotient_remainder n size in
    let small : n % size < size = omega arith in
    let q = n / size in
    elim (Bool-cases (n / size == b)) [
      | inl e ↦
          let same : n / size ≡ b = (==_iff _ _).0 e in
          let at : b * size + n % size ≡ n = ap (λ k. k * size + n % size) (sym same) ∙ whole in
          rw e (omega (arith, at, small))
      | inr e ↦
          let differ : n / size ≢ b = λ p. false≢true (sym e ∙ (==_iff _ _).1 p) in
          let either : (n + 1 ≤ b * size) ⊎ (b * size + size ≤ n) =
            elim (Bool-cases (ltb (n / size) b)) [
              | inl lt ↦ inl (omega (arith, whole, small, next_block q b size (ltb→lt _ _ lt)))
              | inr no_lt ↦ inr (omega (arith, whole, next_block b q size (ground (arith, differ))))
            ] in
          rw e (omega (arith, either))
    ]

-- A row's place in its block is one of those that the block holds.
pub place-lt-block_rows :
    (i n size : ℕ) → 0 < size → i < n → i % size < block_rows n size (i / size)
unfolding block_rows
place-lt-block_rows i n size h p = omega (arith, quotient_remainder i size)

-- The block of a row is no later than that of a later row.
pub block_of_mono : (i n size : ℕ) → 0 < size → i ≤ n → i / size ≤ n / size
block_of_mono i n size h p = elim (Bool-cases (ltb (n / size) (i / size))) [
  | inl lt ↦
      let small : n % size < size = omega arith in
      absurd (
        omega (
          arith,
          quotient_remainder i size,
          quotient_remainder n size,
          small,
          next_block (n / size) (i / size) size (ltb→lt _ _ lt),
        ))
  | inr no_lt ↦ ground arith
]
