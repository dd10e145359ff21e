-- ===== src/Uint128/Product.antt =====
-- Multiplication: by a word it is exact or panics. The full product is exact where it fits, and
-- where it does not fit its test for an overflow can miss the carry of the first addition.
use still_blockchain.Base.{
  ◌⊎◌, inl, inr, Bool-cases, ◌==◌, ==_iff, ap, ℕ, ◌+◌, ◌-◌, ◌*◌, ◌^◌, ◌<◌, ◌≤◌, ◌≡◌, arith,
}
use still_blockchain.Base.Bytes.{IsU64}
use still_blockchain.Base.Result.{Returns}
use native.Mathlib.Nat.{mul-le-mul}
use still_blockchain.Uint128.{Uint128, from64, word, mul, mul64}
use still_blockchain.Uint128.Value.{to_ℕ, IsValid}
use still_blockchain.Uint128.Sum.{Exact}

-- `Mul64` of a valid value and a word is exact where the product is a 128-bit number, and panics
-- where it is not.
pub mul64-Exact : (u : Uint128) (v : ℕ) → IsValid u → IsU64 v → Exact (to_ℕ u * v) (mul64 u v)
unfolding mul64
mul64-Exact u v hu hv = ground arith

product_parts :
    (u v : Uint128)
    → to_ℕ u * to_ℕ v
      ≡ u.hi * v.hi * (word * word) + (u.hi * v.lo + u.lo * v.hi) * word + u.lo * v.lo
product_parts u v = omega arith

-- One of the high words is 0, so one of the two cross products is all there is.
one_high : (u v : Uint128) → to_ℕ u * to_ℕ v < 2 ^ 128 → (u.hi ≡ 0) ⊎ (v.hi ≡ 0)
one_high u v fits = elim (Bool-cases (u.hi == 0)) [
  | inl z ↦ inl (omega (arith, (==_iff u.hi 0).0 z))
  | inr nz ↦ inr (grind (arith, product_parts u v))
]

-- The product of two valid values is exact where it is a 128-bit number.
pub mul_exact :
    (u v : Uint128)
    → IsValid u
    → IsValid v
    → to_ℕ u * to_ℕ v < 2 ^ 128
    → Returns (λ w. IsValid w × (to_ℕ w ≡ to_ℕ u * to_ℕ v)) (mul u v)
unfolding mul
mul_exact u v hu hv fits = elim (one_high u v fits) [
  | inl z ↦
      ground (arith, product_parts u v, ap (λ (t : ℕ). t * v.lo) z, ap (λ (t : ℕ). t * v.hi) z)
  | inr z ↦
      ground (arith, product_parts u v, ap (λ (t : ℕ). u.lo * t) z, ap (λ (t : ℕ). u.hi * t) z)
]

word_product : (a b : ℕ) → IsU64 a → IsU64 b → a * b ≤ (word - 1) * (word - 1)
word_product a b ha hb =
    mul-le-mul {n₁ = a} {m₁ = b} {n₂ = word - 1} {m₂ = word - 1} (omega arith) (omega arith)

-- For a valid value and a word `w` whose product with the high word is a word, a product of 2 ^
-- 128 or more is returned as a smaller number, with no panic.
pub mul_overflow_missed :
    (u : Uint128) (w : ℕ)
    → IsValid u
    → IsU64 w
    → u.hi * w < word
    → 2 ^ 128 ≤ to_ℕ u * w
    → Returns (λ p. to_ℕ p < to_ℕ u * w) (mul u (from64 w))
unfolding mul from64
mul_overflow_missed u w hu hw part over =
    ground (arith, product_parts u (record { lo = w; hi = 0 }), word_product u.lo w hu.lo_fits hw)
