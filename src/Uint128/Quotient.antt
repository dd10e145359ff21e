-- ===== src/Uint128/Quotient.antt =====
-- Division by a word.
use still_blockchain.Base.{ℕ, ◌+◌, ◌*◌, ◌%◌, ◌/◌, ◌<◌, ◌≡◌, arith}
use still_blockchain.Base.Bytes.{IsU64}
use still_blockchain.Base.Result.{Result, Returns, ok, err, panic, ◌>>=◌}
use still_blockchain.Uint128.{Uint128, word, quo_rem64, div64}
use still_blockchain.Uint128.Value.{to_ℕ, IsValid}
use native.Mathlib.Nat.{div-add-mod, div-add-mod', mod-lt, div-le_self}

-- A quotient is below a bound that times the divisor is above the number.
pub div-lt_of_lt_mul : (n v b : ℕ) → n < v * b → n / v < b
div-lt_of_lt_mul n v b h = grind (arith, div-add-mod n v)

-- One step of long division: the digit is a word, and it is the exact quotient.
digit_exact :
    (h l v : ℕ)
    → h < v
    → IsU64 l
    → ((h * word + l) / v < word)
      × ((h * word + l) / v * v + (h * word + l) % v ≡ h * word + l)
      × ((h * word + l) % v < v)
digit_exact h l v lt hl = (
  div-lt_of_lt_mul (h * word + l) v word (omega arith),
  div-add-mod' (h * word + l) v,
  mod-lt (h * word + l) {m = v} (omega arith),
)

-- Division of a valid value by a positive word gives the quotient and the remainder of the
-- numbers.
pub quo_rem64_exact :
    (u : Uint128) (v : ℕ)
    → IsValid u
    → IsU64 v
    → 0 < v
    → Returns (λ p. IsValid p.0 × (to_ℕ p.0 * v + p.1 ≡ to_ℕ u) × (p.1 < v)) (quo_rem64 u v)
unfolding quo_rem64
quo_rem64_exact u v hu hv pos = ground (
  arith,
  digit_exact u.hi u.lo v,
  digit_exact (u.hi % v) u.lo v,
  div-add-mod' u.hi v,
  mod-lt u.hi {m = v} pos,
  div-le_self u.hi v,
)

pub quo_rem64_zero : (u : Uint128) → quo_rem64 u 0 ≡ panic
unfolding quo_rem64
quo_rem64_zero u = ground arith

-- The quotient and remainder of a division with remainder are the only ones.
pub div_unique : (n v q r : ℕ) → q * v + r ≡ n → r < v → q ≡ n / v
div_unique n v q r e lt = grind (arith, div-add-mod' n v, mod-lt n {m = v} (omega arith))

-- Division of a valid value by a positive word is the quotient of the numbers, rounded down.
pub div64_exact :
    (u : Uint128) (v : ℕ)
    → IsValid u
    → IsU64 v
    → 0 < v
    → Returns (λ q. IsValid q × (to_ℕ q ≡ to_ℕ u / v)) (div64 u v)
unfolding div64
div64_exact u v hu hv pos = finish (quo_rem64 u v) (quo_rem64_exact u v hu hv pos)
  where
    finish :
        (m : Result (Uint128 × ℕ))
        → Returns (λ p. IsValid p.0 × (to_ℕ p.0 * v + p.1 ≡ to_ℕ u) × (p.1 < v)) m
        → Returns (λ q. IsValid q × (to_ℕ q ≡ to_ℕ u / v)) (m >>= λ p. ok p.0)
    finish (ok (q, r)) (valid, e, lt) = (valid, div_unique (to_ℕ u) v (to_ℕ q) r e lt)
    finish (err e) h = elim h [ ]
    finish panic h = elim h [ ]
