-- ===== src/Mining/Targets/RoundTrip.antt =====
-- The difficulty that a miner reads off a target.
use Prim.Native.Nat.{◌<◌, ◌≤◌}
use native.Mathlib.Nat.{
  mul-div-le, le-div_iff_mul-le, div-eq_of_lt-le, lt-mul-div-succ, mul-le-mul_left,
}
use still_blockchain.Base.{ℕ, ◌*◌, ◌-◌, ◌/◌, ◌^◌, ◌≡◌, arith, subst, sym, ◌∙◌, ◌==◌, false}
use still_blockchain.Base.Bytes.{IsU64, length-le_bytes, le_value-le_bytes}
use still_blockchain.Base.Result.{Result, ok, err, panic, ◌>>=◌, Returns}
use still_blockchain.Uint128.{Uint128, div64}
use still_blockchain.Uint128.Quotient.{div64_exact}
use still_blockchain.Uint128.Value.{to_ℕ, IsValid}
use still_blockchain.Mining.Targets.{
  get_target, get_target_bytes, byte_target_to_diff, target_to_diff64,
}

-- Dividing `m` by `m / n` gives back `n` or more, and `n` itself where its square is at most `m`.
divided_twice :
    (m n : ℕ) → 0 < n → n ≤ m → (0 < m / n) × (n ≤ m / (m / n)) × (n * n ≤ m → m / (m / n) ≡ n)
divided_twice m n pos h =
    let some : 0 < m / n = (le-div_iff_mul-le {k = n} {x = 1} {y = m} pos).1 (omega arith) in
    (
      some,
      (le-div_iff_mul-le {k = m / n} {x = n} {y = m} some).1 (mul-div-le m n),
      λ square.
          let above : n ≤ m / n = (le-div_iff_mul-le {k = n} {x = n} {y = m} pos).1 square in
          div-eq_of_lt-le (m / n) (mul-div-le m n) (omega (arith, lt-mul-div-succ m pos)),
    )

square_fits : (n : ℕ) → n < 2 ^ 32 → n * n ≤ 2 ^ 64 - 1
square_fits n h =
    let once : n * n ≤ n * (2 ^ 32 - 1) = mul-le-mul_left n (omega arith) in omega arith

IsDiff : ℕ → Uint128 → Type 0
IsDiff n d = IsValid d × (n ≤ to_ℕ d) × (n < 2 ^ 32 → to_ℕ d ≡ n)

target_to_diff64-Is :
    (n : ℕ) → 0 < n → IsU64 n → Returns (IsDiff n) (target_to_diff64 ((2 ^ 64 - 1) / n))
unfolding target_to_diff64 IsDiff
target_to_diff64-Is n pos fits =
    let (some, least, exact) = divided_twice (2 ^ 64 - 1) n pos (omega arith) in
    let top : Uint128 = record { lo = 2 ^ 64 - 1; hi = 0 } in
    let top-IsValid : IsValid top = record { lo_fits = omega arith; hi_fits = omega arith } in
    quotient (div64 top ((2 ^ 64 - 1) / n))
      (div64_exact top ((2 ^ 64 - 1) / n) top-IsValid (omega arith) some) least exact
  where
    quotient :
        (r : Result Uint128)
        → Returns (λ q. IsValid q × (to_ℕ q ≡ (2 ^ 64 - 1) / ((2 ^ 64 - 1) / n))) r
        → n ≤ (2 ^ 64 - 1) / ((2 ^ 64 - 1) / n)
        → (n * n ≤ 2 ^ 64 - 1 → (2 ^ 64 - 1) / ((2 ^ 64 - 1) / n) ≡ n)
        → Returns (IsDiff n) r
    quotient (ok q) (valid, is) least exact =
        (valid, omega arith, λ small. is ∙ exact (square_fits n small))
    quotient (err e) h least exact = elim h [ ]
    quotient panic h least exact = elim h [ ]

target_bytes :
    (n : Uint128)
    → 0 < n.lo
    → IsU64 n.lo
    → (get_target_bytes n >>= byte_target_to_diff) ≡ target_to_diff64 ((2 ^ 64 - 1) / n.lo)
unfolding get_target_bytes byte_target_to_diff get_target
target_bytes n pos fits =
    let q = (2 ^ 64 - 1) / n.lo in
    let nonzero : (n.lo == 0) ≡ false = ground arith in
    let small : q < 256 ^ 8 = omega arith in
    rw (nonzero, length-le_bytes 8 q, le_value-le_bytes 8 q small)

-- The difficulty that a miner reads off the target of a block whose difficulty is a positive word is
-- never less than that difficulty, and is that difficulty below 2 ^ 32.
pub byte_target_to_diff-get_target_bytes :
    (n : Uint128)
    → 0 < n.lo
    → IsU64 n.lo
    → Returns
        (λ d. IsValid d × (n.lo ≤ to_ℕ d) × (n.lo < 2 ^ 32 → to_ℕ d ≡ n.lo))
        (get_target_bytes n >>= byte_target_to_diff)
unfolding IsDiff
byte_target_to_diff-get_target_bytes n pos fits =
    subst (Returns (IsDiff n.lo)) (sym (target_bytes n pos fits))
      (target_to_diff64-Is n.lo pos fits)
