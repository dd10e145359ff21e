-- ===== src/Difficulty/Laws.antt =====
-- The difficulty as a formula on numbers.
use Prim.Native.Nat.{max}
use still_blockchain.Base.{
  ℕ, ◌+◌, ◌*◌, ◌/◌, ◌%◌, ◌^◌, ◌≡◌, ◌<◌, arith, ◌≤◌, ◌-◌, ◌∙◌, ap, if◌then◌else◌, ltb,
}
use still_blockchain.Base.Result.{Result, Returns, ok, err, panic, ◌>>=◌}
use still_blockchain.Uint128.{Uint128, from64, mul64, div64}
use still_blockchain.Uint128.Value.{to_ℕ, IsValid}
use still_blockchain.Uint128.Order.{cmp64-compare}
use still_blockchain.Uint128.Sum.{Exact}
use still_blockchain.Uint128.Product.{mul64-Exact}
use still_blockchain.Uint128.Quotient.{div64_exact}
use still_blockchain.Difficulty.{u64, difficulty_ema, at_least_min, next_difficulty, lttc}

-- The value that a call returns stands for `n`.
abbrev pub Is : ℕ → Result Uint128 → Type 0
Is n r = Returns (λ q. IsValid q × (to_ℕ q ≡ n)) r

-- The moving average in plain arithmetic: 240 blocks of 15 seconds.
pub difficulty_ema-Is :
    (solve : ℕ) (prev : Uint128)
    → IsValid prev
    → to_ℕ prev * 3_600_000 < 2 ^ 128
    → solve < 2 ^ 63
    → Is (to_ℕ prev * 3_600_000 / (3_585_000 + solve)) (difficulty_ema solve prev)
unfolding difficulty_ema
difficulty_ema-Is solve prev valid fits small =
    finish (mul64 prev 3_600_000) (mul64-Exact prev 3_600_000 valid (omega arith))
  where
    finish :
        (m : Result Uint128)
        → Exact (to_ℕ prev * 3_600_000) m
        → Is
            (to_ℕ prev * 3_600_000 / (3_585_000 + solve))
            (m >>= λ num. div64 num ((3_585_000 + solve) % u64))
    finish (ok num) (v, e) =
        let den : (3_585_000 + solve) % u64 ≡ 3_585_000 + solve = omega arith in
        rw (den, ← e) (div64_exact num (3_585_000 + solve) v (omega arith) (omega arith))
    finish (err x) h = absurd h
    finish panic h = absurd (omega arith)

at_least_min-max :
    (d : Uint128)
    → IsValid d
    → IsValid (at_least_min d) × (to_ℕ (at_least_min d) ≡ max 1000 (to_ℕ d))
unfolding at_least_min from64
at_least_min-max d v = ground (arith, cmp64-compare d 1000 v (omega arith))

-- With the configured genesis time of 0 no deviation is looked at.
lttc_off : (height timestamp delta : ℕ) → lttc 0 height timestamp delta ≡ delta
unfolding lttc
lttc_off height timestamp delta = ground arith

-- At a height of 2 or more: the moving average over a time of at least 100 milliseconds, and never
-- below the minimum.
pub next_difficulty-Is :
    (height timestamp prev : ℕ) (d : Uint128)
    → IsValid d
    → to_ℕ d * 3_600_000 < 2 ^ 128
    → prev ≤ timestamp
    → timestamp < 2 ^ 63
    → Is
        (max 1000 (to_ℕ d * 3_600_000 / (3_585_000 + max 100 (timestamp - prev))))
        (next_difficulty height timestamp d prev)
unfolding next_difficulty
next_difficulty-Is height timestamp prev d valid fits le small =
    let raw : (timestamp + u64 - prev) % u64 ≡ timestamp - prev = omega arith in
    let delta : (if ltb (timestamp - prev) 100 then 100 else timestamp - prev)
        ≡ max 100 (timestamp - prev) =
      ground arith in
    rw (raw, delta, lttc_off height timestamp (max 100 (timestamp - prev)))
      (finish (difficulty_ema (max 100 (timestamp - prev)) d)
        (difficulty_ema-Is (max 100 (timestamp - prev)) d valid fits (omega arith)))
  where
    finish :
        (m : Result Uint128)
        → Is (to_ℕ d * 3_600_000 / (3_585_000 + max 100 (timestamp - prev))) m
        → Is
            (max 1000 (to_ℕ d * 3_600_000 / (3_585_000 + max 100 (timestamp - prev))))
            (m >>= λ q. ok (at_least_min q))
    finish (ok q) (v, e) = let (v', e') = at_least_min-max q v in (v', e' ∙ ap (max 1000) e)
    finish (err x) h = elim h [ ]
    finish panic h = elim h [ ]
