-- ===== src/Chain/Check/Difficulty.antt =====
-- The difficulty that `GetNextDifficulty` of blockchain/difficulty.go asks for, as a formula on numbers.
use Prim.Native.Nat.{max}
use still_blockchain.Base.{
  ℕ, ◌*◌, ◌+◌, ◌-◌, ◌/◌, ◌^◌, ◌<◌, ◌≤◌, ◌≡◌, Bool, Bool-cases, inl, inr, arith, refl, if◌then◌else◌,
  ltb, subst, sym,
}
use still_blockchain.Base.Result.{ok, Result, ◌>>=◌}
use still_blockchain.Block.{Block, prev_hash}
use still_blockchain.Chain.{Chain, get_block}
use still_blockchain.Chain.Check.{get_next_difficulty}
use still_blockchain.Difficulty.{next_difficulty}
use still_blockchain.Difficulty.Laws.{Is, next_difficulty-Is}
use still_blockchain.Uint128.{Uint128, from64}
use still_blockchain.Uint128.Value.{to_ℕ, IsValid}

-- The formula: the minimum for the first blocks, then a moving average over the time since the block
-- before, 100 milliseconds at least, and never less than the minimum.
unfoldable pub expected : Block → Block → ℕ
expected b prev =
    if ltb b.height 2
    then 1000
    else max 1000
        (to_ℕ b.difficulty * 3_600_000 / (3_585_000 + max 100 (b.timestamp - prev.timestamp)))

-- The difficulty of the block after `b` is the minimum where `b` has a height below 2; otherwise it is
-- the moving average over a time of at least 100 milliseconds, and never below the minimum. From height
-- 2 on the block `prev` before `b` is stored; 3600000 times the difficulty of `b` is a 128-bit number,
-- time does not run backwards from `prev`, and the timestamp is below 2 ^ 63.
pub get_next_difficulty-Is :
    (ch : Chain) (b prev : Block)
    → (2 ≤ b.height → get_block (prev_hash b) ch ≡ ok prev)
    → IsValid b.difficulty
    → to_ℕ b.difficulty * 3_600_000 < 2 ^ 128
    → prev.timestamp ≤ b.timestamp
    → b.timestamp < 2 ^ 63
    → Is (expected b prev) (get_next_difficulty ch b)
unfolding get_next_difficulty expected
get_next_difficulty-Is ch b prev stored valid fits le small =
    let later : Result Uint128 = get_block (prev_hash b) ch >>= λ p.
    next_difficulty b.height b.timestamp b.difficulty p.timestamp in
    let average =
      max 1000
        (to_ℕ b.difficulty * 3_600_000 / (3_585_000 + max 100 (b.timestamp - prev.timestamp))) in
    let after : 2 ≤ b.height → Is average later = λ high.
      subst
        (λ r.
          Is average
            (r >>= λ (p : Block). next_difficulty b.height b.timestamp b.difficulty p.timestamp))
        (sym (stored high))
        (next_difficulty-Is b.height b.timestamp prev.timestamp b.difficulty valid fits le small) in
    let P : Bool → Type 0 =
      λ t. Is (if t then 1000 else average) (if t then ok (from64 1000) else later) in
    elim (Bool-cases (ltb b.height 2)) [
      | inl first ↦ subst P (sym first) (
        record { lo_fits = unfold from64 in omega arith; hi_fits = unfold from64 in omega arith },
        unfold from64 in refl,
      )
      | inr more ↦ subst P (sym more) (after (ground (arith, more)))
    ]
