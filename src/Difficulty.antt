-- ===== src/Difficulty.antt =====
-- The difficulty adjustment: blockchain/difficulty.go.
pub mod Laws
use still_blockchain.Base.{
  ℕ, ◌+◌, ◌-◌, ◌*◌, ◌/◌, ◌%◌, ◌^◌, Bool, true, false, ◌&&◌, ltb, leb, ◌==◌, ◌!=◌, if◌then◌else◌,
}
use Prim.Native.Nat.{Ordering}
use still_blockchain.Base.Result.{Result, ok, err, panic, ◌>>=◌}
use still_blockchain.Config.{difficulty_n, target_block_time, min_difficulty, genesis_timestamp}
use still_blockchain.Uint128.{Uint128, from64, mul64, div64, cmp64}

abbrev pub u64 : ℕ
u64 = 2 ^ 64

abbrev pub target : ℕ
target = target_block_time * 1000

abbrev pub max_deviation : ℕ
max_deviation = target_block_time * 1000 * 2 * difficulty_n

-- `difficultyEMA`
unfoldable pub difficulty_ema : ℕ → Uint128 → Result Uint128
difficulty_ema solve_time prev = do
  num ← mul64 prev (difficulty_n * target)
  div64 num ((difficulty_n * target - target + solve_time) % u64)

-- The deviation from the expected time, an int64, as a bit pattern: 2 ^ 63 and more is negative.
unfoldable pub deviation : ℕ → ℕ → ℕ → ℕ
deviation genesis height timestamp =
    let expected = (height * target_block_time % u64 * 1000 % u64 + genesis) % u64 in
    (timestamp + u64 - expected) % u64

-- The correction of the time by the deviation, on where the genesis has a timestamp.
unfoldable pub lttc : ℕ → ℕ → ℕ → ℕ → ℕ
unfolding deviation
lttc genesis height timestamp delta =
    let dev = deviation genesis height timestamp in
    if genesis != 0
    then (if ltb dev (2 ^ 63) && ltb max_deviation dev
        then delta * 3 % u64 / 2
        else if leb (2 ^ 63) dev && ltb max_deviation (u64 - dev)
        then delta * 2 % u64 / 3
        else delta)
    else delta

unfoldable pub at_least_min : Uint128 → Uint128
at_least_min d = elim (cmp64 d min_difficulty) [ Ordering.lt ↦ from64 min_difficulty | _ ↦ d ]

-- `GetNextDifficulty` at a height of 2 or more, once the block before `bl` is read: `height`, `timestamp` and `difficulty`
-- are those of `bl`, `prev_timestamp` is that of its predecessor.
unfoldable pub next_difficulty : ℕ → ℕ → Uint128 → ℕ → Result Uint128
unfolding lttc at_least_min
next_difficulty height timestamp difficulty prev_timestamp = do
  let raw = (timestamp + u64 - prev_timestamp) % u64
  let delta = if ltb raw 100 then 100 else raw
  d ← difficulty_ema (lttc genesis_timestamp height timestamp delta) difficulty
  ok (at_least_min d)
