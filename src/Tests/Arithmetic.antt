-- ===== src/Tests/Arithmetic.antt =====
-- Tests of the 128-bit numbers, the rewards and the difficulty.
use still_blockchain.Chain.{get_block}
use still_blockchain.Base.Assoc.{lookup}
use still_blockchain.Block.{prev_hash}
use still_blockchain.Chain.Check.{get_next_difficulty}
use still_blockchain.Chain.Check.Difficulty.{expected, get_next_difficulty-Is}
use still_blockchain.Difficulty.Laws.{Is}
use still_blockchain.Tests.Chains.{chain, block_at}
use still_blockchain.Base.{◌^◌, ◌≡◌, ◌-◌, refl, arith}
use still_blockchain.Reward.{get_supply_at_height}
use still_blockchain.Base.Result.{ok}
use still_blockchain.Reward.Supply.{sum_rewards, get_supply_at_height-sum_rewards}
use still_blockchain.Uint128.{Uint128, add}

abbrev big : Uint128
big = record { lo = 2 ^ 64 - 1; hi = 5 }

abbrev small : Uint128
small = record { lo = 3; hi = 0 }

carry : add big small ≡ ok (record { lo = 2; hi = 6 })
unfolding add
carry = refl

get_supply_at_height-sum_rewards_example : get_supply_at_height 3 ≡ sum_rewards 4
get_supply_at_height-sum_rewards_example = get_supply_at_height-sum_rewards 3 (omega arith)

parent_stored : get_block (prev_hash (block_at 2 21 3000)) chain ≡ ok (block_at 1 10 2000)
unfolding get_block lookup prev_hash
parent_stored = refl

get_next_difficulty-Is_example :
    Is
      (expected (block_at 2 21 3000) (block_at 1 10 2000))
      (get_next_difficulty chain (block_at 2 21 3000))
get_next_difficulty-Is_example =
    get_next_difficulty-Is chain (block_at 2 21 3000) (block_at 1 10 2000) (λ high. parent_stored)
      (record { lo_fits = omega arith; hi_fits = omega arith }) (omega arith) (omega arith)
      (omega arith)

-- At height 2 the difficulty rises to 1004; at height 1 it is the minimum.
rises : expected (block_at 2 21 3000) (block_at 1 10 2000) ≡ 1004
unfolding expected
rises = refl
