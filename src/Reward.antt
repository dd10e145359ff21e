-- ===== src/Reward.antt =====
-- The block reward and the supply: block/reward.go.
pub mod Phases
pub mod Supply
use still_blockchain.Base.{ℕ, zero, suc, ◌+◌, ◌-◌, ◌*◌, ◌/◌, ◌%◌, ◌^◌, ◌==◌, if◌then◌else◌}
use still_blockchain.Config.{block_reward, reduction_interval}

abbrev pub u64 : ℕ
u64 = 2 ^ 64

unfoldable pub reduce : ℕ → ℕ → ℕ
reduce n zero = n
reduce n (suc count) = reduce (n * 9 % u64 / 10) count

unfoldable pub reward : ℕ → ℕ
reward height =
    let reductions = height / reduction_interval in
    if reductions == 0 then block_reward / 2 else reduce block_reward (reductions - 1)

-- The `for reductions > 0` loop of `supplyAtPhase`.
unfoldable pub supply_loop : ℕ → ℕ → ℕ
supply_loop zero supply = supply
supply_loop (suc r) supply =
    let last = (reduction_interval * suc r % u64 + u64 - 1) % u64 in
    supply_loop r ((supply + reward last * reduction_interval % u64) % u64)

unfoldable pub supply_at_phase : ℕ → ℕ
unfolding supply_loop
supply_at_phase reductions = supply_loop reductions 0

unfoldable pub get_supply_at_height : ℕ → ℕ
get_supply_at_height height =
    let reductions = height / reduction_interval in
    let reduction_blocks = height % reduction_interval + 1 in
    (supply_at_phase reductions + reward height * reduction_blocks % u64) % u64
