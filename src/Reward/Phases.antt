-- ===== src/Reward/Phases.antt =====
-- The reward by phases, without a wrap.
use still_blockchain.Base.{
  ℕ, zero, suc, ◌+◌, ◌-◌, ◌*◌, ◌/◌, ◌%◌, ◌≡◌, ◌≤◌, refl, arith, ◌==◌, if◌then◌else◌,
}
use still_blockchain.Config.{block_reward, reduction_interval, max_supply}
use still_blockchain.Reward.{reduce, reward, u64}

-- The reward of each block of a phase.
unfoldable pub phase_reward : ℕ → ℕ
phase_reward zero = block_reward / 2
phase_reward (suc k) = reduce block_reward k

pub reward-phase_reward : (h : ℕ) → reward h ≡ phase_reward (h / reduction_interval)
unfolding reward phase_reward
reward-phase_reward h = go (h / reduction_interval)
  where
    go :
        (k : ℕ)
        → (if k == 0 then block_reward / 2 else reduce block_reward (k - 1)) ≡ phase_reward k
    go zero = refl
    go (suc k) = ground arith

pub reduce-le : (n c : ℕ) → n ≤ block_reward → reduce n c ≤ block_reward
unfolding reduce
reduce-le n zero h = h
reduce-le n (suc c) h = reduce-le (n * 9 % u64 / 10) c (omega arith)

-- One more reduction is the last one applied.
pub reduce-suc : (n c : ℕ) → reduce n (suc c) ≡ reduce n c * 9 % u64 / 10
unfolding reduce
reduce-suc n zero = refl
reduce-suc n (suc c) = reduce-suc (n * 9 % u64 / 10) c

pub phase_reward-suc : (k : ℕ) → 10 * phase_reward (suc (suc k)) ≤ 9 * phase_reward (suc k)
unfolding phase_reward
phase_reward-suc k =
    omega (arith, reduce-suc block_reward k, reduce-le block_reward k (omega arith))

-- The rewards of the first `k` phases.
unfoldable pub phases_supply : ℕ → ℕ
phases_supply zero = 0
phases_supply (suc k) = phases_supply k + phase_reward k * reduction_interval

-- What is paid out, and ten times what the current phase pays, stay below the limit.
pub phases_supply_bound :
    (k : ℕ) → phases_supply (suc k) + 10 * (phase_reward (suc k) * reduction_interval) ≤ max_supply
unfolding phases_supply
phases_supply_bound zero = unfold phase_reward reduce in omega arith
phases_supply_bound (suc k) = omega (arith, phases_supply_bound k, phase_reward-suc k)

pub phase_supply_fits : (k : ℕ) → phases_supply k + phase_reward k * reduction_interval ≤ max_supply
unfolding phases_supply
phase_supply_fits zero = unfold phase_reward in omega arith
phase_supply_fits (suc k) = omega (arith, phases_supply_bound k)
