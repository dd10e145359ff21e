-- ===== src/Reward/Supply.antt =====
-- The closed form of the supply against the sum of the block rewards.
use still_blockchain.Base.{
  ℕ, zero, suc, ◌+◌, ◌-◌, ◌*◌, ◌/◌, ◌%◌, ◌≡◌, ◌≤◌, ◌<◌, ◌⊎◌, inl, inr, ap, arith, ◌∙◌, dec_lt,
}
use native.Mathlib.Nat.{mul-le-mul_right}
use still_blockchain.Base.Bytes.{IsU64}
use still_blockchain.Config.{reduction_interval, max_supply}
use still_blockchain.Reward.{reward, u64, supply_loop, supply_at_phase, get_supply_at_height}
use still_blockchain.Reward.Phases.{
  phase_reward, reward-phase_reward, phases_supply, phase_supply_fits,
}

-- The rewards of the blocks below a height, added up with no bound on the sum.
unfoldable pub sum_rewards : ℕ → ℕ
sum_rewards zero = 0
sum_rewards (suc n) = sum_rewards n + reward n

-- The next height stands in the same phase, or begins the next one.
next_phase :
    (n : ℕ)
    → ((suc n / reduction_interval ≡ n / reduction_interval)
        × (suc n % reduction_interval ≡ n % reduction_interval + 1))
      ⊎ ((suc n / reduction_interval ≡ suc (n / reduction_interval))
          × (suc n % reduction_interval ≡ 0)
          × (n % reduction_interval + 1 ≡ reduction_interval))
next_phase n = elim (dec_lt (n % reduction_interval + 1) reduction_interval) [
  | yes h ↦ inl (omega arith, omega arith)
  | no h ↦ inr (omega arith, omega arith, omega arith)
]

sum_rewards_by_phase :
    (n : ℕ)
    → sum_rewards n
      ≡ phases_supply (n / reduction_interval)
        + n % reduction_interval * phase_reward (n / reduction_interval)
unfolding sum_rewards phases_supply
sum_rewards_by_phase zero = omega arith
sum_rewards_by_phase (suc n) = elim (next_phase n) [
  | inl (same, moved) ↦
      rw (same, moved) (omega (arith, sum_rewards_by_phase n, reward-phase_reward n))
  | inr (up, start, full) ↦
      unfold phases_supply in
      rw (up, start)
        (omega (
          arith,
          sum_rewards_by_phase n,
          reward-phase_reward n,
          ap (λ (t : ℕ). t * phase_reward (n / reduction_interval)) full,
        ))
]

-- No height brings the sum of all rewards above the configured maximum.
pub sum_rewards-le-max_supply : (n : ℕ) → sum_rewards n ≤ max_supply
sum_rewards-le-max_supply n =
    let k = n / reduction_interval in
    omega (
      arith,
      sum_rewards_by_phase n,
      phase_supply_fits k,
      mul-le-mul_right {m = n % reduction_interval} {n = reduction_interval} (phase_reward k)
          (omega arith),
    )

reward_of_phase : (k : ℕ) → reward (reduction_interval * suc k - 1) ≡ phase_reward k
reward_of_phase k =
    let e : (reduction_interval * suc k - 1) / reduction_interval ≡ k = omega arith in
    reward-phase_reward (reduction_interval * suc k - 1) ∙ ap phase_reward e

phases_supply-le : (k : ℕ) → phases_supply k ≤ max_supply
phases_supply-le k = omega (arith, phase_supply_fits k)

-- Below the bounds no sum wraps.
supply_loop_exact :
    (r s : ℕ)
    → reduction_interval * r < u64
    → s + phases_supply r ≤ max_supply
    → supply_loop r s ≡ s + phases_supply r
unfolding supply_loop phases_supply
supply_loop_exact zero s hr hs = omega arith
supply_loop_exact (suc r) s hr hs =
    let last : (reduction_interval * suc r % u64 + u64 - 1) % u64 ≡ reduction_interval * suc r - 1 =
      omega arith in
    rw (last, reward_of_phase r)
      (let e : (s + phase_reward r * reduction_interval % u64) % u64
            ≡ s + phase_reward r * reduction_interval =
          omega arith in
        rw e (
          omega (
            arith,
            supply_loop_exact r (s + phase_reward r * reduction_interval) (omega arith)
                (omega arith),
          )))

supply_at_phase-phases_supply :
    (k : ℕ) → reduction_interval * k < u64 → supply_at_phase k ≡ phases_supply k
unfolding supply_at_phase
supply_at_phase-phases_supply k h =
    supply_loop_exact k 0 h (omega (arith, phases_supply-le k)) ∙ omega arith

-- `GetSupplyAtHeight` is the sum of the rewards of all blocks up to that height, at every uint64
-- height: its arithmetic never wraps.
pub get_supply_at_height-sum_rewards :
    (h : ℕ) → IsU64 h → get_supply_at_height h ≡ sum_rewards (suc h)
unfolding get_supply_at_height sum_rewards
get_supply_at_height-sum_rewards h fits =
    let k = h / reduction_interval in
    rw (supply_at_phase-phases_supply k (omega arith), reward-phase_reward h)
      (omega (
        arith,
        sum_rewards_by_phase h,
        phase_supply_fits k,
        mul-le-mul_right {m = h % reduction_interval + 1} {n = reduction_interval} (phase_reward k)
            (omega arith),
      ))
