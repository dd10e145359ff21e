-- ===== src/Uint128/Order.antt =====
-- The comparisons of Uint128 are those of the numbers.
use Prim.Native.Nat.{compare, Ordering}
use still_blockchain.Base.{◌⊎◌, ◌<◌, ◌≤◌, ℕ, ◌≡◌, ◌↔◌, true, arith}
use still_blockchain.Base.Bytes.{IsU64}
use still_blockchain.Uint128.{Uint128, cmp, cmp64, equals}
use still_blockchain.Uint128.Value.{to_ℕ, IsValid}

-- `Cmp` orders two valid values as the numbers that they stand for.
pub cmp-compare : (u v : Uint128) → IsValid u → IsValid v → cmp u v ≡ compare (to_ℕ u) (to_ℕ v)
unfolding cmp
cmp-compare u v hu hv = ground arith

pub cmp64-compare : (u : Uint128) (v : ℕ) → IsValid u → IsU64 v → cmp64 u v ≡ compare (to_ℕ u) v
unfolding cmp64
cmp64-compare u v hu hv = ground arith

pub equals_iff : (u v : Uint128) → (equals u v ≡ true) ↔ (u ≡ v)
unfolding equals
equals_iff u v = ground arith

-- The three answers, with what each says of the numbers.
pub cmp_cases :
    (u v : Uint128)
    → IsValid u
    → IsValid v
    → ((cmp u v ≡ Ordering.gt) × (to_ℕ v < to_ℕ u))
      ⊎ ((cmp u v ≡ Ordering.lt) × (to_ℕ u ≤ to_ℕ v))
      ⊎ ((cmp u v ≡ Ordering.eq) × (to_ℕ u ≤ to_ℕ v))
cmp_cases u v hu hv = ground (arith, cmp-compare u v hu hv)
