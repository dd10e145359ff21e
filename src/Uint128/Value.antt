-- ===== src/Uint128/Value.antt =====
-- The number that a Uint128 stands for.
use still_blockchain.Base.{ℕ, ◌+◌, ◌*◌, ◌^◌, ◌<◌, ◌≡◌, arith}
use still_blockchain.Base.Bytes.{IsU64}
use still_blockchain.Uint128.{Uint128, word}

abbrev pub to_ℕ : Uint128 → ℕ
to_ℕ u = u.hi * word + u.lo

pub record IsValid (u : Uint128) : Type 0 where
  pub lo_fits : IsU64 u.lo
  pub hi_fits : IsU64 u.hi

pub to_ℕ-lt : (u : Uint128) → IsValid u → to_ℕ u < 2 ^ 128
to_ℕ-lt u h = omega arith

pub eq_of_to_ℕ : (u v : Uint128) → IsValid u → IsValid v → to_ℕ u ≡ to_ℕ v → u ≡ v
eq_of_to_ℕ u v hu hv e = ground arith
