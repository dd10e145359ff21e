-- ===== src/Uint128/Sum.antt =====
-- Addition and subtraction: exact where the result is a 128-bit number, a panic where it is not.
use still_blockchain.Base.{ℕ, ◌+◌, ◌^◌, ◌<◌, ◌≤◌, ◌≡◌, arith}
use still_blockchain.Base.Bytes.{IsU64}
use still_blockchain.Base.Result.{Result, Returns, ok, panic}
use still_blockchain.Uint128.{Uint128, add, add64, sub}
use still_blockchain.Uint128.Value.{to_ℕ, IsValid}

-- The answer of an operation whose true value is `n`.
abbrev pub Exact : ℕ → Result Uint128 → Type 0
Exact n (ok w) = IsValid w × (to_ℕ w ≡ n)
Exact n panic = 2 ^ 128 ≤ n
Exact n _ = ⊥

-- `Add` of valid values is exact where the sum is a 128-bit number, and panics where it is not.
pub add-Exact : (u v : Uint128) → IsValid u → IsValid v → Exact (to_ℕ u + to_ℕ v) (add u v)
unfolding add
add-Exact u v hu hv = ground arith

pub add64-Exact : (u : Uint128) (v : ℕ) → IsValid u → IsU64 v → Exact (to_ℕ u + v) (add64 u v)
unfolding add64
add64-Exact u v hu hv = ground arith

-- `Sub` is exact where it takes away no more than there is.
pub sub_exact :
    (u v : Uint128)
    → IsValid u
    → IsValid v
    → to_ℕ v ≤ to_ℕ u
    → Returns (λ w. IsValid w × (to_ℕ w + to_ℕ v ≡ to_ℕ u)) (sub u v)
unfolding sub
sub_exact u v hu hv le = ground arith

-- `Sub` panics where it would take away more than there is.
pub sub_panics : (u v : Uint128) → IsValid u → IsValid v → to_ℕ u < to_ℕ v → sub u v ≡ panic
unfolding sub
sub_panics u v hu hv lt = ground arith
