-- ===== src/Base/Bytes.antt =====
-- Fixed-width byte strings. A byte array `[n]byte` (a hash, an address, a key, a little-endian
-- word) is the number whose base-256 digits are its bytes, the first byte lowest.
use Prim.Native.Nat.{ℕ, zero, suc, ◌+◌, ◌*◌, ◌/◌, ◌%◌, ◌^◌, ◌<◌}
use mathlib.Core.Path.{◌≡◌, refl, ap}
use mathlib.Core.List.{List, [], ◌∷◌, ◌++◌}
use native.Mathlib.Omega.{arith}
use native.Mathlib.Nat.{pow-suc}
use still_blockchain.Base.Lists.{length, take, drop}

-- `binary.LittleEndian.PutUint64` and its kin, and `a[:]` of an array.
unfoldable pub le_bytes : ℕ → ℕ → List ℕ
le_bytes zero v = []
le_bytes (suc n) v = (v % 256) ∷ le_bytes n (v / 256)

-- `binary.LittleEndian.Uint64` and its kin.
unfoldable pub le_value : List ℕ → ℕ
le_value [] = 0
le_value (b ∷ bs) = b + 256 * le_value bs

abbrev pub IsU64 : ℕ → Type 0
IsU64 v = v < 2 ^ 64

abbrev pub IsBytes : List ℕ → Type 0
IsBytes [] = Unit
IsBytes (b ∷ bs) = (b < 256) × IsBytes bs

pub length-le_bytes : (n v : ℕ) → length (le_bytes n v) ≡ n
unfolding le_bytes
length-le_bytes zero v = refl
length-le_bytes (suc n) v = ap suc (length-le_bytes n (v / 256))

pub le_value-le_bytes : (n v : ℕ) → v < 256 ^ n → le_value (le_bytes n v) ≡ v
unfolding le_bytes le_value
le_value-le_bytes zero v h = omega arith
le_value-le_bytes (suc n) v h =
    let h' : v < 256 * 256 ^ n = omega (arith, pow-suc 256 n) in
    omega (arith, le_value-le_bytes n (v / 256) (omega arith))

pub take-le_bytes : (n v : ℕ) (rest : List ℕ) → take n (le_bytes n v ++ rest) ≡ le_bytes n v
unfolding le_bytes
take-le_bytes zero v rest = refl
take-le_bytes (suc n) v rest = ap (λ t. (v % 256) ∷ t) (take-le_bytes n (v / 256) rest)

pub drop-le_bytes : (n v : ℕ) (rest : List ℕ) → drop n (le_bytes n v ++ rest) ≡ rest
unfolding le_bytes
drop-le_bytes zero v rest = refl
drop-le_bytes (suc n) v rest = drop-le_bytes n (v / 256) rest

pub le_bytes-IsBytes : (n v : ℕ) → IsBytes (le_bytes n v)
unfolding le_bytes
le_bytes-IsBytes zero v = tt
le_bytes-IsBytes (suc n) v = (omega arith, le_bytes-IsBytes n (v / 256))

-- A value of `n` bytes is below `256 ^ n`.
pub le_value-lt : (bs : List ℕ) → IsBytes bs → le_value bs < 256 ^ length bs
unfolding le_value
le_value-lt [] h = omega arith
le_value-lt (b ∷ bs) h = omega (arith, le_value-lt bs h.1, h.0, pow-suc 256 (length bs))
