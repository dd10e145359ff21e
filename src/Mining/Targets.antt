-- ===== src/Mining/Targets.antt =====
-- Targets and difficulties: util/util.go, and `matchesDiff` and `hashToDiff` of blockchain.
pub mod RoundTrip
use still_blockchain.Base.{ℕ, ◌-◌, ◌/◌, ◌^◌, Bool, List, length, ◌==◌, if◌then◌else◌}
use still_blockchain.Base.Bytes.{le_bytes, le_value}
use still_blockchain.Base.Result.{Result, ok, panic, panic_if, ◌>>=◌, ◌>>◌}
use still_blockchain.Block.Pow.{no_greater}
use still_blockchain.Uint128.{Uint128, from_bytes, div, div64, max_uint128}

-- `GetTarget`: a division of machine words, of the low word only.
unfoldable pub get_target : Uint128 → Result ℕ
get_target n = panic_if (n.lo == 0) >> ok ((2 ^ 64 - 1) / n.lo)

unfoldable pub get_target_bytes : Uint128 → Result (List ℕ)
unfolding get_target
get_target_bytes n = get_target n >>= λ target. ok (le_bytes 8 target)

unfoldable pub target_to_diff64 : ℕ → Result Uint128
target_to_diff64 t = div64 (record { lo = 2 ^ 64 - 1; hi = 0 }) t

unfoldable pub target_to_diff : Uint128 → Result Uint128
target_to_diff t = div max_uint128 t

unfoldable pub byte_target_to_diff : List ℕ → Result Uint128
unfolding target_to_diff64 target_to_diff
byte_target_to_diff t =
    if length t == 16
    then target_to_diff (from_bytes t)
    else if length t == 8
    then target_to_diff64 (le_value t)
    else if length t == 4
    then target_to_diff64 (le_value t)
    else panic

-- `hashToDiff` and `matchesDiff`, of a hash as a number of 16 bytes.
unfoldable pub hash_to_diff : List ℕ → Result Uint128
hash_to_diff hash = div max_uint128 (from_bytes hash)

unfoldable pub matches_diff : List ℕ → ℕ → Result Bool
matches_diff hash diff = do most ← div64 max_uint128 diff; ok (no_greater (from_bytes hash) most)
