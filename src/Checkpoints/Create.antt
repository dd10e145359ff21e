-- ===== src/Checkpoints/Create.antt =====
-- `CreateCheckpoints` of blockchain/blockchain.go.
pub mod Covers
use Prim.Native.Nat.{zero}
use still_blockchain.Base.{ℕ, List, suc, if◌then◌else◌, ◌==◌, ◌+◌, ◌/◌, [], ◌%◌, ◌^◌}
use still_blockchain.Chain.{Chain, get_topo}
use still_blockchain.Binary.{add_uint, add_fixed}
use still_blockchain.Base.Bytes.{
  le_bytes, le_value, length-le_bytes, le_value-le_bytes, take-le_bytes, drop-le_bytes,
}
use still_blockchain.Base.Result.{Result, ok, err, panic, ◌>>=◌}
use still_blockchain.Checkpoints.{Checkpoints, init, get_checkpoint, is_checkpoint, ℕ}

-- The hashes that the loop adds from `height` on, with `rounds` heights left; heights are below
-- 2 ^ 64.
unfoldable pub add_topos : Chain → ℕ → ℕ → ℕ → List ℕ → Result (List ℕ)
unfolding add_fixed
add_topos ch interval zero height s = ok s
add_topos ch interval (suc rounds) height s = do
  hash ← get_topo height ch
  add_topos ch interval rounds (height + interval) (add_fixed s (le_bytes 32 hash))

-- `CreateCheckpoints`, where `max_height + interval` is below 2 ^ 64, so that the loop ends after
-- `max_height / interval` rounds. A zero interval panics at the division.
unfoldable pub create_checkpoints : Chain → ℕ → ℕ → Result (List ℕ)
unfolding add_topos add_uint
create_checkpoints ch max_height interval =
    if interval == 0
    then panic
    else add_topos ch interval (max_height / interval) interval (add_uint 4 [] (interval % 2 ^ 32))
