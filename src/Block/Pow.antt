-- ===== src/Block/Pow.antt =====
-- The checks of a block that need no chain: the proof of work and `Prevalidate` of block/block.go.
pub mod Panics
use Prim.Native.Nat.{Ordering}
use still_blockchain.Base.{
  ℕ, suc, ◌+◌, ◌*◌, ◌/◌, ◌%◌, ◌^◌, Bool, true, false, not, ◌&&◌, ◌||◌, ◌==◌, ◌!=◌, List, [], ◌∷◌,
  ltb,
}
use still_blockchain.Base.Result.{
  Result, ok, err, fail_if, ◌>>=◌, ◌>>◌, bad_version, zero_difficulty, low_difficulty, future_block,
  own_network, duplicate_chain, bad_pow, side_seedhash, side_pow, checkpoint_mismatch,
}
use still_blockchain.Block.{Block, HashingId, Commitment}
use still_blockchain.Block.BaseHash.{commitment}
use still_blockchain.Block.Codec.{block_hash}
use still_blockchain.Block.MiningBlob.{mining_blob, serialize_blob, get_seed, get_seedhash_id}
use still_blockchain.Checkpoints.{Checkpoints, is_secured, is_checkpoint, get_checkpoint}
use still_blockchain.Config.{min_difficulty, future_time_limit, network_id}
use still_blockchain.Crypto.{Crypto}
use still_blockchain.Uint128.{Uint128, is_zero, cmp, cmp64, div, div64, mul64, max_uint128}

-- `PowHash` and `PowValue`: the upper half of the hash, as a number.
unfoldable pub pow_value : Crypto → ℕ → Commitment → Result Uint128
pow_value c seed x = do
  m ← mining_blob c x
  let half = c.pow_hash seed (serialize_blob m) / 256 ^ 16
  ok (record { lo = half % 2 ^ 64; hi = half / 2 ^ 64 % 2 ^ 64 })

unfoldable pub no_greater : Uint128 → Uint128 → Bool
no_greater u v = elim (cmp u v) [ Ordering.gt ↦ false | _ ↦ true ]

-- `ValidPowValue`, which `ValidPowHash` is too.
unfoldable pub valid_pow_value : Uint128 → Uint128 → Result Bool
unfolding no_greater
valid_pow_value val diff = do most ← div max_uint128 diff; ok (no_greater val most)

-- The inner loop over the other chains, from index `j` on, for the chain `v` at index `i`.
unfoldable pub check_chain : ℕ → HashingId → ℕ → List HashingId → Result (Unit {0})
check_chain i v j [] = ok tt
check_chain i v j (w ∷ ws) =
    fail_if (i != j && (v.hash == w.hash || v.network == w.network)) duplicate_chain
    >> check_chain i v (suc j) ws

-- The outer loop, from index `i` on.
unfoldable pub check_chains : ℕ → List HashingId → List HashingId → Result (Unit {0})
unfolding check_chain
check_chains i all [] = ok tt
check_chains i all (v ∷ vs) =
    fail_if (v.network == network_id) own_network
    >> (check_chain i v 0 all >> check_chains (suc i) all vs)

-- One round of the loop over the side blocks.
unfoldable pub check_side_pow : Crypto → ℕ → Block → Commitment → Result (Unit {0})
unfolding pow_value valid_pow_value
check_side_pow c seed b side = do
  fail_if (get_seedhash_id side.timestamp != get_seedhash_id b.timestamp) side_seedhash
  val ← pow_value c seed side
  doubled ← mul64 b.difficulty 2
  least ← div64 doubled 3
  valid ← valid_pow_value val least
  fail_if (not valid) side_pow

unfoldable pub check_side_pows : Crypto → ℕ → Block → List Commitment → Result (Unit {0})
unfolding check_side_pow
check_side_pows c seed b [] = ok tt
check_side_pows c seed b (side ∷ sides) =
    check_side_pow c seed b side >> check_side_pows c seed b sides

-- The proof of work of a block that no checkpoint covers.
unfoldable pub check_pow : Crypto → Block → Result (Unit {0})
unfolding pow_value valid_pow_value check_side_pows
check_pow c b = do
  m ← mining_blob c (commitment c b)
  let seed = get_seed c m
  val ← pow_value c seed (commitment c b)
  valid ← valid_pow_value val b.difficulty
  fail_if (not valid) bad_pow
  check_side_pows c seed b b.side_blocks

-- The hash of a block at a checkpoint.
unfoldable pub check_checkpoint : Crypto → Checkpoints → Block → Result (Unit {0})
check_checkpoint c cps b = elim (is_checkpoint cps b.height) [
  | false ↦ ok tt
  | true ↦ (do
    expected ← get_checkpoint cps b.height
    fail_if (block_hash c b != expected) checkpoint_mismatch)
]

unfoldable pub is_low : Uint128 → Bool
is_low d = elim (cmp64 d min_difficulty) [ Ordering.lt ↦ true | _ ↦ false ]

-- `Prevalidate`; `now` is `util.Time`, in milliseconds.
unfoldable pub prevalidate_block : Crypto → Checkpoints → ℕ → Block → Result (Unit {0})
unfolding check_chains check_pow check_checkpoint is_low
prevalidate_block c cps now b = do
  fail_if (b.version != 0) bad_version
  fail_if (is_zero b.difficulty) zero_difficulty
  fail_if (is_low b.difficulty) low_difficulty
  fail_if (ltb ((now + future_time_limit * 1000) % 2 ^ 64) b.timestamp) future_block
  check_chains 0 b.other_chains b.other_chains
  elim (is_secured cps b.height) [ false ↦ check_pow c b | true ↦ check_checkpoint c cps b ]
