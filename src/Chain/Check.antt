-- ===== src/Chain/Check.antt =====
-- The validation of a block against its predecessor: `checkBlock` of blockchain/blockchain.go,
-- and `GetNextDifficulty` of blockchain/difficulty.go.
pub mod Extends
pub mod Difficulty
use still_blockchain.Base.{
  ℕ, ◌+◌, ◌-◌, ◌*◌, ◌%◌, ◌^◌, Bool, true, false, ◌&&◌, ◌||◌, Option, none, some, List, [], ◌∷◌, ltb,
  leb, ◌==◌, ◌!=◌, if◌then◌else◌, length, get_or, drop,
}
use still_blockchain.Base.Result.{
  Result, ok, err, fail_if, ◌>>=◌, ◌>>◌, bad_difficulty, bad_height, bad_timestamp,
  bad_cumulative_diff, common_not_found, subsequent_invalid, side_included,
}
use still_blockchain.Config.{min_difficulty}
use still_blockchain.Crypto.{Crypto}
use still_blockchain.Block.{Block, Header, Commitment, prev_hash, commitment_equals}
use still_blockchain.Block.BaseHash.{commitment}
use still_blockchain.Difficulty.{next_difficulty}
use still_blockchain.Uint128.{Uint128, from64, equals, add, mul64, div64}
use still_blockchain.Chain.{Chain, Env, get_block}

-- `GetNextDifficulty`
unfoldable pub get_next_difficulty : Chain → Block → Result Uint128
get_next_difficulty ch b = if ltb b.height 2 then ok (from64 min_difficulty) else (do
  prev ← get_block (prev_hash b) ch
  next_difficulty b.height b.timestamp b.difficulty prev.timestamp)

-- The scan for one ancestor `anc` with the index `ancid`: the last match at or behind that index
-- gives the height difference.
unfoldable pub scan : ℕ → ℕ → ℕ → List ℕ → Option ℕ → Option ℕ
scan ancid anc vid [] diff = diff
scan ancid anc vid (v ∷ vs) diff =
    scan ancid anc (vid + 1) vs (if leb ancid vid && v == anc then some (vid - ancid) else diff)

-- One round over the side block's ancestors. The answer says whether the loop goes on.
unfoldable pub follow : List ℕ → ℕ → ℕ → Option ℕ → Result (Bool × Option ℕ)
unfolding scan
follow ancestors ancid anc none = ok (true, scan ancid anc 0 ancestors none)
follow ancestors ancid anc (some diff) =
    if leb (length ancestors) (ancid + diff)
    then ok (false, some diff)
    else if get_or ancestors (ancid + diff) 0 == anc
    then ok (true, some diff)
    else err subsequent_invalid

-- The loop over the side block's ancestors, from index `ancid` on.
unfoldable pub height_diff : List ℕ → ℕ → List ℕ → Option ℕ → Result (Option ℕ)
unfolding follow
height_diff ancestors ancid [] diff = ok diff
height_diff ancestors ancid (anc ∷ rest) diff = do
  (more, diff') ← follow ancestors ancid anc diff
  let later = height_diff ancestors (ancid + 1) rest diff'
  elim more [ true ↦ later | false ↦ ok diff' ]

unfoldable pub common_found : Option ℕ → Result (Unit {0})
common_found none = err common_not_found
common_found (some d) = ok tt

-- Whether a list of side blocks holds the commitment.
unfoldable pub includes : Commitment → List Commitment → Bool
includes side [] = false
includes side (v ∷ vs) = commitment_equals side v || includes side vs

-- The loop over the older ancestors of the block, which ends at the genesis block.
unfoldable pub not_in_ancestors : Env → Chain → Commitment → List ℕ → Result (Unit {0})
unfolding includes
not_in_ancestors env ch side [] = ok tt
not_in_ancestors env ch side (anc ∷ rest) = do
  b ← get_block anc ch
  fail_if (commitment_equals side (commitment env.crypto b)) side_included
  fail_if (includes side b.side_blocks) side_included
  let later = not_in_ancestors env ch side rest
  elim (b.height == 0) [ true ↦ ok tt | false ↦ later ]

-- One round of the loop over the side blocks.
unfoldable pub check_side : Env → Chain → Block → Block → Commitment → Result (Unit {0})
check_side env ch b prev side = do
  diff ← height_diff b.ancestors 0 side.ancestors none
  common_found diff
  fail_if (commitment_equals side (commitment env.crypto prev)) side_included
  fail_if (includes side prev.side_blocks) side_included
  elim (prev.height == 0) [
    | true ↦ ok tt
    | false ↦ not_in_ancestors env ch side (drop 1 b.ancestors)
  ]

unfoldable pub check_sides : Env → Chain → Block → Block → List Commitment → Result (Unit {0})
check_sides env ch b prev [] = ok tt
check_sides env ch b prev (side ∷ sides) =
    check_side env ch b prev side >> check_sides env ch b prev sides

-- The cumulative difficulty of a block with `sides` side blocks: two thirds for each.
unfoldable pub cumulative : Uint128 → Uint128 → ℕ → Result Uint128
cumulative prev difficulty sides = do
  doubled ← mul64 difficulty (2 * sides)
  side_diff ← div64 doubled 3
  base ← add prev difficulty
  add base side_diff

-- `checkBlock`
unfoldable pub check_block : Env → Chain → Block → Block → Result (Unit {0})
check_block env ch b prev = do
  expected ← get_next_difficulty ch prev
  fail_if (if equals b.difficulty expected then false else true) bad_difficulty
  fail_if (b.height != (prev.height + 1) % 2 ^ 64) bad_height
  fail_if (ltb b.timestamp prev.timestamp) bad_timestamp
  new_cumulative ← cumulative prev.cumulative_diff b.difficulty (length b.side_blocks)
  check_sides env ch b prev b.side_blocks
  fail_if (if equals b.cumulative_diff new_cumulative then false else true) bad_cumulative_diff
