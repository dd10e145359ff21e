-- ===== src/Mining/Template.antt =====
-- `GetBlockTemplate` of blockchain/mining.go, one function for each of its loops. The stats' tips are
-- walked in the order of their list.
pub mod Extends
pub mod Sides
pub mod Returns
use still_blockchain.Base.{
  ℕ, ◌+◌, ◌-◌, ◌*◌, ◌%◌, ◌^◌, ◌≡◌, Bool, true, false, ◌||◌, Option, none, some, List, [], ◌∷◌, ◌++◌,
  length, drop, ltb, leb, ◌==◌, ◌!=◌, if◌then◌else◌,
}
use Prim.Native.Nat.{Ordering}
use still_blockchain.Base.Assoc.{Assoc}
use still_blockchain.Base.Result.{Result, ok, err, panic, ◌>>=◌, ◌>>◌}
use still_blockchain.Block.{
  Block, Header, HashingId, Commitment, add_hash, find_common, commitment_equals,
}
use still_blockchain.Block.BaseHash.{commitment}
use still_blockchain.Block.MiningBlob.{get_seedhash_id, sort_chains}
use still_blockchain.Chain.{Chain, Env, AltchainTip, get_block}
use still_blockchain.Chain.Check.{get_next_difficulty, includes}
use still_blockchain.Config.{max_side_blocks, minidag_ancestors, max_block_size}
use still_blockchain.Ledger.{Ledger, MempoolEntry}
use still_blockchain.Ledger.Txns.{validate_mempool_tx}
use still_blockchain.P2p.FullBlock.{get_tx}
use still_blockchain.Uint128.{Uint128, cmp, add, mul64, div64}

-- What `mergestratum` keeps of a chain that is mined with this one.
pub record Merge : Type 0 where
  pub destination : ℕ
  pub permanent : Bool
  pub hashing_id : HashingId
  pub difficulty : ℕ
  pub job_id : ℕ

-- The loop over the older ancestors: whether the commitment is in none of them.
unfoldable pub fresh_in_ancestors : Env → Chain → Commitment → List ℕ → Result Bool
unfolding includes
fresh_in_ancestors env ch side [] = ok true
fresh_in_ancestors env ch side (anc ∷ rest) = do
  b ← get_block anc ch
  let later = fresh_in_ancestors env ch side rest
  if commitment_equals side (commitment env.crypto b)
      then ok false
      else if includes side b.side_blocks
      then ok false
      else if b.height == 0
      then ok true
      else later

-- Whether the commitment was not included yet.
unfoldable pub is_fresh : Env → Chain → Block → Block → Commitment → Result Bool
unfolding fresh_in_ancestors
is_fresh env ch bl prev side =
    if commitment_equals side (commitment env.crypto prev)
    then ok false
    else if includes side prev.side_blocks
    then ok false
    else if prev.height == 0
    then ok true
    else fresh_in_ancestors env ch side (drop 1 bl.ancestors)

unfoldable pub is_below : Uint128 → Uint128 → Bool
is_below u v = elim (cmp u v) [ Ordering.lt ↦ true | _ ↦ false ]

-- Whether the block of a tip can be a side block of `bl`, which follows `prev`.
unfoldable pub usable : Env → Chain → Block → Block → Block → Result Bool
unfolding is_fresh is_below
usable env ch bl prev tip =
    if get_seedhash_id tip.timestamp != get_seedhash_id bl.timestamp then ok false else (do
      doubled ← mul64 bl.difficulty 2
      least ← div64 doubled 3
      if is_below tip.difficulty least
          then ok false
          else elim (find_common bl.ancestors tip.ancestors) [
            | none ↦ ok false
            | some _ ↦ is_fresh env ch bl prev (commitment env.crypto tip)
          ])

-- The tips whose height is out of reach. The sum with 2 ^ 64 writes the wrap of `uint64` out.
unfoldable pub out_of_reach : ℕ → ℕ → Bool
out_of_reach tip_height height =
    leb height tip_height || ltb tip_height ((height + 2 ^ 64 - minidag_ancestors - 1) % 2 ^ 64)

-- The side blocks with the tip's commitment behind them if it is usable. An error is logged and the
-- tip passed over.
unfoldable pub add_if_usable : Commitment → List Commitment → Result Bool → Result (List Commitment)
add_if_usable side sides (ok true) = ok (sides ++ side ∷ [])
add_if_usable side sides (ok false) = ok sides
add_if_usable side sides (err e) = ok sides
add_if_usable side sides panic = panic

unfoldable pub judge_tip :
    Env → Chain → Block → Block → List Commitment → Result Block → Result (List Commitment)
unfolding usable add_if_usable
judge_tip env ch bl prev sides (ok tip) =
    add_if_usable (commitment env.crypto tip) sides (usable env ch bl prev tip)
judge_tip env ch bl prev sides (err e) = ok sides
judge_tip env ch bl prev sides panic = panic

-- One round of the loop over the tips.
unfoldable pub try_tip :
    Env → Chain → Block → Block → AltchainTip → List Commitment → Result (List Commitment)
unfolding judge_tip out_of_reach
try_tip env ch bl prev v sides =
    if out_of_reach v.height bl.height
    then ok sides
    else judge_tip env ch bl prev sides (get_block v.hash ch)

unfoldable pub choose_sides :
    Env → Chain → Block → Block → Assoc AltchainTip → List Commitment → Result (List Commitment)
unfolding try_tip
choose_sides env ch bl prev [] sides = ok sides
choose_sides env ch bl prev ((k, v) ∷ tips) sides =
    let more =
      try_tip env ch bl prev v sides >>= λ sides'. choose_sides env ch bl prev tips sides' in
    if length sides == max_side_blocks then ok sides else more

unfoldable pub is_ok : {A : Type 0} → Result A → Bool
is_ok (ok a) = true
is_ok (err e) = false
is_ok panic = false

-- Whether a transaction of the mempool is stored and still valid.
unfoldable pub still_valid : Env → Ledger → ℕ → Bool
unfolding is_ok
still_valid env l txid = elim (get_tx txid l) [
  | ok r ↦ is_ok (validate_mempool_tx env.crypto r.tx txid l).0
  | _ ↦ false
]

-- The loop over the mempool. The size of an entry is added before it is compared, and once more in
-- the comparison.
unfoldable pub choose_txs : Env → Ledger → List MempoolEntry → ℕ → List ℕ
unfolding still_valid
choose_txs env l [] size = []
choose_txs env l (v ∷ vs) size =
    let total = (size + v.size) % 2 ^ 64 in
    let rest = choose_txs env l vs total in
    if ltb max_block_size ((total + v.size) % 2 ^ 64)
    then []
    else if still_valid env l v.txid
    then v.txid ∷ rest
    else rest

-- The loop over the merge mined chains, for those that have a job, and the least difficulty.
unfoldable pub choose_chains : List Merge → List HashingId × ℕ → List HashingId × ℕ
choose_chains [] found = found
choose_chains (v ∷ vs) (chains, least) = choose_chains vs (
    if v.difficulty == 0
    then (chains, least)
    else (chains ++ v.hashing_id ∷ [], if ltb v.difficulty least then v.difficulty else least))

-- The template before the loops: `extra` is random.
unfoldable pub blank_template : ℕ → ℕ → ℕ → Chain → Block → Uint128 → Uint128 → Block
blank_template now_ms extra addr ch prev difficulty cumulative_diff = record {
  header = record {
    version = 0;
    height = (ch.stats.top_height + 1) % 2 ^ 64;
    timestamp = now_ms;
    nonce = 0;
    nonce_extra = extra;
    other_chains = [];
    recipient = addr;
    ancestors = add_hash prev.ancestors ch.stats.top_hash;
    side_blocks = [];
  };
  difficulty = difficulty;
  cumulative_diff = cumulative_diff;
  transactions = [];
}

-- The template with what the loops chose.
unfoldable pub filled_template : Block → List Commitment → List HashingId → Uint128 → List ℕ → Block
filled_template blank sides chains cumulative_diff txs = record blank {
  header = record (blank.header) { side_blocks = sides; other_chains = chains };
  cumulative_diff = cumulative_diff;
  transactions = txs;
}

-- `GetBlockTemplate`: the block and the least difficulty that is of use. The node is one of the main
-- network, the master chain.
unfoldable pub get_block_template : Env → ℕ → ℕ → ℕ → List Merge → Chain → Result (Block × ℕ)
unfolding choose_sides choose_txs choose_chains blank_template filled_template
get_block_template env now_ms extra addr merges ch = do
  prev ← get_block ch.stats.top_hash ch
  difficulty ← get_next_difficulty ch prev
  base ← add ch.stats.cumulative_diff difficulty
  let blank = blank_template now_ms extra addr ch prev difficulty base
  sides ← choose_sides env ch blank prev ch.stats.tips []
  doubled ← mul64 difficulty (2 * length sides)
  side_diff ← div64 doubled 3
  total ← add base side_diff
  let (chains, least) = choose_chains merges ([], difficulty.lo)
  sorted ← sort_chains chains
  ok (
    filled_template blank sides sorted total (choose_txs env ch.ledger ch.ledger.mempool 0),
    least,
  )
