-- ===== src/Chain.antt =====
-- The chain's state: `Stats` of blockchain/bc-stats.go, the buckets BLOCK and TOPO, and their
-- accessors in blockchain/blockchain.go. The values of the buckets are stored decoded, which the
-- round trip of blocks justifies; a block whose difficulty is 0 has no bytes, and is not found.
pub mod Check
pub mod Reorg
pub mod Add
pub mod Sound
pub mod Genesis
use still_blockchain.Base.{
  ℕ, ◌+◌, ◌-◌, ◌%◌, Bool, true, false, Option, none, some, List, [], ◌∷◌, ltb, ◌==◌, if◌then◌else◌,
}
use still_blockchain.Base.Assoc.{Assoc, lookup, insert, erase}
use still_blockchain.Base.Result.{
  Result, ok, err, panic, block_not_found, unknown_topo, block_data_empty,
}
use still_blockchain.Base.Action.{Action, modify}
use still_blockchain.Crypto.{Crypto}
use still_blockchain.Block.{Block}
use still_blockchain.Block.Codec.{block_hash}
use still_blockchain.Ledger.{Ledger}
use still_blockchain.Queue.{QueuedBlock}
use still_blockchain.Uint128.{Uint128, is_zero}

pub record AltchainTip : Type 0 where
  pub hash : ℕ
  pub height : ℕ
  pub cumulative_diff : Uint128

pub record Orphan : Type 0 where
  pub expires : ℕ
  pub hash : ℕ
  pub prev_hash : ℕ

pub record Stats : Type 0 where
  pub top_hash : ℕ
  pub top_height : ℕ
  pub cumulative_diff : Uint128
  pub tips : Assoc AltchainTip
  pub orphans : Assoc Orphan

-- The database and the download queue.
pub record Chain : Type 0 where
  pub ledger : Ledger
  pub blocks : Assoc Block
  pub topo : Assoc ℕ
  pub stats : Stats
  pub queue : List QueuedBlock

-- What the methods take from their surroundings: the cryptography, the governance address and
-- the clock in seconds.
pub record Env : Type 0 where
  pub crypto : Crypto
  pub genesis_address : ℕ
  pub now : ℕ

unfoldable pub found : Option Block → Result Block
found none = err block_not_found
found (some b) = ok b

-- `GetBlock`
unfoldable pub get_block : ℕ → Chain → Result Block
unfolding found
get_block hash ch = found (lookup hash ch.blocks)

-- `GetTopo` and `buckGetTopo`
unfoldable pub get_topo : ℕ → Chain → Result ℕ
get_topo height ch = elim (lookup height ch.topo) [ none ↦ err unknown_topo | some h ↦ ok h ]

-- `Put` of the block's bytes, which are empty for a difficulty of 0.
unfoldable pub put_block : ℕ → Block → Chain → Chain
put_block hash b ch =
    if is_zero b.difficulty
    then record ch { blocks = erase hash ch.blocks }
    else record ch { blocks = insert hash b ch.blocks }

-- `insertBlock`
unfoldable pub insert_block : ℕ → Block → Action Chain (Unit {0})
unfolding put_block
insert_block hash b ch =
    if is_zero b.difficulty
    then (err block_data_empty, put_block hash b ch)
    else (ok tt, put_block hash b ch)

-- `insertBlockMain`
unfoldable pub insert_block_main : Env → Block → Action Chain (Unit {0})
unfolding put_block
insert_block_main env b ch =
    let hash = block_hash env.crypto b in
    let stored = put_block hash b ch in
    (ok tt, record stored { topo = insert b.height hash stored.topo })

-- A method of the ledger on the chain.
abbrev pub on_ledger : {A : Type 0} → Action Ledger A → Action Chain A
on_ledger m ch = let (r, l) = m ch.ledger in (r, record ch { ledger = l })

abbrev pub on_queue : (List QueuedBlock → List QueuedBlock) → Action Chain (Unit {0})
on_queue f = modify λ ch. record ch { queue = f ch.queue }

abbrev pub set_stats : Stats → Action Chain (Unit {0})
set_stats s = modify λ ch. record ch { stats = s }
