-- ===== src/Runs.antt =====
-- The life of a node's chain: it starts with `addGenesis` of blockchain/blockchain.go over an empty
-- database, and then takes what peers, wallets and miners send, in any order: `incomingP2P` of
-- blockchain/bc-p2p.go, `submit_transaction` of cmd/still-node/noderpc.go, and `blockFound` of
-- blockchain/mining.go. Each event has its own `Node`, for the time at which it comes.
mod Events
pub mod Work
use still_blockchain.Base.{ℕ, List, ◌≡◌, []}
use still_blockchain.Base.Bytes.{IsBytes}
use still_blockchain.Block.{Block}
use still_blockchain.Block.Reads.Full.{FitsTypes}
use still_blockchain.Chain.{Chain, Env}
use still_blockchain.Chain.Genesis.{add_genesis}
use still_blockchain.Mining.Found.{FoundBlockInfo, block_found}
use still_blockchain.Mining.Template.{Merge}
use still_blockchain.P2p.Handlers.{Node, incoming}
use still_blockchain.Rpc.Submit.{submit_transaction}

-- One event. It may fail, and the state is what it leaves then.
pub data Step : Chain → Chain → Type 0 where
  packet :
      (n : Node) (kind : ℕ) (bytes : List ℕ) {ch ch' : Chain}
      → IsBytes bytes
      → ch' ≡ (incoming n kind bytes ch).1
      → Step ch ch'
  submitted :
      (n : Node) (bytes : List ℕ) {ch ch' : Chain}
      → ch' ≡ (submit_transaction n bytes ch).1
      → Step ch ch'
  solved :
      (n : Node) (merges : List Merge) (reply : Merge → FoundBlockInfo) (b : Block) (pow : List ℕ)
      {ch ch' : Chain}
      → FitsTypes b
      → ch' ≡ (block_found n merges reply b pow ch).1
      → Step ch ch'

pub data Run : Chain → Chain → Type 0 where
  done : {ch : Chain} → Run ch ch
  next : {ch mid ch' : Chain} → Step ch mid → Run mid ch' → Run ch ch'

-- The states of a node that started over an empty database.
pub data Reachable : Chain → Type 0 where
  born :
      (env : Env) (now_ms : ℕ) (empty : Chain) {ch ch' : Chain}
      → empty.blocks ≡ []
      → ch ≡ (add_genesis env now_ms empty).1
      → Run ch ch'
      → Reachable ch'
