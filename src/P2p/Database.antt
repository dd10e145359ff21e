-- ===== src/P2p/Database.antt =====
-- The transactions of the database, bbolt, which is not part of the repository. `DB.Update` runs a
-- function; if it returns an error, what it wrote to the buckets is rolled back, and what it wrote to
-- memory (the download queue and the sync target) stays.
use still_blockchain.Base.{ℕ, ◌≡◌, List}
use still_blockchain.Base.Action.{Action}
use still_blockchain.Base.Assoc.{Assoc}
use still_blockchain.Base.Result.{ok, err, panic}
use still_blockchain.Block.{Block}
use still_blockchain.Chain.{Chain, Stats}
use still_blockchain.Ledger.{State, TxRecord, MempoolEntry}
use still_blockchain.Queue.{QueuedBlock}
use still_blockchain.Uint128.{Uint128}

pub record Buckets : Type 0 where
  pub states : Assoc State
  pub txs : Assoc TxRecord
  pub in_txs : Assoc ℕ
  pub out_txs : Assoc ℕ
  pub mempool : List MempoolEntry
  pub blocks : Assoc Block
  pub topo : Assoc ℕ
  pub stats : Stats

pub record Memory : Type 0 where
  pub queue : List QueuedBlock
  pub sync_height : ℕ
  pub sync_diff : Uint128

unfoldable pub buckets : Chain → Buckets
buckets ch = record {
  states = ch.ledger.states;
  txs = ch.ledger.txs;
  in_txs = ch.ledger.in_txs;
  out_txs = ch.ledger.out_txs;
  mempool = ch.ledger.mempool;
  blocks = ch.blocks;
  topo = ch.topo;
  stats = ch.stats;
}

unfoldable pub memory : Chain → Memory
memory ch = record {
  queue = ch.queue;
  sync_height = ch.ledger.sync_height;
  sync_diff = ch.ledger.sync_diff;
}

-- What the code relies on of bbolt: the state after a rollback, from the state at the transaction's
-- start and the one at its error.
pub record Bolt : Type 0 where
  pub rollback : Chain → Chain → Chain
  pub rollback_buckets : (start end : Chain) → buckets (rollback start end) ≡ buckets start
  pub rollback_memory : (start end : Chain) → memory (rollback start end) ≡ memory end

-- `bc.DB.Update`
unfoldable pub update : {A : Type 0} → Bolt → Action Chain A → Action Chain A
update bolt run ch =
    let (r, after) = run ch in
    elim r [
      | ok a ↦ (ok a, after)
      | err e ↦ (err e, bolt.rollback ch after)
      | panic ↦ (panic, bolt.rollback ch after)
    ]
