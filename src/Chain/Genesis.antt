-- ===== src/Chain/Genesis.antt =====
-- `addGenesis` of blockchain/blockchain.go, with the clock in milliseconds. `Log.Fatal` stops the
-- node, as a panic does.
pub mod Starts
use still_blockchain.Base.{ℕ, [], if◌then◌else◌, ltb, none, some}
use still_blockchain.Chain.{Chain, Env, Stats, insert_block_main, on_ledger, set_stats, ℕ, []}
use still_blockchain.Block.{Block}
use still_blockchain.Block.Codec.{block_hash}
use still_blockchain.Binary.{zeros}
use still_blockchain.Config.{genesis_timestamp, minidag_ancestors}
use still_blockchain.Ledger.Apply.{apply_block}
use still_blockchain.Base.Assoc.{lookup}
use still_blockchain.Base.Result.{ok, panic}
use still_blockchain.Base.Action.{Action, modify, ◌>>=◌, ◌>>◌}

unfoldable pub genesis_block : Env → Block
genesis_block env = record {
  header = record {
    version = 0;
    height = 0;
    timestamp = genesis_timestamp;
    nonce = 0x1337;
    nonce_extra = 0;
    other_chains = [];
    recipient = env.genesis_address;
    ancestors = zeros minidag_ancestors;
    side_blocks = [];
  };
  difficulty = record { lo = 1; hi = 0 };
  cumulative_diff = record { lo = 1; hi = 0 };
  transactions = [];
}

-- The transaction of a database without the block.
unfoldable pub store_genesis : Env → Block → ℕ → Action Chain (Unit {0})
unfolding insert_block_main
store_genesis env genesis hash = do
  insert_block_main env genesis
  set_stats (record {
    top_hash = hash;
    top_height = 0;
    cumulative_diff = genesis.difficulty;
    tips = [];
    orphans = [];
  })
  modify (λ ch. record ch { ledger = record ch.ledger { mempool = [] } })
  on_ledger (apply_block env.crypto env.genesis_address genesis)

unfoldable pub add_genesis : Env → ℕ → Action Chain (Unit {0})
unfolding genesis_block store_genesis
add_genesis env now_ms ch =
    let genesis = genesis_block env in
    let hash = block_hash env.crypto genesis in
    if ltb now_ms genesis_timestamp then (panic, ch) else elim (lookup hash ch.blocks) [
      | none ↦ store_genesis env genesis hash ch
      | some _ ↦ (ok tt, ch)
    ]
