-- ===== src/P2p/Handlers.antt =====
-- The handlers of incoming packets in blockchain/bc-p2p.go. A handler that logs an error and returns
-- answers it; an answer is the packet that is sent back.
use still_blockchain.Base.{if◌then◌else◌, ℕ, true, false, Option, none, some, List, [], ◌∷◌}
use Prim.Native.Nat.{Ordering}
use still_blockchain.Base.Action.{Action, pure, lift, gets, modify, ◌>>=◌, ◌>>◌}
use still_blockchain.Base.Result.{Result, ok, err, panic}
use still_blockchain.Block.{Block}
use still_blockchain.Block.Codec.{deserialize_full, block_hash}
use still_blockchain.Block.Pow.{prevalidate_block}
use still_blockchain.Chain.{Chain, Env, on_ledger, on_queue}
use still_blockchain.Chain.Add.{add_block}
use still_blockchain.Checkpoints.{Checkpoints}
use still_blockchain.Ledger.Total.{check_supply}
use still_blockchain.Ledger.Txns.{add_transaction}
use still_blockchain.Packet.{
  PacketStats, PacketType, ping, block, tx, stats, block_request, unknown, packet_type,
  deserialize_stats,
}
use still_blockchain.Queue.{remove_block}
use still_blockchain.Transaction as Tx
use still_blockchain.Transaction.{Transaction, tx_hash, prevalidate}
use still_blockchain.Uint128.{cmp}
use still_blockchain.P2p.Database.{Bolt, update}
use still_blockchain.P2p.Answers.{packet_block_request}

-- The node's surroundings: the clock is in seconds in `env` and in milliseconds in `now_ms`.
pub record Node : Type 0 where
  pub env : Env
  pub now_ms : ℕ
  pub checkpoints : Checkpoints
  pub bolt : Bolt
  pub rounds : ℕ

-- `packetTx`
unfoldable pub packet_tx : Node → List ℕ → Action Chain (Unit {0})
unfolding update
packet_tx n bytes = do
  let c = n.env.crypto
  t ← lift (Tx.deserialize bytes)
  lift (prevalidate c t)
  update n.bolt (on_ledger (add_transaction c n.env.now t (tx_hash c t) true))

-- The loop over the transactions of a block.
unfoldable pub store_txs : Node → List Transaction → Action Chain (Unit {0})
store_txs n [] ch = (ok tt, ch)
store_txs n (t ∷ ts) ch =
    (on_ledger (add_transaction n.env.crypto n.env.now t (tx_hash n.env.crypto t) false)
        >> store_txs n ts)
      ch

unfoldable pub store_block : Node → Block → List Transaction → Action Chain ℕ
unfolding store_txs
store_block n b txs = store_txs n txs >> add_block n.env n.rounds b

-- The end of `packetBlock`. Storing a transaction of a block cannot fail, so where there is an error
-- `hash` is the block's. After a commit `CheckSupply` reads the state; its `Log.Fatal` panics.
unfoldable pub finish_block : Node → Block → Result ℕ × Chain → Result (Unit {0}) × Chain
finish_block n b (ok hash, ch) =
    (if check_supply ch.ledger ch.stats.top_height then ok tt else panic, ch)
finish_block n b (panic, ch) = (panic, ch)
finish_block n b (err e, ch) =
    (on_queue (remove_block n.env.now b.height (block_hash n.env.crypto b)) >> lift (err e)) ch

-- `packetBlock`
unfoldable pub packet_block : Node → List ℕ → Action Chain (Unit {0})
unfolding update store_block finish_block
packet_block n bytes = do
  (b, txs) ← lift (deserialize_full n.env.crypto bytes)
  lift (prevalidate_block n.env.crypto n.checkpoints n.now_ms b)
  (λ ch. finish_block n b (update n.bolt (store_block n b txs) ch))

-- `packetStats`: the sync target. The answer is what the connection keeps of the packet.
unfoldable pub new_target : PacketStats → Chain → Chain
new_target st ch = elim (cmp st.cumulative_diff ch.ledger.sync_diff) [
  | Ordering.gt ↦ record ch {
    ledger = record (ch.ledger) { sync_height = st.height; sync_diff = st.cumulative_diff };
  }
  | _ ↦ ch
]

unfoldable pub packet_stats : List ℕ → Action Chain PacketStats
unfolding new_target
packet_stats bytes = do st ← lift (deserialize_stats bytes); modify (new_target st); pure st

-- `incomingP2P`, one packet: a request is answered in a goroutine of its own, which only reads.
unfoldable pub dispatch : Node → PacketType → List ℕ → Action Chain (Option (List ℕ))
unfolding packet_block packet_tx packet_stats packet_block_request
dispatch n block bytes = packet_block n bytes >> pure none
dispatch n tx bytes = packet_tx n bytes >> pure none
dispatch n stats bytes = packet_stats bytes >> pure none
dispatch n block_request bytes =
    gets (packet_block_request bytes) >>= λ r. lift r >>= λ d. pure (some d)
dispatch n ping bytes = pure none
dispatch n unknown bytes = pure none

unfoldable pub incoming : Node → ℕ → List ℕ → Action Chain (Option (List ℕ))
unfolding dispatch
incoming n kind bytes = dispatch n (packet_type kind) bytes
