-- ===== src/Ledger/Apply.antt =====
-- `ApplyBlockToState` of blockchain/blockchain.go.
pub mod Tx
pub mod Money
pub mod Supply
pub mod Issue
use still_blockchain.Base.{ℕ, ◌+◌, ◌-◌, ◌*◌, ◌/◌, ◌%◌, List, [], ◌∷◌, ltb, ◌!=◌}
use Prim.Native.Nat.{Ordering}
use still_blockchain.Base.Assoc.{lookup, insert}
use still_blockchain.Base.Result.{
  ok, tx_not_found, state_not_found, spends_too_much, unexpected_nonce,
}
use still_blockchain.Base.Action.{Action, pure, gets, or_err, modify, fail_if, ◌>>=◌, ◌>>◌}
use still_blockchain.Crypto.{Crypto, from_pub_key}
use still_blockchain.Block.{Block}
use still_blockchain.Block.Codec.{block_hash}
use still_blockchain.Config.{block_reward_fee_percent}
use still_blockchain.Reward.{reward}
use still_blockchain.Uint128.{cmp}
use still_blockchain.Ledger.{u64, State, Ledger, MempoolEntry, delete_entry, topo_key, state_of}
use still_blockchain.Ledger.Txns.{set_tx_height}

-- `buckSetState`, `SetTxTopoInc` and `SetTxTopoOut`.
abbrev pub set_state : ℕ → State → Action Ledger (Unit {0})
set_state addr s = modify λ l. record l { states = insert addr s l.states }

abbrev pub set_tx_topo_inc : ℕ → ℕ → ℕ → Action Ledger (Unit {0})
set_tx_topo_inc txid addr id =
    modify λ l. record l { in_txs = insert (topo_key addr id) txid l.in_txs }

abbrev pub set_tx_topo_out : ℕ → ℕ → ℕ → Action Ledger (Unit {0})
set_tx_topo_out txid addr id =
    modify λ l. record l { out_txs = insert (topo_key addr id) txid l.out_txs }

-- One round of the loop over the block's transactions: the fee.
unfoldable pub apply_tx : Crypto → ℕ → ℕ → Action Ledger ℕ
apply_tx c height v = do
  rec ← (λ l. or_err (lookup v l.txs) tx_not_found l)
  let t = rec.tx
  let sender = from_pub_key c t.sender
  s ← (λ l. or_err (lookup sender l.states) state_not_found l)
  let cost = (t.amount + t.fee) % u64
  fail_if (ltb s.balance cost) spends_too_much
  fail_if (t.nonce != (s.last_nonce + 1) % u64) unexpected_nonce
  let nonce = (s.last_nonce + 1) % u64
  set_state sender (record s { balance = s.balance - cost; last_nonce = nonce })
  r ← gets (λ l. state_of t.recipient l.states)
  let incoming = (r.last_incoming + 1) % u64
  set_tx_topo_inc v t.recipient incoming
  set_tx_topo_out v sender nonce
  set_tx_height v height
  set_state t.recipient
      (record r { balance = (r.balance + t.amount) % u64; last_incoming = incoming })
  pure t.fee

-- The loop over the transactions, with the sum of the fees so far.
unfoldable pub apply_txs : Crypto → ℕ → List ℕ → ℕ → Action Ledger ℕ
apply_txs c height [] fees l = (ok fees, l)
apply_txs c height (v ∷ vs) fees l =
    (apply_tx c height v >>= λ fee. apply_txs c height vs ((fees + fee) % u64)) l

unfoldable pub governance_reward : ℕ → ℕ
governance_reward total = total * block_reward_fee_percent % u64 / 100

-- The block that adds the rewards.
unfoldable pub apply_coinbase : Crypto → ℕ → Block → ℕ → Action Ledger (Unit {0})
apply_coinbase c genesis_address b fees = do
  let total = (reward b.height + fees) % u64
  let governance = governance_reward total
  let miner = total - governance
  m ← gets (λ l. state_of b.recipient l.states)
  let incoming = (m.last_incoming + 1) % u64
  set_state b.recipient (record m { balance = (m.balance + miner) % u64; last_incoming = incoming })
  set_tx_topo_inc (block_hash c b) b.recipient incoming
  g ← gets (λ l. state_of genesis_address l.states)
  set_state genesis_address (record g { balance = (g.balance + governance) % u64 })

-- `pool.DeleteEntry` for each transaction of the block.
unfoldable pub delete_entries : List ℕ → List MempoolEntry → List MempoolEntry
delete_entries [] pool = pool
delete_entries (v ∷ vs) pool = delete_entries vs (delete_entry v pool)

-- The update of the sync target.
unfoldable pub update_sync : Block → Ledger → Ledger
update_sync b l = elim (cmp l.sync_diff b.cumulative_diff) [
  | Ordering.lt ↦ record l { sync_height = b.height; sync_diff = b.cumulative_diff }
  | _ ↦ l
]

unfoldable pub apply_block : Crypto → ℕ → Block → Action Ledger (Unit {0})
apply_block c genesis_address b = do
  modify (λ l. record l { mempool = delete_entries b.transactions l.mempool })
  fees ← apply_txs c b.height b.transactions 0
  apply_coinbase c genesis_address b fees
  modify (update_sync b)
