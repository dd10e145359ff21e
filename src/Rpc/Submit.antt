-- ===== src/Rpc/Submit.antt =====
-- `submit_transaction` of cmd/still-node/noderpc.go.
use still_blockchain.Base.{ℕ, true, List}
use still_blockchain.Base.Action.{Action, pure, lift, ◌>>=◌, ◌>>◌}
use still_blockchain.Chain.{Chain, on_ledger}
use still_blockchain.Ledger.Txns.{add_transaction}
use still_blockchain.P2p.Database.{update}
use still_blockchain.P2p.Handlers.{Node}
use still_blockchain.Transaction as Tx
use still_blockchain.Transaction.{tx_hash, prevalidate}

-- The answer is the transaction's hash.
unfoldable pub submit_transaction : Node → List ℕ → Action Chain ℕ
unfolding update
submit_transaction n bytes = do
  let c = n.env.crypto
  t ← lift (Tx.deserialize bytes)
  lift (prevalidate c t)
  update n.bolt (on_ledger (add_transaction c n.env.now t (tx_hash c t) true))
  pure (tx_hash c t)
