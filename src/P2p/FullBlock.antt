-- ===== src/P2p/FullBlock.antt =====
-- Blocks with their transactions, as peers send them: `SerializeFullBlock` of
-- blockchain/bc-block.go, and the reading of the TX bucket in blockchain/bc-txn.go.
use still_blockchain.Base.{ℕ, none, some, List, [], ◌∷◌, length}
use still_blockchain.Base.Assoc.{lookup}
use still_blockchain.Base.Result.{Result, ok, err, ◌>>=◌, tx_not_found}
use still_blockchain.Binary.{add_fixed, add_uvarint, add_byte_slice}
use still_blockchain.Block.{Block}
use still_blockchain.Block.Codec.{serialize_header}
use still_blockchain.Ledger.{Ledger, TxRecord}
use still_blockchain.Packet.{trim_or_panic}
use still_blockchain.Transaction as Tx
use still_blockchain.Transaction.{Transaction}
use still_blockchain.Uint128.{put_bytes}

-- `GetTx` and `buckGetTx`
unfoldable pub get_tx : ℕ → Ledger → Result TxRecord
get_tx hash l = elim (lookup hash l.txs) [ none ↦ err tx_not_found | some r ↦ ok r ]

-- The loop over the hashes of the block's transactions.
unfoldable pub add_txs : Ledger → List ℕ → List ℕ → Result (List ℕ)
unfolding get_tx add_byte_slice
add_txs l s [] = ok s
add_txs l s (v ∷ vs) = do r ← get_tx v l; add_txs l (add_byte_slice s (Tx.serialize r.tx)) vs

unfoldable pub serialize_full : Ledger → Block → Result (List ℕ)
unfolding add_fixed add_byte_slice add_uvarint add_txs
serialize_full l b = do
  let s1 = add_fixed [] (serialize_header b.header)
  diff ← trim_or_panic (put_bytes b.difficulty)
  let s2 = add_byte_slice s1 diff
  cumulative ← trim_or_panic (put_bytes b.cumulative_diff)
  let s3 = add_byte_slice s2 cumulative
  let s4 = add_uvarint s3 (length b.transactions)
  add_txs l s4 b.transactions
