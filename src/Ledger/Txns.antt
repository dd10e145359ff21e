-- ===== src/Ledger/Txns.antt =====
-- The TX bucket and the mempool's entry point: blockchain/bc-txn.go. `now` is the clock, in
-- seconds.
use still_blockchain.Base.{
  ℕ, ◌+◌, ◌-◌, ◌*◌, ◌%◌, Bool, true, false, Option, none, some, List, [], ◌∷◌, ◌++◌, ltb, ◌==◌,
  ◌!=◌, ◌||◌, if◌then◌else◌,
}
use still_blockchain.Base.Assoc.{lookup, insert}
use still_blockchain.Base.Result.{
  Result, ok, err, tx_not_found, tx_not_in_database, state_not_found, spends_too_much,
  unexpected_nonce,
}
use still_blockchain.Base.Action.{Action, lift, or_err, modify, fail_if, ◌>>=◌, ◌>>◌}
use still_blockchain.Crypto.{Crypto, from_pub_key}
use still_blockchain.Transaction.{Transaction, get_virtual_size}
use still_blockchain.Ledger.{u64, State, MempoolEntry, TxRecord, Ledger, get_entry}

-- `SetTx`
unfoldable pub set_tx : ℕ → Transaction → ℕ → Action Ledger (Unit {0})
set_tx hash t height =
    modify λ l. record l { txs = insert hash (record { height = height; tx = t }) l.txs }

unfoldable pub with_height : ℕ → ℕ → Option TxRecord → Action Ledger (Unit {0})
with_height hash height none l = (err tx_not_in_database, l)
with_height hash height (some r) l =
    (ok tt, record l { txs = insert hash (record { height = height; tx = r.tx }) l.txs })

-- `SetTxHeight`. The code writes the height into the slice that bbolt's `Get` returned, which bbolt
-- forbids, and puts that slice; this is the write of a copy.
unfoldable pub set_tx_height : ℕ → ℕ → Action Ledger (Unit {0})
unfolding with_height
set_tx_height hash height l = with_height hash height (lookup hash l.txs) l

-- What one entry of the mempool does to the sender's state in `validateMempoolTx`.
unfoldable pub replay_entry : ℕ → MempoolEntry → Transaction → State → State
replay_entry addr v t s =
    if v.sender == addr
    then record s {
      balance = ((s.balance + u64 - t.amount) % u64 + u64 - t.fee) % u64;
      last_nonce = (s.last_nonce + 1) % u64;
    }
    else if v.recipient == addr
    then record s { balance = (s.balance + t.amount) % u64 }
    else s

-- The loop of `validateMempoolTx` over the entries: it stops at the transaction itself.
unfoldable pub replay : Ledger → ℕ → ℕ → List MempoolEntry → State → Result State
unfolding replay_entry
replay l hash addr [] s = ok s
replay l hash addr (v ∷ vs) s =
    let skip = replay l hash addr vs s in
    let found = λ (r : TxRecord). replay l hash addr vs (replay_entry addr v r.tx s) in
    if v.txid == hash
    then ok s
    else if v.sender == addr || v.recipient == addr
    then elim (lookup v.txid l.txs) [ none ↦ err tx_not_found | some r ↦ found r ]
    else skip

-- `validateMempoolTx`
unfoldable pub validate_mempool_tx : Crypto → Transaction → ℕ → Action Ledger (Unit {0})
validate_mempool_tx c t hash l =
    (do
      let addr = from_pub_key c t.sender
      first ← or_err (lookup addr l.states) state_not_found
      s ← lift (replay l hash addr l.mempool first)
      fail_if (ltb s.balance ((t.amount + t.fee) % u64)) spends_too_much
      fail_if (t.nonce != (s.last_nonce + 1) % u64) unexpected_nonce)
      l

unfoldable pub new_entry : Crypto → ℕ → Transaction → ℕ → MempoolEntry
new_entry c now t hash = record {
  txid = hash;
  size = get_virtual_size t;
  fee = t.fee;
  expires = now + 2 * 60 * 60;
  sender = from_pub_key c t.sender;
  recipient = t.recipient;
}

-- The end of `AddTransaction` for a transaction of the mempool.
unfoldable pub add_entry : MempoolEntry → Ledger → Ledger
add_entry e l = elim (get_entry e.txid l.mempool) [
  | none ↦ record l { mempool = l.mempool ++ e ∷ [] }
  | some _ ↦ l
]

-- `AddTransaction`: a transaction that is known already is not touched.
unfoldable pub add_transaction : Crypto → ℕ → Transaction → ℕ → Bool → Action Ledger (Unit {0})
unfolding set_tx add_entry new_entry
add_transaction c now t hash mempool l = elim (lookup hash l.txs) [
  | some _ ↦ (ok tt, l)
  | none ↦ elim mempool [
    | true ↦
        (validate_mempool_tx c t hash
            >> set_tx hash t 0
            >> modify (add_entry (new_entry c now t hash)))
          l
    | false ↦ set_tx hash t 0 l
  ]
]
