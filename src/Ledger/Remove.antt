-- ===== src/Ledger/Remove.antt =====
-- `RemoveBlockFromState` of blockchain/blockchain.go.
pub mod Undo
pub mod Nil
use still_blockchain.Base.{
  ℕ, zero, suc, ◌+◌, ◌-◌, ◌*◌, ◌%◌, Bool, Option, none, some, List, [], ◌∷◌, ◌++◌, length, ltb,
  ◌==◌, replicate,
}
use mathlib.Core.List.{reverse}
use still_blockchain.Base.Assoc.{lookup}
use still_blockchain.Base.Result.{
  Result, ok, err, panic, tx_not_found, state_not_found, balance_too_small, last_incoming_zero,
  last_nonce_zero,
}
use still_blockchain.Base.Action.{Action, pure, or_err, fail_if, ◌>>=◌, ◌>>◌}
use still_blockchain.Crypto.{Crypto, from_pub_key}
use still_blockchain.Transaction.{Transaction}
use still_blockchain.Block.{Block}
use still_blockchain.Reward.{reward}
use still_blockchain.Ledger.{u64, Ledger}
use still_blockchain.Ledger.Txns.{set_tx_height}
use still_blockchain.Ledger.Apply.{set_state, governance_reward}

-- `txCache`: a hash and a pointer; `none` is nil, as `make` leaves it.
pub record TxCache : Type 0 where
  pub hash : ℕ
  pub tx : Option Transaction

abbrev pub nil_cache : TxCache
nil_cache = record { hash = 0; tx = none }

-- The loop that looks the transactions up: what it appends to the cache, and the sum of the fees.
unfoldable pub collect : List ℕ → ℕ → Action Ledger (List TxCache × ℕ)
collect [] fees l = (ok ([], fees), l)
collect (v ∷ vs) fees l =
    (do
      r ← (λ l. or_err (lookup v l.txs) tx_not_found l)
      (rest, fees') ← collect vs ((fees + r.tx.fee) % u64)
      pure (record { hash = v; tx = some r.tx } ∷ rest, fees'))
      l

-- The block that takes the rewards back.
unfoldable pub undo_coinbase : ℕ → Block → ℕ → Action Ledger (Unit {0})
undo_coinbase genesis_address b fees = do
  let total = (reward b.height + fees) % u64
  let governance = governance_reward total
  let miner = total - governance
  m ← (λ l. or_err (lookup b.recipient l.states) state_not_found l)
  fail_if (ltb m.balance miner) balance_too_small
  fail_if (m.last_incoming == 0) last_incoming_zero
  set_state b.recipient
      (record m { balance = m.balance - miner; last_incoming = m.last_incoming - 1 })
  g ← (λ l. or_err (lookup genesis_address l.states) state_not_found l)
  fail_if (ltb g.balance governance) balance_too_small
  set_state genesis_address (record g { balance = g.balance - governance })

-- One round of the last loop, where the pointer is not nil.
unfoldable pub remove_tx : Crypto → ℕ → ℕ → Transaction → Action Ledger (Unit {0})
remove_tx c height hash t = do
  let sender = from_pub_key c t.sender
  r ← (λ l. or_err (lookup t.recipient l.states) state_not_found l)
  fail_if (ltb r.balance ((t.amount + t.fee) % u64)) balance_too_small
  fail_if (r.last_incoming == 0) last_incoming_zero
  set_state t.recipient (record r {
    balance = (r.balance + u64 - t.amount) % u64;
    last_incoming = r.last_incoming - 1;
  })
  s ← (λ l. or_err (lookup sender l.states) state_not_found l)
  fail_if (s.last_nonce == 0) last_nonce_zero
  set_state sender (record s {
    balance = ((s.balance + t.amount) % u64 + t.fee) % u64;
    last_nonce = s.last_nonce - 1;
  })
  set_tx_height hash height

-- Reading `tx.Sender` through a nil pointer panics.
unfoldable pub remove_entry : Crypto → ℕ → TxCache → Option Transaction → Action Ledger (Unit {0})
unfolding remove_tx
remove_entry c height e none l = (panic, l)
remove_entry c height e (some t) l = remove_tx c height e.hash t l

-- The last loop, over the entries in the order in which it meets them.
unfoldable pub remove_entries : Crypto → ℕ → List TxCache → Action Ledger (Unit {0})
unfolding remove_entry
remove_entries c height [] l = (ok tt, l)
remove_entries c height (e ∷ es) l = (remove_entry c height e e.tx >> remove_entries c height es) l

-- The cache is made with the block's number of entries, and the loop appends to it.
unfoldable pub remove_block : Crypto → ℕ → Block → Action Ledger (Unit {0})
remove_block c genesis_address b = do
  (found, fees) ← collect b.transactions 0
  undo_coinbase genesis_address b fees
  remove_entries c b.height (reverse (replicate (length b.transactions) nil_cache ++ found))
