-- ===== src/Ledger/Apply/Tx.antt =====
-- One transaction of a block: exactly when it is applied, and the ledger after it.
use still_blockchain.Base.{
  ◌⊎◌, inl, inr, Option-cases, dec_lt, ℕ_discrete, ℕ, ◌+◌, ◌-◌, ◌%◌, ◌≤◌, ◌≡◌, some, arith,
  Option-cases, inl, inr,
}
use still_blockchain.Base.Assoc.{lookup, insert}
use still_blockchain.Base.Result.{
  err, Error, spends_too_much, unexpected_nonce, tx_not_found, state_not_found, ok, err,
}
use still_blockchain.Crypto.{Crypto, from_pub_key}
use still_blockchain.Ledger.{u64, State, TxRecord, Ledger, topo_key, state_of}
use still_blockchain.Ledger.Txns.{set_tx_height}
use still_blockchain.Ledger.Apply.{apply_tx}

-- The code's conditions on a transaction `v` with the record `r` whose sender has the state `s`.
-- The cost is the wrapped sum.
pub record Accepts (c : Crypto) (l : Ledger) (v : ℕ) (r : TxRecord) (s : State) : Type 0 where
  pub stored : lookup v l.txs ≡ some r
  pub known : lookup (from_pub_key c r.tx.sender) l.states ≡ some s
  pub covered : (r.tx.amount + r.tx.fee) % u64 ≤ s.balance
  pub in_order : r.tx.nonce ≡ (s.last_nonce + 1) % u64

-- The sender pays, and counts one transaction more.
abbrev pub paid : TxRecord → State → State
paid r s = record s {
  balance = s.balance - (r.tx.amount + r.tx.fee) % u64;
  last_nonce = (s.last_nonce + 1) % u64;
}

-- The recipient receives, and counts one incoming transaction more.
abbrev pub received : TxRecord → State → State
received r s = record s {
  balance = (s.balance + r.tx.amount) % u64;
  last_incoming = (s.last_incoming + 1) % u64;
}

abbrev pub after_tx : Crypto → ℕ → ℕ → TxRecord → State → Ledger → Ledger
after_tx c height v r s l =
    let sender = from_pub_key c r.tx.sender in
    let m1 = insert sender (paid r s) l.states in
    let old = state_of r.tx.recipient m1 in
    record l {
      states = insert r.tx.recipient (received r old) m1;
      txs = insert v (record { height = height; tx = r.tx }) l.txs;
      in_txs = insert (topo_key r.tx.recipient (received r old).last_incoming) v l.in_txs;
      out_txs = insert (topo_key sender (paid r s).last_nonce) v l.out_txs;
    }

-- A transaction that meets the conditions is applied: the sender pays, the recipient receives, both
-- lists and the height of the transaction are written, and the fee is the answer.
pub apply_tx-Accepts :
    (c : Crypto) (height v : ℕ) (l : Ledger) (r : TxRecord) (s : State)
    → Accepts c l v r s
    → apply_tx c height v l ≡ (ok r.tx.fee, after_tx c height v r s l)
unfolding apply_tx set_tx_height
apply_tx-Accepts c height v l r s h = ground arith

-- With its record and its sender's state at hand, a transaction passes or is refused.
tests :
    (c : Crypto) (height v : ℕ) (l : Ledger) (r : TxRecord) (s : State)
    → lookup v l.txs ≡ some r
    → lookup (from_pub_key c r.tx.sender) l.states ≡ some s
    → Accepts c l v r s ⊎ ((e : Error) × (apply_tx c height v l ≡ (err e, l)))
unfolding apply_tx
tests c height v l r s stored known = elim (dec_lt s.balance ((r.tx.amount + r.tx.fee) % u64)) [
  | yes short ↦ inr (spends_too_much, ground arith)
  | no covered ↦ elim (ℕ_discrete r.tx.nonce ((s.last_nonce + 1) % u64)) [
    | yes in_order ↦
        inl (record { stored = stored; known = known; covered = omega arith; in_order = in_order })
    | no gap ↦ inr (unexpected_nonce, ground arith)
  ]
]

-- Either a transaction meets the conditions, or it is refused with an error and the ledger stays
-- as it was.
pub apply_tx_cases :
    (c : Crypto) (height v : ℕ) (l : Ledger)
    → ((r : TxRecord) × (s : State) × Accepts c l v r s)
      ⊎ ((e : Error) × (apply_tx c height v l ≡ (err e, l)))
unfolding apply_tx
apply_tx_cases c height v l = elim (Option-cases (lookup v l.txs)) [
  | inl absent ↦ inr (tx_not_found, ground arith)
  | inr (r, stored) ↦ elim (Option-cases (lookup (from_pub_key c r.tx.sender) l.states)) [
    | inl unknown ↦ inr (state_not_found, ground arith)
    | inr (s, known) ↦ elim (tests c height v l r s stored known) [
      | inl h ↦ inl (r, s, h)
      | inr h ↦ inr h
    ]
  ]
]
