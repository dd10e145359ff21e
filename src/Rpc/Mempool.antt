-- ===== src/Rpc/Mempool.antt =====
-- What `get_address` says of the mempool is what `validateMempoolTx` reckons with.
use still_blockchain.Base.{
  ℕ, ◌≡◌, inl, inr, refl, arith, true, false, ◌||◌, none, some, List, [], ◌∷◌, ◌==◌, Option-cases,
  Bool-cases, subst,
}
use still_blockchain.Base.Assoc.{lookup}
use still_blockchain.Base.Bytes.{IsU64}
use still_blockchain.Base.Result.{ok}
use still_blockchain.Ledger.{Ledger, State, MempoolEntry, TxRecord, get_entry}
use still_blockchain.Ledger.Txns.{replay, replay_entry}
use still_blockchain.P2p.FullBlock.{get_tx}
use still_blockchain.Transaction.{Transaction}
use still_blockchain.Rpc.{AddressResponse, count_entry, count_mempool}

-- The stored transactions' numbers are words.
abbrev pub FitTxs : Ledger → Type 0
FitTxs l = (h : ℕ) (r : TxRecord) → lookup h l.txs ≡ some r → IsU64 r.tx.amount × IsU64 r.tx.fee

pub record Mirrors (s : State) (r : AddressResponse) : Type 0 where
  pub balance_fits : IsU64 s.balance
  pub same_balance : s.balance ≡ r.mempool_balance
  pub same_nonce : s.last_nonce ≡ r.mempool_nonce

entry-Mirrors :
    (addr : ℕ) (v : MempoolEntry) (t : Transaction) (s : State) (r : AddressResponse)
    → IsU64 t.amount
    → IsU64 t.fee
    → (v.sender == addr || v.recipient == addr) ≡ true
    → Mirrors s r
    → Mirrors (replay_entry addr v t s) (count_entry addr v t r)
unfolding replay_entry count_entry
entry-Mirrors addr v t s r ha hf takes_part h = record {
  balance_fits = ground (arith, h.balance_fits);
  same_balance = ground (arith, h.balance_fits, h.same_balance);
  same_nonce = ground (arith, h.same_nonce);
}

-- If `get_address` counts the mempool, then `validateMempoolTx` replays it to the same balance and the
-- same nonce, for a transaction that is not in it.
pub replay-count_mempool :
    (l : Ledger) (hash addr : ℕ) (vs : List MempoolEntry) (s : State) (r r' : AddressResponse)
    → FitTxs l
    → get_entry hash vs ≡ none
    → Mirrors s r
    → count_mempool l addr vs r ≡ ok r'
    → (s' : State) × (replay l hash addr vs s ≡ ok s') × Mirrors s' r'
unfolding count_mempool replay get_entry get_tx
replay-count_mempool l hash addr [] s r r' fit fresh h counted =
    let same : r ≡ r' = cc in (s, refl, subst (Mirrors s) same h)
replay-count_mempool l hash addr (v ∷ vs) s r r' fit fresh h counted =
    let other : (v.txid == hash) ≡ false = ground arith in
    let fresh' : get_entry hash vs ≡ none = ground arith in
    elim (Bool-cases (v.sender == addr || v.recipient == addr)) [
      | inr apart ↦
          let rest : count_mempool l addr vs r ≡ ok r' = ground (arith, apart) in
          let (s', replayed, mirrors) =
            replay-count_mempool l hash addr vs s r r' fit fresh' h rest in
          (s', ground (arith, other, apart, replayed), mirrors)
      | inl takes_part ↦ elim (Option-cases (lookup v.txid l.txs)) [
        | inl missing ↦ absurd (ground (arith, takes_part, missing))
        | inr (found, stored) ↦
            let rest : count_mempool l addr vs (count_entry addr v found.tx r) ≡ ok r' =
              ground (arith, takes_part, stored) in
            let (fits, fee_fits) = fit v.txid found stored in
            let next = entry-Mirrors addr v found.tx s r fits fee_fits takes_part h in
            let (s', replayed, mirrors) =
              replay-count_mempool l hash addr vs (replay_entry addr v found.tx s)
                (count_entry addr v found.tx r) r' fit fresh' next rest in
            (s', ground (arith, other, takes_part, stored, replayed), mirrors)
      ]
    ]
