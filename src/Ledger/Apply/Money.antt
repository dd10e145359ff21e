-- ===== src/Ledger/Apply/Money.antt =====
-- What applying a block does to the sum of all balances.
use still_blockchain.Base.Action.{After, After-elim, After-mono}
use still_blockchain.Base.{
  [], ◌∷◌, List, refl, ℕ, ◌+◌, ◌%◌, ◌≤◌, ◌<◌, ◌≡◌, some, arith, inl, inr, ap, List, ◌∷◌,
}
use still_blockchain.Base.Assoc.{Assoc, lookup, insert, lookup-insert}
use still_blockchain.Base.Result.{Result, ok, err, panic}
use still_blockchain.Crypto.{Crypto, from_pub_key}
use still_blockchain.Ledger.{u64, State, TxRecord, Ledger, state_of, or_empty}
use still_blockchain.Ledger.Total.{total, total-insert, balance-le-total}
use still_blockchain.Ledger.Apply.{apply_tx, apply_txs}
use still_blockchain.Ledger.Apply.Tx.{
  Accepts, after_tx, paid, received, apply_tx-Accepts, apply_tx_cases,
}

-- A lookup that finds a state is the state that the code works on.
state_of-known : (k : ℕ) (m : Assoc State) (s : State) → lookup k m ≡ some s → state_of k m ≡ s
state_of-known k m s e = ap or_empty e

-- The two writes of a transaction, in the sum.
pub after_tx-total :
    (c : Crypto) (height v : ℕ) (r : TxRecord) (s : State) (l : Ledger)
    → Accepts c l v r s
    → let sender = from_pub_key c r.tx.sender in
      let m1 = insert sender (paid r s) l.states in
      let old = state_of r.tx.recipient m1 in
      (total (after_tx c height v r s l).states + old.balance + (r.tx.amount + r.tx.fee) % u64
        ≡ total l.states + (old.balance + r.tx.amount) % u64)
      × (old.balance + (r.tx.amount + r.tx.fee) % u64 ≤ total l.states)
after_tx-total c height v r s l h =
    let sender = from_pub_key c r.tx.sender in
    let m1 = insert sender (paid r s) l.states in
    let known = ap (λ (x : State). x.balance) (state_of-known sender l.states s h.known) in
    omega (
      arith,
      known,
      h.covered,
      total-insert sender (paid r s) l.states,
      balance-le-total r.tx.recipient m1,
      total-insert r.tx.recipient (received r (state_of r.tx.recipient m1)) m1,
    )

-- No stored transaction has an amount and a fee that wrap when they are added.
abbrev pub NoWrap : Assoc TxRecord → Type 0
NoWrap m = (v : ℕ) (r : TxRecord) → lookup v m ≡ some r → r.tx.amount + r.tx.fee < u64

-- The balances and the fees taken so far add up to `n`: exactly, and modulo 2 ^ 64.
abbrev pub SumIs : ℕ → ℕ → Ledger → Type 0
SumIs n fees l = total l.states + fees ≡ n

abbrev pub SumIsMod : ℕ → ℕ → Ledger → Type 0
SumIsMod n fees l = (total l.states + fees) % u64 ≡ n % u64

-- Whatever a transaction says, the sum and the fee are conserved modulo 2 ^ 64.
pub apply_tx-total_mod :
    (c : Crypto) (height v : ℕ) (l : Ledger)
    → After (SumIsMod (total l.states)) (apply_tx c height v l)
apply_tx-total_mod c height v l = elim (apply_tx_cases c height v l) [
  | inl (r, s, h) ↦
      rw (apply_tx-Accepts c height v l r s h) (omega (arith, after_tx-total c height v r s l h))
  | inr (e, refused) ↦ rw refused tt
]

-- A transaction whose cost does not wrap moves its amount, and burns its fee.
pub apply_tx-total :
    (c : Crypto) (height v : ℕ) (l : Ledger)
    → NoWrap l.txs
    → total l.states < u64
    → After (SumIs (total l.states)) (apply_tx c height v l)
apply_tx-total c height v l fits small = elim (apply_tx_cases c height v l) [
  | inl (r, s, h) ↦
      rw (apply_tx-Accepts c height v l r s h)
        (omega (arith, fits v r h.stored, after_tx-total c height v r s l h))
  | inr (e, refused) ↦ rw refused tt
]

-- The stored amounts and fees stay: an applied transaction only gets its height.
after_tx-NoWrap :
    (c : Crypto) (height v : ℕ) (r : TxRecord) (s : State) (l : Ledger)
    → lookup v l.txs ≡ some r
    → NoWrap l.txs
    → NoWrap (after_tx c height v r s l).txs
after_tx-NoWrap c height v r s l stored fits w r' e = ground (
  arith,
  fits v r stored,
  fits w r',
  lookup-insert w v (record { height = height; tx = r.tx }) l.txs,
)

apply_tx-NoWrap :
    (c : Crypto) (height v : ℕ) (l : Ledger)
    → NoWrap l.txs
    → After (λ fee l'. NoWrap l'.txs) (apply_tx c height v l)
apply_tx-NoWrap c height v l fits = elim (apply_tx_cases c height v l) [
  | inl (r, s, h) ↦
      rw (apply_tx-Accepts c height v l r s h) (after_tx-NoWrap c height v r s l h.stored fits)
  | inr (e, refused) ↦ rw refused tt
]

pub After-both :
    (P Q : ℕ → Ledger → Type 0) (m : Result ℕ × Ledger)
    → After P m
    → After Q m
    → After (λ fee l. P fee l × Q fee l) m
After-both P Q (ok fee, l) p q = (p, q)
After-both P Q (err e, l) p q = tt
After-both P Q (panic, l) p q = tt

pub apply_txs-total_mod :
    (c : Crypto) (height : ℕ) (vs : List ℕ) (fees : ℕ) (l : Ledger)
    → After (SumIsMod (total l.states + fees)) (apply_txs c height vs fees l)
unfolding apply_txs
apply_txs-total_mod c height [] fees l = refl
apply_txs-total_mod c height (v ∷ vs) fees l =
    After-elim (SumIsMod (total l.states)) (SumIsMod (total l.states + fees))
      (apply_tx c height v l) (λ fee. apply_txs c height vs ((fees + fee) % u64))
      (apply_tx-total_mod c height v l)
      (λ fee l1 p.
        After-mono (SumIsMod (total l1.states + (fees + fee) % u64))
          (SumIsMod (total l.states + fees)) _
          (apply_txs-total_mod c height vs ((fees + fee) % u64) l1) (λ fees' l' q. omega arith))

pub apply_txs-total :
    (c : Crypto) (height : ℕ) (vs : List ℕ) (fees : ℕ) (l : Ledger)
    → NoWrap l.txs
    → total l.states + fees < u64
    → After (SumIs (total l.states + fees)) (apply_txs c height vs fees l)
unfolding apply_txs
apply_txs-total c height [] fees l fits small = refl
apply_txs-total c height (v ∷ vs) fees l fits small =
    After-elim (λ fee l'. SumIs (total l.states) fee l' × NoWrap l'.txs)
      (SumIs (total l.states + fees)) (apply_tx c height v l)
      (λ fee. apply_txs c height vs ((fees + fee) % u64))
      (After-both (SumIs (total l.states)) (λ fee l'. NoWrap l'.txs) (apply_tx c height v l)
        (apply_tx-total c height v l fits (omega arith)) (apply_tx-NoWrap c height v l fits))
      (λ fee l1 p.
        After-mono (SumIs (total l1.states + (fees + fee) % u64)) (SumIs (total l.states + fees)) _
          (apply_txs-total c height vs ((fees + fee) % u64) l1 p.1 (omega arith))
          (λ fees' l' q. omega arith))
