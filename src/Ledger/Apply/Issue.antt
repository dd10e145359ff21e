-- ===== src/Ledger/Apply/Issue.antt =====
-- The supply over the life of a chain, and what `CheckSupply` of blockchain/blockchain.go does and
-- does not notice.
use still_blockchain.Base.Assoc.{insert}
use still_blockchain.Config.{max_supply}
use still_blockchain.Ledger.Apply.Tx.{Accepts, paid, after_tx, apply_tx-Accepts}
use still_blockchain.Base.Bytes.{IsU64}
use still_blockchain.Base.{ℕ, suc, ◌+◌, ◌%◌, ◌<◌, ◌≡◌, Bool, arith, ap, ◌≤◌, true, ==_iff}
use still_blockchain.Base.Result.{ok}
use still_blockchain.Crypto.{Crypto, from_pub_key}
use still_blockchain.Block.{Block}
use still_blockchain.Transaction.{Transaction}
use still_blockchain.Reward.{reward, get_supply_at_height}
use still_blockchain.Reward.Supply.{
  sum_rewards, sum_rewards-le-max_supply, get_supply_at_height-sum_rewards,
}
use still_blockchain.Ledger.{u64, Ledger, TxRecord, State, state_of, insert}
use still_blockchain.Ledger.Total.{
  total, check_supply, get_supply, balance-le-total, get_supply-total,
}
use still_blockchain.Ledger.Txns.{add_transaction, validate_mempool_tx}
use still_blockchain.Ledger.Apply.{apply_block, apply_tx}
use still_blockchain.Ledger.Apply.Money.{NoWrap, after_tx-total}
use still_blockchain.Ledger.Apply.Supply.{apply_block-total_mod, apply_block-total}

-- The ledgers of a main chain of `n` blocks: from an empty one, by blocks of the next height that
-- are applied while `Allowed` holds, and by transactions that are stored in between.
pub data Mined (c : Crypto) (genesis : ℕ) (Allowed : Ledger → Type 0) : ℕ → Ledger → Type 0 where
  start : (l : Ledger) → total l.states ≡ 0 → Mined c genesis Allowed 0 l
  mine :
      {n : ℕ} {l : Ledger} {l' : Ledger} (b : Block)
      → Mined c genesis Allowed n l
      → Allowed l
      → b.height ≡ n
      → apply_block c genesis b l ≡ (ok tt, l')
      → Mined c genesis Allowed (suc n) l'
  store :
      {n : ℕ} {l : Ledger} {l' : Ledger} (now : ℕ) (t : Transaction) (hash : ℕ) (mempool : Bool)
      → Mined c genesis Allowed n l
      → add_transaction c now t hash mempool l ≡ (ok tt, l')
      → Mined c genesis Allowed n l'

-- Storing a transaction touches no account.
add_transaction-states :
    (c : Crypto) (now : ℕ) (t : Transaction) (hash : ℕ) (mempool : Bool) (l : Ledger)
    → (add_transaction c now t hash mempool l).1.states ≡ l.states
unfolding add_transaction validate_mempool_tx
add_transaction-states c now t hash mempool l = ground arith

mined_total_mod :
    {c : Crypto} {genesis : ℕ} {Allowed : Ledger → Type 0} {n : ℕ} {l : Ledger}
    → Mined c genesis Allowed n l
    → total l.states % u64 ≡ sum_rewards n % u64
unfolding sum_rewards
mined_total_mod (start l e) = omega arith
mined_total_mod {c} {genesis} (mine {l = l} b before allowed height applied) =
    let grown = rw applied at (apply_block-total_mod c genesis b l) in
    let reward_is = ap reward height in omega (arith, grown, mined_total_mod before, reward_is)
mined_total_mod {c} (store {l = l} now t hash mempool before stored) =
    let same = rw stored at (add_transaction-states c now t hash mempool l) in
    rw same (mined_total_mod before)

-- While no stored transaction wraps, the balances add up to exactly the rewards paid so far.
mined_total :
    {c : Crypto} {genesis : ℕ} {n : ℕ} {l : Ledger}
    → Mined c genesis (λ l. NoWrap l.txs) n l
    → total l.states ≡ sum_rewards n
unfolding sum_rewards
mined_total (start l e) = e
mined_total {c} {genesis} {n} (mine {l = l} b before allowed height applied) =
    let ih = mined_total before in
    let reward_is = ap reward height in
    let small : total l.states + reward b.height < u64 =
      omega (arith, ih, reward_is, sum_rewards-le-max_supply n) in
    let grown = rw applied at (apply_block-total c genesis b l allowed small) in
    omega (arith, grown, ih, reward_is)
mined_total {c} (store {l = l} now t hash mempool before stored) =
    let same = rw stored at (add_transaction-states c now t hash mempool l) in
    rw same (mined_total before)

-- On a main chain of `n` blocks, built from a ledger without money while no stored transaction has
-- an amount and a fee that wrap, the balances add up to the rewards of the heights below `n`; they
-- never exceed the maximal supply, and so no account does.
pub mined_supply :
    {c : Crypto} {genesis : ℕ} {n : ℕ} {l : Ledger}
    → Mined c genesis (λ l. NoWrap l.txs) n l
    → (total l.states ≡ sum_rewards n)
      × (total l.states ≤ max_supply)
      × ((k : ℕ) → (state_of k l.states).balance ≤ max_supply)
mined_supply {n} {l} m =
    let e = mined_total m in
    (
      e,
      omega (arith, e, sum_rewards-le-max_supply n),
      λ k. omega (arith, e, sum_rewards-le-max_supply n, balance-le-total k l.states),
    )

-- `CheckSupply` passes on every main chain with a block and a height below 2 ^ 64, whatever
-- transactions were applied.
pub check_supply_passes :
    {c : Crypto} {genesis : ℕ} {Allowed : Ledger → Type 0} {n : ℕ} {l : Ledger}
    → Mined c genesis Allowed (suc n) l
    → IsU64 n
    → check_supply l n ≡ true
unfolding check_supply
check_supply_passes {n} {l} m fits = (==_iff (get_supply l.states) (get_supply_at_height n)).1 (
    omega (
      arith,
      get_supply-total l.states,
      mined_total_mod m,
      get_supply_at_height-sum_rewards n fits,
      sum_rewards-le-max_supply (suc n),
    ))

-- A transaction that meets the code's conditions and whose amount and fee add up to 2 ^ 64 or more
-- is applied, and the balances and its fee then add up to 2 ^ 64 more than before, where the
-- recipient's balance does not wrap.
pub wrapped_tx_mints :
    (c : Crypto) (height v : ℕ) (l : Ledger) (r : TxRecord) (s : State)
    → Accepts c l v r s
    → u64 ≤ r.tx.amount + r.tx.fee
    → IsU64 r.tx.amount
    → IsU64 r.tx.fee
    → (state_of r.tx.recipient (insert (from_pub_key c r.tx.sender) (paid r s) l.states)).balance
        + r.tx.amount
      < u64
    → (apply_tx c height v l ≡ (ok r.tx.fee, after_tx c height v r s l))
      × (total (after_tx c height v r s l).states + r.tx.fee ≡ total l.states + u64)
wrapped_tx_mints c height v l r s h wraps amount fee room =
    (apply_tx-Accepts c height v l r s h, omega (arith, after_tx-total c height v r s l h))
