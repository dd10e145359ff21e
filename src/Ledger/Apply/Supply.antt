-- ===== src/Ledger/Apply/Supply.antt =====
-- The reward of a block in the sum of all balances.
use still_blockchain.Base.{ℕ, ◌+◌, ◌-◌, ◌%◌, ◌≤◌, ◌<◌, ◌≡◌, arith}
use still_blockchain.Base.Assoc.{insert}
use still_blockchain.Base.Action.{◌>>=◌, After, After-elim}
use still_blockchain.Crypto.{Crypto}
use still_blockchain.Block.{Block}
use still_blockchain.Base.Result.{ok, Result}
use still_blockchain.Reward.{reward}
use still_blockchain.Ledger.{u64, State, Ledger, state_of}
use still_blockchain.Ledger.Total.{total, total-insert, balance-le-total}
use still_blockchain.Ledger.Apply.{
  apply_txs, apply_coinbase, apply_block, governance_reward, update_sync, delete_entries,
}
use still_blockchain.Ledger.Apply.Money.{
  SumIs, SumIsMod, NoWrap, apply_txs-total, apply_txs-total_mod,
}

-- The sum has grown by `n`: modulo 2 ^ 64, and exactly.
abbrev pub GrewMod : ℕ → Ledger → Unit {0} → Ledger → Type 0
GrewMod n l _ l' = total l'.states % u64 ≡ (total l.states + n) % u64

abbrev pub Grew : ℕ → Ledger → Unit {0} → Ledger → Type 0
Grew n l _ l' = total l'.states ≡ total l.states + n

pub governance_reward-le : (n : ℕ) → governance_reward n ≤ n
unfolding governance_reward
governance_reward-le n = omega arith

-- The rewards of the miner and of the governance account, in the sum.
apply_coinbase-sums :
    (c : Crypto) (genesis : ℕ) (b : Block) (fees : ℕ) (l : Ledger)
    → After
        (λ u l'.
          GrewMod (reward b.height + fees) l u l'
          × (total l.states + (reward b.height + fees) < u64
              → Grew (reward b.height + fees) l u l'))
        (apply_coinbase c genesis b fees l)
unfolding apply_coinbase
apply_coinbase-sums c genesis b fees l =
    let all = (reward b.height + fees) % u64 in
    let governance = governance_reward all in
    let m = state_of b.recipient l.states in
    let m' : State = record m {
      balance = (m.balance + (all - governance)) % u64;
      last_incoming = (m.last_incoming + 1) % u64;
    } in
    let states1 = insert b.recipient m' l.states in
    let g = state_of genesis states1 in
    let g' : State = record g { balance = (g.balance + governance) % u64 } in
    let facts1 = total-insert b.recipient m' l.states in
    let facts2 = total-insert genesis g' states1 in
    let le1 = balance-le-total b.recipient l.states in
    let le2 = balance-le-total genesis states1 in
    let gle = governance_reward-le all in
    (omega (arith, facts1, facts2, gle), λ small. omega (arith, facts1, facts2, le1, le2, gle))

pub update_sync-states : (b : Block) (l : Ledger) → (update_sync b l).states ≡ l.states
unfolding update_sync
update_sync-states b l = ground arith

abbrev finish : Block → Unit {0} → Ledger → Result (Unit {0}) × Ledger
finish b _ l = (ok tt, update_sync b l)

abbrev coinbase : Crypto → ℕ → Block → ℕ → Ledger → Result (Unit {0}) × Ledger
coinbase c genesis b fees l = (apply_coinbase c genesis b fees >>= finish b) l

coinbase_mod :
    (c : Crypto) (genesis : ℕ) (b : Block) (fees : ℕ) (l l0 : Ledger)
    → SumIsMod (total l0.states + 0) fees l
    → After (GrewMod (reward b.height) l0) (coinbase c genesis b fees l)
coinbase_mod c genesis b fees l l0 p =
    After-elim
      (λ u l'.
        GrewMod (reward b.height + fees) l u l'
        × (total l.states + (reward b.height + fees) < u64 → Grew (reward b.height + fees) l u l'))
      (GrewMod (reward b.height) l0) (apply_coinbase c genesis b fees l) (finish b)
      (apply_coinbase-sums c genesis b fees l)
      (λ _ l2 q. rw (update_sync-states b l2) (omega (arith, q.0)))

coinbase_exact :
    (c : Crypto) (genesis : ℕ) (b : Block) (fees : ℕ) (l l0 : Ledger)
    → total l0.states + reward b.height < u64
    → SumIs (total l0.states + 0) fees l
    → After (Grew (reward b.height) l0) (coinbase c genesis b fees l)
coinbase_exact c genesis b fees l l0 small p =
    After-elim
      (λ u l'.
        GrewMod (reward b.height + fees) l u l'
        × (total l.states + (reward b.height + fees) < u64 → Grew (reward b.height + fees) l u l'))
      (Grew (reward b.height) l0) (apply_coinbase c genesis b fees l) (finish b)
      (apply_coinbase-sums c genesis b fees l)
      (λ _ l2 q. rw (update_sync-states b l2) (omega (arith, q.1 (omega arith))))

-- Whatever its transactions say, a block that is applied adds its reward to the sum of all
-- balances modulo 2 ^ 64.
pub apply_block-total_mod :
    (c : Crypto) (genesis : ℕ) (b : Block) (l : Ledger)
    → After (GrewMod (reward b.height) l) (apply_block c genesis b l)
unfolding apply_block
apply_block-total_mod c genesis b l =
    let l0 : Ledger = record l { mempool = delete_entries b.transactions l.mempool } in
    After-elim (SumIsMod (total l.states + 0)) (GrewMod (reward b.height) l)
      (apply_txs c b.height b.transactions 0 l0) (coinbase c genesis b)
      (apply_txs-total_mod c b.height b.transactions 0 l0)
      (λ fees l1 p. coinbase_mod c genesis b fees l1 l p)

-- A block that is applied adds exactly its reward to the sum of all balances, where no stored
-- transaction has an amount and a fee that wrap, and the sum with the reward is below 2 ^ 64.
pub apply_block-total :
    (c : Crypto) (genesis : ℕ) (b : Block) (l : Ledger)
    → NoWrap l.txs
    → total l.states + reward b.height < u64
    → After (Grew (reward b.height) l) (apply_block c genesis b l)
unfolding apply_block
apply_block-total c genesis b l fits small =
    let l0 : Ledger = record l { mempool = delete_entries b.transactions l.mempool } in
    After-elim (SumIs (total l.states + 0)) (Grew (reward b.height) l)
      (apply_txs c b.height b.transactions 0 l0) (coinbase c genesis b)
      (apply_txs-total c b.height b.transactions 0 l0 fits (omega arith))
      (λ fees l1 p. coinbase_exact c genesis b fees l1 l small p)
