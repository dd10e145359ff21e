-- ===== src/Ledger/Remove/Undo.antt =====
-- A block without transactions: removing it takes back what applying it did to the accounts.
use still_blockchain.Block.Codec.{block_hash}
use still_blockchain.Ledger.Apply.Supply.{governance_reward-le, update_sync-states}
use still_blockchain.Crypto.{Crypto}
use still_blockchain.Reward.{reward}
use still_blockchain.Block.{Block}
use still_blockchain.Ledger.Remove.{
  undo_coinbase, remove_block, Block, reward, collect, remove_entries, Crypto,
}
use still_blockchain.Ledger.Apply.{
  apply_block, apply_txs, apply_coinbase, governance_reward, update_sync, delete_entries,
}
use still_blockchain.Base.{ℕ, ◌+◌, ◌-◌, ◌%◌, ◌<◌, ◌≡◌, arith, ◌==◌, if◌then◌else◌, []}
use still_blockchain.Base.Assoc.{Assoc, insert, lookup-insert}
use still_blockchain.Ledger.{u64, State, state_of, Ledger, ok, topo_key}
use still_blockchain.Ledger.Total.{total, balance-le-total}

-- The same accounts, an absent one being the same as an empty one.
abbrev pub SameAccounts : Assoc State → Assoc State → Type 0
SameAccounts m m' = (k : ℕ) → state_of k m ≡ state_of k m'

-- The two writes of `ApplyBlockToState`, and the two of `RemoveBlockFromState`, on the accounts
-- `r` of the miner and `g` of the governance.
abbrev miner_paid : ℕ → State → State
miner_paid miner s = record s {
  balance = (s.balance + miner) % u64;
  last_incoming = (s.last_incoming + 1) % u64;
}

abbrev governance_paid : ℕ → State → State
governance_paid governance s = record s { balance = (s.balance + governance) % u64 }

abbrev paid_accounts : ℕ → ℕ → ℕ → ℕ → Assoc State → Assoc State
paid_accounts r g miner governance m =
    let m1 = insert r (miner_paid miner (state_of r m)) m in
    insert g (governance_paid governance (state_of g m1)) m1

abbrev miner_back : ℕ → State → State
miner_back miner s = record s { balance = s.balance - miner; last_incoming = s.last_incoming - 1 }

abbrev governance_back : ℕ → State → State
governance_back governance s = record s { balance = s.balance - governance }

abbrev back_accounts : ℕ → ℕ → ℕ → ℕ → Assoc State → Assoc State
back_accounts r g miner governance m =
    let m1 = insert r (miner_back miner (state_of r m)) m in
    insert g (governance_back governance (state_of g m1)) m1

state_of-insert :
    (j k : ℕ) (v : State) (m : Assoc State)
    → state_of j (insert k v m) ≡ (if k == j then v else state_of j m)
state_of-insert j k v m = ground (arith, lookup-insert j k v m)

back_accounts-paid_accounts :
    (r g miner governance : ℕ) (m : Assoc State)
    → total m + (miner + governance) < u64
    → (state_of r m).last_incoming + 1 < u64
    → SameAccounts (back_accounts r g miner governance (paid_accounts r g miner governance m)) m
back_accounts-paid_accounts r g miner governance m small room k =
    let m1 = insert r (miner_paid miner (state_of r m)) m in
    let m2 = paid_accounts r g miner governance m in
    let m3 = insert r (miner_back miner (state_of r m2)) m2 in
    ground (
      arith,
      state_of-insert k g (governance_back governance (state_of g m3)) m3,
      state_of-insert k r (miner_back miner (state_of r m2)) m2,
      state_of-insert g r (miner_back miner (state_of r m2)) m2,
      state_of-insert k g (governance_paid governance (state_of g m1)) m1,
      state_of-insert g g (governance_paid governance (state_of g m1)) m1,
      state_of-insert r g (governance_paid governance (state_of g m1)) m1,
      state_of-insert k r (miner_paid miner (state_of r m)) m,
      state_of-insert g r (miner_paid miner (state_of r m)) m,
      balance-le-total r m,
      balance-le-total g m,
    )

-- The accounts of the two rewards are known once the rewards are paid, and hold enough.
undo_coinbase-paid :
    (genesis : ℕ) (b : Block) (fees : ℕ) (l : Ledger) (m : Assoc State)
    → let all = (reward b.height + fees) % u64 in
      let governance = governance_reward all in
      let miner = all - governance in
      l.states ≡ paid_accounts b.recipient genesis miner governance m
      → total m + all < u64
      → (state_of b.recipient m).last_incoming + 1 < u64
      → undo_coinbase genesis b fees l
        ≡ (ok tt, record l { states = back_accounts b.recipient genesis miner governance l.states })
unfolding undo_coinbase
undo_coinbase-paid genesis b fees l m e small room =
    let r = b.recipient in
    let all = (reward b.height + fees) % u64 in
    let governance = governance_reward all in
    let miner = all - governance in
    let m1 = insert r (miner_paid miner (state_of r m)) m in
    let m2 = paid_accounts r genesis miner governance m in
    ground (
      arith,
      governance_reward-le all,
      lookup-insert r genesis (governance_paid governance (state_of genesis m1)) m1,
      lookup-insert genesis genesis (governance_paid governance (state_of genesis m1)) m1,
      lookup-insert r r (miner_paid miner (state_of r m)) m,
      lookup-insert genesis r (miner_paid miner (state_of r m)) m,
      lookup-insert genesis r (miner_back miner (state_of r l.states)) l.states,
      balance-le-total r m,
      balance-le-total genesis m,
    )

-- The ledger after a block without transactions.
abbrev rewarded : Crypto → ℕ → Block → Ledger → Ledger
rewarded c genesis b l =
    let all = (reward b.height + 0) % u64 in
    let governance = governance_reward all in
    let s = state_of b.recipient l.states in
    update_sync b (record l {
      states = paid_accounts b.recipient genesis (all - governance) governance l.states;
      in_txs =
          insert (topo_key b.recipient ((s.last_incoming + 1) % u64)) (block_hash c b) l.in_txs;
      mempool = delete_entries b.transactions l.mempool;
    })

apply_block-rewarded :
    (c : Crypto) (genesis : ℕ) (b : Block) (l : Ledger)
    → b.transactions ≡ []
    → apply_block c genesis b l ≡ (ok tt, rewarded c genesis b l)
unfolding apply_block apply_txs apply_coinbase
apply_block-rewarded c genesis b l none_in = rw none_in

rewarded-states :
    (c : Crypto) (genesis : ℕ) (b : Block) (l : Ledger)
    → let all = (reward b.height + 0) % u64 in
      let governance = governance_reward all in
      (rewarded c genesis b l).states
      ≡ paid_accounts b.recipient genesis (all - governance) governance l.states
rewarded-states c genesis b l = update_sync-states b _

remove_block-empty :
    (c : Crypto) (genesis : ℕ) (b : Block) (l l2 : Ledger)
    → b.transactions ≡ []
    → undo_coinbase genesis b 0 l ≡ (ok tt, l2)
    → remove_block c genesis b l ≡ (ok tt, l2)
unfolding remove_block collect remove_entries
remove_block-empty c genesis b l l2 none_in undone = ground arith

-- A block without transactions is applied, and removing it then succeeds and gives every account
-- back its state, where the sum of the balances with the reward and the recipient's number of
-- incoming transactions stay below 2 ^ 64.
pub remove_block-apply_block :
    (c : Crypto) (genesis : ℕ) (b : Block) (l : Ledger)
    → b.transactions ≡ []
    → total l.states + reward b.height < u64
    → (state_of b.recipient l.states).last_incoming + 1 < u64
    → (l1 l2 : Ledger) × (apply_block c genesis b l ≡ (ok tt, l1))
      × (remove_block c genesis b l1 ≡ (ok tt, l2))
      × SameAccounts l2.states l.states
remove_block-apply_block c genesis b l none_in small room =
    let all = (reward b.height + 0) % u64 in
    let governance = governance_reward all in
    let miner = all - governance in
    let fits : total l.states + all < u64 = omega arith in
    let fits2 : total l.states + (miner + governance) < u64 =
      omega (arith, governance_reward-le all) in
    let l1 = rewarded c genesis b l in
    let e = rewarded-states c genesis b l in
    (
      l1,
      record l1 { states = back_accounts b.recipient genesis miner governance l1.states },
      apply_block-rewarded c genesis b l none_in,
      remove_block-empty c genesis b l1 _ none_in
          (undo_coinbase-paid genesis b 0 l1 l.states e fits room),
      λ k.
          rw e (
            back_accounts-paid_accounts b.recipient genesis miner governance l.states fits2 room k),
    )
