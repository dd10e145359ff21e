-- ===== src/Tests/Money.antt =====
-- Tests of the accounts, and of the blocks and transactions that change them.
use still_blockchain.Base.Action.{After}
use still_blockchain.Config.{max_supply}
use still_blockchain.Ledger.Remove.Undo.{SameAccounts, remove_block-apply_block}
use still_blockchain.Reward.Supply.{sum_rewards}
use still_blockchain.Ledger.Apply.Supply.{Grew, apply_block-total}
use still_blockchain.Ledger.Apply.Issue.{Mined, wrapped_tx_mints, mine, mined_supply, start}
use still_blockchain.Ledger.Apply.Tx.{Accepts, paid, after_tx, apply_tx_cases}
use still_blockchain.Tests.Samples.{
  toy, empty_block, empty_ledger, full_block, wrapping_ledger, paying_ledger, wrapping, payment,
  poor, rich,
}
use still_blockchain.Base.{ℕ, ◌≡◌, ◌≤◌, arith, ◌+◌, ◌∷◌, ◌⊎◌, [], some, refl, ◌<◌, ◌^◌, ◌-◌}
use still_blockchain.Ledger.Remove.Nil.{Fails, remove_block-Fails}
use still_blockchain.Ledger.Apply.Money.{NoWrap}
use still_blockchain.Base.Assoc.{lookup, insert}
use still_blockchain.Base.Bytes.{le_value, le_bytes}
use still_blockchain.Base.Result.{ok, err, Error}
use still_blockchain.Ledger.Total.{total}
use still_blockchain.Reward.{reward}
use still_blockchain.Crypto.{from_pub_key}
use still_blockchain.Ledger.Remove.{remove_block}
use still_blockchain.Ledger.{state_of, u64, Ledger, TxRecord, State}
use still_blockchain.Ledger.Apply.{apply_tx, apply_block}

stored_payment : lookup 77 paying_ledger.txs ≡ some (record { height = 0; tx = payment })
unfolding lookup
stored_payment = refl

payment-Accepts : Accepts toy paying_ledger 77 (record { height = 0; tx = payment }) rich
unfolding lookup from_pub_key le_value le_bytes
payment-Accepts = record { stored = refl; known = refl; covered = omega arith; in_order = refl }

wrapping-Accepts : Accepts toy wrapping_ledger 77 (record { height = 0; tx = wrapping }) poor
unfolding lookup from_pub_key le_value le_bytes
wrapping-Accepts = record { stored = refl; known = refl; covered = omega arith; in_order = refl }

pub paying_ledger-NoWrap : NoWrap paying_ledger.txs
unfolding lookup
paying_ledger-NoWrap v r e = ground arith

apply_tx_cases_example :
    ((r : TxRecord) × (s : State) × Accepts toy paying_ledger 77 r s)
    ⊎ ((e : Error) × (apply_tx toy 5 77 paying_ledger ≡ (err e, paying_ledger)))
apply_tx_cases_example = apply_tx_cases toy 5 77 paying_ledger

recipient_room :
    (state_of 9 (
        insert
          (from_pub_key toy 7)
          (paid (record { height = 0; tx = wrapping }) poor)
          ((7, poor) ∷ []))).balance
      + (2 ^ 64 - 1)
    < u64
unfolding insert lookup from_pub_key le_value le_bytes
recipient_room = omega arith

wrapped_tx_mints_example :
    (apply_tx toy 5 77 wrapping_ledger
      ≡ (ok 4, after_tx toy 5 77 (record { height = 0; tx = wrapping }) poor wrapping_ledger))
    × (total (after_tx toy 5 77 (record { height = 0; tx = wrapping }) poor wrapping_ledger).states
          + 4
        ≡ total wrapping_ledger.states + u64)
wrapped_tx_mints_example =
    wrapped_tx_mints toy 5 77 wrapping_ledger (record { height = 0; tx = wrapping }) poor
      wrapping-Accepts (omega arith) (omega arith) (omega arith) recipient_room

paying_small : total paying_ledger.states + reward 0 < u64
unfolding total reward
paying_small = omega arith

apply_block-total_example :
    After (Grew (reward 0) paying_ledger) (apply_block toy 1 full_block paying_ledger)
apply_block-total_example =
    apply_block-total toy 1 full_block paying_ledger paying_ledger-NoWrap paying_small

paying_room : (state_of 9 paying_ledger.states).last_incoming + 1 < u64
unfolding lookup
paying_room = omega arith

remove_block-apply_block_example :
    (l1 l2 : Ledger) × (apply_block toy 1 empty_block paying_ledger ≡ (ok tt, l1))
    × (remove_block toy 1 empty_block l1 ≡ (ok tt, l2))
    × SameAccounts l2.states paying_ledger.states
remove_block-apply_block_example =
    remove_block-apply_block toy 1 empty_block paying_ledger refl paying_small paying_room

remove_block-Fails_example : Fails (remove_block toy 1 full_block paying_ledger)
remove_block-Fails_example = remove_block-Fails toy 1 full_block 77 [] paying_ledger refl

-- A chain of one block.
first_small : total empty_ledger.states + reward 0 < u64
unfolding total reward
first_small = omega arith

first_room : (state_of 9 empty_ledger.states).last_incoming + 1 < u64
unfolding lookup
first_room = omega arith

first_block : (l : Ledger) × Mined toy 1 (λ l. NoWrap l.txs) 1 l
unfolding lookup total
first_block =
    let none_stored : NoWrap [] = λ v r e. ground arith in
    let mined =
      remove_block-apply_block toy 1 empty_block empty_ledger refl first_small first_room in
    (mined.0, mine empty_block (start empty_ledger refl) none_stored refl mined.2)

mined_supply_example :
    (total first_block.0.states ≡ sum_rewards 1)
    × (total first_block.0.states ≤ max_supply)
    × ((k : ℕ) → (state_of k first_block.0.states).balance ≤ max_supply)
mined_supply_example = mined_supply first_block.1
