-- ===== src/Chain/Add/Outcomes.antt =====
-- What `addMainchainBlock` and `addOrphanBlock` leave behind.
use still_blockchain.Queue.{block_downloaded, set_block, new_queued_block}
use still_blockchain.Ledger.Apply.{apply_block}
use still_blockchain.Chain.Reorg.{main_tip}
use still_blockchain.Base.{◌≡◌, ◌+◌, some, ◌*◌, false, ℕ, ◌<◌, none, arith, ◌∙◌, refl}
use still_blockchain.Chain.Add.{
  add_block, add_mainchain_block, apply_block, block_downloaded, record_top, add_orphan,
  add_orphan_block, set_block, new_queued_block,
}
use still_blockchain.Base.Result.{ok, err, panic, Result}
use still_blockchain.Base.Action.{After, After-elim}
use still_blockchain.Base.Assoc.{lookup, insert, lookup-insert_self}
use still_blockchain.Block.{Block, prev_hash}
use still_blockchain.Block.Codec.{block_hash}
use still_blockchain.Ledger.{Ledger, u64}
use still_blockchain.Ledger.Total.{total}
use still_blockchain.Ledger.Apply.Money.{NoWrap}
use still_blockchain.Ledger.Apply.Supply.{Grew, apply_block-total}
use still_blockchain.Chain.{
  Chain, Env, get_block, get_topo, insert_block_main, insert_block, on_ledger,
}
use still_blockchain.Uint128.{is_zero}
use still_blockchain.Reward.{reward}

-- A method of the ledger keeps on the chain what it does to the ledger.
on_ledger-After :
    {A : Type 0} (P : A → Ledger → Type 0) (r : Result A × Ledger) (ch : Chain)
    → After P r
    → After (λ a ch'. P a ch'.ledger) (r.0, record ch { ledger = r.1 })
on_ledger-After P (ok a, l) ch p = p
on_ledger-After P (err e, l) ch p = tt
on_ledger-After P (panic, l) ch p = tt

-- The main chain ends with the block, which is stored and found at its height, and all accounts
-- together have its reward more than before.
pub record EndsWith (env : Env) (b : Block) (before after : Chain) : Type 0 where
  pub top : after.stats.top_hash ≡ block_hash env.crypto b
  pub height : after.stats.top_height ≡ b.height
  pub work : after.stats.cumulative_diff ≡ b.cumulative_diff
  pub stored : get_block (block_hash env.crypto b) after ≡ ok b
  pub on_main : get_topo b.height after ≡ ok (block_hash env.crypto b)
  pub paid : total after.ledger.states ≡ total before.ledger.states + reward b.height

-- A block that `addMainchainBlock` accepts is the end of the main chain, is stored and found at
-- its height, and the balances add up to its reward more than before. Its difficulty is not 0, no
-- stored transaction wraps, and the sum of the balances stays below 2 ^ 64.
pub add_mainchain_block-EndsWith :
    (env : Env) (b : Block) (ch : Chain)
    → is_zero b.difficulty ≡ false
    → NoWrap ch.ledger.txs
    → total ch.ledger.states + reward b.height < u64
    → After
        (λ _ ch'. EndsWith env b ch ch')
        (add_mainchain_block env b (block_hash env.crypto b) ch)
unfolding add_mainchain_block record_top get_block get_topo insert_block_main
add_mainchain_block-EndsWith env b ch nonzero fits small =
    let applied = apply_block env.crypto env.genesis_address b ch.ledger in
    After-elim (λ _ ch1. total ch1.ledger.states ≡ total ch.ledger.states + reward b.height)
      (λ _ ch'. EndsWith env b ch ch') (on_ledger (apply_block env.crypto env.genesis_address b) ch)
      (λ _. record_top env b (block_hash env.crypto b))
      (on_ledger-After (Grew (reward b.height) ch.ledger) applied ch
        (apply_block-total env.crypto env.genesis_address b ch.ledger fits small))
      (λ _ ch1 grown. record {
        top = ground arith;
        height = ground arith;
        work = ground arith;
        stored = ground (arith, lookup-insert_self (block_hash env.crypto b) b ch1.blocks);
        on_main = ground (arith, lookup-insert_self b.height (block_hash env.crypto b) ch1.topo);
        paid = ground (arith, grown);
      })

-- The block waits as an orphan: it is stored and marked, and neither the accounts nor the main chain
-- have changed.
pub record Waits (env : Env) (b : Block) (before after : Chain) : Type 0 where
  pub marked :
      lookup (block_hash env.crypto b) after.stats.orphans
      ≡ some (record {
        expires = env.now + 60 * 60;
        hash = block_hash env.crypto b;
        prev_hash = prev_hash b;
      })
  pub stored : get_block (block_hash env.crypto b) after ≡ ok b
  pub same_ledger : after.ledger ≡ before.ledger
  pub same_topo : after.topo ≡ before.topo
  pub same_top : main_tip after.stats ≡ main_tip before.stats

-- The chain with the orphan.
abbrev with_orphan : Env → Block → Chain → Chain
with_orphan env b ch =
    let hash = block_hash env.crypto b in
    record ch {
      blocks = insert hash b ch.blocks;
      stats = record (ch.stats) {
        orphans =
            insert hash
              (record { expires = env.now + 60 * 60; hash = hash; prev_hash = prev_hash b })
              ch.stats.orphans;
      };
      queue =
          block_downloaded env.now b.height hash
            (set_block (new_queued_block env.now 0 (prev_hash b)) false ch.queue);
    }

add_orphan-with_orphan :
    (env : Env) (b : Block) (ch : Chain)
    → is_zero b.difficulty ≡ false
    → lookup (block_hash env.crypto b) ch.stats.orphans ≡ none
    → add_orphan env b (block_hash env.crypto b) false ch
      ≡ (ok (block_hash env.crypto b), with_orphan env b ch)
unfolding add_orphan add_orphan_block insert_block
add_orphan-with_orphan env b ch nonzero not_marked = ground arith

-- A block that is neither stored nor an orphan, whose parent is not stored and whose difficulty is
-- not 0, is accepted as an orphan: it is stored and marked, and neither the ledger nor the main
-- chain changes.
pub add_block-Waits :
    (env : Env) (rounds : ℕ) (b : Block) (ch : Chain)
    → is_zero b.difficulty ≡ false
    → lookup (block_hash env.crypto b) ch.blocks ≡ none
    → lookup (block_hash env.crypto b) ch.stats.orphans ≡ none
    → lookup (prev_hash b) ch.blocks ≡ none
    → (ch' : Chain) × (add_block env rounds b ch ≡ (ok (block_hash env.crypto b), ch'))
      × Waits env b ch ch'
unfolding add_block get_block main_tip
add_block-Waits env rounds b ch nonzero unknown not_marked no_parent =
    let hash = block_hash env.crypto b in
    let orphaned : add_block env rounds b ch ≡ add_orphan env b hash false ch = ground arith in
    (
      with_orphan env b ch,
      orphaned ∙ add_orphan-with_orphan env b ch nonzero not_marked,
      record {
        marked = lookup-insert_self hash _ ch.stats.orphans;
        stored = ground (arith, lookup-insert_self hash b ch.blocks);
        same_ledger = refl;
        same_topo = refl;
        same_top = refl;
      },
    )
