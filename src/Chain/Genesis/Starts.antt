-- ===== src/Chain/Genesis/Starts.antt =====
-- The chain that starts with the genesis block.
use still_blockchain.Uint128.{is_zero}
use still_blockchain.Base.{ℕ, ◌≡◌, [], arith, refl, false, none, some, ◌∙◌, subst, sym, ◌≢◌}
use still_blockchain.Chain.{
  Chain, Env, insert_block_main, put_block, get_block, get_topo, found, ℕ, is_zero,
}
use still_blockchain.Chain.Genesis.{genesis_block, store_genesis, add_genesis}
use still_blockchain.Block.{Block}
use still_blockchain.Block.Codec.{block_hash}
use still_blockchain.Crypto.{Crypto}
use still_blockchain.Ledger.{Ledger}
use still_blockchain.Ledger.Total.{total}
use still_blockchain.Ledger.Apply.{apply_block, apply_txs, apply_coinbase}
use still_blockchain.Ledger.Apply.Issue.{Mined, mine, start}
use still_blockchain.Ledger.Apply.Money.{NoWrap}
use still_blockchain.Base.Assoc.{lookup, lookup-insert_self, insert}
use still_blockchain.Base.Result.{Result, ok}
use still_blockchain.Chain.Sound.{HoldsOf, inserted-Fits}
use still_blockchain.Uint128.Value.{IsValid}

-- A block without transactions is applied to every ledger.
empty_applies :
    (c : Crypto) (genesis : ℕ) (b : Block) (l : Ledger)
    → b.transactions ≡ []
    → apply_block c genesis b l ≡ (ok tt, (apply_block c genesis b l).1)
unfolding apply_block apply_txs apply_coinbase
empty_applies c genesis b l empty = ground (arith, empty)

-- The start of a chain: a block is stored, is the top, stands at height 0, and the ledger is the one
-- of a main chain of one block.
pub record IsStarted (env : Env) (b : Block) (ch : Chain) : Type 0 where
  pub top : ch.stats.top_hash ≡ block_hash env.crypto b
  pub top_height : ch.stats.top_height ≡ 0
  pub stored : get_block ch.stats.top_hash ch ≡ ok b
  pub at_zero : get_topo 0 ch ≡ ok ch.stats.top_hash
  pub mined : Mined env.crypto env.genesis_address (λ l. NoWrap l.txs) 1 ch.ledger

started : Env → Block → Chain → Chain
started env b ch = record {
  ledger = (apply_block env.crypto env.genesis_address b (record ch.ledger { mempool = [] })).1;
  blocks = insert (block_hash env.crypto b) b ch.blocks;
  topo = insert b.height (block_hash env.crypto b) ch.topo;
  stats = record {
    top_hash = block_hash env.crypto b;
    top_height = 0;
    cumulative_diff = b.difficulty;
    tips = [];
    orphans = [];
  };
  queue = ch.queue;
}

put_block-plain :
    (hash : ℕ) (b : Block) (ch : Chain)
    → is_zero b.difficulty ≡ false
    → put_block hash b ch ≡ record ch { blocks = insert hash b ch.blocks }
unfolding put_block
put_block-plain hash b ch h = ground (arith, h)

store_genesis-started :
    (env : Env) (b : Block) (ch : Chain)
    → b.transactions ≡ []
    → is_zero b.difficulty ≡ false
    → store_genesis env b (block_hash env.crypto b) ch ≡ (ok tt, started env b ch)
unfolding store_genesis insert_block_main started
store_genesis-started env b ch empty positive =
    let l : Ledger = record ch.ledger { mempool = [] } in
    rw (put_block-plain (block_hash env.crypto b) b ch positive)
      (rw (empty_applies env.crypto env.genesis_address b l empty) refl)

get_topo-found :
    (height hash : ℕ) (ch : Chain)
    → lookup height ch.topo ≡ some hash
    → get_topo height ch ≡ ok hash
unfolding get_topo
get_topo-found height hash ch h = ground (arith, h)

started-IsStarted :
    (env : Env) (b : Block) (ch : Chain)
    → b.transactions ≡ []
    → b.height ≡ 0
    → total ch.ledger.states ≡ 0
    → NoWrap ch.ledger.txs
    → IsStarted env b (started env b ch)
unfolding started get_block found
started-IsStarted env b ch empty lowest broke fits =
    let hash = block_hash env.crypto b in
    let l : Ledger = record ch.ledger { mempool = [] } in
    record {
      top = refl;
      top_height = refl;
      stored = rw (lookup-insert_self hash b ch.blocks) refl;
      at_zero =
          subst (λ k. get_topo k (started env b ch) ≡ ok hash) lowest
            (get_topo-found b.height hash (started env b ch)
              (lookup-insert_self b.height hash ch.topo));
      mined =
          mine {l = l} b (start l broke) fits lowest
            (empty_applies env.crypto env.genesis_address b l empty);
    }

already_there :
    (env : Env) (now_ms : ℕ) (ch : Chain)
    → lookup (block_hash env.crypto (genesis_block env)) ch.blocks ≡ some (genesis_block env)
    → add_genesis env now_ms ch ≡ (ok tt, ch)
unfolding add_genesis
already_there env now_ms ch h = ground (arith, h)

not_there :
    (env : Env) (now_ms : ℕ) (ch : Chain)
    → lookup (block_hash env.crypto (genesis_block env)) ch.blocks ≡ none
    → add_genesis env now_ms ch
      ≡ store_genesis env (genesis_block env) (block_hash env.crypto (genesis_block env)) ch
unfolding add_genesis
not_there env now_ms ch h = ground (arith, h)

-- `addGenesis` on a database without money and without the genesis block stores that block as the
-- top of a chain of one block, where no stored transaction has an amount and a fee that wrap; and
-- where it is called again, nothing changes.
pub add_genesis-IsStarted :
    (env : Env) (now_ms : ℕ) (ch : Chain)
    → lookup (block_hash env.crypto (genesis_block env)) ch.blocks ≡ none
    → total ch.ledger.states ≡ 0
    → NoWrap ch.ledger.txs
    → (ch' : Chain) × (add_genesis env now_ms ch ≡ (ok tt, ch'))
      × IsStarted env (genesis_block env) ch'
      × ((later : ℕ) → add_genesis env later ch' ≡ (ok tt, ch'))
unfolding genesis_block is_zero started
add_genesis-IsStarted env now_ms ch fresh broke fits =
    let b = genesis_block env in
    let hash = block_hash env.crypto b in
    (
      started env b ch,
      not_there env now_ms ch fresh ∙ store_genesis-started env b ch refl refl,
      started-IsStarted env b ch refl refl broke fits,
      λ later. already_there env later (started env b ch) (lookup-insert_self hash b ch.blocks),
    )

-- `addGenesis` on an empty database leaves sound blocks, with the work of the genesis block.
pub add_genesis-Holds :
    (env : Env) (now_ms : ℕ) (ch : Chain) → ch.blocks ≡ [] → HoldsOf 1 (add_genesis env now_ms ch).1
unfolding genesis_block is_zero started still_blockchain.Chain.Reorg.main_tip
add_genesis-Holds env now_ms ch empty =
    let b = genesis_block env in
    let hash = block_hash env.crypto b in
    let ones : IsValid (record { lo = 1; hi = 0 }) = record {
      lo_fits = omega arith;
      hi_fits = omega arith;
    } in
    let none_in : (k : ℕ) (y : Block) → lookup k ch.blocks ≢ some y = λ k y e.
      let e' : lookup k [] ≡ some y = subst (λ bs. lookup k bs ≡ some y) empty e in
      absurd (unfold lookup in cc) in
    let fresh : lookup hash ch.blocks ≡ none =
      subst (λ bs. lookup hash bs ≡ none) (sym empty) (unfold lookup in refl) in
    subst (λ (r : Result (Unit {0}) × Chain). HoldsOf 1 r.1)
      (sym (not_there env now_ms ch fresh ∙ store_genesis-started env b ch refl refl))
      (record {
        blocks_fit = λ j x e.
            inserted-Fits hash j b x ch.blocks
              (record {
                difficulty_fits = ones;
                cumulative_fits = ones;
                nonzero = refl;
                few_sides = omega arith;
              })
              (λ k y found_y. absurd (none_in k y found_y)) e;
        top = record {
          stored = (b, lookup-insert_self hash b ch.blocks, refl);
          settled = unfold lookup in refl;
        };
        tips = tt;
        orphans_stored = λ k v e. absurd (unfold lookup in cc);
        orphans_keyed = tt;
        most_work = omega arith;
      })
