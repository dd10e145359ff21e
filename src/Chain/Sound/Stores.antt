-- ===== src/Chain/Sound/Stores.antt =====
-- A stored block, on the top, above an alternative chain or as an orphan, under the invariant of
-- Chain/Sound.
use still_blockchain.Ledger.Apply.{apply_block}
use still_blockchain.Queue.{set_block, new_queued_block, block_downloaded}
use still_blockchain.Base.{
  ℕ, ◌≡◌, ◌≤◌, refl, inl, inr, none, true, false, if◌then◌else◌, subst, arith, Option-cases, sym,
  Bool, ◌+◌, ◌*◌,
}
use still_blockchain.Base.Assoc.{Assoc, lookup, insert, lookup-insert_self}
use still_blockchain.Base.Result.{Result, ok, err, panic, Error}
use still_blockchain.Base.Action.{state-After, Action, After, After-elim, ◌>>◌, bind-ok}
use still_blockchain.Block.{Block, prev_hash}
use still_blockchain.Block.Codec.{block_hash}
use still_blockchain.Chain.{
  Chain, Env, Stats, get_block, found, insert_block, insert_block_main, put_block, on_ledger,
  set_stats,
}
use still_blockchain.Chain.Add.{
  add_orphan, add_orphan_block, extend_tips, ignore_err, add_altchain_block, record_top,
  add_mainchain_block,
}
use still_blockchain.Chain.Reorg.{check_reorgs, main_tip}
use still_blockchain.Chain.Sound.{
  IsSound, HoldsOf, Fits, store-IsSound, set_top-IsSound, unstored_apart,
}
use still_blockchain.Chain.Sound.Tips.{add_orphan-IsSound, extend_tips-IsSound}
use still_blockchain.Chain.Sound.Reorg.{check_reorgs-Holds, Untouched-Holds, Untouched}
use still_blockchain.Uint128.{is_zero}
use still_blockchain.Uint128.Value.{to_ℕ}

-- What is not stored is no orphan.
pub not_stored :
    (h : ℕ) (ch : Chain) (e : Error) → get_block h ch ≡ err e → lookup h ch.blocks ≡ none
unfolding get_block found
not_stored h ch e failed = ground (arith, failed)

unstored_settled :
    {least : ℕ} (bs : Assoc Block) (s : Stats) (h : ℕ)
    → IsSound least bs s
    → lookup h bs ≡ none
    → lookup h s.orphans ≡ none
unstored_settled bs s h i unstored = elim (Option-cases (lookup h s.orphans)) [
  | inl e ↦ e
  | inr (v, e) ↦
      let (p, stored) = i.orphans_stored h v e in absurd (ground (arith, unstored, stored))
]

-- The block is stored and becomes the top.
new_top-IsSound :
    {least : ℕ} (bs : Assoc Block) (s : Stats) (h : ℕ) (b : Block)
    → Fits b
    → lookup h bs ≡ none
    → least ≤ to_ℕ b.cumulative_diff
    → IsSound least bs s
    → IsSound least
        (insert h b bs)
        (record s { top_hash = h; top_height = b.height; cumulative_diff = b.cumulative_diff })
unfolding main_tip
new_top-IsSound bs s h b fits unstored more i =
    let s' : Stats = record s {
      top_hash = h;
      top_height = b.height;
      cumulative_diff = b.cumulative_diff;
    } in
    set_top-IsSound (insert h b bs) s s' refl refl
      (record {
        stored = (b, lookup-insert_self h b bs, refl);
        settled = unstored_settled bs s h i unstored;
      })
      more (store-IsSound bs s h b fits (unstored_apart bs s.orphans h unstored) i)

-- The block after the last, in the database and in the stats.
abbrev with_top : Env → Block → Chain → Chain
with_top env b ch =
    let hash = block_hash env.crypto b in
    record ch {
      blocks = insert hash b ch.blocks;
      topo = insert b.height hash ch.topo;
      stats = record (ch.stats) {
        top_hash = hash;
        top_height = b.height;
        cumulative_diff = b.cumulative_diff;
      };
    }

record_top-with_top :
    (env : Env) (b : Block) (ch : Chain)
    → is_zero b.difficulty ≡ false
    → record_top env b (block_hash env.crypto b) ch ≡ (ok tt, with_top env b ch)
unfolding record_top insert_block_main put_block
record_top-with_top env b ch nonzero = ground (arith, nonzero)

pub add_mainchain_block-Holds :
    {least : ℕ} (env : Env) (b : Block) (ch : Chain)
    → Fits b
    → lookup (block_hash env.crypto b) ch.blocks ≡ none
    → least ≤ to_ℕ b.cumulative_diff
    → HoldsOf least ch
    → After (λ _ ch'. HoldsOf least ch') (add_mainchain_block env b (block_hash env.crypto b) ch)
unfolding add_mainchain_block
add_mainchain_block-Holds {least} env b ch fits unstored more i =
    let hash = block_hash env.crypto b in
    After-elim (λ _ c. Untouched ch.blocks ch.stats c) (λ _ ch'. HoldsOf least ch')
      (on_ledger (apply_block env.crypto env.genesis_address b) ch) (λ _. record_top env b hash)
      (state-After (Untouched ch.blocks ch.stats)
        (on_ledger (apply_block env.crypto env.genesis_address b) ch) (refl, refl))
      (λ _ c p.
        let i' : HoldsOf least c = Untouched-Holds ch.blocks ch.stats c (λ x. x) p i in
        let unstored' : lookup hash c.blocks ≡ none =
          subst (λ bs. lookup hash bs ≡ none) (sym p.0) unstored in
        subst (After (λ _ ch'. HoldsOf least ch')) (sym (record_top-with_top env b c fits.nonzero))
          (new_top-IsSound c.blocks c.stats hash b fits unstored' more i'))

insert_block-stores :
    (hash : ℕ) (b : Block) (ch : Chain)
    → is_zero b.difficulty ≡ false
    → insert_block hash b ch ≡ (ok tt, record ch { blocks = insert hash b ch.blocks })
unfolding insert_block put_block
insert_block-stores hash b ch nonzero = ground (arith, nonzero)

altchain_stored :
    (env : Env) (rounds : ℕ) (b : Block) (hash : ℕ) (ch : Chain)
    → is_zero b.difficulty ≡ false
    → add_altchain_block env rounds b hash ch
      ≡ ignore_err
          (check_reorgs env rounds (record (ch.stats) { tips = extend_tips b hash ch.stats.tips }))
          (record ch {
            blocks = insert hash b ch.blocks;
            stats = record (ch.stats) { tips = extend_tips b hash ch.stats.tips };
          })
unfolding add_altchain_block
altchain_stored env rounds b hash ch nonzero =
    let s : Stats = record (ch.stats) { tips = extend_tips b hash ch.stats.tips } in
    bind-ok (insert_block hash b) (λ _. set_stats s >> ignore_err (check_reorgs env rounds s)) ch
      (insert_block-stores hash b ch nonzero)

ignore_err-state :
    {S A : Type 0} (P : S → Type 0) (m : Action S A) (s : S) → P (m s).1 → P (ignore_err m s).1
ignore_err-state {S} {A} P m s h = go (m s) h
  where
    go : (r : Result A × S) → P r.1 → P (ignore_err (λ _. r) s).1
    go (ok a, s') h = h
    go (err e, s') h = h
    go (panic, s') h = h

pub add_altchain_block-Holds :
    {least : ℕ} (env : Env) (rounds : ℕ) (b : Block) (hash : ℕ) (ch : Chain)
    → Fits b
    → lookup hash ch.blocks ≡ none
    → HoldsOf least ch
    → HoldsOf least (add_altchain_block env rounds b hash ch).1
add_altchain_block-Holds {least} env rounds b hash ch fits unstored i =
    let bs = insert hash b ch.blocks in
    let s : Stats = record (ch.stats) { tips = extend_tips b hash ch.stats.tips } in
    let ch' : Chain = record ch { blocks = bs; stats = s } in
    let settled = unstored_settled ch.blocks ch.stats hash i unstored in
    let stored =
      store-IsSound ch.blocks ch.stats hash b fits
        (unstored_apart ch.blocks ch.stats.orphans hash unstored) i in
    let extended : HoldsOf least ch' =
      extend_tips-IsSound bs ch.stats b hash (b, lookup-insert_self hash b ch.blocks, refl) settled
        stored in
    subst (λ r. HoldsOf least r.1) (sym (altchain_stored env rounds b hash ch fits.nonzero))
      (ignore_err-state (HoldsOf least) (check_reorgs env rounds s) ch'
        (check_reorgs-Holds env rounds ch' extended))

-- A new orphan, with the queue as it is then.
abbrev with_orphan : Env → Block → ℕ → Bool → Chain → Chain
with_orphan env b hash known ch =
    let asked = set_block (new_queued_block env.now 0 (prev_hash b)) false ch.queue in
    record ch {
      blocks = insert hash b ch.blocks;
      stats = record (ch.stats) {
        orphans =
            insert hash
              (record { expires = env.now + 60 * 60; hash = hash; prev_hash = prev_hash b })
              ch.stats.orphans;
      };
      queue = block_downloaded env.now b.height hash (if known then ch.queue else asked);
    }

add_orphan-with_orphan :
    (env : Env) (b : Block) (hash : ℕ) (known : Bool) (ch : Chain)
    → is_zero b.difficulty ≡ false
    → lookup hash ch.stats.orphans ≡ none
    → add_orphan env b hash known ch ≡ (ok hash, with_orphan env b hash known ch)
unfolding add_orphan add_orphan_block insert_block put_block
add_orphan-with_orphan env b hash true ch nonzero free = ground (arith, nonzero, free)
add_orphan-with_orphan env b hash false ch nonzero free = ground (arith, nonzero, free)

pub add_orphan-Holds :
    {least : ℕ} (env : Env) (b : Block) (hash : ℕ) (known : Bool) (ch : Chain)
    → Fits b
    → lookup hash ch.blocks ≡ none
    → HoldsOf least ch
    → After (λ _ ch'. HoldsOf least ch') (add_orphan env b hash known ch)
add_orphan-Holds {least} env b hash known ch fits unstored i =
    let free = unstored_settled ch.blocks ch.stats hash i unstored in
    subst (After (λ _ ch'. HoldsOf least ch'))
      (sym (add_orphan-with_orphan env b hash known ch fits.nonzero free))
      (add_orphan-IsSound ch.blocks ch.stats hash b
        (record { expires = env.now + 60 * 60; hash = hash; prev_hash = prev_hash b }) fits unstored
        refl i)
