-- ===== src/Chain/Sound/Adds.antt =====
-- `AddBlock` under the invariant of Chain/Sound.
use still_blockchain.Queue.{block_downloaded, remove_block}
use still_blockchain.Base.{
  ℕ, ◌≡◌, ◌≤◌, refl, inl, inr, none, some, true, false, length, if◌then◌else◌, Bool-cases, ◌==◌, ap,
  arith, Option, sym, Bool, suc, ◌∙◌,
}
use still_blockchain.Base.Assoc.{lookup}
use still_blockchain.Base.Result.{Result, ok, err, panic, duplicate_block}
use still_blockchain.Base.Action.{
  state-After, Action, After, After-elim, modify, gets, pure, ◌>>=◌, ◌>>◌, lift-After,
}
use still_blockchain.Block.{Block, prev_hash}
use still_blockchain.Block.Codec.{block_hash}
use still_blockchain.Chain.{Chain, Env, Stats, Orphan, get_block, on_queue, set_stats}
use still_blockchain.Chain.Add.{
  Work, add_orphan, add_altchain_block, add_mainchain_block, deorphan_block, check_deorphanage,
  cleanup_tips, connect, add_block,
}
use still_blockchain.Chain.Check.{check_block}
use still_blockchain.Chain.Check.Extends.{check_block_adds_work}
use still_blockchain.Chain.Reorg.{check_reorgs, main_tip}
use still_blockchain.Chain.Sound.{IsSound, IsTip, HoldsOf, Fits}
use still_blockchain.Chain.Sound.Tips.{set_tips-IsSound, AllTips-cleanup_tips}
use still_blockchain.Chain.Sound.Orphans.{HoldsWork, deorphan_block-Holds, get_block-lookup}
use still_blockchain.Chain.Sound.Reorg.{check_reorgs-Holds}
use still_blockchain.Uint128.Value.{to_ℕ}
use still_blockchain.Chain.Sound.Stores.{
  not_stored, add_mainchain_block-Holds, add_altchain_block-Holds, add_orphan-Holds,
}

-- What `deorphanBlock` leaves is saved.
deorphaned :
    {least : ℕ} (r : Result (Unit {0}) × Work)
    → HoldsWork least r.1
    → After
        (λ s c. IsSound least c.blocks s)
        (elim r.0 as (λ _. Result Stats × Chain) [
          | ok _ ↦ (ok r.1.1, r.1.0)
          | err x ↦ (err x, r.1.0)
          | panic ↦ (panic, r.1.0)
        ])
deorphaned (ok a, w) h = h
deorphaned (err x, w) h = tt
deorphaned (panic, w) h = tt

check_deorphanage-Holds :
    {least : ℕ} (env : Env) (rounds : ℕ) (b : Block) (hash : ℕ) (ch : Chain)
    → Fits b
    → HoldsOf least ch
    → After (λ _ ch'. HoldsOf least ch') (check_deorphanage env rounds b hash ch)
unfolding check_deorphanage
check_deorphanage-Holds {least} env rounds b hash ch fits i =
    let w = deorphan_block (suc (length ch.stats.orphans)) b hash (ch, ch.stats) in
    let clean : Bool → Action Chain (Unit {0}) = λ reorged.
      if reorged
      then modify
          (λ ch. record ch { stats = record (ch.stats) { tips = cleanup_tips ch ch.stats.tips } })
      else pure tt in
    After-elim (λ s c. IsSound least c.blocks s) (λ _ ch'. HoldsOf least ch')
      (elim w.0 as (λ _. Result Stats × Chain) [
        | ok _ ↦ (ok w.1.1, w.1.0)
        | err x ↦ (err x, w.1.0)
        | panic ↦ (panic, w.1.0)
      ])
      (λ s. set_stats s >> (check_reorgs env rounds s >>= clean))
      (deorphaned w
        (deorphan_block-Holds (suc (length ch.stats.orphans)) b hash (ch, ch.stats) fits i))
      (λ s c i'.
        let c' : Chain = record c { stats = s } in
        After-elim (λ _ c2. HoldsOf least c2) (λ _ ch'. HoldsOf least ch')
          (check_reorgs env rounds s c') clean
          (state-After (HoldsOf least) (check_reorgs env rounds s c')
            (check_reorgs-Holds env rounds c' i'))
          cleaned)
  where
    cleaned :
        (reorged : Bool) (c : Chain)
        → HoldsOf least c
        → After
            (λ _ ch'. HoldsOf least ch')
            ((if reorged
                then modify (λ ch. record ch {
                  stats = record (ch.stats) { tips = cleanup_tips ch ch.stats.tips };
                })
                else pure tt)
              c)
    cleaned true c h =
        set_tips-IsSound c.blocks c.stats (cleanup_tips c c.stats.tips)
          (AllTips-cleanup_tips (IsTip c.blocks c.stats.orphans) c c.stats.tips h.tips) h
    cleaned false c h = h

-- The last step of `AddBlock`.
finish-Holds :
    (least : ℕ) (env : Env) (rounds : ℕ) (b : Block) (hash : ℕ) (m : Action Chain (Unit {0}))
    (ch : Chain)
    → Fits b
    → After (λ _ ch'. HoldsOf least ch') (m ch)
    → After
        (λ _ ch'. HoldsOf least ch')
        ((m >>= λ _. check_deorphanage env rounds b hash >> pure hash) ch)
finish-Holds least env rounds b hash m ch fits h =
    After-elim (λ _ c. HoldsOf least c) (λ _ ch'. HoldsOf least ch') (m ch)
      (λ _. check_deorphanage env rounds b hash >> pure hash) h
      (λ _ c i.
        After-elim (λ _ c. HoldsOf least c) (λ _ ch'. HoldsOf least ch')
          (check_deorphanage env rounds b hash c) (λ _. pure hash)
          (check_deorphanage-Holds env rounds b hash c fits i) (λ _ c i. i))

-- A block on the top has no less work than the top.
gains_work :
    {least : ℕ} (env : Env) (b prev : Block) (ch : Chain)
    → Fits b
    → lookup (prev_hash b) ch.blocks ≡ some prev
    → (prev_hash b == ch.stats.top_hash) ≡ true
    → check_block env ch b prev ≡ ok tt
    → HoldsOf least ch
    → least ≤ to_ℕ b.cumulative_diff
unfolding main_tip
gains_work env b prev ch fits has_prev on_top passed i =
    let (p, stored, same) = i.top.stored in
    let is : p ≡ prev = ground (arith, stored, has_prev, on_top) in
    let work : to_ℕ prev.cumulative_diff ≡ to_ℕ ch.stats.cumulative_diff =
      ap (λ (x : Block). to_ℕ x.cumulative_diff) (sym is) ∙ ap to_ℕ same in
    let gained =
      (check_block_adds_work env ch b prev
        (i.blocks_fit (prev_hash b) prev has_prev).cumulative_fits fits.difficulty_fits fits.nonzero
        fits.few_sides passed).1 in
    omega (arith, gained, work, i.most_work)

connect-Holds :
    {least : ℕ} (env : Env) (rounds : ℕ) (b prev : Block) (ch : Chain)
    → Fits b
    → lookup (block_hash env.crypto b) ch.blocks ≡ none
    → lookup (prev_hash b) ch.blocks ≡ some prev
    → HoldsOf least ch
    → After (λ _ ch'. HoldsOf least ch') (connect env rounds b (block_hash env.crypto b) prev ch)
unfolding connect
connect-Holds {least} env rounds b prev ch fits unstored has_prev i =
    let hash = block_hash env.crypto b in
    lift-After (λ _ ch'. HoldsOf least ch') (check_block env ch b prev)
      (λ _. gets (λ ch. ch.stats.top_hash) >>= λ top.
        (if prev_hash b == top
          then on_queue (remove_block env.now b.height hash) >> add_mainchain_block env b hash
          else on_queue (block_downloaded env.now b.height hash)
            >> add_altchain_block env rounds b hash)
        >> (check_deorphanage env rounds b hash >> pure hash))
      ch
      (λ _ passed.
        finish-Holds least env rounds b hash
          (if prev_hash b == ch.stats.top_hash
            then on_queue (remove_block env.now b.height hash) >> add_mainchain_block env b hash
            else on_queue (block_downloaded env.now b.height hash)
              >> add_altchain_block env rounds b hash)
          ch fits
          (elim (Bool-cases (prev_hash b == ch.stats.top_hash)) [
            | inl on_top ↦ rw on_top (
                add_mainchain_block-Holds env b
                  (record ch { queue = remove_block env.now b.height hash ch.queue }) fits unstored
                  (gains_work env b prev ch fits has_prev on_top passed i) i)
            | inr aside ↦
                let ch' : Chain = record ch {
                  queue = block_downloaded env.now b.height hash ch.queue;
                } in
                rw aside (
                  state-After (HoldsOf least) (add_altchain_block env rounds b hash ch')
                    (add_altchain_block-Holds env rounds b hash ch' fits unstored i))
          ]))

-- A block that `AddBlock` accepts leaves the invariant: the top has no less work than before.
pub add_block-Holds :
    {least : ℕ} (env : Env) (rounds : ℕ) (b : Block) (ch : Chain)
    → Fits b
    → HoldsOf least ch
    → After (λ _ ch'. HoldsOf least ch') (add_block env rounds b ch)
unfolding add_block
add_block-Holds {least} env rounds b ch fits i =
    go (get_block hash ch) (get_block (prev_hash b) ch) (lookup (prev_hash b) ch.stats.orphans) refl
      refl
  where
    hash : ℕ
    hash = block_hash env.crypto b

    go :
        (own : Result Block) (parent : Result Block) (waiting : Option Orphan)
        → get_block hash ch ≡ own
        → get_block (prev_hash b) ch ≡ parent
        → After
            (λ _ ch'. HoldsOf least ch')
            (elim own as (λ _. Result ℕ × Chain) [
              | ok _ ↦ (err duplicate_block, ch)
              | panic ↦ (panic, ch)
              | err _ ↦ elim parent [
                | err _ ↦ add_orphan env b hash false ch
                | panic ↦ (panic, ch)
                | ok prev ↦ elim waiting [
                  | some _ ↦ add_orphan env b hash true ch
                  | none ↦ connect env rounds b hash prev ch
                ]
              ]
            ])
    go (ok x) parent waiting e p = tt
    go panic parent waiting e p = tt
    go (err x) (err y) waiting e p =
        add_orphan-Holds env b hash false ch fits (not_stored hash ch x e) i
    go (err x) panic waiting e p = tt
    go (err x) (ok prev) (some o) e p =
        add_orphan-Holds env b hash true ch fits (not_stored hash ch x e) i
    go (err x) (ok prev) none e p =
        connect-Holds env rounds b prev ch fits (not_stored hash ch x e)
          (get_block-lookup (prev_hash b) ch prev p) i
