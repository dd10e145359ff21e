-- ===== src/Chain/Sound/Reorg.antt =====
-- `CheckReorgs` under the invariant of Chain/Sound, also where it fails half-way.
use still_blockchain.Chain.Sound.Tips.{set_tips-IsSound, AllTips-insert, AllTips-erase}
use still_blockchain.Chain.Reorg.Choice.{best_tip-IsMost, AllTips-mono, best_tip-AllTips}
use still_blockchain.Uint128.Value.{to_ℕ}
use still_blockchain.Chain.Sound.{IsSound, IsTip, HoldsOf, IsValid, to_ℕ, set_top-IsSound}
use still_blockchain.Block.Codec.{block_hash}
use still_blockchain.Ledger.Apply.{apply_block}
use still_blockchain.Chain.Check.{check_block}
use still_blockchain.Ledger.Remove.{remove_block}
use mathlib.Core.List.{reverse}
use still_blockchain.Queue.{remove_block_by_height}
use still_blockchain.Base.{
  ℕ, zero, suc, [], ◌∷◌, List, ◌≡◌, inl, inr, true, false, Bool, ◌==◌, Bool-cases, if◌then◌else◌,
  subst, ◌≤◌, sym, refl, arith,
}
use still_blockchain.Base.Result.{height_zero, Result, ok, err}
use still_blockchain.Base.Action.{Action, lift, modify, pure, ◌>>=◌, ◌>>◌, bind-state}
use still_blockchain.Base.Assoc.{Assoc, erase, insert}
use still_blockchain.Block.{Block, prev_hash}
use still_blockchain.Chain.{Chain, Stats, Env, AltchainTip, get_block, on_ledger, on_queue}
use still_blockchain.Chain.Reorg.{
  unwind_block, unwind, unwind_main, rewind_block, rewind, move_blocks, climb, switch_stats,
  main_tip, check_reorgs, reorganize, best_tip,
}

-- What an action keeps, whatever it answers.
abbrev pub Keeps {ℓ} : {A : Type ℓ} → (Chain → Type 0) → Action Chain A → Type 0
Keeps P m = (ch : Chain) → P ch → P (m ch).1

pub bind-Keeps :
    {A B : Type 0} (P : Chain → Type 0) (m : Action Chain A) (k : A → Action Chain B)
    → Keeps P m
    → ((a : A) → Keeps P (k a))
    → Keeps P (m >>= k)
bind-Keeps P m k first next ch p =
    bind-state P P (m ch) k (first ch p) (λ s q. q) (λ a s q. next a s q)

-- The blocks and the stats are those given.
abbrev pub Untouched : Assoc Block → Stats → Chain → Type 0
Untouched bs s ch = (ch.blocks ≡ bs) × (ch.stats ≡ s)

module _ (bs : Assoc Block) (s : Stats) where
  unwind_block-Keeps : (env : Env) (h : ℕ) → Keeps (Untouched bs s) (unwind_block env h)
  unfolding unwind_block
  unwind_block-Keeps env h =
      bind-Keeps (Untouched bs s) (λ ch. lift (get_block h ch) ch)
        (λ b.
          modify (λ ch. record ch { topo = erase b.height ch.topo })
          >> on_ledger (remove_block env.crypto env.genesis_address b)
          >> pure b)
        (λ ch p. p)
        (λ b ch p.
          bind-Keeps (Untouched bs s) (on_ledger (remove_block env.crypto env.genesis_address b))
            (λ _. pure b) (λ ch p. p) (λ _ ch p. p) (record ch { topo = erase b.height ch.topo }) p)

  unwind-Keeps :
      (env : Env) (f common h height : ℕ) → Keeps (Untouched bs s) (unwind env f common h height)
  unfolding unwind
  unwind-Keeps env zero common h height ch p = p
  unwind-Keeps env (suc f) common h height ch p = go (h == common) (height == 0) (
      bind-Keeps (Untouched bs s) (unwind_block env h)
        (λ b. unwind env f common (prev_hash b) b.height) (unwind_block-Keeps env h)
        (λ b. unwind-Keeps env f common (prev_hash b) b.height) ch p)
    where
      go :
          (done low : Bool)
          → Untouched bs s
              ((unwind_block env h >>= λ b. unwind env f common (prev_hash b) b.height) ch).1
          → Untouched bs s
              (elim done as (λ _. Result (Unit {0}) × Chain) [
                | true ↦ (ok tt, ch)
                | false ↦ elim low [
                  | true ↦ (err height_zero, ch)
                  | false ↦
                      (unwind_block env h >>= λ b. unwind env f common (prev_hash b) b.height) ch
                ]
              ]).1
      go true low q = p
      go false true q = p
      go false false q = q

  rewind_block-Keeps :
      (env : Env) (h : ℕ) (b : Block) → Keeps (Untouched bs s) (rewind_block env h b)
  unfolding rewind_block
  rewind_block-Keeps env h b ch p =
      bind-Keeps (Untouched bs s) (λ ch. lift (get_block (prev_hash b) ch) ch)
        (λ prev.
          (λ ch. lift (check_block env ch b prev) ch)
          >> (on_ledger (apply_block env.crypto env.genesis_address b)
              >> on_queue (remove_block_by_height env.now b.height)))
        (λ ch p. p)
        (λ prev.
          bind-Keeps (Untouched bs s) (λ ch. lift (check_block env ch b prev) ch)
            (λ _.
              on_ledger (apply_block env.crypto env.genesis_address b)
              >> on_queue (remove_block_by_height env.now b.height))
            (λ ch p. p)
            (λ _.
              bind-Keeps (Untouched bs s) (on_ledger (apply_block env.crypto env.genesis_address b))
                (λ _. on_queue (remove_block_by_height env.now b.height)) (λ ch p. p)
                (λ _ ch p. p)))
        (record ch { topo = insert b.height h ch.topo }) p

  rewind-Keeps :
      (env : Env) (blocks : List (ℕ × Block)) → Keeps (Untouched bs s) (rewind env blocks)
  unfolding rewind
  rewind-Keeps env [] ch p = p
  rewind-Keeps env ((h, b) ∷ rest) ch p =
      bind-Keeps (Untouched bs s) (rewind_block env h b) (λ _. rewind env rest)
        (rewind_block-Keeps env h b) (λ _. rewind-Keeps env rest) ch p

  unwind_main-Keeps :
      (env : Env) (rounds : ℕ) (old : Stats) (common : ℕ)
      → Keeps (Untouched bs s) (unwind_main env rounds old common)
  unfolding unwind_main
  unwind_main-Keeps env rounds old common ch p = elim (Bool-cases (old.top_hash == common)) [
    | inl same ↦ rw same p
    | inr other ↦ rw other (
        bind-Keeps (Untouched bs s) (λ ch. lift (get_block old.top_hash ch) ch)
          (λ n.
            if block_hash env.crypto n == common
            then pure tt
            else unwind env rounds common old.top_hash n.height)
          (λ ch p. p) (λ n ch p. branch n ch p) ch p)
  ]
    where
      branch :
          (n : Block)
          → Keeps (Untouched bs s) (
              if block_hash env.crypto n == common
              then pure tt
              else unwind env rounds common old.top_hash n.height)
      branch n ch p = elim (Bool-cases (block_hash env.crypto n == common)) [
        | inl same ↦ rw same p
        | inr other ↦ rw other (unwind-Keeps env rounds common old.top_hash n.height ch p)
      ]

  move_blocks-Keeps :
      (env : Env) (rounds : ℕ) (old : Stats) (alt : AltchainTip)
      → Keeps (Untouched bs s) (move_blocks env rounds old alt)
  unfolding move_blocks
  move_blocks-Keeps env rounds old alt =
      let last : ℕ → List (ℕ × Block) → Action Chain (Unit {0}) =
        λ common hashes. unwind_main env rounds old common >> rewind env (reverse hashes) in
      bind-Keeps (Untouched bs s) (λ ch. lift (get_block alt.hash ch) ch)
        (λ first.
          (λ ch. lift (climb rounds ch first ((alt.hash, first) ∷ [])) ch) >>= λ r. last r.0 r.1)
        (λ ch p. p)
        (λ first.
          bind-Keeps (Untouched bs s)
            (λ ch. lift (climb rounds ch first ((alt.hash, first) ∷ [])) ch) (λ r. last r.0 r.1)
            (λ ch p. p)
            (λ r.
              bind-Keeps (Untouched bs s) (unwind_main env rounds old r.0)
                (λ _. rewind env (reverse r.1)) (unwind_main-Keeps env rounds old r.0)
                (λ _. rewind-Keeps env (reverse r.1))))

tip_valid :
    {least : ℕ} (bs : Assoc Block) (s : Stats) (tip : AltchainTip)
    → IsSound least bs s
    → IsTip bs s.orphans tip
    → IsValid tip.cumulative_diff
tip_valid bs s tip i t =
    let (p, stored, same) = t.stored in
    subst IsValid same (i.blocks_fit tip.hash p stored).cumulative_fits

-- The tip that `CheckReorgs` chooses is stored, and has no less work than the top.
chosen-IsTip :
    {least : ℕ} (bs : Assoc Block) (s : Stats)
    → IsSound least bs s
    → let alt = best_tip (main_tip s) s.tips in
      IsTip bs s.orphans alt × (least ≤ to_ℕ alt.cumulative_diff)
unfolding main_tip
chosen-IsTip bs s i =
    let valid = λ (tip : AltchainTip) (t : IsTip bs s.orphans tip). tip_valid bs s tip i t in
    let (_, which) = best_tip-IsMost (main_tip s) s.tips (valid (main_tip s) i.top) (
      AllTips-mono (IsTip bs s.orphans) (λ tip. IsValid tip.cumulative_diff) s.tips valid i.tips) in
    (
      best_tip-AllTips (IsTip bs s.orphans) (main_tip s) s.tips i.top i.tips,
      elim which [ inl same ↦ rw same i.most_work | inr more ↦ omega (arith, more, i.most_work) ],
    )

switch_stats-IsSound :
    {least : ℕ} (bs : Assoc Block) (s : Stats) (alt : AltchainTip)
    → IsSound least bs s
    → IsTip bs s.orphans alt
    → least ≤ to_ℕ alt.cumulative_diff
    → IsSound least bs (switch_stats alt s)
unfolding switch_stats main_tip
switch_stats-IsSound bs s alt i t more =
    let s1 : Stats = record s {
      top_hash = alt.hash;
      top_height = alt.height;
      cumulative_diff = alt.cumulative_diff;
    } in
    set_tips-IsSound bs s1 (insert s.top_hash (main_tip s) (erase alt.hash s.tips))
      (AllTips-insert (IsTip bs s.orphans) s.top_hash (main_tip s) (erase alt.hash s.tips) i.top
        (AllTips-erase (IsTip bs s.orphans) alt.hash s.tips i.tips))
      (set_top-IsSound bs s s1 refl refl t more i)

pub Untouched-Holds :
    {least : ℕ} (bs : Assoc Block) (s : Stats) (ch : Chain) (f : Stats → Stats)
    → Untouched bs s ch
    → IsSound least bs (f s)
    → IsSound least ch.blocks (f ch.stats)
Untouched-Holds {least} bs s ch f (same_blocks, same_stats) i =
    subst (λ x. IsSound least x (f ch.stats)) (sym same_blocks)
      (subst (λ x. IsSound least bs (f x)) (sym same_stats) i)

-- After `CheckReorgs` on the chain's stats the invariant holds, whether it succeeded, failed half-way
-- or panicked.
pub check_reorgs-Holds :
    {least : ℕ} (env : Env) (rounds : ℕ) (ch : Chain)
    → HoldsOf least ch
    → HoldsOf least (check_reorgs env rounds ch.stats ch).1
unfolding check_reorgs reorganize
check_reorgs-Holds {least} env rounds ch i = elim (Bool-cases (alt.hash == s.top_hash)) [
  | inl same ↦ rw same i
  | inr other ↦ rw other moved
]
  where
    s : Stats
    s = ch.stats

    alt : AltchainTip
    alt = best_tip (main_tip s) s.tips

    switched : IsSound least ch.blocks (switch_stats alt s)
    switched =
        let (t, more) = chosen-IsTip ch.blocks s i in switch_stats-IsSound ch.blocks s alt i t more

    moved : HoldsOf least ((reorganize env rounds s alt >> pure true) ch).1
    moved =
        bind-state (HoldsOf least) (HoldsOf least) (reorganize env rounds s alt ch) (λ _. pure true)
          (bind-state (Untouched ch.blocks s) (HoldsOf least) (move_blocks env rounds s alt ch)
            (λ _. modify (λ c. record c { stats = switch_stats alt c.stats }))
            (move_blocks-Keeps ch.blocks s env rounds s alt ch (refl, refl))
            (λ c p. Untouched-Holds ch.blocks s c (λ x. x) p i)
            (λ _ c p. Untouched-Holds ch.blocks s c (switch_stats alt) p switched))
          (λ c h. h) (λ _ c h. h)
