-- ===== src/Chain/Reorg.antt =====
-- Reorganizations: `CheckReorgs` of blockchain/blockchain.go, one function for each step. A map is
-- walked in the order of its list. `rounds` bounds the loops that follow previous hashes.
pub mod Choice
pub mod Climb
use still_blockchain.Base.{
  ℕ, zero, suc, ◌+◌, Bool, true, false, Option, none, some, List, [], ◌∷◌, ◌++◌, ltb, ◌==◌,
  if◌then◌else◌,
}
use Prim.Native.Nat.{Ordering}
use mathlib.Core.List.{reverse}
use still_blockchain.Base.Assoc.{Assoc, lookup, insert, erase}
use still_blockchain.Base.Result.{
  Result, ok, err, panic, no_common_block, height_zero, out_of_rounds, block_not_found,
}
use still_blockchain.Base.Action.{Action, pure, lift, gets, modify, fail_if, ◌>>=◌, ◌>>◌}
use still_blockchain.Block.{Block, prev_hash}
use still_blockchain.Block.Codec.{block_hash}
use still_blockchain.Ledger.Apply.{apply_block}
use still_blockchain.Ledger.Remove as Remove
use still_blockchain.Queue.{remove_block_by_height}
use still_blockchain.Uint128.{Uint128, cmp}
use still_blockchain.Chain.{
  Chain, Stats, AltchainTip, Env, get_block, get_topo, on_ledger, on_queue, set_stats,
}
use still_blockchain.Chain.Check.{check_block}

-- The best tip so far: `altDiff`, `altHash` and `altHeight`.
unfoldable pub better : AltchainTip → AltchainTip → AltchainTip
better best tip = elim (cmp tip.cumulative_diff best.cumulative_diff) [
  | Ordering.gt ↦ tip
  | _ ↦ best
]

unfoldable pub best_tip : AltchainTip → Assoc AltchainTip → AltchainTip
unfolding better
best_tip best [] = best
best_tip best ((k, tip) ∷ tips) = best_tip (better best tip) tips

-- The main chain's end, as a tip.
unfoldable pub main_tip : Stats → AltchainTip
main_tip s = record {
  hash = s.top_hash;
  height = s.top_height;
  cumulative_diff = s.cumulative_diff;
}

-- The hash in TOPO, or the zero hash that `buckGetTopo` returns beside its error.
unfoldable pub topo_or_zero : ℕ → Chain → ℕ
topo_or_zero height ch = elim (get_topo height ch) [ ok h ↦ h | _ ↦ 0 ]

-- Step 1: from a block of the alternative chain down to the first block that is in TOPO: its hash,
-- and the blocks above it, lowest last.
unfoldable pub climb : ℕ → Chain → Block → List (ℕ × Block) → Result (ℕ × List (ℕ × Block))
climb zero ch b hashes = err out_of_rounds
climb (suc f) ch b hashes =
    let h = prev_hash b in
    elim (get_block h ch) [
      | err x ↦ err no_common_block
      | panic ↦ panic
      | ok parent ↦
          let further = climb f ch parent (hashes ++ (h, parent) ∷ []) in
          elim (parent.height == 0) [
            | true ↦ err height_zero
            | false ↦ elim (topo_or_zero parent.height ch == h) [
              | true ↦ ok (h, hashes)
              | false ↦ further
            ]
          ]
    ]

-- One round of step 2: the block's entry in TOPO goes, and its changes of the state are reversed.
unfoldable pub unwind_block : Env → ℕ → Action Chain Block
unwind_block env h = do
  b ← (λ ch. lift (get_block h ch) ch)
  modify (λ ch. record ch { topo = erase b.height ch.topo })
  on_ledger (Remove.remove_block env.crypto env.genesis_address b)
  pure b

-- The loop of step 2, from the block with the hash `h`; `height` is that of the block read last.
unfoldable pub unwind : Env → ℕ → ℕ → ℕ → ℕ → Action Chain (Unit {0})
unfolding unwind_block
unwind env zero common h height ch = (err out_of_rounds, ch)
unwind env (suc f) common h height ch = elim (h == common) [
  | true ↦ (ok tt, ch)
  | false ↦ elim (height == 0) [
    | true ↦ (err height_zero, ch)
    | false ↦ (unwind_block env h >>= λ b. unwind env f common (prev_hash b) b.height) ch
  ]
]

-- Step 2.
unfoldable pub unwind_main : Env → ℕ → Stats → ℕ → Action Chain (Unit {0})
unfolding unwind
unwind_main env rounds s common ch =
    if s.top_hash == common
    then (ok tt, ch)
    else (do
      n ← (λ ch. lift (get_block s.top_hash ch) ch)
      (if block_hash env.crypto n == common
          then pure tt
          else unwind env rounds common s.top_hash n.height))
        ch

-- One round of step 3.
unfoldable pub rewind_block : Env → ℕ → Block → Action Chain (Unit {0})
rewind_block env h b = do
  modify (λ ch. record ch { topo = insert b.height h ch.topo })
  prev ← (λ ch. lift (get_block (prev_hash b) ch) ch)
  (λ ch. lift (check_block env ch b prev) ch)
  on_ledger (apply_block env.crypto env.genesis_address b)
  on_queue (remove_block_by_height env.now b.height)

-- Step 3, over the blocks from the lowest on.
unfoldable pub rewind : Env → List (ℕ × Block) → Action Chain (Unit {0})
unfolding rewind_block
rewind env [] ch = (ok tt, ch)
rewind env ((h, b) ∷ rest) ch = (rewind_block env h b >> rewind env rest) ch

-- Step 4: the old main chain becomes a tip, and the alternative one the main chain.
unfoldable pub switch_stats : AltchainTip → Stats → Stats
switch_stats alt s = record {
  top_hash = alt.hash;
  top_height = alt.height;
  cumulative_diff = alt.cumulative_diff;
  tips =
      insert s.top_hash
        (record { hash = s.top_hash; height = s.top_height; cumulative_diff = s.cumulative_diff })
        (erase alt.hash s.tips);
  orphans = s.orphans;
}

-- Steps 1 to 3: the blocks above the common one leave the main chain, and those of the alternative
-- chain enter it.
unfoldable pub move_blocks : Env → ℕ → Stats → AltchainTip → Action Chain (Unit {0})
move_blocks env rounds s alt = do
  first ← (λ ch. lift (get_block alt.hash ch) ch)
  (common, hashes) ← (λ ch. lift (climb rounds ch first ((alt.hash, first) ∷ [])) ch)
  unwind_main env rounds s common
  rewind env (reverse hashes)

unfoldable pub reorganize : Env → ℕ → Stats → AltchainTip → Action Chain (Unit {0})
reorganize env rounds s alt =
    move_blocks env rounds s alt >> modify (λ ch. record ch { stats = switch_stats alt ch.stats })

-- `CheckReorgs`: whether the chain was reorganized.
unfoldable pub check_reorgs : Env → ℕ → Stats → Action Chain Bool
check_reorgs env rounds s =
    let alt = best_tip (main_tip s) s.tips in
    if alt.hash == s.top_hash then pure false else reorganize env rounds s alt >> pure true
