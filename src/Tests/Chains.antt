-- ===== src/Tests/Chains.antt =====
-- Tests of the chain: validation, the choice of the tip, the way down, and new blocks.
use still_blockchain.Chain.Reorg.{
  best_tip, main_tip, unwind_main, rewind, switch_stats, move_blocks, reorganize,
}
use still_blockchain.Ledger.Apply.{apply_txs, apply_coinbase, apply_block}
use still_blockchain.Uint128.{cmp, cmp64}
use still_blockchain.Difficulty.{difficulty_ema, next_difficulty}
use still_blockchain.Block.BaseHash.{commitment}
use still_blockchain.Block.Pow.Panics.{check_side_pow-panics}
use still_blockchain.Chain.Add.Rounds.{deorphan_block_enough_rounds}
use still_blockchain.Block.{Commitment}
use still_blockchain.Base.{inl, refl}
use still_blockchain.Base.Result.{panic}
use still_blockchain.Block.Pow.{check_side_pow}
use still_blockchain.Block.MiningBlob.{get_seedhash_id}
use still_blockchain.Chain.Add.{deorphan_block}
use still_blockchain.Chain.Check.Extends.{check_block_adds_work}
use still_blockchain.Tests.Money.{paying_ledger-NoWrap}
use still_blockchain.Chain.Add.Outcomes.{
  Waits, EndsWith, add_block-Waits, add_mainchain_block-EndsWith,
}
use still_blockchain.Base.Action.{After}
use still_blockchain.Chain.Reorg.Climb.{HeightsFall, climb_enough_rounds, Descends, climb-Descends}
use still_blockchain.Chain.Check.{
  check_block, get_next_difficulty, cumulative, check_sides, check_side, height_diff, follow, scan,
  common_found,
}
use still_blockchain.Chain.Reorg.Choice.{AllTips, Settled, check_reorgs-Settled}
use still_blockchain.Tests.Samples.{toy, paying_ledger, empty_block, side, header}
use still_blockchain.Chain.Reorg.{climb, check_reorgs, topo_or_zero}
use still_blockchain.Chain.Add.{add_block, add_mainchain_block}
use still_blockchain.Base.{
  ℕ, ◌≡◌, arith, ◌∷◌, List, true, false, refl, ◌+◌, [], ◌++◌, ◌*◌, ◌≢◌, ◌/◌, ◌<◌,
}
use still_blockchain.Chain.Check.{
  get_next_difficulty, cumulative, check_sides, check_side, height_diff, follow, scan, common_found,
  includes,
}
use still_blockchain.Uint128.{mul64, div64, quo_rem64, add, equals, from64}
use still_blockchain.Block.{commitment_equals}
use still_blockchain.Base.Result.{ok, err, out_of_rounds}
use still_blockchain.Base.Assoc.{lookup}
use still_blockchain.Block.{Block, prev_hash}
use still_blockchain.Block.Codec.{block_hash}
use still_blockchain.Ledger.{u64}
use still_blockchain.Reward.{reward}
use still_blockchain.Ledger.Total.{total}
use still_blockchain.Uint128.{is_zero, Uint128, mul64, div64, quo_rem64, add, equals, from64}
use still_blockchain.Uint128.Value.{to_ℕ, IsValid}
use still_blockchain.Chain.{Chain, Env, Stats, get_block, get_topo}

abbrev pub env : Env
env = record { crypto = toy; genesis_address = 1; now = 100 }

abbrev pub number : ℕ → Uint128
number n = record { lo = n; hi = 0 }

-- A block with a height, a previous hash and a cumulative difficulty.
abbrev pub block_at : ℕ → ℕ → ℕ → Block
block_at h prev sum = record empty_block {
  header = record header { height = h; ancestors = prev ∷ 2 ∷ 3 ∷ []; side_blocks = [] };
  difficulty = number 1000;
  cumulative_diff = number sum;
}

-- The main chain is 21; 32 and 43 are an alternative chain above it.
abbrev pub stats : Stats
stats = record {
  top_hash = 21;
  top_height = 1;
  cumulative_diff = number 2000;
  tips = (43, record { hash = 43; height = 3; cumulative_diff = number 4000 }) ∷ [];
  orphans = [];
}

abbrev pub chain : Chain
chain = record {
  ledger = paying_ledger;
  blocks = (21, block_at 1 10 2000) ∷ (32, block_at 2 21 3000) ∷ (43, block_at 3 32 4000) ∷ [];
  topo = (1, 21) ∷ [];
  stats = stats;
  queue = [];
}

abbrev with_side : Block
with_side = record (block_at 1 10 2666) {
  header = record header { height = 1; ancestors = 10 ∷ 1 ∷ 2 ∷ []; side_blocks = side ∷ [] };
}

accepted : check_block env chain with_side (block_at 0 9 1000) ≡ ok tt
unfolding check_block get_next_difficulty cumulative mul64 div64 quo_rem64 add equals from64
    check_sides check_side height_diff follow scan common_found includes commitment_equals
    commitment
accepted = ground arith

number-IsValid : IsValid (number 1000)
number-IsValid = record { lo_fits = omega arith; hi_fits = omega arith }

nonzero : is_zero (number 1000) ≡ false
unfolding is_zero
nonzero = refl

check_block_adds_work_example :
    (to_ℕ with_side.cumulative_diff
      ≡ to_ℕ (number 1000) + to_ℕ (number 1000) + to_ℕ (number 1000) * (2 * 1) / 3)
    × (to_ℕ (number 1000) < to_ℕ with_side.cumulative_diff)
check_block_adds_work_example =
    check_block_adds_work env chain with_side (block_at 0 9 1000) number-IsValid number-IsValid
      nonzero (omega arith) accepted

-- The alternative chain with the difficulties that the code asks for: 21 is the end of the main chain,
-- and 32 and 43 have more work.
abbrev forked_stats : Stats
forked_stats = record stats {
  tips = (43, record { hash = 43; height = 3; cumulative_diff = number 4004 }) ∷ [];
}

abbrev last_block : Block
last_block = record (block_at 3 32 4004) { difficulty = number 1004 }

abbrev forked : Chain
forked = record chain {
  blocks = (21, block_at 1 10 2000) ∷ (32, block_at 2 21 3000) ∷ (43, last_block) ∷ [];
  stats = forked_stats;
}

abbrev outcome : Chain
outcome = (check_reorgs env 9 forked_stats forked).1

-- The reorganization succeeds, and 43 is the end of the main chain.
switched : check_reorgs env 9 forked_stats forked ≡ (ok true, outcome)
unfolding get_block get_topo get_next_difficulty check_sides cumulative check_block best_tip
    main_tip topo_or_zero climb unwind_main rewind switch_stats move_blocks reorganize check_reorgs
    apply_txs apply_coinbase apply_block prev_hash from64 equals cmp cmp64 add mul64 quo_rem64 div64
    difficulty_ema next_difficulty lookup
switched = refl

ends_at_43 : outcome.stats.top_hash ≡ 43
unfolding get_block get_topo get_next_difficulty check_sides cumulative check_block best_tip
    main_tip topo_or_zero climb unwind_main rewind switch_stats move_blocks reorganize check_reorgs
    apply_txs apply_coinbase apply_block prev_hash from64 equals cmp cmp64 add mul64 quo_rem64 div64
    difficulty_ema next_difficulty lookup
ends_at_43 = refl

forked-IsValid : AllTips (λ tip. IsValid tip.cumulative_diff) forked_stats.tips
forked-IsValid = (record { lo_fits = omega arith; hi_fits = omega arith }, tt)

top-IsValid : IsValid forked_stats.cumulative_diff
top-IsValid = record { lo_fits = omega arith; hi_fits = omega arith }

check_reorgs-Settled_example : Settled forked_stats forked true outcome
check_reorgs-Settled_example =
    check_reorgs-Settled env 9 forked_stats forked outcome true top-IsValid forked-IsValid
      ((λ e. omega arith), tt) switched

chain-HeightsFall : HeightsFall chain
unfolding lookup get_block prev_hash
chain-HeightsFall h b parent here above = ground arith

here : get_block 43 chain ≡ ok (block_at 3 32 4000)
unfolding get_block lookup
here = refl

climb_enough_rounds_example :
    climb 4 chain (block_at 3 32 4000) ((43, block_at 3 32 4000) ∷ []) ≢ err out_of_rounds
climb_enough_rounds_example =
    climb_enough_rounds 4 chain 43 (block_at 3 32 4000) ((43, block_at 3 32 4000) ∷ [])
      chain-HeightsFall here (omega arith)

climbed : climb 4 chain (block_at 3 32 4000) [] ≡ ok (21, (32, block_at 2 21 3000) ∷ [])
unfolding climb get_block lookup prev_hash topo_or_zero get_topo
climbed = refl

climb-Descends_example :
    (blocks : List (ℕ × Block)) × ((32, block_at 2 21 3000) ∷ [] ≡ [] ++ blocks)
    × Descends chain (block_at 3 32 4000) 21 blocks
climb-Descends_example =
    climb-Descends 4 chain (block_at 3 32 4000) [] 21 ((32, block_at 2 21 3000) ∷ []) climbed

room : total chain.ledger.states + reward 2 < u64
unfolding total reward
room = omega arith

add_mainchain_block-EndsWith_example :
    After
      (λ _ ch'. EndsWith env (block_at 2 21 3000) chain ch')
      (add_mainchain_block env (block_at 2 21 3000) (block_hash toy (block_at 2 21 3000)) chain)
add_mainchain_block-EndsWith_example =
    add_mainchain_block-EndsWith env (block_at 2 21 3000) chain nonzero paying_ledger-NoWrap room

-- A node that knows no block yet.
abbrev new_chain : Chain
new_chain = record chain { blocks = []; topo = [] }

add_block-Waits_example :
    (ch' : Chain) × (add_block env 9 (block_at 5 99 3000) new_chain
      ≡ (ok (block_hash toy (block_at 5 99 3000)), ch'))
    × Waits env (block_at 5 99 3000) new_chain ch'
unfolding lookup
add_block-Waits_example =
    add_block-Waits env 9 (block_at 5 99 3000) new_chain nonzero refl refl refl

-- A side block that names network 3 twice.
abbrev doubled : Commitment
doubled = record side {
  other_chains = record { network = 3; hash = 8 } ∷ record { network = 3; hash = 9 } ∷ [];
}

check_side_pow-panics_example : check_side_pow toy 0 (block_at 1 10 2000) doubled ≡ panic
unfolding get_seedhash_id
check_side_pow-panics_example =
    check_side_pow-panics toy 0 (block_at 1 10 2000) doubled refl (inl (inl refl))

-- A child of block 43 that waits.
abbrev orphaned : Stats
orphaned = record stats {
  orphans = (54, record { expires = 3700; hash = 54; prev_hash = 43 }) ∷ [];
}

deorphan_block_enough_rounds_example :
    deorphan_block 2 (block_at 3 32 4000) 43 (chain, orphaned)
    ≡ deorphan_block 9 (block_at 3 32 4000) 43 (chain, orphaned)
deorphan_block_enough_rounds_example =
    deorphan_block_enough_rounds 2 9 (block_at 3 32 4000) 43 (chain, orphaned) (omega arith)
      (omega arith)
