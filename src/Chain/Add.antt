-- ===== src/Chain/Add.antt =====
-- How a block enters: `AddBlock` of blockchain/blockchain.go and what it calls.
pub mod Outcomes
pub mod Rounds
use still_blockchain.Base.{
  ℕ, zero, suc, ◌+◌, ◌-◌, ◌*◌, ◌%◌, ◌^◌, Bool, true, false, Option, none, some, List, [], ◌∷◌, ltb,
  ◌==◌, if◌then◌else◌, length,
}
use still_blockchain.Base.Assoc.{Assoc, lookup, insert, erase}
use still_blockchain.Base.Result.{
  Result, ok, err, panic, duplicate_block, orphan_exists, out_of_rounds,
}
use still_blockchain.Base.Action.{Action, pure, lift, gets, modify, fail_if, ◌>>=◌, ◌>>◌}
use still_blockchain.Block.{Block, prev_hash}
use still_blockchain.Block.Codec.{block_hash}
use still_blockchain.Ledger.Apply.{apply_block}
use still_blockchain.Queue.{remove_block, block_downloaded, set_block, new_queued_block}
use still_blockchain.Uint128.{Uint128, equals}
use still_blockchain.Chain.{
  Chain, Stats, AltchainTip, Orphan, Env, get_block, get_topo, insert_block, insert_block_main,
  on_ledger, on_queue, set_stats,
}
use still_blockchain.Chain.Check.{check_block, cumulative}
use still_blockchain.Chain.Reorg.{check_reorgs}

-- `addOrphanBlock`
unfoldable pub add_orphan_block : Env → Block → ℕ → Bool → Action Chain (Unit {0})
add_orphan_block env b hash parent_known = do
  s ← gets (λ ch. ch.stats)
  elim (lookup hash s.orphans) [
    | some _ ↦ lift (err orphan_exists)
    | none ↦
        let orphan : Orphan = record {
          expires = env.now + 60 * 60;
          hash = hash;
          prev_hash = prev_hash b;
        } in
        (if parent_known
          then pure tt
          else on_queue (set_block (new_queued_block env.now 0 (prev_hash b)) false))
        >> set_stats (record s { orphans = insert hash orphan s.orphans })
        >> insert_block hash b
  ]

-- The tips after an alternative block: the tip stored under the previous hash is changed in place,
-- under its old key, or a new tip is made.
unfoldable pub extend_tips : Block → ℕ → Assoc AltchainTip → Assoc AltchainTip
extend_tips b hash tips = elim (lookup (prev_hash b) tips) [
  | some tip ↦
      insert (prev_hash b)
        (record {
          hash = hash;
          height = (tip.height + 1) % 2 ^ 64;
          cumulative_diff = b.cumulative_diff;
        })
        tips
  | none ↦
      insert hash (record { hash = hash; height = b.height; cumulative_diff = b.cumulative_diff })
        tips
]

-- A call whose error is dropped; what it wrote stays.
abbrev pub ignore_err : {S A : Type 0} → Action S A → Action S (Unit {0})
ignore_err m s =
    let (r, s') = m s in elim r [ ok _ ↦ (ok tt, s') | err _ ↦ (ok tt, s') | panic ↦ (panic, s') ]

-- `addAltchainBlock`
unfoldable pub add_altchain_block : Env → ℕ → Block → ℕ → Action Chain (Unit {0})
unfolding extend_tips
add_altchain_block env rounds b hash = do
  old ← gets (λ ch. ch.stats)
  let s = record old { tips = extend_tips b hash old.tips }
  insert_block hash b
  set_stats s
  ignore_err (check_reorgs env rounds s)

-- The end of `addMainchainBlock`: the new top, and the block with its place on the main chain.
unfoldable pub record_top : Env → Block → ℕ → Action Chain (Unit {0})
record_top env b hash = do
  s ← gets (λ ch. ch.stats)
  set_stats
      (record s { top_hash = hash; top_height = b.height; cumulative_diff = b.cumulative_diff })
  insert_block_main env b

-- `addMainchainBlock`
unfoldable pub add_mainchain_block : Env → Block → ℕ → Action Chain (Unit {0})
add_mainchain_block env b hash =
    on_ledger (apply_block env.crypto env.genesis_address b) >> record_top env b hash

-- `deorphanBlock` works on the database and on a copy of the stats that is saved later.
abbrev pub Work : Type 0
Work = Chain × Stats

-- `insertBlock` on the database of a `Work`.
abbrev pub store_in_work : ℕ → Block → Action Work (Unit {0})
store_in_work hash b w = let (r, ch) = insert_block hash b w.0 in (r, (ch, w.1))

-- The block of an orphan with its cumulative difficulty corrected, which is stored if it changed.
unfoldable pub corrected : Block → Orphan → Action Work Block
corrected prev v = do
  b ← (λ w. lift (get_block v.hash w.0) w)
  diff ← lift (cumulative prev.cumulative_diff b.difficulty (length b.side_blocks))
  if equals diff b.cumulative_diff
      then pure b
      else (let b' : Block = record b { cumulative_diff = diff } in
          ignore_err (store_in_work v.hash b') >> pure b')

-- The orphan becomes a tip in the place of its parent.
unfoldable pub adopt : ℕ → Block → ℕ → Orphan → Stats → Stats
adopt key b prev v s = record s {
  orphans = erase key s.orphans;
  tips =
      insert v.hash
        (record { hash = v.hash; height = b.height; cumulative_diff = b.cumulative_diff })
        (erase prev s.tips);
}

-- One orphan with the right parent. `again` is the recursive call, whose error is dropped.
unfoldable pub adopt_one :
    (Block → ℕ → Action Work (Unit {0})) → Block → ℕ → ℕ → Orphan → Action Work (Unit {0})
unfolding corrected adopt
adopt_one again prev hash key v = do
  b ← corrected prev v
  modify (λ w. (w.0, adopt key b hash v w.1))
  ignore_err (again b v.hash)

-- The loop over the orphans, as they were at its start; those taken out meanwhile are passed over.
unfoldable pub adopt_children :
    (Block → ℕ → Action Work (Unit {0})) → Block → ℕ → Assoc Orphan → Action Work (Unit {0})
unfolding adopt_one
adopt_children again prev hash [] w = (ok tt, w)
adopt_children again prev hash ((key, v) ∷ rest) w =
    let later = adopt_children again prev hash rest in
    elim (lookup key w.1.orphans) [
      | none ↦ later w
      | some _ ↦ elim (v.prev_hash == hash) [
        | false ↦ later w
        | true ↦ (adopt_one again prev hash key v >> later) w
      ]
    ]

-- `deorphanBlock`; each call that goes deeper has taken an orphan out.
unfoldable pub deorphan_block : ℕ → Block → ℕ → Action Work (Unit {0})
unfolding adopt_children
deorphan_block zero prev hash w = (err out_of_rounds, w)
deorphan_block (suc f) prev hash w = adopt_children (deorphan_block f) prev hash w.1.orphans w

-- `cleanupTips`: the tips that are on the main chain go.
unfoldable pub cleanup_tips : Chain → Assoc AltchainTip → Assoc AltchainTip
cleanup_tips ch [] = []
cleanup_tips ch ((k, tip) ∷ tips) =
    let rest = cleanup_tips ch tips in
    let keep = (k, tip) ∷ rest in
    elim (get_topo tip.height ch) [ ok h ↦ if h == tip.hash then rest else keep | _ ↦ keep ]

-- `checkDeorphanage`
unfoldable pub check_deorphanage : Env → ℕ → Block → ℕ → Action Chain (Unit {0})
check_deorphanage env rounds b hash = do
  s ← (λ ch.
      let (r, w) = deorphan_block (suc (length ch.stats.orphans)) b hash (ch, ch.stats) in
      elim r [ ok _ ↦ (ok w.1, w.0) | err x ↦ (err x, w.0) | panic ↦ (panic, w.0) ])
  set_stats s
  reorged ← check_reorgs env rounds s
  if reorged
      then modify
          (λ ch. record ch { stats = record (ch.stats) { tips = cleanup_tips ch ch.stats.tips } })
      else pure tt

-- An orphan of `AddBlock` is marked as downloaded once it is stored.
unfoldable pub add_orphan : Env → Block → ℕ → Bool → Action Chain ℕ
unfolding add_orphan_block
add_orphan env b hash known = do
  add_orphan_block env b hash known
  on_queue (block_downloaded env.now b.height hash)
  pure hash

-- The rest of `AddBlock`, for a block whose parent is stored and no orphan.
unfoldable pub connect : Env → ℕ → Block → ℕ → Block → Action Chain ℕ
connect env rounds b hash prev = do
  (λ ch. lift (check_block env ch b prev) ch)
  top ← gets (λ ch. ch.stats.top_hash)
  if prev_hash b == top
      then on_queue (remove_block env.now b.height hash) >> add_mainchain_block env b hash
      else on_queue (block_downloaded env.now b.height hash) >> add_altchain_block env rounds b hash
  check_deorphanage env rounds b hash
  pure hash

-- `AddBlock`
unfoldable pub add_block : Env → ℕ → Block → Action Chain ℕ
unfolding connect add_orphan
add_block env rounds b ch =
    let hash = block_hash env.crypto b in
    elim (get_block hash ch) [
      | ok _ ↦ (err duplicate_block, ch)
      | panic ↦ (panic, ch)
      | err _ ↦ elim (get_block (prev_hash b) ch) [
        | err _ ↦ add_orphan env b hash false ch
        | panic ↦ (panic, ch)
        | ok prev ↦ elim (lookup (prev_hash b) ch.stats.orphans) [
          | some _ ↦ add_orphan env b hash true ch
          | none ↦ connect env rounds b hash prev ch
        ]
      ]
    ]
