-- ===== src/Mining/Template/Extends.antt =====
-- A template extends the end of the main chain: the node itself would accept it.
use still_blockchain.Base.{
  ℕ, ◌+◌, ◌*◌, ◌%◌, ◌^◌, ◌≤◌, ◌≡◌, refl, subst, arith, true, false, List, [], length, ltb, ◌!=◌,
  if◌then◌else◌, ap, ◌∙◌,
}
use still_blockchain.Base.Result.{Result, ok, err, panic, ◌>>=◌, >>=-elim}
use still_blockchain.Block.{Block, Commitment, HashingId, prev_hash, add_hash}
use still_blockchain.Block.MiningBlob.{sort_chains}
use still_blockchain.Chain.{Chain, Env, get_block}
use still_blockchain.Chain.Check.{get_next_difficulty, check_block, check_sides, cumulative}
use still_blockchain.Uint128.{Uint128, equals, add, mul64, div64}
use still_blockchain.Uint128.Order.{equals_iff}
use still_blockchain.Mining.Template.Sides.{
  AllFresh, aligned, check_sides-aligned, choose_sides-fresh,
}
use still_blockchain.Mining.Template.{
  Merge, get_block_template, filled_template, choose_sides, choose_chains, choose_txs,
  blank_template, is_fresh,
}

-- The stats describe the stored end of the main chain.
pub record AtTop (ch : Chain) (prev : Block) : Type 0 where
  pub stored : get_block ch.stats.top_hash ch ≡ ok prev
  pub same_height : ch.stats.top_height ≡ prev.height
  pub same_work : ch.stats.cumulative_diff ≡ prev.cumulative_diff

-- What `checkBlock` answers for a block that stands on `prev`, but for its side blocks.
ok-last : (r : Result (Unit {0})) → (r >>= λ _. ok tt) ≡ r
ok-last (ok u) = refl
ok-last (err e) = refl
ok-last panic = refl

checks_pass :
    (env : Env) (ch : Chain) (b prev : Block)
    → get_next_difficulty ch prev ≡ ok b.difficulty
    → b.height ≡ (prev.height + 1) % 2 ^ 64
    → prev.timestamp ≤ b.timestamp
    → cumulative prev.cumulative_diff b.difficulty (length b.side_blocks) ≡ ok b.cumulative_diff
    → check_block env ch b prev ≡ check_sides env ch b prev b.side_blocks
unfolding check_block
checks_pass env ch b prev next height late work =
    let same : (u : Uint128) → (if equals u u then false else true) ≡ false =
      λ u. ground (arith, (equals_iff u u).1 refl) in
    let high : (b.height != (prev.height + 1) % 2 ^ 64) ≡ false = ground arith in
    let timely : ltb b.timestamp prev.timestamp ≡ false = ground arith in
    rw (next, same b.difficulty, high, timely, work, same b.cumulative_diff)
      (ok-last (check_sides env ch b prev b.side_blocks))

-- `add` twice is what `cumulative` does.
cumulative-made :
    (prev d doubled side_diff base w : Uint128) (sides : ℕ)
    → mul64 d (2 * sides) ≡ ok doubled
    → div64 doubled 3 ≡ ok side_diff
    → add prev d ≡ ok base
    → add base side_diff ≡ ok w
    → cumulative prev d sides ≡ ok w
unfolding cumulative
cumulative-made prev d doubled side_diff base w sides e1 e2 e3 e4 = rw (e1, e2, e3) e4

-- What is said of a template `b` at the end of the main chain.
pub Stands : Env → Chain → Block → Block → Type 0
Stands env ch prev b =
    (prev_hash b ≡ ch.stats.top_hash)
    × (check_block env ch b prev ≡ aligned b.ancestors b.side_blocks)

filled_template-Stands :
    (env : Env) (now_ms extra addr : ℕ) (ch : Chain) (prev : Block) (d base w : Uint128)
    (sides : List Commitment) (sorted : List HashingId) (txs : List ℕ)
    → AtTop ch prev
    → prev.timestamp ≤ now_ms
    → get_next_difficulty ch prev ≡ ok d
    → choose_sides env ch (blank_template now_ms extra addr ch prev d base) prev ch.stats.tips []
      ≡ ok sides
    → cumulative ch.stats.cumulative_diff d (length sides) ≡ ok w
    → Stands env ch prev
        (filled_template (blank_template now_ms extra addr ch prev d base) sides sorted w txs)
unfolding Stands blank_template filled_template prev_hash add_hash is_fresh
filled_template-Stands env now_ms extra addr ch prev d base w sides sorted txs top late next chosen
      work =
    let blank = blank_template now_ms extra addr ch prev d base in
    let b = filled_template blank sides sorted w txs in
    let fresh : AllFresh env ch b prev sides =
      choose_sides-fresh env ch blank prev ch.stats.tips [] sides chosen tt in
    let same_work : cumulative prev.cumulative_diff d (length sides) ≡ ok w =
      subst (λ u. cumulative u d (length sides) ≡ ok w) top.same_work work in
    (
      refl,
      checks_pass env ch b prev next (ap (λ h. (h + 1) % 2 ^ 64) top.same_height) late same_work
          ∙ check_sides-aligned env ch b prev sides fresh,
    )

-- For a template that was made at the end of the main chain, not before the time of its last block,
-- `checkBlock` answers what the alignment of the side blocks' ancestors answers; and the template
-- stands on the main chain's end.
pub get_block_template_checks :
    (env : Env) (now_ms extra addr : ℕ) (merges : List Merge) (ch : Chain) (prev b : Block)
    (least : ℕ)
    → AtTop ch prev
    → prev.timestamp ≤ now_ms
    → get_block_template env now_ms extra addr merges ch ≡ ok (b, least)
    → (prev_hash b ≡ ch.stats.top_hash)
      × (check_block env ch b prev ≡ aligned b.ancestors b.side_blocks)
unfolding get_block_template Stands
get_block_template_checks env now_ms extra addr merges ch prev b least top late made =
    >>=-elim (get_next_difficulty ch prev) _ (rw top.stored at made) λ d e1 r1.
      >>=-elim (add ch.stats.cumulative_diff d) _ r1 λ base e2 r2.
        let blank = blank_template now_ms extra addr ch prev d base in
        >>=-elim (choose_sides env ch blank prev ch.stats.tips []) _ r2 λ sides e3 r3.
          >>=-elim (mul64 d (2 * length sides)) _ r3 λ doubled e4 r4.
            >>=-elim (div64 doubled 3) _ r4 λ side_diff e5 r5.
              >>=-elim (add base side_diff) _ r5 λ w e6 r6.
                >>=-elim (sort_chains (choose_chains merges ([], d.lo)).0) _ r6 λ sorted e7 r7.
                  let txs = choose_txs env ch.ledger ch.ledger.mempool 0 in
                  let same : filled_template blank sides sorted w txs ≡ b = cc in
                  subst (Stands env ch prev) same (
                    filled_template-Stands env now_ms extra addr ch prev d base w sides sorted txs
                      top late e1 e3
                      (cumulative-made ch.stats.cumulative_diff d doubled side_diff base w
                        (length sides) e4 e5 e2 e6))
