-- ===== src/Mining/Template/Returns.antt =====
-- A template is always made: nothing that `GetBlockTemplate` calls panics or fails.
use still_blockchain.Block.MiningBlob.{sort_chains}
use Prim.Native.Nat.{zero}
use still_blockchain.Mining.Template.Sides.{aligned}
use still_blockchain.Chain.Check.{get_next_difficulty, check_block}
use still_blockchain.Mining.Template.Extends.{AtTop, get_block_template_checks}
use still_blockchain.Uint128.Quotient.{div64_exact}
use still_blockchain.Block.BaseHash.{commitment}
use still_blockchain.Uint128.Product.{mul64-Exact}
use still_blockchain.Uint128.Sum.{Exact, add-Exact}
use still_blockchain.Base.Assoc.{Assoc}
use still_blockchain.Uint128.Value.{to_ℕ, IsValid}
use still_blockchain.Uint128.{Uint128, div64, mul64, add}
use still_blockchain.Base.{
  true, false, ℕ, ◌≢◌, arith, List, [], ◌∷◌, drop, ◌<◌, ◌^◌, ◌≡◌, ◌*◌, length, ◌/◌, ◌≤◌, suc,
  ℕ_discrete, Bool, refl, if◌then◌else◌, ◌++◌, length-append, ◌+◌, subst, sym,
}
use still_blockchain.Base.Result.{panic, Result, ok, Returns, err}
use still_blockchain.Block.{Block, Commitment, prev_hash}
use still_blockchain.Chain.{Chain, Env, get_block, AltchainTip}
use still_blockchain.Mining.Template.{
  fresh_in_ancestors, is_fresh, usable, try_tip, Uint128, choose_sides, Assoc, div64, judge_tip,
  mul64, add_if_usable, commitment, out_of_reach, get_next_difficulty, get_block_template, add,
  blank_template, filled_template, choose_txs, sort_chains, choose_chains,
}

get_block-no_panic : (h : ℕ) (ch : Chain) → get_block h ch ≢ panic
unfolding get_block
get_block-no_panic h ch e = ground arith

fresh_in_ancestors-no_panic :
    (env : Env) (ch : Chain) (side : Commitment) (ancs : List ℕ)
    → fresh_in_ancestors env ch side ancs ≢ panic
unfolding fresh_in_ancestors get_block
fresh_in_ancestors-no_panic env ch side [] e = ground arith
fresh_in_ancestors-no_panic env ch side (anc ∷ rest) e =
    let later = fresh_in_ancestors-no_panic env ch side rest in ground arith

is_fresh-no_panic :
    (env : Env) (ch : Chain) (bl prev : Block) (side : Commitment)
    → is_fresh env ch bl prev side ≢ panic
unfolding is_fresh
is_fresh-no_panic env ch bl prev side e =
    let loop = fresh_in_ancestors-no_panic env ch side (drop 1 bl.ancestors) in ground arith

-- An operation that is exact below 2 ^ 128 returns there.
returned :
    (n : ℕ) (r : Result Uint128)
    → Exact n r
    → n < 2 ^ 128
    → (w : Uint128) × (r ≡ ok w) × IsValid w × (to_ℕ w ≡ n)
returned n (ok w) h fits = (w, refl, h.0, h.1)
returned n (err e) h fits = elim h [ ]
returned n panic h fits = absurd (omega arith)

divided :
    (u : Uint128)
    → IsValid u
    → (q : Uint128) × (div64 u 3 ≡ ok q) × IsValid q × (to_ℕ q ≡ to_ℕ u / 3)
divided u h = taken (div64 u 3) (div64_exact u 3 h (omega arith) (omega arith))
  where
    taken :
        (r : Result Uint128)
        → Returns (λ q. IsValid q × (to_ℕ q ≡ to_ℕ u / 3)) r
        → (q : Uint128) × (r ≡ ok q) × IsValid q × (to_ℕ q ≡ to_ℕ u / 3)
    taken (ok q) h = (q, refl, h.0, h.1)
    taken (err e) h = elim h [ ]
    taken panic h = elim h [ ]

module _ (env : Env) (ch : Chain) (bl prev : Block) where
  usable-no_panic :
      (tip : Block)
      → IsValid bl.difficulty
      → to_ℕ bl.difficulty * 2 < 2 ^ 128
      → usable env ch bl prev tip ≢ panic
  unfolding usable
  usable-no_panic tip h fits e =
      let (doubled, e1, h1, _) =
        returned (to_ℕ bl.difficulty * 2) (mul64 bl.difficulty 2)
          (mul64-Exact bl.difficulty 2 h (omega arith)) fits in
      let (least, e2, _, _) = divided doubled h1 in
      let fresh = is_fresh-no_panic env ch bl prev (commitment env.crypto tip) in ground arith

  judge_tip-returns :
      (sides : List Commitment) (r : Result Block)
      → r ≢ panic
      → IsValid bl.difficulty
      → to_ℕ bl.difficulty * 2 < 2 ^ 128
      → (next : List Commitment) × (judge_tip env ch bl prev sides r ≡ ok next)
        × (length next ≤ suc (length sides))
  unfolding judge_tip add_if_usable
  judge_tip-returns sides (err e) calm h fits = (sides, refl, omega arith)
  judge_tip-returns sides panic calm h fits = absurd (calm refl)
  judge_tip-returns sides (ok tip) calm h fits =
      judged (usable env ch bl prev tip) (usable-no_panic tip h fits)
    where
      side : Commitment
      side = commitment env.crypto tip

      judged :
          (r : Result Bool)
          → r ≢ panic
          → (next : List Commitment) × (add_if_usable side sides r ≡ ok next)
            × (length next ≤ suc (length sides))
      judged (ok true) calm =
          (sides ++ side ∷ [], refl, omega (arith, length-append sides (side ∷ [])))
      judged (ok false) calm = (sides, refl, omega arith)
      judged (err e) calm = (sides, refl, omega arith)
      judged panic calm = absurd (calm refl)

  try_tip-returns :
      (v : AltchainTip) (sides : List Commitment)
      → IsValid bl.difficulty
      → to_ℕ bl.difficulty * 2 < 2 ^ 128
      → (next : List Commitment) × (try_tip env ch bl prev v sides ≡ ok next)
        × (length next ≤ suc (length sides))
  unfolding try_tip
  try_tip-returns v sides h fits = reached (out_of_reach v.height bl.height)
    where
      reached :
          (far : Bool)
          → (next : List Commitment) × ((if far
                then ok sides
                else judge_tip env ch bl prev sides (get_block v.hash ch))
              ≡ ok next)
            × (length next ≤ suc (length sides))
      reached true = (sides, refl, omega arith)
      reached false =
          judge_tip-returns sides (get_block v.hash ch) (get_block-no_panic v.hash ch) h fits

  choose_sides-returns :
      (tips : Assoc AltchainTip) (sides : List Commitment)
      → IsValid bl.difficulty
      → to_ℕ bl.difficulty * 2 < 2 ^ 128
      → length sides ≤ 2
      → (chosen : List Commitment) × (choose_sides env ch bl prev tips sides ≡ ok chosen)
        × (length chosen ≤ 2)
  unfolding choose_sides
  choose_sides-returns [] sides h fits few = (sides, refl, few)
  choose_sides-returns ((k, v) ∷ tips) sides h fits few = elim (ℕ_discrete (length sides) 2) [
    | yes full ↦ (sides, ground arith, few)
    | no room ↦
        let (next, e1, longer) = try_tip-returns v sides h fits in
        let (chosen, e2, short) = choose_sides-returns tips next h fits (omega arith) in
        (chosen, ground (arith, e1, e2), short)
  ]

-- Once the side blocks are chosen, the rest is arithmetic.
filled-returns :
    (env : Env) (now_ms extra addr : ℕ) (ch : Chain) (prev : Block) (d base : Uint128)
    (sides : List Commitment)
    → get_block ch.stats.top_hash ch ≡ ok prev
    → get_next_difficulty ch prev ≡ ok d
    → IsValid d
    → IsValid base
    → to_ℕ d * 4 < 2 ^ 128
    → to_ℕ base + to_ℕ d * 2 < 2 ^ 128
    → add ch.stats.cumulative_diff d ≡ ok base
    → choose_sides env ch (blank_template now_ms extra addr ch prev d base) prev ch.stats.tips []
      ≡ ok sides
    → length sides ≤ 2
    → (made : Block × ℕ) × (get_block_template env now_ms extra addr [] ch ≡ ok made)
unfolding get_block_template
filled-returns env now_ms extra addr ch prev d base sides stored next hd hb doubles fits e1 e2 few =
    with_doubled (
      returned (to_ℕ d * (2 * length sides)) (mul64 d (2 * length sides))
        (mul64-Exact d (2 * length sides) hd (omega arith)) (below (length sides) few))
  where
    below : (k : ℕ) → k ≤ 2 → to_ℕ d * (2 * k) < 2 ^ 128
    below zero few = omega arith
    below (suc zero) few = omega arith
    below (suc (suc zero)) few = omega arith
    below (suc (suc (suc k))) few = absurd (omega arith)

    thirds : (k x : ℕ) → k ≤ 2 → x ≡ to_ℕ d * (2 * k) → x / 3 ≤ to_ℕ d * 2
    thirds zero x few is = omega arith
    thirds (suc zero) x few is = omega arith
    thirds (suc (suc zero)) x few is = omega arith
    thirds (suc (suc (suc k))) x few is = absurd (omega arith)

    blank : Block
    blank = blank_template now_ms extra addr ch prev d base

    with_total :
        (doubled side_diff : Uint128)
        → mul64 d (2 * length sides) ≡ ok doubled
        → div64 doubled 3 ≡ ok side_diff
        → (total : Uint128) × (add base side_diff ≡ ok total)
          × IsValid total
          × (to_ℕ total ≡ to_ℕ base + to_ℕ side_diff)
        → (made : Block × ℕ) × (get_block_template env now_ms extra addr [] ch ≡ ok made)
    with_total doubled side_diff e3 e4 (total, e5, _, _) = (
      (filled_template blank sides [] total (choose_txs env ch.ledger ch.ledger.mempool 0), d.lo),
      rw (stored, next, e1, e2, e3, e4, e5) (unfold sort_chains choose_chains in refl),
    )

    with_side_diff :
        (doubled : Uint128)
        → mul64 d (2 * length sides) ≡ ok doubled
        → to_ℕ doubled ≡ to_ℕ d * (2 * length sides)
        → (side_diff : Uint128) × (div64 doubled 3 ≡ ok side_diff)
          × IsValid side_diff
          × (to_ℕ side_diff ≡ to_ℕ doubled / 3)
        → (made : Block × ℕ) × (get_block_template env now_ms extra addr [] ch ≡ ok made)
    with_side_diff doubled e3 d_is (side_diff, e4, hs, s_is) = with_total doubled side_diff e3 e4 (
        returned (to_ℕ base + to_ℕ side_diff) (add base side_diff) (add-Exact base side_diff hb hs)
          (omega (arith, thirds (length sides) (to_ℕ doubled) few d_is, s_is)))

    with_doubled :
        (doubled : Uint128) × (mul64 d (2 * length sides) ≡ ok doubled)
          × IsValid doubled
          × (to_ℕ doubled ≡ to_ℕ d * (2 * length sides))
        → (made : Block × ℕ) × (get_block_template env now_ms extra addr [] ch ≡ ok made)
    with_doubled (doubled, e3, h3, d_is) = with_side_diff doubled e3 d_is (divided doubled h3)

-- A node that mines no other chain always gets a template, whatever tips it knows, if its stats
-- describe a stored block `prev` that is not later than now, the next difficulty is `d`, and the work
-- stays below 2 ^ 128. The template stands on the main chain's end, and `checkBlock` answers for it
-- what the alignment of its side blocks' ancestors answers.
pub get_block_template-Returns :
    (env : Env) (now_ms extra addr : ℕ) (ch : Chain) (prev : Block) (d : Uint128)
    → AtTop ch prev
    → prev.timestamp ≤ now_ms
    → get_next_difficulty ch prev ≡ ok d
    → IsValid d
    → IsValid ch.stats.cumulative_diff
    → to_ℕ ch.stats.cumulative_diff + to_ℕ d * 4 < 2 ^ 128
    → Returns
        (λ made.
          (prev_hash made.0 ≡ ch.stats.top_hash)
          × (check_block env ch made.0 prev ≡ aligned made.0.ancestors made.0.side_blocks))
        (get_block_template env now_ms extra addr [] ch)
unfolding blank_template
get_block_template-Returns env now_ms extra addr ch prev d top late next hd hc fits = with_base (
    returned (to_ℕ ch.stats.cumulative_diff + to_ℕ d) (add ch.stats.cumulative_diff d)
      (add-Exact ch.stats.cumulative_diff d hc hd) (omega arith))
  where
    Accepted : Block × ℕ → Type 0
    Accepted made =
        (prev_hash made.0 ≡ ch.stats.top_hash)
        × (check_block env ch made.0 prev ≡ aligned made.0.ancestors made.0.side_blocks)

    checked :
        (made : Block × ℕ) × (get_block_template env now_ms extra addr [] ch ≡ ok made)
        → Returns Accepted (get_block_template env now_ms extra addr [] ch)
    checked ((b, least), e) =
        subst (Returns Accepted) (sym e)
          (get_block_template_checks env now_ms extra addr [] ch prev b least top late e)

    with_sides :
        (base : Uint128)
        → add ch.stats.cumulative_diff d ≡ ok base
        → IsValid base
        → to_ℕ base ≡ to_ℕ ch.stats.cumulative_diff + to_ℕ d
        → (sides : List Commitment) × (choose_sides env ch
              (blank_template now_ms extra addr ch prev d base)
              prev
              ch.stats.tips
              []
            ≡ ok sides)
          × (length sides ≤ 2)
        → Returns Accepted (get_block_template env now_ms extra addr [] ch)
    with_sides base e1 hb b_is (sides, e2, few) = checked (
        filled-returns env now_ms extra addr ch prev d base sides top.stored next hd hb
          (omega arith) (omega arith) e1 e2 few)

    with_base :
        (base : Uint128) × (add ch.stats.cumulative_diff d ≡ ok base)
          × IsValid base
          × (to_ℕ base ≡ to_ℕ ch.stats.cumulative_diff + to_ℕ d)
        → Returns Accepted (get_block_template env now_ms extra addr [] ch)
    with_base (base, e1, hb, b_is) = with_sides base e1 hb b_is (
        choose_sides-returns env ch (blank_template now_ms extra addr ch prev d base) prev
          ch.stats.tips [] hd (omega arith) (omega arith))
