-- ===== src/Chain/Check/Extends.antt =====
-- What `checkBlock` ensures of a block that it accepts.
use still_blockchain.Uint128.Order.{equals_iff}
use still_blockchain.Uint128.Quotient.{div64_exact}
use still_blockchain.Uint128.Product.{mul64-Exact}
use still_blockchain.Uint128.Sum.{Exact, add-Exact}
use still_blockchain.Base.{◌≡◌, ℕ, ◌+◌, ◌%◌, ◌^◌, ◌≤◌, length, ◌*◌, ◌/◌, arith, ◌↔◌, false, ◌<◌}
use still_blockchain.Uint128.{Uint128, mul64, div64, add, equals, is_zero}
use still_blockchain.Chain.{Env, Chain, Uint128, ℕ, is_zero}
use still_blockchain.Chain.Check.{
  check_block, cumulative, get_next_difficulty, check_sides, mul64, div64, add, equals,
}
use still_blockchain.Base.Result.{ok, >>=-eq_ok, Returns}
use still_blockchain.Block.{Block}
use still_blockchain.Uint128.Value.{to_ℕ, IsValid}

-- The cumulative difficulty, in plain arithmetic.
pub cumulative_is :
    (prev d : Uint128) (sides : ℕ) (w : Uint128)
    → IsValid prev
    → IsValid d
    → sides ≤ 2
    → cumulative prev d sides ≡ ok w
    → IsValid w × (to_ℕ w ≡ to_ℕ prev + to_ℕ d + to_ℕ d * (2 * sides) / 3)
unfolding cumulative
cumulative_is prev d sides w hp hd hs e =
    let (doubled, e1, r1) = >>=-eq_ok (mul64 d (2 * sides)) _ e in
    let (side_diff, e2, r2) = >>=-eq_ok (div64 doubled 3) _ r1 in
    let (base, e3, e4) = >>=-eq_ok (add prev d) _ r2 in
    let x1 : Exact (to_ℕ d * (2 * sides)) (ok doubled) =
      rw e1 at (mul64-Exact d (2 * sides) hd (omega arith)) in
    let x2 : Returns (λ q. IsValid q × (to_ℕ q ≡ to_ℕ doubled / 3)) (ok side_diff) =
      rw e2 at (div64_exact doubled 3 x1.0 (omega arith) (omega arith)) in
    let x3 : Exact (to_ℕ prev + to_ℕ d) (ok base) = rw e3 at (add-Exact prev d hp hd) in
    let x4 : Exact (to_ℕ base + to_ℕ side_diff) (ok w) =
      rw e4 at (add-Exact base side_diff x3.0 x2.0) in
    (x4.0, omega (arith, x1.1, x2.1, x3.1, x4.1))

-- A block that stands on `prev`.
pub record Extends (env : Env) (ch : Chain) (b prev : Block) : Type 0 where
  pub expected_difficulty : get_next_difficulty ch prev ≡ ok b.difficulty
  pub next_height : b.height ≡ (prev.height + 1) % 2 ^ 64
  pub not_earlier : prev.timestamp ≤ b.timestamp
  pub counted :
      cumulative prev.cumulative_diff b.difficulty (length b.side_blocks) ≡ ok b.cumulative_diff
  pub sides_checked : check_sides env ch b prev b.side_blocks ≡ ok tt

-- `checkBlock` accepts exactly the blocks with the expected difficulty, the next height, no earlier
-- timestamp, the cumulative difficulty that the code computes, and side blocks that pass.
pub check_block_iff :
    (env : Env) (ch : Chain) (b prev : Block)
    → (check_block env ch b prev ≡ ok tt) ↔ Extends env ch b prev
unfolding check_block equals
check_block_iff env ch b prev = (
  λ e. record {
    expected_difficulty = grind (arith, equals_iff);
    next_height = ground arith;
    not_earlier = ground arith;
    counted = grind (arith, equals_iff);
    sides_checked = ground arith;
  },
  λ h.
      ground
        (arith, h.expected_difficulty, h.next_height, h.not_earlier, h.counted, h.sides_checked),
)

-- A block that `checkBlock` accepts adds its difficulty, and two thirds of it for each side block,
-- to the cumulative difficulty of its predecessor, and so has strictly more of it. The two
-- difficulties are valid, that of the block is not 0, and it has two side blocks at most.
pub check_block_adds_work :
    (env : Env) (ch : Chain) (b prev : Block)
    → IsValid prev.cumulative_diff
    → IsValid b.difficulty
    → is_zero b.difficulty ≡ false
    → length b.side_blocks ≤ 2
    → check_block env ch b prev ≡ ok tt
    → (to_ℕ b.cumulative_diff
        ≡ to_ℕ prev.cumulative_diff
          + to_ℕ b.difficulty
          + to_ℕ b.difficulty * (2 * length b.side_blocks) / 3)
      × (to_ℕ prev.cumulative_diff < to_ℕ b.cumulative_diff)
unfolding is_zero
check_block_adds_work env ch b prev hp hd nonzero sides accepted =
    let work =
      cumulative_is prev.cumulative_diff b.difficulty (length b.side_blocks) b.cumulative_diff hp hd
        sides ((check_block_iff env ch b prev).0 accepted).counted in
    (work.1, ground (arith, work.1))
