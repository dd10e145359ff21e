-- ===== src/Queue/Filling.antt =====
-- The bounds of the queue.
use still_blockchain.Base.{
  ℕ, zero, suc, ◌+◌, ◌≤◌, false, List, [], ◌∷◌, length, arith, Bool, ◌==◌, ◌-◌,
}
use Prim.Native.Nat.{max}
use still_blockchain.Queue.{
  new_queued_block, QueuedBlock, set_block, set_where, fill_loop, fill_queue,
}

length-set_where :
    (p : QueuedBlock → Bool) (b : QueuedBlock) (replace : Bool) (q : List QueuedBlock)
    → length (set_where p b replace q) ≤ length q + 1
unfolding set_where
length-set_where p b replace [] = omega arith
length-set_where p b replace (v ∷ vs) = ground (arith, length-set_where p b replace vs)

length-set_block :
    (b : QueuedBlock) (replace : Bool) (q : List QueuedBlock)
    → length (set_block b replace q) ≤ length q + 1
unfolding set_block
length-set_block b replace q = ground (
  arith,
  length-set_where (λ v. v.height == b.height) b replace q,
  length-set_where (λ v. v.hash == b.hash) b replace q,
)

length-fill_loop :
    (now rounds i n : ℕ) (q : List QueuedBlock)
    → length q ≤ n
    → n ≤ 51
    → length (fill_loop now rounds i n q) ≤ 51
unfolding fill_loop
length-fill_loop now zero i n q h hn = omega arith
length-fill_loop now (suc rounds) i n q h hn =
    let b = new_queued_block now i 0 in
    ground (
      arith,
      length-set_block b false q,
      length-fill_loop now rounds (i + 1) (n + 1) (set_block b false q),
    )

-- After `fillQueue` a queue has at most 51 entries, or at most as many as it had.
pub length-fill_queue :
    (now sync top : ℕ) (q : List QueuedBlock)
    → length (fill_queue now sync top q) ≤ max 51 (length q)
unfolding fill_queue
length-fill_queue now sync top q =
    ground (arith, length-fill_loop now (sync - top) (top + 1) (length q) q)
