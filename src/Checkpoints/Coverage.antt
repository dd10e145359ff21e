-- ===== src/Checkpoints/Coverage.antt =====
-- Which heights the checkpoints cover.
use still_blockchain.Base.{
  ℕ, ◌+◌, ◌-◌, ◌*◌, ◌/◌, ◌%◌, ◌^◌, ◌≡◌, ◌<◌, ◌≤◌, true, false, length, arith, take, drop,
}
use still_blockchain.Base.Bytes.{le_value}
use still_blockchain.Base.Result.{ok, panic}
use native.Mathlib.Nat.{div-add-mod', div-lt_iff_lt-mul, mul-le-mul_right}
use still_blockchain.Checkpoints.{Checkpoints, get_checkpoint, is_checkpoint, is_secured}

-- What `init` makes of a file that is not empty.
pub record IsLoaded (c : Checkpoints) : Type 0 where
  pub interval_pos : 0 < c.interval
  pub holds_all : 4 + c.max_checkpoint * 32 ≤ length c.bin
  pub small : length c.bin < 2 ^ 63

-- With a file that holds all checkpoints, at every checkpoint's height but 0 the hash is read from
-- its place in the file.
pub get_checkpoint_reads :
    (c : Checkpoints) (height : ℕ)
    → IsLoaded c
    → is_checkpoint c height ≡ true
    → 0 < height
    → get_checkpoint c height
      ≡ ok (le_value (take 32 (drop (4 + (height / c.interval - 1) * 32) c.bin)))
unfolding is_checkpoint get_checkpoint
get_checkpoint_reads c height h at pos =
    let q = height / c.interval in
    let facts = div-add-mod' height c.interval in
    let inside : (0 < q) × (q ≤ c.max_checkpoint) = ground (arith, facts) in
    let index : (q + 2 ^ 64 - 1) % 2 ^ 64 ≡ q - 1 =
      omega (arith, inside.0, inside.1, h.small, h.holds_all) in
    let start : (4 + (q + 2 ^ 64 - 1) % 2 ^ 64 * 32 % 2 ^ 64) % 2 ^ 64 ≡ 4 + (q - 1) * 32 =
      omega (arith, index, inside.0, inside.1, h.small, h.holds_all) in
    rw start (ground (arith, inside.0, inside.1))

-- With a file that holds at least one checkpoint, height 0 counts as a checkpoint, and the lookup
-- at it panics.
pub get_checkpoint_zero :
    (c : Checkpoints)
    → IsLoaded c
    → 0 < c.max_checkpoint
    → (is_checkpoint c 0 ≡ true) × (get_checkpoint c 0 ≡ panic)
unfolding is_checkpoint get_checkpoint
get_checkpoint_zero c h some = (ground arith, ground arith)

multiple-le : (q m k : ℕ) → q ≤ m → q * k ≤ m * k
multiple-le q m k h = mul-le-mul_right k h

-- With a file that holds all checkpoints, the heights within an interval behind the last one are
-- taken as secured, although neither they nor a later height are a checkpoint.
pub secured_past_the_end :
    (c : Checkpoints) (height : ℕ)
    → IsLoaded c
    → 0 < c.max_checkpoint
    → c.max_checkpoint * c.interval < height
    → height < (c.max_checkpoint + 1) * c.interval
    → (is_secured c height ≡ true) × ((later : ℕ) → height ≤ later → is_checkpoint c later ≡ false)
unfolding is_secured is_checkpoint
secured_past_the_end c height h known past before =
    let inside : height / c.interval < c.max_checkpoint + 1 =
      (div-lt_iff_lt-mul {k = c.interval} {x = height} {y = c.max_checkpoint + 1} h.interval_pos).1
        before in
    (
      ground (arith, inside),
      λ later le. ground (
        arith,
        beyond later le,
        div-add-mod' later c.interval,
        multiple-le (later / c.interval) c.max_checkpoint c.interval,
      ),
    )
  where
    beyond : (later : ℕ) → height ≤ later → c.max_checkpoint * c.interval < later
    beyond later le = omega arith
