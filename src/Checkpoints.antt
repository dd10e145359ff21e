-- ===== src/Checkpoints.antt =====
-- The checkpoints: checkpoints/checkpoints.go. `bin` is the embedded file checkpoints.bin.
pub mod Coverage
pub mod Create
use still_blockchain.Base.{
  ℕ, ◌+◌, ◌-◌, ◌*◌, ◌/◌, ◌%◌, ◌^◌, Bool, true, false, ◌&&◌, List, ltb, leb, ◌==◌, if◌then◌else◌,
  length, take, drop, ◌||◌,
}
use still_blockchain.Base.Bytes.{le_value}
use still_blockchain.Base.Result.{Result, ok, panic}

abbrev pub checkpoint_overhead : ℕ
checkpoint_overhead = 4

-- What `init` sets: `CheckpointInterval` and `MaxCheckpoint`.
pub record Checkpoints : Type 0 where
  pub bin : List ℕ
  pub interval : ℕ
  pub max_checkpoint : ℕ

-- `init`. The read of the interval panics below four bytes, and a zero interval panics.
unfoldable pub init : List ℕ → Result Checkpoints
init bin =
    if length bin == 0
    then ok (record { bin = bin; interval = 0; max_checkpoint = 0 })
    else if ltb (length bin) 4 || le_value (take 4 bin) == 0
    then panic
    else ok (record {
      bin = bin;
      interval = le_value (take 4 bin);
      max_checkpoint = (length bin - checkpoint_overhead) / 32;
    })

-- `GetCheckpoint`: the division panics at interval 0, and the slice out of the file's range.
unfoldable pub get_checkpoint : Checkpoints → ℕ → Result ℕ
get_checkpoint c height =
    let index = (height / c.interval + 2 ^ 64 - 1) % 2 ^ 64 in
    let start = (checkpoint_overhead + index * 32 % 2 ^ 64) % 2 ^ 64 in
    let end = (start + 32) % 2 ^ 64 in
    if c.interval == 0
    then panic
    else if leb start end && leb end (length c.bin)
    then ok (le_value (take 32 (drop start c.bin)))
    else panic

unfoldable pub is_checkpoint : Checkpoints → ℕ → Bool
is_checkpoint c height =
    if c.max_checkpoint == 0
    then false
    else height % c.interval == 0 && leb (height / c.interval) c.max_checkpoint

unfoldable pub is_secured : Checkpoints → ℕ → Bool
is_secured c height =
    if c.max_checkpoint == 0 then false else leb (height / c.interval) c.max_checkpoint
