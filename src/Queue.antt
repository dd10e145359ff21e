-- ===== src/Queue.antt =====
-- The download queue: blockchain/blockqueue.go, and `fillQueue` of blockchain/blockchain.go. `now`
-- is the clock in seconds; the hash of zeros is the number 0.
pub mod Removal
pub mod Filling
pub mod Requests
use still_blockchain.Base.{
  ℕ, zero, suc, ◌+◌, ◌-◌, Bool, true, false, ◌||◌, Option, none, some, List, [], ◌∷◌, ◌++◌, ltb,
  leb, ◌==◌, if◌then◌else◌, length, map, ◌*◌,
}
use still_blockchain.Config.{parallel_blocks_download}

pub record QueuedBlock : Type 0 where
  pub height : ℕ
  pub hash : ℕ
  pub expires : ℕ
  pub last_request : ℕ

unfoldable pub new_queued_block : ℕ → ℕ → ℕ → QueuedBlock
new_queued_block now height hash = record {
  height = height;
  hash = hash;
  expires = now + 15 * 60;
  last_request = 0;
}

-- `RequestableBlock`: the first block that was not requested in the last ten seconds is marked.
unfoldable pub requestable_block : ℕ → List QueuedBlock → Option QueuedBlock × List QueuedBlock
requestable_block now [] = (none, [])
requestable_block now (v ∷ vs) =
    let rest = requestable_block now vs in
    let asked : QueuedBlock = record v { last_request = now } in
    if ltb (v.last_request + 10) now then (some asked, asked ∷ vs) else (rest.0, v ∷ rest.1)

unfoldable pub cleanup : ℕ → List QueuedBlock → List QueuedBlock
cleanup now [] = []
cleanup now (v ∷ vs) = let rest = cleanup now vs in if leb now v.expires then v ∷ rest else rest

-- `for … { if match { v.Expires = 0 } }`
unfoldable pub expire : (QueuedBlock → Bool) → List QueuedBlock → List QueuedBlock
expire p [] = []
expire p (v ∷ vs) = (if p v then record v { expires = 0 } else v) ∷ expire p vs

unfoldable pub remove_block_by_hash : ℕ → ℕ → List QueuedBlock → List QueuedBlock
unfolding expire cleanup
remove_block_by_hash now hash q = cleanup now (expire (λ v. v.hash == hash) q)

unfoldable pub remove_block_by_height : ℕ → ℕ → List QueuedBlock → List QueuedBlock
unfolding expire cleanup
remove_block_by_height now height q = cleanup now (expire (λ v. v.height == height) q)

unfoldable pub remove_block : ℕ → ℕ → ℕ → List QueuedBlock → List QueuedBlock
unfolding expire cleanup
remove_block now height hash q = cleanup now (expire (λ v. v.height == height || v.hash == hash) q)

-- `BlockDownloaded`: the entry stays for three more seconds, and is not requested.
unfoldable pub block_downloaded : ℕ → ℕ → ℕ → List QueuedBlock → List QueuedBlock
block_downloaded now height hash [] = []
block_downloaded now height hash (v ∷ vs) =
    (if v.height == height || v.hash == hash
      then record v { expires = now + 3; last_request = now + 3 }
      else v)
    ∷ block_downloaded now height hash vs

-- The loops of `SetBlock`: the first match is replaced or kept, and without one it is appended.
unfoldable pub set_where :
    (QueuedBlock → Bool) → QueuedBlock → Bool → List QueuedBlock → List QueuedBlock
set_where p qb replace [] = qb ∷ []
set_where p qb replace (v ∷ vs) =
    if p v then (if replace then qb else v) ∷ vs else v ∷ set_where p qb replace vs

unfoldable pub set_block : QueuedBlock → Bool → List QueuedBlock → List QueuedBlock
unfolding set_where
set_block qb replace q =
    if qb.hash == 0
    then set_where (λ v. v.height == qb.height) qb replace q
    else set_where (λ v. v.hash == qb.hash) qb replace q

-- What `save` writes: of the blocks that are left after a cleanup, those known by their hash.
unfoldable pub saved_blocks : List QueuedBlock → List QueuedBlock
saved_blocks [] = []
saved_blocks (v ∷ vs) = let rest = saved_blocks vs in if v.height == 0 then v ∷ rest else rest

-- The loop of `fillQueue` with `rounds` heights left from `i` on, and `n` blocks counted.
unfoldable pub fill_loop : ℕ → ℕ → ℕ → ℕ → List QueuedBlock → List QueuedBlock
fill_loop now zero i n q = q
fill_loop now (suc rounds) i n q =
    let more =
      fill_loop now rounds (i + 1) (n + 1) (set_block (new_queued_block now i 0) false q) in
    if ltb parallel_blocks_download n then q else more

-- `i` runs from `top_height + 1` to `sync_height`.
unfoldable pub fill_queue : ℕ → ℕ → ℕ → List QueuedBlock → List QueuedBlock
unfolding fill_loop
fill_queue now sync_height top_height q =
    if ltb (length q) parallel_blocks_download
    then (if ltb top_height sync_height
        then fill_loop now (sync_height - top_height) (top_height + 1) (length q) q
        else q)
    else q
