-- ===== src/Mining/Found/Keeps.antt =====
-- A hash that does not meet the block's own difficulty changes nothing.
use still_blockchain.Base.{ℕ, ◌≡◌, refl, arith, false, List, [], ◌∷◌}
use still_blockchain.Base.Result.{ok}
use still_blockchain.Block.{Block}
use still_blockchain.Block.Pow.{valid_pow_value}
use still_blockchain.Chain.{Chain}
use still_blockchain.P2p.Handlers.{Node}
use still_blockchain.Uint128.{from_bytes}
use still_blockchain.Mining.Found.{FoundBlockInfo, matching, block_found}
use still_blockchain.Mining.Template.{Merge}

pub matching-Keeps :
    (pow : List ℕ) (merges : List Merge) (ch : Chain) → (matching pow merges ch).1 ≡ ch
unfolding matching
matching-Keeps pow [] ch = refl
matching-Keeps pow (v ∷ vs) ch = let rest = matching-Keeps pow vs ch in ground arith

-- Where the hash does not meet the block's difficulty, `blockFound` leaves the database, the queue and
-- the sync target as they are.
pub block_found-Keeps :
    (n : Node) (merges : List Merge) (reply : Merge → FoundBlockInfo) (b : Block) (pow : List ℕ)
    (ch : Chain)
    → valid_pow_value (from_bytes pow) b.difficulty ≡ ok false
    → (block_found n merges reply b pow ch).1 ≡ ch
unfolding block_found
block_found-Keeps n merges reply b pow ch invalid =
    let same = matching-Keeps pow merges ch in ground arith
