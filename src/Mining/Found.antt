-- ===== src/Mining/Found.antt =====
-- What is done with a solved block: `blockFound` of blockchain/mining.go, and
-- `submitMergeMinedBlock` of blockchain/mergestratum.go.
pub mod Keeps
use still_blockchain.Base.{
  ℕ, Bool, true, false, List, [], ◌∷◌, ◌++◌, length, map, ◌==◌, if◌then◌else◌,
}
use still_blockchain.Base.Action.{Action, pure, lift, ◌>>=◌, ◌>>◌}
use still_blockchain.Base.Result.{Result, ok, err, bad_pow, bad_chain_count}
use still_blockchain.Block.{Block, HashingId}
use still_blockchain.Block.Codec.{block_hash}
use still_blockchain.Block.Pow.{prevalidate_block, valid_pow_value}
use still_blockchain.Chain.{Chain}
use still_blockchain.Chain.Add.{add_block}
use still_blockchain.Config.{network_id}
use still_blockchain.P2p.Database.{update}
use still_blockchain.P2p.Handlers.{Node}
use still_blockchain.Uint128.{Uint128, from_bytes}
use still_blockchain.Mining.Targets.{matches_diff}
use still_blockchain.Mining.Template.{Merge}

pub record FoundBlockInfo : Type 0 where
  pub hash : ℕ
  pub height : ℕ
  pub network : ℕ
  pub difficulty : Uint128
  pub accepted : Bool

-- The loop of `submitMergeMinedBlock`: the chains whose difficulty the hash meets.
unfoldable pub matching : List ℕ → List Merge → Action Chain (List Merge)
matching pow [] ch = (ok [], ch)
matching pow (v ∷ vs) ch =
    (do
      met ← lift (if v.difficulty == 0 then ok false else matches_diff pow v.difficulty)
      rest ← matching pow vs
      pure (if met then v ∷ rest else rest))
      ch

-- `blockFound` for the hash `pow`, 16 bytes. `reply` is what another chain answers to the work it
-- is sent.
unfoldable pub block_found :
    Node
    → List Merge
    → (Merge → FoundBlockInfo)
    → Block
    → List ℕ
    → Action Chain (List FoundBlockInfo)
unfolding matching
block_found n merges reply b pow = do
  met ← matching pow merges
  let found = map reply met
  valid ← lift (valid_pow_value (from_bytes pow) b.difficulty)
  if valid
      then (do
        lift (prevalidate_block n.env.crypto n.checkpoints n.now_ms b)
        update n.bolt (add_block n.env n.rounds b)
        pure (
            found
            ++ record {
              hash = block_hash n.env.crypto b;
              height = b.height;
              network = network_id;
              difficulty = b.difficulty;
              accepted = true;
            }
              ∷ []))
      else lift (if length met == 0 then err bad_pow else ok found)
