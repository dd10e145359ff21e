-- ===== src/Mining/Jobs.antt =====
-- The chains that are mined with this one, and their jobs: `AddStratum` of
-- blockchain/mergestratum.go. A destination and the name of a job are numbers.
pub mod Panics
use still_blockchain.Base.{
  ℕ, ◌≡◌, Bool, true, false, ◌&&◌, ◌||◌, List, [], ◌∷◌, ◌++◌, length, ◌==◌, ◌!=◌, if◌then◌else◌,
}
use still_blockchain.Base.Result.{
  Result, ok, err, panic, fail_if, ◌>>=◌, ◌>>◌, bad_chain_count, bad_target,
}
use still_blockchain.Block.{HashingId}
use still_blockchain.Block.MiningBlob.{MiningBlob, deserialize_blob}
use still_blockchain.Mining.Targets.{byte_target_to_diff}
use still_blockchain.Mining.Template.{Merge}

-- `AddStratum`: a destination that is known already is not added again.
unfoldable pub known : ℕ → List Merge → Bool
known ip [] = false
known ip (v ∷ vs) = v.destination == ip || known ip vs

unfoldable pub add_merge : ℕ → Bool → List Merge → List Merge
unfolding known
add_merge ip permanent merges =
    if known ip merges
    then merges
    else merges
      ++ record {
        destination = ip;
        permanent = permanent;
        hashing_id = record { network = 0; hash = 0 };
        difficulty = 0;
        job_id = 0;
      }
        ∷ []

-- The deferred function of `AddStratum`: the first entry of the destination goes.
unfoldable pub remove_merge : ℕ → List Merge → List Merge
remove_merge ip [] = []
remove_merge ip (v ∷ vs) = if v.destination == ip then vs else v ∷ remove_merge ip vs

-- The one chain of a job's mining blob.
unfoldable pub only_chain : List HashingId → Result HashingId
only_chain (v ∷ []) = ok v
only_chain vs = err bad_chain_count

-- The loop of `AddStratum`, one job: its blob, its target and its name.
unfoldable pub take_job : List ℕ → List ℕ → ℕ → Merge → Result Merge
unfolding only_chain
take_job blob target job v = do
  m ← deserialize_blob blob
  chain ← only_chain m.chains
  let size = length target
  fail_if (size != 16 && size != 8 && size != 4) bad_target
  difficulty ← byte_target_to_diff target
  ok (record v { hashing_id = chain; difficulty = difficulty.lo; job_id = job })
