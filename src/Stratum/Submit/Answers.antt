-- ===== src/Stratum/Submit/Answers.antt =====
-- What a miner's solution leads to, on every branch.
use still_blockchain.Base.{ℕ, ◌≡◌, ◌<◌, arith, none, some, List, length, ◌≤◌}
use still_blockchain.Base.Assoc.{lookup}
use still_blockchain.Base.Result.{ok, err, panic, malformed_nonce, master_chain}
use still_blockchain.Block.{Block}
use still_blockchain.Chain.{Chain}
use still_blockchain.Mining.Found.{FoundBlockInfo}
use still_blockchain.Mining.Template.{Merge}
use still_blockchain.P2p.Handlers.{Node}
use still_blockchain.Stratum.{Server, MinerJob, deref, block_or_panic}
use still_blockchain.Stratum.Submit.{SubmitRequest, stale, submit, submit_job, job_of, uint32}

-- A nonce that is no hexadecimal text is an error; one of less than four bytes makes the node panic,
-- whatever else the request says; with four bytes or more, a name that the connection does not know
-- is answered as stale, and a blob is an error where the name is known. In all of these the chain
-- stays as it is.
pub submit_refuses :
    (n : Node) (merges : List Merge) (reply : Merge → FoundBlockInfo) (k : ℕ) (q : SubmitRequest)
    (s : Server) (ch : Chain)
    → (q.nonce ≡ none → submit n merges reply k q s ch ≡ (err malformed_nonce, ch))
      × ((bytes : List ℕ)
          → q.nonce ≡ some bytes
          → (length bytes < 4 → submit n merges reply k q s ch ≡ (panic, ch))
            × (4 ≤ length bytes
                → (job_of k q.job_id s ≡ none → submit n merges reply k q s ch ≡ (ok stale, ch))
                  × ((job : MinerJob) (b : Block)
                      → job_of k q.job_id s ≡ some job
                      → lookup job.block s.blocks ≡ some b
                      → 0 < length q.blob
                      → submit n merges reply k q s ch ≡ (err master_chain, ch))))
unfolding submit uint32 submit_job deref block_or_panic
submit_refuses n merges reply k q s ch = (
  λ bad. ground arith,
  λ bytes given. (
    λ short. ground arith,
    λ long. (λ unknown. ground arith, λ job b known there blob. ground arith),
  ),
)
