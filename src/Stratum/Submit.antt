-- ===== src/Stratum/Submit.antt =====
-- The request `submit` of `handleConn` in blockchain/bc-stratum.go, on a node of the master chain.
pub mod Answers
use still_blockchain.Base.{
  ℕ, ◌+◌, ◌/◌, ◌%◌, ◌^◌, ◌≡◌, Bool, true, false, Option, none, some, List, [], ◌∷◌, length, take,
  ltb, ◌==◌, ◌!=◌, if◌then◌else◌,
}
use still_blockchain.Base.Action.{Action, pure, lift, gets, modify, or_err, fail_if, ◌>>=◌, ◌>>◌}
use still_blockchain.Base.Assoc.{Assoc, lookup}
use still_blockchain.Base.Bytes.{le_bytes, le_value}
use still_blockchain.Base.Result.{
  Result, ok, err, panic, Error, malformed_nonce, master_chain, bad_login,
}
use still_blockchain.Block.{Block}
use still_blockchain.Block.BaseHash.{commitment}
use still_blockchain.Block.MiningBlob.{mining_blob, serialize_blob, get_seed}
use still_blockchain.Chain.{Chain}
use still_blockchain.Crypto.{Crypto}
use still_blockchain.Mining.Found.{FoundBlockInfo, block_found}
use still_blockchain.Mining.Template.{Merge}
use still_blockchain.P2p.Handlers.{Node}
use still_blockchain.Stratum.{Server, Conn, MinerJob, deref}

-- `stratum.SubmitRequest`: the nonce after `hex.DecodeString`, `none` where it fails.
pub record SubmitRequest : Type 0 where
  pub job_id : ℕ
  pub nonce : Option (List ℕ)
  pub blob : List ℕ
  pub nonce_extra : List ℕ

-- The answers after which the connection goes on.
pub data Reply : Type 0 where
  stale : Reply
  invalid : Error → Reply
  found : List FoundBlockInfo → Reply

unfoldable pub find_job : ℕ → List MinerJob → Option MinerJob
find_job id [] = none
find_job id (j ∷ jobs) = let rest = find_job id jobs in if j.job_id == id then some j else rest

-- `binary.LittleEndian.Uint32`, which panics on less than four bytes.
unfoldable pub uint32 : List ℕ → Result ℕ
uint32 b = if ltb (length b) 4 then panic else ok (le_value (take 4 b))

-- The copy of the job's block with the miner's nonces.
unfoldable pub solved_block : Block → SubmitRequest → ℕ → Block
solved_block b q nonce = record b {
  header = record (b.header) {
    nonce = nonce;
    nonce_extra = if length q.nonce_extra == 16 then le_value q.nonce_extra else b.nonce_extra;
  };
}

-- `PowHash`: the last 16 bytes of the hash.
unfoldable pub pow_bytes : Crypto → Block → Result (List ℕ)
pow_bytes c b = elim (mining_blob c (commitment c b)) [
  | ok m ↦ ok (le_bytes 16 (c.pow_hash (get_seed c m) (serialize_blob m) / 256 ^ 16))
  | err e ↦ err e
  | panic ↦ panic
]

-- The answer to what `blockFound` returned.
unfoldable pub reply_to : Result (List FoundBlockInfo) × Chain → Result Reply × Chain
reply_to (ok infos, ch) = (ok (found infos), ch)
reply_to (err e, ch) = (ok (invalid e), ch)
reply_to (panic, ch) = (panic, ch)

-- The job that the connection `k` knows under a name.
unfoldable pub job_of : ℕ → ℕ → Server → Option MinerJob
unfolding find_job
job_of k id s = elim (lookup k s.conns) [ none ↦ none | some conn ↦ find_job id conn.jobs ]

unfoldable pub submit_job :
    Node → List Merge → (Merge → FoundBlockInfo) → SubmitRequest → ℕ → Block → Action Chain Reply
unfolding solved_block pow_bytes reply_to
submit_job n merges reply q nonce b = do
  fail_if (length q.blob != 0) master_chain
  let jb = solved_block b q nonce
  pow ← lift (pow_bytes n.env.crypto jb)
  (λ ch. reply_to (block_found n merges reply jb pow ch))

-- `submit` on the connection `k`.
unfoldable pub submit :
    Node → List Merge → (Merge → FoundBlockInfo) → ℕ → SubmitRequest → Server → Action Chain Reply
unfolding uint32 job_of submit_job
submit n merges reply k q s = do
  bytes ← or_err q.nonce malformed_nonce
  nonce ← lift (uint32 bytes)
  elim (job_of k q.job_id s) [
    | none ↦ pure stale
    | some job ↦ lift (deref job.block s).0 >>= submit_job n merges reply q nonce
  ]
