-- ===== src/Stratum.antt =====
-- Miners: `SendJob` of stratum/stratumsrv/server.go, and `handleConn` of blockchain/bc-stratum.go
-- after the JSON of a request was read. The server and the jobs hold pointers to blocks: `blocks` is
-- the part of the heap that they point to. Connections and jobs are named by numbers.
pub mod History
pub mod Shared
pub mod Submit
use still_blockchain.Base.{
  ℕ, ◌+◌, ◌/◌, ◌^◌, ◌≡◌, Bool, true, false, Option, none, some, List, [], ◌∷◌, ◌++◌, length, take,
  drop, ltb, leb, ◌==◌, ◌!=◌, if◌then◌else◌,
}
use still_blockchain.Base.Action.{Action, pure, lift, gets, modify, or_err, fail_if, ◌>>=◌, ◌>>◌}
use still_blockchain.Base.Assoc.{Assoc, lookup, insert, erase}
use still_blockchain.Base.Bytes.{le_bytes, le_value}
use still_blockchain.Base.Result.{Result, ok, err, panic, Error, bad_login, not_ready}
use still_blockchain.Block.{Block}
use still_blockchain.Block.BaseHash.{commitment}
use still_blockchain.Block.MiningBlob.{MiningBlob, mining_blob, serialize_blob, get_seed}
use still_blockchain.Config.{stratum_jobs_history}
use still_blockchain.Crypto.{Crypto}
use still_blockchain.Mining.Targets.{get_target_bytes}
use still_blockchain.Uint128.{Uint128}

pub record MinerJob : Type 0 where
  pub job_id : ℕ
  pub block : ℕ
  pub seed : ℕ

-- The address 0 is `INVALID_ADDRESS`: no login yet.
pub record Conn : Type 0 where
  pub address : ℕ
  pub jobs : List MinerJob

pub record Server : Type 0 where
  pub blocks : Assoc Block
  pub last_block : Option ℕ
  pub last_min_diff : Uint128
  pub conns : Assoc Conn

-- `stratum.Job`, what a miner is sent.
pub record JobParams : Type 0 where
  pub blob : List ℕ
  pub job_id : ℕ
  pub target : List ℕ
  pub seed : ℕ
  pub height : ℕ

-- The history of a connection: the oldest job goes when it is full.
unfoldable pub push_job : MinerJob → List MinerJob → List MinerJob
push_job j jobs = (if leb stratum_jobs_history (length jobs) then drop 1 jobs else jobs) ++ j ∷ []

-- What a pointer of the server leads to.
unfoldable pub block_or_panic : Option Block → Result Block
block_or_panic none = panic
block_or_panic (some b) = ok b

unfoldable pub deref : ℕ → Action Server Block
unfolding block_or_panic
deref p s = (block_or_panic (lookup p s.blocks), s)

-- The recipient is written to the block itself.
unfoldable pub pay_to : ℕ → Block → Block
pay_to addr b = record b { header = record (b.header) { recipient = addr } }

-- The job for the block `b` at `p`, and what is sent of it.
unfoldable pub new_job : Crypto → ℕ → Uint128 → ℕ → Block → Result (MinerJob × JobParams)
new_job c p diff id b = elim (mining_blob c (commitment c b)) [
  | err e ↦ err e
  | panic ↦ panic
  | ok blob ↦ elim (get_target_bytes diff) [
    | err e ↦ err e
    | panic ↦ panic
    | ok target ↦
        let seed = get_seed c blob in
        ok (
          record { job_id = id; block = p; seed = seed },
          record {
            blob = serialize_blob blob;
            job_id = id;
            target = target;
            seed = seed;
            height = b.height;
          },
        )
  ]
]

-- `c.Jobs = append(c.Jobs, job)` on the connection `k`.
unfoldable pub hand_over : ℕ → Conn → MinerJob × JobParams → Action Server JobParams
unfolding push_job
hand_over k conn (job, sent) s =
    (ok sent, record s { conns = insert k (record conn { jobs = push_job job conn.jobs }) s.conns })

-- The connection `k` gets the block at `p`, which is `b`, under the name `id`.
unfoldable pub give_job : Crypto → ℕ → Uint128 → ℕ → ℕ → Conn → Block → Action Server JobParams
unfolding pay_to new_job hand_over
give_job c p diff id k conn b = do
  modify (λ s. record s { blocks = insert p (pay_to conn.address b) s.blocks })
  made ← lift (new_job c p diff id (pay_to conn.address b))
  hand_over k conn made

-- The loop of `SendJob` over the connections, each in a goroutine: here one after the other. `ids`
-- draws the names of the jobs. A connection without a login is passed over.
unfoldable pub send_all :
    Crypto → ℕ → Uint128 → (ℕ → ℕ) → Assoc Conn → Action Server (List JobParams)
unfolding give_job deref
send_all c p diff ids [] s = (ok [], s)
send_all c p diff ids ((k, conn) ∷ rest) s =
    let later = send_all c p diff ids rest in
    let give : Action Server (List JobParams) = (do
      b ← deref p
      sent ← give_job c p diff (ids k) k conn b
      others ← later
      pure (sent ∷ others)) in
    elim (conn.address == 0) [ true ↦ later s | false ↦ give s ]

-- `SendJob` of a block that gets the pointer `p`.
unfoldable pub send_job : Crypto → ℕ → Block → Uint128 → (ℕ → ℕ) → Action Server (List JobParams)
unfolding send_all
send_job c p b diff ids = do
  modify (λ s. record s { blocks = insert p b s.blocks; last_block = some p; last_min_diff = diff })
  conns ← gets (λ s. s.conns)
  send_all c p diff ids conns

-- `Kick`
unfoldable pub kick : ℕ → Server → Server
kick k s = record s { conns = erase k s.conns }

-- The login of `handleConn` on the connection `k`. `parsed` is what `address.FromString` reads, or
-- `none`; on the master chain a login that starts with `merge-mining:` is an error too.
unfoldable pub login : Crypto → ℕ → ℕ → Option ℕ → Action Server JobParams
unfolding give_job deref
login c k id parsed = do
  addr ← or_err parsed bad_login
  fail_if (addr == 0) bad_login
  conn ← (λ (s : Server). or_err (lookup k s.conns) bad_login s)
  let named : Conn = record conn { address = addr }
  modify (λ s. record s { conns = insert k named s.conns })
  p ← (λ (s : Server). or_err s.last_block not_ready s)
  b ← (λ s.
      lift (elim (lookup p s.blocks) as (λ _. Result Block) [ none ↦ panic | some b ↦ ok b ]) s)
  diff ← gets (λ s. s.last_min_diff)
  give_job c p diff id k named b
