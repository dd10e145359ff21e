-- ===== src/Stratum/Shared.antt =====
-- The block that the jobs share, and whom it pays.
use mathlib.Core.Bool.{false}
use mathlib.Core.Option.{none}
use still_blockchain.Stratum.Submit.{solved_block, SubmitRequest, job_of, find_job}
use still_blockchain.Binary.Reads.{if-holds}
use still_blockchain.Config.{stratum_jobs_history}
use still_blockchain.Base.Action.{Action, pure, After, After-elim, ◌>>=◌, After-mono, After-ok}
use still_blockchain.Base.Result.{Result, ok, err, panic}
use still_blockchain.Base.{
  ℕ, suc, leb, length, ◌++◌, ◌⊎◌, inl, inr, subst, ℕ_discrete, ◌≡◌, arith, some, [], ◌∷◌, ◌==◌,
  if◌then◌else◌, refl, List, Option, Bool, true, ◌≢◌, ◌<◌, ◌∙◌,
}
use still_blockchain.Base.Assoc.{Assoc, lookup, insert, lookup-insert_self, lookup-insert_ne}
use still_blockchain.Block.{Block}
use still_blockchain.Crypto.{Crypto}
use still_blockchain.Uint128.{Uint128}
use still_blockchain.Stratum.{
  Server, Conn, pay_to, hand_over, give_job, send_all, Result, deref, JobParams, block_or_panic,
  login, send_job, MinerJob, push_job, new_job,
}

give_job-blocks :
    (c : Crypto) (p : ℕ) (diff : Uint128) (id k : ℕ) (conn : Conn) (b : Block) (s : Server)
    → (give_job c p diff id k conn b s).1.blocks ≡ insert p (pay_to conn.address b) s.blocks
unfolding give_job hand_over
give_job-blocks c p diff id k conn b s = ground arith

-- The address of the last connection that has logged in, or else `addr`.
unfoldable pub last_login : ℕ → Assoc Conn → ℕ
last_login addr [] = addr
last_login addr ((k, conn) ∷ conns) =
    last_login (if conn.address == 0 then addr else conn.address) conns

PaysAt : ℕ → ℕ → Server → Type 0
PaysAt p addr s = (b : Block) × (lookup p s.blocks ≡ some b) × (b.recipient ≡ addr)

-- What holds of the state, whatever the answer, holds after a success.
After-state :
    {A : Type 0} (P : Server → Type 0) (r : Result A × Server) → P r.1 → After (λ _ s. P s) r
After-state P (ok a, s) h = h
After-state P (err e, s) h = tt
After-state P (panic, s) h = tt

give_job-Pays :
    (c : Crypto) (p : ℕ) (diff : Uint128) (id k : ℕ) (conn : Conn) (b : Block) (s : Server)
    → PaysAt p conn.address (give_job c p diff id k conn b s).1
unfolding PaysAt pay_to
give_job-Pays c p diff id k conn b s = (
  pay_to conn.address b,
  rw (give_job-blocks c p diff id k conn b s)
      (lookup-insert_self p (pay_to conn.address b) s.blocks),
  refl,
)

-- What `SendJob` keeps over its loop: `I rest` holds where the connections `rest` are still to come.
send_all-rule :
    (c : Crypto) (p : ℕ) (diff : Uint128) (ids : ℕ → ℕ) (I : Assoc Conn → Server → Type 0)
    → ((k : ℕ) (conn : Conn) (rest : Assoc Conn) (s : Server)
        → (conn.address == 0) ≡ true
        → I ((k, conn) ∷ rest) s
        → I rest s)
    → ((k : ℕ) (conn : Conn) (rest : Assoc Conn) (b : Block) (s : Server)
        → (conn.address == 0) ≡ false
        → I ((k, conn) ∷ rest) s
        → After (λ _ s'. I rest s') (give_job c p diff (ids k) k conn b s))
    → (conns : Assoc Conn) (s : Server) → I conns s
    → After (λ _ s'. I [] s') (send_all c p diff ids conns s)
unfolding send_all deref block_or_panic
send_all-rule c p diff ids I skip give [] s h = h
send_all-rule c p diff ids I skip give ((k, conn) ∷ conns) s h =
    by_login (conn.address == 0) refl (λ s' h'. send_all-rule c p diff ids I skip give conns s' h')
  where
    later : Action Server (List JobParams)
    later = send_all c p diff ids conns

    hand : Block → Action Server (List JobParams)
    hand b = give_job c p diff (ids k) k conn b >>= λ sent. later >>= λ more. pure (sent ∷ more)

    handed :
        (b : Block)
        → (conn.address == 0) ≡ false
        → ((s' : Server) → I conns s' → After (λ _ s''. I [] s'') (later s'))
        → After (λ _ s'. I [] s') (hand b s)
    handed b real ih =
        After-elim (λ _ s'. I conns s') (λ _ s'. I [] s') (give_job c p diff (ids k) k conn b s)
          (λ sent. later >>= λ more. pure (sent ∷ more)) (give k conn conns b s real h)
          (λ sent s' h'.
            After-elim (λ _ s''. I [] s'') (λ _ s''. I [] s'') (later s')
              (λ more. pure (sent ∷ more)) (ih s' h') (λ more s'' q. q))

    read :
        (found : Option Block)
        → (conn.address == 0) ≡ false
        → ((s' : Server) → I conns s' → After (λ _ s''. I [] s'') (later s'))
        → After (λ _ s'. I [] s') (((λ s'. (block_or_panic found, s')) >>= hand) s)
    read none real ih = tt
    read (some b) real ih = handed b real ih

    by_login :
        (out : Bool)
        → (conn.address == 0) ≡ out
        → ((s' : Server) → I conns s' → After (λ _ s''. I [] s'') (later s'))
        → After {A = List JobParams}
            (λ _ s'. I [] s')
            (elim out [ true ↦ later s | false ↦ (deref p >>= hand) s ])
    by_login true is ih = ih s (skip k conn conns s is h)
    by_login false is ih = read (lookup p s.blocks) is ih

send_all-Pays :
    (c : Crypto) (p : ℕ) (diff : Uint128) (ids : ℕ → ℕ) (conns : Assoc Conn) (addr : ℕ) (s : Server)
    → PaysAt p addr s
    → After (λ _ s'. PaysAt p (last_login addr conns) s') (send_all c p diff ids conns s)
unfolding last_login
send_all-Pays c p diff ids conns addr s h =
    After-mono (λ _ s'. I [] s') (λ _ s'. PaysAt p (last_login addr conns) s')
      (send_all c p diff ids conns s)
      (send_all-rule c p diff ids I
        (λ k conn rest s' out (a, pays, e). (a, pays, ground (arith, e, out)))
        (λ k conn rest b s' real (a, pays, e).
          After-mono (λ _ s''. PaysAt p conn.address s'') (λ _ s''. I rest s'')
            (give_job c p diff (ids k) k conn b s')
            (After-state (PaysAt p conn.address) (give_job c p diff (ids k) k conn b s')
              (give_job-Pays c p diff (ids k) k conn b s'))
            (λ _ s'' pays'. (conn.address, pays', ground (arith, e, real))))
        conns s (addr, h, refl))
      (λ _ s' (a, pays, e). subst (λ x. PaysAt p x s') e pays)
  where
    I : Assoc Conn → Server → Type 0
    I rest s' = (a : ℕ) × PaysAt p a s' × (last_login a rest ≡ last_login addr conns)

give_job-others :
    (c : Crypto) (p : ℕ) (diff : Uint128) (id k : ℕ) (conn : Conn) (b : Block) (s : Server) (j : ℕ)
    → k ≢ j
    → lookup j (give_job c p diff id k conn b s).1.conns ≡ lookup j s.conns
unfolding give_job hand_over
give_job-others c p diff id k conn b s j apart =
    handed (new_job c p diff id (pay_to conn.address b))
  where
    paid : Server
    paid = record s { blocks = insert p (pay_to conn.address b) s.blocks }

    handed :
        (r : Result (MinerJob × JobParams))
        → lookup j (((λ s'. (r, s')) >>= hand_over k conn) paid).1.conns ≡ lookup j s.conns
    handed (ok (job, sent)) =
        lookup-insert_ne j k (record conn { jobs = push_job job conn.jobs }) s.conns apart
    handed (err e) = refl
    handed panic = refl

-- A job of the connection `k` with the name `id` is for the block at `p`, and `submit` finds it.
abbrev Served : ℕ → ℕ → ℕ → Server → Type 0
Served p k id s = (job : MinerJob) × (job_of k id s ≡ some job) × (job.block ≡ p)

-- No connection has a job with the name that it is about to get.
abbrev pub AreFresh : (ℕ → ℕ) → Assoc Conn → Type 0
AreFresh ids [] = Unit
AreFresh ids ((k, conn) ∷ conns) = (find_job (ids k) conn.jobs ≡ none) × AreFresh ids conns

find_job-append :
    (id : ℕ) (j : MinerJob) (jobs : List MinerJob)
    → find_job id jobs ≡ none
    → j.job_id ≡ id
    → find_job id (jobs ++ j ∷ []) ≡ some j
unfolding find_job
find_job-append id j [] h e = ground (arith, e)
find_job-append id j (x ∷ jobs) h e =
    let rest : find_job id jobs ≡ none = ground (arith, h) in
    ground (arith, h, find_job-append id j jobs rest e)

find_job-push :
    (id : ℕ) (j : MinerJob) (jobs : List MinerJob)
    → find_job id jobs ≡ none
    → j.job_id ≡ id
    → find_job id (push_job j jobs) ≡ some j
unfolding push_job find_job
find_job-push id j [] h e = ground (arith, find_job-append id j [] h e)
find_job-push id j (x ∷ jobs) h e =
    let rest : find_job id jobs ≡ none = ground (arith, h) in
    if-holds (λ xs. find_job id (xs ++ j ∷ []) ≡ some j)
      (leb stratum_jobs_history (suc (length jobs))) jobs (x ∷ jobs)
      (find_job-append id j jobs rest e) (find_job-append id j (x ∷ jobs) h e)

new_job-names :
    (c : Crypto) (p : ℕ) (diff : Uint128) (id : ℕ) (b : Block) (job : MinerJob) (params : JobParams)
    → new_job c p diff id b ≡ ok (job, params)
    → (job.job_id ≡ id) × (job.block ≡ p)
unfolding new_job
new_job-names c p diff id b job params made = ground (arith, made)

give_job-Served :
    (c : Crypto) (p : ℕ) (diff : Uint128) (id k : ℕ) (conn : Conn) (b : Block) (s : Server)
    → find_job id conn.jobs ≡ none
    → After (λ _ s'. Served p k id s') (give_job c p diff id k conn b s)
unfolding give_job hand_over job_of
give_job-Served c p diff id k conn b s fresh =
    handed (new_job c p diff id (pay_to conn.address b)) refl
  where
    paid : Server
    paid = record s { blocks = insert p (pay_to conn.address b) s.blocks }

    handed :
        (r : Result (MinerJob × JobParams))
        → new_job c p diff id (pay_to conn.address b) ≡ r
        → After (λ _ s'. Served p k id s') (((λ s'. (r, s')) >>= hand_over k conn) paid)
    handed (err e) made = tt
    handed panic made = tt
    handed (ok (job, params)) made =
        let names = new_job-names c p diff id (pay_to conn.address b) job params made in
        let found = find_job-push id job conn.jobs fresh names.0 in
        let here = lookup-insert_self k (record conn { jobs = push_job job conn.jobs }) s.conns in
        (job, ground (arith, found, here), names.1)

job_of-same :
    (k id : ℕ) (s s' : Server)
    → lookup k s'.conns ≡ lookup k s.conns
    → job_of k id s' ≡ job_of k id s
unfolding job_of
job_of-same k id s s' same = ground (arith, same)

-- Every connection that has logged in is served.
send_all-Served :
    (c : Crypto) (p : ℕ) (diff : Uint128) (ids : ℕ → ℕ) (conns : Assoc Conn) (s : Server) (k : ℕ)
    (conn : Conn)
    → lookup k conns ≡ some conn
    → (conn.address == 0) ≡ false
    → AreFresh ids conns
    → After (λ _ s'. Served p k (ids k) s') (send_all c p diff ids conns s)
unfolding lookup
send_all-Served c p diff ids conns s k conn here real fresh =
    After-mono (λ _ s'. I [] s') (λ _ s'. Served p k (ids k) s') (send_all c p diff ids conns s)
      (send_all-rule c p diff ids I
        (λ j next rest s' out (f, h). (
          f.1,
          elim h [
            | inl served ↦ inl served
            | inr (own, at, in_use) ↦ inr (
              own,
              elim (ℕ_discrete j k) [
                | yes e ↦ absurd (ground (arith, e, at, out, in_use))
                | no ne ↦ ground (arith, at, ne)
              ],
              in_use,
            )
          ],
        ))
        (λ j next rest b s' logged (f, h). elim (ℕ_discrete j k) [
          | yes e ↦
              After-mono (λ _ s''. Served p j (ids j) s'') (λ _ s''. I rest s'')
                (give_job c p diff (ids j) j next b s')
                (give_job-Served c p diff (ids j) j next b s' f.0)
                (λ _ s'' served. (f.1, inl (subst (λ x. Served p x (ids x) s'') e served)))
          | no ne ↦
              After-mono (λ _ s''. lookup k s''.conns ≡ lookup k s'.conns) (λ _ s''. I rest s'')
                (give_job c p diff (ids j) j next b s')
                (After-state (λ s''. lookup k s''.conns ≡ lookup k s'.conns)
                  (give_job c p diff (ids j) j next b s')
                  (give_job-others c p diff (ids j) j next b s' k ne))
                (λ _ s'' same. (
                  f.1,
                  elim h [
                    | inl (job, at, is) ↦ inl (job, job_of-same k (ids k) s' s'' same ∙ at, is)
                    | inr (own, at, in_use) ↦ inr (own, ground (arith, at, ne), in_use)
                  ],
                ))
        ])
        conns s (fresh, inr (conn, here, real)))
      (λ _ s' (f, h). elim h [
        | inl served ↦ served
        | inr (own, at, in_use) ↦ absurd (unfold lookup in cc)
      ])
  where
    I : Assoc Conn → Server → Type 0
    I rest s' =
        AreFresh ids rest
        × (Served p k (ids k) s'
            ⊎ ((own : Conn) × (lookup k rest ≡ some own) × ((own.address == 0) ≡ false)))

-- After a block was sent to the miners as a job, `submit` finds that job on every connection that has
-- logged in, the jobs of all of them point to that one block, and every solution of it pays the miner who
-- was served last among those that have logged in: each miner's address is written to that block. No
-- connection has a job yet with the name that it is given.
pub send_job-Pays :
    (c : Crypto) (p : ℕ) (b : Block) (diff : Uint128) (ids : ℕ → ℕ) (s s' : Server)
    (sent : List JobParams) (k : ℕ) (conn : Conn)
    → lookup k s.conns ≡ some conn
    → (conn.address == 0) ≡ false
    → AreFresh ids s.conns
    → send_job c p b diff ids s ≡ (ok sent, s')
    → (job : MinerJob) × (b' : Block) × (job_of k (ids k) s' ≡ some job)
      × (job.block ≡ p)
      × ((deref job.block s').0 ≡ ok b')
      × ((q : SubmitRequest) (nonce : ℕ)
          → (solved_block b' q nonce).recipient ≡ last_login b.recipient s.conns)
unfolding send_job solved_block PaysAt deref block_or_panic
send_job-Pays c p b diff ids s s' sent k conn here real fresh done =
    let start : Server = record s {
      blocks = insert p b s.blocks;
      last_block = some p;
      last_min_diff = diff;
    } in
    let (b', stored, pays) =
      After-ok (λ _ s''. PaysAt p (last_login b.recipient s.conns) s'')
        (send_all c p diff ids s.conns start)
        (send_all-Pays c p diff ids s.conns b.recipient start
          (b, lookup-insert_self p b s.blocks, refl))
        done in
    let (job, found, at) =
      After-ok (λ _ s''. Served p k (ids k) s'') (send_all c p diff ids s.conns start)
        (send_all-Served c p diff ids s.conns start k conn here real fresh) done in
    (job, b', found, at, ground (arith, at, stored), λ q nonce. pays)

named : Conn → ℕ → Conn
named conn addr = record conn { address = addr }

login-gives :
    (c : Crypto) (p id k addr : ℕ) (conn : Conn) (b : Block) (s : Server)
    → 0 < addr
    → s.last_block ≡ some p
    → lookup k s.conns ≡ some conn
    → lookup p s.blocks ≡ some b
    → login c k id (some addr) s
      ≡ give_job c p s.last_min_diff id k
          (named conn addr)
          b
          (record s { conns = insert k (named conn addr) s.conns })
unfolding login named deref block_or_panic
login-gives c p id k addr conn b s real last here stored = ground arith

-- A login changes the jobs that others work on. If the block at `p` was sent last, then after a login
-- with the address `addr` on the connection `k` that block pays `addr`, while the jobs of the other
-- connections, which point to it, are what they were.
pub login_redirects :
    (c : Crypto) (p id k addr j : ℕ) (conn : Conn) (b : Block) (s : Server)
    → 0 < addr
    → k ≢ j
    → s.last_block ≡ some p
    → lookup k s.conns ≡ some conn
    → lookup p s.blocks ≡ some b
    → ((b' : Block) × (lookup p (login c k id (some addr) s).1.blocks ≡ some b')
        × (b'.recipient ≡ addr))
      × (lookup j (login c k id (some addr) s).1.conns ≡ lookup j s.conns)
unfolding PaysAt named
login_redirects c p id k addr j conn b s real apart last here stored =
    let s1 : Server = record s { conns = insert k (named conn addr) s.conns } in
    let diff = s.last_min_diff in
    rw (login-gives c p id k addr conn b s real last here stored) (
      give_job-Pays c p diff id k (named conn addr) b s1,
      give_job-others c p diff id k (named conn addr) b s1 j apart
          ∙ lookup-insert_ne j k (named conn addr) s.conns apart,
    )
