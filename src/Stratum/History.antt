-- ===== src/Stratum/History.antt =====
-- A connection remembers few jobs, whatever it is sent.
use mathlib.Core.Option.{none}
use still_blockchain.Base.{
  ℕ, ◌≡◌, ◌≤◌, arith, true, false, Bool, some, List, [], ◌∷◌, length, ◌==◌, if◌then◌else◌, Option,
  refl,
}
use still_blockchain.Base.Action.{
  Action, pure, gets, modify, or_err, fail_if, bind-state, ◌>>=◌, ◌>>◌,
}
use still_blockchain.Base.Assoc.{Assoc, lookup, insert, erase}
use still_blockchain.Base.Result.{Result, ok, err, panic, not_ready, bad_login}
use still_blockchain.Block.{Block}
use still_blockchain.Config.{stratum_jobs_history}
use still_blockchain.Crypto.{Crypto}
use still_blockchain.Uint128.{Uint128}
use still_blockchain.Stratum.{
  Server, Conn, MinerJob, JobParams, push_job, pay_to, new_job, hand_over, give_job, send_all,
  deref, login, kick, send_job,
}

abbrev pub AreShort : Assoc Conn → Type 0
AreShort [] = Unit
AreShort ((k, conn) ∷ conns) = (length conn.jobs ≤ stratum_jobs_history) × AreShort conns

abbrev pub IsShort : Server → Type 0
IsShort s = AreShort s.conns

-- Three jobs at most, before and after.
push_job-short :
    (j : MinerJob) (jobs : List MinerJob) → length jobs ≤ 3 → length (push_job j jobs) ≤ 3
unfolding push_job
push_job-short j [] h = omega arith
push_job-short j (a ∷ []) h = omega arith
push_job-short j (a ∷ b ∷ []) h = omega arith
push_job-short j (a ∷ b ∷ c ∷ []) h = omega arith
push_job-short j (a ∷ b ∷ c ∷ d ∷ jobs) h = absurd (omega arith)

insert-short :
    (k : ℕ) (conn : Conn) (conns : Assoc Conn)
    → length conn.jobs ≤ 3
    → AreShort conns
    → AreShort (insert k conn conns)
unfolding insert
insert-short k conn [] short all = (short, tt)
insert-short k conn ((j, other) ∷ conns) short all =
    placed (j == k) (insert-short k conn conns short all.1)
  where
    placed :
        (same : Bool)
        → AreShort (insert k conn conns)
        → AreShort (if same then (k, conn) ∷ conns else (j, other) ∷ insert k conn conns)
    placed true rest = (short, all.1)
    placed false rest = (all.0, rest)

lookup-short :
    (k : ℕ) (conn : Conn) (conns : Assoc Conn)
    → lookup k conns ≡ some conn
    → AreShort conns
    → length conn.jobs ≤ 3
unfolding lookup
lookup-short k conn [] h all = cc
lookup-short k conn ((j, other) ∷ conns) h all =
    let rest = lookup-short k conn conns in ground arith

give_job-IsShort :
    (c : Crypto) (p : ℕ) (diff : Uint128) (id k : ℕ) (conn : Conn) (b : Block) (s : Server)
    → length conn.jobs ≤ 3
    → IsShort s
    → IsShort (give_job c p diff id k conn b s).1
unfolding give_job hand_over
give_job-IsShort c p diff id k conn b s short all =
    handed (new_job c p diff id (pay_to conn.address b))
  where
    paid : Server
    paid = record s { blocks = insert p (pay_to conn.address b) s.blocks }

    handed :
        (r : Result (MinerJob × JobParams))
        → IsShort (((λ s'. (r, s')) >>= hand_over k conn) paid).1
    handed (ok (job, sent)) =
        insert-short k (record conn { jobs = push_job job conn.jobs }) s.conns
          (push_job-short job conn.jobs short) all
    handed (err e) = all
    handed panic = all

send_all-IsShort :
    (c : Crypto) (p : ℕ) (diff : Uint128) (ids : ℕ → ℕ) (conns : Assoc Conn) (s : Server)
    → AreShort conns
    → IsShort s
    → IsShort (send_all c p diff ids conns s).1
unfolding send_all
send_all-IsShort c p diff ids [] s listed all = all
send_all-IsShort c p diff ids ((k, conn) ∷ conns) s listed all =
    by_login (conn.address == 0) (λ s'. send_all-IsShort c p diff ids conns s' listed.1)
  where
    later : Action Server (List JobParams)
    later = send_all c p diff ids conns

    give : Block → Action Server (List JobParams)
    give b = give_job c p diff (ids k) k conn b >>= λ sent. later >>= λ others. pure (sent ∷ others)

    by_login :
        (out : Bool)
        → ((s' : Server) → IsShort s' → IsShort (later s').1)
        → IsShort
            (elim out as (λ _. Result (List JobParams) × Server) [
              | true ↦ later s
              | false ↦ (deref p >>= give) s
            ]).1
    by_login true ih = ih s all
    by_login false ih =
        bind-state IsShort IsShort (deref p s) give all (λ s' h. h)
          (λ b s' h.
            bind-state IsShort IsShort (give_job c p diff (ids k) k conn b s')
              (λ sent. later >>= λ others. pure (sent ∷ others))
              (give_job-IsShort c p diff (ids k) k conn b s' listed.0 h) (λ s'' h'. h')
              (λ sent s'' h'.
                bind-state IsShort IsShort (later s'') (λ others. pure (sent ∷ others)) (ih s'' h')
                  (λ s3 h3. h3) (λ others s3 h3. h3)))

login-IsShort :
    (c : Crypto) (k id : ℕ) (parsed : Option ℕ) (s : Server)
    → IsShort s
    → IsShort (login c k id parsed s).1
unfolding login
login-IsShort c k id none s all = all
login-IsShort c k id (some addr) s all =
    valid (addr == 0) (known (lookup k s.conns) (λ conn here. lookup-short k conn s.conns here all))
  where
    named : Conn → Conn
    named conn = record conn { address = addr }

    give : Conn → ℕ → Block → Action Server JobParams
    give conn p b = gets (λ s. s.last_min_diff) >>= λ diff. give_job c p diff id k (named conn) b

    serve : Conn → Action Server JobParams
    serve conn = do
      modify (λ s. record s { conns = insert k (named conn) s.conns })
      p ← (λ (s : Server). or_err s.last_block not_ready s)
      b ← deref p
      give conn p b

    ready :
        (conn : Conn) (last : Option ℕ) (s1 : Server)
        → length conn.jobs ≤ 3
        → IsShort s1
        → IsShort ((or_err last not_ready >>= λ p. deref p >>= give conn p) s1).1
    ready conn none s1 short h = h
    ready conn (some p) s1 short h =
        bind-state IsShort IsShort (deref p s1) (give conn p) h (λ s' h'. h')
          (λ b s' h'. give_job-IsShort c p s'.last_min_diff id k (named conn) b s' short h')

    known :
        (found : Option Conn)
        → ((conn : Conn) → found ≡ some conn → length conn.jobs ≤ 3)
        → IsShort ((or_err found bad_login >>= serve) s).1
    known none short = all
    known (some conn) short =
        let s1 : Server = record s { conns = insert k (named conn) s.conns } in
        ready conn s.last_block s1 (short conn refl)
          (insert-short k (named conn) s.conns (short conn refl) all)

    valid :
        (bad : Bool)
        → IsShort ((or_err (lookup k s.conns) bad_login >>= serve) s).1
        → IsShort
            ((fail_if bad bad_login
                >> ((λ (s : Server). or_err (lookup k s.conns) bad_login s) >>= serve))
              s).1
    valid true h = all
    valid false h = h

erase-short : (k : ℕ) (conns : Assoc Conn) → AreShort conns → AreShort (erase k conns)
unfolding erase
erase-short k [] all = tt
erase-short k ((j, conn) ∷ conns) all = kept (j == k) (erase-short k conns all.1)
  where
    kept :
        (same : Bool)
        → AreShort (erase k conns)
        → AreShort (if same then erase k conns else (j, conn) ∷ erase k conns)
    kept true rest = rest
    kept false rest = (all.0, rest)

-- What happens to a server: a connection comes or is kicked, a job is sent, a miner logs in.
pub data Event : Type 0 where
  connects kicked : ℕ → Event
  sends : ℕ → Block → Uint128 → (ℕ → ℕ) → Event
  logs_in : ℕ → ℕ → Option ℕ → Event

unfoldable pub handle : Crypto → Event → Server → Server
handle c (connects k) s = record s { conns = insert k (record { address = 0; jobs = [] }) s.conns }
handle c (kicked k) s = kick k s
handle c (sends p b diff ids) s = (send_job c p b diff ids s).1
handle c (logs_in k id parsed) s = (login c k id parsed s).1

unfoldable pub handle_all : Crypto → List Event → Server → Server
handle_all c [] s = s
handle_all c (e ∷ es) s = handle_all c es (handle c e s)

handle-IsShort : (c : Crypto) (e : Event) (s : Server) → IsShort s → IsShort (handle c e s)
unfolding handle kick send_job
handle-IsShort c (connects k) s all =
    insert-short k (record { address = 0; jobs = [] }) s.conns (omega arith) all
handle-IsShort c (kicked k) s all = erase-short k s.conns all
handle-IsShort c (sends p b diff ids) s all =
    send_all-IsShort c p diff ids s.conns
      (record s { blocks = insert p b s.blocks; last_block = some p; last_min_diff = diff }) all all
handle-IsShort c (logs_in k id parsed) s all = login-IsShort c k id parsed s all

-- Whatever happens to a server, in whatever order, a connection never has more than
-- STRATUM_JOBS_HISTORY jobs, if none has more at the start.
pub handle_all-IsShort :
    (c : Crypto) (es : List Event) (s : Server) → IsShort s → IsShort (handle_all c es s)
unfolding handle_all
handle_all-IsShort c [] s all = all
handle_all-IsShort c (e ∷ es) s all =
    handle_all-IsShort c es (handle c e s) (handle-IsShort c e s all)
