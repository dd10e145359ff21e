-- ===== src/Mining/Jobs/Panics.antt =====
-- The jobs of another chain, by the target they carry.
use still_blockchain.Base.{
  ℕ, ◌-◌, ◌/◌, ◌^◌, ◌<◌, ◌≡◌, ◌⊎◌, inl, inr, refl, arith, List, [], ◌∷◌, length,
}
use still_blockchain.Base.Bytes.{le_value, IsU64}
use still_blockchain.Base.Result.{Result, ok, err, panic, Returns, ◌>>=◌}
use still_blockchain.Block.{HashingId}
use still_blockchain.Block.MiningBlob.{MiningBlob, deserialize_blob}
use still_blockchain.Uint128.{Uint128, div64, quo_rem64}
use still_blockchain.Uint128.Quotient.{div64_exact}
use still_blockchain.Uint128.Value.{to_ℕ, IsValid}
use still_blockchain.Mining.Jobs.{take_job, only_chain}
use still_blockchain.Mining.Targets.{byte_target_to_diff, target_to_diff64}
use still_blockchain.Mining.Template.{Merge}

max_word : Uint128
max_word = record { lo = 2 ^ 64 - 1; hi = 0 }

-- A job with one chain and a target of 4 or 8 bytes is the division of the largest word by it.
take_job-word :
    (blob target : List ℕ) (job : ℕ) (v : Merge) (m : MiningBlob) (chain : HashingId)
    → deserialize_blob blob ≡ ok m
    → m.chains ≡ chain ∷ []
    → (length target ≡ 4) ⊎ (length target ≡ 8)
    → take_job blob target job v ≡ (
        div64 (record { lo = 2 ^ 64 - 1; hi = 0 }) (le_value target) >>= λ d.
        ok (record v { hashing_id = chain; difficulty = d.lo; job_id = job }))
unfolding take_job only_chain byte_target_to_diff target_to_diff64
take_job-word blob target job v m chain read one (inl four) = rw (read, one, four) refl
take_job-word blob target job v m chain read one (inr eight) = rw (read, one, eight) refl

-- The same division, with a divisor of zero.
div64-zero : (u : Uint128) → div64 u 0 ≡ panic
unfolding div64 quo_rem64
div64-zero u = ground arith

-- A job whose blob has one chain and whose target has 4 or 8 bytes makes the node panic if the target
-- is zero; otherwise the node keeps the chain, the job, and the quotient of 2 ^ 64 - 1 by the target.
pub take_job_by_target :
    (blob target : List ℕ) (job : ℕ) (v : Merge) (m : MiningBlob) (chain : HashingId)
    → deserialize_blob blob ≡ ok m
    → m.chains ≡ chain ∷ []
    → (length target ≡ 4) ⊎ (length target ≡ 8)
    → IsU64 (le_value target)
    → (le_value target ≡ 0 → take_job blob target job v ≡ panic)
      × (0 < le_value target
          → Returns
              (λ w.
                (w.hashing_id ≡ chain)
                × (w.job_id ≡ job)
                × (w.difficulty ≡ (2 ^ 64 - 1) / le_value target))
              (take_job blob target job v))
take_job_by_target blob target job v m chain read one size fits = (zero_panics, positive)
  where
    top : Uint128
    top = record { lo = 2 ^ 64 - 1; hi = 0 }

    top-IsValid : IsValid top
    top-IsValid = record { lo_fits = omega arith; hi_fits = omega arith }

    zero_panics : le_value target ≡ 0 → take_job blob target job v ≡ panic
    zero_panics e =
        rw (take_job-word blob target job v m chain read one size, e, div64-zero top) refl

    kept :
        (r : Result Uint128)
        → Returns (λ q. IsValid q × (to_ℕ q ≡ (2 ^ 64 - 1) / le_value target)) r
        → Returns
            (λ w.
              (w.hashing_id ≡ chain)
              × (w.job_id ≡ job)
              × (w.difficulty ≡ (2 ^ 64 - 1) / le_value target))
            (r >>= λ d. ok (record v { hashing_id = chain; difficulty = d.lo; job_id = job }))
    kept (ok q) (valid, is) = (refl, refl, omega arith)
    kept (err e) h = elim h [ ]
    kept panic h = elim h [ ]

    positive :
        0 < le_value target
        → Returns
            (λ w.
              (w.hashing_id ≡ chain)
              × (w.job_id ≡ job)
              × (w.difficulty ≡ (2 ^ 64 - 1) / le_value target))
            (take_job blob target job v)
    positive pos = rw (take_job-word blob target job v m chain read one size) (
        kept (div64 top (le_value target)) (div64_exact top (le_value target) top-IsValid fits pos))
