-- ===== src/Tests/Miners.antt =====
-- Tests of block templates, targets, jobs and miners.
use still_blockchain.Block.BaseHash.{commitment}
use still_blockchain.Block.MiningBlob.{mining_blob}
use still_blockchain.Base.Assoc.{insert}
use still_blockchain.Mining.Targets.{get_target_bytes}
use still_blockchain.Mining.Jobs.Panics.{take_job_by_target}
use still_blockchain.Stratum.Shared.{last_login, send_job-Pays}
use still_blockchain.Tests.Samples.{toy}
use still_blockchain.Stratum.Submit.{SubmitRequest, solved_block, job_of, find_job}
use still_blockchain.Stratum.{Server, send_job, JobParams, MinerJob, deref}
use still_blockchain.Mining.Jobs.{take_job}
use still_blockchain.Block.MiningBlob.RoundTrip.{IsBlob, deserialize_blob-serialize_blob}
use still_blockchain.Block.MiningBlob.{sort_chains, insert_chain, MiningBlob, serialize_blob}
use still_blockchain.Base.Bytes.{le_value}
use still_blockchain.Block.Pow.{valid_pow_value, no_greater}
use still_blockchain.Mining.Found.{FoundBlockInfo}
use still_blockchain.Base.{
  length, ◌^◌, ◌<◌, ◌≡◌, refl, arith, true, [], ◌∷◌, false, replicate, List, some, ℕ, ◌-◌, ◌/◌, ◌+◌,
  inr,
}
use still_blockchain.Base.Assoc.{lookup}
use still_blockchain.Base.Result.{ok, Returns, panic, Result}
use still_blockchain.Block.{prev_hash, Block, add_hash}
use still_blockchain.Chain.{get_block, found}
use still_blockchain.Chain.Check.{check_block, get_next_difficulty}
use still_blockchain.Mining.Template.{
  Merge, get_block_template, choose_sides, try_tip, out_of_reach, choose_chains, choose_txs,
  blank_template, filled_template,
}
use still_blockchain.Mining.Template.Extends.{AtTop, get_block_template_checks}
use still_blockchain.Mining.Template.Returns.{get_block_template-Returns}
use still_blockchain.Mining.Template.Sides.{aligned}
use still_blockchain.Tests.Chains.{env, chain, number, block_at}
use still_blockchain.Uint128.{from64, from_bytes, add, div, quo_rem, quo_rem64, mul64, div64, cmp}
use still_blockchain.Uint128.Value.{IsValid}

chain-AtTop : AtTop chain (block_at 1 10 2000)
unfolding get_block lookup
chain-AtTop = record { stored = refl; same_height = refl; same_work = refl }

small : IsValid (number 1000)
small = record { lo_fits = omega arith; hi_fits = omega arith }

next : get_next_difficulty chain (block_at 1 10 2000) ≡ ok (number 1000)
unfolding get_next_difficulty from64
next = refl

get_block_template-Returns_example :
    Returns
      (λ made.
        (prev_hash made.0 ≡ 21)
        × (check_block env chain made.0 (block_at 1 10 2000)
            ≡ aligned made.0.ancestors made.0.side_blocks))
      (get_block_template env 100_000 7 9 [] chain)
get_block_template-Returns_example =
    get_block_template-Returns env 100_000 7 9 chain (block_at 1 10 2000) (number 1000) chain-AtTop
      (omega arith) next small (record { lo_fits = omega arith; hi_fits = omega arith })
      (omega arith)

abbrev merged : Merge
merged = record {
  destination = 1;
  permanent = true;
  hashing_id = record { network = 77; hash = 78 };
  difficulty = 500;
  job_id = 3;
}

abbrev template : Block
template = record {
  header = record {
    version = 0;
    height = 2;
    timestamp = 100_000;
    nonce = 0;
    nonce_extra = 7;
    other_chains = record { network = 77; hash = 78 } ∷ [];
    recipient = 9;
    ancestors = 21 ∷ 10 ∷ 2 ∷ [];
    side_blocks = [];
  };
  difficulty = number 1000;
  cumulative_diff = number 3000;
  transactions = [];
}

made : get_block_template env 100_000 7 9 (merged ∷ []) chain ≡ ok (template, 500)
unfolding get_block_template get_block lookup found get_next_difficulty from64 add choose_sides
    try_tip out_of_reach mul64 div64 quo_rem64 choose_chains sort_chains insert_chain choose_txs
    blank_template filled_template add_hash
made = ground arith

get_block_template_checks_example :
    (prev_hash template ≡ 21)
    × (check_block env chain template (block_at 1 10 2000)
        ≡ aligned template.ancestors template.side_blocks)
get_block_template_checks_example =
    get_block_template_checks env 100_000 7 9 (merged ∷ []) chain (block_at 1 10 2000) template 500
      chain-AtTop (omega arith) made

weak_hash : valid_pow_value (from_bytes (replicate 16 255)) (number 1000) ≡ ok false
unfolding valid_pow_value from_bytes le_value div quo_rem quo_rem64 no_greater cmp
weak_hash = ground arith

abbrev no_reply : Merge → FoundBlockInfo
no_reply v = record {
  hash = 0;
  height = 0;
  network = v.hashing_id.network;
  difficulty = number 0;
  accepted = false;
}

abbrev slave_blob : MiningBlob
slave_blob = record {
  timestamp = 10;
  nonce = 4;
  nonce_extra = 0;
  chains = record { network = 77; hash = 8 } ∷ [];
}

slave_blob-IsBlob : IsBlob slave_blob
slave_blob-IsBlob = record {
  timestamp_fits = omega arith;
  nonce_fits = omega arith;
  nonce_extra_fits = omega arith;
  chains_fit = (omega arith, omega arith, tt);
  some_chain = omega arith;
  chains_length = omega arith;
}

abbrev no_target : List ℕ
no_target = replicate 8 0

no_target-zero : le_value no_target ≡ 0
unfolding le_value
no_target-zero = refl

take_job_by_target_example :
    (le_value no_target ≡ 0 → take_job (serialize_blob slave_blob) no_target 5 merged ≡ panic)
    × (0 < le_value no_target
        → Returns
            (λ w.
              (w.hashing_id ≡ record { network = 77; hash = 8 })
              × (w.job_id ≡ 5)
              × (w.difficulty ≡ (2 ^ 64 - 1) / le_value no_target))
            (take_job (serialize_blob slave_blob) no_target 5 merged))
take_job_by_target_example =
    take_job_by_target (serialize_blob slave_blob) no_target 5 merged slave_blob
      (record { network = 77; hash = 8 })
      (deserialize_blob-serialize_blob slave_blob slave_blob-IsBlob) refl (inr refl)
      (omega (arith, no_target-zero))

-- Two miners have logged in, with the addresses 5 and 6.
abbrev server : Server
server = record {
  blocks = (3, template) ∷ [];
  last_block = some 3;
  last_min_diff = number 1000;
  conns =
      (1, record { address = 5; jobs = record { job_id = 50; block = 3; seed = 0 } ∷ [] })
      ∷ (2, record { address = 6; jobs = [] })
      ∷ [];
}

abbrev sending : Result (List JobParams) × Server
sending = send_job toy 4 template (number 1000) (λ k. k + 60) server

abbrev sent_params : List JobParams
sent_params = elim sending.0 [ ok params ↦ params | _ ↦ [] ]

-- Both miners get a job.
jobs_sent : sending ≡ (ok sent_params, sending.1)
unfolding send_job commitment mining_blob lookup insert get_target_bytes
jobs_sent = refl

two_sent : length sent_params ≡ 2
unfolding send_job commitment mining_blob lookup insert get_target_bytes
two_sent = refl

send_job-Pays_example :
    (job : MinerJob) × (b' : Block) × (job_of 1 61 sending.1 ≡ some job)
    × (job.block ≡ 4)
    × ((deref job.block sending.1).0 ≡ ok b')
    × ((q : SubmitRequest) (nonce : ℕ)
        → (solved_block b' q nonce).recipient ≡ last_login template.recipient server.conns)
send_job-Pays_example =
    send_job-Pays toy 4 template (number 1000) (λ k. k + 60) server sending.1 sent_params 1
      (record { address = 5; jobs = record { job_id = 50; block = 3; seed = 0 } ∷ [] })
      (unfold lookup in refl) refl (unfold find_job in (refl, (refl, tt))) jobs_sent
