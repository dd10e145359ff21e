-- ===== src/Block/MiningBlob.antt =====
-- The blob that is hashed for the proof of work: block/miningblob.go, and `HashingID` and
-- `MiningBlob` of block/commitment.go.
pub mod RoundTrip
pub mod Set
use still_blockchain.Base.{
  ℕ, zero, suc, ◌+◌, ◌*◌, ◌/◌, ◌||◌, ◌==◌, ◌!=◌, List, [], ◌∷◌, ◌++◌, ltb, length, if◌then◌else◌,
}
use still_blockchain.Base.Bytes.{le_bytes}
use still_blockchain.Base.Result.{
  Result, ok, err, panic, fail_if, ◌>>=◌, ◌>>◌, des_error, bad_chain_count, bad_identifier,
  trailing_data,
}
use still_blockchain.Binary.{Des, new_des, add_uint, add_fixed, read_uint, read_array}
use still_blockchain.Block.{HashingId, Commitment}
use still_blockchain.Block.Codec.{add_chains, add_hashes}
use still_blockchain.Config.{max_merge_mined_chains, network_id, seedhash_duration}
use still_blockchain.Crypto.{Crypto}

pub record MiningBlob : Type 0 where
  pub timestamp : ℕ
  pub nonce : ℕ
  pub nonce_extra : ℕ
  pub chains : List HashingId

-- The bytes 31 ab ce 87 fe e4 cc.
abbrev pub id_entropy : ℕ
id_entropy = 0xcce4fe87ceab31

unfoldable pub serialize_blob : MiningBlob → List ℕ
unfolding add_uint add_fixed add_chains
serialize_blob m =
    let s1 = add_uint 8 [] m.timestamp in
    let s2 = add_fixed s1 (le_bytes 16 m.nonce_extra) in
    let s3 = add_uint 8 s2 (length m.chains) in
    let s4 = add_fixed s3 (le_bytes 7 id_entropy) in
    let s5 = add_uint 4 s4 m.nonce in add_chains s5 m.chains

-- The loop over the chains, which does not stop at an error.
unfoldable pub read_blob_chains : ℕ → Des → List HashingId × Des
read_blob_chains zero d = ([], d)
read_blob_chains (suc n) d =
    let (network, d1) = read_uint 8 d in
    let (hash, d2) = read_array 32 d1 in
    let (vs, d3) = read_blob_chains n d2 in (record { network = network; hash = hash } ∷ vs, d3)

unfoldable pub deserialize_blob : List ℕ → Result MiningBlob
unfolding read_blob_chains
deserialize_blob b = do
  let (timestamp, d1) = read_uint 8 (new_des b)
  let (nonce_extra, d2) = read_array 16 d1
  let (num_chains, d3) = read_uint 8 d2
  let (entropy, d4) = read_array 7 d3
  fail_if d4.failed des_error
  fail_if (num_chains == 0 || ltb max_merge_mined_chains num_chains) bad_chain_count
  fail_if (entropy != id_entropy) bad_identifier
  let (nonce, d5) = read_uint 4 d4
  let (chains, d6) = read_blob_chains num_chains d5
  fail_if d6.failed des_error
  fail_if (length d6.bytes != 0) trailing_data
  ok (record { timestamp = timestamp; nonce = nonce; nonce_extra = nonce_extra; chains = chains })

-- `GetSeedhashId` and `GetSeed`.
unfoldable pub get_seedhash_id : ℕ → ℕ
get_seedhash_id time = time / (seedhash_duration * 1000)

unfoldable pub get_seed : Crypto → MiningBlob → ℕ
unfolding get_seedhash_id
get_seed c m = c.blake3 (le_bytes 8 (get_seedhash_id m.timestamp))

-- `HashingID`: the base hash and the ancestors, hashed.
unfoldable pub hashing_id : Crypto → Commitment → HashingId
hashing_id c x = record {
  network = network_id;
  hash = c.blake3 (add_hashes (le_bytes 32 x.base_hash) x.ancestors);
}

-- `slices.SortFunc` by the network: two equal networks make its comparison panic.
unfoldable pub insert_chain : HashingId → List HashingId → Result (List HashingId)
insert_chain v [] = ok (v ∷ [])
insert_chain v (w ∷ ws) =
    let rest = insert_chain v ws in
    if v.network == w.network
    then panic
    else if ltb v.network w.network
    then ok (v ∷ w ∷ ws)
    else (rest >>= λ vs. ok (w ∷ vs))

unfoldable pub sort_chains : List HashingId → Result (List HashingId)
unfolding insert_chain
sort_chains [] = ok []
sort_chains (v ∷ vs) = sort_chains vs >>= insert_chain v

-- `MiningBlob`
unfoldable pub mining_blob : Crypto → Commitment → Result MiningBlob
unfolding hashing_id sort_chains
mining_blob c x = do
  chains ← sort_chains (x.other_chains ++ hashing_id c x ∷ [])
  ok (record {
    timestamp = x.timestamp;
    nonce = x.nonce;
    nonce_extra = x.nonce_extra;
    chains = chains;
  })
