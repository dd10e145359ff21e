-- ===== src/Block/MiningBlob/RoundTrip.antt =====
-- The blob is read back from its bytes.
use still_blockchain.Base.{
  false, ltb, ◌==◌, ◌||◌, ℕ, ◌^◌, ◌<◌, ◌≤◌, ◌≡◌, List, [], ◌∷◌, ◌++◌, length, append_assoc,
  append-nil, refl, arith,
}
use still_blockchain.Base.Bytes.{IsU64, le_bytes}
use still_blockchain.Base.Result.{ok}
use still_blockchain.Binary.{new_des}
use still_blockchain.Binary.RoundTrip.{read_uint-le_bytes, read_array-le_bytes}
use still_blockchain.Block.{HashingId}
use still_blockchain.Block.CommitmentRoundTrip.{AreChains, chains_bytes, add_chains-append}
use still_blockchain.Block.MiningBlob.{
  MiningBlob, serialize_blob, deserialize_blob, id_entropy, read_blob_chains,
}

pub record IsBlob (m : MiningBlob) : Type 0 where
  pub timestamp_fits : IsU64 m.timestamp
  pub nonce_fits : m.nonce < 256 ^ 4
  pub nonce_extra_fits : m.nonce_extra < 256 ^ 16
  pub chains_fit : AreChains m.chains
  pub some_chain : 1 ≤ length m.chains
  pub chains_length : length m.chains ≤ 16

read_blob_chains-bytes :
    (vs : List HashingId) (rest : List ℕ)
    → AreChains vs
    → read_blob_chains (length vs) (new_des (chains_bytes vs ++ rest)) ≡ (vs, new_des rest)
unfolding read_blob_chains chains_bytes
read_blob_chains-bytes [] rest h = refl
read_blob_chains-bytes (v ∷ vs) rest h = rw (
  append_assoc (le_bytes 8 v.network) (le_bytes 32 v.hash ++ chains_bytes vs) rest,
  append_assoc (le_bytes 32 v.hash) (chains_bytes vs) rest,
  read_uint-le_bytes 8 v.network (le_bytes 32 v.hash ++ (chains_bytes vs ++ rest)) h.0,
  read_array-le_bytes 32 v.hash (chains_bytes vs ++ rest) h.1,
  read_blob_chains-bytes vs rest h.2,
)

serialize_blob_parts :
    (m : MiningBlob)
    → serialize_blob m
      ≡ le_bytes 8 m.timestamp
        ++ (le_bytes 16 m.nonce_extra
            ++ (le_bytes 8 (length m.chains)
                ++ (le_bytes 7 id_entropy
                    ++ (le_bytes 4 m.nonce ++ (chains_bytes m.chains ++ [])))))
unfolding serialize_blob
serialize_blob_parts m = simp (add_chains-append, append_assoc, append-nil)

count_fits : (n : ℕ) → 1 ≤ n → n ≤ 16 → (n == 0 || ltb 16 n) ≡ false
count_fits n lo hi = ground arith

-- A mining blob of one to sixteen chains, whose fields fit their types, is read back from its
-- bytes.
pub deserialize_blob-serialize_blob :
    (m : MiningBlob) → IsBlob m → deserialize_blob (serialize_blob m) ≡ ok m
unfolding deserialize_blob
deserialize_blob-serialize_blob m h =
    let r5 = chains_bytes m.chains ++ [] in
    let r4 = le_bytes 4 m.nonce ++ r5 in
    let r3 = le_bytes 7 id_entropy ++ r4 in
    let r2 = le_bytes 8 (length m.chains) ++ r3 in
    let r1 = le_bytes 16 m.nonce_extra ++ r2 in
    rw
      (
        serialize_blob_parts m,
        read_uint-le_bytes 8 m.timestamp r1 h.timestamp_fits,
        read_array-le_bytes 16 m.nonce_extra r2 h.nonce_extra_fits,
        read_uint-le_bytes 8 (length m.chains) r3 (omega (arith, h.chains_length)),
        read_array-le_bytes 7 id_entropy r4 (omega arith),
        read_uint-le_bytes 4 m.nonce r5 h.nonce_fits,
        read_blob_chains-bytes m.chains [] h.chains_fit,
      )
      (rw (count_fits (length m.chains) h.some_chain h.chains_length) (unfold new_des in refl))
