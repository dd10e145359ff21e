-- ===== src/Block/CommitmentRoundTrip.antt =====
-- Hashes, chains and commitments are read back from their bytes.
use still_blockchain.Base.{
  subst, leb, ltb, ◌||◌, false, ℕ, ◌^◌, ◌<◌, ◌≤◌, ◌≡◌, List, [], ◌∷◌, ◌++◌, append_assoc,
  append-nil, arith, refl, sym, ◌∙◌, length,
}
use still_blockchain.Base.Bytes.{le_bytes, IsU64}
use still_blockchain.Base.Result.{ok}
use still_blockchain.Binary.{new_des, uvarint}
use still_blockchain.Binary.RoundTrip.{
  read_array-le_bytes, read_uvarint-uvarint, read_uint-le_bytes,
}
use still_blockchain.Block.{HashingId, Commitment}
use still_blockchain.Block.Codec.{
  add_hashes, add_chains, serialize_commitment, add_commitments, read_hashes, read_chains,
  deserialize_commitment,
}

abbrev pub AreHashes : List ℕ → Type 0
AreHashes [] = Unit
AreHashes (h ∷ hs) = (h < 256 ^ 32) × AreHashes hs

abbrev pub AreChains : List HashingId → Type 0
AreChains [] = Unit
AreChains (v ∷ vs) = IsU64 v.network × (v.hash < 256 ^ 32) × AreChains vs

pub record IsCommitment (c : Commitment) : Type 0 where
  pub base_hash_fits : c.base_hash < 256 ^ 32
  pub ancestors_fit : AreHashes c.ancestors
  pub ancestors_length : length c.ancestors ≡ 3
  pub timestamp_fits : IsU64 c.timestamp
  pub nonce_fits : c.nonce < 256 ^ 4
  pub nonce_extra_fits : c.nonce_extra < 256 ^ 16
  pub chains_fit : AreChains c.other_chains
  pub chains_length : length c.other_chains ≤ 15

abbrev pub AreCommitments : List Commitment → Type 0
AreCommitments [] = Unit
AreCommitments (c ∷ cs) = IsCommitment c × AreCommitments cs

-- What the loops write.
unfoldable pub hashes_bytes : List ℕ → List ℕ
hashes_bytes [] = []
hashes_bytes (h ∷ hs) = le_bytes 32 h ++ hashes_bytes hs

unfoldable pub chains_bytes : List HashingId → List ℕ
chains_bytes [] = []
chains_bytes (v ∷ vs) = le_bytes 8 v.network ++ (le_bytes 32 v.hash ++ chains_bytes vs)

unfoldable pub commitments_bytes : List Commitment → List ℕ
commitments_bytes [] = []
commitments_bytes (c ∷ cs) = serialize_commitment c ++ commitments_bytes cs

pub add_hashes-append : (s hs : List ℕ) → add_hashes s hs ≡ s ++ hashes_bytes hs
unfolding add_hashes hashes_bytes
add_hashes-append s [] = sym (append-nil s)
add_hashes-append s (h ∷ hs) =
    add_hashes-append (s ++ le_bytes 32 h) hs ∙ append_assoc s (le_bytes 32 h) (hashes_bytes hs)

pub add_chains-append : (s : List ℕ) (vs : List HashingId) → add_chains s vs ≡ s ++ chains_bytes vs
unfolding add_chains chains_bytes
add_chains-append s [] = sym (append-nil s)
add_chains-append s (v ∷ vs) =
    add_chains-append ((s ++ le_bytes 8 v.network) ++ le_bytes 32 v.hash) vs ∙ simp append_assoc

pub add_commitments-append :
    (s : List ℕ) (cs : List Commitment) → add_commitments s cs ≡ s ++ commitments_bytes cs
unfolding add_commitments commitments_bytes
add_commitments-append s [] = sym (append-nil s)
add_commitments-append s (c ∷ cs) =
    add_commitments-append (s ++ serialize_commitment c) cs
    ∙ append_assoc s (serialize_commitment c) (commitments_bytes cs)

pub read_hashes-bytes :
    (hs rest : List ℕ)
    → AreHashes hs
    → read_hashes (length hs) (new_des (hashes_bytes hs ++ rest)) ≡ (hs, new_des rest)
unfolding read_hashes hashes_bytes
read_hashes-bytes [] rest h = refl
read_hashes-bytes (x ∷ hs) rest h = rw (
  append_assoc (le_bytes 32 x) (hashes_bytes hs) rest,
  read_array-le_bytes 32 x (hashes_bytes hs ++ rest) h.0,
  read_hashes-bytes hs rest h.1,
)

pub read_chains-bytes :
    (vs : List HashingId) (rest : List ℕ)
    → AreChains vs
    → read_chains (length vs) (new_des (chains_bytes vs ++ rest)) ≡ ok (vs, new_des rest)
unfolding read_chains chains_bytes
read_chains-bytes [] rest h = refl
read_chains-bytes (v ∷ vs) rest h =
    rw
      (
        append_assoc (le_bytes 8 v.network) (le_bytes 32 v.hash ++ chains_bytes vs) rest,
        append_assoc (le_bytes 32 v.hash) (chains_bytes vs) rest,
        read_uint-le_bytes 8 v.network (le_bytes 32 v.hash ++ (chains_bytes vs ++ rest)) h.0,
        read_array-le_bytes 32 v.hash (chains_bytes vs ++ rest) h.1,
        read_chains-bytes vs rest h.2,
      )
      (unfold new_des in refl)

pub read_hashes_three :
    (hs rest : List ℕ)
    → AreHashes hs
    → length hs ≡ 3
    → read_hashes 3 (new_des (hashes_bytes hs ++ rest)) ≡ (hs, new_des rest)
read_hashes_three hs rest h e =
    subst (λ n. read_hashes n (new_des (hashes_bytes hs ++ rest)) ≡ (hs, new_des rest)) e
      (read_hashes-bytes hs rest h)

-- A count within its limit passes both of the code's tests.
pub within_limit : (n k : ℕ) → n ≤ k → k < 2 ^ 63 → (leb (2 ^ 63) n || ltb k n) ≡ false
within_limit n k h hk = ground arith

serialize_commitment_parts :
    (c : Commitment) (rest : List ℕ)
    → serialize_commitment c ++ rest
      ≡ le_bytes 32 c.base_hash
        ++ (hashes_bytes c.ancestors
            ++ (uvarint 9 c.timestamp
                ++ (le_bytes 4 c.nonce
                    ++ (le_bytes 16 c.nonce_extra
                        ++ (uvarint 9 (length c.other_chains)
                            ++ (chains_bytes c.other_chains ++ rest))))))
unfolding serialize_commitment
serialize_commitment_parts c rest = simp (add_hashes-append, add_chains-append, append_assoc)

-- A commitment is read back from its bytes, whatever follows them.
pub deserialize_commitment-serialize_commitment :
    (c : Commitment) (rest : List ℕ)
    → IsCommitment c
    → deserialize_commitment (serialize_commitment c ++ rest) ≡ ok (c, rest)
unfolding deserialize_commitment
deserialize_commitment-serialize_commitment c rest h =
    let r6 = chains_bytes c.other_chains ++ rest in
    let r5 = uvarint 9 (length c.other_chains) ++ r6 in
    let r4 = le_bytes 16 c.nonce_extra ++ r5 in
    let r3 = le_bytes 4 c.nonce ++ r4 in
    let r2 = uvarint 9 c.timestamp ++ r3 in
    let r1 = hashes_bytes c.ancestors ++ r2 in
    rw
      (
        serialize_commitment_parts c rest,
        read_array-le_bytes 32 c.base_hash r1 h.base_hash_fits,
        read_hashes_three c.ancestors r2 h.ancestors_fit h.ancestors_length,
        read_uvarint-uvarint c.timestamp r3 h.timestamp_fits,
        read_uint-le_bytes 4 c.nonce r4 h.nonce_fits,
        read_array-le_bytes 16 c.nonce_extra r5 h.nonce_extra_fits,
        read_uvarint-uvarint (length c.other_chains) r6 (omega (arith, h.chains_length)),
        within_limit (length c.other_chains) 15 h.chains_length (omega arith),
        read_chains-bytes c.other_chains rest h.chains_fit,
      )
      (unfold new_des in refl)
