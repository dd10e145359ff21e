-- ===== src/Block/HeaderRoundTrip.antt =====
-- Headers are read back from their bytes.
use still_blockchain.Base.{
  ℕ, ◌^◌, ◌<◌, ◌≤◌, ◌≡◌, List, [], ◌∷◌, ◌++◌, append_assoc, arith, refl, length,
}
use still_blockchain.Base.Bytes.{le_bytes, IsU64}
use still_blockchain.Base.Result.{ok}
use still_blockchain.Binary.{new_des, uvarint}
use still_blockchain.Binary.RoundTrip.{
  read_array-le_bytes, read_uvarint-uvarint, read_uint-le_bytes,
}
use still_blockchain.Block.{Commitment, Header}
use still_blockchain.Block.Codec.{
  serialize_commitment, serialize_header, deserialize_header, read_commitments,
}
use still_blockchain.Block.CommitmentRoundTrip.{
  AreHashes, AreChains, AreCommitments, hashes_bytes, chains_bytes, commitments_bytes,
  add_hashes-append, add_chains-append, add_commitments-append, read_hashes_three,
  read_chains-bytes, within_limit, deserialize_commitment-serialize_commitment,
}

pub record IsHeader (b : Header) : Type 0 where
  pub version_fits : b.version < 256 ^ 1
  pub height_fits : IsU64 b.height
  pub timestamp_fits : IsU64 b.timestamp
  pub nonce_fits : b.nonce < 256 ^ 4
  pub nonce_extra_fits : b.nonce_extra < 256 ^ 16
  pub recipient_fits : b.recipient < 256 ^ 22
  pub ancestors_fit : AreHashes b.ancestors
  pub ancestors_length : length b.ancestors ≡ 3
  pub chains_fit : AreChains b.other_chains
  pub chains_length : length b.other_chains ≤ 15
  pub sides_fit : AreCommitments b.side_blocks
  pub sides_length : length b.side_blocks ≤ 2

read_commitments-bytes :
    (cs : List Commitment) (rest : List ℕ)
    → AreCommitments cs
    → read_commitments (length cs) (new_des (commitments_bytes cs ++ rest)) ≡ ok (cs, new_des rest)
unfolding read_commitments commitments_bytes new_des
read_commitments-bytes [] rest h = refl
read_commitments-bytes (c ∷ cs) rest h = rw (
  append_assoc (serialize_commitment c) (commitments_bytes cs) rest,
  deserialize_commitment-serialize_commitment c (commitments_bytes cs ++ rest) h.0,
  read_commitments-bytes cs rest h.1,
)

serialize_header_parts :
    (b : Header) (rest : List ℕ)
    → serialize_header b ++ rest
      ≡ le_bytes 1 b.version
        ++ (uvarint 9 b.height
            ++ (uvarint 9 b.timestamp
                ++ (le_bytes 4 b.nonce
                    ++ (le_bytes 16 b.nonce_extra
                        ++ (le_bytes 22 b.recipient
                            ++ (hashes_bytes b.ancestors
                                ++ (uvarint 9 (length b.other_chains)
                                    ++ (chains_bytes b.other_chains
                                        ++ (uvarint 9 (length b.side_blocks)
                                            ++ (commitments_bytes b.side_blocks ++ rest))))))))))
unfolding serialize_header
serialize_header_parts b rest =
    simp (add_hashes-append, add_chains-append, add_commitments-append, append_assoc)

-- A header is read back from its bytes, whatever follows them, if its numbers fit their types and
-- it has 3 ancestors and at most 15 other chains and 2 side blocks.
pub deserialize_header-serialize_header :
    (b : Header) (rest : List ℕ)
    → IsHeader b
    → deserialize_header (serialize_header b ++ rest) ≡ ok (b, rest)
unfolding deserialize_header
deserialize_header-serialize_header b rest h =
    let r10 = commitments_bytes b.side_blocks ++ rest in
    let r9 = uvarint 9 (length b.side_blocks) ++ r10 in
    let r8 = chains_bytes b.other_chains ++ r9 in
    let r7 = uvarint 9 (length b.other_chains) ++ r8 in
    let r6 = hashes_bytes b.ancestors ++ r7 in
    let r5 = le_bytes 22 b.recipient ++ r6 in
    let r4 = le_bytes 16 b.nonce_extra ++ r5 in
    let r3 = le_bytes 4 b.nonce ++ r4 in
    let r2 = uvarint 9 b.timestamp ++ r3 in
    let r1 = uvarint 9 b.height ++ r2 in
    rw
      (
        serialize_header_parts b rest,
        read_uint-le_bytes 1 b.version r1 h.version_fits,
        read_uvarint-uvarint b.height r2 h.height_fits,
        read_uvarint-uvarint b.timestamp r3 h.timestamp_fits,
        read_uint-le_bytes 4 b.nonce r4 h.nonce_fits,
        read_array-le_bytes 16 b.nonce_extra r5 h.nonce_extra_fits,
        read_array-le_bytes 22 b.recipient r6 h.recipient_fits,
        read_hashes_three b.ancestors r7 h.ancestors_fit h.ancestors_length,
        read_uvarint-uvarint (length b.other_chains) r8 (omega (arith, h.chains_length)),
        within_limit (length b.other_chains) 15 h.chains_length (omega arith),
        read_chains-bytes b.other_chains r9 h.chains_fit,
        read_uvarint-uvarint (length b.side_blocks) r10 (omega (arith, h.sides_length)),
        within_limit (length b.side_blocks) 2 h.sides_length (omega arith),
        read_commitments-bytes b.side_blocks rest h.sides_fit,
      )
      (unfold new_des in refl)
