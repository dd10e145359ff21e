-- ===== src/Block/Codec.antt =====
-- The bytes of commitments, headers and blocks: `Serialize`, `Deserialize` and
-- `DeserializeFull`, with the loops over their lists.
use still_blockchain.Base.{
  ℕ, zero, suc, ◌-◌, ◌^◌, ◌||◌, List, [], ◌∷◌, ◌++◌, length, take, ltb, leb, ◌==◌, if◌then◌else◌,
}
use still_blockchain.Base.Bytes.{le_bytes}
use still_blockchain.Base.Result.{
  Result, ok, fail_if, ◌>>=◌, ◌>>◌, des_error, too_many_chains, too_many_sides, too_many_txs,
}
use still_blockchain.Binary.{
  Des, new_des, add_uint, add_fixed, add_uvarint, add_byte_slice, read_uint, read_array,
  read_uvarint, read_byte_slice, zeros,
}
use still_blockchain.Config.{
  minidag_ancestors, max_merge_mined_chains, max_side_blocks, max_tx_per_block,
}
use still_blockchain.Crypto.{Crypto}
use still_blockchain.Transaction as Tx
use still_blockchain.Transaction.{Transaction, tx_hash}
use still_blockchain.Uint128.{Uint128, is_zero, put_bytes, from_bytes}
use still_blockchain.Block.{HashingId, Commitment, Header, Block}

-- `for _, v := range hashes { s.AddFixedByteArray(v[:]) }`
unfoldable pub add_hashes : List ℕ → List ℕ → List ℕ
unfolding add_fixed
add_hashes s [] = s
add_hashes s (h ∷ hs) = add_hashes (add_fixed s (le_bytes 32 h)) hs

-- `for _, v := range chains { s.AddUint64(v.NetworkID); s.AddFixedByteArray(v.Hash[:]) }`
unfoldable pub add_chains : List ℕ → List HashingId → List ℕ
unfolding add_fixed add_uint
add_chains s [] = s
add_chains s (v ∷ vs) = add_chains (add_fixed (add_uint 8 s v.network) (le_bytes 32 v.hash)) vs

unfoldable pub serialize_commitment : Commitment → List ℕ
unfolding add_fixed add_uvarint add_uint add_hashes add_chains
serialize_commitment c =
    let s1 = add_fixed [] (le_bytes 32 c.base_hash) in
    let s2 = add_hashes s1 c.ancestors in
    let s3 = add_uvarint s2 c.timestamp in
    let s4 = add_uint 4 s3 c.nonce in
    let s5 = add_fixed s4 (le_bytes 16 c.nonce_extra) in
    let s6 = add_uvarint s5 (length c.other_chains) in add_chains s6 c.other_chains

unfoldable pub add_commitments : List ℕ → List Commitment → List ℕ
unfolding add_fixed serialize_commitment
add_commitments s [] = s
add_commitments s (c ∷ cs) = add_commitments (add_fixed s (serialize_commitment c)) cs

-- `for i := range a { a[i] = d.ReadFixedByteArray(32) }`: an error shows after the loop.
unfoldable pub read_hashes : ℕ → Des → List ℕ × Des
read_hashes zero d = ([], d)
read_hashes (suc n) d =
    let (h, d1) = read_array 32 d in let (hs, d2) = read_hashes n d1 in (h ∷ hs, d2)

-- The loop over `OtherChains`: an error ends it.
unfoldable pub read_chains : ℕ → Des → Result (List HashingId × Des)
read_chains zero d = ok ([], d)
read_chains (suc n) d = do
  fail_if d.failed des_error
  let (network, d1) = read_uint 8 d
  let (hash, d2) = read_array 32 d1
  (vs, d3) ← read_chains n d2
  ok (record { network = network; hash = hash } ∷ vs, d3)

-- The commitment and the bytes behind it.
unfoldable pub deserialize_commitment : List ℕ → Result (Commitment × List ℕ)
deserialize_commitment b = do
  let (base_hash, d1) = read_array 32 (new_des b)
  let (ancestors, d2) = read_hashes minidag_ancestors d1
  let (timestamp, d3) = read_uvarint d2
  let (nonce, d4) = read_uint 4 d3
  let (nonce_extra, d5) = read_array 16 d4
  let (num_chains, d6) = read_uvarint d5
  fail_if (leb (2 ^ 63) num_chains || ltb (max_merge_mined_chains - 1) num_chains) too_many_chains
  (chains, d7) ← read_chains num_chains d6
  fail_if d7.failed des_error
  ok (
    record {
      base_hash = base_hash;
      ancestors = ancestors;
      timestamp = timestamp;
      nonce = nonce;
      nonce_extra = nonce_extra;
      other_chains = chains;
    },
    d7.bytes,
  )

-- The loop over `SideBlocks`.
unfoldable pub read_commitments : ℕ → Des → Result (List Commitment × Des)
read_commitments zero d = ok ([], d)
read_commitments (suc n) d = do
  fail_if d.failed des_error
  (c, rest) ← deserialize_commitment d.bytes
  (cs, d1) ← read_commitments n (record { bytes = rest; failed = d.failed })
  ok (c ∷ cs, d1)

unfoldable pub serialize_header : Header → List ℕ
unfolding add_fixed add_uvarint add_uint add_hashes add_chains add_commitments
serialize_header b =
    let s1 = add_uint 1 [] b.version in
    let s2 = add_uvarint s1 b.height in
    let s3 = add_uvarint s2 b.timestamp in
    let s4 = add_uint 4 s3 b.nonce in
    let s5 = add_fixed s4 (le_bytes 16 b.nonce_extra) in
    let s6 = add_fixed s5 (le_bytes 22 b.recipient) in
    let s7 = add_hashes s6 b.ancestors in
    let s8 = add_uvarint s7 (length b.other_chains) in
    let s9 = add_chains s8 b.other_chains in
    let s10 = add_uvarint s9 (length b.side_blocks) in add_commitments s10 b.side_blocks

unfoldable pub deserialize_header : List ℕ → Result (Header × List ℕ)
deserialize_header b = do
  let (version, d1) = read_uint 1 (new_des b)
  let (height, d2) = read_uvarint d1
  let (timestamp, d3) = read_uvarint d2
  let (nonce, d4) = read_uint 4 d3
  let (nonce_extra, d5) = read_array 16 d4
  let (recipient, d6) = read_array 22 d5
  let (ancestors, d7) = read_hashes minidag_ancestors d6
  fail_if d7.failed des_error
  let (num_chains, d8) = read_uvarint d7
  fail_if (leb (2 ^ 63) num_chains || ltb (max_merge_mined_chains - 1) num_chains) too_many_chains
  (chains, d9) ← read_chains num_chains d8
  let (num_sides, d10) = read_uvarint d9
  fail_if (leb (2 ^ 63) num_sides || ltb max_side_blocks num_sides) too_many_sides
  (sides, d11) ← read_commitments num_sides d10
  fail_if d11.failed des_error
  ok (
    record {
      version = version;
      height = height;
      timestamp = timestamp;
      nonce = nonce;
      nonce_extra = nonce_extra;
      other_chains = chains;
      recipient = recipient;
      ancestors = ancestors;
      side_blocks = sides;
    },
    d11.bytes,
  )

-- `for len(diff) > 0 && diff[len(diff)-1] == 0`: the zero bytes at the end go.
unfoldable pub keep_byte : ℕ → List ℕ → List ℕ
keep_byte b [] = if b == 0 then [] else b ∷ []
keep_byte b (x ∷ xs) = b ∷ x ∷ xs

unfoldable pub trim_zeros : List ℕ → List ℕ
unfolding keep_byte
trim_zeros [] = []
trim_zeros (b ∷ bs) = keep_byte b (trim_zeros bs)

unfoldable pub add_difficulty : List ℕ → Uint128 → List ℕ
unfolding add_byte_slice trim_zeros
add_difficulty s u = add_byte_slice s (trim_zeros (put_bytes u))

-- `copy(diff, d.ReadByteSlice())` into 16 zero bytes.
unfoldable pub pad_difficulty : List ℕ → Uint128
pad_difficulty b = from_bytes (take 16 (b ++ zeros 16))

unfoldable pub serialize_block : Block → List ℕ
unfolding add_fixed serialize_header add_difficulty add_uvarint add_hashes
serialize_block b =
    if is_zero b.difficulty
    then []
    else (let s1 = add_fixed [] (serialize_header b.header) in
        let s2 = add_difficulty s1 b.difficulty in
        let s3 = add_difficulty s2 b.cumulative_diff in
        let s4 = add_uvarint s3 (length b.transactions) in add_hashes s4 b.transactions)

-- The loop over the transactions' hashes.
unfoldable pub read_txids : ℕ → Des → Result (List ℕ × Des)
read_txids zero d = ok ([], d)
read_txids (suc n) d = do
  let (h, d1) = read_array 32 d
  fail_if d1.failed des_error
  (hs, d2) ← read_txids n d1
  ok (h ∷ hs, d2)

unfoldable pub deserialize_block : List ℕ → Result Block
deserialize_block b = do
  (header, rest) ← deserialize_header b
  (diff, d1) ← read_byte_slice (new_des rest)
  (cumulative, d2) ← read_byte_slice d1
  fail_if d2.failed des_error
  let (num_tx, d3) = read_uvarint d2
  fail_if d3.failed des_error
  fail_if (ltb max_tx_per_block num_tx) too_many_txs
  (txids, d4) ← read_txids num_tx d3
  fail_if d4.failed des_error
  ok (record {
    header = header;
    difficulty = pad_difficulty diff;
    cumulative_diff = pad_difficulty cumulative;
    transactions = txids;
  })

-- The loop of `DeserializeFull` over whole transactions.
unfoldable pub read_txs : ℕ → Des → Result (List Transaction × Des)
read_txs zero d = ok ([], d)
read_txs (suc n) d = do
  (slice, d1) ← read_byte_slice d
  t ← Tx.deserialize slice
  (ts, d2) ← read_txs n d1
  ok (t ∷ ts, d2)

abbrev pub tx_hashes : Crypto → List Transaction → List ℕ
tx_hashes c [] = []
tx_hashes c (t ∷ ts) = tx_hash c t ∷ tx_hashes c ts

unfoldable pub deserialize_full : Crypto → List ℕ → Result (Block × List Transaction)
unfolding deserialize_header pad_difficulty read_txs
deserialize_full c b = do
  (header, rest) ← deserialize_header b
  (diff, d1) ← read_byte_slice (new_des rest)
  (cumulative, d2) ← read_byte_slice d1
  let (num_tx, d3) = read_uvarint d2
  fail_if d3.failed des_error
  fail_if (ltb max_tx_per_block num_tx) too_many_txs
  (txs, d4) ← read_txs num_tx d3
  fail_if d4.failed des_error
  ok (
    record {
      header = header;
      difficulty = pad_difficulty diff;
      cumulative_diff = pad_difficulty cumulative;
      transactions = tx_hashes c txs;
    },
    txs,
  )

-- `Block.Hash`
unfoldable pub block_hash : Crypto → Block → ℕ
block_hash c b = c.blake3 (serialize_block b)
