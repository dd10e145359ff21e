-- ===== src/Block/RoundTrip.antt =====
-- Blocks are read back from their bytes.
use still_blockchain.Base.{
  ltb, ℕ, zero, suc, ◌≤◌, ◌≡◌, List, [], ◌∷◌, ◌++◌, append_assoc, append-nil, arith, refl, ◌∙◌, ap,
  length, take, length-append, subst, false,
}
use still_blockchain.Base.Bytes.{
  le_bytes, length-le_bytes, le_value-le_bytes, take-le_bytes, drop-le_bytes,
}
use still_blockchain.Base.Result.{ok}
use still_blockchain.Binary.{new_des, uvarint, zeros}
use still_blockchain.Binary.RoundTrip.{
  read_byte_slice-append, read_array-le_bytes, read_uvarint-uvarint,
}
use still_blockchain.Block.{Block}
use still_blockchain.Block.Codec.{
  serialize_block, deserialize_block, read_txids, add_difficulty, serialize_header, trim_zeros,
  keep_byte, pad_difficulty,
}
use still_blockchain.Block.HeaderRoundTrip.{IsHeader, deserialize_header-serialize_header}
use still_blockchain.Block.CommitmentRoundTrip.{AreHashes, hashes_bytes, add_hashes-append}
use still_blockchain.Uint128.{is_zero, Uint128, put_bytes, from_bytes}
use still_blockchain.Uint128.Value as Value

-- Padding undoes the trimming.
take-trim_zeros :
    (bs : List ℕ) (m : ℕ) → length bs ≤ m → take (length bs) (trim_zeros bs ++ zeros m) ≡ bs
unfolding trim_zeros zeros
take-trim_zeros [] m h = refl
take-trim_zeros (b ∷ bs) zero h = absurd (omega arith)
take-trim_zeros (b ∷ bs) (suc m) h =
    padded (trim_zeros bs) (take-trim_zeros bs m (omega arith))
      (take-trim_zeros bs (suc m) (omega arith))
  where
    padded :
        (t : List ℕ)
        → take (length bs) (t ++ zeros m) ≡ bs
        → take (length bs) (t ++ zeros (suc m)) ≡ bs
        → take (suc (length bs)) (keep_byte b t ++ zeros (suc m)) ≡ b ∷ bs
    padded [] short long = ground arith
    padded (x ∷ xs) short long = λ i. b ∷ long i

length-trim_zeros : (bs : List ℕ) → length (trim_zeros bs) ≤ length bs
unfolding trim_zeros
length-trim_zeros [] = omega arith
length-trim_zeros (b ∷ bs) = kept (trim_zeros bs) (length-trim_zeros bs)
  where
    kept : (t : List ℕ) → length t ≤ length bs → length (keep_byte b t) ≤ suc (length bs)
    kept [] h = ground arith
    kept (x ∷ xs) h = omega arith

length-put_bytes : (u : Uint128) → length (put_bytes u) ≡ 16
unfolding put_bytes
length-put_bytes u = omega (
  arith,
  length-append (le_bytes 8 u.lo) (le_bytes 8 u.hi),
  length-le_bytes 8 u.lo,
  length-le_bytes 8 u.hi,
)

pub from_bytes-put_bytes : (u : Uint128) → Value.IsValid u → from_bytes (put_bytes u) ≡ u
unfolding from_bytes put_bytes
from_bytes-put_bytes u h =
    let whole : take 8 (le_bytes 8 u.hi) ≡ le_bytes 8 u.hi =
      rw append-nil at (take-le_bytes 8 u.hi []) in
    ground (
      arith,
      take-le_bytes 8 u.lo (le_bytes 8 u.hi),
      drop-le_bytes 8 u.lo (le_bytes 8 u.hi),
      whole,
      le_value-le_bytes 8 u.lo h.lo_fits,
      le_value-le_bytes 8 u.hi h.hi_fits,
    )

pub pad_difficulty-trim_zeros :
    (u : Uint128) → Value.IsValid u → pad_difficulty (trim_zeros (put_bytes u)) ≡ u
unfolding pad_difficulty
pad_difficulty-trim_zeros u h =
    ap from_bytes (
      subst (λ n. take n (trim_zeros (put_bytes u) ++ zeros 16) ≡ put_bytes u) (length-put_bytes u)
        (take-trim_zeros (put_bytes u) 16 (omega (arith, length-put_bytes u))))
    ∙ from_bytes-put_bytes u h

pub record IsBlock (b : Block) : Type 0 where
  pub header_fits : IsHeader b.header
  pub difficulty_fits : Value.IsValid b.difficulty
  pub difficulty_nonzero : is_zero b.difficulty ≡ false
  pub cumulative_fits : Value.IsValid b.cumulative_diff
  pub txids_fit : AreHashes b.transactions
  pub txids_length : length b.transactions ≤ 1000

abbrev pub trimmed : Uint128 → List ℕ
trimmed u = trim_zeros (put_bytes u)

pub length-trimmed : (u : Uint128) → length (trimmed u) ≤ 16
length-trimmed u = omega (arith, length-trim_zeros (put_bytes u), length-put_bytes u)

serialize_block_parts :
    (b : Block)
    → is_zero b.difficulty ≡ false
    → serialize_block b
      ≡ serialize_header b.header
        ++ (uvarint 9 (length (trimmed b.difficulty))
            ++ (trimmed b.difficulty
                ++ (uvarint 9 (length (trimmed b.cumulative_diff))
                    ++ (trimmed b.cumulative_diff
                        ++ (uvarint 9 (length b.transactions) ++ hashes_bytes b.transactions)))))
unfolding serialize_block add_difficulty
serialize_block_parts b nz = rw nz (simp (add_hashes-append, append_assoc))

read_txids-bytes :
    (hs : List ℕ)
    → AreHashes hs
    → read_txids (length hs) (new_des (hashes_bytes hs)) ≡ ok (hs, new_des [])
unfolding read_txids hashes_bytes
read_txids-bytes [] h = refl
read_txids-bytes (x ∷ hs) h =
    rw (read_array-le_bytes 32 x (hashes_bytes hs) h.0, read_txids-bytes hs h.1)
      (unfold new_des in refl)

-- A block is read back from its bytes if its numbers fit their types, its difficulty is not 0, and
-- it has 3 ancestors and at most 15 other chains, 2 side blocks and 1000 transactions.
pub deserialize_block-serialize_block :
    (b : Block) → IsBlock b → deserialize_block (serialize_block b) ≡ ok b
unfolding deserialize_block
deserialize_block-serialize_block b h =
    let r5 = hashes_bytes b.transactions in
    let r4 = uvarint 9 (length b.transactions) ++ r5 in
    let r3 = trimmed b.cumulative_diff ++ r4 in
    let r2 = uvarint 9 (length (trimmed b.cumulative_diff)) ++ r3 in
    let r1 = uvarint 9 (length (trimmed b.difficulty)) ++ (trimmed b.difficulty ++ r2) in
    rw
      (
        serialize_block_parts b h.difficulty_nonzero,
        deserialize_header-serialize_header b.header r1 h.header_fits,
        read_byte_slice-append (trimmed b.difficulty) r2
            (omega (arith, length-trimmed b.difficulty)),
        read_byte_slice-append (trimmed b.cumulative_diff) r4
            (omega (arith, length-trimmed b.cumulative_diff)),
        read_uvarint-uvarint (length b.transactions) r5 (omega (arith, h.txids_length)),
      )
      (unfold new_des in
        rw (
          few (length b.transactions) h.txids_length,
          read_txids-bytes b.transactions h.txids_fit,
          pad_difficulty-trim_zeros b.difficulty h.difficulty_fits,
          pad_difficulty-trim_zeros b.cumulative_diff h.cumulative_fits,
        ))
  where
    few : (n : ℕ) → n ≤ 1000 → ltb 1000 n ≡ false
    few n h = ground arith
