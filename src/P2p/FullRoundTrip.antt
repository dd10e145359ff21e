-- ===== src/P2p/FullRoundTrip.antt =====
-- A block and its transactions are read back from the bytes that a peer is sent.
use still_blockchain.Base.{
  ℕ, ◌^◌, ◌<◌, ◌≤◌, ◌≡◌, refl, sym, ◌∙◌, ap, arith, false, List, [], ◌∷◌, ◌++◌, some, length, ltb,
  append_assoc, append-nil, length-append,
}
use still_blockchain.Base.Assoc.{lookup}
use still_blockchain.Base.Bytes.{length-le_bytes}
use still_blockchain.Base.Result.{ok, Empty, ◌>>=◌}
use still_blockchain.Binary.{new_des, uvarint, add_byte_slice}
use still_blockchain.Binary.RoundTrip.{read_byte_slice-append, read_uvarint-uvarint}
use still_blockchain.Binary.Uvarint.{length-uvarint}
use still_blockchain.Block.{Block}
use still_blockchain.Block.Codec.{deserialize_full, read_txs, tx_hashes, serialize_header}
use still_blockchain.Block.HeaderRoundTrip.{deserialize_header-serialize_header}
use still_blockchain.Block.RoundTrip.{IsBlock, trimmed, length-trimmed, pad_difficulty-trim_zeros}
use still_blockchain.Crypto.{Crypto}
use still_blockchain.Ledger.{Ledger}
use still_blockchain.Packet.RoundTrip.{nonempty-nonzero}
use still_blockchain.Transaction.{Transaction, serialize, tx_hash}
use still_blockchain.Transaction.RoundTrip.{IsValid, deserialize-serialize, serialize_parts}
use still_blockchain.Uint128.{is_zero}
use still_blockchain.P2p.FullBlock.{serialize_full, add_txs, get_tx}

-- The transactions `ts` are those stored under the hashes `vs`, and fit their types.
abbrev pub AreStored : Crypto → Ledger → List ℕ → List Transaction → Type 0
AreStored c l [] [] = Unit
AreStored c l [] (t ∷ ts) = Empty
AreStored c l (v ∷ vs) [] = Empty
AreStored c l (v ∷ vs) (t ∷ ts) =
    ((height : ℕ) × (lookup v l.txs ≡ some (record { height = height; tx = t })))
    × (tx_hash c t ≡ v)
    × IsValid t
    × AreStored c l vs ts

txs_bytes : List Transaction → List ℕ
txs_bytes [] = []
txs_bytes (t ∷ ts) = uvarint 9 (length (serialize t)) ++ (serialize t ++ txs_bytes ts)

add_txs-stored :
    (c : Crypto) (l : Ledger) (s vs : List ℕ) (ts : List Transaction)
    → AreStored c l vs ts
    → add_txs l s vs ≡ ok (s ++ txs_bytes ts)
unfolding add_txs get_tx txs_bytes add_byte_slice
add_txs-stored c l s [] [] h = ap ok (sym (append-nil s))
add_txs-stored c l s [] (t ∷ ts) h = elim h [ ]
add_txs-stored c l s (v ∷ vs) [] h = elim h [ ]
add_txs-stored c l s (v ∷ vs) (t ∷ ts) h =
    let (height, there) = h.0 in
    let bytes = serialize t in
    let later : add_txs l ((s ++ uvarint 9 (length bytes)) ++ bytes) vs
        ≡ ok (s ++ (uvarint 9 (length bytes) ++ (bytes ++ txs_bytes ts))) =
      add_txs-stored c l ((s ++ uvarint 9 (length bytes)) ++ bytes) vs ts h.3
      ∙ ap ok (simp append_assoc) in
    ground (arith, there, later)

length-serialize : (t : Transaction) → length (serialize t) < 2 ^ 63
length-serialize t = grind (arith, serialize_parts, length-append, length-le_bytes, length-uvarint)

read_txs-bytes :
    (c : Crypto) (l : Ledger) (vs : List ℕ) (ts : List Transaction)
    → AreStored c l vs ts
    → (read_txs (length vs) (new_des (txs_bytes ts)) ≡ ok (ts, new_des [])) × (tx_hashes c ts ≡ vs)
unfolding read_txs txs_bytes
read_txs-bytes c l [] [] h = (refl, refl)
read_txs-bytes c l [] (t ∷ ts) h = elim h [ ]
read_txs-bytes c l (v ∷ vs) [] h = elim h [ ]
read_txs-bytes c l (v ∷ vs) (t ∷ ts) h =
    let (loop, hashes) = read_txs-bytes c l vs ts h.3 in
    (
      rw (
        read_byte_slice-append (serialize t) (txs_bytes ts) (length-serialize t),
        deserialize-serialize t h.2,
        loop,
      ),
      rw (h.1, hashes),
    )

serialize_full_parts :
    (c : Crypto) (l : Ledger) (b : Block) (ts : List Transaction)
    → IsBlock b
    → is_zero b.cumulative_diff ≡ false
    → AreStored c l b.transactions ts
    → serialize_full l b
      ≡ ok (
          serialize_header b.header
          ++ (uvarint 9 (length (trimmed b.difficulty))
              ++ (trimmed b.difficulty
                  ++ (uvarint 9 (length (trimmed b.cumulative_diff))
                      ++ (trimmed b.cumulative_diff
                          ++ (uvarint 9 (length b.transactions) ++ txs_bytes ts))))))
unfolding serialize_full
serialize_full_parts c l b ts h nz stored =
    rw
      (
        nonempty-nonzero b.difficulty h.difficulty_fits h.difficulty_nonzero,
        nonempty-nonzero b.cumulative_diff h.cumulative_fits nz,
      )
      (add_txs-stored c l _ b.transactions ts stored ∙ ap ok (simp append_assoc))

deserialize_full-bytes :
    (c : Crypto) (l : Ledger) (b : Block) (ts : List Transaction)
    → IsBlock b
    → AreStored c l b.transactions ts
    → deserialize_full c (
        serialize_header b.header
        ++ (uvarint 9 (length (trimmed b.difficulty))
            ++ (trimmed b.difficulty
                ++ (uvarint 9 (length (trimmed b.cumulative_diff))
                    ++ (trimmed b.cumulative_diff
                        ++ (uvarint 9 (length b.transactions) ++ txs_bytes ts))))))
      ≡ ok (b, ts)
unfolding deserialize_full
deserialize_full-bytes c l b ts h stored =
    let (loop, hashes) = read_txs-bytes c l b.transactions ts stored in
    let r5 = txs_bytes ts in
    let r4 = uvarint 9 (length b.transactions) ++ r5 in
    let r3 = trimmed b.cumulative_diff ++ r4 in
    let r2 = uvarint 9 (length (trimmed b.cumulative_diff)) ++ r3 in
    let r1 = uvarint 9 (length (trimmed b.difficulty)) ++ (trimmed b.difficulty ++ r2) in
    rw
      (
        deserialize_header-serialize_header b.header r1 h.header_fits,
        read_byte_slice-append (trimmed b.difficulty) r2
            (omega (arith, length-trimmed b.difficulty)),
        read_byte_slice-append (trimmed b.cumulative_diff) r4
            (omega (arith, length-trimmed b.cumulative_diff)),
        read_uvarint-uvarint (length b.transactions) r5 (omega (arith, h.txids_length)),
      )
      (unfold new_des in
        rw (
          few (length b.transactions) h.txids_length,
          loop,
          hashes,
          pad_difficulty-trim_zeros b.difficulty h.difficulty_fits,
          pad_difficulty-trim_zeros b.cumulative_diff h.cumulative_fits,
        ))
  where
    few : (n : ℕ) → n ≤ 1000 → ltb 1000 n ≡ false
    few n h = ground arith

-- A peer that is sent a block reads that block and its transactions `ts`, if the block fits its
-- format, its cumulative difficulty is not 0, and the transactions are stored under their hashes.
pub deserialize_full-serialize_full :
    (c : Crypto) (l : Ledger) (b : Block) (ts : List Transaction)
    → IsBlock b
    → is_zero b.cumulative_diff ≡ false
    → AreStored c l b.transactions ts
    → (serialize_full l b >>= deserialize_full c) ≡ ok (b, ts)
deserialize_full-serialize_full c l b ts h nz stored =
    rw (serialize_full_parts c l b ts h nz stored) (deserialize_full-bytes c l b ts h stored)
