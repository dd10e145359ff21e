-- ===== src/Block/Reads/Full.antt =====
-- The numbers of a block that was read: `DeserializeFull` of block/block.go, on any bytes.
use still_blockchain.Base.{
  ℕ, zero, suc, List, [], ◌∷◌, ◌++◌, arith, ◌≡◌, ◌≤◌, ◌<◌, length, ◌^◌, take, drop, ltb,
}
use still_blockchain.Base.Bytes.{IsBytes, le_value}
use still_blockchain.Base.Result.{
  Result, ok, fail_if, ◌>>=◌, ◌>>◌, des_error, too_many_txs, err, panic,
}
use still_blockchain.Binary.{Des, new_des, read_byte_slice, read_uvarint, zeros}
use still_blockchain.Binary.Reads.{
  Slices, take-IsBytes, drop-IsBytes, append-IsBytes, zeros-IsBytes, read_byte_slice-Slices,
}
use still_blockchain.Block.{Block, Header}
use still_blockchain.Block.Codec.{
  deserialize_header, deserialize_full, pad_difficulty, read_txs, tx_hashes,
}
use still_blockchain.Block.Reads.{
  IfOk, IfOk-bind, IfOk-elim, FewSides, deserialize_header-FewSides, IfOk-guard, IfOk-any, IfOk-ok,
}
use still_blockchain.Config.{max_tx_per_block}
use still_blockchain.Crypto.{Crypto}
use still_blockchain.Transaction.{Transaction}
use still_blockchain.Uint128.Value.{IsValid}
use native.Mathlib.Nat.{pow-suc}

-- The numbers of a block that was read fit their types.
pub record FitsTypes (b : Block) : Type 0 where
  pub difficulty_fits : IsValid b.difficulty
  pub cumulative_fits : IsValid b.cumulative_diff
  pub few_sides : length b.side_blocks ≤ 2

pow_pos : (n : ℕ) → 0 < 256 ^ n
pow_pos zero = omega arith
pow_pos (suc n) = omega (arith, pow-suc 256 n, pow_pos n)

le_value-take-lt : (n : ℕ) (bs : List ℕ) → IsBytes bs → le_value (take n bs) < 256 ^ n
unfolding le_value
le_value-take-lt zero bs h = omega arith
le_value-take-lt (suc n) [] h = omega (arith, pow-suc 256 n, pow_pos n)
le_value-take-lt (suc n) (b ∷ bs) (lt, h) = omega (arith, le_value-take-lt n bs h, pow-suc 256 n)

pad_difficulty-IsValid : (b : List ℕ) → IsBytes b → IsValid (pad_difficulty b)
unfolding pad_difficulty still_blockchain.Uint128.from_bytes le_value
pad_difficulty-IsValid b h =
    let padded = take 16 (b ++ zeros 16) in
    let h' : IsBytes padded =
      take-IsBytes 16 (b ++ zeros 16) (append-IsBytes b (zeros 16) h (zeros-IsBytes 16)) in
    record {
      lo_fits = le_value-take-lt 8 padded h';
      hi_fits = le_value-take-lt 8 (drop 8 padded) (drop-IsBytes 8 padded h');
    }

abbrev TwoBytes : List ℕ × Des → Type 0
TwoBytes r = IsBytes r.0 × IsBytes r.1.bytes

slice-IsBytes : (d : Des) → IsBytes d.bytes → IfOk TwoBytes (read_byte_slice d)
unfolding IfOk
slice-IsBytes d h = go (read_byte_slice d) (read_byte_slice-Slices d h)
  where
    go : (r : Result (List ℕ × Des)) → Slices r → IfOk TwoBytes r
    go (ok x) k = k
    go (err e) k = tt
    go panic k = tt

-- The numbers of a block fit its types.
abbrev FullFits : Block × List Transaction → Type 0
FullFits r = FitsTypes r.0

-- Behind the two numbers of the difficulty: the transactions, whose hashes `make` puts in.
full_rest :
    (c : Crypto) (make : List ℕ → Block) (d : Des)
    → ((hashes : List ℕ) → FitsTypes (make hashes))
    → IfOk FullFits (
        let (num_tx, d3) = read_uvarint d in
        fail_if d3.failed des_error
        >> (fail_if (ltb max_tx_per_block num_tx) too_many_txs
            >> (read_txs num_tx d3 >>= λ x.
                fail_if x.1.failed des_error >> ok (make (tx_hashes c x.0), x.0))))
full_rest c make d fits =
    let (num_tx, d3) = read_uvarint d in
    let next : List Transaction × Des → Result (Block × List Transaction) =
      λ x. fail_if x.1.failed des_error >> ok (make (tx_hashes c x.0), x.0) in
    IfOk-guard FullFits d3.failed des_error
      (fail_if (ltb max_tx_per_block num_tx) too_many_txs >> (read_txs num_tx d3 >>= next))
      (λ _.
        IfOk-guard FullFits (ltb max_tx_per_block num_tx) too_many_txs (read_txs num_tx d3 >>= next)
          (λ _.
            IfOk-bind (λ _. Unit {0}) FullFits (read_txs num_tx d3) next
              (IfOk-any (read_txs num_tx d3))
              (λ x _.
                IfOk-guard FullFits x.1.failed des_error (ok (make (tx_hashes c x.0), x.0))
                  (λ _. IfOk-ok FullFits (make (tx_hashes c x.0), x.0) (fits (tx_hashes c x.0))))))

full-FullFits : (c : Crypto) (b : List ℕ) → IsBytes b → IfOk FullFits (deserialize_full c b)
unfolding deserialize_full new_des
full-FullFits c b h =
    let make : Header → List ℕ → List ℕ → List ℕ → Block = λ header diff cumulative hashes. record {
      header = header;
      difficulty = pad_difficulty diff;
      cumulative_diff = pad_difficulty cumulative;
      transactions = hashes;
    } in
    let rest : Header → List ℕ → List ℕ × Des → Result (Block × List Transaction) =
      λ header diff cum.
        let (num_tx, d3) = read_uvarint cum.1 in
        fail_if d3.failed des_error
        >> (fail_if (ltb max_tx_per_block num_tx) too_many_txs
            >> (read_txs num_tx d3 >>= λ x.
                fail_if x.1.failed des_error
                >> ok (make header diff cum.0 (tx_hashes c x.0), x.0))) in
    let second : Header → List ℕ × Des → Result (Block × List Transaction) =
      λ header diff. read_byte_slice diff.1 >>= rest header diff.0 in
    let first : Header × List ℕ → Result (Block × List Transaction) =
      λ header. read_byte_slice (new_des header.1) >>= second header.0 in
    IfOk-bind FewSides FullFits (deserialize_header b) first (deserialize_header-FewSides b h)
      (λ header k.
        IfOk-bind TwoBytes FullFits (read_byte_slice (new_des header.1)) (second header.0)
          (slice-IsBytes (new_des header.1) k.0)
          (λ diff k1.
            IfOk-bind TwoBytes FullFits (read_byte_slice diff.1) (rest header.0 diff.0)
              (slice-IsBytes diff.1 k1.1)
              (λ cum k2. full_rest c (make header.0 diff.0 cum.0) cum.1 (λ hashes. record {
                difficulty_fits = pad_difficulty-IsValid diff.0 k1.0;
                cumulative_fits = pad_difficulty-IsValid cum.0 k2.0;
                few_sides = k.1;
              }))))

-- A block that is read from bytes, with its transactions, has a difficulty and a cumulative
-- difficulty that fit the two words of their type, and at most two side blocks.
pub deserialize_full-FitsTypes :
    (c : Crypto) (bytes : List ℕ) {b : Block} {ts : List Transaction}
    → IsBytes bytes
    → deserialize_full c bytes ≡ ok (b, ts)
    → FitsTypes b
deserialize_full-FitsTypes c bytes h e =
    IfOk-elim FullFits (deserialize_full c bytes) (full-FullFits c bytes h) e
