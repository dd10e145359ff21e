-- ===== src/Transaction.antt =====
-- Transactions: transaction/transaction.go. Keys, addresses and signatures are byte arrays, as
-- numbers.
pub mod RoundTrip
pub mod Checks
use still_blockchain.Base.{
  ℕ, ◌+◌, ◌*◌, ◌%◌, ◌^◌, ◌<◌, ◌≡◌, Bool, true, false, not, List, [], ◌++◌, ltb, ◌==◌, if◌then◌else◌,
}
use still_blockchain.Base.Bytes.{le_bytes, IsU64}
use still_blockchain.Base.Result.{
  Result, ok, err, fail_if, ◌>>=◌, ◌>>◌, des_error, bad_vsize, zero_amount, bad_sender,
  same_recipient, low_fee, bad_signature,
}
use still_blockchain.Binary.{Des, new_des, add_fixed, add_uvarint, read_array, read_uvarint}
use still_blockchain.Config.{fee_per_byte, max_tx_size}
use still_blockchain.Crypto.{Crypto, from_pub_key}

pub record Transaction : Type 0 where
  pub sender : ℕ
  pub recipient : ℕ
  pub signature : ℕ
  pub nonce : ℕ
  pub amount : ℕ
  pub fee : ℕ
  pub subaddr : ℕ

unfoldable pub serialize : Transaction → List ℕ
unfolding add_fixed add_uvarint
serialize t =
    let s1 = add_fixed [] (le_bytes 32 t.sender) in
    let s2 = add_fixed s1 (le_bytes 22 t.recipient) in
    let s3 = add_fixed s2 (le_bytes 64 t.signature) in
    let s4 = add_uvarint s3 t.subaddr in
    let s5 = add_uvarint s4 t.nonce in let s6 = add_uvarint s5 t.amount in add_uvarint s6 t.fee

unfoldable pub deserialize : List ℕ → Result Transaction
deserialize b =
    let (sender, d1) = read_array 32 (new_des b) in
    let (recipient, d2) = read_array 22 d1 in
    let (signature, d3) = read_array 64 d2 in
    let (subaddr, d4) = read_uvarint d3 in
    let (nonce, d5) = read_uvarint d4 in
    let (amount, d6) = read_uvarint d5 in
    let (fee, d7) = read_uvarint d6 in
    if d7.failed
    then err des_error
    else ok (record {
      sender = sender;
      recipient = recipient;
      signature = signature;
      nonce = nonce;
      amount = amount;
      fee = fee;
      subaddr = subaddr;
    })

-- The TXID.
unfoldable pub tx_hash : Crypto → Transaction → ℕ
tx_hash c t = c.blake3 (serialize t)

-- 32 for the sender, 22 for the recipient, 64 for the signature, and a byte for each of seven.
abbrev pub base_overhead : ℕ
base_overhead = 32 + 22 + 64 + 1 + 1 + 1 + 1 + 1 + 1 + 1

unfoldable pub get_virtual_size : Transaction → ℕ
get_virtual_size t = base_overhead

unfoldable pub signature_data : Transaction → List ℕ
signature_data t = serialize (record t { signature = 0 })

unfoldable pub prevalidate : Crypto → Transaction → Result (Unit {0})
unfolding get_virtual_size
prevalidate c t = do
  let vsize = get_virtual_size t
  fail_if (ltb max_tx_size vsize) bad_vsize
  fail_if (t.amount == 0) zero_amount
  let sender_addr = from_pub_key c t.sender
  fail_if (sender_addr == 0) bad_sender
  fail_if (sender_addr == t.recipient) same_recipient
  fail_if (ltb t.fee (fee_per_byte * vsize)) low_fee
  fail_if (not (c.verify t.sender (signature_data t) t.signature)) bad_signature
