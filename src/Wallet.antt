-- ===== src/Wallet.antt =====
-- The wallet's state and its transfers: wallet/wallet.go. The files and the passwords are input and
-- output; a private key is a number of 64 bytes, its upper half the public key.
pub mod Accepted
use still_blockchain.Address.{Integrated}
use still_blockchain.Base.{ℕ, ◌+◌, ◌*◌, ◌/◌, ◌%◌, ◌^◌, ◌<◌, ◌≡◌, true, ◌&&◌, ◌==◌, List}
use still_blockchain.Base.Result.{Result, ok, fail_if, ◌>>=◌, ◌>>◌, to_self}
use still_blockchain.Config.{fee_per_byte}
use still_blockchain.Crypto.{Crypto}
use still_blockchain.Ledger.{u64}
use still_blockchain.Rpc.{AddressResponse}
use still_blockchain.Transaction.{Transaction, get_virtual_size, signature_data}

-- `Privkey.Public` of bitcrypto/bitcrypto.go.
unfoldable pub public_key : ℕ → ℕ
public_key key = key / 256 ^ 32 % 256 ^ 32

-- What the wallet takes from crypto/ed25519. A private key is a seed of 32 bytes with the public key
-- behind it; `derive` is the public key that `NewKeyFromSeed` gives a seed. The signatures of
-- `bitcrypto.Sign` are verified where the two halves of the key belong together.
pub record Signer (c : Crypto) : Type 0 where
  pub sign : List ℕ → ℕ → ℕ
  pub sign_fits : (message : List ℕ) (key : ℕ) → sign message key < 256 ^ 64
  pub derive : ℕ → ℕ
  pub sign_verifies :
      (message : List ℕ) (key : ℕ)
      → public_key key ≡ derive (key % 256 ^ 32)
      → c.verify (public_key key) message (sign message key) ≡ true

pub record Wallet : Type 0 where
  pub private_key : ℕ
  pub address : Integrated
  pub balance : ℕ
  pub last_nonce : ℕ
  pub mempool_bal : ℕ
  pub mempool_nonce : ℕ
  pub height : ℕ

-- `Refresh`, with what the node answers to `get_address`.
unfoldable pub refresh : Wallet → AddressResponse → Wallet
refresh w r = record w {
  balance = r.balance;
  last_nonce = r.last_nonce;
  mempool_bal = r.mempool_balance;
  mempool_nonce = r.mempool_nonce;
  height = r.height;
}

-- The transaction of a transfer, before it is signed.
unfoldable pub unsigned : Wallet → ℕ → Integrated → Transaction
unfolding get_virtual_size public_key
unsigned w amount to =
    let t : Transaction = record {
      sender = public_key w.private_key;
      recipient = to.addr;
      signature = 0;
      nonce = (w.mempool_nonce + 1) % u64;
      amount = amount;
      fee = 0;
      subaddr = to.subaddr;
    } in
    record t { fee = get_virtual_size t * fee_per_byte }

-- `Transaction.Sign`
unfoldable pub sign_tx : {c : Crypto} → Signer c → Transaction → ℕ → Transaction
sign_tx signer t key = record t { signature = signer.sign (signature_data t) key }

-- `Transfer`, with what the node answers.
unfoldable pub transfer :
    {c : Crypto} → Signer c → Wallet → AddressResponse → ℕ → Integrated → Result Transaction
unfolding refresh unsigned sign_tx
transfer signer w r amount to = do
  let w' = refresh w r
  fail_if (w'.address.addr == to.addr && w'.address.subaddr == to.subaddr) to_self
  ok (sign_tx signer (unsigned w' amount to) w'.private_key)
