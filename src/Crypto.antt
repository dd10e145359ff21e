-- ===== src/Crypto.antt =====
-- The cryptography that the program calls and does not implement: github.com/zeebo/blake3, the
-- signatures of bitcrypto/bitcrypto.go (crypto/ed25519), and github.com/still-project/go-randomstill.
use still_blockchain.Base.{ℕ, ◌%◌, ◌^◌, ◌<◌, Bool, List}
use still_blockchain.Base.Bytes.{le_bytes}

pub record Crypto : Type 0 where
  -- `blake3.Sum256`, a [32]byte.
  pub blake3 : List ℕ → ℕ
  pub blake3_fits : (b : List ℕ) → blake3 b < 256 ^ 32
  -- `bitcrypto.VerifySignature` on a key, a message and a signature.
  pub verify : ℕ → List ℕ → ℕ → Bool
  -- `randomstill.PowHash` on a seed and a blob, a [32]byte.
  pub pow_hash : ℕ → List ℕ → ℕ

-- `address.FromPubKey`: the first 22 bytes of the hash of the key.
unfoldable pub from_pub_key : Crypto → ℕ → ℕ
from_pub_key c p = c.blake3 (le_bytes 32 p) % 256 ^ 22
