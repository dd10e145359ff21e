-- ===== src/Block/BaseHash.antt =====
-- The commitment of a block: `BaseHash` and `Commitment` of block/commitment.go.
use still_blockchain.Base.{ℕ, []}
use still_blockchain.Block.{Block, Header, Commitment}
use still_blockchain.Block.Codec.{block_hash}
use still_blockchain.Crypto.{Crypto}

-- `BaseHash`: the hash of the block without its timestamp, nonces and other chains.
unfoldable pub base_hash : Crypto → Block → ℕ
base_hash c b =
    let h : Header = record (b.header) {
      timestamp = 0;
      nonce = 0;
      nonce_extra = 0;
      other_chains = [];
    } in
    block_hash c (record b { header = h })

unfoldable pub commitment : Crypto → Block → Commitment
commitment c b = record {
  base_hash = base_hash c b;
  ancestors = b.ancestors;
  timestamp = b.timestamp;
  nonce = b.nonce;
  nonce_extra = b.nonce_extra;
  other_chains = b.other_chains;
}
