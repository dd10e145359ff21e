-- ===== src/Block.antt =====
-- Blocks and what they consist of: the types of block/block.go, block/commitment.go and
-- block/miningblob.go, and block/ancestors.go. An array of ancestors is a list of that length.
pub mod Codec
pub mod Reads
pub mod CommitmentRoundTrip
pub mod HeaderRoundTrip
pub mod RoundTrip
pub mod MiningBlob
pub mod BaseHash
pub mod Pow
use still_blockchain.Base.{
  ℕ, suc, ◌-◌, Bool, true, false, Option, none, some, List, [], ◌∷◌, length, take, get_or, ◌==◌,
  ◌&&◌, if◌then◌else◌,
}
use still_blockchain.Uint128.{Uint128}

pub record HashingId : Type 0 where
  pub network : ℕ
  pub hash : ℕ

pub record Commitment : Type 0 where
  pub base_hash : ℕ
  pub ancestors : List ℕ
  pub timestamp : ℕ
  pub nonce : ℕ
  pub nonce_extra : ℕ
  pub other_chains : List HashingId

pub record Header : Type 0 where
  pub version : ℕ
  pub height : ℕ
  pub timestamp : ℕ
  pub nonce : ℕ
  pub nonce_extra : ℕ
  pub other_chains : List HashingId
  pub recipient : ℕ
  pub ancestors : List ℕ
  pub side_blocks : List Commitment

pub record Block : Type 0 where
  pub header : Header
  pub open header use *
  pub difficulty : Uint128
  pub cumulative_diff : Uint128
  pub transactions : List ℕ

-- `b.Ancestors[0]`
unfoldable pub prev_hash : Block → ℕ
prev_hash b = get_or b.ancestors 0 0

-- `AddHash`: the new hash in front, and the last one falls off.
unfoldable pub add_hash : List ℕ → ℕ → List ℕ
add_hash a h = h ∷ take (length a - 1) a

-- The inner loop of `FindCommon`, from index `i` on.
unfoldable pub index_from : ℕ → List ℕ → ℕ → Option ℕ
index_from h [] i = none
index_from h (b ∷ bs) i = let rest = index_from h bs (suc i) in if h == b then some i else rest

-- `FindCommon`; `none` is -1.
unfoldable pub find_common : List ℕ → List ℕ → Option ℕ
unfolding index_from
find_common [] b = none
find_common (h ∷ a) b =
    let rest = find_common a b in elim (index_from h b 0) [ none ↦ rest | some i ↦ some i ]

-- `Commitment.Equals`: not all of the fields are compared.
unfoldable pub commitment_equals : Commitment → Commitment → Bool
commitment_equals a b =
    a.base_hash == b.base_hash
    && a.timestamp == b.timestamp
    && a.nonce == b.nonce
    && a.nonce_extra == b.nonce_extra
