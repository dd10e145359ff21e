-- ===== src/Tests/Codecs.antt =====
-- Tests of the byte formats.
use still_blockchain.Block.MiningBlob.Set.{set_mining_blob, set_mining_blob-mining_blob}
use still_blockchain.Block.MiningBlob.RoundTrip.{IsBlob}
use still_blockchain.Block.MiningBlob.{
  MiningBlob, hashing_id, mining_blob, sort_chains, insert_chain,
}
use still_blockchain.Transaction.Checks.{Passes, prevalidate_iff}
use still_blockchain.Base.{◌≡◌, arith, refl, ◌∷◌, [], ◌↔◌, length, ◌≤◌}
use still_blockchain.Block.HeaderRoundTrip.{IsHeader}
use still_blockchain.Block.RoundTrip.{IsBlock, deserialize_block-serialize_block}
use still_blockchain.Tests.Samples.{toy, payment, full_block, side, header, empty_block}
use still_blockchain.Block.CommitmentRoundTrip.{IsCommitment}
use still_blockchain.Block.Codec.{deserialize_block, serialize_block}
use still_blockchain.Base.Result.{ok}
use still_blockchain.Uint128.{is_zero}
use still_blockchain.Transaction.{serialize, deserialize, prevalidate}
use still_blockchain.Transaction.RoundTrip.{IsValid, deserialize-serialize}

pub payment-IsValid : IsValid payment
payment-IsValid = record {
  sender_fits = omega arith;
  recipient_fits = omega arith;
  signature_fits = omega arith;
  nonce_fits = omega arith;
  amount_fits = omega arith;
  fee_fits = omega arith;
  subaddr_fits = omega arith;
}

deserialize-serialize_example : deserialize (serialize payment) ≡ ok payment
deserialize-serialize_example = deserialize-serialize payment payment-IsValid

prevalidate_iff_example : (prevalidate toy payment ≡ ok tt) ↔ Passes toy payment
prevalidate_iff_example = prevalidate_iff toy payment

side-IsCommitment : IsCommitment side
side-IsCommitment = record {
  base_hash_fits = omega arith;
  ancestors_fit = (omega arith, (omega arith, (omega arith, tt)));
  ancestors_length = refl;
  timestamp_fits = omega arith;
  nonce_fits = omega arith;
  nonce_extra_fits = omega arith;
  chains_fit = (omega arith, omega arith, tt);
  chains_length = omega arith;
}

pub header-IsHeader : IsHeader header
header-IsHeader = record {
  version_fits = omega arith;
  height_fits = omega arith;
  timestamp_fits = omega arith;
  nonce_fits = omega arith;
  nonce_extra_fits = omega arith;
  recipient_fits = omega arith;
  ancestors_fit = (omega arith, (omega arith, (omega arith, tt)));
  ancestors_length = refl;
  chains_fit = tt;
  chains_length = omega arith;
  sides_fit = (side-IsCommitment, tt);
  sides_length = omega arith;
}

full_block-IsBlock : IsBlock full_block
unfolding is_zero
full_block-IsBlock = record {
  header_fits = header-IsHeader;
  difficulty_fits = record { lo_fits = omega arith; hi_fits = omega arith };
  difficulty_nonzero = refl;
  cumulative_fits = record { lo_fits = omega arith; hi_fits = omega arith };
  txids_fit = (omega arith, tt);
  txids_length = omega arith;
}

deserialize_block-serialize_block_example :
    deserialize_block (serialize_block full_block) ≡ ok full_block
deserialize_block-serialize_block_example =
    deserialize_block-serialize_block full_block full_block-IsBlock

abbrev pub blob : MiningBlob
blob = record {
  timestamp = 10;
  nonce = 4;
  nonce_extra = 0;
  chains = record { network = 3; hash = 8 } ∷ record { network = 5; hash = 9 } ∷ [];
}

pub blob-IsBlob : IsBlob blob
blob-IsBlob = record {
  timestamp_fits = omega arith;
  nonce_fits = omega arith;
  nonce_extra_fits = omega arith;
  chains_fit = (omega arith, omega arith, (omega arith, omega arith, tt));
  some_chain = omega arith;
  chains_length = omega arith;
}

-- The mining blob of the side block's commitment.
side_blob : MiningBlob
side_blob = record {
  timestamp = 10;
  nonce = 4;
  nonce_extra = 0;
  chains = record { network = 3; hash = 8 } ∷ hashing_id toy side ∷ [];
}

side_blob_made : mining_blob toy side ≡ ok side_blob
unfolding side_blob mining_blob sort_chains insert_chain hashing_id
side_blob_made = refl

set_mining_blob-mining_blob_example :
    ((set_mining_blob side_blob empty_block).1.header.other_chains ≡ side.other_chains)
    ↔ (length side.other_chains ≤ 1)
set_mining_blob-mining_blob_example =
    set_mining_blob-mining_blob toy side side_blob empty_block
      ((λ e. omega arith), (λ e. omega arith), tt) side_blob_made
