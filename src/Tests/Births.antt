-- ===== src/Tests/Births.antt =====
-- Tests of the first blocks, and of a run that starts with them.
use still_blockchain.Chain.{get_block}
use still_blockchain.Chain.Add.{
  record_top, add_mainchain_block, deorphan_block, check_deorphanage, add_block,
}
use still_blockchain.Chain.Check.{get_next_difficulty, check_sides, cumulative, check_block}
use still_blockchain.Chain.Reorg.{best_tip, main_tip, check_reorgs}
use still_blockchain.Ledger.Apply.{apply_txs, apply_coinbase, apply_block}
use still_blockchain.Block.{prev_hash}
use still_blockchain.Block.Codec.{
  serialize_block, block_hash, deserialize_full, read_hashes, read_chains, read_commitments,
}
use still_blockchain.Block.Pow.{prevalidate_block}
use still_blockchain.Block.BaseHash.{commitment}
use still_blockchain.Block.MiningBlob.{mining_blob}
use still_blockchain.Uint128.{
  from64, is_zero, equals, cmp, cmp64, add, mul64, quo_rem64, div64, quo_rem, div, put_bytes,
  from_bytes,
}
use still_blockchain.Binary.{uvarint, new_des, read_uvarint, read_array}
use still_blockchain.Checkpoints.{is_secured}
use still_blockchain.Packet.{packet_type}
use still_blockchain.Base.Assoc.{lookup, insert}
use still_blockchain.Base.Bytes.{IsBytes, le_bytes, le_value}
use still_blockchain.Ledger.Total.{total}
use still_blockchain.Base.{[], ◌≡◌, ◌≤◌, ◌∷◌, ℕ, refl, arith, false, true, Bool, List, ltb, ◌&&◌}
use still_blockchain.Runs.{Reachable, Run, born, done, next, packet, solved}
use still_blockchain.Runs.Work.{Reachable-Holds, Run-never_less_work}
use still_blockchain.Chain.Sound.{HoldsOf}
use still_blockchain.Mining.Found.{FoundBlockInfo, block_found}
use still_blockchain.Mining.Template.{Merge}
use still_blockchain.P2p.Handlers.{incoming}
use still_blockchain.Tests.Network.{node}
use still_blockchain.Block.{Block}
use still_blockchain.Binary.{zeros, read_uint, uvarint_loop, read_byte_slice}
use still_blockchain.Block.Reads.Full.{FitsTypes, deserialize_full-FitsTypes}
use still_blockchain.Uint128.Value.{to_ℕ}
use still_blockchain.Transaction as Tx
use still_blockchain.Tests.Chains.{env, chain, number}
use still_blockchain.Tests.Samples.{empty_ledger, empty_block, header, toy}
use still_blockchain.Chain.{Chain}
use still_blockchain.Chain.Genesis.{genesis_block, add_genesis}
use still_blockchain.Chain.Genesis.Starts.{IsStarted, add_genesis-IsStarted}
use still_blockchain.Base.Result.{ok}

abbrev unborn : Chain
unborn = record chain { ledger = empty_ledger; blocks = []; topo = [] }

add_genesis-IsStarted_example :
    (ch' : Chain) × (add_genesis env 1000 unborn ≡ (ok tt, ch'))
    × IsStarted env (genesis_block env) ch'
    × ((later : ℕ) → add_genesis env later ch' ≡ (ok tt, ch'))
add_genesis-IsStarted_example =
    add_genesis-IsStarted env 1000 unborn (unfold lookup in refl) (unfold total in refl)
      (λ v r h. absurd (unfold lookup in cc))

-- The node at its start, and a block above the first one.
abbrev newborn : Chain
newborn = (add_genesis env 1000 unborn).1

abbrev second_block : Block
second_block = record empty_block {
  header = record header {
    height = 1;
    ancestors = block_hash toy (genesis_block env) ∷ 0 ∷ 0 ∷ [];
    side_blocks = [];
  };
  difficulty = number 1000;
  cumulative_diff = number 1001;
}

abbrev no_reply : Merge → FoundBlockInfo
no_reply m = record { hash = 0; height = 0; network = 0; difficulty = number 0; accepted = false }

second_block-FitsTypes : FitsTypes second_block
second_block-FitsTypes = record {
  difficulty_fits = record { lo_fits = omega arith; hi_fits = omega arith };
  cumulative_fits = record { lo_fits = omega arith; hi_fits = omega arith };
  few_sides = omega arith;
}

newborn-Reachable : Reachable newborn
newborn-Reachable = born env 1000 unborn refl refl done

-- A packet that is refused, and then the block.
abbrev grown : Chain
grown = (block_found node [] no_reply second_block (zeros 16) (incoming node 2 [] newborn).1).1

growth : Run newborn grown
growth =
    next (packet node 2 [] tt refl)
      (next (solved node [] no_reply second_block (zeros 16) second_block-FitsTypes refl) done)

Run-never_less_work_example : to_ℕ newborn.stats.cumulative_diff ≤ to_ℕ grown.stats.cumulative_diff
Run-never_less_work_example = Run-never_less_work newborn grown newborn-Reachable growth

Reachable-Holds_example : HoldsOf 1 grown
Reachable-Holds_example = Reachable-Holds grown (born env 1000 unborn refl refl growth)

-- The refused packet changes nothing, and the block becomes the top.
grows : grown.stats.cumulative_diff ≡ number 1001
unfolding get_block record_top add_mainchain_block deorphan_block check_deorphanage add_block
    get_next_difficulty check_sides cumulative check_block add_genesis best_tip main_tip
    check_reorgs apply_txs apply_coinbase apply_block prev_hash serialize_block block_hash
    prevalidate_block commitment mining_blob from64 is_zero equals cmp cmp64 add mul64 quo_rem64
    div64 quo_rem div put_bytes from_bytes uvarint new_des read_uvarint read_array block_found
    incoming is_secured packet_type lookup insert le_bytes le_value Tx.deserialize
grows = refl

all_bytes : List ℕ → Bool
all_bytes [] = true
all_bytes (b ∷ bs) = ltb b 256 && all_bytes bs

all_bytes-IsBytes : (bs : List ℕ) → all_bytes bs ≡ true → IsBytes bs
unfolding all_bytes
all_bytes-IsBytes [] h = tt
all_bytes-IsBytes (b ∷ bs) h = (ground arith, all_bytes-IsBytes bs (ground arith))

-- The bytes of the block, in which no transaction follows.
abbrev sent : List ℕ
sent = serialize_block second_block

sent_bytes : all_bytes sent ≡ true
unfolding all_bytes serialize_block is_zero uvarint put_bytes from_bytes le_bytes le_value
    block_hash genesis_block zeros
sent_bytes = refl

sent_read : deserialize_full toy sent ≡ ok (second_block, [])
unfolding deserialize_full serialize_block is_zero uvarint put_bytes from_bytes le_bytes le_value
    block_hash genesis_block zeros new_des read_uvarint read_array read_hashes read_uint
    uvarint_loop read_chains read_commitments read_byte_slice
sent_read = refl

deserialize_full-FitsTypes_example : FitsTypes second_block
deserialize_full-FitsTypes_example =
    deserialize_full-FitsTypes toy sent (all_bytes-IsBytes sent sent_bytes) sent_read
