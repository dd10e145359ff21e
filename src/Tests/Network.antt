-- ===== src/Tests/Network.antt =====
-- Tests of packets and of what a node does with them.
use still_blockchain.Queue.Requests.Ends.{AreSent, synchronize_ends}
use still_blockchain.Queue.Removal.{pending}
use still_blockchain.Queue.{
  QueuedBlock, fill_queue, fill_loop, set_block, set_where, new_queued_block, requestable_block,
}
use still_blockchain.Queue.Requests.{
  synchronize, request_loop, with_block, is_below_top, send_requests, choose_peer,
}
use still_blockchain.Base.{◌≡◌, refl, arith, true, false, [], ◌∷◌, ◌<◌, ◌^◌, List, some}
use still_blockchain.Base.Assoc.{insert, lookup-insert_self}
use still_blockchain.Base.Result.{ok, panic, ◌>>=◌}
use still_blockchain.Block.{Block}
use still_blockchain.Block.Codec.{deserialize_full}
use still_blockchain.Block.RoundTrip.{IsBlock}
use still_blockchain.Chain.{Chain}
use still_blockchain.Ledger.{Ledger}
use still_blockchain.P2p.Database.{Bolt, buckets, memory}
use still_blockchain.P2p.FullBlock.{serialize_full}
use still_blockchain.P2p.FullRoundTrip.{AreStored, deserialize_full-serialize_full}
use still_blockchain.P2p.Handlers.{Node}
use still_blockchain.Packet.{
  PacketStats, PacketBlockRequest, serialize_stats, deserialize_stats, serialize_request,
  deserialize_request,
}
use still_blockchain.Packet.RoundTrip.{
  IsStats, deserialize_stats-serialize_stats, deserialize_request-serialize_request,
}
use still_blockchain.Tests.Chains.{env, number}
use still_blockchain.Tests.Codecs.{header-IsHeader, payment-IsValid}
use still_blockchain.Tests.Samples.{toy, payment, empty_ledger, empty_block}
use still_blockchain.Transaction.{Transaction, tx_hash}
use still_blockchain.Transaction as Tx
use still_blockchain.Uint128.{is_zero}

abbrev told : PacketStats
told = record { height = 5; cumulative_diff = number 70000; hash = 12345 }

told-IsStats : IsStats told
told-IsStats = record {
  height_fits = omega arith;
  cumulative_fits = record { lo_fits = omega arith; hi_fits = omega arith };
  hash_fits = omega arith;
}

deserialize_stats-serialize_stats_example :
    (is_zero told.cumulative_diff ≡ true → serialize_stats told ≡ panic)
    × (is_zero told.cumulative_diff ≡ false
        → (serialize_stats told >>= deserialize_stats) ≡ ok told)
deserialize_stats-serialize_stats_example = deserialize_stats-serialize_stats told told-IsStats

abbrev wanted : PacketBlockRequest
wanted = record { height = 0; hash = 99 }

deserialize_request-serialize_request_example :
    deserialize_request (serialize_request wanted) ≡ ok wanted
deserialize_request-serialize_request_example =
    deserialize_request-serialize_request wanted (omega arith) (omega arith) (λ h. omega arith)

abbrev stored_payment : Ledger
stored_payment = record empty_ledger {
  txs = insert (tx_hash toy payment) (record { height = 0; tx = payment }) [];
}

abbrev paying_block : Block
paying_block = record empty_block { transactions = tx_hash toy payment ∷ [] }

hash_fits : tx_hash toy payment < 256 ^ 32
unfolding tx_hash
hash_fits = toy.blake3_fits (Tx.serialize payment)

paying_block-IsBlock : IsBlock paying_block
unfolding is_zero
paying_block-IsBlock = record {
  header_fits = header-IsHeader;
  difficulty_fits = record { lo_fits = omega arith; hi_fits = omega arith };
  difficulty_nonzero = refl;
  cumulative_fits = record { lo_fits = omega arith; hi_fits = omega arith };
  txids_fit = (hash_fits, tt);
  txids_length = omega arith;
}

payment-AreStored : AreStored toy stored_payment (tx_hash toy payment ∷ []) (payment ∷ [])
payment-AreStored = (
  (0, lookup-insert_self (tx_hash toy payment) (record { height = 0; tx = payment }) []),
  refl,
  payment-IsValid,
  tt,
)

nonzero : is_zero paying_block.cumulative_diff ≡ false
unfolding is_zero
nonzero = refl

deserialize_full-serialize_full_example :
    (serialize_full stored_payment paying_block >>= deserialize_full toy)
    ≡ ok (paying_block, payment ∷ [])
deserialize_full-serialize_full_example =
    deserialize_full-serialize_full toy stored_payment paying_block (payment ∷ [])
      paying_block-IsBlock nonzero payment-AreStored

-- A database that keeps a copy of its buckets.
rolled_back : Chain → Chain → Chain
rolled_back start end = record start {
  queue = end.queue;
  ledger = record (start.ledger) {
    sync_height = end.ledger.sync_height;
    sync_diff = end.ledger.sync_diff;
  };
}

pub bolt : Bolt
unfolding rolled_back buckets memory
bolt = record {
  rollback = rolled_back;
  rollback_buckets = λ start end. refl;
  rollback_memory = λ start end. refl;
}

abbrev pub node : Node
node = record {
  env = env;
  now_ms = 100_000;
  checkpoints = record { bin = []; interval = 10; max_checkpoint = 0 };
  bolt = bolt;
  rounds = 9;
}

-- A node at height 3 that a peer told of height 5 asks for both blocks.
synchronize_asks :
    (q' : List QueuedBlock) × (synchronize 60 100 5 3 (told ∷ []) []
      ≡ some (
        (told, record { height = 4; hash = 0 }) ∷ (told, record { height = 5; hash = 0 }) ∷ [],
        q',
      ))
unfolding synchronize request_loop fill_queue fill_loop set_block set_where new_queued_block
synchronize_asks =
    (_, unfold requestable_block with_block is_below_top send_requests choose_peer in refl)

synchronize_ends_example :
    (sent : List (PacketStats × PacketBlockRequest)) × (q' : List QueuedBlock) × (synchronize 60 100
        5 3
        (told ∷ [])
        []
      ≡ some (sent, q'))
    × (pending 100 q' ≡ 0)
    × AreSent 3 sent
synchronize_ends_example = synchronize_ends 60 100 5 3 (told ∷ []) [] (omega arith)
