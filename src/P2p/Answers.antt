-- ===== src/P2p/Answers.antt =====
-- What a node sends to its peers: blockchain/bc-p2p.go, and `GetBlockByHeight` of
-- blockchain/blockchain.go.
use still_blockchain.Base.{ℕ, ◌+◌, Bool, true, false, List, [], ◌∷◌, ◌==◌, if◌then◌else◌}
use Prim.Native.Nat.{Ordering}
use still_blockchain.Base.Result.{Result, ok, ◌>>=◌}
use still_blockchain.Block.{Block}
use still_blockchain.Chain.{Chain, get_block, get_topo}
use still_blockchain.Config.{minidag_ancestors}
use still_blockchain.Packet.{PacketStats, serialize_stats, deserialize_request}
use still_blockchain.Uint128.{Uint128, cmp, add, mul64}
use still_blockchain.P2p.FullBlock.{serialize_full}

-- `GetBlockByHeight`
unfoldable pub get_block_by_height : ℕ → Chain → Result Block
get_block_by_height height ch = get_topo height ch >>= λ hash. get_block hash ch

-- `packetBlockRequest`: the data of the block packet that is sent back.
unfoldable pub packet_block_request : List ℕ → Chain → Result (List ℕ)
unfolding get_block_by_height
packet_block_request bytes ch = do
  st ← deserialize_request bytes
  b ← if st.height == 0 then get_block st.hash ch else get_block_by_height st.height ch
  serialize_full ch.ledger b

-- What the main chain tells a new peer, in `newConnections` and `SendStats`.
unfoldable pub stats_packet : Chain → Result (List ℕ)
stats_packet ch = serialize_stats (record {
  height = ch.stats.top_height;
  cumulative_diff = ch.stats.cumulative_diff;
  hash = ch.stats.top_hash;
})

-- `BroadcastBlock`: the peers, by the work they told, that the block is sent to.
unfoldable pub wants_block : Uint128 → Uint128 → Bool
wants_block theirs most = elim (cmp theirs most) [ Ordering.gt ↦ false | _ ↦ true ]

unfoldable pub interested : Uint128 → List PacketStats → List PacketStats
unfolding wants_block
interested most [] = []
interested most (st ∷ peers) =
    let rest = interested most peers in
    if wants_block st.cumulative_diff most then st ∷ rest else rest

unfoldable pub broadcast_block :
    Chain → Block → List PacketStats → Result (List ℕ × List PacketStats)
unfolding interested
broadcast_block ch b peers = do
  ser ← serialize_full ch.ledger b
  further ← mul64 b.difficulty (minidag_ancestors + 2)
  most ← add b.cumulative_diff further
  ok (ser, interested most peers)
