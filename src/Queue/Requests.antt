-- ===== src/Queue/Requests.antt =====
-- One round of `Synchronize` of blockchain/blockchain.go: which blocks it asks for, and whom. The
-- blocks that are asked for are sent from a goroutine, here after the loop.
pub mod Ends
use mathlib.Core.Bool.{false}
use Prim.Native.Nat.{zero}
use mathlib.Core.List.{[]}
use still_blockchain.Base.{
  ℕ, List, Option, none, suc, some, ◌∷◌, Bool, ◌!=◌, if◌then◌else◌, [], ◌==◌, ◌&&◌, true, ltb, ◌||◌,
  leb,
}
use still_blockchain.Queue.{QueuedBlock, requestable_block, remove_block_by_height, fill_queue, ℕ}
use still_blockchain.Packet.{PacketStats, PacketBlockRequest}

-- `reqbls = append(reqbls, reqbl)`, where the rest of the loop ends.
unfoldable pub with_block :
    QueuedBlock
    → Option (List QueuedBlock × List QueuedBlock)
    → Option (List QueuedBlock × List QueuedBlock)
with_block b none = none
with_block b (some (bs, q)) = some (b ∷ bs, q)

-- A block that the queue offers is dropped where it is below the top, and asked for otherwise.
unfoldable pub is_below_top : ℕ → QueuedBlock → Bool
is_below_top top b = b.height != 0 && ltb b.height top

-- The loop over `RequestableBlock`, with `rounds` rounds left; none where they do not suffice.
unfoldable pub request_loop :
    ℕ → ℕ → ℕ → List QueuedBlock → Option (List QueuedBlock × List QueuedBlock)
unfolding requestable_block remove_block_by_height with_block is_below_top
request_loop now top zero q = none
request_loop now top (suc rounds) q =
    let (offered, q1) = requestable_block now q in
    elim offered [
      | none ↦ some ([], q1)
      | some b ↦ elim (is_below_top top b) [
        | true ↦ request_loop now top rounds (remove_block_by_height now b.height q1)
        | false ↦ with_block b (request_loop now top rounds q1)
      ]
    ]

-- The first peer that has the block, by the height it told.
unfoldable pub choose_peer : QueuedBlock → List PacketStats → Option PacketStats
choose_peer b [] = none
choose_peer b (st ∷ peers) =
    let rest = choose_peer b peers in
    if b.height == 0 || leb b.height st.height then some st else rest

-- The packets that are sent, with the peers; a block that no peer has is not asked for.
unfoldable pub send_requests :
    List QueuedBlock → List PacketStats → List (PacketStats × PacketBlockRequest)
unfolding choose_peer
send_requests [] peers = []
send_requests (b ∷ bs) peers = elim (choose_peer b peers) [
  | none ↦ send_requests bs peers
  | some st ↦ (st, record { height = b.height; hash = b.hash }) ∷ send_requests bs peers
]

-- One round, with the height that peers told and the one that the node has.
unfoldable pub synchronize :
    ℕ
    → ℕ
    → ℕ
    → ℕ
    → List PacketStats
    → List QueuedBlock
    → Option (List (PacketStats × PacketBlockRequest) × List QueuedBlock)
unfolding request_loop send_requests fill_queue
synchronize rounds now sync_height top peers q =
    elim (request_loop now top rounds (fill_queue now sync_height top q)) [
      | none ↦ none
      | some r ↦ some (send_requests r.0 peers, r.1)
    ]
