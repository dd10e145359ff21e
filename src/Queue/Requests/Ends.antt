-- ===== src/Queue/Requests/Ends.antt =====
-- The loop of Queue/Requests ends.
use still_blockchain.Base.{
  ℕ, Bool, List, ◌≤◌, ◌∷◌, ◌<◌, arith, ◌≡◌, ◌≢◌, some, suc, inl, inr, Bool-cases, ◌==◌,
  Option-cases, ◌||◌, length, zero, [], leb, subst, sym,
}
use still_blockchain.Queue.{
  QueuedBlock, requestable_block, cleanup, expire, remove_block_by_height, fill_queue,
}
use still_blockchain.Queue.Removal.{pending, requestable_block-pending}
use still_blockchain.Queue.Requests.{
  request_loop, with_block, is_below_top, choose_peer, send_requests, synchronize,
}
use still_blockchain.Queue.Filling.{length-fill_queue}
use Prim.Native.Nat.{max}
use still_blockchain.Packet.{PacketStats, PacketBlockRequest}

pending-cleanup :
    (now : ℕ) (p : QueuedBlock → Bool) (q : List QueuedBlock)
    → pending now (cleanup now (expire p q)) ≤ pending now q
unfolding cleanup expire
pending-cleanup now p [] = omega arith
pending-cleanup now p (v ∷ vs) = ground (arith, pending-cleanup now p vs)

-- What the loop leaves: blocks that were asked for at this time and are not below the top.
abbrev pub AreAsked : ℕ → ℕ → List QueuedBlock → Type 0
AreAsked now top [] = Unit
AreAsked now top (b ∷ bs) =
    (b.last_request ≡ now) × (b.height ≢ 0 → top ≤ b.height) × AreAsked now top bs

request_loop-Ends :
    (now top rounds : ℕ) (q : List QueuedBlock)
    → pending now q < rounds
    → (r : List QueuedBlock × List QueuedBlock) × (request_loop now top rounds q ≡ some r)
      × (pending now r.1 ≡ 0)
      × AreAsked now top r.0
unfolding request_loop with_block remove_block_by_height is_below_top
request_loop-Ends now top zero q h = absurd (omega (arith, h))
request_loop-Ends now top (suc rounds) q h = elim (requestable_block-pending now q) [
  | inl (nothing, clear, same) ↦ (([], q), ground (arith, nothing, same), clear, tt)
  | inr (b, found, marked, fewer) ↦
      let q1 = (requestable_block now q).1 in
      elim (Bool-cases (is_below_top top b)) [
        | inl below ↦
            let (r, ends, clear, asked) =
              request_loop-Ends now top rounds (remove_block_by_height now b.height q1)
                (omega (arith, h, fewer, pending-cleanup now (λ v. v.height == b.height) q1)) in
            (r, ground (arith, found, below, ends), clear, asked)
        | inr above ↦
            let (r, ends, clear, asked) =
              request_loop-Ends now top rounds q1 (omega (arith, h, fewer)) in
            (
              (b ∷ r.0, r.1),
              ground (arith, found, above, ends),
              clear,
              (marked, ground (arith, above), asked),
            )
      ]
]

pending-le : (now : ℕ) (q : List QueuedBlock) → pending now q ≤ length q
pending-le now [] = omega arith
pending-le now (v ∷ vs) = ground (arith, pending-le now vs)

-- Every request is for a block from the top on, and goes to a peer that told of its height, or is
-- for a block known by its hash.
abbrev pub AreSent : ℕ → List (PacketStats × PacketBlockRequest) → Type 0
AreSent top [] = Unit
AreSent top ((st, request) ∷ sent) =
    (request.height ≢ 0 → (top ≤ request.height) × (request.height ≤ st.height)) × AreSent top sent

choose_peer-has :
    (b : QueuedBlock) (peers : List PacketStats) (st : PacketStats)
    → choose_peer b peers ≡ some st
    → b.height ≢ 0
    → b.height ≤ st.height
unfolding choose_peer
choose_peer-has b [] st h high = cc
choose_peer-has b (p ∷ peers) st h high =
    elim (Bool-cases (b.height == 0 || leb b.height p.height)) [
      | inl has ↦
          let is : p ≡ st = ground (arith, has) in
          subst (λ x. b.height ≤ x.height) is (ground (arith, has))
      | inr lacks ↦ choose_peer-has b peers st (ground (arith, lacks)) high
    ]

send_requests-AreSent :
    (now top : ℕ) (bs : List QueuedBlock) (peers : List PacketStats)
    → AreAsked now top bs
    → AreSent top (send_requests bs peers)
unfolding send_requests
send_requests-AreSent now top [] peers h = tt
send_requests-AreSent now top (b ∷ bs) peers (marked, above, h) =
    elim (Option-cases (choose_peer b peers)) [
      | inl nobody ↦
          let same : send_requests (b ∷ bs) peers ≡ send_requests bs peers =
            ground (arith, nobody) in
          subst (AreSent top) (sym same) (send_requests-AreSent now top bs peers h)
      | inr (st, chosen) ↦
          let request : PacketBlockRequest = record { height = b.height; hash = b.hash } in
          let same : send_requests (b ∷ bs) peers ≡ (st, request) ∷ send_requests bs peers =
            ground (arith, chosen) in
          subst (AreSent top) (sym same) (
            λ high. (above high, choose_peer-has b peers st chosen high),
            send_requests-AreSent now top bs peers h,
          )
    ]

-- With more rounds than 51 and than the queue has entries, a round of `Synchronize` ends. No entry
-- of the queue may be requested then, and every request that was sent is for a block known by its
-- hash, or for one that is not below the top and within the height that the peer told.
pub synchronize_ends :
    (rounds now sync_height top : ℕ) (peers : List PacketStats) (q : List QueuedBlock)
    → max 51 (length q) < rounds
    → (sent : List (PacketStats × PacketBlockRequest)) × (q' : List QueuedBlock) × (synchronize
          rounds now sync_height top peers q
        ≡ some (sent, q'))
      × (pending now q' ≡ 0)
      × AreSent top sent
unfolding synchronize
synchronize_ends rounds now sync_height top peers q enough =
    let filled = fill_queue now sync_height top q in
    let (r, ends, clear, asked) =
      request_loop-Ends now top rounds filled
        (omega (arith, enough, pending-le now filled, length-fill_queue now sync_height top q)) in
    (
      send_requests r.0 peers,
      r.1,
      ground (arith, ends),
      clear,
      send_requests-AreSent now top r.0 peers asked,
    )
