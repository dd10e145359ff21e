-- ===== src/Tests/Peers.antt =====
-- Tests of the known peers.
use still_blockchain.Base.{ℕ, List, [], ◌∷◌, ◌≡◌, ◌≢◌, refl, arith, some, Option, sym, ◌∙◌}
use still_blockchain.P2p.Peers.{
  KnownPeer, white, red, same_text, on_add_peer_packet, peer_list, refused, bad_port,
}
use still_blockchain.P2p.Peers.{is_banned, is_connected, connect_to_random_peer}
use still_blockchain.P2p.Peers.Distinct.{Grows, on_add_peer_packet-Grows}
use still_blockchain.P2p.Peers.Sent.{others, add_all, AreValid, on_add_peer_packet-peer_list}

-- Every text is an address.
abbrev any_text : List ℕ → Option (List ℕ)
any_text text = some text

-- "10.1", "10.2" and "10.3"
abbrev peer : ℕ → KnownPeer
peer n = record { ip = 49 ∷ 48 ∷ 46 ∷ n ∷ []; port = 6310; kind = white; last_connect = 0 }

abbrev sender : List KnownPeer
sender = peer 49 ∷ record (peer 50) { kind = red } ∷ peer 51 ∷ []

sent_one : others (peer 49).ip sender ≡ peer 51 ∷ []
unfolding same_text
sent_one = refl

some_peer : others (peer 49).ip sender ≢ []
some_peer e = let wrong : peer 51 ∷ [] ≡ [] = sym sent_one ∙ e in cc

peers-AreValid : AreValid any_text (others (peer 49).ip sender)
unfolding same_text
peers-AreValid = (omega arith, refl, refl, omega arith, omega arith, tt)

on_add_peer_packet-peer_list_example :
    on_add_peer_packet any_text (peer_list (peer 49).ip sender []).1 (peer 49 ∷ [])
    ≡ (refused bad_port, add_all (others (peer 49).ip sender) (peer 49 ∷ []))
on_add_peer_packet-peer_list_example =
    on_add_peer_packet-peer_list any_text (peer 49).ip sender (peer 49 ∷ []) some_peer
      peers-AreValid

on_add_peer_packet-Grows_example :
    Grows (peer 49 ∷ []) (on_add_peer_packet any_text (10 ∷ 20 ∷ 4 ∷ (peer 51).ip) (peer 49 ∷ [])).1
on_add_peer_packet-Grows_example =
    on_add_peer_packet-Grows any_text (10 ∷ 20 ∷ 4 ∷ (peer 51).ip) (peer 49 ∷ [])

-- The first and the last one are dialled: the second is banned.
dials :
    connect_to_random_peer 100 []
      (peer 49 ∷ record (peer 50) { kind = red; last_connect = 200 } ∷ peer 51 ∷ [])
      (0 ∷ 1 ∷ 2 ∷ [])
    ≡ peer 49 ∷ peer 51 ∷ []
unfolding connect_to_random_peer is_banned is_connected
dials = refl
