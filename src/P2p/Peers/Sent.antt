-- ===== src/P2p/Peers/Sent.antt =====
-- The list of peers that a node sends, and what the node that receives it makes of it.
use still_blockchain.Base.{
  ℕ, zero, suc, true, false, Option, some, List, [], ◌∷◌, ◌++◌, ◌≡◌, ◌≢◌, ◌≤◌, ◌<◌, ◌^◌, ◌*◌, ◌-◌,
  refl, arith, length, ◌==◌, sym, append-nil, append_assoc, subst, ◌∙◌, length-append,
}
use still_blockchain.Base.Bytes.{le_bytes, length-le_bytes}
use still_blockchain.Binary.{new_des, read_uint, uvarint, add_uint, add_byte_slice, fail}
use still_blockchain.Binary.RoundTrip.{read_uint-le_bytes, read_byte_slice-append}
use still_blockchain.Binary.Uvarint.{length-uvarint}
use still_blockchain.P2p.Peers.{
  KnownPeer, white, same_text, add_known, add_peers, on_add_peer_packet, refused, bad_port,
  read_peer, gives, stops, peer_list,
}

-- The white peers at other addresses.
abbrev pub others : List ℕ → List KnownPeer → List KnownPeer
others ip [] = []
others ip (v ∷ vs) = elim (same_text v.ip ip) [
  | true ↦ others ip vs
  | false ↦ elim v.kind [ white ↦ v ∷ others ip vs | _ ↦ others ip vs ]
]

unfoldable pub peers_bytes : List KnownPeer → List ℕ
peers_bytes [] = []
peers_bytes (v ∷ vs) = le_bytes 2 v.port ++ (uvarint 9 (length v.ip) ++ (v.ip ++ peers_bytes vs))

-- Each in its turn is added to the known peers.
abbrev pub add_all : List KnownPeer → List KnownPeer → List KnownPeer
add_all [] vs = vs
add_all (e ∷ es) vs = add_all es (add_known e.ip e.port vs)

-- A peer with a port and the standard text of an address, of three bytes at least.
abbrev pub AreValid : (List ℕ → Option (List ℕ)) → List KnownPeer → Type 0
AreValid parse [] = Unit
AreValid parse (v ∷ vs) =
    (v.port < 256 ^ 2)
    × ((v.port == 0) ≡ false)
    × (parse v.ip ≡ some v.ip)
    × (3 ≤ length v.ip)
    × (length v.ip < 2 ^ 63)
    × AreValid parse vs

peer_list-bytes :
    (ip : List ℕ) (vs : List KnownPeer) (s : List ℕ)
    → (peer_list ip vs s).1 ≡ s ++ peers_bytes (others ip vs)
unfolding peer_list peers_bytes add_uint add_byte_slice
peer_list-bytes ip [] s = sym (append-nil s)
peer_list-bytes ip (v ∷ vs) s =
    let more = ((s ++ le_bytes 2 v.port) ++ uvarint 9 (length v.ip)) ++ v.ip in
    let written : (peer_list ip vs more).1
        ≡ s
          ++ (le_bytes 2 v.port
              ++ (uvarint 9 (length v.ip) ++ (v.ip ++ peers_bytes (others ip vs)))) =
      peer_list-bytes ip vs more ∙ simp append_assoc in
    ground (arith, written, peer_list-bytes ip vs s)

read_peer-sent :
    (parse : List ℕ → Option (List ℕ)) (v : KnownPeer) (vs : List KnownPeer)
    → AreValid parse (v ∷ vs)
    → read_peer parse (new_des (peers_bytes (v ∷ vs)))
      ≡ gives v.ip v.port (new_des (peers_bytes vs))
unfolding read_peer peers_bytes new_des
read_peer-sent parse v vs (fits, nonzero, parsed, long, short, h) = ground (
  arith,
  read_uint-le_bytes 2 v.port (uvarint 9 (length v.ip) ++ (v.ip ++ peers_bytes vs)) fits,
  nonzero,
  read_byte_slice-append v.ip (peers_bytes vs) short,
  parsed,
)

at_end :
    (parse : List ℕ → Option (List ℕ)) → read_peer parse (new_des []) ≡ stops (refused bad_port)
unfolding read_peer new_des read_uint fail
at_end parse = refl

-- The loop reads every peer, and then behind the last one, where enough rounds are left.
add_peers-sent :
    (parse : List ℕ → Option (List ℕ)) (es : List KnownPeer) (n : ℕ) (vs : List KnownPeer)
    → AreValid parse es
    → 2 * length es ≤ n
    → add_peers parse (suc (suc (suc (suc n)))) (new_des (peers_bytes es)) vs
      ≡ (refused bad_port, add_all es vs)
unfolding add_peers peers_bytes
add_peers-sent parse [] n vs h le = ground (arith, at_end parse)
add_peers-sent parse (e ∷ es) zero vs h le = absurd (omega arith)
add_peers-sent parse (e ∷ es) (suc zero) vs h le = absurd (omega arith)
add_peers-sent parse (e ∷ es) (suc (suc n)) vs h le =
    let rest = add_peers-sent parse es n (add_known e.ip e.port vs) h.5 (omega arith) in
    let first : read_peer parse (new_des (peers_bytes (e ∷ es)))
        ≡ gives e.ip e.port (new_des (peers_bytes es)) =
      read_peer-sent parse e es h in
    ground (arith, first, rest)

-- Six bytes a peer at least.
length-peers_bytes :
    (parse : List ℕ → Option (List ℕ)) (es : List KnownPeer)
    → AreValid parse es
    → 6 * length es ≤ length (peers_bytes es)
unfolding peers_bytes
length-peers_bytes parse [] h = omega arith
length-peers_bytes parse (e ∷ es) h = omega (
  arith,
  length-append (le_bytes 2 e.port) (uvarint 9 (length e.ip) ++ (e.ip ++ peers_bytes es)),
  length-append (uvarint 9 (length e.ip)) (e.ip ++ peers_bytes es),
  length-append e.ip (peers_bytes es),
  length-le_bytes 2 e.port,
  (length-uvarint 9 (length e.ip)).0,
  length-peers_bytes parse es h.5,
  h.3,
)

received :
    (parse : List ℕ → Option (List ℕ)) (es vs : List KnownPeer)
    → es ≢ []
    → AreValid parse es
    → on_add_peer_packet parse (peers_bytes es) vs ≡ (refused bad_port, add_all es vs)
unfolding on_add_peer_packet
received parse [] vs ne h = absurd (ne refl)
received parse (e ∷ es) vs ne h =
    let bytes = peers_bytes (e ∷ es) in
    let enough : 6 * suc (length es) ≤ length bytes = length-peers_bytes parse (e ∷ es) h in
    let n = length bytes - 4 in
    let is : length bytes ≡ suc (suc (suc (suc n))) = omega arith in
    let run : add_peers parse (length bytes) (new_des bytes) vs
        ≡ (refused bad_port, add_all (e ∷ es) vs) =
      subst (λ k. add_peers parse k (new_des bytes) vs ≡ (refused bad_port, add_all (e ∷ es) vs))
        (sym is) (add_peers-sent parse (e ∷ es) n vs h (omega arith)) in
    ground (arith, run, enough)

-- For a new connection a node writes the white peers at other addresses. If there is one, and they
-- have ports and the standard texts of addresses of three bytes at least, then `OnAddPeerPacket` on
-- these bytes adds them all to the known peers, and yet answers an error: it reads one more peer behind
-- the last. The list is not saved.
pub on_add_peer_packet-peer_list :
    (parse : List ℕ → Option (List ℕ)) (ip : List ℕ) (sender vs : List KnownPeer)
    → others ip sender ≢ []
    → AreValid parse (others ip sender)
    → on_add_peer_packet parse (peer_list ip sender []).1 vs
      ≡ (refused bad_port, add_all (others ip sender) vs)
on_add_peer_packet-peer_list parse ip sender vs some_peer h =
    rw (peer_list-bytes ip sender []) (received parse (others ip sender) vs some_peer h)
