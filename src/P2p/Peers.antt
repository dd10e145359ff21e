-- ===== src/P2p/Peers.antt =====
-- The known peers of p2p/p2p.go and p2p/peer_type.go: what is kept of them, the list that is sent to
-- a new connection, and the list that is received. A text is the list of its bytes. `net.ParseIP`
-- with the `String` of its result is a parameter: it answers the standard text of an address.
pub mod Distinct
pub mod Sent
pub mod Dials
use still_blockchain.Base.{
  ℕ, zero, suc, Bool, true, false, Option, none, some, List, [], ◌∷◌, ◌++◌, ◌==◌, ◌&&◌, ◌||◌,
  get_elem?, ◌-◌, ltb, length, if◌then◌else◌,
}
use still_blockchain.Base.Result.{ok, err, panic}
use still_blockchain.Binary.{Des, new_des, read_uint, read_byte_slice, add_uint, add_byte_slice}

pub data PeerType : Type 0 where
  white gray black red : PeerType

pub record KnownPeer : Type 0 where
  pub ip : List ℕ
  pub port : ℕ
  pub kind : PeerType
  pub last_connect : ℕ

-- `==` of two strings.
unfoldable pub same_text : List ℕ → List ℕ → Bool
same_text [] [] = true
same_text [] (b ∷ bs) = false
same_text (a ∷ xs) [] = false
same_text (a ∷ xs) (b ∷ bs) = a == b && same_text xs bs

-- `IsBanned`, with the clock in seconds.
unfoldable pub is_banned : ℕ → KnownPeer → Bool
is_banned now k = elim k.kind [ red ↦ ltb now k.last_connect | _ ↦ false ]

-- The loop of `OnAddPeerPacket` over the known peers; `false` is `shouldAdd`.
unfoldable pub is_known : List ℕ → List KnownPeer → Bool
unfolding same_text
is_known ip [] = false
is_known ip (v ∷ vs) = let rest = is_known ip vs in if same_text v.ip ip then true else rest

unfoldable pub add_known : List ℕ → ℕ → List KnownPeer → List KnownPeer
unfolding is_known
add_known ip port vs =
    if is_known ip vs
    then vs
    else vs ++ record { ip = ip; port = port; kind = gray; last_connect = 0 } ∷ []

pub data AddPeerError : Type 0 where
  bad_length bad_port bad_ip unreadable : AddPeerError

-- How the handler ends: it has the list saved, or it answers an error, or it panics.
pub data Ending : Type 0 where
  saved : Ending
  refused : AddPeerError → Ending
  panicked : Ending

-- What a round of the loop in `OnAddPeerPacket` reads: a peer and what is left, or how it returns.
-- `ReadByteSlice` leaves its errors in `d`.
pub data NextPeer : Type 0 where
  stops : Ending → NextPeer
  gives : List ℕ → ℕ → Des → NextPeer

unfoldable pub read_peer : (List ℕ → Option (List ℕ)) → Des → NextPeer
read_peer parse d =
    let (port, d1) = read_uint 2 d in
    if port == 0 then stops (refused bad_port) else (elim (read_byte_slice d1) [
      | panic ↦ stops panicked
      | err e ↦ stops (refused unreadable)
      | ok text ↦ elim (parse text.0) [
        | none ↦ stops (refused bad_ip)
        | some ip ↦ if text.1.failed then stops (refused unreadable) else gives ip port text.1
      ]
    ])

-- The loop: its condition looks at `len(packetData)`, which falls by two in each round, while `d`
-- reads the packet on its own.
unfoldable pub add_peers :
    (List ℕ → Option (List ℕ)) → ℕ → Des → List KnownPeer → Ending × List KnownPeer
unfolding read_peer add_known
add_peers parse (suc (suc (suc (suc n)))) d vs = elim (read_peer parse d) [
  | stops ending ↦ (ending, vs)
  | gives ip port rest ↦ add_peers parse (suc (suc n)) rest (add_known ip port vs)
]
add_peers parse zero d vs = (saved, vs)
add_peers parse (suc zero) d vs = (saved, vs)
add_peers parse (suc (suc zero)) d vs = (saved, vs)
add_peers parse (suc (suc (suc zero))) d vs = (saved, vs)

unfoldable pub on_add_peer_packet :
    (List ℕ → Option (List ℕ)) → List ℕ → List KnownPeer → Ending × List KnownPeer
unfolding add_peers
on_add_peer_packet parse packet vs =
    if ltb (length packet) 3
    then (refused bad_length, vs)
    else add_peers parse (length packet) (new_des packet) vs

-- The end of `handleConnection`'s greeting: the peers at the address of the connection turn white,
-- and the other white ones are written.
unfoldable pub peer_list : List ℕ → List KnownPeer → List ℕ → List KnownPeer × List ℕ
unfolding same_text
peer_list ip [] s = ([], s)
peer_list ip (v ∷ vs) s = elim (same_text v.ip ip) [
  | true ↦ let (rest, s') = peer_list ip vs s in (record v { kind = white } ∷ rest, s')
  | false ↦ elim v.kind [
    | white ↦
        let (rest, s') = peer_list ip vs (add_byte_slice (add_uint 2 s v.port) v.ip) in
        (v ∷ rest, s')
    | _ ↦ let (rest, s') = peer_list ip vs s in (v ∷ rest, s')
  ]
]

-- Whether a connection has the address.
unfoldable pub is_connected : List ℕ → List (List ℕ) → Bool
unfolding same_text
is_connected ip [] = false
is_connected ip (c ∷ conns) =
    let rest = is_connected ip conns in if same_text c ip then true else rest

-- `connectToRandomPeer`: the peers that it dials. `picks` are the five answers of `mrand.IntN`, which
-- lie below the number of known peers; without any, the loop returns. A dialled peer is no connection
-- yet in the rounds that follow.
unfoldable pub connect_to_random_peer : ℕ → List (List ℕ) → List KnownPeer → List ℕ → List KnownPeer
unfolding is_banned is_connected
connect_to_random_peer now conns vs [] = []
connect_to_random_peer now conns vs (i ∷ picks) =
    let rest = connect_to_random_peer now conns vs picks in
    elim (get_elem? vs i) [
      | none ↦ []
      | some v ↦ if is_banned now v || is_connected v.ip conns then rest else v ∷ rest
    ]

-- Where `onPacketReceived` sends a packet of a type.
pub data Route : Type 0 where
  unused add_peer : Route
  to_handlers : ℕ → Route

unfoldable pub route : ℕ → Route
route zero = unused
route (suc zero) = add_peer
route (suc (suc kind)) = to_handlers kind
