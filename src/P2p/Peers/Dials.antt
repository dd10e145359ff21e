-- ===== src/P2p/Peers/Dials.antt =====
-- Which peers `connectToRandomPeer` of p2p/p2p.go dials.
use still_blockchain.Base.{ℕ, false, List, [], ◌∷◌, ◌≡◌, ◌<◌, ◌⊎◌, ◌||◌, some, get_elem?}
use still_blockchain.Base.Result.{Empty}
use still_blockchain.P2p.Peers.{KnownPeer, is_banned, is_connected}

-- `x` stands in a list.
abbrev pub Among : {A : Type 0} → A → List A → Type 0
Among x [] = Empty
Among x (y ∷ ys) = (y ≡ x) ⊎ Among x ys

-- What `mrand.IntN` answers.
abbrev pub AreBelow : ℕ → List ℕ → Type 0
AreBelow n [] = Unit
AreBelow n (i ∷ picks) = (i < n) × AreBelow n picks

-- The peer at a pick that is not banned, at an address without a connection.
pub record IsDialable (now : ℕ) (conns : List (List ℕ)) (vs : List KnownPeer) (picks : List ℕ)
    (v : KnownPeer) : Type 0 where
  pub picked : (i : ℕ) × Among i picks × (get_elem? vs i ≡ some v)
  pub free : (is_banned now v || is_connected v.ip conns) ≡ false
