-- ===== src/Block/MiningBlob/Set.antt =====
-- `setMiningBlob` of block/block.go, which a block of another network takes its chains by.
use still_blockchain.Base.{
  Bool, ◌≡◌, false, List, length, ◌≤◌, ◌∷◌, [], if◌then◌else◌, arith, ◌≢◌, true, ◌==◌, ◌||◌, ◌!=◌,
  ap, leb, ◌++◌, ◌↔◌, subst, Bool-cases, ltb, inl, inr, refl, ◌∙◌,
}
use still_blockchain.Block.MiningBlob.{
  MiningBlob, mining_blob, hashing_id, sort_chains, insert_chain,
}
use still_blockchain.Block.{HashingId, Commitment, Block, false, List, Bool}
use still_blockchain.Crypto.{Crypto}
use still_blockchain.Config.{network_id}
use still_blockchain.Base.Result.{
  Result, ok, err, unsorted_chains, duplicate_hashing_id, duplicate_network, no_network,
  Result-cases,
}

unfoldable pub is_duplicate : HashingId → List HashingId → Bool
is_duplicate v [] = false
is_duplicate v (oc ∷ others) = oc.hash == v.hash || oc.network == v.network || is_duplicate v others

-- The loop, with `containsNetworkID` and `b.OtherChains`; `lastNetworkId` stays 0. After the first
-- chain of another network it returns.
unfoldable pub set_chains :
    Bool → List HashingId → List HashingId → Result (Unit {0}) × List HashingId
unfolding is_duplicate
set_chains contains others [] = (if contains then ok tt else err no_network, others)
set_chains contains others (v ∷ vs) =
    let rest = set_chains true others vs in
    if v.network != network_id
    then (if leb v.network 0
        then (err unsorted_chains, others)
        else if is_duplicate v others
        then (err duplicate_hashing_id, others)
        else (ok tt, others ++ v ∷ []))
    else if contains
    then (err duplicate_network, others)
    else rest

-- The block is changed where it fails, too.
unfoldable pub set_mining_blob : MiningBlob → Block → Result (Unit {0}) × Block
unfolding set_chains
set_mining_blob m b =
    let (r, others) = set_chains false [] m.chains in
    (
      r,
      record b {
        header = record b.header {
          timestamp = m.timestamp;
          nonce = m.nonce;
          nonce_extra = m.nonce_extra;
          other_chains = others;
        };
      },
    )

length-set_chains :
    (contains : Bool) (vs : List HashingId) → length (set_chains contains [] vs).1 ≤ 1
unfolding set_chains
length-set_chains contains [] = omega arith
length-set_chains contains (v ∷ vs) = ground (arith, length-set_chains true vs)

-- The other chains are of other networks, and none of them is network 0.
abbrev pub AreForeign : List HashingId → Type 0
AreForeign [] = Unit
AreForeign (v ∷ vs) = (v.network ≢ network_id) × (v.network ≢ 0) × AreForeign vs

set_chains-few :
    (own : HashingId) (others vs : List HashingId)
    → own.network ≡ network_id
    → AreForeign others
    → length others ≤ 1
    → sort_chains (others ++ own ∷ []) ≡ ok vs
    → (set_chains false [] vs).1 ≡ others
unfolding sort_chains insert_chain set_chains is_duplicate
set_chains-few own [] vs is_own foreign few sorted =
    let same : own ∷ [] ≡ vs = cc in
    subst (λ ws. (set_chains false [] ws).1 ≡ []) same (ground (arith, is_own))
set_chains-few own (o ∷ []) vs is_own (apart, some, _) few sorted =
    elim (Bool-cases (ltb o.network own.network)) [
      | inl first ↦
          let same : o ∷ own ∷ [] ≡ vs = ground (arith, first, is_own, apart) in
          subst (λ ws. (set_chains false [] ws).1 ≡ o ∷ []) same (ground (arith, apart, some))
      | inr second ↦
          let same : own ∷ o ∷ [] ≡ vs = ground (arith, second, is_own, apart) in
          subst (λ ws. (set_chains false [] ws).1 ≡ o ∷ []) same
            (ground (arith, apart, some, is_own))
    ]
set_chains-few own (o ∷ p ∷ others) vs is_own foreign few sorted = absurd (omega (arith, few))

own_network : (c : Crypto) (x : Commitment) → (hashing_id c x).network ≡ network_id
unfolding hashing_id
own_network c x = refl

blob-sorts :
    (c : Crypto) (x : Commitment) (m : MiningBlob)
    → mining_blob c x ≡ ok m
    → sort_chains (x.other_chains ++ hashing_id c x ∷ []) ≡ ok m.chains
unfolding mining_blob
blob-sorts c x m made = elim (Result-cases (sort_chains (x.other_chains ++ hashing_id c x ∷ []))) [
  | inl (vs, sorted) ↦ sorted ∙ ground (arith, sorted)
  | inr (inl (e, failed)) ↦ absurd (ground (arith, failed))
  | inr (inr panicked) ↦ absurd (ground (arith, panicked))
]

-- `setMiningBlob` gives a block the other chains of a commitment back from its mining blob exactly
-- where there is at most one, if the other chains are of other networks and none is network 0.
pub set_mining_blob-mining_blob :
    (c : Crypto) (x : Commitment) (m : MiningBlob) (b : Block)
    → AreForeign x.other_chains
    → mining_blob c x ≡ ok m
    → ((set_mining_blob m b).1.header.other_chains ≡ x.other_chains) ↔ (length x.other_chains ≤ 1)
unfolding set_mining_blob
set_mining_blob-mining_blob c x m b foreign made = (
  λ e. omega (arith, length-set_chains false m.chains, ap length e),
  λ few.
      set_chains-few (hashing_id c x) x.other_chains m.chains (own_network c x) foreign few
        (blob-sorts c x m made),
)
