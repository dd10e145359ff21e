-- ===== src/Block/Pow/Panics.antt =====
-- Where the sorting of the chains in `MiningBlob` panics, and the block that reaches it.
use still_blockchain.Block.Pow.{check_side_pow, pow_value}
use still_blockchain.Base.{
  subst, ℕ, ◌<◌, ◌≡◌, ◌⊎◌, inl, inr, List, [], ◌∷◌, ◌++◌, refl, arith, dec_lt,
}
use still_blockchain.Base.Result.{ok, panic}
use still_blockchain.Block.{Block, HashingId, Commitment}
use still_blockchain.Block.MiningBlob.{
  insert_chain, sort_chains, hashing_id, mining_blob, get_seedhash_id,
}
use still_blockchain.Crypto.{Crypto}

-- Some chain has the network.
abbrev pub HasNetwork : ℕ → List HashingId → Type 0
HasNetwork n [] = ⊥
HasNetwork n (v ∷ vs) = (v.network ≡ n) ⊎ HasNetwork n vs

-- Two chains have the same network.
abbrev pub HasTwice : List HashingId → Type 0
HasTwice [] = ⊥
HasTwice (v ∷ vs) = HasNetwork v.network vs ⊎ HasTwice vs

-- All networks are above a number, and each is above the one before it.
abbrev AllAbove : ℕ → List HashingId → Type 0
AllAbove n [] = Unit
AllAbove n (v ∷ vs) = (n < v.network) × AllAbove n vs

abbrev Ascending : List HashingId → Type 0
Ascending [] = Unit
Ascending (v ∷ vs) = AllAbove v.network vs × Ascending vs

AllAbove-trans : (m n : ℕ) (vs : List HashingId) → m < n → AllAbove n vs → AllAbove m vs
AllAbove-trans m n [] lt h = tt
AllAbove-trans m n (v ∷ vs) lt (a, h) = (omega arith, AllAbove-trans m n vs lt h)

AllAbove-HasNetwork : (n m : ℕ) (vs : List HashingId) → AllAbove n vs → HasNetwork m vs → n < m
AllAbove-HasNetwork n m [] h p = elim p [ ]
AllAbove-HasNetwork n m (v ∷ vs) (a, h) (inl e) = omega arith
AllAbove-HasNetwork n m (v ∷ vs) (a, h) (inr later) = AllAbove-HasNetwork n m vs h later

-- What an insertion that returns a list has done.
record Inserted (v : HashingId) (vs ws : List HashingId) : Type 0 where
  above : (n : ℕ) → n < v.network → AllAbove n vs → AllAbove n ws
  ascending : Ascending ws
  new : HasNetwork v.network ws
  old : (n : ℕ) → HasNetwork n vs → HasNetwork n ws

insert_chain-cases :
    (v : HashingId) (vs : List HashingId)
    → Ascending vs
    → ((ws : List HashingId) × (insert_chain v vs ≡ ok ws) × Inserted v vs ws)
      ⊎ (insert_chain v vs ≡ panic)
unfolding insert_chain
insert_chain-cases v [] h = inl (
  v ∷ [],
  refl,
  record {
    above = λ n lt a. (lt, tt);
    ascending = (tt, tt);
    new = inl refl;
    old = λ n p. elim p [ ];
  },
)
insert_chain-cases v (w ∷ vs) (a, h) = elim (dec_lt v.network w.network) [
  | yes lt ↦ inl (
    v ∷ w ∷ vs,
    ground arith,
    record {
      above = λ n l b. (l, b);
      ascending = ((lt, AllAbove-trans v.network w.network vs lt a), (a, h));
      new = inl refl;
      old = λ n p. inr p;
    },
  )
  | no ge ↦ elim (dec_lt w.network v.network) [
    | no le ↦ inr (ground arith)
    | yes gt ↦ elim (insert_chain-cases v vs h) [
      | inr e ↦ inr (ground arith)
      | inl (ws, e, done) ↦ inl (
        w ∷ ws,
        ground arith,
        record {
          above = λ n l b. (b.0, done.above n l b.1);
          ascending = (done.above w.network gt a, done.ascending);
          new = inr done.new;
          old = λ n p. elim p [ inl q ↦ inl q | inr q ↦ inr (done.old n q) ];
        },
      )
    ]
  ]
]

insert_chain-panics :
    (v : HashingId) (vs : List HashingId)
    → Ascending vs
    → HasNetwork v.network vs
    → insert_chain v vs ≡ panic
unfolding insert_chain
insert_chain-panics v [] h p = elim p [ ]
insert_chain-panics v (w ∷ vs) (a, h) (inl e) = ground arith
insert_chain-panics v (w ∷ vs) (a, h) (inr later) =
    let above = AllAbove-HasNetwork w.network v.network vs a later in
    let rest = insert_chain-panics v vs h later in ground arith

sort_chains-cases :
    (vs : List HashingId)
    → ((ws : List HashingId) × (sort_chains vs ≡ ok ws)
        × Ascending ws
        × ((n : ℕ) → HasNetwork n vs → HasNetwork n ws))
      ⊎ (sort_chains vs ≡ panic)
unfolding sort_chains
sort_chains-cases [] = inl ([], refl, tt, λ n p. p)
sort_chains-cases (v ∷ vs) = elim (sort_chains-cases vs) [
  | inr e ↦ inr (rw e refl)
  | inl (ws, e, up, keeps) ↦ elim (insert_chain-cases v ws up) [
    | inr p ↦ inr (rw (e, p) refl)
    | inl (us, p, done) ↦ inl (
      us,
      rw (e, p) refl,
      done.ascending,
      λ n q. elim q [
        | inl same ↦ subst (λ m. HasNetwork m us) same done.new
        | inr r ↦ done.old n (keeps n r)
      ],
    )
  ]
]

-- Chains that name a network twice cannot be sorted: the comparison panics.
pub sort_chains-panics : (vs : List HashingId) → HasTwice vs → sort_chains vs ≡ panic
unfolding sort_chains
sort_chains-panics [] h = elim h [ ]
sort_chains-panics (v ∷ vs) (inr later) = rw (sort_chains-panics vs later) refl
sort_chains-panics (v ∷ vs) (inl again) = elim (sort_chains-cases vs) [
  | inr e ↦ rw e refl
  | inl (ws, e, up, keeps) ↦ rw (e, insert_chain-panics v ws up (keeps v.network again)) refl
]

HasNetwork-append : (n : ℕ) (vs ws : List HashingId) → HasNetwork n vs → HasNetwork n (vs ++ ws)
HasNetwork-append n [] ws h = elim h [ ]
HasNetwork-append n (v ∷ vs) ws (inl e) = inl e
HasNetwork-append n (v ∷ vs) ws (inr later) = inr (HasNetwork-append n vs ws later)

HasTwice-append : (vs ws : List HashingId) → HasTwice vs → HasTwice (vs ++ ws)
HasTwice-append [] ws h = elim h [ ]
HasTwice-append (v ∷ vs) ws (inl again) = inl (HasNetwork-append v.network vs ws again)
HasTwice-append (v ∷ vs) ws (inr later) = inr (HasTwice-append vs ws later)

-- A side block with the seed of the block, whose other chains name a network twice, makes the
-- check of its proof of work panic, whatever the hash is.
pub check_side_pow-panics :
    (c : Crypto) (seed : ℕ) (b : Block) (side : Commitment)
    → get_seedhash_id side.timestamp ≡ get_seedhash_id b.timestamp
    → HasTwice side.other_chains
    → check_side_pow c seed b side ≡ panic
unfolding check_side_pow pow_value mining_blob
check_side_pow-panics c seed b side same twice =
    let sorted =
      sort_chains-panics (side.other_chains ++ hashing_id c side ∷ [])
        (HasTwice-append side.other_chains (hashing_id c side ∷ []) twice) in
    ground arith
