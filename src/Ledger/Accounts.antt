-- ===== src/Ledger/Accounts.antt =====
-- The records of an account and of the mempool.
use still_blockchain.Base.{
  ℕ, ◌≡◌, ◌≢◌, none, List, [], ◌∷◌, ◌++◌, append_assoc, append-nil, arith, ◌==◌, if◌then◌else◌,
  refl,
}
use still_blockchain.Base.Bytes.{IsU64}
use still_blockchain.Base.Result.{ok}
use still_blockchain.Binary.{new_des, uvarint}
use still_blockchain.Binary.RoundTrip.{read_uvarint-uvarint}
use still_blockchain.Ledger.{
  State, serialize_state, deserialize_state, MempoolEntry, get_entry, delete_entry,
}

pub record FitsState (x : State) : Type 0 where
  pub balance_fits : IsU64 x.balance
  pub last_nonce_fits : IsU64 x.last_nonce
  pub last_incoming_fits : IsU64 x.last_incoming

serialize_state_parts :
    (x : State)
    → serialize_state x
      ≡ uvarint 9 x.balance ++ (uvarint 9 x.last_nonce ++ (uvarint 9 x.last_incoming ++ []))
unfolding serialize_state
serialize_state_parts x = simp (append_assoc, append-nil)

-- An account's record of three uint64 is read back from its bytes.
pub deserialize_state-serialize_state :
    (x : State) → FitsState x → deserialize_state (serialize_state x) ≡ ok x
unfolding deserialize_state
deserialize_state-serialize_state x h =
    rw
      (
        serialize_state_parts,
        read_uvarint-uvarint _ _ h.balance_fits,
        read_uvarint-uvarint _ _ h.last_nonce_fits,
        read_uvarint-uvarint _ _ h.last_incoming_fits,
      )
      (unfold new_des in refl)

-- No entry of the mempool has the key.
abbrev pub Missing : ℕ → List MempoolEntry → Type 0
Missing hash [] = Unit
Missing hash (v ∷ vs) = (v.txid ≢ hash) × Missing hash vs

-- No two entries have the same key.
abbrev pub Distinct : List MempoolEntry → Type 0
Distinct [] = Unit
Distinct (v ∷ vs) = Missing v.txid vs × Distinct vs

get_entry-Missing : (h : ℕ) (vs : List MempoolEntry) → Missing h vs → get_entry h vs ≡ none
unfolding get_entry
get_entry-Missing h [] m = refl
get_entry-Missing h (v ∷ vs) m = ground (arith, get_entry-Missing h vs m.1)

-- With distinct keys a deletion takes out its own key, and no other.
pub get_entry-delete_entry :
    (k h : ℕ) (vs : List MempoolEntry)
    → Distinct vs
    → get_entry k (delete_entry h vs) ≡ (if h == k then none else get_entry k vs)
unfolding get_entry delete_entry
get_entry-delete_entry k h [] d = ground arith
get_entry-delete_entry k h (v ∷ vs) d = ground (arith, get_entry-delete_entry k h vs d.1, missing)
  where
    missing : v.txid ≡ k → get_entry k vs ≡ none
    missing e = get_entry-Missing k vs (rw e at d.0)
