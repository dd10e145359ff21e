-- ===== src/Ledger.antt =====
-- The account state, the transaction records and the mempool: blockchain/state.go, the mempool of
-- blockchain/bc-stats.go, blockchain/bc-txn.go, and `ApplyBlockToState` and
-- `RemoveBlockFromState` of blockchain/blockchain.go. A bucket is a map; its values are stored
-- decoded, which the round trips of `State` and `Transaction` justify.
pub mod Accounts
pub mod Total
pub mod Txns
pub mod Apply
pub mod Remove
use still_blockchain.Base.{
  ℕ, zero, suc, ◌+◌, ◌-◌, ◌*◌, ◌/◌, ◌%◌, ◌^◌, Bool, true, false, Option, none, some, List, [], ◌∷◌,
  ◌++◌, ltb, ◌==◌, ◌||◌, if◌then◌else◌, map,
}
use still_blockchain.Base.Assoc.{Assoc, lookup, insert}
use still_blockchain.Base.Result.{Result, ok, err, panic, des_error}
use still_blockchain.Binary.{new_des, add_uvarint, read_uvarint}
use still_blockchain.Transaction.{Transaction}
use still_blockchain.Uint128.{Uint128}

abbrev pub u64 : ℕ
u64 = 2 ^ 64

pub record State : Type 0 where
  pub balance : ℕ
  pub last_nonce : ℕ
  pub last_incoming : ℕ

abbrev pub empty_state : State
empty_state = record { balance = 0; last_nonce = 0; last_incoming = 0 }

unfoldable pub serialize_state : State → List ℕ
unfolding add_uvarint
serialize_state x =
    add_uvarint (add_uvarint (add_uvarint [] x.balance) x.last_nonce) x.last_incoming

unfoldable pub deserialize_state : List ℕ → Result State
deserialize_state b =
    let (balance, d1) = read_uvarint (new_des b) in
    let (last_nonce, d2) = read_uvarint d1 in
    let (last_incoming, d3) = read_uvarint d2 in
    if d3.failed
    then err des_error
    else ok (record { balance = balance; last_nonce = last_nonce; last_incoming = last_incoming })

pub record MempoolEntry : Type 0 where
  pub txid : ℕ
  pub size : ℕ
  pub fee : ℕ
  pub expires : ℕ
  pub sender : ℕ
  pub recipient : ℕ

-- `Mempool.GetEntry`
unfoldable pub get_entry : ℕ → List MempoolEntry → Option MempoolEntry
get_entry hash [] = none
get_entry hash (v ∷ vs) = let rest = get_entry hash vs in if v.txid == hash then some v else rest

-- `Mempool.DeleteEntry` takes out the first entry only.
unfoldable pub delete_entry : ℕ → List MempoolEntry → List MempoolEntry
delete_entry hash [] = []
delete_entry hash (v ∷ vs) = if v.txid == hash then vs else v ∷ delete_entry hash vs

-- A stored transaction with its height.
pub record TxRecord : Type 0 where
  pub height : ℕ
  pub tx : Transaction

-- The buckets STATE, TX, INTX and OUTTX and the mempool of INFO, with the sync target that
-- `Blockchain` keeps in memory.
pub record Ledger : Type 0 where
  pub states : Assoc State
  pub txs : Assoc TxRecord
  pub in_txs : Assoc ℕ
  pub out_txs : Assoc ℕ
  pub mempool : List MempoolEntry
  pub sync_height : ℕ
  pub sync_diff : Uint128

-- The key of INTX and OUTTX: the 22 bytes of the address and a number behind them.
unfoldable pub topo_key : ℕ → ℕ → ℕ
topo_key addr id = addr + 256 ^ 22 * id

-- A state, or the zero state that `buckGetState` returns beside its error.
abbrev pub or_empty : Option State → State
or_empty none = empty_state
or_empty (some s) = s

abbrev pub state_of : ℕ → Assoc State → State
state_of addr m = or_empty (lookup addr m)
