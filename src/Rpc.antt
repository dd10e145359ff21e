-- ===== src/Rpc.antt =====
-- The requests of the node's RPC: cmd/still-node/noderpc.go, after their parameters were read. An
-- error stands for the answer with its message; text forms of addresses and hashes are left out.
pub mod Mempool
pub mod Pages
pub mod Submit
use still_blockchain.Base.{
  ℕ, zero, suc, ◌+◌, ◌-◌, ◌*◌, ◌/◌, ◌%◌, ◌^◌, ◌≡◌, Bool, true, false, ◌||◌, Option, none, some,
  List, [], ◌∷◌, ltb, leb, ◌==◌, ◌!=◌, if◌then◌else◌,
}
use still_blockchain.Base.Assoc.{Assoc, lookup}
use still_blockchain.Base.Result.{
  Result, ok, err, panic, fail_if, ◌>>=◌, ◌>>◌, bad_address, not_in_mainchain, unknown_tx_topo,
  state_not_found,
}
use still_blockchain.Block.{Block}
use still_blockchain.Block.Codec.{block_hash}
use still_blockchain.Chain.{Chain, get_block, get_topo}
use still_blockchain.Config.{max_supply, coin, target_block_time}
use still_blockchain.Crypto.{Crypto, from_pub_key}
use still_blockchain.Ledger.{Ledger, State, MempoolEntry, TxRecord, u64, topo_key}
use still_blockchain.P2p.Answers.{get_block_by_height}
use still_blockchain.P2p.FullBlock.{get_tx}
use still_blockchain.Reward.{reward, get_supply_at_height}
use still_blockchain.Transaction.{Transaction}
use still_blockchain.Uint128.{Uint128}

pub record BlockResponse : Type 0 where
  pub block : Block
  pub hash : ℕ
  pub reward : ℕ
  pub miner : ℕ

unfoldable pub block_response : Crypto → Block → BlockResponse
block_response c b = record {
  block = b;
  hash = block_hash c b;
  reward = reward b.height;
  miner = b.recipient;
}

-- `get_block_by_hash`
unfoldable pub get_block_by_hash : Crypto → Chain → ℕ → Result BlockResponse
unfolding block_response
get_block_by_hash c ch hash = do
  b ← get_block hash ch
  topo ← get_topo b.height ch
  fail_if (topo != block_hash c b) not_in_mainchain
  ok (block_response c b)

-- `get_block_by_height`
unfoldable pub block_by_height : Crypto → Chain → ℕ → Result BlockResponse
unfolding block_response
block_by_height c ch height = do b ← get_block_by_height height ch; ok (block_response c b)

pub record TransactionResponse : Type 0 where
  pub sender : Option ℕ
  pub recipient : ℕ
  pub amount : ℕ
  pub fee : ℕ
  pub nonce : ℕ
  pub signature : Option ℕ
  pub height : ℕ
  pub coinbase : Bool

unfoldable pub coinbase_response : Block → TransactionResponse
coinbase_response b = record {
  sender = none;
  recipient = b.recipient;
  amount = reward b.height;
  fee = 0;
  nonce = 0;
  signature = none;
  height = b.height;
  coinbase = true;
}

-- `get_transaction`: of the hash of a block it answers the transaction that pays its miner.
unfoldable pub get_transaction : Crypto → Chain → ℕ → Result TransactionResponse
unfolding coinbase_response
get_transaction c ch txid = elim (get_tx txid ch.ledger) [
  | err _ ↦ get_block txid ch >>= λ b. ok (coinbase_response b)
  | panic ↦ panic
  | ok r ↦ ok (record {
    sender = some (from_pub_key c r.tx.sender);
    recipient = r.tx.recipient;
    amount = r.tx.amount;
    fee = r.tx.fee;
    nonce = r.tx.nonce;
    signature = some r.tx.signature;
    height = r.height;
    coinbase = false;
  })
]

pub record InfoResponse : Type 0 where
  pub height : ℕ
  pub top_hash : ℕ
  pub circulating_supply : ℕ
  pub most_supply : ℕ
  pub coin_units : ℕ
  pub difficulty : Uint128
  pub cumulative_diff : Uint128
  pub target : ℕ
  pub block_reward : ℕ

-- `get_info`: the node stops where the top block is not found.
unfoldable pub get_info : Chain → Result InfoResponse
get_info ch = do
  top ← get_block ch.stats.top_hash ch
  ok (record {
    height = ch.stats.top_height;
    top_hash = ch.stats.top_hash;
    circulating_supply = get_supply_at_height ch.stats.top_height;
    most_supply = max_supply;
    coin_units = coin;
    difficulty = top.difficulty;
    cumulative_diff = ch.stats.cumulative_diff;
    target = target_block_time;
    block_reward = reward ch.stats.top_height;
  })

pub record AddressResponse : Type 0 where
  pub balance : ℕ
  pub last_nonce : ℕ
  pub last_incoming : ℕ
  pub mempool_balance : ℕ
  pub mempool_nonce : ℕ
  pub mempool_incoming : ℕ
  pub height : ℕ

-- The response before the loop over the mempool; an address without a state has zeros.
unfoldable pub stored_response : Chain → Option State → AddressResponse
stored_response ch none = record {
  balance = 0;
  last_nonce = 0;
  last_incoming = 0;
  mempool_balance = 0;
  mempool_nonce = 0;
  mempool_incoming = 0;
  height = 0;
}
stored_response ch (some s) = record {
  balance = s.balance;
  last_nonce = s.last_nonce;
  last_incoming = s.last_incoming;
  mempool_balance = s.balance;
  mempool_nonce = s.last_nonce;
  mempool_incoming = 0;
  height = ch.stats.top_height;
}

-- One entry of the mempool that has the address on one of its sides.
unfoldable pub count_entry : ℕ → MempoolEntry → Transaction → AddressResponse → AddressResponse
count_entry addr v t r =
    if v.sender == addr
    then record r {
      mempool_balance = (r.mempool_balance + u64 - (t.amount + t.fee) % u64) % u64;
      mempool_nonce = (r.mempool_nonce + 1) % u64;
    }
    else record r {
      mempool_balance = (r.mempool_balance + t.amount) % u64;
      mempool_incoming = (r.mempool_incoming + 1) % u64;
    }

unfoldable pub count_mempool :
    Ledger → ℕ → List MempoolEntry → AddressResponse → Result AddressResponse
unfolding count_entry
count_mempool l addr [] r = ok r
count_mempool l addr (v ∷ vs) r =
    let skip = count_mempool l addr vs r in
    let counted = λ (t : Transaction). count_mempool l addr vs (count_entry addr v t r) in
    if v.sender == addr || v.recipient == addr
    then (get_tx v.txid l >>= λ found. counted found.tx)
    else skip

-- `get_address`
unfoldable pub get_address : Chain → ℕ → Result AddressResponse
unfolding stored_response count_mempool
get_address ch addr =
    if addr == 0
    then err bad_address
    else count_mempool ch.ledger addr ch.ledger.mempool
        (stored_response ch (lookup addr ch.ledger.states))

abbrev pub page_size : ℕ
page_size = 25

-- The arithmetic of `get_tx_list`: the number of the last transfer of a page and of the first one,
-- for a page and the number of transfers of the account.
unfoldable pub page_bounds : ℕ → ℕ → ℕ × ℕ
page_bounds page count =
    let page' = if leb count (page * page_size % u64) then count / page_size else page in
    let last = count - page' * page_size % u64 in
    let first = if ltb page_size last then last - page_size else 1 in
    (last, if ltb last first then last else first)

unfoldable pub max_page : ℕ → ℕ
max_page count = (if ltb 1 count then count - 2 else count) / page_size

-- `GetTxTopoInc` and `GetTxTopoOut`, on their bucket.
unfoldable pub get_tx_topo : Assoc ℕ → ℕ → ℕ → Result ℕ
get_tx_topo bucket addr id = elim (lookup (topo_key addr id) bucket) [
  | none ↦ err unknown_tx_topo
  | some h ↦ ok h
]

-- The loop from the number `i` on, with `rounds` numbers left.
unfoldable pub list_from : Assoc ℕ → ℕ → ℕ → ℕ → Result (List ℕ)
unfolding get_tx_topo
list_from bucket addr zero i = ok []
list_from bucket addr (suc rounds) i = do
  h ← get_tx_topo bucket addr i
  hs ← list_from bucket addr rounds (i + 1)
  ok (h ∷ hs)

-- `get_tx_list`: the hashes and the number of the last page. `incoming` is the type of transfer.
unfoldable pub get_tx_list : Ledger → ℕ → Bool → ℕ → Result (List ℕ × ℕ)
unfolding page_bounds max_page list_from
get_tx_list l addr incoming page = elim (lookup addr l.states) [
  | none ↦ err state_not_found
  | some s ↦
      let count = if incoming then s.last_incoming else s.last_nonce in
      let (last, first) = page_bounds page count in
      if last == 0 then ok ([], max_page count) else (do
        hashes ← list_from (if incoming then l.in_txs else l.out_txs) addr (last + 1 - first) first
        ok (hashes, max_page count))
]
