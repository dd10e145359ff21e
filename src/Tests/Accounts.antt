-- ===== src/Tests/Accounts.antt =====
-- Tests of the wallet, and of what the node tells it.
use still_blockchain.P2p.Handlers.{Node}
use still_blockchain.Binary.{uvarint_loop}
use still_blockchain.Address.RoundTrip.{from_text-subaddr, from_text-to_text}
use still_blockchain.Address.{Integrated, crc32, from_text, to_text}
use still_blockchain.Crypto.{from_pub_key, Crypto}
use still_blockchain.Transaction.{Transaction, serialize, tx_hash}
use still_blockchain.Wallet.Accepted.{Informed, transfer_accepted, IsPair}
use still_blockchain.Tests.Network.{node}
use still_blockchain.Rpc.Submit.{submit_transaction}
use still_blockchain.Chain.{Chain}
use still_blockchain.Wallet.{transfer, Wallet, sign_tx, Signer, unsigned, refresh, public_key}
use still_blockchain.P2p.FullBlock.{get_tx}
use still_blockchain.Ledger.Txns.{replay}
use still_blockchain.Ledger.{State, Ledger, TxRecord, get_entry}
use still_blockchain.Base.{
  ◌≡◌, ℕ, some, arith, refl, ◌∷◌, [], ◌*◌, Bool-cases, ◌==◌, inl, subst, inr, ◌^◌, ◌%◌, ◌≢◌, false,
  ◌+◌, List, ==_iff, ap, sym,
}
use still_blockchain.Tests.Chains.{chain, env}
use still_blockchain.Tests.Samples.{payment, rich, paying_ledger, empty_ledger, toy}
use still_blockchain.Rpc.{AddressResponse, stored_response, count_mempool, count_entry, get_address}
use still_blockchain.Rpc.Mempool.{FitTxs, Mirrors, replay-count_mempool}
use still_blockchain.Base.Result.{ok, err, bad_address}
use still_blockchain.Base.Assoc.{lookup}
use still_blockchain.Base.Bytes.{IsU64, le_value, le_bytes}

-- Address 7 spends 500 and a fee in the mempool.
abbrev spending_ledger : Ledger
spending_ledger = record paying_ledger {
  mempool = record { txid = 77; size = 0; fee = 0; expires = 0; sender = 7; recipient = 9 } ∷ [];
}

lookup-FitTxs :
    (h k : ℕ) (r r' : TxRecord)
    → IsU64 r.tx.amount
    → IsU64 r.tx.fee
    → lookup h ((k, r) ∷ []) ≡ some r'
    → IsU64 r'.tx.amount × IsU64 r'.tx.fee
unfolding lookup
lookup-FitTxs h k r r' ha hf found = elim (Bool-cases (k == h)) [
  | inl same ↦
      let is : r ≡ r' = ground (arith, same) in
      subst (λ x. IsU64 x.tx.amount × IsU64 x.tx.fee) is (ha, hf)
  | inr other ↦ absurd (ground (arith, other))
]

spending-FitTxs : FitTxs spending_ledger
spending-FitTxs h r found =
    lookup-FitTxs h 77 (record { height = 0; tx = payment }) r (omega arith) (omega arith) found

stored : AddressResponse
unfolding stored_response
stored = stored_response chain (some rich)

abbrev counted : AddressResponse
counted = record stored { mempool_balance = 999_999_500; mempool_nonce = 1 }

stored-Mirrors : Mirrors rich stored
unfolding stored
stored-Mirrors = record { balance_fits = omega arith; same_balance = refl; same_nonce = refl }

spending-counted : count_mempool spending_ledger 7 spending_ledger.mempool stored ≡ ok counted
unfolding count_mempool
spending-counted = unfold stored stored_response count_entry get_tx lookup in refl

replay-count_mempool_example :
    (s' : State) × (replay spending_ledger 5 7 spending_ledger.mempool rich ≡ ok s')
    × Mirrors s' counted
replay-count_mempool_example =
    replay-count_mempool spending_ledger 5 7 spending_ledger.mempool rich stored counted
      spending-FitTxs (unfold get_entry in refl) stored-Mirrors spending-counted

-- A signature scheme for the test: the public key of a seed is the seed, and a signature is the sum of
-- the public key and the message. Others are refused.
abbrev sum_of : ℕ → List ℕ → ℕ
sum_of key message = (key + le_value message) % 256 ^ 64

abbrev summing : Crypto
summing = record toy { verify = λ key message signature. signature == sum_of key message }

signer : Signer summing
signer = record {
  sign = λ message key. sum_of (key % 256 ^ 32) message;
  sign_fits = λ message key. omega arith;
  derive = λ seed. seed;
  sign_verifies = λ message key pair.
      (==_iff (sum_of (key % 256 ^ 32) message) (sum_of (public_key key) message)).1
        (ap (λ k. sum_of k message) (sym pair));
}

refuses : summing.verify 7 (1 ∷ []) 9 ≡ false
unfolding le_value
refuses = refl

abbrev summing_node : Node
summing_node = record node { env = record env { crypto = summing } }

-- A wallet with the key of address 7, informed by a node with an empty mempool.
abbrev wallet : Wallet
wallet = record {
  private_key = 7 * 256 ^ 32 + 7;
  address = record { addr = 7; subaddr = 0 };
  balance = 0;
  last_nonce = 0;
  mempool_bal = 0;
  mempool_nonce = 0;
  height = 0;
}

abbrev informing : Chain
informing = record chain { ledger = record empty_ledger { states = (7, rich) ∷ [] } }

answer : AddressResponse
unfolding stored_response
answer = stored_response informing (some rich)

wallet-Informed : Informed summing informing wallet rich answer
unfolding answer lookup get_address stored_response count_mempool le_value le_bytes
wallet-Informed = record {
  own_address = unfold public_key from_pub_key in refl;
  real_address = λ e. omega arith;
  known = refl;
  balance_fits = omega arith;
  txs_fit = λ h r found. absurd (ground arith);
  answered = refl;
}

wallet-IsPair : IsPair signer wallet.private_key
unfolding signer public_key
wallet-IsPair = refl

abbrev friend : Integrated
friend = record { addr = 9; subaddr = 3 }

sent : Transaction
unfolding sign_tx unsigned refresh
sent = sign_tx signer (unsigned (refresh wallet answer) 500 friend) wallet.private_key

wallet-sends : transfer signer wallet answer 500 friend ≡ ok sent
unfolding transfer sent refresh
wallet-sends = refl

transfer_accepted_example :
    (submit_transaction summing_node (serialize sent) informing).0 ≡ ok (tx_hash summing sent)
transfer_accepted_example =
    transfer_accepted summing_node signer wallet informing answer rich 500 friend sent
      wallet-Informed wallet-IsPair (λ e. omega arith) (omega arith) (omega arith) (omega arith)
      (unfold answer stored_response in omega arith) (unfold answer stored_response in omega arith)
      wallet-sends (unfold lookup in refl) (unfold get_entry in refl)

-- The check value of the CRC, on the digits from 1 to 9.
crc32_digits : crc32 (49 ∷ 50 ∷ 51 ∷ 52 ∷ 53 ∷ 54 ∷ 55 ∷ 56 ∷ 57 ∷ []) ≡ 3_421_780_262
unfolding crc32
crc32_digits = refl

from_text-to_text_example :
    (crc32 (le_bytes 22 9) % 256 ≡ 0 → from_text (to_text friend) ≡ err bad_address)
    × (crc32 (le_bytes 22 9) % 256 ≢ 0
        → from_text (to_text friend) ≡ ok (record { addr = 9; subaddr = 0 }))
from_text-to_text_example = from_text-to_text friend (omega arith) (omega arith)

read_friend : from_text (to_text friend) ≡ ok (record { addr = 9; subaddr = 0 })
unfolding from_text to_text uvarint_loop le_value
read_friend = unfold crc32 le_bytes in refl

abbrev plain_friend : Integrated
plain_friend = record { addr = 9; subaddr = 0 }

from_text-subaddr_example : plain_friend.subaddr ≡ 0
from_text-subaddr_example = from_text-subaddr (to_text friend) plain_friend read_friend
