-- ===== src/Tests/Samples.antt =====
-- The values that the tests work on: keys, transactions, accounts, blocks.
use still_blockchain.Base.{ℕ, ◌%◌, ◌^◌, true, [], ◌∷◌, List, arith, ◌-◌}
use still_blockchain.Base.Bytes.{le_value}
use still_blockchain.Crypto.{Crypto}
use still_blockchain.Transaction.{Transaction}
use still_blockchain.Block.{Block, Header, Commitment}
use still_blockchain.Ledger.{Ledger, State}

abbrev hash_of_sample : List ℕ → ℕ
hash_of_sample b = le_value b % 256 ^ 32

-- A stand-in for the cryptography: the hash is the bytes themselves, as far as they fit.
abbrev pub toy : Crypto
toy = record {
  blake3 = hash_of_sample;
  blake3_fits = λ b. omega arith;
  verify = λ key message signature. true;
  pow_hash = λ seed blob. 0;
}

-- The address of key 7 is 7.
abbrev pub payment : Transaction
payment = record {
  sender = 7;
  recipient = 9;
  signature = 11;
  nonce = 1;
  amount = 500;
  fee = 1_000_000_000;
  subaddr = 0;
}

-- Amount and fee add up to 2 ^ 64 + 3.
abbrev pub wrapping : Transaction
wrapping = record payment { amount = 2 ^ 64 - 1; fee = 4 }

abbrev pub rich : State
rich = record { balance = 2_000_000_000; last_nonce = 0; last_incoming = 0 }

abbrev pub poor : State
poor = record { balance = 3; last_nonce = 0; last_incoming = 0 }

abbrev pub empty_ledger : Ledger
empty_ledger = record {
  states = [];
  txs = [];
  in_txs = [];
  out_txs = [];
  mempool = [];
  sync_height = 0;
  sync_diff = record { lo = 0; hi = 0 };
}

abbrev pub paying_ledger : Ledger
paying_ledger = record empty_ledger {
  states = (7, rich) ∷ [];
  txs = (77, record { height = 0; tx = payment }) ∷ [];
}

abbrev pub wrapping_ledger : Ledger
wrapping_ledger = record empty_ledger {
  states = (7, poor) ∷ [];
  txs = (77, record { height = 0; tx = wrapping }) ∷ [];
}

abbrev pub side : Commitment
side = record {
  base_hash = 5;
  ancestors = 1 ∷ 2 ∷ 3 ∷ [];
  timestamp = 10;
  nonce = 4;
  nonce_extra = 0;
  other_chains = record { network = 3; hash = 8 } ∷ [];
}

abbrev pub header : Header
header = record {
  version = 0;
  height = 0;
  timestamp = 20;
  nonce = 4919;
  nonce_extra = 0;
  other_chains = [];
  recipient = 9;
  ancestors = 1 ∷ 2 ∷ 3 ∷ [];
  side_blocks = side ∷ [];
}

abbrev pub empty_block : Block
empty_block = record {
  header = header;
  difficulty = record { lo = 1000; hi = 0 };
  cumulative_diff = record { lo = 5000; hi = 1 };
  transactions = [];
}

abbrev pub full_block : Block
full_block = record empty_block { transactions = 77 ∷ [] }
