-- ===== src/Lib.antt =====
-- A model of the STILL blockchain node: the code that decides which blocks enter the chain, what
-- they do to the accounts, and the formats and the arithmetic underneath.
--
-- The parts, and how they interact. Blocks arrive as bytes, are read by the block format and the
-- binary encoding, and enter by `AddBlock`, which validates them against their predecessor
-- (difficulty, height, timestamp, side blocks), applies them to the account state or stores them
-- as orphans or alternative blocks, and reorganizes the chain to the tip with the most work. The
-- download queue says which blocks to ask peers for. Peers' packets are read and handled by the
-- node, each in a transaction of its own; miners are sent block templates and their solutions enter
-- like the blocks of peers.
--
-- The files, with the code they model:
-- - Base: notation and lemmas; Base/Result has the errors (`err`, `panic`), Base/Action the
--   methods that change a state, Base/Assoc the maps, Base/Bytes little-endian numbers.
-- - Config: config/config.go, config/advanced.go, config/config_mainnet.go.
-- - Binary: binary/manualdes.go and binary/manualser.go; a deserializer is the bytes left and
--   whether an error occurred. `uvarint` and `uvarint_loop` are AppendUvarint and Uvarint of
--   encoding/binary.
-- - Uint128: util/uint128/uint128.go on 64-bit words, with add_word, sub_word, mul_word and
--   div_word for bits.Add64, Sub64, Mul64 and Div64.
-- - Reward: block/reward.go.
-- - Crypto: the hash, the signatures and the proof of work, a parameter, with the one hypothesis
--   that a hash has 32 bytes; FromPubKey of address/address.go.
-- - Transaction: transaction/transaction.go.
-- - Block: block/block.go, block/commitment.go, block/ancestors.go; Block/MiningBlob:
--   block/miningblob.go; Block/MiningBlob/Set: setMiningBlob; Block/Pow: the proof of work and
--   Prevalidate.
-- - Ledger: blockchain/state.go, blockchain/bc-txn.go, the mempool of blockchain/bc-stats.go, and
--   of blockchain/blockchain.go ApplyBlockToState (Ledger/Apply), RemoveBlockFromState
--   (Ledger/Remove), GetSupply and CheckSupply (Ledger/Total).
-- - Queue: blockchain/blockqueue.go, and fillQueue of blockchain/blockchain.go; Queue/Requests: a
--   round of Synchronize.
-- - Checkpoints: checkpoints/checkpoints.go; the embedded file is an argument. Checkpoints/Create:
--   CreateCheckpoints of blockchain/blockchain.go, which makes the file.
-- - Difficulty: blockchain/difficulty.go.
-- - Chain: the chain of blockchain/blockchain.go: checkBlock (Chain/Check), CheckReorgs
--   (Chain/Reorg), AddBlock with orphans and alternative blocks (Chain/Add), addGenesis
--   (Chain/Genesis); Chain/Sound: an invariant of the stored blocks and the stats.
-- - Packet: p2p/packet, the formats of what peers send.
-- - P2p: the handlers of blockchain/bc-p2p.go, and blocks with their transactions as
--   blockchain/bc-block.go writes them. P2p/Database has the transactions of the database bbolt, a
--   parameter that rolls the buckets back after an error. P2p/Peers: the known peers of p2p/p2p.go,
--   with net.ParseIP as a parameter.
-- - Mining: GetBlockTemplate (Mining/Template) and blockFound (Mining/Found) of
--   blockchain/mining.go, AddStratum's jobs of blockchain/mergestratum.go (Mining/Jobs), and the
--   targets of util/util.go (Mining/Targets).
-- - Stratum: SendJob of stratum/stratumsrv/server.go and the login of blockchain/bc-stratum.go, with
--   the blocks that jobs point to as a heap; Stratum/Submit: the solutions of miners.
-- - Rpc: the requests of cmd/still-node/noderpc.go, with the responses of rpc/daemonrpc/types.go.
-- - Address: the texts of address/address.go, with the checksum of hash/crc32.
-- - Wallet: the state and the transfers of wallet/wallet.go; the signatures are a parameter.
-- - RateLimit: util/ratelimit/ratelimit.go.
-- - Runs: sequences of packets, submitted transactions and solved blocks, from the genesis block on,
--   each handled by P2p, Rpc or Mining.
-- - Tests: inputs, and the theorems applied to them.
--
-- Numbers of w bits are natural numbers with the wrap written out. Byte arrays of a fixed size
-- (hashes, keys, addresses) are numbers, least byte first. The buckets of the database are
-- association lists of decoded values; a Go map is walked in the order of its list. The clock and
-- the governance address are arguments.
--
-- Fuel: the loops of CheckReorgs that follow previous hashes take a number of rounds, and answer
-- `out_of_rounds` where it does not suffice: for step 1 more rounds than the height of the
-- alternative block are enough, where heights fall along previous hashes. deorphanBlock has one
-- round more than there are orphans, and more rounds change nothing. The loop of Synchronize needs
-- more rounds than 51 and than the queue has entries.
--
-- Not modelled: sockets, encryption, HTTP, JSON and the framing of packets, the wallet's file and
-- mnemonic, the commands and the logger, which are input and output; the loop that searches for a
-- nonce; the gob encoding; the base 36 digits of addresses.
pub mod Base
pub mod Config
pub mod Binary
pub mod Uint128
pub mod Reward
pub mod Crypto
pub mod Transaction
pub mod Block
pub mod Ledger
pub mod Queue
pub mod Checkpoints
pub mod Difficulty
pub mod Chain
pub mod RateLimit
pub mod Packet
pub mod P2p
pub mod Mining
pub mod Stratum
pub mod Rpc
pub mod Wallet
pub mod Address
pub mod Runs
pub mod Tests
