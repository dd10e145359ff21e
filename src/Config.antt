-- ===== src/Config.antt =====
-- The constants of config/config.go, config/advanced.go and config/config_mainnet.go.
use still_blockchain.Base.{ℕ, ◌+◌, ◌*◌, ◌/◌}

abbrev pub coin : ℕ
coin = 1_000_000_000

abbrev pub fee_per_byte : ℕ
fee_per_byte = 500_000

abbrev pub block_reward : ℕ
block_reward = 184 * coin

abbrev pub target_block_time : ℕ
target_block_time = 15

abbrev pub blocks_per_day : ℕ
blocks_per_day = 60 * 60 * 24 / target_block_time

abbrev pub reduction_interval : ℕ
reduction_interval = blocks_per_day * 90

abbrev pub max_supply : ℕ
max_supply = reduction_interval * block_reward * 10 + block_reward * reduction_interval / 2

abbrev pub max_tx_per_block : ℕ
max_tx_per_block = 1_000

abbrev pub min_difficulty : ℕ
min_difficulty = 1000

abbrev pub future_time_limit : ℕ
future_time_limit = 10

abbrev pub difficulty_n : ℕ
difficulty_n = 60 * 60 / target_block_time

abbrev pub max_tx_size : ℕ
max_tx_size = 300

abbrev pub minidag_ancestors : ℕ
minidag_ancestors = 3

abbrev pub max_side_blocks : ℕ
max_side_blocks = 2

abbrev pub max_merge_mined_chains : ℕ
max_merge_mined_chains = 16

abbrev pub seedhash_duration : ℕ
seedhash_duration = 4 * (60 * 60 * 24)

abbrev pub parallel_blocks_download : ℕ
parallel_blocks_download = 50

abbrev pub network_id : ℕ
network_id = 0x4af15cf1542ba49a

abbrev pub genesis_timestamp : ℕ
genesis_timestamp = 0

abbrev pub block_reward_fee_percent : ℕ
block_reward_fee_percent = 10

abbrev pub max_block_size : ℕ
max_block_size = 1000 + 25 * max_tx_size

abbrev pub stratum_jobs_history : ℕ
stratum_jobs_history = minidag_ancestors
