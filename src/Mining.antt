-- ===== src/Mining.antt =====
-- Block templates and their solutions: blockchain/mining.go, the chains that are mined with this
-- one of blockchain/mergestratum.go, and the targets of util/util.go.
pub mod Template
pub mod Found
pub mod Jobs
pub mod Targets
