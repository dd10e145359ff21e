-- ===== src/P2p.antt =====
-- What a node does with the packets of its peers: blockchain/bc-p2p.go, and `SerializeFullBlock` of
-- blockchain/bc-block.go.
pub mod FullBlock
pub mod FullRoundTrip
pub mod Database
pub mod Answers
pub mod Handlers
pub mod Peers
pub mod Progress
