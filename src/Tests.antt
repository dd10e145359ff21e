-- ===== src/Tests.antt =====
-- Concrete inputs for the theorems, and the theorems applied to them.
mod Samples
mod Arithmetic
mod Codecs
mod Money
mod Nodes
mod Chains
mod Network
mod Miners
mod Accounts
mod Files
mod Births
mod Peers
