-- ===== src/Tests.antt =====
-- Each theorem that has hypotheses, applied at a concrete input.
pub mod Kv
pub mod Snapshots
pub mod Boundary
pub mod Transactions
pub mod TxHistory
pub mod Leases
pub mod Migrations
pub mod Envelopes
pub mod Listing
