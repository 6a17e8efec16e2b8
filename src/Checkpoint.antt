-- ===== src/Checkpoint.antt =====
-- src/postgres/checkpoint-store.ts over the tables of
-- src/postgres/migrations/002_checkpoint_store.ts: content-addressed, chunked snapshots. The calls
-- inside one transaction are modelled here; the transaction itself is that of Transaction.
pub mod Tables
pub mod Save
pub mod Load
pub mod Integrity
pub mod Dedupe
pub mod Writes
pub mod Invariant
pub mod ReadBack
pub mod Roundtrip
pub mod Sequence
pub mod Prune
pub mod Calls
pub mod History
pub mod Retention
pub mod Spared
pub mod Survival
