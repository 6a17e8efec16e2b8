-- ===== src/TxHistory.antt =====
-- The transaction history of a wallet: src/interfaces/transaction-history-storage.ts,
-- src/postgres/transaction-history-storage.ts and
-- src/postgres/migrations/004_transaction_history.ts. Bigint, Content, Codec and Entry are the
-- stored form of an entry, Rows the table and its writes, Storage the public calls.
pub mod Bigint
pub mod Content
pub mod Codec
pub mod Entry
pub mod Rows
pub mod Storage
