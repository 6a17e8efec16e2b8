-- ===== src/Lib.antt =====
-- UmbraDB keeps a wallet's data in PostgreSQL: a temporal key-value store, content-addressed
-- checkpoints, sync cursors (watermarks), a transaction history, and the transactions that tie them
-- together. This library
-- models the adapters of src/postgres over the schemas of src/interfaces. Paths are from the
-- repository's root.
--
-- The parts, and where they are:
-- - Errors, Errors/Translate: the hierarchy of src/interfaces/storage-errors.ts and
--   src/postgres/errors.ts (isPgDriverError, isConnectionFailure, isStatementTimeout, isLockTimeout,
--   translatePostgresError). A thrown value is a `Thrown`, a call's outcome a `Result`.
-- - SafeText, Json: the boundary schemas of src/interfaces/temporal-kv.ts (hasPostgresUnsafeText,
--   jsonValueHasUnsafeText, exceedsMaxDepth, JsonValueSchema). A text is its list of UTF-16 units.
-- - KvTables, TemporalKv: the tables and the trigger of src/postgres/migrations/001_temporal_kv.ts, and
--   put, get and getAt of src/postgres/temporal-kv.ts. TemporalKv/Timeline gives each key a log, newest
--   entry first, which is the abstract view that the other children of TemporalKv speak of.
-- - Slices, Checkpoint: the tables of src/postgres/migrations/002_checkpoint_store.ts, and save, load,
--   history and prune of src/postgres/checkpoint-store.ts: Checkpoint/Save, Load and Prune are the
--   statements inside one transaction, Checkpoint/Calls the public calls around them, and
--   Checkpoint/History is history with its call.
-- - Transaction: withTransaction and the registry of live handles of src/postgres/transaction-lease.ts. A `World` is
--   what the open transaction sees and what is committed. `begin`, `finish` and `resurface` are the documented protocol of
--   postgres.js's sql.begin, which is not part of the repository.
-- - Lease: acquireLease, tryAcquireLease, releaseLease and withLease of src/postgres/transaction-lease.ts. `Sessions` is
--   the connections taken from the pool, the locks and timeouts of their sessions, and heldLeases; a `Course`
--   says what the pool, the server and the abort signal do during one acquisition.
-- - Store, Watermarks: the tables of one database, and set and get of src/postgres/watermarks.ts.
-- - TxHistory: src/interfaces/transaction-history-storage.ts, src/postgres/transaction-history-storage.ts and
--   src/postgres/migrations/004_transaction_history.ts. Bigint, Content, Codec and Entry are the entry, its
--   schema and its stored form (encodeContent, decodeContent, parseStoredBigint, parseStoredDate,
--   encodeStoredEntry, rowToEntry), Rows is the table with writeRows, and Storage the public calls (getAll,
--   get, serialize, gotPending, gotFinalized, gotRejected). The entry's fields are typed, as the callers'
--   types say. The fields of an object are listed in jsonb's order of its keys, and zod is taken to return
--   the value that it accepts.
-- - SaveAndAdvance: src/postgres/save-and-advance.ts, over Checkpoint, Watermarks and Transaction.
-- - Envelope, Envelope/Store: encode and decode of src/interfaces/wallet-state-envelope.ts, and
--   PgWalletStateEnvelopeStore of src/postgres/wallet-state-envelope.ts, over any checkpoint store and over that of
--   Checkpoint.
-- - Migrate: runMigrationsImpl and withReservedTransaction of src/postgres/migrate.ts, over any lineage. A `Run` says
--   how each statement of one run goes. Progress is about one run on the schema, Again about two, Cleanup about
--   the connection.
-- - Prelude, Table, Exec: shared lists and tests, tables with a primary key, and calls as state passing.
-- - Tests: each theorem at a concrete input.
--
-- How state is modelled: a call is `Exec S A`, from the tables to the tables it leaves with what it
-- returns or throws. A SQL statement is a function on the tables that is atomic and may raise a
-- SQLSTATE. `on_ckpt`, `on_marks` and `on_history` run a module's call on the open transaction's
-- connection, `autocommit` runs a call on a connection of its own, and `with_transaction` commits what its connection
-- wrote or takes it back. A lookup takes the first row of a key, and the
-- primary key makes it the only one.
--
-- Arguments of the model: `sha256` (node:crypto), zod's z.json(), what a jsonb column gives back for
-- a value, the clock, the transaction id, the merge function of the transaction history, toISOString and
-- `new Date`, zod's tests on numbers, the database's order of texts, JSON.stringify and JSON.parse,
-- TextEncoder and TextDecoder, and how a connection answers BEGIN, SET, COMMIT and the
-- statements of a clean-up.
--
-- Fuel: Slices takes one round more than the list has elements, which is enough for a positive size,
-- and the chunk size is validated to be positive; exceedsMaxDepth takes one round more than the value
-- has nodes; the decimal text of n takes n + 1 rounds, more than n has digits.
--
-- What is not modelled: interleavings of several connections, so an isolation level changes
-- nothing; a transaction inside a transaction, which the interface rules out; labels, kinds and keys that PostgreSQL cannot store,
-- which the adapters pass on unchecked; error messages and causes; time limits on statements;
-- listKeys, two leases that wait for one another, a reservation that settles after it was given
-- up, the advisory locks and row locks of the transaction history, the checks that
-- runMigrations makes before runMigrationsImpl, the durability probe, the client and the chain archive.
pub mod Prelude
pub mod Table
pub mod Errors
pub mod SafeText
pub mod Json
pub mod Exec
pub mod KvTables
pub mod TemporalKv
pub mod Slices
pub mod Checkpoint
pub mod Transaction
pub mod Store
pub mod Watermarks
pub mod SaveAndAdvance
pub mod Lease
pub mod Migrate
pub mod Envelope
pub mod Tests
pub mod TxHistory
