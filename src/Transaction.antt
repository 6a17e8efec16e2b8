-- ===== src/Transaction.antt =====
-- withTransaction and the registry of live handles of src/postgres/transaction-lease.ts. The
-- driver's `sql.begin` is postgres.js: it sends BEGIN, runs the callback, and sends COMMIT, or
-- ROLLBACK if the callback threw. How BEGIN, SET and COMMIT go is an argument of the model.
pub mod Atomic
pub mod Begin
use umbra_db.Prelude.{
  ℕ, ◌+◌, ◌^◌, ◌-◌, Bool, true, false, not, ◌&&◌, List, [], ◌∷◌, Option, none, some, any, filter,
  leb, ◌==◌, if◌then◌else◌,
}
use umbra_db.Errors.{
  DriverError, Thrown, storage, driver, rollback, Result, ok, fail, transaction_rolled_back,
  transaction_fault, timeout, connection_lost, transaction_handle_invalid, validation_failed,
}
use umbra_db.Errors.Translate.{
  is_statement_timeout, is_connection_failure, translate_postgres_error,
}
use umbra_db.Exec.{Exec, lift, ◌>>=◌, ◌>>◌, require}

-- How the server answers a COMMIT: done, refused and so rolled back, or done with the answer lost
-- on the way.
pub data CommitOutcome : Type 0 where
  committed : CommitOutcome
  refused : DriverError → CommitOutcome
  unacknowledged : DriverError → CommitOutcome

-- What the connection does for one transaction.
pub record Link : Type 0 where
  pub begins : Option DriverError
  pub sets_timeout : Option DriverError
  pub commits : CommitOutcome
  pub swallowed : Option DriverError  -- a query's rejection that the callback caught

-- `store` is what the open transaction sees: the committed data with its own writes, or just the
-- committed data if no transaction is open. `base` is the committed data, which the other
-- connections of the pool see. Then the keys of activeTransactions, and the next handle
-- (randomUUID: never one that was given out).
pub record World (D : Type 0) : Type 0 where
  pub store : D
  pub base : D
  pub live : List ℕ
  pub next_handle : ℕ

pub data Isolation : Type 0 where
  read_committed repeatable_read serializable : Isolation

pub record TransactionOptions : Type 0 where
  pub isolation : Option Isolation
  pub timeout_ms : Option ℕ

-- POSTGRES_INT4_MAX
abbrev pub postgres_int4_max : ℕ
postgres_int4_max = 2 ^ 31 - 1

-- TransactionOptionsSchema
unfoldable pub is_valid_timeout : Option ℕ → Bool
is_valid_timeout none = true
is_valid_timeout (some ms) = leb 1 ms && leb ms postgres_int4_max

abbrev pub answer : Option DriverError → Result (Unit {0})
answer none = ok tt
answer (some e) = fail (driver e)

abbrev pub is_set : Option ℕ → Bool
is_set none = false
is_set (some n) = true

-- the catch of withTransaction
unfoldable pub translate_transaction_error : TransactionOptions → Thrown → Thrown
translate_transaction_error opts (rollback c) = storage (transaction_rolled_back c)
translate_transaction_error opts e =
    if is_statement_timeout e && is_set opts.timeout_ms
    then storage (transaction_fault timeout)
    else if is_connection_failure e
    then storage (transaction_fault connection_lost)
    else translate_postgres_error e none

module _ {D : Type 0} where
  -- resolveTransaction
  unfoldable pub resolve_transaction : ℕ → Exec (World D) (Unit {0})
  resolve_transaction h w =
      if any (λ i. i == h) w.live
      then (w, ok tt)
      else (w, fail (storage (transaction_handle_invalid h)))

  -- registerTransaction
  unfoldable pub register_transaction : World D → World D
  register_transaction w = record w {
    live = w.next_handle ∷ w.live;
    next_handle = w.next_handle + 1;
  }

  -- unregisterTransaction
  unfoldable pub unregister_transaction : ℕ → World D → World D
  unregister_transaction h w = record w { live = filter (λ i. not (i == h)) w.live }

  -- a call on a connection of its own, outside the open transaction: it works on the committed
  -- data, and the open transaction sees its writes
  unfoldable pub autocommit : {A : Type 0} → Exec (World D) A → Exec (World D) A
  autocommit m w =
      let (w', r) = m (record w { store = w.base }) in
      (record w { store = (m w).0.store; base = w'.store }, r)

  -- opts.tx's connection, or the adapter's own
  unfoldable pub on_connection : {A : Type 0} → Option ℕ → Exec (World D) A → Exec (World D) A
  on_connection none m = autocommit m
  on_connection (some h) m = m

  -- set local statement_timeout
  abbrev pub set_timeout : Link → TransactionOptions → Exec (World D) (Unit {0})
  set_timeout link opts = lift (if is_set opts.timeout_ms then answer link.sets_timeout else ok tt)

  module _ {A : Type 0} where
    -- try { return await fn(handle); } finally { unregisterTransaction(handle); }
    unfoldable pub with_handle : (ℕ → Exec (World D) A) → Exec (World D) A
    with_handle fn w =
        let (w', r) = fn w.next_handle (register_transaction w) in
        (unregister_transaction w.next_handle w', r)

    -- txCallback
    unfoldable pub tx_callback :
        Link → TransactionOptions → (ℕ → Exec (World D) A) → Exec (World D) A
    tx_callback link opts fn = set_timeout link opts >> with_handle fn

    -- The end of sql.begin, from what the callback left: COMMIT, or ROLLBACK to what is committed,
    -- with what other connections committed meanwhile
    unfoldable pub finish : CommitOutcome → World D × Result A → World D × Result A
    finish commit (w, fail e) = (record w { store = w.base }, fail e)
    finish committed (w, ok a) = (record w { base = w.store }, ok a)
    finish (refused e) (w, ok a) = (record w { store = w.base }, fail (driver e))
    finish (unacknowledged e) (w, ok a) = (record w { base = w.store }, fail (driver e))

    -- sql.begin
    unfoldable pub begin : Link → Exec (World D) A → Exec (World D) A
    begin link callback w =
        let out = finish link.commits (callback w) in
        elim link.begins [ none ↦ out | some e ↦ (w, fail (driver e)) ]

    -- sql.begin rejects with the error of a query whose rejection the callback swallowed
    unfoldable pub resurface : Option DriverError → World D × Result A → World D × Result A
    resurface (some x) (w, ok a) = (w, fail (driver x))
    resurface none (w, ok a) = (w, ok a)
    resurface swallowed (w, fail e) = (w, fail e)

    unfoldable pub catching : TransactionOptions → World D × Result A → World D × Result A
    catching opts (w, ok a) = (w, ok a)
    catching opts (w, fail e) = (w, fail (translate_transaction_error opts e))

    -- the try block of withTransaction, with withAbort inside it
    unfoldable pub run_transaction :
        Link → TransactionOptions → Bool → (ℕ → Exec (World D) A) → Exec (World D) A
    run_transaction link opts is_aborted fn w = catching opts (
        (require (not is_aborted) Thrown.aborted
            >> begin link (λ w. resurface link.swallowed (tx_callback link opts fn w)))
          w)

    unfoldable pub with_transaction :
        Link → TransactionOptions → Bool → (ℕ → Exec (World D) A) → Exec (World D) A
    with_transaction link opts is_aborted fn =
        require (is_valid_timeout opts.timeout_ms) (storage validation_failed)
        >> run_transaction link opts is_aborted fn
