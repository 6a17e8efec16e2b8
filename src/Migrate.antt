-- ===== src/Migrate.antt =====
-- runMigrationsImpl and withReservedTransaction of src/postgres/migrate.ts: a lineage of
-- migrations, applied under an advisory lock on a reserved connection. How each statement goes is
-- an argument, and so is the SQL of each migration's `up`.
pub mod Again
pub mod Progress
pub mod Cleanup
use umbra_db.Prelude.{
  ℕ, ◌≡◌, Bool, true, false, List, [], ◌∷◌, Option, none, some, Text, ◌=?◌, text_eq, any,
  if◌then◌else◌,
}
use umbra_db.Errors.{
  DriverError, Thrown, storage, driver, app, validation_failed, migration_lock_timeout, Result, ok,
  fail, ◌>>=◌,
}
use umbra_db.Errors.Translate.{is_statement_timeout, is_lock_timeout}
use umbra_db.Transaction.{CommitOutcome, committed, refused, unacknowledged, is_valid_timeout}

-- A schema: its objects, and the names in `_migrations`, none if there is no such table.
pub record Db (X : Type 0) : Type 0 where
  pub objects : X
  pub migrations : Option (List Text)

-- interface Migration: `up` runs in a transaction, so that an `up` that throws leaves nothing
pub record Migration (X : Type 0) : Type 0 where
  pub name : Text
  pub up : Db X → Result (Db X)

-- How each statement of one run goes; those of a migration's transaction by its name.
pub record Run : Type 0 where
  pub reserves : Option DriverError
  pub begins_lock : Option DriverError
  pub sets_lock_timeout : Option DriverError
  pub takes_lock : Option DriverError
  pub commits_lock : CommitOutcome
  pub rolls_back_lock : Option DriverError
  pub sets_search_path : Option DriverError
  pub checks_table : Option DriverError
  pub selects : Text → Option DriverError
  pub begins : Text → Option DriverError
  pub inserts : Text → Option DriverError
  pub commits : Text → CommitOutcome
  pub rolls_back : Text → Option DriverError
  pub resets_search_path : Option DriverError
  pub unlocks : Option DriverError

abbrev pub Call : Type 0 → Type 0
Call S = S → S × Result (Unit {0})

-- a statement that may raise, and what follows it
unfoldable pub guarded : {S : Type 0} → Option DriverError → Call S → Call S
guarded none rest s = rest s
guarded (some e) rest s = (s, fail (driver e))

unfoldable pub when_ok : {S : Type 0} → Call S → S × Result (Unit {0}) → S × Result (Unit {0})
when_ok rest (s, ok u) = rest s
when_ok rest (s, fail e) = (s, fail e)

-- await reserved`ROLLBACK`; throw err
abbrev pub rolled_back : Option DriverError → Thrown → Thrown
rolled_back none e = e
rolled_back (some r) e = driver r

-- PostgreSQL's errors for a table that does not exist and for a primary key that does
abbrev undefined_table : Thrown
undefined_table = driver (record { code = "42P01"; constraint_name = none; has_severity = true })

abbrev unique_violation : Thrown
unique_violation =
    driver
      (record { code = "23505"; constraint_name = some "_migrations_pkey"; has_severity = true })

-- select 1 as one from _migrations where name = ...
unfoldable pub recorded : Text → Option (List Text) → Result Bool
recorded n none = fail undefined_table
recorded n (some ns) = ok (any (λ k. k =? n) ns)

-- insert into _migrations (name) values (...)
unfoldable pub insert_name : Text → Option (List Text) → Result (Option (List Text))
insert_name n none = fail undefined_table
insert_name n (some ns) = if any (λ k. k =? n) ns then fail unique_violation else ok (some (n ∷ ns))

module _ {X : Type 0} where
  abbrev with_names : Db X → Option (List Text) → Db X
  with_names d ns = record d { migrations = ns }

  unfoldable pub record_name : Text → Db X → Result (Db X)
  record_name n d = insert_name n d.migrations >>= λ ns. ok (with_names d ns)

  abbrev pub answered_by : Option DriverError → Result (Db X) → Result (Db X)
  answered_by none r = r
  answered_by (some e) r = fail (driver e)

  -- the callback: up, then the row
  unfoldable pub apply_up : Run → Migration X → Db X → Result (Db X)
  apply_up c m d = m.up d >>= λ d'. answered_by (c.inserts m.name) (record_name m.name d')

  -- the end of withReservedTransaction, from what its callback gave
  unfoldable pub end_transaction :
      CommitOutcome → Option DriverError → Db X → Result (Db X) → Db X × Result (Unit {0})
  end_transaction commit r d (fail e) = (d, fail (rolled_back r e))
  end_transaction committed r d (ok d') = (d', ok tt)
  end_transaction (refused e) r d (ok d') = (d, fail (rolled_back r (driver e)))
  end_transaction (unacknowledged e) r d (ok d') = (d', fail (rolled_back r (driver e)))

  -- withReservedTransaction around a migration
  unfoldable pub apply_migration : Run → Migration X → Call (Db X)
  apply_migration c m =
      guarded (c.begins m.name)
        (λ d. end_transaction (c.commits m.name) (c.rolls_back m.name) d (apply_up c m d))

  -- if (applied.length > 0) continue
  unfoldable pub apply_next : Run → Migration X → Call (Db X) → Result Bool → Call (Db X)
  apply_next c m rest (fail e) d = (d, fail e)
  apply_next c m rest (ok true) d = rest d
  apply_next c m rest (ok false) d = when_ok rest (apply_migration c m d)

  -- the loop
  unfoldable pub apply_rest : Run → List (Migration X) → Call (Db X)
  apply_rest c [] d = (d, ok tt)
  apply_rest c (m ∷ ms) d =
      let rest = apply_rest c ms in
      guarded (c.selects m.name) (λ d. apply_next c m rest (recorded m.name d.migrations) d) d

  -- lineage.slice(1)
  abbrev pub slice_1 : List (Migration X) → List (Migration X)
  slice_1 [] = []
  slice_1 (m ∷ ms) = ms

  -- if (!bootstrapped[0]!.exists); lineage[0]! of an empty lineage is a TypeError
  unfoldable pub bootstrap : Run → List (Migration X) → Option (List Text) → Call (Db X)
  bootstrap c ms (some ns) d = (d, ok tt)
  bootstrap c [] none d = (d, fail (app 0))
  bootstrap c (m ∷ ms) none d = apply_migration c m d

  -- the inner try block
  unfoldable pub migrate : Run → List (Migration X) → Call (Db X)
  migrate c ms d =
      when_ok (apply_rest c (slice_1 ms))
        (guarded c.checks_table (λ d. bootstrap c ms d.migrations d) d)

abbrev commit_answer : CommitOutcome → Result (Unit {0})
commit_answer committed = ok tt
commit_answer (refused e) = fail (driver e)
commit_answer (unacknowledged e) = fail (driver e)

-- The database; whether the reserved connection's session has the advisory lock, and the
-- search_path of the schema; the variable lockHeld; and whether the connection is out of the pool.
pub record MigrationSession (X : Type 0) : Type 0 where
  pub database : Db X
  pub has_lock : Bool
  pub is_widened : Bool
  pub lock_held : Bool
  pub is_reserved : Bool

-- DEFAULT_MIGRATION_LOCK_TIMEOUT_MS
abbrev pub acquire_bound : Option ℕ → ℕ
acquire_bound none = 30000
acquire_bound (some ms) = ms

-- if (isLockTimeout(err) || isStatementTimeout(err)) throw new MigrationLockTimeoutError(...)
unfoldable pub lock_error : Text → ℕ → Thrown → Thrown
lock_error schema bound e =
    if is_lock_timeout e
    then storage (migration_lock_timeout schema bound)
    else if is_statement_timeout e
    then storage (migration_lock_timeout schema bound)
    else e

module _ {X : Type 0} where
  abbrev pub failing :
      (Thrown → Thrown)
      → MigrationSession X × Result (Unit {0})
      → MigrationSession X × Result (Unit {0})
  failing f (w, ok u) = (w, ok u)
  failing f (w, fail e) = (w, fail (f e))

  -- select pg_advisory_lock(...): a session lock
  unfoldable pub lock_schema : Run → Call (MigrationSession X)
  lock_schema c = guarded c.takes_lock (λ w. (record w { has_lock = true }, ok tt))

  -- the callback: set_config, the lock, lockHeld = true
  unfoldable pub lock_callback : Run → Call (MigrationSession X)
  lock_callback c =
      guarded c.sets_lock_timeout
        (λ w. when_ok (λ w. (record w { lock_held = true }, ok tt)) (lock_schema c w))

  -- COMMIT: a session lock stays, whatever its answer
  abbrev commit_lock : Run → Call (MigrationSession X)
  commit_lock c w = (w, commit_answer c.commits_lock)

  -- withReservedTransaction around the callback; neither COMMIT nor ROLLBACK gives a session lock
  -- back
  unfoldable pub acquire_lock : Run → Call (MigrationSession X)
  acquire_lock c =
      guarded c.begins_lock
        (λ w. failing (rolled_back c.rolls_back_lock) (when_ok (commit_lock c) (lock_callback c w)))

  abbrev pub still_failing :
      Thrown → MigrationSession X × Result (Unit {0}) → MigrationSession X × Result (Unit {0})
  still_failing e (w, ok u) = (w, fail e)
  still_failing e (w, fail e') = (w, fail e')

  -- try { ... } finally { ... }
  unfoldable pub finally :
      Call (MigrationSession X)
      → MigrationSession X × Result (Unit {0})
      → MigrationSession X × Result (Unit {0})
  finally cleanup (w, ok u) = cleanup w
  finally cleanup (w, fail e) = still_failing e (cleanup w)

  unfoldable pub on_database : Call (Db X) → Call (MigrationSession X)
  on_database m w = let (d, r) = m w.database in (record w { database = d }, r)

  unfoldable pub reset_search_path : Run → Call (MigrationSession X)
  reset_search_path c = guarded c.resets_search_path (λ w. (record w { is_widened = false }, ok tt))

  -- set search_path, the migrations, reset search_path
  unfoldable pub in_schema : Run → List (Migration X) → Call (MigrationSession X)
  in_schema c ms = guarded c.sets_search_path (λ w.
      finally (reset_search_path c) (on_database (migrate c ms) (record w { is_widened = true })))

  -- if (lockHeld) await pg_advisory_unlock(...)
  unfoldable pub unlock_if : Run → Bool → Call (MigrationSession X)
  unlock_if c true = guarded c.unlocks (λ w. (record w { has_lock = false }, ok tt))
  unlock_if c false = λ w. (w, ok tt)

  abbrev pub release :
      MigrationSession X × Result (Unit {0}) → MigrationSession X × Result (Unit {0})
  release (w, r) = (record w { is_reserved = false }, r)

  -- the outer finally
  unfoldable pub give_back : Run → Call (MigrationSession X)
  give_back c w = release (unlock_if c w.lock_held w)

  -- the outer try block
  unfoldable pub under_lock : Run → Text → Option ℕ → List (Migration X) → Call (MigrationSession X)
  under_lock c schema limit ms w =
      if is_valid_timeout limit
      then when_ok (in_schema c ms)
          (failing (lock_error schema (acquire_bound limit)) (acquire_lock c w))
      else (w, fail (storage validation_failed))

  unfoldable pub run_migrations_impl :
      Run → Text → Option ℕ → List (Migration X) → Call (MigrationSession X)
  run_migrations_impl c schema limit ms = guarded c.reserves (λ w.
      finally (give_back c)
        (under_lock c schema limit ms (record w { is_reserved = true; lock_held = false })))
