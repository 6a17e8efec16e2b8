-- ===== src/Errors/Translate.antt =====
-- src/postgres/errors.ts: the classification of driver errors and `translatePostgresError`.
pub mod Laws
use Prim.Native.String.{String}
use text.Mathlib.Text.{◌==◌, starts_with}
use umbra_db.Prelude.{
  Bool, true, false, ◌&&◌, ◌||◌, List, [], ◌∷◌, Option, none, some, any, Text, if◌then◌else◌,
}
use umbra_db.Errors.{
  DriverError, Thrown, StorageError, connection_error, transaction_key_reuse, exclusion_violation,
  clock_regression, chain_archive_invariant, chain_archive_check_violation, transaction_fault,
  unrecognized_postgres_error, serialization_failure, deadlock, storage, driver, app, value,
}

-- CONNECTION_FAILURE_CODES
abbrev connection_failure_codes : List String
connection_failure_codes =
    "ECONNREFUSED" ∷ "ENOTFOUND" ∷ "ETIMEDOUT" ∷ "ECONNRESET" ∷ "CONNECTION_CLOSED"
    ∷ "CONNECT_TIMEOUT" ∷ "CONNECTION_ENDED" ∷ "CONNECTION_DESTROYED" ∷ "08000" ∷ "08001" ∷ "08003"
    ∷ "08004" ∷ "08006" ∷ "08007" ∷ "08P01" ∷ "28000" ∷ "28P01" ∷ "57P01" ∷ "57P02" ∷ "57P03" ∷ []

-- CONNECTION_FAILURE_CODES.has(code)
unfoldable pub is_connection_code : String → Bool
is_connection_code code = any (λ c. c == code) connection_failure_codes

-- CHAIN_ARCHIVE_INVARIANT_CONSTRAINT_NAMES.has(name)
unfoldable pub is_chain_archive_invariant : String → Bool
is_chain_archive_invariant name =
    any (λ c. c == name)
      ("chain_blob_roles_completeness" ∷ "blocks_finalized_monotonic"
        ∷ "chain_blob_roles_removal_guard" ∷ [])

unfoldable pub is_chain_archive_check_constraint_name : String → Bool
is_chain_archive_check_constraint_name name =
    any (λ prefix. starts_with name prefix)
      ("blocks_" ∷ "transactions_" ∷ "bridge_observations_" ∷ "chain_blobs_" ∷ "chain_blob_roles_"
        ∷ "verifier_key_observations_" ∷ [])

unfoldable pub is_pg_driver_error : DriverError → Bool
is_pg_driver_error err = err.has_severity || is_connection_code err.code

unfoldable pub is_connection_failure : Thrown → Bool
unfolding is_pg_driver_error
is_connection_failure (driver err) = is_pg_driver_error err && is_connection_code err.code
is_connection_failure _ = false

unfoldable pub is_statement_timeout : Thrown → Bool
unfolding is_pg_driver_error
is_statement_timeout (driver err) = is_pg_driver_error err && err.code == "57014"
is_statement_timeout _ = false

unfoldable pub is_lock_timeout : Thrown → Bool
unfolding is_pg_driver_error
is_lock_timeout (driver err) = is_pg_driver_error err && err.code == "55P03"
is_lock_timeout _ = false

-- `case "23514"`: routed by the name of the constraint that fired
unfoldable pub check_violation : Option String → StorageError
check_violation none = clock_regression
check_violation (some name) =
    if is_chain_archive_invariant name
    then chain_archive_invariant name
    else if is_chain_archive_check_constraint_name name
    then chain_archive_check_violation name
    else clock_regression

-- `case "UB001"`: with the key that the caller wrote, if it gave one
unfoldable pub key_reuse : Option (Text × Text × Text) → StorageError
key_reuse none = exclusion_violation
key_reuse (some k) = transaction_key_reuse k.0 k.1 k.2

-- the `switch (err.code)` of translatePostgresError
unfoldable pub translate_code : DriverError → Option (Text × Text × Text) → StorageError
unfolding check_violation key_reuse
translate_code err key_context =
    if err.code == "UB001"
    then key_reuse key_context
    else if err.code == "23P01"
    then exclusion_violation
    else if err.code == "23514"
    then check_violation err.constraint_name
    else if err.code == "40001"
    then transaction_fault serialization_failure
    else if err.code == "40P01"
    then transaction_fault deadlock
    else unrecognized_postgres_error

-- A non-Error value is wrapped in a new Error; every other Error is passed through.
unfoldable pub translate_postgres_error : Thrown → Option (Text × Text × Text) → Thrown
unfolding is_pg_driver_error
translate_postgres_error (driver err) key_context =
    if is_pg_driver_error err
    then (if is_connection_code err.code
        then storage connection_error
        else storage (translate_code err key_context))
    else driver err
translate_postgres_error (value v) key_context = app v
translate_postgres_error err key_context = err
