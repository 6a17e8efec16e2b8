-- ===== src/Errors.antt =====
-- The storage error hierarchy: src/interfaces/storage-errors.ts and the error classes that the
-- other interfaces derive from StorageError, with the code and the retryability that each class
-- carries. `Thrown` is what a JavaScript `throw` may carry through the adapters; `Result` is a
-- call's outcome.
pub mod Translate
use umbra_db.Prelude.{ℕ, Bool, Option, Text, ◌≡◌, refl, ◌⊎◌, inl, inr}
use Prim.Native.String.{String}

-- TransactionFaultError.faultKind and LeaseFaultError.faultKind
pub data FaultKind : Type 0 where
  connection_lost serialization_failure deadlock timeout reserve_failed : FaultKind

pub data Retryability : Type 0 where
  retryable non_retryable conditional : Retryability

-- TransactionRollbackCause: callback-requested, or a constraint violation with its code.
pub data RollbackCause : Type 0 where
  callback_requested : RollbackCause
  constraint_violation : String → RollbackCause

-- One constructor for each concrete subclass of StorageError, with the fields that callers read.
pub data StorageError : Type 0 where
  validation_failed serialization_failed connection_error : StorageError
  version_conflict : ℕ → Option ℕ → StorageError
  transaction_key_reuse : Text → Text → Text → StorageError
  checkpoint_not_found : Text → Text → Option ℕ → StorageError
  chunk_missing : Text → StorageError
  chunk_integrity : Text → Text → StorageError
  manifest_corrupt : Text → StorageError
  transaction_rolled_back : RollbackCause → StorageError
  transaction_fault : FaultKind → StorageError
  transaction_handle_invalid : ℕ → StorageError
  lease_timeout : Text → ℕ → StorageError
  lease_not_held : Text → StorageError
  lease_fault : FaultKind → StorageError
  exclusion_violation clock_regression unrecognized_postgres_error : StorageError
  chain_archive_invariant chain_archive_check_violation : String → StorageError
  envelope_version_unsupported : ℕ → StorageError
  envelope_corrupt : StorageError
  migration_lock_timeout : Text → ℕ → StorageError

unfoldable pub error_code : StorageError → String
error_code validation_failed = "VALIDATION_FAILED"
error_code serialization_failed = "SERIALIZATION_FAILED"
error_code connection_error = "CONNECTION_ERROR"
error_code (version_conflict _ _) = "VERSION_CONFLICT"
error_code (transaction_key_reuse _ _ _) = "TRANSACTION_KEY_REUSE"
error_code (checkpoint_not_found _ _ _) = "NOT_FOUND"
error_code (chunk_missing _) = "CHUNK_MISSING"
error_code (chunk_integrity _ _) = "CHUNK_INTEGRITY"
error_code (manifest_corrupt _) = "MANIFEST_CORRUPT"
error_code (transaction_rolled_back _) = "TRANSACTION_ROLLED_BACK"
error_code (transaction_fault _) = "TRANSACTION_FAULT"
error_code (transaction_handle_invalid _) = "TRANSACTION_HANDLE_INVALID"
error_code (lease_timeout _ _) = "LEASE_TIMEOUT"
error_code (lease_not_held _) = "LEASE_NOT_HELD"
error_code (lease_fault _) = "LEASE_FAULT"
error_code exclusion_violation = "EXCLUSION_VIOLATION"
error_code clock_regression = "CLOCK_REGRESSION"
error_code unrecognized_postgres_error = "UNRECOGNIZED_POSTGRES_ERROR"
error_code (chain_archive_invariant _) = "CHAIN_ARCHIVE_INVARIANT_VIOLATION"
error_code (chain_archive_check_violation _) = "CHAIN_ARCHIVE_CHECK_VIOLATION"
error_code (envelope_version_unsupported _) = "VERSION_UNSUPPORTED"
error_code envelope_corrupt = "CORRUPT"
error_code (migration_lock_timeout _ _) = "MIGRATION_LOCK_TIMEOUT"

unfoldable pub retryability : StorageError → Retryability
retryability connection_error = retryable
retryability (transaction_fault _) = retryable
retryability (lease_timeout _ _) = retryable
retryability (migration_lock_timeout _ _) = retryable
retryability clock_regression = conditional
retryability _ = non_retryable

-- The fields of a postgres.js error that the adapters read: `.code`, `.constraint_name`, and
-- whether it has a `.severity`, as every error of the wire protocol does.
pub record DriverError : Type 0 where
  pub code : String
  pub constraint_name : Option String
  pub has_severity : Bool

pub data Thrown : Type 0 where
  storage : StorageError → Thrown
  driver : DriverError → Thrown  -- an Error with a string `.code`
  rollback : RollbackCause → Thrown  -- the Rollback signal of a transaction's callback
  aborted : Thrown  -- an Error named AbortError
  app : ℕ → Thrown  -- any other Error, of the caller's code
  value : ℕ → Thrown  -- a thrown value that is no Error

pub data Result {ℓ} (A : Type ℓ) : Type ℓ where
  ok : A → Result A
  fail : Thrown → Result A

pub Result-cases {ℓ} :
    {A : Type ℓ} (r : Result A) → ((a : A) × (r ≡ ok a)) ⊎ ((e : Thrown) × (r ≡ fail e))
Result-cases (ok a) = inl (a, refl)
Result-cases (fail e) = inr (e, refl)

infixl 5 ◌>>=◌
abbrev pub ◌>>=◌ {ℓ κ} : {A : Type ℓ} {B : Type κ} → Result A → (A → Result B) → Result B
ok a >>= f = f a
fail e >>= f = fail e
