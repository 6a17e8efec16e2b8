-- ===== src/Errors/Translate/Laws.antt =====
-- `translatePostgresError` of src/postgres/errors.ts, on whatever is thrown.
use Prim.Native.String.{String}
use text.Mathlib.Text.{◌==◌}
use text.Mathlib.TextEquality.{eq_iff}
use umbra_db.Prelude.{
  ◌≡◌, refl, inl, inr, Bool, true, false, Option, some, none, Text, Bool-cases, arith, ◌||◌,
}
use umbra_db.Errors.{
  DriverError, StorageError, retryability, Retryability, Thrown, connection_error, storage, driver,
  rollback, aborted, app, value,
}
use umbra_db.Errors.Translate.{
  translate_code, check_violation, key_reuse, is_pg_driver_error, is_connection_code,
  translate_postgres_error,
}

-- What reaches a caller: no driver error, and no value that is not an Error.
abbrev pub IsTranslated : Thrown → Type 0
IsTranslated (driver err) = is_pg_driver_error err ≡ false
IsTranslated (value v) = ⊥
IsTranslated _ = Unit

-- Whatever is thrown, after translation no genuine driver error is left (an error with `.code` that
-- remains is the caller's own) and every thrown value is an Error; and a second translation, with
-- any context, changes nothing.
pub translate-IsTranslated :
    (e : Thrown) (k k' : Option (Text × Text × Text))
    → IsTranslated (translate_postgres_error e k)
      × (translate_postgres_error (translate_postgres_error e k) k' ≡ translate_postgres_error e k)
unfolding translate_postgres_error
translate-IsTranslated (storage e) k k' = (tt, refl)
translate-IsTranslated (driver e) k k' = elim (Bool-cases (is_pg_driver_error e)) [
  | inl genuine ↦ elim (Bool-cases (is_connection_code e.code)) [
    | inl c ↦ rw (genuine, c) (tt, refl)
    | inr c ↦ rw (genuine, c) (tt, refl)
  ]
  | inr other ↦ rw other (other, rw other)
]
translate-IsTranslated (rollback c) k k' = (tt, refl)
translate-IsTranslated aborted k k' = (tt, refl)
translate-IsTranslated (app n) k k' = (tt, refl)
translate-IsTranslated (value n) k k' = (tt, refl)

-- `retryable` is "retryable"
abbrev pub retries : StorageError → Bool
retries e = elim (retryability e) [ Retryability.retryable ↦ true | _ ↦ false ]

check_violation-retries : (name : Option String) → retries (check_violation name) ≡ false
unfolding check_violation retryability
check_violation-retries none = refl
check_violation-retries (some name) = ground arith

key_reuse-retries : (k : Option (Text × Text × Text)) → retries (key_reuse k) ≡ false
unfolding key_reuse retryability
key_reuse-retries none = refl
key_reuse-retries (some k) = refl

-- the SQLSTATEs of a serialization failure and of a deadlock
abbrev pub is_transient_code : String → Bool
is_transient_code code = code == "40001" || code == "40P01"

translate_code-retries :
    (c : String) (name : Option String) (severity : Bool) (k : Option (Text × Text × Text))
    → retries
        (translate_code (record { code = c; constraint_name = name; has_severity = severity }) k)
      ≡ is_transient_code c
unfolding translate_code retryability
translate_code-retries c name severity k = elim (Bool-cases (c == "UB001")) [
  | inl p ↦ rw ((eq_iff c "UB001").0 p) (key_reuse-retries k)
  | inr n1 ↦ elim (Bool-cases (c == "23P01")) [
    | inl p ↦ rw ((eq_iff c "23P01").0 p) refl
    | inr n2 ↦ elim (Bool-cases (c == "23514")) [
      | inl p ↦ rw ((eq_iff c "23514").0 p) (check_violation-retries name)
      | inr n3 ↦ elim (Bool-cases (c == "40001")) [
        | inl p ↦ rw ((eq_iff c "40001").0 p) refl
        | inr n4 ↦ elim (Bool-cases (c == "40P01")) [
          | inl p ↦ rw ((eq_iff c "40P01").0 p) refl
          | inr n5 ↦ rw (n1, n2, n3, n4, n5) refl
        ]
      ]
    ]
  ]
]

-- Every genuine driver error becomes an error of the storage hierarchy, and that error is marked
-- retryable exactly when the code is a connection failure, a serialization failure or a deadlock.
pub translate_retryable_iff :
    (e : DriverError) (k : Option (Text × Text × Text))
    → is_pg_driver_error e ≡ true
    → (s : StorageError) × (translate_postgres_error (driver e) k ≡ storage s)
      × (retries s ≡ (is_connection_code e.code || is_transient_code e.code))
unfolding translate_postgres_error
translate_retryable_iff e k genuine = elim (Bool-cases (is_connection_code e.code)) [
  | inl c ↦ (connection_error, rw (genuine, c), rw c (unfold retryability in refl))
  | inr c ↦ (
    translate_code e k,
    rw (genuine, c),
    rw c (translate_code-retries e.code e.constraint_name e.has_severity k),
  )
]
