-- ===== src/Lease.antt =====
-- acquireLease, tryAcquireLease, releaseLease and withLease of src/postgres/transaction-lease.ts:
-- session advisory locks on connections that are reserved from the pool. What the pool, the server
-- and the abort signal do during a call is an argument.
pub mod Restores
pub mod Tries
pub mod Release
pub mod Scope
use umbra_db.Prelude.{
  ℕ, suc, Bool, true, false, not, ◌&&◌, List, [], ◌∷◌, Option, none, some, Text, ◌==◌, filter,
  nat_eq, if◌then◌else◌,
}
use umbra_db.Table.{Table, lookup, delete_where}
use umbra_db.Errors.{
  DriverError, Thrown, storage, driver, validation_failed, lease_timeout, lease_not_held,
  lease_fault, reserve_failed, connection_lost, Result, ok, fail,
}
use umbra_db.Errors.Translate.{is_statement_timeout}
use umbra_db.Transaction.{is_valid_timeout, is_set}

pub record HeldLease : Type 0 where
  pub reserved : ℕ
  pub key : Text
  pub had_timeout : Bool

-- The locks (connection, lock) that sessions hold, the connections taken from the pool, those whose
-- session has a statement_timeout, heldLeases, and the next token (randomUUID: never one that was
-- given out).
pub record Sessions : Type 0 where
  pub locks : List (ℕ × ℕ)
  pub reserved : List ℕ
  pub timeouts : List ℕ
  pub held : Table ℕ HeldLease
  pub next_token : ℕ

pub record Lease : Type 0 where
  pub key : Text
  pub token : ℕ

-- reserveBounded: a connection, the timer first, the abort first, or an error
pub data Reservation : Type 0 where
  connection : ℕ → Reservation
  timed_out reserve_aborted reserve_error : Reservation

-- raceAgainstAbort on pg_advisory_lock: granted; an error before a grant; or the abort first, with
-- the lock granted on the server all the same or not
pub data LockAnswer : Type 0 where
  granted : LockAnswer
  refused : DriverError → LockAnswer
  aborted_waiting : Bool → LockAnswer

-- pg_advisory_unlock and RESET statement_timeout in a clean-up: the unlock is answered, or it fails
-- in a session that lives on and keeps the lock, each with whether the RESET then goes through; or
-- the session has ended, with its locks and its settings. The code swallows what they throw.
pub data Unlocking : Type 0 where
  answered unlock_failed : Bool → Unlocking
  session_lost : Unlocking

-- what happens during one acquisition
pub record Course : Type 0 where
  pub reservation : Reservation
  pub sets_timeout : Option DriverError
  pub locking : LockAnswer
  pub try_locks : Result Bool
  pub is_aborted_after : Bool
  pub unlocking : Unlocking

abbrev pub remove_one : ℕ × ℕ → List (ℕ × ℕ) → List (ℕ × ℕ)
remove_one l [] = []
remove_one l (m ∷ ms) =
    let rest = remove_one l ms in if m.0 == l.0 && m.1 == l.1 then ms else m ∷ rest

-- select pg_advisory_unlock(...).catch(() => {})
unfoldable pub unlock : Unlocking → ℕ → ℕ → Sessions → Sessions
unlock (answered resets) c k w = record w { locks = remove_one (c, k) w.locks }
unlock (unlock_failed resets) c k w = w
unlock session_lost c k w = record w { locks = filter (λ l. not (l.0 == c)) w.locks }

-- whether a statement_timeout that was set is gone after the RESET
abbrev pub is_reset : Unlocking → Bool
is_reset (answered resets) = resets
is_reset (unlock_failed resets) = resets
is_reset session_lost = true

-- resetStatementTimeout
unfoldable pub reset_statement_timeout : Unlocking → Bool → ℕ → Sessions → Sessions
reset_statement_timeout u had_timeout c w =
    if had_timeout && is_reset u
    then record w { timeouts = filter (λ d. not (d == c)) w.timeouts }
    else w

-- reserved.release()
unfoldable pub release_connection : ℕ → Sessions → Sessions
release_connection c w = record w { reserved = filter (λ d. not (d == c)) w.reserved }

unfoldable pub reserve : ℕ → Sessions → Sessions
reserve c w = record w { reserved = c ∷ w.reserved }

unfoldable pub set_statement_timeout : ℕ → Sessions → Sessions
set_statement_timeout c w = record w { timeouts = c ∷ w.timeouts }

unfoldable pub take_lock : ℕ → ℕ → Sessions → Sessions
take_lock c k w = record w { locks = (c, k) ∷ w.locks }

-- the clean-up of the catch blocks and of releaseLease
unfoldable pub clean_up : Unlocking → Bool → ℕ → ℕ → Sessions → Sessions
unfolding unlock reset_statement_timeout release_connection
clean_up u had_timeout c k w =
    release_connection c (reset_statement_timeout u had_timeout c (unlock u c k w))

-- raceAgainstAbort, and the check of the signal after it
unfoldable pub wait_for_lock : LockAnswer → Bool → ℕ → ℕ → Sessions → Sessions × Result (Unit {0})
unfolding take_lock
wait_for_lock granted is_aborted c k w =
    (take_lock c k w, (if is_aborted then fail Thrown.aborted else ok tt))
wait_for_lock (refused e) is_aborted c k w = (w, fail (driver e))
wait_for_lock (aborted_waiting true) is_aborted c k w = (take_lock c k w, fail Thrown.aborted)
wait_for_lock (aborted_waiting false) is_aborted c k w = (w, fail Thrown.aborted)

-- set statement_timeout, then the lock
unfoldable pub lock_in_time :
    Option DriverError → LockAnswer → Bool → ℕ → ℕ → Sessions → Sessions × Result (Unit {0})
unfolding set_statement_timeout
lock_in_time (some e) answer is_aborted c k w = (w, fail (driver e))
lock_in_time none answer is_aborted c k w =
    wait_for_lock answer is_aborted c k (set_statement_timeout c w)

-- the try block of acquireLease
unfoldable pub lock_phase : Course → Bool → ℕ → ℕ → Sessions → Sessions × Result (Unit {0})
unfolding lock_in_time wait_for_lock
lock_phase course true c k w =
    lock_in_time course.sets_timeout course.locking course.is_aborted_after c k w
lock_phase course false c k w = wait_for_lock course.locking course.is_aborted_after c k w

abbrev is_given : {A : Type 0} → Option A → Bool
is_given none = false
is_given (some a) = true

-- the milliseconds of LeaseTimeoutError
abbrev pub waited : Option ℕ → ℕ
waited none = 0
waited (some ms) = ms

-- the errors at the end of the catch of acquireLease
unfoldable pub acquire_error : Text → Option ℕ → Thrown → Thrown
acquire_error key timeout Thrown.aborted = Thrown.aborted
acquire_error key timeout e =
    if is_set timeout && is_statement_timeout e
    then storage (lease_timeout key (waited timeout))
    else storage (lease_fault connection_lost)

-- heldLeases.set(token, ...)
unfoldable pub hold : ℕ → Text → Bool → Sessions → Sessions
hold c key had_timeout w = record w {
  held = (w.next_token, record { reserved = c; key = key; had_timeout = had_timeout }) ∷ w.held;
  next_token = suc w.next_token;
}

-- if (unlockError !== undefined) throw ...
unfoldable pub release_answer : Unlocking → Result (Unit {0})
release_answer (answered resets) = ok tt
release_answer (unlock_failed resets) = fail (storage (lease_fault connection_lost))
release_answer session_lost = fail (storage (lease_fault connection_lost))

module _ (hashtext : Text → ℕ) where
  -- after the lock phase of acquireLease
  unfoldable pub acquired :
      Course → Text → Option ℕ → ℕ → Sessions × Result (Unit {0}) → Sessions × Result Lease
  unfolding hold clean_up acquire_error
  acquired course key timeout c (w, ok u) =
      (hold c key (is_set timeout) w, ok (record { key = key; token = w.next_token }))
  acquired course key timeout c (w, fail e) = (
    clean_up course.unlocking (is_set timeout) c (hashtext key) w,
    fail (acquire_error key timeout e),
  )

  -- acquireLease from the reservation on
  unfoldable pub acquire_on :
      Course → Reservation → Text → Option ℕ → Sessions → Sessions × Result Lease
  unfolding reserve lock_phase acquired
  acquire_on course timed_out key timeout w =
      (w, fail (storage (lease_timeout key (waited timeout))))
  acquire_on course reserve_aborted key timeout w = (w, fail Thrown.aborted)
  acquire_on course reserve_error key timeout w = (w, fail (storage (lease_fault reserve_failed)))
  acquire_on course (connection c) key timeout w =
      acquired course key timeout c
        (lock_phase course (is_set timeout) c (hashtext key) (reserve c w))

  unfoldable pub acquire_lease :
      Course → Text → Option ℕ → Bool → Sessions → Sessions × Result Lease
  unfolding acquire_on
  acquire_lease course key timeout is_aborted w =
      if is_valid_timeout timeout
      then (if is_aborted
          then (w, fail Thrown.aborted)
          else acquire_on course course.reservation key timeout w)
      else (w, fail (storage validation_failed))

  -- releaseLease
  unfoldable pub release_held : Unlocking → ℕ → HeldLease → Sessions → Sessions × Result (Unit {0})
  unfolding clean_up
  release_held u token h w = (
    clean_up u h.had_timeout h.reserved (hashtext h.key)
        (record w { held = delete_where (λ t held. t == token) w.held }),
    release_answer u,
  )

  unfoldable pub release_found :
      Unlocking → Lease → Option HeldLease → Sessions → Sessions × Result (Unit {0})
  unfolding release_held
  release_found u lease none w = (w, fail (storage (lease_not_held lease.key)))
  release_found u lease (some h) w = release_held u lease.token h w

  unfoldable pub release_lease : Unlocking → Lease → Sessions → Sessions × Result (Unit {0})
  unfolding release_found
  release_lease u lease w = release_found u lease (lookup lease.token w.held) w

-- pg_try_advisory_lock, and the check of the signal after it: a lock that another session has is
-- no error
unfoldable pub try_lock : Result Bool → Bool → ℕ → ℕ → Sessions → Sessions × Result Bool
unfolding take_lock
try_lock (fail e) is_aborted c k w = (w, fail e)
try_lock (ok false) is_aborted c k w = (w, ok false)
try_lock (ok true) is_aborted c k w =
    (take_lock c k w, (if is_aborted then fail Thrown.aborted else ok true))

-- the branch of tryAcquireLease with a timeout
unfoldable pub as_locked : Sessions × Result (Unit {0}) → Sessions × Result Bool
as_locked (w, ok u) = (w, ok true)
as_locked (w, fail e) = (w, fail e)

-- the try block of tryAcquireLease: whether the lock is taken, or an error
unfoldable pub try_phase : Course → Bool → ℕ → ℕ → Sessions → Sessions × Result Bool
unfolding try_lock as_locked lock_in_time
try_phase course false c k w = try_lock course.try_locks course.is_aborted_after c k w
try_phase course true c k w =
    as_locked (lock_in_time course.sets_timeout course.locking course.is_aborted_after c k w)

-- a statement timeout while waiting for the lock is no error of tryAcquireLease; one of `set
-- statement_timeout` is
unfoldable pub try_error : Course → Option ℕ → Thrown → Result (Option Lease)
try_error course limit Thrown.aborted = fail Thrown.aborted
try_error course limit e =
    if is_set limit && (not (is_given course.sets_timeout) && is_statement_timeout e)
    then ok none
    else fail (storage (lease_fault connection_lost))

module _ (hashtext : Text → ℕ) where
  -- after the try block of tryAcquireLease
  unfoldable pub tried :
      Course → Text → Option ℕ → ℕ → Sessions × Result Bool → Sessions × Result (Option Lease)
  unfolding hold clean_up try_error release_connection
  tried course key limit c (w, ok true) =
      (hold c key (is_set limit) w, ok (some (record { key = key; token = w.next_token })))
  tried course key limit c (w, ok false) = (release_connection c w, ok none)
  tried course key limit c (w, fail e) =
      (clean_up course.unlocking (is_set limit) c (hashtext key) w, try_error course limit e)

  -- tryAcquireLease from the reservation on
  unfoldable pub try_on :
      Course → Reservation → Text → Option ℕ → Sessions → Sessions × Result (Option Lease)
  unfolding reserve try_phase tried
  try_on course timed_out key limit w = (w, ok none)
  try_on course reserve_aborted key limit w = (w, fail Thrown.aborted)
  try_on course reserve_error key limit w = (w, fail (storage (lease_fault reserve_failed)))
  try_on course (connection c) key limit w =
      tried course key limit c (try_phase course (is_set limit) c (hashtext key) (reserve c w))

  unfoldable pub try_acquire_lease :
      Course → Text → Option ℕ → Bool → Sessions → Sessions × Result (Option Lease)
  unfolding try_on
  try_acquire_lease course key limit is_aborted w =
      if is_valid_timeout limit
      then (if is_aborted
          then (w, fail Thrown.aborted)
          else try_on course course.reservation key limit w)
      else (w, fail (storage validation_failed))

-- How withLease ends: with fn's value; with an error, that may carry the release fault as its
-- cause; or with an AggregateError of both. The last argument is what onReleaseFault was given.
pub data Outcome (A : Type 0) : Type 0 where
  resolved : A → Option Thrown → Outcome A
  rejected : Thrown → Option Thrown → Option Thrown → Outcome A
  aggregated : Thrown → Thrown → Outcome A

-- `onReleaseFault` is given or not, and fn's error takes a cause or not
unfoldable pub settle_faults : {A : Type 0} → Bool → Bool → Result A → Result (Unit {0}) → Outcome A
settle_faults notifies takes_cause (ok a) (ok u) = resolved a none
settle_faults notifies takes_cause (fail e) (ok u) = rejected e none none
settle_faults true takes_cause (fail e) (fail fault) = rejected e none (some fault)
settle_faults false true (fail e) (fail fault) = rejected e (some fault) none
settle_faults false false (fail e) (fail fault) = aggregated e fault
settle_faults true takes_cause (ok a) (fail fault) = resolved a (some fault)
settle_faults false takes_cause (ok a) (fail fault) = rejected fault none none

module _ (hashtext : Text → ℕ) {A : Type 0} where
  -- fn, then the release
  unfoldable pub run_leased :
      Unlocking
      → Bool
      → Bool
      → (Lease → Sessions → Sessions × Result A)
      → Sessions × Result Lease
      → Sessions × Outcome A
  unfolding settle_faults
  run_leased u notifies takes_cause fn (w, fail e) = (w, rejected e none none)
  run_leased u notifies takes_cause fn (w, ok lease) =
      let (w', r) = fn lease w in
      let (w'', released) = release_lease hashtext u lease w' in
      (w'', settle_faults notifies takes_cause r released)

  unfoldable pub with_lease :
      Course
      → Unlocking
      → Bool
      → Bool
      → Text
      → (Lease → Sessions → Sessions × Result A)
      → Option ℕ
      → Bool
      → Sessions
      → Sessions × Outcome A
  unfolding run_leased
  with_lease course u notifies takes_cause key fn limit is_aborted w =
      run_leased u notifies takes_cause fn (acquire_lease hashtext course key limit is_aborted w)
