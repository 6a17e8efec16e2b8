-- ===== src/Lease/Tries.antt =====
-- What tryAcquireLease of src/postgres/transaction-lease.ts leaves behind.
use umbra_db.Prelude.{
  ℕ, ◌≡◌, refl, ap, ◌∙◌, Bool, true, false, not, ◌&&◌, Option, none, some, Text, Bool-cases, inl,
  inr, if◌then◌else◌,
}
use umbra_db.Errors.{Thrown, storage, driver, rollback, app, value, Result, ok, fail}
use umbra_db.Transaction.{is_set, is_valid_timeout}
use umbra_db.Lease.{
  Sessions, Lease, Reservation, connection, timed_out, reserve_aborted, reserve_error, Course,
  release_connection, reserve, take_lock, clean_up, hold, try_lock, as_locked, try_phase, try_error,
  tried, try_on, try_acquire_lease,
}
use umbra_db.Lease.Restores.{
  IsIdle, used, untimed, clean_up-used, Phased, timed-Phased, leased, put_back, Undone,
}

-- How the try block may end on a connection that was reserved idle: locked, not locked, or failed.
abbrev Tried : Bool → ℕ → ℕ → Sessions → Sessions × Result Bool → Type 0
Tried had c k w (s, ok true) = s ≡ used had true c k w
Tried had c k w (s, ok false) = s ≡ used false false c k w
Tried had c k w (s, fail e) =
    (timed : Bool) × (locked : Bool) × ((timed && not had) ≡ false) × (s ≡ used timed locked c k w)

try_lock-Tried :
    (answer : Result Bool) (is_aborted : Bool) (c k : ℕ) (w : Sessions)
    → Tried false c k w (try_lock answer is_aborted c k (reserve c w))
unfolding try_lock take_lock reserve
try_lock-Tried (fail e) is_aborted c k w = (false, false, refl, refl)
try_lock-Tried (ok false) is_aborted c k w = refl
try_lock-Tried (ok true) true c k w = (false, true, refl, refl)
try_lock-Tried (ok true) false c k w = refl

as_locked-Tried :
    (had : Bool) (c k : ℕ) (w : Sessions) (out : Sessions × Result (Unit {0}))
    → Phased had c k w out
    → Tried had c k w (as_locked out)
unfolding as_locked
as_locked-Tried had c k w (s, ok u) h = h
as_locked-Tried had c k w (s, fail e) h = h

try_phase-Tried :
    (course : Course) (had : Bool) (c k : ℕ) (w : Sessions)
    → Tried had c k w (try_phase course had c k (reserve c w))
unfolding try_phase
try_phase-Tried course true c k w =
    as_locked-Tried true c k w _
      (timed-Phased course.sets_timeout course.locking course.is_aborted_after c k w)
try_phase-Tried course false c k w = try_lock-Tried course.try_locks course.is_aborted_after c k w

module _ (hashtext : Text → ℕ) where
  -- undone, or there is one more lease, which is the one that was returned
  abbrev pub OneOrNone :
      Course → Text → Option ℕ → Sessions → Sessions × Result (Option Lease) → Type 0
  OneOrNone course key limit w (s, fail e) = Undone hashtext course key limit w s
  OneOrNone course key limit w (s, ok none) = Undone hashtext course key limit w s
  OneOrNone course key limit w (s, ok (some lease)) =
      (c : ℕ) × (course.reservation ≡ connection c)
      × (s ≡ leased hashtext c key limit w)
      × (lease ≡ record { key = key; token = w.next_token })

  null_or_fault :
      (course : Course) (key : Text) (limit : Option ℕ) (w s : Sessions) (timed : Bool) (e : Thrown)
      → Undone hashtext course key limit w s
      → OneOrNone course key limit w (s, (if timed then ok none else fail e))
  null_or_fault course key limit w s true e h = h
  null_or_fault course key limit w s false e h = h

  given_up :
      (course : Course) (key : Text) (limit : Option ℕ) (w s : Sessions) (e : Thrown)
      → Undone hashtext course key limit w s
      → OneOrNone course key limit w (s, try_error course limit e)
  unfolding try_error
  given_up course key limit w s Thrown.aborted h = h
  given_up course key limit w s (storage x) h = null_or_fault course key limit w s _ _ h
  given_up course key limit w s (driver x) h = null_or_fault course key limit w s _ _ h
  given_up course key limit w s (rollback x) h = null_or_fault course key limit w s _ _ h
  given_up course key limit w s (app x) h = null_or_fault course key limit w s _ _ h
  given_up course key limit w s (value x) h = null_or_fault course key limit w s _ _ h

  tried-OneOrNone :
      (course : Course) (key : Text) (limit : Option ℕ) (c : ℕ) (w : Sessions)
      → course.reservation ≡ connection c
      → IsIdle c w
      → (out : Sessions × Result Bool) → Tried (is_set limit) c (hashtext key) w out
      → OneOrNone course key limit w (tried hashtext course key limit c out)
  unfolding tried hold release_connection
  tried-OneOrNone course key limit c w from idle (s, ok true) h = (c, from, rw h refl, rw h refl)
  tried-OneOrNone course key limit c w from idle (s, ok false) h = inl (
      rw h (put_back w w.locks _ w.timeouts refl (untimed true true c w.reserved idle.0 refl) refl))
  tried-OneOrNone course key limit c w from idle (s, fail e) (timed, locked, only, h) =
      given_up course key limit w _ e (
        inr (
          c,
          timed,
          locked,
          from,
          only,
          ap (clean_up course.unlocking (is_set limit) c (hashtext key)) h
              ∙ clean_up-used course.unlocking (is_set limit) timed locked c (hashtext key) w idle
                  only,
        ))

  try_on-OneOrNone :
      (course : Course) (r : Reservation) (key : Text) (limit : Option ℕ) (w : Sessions)
      → course.reservation ≡ r
      → ((c : ℕ) → r ≡ connection c → IsIdle c w)
      → OneOrNone course key limit w (try_on hashtext course r key limit w)
  unfolding try_on
  try_on-OneOrNone course timed_out key limit w from idle = inl refl
  try_on-OneOrNone course reserve_aborted key limit w from idle = inl refl
  try_on-OneOrNone course reserve_error key limit w from idle = inl refl
  try_on-OneOrNone course (connection c) key limit w from idle =
      tried-OneOrNone course key limit c w from (idle c refl) _
        (try_phase-Tried course (is_set limit) c (hashtext key) w)

  -- Whatever the pool, the server and the abort signal do, if the pool gives only idle connections:
  -- a tryAcquireLease that throws, or gives null, leaves the connections, the locks, the session
  -- timeouts and the held leases exactly as they were, but for the lock if its unlock failed in a
  -- session that lives on, and the session's timeout if its RESET did; one that gives a lease has
  -- added one connection, its lock, its timeout if one was asked for, and that lease, under a new
  -- token.
  pub try_acquire_lease-OneOrNone :
      (course : Course) (key : Text) (limit : Option ℕ) (is_aborted : Bool) (w : Sessions)
      → ((c : ℕ) → course.reservation ≡ connection c → IsIdle c w)
      → OneOrNone course key limit w (try_acquire_lease hashtext course key limit is_aborted w)
  unfolding try_acquire_lease
  try_acquire_lease-OneOrNone course key limit is_aborted w idle =
      elim (Bool-cases (is_valid_timeout limit)) [
        | inr invalid ↦ rw invalid (inl refl)
        | inl valid ↦ elim (Bool-cases is_aborted) [
          | inl gone ↦ rw (valid, gone) (inl refl)
          | inr live ↦
              rw (valid, live) (try_on-OneOrNone course course.reservation key limit w refl idle)
        ]
      ]
