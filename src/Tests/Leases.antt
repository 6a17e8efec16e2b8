-- ===== src/Tests/Leases.antt =====
-- The theorems on leases, at a pool from which one lease is held.
use umbra_db.Prelude.{ℕ, ◌≡◌, true, false, [], ◌∷◌, none, some, Text, units, arith, length}
use umbra_db.Errors.{app, Result, ok, fail}
use umbra_db.Lease.{
  Sessions, Lease, Course, connection, granted, aborted_waiting, answered, unlock_failed,
  session_lost, acquire_lease, try_acquire_lease,
}
use umbra_db.Lease.Restores.{IsIdle, OneLease, acquire_lease-OneLease}
use umbra_db.Lease.Tries.{OneOrNone, try_acquire_lease-OneOrNone}
use umbra_db.Lease.Release.{ReleasesOnce, release_lease-ReleasesOnce}

abbrev hashtext : Text → ℕ
hashtext = length

-- connection 1 holds the lock 3 for a lease with the token 0
abbrev pool : Sessions
pool = record {
  locks = (1, 3) ∷ [];
  reserved = 1 ∷ [];
  timeouts = [];
  held = (0, record { reserved = 1; key = units "abc"; had_timeout = false }) ∷ [];
  next_token = 1;
}

-- the lock is granted as the abort lands, and its unlock fails
abbrev late_abort : Course
late_abort = record {
  reservation = connection 2;
  sets_timeout = none;
  locking = aborted_waiting true;
  try_locks = ok true;
  is_aborted_after = true;
  unlocking = unlock_failed true;
}

abbrev smooth : Course
smooth = record late_abort { locking = granted; is_aborted_after = false }

idle : (c : ℕ) → connection 2 ≡ connection c → IsIdle c pool
idle c same = ((ground arith, tt), (ground arith, tt), tt)

acquire_lease-OneLease_example :
    OneLease hashtext late_abort
      (units "w")
      (some 50)
      pool
      (acquire_lease hashtext late_abort (units "w") (some 50) false pool)
acquire_lease-OneLease_example =
    acquire_lease-OneLease hashtext late_abort (units "w") (some 50) false pool idle

try_acquire_lease-OneOrNone_example :
    OneOrNone hashtext smooth
      (units "w")
      none
      pool
      (try_acquire_lease hashtext smooth (units "w") none false pool)
try_acquire_lease-OneOrNone_example =
    try_acquire_lease-OneOrNone hashtext smooth (units "w") none false pool idle

release_lease-ReleasesOnce_example :
    ReleasesOnce hashtext smooth session_lost
      (answered true)
      (some 50)
      pool
      (acquire_lease hashtext smooth (units "w") (some 50) false pool)
release_lease-ReleasesOnce_example =
    release_lease-ReleasesOnce hashtext session_lost (answered true) smooth (units "w") (some 50)
      false pool idle (ground arith, tt)

-- fn throws
abbrev throwing : Lease → Result ℕ
throwing lease = fail (app 1)
