-- ===== src/Lease/Scope.antt =====
-- withLease of src/postgres/transaction-lease.ts: the lease around a call of fn, and what becomes
-- of the errors of both.
use umbra_db.Prelude.{ℕ, ◌≡◌, Bool, true, false, Option, none, some, Text}
use umbra_db.Errors.{Result, ok, fail}
use umbra_db.Lease.{
  Sessions, Lease, Unlocking, Course, connection, release_answer, Outcome, resolved, rejected,
  aggregated,
}
use umbra_db.Lease.Restores.{leftover}
use umbra_db.Transaction.{is_set}
use umbra_db.Lease.Release.{token_spent}

module _ {A : Type 0} where
  -- How withLease must end, from whether the caller gave onReleaseFault (`notifies`), whether fn's
  -- error can take a cause, what fn did and what the release did.
  abbrev pub Surfaced : Bool → Bool → Result A → Result (Unit {0}) → Outcome A → Type 0
  Surfaced notifies takes_cause (ok a) (ok u) out = out ≡ resolved a none
  Surfaced notifies takes_cause (fail e) (ok u) out = out ≡ rejected e none none
  Surfaced true takes_cause (ok a) (fail f) out = out ≡ resolved a (some f)
  Surfaced false takes_cause (ok a) (fail f) out = out ≡ rejected f none none
  Surfaced true takes_cause (fail e) (fail f) out = out ≡ rejected e none (some f)
  Surfaced false true (fail e) (fail f) out = out ≡ rejected e (some f) none
  Surfaced false false (fail e) (fail f) out = out ≡ aggregated e f

  module _ (hashtext : Text → ℕ) where
    -- no lease was acquired and withLease ends with that error, or fn ran with the lease and it is
    -- gone
    abbrev pub Scoped :
        Course
        → Unlocking
        → Bool
        → Bool
        → (Lease → Result A)
        → Option ℕ
        → Sessions
        → Sessions × Result Lease
        → Sessions × Outcome A
        → Type 0
    Scoped course u notifies takes_cause fn limit w (s, fail e) out =
        out ≡ (s, rejected e none none)
    Scoped course u notifies takes_cause fn limit w (s, ok lease) out =
        ((c : ℕ) × (course.reservation ≡ connection c)
          × (out.0 ≡ leftover u (is_set limit) true c (hashtext lease.key) (token_spent w)))
        × Surfaced notifies takes_cause (fn lease) (release_answer u) out.1
