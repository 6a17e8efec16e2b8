-- ===== src/Transaction/Begin.antt =====
-- A transaction that an adapter opens itself, by postgres.js's `sql.begin` (as writeOwnTransaction
-- of src/postgres/transaction-history-storage.ts does).
use umbra_db.Prelude.{◌≡◌, refl, Option, none, some, Text, inl, inr}
use umbra_db.Errors.{DriverError, Result, ok, fail}
use umbra_db.Exec.{Exec, translating, run}
use umbra_db.Transaction.{
  CommitOutcome, committed, refused, unacknowledged, Link, World, finish, begin,
}
use umbra_db.Transaction.Atomic.{Atomic, IsClosed}

module _ {D A : Type 0} where
  finish-own :
      (commit : CommitOutcome) (before : D) (inner : World D × Result A)
      → Atomic commit before inner (finish commit inner).0 (finish commit inner).1
  unfolding finish
  finish-own commit before (w, fail e) = inr (inl (refl, refl))
  finish-own committed before (w, ok a) = (refl, (refl, refl))
  finish-own (refused e) before (w, ok a) = inr (inl (refl, refl))
  finish-own (unacknowledged e) before (w, ok a) = inr (inr (tt, (a, refl, (refl, refl))))

  begin-own :
      (link : Link) (callback : Exec (World D) A) (w : World D) (begins : Option DriverError)
      → IsClosed w
      → link.begins ≡ begins
      → Atomic link.commits w.base (callback w) (begin link callback w).0 (begin link callback w).1
  unfolding begin finish
  begin-own link callback w none closed e =
      rw (begin, e) (finish-own link.commits w.base (callback w))
  begin-own link callback w (some x) closed e = rw (begin, e) (inl (closed, refl))

  translated-Atomic :
      (commit : CommitOutcome) (before : D) (inner : World D × Result A)
      (k : Option (Text × Text × Text)) (out : World D × Result A)
      → Atomic commit before inner out.0 out.1
      → Atomic commit before inner
          (translating {S = World D} k (λ _. out) out.0).0
          (translating {S = World D} k (λ _. out) out.0).1
  unfolding run
  translated-Atomic commit before inner k (w, ok a) h = h
  translated-Atomic commit before inner k (w, fail e) h = h

  -- a translated `sql.begin` is all or nothing
  pub begin-Atomic :
      (link : Link) (k : Option (Text × Text × Text)) (callback : Exec (World D) A) (w : World D)
      → IsClosed w
      → Atomic link.commits w.base
          (callback w)
          (translating k (begin link callback) w).0
          (translating k (begin link callback) w).1
  unfolding run
  begin-Atomic link k callback w closed =
      translated-Atomic link.commits w.base (callback w) k (begin link callback w)
        (begin-own link callback w link.begins closed refl)

  -- on a connection that works, it gives what the callback gave, committed
  pub begin_ok :
      (link : Link) (callback : Exec (World D) A) (w : World D) {w' : World D} {a : A}
      → link.begins ≡ none
      → link.commits ≡ committed
      → callback w ≡ (w', ok a)
      → begin link callback w ≡ (record w' { base = w'.store }, ok a)
  unfolding begin finish
  begin_ok link callback w b c h = rw (b, c, h) refl
