-- ===== src/Lease/Release.antt =====
-- releaseLease and withLease of src/postgres/transaction-lease.ts.
use umbra_db.Prelude.{
  ℕ, suc, ◌≡◌, ◌<◌, refl, ap, ◌∙◌, Bool, true, false, not, ◌&&◌, [], ◌∷◌, Option, none, some, Text,
  ◌==◌, All, nat_eq, arith,
}
use umbra_db.Table.{Table, lookup, delete_where}
use umbra_db.Errors.{storage, lease_not_held, Result, ok, fail}
use umbra_db.Transaction.{is_set}
use umbra_db.Lease.{
  HeldLease, Sessions, Lease, Unlocking, Course, connection, clean_up, release_answer, release_held,
  release_found, release_lease, acquire_lease,
}
use umbra_db.Lease.Restores.{
  IsIdle, clean_up-used, leftover, leased, OneLease, acquire_lease-OneLease,
}

-- every token was given out
abbrev pub AreIssued : Sessions → Type 0
AreIssued w = All (λ (h : ℕ × HeldLease). h.0 < w.next_token) w.held

-- the sessions with the next token only
abbrev pub token_spent : Sessions → Sessions
token_spent w = record w { next_token = suc w.next_token }

fresh_lookup : (n : ℕ) (hs : Table ℕ HeldLease) → All (λ h. h.0 < n) hs → lookup n hs ≡ none
unfolding lookup
fresh_lookup n [] h = refl
fresh_lookup n ((t, x) ∷ hs) h = ground (arith, fresh_lookup n hs h.1)

fresh_delete :
    (n : ℕ) (hs : Table ℕ HeldLease)
    → All (λ h. h.0 < n) hs
    → delete_where (λ t held. t == n) hs ≡ hs
unfolding delete_where
fresh_delete n [] h = refl
fresh_delete n ((t, x) ∷ hs) h = ground (arith, fresh_delete n hs h.1)

own : (b : Bool) → (b && not b) ≡ false
own true = refl
own false = refl

module _ (hashtext : Text → ℕ) where
  -- releasing the newest lease
  release_leased :
      (u : Unlocking) (c : ℕ) (key : Text) (limit : Option ℕ) (w : Sessions)
      → IsIdle c w
      → AreIssued w
      → release_lease hashtext u
          (record { key = key; token = w.next_token })
          (leased hashtext c key limit w)
        ≡ (leftover u (is_set limit) true c (hashtext key) (token_spent w), release_answer u)
  unfolding release_lease release_found release_held lookup delete_where
  release_leased u c key limit w idle issued =
      let s = leased hashtext c key limit w in
      let h : HeldLease = record { reserved = c; key = key; had_timeout = is_set limit } in
      let token : (w.next_token == w.next_token) ≡ true = ground arith in
      let found : lookup w.next_token s.held ≡ some h = rw token refl in
      let deleted : delete_where (λ t held. t == w.next_token) s.held ≡ w.held =
        rw token (fresh_delete w.next_token w.held issued) in
      ap (λ o. release_found hashtext u (record { key = key; token = w.next_token }) o s) found
      ∙ ap
          (λ hs.
            (clean_up u (is_set limit) c (hashtext key) (record s { held = hs }), release_answer u))
          deleted
      ∙ ap (λ t. (t, release_answer u))
          (clean_up-used u (is_set limit) (is_set limit) true c (hashtext key) (token_spent w) idle
            (own (is_set limit)))

  -- a second release
  release_again :
      (u u' : Unlocking) (timed : Bool) (c : ℕ) (key : Text) (w : Sessions)
      → AreIssued w
      → release_lease hashtext u'
          (record { key = key; token = w.next_token })
          (leftover u timed true c (hashtext key) (token_spent w))
        ≡ (
          leftover u timed true c (hashtext key) (token_spent w),
          fail (storage (lease_not_held key)),
        )
  unfolding release_lease release_found
  release_again u u' timed c key w issued = rw (fresh_lookup w.next_token w.held issued) refl

  -- The release of the lease that an acquisition returned, and a second release of it.
  abbrev pub ReleasesOnce :
      Course → Unlocking → Unlocking → Option ℕ → Sessions → Sessions × Result Lease → Type 0
  ReleasesOnce course u u' limit w (s, fail e) = Unit
  ReleasesOnce course u u' limit w (s, ok lease) =
      (c : ℕ) × (course.reservation ≡ connection c)
      × (release_lease hashtext u lease s ≡ (
        leftover u (is_set limit) true c (hashtext lease.key) (token_spent w),
        release_answer u,
      ))
      × (release_lease hashtext u' lease
            (leftover u (is_set limit) true c (hashtext lease.key) (token_spent w))
          ≡ (
            leftover u (is_set limit) true c (hashtext lease.key) (token_spent w),
            fail (storage (lease_not_held lease.key)),
          ))

  leased-ReleasesOnce :
      (u u' : Unlocking) (course : Course) (key : Text) (limit : Option ℕ) (w : Sessions)
      (out : Sessions × Result Lease)
      → ((c : ℕ) → course.reservation ≡ connection c → IsIdle c w)
      → AreIssued w
      → OneLease hashtext course key limit w out
      → ReleasesOnce course u u' limit w out
  leased-ReleasesOnce u u' course key limit w (s, fail e) idle issued h = tt
  leased-ReleasesOnce u u' course key limit w (s, ok lease) idle issued (c, from, added, given) =
      rw (added, given)
        (
          c,
          from,
          release_leased u c key limit w (idle c from) issued,
          release_again u u' (is_set limit) c key w issued,
        )

  -- If the pool gives only idle connections and the held leases have tokens that were given out:
  -- the release of a lease that acquireLease returned puts the connections, the locks, the session
  -- timeouts and the held leases back exactly as they were before the acquisition, but for the lock
  -- if the unlock failed in a session that lives on, and the session's timeout if its RESET did; it
  -- returns if the unlock was answered and throws LeaseFaultError with "connection-lost" if not; a
  -- second release of it throws LeaseNotHeldError and changes nothing.
  pub release_lease-ReleasesOnce :
      (u u' : Unlocking) (course : Course) (key : Text) (limit : Option ℕ) (is_aborted : Bool)
      (w : Sessions)
      → ((c : ℕ) → course.reservation ≡ connection c → IsIdle c w)
      → AreIssued w
      → ReleasesOnce course u u' limit w (acquire_lease hashtext course key limit is_aborted w)
  release_lease-ReleasesOnce u u' course key limit is_aborted w idle issued =
      leased-ReleasesOnce u u' course key limit w _ idle issued
        (acquire_lease-OneLease hashtext course key limit is_aborted w idle)
