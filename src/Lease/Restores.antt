-- ===== src/Lease/Restores.antt =====
-- What acquireLease and tryAcquireLease of src/postgres/transaction-lease.ts leave behind:
-- connections, locks, session timeouts and heldLeases.
use umbra_db.Prelude.{
  ℕ, suc, ◌≡◌, refl, ap, ◌∙◌, Bool, true, false, not, ◌&&◌, List, [], ◌∷◌, Option, none, some, Text,
  ◌==◌, filter, filter_all, All, All-map, arith, if◌then◌else◌, Bool-cases, inl, inr, ◌⊎◌, nat_eq,
}
use umbra_db.Errors.{DriverError, Result, ok, fail}
use umbra_db.Transaction.{is_set, is_valid_timeout}
use umbra_db.Lease.{
  Sessions, Lease, Reservation, connection, timed_out, reserve_aborted, reserve_error, LockAnswer,
  granted, refused, aborted_waiting, Unlocking, answered, unlock_failed, session_lost, is_reset,
  Course, remove_one, unlock, reset_statement_timeout, release_connection, reserve,
  set_statement_timeout, take_lock, clean_up, wait_for_lock, lock_in_time, lock_phase, hold,
  acquired, acquire_on, acquire_lease,
}

-- a connection that is not in use: it is in the pool, and its session has no lock and no timeout
abbrev pub IsIdle : ℕ → Sessions → Type 0
IsIdle c w =
    All (λ d. (d == c) ≡ false) w.reserved
    × All (λ (l : ℕ × ℕ). (l.0 == c) ≡ false) w.locks
    × All (λ d. (d == c) ≡ false) w.timeouts

-- what an acquisition may have done to an idle connection
abbrev pub used : Bool → Bool → ℕ → ℕ → Sessions → Sessions
used timed locked c k w = record w {
  reserved = c ∷ w.reserved;
  timeouts = if timed then c ∷ w.timeouts else w.timeouts;
  locks = if locked then (c, k) ∷ w.locks else w.locks;
}

others : (c : ℕ) (ds : List ℕ) → All (λ d. (d == c) ≡ false) ds → filter (λ d. not (d == c)) ds ≡ ds
others c ds h = filter_all (λ d. not (d == c)) ds (All-map (λ d e. ap not e) ds h)

other_locks :
    (c : ℕ) (ls : List (ℕ × ℕ))
    → All (λ l. (l.0 == c) ≡ false) ls
    → filter (λ (l : ℕ × ℕ). not (l.0 == c)) ls ≡ ls
other_locks c ls h = filter_all (λ l. not (l.0 == c)) ls (All-map (λ l e. ap not e) ls h)

not_there :
    (c k : ℕ) (ls : List (ℕ × ℕ)) → All (λ l. (l.0 == c) ≡ false) ls → remove_one (c, k) ls ≡ ls
not_there c k [] h = refl
not_there c k (l ∷ ls) h = rw (h.0, not_there c k ls h.1) refl

same : (c : ℕ) → (c == c) ≡ true
same c = ground arith

abbrev after_unlock : Unlocking → ℕ → ℕ → List (ℕ × ℕ) → List (ℕ × ℕ)
after_unlock (answered resets) c k ls = remove_one (c, k) ls
after_unlock (unlock_failed resets) c k ls = ls
after_unlock session_lost c k ls = filter (λ (l : ℕ × ℕ). not (l.0 == c)) ls

abbrev after_reset : Bool → ℕ → List ℕ → List ℕ
after_reset true c ds = filter (λ d. not (d == c)) ds
after_reset false c ds = ds

abbrev pub idle_again : ℕ → List ℕ → List ℕ
idle_again c ds = filter (λ d. not (d == c)) ds

clean_up_parts :
    (u : Unlocking) (had : Bool) (c k : ℕ) (w : Sessions)
    → clean_up u had c k w ≡ record w {
      locks = after_unlock u c k w.locks;
      reserved = idle_again c w.reserved;
      timeouts = after_reset (had && is_reset u) c w.timeouts;
    }
unfolding clean_up unlock reset_statement_timeout release_connection
clean_up_parts (answered true) true c k w = refl
clean_up_parts (answered false) true c k w = refl
clean_up_parts (answered resets) false c k w = refl
clean_up_parts (unlock_failed true) true c k w = refl
clean_up_parts (unlock_failed false) true c k w = refl
clean_up_parts (unlock_failed resets) false c k w = refl
clean_up_parts session_lost true c k w = refl
clean_up_parts session_lost false c k w = refl

-- a clean-up that leaves the lock in its session
abbrev pub keeps_lock : Unlocking → Bool
keeps_lock (answered resets) = false
keeps_lock (unlock_failed resets) = true
keeps_lock session_lost = false

-- What a clean-up leaves behind of a connection whose timeout was set (`timed`) and whose lock was
-- granted (`locked`): nothing, but for the lock if the unlock failed in a live session, and the
-- timeout if the RESET did.
abbrev pub leftover : Unlocking → Bool → Bool → ℕ → ℕ → Sessions → Sessions
leftover u timed locked c k w = record w {
  locks = if keeps_lock u && locked then (c, k) ∷ w.locks else w.locks;
  timeouts = if not (is_reset u) && timed then c ∷ w.timeouts else w.timeouts;
}

unlocked :
    (u : Unlocking) (locked : Bool) (c k : ℕ) (ls : List (ℕ × ℕ))
    → All (λ l. (l.0 == c) ≡ false) ls
    → after_unlock u c k (if locked then (c, k) ∷ ls else ls)
      ≡ (if keeps_lock u && locked then (c, k) ∷ ls else ls)
unlocked (answered resets) true c k ls h = rw (same c, same k) refl
unlocked (answered resets) false c k ls h = not_there c k ls h
unlocked (unlock_failed resets) locked c k ls h = refl
unlocked session_lost true c k ls h = rw (same c, other_locks c ls h) refl
unlocked session_lost false c k ls h = other_locks c ls h

pub untimed :
    (had timed : Bool) (c : ℕ) (ds : List ℕ)
    → All (λ d. (d == c) ≡ false) ds
    → (timed && not had) ≡ false
    → after_reset had c (if timed then c ∷ ds else ds) ≡ ds
untimed true true c ds h only = rw (same c, others c ds h) refl
untimed true false c ds h only = others c ds h
untimed false true c ds h only = cc
untimed false false c ds h only = refl

reset_or_kept :
    (resets had timed : Bool) (c : ℕ) (ds : List ℕ)
    → All (λ d. (d == c) ≡ false) ds
    → (timed && not had) ≡ false
    → after_reset (had && resets) c (if timed then c ∷ ds else ds)
      ≡ (if not resets && timed then c ∷ ds else ds)
reset_or_kept true true timed c ds h only = untimed true timed c ds h only
reset_or_kept true false timed c ds h only = untimed false timed c ds h only
reset_or_kept false true timed c ds h only = refl
reset_or_kept false false timed c ds h only = refl

pub put_back :
    (w : Sessions) (ls : List (ℕ × ℕ)) (rs ts : List ℕ)
    → ls ≡ w.locks
    → rs ≡ w.reserved
    → ts ≡ w.timeouts
    → record w { locks = ls; reserved = rs; timeouts = ts } ≡ w
put_back w ls rs ts l r t = rw (l, r, t) refl

pub clean_up-used :
    (u : Unlocking) (had timed locked : Bool) (c k : ℕ) (w : Sessions)
    → IsIdle c w
    → (timed && not had) ≡ false
    → clean_up u had c k (used timed locked c k w) ≡ leftover u timed locked c k w
clean_up-used u had timed locked c k w idle only =
    clean_up_parts u had c k (used timed locked c k w)
    ∙ put_back (leftover u timed locked c k w) _ _ _ (unlocked u locked c k w.locks idle.1)
        (untimed true true c w.reserved idle.0 refl)
        (reset_or_kept (is_reset u) had timed c w.timeouts idle.2 only)

-- How a lock phase may end on a connection that was reserved idle: locked, or failed in some state.
abbrev pub Phased : Bool → ℕ → ℕ → Sessions → Sessions × Result (Unit {0}) → Type 0
Phased had c k w (s, ok a) = s ≡ used had true c k w
Phased had c k w (s, fail e) =
    (timed : Bool) × (locked : Bool) × ((timed && not had) ≡ false) × (s ≡ used timed locked c k w)

wait-Phased :
    (answer : LockAnswer) (is_aborted had : Bool) (c k : ℕ) (w : Sessions)
    → Phased had c k w (wait_for_lock answer is_aborted c k (used had false c k w))
unfolding wait_for_lock take_lock
wait-Phased granted true true c k w = (true, true, refl, refl)
wait-Phased granted true false c k w = (false, true, refl, refl)
wait-Phased granted false had c k w = refl
wait-Phased (refused e) is_aborted true c k w = (true, false, refl, refl)
wait-Phased (refused e) is_aborted false c k w = (false, false, refl, refl)
wait-Phased (aborted_waiting true) is_aborted true c k w = (true, true, refl, refl)
wait-Phased (aborted_waiting true) is_aborted false c k w = (false, true, refl, refl)
wait-Phased (aborted_waiting false) is_aborted true c k w = (true, false, refl, refl)
wait-Phased (aborted_waiting false) is_aborted false c k w = (false, false, refl, refl)

pub timed-Phased :
    (sets : Option DriverError) (answer : LockAnswer) (is_aborted : Bool) (c k : ℕ) (w : Sessions)
    → Phased true c k w (lock_in_time sets answer is_aborted c k (reserve c w))
unfolding lock_in_time set_statement_timeout reserve
timed-Phased (some e) answer is_aborted c k w = (false, false, refl, refl)
timed-Phased none answer is_aborted c k w = wait-Phased answer is_aborted true c k w

lock_phase-Phased :
    (course : Course) (had : Bool) (c k : ℕ) (w : Sessions)
    → Phased had c k w (lock_phase course had c k (reserve c w))
unfolding lock_phase reserve
lock_phase-Phased course true c k w =
    timed-Phased course.sets_timeout course.locking course.is_aborted_after c k w
lock_phase-Phased course false c k w =
    wait-Phased course.locking course.is_aborted_after false c k w

module _ (hashtext : Text → ℕ) where
  -- the sessions with one more lease, on the connection `c`
  abbrev pub leased : ℕ → Text → Option ℕ → Sessions → Sessions
  leased c key limit w = record {
    locks = (c, hashtext key) ∷ w.locks;
    reserved = c ∷ w.reserved;
    timeouts = if is_set limit then c ∷ w.timeouts else w.timeouts;
    held = (w.next_token, record { reserved = c; key = key; had_timeout = is_set limit }) ∷ w.held;
    next_token = suc w.next_token;
  }

  -- nothing changed, or a connection was used and cleaned up
  abbrev pub Undone : Course → Text → Option ℕ → Sessions → Sessions → Type 0
  Undone course key limit w s =
      (s ≡ w)
      ⊎ ((c : ℕ) × (timed : Bool) × (locked : Bool) × (course.reservation ≡ connection c)
          × ((timed && not (is_set limit)) ≡ false)
          × (s ≡ leftover course.unlocking timed locked c (hashtext key) w))

  -- undone, or there is one more lease, which is the one that was returned
  abbrev pub OneLease : Course → Text → Option ℕ → Sessions → Sessions × Result Lease → Type 0
  OneLease course key limit w (s, fail e) = Undone course key limit w s
  OneLease course key limit w (s, ok lease) =
      (c : ℕ) × (course.reservation ≡ connection c)
      × (s ≡ leased c key limit w)
      × (lease ≡ record { key = key; token = w.next_token })

  acquired-OneLease :
      (course : Course) (key : Text) (limit : Option ℕ) (c : ℕ) (w : Sessions)
      → course.reservation ≡ connection c
      → IsIdle c w
      → (out : Sessions × Result (Unit {0})) → Phased (is_set limit) c (hashtext key) w out
      → OneLease course key limit w (acquired hashtext course key limit c out)
  unfolding acquired hold
  acquired-OneLease course key limit c w from idle (s, ok u) h = (c, from, rw h refl, rw h refl)
  acquired-OneLease course key limit c w from idle (s, fail e) (timed, locked, only, h) = inr (
    c,
    timed,
    locked,
    from,
    only,
    ap (clean_up course.unlocking (is_set limit) c (hashtext key)) h
        ∙ clean_up-used course.unlocking (is_set limit) timed locked c (hashtext key) w idle only,
  )

  acquire_on-OneLease :
      (course : Course) (r : Reservation) (key : Text) (limit : Option ℕ) (w : Sessions)
      → course.reservation ≡ r
      → ((c : ℕ) → r ≡ connection c → IsIdle c w)
      → OneLease course key limit w (acquire_on hashtext course r key limit w)
  unfolding acquire_on
  acquire_on-OneLease course timed_out key limit w from idle = inl refl
  acquire_on-OneLease course reserve_aborted key limit w from idle = inl refl
  acquire_on-OneLease course reserve_error key limit w from idle = inl refl
  acquire_on-OneLease course (connection c) key limit w from idle =
      acquired-OneLease course key limit c w from (idle c refl) _
        (lock_phase-Phased course (is_set limit) c (hashtext key) w)

  -- Whatever the pool, the server and the abort signal do, if the pool gives only idle connections:
  -- an acquireLease that throws leaves the connections, the locks, the session timeouts and the
  -- held leases exactly as they were, also where the lock was granted as the abort landed, but for
  -- the lock if its unlock failed in a session that lives on, and the session's timeout if its
  -- RESET did; one that returns has added one connection, its lock, its timeout if one was asked
  -- for, and the lease that it returns, under a new token.
  pub acquire_lease-OneLease :
      (course : Course) (key : Text) (limit : Option ℕ) (is_aborted : Bool) (w : Sessions)
      → ((c : ℕ) → course.reservation ≡ connection c → IsIdle c w)
      → OneLease course key limit w (acquire_lease hashtext course key limit is_aborted w)
  unfolding acquire_lease
  acquire_lease-OneLease course key limit is_aborted w idle =
      elim (Bool-cases (is_valid_timeout limit)) [
        | inr invalid ↦ rw invalid (inl refl)
        | inl valid ↦ elim (Bool-cases is_aborted) [
          | inl gone ↦ rw (valid, gone) (inl refl)
          | inr live ↦
              rw (valid, live) (acquire_on-OneLease course course.reservation key limit w refl idle)
        ]
      ]
