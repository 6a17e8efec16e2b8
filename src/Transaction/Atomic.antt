-- ===== src/Transaction/Atomic.antt =====
-- withTransaction of src/postgres/transaction-lease.ts: the store, the handle and the errors that
-- it leaves.
use umbra_db.Prelude.{
  ◌∙◌, ℕ, ◌≡◌, refl, subst, ◌⊎◌, inl, inr, Bool, true, false, not, ◌&&◌, List, [], ◌∷◌, Option,
  none, some, any, filter, ◌==◌, Bool-cases, arith,
}
use umbra_db.Errors.{
  DriverError, Thrown, storage, driver, rollback, app, value, Result, ok, fail,
  transaction_handle_invalid, validation_failed,
}
use umbra_db.Errors.Translate.{
  is_statement_timeout, is_connection_failure, translate_postgres_error, is_pg_driver_error,
  is_connection_code,
}
use umbra_db.Errors.Translate.Laws.{IsTranslated}
use umbra_db.Exec.{Exec, lift, ◌>>◌, require, run}
use umbra_db.Exec.Steps.{require->>=_true, require->>=_false}
use umbra_db.Transaction.{
  CommitOutcome, committed, refused, unacknowledged, Link, World, TransactionOptions, is_set,
  is_valid_timeout, translate_transaction_error, resolve_transaction, register_transaction,
  unregister_transaction, with_handle, tx_callback, finish, begin, resurface, catching,
  run_transaction, with_transaction,
}

-- the answer to COMMIT was lost
abbrev pub IsLost : CommitOutcome → Type 0
IsLost (unacknowledged e) = Unit
IsLost _ = ⊥

module _ {D : Type 0} where
  -- no transaction is open
  abbrev pub IsClosed : World D → Type 0
  IsClosed w = w.store ≡ w.base

  -- no transaction is open, and what is committed is `d`
  abbrev pub IsSettled : World D → D → Type 0
  IsSettled w d = (w.store ≡ d) × (w.base ≡ d)

-- What a call of a transaction may have done to the committed data `before`, given the outcome of
-- its callback.
module _ {D A : Type 0} where
  abbrev pub Atomic : CommitOutcome → D → World D × Result A → World D → Result A → Type 0
  Atomic commit before inner w' (ok a) = (inner.1 ≡ ok a) × IsSettled w' (inner.0).store
  Atomic commit before inner w' (fail e) =
      IsSettled w' before
      ⊎ IsSettled w' (inner.0).base
      ⊎ (IsLost commit × ((a : A) × (inner.1 ≡ ok a) × IsSettled w' (inner.0).store))

  -- the same for a callback that wrote on the transaction's connection only
  abbrev pub AllOrNone : CommitOutcome → D → World D × Result A → World D → Result A → Type 0
  AllOrNone commit before inner w' (ok a) = (inner.1 ≡ ok a) × IsSettled w' (inner.0).store
  AllOrNone commit before inner w' (fail e) =
      IsSettled w' before
      ⊎ (IsLost commit × ((a : A) × (inner.1 ≡ ok a) × IsSettled w' (inner.0).store))

  pub Atomic-AllOrNone :
      (commit : CommitOutcome) (before : D) (inner : World D × Result A) (w' : World D)
      (r : Result A)
      → inner.0.base ≡ before
      → Atomic commit before inner w' r
      → AllOrNone commit before inner w' r
  Atomic-AllOrNone commit before inner w' (ok a) own h = h
  Atomic-AllOrNone commit before inner w' (fail e) own (inl h) = inl h
  Atomic-AllOrNone commit before inner w' (fail e) own (inr (inl (s, b))) = inl (s ∙ own, b ∙ own)
  Atomic-AllOrNone commit before inner w' (fail e) own (inr (inr h)) = inr h

  resurfaced-Atomic :
      (commit : CommitOutcome) (x : Option DriverError) (before : D) (h : ℕ)
      (inner : World D × Result A)
      → Atomic commit before inner
          (finish commit (resurface x (unregister_transaction h inner.0, inner.1))).0
          (finish commit (resurface x (unregister_transaction h inner.0, inner.1))).1
  unfolding finish unregister_transaction resurface
  resurfaced-Atomic commit none before h (w, fail e) = inr (inl (refl, refl))
  resurfaced-Atomic commit (some x) before h (w, fail e) = inr (inl (refl, refl))
  resurfaced-Atomic commit (some x) before h (w, ok a) = inr (inl (refl, refl))
  resurfaced-Atomic committed none before h (w, ok a) = (refl, (refl, refl))
  resurfaced-Atomic (refused e) none before h (w, ok a) = inr (inl (refl, refl))
  resurfaced-Atomic (unacknowledged e) none before h (w, ok a) =
      inr (inr (tt, (a, refl, (refl, refl))))

  catching-Atomic :
      (commit : CommitOutcome) (before : D) (inner : World D × Result A) (opts : TransactionOptions)
      (out : World D × Result A)
      → Atomic commit before inner out.0 out.1
      → Atomic commit before inner (catching opts out).0 (catching opts out).1
  unfolding catching
  catching-Atomic commit before inner opts (w, ok a) h = h
  catching-Atomic commit before inner opts (w, fail e) h = h

  pub require-Atomic :
      (commit : CommitOutcome) (w : World D) (inner : World D × Result A) (b : Bool) (x : Thrown)
      (m : Exec (World D) A)
      → IsClosed w
      → Atomic commit w.base inner (m w).0 (m w).1
      → Atomic commit w.base inner ((require b x >> m) w).0 ((require b x >> m) w).1
  unfolding run
  require-Atomic commit w inner true x m closed h = h
  require-Atomic commit w inner false x m closed h = inl (closed, refl)

  callback-Atomic :
      (link : Link) (opts : TransactionOptions) (fn : ℕ → Exec (World D) A) (w : World D)
      (swallowed : Option DriverError) (set : Result (Unit {0}))
      → Atomic link.commits w.base
          (fn w.next_handle (register_transaction w))
          (finish link.commits (resurface swallowed ((lift set >> with_handle fn) w))).0
          (finish link.commits (resurface swallowed ((lift set >> with_handle fn) w))).1
  unfolding run with_handle
  callback-Atomic link opts fn w swallowed (ok u) =
      resurfaced-Atomic link.commits swallowed w.base w.next_handle
        (fn w.next_handle (register_transaction w))
  callback-Atomic link opts fn w none (fail e) = unfold finish resurface in inl (refl, refl)
  callback-Atomic link opts fn w (some x) (fail e) = unfold finish resurface in inl (refl, refl)

  begin-Atomic :
      (link : Link) (opts : TransactionOptions) (fn : ℕ → Exec (World D) A) (w : World D)
      (begins : Option DriverError)
      → IsClosed w
      → link.begins ≡ begins
      → Atomic link.commits w.base
          (fn w.next_handle (register_transaction w))
          (begin link (λ w. resurface link.swallowed (tx_callback link opts fn w)) w).0
          (begin link (λ w. resurface link.swallowed (tx_callback link opts fn w)) w).1
  unfolding begin tx_callback
  begin-Atomic link opts fn w none closed e =
      rw (begin, e) (callback-Atomic link opts fn w link.swallowed _)
  begin-Atomic link opts fn w (some x) closed e = rw (begin, e) (inl (closed, refl))

  -- Where no transaction is open, whatever the options, the connection and the callback do, but for
  -- a second transaction inside the callback, which the interface rules out: if the call returns,
  -- the callback returned the same value, and what the callback's transaction saw at its end is
  -- committed; if the call throws, also because the callback swallowed a query's rejection, the
  -- committed data is what it was before, with what the callback wrote outside the transaction if
  -- it ran, and none of what it wrote inside, unless the answer to the COMMIT was lost after the
  -- callback had returned, and then the transaction is committed. In each case no transaction is
  -- open afterwards.
  pub with_transaction-Atomic :
      (link : Link) (opts : TransactionOptions) (is_aborted : Bool) (fn : ℕ → Exec (World D) A)
      (w : World D)
      → IsClosed w
      → Atomic link.commits w.base
          (fn w.next_handle (register_transaction w))
          (with_transaction link opts is_aborted fn w).0
          (with_transaction link opts is_aborted fn w).1
  unfolding with_transaction run_transaction
  with_transaction-Atomic link opts is_aborted fn w closed =
      let inner = fn w.next_handle (register_transaction w) in
      let body = begin link (λ w. resurface link.swallowed (tx_callback link opts fn w)) in
      require-Atomic link.commits w inner _ _ (run_transaction link opts is_aborted fn) closed (
        catching-Atomic link.commits w.base inner opts _ (
          require-Atomic link.commits w inner _ _ body closed
            (begin-Atomic link opts fn w link.begins closed refl)))

-- not the Rollback signal, and nothing raw
abbrev pub IsTyped : Thrown → Type 0
IsTyped (rollback c) = ⊥
IsTyped e = IsTranslated e

driver-IsTyped : (e : DriverError) → IsTyped (translate_postgres_error (driver e) none)
unfolding translate_postgres_error
driver-IsTyped e = elim (Bool-cases (is_pg_driver_error e)) [
  | inl genuine ↦ elim (Bool-cases (is_connection_code e.code)) [
    | inl c ↦ rw (genuine, c) tt
    | inr c ↦ rw (genuine, c) tt
  ]
  | inr other ↦ rw other other
]

translate_transaction_error-IsTyped :
    (opts : TransactionOptions) (x : Thrown) → IsTyped (translate_transaction_error opts x)
unfolding translate_transaction_error is_statement_timeout is_connection_failure
    translate_postgres_error
translate_transaction_error-IsTyped opts (storage e) = tt
translate_transaction_error-IsTyped opts (rollback c) = tt
translate_transaction_error-IsTyped opts Thrown.aborted = tt
translate_transaction_error-IsTyped opts (app n) = tt
translate_transaction_error-IsTyped opts (value n) = tt
translate_transaction_error-IsTyped opts (driver e) =
    elim (Bool-cases (is_statement_timeout (driver e) && is_set opts.timeout_ms)) [
      | inl late ↦ rw (translate_transaction_error, late) tt
      | inr in_time ↦ elim (Bool-cases (is_connection_failure (driver e))) [
        | inl lost ↦ rw (translate_transaction_error, in_time, lost) tt
        | inr connected ↦ rw (translate_transaction_error, in_time, connected) (driver-IsTyped e)
      ]
    ]

unregistered : (h : ℕ) (live : List ℕ) → any (λ i. i == h) (filter (λ i. not (i == h)) live) ≡ false
unregistered h [] = refl
unregistered h (i ∷ live) = ground (arith, unregistered h live)

module _ {D A : Type 0} where
  catching-IsTyped :
      (opts : TransactionOptions) (out : World D × Result A) (e : Thrown)
      → (catching opts out).1 ≡ fail e
      → IsTyped e
  unfolding catching
  catching-IsTyped opts (w, ok a) e h = cc
  catching-IsTyped opts (w, fail x) e h =
      let same : translate_transaction_error opts x ≡ e = cc in
      subst IsTyped same (translate_transaction_error-IsTyped opts x)

  -- Whatever a transaction throws, also where the callback swallowed a query's rejection, is a
  -- typed error or the caller's own: never the Rollback signal, a genuine driver error, or a value
  -- that is no Error.
  pub with_transaction-IsTyped :
      (link : Link) (opts : TransactionOptions) (is_aborted : Bool) (fn : ℕ → Exec (World D) A)
      (w : World D) (e : Thrown)
      → (with_transaction link opts is_aborted fn w).1 ≡ fail e
      → IsTyped e
  unfolding with_transaction run_transaction
  with_transaction-IsTyped link opts is_aborted fn w e h =
      elim (Bool-cases (is_valid_timeout opts.timeout_ms)) [
        | inl valid ↦
            catching-IsTyped opts _ e (
              rw (require->>=_true _ _ (λ _. run_transaction link opts is_aborted fn) w valid) at h)
        | inr invalid ↦
            let same : storage validation_failed ≡ e = cc (
              rw (require->>=_false _ _ (λ _. run_transaction link opts is_aborted fn) w invalid) at
                h) in
            subst IsTyped same tt
      ]

  -- The handle of a transaction ends with it: when `with_handle` is over, whatever the callback did
  -- and however it ended, resolving the handle throws TransactionHandleInvalidError.
  pub handle_ends :
      (fn : ℕ → Exec (World D) A) (w : World D)
      → resolve_transaction w.next_handle (with_handle fn w).0
        ≡ ((with_handle fn w).0, fail (storage (transaction_handle_invalid w.next_handle)))
  unfolding resolve_transaction with_handle unregister_transaction
  handle_ends fn w =
      rw
        (
          resolve_transaction,
          unregistered w.next_handle (fn w.next_handle (register_transaction w)).0.live,
        )
        refl
