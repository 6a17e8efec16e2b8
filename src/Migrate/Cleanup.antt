-- ===== src/Migrate/Cleanup.antt =====
-- What runMigrationsImpl of src/postgres/migrate.ts leaves on its connection.
use umbra_db.Prelude.{
  sym, ◌≡◌, refl, Bool, true, false, List, Option, none, some, ℕ, Text, Bool-cases, inl, inr,
}
use umbra_db.Errors.{DriverError, Thrown, Result, ok, fail}
use umbra_db.Transaction.{is_valid_timeout}
use umbra_db.Migrate.{
  lock_schema, lock_callback, Db, Migration, Run, Call, failing, release, guarded, when_ok,
  MigrationSession, acquire_lock, still_failing, finally, on_database, reset_search_path, in_schema,
  unlock_if, give_back, under_lock, run_migrations_impl, migrate,
}

module _ {X : Type 0} where
  -- the search_path is the connection's own, and lockHeld says what the session has
  abbrev InStep : MigrationSession X → Type 0
  InStep w = (w.is_widened ≡ false) × (w.lock_held ≡ w.has_lock)

  -- back in the pool, without the lock and with its own search_path
  abbrev pub IsClean : MigrationSession X → Type 0
  IsClean w = (w.has_lock ≡ false) × (w.is_widened ≡ false) × (w.is_reserved ≡ false)

  guarded-InStep :
      (o : Option DriverError) (m : Call (MigrationSession X)) (w : MigrationSession X)
      → InStep w
      → InStep (m w).0
      → InStep (guarded o m w).0
  unfolding guarded
  guarded-InStep none m w is h = h
  guarded-InStep (some e) m w is h = is

  still_failing-after :
      (e : Thrown) (Good : MigrationSession X → Type 0)
      (out : MigrationSession X × Result (Unit {0}))
      → Good out.0
      → Good (still_failing e out).0
  still_failing-after e Good (w, ok u) h = h
  still_failing-after e Good (w, fail e') h = h

  -- what a clean-up gives, whichever way the call before it ended
  finally-after :
      (cleanup : Call (MigrationSession X)) (Good : MigrationSession X → Type 0)
      (out : MigrationSession X × Result (Unit {0}))
      → Good (cleanup out.0).0
      → Good (finally cleanup out).0
  unfolding finally
  finally-after cleanup Good (w, ok u) h = h
  finally-after cleanup Good (w, fail e) h = still_failing-after e Good (cleanup w) h

  on_database-same :
      (m : Call (Db X)) (w : MigrationSession X)
      → w.lock_held ≡ w.has_lock
      → (on_database m w).0.lock_held ≡ (on_database m w).0.has_lock
  unfolding on_database
  on_database-same m w is = is

  narrowed-InStep :
      (o : Option DriverError) (w : MigrationSession X)
      → o ≡ none
      → w.lock_held ≡ w.has_lock
      → InStep
          (guarded o (λ (w : MigrationSession X). (record w { is_widened = false }, ok tt)) w).0
  unfolding guarded
  narrowed-InStep none w resets is = (refl, is)
  narrowed-InStep (some e) w resets is = absurd (cc resets)

  in_schema-InStep :
      (c : Run) (ms : List (Migration X)) (w : MigrationSession X)
      → c.resets_search_path ≡ none
      → InStep w
      → InStep (in_schema c ms w).0
  unfolding in_schema reset_search_path guarded
  in_schema-InStep c ms w resets is = guarded-InStep c.sets_search_path _ w is (
      finally-after (reset_search_path c) InStep
        (on_database (migrate c ms) (record w { is_widened = true }))
        (narrowed-InStep c.resets_search_path _ resets
          (on_database-same (migrate c ms) (record w { is_widened = true }) is.1)))

  failing-InStep :
      (f : Thrown → Thrown) (out : MigrationSession X × Result (Unit {0}))
      → InStep out.0
      → InStep (failing f out).0
  failing-InStep f (w, ok u) h = h
  failing-InStep f (w, fail e) h = h

  when_ok-InStep :
      (rest : Call (MigrationSession X)) (out : MigrationSession X × Result (Unit {0}))
      → InStep out.0
      → ((w : MigrationSession X) → InStep w → InStep (rest w).0)
      → InStep (when_ok rest out).0
  unfolding when_ok
  when_ok-InStep rest (w, ok u) is h = h w is
  when_ok-InStep rest (w, fail e) is h = is

  -- lockHeld is set as soon as the lock is granted
  locked-InStep :
      (o : Option DriverError) (w : MigrationSession X)
      → InStep w
      → InStep
          (when_ok
            (λ w. (record w { lock_held = true }, ok tt))
            (guarded o (λ (w : MigrationSession X). (record w { has_lock = true }, ok tt)) w)).0
  unfolding when_ok guarded
  locked-InStep none w is = (is.0, refl)
  locked-InStep (some e) w is = is

  acquire_lock-InStep : (c : Run) (w : MigrationSession X) → InStep w → InStep (acquire_lock c w).0
  unfolding acquire_lock lock_callback lock_schema
  acquire_lock-InStep c w is = guarded-InStep c.begins_lock _ w is (
      failing-InStep _ _ (
        when_ok-InStep _ _
          (guarded-InStep c.sets_lock_timeout _ w is (locked-InStep c.takes_lock w is))
          (λ w' h. h)))

  under_lock-InStep :
      (c : Run) (schema : Text) (limit : Option ℕ) (ms : List (Migration X))
      (w : MigrationSession X)
      → c.resets_search_path ≡ none
      → InStep w
      → InStep (under_lock c schema limit ms w).0
  unfolding under_lock
  under_lock-InStep c schema limit ms w resets is = elim (Bool-cases (is_valid_timeout limit)) [
    | inr invalid ↦ rw invalid is
    | inl valid ↦ rw valid (
        when_ok-InStep (in_schema c ms) _ (failing-InStep _ _ (acquire_lock-InStep c w is))
          (λ w'. in_schema-InStep c ms w' resets))
  ]

  unlocked-IsClean :
      (c : Run) (held : Bool) (w : MigrationSession X)
      → c.unlocks ≡ none
      → w.has_lock ≡ held
      → w.is_widened ≡ false
      → IsClean (release (unlock_if c held w)).0
  unfolding unlock_if guarded
  unlocked-IsClean c true w unlocks is narrow = rw unlocks (refl, narrow, refl)
  unlocked-IsClean c false w unlocks is narrow = (is, narrow, refl)

  given_back-IsClean :
      (c : Run) (w : MigrationSession X) → c.unlocks ≡ none → InStep w → IsClean (give_back c w).0
  unfolding give_back
  given_back-IsClean c w unlocks is = unlocked-IsClean c w.lock_held w unlocks (sym is.1) is.0

  reserved-IsClean :
      (c : Run) (o : Option DriverError) (m : Call (MigrationSession X)) (w : MigrationSession X)
      → IsClean w
      → IsClean (m w).0
      → IsClean (guarded o m w).0
  unfolding guarded
  reserved-IsClean c none m w is h = h
  reserved-IsClean c (some e) m w is h = is

  -- If the reset of the search_path and the unlock do not fail, then whatever else does, whichever
  -- migrations are applied and whatever the bound, a run from a clean connection that is in the
  -- pool leaves it back in the pool, without the lock and with its own search_path, whether it
  -- returns or throws.
  pub run_migrations_impl-IsClean :
      (c : Run) (schema : Text) (limit : Option ℕ) (ms : List (Migration X))
      (w : MigrationSession X)
      → c.resets_search_path ≡ none
      → c.unlocks ≡ none
      → IsClean w
      → IsClean (run_migrations_impl c schema limit ms w).0
  unfolding run_migrations_impl
  run_migrations_impl-IsClean c schema limit ms w resets unlocks clean =
      reserved-IsClean c c.reserves _ w clean (
        finally-after (give_back c) IsClean
          (under_lock c schema limit ms (record w { is_reserved = true; lock_held = false }))
          (given_back-IsClean c _ unlocks
            (under_lock-InStep c schema limit ms _ resets (clean.1, sym clean.0))))
