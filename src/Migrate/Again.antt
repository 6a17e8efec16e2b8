-- ===== src/Migrate/Again.antt =====
-- A run of src/postgres/migrate.ts that returned has applied the lineage, and a second run finds
-- nothing to apply.
use umbra_db.Prelude.{
  ◌≡◌, refl, sym, ap, ◌∙◌, Bool, true, false, ◌||◌, List, [], ◌∷◌, Option, none, some, Text, ◌=?◌,
  =?_refl, text_eq, any, inl, inr, Bool-cases, subst, All,
}
use umbra_db.Errors.{DriverError, Result, ok, fail, ◌>>=◌}
use umbra_db.Migrate.{
  Db, Migration, Run, Call, guarded, when_ok, recorded, insert_name, record_name, apply_migration,
  apply_next, apply_rest, slice_1, bootstrap, migrate,
}
use umbra_db.Migrate.Progress.{
  Reaches, stop, skip, apply, Whole, apply_migration-Whole, apply_rest-Reaches,
}

insert_name-recorded :
    (k : Text) (ns ns' : Option (List Text))
    → insert_name k ns ≡ ok ns'
    → (recorded k ns' ≡ ok true) × ((n : Text) → recorded n ns ≡ ok true → recorded n ns' ≡ ok true)
unfolding insert_name recorded
insert_name-recorded k none ns' h = absurd (cc h)
insert_name-recorded k (some l) ns' h = elim (Bool-cases (any (λ j. j =? k) l)) [
  | inl there ↦ absurd (cc (rw there at h))
  | inr new ↦ added (unwrap (rw new at h))
]
  where
    unwrap : ok (some (k ∷ l)) ≡ ok ns' → some (k ∷ l) ≡ ns'
    unwrap e = cc

    later :
        (b : Bool) (n : Text)
        → ok (any (λ j. j =? n) l) ≡ ok true
        → ok (b || any (λ j. j =? n) l) ≡ ok true
    later true n e = refl
    later false n e = e

    added :
        some (k ∷ l) ≡ ns'
        → (recorded k ns' ≡ ok true)
          × ((n : Text) → ok (any (λ j. j =? n) l) ≡ ok true → recorded n ns' ≡ ok true)
    added e =
        subst
          (λ o.
            (recorded k o ≡ ok true)
            × ((n : Text) → ok (any (λ j. j =? n) l) ≡ ok true → recorded n o ≡ ok true))
          e (rw (=?_refl k) refl, λ n there. later (k =? n) n there)

module _ {X : Type 0} where
  -- an `up` that leaves `_migrations` to the runner
  abbrev pub LeavesRecord : Migration X → Type 0
  LeavesRecord m = (d d' : Db X) → m.up d ≡ ok d' → d'.migrations ≡ d.migrations

  abbrev pub IsRecorded : Db X → Migration X → Type 0
  IsRecorded d m = recorded m.name d.migrations ≡ ok true

  names_of : Option (List Text) → Result (Db X) → Option (List Text)
  names_of ns (ok d) = d.migrations
  names_of ns (fail e) = ns

  record_name-recorded :
      (k : Text) (d d' : Db X)
      → record_name k d ≡ ok d'
      → (recorded k d'.migrations ≡ ok true)
        × ((n : Text) → recorded n d.migrations ≡ ok true → recorded n d'.migrations ≡ ok true)
  unfolding record_name names_of
  record_name-recorded k d d' h = from (insert_name k d.migrations) refl h
    where
      from :
          (r : Result (Option (List Text)))
          → insert_name k d.migrations ≡ r
          → (r >>= λ ns. ok (record d { migrations = ns })) ≡ ok d'
          → (recorded k d'.migrations ≡ ok true)
            × ((n : Text) → recorded n d.migrations ≡ ok true → recorded n d'.migrations ≡ ok true)
      from (fail e) is e' = absurd (cc e')
      from (ok ns) is e =
          insert_name-recorded k d.migrations d'.migrations (is ∙ ap ok (ap (names_of ns) e))

  Reaches-recorded :
      (n : Text) (ms : List (Migration X)) (d d' : Db X)
      → All LeavesRecord ms
      → Reaches ms d d'
      → recorded n d.migrations ≡ ok true
      → recorded n d'.migrations ≡ ok true
  Reaches-recorded n ms d d' leaves stop h = h
  Reaches-recorded n (m ∷ ms) d d' leaves (skip is rest) h =
      Reaches-recorded n ms d d' leaves.1 rest h
  Reaches-recorded n (m ∷ ms) d d' leaves (apply {d1 = d1} {d2 = d2} new up row rest) h =
      Reaches-recorded n ms d2 d' leaves.1 rest
        ((record_name-recorded m.name d1 d2 row).1 n (rw (leaves.0 d d1 up) h))

  -- a call that returns has every migration of the list recorded
  abbrev Completes : List (Migration X) → Db X × Result (Unit {0}) → Type 0
  Completes ms out = out.1 ≡ ok tt → All (IsRecorded out.0) ms

  module _ (m : Migration X) (ms : List (Migration X)) (rest : Call (Db X))
      (leaves : All LeavesRecord ms) (reaches : (d : Db X) → Reaches ms d (rest d).0)
      (completes : (d : Db X) → Completes ms (rest d)) where
    from_recorded : (d : Db X) → IsRecorded d m → Completes (m ∷ ms) (rest d)
    from_recorded d there fine =
        (Reaches-recorded m.name ms d _ leaves (reaches d) there, completes d fine)

    applied-Completes :
        (d : Db X) (out : Db X × Result (Unit {0}))
        → Whole m d out
        → Completes (m ∷ ms) (when_ok rest out)
    unfolding when_ok
    applied-Completes d (d', fail e) whole fine = absurd (cc fine)
    applied-Completes d (d', ok u) (inl (e, same)) fine = absurd (cc (ap (λ p. p.1) same))
    applied-Completes d (d', ok u) (inr (d1, d2, up, row, same)) fine =
        from_recorded d' (rw same ((record_name-recorded m.name d1 d2 row).0)) fine

    next-Completes :
        (c : Run) (d : Db X) (r : Result Bool)
        → recorded m.name d.migrations ≡ r
        → Completes (m ∷ ms) (apply_next c m rest r d)
    unfolding apply_next
    next-Completes c d (fail e) is fine = absurd (cc fine)
    next-Completes c d (ok true) is fine = from_recorded d is fine
    next-Completes c d (ok false) is fine =
        applied-Completes d (apply_migration c m d) (apply_migration-Whole c m d) fine

    selected-Completes :
        (c : Run) (d : Db X) (s : Option DriverError)
        → Completes
            (m ∷ ms)
            (guarded s (λ d. apply_next c m rest (recorded m.name d.migrations) d) d)
    unfolding guarded
    selected-Completes c d (some e) fine = absurd (cc fine)
    selected-Completes c d none fine = next-Completes c d _ refl fine

  apply_rest-Completes :
      (c : Run) (ms : List (Migration X)) (d : Db X)
      → All LeavesRecord ms
      → Completes ms (apply_rest c ms d)
  unfolding apply_rest
  apply_rest-Completes c [] d leaves fine = tt
  apply_rest-Completes c (m ∷ ms) d leaves fine =
      selected-Completes m ms (apply_rest c ms) leaves.1 (apply_rest-Reaches c ms)
        (λ d. apply_rest-Completes c ms d leaves.1) c d (c.selects m.name) fine

  apply_rest-skips :
      (c : Run) (ms : List (Migration X)) (d : Db X)
      → ((n : Text) → c.selects n ≡ none)
      → All (IsRecorded d) ms
      → apply_rest c ms d ≡ (d, ok tt)
  unfolding apply_rest guarded apply_next
  apply_rest-skips c [] d answers all = refl
  apply_rest-skips c (m ∷ ms) d answers all =
      rw (answers m.name, all.0) (apply_rest-skips c ms d answers all.1)

  -- there is a table
  abbrev pub HasTable : Db X → Type 0
  HasTable d = (ns : List Text) × (d.migrations ≡ some ns)

  recorded-HasTable : (n : Text) (d : Db X) → recorded n d.migrations ≡ ok true → HasTable d
  unfolding recorded
  recorded-HasTable n d h = given d.migrations h
    where
      given : (o : Option (List Text)) → recorded n o ≡ ok true → (ns : List Text) × (o ≡ some ns)
      given none h = absurd (cc h)
      given (some ns) h = (ns, refl)

  Reaches-HasTable :
      (ms : List (Migration X)) (d d' : Db X)
      → All LeavesRecord ms
      → Reaches ms d d'
      → HasTable d
      → HasTable d'
  Reaches-HasTable ms d d' leaves stop table = table
  Reaches-HasTable (m ∷ ms) d d' leaves (skip is rest) table =
      recorded-HasTable m.name d' (Reaches-recorded m.name ms d d' leaves.1 rest is)
  Reaches-HasTable (m ∷ ms) d d' leaves (apply {d1 = d1} {d2 = d2} new up row rest) table =
      recorded-HasTable m.name d'
        (Reaches-recorded m.name ms d2 d' leaves.1 rest (record_name-recorded m.name d1 d2 row).0)

  first-HasTable :
      (m : Migration X) (d : Db X) (out : Db X × Result (Unit {0}))
      → Whole m d out
      → out.1 ≡ ok tt
      → HasTable out.0
  first-HasTable m d out (inl (e, same)) fine = absurd (cc (sym fine ∙ ap (λ p. p.1) same))
  first-HasTable m d out (inr (d1, d2, up, row, same)) fine =
      rw same (recorded-HasTable m.name d2 (record_name-recorded m.name d1 d2 row).0)

  table-HasTable :
      (c : Run) (ms : List (Migration X)) (d : Db X) (table : Option (List Text))
      → d.migrations ≡ table
      → (bootstrap c ms table d).1 ≡ ok tt
      → HasTable (bootstrap c ms table d).0
  unfolding bootstrap
  table-HasTable c ms d (some ns) is fine = (ns, is)
  table-HasTable c [] d none is fine = absurd (cc fine)
  table-HasTable c (m ∷ ms) d none is fine =
      first-HasTable m d (apply_migration c m d) (apply_migration-Whole c m d) fine

  checked-HasTable :
      (c : Run) (ms : List (Migration X)) (d : Db X) (check : Option DriverError)
      → (guarded check (λ d. bootstrap c ms d.migrations d) d).1 ≡ ok tt
      → HasTable (guarded check (λ d. bootstrap c ms d.migrations d) d).0
  unfolding guarded
  checked-HasTable c ms d (some e) fine = absurd (cc fine)
  checked-HasTable c ms d none fine = table-HasTable c ms d d.migrations refl fine

  -- the state in which a run finds nothing to apply
  abbrev pub IsApplied : List (Migration X) → Db X → Type 0
  IsApplied ms d = HasTable d × All (IsRecorded d) (slice_1 ms)

  rest-IsApplied :
      (c : Run) (ms : List (Migration X)) (out : Db X × Result (Unit {0})) (d' : Db X)
      → All LeavesRecord (slice_1 ms)
      → (out.1 ≡ ok tt → HasTable out.0)
      → when_ok (apply_rest c (slice_1 ms)) out ≡ (d', ok tt)
      → IsApplied ms d'
  unfolding when_ok
  rest-IsApplied c ms (d, fail e) d' leaves table h = absurd (cc (ap (λ p. p.1) h))
  rest-IsApplied c ms (d, ok u) d' leaves table h = subst (IsApplied ms) (ap (λ p. p.0) h) (
    Reaches-HasTable _ d _ leaves (apply_rest-Reaches c _ d) (table refl),
    apply_rest-Completes c _ d leaves (ap (λ p. p.1) h),
  )

  bootstrap-skips :
      (c : Run) (ms : List (Migration X)) (d : Db X) (table : Option (List Text)) {ns : List Text}
      → table ≡ some ns
      → bootstrap c ms table d ≡ (d, ok tt)
  unfolding bootstrap
  bootstrap-skips c ms d (some ns) is = refl
  bootstrap-skips c ms d none is = absurd (cc is)

  checks-bootstrap :
      (c : Run) (ms : List (Migration X)) (d : Db X) (check : Option DriverError)
      → check ≡ none
      → guarded check (λ d. bootstrap c ms d.migrations d) d ≡ bootstrap c ms d.migrations d
  unfolding guarded
  checks-bootstrap c ms d none is = refl
  checks-bootstrap c ms d (some e) is = absurd (cc is)

  migrate-skips :
      (c : Run) (ms : List (Migration X)) (d : Db X)
      → c.checks_table ≡ none
      → ((n : Text) → c.selects n ≡ none)
      → IsApplied ms d
      → migrate c ms d ≡ (d, ok tt)
  unfolding migrate when_ok
  migrate-skips c ms d checks answers ((ns, is), all) =
      ap (when_ok (apply_rest c (slice_1 ms)))
        (checks-bootstrap c ms d c.checks_table checks ∙ bootstrap-skips c ms d d.migrations is)
      ∙ apply_rest-skips c (slice_1 ms) d answers all

  -- For the part of runMigrationsImpl that runs under the lock, its inner try block: if the
  -- migrations after the first leave `_migrations` to the runner, then a pass that returned has
  -- every migration after the first recorded, and a second pass whose SELECTs are answered, however
  -- BEGIN, INSERT and COMMIT would go, returns and changes nothing.
  pub migrate-again :
      (c c' : Run) (ms : List (Migration X)) (d d' : Db X)
      → All LeavesRecord (slice_1 ms)
      → migrate c ms d ≡ (d', ok tt)
      → c'.checks_table ≡ none
      → ((n : Text) → c'.selects n ≡ none)
      → All (IsRecorded d') (slice_1 ms) × (migrate c' ms d' ≡ (d', ok tt))
  unfolding migrate
  migrate-again c c' ms d d' leaves h checks answers =
      (applied.1, migrate-skips c' ms d' checks answers applied)
    where
      applied : IsApplied ms d'
      applied = rest-IsApplied c ms _ d' leaves (checked-HasTable c ms d c.checks_table) h
