-- ===== src/Migrate/Progress.antt =====
-- What the loop of src/postgres/migrate.ts does to the schema: whole migrations in the lineage's
-- order.
use umbra_db.Prelude.{
  ◌≡◌, refl, sym, Bool, true, false, List, [], ◌∷◌, Option, none, some, Text, subst, ◌⊎◌, inl, inr,
}
use umbra_db.Errors.{DriverError, Thrown, Result, ok, fail, ◌>>=◌}
use umbra_db.Transaction.{CommitOutcome, committed, refused, unacknowledged}
use umbra_db.Migrate.{
  Db, Migration, Run, Call, guarded, when_ok, recorded, record_name, answered_by, apply_up,
  end_transaction, apply_migration, apply_next, apply_rest, slice_1, bootstrap, migrate,
}

module _ {X : Type 0} where
  -- From one state of the schema to another by whole migrations of the list, in its order: each is
  -- skipped if its name is recorded, and else its `up` and its row are applied together.
  pub data Reaches : List (Migration X) → Db X → Db X → Type 0 where
    stop : {ms : List (Migration X)} {d : Db X} → Reaches ms d d
    skip :
        {m : Migration X} {ms : List (Migration X)} {d d' : Db X}
        → recorded m.name d.migrations ≡ ok true
        → Reaches ms d d'
        → Reaches (m ∷ ms) d d'
    apply :
        {m : Migration X} {ms : List (Migration X)} {d d1 d2 d' : Db X}
        → recorded m.name d.migrations ≡ ok false
        → m.up d ≡ ok d1
        → record_name m.name d1 ≡ ok d2
        → Reaches ms d2 d'
        → Reaches (m ∷ ms) d d'

  -- the same with the first migration as the bootstrap, where there is no table yet
  pub data MigratesTo : List (Migration X) → Db X → Db X → Type 0 where
    untouched : {ms : List (Migration X)} {d : Db X} → MigratesTo ms d d
    continued :
        {ms : List (Migration X)} {d d' : Db X} {ns : List Text}
        → d.migrations ≡ some ns
        → Reaches (slice_1 ms) d d'
        → MigratesTo ms d d'
    bootstrapped :
        {m : Migration X} {ms : List (Migration X)} {d d1 d2 d' : Db X}
        → d.migrations ≡ none
        → m.up d ≡ ok d1
        → record_name m.name d1 ≡ ok d2
        → Reaches ms d2 d'
        → MigratesTo (m ∷ ms) d d'

  -- nothing and an error, or the migration with its row
  abbrev pub Whole : Migration X → Db X → Db X × Result (Unit {0}) → Type 0
  Whole m d out =
      ((e : Thrown) × (out ≡ (d, fail e)))
      ⊎ ((d1 d2 : Db X) × (m.up d ≡ ok d1) × (record_name m.name d1 ≡ ok d2) × (out.0 ≡ d2))

  recorded-Whole :
      (commit : CommitOutcome) (r i : Option DriverError) (m : Migration X) (d d1 : Db X)
      (row : Result (Db X))
      → m.up d ≡ ok d1
      → record_name m.name d1 ≡ row
      → Whole m d (end_transaction commit r d (answered_by i row))
  unfolding end_transaction
  recorded-Whole commit r (some e) m d d1 row up same = inl (_, refl)
  recorded-Whole commit r none m d d1 (fail e) up same = inl (_, refl)
  recorded-Whole committed r none m d d1 (ok d2) up same = inr (d1, d2, up, same, refl)
  recorded-Whole (refused e) r none m d d1 (ok d2) up same = inl (_, refl)
  recorded-Whole (unacknowledged e) r none m d d1 (ok d2) up same = inr (d1, d2, up, same, refl)

  up-Whole :
      (commit : CommitOutcome) (r i : Option DriverError) (m : Migration X) (d : Db X)
      (up : Result (Db X))
      → m.up d ≡ up
      → Whole m d (end_transaction commit r d (up >>= λ d'. answered_by i (record_name m.name d')))
  unfolding end_transaction
  up-Whole commit r i m d (fail e) same = inl (_, refl)
  up-Whole commit r i m d (ok d1) same = recorded-Whole commit r i m d d1 _ same refl

  begun-Whole :
      (c : Run) (m : Migration X) (d : Db X) (b : Option DriverError)
      → Whole m d (
          guarded b
            (λ d. end_transaction (c.commits m.name) (c.rolls_back m.name) d (apply_up c m d))
            d)
  unfolding guarded apply_up
  begun-Whole c m d (some e) = inl (_, refl)
  begun-Whole c m d none = up-Whole _ _ (c.inserts m.name) m d (m.up d) refl

  pub apply_migration-Whole :
      (c : Run) (m : Migration X) (d : Db X) → Whole m d (apply_migration c m d)
  unfolding apply_migration
  apply_migration-Whole c m d = begun-Whole c m d (c.begins m.name)

  pub rest_or_stop :
      (ms : List (Migration X)) (rest : Call (Db X)) (out : Db X × Result (Unit {0}))
      → ((d : Db X) → Reaches ms d (rest d).0)
      → Reaches ms out.0 (when_ok rest out).0
  unfolding when_ok
  rest_or_stop ms rest (d, ok u) h = h d
  rest_or_stop ms rest (d, fail e) h = stop

  applied-Reaches :
      (m : Migration X) (ms : List (Migration X)) (rest : Call (Db X)) (d : Db X)
      (out : Db X × Result (Unit {0}))
      → recorded m.name d.migrations ≡ ok false
      → Whole m d out
      → ((d : Db X) → Reaches ms d (rest d).0)
      → Reaches (m ∷ ms) d (when_ok rest out).0
  unfolding when_ok
  applied-Reaches m ms rest d out new (inl (e, same)) h =
      subst (λ o. Reaches (m ∷ ms) d (when_ok rest o).0) (sym same) stop
  applied-Reaches m ms rest d out new (inr (d1, d2, up, row, same)) h =
      apply new up row
        (subst (λ x. Reaches ms x (when_ok rest out).0) same (rest_or_stop ms rest out h))

  next-Reaches :
      (c : Run) (m : Migration X) (ms : List (Migration X)) (rest : Call (Db X)) (d : Db X)
      (r : Result Bool)
      → recorded m.name d.migrations ≡ r
      → ((d : Db X) → Reaches ms d (rest d).0)
      → Reaches (m ∷ ms) d (apply_next c m rest r d).0
  unfolding apply_next
  next-Reaches c m ms rest d (fail e) is h = stop
  next-Reaches c m ms rest d (ok true) is h = skip is (h d)
  next-Reaches c m ms rest d (ok false) is h =
      applied-Reaches m ms rest d _ is (apply_migration-Whole c m d) h

  selected-Reaches :
      (c : Run) (m : Migration X) (ms : List (Migration X)) (rest : Call (Db X)) (d : Db X)
      (s : Option DriverError)
      → ((d : Db X) → Reaches ms d (rest d).0)
      → Reaches
          (m ∷ ms)
          d
          (guarded s (λ d. apply_next c m rest (recorded m.name d.migrations) d) d).0
  unfolding guarded
  selected-Reaches c m ms rest d (some e) h = stop
  selected-Reaches c m ms rest d none h = next-Reaches c m ms rest d _ refl h

  pub apply_rest-Reaches :
      (c : Run) (ms : List (Migration X)) (d : Db X) → Reaches ms d (apply_rest c ms d).0
  unfolding apply_rest
  apply_rest-Reaches c [] d = stop
  apply_rest-Reaches c (m ∷ ms) d =
      selected-Reaches c m ms (apply_rest c ms) d (c.selects m.name) (apply_rest-Reaches c ms)

  first-MigratesTo :
      (c : Run) (m : Migration X) (ms : List (Migration X)) (d : Db X)
      (out : Db X × Result (Unit {0}))
      → d.migrations ≡ none
      → Whole m d out
      → MigratesTo (m ∷ ms) d (when_ok (apply_rest c ms) out).0
  unfolding when_ok
  first-MigratesTo c m ms d out none_yet (inl (e, same)) =
      subst (λ o. MigratesTo (m ∷ ms) d (when_ok (apply_rest c ms) o).0) (sym same) untouched
  first-MigratesTo c m ms d out none_yet (inr (d1, d2, up, row, same)) =
      bootstrapped none_yet up row (
        subst (λ x. Reaches ms x (when_ok (apply_rest c ms) out).0) same
          (rest_or_stop ms (apply_rest c ms) out (apply_rest-Reaches c ms)))

  table-MigratesTo :
      (c : Run) (ms : List (Migration X)) (d : Db X) (table : Option (List Text))
      → d.migrations ≡ table
      → MigratesTo ms d (when_ok (apply_rest c (slice_1 ms)) (bootstrap c ms table d)).0
  unfolding bootstrap when_ok
  table-MigratesTo c ms d (some ns) is = continued is (apply_rest-Reaches c (slice_1 ms) d)
  table-MigratesTo c [] d none is = untouched
  table-MigratesTo c (m ∷ ms) d none is =
      first-MigratesTo c m ms d _ is (apply_migration-Whole c m d)

  checked-MigratesTo :
      (c : Run) (ms : List (Migration X)) (d : Db X) (check : Option DriverError)
      → MigratesTo ms d
          (when_ok
            (apply_rest c (slice_1 ms))
            (guarded check (λ d. bootstrap c ms d.migrations d) d)).0
  unfolding guarded when_ok
  checked-MigratesTo c ms d (some e) = untouched
  checked-MigratesTo c ms d none = table-MigratesTo c ms d _ refl

  -- Whichever statements fail, and whether the run returns or throws, it leaves the schema in a
  -- state that whole migrations lead to, in the lineage's order: each with its row in `_migrations`
  -- and none whose name was recorded, the first one only where there was no such table.
  pub migrate-MigratesTo :
      (c : Run) (ms : List (Migration X)) (d : Db X) → MigratesTo ms d (migrate c ms d).0
  unfolding migrate
  migrate-MigratesTo c ms d = checked-MigratesTo c ms d c.checks_table
