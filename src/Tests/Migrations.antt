-- ===== src/Tests/Migrations.antt =====
-- The theorems on migrations, at a lineage of two whose second one is refused at its COMMIT.
use umbra_db.Prelude.{
  ℕ, ◌≡◌, refl, false, List, [], ◌∷◌, none, some, units, Text, true, All, Option, ap, sym,
}
use umbra_db.Errors.{DriverError, ok, fail, Result}
use umbra_db.Transaction.{committed, refused}
use umbra_db.Migrate.{
  Db, Migration, Run, guarded, when_ok, apply_rest, apply_next, slice_1, bootstrap, apply_migration,
  apply_up, record_name, insert_name, recorded, end_transaction, migrate, MigrationSession,
  run_migrations_impl,
}
use umbra_db.Migrate.Again.{LeavesRecord, IsRecorded, migrate-again}
use umbra_db.Migrate.Progress.{MigratesTo, migrate-MigratesTo}
use umbra_db.Migrate.Cleanup.{IsClean, run_migrations_impl-IsClean}

abbrev disk_full : DriverError
disk_full = record { code = "53100"; constraint_name = none; has_severity = true }

abbrev smooth : Run
smooth = record {
  reserves = none;
  begins_lock = none;
  sets_lock_timeout = none;
  takes_lock = none;
  commits_lock = committed;
  rolls_back_lock = none;
  sets_search_path = none;
  checks_table = none;
  selects = λ n. none;
  begins = λ n. none;
  inserts = λ n. none;
  commits = λ n. committed;
  rolls_back = λ n. none;
  resets_search_path = none;
  unlocks = none;
}

abbrev broken : Run
broken = record smooth { commits_lock = refused disk_full }

-- the objects are numbered; the first migration makes the table
abbrev lineage : List (Migration ℕ)
lineage =
    (record { name = units "000"; up = λ d. ok (record { objects = 1; migrations = some [] }) })
    ∷ (record { name = units "001"; up = λ d. ok (record d { objects = 2 }) })
    ∷ []

abbrev cold : Db ℕ
cold = record { objects = 0; migrations = none }

abbrev idle : MigrationSession ℕ
idle = record {
  database = cold;
  has_lock = false;
  lock_held = false;
  is_widened = false;
  is_reserved = false;
}

migrate-MigratesTo_example : MigratesTo lineage cold (migrate smooth lineage cold).0
migrate-MigratesTo_example = migrate-MigratesTo smooth lineage cold

run_migrations_impl-IsClean_example :
    IsClean (run_migrations_impl broken (units "s") (some 50) lineage idle).0
run_migrations_impl-IsClean_example =
    run_migrations_impl-IsClean broken (units "s") (some 50) lineage idle refl refl
      (refl, refl, refl)

-- what a run of the whole lineage leaves
abbrev warm : Db ℕ
warm = record { objects = 2; migrations = some (units "001" ∷ units "000" ∷ []) }

second_leaves : All LeavesRecord (slice_1 lineage)
second_leaves = (λ d d' up. ap (migrations_of d) (sym up), tt)
  where
    migrations_of : Db ℕ → Result (Db ℕ) → Option (List Text)
    migrations_of d (ok d') = d'.migrations
    migrations_of d (fail e) = d.migrations

warmed : migrate smooth lineage cold ≡ (warm, ok tt)
unfolding migrate guarded when_ok apply_rest apply_next bootstrap apply_migration apply_up
    record_name insert_name recorded end_transaction
warmed = refl

-- no statement but the SELECTs works any more
abbrev read_only : Run
read_only = record smooth { begins = λ n. some disk_full; inserts = λ n. some disk_full }

migrate-again_example :
    All (IsRecorded warm) (slice_1 lineage) × (migrate read_only lineage warm ≡ (warm, ok tt))
migrate-again_example =
    migrate-again smooth read_only lineage cold warm second_leaves warmed refl (λ n. refl)
