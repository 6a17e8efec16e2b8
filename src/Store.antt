-- ===== src/Store.antt =====
-- The tables that one database holds for the adapters, and the adapters' parts of it.
pub mod Lens
use umbra_db.Prelude.{ℕ, Text, pair_eq}
use umbra_db.Table.{Table}
use umbra_db.Json.{Json}
use umbra_db.KvTables.{KvTables}
use umbra_db.Checkpoint.Tables.{CkptTables}
use umbra_db.Exec.{Exec}
use umbra_db.TxHistory.Rows.{TxRows}
use umbra_db.Transaction.{World}

-- a row of the table `watermarks` of src/postgres/migrations/003_watermarks.ts, keyed by (kind,
-- key)
pub record Mark : Type 0 where
  pub value : Json
  pub updated_at : ℕ

abbrev pub Marks : Type 0
Marks = Table (Text × Text) Mark

pub record Store : Type 0 where
  pub kv : KvTables
  pub ckpt : CkptTables
  pub marks : Marks
  pub history : TxRows

-- A call on one module's tables as a call on the database.
unfoldable pub on_ckpt : {A : Type 0} → Exec CkptTables A → Exec (World Store) A
on_ckpt m w = let (t, r) = m w.store.ckpt in (record w { store = record w.store { ckpt = t } }, r)

unfoldable pub on_marks : {A : Type 0} → Exec Marks A → Exec (World Store) A
on_marks m w =
    let (t, r) = m w.store.marks in (record w { store = record w.store { marks = t } }, r)

unfoldable pub on_history : {A : Type 0} → Exec TxRows A → Exec (World Store) A
on_history m w =
    let (t, r) = m w.store.history in (record w { store = record w.store { history = t } }, r)
