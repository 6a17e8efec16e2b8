-- ===== src/KvTables.antt =====
-- The tables and the trigger of src/postgres/migrations/001_temporal_kv.ts, and the statements of
-- src/postgres/temporal-kv.ts that write them.
use umbra_db.Prelude.{
  ℕ, ◌+◌, ◌/◌, ◌^◌, ◌-◌, Bool, true, not, ◌&&◌, List, ◌∷◌, Option, none, some, Text, any, ltb, leb,
  ◌==◌, if◌then◌else◌, Eq, text_beq, text_beq_iff, ◌↔◌, ◌≡◌, arith,
}
use umbra_db.Table.{Table, lookup, put as put_row}
use umbra_db.Json.{Json}
use umbra_db.Errors.{Thrown, Result, ok, fail, driver}
use Prim.Native.String.{String}

-- The primary key (ns, scope, key).
pub record KvKey : Type 0 where
  pub ns : Text
  pub scope : Text
  pub key : Text

unfoldable pub kv_key_beq : KvKey → KvKey → Bool
kv_key_beq a b = text_beq a.ns b.ns && (text_beq a.scope b.scope && text_beq a.key b.key)

pub kv_key_beq_iff : (a b : KvKey) → (kv_key_beq a b ≡ true) ↔ (a ≡ b)
unfolding kv_key_beq
kv_key_beq_iff a b =
    ground (arith, text_beq_iff a.ns b.ns, text_beq_iff a.scope b.scope, text_beq_iff a.key b.key)

instance abbrev pub kv_key_eq : Eq KvKey
kv_key_eq = record { beq = kv_key_beq; beq_iff = kv_key_beq_iff }

-- A row of kv_current. Instants are in milliseconds.
pub record CurrentRow : Type 0 where
  pub value : Json
  pub version : ℕ
  pub updated_at : ℕ
  pub updated_xact : ℕ

-- A row of kv_history; its `validity` is [valid_from, valid_to).
pub record HistoryRow : Type 0 where
  pub hkey : KvKey
  pub value : Json
  pub version : ℕ
  pub valid_from : ℕ
  pub valid_to : ℕ

-- Both tables; the history has its latest row first.
pub record KvTables : Type 0 where
  pub current : Table KvKey CurrentRow
  pub history : List HistoryRow

-- What a statement reads of its session: txid_current() and clock_timestamp(), in microseconds.
pub record Session : Type 0 where
  pub txid : ℕ
  pub clock : ℕ

-- date_trunc('milliseconds', clock_timestamp())
unfoldable pub now_ms : Session → ℕ
now_ms s = s.clock / 1000

-- the largest bigint of PostgreSQL, and POSTGRES_BIGINT_MAX
abbrev pub bigint_max : ℕ
bigint_max = 2 ^ 63 - 1

-- An error that the server raises.
abbrev pub raised : String → Option String → Thrown
raised code constraint =
    driver (record { code = code; constraint_name = constraint; has_severity = true })

-- EXCLUDE USING gist (ns WITH =, scope WITH =, key WITH =, validity WITH &&)
unfoldable pub overlaps : HistoryRow → HistoryRow → Bool
overlaps a b =
    kv_key_beq a.hkey b.hkey && (ltb a.valid_from b.valid_to && ltb b.valid_from a.valid_to)

-- INSERT INTO kv_history. The generated column refuses a range whose bounds are the wrong way
-- round (22000) before the constraint kv_history_range is checked, which refuses an empty one.
unfoldable pub insert_history : HistoryRow → List HistoryRow → Result (List HistoryRow)
insert_history h history =
    if ltb h.valid_to h.valid_from
    then fail (raised "22000" none)
    else if not (ltb h.valid_from h.valid_to)
    then fail (raised "23514" (some "kv_history_range"))
    else if any (overlaps h) history
    then fail (raised "23P01" (some "kv_history_no_overlap"))
    else ok (h ∷ history)

-- the row that the trigger archives
unfoldable pub archived : Session → KvKey → CurrentRow → HistoryRow
archived s k old = record {
  hkey = k;
  value = old.value;
  version = old.version;
  valid_from = old.updated_at;
  valid_to = now_ms s;
}

-- the row that an UPDATE leaves, as the trigger stamps it
unfoldable pub stamped : Session → Json → ℕ → CurrentRow
stamped s v n = record { value = v; version = n; updated_at = now_ms s; updated_xact = s.txid }

-- kv_current_history_trigger, BEFORE UPDATE ON kv_current, on the row of `k`
unfoldable pub history_trigger :
    Session → KvKey → CurrentRow → List HistoryRow → Result (List HistoryRow)
history_trigger s k old history =
    if old.updated_xact == s.txid
    then fail (raised "UB001" none)
    else insert_history (archived s k old) history

-- The value that a statement binds: `none` is SQL NULL, which postgres.js sends for a top-level
-- JSON null, and the column `value jsonb NOT NULL` refuses.
abbrev pub Bound : Type 0
Bound = Option Json

abbrev pub not_null_violation : Thrown
not_null_violation = raised "23502" none

-- NOT NULL is checked on the row that the trigger gives back
unfoldable pub write_row :
    Session
    → KvKey
    → Bound
    → CurrentRow
    → List HistoryRow
    → KvTables
    → Result (KvTables × CurrentRow)
write_row s k none old history t = fail not_null_violation
write_row s k (some v) old history t = ok (
  record { current = put_row k (stamped s v (old.version + 1)) t.current; history = history },
  stamped s v (old.version + 1),
)

-- SET value = v, version = version + 1 on the row `old` of `k`
unfoldable pub update_row :
    Session → KvKey → Bound → CurrentRow → KvTables → Result (KvTables × CurrentRow)
update_row s k v old t =
    if leb bigint_max old.version
    then fail (raised "22003" none)
    else elim (history_trigger s k old t.history) [
      | ok history ↦ write_row s k v old history t
      | fail e ↦ fail e
    ]

unfoldable pub insert_row : Session → KvKey → Json → KvTables → KvTables
insert_row s k v t = record t { current = put_row k (stamped s v 1) t.current }

-- Case 1: INSERT ... ON CONFLICT DO UPDATE. An INSERT checks NOT NULL before it looks for a
-- conflict.
unfoldable pub upsert : Session → KvKey → Bound → KvTables → Result (KvTables × CurrentRow)
upsert s k none t = fail not_null_violation
upsert s k (some v) t = elim (lookup k t.current) [
  | none ↦ ok (insert_row s k v t, stamped s v 1)
  | some old ↦ update_row s k (some v) old t
]

-- Case 2: INSERT ... ON CONFLICT DO NOTHING; `none` stands for no row returned
unfoldable pub insert_if_absent :
    Session → KvKey → Bound → KvTables → Result (KvTables × Option CurrentRow)
insert_if_absent s k none t = fail not_null_violation
insert_if_absent s k (some v) t = elim (lookup k t.current) [
  | none ↦ ok (insert_row s k v t, some (stamped s v 1))
  | some old ↦ ok (t, none)
]

-- Case 3: UPDATE ... WHERE version = expected
unfoldable pub update_if_version :
    Session → KvKey → Bound → ℕ → KvTables → Result (KvTables × Option CurrentRow)
update_if_version s k v expected t = elim (lookup k t.current) [
  | none ↦ ok (t, none)
  | some old ↦
      if old.version == expected
      then elim (update_row s k v old t) [ ok (t', r) ↦ ok (t', some r) | fail e ↦ fail e ]
      else ok (t, none)
]
