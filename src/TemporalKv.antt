-- ===== src/TemporalKv.antt =====
-- src/postgres/temporal-kv.ts: the versioned key-value store, over the tables of KvTables.
pub mod Timeline
pub mod Invariant
pub mod Puts
pub mod Reads
pub mod Refinement
pub mod History
use umbra_db.Prelude.{
  ℕ, zero, suc, ◌+◌, ◌/◌, ◌^◌, ◌-◌, Bool, true, false, not, ◌&&◌, List, [], ◌∷◌, Option, none, some,
  Text, any, ltb, leb, ◌==◌, if◌then◌else◌, Eq, text_beq, text_beq_iff, ◌↔◌, ◌≡◌, arith, ℤ, pos,
  negsuc,
}
use umbra_db.Table.{Table, lookup, put as put_row}
use umbra_db.SafeText.{is_bounded_text, is_nonempty_text}
use umbra_db.Json.{Json, null, is_json_value}
use umbra_db.Errors.{
  Thrown, Result, ok, fail, storage, driver, validation_failed, version_conflict, aborted,
}
use umbra_db.Exec.{Exec, throw, lift, ◌>>=◌, ◌>>◌, statement, query, require, translating}
use Prim.Native.String.{String}
use umbra_db.KvTables.{
  KvKey, kv_key_beq, kv_key_beq_iff, kv_key_eq, CurrentRow, HistoryRow, KvTables, Session, now_ms,
  bigint_max, raised, overlaps, insert_history, archived, stamped, history_trigger, update_row,
  insert_row, upsert, insert_if_absent, update_if_version,
}

pub record VersionedEntry : Type 0 where
  pub entry_key : KvKey
  pub value : Json
  pub version : ℕ
  pub written_at : ℕ

-- { kind: "version" }, { kind: "at" } with its milliseconds since 1970 (`none` for an invalid
-- Date), or another discriminant
pub data AsOf : Type 0 where
  version : ℤ → AsOf
  at : Option ℤ → AsOf
  unknown : AsOf

-- A row of the result of getAt's UNION ALL.
pub record KvRow : Type 0 where
  pub value : Json
  pub version : ℕ
  pub written_at : ℕ

abbrev pub of_current : CurrentRow → KvRow
of_current r = record { value = r.value; version = r.version; written_at = r.updated_at }

abbrev pub of_history : HistoryRow → KvRow
of_history h = record { value = h.value; version = h.version; written_at = h.valid_from }

-- SELECT ... FROM kv_history WHERE the key is `k` AND `p`, the first row
unfoldable pub find_history : (HistoryRow → Bool) → KvKey → List HistoryRow → Option KvRow
find_history p k [] = none
find_history p k (h ∷ hs) =
    if kv_key_beq h.hkey k && p h then some (of_history h) else find_history p k hs

-- SELECT ... FROM kv_current WHERE the key is `k` AND `p`
unfoldable pub find_current : (CurrentRow → Bool) → KvKey → Table KvKey CurrentRow → Option KvRow
find_current p k rows = elim (lookup k rows) [
  | none ↦ none
  | some r ↦ if p r then some (of_current r) else none
]

-- UNION ALL ... ORDER BY priority LIMIT 1: kv_history has priority 0, kv_current 1
abbrev pub first_of_union : Option KvRow → Option KvRow → Option KvRow
first_of_union (some r) other = some r
first_of_union none other = other

unfoldable pub select_version : KvKey → ℕ → KvTables → Option KvRow
select_version k n t =
    first_of_union (find_history (λ h. h.version == n) k t.history)
      (find_current (λ r. r.version == n) k t.current)

unfoldable pub select_at : KvKey → ℕ → KvTables → Option KvRow
select_at k at_ms t =
    first_of_union (find_history (λ h. leb h.valid_from at_ms && ltb at_ms h.valid_to) k t.history)
      (find_current (λ r. leb r.updated_at at_ms) k t.current)

abbrev pub reject : Thrown
reject = storage validation_failed

-- NamespaceSchema and ScopeSchema, KeySchema
unfoldable pub is_valid_key : KvKey → Bool
is_valid_key k = is_bounded_text 63 k.ns && (is_bounded_text 63 k.scope && is_nonempty_text k.key)

-- ExpectedVersionSchema
unfoldable pub is_expected_version : Option ℤ → Bool
is_expected_version none = true
is_expected_version (some (pos n)) = leb n bigint_max
is_expected_version (some (negsuc n)) = false

-- StoredVersionSchema
unfoldable pub is_stored_version : ℤ → Bool
is_stored_version (pos n) = leb 1 n && leb n bigint_max
is_stored_version (negsuc n) = false

-- the checks of getAt on `asOf`
unfoldable pub is_valid_as_of : AsOf → Bool
is_valid_as_of (version n) = is_stored_version n
is_valid_as_of (at (some ms)) = true
is_valid_as_of (at none) = false
is_valid_as_of unknown = false

-- no row was written before 1970
unfoldable pub select_as_of : KvKey → AsOf → KvTables → Option KvRow
select_as_of k (version (pos n)) t = select_version k n t
select_as_of k (at (some (pos ms))) t = select_at k ms t
select_as_of k _ t = none

abbrev pub key_context : KvKey → Option (Text × Text × Text)
key_context k = some (k.ns, k.scope, k.key)

-- `z_json` is `z.json()` of the schema library, and `jsonb` what the driver reads back of a value
-- that was stored in a jsonb column.
module _ (z_json : Json → Bool) (jsonb : Json → Json) where
  -- toEntry, with VersionedEntrySchema
  unfoldable pub to_entry : KvKey → KvRow → Result VersionedEntry
  to_entry k r =
      if is_valid_key k && (is_json_value z_json r.value && is_stored_version (pos r.version))
      then ok (record {
        entry_key = k;
        value = r.value;
        version = r.version;
        written_at = r.written_at;
      })
      else fail reject

  unfoldable pub to_entry_or_null : KvKey → Option KvRow → Result (Option VersionedEntry)
  to_entry_or_null k none = ok none
  to_entry_or_null k (some r) = elim (to_entry k r) [ ok e ↦ ok (some e) | fail e ↦ fail e ]

  -- re-read the row, and report its version
  unfoldable pub conflict : KvKey → ℕ → Exec KvTables VersionedEntry
  conflict k expected t = elim (lookup k t.current) [
    | none ↦ (t, fail (storage (version_conflict expected none)))
    | some r ↦ (t, fail (storage (version_conflict expected (some r.version))))
  ]

  unfoldable pub entry_or_conflict : KvKey → ℕ → Option CurrentRow → Exec KvTables VersionedEntry
  entry_or_conflict k expected none = conflict k expected
  entry_or_conflict k expected (some r) = lift (to_entry k (of_current r))

  -- sql.json(value): a null is bound as NULL
  unfoldable pub bound : Json → Option Json
  bound null = none
  bound v = some (jsonb v)

  -- the three cases of putImpl, inside its `try`
  unfoldable pub write : Session → KvKey → Json → Option ℤ → Exec KvTables VersionedEntry
  write s k v none = do r ← statement (upsert s k (bound v)); lift (to_entry k (of_current r))
  write s k v (some (pos zero)) = do
    r ← statement (insert_if_absent s k (bound v))
    entry_or_conflict k 0 r
  write s k v (some (pos (suc n))) = do
    r ← statement (update_if_version s k (bound v) (suc n))
    entry_or_conflict k (suc n) r
  write s k v (some (negsuc n)) = throw reject

  unfoldable pub put_impl : Session → KvKey → Json → Option ℤ → Exec KvTables VersionedEntry
  put_impl s k v expected = translating (key_context k) (write s k v expected)

  -- `conn` is the connection of `opts.tx`, if it is given and live, or the adapter's own;
  -- `is_aborted` is the state of `opts.signal`.
  unfoldable pub put :
      Result Session → Bool → KvKey → Json → Option ℤ → Exec KvTables VersionedEntry
  put conn is_aborted k v expected = do
    s ← lift conn
    require (is_valid_key k) reject
    require (is_json_value z_json v) reject
    require (is_expected_version expected) reject
    require (not is_aborted) aborted
    put_impl s k v expected

  unfoldable pub get : Result Session → Bool → KvKey → Exec KvTables (Option VersionedEntry)
  get conn is_aborted k = do
    s ← lift conn
    require (is_valid_key k) reject
    require (not is_aborted) aborted
    r ← query (λ t. find_current (λ _. true) k t.current)
    translating (key_context k) (lift (to_entry_or_null k r))

  unfoldable pub get_at :
      Result Session → Bool → KvKey → AsOf → Exec KvTables (Option VersionedEntry)
  get_at conn is_aborted k as_of = do
    s ← lift conn
    require (is_valid_key k) reject
    require (is_valid_as_of as_of) reject
    require (not is_aborted) aborted
    r ← query (select_as_of k as_of)
    translating (key_context k) (lift (to_entry_or_null k r))
