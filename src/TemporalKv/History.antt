-- ===== src/TemporalKv/History.antt =====
-- The reads of src/postgres/temporal-kv.ts, alone and after a `put`.
use umbra_db.Prelude.{
  ℕ, ◌≡◌, refl, Bool, true, false, List, [], ◌∷◌, Option, none, some, arith, Option-cases, inl, inr,
  ℤ, pos, negsuc, ◌==◌, leb, if◌then◌else◌,
}
use umbra_db.Table.{lookup}
use umbra_db.Json.{Json, is_json_value}
use umbra_db.Errors.{Result, ok}
use umbra_db.Exec.{run, lift, translating}
use umbra_db.Exec.Steps.{lift->>=_ok, require->>=_true, query->>=}
use umbra_db.Errors.Translate.{translate_postgres_error}
use umbra_db.TemporalKv.{
  KvRow, is_valid_key, find_current, is_stored_version, to_entry, to_entry_or_null, VersionedEntry,
  version, at, put, get, get_at, select_version, select_at, select_as_of, is_valid_as_of,
  key_context, bound,
}
use umbra_db.KvTables.{KvKey, kv_key_eq, kv_key_beq_iff, KvTables, Session}
use umbra_db.TemporalKv.Timeline.{WellFormed, log_of, log_rows}
use umbra_db.TemporalKv.Reads.{first, select_version-log, select_at-log}
use umbra_db.TemporalKv.Refinement.{entry_row, PutSpec, put_refines}
use umbra_db.TemporalKv.Invariant.{put-WellFormed}

abbrev pub head : List KvRow → Option KvRow
head [] = none
head (r ∷ rs) = some r

find_current-log :
    (t : KvTables) (k : KvKey) → find_current (λ _. true) k t.current ≡ head (log_of k t)
unfolding find_current log_of
find_current-log t k = elim (Option-cases (lookup k t.current)) [
  | inl absent ↦ rw (absent, log_rows, find_current) refl
  | inr (r, found) ↦ rw (found, log_rows, find_current) refl
]

module _ (z_json : Json → Bool) (jsonb : Json → Json) where
  -- the outcome of the validation is no driver error, so it is thrown as it is
  validated :
      (k : KvKey) (o : Option KvRow) (t : KvTables)
      → translating (key_context k) (lift (to_entry_or_null z_json jsonb k o)) t
        ≡ (t, to_entry_or_null z_json jsonb k o)
  unfolding run to_entry_or_null to_entry translate_postgres_error
  validated k none t = refl
  validated k (some r) t = ground arith

  -- From well-formed tables, for a valid key and a valid version, on a call that is not aborted:
  -- `get` returns the head of the key's log, and null if the log is empty; `getAt` by version
  -- returns the log's entry of that version; `getAt` by instant returns the latest entry written at
  -- the instant or before it, and null for an instant before 1970. Each reads without writing, and
  -- an entry is validated as it is returned.
  pub reads_refine :
      (s : Session) (k : KvKey) (n ms : ℕ) (t : KvTables)
      → WellFormed t
      → is_valid_key k ≡ true
      → is_stored_version (pos n) ≡ true
      → (get z_json jsonb (ok s) false k t
          ≡ (t, to_entry_or_null z_json jsonb k (head (log_of k t))))
        × (get_at z_json jsonb (ok s) false k (version (pos n)) t
            ≡ (t, to_entry_or_null z_json jsonb k (first (λ r. r.version == n) (log_of k t))))
        × (get_at z_json jsonb (ok s) false k (at (some (pos ms))) t
            ≡ (t, to_entry_or_null z_json jsonb k (first (λ r. leb r.written_at ms) (log_of k t))))
        × (get_at z_json jsonb (ok s) false k (at (some (negsuc ms))) t ≡ (t, ok none))
  unfolding get get_at select_as_of is_valid_as_of to_entry_or_null
  reads_refine s k n ms t w key_ok n_ok = (
    rw
        (
          lift->>=_ok (ok s) _ t refl,
          require->>=_true _ _ _ t key_ok,
          require->>=_true _ _ _ t refl,
          query->>=,
          find_current-log,
        )
        (validated k (head (log_of k t)) t),
    rw
        (
          lift->>=_ok (ok s) _ t refl,
          require->>=_true _ _ _ t key_ok,
          require->>=_true _ _ _ t n_ok,
          require->>=_true _ _ _ t refl,
          query->>=,
          select_version-log t k n w,
        )
        (validated k (first (λ r. r.version == n) (log_of k t)) t),
    rw
        (
          lift->>=_ok (ok s) _ t refl,
          require->>=_true _ _ _ t key_ok,
          require->>=_true _ _ _ t refl,
          require->>=_true _ _ _ t refl,
          query->>=,
          select_at-log t k ms w,
        )
        (validated k (first (λ r. leb r.written_at ms) (log_of k t)) t),
    rw
        (
          lift->>=_ok (ok s) _ t refl,
          require->>=_true _ _ _ t key_ok,
          require->>=_true _ _ _ t refl,
          require->>=_true _ _ _ t refl,
          query->>=,
        )
        (validated k none t),
  )

  -- After a successful `put`, from well-formed tables and with a jsonb column that keeps values
  -- valid: the key's entry of the new version is the returned one and the entry of any other
  -- version is what it was; at any instant from the new entry's `writtenAt` on, the reads give the
  -- new entry, and at any earlier instant what they gave before.
  pub put_keeps_past :
      ((v : Json) → is_json_value z_json v ≡ true → is_json_value z_json (jsonb v) ≡ true)
      → (conn : Result Session) (is_aborted : Bool) (k : KvKey) (v : Json) (expected : Option ℤ)
        (t t' : KvTables) (e : VersionedEntry) (n ms : ℕ)
      → WellFormed t
      → put z_json jsonb conn is_aborted k v expected t ≡ (t', ok e)
      → (select_version k n t'
          ≡ (if e.version == n then some (entry_row e) else select_version k n t))
        × (select_at k ms t'
            ≡ (if leb e.written_at ms then some (entry_row e) else select_at k ms t))
  put_keeps_past jsonb_valid conn is_aborted k v expected t t' e n ms w h =
      let w' : WellFormed t' =
        rw h at (put-WellFormed z_json jsonb conn is_aborted k v expected t w) in
      let spec : PutSpec k (bound z_json jsonb v) expected k t t' (ok e) =
        rw h at (put_refines z_json jsonb jsonb_valid conn is_aborted k v expected k t w) in
      let log : log_of k t' ≡ entry_row e ∷ log_of k t =
        rw ((kv_key_beq_iff k k).1 refl) at (spec.0) in
      (
        rw (select_version-log t' k n w', select_version-log t k n w, log) refl,
        rw (select_at-log t' k ms w', select_at-log t k ms w, log) refl,
      )
