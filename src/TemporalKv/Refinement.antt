-- ===== src/TemporalKv/Refinement.antt =====
-- The contract of `put` of src/postgres/temporal-kv.ts on the log of a key.
use umbra_db.Prelude.{
  ℕ, zero, suc, ◌+◌, ◌≡◌, refl, sym, Bool, true, false, Option, none, some, length, arith, inl, inr,
  ◌⊎◌, ℤ, pos, negsuc,
}
use umbra_db.Json.{Json, null, bool, num, str, arr, obj, is_json_value}
use umbra_db.Errors.{Result-cases, Result, ok, fail, Thrown}
use umbra_db.Exec.Steps.{statement->>=_ok, statement->>=_fail, lift->>=_ok}
use umbra_db.Exec.{throw, require, ◌>>◌, run, lift, translating, Exec}
use umbra_db.TemporalKv.{
  KvRow, of_current, conflict, is_valid_key, to_entry, VersionedEntry, entry_or_conflict, write,
  put_impl, put, key_context, bound,
}
use umbra_db.KvTables.{
  KvKey, CurrentRow, KvTables, Session, upsert, insert_if_absent, update_if_version,
}
use umbra_db.TemporalKv.Timeline.{WellFormed, log_of}
use umbra_db.TemporalKv.Puts.{
  Appended, log_after, upsert-Appended, insert_if_absent-Appended, update_if_version-Appended,
}

-- expectedVersion against the number of entries in the log of the key
abbrev pub Expects : Option ℤ → ℕ → Type 0
Expects none n = Unit
Expects (some (pos m)) n = m ≡ n
Expects (some (negsuc m)) n = ⊥

abbrev pub entry_row : VersionedEntry → KvRow
entry_row e = record { value = e.value; version = e.version; written_at = e.written_at }

-- What a caller of `put` on the key `k` that binds `v`, the stored form of its value or NULL, may
-- rely on, for the log of any key `j`.
abbrev pub PutSpec :
    KvKey → Option Json → Option ℤ → KvKey → KvTables → KvTables → Result VersionedEntry → Type 0
PutSpec k v expected j t t' (ok e) =
    (log_of j t' ≡ log_after k (entry_row e) t j)
    × (e.entry_key ≡ k)
    × (some e.value ≡ v)
    × (e.version ≡ length (log_of k t) + 1)
    × Expects expected (length (log_of k t))
PutSpec k v expected j t t' (fail x) = t' ≡ t

module _ (z_json : Json → Bool) (jsonb : Json → Json)
    (jsonb_valid : (v : Json)
      → is_json_value z_json v ≡ true
      → is_json_value z_json (jsonb v) ≡ true) where
  same_stored :
      (v w : Json)
      → is_json_value z_json v ≡ true
      → some w ≡ some (jsonb v)
      → is_json_value z_json w ≡ true
  same_stored v w valid h = let same : w ≡ jsonb v = cc in rw same (jsonb_valid v valid)

  -- what the column holds passes the schema
  stored_valid :
      (v w : Json)
      → is_json_value z_json v ≡ true
      → some w ≡ bound z_json jsonb v
      → is_json_value z_json w ≡ true
  unfolding bound
  stored_valid null w valid h = absurd (cc h)
  stored_valid (bool b) w valid h = same_stored (bool b) w valid h
  stored_valid (num n) w valid h = same_stored (num n) w valid h
  stored_valid (str s) w valid h = same_stored (str s) w valid h
  stored_valid (arr xs) w valid h = same_stored (arr xs) w valid h
  stored_valid (obj fs) w valid h = same_stored (obj fs) w valid h

  module _ (s : Session) (k : KvKey) (v : Json) (j : KvKey) (t : KvTables)
      (key_ok : is_valid_key k ≡ true) (value_ok : is_json_value z_json v ≡ true) where
    -- the row that was written passes the validation of `toEntry`
    returns_row :
        (expected : Option ℤ) (t' : KvTables) (r : CurrentRow)
        → Appended k (bound z_json jsonb v) t t' r j
        → Expects expected (length (log_of k t))
        → PutSpec k (bound z_json jsonb v) expected j t t' (to_entry z_json jsonb k (of_current r))
    unfolding to_entry
    returns_row expected t' r a e =
        rw (key_ok, a.fits, stored_valid v r.value value_ok a.value)
          (a.log, refl, a.value, a.counts, e)

    conflict-PutSpec :
        (expected : Option ℤ) (n : ℕ)
        → PutSpec k
            (bound z_json jsonb v)
            expected
            j
            t
            (conflict z_json jsonb k n t).0
            (conflict z_json jsonb k n t).1
    unfolding conflict
    conflict-PutSpec expected n = ground arith

    outcome-PutSpec :
        (n : ℕ) (t' : KvTables) (o : Option CurrentRow)
        → ((o ≡ none) × (t' ≡ t))
          ⊎ ((r : CurrentRow) × (o ≡ some r)
              × Appended k (bound z_json jsonb v) t t' r j
              × (length (log_of k t) ≡ n))
        → PutSpec k
            (bound z_json jsonb v)
            (some (pos n))
            j
            t
            (entry_or_conflict z_json jsonb k n o t').0
            (entry_or_conflict z_json jsonb k n o t').1
    unfolding entry_or_conflict lift
    outcome-PutSpec n t' o (inl (none_written, same)) =
        rw (none_written, same) (conflict-PutSpec (some (pos n)) n)
    outcome-PutSpec n t' o (inr (r, wrote, a, at_n)) =
        rw wrote (returns_row (some (pos n)) t' r a (sym at_n))

    write-PutSpec :
        (expected : Option ℤ)
        → WellFormed t
        → PutSpec k
            (bound z_json jsonb v)
            expected
            j
            t
            (write z_json jsonb s k v expected t).0
            (write z_json jsonb s k v expected t).1
    unfolding write
    write-PutSpec none w = elim (Result-cases (upsert s k (bound z_json jsonb v) t)) [
      | inl ((t', r), h) ↦ rw (statement->>=_ok (upsert s k (bound z_json jsonb v)) _ t h) (
          unfold lift in
          returns_row none t' r (upsert-Appended s k (bound z_json jsonb v) t t' r j w h) tt)
      | inr (e, h) ↦ rw (statement->>=_fail (upsert s k (bound z_json jsonb v)) _ t h) refl
    ]
    write-PutSpec (some (pos zero)) w =
        elim (Result-cases (insert_if_absent s k (bound z_json jsonb v) t)) [
          | inl ((t', o), h) ↦
              rw (statement->>=_ok (insert_if_absent s k (bound z_json jsonb v)) _ t h) (
                outcome-PutSpec 0 t' o
                  (insert_if_absent-Appended s k (bound z_json jsonb v) t t' o j w h))
          | inr (e, h) ↦
              rw (statement->>=_fail (insert_if_absent s k (bound z_json jsonb v)) _ t h) refl
        ]
    write-PutSpec (some (pos (suc n))) w =
        elim (Result-cases (update_if_version s k (bound z_json jsonb v) (suc n) t)) [
          | inl ((t', o), h) ↦
              rw (statement->>=_ok (update_if_version s k (bound z_json jsonb v) (suc n)) _ t h) (
                outcome-PutSpec (suc n) t' o
                  (update_if_version-Appended s k (bound z_json jsonb v) (suc n) t t' o j w h))
          | inr (e, h) ↦
              rw (statement->>=_fail (update_if_version s k (bound z_json jsonb v) (suc n)) _ t h)
                refl
        ]
    write-PutSpec (some (negsuc n)) w = unfold throw in refl

    translating-PutSpec :
        (expected : Option ℤ) (out : KvTables × Result VersionedEntry)
        → PutSpec k (bound z_json jsonb v) expected j t out.0 out.1
        → PutSpec k
            (bound z_json jsonb v)
            expected
            j
            t
            (translating (key_context k) (λ (_ : KvTables). out) t).0
            (translating (key_context k) (λ (_ : KvTables). out) t).1
    unfolding translating
    translating-PutSpec expected (t', ok e) h = h
    translating-PutSpec expected (t', fail x) h = h

  guarded :
      (k : KvKey) (v : Json) (expected : Option ℤ) (j : KvKey) (t : KvTables) (b : Bool)
      (x : Thrown) (m : Exec KvTables VersionedEntry)
      → (b ≡ true → PutSpec k (bound z_json jsonb v) expected j t (m t).0 (m t).1)
      → PutSpec k
          (bound z_json jsonb v)
          expected
          j
          t
          ((require b x >> m) t).0
          ((require b x >> m) t).1
  unfolding run
  guarded k v expected j t true x m h = h refl
  guarded k v expected j t false x m h = refl

  -- If the jsonb column gives a valid value back for each valid value, then, from well-formed
  -- tables: a `put` that returns an entry has added exactly that entry at the head of the log of
  -- its key, with the stored form of the value, which was no top-level null, and a version one
  -- above the number of earlier entries, which is the expectedVersion if one was given; the log of
  -- every other key is as it was. A `put` that throws, for whatever reason, has changed nothing.
  pub put_refines :
      (conn : Result Session) (is_aborted : Bool) (k : KvKey) (v : Json) (expected : Option ℤ)
      (j : KvKey) (t : KvTables)
      → WellFormed t
      → PutSpec k
          (bound z_json jsonb v)
          expected
          j
          t
          (put z_json jsonb conn is_aborted k v expected t).0
          (put z_json jsonb conn is_aborted k v expected t).1
  unfolding put put_impl translating
  put_refines (fail e) is_aborted k v expected j t w = unfold run in refl
  put_refines (ok s) is_aborted k v expected j t w = rw (lift->>=_ok (ok s) _ t refl) (
      guarded k v expected j t _ _ _ λ key_ok. guarded k v expected j t _ _ _ λ value_ok.
        guarded k v expected j t _ _ _ λ _. guarded k v expected j t _ _ _ λ _.
          translating-PutSpec s k v j t key_ok value_ok expected
            (write z_json jsonb s k v expected t)
            (write-PutSpec s k v j t key_ok value_ok expected w))
