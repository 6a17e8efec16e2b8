-- ===== src/Watermarks.antt =====
-- src/postgres/watermarks.ts: sync cursors, one JSON value for each (kind, key).
pub mod Cursor
use umbra_db.Prelude.{ℕ, ◌≡◌, Bool, true, false, not, Option, none, some, Text, text_eq, pair_eq}
use umbra_db.Table.{lookup, put as put_row}
use umbra_db.Json.{Json, null, is_json_value}
use umbra_db.Errors.{Thrown, storage, validation_failed, Result, ok, fail}
use umbra_db.Exec.{Exec, pure, lift, ◌>>=◌, ◌>>◌, statement, query, require, translating}
use umbra_db.Transaction.{World, resolve_transaction, on_connection}
use umbra_db.Store.{Mark, Marks, Store, on_marks}

-- INSERT ... ON CONFLICT (kind, key) DO UPDATE SET value = EXCLUDED.value, updated_at = now()
unfoldable pub upsert_mark : ℕ → Text → Text → Json → Marks → Result (Marks × Unit {0})
upsert_mark now kind key v marks =
    ok (put_row (kind, key) (record { value = v; updated_at = now }) marks, tt)

-- the caller's transaction, if it passed one
abbrev pub resolve : Option ℕ → Exec (World Store) (Unit {0})
resolve none = pure tt
resolve (some h) = resolve_transaction h

unfoldable pub is_null : Json → Bool
is_null null = true
is_null v = false

abbrev pub value_of : Option Mark → Option Json
value_of none = none
value_of (some m) = some m.value

-- `z_json` is zod's z.json(), and `jsonb` what the column gives back for a stored value.
module _ (z_json : Json → Bool) (jsonb : Json → Json) where
  unfoldable pub set_impl : ℕ → Text → Text → Json → Exec Marks (Unit {0})
  set_impl now kind key v = translating none (statement (upsert_mark now kind key (jsonb v)))

  -- `now` is the start of the transaction that the statement runs in
  unfoldable pub set : ℕ → Option ℕ → Bool → Text → Text → Json → Exec (World Store) (Unit {0})
  set now tx is_aborted kind key v =
      resolve tx
      >> (require (not (is_null v)) (storage validation_failed)
          >> (require (is_json_value z_json v) (storage validation_failed)
              >> (require (not is_aborted) Thrown.aborted
                  >> on_connection tx (on_marks (set_impl now kind key v)))))

unfoldable pub get_impl : Text → Text → Exec Marks (Option Json)
get_impl kind key = translating none (query (λ marks. value_of (lookup (kind, key) marks)))

unfoldable pub get : Option ℕ → Bool → Text → Text → Exec (World Store) (Option Json)
get tx is_aborted kind key = resolve tx >>= λ _.
    require (not is_aborted) Thrown.aborted >>= λ _. on_connection tx (on_marks (get_impl kind key))
