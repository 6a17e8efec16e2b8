-- ===== src/Watermarks/Cursor.antt =====
-- `set` and then `get` of src/postgres/watermarks.ts.
use umbra_db.Prelude.{
  ℕ, ◌≡◌, refl, ap, Bool, true, false, Option, none, some, Text, text_eq, pair_eq, ◌=?◌,
  if◌then◌else◌,
}
use umbra_db.Table.{lookup, lookup-put, put as put_row}
use umbra_db.Json.{Json, is_json_value}
use umbra_db.Errors.{ok}
use umbra_db.Exec.{run}
use umbra_db.Transaction.{World, on_connection, autocommit}
use umbra_db.Store.{Mark, Store, on_marks}
use umbra_db.Watermarks.{upsert_mark, is_null, value_of, set_impl, set, get_impl, get}

abbrev pub is_same_cursor : Text × Text → Text × Text → Bool
is_same_cursor = ◌=?◌ {Key = Text × Text}

module _ (z_json : Json → Bool) (jsonb : Json → Json) where
  -- the store with the cursor set
  abbrev pub marked : ℕ → Text → Text → Json → World Store → World Store
  marked now kind key v w = record w {
    store = record w.store {
      marks = put_row (kind, key) (record { value = jsonb v; updated_at = now }) w.store.marks;
    };
    base = record w.base {
      marks = put_row (kind, key) (record { value = jsonb v; updated_at = now }) w.base.marks;
    };
  }

  set_accepts :
      (now : ℕ) (kind key : Text) (v : Json) (w : World Store)
      → is_null v ≡ false
      → is_json_value z_json v ≡ true
      → set z_json jsonb now none false kind key v w ≡ (marked now kind key v w, ok tt)
  unfolding set set_impl upsert_mark on_marks on_connection autocommit run
  set_accepts now kind key v w present valid = rw (present, valid) refl

  get_reads :
      (kind key : Text) (w : World Store)
      → get none false kind key w ≡ (w, ok (value_of (lookup (kind, key) w.base.marks)))
  unfolding get get_impl on_marks on_connection autocommit run
  get_reads kind key w = refl

  result_put :
      (same : Bool) (m : Mark) (o : Option Mark)
      → ok (value_of (if same then some m else o))
        ≡ (if same then ok (some m.value) else ok (value_of o))
  result_put true m o = refl
  result_put false m o = refl

  -- A set of a valid value that is not null, outside a transaction and not aborted, returns; the
  -- get of any cursor then reads the stored form of the value if it is that cursor, and otherwise
  -- what the cursor's get read before; a get changes nothing.
  pub set-get :
      (now : ℕ) (kind key kind' key' : Text) (v : Json) (w : World Store)
      → is_null v ≡ false
      → is_json_value z_json v ≡ true
      → (w' : World Store) × (set z_json jsonb now none false kind key v w ≡ (w', ok tt))
        × (get none false kind' key' w' ≡ (
          w',
          (if is_same_cursor (kind, key) (kind', key')
              then ok (some (jsonb v))
              else (get none false kind' key' w).1),
        ))
  set-get now kind key kind' key' v w present valid =
      let m : Mark = record { value = jsonb v; updated_at = now } in
      let w' = marked now kind key v w in
      (
        w',
        set_accepts now kind key v w present valid,
        rw
            (
              get_reads kind' key' w',
              get_reads kind' key' w,
              lookup-put (kind, key) (kind', key') m w.base.marks,
            )
            (ap (λ r. (w', r))
              (result_put (is_same_cursor (kind, key) (kind', key')) m
                (lookup (kind', key') w.base.marks))),
      )
