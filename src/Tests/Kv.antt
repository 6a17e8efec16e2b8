-- ===== src/Tests/Kv.antt =====
-- The key-value theorems at one key, whose value is written twice.
use umbra_db.Prelude.{
  ◌≡◌, refl, Bool, true, false, none, some, pos, negsuc, [], ◌∷◌, leb, ◌==◌, if◌then◌else◌,
}
use umbra_db.Table.{lookup, put as put_row}
use umbra_db.Json.{
  Json, bool, is_json_value, exceeds_max_depth, depth_loop, push_children, nodes,
  json_value_has_unsafe_text,
}
use umbra_db.Errors.{ok}
use umbra_db.Errors.Translate.{translate_postgres_error}
use umbra_db.Exec.{run}
use umbra_db.KvTables.{
  kv_key_beq, KvKey, KvTables, Session, upsert, insert_row, update_row, stamped, now_ms,
}
use umbra_db.SafeText.{
  is_bounded_text, is_nonempty_text, has_postgres_unsafe_text, has_lone_surrogate,
  is_high_surrogate, is_low_surrogate, starts_with_low,
}
use umbra_db.TemporalKv.{
  VersionedEntry, version, at, is_valid_key, is_stored_version, is_expected_version, put, put_impl,
  bound, write, get, get_at, to_entry, to_entry_or_null, select_version, select_at,
}
use umbra_db.TemporalKv.Timeline.{WellFormed, log_of}
use umbra_db.TemporalKv.Invariant.{put-WellFormed}
use umbra_db.TemporalKv.Refinement.{PutSpec, entry_row, put_refines}
use umbra_db.TemporalKv.Reads.{first}
use umbra_db.TemporalKv.History.{head, reads_refine, put_keeps_past}

-- a schema that takes every value, and a column that gives back what was stored
abbrev any_json : Json → Bool
any_json v = true

abbrev as_stored : Json → Json
as_stored v = v

as_stored_valid :
    (v : Json) → is_json_value any_json v ≡ true → is_json_value any_json (as_stored v) ≡ true
as_stored_valid v h = h

abbrev height : KvKey
height = record { ns = 115 ∷ []; scope = 97 ∷ []; key = 104 ∷ [] }

abbrev empty : KvTables
empty = record { current = []; history = [] }

empty-WellFormed : WellFormed empty
unfolding lookup
empty-WellFormed = record { chained = λ k r h. cc; fresh = λ k h. refl }

abbrev first_session : Session
first_session = record { txid = 1; clock = 5000 }

abbrev second_session : Session
second_session = record { txid = 2; clock = 9000 }

abbrev written : KvTables
written = (put any_json as_stored (ok first_session) false height (bool false) none empty).0

put-WellFormed_example :
    WellFormed (put any_json as_stored (ok first_session) false height (bool false) none empty).0
put-WellFormed_example =
    put-WellFormed any_json as_stored (ok first_session) false height (bool false) none empty
      empty-WellFormed

written-WellFormed : WellFormed written
written-WellFormed =
    put-WellFormed any_json as_stored (ok first_session) false height (bool false) none empty
      empty-WellFormed

put_refines_example :
    PutSpec height
      (bound any_json as_stored (bool true))
      (some (pos 1))
      height
      written
      (put any_json as_stored (ok second_session) false height (bool true) (some (pos 1)) written).0
      (put any_json as_stored (ok second_session) false height (bool true) (some (pos 1)) written).1
put_refines_example =
    put_refines any_json as_stored as_stored_valid (ok second_session) false height (bool true)
      (some (pos 1)) height written written-WellFormed

height-IsValid : is_valid_key height ≡ true
unfolding is_valid_key is_bounded_text is_nonempty_text has_postgres_unsafe_text has_lone_surrogate
    is_high_surrogate is_low_surrogate starts_with_low
height-IsValid = refl

one-IsStored : is_stored_version (pos 1) ≡ true
unfolding is_stored_version
one-IsStored = refl

reads_refine_example :
    (get any_json as_stored (ok second_session) false height written
      ≡ (written, to_entry_or_null any_json as_stored height (head (log_of height written))))
    × (get_at any_json as_stored (ok second_session) false height (version (pos 1)) written ≡ (
      written,
      to_entry_or_null any_json as_stored height
          (first (λ r. r.version == 1) (log_of height written)),
    ))
    × (get_at any_json as_stored (ok second_session) false height (at (some (pos 6))) written ≡ (
      written,
      to_entry_or_null any_json as_stored height
          (first (λ r. leb r.written_at 6) (log_of height written)),
    ))
    × (get_at any_json as_stored (ok second_session) false height (at (some (negsuc 6))) written
        ≡ (written, ok none))
reads_refine_example =
    reads_refine any_json as_stored second_session height 1 6 written written-WellFormed
      height-IsValid one-IsStored

-- what the first put returns
abbrev first_entry : VersionedEntry
first_entry = record { entry_key = height; value = bool false; version = 1; written_at = 5 }

first_put :
    put any_json as_stored (ok first_session) false height (bool false) none empty
    ≡ (written, ok first_entry)
unfolding run put put_impl write bound upsert insert_row update_row to_entry is_valid_key
    is_bounded_text is_nonempty_text has_postgres_unsafe_text has_lone_surrogate is_high_surrogate
    is_low_surrogate starts_with_low is_json_value exceeds_max_depth depth_loop push_children
    is_expected_version is_stored_version now_ms lookup put_row translate_postgres_error kv_key_beq
    nodes json_value_has_unsafe_text stamped
first_put = refl

put_keeps_past_example :
    (select_version height 1 written ≡ (
      if first_entry.version == 1
      then some (entry_row first_entry)
      else select_version height 1 empty))
    × (select_at height 6 written ≡ (
        if leb first_entry.written_at 6
        then some (entry_row first_entry)
        else select_at height 6 empty))
put_keeps_past_example =
    put_keeps_past any_json as_stored as_stored_valid (ok first_session) false height (bool false)
      none empty written first_entry 1 6 empty-WellFormed first_put
