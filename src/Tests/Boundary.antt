-- ===== src/Tests/Boundary.antt =====
-- The boundary theorems at a short text, a nested value and two errors.
use umbra_db.Prelude.{◌≡◌, ◌↔◌, refl, true, false, ◌||◌, [], ◌∷◌, none, some, Text, ltb}
use umbra_db.Errors.{DriverError, StorageError, driver, storage}
use umbra_db.Errors.Translate.{translate_postgres_error, is_pg_driver_error, is_connection_code}
use umbra_db.Errors.Translate.Laws.{
  IsTranslated, retries, is_transient_code, translate-IsTranslated, translate_retryable_iff,
}
use umbra_db.SafeText.{has_postgres_unsafe_text}
use umbra_db.SafeText.Utf16.{WellFormed, safe_text_iff}
use umbra_db.Json.{Json, arr, cons, nil, null, exceeds_max_depth}
use umbra_db.Json.Depth.{depth, exceeds_max_depth_iff}

abbrev deadlock : DriverError
deadlock = record { code = "40P01"; constraint_name = none; has_severity = true }

translate-IsTranslated_example :
    IsTranslated (translate_postgres_error (driver deadlock) none)
    × (translate_postgres_error (translate_postgres_error (driver deadlock) none) none
        ≡ translate_postgres_error (driver deadlock) none)
translate-IsTranslated_example = translate-IsTranslated (driver deadlock) none none

deadlock-IsGenuine : is_pg_driver_error deadlock ≡ true
unfolding is_pg_driver_error
deadlock-IsGenuine = refl

translate_retryable_iff_example :
    (s : StorageError) × (translate_postgres_error (driver deadlock) none ≡ storage s)
    × (retries s ≡ (is_connection_code deadlock.code || is_transient_code deadlock.code))
translate_retryable_iff_example = translate_retryable_iff deadlock none deadlock-IsGenuine

-- U+1F600 as a surrogate pair, then a letter
abbrev smile : Text
smile = 55357 ∷ 56832 ∷ 97 ∷ []

safe_text_iff_example : (has_postgres_unsafe_text smile ≡ false) ↔ WellFormed smile
safe_text_iff_example = safe_text_iff smile

abbrev nested : Json
nested = arr (cons (arr (cons null nil)) nil)

exceeds_max_depth_iff_example : exceeds_max_depth nested 1 ≡ some (ltb 1 (depth nested))
exceeds_max_depth_iff_example = exceeds_max_depth_iff nested 1
