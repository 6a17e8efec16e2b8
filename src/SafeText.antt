-- ===== src/SafeText.antt =====
-- `hasPostgresUnsafeText` of src/interfaces/temporal-kv.ts. A JavaScript string is the list of its
-- UTF-16 code units. PostgreSQL stores no NUL and no unpaired surrogate.
pub mod Utf16
use umbra_db.Prelude.{
  ℕ, Bool, true, false, not, ◌&&◌, ◌||◌, [], ◌∷◌, Text, leb, ltb, length, ◌==◌, any,
}

-- [\uD800-\uDBFF]
unfoldable pub is_high_surrogate : ℕ → Bool
is_high_surrogate c = leb 0xD800 c && leb c 0xDBFF

-- [\uDC00-\uDFFF]
unfoldable pub is_low_surrogate : ℕ → Bool
is_low_surrogate c = leb 0xDC00 c && leb c 0xDFFF

-- (?![\uDC00-\uDFFF])
unfoldable pub starts_with_low : Text → Bool
starts_with_low [] = false
starts_with_low (c ∷ s) = is_low_surrogate c

-- LONE_SURROGATE_PATTERN.test(s), from a position whose previous unit is a high surrogate or not:
-- a high surrogate with no low one after it, or a low one with no high one before it.
unfoldable pub has_lone_surrogate : Bool → Text → Bool
unfolding starts_with_low
has_lone_surrogate after_high [] = false
has_lone_surrogate after_high (c ∷ s) =
    (is_high_surrogate c && not (starts_with_low s))
    || ((is_low_surrogate c && not after_high) || has_lone_surrogate (is_high_surrogate c) s)

unfoldable pub has_postgres_unsafe_text : Text → Bool
has_postgres_unsafe_text s = any (λ c. c == 0) s || has_lone_surrogate false s

-- z.string().min(1).max(limit).refine(s => !hasPostgresUnsafeText(s))
unfoldable pub is_bounded_text : ℕ → Text → Bool
is_bounded_text limit s =
    leb 1 (length s) && (leb (length s) limit && not (has_postgres_unsafe_text s))

-- z.string().min(1).refine(s => !hasPostgresUnsafeText(s))
unfoldable pub is_nonempty_text : Text → Bool
is_nonempty_text s = leb 1 (length s) && not (has_postgres_unsafe_text s)
