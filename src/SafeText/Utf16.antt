-- ===== src/SafeText/Utf16.antt =====
-- `hasPostgresUnsafeText` against an independent description: the texts that are the UTF-16 form of
-- a sequence of characters other than NUL.
use umbra_db.Prelude.{
  ℕ, ◌≡◌, ◌↔◌, ◌<◌, true, false, [], ◌∷◌, Text, arith, ◌==◌, inl, inr, Bool-cases,
}
use umbra_db.SafeText.{
  is_high_surrogate, is_low_surrogate, has_lone_surrogate, has_postgres_unsafe_text,
}

-- A well-formed UTF-16 text without NUL: each character is one unit outside the surrogates, or a
-- high surrogate and a low one.
pub data WellFormed : Text → Type 0 where
  empty : WellFormed []
  single :
      {c : ℕ} {s : Text}
      → 0 < c
      → is_high_surrogate c ≡ false
      → is_low_surrogate c ≡ false
      → WellFormed s
      → WellFormed (c ∷ s)
  paired :
      {h l : ℕ} {s : Text}
      → is_high_surrogate h ≡ true
      → is_low_surrogate l ≡ true
      → WellFormed s
      → WellFormed (h ∷ l ∷ s)

not_both : (c : ℕ) → is_high_surrogate c ≡ true → is_low_surrogate c ≡ true → ⊥
unfolding is_high_surrogate is_low_surrogate
not_both c h l = ground arith

high_pos : (c : ℕ) → is_high_surrogate c ≡ true → (c == 0) ≡ false
unfolding is_high_surrogate
high_pos c h = ground arith

low_pos : (c : ℕ) → is_low_surrogate c ≡ true → (c == 0) ≡ false
unfolding is_low_surrogate
low_pos c h = ground arith

-- the pattern does not match in a well-formed text
WellFormed→safe : {s : Text} → WellFormed s → has_postgres_unsafe_text s ≡ false
unfolding has_postgres_unsafe_text has_lone_surrogate
WellFormed→safe empty = ground arith
WellFormed→safe (single {c = c} {s = s} p nh nl w) = ground (arith, WellFormed→safe w)
WellFormed→safe (paired {h = h} {l = l} {s = s} hh hl w) =
    ground (arith, not_both h hh, not_both l, high_pos h hh, low_pos l hl, WellFormed→safe w)

pub safe→WellFormed : (s : Text) → has_postgres_unsafe_text s ≡ false → WellFormed s
unfolding has_postgres_unsafe_text has_lone_surrogate
safe→WellFormed [] h = empty
safe→WellFormed (c ∷ []) h =
    single (ground arith) (ground (arith, not_both c)) (ground (arith, not_both c)) empty
safe→WellFormed (c ∷ d ∷ s) h = elim (Bool-cases (is_high_surrogate c)) [
  | inl high ↦
      paired high (ground (arith, not_both c))
        (safe→WellFormed s (ground (arith, not_both c, not_both d)))
  | inr low ↦
      single (ground arith) low (ground (arith, not_both c))
        (safe→WellFormed (d ∷ s) (ground (arith, not_both c)))
]

-- hasPostgresUnsafeText finds nothing in a text exactly when the text is well-formed UTF-16 without
-- NUL.
pub safe_text_iff : (s : Text) → (has_postgres_unsafe_text s ≡ false) ↔ WellFormed s
safe_text_iff s = (safe→WellFormed s, WellFormed→safe)
