-- ===== src/TxHistory/Entry/Decoding.antt =====
-- What decoding a stored row may give (decodeRow and rowToEntry of
-- src/postgres/transaction-history-storage.ts), whatever the row holds.
use umbra_db.Prelude.{
  ◌≡◌, refl, Bool, true, false, Option, none, some, Text, text_beq, units, ℤ, inl, inr, Bool-cases,
  if◌then◌else◌,
}
use umbra_db.Errors.{
  Thrown, storage, serialization_failed, validation_failed, Result, ok, fail, ◌>>=◌,
}
use umbra_db.Json.{Json, Items, Fields, null, num, str, arr, obj, nil, cons, end, field}
use umbra_db.TxHistory.Bigint.{is_canonical_bigint, parse_stored_bigint}
use umbra_db.TxHistory.Content.{EntryContent, is_valid_date}
use umbra_db.TxHistory.Codec.{
  tag_value, untag, parse_stored_date, decode_content, decode_contents, decode_sections, bigint_tag,
  date_tag,
}
use umbra_db.TxHistory.Entry.{
  TransactionHistoryEntry, Numbers, is_entry, property, read_status, read_number,
  read_lifecycle_text, read_lifecycle, read_optional, bigint_of, read_fees, sections_object,
  TxHistoryRow, only_storage_errors, date_of, checked, decode_fields, decode_json, decode_row,
  row_to_entry,
}

-- the two errors of a row that is no entry
abbrev pub IsCorrupt : Thrown → Type 0
IsCorrupt (storage validation_failed) = Unit
IsCorrupt (storage serialization_failed) = Unit
IsCorrupt e = ⊥

-- a value as described, or one of the two errors
abbrev pub Yields {ℓ} : {A : Type ℓ} → (A → Type 0) → Result A → Type 0
Yields P (ok a) = P a
Yields P (fail e) = IsCorrupt e

abbrev Decodes {ℓ} : {A : Type ℓ} → Result A → Type 0
Decodes = Yields (λ a. Unit)

module _ {ℓ} {A B : Type ℓ} (Q : B → Type 0) where
  Yields->>= :
      (r : Result A) (f : A → Result B)
      → Decodes r
      → ((a : A) → Yields Q (f a))
      → Yields Q (r >>= f)
  Yields->>= (ok a) f h g = g a
  Yields->>= (fail e) f h g = h

module _ {ℓ} {A B : Type ℓ} where
  Decodes->>= :
      (r : Result A) (f : A → Result B) → Decodes r → ((a : A) → Decodes (f a)) → Decodes (r >>= f)
  Decodes->>= = Yields->>= (λ b. Unit)

Decodes-if :
    {A : Type 0} (b : Bool) (r s : Result A) → Decodes r → Decodes s → Decodes (if b then r else s)
Decodes-if true r s h g = h
Decodes-if false r s h g = g

bigint-Decodes : (raw : Text) → Decodes (parse_stored_bigint raw)
unfolding parse_stored_bigint
bigint-Decodes raw = Decodes-if (is_canonical_bigint raw) _ _ tt tt

status-Decodes : (v : Json) → Decodes (read_status v)
unfolding read_status
status-Decodes (str s) = Decodes-if (text_beq s (units "success")) _ _ tt (
    Decodes-if (text_beq s (units "partialSuccess")) _ _ tt
      (Decodes-if (text_beq s (units "failure")) _ _ tt tt))
status-Decodes null = tt
status-Decodes (Json.bool b) = tt
status-Decodes (num n) = tt
status-Decodes (arr xs) = tt
status-Decodes (obj fs) = tt

number-Decodes : (v : Json) → Decodes (read_number v)
unfolding read_number
number-Decodes (str s) = tt
number-Decodes null = tt
number-Decodes (Json.bool b) = tt
number-Decodes (num n) = tt
number-Decodes (arr xs) = tt
number-Decodes (obj fs) = tt

lifecycle_text-Decodes : (o : Option Json) → Decodes (read_lifecycle_text o)
unfolding read_lifecycle_text
lifecycle_text-Decodes (some (str s)) = Decodes-if (text_beq s (units "pending")) _ _ tt (
    Decodes-if (text_beq s (units "finalized")) _ _ tt
      (Decodes-if (text_beq s (units "rejected")) _ _ tt tt))
lifecycle_text-Decodes none = tt
lifecycle_text-Decodes (some null) = tt
lifecycle_text-Decodes (some (Json.bool b)) = tt
lifecycle_text-Decodes (some (num n)) = tt
lifecycle_text-Decodes (some (arr xs)) = tt
lifecycle_text-Decodes (some (obj fs)) = tt

lifecycle-Decodes : (o : Option Json) → Decodes (read_lifecycle o)
unfolding read_lifecycle
lifecycle-Decodes (some (obj fs)) = lifecycle_text-Decodes (property (units "status") fs)
lifecycle-Decodes none = tt
lifecycle-Decodes (some null) = tt
lifecycle-Decodes (some (Json.bool b)) = tt
lifecycle-Decodes (some (num n)) = tt
lifecycle-Decodes (some (str s)) = tt
lifecycle-Decodes (some (arr xs)) = tt

sections_object-Decodes : (o : Option Json) → Decodes (sections_object o)
unfolding sections_object
sections_object-Decodes (some (obj fs)) = tt
sections_object-Decodes none = tt
sections_object-Decodes (some null) = tt
sections_object-Decodes (some (Json.bool b)) = tt
sections_object-Decodes (some (num n)) = tt
sections_object-Decodes (some (str s)) = tt
sections_object-Decodes (some (arr xs)) = tt

fees-Decodes : (v : Json) → Decodes (read_fees v)
unfolding read_fees bigint_of
fees-Decodes null = tt
fees-Decodes (str raw) = Decodes->>= (parse_stored_bigint raw) _ (bigint-Decodes raw) λ z. tt
fees-Decodes (Json.bool b) = tt
fees-Decodes (num n) = tt
fees-Decodes (arr xs) = tt
fees-Decodes (obj fs) = tt

optional-Decodes :
    {A : Type 0} (read : Json → Result A) (o : Option Json)
    → ((v : Json) → Decodes (read v))
    → Decodes (read_optional read o)
unfolding read_optional
optional-Decodes read none h = tt
optional-Decodes read (some v) h = Decodes->>= (read v) _ (h v) λ a. tt

module _ (iso : ℤ → Text) (new_date : Text → ℤ) where
  date-Decodes : (raw : Text) → Decodes (parse_stored_date iso new_date raw)
  unfolding parse_stored_date
  date-Decodes raw =
      Decodes-if (is_valid_date (new_date raw)) _ _
        (Decodes-if (text_beq (iso (new_date raw)) raw) _ _ tt tt) tt

  date_of-Decodes : (v : Json) → Decodes (date_of iso new_date v)
  unfolding date_of
  date_of-Decodes (str raw) = date-Decodes raw
  date_of-Decodes null = tt
  date_of-Decodes (Json.bool b) = tt
  date_of-Decodes (num n) = tt
  date_of-Decodes (arr xs) = tt
  date_of-Decodes (obj fs) = tt

  untag-Decodes :
      (b d : Option Text) (plain : Result EntryContent)
      → Decodes plain
      → Decodes (untag iso new_date b d plain)
  unfolding untag
  untag-Decodes (some raw) d plain h =
      Decodes->>= (parse_stored_bigint raw) _ (bigint-Decodes raw) (λ z. tt)
  untag-Decodes none (some raw) plain h =
      Decodes->>= (parse_stored_date iso new_date raw) _ (date-Decodes raw) (λ z. tt)
  untag-Decodes none none plain h = h

  mutual
    unfolding decode_content

    content-Decodes : (v : Json) → Decodes (decode_content iso new_date v)
    content-Decodes null = tt
    content-Decodes (Json.bool b) = tt
    content-Decodes (num n) = tt
    content-Decodes (str s) = tt
    content-Decodes (arr xs) =
        Decodes->>= (decode_contents iso new_date xs) _ (items-Decodes xs) (λ y. tt)
    content-Decodes (obj fs) =
        untag-Decodes (tag_value bigint_tag fs) (tag_value date_tag fs) _
          (Decodes->>= (decode_sections iso new_date fs) _ (sections-Decodes fs) (λ y. tt))

    items-Decodes : (xs : Items) → Decodes (decode_contents iso new_date xs)
    items-Decodes nil = tt
    items-Decodes (cons x xs) =
        Decodes->>= (decode_content iso new_date x) _ (content-Decodes x)
          λ y. Decodes->>= (decode_contents iso new_date xs) _ (items-Decodes xs) (λ ys. tt)

    sections-Decodes : (fs : Fields) → Decodes (decode_sections iso new_date fs)
    sections-Decodes end = tt
    sections-Decodes (field k v fs) =
        Decodes->>= (decode_content iso new_date v) _ (content-Decodes v)
          λ y. Decodes->>= (decode_sections iso new_date fs) _ (sections-Decodes fs) (λ ys. tt)

  module _ (z : Numbers) where
    -- an entry of the schema with the row's key and identifiers
    abbrev pub IsEntryOf : Text → TxHistoryRow → TransactionHistoryEntry → Type 0
    IsEntryOf tx_hash row e =
        (is_entry z e ≡ true) × (e.hash ≡ tx_hash) × (e.identifiers ≡ row.identifiers)

    checked-Yields :
        (tx_hash : Text) (row : TxHistoryRow) (e : TransactionHistoryEntry)
        → e.hash ≡ tx_hash
        → e.identifiers ≡ row.identifiers
        → Yields (IsEntryOf tx_hash row) (checked z e)
    unfolding checked
    checked-Yields tx_hash row e h i = elim (Bool-cases (is_entry z e)) [
      | inl valid ↦ rw valid (valid, h, i)
      | inr invalid ↦ rw invalid tt
    ]

    fields-Yields :
        (tx_hash : Text) (row : TxHistoryRow) (fs : Fields)
        → Yields (IsEntryOf tx_hash row) (decode_fields z iso new_date tx_hash row fs)
    unfolding decode_fields
    fields-Yields tx_hash row fs =
        let Q = IsEntryOf tx_hash row in
        Yields->>= Q _ _ (sections_object-Decodes (property (units "sections") fs)) λ gs.
          Yields->>= Q _ _ (optional-Decodes _ (property (units "timestamp") fs) date_of-Decodes)
            λ t.
              Yields->>= Q _ _ (optional-Decodes _ (property (units "fees") fs) fees-Decodes) λ f.
                Yields->>= Q _ _ (sections-Decodes gs) λ sections.
                  Yields->>= Q _ _
                    (optional-Decodes _ (property (units "protocolVersion") fs) number-Decodes)
                    λ n.
                      Yields->>= Q _ _
                        (optional-Decodes _ (property (units "status") fs) status-Decodes)
                        λ s.
                          Yields->>= Q _ _ (lifecycle-Decodes (property (units "lifecycle") fs))
                            λ l. checked-Yields tx_hash row _ refl refl

    json-Yields :
        (tx_hash : Text) (row : TxHistoryRow) (v : Json)
        → Yields (IsEntryOf tx_hash row) (decode_json z iso new_date tx_hash row v)
    unfolding decode_json
    json-Yields tx_hash row (obj fs) = fields-Yields tx_hash row fs
    json-Yields tx_hash row null = tt
    json-Yields tx_hash row (Json.bool b) = tt
    json-Yields tx_hash row (num n) = tt
    json-Yields tx_hash row (str s) = tt
    json-Yields tx_hash row (arr xs) = tt

    storage_errors-Yields :
        (P : TransactionHistoryEntry → Type 0) (r : Result TransactionHistoryEntry)
        → Yields P r
        → Yields P (only_storage_errors r)
    unfolding only_storage_errors
    storage_errors-Yields P (ok e) h = h
    storage_errors-Yields P (fail (storage e)) h = h
    storage_errors-Yields P (fail e) h = tt

    -- Whatever JSON and columns a stored row holds, reading it gives an entry that passes the
    -- schema and has the row's hash and identifiers, or throws a ValidationError or a
    -- SerializationFailedError.
    pub row_to_entry-Yields :
        (tx_hash : Text) (row : TxHistoryRow)
        → Yields (IsEntryOf tx_hash row) (row_to_entry z iso new_date tx_hash row)
    unfolding row_to_entry decode_row
    row_to_entry-Yields tx_hash row = storage_errors-Yields _ _ (json-Yields tx_hash row row.entry)
