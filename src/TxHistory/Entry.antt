-- ===== src/TxHistory/Entry.antt =====
-- TransactionHistoryEntry and its schema (src/interfaces/transaction-history-storage.ts), and its
-- stored form: encodeStoredEntry, assertStoredEntryShape, decodeRow and rowToEntry of
-- src/postgres/transaction-history-storage.ts.
pub mod Roundtrip
pub mod Decoding
use umbra_db.Prelude.{
  ℕ, Bool, true, false, not, ◌&&◌, List, [], ◌∷◌, Option, none, some, Text, text_beq, all, ℤ, units,
  if◌then◌else◌,
}
use umbra_db.SafeText.{is_nonempty_text}
use umbra_db.Errors.{
  Thrown, storage, serialization_failed, validation_failed, Result, ok, fail, ◌>>=◌,
}
use umbra_db.Json.{Json, Items, Fields, null, num, str, arr, obj, nil, cons, end, field}
use umbra_db.TxHistory.Bigint.{bigint_text, parse_stored_bigint}
use umbra_db.TxHistory.Content.{Sections, is_valid_date, are_entry_sections}
use umbra_db.TxHistory.Codec.{to_iso_string, encode_sections, parse_stored_date, decode_sections}

-- EntryLifecycleStatus; an EntryLifecycle has no other field
pub data EntryLifecycle : Type 0 where
  pending finalized rejected : EntryLifecycle

pub data TransactionHistoryStatus : Type 0 where
  success partial_success failure : TransactionHistoryStatus

-- `fees` is absent, null or a bigint; `protocol_version` is the bit pattern of a number
pub record TransactionHistoryEntry : Type 0 where
  pub hash : Text
  pub identifiers : List Text
  pub protocol_version : Option ℕ
  pub status : Option TransactionHistoryStatus
  pub timestamp : Option ℤ
  pub fees : Option (Option ℤ)
  pub lifecycle : EntryLifecycle
  pub sections : Sections

-- The tests of zod's z.number(), and of z.number().int().nonnegative(), on a bit pattern.
pub record Numbers : Type 0 where
  pub is_number : ℕ → Bool
  pub is_natural : ℕ → Bool

unfoldable pub is_optional : {A : Type 0} → (A → Bool) → Option A → Bool
is_optional p none = true
is_optional p (some a) = p a

-- TransactionHistoryEntrySchema, on an entry
unfoldable pub is_entry : Numbers → TransactionHistoryEntry → Bool
unfolding is_optional
is_entry z e =
    is_nonempty_text e.hash
    && (all is_nonempty_text e.identifiers
        && (is_optional z.is_natural e.protocol_version
            && (is_optional is_valid_date e.timestamp
                && are_entry_sections z.is_number e.sections)))

unfoldable pub lifecycle_text : EntryLifecycle → Text
lifecycle_text pending = units "pending"
lifecycle_text finalized = units "finalized"
lifecycle_text rejected = units "rejected"

unfoldable pub status_text : TransactionHistoryStatus → Text
status_text success = units "success"
status_text partial_success = units "partialSuccess"
status_text failure = units "failure"

-- a spread `...(value !== undefined ? { name: value } : {})`
unfoldable pub optional_field : Text → Option Json → Fields → Fields
optional_field name none fs = fs
optional_field name (some v) fs = field name v fs

unfoldable pub text_items : List Text → Items
text_items [] = nil
text_items (s ∷ ss) = cons (str s) (text_items ss)

abbrev pub on_some {ℓ κ} : {A : Type ℓ} {B : Type κ} → (A → B) → Option A → Option B
on_some f none = none
on_some f (some a) = some (f a)

-- entry.fees === null ? null : entry.fees.toString()
unfoldable pub fees_json : Option ℤ → Json
fees_json none = null
fees_json (some z) = str (bigint_text z)

-- The object that stores an entry, from its encoded timestamp and sections. The fields of an object
-- are listed in the order in which jsonb keeps its keys: shorter keys first.
unfoldable pub stored_fields : TransactionHistoryEntry → Option Json → Fields → Fields
stored_fields e timestamp sections = optional_field (units "fees") (on_some fees_json e.fees) (
    field (units "hash") (str e.hash) (
      optional_field (units "status") (on_some (λ s. str (status_text s)) e.status) (
        field (units "sections") (obj sections) (
          field (units "lifecycle")
            (obj (field (units "status") (str (lifecycle_text e.lifecycle)) end))
            (optional_field (units "timestamp") timestamp (
              field (units "identifiers") (arr (text_items e.identifiers)) (
                optional_field (units "protocolVersion") (on_some num e.protocol_version) end)))))))

-- the property of an object, undefined where there is none
unfoldable pub property : Text → Fields → Option Json
property name end = none
property name (field k v fs) = if text_beq k name then some v else property name fs

-- the schema of `status`, on a stored value
unfoldable pub read_status : Json → Result TransactionHistoryStatus
read_status (str s) =
    if text_beq s (units "success")
    then ok success
    else if text_beq s (units "partialSuccess")
    then ok partial_success
    else if text_beq s (units "failure")
    then ok failure
    else fail (storage validation_failed)
read_status v = fail (storage validation_failed)

unfoldable pub read_number : Json → Result ℕ
read_number (num n) = ok n
read_number v = fail (storage validation_failed)

-- EntryLifecycleSchema, on the discriminant
unfoldable pub read_lifecycle_text : Option Json → Result EntryLifecycle
read_lifecycle_text (some (str s)) =
    if text_beq s (units "pending")
    then ok pending
    else if text_beq s (units "finalized")
    then ok finalized
    else if text_beq s (units "rejected")
    then ok rejected
    else fail (storage validation_failed)
read_lifecycle_text v = fail (storage validation_failed)

unfoldable pub read_lifecycle : Option Json → Result EntryLifecycle
read_lifecycle (some (obj fs)) = read_lifecycle_text (property (units "status") fs)
read_lifecycle v = fail (storage validation_failed)

-- a present property through its parser, an absent one as it is
unfoldable pub read_optional : {A : Type 0} → (Json → Result A) → Option Json → Result (Option A)
read_optional read none = ok none
read_optional read (some v) = read v >>= λ a. ok (some a)

-- parseStoredBigint, on any value
unfoldable pub bigint_of : Json → Result ℤ
bigint_of (str raw) = parse_stored_bigint raw
bigint_of v = fail (storage serialization_failed)

-- stored.fees === null ? null : parseStoredBigint(stored.fees, ...)
unfoldable pub read_fees : Json → Result (Option ℤ)
unfolding bigint_of
read_fees null = ok none
read_fees v = bigint_of v >>= λ z. ok (some z)

-- `entry.sections` of assertStoredEntryShape
unfoldable pub sections_object : Option Json → Result Fields
sections_object (some (obj gs)) = ok gs
sections_object v = fail (storage serialization_failed)

-- a row of transaction_history, without its key
pub record TxHistoryRow : Type 0 where
  pub entry : Json
  pub identifiers : List Text
  pub lifecycle : Text
  pub updated_at : ℕ

-- the row that stores an entry
unfoldable pub row_of : ℕ → TransactionHistoryEntry → Json → TxHistoryRow
row_of now e entry = record {
  entry = entry;
  identifiers = e.identifiers;
  lifecycle = lifecycle_text e.lifecycle;
  updated_at = now;
}

-- throw err if it is a StorageError, and SerializationFailedError otherwise
unfoldable pub only_storage_errors : {A : Type 0} → Result A → Result A
only_storage_errors (ok a) = ok a
only_storage_errors (fail (storage e)) = fail (storage e)
only_storage_errors (fail e) = fail (storage serialization_failed)

module _ (iso : ℤ → Text) (new_date : Text → ℤ) where
  -- the optional timestamp
  unfoldable pub encode_timestamp : Option ℤ → Result (Option Json)
  encode_timestamp none = ok none
  encode_timestamp (some t) = to_iso_string iso new_date t >>= λ s. ok (some (str s))

  unfoldable pub encode_stored_entry : TransactionHistoryEntry → Result Json
  encode_stored_entry e = encode_timestamp e.timestamp >>= λ timestamp.
      encode_sections iso new_date e.sections >>= λ sections.
      ok (obj (stored_fields e timestamp sections))

  unfoldable pub date_of : Json → Result ℤ
  date_of (str raw) = parse_stored_date iso new_date raw
  date_of v = fail (storage serialization_failed)

-- TransactionHistoryEntrySchema, after the tests on the stored values
unfoldable pub checked : Numbers → TransactionHistoryEntry → Result TransactionHistoryEntry
checked z e = if is_entry z e then ok e else fail (storage validation_failed)

module _ (z : Numbers) (iso : ℤ → Text) (new_date : Text → ℤ) where
  -- decodeRow on the fields of the entry's object
  unfoldable pub decode_fields : Text → TxHistoryRow → Fields → Result TransactionHistoryEntry
  decode_fields tx_hash row fs = sections_object (property (units "sections") fs) >>= λ gs.
      read_optional (date_of iso new_date) (property (units "timestamp") fs) >>= λ timestamp.
      read_optional read_fees (property (units "fees") fs) >>= λ fees.
      decode_sections iso new_date gs >>= λ sections.
      read_optional read_number (property (units "protocolVersion") fs) >>= λ version.
      read_optional read_status (property (units "status") fs) >>= λ status.
      read_lifecycle (property (units "lifecycle") fs) >>= λ lifecycle. checked z (record {
        hash = tx_hash;
        identifiers = row.identifiers;
        protocol_version = version;
        status = status;
        timestamp = timestamp;
        fees = fees;
        lifecycle = lifecycle;
        sections = sections;
      })

  -- assertStoredEntryShape and decodeRow
  unfoldable pub decode_json : Text → TxHistoryRow → Json → Result TransactionHistoryEntry
  decode_json tx_hash row (obj fs) = decode_fields tx_hash row fs
  decode_json tx_hash row v = fail (storage serialization_failed)

  unfoldable pub decode_row : Text → TxHistoryRow → Result TransactionHistoryEntry
  decode_row tx_hash row = decode_json tx_hash row row.entry

  unfoldable pub row_to_entry : Text → TxHistoryRow → Result TransactionHistoryEntry
  row_to_entry tx_hash row = only_storage_errors (decode_row tx_hash row)
