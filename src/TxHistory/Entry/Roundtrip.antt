-- ===== src/TxHistory/Entry/Roundtrip.antt =====
-- rowToEntry after encodeStoredEntry of src/postgres/transaction-history-storage.ts.
use umbra_db.Prelude.{
  ℕ, ◌≡◌, refl, ◌∙◌, true, false, Option, none, some, Text, text_beq, text_beq_iff, units, ℤ, inl,
  arith,
}
use umbra_db.Errors.{ok}
use umbra_db.Json.{Json, Fields, str, num, obj, end, field}
use umbra_db.TxHistory.Bigint.{bigint_text}
use umbra_db.TxHistory.Bigint.Decimal.{parse_stored_bigint_iff}
use umbra_db.TxHistory.Content.{is_valid_date, is_content_record, are_entry_sections}
use umbra_db.TxHistory.Codec.{to_iso_string, parse_stored_date, decode_sections}
use umbra_db.TxHistory.Codec.Roundtrip.{sections-ReadsBack}
use umbra_db.TxHistory.Entry.{
  EntryLifecycle, pending, finalized, rejected, TransactionHistoryStatus, success, partial_success,
  failure, TransactionHistoryEntry, Numbers, is_optional, is_entry, lifecycle_text, status_text,
  optional_field, on_some, fees_json, stored_fields, property, read_status, read_number,
  read_lifecycle_text, read_lifecycle, read_optional, bigint_of, read_fees, sections_object,
  TxHistoryRow, only_storage_errors, encode_timestamp, encode_stored_entry, date_of, checked,
  decode_fields, decode_json, decode_row, row_to_entry, row_of,
}

property_skip :
    (name k : Text) (o : Option Json) (fs : Fields)
    → text_beq k name ≡ false
    → property name (optional_field k o fs) ≡ property name fs
unfolding property optional_field
property_skip name k none fs h = refl
property_skip name k (some v) fs h = rw h refl

property_hit :
    (name : Text) (o : Option Json) (fs : Fields)
    → text_beq name name ≡ true
    → property name fs ≡ none
    → property name (optional_field name o fs) ≡ o
unfolding property optional_field
property_hit name none fs h absent = absent
property_hit name (some v) fs h absent = rw h refl

read_status_back :
    (s : Option TransactionHistoryStatus)
    → read_optional read_status (on_some (λ t. str (status_text t)) s) ≡ ok s
unfolding read_optional read_status status_text
read_status_back none = refl
read_status_back (some success) = refl
read_status_back (some partial_success) = refl
read_status_back (some failure) = refl

read_number_back : (n : Option ℕ) → read_optional read_number (on_some num n) ≡ ok n
unfolding read_optional read_number
read_number_back none = refl
read_number_back (some n) = refl

read_lifecycle_back :
    (l : EntryLifecycle)
    → read_lifecycle (some (obj (field (units "status") (str (lifecycle_text l)) end))) ≡ ok l
unfolding read_lifecycle read_lifecycle_text lifecycle_text property
read_lifecycle_back pending = refl
read_lifecycle_back finalized = refl
read_lifecycle_back rejected = refl

read_fees_back : (f : Option (Option ℤ)) → read_optional read_fees (on_some fees_json f) ≡ ok f
unfolding read_optional read_fees fees_json bigint_of
read_fees_back none = refl
read_fees_back (some none) = refl
read_fees_back (some (some z)) = rw ((parse_stored_bigint_iff (bigint_text z) z).1 (inl refl)) refl

-- what the decoder reads from a stored object
stored_fields-properties :
    (e : TransactionHistoryEntry) (t : Option Json) (gs : Fields)
    → (property (units "sections") (stored_fields e t gs) ≡ some (obj gs))
      × (property (units "timestamp") (stored_fields e t gs) ≡ t)
      × (property (units "fees") (stored_fields e t gs) ≡ on_some fees_json e.fees)
      × (property (units "protocolVersion") (stored_fields e t gs) ≡ on_some num e.protocol_version)
      × (property (units "status") (stored_fields e t gs)
          ≡ on_some (λ s. str (status_text s)) e.status)
      × (property (units "lifecycle") (stored_fields e t gs)
          ≡ some (obj (field (units "status") (str (lifecycle_text e.lifecycle)) end)))
unfolding stored_fields property
stored_fields-properties e t gs = (
  property_skip _ _ _ _ refl ∙ property_skip _ _ _ _ refl,
  property_skip _ _ _ _ refl
      ∙ property_skip _ _ _ _ refl
      ∙ property_hit _ _ _ refl (property_skip _ _ _ _ refl),
  property_hit _ _ _ refl
      (property_skip _ _ _ _ refl ∙ property_skip _ _ _ _ refl ∙ property_skip _ _ _ _ refl),
  property_skip _ _ _ _ refl
      ∙ property_skip _ _ _ _ refl
      ∙ property_skip _ _ _ _ refl
      ∙ property_hit _ _ _ refl refl,
  property_skip _ _ _ _ refl
      ∙ property_hit _ _ _ refl (property_skip _ _ _ _ refl ∙ property_skip _ _ _ _ refl),
  property_skip _ _ _ _ refl ∙ property_skip _ _ _ _ refl,
)

valid_parts :
    (z : Numbers) (e : TransactionHistoryEntry)
    → is_entry z e ≡ true
    → (is_optional is_valid_date e.timestamp ≡ true)
      × (is_content_record z.is_number e.sections ≡ true)
unfolding is_entry are_entry_sections
valid_parts z e valid = (ground arith, ground arith)

module _ (z : Numbers) (iso : ℤ → Text) (new_date : Text → ℤ)
    (iso_parses : (t : ℤ) → is_valid_date t ≡ true → new_date (iso t) ≡ t) where
  timestamp_back :
      (t : Option ℤ)
      → is_optional is_valid_date t ≡ true
      → (v : Option Json) × (encode_timestamp iso new_date t ≡ ok v)
        × (read_optional (date_of iso new_date) v ≡ ok t)
  unfolding is_optional encode_timestamp to_iso_string read_optional date_of parse_stored_date
  timestamp_back none valid = (none, refl, refl)
  timestamp_back (some t) valid = (
    some (str (iso t)),
    rw valid refl,
    rw (iso_parses t valid, valid, (text_beq_iff (iso t) (iso t)).1 refl) refl,
  )

  decode_stored :
      (e : TransactionHistoryEntry) (row : TxHistoryRow) (v : Option Json) (gs : Fields)
      → is_entry z e ≡ true
      → read_optional (date_of iso new_date) v ≡ ok e.timestamp
      → decode_sections iso new_date gs ≡ ok e.sections
      → row.identifiers ≡ e.identifiers
      → row.entry ≡ obj (stored_fields e v gs)
      → row_to_entry z iso new_date e.hash row ≡ ok e
  unfolding row_to_entry decode_row decode_json decode_fields only_storage_errors sections_object
      checked
  decode_stored e row v gs valid time sections same entry =
      let (at_sections, at_timestamp, at_fees, at_version, at_status, at_lifecycle) =
        stored_fields-properties e v gs in
      rw
        (
          entry,
          at_sections,
          at_timestamp,
          time,
          at_fees,
          read_fees_back e.fees,
          sections,
          at_version,
          read_number_back e.protocol_version,
          at_status,
          read_status_back e.status,
          at_lifecycle,
          read_lifecycle_back e.lifecycle,
          same,
          valid,
        )
        refl

  -- An entry that passes its schema is encoded without an error, and the row with the encoded entry
  -- is read back as the entry: bigint and Date values at any depth, absent fields and null fees
  -- included. This assumes that `new Date` reads what toISOString gives for a valid Date as that
  -- Date.
  pub encode_stored_entry-row_to_entry :
      (e : TransactionHistoryEntry) (now : ℕ)
      → is_entry z e ≡ true
      → (j : Json) × (encode_stored_entry iso new_date e ≡ ok j)
        × (row_to_entry z iso new_date e.hash (row_of now e j) ≡ ok e)
  unfolding encode_stored_entry row_of
  encode_stored_entry-row_to_entry e now valid =
      let (dated, filled) = valid_parts z e valid in
      let (v, time, time_back) = timestamp_back e.timestamp dated in
      let (gs, enc, dec, _, _) =
        sections-ReadsBack z.is_number iso new_date iso_parses e.sections filled in
      let back =
        decode_stored e (row_of now e (obj (stored_fields e v gs))) v gs valid time_back dec refl
          refl in
      (obj (stored_fields e v gs), rw (time, enc) refl, back)
