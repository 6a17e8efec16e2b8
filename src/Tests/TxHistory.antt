-- ===== src/Tests/TxHistory.antt =====
-- The theorems on the transaction history, at two entries of one wallet.
use umbra_db.Prelude.{
  ℤ, pos, negsuc, ◌≡◌, refl, true, false, ◌⊎◌, inl, List, [], ◌∷◌, ◌↔◌, Option, none, some, Text,
  units, text_eq, pair_eq,
}
use umbra_db.Table.{lookup}
use umbra_db.Errors.{Result, ok, fail}
use umbra_db.Json.{Json}
use umbra_db.Transaction.{Link, committed, World}
use umbra_db.Store.{Store}
use umbra_db.SafeText.{
  has_postgres_unsafe_text, is_nonempty_text, has_lone_surrogate, is_high_surrogate,
  is_low_surrogate,
}
use umbra_db.Json.{exceeds_max_depth, depth_loop, push_children, nodes}
use umbra_db.TxHistory.Bigint.{bigint_text, parse_stored_bigint}
use umbra_db.TxHistory.Bigint.Decimal.{parse_stored_bigint_iff}
use umbra_db.TxHistory.Content.{
  bigint, date, arr, none_left, item, no_section, section, is_valid_date, are_entry_sections,
  is_content_record, record_shape, is_safe_object_key,
}
use umbra_db.TxHistory.Entry.{
  pending, finalized, success, TransactionHistoryEntry, TxHistoryRow, Numbers, is_optional,
  is_entry, row_of, encode_stored_entry, row_to_entry,
}
use umbra_db.TxHistory.Entry.Roundtrip.{encode_stored_entry-row_to_entry}
use umbra_db.TxHistory.Entry.Decoding.{Yields, IsEntryOf, row_to_entry-Yields}
use umbra_db.TxHistory.Rows.{
  TxRows, Runtime, PgTransactionHistoryStorage, existing_entry, result_of, write_rows,
}
use umbra_db.TxHistory.Rows.Cleared.{row_after}
use umbra_db.TxHistory.Rows.Written.{write_rows-row_after}
use umbra_db.TxHistory.Rows.Invariant.{WellStored, write_rows-WellStored}
use umbra_db.TxHistory.Storage.{get, get_all, write}
use umbra_db.TxHistory.Storage.ReadBack.{write-get}
use umbra_db.TxHistory.Storage.Reads.{find_entry, get_all-get}

-- Dates written as their numbers
abbrev read_date : Result ℤ → ℤ
read_date (ok z) = z
read_date (fail e) = pos 0

abbrev numbers : Numbers
numbers = record { is_number = λ n. true; is_natural = λ n. true }

abbrev runtime : Runtime
runtime = record {
  numbers = numbers;
  iso = bigint_text;
  new_date = λ raw. read_date (parse_stored_bigint raw);
  jsonb = λ v. v;
  collates = λ a b. true;
  json_stringify = λ v. [];
}

dates_read : (t : ℤ) → is_valid_date t ≡ true → runtime.new_date (runtime.iso t) ≡ t
dates_read t valid = rw ((parse_stored_bigint_iff (bigint_text t) t).1 (inl refl)) refl

abbrev self : PgTransactionHistoryStorage
self = record { wallet_id = units "w"; merge_fn = λ old new. ok new }

-- an entry with a bigint and a Date in its section
abbrev settled_entry : TransactionHistoryEntry
settled_entry = record {
  hash = units "b";
  identifiers = units "i" ∷ units "j" ∷ [];
  protocol_version = none;
  status = some success;
  timestamp = some (pos 1000);
  fees = some (some (negsuc 4));
  lifecycle = finalized;
  sections =
      section (units "dust") (arr (item (bigint (pos 12)) (item (date (pos 5)) none_left)))
        no_section;
}

abbrev pending_entry : TransactionHistoryEntry
pending_entry = record settled_entry {
  hash = units "a";
  identifiers = units "i" ∷ [];
  fees = some none;
  lifecycle = pending;
}

settled_valid : is_entry numbers settled_entry ≡ true
unfolding is_entry is_optional is_nonempty_text has_postgres_unsafe_text has_lone_surrogate
    is_high_surrogate is_low_surrogate is_valid_date are_entry_sections is_content_record
    record_shape is_safe_object_key exceeds_max_depth depth_loop push_children nodes
settled_valid = refl

pending_valid : is_entry numbers pending_entry ≡ true
unfolding is_entry is_optional is_nonempty_text has_postgres_unsafe_text has_lone_surrogate
    is_high_surrogate is_low_surrogate is_valid_date are_entry_sections is_content_record
    record_shape is_safe_object_key exceeds_max_depth depth_loop push_children nodes
pending_valid = refl

encode_stored_entry-row_to_entry_example :
    (j : Json) × (encode_stored_entry runtime.iso runtime.new_date settled_entry ≡ ok j)
    × (row_to_entry numbers runtime.iso runtime.new_date (units "b") (row_of 7 settled_entry j)
        ≡ ok settled_entry)
encode_stored_entry-row_to_entry_example =
    encode_stored_entry-row_to_entry numbers runtime.iso runtime.new_date dates_read settled_entry 7
      settled_valid

parse_stored_bigint_iff_example :
    (parse_stored_bigint (units "-0") ≡ ok (pos 0))
    ↔ ((units "-0" ≡ bigint_text (pos 0)) ⊎ ((units "-0" ≡ units "-0") × (pos 0 ≡ pos 0)))
parse_stored_bigint_iff_example = parse_stored_bigint_iff (units "-0") (pos 0)

abbrev pending_encoded :
    (j : Json) × (encode_stored_entry runtime.iso runtime.new_date pending_entry ≡ ok j)
    × (row_to_entry numbers runtime.iso runtime.new_date (units "a") (row_of 7 pending_entry j)
        ≡ ok pending_entry)
pending_encoded =
    encode_stored_entry-row_to_entry numbers runtime.iso runtime.new_date dates_read pending_entry 7
      pending_valid

abbrev pending_row : TxHistoryRow
pending_row = row_of 7 pending_entry pending_encoded.0

abbrev stored : TxRows
stored = ((units "w", units "a"), pending_row) ∷ []

stored-WellStored : WellStored runtime stored
unfolding lookup row_of
stored-WellStored = (
  (refl, tt),
  (
    (pending_entry, pending_encoded.0, pending_valid, refl, pending_encoded.1, refl, refl, refl),
    tt,
  ),
)

row_to_entry-Yields_example :
    Yields
      (IsEntryOf runtime.iso runtime.new_date numbers (units "a") pending_row)
      (row_to_entry numbers runtime.iso runtime.new_date (units "a") pending_row)
row_to_entry-Yields_example =
    row_to_entry-Yields runtime.iso runtime.new_date numbers (units "a") pending_row

absent : existing_entry runtime self (units "b") (lookup (units "w", units "b") stored) ≡ ok none
unfolding existing_entry lookup
absent = refl

unmerged : result_of runtime self none settled_entry ≡ ok settled_entry
unfolding result_of
unmerged = refl

write_rows-row_after_example :
    (j : Json) × (rows' : TxRows) × (encode_stored_entry runtime.iso runtime.new_date settled_entry
      ≡ ok j)
    × (write_rows runtime self 9 settled_entry stored ≡ (rows', ok tt))
    × ((k : Text × Text) → lookup k rows' ≡ row_after 9 (units "w") settled_entry j stored k)
write_rows-row_after_example =
    write_rows-row_after runtime self 9 dates_read settled_entry stored none settled_entry
      settled_valid stored-WellStored.0 absent unmerged

write_rows-WellStored_example :
    WellStored runtime (write_rows runtime self 9 settled_entry stored).0
write_rows-WellStored_example =
    write_rows-WellStored runtime self 9 settled_entry stored settled_valid
      (λ old result g j enc. refl) stored-WellStored

abbrev working : Link
working = record { begins = none; sets_timeout = none; commits = committed; swallowed = none }

abbrev one_row : Store
one_row = record {
  kv = record { current = []; history = [] };
  ckpt = record { chunks = []; manifests = []; junctions = []; counters = []; next_id = 1 };
  marks = [];
  history = stored;
}

abbrev world : World Store
world = record { store = one_row; base = one_row; live = []; next_handle = 1 }

write-get_example :
    (old : Option TransactionHistoryEntry) × (result : TransactionHistoryEntry) × (w' : World Store)
    × (get runtime self none false (units "b") world ≡ (world, ok old))
    × (result_of runtime self old settled_entry ≡ ok result)
    × (write runtime self 9 working none false settled_entry world ≡ (w', ok tt))
    × (get runtime self none false (units "b") w' ≡ (w', ok (some result)))
write-get_example =
    write-get runtime self dates_read 9 working settled_entry world refl refl
      (λ old new old_valid new_valid same. (new, refl, refl, new_valid)) settled_valid
      (λ old result g j enc. refl) stored-WellStored

get_all-get_example :
    (es : List TransactionHistoryEntry) × (get_all runtime self none false world ≡ (world, ok es))
    × ((hash : Text)
        → has_postgres_unsafe_text hash ≡ false
        → get runtime self none false hash world ≡ (world, ok (find_entry hash es)))
get_all-get_example = get_all-get runtime self dates_read world stored-WellStored
