-- ===== src/TxHistory/Content.antt =====
-- The opaque payload of an entry: EntryContent and its schemas in
-- src/interfaces/transaction-history-storage.ts.
use umbra_db.Prelude.{ℕ, Bool, true, not, ◌&&◌, Text, leb, ltb, ℤ, pos, negsuc, units, has_prefix}
use umbra_db.SafeText.{has_postgres_unsafe_text}
use umbra_db.Json.{
  Json, Items, Fields, nil, cons, end, field, exceeds_max_depth, max_json_depth, passes,
}

-- `date t` is `new Date(t)`, an Invalid Date if `t` is out of range; a number is kept as the bit
-- pattern of its double.
mutual
  pub data EntryContent : Type 0 where
    null : EntryContent
    bool : Bool → EntryContent
    num : ℕ → EntryContent
    str : Text → EntryContent
    bigint : ℤ → EntryContent
    date : ℤ → EntryContent
    arr : Contents → EntryContent
    obj : Sections → EntryContent

  pub data Contents : Type 0 where
    none_left : Contents
    item : EntryContent → Contents → Contents

  pub data Sections : Type 0 where
    no_section : Sections
    section : Text → EntryContent → Sections → Sections

-- THS_RESERVED_KEY_PREFIX
abbrev pub ths_reserved_key_prefix : Text
ths_reserved_key_prefix = units "__umbradb_ths_"

-- the range of a Date, ±8.64e15 milliseconds
abbrev pub max_time : ℕ
max_time = 8640000000000000

-- !Number.isNaN(d.getTime())
unfoldable pub is_valid_date : ℤ → Bool
is_valid_date (pos n) = leb n max_time
is_valid_date (negsuc n) = ltb n max_time

-- SafeObjectKeySchema
unfoldable pub is_safe_object_key : Text → Bool
is_safe_object_key k =
    not (has_postgres_unsafe_text k) && not (has_prefix ths_reserved_key_prefix k)

-- EntryContentSchema; `z_number` is zod's z.number(), on the bit pattern
module _ (z_number : ℕ → Bool) where
  unfoldable mutual
    pub is_entry_content : EntryContent → Bool
    is_entry_content null = true
    is_entry_content (bool b) = true
    is_entry_content (num n) = z_number n
    is_entry_content (str s) = not (has_postgres_unsafe_text s)
    is_entry_content (bigint z) = true
    is_entry_content (date t) = is_valid_date t
    is_entry_content (arr xs) = are_entry_contents xs
    is_entry_content (obj fs) = is_content_record fs

    pub are_entry_contents : Contents → Bool
    are_entry_contents none_left = true
    are_entry_contents (item x xs) = is_entry_content x && are_entry_contents xs

    -- z.record(SafeObjectKeySchema, EntryContentSchema)
    pub is_content_record : Sections → Bool
    is_content_record no_section = true
    is_content_record (section k v fs) =
        is_safe_object_key k && (is_entry_content v && is_content_record fs)

-- What `exceedsMaxDepth` sees of a value: a bigint has no values in it, and a Date is an object
-- without own properties.
unfoldable mutual
  pub shape : EntryContent → Json
  shape null = Json.null
  shape (bool b) = Json.bool b
  shape (num n) = Json.num n
  shape (str s) = Json.str s
  shape (bigint z) = Json.null
  shape (date t) = Json.obj end
  shape (arr xs) = Json.arr (shapes xs)
  shape (obj fs) = Json.obj (record_shape fs)

  pub shapes : Contents → Items
  shapes none_left = nil
  shapes (item x xs) = cons (shape x) (shapes xs)

  pub record_shape : Sections → Fields
  record_shape no_section = end
  record_shape (section k v fs) = field k (shape v) (record_shape fs)

-- EntrySectionsSchema, with MAX_ENTRY_CONTENT_DEPTH
unfoldable pub are_entry_sections : (ℕ → Bool) → Sections → Bool
are_entry_sections z_number fs =
    passes (exceeds_max_depth (Json.obj (record_shape fs)) max_json_depth)
    && is_content_record z_number fs
