-- ===== src/TxHistory/Codec.antt =====
-- encodeContent, decodeContent, encodeSections and decodeSections of
-- src/postgres/transaction-history-storage.ts: bigint and Date leaves as tagged objects.
pub mod Roundtrip
use umbra_db.Prelude.{
  ℕ, ◌≡◌, Bool, true, false, ◌++◌, Option, none, some, Text, text_beq, ℤ, units, if◌then◌else◌, [],
  ◌∷◌,
}
use umbra_db.Errors.{storage, serialization_failed, Thrown, app, Result, ok, fail, ◌>>=◌}
use umbra_db.Json.{Json, Items, Fields, nil, cons, end, field}
use umbra_db.TxHistory.Bigint.{bigint_text, parse_stored_bigint}
use umbra_db.TxHistory.Content.{
  EntryContent, Contents, Sections, null, bool, num, str, bigint, date, arr, obj, none_left, item,
  no_section, section, ths_reserved_key_prefix, is_valid_date,
}

-- BIGINT_TAG and DATE_TAG
abbrev pub bigint_tag : Text
bigint_tag = ths_reserved_key_prefix ++ units "bigint"

abbrev pub date_tag : Text
date_tag = ths_reserved_key_prefix ++ units "date"

-- the RangeError of toISOString on an Invalid Date
abbrev pub range_error : Thrown
range_error = app 0

-- isTagObject, with the tagged string
unfoldable pub tag_value : Text → Fields → Option Text
tag_value tag (field k (Json.str s) end) = if text_beq k tag then some s else none
tag_value tag fs = none

-- `iso` is Date.prototype.toISOString on the time of a valid Date, and `new_date` the time that
-- `new Date(text)` asks for: out of range for a text that is no date.
module _ (iso : ℤ → Text) (new_date : Text → ℤ) where
  -- d.toISOString()
  unfoldable pub to_iso_string : ℤ → Result Text
  to_iso_string t = if is_valid_date t then ok (iso t) else fail range_error

  unfoldable mutual
    pub encode_content : EntryContent → Result Json
    encode_content null = ok Json.null
    encode_content (bool b) = ok (Json.bool b)
    encode_content (num n) = ok (Json.num n)
    encode_content (str s) = ok (Json.str s)
    encode_content (bigint z) = ok (Json.obj (field bigint_tag (Json.str (bigint_text z)) end))
    encode_content (date t) =
        to_iso_string t >>= λ s. ok (Json.obj (field date_tag (Json.str s) end))
    encode_content (arr xs) = encode_contents xs >>= λ ys. ok (Json.arr ys)
    encode_content (obj fs) = encode_sections fs >>= λ gs. ok (Json.obj gs)

    pub encode_contents : Contents → Result Items
    encode_contents none_left = ok nil
    encode_contents (item x xs) =
        encode_content x >>= λ y. encode_contents xs >>= λ ys. ok (cons y ys)

    pub encode_sections : Sections → Result Fields
    encode_sections no_section = ok end
    encode_sections (section k v fs) =
        encode_content v >>= λ w. encode_sections fs >>= λ gs. ok (field k w gs)

  -- parseStoredDate, on a string
  unfoldable pub parse_stored_date : Text → Result ℤ
  parse_stored_date raw =
      let d = new_date raw in
      if is_valid_date d
      then (if text_beq (iso d) raw then ok d else fail (storage serialization_failed))
      else fail (storage serialization_failed)

  -- the object branch of decodeContent: a tagged bigint, a tagged Date, or else `plain`
  unfoldable pub untag : Option Text → Option Text → Result EntryContent → Result EntryContent
  untag (some raw) as_date plain = parse_stored_bigint raw >>= λ z. ok (bigint z)
  untag none (some raw) plain = parse_stored_date raw >>= λ d. ok (date d)
  untag none none plain = plain

  unfoldable mutual
    pub decode_content : Json → Result EntryContent
    decode_content Json.null = ok null
    decode_content (Json.bool b) = ok (bool b)
    decode_content (Json.num n) = ok (num n)
    decode_content (Json.str s) = ok (str s)
    decode_content (Json.arr xs) = decode_contents xs >>= λ ys. ok (arr ys)
    decode_content (Json.obj fs) =
        let plain = decode_sections fs >>= λ gs. ok (obj gs) in
        untag (tag_value bigint_tag fs) (tag_value date_tag fs) plain

    pub decode_contents : Items → Result Contents
    decode_contents nil = ok none_left
    decode_contents (cons x xs) =
        decode_content x >>= λ y. decode_contents xs >>= λ ys. ok (item y ys)

    pub decode_sections : Fields → Result Sections
    decode_sections end = ok no_section
    decode_sections (field k v fs) =
        decode_content v >>= λ w. decode_sections fs >>= λ gs. ok (section k w gs)
