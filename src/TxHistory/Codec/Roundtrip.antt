-- ===== src/TxHistory/Codec/Roundtrip.antt =====
-- decodeContent after encodeContent of src/postgres/transaction-history-storage.ts.
use umbra_db.Prelude.{
  ℕ, ◌≡◌, refl, Bool, true, false, none, Text, text_beq, text_beq_iff, ℤ, Bool-cases, inl, inr,
  arith, has_prefix,
}
use umbra_db.Errors.{ok}
use umbra_db.Json.{Json, Items, Fields, nil, cons, end, field}
use umbra_db.TxHistory.Bigint.{bigint_text}
use umbra_db.TxHistory.Bigint.Decimal.{parse_stored_bigint_iff}
use umbra_db.TxHistory.Content.{
  EntryContent, Contents, Sections, null, bool, num, str, bigint, date, arr, obj, none_left, item,
  no_section, section, is_valid_date, is_safe_object_key, is_entry_content, are_entry_contents,
  is_content_record, ths_reserved_key_prefix,
}
use umbra_db.TxHistory.Codec.{
  bigint_tag, date_tag, tag_value, untag, to_iso_string, encode_content, encode_contents,
  encode_sections, parse_stored_date, decode_content, decode_contents, decode_sections,
}

-- a reserved key is not safe
safe_untagged :
    (k tag : Text)
    → has_prefix ths_reserved_key_prefix tag ≡ true
    → is_safe_object_key k ≡ true
    → text_beq k tag ≡ false
unfolding is_safe_object_key
safe_untagged k tag reserved h = elim (Bool-cases (text_beq k tag)) [
  | inr other ↦ other
  | inl same ↦ absurd (ground (arith, (text_beq_iff k tag).0 same))
]

tag_value-end : (tag : Text) → tag_value tag end ≡ none
unfolding tag_value
tag_value-end tag = refl

tag_value-skips :
    (tag k : Text) (v : Json) (fs : Fields)
    → text_beq k tag ≡ false
    → tag_value tag (field k v fs) ≡ none
unfolding tag_value
tag_value-skips tag k (Json.str s) end h = rw h refl
tag_value-skips tag k (Json.str s) (field j w fs) h = refl
tag_value-skips tag k Json.null fs h = refl
tag_value-skips tag k (Json.bool b) fs h = refl
tag_value-skips tag k (Json.num n) fs h = refl
tag_value-skips tag k (Json.arr xs) fs h = refl
tag_value-skips tag k (Json.obj gs) fs h = refl

module _ (z_number : ℕ → Bool) (iso : ℤ → Text) (new_date : Text → ℤ)
    (iso_parses : (t : ℤ) → is_valid_date t ≡ true → new_date (iso t) ≡ t) where
  -- encoding succeeds, and decoding gives the value back
  abbrev pub ReadsBack : EntryContent → Type 0
  ReadsBack c =
      (j : Json) × (encode_content iso new_date c ≡ ok j) × (decode_content iso new_date j ≡ ok c)

  abbrev ItemsReadBack : Contents → Type 0
  ItemsReadBack xs =
      (js : Items) × (encode_contents iso new_date xs ≡ ok js)
      × (decode_contents iso new_date js ≡ ok xs)

  abbrev pub SectionsReadBack : Sections → Type 0
  SectionsReadBack fs =
      (gs : Fields) × (encode_sections iso new_date fs ≡ ok gs)
      × (decode_sections iso new_date gs ≡ ok fs)
      × (tag_value bigint_tag gs ≡ none)
      × (tag_value date_tag gs ≡ none)

  date-ReadsBack : (t : ℤ) → is_valid_date t ≡ true → ReadsBack (date t)
  unfolding encode_content decode_content to_iso_string parse_stored_date tag_value untag
  date-ReadsBack t valid = (
    Json.obj (field date_tag (Json.str (iso t)) end),
    rw valid refl,
    rw (iso_parses t valid, valid, (text_beq_iff (iso t) (iso t)).1 refl) refl,
  )

  bigint-ReadsBack : (z : ℤ) → ReadsBack (bigint z)
  unfolding encode_content decode_content tag_value untag
  bigint-ReadsBack z = (
    Json.obj (field bigint_tag (Json.str (bigint_text z)) end),
    refl,
    rw ((parse_stored_bigint_iff (bigint_text z) z).1 (inl refl)) refl,
  )

  mutual
    unfolding encode_content decode_content is_entry_content untag

    content-ReadsBack : (c : EntryContent) → is_entry_content z_number c ≡ true → ReadsBack c
    content-ReadsBack null h = (Json.null, refl, refl)
    content-ReadsBack (bool b) h = (Json.bool b, refl, refl)
    content-ReadsBack (num n) h = (Json.num n, refl, refl)
    content-ReadsBack (str s) h = (Json.str s, refl, refl)
    content-ReadsBack (bigint z) h = bigint-ReadsBack z
    content-ReadsBack (date t) h = date-ReadsBack t h
    content-ReadsBack (arr xs) h =
        let (js, enc, dec) = items-ReadsBack xs h in (Json.arr js, rw enc refl, rw dec refl)
    content-ReadsBack (obj fs) h =
        let (gs, enc, dec, no_bigint, no_date) = sections-ReadsBack fs h in
        (Json.obj gs, rw enc refl, rw (no_bigint, no_date, dec) refl)

    items-ReadsBack : (xs : Contents) → are_entry_contents z_number xs ≡ true → ItemsReadBack xs
    items-ReadsBack none_left h = (nil, refl, refl)
    items-ReadsBack (item x xs) h =
        let (y, enc, dec) = content-ReadsBack x (ground arith) in
        let (ys, encs, decs) = items-ReadsBack xs (ground arith) in
        (cons y ys, rw (enc, encs) refl, rw (dec, decs) refl)

    pub sections-ReadsBack :
        (fs : Sections) → is_content_record z_number fs ≡ true → SectionsReadBack fs
    sections-ReadsBack no_section h =
        (end, refl, refl, tag_value-end bigint_tag, tag_value-end date_tag)
    sections-ReadsBack (section k v fs) h =
        let safe : is_safe_object_key k ≡ true = ground arith in
        let (w, enc, dec) = content-ReadsBack v (ground arith) in
        let (gs, encs, decs, _, _) = sections-ReadsBack fs (ground arith) in
        (
          field k w gs,
          rw (enc, encs) refl,
          rw (dec, decs) refl,
          tag_value-skips bigint_tag k w gs (safe_untagged k bigint_tag refl safe),
          tag_value-skips date_tag k w gs (safe_untagged k date_tag refl safe),
        )
