-- ===== src/TxHistory/Rows/Invariant.antt =====
-- What every row of the table of PgTransactionHistoryStorage holds
-- (src/postgres/transaction-history-storage.ts): its columns and its key say what its entry says.
use umbra_db.Prelude.{
  ℕ, ◌≡◌, refl, sym, ap, ◌∙◌, inl, inr, true, Option, none, some, Text, text_beq_iff, ℤ, text_eq,
  pair_eq, All, Bool-cases, Option-cases,
}
use umbra_db.Table.{lookup, All-put, All-delete_where, All-lookup}
use umbra_db.Table.Distinct.{Distinct}
use umbra_db.Errors.{ok}
use umbra_db.Json.{Json}
use umbra_db.TxHistory.Content.{is_valid_date}
use umbra_db.TxHistory.Entry.{
  TransactionHistoryEntry, TxHistoryRow, row_of, lifecycle_text, is_entry, checked,
  encode_stored_entry, row_to_entry,
}
use umbra_db.TxHistory.Entry.Roundtrip.{encode_stored_entry-row_to_entry}
use umbra_db.TxHistory.Rows.{
  TxRows, Runtime, PgTransactionHistoryStorage, is_superseded, clears, existing_entry, as_found,
  validated_merge, result_of, write_rows,
}
use umbra_db.TxHistory.Rows.Cleared.{stored_rows, lookup-stored_rows_own, stored_rows-Distinct}
use umbra_db.TxHistory.Rows.Written.{write_rows-cases, write_rows_ok, result_of-IsValid}

module _ (rt : Runtime) where
  -- the row stores a valid entry, under its hash and with its columns
  abbrev pub Synced : (Text × Text) × TxHistoryRow → Type 0
  Synced (k, row) =
      (e : TransactionHistoryEntry) × (j : Json) × (is_entry rt.numbers e ≡ true)
      × (e.hash ≡ k.1)
      × (encode_stored_entry rt.iso rt.new_date e ≡ ok j)
      × (row.entry ≡ j)
      × (row.identifiers ≡ e.identifiers)
      × (row.lifecycle ≡ lifecycle_text e.lifecycle)

  abbrev pub WellStored : TxRows → Type 0
  WellStored rows = Distinct rows × All Synced rows

  stored_rows-WellStored :
      (now : ℕ) (wallet : Text) (e : TransactionHistoryEntry) (j : Json) (rows : TxRows)
      → is_entry rt.numbers e ≡ true
      → encode_stored_entry rt.iso rt.new_date e ≡ ok j
      → WellStored rows
      → WellStored (stored_rows now wallet e j rows)
  unfolding row_of
  stored_rows-WellStored now wallet e j rows valid enc ws =
      let synced : Synced ((wallet, e.hash), row_of now e j) =
        (e, j, valid, refl, enc, refl, refl, refl) in
      let all = All-put Synced (wallet, e.hash) (row_of now e j) rows synced ws.1 in
      (
        stored_rows-Distinct now wallet e j rows ws.0,
        elim (Bool-cases (clears e)) [
          | inl clearing ↦ rw clearing (All-delete_where Synced (is_superseded wallet e) _ all)
          | inr keeping ↦ rw keeping all
        ],
      )

  -- a jsonb column gives back the encoded entry as it is
  abbrev pub Stable : TransactionHistoryEntry → Type 0
  Stable e = (j : Json) → encode_stored_entry rt.iso rt.new_date e ≡ ok j → rt.jsonb j ≡ j

  -- whatever an entry is merged with, the result is stable
  abbrev pub MergesStably : PgTransactionHistoryStorage → TransactionHistoryEntry → Type 0
  MergesStably self entry =
      (old : Option TransactionHistoryEntry) (result : TransactionHistoryEntry)
      → result_of rt self old entry ≡ ok result
      → Stable result

  module _ (self : PgTransactionHistoryStorage) (now : ℕ) where
    -- Whether it returns or throws, and whatever the merge function does, writeRows of a valid
    -- entry leaves a table in which no key has two rows and every row stores a valid entry, under
    -- that entry's hash and with that entry's identifiers and lifecycle in its columns, if the
    -- table was such and a jsonb column gives back, as they are, the encodings of the entries that
    -- may result.
    pub write_rows-WellStored :
        (entry : TransactionHistoryEntry) (rows : TxRows)
        → is_entry rt.numbers entry ≡ true
        → MergesStably self entry
        → WellStored rows
        → WellStored (write_rows rt self now entry rows).0
    write_rows-WellStored entry rows valid stable ws =
        elim (write_rows-cases rt self now entry rows) [
          | inr (err, out) ↦ rw out ws
          | inl (old, result, stored, h, g, enc, out) ↦
              let (_, result_valid) = result_of-IsValid rt self now old entry result valid g in
              rw (out, stable old result g stored enc)
                (stored_rows-WellStored now self.wallet_id result stored rows result_valid enc ws)
        ]

  columns :
      (row : TxHistoryRow) (e : TransactionHistoryEntry) (j : Json)
      → row.entry ≡ j
      → row.identifiers ≡ e.identifiers
      → row.lifecycle ≡ lifecycle_text e.lifecycle
      → row ≡ row_of row.updated_at e j
  unfolding row_of
  columns row e j entry identifiers lifecycle = rw (← entry, ← identifiers, ← lifecycle) refl

  -- the row of a well-stored table reads as its entry
  pub Synced-row_to_entry :
      (iso_parses : (t : ℤ) → is_valid_date t ≡ true → rt.new_date (rt.iso t) ≡ t) (k : Text × Text)
      (row : TxHistoryRow)
      → Synced (k, row)
      → (e : TransactionHistoryEntry) × (row_to_entry rt.numbers rt.iso rt.new_date k.1 row ≡ ok e)
        × (is_entry rt.numbers e ≡ true)
        × (e.hash ≡ k.1)
  Synced-row_to_entry iso_parses k row (e, j, valid, same, enc, entry, identifiers, lifecycle) =
      let (j', enc', back) =
        encode_stored_entry-row_to_entry rt.numbers rt.iso rt.new_date iso_parses e row.updated_at
          valid in
      let stored : j' ≡ j = cc in
      let read = row_to_entry rt.numbers rt.iso rt.new_date in
      (
        e,
        ap (λ h. read h row) (sym same)
            ∙ ap (read e.hash) (columns row e j entry identifiers lifecycle)
            ∙ ap (λ i. read e.hash (row_of row.updated_at e i)) (sym stored)
            ∙ back,
        valid,
        same,
      )

  abbrev pub IsReadable : Text → Option TransactionHistoryEntry → Type 0
  IsReadable hash none = Unit
  IsReadable hash (some e) = (is_entry rt.numbers e ≡ true) × (e.hash ≡ hash)

  -- A merge of two valid entries of one hash gives a valid entry of that hash.
  abbrev pub IsMerge : PgTransactionHistoryStorage → Type 0
  IsMerge self =
      (old new : TransactionHistoryEntry)
      → is_entry rt.numbers old ≡ true
      → is_entry rt.numbers new ≡ true
      → old.hash ≡ new.hash
      → (merged : TransactionHistoryEntry) × (self.merge_fn old new ≡ ok merged)
        × (merged.hash ≡ new.hash)
        × (is_entry rt.numbers merged ≡ true)

  module _ (self : PgTransactionHistoryStorage)
      (iso_parses : (t : ℤ) → is_valid_date t ≡ true → rt.new_date (rt.iso t) ≡ t) where
    -- what a lookup finds in a well-stored table can be read
    pub existing_entry-WellStored :
        (hash : Text) (rows : TxRows)
        → WellStored rows
        → (old : Option TransactionHistoryEntry) × (existing_entry rt self hash
              (lookup (self.wallet_id, hash) rows)
            ≡ ok old)
          × IsReadable hash old
    unfolding existing_entry as_found
    existing_entry-WellStored hash rows ws =
        elim (Option-cases (lookup (self.wallet_id, hash) rows)) [
          | inl absent ↦ (none, rw absent refl, tt)
          | inr (row, found) ↦
              let (e, reads, valid, same) =
                Synced-row_to_entry iso_parses (self.wallet_id, hash) row
                  (All-lookup Synced (self.wallet_id, hash) rows row ws.1 found) in
              (some e, rw (found, reads) refl, (valid, same))
        ]

    -- a merge gives a result
    pub merged :
        IsMerge self
        → (old : Option TransactionHistoryEntry) (entry : TransactionHistoryEntry)
        → IsReadable entry.hash old
        → is_entry rt.numbers entry ≡ true
        → (result : TransactionHistoryEntry) × (result_of rt self old entry ≡ ok result)
    unfolding result_of validated_merge checked
    merged merges none entry readable valid = (entry, refl)
    merged merges (some e) entry readable valid =
        let (m, out, hash, m_valid) = merges e entry readable.0 valid readable.1 in
        (m, rw (out, (text_beq_iff m.hash entry.hash).1 hash, m_valid) refl)

    -- a write that can read and merge is read back
    pub write_reads :
        (now : ℕ) (entry : TransactionHistoryEntry) (rows : TxRows)
        (old : Option TransactionHistoryEntry) (result : TransactionHistoryEntry)
        → is_entry rt.numbers entry ≡ true
        → Stable result
        → Distinct rows
        → existing_entry rt self entry.hash (lookup (self.wallet_id, entry.hash) rows) ≡ ok old
        → result_of rt self old entry ≡ ok result
        → (rows' : TxRows) × (write_rows rt self now entry rows ≡ (rows', ok tt))
          × (existing_entry rt self entry.hash (lookup (self.wallet_id, entry.hash) rows')
              ≡ ok (some result))
    unfolding existing_entry as_found
    write_reads now entry rows old result valid stable d h g =
        let (same, result_valid) = result_of-IsValid rt self now old entry result valid g in
        let (j, enc, back) =
          encode_stored_entry-row_to_entry rt.numbers rt.iso rt.new_date iso_parses result now
            result_valid in
        let own = lookup-stored_rows_own now self.wallet_id result (rt.jsonb j) rows d in
        (
          stored_rows now self.wallet_id result (rt.jsonb j) rows,
          write_rows_ok rt self now entry rows h g enc,
          rw (← same, own, stable j enc, back) refl,
        )
