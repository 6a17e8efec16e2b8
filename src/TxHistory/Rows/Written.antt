-- ===== src/TxHistory/Rows/Written.antt =====
-- What writeRows of src/postgres/transaction-history-storage.ts leaves in the table.
use umbra_db.Prelude.{
  ℕ, ℤ, ◌≡◌, refl, sym, subst, ap, ◌∙◌, ◌⊎◌, inl, inr, true, Option, none, some, Text, text_beq,
  text_beq_iff, text_eq, pair_eq, Bool-cases,
}
use umbra_db.Table.{lookup}
use umbra_db.Table.Distinct.{Distinct}
use umbra_db.Errors.{Thrown, Result, ok, fail, Result-cases}
use umbra_db.Exec.{run, ◌>>◌, statement}
use umbra_db.Exec.Steps.{query->>=, lift->>=_ok, lift->>=_fail, translating_ok, translating_fail}
use umbra_db.Json.{Json}
use umbra_db.TxHistory.Entry.{TransactionHistoryEntry, checked, is_entry, encode_stored_entry}
use umbra_db.TxHistory.Content.{is_valid_date}
use umbra_db.TxHistory.Entry.Roundtrip.{encode_stored_entry-row_to_entry}
use umbra_db.TxHistory.Rows.Cleared.{stored_rows, row_after, lookup-stored_rows}
use umbra_db.TxHistory.Rows.{
  TxRows, Runtime, PgTransactionHistoryStorage, upsert_entry, clear_superseded, existing_entry,
  validated_merge, result_of, write_rows,
}

module _ (rt : Runtime) (self : PgTransactionHistoryStorage) (now : ℕ) where
  statements_run :
      (e : TransactionHistoryEntry) (entry : Json) (rows : TxRows)
      → (statement (upsert_entry now self.wallet_id e entry)
            >> statement (clear_superseded self.wallet_id e))
          rows
        ≡ (stored_rows now self.wallet_id e entry rows, ok tt)
  unfolding run upsert_entry clear_superseded
  statements_run e entry rows = refl

  pub write_rows_ok :
      (entry : TransactionHistoryEntry) (rows : TxRows) {old : Option TransactionHistoryEntry}
      {result : TransactionHistoryEntry} {stored : Json}
      → existing_entry rt self entry.hash (lookup (self.wallet_id, entry.hash) rows) ≡ ok old
      → result_of rt self old entry ≡ ok result
      → encode_stored_entry rt.iso rt.new_date result ≡ ok stored
      → write_rows rt self now entry rows
        ≡ (stored_rows now self.wallet_id result (rt.jsonb stored) rows, ok tt)
  unfolding write_rows
  write_rows_ok entry rows {old} {result} {stored} h g k = translating_ok none _ rows (
      query->>= _ _ rows
      ∙ lift->>=_ok _ _ rows h
      ∙ lift->>=_ok _ _ rows g
      ∙ lift->>=_ok _ _ rows k
      ∙ statements_run result (rt.jsonb stored) rows)

  -- what a write that threw has done
  abbrev pub Refused : TransactionHistoryEntry → TxRows → Type 0
  Refused entry rows = (e : Thrown) × (write_rows rt self now entry rows ≡ (rows, fail e))

  -- the parts of a write that returned
  abbrev pub Accepted : TransactionHistoryEntry → TxRows → Type 0
  Accepted entry rows =
      (old : Option TransactionHistoryEntry) × (result : TransactionHistoryEntry) × (stored : Json)
      × (existing_entry rt self entry.hash (lookup (self.wallet_id, entry.hash) rows) ≡ ok old)
      × (result_of rt self old entry ≡ ok result)
      × (encode_stored_entry rt.iso rt.new_date result ≡ ok stored)
      × (write_rows rt self now entry rows
          ≡ (stored_rows now self.wallet_id result (rt.jsonb stored) rows, ok tt))

  pub write_rows-cases :
      (entry : TransactionHistoryEntry) (rows : TxRows) → Accepted entry rows ⊎ Refused entry rows
  unfolding write_rows
  write_rows-cases entry rows =
      elim (Result-cases
        (existing_entry rt self entry.hash (lookup (self.wallet_id, entry.hash) rows))) [
          | inr (err, h) ↦
              inr (_, translating_fail none _ rows (query->>= _ _ rows ∙ lift->>=_fail _ _ rows h))
          | inl (old, h) ↦ elim (Result-cases (result_of rt self old entry)) [
            | inr (err, g) ↦ inr (
              _,
              translating_fail none _ rows
                  (query->>= _ _ rows ∙ lift->>=_ok _ _ rows h ∙ lift->>=_fail _ _ rows g),
            )
            | inl (result, g) ↦
                elim (Result-cases (encode_stored_entry rt.iso rt.new_date result)) [
                  | inr (err, k) ↦ inr (
                    _,
                    translating_fail none _ rows (
                        query->>= _ _ rows
                        ∙ lift->>=_ok _ _ rows h
                        ∙ lift->>=_ok _ _ rows g
                        ∙ lift->>=_fail _ _ rows k),
                  )
                  | inl (stored, k) ↦
                      inl (old, result, stored, h, g, k, write_rows_ok entry rows h g k)
                ]
          ]
        ]

  validated :
      (entry result : TransactionHistoryEntry) (r : Result TransactionHistoryEntry)
      → validated_merge rt self entry r ≡ ok result
      → (result.hash ≡ entry.hash) × (is_entry rt.numbers result ≡ true)
  unfolding validated_merge checked
  validated entry result (fail err) h = cc
  validated entry result (ok merged) h = elim (Bool-cases (text_beq merged.hash entry.hash)) [
    | inr other ↦ absurd (cc (rw other at h))
    | inl kept ↦ elim (Bool-cases (is_entry rt.numbers merged)) [
      | inr invalid ↦ absurd (cc (rw (kept, invalid) at h))
      | inl valid ↦
          let same : merged ≡ result = cc (rw (kept, valid) at h) in
          (
            ap (λ x. x.hash) (sym same) ∙ (text_beq_iff merged.hash entry.hash).0 kept,
            subst (λ x. is_entry rt.numbers x ≡ true) same valid,
          )
    ]
  ]

  pub result_of-IsValid :
      (old : Option TransactionHistoryEntry) (entry result : TransactionHistoryEntry)
      → is_entry rt.numbers entry ≡ true
      → result_of rt self old entry ≡ ok result
      → (result.hash ≡ entry.hash) × (is_entry rt.numbers result ≡ true)
  unfolding result_of
  result_of-IsValid none entry result valid h =
      let same : entry ≡ result = cc in
      (ap (λ x. x.hash) (sym same), subst (λ x. is_entry rt.numbers x ≡ true) same valid)
  result_of-IsValid (some e) entry result valid h = validated entry result (self.merge_fn e entry) h

  -- If the stored row of an entry's hash can be read, and merging gives a result (the entry itself
  -- where there is no row), then writeRows of a valid entry returns, and every row of the table is
  -- afterwards: under the entry's key the result as it was encoded; elsewhere what was there, less,
  -- for a result that is finalized or rejected and has identifiers, the pending rows of the same
  -- wallet whose identifiers are some of the result's and at least one. This assumes that no key
  -- had two rows, and that `new Date` reads what toISOString gives for a valid Date as that Date.
  pub write_rows-row_after :
      (iso_parses : (t : ℤ) → is_valid_date t ≡ true → rt.new_date (rt.iso t) ≡ t)
      (entry : TransactionHistoryEntry) (rows : TxRows) (old : Option TransactionHistoryEntry)
      (result : TransactionHistoryEntry)
      → is_entry rt.numbers entry ≡ true
      → Distinct rows
      → existing_entry rt self entry.hash (lookup (self.wallet_id, entry.hash) rows) ≡ ok old
      → result_of rt self old entry ≡ ok result
      → (stored : Json) × (rows' : TxRows) × (encode_stored_entry rt.iso rt.new_date result
          ≡ ok stored)
        × (write_rows rt self now entry rows ≡ (rows', ok tt))
        × ((k : Text × Text)
            → lookup k rows' ≡ row_after now self.wallet_id result (rt.jsonb stored) rows k)
  write_rows-row_after iso_parses entry rows old result valid d h g =
      let (_, result_valid) = result_of-IsValid old entry result valid g in
      let (stored, enc, _) =
        encode_stored_entry-row_to_entry rt.numbers rt.iso rt.new_date iso_parses result now
          result_valid in
      (
        stored,
        stored_rows now self.wallet_id result (rt.jsonb stored) rows,
        enc,
        write_rows_ok entry rows h g enc,
        λ k. lookup-stored_rows now self.wallet_id result (rt.jsonb stored) rows k d,
      )
