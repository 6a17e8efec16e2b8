-- ===== src/TxHistory/Storage/Reads.antt =====
-- `getAll` against `get` of PgTransactionHistoryStorage
-- (src/postgres/transaction-history-storage.ts).
use umbra_db.Prelude.{
  ℤ, ◌≡◌, refl, sym, ap, ◌∙◌, subst, true, false, List, [], ◌∷◌, Option, none, some, Text, text_beq,
  text_beq_iff, text_eq, pair_eq, All, All-map, Bool-cases, inl, inr, if◌then◌else◌,
}
use umbra_db.SafeText.{has_postgres_unsafe_text}
use umbra_db.Table.{lookup}
use umbra_db.Errors.{ok}
use umbra_db.Exec.Steps.{pure->>=, require->>=_true, translating_ok}
use umbra_db.Transaction.{World}
use umbra_db.Store.{Store}
use umbra_db.Store.Lens.{on_history_run}
use umbra_db.TxHistory.Content.{is_valid_date}
use umbra_db.TxHistory.Entry.{TransactionHistoryEntry, TxHistoryRow, is_entry, row_to_entry}
use umbra_db.TxHistory.Rows.{Runtime, PgTransactionHistoryStorage, existing_entry, as_found}
use umbra_db.TxHistory.Rows.Invariant.{WellStored, Synced-row_to_entry}
use umbra_db.TxHistory.Storage.{
  HistoryRows, rows_of, order_by_hash, prepend, entries_of, get_all, get_all_impl, get,
}
use umbra_db.TxHistory.Storage.Order.{
  lookup-rows_of, rows_of-Distinct, rows_of-All, order_by_hash-All, lookup-order_by_hash,
}
use umbra_db.TxHistory.Storage.ReadBack.{get_reads}

-- the first entry of a hash
abbrev pub find_entry : Text → List TransactionHistoryEntry → Option TransactionHistoryEntry
find_entry hash [] = none
find_entry hash (e ∷ es) = if text_beq e.hash hash then some e else find_entry hash es

module _ (rt : Runtime) (self : PgTransactionHistoryStorage) where
  -- the row reads as an entry of its hash
  abbrev Readable : Text × TxHistoryRow → Type 0
  Readable r =
      (e : TransactionHistoryEntry) × (row_to_entry rt.numbers rt.iso rt.new_date r.0 r.1 ≡ ok e)
      × (is_entry rt.numbers e ≡ true)
      × (e.hash ≡ r.0)

  read_each :
      (rs : HistoryRows)
      → All Readable rs
      → (es : List TransactionHistoryEntry) × (entries_of rt self rs ≡ ok es)
        × ((hash : Text) → existing_entry rt self hash (lookup hash rs) ≡ ok (find_entry hash es))
  unfolding entries_of prepend existing_entry as_found lookup
  read_each [] h = ([], refl, λ hash. refl)
  read_each (r ∷ rs) ((e, reads, valid, same), rest) =
      let (es, all, finds) = read_each rs rest in
      (
        e ∷ es,
        rw (reads, all) refl,
        λ hash. elim (Bool-cases (text_beq r.0 hash)) [
          | inl found ↦
              let key = (text_beq_iff r.0 hash).0 found in
              let own : text_beq e.hash hash ≡ true = (text_beq_iff e.hash hash).1 (same ∙ key) in
              let read : row_to_entry rt.numbers rt.iso rt.new_date hash r.1 ≡ ok e =
                subst (λ h. row_to_entry rt.numbers rt.iso rt.new_date h r.1 ≡ ok e) key reads in
              rw (found, own, read) refl
          | inr other ↦
              let apart : text_beq e.hash hash ≡ false =
                subst (λ h. text_beq h hash ≡ false) (sym same) other in
              rw (other, apart) (finds hash)
        ],
      )

  module _ (iso_parses : (t : ℤ) → is_valid_date t ≡ true → rt.new_date (rt.iso t) ≡ t) where
    -- Where the table's rows all store valid entries, and `new Date` reads what toISOString gives
    -- for a valid Date as that Date: getAll outside a transaction returns, and for every hash that
    -- PostgreSQL can store `get` returns too, namely the entry of that hash in the list that getAll
    -- returned, and undefined if there is none; neither changes anything.
    pub get_all-get :
        (w : World Store)
        → WellStored rt w.store.history
        → (es : List TransactionHistoryEntry) × (get_all rt self none false w ≡ (w, ok es))
          × ((hash : Text)
              → has_postgres_unsafe_text hash ≡ false
              → get rt self none false hash w ≡ (w, ok (find_entry hash es)))
    unfolding get_all get_all_impl
    get_all-get w ws =
        let rows = w.store.history in
        let mine = rows_of self.wallet_id rows in
        let readable : All Readable mine =
          rows_of-All Readable self.wallet_id rows
            (All-map (λ r s. Synced-row_to_entry rt iso_parses r.0 r.1 s) rows ws.1) in
        let (_, ordered) =
          lookup-order_by_hash rt.collates mine (rows_of-Distinct self.wallet_id rows ws.0) in
        let (es, all, finds) =
          read_each (order_by_hash rt.collates mine)
            (order_by_hash-All rt.collates Readable mine readable) in
        (
          es,
          pure->>= tt _ w
              ∙ require->>=_true _ _ _ w refl
              ∙ on_history_run _ w (translating_ok none _ rows (ap (λ r. (rows, r)) all)),
          λ hash safe. get_reads rt self hash w safe (
              ap (existing_entry rt self hash)
                (sym (lookup-rows_of self.wallet_id hash rows) ∙ sym (ordered hash))
              ∙ finds hash),
        )
