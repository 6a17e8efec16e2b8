-- ===== src/TxHistory/Storage/ReadBack.antt =====
-- The writes of PgTransactionHistoryStorage and `get` after them
-- (src/postgres/transaction-history-storage.ts).
use umbra_db.Prelude.{
  ℕ, ℤ, ◌≡◌, refl, ap, ◌∙◌, true, false, not, Option, none, some, Text, text_eq, pair_eq, arith,
}
use umbra_db.SafeText.{has_postgres_unsafe_text, is_nonempty_text}
use umbra_db.Table.{lookup}
use umbra_db.Errors.{ok}
use umbra_db.Exec.Steps.{pure->>=, require->>=_true, translating_ok}
use umbra_db.Transaction.{Link, committed, World}
use umbra_db.Transaction.Begin.{begin_ok}
use umbra_db.Store.{Store}
use umbra_db.Store.Lens.{on_history_run}
use umbra_db.TxHistory.Content.{is_valid_date}
use umbra_db.TxHistory.Entry.{Numbers, TransactionHistoryEntry, is_entry}
use umbra_db.TxHistory.Rows.{
  TxRows, Runtime, PgTransactionHistoryStorage, existing_entry, result_of, write_rows,
}
use umbra_db.TxHistory.Rows.Invariant.{
  WellStored, MergesStably, IsMerge, existing_entry-WellStored, merged, write_reads,
}
use umbra_db.TxHistory.Storage.{get, get_impl, write, write_in}

entry_hash_safe :
    (z : Numbers) (e : TransactionHistoryEntry)
    → is_entry z e ≡ true
    → has_postgres_unsafe_text e.hash ≡ false
unfolding is_entry is_nonempty_text
entry_hash_safe z e valid = ground arith

module _ (rt : Runtime) (self : PgTransactionHistoryStorage) where
  -- the rows are committed
  abbrev written_rows : TxRows → World Store → World Store
  written_rows rows w = record w {
    store = record w.store { history = rows };
    base = record w.store { history = rows };
  }

  write_ok :
      (now : ℕ) (link : Link) (entry : TransactionHistoryEntry) (w : World Store) {rows : TxRows}
      → link.begins ≡ none
      → link.commits ≡ committed
      → is_entry rt.numbers entry ≡ true
      → write_rows rt self now entry w.store.history ≡ (rows, ok tt)
      → write rt self now link none false entry w ≡ (written_rows rows w, ok tt)
  unfolding write write_in
  write_ok now link entry w b c valid h =
      pure->>= tt _ w
      ∙ require->>=_true _ _ _ w valid
      ∙ require->>=_true _ _ _ w refl
      ∙ translating_ok none _ w (begin_ok link _ w b c (on_history_run _ w h))

  pub get_reads :
      (hash : Text) (w : World Store) {old : Option TransactionHistoryEntry}
      → has_postgres_unsafe_text hash ≡ false
      → existing_entry rt self hash (lookup (self.wallet_id, hash) w.store.history) ≡ ok old
      → get rt self none false hash w ≡ (w, ok old)
  unfolding get get_impl
  get_reads hash w {old} safe h =
      let found = ap (λ r. (w.store.history, r)) h in
      pure->>= tt _ w
      ∙ require->>=_true _ _ _ w (ap not safe)
      ∙ require->>=_true _ _ _ w refl
      ∙ on_history_run _ w (translating_ok none _ w.store.history found)

  -- On a connection that works and a table whose rows all store valid entries, with a merge
  -- function that merges valid entries, `new Date` reading what toISOString gives for a valid Date
  -- as that Date, and jsonb giving back, as they are, the encodings of the entries that may result:
  -- a write of a valid entry outside a transaction returns, and where `get` of its hash gave `old`
  -- before, it gives after it the merge of `old` with the entry (the entry itself if there was
  -- none).
  pub write-get :
      (iso_parses : (t : ℤ) → is_valid_date t ≡ true → rt.new_date (rt.iso t) ≡ t) (now : ℕ)
      (link : Link) (entry : TransactionHistoryEntry) (w : World Store)
      → link.begins ≡ none
      → link.commits ≡ committed
      → IsMerge rt self
      → is_entry rt.numbers entry ≡ true
      → MergesStably rt self entry
      → WellStored rt w.store.history
      → (old : Option TransactionHistoryEntry) × (result : TransactionHistoryEntry) × (w' : World
          Store)
        × (get rt self none false entry.hash w ≡ (w, ok old))
        × (result_of rt self old entry ≡ ok result)
        × (write rt self now link none false entry w ≡ (w', ok tt))
        × (get rt self none false entry.hash w' ≡ (w', ok (some result)))
  write-get iso_parses now link entry w b c merges valid stable ws =
      let safe = entry_hash_safe rt.numbers entry valid in
      let (old, found, readable) =
        existing_entry-WellStored rt self iso_parses entry.hash w.store.history ws in
      let (result, merging) = merged rt self iso_parses merges old entry readable valid in
      let (rows, written, reads) =
        write_reads rt self iso_parses now entry w.store.history old result valid
          (stable old result merging) ws.0 found merging in
      (
        old,
        result,
        written_rows rows w,
        get_reads entry.hash w safe found,
        merging,
        write_ok now link entry w b c valid written,
        get_reads entry.hash _ safe reads,
      )
