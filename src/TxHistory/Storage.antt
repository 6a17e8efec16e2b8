-- ===== src/TxHistory/Storage.antt =====
-- The public calls of PgTransactionHistoryStorage in src/postgres/transaction-history-storage.ts.
pub mod ReadBack
pub mod Order
pub mod Reads
use umbra_db.Prelude.{
  ℕ, Bool, true, false, not, ◌&&◌, List, [], ◌∷◌, Option, none, some, Text, text_beq, text_eq,
  pair_eq, leb, length, filter, if◌then◌else◌,
}
use umbra_db.SafeText.{has_postgres_unsafe_text}
use umbra_db.Table.{lookup}
use umbra_db.Errors.{Thrown, storage, validation_failed, Result, ok, fail}
use umbra_db.Exec.{Exec, pure, lift, ◌>>=◌, ◌>>◌, require, translating}
use umbra_db.Json.{Json, Items, nil, cons, arr}
use umbra_db.Transaction.{World, Link, begin}
use umbra_db.Store.{Store, on_history}
use umbra_db.Watermarks.{resolve}
use umbra_db.TxHistory.Entry.{
  pending, finalized, rejected, TransactionHistoryEntry, TxHistoryRow, is_entry,
  encode_stored_entry, row_to_entry,
}
use umbra_db.TxHistory.Rows.{
  TxRows, Runtime, PgTransactionHistoryStorage, MergeEntriesFn, existing_entry, write_rows,
}

-- the constructor
unfoldable pub create : Text → MergeEntriesFn → Result PgTransactionHistoryStorage
create wallet_id merge_fn =
    if leb 1 (length wallet_id)
    then ok (record { wallet_id = wallet_id; merge_fn = merge_fn })
    else fail (storage validation_failed)

abbrev pub HistoryRows : Type 0
HistoryRows = List (Text × TxHistoryRow)

-- SELECT tx_hash, ... WHERE wallet_id = wallet
unfoldable pub rows_of : Text → TxRows → HistoryRows
rows_of wallet [] = []
rows_of wallet ((k, row) ∷ rows) =
    let rest = rows_of wallet rows in if text_beq k.0 wallet then (k.1, row) ∷ rest else rest

unfoldable pub items : List Json → Items
items [] = nil
items (j ∷ js) = cons j (items js)

-- ORDER BY tx_hash, in the order of the database
module _ (collates : Text → Text → Bool) where
  unfoldable pub insert_by_hash : Text × TxHistoryRow → HistoryRows → HistoryRows
  insert_by_hash r [] = r ∷ []
  insert_by_hash r (s ∷ rs) =
      let rest = insert_by_hash r rs in if collates r.0 s.0 then r ∷ s ∷ rs else s ∷ rest

  unfoldable pub order_by_hash : HistoryRows → HistoryRows
  order_by_hash [] = []
  order_by_hash (r ∷ rs) = insert_by_hash r (order_by_hash rs)

-- one element of a map, and the others: the first error is thrown
unfoldable pub prepend {ℓ} : {A : Type ℓ} → Result A → Result (List A) → Result (List A)
prepend (ok a) (ok rest) = ok (a ∷ rest)
prepend (ok a) (fail err) = fail err
prepend (fail err) rest = fail err

module _ (rt : Runtime) (self : PgTransactionHistoryStorage) where
  -- rows.map(rowToEntry)
  unfoldable pub entries_of : HistoryRows → Result (List TransactionHistoryEntry)
  unfolding prepend
  entries_of [] = ok []
  entries_of (r ∷ rs) = prepend (row_to_entry rt.numbers rt.iso rt.new_date r.0 r.1) (entries_of rs)

  unfoldable pub get_all_impl : Exec TxRows (List TransactionHistoryEntry)
  get_all_impl =
      translating none
        λ rows. (rows, entries_of (order_by_hash rt.collates (rows_of self.wallet_id rows)))

  unfoldable pub get_all : Option ℕ → Bool → Exec (World Store) (List TransactionHistoryEntry)
  get_all tx is_aborted =
      resolve tx >>= λ _. require (not is_aborted) Thrown.aborted >>= λ _. on_history get_all_impl

  unfoldable pub get_impl : Text → Exec TxRows (Option TransactionHistoryEntry)
  get_impl hash =
      translating none
        λ rows. (rows, existing_entry rt self hash (lookup (self.wallet_id, hash) rows))

  unfoldable pub get : Option ℕ → Bool → Text → Exec (World Store) (Option TransactionHistoryEntry)
  get tx is_aborted hash = resolve tx >>= λ _.
      require (not (has_postgres_unsafe_text hash)) (storage validation_failed) >>= λ _.
      require (not is_aborted) Thrown.aborted >>= λ _. on_history (get_impl hash)

  -- all.map(encodeStoredEntry)
  unfoldable pub encode_all : List TransactionHistoryEntry → Result (List Json)
  unfolding prepend
  encode_all [] = ok []
  encode_all (e ∷ es) = prepend (encode_stored_entry rt.iso rt.new_date e) (encode_all es)

  unfoldable pub serialize : Option ℕ → Bool → Exec (World Store) Text
  serialize tx is_aborted = get_all tx is_aborted >>= λ es.
      lift (encode_all es) >>= λ js. pure (rt.json_stringify (arr (items js)))

  -- writeOwnTransaction, or writeRows on the caller's transaction
  unfoldable pub write_in :
      ℕ → Link → Option ℕ → TransactionHistoryEntry → Exec (World Store) (Unit {0})
  write_in now link none entry =
      translating none (begin link (on_history (write_rows rt self now entry)))
  write_in now link (some h) entry = on_history (write_rows rt self now entry)

  -- `now` is the start of the transaction
  unfoldable pub write :
      ℕ → Link → Option ℕ → Bool → TransactionHistoryEntry → Exec (World Store) (Unit {0})
  write now link tx is_aborted entry =
      resolve tx
      >> (require (is_entry rt.numbers entry) (storage validation_failed)
          >> (require (not is_aborted) Thrown.aborted >> write_in now link tx entry))

  -- the `lifecycle` of the argument is not read
  unfoldable pub got_pending :
      ℕ → Link → Option ℕ → Bool → TransactionHistoryEntry → Exec (World Store) (Unit {0})
  got_pending now link tx is_aborted entry =
      write now link tx is_aborted (record entry { lifecycle = pending })

  unfoldable pub got_finalized :
      ℕ → Link → Option ℕ → Bool → TransactionHistoryEntry → Exec (World Store) (Unit {0})
  got_finalized now link tx is_aborted entry =
      write now link tx is_aborted (record entry { lifecycle = finalized })

  unfoldable pub got_rejected :
      ℕ → Link → Option ℕ → Bool → TransactionHistoryEntry → Exec (World Store) (Unit {0})
  got_rejected now link tx is_aborted entry =
      write now link tx is_aborted (record entry { lifecycle = rejected })
