-- ===== src/TxHistory/Rows.antt =====
-- The table of src/postgres/migrations/004_transaction_history.ts, and writeRows of
-- src/postgres/transaction-history-storage.ts with its statements.
pub mod Cleared
pub mod Written
pub mod Invariant
use umbra_db.Prelude.{
  ℕ, Bool, true, false, not, ◌&&◌, List, Option, none, some, Text, text_beq, text_eq, pair_eq, all,
  any, leb, length, ℤ, units, if◌then◌else◌,
}
use umbra_db.Table.{Table, lookup, put, delete_where}
use umbra_db.Errors.{storage, validation_failed, Result, ok, fail}
use umbra_db.Exec.{Exec, lift, ◌>>=◌, ◌>>◌, statement, query, translating}
use umbra_db.Json.{Json}
use umbra_db.TxHistory.Entry.{
  EntryLifecycle, pending, finalized, rejected, TransactionHistoryEntry, Numbers, TxHistoryRow,
  row_of, checked, encode_stored_entry, row_to_entry,
}

-- keyed by (wallet_id, tx_hash)
abbrev pub TxRows : Type 0
TxRows = Table (Text × Text) TxHistoryRow

-- What the code relies on: zod's tests on numbers, Date.prototype.toISOString on valid Dates,
-- `new Date(text)`, what a jsonb column gives back for a value, the order of texts in the database,
-- and JSON.stringify.
pub record Runtime : Type 0 where
  pub numbers : Numbers
  pub iso : ℤ → Text
  pub new_date : Text → ℤ
  pub jsonb : Json → Json
  pub collates : Text → Text → Bool
  pub json_stringify : Json → Text

-- a MergeEntriesFn may throw
abbrev pub MergeEntriesFn : Type 0
MergeEntriesFn = TransactionHistoryEntry → TransactionHistoryEntry → Result TransactionHistoryEntry

-- the fields that the constructor binds
pub record PgTransactionHistoryStorage : Type 0 where
  pub wallet_id : Text
  pub merge_fn : MergeEntriesFn

-- INSERT ... ON CONFLICT (wallet_id, tx_hash) DO UPDATE
unfoldable pub upsert_entry :
    ℕ → Text → TransactionHistoryEntry → Json → TxRows → Result (TxRows × Unit {0})
upsert_entry now wallet e entry rows = ok (put (wallet, e.hash) (row_of now e entry) rows, tt)

-- identifiers <@ others
unfoldable pub is_contained : List Text → List Text → Bool
is_contained identifiers others = all (λ i. any (text_beq i) others) identifiers

-- the WHERE of the pending-clear
unfoldable pub is_superseded : Text → TransactionHistoryEntry → Text × Text → TxHistoryRow → Bool
is_superseded wallet e k row =
    text_beq k.0 wallet
    && (not (text_beq k.1 e.hash)
        && (text_beq row.lifecycle (units "pending")
            && (leb 1 (length row.identifiers) && is_contained row.identifiers e.identifiers)))

unfoldable pub is_settled : EntryLifecycle → Bool
is_settled pending = false
is_settled finalized = true
is_settled rejected = true

-- the condition of the pending-clear
unfoldable pub clears : TransactionHistoryEntry → Bool
clears e = is_settled e.lifecycle && leb 1 (length e.identifiers)

-- the pending-clear
unfoldable pub clear_superseded :
    Text → TransactionHistoryEntry → TxRows → Result (TxRows × Unit {0})
clear_superseded wallet e rows =
    ok ((if clears e then delete_where (is_superseded wallet e) rows else rows), tt)

unfoldable pub as_found : Result TransactionHistoryEntry → Result (Option TransactionHistoryEntry)
as_found (ok e) = ok (some e)
as_found (fail err) = fail err

module _ (rt : Runtime) (self : PgTransactionHistoryStorage) where
  -- existingRows.length > 0 ? rowToEntry(existingRows[0]) : undefined
  unfoldable pub existing_entry :
      Text → Option TxHistoryRow → Result (Option TransactionHistoryEntry)
  unfolding as_found
  existing_entry hash none = ok none
  existing_entry hash (some row) = as_found (row_to_entry rt.numbers rt.iso rt.new_date hash row)

  -- what merge_fn gave, after the tests on it
  unfoldable pub validated_merge :
      TransactionHistoryEntry → Result TransactionHistoryEntry → Result TransactionHistoryEntry
  validated_merge entry (fail err) = fail err
  validated_merge entry (ok merged) =
      if text_beq merged.hash entry.hash
      then checked rt.numbers merged
      else fail (storage validation_failed)

  -- the entry to persist: merge_fn is called only where an entry exists
  unfoldable pub result_of :
      Option TransactionHistoryEntry → TransactionHistoryEntry → Result TransactionHistoryEntry
  unfolding validated_merge
  result_of none entry = ok entry
  result_of (some existing) entry = validated_merge entry (self.merge_fn existing entry)

  -- writeRows, without its locks
  unfoldable pub write_rows : ℕ → TransactionHistoryEntry → Exec TxRows (Unit {0})
  write_rows now entry = translating none (
      query (lookup (self.wallet_id, entry.hash)) >>= λ row.
      lift (existing_entry entry.hash row) >>= λ existing.
      lift (result_of existing entry) >>= λ result.
      lift (encode_stored_entry rt.iso rt.new_date result) >>= λ stored.
      statement (upsert_entry now self.wallet_id result (rt.jsonb stored))
      >> statement (clear_superseded self.wallet_id result))
