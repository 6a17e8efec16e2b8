-- ===== src/Checkpoint/History.antt =====
-- `history` of src/postgres/checkpoint-store.ts, on the snapshot that its transaction reads.
pub mod Page
pub mod Rows
use umbra_db.Prelude.{
  ℕ, ◌+◌, Bool, true, ◌&&◌, List, [], ◌∷◌, Option, none, some, filter, take, length, ltb, leb, ◌==◌,
  text_eq, not,
}
use umbra_db.Table.{Table, lookup}
use umbra_db.Errors.{Thrown, storage, validation_failed, Result, ok, fail}
use umbra_db.Exec.{Exec, ◌>>=◌, ◌>>◌, require}
use umbra_db.Transaction.{World, Link, repeatable_read}
use umbra_db.Store.{Store}
use umbra_db.Checkpoint.Tables.{Bytes, WalletKey, ChunkRow, Manifest, Junction, CkptTables}
use umbra_db.Checkpoint.Save.{Summary, to_summary, coerce_to_safe_number, max_safe_integer}
use umbra_db.Checkpoint.Load.{matches}
use umbra_db.Checkpoint.Prune.{order_by_seq}
use umbra_db.Checkpoint.Calls.{are_valid_ids, default_options, in_transaction}

pub record HistoryOptions : Type 0 where
  pub limit : ℕ
  pub before : Option ℕ

-- HistoryOptionsSchema
unfoldable pub is_valid_before : Option ℕ → Bool
is_valid_before none = true
is_valid_before (some n) = leb 1 n && leb n max_safe_integer

unfoldable pub is_valid_history : HistoryOptions → Bool
is_valid_history opts = (leb 1 opts.limit && leb opts.limit 1000) && is_valid_before opts.before

-- before IS NULL OR seq < before
unfoldable pub is_before : Option ℕ → ℕ → Bool
is_before none n = true
is_before (some b) n = ltb n b

-- the page query
unfoldable pub page : WalletKey → HistoryOptions → List Manifest → List Manifest
page key opts ms =
    take opts.limit (
      order_by_seq
        (filter (λ (m : Manifest). matches key none m && is_before opts.before m.seq) ms))

-- JOIN ckpt_chunks c ON c.hash = mc.chunk_hash: the bytes of a row's chunk, or no row
abbrev pub chunk_of : Table Bytes ChunkRow → Junction → Option ChunkRow
chunk_of chunks j = lookup j.chunk_hash chunks

-- count(*) and coalesce(sum(c.size_bytes), 0) of the rows of one manifest; (0, 0) without a group
unfoldable pub aggregate : Table Bytes ChunkRow → List Junction → ℕ × ℕ
aggregate chunks [] = (0, 0)
aggregate chunks (j ∷ js) =
    let (count, bytes) = aggregate chunks js in
    elim (chunk_of chunks j) [
      | none ↦ (count, bytes)
      | some c ↦ (count + 1, length c.bytes + bytes)
    ]

-- one element of manifestRows.map(...)
unfoldable pub summary_of_row : CkptTables → Manifest → Result Summary
summary_of_row t m =
    let (count, bytes) =
      aggregate t.chunks (filter (λ (j : Junction). j.manifest_id == m.id) t.junctions) in
    elim (coerce_to_safe_number bytes) [
      | fail e ↦ fail e
      | ok b ↦ elim (coerce_to_safe_number count) [ fail e ↦ fail e | ok n ↦ to_summary m b n ]
    ]

unfoldable pub summaries : CkptTables → List Manifest → Result (List Summary)
summaries t [] = ok []
summaries t (m ∷ ms) = elim (summary_of_row t m) [
  | fail e ↦ fail e
  | ok s ↦ elim (summaries t ms) [ ok rest ↦ ok (s ∷ rest) | fail e ↦ fail e ]
]

unfoldable pub history_impl : WalletKey → HistoryOptions → CkptTables → Result (List Summary)
history_impl key opts t = summaries t (page key opts t.manifests)

unfoldable pub history :
    Link → WalletKey → HistoryOptions → Bool → Exec (World Store) (List Summary)
history link key opts is_aborted = do
  require (are_valid_ids key) (storage validation_failed)
  require (is_valid_history opts) (storage validation_failed)
  require (not is_aborted) Thrown.aborted
  in_transaction link none (record default_options { isolation = some repeatable_read })
      (λ t. (t, history_impl key opts t))
