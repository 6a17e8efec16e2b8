-- ===== src/Checkpoint/Calls.antt =====
-- The public calls of PgCheckpointStore: validation, abort, transaction and translation around the
-- bodies of Save, Load and Prune; validation from src/interfaces/checkpoint-store.ts.
pub mod AllOrNothing
use umbra_db.Prelude.{ℕ, ◌*◌, Bool, true, false, not, ◌&&◌, Option, none, some, length, leb}
use umbra_db.SafeText.{is_bounded_text}
use umbra_db.Errors.{Thrown, storage, validation_failed}
use umbra_db.Exec.{Exec, lift, ◌>>=◌, ◌>>◌, require, translating}
use umbra_db.Transaction.{
  World, Link, TransactionOptions, resolve_transaction, with_transaction, repeatable_read,
}
use umbra_db.Store.{Store, on_ckpt}
use umbra_db.Checkpoint.Tables.{Bytes, WalletKey, CkptTables}
use umbra_db.Checkpoint.Save.{
  Summary, split_chunks, run_on_tx, chunk_size_or_default, max_safe_integer,
}
use umbra_db.Checkpoint.Load.{CheckpointRecord, load_impl}
use umbra_db.Checkpoint.Prune.{PruneResult, prune_impl}

-- MAX_CHECKPOINT_ID_LENGTH
abbrev pub max_checkpoint_id_length : ℕ
max_checkpoint_id_length = 512

-- assertValidCheckpointIds
unfoldable pub are_valid_ids : WalletKey → Bool
are_valid_ids key =
    is_bounded_text max_checkpoint_id_length key.w
    && is_bounded_text max_checkpoint_id_length key.net

pub record SaveOptions : Type 0 where
  pub chunk_size : Option ℕ
  pub label : Option (Bytes)
  pub tx : Option ℕ
  pub is_aborted : Bool

-- SaveCheckpointOptionsSchema
unfoldable pub is_valid_chunk_size : Option ℕ → Bool
is_valid_chunk_size none = true
is_valid_chunk_size (some n) = leb 1 n && leb n (16 * 1024 * 1024)

unfoldable pub is_valid_label : Option Bytes → Bool
is_valid_label none = true
is_valid_label (some l) = leb (length l) 200

abbrev invalid : Thrown
invalid = storage validation_failed

abbrev pub default_options : TransactionOptions
default_options = record { isolation = none; timeout_ms = none }

-- the two branches at the end of saveImpl; `now` is the start of the transaction
unfoldable pub in_transaction :
    {A : Type 0} → Link → Option ℕ → TransactionOptions → Exec CkptTables A → Exec (World Store) A
in_transaction link (some h) opts body =
    resolve_transaction h >>= λ _. translating none (on_ckpt body)
in_transaction link none opts body =
    translating none
      (with_transaction link opts false λ tx. resolve_transaction tx >>= λ _. on_ckpt body)

unfoldable pub prune : ℕ → Link → WalletKey → ℕ → Bool → Exec (World Store) PruneResult
prune now link key retain is_aborted = do
  require (are_valid_ids key) invalid
  require (leb 1 retain && leb retain max_safe_integer) invalid
  require (not is_aborted) Thrown.aborted
  in_transaction link none default_options (prune_impl now key retain)

module _ (sha256 : Bytes → Bytes) where
  unfoldable pub save : ℕ → Link → WalletKey → Bytes → SaveOptions → Exec (World Store) Summary
  save now link key bytes opts = do
    require (are_valid_ids key) invalid
    require (is_valid_chunk_size opts.chunk_size && is_valid_label opts.label) invalid
    require (not opts.is_aborted) Thrown.aborted
    chunks ← lift (split_chunks bytes (chunk_size_or_default opts.chunk_size))
    in_transaction link opts.tx default_options (run_on_tx sha256 now key bytes chunks opts.label)

  unfoldable pub load : Link → WalletKey → Option ℕ → Bool → Exec (World Store) CheckpointRecord
  load link key sequence is_aborted = do
    require (are_valid_ids key) invalid
    require (not is_aborted) Thrown.aborted
    in_transaction link none (record default_options { isolation = some repeatable_read })
        (λ t. (t, load_impl sha256 key sequence t))
