-- ===== src/Envelope/Store.antt =====
-- PgWalletStateEnvelopeStore of src/postgres/wallet-state-envelope.ts, over a CheckpointStore
-- (src/interfaces/checkpoint-store.ts) that the caller injects.
pub mod Restored
use umbra_db.Prelude.{ℕ, Bool, ◌&&◌, Option, none, Text, text_beq}
use umbra_db.Errors.{storage, validation_failed, envelope_corrupt}
use umbra_db.Exec.{Exec, pure, lift, ◌>>=◌, ◌>>◌, require}
use umbra_db.Checkpoint.Tables.{Bytes, WalletKey, CkptTables}
use umbra_db.Checkpoint.Save.{Summary, save_impl}
use umbra_db.Checkpoint.Load.{CheckpointRecord, load_impl}
use umbra_db.Checkpoint.Calls.{are_valid_ids}
use umbra_db.Envelope.{WalletStateEnvelope, Codecs, encode, decode}

-- CheckpointStore, as far as the envelope store calls it; the options of `save` are in the function
pub record CheckpointStore (S : Type 0) : Type 0 where
  pub save_bytes : Text → Text → Bytes → Exec S Summary
  pub load_record : Text → Text → Option ℕ → Exec S CheckpointRecord

-- envelope.walletId === walletId && envelope.networkId === networkId
unfoldable pub echoes : Text → Text → WalletStateEnvelope → Bool
echoes wallet network e = text_beq e.wallet_id wallet && text_beq e.network_id network

module _ (codecs : Codecs) {S : Type 0} (store : CheckpointStore S) where
  unfoldable pub save : Text → Text → WalletStateEnvelope → Exec S Summary
  save wallet network e =
      require (echoes wallet network e) (storage validation_failed)
      >> (lift (encode codecs e) >>= λ bytes. store.save_bytes wallet network bytes)

  unfoldable pub load : Text → Text → Option ℕ → Exec S WalletStateEnvelope
  load wallet network sequence = store.load_record wallet network sequence >>= λ r.
      lift (decode codecs r.payload) >>= λ e.
      require (echoes wallet network e) (storage envelope_corrupt) >>= λ _. pure e

-- The store of src/postgres/checkpoint-store.ts with its default options: assertValidCheckpointIds,
-- and saveImpl and loadImpl on the tables that their transactions see.
unfoldable pub checkpoint_store : (Bytes → Bytes) → ℕ → CheckpointStore CkptTables
checkpoint_store sha256 now = record {
  save_bytes = λ wallet network bytes.
      require (are_valid_ids (record { w = wallet; net = network })) (storage validation_failed)
      >> save_impl sha256 now (record { w = wallet; net = network }) bytes none none;
  load_record = λ wallet network sequence.
      require (are_valid_ids (record { w = wallet; net = network })) (storage validation_failed)
      >> (λ t. (t, load_impl sha256 (record { w = wallet; net = network }) sequence t));
}
