-- ===== src/Checkpoint/Tables.antt =====
-- The tables of src/postgres/migrations/002_checkpoint_store.ts.
use umbra_db.Prelude.{
  ℕ, ◌≡◌, ◌↔◌, Bool, true, ◌&&◌, List, Option, Text, Eq, text_beq, text_beq_iff, text_eq, arith,
}
use umbra_db.Table.{Table}

-- bytea values: payloads, chunks and hashes
abbrev pub Bytes : Type 0
Bytes = List ℕ

pub record WalletKey : Type 0 where
  pub w : Text
  pub net : Text

unfoldable pub wallet_key_beq : WalletKey → WalletKey → Bool
wallet_key_beq a b = text_beq a.w b.w && text_beq a.net b.net

pub wallet_key_beq_iff : (a b : WalletKey) → (wallet_key_beq a b ≡ true) ↔ (a ≡ b)
unfolding wallet_key_beq
wallet_key_beq_iff a b = ground (arith, text_beq_iff a.w b.w, text_beq_iff a.net b.net)

instance abbrev pub wallet_key_eq : Eq WalletKey
wallet_key_eq = record { beq = wallet_key_beq; beq_iff = wallet_key_beq_iff }

-- ckpt_chunks, keyed by the hash
pub record ChunkRow : Type 0 where
  pub bytes : Bytes
  pub created_at : ℕ

-- ckpt_manifests
pub record Manifest : Type 0 where
  pub id : ℕ
  pub owner : WalletKey
  pub seq : ℕ
  pub complete : Bool
  pub manifest_hash : Bytes
  pub label : Option Text
  pub created_at : ℕ

-- ckpt_manifest_chunks
pub record Junction : Type 0 where
  pub manifest_id : ℕ
  pub position : ℕ
  pub chunk_hash : Bytes

-- The four tables, and the next value of the bigserial `id`.
pub record CkptTables : Type 0 where
  pub chunks : Table Bytes ChunkRow
  pub manifests : List Manifest
  pub junctions : List Junction
  pub counters : Table WalletKey ℕ
  pub next_id : ℕ
